-- ===== src/Ulpi/SendRun.antt =====
-- `datax_send_step` from its first to its last cycle.
use native.Mathlib.Nat.{suc-add}
use mathlib.Core.List.{append_assoc}
use misc_verilog_cores.Base.{
  ℕ, zero, suc, ◌+◌, ◌≤◌, ◌<◌, ◌≡◌, refl, sym, ap, ◌∙◌, bit_and, Bool, true, false, pos, ok, some,
  Option, Result, List, [], ◌∷◌, ◌++◌, map, length, get_or, take, drop, drop-eq-cons,
  take-suc-eq-cons, ap₂, arith,
}
use misc_verilog_cores.Ulpi.{
  XferType, dn_data0, dn_data1, xfer_idle, no_xfer, assert_dir, init_rxcmd, datax_pid, datax_body,
  datax_crc1, datax_crc2, end_rxcmd, eop, line_idle, ulpi_bus_idle, Bus, Transfer, XferStage,
  stepped, check_seq,
}
use misc_verilog_cores.Ulpi.Step.Send.{datax_send_step, datax_send_at, datax_pid_byte}
use misc_verilog_cores.Ulpi.Step.Eop.{drive_eop}
use misc_verilog_cores.Ulpi.Run.{Finished, zero_bus, ulpi_step_with, step_loop, ulpi_step_with_more}
use misc_verilog_cores.Ulpi.Listen.{
  listen, listen_next, listen_last, packet_log, packet_byte, packet_end, packet_start, phy_bus,
}

-- The parity bit of a data packet.
abbrev pub sequence : XferType → ℕ
sequence dn_data1 = 1
sequence _ = 0

abbrev pub is_dn_data : XferType → Bool
is_dn_data dn_data0 = true
is_dn_data dn_data1 = true
is_dn_data _ = false

-- The transfer's endpoint has the parity that a packet of type `t` stands for.
abbrev pub InSequence : XferType → Transfer → Type 0
InSequence t xfer = get_or xfer.ep_seq (bit_and xfer.endpoint 0x0f) 0 ≡ sequence t

-- The transfer at a stage, with `i` bytes sent.
abbrev pub sending : XferType → Transfer → XferStage → ℕ → Transfer
sending t xfer st i = record xfer { type = t; stage = st; tx_ptr = i }

pub datax_send_step_of :
    (t : XferType) (xfer : Transfer) (st : XferStage) (i : ℕ) (inp out : Bus)
    → is_dn_data t ≡ true
    → InSequence t xfer
    → datax_send_step (sending t xfer st i) inp out
      ≡ datax_send_at st (datax_pid_byte t) (sending t xfer st i) inp inp
unfolding datax_send_step check_seq
datax_send_step_of dn_data0 xfer st i inp out h e = rw e refl
datax_send_step_of dn_data1 xfer st i inp out h e = rw e refl
datax_send_step_of _ xfer st i inp out h e = cc

-- The bytes between the PID and the second byte of the CRC.
abbrev pub payload : Transfer → ℕ → List ℕ
payload xfer zero = 0x00 ∷ []
payload xfer (suc n) = take (suc n) xfer.tx ++ xfer.crc1 ∷ []

add_three : (n : ℕ) → n + 9 ≡ suc (suc (suc (n + 6)))
add_three n = omega arith

abbrev done : Transfer → ℕ → List Bus → Result (Option (Finished (List Bus)))
done xfer i log = ok (
    some (record {
      code = pos 1;
      xfer = record xfer { type = xfer_idle; stage = no_xfer; tx_ptr = i };
      user = log;
      bus = phy_bus 0 0 0x00 0xFF;
    }))

module _ (t : XferType) (xfer : Transfer) (is_data : is_dn_data t ≡ true)
    (s : InSequence t xfer) where
  abbrev run : ℕ → XferStage → ℕ → List Bus → Bus → Result (Option (Finished (List Bus)))
  run fuel st i log bus = step_loop datax_send_step listen fuel (sending t xfer st i) log bus bus

  step :
      (st : XferStage) (i : ℕ) (inp : Bus)
      → datax_send_step (sending t xfer st i) inp inp
        ≡ datax_send_at st (datax_pid_byte t) (sending t xfer st i) inp inp
  step st i inp = datax_send_step_of t xfer st i inp inp is_data s

  -- The five cycles after the first byte of the CRC.
  close_packet :
      (i : ℕ) (log : List Bus) (x : ℕ)
      → run 5 datax_crc1 i log (packet_byte x)
        ≡ done xfer i (log ++ (packet_byte xfer.crc2 ∷ packet_end))
  unfolding datax_send_at drive_eop
  close_packet i log x =
      listen_next datax_send_step 4 log (packet_byte x) (step datax_crc1 i (packet_byte x))
      ∙ listen_next datax_send_step 3 _ (packet_byte xfer.crc2)
          (step datax_crc2 i (packet_byte xfer.crc2))
      ∙ listen_next datax_send_step 2 _ (phy_bus 1 0 0x4C 0x00)
          (step end_rxcmd i (phy_bus 1 0 0x4C 0x00))
      ∙ listen_next datax_send_step 1 _ (phy_bus 1 0 0x4D 0x00) (step eop i (phy_bus 1 0 0x4D 0x00))
      ∙ listen_last datax_send_step 0 _ (phy_bus 0 0 0x00 0xFF)
          (step line_idle i (phy_bus 0 0 0x00 0xFF))
      ∙ simp append_assoc

  body_next :
      (i : ℕ) (x : ℕ)
      → i < xfer.tx_len
      → xfer.tx_len ≤ length xfer.tx
      → datax_send_step (sending t xfer datax_body i) (packet_byte x) (packet_byte x)
        ≡ stepped (pos 0) (sending t xfer datax_body (i + 1)) (packet_byte (get_or xfer.tx i 0))
  unfolding datax_send_at
  body_next i x h fits = step datax_body i (packet_byte x) ∙ ground arith

  body_end :
      (i : ℕ) (x : ℕ)
      → i ≡ xfer.tx_len
      → datax_send_step (sending t xfer datax_body i) (packet_byte x) (packet_byte x)
        ≡ stepped (pos 0) (sending t xfer datax_crc1 i) (packet_byte xfer.crc1)
  unfolding datax_send_at
  body_end i x h = step datax_body i (packet_byte x) ∙ ground arith

  send_body :
      (left i : ℕ) (log : List Bus) (x : ℕ)
      → i + left ≡ xfer.tx_len
      → xfer.tx_len ≤ length xfer.tx
      → run (left + 6) datax_body i log (packet_byte x)
        ≡ done xfer xfer.tx_len (
            log
            ++ (map packet_byte (take left (drop i xfer.tx) ++ xfer.crc1 ∷ xfer.crc2 ∷ [])
                ++ packet_end))
  send_body zero i log x e fits =
      let here : i ≡ xfer.tx_len = omega arith in
      listen_next datax_send_step 5 log (packet_byte x) (body_end i x here)
      ∙ close_packet i (log ++ packet_byte xfer.crc1 ∷ []) xfer.crc1
      ∙ ap
          (λ (k : ℕ).
            done xfer k
              ((log ++ packet_byte xfer.crc1 ∷ []) ++ (packet_byte xfer.crc2 ∷ packet_end)))
          here
      ∙ simp append_assoc
  send_body (suc left) i log x e fits =
      let y = get_or xfer.tx i 0 in
      let more : drop i xfer.tx ≡ y ∷ drop (suc i) xfer.tx =
        drop-eq-cons i xfer.tx 0 (omega arith) in
      let one : i + 1 ≡ suc i = omega arith in
      rw (suc-add left 6) (
        listen_next datax_send_step (left + 6) log (packet_byte x) (
          body_next i x (omega arith) fits
          ∙ ap (λ (k : ℕ). stepped (pos 0) (sending t xfer datax_body k) (packet_byte y)) one)
        ∙ send_body left (suc i) (log ++ packet_byte y ∷ []) y (omega arith) fits
        ∙ rw more (simp append_assoc))

  -- The four cycles before the first byte, or before the CRC of an empty packet.
  open_packet :
      (fuel : ℕ) (out : Bus)
      → step_loop datax_send_step listen
          (suc (suc (suc fuel)))
          (sending t xfer no_xfer 0)
          []
          ulpi_bus_idle
          out
        ≡ run fuel datax_pid 0
            (packet_start ++ packet_byte (datax_pid_byte t) ∷ [])
            (packet_byte (datax_pid_byte t))
  unfolding datax_send_at
  open_packet fuel out =
      listen_next datax_send_step (suc (suc fuel)) [] out
        (datax_send_step_of t xfer no_xfer 0 ulpi_bus_idle out is_data s)
      ∙ listen_next datax_send_step (suc fuel) _ (phy_bus 1 1 0x00 0xFF)
          (step assert_dir 0 (phy_bus 1 1 0x00 0xFF))
      ∙ listen_next datax_send_step fuel _ (phy_bus 1 0 0x5D 0x00)
          (step init_rxcmd 0 (phy_bus 1 0 0x5D 0x00))

  empty_next :
      (x : ℕ)
      → 0 ≡ xfer.tx_len
      → datax_send_step (sending t xfer datax_pid 0) (packet_byte x) (packet_byte x)
        ≡ stepped (pos 0) (sending t xfer datax_crc1 0) (packet_byte 0x00)
  unfolding datax_send_at
  empty_next x h = step datax_pid 0 (packet_byte x) ∙ ground arith

  first_next :
      (x : ℕ)
      → 0 < xfer.tx_len
      → 0 < length xfer.tx
      → datax_send_step (sending t xfer datax_pid 0) (packet_byte x) (packet_byte x)
        ≡ stepped (pos 0) (sending t xfer datax_body 1) (packet_byte (get_or xfer.tx 0 0))
  unfolding datax_send_at
  first_next x h fits = step datax_pid 0 (packet_byte x) ∙ ground arith

  send_payload :
      (n : ℕ) (log : List Bus) (x : ℕ)
      → n ≡ xfer.tx_len
      → n ≤ length xfer.tx
      → run (n + 6) datax_pid 0 log (packet_byte x)
        ≡ done xfer n (log ++ (map packet_byte (payload xfer n ++ xfer.crc2 ∷ []) ++ packet_end))
  send_payload zero log x e fits =
      listen_next datax_send_step 5 log (packet_byte x) (empty_next x e)
      ∙ close_packet 0 (log ++ packet_byte 0x00 ∷ []) 0x00
      ∙ simp append_assoc
  send_payload (suc n) log x e fits =
      let y = get_or xfer.tx 0 0 in
      let tail = take n (drop 1 xfer.tx) in
      let first : take (suc n) xfer.tx ≡ y ∷ tail = take-suc-eq-cons n xfer.tx 0 (omega arith) in
      rw (suc-add n 6) (
        listen_next datax_send_step (n + 6) log (packet_byte x)
          (first_next x (omega arith) (omega arith))
        ∙ send_body n 1 (log ++ packet_byte y ∷ []) y (omega arith) (omega arith)
        ∙ ap₂ (done xfer) (sym e) (
            append_assoc log (packet_byte y ∷ [])
              (map packet_byte (tail ++ xfer.crc1 ∷ xfer.crc2 ∷ []) ++ packet_end)
            ∙ ap (λ (l : List ℕ). log ++ (map packet_byte l ++ packet_end))
                (sym (
                  append_assoc (take (suc n) xfer.tx) (xfer.crc1 ∷ []) (xfer.crc2 ∷ [])
                  ∙ ap (λ (l : List ℕ). l ++ xfer.crc1 ∷ xfer.crc2 ∷ []) first))))

-- Sending a DATA0 or DATA1 packet from an idle bus, with the parity of its endpoint and a buffer
-- that holds the `tx_len` bytes, ends within `tx_len` + 9 steps with the result 1, an idle transfer
-- and all bytes sent. The link sees the packet of the PID, the bytes in their order and the two CRC
-- bytes, framed by the RX CMDs. In an empty packet 0x00 stands for the first CRC byte, and the
-- second is `crc2` all the same.
pub datax_send_run :
    (fuel : ℕ) (xfer : Transfer)
    → is_dn_data xfer.type ≡ true
    → InSequence xfer.type xfer
    → xfer.tx_ptr ≡ 0
    → xfer.tx_len ≤ length xfer.tx
    → xfer.tx_len + 9 ≤ fuel
    → ulpi_step_with datax_send_step listen fuel xfer []
      ≡ ok (
          some (record {
            code = pos 1;
            xfer = record xfer { type = xfer_idle; stage = no_xfer; tx_ptr = xfer.tx_len };
            user =
                packet_log
                  (datax_pid_byte xfer.type ∷ (payload xfer xfer.tx_len ++ xfer.crc2 ∷ []));
            bus = phy_bus 0 0 0x00 0xFF;
          }))
unfolding ulpi_step_with
datax_send_run fuel xfer d s start fits h =
    ulpi_step_with_more datax_send_step listen (xfer.tx_len + 9) fuel xfer [] h (
      ap
        (λ (k : ℕ).
          step_loop datax_send_step listen (xfer.tx_len + 9)
            (record xfer { stage = no_xfer; tx_ptr = k }) [] ulpi_bus_idle zero_bus)
        start
      ∙ rw (add_three xfer.tx_len) (
          open_packet xfer.type xfer d s (xfer.tx_len + 6) zero_bus
          ∙ send_payload xfer.type xfer d s xfer.tx_len _ _ refl fits))
