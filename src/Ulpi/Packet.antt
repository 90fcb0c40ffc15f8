-- ===== src/Ulpi/Packet.antt =====
-- A data packet from the link, from the cycle after its PID to its stop.
use native.Mathlib.Nat.{zero-add}
use misc_verilog_cores.Base.{
  ℕ, zero, suc, ◌+◌, ◌≤◌, ◌<◌, ◌≡◌, ◌≢◌, refl, sym, ap, ap₂, ◌∙◌, true, false, pos, negsuc, ok,
  ◌>>=◌, List, [], ◌∷◌, ◌++◌, length, length-append, get_or, get_or-take, take, set_all,
  length-set_all, take-set_all, take-take, take-append, All, arith, if◌then◌else◌,
}
use misc_verilog_cores.Crc.{crc16_calc, crc16_bytes}
use misc_verilog_cores.Crc.Packet.{trailer}
use misc_verilog_cores.Ulpi.{
  sig0, sig1, byte, datax_body, datax_stop, Bus, Transfer, XferStage, stepped,
}
use misc_verilog_cores.Ulpi.Step.Eop.{check_rx_crc16, check_rx_by, check_rx_zdp}
use misc_verilog_cores.Ulpi.Step.Recv.{recv_body, end_of_data, less_two}
use misc_verilog_cores.Ulpi.Receive.{receive, taken, InBody, is_up_data, receive_whole}
use misc_verilog_cores.Ulpi.Check.{with_crc, check_good, check_bad}

less_two_lem : (k : ℕ) → less_two (k + 2) ≡ pos k
less_two_lem k = let e : k + 2 ≡ suc (suc k) = omega arith in rw e refl

-- The buffer after a packet body from its start.
abbrev pub filled : Transfer → List ℕ → List ℕ
filled xfer bytes = set_all xfer.rx 0 bytes

pub take-filled :
    (xfer : Transfer) (w : List ℕ) → length w ≤ length xfer.rx → take (length w) (filled xfer w) ≡ w
take-filled xfer w fits =
    ap (λ (k : ℕ). take k (filled xfer w)) (sym (zero-add (length w)))
    ∙ take-set_all xfer.rx 0 w (omega arith)

-- The transfer as the check at the stop finds it.
abbrev pub stopped : Transfer → List ℕ → ℕ → Transfer
stopped xfer w n = record xfer {
  stage = datax_stop;
  rx = filled xfer w;
  rx_ptr = length w;
  rx_len = pos n;
}

abbrev pub turned : Bus → Bus
turned bus = record bus { dir = sig1; nxt = sig0; dat = byte 0x00 0xFF }

pub stop_lem :
    (xfer : Transfer) (w : List ℕ) (n : ℕ) (stop : Bus)
    → stop.stp ≡ sig1
    → length w ≡ n + 2
    → recv_body
        (record xfer { stage = datax_body; rx = filled xfer w; rx_ptr = length w })
        stop
        stop
      ≡ (check_rx_by (pos n) (stopped xfer w n) >>= λ r.
          if r.0 then stepped (pos 0) r.1 (turned stop) else stepped (negsuc 0) r.1 (turned stop))
unfolding recv_body end_of_data check_rx_crc16
stop_lem xfer w n stop s e =
    let len : less_two (length w) ≡ pos n = ap less_two e ∙ less_two_lem n in rw (s, len) refl

trailer-nil : trailer [] ≡ 0 ∷ 0 ∷ []
unfolding crc16_calc crc16_bytes
trailer-nil = refl

zdp_good :
    (y : Transfer) → 2 ≤ length y.rx → take 2 y.rx ≡ 0 ∷ 0 ∷ [] → check_rx_zdp y ≡ ok (true, y)
unfolding check_rx_zdp
zdp_good y fits w =
    let first : get_or y.rx 0 0 ≡ 0 =
      sym (get_or-take 2 0 y.rx 0 (omega arith)) ∙ ap (λ (l : List ℕ). get_or l 0 0) w in
    let second : get_or y.rx 1 0 ≡ 0 =
      sym (get_or-take 2 1 y.rx 0 (omega arith)) ∙ ap (λ (l : List ℕ). get_or l 1 0) w in
    ground arith

-- What the check leaves of the transfer.
abbrev pub checked : Transfer → List ℕ → Transfer
checked y [] = y
checked y (x ∷ d) = with_crc (crc16_calc (x ∷ d)) y

pub check_by_good :
    (y : Transfer) (d : List ℕ)
    → length d + 2 ≡ y.rx_ptr
    → y.rx_ptr ≤ length y.rx
    → take y.rx_ptr y.rx ≡ d ++ trailer d
    → check_rx_by (pos (length d)) y ≡ ok (true, checked y d)
unfolding check_rx_by
check_by_good y [] e fits w =
    let two : y.rx_ptr ≡ 2 = omega arith in
    zdp_good y (omega arith) (ap (λ (k : ℕ). take k y.rx) (sym two) ∙ w ∙ trailer-nil)
check_by_good y (x ∷ d) e fits w = check_good y fits (x ∷ d) e w

checked-rx : (y : Transfer) (d : List ℕ) → (checked y d).rx ≡ y.rx
checked-rx y [] = refl
checked-rx y (x ∷ d) = refl

checked-stage : (y : Transfer) (d : List ℕ) → (checked y d).stage ≡ y.stage
checked-stage y [] = refl
checked-stage y (x ∷ d) = refl

checked-rx_len : (y : Transfer) (d : List ℕ) → (checked y d).rx_len ≡ y.rx_len
checked-rx_len y [] = refl
checked-rx_len y (x ∷ d) = refl

check_by_bad :
    (s : Transfer) (len : ℕ) (d pre post : List ℕ) (x y : ℕ)
    → 0 < len
    → len + 2 ≡ s.rx_ptr
    → s.rx_ptr ≤ length s.rx
    → pre ++ x ∷ post ≡ d ++ trailer d
    → take s.rx_ptr s.rx ≡ pre ++ y ∷ post
    → x < 256
    → y < 256
    → x ≢ y
    → check_rx_by (pos len) s ≡ ok (false, with_crc (crc16_calc (take len s.rx)) s)
unfolding check_rx_by
check_by_bad s zero d pre post x y h e fits sent w hx hy ne = absurd (omega arith)
check_by_bad s (suc len) d pre post x y h e fits sent w hx hy ne =
    check_bad s fits (suc len) d pre post x y e sent w hx hy ne

same_length : (pre post : List ℕ) (x y : ℕ) → length (pre ++ y ∷ post) ≡ length (pre ++ x ∷ post)
same_length pre post x y = length-append pre (y ∷ post) ∙ sym (length-append pre (x ∷ post))

module _ (xfer : Transfer) (inps : List Bus) (stop out : Bus) (up : is_up_data xfer.type ≡ true)
    (stage : xfer.stage ≡ datax_body) (start : xfer.rx_ptr ≡ 0) (running : All InBody inps)
    (down : stop.dir ≡ sig0) (stp : stop.stp ≡ sig1) where
  -- The cycles of the packet amount to the check at its stop.
  packet_lem :
      (n : ℕ)
      → length (taken inps) ≡ n + 2
      → length (taken inps) ≤ length xfer.rx
      → receive (inps ++ stop ∷ []) xfer out ≡ (
          check_rx_by (pos n) (stopped xfer (taken inps) n) >>= λ r.
          if r.0 then stepped (pos 0) r.1 (turned stop) else stepped (negsuc 0) r.1 (turned stop))
  packet_lem n e fits =
      ap₂
        (λ (g : XferStage) (k : ℕ).
          receive (inps ++ stop ∷ []) (record xfer { stage = g; rx_ptr = k }) out)
        stage start
      ∙ receive_whole xfer.type xfer up xfer.rx 0 inps stop out running down (omega (arith, fits))
      ∙ ap
          (λ (k : ℕ).
            recv_body
              (record xfer { stage = datax_body; rx = filled xfer (taken inps); rx_ptr = k }) stop
              stop)
          (zero-add (length (taken inps)))
      ∙ stop_lem xfer (taken inps) n stop stp e

  -- A packet that the link sends with its CRC, in any cycles with any wait states between, is
  -- accepted at its stop: the result is 0, the end of the packet begins, `rx_len` is the number of
  -- the data bytes, and `rx` begins with them. The buffer has to hold the data and the two CRC bytes.
  pub receive_packet :
      (d : List ℕ)
      → taken inps ≡ d ++ trailer d
      → length d + 2 ≤ length xfer.rx
      → (y : Transfer) × (o : Bus) × (receive (inps ++ stop ∷ []) xfer out ≡ stepped (pos 0) y o)
        × (y.stage ≡ datax_stop)
        × (y.rx_len ≡ pos (length d))
        × (take (length d) y.rx ≡ d)
  receive_packet d w fits =
      let size : length (taken inps) ≡ length d + 2 = ap length w ∙ length-append d (trailer d) in
      let y = stopped xfer (taken inps) (length d) in
      let room : length (taken inps) ≤ length xfer.rx = omega arith in
      let whole : take (length (taken inps)) (filled xfer (taken inps)) ≡ d ++ trailer d =
        take-filled xfer (taken inps) room ∙ w in
      (
        checked y d,
        turned stop,
        packet_lem (length d) size room
            ∙ rw
                (check_by_good y d (sym size) (omega (arith, length-set_all xfer.rx 0 (taken inps)))
                  whole)
                refl,
        checked-stage y d,
        checked-rx_len y d,
        ap (take (length d)) (checked-rx y d)
            ∙ sym (
                take-take (length d) (length (taken inps)) (filled xfer (taken inps)) (omega arith))
            ∙ ap (take (length d)) whole
            ∙ take-append d (trailer d),
      )

  -- A packet with data that differs from one with a right CRC in a single byte, in the data or in
  -- the CRC, is refused at its stop with the result -1.
  pub receive_damaged :
      (d pre post : List ℕ) (x y : ℕ)
      → 0 < length d
      → length d + 2 ≤ length xfer.rx
      → pre ++ x ∷ post ≡ d ++ trailer d
      → taken inps ≡ pre ++ y ∷ post
      → x < 256
      → y < 256
      → x ≢ y
      → (z : Transfer) × (o : Bus) × (receive (inps ++ stop ∷ []) xfer out ≡ stepped (negsuc 0) z o)
  receive_damaged d pre post x y some_data fits sent w hx hy ne =
      let size : length (taken inps) ≡ length d + 2 =
        ap length w ∙ same_length pre post x y ∙ ap length sent ∙ length-append d (trailer d) in
      let s = stopped xfer (taken inps) (length d) in
      let room : length (taken inps) ≤ length xfer.rx = omega arith in
      let whole : take (length (taken inps)) (filled xfer (taken inps)) ≡ pre ++ y ∷ post =
        take-filled xfer (taken inps) room ∙ w in
      (
        with_crc (crc16_calc (take (length d) s.rx)) s,
        turned stop,
        packet_lem (length d) size room
            ∙ rw
                (check_by_bad s (length d) d pre post x y some_data (sym size)
                  (omega (arith, length-set_all xfer.rx 0 (taken inps))) sent whole hx hy ne)
                refl,
      )
