-- ===== src/Host/Throttle.antt =====
-- The random wait states in the data of `bulk_out_step` of vpi/usb/usbhost.c.
use native.Mathlib.Decide.{ℕ_discrete}
use misc_verilog_cores.Base.{
  ℕ, zero, suc, ltb, ◌&&◌, ◌+◌, ◌-◌, ◌*◌, ◌≤◌, ◌<◌, ◌≡◌, ◌≢◌, refl, sym, ap, ◌∙◌, true, false, ◌==◌,
  if◌then◌else◌, Bool-cases, inl, inr, ◌⊎◌, pos, Result, ok, ◌>>=◌, List, [], ◌∷◌, length, get_or,
  take, drop, drop-eq-cons, arith,
}
use misc_verilog_cores.Ulpi.{
  sig0, sig1, byte, Bus, Transfer, XferType, XferStage, dn_data0, dn_data1, datax_body, stepped,
}
use misc_verilog_cores.Ulpi.Step.Send.{datax_send_step, datax_send_at}
use misc_verilog_cores.Ulpi.SendRun.{is_dn_data, InSequence, sending, datax_send_step_of}
use misc_verilog_cores.Host.{Host}
use misc_verilog_cores.Host.Bulk.{bulk_out_step, throttled}

-- One step for each result of `rand()`, on a bus that nobody else drives, until all of the data was
-- sent: the bytes in cycles with NXT, the host and the bus.
unfoldable pub send_data : List ℕ → Host → Bus → Result (List ℕ × Host × Bus)
send_data [] host bus = ok ([], host, bus)
send_data (rand ∷ rands) host bus =
    if host.xfer.tx_ptr == host.xfer.tx_len
    then ok ([], host, bus)
    else (bulk_out_step rand host bus bus >>= λ s. send_data rands s.state s.out >>= λ r.
        ok (if s.out.nxt == sig1 then s.out.dat.a ∷ r.0 else r.0, r.1, r.2))

-- The host at a stage of a packet of type `t`, with `i` bytes sent.
abbrev pub sending_host : XferType → Host → XferStage → ℕ → Host
sending_host t host st i = record host { xfer = sending t host.xfer st i }

-- A wait state: the host stays as it is.
pub stall :
    (t : XferType) (host : Host) (st : XferStage) (i rand : ℕ) (bus : Bus)
    → is_dn_data t ≡ true
    → i < host.xfer.tx_len
    → bus.nxt ≡ sig1
    → throttled rand ≡ true
    → bulk_out_step rand (sending_host t host st i) bus bus
      ≡ stepped
          (pos 0)
          (sending_host t host st i)
          (record bus { nxt = sig0; dat = byte 0x5D bus.dat.b })
unfolding bulk_out_step
stall dn_data0 host st i rand bus d h n r = ground arith
stall dn_data1 host st i rand bus d h n r = ground arith
stall _ host st i rand bus d h n r = cc

-- Every other step is that of `datax_send_step`.
pub proceed :
    (t : XferType) (host : Host) (st : XferStage) (i rand : ℕ) (bus o : Bus) (y : Transfer)
    → is_dn_data t ≡ true
    → (ltb i host.xfer.tx_len && (bus.nxt == sig1 && throttled rand)) ≡ false
    → datax_send_step (sending t host.xfer st i) bus bus ≡ stepped (pos 0) y o
    → bulk_out_step rand (sending_host t host st i) bus bus
      ≡ stepped (pos 0) (record host { xfer = y }) o
unfolding bulk_out_step
proceed dn_data0 host st i rand bus o y d c e = rw e (ground arith)
proceed dn_data1 host st i rand bus o y d c e = rw e (ground arith)
proceed _ host st i rand bus o y d c e = cc

module _ (t : XferType) (host : Host) (is_data : is_dn_data t ≡ true)
    (s : InSequence t host.xfer) where
  body_step :
      (i : ℕ) (bus : Bus)
      → i < host.xfer.tx_len
      → host.xfer.tx_len ≤ length host.xfer.tx
      → datax_send_step (sending t host.xfer datax_body i) bus bus
        ≡ stepped
            (pos 0)
            (sending t host.xfer datax_body (i + 1))
            (record bus { nxt = sig1; dat = byte (get_or host.xfer.tx i 0) 0x00 })
  unfolding datax_send_at
  body_step i bus h fits =
      datax_send_step_of t host.xfer datax_body i bus bus is_data s ∙ ground arith

  send_step :
      (i rand : ℕ) (bus : Bus)
      → i < host.xfer.tx_len
      → host.xfer.tx_len ≤ length host.xfer.tx
      → (bus.nxt ≢ sig1) ⊎ (throttled rand ≡ false)
      → bulk_out_step rand (sending_host t host datax_body i) bus bus
        ≡ stepped
            (pos 0)
            (sending_host t host datax_body (i + 1))
            (record bus { nxt = sig1; dat = byte (get_or host.xfer.tx i 0) 0x00 })
  send_step i rand bus h fits c =
      proceed t host datax_body i rand bus
        (record bus { nxt = sig1; dat = byte (get_or host.xfer.tx i 0) 0x00 })
        (sending t host.xfer datax_body (i + 1)) is_data (ground arith) (body_step i bus h fits)

  after_send :
      (i rand : ℕ) (rands : List ℕ) (bus : Bus)
      → i < host.xfer.tx_len
      → host.xfer.tx_len ≤ length host.xfer.tx
      → (bus.nxt ≢ sig1) ⊎ (throttled rand ≡ false)
      → let o : Bus = record bus { nxt = sig1; dat = byte (get_or host.xfer.tx i 0) 0x00 } in
        send_data (rand ∷ rands) (sending_host t host datax_body i) bus ≡ (
          send_data rands (sending_host t host datax_body (i + 1)) o >>= λ r.
          ok (get_or host.xfer.tx i 0 ∷ r.0, r.1, r.2))
  unfolding send_data
  after_send i rand rands bus h fits c = rw (send_step i rand bus h fits c) (ground arith)

  after_stall :
      (i rand : ℕ) (rands : List ℕ) (bus : Bus)
      → i < host.xfer.tx_len
      → bus.nxt ≡ sig1
      → throttled rand ≡ true
      → let o : Bus = record bus { nxt = sig0; dat = byte 0x5D bus.dat.b } in
        send_data (rand ∷ rands) (sending_host t host datax_body i) bus
        ≡ (send_data rands (sending_host t host datax_body i) o >>= λ r. ok (r.0, r.1, r.2))
  unfolding send_data
  after_stall i rand rands bus h n r =
      rw (stall t host datax_body i rand bus is_data h n r) (ground arith)

  abbrev Sent : ℕ → ℕ → List ℕ → Bus → Type 0
  Sent left i rands bus =
      (o : Bus) × (send_data rands (sending_host t host datax_body i) bus
        ≡ ok (take left (drop i host.xfer.tx), sending_host t host datax_body host.xfer.tx_len, o))

  one_more :
      (left i rand : ℕ) (rands : List ℕ) (bus : Bus)
      → i + suc left ≡ host.xfer.tx_len
      → host.xfer.tx_len ≤ length host.xfer.tx
      → (bus.nxt ≢ sig1) ⊎ (throttled rand ≡ false)
      → Sent left
          (i + 1)
          rands
          (record bus { nxt = sig1; dat = byte (get_or host.xfer.tx i 0) 0x00 })
      → Sent (suc left) i (rand ∷ rands) bus
  one_more left i rand rands bus e fits c (o, rest) =
      let more = drop-eq-cons i host.xfer.tx 0 (omega arith) in
      let one : i + 1 ≡ suc i = omega arith in
      (o, after_send i rand rands bus (omega arith) fits c ∙ rw rest (rw (more, one) refl))

  send_all :
      (left i : ℕ) (rands : List ℕ) (bus : Bus)
      → i + left ≡ host.xfer.tx_len
      → host.xfer.tx_len ≤ length host.xfer.tx
      → 2 * left ≤ length rands
      → Sent left i rands bus
  unfolding send_data
  send_all zero i [] bus e fits h =
      let same : i ≡ host.xfer.tx_len = omega arith in
      (bus, ap (λ (k : ℕ). ok ([], sending_host t host datax_body k, bus)) same)
  send_all zero i (rand ∷ rands) bus e fits h =
      let same : i ≡ host.xfer.tx_len = omega arith in (bus, rw same (ground arith))
  send_all (suc left) i [] bus e fits h = absurd (omega arith)
  send_all (suc left) i (rand ∷ []) bus e fits h = absurd (omega arith)
  send_all (suc left) i (rand ∷ rand' ∷ rands) bus e fits h =
      let sent : Bus → Bus =
        λ b. record b { nxt = sig1; dat = byte (get_or host.xfer.tx i 0) 0x00 } in
      elim (ℕ_discrete bus.nxt sig1) [
        | no n ↦
            one_more left i rand (rand' ∷ rands) bus e fits (inl n)
              (send_all left (i + 1) (rand' ∷ rands) (sent bus) (omega arith) fits (omega arith))
        | yes n ↦ elim (Bool-cases (throttled rand)) [
          | inl r ↦
              let o : Bus = record bus { nxt = sig0; dat = byte 0x5D bus.dat.b } in
              let (b, run) =
                one_more left i rand' rands o e fits (inl (λ p. omega arith))
                  (send_all left (i + 1) rands (sent o) (omega arith) fits (omega arith)) in
              (b, after_stall i rand (rand' ∷ rands) bus (omega arith) n r ∙ rw run refl)
          | inr r ↦
              one_more left i rand (rand' ∷ rands) bus e fits (inr r)
                (send_all left (i + 1) (rand' ∷ rands) (sent bus) (omega arith) fits (omega arith))
        ]
      ]

-- The random wait states of a bulk OUT transaction lose and repeat nothing: from any point in the
-- data of a packet in sequence, whatever `rand()` returns, the bytes in the cycles with NXT are the
-- rest of the data in its order, and two steps for each of them are enough to send them all. Nothing
-- of the host changes but the count of the bytes sent.
pub wait_states_lose_nothing :
    (rands : List ℕ) (host : Host) (bus : Bus)
    → is_dn_data host.xfer.type ≡ true
    → InSequence host.xfer.type host.xfer
    → host.xfer.stage ≡ datax_body
    → host.xfer.tx_ptr ≤ host.xfer.tx_len
    → host.xfer.tx_len ≤ length host.xfer.tx
    → 2 * (host.xfer.tx_len - host.xfer.tx_ptr) ≤ length rands
    → (o : Bus) × (send_data rands host bus
        ≡ ok (
          take (host.xfer.tx_len - host.xfer.tx_ptr) (drop host.xfer.tx_ptr host.xfer.tx),
          record host { xfer = record (host.xfer) { tx_ptr = host.xfer.tx_len } },
          o,
        ))
wait_states_lose_nothing rands host bus d s st low fits h =
    let left = host.xfer.tx_len - host.xfer.tx_ptr in
    let (o, run) =
      send_all host.xfer.type host d s left host.xfer.tx_ptr rands bus (omega arith) fits h in
    (
      o,
      ap
            (λ (g : XferStage).
              send_data rands (record host { xfer = record (host.xfer) { stage = g } }) bus)
            st
          ∙ run
          ∙ ap
              (λ (g : XferStage). ok (
                take left (drop host.xfer.tx_ptr host.xfer.tx),
                record host { xfer = record (host.xfer) { stage = g; tx_ptr = host.xfer.tx_len } },
                o,
              ))
              (sym st),
    )
