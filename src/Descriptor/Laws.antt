-- ===== src/Descriptor/Laws.antt =====
-- `desc_recv` of vpi/usb/descriptor.c over the cycles of a packet.
use native.Mathlib.Decide.{ℕ_discrete}
use native.Mathlib.Nat.{zero-add}
use misc_verilog_cores.Base.{
  ℕ, zero, suc, ◌+◌, ◌≤◌, ◌<◌, ◌≡◌, ◌≢◌, ◌⊎◌, inl, refl, sym, ap, ap₂, ◌∙◌, true, ℤ, pos, negsuc,
  Result, ok, ◌>>=◌, List, [], ◌∷◌, ◌++◌, length, length-append, length-set, set, set_all, take,
  take-set_all, All, arith,
}
use misc_verilog_cores.Ulpi.{
  sig0, sig1, Bus, Transfer, XferType, XferStage, up_data0, up_data1, datax_body, datax_stop,
}
use misc_verilog_cores.Ulpi.Step.Recv.{less_two}
use misc_verilog_cores.Ulpi.Receive.{taken, taken_yes, taken_no, is_up_data, body}
use misc_verilog_cores.Descriptor.{desc_recv, desc_recv_at, desc_body}

-- The loop of the caller, as long as the result is 0.
abbrev go_on : (Transfer → Result (ℤ × Transfer)) → ℤ × Transfer → Result (ℤ × Transfer)
go_on rest (pos zero, x) = rest x
go_on rest r = ok r

unfoldable pub desc_run : List Bus → Transfer → Result (ℤ × Transfer)
desc_run [] xfer = ok (pos 0, xfer)
desc_run (inp ∷ inps) xfer = desc_recv xfer inp >>= go_on (desc_run inps)

-- A cycle of the packet that is not its last.
abbrev pub Open : Bus → Type 0
Open inp = (inp.dir ≡ sig0) × (inp.nxt ≤ 1) × (inp.stp ≡ sig0)

desc_take :
    (t : XferType) (xfer : Transfer) (bytes : List ℕ) (i : ℕ) (inp : Bus)
    → is_up_data t ≡ true
    → Open inp
    → inp.nxt ≡ sig1
    → i < length bytes
    → desc_recv (body t xfer bytes i) inp ≡ ok (pos 0, body t xfer (set bytes i inp.dat.a) (i + 1))
unfolding desc_recv desc_recv_at desc_body
desc_take up_data0 xfer bytes i inp d o n h = ground arith
desc_take up_data1 xfer bytes i inp d o n h = ground arith
desc_take _ xfer bytes i inp d o n h = cc

desc_wait :
    (t : XferType) (xfer : Transfer) (bytes : List ℕ) (i : ℕ) (inp : Bus)
    → is_up_data t ≡ true
    → Open inp
    → inp.nxt ≢ sig1
    → desc_recv (body t xfer bytes i) inp ≡ ok (pos 0, body t xfer bytes i)
unfolding desc_recv
desc_wait up_data0 xfer bytes i inp d o n = ground arith
desc_wait up_data1 xfer bytes i inp d o n = ground arith
desc_wait _ xfer bytes i inp d o n = cc

-- The transfer when the packet has ended.
abbrev ended : XferType → Transfer → List ℕ → ℕ → Transfer
ended t xfer bytes i = record xfer {
  type = t;
  stage = datax_stop;
  rx = bytes;
  rx_ptr = i;
  rx_len = less_two i;
}

desc_last :
    (t : XferType) (xfer : Transfer) (bytes : List ℕ) (i : ℕ) (inp : Bus)
    → is_up_data t ≡ true
    → inp.dir ≡ sig0
    → inp.nxt ≡ sig1
    → inp.stp ≡ sig1
    → i < length bytes
    → desc_recv (body t xfer bytes i) inp ≡ ok (pos 1, ended t xfer (set bytes i inp.dat.a) (i + 1))
unfolding desc_recv desc_recv_at desc_body
desc_last up_data0 xfer bytes i inp d r n s h = ground arith
desc_last up_data1 xfer bytes i inp d r n s h = ground arith
desc_last _ xfer bytes i inp d r n s h = cc

desc_next :
    (x y : Transfer) (inp : Bus) (inps : List Bus)
    → desc_recv x inp ≡ ok (pos 0, y)
    → desc_run (inp ∷ inps) x ≡ desc_run inps y
unfolding desc_run
desc_next x y inp inps e = rw e refl

module _ (t : XferType) (xfer : Transfer) (last : Bus) (d : is_up_data t ≡ true)
    (down : last.dir ≡ sig0) (nxt : last.nxt ≡ sig1) (stp : last.stp ≡ sig1) where
  abbrev whole : List Bus → List ℕ
  whole inps = taken inps ++ last.dat.a ∷ []

  desc_whole :
      (bytes : List ℕ) (i : ℕ) (inps : List Bus)
      → All Open inps
      → i + suc (length (taken inps)) ≤ length bytes
      → desc_run (inps ++ last ∷ []) (body t xfer bytes i)
        ≡ ok (pos 1, ended t xfer (set_all bytes i (whole inps)) (i + suc (length (taken inps))))
  unfolding desc_run
  desc_whole bytes i [] h fits =
      rw (desc_last t xfer bytes i last d down nxt stp (omega arith)) refl
  desc_whole bytes i (inp ∷ inps) h fits = elim (ℕ_discrete inp.nxt sig1) [
    | yes n ↦
        let tk : taken (inp ∷ inps) ≡ inp.dat.a ∷ taken inps = taken_yes inp inps n in
        let room : i + suc (suc (length (taken inps))) ≤ length bytes = rw tk at fits in
        let one : i + 1 ≡ suc i = omega arith in
        let index : suc i + suc (length (taken inps)) ≡ i + suc (suc (length (taken inps))) =
          omega arith in
        rw tk (
          desc_next (body t xfer bytes i) (body t xfer (set bytes i inp.dat.a) (i + 1)) inp
            (inps ++ last ∷ []) (desc_take t xfer bytes i inp d h.0 n (omega arith))
          ∙ rw one (
              desc_whole (set bytes i inp.dat.a) (suc i) inps h.1
                (omega (arith, length-set bytes i inp.dat.a)))
          ∙ ap
              (λ (k : ℕ).
                ok (pos 1, ended t xfer (set_all (set bytes i inp.dat.a) (suc i) (whole inps)) k))
              index)
    | no n ↦
        let tk : taken (inp ∷ inps) ≡ taken inps = taken_no inp inps n in
        rw tk (
          desc_next (body t xfer bytes i) (body t xfer bytes i) inp (inps ++ last ∷ [])
            (desc_wait t xfer bytes i inp d h.0 n)
          ∙ desc_whole bytes i inps h.1 (rw tk at fits))
  ]

-- A descriptor is received: from the body of a packet, over any cycles with any wait states, up to
-- a cycle with NXT and STP, the calls of `desc_recv` end with the result 1, the buffer begins with
-- exactly the bytes of the cycles with NXT, and `rx_len` is their number less the two of the CRC.
-- STP comes in no cycle but the last, and the buffer has to hold all of the bytes.
pub descriptor_received :
    (inps : List Bus) (last : Bus) (xfer : Transfer)
    → is_up_data xfer.type ≡ true
    → xfer.stage ≡ datax_body
    → xfer.rx_ptr ≡ 0
    → All Open inps
    → last.dir ≡ sig0
    → last.nxt ≡ sig1
    → last.stp ≡ sig1
    → length (taken inps) < length xfer.rx
    → let w = taken inps ++ last.dat.a ∷ [] in
      (y : Transfer) × (desc_run (inps ++ last ∷ []) xfer ≡ ok (pos 1, y))
      × (y.stage ≡ datax_stop)
      × (y.rx_len ≡ less_two (length w))
      × (take (length w) y.rx ≡ w)
descriptor_received inps last xfer d st start h down nxt stp fits =
    let t = xfer.type in
    let w = taken inps ++ last.dat.a ∷ [] in
    let n = 0 + suc (length (taken inps)) in
    let size : length w ≡ n =
      length-append (taken inps) (last.dat.a ∷ [])
      ∙ (let e : length (taken inps) + 1 ≡ n = omega arith in e) in
    (
      ended t xfer (set_all xfer.rx 0 w) n,
      ap₂
            (λ (g : XferStage) (k : ℕ).
              desc_run (inps ++ last ∷ []) (record xfer { stage = g; rx_ptr = k }))
            st start
          ∙ desc_whole t xfer last d down nxt stp xfer.rx 0 inps h (omega arith),
      refl,
      ap less_two (sym size),
      ap (λ (k : ℕ). take k (set_all xfer.rx 0 w)) (sym (zero-add (length w)))
          ∙ take-set_all xfer.rx 0 w (omega (arith, size)),
    )

-- In the stage after the end of the packet every call of `desc_recv`, whatever the bus carries,
-- returns -1 or 0 and leaves the transfer as it is, so also in this stage.
pub desc_recv_stuck :
    (xfer : Transfer) (inp : Bus)
    → xfer.stage ≡ datax_stop
    → (desc_recv xfer inp ≡ ok (negsuc 0, xfer)) ⊎ (desc_recv xfer inp ≡ ok (pos 0, xfer))
unfolding desc_recv desc_recv_at
desc_recv_stuck xfer inp st = elim (ℕ_discrete inp.nxt sig1) [
  | yes n ↦ inl (ground arith)
  | no n ↦ ground arith
]
