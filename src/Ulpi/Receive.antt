-- ===== src/Ulpi/Receive.antt =====
-- `datax_recv_step` over the cycles of a packet's body, and its check at the end.
use native.Mathlib.Decide.{ℕ_discrete}
use native.Mathlib.Nat.{add-zero}
use misc_verilog_cores.Base.{
  ℕ, zero, suc, ◌+◌, ◌≤◌, ◌<◌, ◌≡◌, ◌≢◌, refl, sym, ap, ◌∙◌, Bool, true, false, ◌==◌, if◌then◌else◌,
  pos, negsuc, ok, fault, bounds, Result, ◌>>=◌, List, [], ◌∷◌, ◌++◌, length, length-set, ℤ, set,
  set_all, All, arith,
}
use misc_verilog_cores.Ulpi.{
  sig0, sig1, XferType, up_data0, up_data1, datax_body, Bus, Transfer, Stepped, stepped,
}
use misc_verilog_cores.Ulpi.Step.Recv.{datax_recv_step, datax_recv_at, recv_body}

-- One call for each clock edge, as long as the result is 0.
abbrev pub carry_on :
    (Transfer → Bus → Result (Stepped Transfer)) → Stepped Transfer → Result (Stepped Transfer)
carry_on rest s = elim s.code [
  | pos zero ↦ rest s.state s.out
  | pos (suc n) ↦ ok s
  | negsuc n ↦ ok s
]

unfoldable pub receive : List Bus → Transfer → Bus → Result (Stepped Transfer)
receive [] xfer out = stepped (pos 0) xfer out
receive (inp ∷ inps) xfer out = datax_recv_step xfer inp out >>= carry_on (receive inps)

-- The bytes that the PHY takes: those in cycles with NXT.
abbrev pub taken : List Bus → List ℕ
taken [] = []
taken (inp ∷ inps) = if inp.nxt == sig1 then inp.dat.a ∷ taken inps else taken inps

-- A cycle of the body: the link drives the bus and has not stopped.
abbrev pub InBody : Bus → Type 0
InBody inp = (inp.dir ≡ sig0) × (inp.stp ≢ sig1)

abbrev pub is_up_data : XferType → Bool
is_up_data up_data0 = true
is_up_data up_data1 = true
is_up_data _ = false

-- A transfer in the body of a packet, with `rx` and `rx_ptr` as given.
abbrev pub body : XferType → Transfer → List ℕ → ℕ → Transfer
body t xfer bytes i = record xfer { type = t; stage = datax_body; rx = bytes; rx_ptr = i }

pub taken_yes :
    (inp : Bus) (inps : List Bus) → inp.nxt ≡ sig1 → taken (inp ∷ inps) ≡ inp.dat.a ∷ taken inps
taken_yes inp inps n = ground arith

pub taken_no : (inp : Bus) (inps : List Bus) → inp.nxt ≢ sig1 → taken (inp ∷ inps) ≡ taken inps
taken_no inp inps n = ground arith

pub body_step :
    (t : XferType) (xfer : Transfer) (bytes : List ℕ) (i : ℕ) (inp out : Bus)
    → is_up_data t ≡ true
    → inp.dir ≡ sig0
    → datax_recv_step (body t xfer bytes i) inp out ≡ recv_body (body t xfer bytes i) inp inp
unfolding datax_recv_step datax_recv_at
body_step up_data0 xfer bytes i inp out d h = rw h refl
body_step up_data1 xfer bytes i inp out d h = rw h refl
body_step _ xfer bytes i inp out d h = cc

pub body_take :
    (xfer : Transfer) (bytes : List ℕ) (t : XferType) (i : ℕ) (inp : Bus)
    → inp.stp ≢ sig1
    → inp.nxt ≡ sig1
    → i < length bytes
    → recv_body (body t xfer bytes i) inp inp
      ≡ stepped (pos 0) (body t xfer (set bytes i inp.dat.a) (suc i)) inp
unfolding recv_body
body_take xfer bytes t i inp running n h = ground arith

pub body_wait :
    (xfer : Transfer) (bytes : List ℕ) (t : XferType) (i : ℕ) (inp : Bus)
    → inp.stp ≢ sig1
    → inp.nxt ≢ sig1
    → recv_body (body t xfer bytes i) inp inp
      ≡ stepped (pos 0) (body t xfer bytes i) (record inp { nxt = sig1 })
unfolding recv_body
body_wait xfer bytes t i inp running n = ground arith

pub body_full :
    (xfer : Transfer) (bytes : List ℕ) (t : XferType) (i : ℕ) (inp : Bus)
    → inp.stp ≢ sig1
    → inp.nxt ≡ sig1
    → length bytes ≤ i
    → recv_body (body t xfer bytes i) inp inp ≡ fault bounds
unfolding recv_body
body_full xfer bytes t i inp running n h = ground arith

carry_on_by : (s : Stepped Transfer) (c : ℤ) → s.code ≡ c → carry_on (receive []) s ≡ ok s
unfolding receive
carry_on_by s (pos zero) e = rw e refl
carry_on_by s (pos (suc n)) e = rw e refl
carry_on_by s (negsuc n) e = rw e refl

carry_on_end : (r : Result (Stepped Transfer)) → (r >>= carry_on (receive [])) ≡ r
carry_on_end (ok s) = carry_on_by s s.code refl
carry_on_end (fault f) = refl

module _ (t : XferType) (xfer : Transfer) (d : is_up_data t ≡ true) where
  -- One cycle of the body in a longer run.
  pub body_cycle :
      (bytes : List ℕ) (i : ℕ) (inp : Bus) (inps : List Bus) (out : Bus)
      → inp.dir ≡ sig0
      → receive (inp ∷ inps) (body t xfer bytes i) out
        ≡ (recv_body (body t xfer bytes i) inp inp >>= carry_on (receive inps))
  unfolding receive
  body_cycle bytes i inp inps out h =
      ap (λ (r : Result (Stepped Transfer)). r >>= carry_on (receive inps))
        (body_step t xfer bytes i inp out d h)

  -- The cycles before the stop, then the stop.
  pub receive_whole :
      (bytes : List ℕ) (i : ℕ) (inps : List Bus) (stop : Bus) (out : Bus)
      → All InBody inps
      → stop.dir ≡ sig0
      → i + length (taken inps) ≤ length bytes
      → receive (inps ++ stop ∷ []) (body t xfer bytes i) out
        ≡ recv_body (body t xfer (set_all bytes i (taken inps)) (i + length (taken inps))) stop stop
  receive_whole bytes i [] stop out h down fits = rw (add-zero i) (
      body_cycle bytes i stop [] out down
      ∙ carry_on_end (recv_body (body t xfer bytes i) stop stop))
  receive_whole bytes i (inp ∷ inps) stop out h down fits = elim (ℕ_discrete inp.nxt sig1) [
    | yes n ↦
        let tk : taken (inp ∷ inps) ≡ inp.dat.a ∷ taken inps = taken_yes inp inps n in
        let room : i + suc (length (taken inps)) ≤ length bytes = rw tk at fits in
        let index : i + suc (length (taken inps)) ≡ suc i + length (taken inps) = omega arith in
        rw tk (
          body_cycle bytes i inp (inps ++ stop ∷ []) out h.0.0
          ∙ ap (λ (r : Result (Stepped Transfer)). r >>= carry_on (receive (inps ++ stop ∷ [])))
              (body_take xfer bytes t i inp h.0.1 n (omega arith))
          ∙ receive_whole (set bytes i inp.dat.a) (suc i) inps stop inp h.1 down
              (omega (arith, length-set bytes i inp.dat.a))
          ∙ ap
              (λ (k : ℕ).
                recv_body (body t xfer (set_all (set bytes i inp.dat.a) (suc i) (taken inps)) k)
                  stop stop)
              (sym index))
    | no n ↦
        let tk : taken (inp ∷ inps) ≡ taken inps = taken_no inp inps n in
        rw tk (
          body_cycle bytes i inp (inps ++ stop ∷ []) out h.0.0
          ∙ ap (λ (r : Result (Stepped Transfer)). r >>= carry_on (receive (inps ++ stop ∷ [])))
              (body_wait xfer bytes t i inp h.0.1 n)
          ∙ receive_whole bytes i inps stop (record inp { nxt = sig1 }) h.1 down (rw tk at fits))
  ]
