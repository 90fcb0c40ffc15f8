-- ===== src/Cases/Runs.antt =====
-- Runs of a control transfer's test case and the host: between the calls of `step` of a test case of
-- vpi/tc_*.c the host makes any number of steps (`usbh_step` of vpi/usb/usbhost.c), on any bus that
-- is not in reset.
use misc_verilog_cores.Base.{
  ℕ, suc, ◌+◌, ◌<◌, ◌≡◌, ◌≢◌, refl, sym, ap, ◌∙◌, u64, ℤ, pos, Result, ok, fault, ◌>>=◌, arith, inl,
  subst,
}
use misc_verilog_cores.Ulpi.{Bus, sig0, Transfer, Stepped, stepped}
use misc_verilog_cores.Host.{Host, host_setup}
use misc_verilog_cores.Host.Control.{control_sub_step}
use misc_verilog_cores.Host.ControlLaws.{stdreq_step_lem}
use misc_verilog_cores.Host.Step.{usbh_step, host_op_step}
use misc_verilog_cores.Host.StepLaws.{transaction_goes_on}
use misc_verilog_cores.Cases.{Tried, tried}

-- `host->cycle++` in front of a call.
abbrev pub tick : Host → Host
tick h = record h { cycle = u64 (h.cycle + 1) }

-- The number counts the calls of `step`.
pub data Run {T : Type 0} (step : T → Host → Result (Tried T)) (first : T) (start : Host)
    : ℕ → T → Host → Type 0 where
  begin : Run step first start 0 first start
  packet :
      (k : ℕ) (t : T) (h h' : Host) (rand : ℕ) (inp out o : Bus) (c : ℤ)
      → Run step first start k t h
      → inp.rst_n ≢ sig0
      → usbh_step rand h inp out ≡ stepped c h' o
      → Run step first start k t h'
  next :
      (k : ℕ) (t t' : T) (h h' : Host) (c : ℤ)
      → Run step first start k t h
      → step t (tick h) ≡ tried c t' h'
      → Run step first start (suc k) t' h'

-- A test case that counts `n` packets by `index` and keeps the predicate `P`, which does not look at
-- the cycle count and the transfer.
pub record IsPacketed {T : Type 0} (step : T → Host → Result (Tried T)) (index : T → ℕ) (n : ℕ)
    (P : T → Host → Type 0) : Type 0 where
  pub stable :
      (t : T) (h : Host) (n' : ℕ) (x : Transfer) → P t h → P t (record h { cycle = n'; xfer = x })
  pub on :
      (t : T) (h : Host)
      → P t h
      → index t + 1 < n
      → h.step ≡ index t
      → (t' : T) × (h' : Host) × (step t h ≡ tried (pos 0) t' h')
        × (index t' ≡ index t + 1)
        × (h'.step ≡ index t + 1)
        × (h'.op ≡ h.op)
        × P t' h'

-- In the middle of the transfer.
pub record At {T : Type 0} (index : T → ℕ) (P : T → Host → Type 0) (k : ℕ) (t : T) (h : Host)
    : Type 0 where
  pub test_at : index t ≡ k
  pub host_at : h.step ≡ k
  pub op_at : h.op ≡ host_setup
  pub kept : P t h

abbrev state_or : {T : Type 0} → Stepped T → Result (Stepped T) → Stepped T
state_or s (ok s') = s'
state_or s (fault f) = s

abbrev pub tried_or : {T : Type 0} → Tried T → Result (Tried T) → Tried T
tried_or t (ok t') = t'
tried_or t (fault f) = t

-- The host of a result, if there is one, differs from `h` in the cycle count and the transfer only.
abbrev SameBut : Host → Result (Stepped Host) → Type 0
SameBut h (ok s) = (n : ℕ) × (x : Transfer) × (s.state ≡ record h { cycle = n; xfer = x })
SameBut h (fault f) = Unit

sub_step_same :
    (h : Host) (n : ℕ) (r : Result (Stepped Transfer))
    → SameBut h (r >>= λ s. stepped s.code (record h { cycle = n; xfer = s.state }) s.out)
sub_step_same h n (ok s) = (n, s.state, refl)
sub_step_same h n (fault f) = tt

setup_step_same :
    (rand : ℕ) (h : Host) (inp out : Bus)
    → h.op ≡ host_setup
    → inp.rst_n ≢ sig0
    → SameBut h (usbh_step rand h inp out)
unfolding host_op_step
setup_step_same rand h inp out e r =
    let one = transaction_goes_on rand h inp out (inl e) r in
    let two : usbh_step rand h inp out ≡ (
        control_sub_step h.step h.xfer inp inp >>= λ s.
        stepped s.code (record (tick h) { xfer = s.state }) s.out) =
      one ∙ ap (λ o. host_op_step o rand (tick h) inp inp) e ∙ stdreq_step_lem (tick h) inp inp in
    rw (two) (sub_step_same h (u64 (h.cycle + 1)) (control_sub_step h.step h.xfer inp inp))

step_same :
    (rand : ℕ) (h h' : Host) (inp out o : Bus) (c : ℤ)
    → h.op ≡ host_setup
    → inp.rst_n ≢ sig0
    → usbh_step rand h inp out ≡ stepped c h' o
    → (n : ℕ) × (x : Transfer) × (h' ≡ record h { cycle = n; xfer = x })
step_same rand h h' inp out o c e r s = subst (SameBut h) s (setup_step_same rand h inp out e r)

module _ {T : Type 0} {step : T → Host → Result (Tried T)} {index : T → ℕ} {n : ℕ}
    {P : T → Host → Type 0} (law : IsPacketed step index n P) where
  after_packet :
      {k : ℕ} {t : T} {h h' : Host} (m : ℕ) (x : Transfer)
      → At index P k t h
      → h' ≡ record h { cycle = m; xfer = x }
      → At index P k t h'
  after_packet {k} {t} {h} {h'} m x a e = subst (At index P k t) (sym e) (record {
    test_at = a.test_at;
    host_at = a.host_at;
    op_at = a.op_at;
    kept = law.stable t h m x a.kept;
  })

  after_call :
      {k : ℕ} {t t' : T} {h h' : Host} (c : ℤ)
      → At index P k t h
      → suc k < n
      → step t (tick h) ≡ tried c t' h'
      → At index P (suc k) t' h'
  after_call {k} {t} {t'} {h} {h'} c a l e =
      let (u, g, s, i, m, o, p) =
        law.on t (tick h) (law.stable t h (u64 (h.cycle + 1)) h.xfer a.kept)
          (omega (arith, a.test_at)) (a.host_at ∙ sym a.test_at) in
      let same : record { code = pos 0; test = u; host = g }
          ≡ record { code = c; test = t'; host = h' } =
        ap (tried_or (record { code = c; test = t'; host = h' })) (sym s ∙ e) in
      subst (λ (r : Tried T). At index P (suc k) r.test r.host) same
        (record {
          test_at = omega (arith, i, a.test_at);
          host_at = omega (arith, m, a.test_at);
          op_at = o ∙ a.op_at;
          kept = p;
        })

  -- As long as packets are left, the step number of the host, the stage of the test and the number of
  -- calls are the same.
  pub in_step :
      {first : T} {start : Host} {k : ℕ} {t : T} {h : Host}
      → At index P 0 first start
      → Run step first start k t h
      → k < n
      → At index P k t h
  in_step a begin l = a
  in_step a (packet k t h h' rand inp out o c r rst e) l =
      let b = in_step a r l in
      let (m, x, s) = step_same rand h h' inp out o c b.op_at rst e in after_packet m x b s
  in_step a (next k t t' h h' c r e) l = after_call c (in_step a r (omega arith)) l e
