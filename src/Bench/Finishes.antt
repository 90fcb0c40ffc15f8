-- ===== src/Bench/Finishes.antt =====
-- The clock edges of vpi/ulpisim.c at which the current test returns a result above 0, and how they move
-- the current test.
use misc_verilog_cores.Base.{
  ℕ, suc, zero, ◌+◌, ◌<◌, ◌≡◌, refl, true, false, Bool, ◌&&◌, ◌==◌, ltb, if◌then◌else◌, ℤ, pos,
  negsuc, is_negative, is_positive, none, some, Option, Result, ok, fault, bounds, ◌>>=◌, arith,
  u32, u64, subst, Bool-cases, inl, inr,
}
use misc_verilog_cores.Ulpi.{Bus, Stepped, ulpi_bus_is_idle}
use misc_verilog_cores.Host.{Host}
use misc_verilog_cores.Host.Control.{above_one}
use misc_verilog_cores.Host.Step.{usbh_step}
use misc_verilog_cores.Cases.{Calls, Tried}
use misc_verilog_cores.Bench.{
  Ut, UtOp, ut_power_on, ut_start_up, ut_idle, ut_test, ut_done, TestOps, nth,
}
use misc_verilog_cores.Bench.Step.{
  is_done, run_test, test_step, test_called, test_result, bench_stepped, start_up_step, stim_step,
  ut_op_step, ut_step, cb_step_sync, ut_update_bus_state, Drive, with_host, host_tick,
}
use misc_verilog_cores.Bench.Queue.{nth-cases}
use misc_verilog_cores.Bench.Counters.{IsCounted, Holds, Holds-bind, any, ticked}

-- A call returned a result above 0.
abbrev pub succeeds : {T : Type 0} → Result (Tried T) → Bool
succeeds (ok t) = is_positive t.code
succeeds (fault f) = false

-- The current test, one on behind a call that returned a result above 0.
abbrev moved : ℕ → Bool → ℕ
moved k b = if b then suc k else k

module _ {T : Type 0} (ops : TestOps T) where
  -- What a call of the current test returns: its `init` at first, then its `step`.
  abbrev call_of : Option T → Calls → ℕ → Host → Result (Tried T)
  call_of none c calls host = fault bounds
  call_of (some test) c calls host =
      if calls == 0 then ops.init c test host else ops.step c test host

  abbrev current_call : Calls → Ut T → Result (Tried T)
  current_call c ut = call_of (nth ut.tests ut.test_curr) c ut.test_step ut.host

  abbrev call_finishes : Calls → Ut T → Bool
  call_finishes c ut = ltb ut.test_curr ut.test_num && succeeds (current_call c ut)

  -- At this edge the current test is called and returns a result above 0. A test is called when the
  -- simulation is between tests or packets and the bus is idle.
  abbrev pub finishes_at : UtOp → Calls → Ut T → Bool
  finishes_at ut_idle c ut =
      ulpi_bus_is_idle ut.bus && call_finishes c (with_host (host_tick ut.host) ut)
  finishes_at _ c ut = false

module _ {T : Type 0} where
  result_moves :
      (ut : Ut T) (c : ℤ) (x : T) (host : Host) (calls : ℕ)
      → ut.test_curr + 1 < 4294967296
      → (test_result
          (record ut { test_step = calls })
          (record { code = c; test = x; host = host })).1.test_curr
        ≡ moved ut.test_curr (is_positive c)
  unfolding test_result
  result_moves ut (pos zero) x host calls h = refl
  result_moves ut (pos (suc k)) x host calls h = omega arith
  result_moves ut (negsuc k) x host calls h = refl

  call_moves :
      (ut : Ut T) (calls : ℕ) (r : Result (Tried T))
      → ut.test_curr + 1 < 4294967296
      → Holds
          (λ (p : ℤ × Ut T). p.1.test_curr ≡ moved ut.test_curr (succeeds r))
          (r >>= λ t. ok (test_result (record ut { test_step = calls }) t))
  call_moves ut calls (ok t) h = result_moves ut t.code t.test t.host calls h
  call_moves ut calls (fault f) h = tt

  called_moves :
      (next : Bus) (r : ℤ × Ut T) (k : ℕ)
      → r.1.test_curr ≡ k
      → Holds (λ (s : Stepped (Ut T)). s.state.test_curr ≡ k) (test_called next r)
  unfolding test_called
  called_moves next r k h = elim (Bool-cases (is_negative r.0)) [
    | inl e ↦ rw (e) h
    | inr e ↦ elim (Bool-cases (is_positive r.0)) [
      | inl p ↦ elim (Bool-cases (above_one r.0)) [
        | inl a ↦ rw (e, p, a) h
        | inr a ↦ rw (e, p, a) h
      ]
      | inr p ↦ rw (e, p) h
    ]
  ]

  stepped_stays :
      (here done : UtOp) (ut : Ut T) (s : Stepped Host)
      → Holds
          (λ (s' : Stepped (Ut T)). s'.state.test_curr ≡ ut.test_curr)
          (bench_stepped here done ut s)
  unfolding bench_stepped
  stepped_stays here done ut s = elim (Bool-cases (is_negative s.code)) [
    | inl e ↦ rw (e) refl
    | inr e ↦ rw (e) refl
  ]

cycled :
    {T : Type 0} {n : ℕ} {ut : Ut T} {k : ℕ}
    → IsCounted n ut
    → IsCounted n (record ut { cycle = k })
cycled w = record { number = w.number; counted = w.counted; no_wrap = w.no_wrap; within = w.within }

module _ {T : Type 0} (ops : TestOps T) where
  test_moves :
      {n : ℕ} (c : Calls) (ut : Ut T)
      → IsCounted n ut
      → Holds
          (λ (p : ℤ × Ut T). p.1.test_curr ≡ moved ut.test_curr (call_finishes ops c ut))
          (test_step ops c ut)
  unfolding test_step run_test
  test_moves c ut w = elim (Bool-cases (ltb ut.test_curr ut.test_num)) [
    | inl e ↦
        let (x, at, d) = nth-cases ut.tests ut.test_curr (ground (arith, w.counted, w.number)) in
        let small : ut.test_curr + 1 < 4294967296 = ground (arith, w.number, w.no_wrap) in
        rw (e, at)
          (call_moves ut (u32 (ut.test_step + 1))
            (if ut.test_step == 0 then ops.init c x ut.host else ops.step c x ut.host) small)
    | inr e ↦ rw (e) refl
  ]

  start_stays :
      (c : Calls) (ut : Ut T) (curr : Bus)
      → Holds
          (λ (s : Stepped (Ut T)). s.state.test_curr ≡ ut.test_curr)
          (start_up_step ops c ut curr)
  unfolding start_up_step
  start_stays c ut curr =
      Holds-bind (λ a. Unit) (λ (s : Stepped (Ut T)). s.state.test_curr ≡ ut.test_curr)
        (stim_step c ut.phy ut.host curr curr) _ (any (stim_step c ut.phy ut.host curr curr))
        (λ s u. elim (Bool-cases (is_negative s.code)) [
          | inl e ↦ rw (e) refl
          | inr e ↦ rw (e) refl
        ])

  host_stays :
      (here done : UtOp) (c : Calls) (ut : Ut T) (curr : Bus)
      → Holds
          (λ (s : Stepped (Ut T)). s.state.test_curr ≡ ut.test_curr)
          (usbh_step (c.rand 0) ut.host curr curr >>= bench_stepped here done ut)
  host_stays here done c ut curr =
      Holds-bind (λ a. Unit) (λ (s : Stepped (Ut T)). s.state.test_curr ≡ ut.test_curr)
        (usbh_step (c.rand 0) ut.host curr curr) _ (any (usbh_step (c.rand 0) ut.host curr curr))
        (λ s u. stepped_stays here done ut s)

  op_moves :
      {n : ℕ} (op : UtOp) (c : Calls) (ut : Ut T)
      → IsCounted n ut
      → Holds
          (λ (s : Stepped (Ut T)). s.state.test_curr ≡ moved ut.test_curr (finishes_at ops op c ut))
          (ut_op_step ops op c ut ut.bus)
  unfolding ut_op_step
  op_moves ut_power_on c ut w = refl
  op_moves ut_start_up c ut w = start_stays c ut ut.bus
  op_moves ut_idle c ut w =
      let woken = with_host (host_tick ut.host) ut in
      elim (Bool-cases (ulpi_bus_is_idle ut.bus)) [
        | inl i ↦ rw (i) (
            Holds-bind
              (λ (p : ℤ × Ut T). p.1.test_curr ≡ moved ut.test_curr (call_finishes ops c woken))
              (λ (s : Stepped (Ut T)).
                s.state.test_curr ≡ moved ut.test_curr (call_finishes ops c woken))
              (test_step ops c woken) (test_called ut.bus) (test_moves c woken (ticked w))
              (λ r e. called_moves ut.bus r (moved ut.test_curr (call_finishes ops c woken)) e))
        | inr i ↦ rw (i) (host_stays ut_idle ut_idle c ut ut.bus)
      ]
  op_moves ut_test c ut w = host_stays ut_test ut_idle c ut ut.bus
  op_moves ut_done c ut w = refl

  none_at_done :
      (op : UtOp) (c : Calls) (ut : Ut T) → is_done op ≡ true → finishes_at ops op c ut ≡ false
  none_at_done ut_done c ut d = refl
  none_at_done _ c ut d = cc

  same_at_cycle :
      (op : UtOp) (c : Calls) (ut : Ut T) (k : ℕ)
      → finishes_at ops op c (record ut { cycle = k }) ≡ finishes_at ops op c ut
  same_at_cycle ut_idle c ut k = refl
  same_at_cycle _ c ut k = cc

  -- One clock edge.
  pub edge_moves :
      {n : ℕ} (c : Calls) (ut : Ut T)
      → IsCounted n ut
      → Holds
          (λ (r : Option Drive × Ut T).
            r.1.test_curr ≡ (if finishes_at ops ut.op c ut then suc ut.test_curr else ut.test_curr))
          (cb_step_sync ops c ut)
  unfolding cb_step_sync ut_step ut_update_bus_state
  edge_moves c ut w = elim (Bool-cases (is_done ut.op)) [
    | inl d ↦ rw (d, none_at_done ut.op c ut d) refl
    | inr d ↦ rw (d) (
        Holds-bind
          (λ (s : Stepped (Ut T)).
            s.state.test_curr ≡ moved ut.test_curr (finishes_at ops ut.op c ut))
          (λ (r : Option Drive × Ut T).
            r.1.test_curr ≡ moved ut.test_curr (finishes_at ops ut.op c ut))
          (ut_step ops c ut) _
          (subst
            (λ (b : Bool).
              Holds (λ (s : Stepped (Ut T)). s.state.test_curr ≡ moved ut.test_curr b)
                (ut_step ops c ut))
            (same_at_cycle ut.op c ut (u64 (ut.cycle + 1)))
            (op_moves ut.op c (record ut { cycle = u64 (ut.cycle + 1) }) (cycled w)))
          (λ s e. e))
  ]
