-- ===== src/Bench/Order.antt =====
-- Every run of the simulation of vpi/ulpisim.c, one `cb_step_sync` for each clock edge: which test is
-- current, and when the simulation is done.
use misc_verilog_cores.Base.{
  ℕ, ◌+◌, ◌<◌, ◌≤◌, ◌≡◌, refl, sym, ◌∙◌, ap, zero, suc, Bool, true, [], ◌∷◌, ◌++◌, if◌then◌else◌,
  false, ◌==◌, ltb, is_negative, is_positive, List, length, Option, ok, arith, u32, u64, Bool-cases,
  inl, inr,
}
use misc_verilog_cores.Ulpi.{Bus, ulpi_bus_is_idle}
use misc_verilog_cores.Host.{Host}
use misc_verilog_cores.Host.Step.{usbh_step}
use misc_verilog_cores.Phy.{Phy}
use misc_verilog_cores.Cases.{Calls}
use misc_verilog_cores.Bench.{
  Ut, UtOp, ut_power_on, ut_start_up, ut_idle, ut_test, ut_done, TestOps,
}
use misc_verilog_cores.Bench.Step.{
  is_done, run_test, test_step, test_called, start_up_step, stim_step, ut_op_step, ut_step,
  cb_step_sync, ut_update_bus_state, Drive, with_host, host_tick,
}
use misc_verilog_cores.Bench.Queue.{nth-cases}
use misc_verilog_cores.Bench.Codes.{HasLowCodes, case_ops-HasLowCodes}
use misc_verilog_cores.Bench.Finishes.{finishes_at, edge_moves}
use misc_verilog_cores.Bench.Suite.{TestCase, case_ops, bench_init}
use misc_verilog_cores.Bench.Counters.{
  IsCounted, IsSound, Holds, SoundStep, Tested, Holds-bind, holds-ok, any, unchanged_counters,
  call_kept, ticked, unchanged_fields, called_kept, stepped_kept,
}

-- The states that clock edges lead to; the bus carries anything at each of them.
pub data Reaches {T : Type 0} (ops : TestOps T) (start : Ut T) : Ut T → Type 0 where
  initial : Reaches ops start start
  edge :
      (c : Calls) (bus : Bus) (d : Option Drive) (ut ut' : Ut T)
      → Reaches ops start ut
      → cb_step_sync ops c (record ut { bus = bus }) ≡ ok (d, ut')
      → Reaches ops start ut'

-- The numbers of the tests whose call returned a result above 0, in the order of the clock edges.
abbrev pub finished :
    {T : Type 0} {ops : TestOps T} {start ut : Ut T} → Reaches ops start ut → List ℕ
finished initial = []
finished {ops = ops} (edge c bus d ut ut' r e) =
    if finishes_at ops ut.op c (record ut { bus = bus })
    then finished r ++ ut.test_curr ∷ []
    else finished r

-- The numbers below a bound, in order.
abbrev pub all_below_in_order : ℕ → List ℕ
all_below_in_order zero = []
all_below_in_order (suc n) = all_below_in_order n ++ n ∷ []

appended :
    (old : List ℕ) (k m : ℕ) (b : Bool)
    → old ≡ all_below_in_order k
    → m ≡ (if b then suc k else k)
    → (if b then old ++ k ∷ [] else old) ≡ all_below_in_order m
appended old k m true h e = ap (λ (l : List ℕ). l ++ k ∷ []) h ∙ ap all_below_in_order (sym e)
appended old k m false h e = h ∙ ap all_below_in_order (sym e)

module _ {T : Type 0} {n : ℕ} (ops : TestOps T) (codes : HasLowCodes ops) where
  test_kept : (c : Calls) (ut : Ut T) → IsCounted n ut → Holds (Tested n ut) (test_step ops c ut)
  unfolding test_step run_test
  test_kept c ut w = elim (Bool-cases (ltb ut.test_curr ut.test_num)) [
    | inl e ↦
        let (x, at, d) = nth-cases ut.tests ut.test_curr (ground (arith, w.counted, w.number)) in
        rw (e, at)
          (elim (Bool-cases (ut.test_step == 0)) [
            | inl z ↦ rw (z) (
                call_kept ut (u32 (ut.test_step + 1)) (ops.init c x ut.host) w
                  (ground (arith, w.number)) (codes.init_low c x ut.host))
            | inr z ↦ rw (z) (
                call_kept ut (u32 (ut.test_step + 1)) (ops.step c x ut.host) w
                  (ground (arith, w.number)) (codes.step_low c x ut.host))
          ])
    | inr e ↦
        rw (e)
          (record { count = w; same_op = refl; at_end = λ x. ground (arith, w.within, w.number) })
  ]

  start_kept :
      (c : Calls) (ut : Ut T) (curr : Bus)
      → IsCounted n ut
      → is_done ut.op ≡ false
      → Holds (SoundStep n) (start_up_step ops c ut curr)
  unfolding start_up_step
  start_kept c ut curr w o =
      Holds-bind (λ a. Unit) (SoundStep n) (stim_step c ut.phy ut.host curr curr) _
        (any (stim_step c ut.phy ut.host curr curr))
        (λ s u. elim (Bool-cases (is_negative s.code)) [
          | inl e ↦ rw (e) (unchanged_counters ut _ w refl refl refl o)
          | inr e ↦ elim (Bool-cases (is_positive s.code)) [
            | inl p ↦ rw (e, p) (unchanged_counters ut _ w refl refl refl refl)
            | inr p ↦ rw (e, p) (unchanged_counters ut _ w refl refl refl refl)
          ]
        ])

  op_kept :
      (op : UtOp) (c : Calls) (ut : Ut T) (curr : Bus)
      → IsSound n ut
      → ut.op ≡ op
      → Holds (SoundStep n) (ut_op_step ops op c ut curr)
  unfolding ut_op_step
  op_kept ut_power_on c ut curr w e = unchanged_counters ut _ w.count refl refl refl refl
  op_kept ut_start_up c ut curr w e = start_kept c ut curr w.count (ap is_done e)
  op_kept ut_idle c ut curr w e =
      let woken = with_host (host_tick ut.host) ut in
      elim (Bool-cases (ulpi_bus_is_idle curr)) [
        | inl i ↦ rw (i) (
            Holds-bind (Tested n woken) (SoundStep n) (test_step ops c woken) (test_called curr)
              (test_kept c woken (ticked w.count))
              (λ r t. called_kept woken curr r (ap is_done e) t))
        | inr i ↦ rw (i) (
            Holds-bind (λ a. Unit) (SoundStep n) (usbh_step (c.rand 0) ut.host curr curr) _
              (any (usbh_step (c.rand 0) ut.host curr curr))
              (λ s u. stepped_kept ut_idle ut_idle ut s w.count (ap is_done e) refl refl))
      ]
  op_kept ut_test c ut curr w e =
      Holds-bind (λ a. Unit) (SoundStep n) (usbh_step (c.rand 0) ut.host curr curr) _
        (any (usbh_step (c.rand 0) ut.host curr curr))
        (λ s u. stepped_kept ut_test ut_idle ut s w.count (ap is_done e) refl refl)
  op_kept ut_done c ut curr w e = w

  -- One clock edge.
  edge_kept :
      (c : Calls) (ut : Ut T)
      → IsSound n ut
      → Holds (λ (r : Option Drive × Ut T). IsSound n r.1) (cb_step_sync ops c ut)
  unfolding cb_step_sync ut_step ut_update_bus_state
  edge_kept c ut w = elim (Bool-cases (is_done ut.op)) [
    | inl e ↦ rw (e) (unchanged_fields ut _ w refl refl refl refl)
    | inr e ↦ rw (e) (
        Holds-bind (SoundStep n) (λ (r : Option Drive × Ut T). IsSound n r.1) (ut_step ops c ut) _
          (op_kept ut.op c (record ut { cycle = u64 (ut.cycle + 1) }) ut.bus
            (unchanged_fields ut _ w refl refl refl refl) refl)
          (λ s v. unchanged_fields s.state _ v refl refl refl refl))
  ]

  reached : {start ut : Ut T} → IsSound n start → Reaches ops start ut → IsSound n ut
  reached w initial = w
  reached w (edge c bus d ut ut' r e) =
      holds-ok (λ (x : Option Drive × Ut T). IsSound n x.1) _ (d, ut') e
        (edge_kept c (record ut { bus = bus })
          (unchanged_fields ut _ (reached w r) refl refl refl refl))

  finished_lem :
      {start ut : Ut T}
      → IsSound n start
      → start.test_curr ≡ 0
      → (r : Reaches ops start ut) → finished r ≡ all_below_in_order ut.test_curr
  finished_lem w z initial = ap all_below_in_order (sym z)
  finished_lem w z (edge c bus d ut ut' r e) =
      let here = record ut { bus = bus } in
      let sound : IsSound n here = unchanged_fields ut _ (reached w r) refl refl refl refl in
      appended (finished r) ut.test_curr ut'.test_curr (finishes_at ops ut.op c here)
        (finished_lem w z r) (holds-ok _ _ (d, ut') e (edge_moves ops c here sound.count))

-- In every state that the simulation reaches from its initial one, whatever the buses carry, whatever
-- `rand` and `malloc` return and whichever tests it is given (fewer than 2 ^ 32): the calls that returned
-- a result above 0 so far, of `init` or `step` of the test that was current, are one of each test before
-- the current one, in order; the current test is one of the array or just behind it, and the array keeps
-- its length. So the operation is `UT_Done` only when every test has returned a result above 0, once
-- each and in order.
pub done_after_all :
    (memory : List ℕ) (phy : Phy) (bus : Bus) (host : Host) (tests : List TestCase)
    (ut : Ut TestCase)
    → length tests < 4294967296
    → (r : Reaches case_ops (bench_init memory phy bus host tests) ut)
    → (ut.test_curr ≤ length tests)
      × (length ut.tests ≡ length tests)
      × (finished r ≡ all_below_in_order ut.test_curr)
      × (ut.op ≡ ut_done → ut.test_curr ≡ length tests)
      × (ut.op ≡ ut_done → finished r ≡ all_below_in_order (length tests))
unfolding bench_init
done_after_all memory phy bus host tests ut h r =
    let start = bench_init memory phy bus host tests in
    let w : IsSound (length tests) start = record {
      count = record { number = refl; counted = refl; no_wrap = h; within = omega arith };
      finished = λ d. ground arith;
    } in
    let s = reached case_ops case_ops-HasLowCodes w r in
    let so_far = finished_lem case_ops case_ops-HasLowCodes w refl r in
    let at_end : ut.op ≡ ut_done → ut.test_curr ≡ length tests = λ e. s.finished (ap is_done e) in
    (
      s.count.within,
      s.count.counted,
      so_far,
      at_end,
      λ e. so_far ∙ ap all_below_in_order (at_end e),
    )
