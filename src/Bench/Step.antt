-- ===== src/Bench/Step.antt =====
-- The steps of vpi/ulpisim.c: `stim_step`, `test_step`, `ut_step` and what `cb_step_sync` does on
-- every clock edge. A test case that fails, or a step of the host, stops the simulation with -1.
use misc_verilog_cores.Base.{
  ℕ, ◌+◌, u32, u64, Bool, true, false, not, ◌||◌, ◌==◌, ◌!=◌, ltb, if◌then◌else◌, ℤ, pos, negsuc,
  is_negative, is_positive, Option, none, some, set, Result, ok, fault, bounds, ◌>>=◌,
}
use misc_verilog_cores.Ulpi.{Bus, Byte, Stepped, stepped, ulpi_bus_is_idle}
use misc_verilog_cores.Host.{Host, host_idle}
use misc_verilog_cores.Host.Control.{above_one}
use misc_verilog_cores.Host.Step.{usbh_step}
use misc_verilog_cores.Phy.{Phy, PhyOp, phy_idle, high_speed}
use misc_verilog_cores.Phy.Step.{uphy_step}
use misc_verilog_cores.Cases.{Calls, Tried}
use misc_verilog_cores.Bench.{
  Ut, UtOp, ut_power_on, ut_start_up, ut_idle, ut_test, ut_done, TestOps, nth,
}

-- `host->cycle++`.
abbrev pub host_tick : Host → Host
host_tick host = record host { cycle = u64 (host.cycle + 1) }

abbrev is_phy_idle : PhyOp → Bool
is_phy_idle phy_idle = true
is_phy_idle _ = false

-- Whether `stim_step` steps the PHY, and not the host.
abbrev pub steps_phy : Phy → Bool
steps_phy phy = ltb phy.state.speed high_speed || not (is_phy_idle phy.state.op)

-- What `stim_step` makes of a step of the PHY: `ut_error` returns 0.
unfoldable pub stim_phy : Host → Stepped Phy → Result (Stepped (Phy × Host))
stim_phy host s =
    if is_negative s.code
    then stepped (pos 0) (s.state, host) s.out
    else if is_positive s.code
    then stepped s.code (s.state, record host { op = host_idle }) s.out
    else stepped s.code (s.state, host) s.out

unfoldable pub stim_step : Calls → Phy → Host → Bus → Bus → Result (Stepped (Phy × Host))
stim_step c phy host curr next =
    if steps_phy phy
    then uphy_step phy curr next >>= stim_phy (host_tick host)
    else (usbh_step (c.rand 0) host curr next >>= λ s. stepped s.code (phy, s.state) s.out)

-- What `ut_update_bus_state` puts on the signals, where they change.
pub record Drive : Type 0 where
  pub dir : Option ℕ
  pub nxt : Option ℕ
  pub dato : Option Byte

-- What a signal shows then.
abbrev pub shown {ℓ} : {A : Type ℓ} → Option A → A → A
shown none old = old
shown (some new) old = new

abbrev pub is_done : UtOp → Bool
is_done ut_done = true
is_done _ = false

module _ {T : Type 0} where
  abbrev pub with_host : Host → Ut T → Ut T
  with_host host ut = record ut { host = host }

  unfoldable pub ut_update_bus_state : Ut T → Bus → Drive × Ut T
  ut_update_bus_state ut next = (
    record {
      dir = if ut.bus.dir != next.dir then some next.dir else none;
      nxt = if ut.bus.nxt != next.nxt then some next.nxt else none;
      dato =
          if ut.bus.dat.a != next.dat.a || ut.bus.dat.b != next.dat.b then some next.dat else none;
    },
    record ut { phy = record (ut.phy) { bus = next } },
  )

  -- A test that returned: its data and the host are kept, a result above 0 is that of a finished
  -- test, and the next one is current.
  unfoldable pub test_result : Ut T → Tried T → ℤ × Ut T
  test_result ut t =
      let kept : Ut T = record ut { tests = set ut.tests ut.test_curr t.test; host = t.host } in
      if is_negative t.code
      then (negsuc 0, kept)
      else if is_positive t.code
      then (t.code, record kept { test_step = 0; test_curr = u32 (ut.test_curr + 1) })
      else (pos 0, kept)

  -- What follows a step of the host: -1 for an error, else 0 in the operation for its result.
  unfoldable pub bench_stepped : UtOp → UtOp → Ut T → Stepped Host → Result (Stepped (Ut T))
  bench_stepped here done ut s =
      if is_negative s.code
      then stepped (negsuc 0) (with_host s.state ut) s.out
      else stepped (pos 0)
          (record (with_host s.state ut) { op = if is_positive s.code then done else here }) s.out

  -- What follows a call of a test case.
  unfoldable pub test_called : Bus → ℤ × Ut T → Result (Stepped (Ut T))
  test_called next r =
      if is_negative r.0
      then stepped (negsuc 0) r.1 next
      else if is_positive r.0
      then stepped (pos 0) (if above_one r.0 then record (r.1) { op = ut_done } else r.1) next
      else stepped (pos 0) (record (r.1) { op = ut_test }) next

module _ {T : Type 0} (ops : TestOps T) where
  unfoldable pub run_test : Calls → Ut T → T → Result (ℤ × Ut T)
  run_test c ut test =
      let begun : Ut T = record ut { test_step = u32 (ut.test_step + 1) } in
      (if ut.test_step == 0 then ops.init c test ut.host else ops.step c test ut.host) >>= λ t.
      ok (test_result begun t)

  unfoldable pub test_step : Calls → Ut T → Result (ℤ × Ut T)
  test_step c ut =
      if ltb ut.test_curr ut.test_num
      then elim (nth ut.tests ut.test_curr) [ none ↦ fault bounds | some test ↦ run_test c ut test ]
      else ok (pos 2, ut)

  unfoldable pub start_up_step : Calls → Ut T → Bus → Result (Stepped (Ut T))
  start_up_step c ut curr = stim_step c ut.phy ut.host curr curr >>= λ s.
      let kept : Ut T = record ut { phy = s.state.0; host = s.state.1 } in
      if is_negative s.code
      then stepped (negsuc 0) kept s.out
      else stepped (pos 0)
          (record kept { op = if is_positive s.code then ut_idle else ut_start_up }) s.out

  -- The switch; `curr` is also what was copied to `next`.
  unfoldable pub ut_op_step : UtOp → Calls → Ut T → Bus → Result (Stepped (Ut T))
  ut_op_step ut_power_on c ut curr =
      stepped (pos 0) (record (with_host (host_tick ut.host) ut) { op = ut_start_up }) curr
  ut_op_step ut_start_up c ut curr = start_up_step c ut curr
  ut_op_step ut_idle c ut curr =
      if not (ulpi_bus_is_idle curr)
      then usbh_step (c.rand 0) ut.host curr curr >>= bench_stepped ut_idle ut_idle ut
      else test_step c (with_host (host_tick ut.host) ut) >>= test_called curr
  ut_op_step ut_test c ut curr =
      usbh_step (c.rand 0) ut.host curr curr >>= bench_stepped ut_test ut_idle ut
  ut_op_step ut_done c ut curr = stepped (pos 1) ut curr

  unfoldable pub ut_step : Calls → Ut T → Result (Stepped (Ut T))
  ut_step c ut = ut_op_step ut.op c (record ut { cycle = u64 (ut.cycle + 1) }) ut.bus

  -- One clock edge: the state that `cb_step_sync` leaves, and what it drives. `none` ends the
  -- simulation.
  abbrev pub synced : Drive × Ut T → Option Drive × Ut T
  synced r = (some r.0, record (r.1) { sync_flag = 0 })

  unfoldable pub cb_step_sync : Calls → Ut T → Result (Option Drive × Ut T)
  cb_step_sync c ut =
      if is_done ut.op
      then ok (none, record ut { cycle = u64 (ut.cycle + 1) })
      else (ut_step c ut >>= λ s. ok (synced (ut_update_bus_state s.state s.out)))
