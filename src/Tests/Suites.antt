-- ===== src/Tests/Suites.antt =====
-- Runs of the simulation and of control transfers at concrete inputs.
use misc_verilog_cores.Base.{
  ℕ, replicate, true, false, ◌+◌, ◌≡◌, ◌≤◌, refl, ◌==◌, ltb, if◌then◌else◌, pos, List, [], ◌∷◌,
  length, ok, ◌>>=◌, arith, some,
}
use misc_verilog_cores.Ulpi.{ulpi_bus_idle}
use misc_verilog_cores.Host.{Host, host_setup, host_idle, usbh_init}
use misc_verilog_cores.Host.{usbh_busy}
use misc_verilog_cores.Host.Request.{stdreq_get_descriptor, stdreq_set_address, stdreq_start}
use misc_verilog_cores.Cases.{Tried, tried, Stage, send_setup, send_data0, stage_done, next_step}
use misc_verilog_cores.Cases.Control.{
  stage_index, tc_getdesc_init, tc_getdesc_step, ShortState, short_setup, short_index,
  tc_setaddr_init, tc_setaddr_step,
}
use misc_verilog_cores.Cases.Bulk.{wait_idle}
use misc_verilog_cores.Cases.Runs.{Run, begin, next, tick}
use misc_verilog_cores.Cases.Stages.{getdesc_in_step}
use misc_verilog_cores.Cases.Addressing.{setaddr_in_step}
use misc_verilog_cores.Bench.{Ut, ut_done, ut_start_up}
use misc_verilog_cores.Bench.Step.{
  test_step, cb_step_sync, Drive, ut_step, ut_op_step, ut_update_bus_state,
}
use misc_verilog_cores.Bench.Suite.{TestCase, getdesc, waitsof, case_ops, bench_init, case_init}
use misc_verilog_cores.Bench.Left.{in_rounds}
use misc_verilog_cores.Bench.Ends.{case_run, is_zero, case_ends}
use misc_verilog_cores.Bench.Queue.{queue_of, queue_step, test_step_refines, IsRunning}
use misc_verilog_cores.Bench.Order.{finished, Reaches, initial, edge, done_after_all}
use misc_verilog_cores.Tests.{idle_host, idle_phy, calls}

abbrev two_tests : List TestCase
two_tests = getdesc send_setup ∷ waitsof wait_idle ∷ []

abbrev small_bench : Ut TestCase
small_bench = bench_init [] idle_phy ulpi_bus_idle idle_host two_tests

small_bench-IsRunning : IsRunning small_bench
unfolding bench_init
small_bench-IsRunning = record { counted = refl; no_wrap = omega arith; few_calls = omega arith }

test_step_refines_example :
    (test_step case_ops calls small_bench >>= λ r. ok (r.0, queue_of r.1))
    ≡ queue_step case_ops calls (queue_of small_bench)
test_step_refines_example = test_step_refines case_ops calls small_bench small_bench-IsRunning

-- The first clock edge.
abbrev started_bench : Ut TestCase
started_bench = record small_bench {
  cycle = 1;
  host = record (small_bench.host) { cycle = 1 };
  op = ut_start_up;
}

first_edge :
    (d : Drive) × (cb_step_sync case_ops calls (record small_bench { bus = ulpi_bus_idle })
      ≡ ok (some d, started_bench))
unfolding cb_step_sync ut_step ut_op_step ut_update_bus_state bench_init usbh_init
first_edge = (_, refl)

abbrev started : Reaches case_ops small_bench started_bench
started =
    edge calls ulpi_bus_idle (some first_edge.0) small_bench started_bench initial first_edge.1

done_after_all_example :
    (started_bench.test_curr ≤ 2)
    × (length started_bench.tests ≡ 2)
    × (finished started ≡ [])
    × (started_bench.op ≡ ut_done → started_bench.test_curr ≡ 2)
    × (started_bench.op ≡ ut_done → finished started ≡ 0 ∷ 1 ∷ [])
unfolding bench_init
done_after_all_example =
    done_after_all [] idle_phy ulpi_bus_idle idle_host two_tests started_bench (omega arith) started

-- The request, one cycle of the host, and the call for the first packet.
asked : (h : Host) × (tc_getdesc_init calls send_setup idle_host ≡ tried (pos 0) send_setup h)
unfolding tc_getdesc_init stdreq_get_descriptor stdreq_start usbh_busy
asked = (_, refl)

getdesc_one : Run tc_getdesc_step send_setup asked.0 1 send_data0 (next_step (tick asked.0))
unfolding tc_getdesc_step
getdesc_one = next 0 send_setup send_data0 asked.0 _ (pos 0) begin refl

getdesc_in_step_example :
    (let h = next_step (tick asked.0) in
      (stage_index send_data0 ≡ 1)
      × (h.step ≡ 1)
      × (h.op ≡ host_setup)
      × (t' : Stage) × (h' : Host) × (tc_getdesc_step send_data0 (tick h)
          ≡ tried (pos (if 1 == 8 then 1 else 0)) t' h')
      × (h'.step ≡ 1 + 1)
      × (◌≡◌ {A = ℕ} 1 8 → (h'.op ≡ host_idle) × (t' ≡ stage_done)))
getdesc_in_step_example =
    getdesc_in_step calls send_setup send_setup send_data0 idle_host asked.0
      (next_step (tick asked.0)) 1 asked.1 getdesc_one (omega arith)

abbrev address_test : ShortState
address_test = record { stage = short_setup; value = 0x23 }

asked_address : (h : Host) × (tc_setaddr_init address_test idle_host ≡ tried (pos 0) address_test h)
unfolding tc_setaddr_init stdreq_set_address stdreq_start
asked_address = (_, refl)

setaddr_in_step_example :
    (let h = asked_address.0 in
      (short_index short_setup ≡ 0)
      × (h.step ≡ 0)
      × (h.op ≡ host_setup)
      × (h.addr ≡ (if ltb 0 3 then 9 else 0x23))
      × (t' : ShortState) × (h' : Host) × (tc_setaddr_step address_test (tick h)
          ≡ tried (pos (if 0 == 5 then 1 else 0)) t' h')
      × (h'.step ≡ 0 + 1)
      × (◌≡◌ {A = ℕ} 0 5 → (h'.op ≡ host_idle) × (h'.addr ≡ 0x23)))
setaddr_in_step_example =
    setaddr_in_step address_test address_test address_test idle_host asked_address.0 asked_address.0
      0 asked_address.1 begin (omega arith)

-- A GET DESCRIPTOR, with a host that nobody changes.
begun :
    (r : Tried TestCase) × (case_init calls (getdesc send_setup) idle_host ≡ ok r)
    × (r.code ≡ pos 0)
unfolding case_init tc_getdesc_init stdreq_get_descriptor stdreq_start usbh_busy
begun = (_, refl, refl)

has_round : in_rounds (getdesc send_setup) ≡ true
unfolding in_rounds
has_round = refl

case_ends_example : is_zero (case_run (replicate 45 (calls, idle_host)) begun.0.test) ≡ false
case_ends_example =
    case_ends calls idle_host (getdesc send_setup) begun.0 (replicate 45 (calls, idle_host))
      has_round begun.1 begun.2 (omega arith)
