-- ===== src/Fifo/Run.antt =====
-- The queue of tests of vpi/packet_tb.c: `pt_step`, `pt_update_values` and `cb_step_sync`.
use misc_verilog_cores.Base.{
  ℕ, ◌+◌, u32, u64, Bool, true, false, ◌||◌, ◌==◌, ◌!=◌, ltb, if◌then◌else◌, ℤ, pos, negsuc,
  is_negative, is_positive, List, [], ◌∷◌, length, set, Option, none, some, Result, ok, fault,
  bounds, ◌>>=◌,
}
use misc_verilog_cores.Ulpi.{Byte}
use misc_verilog_cores.Host.Control.{above_one}
use misc_verilog_cores.Bench.{nth}
use misc_verilog_cores.Fifo.{Sigs, TcState, Tb}
use misc_verilog_cores.Fifo.Steps.{
  tc_waitrst_init, tc_waitrst_step, tc_wrdata1_init, tc_wr_redo_init, tc_wr_drop_init,
  tc_stop_go_init, tc_wrdata1_step, tc_wr_redo_step, tc_wr_drop_step, tc_stop_go_step,
}

-- The two functions of a test.
pub data PtKind : Type 0 where
  waitrst wrdata1 wr_redo wr_drop stop_go : PtKind

pub record PtTest : Type 0 where
  pub kind : PtKind
  pub data_of : TcState

unfoldable pub pt_init : PtKind → (ℕ → ℕ) → Sigs → TcState → Result Tb
pt_init waitrst rand curr st = tc_waitrst_init curr st
pt_init wrdata1 rand curr st = tc_wrdata1_init rand curr st
pt_init wr_redo rand curr st = tc_wr_redo_init rand curr st
pt_init wr_drop rand curr st = tc_wr_drop_init rand curr st
pt_init stop_go rand curr st = tc_stop_go_init rand curr st

unfoldable pub pt_call : PtKind → (ℕ → ℕ) → Sigs → TcState → Result Tb
pt_call waitrst rand curr st = tc_waitrst_step curr st
pt_call wrdata1 rand curr st = tc_wrdata1_step curr st
pt_call wr_redo rand curr st = tc_wr_redo_step curr st
pt_call wr_drop rand curr st = tc_wr_drop_step curr st
pt_call stop_go rand curr st = tc_stop_go_step (rand 0) curr st

-- The tests, in memory `st` that `malloc` returns.
unfoldable pub test_waitrst : TcState → PtTest
test_waitrst st = record { kind = waitrst; data_of = record st { step = 0 } }

unfoldable pub test_wrdata1 : TcState → ℕ → PtTest
test_wrdata1 st len = record { kind = wrdata1; data_of = record st { step = 0; size = len } }

unfoldable pub test_wr_redo : TcState → ℕ → PtTest
test_wr_redo st len = record { kind = wr_redo; data_of = record st { step = 0; size = len } }

unfoldable pub test_wr_drop : TcState → ℕ → PtTest
test_wr_drop st len = record { kind = wr_drop; data_of = record st { step = 0; size = len } }

unfoldable pub test_stop_go : TcState → PtTest
test_stop_go st = record { kind = stop_go; data_of = record st { step = 0; size = 32 } }

-- `pt_state_t` without the handles, and without `prev`, which only the printing reads.
pub record Pt : Type 0 where
  pub tick_ns : ℕ
  pub t_recip : ℕ
  pub cycle : ℕ
  pub sync_flag : ℕ
  pub test_num : ℕ
  pub test_curr : ℕ
  pub test_step : ℕ
  pub tests : List PtTest
  pub sigs : Sigs

-- The tests of `pt_compiletf`, for any memory.
unfoldable pub pt_tests : TcState → List PtTest
pt_tests st =
    test_waitrst st
    ∷ test_wrdata1 st 8
    ∷ test_wr_redo st 8
    ∷ test_wrdata1 st 3
    ∷ test_wr_redo st 3
    ∷ test_wr_drop st 8
    ∷ test_wr_drop st 1
    ∷ test_stop_go st
    ∷ []

unfoldable pub pt_start : TcState → Sigs → Pt
pt_start st sigs = record {
  tick_ns = 0;
  t_recip = 0;
  cycle = 0;
  sync_flag = 0;
  test_num = length (pt_tests st);
  test_curr = 0;
  test_step = 0;
  tests = pt_tests st;
  sigs = sigs;
}

-- What `pt_step` leaves: its result, the state, `*next`, and whether `pt_error` was called.
pub record PtStepped : Type 0 where
  pub code : ℤ
  pub state : Pt
  pub out : Sigs
  pub error : Bool

-- The test returned; `pt_failed` calls `pt_error` and returns -1.
unfoldable pub pt_result : Pt → PtTest → Tb → PtStepped
pt_result pt test s =
    let kept : Pt = record pt {
      tests = set pt.tests pt.test_curr (record test { data_of = s.st });
    } in
    if is_negative s.code
    then record { code = negsuc 0; state = kept; out = s.sigs; error = true }
    else if is_positive s.code
    then record {
      code = s.code;
      state = record kept { test_step = 0; test_curr = u32 (pt.test_curr + 1) };
      out = s.sigs;
      error = s.error;
    }
    else record { code = s.code; state = kept; out = s.sigs; error = s.error }

unfoldable pub pt_run_test : (ℕ → ℕ) → Pt → PtTest → Result PtStepped
pt_run_test rand pt test =
    let begun : Pt = record pt { test_step = u32 (pt.test_step + 1) } in
    (if pt.test_step == 0
      then pt_init test.kind rand pt.sigs test.data_of
      else pt_call test.kind rand pt.sigs test.data_of)
    >>= λ s. ok (pt_result begun test s)

-- `next` is a copy of the signals.
unfoldable pub pt_step : (ℕ → ℕ) → Pt → Result PtStepped
pt_step rand pt =
    let counted : Pt = record pt { cycle = u64 (pt.cycle + 1) } in
    if ltb pt.test_curr pt.test_num
    then elim (nth pt.tests pt.test_curr) [
      | none ↦ fault bounds
      | some test ↦ pt_run_test rand counted test
    ]
    else ok (record { code = pos 2; state = counted; out = pt.sigs; error = false })

-- What `pt_update_values` puts on the signals, where they change.
pub record PtDrive : Type 0 where
  pub r_rdy : Option ℕ
  pub w_vld : Option ℕ
  pub w_lst : Option ℕ
  pub drop_sig : Option ℕ
  pub save : Option ℕ
  pub redo : Option ℕ
  pub next : Option ℕ
  pub w_dat : Option Byte

abbrev changed : ℕ → ℕ → Option ℕ
changed old new = if old != new then some new else none

unfoldable pub pt_update_values : Pt → Sigs → PtDrive × Pt
pt_update_values pt out =
    let curr = pt.sigs in
    (
      record {
        r_rdy = changed curr.r_rdy out.r_rdy;
        w_vld = changed curr.w_vld out.w_vld;
        w_lst = changed curr.w_lst out.w_lst;
        drop_sig = changed curr.drop_sig out.drop_sig;
        save = changed curr.save out.save;
        redo = changed curr.redo out.redo;
        next = changed curr.next out.next;
        w_dat =
            if curr.w_dat.a != out.w_dat.a || curr.w_dat.b != out.w_dat.b
            then some out.w_dat
            else none;
      },
      record pt { sigs = out },
    )

-- One clock edge: what is driven, the state, and whether the simulation ends, after the last test or
-- by `pt_error`.
unfoldable pub pt_step_sync : (ℕ → ℕ) → Pt → Result (Bool × PtDrive × Pt)
pt_step_sync rand pt = pt_step rand pt >>= λ s.
    let u = pt_update_values s.state s.out in
    ok (above_one s.code || s.error, u.0, record (u.1) { sync_flag = 0 })
