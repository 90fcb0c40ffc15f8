-- ===== src/Bench.antt =====
-- vpi/ulpisim.h and vpi/ulpisim.c: the simulation, which owns the PHY, the host and the test cases.
pub mod Step
pub mod Suite
pub mod Queue
pub mod Codes
pub mod Counters
pub mod Order
pub mod Finishes
pub mod Left
pub mod Nearer
pub mod Ends
pub mod Clock
use misc_verilog_cores.Base.{
  ℕ, ◌≡◌, ℤ, pos, Bool, true, List, Option, Result, suc, zero, none, some, [], ◌∷◌,
}
use misc_verilog_cores.Ulpi.{Bus}
use misc_verilog_cores.Host.{Host}
use misc_verilog_cores.Phy.{Phy}
use misc_verilog_cores.Cases.{Calls, Tried}

-- `ut_step_t`.
pub data UtOp : Type 0 where
  ut_power_on ut_start_up ut_idle ut_test ut_done : UtOp

-- `ut_state_t` without the handles of the simulator.
pub record Ut (T : Type 0) : Type 0 where
  pub tick_ns : ℕ
  pub t_recip : ℕ
  pub cycle : ℕ
  pub bus : Bus
  pub phy : Phy
  pub host : Host
  pub sync_flag : ℕ
  pub test_num : ℕ
  pub test_curr : ℕ
  pub test_step : ℕ
  pub tests : List T
  pub op : UtOp

-- The two function pointers of `testcase_t`, for every kind `T` of a test case's own data.
pub record TestOps (T : Type 0) : Type 0 where
  pub init : Calls → T → Host → Result (Tried T)
  pub step : Calls → T → Host → Result (Tried T)

-- `tests[i]`.
abbrev pub nth {ℓ} : {A : Type ℓ} → List A → ℕ → Option A
nth [] i = none
nth (x ∷ xs) zero = some x
nth (x ∷ xs) (suc i) = nth xs i
