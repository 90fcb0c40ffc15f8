-- ===== src/Fifo.antt =====
-- The state of vpi/packet_tb.c, which tests a packet FIFO: its signals and the data of a test.
pub mod Packets
pub mod Steps
pub mod Run
pub mod Beats
pub mod Stored
pub mod Fetched
pub mod Clock
use misc_verilog_cores.Base.{ℕ, ◌+◌, bit_and, Bool, ℤ, List, Result, ok, ◌>>=◌}
use misc_verilog_cores.Ulpi.{Byte}
use misc_verilog_cores.Cases.{fill}

-- `fifo_sigs_t`.
pub record Sigs : Type 0 where
  pub clock : ℕ
  pub reset : ℕ
  pub level : Byte
  pub drop_sig : ℕ
  pub save : ℕ
  pub redo : ℕ
  pub next : ℕ
  pub w_vld : ℕ
  pub w_rdy : ℕ
  pub w_lst : ℕ
  pub w_dat : Byte
  pub r_vld : ℕ
  pub r_rdy : ℕ
  pub r_lst : ℕ
  pub r_dat : Byte

-- `tc_state_t`.
pub record TcState : Type 0 where
  pub step : ℕ
  pub size : ℕ
  pub head : ℕ
  pub tail : ℕ
  pub buf : List ℕ

-- What a call leaves: its result, `*curr`, the test's data, and whether it called `pt_error`, which
-- prints, ends the simulation and returns 0.
pub record Tb : Type 0 where
  pub code : ℤ
  pub sigs : Sigs
  pub st : TcState
  pub error : Bool

abbrev pub tb : ℤ → Sigs → TcState → Bool → Result Tb
tb c sigs st e = ok (record { code = c; sigs = sigs; st = st; error = e })

-- `rand` gives the values from number `k` of the call on.
unfoldable pub fill_fixed_len : (ℕ → ℕ) → ℕ → List ℕ → ℕ → Result (ℕ × List ℕ)
fill_fixed_len rand k buf len = fill rand k len buf >>= λ filled. ok (len, filled)

unfoldable pub fill_len_masked : (ℕ → ℕ) → List ℕ → ℕ → Result (ℕ × List ℕ)
fill_len_masked rand buf len = fill_fixed_len rand 1 buf (bit_and (rand 0) len)
