-- ===== src/Bench/Left.antt =====
-- How far the test cases vpi/tc_*.c are from their end, in calls of `step`.
use misc_verilog_cores.Base.{
  ℕ, zero, suc, ◌+◌, ◌*◌, ◌-◌, Bool, true, ◌&&◌, ltb, pos, negsuc, Result, ok, fault,
}
use misc_verilog_cores.Cases.{
  Tried, Stage, send_setup, send_data0, recv_ack0, send_in, recv_data1, send_ack, send_out,
  send_zdp, recv_ack1, stage_done,
}
use misc_verilog_cores.Cases.Control.{
  ShortStage, short_setup, short_data0, short_ack0, short_in, short_data1, short_ack, short_done,
}
use misc_verilog_cores.Cases.Bulk.{
  BulkInStep, bulk_in0, bulk_in1, bulk_in2, bulk_in_done, BulkOutState, bulk_out0, bulk_out1,
  bulk_out2, bulk_out3, bulk_out4, bulk_out5, bulk_out6, bulk_done,
}
use misc_verilog_cores.Cases.Ddr.{DdrStep, ddr_cmd, ddr_dat, ddr_end}
use misc_verilog_cores.Cases.Parity.{
  ParityStep, parity_in0, parity_in1, parity_out0, parity_out1, parity_done,
}
use misc_verilog_cores.Bench.Suite.{
  TestCase, getdesc, setaddr, setconf, getconf, getstrs, waitsof, bulkout, ddr3out, ddr3in, bulkin,
  parity,
}

-- The calls that a stage is away from the end.
abbrev pub stages_left : Stage → ℕ
stages_left send_setup = 9
stages_left send_data0 = 8
stages_left recv_ack0 = 7
stages_left send_in = 6
stages_left recv_data1 = 5
stages_left send_ack = 4
stages_left send_out = 3
stages_left send_zdp = 2
stages_left recv_ack1 = 1
stages_left stage_done = 1

abbrev pub short_left : ShortStage → ℕ
short_left short_setup = 6
short_left short_data0 = 5
short_left short_ack0 = 4
short_left short_in = 3
short_left short_data1 = 2
short_left short_ack = 1
short_left short_done = 1

abbrev pub bulkin_left : BulkInStep → ℕ
bulkin_left bulk_in0 = 3
bulkin_left bulk_in1 = 2
bulkin_left bulk_in2 = 1
bulkin_left bulk_in_done = 1

abbrev pub bulkout_left : BulkOutState → ℕ
bulkout_left bulk_out0 = 7
bulkout_left bulk_out1 = 6
bulkout_left bulk_out2 = 5
bulkout_left bulk_out3 = 4
bulkout_left bulk_out4 = 3
bulkout_left bulk_out5 = 2
bulkout_left bulk_out6 = 1
bulkout_left bulk_done = 1

abbrev pub ddr_left : ℕ → DdrStep → ℕ → ℕ
ddr_left n ddr_cmd iter = n + (n - iter)
ddr_left n ddr_dat iter = n - iter
ddr_left n ddr_end iter = 1

abbrev pub parity_left : ParityStep → ℕ
parity_left parity_in0 = 4
parity_left parity_in1 = 3
parity_left parity_out0 = 2
parity_left parity_out1 = 1
parity_left parity_done = 1

-- A test of `n` requests or rounds of `m` calls, in round `k`.
abbrev pub rounds_left : ℕ → ℕ → ℕ → ℕ → ℕ
rounds_left n m k left = m * (n - 1 - k) + left

-- The calls until the result is not 0.
unfoldable pub calls_left : TestCase → ℕ
calls_left (getdesc st) = stages_left st
calls_left (setaddr st) = short_left st.stage
calls_left (setconf st) = short_left st.stage
calls_left (getconf st) = rounds_left 3 9 st.stage (stages_left st.step)
calls_left (getstrs st) = rounds_left 5 9 st.stage (stages_left st.step)
calls_left (waitsof st) = 1
calls_left (bulkout st) = bulkout_left st
calls_left (ddr3out st) = ddr_left 7 st.step st.iter
calls_left (ddr3in st) = ddr_left 6 st.step st.iter
calls_left (bulkin st) = bulkin_left st.step
calls_left (parity st) = rounds_left 3 4 st.stage (parity_left st.step)

-- The tests that have a round to make.
unfoldable pub in_rounds : TestCase → Bool
in_rounds (getconf st) = ltb st.stage 3
in_rounds (getstrs st) = ltb st.stage 5
in_rounds (ddr3out st) = ltb st.iter 7
in_rounds (ddr3in st) = ltb st.iter 6
in_rounds (parity st) = ltb st.stage 3
in_rounds _ = true

-- A result 0 leaves fewer calls than `n`.
abbrev pub nearer : ℕ → Result (Tried TestCase) → Bool
nearer n (fault f) = true
nearer n (ok t) = elim t.code [
  | pos zero ↦ in_rounds t.test && ltb (calls_left t.test) n
  | pos (suc k) ↦ true
  | negsuc k ↦ true
]
