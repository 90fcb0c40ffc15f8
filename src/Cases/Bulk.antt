-- ===== src/Cases/Bulk.antt =====
-- vpi/tc_waitsof.c, vpi/tc_bulkin.c and vpi/tc_bulkout.c.
use misc_verilog_cores.Base.{ℕ, pos, Result, ◌>>=◌}
use misc_verilog_cores.Host.{Host}
use misc_verilog_cores.Cases.{
  Calls, Tried, tried, bulk_in_ep, bulk_out_ep, go_idle, start_bulk_in, start_bulk_out,
}

-- `waitsof_state_t`.
pub data WaitState : Type 0 where
  wait_idle wait_done : WaitState

unfoldable pub tc_waitsof_init : WaitState → Host → Result (Tried WaitState)
tc_waitsof_init st host = tried (pos 0) wait_idle (record host { step = 0 })

unfoldable pub tc_waitsof_step : WaitState → Host → Result (Tried WaitState)
tc_waitsof_step wait_idle host = tried (pos 1) wait_done host
tc_waitsof_step wait_done host = tried (pos 1) wait_done host

-- `bulkin_step_t` and `bulkin_state_t`.
pub data BulkInStep : Type 0 where
  bulk_in0 bulk_in1 bulk_in2 bulk_in_done : BulkInStep

pub record BulkInState : Type 0 where
  pub step : BulkInStep
  pub stage : ℕ
  pub ep : ℕ

unfoldable pub test_bulkin : ℕ → BulkInState
test_bulkin ep = record { step = bulk_in0; stage = 0; ep = ep }

unfoldable pub tc_bulkin_init : BulkInState → Host → Result (Tried BulkInState)
tc_bulkin_init st host =
    tried (pos 0) (record st { step = bulk_in0; stage = 0 })
      (record (start_bulk_in st.ep host) { step = 0 })

abbrev bulkin_at : BulkInStep → BulkInState → Host → Result (Tried BulkInState)
bulkin_at bulk_in0 st host =
    tried (pos 0) (record st { step = bulk_in1 }) (start_bulk_in bulk_in_ep host)
bulkin_at bulk_in1 st host =
    tried (pos 0) (record st { step = bulk_in2 }) (start_bulk_in bulk_in_ep host)
bulkin_at bulk_in2 st host = tried (pos 1) (record st { step = bulk_in_done }) (go_idle host)
bulkin_at bulk_in_done st host = tried (pos 1) st host

unfoldable pub tc_bulkin_step : BulkInState → Host → Result (Tried BulkInState)
tc_bulkin_step st host = bulkin_at st.step st host

-- `bulkout_state_t`.
pub data BulkOutState : Type 0 where
  bulk_out0 bulk_out1 bulk_out2 bulk_out3 bulk_out4 bulk_out5 bulk_out6 : BulkOutState
  bulk_done : BulkOutState

abbrev send_next : Calls → ℕ → BulkOutState → Host → Result (Tried BulkOutState)
send_next c n st host = start_bulk_out c.rand 0 n bulk_out_ep host >>= λ h. tried (pos 0) st h

unfoldable pub tc_bulkout_init : Calls → BulkOutState → Host → Result (Tried BulkOutState)
tc_bulkout_init c st host = start_bulk_out c.rand 0 16 bulk_out_ep host >>= λ h.
    tried (pos 0) bulk_out0 (record h { step = 0 })

unfoldable pub tc_bulkout_step : Calls → BulkOutState → Host → Result (Tried BulkOutState)
tc_bulkout_step c bulk_out0 host = send_next c 37 bulk_out1 host
tc_bulkout_step c bulk_out1 host = send_next c 0 bulk_out2 host
tc_bulkout_step c bulk_out2 host = send_next c 1 bulk_out3 host
tc_bulkout_step c bulk_out3 host = send_next c 2 bulk_out4 host
tc_bulkout_step c bulk_out4 host = send_next c 3 bulk_out5 host
tc_bulkout_step c bulk_out5 host = send_next c 4 bulk_out6 host
tc_bulkout_step c bulk_out6 host = tried (pos 1) bulk_done (go_idle host)
tc_bulkout_step c bulk_done host = tried (pos 1) bulk_done host
