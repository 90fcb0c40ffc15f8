-- ===== src/Cases/Control.antt =====
-- The control transfers of vpi/tc_getdesc.c, vpi/tc_setaddr.c and vpi/tc_setconf.c, one call of
-- `step` for each packet that has been sent or received.
use misc_verilog_cores.Base.{
  ℕ, bit_and, ◌==◌, if◌then◌else◌, ℤ, pos, negsuc, is_negative, Option, some, none, Result,
}
use misc_verilog_cores.Ulpi.{sig0, sig1}
use misc_verilog_cores.Host.{Host, host_idle}
use misc_verilog_cores.Host.Request.{stdreq_get_descriptor, stdreq_set_address, stdreq_set_config}
use misc_verilog_cores.Cases.{
  Calls, Tried, tried, Stage, send_setup, send_data0, recv_ack0, send_in, recv_data1, send_ack,
  send_out, send_zdp, recv_ack1, stage_done, next_step, set_seq0, clear_data,
}

-- The value of a stage in its enumeration.
unfoldable pub stage_index : Stage → ℕ
stage_index send_setup = 0
stage_index send_data0 = 1
stage_index recv_ack0 = 2
stage_index send_in = 3
stage_index recv_data1 = 4
stage_index send_ack = 5
stage_index send_out = 6
stage_index send_zdp = 7
stage_index recv_ack1 = 8
stage_index stage_done = 9

-- `if (result < 0) return -1; return 0;` of the `init` routines.
abbrev pub init_code : {T : Type 0} → T → ℤ × Host → Result (Tried T)
init_code t r = if is_negative r.0 then tried (negsuc 0) t r.1 else tried (pos 0) t r.1

unfoldable pub tc_getdesc_init : Calls → Stage → Host → Result (Tried Stage)
tc_getdesc_init c st host = init_code send_setup (stdreq_get_descriptor c.memory host 0x0301)

unfoldable pub tc_getdesc_step : Stage → Host → Result (Tried Stage)
tc_getdesc_step send_setup host = tried (pos 0) send_data0 (next_step host)
tc_getdesc_step send_data0 host = tried (pos 0) recv_ack0 (next_step host)
tc_getdesc_step recv_ack0 host = tried (pos 0) send_in (set_seq0 sig1 (next_step host))
tc_getdesc_step send_in host = tried (pos 0) recv_data1 (next_step host)
tc_getdesc_step recv_data1 host = tried (pos 0) send_ack (next_step host)
tc_getdesc_step send_ack host = tried (pos 0) send_out (next_step host)
tc_getdesc_step send_out host = tried (pos 0) send_zdp (clear_data (next_step host))
tc_getdesc_step send_zdp host = tried (pos 0) recv_ack1 (next_step host)
tc_getdesc_step recv_ack1 host =
    tried (pos 1) stage_done (record (next_step host) { op = host_idle })
tc_getdesc_step stage_done host = tried (pos 1) stage_done host

-- The stages of a transfer without data.
pub data ShortStage : Type 0 where
  short_setup short_data0 short_ack0 short_in short_data1 short_ack short_done : ShortStage

unfoldable pub short_index : ShortStage → ℕ
short_index short_setup = 0
short_index short_data0 = 1
short_index short_ack0 = 2
short_index short_in = 3
short_index short_data1 = 4
short_index short_ack = 5
short_index short_done = 6

-- `setaddr_state_t`; `value` is the address, or the configuration of `setconf_t`.
pub record ShortState : Type 0 where
  pub stage : ShortStage
  pub value : ℕ

unfoldable pub tc_setaddr_init : ShortState → Host → Result (Tried ShortState)
tc_setaddr_init st host =
    init_code (record st { stage = short_setup }) (stdreq_set_address host st.value)

abbrev pub at_stage : ℤ → ShortState → ShortStage → Host → Result (Tried ShortState)
at_stage c st s host = tried c (record st { stage = s }) host

-- `host->addr = st->addr; host->xfer.address = st->addr`.
abbrev pub new_address : ℕ → Host → Host
new_address a host = record host { addr = a; xfer = record (host.xfer) { address = a } }

abbrev setaddr_at : ShortStage → ShortState → Host → Result (Tried ShortState)
setaddr_at short_setup st host = at_stage (pos 0) st short_data0 (next_step (set_seq0 sig0 host))
setaddr_at short_data0 st host = at_stage (pos 0) st short_ack0 (next_step host)
setaddr_at short_ack0 st host = at_stage (pos 0) st short_in (next_step (new_address st.value host))
setaddr_at short_in st host = at_stage (pos 0) st short_data1 (next_step (set_seq0 sig1 host))
setaddr_at short_data1 st host = at_stage (pos 0) st short_ack (next_step host)
setaddr_at short_ack st host =
    at_stage (pos 1) st short_done (record (next_step host) { op = host_idle })
setaddr_at short_done st host = tried (pos 1) st host

unfoldable pub tc_setaddr_step : ShortState → Host → Result (Tried ShortState)
tc_setaddr_step st host = setaddr_at st.stage st host

-- `none` is `NULL`.
unfoldable pub test_setaddr : ℕ → Option ShortState
test_setaddr a =
    if bit_and a 0x7F == a then some (record { stage = short_setup; value = a }) else none

unfoldable pub tc_setconf_init : ShortState → Host → Result (Tried ShortState)
tc_setconf_init st host =
    init_code (record st { stage = short_setup }) (stdreq_set_config host st.value)

abbrev setconf_at : ShortStage → ShortState → Host → Result (Tried ShortState)
setconf_at short_setup st host = at_stage (pos 0) st short_data0 (next_step (set_seq0 sig0 host))
setconf_at short_data0 st host = at_stage (pos 0) st short_ack0 (next_step host)
setconf_at short_ack0 st host = at_stage (pos 0) st short_in (next_step host)
setconf_at short_in st host = at_stage (pos 0) st short_data1 (next_step (set_seq0 sig1 host))
setconf_at short_data1 st host = at_stage (pos 0) st short_ack (next_step host)
setconf_at short_ack st host =
    at_stage (pos 1) st short_done (record (next_step host) { op = host_idle })
setconf_at short_done st host = tried (pos 1) st host

unfoldable pub tc_setconf_step : ShortState → Host → Result (Tried ShortState)
tc_setconf_step st host = setconf_at st.stage st host

unfoldable pub test_setconf : ℕ → Option ShortState
test_setconf conf =
    if conf == 0x01 then some (record { stage = short_setup; value = conf }) else none
