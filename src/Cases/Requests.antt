-- ===== src/Cases/Requests.antt =====
-- vpi/tc_getconf.c and vpi/tc_getstrs.c: several requests for descriptors, one behind the other.
use misc_verilog_cores.Base.{
  ℕ, zero, suc, ◌+◌, u8, ltb, if◌then◌else◌, ℤ, pos, is_negative, Option, none, some, List, Result,
  fault, uninitialised, ◌>>=◌,
}
use misc_verilog_cores.Ulpi.{sig1}
use misc_verilog_cores.Host.{Host, host_idle}
use misc_verilog_cores.Host.Request.{
  stdreq_get_descriptor, stdreq_get_status, stdreq_get_desc_device, stdreq_get_desc_config,
}
use misc_verilog_cores.Cases.{
  Calls, Tried, tried, Stage, send_setup, send_data0, recv_ack0, send_in, recv_data1, send_ack,
  send_out, send_zdp, recv_ack1, stage_done, next_step, set_seq0, clear_data,
}

-- `getconf_state_t` and `getstrs_state_t`; `buf` is the memory behind the pointer, `none` for `NULL`.
pub record GetState : Type 0 where
  pub buf : Option (List ℕ)
  pub len : ℕ
  pub step : Stage
  pub stage : ℕ

-- `memory` is what `malloc(512)` returns.
unfoldable pub test_getconf : List ℕ → GetState
test_getconf memory = record { buf = some memory; len = 0; step = send_setup; stage = 0 }

abbrev pub restart : GetState → GetState
restart st = record st { buf = none; len = 0; step = send_setup }

-- `if (result < 0) return result; return 0;`.
abbrev pub request_code : GetState → ℤ × Host → Result (Tried GetState)
request_code st r = if is_negative r.0 then tried r.0 st r.1 else tried (pos 0) st r.1

-- The switch of `tc_getconf_init` on the stage, which leaves `result` unset from 4 on.
unfoldable pub getconf_request : ℕ → GetState → Host → Result (Tried GetState)
getconf_request zero st host = request_code st (stdreq_get_desc_device host)
getconf_request (suc zero) st host = request_code st (stdreq_get_desc_config host 9)
getconf_request (suc (suc zero)) st host = request_code st (stdreq_get_desc_config host 39)
getconf_request (suc (suc (suc zero))) st host = tried (pos 1) st host
getconf_request (suc (suc (suc (suc n)))) st host = fault uninitialised

unfoldable pub tc_getconf_init : GetState → Host → Result (Tried GetState)
tc_getconf_init st host = getconf_request st.stage (restart st) host

abbrev pub to_step : GetState → Stage → Host → Result (Tried GetState)
to_step st s host = tried (pos 0) (record st { step = s }) host

-- The calls for the packets but the last are those of `tc_getconf_step` and of `tc_getstrs_step`.
unfoldable pub packet_done : Stage → GetState → Host → Result (Tried GetState)
packet_done send_setup st host = to_step st send_data0 (next_step host)
packet_done send_data0 st host = to_step st recv_ack0 (next_step host)
packet_done recv_ack0 st host = to_step st send_in (set_seq0 sig1 (next_step host))
packet_done send_in st host = to_step st recv_data1 (next_step host)
packet_done recv_data1 st host = to_step st send_ack (next_step host)
packet_done send_ack st host = to_step st send_out (next_step host)
packet_done send_out st host = to_step st send_zdp (clear_data (next_step host))
packet_done send_zdp st host = to_step st recv_ack1 (next_step host)
packet_done _ st host = tried (pos 1) st host

-- The last packet: the next request, the result of which is not looked at, or the end.
abbrev pub next_request :
    (GetState → Host → Result (Tried GetState)) → ℕ → GetState → Host → Result (Tried GetState)
next_request init count st host =
    let counted : GetState = record st { stage = u8 (st.stage + 1) } in
    let idle : Host = record (next_step host) { op = host_idle } in
    if ltb counted.stage count
    then (init counted idle >>= λ t. tried (pos 0) t.test t.host)
    else tried (pos 1) (record counted { step = stage_done }) idle

abbrev getconf_at : Stage → GetState → Host → Result (Tried GetState)
getconf_at recv_ack1 st host = next_request tc_getconf_init 3 st host
getconf_at s st host = packet_done s st host

unfoldable pub tc_getconf_step : GetState → Host → Result (Tried GetState)
tc_getconf_step st host = getconf_at st.step st host

unfoldable pub test_getstrs : List ℕ → GetState
test_getstrs memory = record { buf = some memory; len = 0; step = send_setup; stage = 0 }

unfoldable pub getstrs_request : List ℕ → ℕ → GetState → Host → Result (Tried GetState)
getstrs_request m zero st host = request_code st (stdreq_get_descriptor m host 0x0300)
getstrs_request m (suc zero) st host = request_code st (stdreq_get_descriptor m host 0x0301)
getstrs_request m (suc (suc zero)) st host = request_code st (stdreq_get_descriptor m host 0x0302)
getstrs_request m (suc (suc (suc zero))) st host =
    request_code st (stdreq_get_descriptor m host 0x0303)
getstrs_request m (suc (suc (suc (suc zero)))) st host = request_code st (stdreq_get_status host)
getstrs_request m (suc (suc (suc (suc (suc zero))))) st host = tried (pos 1) st host
getstrs_request m (suc (suc (suc (suc (suc (suc n)))))) st host = fault uninitialised

unfoldable pub tc_getstrs_init : Calls → GetState → Host → Result (Tried GetState)
tc_getstrs_init c st host = getstrs_request c.memory st.stage (restart st) host

abbrev getstrs_at : Calls → Stage → GetState → Host → Result (Tried GetState)
getstrs_at c recv_ack1 st host = next_request (tc_getstrs_init c) 5 st host
getstrs_at c s st host = packet_done s st host

unfoldable pub tc_getstrs_step : Calls → GetState → Host → Result (Tried GetState)
tc_getstrs_step c st host = getstrs_at c st.step st host
