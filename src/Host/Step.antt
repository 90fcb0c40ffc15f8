-- ===== src/Host/Step.antt =====
-- `usbh_step` of vpi/usb/usbhost.c: one clock cycle of the host.
use misc_verilog_cores.Base.{
  ℕ, zero, suc, ◌+◌, ◌%◌, bit_and, shr, u16, u32, u64, ◌==◌, ◌!=◌, ltb, leb, if◌then◌else◌, ℤ, pos,
  negsuc, Result, ◌>>=◌,
}
use misc_verilog_cores.Crc.{crc5_calc}
use misc_verilog_cores.Ulpi.{sig0, Bus, sof, Stepped, stepped}
use misc_verilog_cores.Ulpi.Step.Token.{token_send_step}
use misc_verilog_cores.Host.{
  Host, HostOp, host_error, host_reset, host_idle, host_sof, host_setup, host_bulk_out,
  host_bulk_in, usbh_reset, guardian, reset_ticks, sof_n_ticks,
}
use misc_verilog_cores.Host.Bulk.{bulk_out_step, bulk_in_step}
use misc_verilog_cores.Host.Control.{stdreq_step}

-- A new frame, which only an idle host starts; the others go on.
unfoldable pub start_frame : HostOp → Host → Host
start_frame host_idle host =
    let crc = crc5_calc (shr host.sof_count 3) in
    record host {
      sof_count = u16 (host.sof_count + 1);
      op = host_sof;
      step = 0;
      xfer = record (host.xfer) {
        type = sof;
        tok1 = bit_and crc 0xFF;
        tok2 = bit_and (shr crc 8) 0xFF;
      };
    }
start_frame _ host = host

-- The reset and the frame timer, before the switch; `cycle` is the count before this step.
unfoldable pub before_step : ℕ → Host → Bus → Host
before_step cycle host inp =
    if inp.rst_n == sig0
    then (if host.prev.rst_n != sig0 then usbh_reset host else host)
    else if cycle % sof_n_ticks == 0
    then start_frame host.op host
    else host

abbrev pub reset_out : Bus → Bus
reset_out inp = if inp.rst_n == sig0 then record inp { dir = sig0; nxt = sig0 } else inp

-- `memcpy(&host->prev, in, …)` and the check of the guard word.
unfoldable pub after_step : Bus → Stepped Host → Result (Stepped Host)
after_step inp s =
    let kept : Host = record (s.state) { prev = inp } in
    stepped (if kept.guard != guardian then negsuc 0 else s.code) kept s.out

unfoldable pub reset_tick : Host → Host
reset_tick host =
    let step = u32 (host.step + 1) in
    if ltb step 2
    then record host { step = step }
    else if leb reset_ticks step
    then record host { op = host_idle; step = 0 }
    else record host { step = step }

-- `if (result == 1) host->op = HostIdle`.
unfoldable pub frame_op : ℤ → HostOp
frame_op (pos (suc zero)) = host_idle
frame_op _ = host_sof

unfoldable pub host_op_step : HostOp → ℕ → Host → Bus → Bus → Result (Stepped Host)
host_op_step host_error rand host inp out =
    after_step inp
      (record { code = negsuc 0; state = record host { step = u32 (host.step + 1) }; out = out })
host_op_step host_reset rand host inp out =
    after_step inp (record { code = pos 0; state = reset_tick host; out = out })
host_op_step host_sof rand host inp out = token_send_step host.xfer inp out >>= λ s.
    after_step inp (record {
      code = s.code;
      state = record host { xfer = s.state; op = frame_op s.code };
      out = s.out;
    })
host_op_step host_setup rand host inp out = stdreq_step host inp out
host_op_step host_bulk_out rand host inp out = bulk_out_step rand host inp out
host_op_step host_bulk_in rand host inp out = bulk_in_step rand host inp out
host_op_step _ rand host inp out =
    after_step inp
      (record { code = pos 0; state = record host { step = u32 (host.step + 1) }; out = out })

unfoldable pub usbh_step : ℕ → Host → Bus → Bus → Result (Stepped Host)
usbh_step rand host inp out =
    let ready = before_step host.cycle (record host { cycle = u64 (host.cycle + 1) }) inp in
    host_op_step ready.op rand ready inp (reset_out inp)
