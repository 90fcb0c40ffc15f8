-- ===== src/Host/ControlLaws.antt =====
-- What the result codes mean for the control transfers of vpi/usb/stdreq.c.
use misc_verilog_cores.Base.{
  ℕ, zero, suc, ◌≡◌, refl, true, pos, negsuc, Result, ok, fault, ◌>>=◌, arith,
}
use misc_verilog_cores.Ulpi.{
  sig0, xfer_idle, no_xfer, line_idle, setup, out_token, in_token, dn_data0, dn_ack, up_ack, Bus,
  Transfer, Stepped, stepped,
}
use misc_verilog_cores.Ulpi.Step.Eop.{drive_eop}
use misc_verilog_cores.Ulpi.Step.Token.{token_send_step, token_at}
use misc_verilog_cores.Host.{Host}
use misc_verilog_cores.Host.Control.{
  stdreq_step, control_sub_step, control_result, begin_as, data_in, status_zdp,
}
use misc_verilog_cores.Host.Codes.{
  at_most_one, token_of_bound, send_of_bound, recv_of_bound, ack_recv_bound, ack_send_bound,
}

setup_data_bound :
    (x : Transfer) (inp out : Bus) → at_most_one (control_sub_step 1 x inp out) ≡ true
unfolding control_sub_step
setup_data_bound x inp out = ground (
  arith,
  send_of_bound x.type x inp out,
  send_of_bound dn_data0 (record x { stage = no_xfer }) inp out,
)

control_sub_step_bound :
    (n : ℕ) (x : Transfer) (inp out : Bus) → at_most_one (control_sub_step n x inp out) ≡ true
unfolding control_sub_step
control_sub_step_bound zero x inp out = ground (arith, token_of_bound x.type x inp out)
control_sub_step_bound (suc zero) x inp out = setup_data_bound x inp out
control_sub_step_bound (suc (suc zero)) x inp out =
    let y = begin_as up_ack x in ack_recv_bound y.type y inp out
control_sub_step_bound (suc (suc (suc zero))) x inp out =
    let y = begin_as in_token x in token_of_bound y.type y inp out
control_sub_step_bound (suc (suc (suc (suc zero)))) x inp out =
    let y = data_in x in recv_of_bound y.type y inp out
control_sub_step_bound (suc (suc (suc (suc (suc zero))))) x inp out =
    let y = begin_as dn_ack x in ack_send_bound y.type y inp out
control_sub_step_bound (suc (suc (suc (suc (suc (suc zero)))))) x inp out =
    let y = begin_as out_token x in token_of_bound y.type y inp out
control_sub_step_bound (suc (suc (suc (suc (suc (suc (suc zero))))))) x inp out =
    let y = status_zdp x in send_of_bound y.type y inp out
control_sub_step_bound (suc (suc (suc (suc (suc (suc (suc (suc zero)))))))) x inp out =
    let y = begin_as up_ack x in ack_recv_bound y.type y inp out
control_sub_step_bound (suc (suc (suc (suc (suc (suc (suc (suc (suc n))))))))) x inp out = refl

abbrev same_host : Host → Stepped Transfer → Result (Stepped Host)
same_host host s = stepped s.code (record host { xfer = s.state }) s.out

result_of :
    (host : Host) (r : Result (Stepped Transfer))
    → at_most_one r ≡ true
    → (r >>= λ s. control_result host s) ≡ (r >>= λ s. same_host host s)
unfolding control_result
result_of host (ok s) h = ground arith
result_of host (fault f) h = refl

-- A step of a control transfer changes nothing of the host but its transfer, in every state and on
-- every bus: it is the sub-step of the step number, and this number stays.
pub stdreq_step_lem :
    (host : Host) (inp out : Bus)
    → stdreq_step host inp out ≡ (
        control_sub_step host.step host.xfer inp out >>= λ s.
        stepped s.code (record host { xfer = s.state }) s.out)
unfolding stdreq_step
stdreq_step_lem host inp out =
    result_of host (control_sub_step host.step host.xfer inp out)
      (control_sub_step_bound host.step host.xfer inp out)

-- The cycle that ends the SETUP token returns 1, the code of a completed request; the step number is
-- still 0 then, and the next step fails with -1 on every bus.
setup_stops :
    (host : Host) (inp out : Bus)
    → host.step ≡ 0
    → host.xfer.type ≡ setup
    → host.xfer.stage ≡ line_idle
    → inp.dir ≡ sig0
    → inp.nxt ≡ sig0
    → inp.dat.a ≡ 0
    → (h : Host) × (o : Bus) × (h.step ≡ 0)
      × (stdreq_step host inp out ≡ stepped (pos 1) h o)
      × ((inp' out' : Bus) → stdreq_step h inp' out' ≡ stepped (negsuc 0) h out')
unfolding stdreq_step control_sub_step control_result token_send_step drive_eop token_at
setup_stops host inp out z t st d n a = (
  record host { xfer = record (host.xfer) { type = xfer_idle; stage = no_xfer } },
  inp,
  z,
  ground arith,
  λ inp' out'. ground arith,
)
