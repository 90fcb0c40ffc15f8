-- ===== src/Host/Codes.antt =====
-- The result codes of the step functions of vpi/usb/ulpi.c: 1 at most.
use misc_verilog_cores.Base.{ℕ, ◌≡◌, refl, Bool, true, not, Result, ok, fault, arith}
use misc_verilog_cores.Ulpi.{
  no_xfer, token2, hsk_pid, datax_crc2, datax_stop, end_rxcmd, eop, line_idle, assert_dir,
  init_rxcmd, token_pid, token1, hsk_stop, datax_pid, datax_body, datax_crc1, setup, out_token,
  in_token, sof, dn_data0, dn_data1, dn_ack, up_ack, up_data0, up_data1, Bus, Transfer, XferType,
  XferStage, Stepped,
}
use misc_verilog_cores.Ulpi.Step.Eop.{drive_eop}
use misc_verilog_cores.Ulpi.Step.Token.{token_send_step, token_at}
use misc_verilog_cores.Ulpi.Step.Send.{datax_send_step, datax_send_at, datax_pid_byte}
use misc_verilog_cores.Ulpi.Step.Recv.{datax_recv_step, datax_recv_at, recv_body, end_of_data}
use misc_verilog_cores.Ulpi.Step.Ack.{ack_recv_step, ack_send_step, ack_recv_at, ack_send_at}
use misc_verilog_cores.Host.Control.{above_one}

-- A fault, or a result of 1 at most.
abbrev pub at_most_one : {S : Type 0} → Result (Stepped S) → Bool
at_most_one (ok s) = not (above_one s.code)
at_most_one (fault f) = true

drive_eop_of :
    (st : XferStage) (x : Transfer) (inp out : Bus)
    → at_most_one (drive_eop (record x { stage = st }) inp out) ≡ true
unfolding drive_eop
drive_eop_of no_xfer x inp out = ground arith
drive_eop_of token2 x inp out = ground arith
drive_eop_of hsk_pid x inp out = ground arith
drive_eop_of datax_crc2 x inp out = ground arith
drive_eop_of datax_stop x inp out = ground arith
drive_eop_of end_rxcmd x inp out = ground arith
drive_eop_of eop x inp out = ground arith
drive_eop_of line_idle x inp out = ground arith
drive_eop_of _ x inp out = refl

drive_eop_bound : (x : Transfer) (inp out : Bus) → at_most_one (drive_eop x inp out) ≡ true
drive_eop_bound x inp out = drive_eop_of x.stage x inp out

token_at_bound :
    (st : XferStage) (x : Transfer) (inp out : Bus) → at_most_one (token_at st x inp out) ≡ true
unfolding token_at
token_at_bound no_xfer x inp out = ground arith
token_at_bound assert_dir x inp out = ground arith
token_at_bound init_rxcmd x inp out = ground arith
token_at_bound token_pid x inp out = ground arith
token_at_bound token1 x inp out = ground arith
token_at_bound _ x inp out = drive_eop_bound x inp out

pub token_of_bound :
    (t : XferType) (x : Transfer) (inp out : Bus)
    → at_most_one (token_send_step (record x { type = t }) inp out) ≡ true
unfolding token_send_step
token_of_bound setup x inp out =
    ground (arith, token_at_bound x.stage (record x { type = setup }) inp inp)
token_of_bound out_token x inp out =
    ground (arith, token_at_bound x.stage (record x { type = out_token }) inp inp)
token_of_bound in_token x inp out =
    ground (arith, token_at_bound x.stage (record x { type = in_token }) inp inp)
token_of_bound sof x inp out =
    ground (arith, token_at_bound x.stage (record x { type = sof }) inp inp)
token_of_bound _ x inp out = ground arith

send_at_bound :
    (st : XferStage) (pid : ℕ) (x : Transfer) (inp out : Bus)
    → at_most_one (datax_send_at st pid x inp out) ≡ true
unfolding datax_send_at
send_at_bound no_xfer pid x inp out = ground arith
send_at_bound assert_dir pid x inp out = ground arith
send_at_bound init_rxcmd pid x inp out = ground arith
send_at_bound datax_pid pid x inp out = ground arith
send_at_bound datax_body pid x inp out = ground arith
send_at_bound datax_crc1 pid x inp out = ground arith
send_at_bound _ pid x inp out = drive_eop_bound x inp out

pub send_of_bound :
    (t : XferType) (x : Transfer) (inp out : Bus)
    → at_most_one (datax_send_step (record x { type = t }) inp out) ≡ true
unfolding datax_send_step
send_of_bound dn_data0 x inp out =
    ground (
      arith,
      send_at_bound x.stage (datax_pid_byte dn_data0) (record x { type = dn_data0 }) inp inp,
    )
send_of_bound dn_data1 x inp out =
    ground (
      arith,
      send_at_bound x.stage (datax_pid_byte dn_data1) (record x { type = dn_data1 }) inp inp,
    )
send_of_bound _ x inp out = ground arith

end_of_data_bound : (x : Transfer) (out : Bus) → at_most_one (end_of_data x out) ≡ true
unfolding end_of_data
end_of_data_bound x out = ground arith

recv_body_bound : (x : Transfer) (inp out : Bus) → at_most_one (recv_body x inp out) ≡ true
unfolding recv_body
recv_body_bound x inp out = ground (arith, end_of_data_bound x out)

recv_at_bound :
    (st : XferStage) (x : Transfer) (inp out : Bus)
    → at_most_one (datax_recv_at st x inp out) ≡ true
unfolding datax_recv_at
recv_at_bound no_xfer x inp out = ground arith
recv_at_bound datax_pid x inp out = ground arith
recv_at_bound datax_body x inp out = ground (arith, recv_body_bound x inp out)
recv_at_bound _ x inp out = drive_eop_bound x inp out

pub recv_of_bound :
    (t : XferType) (x : Transfer) (inp out : Bus)
    → at_most_one (datax_recv_step (record x { type = t }) inp out) ≡ true
unfolding datax_recv_step
recv_of_bound up_data0 x inp out = recv_at_bound x.stage (record x { type = up_data0 }) inp inp
recv_of_bound up_data1 x inp out = recv_at_bound x.stage (record x { type = up_data1 }) inp inp
recv_of_bound _ x inp out = refl

ack_recv_at_bound :
    (st : XferStage) (x : Transfer) (inp out : Bus) → at_most_one (ack_recv_at st x inp out) ≡ true
unfolding ack_recv_at
ack_recv_at_bound no_xfer x inp out = ground arith
ack_recv_at_bound hsk_pid x inp out = ground arith
ack_recv_at_bound hsk_stop x inp out = ground arith
ack_recv_at_bound _ x inp out = refl

pub ack_recv_bound :
    (t : XferType) (x : Transfer) (inp out : Bus)
    → at_most_one (ack_recv_step (record x { type = t }) inp out) ≡ true
unfolding ack_recv_step
ack_recv_bound up_ack x inp out = ack_recv_at_bound x.stage (record x { type = up_ack }) inp out
ack_recv_bound _ x inp out = refl

ack_send_at_bound :
    (st : XferStage) (x : Transfer) (inp out : Bus) → at_most_one (ack_send_at st x inp out) ≡ true
unfolding ack_send_at
ack_send_at_bound no_xfer x inp out = ground arith
ack_send_at_bound assert_dir x inp out = ground arith
ack_send_at_bound init_rxcmd x inp out = ground arith
ack_send_at_bound _ x inp out = drive_eop_bound x inp out

pub ack_send_bound :
    (t : XferType) (x : Transfer) (inp out : Bus)
    → at_most_one (ack_send_step (record x { type = t }) inp out) ≡ true
unfolding ack_send_step
ack_send_bound dn_ack x inp out = ack_send_at_bound x.stage (record x { type = dn_ack }) inp out
ack_send_bound _ x inp out = refl
