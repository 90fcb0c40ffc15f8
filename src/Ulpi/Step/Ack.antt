-- ===== src/Ulpi/Step/Ack.antt =====
-- `ack_recv_step` and `ack_send_step` of vpi/usb/ulpi.c. Neither copies `*in` to `*out`.
use misc_verilog_cores.Base.{◌==◌, if◌then◌else◌, pos, negsuc, Result, ◌>>=◌, ◌>>◌, assert}
use misc_verilog_cores.Ulpi.{
  sig0, sig1, byte, set_a, Bus, Transfer, XferType, XferStage, up_ack, dn_ack, no_xfer, assert_dir,
  init_rxcmd, hsk_pid, hsk_stop, ulpitx_ack, ulpi_bus_is_idle, transfer_ack, transfer_type_to_pid,
  Stepped, stepped,
}
use misc_verilog_cores.Ulpi.Step.Eop.{drive_eop}

unfoldable pub ack_recv_at : XferStage → Transfer → Bus → Bus → Result (Stepped Transfer)
ack_recv_at no_xfer xfer inp out =
    if ulpi_bus_is_idle inp
    then stepped (pos 0) xfer out
    else if inp.dat.a == ulpitx_ack
    then (transfer_ack (record xfer { stage = hsk_pid }) >>= λ acked.
        stepped (pos 0) acked (record out { nxt = sig1 }))
    else stepped (negsuc 0) xfer out
ack_recv_at hsk_pid xfer inp out = do
  assert (inp.dir == sig0)
  assert (inp.dat.b == 0x00)
  let held : Bus = record out { nxt = sig0 }
  if inp.stp == sig1
      then stepped (pos 0) (record xfer { stage = hsk_stop }) held
      else stepped (pos 0) xfer held
ack_recv_at hsk_stop xfer inp out = do
  assert (inp.dir == sig0)
  assert (inp.nxt == sig0)
  assert (inp.stp == sig0)
  stepped (pos 1) (record xfer { stage = no_xfer }) out
ack_recv_at _ xfer inp out = stepped (negsuc 0) xfer out

ack_recv_of : XferType → Transfer → Bus → Bus → Result (Stepped Transfer)
unfolding ack_recv_at
ack_recv_of up_ack xfer inp out = ack_recv_at xfer.stage xfer inp out
ack_recv_of _ xfer inp out = stepped (negsuc 0) xfer out

unfoldable pub ack_recv_step : Transfer → Bus → Bus → Result (Stepped Transfer)
unfolding ack_recv_of
ack_recv_step xfer inp out = ack_recv_of xfer.type xfer inp out

unfoldable pub ack_send_at : XferStage → Transfer → Bus → Bus → Result (Stepped Transfer)
ack_send_at no_xfer xfer inp out =
    if ulpi_bus_is_idle inp
    then stepped (pos 0) (record xfer { stage = assert_dir })
        (record out { dir = sig1; nxt = sig1; dat = byte 0x00 0xFF })
    else stepped (negsuc 0) xfer out
ack_send_at assert_dir xfer inp out = do
  assert (inp.dir == sig1)
  assert (inp.nxt == sig1)
  assert (inp.stp == sig0)
  stepped (pos 0) (record xfer { stage = init_rxcmd })
      (record out { nxt = sig0; dat = byte 0x5D 0x00 })
ack_send_at init_rxcmd xfer inp out = do
  assert (inp.dir == sig1)
  assert (inp.nxt == sig0)
  assert (inp.stp == sig0)
  assert (inp.dat.b == 0x00)
  stepped (pos 0) (record xfer { stage = hsk_pid })
      (record out { nxt = sig1; dat = set_a (transfer_type_to_pid xfer.type) out })
ack_send_at _ xfer inp out = drive_eop xfer inp out

ack_send_of : XferType → Transfer → Bus → Bus → Result (Stepped Transfer)
unfolding ack_send_at
ack_send_of dn_ack xfer inp out = ack_send_at xfer.stage xfer inp out
ack_send_of _ xfer inp out = stepped (negsuc 0) xfer out

unfoldable pub ack_send_step : Transfer → Bus → Bus → Result (Stepped Transfer)
unfolding ack_send_of
ack_send_step xfer inp out = ack_send_of xfer.type xfer inp out
