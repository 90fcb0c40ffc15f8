-- ===== src/Ulpi/Step/Recv.antt =====
-- `datax_recv_step` of vpi/usb/ulpi.c.
use misc_verilog_cores.Base.{
  ℕ, suc, zero, ◌+◌, bit_and, ◌&&◌, ◌==◌, ◌!=◌, not, if◌then◌else◌, ℤ, pos, negsuc, Result, ◌>>=◌,
  ◌>>◌, assert, store,
}
use misc_verilog_cores.Ulpi.{
  sig0, sig1, byte, Bus, Transfer, XferType, XferStage, up_data0, up_data1, no_xfer, datax_pid,
  datax_body, datax_stop, ulpitx_data0, ulpitx_data1, check_seq, Stepped, stepped,
}
use misc_verilog_cores.Ulpi.Step.Eop.{check_rx_crc16, drive_eop}

-- The `int` `rx_ptr - 2`.
abbrev pub less_two : ℕ → ℤ
less_two zero = negsuc 1
less_two (suc zero) = negsuc 0
less_two (suc (suc n)) = pos n

-- The link asserts STP: turn the bus around and check the CRC.
unfoldable pub end_of_data : Transfer → Bus → Result (Stepped Transfer)
end_of_data xfer out = do
  let turned : Bus = record out { nxt = sig0; dir = sig1; dat = byte 0x00 0xFF }
  let ended : Transfer = record xfer { stage = datax_stop; rx_len = less_two xfer.rx_ptr }
  (good, checked) ← check_rx_crc16 ended
  if good then stepped (pos 0) checked turned else stepped (negsuc 0) checked turned

-- One cycle of the stage `DATAxBody`, which `bulk_in_step` repeats after a parity error.
unfoldable pub recv_body : Transfer → Bus → Bus → Result (Stepped Transfer)
unfolding end_of_data
recv_body xfer inp out =
    if inp.stp == sig1
    then end_of_data xfer out
    else if inp.nxt == sig1
    then (store xfer.rx xfer.rx_ptr inp.dat.a >>= λ filled.
        stepped (pos 0) (record xfer { rx = filled; rx_ptr = xfer.rx_ptr + 1 }) out)
    else stepped (pos 0) xfer (record out { nxt = sig1 })

-- The inner switch; `out` is the copy of `*in`.
unfoldable pub datax_recv_at : XferStage → Transfer → Bus → Bus → Result (Stepped Transfer)
datax_recv_at no_xfer xfer inp out =
    if inp.dat.a != 0x00
    then stepped (pos 0) (record xfer { stage = datax_pid }) (record out { dir = sig0; nxt = sig1 })
    else stepped (pos 0) xfer (record out { dir = sig0 })
datax_recv_at datax_pid xfer inp out = do
  assert (inp.dir == sig0)
  assert (inp.nxt == sig1)
  assert (inp.dat.b == 0x00)
  let next : Transfer = record xfer { stage = datax_body; rx_ptr = 0 }
  let held : Bus = record out { nxt = sig0 }
  if inp.dat.a != ulpitx_data0 && inp.dat.a != ulpitx_data1
      then stepped (negsuc 1) next held
      else if not (check_seq next (bit_and inp.dat.a 0x0F))
      then stepped (negsuc 2) next held
      else stepped (pos 0) next held
datax_recv_at datax_body xfer inp out = do assert (inp.dir == sig0); recv_body xfer inp out
datax_recv_at _ xfer inp out = drive_eop xfer inp out

datax_recv_of : XferType → Transfer → Bus → Bus → Result (Stepped Transfer)
unfolding datax_recv_at
datax_recv_of up_data0 xfer inp out = datax_recv_at xfer.stage xfer inp out
datax_recv_of up_data1 xfer inp out = datax_recv_at xfer.stage xfer inp out
datax_recv_of _ xfer inp out = stepped (negsuc 0) xfer out

unfoldable pub datax_recv_step : Transfer → Bus → Bus → Result (Stepped Transfer)
unfolding datax_recv_of
datax_recv_step xfer inp out = datax_recv_of xfer.type xfer inp inp
