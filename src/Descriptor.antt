-- ===== src/Descriptor.antt =====
-- `desc_recv` of vpi/usb/descriptor.c: a descriptor, received byte by byte.
pub mod Laws
use misc_verilog_cores.Base.{
  ℕ, ◌+◌, bit_and, Bool, ◌&&◌, ◌||◌, ◌==◌, ◌!=◌, not, ltb, if◌then◌else◌, ℤ, pos, negsuc, Result,
  ok, ◌>>=◌, store,
}
use misc_verilog_cores.Ulpi.{
  sig0, sig1, Bus, Transfer, XferStage, up_data0, datax_pid, datax_body, datax_crc1, datax_crc2,
  datax_stop, end_rxcmd, eop, type_number, check_pid, check_seq,
}
use misc_verilog_cores.Ulpi.Step.Recv.{less_two}

-- The stages `DATAxBody`, `DATAxCRC1` and `DATAxCRC2`.
unfoldable pub desc_body : Transfer → Bus → Result (ℤ × Transfer)
desc_body xfer inp = do
  let i = xfer.rx_ptr
  next ←
      (if inp.nxt == sig1
        then (store xfer.rx i inp.dat.a >>= λ filled.
            ok (record xfer { rx = filled; rx_ptr = i + 1 }))
        else ok xfer)
  if inp.stp == sig1
      then ok (pos 1, record next { stage = datax_stop; rx_len = less_two next.rx_ptr })
      else ok (pos 0, next)

-- The switch.
unfoldable pub desc_recv_at : XferStage → Transfer → Bus → Result (ℤ × Transfer)
desc_recv_at datax_pid xfer inp =
    if not (check_pid inp) || not (check_seq xfer (bit_and inp.dat.a 0x0F))
    then ok (negsuc 0, xfer)
    else ok (pos 0, record xfer { stage = datax_body; rx_ptr = 0 })
desc_recv_at datax_body xfer inp = desc_body xfer inp
desc_recv_at datax_crc1 xfer inp = desc_body xfer inp
desc_recv_at datax_crc2 xfer inp = desc_body xfer inp
desc_recv_at datax_stop xfer inp =
    if inp.nxt != sig0 then ok (negsuc 0, xfer) else ok (pos 1, record xfer { stage = end_rxcmd })
desc_recv_at end_rxcmd xfer inp = ok (pos 1, xfer)
desc_recv_at eop xfer inp = ok (pos 1, xfer)
desc_recv_at _ xfer inp = ok (negsuc 0, xfer)

unfoldable pub desc_recv : Transfer → Bus → Result (ℤ × Transfer)
desc_recv xfer inp =
    if ltb (type_number xfer.type) (type_number up_data0)
      || (inp.dir != sig0 || (ltb sig1 inp.nxt || ltb sig1 inp.stp))
    then ok (negsuc 0, xfer)
    else if inp.nxt != sig1
    then ok (pos 0, xfer)
    else desc_recv_at xfer.stage xfer inp
