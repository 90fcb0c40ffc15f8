-- ===== src/Ulpi/Step/Eop.antt =====
-- `check_rx_crc16` and `drive_eop` of vpi/usb/ulpi.c.
use misc_verilog_cores.Base.{
  ℕ, suc, ◌+◌, bit_and, shr, Bool, false, ◌&&◌, ◌==◌, if◌then◌else◌, ℤ, pos, negsuc, Result, ok,
  ◌>>=◌, ◌>>◌, assert, load, load_first,
}
use misc_verilog_cores.Crc.{crc16_calc}
use misc_verilog_cores.Ulpi.{
  sig0, sig1, byte, set_a, Bus, Transfer, XferStage, no_xfer, token2, hsk_pid, datax_crc2,
  datax_stop, end_rxcmd, eop, line_idle, xfer_idle, Stepped, stepped,
}

-- The CRC of the received data, and whether the two bytes behind it are that CRC.
-- `&&` reads the second byte only if the first is right.
unfoldable pub check_rx_trailer : ℕ → Transfer → Result (Bool × Transfer)
check_rx_trailer len xfer = do
  body ← load_first len xfer.rx
  whole ← load_first xfer.rx_ptr xfer.rx
  let crc = crc16_calc body
  let cod = crc16_calc whole
  let c1 = bit_and crc 0xFF
  let c2 = bit_and (shr crc 8) 0xFF
  let kept : Transfer = record xfer { crc1 = c1; crc2 = c2 }
  x ← load xfer.rx len
  if c1 == x
      then (load xfer.rx (len + 1) >>= λ y. ok (c2 == y && cod == 0x4FFE, kept))
      else ok (false, kept)

unfoldable pub check_rx_zdp : Transfer → Result (Bool × Transfer)
check_rx_zdp xfer = do
  x ← load xfer.rx 0
  if x == 0x00 then (load xfer.rx 1 >>= λ y. ok (y == 0x00, xfer)) else ok (false, xfer)

unfoldable pub check_rx_by : ℤ → Transfer → Result (Bool × Transfer)
unfolding check_rx_zdp
check_rx_by (pos (suc n)) xfer = check_rx_trailer (suc n) xfer
check_rx_by _ xfer = check_rx_zdp xfer

unfoldable pub check_rx_crc16 : Transfer → Result (Bool × Transfer)
unfolding check_rx_by
check_rx_crc16 xfer = check_rx_by xfer.rx_len xfer

-- Token2, DATAxCRC2 and HskPID: the last byte was taken, and an RX CMD ends the packet.
end_packet : Transfer → Bus → Bus → Result (Stepped Transfer)
end_packet xfer inp out = do
  assert (inp.dir == sig1)
  assert (inp.nxt == sig1)
  assert (inp.dat.b == 0x00)
  stepped (pos 0) (record xfer { stage = end_rxcmd })
      (record out { nxt = sig0; dat = set_a 0x4C out })

drive_eop_at : XferStage → Transfer → Bus → Bus → Result (Stepped Transfer)
unfolding end_packet
drive_eop_at no_xfer xfer inp out = stepped (pos 1) xfer out
drive_eop_at token2 xfer inp out = end_packet xfer inp out
drive_eop_at datax_crc2 xfer inp out = end_packet xfer inp out
drive_eop_at hsk_pid xfer inp out = end_packet xfer inp out
drive_eop_at datax_stop xfer inp out = do
  assert (inp.nxt == sig0)
  stepped (pos 0) (record xfer { stage = end_rxcmd }) (record out { dat = byte 0x4C 0x00 })
drive_eop_at end_rxcmd xfer inp out = do
  assert (out.dir == sig1)
  assert (out.nxt == sig0)
  assert (out.dat.b == 0x00)
  stepped (pos 0) (record xfer { stage = eop }) (record out { dat = set_a 0x4D out })
drive_eop_at eop xfer inp out = do
  assert (out.dir == sig1)
  assert (out.nxt == sig0)
  assert (out.dat.b == 0x00)
  stepped (pos 0) (record xfer { stage = line_idle })
      (record out { dir = sig0; dat = byte 0x00 0xFF })
drive_eop_at line_idle xfer inp out = do
  assert (inp.dir == sig0)
  assert (inp.nxt == sig0)
  assert (inp.dat.a == 0x00)
  stepped (pos 1) (record xfer { type = xfer_idle; stage = no_xfer }) out
drive_eop_at _ xfer inp out = stepped (negsuc 0) xfer out

unfoldable pub drive_eop : Transfer → Bus → Bus → Result (Stepped Transfer)
unfolding drive_eop_at
drive_eop xfer inp out = drive_eop_at xfer.stage xfer inp out
