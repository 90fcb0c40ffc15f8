-- ===== src/Ulpi/Step/Send.antt =====
-- `datax_send_step` of vpi/usb/ulpi.c.
use misc_verilog_cores.Base.{
  ℕ, ◌+◌, bit_and, ◌||◌, ◌!=◌, not, ltb, if◌then◌else◌, pos, negsuc, Result, ◌>>=◌, load,
}
use misc_verilog_cores.Ulpi.{
  sig0, sig1, byte, Bus, Transfer, XferType, XferStage, dn_data0, dn_data1, no_xfer, assert_dir,
  init_rxcmd, datax_pid, datax_body, datax_crc1, datax_crc2, check_seq, Stepped, stepped,
}
use misc_verilog_cores.Ulpi.Step.Eop.{drive_eop}

abbrev zdp_crc16_byte1 : ℕ
zdp_crc16_byte1 = 0x00

-- `xfer->type == DnDATA0 ? 0xC3 : 0x4B`.
abbrev pub datax_pid_byte : XferType → ℕ
datax_pid_byte dn_data0 = 0xC3
datax_pid_byte _ = 0x4B

-- `out->data.a = xfer->tx[xfer->tx_ptr++]`, from either data stage.
send_byte : Transfer → Bus → Result (Stepped Transfer)
send_byte xfer out = do
  x ← load xfer.tx xfer.tx_ptr
  stepped (pos 0) (record xfer { tx_ptr = xfer.tx_ptr + 1; stage = datax_body })
      (record out { nxt = sig1; dat = byte x 0x00 })

-- The inner switch; `out` is the copy of `*in`.
unfoldable pub datax_send_at : XferStage → ℕ → Transfer → Bus → Bus → Result (Stepped Transfer)
unfolding send_byte
datax_send_at no_xfer pid xfer inp out =
    if inp.dat.a != 0x00 || inp.stp != sig0
    then stepped (negsuc 0) xfer out
    else stepped (pos 0) (record xfer { stage = assert_dir })
        (record out { dir = sig1; nxt = sig1; dat = byte 0x00 0xff })
datax_send_at assert_dir pid xfer inp out =
    stepped (pos 0) (record xfer { stage = init_rxcmd })
      (record out { nxt = sig0; dat = byte 0x5D 0x00 })
datax_send_at init_rxcmd pid xfer inp out =
    stepped (pos 0) (record xfer { stage = datax_pid })
      (record out { nxt = sig1; dat = byte pid 0x00 })
datax_send_at datax_pid pid xfer inp out =
    if ltb 0 xfer.tx_len
    then send_byte xfer out
    else stepped (pos 0) (record xfer { stage = datax_crc1 })
        (record out { nxt = sig1; dat = byte zdp_crc16_byte1 0x00 })
datax_send_at datax_body pid xfer inp out =
    if ltb xfer.tx_ptr xfer.tx_len
    then send_byte xfer out
    else stepped (pos 0) (record xfer { stage = datax_crc1 })
        (record out { nxt = sig1; dat = byte xfer.crc1 0x00 })
datax_send_at datax_crc1 pid xfer inp out =
    stepped (pos 0) (record xfer { stage = datax_crc2 })
      (record out { nxt = sig1; dat = byte xfer.crc2 0x00 })
datax_send_at _ pid xfer inp out = drive_eop xfer inp out

datax_send_of : XferType → Transfer → Bus → Bus → Result (Stepped Transfer)
unfolding datax_send_at
datax_send_of dn_data0 xfer inp out =
    datax_send_at xfer.stage (datax_pid_byte dn_data0) xfer inp out
datax_send_of dn_data1 xfer inp out =
    datax_send_at xfer.stage (datax_pid_byte dn_data1) xfer inp out
datax_send_of _ xfer inp out = stepped (negsuc 0) xfer out

unfoldable pub datax_send_step : Transfer → Bus → Bus → Result (Stepped Transfer)
unfolding datax_send_of
datax_send_step xfer inp out =
    if not (check_seq xfer (bit_and (datax_pid_byte xfer.type) 0x0f))
    then stepped (negsuc 0) xfer out
    else datax_send_of xfer.type xfer inp inp
