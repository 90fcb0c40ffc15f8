-- ===== src/Ulpi/Step/Token.antt =====
-- `token_send_step` of vpi/usb/ulpi.c.
use misc_verilog_cores.Base.{
  ◌&&◌, ◌==◌, ◌!=◌, ltb, if◌then◌else◌, pos, negsuc, Result, ◌>>◌, assert,
}
use misc_verilog_cores.Ulpi.{
  sig0, sig1, byte, set_a, Bus, Transfer, XferType, XferStage, setup, out_token, in_token, sof,
  no_xfer, assert_dir, init_rxcmd, token_pid, token1, token2, line_idle, stage_number,
  transfer_type_to_pid, Stepped, stepped,
}
use misc_verilog_cores.Ulpi.Step.Eop.{drive_eop}

-- The inner switch; `out` is the copy of `*in`.
unfoldable pub token_at : XferStage → Transfer → Bus → Bus → Result (Stepped Transfer)
token_at no_xfer xfer inp out =
    stepped (pos 0) (record xfer { stage = assert_dir })
      (record out { dir = sig1; nxt = sig1; dat = byte 0x00 0xFF })
token_at assert_dir xfer inp out =
    stepped (pos 0) (record xfer { stage = init_rxcmd })
      (record out { nxt = sig0; dat = byte 0x5D 0x00 })
token_at init_rxcmd xfer inp out =
    stepped (pos 0) (record xfer { stage = token_pid })
      (record out { dir = sig1; nxt = sig1; dat = set_a (transfer_type_to_pid xfer.type) out })
token_at token_pid xfer inp out =
    stepped (pos 0) (record xfer { stage = token1 })
      (record out { nxt = sig1; dat = byte xfer.tok1 0x00 })
token_at token1 xfer inp out = do
  assert (out.dir == sig1)
  assert (out.nxt == sig1)
  assert (out.dat.b == 0x00)
  stepped (pos 0) (record xfer { stage = token2 }) (record out { dat = set_a xfer.tok2 out })
token_at _ xfer inp out = drive_eop xfer inp out

token_of : XferType → Transfer → Bus → Bus → Result (Stepped Transfer)
unfolding token_at
token_of setup xfer inp out = token_at xfer.stage xfer inp inp
token_of out_token xfer inp out = token_at xfer.stage xfer inp inp
token_of in_token xfer inp out = token_at xfer.stage xfer inp inp
token_of sof xfer inp out = token_at xfer.stage xfer inp inp
token_of _ xfer inp out = stepped (negsuc 0) xfer out

unfoldable pub token_send_step : Transfer → Bus → Bus → Result (Stepped Transfer)
unfolding token_of
token_send_step xfer inp out =
    if ltb (stage_number no_xfer) (stage_number xfer.stage)
      && (ltb (stage_number xfer.stage) (stage_number line_idle) && inp.dir != sig1)
    then stepped (negsuc 0) xfer out
    else token_of xfer.type xfer inp out
