-- ===== src/Phy/Command.antt =====
-- `uphy_txcmd_step` of vpi/usb/ulpiphy.c: the command byte of the link.
use misc_verilog_cores.Base.{
  ℕ, bit_and, ◌&&◌, ◌==◌, if◌then◌else◌, pos, negsuc, Result, ◌>>◌, assert,
}
use misc_verilog_cores.Ulpi.{sig0, sig1, byte, Bus, Stepped, stepped}
use misc_verilog_cores.Phy.{
  Phy, PhyOp, undefined, phy_send, phy_regw, phy_regr, phy_chirp_k, func_chirp_k, high_speed,
  uphy_txcmd_mask, uphy_xmit_bits, uphy_regw_bits, uphy_regr_bits, is_phy_idle,
}

-- `phy->state.op = o`.
abbrev pub at_op : PhyOp → Phy → Phy
at_op o phy = record phy { state = record (phy.state) { op = o } }

-- `phy->state.timer = t`.
abbrev pub timed : ℕ → Phy → Phy
timed t phy = record phy { state = record (phy.state) { timer = t } }

-- The PHY lets go of the bus.
abbrev pub released : Bus → Bus
released out = record out { dir = sig0; nxt = sig0; dat = byte 0x00 0xFF }

-- `phy->state.op = Undefined; return -1`.
abbrev pub failed : Phy → Bus → Result (Stepped Phy)
failed phy out = stepped (negsuc 0) (at_op undefined phy) out

-- Behind the switch.
unfoldable pub phy_done : Phy → Bus → Result (Stepped Phy)
phy_done phy out =
    stepped (if is_phy_idle phy.state.op && phy.state.speed == high_speed then pos 1 else pos 0)
      (record phy { bus = out }) out

abbrev register_command : PhyOp → Phy → Bus → Phy
register_command o phy inp = record phy {
  state = record (phy.state) { regnum = bit_and inp.dat.a 0x3F; op = o };
}

unfoldable pub uphy_txcmd_step : Phy → Bus → Bus → Result (Stepped Phy)
uphy_txcmd_step phy inp out = do
  let txcmd = bit_and inp.dat.a uphy_txcmd_mask
  let taken : Bus = record out { nxt = sig1 }
  assert (inp.dir == sig0 && inp.nxt == sig0)
  if txcmd == uphy_xmit_bits
      then (if bit_and inp.dat.a 0x3F == 0x00
          then stepped (pos 0)
              (record phy {
                state = record (phy.state) { op = phy_chirp_k; timer = 0; speed = func_chirp_k };
              })
              taken
          else stepped (pos 0) (at_op phy_send phy) taken)
      else if txcmd == uphy_regr_bits
      then stepped (pos 0) (register_command phy_regr phy inp) taken
      else if txcmd == uphy_regw_bits
      then stepped (pos 0) (register_command phy_regw phy inp) taken
      else stepped (negsuc 0) phy out
