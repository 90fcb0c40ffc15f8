-- ===== src/Phy/Step.antt =====
-- `uphy_step` of vpi/usb/ulpiphy.c.
use misc_verilog_cores.Base.{
  ℕ, ◌+◌, bit_and, bit_or, u8, u32, Bool, ◌&&◌, ◌||◌, ◌==◌, ◌!=◌, not, ltb, leb, if◌then◌else◌,
  negsuc, Result, ◌>>=◌, ◌>>◌, assert, load, store,
}
use misc_verilog_cores.Ulpi.{sig0, sig1, byte, Bus, ulpi_bus_is_idle, Stepped, stepped}
use misc_verilog_cores.Phy.{
  Phy, PhyOp, power_on, ref_clk_valid, starting, wait_for_idle, status_rxcmd, phy_idle, phy_recv,
  phy_send, phy_regw, phy_regi, phy_stop, phy_regr, phy_regz, phy_rego, phy_chirp_k, full_speed,
  host_se0, func_chirp_k, host_chirp_k1, host_chirp_j1, host_chirp_k2, host_chirp_j2, host_chirp_k3,
  host_chirp_j3, high_speed, uphy_reg_fn_ctrl, uphy_delay_2_5_us, uphy_chirpk_timer,
  host_chirpk_timer, ulpi_phy_is_chirp, uphy_reset,
}
use misc_verilog_cores.Phy.Command.{at_op, timed, released, failed, phy_done, uphy_txcmd_step}

-- The line state of a chirp: K, J, or what is left when the two bits are cleared.
abbrev is_chirp_k : ℕ → Bool
is_chirp_k s = s == host_chirp_k1 || (s == host_chirp_k2 || s == host_chirp_k3)

abbrev is_chirp_j : ℕ → Bool
is_chirp_j s = s == host_chirp_j1 || (s == host_chirp_j2 || s == host_chirp_j3)

abbrev with_line : ℕ → Phy → Phy
with_line line phy = record phy {
  state = record (phy.state) { rx_cmd = bit_or (bit_and phy.state.rx_cmd 0xFC) line };
}

-- `StatusRXCMD`: the RX CMD that is sent.
abbrev send_status : Phy → Bus → Result (Stepped Phy)
send_status phy out =
    phy_done (record phy { state = record (phy.state) { update = 0; op = wait_for_idle } })
      (record out { dat = byte phy.state.rx_cmd 0x00 })

status_step : Phy → Bus → Result (Stepped Phy)
status_step phy out = do
  let out1 : Bus = record out { dir = sig1; nxt = sig0 }
  let s = phy.state.speed
  chirp ← ulpi_phy_is_chirp phy
  if not chirp
      then send_status phy out1
      else if s == full_speed
      then send_status
          (with_line 0 (record phy { state = record (phy.state) { speed = host_se0; timer = 0 } }))
          out1
      else if s == host_se0
      then send_status (with_line 0 phy) out1
      else if s == func_chirp_k
      then send_status (with_line 0x01 phy) out1
      else if is_chirp_k s
      then send_status (with_line 0x01 (timed 0 phy)) out1
      else if is_chirp_j s
      then send_status (with_line 0x02 (timed 0 phy)) out1
      else if s == high_speed
      then send_status (with_line 0 (timed 0 phy)) out1
      else stepped (negsuc 0) (with_line 0 phy) out1

idle_step : Phy → Bus → Bus → Result (Stepped Phy)
idle_step phy inp out =
    if not (ulpi_bus_is_idle phy.bus)
    then phy_done phy out
    else if inp.dat.b == 0x00 && inp.dat.a != 0x00
    then uphy_txcmd_step phy inp out
    else if not (ulpi_bus_is_idle inp)
    then stepped (negsuc 0) phy out
    else if phy.state.update != 0
    then phy_done (at_op status_rxcmd phy) (record out { dir = sig1; dat = byte out.dat.a 0xFF })
    else if ltb func_chirp_k phy.state.speed && ltb phy.state.speed high_speed
    then (let t = u32 (phy.state.timer + 1) in
        if leb host_chirpk_timer t
        then phy_done
            (record phy {
              state = record (phy.state) {
                timer = t;
                update = 1;
                speed = u8 (phy.state.speed + 1);
              };
            })
            out
        else phy_done (timed t phy) out)
    else phy_done phy out

starting_step : Phy → Bus → Bus → Result (Stepped Phy)
starting_step phy inp out =
    if inp.clock != sig1
    then phy_done phy out
    else if inp.rst_n != sig1
    then phy_done (at_op power_on phy) out
    else if inp.dat.a == 0x00 && inp.dat.b == 0x00
    then (let t = u32 (phy.state.timer + 1) in
        phy_done (if ltb uphy_delay_2_5_us t then at_op phy_idle (timed t phy) else timed t phy)
          out)
    else if ulpi_bus_is_idle phy.bus && (inp.dat.b == 0x00 && inp.dat.a != 0x00)
    then (assert (bit_and inp.dat.a 0x80 == 0x80) >> uphy_txcmd_step phy inp out)
    else failed phy out

abbrev stop_step : Phy → Bus → Bus → Result (Stepped Phy)
stop_step phy inp out = do
  assert (inp.dir == sig0 && inp.nxt == sig0)
  if inp.stp == sig1 then phy_done (at_op phy_idle phy) out else failed phy out

abbrev chirp_k_step : Phy → Bus → Bus → Result (Stepped Phy)
chirp_k_step phy inp out =
    let t = u32 (phy.state.timer + 1) in
    if inp.stp == sig1 && ltb uphy_chirpk_timer t
    then phy_done
        (record phy {
          state = record (phy.state) {
            timer = t;
            op = wait_for_idle;
            update = 1;
            speed = host_chirp_k1;
          };
        })
        (record out { dir = sig0; nxt = sig0 })
    else phy_done (timed t phy) out

-- The switch; `out` is the copy of `*in`.
unfoldable pub uphy_op_step : PhyOp → Phy → Bus → Bus → Result (Stepped Phy)
unfolding status_step idle_step starting_step
uphy_op_step power_on phy inp out =
    if inp.rst_n == sig0
    then phy_done
        (if inp.clock == sig1 && (inp.dir == sig0 && inp.nxt == sig0)
          then at_op ref_clk_valid (uphy_reset phy)
          else uphy_reset phy)
        (record out { dir = sig0; nxt = sig0 })
    else phy_done phy out
uphy_op_step ref_clk_valid phy inp out =
    if inp.clock == sig1 && (inp.rst_n == sig1 && (inp.dat.a == 0x00 && inp.dat.b == 0x00))
    then phy_done (at_op starting (timed 0 phy)) out
    else phy_done phy out
uphy_op_step starting phy inp out = starting_step phy inp out
uphy_op_step wait_for_idle phy inp out =
    if ulpi_bus_is_idle inp then phy_done (at_op phy_idle phy) out else phy_done phy (released out)
uphy_op_step status_rxcmd phy inp out = status_step phy out
uphy_op_step phy_idle phy inp out = idle_step phy inp out
uphy_op_step phy_regw phy inp out =
    if inp.dat.b == 0x00
    then phy_done (at_op phy_regi phy) (record out { nxt = sig1 })
    else failed phy out
uphy_op_step phy_regi phy inp out =
    if inp.dat.b == 0x00
    then (store phy.state.regs phy.state.regnum inp.dat.a >>= λ written.
        phy_done
          (record phy {
            state = record (phy.state) {
              update = if phy.state.regnum == uphy_reg_fn_ctrl then 1 else 0;
              regs = written;
              op = phy_stop;
            };
          })
          (record out { dir = sig0; nxt = sig0 }))
    else failed phy out
uphy_op_step phy_stop phy inp out = stop_step phy inp out
uphy_op_step phy_regr phy inp out =
    phy_done (at_op phy_regz phy) (record out { dir = sig1; nxt = sig0; dat = byte 0x00 0xFF })
uphy_op_step phy_regz phy inp out = do
  x ← load phy.state.regs phy.state.regnum
  phy_done (at_op phy_rego phy) (record out { dir = sig1; nxt = sig1; dat = byte x 0x00 })
uphy_op_step phy_rego phy inp out = phy_done (at_op phy_idle phy) (released out)
uphy_op_step phy_send phy inp out = phy_done phy out
uphy_op_step phy_recv phy inp out = phy_done phy out
uphy_op_step phy_chirp_k phy inp out = chirp_k_step phy inp out
uphy_op_step _ phy inp out = failed phy out

unfoldable pub uphy_step : Phy → Bus → Bus → Result (Stepped Phy)
uphy_step phy inp out = do
  let woken : Phy = if inp.rst_n == sig0 then at_op power_on phy else phy
  assert (inp.clock == sig1)
  uphy_op_step woken.state.op woken inp inp
