-- ===== src/Ulpi/TokenRun.antt =====
-- `token_send_step` from its first to its last cycle.
use misc_verilog_cores.Base.{ℕ, ◌≤◌, ◌≡◌, refl, Bool, true, false, pos, ok, some, [], ◌∷◌}
use misc_verilog_cores.Ulpi.{
  XferType, setup, out_token, in_token, sof, xfer_idle, no_xfer, Transfer, transfer_type_to_pid,
}
use misc_verilog_cores.Ulpi.Step.Token.{token_send_step}
use misc_verilog_cores.Ulpi.Step.Eop.{drive_eop}
use misc_verilog_cores.Ulpi.Run.{ulpi_step_with, step_loop, ulpi_step_with_more}
use misc_verilog_cores.Ulpi.Listen.{listen, packet_log, phy_bus}

-- The types that `token_send_step` sends.
abbrev pub is_token : XferType → Bool
is_token setup = true
is_token out_token = true
is_token in_token = true
is_token sof = true
is_token _ = false

token_run_of :
    (t : XferType) (xfer : Transfer)
    → is_token t ≡ true
    → ulpi_step_with token_send_step listen 9 (record xfer { type = t }) []
      ≡ ok (
          some (record {
            code = pos 1;
            xfer = record xfer { type = xfer_idle; stage = no_xfer };
            user = packet_log (transfer_type_to_pid t ∷ xfer.tok1 ∷ xfer.tok2 ∷ []);
            bus = phy_bus 0 0 0x00 0xFF;
          }))
unfolding ulpi_step_with step_loop token_send_step drive_eop transfer_type_to_pid
token_run_of setup xfer h = refl
token_run_of out_token xfer h = refl
token_run_of in_token xfer h = refl
token_run_of sof xfer h = refl
token_run_of _ xfer h = cc

-- Sending a SETUP, OUT, IN or SOF token from an idle bus ends within 9 steps with the result 1 and
-- an idle transfer. The link sees the packet of the PID and the two token bytes, framed by the RX
-- CMDs, and nothing else of the transfer changes.
pub token_send_run :
    (fuel : ℕ) (xfer : Transfer)
    → 9 ≤ fuel
    → is_token xfer.type ≡ true
    → ulpi_step_with token_send_step listen fuel xfer []
      ≡ ok (
          some (record {
            code = pos 1;
            xfer = record xfer { type = xfer_idle; stage = no_xfer };
            user = packet_log (transfer_type_to_pid xfer.type ∷ xfer.tok1 ∷ xfer.tok2 ∷ []);
            bus = phy_bus 0 0 0x00 0xFF;
          }))
token_send_run fuel xfer h t =
    ulpi_step_with_more token_send_step listen 9 fuel xfer [] h (token_run_of xfer.type xfer t)
