-- ===== src/Host/Opening.antt =====
-- The tokens that open the bulk transactions of vpi/usb/usbhost.c.
use misc_verilog_cores.Base.{
  ℕ, ◌<◌, ◌≡◌, refl, ap₂, ◌∙◌, ◌==◌, if◌then◌else◌, pos, ok, load, [], ◌∷◌, length, get_or, arith,
}
use misc_verilog_cores.Ulpi.{
  Transfer, XferType, XferStage, out_token, in_token, dn_data0, dn_data1, up_data0, up_data1,
  no_xfer, ulpi_bus_idle, transfer_type_to_pid,
}
use misc_verilog_cores.Ulpi.Step.Eop.{drive_eop}
use misc_verilog_cores.Ulpi.Step.Token.{token_send_step, token_at}
use misc_verilog_cores.Ulpi.Listen.{packet_log, phy_bus}
use misc_verilog_cores.Host.{Host}
use misc_verilog_cores.Host.Bulk.{bulk_out_step, bulk_in_step, deadline}
use misc_verilog_cores.Host.Run.{bulk_run}

-- The parity that the transfer's endpoint expects.
abbrev parity : Transfer → ℕ
parity x = get_or x.ep_seq x.endpoint 0

load_sequence :
    (x : Transfer) → x.endpoint < length x.ep_seq → load x.ep_seq x.endpoint ≡ ok (parity x)
load_sequence x h = ground arith

abbrev at_token : Host → XferType → XferStage → Host
at_token host t st = record host { xfer = record (host.xfer) { type = t; stage = st } }

-- The host behind a token, with a data packet of type `t` to come.
abbrev opened : Host → XferType → Host
opened host t = record host { xfer = record (host.xfer) { type = t; stage = no_xfer } }

out_run :
    (rand : ℕ) (host : Host)
    → host.xfer.endpoint < length host.xfer.ep_seq
    → bulk_run (bulk_out_step rand) 9 (at_token host out_token no_xfer) ulpi_bus_idle []
      ≡ ok (
        record {
          code = pos 0;
          state = opened host (if parity host.xfer == 0 then dn_data0 else dn_data1);
          out = phy_bus 0 0 0x00 0xFF;
        },
        packet_log (transfer_type_to_pid out_token ∷ host.xfer.tok1 ∷ host.xfer.tok2 ∷ []),
      )
unfolding bulk_run bulk_out_step token_send_step token_at drive_eop
out_run rand host h = rw (load_sequence host.xfer h) refl

in_run :
    (rand : ℕ) (host : Host)
    → host.xfer.endpoint < length host.xfer.ep_seq
    → bulk_run (bulk_in_step rand) 9 (at_token host in_token no_xfer) ulpi_bus_idle []
      ≡ ok (
        record {
          code = pos 0;
          state = record host {
            xfer = record (host.xfer) {
              type = if parity host.xfer == 0 then up_data0 else up_data1;
              stage = no_xfer;
              cycle = deadline host;
            };
          };
          out = phy_bus 0 0 0x00 0xFF;
        },
        packet_log (transfer_type_to_pid in_token ∷ host.xfer.tok1 ∷ host.xfer.tok2 ∷ []),
      )
unfolding bulk_run bulk_in_step token_send_step token_at drive_eop
in_run rand host h = rw (load_sequence host.xfer h) refl

-- A bulk OUT transaction opens: from an idle bus the link sees the OUT token within 9 steps, and the
-- host is then about to send the data packet of the endpoint's parity, DATA0 for 0 and else DATA1.
-- Nothing else of the host changes.
bulk_out_opens :
    (rand : ℕ) (host : Host)
    → host.xfer.type ≡ out_token
    → host.xfer.stage ≡ no_xfer
    → host.xfer.endpoint < length host.xfer.ep_seq
    → bulk_run (bulk_out_step rand) 9 host ulpi_bus_idle []
      ≡ ok (
        record {
          code = pos 0;
          state = record host {
            xfer = record (host.xfer) {
              type =
                  if get_or host.xfer.ep_seq host.xfer.endpoint 0 == 0 then dn_data0 else dn_data1;
              stage = no_xfer;
            };
          };
          out = phy_bus 0 0 0x00 0xFF;
        },
        packet_log (transfer_type_to_pid out_token ∷ host.xfer.tok1 ∷ host.xfer.tok2 ∷ []),
      )
bulk_out_opens rand host t st h =
    ap₂
      (λ (a : XferType) (b : XferStage).
        bulk_run (bulk_out_step rand) 9 (at_token host a b) ulpi_bus_idle [])
      t st
    ∙ out_run rand host h

-- A bulk IN transaction opens: from an idle bus the link sees the IN token within 9 steps, and the
-- host then expects the data packet of the endpoint's parity, DATA0 for 0 and else DATA1, until its
-- turn-around deadline. Nothing else of the host changes.
bulk_in_opens :
    (rand : ℕ) (host : Host)
    → host.xfer.type ≡ in_token
    → host.xfer.stage ≡ no_xfer
    → host.xfer.endpoint < length host.xfer.ep_seq
    → bulk_run (bulk_in_step rand) 9 host ulpi_bus_idle []
      ≡ ok (
        record {
          code = pos 0;
          state = record host {
            xfer = record (host.xfer) {
              type =
                  if get_or host.xfer.ep_seq host.xfer.endpoint 0 == 0 then up_data0 else up_data1;
              stage = no_xfer;
              cycle = deadline host;
            };
          };
          out = phy_bus 0 0 0x00 0xFF;
        },
        packet_log (transfer_type_to_pid in_token ∷ host.xfer.tok1 ∷ host.xfer.tok2 ∷ []),
      )
bulk_in_opens rand host t st h =
    ap₂
      (λ (a : XferType) (b : XferStage).
        bulk_run (bulk_in_step rand) 9 (at_token host a b) ulpi_bus_idle [])
      t st
    ∙ in_run rand host h
