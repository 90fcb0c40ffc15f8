-- ===== src/Host/Acknowledge.antt =====
-- The handshake that ends a bulk IN transaction in vpi/usb/usbhost.c.
use misc_verilog_cores.Base.{
  ℕ, ◌<◌, ◌≡◌, refl, ap₂, ◌∙◌, ◌==◌, if◌then◌else◌, pos, ok, List, [], ◌∷◌, length, get_or, set,
  arith,
}
use misc_verilog_cores.Ulpi.{
  Transfer, XferType, XferStage, dn_ack, xfer_idle, no_xfer, ulpi_bus_idle, ulpi_bus_is_idle,
  transfer_ack, transfer_type_to_pid,
}
use misc_verilog_cores.Ulpi.Step.Eop.{drive_eop}
use misc_verilog_cores.Ulpi.Step.Ack.{ack_send_step, ack_send_at}
use misc_verilog_cores.Ulpi.Listen.{packet_log, phy_bus}
use misc_verilog_cores.Host.{Host}
use misc_verilog_cores.Host.Bulk.{bulk_in_step}
use misc_verilog_cores.Host.Run.{bulk_run}

abbrev toggled : Transfer → List ℕ
toggled x = set x.ep_seq x.endpoint (if get_or x.ep_seq x.endpoint 0 == 0 then 1 else 0)

acked :
    (x : Transfer)
    → x.endpoint < length x.ep_seq
    → transfer_ack x ≡ ok (record x { ep_seq = toggled x })
unfolding transfer_ack
acked x h = ground arith

abbrev at_ack : Host → XferType → XferStage → Host
at_ack host t st = record host { xfer = record (host.xfer) { type = t; stage = st } }

run_of :
    (rand : ℕ) (host : Host)
    → host.xfer.endpoint < length host.xfer.ep_seq
    → bulk_run (bulk_in_step rand) 7 (at_ack host dn_ack no_xfer) ulpi_bus_idle []
      ≡ ok (
        record {
          code = pos 1;
          state = record host {
            xfer = record (host.xfer) {
              type = xfer_idle;
              stage = no_xfer;
              ep_seq = toggled host.xfer;
            };
          };
          out = phy_bus 0 0 0x00 0xFF;
        },
        packet_log (transfer_type_to_pid dn_ack ∷ []),
      )
unfolding bulk_run bulk_in_step ack_send_step ack_send_at drive_eop ulpi_bus_is_idle
run_of rand host h = rw (acked (record (host.xfer) { type = xfer_idle; stage = no_xfer }) h) refl

-- The ACK of a bulk IN transaction: on an idle bus it ends in 7 steps with the result 1. The link
-- sees the packet of the PID alone, framed by the RX CMDs, and in these steps the transfer is
-- acknowledged exactly once, by `transfer_ack`, and made idle; nothing else of the host changes.
bulk_in_acknowledges :
    (rand : ℕ) (host : Host)
    → host.xfer.type ≡ dn_ack
    → host.xfer.stage ≡ no_xfer
    → host.xfer.endpoint < length host.xfer.ep_seq
    → (y : Transfer) × (transfer_ack host.xfer ≡ ok y)
      × (bulk_run (bulk_in_step rand) 7 host ulpi_bus_idle []
          ≡ ok (
            record {
              code = pos 1;
              state = record host { xfer = record y { type = xfer_idle; stage = no_xfer } };
              out = phy_bus 0 0 0x00 0xFF;
            },
            packet_log (transfer_type_to_pid dn_ack ∷ []),
          ))
bulk_in_acknowledges rand host t st h = (
  record (host.xfer) { ep_seq = toggled host.xfer },
  acked host.xfer h,
  ap₂
        (λ (a : XferType) (b : XferStage).
          bulk_run (bulk_in_step rand) 7 (at_ack host a b) ulpi_bus_idle [])
        t st
      ∙ run_of rand host h,
)
