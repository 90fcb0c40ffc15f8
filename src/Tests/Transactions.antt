-- ===== src/Tests/Transactions.antt =====
-- A bulk OUT transaction at concrete inputs.
use misc_verilog_cores.Base.{ℕ, ◌+◌, ◌≡◌, refl, pos, List, [], ◌∷◌, ◌++◌, replicate, ok, arith}
use misc_verilog_cores.Ulpi.{
  sig0, sig1, Bus, Transfer, out_token, up_ack, xfer_idle, no_xfer, ulpi_bus_idle, ulpi_bus_is_idle,
  ulpitx_ack, transfer_ack, stepped,
}
use misc_verilog_cores.Host.{Host, host_bulk_out, turnaround_timer}
use misc_verilog_cores.Host.StepLaws.{usbh_run}
use misc_verilog_cores.Host.Transaction.{sending_run}
use misc_verilog_cores.Host.Transaction.Whole.{transaction_bytes, bulk_out_transaction}
use misc_verilog_cores.Tests.{idle_host, link_bus}

-- Three bytes for endpoint 2.
abbrev opening_host : Host
opening_host = record idle_host {
  op = host_bulk_out;
  xfer = record (idle_host.xfer) {
    type = out_token;
    endpoint = 2;
    tok1 = 0x23;
    tok2 = 0xA1;
    tx = 0x11 ∷ 0x22 ∷ 0x33 ∷ [];
    tx_len = 3;
    crc1 = 0x44;
    crc2 = 0x55;
  };
}

-- `rand()` asks for a wait state every time.
abbrev always_wait : List ℕ
always_wait = replicate 25 15

abbrev late_ack : List Bus
late_ack =
    (ulpi_bus_idle ∷ [])
    ++ link_bus sig0 sig0 ulpitx_ack
      ∷ ((link_bus sig1 sig0 ulpitx_ack ∷ [])
          ++ link_bus sig0 sig1 0x00 ∷ link_bus sig0 sig0 0x00 ∷ [])

bulk_out_transaction_example :
    (h : Host) × (o : Bus) × (g : Host) × (y : Transfer) × (sending_run always_wait opening_host
        ulpi_bus_idle []
      ≡ ok (record { code = pos 0; state = h; out = o }, transaction_bytes opening_host.xfer))
    × (h.xfer.type ≡ up_ack)
    × (h.xfer.cycle ≡ h.cycle + turnaround_timer)
    × (usbh_run 0 late_ack h o ≡ stepped (pos 1) g (link_bus sig0 sig0 0x00))
    × (transfer_ack opening_host.xfer ≡ ok y)
    × (g.xfer
        ≡ record y { type = xfer_idle; stage = no_xfer; tx_ptr = y.tx_len; cycle = h.xfer.cycle })
unfolding ulpi_bus_is_idle
bulk_out_transaction_example =
    bulk_out_transaction always_wait opening_host 0 (ulpi_bus_idle ∷ [])
      (link_bus sig1 sig0 ulpitx_ack ∷ []) (link_bus sig0 sig0 ulpitx_ack) (link_bus sig0 sig1 0x00)
      (link_bus sig0 sig0 0x00) refl refl refl refl (omega arith) (omega arith) (omega arith)
      (omega arith) (omega arith) (omega arith) refl (refl, refl, refl) (refl, refl, refl)
      (refl, (refl, (refl, tt))) (refl, tt) (refl, tt) ((refl, refl, λ p. omega arith), tt)
      (refl, tt) (omega arith)
