-- ===== src/Host/Incoming/Answer.antt =====
-- The ACK of a bulk IN transaction of vpi/usb/usbhost.c under `usbh_step`.
use misc_verilog_cores.Base.{
  ℕ, ◌+◌, ◌<◌, ◌≡◌, refl, pos, ok, Option, none, some, List, [], ◌∷◌, ◌++◌, length, arith,
}
use misc_verilog_cores.Ulpi.{
  sig1, Bus, Transfer, XferStage, no_xfer, assert_dir, init_rxcmd, hsk_pid, end_rxcmd, eop,
  line_idle, dn_ack, xfer_idle, ulpi_bus_idle, ulpi_bus_is_idle, transfer_ack, transfer_type_to_pid,
  stepped,
}
use misc_verilog_cores.Ulpi.Step.Eop.{drive_eop}
use misc_verilog_cores.Ulpi.Step.Ack.{ack_send_step, ack_send_at}
use misc_verilog_cores.Ulpi.Listen.{phy_bus, packet_byte}
use misc_verilog_cores.Ulpi.Handshake.{toggled}
use misc_verilog_cores.Host.{Host}
use misc_verilog_cores.Host.Bulk.{bulk_in_step}
use misc_verilog_cores.Host.Transaction.{seen}
use misc_verilog_cores.Host.Transaction.Token.{at}
use misc_verilog_cores.Host.Incoming.{
  carried, in_host, incoming_run, Passes, one_cycle, last_cycle, both,
}
use misc_verilog_cores.Host.Incoming.Token.{alone}

module _ (rand : ℕ → ℕ) (host : Host) (z : Transfer) where
  ack_cycle :
      (l : Option Bus) (k : ℕ) (st st' : XferStage) (bus o : Bus)
      → (carried l bus).rst_n ≡ sig1
      → k + 1 < 4294967296
      → bulk_in_step
          (rand k)
          (in_host host (k + 1) (at dn_ack st z))
          (carried l bus)
          (carried l bus)
        ≡ stepped (pos 0) (in_host host (k + 1) (at dn_ack st' z)) o
      → Passes rand host (l ∷ []) k (at dn_ack st z) bus (k + 1) (at dn_ack st' z) o (seen o)
  ack_cycle l k st st' bus o r h e =
      one_cycle rand host l k (at dn_ack st z) (at dn_ack st' z) bus o r h e

  ack_acked :
      z.endpoint < length z.ep_seq
      → transfer_ack (at xfer_idle no_xfer z)
        ≡ ok (record (at xfer_idle no_xfer z) { ep_seq = toggled z })
  unfolding transfer_ack
  ack_acked h = ground arith

  -- The six cycles of the ACK before its last.
  pub ack-Passes :
      (k : ℕ) (bus : Bus)
      → k + 7 < 4294967296
      → Passes rand host
          (some ulpi_bus_idle ∷ alone 5)
          k
          (at dn_ack no_xfer z)
          bus
          (k + 1 + 1 + 1 + 1 + 1 + 1)
          (at dn_ack line_idle z)
          (phy_bus 0 0 0x00 0xFF)
          (transfer_type_to_pid dn_ack ∷ [])
  unfolding bulk_in_step ack_send_step ack_send_at drive_eop ulpi_bus_is_idle
  ack-Passes k bus h =
      let start : Bus = phy_bus 1 1 0x00 0xFF in
      let active : Bus = phy_bus 1 0 0x5D 0x00 in
      let pid : Bus = packet_byte (transfer_type_to_pid dn_ack) in
      both rand host
        (ack_cycle (some ulpi_bus_idle) k no_xfer assert_dir bus start refl (omega arith) refl)
        (both rand host
          (ack_cycle none _ assert_dir init_rxcmd start active refl (omega arith) refl)
          (both rand host (ack_cycle none _ init_rxcmd hsk_pid active pid refl (omega arith) refl) (
            both rand host
              (ack_cycle none _ hsk_pid end_rxcmd pid (phy_bus 1 0 0x4C 0x00) refl (omega arith)
                refl)
              (both rand host
                (ack_cycle none _ end_rxcmd eop (phy_bus 1 0 0x4C 0x00) (phy_bus 1 0 0x4D 0x00) refl
                  (omega arith) refl)
                (ack_cycle none _ eop line_idle (phy_bus 1 0 0x4D 0x00) (phy_bus 0 0 0x00 0xFF) refl
                  (omega arith) refl)))))

  -- The last one acknowledges.
  pub ack_ends :
      (k : ℕ) (log : List ℕ)
      → z.endpoint < length z.ep_seq
      → k + 1 < 4294967296
      → incoming_run rand
          (none ∷ [])
          (in_host host k (at dn_ack line_idle z))
          (phy_bus 0 0 0x00 0xFF)
          log
        ≡ ok (
          record {
            code = pos 1;
            state =
                in_host host
                  (k + 1)
                  (record z { type = xfer_idle; stage = no_xfer; ep_seq = toggled z });
            out = phy_bus 0 0 0x00 0xFF;
          },
          log ++ [],
        )
  unfolding bulk_in_step ack_send_step ack_send_at drive_eop
  ack_ends k log h small =
      last_cycle rand host none k (at dn_ack line_idle z)
        (record z { type = xfer_idle; stage = no_xfer; ep_seq = toggled z }) (phy_bus 0 0 0x00 0xFF)
        (phy_bus 0 0 0x00 0xFF) log refl small (rw (ack_acked h) refl)
