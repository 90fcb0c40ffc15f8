-- ===== src/Host/Transaction/Token.antt =====
-- The token of a bulk OUT transaction of vpi/usb/usbhost.c under `usbh_step`.
use misc_verilog_cores.Base.{
  ℕ, suc, ◌+◌, ◌<◌, ◌≡◌, refl, ◌==◌, if◌then◌else◌, pos, ok, load, List, ◌∷◌, ◌++◌, length, get_or,
  arith,
}
use misc_verilog_cores.Ulpi.{
  Bus, Transfer, XferType, XferStage, out_token, dn_data0, dn_data1, no_xfer, assert_dir,
  init_rxcmd, token_pid, token1, token2, end_rxcmd, eop, line_idle, ulpi_bus_idle,
  transfer_type_to_pid, stepped,
}
use misc_verilog_cores.Ulpi.Step.Eop.{drive_eop}
use misc_verilog_cores.Ulpi.Step.Token.{token_send_step, token_at}
use misc_verilog_cores.Ulpi.Listen.{phy_bus, packet_byte}
use misc_verilog_cores.Host.{Host}
use misc_verilog_cores.Host.Bulk.{bulk_out_step}
use misc_verilog_cores.Host.Transaction.{out_host, Reaches, Reaches-more, one_step, seen}

-- The type of the data packet: the parity of the endpoint.
abbrev pub parity_type : Transfer → XferType
parity_type x = if get_or x.ep_seq x.endpoint 0 == 0 then dn_data0 else dn_data1

abbrev pub at : XferType → XferStage → Transfer → Transfer
at t st x = record x { type = t; stage = st }

load_sequence :
    (x : Transfer)
    → x.endpoint < length x.ep_seq
    → load x.ep_seq x.endpoint ≡ ok (get_or x.ep_seq x.endpoint 0)
load_sequence x h = ground arith

module _ (host : Host) (y x : Transfer) where
  token_step :
      (n : ℕ) (st st' : XferStage) (bus o : Bus) (tail : List ℕ)
      → bus.rst_n ≡ 1
      → ((rand k : ℕ)
          → bulk_out_step rand (out_host host k (at out_token st x)) bus bus
            ≡ stepped (pos 0) (out_host host k (at out_token st' x)) o)
      → Reaches host y n (at out_token st' x) o tail
      → Reaches host y (suc n) (at out_token st x) bus (seen o ++ tail)
  token_step n st st' bus o tail r e rest =
      one_step host y n (at out_token st x) (at out_token st' x) bus o tail refl r e rest

  token_ends :
      (rand k : ℕ)
      → x.endpoint < length x.ep_seq
      → bulk_out_step rand
          (out_host host k (at out_token line_idle x))
          (phy_bus 0 0 0x00 0xFF)
          (phy_bus 0 0 0x00 0xFF)
        ≡ stepped (pos 0) (out_host host k (at (parity_type x) no_xfer x)) (phy_bus 0 0 0x00 0xFF)
  unfolding bulk_out_step token_send_step token_at drive_eop
  token_ends rand k h = rw (load_sequence x h) refl

  nine : (n : ℕ) → 9 + n ≡ suc (suc (suc (suc (suc (suc (suc (suc (suc n))))))))
  nine n = omega arith

  -- The token takes nine steps.
  pub token-Reaches :
      (n : ℕ) (tail : List ℕ)
      → x.endpoint < length x.ep_seq
      → Reaches host y n (at (parity_type x) no_xfer x) (phy_bus 0 0 0x00 0xFF) tail
      → Reaches host y
          (n + 9)
          (at out_token no_xfer x)
          ulpi_bus_idle
          (transfer_type_to_pid out_token ∷ x.tok1 ∷ x.tok2 ∷ tail)
  unfolding bulk_out_step token_send_step token_at drive_eop
  token-Reaches n tail h rest =
      let released : Bus = phy_bus 0 0 0x00 0xFF in
      let pid = transfer_type_to_pid out_token in
      Reaches-more host y (9 + n) (n + 9) (at out_token no_xfer x) ulpi_bus_idle _ (omega arith) (
        rw (nine n) (
          token_step _ no_xfer assert_dir ulpi_bus_idle (phy_bus 1 1 0x00 0xFF) _ refl (λ r k. refl)
            (token_step _ assert_dir init_rxcmd (phy_bus 1 1 0x00 0xFF) (phy_bus 1 0 0x5D 0x00) _
              refl (λ r k. refl)
              (token_step _ init_rxcmd token_pid (phy_bus 1 0 0x5D 0x00) (packet_byte pid) _ refl
                (λ r k. refl)
                (token_step _ token_pid token1 (packet_byte pid) (packet_byte x.tok1) _ refl
                  (λ r k. refl)
                  (token_step _ token1 token2 (packet_byte x.tok1) (packet_byte x.tok2) _ refl
                    (λ r k. refl)
                    (token_step _ token2 end_rxcmd (packet_byte x.tok2) (phy_bus 1 0 0x4C 0x00) _
                      refl (λ r k. refl)
                      (token_step _ end_rxcmd eop (phy_bus 1 0 0x4C 0x00) (phy_bus 1 0 0x4D 0x00) _
                        refl (λ r k. refl)
                        (token_step _ eop line_idle (phy_bus 1 0 0x4D 0x00) released _ refl
                          (λ r k. refl)
                          (one_step host y n (at out_token line_idle x)
                            (at (parity_type x) no_xfer x) released released tail refl refl
                            (λ r k. token_ends r k h) rest))))))))))
