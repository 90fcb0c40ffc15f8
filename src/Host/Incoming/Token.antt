-- ===== src/Host/Incoming/Token.antt =====
-- The token of a bulk IN transaction of vpi/usb/usbhost.c under `usbh_step`.
use misc_verilog_cores.Base.{
  ℕ, ◌+◌, ◌<◌, ◌≡◌, refl, ◌==◌, if◌then◌else◌, pos, ok, load, Option, none, List, [], ◌∷◌, length,
  get_or, replicate, arith, subst,
}
use misc_verilog_cores.Ulpi.{
  Bus, Transfer, XferType, XferStage, in_token, up_data0, up_data1, no_xfer, assert_dir, init_rxcmd,
  token_pid, token1, token2, end_rxcmd, eop, line_idle, ulpi_bus_idle, transfer_type_to_pid,
  stepped,
}
use misc_verilog_cores.Ulpi.Step.Eop.{drive_eop}
use misc_verilog_cores.Ulpi.Step.Token.{token_send_step, token_at}
use misc_verilog_cores.Ulpi.Listen.{phy_bus, packet_byte}
use misc_verilog_cores.Host.{Host, turnaround_timer}
use misc_verilog_cores.Host.Bulk.{bulk_in_step}
use misc_verilog_cores.Host.Transaction.{seen}
use misc_verilog_cores.Host.Transaction.Token.{at}
use misc_verilog_cores.Host.Incoming.{in_host, Passes, one_cycle, both}

-- The type of the data packet: the parity of the endpoint.
abbrev pub expected_type : Transfer → XferType
expected_type x = if get_or x.ep_seq x.endpoint 0 == 0 then up_data0 else up_data1

-- The transfer that waits for data until cycle `d`.
abbrev pub expecting : Transfer → ℕ → Transfer
expecting x d = record x { type = expected_type x; stage = no_xfer; cycle = d }

-- So many cycles in which the link leaves the bus alone.
abbrev pub alone : ℕ → List (Option Bus)
alone n = replicate n none

load_parity :
    (x : Transfer)
    → x.endpoint < length x.ep_seq
    → load x.ep_seq x.endpoint ≡ ok (get_or x.ep_seq x.endpoint 0)
load_parity x h = ground arith

module _ (rand : ℕ → ℕ) (host : Host) (x : Transfer) where
  token_cycle :
      (k : ℕ) (st st' : XferStage) (bus o : Bus)
      → bus.rst_n ≡ 1
      → k + 1 < 4294967296
      → bulk_in_step (rand k) (in_host host (k + 1) (at in_token st x)) bus bus
        ≡ stepped (pos 0) (in_host host (k + 1) (at in_token st' x)) o
      → Passes rand host (none ∷ []) k (at in_token st x) bus (k + 1) (at in_token st' x) o (seen o)
  token_cycle k st st' bus o r h e =
      one_cycle rand host none k (at in_token st x) (at in_token st' x) bus o r h e

  token_ends :
      (r k : ℕ)
      → x.endpoint < length x.ep_seq
      → k + 40 < 4294967296
      → bulk_in_step r
          (in_host host k (at in_token line_idle x))
          (phy_bus 0 0 0x00 0xFF)
          (phy_bus 0 0 0x00 0xFF)
        ≡ stepped
            (pos 0)
            (in_host host k (expecting x (k + turnaround_timer)))
            (phy_bus 0 0 0x00 0xFF)
  unfolding bulk_in_step token_send_step token_at drive_eop
  token_ends r k h small = rw (load_parity x h) (ground arith)

  -- The token takes nine cycles.
  pub token-Passes :
      (k : ℕ)
      → x.endpoint < length x.ep_seq
      → k + 100 < 4294967296
      → Passes rand host
          (alone 9)
          k
          (at in_token no_xfer x)
          ulpi_bus_idle
          (k + 9)
          (expecting x (k + 9 + turnaround_timer))
          (phy_bus 0 0 0x00 0xFF)
          (transfer_type_to_pid in_token ∷ x.tok1 ∷ x.tok2 ∷ [])
  unfolding bulk_in_step token_send_step token_at drive_eop
  token-Passes k h small =
      let released : Bus = phy_bus 0 0 0x00 0xFF in
      let active : Bus = phy_bus 1 0 0x5D 0x00 in
      let pid : Bus = packet_byte (transfer_type_to_pid in_token) in
      let count : k + 1 + 1 + 1 + 1 + 1 + 1 + 1 + 1 + 1 ≡ k + 9 = omega arith in
      subst
        (λ (c : ℕ).
          Passes rand host (alone 9) k (at in_token no_xfer x) ulpi_bus_idle c
            (expecting x (c + turnaround_timer)) released
            (transfer_type_to_pid in_token ∷ x.tok1 ∷ x.tok2 ∷ []))
        count
        (both rand host
          (token_cycle k no_xfer assert_dir ulpi_bus_idle (phy_bus 1 1 0x00 0xFF) refl (omega arith)
            refl)
          (both rand host
            (token_cycle _ assert_dir init_rxcmd (phy_bus 1 1 0x00 0xFF) active refl (omega arith)
              refl)
            (both rand host (token_cycle _ init_rxcmd token_pid active pid refl (omega arith) refl)
              (both rand host
                (token_cycle _ token_pid token1 pid (packet_byte x.tok1) refl (omega arith) refl)
                (both rand host
                  (token_cycle _ token1 token2 (packet_byte x.tok1) (packet_byte x.tok2) refl
                    (omega arith) refl)
                  (both rand host
                    (token_cycle _ token2 end_rxcmd (packet_byte x.tok2) (phy_bus 1 0 0x4C 0x00)
                      refl (omega arith) refl)
                    (both rand host
                      (token_cycle _ end_rxcmd eop (phy_bus 1 0 0x4C 0x00) (phy_bus 1 0 0x4D 0x00)
                        refl (omega arith) refl)
                      (both rand host
                        (token_cycle _ eop line_idle (phy_bus 1 0 0x4D 0x00) released refl
                          (omega arith) refl)
                        (one_cycle rand host none _ (at in_token line_idle x)
                          (expecting x (k + 1 + 1 + 1 + 1 + 1 + 1 + 1 + 1 + 1 + turnaround_timer))
                          released released refl (omega arith)
                          (token_ends 0 _ h (omega arith)))))))))))
