-- ===== src/Host/Transaction/Data.antt =====
-- The data packet of a bulk OUT transaction of vpi/usb/usbhost.c under `usbh_step`.
use misc_verilog_cores.Base.{
  ℕ, suc, ◌+◌, ◌<◌, ◌≡◌, refl, ◌∙◌, true, false, ◌&&◌, ◌==◌, ltb, inl, inr, Bool-cases, pos, List,
  [], ◌∷◌, ◌++◌, arith,
}
use misc_verilog_cores.Ulpi.{
  Bus, Transfer, XferType, XferStage, dn_data0, dn_data1, xfer_idle, no_xfer, datax_crc1,
  datax_crc2, end_rxcmd, eop, line_idle, stepped,
}
use misc_verilog_cores.Ulpi.Step.Eop.{drive_eop}
use misc_verilog_cores.Ulpi.Step.Send.{datax_send_step, datax_send_at, datax_pid_byte}
use misc_verilog_cores.Ulpi.SendRun.{is_dn_data, InSequence, sending, datax_send_step_of}
use misc_verilog_cores.Ulpi.Listen.{phy_bus, packet_byte}
use misc_verilog_cores.Host.{Host}
use misc_verilog_cores.Host.Bulk.{bulk_out_step, throttled}
use misc_verilog_cores.Host.Throttle.{stall, proceed}
use misc_verilog_cores.Host.Transaction.{
  out_host, sending_run, ended, awaits_ack, ready, advance, Reaches, one_step, waiting_step, seen,
}

data-awaits : (t : XferType) → is_dn_data t ≡ true → awaits_ack t ≡ false
data-awaits dn_data0 h = refl
data-awaits dn_data1 h = refl
data-awaits _ h = cc

-- The last step of the packet: the transfer waits for the handshake until the deadline.
sent_step :
    (t : XferType) (host : Host) (i rand : ℕ) (bus : Bus)
    → is_dn_data t ≡ true
    → (ltb i host.xfer.tx_len && (bus.nxt == 1 && throttled rand)) ≡ false
    → host.cycle + 40 < 4294967296
    → datax_send_step (sending t host.xfer line_idle i) bus bus
      ≡ stepped (pos 1) (sending xfer_idle host.xfer no_xfer i) bus
    → bulk_out_step rand (record host { xfer = sending t host.xfer line_idle i }) bus bus
      ≡ stepped
          (pos 0)
          (record host { xfer = ready (sending t host.xfer no_xfer i) host.cycle })
          bus
unfolding bulk_out_step
sent_step dn_data0 host i rand bus d c h e = rw e (ground arith)
sent_step dn_data1 host i rand bus d c h e = rw e (ground arith)
sent_step _ host i rand bus d c h e = cc

run_done :
    (host : Host) (y : Transfer) (rands : List ℕ) (k : ℕ) (log : List ℕ)
    → sending_run rands (out_host host k (ready y k)) (phy_bus 0 0 0x00 0xFF) log
      ≡ ended host y k log
unfolding sending_run
run_done host y [] k log = refl
run_done host y (rand ∷ rands) k log = refl

module _ (host : Host) (x : Transfer) (t : XferType) (is_data : is_dn_data t ≡ true)
    (s : InSequence t x) where
  -- The transfer that is acknowledged, up to its deadline.
  abbrev pub sent : Transfer
  sent = sending t x no_xfer x.tx_len

  -- A step without a wait state.
  step :
      (rand k : ℕ) (st st' : XferStage) (i i' : ℕ) (bus o : Bus)
      → (ltb i x.tx_len && (bus.nxt == 1 && throttled rand)) ≡ false
      → datax_send_at st (datax_pid_byte t) (sending t x st i) bus bus
        ≡ stepped (pos 0) (sending t x st' i') o
      → bulk_out_step rand (out_host host k (sending t x st i)) bus bus
        ≡ stepped (pos 0) (out_host host k (sending t x st' i')) o
  step rand k st st' i i' bus o c e =
      proceed t (out_host host k x) st i rand bus o (sending t x st' i') is_data c
        (datax_send_step_of t x st i bus bus is_data s ∙ e)

  -- A step that a wait state, which leaves `0x5D` on the bus, may come before.
  pub either :
      (n : ℕ) (st st' : XferStage) (i i' : ℕ) (a b : ℕ) (o : Bus) (tail : List ℕ)
      → ((nxt a' : ℕ)
          → datax_send_at st
              (datax_pid_byte t)
              (sending t x st i)
              (phy_bus 1 nxt a' b)
              (phy_bus 1 nxt a' b)
            ≡ stepped (pos 0) (sending t x st' i') o)
      → Reaches host sent n (sending t x st' i') o tail
      → Reaches host sent (suc (suc n)) (sending t x st i) (phy_bus 1 1 a b) (seen o ++ tail)
  either n st st' i i' a b o tail e rest =
      waiting_step host sent n (sending t x st i) (sending t x st' i') (phy_bus 1 1 a b)
        (phy_bus 1 0 0x5D b) o tail (data-awaits t is_data) refl refl refl
        (λ rand k. elim (Bool-cases (ltb i x.tx_len && throttled rand)) [
          | inl w ↦ inl (
              stall t (out_host host k x) st i rand (phy_bus 1 1 a b) is_data (ground (arith, w))
                refl (ground (arith, w)))
          | inr w ↦ inr (step rand k st st' i i' (phy_bus 1 1 a b) o w (e 1 a))
        ])
        (λ rand k. step rand k st st' i i' (phy_bus 1 0 0x5D b) o (ground arith) (e 0 0x5D)) rest

  pub plain :
      (n : ℕ) (st st' : XferStage) (i i' : ℕ) (bus o : Bus) (tail : List ℕ)
      → bus.rst_n ≡ 1
      → ((rand : ℕ) → (ltb i x.tx_len && (bus.nxt == 1 && throttled rand)) ≡ false)
      → datax_send_at st (datax_pid_byte t) (sending t x st i) bus bus
        ≡ stepped (pos 0) (sending t x st' i') o
      → Reaches host sent n (sending t x st' i') o tail
      → Reaches host sent (suc n) (sending t x st i) bus (seen o ++ tail)
  plain n st st' i i' bus o tail r c e rest =
      one_step host sent n (sending t x st i) (sending t x st' i') bus o tail
        (data-awaits t is_data) r (λ rand k. step rand k st st' i i' bus o (c rand) e) rest

  last_step :
      (rand k : ℕ)
      → k + 40 < 4294967296
      → bulk_out_step rand
          (out_host host k (sending t x line_idle x.tx_len))
          (phy_bus 0 0 0x00 0xFF)
          (phy_bus 0 0 0x00 0xFF)
        ≡ stepped (pos 0) (out_host host k (ready sent k)) (phy_bus 0 0 0x00 0xFF)
  unfolding datax_send_at drive_eop
  last_step rand k h =
      sent_step t (out_host host k x) x.tx_len rand (phy_bus 0 0 0x00 0xFF) is_data (ground arith) h
        (datax_send_step_of t x line_idle x.tx_len (phy_bus 0 0 0x00 0xFF) (phy_bus 0 0 0x00 0xFF)
          is_data s)

  idle-Reaches : Reaches host sent 1 (sending t x line_idle x.tx_len) (phy_bus 0 0 0x00 0xFF) []
  idle-Reaches [] k log l b = absurd (omega arith)
  idle-Reaches (rand ∷ rands) k log l b = (
    k + 1,
    advance host rand rands k (sending t x line_idle x.tx_len) (ready sent (k + 1))
          (phy_bus 0 0 0x00 0xFF) (phy_bus 0 0 0x00 0xFF) log (data-awaits t is_data) refl
          (omega arith) (last_step rand (k + 1) (omega arith))
        ∙ run_done host sent rands (k + 1) (log ++ []),
    omega arith,
    omega arith,
  )

  -- The second byte of the CRC and the end of the packet.
  pub close-Reaches :
      (c : ℕ) → Reaches host sent 5 (sending t x datax_crc1 x.tx_len) (packet_byte c) (x.crc2 ∷ [])
  unfolding datax_send_at drive_eop
  close-Reaches c =
      let i = x.tx_len in
      plain 4 datax_crc1 datax_crc2 i i (packet_byte c) (packet_byte x.crc2) [] refl
        (λ rand. ground arith) refl
        (plain 3 datax_crc2 end_rxcmd i i (packet_byte x.crc2) (phy_bus 1 0 0x4C 0x00) [] refl
          (λ rand. ground arith) refl
          (plain 2 end_rxcmd eop i i (phy_bus 1 0 0x4C 0x00) (phy_bus 1 0 0x4D 0x00) [] refl
            (λ rand. ground arith) refl
            (plain 1 eop line_idle i i (phy_bus 1 0 0x4D 0x00) (phy_bus 0 0 0x00 0xFF) [] refl
              (λ rand. ground arith) refl idle-Reaches)))
