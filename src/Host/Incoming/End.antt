-- ===== src/Host/Incoming/End.antt =====
-- The body of the data packet of a bulk IN transaction of vpi/usb/usbhost.c, and its end.
use misc_verilog_cores.Base.{
  ℕ, suc, ◌+◌, ◌≤◌, ◌<◌, ◌≡◌, ◌≢◌, refl, sym, ap, ◌∙◌, true, pos, ok, Option, none, some, List, [],
  ◌∷◌, ◌++◌, length, length-append, length-set, length-set_all, set, map, All, arith, subst,
}
use misc_verilog_cores.Crc.Packet.{trailer}
use misc_verilog_cores.Ulpi.{
  sig0, sig1, Bus, Transfer, XferType, XferStage, up_data0, up_data1, no_xfer, datax_stop,
  end_rxcmd, eop, line_idle, dn_ack, stepped,
}
use misc_verilog_cores.Ulpi.Step.Eop.{drive_eop}
use misc_verilog_cores.Ulpi.Step.Recv.{datax_recv_step, datax_recv_at}
use misc_verilog_cores.Ulpi.Receive.{taken, InBody, is_up_data, body, body_step, body_take}
use misc_verilog_cores.Ulpi.Packet.{
  filled, take-filled, stop_lem, stopped, turned, checked, check_by_good,
}
use misc_verilog_cores.Ulpi.Listen.{phy_bus}
use misc_verilog_cores.Host.{Host}
use misc_verilog_cores.Host.Bulk.{bulk_in_step}
use misc_verilog_cores.Host.StepLaws.{Released}
use misc_verilog_cores.Host.Transaction.{seen}
use misc_verilog_cores.Host.Transaction.Token.{at}
use misc_verilog_cores.Host.Incoming.{carried, in_host, Passes, one_cycle, both}
use misc_verilog_cores.Host.Incoming.Token.{alone}
use misc_verilog_cores.Host.Incoming.Packet.{throttling, received, then_more, body-Brings}
use misc_verilog_cores.Host.Incoming.Start.{up_step}

-- The check writes the two bytes of the CRC only.
checked_only :
    (y : Transfer) (d : List ℕ)
    → checked y d ≡ record y { crc1 = (checked y d).crc1; crc2 = (checked y d).crc2 }
checked_only y [] = refl
checked_only y (a ∷ d) = refl

-- The transfer behind a packet with the bytes `w`, `n` of them data.
abbrev pub after_packet : Transfer → List ℕ → ℕ → ℕ → ℕ → Transfer
after_packet x w n c1 c2 = record (stopped x w n) { crc1 = c1; crc2 = c2 }

-- The stop turns the bus around; four cycles end the packet.
abbrev pub end_script : List (Option Bus)
end_script = some (phy_bus 1 0 0x00 0xFF) ∷ alone 3

module _ (rand : ℕ → ℕ) (host : Host) (x : Transfer) (t : XferType) (up : is_up_data t ≡ true) where
  -- The body from its first byte.
  pub first-Brings :
      (first : Bus) (inps : List Bus) (k : ℕ) (bus : Bus)
      → first.nxt ≡ sig1
      → All InBody (first ∷ inps)
      → All Released (first ∷ inps)
      → suc (length (taken inps)) ≤ length x.rx
      → k + suc (length inps) < 4294967296
      → (o : Bus) × Passes rand host
          (map some (first ∷ inps))
          k
          (body t x x.rx 0)
          bus
          (k + length (first ∷ inps))
          (body t x (filled x (first.dat.a ∷ taken inps)) (length (first.dat.a ∷ taken inps)))
          o
          []
  first-Brings first inps k bus n h r fits small =
      let y = body t x (set x.rx 0 first.dat.a) 1 in
      let (o, rest) =
        body-Brings rand host x t up inps (set x.rx 0 first.dat.a) 1 (k + 1)
          (throttling (rand k) y first) h.1 r.1 (omega (arith, length-set x.rx 0 first.dat.a))
          (omega arith) (omega arith) in
      let count : 1 + length (taken inps) ≡ suc (length (taken inps)) = omega arith in
      (
        o,
        subst
            (λ (c : ℕ).
              Passes rand host (map some (first ∷ inps)) k (body t x x.rx 0) bus
                (k + length (first ∷ inps)) (body t x (filled x (first.dat.a ∷ taken inps)) c) o [])
            count
            (then_more rand host x t up first inps k (body t x x.rx 0) y _ bus first o r.0
              (omega arith)
              (body_step t x x.rx 0 first first up h.0.0
                ∙ body_take x x.rx t 0 first h.0.1 n (omega arith))
              (omega arith) h.0.0 rest),
      )

  pub stop_taken :
      (w d : List ℕ) (stop : Bus)
      → w ≡ d ++ trailer d
      → length w ≤ length x.rx
      → stop.dir ≡ sig0
      → stop.stp ≡ sig1
      → (c1 : ℕ) × (c2 : ℕ) × (datax_recv_step (body t x (filled x w) (length w)) stop stop
          ≡ stepped (pos 0) (after_packet (record x { type = t }) w (length d) c1 c2) (turned stop))
  stop_taken w d stop e fits down stp =
      let z : Transfer = record x { type = t } in
      let y = stopped z w (length d) in
      let size : length w ≡ length d + 2 = ap length e ∙ length-append d (trailer d) in
      let good =
        check_by_good y d (sym size) (omega (arith, length-set_all x.rx 0 w))
          (take-filled z w fits ∙ e)
        ∙ ap (λ (u : Transfer). ok (true, u)) (checked_only y d) in
      (
        (checked y d).crc1,
        (checked y d).crc2,
        body_step t x (filled x w) (length w) stop stop up down
            ∙ stop_lem z w (length d) stop stp size
            ∙ rw good refl,
      )

packet_ends :
    (t : XferType) (host : Host) (r k : ℕ) (z : Transfer)
    → is_up_data t ≡ true
    → z.rx_ptr ≢ 0
    → bulk_in_step r
        (in_host host k (at t line_idle z))
        (phy_bus 0 0 0x00 0xFF)
        (phy_bus 0 0 0x00 0xFF)
      ≡ stepped (pos 0) (in_host host k (at dn_ack no_xfer z)) (phy_bus 0 0 0x00 0xFF)
unfolding bulk_in_step datax_recv_step datax_recv_at drive_eop
packet_ends up_data0 host r k z d n = ground arith
packet_ends up_data1 host r k z d n = ground arith
packet_ends _ host r k z d n = cc

module _ (rand : ℕ → ℕ) (host : Host) (t : XferType) (up : is_up_data t ≡ true) (z : Transfer)
    (some_bytes : z.rx_ptr ≢ 0) where
  end_cycle :
      (l : Option Bus) (k : ℕ) (st st' : XferStage) (bus o : Bus)
      → (carried l bus).rst_n ≡ sig1
      → k + 1 < 4294967296
      → datax_recv_at st (at t st z) (carried l bus) (carried l bus)
        ≡ stepped (pos 0) (at t st' z) o
      → o.nxt ≡ sig0
      → Passes rand host (l ∷ []) k (at t st z) bus (k + 1) (at t st' z) o []
  end_cycle l k st st' bus o r h step n =
      let same : throttling (rand k) (at t st' z) o ≡ o = ground arith in
      let none_seen : seen o ≡ [] = ground arith in
      subst (λ (b : List ℕ). Passes rand host (l ∷ []) k (at t st z) bus (k + 1) (at t st' z) o b)
        none_seen
        (one_cycle rand host l k (at t st z) (at t st' z) bus o r h (
          received t host (rand k) (k + 1) (at t st z) (at t st' z) (carried l bus) o up
            (up_step t (record z { stage = st }) (carried l bus) (carried l bus) up ∙ step)
            (ground arith)
          ∙ ap (λ (b : Bus). stepped (pos 0) (in_host host (k + 1) (at t st' z)) b) same))

  pub end-Passes :
      (k : ℕ) (bus : Bus)
      → k + 4 < 4294967296
      → Passes rand host end_script k
          (at t datax_stop z)
          bus
          (k + 1 + 1 + 1 + 1)
          (at dn_ack no_xfer z)
          (phy_bus 0 0 0x00 0xFF)
          []
  unfolding datax_recv_at drive_eop
  end-Passes k bus h =
      let turn : Bus = phy_bus 1 0 0x00 0xFF in
      both rand host
        (end_cycle (some turn) k datax_stop end_rxcmd bus (phy_bus 1 0 0x4C 0x00) refl (omega arith)
          refl refl)
        (both rand host
          (end_cycle none _ end_rxcmd eop (phy_bus 1 0 0x4C 0x00) (phy_bus 1 0 0x4D 0x00) refl
            (omega arith) refl refl)
          (both rand host
            (end_cycle none _ eop line_idle (phy_bus 1 0 0x4D 0x00) (phy_bus 0 0 0x00 0xFF) refl
              (omega arith) refl refl)
            (one_cycle rand host none _ (at t line_idle z) (at dn_ack no_xfer z)
              (phy_bus 0 0 0x00 0xFF) (phy_bus 0 0 0x00 0xFF) refl (omega arith)
              (packet_ends t host _ _ z up some_bytes))))
