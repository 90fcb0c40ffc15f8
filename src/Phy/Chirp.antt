-- ===== src/Phy/Chirp.antt =====
-- The chirps with which the PHY of vpi/usb/ulpiphy.c gets to high speed.
use misc_verilog_cores.Base.{
  ℕ, zero, suc, ◌+◌, ◌*◌, ◌≤◌, ◌≡◌, refl, ap, ap₂, ◌∙◌, bit_and, bit_or, pos, arith,
}
use misc_verilog_cores.Ulpi.{Bus, ulpi_bus_idle, ulpi_bus_is_idle, stepped}
use misc_verilog_cores.Phy.{Phy, PhyOp, phy_idle, status_rxcmd, host_chirp_k1, high_speed}
use misc_verilog_cores.Phy.Command.{phy_done}
use misc_verilog_cores.Phy.Step.{uphy_step, uphy_op_step}
use misc_verilog_cores.Phy.ChirpCycles.{
  link_next, count, counted, turned, last_count, turn_step, announced, rx_bus, line_of, status_of,
  free, release_step, with_rx_cmd, resume_step, phy_with_link, chirping, IsChirping,
}

-- One chirp: 34 cycles to the next.
one_chirp :
    (n : ℕ) (phy : Phy) (v : ℕ)
    → 3 ≤ v
    → v ≤ 7
    → IsChirping phy
    → let x = bit_or (bit_and phy.state.rx_cmd 0xFC) (line_of (v + 1)) in
      phy_with_link (29 + suc (suc (suc (suc (suc n))))) (chirping phy v 0) ulpi_bus_idle
      ≡ phy_with_link n (chirping (with_rx_cmd phy x) (v + 1) 0) ulpi_bus_idle
one_chirp n phy v low high c =
    let w = v + 1 in
    let x = bit_or (bit_and phy.state.rx_cmd 0xFC) (line_of w) in
    count 29 (suc (suc (suc (suc (suc n))))) phy v 0 low (omega arith) (omega arith)
    ∙ link_next (suc (suc (suc (suc n)))) (chirping phy v 29) (counted phy w phy_idle ulpi_bus_idle)
        ulpi_bus_idle ulpi_bus_idle (last_count phy v ulpi_bus_idle low high)
    ∙ link_next (suc (suc (suc n))) (counted phy w phy_idle ulpi_bus_idle)
        (counted phy w status_rxcmd turned) ulpi_bus_idle turned
        (turn_step phy w ulpi_bus_idle (omega arith))
    ∙ link_next (suc (suc n)) (counted phy w status_rxcmd turned) (announced phy w x (rx_bus x))
        turned (rx_bus x) (status_of phy w turned (omega arith) (omega arith) c)
    ∙ link_next (suc n) (announced phy w x (rx_bus x)) (announced phy w x free) (rx_bus x) free
        (release_step phy w x (rx_bus x))
    ∙ link_next n (announced phy w x free) (chirping (with_rx_cmd phy x) w 0) free ulpi_bus_idle
        (resume_step phy w x free (omega arith))

abbrev AtHighSpeed : ℕ → Phy → Type 0
AtHighSpeed cycles phy =
    (q : Phy) × (o : Bus) × (phy_with_link cycles phy ulpi_bus_idle ≡ stepped (pos 1) q o)
    × (q.state.op ≡ phy_idle)
    × (q.state.speed ≡ high_speed)
    × (q.state.regs ≡ phy.state.regs)

-- The last count ends at high speed.
last_chirp : (phy : Phy) → AtHighSpeed 30 (chirping phy 8 0)
unfolding phy_with_link uphy_step uphy_op_step phy_done ulpi_bus_is_idle
last_chirp phy = (
  record phy {
    state = record (phy.state) { op = phy_idle; timer = 30; update = 1; speed = 9 };
    bus = ulpi_bus_idle;
  },
  ulpi_bus_idle,
  count 29 1 phy 8 0 (omega arith) (omega arith) refl ∙ refl,
  refl,
  refl,
  refl,
)

chirps :
    (left : ℕ) (phy : Phy) (v : ℕ)
    → 3 ≤ v
    → v + left ≡ 8
    → IsChirping phy
    → AtHighSpeed (34 * left + 30) (chirping phy v 0)
chirps zero phy v low e c =
    let same : v ≡ 8 = omega arith in
    let (q, o, run, op, fast, regs) = last_chirp phy in (q, o, rw same run, op, fast, regs)
chirps (suc left) phy v low e c =
    let n = 34 * left + 30 in
    let x = bit_or (bit_and phy.state.rx_cmd 0xFC) (line_of (v + 1)) in
    let (q, o, run, op, fast, regs) =
      chirps left (with_rx_cmd phy x) (v + 1) (omega arith) (omega arith) c in
    let fuel : 34 * suc left + 30 ≡ 29 + suc (suc (suc (suc (suc n)))) = omega arith in
    (q, o, rw fuel (one_chirp n phy v low (omega arith) c ∙ run), op, fast, regs)

-- The negotiation ends: from the first K chirp of the host, with a link that leaves the bus alone
-- and the transceiver set to chirps, the PHY goes through all of its K and J chirps and returns 1
-- within 200 cycles, idle at high speed and with its registers as they were.
pub chirps_end :
    (phy : Phy)
    → phy.state.op ≡ phy_idle
    → phy.state.timer ≡ 0
    → phy.state.update ≡ 0
    → phy.state.speed ≡ host_chirp_k1
    → phy.bus ≡ ulpi_bus_idle
    → IsChirping phy
    → (q : Phy) × (o : Bus) × (phy_with_link 200 phy ulpi_bus_idle ≡ stepped (pos 1) q o)
      × (q.state.op ≡ phy_idle)
      × (q.state.speed ≡ high_speed)
      × (q.state.regs ≡ phy.state.regs)
chirps_end phy op t u v b c =
    let (q, o, run, idle, fast, regs) = chirps 5 phy 3 (omega arith) refl c in
    let same : phy ≡ chirping phy 3 0 =
      ap (λ (g : PhyOp). record phy { state = record (phy.state) { op = g } }) op
      ∙ ap₂
          (λ (k l : ℕ). record phy {
            state = record (phy.state) { op = phy_idle; timer = k; update = l };
          })
          t u
      ∙ ap₂
          (λ (k : ℕ) (g : Bus). record phy {
            state = record (phy.state) { op = phy_idle; timer = 0; update = 0; speed = k };
            bus = g;
          })
          v b in
    (q, o, ap (λ (p : Phy). phy_with_link 200 p ulpi_bus_idle) same ∙ run, idle, fast, regs)
