-- ===== src/Phy/ChirpCycles.antt =====
-- The cycles of one chirp of the PHY of vpi/usb/ulpiphy.c, with a quiet link.
use native.Mathlib.Nat.{suc-add, zero-add}
use misc_verilog_cores.Base.{
  ℕ, zero, suc, ◌+◌, ◌≤◌, ◌<◌, ◌≡◌, refl, ◌∙◌, bit_and, bit_or, ◌||◌, ◌==◌, if◌then◌else◌, pos,
  negsuc, Result, ok, ◌>>=◌, length, get_or, arith,
}
use misc_verilog_cores.Ulpi.{
  sig0, sig1, byte, Bus, ulpi_bus_idle, ulpi_bus_is_idle, Stepped, stepped,
}
use misc_verilog_cores.Phy.{Phy, PhyOp, phy_idle, status_rxcmd, wait_for_idle, ulpi_phy_is_chirp}
use misc_verilog_cores.Phy.Command.{phy_done}
use misc_verilog_cores.Phy.Step.{uphy_step, uphy_op_step}

-- A link that drives zero whenever the PHY does not drive the bus.
abbrev pub quiet_link : Bus → Bus
quiet_link bus = if bus.dir == sig1 then bus else record bus { stp = sig0; dat = byte 0x00 0x00 }

-- One call for each clock edge, as long as the result is 0.
abbrev carry_on : (Phy → Bus → Result (Stepped Phy)) → Stepped Phy → Result (Stepped Phy)
carry_on rest s = elim s.code [
  | pos zero ↦ rest s.state s.out
  | pos (suc n) ↦ ok s
  | negsuc n ↦ ok s
]

-- The PHY and the link on one bus, for at most so many cycles.
unfoldable pub phy_with_link : ℕ → Phy → Bus → Result (Stepped Phy)
phy_with_link zero phy bus = stepped (pos 0) phy bus
phy_with_link (suc n) phy bus = uphy_step phy (quiet_link bus) bus >>= carry_on (phy_with_link n)

-- An idle PHY with a speed and a timer.
abbrev pub chirping : Phy → ℕ → ℕ → Phy
chirping phy v t = record phy {
  state = record (phy.state) { op = phy_idle; timer = t; update = 0; speed = v };
  bus = ulpi_bus_idle;
}

pub link_next :
    (n : ℕ) (phy q : Phy) (bus o : Bus)
    → uphy_step phy (quiet_link bus) bus ≡ stepped (pos 0) q o
    → phy_with_link (suc n) phy bus ≡ phy_with_link n q o
unfolding phy_with_link
link_next n phy q bus o e = rw e refl

pub count_step :
    (phy : Phy) (v t : ℕ) (out : Bus)
    → 3 ≤ v
    → v ≤ 8
    → t < 29
    → uphy_step (chirping phy v t) ulpi_bus_idle out
      ≡ stepped (pos 0) (chirping phy v (t + 1)) ulpi_bus_idle
unfolding uphy_step uphy_op_step phy_done ulpi_bus_is_idle
count_step phy v t out low high h = ground arith

pub count :
    (k n : ℕ) (phy : Phy) (v t : ℕ)
    → 3 ≤ v
    → v ≤ 8
    → t + k ≡ 29
    → phy_with_link (k + n) (chirping phy v t) ulpi_bus_idle
      ≡ phy_with_link n (chirping phy v 29) ulpi_bus_idle
count zero n phy v t low high e = let same : t ≡ 29 = omega arith in rw (zero-add n, same) refl
count (suc k) n phy v t low high e =
    let one : t + 1 ≡ suc t = omega arith in
    rw (suc-add k n) (
      link_next (k + n) (chirping phy v t) (chirping phy v (t + 1)) ulpi_bus_idle ulpi_bus_idle
        (count_step phy v t ulpi_bus_idle low high (omega arith))
      ∙ rw one (count k n phy v (suc t) low high (omega arith)))

-- The PHY between the 30 cycles of a chirp and the next: the last cycle of the count, the
-- turn-around, and the RX CMD of the new chirp.
abbrev pub counted : Phy → ℕ → PhyOp → Bus → Phy
counted phy v o bus = record phy {
  state = record (phy.state) { op = o; timer = 30; update = 1; speed = v };
  bus = bus;
}

abbrev pub turned : Bus
turned = record ulpi_bus_idle { dir = sig1; dat = byte 0x00 0xFF }

pub last_count :
    (phy : Phy) (v : ℕ) (out : Bus)
    → 3 ≤ v
    → v ≤ 7
    → uphy_step (chirping phy v 29) ulpi_bus_idle out
      ≡ stepped (pos 0) (counted phy (v + 1) phy_idle ulpi_bus_idle) ulpi_bus_idle
unfolding uphy_step uphy_op_step phy_done ulpi_bus_is_idle
last_count phy v out low high = ground arith

pub turn_step :
    (phy : Phy) (v : ℕ) (out : Bus)
    → v ≤ 8
    → uphy_step (counted phy v phy_idle ulpi_bus_idle) ulpi_bus_idle out
      ≡ stepped (pos 0) (counted phy v status_rxcmd turned) turned
unfolding uphy_step uphy_op_step phy_done ulpi_bus_is_idle
turn_step phy v out high = ground arith

-- The transceiver is set to chirps.
abbrev pub IsChirping : Phy → Type 0
IsChirping phy = (4 < length phy.state.regs) × (bit_and (get_or phy.state.regs 4 0) 0x1C ≡ 0x14)

-- The PHY after the RX CMD `x`.
abbrev pub announced : Phy → ℕ → ℕ → Bus → Phy
announced phy v x bus = record phy {
  state = record (phy.state) { op = wait_for_idle; rx_cmd = x; timer = 0; update = 0; speed = v };
  bus = bus;
}

abbrev pub rx_bus : ℕ → Bus
rx_bus x = record ulpi_bus_idle { dir = sig1; dat = byte x 0x00 }

-- The line state that the PHY reports at a speed: K or J.
abbrev pub line_of : ℕ → ℕ
line_of v = if v == 3 || (v == 5 || v == 7) then 0x01 else 0x02

pub status_of :
    (phy : Phy) (v : ℕ) (out : Bus)
    → 3 ≤ v
    → v ≤ 8
    → IsChirping phy
    → let x = bit_or (bit_and phy.state.rx_cmd 0xFC) (line_of v) in
      uphy_step (counted phy v status_rxcmd turned) turned out
      ≡ stepped (pos 0) (announced phy v x (rx_bus x)) (rx_bus x)
unfolding uphy_step uphy_op_step phy_done ulpi_phy_is_chirp
status_of phy v out low high c = ground arith

abbrev pub free : Bus
free = record ulpi_bus_idle { dat = byte 0x00 0xFF }

-- The PHY lets go of the bus, and the link drives it again.
pub release_step :
    (phy : Phy) (v x : ℕ) (out : Bus)
    → uphy_step (announced phy v x (rx_bus x)) (rx_bus x) out
      ≡ stepped (pos 0) (announced phy v x free) free
unfolding uphy_step uphy_op_step phy_done ulpi_bus_is_idle
release_step phy v x out = ground arith

-- The PHY with another RX CMD.
abbrev pub with_rx_cmd : Phy → ℕ → Phy
with_rx_cmd phy x = record phy { state = record (phy.state) { rx_cmd = x } }

pub resume_step :
    (phy : Phy) (v x : ℕ) (out : Bus)
    → v ≤ 8
    → uphy_step (announced phy v x free) ulpi_bus_idle out
      ≡ stepped (pos 0) (chirping (with_rx_cmd phy x) v 0) ulpi_bus_idle
unfolding uphy_step uphy_op_step phy_done ulpi_bus_is_idle
resume_step phy v x out high = ground arith
