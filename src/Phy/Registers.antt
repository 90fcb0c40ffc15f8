-- ===== src/Phy/Registers.antt =====
-- The registers of the PHY of vpi/usb/ulpiphy.c, over the cycles of a write and a read.
use misc_verilog_cores.Base.{
  ℕ, ◌+◌, ◌≤◌, ◌<◌, ◌≡◌, refl, ap, ◌∙◌, bit_and, Bool, true, ◌&&◌, ◌==◌, if◌then◌else◌, pos, fault,
  bounds, List, [], ◌∷◌, ◌++◌, length, get_or, set, length-set, get_or-set_self, all_below,
  all_below-apply, arith,
}
use misc_verilog_cores.Base.Bits.{and-mask}
use misc_verilog_cores.Ulpi.{sig0, sig1, byte, Bus, ulpi_bus_is_idle, stepped}
use misc_verilog_cores.Phy.{
  Phy, PhyOp, phy_idle, phy_regw, phy_regi, phy_stop, phy_regr, phy_regz, phy_rego,
  uphy_reg_fn_ctrl,
}
use misc_verilog_cores.Phy.Command.{uphy_txcmd_step, phy_done}
use misc_verilog_cores.Phy.Step.{uphy_step, uphy_op_step}
use misc_verilog_cores.Phy.Run.{phy_run, phy_next, phy_take}

-- A cycle in which the link drives `a`, with the levels of STP and NXT.
abbrev pub link_cycle : ℕ → ℕ → ℕ → Bus
link_cycle stp nxt a = record {
  clock = sig1;
  rst_n = sig1;
  dir = sig0;
  stp = stp;
  nxt = nxt;
  dat = byte a 0x00;
}

-- A register write: TX CMD twice, the data, STP, and an idle cycle.
abbrev pub write_cycles : ℕ → ℕ → List Bus
write_cycles r x =
    link_cycle 0 0 (0x80 + r)
    ∷ link_cycle 0 1 (0x80 + r)
    ∷ link_cycle 0 1 x
    ∷ link_cycle 1 0 0
    ∷ link_cycle 0 0 0
    ∷ []

-- A register read up to the cycle in which the PHY drives the data.
abbrev pub read_cycles : ℕ → List Bus
read_cycles r = link_cycle 0 0 (0xC0 + r) ∷ link_cycle 0 1 0 ∷ link_cycle 0 0 0 ∷ []

abbrev command_bits : ℕ → Bool
command_bits r = bit_and (0x80 + r) 0xC0 == 0x80 && (bit_and (0xC0 + r) 0xC0 == 0xC0)

command_table : all_below 64 command_bits ≡ true
unfolding all_below
command_table = refl

write_bits : (r : ℕ) → r < 64 → (bit_and (0x80 + r) 0xC0 ≡ 0x80) × (bit_and (0x80 + r) 0x3F ≡ r)
write_bits r h =
    let row = all_below-apply 64 command_bits r h command_table in
    (ground (arith, row), omega (arith, and-mask 6 (0x80 + r)))

read_bits : (r : ℕ) → r < 64 → (bit_and (0xC0 + r) 0xC0 ≡ 0xC0) × (bit_and (0xC0 + r) 0x3F ≡ r)
read_bits r h =
    let row = all_below-apply 64 command_bits r h command_table in
    (ground (arith, row), omega (arith, and-mask 6 (0xC0 + r)))

-- The PHY at an operation, with its register number, its registers and its bus.
abbrev at_register : Phy → PhyOp → ℕ → Phy
at_register phy o r = record phy { state = record (phy.state) { op = o; regnum = r } }

take_write :
    (phy : Phy) (r : ℕ) (out : Bus)
    → phy.state.op ≡ phy_idle
    → ulpi_bus_is_idle phy.bus ≡ true
    → r < 64
    → uphy_step phy (link_cycle 0 0 (0x80 + r)) out
      ≡ stepped (pos 0) (at_register phy phy_regw r) (link_cycle 0 1 (0x80 + r))
unfolding uphy_step uphy_op_step uphy_txcmd_step
take_write phy r out op idle h =
    let bits = write_bits r h in rw (op, idle) (ground (arith, bits.0, bits.1))

take_read :
    (phy : Phy) (r : ℕ) (out : Bus)
    → phy.state.op ≡ phy_idle
    → ulpi_bus_is_idle phy.bus ≡ true
    → r < 64
    → uphy_step phy (link_cycle 0 0 (0xC0 + r)) out
      ≡ stepped (pos 0) (at_register phy phy_regr r) (link_cycle 0 1 (0xC0 + r))
unfolding uphy_step uphy_op_step uphy_txcmd_step
take_read phy r out op idle h =
    let bits = read_bits r h in rw (op, idle) (ground (arith, bits.0, bits.1))

-- The PHY with the register written.
abbrev pub written : Phy → ℕ → ℕ → Phy
written phy r x = record phy {
  state = record (phy.state) {
    regnum = r;
    update = if r == uphy_reg_fn_ctrl then 1 else 0;
    regs = set phy.state.regs r x;
  };
}

store_data :
    (phy : Phy) (r x : ℕ) (out : Bus)
    → r < length phy.state.regs
    → uphy_step (at_register phy phy_regi r) (link_cycle 0 1 x) out
      ≡ phy_done (at_register (written phy r x) phy_stop r) (link_cycle 0 0 x)
unfolding uphy_step uphy_op_step
store_data phy r x out h = ground arith

drive_data :
    (phy : Phy) (r : ℕ) (out : Bus)
    → r < length phy.state.regs
    → let o : Bus = record (link_cycle 0 1 (get_or phy.state.regs r 0)) { dir = sig1 } in
      uphy_step (at_register phy phy_regz r) (link_cycle 0 0 0) out
      ≡ stepped (pos 0) (record (at_register phy phy_rego r) { bus = o }) o
unfolding uphy_step uphy_op_step phy_done
drive_data phy r out h = ground arith

end_write :
    (phy : Phy) (r : ℕ) (out : Bus) (inps : List Bus)
    → phy_run (link_cycle 1 0 0 ∷ link_cycle 0 0 0 ∷ inps) (at_register phy phy_stop r) out
      ≡ phy_run inps
          (record (at_register phy phy_idle r) { bus = link_cycle 0 0 0 })
          (link_cycle 0 0 0)
unfolding uphy_step uphy_op_step phy_done ulpi_bus_is_idle
end_write phy r out inps =
    phy_next (at_register phy phy_stop r) (at_register phy phy_idle r) (link_cycle 1 0 0) out
      (link_cycle 1 0 0) (link_cycle 0 0 0 ∷ inps) refl
    ∙ phy_next (record (at_register phy phy_idle r) { bus = link_cycle 1 0 0 })
        (at_register phy phy_idle r) (link_cycle 0 0 0) (link_cycle 1 0 0) (link_cycle 0 0 0) inps
        refl

store_fails :
    (phy : Phy) (r x : ℕ) (out : Bus) (inps : List Bus)
    → length phy.state.regs ≤ r
    → phy_run (link_cycle 0 1 x ∷ inps) (at_register phy phy_regi r) out ≡ fault bounds
unfolding uphy_step uphy_op_step phy_run
store_fails phy r x out inps h = ground arith

module _ (phy : Phy) (r x : ℕ) (out : Bus) (op : phy.state.op ≡ phy_idle)
    (idle : ulpi_bus_is_idle phy.bus ≡ true) where
  -- A register write from an idle PHY and bus ends with an idle PHY and bus.
  pub write_run :
      (inps : List Bus)
      → r < 64
      → r < length phy.state.regs
      → phy_run (write_cycles r x ++ inps) phy out
        ≡ phy_run inps
            (record (at_register (written phy r x) phy_idle r) { bus = link_cycle 0 0 0 })
            (link_cycle 0 0 0)
  unfolding uphy_step uphy_op_step phy_done
  write_run inps h fits =
      let first = link_cycle 0 1 (0x80 + r) in
      let rest = link_cycle 1 0 0 ∷ link_cycle 0 0 0 ∷ inps in
      phy_take phy (at_register phy phy_regw r) (link_cycle 0 0 (0x80 + r)) out first
        (first ∷ link_cycle 0 1 x ∷ rest) (take_write phy r out op idle h)
      ∙ phy_next (at_register phy phy_regw r) (at_register phy phy_regi r) first first first
          (link_cycle 0 1 x ∷ rest) refl
      ∙ phy_next (record (at_register phy phy_regi r) { bus = first })
          (at_register (written phy r x) phy_stop r) (link_cycle 0 1 x) first (link_cycle 0 0 x)
          rest (store_data (record phy { bus = first }) r x first fits)
      ∙ end_write (record (written phy r x) { bus = link_cycle 0 0 x }) r (link_cycle 0 0 x) inps

  -- A register read from an idle PHY and bus: the PHY drives what is in the register.
  pub read_run :
      r < 64
      → r < length phy.state.regs
      → phy_run (read_cycles r) phy out
        ≡ stepped
            (pos 0)
            (record (at_register phy phy_rego r) {
              bus = record (link_cycle 0 1 (get_or phy.state.regs r 0)) { dir = sig1 };
            })
            (record (link_cycle 0 1 (get_or phy.state.regs r 0)) { dir = sig1 })
  unfolding uphy_step uphy_op_step phy_run phy_done
  read_run h fits =
      let turn : Bus = record (link_cycle 0 0 0) { dir = sig1; dat = byte 0x00 0xFF } in
      phy_take phy (at_register phy phy_regr r) (link_cycle 0 0 (0xC0 + r)) out
        (link_cycle 0 1 (0xC0 + r)) (link_cycle 0 1 0 ∷ link_cycle 0 0 0 ∷ [])
        (take_read phy r out op idle h)
      ∙ phy_next (at_register phy phy_regr r) (at_register phy phy_regz r) (link_cycle 0 1 0)
          (link_cycle 0 1 (0xC0 + r)) turn (link_cycle 0 0 0 ∷ []) refl
      ∙ phy_take (record (at_register phy phy_regz r) { bus = turn }) _ (link_cycle 0 0 0) turn
          (record (link_cycle 0 1 (get_or phy.state.regs r 0)) { dir = sig1 }) []
          (drive_data (record phy { bus = turn }) r turn fits)

-- A register that was written is read back: from an idle PHY and bus, the cycles of a write of any
-- byte and then those of a read of the same register end with that byte on the bus, and the PHY has
-- the register set and every other as it was. This is so for every register number that the array
-- of registers has.
pub register_round_trip :
    (phy : Phy) (r x : ℕ) (out : Bus)
    → phy.state.op ≡ phy_idle
    → ulpi_bus_is_idle phy.bus ≡ true
    → r < 64
    → r < length phy.state.regs
    → (q : Phy) × (o : Bus) × (phy_run (write_cycles r x ++ read_cycles r) phy out
        ≡ stepped (pos 0) q o)
      × (o.dir ≡ sig1)
      × (o.dat ≡ byte x 0x00)
      × (q.state.regs ≡ set phy.state.regs r x)
unfolding ulpi_bus_is_idle
register_round_trip phy r x out op idle h fits =
    let regs : List ℕ = set phy.state.regs r x in
    let size : length regs ≡ length phy.state.regs = length-set phy.state.regs r x in
    (
      _,
      _,
      write_run phy r x out op idle (read_cycles r) h fits
          ∙ read_run (record (at_register (written phy r x) phy_idle r) { bus = link_cycle 0 0 0 })
              r x (link_cycle 0 0 0) refl refl h (omega (arith, size)),
      refl,
      ap (λ (v : ℕ). byte v 0x00) (get_or-set_self phy.state.regs r x 0 fits),
      refl,
    )

-- The register number of a TX CMD has six bits and the PHY ten registers: a write to any number
-- that the array does not have is a write outside it.
pub register_overrun :
    (phy : Phy) (r x : ℕ) (out : Bus)
    → phy.state.op ≡ phy_idle
    → ulpi_bus_is_idle phy.bus ≡ true
    → r < 64
    → length phy.state.regs ≤ r
    → phy_run (write_cycles r x) phy out ≡ fault bounds
unfolding uphy_step uphy_op_step phy_done
register_overrun phy r x out op idle h over =
    let first = link_cycle 0 1 (0x80 + r) in
    phy_take phy _ _ out _ _ (take_write phy r out op idle h)
    ∙ phy_next _ (at_register phy phy_regi r) first _ first
        (link_cycle 0 1 x ∷ link_cycle 1 0 0 ∷ link_cycle 0 0 0 ∷ []) refl
    ∙ store_fails (record phy { bus = first }) r x first (link_cycle 1 0 0 ∷ link_cycle 0 0 0 ∷ [])
        over
