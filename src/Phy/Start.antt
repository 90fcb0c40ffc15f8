-- ===== src/Phy/Start.antt =====
-- The start of the PHY of vpi/usb/ulpiphy.c, from reset to idle.
use misc_verilog_cores.Base.{
  ℕ, zero, suc, ◌+◌, ◌<◌, ◌≡◌, refl, ◌∙◌, pos, ◌&&◌, ◌==◌, if◌then◌else◌, List, [], ◌∷◌, ◌++◌,
  length, All, arith,
}
use misc_verilog_cores.Ulpi.{sig0, sig1, Bus, stepped}
use misc_verilog_cores.Phy.{Phy, ref_clk_valid, starting, phy_idle, uphy_reset, ulpi_reg_defaults}
use misc_verilog_cores.Phy.Command.{phy_done, at_op, timed}
use misc_verilog_cores.Phy.Step.{uphy_step, uphy_op_step}
use misc_verilog_cores.Phy.Run.{phy_run, phy_next}

-- A clock edge out of reset with the data lines driven to zero.
abbrev pub Quiet : Bus → Type 0
Quiet inp = (inp.clock ≡ sig1) × (inp.rst_n ≡ sig1) × (inp.dat.a ≡ 0) × (inp.dat.b ≡ 0)

reset_cycle :
    (phy : Phy) (inp out : Bus)
    → inp.rst_n ≡ sig0
    → inp.clock ≡ sig1
    → inp.dir ≡ sig0
    → inp.nxt ≡ sig0
    → uphy_step phy inp out ≡ phy_done (at_op ref_clk_valid (uphy_reset phy)) inp
unfolding uphy_step uphy_op_step uphy_reset phy_done
reset_cycle phy inp out r c d n = rw (r, c, d, n) refl

start_cycle :
    (phy : Phy) (inp out : Bus)
    → phy.state.op ≡ ref_clk_valid
    → Quiet inp
    → uphy_step phy inp out ≡ phy_done (at_op starting (timed 0 phy)) inp
unfolding uphy_step uphy_op_step
start_cycle phy inp out op q = ground arith

count_cycle :
    (phy : Phy) (inp out : Bus)
    → phy.state.op ≡ starting
    → Quiet inp
    → phy.state.timer < 150
    → uphy_step phy inp out ≡ phy_done (timed (phy.state.timer + 1) phy) inp
unfolding uphy_step uphy_op_step phy_done
count_cycle phy inp out op q h = ground arith

last_cycle :
    (phy : Phy) (inp out : Bus)
    → phy.state.op ≡ starting
    → Quiet inp
    → phy.state.timer ≡ 150
    → uphy_step phy inp out ≡ phy_done (at_op phy_idle (timed 151 phy)) inp
unfolding uphy_step uphy_op_step phy_done
last_cycle phy inp out op q h = ground arith

abbrev IdleWithDefaults : List Bus → Phy → Bus → Type 0
IdleWithDefaults inps phy out =
    (q : Phy) × (o : Bus) × (phy_run inps phy out ≡ stepped (pos 0) q o)
    × (q.state.op ≡ phy_idle)
    × (q.state.regs ≡ phy.state.regs)

count_up :
    (left : ℕ) (inps : List Bus) (phy : Phy) (out : Bus)
    → length inps ≡ suc left
    → phy.state.timer + left ≡ 150
    → phy.state.op ≡ starting
    → All Quiet inps
    → IdleWithDefaults inps phy out
count_up left [] phy out n e op q = absurd (omega arith)
count_up zero (inp ∷ []) phy out n e op q = (
  record (at_op phy_idle (timed 151 phy)) { bus = inp },
  inp,
  phy_next phy (at_op phy_idle (timed 151 phy)) inp out inp []
        (last_cycle phy inp out op q.0 (omega arith))
      ∙ (unfold phy_run in refl),
  refl,
  refl,
)
count_up zero (inp ∷ inp' ∷ inps) phy out n e op q = absurd (omega arith)
count_up (suc left) (inp ∷ inps) phy out n e op q =
    let next = timed (phy.state.timer + 1) phy in
    let (r, o, run, idle, regs) =
      count_up left inps (record next { bus = inp }) inp (omega arith) (omega arith) op q.1 in
    (
      r,
      o,
      phy_next phy next inp out inp inps (count_cycle phy inp out op q.0 (omega arith)) ∙ run,
      idle,
      regs,
    )

-- A cycle of reset, whatever the other signals are.
abbrev pub InReset : Bus → Type 0
InReset inp = (inp.rst_n ≡ sig0) × (inp.clock ≡ sig1)

-- The PHY stays in its first state unless DIR and NXT are low.
any_reset :
    (phy : Phy) (inp out : Bus)
    → InReset inp
    → uphy_step phy inp out
      ≡ phy_done
          (if inp.dir == sig0 && inp.nxt == sig0
            then at_op ref_clk_valid (uphy_reset phy)
            else uphy_reset phy)
          (record inp { dir = sig0; nxt = sig0 })
unfolding uphy_step uphy_op_step uphy_reset phy_done
any_reset phy inp out r = rw (r.0, r.1) refl

from_reset :
    (reset : Bus) (inps : List Bus) (phy : Phy) (out : Bus)
    → reset.rst_n ≡ sig0
    → reset.clock ≡ sig1
    → reset.dir ≡ sig0
    → reset.nxt ≡ sig0
    → All Quiet inps
    → length inps ≡ 152
    → (q : Phy) × (o : Bus) × (phy_run (reset ∷ inps) phy out ≡ stepped (pos 0) q o)
      × (q.state.op ≡ phy_idle)
      × (q.state.regs ≡ ulpi_reg_defaults)
from_reset reset [] phy out r c d n q h = absurd (omega arith)
from_reset reset (inp ∷ inps) phy out r c d n q h =
    let first : Phy = record (at_op ref_clk_valid (uphy_reset phy)) { bus = reset } in
    let begun : Phy = record (at_op starting (timed 0 first)) { bus = inp } in
    let (p, o, run, idle, regs) = count_up 150 inps begun inp (omega arith) refl refl q.1 in
    (
      p,
      o,
      phy_next phy (at_op ref_clk_valid (uphy_reset phy)) reset out reset (inp ∷ inps)
            (reset_cycle phy reset out r c d n)
          ∙ phy_next first (at_op starting (timed 0 first)) inp reset inp inps
              (start_cycle first inp reset refl q.0)
          ∙ run,
      idle,
      regs ∙ (unfold uphy_reset in refl),
    )

-- The PHY starts from any state: after any cycles of reset, the last of which has DIR and NXT low, and
-- 152 cycles out of reset with the data lines at zero (2.5 microseconds), it is idle and its registers
-- have their defaults. In the cycles of reset before the last the bus may carry anything.
pub start_up :
    (resets : List Bus) (reset : Bus) (inps : List Bus) (phy : Phy) (out : Bus)
    → All InReset resets
    → InReset reset
    → reset.dir ≡ sig0
    → reset.nxt ≡ sig0
    → All Quiet inps
    → length inps ≡ 152
    → (q : Phy) × (o : Bus) × (phy_run (resets ++ reset ∷ inps) phy out ≡ stepped (pos 0) q o)
      × (q.state.op ≡ phy_idle)
      × (q.state.regs ≡ ulpi_reg_defaults)
start_up [] reset inps phy out a r d n q h = from_reset reset inps phy out r.0 r.1 d n q h
start_up (inp ∷ resets) reset inps phy out a r d n q h =
    let low : Bus = record inp { dir = sig0; nxt = sig0 } in
    let next : Phy =
      if inp.dir == sig0 && inp.nxt == sig0
      then at_op ref_clk_valid (uphy_reset phy)
      else uphy_reset phy in
    let (p, o, run, idle, regs) =
      start_up resets reset inps (record next { bus = low }) low a.1 r d n q h in
    (
      p,
      o,
      phy_next phy next inp out low (resets ++ reset ∷ inps) (any_reset phy inp out a.0) ∙ run,
      idle,
      regs,
    )
