-- ===== src/Phy/Run.antt =====
-- Runs of `uphy_step` of vpi/usb/ulpiphy.c over the cycles of the bus.
use misc_verilog_cores.Base.{
  ◌≡◌, refl, if◌then◌else◌, pos, is_negative, Result, ok, ◌>>=◌, List, [], ◌∷◌, arith,
}
use misc_verilog_cores.Ulpi.{Bus, Stepped, stepped}
use misc_verilog_cores.Phy.{Phy}
use misc_verilog_cores.Phy.Command.{phy_done}
use misc_verilog_cores.Phy.Step.{uphy_step}

-- One call for each clock edge, as long as no result is negative.
unfoldable pub phy_run : List Bus → Phy → Bus → Result (Stepped Phy)
phy_run [] phy out = stepped (pos 0) phy out
phy_run (inp ∷ inps) phy out =
    uphy_step phy inp out >>= λ s. if is_negative s.code then ok s else phy_run inps s.state s.out

pub phy_next :
    (phy q : Phy) (inp out o : Bus) (inps : List Bus)
    → uphy_step phy inp out ≡ phy_done q o
    → phy_run (inp ∷ inps) phy out ≡ phy_run inps (record q { bus = o }) o
unfolding phy_run phy_done
phy_next phy q inp out o inps e = rw e (ground arith)

pub phy_take :
    (phy q : Phy) (inp out o : Bus) (inps : List Bus)
    → uphy_step phy inp out ≡ stepped (pos 0) q o
    → phy_run (inp ∷ inps) phy out ≡ phy_run inps q o
unfolding phy_run
phy_take phy q inp out o inps e = rw e refl
