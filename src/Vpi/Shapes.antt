-- ===== src/Vpi/Shapes.antt =====
-- The arguments with which the tasks of vpi/ulpisim.c and vpi/packet_tb.c are set up.
use misc_verilog_cores.Base.{
  ◌≡◌, refl, Bool, true, false, ◌&&◌, ◌==◌, List, [], ◌∷◌, some, Result, ok, ◌>>=◌, arith,
}
use misc_verilog_cores.Vpi.{
  Simulator, Object, is_net, is_reg, is_signal, Checked, accepted, rejected, ut_check, ut_shapes,
}
use misc_verilog_cores.Vpi.Arguments.{verdict, arguments_judged}

-- The signals of $ulpi_step: clock, rst_n, dir, nxt, stp, dati, dato.
abbrev pub is_ulpi_step : List Object → Bool
is_ulpi_step (clock ∷ rst_n ∷ dir ∷ nxt ∷ stp ∷ dati ∷ dato ∷ []) =
    is_signal clock.kind
    && (is_signal rst_n.kind
        && (is_signal stp.kind
            && ((is_reg dir.kind && dir.size == 1)
                && ((is_reg nxt.kind && nxt.size == 1)
                    && ((is_net dati.kind && dati.size == 8)
                        && (is_reg dato.kind && dato.size == 8))))))
is_ulpi_step _ = false

-- Whether a task is set up with these signals.
abbrev pub accepts : Result (Checked (List Object)) → Bool
accepts (ok (accepted signals)) = true
accepts _ = false

judged : List Object → Bool
judged objs = accepts (
    verdict 7 objs >>= λ c. elim c [
      | rejected e ↦ ok (rejected e)
      | accepted signals ↦ ok (ut_shapes signals)
    ])

seven :
    (clock rst_n dir nxt stp dati dato : Object)
    → judged (clock ∷ rst_n ∷ dir ∷ nxt ∷ stp ∷ dati ∷ dato ∷ [])
      ≡ is_ulpi_step (clock ∷ rst_n ∷ dir ∷ nxt ∷ stp ∷ dati ∷ dato ∷ [])
unfolding judged ut_shapes
seven clock rst_n dir nxt stp dati dato = ground arith

judged_lem : (objs : List Object) → judged objs ≡ is_ulpi_step objs
unfolding judged ut_shapes
judged_lem [] = refl
judged_lem (a ∷ []) = ground arith
judged_lem (a ∷ b ∷ []) = ground arith
judged_lem (a ∷ b ∷ c ∷ []) = ground arith
judged_lem (a ∷ b ∷ c ∷ d ∷ []) = ground arith
judged_lem (a ∷ b ∷ c ∷ d ∷ e ∷ []) = ground arith
judged_lem (a ∷ b ∷ c ∷ d ∷ e ∷ f ∷ []) = ground arith
judged_lem (a ∷ b ∷ c ∷ d ∷ e ∷ f ∷ g ∷ []) = seven a b c d e f g
judged_lem (a ∷ b ∷ c ∷ d ∷ e ∷ f ∷ g ∷ h ∷ objs) = ground arith

-- $ulpi_step is set up exactly if its arguments are seven nets or regs of which `dir` and `nxt` are regs
-- of one bit, `dati` is a net of eight bits and `dato` a reg of eight bits. The simulator must not say
-- that NULL is a net or a reg.
pub accepts-ut_check :
    (sim : Simulator) (objs : List Object) (it : sim.Iterator)
    → is_signal sim.null.kind ≡ false
    → sim.Lists it objs
    → accepts (ut_check sim true (some it)) ≡ is_ulpi_step objs
unfolding ut_check judged
accepts-ut_check sim objs it h l = rw (arguments_judged sim objs it h l).0 (judged_lem objs)
