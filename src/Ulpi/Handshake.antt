-- ===== src/Ulpi/Handshake.antt =====
-- `ack_recv_step` of vpi/usb/ulpi.c from its first to its last cycle.
use misc_verilog_cores.Base.{
  ℕ, ◌<◌, ◌≡◌, ◌≢◌, refl, sym, ap, ap₂, ◌∙◌, true, ◌==◌, if◌then◌else◌, pos, Result, ok, ◌>>=◌,
  List, [], ◌∷◌, ◌++◌, length, get_or, set, All, arith,
}
use misc_verilog_cores.Ulpi.{
  sig0, sig1, Bus, Transfer, XferType, XferStage, up_ack, no_xfer, hsk_pid, hsk_stop, ulpitx_ack,
  ulpi_bus_is_idle, transfer_ack, Stepped, stepped,
}
use misc_verilog_cores.Ulpi.Step.Ack.{ack_recv_step, ack_recv_at}
use misc_verilog_cores.Ulpi.Receive.{carry_on}

-- One call for each clock edge, as long as the result is 0.
unfoldable pub answer : List Bus → Transfer → Bus → Result (Stepped Transfer)
answer [] xfer out = stepped (pos 0) xfer out
answer (inp ∷ inps) xfer out = ack_recv_step xfer inp out >>= carry_on (answer inps)

abbrev pub IsIdle : Bus → Type 0
IsIdle inp = ulpi_bus_is_idle inp ≡ true

-- A cycle in which the link holds the handshake and has not stopped.
abbrev pub Holds : Bus → Type 0
Holds inp = (inp.dir ≡ sig0) × (inp.dat.b ≡ 0x00) × (inp.stp ≢ sig1)

-- The transfer at a stage of the handshake, with its parities.
abbrev pub at_hsk : Transfer → XferStage → List ℕ → Transfer
at_hsk xfer st seq = record xfer { type = up_ack; stage = st; ep_seq = seq }

module _ (xfer : Transfer) (seq : List ℕ) where
  pub wait_cycle :
      (inp out : Bus)
      → IsIdle inp
      → ack_recv_step (at_hsk xfer no_xfer seq) inp out
        ≡ stepped (pos 0) (at_hsk xfer no_xfer seq) out
  unfolding ack_recv_step ack_recv_at
  wait_cycle inp out i = rw i refl

  pub hold_cycle :
      (inp out : Bus)
      → Holds inp
      → ack_recv_step (at_hsk xfer hsk_pid seq) inp out
        ≡ stepped (pos 0) (at_hsk xfer hsk_pid seq) (record out { nxt = sig0 })
  unfolding ack_recv_step ack_recv_at
  hold_cycle inp out h = ground arith

  pub stop_cycle :
      (inp out : Bus)
      → inp.dir ≡ sig0
      → inp.dat.b ≡ 0x00
      → inp.stp ≡ sig1
      → ack_recv_step (at_hsk xfer hsk_pid seq) inp out
        ≡ stepped (pos 0) (at_hsk xfer hsk_stop seq) (record out { nxt = sig0 })
  unfolding ack_recv_step ack_recv_at
  stop_cycle inp out d b s = ground arith

  pub last_cycle :
      (inp out : Bus)
      → inp.dir ≡ sig0
      → inp.nxt ≡ sig0
      → inp.stp ≡ sig0
      → ack_recv_step (at_hsk xfer hsk_stop seq) inp out
        ≡ stepped (pos 1) (at_hsk xfer no_xfer seq) out
  unfolding ack_recv_step ack_recv_at
  last_cycle inp out d n s = ground arith

-- The parities after an acknowledgement.
abbrev pub toggled : Transfer → List ℕ
toggled xfer =
    set xfer.ep_seq xfer.endpoint (if get_or xfer.ep_seq xfer.endpoint 0 == 0 then 1 else 0)

pub ack_cycle :
    (xfer : Transfer) (inp out : Bus)
    → inp.dat.a ≡ ulpitx_ack
    → xfer.endpoint < length xfer.ep_seq
    → ack_recv_step (at_hsk xfer no_xfer xfer.ep_seq) inp out
      ≡ stepped (pos 0) (at_hsk xfer hsk_pid (toggled xfer)) (record out { nxt = sig1 })
unfolding ack_recv_step ack_recv_at ulpi_bus_is_idle transfer_ack
ack_cycle xfer inp out a h = ground arith

answer_next :
    (x y : Transfer) (inp out o : Bus) (inps : List Bus)
    → ack_recv_step x inp out ≡ stepped (pos 0) y o
    → answer (inp ∷ inps) x out ≡ answer inps y o
unfolding answer
answer_next x y inp out o inps e = rw e refl

module _ (xfer : Transfer) (ack stop last : Bus) (is_ack : ack.dat.a ≡ ulpitx_ack)
    (stops : (stop.dir ≡ sig0) × (stop.dat.b ≡ 0x00) × (stop.stp ≡ sig1))
    (ends : (last.dir ≡ sig0) × (last.nxt ≡ sig0) × (last.stp ≡ sig0)) where
  abbrev Acked : List Bus → Transfer → Bus → Type 0
  Acked inps x out =
      (o : Bus) × (answer inps x out ≡ stepped (pos 1) (at_hsk xfer no_xfer (toggled xfer)) o)

  hold_run :
      (holds : List Bus) (out : Bus)
      → All Holds holds
      → Acked (holds ++ stop ∷ last ∷ []) (at_hsk xfer hsk_pid (toggled xfer)) out
  unfolding answer
  hold_run [] out h =
      let held : Bus = record out { nxt = sig0 } in
      (
        held,
        answer_next (at_hsk xfer hsk_pid (toggled xfer)) (at_hsk xfer hsk_stop (toggled xfer)) stop
              out held (last ∷ []) (stop_cycle xfer (toggled xfer) stop out stops.0 stops.1 stops.2)
            ∙ rw (last_cycle xfer (toggled xfer) last held ends.0 ends.1 ends.2) refl,
      )
  hold_run (inp ∷ holds) out h =
      let held : Bus = record out { nxt = sig0 } in
      let (o, run) = hold_run holds held h.1 in
      (
        o,
        answer_next (at_hsk xfer hsk_pid (toggled xfer)) (at_hsk xfer hsk_pid (toggled xfer)) inp
              out held (holds ++ stop ∷ last ∷ []) (hold_cycle xfer (toggled xfer) inp out h.0)
            ∙ run,
      )

  wait_run :
      (waits holds : List Bus) (out : Bus)
      → xfer.endpoint < length xfer.ep_seq
      → All IsIdle waits
      → All Holds holds
      → Acked (waits ++ ack ∷ (holds ++ stop ∷ last ∷ [])) (at_hsk xfer no_xfer xfer.ep_seq) out
  wait_run [] holds out fits w h =
      let taken : Bus = record out { nxt = sig1 } in
      let (o, run) = hold_run holds taken h in
      (
        o,
        answer_next (at_hsk xfer no_xfer xfer.ep_seq) (at_hsk xfer hsk_pid (toggled xfer)) ack out
              taken (holds ++ stop ∷ last ∷ []) (ack_cycle xfer ack out is_ack fits)
            ∙ run,
      )
  wait_run (inp ∷ waits) holds out fits w h =
      let (o, run) = wait_run waits holds out fits w.1 h in
      (
        o,
        answer_next (at_hsk xfer no_xfer xfer.ep_seq) (at_hsk xfer no_xfer xfer.ep_seq) inp out out
              (waits ++ ack ∷ (holds ++ stop ∷ last ∷ [])) (wait_cycle xfer xfer.ep_seq inp out w.0)
            ∙ run,
      )

  -- The host takes an ACK from the link: after any number of idle cycles, the ACK held for any
  -- number of cycles, its stop and one more cycle, `ack_recv_step` returns 1, and the transfer has
  -- been acknowledged exactly once, by `transfer_ack`, and is otherwise what it was.
  ack_recv_run :
      (waits holds : List Bus) (out : Bus)
      → xfer.type ≡ up_ack
      → xfer.stage ≡ no_xfer
      → xfer.endpoint < length xfer.ep_seq
      → All IsIdle waits
      → All Holds holds
      → (y : Transfer) × (o : Bus) × (answer (waits ++ ack ∷ (holds ++ stop ∷ last ∷ [])) xfer out
          ≡ stepped (pos 1) y o)
        × (transfer_ack xfer ≡ ok y)
  unfolding transfer_ack
  ack_recv_run waits holds out t st fits w h =
      let (o, run) = wait_run waits holds out fits w h in
      let same : at_hsk xfer no_xfer xfer.ep_seq ≡ xfer =
        ap₂ (λ (a : XferType) (b : XferStage). record xfer { type = a; stage = b }) (sym t)
          (sym st) in
      (
        record xfer { ep_seq = toggled xfer },
        o,
        ap (λ (x : Transfer). answer (waits ++ ack ∷ (holds ++ stop ∷ last ∷ [])) x out) (sym same)
            ∙ run
            ∙ ap₂
                (λ (a : XferType) (b : XferStage).
                  stepped (pos 1) (record xfer { type = a; stage = b; ep_seq = toggled xfer }) o)
                (sym t) (sym st),
        ground arith,
      )
