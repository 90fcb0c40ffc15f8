-- ===== src/Vpi/Arguments.antt =====
-- What vpi/ulpisim.c, vpi/packet_tb.c and vpi/monitor.c say of the arguments of their tasks.
use misc_verilog_cores.Base.{
  ℕ, zero, suc, ◌-◌, ◌≤◌, ◌<◌, ◌≡◌, refl, ◌∙◌, Bool, true, false, ◌&&◌, ltb, if◌then◌else◌, List,
  [], ◌∷◌, length, take, drop, some, Result, ok, fault, freed, arith, Bool-cases, inl, inr,
}
use misc_verilog_cores.Vpi.{
  Object, Simulator, no_more, is_signal, not_signal, too_many, Checked, accepted, rejected,
  get_signal, get_signals, task_arguments, ut_arguments, pt_arguments, ulpim_arguments,
}

abbrev pub all_signals : List Object → Bool
all_signals [] = true
all_signals (o ∷ os) = is_signal o.kind && all_signals os

-- The verdict on the arguments of a task with `n` signals.
abbrev pub verdict : ℕ → List Object → Result (Checked (List Object))
verdict n objs =
    if all_signals (take n objs)
    then (if ltb (length objs) n
        then fault freed
        else if ltb n (length objs)
        then ok (rejected too_many)
        else ok (accepted (take n objs)))
    else ok (rejected not_signal)

length-drop : (n : ℕ) (objs : List Object) → length (drop n objs) ≡ length objs - n
length-drop zero objs = omega arith
length-drop (suc n) [] = omega arith
length-drop (suc n) (o ∷ objs) = omega (arith, length-drop n objs)

module _ (sim : Simulator) (no_null : is_signal sim.null.kind ≡ false) where
  open sim use {Iterator, vpi_scan, Lists, scan_end, scan_next}

  refused :
      (n : ℕ) (objs : List Object) (it : Iterator)
      → Lists it objs
      → all_signals (take n objs) ≡ false
      → get_signals sim n it ≡ ok (rejected not_signal)
  unfolding get_signals get_signal
  refused zero objs it l h = cc
  refused (suc n) [] it l h = cc
  refused (suc n) (o ∷ os) it l h =
      let (next, free, rest) = scan_next it o os l in
      elim (Bool-cases (is_signal o.kind)) [
        | inr e ↦ rw (next, e, free) refl
        | inl e ↦ rw (next, e, refused n os (vpi_scan it).1 rest (ground arith)) refl
      ]

  too_few :
      (n : ℕ) (objs : List Object) (it : Iterator)
      → Lists it objs
      → all_signals (take n objs) ≡ true
      → length objs < n
      → get_signals sim n it ≡ fault freed
  unfolding get_signals get_signal
  too_few zero objs it l h s = absurd (omega arith)
  too_few (suc n) [] it l h s = let (next, free) = scan_end it l in rw (next, no_null, free) refl
  too_few (suc n) (o ∷ os) it l h s =
      let (next, free, rest) = scan_next it o os l in
      let e : is_signal o.kind ≡ true = ground arith in
      rw (next, e, too_few n os (vpi_scan it).1 rest (ground arith) (omega arith)) refl

  scanned :
      (n : ℕ) (objs : List Object) (it : Iterator)
      → Lists it objs
      → all_signals (take n objs) ≡ true
      → n ≤ length objs
      → (it' : Iterator) × (get_signals sim n it ≡ ok (accepted (take n objs, it')))
        × Lists it' (drop n objs)
  unfolding get_signals get_signal
  scanned zero objs it l h s = (it, refl, l)
  scanned (suc n) [] it l h s = absurd (omega arith)
  scanned (suc n) (o ∷ os) it l h s =
      let (next, free, rest) = scan_next it o os l in
      let e : is_signal o.kind ≡ true = ground arith in
      let (it', run, left) = scanned n os (vpi_scan it).1 rest (ground arith) (omega arith) in
      (it', rw (next, e, run) refl, left)

  at_end :
      (signals : List Object) (it : Iterator) (os : List Object)
      → Lists it os
      → no_more sim (signals, it)
        ≡ (if ltb 0 (length os) then ok (rejected too_many) else ok (accepted signals))
  unfolding no_more
  at_end signals it [] l = let (next, free) = scan_end it l in rw (next, no_more) refl
  at_end signals it (o ∷ os) l =
      let (next, free, rest) = scan_next it o os l in rw (next, free, no_more) (ground arith)

  task_arguments-verdict :
      (n : ℕ) (objs : List Object) (it : Iterator)
      → Lists it objs
      → task_arguments sim n true (some it) ≡ verdict n objs
  unfolding task_arguments
  task_arguments-verdict n objs it l = elim (Bool-cases (all_signals (take n objs))) [
    | inr e ↦ rw (refused n objs it l e, e) refl
    | inl e ↦ elim (Bool-cases (ltb (length objs) n)) [
      | inl s ↦ rw (too_few n objs it l e (ground arith), e, s) refl
      | inr s ↦
          let (it', run, left) = scanned n objs it l e (ground arith) in
          rw (run, e, s)
            (at_end (take n objs) it' (drop n objs) left ∙ ground (arith, length-drop n objs))
    ]
  ]

-- The three tasks judge their arguments in the same way: $ulpi_step takes 7 signals, $packet_tb 15 and
-- $ulpi_monitor 6. With an object among the first of so many that is neither a net nor a reg they
-- complain of it; of more arguments they complain too; with so many signals exactly they accept them
-- in their order; and with fewer they free an iterator that `vpi_scan` has freed. The simulator must
-- not say that NULL is a net or a reg.
pub arguments_judged :
    (sim : Simulator) (objs : List Object) (it : sim.Iterator)
    → is_signal sim.null.kind ≡ false
    → sim.Lists it objs
    → (ut_arguments sim true (some it) ≡ verdict 7 objs)
      × (pt_arguments sim true (some it) ≡ verdict 15 objs)
      × (ulpim_arguments sim true (some it) ≡ verdict 6 objs)
unfolding ut_arguments pt_arguments ulpim_arguments
arguments_judged sim objs it h l = (
  task_arguments-verdict sim h 7 objs it l,
  task_arguments-verdict sim h 15 objs it l,
  task_arguments-verdict sim h 6 objs it l,
)
