-- ===== src/Vpi.antt =====
-- The arguments of the simulator's tasks as vpi/ulpisim.c, vpi/packet_tb.c and vpi/monitor.c check
-- them. The simulator itself is a parameter: the objects that it passes, and what it says of NULL.
pub mod Arguments
pub mod Shapes
pub mod Time
pub mod Edges
pub mod Lines
pub mod Monitor
use misc_verilog_cores.Base.{
  ℕ, zero, suc, Bool, true, false, not, ◌||◌, ◌!=◌, if◌then◌else◌, List, [], ◌∷◌, get_or, Option,
  none, some, Result, ok, fault, freed, ◌≡◌, ◌>>=◌, ◌>>◌,
}

-- `vpiNet`, `vpiReg`, and every other type.
pub data ObjectType : Type 0 where
  net reg other : ObjectType

-- What `vpi_get` says of an object.
pub record Object : Type 0 where
  pub kind : ObjectType
  pub size : ℕ

abbrev pub is_net : ObjectType → Bool
is_net net = true
is_net _ = false

abbrev pub is_reg : ObjectType → Bool
is_reg reg = true
is_reg _ = false

abbrev pub is_signal : ObjectType → Bool
is_signal k = is_net k || is_reg k

-- The messages with which a task refuses its arguments; the simulation is then aborted.
pub data Complaint : Type 0 where
  no_task no_arguments not_signal too_many : Complaint
  bad_dir bad_nxt bad_dati bad_dato bad_w_dat bad_r_dat : Complaint

pub data Checked (A : Type 0) : Type 0 where
  accepted : A → Checked A
  rejected : Complaint → Checked A

-- The simulator, as far as the checks go. An iterator stands before the objects that `Lists` says;
-- a scan of one that has no more returns NULL and frees it.
pub record Simulator : Type 1 where
  pub Iterator : Type 0
  pub vpi_scan : Iterator → Option Object × Iterator
  pub vpi_free_object : Iterator → Result (Unit {0})
  pub null : Object
  pub Lists : Iterator → List Object → Type 0
  pub scan_end :
      (it : Iterator)
      → Lists it []
      → ((vpi_scan it).0 ≡ none) × (vpi_free_object (vpi_scan it).1 ≡ fault freed)
  pub scan_next :
      (it : Iterator) (o : Object) (os : List Object)
      → Lists it (o ∷ os)
      → ((vpi_scan it).0 ≡ some o)
        × (vpi_free_object (vpi_scan it).1 ≡ ok tt)
        × Lists (vpi_scan it).1 os

abbrev and_then :
    {A B : Type 0} → Result (Checked A) → (A → Result (Checked B)) → Result (Checked B)
and_then m f = m >>= λ c. elim c [ rejected e ↦ ok (rejected e) | accepted a ↦ f a ]

module _ (sim : Simulator) where
  open sim use {Iterator, vpi_scan, vpi_free_object, null}

  -- What `vpi_get` says of a handle, which may be NULL.
  abbrev pub described : Option Object → Object
  described none = null
  described (some o) = o

  -- The object, and the iterator behind it.
  unfoldable pub get_signal : Iterator → Result (Checked (Object × Iterator))
  get_signal iter =
      let s = vpi_scan iter in
      if is_signal (described s.0).kind
      then ok (accepted (described s.0, s.1))
      else (vpi_free_object s.1 >> ok (rejected not_signal))

  -- So many calls of `get_signal`, joined by `||`.
  unfoldable pub get_signals : ℕ → Iterator → Result (Checked (List Object × Iterator))
  get_signals zero iter = ok (accepted ([], iter))
  get_signals (suc n) iter =
      and_then (get_signal iter)
        (λ s. and_then (get_signals n s.1) (λ r. ok (accepted (s.0 ∷ r.0, r.1))))

  -- No more arguments.
  unfoldable pub no_more : List Object × Iterator → Result (Checked (List Object))
  no_more r = elim (vpi_scan r.1).0 [
    | none ↦ ok (accepted r.0)
    | some o ↦ (vpi_free_object (vpi_scan r.1).1 >> ok (rejected too_many))
  ]

  -- The checks that the tasks share: the handle of the task, its arguments, `n` signals, and no
  -- more of them.
  unfoldable pub task_arguments : ℕ → Bool → Option Iterator → Result (Checked (List Object))
  task_arguments n false args = ok (rejected no_task)
  task_arguments n true none = ok (rejected no_arguments)
  task_arguments n true (some iter) = and_then (get_signals n iter) no_more

  unfoldable pub ut_arguments : Bool → Option Iterator → Result (Checked (List Object))
  ut_arguments task args = task_arguments 7 task args

  unfoldable pub pt_arguments : Bool → Option Iterator → Result (Checked (List Object))
  pt_arguments task args = task_arguments 15 task args

  unfoldable pub ulpim_arguments : Bool → Option Iterator → Result (Checked (List Object))
  ulpim_arguments task args = task_arguments 6 task args

-- The tests of `ut_compiletf` on `dir`, `nxt`, `dati` and `dato`, in the order of the arguments
-- clock, rst_n, dir, nxt, stp, dati, dato.
unfoldable pub ut_shapes : List Object → Checked (List Object)
ut_shapes (clock ∷ rst_n ∷ dir ∷ nxt ∷ stp ∷ dati ∷ dato ∷ []) =
    if not (is_reg dir.kind) || dir.size != 1
    then rejected bad_dir
    else if not (is_reg nxt.kind) || nxt.size != 1
    then rejected bad_nxt
    else if not (is_net dati.kind) || dati.size != 8
    then rejected bad_dati
    else if not (is_reg dato.kind) || dato.size != 8
    then rejected bad_dato
    else accepted (clock ∷ rst_n ∷ dir ∷ nxt ∷ stp ∷ dati ∷ dato ∷ [])
ut_shapes _ = rejected no_arguments

-- The tests of `pt_compiletf` on `w_dat` and `r_dat`, the eleventh and the last argument.
unfoldable pub pt_shapes : Object → Object → List Object → Checked (List Object)
pt_shapes w_dat r_dat signals =
    if w_dat.size != 8
    then rejected bad_w_dat
    else if r_dat.size != 8
    then rejected bad_r_dat
    else accepted signals

module _ (sim : Simulator) where
  open sim use {Iterator, null}

  unfoldable pub ut_check : Bool → Option Iterator → Result (Checked (List Object))
  ut_check task args = and_then (ut_arguments sim task args) (λ signals. ok (ut_shapes signals))

  unfoldable pub pt_check : Bool → Option Iterator → Result (Checked (List Object))
  pt_check task args =
      and_then (pt_arguments sim task args)
        (λ signals. ok (pt_shapes (get_or signals 10 null) (get_or signals 14 null) signals))
