-- ===== src/Vpi/Lines.antt =====
-- The lines that the task of vpi/monitor.c prints over many calls.
use misc_verilog_cores.Base.{
  ℕ, suc, Bool, true, false, ◌*◌, ap, ◌∙◌, ◌+◌, ◌%◌, ◌/◌, ◌==◌, if◌then◌else◌, ◌<◌, ◌≡◌, refl, List,
  [], ◌∷◌, length, Option, none, some, Result, ok, ◌>>=◌, All, arith, Bool-cases, inl, inr,
}
use misc_verilog_cores.Ulpi.{Bus}
use misc_verilog_cores.Vpi.Time.{tick_ns_of, joined_time}
use misc_verilog_cores.Vpi.Monitor.{Monitor, Line, ulpim_calltf, ulpim_store_bus}

-- A call: the two halves of the time, and the signals.
pub record Sample : Type 0 where
  pub high : ℕ
  pub low : ℕ
  pub bus : Bus

abbrev pub printed : Option Line → List Line → List Line
printed none lines = lines
printed (some l) lines = l ∷ lines

-- One call after the other: the lines, in order, and the user data.
unfoldable pub monitor_run : List Sample → Option Monitor → Result (List Line × Option Monitor)
monitor_run [] m = ok ([], m)
monitor_run (s ∷ samples) m = ulpim_calltf m s.high s.low s.bus >>= λ r.
    monitor_run samples r.1 >>= λ rest. ok (printed r.0 rest.0, rest.1)

-- A level of 0 or 1, and a time of two words of 32 bits.
abbrev pub IsSample : Sample → Type 0
IsSample s = (s.bus.dir < 2) × (s.high < 4294967296) × (s.low < 4294967296)

-- The line for a change of DIR: the time in whole units of `recip`, and the data.
abbrev pub line_of : ℕ → Sample → Line
line_of recip s = record { tick_ns = (s.high * 4294967296 + s.low) / recip; value = s.bus.dat }

-- The samples whose DIR is not that of the sample before, as lines; `dir` is the DIR before the first.
abbrev pub changes : ℕ → ℕ → List Sample → List Line
changes recip dir [] = []
changes recip dir (s ∷ samples) =
    let rest = changes recip s.bus.dir samples in
    if s.bus.dir == dir then rest else line_of recip s ∷ rest

abbrev pub last_dir : ℕ → List Sample → ℕ
last_dir dir [] = dir
last_dir dir (s ∷ samples) = last_dir s.bus.dir samples

timed :
    (recip : ℕ) (s : Sample)
    → 0 < recip
    → IsSample s
    → tick_ns_of recip s.high s.low ≡ ok ((s.high * 4294967296 + s.low) / recip)
unfolding tick_ns_of
timed recip s r h = rw (joined_time s.high s.low h.1 h.2) (ground arith)

abbrev after : Monitor → Sample → Monitor
after m s = record m { ulpi_prev = ulpim_store_bus s.bus }

stored_dir : (s : Sample) → IsSample s → (ulpim_store_bus s.bus).dir ≡ s.bus.dir
unfolding ulpim_store_bus
stored_dir s h = omega (arith, h.0)

-- One call: a line where DIR changes.
called :
    (m : Monitor) (s : Sample)
    → 0 < m.t_recip
    → IsSample s
    → ulpim_calltf (some m) s.high s.low s.bus
      ≡ ok (
        if s.bus.dir == m.ulpi_prev.dir then none else some (line_of m.t_recip s),
        some (after m s),
      )
unfolding ulpim_calltf
called m s r h =
    let time = timed m.t_recip s r h in
    let dir = stored_dir s h in
    elim (Bool-cases (s.bus.dir == m.ulpi_prev.dir)) [
      | inl e ↦ rw (time, dir, e) refl
      | inr e ↦ rw (time, dir, e) refl
    ]

printed_by :
    (b : Bool) (l : Line) (lines : List Line)
    → printed (if b then none else some l) lines ≡ (if b then lines else l ∷ lines)
printed_by true l lines = refl
printed_by false l lines = refl

-- A line turns a direction of 0 or 1.
turned :
    (a b n k : ℕ) → a < 2 → b < 2 → k ≡ (if b == a then n else suc n) → (b + n) % 2 ≡ (a + k) % 2
turned a b n k ha hb e = ground arith

length_by :
    (b : Bool) (l : Line) (lines : List Line)
    → length (if b then lines else l ∷ lines) ≡ (if b then length lines else suc (length lines))
length_by true l lines = refl
length_by false l lines = refl

-- $ulpi_monitor prints a line for every change of DIR on the bus, and no other: for a DIR of 0 or 1 and
-- times of 64 bits, the lines of any calls of a monitor that is set up are, in order, those of the calls
-- whose DIR is not that of the call before, each with the time divided by `t_recip`, rounded down, and
-- the data of that call. The monitor keeps the DIR of the last call, which is that of before the first
-- one plus the number of lines, modulo 2.
pub lines_tell_dir :
    (samples : List Sample) (m : Monitor)
    → 0 < m.t_recip
    → m.ulpi_prev.dir < 2
    → All IsSample samples
    → (lines : List Line) × (m' : Monitor) × (monitor_run samples (some m) ≡ ok (lines, some m'))
      × (lines ≡ changes m.t_recip m.ulpi_prev.dir samples)
      × (m'.ulpi_prev.dir ≡ last_dir m.ulpi_prev.dir samples)
      × (m'.ulpi_prev.dir ≡ (m.ulpi_prev.dir + length lines) % 2)
      × (m'.t_recip ≡ m.t_recip)
unfolding monitor_run
lines_tell_dir [] m r d a = ([], m, refl, refl, refl, omega arith, refl)
lines_tell_dir (s ∷ samples) m r d a =
    let same = stored_dir s a.0 in
    let (lines, m', run, all, last, parity, kept) =
      lines_tell_dir samples (after m s) r (omega (arith, same, a.0.0)) a.1 in
    let b = s.bus.dir == m.ulpi_prev.dir in
    let l = line_of m.t_recip s in
    (
      if b then lines else l ∷ lines,
      m',
      rw (called m s r a.0, run) (ap (λ (x : List Line). ok (x, some m')) (printed_by b l lines)),
      ap (λ (x : List Line). if b then x else l ∷ x)
          (all ∙ ap (λ (k : ℕ). changes m.t_recip k samples) same),
      last ∙ ap (λ (k : ℕ). last_dir k samples) same,
      parity
          ∙ ap (λ (k : ℕ). (k + length lines) % 2) same
          ∙ turned m.ulpi_prev.dir s.bus.dir (length lines) _ d a.0.0 (length_by b l lines),
      kept,
    )
