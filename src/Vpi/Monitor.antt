-- ===== src/Vpi/Monitor.antt =====
-- vpi/monitor.c: the task $ulpi_monitor, which prints the data of the ULPI bus where DIR changes.
use misc_verilog_cores.Base.{
  ℕ, u8, ◌!=◌, if◌then◌else◌, ℤ, Option, none, some, Bool, Result, ok, fault, null_pointer, ◌>>=◌,
}
use misc_verilog_cores.Ulpi.{Bus, Byte, byte}
use misc_verilog_cores.Vpi.{Simulator, accepted, rejected, ulpim_arguments}
use misc_verilog_cores.Vpi.Time.{time_recip, tick_ns_of}

-- `ulpim_handles_t` without the handles.
pub record Monitor : Type 0 where
  pub t_unit : ℤ
  pub t_prec : ℤ
  pub t_recip : ℕ
  pub ulpi_prev : Bus

-- A line that is printed: the time, and the data as the simulator has it.
pub record Line : Type 0 where
  pub tick_ns : ℕ
  pub value : Byte

unfoldable pub ulpim_store_bus : Bus → Bus
ulpim_store_bus now = record {
  clock = u8 now.clock;
  rst_n = u8 now.rst_n;
  dir = u8 now.dir;
  stp = u8 now.stp;
  nxt = u8 now.nxt;
  dat = byte (u8 now.dat.a) (u8 now.dat.b);
}

-- The user data that the task has then; `unit` and `precision` are those of the simulation.
unfoldable pub ulpim_set_handles :
    (sim : Simulator) → Bool → Option (sim.Iterator) → ℤ → ℤ → Bus → Result (Option Monitor)
ulpim_set_handles sim task args unit precision now = ulpim_arguments sim task args >>= λ c. elim c [
  | rejected e ↦ ok none
  | accepted signals ↦ ok (
      some (record {
        t_unit = unit;
        t_prec = precision;
        t_recip = time_recip precision;
        ulpi_prev = ulpim_store_bus now;
      }))
]

-- One call of the task. It prints that there is no user data, and goes on to read it.
unfoldable pub ulpim_calltf : Option Monitor → ℕ → ℕ → Bus → Result (Option Line × Option Monitor)
ulpim_calltf none high low now = fault null_pointer
ulpim_calltf (some m) high low now = tick_ns_of m.t_recip high low >>= λ t.
    let curr = ulpim_store_bus now in
    ok (
      if curr.dir != m.ulpi_prev.dir then some (record { tick_ns = t; value = now.dat }) else none,
      some (record m { ulpi_prev = curr }),
    )
