-- ===== src/Tests/Tasks.antt =====
-- The tasks of the simulator at concrete arguments and times.
use misc_verilog_cores.Base.{
  ℕ, ◌+◌, ◌*◌, ◌-◌, ◌%◌, ◌^◌, ◌≤◌, ◌<◌, ◌≡◌, refl, true, negsuc, List, [], ◌∷◌, length, some, none,
  Option, fault, freed, ok, Result, arith,
}
use misc_verilog_cores.Ulpi.{Bus, sig0, sig1, ulpi_bus_idle}
use misc_verilog_cores.Vpi.{
  Object, Simulator, net, reg, other, ut_arguments, pt_arguments, ulpim_arguments, ut_check,
}
use misc_verilog_cores.Vpi.Arguments.{verdict, arguments_judged}
use misc_verilog_cores.Vpi.Shapes.{accepts, is_ulpi_step, accepts-ut_check}
use misc_verilog_cores.Vpi.Time.{time_recip}
use misc_verilog_cores.Vpi.Edges.{edges_in_ns}
use misc_verilog_cores.Vpi.Monitor.{Monitor, Line}
use misc_verilog_cores.Vpi.Lines.{Sample, monitor_run, lines_tell_dir}
use misc_verilog_cores.Bench.{Ut}
use misc_verilog_cores.Bench.Suite.{TestCase, bench_init}
use misc_verilog_cores.Bench.Clock.{cb_step_clock, ut_calltf, ut_fetch_bus}
use misc_verilog_cores.Fifo.Run.{pt_start}
use misc_verilog_cores.Fifo.Clock.{pt_step_clock, pt_calltf, pt_fetch_values}
use misc_verilog_cores.Tests.{idle_host, idle_phy, quiet, three_bytes}

-- An iterator holds the objects that are left, until it is freed.
abbrev scan : Option (List Object) → Option Object × Option (List Object)
scan none = (none, none)
scan (some []) = (none, none)
scan (some (o ∷ os)) = (some o, some os)

abbrev free : Option (List Object) → Result (Unit {0})
free none = fault freed
free (some os) = ok tt

free_end :
    (it : Option (List Object))
    → it ≡ some []
    → ((scan it).0 ≡ none) × (free (scan it).1 ≡ fault freed)
free_end it e = rw e (refl, refl)

free_next :
    (it : Option (List Object)) (o : Object) (os : List Object)
    → it ≡ some (o ∷ os)
    → ((scan it).0 ≡ some o) × (free (scan it).1 ≡ ok tt) × ((scan it).1 ≡ some os)
free_next it o os e = rw e (refl, refl, refl)

abbrev small_sim : Simulator
small_sim = record {
  Iterator = Option (List Object);
  vpi_scan = scan;
  vpi_free_object = free;
  null = record { kind = other; size = 0 };
  Lists = λ it os. it ≡ some os;
  scan_end = free_end;
  scan_next = free_next;
}

abbrev bit_reg : Object
bit_reg = record { kind = reg; size = 1 }

abbrev ulpi_objects : List Object
ulpi_objects =
    bit_reg
    ∷ bit_reg
    ∷ bit_reg
    ∷ bit_reg
    ∷ record { kind = net; size = 1 }
    ∷ record { kind = net; size = 8 }
    ∷ record { kind = reg; size = 8 }
    ∷ []

arguments_judged_example :
    (ut_arguments small_sim true (some (some ulpi_objects)) ≡ verdict 7 ulpi_objects)
    × (pt_arguments small_sim true (some (some ulpi_objects)) ≡ verdict 15 ulpi_objects)
    × (ulpim_arguments small_sim true (some (some ulpi_objects)) ≡ verdict 6 ulpi_objects)
arguments_judged_example = arguments_judged small_sim ulpi_objects (some ulpi_objects) refl refl

accepts-ut_check_example :
    accepts (ut_check small_sim true (some (some ulpi_objects))) ≡ is_ulpi_step ulpi_objects
accepts-ut_check_example = accepts-ut_check small_sim ulpi_objects (some ulpi_objects) refl refl

abbrev new_bench : Ut TestCase
new_bench = bench_init [] idle_phy ulpi_bus_idle idle_host []

-- A precision of 1 ps.
edges_in_ns_example :
    (t : ℕ) × (cb_step_clock 1 0 16667 ulpi_bus_idle (ut_calltf (negsuc 11) new_bench)
      ≡ ok (record new_bench {
        tick_ns = t;
        t_recip = time_recip (negsuc 11);
        bus = ut_fetch_bus ulpi_bus_idle;
        sync_flag = 1;
      }))
    × (pt_step_clock 1 0 16667 quiet (pt_calltf (negsuc 11) (pt_start three_bytes quiet))
        ≡ ok (record (pt_start three_bytes quiet) {
          tick_ns = t;
          t_recip = time_recip (negsuc 11);
          sigs = pt_fetch_values quiet;
          sync_flag = 1;
        }))
    × (t * 10 ^ (11 - 8) ≤ 0 * 4294967296 + 16667)
    × (0 * 4294967296 + 16667 < (t + 1) * 10 ^ (11 - 8))
edges_in_ns_example =
    edges_in_ns new_bench (pt_start three_bytes quiet) 11 0 16667 ulpi_bus_idle quiet (omega arith)
      (omega arith) (omega arith) (omega arith)

abbrev driven : Bus
driven = record ulpi_bus_idle { dir = sig1 }

abbrev in_ps : Monitor
in_ps = record { t_unit = negsuc 8; t_prec = negsuc 11; t_recip = 1000; ulpi_prev = ulpi_bus_idle }

abbrev three_samples : List Sample
three_samples =
    record { high = 0; low = 16667; bus = driven }
    ∷ record { high = 0; low = 33333; bus = driven }
    ∷ record { high = 1; low = 0; bus = ulpi_bus_idle }
    ∷ []

lines_tell_dir_example :
    (lines : List Line) × (m' : Monitor) × (monitor_run three_samples (some in_ps)
      ≡ ok (lines, some m'))
    × (lines
        ≡ record { tick_ns = 16; value = driven.dat }
          ∷ record { tick_ns = 4294967; value = ulpi_bus_idle.dat }
          ∷ [])
    × (m'.ulpi_prev.dir ≡ sig0)
    × (m'.ulpi_prev.dir ≡ (in_ps.ulpi_prev.dir + length lines) % 2)
    × (m'.t_recip ≡ in_ps.t_recip)
lines_tell_dir_example = lines_tell_dir three_samples in_ps (omega arith) (omega arith) (
  (omega arith, omega arith, omega arith),
  ((omega arith, omega arith, omega arith), ((omega arith, omega arith, omega arith), tt)),
)
