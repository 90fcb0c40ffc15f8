-- ===== src/Vpi/Edges.antt =====
-- The clock edges of vpi/ulpisim.c and vpi/packet_tb.c, and the calls of vpi/monitor.c.
use misc_verilog_cores.Base.{ℕ, ◌+◌, ◌*◌, ◌-◌, ◌^◌, ◌≤◌, ◌<◌, ◌≡◌, refl, negsuc, ok}
use misc_verilog_cores.Ulpi.{Bus}
use misc_verilog_cores.Vpi.Time.{time_recip, tick_bounds}
use misc_verilog_cores.Bench.{Ut}
use misc_verilog_cores.Bench.Clock.{ut_calltf, cb_step_clock, ut_fetch_bus}
use misc_verilog_cores.Fifo.{Sigs}
use misc_verilog_cores.Fifo.Run.{Pt}
use misc_verilog_cores.Fifo.Clock.{pt_calltf, pt_step_clock, pt_fetch_values}

-- With a precision of the simulation between 1 ns and 1 fs (here 10 to the power of -n - 1 seconds),
-- both test benches take at a rising edge of the clock, at any time of 64 bits, the time in whole
-- nanoseconds, rounded down, and the signals of that edge, and set their flag; of the rest of their
-- state they change nothing.
pub edges_in_ns :
    {T : Type 0} (ut : Ut T) (pt : Pt) (n high low : ℕ) (bus : Bus) (sigs : Sigs)
    → 8 ≤ n
    → n ≤ 14
    → high < 4294967296
    → low < 4294967296
    → (t : ℕ) × (cb_step_clock 1 high low bus (ut_calltf (negsuc n) ut)
        ≡ ok (record ut {
          tick_ns = t;
          t_recip = time_recip (negsuc n);
          bus = ut_fetch_bus bus;
          sync_flag = 1;
        }))
      × (pt_step_clock 1 high low sigs (pt_calltf (negsuc n) pt)
          ≡ ok (record pt {
            tick_ns = t;
            t_recip = time_recip (negsuc n);
            sigs = pt_fetch_values sigs;
            sync_flag = 1;
          }))
      × (t * 10 ^ (n - 8) ≤ high * 4294967296 + low)
      × (high * 4294967296 + low < (t + 1) * 10 ^ (n - 8))
unfolding cb_step_clock ut_calltf pt_step_clock pt_calltf
edges_in_ns ut pt n high low bus sigs lo hi h l =
    let (t, run, below, above) = tick_bounds n high low lo hi h l in
    (t, rw run refl, rw run refl, below, above)
