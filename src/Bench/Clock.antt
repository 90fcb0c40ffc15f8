-- ===== src/Bench/Clock.antt =====
-- The clock of vpi/ulpisim.c: `ut_calltf`, `ut_fetch_bus` and `cb_step_clock`.
use misc_verilog_cores.Base.{ℕ, u8, ◌==◌, if◌then◌else◌, ℤ, Result, ok, ◌>>=◌}
use misc_verilog_cores.Ulpi.{Bus, byte}
use misc_verilog_cores.Vpi.Time.{time_recip, tick_ns_of}
use misc_verilog_cores.Bench.{Ut}

-- The values of the signals, in the eight bits of a `bit_t` and of a byte.
unfoldable pub ut_fetch_bus : Bus → Bus
ut_fetch_bus now = record {
  clock = u8 now.clock;
  rst_n = u8 now.rst_n;
  dir = u8 now.dir;
  stp = u8 now.stp;
  nxt = u8 now.nxt;
  dat = byte (u8 now.dat.a) (u8 now.dat.b);
}

module _ {T : Type 0} where
  -- The task is called: the scale of the time.
  unfoldable pub ut_calltf : ℤ → Ut T → Ut T
  ut_calltf precision ut = record ut { t_recip = time_recip precision }

  -- The clock has changed to `clock`, at a time of the simulation, with these values of the signals.
  unfoldable pub cb_step_clock : ℕ → ℕ → ℕ → Bus → Ut T → Result (Ut T)
  cb_step_clock clock high low now ut =
      if clock == 1
      then (tick_ns_of ut.t_recip high low >>= λ t.
          ok (record ut { tick_ns = t; bus = ut_fetch_bus now; sync_flag = 1 }))
      else ok ut
