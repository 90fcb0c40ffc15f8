-- ===== src/Fifo/Clock.antt =====
-- The clock of vpi/packet_tb.c: `pt_calltf`, `pt_fetch_values` and `cb_step_clock`.
use misc_verilog_cores.Base.{ℕ, u8, ◌==◌, if◌then◌else◌, ℤ, Result, ok, ◌>>=◌}
use misc_verilog_cores.Ulpi.{Byte, byte}
use misc_verilog_cores.Vpi.Time.{time_recip, tick_ns_of}
use misc_verilog_cores.Fifo.{Sigs}
use misc_verilog_cores.Fifo.Run.{Pt}

abbrev byte_of : Byte → Byte
byte_of x = byte (u8 x.a) (u8 x.b)

-- The values of the signals, in the eight bits of a `bit_t` and of a byte.
unfoldable pub pt_fetch_values : Sigs → Sigs
pt_fetch_values now = record {
  clock = u8 now.clock;
  reset = u8 now.reset;
  level = byte_of now.level;
  drop_sig = u8 now.drop_sig;
  save = u8 now.save;
  redo = u8 now.redo;
  next = u8 now.next;
  w_vld = u8 now.w_vld;
  w_rdy = u8 now.w_rdy;
  w_lst = u8 now.w_lst;
  w_dat = byte_of now.w_dat;
  r_vld = u8 now.r_vld;
  r_rdy = u8 now.r_rdy;
  r_lst = u8 now.r_lst;
  r_dat = byte_of now.r_dat;
}

unfoldable pub pt_calltf : ℤ → Pt → Pt
pt_calltf precision pt = record pt { t_recip = time_recip precision }

-- The clock has changed to `clock`, at a time of the simulation, with these values of the signals.
unfoldable pub pt_step_clock : ℕ → ℕ → ℕ → Sigs → Pt → Result Pt
pt_step_clock clock high low now pt =
    if clock == 1
    then (tick_ns_of pt.t_recip high low >>= λ t.
        ok (record pt { tick_ns = t; sigs = pt_fetch_values now; sync_flag = 1 }))
    else ok pt
