-- ===== src/Cases/Restarts.antt =====
-- vpi/tc_restarts.c: the link is reset and starts again.
use misc_verilog_cores.Base.{
  ℕ, ◌+◌, leb, Bool, ◌&&◌, ◌==◌, ◌!=◌, if◌then◌else◌, pos, negsuc, Result,
}
use misc_verilog_cores.Ulpi.{sig0, sig1, byte, Bus, phy_bus_release}
use misc_verilog_cores.Host.{Host}
use misc_verilog_cores.Cases.{Tried, tried}

-- `__restart_stage_t`.
pub data RestartStage : Type 0 where
  err_reset power_off ref_clock t_start link_idle rxcmd restarted completed : RestartStage

pub record Restart : Type 0 where
  pub stage : RestartStage
  pub ticks : ℕ

abbrev pub tstart_ticks : ℕ
tstart_ticks = 61800

abbrev link_idle_ticks : ℕ
link_idle_ticks = 1

abbrev pub data_is_idle : Bus → Bool
data_is_idle bus = bus.dat.a == 0 && bus.dat.b == 0

abbrev pub phy_is_driving : Bus → Bool
phy_is_driving bus = bus.rst_n == sig1 && bus.dir == sig1

abbrev pub link_is_idle : Bus → Bool
link_is_idle bus =
    bus.rst_n == sig1
    && (bus.dir == sig0 && (bus.nxt == sig0 && (bus.stp == sig0 && data_is_idle bus)))

unfoldable pub tc_restarts_init : Restart → Host → Result (Tried Restart)
tc_restarts_init por host = tried (pos 0) (record { stage = power_off; ticks = 0 }) host

abbrev on_bus : Host → Bus → Host
on_bus host bus = record host { prev = bus }

-- `ticks` is an `int` that stays far below its bound: it counts to `tstart_ticks`, except in
-- `ref_clock` and in a `t_start` of which the link holds `stp`.
abbrev restart_at : RestartStage → Restart → Host → Bus → Result (Tried Restart)
restart_at err_reset por host bus = tried (negsuc 0) por host
restart_at power_off por host bus =
    if bus.rst_n == sig0
    then tried (pos 0) (record por { stage = ref_clock }) host
    else tried (pos 0) por host
restart_at ref_clock por host bus =
    if bus.rst_n == sig1
    then tried (pos 0) (record { stage = t_start; ticks = 0 })
        (on_bus host (record bus { dir = sig1; nxt = sig0; dat = byte 0 0 }))
    else if bus.rst_n != sig0
    then tried (negsuc 0) (record por { stage = err_reset }) host
    else tried (pos 0) (record por { ticks = por.ticks + 1 }) host
restart_at t_start por host bus =
    let ticks = por.ticks + 1 in
    if phy_is_driving bus && data_is_idle bus
    then (if leb tstart_ticks ticks && bus.stp == sig0
        then tried (pos 0) (record { stage = link_idle; ticks = 0 })
            (on_bus host (phy_bus_release bus))
        else tried (pos 0) (record por { ticks = ticks }) host)
    else tried (negsuc 0) por host
restart_at link_idle por host bus =
    let ticks = por.ticks + 1 in
    if link_is_idle bus
    then (if leb link_idle_ticks ticks
        then tried (pos 0) (record { stage = rxcmd; ticks = 0 })
            (on_bus host (record bus { dir = sig1 }))
        else tried (pos 0) (record por { ticks = ticks }) host)
    else tried (pos 0) por host
restart_at rxcmd por host bus = tried (pos 0) (record { stage = restarted; ticks = 0 }) host
restart_at restarted por host bus =
    tried (pos 0) (record { stage = completed; ticks = 0 }) (on_bus host (phy_bus_release bus))
restart_at completed por host bus = tried (pos 1) por host

unfoldable pub tc_restarts_step : Restart → Host → Result (Tried Restart)
tc_restarts_step por host = restart_at por.stage por host host.prev
