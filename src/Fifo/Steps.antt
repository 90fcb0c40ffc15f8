-- ===== src/Fifo/Steps.antt =====
-- The test cases of vpi/packet_tb.c: `init` and `step` of each.
use misc_verilog_cores.Base.{
  ℕ, zero, suc, ◌+◌, true, false, ◌&&◌, ◌||◌, ◌==◌, if◌then◌else◌, pos, negsuc, is_negative,
  is_positive, Result, ok, ◌>>=◌, ◌>>◌, assert,
}
use misc_verilog_cores.Ulpi.{sig0, sig1}
use misc_verilog_cores.Fifo.{Sigs, TcState, Tb, tb, fill_fixed_len}
use misc_verilog_cores.Fifo.Packets.{store_packet, fetch_packet, fetch_stop_go}

abbrev to : ℕ → TcState → TcState
to n st = record st { step = n }

-- WAIT FOR RESET.
unfoldable pub tc_waitrst_init : Sigs → TcState → Result Tb
tc_waitrst_init curr st = tb (pos 0) curr (to 0 st) false

abbrev cleared : Sigs → Sigs
cleared curr = record curr {
  drop_sig = sig0;
  save = sig0;
  redo = sig0;
  next = sig0;
  w_vld = sig0;
  r_rdy = sig0;
}

abbrev waitrst_at : ℕ → Sigs → TcState → Result Tb
waitrst_at zero curr st =
    if curr.reset == sig1
    then tb (pos 0) (cleared curr) (to 1 st) false
    else tb (pos 0) curr st false
waitrst_at (suc zero) curr st =
    if curr.reset == sig0 then tb (pos 0) curr (to 2 st) false else tb (pos 0) curr st false
waitrst_at (suc (suc zero)) curr st = tb (pos 1) curr st false
waitrst_at (suc (suc (suc n))) curr st = tb (negsuc 0) curr st false

unfoldable pub tc_waitrst_step : Sigs → TcState → Result Tb
tc_waitrst_step curr st = assert (curr.clock == sig1) >> waitrst_at st.step curr st

-- What the `init` of the other four tests does.
abbrev fifo_init : (ℕ → ℕ) → Sigs → TcState → Result Tb
fifo_init rand curr st = fill_fixed_len rand 0 st.buf st.size >>= λ r.
    assert (r.0 == st.size)
    >> tb (pos 0) curr (record st { step = 0; head = 0; tail = 0; buf = r.1 }) false

-- Step 0 of these tests.
abbrev await_ready : Sigs → TcState → Result Tb
await_ready curr st =
    let c : Sigs = record curr { r_rdy = sig0 } in
    if c.w_rdy == sig1 then tb (pos 0) c (to 1 st) false else tb (pos 0) c st false

abbrev out_of_reset : Sigs → Result Tb → Result Tb
out_of_reset curr r = assert (curr.clock == sig1 && curr.reset == sig0) >> r

-- What follows a call: a negative result, one above 0, and 0.
abbrev on_result : (Tb → Result Tb) → (Tb → Result Tb) → Tb → Result Tb
on_result negative done s =
    if is_negative s.code
    then negative s
    else if is_positive s.code
    then done s
    else tb (pos 0) s.sigs s.st s.error

-- `return result`, `pt_error(…); return -1`, and `pt_error(…)` alone.
abbrev returns : Tb → Result Tb
returns s = ok s

abbrev fails : Tb → Result Tb
fails s = tb (negsuc 0) s.sigs s.st true

abbrev reports : Tb → Result Tb
reports s = tb (pos 0) s.sigs s.st true

-- The packet must not end here.
abbrev must_go_on : ℕ → Tb → Result Tb
must_go_on n s =
    if is_negative s.code || is_positive s.code
    then fails s
    else tb (pos 0) s.sigs (to n s.st) s.error

-- Storing and fetching in the same step.
abbrev fetch_too : Tb → Result Tb
fetch_too s = fetch_packet s.sigs s.st >>= λ f.
    tb (pos 0) f.sigs f.st (s.error || (f.error || (is_negative f.code || is_positive f.code)))

unfoldable pub tc_wrdata1_init : (ℕ → ℕ) → Sigs → TcState → Result Tb
tc_wrdata1_init rand curr st = fifo_init rand curr st

-- WRITE PACKET.
abbrev wrdata1_at : ℕ → Sigs → TcState → Result Tb
wrdata1_at zero curr st = await_ready curr st
wrdata1_at (suc zero) curr st =
    store_packet curr st >>= on_result returns (λ s. tb (pos 0) s.sigs (to 2 s.st) s.error)
wrdata1_at (suc (suc zero)) curr st = tb (pos 0) (record curr { save = sig1 }) (to 3 st) false
wrdata1_at (suc (suc (suc zero))) curr st =
    let c : Sigs = record curr { save = sig0 } in
    if c.r_vld == sig1 then tb (pos 0) c (to 4 st) false else tb (pos 0) c st false
wrdata1_at (suc (suc (suc (suc zero)))) curr st =
    fetch_packet curr st
    >>= on_result returns (λ s. tb (pos 0) (record (s.sigs) { next = sig1 }) (to 5 s.st) s.error)
wrdata1_at (suc (suc (suc (suc (suc zero))))) curr st =
    tb (pos 1) (record curr { next = sig0 }) st false
wrdata1_at (suc (suc (suc (suc (suc (suc n)))))) curr st = tb (negsuc 0) curr st false

unfoldable pub tc_wrdata1_step : Sigs → TcState → Result Tb
tc_wrdata1_step curr st = out_of_reset curr (wrdata1_at st.step curr st)

unfoldable pub tc_wr_redo_init : (ℕ → ℕ) → Sigs → TcState → Result Tb
tc_wr_redo_init rand curr st = fifo_init rand curr st

-- WRITE, FETCH, REDO PACKET. Step 5 falls through to step 6.
abbrev fetch_second : ℕ → Sigs → TcState → Result Tb
fetch_second n curr st =
    fetch_packet (record curr { next = sig0 }) st
    >>= on_result reports (λ s.
      tb (pos 0) (record (s.sigs) { next = sig1 }) (record (s.st) { step = n + 1; tail = 0 })
        s.error)

abbrev wr_redo_at : ℕ → Sigs → TcState → Result Tb
wr_redo_at zero curr st = await_ready curr st
wr_redo_at (suc zero) curr st =
    store_packet curr st
    >>= on_result fails (λ s.
      tb (pos 0) (record (s.sigs) { save = sig1 }) (record (s.st) { head = 0; step = 2 }) s.error)
wr_redo_at (suc (suc zero)) curr st = store_packet (record curr { save = sig0 }) st >>= must_go_on 3
wr_redo_at (suc (suc (suc zero))) curr st =
    store_packet curr st
    >>= on_result reports (λ s. tb (pos 0) (record (s.sigs) { save = sig1 }) (to 4 s.st) s.error)
    >>= fetch_too
wr_redo_at (suc (suc (suc (suc zero)))) curr st =
    fetch_packet (record curr { save = sig0 }) st
    >>= on_result reports (λ s.
      tb (pos 0) (record (s.sigs) { redo = sig1 }) (record (s.st) { step = 5; tail = 0 }) s.error)
wr_redo_at (suc (suc (suc (suc (suc zero))))) curr st =
    fetch_second 5 (record curr { redo = sig0 }) st
wr_redo_at (suc (suc (suc (suc (suc (suc zero)))))) curr st = fetch_second 6 curr st
wr_redo_at (suc (suc (suc (suc (suc (suc (suc zero))))))) curr st =
    tb (pos 1) (record curr { next = sig0 }) st false
wr_redo_at (suc (suc (suc (suc (suc (suc (suc (suc n)))))))) curr st = tb (negsuc 0) curr st false

unfoldable pub tc_wr_redo_step : Sigs → TcState → Result Tb
tc_wr_redo_step curr st = out_of_reset curr (wr_redo_at st.step curr st)

unfoldable pub tc_wr_drop_init : (ℕ → ℕ) → Sigs → TcState → Result Tb
tc_wr_drop_init rand curr st = fifo_init rand curr st

-- WRITE, DROP, WRITE, FETCH PACKET.
abbrev wr_drop_at : ℕ → Sigs → TcState → Result Tb
wr_drop_at zero curr st = await_ready curr st
wr_drop_at (suc zero) curr st =
    store_packet curr st
    >>= on_result fails (λ s.
      tb (pos 0) (record (s.sigs) { drop_sig = sig1 }) (record (s.st) { head = 0; step = 2 })
        s.error)
wr_drop_at (suc (suc zero)) curr st =
    store_packet (record curr { drop_sig = sig0 }) st >>= must_go_on 3
wr_drop_at (suc (suc (suc zero))) curr st =
    store_packet curr st
    >>= on_result reports (λ s. tb (pos 0) (record (s.sigs) { save = sig1 }) (to 4 s.st) s.error)
    >>= fetch_too
wr_drop_at (suc (suc (suc (suc zero)))) curr st =
    fetch_packet (record curr { save = sig0 }) st
    >>= on_result reports (λ s.
      tb (pos 0) (record (s.sigs) { next = sig1 }) (record (s.st) { step = 5; tail = 0 }) s.error)
wr_drop_at (suc (suc (suc (suc (suc zero))))) curr st =
    tb (pos 1) (record curr { next = sig0 }) st false
wr_drop_at (suc (suc (suc (suc (suc (suc n)))))) curr st = tb (negsuc 0) curr st false

unfoldable pub tc_wr_drop_step : Sigs → TcState → Result Tb
tc_wr_drop_step curr st = out_of_reset curr (wr_drop_at st.step curr st)

unfoldable pub tc_stop_go_init : (ℕ → ℕ) → Sigs → TcState → Result Tb
tc_stop_go_init rand curr st = fifo_init rand curr st

-- STOP-GO-STOP-GO; `r` is what `rand` returns.
abbrev stop_go_at : ℕ → ℕ → Sigs → TcState → Result Tb
stop_go_at zero r curr st = await_ready curr st
stop_go_at (suc zero) r curr st =
    store_packet curr st
    >>= on_result fails (λ s.
      tb (pos 0) (record (s.sigs) { save = sig1 }) (record (s.st) { head = 0; step = 2 }) s.error)
stop_go_at (suc (suc zero)) r curr st =
    fetch_stop_go r (record curr { save = sig0 }) st
    >>= on_result reports (λ s.
      tb (pos 0) (record (s.sigs) { next = sig1 }) (record (s.st) { step = 3; tail = 0 }) s.error)
stop_go_at (suc (suc (suc zero))) r curr st = tb (pos 1) (record curr { next = sig0 }) st false
stop_go_at (suc (suc (suc (suc n)))) r curr st = tb (negsuc 0) curr st false

unfoldable pub tc_stop_go_step : ℕ → Sigs → TcState → Result Tb
tc_stop_go_step r curr st = out_of_reset curr (stop_go_at st.step r curr st)
