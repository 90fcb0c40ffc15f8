-- ===== src/Cases/Addressing.antt =====
-- The control transfer of vpi/tc_setaddr.c, from `init` to its end, together with the steps of the
-- host: when the host begins to use the new address.
use misc_verilog_cores.Base.{
  ℕ, ◌+◌, ◌<◌, ◌≡◌, refl, sym, ap, ◌∙◌, ◌==◌, ltb, if◌then◌else◌, pos, arith,
}
use misc_verilog_cores.Host.{Host, host_setup, host_idle}
use misc_verilog_cores.Host.Request.{stdreq_set_address, stdreq_start}
use misc_verilog_cores.Cases.{tried}
use misc_verilog_cores.Cases.Control.{
  ShortState, ShortStage, short_setup, short_data0, short_ack0, short_in, short_data1, short_ack,
  short_done, short_index, tc_setaddr_init, tc_setaddr_step,
}
use misc_verilog_cores.Cases.Runs.{Run, IsPacketed, At, in_step, tick}
use misc_verilog_cores.Cases.Stages.{from_init}

abbrev index_of : ShortState → ℕ
index_of t = short_index t.stage

-- The address that a test case has given to the host, from the ACK of its data packet on.
abbrev Addressed : ℕ → ℕ → ShortState → Host → Type 0
Addressed old new t h =
    (t.value ≡ new) × (h.addr ≡ (if ltb (short_index t.stage) 3 then old else new))

setaddr_on :
    (old new v : ℕ) (s : ShortStage) (h : Host)
    → (let t : ShortState = record { stage = s; value = v } in
        Addressed old new t h
        → short_index s + 1 < 6
        → h.step ≡ short_index s
        → (t' : ShortState) × (h' : Host) × (tc_setaddr_step t h ≡ tried (pos 0) t' h')
          × (short_index t'.stage ≡ short_index s + 1)
          × (h'.step ≡ short_index s + 1)
          × (h'.op ≡ h.op)
          × Addressed old new t' h')
unfolding short_index tc_setaddr_step
setaddr_on old new v short_setup h p l e = (_, _, refl, refl, ground arith, refl, p)
setaddr_on old new v short_data0 h p l e = (_, _, refl, refl, ground arith, refl, p)
setaddr_on old new v short_ack0 h p l e = (_, _, refl, refl, ground arith, refl, (p.0, p.0))
setaddr_on old new v short_in h p l e = (_, _, refl, refl, ground arith, refl, p)
setaddr_on old new v short_data1 h p l e = (_, _, refl, refl, ground arith, refl, p)
setaddr_on old new v short_ack h p l e = absurd (omega arith)
setaddr_on old new v short_done h p l e = absurd (omega arith)

setaddr-IsPacketed : (old new : ℕ) → IsPacketed tc_setaddr_step index_of 6 (Addressed old new)
setaddr-IsPacketed old new = record {
  stable = λ t h n x p. p;
  on = λ t h p l e. setaddr_on old new t.value t.stage h p l e;
}

setaddr_begins :
    (st first : ShortState) (host start : Host)
    → tc_setaddr_init st host ≡ tried (pos 0) first start
    → At index_of (Addressed host.addr st.value) 0 first start
unfolding tc_setaddr_init stdreq_set_address stdreq_start short_index
setaddr_begins st first host start e =
    let (n, t, h) =
      from_init (record st { stage = short_setup }) (stdreq_set_address host st.value) first start
        e in
    record {
      test_at = ap index_of t;
      host_at = ap (λ (x : Host). x.step) h;
      op_at = ap (λ (x : Host). x.op) h;
      kept = (
        ap (λ (x : ShortState). x.value) t,
        ap (λ (x : Host). x.addr) h
            ∙ ap (λ (x : ShortState). if ltb (index_of x) 3 then host.addr else st.value) (sym t),
      );
    }

setaddr_call :
    (new v : ℕ) (s : ShortStage) (h : Host)
    → (let t : ShortState = record { stage = s; value = v } in
        short_index s < 6
        → h.step ≡ short_index s
        → (short_index s ≡ 5 → h.addr ≡ new)
        → (t' : ShortState) × (h' : Host) × (tc_setaddr_step t h
            ≡ tried (pos (if short_index s == 5 then 1 else 0)) t' h')
          × (h'.step ≡ short_index s + 1)
          × (short_index s ≡ 5 → (h'.op ≡ host_idle) × (h'.addr ≡ new)))
unfolding short_index tc_setaddr_step
setaddr_call new v short_setup h l e p = (_, _, refl, ground arith, λ w. absurd (omega arith))
setaddr_call new v short_data0 h l e p = (_, _, refl, ground arith, λ w. absurd (omega arith))
setaddr_call new v short_ack0 h l e p = (_, _, refl, ground arith, λ w. absurd (omega arith))
setaddr_call new v short_in h l e p = (_, _, refl, ground arith, λ w. absurd (omega arith))
setaddr_call new v short_data1 h l e p = (_, _, refl, ground arith, λ w. absurd (omega arith))
setaddr_call new v short_ack h l e p = (_, _, refl, ground arith, λ w. (refl, p w))
setaddr_call new v short_done h l e p = absurd (omega arith)

-- After the `init` of SET ADDRESS, and whatever the host does between the calls, on any bus out of
-- reset: after `k` of the six calls the step number of the host and the stage of the test are `k`, the
-- host is in its control transfer, and it has its old address before the third call and the new one
-- from then on. The next call returns 0, or 1 behind the last packet, and then the host is idle with
-- the new address.
pub setaddr_in_step :
    (st first t : ShortState) (host start h : Host) (k : ℕ)
    → tc_setaddr_init st host ≡ tried (pos 0) first start
    → Run tc_setaddr_step first start k t h
    → k < 6
    → (short_index t.stage ≡ k)
      × (h.step ≡ k)
      × (h.op ≡ host_setup)
      × (h.addr ≡ (if ltb k 3 then host.addr else st.value))
      × (t' : ShortState) × (h' : Host) × (tc_setaddr_step t (tick h)
          ≡ tried (pos (if k == 5 then 1 else 0)) t' h')
      × (h'.step ≡ k + 1)
      × (k ≡ 5 → (h'.op ≡ host_idle) × (h'.addr ≡ st.value))
setaddr_in_step st first t host start h k e r l =
    let a =
      in_step (setaddr-IsPacketed host.addr st.value) (setaddr_begins st first host start e) r l in
    let i = a.test_at in
    let addr : h.addr ≡ (if ltb k 3 then host.addr else st.value) = rw (← i) a.kept.1 in
    let (t', h', s, n, f) =
      setaddr_call st.value t.value t.stage (tick h) (omega (arith, i)) (a.host_at ∙ sym i)
        (λ w. ground (arith, addr)) in
    (i, a.host_at, a.op_at, addr, t', h', rw (← i) s, rw (← i) n, rw (← i) f)
