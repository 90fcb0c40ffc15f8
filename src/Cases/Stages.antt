-- ===== src/Cases/Stages.antt =====
-- The control transfers of vpi/tc_getdesc.c, vpi/tc_setaddr.c and vpi/tc_setconf.c, from `init` to
-- their end, together with the steps of the host.
use misc_verilog_cores.Base.{
  ℕ, ◌+◌, ◌<◌, ◌≡◌, refl, sym, ap, ◌∙◌, ◌==◌, true, false, if◌then◌else◌, ℤ, pos, arith, Bool-cases,
  inl, inr, negsuc, is_negative,
}
use misc_verilog_cores.Host.{Host, host_setup, host_idle, usbh_busy}
use misc_verilog_cores.Host.Request.{stdreq_get_descriptor, stdreq_start}
use misc_verilog_cores.Cases.{
  Calls, Tried, tried, Stage, send_setup, send_data0, recv_ack0, send_in, recv_data1, send_ack,
  send_out, send_zdp, recv_ack1, stage_done,
}
use misc_verilog_cores.Cases.Control.{stage_index, init_code, tc_getdesc_init, tc_getdesc_step}
use misc_verilog_cores.Cases.Runs.{tried_or, Run, IsPacketed, At, in_step, tick}

abbrev Nothing : {T : Type 0} → T → Host → Type 0
Nothing t h = Unit

getdesc_on :
    (t : Stage) (h : Host)
    → stage_index t + 1 < 9
    → h.step ≡ stage_index t
    → (t' : Stage) × (h' : Host) × (tc_getdesc_step t h ≡ tried (pos 0) t' h')
      × (stage_index t' ≡ stage_index t + 1)
      × (h'.step ≡ stage_index t + 1)
      × (h'.op ≡ h.op)
      × Unit {0}
unfolding stage_index tc_getdesc_step
getdesc_on send_setup h l e = (_, _, refl, refl, ground arith, refl, tt)
getdesc_on send_data0 h l e = (_, _, refl, refl, ground arith, refl, tt)
getdesc_on recv_ack0 h l e = (_, _, refl, refl, ground arith, refl, tt)
getdesc_on send_in h l e = (_, _, refl, refl, ground arith, refl, tt)
getdesc_on recv_data1 h l e = (_, _, refl, refl, ground arith, refl, tt)
getdesc_on send_ack h l e = (_, _, refl, refl, ground arith, refl, tt)
getdesc_on send_out h l e = (_, _, refl, refl, ground arith, refl, tt)
getdesc_on send_zdp h l e = (_, _, refl, refl, ground arith, refl, tt)
getdesc_on recv_ack1 h l e = absurd (omega arith)
getdesc_on stage_done h l e = absurd (omega arith)

getdesc-IsPacketed : IsPacketed tc_getdesc_step stage_index 9 Nothing
getdesc-IsPacketed = record { stable = λ t h n x p. tt; on = λ t h p l e. getdesc_on t h l e }

-- What an `init` that returned 0 left.
module _ {T : Type 0} (test : T) where
  pub from_init :
      (r : ℤ × Host) (first : T) (start : Host)
      → init_code test r ≡ tried (pos 0) first start
      → (is_negative r.0 ≡ false) × (first ≡ test) × (start ≡ r.1)
  from_init (pos n, h) first start e =
      let same : record { code = pos 0; test = test; host = h }
          ≡ record { code = pos 0; test = first; host = start } =
        ap (tried_or (record { code = pos 0; test = first; host = start })) e in
      (refl, ap (λ (x : Tried T). x.test) (sym same), ap (λ (x : Tried T). x.host) (sym same))
  from_init (negsuc n, h) first start e =
      let same : record { code = negsuc 0; test = test; host = h }
          ≡ record { code = pos 0; test = first; host = start } =
        ap (tried_or (record { code = pos 0; test = first; host = start })) e in
      let no : true ≡ false = ap (λ (x : Tried T). is_negative x.code) same in absurd (ground arith)

descriptor_request :
    (c : Calls) (host : Host)
    → is_negative (stdreq_get_descriptor c.memory host 0x0301).0 ≡ false
    → ((stdreq_get_descriptor c.memory host 0x0301).1.step ≡ 0)
      × ((stdreq_get_descriptor c.memory host 0x0301).1.op ≡ host_setup)
unfolding stdreq_get_descriptor stdreq_start
descriptor_request c host e = elim (Bool-cases (usbh_busy host)) [
  | inl b ↦ absurd (ground arith)
  | inr b ↦ rw (b) (refl, refl)
]

getdesc_begins :
    (c : Calls) (st first : Stage) (host start : Host)
    → tc_getdesc_init c st host ≡ tried (pos 0) first start
    → At stage_index Nothing 0 first start
unfolding tc_getdesc_init stage_index
getdesc_begins c st first host start e =
    let (n, t, h) =
      from_init send_setup (stdreq_get_descriptor c.memory host 0x0301) first start e in
    let (z, o) = descriptor_request c host n in
    record {
      test_at = ap stage_index t;
      host_at = ap (λ (x : Host). x.step) h ∙ z;
      op_at = ap (λ (x : Host). x.op) h ∙ o;
      kept = tt;
    }

-- The call behind the packet of a stage.
getdesc_call :
    (t : Stage) (h : Host)
    → stage_index t < 9
    → h.step ≡ stage_index t
    → (t' : Stage) × (h' : Host) × (tc_getdesc_step t h
        ≡ tried (pos (if stage_index t == 8 then 1 else 0)) t' h')
      × (h'.step ≡ stage_index t + 1)
      × (stage_index t ≡ 8 → (h'.op ≡ host_idle) × (t' ≡ stage_done))
unfolding stage_index tc_getdesc_step
getdesc_call send_setup h l e = (_, _, refl, ground arith, λ w. absurd (omega arith))
getdesc_call send_data0 h l e = (_, _, refl, ground arith, λ w. absurd (omega arith))
getdesc_call recv_ack0 h l e = (_, _, refl, ground arith, λ w. absurd (omega arith))
getdesc_call send_in h l e = (_, _, refl, ground arith, λ w. absurd (omega arith))
getdesc_call recv_data1 h l e = (_, _, refl, ground arith, λ w. absurd (omega arith))
getdesc_call send_ack h l e = (_, _, refl, ground arith, λ w. absurd (omega arith))
getdesc_call send_out h l e = (_, _, refl, ground arith, λ w. absurd (omega arith))
getdesc_call send_zdp h l e = (_, _, refl, ground arith, λ w. absurd (omega arith))
getdesc_call recv_ack1 h l e = (_, _, refl, ground arith, λ w. (refl, refl))
getdesc_call stage_done h l e = absurd (omega arith)

-- After an `init` of GET DESCRIPTOR that returned 0, and whatever the host does between the calls, on
-- any bus out of reset: after `k` of the nine calls the step number of the host and the stage of the
-- test are `k` and the host is in its control transfer. The next call returns 0, or 1 behind the last
-- packet, and then the host is idle and the test done.
pub getdesc_in_step :
    (c : Calls) (st first t : Stage) (host start h : Host) (k : ℕ)
    → tc_getdesc_init c st host ≡ tried (pos 0) first start
    → Run tc_getdesc_step first start k t h
    → k < 9
    → (stage_index t ≡ k)
      × (h.step ≡ k)
      × (h.op ≡ host_setup)
      × (t' : Stage) × (h' : Host) × (tc_getdesc_step t (tick h)
          ≡ tried (pos (if k == 8 then 1 else 0)) t' h')
      × (h'.step ≡ k + 1)
      × (k ≡ 8 → (h'.op ≡ host_idle) × (t' ≡ stage_done))
getdesc_in_step c st first t host start h k e r l =
    let a = in_step getdesc-IsPacketed (getdesc_begins c st first host start e) r l in
    let i = a.test_at in
    let (t', h', s, n, f) = getdesc_call t (tick h) (omega (arith, i)) (a.host_at ∙ sym i) in
    (i, a.host_at, a.op_at, t', h', rw (← i) s, rw (← i) n, rw (← i) f)
