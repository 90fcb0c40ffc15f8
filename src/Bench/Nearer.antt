-- ===== src/Bench/Nearer.antt =====
-- A call of `step` of a test case vpi/tc_*.c that returns 0 brings its end nearer.
use misc_verilog_cores.Base.{
  ℕ, zero, suc, ◌+◌, ◌<◌, ◌≡◌, refl, u8, true, ltb, if◌then◌else◌, ℤ, pos, is_negative, ◌>>=◌,
  arith, Bool-cases, inl, inr,
}
use misc_verilog_cores.Host.{Host, host_idle}
use misc_verilog_cores.Host.Request.{
  stdreq_get_descriptor, stdreq_get_status, stdreq_get_desc_device, stdreq_get_desc_config,
}
use misc_verilog_cores.Cases.{Calls, tried, Stage, recv_ack1, next_step, go_idle}
use misc_verilog_cores.Cases.Control.{tc_getdesc_step, ShortState, tc_setaddr_step, tc_setconf_step}
use misc_verilog_cores.Cases.Requests.{
  GetState, restart, request_code, getconf_request, tc_getconf_init, tc_getconf_step, packet_done,
  getstrs_request, tc_getstrs_init, tc_getstrs_step,
}
use misc_verilog_cores.Cases.Bulk.{
  WaitState, tc_waitsof_step, BulkInState, tc_bulkin_step, BulkOutState, tc_bulkout_step,
}
use misc_verilog_cores.Cases.Ddr.{DdrOut, DdrIn, tc_ddr3out_step, tc_ddr3in_step}
use misc_verilog_cores.Cases.Parity.{
  ParityState, ParityStep, parity_out1, tc_parity_init, tc_parity_step,
}
use misc_verilog_cores.Bench.Suite.{
  TestCase, getdesc, setaddr, setconf, getconf, getstrs, waitsof, bulkout, ddr3out, ddr3in, bulkin,
  parity, tag, case_step,
}
use misc_verilog_cores.Bench.Left.{
  stages_left, short_left, bulkin_left, bulkout_left, ddr_left, parity_left, rounds_left,
  calls_left, in_rounds, nearer,
}

module _ (c : Calls) (host : Host) where
  getdesc_nearer :
      (st : Stage) → nearer (stages_left st) (tag getdesc (tc_getdesc_step st host)) ≡ true
  unfolding tc_getdesc_step calls_left in_rounds
  getdesc_nearer st = ground arith

  setaddr_nearer :
      (st : ShortState)
      → nearer (short_left st.stage) (tag setaddr (tc_setaddr_step st host)) ≡ true
  unfolding tc_setaddr_step calls_left in_rounds
  setaddr_nearer st = ground arith

  setconf_nearer :
      (st : ShortState)
      → nearer (short_left st.stage) (tag setconf (tc_setconf_step st host)) ≡ true
  unfolding tc_setconf_step calls_left in_rounds
  setconf_nearer st = ground arith

  waitsof_nearer : (st : WaitState) → nearer 1 (tag waitsof (tc_waitsof_step st host)) ≡ true
  unfolding tc_waitsof_step
  waitsof_nearer st = ground arith

  bulkin_nearer :
      (st : BulkInState) → nearer (bulkin_left st.step) (tag bulkin (tc_bulkin_step st host)) ≡ true
  unfolding tc_bulkin_step calls_left in_rounds
  bulkin_nearer st = ground arith

  bulkout_nearer :
      (st : BulkOutState)
      → nearer (bulkout_left st) (tag bulkout (tc_bulkout_step c st host)) ≡ true
  unfolding tc_bulkout_step calls_left in_rounds
  bulkout_nearer st = ground arith

  ddr3out_nearer :
      (st : DdrOut)
      → ltb st.iter 7 ≡ true
      → nearer (ddr_left 7 st.step st.iter) (tag ddr3out (tc_ddr3out_step c st host)) ≡ true
  unfolding tc_ddr3out_step calls_left in_rounds
  ddr3out_nearer st h = ground arith

  ddr3in_nearer :
      (st : DdrIn)
      → ltb st.iter 6 ≡ true
      → nearer (ddr_left 6 st.step st.iter) (tag ddr3in (tc_ddr3in_step st host)) ≡ true
  unfolding tc_ddr3in_step calls_left in_rounds
  ddr3in_nearer st h = ground arith

  requested :
      (st : GetState) (r : ℤ × Host)
      → request_code st r ≡ tried (if is_negative r.0 then r.0 else pos 0) st r.1
  requested st r = ground arith

  -- The next request keeps the state of the test.
  pub getconf_requested :
      (k : ℕ) (st : GetState) (h : Host)
      → k < 3
      → (c' : ℤ) × (h' : Host) × (getconf_request k st h ≡ tried c' st h')
  unfolding getconf_request
  getconf_requested zero st h l = (_, _, requested st (stdreq_get_desc_device h))
  getconf_requested (suc zero) st h l = (_, _, requested st (stdreq_get_desc_config h 9))
  getconf_requested (suc (suc zero)) st h l = (_, _, requested st (stdreq_get_desc_config h 39))
  getconf_requested (suc (suc (suc k))) st h l = absurd (omega arith)

  pub getstrs_requested :
      (k : ℕ) (st : GetState) (h : Host)
      → k < 5
      → (c' : ℤ) × (h' : Host) × (getstrs_request c.memory k st h ≡ tried c' st h')
  unfolding getstrs_request
  getstrs_requested zero st h l = (_, _, requested st (stdreq_get_descriptor c.memory h 0x0300))
  getstrs_requested (suc zero) st h l =
      (_, _, requested st (stdreq_get_descriptor c.memory h 0x0301))
  getstrs_requested (suc (suc zero)) st h l =
      (_, _, requested st (stdreq_get_descriptor c.memory h 0x0302))
  getstrs_requested (suc (suc (suc zero))) st h l =
      (_, _, requested st (stdreq_get_descriptor c.memory h 0x0303))
  getstrs_requested (suc (suc (suc (suc zero)))) st h l = (_, _, requested st (stdreq_get_status h))
  getstrs_requested (suc (suc (suc (suc (suc k))))) st h l = absurd (omega arith)

  getconf_nearer :
      (s : Stage) (st : GetState)
      → ltb st.stage 3 ≡ true
      → nearer
          (rounds_left 3 9 st.stage (stages_left s))
          (tag getconf (tc_getconf_step (record st { step = s }) host))
        ≡ true
  unfolding tc_getconf_step packet_done calls_left in_rounds tc_getconf_init
  getconf_nearer recv_ack1 st h =
      let k = u8 (st.stage + 1) in
      let counted : GetState = record st { stage = k; step = recv_ack1 } in
      let idle : Host = record (next_step host) { op = host_idle } in
      elim (Bool-cases (ltb k 3)) [
        | inl e ↦
            let (c', h', r) = getconf_requested k (restart counted) idle (ground arith) in
            rw (e, r) (ground arith)
        | inr e ↦ rw (e) refl
      ]
  getconf_nearer s st h = ground arith

  getstrs_nearer :
      (s : Stage) (st : GetState)
      → ltb st.stage 5 ≡ true
      → nearer
          (rounds_left 5 9 st.stage (stages_left s))
          (tag getstrs (tc_getstrs_step c (record st { step = s }) host))
        ≡ true
  unfolding tc_getstrs_step packet_done calls_left in_rounds tc_getstrs_init
  getstrs_nearer recv_ack1 st h =
      let k = u8 (st.stage + 1) in
      let counted : GetState = record st { stage = k; step = recv_ack1 } in
      let idle : Host = record (next_step host) { op = host_idle } in
      elim (Bool-cases (ltb k 5)) [
        | inl e ↦
            let (c', h', r) = getstrs_requested k (restart counted) idle (ground arith) in
            rw (e, r) (ground arith)
        | inr e ↦ rw (e) refl
      ]
  getstrs_nearer s st h = ground arith

  parity_again :
      (k : ℕ) (st : ParityState) (h : Host) (n : ℕ)
      → k < 3
      → rounds_left 3 4 k 4 < n
      → nearer n (
          tag parity
            (tc_parity_init c (record st { stage = k }) h >>= λ t. tried (pos 0) t.test t.host))
        ≡ true
  unfolding tc_parity_init calls_left in_rounds
  parity_again zero st h n l m = ground arith
  parity_again (suc zero) st h n l m = ground arith
  parity_again (suc (suc zero)) st h n l m = ground arith
  parity_again (suc (suc (suc k))) st h n l m = absurd (omega arith)

  parity_nearer :
      (s : ParityStep) (st : ParityState)
      → ltb st.stage 3 ≡ true
      → nearer
          (rounds_left 3 4 st.stage (parity_left s))
          (tag parity (tc_parity_step c (record st { step = s }) host))
        ≡ true
  unfolding tc_parity_step calls_left in_rounds
  parity_nearer parity_out1 st h =
      let k = u8 (st.stage + 1) in
      elim (Bool-cases (ltb k 3)) [
        | inl e ↦ rw (e) (
            parity_again k (record st { step = parity_out1 }) (go_idle host) _ (ground arith)
              (ground arith))
        | inr e ↦ rw (e) refl
      ]
  parity_nearer s st h = ground arith

  -- A call with the result 0 brings every test nearer to its end.
  pub case_nearer :
      (t : TestCase) → in_rounds t ≡ true → nearer (calls_left t) (case_step c t host) ≡ true
  unfolding calls_left in_rounds case_step
  case_nearer (getdesc st) h = getdesc_nearer st
  case_nearer (setaddr st) h = setaddr_nearer st
  case_nearer (setconf st) h = setconf_nearer st
  case_nearer (getconf st) h = getconf_nearer st.step st h
  case_nearer (getstrs st) h = getstrs_nearer st.step st h
  case_nearer (waitsof st) h = waitsof_nearer st
  case_nearer (bulkout st) h = bulkout_nearer st
  case_nearer (ddr3out st) h = ddr3out_nearer st h
  case_nearer (ddr3in st) h = ddr3in_nearer st h
  case_nearer (bulkin st) h = bulkin_nearer st
  case_nearer (parity st) h = parity_nearer st.step st h
