-- ===== src/Bench/Codes.antt =====
-- The results of the test cases: none of them is above 1, the code that ends all tests.
use misc_verilog_cores.Base.{
  ℕ, zero, suc, ◌≡◌, refl, Bool, true, not, ℤ, pos, negsuc, Result, ok, fault, arith,
}
use misc_verilog_cores.Host.{Host}
use misc_verilog_cores.Host.Control.{above_one}
use misc_verilog_cores.Host.Request.{
  stdreq_get_descriptor, stdreq_get_status, stdreq_get_desc_device, stdreq_get_desc_config,
  stdreq_set_address, stdreq_set_config,
}
use misc_verilog_cores.Cases.{Calls, Tried, Stage, send_setup}
use misc_verilog_cores.Cases.Control.{
  init_code, tc_getdesc_init, tc_getdesc_step, ShortState, short_setup, tc_setaddr_init,
  tc_setaddr_step, tc_setconf_init, tc_setconf_step,
}
use misc_verilog_cores.Cases.Requests.{
  GetState, restart, request_code, getconf_request, tc_getconf_init, tc_getconf_step, packet_done,
  getstrs_request, tc_getstrs_init, tc_getstrs_step,
}
use misc_verilog_cores.Cases.Bulk.{
  WaitState, tc_waitsof_init, tc_waitsof_step, BulkInState, tc_bulkin_init, tc_bulkin_step,
  BulkOutState, tc_bulkout_init, tc_bulkout_step,
}
use misc_verilog_cores.Cases.Ddr.{
  DdrOut, tc_ddr3out_init, tc_ddr3out_step, DdrIn, tc_ddr3in_init, tc_ddr3in_step,
}
use misc_verilog_cores.Cases.Parity.{ParityState, tc_parity_init, tc_parity_step}
use misc_verilog_cores.Bench.{TestOps}
use misc_verilog_cores.Bench.Suite.{
  TestCase, getdesc, setaddr, setconf, getconf, getstrs, waitsof, bulkout, ddr3out, ddr3in, bulkin,
  parity, tag, case_init, case_step, case_ops,
}

abbrev pub low : {T : Type 0} → Result (Tried T) → Bool
low (ok t) = not (above_one t.code)
low (fault f) = true

-- What the simulation relies on.
pub record HasLowCodes {T : Type 0} (ops : TestOps T) : Type 0 where
  pub init_low : (c : Calls) (t : T) (host : Host) → low (ops.init c t host) ≡ true
  pub step_low : (c : Calls) (t : T) (host : Host) → low (ops.step c t host) ≡ true

module _ {T : Type 0} where
  init_code-low : (t : T) (c : ℤ) (host : Host) → low (init_code t (c, host)) ≡ true
  init_code-low t (pos n) host = refl
  init_code-low t (negsuc n) host = refl

  low-tag : (f : T → TestCase) (r : Result (Tried T)) → low r ≡ true → low (tag f r) ≡ true
  low-tag f (ok t) h = h
  low-tag f (fault e) h = refl

module _ (c : Calls) where
  getdesc_low :
      (st : Stage) (host : Host)
      → (low (tc_getdesc_init c st host) ≡ true) × (low (tc_getdesc_step st host) ≡ true)
  unfolding tc_getdesc_init tc_getdesc_step
  getdesc_low st host =
      let r = stdreq_get_descriptor c.memory host 0x0301 in
      (init_code-low send_setup r.0 r.1, ground arith)

  setaddr_low :
      (st : ShortState) (host : Host)
      → (low (tc_setaddr_init st host) ≡ true) × (low (tc_setaddr_step st host) ≡ true)
  unfolding tc_setaddr_init tc_setaddr_step
  setaddr_low st host =
      let r = stdreq_set_address host st.value in
      (init_code-low (record st { stage = short_setup }) r.0 r.1, ground arith)

  setconf_low :
      (st : ShortState) (host : Host)
      → (low (tc_setconf_init st host) ≡ true) × (low (tc_setconf_step st host) ≡ true)
  unfolding tc_setconf_init tc_setconf_step
  setconf_low st host =
      let r = stdreq_set_config host st.value in
      (init_code-low (record st { stage = short_setup }) r.0 r.1, ground arith)

  request_code-low : (st : GetState) (r : ℤ × Host) → low (request_code st r) ≡ true
  request_code-low st r = ground arith

  getconf_init_low : (n : ℕ) (st : GetState) (host : Host) → low (getconf_request n st host) ≡ true
  unfolding getconf_request
  getconf_init_low zero st host = request_code-low st (stdreq_get_desc_device host)
  getconf_init_low (suc zero) st host = request_code-low st (stdreq_get_desc_config host 9)
  getconf_init_low (suc (suc zero)) st host = request_code-low st (stdreq_get_desc_config host 39)
  getconf_init_low (suc (suc (suc zero))) st host = refl
  getconf_init_low (suc (suc (suc (suc n)))) st host = refl

  getstrs_init_low :
      (n : ℕ) (st : GetState) (host : Host) → low (getstrs_request c.memory n st host) ≡ true
  unfolding getstrs_request
  getstrs_init_low zero st host = request_code-low st (stdreq_get_descriptor c.memory host 0x0300)
  getstrs_init_low (suc zero) st host =
      request_code-low st (stdreq_get_descriptor c.memory host 0x0301)
  getstrs_init_low (suc (suc zero)) st host =
      request_code-low st (stdreq_get_descriptor c.memory host 0x0302)
  getstrs_init_low (suc (suc (suc zero))) st host =
      request_code-low st (stdreq_get_descriptor c.memory host 0x0303)
  getstrs_init_low (suc (suc (suc (suc zero)))) st host =
      request_code-low st (stdreq_get_status host)
  getstrs_init_low (suc (suc (suc (suc (suc zero))))) st host = refl
  getstrs_init_low (suc (suc (suc (suc (suc (suc n)))))) st host = refl

  getconf_low :
      (st : GetState) (host : Host)
      → (low (tc_getconf_init st host) ≡ true) × (low (tc_getconf_step st host) ≡ true)
  unfolding tc_getconf_init tc_getconf_step packet_done
  getconf_low st host = (getconf_init_low st.stage (restart st) host, ground arith)

  getstrs_low :
      (st : GetState) (host : Host)
      → (low (tc_getstrs_init c st host) ≡ true) × (low (tc_getstrs_step c st host) ≡ true)
  unfolding tc_getstrs_init tc_getstrs_step packet_done
  getstrs_low st host = (getstrs_init_low st.stage (restart st) host, ground arith)

  waitsof_low :
      (st : WaitState) (host : Host)
      → (low (tc_waitsof_init st host) ≡ true) × (low (tc_waitsof_step st host) ≡ true)
  unfolding tc_waitsof_init tc_waitsof_step
  waitsof_low st host = (ground arith, ground arith)

  bulkin_low :
      (st : BulkInState) (host : Host)
      → (low (tc_bulkin_init st host) ≡ true) × (low (tc_bulkin_step st host) ≡ true)
  unfolding tc_bulkin_init tc_bulkin_step
  bulkin_low st host = (ground arith, ground arith)

  bulkout_low :
      (st : BulkOutState) (host : Host)
      → (low (tc_bulkout_init c st host) ≡ true) × (low (tc_bulkout_step c st host) ≡ true)
  unfolding tc_bulkout_init tc_bulkout_step
  bulkout_low st host = (ground arith, ground arith)

  ddr3out_low :
      (st : DdrOut) (host : Host)
      → (low (tc_ddr3out_init c st host) ≡ true) × (low (tc_ddr3out_step c st host) ≡ true)
  unfolding tc_ddr3out_init tc_ddr3out_step
  ddr3out_low st host = (ground arith, ground arith)

  ddr3in_low :
      (st : DdrIn) (host : Host)
      → (low (tc_ddr3in_init st host) ≡ true) × (low (tc_ddr3in_step st host) ≡ true)
  unfolding tc_ddr3in_init tc_ddr3in_step
  ddr3in_low st host = (ground arith, ground arith)

  parity_low :
      (st : ParityState) (host : Host)
      → (low (tc_parity_init c st host) ≡ true) × (low (tc_parity_step c st host) ≡ true)
  unfolding tc_parity_init tc_parity_step
  parity_low st host = (ground arith, ground arith)

  case_init-low : (t : TestCase) (host : Host) → low (case_init c t host) ≡ true
  unfolding case_init
  case_init-low (getdesc st) host =
      low-tag getdesc (tc_getdesc_init c st host) (getdesc_low st host).0
  case_init-low (setaddr st) host =
      low-tag setaddr (tc_setaddr_init st host) (setaddr_low st host).0
  case_init-low (setconf st) host =
      low-tag setconf (tc_setconf_init st host) (setconf_low st host).0
  case_init-low (getconf st) host =
      low-tag getconf (tc_getconf_init st host) (getconf_low st host).0
  case_init-low (getstrs st) host =
      low-tag getstrs (tc_getstrs_init c st host) (getstrs_low st host).0
  case_init-low (waitsof st) host =
      low-tag waitsof (tc_waitsof_init st host) (waitsof_low st host).0
  case_init-low (bulkout st) host =
      low-tag bulkout (tc_bulkout_init c st host) (bulkout_low st host).0
  case_init-low (ddr3out st) host =
      low-tag ddr3out (tc_ddr3out_init c st host) (ddr3out_low st host).0
  case_init-low (ddr3in st) host = low-tag ddr3in (tc_ddr3in_init st host) (ddr3in_low st host).0
  case_init-low (bulkin st) host = low-tag bulkin (tc_bulkin_init st host) (bulkin_low st host).0
  case_init-low (parity st) host = low-tag parity (tc_parity_init c st host) (parity_low st host).0

  case_step-low : (t : TestCase) (host : Host) → low (case_step c t host) ≡ true
  unfolding case_step
  case_step-low (getdesc st) host =
      low-tag getdesc (tc_getdesc_step st host) (getdesc_low st host).1
  case_step-low (setaddr st) host =
      low-tag setaddr (tc_setaddr_step st host) (setaddr_low st host).1
  case_step-low (setconf st) host =
      low-tag setconf (tc_setconf_step st host) (setconf_low st host).1
  case_step-low (getconf st) host =
      low-tag getconf (tc_getconf_step st host) (getconf_low st host).1
  case_step-low (getstrs st) host =
      low-tag getstrs (tc_getstrs_step c st host) (getstrs_low st host).1
  case_step-low (waitsof st) host =
      low-tag waitsof (tc_waitsof_step st host) (waitsof_low st host).1
  case_step-low (bulkout st) host =
      low-tag bulkout (tc_bulkout_step c st host) (bulkout_low st host).1
  case_step-low (ddr3out st) host =
      low-tag ddr3out (tc_ddr3out_step c st host) (ddr3out_low st host).1
  case_step-low (ddr3in st) host = low-tag ddr3in (tc_ddr3in_step st host) (ddr3in_low st host).1
  case_step-low (bulkin st) host = low-tag bulkin (tc_bulkin_step st host) (bulkin_low st host).1
  case_step-low (parity st) host = low-tag parity (tc_parity_step c st host) (parity_low st host).1

pub case_ops-HasLowCodes : HasLowCodes case_ops
unfolding case_ops
case_ops-HasLowCodes = record { init_low = case_init-low; step_low = case_step-low }
