-- ===== src/Bench/Ends.antt =====
-- The test cases of `ut_compiletf` (vpi/tc_*.c without tc_restarts.c) end.
use misc_verilog_cores.Base.{
  ℕ, zero, suc, ◌≤◌, ◌<◌, ◌≡◌, refl, Bool, true, false, ℤ, pos, negsuc, List, [], ◌∷◌, length,
  Result, ok, fault, ◌>>=◌, arith, subst,
}
use misc_verilog_cores.Host.{Host}
use misc_verilog_cores.Cases.{Calls, Tried, tried}
use misc_verilog_cores.Cases.Control.{tc_getdesc_init, tc_setaddr_init, tc_setconf_init}
use misc_verilog_cores.Cases.Requests.{GetState, restart, tc_getconf_init, tc_getstrs_init}
use misc_verilog_cores.Cases.Bulk.{tc_waitsof_init, tc_bulkin_init, tc_bulkout_init}
use misc_verilog_cores.Cases.Ddr.{tc_ddr3out_init, tc_ddr3in_init}
use misc_verilog_cores.Cases.Parity.{ParityState, tc_parity_init}
use misc_verilog_cores.Bench.Suite.{
  TestCase, getdesc, setaddr, setconf, getconf, getstrs, waitsof, bulkout, ddr3out, ddr3in, bulkin,
  parity, tag, case_init, case_step,
}
use misc_verilog_cores.Bench.Left.{calls_left, in_rounds, nearer}
use misc_verilog_cores.Bench.Nearer.{case_nearer, getconf_requested, getstrs_requested}

module _ (c : Calls) (host : Host) where
  getconf_begins :
      (k : ℕ) (st : GetState)
      → k < 3
      → nearer 46 (tag getconf (tc_getconf_init (record st { stage = k }) host)) ≡ true
  unfolding tc_getconf_init calls_left in_rounds
  getconf_begins k st l =
      let (c', h', r) = getconf_requested c host k (restart (record st { stage = k })) host l in
      rw (r) (ground arith)

  getstrs_begins :
      (k : ℕ) (st : GetState)
      → k < 5
      → nearer 46 (tag getstrs (tc_getstrs_init c (record st { stage = k }) host)) ≡ true
  unfolding tc_getstrs_init calls_left in_rounds
  getstrs_begins k st l =
      let (c', h', r) = getstrs_requested c host k (restart (record st { stage = k })) host l in
      rw (r) (ground arith)

  parity_begins :
      (k : ℕ) (st : ParityState)
      → k < 3
      → nearer 46 (tag parity (tc_parity_init c (record st { stage = k }) host)) ≡ true
  unfolding tc_parity_init calls_left in_rounds
  parity_begins zero st l = ground arith
  parity_begins (suc zero) st l = ground arith
  parity_begins (suc (suc zero)) st l = ground arith
  parity_begins (suc (suc (suc k))) st l = absurd (omega arith)

  case_begins : (t : TestCase) → in_rounds t ≡ true → nearer 46 (case_init c t host) ≡ true
  unfolding case_init calls_left in_rounds tc_getdesc_init tc_setaddr_init tc_setconf_init
      tc_waitsof_init tc_bulkout_init tc_ddr3out_init tc_ddr3in_init tc_bulkin_init
  case_begins (getdesc st) h = ground arith
  case_begins (setaddr st) h = ground arith
  case_begins (setconf st) h = ground arith
  case_begins (getconf st) h = getconf_begins st.stage st (ground arith)
  case_begins (getstrs st) h = getstrs_begins st.stage st (ground arith)
  case_begins (waitsof st) h = ground arith
  case_begins (bulkout st) h = ground arith
  case_begins (ddr3out st) h = ground arith
  case_begins (ddr3in st) h = ground arith
  case_begins (bulkin st) h = ground arith
  case_begins (parity st) h = parity_begins st.stage st (ground arith)

-- Calls of `step`, on a host that may be another one each time, as long as the result is 0.
unfoldable pub case_run : List (Calls × Host) → TestCase → Result ℤ
case_run [] t = ok (pos 0)
case_run (x ∷ xs) t = case_step x.0 t x.1 >>= λ r. elim r.code [
  | pos zero ↦ case_run xs r.test
  | pos (suc n) ↦ ok (pos (suc n))
  | negsuc n ↦ ok (negsuc n)
]

abbrev pub is_zero : Result ℤ → Bool
is_zero (ok (pos zero)) = true
is_zero _ = false

left_positive : (t : TestCase) → in_rounds t ≡ true → 0 < calls_left t
unfolding in_rounds calls_left
left_positive t h = ground arith

-- A result 0 that leaves fewer than `n` calls.
zero_nearer :
    (code : ℤ) (u : TestCase) (g : Host) (n : ℕ)
    → nearer n (tried code u g) ≡ true
    → code ≡ pos 0
    → (in_rounds u ≡ true) × (calls_left u < n)
zero_nearer (pos zero) u g n e z = (ground (arith, e), ground (arith, e))
zero_nearer (pos (suc k)) u g n e z = absurd (ground (arith, z))
zero_nearer (negsuc k) u g n e z = absurd (ground (arith, z))

after_call :
    (m : Result (Tried TestCase)) (n : ℕ) (xs : List (Calls × Host))
    → nearer n m ≡ true
    → n ≤ suc (length xs)
    → ((u : TestCase)
        → in_rounds u ≡ true
        → calls_left u ≤ length xs
        → is_zero (case_run xs u) ≡ false)
    → is_zero (
        m >>= λ r. elim r.code [
          | pos zero ↦ case_run xs r.test
          | pos (suc k) ↦ ok (pos (suc k))
          | negsuc k ↦ ok (negsuc k)
        ])
      ≡ false
after_call (fault f) n xs e l rest = refl
after_call (ok r) n xs e l rest = go r.code refl
  where
    go :
        (code : ℤ)
        → r.code ≡ code
        → is_zero (elim code [
          | pos zero ↦ case_run xs r.test
          | pos (suc k) ↦ ok (pos (suc k))
          | negsuc k ↦ ok (negsuc k)
        ])
          ≡ false
    go (pos zero) z =
        let (inside, near) = zero_nearer r.code r.test r.host n e z in
        rest r.test inside (omega (arith, near))
    go (pos (suc k)) z = refl
    go (negsuc k) z = refl

run_ends :
    (xs : List (Calls × Host)) (t : TestCase)
    → in_rounds t ≡ true
    → calls_left t ≤ length xs
    → is_zero (case_run xs t) ≡ false
unfolding case_run
run_ends [] t h l = absurd (omega (arith, left_positive t h))
run_ends (x ∷ xs) t h l =
    after_call (case_step x.0 t x.1) (calls_left t) xs (case_nearer x.0 x.1 t h) l (run_ends xs)

-- Every test case of `ut_compiletf` ends: from an `init` that returned 0, on any host, and with any
-- host at each call, 45 calls of `step` are enough for a result other than 0, if no call aborts. The
-- test must have a round left, as each test of `ut_compiletf` has when it begins.
pub case_ends :
    (c : Calls) (host : Host) (t : TestCase) (r : Tried TestCase) (xs : List (Calls × Host))
    → in_rounds t ≡ true
    → case_init c t host ≡ ok r
    → r.code ≡ pos 0
    → 45 ≤ length xs
    → is_zero (case_run xs r.test) ≡ false
case_ends c host t r xs h e z l =
    let near =
      subst (λ (m : Result (Tried TestCase)). nearer 46 m ≡ true) e (case_begins c host t h) in
    let (inside, left) = zero_nearer r.code r.test r.host 46 near z in
    run_ends xs r.test inside (omega (arith, left))
