-- ===== src/Bench/Queue.antt =====
-- `test_step` of vpi/ulpisim.c against a queue of tests that knows no indices.
use misc_verilog_cores.Base.{
  ℕ, suc, zero, ◌+◌, ◌<◌, ◌≤◌, ◌≡◌, refl, ap, ap₂, ◌∙◌, Bool, true, false, ◌==◌, ◌!=◌, ltb,
  if◌then◌else◌, ℤ, pos, negsuc, is_negative, is_positive, List, [], ◌∷◌, length, drop, set,
  drop-set, drop-suc-set, some, Result, ok, fault, ◌>>=◌, arith, u32, Bool-cases, inl, inr,
}
use misc_verilog_cores.Host.{Host}
use misc_verilog_cores.Cases.{Calls, Tried}
use misc_verilog_cores.Bench.{Ut, TestOps, nth}
use misc_verilog_cores.Bench.Step.{run_test, test_step, test_result}

-- The tests that are not finished, the first of which has been begun or not.
pub record Queue (T : Type 0) : Type 0 where
  pub begun : Bool
  pub pending : List T
  pub host : Host

abbrev pub queue : {T : Type 0} → Bool → List T → Host → Queue T
queue b xs h = record { begun = b; pending = xs; host = h }

-- A test that is in progress stays at the head, one that is finished leaves the queue.
abbrev pub queue_result : {T : Type 0} → List T → Tried T → ℤ × Queue T
queue_result rest t =
    if is_negative t.code
    then (negsuc 0, queue true (t.test ∷ rest) t.host)
    else if is_positive t.code
    then (t.code, queue false rest t.host)
    else (pos 0, queue true (t.test ∷ rest) t.host)

module _ {T : Type 0} (ops : TestOps T) where
  abbrev call : Calls → Bool → T → Host → Result (Tried T)
  call c begun test host = if begun then ops.step c test host else ops.init c test host

  abbrev queue_at : List T → Calls → Queue T → Result (ℤ × Queue T)
  queue_at [] c q = ok (pos 2, q)
  queue_at (test ∷ rest) c q = call c q.begun test q.host >>= λ t. ok (queue_result rest t)

  abbrev pub queue_step : Calls → Queue T → Result (ℤ × Queue T)
  queue_step c q = queue_at q.pending c q

-- What the queue forgets of the state: the finished tests and the numbers.
abbrev pub queue_of : {T : Type 0} → Ut T → Queue T
queue_of ut = queue (ut.test_step != 0) (drop ut.test_curr ut.tests) ut.host

-- The array has `test_num` entries, and neither counter is about to wrap.
pub record IsRunning {T : Type 0} (ut : Ut T) : Type 0 where
  pub counted : length ut.tests ≡ ut.test_num
  pub no_wrap : ut.test_num < 4294967296
  pub few_calls : ut.test_step + 1 < 4294967296

module _ {T : Type 0} where
  pub nth-cases :
      (xs : List T) (i : ℕ)
      → i < length xs
      → (x : T) × (nth xs i ≡ some x) × (drop i xs ≡ x ∷ drop (suc i) xs)
  nth-cases [] i h = absurd (omega arith)
  nth-cases (x ∷ xs) zero h = (x, refl, refl)
  nth-cases (x ∷ xs) (suc i) h = nth-cases xs i (omega arith)

  drop-none : (xs : List T) (i : ℕ) → length xs ≤ i → drop i xs ≡ []
  drop-none [] zero h = refl
  drop-none [] (suc i) h = refl
  drop-none (x ∷ xs) zero h = absurd (omega arith)
  drop-none (x ∷ xs) (suc i) h = drop-none xs i (omega arith)

  counters :
      (ut : Ut T)
      → IsRunning ut
      → ut.test_curr < length ut.tests
      → ((u32 (ut.test_step + 1) != 0) ≡ true) × (u32 (ut.test_curr + 1) ≡ suc ut.test_curr)
  counters ut w h = (ground (arith, w.few_calls), ground (arith, w.no_wrap, w.counted))

  -- One outcome, in the state and in the queue.
  outcome :
      (ut : Ut T) (c : ℤ) (x : T) (host : Host)
      → IsRunning ut
      → ut.test_curr < length ut.tests
      → (let t : Tried T = record { code = c; test = x; host = host } in
          let r = test_result (record ut { test_step = u32 (ut.test_step + 1) }) t in
          (r.0, queue_of r.1) ≡ queue_result (drop (suc ut.test_curr) ut.tests) t)
  unfolding test_result
  outcome ut (pos zero) x host w h =
      let (b, n) = counters ut w h in
      ap₂ (λ b' xs. (pos 0, queue b' xs host)) b (drop-set ut.tests ut.test_curr x h)
  outcome ut (pos (suc n)) x host w h =
      let (b, n') = counters ut w h in
      ap (λ xs. (pos (suc n), queue false xs host))
        (ap (λ (k : ℕ). drop k (set ut.tests ut.test_curr x)) n'
          ∙ drop-suc-set ut.tests ut.test_curr x)
  outcome ut (negsuc n) x host w h =
      let (b, n') = counters ut w h in
      ap₂ (λ b' xs. (negsuc 0, queue b' xs host)) b (drop-set ut.tests ut.test_curr x h)

  outcomes :
      (ut : Ut T) (r : Result (Tried T))
      → IsRunning ut
      → ut.test_curr < length ut.tests
      → ((r >>= λ t. ok (test_result (record ut { test_step = u32 (ut.test_step + 1) }) t))
          >>= λ r'. ok (r'.0, queue_of r'.1))
        ≡ (r >>= λ t. ok (queue_result (drop (suc ut.test_curr) ut.tests) t))
  outcomes ut (ok t) w h = ap ok (outcome ut t.code t.test t.host w h)
  outcomes ut (fault f) w h = refl

module _ {T : Type 0} (ops : TestOps T) where
  called :
      (c : Calls) (ut : Ut T) (x : T)
      → IsRunning ut
      → ut.test_curr < length ut.tests
      → (run_test ops c ut x >>= λ r. ok (r.0, queue_of r.1)) ≡ (
          call ops c (ut.test_step != 0) x ut.host >>= λ t.
          ok (queue_result (drop (suc ut.test_curr) ut.tests) t))
  unfolding run_test
  called c ut x w h = elim (Bool-cases (ut.test_step == 0)) [
    | inl e ↦ rw (e) (outcomes ut (ops.init c x ut.host) w h)
    | inr e ↦ rw (e) (outcomes ut (ops.step c x ut.host) w h)
  ]

  -- `test_step` is one step of the queue of the tests that are not finished: with an array of
  -- `test_num` tests and counters that do not wrap, it has the same result, and what the queue shows
  -- of the state afterwards is what the step of the queue leaves.
  pub test_step_refines :
      (c : Calls) (ut : Ut T)
      → IsRunning ut
      → (test_step ops c ut >>= λ r. ok (r.0, queue_of r.1)) ≡ queue_step ops c (queue_of ut)
  unfolding test_step
  test_step_refines c ut w = elim (Bool-cases (ltb ut.test_curr ut.test_num)) [
    | inl e ↦
        let h : ut.test_curr < length ut.tests = ground (arith, w.counted) in
        let (x, n, d) = nth-cases ut.tests ut.test_curr h in rw (e, n, d) (called c ut x w h)
    | inr e ↦ let d = drop-none ut.tests ut.test_curr (ground (arith, w.counted)) in rw (e, d) refl
  ]
