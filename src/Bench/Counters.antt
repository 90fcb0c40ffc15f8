-- ===== src/Bench/Counters.antt =====
-- The counters of `ut_state_t` in the steps of vpi/ulpisim.c.
use misc_verilog_cores.Base.{
  ℕ, suc, zero, ◌<◌, ◌≤◌, ◌≡◌, refl, sym, ap, ◌∙◌, true, false, ℤ, pos, negsuc, is_negative,
  is_positive, length, length-set, Result, ok, fault, ◌>>=◌, arith, Bool-cases, inl, inr, subst,
}
use misc_verilog_cores.Ulpi.{Bus, Stepped}
use misc_verilog_cores.Host.{Host}
use misc_verilog_cores.Host.Control.{above_one}
use misc_verilog_cores.Cases.{Tried}
use misc_verilog_cores.Bench.{Ut, UtOp, ut_test}
use misc_verilog_cores.Bench.Step.{is_done, test_result, bench_stepped, test_called, with_host}
use misc_verilog_cores.Bench.Codes.{low}

pub record IsCounted {T : Type 0} (n : ℕ) (ut : Ut T) : Type 0 where
  pub number : ut.test_num ≡ n
  pub counted : length ut.tests ≡ n
  pub no_wrap : n < 4294967296
  pub within : ut.test_curr ≤ n

pub record IsSound {T : Type 0} (n : ℕ) (ut : Ut T) : Type 0 where
  pub count : IsCounted n ut
  pub finished : is_done ut.op ≡ true → ut.test_curr ≡ n

abbrev pub Holds : {S : Type 0} → (S → Type 0) → Result S → Type 0
Holds P (ok s) = P s
Holds P (fault f) = Unit

pub Holds-bind :
    {A S : Type 0} (Q : A → Type 0) (P : S → Type 0) (m : Result A) (f : A → Result S)
    → Holds Q m
    → ((a : A) → Q a → Holds P (f a))
    → Holds P (m >>= f)
Holds-bind Q P (ok a) f q h = h a q
Holds-bind Q P (fault e) f q h = tt

pub any : {A : Type 0} (m : Result A) → Holds (λ a. Unit) m
any (ok a) = tt
any (fault e) = tt

pub holds-ok : {A : Type 0} (P : A → Type 0) (m : Result A) (a : A) → m ≡ ok a → Holds P m → P a
holds-ok P m a e h = subst (Holds P) e h

abbrev pub SoundStep : {T : Type 0} → ℕ → Stepped (Ut T) → Type 0
SoundStep n s = IsSound n s.state

-- After a call of `test_step`.
pub record Tested {T : Type 0} (n : ℕ) (ut : Ut T) (r : ℤ × Ut T) : Type 0 where
  pub count : IsCounted n r.1
  pub same_op : r.1.op ≡ ut.op
  pub at_end : above_one r.0 ≡ true → r.1.test_curr ≡ n

module _ {T : Type 0} {n : ℕ} where
  -- Only the list of tests and the two counters matter.
  pub unchanged_counters :
      (ut : Ut T) (x : Ut T)
      → IsCounted n ut
      → x.tests ≡ ut.tests
      → x.test_num ≡ ut.test_num
      → x.test_curr ≡ ut.test_curr
      → is_done x.op ≡ false
      → IsSound n x
  unchanged_counters ut x w t e c o = record {
    count = record {
      number = e ∙ w.number;
      counted = ap length t ∙ w.counted;
      no_wrap = omega (arith, w.no_wrap);
      within = omega (arith, w.within);
    };
    finished = λ d. ground arith;
  }

  result_kept :
      (ut : Ut T) (c : ℤ) (x : T) (host : Host)
      → IsCounted n ut
      → ut.test_curr < n
      → above_one c ≡ false
      → (calls : ℕ)
      → Tested n ut (
          test_result
            (record ut { test_step = calls })
            (record { code = c; test = x; host = host }))
  unfolding test_result
  result_kept ut (pos zero) x host w h l calls = record {
    count = record {
      number = w.number;
      counted = length-set ut.tests ut.test_curr x ∙ w.counted;
      no_wrap = w.no_wrap;
      within = w.within;
    };
    same_op = refl;
    at_end = λ e. ground arith;
  }
  result_kept ut (pos (suc k)) x host w h l calls = record {
    count = record {
      number = w.number;
      counted = length-set ut.tests ut.test_curr x ∙ w.counted;
      no_wrap = w.no_wrap;
      within = omega arith;
    };
    same_op = refl;
    at_end = λ e. ground arith;
  }
  result_kept ut (negsuc k) x host w h l calls = record {
    count = record {
      number = w.number;
      counted = length-set ut.tests ut.test_curr x ∙ w.counted;
      no_wrap = w.no_wrap;
      within = w.within;
    };
    same_op = refl;
    at_end = λ e. ground arith;
  }

  pub call_kept :
      (ut : Ut T) (calls : ℕ) (r : Result (Tried T))
      → IsCounted n ut
      → ut.test_curr < n
      → low r ≡ true
      → Holds (Tested n ut) (r >>= λ t. ok (test_result (record ut { test_step = calls }) t))
  call_kept ut calls (ok t) w h l = result_kept ut t.code t.test t.host w h (ground arith) calls
  call_kept ut calls (fault f) w h l = tt

  -- The operation and the host do not matter to the counters.
  with_op : {ut : Ut T} {op : UtOp} → IsCounted n ut → IsCounted n (record ut { op = op })
  with_op w = record {
    number = w.number;
    counted = w.counted;
    no_wrap = w.no_wrap;
    within = w.within;
  }

  pub ticked : {ut : Ut T} {host : Host} → IsCounted n ut → IsCounted n (with_host host ut)
  ticked w = record {
    number = w.number;
    counted = w.counted;
    no_wrap = w.no_wrap;
    within = w.within;
  }

  pub unchanged_fields :
      (ut : Ut T) (x : Ut T)
      → IsSound n ut
      → x.tests ≡ ut.tests
      → x.test_num ≡ ut.test_num
      → x.test_curr ≡ ut.test_curr
      → x.op ≡ ut.op
      → IsSound n x
  unchanged_fields ut x w t e c o = record {
    count = record {
      number = e ∙ w.count.number;
      counted = ap length t ∙ w.count.counted;
      no_wrap = w.count.no_wrap;
      within = omega (arith, w.count.within);
    };
    finished = λ d. c ∙ w.finished (sym (ap is_done o) ∙ d);
  }

  pub called_kept :
      (ut : Ut T) (next : Bus) (r : ℤ × Ut T)
      → is_done ut.op ≡ false
      → Tested n ut r
      → Holds (SoundStep n) (test_called next r)
  unfolding test_called
  called_kept ut next r idle t =
      let open_ : is_done r.1.op ≡ false = ap is_done t.same_op ∙ idle in
      elim (Bool-cases (is_negative r.0)) [
        | inl e ↦ rw (e) (unchanged_counters r.1 r.1 t.count refl refl refl open_)
        | inr e ↦ elim (Bool-cases (is_positive r.0)) [
          | inl p ↦ elim (Bool-cases (above_one r.0)) [
            | inl a ↦ rw (e, p, a) (record { count = with_op t.count; finished = λ x. t.at_end a })
            | inr a ↦ rw (e, p, a) (unchanged_counters r.1 r.1 t.count refl refl refl open_)
          ]
          | inr p ↦
              rw (e, p)
                (unchanged_counters r.1 (record (r.1) { op = ut_test }) t.count refl refl refl refl)
        ]
      ]

  pub stepped_kept :
      (here done : UtOp) (ut : Ut T) (s : Stepped Host)
      → IsCounted n ut
      → is_done ut.op ≡ false
      → is_done here ≡ false
      → is_done done ≡ false
      → Holds (SoundStep n) (bench_stepped here done ut s)
  unfolding bench_stepped
  stepped_kept here done ut s w o h d = elim (Bool-cases (is_negative s.code)) [
    | inl e ↦ rw (e) (unchanged_counters ut (with_host s.state ut) w refl refl refl o)
    | inr e ↦ elim (Bool-cases (is_positive s.code)) [
      | inl p ↦
          rw (e, p)
            (unchanged_counters ut (record (with_host s.state ut) { op = done }) w refl refl refl d)
      | inr p ↦
          rw (e, p)
            (unchanged_counters ut (record (with_host s.state ut) { op = here }) w refl refl refl h)
    ]
  ]
