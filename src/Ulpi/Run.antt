-- ===== src/Ulpi/Run.antt =====
-- `ulpi_step_with` of vpi/usb/ulpi.c: a host's step function and a user's, in turn on one bus.
use native.Mathlib.Nat.{suc-add}
use misc_verilog_cores.Base.{
  ℕ, zero, suc, ◌+◌, ◌-◌, ◌%◌, ◌≤◌, ◌≡◌, bit_or, ltb, if◌then◌else◌, Bool, true, false, ℤ, pos,
  negsuc, is_negative, Result, ok, fault, ◌>>=◌, Option, none, some, arith,
}
use misc_verilog_cores.Ulpi.{Bus, byte, Transfer, no_xfer, ulpi_bus_idle, Stepped}

-- `step_fn_t` and `user_fn_t`: the state, `*in` and the old `*out`.
abbrev pub StepFn : Type 0 → Type 0
StepFn S = S → Bus → Bus → Result (Stepped S)

-- The 32 bits of an `int`, and back.
abbrev word32 : ℤ → ℕ
word32 (pos n) = n % 4294967296
word32 (negsuc n) = 4294967295 - n % 4294967296

abbrev int_of_word : ℕ → ℤ
int_of_word w = if ltb w 2147483648 then pos w else negsuc (4294967295 - w)

-- `a | b`.
abbrev pub int_or : ℤ → ℤ → ℤ
int_or a b = int_of_word (bit_or (word32 a) (word32 b))

-- `ulpi_bus_t out = {0}`.
abbrev pub zero_bus : Bus
zero_bus = record { clock = 0; rst_n = 0; dir = 0; stp = 0; nxt = 0; dat = byte 0 0 }

pub record Finished (U : Type 0) : Type 0 where
  pub code : ℤ
  pub xfer : Transfer
  pub user : U
  pub bus : Bus

module _ {U : Type 0} (user_fn : StepFn U) where
  -- The loop's test on `result`; `rest` is the next round.
  abbrev pub after_user :
      (Transfer → U → Bus → Bus → Result (Option (Finished U)))
      → Stepped Transfer
      → ℤ
      → Stepped U
      → Result (Option (Finished U))
  after_user rest h (pos zero) u = rest h.state u.state u.out u.out
  after_user rest h c u =
      ok (some (record { code = c; xfer = h.state; user = u.state; bus = u.out }))

  -- A negative result leaves the loop before the user's step.
  abbrev pub after_host :
      (Transfer → U → Bus → Bus → Result (Option (Finished U)))
      → U
      → Bool
      → Stepped Transfer
      → Result (Option (Finished U))
  after_host rest user true h =
      ok (some (record { code = h.code; xfer = h.state; user = user; bus = h.out }))
  after_host rest user false h =
      user_fn user h.out h.out >>= λ u. after_user rest h (int_or h.code u.code) u

module _ {U : Type 0} (host_fn : StepFn Transfer) (user_fn : StepFn U) where
  -- The `while` loop. `none` means that the fuel ran out.
  unfoldable pub step_loop : ℕ → Transfer → U → Bus → Bus → Result (Option (Finished U))
  step_loop zero xfer user bus out = ok none
  step_loop (suc fuel) xfer user bus out =
      host_fn xfer bus out >>= λ h. after_host user_fn (step_loop fuel) user (is_negative h.code) h

  unfoldable pub ulpi_step_with : ℕ → Transfer → U → Result (Option (Finished U))
  ulpi_step_with fuel xfer user =
      step_loop fuel (record xfer { stage = no_xfer }) user ulpi_bus_idle zero_bus

module _ {U : Type 0} (user_fn : StepFn U) {r : Finished U}
    (rest longer : Transfer → U → Bus → Bus → Result (Option (Finished U)))
    (keep : (x : Transfer) (u : U) (b o : Bus)
      → rest x u b o ≡ ok (some r)
      → longer x u b o ≡ ok (some r)) where
  after_user-keep :
      (h : Stepped Transfer) (c : ℤ) (u : Stepped U)
      → after_user user_fn rest h c u ≡ ok (some r)
      → after_user user_fn longer h c u ≡ ok (some r)
  after_user-keep h (pos zero) u e = keep h.state u.state u.out u.out e
  after_user-keep h (pos (suc n)) u e = e
  after_user-keep h (negsuc n) u e = e

  called-keep :
      (h : Stepped Transfer) (called : Result (Stepped U))
      → (called >>= λ u. after_user user_fn rest h (int_or h.code u.code) u) ≡ ok (some r)
      → (called >>= λ u. after_user user_fn longer h (int_or h.code u.code) u) ≡ ok (some r)
  called-keep h (ok u) e = after_user-keep h (int_or h.code u.code) u e
  called-keep h (fault f) e = cc

  after_host-keep :
      (user : U) (stop : Bool) (h : Stepped Transfer)
      → after_host user_fn rest user stop h ≡ ok (some r)
      → after_host user_fn longer user stop h ≡ ok (some r)
  after_host-keep user true h e = e
  after_host-keep user false h e = called-keep h (user_fn user h.out h.out) e

  round-keep :
      (user : U) (called : Result (Stepped Transfer))
      → (called >>= λ h. after_host user_fn rest user (is_negative h.code) h) ≡ ok (some r)
      → (called >>= λ h. after_host user_fn longer user (is_negative h.code) h) ≡ ok (some r)
  round-keep user (ok h) e = after_host-keep user (is_negative h.code) h e
  round-keep user (fault f) e = cc

module _ {U : Type 0} (host_fn : StepFn Transfer) (user_fn : StepFn U) {r : Finished U} where
  step_loop_more :
      (fuel more : ℕ) (xfer : Transfer) (user : U) (bus out : Bus)
      → step_loop host_fn user_fn fuel xfer user bus out ≡ ok (some r)
      → step_loop host_fn user_fn (fuel + more) xfer user bus out ≡ ok (some r)
  unfolding step_loop
  step_loop_more zero more xfer user bus out e = cc
  step_loop_more (suc fuel) more xfer user bus out e = rw (suc-add fuel more) (
      round-keep user_fn (step_loop host_fn user_fn fuel) (step_loop host_fn user_fn (fuel + more))
        (step_loop_more fuel more) user (host_fn xfer bus out) e)

  -- Fuel beyond what a run needs changes nothing.
  pub ulpi_step_with_more :
      (fuel enough : ℕ) (xfer : Transfer) (user : U)
      → fuel ≤ enough
      → ulpi_step_with host_fn user_fn fuel xfer user ≡ ok (some r)
      → ulpi_step_with host_fn user_fn enough xfer user ≡ ok (some r)
  unfolding ulpi_step_with
  ulpi_step_with_more fuel enough xfer user h e =
      let split : enough ≡ fuel + (enough - fuel) = omega arith in
      rw split (step_loop_more fuel (enough - fuel) (record xfer { stage = no_xfer }) user _ _ e)
