-- ===== src/Vpi/Time.antt =====
-- The time that the tasks of vpi/ulpisim.c, vpi/packet_tb.c and vpi/monitor.c make of the simulator's.
use misc_verilog_cores.Base.{
  ℕ, zero, suc, ◌+◌, ◌*◌, ◌-◌, ◌/◌, ◌^◌, ◌≤◌, ◌<◌, ◌≡◌, refl, bit_or, shl, u64, ◌==◌, if◌then◌else◌,
  ℤ, pos, negsuc, Result, ok, fault, zero_division, arith,
}
use native.Mathlib.Nat.{one-le-pow, div-mul-le_self, div-lt_iff_lt-mul}
use misc_verilog_cores.Base.Joined.{or-shifted}

-- The rounds of the loop on `scale = -9 - precision`.
abbrev pub scale_rounds : ℤ → ℕ
scale_rounds (pos n) = 0
scale_rounds (negsuc n) = n - 8

-- `while (scale-- > 0) t_recip *= 10`.
unfoldable pub recip_loop : ℕ → ℕ → ℕ
recip_loop zero r = r
recip_loop (suc k) r = recip_loop k (u64 (r * 10))

unfoldable pub time_recip : ℤ → ℕ
time_recip precision = recip_loop (scale_rounds precision) 1

-- `((uint64_t)high << 32 | low) / recip`.
unfoldable pub tick_ns_of : ℕ → ℕ → ℕ → Result ℕ
tick_ns_of recip high low =
    if recip == 0 then fault zero_division else ok (bit_or (u64 (shl high 32)) low / recip)

recip_loop-pow : (k : ℕ) → k ≤ 6 → recip_loop k 1 ≡ 10 ^ k
unfolding recip_loop
recip_loop-pow zero h = refl
recip_loop-pow (suc zero) h = refl
recip_loop-pow (suc (suc zero)) h = refl
recip_loop-pow (suc (suc (suc zero))) h = refl
recip_loop-pow (suc (suc (suc (suc zero)))) h = refl
recip_loop-pow (suc (suc (suc (suc (suc zero))))) h = refl
recip_loop-pow (suc (suc (suc (suc (suc (suc zero)))))) h = refl
recip_loop-pow (suc (suc (suc (suc (suc (suc (suc k))))))) h = absurd (omega arith)

pub joined_time :
    (high low : ℕ)
    → high < 4294967296
    → low < 4294967296
    → bit_or (u64 (shl high 32)) low ≡ high * 4294967296 + low
joined_time high low h l =
    let fits : u64 (shl high 32) ≡ high * 2 ^ 32 = omega arith in
    rw fits (or-shifted 32 high low (omega arith))

-- With a precision from 1 ns down to 1 fs the ticks are the time in whole ns, rounded down.
pub tick_bounds :
    (n high low : ℕ)
    → 8 ≤ n
    → n ≤ 14
    → high < 4294967296
    → low < 4294967296
    → (t : ℕ) × (tick_ns_of (time_recip (negsuc n)) high low ≡ ok t)
      × (t * 10 ^ (n - 8) ≤ high * 4294967296 + low)
      × (high * 4294967296 + low < (t + 1) * 10 ^ (n - 8))
unfolding tick_ns_of time_recip
tick_bounds n high low lo hi h l =
    let some_ns : 0 < 10 ^ (n - 8) = one-le-pow (n - 8) 10 (omega arith) in
    (
      (high * 4294967296 + low) / 10 ^ (n - 8),
      rw (recip_loop-pow (n - 8) (omega arith), joined_time high low h l) (ground arith),
      div-mul-le_self (high * 4294967296 + low) (10 ^ (n - 8)),
      (div-lt_iff_lt-mul some_ns).0 (omega arith),
    )
