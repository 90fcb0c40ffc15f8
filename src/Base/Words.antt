-- ===== src/Base/Words.antt =====
-- Fixed-width arithmetic of C: casts wrap, `~` is the complement of a promoted `int` read as 32 bits.
use Prim.Native.Nat.{ℕ, ◌*◌, ◌/◌, ◌%◌, ◌^◌, bit_xor}

abbrev pub u8 : ℕ → ℕ
u8 n = n % 256

abbrev pub u16 : ℕ → ℕ
u16 n = n % 65536

abbrev pub u32 : ℕ → ℕ
u32 n = n % 4294967296

abbrev pub u64 : ℕ → ℕ
u64 n = n % 18446744073709551616

abbrev pub shl : ℕ → ℕ → ℕ
shl x k = x * 2 ^ k

abbrev pub shr : ℕ → ℕ → ℕ
shr x k = x / 2 ^ k

abbrev pub complement : ℕ → ℕ
complement x = bit_xor x 0xffff_ffff
