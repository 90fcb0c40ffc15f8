-- ===== src/Fifo/Beats.antt =====
-- The bytes of a packet as the FIFO of vpi/packet_tb.c sees them: each with the flag of the last one.
use misc_verilog_cores.Base.{
  ℕ, zero, suc, ◌+◌, ◌≤◌, ◌<◌, ◌≡◌, refl, ap, List, [], ◌∷◌, length, take, drop, get_or, arith,
  drop-eq-cons,
}
use misc_verilog_cores.Ulpi.{sig0, sig1}

-- A byte with the flag of the last one of a packet.
abbrev pub Beat : Type 0
Beat = ℕ × ℕ

-- A packet: its bytes in order, the last one flagged.
unfoldable pub beats : List ℕ → List Beat
beats [] = []
beats (b ∷ []) = (b, sig1) ∷ []
beats (b ∷ b' ∷ bs) = (b, sig0) ∷ beats (b' ∷ bs)

pub length-take-le : (n : ℕ) (xs : List ℕ) → n ≤ length xs → length (take n xs) ≡ n
length-take-le zero xs h = refl
length-take-le (suc n) [] h = absurd (omega arith)
length-take-le (suc n) (x ∷ xs) h = ap suc (length-take-le n xs (omega arith))

pub beats_more :
    (k : ℕ) (bs : List ℕ)
    → k + 1 < length bs
    → beats (drop k bs) ≡ (get_or bs k 0, sig0) ∷ beats (drop (suc k) bs)
unfolding beats
beats_more k bs h =
    rw (drop-eq-cons k bs 0 (omega arith), drop-eq-cons (suc k) bs 0 (omega arith)) refl

pub beats_last :
    (k : ℕ) (bs : List ℕ) → k + 1 ≡ length bs → beats (drop k bs) ≡ (get_or bs k 0, sig1) ∷ []
unfolding beats
beats_last k bs h = rw (drop-eq-cons k bs 0 (omega arith), drop_all (suc k) bs (omega arith)) refl
  where
    drop_all : (n : ℕ) (xs : List ℕ) → length xs ≤ n → drop n xs ≡ []
    drop_all zero [] l = refl
    drop_all zero (x ∷ xs) l = absurd (omega arith)
    drop_all (suc n) [] l = refl
    drop_all (suc n) (x ∷ xs) l = drop_all n xs (omega arith)
