-- ===== src/Prelude/Bits.antt =====
-- Bits of a byte: `b | (1 << k)` and `b & (1 << k)`.
use Prim.Native.Nat.{ℕ, zero, suc, ◌^◌, ◌<◌, bit_and, bit_or}
use mathlib.Core.Path.{◌≡◌, refl, sym}
use mathlib.Core.Bool.{Bool, true, false, not, ◌&&◌}
use native.Mathlib.Omega.{arith}
use goods_db.Prelude.Tests.{◌==◌, ltb, if◌then◌else◌}

unfoldable pub set_bit : ℕ → ℕ → ℕ
set_bit b k = bit_or b (2 ^ k)

unfoldable pub has_bit : ℕ → ℕ → Bool
has_bit b k = not (bit_and b (2 ^ k) == 0)

-- Whether a test passes on each number under a bound, the greatest first.
passes : (ℕ → Bool) → ℕ → Bool
passes test zero = true
passes test (suc last) = if test last then passes test last else false

passes-at : (test : ℕ → Bool) (bound i : ℕ) → i < bound → passes test bound ≡ true → test i ≡ true
unfolding passes
passes-at test zero i low h = elim low [ ]
passes-at test (suc last) i low h = ground (arith, passes-at test last i)

same : Bool → Bool → Bool
same true b = b
same false b = not b

same-eq : (a b : Bool) → same a b ≡ true → a ≡ b
unfolding same
same-eq true b h = sym h
same-eq false true h = absurd (cc h)
same-eq false false h = refl

-- The law of `set_bit`, and that the result is a byte.
law : ℕ → ℕ → ℕ → Bool
law b k j =
    same (has_bit (set_bit b k) j) (if k == j then true else has_bit b j) && ltb (set_bit b k) 256

laws : passes (λ b. passes (λ k. passes (law b k) 8) 8) 256 ≡ true
unfolding passes law same set_bit has_bit
laws = refl

law_holds : (b k j : ℕ) → b < 256 → k < 8 → j < 8 → law b k j ≡ true
law_holds b k j hb hk hj = passes-at (law b k) 8 j hj (
    passes-at (λ k. passes (law b k) 8) 8 k hk
      (passes-at (λ b. passes (λ k. passes (law b k) 8) 8) 256 b hb laws))

pub has_bit-set_bit :
    (b k j : ℕ)
    → b < 256
    → k < 8
    → j < 8
    → has_bit (set_bit b k) j ≡ (if k == j then true else has_bit b j)
unfolding law
has_bit-set_bit b k j hb hk hj =
    same-eq (has_bit (set_bit b k) j) (if k == j then true else has_bit b j)
      (ground (arith, law_holds b k j hb hk hj))

pub set_bit-lt : (b k : ℕ) → b < 256 → k < 8 → set_bit b k < 256
unfolding law
set_bit-lt b k hb hk = ground (arith, law_holds b k 0 hb hk (omega arith))

pub zero-has_bit : (j : ℕ) → j < 8 → has_bit 0 j ≡ false
zero-has_bit j h =
    same-eq (has_bit 0 j) false (passes-at (λ j. same (has_bit 0 j) false) 8 j h table)
  where
    table : passes (λ j. same (has_bit 0 j) false) 8 ≡ true
    table = unfold passes same has_bit in refl
