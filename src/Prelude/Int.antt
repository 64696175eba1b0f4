-- ===== src/Prelude/Int.antt =====
-- Signed integers over the native numbers, under the library's names, and the 32-bit integers of
-- JavaScript's bit operations.
use bunatv.Prelude.{
  ℕ, zero, suc, ◌+◌, ◌-◌, ◌*◌, ◌/◌, ◌%◌, ◌^◌, ◌≤◌, ◌<◌, ◌≡◌, ap, ◌∙◌, max, bit_or, Bool, arith, ltb,
  le→ltb, lt→ltb, if◌then◌else◌,
}
use Prim.Native.Nat.{digits, bit_or-bitwise}
use native.Mathlib.Nat.{pow-suc}

-- `negsuc n` is -(n + 1).
pub data ℤ : Type 0 where
  pos negsuc : ℕ → ℤ

abbrev pub pos_part : ℤ → ℕ
pos_part (pos n) = n
pos_part (negsuc n) = 0

abbrev pub neg_part : ℤ → ℕ
neg_part (pos n) = 0
neg_part (negsuc n) = suc n

-- The difference of two naturals.
unfoldable pub minus : ℕ → ℕ → ℤ
minus a b = if ltb a b then negsuc (b - a - 1) else pos (a - b)

infixl 65 ◌+ℤ◌
unfoldable pub ◌+ℤ◌ : ℤ → ℤ → ℤ
unfolding minus
a +ℤ b = minus (pos_part a + pos_part b) (neg_part a + neg_part b)

unfoldable pub ltb_ℤ : ℤ → ℤ → Bool
ltb_ℤ a b = ltb (pos_part a + neg_part b) (pos_part b + neg_part a)

pub minus_lem : (a b c : ℕ) → a ≡ c + b → minus a b ≡ pos c
unfolding minus
minus_lem a b c e = rw (le→ltb a b (omega arith)) (ap pos (omega arith))

pub pos-add : (a b : ℕ) → pos a +ℤ pos b ≡ pos (a + b)
unfolding ◌+ℤ◌
pos-add a b = minus_lem (a + b) (0 + 0) (a + b) (omega arith)

-- The integer that the 32 bits of a word stand for.
unfoldable pub int32 : ℕ → ℤ
unfolding minus
int32 word = if ltb word (2 ^ 31) then pos word else minus word (2 ^ 32)

pub int32_small : (n : ℕ) → n < 2 ^ 31 → int32 n ≡ pos n
unfolding int32
int32_small n h = rw (lt→ltb n (2 ^ 31) h)

mul_pow_suc : (b k : ℕ) → b * 2 ^ suc k ≡ b * 2 ^ k * 2
mul_pow_suc b k = grind (arith, pow-suc 2 k)

or_digits : (n k a b : ℕ) → a ≤ n → a < 2 ^ k → digits (λ b. b) max n a (b * 2 ^ k) ≡ a + b * 2 ^ k
or_digits zero k a b h lt = omega arith
or_digits (suc n) k zero b h lt = omega arith
or_digits (suc n) zero (suc a) b h lt = absurd (omega arith)
or_digits (suc n) (suc k) (suc a) b h lt =
    let e = mul_pow_suc b k in
    let half : b * 2 ^ suc k / 2 ≡ b * 2 ^ k = omega (arith, e) in
    let even : b * 2 ^ suc k % 2 ≡ 0 = omega (arith, e) in
    rw (half, even)
      (omega (
        arith,
        e,
        pow-suc 2 k,
        or_digits n k (suc a / 2) b (omega arith) (omega (arith, pow-suc 2 k)),
      ))

-- The `|` of a number below a power of two and a multiple of it is their sum.
pub bit_or_add : (k a b : ℕ) → a < 2 ^ k → bit_or a (b * 2 ^ k) ≡ a + b * 2 ^ k
bit_or_add k a b h = bit_or-bitwise a (b * 2 ^ k) ∙ or_digits a k a b (omega arith) h
