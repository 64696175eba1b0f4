-- ===== src/Prelude/Bytes.antt =====
-- Bytes, and the integers of n of them, lowest byte first (le) or highest byte first (be).
-- `Buffer.writeUIntXX` throws on a value that does not fit.
use bunatv.Prelude.{
  ℕ, zero, suc, ◌+◌, ◌*◌, ◌/◌, ◌%◌, ◌^◌, ◌<◌, ◌≡◌, refl, List, [], ◌∷◌, ◌++◌, arith, Result, ok,
  err, value_out_of_range, out_of_bounds, take, drop, sym, le→ltb, drop-append_left,
  take-append_left, ltb, lt→ltb, if◌then◌else◌, length, length-append, ap,
}
use native.Mathlib.Nat.{pow-suc}

abbrev pub IsByte : ℕ → Type 0
IsByte b = b < 256

unfoldable pub to_le : ℕ → ℕ → List ℕ
to_le zero v = []
to_le (suc n) v = (v % 256) ∷ to_le n (v / 256)

unfoldable pub of_le : List ℕ → ℕ
of_le [] = 0
of_le (b ∷ bs) = b + 256 * of_le bs

unfoldable pub to_be : ℕ → ℕ → List ℕ
to_be zero v = []
to_be (suc n) v = to_be n (v / 256) ++ (v % 256) ∷ []

of_be_from : ℕ → List ℕ → ℕ
of_be_from acc [] = acc
of_be_from acc (b ∷ bs) = of_be_from (acc * 256 + b) bs

unfoldable pub of_be : List ℕ → ℕ
unfolding of_be_from
of_be bs = of_be_from 0 bs

of_be_from-append :
    (acc : ℕ) (bs : List ℕ) (b : ℕ) → of_be_from acc (bs ++ b ∷ []) ≡ of_be_from acc bs * 256 + b
unfolding of_be_from
of_be_from-append acc [] b = refl
of_be_from-append acc (c ∷ bs) b = of_be_from-append (acc * 256 + c) bs b

pub length-to_le : (n v : ℕ) → length (to_le n v) ≡ n
unfolding to_le
length-to_le zero v = refl
length-to_le (suc n) v = ap suc (length-to_le n (v / 256))

pub length-to_be : (n v : ℕ) → length (to_be n v) ≡ n
unfolding to_be
length-to_be zero v = refl
length-to_be (suc n) v =
    omega (arith, length-append (to_be n (v / 256)) ((v % 256) ∷ []), length-to_be n (v / 256))

pub of_le-to_le : (n v : ℕ) → v < 256 ^ n → of_le (to_le n v) ≡ v
unfolding to_le of_le
of_le-to_le zero v h = omega arith
of_le-to_le (suc n) v h =
    omega (arith, of_le-to_le n (v / 256) (omega (arith, pow-suc 256 n)), pow-suc 256 n)

pub of_be-to_be : (n v : ℕ) → v < 256 ^ n → of_be (to_be n v) ≡ v
unfolding to_be of_be
of_be-to_be zero v h = omega arith
of_be-to_be (suc n) v h = omega (
  arith,
  of_be_from-append 0 (to_be n (v / 256)) (v % 256),
  of_be-to_be n (v / 256) (omega (arith, pow-suc 256 n)),
)

-- `writeUIntBE(value, offset, n)`: the bytes written, or the error.
unfoldable pub uint_be : ℕ → ℕ → Result (List ℕ)
uint_be n v = if ltb v (256 ^ n) then ok (to_be n v) else err value_out_of_range

unfoldable pub uint_le : ℕ → ℕ → Result (List ℕ)
uint_le n v = if ltb v (256 ^ n) then ok (to_le n v) else err value_out_of_range

pub uint_be_fits : (n v : ℕ) → v < 256 ^ n → uint_be n v ≡ ok (to_be n v)
unfolding uint_be
uint_be_fits n v h = rw (lt→ltb v (256 ^ n) h)

pub uint_le_fits : (n v : ℕ) → v < 256 ^ n → uint_le n v ≡ ok (to_le n v)
unfolding uint_le
uint_le_fits n v h = rw (lt→ltb v (256 ^ n) h)

-- `readUIntXXBE(offset)`: the bytes of the buffer from the offset on, or the error.
unfoldable pub uint_be_at : ℕ → ℕ → List ℕ → Result ℕ
uint_be_at n offset bs =
    if ltb (length bs) (offset + n) then err out_of_bounds else ok (of_be (take n (drop offset bs)))

pub uint_be_at-to_be :
    (n v offset : ℕ) (front rest : List ℕ)
    → length front ≡ offset
    → v < 256 ^ n
    → uint_be_at n offset (front ++ (to_be n v ++ rest)) ≡ ok v
unfolding uint_be_at
uint_be_at-to_be n v offset front rest e fits = rw (
  le→ltb (length (front ++ (to_be n v ++ rest))) (offset + n) (
      omega (
        arith,
        length-append front (to_be n v ++ rest),
        length-append (to_be n v) rest,
        length-to_be n v,
      )),
  drop-append_left offset front (to_be n v ++ rest) (sym e),
  take-append_left n (to_be n v) rest (sym (length-to_be n v)),
  of_be-to_be n v fits,
)
