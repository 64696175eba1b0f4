-- ===== src/Prelude/Layout.antt =====
-- Packets of integers of fixed widths, the highest byte first, one behind the other.
use bunatv.Prelude.{
  ℕ, ◌+◌, ◌^◌, ◌<◌, ◌≡◌, refl, sym, ap, ◌∙◌, List, [], ◌∷◌, ◌++◌, arith, ok, length, length-append,
  append_assoc,
}
use bunatv.Prelude.Bytes.{to_be, length-to_be, uint_be_at, uint_be_at-to_be}

-- The widths and the values.
abbrev pub Layout : Type 0
Layout = List (ℕ × ℕ)

unfoldable pub size : Layout → ℕ
size [] = 0
size ((n, v) ∷ fs) = n + size fs

unfoldable pub bytes_of : Layout → List ℕ
bytes_of [] = []
bytes_of ((n, v) ∷ fs) = to_be n v ++ bytes_of fs

pub length-bytes_of : (fs : Layout) → length (bytes_of fs) ≡ size fs
unfolding size bytes_of
length-bytes_of [] = refl
length-bytes_of ((n, v) ∷ fs) =
    omega (arith, length-append (to_be n v) (bytes_of fs), length-to_be n v, length-bytes_of fs)

bytes_of-append : (fs gs : Layout) → bytes_of (fs ++ gs) ≡ bytes_of fs ++ bytes_of gs
unfolding bytes_of
bytes_of-append [] gs = refl
bytes_of-append ((n, v) ∷ fs) gs =
    ap (λ b. to_be n v ++ b) (bytes_of-append fs gs)
    ∙ sym (append_assoc (to_be n v) (bytes_of fs) (bytes_of gs))

-- A field is read back at its offset.
pub uint_be_at-bytes_of :
    (front : Layout) (n v : ℕ) (back : Layout) (rest : List ℕ)
    → v < 256 ^ n
    → uint_be_at n (size front) (bytes_of (front ++ (n, v) ∷ back) ++ rest) ≡ ok v
unfolding bytes_of
uint_be_at-bytes_of front n v back rest fits =
    ap (uint_be_at n (size front)) (
      ap (λ b. b ++ rest) (bytes_of-append front ((n, v) ∷ back))
      ∙ append_assoc (bytes_of front) (to_be n v ++ bytes_of back) rest
      ∙ ap (λ b. bytes_of front ++ b) (append_assoc (to_be n v) (bytes_of back) rest))
    ∙ uint_be_at-to_be n v (size front) (bytes_of front) (bytes_of back ++ rest)
        (length-bytes_of front) fits
