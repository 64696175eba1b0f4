-- ===== src/Opack/Groups.antt =====
-- Arrays and dictionaries, core/encoding/opack.ts: the header byte, the count that it holds and the
-- terminator that stands behind long ones.
use bunatv.Prelude.{
  ℕ, suc, ◌+◌, ◌<◌, ◌≤◌, ◌≡◌, refl, ap, ◌∙◌, min, List, [], ◌∷◌, ◌++◌, Option, none, some, Bool,
  true, false, inl, inr, arith, length, ltb, le→leb, lt→leb, ltb→lt, Bool-cases, same_bytes_head,
  same_bytes_refl,
}
use bunatv.Buffers.Reader.{has_more_cons, read_uint_be_one, peek, advance}
use bunatv.Opack.Value.{Value, nil, end, Runtime}
use bunatv.Opack.Pack.{enclose}
use bunatv.Opack.Unpack.{unpack_value, unpack_items, unpack_fields, count_of, more, less, close}
use bunatv.Opack.Atoms.{at}
use bunatv.Opack.Objects.{Opens}

module _ (js : Runtime) where
  pub unpack_value-items :
      (n fuel o : ℕ) (bs : List ℕ) (objects : List Value)
      → n ≤ 0xf
      → unpack_value js (suc fuel) (at o ((0xd0 + n) ∷ bs)) objects
        ≡ unpack_items js fuel (count_of n) nil (at (o + 1) bs) objects
  unfolding unpack_value
  unpack_value-items n fuel o bs objects h =
      rw
        (
          has_more_cons (0xd0 + n) o bs,
          read_uint_be_one (0xd0 + n) o bs,
          le→leb 0xd0 (0xd0 + n) (omega arith),
          le→leb (0xd0 + n) 0xdf (omega arith),
          unpack_value,
        )
        (ap (λ m. unpack_items js fuel (count_of m) nil (at (o + 1) bs) objects) (omega arith))

  pub unpack_value-fields :
      (n fuel o : ℕ) (bs : List ℕ) (objects : List Value)
      → n ≤ 0xf
      → unpack_value js (suc fuel) (at o ((0xe0 + n) ∷ bs)) objects
        ≡ unpack_fields js fuel (count_of n) end (at (o + 1) bs) objects
  unfolding unpack_value
  unpack_value-fields n fuel o bs objects h =
      rw
        (
          has_more_cons (0xe0 + n) o bs,
          read_uint_be_one (0xe0 + n) o bs,
          lt→leb (0xe0 + n) 0xdf (omega arith),
          le→leb 0xd0 (0xe0 + n) (omega arith),
          le→leb 0xe0 (0xe0 + n) (omega arith),
          le→leb (0xe0 + n) 0xef (omega arith),
          unpack_value,
        )
        (ap (λ m. unpack_fields js fuel (count_of m) end (at (o + 1) bs) objects) (omega arith))

-- The count that is left: none in the endless form.
abbrev pub left : Bool → ℕ → Option ℕ
left true n = none
left false n = some n

pub more-left :
    (endless : Bool) (n o : ℕ) (bs rest : List ℕ)
    → Opens bs
    → more (left endless (suc n)) (at o (bs ++ rest)) ≡ true
unfolding more peek
more-left true n o (b ∷ bs) rest h =
    rw (has_more_cons b o (bs ++ rest), same_bytes_head b 0x03 [] [] h)
more-left false n o bs rest h = refl
more-left true n o [] rest h = absurd h

count_of_short : (n : ℕ) → n < 0xf → count_of n ≡ some n
unfolding count_of
count_of_short n h = ground arith

count_of_long : (n : ℕ) → ltb n 0xf ≡ false → count_of (min n 0xf) ≡ none
unfolding count_of
count_of_long n h = ground arith

pub less-left : (endless : Bool) (n : ℕ) → less (left endless (suc n)) ≡ left endless n
unfolding less
less-left true n = refl
less-left false n = ap some (omega arith)

-- What encloses `n` elements, and how the decoder meets it.
pub record Closing (first n : ℕ) (body : List ℕ) : Type 0 where
  pub endless : Bool
  pub tail : List ℕ
  pub is_enclose : enclose first n body ≡ (first + min n 0xf) ∷ (body ++ tail)
  pub count : count_of (min n 0xf) ≡ left endless n
  pub ends : (p : ℕ) (rest : List ℕ) → more (left endless 0) (at p (tail ++ rest)) ≡ false
  pub closes :
      (p : ℕ) (rest : List ℕ)
      → close (left endless 0) (at p (tail ++ rest)) ≡ at (p + length tail) rest

pub Closing-enclose : (first n : ℕ) (body : List ℕ) → Closing first n body
Closing-enclose first n body = elim (Bool-cases (ltb n 0xf)) [
  | inl short ↦ record {
    endless = false;
    tail = [];
    is_enclose = unfold enclose in rw short;
    count = ap count_of (omega (arith, ltb→lt n 0xf short)) ∙ count_of_short n (ltb→lt n 0xf short);
    ends = λ p rest. unfold more in refl;
    closes = λ p rest. unfold close in ap (λ q. at q rest) (omega arith);
  }
  | inr long ↦ record {
    endless = true;
    tail = 0x03 ∷ [];
    is_enclose = unfold enclose in rw long;
    count = count_of_long n long;
    ends =
        λ p rest. unfold more peek in rw (has_more_cons 0x03 p rest, same_bytes_refl (0x03 ∷ []));
    closes = λ p rest. unfold close advance in rw (has_more_cons 0x03 p rest);
  }
]
