-- ===== src/Tlv8/Encode.antt =====
-- What the encoders of core/encoding/tlv8.ts write, as a list of items.
use bunatv.Prelude.{
  ℕ, zero, suc, ◌≤◌, ◌<◌, ◌≡◌, refl, List, [], ◌∷◌, ◌++◌, arith, min, ok, err, tlv_type_range,
  le→ltb, length, length-take_le, length-drop, take, drop, append_assoc,
}
use bunatv.Prelude.Bytes.{uint_be, uint_be_fits, to_be}
use bunatv.Tlv8.{TlvItem, TlvData, encode, encode_object, write_chunks, write_value}
use bunatv.Tlv8.Items.{write_items}

abbrev chunk : ℕ → List ℕ → TlvItem
chunk type value = record { type = type; value = take (min 255 (length value)) value }

unfoldable pub fragments : ℕ → ℕ → List ℕ → List TlvItem
fragments fuel type [] = []
fragments zero type (b ∷ bs) = []
fragments (suc fuel) type (b ∷ bs) =
    chunk type (b ∷ bs) ∷ fragments fuel type (drop (min 255 (length (b ∷ bs))) (b ∷ bs))

-- The items that one entry is written as: an empty value is one empty item.
unfoldable pub value_items : ℕ → List ℕ → List TlvItem
unfolding fragments
value_items type [] = record { type = type; value = [] } ∷ []
value_items type (b ∷ bs) = fragments (length (b ∷ bs)) type (b ∷ bs)

unfoldable pub object_items : TlvData → List TlvItem
unfolding value_items
object_items [] = []
object_items ((type, value) ∷ m) = value_items type value ++ object_items m

write_items-append :
    (xs ys : List TlvItem) → write_items (xs ++ ys) ≡ write_items xs ++ write_items ys
unfolding write_items
write_items-append [] ys = refl
write_items-append (x ∷ xs) ys = rw (write_items-append xs ys, append_assoc)

uint_be_one : (v : ℕ) → v < 256 → uint_be 1 v ≡ ok (v ∷ [])
unfolding to_be
uint_be_one v h = ground (arith, uint_be_fits 1 v)

module _ (type : ℕ) (in_range : type < 256) where
  write_chunks-fragments :
      (fuel : ℕ) (value : List ℕ)
      → length value ≤ fuel
      → write_chunks fuel type value ≡ ok (write_items (fragments fuel type value))
  unfolding write_chunks fragments write_items
  write_chunks-fragments fuel [] h = refl
  write_chunks-fragments zero (b ∷ bs) h = absurd (omega arith)
  write_chunks-fragments (suc fuel) (b ∷ bs) h =
      let size = min 255 (length (b ∷ bs)) in
      rw (
        uint_be_one type in_range,
        uint_be_one size (omega arith),
        write_chunks-fragments fuel (drop size (b ∷ bs)) (omega (arith, length-drop size (b ∷ bs))),
        length-take_le size (b ∷ bs) (omega arith),
      )

  write_value-value_items :
      (value : List ℕ) → write_value type value ≡ ok (write_items (value_items type value))
  unfolding write_value value_items
  write_value-value_items [] = unfold write_items in refl
  write_value-value_items (b ∷ bs) = write_chunks-fragments (length (b ∷ bs)) (b ∷ bs) (omega arith)

  pub encode-value_items :
      (value : List ℕ) → encode type value ≡ ok (write_items (value_items type value))
  unfolding encode
  encode-value_items value = rw (le→ltb 255 type (omega arith)) (write_value-value_items value)

-- A type that is no byte is refused, whatever the value.
pub encode_range : (type : ℕ) (value : List ℕ) → 255 < type → encode type value ≡ err tlv_type_range
unfolding encode
encode_range type value h = ground arith

-- The entries of a JavaScript object with integer keys, in its order, from the key `lo` on; the
-- keys are bytes.
abbrev pub Ascending : ℕ → TlvData → Type 0
Ascending lo [] = Unit
Ascending lo ((k, v) ∷ m) = (lo ≤ k) × (k < 256) × Ascending (suc k) m

pub encode_object-object_items :
    (lo : ℕ) (m : TlvData) → Ascending lo m → encode_object m ≡ ok (write_items (object_items m))
unfolding encode_object object_items
encode_object-object_items lo [] h = unfold write_items in refl
encode_object-object_items lo ((k, v) ∷ m) (lo-le, in_range, more) = rw (
  le→ltb 255 k (omega arith),
  write_value-value_items k in_range v,
  encode_object-object_items (suc k) m more,
  write_items-append (value_items k v) (object_items m),
)
