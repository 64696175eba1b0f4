-- ===== src/Tlv8/Size.antt =====
-- The sizes of what core/encoding/tlv8.ts writes, and the shape of the items.
use bunatv.Prelude.{
  ℕ, zero, suc, ◌+◌, ◌*◌, ◌/◌, ◌≤◌, ◌<◌, ◌≡◌, refl, ap, ◌∙◌, List, [], ◌∷◌, ◌++◌, arith, min, max,
  sym, ok, length, length-append, length-drop, length-take, length-take_le, take, drop,
  take-append-drop, append-nil, All,
}
use bunatv.Tlv8.{TlvItem, encode, decode}
use bunatv.Tlv8.Items.{write_items}
use bunatv.Tlv8.Decode.{decode-write_items}
use bunatv.Tlv8.Encode.{fragments, value_items, encode-value_items}

abbrev pub values : List TlvItem → List ℕ
values [] = []
values (item ∷ items) = item.value ++ values items

-- A fragment of `type`: one byte is enough for its length.
abbrev pub IsFragment : ℕ → TlvItem → Type 0
IsFragment type item = (item.type ≡ type) × (length item.value ≤ 255)

module _ (type : ℕ) where
  length-write_items-fragments :
      (fuel : ℕ) (value : List ℕ)
      → length value ≤ fuel
      → length (write_items (fragments fuel type value))
        ≡ length value + (length value + 254) / 255 * 2
  unfolding write_items fragments
  length-write_items-fragments fuel [] h = refl
  length-write_items-fragments zero (b ∷ bs) h = absurd (omega arith)
  length-write_items-fragments (suc fuel) (b ∷ bs) h =
      let size = min 255 (length (b ∷ bs)) in
      let chunk = take size (b ∷ bs) in
      let left = drop size (b ∷ bs) in
      omega (
        arith,
        length-append chunk (write_items (fragments fuel type left)),
        length-take_le size (b ∷ bs) (omega arith),
        length-drop size (b ∷ bs),
        length-write_items-fragments fuel left (omega (arith, length-drop size (b ∷ bs))),
      )

  values-fragments :
      (fuel : ℕ) (value : List ℕ)
      → length value ≤ fuel
      → (values (fragments fuel type value) ≡ value)
        × All (IsFragment type) (fragments fuel type value)
  unfolding fragments
  values-fragments fuel [] h = (refl, tt)
  values-fragments zero (b ∷ bs) h = absurd (omega arith)
  values-fragments (suc fuel) (b ∷ bs) h =
      let size = min 255 (length (b ∷ bs)) in
      let (e, all) =
        values-fragments fuel (drop size (b ∷ bs)) (omega (arith, length-drop size (b ∷ bs))) in
      (
        rw e (take-append-drop size (b ∷ bs)),
        ((refl, omega (arith, length-take size (b ∷ bs))), all),
      )

-- A value of n > 0 bytes takes n bytes and a header for each 255 or part of them, which is what
-- the encoder reserves: its buffer never grows. An empty value takes two bytes.
pub length-encode :
    (type : ℕ) (value : List ℕ)
    → type < 256
    → (bytes : List ℕ) × (encode type value ≡ ok bytes)
      × (length bytes ≡ max 2 (length value + (length value + 254) / 255 * 2))
length-encode type [] h = (
  write_items (value_items type []),
  encode-value_items type h [],
  unfold write_items value_items in refl,
)
length-encode type (b ∷ bs) h = (
  write_items (value_items type (b ∷ bs)),
  encode-value_items type h (b ∷ bs),
  unfold value_items in
      omega (arith, length-write_items-fragments type (length (b ∷ bs)) (b ∷ bs) (omega arith)),
)

-- Without joining, the items read back all have the type that was written, fit their length
-- bytes, and hold the value in order.
pub decode-encode :
    (type : ℕ) (value : List ℕ)
    → type < 256
    → (bytes : List ℕ) × (items : List TlvItem) × (encode type value ≡ ok bytes)
      × (decode bytes ≡ ok items)
      × (values items ≡ value)
      × All (IsFragment type) items
decode-encode type value h = (
  write_items (value_items type value),
  value_items type value,
  encode-value_items type h value,
  ap decode (sym (append-nil (write_items (value_items type value))))
      ∙ decode-write_items (value_items type value) [] tt,
  (parts value).0,
  (parts value).1,
)
  where
    parts :
        (v : List ℕ)
        → (values (value_items type v) ≡ v) × All (IsFragment type) (value_items type v)
    parts [] = unfold value_items in (refl, ((refl, omega arith), tt))
    parts (b ∷ bs) =
        unfold value_items in values-fragments type (length (b ∷ bs)) (b ∷ bs) (omega arith)
