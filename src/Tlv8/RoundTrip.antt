-- ===== src/Tlv8/RoundTrip.antt =====
-- Encoding and then decoding an object, core/encoding/tlv8.ts.
use bunatv.Prelude.{
  ℕ, zero, suc, ◌≤◌, ◌≡◌, refl, ap, ◌∙◌, List, [], ◌∷◌, ◌++◌, arith, min, ok, length, length-drop,
  take, drop, take-append-drop, append-nil, append_assoc,
}
use bunatv.Tlv8.{TlvItem, TlvData, encode_object, decode_object, merge_item, merge_items}
use bunatv.Tlv8.Items.{write_items, IsCut}
use bunatv.Tlv8.Decode.{decode_object-write_items}
use bunatv.Tlv8.Encode.{fragments, value_items, object_items, Ascending, encode_object-object_items}
use bunatv.Tlv8.Object.{Below, Below-append, Below-weaken, merge_item_new, merge_item_more}

merge_items-append :
    (xs ys : List TlvItem) (m : TlvData)
    → merge_items (xs ++ ys) m ≡ merge_items ys (merge_items xs m)
unfolding merge_items
merge_items-append [] ys m = refl
merge_items-append (x ∷ xs) ys m = merge_items-append xs ys (merge_item x m)

module _ (type : ℕ) (m : TlvData) (new : Below type m) where
  -- The fragments behind the first are joined to it.
  merge_items-fragments :
      (fuel : ℕ) (front value : List ℕ)
      → length value ≤ fuel
      → merge_items (fragments fuel type value) (m ++ (type, front) ∷ [])
        ≡ m ++ (type, front ++ value) ∷ []
  unfolding fragments merge_items
  merge_items-fragments fuel front [] h = rw append-nil
  merge_items-fragments zero front (b ∷ bs) h = absurd (omega arith)
  merge_items-fragments (suc fuel) front (b ∷ bs) h =
      let size = min 255 (length (b ∷ bs)) in
      let chunk = take size (b ∷ bs) in
      let left = drop size (b ∷ bs) in
      ap (merge_items (fragments fuel type left)) (merge_item_more type front chunk m new)
      ∙ merge_items-fragments fuel (front ++ chunk) left (omega (arith, length-drop size (b ∷ bs)))
      ∙ rw (append_assoc front chunk left, take-append-drop size (b ∷ bs))

  merge_items-value_items :
      (value : List ℕ) → merge_items (value_items type value) m ≡ m ++ (type, value) ∷ []
  unfolding value_items merge_items
  merge_items-value_items [] = merge_item_new type [] m new
  merge_items-value_items (b ∷ bs) =
      let size = min 255 (length (b ∷ bs)) in
      let chunk = take size (b ∷ bs) in
      let left = drop size (b ∷ bs) in
      ap (merge_items (fragments (length bs) type left)) (merge_item_new type chunk m new)
      ∙ merge_items-fragments (length bs) chunk left (omega (arith, length-drop size (b ∷ bs)))
      ∙ rw (take-append-drop size (b ∷ bs))

merge_items-object_items :
    (lo : ℕ) (m front : TlvData)
    → Ascending lo m
    → Below lo front
    → merge_items (object_items m) front ≡ front ++ m
unfolding object_items
merge_items-object_items lo [] front h below = unfold merge_items in rw append-nil
merge_items-object_items lo ((k, v) ∷ m) front (le, in_range, more) below =
    let new = Below-weaken lo k front le below in
    rw (
      merge_items-append (value_items k v) (object_items m) front,
      merge_items-value_items k front new v,
      merge_items-object_items (suc k) m (front ++ (k, v) ∷ []) more
          (Below-append k (suc k) v front new (omega arith)),
      append_assoc front ((k, v) ∷ []) m,
    )

-- An object whose keys are bytes, in JavaScript's order of integer keys, is encoded without an
-- error and decoded to itself, whatever the lengths of its values; so also if an incomplete item
-- follows.
pub decode_object-encode_object :
    (m : TlvData) (tail : List ℕ)
    → Ascending 0 m
    → IsCut tail
    → (bytes : List ℕ) × (encode_object m ≡ ok bytes) × (decode_object (bytes ++ tail) ≡ ok m)
decode_object-encode_object m tail h cut = (
  write_items (object_items m),
  encode_object-object_items 0 m h,
  decode_object-write_items (object_items m) tail cut
      ∙ ap ok (merge_items-object_items 0 m [] h tt),
)
