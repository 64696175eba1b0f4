-- ===== src/Daap/RoundTrip.antt =====
-- decodeToObject of core/encoding/daap.ts on tags that were written one after the other.
use bunatv.Prelude.{
  ℕ, zero, suc, ◌^◌, ◌<◌, ◌≡◌, refl, ◌∙◌, List, [], ◌∷◌, ◌++◌, arith, Option, none, some, Result,
  ok, All, lt→ltb, length,
}
use bunatv.Daap.{DecodedTag, decode_rounds, decode}
use bunatv.Daap.Objects.{DaapValue, Entries, empty, tag_type, read_value, put_tags, decode_depth}
use bunatv.Daap.Slots.{
  IsTag, item_bytes, length-item_bytes, decode-item_bytes, Slot, slot_bytes, slots_bytes, slot_tags,
  slots_tags, put_slot, put_slots,
}

module _ (to_utf8_string : List ℕ → List ℕ) (nested : List ℕ → Result Entries) where
  -- The bytes fit the length field and are read as the value.
  abbrev pub IsContent : List ℕ → Option (List ℕ × DaapValue) → Type 0
  IsContent tag none = Unit
  IsContent tag (some (bytes, v)) =
      (length bytes < 2 ^ 32) × (read_value to_utf8_string nested bytes (tag_type tag) ≡ ok v)

  pub record IsReadable (s : Slot) : Type 0 where
    pub is_tag : IsTag s.tag
    pub content_read : IsContent s.tag s.content

  decode_rounds-slot :
      (fuel : ℕ) (tag rest : List ℕ) (content : Option (List ℕ × DaapValue))
      (tags : List DecodedTag)
      → IsTag tag
      → IsContent tag content
      → length (slot_bytes tag content ++ rest) < fuel
      → ((f : ℕ) → length rest < f → decode_rounds f rest ≡ ok tags)
      → decode_rounds fuel (slot_bytes tag content ++ rest) ≡ ok (slot_tags tag content tags)
  unfolding decode_rounds slot_bytes slot_tags
  decode_rounds-slot fuel tag rest none tags h c enough others = others fuel enough
  decode_rounds-slot zero tag rest (some (bytes, v)) tags h c enough others = absurd (omega arith)
  decode_rounds-slot (suc fuel) tag rest (some (bytes, v)) tags h (short, e) enough others =
      let size = length-item_bytes tag bytes rest h in
      rw (
        lt→ltb 0 (length (item_bytes tag bytes ++ rest)) (omega (arith, size)),
        decode-item_bytes tag bytes rest h short,
        others fuel (omega (arith, size)),
        decode_rounds,
      )

  decode_rounds-slots :
      (ss : List Slot) (fuel : ℕ)
      → All IsReadable ss
      → length (slots_bytes ss) < fuel
      → decode_rounds fuel (slots_bytes ss) ≡ ok (slots_tags ss)
  unfolding slots_bytes slots_tags
  decode_rounds-slots [] zero h enough = absurd (omega arith)
  decode_rounds-slots [] (suc fuel) h enough = unfold decode_rounds in refl
  decode_rounds-slots (s ∷ ss) fuel (h, hs) enough =
      decode_rounds-slot fuel s.tag (slots_bytes ss) s.content (slots_tags ss) h.is_tag
        h.content_read enough (λ f. decode_rounds-slots ss f hs)

  put_tags-slot :
      (tag : List ℕ) (content : Option (List ℕ × DaapValue)) (tags : List DecodedTag) (o : Entries)
      → IsContent tag content
      → put_tags to_utf8_string nested (slot_tags tag content tags) o
        ≡ put_tags to_utf8_string nested tags (put_slot tag content o)
  unfolding put_tags slot_tags put_slot
  put_tags-slot tag none tags o c = refl
  put_tags-slot tag (some (bytes, v)) tags o (short, e) = rw e

  put_tags-slots :
      (ss : List Slot) (o : Entries)
      → All IsReadable ss
      → put_tags to_utf8_string nested (slots_tags ss) o ≡ ok (put_slots ss o)
  unfolding slots_tags put_slots
  put_tags-slots [] o h = unfold put_tags in refl
  put_tags-slots (s ∷ ss) o (h, hs) =
      put_tags-slot s.tag s.content (slots_tags ss) o h.content_read
      ∙ put_tags-slots ss (put_slot s.tag s.content o) hs

pub decode_depth-slots :
    (to_utf8_string : List ℕ → List ℕ) (depth : ℕ) (ss : List Slot)
    → All (IsReadable to_utf8_string (decode_depth to_utf8_string depth)) ss
    → decode_depth to_utf8_string (suc depth) (slots_bytes ss) ≡ ok (put_slots ss empty)
unfolding decode_depth decode
decode_depth-slots to_utf8_string depth ss h =
    rw
      (decode_rounds-slots to_utf8_string (decode_depth to_utf8_string depth) ss
        (suc (length (slots_bytes ss))) h (omega arith))
      (put_tags-slots to_utf8_string (decode_depth to_utf8_string depth) ss empty h)
