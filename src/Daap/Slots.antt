-- ===== src/Daap/Slots.antt =====
-- Lists of tags of which some are left out, as the encoders of core/encoding/daap.ts push them, and what
-- decodeToObject makes of them.
use bunatv.Prelude.{
  ℕ, ◌+◌, ◌%◌, ◌^◌, ◌<◌, ◌≡◌, refl, sym, ap, ◌∙◌, List, [], ◌∷◌, ◌++◌, map, arith, Option, none,
  some, ok, if◌then◌else◌, le→ltb, length, length-append, take, drop, same_bytes, take-append_left,
  drop-append_left, append_assoc, drop-append_ge, drop-drop, Bool-cases, inl, inr,
}
use bunatv.Prelude.Bytes.{to_be, of_be, length-to_be, of_be-to_be, uint_be_fits}
use bunatv.Daap.{DecodedTag, tag_bytes, concat_tag, decode_tag}
use bunatv.Daap.Objects.{DaapValue, Entries, get, put, get-put}

-- Four characters of ASCII.
pub record IsTag (tag : List ℕ) : Type 0 where
  pub four : length tag ≡ 4
  pub written : tag_bytes tag ≡ tag
  pub read : map (λ c. c % 128) tag ≡ tag

unfoldable pub item_bytes : List ℕ → List ℕ → List ℕ
item_bytes tag value = tag ++ (to_be 4 (length value) ++ value)

pub concat-item_bytes :
    (tag value : List ℕ)
    → IsTag tag
    → length value < 2 ^ 32
    → concat_tag tag value ≡ ok (item_bytes tag value)
unfolding concat_tag item_bytes
concat-item_bytes tag value h short =
    rw (uint_be_fits 4 (length value) (omega (arith, short)), h.written)

module _ (tag value rest : List ℕ) (h : IsTag tag) (short : length value < 2 ^ 32) where
  whole : List ℕ
  whole = tag ++ (to_be 4 (length value) ++ (value ++ rest))

  after_tag : drop 4 whole ≡ to_be 4 (length value) ++ (value ++ rest)
  unfolding whole
  after_tag = drop-append_left 4 tag _ (sym h.four)

  size_field : of_be (take 4 (drop 4 whole)) ≡ length value
  size_field =
      ap (λ b. of_be (take 4 b)) after_tag
      ∙ ap of_be (
          take-append_left 4 (to_be 4 (length value)) (value ++ rest)
            (sym (length-to_be 4 (length value))))
      ∙ of_be-to_be 4 (length value) (omega (arith, short))

  after_header : drop 8 whole ≡ value ++ rest
  unfolding whole
  after_header =
      drop-append_ge 8 4 tag _ (omega (arith, h.four))
      ∙ drop-append_left 4 (to_be 4 (length value)) (value ++ rest)
          (sym (length-to_be 4 (length value)))

  after_item : drop (8 + length value) whole ≡ rest
  after_item =
      sym (drop-drop (length value) 8 (8 + length value) whole (omega arith))
      ∙ ap (drop (length value)) after_header
      ∙ drop-append_left (length value) value rest refl

  length-whole : length whole ≡ 8 + length value + length rest
  unfolding whole
  length-whole = omega (
    arith,
    h.four,
    length-append tag (to_be 4 (length value) ++ (value ++ rest)),
    length-append (to_be 4 (length value)) (value ++ rest),
    length-append value rest,
    length-to_be 4 (length value),
  )

  tag_read : map (λ c. c % 128) (take 4 whole) ≡ tag
  unfolding whole
  tag_read = ap (map (λ c. c % 128)) (take-append_left 4 tag _ (sym h.four)) ∙ h.read

  value_read : take (length value) (drop 8 whole) ≡ value
  value_read =
      ap (take (length value)) after_header ∙ take-append_left (length value) value rest refl

  decode-whole :
      decode_tag whole
      ≡ some (record { tag = tag; length_field = length value; value = value }, rest)
  unfolding decode_tag
  decode-whole = rw (
    size_field,
    le→ltb (length whole) 8 (omega (arith, length-whole)),
    le→ltb (length whole) (8 + length value) (omega (arith, length-whole)),
    tag_read,
    value_read,
    after_item,
  )

  pub decode-item_bytes :
      decode_tag (item_bytes tag value ++ rest)
      ≡ some (record { tag = tag; length_field = length value; value = value }, rest)
  unfolding item_bytes whole
  decode-item_bytes =
      ap decode_tag (
        append_assoc tag (to_be 4 (length value) ++ value) rest
        ∙ ap (λ b. tag ++ b) (append_assoc (to_be 4 (length value)) value rest))
      ∙ decode-whole

pub length-item_bytes :
    (tag value rest : List ℕ)
    → IsTag tag
    → length (item_bytes tag value ++ rest) ≡ 8 + length value + length rest
unfolding item_bytes
length-item_bytes tag value rest h = omega (
  arith,
  h.four,
  length-append (tag ++ (to_be 4 (length value) ++ value)) rest,
  length-append tag (to_be 4 (length value) ++ value),
  length-append (to_be 4 (length value)) value,
  length-to_be 4 (length value),
)

-- A tag that may be left out: its bytes, and the value they are read as.
pub record Slot : Type 0 where
  pub tag : List ℕ
  pub content : Option (List ℕ × DaapValue)

unfoldable pub slot_bytes : List ℕ → Option (List ℕ × DaapValue) → List ℕ
slot_bytes tag none = []
slot_bytes tag (some (bytes, v)) = item_bytes tag bytes

unfoldable pub slots_bytes : List Slot → List ℕ
slots_bytes [] = []
slots_bytes (s ∷ ss) = slot_bytes s.tag s.content ++ slots_bytes ss

unfoldable pub slot_tags : List ℕ → Option (List ℕ × DaapValue) → List DecodedTag → List DecodedTag
slot_tags tag none tags = tags
slot_tags tag (some (bytes, v)) tags =
    record { tag = tag; length_field = length bytes; value = bytes } ∷ tags

unfoldable pub slots_tags : List Slot → List DecodedTag
slots_tags [] = []
slots_tags (s ∷ ss) = slot_tags s.tag s.content (slots_tags ss)

unfoldable pub put_slot : List ℕ → Option (List ℕ × DaapValue) → Entries → Entries
put_slot tag none o = o
put_slot tag (some (bytes, v)) o = put tag v o

unfoldable pub put_slots : List Slot → Entries → Entries
put_slots [] o = o
put_slots (s ∷ ss) o = put_slots ss (put_slot s.tag s.content o)

-- The last value of a tag.
unfoldable pub later : Option (List ℕ × DaapValue) → Option DaapValue → Option DaapValue
later none before = before
later (some (bytes, v)) before = some v

unfoldable pub find : List ℕ → List Slot → Option DaapValue → Option DaapValue
find k [] before = before
find k (s ∷ ss) before = find k ss (if same_bytes s.tag k then later s.content before else before)

get-put_slot :
    (k tag : List ℕ) (content : Option (List ℕ × DaapValue)) (o : Entries)
    → get k (put_slot tag content o)
      ≡ (if same_bytes tag k then later content (get k o) else get k o)
unfolding put_slot later
get-put_slot k tag none o = elim (Bool-cases (same_bytes tag k)) [ inl t ↦ rw t | inr f ↦ rw f ]
get-put_slot k tag (some (bytes, v)) o = get-put tag k v o

pub get-put_slots :
    (k : List ℕ) (ss : List Slot) (o : Entries) → get k (put_slots ss o) ≡ find k ss (get k o)
unfolding put_slots find
get-put_slots k [] o = refl
get-put_slots k (s ∷ ss) o =
    get-put_slots k ss (put_slot s.tag s.content o)
    ∙ ap (find k ss) (get-put_slot k s.tag s.content o)
