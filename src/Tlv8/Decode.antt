-- ===== src/Tlv8/Decode.antt =====
-- What the decoders of core/encoding/tlv8.ts return on any buffer.
use bunatv.Prelude.{
  ℕ, suc, ◌+◌, ◌-◌, ◌≤◌, ◌≡◌, ◌↔◌, ap, ◌∙◌, List, [], ◌∷◌, ◌++◌, arith, ok, true, length,
  length-append, ◌==◌, if◌then◌else◌, not, ◌&&◌,
}
use native.Mathlib.Nat.{zero-add}
use bunatv.Buffers.Reader.{reader}
use bunatv.Tlv8.{
  TlvItem, Partial, nothing_parsed, decode, decode_object, try_decode_object, merge_items,
}
use bunatv.Tlv8.Items.{
  write_items, IsCut, issues, offset_after, split_items, decode_loop-write_items,
  try_loop-write_items,
}

length-write_items-le : (items : List TlvItem) → length items ≤ length (write_items items)
unfolding write_items
length-write_items-le [] = omega arith
length-write_items-le (item ∷ items) =
    omega (arith, length-append item.value (write_items items), length-write_items-le items)

pub offset_after-write_items :
    (offset : ℕ) (items : List TlvItem)
    → offset_after offset items ≡ offset + length (write_items items)
unfolding write_items
offset_after-write_items offset [] = omega arith
offset_after-write_items offset (item ∷ items) = omega (
  arith,
  length-append item.value (write_items items),
  offset_after-write_items (offset + 1 + 1 + length item.value) items,
)

rounds_left : (items : List TlvItem) (tail : List ℕ) → ℕ
rounds_left items tail = length (write_items items ++ tail) - length items

rounds_left_lem :
    (items : List TlvItem) (tail : List ℕ)
    → suc (length (write_items items ++ tail)) ≡ length items + suc (rounds_left items tail)
unfolding rounds_left
rounds_left_lem items tail =
    omega (arith, length-append (write_items items) tail, length-write_items-le items)

-- Decoding returns the items that stand before an incomplete rest.
pub decode-write_items :
    (items : List TlvItem) (tail : List ℕ)
    → IsCut tail
    → decode (write_items items ++ tail) ≡ ok items
unfolding decode reader
decode-write_items items tail cut = rw (
    decode_loop-write_items items _ (rounds_left items tail) 0 tail [] (rounds_left_lem items tail)
      cut)

-- Decoding any buffer, also one that is malformed, succeeds and throws nothing, and the buffer is the
-- bytes of the returned items followed by a rest that holds no whole item.
pub decode_lem :
    (bytes : List ℕ)
    → (items : List TlvItem) × (tail : List ℕ) × (decode bytes ≡ ok items)
      × (bytes ≡ write_items items ++ tail)
      × IsCut tail
decode_lem bytes =
    let (items, tail, e, cut) = split_items (length bytes) bytes (omega arith) in
    (items, tail, ap decode e ∙ decode-write_items items tail cut, e, cut)

abbrev partial : List TlvItem → List ℕ → Partial
partial items tail =
    let bytes_processed = length (write_items items) in
    let is_complete = bytes_processed == length (write_items items ++ tail) in
    record {
      contents = merge_items items [];
      is_complete = is_complete;
      bytes_processed = bytes_processed;
      errors =
          if not is_complete && bytes_processed == 0
          then issues bytes_processed tail ++ nothing_parsed ∷ []
          else issues bytes_processed tail;
    }

try_decode_object-write_items :
    (items : List TlvItem) (tail : List ℕ)
    → IsCut tail
    → try_decode_object (write_items items ++ tail) ≡ ok (partial items tail)
unfolding try_decode_object reader
try_decode_object-write_items items tail cut = rw (
  try_loop-write_items items _ (rounds_left items tail) 0 tail [] (rounds_left_lem items tail) cut,
  offset_after-write_items,
  zero-add,
)

pub decode_object-write_items :
    (items : List TlvItem) (tail : List ℕ)
    → IsCut tail
    → decode_object (write_items items ++ tail) ≡ ok (merge_items items [])
unfolding decode_object
decode_object-write_items items tail cut = rw (decode-write_items items tail cut)

is_complete_iff :
    (items : List TlvItem) (tail : List ℕ)
    → ((partial items tail).is_complete ≡ true) ↔ ((partial items tail).errors ≡ [])
is_complete_iff items [] = ground (arith, length-append (write_items items) [])
is_complete_iff items (x ∷ []) = ground (arith, length-append (write_items items) (x ∷ []))
is_complete_iff items (x ∷ y ∷ tail) =
    ground (arith, length-append (write_items items) (x ∷ y ∷ tail))

-- On any buffer tryDecodeObject succeeds with the record that decodeObject returns, processes no more
-- bytes than there are, and reports completeness exactly if it reports no errors.
pub try_decode_object_lem :
    (bytes : List ℕ)
    → (p : Partial) × (try_decode_object bytes ≡ ok p)
      × (decode_object bytes ≡ ok p.contents)
      × (p.bytes_processed ≤ length bytes)
      × ((p.is_complete ≡ true) ↔ (p.errors ≡ []))
try_decode_object_lem bytes =
    let (items, tail, e, cut) = split_items (length bytes) bytes (omega arith) in
    (
      partial items tail,
      ap try_decode_object e ∙ try_decode_object-write_items items tail cut,
      ap decode_object e ∙ decode_object-write_items items tail cut,
      omega (arith, ap length e, length-append (write_items items) tail),
      is_complete_iff items tail,
    )
