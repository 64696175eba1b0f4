-- ===== src/Tlv8.antt =====
-- core/encoding/tlv8.ts: the type-length-value records of HAP pairing.
pub mod Items
pub mod Encode
pub mod Decode
pub mod Object
pub mod RoundTrip
pub mod Size
pub mod Builder
use bunatv.Prelude.{
  ℕ, zero, suc, ◌+◌, ◌*◌, ◌/◌, ◌%◌, min, ◌⊎◌, inl, inr, List, [], ◌∷◌, ◌++◌, Bool, true, false, not,
  ◌&&◌, Option, none, some, Result, ok, err, out_of_fuel, tlv_type_range, ◌>>=◌, ltb, ◌==◌,
  if◌then◌else◌, length, take, drop,
}
use bunatv.Prelude.Bytes.{uint_be}
use bunatv.Buffers.Reader.{BufferReader, reader, read_uint_be, read_buffer, has_more, remaining}

pub record TlvItem : Type 0 where
  pub type : ℕ
  pub value : List ℕ

-- A `Record<number, Buffer>`: JavaScript lists integer keys in ascending order.
abbrev pub TlvData : Type 0
TlvData = List (ℕ × List ℕ)

-- `data[type]`, and `none` where `type in data` is false.
unfoldable pub lookup : ℕ → TlvData → Option (List ℕ)
lookup t [] = none
lookup t ((k, v) ∷ m) = if k == t then some v else lookup t m

-- `data[type] = value`.
unfoldable pub assign : ℕ → List ℕ → TlvData → TlvData
assign t v [] = (t, v) ∷ []
assign t v ((k, w) ∷ m) =
    if k == t then (k, v) ∷ m else if ltb t k then (t, v) ∷ (k, w) ∷ m else (k, w) ∷ assign t v m

-- The loop of `encode`: `value` is what stands behind `offset`. A round takes a byte at least, so
-- the length of the value is fuel enough.
unfoldable pub write_chunks : ℕ → ℕ → List ℕ → Result (List ℕ)
write_chunks fuel type [] = ok []
write_chunks zero type (b ∷ bs) = err out_of_fuel
write_chunks (suc fuel) type (b ∷ bs) = do
  let chunk_size = min 255 (length (b ∷ bs))
  type_byte ← uint_be 1 type
  size_byte ← uint_be 1 chunk_size
  rest ← write_chunks fuel type (drop chunk_size (b ∷ bs))
  ok (type_byte ++ (size_byte ++ (take chunk_size (b ∷ bs) ++ rest)))

unfoldable pub write_value : ℕ → List ℕ → Result (List ℕ)
unfolding write_chunks
write_value type [] = ok (type ∷ 0 ∷ [])
write_value type (b ∷ bs) = write_chunks (length (b ∷ bs)) type (b ∷ bs)

unfoldable pub encode : ℕ → List ℕ → Result (List ℕ)
unfolding write_value
encode type value = if ltb 255 type then err tlv_type_range else write_value type value

unfoldable pub encode_object : TlvData → Result (List ℕ)
unfolding write_value
encode_object [] = ok []
encode_object ((type, value) ∷ m) = do
  entry ← (if ltb 255 type then err tlv_type_range else write_value type value)
  rest ← encode_object m
  ok (entry ++ rest)

-- One round of the loop of `decode`: `none` where it breaks off, with the reader as it was.
unfoldable pub read_item : BufferReader → Result (Option (TlvItem × BufferReader))
read_item r = if ltb (remaining r) 2 then ok none else do
  (type, r₁) ← read_uint_be 1 r
  (size, r₂) ← read_uint_be 1 r₁
  let (value, r₃) = read_buffer size r₂
  ok (if ltb (remaining r₂) size then none else some (record { type = type; value = value }, r₃))

unfoldable pub decode_loop : ℕ → BufferReader → List TlvItem → Result (List TlvItem × BufferReader)
decode_loop zero r items = err out_of_fuel
decode_loop (suc fuel) r items = elim (has_more r) [
  | false ↦ ok (items, r)
  | true ↦ elim (read_item r) [
    | err e ↦ err e
    | ok none ↦ ok (items, r)
    | ok (some (item, r')) ↦ decode_loop fuel r' (items ++ item ∷ [])
  ]
]

-- Every item takes two bytes at least: one round more than there are bytes is enough.
unfoldable pub decode : List ℕ → Result (List TlvItem)
unfolding decode_loop read_item
decode bytes = do (items, r) ← decode_loop (suc (length bytes)) (reader bytes) []; ok items

-- Values of one type are joined, in the order in which they come.
unfoldable pub merge_item : TlvItem → TlvData → TlvData
merge_item item m = elim (lookup item.type m) [
  | some value ↦ assign item.type (value ++ item.value) m
  | none ↦ assign item.type item.value m
]

unfoldable pub merge_items : List TlvItem → TlvData → TlvData
merge_items [] m = m
merge_items (item ∷ items) m = merge_items items (merge_item item m)

unfoldable pub decode_object : List ℕ → Result TlvData
unfolding merge_items merge_item
decode_object bytes = do items ← decode bytes; ok (merge_items items [])

-- The texts of `errors`, with the numbers that stand in them.
pub data Issue : Type 0 where
  incomplete_header : ℕ → Issue
  incomplete_value : ℕ → ℕ → Issue
  nothing_parsed : Issue

pub record Partial : Type 0 where
  pub contents : TlvData
  pub is_complete : Bool
  pub bytes_processed : ℕ
  pub errors : List Issue

-- One round of the loop of `tryDecodeObject`: an item, or the issue that ends the loop.
unfoldable pub try_item : BufferReader → Result (TlvItem × BufferReader ⊎ Issue)
try_item r =
    let start = r.offset in
    if ltb (remaining r) 2 then ok (inr (incomplete_header start)) else do
      (type, r₁) ← read_uint_be 1 r
      (size, r₂) ← read_uint_be 1 r₁
      let (value, r₃) = read_buffer size r₂
      ok (
          if ltb (remaining r₂) size
          then inr (incomplete_value (start + 2) size)
          else inl (record { type = type; value = value }, r₃))

unfoldable pub try_loop : ℕ → BufferReader → TlvData → Result (TlvData × BufferReader × List Issue)
try_loop zero r m = err out_of_fuel
try_loop (suc fuel) r m = elim (has_more r) [
  | false ↦ ok (m, r, [])
  | true ↦ elim (try_item r) [
    | err e ↦ err e
    | ok (inr issue) ↦ ok (m, r, issue ∷ [])
    | ok (inl (item, r')) ↦ try_loop fuel r' (merge_item item m)
  ]
]

unfoldable pub try_decode_object : List ℕ → Result Partial
unfolding try_loop try_item merge_item
try_decode_object bytes = do
  (m, r, errors) ← try_loop (suc (length bytes)) (reader bytes) []
  let bytes_processed = r.offset
  let is_complete = bytes_processed == length bytes
  ok (record {
    contents = m;
    is_complete = is_complete;
    bytes_processed = bytes_processed;
    errors =
        if not is_complete && bytes_processed == 0 then errors ++ nothing_parsed ∷ [] else errors;
  })

-- `TlvBuilder`: `add` also takes a single byte; the named methods are `add` at a fixed type.
pub data TlvValue : Type 0 where
  byte : ℕ → TlvValue
  bytes : List ℕ → TlvValue

pub record TlvBuilder : Type 0 where
  pub contents : TlvData
  pub estimated_size : ℕ

unfoldable pub new_builder : TlvBuilder
new_builder = record { contents = []; estimated_size = 0 }

-- `Buffer.from([value])` keeps the lowest byte; `Math.ceil(n / 255)` is `(n + 254) / 255`.
unfoldable pub add : ℕ → TlvValue → TlvBuilder → TlvBuilder
add type (byte b) t = record {
  contents = assign type (b % 256 ∷ []) t.contents;
  estimated_size = t.estimated_size + 3;
}
add type (bytes bs) t = record {
  contents = assign type bs t.contents;
  estimated_size = t.estimated_size + (length bs + (length bs + 254) / 255 * 2);
}

unfoldable pub build : TlvBuilder → Result (List ℕ)
build t = encode_object t.contents

unfoldable pub clear : TlvBuilder → TlvBuilder
clear t = record t { contents = [] }
