-- ===== src/Opack/Pack.antt =====
-- Packing, core/encoding/opack.ts: each string and buffer is written once; later occurrences are
-- references into the list of the objects written so far. Buffers, references and the list are as in the
-- source; the rest describes the packed bytes without the pool, which Opack/Pooled has.
use bunatv.Prelude.{
  ℕ, suc, ◌+◌, min, List, [], ◌∷◌, ◌++◌, Option, none, some, true, false, Result, ok, err,
  integer_too_large, string_too_long, bytes_too_long, ◌>>=◌, ltb, leb, if◌then◌else◌, length,
  same_bytes,
}
use bunatv.Prelude.Bytes.{to_le}
use bunatv.Opack.Value.{
  Value, null, boolean, number, negative, bigint, negative_bigint, double, str, buffer, arr, dict,
  Items, nil, cons, Fields, end, field, count_items, count_fields,
}

-- `packInteger` of a value that is not negative.
unfoldable pub pack_integer : ℕ → Result (List ℕ)
unfolding to_le
pack_integer v =
    if ltb v 0x28
    then ok ((v + 0x08) ∷ [])
    else if leb v 0xff
    then ok (0x30 ∷ v ∷ [])
    else if leb v 0xffff
    then ok (0x31 ∷ to_le 2 v)
    else if leb v 0xffffffff
    then ok (0x32 ∷ to_le 4 v)
    else err integer_too_large

unfoldable pub pack_float : ℕ → List ℕ
unfolding to_le
pack_float bits = 0x36 ∷ to_le 8 bits

unfoldable pub pack_bigint : ℕ → Result (List ℕ)
unfolding to_le
pack_bigint v = if ltb 0xffffffffffffffff v then err integer_too_large else ok (0x33 ∷ to_le 8 v)

unfoldable pub pack_string : List ℕ → Result (List ℕ)
pack_string encoded =
    let len = length encoded in
    if leb len 0x20
    then ok ((0x40 + len) ∷ encoded)
    else if leb len 0xff
    then ok (0x61 ∷ len ∷ encoded)
    else if leb len 0xffff
    then ok (0x62 ∷ (to_le 2 len ++ encoded))
    else err string_too_long

unfoldable pub pack_bytes : List ℕ → Result (List ℕ)
pack_bytes bytes =
    let len = length bytes in
    if leb len 0x20
    then ok ((0x70 + len) ∷ bytes)
    else if leb len 0xff
    then ok (0x91 ∷ len ∷ bytes)
    else if leb len 0xffff
    then ok (0x92 ∷ (to_le 2 len ++ bytes))
    else err bytes_too_long

unfoldable pub find_index : List ℕ → List (List ℕ) → Option ℕ
find_index packed [] = none
find_index packed (o ∷ os) =
    if same_bytes o packed
    then some 0
    else elim (find_index packed os) [ none ↦ none | some i ↦ some (suc i) ]

-- The reference to the object at an index; `none` where the index is too large for one.
unfoldable pub reference : ℕ → Option (List ℕ)
reference i =
    if ltb i 0x21
    then some ((0xa0 + i) ∷ [])
    else if leb i 0xff
    then some (0xc1 ∷ i ∷ [])
    else if leb i 0xffff
    then some (0xc2 ∷ to_le 2 i)
    else if leb i 0xffffffff
    then some (0xc3 ∷ to_le 4 i)
    else none

unfoldable pub known_reference : List ℕ → List (List ℕ) → Option (List ℕ)
known_reference packed objects = elim (find_index packed objects) [
  | none ↦ none
  | some i ↦ reference i
]

unfoldable pub check_and_reuse : List ℕ → List (List ℕ) → List ℕ × List (List ℕ)
check_and_reuse packed objects =
    if leb (length packed) 1 then (packed, objects) else elim (known_reference packed objects) [
      | some bytes ↦ (bytes, objects)
      | none ↦ (packed, objects ++ packed ∷ [])
    ]

-- The packed bytes, and the list of objects behind them.
abbrev pub Packed : Type 0
Packed = List ℕ × List (List ℕ)

unfoldable pub pack_key : List ℕ → List (List ℕ) → Result Packed
pack_key s objects = do packed ← pack_string s; ok (check_and_reuse packed objects)

unfoldable pub pack_buffer : List ℕ → List (List ℕ) → Result Packed
pack_buffer bytes objects = do packed ← pack_bytes bytes; ok (check_and_reuse packed objects)

-- The header byte holds a length of at most 15; from 15 on a terminator follows the elements.
unfoldable pub enclose : ℕ → ℕ → List ℕ → List ℕ
enclose first count body =
    (first + min count 0xf) ∷ (body ++ (if ltb count 0xf then [] else 0x03 ∷ []))

unfoldable mutual
  pub pack_value : Value → List (List ℕ) → Result Packed
  pack_value null objects = ok (0x04 ∷ [], objects)
  pack_value (boolean true) objects = ok (0x01 ∷ [], objects)
  pack_value (boolean false) objects = ok (0x02 ∷ [], objects)
  pack_value (bigint n) objects = do bytes ← pack_bigint n; ok (bytes, objects)
  pack_value (negative_bigint n) objects = err integer_too_large
  pack_value (number n) objects = do bytes ← pack_integer n; ok (bytes, objects)
  pack_value (negative n) objects = err integer_too_large
  pack_value (double bits) objects = ok (pack_float bits, objects)
  pack_value (str s) objects = pack_key s objects
  pack_value (buffer bytes) objects = pack_buffer bytes objects
  pack_value (arr xs) objects = do
    (body, objects') ← pack_items xs objects
    ok (enclose 0xd0 (count_items xs) body, objects')
  pack_value (dict fs) objects = do
    (body, objects') ← pack_fields fs objects
    ok (enclose 0xe0 (count_fields fs) body, objects')

  pub pack_items : Items → List (List ℕ) → Result Packed
  pack_items nil objects = ok ([], objects)
  pack_items (cons x xs) objects = do
    (first, objects₁) ← pack_value x objects
    (rest, objects₂) ← pack_items xs objects₁
    ok (first ++ rest, objects₂)

  pub pack_fields : Fields → List (List ℕ) → Result Packed
  pack_fields end objects = ok ([], objects)
  pack_fields (field k v fs) objects = do
    (key, objects₁) ← pack_key k objects
    (value, objects₂) ← pack_value v objects₁
    (rest, objects₃) ← pack_fields fs objects₂
    ok (key ++ (value ++ rest), objects₃)

-- `OPACK.encode`
unfoldable pub encode : Value → Result (List ℕ)
unfolding pack_value
encode v = do (bytes, objects) ← pack_value v []; ok bytes
