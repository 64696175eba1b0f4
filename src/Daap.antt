-- ===== src/Daap.antt =====
-- The tags of core/encoding/daap.ts: four characters, a length of four bytes, a value. A tag is the list
-- of its character codes, and a number is an integer.
pub mod Tags
pub mod Objects
pub mod Track
pub mod Termination
pub mod Slots
pub mod RoundTrip
pub mod Fields
pub mod Metadata
use bunatv.Prelude.{
  ℕ, zero, suc, ◌+◌, ◌-◌, ◌%◌, ◌^◌, List, [], ◌∷◌, ◌++◌, map, Option, none, some, Bool, true, false,
  Result, ok, err, invalid_tag, out_of_fuel, value_out_of_range, ◌>>=◌, ltb, leb, ◌==◌,
  if◌then◌else◌, length, take, drop,
}
use bunatv.Prelude.Bytes.{to_be, uint_be, of_be, uint_be_at}

pub record DecodedTag : Type 0 where
  pub tag : List ℕ
  pub length_field : ℕ
  pub value : List ℕ

-- A value to encode; `negative n` is the number -(n + 1).
pub data TagValue : Type 0 where
  raw text : List ℕ → TagValue
  number negative bigint : ℕ → TagValue

unfoldable pub assert_tag : List ℕ → Result Bool
assert_tag tag = if length tag == 4 then ok true else err invalid_tag

-- `Buffer.from(tag, "ascii")` keeps the low byte of a character.
unfoldable pub tag_bytes : List ℕ → List ℕ
tag_bytes tag = map (λ c. c % 256) tag

-- The tag, the length and the value, one after the other.
unfoldable pub concat_tag : List ℕ → List ℕ → Result (List ℕ)
unfolding tag_bytes
concat_tag tag value = do
  length_bytes ← uint_be 4 (length value)
  ok (tag_bytes tag ++ (length_bytes ++ value))

-- `writeBigInt64BE` of a number that is not negative: the sign takes a bit.
unfoldable pub signed_64 : ℕ → Result (List ℕ)
signed_64 n = if ltb n (2 ^ 63) then ok (to_be 8 n) else err value_out_of_range

unfoldable pub number_bytes : ℕ → Result (List ℕ)
unfolding signed_64
number_bytes n =
    if leb n 0xff
    then uint_be 1 n
    else if leb n 0xffff
    then uint_be 2 n
    else if leb n 0xffffffff
    then uint_be 4 n
    else signed_64 n

unfoldable pub value_bytes : TagValue → Result (List ℕ)
unfolding number_bytes
value_bytes (raw bytes) = ok bytes
value_bytes (text s) = ok s
value_bytes (number n) = number_bytes n
value_bytes (negative n) =
    if ltb n (2 ^ 63) then ok (to_be 8 (2 ^ 64 - suc n)) else err value_out_of_range
value_bytes (bigint n) = uint_be 8 n

unfoldable pub encode_tag : List ℕ → TagValue → Result (List ℕ)
unfolding assert_tag concat_tag
encode_tag tag value = do valid ← assert_tag tag; bytes ← value_bytes value; concat_tag tag bytes

-- `size` is 1, 2, 4 or 8.
unfoldable pub encode_tag_with_size : List ℕ → ℕ → ℕ → Result (List ℕ)
unfolding assert_tag concat_tag
encode_tag_with_size tag value size = do
  valid ← assert_tag tag
  bytes ← uint_be size value
  concat_tag tag bytes

unfoldable pub encode_container : List ℕ → List ℕ → Result (List ℕ)
unfolding assert_tag concat_tag
encode_container tag content = do valid ← assert_tag tag; concat_tag tag content

-- `toString("ascii")` drops the high bit of a byte.
unfoldable pub decode_tag : List ℕ → Option (DecodedTag × List ℕ)
decode_tag bytes =
    let size = of_be (take 4 (drop 4 bytes)) in
    if ltb (length bytes) 8
    then none
    else if ltb (length bytes) (8 + size)
    then none
    else some (
      record {
        tag = map (λ c. c % 128) (take 4 bytes);
        length_field = size;
        value = take size (drop 8 bytes);
      },
      drop (8 + size) bytes,
    )

-- A tag has at least eight bytes, so a round for each byte is enough.
unfoldable pub decode_rounds : ℕ → List ℕ → Result (List DecodedTag)
decode_rounds zero bytes = err out_of_fuel
decode_rounds (suc fuel) bytes = elim (ltb 0 (length bytes)) [
  | false ↦ ok []
  | true ↦ elim (decode_tag bytes) [
    | none ↦ ok []
    | some (tag, rest) ↦ elim (decode_rounds fuel rest) [
      | err e ↦ err e
      | ok tags ↦ ok (tag ∷ tags)
    ]
  ]
]

unfoldable pub decode : List ℕ → Result (List DecodedTag)
decode bytes = decode_rounds (suc (length bytes)) bytes
