-- ===== src/Tests/Tlv.antt =====
-- Runs of core/encoding/tlv8.ts.
use bunatv.Prelude.{
  ℕ, ◌≤◌, ◌≡◌, ◌↔◌, refl, List, [], ◌∷◌, ◌++◌, arith, none, true, ok, err, tlv_type_range, length,
  All,
}
use bunatv.Prelude.Bytes.{of_be}
use bunatv.Buffers.Reader.{reader, read_uint_be, read_buffer, remaining, has_more}
use bunatv.Tlv8.{
  TlvItem, TlvData, Partial, byte, bytes, new_builder, build, encode, encode_object, decode,
  decode_object, try_decode_object, lookup, assign,
}
use bunatv.Tlv8.Items.{write_items, IsCut}
use bunatv.Tlv8.Encode.{encode_range}
use bunatv.Tlv8.Decode.{decode_lem, try_decode_object_lem}
use bunatv.Tlv8.RoundTrip.{decode_object-encode_object}
use bunatv.Tlv8.Size.{length-encode, decode-encode, values, IsFragment}
use bunatv.Tlv8.Builder.{Calls, add_all, last_value, decode_object-build}

abbrev pair_setup : TlvData
pair_setup = (0, 0 ∷ []) ∷ (3, 1 ∷ 2 ∷ 3 ∷ []) ∷ (6, 1 ∷ []) ∷ (13, []) ∷ []

abbrev cut_value : List ℕ
cut_value = 5 ∷ 4 ∷ 1 ∷ []

decode_object-encode_object_example :
    (encoded : List ℕ) × (encode_object pair_setup ≡ ok encoded)
    × (decode_object (encoded ++ cut_value) ≡ ok pair_setup)
decode_object-encode_object_example =
    decode_object-encode_object pair_setup cut_value (omega arith) (omega arith)

decode_lem_example :
    (items : List TlvItem) × (tail : List ℕ) × (decode cut_value ≡ ok items)
    × (cut_value ≡ write_items items ++ tail)
    × IsCut tail
decode_lem_example = decode_lem cut_value

try_decode_object_lem_example :
    (p : Partial) × (try_decode_object cut_value ≡ ok p)
    × (decode_object cut_value ≡ ok p.contents)
    × (p.bytes_processed ≤ 3)
    × ((p.is_complete ≡ true) ↔ (p.errors ≡ []))
try_decode_object_lem_example = try_decode_object_lem cut_value

length-encode_example :
    (encoded : List ℕ) × (encode 3 (1 ∷ 2 ∷ []) ≡ ok encoded) × (length encoded ≡ 4)
length-encode_example = length-encode 3 (1 ∷ 2 ∷ []) (omega arith)

decode-encode_example :
    (encoded : List ℕ) × (items : List TlvItem) × (encode 3 (1 ∷ 2 ∷ []) ≡ ok encoded)
    × (decode encoded ≡ ok items)
    × (values items ≡ 1 ∷ 2 ∷ [])
    × All (IsFragment 3) items
decode-encode_example = decode-encode 3 (1 ∷ 2 ∷ []) (omega arith)

encode_range_example : encode 256 (1 ∷ []) ≡ err tlv_type_range
encode_range_example = encode_range 256 (1 ∷ []) (omega arith)

abbrev calls : Calls
calls = (6, byte 1) ∷ (0, byte 0) ∷ (3, bytes (7 ∷ 8 ∷ [])) ∷ (6, byte 3) ∷ []

decode_object-build_example :
    (encoded : List ℕ) × (m : TlvData) × (build (add_all calls new_builder) ≡ ok encoded)
    × (decode_object encoded ≡ ok m)
    × ((u : ℕ) → lookup u m ≡ last_value u calls none)
decode_object-build_example = decode_object-build calls (omega arith)

-- Two fragments of one type are joined.
joined :
    decode_object (9 ∷ 2 ∷ 1 ∷ 2 ∷ 4 ∷ 0 ∷ 9 ∷ 1 ∷ 3 ∷ []) ≡ ok ((4, []) ∷ (9, 1 ∷ 2 ∷ 3 ∷ []) ∷ [])
unfolding decode_object decode reader read_uint_be read_buffer remaining has_more of_be lookup
    assign
joined = refl
