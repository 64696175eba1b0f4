-- ===== src/DataStream/Protobufs.antt =====
-- `encodeProtobufs` and `decodeProtobufs` of protocols/airplay/layers/DataStreamChannel.ts. The length
-- that `readVarint` gives may be negative, and so may the offset after it.
use bunatv.Prelude.{
  ℕ, zero, suc, ◌-◌, List, [], ◌∷◌, ◌++◌, min, Option, none, some, Bool, true, false, ◌==◌,
  get_elem?, length, take, drop,
}
use bunatv.Prelude.Int.{ℤ, pos, negsuc, ◌+ℤ◌, ltb_ℤ}
use bunatv.DataStream.Varint.{write_varint, read_varint}

-- `data[offset]`; `none` is `undefined`.
unfoldable pub byte_at : List ℕ → ℤ → Option ℕ
byte_at bytes (pos n) = get_elem? bytes n
byte_at bytes (negsuc n) = none

-- `data[offset] === 0x08`
unfoldable pub is_type_tag : Option ℕ → Bool
is_type_tag none = false
is_type_tag (some b) = b == 0x08

-- The index that `subarray` takes an argument for: a negative one counts from the end.
unfoldable pub index_of : ℕ → ℤ → ℕ
index_of size (pos n) = min n size
index_of size (negsuc n) = size - suc n

unfoldable pub subarray : List ℕ → ℤ → ℤ → List ℕ
unfolding index_of
subarray bytes start end =
    take (index_of (length bytes) end - index_of (length bytes) start)
      (drop (index_of (length bytes) start) bytes)

-- `readVarint(data, offset)`: in front of the buffer there is `undefined`, which counts as a byte 0.
unfoldable pub read_varint_at : List ℕ → ℤ → Option (ℤ × ℕ)
read_varint_at bytes (pos n) = read_varint (drop n bytes)
read_varint_at bytes (negsuc n) = some (pos 0, 1)

unfoldable pub push_front : List ℕ → Option (List (List ℕ)) → Option (List (List ℕ))
push_front message none = none
push_front message (some messages) = some (message ∷ messages)

-- The loop, for a number of rounds; `none` if they are used up. An error ends it.
unfoldable pub decode_loop : ℕ → List ℕ → ℤ → Option (List (List ℕ))
unfolding push_front
decode_loop zero bytes offset = none
decode_loop (suc rounds) bytes offset = elim (ltb_ℤ offset (pos (length bytes))) [
  | false ↦ some []
  | true ↦ elim (is_type_tag (byte_at bytes offset)) [
    | true ↦ some (subarray bytes offset (pos (length bytes)) ∷ [])
    | false ↦ elim (read_varint_at bytes offset) [
      | none ↦ some []
      | some (size, count) ↦ elim (ltb_ℤ (pos (length bytes)) (offset +ℤ pos count +ℤ size)) [
        | true ↦ some []
        | false ↦
            push_front (subarray bytes (offset +ℤ pos count) (offset +ℤ pos count +ℤ size))
              (decode_loop rounds bytes (offset +ℤ pos count +ℤ size))
      ]
    ]
  ]
]

unfoldable pub decode_protobufs : ℕ → List ℕ → Option (List (List ℕ))
decode_protobufs rounds bytes = decode_loop rounds bytes (pos 0)

unfoldable pub encode_protobufs : List (List ℕ) → List ℕ
encode_protobufs [] = []
encode_protobufs (m ∷ ms) = write_varint (length m) ++ (m ++ encode_protobufs ms)
