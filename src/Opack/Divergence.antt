-- ===== src/Opack/Divergence.antt =====
-- A message with an integer from 40 on, which core/encoding/opack.ts keeps as an object when it decodes
-- and not when it encodes.
use bunatv.Prelude.{
  ℕ, ◌≤◌, ◌≡◌, ap, List, [], ◌∷◌, inl, inr, arith, append-nil, Result, ok, err, sym, ◌∙◌, length,
  leb, le→ltb, le→leb, leb→le, Bool-cases, ◌++◌, same_bytes,
}
use bunatv.Prelude.Bytes.{to_le, of_le, of_be}
use bunatv.Buffers.Reader.{reader, read_uint_be, read_uint_le, read_buffer, peek, has_more, advance}
use bunatv.Opack.Value.{
  Value, number, str, dict, end, field, count_fields, put_field, comes_before, Runtime,
}
use bunatv.Opack.Pack.{
  encode, pack_integer, pack_value, pack_key, pack_string, check_and_reuse, known_reference,
  find_index, reference, enclose,
}
use bunatv.Buffers.Pool.{BufferPool}
use bunatv.Buffers.Pool.Sound.{IsSound}
use bunatv.Opack.Pooled
use bunatv.Opack.Pooling.{packed_size}
use bunatv.Opack.Refines.{encode-Pack_encode}
use bunatv.Opack.Unpack.{
  decode, unpack_value, unpack_fields, more, less, close, unpack_atom, unpack_text, unpack_number,
  read_text, unpack_reference, read_reference, key_of, count_of,
}

abbrev name_a : List ℕ
name_a = b'a' ∷ []

abbrev name_b : List ℕ
name_b = b'b' ∷ []

abbrev name_c : List ℕ
name_c = b'c' ∷ []

-- { a: n, b: s, c: t }
abbrev pub message : ℕ → List ℕ → List ℕ → Value
message n s t = dict (field name_a (number n) (field name_b (str s) (field name_c (str t) end)))

abbrev pub hello : List ℕ
hello = b'h' ∷ b'i' ∷ []

-- The bytes of the message, but for those of the integer.
abbrev message_bytes : List ℕ → List ℕ
message_bytes ns =
    0xe3 ∷ 0x41 ∷ b'a' ∷ (ns ++ 0x41 ∷ b'b' ∷ 0x42 ∷ b'h' ∷ b'i' ∷ 0x41 ∷ b'c' ∷ 0xa2 ∷ [])

encode_message :
    (n : ℕ) (ns : List ℕ)
    → pack_integer n ≡ ok ns
    → encode (message n hello hello) ≡ ok (message_bytes ns)
unfolding encode pack_value pack_key pack_string check_and_reuse known_reference find_index
    reference enclose same_bytes count_fields
encode_message n ns e =
    rw (e, append-nil (ns ++ 0x41 ∷ b'b' ∷ 0x42 ∷ b'h' ∷ b'i' ∷ 0x41 ∷ b'c' ∷ 0xa2 ∷ []))

module _ (js : Runtime) (text_a : js.to_utf8_string name_a ≡ name_a)
    (text_b : js.to_utf8_string name_b ≡ name_b) (text_c : js.to_utf8_string name_c ≡ name_c)
    (text_hello : js.to_utf8_string hello ≡ hello) where
  decode_message_byte :
      (n : ℕ) → decode js (message_bytes (0x30 ∷ n ∷ [])) ≡ ok (message n hello name_b)
  unfolding decode unpack_value unpack_fields more less close unpack_atom unpack_text unpack_number
      read_text unpack_reference read_reference key_of count_of put_field comes_before same_bytes
      reader read_uint_be read_buffer peek has_more advance of_be
  decode_message_byte n =
      rw (text_a, text_b, text_c, text_hello) (ap (λ m. ok (message m hello name_b)) (omega arith))

  decode_message_word :
      (n : ℕ)
      → n ≤ 0xffff
      → decode js (message_bytes (0x31 ∷ to_le 2 n)) ≡ ok (message n hello name_b)
  unfolding decode unpack_value unpack_fields more less close unpack_atom unpack_text unpack_number
      read_text unpack_reference read_reference key_of count_of put_field comes_before same_bytes
      reader read_uint_be read_buffer peek has_more advance of_be to_le of_le read_uint_le
  decode_message_word n h =
      rw (text_a, text_b, text_c, text_hello) (ap (λ m. ok (message m hello name_b)) (omega arith))

  decode_message_long :
      (n : ℕ)
      → n ≤ 0xffffffff
      → decode js (message_bytes (0x32 ∷ to_le 4 n)) ≡ ok (message n hello name_b)
  unfolding decode unpack_value unpack_fields more less close unpack_atom unpack_text unpack_number
      read_text unpack_reference read_reference key_of count_of put_field comes_before same_bytes
      reader read_uint_be read_buffer peek has_more advance of_be to_le of_le read_uint_le
  decode_message_long n h =
      rw (text_a, text_b, text_c, text_hello) (ap (λ m. ok (message m hello name_b)) (omega arith))

  decode-Pack_encode_shifted :
      (n : ℕ)
      → 0x28 ≤ n
      → n ≤ 0xffffffff
      → (bytes : List ℕ) × (encode (message n hello hello) ≡ ok bytes)
        × (decode js bytes ≡ ok (message n hello name_b))
  unfolding pack_integer
  decode-Pack_encode_shifted n low high =
      let none_short = le→ltb n 0x28 low in
      elim (Bool-cases (leb n 0xff)) [
        | inl byte ↦ (
          message_bytes (0x30 ∷ n ∷ []),
          encode_message n (0x30 ∷ n ∷ []) (rw (none_short, byte)),
          decode_message_byte n,
        )
        | inr over ↦ elim (Bool-cases (leb n 0xffff)) [
          | inl word ↦ (
            message_bytes (0x31 ∷ to_le 2 n),
            encode_message n (0x31 ∷ to_le 2 n) (rw (none_short, over, word)),
            decode_message_word n (leb→le n 0xffff word),
          )
          | inr long ↦ (
            message_bytes (0x32 ∷ to_le 4 n),
            encode_message n (0x32 ∷ to_le 4 n)
                (rw (none_short, over, long, le→leb n 0xffffffff high)),
            decode_message_long n high,
          )
        ]
      ]

  bytes_of : Result (List ℕ) → List ℕ
  bytes_of (ok packed) = packed
  bytes_of (err e) = []

  -- On a runtime that decodes the texts "a", "b", "c" and "hi" as themselves, with an
  -- allocator that returns buffers of the length asked for and a pool in which each buffer has the size
  -- of its bucket, the object { a: n, b: "hi", c: "hi" } is encoded without an error for each integer from 40 to
  -- 2 ^ 32 - 1, and decoded to { a: n, b: "hi", c: "b" }.
  pub decode-encode_shifted :
      (allocate : ℕ → List ℕ) (pool : BufferPool) (n : ℕ)
      → ((size : ℕ) → length (allocate size) ≡ size)
      → IsSound pool
      → 0x28 ≤ n
      → n ≤ 0xffffffff
      → (packed : List ℕ) × (pool' : BufferPool) × (Pooled.encode allocate
            (message n hello hello)
            pool
          ≡ ok (packed, pool'))
        × (decode js packed ≡ ok (message n hello name_b))
  unfolding bytes_of packed_size
  decode-encode_shifted allocate pool n allocate_length sound low high =
      let (bytes, e, back) = decode-Pack_encode_shifted n low high in
      let (packed, pool', plain, pooled, sound', short) =
        encode-Pack_encode allocate allocate_length (message n hello hello) pool
          (
            omega arith,
            omega arith,
            high,
            (omega arith, omega arith, omega arith, (omega arith, omega arith, omega arith, tt)),
          )
          sound in
      let same : bytes ≡ packed = ap bytes_of (sym e ∙ plain) in
      (packed, pool', pooled, ap (decode js) (sym same) ∙ back)
