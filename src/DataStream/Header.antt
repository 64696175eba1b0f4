-- ===== src/DataStream/Header.antt =====
-- A message through the header of protocols/airplay/layers/DataStreamChannel.ts: encodeMessage, then
-- decodeMessage on a stream buffer.
use bunatv.Prelude.{
  ℕ, ◌+◌, ◌*◌, ◌/◌, ◌%◌, ◌^◌, ◌≤◌, ◌<◌, ◌≡◌, ◌⊎◌, inl, inr, sym, ap, ◌∙◌, List, [], ◌++◌, arith,
  some, ok, le→ltb, length, length-append, take, take-take, take-append_le, take-append_left, drop,
  drop-append_left,
}
use bunatv.Prelude.Bytes.{to_be, of_be, length-to_be, of_be-to_be, uint_be_fits}
use bunatv.Buffers.Reader.{read_uint_be-to_be, read_buffer-append, reader}
use bunatv.Buffers.Stream.{StreamBuffer, IsValid, contents}
use bunatv.Buffers.Stream.Reading.{available-contents, peek-contents}
use bunatv.Buffers.Stream.Views.{consume_kept}
use bunatv.DataStream.Messages.{DataStreamMessage, encode_message, read_message, decode_message}

-- The fields have the widths of the header.
pub record IsSendable (m : DataStreamMessage) : Type 0 where
  pub type_size : length m.message_type ≡ 12
  pub command_size : length m.command ≡ 4
  pub seqno_fits : m.seqno < 2 ^ 64
  pub padding_fits : m.padding < 2 ^ 32
  pub size_fits : 32 + length m.payload < 2 ^ 32

abbrev pub message_size : DataStreamMessage → ℕ
message_size m = 32 + length m.payload

unfoldable pub message_bytes : DataStreamMessage → List ℕ
message_bytes m =
    to_be 4 (message_size m)
    ++ (m.message_type
        ++ (m.command
            ++ (to_be 4 (m.seqno / 2 ^ 32)
                ++ (to_be 4 (m.seqno % 2 ^ 32) ++ (to_be 4 m.padding ++ m.payload)))))

module _ (m : DataStreamMessage) (h : IsSendable m) where
  pub encode-message_bytes : encode_message m ≡ ok (message_bytes m)
  unfolding encode_message message_bytes
  encode-message_bytes = rw (
    uint_be_fits 4 (32 + length m.payload) (omega (arith, h.size_fits)),
    uint_be_fits 4 (m.seqno / 2 ^ 32) (omega (arith, h.seqno_fits)),
    uint_be_fits 4 (m.seqno % 2 ^ 32) (omega arith),
    uint_be_fits 4 m.padding (omega (arith, h.padding_fits)),
  )

  pub length-message_bytes : length (message_bytes m) ≡ message_size m
  unfolding message_bytes
  length-message_bytes =
      simp (length-append, length-to_be, h.type_size, h.command_size) (omega arith)

  read-message_bytes : read_message (message_bytes m) ≡ ok m
  unfolding read_message message_bytes reader
  read-message_bytes =
      rw
        (
          read_uint_be-to_be 4 (message_size m) 0 _ (omega (arith, h.size_fits)),
          read_buffer-append 12 4 m.message_type _ (sym h.type_size),
          read_buffer-append 4 16 m.command _ (sym h.command_size),
          read_uint_be-to_be 4 (m.seqno / 2 ^ 32) 20 _ (omega (arith, h.seqno_fits)),
          read_uint_be-to_be 4 (m.seqno % 2 ^ 32) 24 _ (omega arith),
          read_uint_be-to_be 4 m.padding 28 m.payload (omega (arith, h.padding_fits)),
        )
        (ap (λ n. ok (record m { seqno = n })) (omega arith))

  first-message_bytes : take 4 (message_bytes m) ≡ to_be 4 (message_size m)
  unfolding message_bytes
  first-message_bytes =
      take-append_left 4 (to_be 4 (message_size m)) _ (sym (length-to_be 4 (message_size m)))

  size-message_bytes :
      (rest : List ℕ) → of_be (take 4 (take 32 (message_bytes m ++ rest))) ≡ message_size m
  size-message_bytes rest =
      ap of_be (
        take-take 4 32 (message_bytes m ++ rest) (omega arith)
        ∙ take-append_le 4 (message_bytes m) rest (omega (arith, length-message_bytes))
        ∙ first-message_bytes)
      ∙ of_be-to_be 4 (message_size m) (omega (arith, h.size_fits))

  -- `decodeMessage` on a stream that begins with the message, unless `consume` moves bytes over it.
  pub decode-message_bytes :
      (s : StreamBuffer) (rest : List ℕ)
      → IsValid s
      → contents s ≡ message_bytes m ++ rest
      → ((s.read_pos + message_size m) * 2 ≤ length s.buffer) ⊎ (rest ≡ [])
      → (s' : StreamBuffer) × (decode_message s ≡ ok (some (m, s')))
        × (contents s' ≡ rest)
        × IsValid s'
        × (s'.max_size ≡ s.max_size)
  unfolding decode_message
  decode-message_bytes s rest v c kept =
      let size : length (contents s) ≡ message_size m + length rest =
        omega (arith, ap length c, length-append (message_bytes m) rest, length-message_bytes) in
      let enough : message_size m ≤ length (contents s) = omega (arith, size) in
      let kept_length : ((s.read_pos + message_size m) * 2 ≤ length s.buffer)
          ⊎ (length (contents s) ≤ s.read_pos + message_size m) =
        elim kept [ inl low ↦ inl low | inr e ↦ inr (omega (arith, ap length e, size)) ] in
      let (view, s', e, shown, left, v', max) =
        consume_kept (message_size m) s v enough kept_length in
      (
        s',
        rw (
          peek-contents 32 s v (omega (arith, size)),
          c,
          size-message_bytes rest,
          available-contents s v,
          le→ltb (length (contents s)) (message_size m) enough,
          e,
          shown,
          c,
          take-append_left (message_size m) (message_bytes m) rest (sym length-message_bytes),
          read-message_bytes,
          decode_message,
        ),
        left
            ∙ ap (drop (message_size m)) c
            ∙ drop-append_left (message_size m) (message_bytes m) rest (sym length-message_bytes),
        v',
        max,
      )
