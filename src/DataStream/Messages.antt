-- ===== src/DataStream/Messages.antt =====
-- Messages of protocols/airplay/layers/DataStreamChannel.ts: a header of 32 bytes, then the payload.
use bunatv.Prelude.{
  ℕ, ◌+◌, ◌*◌, ◌/◌, ◌%◌, ◌^◌, List, [], ◌∷◌, ◌++◌, Option, none, some, Result, ok, ◌>>=◌, ltb,
  if◌then◌else◌, length, take,
}
use bunatv.Prelude.Bytes.{uint_be, of_be}
use bunatv.Buffers.Reader.{reader, read_uint_be, read_buffer}
use bunatv.Buffers.Stream.{StreamBuffer, view_bytes, available, consume, peek}

abbrev pub data_header_size : ℕ
data_header_size = 32

abbrev pub msg_type_sync : List ℕ
msg_type_sync = b's' ∷ b'y' ∷ b'n' ∷ b'c' ∷ 0 ∷ 0 ∷ 0 ∷ 0 ∷ 0 ∷ 0 ∷ 0 ∷ 0 ∷ []

abbrev pub msg_type_reply : List ℕ
msg_type_reply = b'r' ∷ b'p' ∷ b'l' ∷ b'y' ∷ 0 ∷ 0 ∷ 0 ∷ 0 ∷ 0 ∷ 0 ∷ 0 ∷ 0 ∷ []

abbrev pub cmd_comm : List ℕ
cmd_comm = b'c' ∷ b'o' ∷ b'm' ∷ b'm' ∷ []

abbrev pub cmd_empty : List ℕ
cmd_empty = 0 ∷ 0 ∷ 0 ∷ 0 ∷ []

pub record DataStreamMessage : Type 0 where
  pub message_type : List ℕ
  pub command : List ℕ
  pub seqno : ℕ
  pub padding : ℕ
  pub payload : List ℕ

-- The writes follow each other; `>> 32n` and `& 0xffffffffn` split the number.
unfoldable pub encode_message : DataStreamMessage → Result (List ℕ)
encode_message m = do
  total ← uint_be 4 (data_header_size + length m.payload)
  high ← uint_be 4 (m.seqno / 2 ^ 32)
  low ← uint_be 4 (m.seqno % 2 ^ 32)
  padding ← uint_be 4 m.padding
  ok (total ++ (m.message_type ++ (m.command ++ (high ++ (low ++ (padding ++ m.payload))))))

-- The message of `sendProtobuf` with its payload.
unfoldable pub request_message : ℕ → List ℕ → DataStreamMessage
request_message seqno payload = record {
  message_type = msg_type_sync;
  command = cmd_comm;
  seqno = seqno;
  padding = 0;
  payload = payload;
}

-- The message that `encodeReply` encodes.
unfoldable pub reply_message : ℕ → DataStreamMessage
reply_message seqno = record {
  message_type = msg_type_reply;
  command = cmd_empty;
  seqno = seqno;
  padding = 0;
  payload = [];
}

-- The fields of a whole message.
unfoldable pub read_message : List ℕ → Result DataStreamMessage
read_message bytes = do
  (total, r₁) ← read_uint_be 4 (reader bytes)
  let (message_type, r₂) = read_buffer 12 r₁
  let (command, r₃) = read_buffer 4 r₂
  (high, r₄) ← read_uint_be 4 r₃
  (low, r₅) ← read_uint_be 4 r₄
  (padding, r₆) ← read_uint_be 4 r₅
  ok (record {
    message_type = message_type;
    command = command;
    seqno = high * 2 ^ 32 + low;
    padding = padding;
    payload = r₆.rest;
  })

-- The bytes are read after `consume` has returned. `none` is `null`.
unfoldable pub decode_message : StreamBuffer → Result (Option (DataStreamMessage × StreamBuffer))
decode_message s = elim (peek data_header_size 0 s) [
  | none ↦ ok none
  | some header ↦
      let size = of_be (take 4 header) in
      if ltb (available s) size then ok none else elim (consume size s) [
        | none ↦ ok none
        | some (view, s') ↦ do m ← read_message (view_bytes view s'); ok (some (m, s'))
      ]
]
