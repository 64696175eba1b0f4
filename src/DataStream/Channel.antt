-- ===== src/DataStream/Channel.antt =====
-- The channel of protocols/airplay/layers/DataStreamChannel.ts between the transport and the listeners.
-- What happens after an exception is not modelled.
use bunatv.Prelude.{
  ℕ, zero, suc, ◌+◌, List, [], ◌∷◌, ◌++◌, map, Option, none, some, true, false, Result, ok, err,
  out_of_fuel, ◌>>=◌, leb, ltb, if◌then◌else◌, length, take, same_bytes,
}
use bunatv.Buffers.Stream.{StreamBuffer, available, append, reset}
use bunatv.Encryption.{Cipher, EncryptionLayer, is_enabled, encrypt_hap, decrypt_hap}
use bunatv.DataStream.Protobufs.{decode_protobufs, encode_protobufs}
use bunatv.DataStream.Messages.{
  DataStreamMessage, data_header_size, msg_type_reply, encode_message, request_message,
  reply_message, decode_message,
}

pub data Event : Type 0 where
  -- the listeners of `protobuf`, and `transport.send`
  protobuf sent : List ℕ → Event

pub record DataStreamChannel : Type 0 where
  pub encryption : EncryptionLayer
  pub encrypted_buffer : List ℕ
  pub stream : StreamBuffer
  pub send_seqno : ℕ

unfoldable pub teardown : DataStreamChannel → DataStreamChannel
teardown c = record c { stream = reset c.stream; encrypted_buffer = [] }

-- What the code relies on: the cipher, fresh memory, and property lists with bytes at `params.data`;
-- `params_data` is `none` where decoding throws and where there are no such bytes.
pub record Platform : Type 0 where
  pub cipher : Cipher
  pub allocate : ℕ → List ℕ
  pub encode_params : List ℕ → List ℕ
  pub params_data : List ℕ → Option (List ℕ)

module _ (platform : Platform) where
  unfoldable pub send_message :
      DataStreamMessage → DataStreamChannel → Result (DataStreamChannel × List Event)
  send_message m c = do
    encoded ← encode_message m
    let (encrypted, layer) = encrypt_hap platform.cipher encoded c.encryption
    bytes ← encrypted
    ok (record c { encryption = layer }, sent bytes ∷ [])

  unfoldable pub send_protobuf :
      List ℕ → DataStreamChannel → Result (DataStreamChannel × List Event)
  send_protobuf bytes c =
      send_message
        (request_message c.send_seqno (platform.encode_params (encode_protobufs (bytes ∷ []))))
        (record c { send_seqno = c.send_seqno + 1 })

  -- The protobufs of `params.data`. Rounds in the number of its bytes and one more are enough for
  -- lengths that are not negative; other loops need not end.
  unfoldable pub payload_events : Option (List ℕ) → Result (List Event)
  payload_events none = ok []
  payload_events (some bytes) = elim (decode_protobufs (suc (length bytes)) bytes) [
    | none ↦ err out_of_fuel
    | some messages ↦ ok (map protobuf messages)
  ]

  unfoldable pub decode_payload : List ℕ → Option (List ℕ)
  decode_payload payload = if leb (length payload) 0 then none else platform.params_data payload

  unfoldable pub reply_if_sync :
      DataStreamMessage → DataStreamChannel → Result (DataStreamChannel × List Event)
  reply_if_sync m c =
      if same_bytes (take 4 m.message_type) (b's' ∷ b'y' ∷ b'n' ∷ b'c' ∷ [])
      then send_message (reply_message m.seqno) c
      else ok (c, [])

  -- One message that is not for a reply.
  unfoldable pub handle_message :
      DataStreamMessage → DataStreamChannel → Result (DataStreamChannel × List Event)
  unfolding decode_payload payload_events reply_if_sync
  handle_message m c = if same_bytes m.message_type msg_type_reply then ok (c, []) else do
    events ← payload_events (decode_payload m.payload)
    (c', replies) ← reply_if_sync m c
    ok (c', events ++ replies)

  -- A message that is read has at least 28 bytes, so the bytes available are enough rounds.
  unfoldable pub process_stream : ℕ → DataStreamChannel → Result (DataStreamChannel × List Event)
  process_stream zero c = err out_of_fuel
  process_stream (suc rounds) c = elim (leb data_header_size (available c.stream)) [
    | false ↦ ok (c, [])
    | true ↦ elim (decode_message c.stream) [
      | err e ↦ err e
      | ok none ↦ ok (c, [])
      | ok (some (m, s)) ↦ elim (handle_message m (record c { stream = s })) [
        | err e ↦ err e
        | ok (c₁, events) ↦ elim (process_stream rounds c₁) [
          | err e ↦ err e
          | ok (c₂, more) ↦ ok (c₂, events ++ more)
        ]
      ]
    ]
  ]

  unfoldable pub append_to_stream : List ℕ → DataStreamChannel → Result DataStreamChannel
  append_to_stream bytes c = do
    s ← append platform.allocate bytes c.stream
    ok (record c { stream = s })

  -- The data of the transport in the stream buffer.
  unfoldable pub receive : List ℕ → DataStreamChannel → Result DataStreamChannel
  receive bytes c =
      if is_enabled c.encryption.state
      then (do
        let (result, layer) = decrypt_hap platform.cipher (c.encrypted_buffer ++ bytes) c.encryption
        (decrypted, remaining) ← result
        let c₁ = record c { encryption = layer; encrypted_buffer = remaining }
        (if ltb 0 (length decrypted) then append_to_stream decrypted c₁ else ok c₁))
      else append_to_stream bytes c

  unfoldable pub handle_data : List ℕ → DataStreamChannel → Result (DataStreamChannel × List Event)
  unfolding receive
  handle_data bytes c = do c₁ ← receive bytes c; process_stream (suc (available c₁.stream)) c₁
