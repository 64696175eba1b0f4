-- ===== src/DataStream/Handle.antt =====
-- What a message does to a channel of protocols/airplay/layers/DataStreamChannel.ts.
use bunatv.Prelude.{
  ℕ, zero, suc, ◌^◌, ◌≤◌, ◌<◌, ◌≡◌, refl, List, [], ◌∷◌, ◌++◌, arith, some, ok, le→leb, lt→leb,
  length, length-append, append-nil, same_bytes,
}
use bunatv.Buffers.Stream.{StreamBuffer, IsValid, contents, available}
use bunatv.Buffers.Stream.Reading.{available-contents}
use bunatv.Encryption.{EncryptionLayer, encrypt_hap}
use bunatv.DataStream.Protobufs.{encode_protobufs}
use bunatv.DataStream.Varint.{write_varint, write_varint-nonempty}
use bunatv.DataStream.RoundTrip.{AllSendable, decode_protobufs-encode_protobufs}
use bunatv.DataStream.Messages.{DataStreamMessage, request_message, reply_message, decode_message}
use bunatv.DataStream.Header.{IsSendable, message_bytes, encode-message_bytes}
use bunatv.DataStream.Channel.{
  Event, protobuf, sent, DataStreamChannel, Platform, send_message, payload_events, decode_payload,
  reply_if_sync, handle_message, process_stream,
}

encode_protobufs-nonempty : (bytes : List ℕ) → 0 < length (encode_protobufs (bytes ∷ []))
unfolding encode_protobufs
encode_protobufs-nonempty bytes = omega (
  arith,
  length-append (write_varint (length bytes)) (bytes ++ []),
  write_varint-nonempty (length bytes),
)

-- Nothing waits in the channel, whose buffer has the size that the constructor gives it.
pub record IsIdle (c : DataStreamChannel) : Type 0 where
  pub all_decrypted : c.encrypted_buffer ≡ []
  pub valid : IsValid c.stream
  pub nothing_unread : contents c.stream ≡ []
  pub capacity : c.stream.max_size ≡ 1048576

module _ (platform : Platform) where
  pub process_stream-idle :
      (rounds : ℕ) (c : DataStreamChannel)
      → IsValid c.stream
      → contents c.stream ≡ []
      → process_stream platform (suc rounds) c ≡ ok (c, [])
  unfolding process_stream
  process_stream-idle rounds c v e = rw (available-contents c.stream v, e, process_stream)

  -- One message in the stream, which is handled and leaves nothing.
  pub process_stream-one :
      (rounds : ℕ) (c after : DataStreamChannel) (m : DataStreamMessage) (s : StreamBuffer)
      (events : List Event)
      → 1 < rounds
      → 32 ≤ available c.stream
      → decode_message c.stream ≡ ok (some (m, s))
      → handle_message platform m (record c { stream = s }) ≡ ok (after, events)
      → IsValid after.stream
      → contents after.stream ≡ []
      → process_stream platform rounds c ≡ ok (after, events)
  unfolding process_stream
  process_stream-one zero c after m s events l a d h v e = absurd (omega arith)
  process_stream-one (suc zero) c after m s events l a d h v e = absurd (omega arith)
  process_stream-one (suc (suc rounds)) c after m s events l a d h v e = rw (
    le→leb 32 (available c.stream) a,
    d,
    h,
    process_stream-idle rounds after v e,
    process_stream,
    append-nil,
  )

  pub handle_reply :
      (seqno : ℕ) (c : DataStreamChannel)
      → handle_message platform (reply_message seqno) c ≡ ok (c, [])
  unfolding handle_message reply_message same_bytes
  handle_reply seqno c = refl

  pub send_message_ok :
      (m : DataStreamMessage) (c : DataStreamChannel) (bytes : List ℕ) (layer : EncryptionLayer)
      → IsSendable m
      → encrypt_hap platform.cipher (message_bytes m) c.encryption ≡ (ok bytes, layer)
      → send_message platform m c ≡ ok (record c { encryption = layer }, sent bytes ∷ [])
  unfolding send_message
  send_message_ok m c bytes layer h e = rw (encode-message_bytes m h, e)

  pub reply-IsSendable : (seqno : ℕ) → seqno < 2 ^ 64 → IsSendable (reply_message seqno)
  unfolding reply_message
  reply-IsSendable seqno h = record {
    type_size = refl;
    command_size = refl;
    seqno_fits = h;
    padding_fits = omega arith;
    size_fits = omega arith;
  }

  module _ (bytes plist : List ℕ)
      (params : platform.params_data plist ≡ some (encode_protobufs (bytes ∷ [])))
      (pos : 0 < length plist) (all : AllSendable (bytes ∷ [])) where
    request_payload : decode_payload platform plist ≡ some (encode_protobufs (bytes ∷ []))
    unfolding decode_payload
    request_payload = rw (lt→leb (length plist) 0 pos) params

    request_events :
        payload_events platform (some (encode_protobufs (bytes ∷ []))) ≡ ok (protobuf bytes ∷ [])
    unfolding payload_events
    request_events = rw (
      decode_protobufs-encode_protobufs (bytes ∷ []) (suc (length (encode_protobufs (bytes ∷ []))))
          all (omega (arith, encode_protobufs-nonempty bytes)),
      payload_events,
    )

    -- A request whose payload holds one message.
    pub handle_request :
        (reply : List ℕ) (seqno : ℕ) (layer : EncryptionLayer) (c : DataStreamChannel)
        → encrypt_hap platform.cipher (message_bytes (reply_message seqno)) c.encryption
          ≡ (ok reply, layer)
        → seqno < 2 ^ 64
        → handle_message platform (request_message seqno plist) c
          ≡ ok (record c { encryption = layer }, protobuf bytes ∷ sent reply ∷ [])
    unfolding handle_message request_message same_bytes reply_if_sync
    handle_request reply seqno layer c e fits = rw (
      request_payload,
      request_events,
      send_message_ok (reply_message seqno) c reply layer (reply-IsSendable seqno fits) e,
    )
