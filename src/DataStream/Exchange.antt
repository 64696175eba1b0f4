-- ===== src/DataStream/Exchange.antt =====
-- Two channels of protocols/airplay/layers/DataStreamChannel.ts, each connected to the other.
use bunatv.Prelude.{
  ℕ, suc, ◌+◌, ◌^◌, ◌≤◌, ◌<◌, ◌≡◌, inr, refl, sym, ap, ◌∙◌, List, [], ◌∷◌, ◌++◌, arith, some, ok,
  lt→ltb, length, append-nil, All,
}
use bunatv.Buffers.Stream.{StreamBuffer, IsValid, contents, available}
use bunatv.Buffers.Stream.Laws.{append_lem}
use bunatv.Buffers.Stream.Reading.{available-contents}
use bunatv.Encryption.{EncryptionLayer, encrypt_hap}
use bunatv.Encryption.Channel.{Lawful, Paired-is_enabled}
use bunatv.Encryption.Frames.{Linked, Linked-encrypt_hap}
use bunatv.DataStream.Protobufs.{encode_protobufs}
use bunatv.DataStream.RoundTrip.{AllSendable}
use bunatv.DataStream.Messages.{DataStreamMessage, request_message, reply_message, decode_message}
use bunatv.DataStream.Header.{
  IsSendable, message_size, message_bytes, length-message_bytes, decode-message_bytes,
}
use bunatv.DataStream.Channel.{
  Event, protobuf, sent, DataStreamChannel, Platform, send_protobuf, append_to_stream,
  handle_message, receive, handle_data,
}
use bunatv.DataStream.Handle.{
  IsIdle, process_stream-one, handle_reply, handle_request, send_message_ok, reply-IsSendable,
}

-- Both channels are idle, and their layers are paired in both directions.
pub record Ready (a b : DataStreamChannel) : Type 0 where
  pub linked : Linked a.encryption b.encryption
  pub a_idle : IsIdle a
  pub b_idle : IsIdle b

-- The channel when all bytes are decrypted.
abbrev emptied_by : EncryptionLayer → StreamBuffer → ℕ → DataStreamChannel
emptied_by layer stream seqno = record {
  encryption = layer;
  encrypted_buffer = [];
  stream = stream;
  send_seqno = seqno;
}

IsIdle-encryption :
    (c : DataStreamChannel) (layer : EncryptionLayer) (seqno : ℕ)
    → IsIdle c
    → IsIdle (record c { encryption = layer; send_seqno = seqno })
IsIdle-encryption c layer seqno h = record {
  all_decrypted = h.all_decrypted;
  valid = h.valid;
  nothing_unread = h.nothing_unread;
  capacity = h.capacity;
}

Linked-sym : (s r : EncryptionLayer) → Linked s r → Linked r s
Linked-sym s r h = record { forth = h.back; back = h.forth }

request-IsSendable :
    (seqno : ℕ) (payload : List ℕ)
    → seqno < 2 ^ 64
    → 32 + length payload ≤ 1048576
    → IsSendable (request_message seqno payload)
unfolding request_message
request-IsSendable seqno payload h fits = record {
  type_size = refl;
  command_size = refl;
  seqno_fits = h;
  padding_fits = omega arith;
  size_fits = omega arith;
}

module _ (platform : Platform) where
  -- The message can be sent in one property list that the other side reads as it was written.
  pub record IsCarried (bytes : List ℕ) : Type 0 where
    pub sendable : AllSendable (bytes ∷ [])
    pub same_params :
        platform.params_data (platform.encode_params (encode_protobufs (bytes ∷ [])))
        ≡ some (encode_protobufs (bytes ∷ []))
    pub nonempty : 0 < length (platform.encode_params (encode_protobufs (bytes ∷ [])))
    pub fits : 32 + length (platform.encode_params (encode_protobufs (bytes ∷ []))) ≤ 1048576

  -- One message from `a` to `b`, and the reply back.
  pub record Exchanged (a b : DataStreamChannel) (bytes : List ℕ) (a' b' : DataStreamChannel)
      : Type 0 where
    pub request : List ℕ
    pub reply : List ℕ
    pub a_waiting : DataStreamChannel
    pub sends : send_protobuf platform bytes a ≡ ok (a_waiting, sent request ∷ [])
    pub answers : handle_data platform request b ≡ ok (b', protobuf bytes ∷ sent reply ∷ [])
    pub settles : handle_data platform reply a_waiting ≡ ok (a', [])

  -- Messages from `a` to `b`, one after the other.
  pub data Conversation
      : DataStreamChannel
        → DataStreamChannel
        → List (List ℕ)
        → DataStreamChannel
        → DataStreamChannel
        → Type 0 where
    nothing_sent : {a b : DataStreamChannel} → Conversation a b [] a b
    one_more :
        {a b a₁ b₁ a₂ b₂ : DataStreamChannel} {bytes : List ℕ} {others : List (List ℕ)}
        → Exchanged a b bytes a₁ b₁
        → Conversation a₁ b₁ others a₂ b₂
        → Conversation a b (bytes ∷ others) a₂ b₂

module _ (platform : Platform) (lawful : Lawful platform.cipher)
    (allocate_length : (n : ℕ) → length (platform.allocate n) ≡ n) where
  -- A message in the stream of the channel that it was sent to.
  record Arrived (s : EncryptionLayer) (c : DataStreamChannel) (m : DataStreamMessage)
      : Type 0 where
    bytes : List ℕ
    s_after : EncryptionLayer
    r_after : EncryptionLayer
    stream_full : StreamBuffer
    stream_after : StreamBuffer
    encrypts : encrypt_hap platform.cipher (message_bytes m) s ≡ (ok bytes, s_after)
    receives : receive platform bytes c ≡ ok (emptied_by r_after stream_full c.send_seqno)
    decodes : decode_message stream_full ≡ ok (some (m, stream_after))
    enough : 32 ≤ available stream_full
    emptied : contents stream_after ≡ []
    valid : IsValid stream_after
    same_max : stream_after.max_size ≡ 1048576
    still_linked : Linked s_after r_after

  Arrived-message_bytes :
      (s : EncryptionLayer) (c : DataStreamChannel) (m : DataStreamMessage)
      → Linked s c.encryption
      → IsIdle c
      → IsSendable m
      → message_size m ≤ 1048576
      → Arrived s c m
  unfolding receive append_to_stream
  Arrived-message_bytes s c m linked idle h fits =
      let (bytes, s', r', e, d, l) =
        Linked-encrypt_hap platform.cipher s c.encryption (message_bytes m) lawful linked in
      let (t, appended, v, filled, max) =
        append_lem platform.allocate allocate_length (message_bytes m) c.stream idle.valid
          (omega (arith, ap length idle.nothing_unread, idle.capacity, length-message_bytes m h)) in
      let all : contents t ≡ message_bytes m =
        filled ∙ ap (λ x. x ++ message_bytes m) idle.nothing_unread in
      let (t', decoded, left, v', max') =
        decode-message_bytes m h t [] v (all ∙ sym (append-nil (message_bytes m))) (inr refl) in
      record {
        bytes = bytes;
        s_after = s';
        r_after = r';
        stream_full = t;
        stream_after = t';
        encrypts = e;
        receives = rw (
          Paired-is_enabled s c.encryption linked.forth,
          idle.all_decrypted,
          d,
          lt→ltb 0 (length (message_bytes m)) (omega (arith, length-message_bytes m h)),
          appended,
        );
        decodes = decoded;
        enough = omega (arith, available-contents t v, ap length all, length-message_bytes m h);
        emptied = left;
        valid = v';
        same_max = max' ∙ max ∙ idle.capacity;
        still_linked = l;
      }

  handle_data-Arrived :
      (s : EncryptionLayer) (c after : DataStreamChannel) (m : DataStreamMessage)
      (events : List Event)
      → (x : Arrived s c m)
      → handle_message platform m (emptied_by x.r_after x.stream_after c.send_seqno)
        ≡ ok (after, events)
      → IsValid after.stream
      → contents after.stream ≡ []
      → handle_data platform x.bytes c ≡ ok (after, events)
  unfolding handle_data
  handle_data-Arrived s c after m events x e v empty = rw x.receives (
      process_stream-one platform (suc (available x.stream_full)) _ after m x.stream_after events
        (omega (arith, x.enough)) x.enough x.decodes e v empty)

  -- Between channels that are ready, and for a message that can be carried, sendProtobuf sends one buffer; the other channel's handler hands
  -- the message to its listeners and sends one reply, which the first channel takes without an event; and
  -- both are ready again.
  handle_data-send_protobuf :
      (bytes : List ℕ) (a b : DataStreamChannel)
      → Ready a b
      → IsCarried platform bytes
      → a.send_seqno < 2 ^ 64
      → (a' : DataStreamChannel) × (b' : DataStreamChannel) × Exchanged platform a b bytes a' b'
        × Ready a' b'
        × (a'.send_seqno ≡ a.send_seqno + 1)
  unfolding send_protobuf reply_message request_message
  handle_data-send_protobuf bytes a b ready carried fits =
      let plist = platform.encode_params (encode_protobufs (bytes ∷ [])) in
      let m = request_message a.send_seqno plist in
      let sendable : IsSendable m = request-IsSendable a.send_seqno plist fits carried.fits in
      let x =
        Arrived-message_bytes a.encryption b m ready.linked ready.b_idle sendable carried.fits in
      let a₁ : DataStreamChannel = record a {
        encryption = x.s_after;
        send_seqno = a.send_seqno + 1;
      } in
      let r = reply_message a.send_seqno in
      let y =
        Arrived-message_bytes x.r_after a₁ r (Linked-sym x.s_after x.r_after x.still_linked)
          (IsIdle-encryption a x.s_after (a.send_seqno + 1) ready.a_idle)
          (reply-IsSendable platform a.send_seqno fits) (omega arith) in
      let a' : DataStreamChannel = emptied_by y.r_after y.stream_after (a.send_seqno + 1) in
      let b' : DataStreamChannel = emptied_by y.s_after x.stream_after b.send_seqno in
      (
        a',
        b',
        record {
          request = x.bytes;
          reply = y.bytes;
          a_waiting = a₁;
          sends = send_message_ok platform m _ x.bytes x.s_after sendable x.encrypts;
          answers =
              handle_data-Arrived a.encryption b b' m (protobuf bytes ∷ sent y.bytes ∷ []) x
                (handle_request platform bytes plist carried.same_params carried.nonempty
                  carried.sendable y.bytes a.send_seqno y.s_after _ y.encrypts fits)
                x.valid x.emptied;
          settles =
              handle_data-Arrived x.r_after a₁ a' r [] y (handle_reply platform a.send_seqno a')
                y.valid y.emptied;
        },
        record {
          linked = Linked-sym y.s_after y.r_after y.still_linked;
          a_idle = record {
            all_decrypted = refl;
            valid = y.valid;
            nothing_unread = y.emptied;
            capacity = y.same_max;
          };
          b_idle = record {
            all_decrypted = refl;
            valid = x.valid;
            nothing_unread = x.emptied;
            capacity = x.same_max;
          };
        },
        refl,
      )

  -- Between channels that are ready, any number of messages that can be carried are delivered, each
  -- with its reply and in their order, while the sequence numbers last, and both are ready again.
  pub Ready-Conversation :
      (messages : List (List ℕ)) (a b : DataStreamChannel)
      → Ready a b
      → All (IsCarried platform) messages
      → a.send_seqno + length messages ≤ 2 ^ 64
      → (a' : DataStreamChannel) × (b' : DataStreamChannel) × Conversation platform a b messages a'
          b'
        × Ready a' b'
        × (a'.send_seqno ≡ a.send_seqno + length messages)
  Ready-Conversation [] a b ready all fits = (a, b, nothing_sent, ready, omega arith)
  Ready-Conversation (m ∷ ms) a b ready (carried, all) fits =
      let (a₁, b₁, exchanged, ready₁, e) =
        handle_data-send_protobuf m a b ready carried (omega arith) in
      let (a₂, b₂, delivered, ready₂, f) =
        Ready-Conversation ms a₁ b₁ ready₁ all (omega (arith, e)) in
      (a₂, b₂, one_more exchanged delivered, ready₂, omega (arith, e, f))
