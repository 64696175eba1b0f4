-- ===== src/Companion/Sealing.antt =====
-- One OPACK message through HapFramedChannel of protocols/companion/layers/HapFramedChannel.ts.
use bunatv.Prelude.{
  ℕ, ◌+◌, ◌≤◌, ◌<◌, ◌≡◌, refl, sym, ap, ◌∙◌, List, [], ◌∷◌, ◌++◌, arith, some, ok, err, length,
  append-nil, ◌^◌,
}
use bunatv.Prelude.Bytes.{to_be, uint_be_fits}
use bunatv.Encryption.{Cipher, EncryptionLayer, moved}
use bunatv.Encryption.Channel.{Lawful, Paired, Sent, Paired-Sent, Paired-is_enabled_sender}
use bunatv.HapFrames.{encrypted_opack, is_valid_frame_type}
use bunatv.HapFrames.Parse.{Message, IsSendable, frame_bytes, encode-frame_bytes}
use bunatv.Opack.Value.{Fields, dict, Runtime}
use bunatv.Opack.Pack
use bunatv.Opack.Unpack
use bunatv.Buffers.Pool.{BufferPool}
use bunatv.Buffers.Pool.Sound.{IsSound}
use bunatv.Opack.Pooled
use bunatv.Opack.Pooling.{IsSmall}
use bunatv.Opack.Refines.{encode-Pack_encode}
use bunatv.Opack.Plain.{IsPlain, atoms}
use bunatv.Opack.RoundTrip.{decode-Pack_encode}
use bunatv.Companion.{
  message, frame, HapFramedChannel, frame_header, send_frame, send_message, message_events,
  on_frame,
}

-- The bytes of an OPACK object, none where it is not encoded.
unfoldable pub encoded : Fields → List ℕ
encoded fs = elim (Pack.encode (dict fs)) [ err e ↦ [] | ok bytes ↦ bytes ]

-- An object that comes back as it was encoded, in a frame of at most 65536 bytes of payload.
pub record IsSealable (js : Runtime) (fs : Fields) : Type 0 where
  pub is_plain : IsPlain js (dict fs)
  pub is_small : IsSmall (dict fs)
  pub few_atoms : atoms (dict fs) ≤ 0x10000
  pub short : length (encoded fs) + 16 ≤ 65536

abbrev header_of : ℕ → List ℕ
header_of size = to_be 1 encrypted_opack ++ to_be 3 size

abbrev pub sealed_frame : List ℕ → Message
sealed_frame ciphertext = record { type = encrypted_opack; payload = ciphertext }

encoded_ok : (fs : Fields) (bytes : List ℕ) → Pack.encode (dict fs) ≡ ok bytes → encoded fs ≡ bytes
unfolding encoded
encoded_ok fs bytes e = rw (e, encoded)

module _ (js : Runtime) (fs : Fields) (h : IsSealable js fs) where
  encode-encoded : Pack.encode (dict fs) ≡ ok (encoded fs)
  encode-encoded =
      let (bytes, e, d) = decode-Pack_encode js fs [] h.is_plain h.few_atoms in
      e ∙ ap ok (sym (encoded_ok fs bytes e))

  decode-encoded : Unpack.decode js (encoded fs) ≡ ok (dict fs)
  decode-encoded =
      let (bytes, e, d) = decode-Pack_encode js fs [] h.is_plain h.few_atoms in
      ap (Unpack.decode js) (encoded_ok fs bytes e ∙ sym (append-nil bytes)) ∙ d

header_ok : (size : ℕ) → size < 2 ^ 24 → frame_header encrypted_opack size ≡ ok (header_of size)
unfolding frame_header
header_ok size h = rw (uint_be_fits 3 size (omega (arith, h)))

-- The encoder on its pool gives the bytes of the packing without a pool.
encode_pooled :
    (allocate : ℕ → List ℕ) (js : Runtime) (fs : Fields) (pool : BufferPool)
    → ((n : ℕ) → length (allocate n) ≡ n)
    → IsSealable js fs
    → IsSound pool
    → (pool' : BufferPool) × (Pooled.encode allocate (dict fs) pool ≡ ok (encoded fs, pool'))
      × IsSound pool'
encode_pooled allocate js fs pool allocate_length h sound =
    let (packed, pool', plain, pooled, sound', short) =
      encode-Pack_encode allocate allocate_length (dict fs) pool h.is_small sound in
    (pool', pooled ∙ ap (λ packed. ok (packed, pool')) (sym (encoded_ok fs packed plain)), sound')

-- The message between a channel that sends and a layer that reads.
pub record Sealed (cipher : Cipher) (js : Runtime) (allocate : ℕ → List ℕ) (fs : Fields)
    (pool : BufferPool) (c : HapFramedChannel) (r : EncryptionLayer) : Type 0 where
  pub pool' : BufferPool
  pub sound : IsSound pool'
  pub ciphertext : List ℕ
  pub s_after : EncryptionLayer
  pub r_after : EncryptionLayer
  pub size : length ciphertext ≡ length (encoded fs) + 16
  pub sendable : IsSendable (sealed_frame ciphertext)
  pub sends :
      send_message cipher allocate (dict fs) pool c
      ≡ ok (record c { encryption = s_after }, frame_bytes (sealed_frame ciphertext), pool')
  pub opens :
      (n : ℕ)
      → on_frame cipher js (record { type = encrypted_opack; sequence = n; payload = ciphertext }) r
        ≡ (
          r_after,
          message (dict fs)
              ∷ frame (record { type = encrypted_opack; sequence = n; payload = ciphertext })
              ∷ [],
        )
  pub still_paired : Paired s_after r_after

module _ (cipher : Cipher) (lawful : Lawful cipher) (js : Runtime) (allocate : ℕ → List ℕ)
    (allocate_length : (n : ℕ) → length (allocate n) ≡ n) (fs : Fields) (h : IsSealable js fs)
    (pool : BufferPool) (is_sound : IsSound pool) (c : HapFramedChannel) (r : EncryptionLayer)
    (paired : Paired c.encryption r) where
  sent_object :
      Sent cipher lawful c.encryption r (encoded fs) (some (header_of (length (encoded fs) + 16)))
  sent_object =
      Paired-Sent cipher lawful c.encryption r (encoded fs)
        (some (header_of (length (encoded fs) + 16))) paired

  frame-IsSendable : IsSendable (sealed_frame sent_object.ciphertext)
  unfolding is_valid_frame_type
  frame-IsSendable = record {
    known = refl;
    wire = omega arith;
    nonempty = omega (arith, sent_object.longer);
    bounded = omega (arith, sent_object.longer, h.short);
  }

  pooled_object :
      (pool' : BufferPool) × (Pooled.encode allocate (dict fs) pool ≡ ok (encoded fs, pool'))
      × IsSound pool'
  pooled_object = encode_pooled allocate js fs pool allocate_length h is_sound

  sends_object :
      send_message cipher allocate (dict fs) pool c
      ≡ ok (
        record c { encryption = moved c.encryption.state 1 0 c.encryption },
        frame_bytes (sealed_frame sent_object.ciphertext),
        pooled_object.0,
      )
  unfolding send_message send_frame
  sends_object = rw (
    pooled_object.1,
    Paired-is_enabled_sender c.encryption r paired,
    header_ok (length (encoded fs) + 16) (omega (arith, h.short)),
    sent_object.encrypts,
    encode-frame_bytes (sealed_frame sent_object.ciphertext) frame-IsSendable,
  )

  opens_object :
      (n : ℕ)
      → on_frame cipher js
          (record { type = encrypted_opack; sequence = n; payload = sent_object.ciphertext })
          r
        ≡ (
          moved r.state 0 1 r,
          message (dict fs)
              ∷ frame (record {
                type = encrypted_opack;
                sequence = n;
                payload = sent_object.ciphertext;
              })
              ∷ [],
        )
  unfolding on_frame message_events
  opens_object n = rw (
    sent_object.longer,
    header_ok (length (encoded fs) + 16) (omega (arith, h.short)),
    sent_object.decrypts,
    decode-encoded js fs h,
    message_events,
  )

  pub Sealed-send_message : Sealed cipher js allocate fs pool c r
  Sealed-send_message = record {
    pool' = pooled_object.0;
    sound = pooled_object.2;
    ciphertext = sent_object.ciphertext;
    s_after = moved c.encryption.state 1 0 c.encryption;
    r_after = moved r.state 0 1 r;
    size = sent_object.longer;
    sendable = frame-IsSendable;
    sends = sends_object;
    opens = opens_object;
    still_paired = sent_object.still_paired;
  }
