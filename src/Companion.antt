-- ===== src/Companion.antt =====
-- HapFramedChannel of protocols/companion/layers/HapFramedChannel.ts: OPACK messages in frames, which
-- are encrypted with their header as additional data.
pub mod Sealing
pub mod Delivery
pub mod Cleartext
use bunatv.Prelude.{
  ℕ, ◌+◌, List, [], ◌∷◌, ◌++◌, some, Bool, true, false, Result, ok, err, ◌>>=◌, ◌==◌, if◌then◌else◌,
  length,
}
use bunatv.Prelude.Bytes.{to_be, uint_be}
use bunatv.Encryption.{Cipher, EncryptionLayer, is_enabled, encrypt, decrypt}
use bunatv.HapFrames
use bunatv.HapFrames.{HapFrameHandler, Delivered, encrypted_opack}
use bunatv.Opack.Value.{Value, Runtime}
use bunatv.Buffers.Pool.{BufferPool}
use bunatv.Opack.Pooled
use bunatv.Opack.Unpack

-- What the channel emits.
pub data Event : Type 0 where
  message : Value → Event
  frame : Delivered → Event

pub record HapFramedChannel : Type 0 where
  pub encryption : EncryptionLayer
  pub frame_handler : HapFrameHandler

-- `header[0] = type; header.writeUIntBE(size, 1, 3)`
unfoldable pub frame_header : ℕ → ℕ → Result (List ℕ)
frame_header type size = do size_bytes ← uint_be 3 size; ok (to_be 1 type ++ size_bytes)

module _ (cipher : Cipher) where
  -- The bytes for `transport.send`, and the channel afterwards.
  unfoldable pub send_frame : ℕ → List ℕ → HapFramedChannel → Result (HapFramedChannel × List ℕ)
  send_frame type payload c =
      if is_enabled c.encryption.state
      then (do
        header ← frame_header type (length payload + 16)
        let (result, layer) = encrypt cipher payload (some header) c.encryption
        outgoing ← result
        bytes ← HapFrames.encode outgoing type
        ok (record c { encryption = layer }, bytes))
      else (do bytes ← HapFrames.encode payload type; ok (c, bytes))

  -- `sendMessage`, with the pool of the OPACK encoder and its allocator.
  unfoldable pub send_message :
      (ℕ → List ℕ)
      → Value
      → BufferPool
      → HapFramedChannel
      → Result (HapFramedChannel × List ℕ × BufferPool)
  send_message allocate v pool c = do
    (encoded, pool') ← Pooled.encode allocate v pool
    (c', outgoing) ← send_frame encrypted_opack encoded c
    ok (c', outgoing, pool')

  module _ (js : Runtime) where
    -- `OPACK.decode` of what was decrypted; an exception is logged, and ends the listener.
    unfoldable pub message_events : Delivered → Result (List ℕ) → List Event
    message_events d (err e) = []
    message_events d (ok decrypted) = elim (Unpack.decode js decrypted) [
      | err e ↦ []
      | ok v ↦ message v ∷ frame d ∷ []
    ]

    -- The listener of `frame`. A layer that is not enabled is warned of, and used all the same.
    unfoldable pub on_frame : Delivered → EncryptionLayer → EncryptionLayer × List Event
    unfolding message_events
    on_frame d l =
        if d.type == encrypted_opack
        then elim (frame_header d.type (length d.payload)) [
          | err e ↦ (l, [])
          | ok header ↦
              let (result, l') = decrypt cipher d.payload (some header) l in
              (l', message_events d result)
        ]
        else (l, frame d ∷ [])

    unfoldable pub on_frames : List Delivered → EncryptionLayer → EncryptionLayer × List Event
    on_frames [] l = (l, [])
    on_frames (d ∷ ds) l =
        let (l₁, events) = on_frame d l in let (l₂, more) = on_frames ds l₁ in (l₂, events ++ more)

    -- `data` of the transport, with the parse that the frame handler schedules.
    unfoldable pub receive :
        (ℕ → List ℕ) → List ℕ → HapFramedChannel → Result (HapFramedChannel × List Event)
    receive allocate bytes c = do
      (h, frames, why) ← HapFrames.push allocate bytes c.frame_handler
      let (l, events) = on_frames frames c.encryption
      ok (record { encryption = l; frame_handler = h }, events)
