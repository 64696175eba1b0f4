-- ===== src/Companion/Delivery.antt =====
-- Many messages from one HapFramedChannel of protocols/companion/layers/HapFramedChannel.ts to another.
use bunatv.Prelude.{ℕ, ◌+◌, ◌≡◌, List, [], ◌∷◌, ◌++◌, map, Result, ok, length, ◌>>=◌, All}
use bunatv.Encryption.{Cipher, EncryptionLayer}
use bunatv.Encryption.Channel.{Lawful, Paired}
use bunatv.HapFrames.Parse.{Message, IsSendable}
use bunatv.HapFrames.Streams.{stream_bytes, numbered}
use bunatv.Buffers.Pool.{BufferPool}
use bunatv.Buffers.Pool.Sound.{IsSound}
use bunatv.Opack.Value.{Value, Fields, dict, Runtime}
use bunatv.Companion.{Event, message, frame, HapFramedChannel, send_message, on_frames}
use bunatv.Companion.Sealing.{encoded}

-- Messages that are sent one after the other, and all the bytes that go out.
unfoldable pub send_each :
    Cipher
    → (ℕ → List ℕ)
    → List Fields
    → BufferPool
    → HapFramedChannel
    → Result (HapFramedChannel × List ℕ × BufferPool)
send_each cipher fresh [] pool c = ok (c, [], pool)
send_each cipher fresh (fs ∷ others) pool c = do
  (c₁, bytes, pool₁) ← send_message cipher fresh (dict fs) pool c
  (c₂, more, pool₂) ← send_each cipher fresh others pool₁ c₁
  ok (c₂, bytes ++ more, pool₂)

-- The messages among the events.
unfoldable pub messages_of : List Event → List Value
messages_of [] = []
messages_of (message v ∷ events) = v ∷ messages_of events
messages_of (frame d ∷ events) = messages_of events

-- A message has four bytes of header and sixteen of tag.
unfoldable pub wire_length : List Fields → ℕ
wire_length [] = 0
wire_length (fs ∷ others) = length (encoded fs) + 20 + wire_length others

module _ (cipher : Cipher) (lawful : Lawful cipher) (js : Runtime) (fresh : ℕ → List ℕ)
    (fresh_length : (n : ℕ) → length (fresh n) ≡ n) where
  record Sealings (objects : List Fields) (pool : BufferPool) (c : HapFramedChannel)
      (r : EncryptionLayer) : Type 0 where
    frames : List Message
    pool' : BufferPool
    sound : IsSound pool'
    s_after : EncryptionLayer
    r_after : EncryptionLayer
    sendable : All IsSendable frames
    size : length (stream_bytes frames) ≡ wire_length objects
    sends :
        send_each cipher fresh objects pool c
        ≡ ok (record c { encryption = s_after }, stream_bytes frames, pool')
    opens :
        (n : ℕ)
        → (events : List Event) × (on_frames cipher js (numbered n frames) r ≡ (r_after, events))
          × (messages_of events ≡ map dict objects)
    still_paired : Paired s_after r_after
