-- ===== src/Companion/Cleartext.antt =====
-- HapFramedChannel of protocols/companion/layers/HapFramedChannel.ts when encryption is not enabled.
use bunatv.Prelude.{ℕ, ◌^◌, ◌<◌, ◌≡◌, refl, List, [], ◌∷◌, arith, Option, none, false, ok, length}
use bunatv.Prelude.Bytes.{uint_be_fits}
use bunatv.Encryption.{
  Cipher, EncryptionState, enabled, disabled, failed, EncryptionLayer, is_enabled, active_keys,
  decrypt,
}
use bunatv.HapFrames.{encrypted_opack}
use bunatv.Opack.Value.{Value, Runtime}
use bunatv.Opack.Unpack
use bunatv.Companion.{message, frame, frame_header, message_events, on_frame}

active_keys-disabled :
    (l : EncryptionLayer) → is_enabled l.state ≡ false → active_keys l.state l.session_keys ≡ none
unfolding is_enabled active_keys
active_keys-disabled l = by_state l.state
  where
    by_state :
        (state : EncryptionState)
        → is_enabled state ≡ false
        → active_keys state l.session_keys ≡ none
    by_state disabled e = refl
    by_state failed e = refl
    by_state enabled e = absurd (ground (arith, e))

decrypt-disabled :
    (cipher : Cipher) (bytes : List ℕ) (aad : Option (List ℕ)) (l : EncryptionLayer)
    → is_enabled l.state ≡ false
    → decrypt cipher bytes aad l ≡ (ok bytes, l)
unfolding decrypt
decrypt-disabled cipher bytes aad l off = rw (active_keys-disabled l off, decrypt)

-- A frame of encrypted OPACK whose payload is plain OPACK is handed on as a message while encryption is
-- not enabled, and after it has failed: the warning that it is discarded is not what happens.
pub on_frame-cleartext :
    (cipher : Cipher) (js : Runtime) (n : ℕ) (payload : List ℕ) (v : Value) (l : EncryptionLayer)
    → is_enabled l.state ≡ false
    → length payload < 2 ^ 24
    → Unpack.decode js payload ≡ ok v
    → on_frame cipher js (record { type = encrypted_opack; sequence = n; payload = payload }) l ≡ (
      l,
      message v ∷ frame (record { type = encrypted_opack; sequence = n; payload = payload }) ∷ [],
    )
unfolding on_frame frame_header
on_frame-cleartext cipher js n payload v l off short plain = rw (
  uint_be_fits 3 (length payload) (omega (arith, short)),
  decrypt-disabled cipher payload _ l off,
  plain,
  message_events,
)
