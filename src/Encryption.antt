-- ===== src/Encryption.antt =====
-- protocols/shared/layers/ChaCha20EncryptionLayer.ts, with createNonce of
-- core/encoding/buffer-utils.ts, and protocols/airplay/layers/HapFrameLayer.ts. The cipher is a
-- parameter. A call gives its result and the layer after it, since a throw changes the layer.
use bunatv.Prelude.{
  ℕ, zero, suc, ◌+◌, ◌*◌, List, [], ◌∷◌, ◌++◌, Option, none, some, Bool, true, false, Result, ok,
  err, out_of_fuel, encryption_failed, decryption_failed, ltb, length, take, drop, if◌then◌else◌,
}
use bunatv.Prelude.Bytes.{to_le, of_le}
pub mod Channel
pub mod Steps
pub mod Frames
pub mod Nonces
pub mod Failure

-- `chacha20poly1305(key, nonce, aad)` of @noble/ciphers; `none` where it throws.
pub record Cipher : Type 0 where
  pub seal : List ℕ → List ℕ → Option (List ℕ) → List ℕ → Option (List ℕ)
  pub open_sealed : List ℕ → List ℕ → Option (List ℕ) → List ℕ → Option (List ℕ)

pub data NonceFormat : Type 0 where
  companion hap : NonceFormat

-- `setUint32` and `setBigUint64` cut the counter to their width, as `to_le` does.
unfoldable pub create_nonce : ℕ → NonceFormat → List ℕ
create_nonce counter companion = to_le 4 counter ++ 0 ∷ 0 ∷ 0 ∷ 0 ∷ 0 ∷ 0 ∷ 0 ∷ 0 ∷ []
create_nonce counter hap = 0 ∷ 0 ∷ 0 ∷ 0 ∷ to_le 8 counter

pub data EncryptionState : Type 0 where
  disabled enabled failed : EncryptionState

pub record DerivedKeys : Type 0 where
  pub write_key : List ℕ
  pub read_key : List ℕ

pub record EncryptionLayer : Type 0 where
  pub state : EncryptionState
  pub session_keys : Option DerivedKeys
  pub send_nonce : ℕ
  pub receive_nonce : ℕ
  pub nonce_format : NonceFormat

unfoldable pub new_layer : NonceFormat → EncryptionLayer
new_layer format = record {
  state = disabled;
  session_keys = none;
  send_nonce = 0;
  receive_nonce = 0;
  nonce_format = format;
}

unfoldable pub enable : DerivedKeys → EncryptionLayer → EncryptionLayer
enable keys l = record {
  state = enabled;
  session_keys = some keys;
  send_nonce = 0;
  receive_nonce = 0;
  nonce_format = l.nonce_format;
}

unfoldable pub disable : EncryptionLayer → EncryptionLayer
disable l = record {
  state = disabled;
  session_keys = none;
  send_nonce = 0;
  receive_nonce = 0;
  nonce_format = l.nonce_format;
}

unfoldable pub reset_nonces : EncryptionLayer → EncryptionLayer
reset_nonces l = record {
  state = l.state;
  session_keys = l.session_keys;
  send_nonce = 0;
  receive_nonce = 0;
  nonce_format = l.nonce_format;
}

unfoldable pub is_enabled : EncryptionState → Bool
is_enabled enabled = true
is_enabled disabled = false
is_enabled failed = false

-- The keys, while the layer is enabled.
unfoldable pub active_keys : EncryptionState → Option DerivedKeys → Option DerivedKeys
active_keys enabled keys = keys
active_keys disabled keys = none
active_keys failed keys = none

-- The layer after the counters have moved on, and after a failure.
unfoldable pub moved : EncryptionState → ℕ → ℕ → EncryptionLayer → EncryptionLayer
moved state sent received l = record {
  state = state;
  session_keys = l.session_keys;
  send_nonce = l.send_nonce + sent;
  receive_nonce = l.receive_nonce + received;
  nonce_format = l.nonce_format;
}

module _ (cipher : Cipher) where
  unfoldable pub encrypt :
      List ℕ → Option (List ℕ) → EncryptionLayer → Result (List ℕ) × EncryptionLayer
  unfolding active_keys moved
  encrypt bytes aad l = elim (active_keys l.state l.session_keys) [
    | none ↦ (ok bytes, l)
    | some keys ↦
        elim (cipher.seal keys.write_key (create_nonce l.send_nonce l.nonce_format) aad bytes) [
          | none ↦ (err encryption_failed, moved failed 1 0 l)
          | some sealed ↦ (ok sealed, moved l.state 1 0 l)
        ]
  ]

  unfoldable pub decrypt :
      List ℕ → Option (List ℕ) → EncryptionLayer → Result (List ℕ) × EncryptionLayer
  unfolding active_keys moved
  decrypt bytes aad l = elim (active_keys l.state l.session_keys) [
    | none ↦ (ok bytes, l)
    | some keys ↦
        elim (cipher.open_sealed keys.read_key (create_nonce l.receive_nonce l.nonce_format) aad
          bytes) [
            | none ↦ (err decryption_failed, moved failed 0 1 l)
            | some opened ↦ (ok opened, moved l.state 0 1 l)
          ]
  ]

  -- `HapFrameLayer.encrypt`; a chunk is at least one byte of the fuel.
  unfoldable pub encrypt_frames : ℕ → List ℕ → EncryptionLayer → Result (List ℕ) × EncryptionLayer
  encrypt_frames fuel [] l = (ok [], l)
  encrypt_frames zero (b ∷ bs) l = (err out_of_fuel, l)
  encrypt_frames (suc fuel) (b ∷ bs) l =
      let chunk = take 1024 (b ∷ bs) in
      let length_bytes = to_le 2 (length chunk) in
      let (sealed, l₁) = encrypt chunk (some length_bytes) l in
      elim sealed [
        | err e ↦ (err e, l₁)
        | ok ciphertext ↦
            let (others, l₂) = encrypt_frames fuel (drop (length chunk) (b ∷ bs)) l₁ in
            (
              elim others [ err e ↦ err e | ok rest ↦ ok ((length_bytes ++ ciphertext) ++ rest) ],
              l₂,
            )
      ]

  unfoldable pub encrypt_hap : List ℕ → EncryptionLayer → Result (List ℕ) × EncryptionLayer
  encrypt_hap plaintext l = encrypt_frames (length plaintext) plaintext l

  -- `HapFrameLayer.decrypt`: what was decrypted, and the bytes from the incomplete frame on.
  unfoldable pub decrypt_frames :
      ℕ → List ℕ → EncryptionLayer → Result (List ℕ × List ℕ) × EncryptionLayer
  decrypt_frames zero bytes l = (err out_of_fuel, l)
  decrypt_frames (suc fuel) bytes l = elim (ltb (length bytes) 2) [
    | true ↦ (ok ([], bytes), l)
    | false ↦ elim (ltb (length bytes) (2 + of_le (take 2 bytes) + 16)) [
      | true ↦ (ok ([], bytes), l)
      | false ↦
          let (opened, l₁) =
            decrypt (take (of_le (take 2 bytes) + 16) (drop 2 bytes)) (some (take 2 bytes)) l in
          elim opened [
            | err e ↦ (err e, l₁)
            | ok chunk ↦
                let (others, l₂) =
                  decrypt_frames fuel (drop (2 + of_le (take 2 bytes) + 16) bytes) l₁ in
                (
                  elim others [
                    | err e ↦ err e
                    | ok (rest, remaining) ↦ ok (chunk ++ rest, remaining)
                  ],
                  l₂,
                )
          ]
    ]
  ]

  unfoldable pub decrypt_hap : List ℕ → EncryptionLayer → Result (List ℕ × List ℕ) × EncryptionLayer
  decrypt_hap bytes l = decrypt_frames (suc (length bytes)) bytes l
