-- ===== src/Encryption/Channel.antt =====
-- Two layers that share a key, one to encrypt and one to decrypt: ChaCha20EncryptionLayer.ts and
-- HapFrameLayer.ts under protocols.
use bunatv.Prelude.{
  ℕ, ◌+◌, ◌<◌, ◌≡◌, refl, ap₂, ◌⊎◌, ◌∙◌, List, [], ◌∷◌, arith, Option, some, true, ok, length,
  length-append, take,
}
use bunatv.Prelude.Bytes.{to_le, of_le, length-to_le}
use bunatv.Encryption.{
  Cipher, NonceFormat, companion, hap, create_nonce, DerivedKeys, EncryptionState, enabled,
  disabled, failed, EncryptionLayer, is_enabled, active_keys, moved, encrypt, decrypt,
}

-- What ChaCha20-Poly1305 does with a key of 32 bytes and a nonce of 12: the sealed bytes are 16 longer
-- and open to what was sealed.
pub record Sealed (cipher : Cipher) (key nonce : List ℕ) (aad : Option (List ℕ)) (bytes : List ℕ)
    : Type 0 where
  pub sealed : List ℕ
  pub is_sealed : cipher.seal key nonce aad bytes ≡ some sealed
  pub longer : length sealed ≡ length bytes + 16
  pub opens : cipher.open_sealed key nonce aad sealed ≡ some bytes

abbrev pub Lawful : Cipher → Type 0
Lawful cipher =
    (key nonce : List ℕ) (aad : Option (List ℕ)) (bytes : List ℕ)
    → length key ≡ 32
    → length nonce ≡ 12
    → Sealed cipher key nonce aad bytes

-- Both layers are enabled, the one writes with the key with which the other reads, and the next nonce
-- to read with is the next to write with.
pub record Paired (s r : EncryptionLayer) : Type 0 where
  pub s_keys : DerivedKeys
  pub r_keys : DerivedKeys
  pub s_active : active_keys s.state s.session_keys ≡ some s_keys
  pub r_active : active_keys r.state r.session_keys ≡ some r_keys
  pub same_key : r_keys.read_key ≡ s_keys.write_key
  pub key_size : length s_keys.write_key ≡ 32
  pub same_nonce : r.receive_nonce ≡ s.send_nonce
  pub same_format : r.nonce_format ≡ s.nonce_format

pub active_keys-is_enabled :
    (state : EncryptionState) (keys : DerivedKeys) (held : Option DerivedKeys)
    → active_keys state held ≡ some keys
    → is_enabled state ≡ true
unfolding active_keys is_enabled
active_keys-is_enabled enabled keys held e = refl
active_keys-is_enabled disabled keys held e = absurd (ground (arith, e))
active_keys-is_enabled failed keys held e = absurd (ground (arith, e))

pub Paired-is_enabled : (s r : EncryptionLayer) → Paired s r → is_enabled r.state ≡ true
Paired-is_enabled s r h = active_keys-is_enabled r.state h.r_keys r.session_keys h.r_active

pub Paired-is_enabled_sender : (s r : EncryptionLayer) → Paired s r → is_enabled s.state ≡ true
Paired-is_enabled_sender s r h = active_keys-is_enabled s.state h.s_keys s.session_keys h.s_active

-- The code stops before these bytes: no length, or less than a frame of that length.
abbrev pub IsIncomplete : List ℕ → Type 0
IsIncomplete tail = (length tail < 2) ⊎ (length tail < 2 + of_le (take 2 tail) + 16)

length-create_nonce : (n : ℕ) (format : NonceFormat) → length (create_nonce n format) ≡ 12
unfolding create_nonce
length-create_nonce n companion =
    omega (arith, length-append (to_le 4 n) (0 ∷ 0 ∷ 0 ∷ 0 ∷ 0 ∷ 0 ∷ 0 ∷ 0 ∷ []), length-to_le 4 n)
length-create_nonce n hap = omega (arith, length-to_le 8 n)

module _ (cipher : Cipher) (lawful : Lawful cipher) where
  -- One buffer that goes from one layer to the other.
  pub record Sent (s r : EncryptionLayer) (bytes : List ℕ) (aad : Option (List ℕ)) : Type 0 where
    pub ciphertext : List ℕ
    pub encrypts : encrypt cipher bytes aad s ≡ (ok ciphertext, moved s.state 1 0 s)
    pub decrypts : decrypt cipher ciphertext aad r ≡ (ok bytes, moved r.state 0 1 r)
    pub longer : length ciphertext ≡ length bytes + 16
    pub still_paired : Paired (moved s.state 1 0 s) (moved r.state 0 1 r)
    pub reverse_kept : Paired r s → Paired (moved r.state 0 1 r) (moved s.state 1 0 s)

  encrypt_ok :
      (bytes sealed : List ℕ) (aad : Option (List ℕ)) (l : EncryptionLayer) (keys : DerivedKeys)
      → active_keys l.state l.session_keys ≡ some keys
      → cipher.seal keys.write_key (create_nonce l.send_nonce l.nonce_format) aad bytes
        ≡ some sealed
      → encrypt cipher bytes aad l ≡ (ok sealed, moved l.state 1 0 l)
  unfolding encrypt
  encrypt_ok bytes sealed aad l keys e f = rw (e, f, encrypt)

  decrypt_ok :
      (bytes opened : List ℕ) (aad : Option (List ℕ)) (l : EncryptionLayer) (keys : DerivedKeys)
      → active_keys l.state l.session_keys ≡ some keys
      → cipher.open_sealed keys.read_key (create_nonce l.receive_nonce l.nonce_format) aad bytes
        ≡ some opened
      → decrypt cipher bytes aad l ≡ (ok opened, moved l.state 0 1 l)
  unfolding decrypt
  decrypt_ok bytes opened aad l keys e f = rw (e, f, decrypt)

  pub Paired-Sent :
      (s r : EncryptionLayer) (bytes : List ℕ) (aad : Option (List ℕ))
      → Paired s r
      → Sent s r bytes aad
  unfolding moved
  Paired-Sent s r bytes aad h =
      let c =
        lawful h.s_keys.write_key (create_nonce s.send_nonce s.nonce_format) aad bytes h.key_size
          (length-create_nonce s.send_nonce s.nonce_format) in
      record {
        ciphertext = c.sealed;
        encrypts = encrypt_ok bytes c.sealed aad s h.s_keys h.s_active c.is_sealed;
        decrypts = decrypt_ok c.sealed bytes aad r h.r_keys h.r_active (
            ap₂ (λ k nonce. cipher.open_sealed k nonce aad c.sealed) h.same_key
              (ap₂ create_nonce h.same_nonce h.same_format)
            ∙ c.opens);
        longer = c.longer;
        still_paired = record {
          s_keys = h.s_keys;
          r_keys = h.r_keys;
          s_active = h.s_active;
          r_active = h.r_active;
          same_key = h.same_key;
          key_size = h.key_size;
          same_nonce = omega (arith, h.same_nonce);
          same_format = h.same_format;
        };
        reverse_kept = λ p. record {
          s_keys = p.s_keys;
          r_keys = p.r_keys;
          s_active = p.s_active;
          r_active = p.r_active;
          same_key = p.same_key;
          key_size = p.key_size;
          same_nonce = omega (arith, p.same_nonce);
          same_format = p.same_format;
        };
      }
