-- ===== src/Tests/Encryption.antt =====
-- Runs of ChaCha20EncryptionLayer.ts and HapFrameLayer.ts, with a cipher that only appends a tag.
use bunatv.Prelude.{
  ℕ, ◌-◌, ◌≡◌, ◌≢◌, refl, ap, List, [], ◌∷◌, ◌++◌, arith, none, some, inl, ok, decryption_failed,
  ltb, length, length-append, le→ltb, take, take-append_left, if◌then◌else◌,
}
use bunatv.Encryption.{
  Cipher, hap, create_nonce, enabled, EncryptionLayer, moved, failed, active_keys, encrypt, decrypt,
  encrypt_hap, decrypt_hap,
}
use bunatv.Encryption.Channel.{Lawful, Paired}
use bunatv.Encryption.Frames.{decrypt_hap-encrypt_hap}
use bunatv.Encryption.Failure.{encrypt-decrypt_failed}
use bunatv.Encryption.Nonces.{create_nonce-distinct}

abbrev pub tag : List ℕ
tag = 0 ∷ 0 ∷ 0 ∷ 0 ∷ 0 ∷ 0 ∷ 0 ∷ 0 ∷ 0 ∷ 0 ∷ 0 ∷ 0 ∷ 0 ∷ 0 ∷ 0 ∷ 0 ∷ []

abbrev pub tag_cipher : Cipher
tag_cipher = record {
  seal = λ key nonce aad bytes. some (bytes ++ tag);
  open_sealed = λ key nonce aad bytes.
      if ltb (length bytes) 16 then none else some (take (length bytes - 16) bytes);
}

pub tag_cipher-Lawful : Lawful tag_cipher
tag_cipher-Lawful key nonce aad bytes key_size nonce_size = record {
  sealed = bytes ++ tag;
  is_sealed = refl;
  longer = length-append bytes tag;
  opens = rw (le→ltb (length (bytes ++ tag)) 16 (omega (arith, length-append bytes tag))) (
      ap some (
        take-append_left (length (bytes ++ tag) - 16) bytes tag
          (omega (arith, length-append bytes tag))));
}

abbrev pub key : List ℕ
key = tag ++ tag

abbrev pub sender : EncryptionLayer
sender = record {
  state = enabled;
  session_keys = some (record { write_key = key; read_key = tag });
  send_nonce = 4;
  receive_nonce = 9;
  nonce_format = hap;
}

abbrev pub receiver : EncryptionLayer
receiver = record {
  state = enabled;
  session_keys = some (record { write_key = tag; read_key = key });
  send_nonce = 0;
  receive_nonce = 4;
  nonce_format = hap;
}

pub sender-Paired : Paired sender receiver
unfolding active_keys
sender-Paired = record {
  s_keys = record { write_key = key; read_key = tag };
  r_keys = record { write_key = tag; read_key = key };
  s_active = refl;
  r_active = refl;
  same_key = refl;
  key_size = refl;
  same_nonce = refl;
  same_format = refl;
}

decrypt_hap-encrypt_hap_example :
    (bytes : List ℕ) × (s' : EncryptionLayer) × (r' : EncryptionLayer) × (encrypt_hap tag_cipher
        (1 ∷ 2 ∷ 3 ∷ [])
        sender
      ≡ (ok bytes, s'))
    × (decrypt_hap tag_cipher (bytes ++ 5 ∷ []) receiver ≡ (ok (1 ∷ 2 ∷ 3 ∷ [], 5 ∷ []), r'))
    × Paired s' r'
decrypt_hap-encrypt_hap_example =
    decrypt_hap-encrypt_hap tag_cipher sender receiver (1 ∷ 2 ∷ 3 ∷ []) (5 ∷ []) tag_cipher-Lawful
      sender-Paired (inl (omega arith))

encrypt-decrypt_failed_example :
    encrypt tag_cipher (7 ∷ 8 ∷ []) none (moved failed 0 1 receiver)
    ≡ (ok (7 ∷ 8 ∷ []), moved failed 0 1 receiver)
unfolding decrypt active_keys create_nonce
encrypt-decrypt_failed_example =
    encrypt-decrypt_failed tag_cipher (1 ∷ []) (7 ∷ 8 ∷ []) none none receiver
      (moved failed 0 1 receiver) decryption_failed refl

create_nonce-distinct_example : create_nonce 5 hap ≢ create_nonce 6 hap
create_nonce-distinct_example =
    create_nonce-distinct hap 5 6 (omega arith) (omega arith) (omega arith)
