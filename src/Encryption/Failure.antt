-- ===== src/Encryption/Failure.antt =====
-- Calls after a failure, and nonces, protocols/shared/layers/ChaCha20EncryptionLayer.ts.
use bunatv.Prelude.{
  ℕ, ◌≡◌, sym, ap, ◌∙◌, List, Option, none, Option-cases, inl, inr, Result, ok, err, Error,
}
use bunatv.Encryption.{
  Cipher, EncryptionState, failed, EncryptionLayer, active_keys, create_nonce, moved, encrypt,
  decrypt,
}

module _ (cipher : Cipher) where
  state_of_error : Result (List ℕ) × EncryptionLayer → EncryptionState
  state_of_error (ok bytes, l) = failed
  state_of_error (err e, l) = l.state

  decrypt-failed :
      (sealed : List ℕ) (aad : Option (List ℕ)) (l : EncryptionLayer)
      → state_of_error (decrypt cipher sealed aad l) ≡ failed
  unfolding decrypt moved state_of_error
  decrypt-failed sealed aad l = elim (Option-cases (active_keys l.state l.session_keys)) [
    | inl none_set ↦ rw (none_set, decrypt)
    | inr (keys, set) ↦
        elim (Option-cases (
          cipher.open_sealed keys.read_key (create_nonce l.receive_nonce l.nonce_format) aad
            sealed)) [
              | inl throws ↦ rw (set, throws, decrypt)
              | inr (opened, opens) ↦ rw (set, opens, decrypt)
            ]
  ]

  encrypt_bypassed :
      (plaintext : List ℕ) (aad : Option (List ℕ)) (l : EncryptionLayer)
      → l.state ≡ failed
      → encrypt cipher plaintext aad l ≡ (ok plaintext, l)
  unfolding encrypt
  encrypt_bypassed plaintext aad l e =
      let off : active_keys l.state l.session_keys ≡ none =
        unfold active_keys in ap (λ s. active_keys s l.session_keys) e in
      rw (off, encrypt)

  -- When decrypt has thrown, encrypt gives any plaintext back unencrypted, with no error, and leaves
  -- the layer so, so that all later calls do the same.
  pub encrypt-decrypt_failed :
      (sealed plaintext : List ℕ) (aad aad' : Option (List ℕ)) (l after : EncryptionLayer)
      (e : Error)
      → decrypt cipher sealed aad l ≡ (err e, after)
      → encrypt cipher plaintext aad' after ≡ (ok plaintext, after)
  unfolding state_of_error
  encrypt-decrypt_failed sealed plaintext aad aad' l after e h =
      encrypt_bypassed plaintext aad' after
        (ap state_of_error (sym h) ∙ decrypt-failed sealed aad l)
