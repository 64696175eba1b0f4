-- ===== src/Encryption/Frames.antt =====
-- The frames of protocols/airplay/layers/HapFrameLayer.ts, from one layer to the other.
use bunatv.Prelude.{
  ℕ, zero, suc, ◌+◌, ◌<◌, ◌≤◌, ◌≡◌, refl, sym, ap, ◌∙◌, List, [], ◌∷◌, ◌++◌, arith, some, inl, ok,
  length, length-append, length-take, length-drop, drop, append_assoc, append-nil,
}
use bunatv.Prelude.Bytes.{to_le}
use bunatv.Encryption.{
  Cipher, EncryptionLayer, moved, encrypt_frames, encrypt_hap, decrypt_frames, decrypt_hap,
}
use bunatv.Encryption.Channel.{Lawful, Paired, Sent, Paired-Sent, IsIncomplete}
use bunatv.Encryption.Steps.{
  chunk_of, size_of, split, encrypt_frames-step, decrypt_frames-step, decrypt_frames-IsIncomplete,
}

module _ (cipher : Cipher) (lawful : Lawful cipher) (tail : List ℕ) (cut : IsIncomplete tail) where
  -- All frames of a text.
  record Passed (plain : List ℕ) (fuel : ℕ) (s r : EncryptionLayer) : Type 0 where
    bytes : List ℕ
    s_after : EncryptionLayer
    r_after : EncryptionLayer
    encrypts : encrypt_frames cipher fuel plain s ≡ (ok bytes, s_after)
    decrypts :
        (f : ℕ)
        → length bytes < f
        → decrypt_frames cipher f (bytes ++ tail) r ≡ (ok (plain, tail), r_after)
    still_paired : Paired s_after r_after
    reverse_kept : Paired r s → Paired r_after s_after

  Passed-cons :
      (fuel b : ℕ) (bs : List ℕ) (s r : EncryptionLayer)
      → (x : Sent cipher lawful s r (chunk_of (b ∷ bs)) (some (to_le 2 (size_of (b ∷ bs)))))
      → Passed (drop (size_of (b ∷ bs)) (b ∷ bs)) fuel (moved s.state 1 0 s) (moved r.state 0 1 r)
      → Passed (b ∷ bs) (suc fuel) s r
  Passed-cons fuel b bs s r x q = record {
    bytes = (to_le 2 (size_of (b ∷ bs)) ++ x.ciphertext) ++ q.bytes;
    s_after = q.s_after;
    r_after = q.r_after;
    encrypts =
        encrypt_frames-step cipher fuel b bs x.ciphertext q.bytes s (moved s.state 1 0 s) q.s_after
          x.encrypts q.encrypts;
    decrypts = steps;
    still_paired = q.still_paired;
    reverse_kept = λ p. q.reverse_kept (x.reverse_kept p);
  }
    where
      chunk_small : size_of (b ∷ bs) < 65536
      chunk_small = omega (arith, length-take 1024 (b ∷ bs))

      size : length x.ciphertext ≡ (size_of (b ∷ bs)) + 16
      size = x.longer

      steps :
          (f : ℕ)
          → length ((to_le 2 (size_of (b ∷ bs)) ++ x.ciphertext) ++ q.bytes) < f
          → decrypt_frames cipher f
              (((to_le 2 (size_of (b ∷ bs)) ++ x.ciphertext) ++ q.bytes) ++ tail)
              r
            ≡ (ok (b ∷ bs, tail), q.r_after)
      steps zero below = absurd (omega arith)
      steps (suc f) below =
          ap (λ bytes. decrypt_frames cipher (suc f) bytes r)
            (append_assoc (to_le 2 (size_of (b ∷ bs)) ++ x.ciphertext) q.bytes tail
              ∙ append_assoc (to_le 2 (size_of (b ∷ bs))) x.ciphertext (q.bytes ++ tail))
          ∙ decrypt_frames-step cipher (size_of (b ∷ bs)) x.ciphertext (q.bytes ++ tail) size
              chunk_small f (chunk_of (b ∷ bs)) (drop (size_of (b ∷ bs)) (b ∷ bs)) tail r
              (moved r.state 0 1 r) q.r_after x.decrypts
              (q.decrypts f (
                omega (
                  arith,
                  length-append (to_le 2 (size_of (b ∷ bs)) ++ x.ciphertext) q.bytes,
                  length-append (to_le 2 (size_of (b ∷ bs))) x.ciphertext,
                  size,
                )))
          ∙ ap (λ bytes. (ok (bytes, tail), q.r_after)) (split 1024 (b ∷ bs))

  Passed-encrypt_frames :
      (fuel : ℕ) (plain : List ℕ) (s r : EncryptionLayer)
      → length plain ≤ fuel
      → Paired s r
      → Passed plain fuel s r
  Passed-encrypt_frames fuel [] s r l h = record {
    bytes = [];
    s_after = s;
    r_after = r;
    encrypts = unfold encrypt_frames in refl;
    decrypts = stops;
    still_paired = h;
    reverse_kept = λ p. p;
  }
    where
      stops : (f : ℕ) → 0 < f → decrypt_frames cipher f tail r ≡ (ok ([], tail), r)
      stops zero l = absurd (omega arith)
      stops (suc f) l = decrypt_frames-IsIncomplete cipher f tail r cut
  Passed-encrypt_frames zero (b ∷ bs) s r l h = absurd (omega arith)
  Passed-encrypt_frames (suc fuel) (b ∷ bs) s r l h =
      let size : 0 < size_of (b ∷ bs) = omega (arith, length-take 1024 (b ∷ bs)) in
      let x =
        Paired-Sent cipher lawful s r (chunk_of (b ∷ bs)) (some (to_le 2 (size_of (b ∷ bs)))) h in
      Passed-cons fuel b bs s r x (
        Passed-encrypt_frames fuel (drop (size_of (b ∷ bs)) (b ∷ bs)) (moved s.state 1 0 s)
          (moved r.state 0 1 r) (omega (arith, length-drop (size_of (b ∷ bs)) (b ∷ bs), size))
          x.still_paired)

-- Layers that are paired in both directions.
pub record Linked (s r : EncryptionLayer) : Type 0 where
  pub forth : Paired s r
  pub back : Paired r s

pub Linked-encrypt_hap :
    (cipher : Cipher) (s r : EncryptionLayer) (plain : List ℕ)
    → Lawful cipher
    → Linked s r
    → (bytes : List ℕ) × (s' : EncryptionLayer) × (r' : EncryptionLayer) × (encrypt_hap cipher plain
          s
        ≡ (ok bytes, s'))
      × (decrypt_hap cipher bytes r ≡ (ok (plain, []), r'))
      × Linked s' r'
unfolding encrypt_hap decrypt_hap
Linked-encrypt_hap cipher s r plain lawful h =
    let p =
      Passed-encrypt_frames cipher lawful [] (inl (omega arith)) (length plain) plain s r
        (omega arith) h.forth in
    (
      p.bytes,
      p.s_after,
      p.r_after,
      p.encrypts,
      ap (λ b. decrypt_frames cipher (suc (length p.bytes)) b r) (sym (append-nil p.bytes))
          ∙ p.decrypts (suc (length p.bytes)) (omega arith),
      record { forth = p.still_paired; back = p.reverse_kept h.back },
    )

-- Between two layers that share a key of 32 bytes and the same next nonce, with a cipher that opens
-- what it sealed, HapFrameLayer.encrypt of any text succeeds, and HapFrameLayer.decrypt of its result
-- gives back the text, leaves the incomplete frame that follows, and both layers are paired again.
pub decrypt_hap-encrypt_hap :
    (cipher : Cipher) (s r : EncryptionLayer) (plain tail : List ℕ)
    → Lawful cipher
    → Paired s r
    → IsIncomplete tail
    → (bytes : List ℕ) × (s' : EncryptionLayer) × (r' : EncryptionLayer) × (encrypt_hap cipher plain
          s
        ≡ (ok bytes, s'))
      × (decrypt_hap cipher (bytes ++ tail) r ≡ (ok (plain, tail), r'))
      × Paired s' r'
unfolding encrypt_hap decrypt_hap
decrypt_hap-encrypt_hap cipher s r plain tail lawful h cut =
    let p = Passed-encrypt_frames cipher lawful tail cut (length plain) plain s r (omega arith) h in
    (
      p.bytes,
      p.s_after,
      p.r_after,
      p.encrypts,
      p.decrypts (suc (length (p.bytes ++ tail))) (omega (arith, length-append p.bytes tail)),
      p.still_paired,
    )
