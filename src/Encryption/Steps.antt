-- ===== src/Encryption/Steps.antt =====
-- One frame of protocols/airplay/layers/HapFrameLayer.ts: a round of each loop.
use bunatv.Prelude.{
  ℕ, zero, suc, ◌+◌, ◌<◌, ◌≡◌, refl, sym, ap, ◌∙◌, List, [], ◌∷◌, ◌++◌, arith, some, inl, inr,
  Bool-cases, ok, ltb, le→ltb, lt→ltb, length, length-append, take, drop, take-append_left,
  drop-append_left, append_assoc,
}
use bunatv.Prelude.Bytes.{to_le, of_le, of_le-to_le, length-to_le}
use bunatv.Encryption.{Cipher, EncryptionLayer, encrypt, decrypt, encrypt_frames, decrypt_frames}
use bunatv.Encryption.Channel.{IsIncomplete}

-- The chunk that goes into the next frame, and its length.
abbrev pub chunk_of : List ℕ → List ℕ
chunk_of plain = take 1024 plain

abbrev pub size_of : List ℕ → ℕ
size_of plain = length (chunk_of plain)

pub split : (m : ℕ) (xs : List ℕ) → take m xs ++ drop (length (take m xs)) xs ≡ xs
split zero xs = refl
split (suc m) [] = refl
split (suc m) (x ∷ xs) = ap (λ l. x ∷ l) (split m xs)

module _ (cipher : Cipher) where
  pub encrypt_frames-step :
      (fuel b : ℕ) (bs c rest : List ℕ) (l l₁ l₂ : EncryptionLayer)
      → encrypt cipher (take 1024 (b ∷ bs)) (some (to_le 2 (length (take 1024 (b ∷ bs))))) l
        ≡ (ok c, l₁)
      → encrypt_frames cipher fuel (drop (length (take 1024 (b ∷ bs))) (b ∷ bs)) l₁ ≡ (ok rest, l₂)
      → encrypt_frames cipher (suc fuel) (b ∷ bs) l
        ≡ (ok ((to_le 2 (length (take 1024 (b ∷ bs))) ++ c) ++ rest), l₂)
  unfolding encrypt_frames
  encrypt_frames-step fuel b bs c rest l l₁ l₂ e f = rw (e, e, f, encrypt_frames)

  -- A whole frame in front of other bytes.
  module _ (n : ℕ) (c after : List ℕ) (size : length c ≡ n + 16) (small : n < 65536) where
    abbrev pub frame : List ℕ
    frame = to_le 2 n ++ (c ++ after)

    length-frame : length frame ≡ 2 + (n + 16) + length after
    length-frame = omega (
      arith,
      length-append (to_le 2 n) (c ++ after),
      length-append c after,
      length-to_le 2 n,
      size,
    )

    length_field : take 2 frame ≡ to_le 2 n
    length_field = take-append_left 2 (to_le 2 n) (c ++ after) (omega (arith, length-to_le 2 n))

    sealed_part : take (n + 16) (drop 2 frame) ≡ c
    sealed_part =
        ap (take (n + 16))
          (drop-append_left 2 (to_le 2 n) (c ++ after) (omega (arith, length-to_le 2 n)))
        ∙ take-append_left (n + 16) c after (omega (arith, size))

    after_part : drop (2 + n + 16) frame ≡ after
    after_part =
        ap (drop (2 + n + 16)) (sym (append_assoc (to_le 2 n) c after))
        ∙ drop-append_left (2 + n + 16) (to_le 2 n ++ c) after
            (omega (arith, length-append (to_le 2 n) c, length-to_le 2 n, size))

    pub decrypt_frames-step :
        (fuel : ℕ) (chunk rest tail : List ℕ) (l l₁ l₂ : EncryptionLayer)
        → decrypt cipher c (some (to_le 2 n)) l ≡ (ok chunk, l₁)
        → decrypt_frames cipher fuel after l₁ ≡ (ok (rest, tail), l₂)
        → decrypt_frames cipher (suc fuel) frame l ≡ (ok (chunk ++ rest, tail), l₂)
    unfolding decrypt_frames
    decrypt_frames-step fuel chunk rest tail l l₁ l₂ e f = rw (
      le→ltb (length frame) 2 (omega (arith, length-frame)),
      length_field,
      of_le-to_le 2 n (omega arith),
      le→ltb (length frame) (2 + n + 16) (omega (arith, length-frame)),
      length_field,
      of_le-to_le 2 n (omega arith),
      sealed_part,
      e,
      length_field,
      of_le-to_le 2 n (omega arith),
      sealed_part,
      after_part,
      e,
      f,
      decrypt_frames,
    )

  pub decrypt_frames-IsIncomplete :
      (fuel : ℕ) (tail : List ℕ) (l : EncryptionLayer)
      → IsIncomplete tail
      → decrypt_frames cipher (suc fuel) tail l ≡ (ok ([], tail), l)
  unfolding decrypt_frames
  decrypt_frames-IsIncomplete fuel tail l (inl short) =
      rw (lt→ltb (length tail) 2 short, decrypt_frames)
  decrypt_frames-IsIncomplete fuel tail l (inr cut) = elim (Bool-cases (ltb (length tail) 2)) [
    | inl short ↦ rw (short, decrypt_frames)
    | inr long ↦ rw (long, lt→ltb (length tail) (2 + of_le (take 2 tail) + 16) cut, decrypt_frames)
  ]
