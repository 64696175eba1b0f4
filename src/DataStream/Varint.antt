-- ===== src/DataStream/Varint.antt =====
-- `writeVarint` and `readVarint` of protocols/airplay/layers/DataStreamChannel.ts. Their bit operations
-- work on 32 bits: `>>>` leaves an unsigned number, `|` and `<<` a signed one, and `<<` by 35 is by 3.
use bunatv.Prelude.{
  ℕ, zero, suc, ◌+◌, ◌*◌, ◌/◌, ◌%◌, ◌^◌, ◌<◌, ◌≤◌, ◌≡◌, refl, ap, ap₂, ◌∙◌, List, [], ◌∷◌, ◌++◌,
  arith, bit_or, Option, none, some, ◌⊎◌, ltb, le→ltb, lt→ltb, ltb→lt, ltb→ge, Bool-cases, inl, inr,
  if◌then◌else◌, length,
}
use native.Mathlib.Nat.{
  mul-le-mul_left, mul-le-mul_right, two-pow-succ, pow-le-pow_right, one-le-pow,
}
use bunatv.Prelude.Int.{ℤ, pos, int32, int32_small, bit_or_add}

-- The number falls to less than its 128th part in each round, so it is fuel enough; the last byte is
-- what is left.
unfoldable pub write_rounds : ℕ → ℕ → List ℕ
write_rounds zero value = value ∷ []
write_rounds (suc fuel) value =
    let rest = write_rounds fuel ((value % 2 ^ 32) / 128) in
    if ltb 0x7f value then (value % 128 + 0x80) ∷ rest else value ∷ []

unfoldable pub write_varint : ℕ → List ℕ
write_varint value = write_rounds value value

write_rounds-nonempty : (fuel value : ℕ) → 0 < length (write_rounds fuel value)
unfolding write_rounds
write_rounds-nonempty zero value = omega arith
write_rounds-nonempty (suc fuel) value = elim (Bool-cases (ltb 0x7f value)) [
  | inl more ↦ rw more (omega arith)
  | inr last ↦ rw last (omega arith)
]

pub write_varint-nonempty : (value : ℕ) → 0 < length (write_varint value)
unfolding write_varint
write_varint-nonempty value = write_rounds-nonempty value value

-- The loop on the bytes from the offset on, with the rounds that are left before the shift passes 35:
-- the word and how many bytes were read, or `none` for both errors.
unfoldable pub read_rounds : ℕ → ℕ → ℕ → ℕ → List ℕ → Option (ℕ × ℕ)
read_rounds zero shift word count bytes = none
read_rounds (suc rounds) shift word count [] = none
read_rounds (suc rounds) shift word count (b ∷ bs) =
    let word' = bit_or word ((b % 128 * 2 ^ (shift % 32)) % 2 ^ 32) in
    let rest = read_rounds rounds (shift + 7) word' (count + 1) bs in
    if ltb b 0x80 then some (word', count + 1) else rest

unfoldable pub signed_value : Option (ℕ × ℕ) → Option (ℤ × ℕ)
signed_value none = none
signed_value (some (word, count)) = some (int32 word, count)

unfoldable pub read_varint : List ℕ → Option (ℤ × ℕ)
unfolding signed_value
read_varint bytes = signed_value (read_rounds 6 0 0 0 bytes)

regroup : (q r p : ℕ) → r * p + q * (128 * p) ≡ (128 * q + r) * p
regroup q r p = grind arith

module _ (k value : ℕ) where
  pow_seven : 2 ^ (k + 7) ≡ 128 * 2 ^ k
  pow_seven =
      let e : k + 7 ≡ suc (suc (suc (suc (suc (suc (suc k)))))) = omega arith in
      rw e (
        omega (
          arith,
          two-pow-succ k,
          two-pow-succ (suc k),
          two-pow-succ (suc (suc k)),
          two-pow-succ (suc (suc (suc k))),
          two-pow-succ (suc (suc (suc (suc k)))),
          two-pow-succ (suc (suc (suc (suc (suc k))))),
          two-pow-succ (suc (suc (suc (suc (suc (suc k)))))),
        ))

  low_bits : value % 128 * 2 ^ k + value / 128 * 2 ^ (k + 7) ≡ value * 2 ^ k
  low_bits =
      rw pow_seven (regroup (value / 128) (value % 128) (2 ^ k) ∙ ap (λ v. v * 2 ^ k) (omega arith))

  low_small : value % 128 * 2 ^ k ≤ value * 2 ^ k
  low_small = mul-le-mul_right (2 ^ k) (omega arith)

low_seven : (value : ℕ) → value % 128 ≤ 127
low_seven value = omega arith

-- The word after one byte, while the bits fit.
word_lem :
    (k word b : ℕ)
    → word < 2 ^ k
    → k < 32
    → b % 128 * 2 ^ k < 2 ^ 32
    → bit_or word ((b % 128 * 2 ^ (k % 32)) % 2 ^ 32) ≡ word + b % 128 * 2 ^ k
word_lem k word b fits small bound =
    let e : k % 32 ≡ k = omega arith in
    let f : b % 128 * 2 ^ k % 2 ^ 32 ≡ b % 128 * 2 ^ k = omega arith in
    rw (e, f) (bit_or_add k word (b % 128) fits)

room : (k value : ℕ) → (k ≡ 0) ⊎ (0 < value) → value * 2 ^ k < 2 ^ 31 → k < 31
room k value h bound = elim (Bool-cases (ltb k 31)) [
  | inl low ↦ ltb→lt k 31 low
  | inr high ↦ elim h [
    | inl none_yet ↦ omega arith
    | inr positive ↦
        let above : 31 ≤ k = ltb→ge k 31 high in
        let large : 2 ^ 31 ≤ 2 ^ k = pow-le-pow_right (omega arith) above in
        let larger : 1 * 2 ^ k ≤ value * 2 ^ k = mul-le-mul_right (2 ^ k) positive in
        absurd (omega arith)
  ]
]

read_rounds-last :
    (rounds k word count b : ℕ) (rest : List ℕ)
    → b ≤ 0x7f
    → word < 2 ^ k
    → k < 32
    → b * 2 ^ k < 2 ^ 31
    → read_rounds (suc rounds) k word count (b ∷ rest) ≡ some (word + b * 2 ^ k, count + 1)
unfolding read_rounds
read_rounds-last rounds k word count b rest small fits low bound =
    let e : b % 128 ≡ b = omega arith in
    rw (lt→ltb b 0x80 (omega arith), word_lem k word b fits low (rw e (omega arith)), e)

read_rounds-more :
    (rounds k word count value : ℕ) (rest : List ℕ)
    → word < 2 ^ k
    → k < 32
    → value * 2 ^ k < 2 ^ 31
    → read_rounds (suc rounds) k word count ((value % 128 + 0x80) ∷ rest)
      ≡ read_rounds rounds (k + 7) (word + value % 128 * 2 ^ k) (count + 1) rest
unfolding read_rounds
read_rounds-more rounds k word count value rest fits low bound =
    let e : (value % 128 + 0x80) % 128 ≡ value % 128 = omega arith in
    rw (
      le→ltb (value % 128 + 0x80) 0x80 (omega arith),
      word_lem k word (value % 128 + 0x80) fits low (rw e (omega (arith, low_small k value))),
      e,
    )

-- What was written is read, from a round on whose shift leaves room for the value.
read_rounds-write_rounds :
    (rounds fuel k word count value : ℕ) (rest : List ℕ)
    → k + 7 * rounds ≡ 42
    → value ≤ fuel
    → (k ≡ 0) ⊎ (0 < value)
    → word < 2 ^ k
    → value * 2 ^ k < 2 ^ 31
    → read_rounds rounds k word count (write_rounds fuel value ++ rest)
      ≡ some (word + value * 2 ^ k, count + length (write_rounds fuel value))
unfolding write_rounds
read_rounds-write_rounds zero fuel k word count value rest e h positive fits bound =
    absurd (omega (arith, room k value positive bound))
read_rounds-write_rounds (suc rounds) zero k word count value rest e h positive fits bound =
    read_rounds-last rounds k word count value rest (omega arith) fits
      (omega (arith, room k value positive bound)) bound
read_rounds-write_rounds (suc rounds) (suc fuel) k word count value rest e h positive fits bound =
    let low : k < 31 = room k value positive bound in
    elim (Bool-cases (ltb 0x7f value)) [
      | inl more ↦
          let small : value < 2 ^ 31 =
            omega (arith, mul-le-mul_left value (one-le-pow k 2 (omega arith))) in
          let next : (value % 2 ^ 32) / 128 ≡ value / 128 = omega arith in
          rw (more, next)
            (read_rounds-more rounds k word count value (write_rounds fuel (value / 128) ++ rest)
                fits (omega arith) bound
              ∙ read_rounds-write_rounds rounds fuel (k + 7) (word + value % 128 * 2 ^ k)
                  (count + 1) (value / 128) rest (omega arith) (omega arith)
                  (inr (omega (arith, ltb→lt 0x7f value more)))
                  (omega (arith, pow_seven k value, mul-le-mul_right (2 ^ k) (low_seven value)))
                  (omega (arith, low_bits k value))
              ∙ ap₂ (λ w c. some (w, c)) (omega (arith, low_bits k value)) (omega arith))
      | inr last ↦ rw last (
          read_rounds-last rounds k word count value rest (omega (arith, ltb→ge 0x7f value last))
            fits (omega arith) bound)
    ]

-- A length below 2 ^ 31 is read back as it was written, with the number of its bytes, whatever follows.
pub read_varint-write_varint :
    (value : ℕ) (rest : List ℕ)
    → value < 2 ^ 31
    → read_varint (write_varint value ++ rest) ≡ some (pos value, length (write_varint value))
unfolding read_varint write_varint
read_varint-write_varint value rest h =
    rw
      (read_rounds-write_rounds 6 value 0 0 0 value rest refl (omega arith) (inl refl) (omega arith)
        (omega arith))
      (ap₂ (λ w c. some (int32 w, c)) (omega arith) (omega arith)
        ∙ ap (λ v. some (v, length (write_rounds value value))) (int32_small value h))
