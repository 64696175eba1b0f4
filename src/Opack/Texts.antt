-- ===== src/Opack/Texts.antt =====
-- Texts, numbers and references of core/encoding/opack.ts on a pool whose buffers have the size of their
-- bucket: `packString`, `packInteger` and `checkAndReuseObject`.
use bunatv.Prelude.{
  ℕ, ◌+◌, ◌≤◌, ◌≡◌, refl, ap, ◌∙◌, List, [], ◌∷◌, ◌++◌, inl, inr, ◌⊎◌, arith, some, Result, ok, max,
  ltb, leb, le→leb, Bool-cases, Option-cases, length, length-append, append-nil,
}
use bunatv.Prelude.Bytes.{to_le, length-to_le}
use bunatv.Buffers.Writer.{copy_at, take-copy_at, length-copy_at}
use bunatv.Buffers.Pool.{BufferPool, write_uint, write_bytes, acquire, get_bucket_size}
use bunatv.Buffers.Pool.Sound.{IsSound, IsSound-acquire}
use bunatv.Buffers.Pool.Writes.{copy_truncated_lem, joined, written_lem}
use bunatv.Buffers.Pool.Growth.{Doubling}
use bunatv.Opack.Pack
use bunatv.Opack.Pack.{check_and_reuse, known_reference, reference}
use bunatv.Opack.Pooled.{opack_pool, pack_integer, pack_string, short_string}

-- The lengths of the writers of arrays and objects while they only double.
abbrev pub Regular : ℕ → Type 0
Regular n = (n ≡ 256) ⊎ ((n ≡ 512) ⊎ (1024 ≤ n))

pub opack_pool-Doubling : Doubling opack_pool 256 Regular
unfolding get_bucket_size
opack_pool-Doubling = record {
  is_bucket = λ n h. ground arith;
  twice = λ n h. ground arith;
  large = λ n h. ground arith;
  uncleared = refl;
}

short_string_lem :
    (s memory : List ℕ)
    → length memory ≡ 1 + length s
    → short_string s memory ≡ (0x40 + length s) ∷ s
unfolding short_string
short_string_lem s memory e =
    let first = (0x40 + length s) ∷ [] in
    let one = copy_at memory 0 first in
    let same = length-copy_at memory 0 first (omega (arith, e)) in
    rw
      (
        copy_truncated_lem memory 0 first (omega (arith, e)),
        copy_truncated_lem one 1 s (omega (arith, e, same)),
        take-copy_at (1 + length s) one 1 s (omega (arith, e, same)) refl,
        take-copy_at 1 memory 0 first (omega arith) refl,
      )
      refl

length-reference : (i : ℕ) (ref : List ℕ) → reference i ≡ some ref → length ref ≤ 5
unfolding reference
length-reference i ref e = ground (arith, length-to_le 2 i, length-to_le 4 i)

length-known_reference :
    (packed : List ℕ) (objects : List (List ℕ)) (ref : List ℕ)
    → known_reference packed objects ≡ some ref
    → length ref ≤ 5
unfolding known_reference
length-known_reference packed objects ref e = elim (Option-cases (Pack.find_index packed objects)) [
  | inl missing ↦ absurd (ground (arith, missing, e))
  | inr (i, found) ↦ length-reference i ref (ground (arith, found, e))
]

-- A reference has at most five bytes.
pub length-check_and_reuse :
    (packed : List ℕ) (objects : List (List ℕ))
    → length (check_and_reuse packed objects).0 ≤ max 5 (length packed)
unfolding check_and_reuse
length-check_and_reuse packed objects = elim (Bool-cases (leb (length packed) 1)) [
  | inl short ↦ rw short (omega arith)
  | inr long ↦ elim (Option-cases (known_reference packed objects)) [
    | inl new ↦ rw (long, new) (omega arith)
    | inr (ref, known) ↦
        rw (long, known) (omega (arith, length-known_reference packed objects ref known))
  ]
]

module _ (allocate : ℕ → List ℕ) (allocate_length : (n : ℕ) → length (allocate n) ≡ n) where
  -- Packing without the pool and packing on it succeed with the same bytes, at most `limit`.
  pub record Texts (limit : ℕ) (pool : BufferPool) (plain : Result (List ℕ))
      (pooled : Result (List ℕ × BufferPool)) : Type 0 where
    pub packed : List ℕ
    pub pool' : BufferPool
    pub plain_ok : plain ≡ ok packed
    pub pooled_ok : pooled ≡ ok (packed, pool')
    pub sound : IsSound pool'
    pub short : length packed ≤ limit

  pub Texts-pack_string :
      (s : List ℕ) (pool : BufferPool)
      → length s ≤ 0xffff
      → IsSound pool
      → Texts (3 + length s) pool (Pack.pack_string s) (pack_string allocate s pool)
  unfolding Pack.pack_string pack_string joined
  Texts-pack_string s pool h sound = elim (Bool-cases (leb (length s) 0x20)) [
    | inl short ↦
        let (exact, sound') =
          IsSound-acquire opack_pool allocate allocate_length (1 + length s) pool sound in
        record {
          packed = (0x40 + length s) ∷ s;
          pool' = (acquire opack_pool allocate (1 + length s) pool).1;
          plain_ok = rw short refl;
          pooled_ok = rw (short, short_string_lem s _ exact) refl;
          sound = sound';
          short = omega arith;
        }
    | inr over ↦ elim (Bool-cases (leb (length s) 0xff)) [
      | inl byte ↦
          let writes = write_uint (0x61 ∷ []) ∷ write_uint (length s ∷ []) ∷ write_bytes s ∷ [] in
          let (pool', e, sound') =
            written_lem opack_pool allocate allocate_length (length s + 3) writes pool sound
              (rw (append-nil s) (omega arith)) in
          record {
            packed = 0x61 ∷ length s ∷ s;
            pool' = pool';
            plain_ok = rw (over, byte) refl;
            pooled_ok =
                rw (over, byte) (e ∙ ap (λ b. ok (0x61 ∷ length s ∷ b, pool')) (append-nil s));
            sound = sound';
            short = omega arith;
          }
      | inr word ↦
          let writes =
            write_uint (0x62 ∷ []) ∷ write_uint (to_le 2 (length s)) ∷ write_bytes s ∷ [] in
          let fits = le→leb (length s) 0xffff h in
          let size : length (to_le 2 (length s) ++ s) ≡ 2 + length s =
            omega (arith, length-append (to_le 2 (length s)) s, length-to_le 2 (length s)) in
          let (pool', e, sound') =
            written_lem opack_pool allocate allocate_length (length s + 3) writes pool sound
              (rw (append-nil s) (omega (arith, size))) in
          record {
            packed = 0x62 ∷ (to_le 2 (length s) ++ s);
            pool' = pool';
            plain_ok = rw (over, word, fits) refl;
            pooled_ok =
                rw (over, word, fits)
                  (e ∙ ap (λ b. ok (0x62 ∷ (to_le 2 (length s) ++ b), pool')) (append-nil s));
            sound = sound';
            short = omega (arith, size);
          }
    ]
  ]

  pub Texts-pack_integer :
      (n : ℕ) (pool : BufferPool)
      → n ≤ 0xffffffff
      → IsSound pool
      → Texts 5 pool (Pack.pack_integer n) (pack_integer allocate n pool)
  unfolding Pack.pack_integer pack_integer joined
  Texts-pack_integer n pool h sound = elim (Bool-cases (ltb n 0x28)) [
    | inl small ↦ record {
      packed = (n + 0x08) ∷ [];
      pool' = pool;
      plain_ok = rw small refl;
      pooled_ok = rw small refl;
      sound = sound;
      short = omega arith;
    }
    | inr over ↦ elim (Bool-cases (leb n 0xff)) [
      | inl byte ↦
          let writes = write_uint (0x30 ∷ []) ∷ write_uint (n ∷ []) ∷ [] in
          let (pool', e, sound') =
            written_lem opack_pool allocate allocate_length 5 writes pool sound (omega arith) in
          record {
            packed = 0x30 ∷ n ∷ [];
            pool' = pool';
            plain_ok = rw (over, byte) refl;
            pooled_ok = rw (over, byte) e;
            sound = sound';
            short = omega arith;
          }
      | inr word ↦ elim (Bool-cases (leb n 0xffff)) [
        | inl two ↦
            let writes = write_uint (0x31 ∷ []) ∷ write_uint (to_le 2 n) ∷ [] in
            let size : length (to_le 2 n) ≡ 2 = length-to_le 2 n in
            let (pool', e, sound') =
              written_lem opack_pool allocate allocate_length 5 writes pool sound
                (omega (arith, size, length-append (to_le 2 n) [])) in
            record {
              packed = 0x31 ∷ to_le 2 n;
              pool' = pool';
              plain_ok = rw (over, word, two) refl;
              pooled_ok =
                  rw (over, word, two)
                    (e ∙ ap (λ b. ok (0x31 ∷ b, pool')) (append-nil (to_le 2 n)));
              sound = sound';
              short = omega (arith, size);
            }
        | inr four ↦
            let writes = write_uint (0x32 ∷ []) ∷ write_uint (to_le 4 n) ∷ [] in
            let size : length (to_le 4 n) ≡ 4 = length-to_le 4 n in
            let fits = le→leb n 0xffffffff h in
            let (pool', e, sound') =
              written_lem opack_pool allocate allocate_length 5 writes pool sound
                (omega (arith, size, length-append (to_le 4 n) [])) in
            record {
              packed = 0x32 ∷ to_le 4 n;
              pool' = pool';
              plain_ok = rw (over, word, four, fits) refl;
              pooled_ok =
                  rw (over, word, four, fits)
                    (e ∙ ap (λ b. ok (0x32 ∷ b, pool')) (append-nil (to_le 4 n)));
              sound = sound';
              short = omega (arith, size);
            }
      ]
    ]
  ]
