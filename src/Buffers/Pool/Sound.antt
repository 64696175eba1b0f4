-- ===== src/Buffers/Pool/Sound.antt =====
-- Pools whose buffers have the size of their bucket, core/encoding/buffer-utils.ts: with them
-- `BufferWriter` loses nothing, and they stay such pools while buffers grow by doubling.
use bunatv.Prelude.{
  ℕ, ◌≤◌, ◌≡◌, refl, ◌∙◌, sym, subst, List, [], ◌∷◌, inl, inr, ◌⊎◌, arith, false, All, ltb, leb,
  ==_iff, Bool-cases, length, if◌then◌else◌, take, ◌==◌, leb→le, length-take_le,
}
use bunatv.Buffers.Pool.{
  BufferPoolConfig, BufferPool, set_bucket, get_bucket_size, acquire, release,
}

pub size-get_bucket_size : (buckets : List ℕ) (size : ℕ) → size ≤ get_bucket_size buckets size
unfolding get_bucket_size
size-get_bucket_size [] size = omega arith
size-get_bucket_size (bucket ∷ buckets) size = elim (Bool-cases (leb size bucket)) [
  | inl fits ↦ rw fits (leb→le size bucket fits)
  | inr over ↦ rw over (size-get_bucket_size buckets size)
]

-- Buffers of one size.
abbrev pub HaveLength : ℕ → List (List ℕ) → Type 0
HaveLength size = All (λ buffer. length buffer ≡ size)

-- Every buffer has the size of its bucket.
pub record IsSound (pool : BufferPool) : Type 0 where
  pub sizes : (bucket : ℕ) → HaveLength bucket (pool bucket)

pub IsSound-set_bucket :
    (bucket : ℕ) (buffers : List (List ℕ)) (pool : BufferPool)
    → IsSound pool
    → HaveLength bucket buffers
    → IsSound (set_bucket bucket buffers pool)
unfolding set_bucket
IsSound-set_bucket bucket buffers pool v h = record {
  sizes = λ b. elim (Bool-cases (b == bucket)) [
    | inl same ↦
        rw same (subst (λ size. HaveLength size buffers) (sym ((==_iff b bucket).0 same)) h)
    | inr other ↦ rw other (v.sizes b)
  ];
}

List-cases :
    (xs : List (List ℕ)) → (xs ≡ []) ⊎ ((y : List ℕ) × (ys : List (List ℕ)) × (xs ≡ y ∷ ys))
List-cases [] = inl refl
List-cases (y ∷ ys) = inr (y, ys, refl)

module _ (config : BufferPoolConfig) (allocate : ℕ → List ℕ)
    (allocate_length : (n : ℕ) → length (allocate n) ≡ n) where
  acquire_empty :
      (size : ℕ) (pool : BufferPool)
      → pool (get_bucket_size config.size_buckets size) ≡ []
      → acquire config allocate size pool ≡ (allocate size, pool)
  unfolding acquire
  acquire_empty size pool e = rw (e, acquire)

  acquire_found :
      (size : ℕ) (pool : BufferPool) (buffer : List ℕ) (others : List (List ℕ))
      → pool (get_bucket_size config.size_buckets size) ≡ buffer ∷ others
      → acquire config allocate size pool ≡ (
        if size == get_bucket_size config.size_buckets size then buffer else take size buffer,
        set_bucket (get_bucket_size config.size_buckets size) others pool,
      )
  unfolding acquire
  acquire_found size pool buffer others e = rw (e, acquire)

  IsFor : ℕ → List ℕ × BufferPool → Type 0
  IsFor size (buffer, pool) = (length buffer ≡ size) × IsSound pool

  length-handed_out :
      (size bucket : ℕ) (buffer : List ℕ)
      → size ≤ bucket
      → length buffer ≡ bucket
      → length (if size == bucket then buffer else take size buffer) ≡ size
  length-handed_out size bucket buffer large e = elim (Bool-cases (size == bucket)) [
    | inl same ↦ rw same (e ∙ sym ((==_iff size bucket).0 same))
    | inr other ↦ rw other (length-take_le size buffer (omega (arith, large, e)))
  ]

  -- A sound pool hands out what was asked for.
  pub IsSound-acquire :
      (size : ℕ) (pool : BufferPool)
      → IsSound pool
      → (length (acquire config allocate size pool).0 ≡ size)
        × IsSound (acquire config allocate size pool).1
  unfolding IsFor
  IsSound-acquire size pool v =
      let bucket = get_bucket_size config.size_buckets size in
      let large = size-get_bucket_size config.size_buckets size in
      elim (List-cases (pool bucket)) [
        | inl none_left ↦
            subst (IsFor size) (sym (acquire_empty size pool none_left)) (allocate_length size, v)
        | inr (buffer, others, e) ↦
            let (first, rest) = subst (HaveLength bucket) e (v.sizes bucket) in
            subst (IsFor size) (sym (acquire_found size pool buffer others e)) (
              length-handed_out size bucket buffer large first,
              IsSound-set_bucket bucket others pool v rest,
            )
      ]

  -- A buffer whose length is a bucket size may be released.
  pub IsSound-release :
      (buffer : List ℕ) (pool : BufferPool)
      → config.clear_on_release ≡ false
      → IsSound pool
      → get_bucket_size config.size_buckets (length buffer) ≡ length buffer
      → IsSound (release config allocate buffer pool)
  unfolding release
  IsSound-release buffer pool uncleared v e =
      let bucket = get_bucket_size config.size_buckets (length buffer) in
      elim (Bool-cases (ltb (length (pool bucket)) config.max_per_bucket)) [
        | inl room ↦
            rw (uncleared, room)
              (IsSound-set_bucket bucket (buffer ∷ pool bucket) pool v (sym e, v.sizes bucket))
        | inr full ↦ rw full v
      ]
