-- ===== src/Opack/Pooling.antt =====
-- `OPACK.encode` on a pool whose buffers have the size of their bucket: the bytes of the packing without
-- a pool. The elements of arrays and objects have at most 256 bytes here, so that a writer that has too
-- little room only doubles.
use bunatv.Prelude.{
  ℕ, ◌+◌, ◌≤◌, ◌≡◌, refl, ap, ◌∙◌, sym, List, [], ◌∷◌, ◌++◌, min, inl, inr, arith, Result, ok, ltb,
  leb, le→leb, Bool-cases, length, length-append, append-nil,
}
use bunatv.Buffers.Writer.{BufferWriter, to_buffer}
use bunatv.Buffers.Pool.{BufferPool, write_uint, write_bytes, new_writer}
use bunatv.Buffers.Pool.Sound.{IsSound, IsSound-acquire}
use bunatv.Buffers.Pool.Growth.{IsRegular, Wrote, Wrote-write}
use bunatv.Opack.Value.{
  Value, null, boolean, number, negative, bigint, negative_bigint, double, str, buffer, arr, dict,
  Items, nil, cons, Fields, end, field,
}
use bunatv.Opack.Pack
use bunatv.Opack.Pack.{Packed, check_and_reuse, enclose, pack_bytes}
use bunatv.Prelude.Bytes.{to_le, length-to_le}
use bunatv.Opack.Pooled.{PooledBytes, opack_pool, pack_key, pack_buffer, open_group, finish}
use bunatv.Opack.Texts.{Regular, opack_pool-Doubling, length-check_and_reuse, Texts-pack_string}

-- A bound on the bytes that a value takes: a text or a buffer five more than its own, an array or an
-- object two more than its elements, any other value nine, and an integer five.
unfoldable mutual
  pub packed_size : Value → ℕ
  packed_size (number n) = 5
  packed_size (str s) = 5 + length s
  packed_size (buffer data_bytes) = 5 + length data_bytes
  packed_size (arr xs) = 2 + packed_size_items xs
  packed_size (dict fs) = 2 + packed_size_fields fs
  packed_size v = 9

  pub packed_size_items : Items → ℕ
  packed_size_items nil = 0
  packed_size_items (cons x xs) = packed_size x + packed_size_items xs

  pub packed_size_fields : Fields → ℕ
  packed_size_fields end = 0
  packed_size_fields (field k v fs) = 5 + length k + (packed_size v + packed_size_fields fs)

-- Values of which every array element, key and value takes at most 256 bytes.
abbrev mutual
  pub IsSmall : Value → Type 0
  IsSmall null = Unit
  IsSmall (boolean b) = Unit
  IsSmall (number n) = n ≤ 0xffffffff
  IsSmall (str s) = length s ≤ 0xffff
  IsSmall (buffer data_bytes) = length data_bytes ≤ 0xffff
  IsSmall (arr xs) = IsSmallItems xs
  IsSmall (dict fs) = IsSmallFields fs
  IsSmall (negative n) = ⊥
  IsSmall (bigint n) = ⊥
  IsSmall (negative_bigint n) = ⊥
  IsSmall (double bits) = ⊥

  pub IsSmallItems : Items → Type 0
  IsSmallItems nil = Unit
  IsSmallItems (cons x xs) = (packed_size x ≤ 256) × IsSmall x × IsSmallItems xs

  pub IsSmallFields : Fields → Type 0
  IsSmallFields end = Unit
  IsSmallFields (field k v fs) =
      (length k ≤ 251) × (packed_size v ≤ 256) × IsSmall v × IsSmallFields fs

-- The same bytes and objects without the pool and on it.
pub record Pools (limit : ℕ) (plain : Result Packed) (pooled : Result PooledBytes) : Type 0 where
  pub packed : List ℕ
  pub objects : List (List ℕ)
  pub pool' : BufferPool
  pub plain_ok : plain ≡ ok (packed, objects)
  pub pooled_ok : pooled ≡ ok (packed, objects, pool')
  pub sound : IsSound pool'
  pub short : length packed ≤ limit

-- The elements of an array or an object, written behind what the writer has.
pub record PoolsGroup (limit : ℕ) (w : BufferWriter) (plain : Result Packed)
    (pooled : Result (BufferWriter × List (List ℕ) × BufferPool)) : Type 0 where
  pub body : List ℕ
  pub objects : List (List ℕ)
  pub writer : BufferWriter
  pub pool' : BufferPool
  pub plain_ok : plain ≡ ok (body, objects)
  pub pooled_ok : pooled ≡ ok (writer, objects, pool')
  pub shown : to_buffer writer ≡ to_buffer w ++ body
  pub is_regular : IsRegular Regular writer
  pub sound : IsSound pool'
  pub short : length body ≤ limit

pub length-enclose :
    (first count : ℕ) (body : List ℕ) → length (enclose first count body) ≤ 2 + length body
unfolding enclose
length-enclose first count body = elim (Bool-cases (ltb count 0xf)) [
  | inl short ↦ rw short (omega (arith, length-append body []))
  | inr long ↦ rw long (omega (arith, length-append body (0x03 ∷ [])))
]

length-pack_bytes :
    (data_bytes : List ℕ)
    → length data_bytes ≤ 0xffff
    → (packed : List ℕ) × (pack_bytes data_bytes ≡ ok packed)
      × (length packed ≤ 3 + length data_bytes)
unfolding pack_bytes
length-pack_bytes data_bytes h = elim (Bool-cases (leb (length data_bytes) 0x20)) [
  | inl short ↦ ((0x70 + length data_bytes) ∷ data_bytes, rw short refl, omega arith)
  | inr over ↦ elim (Bool-cases (leb (length data_bytes) 0xff)) [
    | inl byte ↦ (0x91 ∷ length data_bytes ∷ data_bytes, rw (over, byte) refl, omega arith)
    | inr word ↦ (
      0x92 ∷ (to_le 2 (length data_bytes) ++ data_bytes),
      rw (over, word, le→leb (length data_bytes) 0xffff h) refl,
      omega (
        arith,
        length-append (to_le 2 (length data_bytes)) data_bytes,
        length-to_le 2 (length data_bytes),
      ),
    )
  ]
]

module _ (allocate : ℕ → List ℕ) (allocate_length : (n : ℕ) → length (allocate n) ≡ n) where
  abbrev pub appended :
      (source : List ℕ) (w : BufferWriter) (pool : BufferPool)
      → length source ≤ 256
      → IsRegular Regular w
      → IsSound pool
      → Wrote opack_pool allocate allocate_length 256 Regular opack_pool-Doubling
          (write_bytes source)
          w
          pool
  appended source w pool h v sound =
      Wrote-write opack_pool allocate allocate_length 256 Regular opack_pool-Doubling
        (write_bytes source) w pool h v sound

  pub record Opened (first count : ℕ) (pool : BufferPool) : Type 0 where
    pub writer : BufferWriter
    pub pool' : BufferPool
    pub is_ok : open_group allocate first count pool ≡ ok (writer, pool')
    pub shown : to_buffer writer ≡ (first + min count 0xf) ∷ []
    pub is_regular : IsRegular Regular writer
    pub sound : IsSound pool'

  pub Opened-open_group :
      (first count : ℕ) (pool : BufferPool) → IsSound pool → Opened first count pool
  unfolding open_group new_writer to_buffer
  Opened-open_group first count pool sound =
      let (exact, sound') = IsSound-acquire opack_pool allocate allocate_length 256 pool sound in
      let x =
        Wrote-write opack_pool allocate allocate_length 256 Regular opack_pool-Doubling
          (write_uint ((first + min count 0xf) ∷ [])) (new_writer opack_pool allocate 256 pool).0
          (new_writer opack_pool allocate 256 pool).1 (omega arith)
          (record { within = omega arith; size = inl exact }) sound' in
      record {
        writer = x.writer;
        pool' = x.pool';
        is_ok = x.is_ok;
        shown = x.shown;
        is_regular = x.is_regular;
        sound = x.sound;
      }

  pub record Finished (first count : ℕ) (body : List ℕ) (w : BufferWriter) (pool : BufferPool)
      : Type 0 where
    pub pool' : BufferPool
    pub is_ok : finish allocate count w pool ≡ ok (enclose first count body, pool')
    pub sound : IsSound pool'

  pub Finished-finish :
      (first count : ℕ) (body : List ℕ) (w : BufferWriter) (pool : BufferPool)
      → to_buffer w ≡ (first + min count 0xf) ∷ body
      → IsRegular Regular w
      → IsSound pool
      → Finished first count body w pool
  unfolding finish enclose
  Finished-finish first count body w pool shown v sound = elim (Bool-cases (ltb count 0xf)) [
    | inl short ↦ record {
      pool' = pool;
      is_ok =
          rw (short, shown)
            (ap (λ b. ok ((first + min count 0xf) ∷ b, pool)) (sym (append-nil body)));
      sound = sound;
    }
    | inr long ↦
        let x =
          Wrote-write opack_pool allocate allocate_length 256 Regular opack_pool-Doubling
            (write_uint (0x03 ∷ [])) w pool (omega arith) v sound in
        record {
          pool' = x.pool';
          is_ok =
              rw (long, x.is_ok)
                (ap (λ b. ok (b, x.pool')) (x.shown ∙ ap (λ front. front ++ 0x03 ∷ []) shown));
          sound = x.sound;
        }
  ]

  pub Pools-pack_key :
      (s : List ℕ) (objects : List (List ℕ)) (pool : BufferPool)
      → length s ≤ 0xffff
      → IsSound pool
      → Pools (5 + length s) (Pack.pack_key s objects) (pack_key allocate s objects pool)
  unfolding Pack.pack_key pack_key
  Pools-pack_key s objects pool h sound =
      let t = Texts-pack_string allocate allocate_length s pool h sound in
      record {
        packed = (check_and_reuse t.packed objects).0;
        objects = (check_and_reuse t.packed objects).1;
        pool' = t.pool';
        plain_ok = rw (t.plain_ok) refl;
        pooled_ok = rw (t.pooled_ok) refl;
        sound = t.sound;
        short = omega (arith, t.short, length-check_and_reuse t.packed objects);
      }

  pub Pools-pack_buffer :
      (data_bytes : List ℕ) (objects : List (List ℕ)) (pool : BufferPool)
      → length data_bytes ≤ 0xffff
      → IsSound pool
      → Pools
          (5 + length data_bytes)
          (Pack.pack_buffer data_bytes objects)
          (pack_buffer allocate data_bytes objects pool)
  unfolding Pack.pack_buffer pack_buffer
  Pools-pack_buffer data_bytes objects pool h sound =
      let (packed, e, short) = length-pack_bytes data_bytes h in
      record {
        packed = (check_and_reuse packed objects).0;
        objects = (check_and_reuse packed objects).1;
        pool' = pool;
        plain_ok = rw e refl;
        pooled_ok = rw e refl;
        sound = sound;
        short = omega (arith, short, length-check_and_reuse packed objects);
      }
