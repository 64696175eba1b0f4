-- ===== src/Opack/Pooled.antt =====
-- The encoder of core/encoding/opack.ts on its pool of buffers, `opackPool`, which is handed on
-- explicitly. What an exception leaves of the pool is not kept.
use bunatv.Prelude.{
  ℕ, ◌+◌, ◌*◌, ◌/◌, ◌%◌, ◌^◌, min, List, [], ◌∷◌, false, Result, ok, err, integer_too_large,
  string_too_long, ◌>>=◌, ltb, leb, if◌then◌else◌, length, take,
}
use bunatv.Prelude.Bytes.{to_le}
use bunatv.Buffers.Writer.{BufferWriter, to_buffer}
use bunatv.Buffers.Pool.{
  BufferPoolConfig, BufferPool, Write, write_uint, write_bytes, acquire, copy_truncated, written,
  new_writer, write,
}
use bunatv.Opack.Value.{
  Value, null, boolean, number, negative, bigint, negative_bigint, double, str, buffer, arr, dict,
  Items, nil, cons, Fields, end, field, count_items, count_fields,
}
use bunatv.Opack.Pack.{pack_bytes, check_and_reuse}

abbrev pub opack_pool : BufferPoolConfig
opack_pool = record {
  size_buckets = 4 ∷ 8 ∷ 16 ∷ 32 ∷ 64 ∷ 128 ∷ 256 ∷ 512 ∷ 1024 ∷ [];
  max_per_bucket = 5;
  clear_on_release = false;
}

-- The packed bytes, the list of objects and the pool behind them.
abbrev pub PooledBytes : Type 0
PooledBytes = List ℕ × List (List ℕ) × BufferPool

-- The writes of the eight bytes, the lowest first.
unfoldable pub bigint_writes : ℕ → List ℕ → List Write
bigint_writes v [] = []
bigint_writes v (i ∷ is) = write_uint ((v / 2 ^ (i * 8) % 256) ∷ []) ∷ bigint_writes v is

-- `buffer[0] = 0x40 + len; encoded.copy(buffer, 1)`
unfoldable pub short_string : List ℕ → List ℕ → List ℕ
short_string encoded memory =
    let len = length encoded in
    take (1 + len) (copy_truncated (copy_truncated memory 0 ((0x40 + len) ∷ [])) 1 encoded)

module _ (allocate : ℕ → List ℕ) where
  -- `packInteger` of a value that is not negative.
  unfoldable pub pack_integer : ℕ → BufferPool → Result (List ℕ × BufferPool)
  pack_integer v pool =
      if ltb v 0x28
      then ok ((v + 0x08) ∷ [], pool)
      else if leb v 0xff
      then written opack_pool allocate 5 (write_uint (0x30 ∷ []) ∷ write_uint (v ∷ []) ∷ []) pool
      else if leb v 0xffff
      then written opack_pool allocate 5 (write_uint (0x31 ∷ []) ∷ write_uint (to_le 2 v) ∷ []) pool
      else if leb v 0xffffffff
      then written opack_pool allocate 5 (write_uint (0x32 ∷ []) ∷ write_uint (to_le 4 v) ∷ []) pool
      else err integer_too_large

  unfoldable pub pack_float : ℕ → BufferPool → Result (List ℕ × BufferPool)
  pack_float bits =
      written opack_pool allocate 8 (write_uint (0x36 ∷ []) ∷ write_uint (to_le 8 bits) ∷ [])

  unfoldable pub pack_bigint : ℕ → BufferPool → Result (List ℕ × BufferPool)
  unfolding bigint_writes
  pack_bigint v pool =
      if ltb 0xffffffffffffffff v
      then err integer_too_large
      else written opack_pool allocate 9
          (write_uint (0x33 ∷ []) ∷ bigint_writes v (0 ∷ 1 ∷ 2 ∷ 3 ∷ 4 ∷ 5 ∷ 6 ∷ 7 ∷ [])) pool

  unfoldable pub pack_string : List ℕ → BufferPool → Result (List ℕ × BufferPool)
  unfolding short_string
  pack_string encoded pool =
      let len = length encoded in
      if leb len 0x20
      then ok (
        short_string encoded (acquire opack_pool allocate (1 + len) pool).0,
        (acquire opack_pool allocate (1 + len) pool).1,
      )
      else if leb len 0xff
      then written opack_pool allocate (len + 3)
          (write_uint (0x61 ∷ []) ∷ write_uint (len ∷ []) ∷ write_bytes encoded ∷ []) pool
      else if leb len 0xffff
      then written opack_pool allocate (len + 3)
          (write_uint (0x62 ∷ []) ∷ write_uint (to_le 2 len) ∷ write_bytes encoded ∷ []) pool
      else err string_too_long

  unfoldable pub pack_key : List ℕ → List (List ℕ) → BufferPool → Result PooledBytes
  unfolding pack_string
  pack_key s objects pool = do
    (packed, pool') ← pack_string s pool
    let (reused, objects') = check_and_reuse packed objects
    ok (reused, objects', pool')

  unfoldable pub pack_buffer : List ℕ → List (List ℕ) → BufferPool → Result PooledBytes
  pack_buffer data_bytes objects pool = do
    packed ← pack_bytes data_bytes
    let (reused, objects') = check_and_reuse packed objects
    ok (reused, objects', pool)

  -- The terminator, behind 15 elements and more, and `toBuffer`.
  unfoldable pub finish : ℕ → BufferWriter → BufferPool → Result (List ℕ × BufferPool)
  finish count w pool = if ltb count 0xf then ok (to_buffer w, pool) else (do
    (w', pool') ← write opack_pool allocate (write_uint (0x03 ∷ [])) w pool
    ok (to_buffer w', pool'))

  -- `new BufferWriter(256, opackPool)` and the header byte.
  unfoldable pub open_group : ℕ → ℕ → BufferPool → Result (BufferWriter × BufferPool)
  open_group first count pool =
      write opack_pool allocate (write_uint ((first + min count 0xf) ∷ []))
        (new_writer opack_pool allocate 256 pool).0 (new_writer opack_pool allocate 256 pool).1

  unfoldable mutual
    pub pack_value : Value → List (List ℕ) → BufferPool → Result PooledBytes
    pack_value null objects pool = ok (0x04 ∷ [], objects, pool)
    pack_value (boolean b) objects pool = ok ((if b then 0x01 else 0x02) ∷ [], objects, pool)
    pack_value (bigint n) objects pool = do
      (packed, pool') ← pack_bigint n pool
      ok (packed, objects, pool')
    pack_value (negative_bigint n) objects pool = err integer_too_large
    pack_value (number n) objects pool = do
      (packed, pool') ← pack_integer n pool
      ok (packed, objects, pool')
    pack_value (negative n) objects pool = err integer_too_large
    pack_value (double bits) objects pool = do
      (packed, pool') ← pack_float bits pool
      ok (packed, objects, pool')
    pack_value (str s) objects pool = pack_key s objects pool
    pack_value (buffer data_bytes) objects pool = pack_buffer data_bytes objects pool
    pack_value (arr xs) objects pool = do
      (w, pool₁) ← open_group 0xd0 (count_items xs) pool
      (w', objects', pool₂) ← pack_items xs objects w pool₁
      (packed, pool₃) ← finish (count_items xs) w' pool₂
      ok (packed, objects', pool₃)
    pack_value (dict fs) objects pool = do
      (w, pool₁) ← open_group 0xe0 (count_fields fs) pool
      (w', objects', pool₂) ← pack_fields fs objects w pool₁
      (packed, pool₃) ← finish (count_fields fs) w' pool₂
      ok (packed, objects', pool₃)

    pub pack_items :
        Items
        → List (List ℕ)
        → BufferWriter
        → BufferPool
        → Result (BufferWriter × List (List ℕ) × BufferPool)
    pack_items nil objects w pool = ok (w, objects, pool)
    pack_items (cons x xs) objects w pool = do
      (packed, objects₁, pool₁) ← pack_value x objects pool
      (w', pool₂) ← write opack_pool allocate (write_bytes packed) w pool₁
      pack_items xs objects₁ w' pool₂

    pub pack_fields :
        Fields
        → List (List ℕ)
        → BufferWriter
        → BufferPool
        → Result (BufferWriter × List (List ℕ) × BufferPool)
    pack_fields end objects w pool = ok (w, objects, pool)
    pack_fields (field k v fs) objects w pool = do
      (key, objects₁, pool₁) ← pack_key k objects pool
      (value, objects₂, pool₂) ← pack_value v objects₁ pool₁
      (w₁, pool₃) ← write opack_pool allocate (write_bytes key) w pool₂
      (w₂, pool₄) ← write opack_pool allocate (write_bytes value) w₁ pool₃
      pack_fields fs objects₂ w₂ pool₄

  -- `OPACK.encode`, with the pool before and after it.
  unfoldable pub encode : Value → BufferPool → Result (List ℕ × BufferPool)
  unfolding pack_value
  encode v pool = do (packed, objects, pool') ← pack_value v [] pool; ok (packed, pool')
