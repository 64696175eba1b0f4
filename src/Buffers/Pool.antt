-- ===== src/Buffers/Pool.antt =====
-- `BufferPool` of core/encoding/buffer-utils.ts, and `BufferWriter` on memory of a pool. The pool is
-- handed on explicitly; of several buffers of a bucket, the one pushed last is in front.
use bunatv.Prelude.{
  ℕ, ◌+◌, ◌*◌, List, [], ◌∷◌, Bool, Result, ok, err, value_out_of_range, max, ltb, leb, ◌==◌,
  if◌then◌else◌, length, take, ◌-◌, ◌>>=◌,
}
use bunatv.Buffers.Writer.{BufferWriter, copy_at, to_buffer}
pub mod Sound
pub mod Writes
pub mod Growth
pub mod Short

pub record BufferPoolConfig : Type 0 where
  pub size_buckets : List ℕ
  pub max_per_bucket : ℕ
  pub clear_on_release : Bool

-- `Map<number, Buffer[]>`: a bucket that is not there holds no buffers.
abbrev pub BufferPool : Type 0
BufferPool = ℕ → List (List ℕ)

abbrev pub empty_pool : BufferPool
empty_pool bucket = []

unfoldable pub set_bucket : ℕ → List (List ℕ) → BufferPool → BufferPool
set_bucket bucket buffers pool b = if b == bucket then buffers else pool b

unfoldable pub get_bucket_size : List ℕ → ℕ → ℕ
get_bucket_size [] size = size
get_bucket_size (bucket ∷ buckets) size =
    let rest = get_bucket_size buckets size in if leb size bucket then bucket else rest

-- `buffer.fill(0)`
unfoldable pub cleared : List ℕ → List ℕ
cleared [] = []
cleared (b ∷ bs) = 0 ∷ cleared bs

-- `buffer.copy(target, at)`: what does not fit is left out.
unfoldable pub copy_truncated : List ℕ → ℕ → List ℕ → List ℕ
unfolding copy_at
copy_truncated target at source = copy_at target at (take (length target - at) source)

-- One write of a `BufferWriter`: a number, or the bytes of a buffer.
pub data Write : Type 0 where
  write_uint : List ℕ → Write
  write_bytes : List ℕ → Write

module _ (config : BufferPoolConfig) (allocate : ℕ → List ℕ) where
  unfoldable pub acquire : ℕ → BufferPool → List ℕ × BufferPool
  unfolding get_bucket_size set_bucket
  acquire size pool =
      let bucket = get_bucket_size config.size_buckets size in
      elim (pool bucket) [
        | [] ↦ (allocate size, pool)
        | buffer ∷ others ↦
            (if size == bucket then buffer else take size buffer, set_bucket bucket others pool)
      ]

  unfoldable pub release : List ℕ → BufferPool → BufferPool
  unfolding get_bucket_size set_bucket
  release buffer pool =
      let bucket = get_bucket_size config.size_buckets (length buffer) in
      let kept = if config.clear_on_release then cleared buffer else buffer in
      if ltb (length (pool bucket)) config.max_per_bucket
      then set_bucket bucket (kept ∷ pool bucket) pool
      else pool

  -- `new BufferWriter(initialSize, pool)`
  unfoldable pub new_writer : ℕ → BufferPool → BufferWriter × BufferPool
  unfolding acquire
  new_writer initial_size pool =
      let (buffer, pool') = acquire initial_size pool in
      (record { buffer = buffer; offset = 0 }, pool')

  unfoldable pub ensure_capacity : ℕ → BufferWriter → BufferPool → BufferWriter × BufferPool
  unfolding acquire release copy_truncated
  ensure_capacity size w pool =
      let required = w.offset + size in
      if ltb (length w.buffer) required
      then (let (new_buffer, pool') = acquire (max (length w.buffer * 2) required) pool in
          (
            record w { buffer = copy_truncated new_buffer 0 (take w.offset w.buffer) },
            release w.buffer pool',
          ))
      else (w, pool)

  -- A number that does not fit throws; `copy` cuts a buffer, and the offset moves on by all of it.
  unfoldable pub write : Write → BufferWriter → BufferPool → Result (BufferWriter × BufferPool)
  unfolding ensure_capacity copy_truncated
  write (write_uint value) w pool =
      let (w', pool') = ensure_capacity (length value) w pool in
      if leb (w'.offset + length value) (length w'.buffer)
      then ok (
        record w' { buffer = copy_at w'.buffer w'.offset value; offset = w'.offset + length value },
        pool',
      )
      else err value_out_of_range
  write (write_bytes source) w pool =
      let (w', pool') = ensure_capacity (length source) w pool in
      ok (
        record w' {
          buffer = copy_truncated w'.buffer w'.offset source;
          offset = w'.offset + length source;
        },
        pool',
      )

  unfoldable pub write_each :
      List Write → BufferWriter → BufferPool → Result (BufferWriter × BufferPool)
  unfolding write
  write_each [] w pool = ok (w, pool)
  write_each (x ∷ xs) w pool = do (w₁, pool₁) ← write x w pool; write_each xs w₁ pool₁

  -- A new writer, some writes, and `toBuffer`.
  unfoldable pub written : ℕ → List Write → BufferPool → Result (List ℕ × BufferPool)
  unfolding new_writer write_each
  written initial_size writes pool = do
    (w, pool') ← write_each writes (new_writer initial_size pool).0 (new_writer initial_size pool).1
    ok (to_buffer w, pool')
