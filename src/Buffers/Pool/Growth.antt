-- ===== src/Buffers/Pool/Growth.antt =====
-- `BufferWriter` growing on a sound pool, core/encoding/buffer-utils.ts: a writer that only doubles its memory.
use bunatv.Prelude.{
  ℕ, ◌+◌, ◌*◌, ◌≤◌, ◌<◌, ◌≡◌, refl, ap, ◌∙◌, sym, subst, List, ◌++◌, inl, inr, arith, false, ok,
  max, ltb, lt→ltb, ltb→lt, ltb→ge, Bool-cases, length, take, length-take,
}
use bunatv.Buffers.Writer.{BufferWriter, copy_at, to_buffer, take-copy_at, length-copy_at}
use bunatv.Buffers.Pool.{
  BufferPoolConfig, BufferPool, Write, get_bucket_size, acquire, release, ensure_capacity, write,
}
use bunatv.Buffers.Pool.Sound.{IsSound, IsSound-acquire, IsSound-release}
use bunatv.Buffers.Pool.Writes.{
  copy_truncated_lem, content, filled, to_buffer-filled, length-filled, ensure_capacity_room,
  write_fits,
}

-- Lengths that are bucket sizes, and stay so when they are doubled; none is below `limit`.
pub record Doubling (config : BufferPoolConfig) (limit : ℕ) (regular : ℕ → Type 0) : Type 0 where
  pub is_bucket : (n : ℕ) → regular n → get_bucket_size config.size_buckets n ≡ n
  pub twice : (n : ℕ) → regular n → regular (n * 2)
  pub large : (n : ℕ) → regular n → limit ≤ n
  pub uncleared : config.clear_on_release ≡ false

-- A writer that only doubles.
pub record IsRegular (regular : ℕ → Type 0) (w : BufferWriter) : Type 0 where
  pub within : w.offset ≤ length w.buffer
  pub size : regular (length w.buffer)

module _ (config : BufferPoolConfig) (allocate : ℕ → List ℕ)
    (allocate_length : (n : ℕ) → length (allocate n) ≡ n) where
  module _ (limit : ℕ) (regular : ℕ → Type 0) (doubling : Doubling config limit regular) where
    -- What a writer is once there is room for `size` bytes.
    record Reserved (size : ℕ) (w : BufferWriter) (pool : BufferPool) : Type 0 where
      w' : BufferWriter
      pool' : BufferPool
      is_pair : ensure_capacity config allocate size w pool ≡ (w', pool')
      room : w'.offset + size ≤ length w'.buffer
      shown : to_buffer w' ≡ to_buffer w
      regular_size : regular (length w'.buffer)
      sound : IsSound pool'

    Reserved-grown :
        (size : ℕ) (w : BufferWriter) (pool : BufferPool)
        → size ≤ limit
        → IsRegular regular w
        → IsSound pool
        → length w.buffer < w.offset + size
        → Reserved size w pool
    unfolding ensure_capacity to_buffer
    Reserved-grown size w pool low v sound over =
        let front = take w.offset w.buffer in
        let new_size = max (length w.buffer * 2) (w.offset + size) in
        let new_buffer = (acquire config allocate new_size pool).0 in
        let (exact, sound₁) = IsSound-acquire config allocate allocate_length new_size pool sound in
        let same : new_size ≡ length w.buffer * 2 =
          omega (arith, doubling.large (length w.buffer) v.size, v.within) in
        let front_length : length front ≡ w.offset =
          omega (arith, length-take w.offset w.buffer, v.within) in
        let fits : 0 + length front ≤ length new_buffer =
          omega (arith, front_length, exact, same, v.within) in
        let copied = length-copy_at new_buffer 0 front fits in
        record {
          w' = record w { buffer = copy_at new_buffer 0 front };
          pool' = release config allocate w.buffer (acquire config allocate new_size pool).1;
          is_pair = rw (
            lt→ltb (length w.buffer) (w.offset + size) over,
            copy_truncated_lem new_buffer 0 front fits,
          );
          room =
              omega (arith, copied, exact, same, doubling.large (length w.buffer) v.size, v.within);
          shown =
              take-copy_at w.offset new_buffer 0 front (omega arith) (omega (arith, front_length));
          regular_size =
              subst regular (sym (copied ∙ exact ∙ same)) (doubling.twice (length w.buffer) v.size);
          sound =
              IsSound-release config allocate allocate_length w.buffer
                (acquire config allocate new_size pool).1 doubling.uncleared sound₁
                (doubling.is_bucket (length w.buffer) v.size);
        }

    Reserved-ensure_capacity :
        (size : ℕ) (w : BufferWriter) (pool : BufferPool)
        → size ≤ limit
        → IsRegular regular w
        → IsSound pool
        → Reserved size w pool
    Reserved-ensure_capacity size w pool low v sound =
        elim (Bool-cases (ltb (length w.buffer) (w.offset + size))) [
          | inl over ↦
              Reserved-grown size w pool low v sound
                (ltb→lt (length w.buffer) (w.offset + size) over)
          | inr room ↦
              let fits = ltb→ge (length w.buffer) (w.offset + size) room in
              record {
                w' = w;
                pool' = pool;
                is_pair = ensure_capacity_room config allocate size w pool fits;
                room = fits;
                shown = refl;
                regular_size = v.size;
                sound = sound;
              }
        ]

    -- A write that succeeds, appends its write_bytes, and leaves a regular writer and a sound pool.
    pub record Wrote (x : Write) (w : BufferWriter) (pool : BufferPool) : Type 0 where
      pub writer : BufferWriter
      pub pool' : BufferPool
      pub is_ok : write config allocate x w pool ≡ ok (writer, pool')
      pub shown : to_buffer writer ≡ to_buffer w ++ content x
      pub is_regular : IsRegular regular writer
      pub sound : IsSound pool'

    pub Wrote-write :
        (x : Write) (w : BufferWriter) (pool : BufferPool)
        → length (content x) ≤ limit
        → IsRegular regular w
        → IsSound pool
        → Wrote x w pool
    Wrote-write x w pool low v sound =
        let r = Reserved-ensure_capacity (length (content x)) w pool low v sound in
        let same = length-filled (content x) r.w' r.room in
        record {
          writer = filled (content x) r.w';
          pool' = r.pool';
          is_ok = write_fits config allocate x w r.w' pool r.pool' r.is_pair r.room;
          shown =
              to_buffer-filled (content x) r.w' r.room ∙ ap (λ front. front ++ content x) r.shown;
          is_regular = record {
            within = omega (arith, r.room, same);
            size = subst regular (sym same) r.regular_size;
          };
          sound = r.sound;
        }
