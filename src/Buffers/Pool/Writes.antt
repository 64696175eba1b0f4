-- ===== src/Buffers/Pool/Writes.antt =====
-- `BufferWriter` on a sound pool, core/encoding/buffer-utils.ts.
use bunatv.Prelude.{
  ℕ, ◌+◌, ◌-◌, ◌≤◌, ◌≡◌, refl, ap, ◌∙◌, sym, List, [], ◌∷◌, ◌++◌, arith, ok, le→ltb, le→leb, length,
  take_all, length-append, append_assoc, append-nil,
}
use bunatv.Buffers.Writer.{BufferWriter, copy_at, to_buffer, take-copy_at, length-copy_at}
use bunatv.Buffers.Pool.{
  BufferPoolConfig, BufferPool, Write, write_uint, write_bytes, copy_truncated, new_writer,
  ensure_capacity, write, write_each, written,
}
use bunatv.Buffers.Pool.Sound.{IsSound, IsSound-acquire}

-- `copy` of what fits.
pub copy_truncated_lem :
    (target : List ℕ) (at : ℕ) (source : List ℕ)
    → at + length source ≤ length target
    → copy_truncated target at source ≡ copy_at target at source
unfolding copy_truncated
copy_truncated_lem target at source h =
    ap (copy_at target at) (take_all (length target - at) source (omega arith))

abbrev pub content : Write → List ℕ
content (write_uint value) = value
content (write_bytes source) = source

unfoldable pub joined : List Write → List ℕ
joined [] = []
joined (x ∷ xs) = content x ++ joined xs

-- The writer behind a write for which there is room.
abbrev pub filled : List ℕ → BufferWriter → BufferWriter
filled source w = record w {
  buffer = copy_at w.buffer w.offset source;
  offset = w.offset + length source;
}

pub to_buffer-filled :
    (source : List ℕ) (w : BufferWriter)
    → w.offset + length source ≤ length w.buffer
    → to_buffer (filled source w) ≡ to_buffer w ++ source
unfolding to_buffer
to_buffer-filled source w h =
    take-copy_at (w.offset + length source) w.buffer w.offset source (omega arith) refl

pub length-filled :
    (source : List ℕ) (w : BufferWriter)
    → w.offset + length source ≤ length w.buffer
    → length (filled source w).buffer ≡ length w.buffer
length-filled source w h = length-copy_at w.buffer w.offset source h

module _ (config : BufferPoolConfig) (allocate : ℕ → List ℕ) where
  pub ensure_capacity_room :
      (size : ℕ) (w : BufferWriter) (pool : BufferPool)
      → w.offset + size ≤ length w.buffer
      → ensure_capacity config allocate size w pool ≡ (w, pool)
  unfolding ensure_capacity
  ensure_capacity_room size w pool h = rw (le→ltb (length w.buffer) (w.offset + size) h)

  pub write_fits :
      (x : Write) (w w' : BufferWriter) (pool pool' : BufferPool)
      → ensure_capacity config allocate (length (content x)) w pool ≡ (w', pool')
      → w'.offset + length (content x) ≤ length w'.buffer
      → write config allocate x w pool ≡ ok (filled (content x) w', pool')
  unfolding write
  write_fits (write_uint value) w w' pool pool' e h =
      rw (e, le→leb (w'.offset + length value) (length w'.buffer) h, write)
  write_fits (write_bytes source) w w' pool pool' e h =
      rw (e, copy_truncated_lem w'.buffer w'.offset source h, write)

  pub write_room :
      (x : Write) (w : BufferWriter) (pool : BufferPool)
      → w.offset + length (content x) ≤ length w.buffer
      → write config allocate x w pool ≡ ok (filled (content x) w, pool)
  write_room x w pool h =
      write_fits x w w pool pool (ensure_capacity_room (length (content x)) w pool h) h

module _ (config : BufferPoolConfig) (allocate : ℕ → List ℕ)
    (allocate_length : (n : ℕ) → length (allocate n) ≡ n) where
  -- Writes into a new writer that is large enough.
  pub record WroteAll (writes : List Write) (w : BufferWriter) (pool : BufferPool) : Type 0 where
    pub writer : BufferWriter
    pub is_ok : write_each config allocate writes w pool ≡ ok (writer, pool)
    pub shown : to_buffer writer ≡ to_buffer w ++ joined writes

  write_each-cons :
      (x : Write) (xs : List Write) (w w₁ w₂ : BufferWriter) (pool : BufferPool)
      → write config allocate x w pool ≡ ok (w₁, pool)
      → write_each config allocate xs w₁ pool ≡ ok (w₂, pool)
      → write_each config allocate (x ∷ xs) w pool ≡ ok (w₂, pool)
  unfolding write_each
  write_each-cons x xs w w₁ w₂ pool e f = rw (e, f)

  WroteAll-write_each :
      (writes : List Write) (w : BufferWriter) (pool : BufferPool)
      → w.offset + length (joined writes) ≤ length w.buffer
      → WroteAll writes w pool
  unfolding joined write_each
  WroteAll-write_each [] w pool h = record {
    writer = w;
    is_ok = refl;
    shown = sym (append-nil (to_buffer w));
  }
  WroteAll-write_each (x ∷ xs) w pool h =
      let parts = length-append (content x) (joined xs) in
      let room : w.offset + length (content x) ≤ length w.buffer = omega (arith, h, parts) in
      let rest =
        WroteAll-write_each xs (filled (content x) w) pool
          (omega (arith, h, parts, length-filled (content x) w room)) in
      record {
        writer = rest.writer;
        is_ok =
            write_each-cons x xs w (filled (content x) w) rest.writer pool
              (write_room config allocate x w pool room) rest.is_ok;
        shown =
            rest.shown
            ∙ ap (λ front. front ++ joined xs) (to_buffer-filled (content x) w room)
            ∙ append_assoc (to_buffer w) (content x) (joined xs);
      }

  written_ok :
      (size : ℕ) (writes : List Write) (pool : BufferPool) (writer : BufferWriter)
      (pool' : BufferPool)
      → write_each config allocate writes
          (new_writer config allocate size pool).0
          (new_writer config allocate size pool).1
        ≡ ok (writer, pool')
      → written config allocate size writes pool ≡ ok (to_buffer writer, pool')
  unfolding written
  written_ok size writes pool writer pool' e = rw e

  pub written_lem :
      (size : ℕ) (writes : List Write) (pool : BufferPool)
      → IsSound pool
      → length (joined writes) ≤ size
      → (pool' : BufferPool) × (written config allocate size writes pool
          ≡ ok (joined writes, pool'))
        × IsSound pool'
  unfolding new_writer to_buffer
  written_lem size writes pool sound h =
      let (exact, sound') = IsSound-acquire config allocate allocate_length size pool sound in
      let w = (new_writer config allocate size pool).0 in
      let pool' = (new_writer config allocate size pool).1 in
      let all = WroteAll-write_each writes w pool' (omega (arith, h, exact)) in
      (
        pool',
        written_ok size writes pool all.writer pool' all.is_ok
            ∙ ap (λ bs. ok (bs, pool')) all.shown,
        sound',
      )
