-- ===== src/Buffers/Writer.antt =====
-- `BufferWriter` of core/encoding/buffer-utils.ts, with the memory behind it.
use bunatv.Prelude.{
  ap, ◌∙◌, length-drop, ℕ, ◌+◌, ◌*◌, ◌≤◌, ◌≡◌, refl, List, ◌++◌, arith, max, ltb, if◌then◌else◌,
  length, length-append, length-take, take, drop, take-append_left, append_assoc,
}

pub record BufferWriter : Type 0 where
  pub buffer : List ℕ
  pub offset : ℕ

-- `source.copy(target, at)` where all of `source` fits: the bytes before and after stay.
unfoldable pub copy_at : List ℕ → ℕ → List ℕ → List ℕ
copy_at target at source = take at target ++ (source ++ drop (at + length source) target)

pub length-copy_at :
    (target : List ℕ) (at : ℕ) (source : List ℕ)
    → at + length source ≤ length target
    → length (copy_at target at source) ≡ length target
unfolding copy_at
length-copy_at target at source h = omega (
  arith,
  length-append (take at target) (source ++ drop (at + length source) target),
  length-append source (drop (at + length source) target),
  length-take at target,
  length-drop (at + length source) target,
)

-- What stands in front of the end of the copy.
pub take-copy_at :
    (n : ℕ) (target : List ℕ) (at : ℕ) (source : List ℕ)
    → at ≤ length target
    → n ≡ at + length source
    → take n (copy_at target at source) ≡ take at target ++ source
unfolding copy_at
take-copy_at n target at source h e =
    rw (← append_assoc (take at target) source (drop (at + length source) target)) (
      take-append_left n (take at target ++ source) _
        (omega (arith, length-append (take at target) source, length-take at target)))

-- What the allocator hands out is arbitrary memory of the length asked for.
module _ (allocate : ℕ → List ℕ) where
  unfoldable pub new_writer : ℕ → BufferWriter
  new_writer initial_size = record { buffer = allocate initial_size; offset = 0 }

  unfoldable pub ensure_capacity : ℕ → BufferWriter → BufferWriter
  unfolding copy_at
  ensure_capacity bytes w =
      let required = w.offset + bytes in
      let new_size = max (length w.buffer * 2) required in
      if ltb (length w.buffer) required
      then record w { buffer = copy_at (allocate new_size) 0 (take w.offset w.buffer) }
      else w

  unfoldable pub write_buffer : List ℕ → BufferWriter → BufferWriter
  unfolding ensure_capacity
  write_buffer bytes w =
      let w' = ensure_capacity (length bytes) w in
      record w' { buffer = copy_at w'.buffer w'.offset bytes; offset = w'.offset + length bytes }

unfoldable pub to_buffer : BufferWriter → List ℕ
to_buffer w = take w.offset w.buffer

pub record IsValid (w : BufferWriter) : Type 0 where
  pub within : w.offset ≤ length w.buffer

module _ (allocate : ℕ → List ℕ) (allocate_length : (n : ℕ) → length (allocate n) ≡ n) where
  abbrev grown : ℕ → BufferWriter → List ℕ
  grown bytes w = allocate (max (length w.buffer * 2) (w.offset + bytes))

  length-ensure_capacity :
      (bytes : ℕ) (w : BufferWriter)
      → IsValid w
      → w.offset + bytes ≤ length (ensure_capacity allocate bytes w).buffer
  unfolding ensure_capacity
  length-ensure_capacity bytes w v = ground (
    arith,
    allocate_length (max (length w.buffer * 2) (w.offset + bytes)),
    length-take w.offset w.buffer,
    length-copy_at (grown bytes w) 0 (take w.offset w.buffer),
  )

  to_buffer-ensure_capacity :
      (bytes : ℕ) (w : BufferWriter)
      → IsValid w
      → to_buffer (ensure_capacity allocate bytes w) ≡ to_buffer w
  unfolding ensure_capacity to_buffer
  to_buffer-ensure_capacity bytes w v = ground (
    arith,
    length-take w.offset w.buffer,
    take-copy_at w.offset (grown bytes w) 0 (take w.offset w.buffer),
  )

  offset-ensure_capacity :
      (bytes : ℕ) (w : BufferWriter) → (ensure_capacity allocate bytes w).offset ≡ w.offset
  unfolding ensure_capacity
  offset-ensure_capacity bytes w = ground arith

  -- A write appends its bytes to what `toBuffer` returns, whether or not the memory grows.
  pub to_buffer-write_buffer :
      (bytes : List ℕ) (w : BufferWriter)
      → IsValid w
      → (to_buffer (write_buffer allocate bytes w) ≡ to_buffer w ++ bytes)
        × IsValid (write_buffer allocate bytes w)
  unfolding write_buffer
  to_buffer-write_buffer bytes w v =
      let w' = ensure_capacity allocate (length bytes) w in
      let fits = length-ensure_capacity (length bytes) w v in
      let same = offset-ensure_capacity (length bytes) w in
      let kept = to_buffer-ensure_capacity (length bytes) w v in
      unfold to_buffer in
      (
        take-copy_at (w'.offset + length bytes) w'.buffer w'.offset bytes (omega arith) refl
            ∙ ap (λ front. front ++ bytes) kept,
        record { within = omega (arith, length-copy_at w'.buffer w'.offset bytes (omega arith)) },
      )
