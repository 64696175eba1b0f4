-- ===== src/Buffers/Stream.antt =====
-- `StreamBuffer` of core/encoding/buffer-utils.ts with the memory behind it: `consume` and `peek`
-- return views of that memory (`subarray`), not copies.
pub mod Laws
pub mod Reading
pub mod Views
pub mod Room
use bunatv.Prelude.{
  ℕ, zero, suc, ◌+◌, ◌-◌, ◌*◌, ◌≤◌, ◌<◌, min, List, Option, none, some, Bool, true, false, ◌&&◌,
  Result, ok, err, out_of_fuel, stream_overflow, cannot_grow, ◌>>=◌, ltb, ◌==◌, if◌then◌else◌,
  length, take, drop,
}
use bunatv.Buffers.Writer.{copy_at}

pub record StreamBuffer : Type 0 where
  pub buffer : List ℕ
  pub write_pos : ℕ
  pub read_pos : ℕ
  pub max_size : ℕ

-- A `subarray` of the memory of a stream buffer.
pub record View : Type 0 where
  pub start : ℕ
  pub size : ℕ

-- The bytes that a view shows in the memory as it is now.
unfoldable pub view_bytes : View → StreamBuffer → List ℕ
view_bytes v s = take v.size (drop v.start s.buffer)

unfoldable pub available : StreamBuffer → ℕ
available s = s.write_pos - s.read_pos

unfoldable pub compact : StreamBuffer → StreamBuffer
unfolding copy_at
compact s =
    let data_length = s.write_pos - s.read_pos in
    let moved = take data_length (drop s.read_pos s.buffer) in
    if s.read_pos == 0
    then s
    else record s { buffer = copy_at s.buffer 0 moved; read_pos = 0; write_pos = data_length }

-- The loop of `grow`; every round doubles a size that is not 0, so `min_size` rounds are enough.
unfoldable pub double_until : ℕ → ℕ → ℕ → ℕ → Result ℕ
double_until zero min_size max_size size =
    if ltb size min_size && ltb size max_size then err out_of_fuel else ok size
double_until (suc fuel) min_size max_size size = elim (ltb size min_size && ltb size max_size) [
  | true ↦ double_until fuel min_size max_size (size * 2)
  | false ↦ ok size
]

-- `data.copy(this.buffer, this.writePos); this.writePos += data.length`
unfoldable pub copy_in : List ℕ → StreamBuffer → StreamBuffer
copy_in bytes s = record s {
  buffer = copy_at s.buffer s.write_pos bytes;
  write_pos = s.write_pos + length bytes;
}

-- Compact first if that may avoid growth.
unfoldable pub compact_for : ℕ → StreamBuffer → StreamBuffer
unfolding compact
compact_for size s =
    if ltb (length s.buffer) (s.write_pos + size) && ltb 0 s.read_pos then compact s else s

module _ (allocate : ℕ → List ℕ) where
  unfoldable pub new_stream : ℕ → ℕ → StreamBuffer
  new_stream initial_size max_size = record {
    buffer = allocate initial_size;
    write_pos = 0;
    read_pos = 0;
    max_size = max_size;
  }

  unfoldable pub grow : ℕ → StreamBuffer → Result StreamBuffer
  unfolding double_until copy_at available
  grow min_size s = do
    doubled ← double_until min_size min_size s.max_size (length s.buffer)
    let new_size = min doubled s.max_size
    (if ltb new_size min_size
        then err cannot_grow
        else ok (record s {
          buffer = copy_at (allocate new_size) 0 (take (available s) (drop s.read_pos s.buffer));
          write_pos = s.write_pos - s.read_pos;
          read_pos = 0;
        }))

  -- `if (required > this.buffer.length) this.grow(required)`
  unfoldable pub enlarge : ℕ → StreamBuffer → Result StreamBuffer
  enlarge required s = if ltb (length s.buffer) required then grow required s else ok s

  -- `append` up to the copy: the compacted or grown buffer.
  unfoldable pub make_room : ℕ → StreamBuffer → Result StreamBuffer
  unfolding enlarge compact_for
  make_room size s = do
    let s₁ = compact_for size s
    let required = s₁.write_pos + size
    s₂ ← enlarge required s₁
    (if ltb s.max_size required then err stream_overflow else enlarge required s₂)

  unfoldable pub append : List ℕ → StreamBuffer → Result StreamBuffer
  unfolding make_room copy_in
  append bytes s = do s' ← make_room (length bytes) s; ok (copy_in bytes s')

unfoldable pub skipped : ℕ → StreamBuffer → StreamBuffer
skipped size s = record s { read_pos = s.read_pos + size }

-- `if (this.readPos > this.buffer.length / 2) this.compact()`
unfoldable pub settle : StreamBuffer → StreamBuffer
unfolding compact
settle s = if ltb (length s.buffer) (s.read_pos * 2) then compact s else s

unfoldable pub consume : ℕ → StreamBuffer → Option (View × StreamBuffer)
unfolding settle skipped available
consume size s =
    let view : View = record { start = s.read_pos; size = size } in
    if ltb (available s) size then none else some (view, settle (skipped size s))

-- `peek(length, offset)`; the view is read before anything else happens to the buffer.
unfoldable pub peek : ℕ → ℕ → StreamBuffer → Option (List ℕ)
unfolding available
peek size offset s =
    if ltb (available s) (offset + size)
    then none
    else some (take size (drop (s.read_pos + offset) s.buffer))

unfoldable pub reset : StreamBuffer → StreamBuffer
reset s = record s { read_pos = 0; write_pos = 0 }

-- The bytes that were appended and not yet consumed.
unfoldable pub contents : StreamBuffer → List ℕ
contents s = take (s.write_pos - s.read_pos) (drop s.read_pos s.buffer)

pub record IsValid (s : StreamBuffer) : Type 0 where
  pub ordered : s.read_pos ≤ s.write_pos
  pub within : s.write_pos ≤ length s.buffer
  pub nonempty : 0 < length s.buffer
  pub bounded : length s.buffer ≤ s.max_size
