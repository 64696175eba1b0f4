-- ===== src/Buffers/Stream/Room.antt =====
-- `StreamBuffer.append` where the memory behind the unread bytes has room: nothing is moved.
use bunatv.Prelude.{ℕ, ◌+◌, ◌≤◌, ◌≡◌, ◌++◌, List, arith, ok, length, le→ltb}
use bunatv.Buffers.Writer.{length-copy_at}
use bunatv.Buffers.Stream.{
  StreamBuffer, IsValid, append, make_room, enlarge, compact_for, copy_in, contents,
}
use bunatv.Buffers.Stream.Laws.{copy_in_lem}

compact_for_free :
    (size : ℕ) (s : StreamBuffer) → s.write_pos + size ≤ length s.buffer → compact_for size s ≡ s
unfolding compact_for
compact_for_free size s room = rw (le→ltb (length s.buffer) (s.write_pos + size) room)

make_room_free :
    (allocate : ℕ → List ℕ) (size : ℕ) (s : StreamBuffer)
    → IsValid s
    → s.write_pos + size ≤ length s.buffer
    → make_room allocate size s ≡ ok s
unfolding make_room enlarge
make_room_free allocate size s v room = rw (
  compact_for_free size s room,
  le→ltb (length s.buffer) (s.write_pos + size) room,
  le→ltb s.max_size (s.write_pos + size) (omega (arith, v.bounded)),
  le→ltb (length s.buffer) (s.write_pos + size) room,
)

pub append_room :
    (allocate : ℕ → List ℕ) (bytes : List ℕ) (s : StreamBuffer)
    → IsValid s
    → s.write_pos + length bytes ≤ length s.buffer
    → (append allocate bytes s ≡ ok (copy_in bytes s))
      × IsValid (copy_in bytes s)
      × (contents (copy_in bytes s) ≡ contents s ++ bytes)
      × (length (copy_in bytes s).buffer ≡ length s.buffer)
unfolding append
append_room allocate bytes s v room = (
  rw (make_room_free allocate (length bytes) s v room),
  (copy_in_lem bytes s v room).1,
  (copy_in_lem bytes s v room).0,
  unfold copy_in in length-copy_at s.buffer s.write_pos bytes room,
)
