-- ===== src/Tests/Stream.antt =====
-- Runs of buffer-utils.ts and HapFrameHandler.ts, on small buffers.
use bunatv.Prelude.{
  ℕ, zero, suc, ◌+◌, ◌≡◌, inr, refl, List, [], ◌∷◌, ◌++◌, arith, some, false, ok, length, take,
  drop,
}
use bunatv.Prelude.Bytes.{to_be}
use bunatv.Buffers.Writer.{BufferWriter, to_buffer, write_buffer, to_buffer-write_buffer}
use bunatv.Buffers.Writer
use bunatv.Buffers.Stream
use bunatv.Buffers.Stream.{StreamBuffer, View, contents, consume, append, view_bytes}
use bunatv.Buffers.Stream.Laws.{append_lem}
use bunatv.Buffers.Stream.Reading.{consume_lem}
use bunatv.Buffers.Stream.Views.{view-consume_kept, view-consume_lost}
use bunatv.HapFrames.{
  is_valid_frame_type, HapFrame, HapFrameHandler, need_more, cut, round, process, delivered,
}
use bunatv.HapFrames.Parse.{Message, IsSendable, frame_bytes}
use bunatv.HapFrames.Streams.{IsPart, stream_bytes, numbered, process-stream_bytes}
use bunatv.HapFrames.Overlap.{round_repeats}

abbrev pub zeros : ℕ → List ℕ
zeros zero = []
zeros (suc n) = 0 ∷ zeros n

pub length-zeros : (n : ℕ) → length (zeros n) ≡ n
length-zeros zero = refl
length-zeros (suc n) = omega (arith, length-zeros n)

abbrev writer : BufferWriter
writer = record { buffer = 1 ∷ 9 ∷ []; offset = 1 }

writer-IsValid : Writer.IsValid writer
writer-IsValid = omega arith

to_buffer-write_buffer_example :
    (to_buffer (write_buffer zeros (2 ∷ 3 ∷ 4 ∷ []) writer) ≡ to_buffer writer ++ (2 ∷ 3 ∷ 4 ∷ []))
    × Writer.IsValid (write_buffer zeros (2 ∷ 3 ∷ 4 ∷ []) writer)
to_buffer-write_buffer_example =
    to_buffer-write_buffer zeros length-zeros (2 ∷ 3 ∷ 4 ∷ []) writer writer-IsValid

-- Six bytes of which three are unread.
abbrev stream : StreamBuffer
stream = record { buffer = 1 ∷ 2 ∷ 3 ∷ 4 ∷ 5 ∷ 6 ∷ []; write_pos = 5; read_pos = 2; max_size = 64 }

stream-IsValid : Stream.IsValid stream
stream-IsValid = omega arith

append_lem_example :
    (s : StreamBuffer) × (append zeros (7 ∷ 8 ∷ 9 ∷ 10 ∷ []) stream ≡ ok s)
    × Stream.IsValid s
    × (contents s ≡ contents stream ++ (7 ∷ 8 ∷ 9 ∷ 10 ∷ []))
    × (s.max_size ≡ 64)
append_lem_example =
    append_lem zeros length-zeros (7 ∷ 8 ∷ 9 ∷ 10 ∷ []) stream stream-IsValid
      (unfold contents in omega arith)

consume_lem_example :
    (view : View) × (s : StreamBuffer) × (consume 2 stream ≡ some (view, s))
    × (view_bytes view stream ≡ take 2 (contents stream))
    × (contents s ≡ drop 2 (contents stream))
    × Stream.IsValid s
consume_lem_example = consume_lem 2 stream stream-IsValid (unfold contents in omega arith)

view-consume_kept_example :
    (view : View) × (s : StreamBuffer) × (consume 2 stream ≡ some (view, s))
    × (view_bytes view s ≡ take 2 (contents stream))
view-consume_kept_example =
    view-consume_kept 2 stream stream-IsValid (unfold contents in omega arith)
      (inr (unfold contents in omega arith))

abbrev at_front : StreamBuffer
at_front = record {
  buffer = 1 ∷ 2 ∷ 3 ∷ 4 ∷ 5 ∷ 6 ∷ [];
  write_pos = 6;
  read_pos = 0;
  max_size = 64;
}

view-consume_lost_example :
    (view : View) × (s : StreamBuffer) × (consume 4 at_front ≡ some (view, s))
    × (take 2 (view_bytes view s) ≡ take 2 (drop 4 (contents at_front)))
view-consume_lost_example =
    view-consume_lost 4 2 at_front (omega arith) refl (omega arith) (omega arith)
      (unfold contents in omega arith)

abbrev ping : Message
ping = record { type = 8; payload = 1 ∷ 2 ∷ [] }

abbrev pong : Message
pong = record { type = 4; payload = 3 ∷ [] }

ping-IsSendable : IsSendable ping
ping-IsSendable = record {
  known = unfold is_valid_frame_type in refl;
  wire = omega arith;
  nonempty = omega arith;
  bounded = omega arith;
}

pong-IsSendable : IsSendable pong
pong-IsSendable = record {
  known = unfold is_valid_frame_type in refl;
  wire = omega arith;
  nonempty = omega arith;
  bounded = omega arith;
}

abbrev wire : List ℕ
wire = 8 ∷ 0 ∷ 0 ∷ 2 ∷ 1 ∷ 2 ∷ 4 ∷ 0 ∷ 0 ∷ 1 ∷ 3 ∷ []

-- Both frames and the first byte of a third, in a buffer twice as large.
abbrev handler : HapFrameHandler
handler = record {
  stream = record { buffer = wire ++ (8 ∷ zeros 12); write_pos = 12; read_pos = 0; max_size = 64 };
  sequence_number = 5;
  validate_frames = false;
}

part : IsPart (8 ∷ [])
part = record {
  message = ping;
  sendable = ping-IsSendable;
  missing = 0 ∷ 0 ∷ 2 ∷ 1 ∷ 2 ∷ [];
  nonempty = omega arith;
  joined = unfold frame_bytes to_be in refl;
}

process-stream_bytes_example :
    (h : HapFrameHandler) × (frames : List HapFrame) × (process handler ≡ ok (h, frames, need_more))
    × (delivered h.stream frames ≡ numbered 5 (ping ∷ pong ∷ []))
    × (contents h.stream ≡ 8 ∷ [])
    × (h.sequence_number ≡ 5 + 2)
process-stream_bytes_example =
    process-stream_bytes (ping ∷ pong ∷ []) (8 ∷ []) handler
      (ping-IsSendable, (pong-IsSendable, tt)) part (omega arith) refl
      (unfold contents stream_bytes frame_bytes to_be in refl)
      (unfold stream_bytes frame_bytes to_be in omega arith)

-- The same two frames, in a buffer that they fill.
abbrev tight : HapFrameHandler
tight = record {
  stream = record { buffer = wire; write_pos = 11; read_pos = 0; max_size = 64 };
  sequence_number = 5;
  validate_frames = false;
}

round_repeats_example :
    (frame : HapFrame) × (h : HapFrameHandler) × (round tight ≡ ok (cut frame h))
    × (frame.type ≡ 4)
    × (frame.size ≡ 1)
    × (contents h.stream ≡ frame_bytes pong ++ [])
round_repeats_example =
    round_repeats ping pong [] tight ping-IsSendable pong-IsSendable (omega arith)
      (unfold contents frame_bytes to_be in refl) refl refl (omega arith) (omega arith)
