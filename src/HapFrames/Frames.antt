-- ===== src/HapFrames/Frames.antt =====
-- `process` of HapFrameHandler.ts on a stream of whole frames.
use bunatv.Prelude.{
  ℕ, ◌+◌, ◌*◌, ◌≤◌, ◌≡◌, refl, sym, ap, ◌∙◌, List, [], ◌++◌, arith, ◌==◌, false, ok, length,
  length-append, take, drop, append-nil, drop-drop, drop-take, take-append_left, le→ltb, le→leb,
}
use bunatv.Prelude.Bytes.{to_be}
use bunatv.Buffers.Stream.{StreamBuffer, IsValid, view_bytes, contents, skipped}
use bunatv.Buffers.Stream.Reading.{available-contents, peek-contents, consume_low}
use bunatv.Buffers.Stream.Views.{first_bytes}
use bunatv.HapFrames.{
  HapFrame, HapFrameHandler, cut, round, frame_round, parse_round, encrypted_opack,
}
use bunatv.HapFrames.Parse.{
  Message, IsSendable, frame_bytes, length-frame_bytes, detect-frame_bytes, size-frame_bytes,
  parse-frame_bytes,
}

abbrev pub frame_size : Message → ℕ
frame_size m = 4 + length m.payload

abbrev pub cut_frame : Message → HapFrameHandler → HapFrame
cut_frame m h = record {
  type = m.type;
  encrypted = m.type == encrypted_opack;
  payload = record { start = h.stream.read_pos + 4; size = length m.payload };
  size = length m.payload;
  sequence = h.sequence_number;
}

abbrev pub handler_after : Message → HapFrameHandler → HapFrameHandler
handler_after m h = record h {
  stream = skipped (frame_size m) h.stream;
  sequence_number = h.sequence_number + 1;
}

-- No frame is validated, as `HapFramedChannel` configures the handler.
module _ (m : Message) (v : IsSendable m) (rest : List ℕ) (h : HapFrameHandler)
    (valid : IsValid h.stream) (starts : contents h.stream ≡ frame_bytes m ++ rest)
    (lax : h.validate_frames ≡ false) where
  pub has_frame : (frame_size m) ≤ length (contents h.stream)
  has_frame =
      omega (arith, ap length starts, length-append (frame_bytes m) rest, length-frame_bytes m v)

  payload_seen :
      view_bytes
        (record { start = h.stream.read_pos; size = (frame_size m) })
        (skipped (frame_size m) h.stream)
      ≡ frame_bytes m
  unfolding view_bytes skipped
  payload_seen =
      sym (first_bytes (frame_size m) h.stream valid has_frame)
      ∙ ap (take (frame_size m)) starts
      ∙ take-append_left (frame_size m) (frame_bytes m) rest (omega (arith, length-frame_bytes m v))

  parse_round-frame_bytes :
      parse_round
        (record { start = h.stream.read_pos; size = (frame_size m) })
        (record h { stream = skipped (frame_size m) h.stream })
      ≡ ok (cut (cut_frame m h) (handler_after m h))
  unfolding parse_round
  parse_round-frame_bytes =
      rw (payload_seen, ← append-nil (frame_bytes m), parse-frame_bytes m v [], lax)

  -- The payload, in whatever memory is as `consume` left it.
  pub payload_bytes :
      (t : StreamBuffer)
      → t.buffer ≡ h.stream.buffer
      → view_bytes (record { start = h.stream.read_pos + 4; size = length m.payload }) t ≡ m.payload
  unfolding view_bytes skipped
  payload_bytes t same =
      ap (λ b. take (length m.payload) (drop (h.stream.read_pos + 4) b)) same
      ∙ ap (take (length m.payload))
          (sym (drop-drop 4 h.stream.read_pos (h.stream.read_pos + 4) h.stream.buffer refl))
      ∙ sym (
          drop-take 4 (frame_size m) (length m.payload) (drop h.stream.read_pos h.stream.buffer)
            refl)
      ∙ ap (drop 4) payload_seen
      ∙ unfold frame_bytes to_be in refl

  frame_round-frame_bytes :
      (h.stream.read_pos + (frame_size m)) * 2 ≤ length h.stream.buffer
      → frame_round (take 4 (frame_bytes m ++ rest)) h
        ≡ ok (cut (cut_frame m h) (handler_after m h))
  unfolding frame_round
  frame_round-frame_bytes low = rw (
    detect-frame_bytes m v rest,
    size-frame_bytes m v rest,
    available-contents h.stream valid,
    le→ltb (length (contents h.stream)) (frame_size m) has_frame,
    consume_low (frame_size m) h.stream valid has_frame low,
    parse_round-frame_bytes,
  )

  -- One round cuts the frame out, where the buffer is not compacted.
  pub round-frame_bytes :
      (h.stream.read_pos + (frame_size m)) * 2 ≤ length h.stream.buffer
      → round h ≡ ok (cut (cut_frame m h) (handler_after m h))
  unfolding round
  round-frame_bytes low = rw (
    available-contents h.stream valid,
    le→leb 4 (length (contents h.stream)) (omega (arith, has_frame)),
    peek-contents 4 h.stream valid (omega (arith, has_frame)),
    starts,
    frame_round-frame_bytes low,
  )
