-- ===== src/HapFrames/Overlap.antt =====
-- HapFrameHandler.ts on two frames of which the first takes more than half of the buffer: the
-- compaction at the end of `consume` moves the second over the first before the first is parsed.
use bunatv.Prelude.{
  ℕ, ◌+◌, ◌*◌, ◌≤◌, ◌<◌, ◌≡◌, refl, sym, ap, ◌∙◌, List, ◌++◌, arith, ◌==◌, false, ok, length,
  length-append, take, drop, drop-append_left, take-append_left, take-append-drop, le→ltb, le→leb,
}
use bunatv.Buffers.Stream.{StreamBuffer, IsValid, view_bytes, contents, settle, skipped}
use bunatv.Buffers.Stream.Reading.{
  available-contents, peek-contents, consume_enough, skipped_lem, settle_lem,
}
use bunatv.Buffers.Stream.Views.{view_at, view_lost}
use bunatv.HapFrames.{
  encrypted_opack, HapFrame, HapFrameHandler, cut, round, frame_round, parse_round,
}
use bunatv.HapFrames.Parse.{
  Message, IsSendable, frame_bytes, length-frame_bytes, detect-frame_bytes, size-frame_bytes,
  parse-frame_bytes,
}
use bunatv.HapFrames.Frames.{frame_size}

module _ (m n : Message) (ok_m : IsSendable m) (ok_n : IsSendable n) (rest : List ℕ)
    (h : HapFrameHandler) (v : IsValid h.stream)
    (starts : contents h.stream ≡ frame_bytes m ++ (frame_bytes n ++ rest))
    (lax : h.validate_frames ≡ false) (at_front : h.stream.read_pos ≡ 0)
    (half : length h.stream.buffer < frame_size m * 2)
    (smaller : length n.payload ≤ length m.payload) where
  enough : frame_size m + frame_size n ≤ length (contents h.stream)
  enough = omega (
    arith,
    ap length starts,
    length-append (frame_bytes m) (frame_bytes n ++ rest),
    length-append (frame_bytes n) rest,
    length-frame_bytes m ok_m,
    length-frame_bytes n ok_n,
  )

  second : drop (frame_size m) (contents h.stream) ≡ frame_bytes n ++ rest
  second =
      ap (drop (frame_size m)) starts
      ∙ drop-append_left (frame_size m) (frame_bytes m) (frame_bytes n ++ rest)
          (omega (arith, length-frame_bytes m ok_m))

  moved : StreamBuffer
  moved = settle (skipped (frame_size m) h.stream)

  moved_lem : (contents moved ≡ frame_bytes n ++ rest) × IsValid moved
  unfolding moved
  moved_lem =
      let (v₁, c₁) = skipped_lem (frame_size m) h.stream v (omega (arith, enough)) in
      let (c, v') = settle_lem (skipped (frame_size m) h.stream) v₁ in (c ∙ c₁ ∙ second, v')

  abbrev shown : List ℕ
  shown = view_bytes (view_at (frame_size m) h.stream) moved

  shown_second : take (frame_size n) shown ≡ frame_bytes n
  unfolding moved
  shown_second =
      view_lost (frame_size m) (frame_size n) h.stream v at_front half (omega arith) enough
      ∙ ap (take (frame_size n)) second
      ∙ take-append_left (frame_size n) (frame_bytes n) rest
          (omega (arith, length-frame_bytes n ok_n))

  shown_lem : shown ≡ frame_bytes n ++ drop (frame_size n) shown
  shown_lem =
      sym (take-append-drop (frame_size n) shown)
      ∙ ap (λ front. front ++ drop (frame_size n) shown) shown_second

  abbrev wrong_frame : HapFrame
  wrong_frame = record {
    type = n.type;
    encrypted = n.type == encrypted_opack;
    payload = record { start = h.stream.read_pos + 4; size = length n.payload };
    size = length n.payload;
    sequence = h.sequence_number;
  }

  abbrev handler_moved : HapFrameHandler
  handler_moved = record h { stream = moved; sequence_number = h.sequence_number + 1 }

  parse_round-shown :
      parse_round (view_at (frame_size m) h.stream) (record h { stream = moved })
      ≡ ok (cut wrong_frame handler_moved)
  unfolding parse_round
  parse_round-shown = rw (shown_lem, parse-frame_bytes n ok_n (drop (frame_size n) shown), lax)

  frame_round_overlap :
      frame_round (take 4 (frame_bytes m ++ (frame_bytes n ++ rest))) h
      ≡ ok (cut wrong_frame handler_moved)
  unfolding frame_round
  frame_round_overlap =
      rw
        (
          detect-frame_bytes m ok_m (frame_bytes n ++ rest),
          size-frame_bytes m ok_m (frame_bytes n ++ rest),
          available-contents h.stream v,
          le→ltb (length (contents h.stream)) (frame_size m) (omega (arith, enough)),
          consume_enough (frame_size m) h.stream v (omega (arith, enough)),
        )
        (unfold moved in parse_round-shown)

  round_overlap : round h ≡ ok (cut wrong_frame handler_moved)
  unfolding round
  round_overlap = rw (
    available-contents h.stream v,
    le→leb 4 (length (contents h.stream)) (omega (arith, enough)),
    peek-contents 4 h.stream v (omega (arith, enough)),
    starts,
    frame_round_overlap,
  )

-- In a handler that does not validate frames, two frames arrive together at the front of the buffer,
-- and the first takes more than half of it and is not the smaller: the round that should cut the first frame out yields a frame with the
-- type and the length of the second, and the second is still in the stream to be cut again.
pub round_repeats :
    (m n : Message) (rest : List ℕ) (h : HapFrameHandler)
    → IsSendable m
    → IsSendable n
    → IsValid h.stream
    → contents h.stream ≡ frame_bytes m ++ (frame_bytes n ++ rest)
    → h.validate_frames ≡ false
    → h.stream.read_pos ≡ 0
    → length h.stream.buffer < frame_size m * 2
    → length n.payload ≤ length m.payload
    → (frame : HapFrame) × (h' : HapFrameHandler) × (round h ≡ ok (cut frame h'))
      × (frame.type ≡ n.type)
      × (frame.size ≡ length n.payload)
      × (contents h'.stream ≡ frame_bytes n ++ rest)
round_repeats m n rest h ok_m ok_n v starts lax at_front half smaller = (
  wrong_frame m n ok_m ok_n rest h v starts lax at_front half smaller,
  handler_moved m n ok_m ok_n rest h v starts lax at_front half smaller,
  round_overlap m n ok_m ok_n rest h v starts lax at_front half smaller,
  refl,
  refl,
  (moved_lem m n ok_m ok_n rest h v starts lax at_front half smaller).0,
)
