-- ===== src/HapFrames/Streams.antt =====
-- `process` of HapFrameHandler.ts on a stream of whole frames and the beginning of one more.
use bunatv.Prelude.{
  ℕ, zero, suc, ◌+◌, ◌-◌, ◌*◌, ◌≤◌, ◌<◌, ◌≡◌, inl, inr, refl, sym, ap, ap₂, ◌∙◌, List, [], ◌∷◌,
  ◌++◌, arith, false, ok, length, length-append, take, drop, append_assoc, append-nil,
  drop-append_left, take-append_le, le→leb, lt→leb, lt→ltb, All, Bool-cases, ltb,
}
use bunatv.Buffers.Stream.{StreamBuffer, IsValid, view_bytes, available, contents, skipped}
use bunatv.Buffers.Stream.Reading.{available-contents, peek-contents, skipped_lem}
use bunatv.HapFrames.{
  HapFrame, HapFrameHandler, need_more, stop, round, frame_round, process_loop, process, Delivered,
  delivered,
}
use bunatv.HapFrames.Parse.{
  Message, IsSendable, frame_bytes, length-frame_bytes, detect-frame_bytes, size-frame_bytes,
}
use bunatv.HapFrames.Frames.{
  frame_size, cut_frame, handler_after, round-frame_bytes, payload_bytes, has_frame,
}

unfoldable pub stream_bytes : List Message → List ℕ
stream_bytes [] = []
stream_bytes (m ∷ ms) = frame_bytes m ++ stream_bytes ms

unfoldable pub numbered : ℕ → List Message → List Delivered
numbered n [] = []
numbered n (m ∷ ms) =
    record { type = m.type; sequence = n; payload = m.payload } ∷ numbered (n + 1) ms

-- The beginning of a frame that has not arrived in full.
pub record IsPart (tail : List ℕ) : Type 0 where
  pub message : Message
  pub sendable : IsSendable message
  pub missing : List ℕ
  pub nonempty : 0 < length missing
  pub joined : tail ++ missing ≡ frame_bytes message

frame_round_waits :
    (m : Message) (h : HapFrameHandler)
    → IsSendable m
    → IsValid h.stream
    → length (contents h.stream) < frame_size m
    → frame_round (take 4 (frame_bytes m ++ [])) h ≡ ok (stop need_more h)
unfolding frame_round
frame_round_waits m h ok_m v short = rw (
  detect-frame_bytes m ok_m [],
  size-frame_bytes m ok_m [],
  available-contents h.stream v,
  lt→ltb (length (contents h.stream)) (frame_size m) short,
)

part_header :
    (tail : List ℕ) (part : IsPart tail)
    → 4 ≤ length tail
    → take 4 tail ≡ take 4 (frame_bytes part.message ++ [])
part_header tail part long =
    sym (take-append_le 4 tail part.missing long)
    ∙ ap (take 4) part.joined
    ∙ ap (take 4) (sym (append-nil (frame_bytes part.message)))

part_short : (tail : List ℕ) (part : IsPart tail) → length tail < frame_size part.message
part_short tail part = omega (
  arith,
  ap length part.joined,
  length-append tail part.missing,
  length-frame_bytes part.message part.sendable,
  part.nonempty,
)

round_waits :
    (h : HapFrameHandler) (tail : List ℕ)
    → IsValid h.stream
    → contents h.stream ≡ tail
    → IsPart tail
    → round h ≡ ok (stop need_more h)
unfolding round
round_waits h tail v e part = elim (Bool-cases (ltb (length tail) 4)) [
  | inl short ↦ rw (
    available-contents h.stream v,
    lt→leb 4 (length (contents h.stream)) (ground (arith, ap length e)),
  )
  | inr long ↦
      let enough : 4 ≤ length (contents h.stream) = ground (arith, ap length e) in
      rw
        (
          available-contents h.stream v,
          le→leb 4 (length (contents h.stream)) enough,
          peek-contents 4 h.stream v enough,
          e,
          part_header tail part (ground arith),
        )
        (frame_round_waits part.message h part.sendable v
          (omega (arith, part_short tail part, ap length e)))
]

delivered-buffer :
    (s t : StreamBuffer) (frames : List HapFrame)
    → s.buffer ≡ t.buffer
    → delivered s frames ≡ delivered t frames
unfolding delivered view_bytes
delivered-buffer s t [] e = refl
delivered-buffer s t (frame ∷ frames) e =
    ap₂
      (λ b rest.
        record {
          type = frame.type;
          sequence = frame.sequence;
          payload = take frame.payload.size (drop frame.payload.start b);
        }
        ∷ rest)
      e (delivered-buffer s t frames e)

-- What `process_loop` does to the handler, and the frames that it cuts.
record Cuts (fuel : ℕ) (h : HapFrameHandler) (before : List HapFrame) (ms : List Message)
    (tail : List ℕ) : Type 0 where
  pub after : HapFrameHandler
  pub frames : List HapFrame
  pub runs : process_loop fuel h before ≡ ok (after, before ++ frames, need_more)
  pub rest : contents after.stream ≡ tail
  pub valid : IsValid after.stream
  pub same_memory : after.stream.buffer ≡ h.stream.buffer
  pub counted : after.sequence_number ≡ h.sequence_number + length ms
  pub shown : delivered h.stream frames ≡ numbered h.sequence_number ms

module _ (m : Message) (ok_m : IsSendable m) (ms : List Message) (h : HapFrameHandler)
    (tail : List ℕ) (v : IsValid h.stream) (lax : h.validate_frames ≡ false)
    (c : contents h.stream ≡ stream_bytes (m ∷ ms) ++ tail)
    (low : (h.stream.read_pos + length (stream_bytes (m ∷ ms))) * 2 ≤ length h.stream.buffer) where
  starts : contents h.stream ≡ frame_bytes m ++ (stream_bytes ms ++ tail)
  unfolding stream_bytes
  starts = c ∙ append_assoc (frame_bytes m) (stream_bytes ms) tail

  low_part :
      (h.stream.read_pos + frame_size m + length (stream_bytes ms)) * 2 ≤ length h.stream.buffer
  unfolding stream_bytes
  low_part =
      omega (arith, length-append (frame_bytes m) (stream_bytes ms), length-frame_bytes m ok_m, low)

  handler_after-IsValid : IsValid (skipped (frame_size m) h.stream)
  handler_after-IsValid =
      (skipped_lem (frame_size m) h.stream v
        (has_frame m ok_m (stream_bytes ms ++ tail) h v starts lax)).0

  after_contents : contents (skipped (frame_size m) h.stream) ≡ stream_bytes ms ++ tail
  after_contents =
      (skipped_lem (frame_size m) h.stream v
        (has_frame m ok_m (stream_bytes ms ++ tail) h v starts lax)).1
      ∙ ap (drop (frame_size m)) starts
      ∙ drop-append_left (frame_size m) (frame_bytes m) (stream_bytes ms ++ tail)
          (omega (arith, length-frame_bytes m ok_m))

  after_low :
      ((skipped (frame_size m) h.stream).read_pos + length (stream_bytes ms)) * 2
      ≤ length (skipped (frame_size m) h.stream).buffer
  unfolding skipped
  after_low = low_part

  Cuts-cons :
      (fuel : ℕ) (before : List HapFrame)
      → Cuts fuel (handler_after m h) (before ++ cut_frame m h ∷ []) ms tail
      → Cuts (suc fuel) h before (m ∷ ms) tail
  unfolding process_loop skipped delivered numbered
  Cuts-cons fuel before cuts = record {
    after = cuts.after;
    frames = cut_frame m h ∷ cuts.frames;
    runs =
        rw
          (
            round-frame_bytes m ok_m (stream_bytes ms ++ tail) h v starts lax
                (omega (arith, low_part)),
            process_loop,
          )
          (cuts.runs
            ∙ ap (λ fs. ok (cuts.after, fs, need_more))
                (append_assoc before (cut_frame m h ∷ []) cuts.frames));
    rest = cuts.rest;
    valid = cuts.valid;
    same_memory = cuts.same_memory;
    counted = omega (arith, cuts.counted);
    shown =
        ap₂ (λ p rest. record { type = m.type; sequence = h.sequence_number; payload = p } ∷ rest)
          (payload_bytes m ok_m (stream_bytes ms ++ tail) h v starts lax h.stream refl)
          (delivered-buffer h.stream (skipped (frame_size m) h.stream) cuts.frames refl
            ∙ cuts.shown);
  }

process_loop-stream_bytes :
    (ms : List Message) (fuel k : ℕ) (h : HapFrameHandler) (before : List HapFrame) (tail : List ℕ)
    → fuel ≡ length ms + suc k
    → All IsSendable ms
    → IsPart tail
    → IsValid h.stream
    → h.validate_frames ≡ false
    → contents h.stream ≡ stream_bytes ms ++ tail
    → (h.stream.read_pos + length (stream_bytes ms)) * 2 ≤ length h.stream.buffer
    → Cuts fuel h before ms tail
unfolding process_loop stream_bytes
process_loop-stream_bytes [] zero k h before tail e all part v lax c low = absurd (omega arith)
process_loop-stream_bytes [] (suc fuel) k h before tail e all part v lax c low = record {
  after = h;
  frames = [];
  runs = rw (round_waits h tail v c part, process_loop, append-nil);
  rest = c;
  valid = v;
  same_memory = refl;
  counted = omega arith;
  shown = unfold delivered numbered in refl;
}
process_loop-stream_bytes (m ∷ ms) zero k h before tail e all part v lax c low =
    absurd (omega arith)
process_loop-stream_bytes (m ∷ ms) (suc fuel) k h before tail e (ok_m, all) part v lax c low =
    Cuts-cons m ok_m ms h tail v lax c low fuel before (
      process_loop-stream_bytes ms fuel k (handler_after m h) (before ++ cut_frame m h ∷ []) tail
        (omega arith) all part (handler_after-IsValid m ok_m ms h tail v lax c low) lax
        (after_contents m ok_m ms h tail v lax c low) (after_low m ok_m ms h tail v lax c low))

length-stream_bytes-le : (ms : List Message) → length ms ≤ length (stream_bytes ms)
unfolding stream_bytes frame_bytes
length-stream_bytes-le [] = omega arith
length-stream_bytes-le (m ∷ ms) =
    omega (arith, length-append (frame_bytes m) (stream_bytes ms), length-stream_bytes-le ms)

-- If the frames that have arrived in full lie in the lower half of the buffer, one call of
-- `process` hands all of them to the listeners, in order, numbered and with their payloads, and
-- leaves the beginning of the next one in the stream.
pub process-stream_bytes :
    (ms : List Message) (tail : List ℕ) (h : HapFrameHandler)
    → All IsSendable ms
    → IsPart tail
    → IsValid h.stream
    → h.validate_frames ≡ false
    → contents h.stream ≡ stream_bytes ms ++ tail
    → (h.stream.read_pos + length (stream_bytes ms)) * 2 ≤ length h.stream.buffer
    → (h' : HapFrameHandler) × (frames : List HapFrame) × (process h ≡ ok (h', frames, need_more))
      × (delivered h'.stream frames ≡ numbered h.sequence_number ms)
      × (contents h'.stream ≡ tail)
      × (h'.sequence_number ≡ h.sequence_number + length ms)
unfolding process
process-stream_bytes ms tail h all part v lax c low =
    let k = available h.stream - length ms in
    let cuts =
      process_loop-stream_bytes ms (suc (available h.stream)) k h [] tail
        (omega (
          arith,
          available-contents h.stream v,
          ap length c,
          length-append (stream_bytes ms) tail,
          length-stream_bytes-le ms,
        ))
        all part v lax c low in
    (
      cuts.after,
      cuts.frames,
      cuts.runs,
      delivered-buffer cuts.after.stream h.stream cuts.frames cuts.same_memory ∙ cuts.shown,
      cuts.rest,
      cuts.counted,
    )
