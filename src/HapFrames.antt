-- ===== src/HapFrames.antt =====
-- protocols/companion/layers/HapFrameHandler.ts: frames of a type byte, three bytes of length and a
-- payload, cut out of the stream of bytes that the transport delivers. A frame's payload is a view
-- of the memory of the stream buffer; its listeners run after `process` has returned.
pub mod Parse
pub mod Frames
pub mod Streams
pub mod Overlap
use bunatv.Prelude.{
  ℕ, zero, suc, ◌+◌, ◌-◌, ◌*◌, ◌≤◌, ◌<◌, List, [], ◌∷◌, ◌++◌, Option, none, some, Bool, true, false,
  not, ◌&&◌, ◌||◌, Result, ok, err, out_of_fuel, out_of_bounds, ◌>>=◌, ltb, leb, ◌==◌,
  if◌then◌else◌, length, take, drop,
}
use bunatv.Prelude.Bytes.{uint_be, of_be, of_le}
use bunatv.Buffers.Reader.{BufferReader, reader, read_uint_be, read_buffer, remaining}
use bunatv.Buffers.Stream.{StreamBuffer, View, view_bytes, available, append, consume, peek}

-- `format`, `timestamp`, and `totalSize`, which is `4 + length`, are left out.
pub record HapFrame : Type 0 where
  pub type : ℕ
  pub encrypted : Bool
  pub payload : View
  pub size : ℕ
  pub sequence : ℕ

abbrev pub encrypted_opack : ℕ
encrypted_opack = 0x08

unfoldable pub is_valid_frame_type : ℕ → Bool
is_valid_frame_type t =
    t == 0x03
    || (t == 0x04
        || (t == 0x05
            || (t == 0x06 || (t == encrypted_opack || (t == 0x10 || (t == 0x11 || t == 0xff))))))

-- `length > 0 && length <= 65536`
abbrev pub is_frame_length : ℕ → Bool
is_frame_length n = ltb 0 n && leb n 65536

-- On the four bytes that `process` peeks at; there are no fewer.
unfoldable pub detect_hap_frame : List ℕ → Bool
unfolding of_be of_le
detect_hap_frame header =
    let first = of_be (take 1 header) in
    if ltb (length header) 4
    then false
    else if (leb 0x03 first && leb first 0x08) || (leb 0x10 first && leb first 0x11)
    then is_frame_length (of_be (take 3 (drop 1 header)))
    else is_frame_length (of_le (take 4 header))

unfoldable pub get_frame_size : List ℕ → Result ℕ
unfolding is_valid_frame_type of_be of_le
get_frame_size header =
    if ltb (length header) 4
    then err out_of_bounds
    else if is_valid_frame_type (of_be (take 1 header))
    then ok (4 + of_be (take 3 (drop 1 header)))
    else ok (4 + of_le (take 4 header))

-- What the parser reads: the type, the length, and how many payload bytes the view has.
unfoldable pub parse_hap_frame : List ℕ → Result (Option (ℕ × ℕ))
parse_hap_frame bytes = if ltb (length bytes) 4 then ok none else do
  (type, r₁) ← read_uint_be 1 (reader bytes)
  (size, r₂) ← read_uint_be 3 r₁
  ok (
      if is_valid_frame_type type
      then if ltb (remaining r₂) size then none else some (type, size)
      else none)

-- `writeUInt8(type)`, `writeUInt24BE(payload.length)`, the payload.
unfoldable pub encode : List ℕ → ℕ → Result (List ℕ)
encode payload type = do
  type_byte ← uint_be 1 type
  size_bytes ← uint_be 3 (length payload)
  ok (type_byte ++ (size_bytes ++ payload))

-- `validTypes` has no session start frames. The payload has the length that was parsed.
unfoldable pub validate : HapFrame → Bool
validate frame =
    (frame.type == 0x03
      || (frame.type == 0x04
          || (frame.type == 0x05
              || (frame.type == 0x06 || (frame.type == encrypted_opack || frame.type == 0xff)))))
    && (frame.size == frame.payload.size && leb frame.size 65536)

pub record HapFrameHandler : Type 0 where
  pub stream : StreamBuffer
  pub sequence_number : ℕ
  pub validate_frames : Bool

-- How `process` leaves its loop; only `invalid_format` is told to anybody, by an `error` event.
pub data Stop : Type 0 where
  need_more invalid_format not_parsed not_valid : Stop

-- What one round does: it ends the loop, or it cuts one frame out of the stream.
pub data Round : Type 0 where
  stop : Stop → HapFrameHandler → Round
  cut : HapFrame → HapFrameHandler → Round

-- A round from the consumed view on; `h` has consumed it already.
unfoldable pub parse_round : View → HapFrameHandler → Result Round
parse_round view h = do
  parsed ← parse_hap_frame (view_bytes view h.stream)
  (elim parsed [
    | none ↦ ok (stop not_parsed h)
    | some (type, size) ↦
        let frame : HapFrame = record {
          type = type;
          encrypted = type == encrypted_opack;
          payload = record { start = view.start + 4; size = size };
          size = size;
          sequence = h.sequence_number;
        } in
        let h' = record h { sequence_number = h.sequence_number + 1 } in
        ok (if h.validate_frames && not (validate frame) then stop not_valid h' else cut frame h')
  ])

-- A round once the header is known.
unfoldable pub frame_round : List ℕ → HapFrameHandler → Result Round
frame_round header h = if not (detect_hap_frame header) then ok (stop invalid_format h) else do
  size ← get_frame_size header
  (if ltb (available h.stream) size then ok (stop need_more h) else elim (consume size h.stream) [
    | none ↦ ok (stop need_more h)
    | some (view, s) ↦ parse_round view (record h { stream = s })
  ])

unfoldable pub round : HapFrameHandler → Result Round
round h =
    if leb 4 (available h.stream)
    then elim (peek 4 0 h.stream) [
      | none ↦ ok (stop need_more h)
      | some header ↦ frame_round header h
    ]
    else ok (stop need_more h)

-- Every round but the last consumes a frame, so the bytes available bound the rounds.
unfoldable pub process_loop :
    ℕ → HapFrameHandler → List HapFrame → Result (HapFrameHandler × List HapFrame × Stop)
process_loop zero h frames = err out_of_fuel
process_loop (suc fuel) h frames = elim (round h) [
  | err e ↦ err e
  | ok (stop why h') ↦ ok (h', frames, why)
  | ok (cut frame h') ↦ process_loop fuel h' (frames ++ frame ∷ [])
]

unfoldable pub process : HapFrameHandler → Result (HapFrameHandler × List HapFrame × Stop)
process h = process_loop (suc (available h.stream)) h []

-- What the listeners of one call of `process` see: a frame's type, sequence and payload bytes, in
-- the memory as `process` has left it.
pub record Delivered : Type 0 where
  pub type : ℕ
  pub sequence : ℕ
  pub payload : List ℕ

unfoldable pub delivered : StreamBuffer → List HapFrame → List Delivered
delivered s [] = []
delivered s (frame ∷ frames) =
    record { type = frame.type; sequence = frame.sequence; payload = view_bytes frame.payload s }
    ∷ delivered s frames

-- `push`, with the parse that it schedules.
unfoldable pub push :
    (ℕ → List ℕ) → List ℕ → HapFrameHandler → Result (HapFrameHandler × List Delivered × Stop)
push allocate bytes h = do
  s ← append allocate bytes h.stream
  (h', frames, why) ← process (record h { stream = s })
  ok (h', delivered h'.stream frames, why)
