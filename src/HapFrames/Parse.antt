-- ===== src/HapFrames/Parse.antt =====
-- The bytes of one frame, and what the parts of HapFrameHandler.ts read from them.
use bunatv.Prelude.{
  ℕ, ◌+◌, ◌≤◌, ◌<◌, ◌≡◌, ap, List, ◌∷◌, ◌++◌, arith, some, true, ok, length, length-append, take,
  append_assoc,
}
use bunatv.Prelude.Bytes.{to_be, uint_be_fits, length-to_be}
use bunatv.Buffers.Reader.{reader, remaining, read_uint_be_one, read_uint_be-to_be}
use bunatv.HapFrames.{
  is_valid_frame_type, detect_hap_frame, get_frame_size, parse_hap_frame, encode,
}

-- A frame as its sender sees it.
pub record Message : Type 0 where
  pub type : ℕ
  pub payload : List ℕ

unfoldable pub frame_bytes : Message → List ℕ
frame_bytes m = m.type ∷ (to_be 3 (length m.payload) ++ m.payload)

-- The types of the protocol; the marker 0xff for the legacy format is none of them.
pub record IsSendable (m : Message) : Type 0 where
  pub known : is_valid_frame_type m.type ≡ true
  pub wire : m.type < 0x12
  pub nonempty : 0 < length m.payload
  pub bounded : length m.payload ≤ 65536

module _ (m : Message) (v : IsSendable m) where
  pub encode-frame_bytes : encode m.payload m.type ≡ ok (frame_bytes m)
  unfolding encode frame_bytes to_be
  encode-frame_bytes =
      rw
        (
          uint_be_fits 1 m.type (omega (arith, v.wire)),
          uint_be_fits 3 (length m.payload) (omega (arith, v.bounded)),
        )
        (ap (λ b. ok (b ∷ (to_be 3 (length m.payload) ++ m.payload))) (omega (arith, v.wire)))

  pub detect-frame_bytes :
      (rest : List ℕ) → detect_hap_frame (take 4 (frame_bytes m ++ rest)) ≡ true
  unfolding detect_hap_frame frame_bytes to_be is_valid_frame_type
  detect-frame_bytes rest = ground (arith, v.known, v.wire, v.nonempty, v.bounded)

  pub size-frame_bytes :
      (rest : List ℕ) → get_frame_size (take 4 (frame_bytes m ++ rest)) ≡ ok (4 + length m.payload)
  unfolding get_frame_size frame_bytes to_be
  size-frame_bytes rest = ground (arith, v.known, v.bounded)

  pub length-frame_bytes : length (frame_bytes m) ≡ 4 + length m.payload
  unfolding frame_bytes to_be
  length-frame_bytes = omega arith

  pub parse-frame_bytes :
      (more : List ℕ)
      → parse_hap_frame (frame_bytes m ++ more) ≡ ok (some (m.type, length m.payload))
  unfolding parse_hap_frame frame_bytes reader remaining
  parse-frame_bytes more =
      rw
        (
          read_uint_be_one,
          append_assoc (to_be 3 (length m.payload)) m.payload more,
          read_uint_be-to_be 3 (length m.payload) (0 + 1) (m.payload ++ more)
              (omega (arith, v.bounded)),
          v.known,
        )
        (ground (
          arith,
          length-append m.payload more,
          length-append (to_be 3 (length m.payload)) (m.payload ++ more),
          length-to_be 3 (length m.payload),
        ))
