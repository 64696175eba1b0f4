-- ===== src/Buffers/Reader.antt =====
-- `BufferReader` of core/encoding/buffer-utils.ts. The buffer never changes, so a reader is its
-- offset and the bytes of the buffer from there on (none once the offset has passed the end).
use bunatv.Prelude.{
  ℕ, ◌+◌, ◌^◌, ◌<◌, ◌≡◌, List, ◌∷◌, ◌++◌, Bool, arith, Result, ok, err, out_of_bounds, ltb, le→ltb,
  lt→ltb, true, if◌then◌else◌, length, length-append, take, drop, take-append_left,
  drop-append_left,
}
use bunatv.Prelude.Bytes.{
  to_be, of_be, to_le, of_le, length-to_be, length-to_le, of_be-to_be, of_le-to_le,
}

pub record BufferReader : Type 0 where
  pub offset : ℕ
  pub rest : List ℕ

unfoldable pub reader : List ℕ → BufferReader
reader bytes = record { offset = 0; rest = bytes }

-- The reader `n` bytes further on.
unfoldable pub advance : ℕ → BufferReader → BufferReader
advance n r = record { offset = r.offset + n; rest = drop n r.rest }

-- `readUInt8`, `readUInt16BE`, `readUInt24BE`, `readUInt32BE`: `n` is 1, 2, 3, 4.
unfoldable pub read_uint_be : ℕ → BufferReader → Result (ℕ × BufferReader)
unfolding advance
read_uint_be n r =
    if ltb (length r.rest) n then err out_of_bounds else ok (of_be (take n r.rest), advance n r)

-- `readUInt8`, `readUInt16LE`, `readUInt24LE`, `readUInt32LE`.
unfoldable pub read_uint_le : ℕ → BufferReader → Result (ℕ × BufferReader)
unfolding advance
read_uint_le n r =
    if ltb (length r.rest) n then err out_of_bounds else ok (of_le (take n r.rest), advance n r)

-- `subarray` stops at the end of the buffer, the offset does not.
unfoldable pub read_buffer : ℕ → BufferReader → List ℕ × BufferReader
unfolding advance
read_buffer n r = (take n r.rest, advance n r)

unfoldable pub peek : ℕ → BufferReader → List ℕ
peek n r = take n r.rest

unfoldable pub remaining : BufferReader → ℕ
remaining r = length r.rest

unfoldable pub has_more : BufferReader → Bool
has_more r = ltb 0 (length r.rest)

module _ (n v offset : ℕ) (rest : List ℕ) (fits : v < 256 ^ n) where
  pub read_uint_be-to_be :
      read_uint_be n (record { offset = offset; rest = to_be n v ++ rest })
      ≡ ok (v, record { offset = offset + n; rest = rest })
  unfolding read_uint_be
  read_uint_be-to_be = rw (
    le→ltb (length (to_be n v ++ rest)) n
        (omega (arith, length-append (to_be n v) rest, length-to_be n v)),
    take-append_left n (to_be n v) rest (omega (arith, length-to_be n v)),
    drop-append_left n (to_be n v) rest (omega (arith, length-to_be n v)),
    of_be-to_be n v fits,
  )

  pub read_uint_le-to_le :
      read_uint_le n (record { offset = offset; rest = to_le n v ++ rest })
      ≡ ok (v, record { offset = offset + n; rest = rest })
  unfolding read_uint_le
  read_uint_le-to_le = rw (
    le→ltb (length (to_le n v ++ rest)) n
        (omega (arith, length-append (to_le n v) rest, length-to_le n v)),
    take-append_left n (to_le n v) rest (omega (arith, length-to_le n v)),
    drop-append_left n (to_le n v) rest (omega (arith, length-to_le n v)),
    of_le-to_le n v fits,
  )

pub read_buffer-append :
    (n offset : ℕ) (bs rest : List ℕ)
    → n ≡ length bs
    → read_buffer n (record { offset = offset; rest = bs ++ rest })
      ≡ (bs, record { offset = offset + n; rest = rest })
unfolding read_buffer
read_buffer-append n offset bs rest e =
    rw (take-append_left n bs rest e, drop-append_left n bs rest e)

pub read_uint_be_one :
    (b offset : ℕ) (rest : List ℕ)
    → read_uint_be 1 (record { offset = offset; rest = b ∷ rest })
      ≡ ok (b, record { offset = offset + 1; rest = rest })
unfolding read_uint_be of_be
read_uint_be_one b offset rest = ground arith

pub has_more_cons :
    (b offset : ℕ) (rest : List ℕ) → has_more (record { offset = offset; rest = b ∷ rest }) ≡ true
unfolding has_more
has_more_cons b offset rest = lt→ltb 0 (length (b ∷ rest)) (omega arith)
