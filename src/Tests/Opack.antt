-- ===== src/Tests/Opack.antt =====
-- Runs of core/encoding/opack.ts.
use bunatv.Prelude.{ℕ, ◌≡◌, refl, List, [], ◌∷◌, ◌++◌, arith, ok, true, same_bytes}
use bunatv.Opack.Value.{
  null, boolean, number, str, buffer, arr, dict, nil, cons, Fields, end, field, put_field,
  comes_before, count_fields, count_items, Runtime,
}
use bunatv.Opack.Pack.{
  encode, pack_key, pack_string, pack_integer, pack_buffer, pack_bytes, enclose, check_and_reuse,
  known_reference, find_index, reference,
}
use bunatv.Buffers.Pool.{BufferPool, empty_pool, release, get_bucket_size}
use bunatv.Buffers.Pool.Sound.{IsSound, IsSound-release}
use bunatv.Opack.Pooled
use bunatv.Opack.Pooled.{opack_pool}
use bunatv.Opack.Pooling.{IsSmall, packed_size}
use bunatv.Tests.Stream.{zeros, length-zeros}
use bunatv.Opack.Unpack.{decode}
use bunatv.Opack.Plain.{put_all, IsPlain, atoms}
use bunatv.Opack.RoundTrip.{decode-encode_dict}
use bunatv.Opack.Divergence.{message, hello, decode-encode_shifted}

-- A runtime for texts that are UTF-8.
abbrev pub plain_runtime : Runtime
plain_runtime = record {
  to_utf8_string = λ s. s;
  property_key = λ v. [];
  float32_value = λ n. null;
  float64_value = λ n. null;
  nearest_number = λ n. null;
}

-- { _i: "_i", _c: [true, null, 7, "_i"], _b: <1 2 3> }
abbrev pub command : Fields
command = field (b'_' ∷ b'i' ∷ []) (str (b'_' ∷ b'i' ∷ [])) (
    field (b'_' ∷ b'c' ∷ [])
      (arr (cons (boolean true) (cons null (cons (number 7) (cons (str (b'_' ∷ b'i' ∷ [])) nil)))))
      (field (b'_' ∷ b'b' ∷ []) (buffer (1 ∷ 2 ∷ 3 ∷ [])) end))

-- The key and both values "_i" are one object and two references to it.
pub encode-command :
    encode (dict command)
    ≡ ok (
        0xe3 ∷ 0x42 ∷ b'_' ∷ b'i' ∷ 0xa0 ∷ 0x42 ∷ b'_' ∷ b'c' ∷ 0xd4 ∷ 0x01 ∷ 0x04 ∷ 0x0f ∷ 0xa0
        ∷ 0x42 ∷ b'_' ∷ b'b' ∷ 0x73 ∷ 1 ∷ 2 ∷ 3 ∷ [])
unfolding encode pack_key pack_string pack_integer pack_buffer pack_bytes enclose count_fields
    check_and_reuse known_reference find_index same_bytes reference count_items
encode-command = refl

pub command-IsPlain : IsPlain plain_runtime (dict command)
unfolding put_all put_field comes_before same_bytes
command-IsPlain = (
  refl,
  (
    (omega arith, omega arith, refl),
    (omega arith, omega arith, refl),
    (
      (omega arith, omega arith, refl),
      (tt, (tt, (omega arith, ((omega arith, omega arith, refl), tt)))),
      ((omega arith, omega arith, refl), (omega arith, omega arith), tt),
    ),
  ),
)

-- A pool with a buffer of 256 bytes.
abbrev pub used_pool : BufferPool
used_pool = release opack_pool zeros (zeros 256) empty_pool

pub used_pool-IsSound : IsSound used_pool
unfolding get_bucket_size
used_pool-IsSound =
    IsSound-release opack_pool zeros length-zeros (zeros 256) empty_pool refl
      (record { sizes = λ bucket. tt }) refl

pub command-IsSmall : IsSmall (dict command)
unfolding packed_size
command-IsSmall = (
  omega arith,
  omega arith,
  omega arith,
  (
    omega arith,
    omega arith,
    (
      omega arith,
      tt,
      (omega arith, tt, (omega arith, omega arith, (omega arith, omega arith, tt))),
    ),
    (omega arith, omega arith, omega arith, tt),
  ),
)

decode-encode_dict_example :
    (packed : List ℕ) × (pool : BufferPool) × (Pooled.encode zeros (dict command) used_pool
      ≡ ok (packed, pool))
    × (decode plain_runtime (packed ++ 9 ∷ []) ≡ ok (dict command))
    × IsSound pool
unfolding atoms
decode-encode_dict_example =
    decode-encode_dict plain_runtime zeros length-zeros command (9 ∷ []) used_pool command-IsPlain
      command-IsSmall (omega arith) used_pool-IsSound

decode-encode_shifted_example :
    (packed : List ℕ) × (pool : BufferPool) × (Pooled.encode zeros
        (message 1000 hello hello)
        used_pool
      ≡ ok (packed, pool))
    × (decode plain_runtime packed ≡ ok (message 1000 hello (b'b' ∷ [])))
decode-encode_shifted_example =
    decode-encode_shifted plain_runtime refl refl refl refl zeros used_pool 1000 length-zeros
      used_pool-IsSound (omega arith) (omega arith)
