-- ===== src/Prelude/Results.antt =====
-- Thrown errors as values. A JavaScript exception is `err` with the place that throws it.

pub data Error : Type 0 where
  -- a `Buffer` method reads or writes past the end, or is given a value out of range
  out_of_bounds value_out_of_range : Error
  tlv_type_range : Error
  stream_overflow cannot_grow : Error
  -- OPACK
  integer_too_large string_too_long bytes_too_long buffer_underrun reserved_byte : Error
  bad_reference reference_size unknown_byte not_an_object : Error
  -- the recursion bound of a model was reached: no behaviour of the source
  out_of_fuel : Error
  encryption_failed decryption_failed : Error
  varint_too_long incomplete_varint : Error
  packet_too_small invalid_tag : Error

pub data Result {ℓ} (T : Type ℓ) : Type ℓ where
  err : Error → Result T
  ok : T → Result T

-- The rest of a block of statements, unless an earlier one has thrown.
infixl 5 ◌>>=◌
abbrev pub ◌>>=◌ {κ ℓ} : {U : Type κ} {T : Type ℓ} → Result T → (T → Result U) → Result U
err thrown >>= next = err thrown
ok value >>= next = next value
