-- ===== src/Opack/Unpack.antt =====
-- Unpacking, core/encoding/opack.ts. The decoder keeps the list of the objects it has read; which
-- bytes add to it is written out, as `keep` and `plain`.
use bunatv.Prelude.{
  ℕ, zero, suc, ◌+◌, ◌-◌, ◌*◌, List, [], ◌∷◌, ◌++◌, Option, none, some, Bool, true, false, ◌&&◌,
  not, same_bytes, Result, ok, err, out_of_fuel, buffer_underrun, reserved_byte, bad_reference,
  reference_size, unknown_byte, not_an_object, ◌>>=◌, ltb, leb, ◌==◌, ◌/◌, ◌%◌, if◌then◌else◌,
  length, take, drop, get_elem?,
}
use bunatv.Buffers.Reader.{
  BufferReader, reader, read_uint_be, read_uint_le, read_buffer, peek, has_more, advance,
}
use bunatv.Opack.Value.{
  Value, null, boolean, number, negative, bigint, str, buffer, arr, dict, Items, nil, Fields, end,
  snoc, put_field, Runtime,
}

abbrev pub Unpacked : Type 0
Unpacked = Value × BufferReader × List Value

abbrev pub plain : Value → BufferReader → List Value → Result Unpacked
plain v r objects = ok (v, r, objects)

-- `objectList.push(value)` at the end of `unpackValue`
abbrev pub keep : Value → BufferReader → List Value → Result Unpacked
keep v r objects = ok (v, r, objects ++ v ∷ [])

hex_digit : ℕ → ℕ
hex_digit d = if ltb d 10 then b'0' + d else b'a' + (d - 10)

hex : List ℕ → List ℕ
hex [] = []
hex (b ∷ bs) = hex_digit (b / 16) ∷ hex_digit (b % 16) ∷ hex bs

-- The five groups of the hexadecimal text.
unfoldable pub uuid_text : List ℕ → List ℕ
unfolding hex hex_digit
uuid_text bytes =
    let text = hex bytes in
    take 8 text
    ++ (b'-'
        ∷ (take 4 (drop 8 text)
            ++ (b'-'
                ∷ (take 4 (drop 12 text)
                    ++ (b'-' ∷ (take 4 (drop 16 text) ++ (b'-' ∷ take 12 (drop 20 text))))))))

-- The bytes up to a zero byte or the end, and how many bytes were read.
unfoldable pub until_zero : List ℕ → List ℕ × ℕ
until_zero [] = ([], 0)
until_zero (b ∷ bs) = let (text, n) = until_zero bs in if b == 0 then ([], 1) else (b ∷ text, suc n)

unfoldable pub read_reference : ℕ → BufferReader → List Value → Result Unpacked
read_reference index r objects = elim (get_elem? objects index) [
  | none ↦ err bad_reference
  | some v ↦ plain v r objects
]

unfoldable pub read_data : ℕ → BufferReader → List Value → Result Unpacked
read_data len r objects = let (bytes, r') = read_buffer len r in keep (buffer bytes) r' objects

-- 0x70 to 0x94
unfoldable pub unpack_data : ℕ → BufferReader → List Value → Result Unpacked
unpack_data byte r objects =
    if leb 0x70 byte && leb byte 0x90
    then read_data (byte - 0x70) r objects
    else if byte == 0x91
    then (do (len, r') ← read_uint_be 1 r; read_data len r' objects)
    else if byte == 0x92
    then (do (len, r') ← read_uint_le 2 r; read_data len r' objects)
    else if byte == 0x93
    then (do (len, r') ← read_uint_le 4 r; read_data len r' objects)
    else if byte == 0x94
    then (do (len, r') ← read_uint_le 8 r; read_data len r' objects)
    else err unknown_byte

-- 0xa0 to 0xc4
unfoldable pub unpack_reference : ℕ → BufferReader → List Value → Result Unpacked
unpack_reference byte r objects =
    if leb 0xa0 byte && leb byte 0xc0
    then read_reference (byte - 0xa0) r objects
    else if byte == 0xc1
    then (do (index, r') ← read_uint_be 1 r; read_reference index r' objects)
    else if byte == 0xc2
    then (do (index, r') ← read_uint_le 2 r; read_reference index r' objects)
    else if byte == 0xc4
    then (do (index, r') ← read_uint_le 4 r; read_reference index r' objects)
    else if byte == 0xc3
    then err reference_size
    else err unknown_byte

-- More elements: the count that is left, or in the endless form no terminator.
unfoldable pub more : Option ℕ → BufferReader → Bool
more none r = has_more r && not (same_bytes (peek 1 r) (0x03 ∷ []))
more (some zero) r = false
more (some (suc n)) r = true

unfoldable pub less : Option ℕ → Option ℕ
less none = none
less (some n) = some (n - 1)

-- After the endless form the terminator is skipped, if there is one.
unfoldable pub close : Option ℕ → BufferReader → BufferReader
close none r = if has_more r then advance 1 r else r
close (some n) r = r

unfoldable pub count_of : ℕ → Option ℕ
count_of count = if count == 0xf then none else some count

module _ (js : Runtime) where
  unfoldable pub read_text : ℕ → BufferReader → List Value → Result Unpacked
  read_text len r objects =
      let (bytes, r') = read_buffer len r in keep (str (js.to_utf8_string bytes)) r' objects

  -- 0x00 to 0x07
  unfoldable pub unpack_simple : ℕ → BufferReader → List Value → Result Unpacked
  unpack_simple byte r objects =
      if byte == 0x00
      then err reserved_byte
      else if byte == 0x01
      then plain (boolean true) r objects
      else if byte == 0x02
      then plain (boolean false) r objects
      else if byte == 0x03
      then plain null r objects
      else if byte == 0x04
      then plain null r objects
      else if byte == 0x05
      then (let (bytes, r') = read_buffer 16 r in keep (str (uuid_text bytes)) r' objects)
      else if byte == 0x06
      then (do (n, r') ← read_uint_le 8 r; keep (js.nearest_number n) r' objects)
      else plain (negative 0) r objects

  -- 0x08 to 0x36
  unfoldable pub unpack_number : ℕ → BufferReader → List Value → Result Unpacked
  unpack_number byte r objects =
      if leb byte 0x2f
      then plain (number (byte - 0x08)) r objects
      else if byte == 0x30
      then (do (n, r') ← read_uint_be 1 r; keep (number n) r' objects)
      else if byte == 0x31
      then (do (n, r') ← read_uint_le 2 r; keep (number n) r' objects)
      else if byte == 0x32
      then (do (n, r') ← read_uint_le 4 r; keep (number n) r' objects)
      else if byte == 0x33
      then (do (n, r') ← read_uint_le 8 r; keep (bigint n) r' objects)
      else if byte == 0x34
      then (do (n, r') ← read_uint_le 16 r; keep (bigint n) r' objects)
      else if byte == 0x35
      then (do (bits, r') ← read_uint_le 4 r; keep (js.float32_value bits) r' objects)
      else (do (bits, r') ← read_uint_le 8 r; keep (js.float64_value bits) r' objects)

  -- 0x40 to 0x64, and 0x6f
  unfoldable pub unpack_text : ℕ → BufferReader → List Value → Result Unpacked
  unpack_text byte r objects =
      if leb 0x40 byte && leb byte 0x60
      then read_text (byte - 0x40) r objects
      else if byte == 0x61
      then (do (len, r') ← read_uint_be 1 r; read_text len r' objects)
      else if byte == 0x62
      then (do (len, r') ← read_uint_le 2 r; read_text len r' objects)
      else if byte == 0x63
      then (do (len, r') ← read_uint_le 3 r; read_text len r' objects)
      else if byte == 0x64
      then (do (len, r') ← read_uint_le 4 r; read_text len r' objects)
      else if byte == 0x6f
      then (let (text, n) = until_zero r.rest in
          keep (str (js.to_utf8_string text)) (advance n r) objects)
      else err unknown_byte

  -- Every byte that begins neither an array nor a dictionary.
  unfoldable pub unpack_atom : ℕ → BufferReader → List Value → Result Unpacked
  unpack_atom byte r objects =
      if leb byte 0x07
      then unpack_simple byte r objects
      else if leb byte 0x36
      then unpack_number byte r objects
      else if leb byte 0x6f
      then unpack_text byte r objects
      else if leb byte 0x94
      then unpack_data byte r objects
      else unpack_reference byte r objects

  -- `result[key]`: a string is its own key.
  unfoldable pub key_of : Value → List ℕ
  key_of (str s) = s
  key_of v = js.property_key v

  unfoldable mutual
    pub unpack_value : ℕ → BufferReader → List Value → Result Unpacked
    unpack_value zero r objects = err out_of_fuel
    unpack_value (suc fuel) r objects = elim (has_more r) [
      | false ↦ err buffer_underrun
      | true ↦ elim (read_uint_be 1 r) [
        | err e ↦ err e
        | ok (byte, r') ↦ elim (leb 0xd0 byte && leb byte 0xdf) [
          | true ↦ unpack_items fuel (count_of (byte - 0xd0)) nil r' objects
          | false ↦ elim (leb 0xe0 byte && leb byte 0xef) [
            | true ↦ unpack_fields fuel (count_of (byte - 0xe0)) end r' objects
            | false ↦ unpack_atom byte r' objects
          ]
        ]
      ]
    ]

    pub unpack_items : ℕ → Option ℕ → Items → BufferReader → List Value → Result Unpacked
    unpack_items zero count result r objects = err out_of_fuel
    unpack_items (suc fuel) count result r objects = elim (more count r) [
      | false ↦ ok (arr result, close count r, objects)
      | true ↦ elim (unpack_value fuel r objects) [
        | err e ↦ err e
        | ok (v, r', objects') ↦ unpack_items fuel (less count) (snoc result v) r' objects'
      ]
    ]

    pub unpack_fields : ℕ → Option ℕ → Fields → BufferReader → List Value → Result Unpacked
    unpack_fields zero count result r objects = err out_of_fuel
    unpack_fields (suc fuel) count result r objects = elim (more count r) [
      | false ↦ ok (dict result, close count r, objects)
      | true ↦ elim (unpack_value fuel r objects) [
        | err e ↦ err e
        | ok (key, r₁, objects₁) ↦ elim (unpack_value fuel r₁ objects₁) [
          | err e ↦ err e
          | ok (v, r₂, objects₂) ↦
              unpack_fields fuel (less count) (put_field (key_of key) v result) r₂ objects₂
        ]
      ]
    ]

  -- `Object.keys(null)` throws. A value takes a byte and at most two steps of the recursion.
  unfoldable pub decode : List ℕ → Result Value
  unfolding unpack_value
  decode bytes = do
    (v, r, objects) ← unpack_value (suc (2 * length bytes)) (reader bytes) []
    (elim v [ null ↦ err not_an_object | w ↦ ok w ])
