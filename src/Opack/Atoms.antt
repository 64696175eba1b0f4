-- ===== src/Opack/Atoms.antt =====
-- Strings and buffers, core/encoding/opack.ts: what `unpackValue` makes of the bytes that `packString`
-- and `packBytes` write.
use bunatv.Prelude.{
  ℕ, suc, ◌+◌, ◌<◌, ◌≤◌, ◌≡◌, refl, sym, ap, ◌∙◌, List, [], ◌∷◌, ◌++◌, inl, inr, arith, Result, ok,
  length, length-append, leb, le→leb, lt→leb, leb→le, Bool-cases, append_assoc,
}
use bunatv.Prelude.Bytes.{to_le, length-to_le}
use bunatv.Buffers.Reader.{
  BufferReader, has_more_cons, read_uint_be_one, read_uint_le-to_le, read_buffer-append,
}
use bunatv.Opack.Value.{Value, str, buffer, Runtime}
use bunatv.Opack.Pack.{pack_string, pack_bytes}
use bunatv.Opack.Unpack.{unpack_value, unpack_atom, unpack_text, unpack_data, read_text, read_data}

-- The reader at an offset with bytes to come.
abbrev pub at : ℕ → List ℕ → BufferReader
at o bs = record { offset = o; rest = bs }

module _ (js : Runtime) where
  -- A byte that begins no array and no dictionary.
  pub unpack_value-atom :
      (b fuel o : ℕ) (bs : List ℕ) (objects : List Value)
      → b < 0xd0
      → unpack_value js (suc fuel) (at o (b ∷ bs)) objects
        ≡ unpack_atom js b (at (o + 1) bs) objects
  unfolding unpack_value
  unpack_value-atom b fuel o bs objects h = rw (
    has_more_cons b o bs,
    read_uint_be_one b o bs,
    lt→leb 0xd0 b h,
    lt→leb 0xe0 b (omega arith),
    unpack_value,
  )

  read_text-append :
      (s rest : List ℕ) (o o' : ℕ) (objects : List Value)
      → js.to_utf8_string s ≡ s
      → o' ≡ o + length s
      → read_text js (length s) (at o (s ++ rest)) objects
        ≡ ok (str s, at o' rest, objects ++ str s ∷ [])
  unfolding read_text
  read_text-append s rest o o' objects e eo =
      (rw (read_buffer-append (length s) o s rest refl, e))
      ∙ ap (λ p. ok (str s, at p rest, objects ++ str s ∷ [])) (sym eo)

  read_data-append :
      (s rest : List ℕ) (o o' : ℕ) (objects : List Value)
      → o' ≡ o + length s
      → read_data (length s) (at o (s ++ rest)) objects
        ≡ ok (buffer s, at o' rest, objects ++ buffer s ∷ [])
  unfolding read_data
  read_data-append s rest o o' objects eo =
      (rw (read_buffer-append (length s) o s rest refl))
      ∙ ap (λ p. ok (buffer s, at p rest, objects ++ buffer s ∷ [])) (sym eo)

  unpack_text_lem :
      (b fuel o : ℕ) (bs : List ℕ) (objects : List Value)
      → 0x40 ≤ b
      → b ≤ 0x6f
      → unpack_value js (suc fuel) (at o (b ∷ bs)) objects
        ≡ unpack_text js b (at (o + 1) bs) objects
  unpack_text_lem b fuel o bs objects low high =
      unpack_value-atom b fuel o bs objects (omega arith)
      ∙ (unfold unpack_atom in
          rw (lt→leb b 0x07 (omega arith), lt→leb b 0x36 (omega arith), le→leb b 0x6f high))

  unpack_data_lem :
      (b fuel o : ℕ) (bs : List ℕ) (objects : List Value)
      → 0x70 ≤ b
      → b ≤ 0x94
      → unpack_value js (suc fuel) (at o (b ∷ bs)) objects ≡ unpack_data b (at (o + 1) bs) objects
  unpack_data_lem b fuel o bs objects low high =
      unpack_value-atom b fuel o bs objects (omega arith)
      ∙ (unfold unpack_atom in
          rw (
            lt→leb b 0x07 (omega arith),
            lt→leb b 0x36 (omega arith),
            lt→leb b 0x6f (omega arith),
            le→leb b 0x94 high,
          ))

  unpack_text_short :
      (n : ℕ) (r : BufferReader) (objects : List Value)
      → n ≤ 0x20
      → unpack_text js (0x40 + n) r objects ≡ read_text js n r objects
  unfolding unpack_text
  unpack_text_short n r objects h =
      rw (le→leb 0x40 (0x40 + n) (omega arith), le→leb (0x40 + n) 0x60 (omega arith))
        (ap (λ m. read_text js m r objects) (omega arith))

  unpack_text_byte :
      (n o : ℕ) (bs : List ℕ) (objects : List Value)
      → unpack_text js 0x61 (at o (n ∷ bs)) objects ≡ read_text js n (at (o + 1) bs) objects
  unfolding unpack_text
  unpack_text_byte n o bs objects = rw (read_uint_be_one n o bs)

  unpack_text_word :
      (n o : ℕ) (bs : List ℕ) (objects : List Value)
      → n ≤ 0xffff
      → unpack_text js 0x62 (at o (to_le 2 n ++ bs)) objects
        ≡ read_text js n (at (o + 2) bs) objects
  unfolding unpack_text
  unpack_text_word n o bs objects h = rw (read_uint_le-to_le 2 n o bs (omega arith))

  unpack_data_short :
      (n : ℕ) (r : BufferReader) (objects : List Value)
      → n ≤ 0x20
      → unpack_data (0x70 + n) r objects ≡ read_data n r objects
  unfolding unpack_data
  unpack_data_short n r objects h =
      rw (le→leb 0x70 (0x70 + n) (omega arith), le→leb (0x70 + n) 0x90 (omega arith))
        (ap (λ m. read_data m r objects) (omega arith))

  unpack_data_byte :
      (n o : ℕ) (bs : List ℕ) (objects : List Value)
      → unpack_data 0x91 (at o (n ∷ bs)) objects ≡ read_data n (at (o + 1) bs) objects
  unfolding unpack_data
  unpack_data_byte n o bs objects = rw (read_uint_be_one n o bs)

  unpack_data_word :
      (n o : ℕ) (bs : List ℕ) (objects : List Value)
      → n ≤ 0xffff
      → unpack_data 0x92 (at o (to_le 2 n ++ bs)) objects ≡ read_data n (at (o + 2) bs) objects
  unfolding unpack_data
  unpack_data_word n o bs objects h = rw (read_uint_le-to_le 2 n o bs (omega arith))

  -- The bytes of an atom that the decoder keeps, wherever they stand.
  abbrev pub Reads : Value → List ℕ → Type 0
  Reads v bytes =
      (fuel o : ℕ) (rest : List ℕ) (objects : List Value)
      → unpack_value js (suc fuel) (at o (bytes ++ rest)) objects
        ≡ ok (v, at (o + length bytes) rest, objects ++ v ∷ [])

  -- What `packString` and `packBytes` give: at least two bytes, of which the first is no terminator.
  pub record Atom (v : Value) (packed : Result (List ℕ)) : Type 0 where
    pub first : ℕ
    pub bytes : List ℕ
    pub is_ok : packed ≡ ok (first ∷ bytes)
    pub first_large : 0x40 ≤ first
    pub long : 0 < length bytes
    pub reads : Reads v (first ∷ bytes)

  pub Atom-pack_string :
      (s : List ℕ)
      → 0 < length s
      → length s ≤ 0xffff
      → js.to_utf8_string s ≡ s
      → Atom (str s) (pack_string s)
  Atom-pack_string s low high e =
      let n = length s in
      elim (Bool-cases (leb n 0x20)) [
        | inl short ↦ record {
          first = 0x40 + n;
          bytes = s;
          is_ok = unfold pack_string in rw short;
          first_large = omega arith;
          long = low;
          reads = λ fuel o rest objects.
              unpack_text_lem (0x40 + n) fuel o (s ++ rest) objects (omega arith)
                (omega (arith, leb→le n 0x20 short))
              ∙ unpack_text_short n (at (o + 1) (s ++ rest)) objects (leb→le n 0x20 short)
              ∙ read_text-append s rest (o + 1) (o + suc n) objects e (omega arith);
        }
        | inr over ↦ elim (Bool-cases (leb n 0xff)) [
          | inl byte ↦ record {
            first = 0x61;
            bytes = n ∷ s;
            is_ok = unfold pack_string in rw (over, byte);
            first_large = omega arith;
            long = omega arith;
            reads = λ fuel o rest objects.
                unpack_text_lem 0x61 fuel o (n ∷ (s ++ rest)) objects (omega arith) (omega arith)
                ∙ unpack_text_byte n (o + 1) (s ++ rest) objects
                ∙ read_text-append s rest (o + 1 + 1) (o + suc (suc n)) objects e (omega arith);
          }
          | inr word ↦ record {
            first = 0x62;
            bytes = to_le 2 n ++ s;
            is_ok = unfold pack_string in rw (over, word, le→leb n 0xffff high);
            first_large = omega arith;
            long = omega (arith, length-append (to_le 2 n) s);
            reads = λ fuel o rest objects.
                unpack_text_lem 0x62 fuel o ((to_le 2 n ++ s) ++ rest) objects (omega arith)
                  (omega arith)
                ∙ (rw (
                  append_assoc (to_le 2 n) s rest,
                  unpack_text_word n (o + 1) (s ++ rest) objects high,
                ))
                ∙ read_text-append s rest (o + 1 + 2) (o + suc (length (to_le 2 n ++ s))) objects e
                    (omega (arith, length-append (to_le 2 n) s, length-to_le 2 n));
          }
        ]
      ]

  pub Atom-pack_bytes :
      (s : List ℕ) → 0 < length s → length s ≤ 0xffff → Atom (buffer s) (pack_bytes s)
  Atom-pack_bytes s low high =
      let n = length s in
      elim (Bool-cases (leb n 0x20)) [
        | inl short ↦ record {
          first = 0x70 + n;
          bytes = s;
          is_ok = unfold pack_bytes in rw short;
          first_large = omega arith;
          long = low;
          reads = λ fuel o rest objects.
              unpack_data_lem (0x70 + n) fuel o (s ++ rest) objects (omega arith)
                (omega (arith, leb→le n 0x20 short))
              ∙ unpack_data_short n (at (o + 1) (s ++ rest)) objects (leb→le n 0x20 short)
              ∙ read_data-append s rest (o + 1) (o + suc n) objects (omega arith);
        }
        | inr over ↦ elim (Bool-cases (leb n 0xff)) [
          | inl byte ↦ record {
            first = 0x91;
            bytes = n ∷ s;
            is_ok = unfold pack_bytes in rw (over, byte);
            first_large = omega arith;
            long = omega arith;
            reads = λ fuel o rest objects.
                unpack_data_lem 0x91 fuel o (n ∷ (s ++ rest)) objects (omega arith) (omega arith)
                ∙ unpack_data_byte n (o + 1) (s ++ rest) objects
                ∙ read_data-append s rest (o + 1 + 1) (o + suc (suc n)) objects (omega arith);
          }
          | inr word ↦ record {
            first = 0x92;
            bytes = to_le 2 n ++ s;
            is_ok = unfold pack_bytes in rw (over, word, le→leb n 0xffff high);
            first_large = omega arith;
            long = omega (arith, length-append (to_le 2 n) s);
            reads = λ fuel o rest objects.
                unpack_data_lem 0x92 fuel o ((to_le 2 n ++ s) ++ rest) objects (omega arith)
                  (omega arith)
                ∙ (rw (
                  append_assoc (to_le 2 n) s rest,
                  unpack_data_word n (o + 1) (s ++ rest) objects high,
                ))
                ∙ read_data-append s rest (o + 1 + 2) (o + suc (length (to_le 2 n ++ s))) objects
                    (omega (arith, length-append (to_le 2 n) s, length-to_le 2 n));
          }
        ]
      ]
