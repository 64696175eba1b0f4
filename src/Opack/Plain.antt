-- ===== src/Opack/Plain.antt =====
-- The values of which the encoder and the decoder of core/encoding/opack.ts keep the same objects, and
-- those of them that hold no others.
use bunatv.Prelude.{
  ℕ, ◌+◌, ◌<◌, ◌≤◌, ◌≡◌, ◌≢◌, refl, sym, subst, ap, ◌∙◌, List, [], ◌∷◌, Bool, true, false, arith,
  ok, length, lt→ltb, le→leb, lt→leb,
}
use bunatv.Buffers.Reader.{BufferReader}
use bunatv.Opack.Value.{
  Value, null, boolean, number, negative, bigint, negative_bigint, double, str, buffer, arr, dict,
  Items, nil, cons, Fields, end, field, put_field, Runtime,
}
use bunatv.Opack.Pack.{
  pack_value, pack_key, pack_buffer, pack_string, pack_bytes, check_and_reuse, pack_integer,
}
use bunatv.Opack.Unpack.{unpack_atom, unpack_simple, unpack_number}
use bunatv.Opack.Atoms.{at, Atom-pack_string, Atom-pack_bytes, unpack_value-atom}
use bunatv.Opack.Objects.{InStep, Packs, Packs-check_and_reuse}

-- The strings and buffers of a value: as many objects as the encoder's list can hold.
unfoldable mutual
  pub atoms : Value → ℕ
  atoms (str s) = 1
  atoms (buffer bytes) = 1
  atoms (arr xs) = atoms_items xs
  atoms (dict fs) = atoms_fields fs
  atoms v = 0

  pub atoms_items : Items → ℕ
  atoms_items nil = 0
  atoms_items (cons x xs) = atoms x + atoms_items xs

  pub atoms_fields : Fields → ℕ
  atoms_fields end = 0
  atoms_fields (field k v fs) = 1 + (atoms v + atoms_fields fs)

-- The object that JavaScript builds from entries, one after the other.
unfoldable pub put_all : Fields → Fields → Fields
put_all result end = result
put_all result (field k v fs) = put_all (put_field k v result) fs

pack_key_ok :
    (s packed : List ℕ) (ps : List (List ℕ))
    → pack_string s ≡ ok packed
    → pack_key s ps ≡ ok (check_and_reuse packed ps)
unfolding pack_key
pack_key_ok s packed ps e = rw e

pack_buffer_ok :
    (bytes packed : List ℕ) (ps : List (List ℕ))
    → pack_bytes bytes ≡ ok packed
    → pack_buffer bytes ps ≡ ok (check_and_reuse packed ps)
unfolding pack_buffer
pack_buffer_ok bytes packed ps e = rw e

module _ (js : Runtime) where
  -- A text that the length forms hold, and that is UTF-8.
  abbrev pub IsText : List ℕ → Type 0
  IsText s = (0 < length s) × (length s ≤ 0xffff) × (js.to_utf8_string s ≡ s)

  -- Values of which both lists of objects are kept in step: integers below 40, texts and buffers that
  -- are not empty, arrays, and objects whose entries stand in JavaScript's order.
  abbrev mutual
    pub IsPlain : Value → Type 0
    IsPlain null = Unit
    IsPlain (boolean b) = Unit
    IsPlain (number n) = n < 0x28
    IsPlain (str s) = IsText s
    IsPlain (buffer bytes) = (0 < length bytes) × (length bytes ≤ 0xffff)
    IsPlain (arr xs) = IsPlainItems xs
    IsPlain (dict fs) = (put_all end fs ≡ fs) × IsPlainFields fs
    IsPlain (negative n) = ⊥
    IsPlain (bigint n) = ⊥
    IsPlain (negative_bigint n) = ⊥
    IsPlain (double bits) = ⊥

    pub IsPlainItems : Items → Type 0
    IsPlainItems nil = Unit
    IsPlainItems (cons x xs) = IsPlain x × IsPlainItems xs

    pub IsPlainFields : Fields → Type 0
    IsPlainFields end = Unit
    IsPlainFields (field k v fs) = IsText k × IsPlain v × IsPlainFields fs

  pub Packs-pack_key :
      (s : List ℕ) (ps : List (List ℕ)) (vs : List Value)
      → IsText s
      → InStep js ps vs
      → length ps < 0x10000
      → Packs js (str s) vs (length ps) 1 (pack_key s ps)
  Packs-pack_key s ps vs (low, high, e) steps room =
      let a = Atom-pack_string js s low high e in
      let p =
        Packs-check_and_reuse js (str s) a.first a.bytes ps vs a.reads a.first_large a.long steps
          room in
      subst (Packs js (str s) vs (length ps) 1) (sym (pack_key_ok s (a.first ∷ a.bytes) ps a.is_ok))
        p

  pub Packs-pack_buffer :
      (bytes : List ℕ) (ps : List (List ℕ)) (vs : List Value)
      → 0 < length bytes
      → length bytes ≤ 0xffff
      → InStep js ps vs
      → length ps < 0x10000
      → Packs js (buffer bytes) vs (length ps) 1 (pack_buffer bytes ps)
  Packs-pack_buffer bytes ps vs low high steps room =
      let a = Atom-pack_bytes js bytes low high in
      let p =
        Packs-check_and_reuse js (buffer bytes) a.first a.bytes ps vs a.reads a.first_large a.long
          steps room in
      subst (Packs js (buffer bytes) vs (length ps) 1)
        (sym (pack_buffer_ok bytes (a.first ∷ a.bytes) ps a.is_ok)) p

  -- A value of one byte, which neither list keeps.
  pub Packs-byte :
      (v : Value) (b : ℕ) (ps : List (List ℕ)) (vs : List Value)
      → b ≢ 0x03
      → b < 0xd0
      → ((r : BufferReader) → unpack_atom js b r vs ≡ ok (v, r, vs))
      → InStep js ps vs
      → Packs js v vs (length ps) 0 (ok (b ∷ [], ps))
  Packs-byte v b ps vs other low reads steps = record {
    bytes = b ∷ [];
    objects = ps;
    after = vs;
    is_ok = refl;
    opens = ground arith;
    unpacks = λ fuel o rest l. unpack_value-atom js b fuel o rest vs low ∙ reads (at (o + 1) rest);
    in_step = steps;
    bound = omega arith;
  }

  unpack_atom_number :
      (n : ℕ) (r : BufferReader) (vs : List Value)
      → n < 0x28
      → unpack_atom js (n + 0x08) r vs ≡ ok (number n, r, vs)
  unfolding unpack_atom unpack_number
  unpack_atom_number n r vs h =
      rw
        (
          lt→leb (n + 0x08) 0x07 (omega arith),
          le→leb (n + 0x08) 0x36 (omega arith),
          le→leb (n + 0x08) 0x2f (omega arith),
        )
        (ap (λ m. ok (number m, r, vs)) (omega arith))

  -- `null`, the booleans and the integers below 40.
  module _ (ps : List (List ℕ)) (vs : List Value) (steps : InStep js ps vs) where
    pub Packs-null : Packs js null vs (length ps) 0 (pack_value null ps)
    Packs-null =
        unfold pack_value unpack_atom unpack_simple in
        Packs-byte null 0x04 ps vs (omega arith) (omega arith) (λ r. refl) steps

    pub Packs-boolean :
        (b : Bool) → Packs js (boolean b) vs (length ps) 0 (pack_value (boolean b) ps)
    Packs-boolean true =
        unfold pack_value unpack_atom unpack_simple in
        Packs-byte (boolean true) 0x01 ps vs (omega arith) (omega arith) (λ r. refl) steps
    Packs-boolean false =
        unfold pack_value unpack_atom unpack_simple in
        Packs-byte (boolean false) 0x02 ps vs (omega arith) (omega arith) (λ r. refl) steps

    pack_value_number : (n : ℕ) → n < 0x28 → pack_value (number n) ps ≡ ok ((n + 0x08) ∷ [], ps)
    unfolding pack_value pack_integer
    pack_value_number n h = rw (lt→ltb n 0x28 h)

    pub Packs-number :
        (n : ℕ) → n < 0x28 → Packs js (number n) vs (length ps) 0 (pack_value (number n) ps)
    Packs-number n h = subst (Packs js (number n) vs (length ps) 0) (sym (pack_value_number n h)) (
        Packs-byte (number n) (n + 0x08) ps vs (omega arith) (omega arith)
          (λ r. unpack_atom_number n r vs h) steps)
