-- ===== src/Opack/Objects.antt =====
-- The two object lists of core/encoding/opack.ts: the encoder's, of packed bytes, and the decoder's, of
-- values; what relates them, and the references into them.
use bunatv.Prelude.{
  ℕ, suc, ◌+◌, ◌*◌, ◌<◌, ◌≤◌, ◌≡◌, refl, sym, subst, ap, ◌∙◌, List, [], ◌∷◌, ◌++◌, Option, none,
  some, false, ◌⊎◌, inl, inr, arith, Result, ok, err, length, length-append, get_elem?, leb, ltb,
  le→leb, lt→leb, ltb→lt, ◌==◌, Bool-cases, same_bytes, same_bytes→eq,
}
use bunatv.Prelude.Bytes.{to_le, length-to_le}
use bunatv.Buffers.Reader.{BufferReader, read_uint_be_one, read_uint_le-to_le}
use bunatv.Opack.Value.{Value, Runtime}
use bunatv.Opack.Pack.{find_index, reference, known_reference, check_and_reuse}
use bunatv.Opack.Unpack.{Unpacked, unpack_value, unpack_atom, unpack_reference, read_reference}
use bunatv.Opack.Atoms.{at, unpack_value-atom, Reads}

-- The first byte is there, and is no terminator.
abbrev pub Opens : List ℕ → Type 0
Opens [] = ⊥
Opens (b ∷ bs) = (b == 0x03) ≡ false

pub Opens-long : (bs : List ℕ) → Opens bs → 0 < length bs
Opens-long (b ∷ bs) h = omega arith
Opens-long [] h = absurd h

module _ (js : Runtime) where
  -- Each value of the decoder's list is what its packed bytes are read as.
  abbrev pub InStep : List (List ℕ) → List Value → Type 0
  InStep [] [] = Unit
  InStep (p ∷ ps) (v ∷ vs) = Reads js v p × InStep ps vs
  InStep [] (v ∷ vs) = ⊥
  InStep (p ∷ ps) [] = ⊥

  InStep-append :
      (ps : List (List ℕ)) (vs : List Value) (p : List ℕ) (v : Value)
      → InStep ps vs
      → Reads js v p
      → InStep (ps ++ p ∷ []) (vs ++ v ∷ [])
  InStep-append [] [] p v t reads = (reads, tt)
  InStep-append (q ∷ ps) (w ∷ vs) p v (r, rs) reads = (r, InStep-append ps vs p v rs reads)
  InStep-append [] (w ∷ vs) p v t reads = absurd t
  InStep-append (q ∷ ps) [] p v t reads = absurd t

  value_of : Result Unpacked → Value → Value
  value_of (ok (v, r, objects)) w = v
  value_of (err e) w = w

  -- Bytes are read as one value.
  Reads-unique : (v w : Value) (p : List ℕ) → Reads js v p → Reads js w p → v ≡ w
  unfolding value_of
  Reads-unique v w p rv rw_ = ap (λ x. value_of x v) (sym (rv 0 0 [] []) ∙ rw_ 0 0 [] [])

  -- The index that the encoder finds is the index of the value in the decoder's list.
  find_index-cases :
      (ps : List (List ℕ)) (vs : List Value) (p : List ℕ) (v : Value)
      → InStep ps vs
      → Reads js v p
      → (find_index p ps ≡ none)
        ⊎ ((i : ℕ) × (find_index p ps ≡ some i) × (get_elem? vs i ≡ some v) × (i < length ps))
  unfolding find_index
  find_index-cases [] [] p v t reads = inl refl
  find_index-cases (q ∷ ps) (w ∷ vs) p v (r, rs) reads = elim (Bool-cases (same_bytes q p)) [
    | inl e ↦ inr (
      0,
      rw e,
      ap some (Reads-unique w v p (subst (Reads js w) (same_bytes→eq q p e) r) reads),
      omega arith,
    )
    | inr e ↦ elim (find_index-cases ps vs p v rs reads) [
      | inl f ↦ inl (rw (e, f))
      | inr (j, f, g, h) ↦ inr (suc j, rw (e, f), g, omega arith)
    ]
  ]
  find_index-cases [] (w ∷ vs) p v t reads = absurd t
  find_index-cases (q ∷ ps) [] p v t reads = absurd t

  -- The bytes of a value, wherever they stand, with the decoder's list before and after it.
  abbrev pub Unpacks : Value → List ℕ → List Value → List Value → Type 0
  Unpacks v bytes before after =
      (fuel o : ℕ) (rest : List ℕ)
      → 2 * length bytes ≤ suc fuel
      → unpack_value js (suc fuel) (at o (bytes ++ rest)) before
        ≡ ok (v, at (o + length bytes) rest, after)

  unpack_value-read :
      (b fuel o : ℕ) (bs : List ℕ) (objects : List Value)
      → 0xa0 ≤ b
      → b < 0xd0
      → unpack_value js (suc fuel) (at o (b ∷ bs)) objects
        ≡ unpack_reference b (at (o + 1) bs) objects
  unpack_value-read b fuel o bs objects low high =
      unpack_value-atom js b fuel o bs objects high
      ∙ (unfold unpack_atom in
          rw (
            lt→leb b 0x07 (omega arith),
            lt→leb b 0x36 (omega arith),
            lt→leb b 0x6f (omega arith),
            lt→leb b 0x94 (omega arith),
          ))

  read_reference_lem :
      (i o o' : ℕ) (v : Value) (rest : List ℕ) (objects : List Value)
      → get_elem? objects i ≡ some v
      → o' ≡ o
      → read_reference i (at o rest) objects ≡ ok (v, at o' rest, objects)
  unfolding read_reference
  read_reference_lem i o o' v rest objects e eo =
      rw (e, read_reference) (ap (λ p. ok (v, at p rest, objects)) (sym eo))

  unpack_reference_short :
      (i : ℕ) (r : BufferReader) (objects : List Value)
      → i < 0x21
      → unpack_reference (0xa0 + i) r objects ≡ read_reference i r objects
  unfolding unpack_reference
  unpack_reference_short i r objects h =
      rw (le→leb 0xa0 (0xa0 + i) (omega arith), le→leb (0xa0 + i) 0xc0 (omega arith))
        (ap (λ j. read_reference j r objects) (omega arith))

  unpack_reference_byte :
      (i o : ℕ) (bs : List ℕ) (objects : List Value)
      → unpack_reference 0xc1 (at o (i ∷ bs)) objects ≡ read_reference i (at (o + 1) bs) objects
  unfolding unpack_reference
  unpack_reference_byte i o bs objects = rw (read_uint_be_one i o bs)

  unpack_reference_word :
      (i o : ℕ) (bs : List ℕ) (objects : List Value)
      → i < 0x10000
      → unpack_reference 0xc2 (at o (to_le 2 i ++ bs)) objects
        ≡ read_reference i (at (o + 2) bs) objects
  unfolding unpack_reference
  unpack_reference_word i o bs objects h = rw (read_uint_le-to_le 2 i o bs (omega arith))

  -- A reference is read as the value at its index.
  record Reference (v : Value) (objects : List Value) (ref : Option (List ℕ)) : Type 0 where
    bytes : List ℕ
    is_some : ref ≡ some bytes
    opens : Opens bytes
    unpacks : Unpacks v bytes objects objects

  Reference-reference :
      (i : ℕ) (v : Value) (objects : List Value)
      → i < 0x10000
      → get_elem? objects i ≡ some v
      → Reference v objects (reference i)
  Reference-reference i v objects h e = elim (Bool-cases (ltb i 0x21)) [
    | inl short ↦ record {
      bytes = (0xa0 + i) ∷ [];
      is_some = unfold reference in rw short;
      opens = ground arith;
      unpacks = λ fuel o rest l.
          unpack_value-read (0xa0 + i) fuel o rest objects (omega arith)
            (omega (arith, ltb→lt i 0x21 short))
          ∙ unpack_reference_short i (at (o + 1) rest) objects (ltb→lt i 0x21 short)
          ∙ read_reference_lem i (o + 1) (o + 1) v rest objects e refl;
    }
    | inr over ↦ elim (Bool-cases (leb i 0xff)) [
      | inl byte ↦ record {
        bytes = 0xc1 ∷ i ∷ [];
        is_some = unfold reference in rw (over, byte);
        opens = refl;
        unpacks = λ fuel o rest l.
            unpack_value-read 0xc1 fuel o (i ∷ rest) objects (omega arith) (omega arith)
            ∙ unpack_reference_byte i (o + 1) rest objects
            ∙ read_reference_lem i (o + 1 + 1) (o + 2) v rest objects e (omega arith);
      }
      | inr word ↦ record {
        bytes = 0xc2 ∷ to_le 2 i;
        is_some = unfold reference in rw (over, word, le→leb i 0xffff (omega arith));
        opens = refl;
        unpacks = λ fuel o rest l.
            unpack_value-read 0xc2 fuel o (to_le 2 i ++ rest) objects (omega arith) (omega arith)
            ∙ unpack_reference_word i (o + 1) rest objects h
            ∙ read_reference_lem i (o + 1 + 2) (o + suc (length (to_le 2 i))) v rest objects e
                (omega (arith, length-to_le 2 i));
      }
    ]
  ]

  -- What packing gives: bytes that are unpacked to the value, and lists in step again. The list
  -- grows by `grown` at most.
  pub record Packs (v : Value) (before : List Value) (length_before grown : ℕ)
      (packed : Result (List ℕ × List (List ℕ))) : Type 0 where
    pub bytes : List ℕ
    pub objects : List (List ℕ)
    pub after : List Value
    pub is_ok : packed ≡ ok (bytes, objects)
    pub opens : Opens bytes
    pub unpacks : Unpacks v bytes before after
    pub in_step : InStep objects after
    pub bound : length objects ≤ length_before + grown

  pub Packs-check_and_reuse :
      (v : Value) (b : ℕ) (bs : List ℕ) (ps : List (List ℕ)) (vs : List Value)
      → Reads js v (b ∷ bs)
      → 0x40 ≤ b
      → 0 < length bs
      → InStep ps vs
      → length ps < 0x10000
      → Packs v vs (length ps) 1 (ok (check_and_reuse (b ∷ bs) ps))
  Packs-check_and_reuse v b bs ps vs reads large long steps room =
      elim (find_index-cases ps vs (b ∷ bs) v steps reads) [
        | inl new ↦ record {
          bytes = b ∷ bs;
          objects = ps ++ (b ∷ bs) ∷ [];
          after = vs ++ v ∷ [];
          is_ok = ap ok (
              unfold check_and_reuse known_reference in
              rw (lt→leb (length (b ∷ bs)) 1 (omega arith), new));
          opens = ground arith;
          unpacks = λ fuel o rest l. reads fuel o rest vs;
          in_step = InStep-append ps vs (b ∷ bs) v steps reads;
          bound = omega (arith, length-append ps ((b ∷ bs) ∷ []));
        }
        | inr (i, found, there, low) ↦
            let ref = Reference-reference i v vs (omega arith) there in
            record {
              bytes = ref.bytes;
              objects = ps;
              after = vs;
              is_ok = ap ok (
                  unfold check_and_reuse known_reference in
                  rw (lt→leb (length (b ∷ bs)) 1 (omega arith), found, ref.is_some));
              opens = ref.opens;
              unpacks = ref.unpacks;
              in_step = steps;
              bound = omega arith;
            }
      ]
