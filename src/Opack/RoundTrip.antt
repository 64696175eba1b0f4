-- ===== src/Opack/RoundTrip.antt =====
-- Encoding and then decoding, `OPACK.encode` and `OPACK.decode` of core/encoding/opack.ts, object
-- references included.
use bunatv.Prelude.{
  ℕ, zero, suc, ◌+◌, ◌*◌, ◌≤◌, ◌≡◌, ap, ap₂, ◌∙◌, min, List, [], ◌∷◌, ◌++◌, arith, sym, Result, ok,
  err, length, length-append, append_assoc,
}
use bunatv.Buffers.Reader.{BufferReader, reader}
use bunatv.Opack.Value.{
  Value, null, boolean, number, negative, bigint, negative_bigint, double, str, buffer, arr, dict,
  Items, nil, cons, Fields, end, field, count_items, count_fields, Runtime,
}
use bunatv.Opack.Pack.{pack_value, pack_items, pack_fields, encode}
use bunatv.Buffers.Pool.{BufferPool}
use bunatv.Buffers.Pool.Sound.{IsSound}
use bunatv.Opack.Pooled
use bunatv.Opack.Pooling.{IsSmall}
use bunatv.Opack.Refines.{encode-Pack_encode}
use bunatv.Opack.Unpack.{unpack_value, unpack_items, unpack_fields, decode}
use bunatv.Opack.Atoms.{at}
use bunatv.Opack.Elements.{PacksItems, PacksItems-nil, PacksItems-cons, push_all_nil}
use bunatv.Opack.Entries.{PacksFields, PacksFields-end, PacksFields-field}
use bunatv.Opack.Objects.{InStep, Unpacks, Packs}
use bunatv.Opack.Groups.{unpack_value-items, unpack_value-fields, Closing, Closing-enclose}
use bunatv.Opack.Plain.{
  atoms, atoms_items, atoms_fields, put_all, IsPlain, IsPlainItems, IsPlainFields, Packs-pack_key,
  Packs-pack_buffer, Packs-null, Packs-boolean, Packs-number,
}

module _ (js : Runtime) where
  module _ (xs : Items) (ps : List (List ℕ)) (vs : List Value)
      (p : PacksItems js xs vs (length ps) (pack_items xs ps)) where
    Packs-arr : Packs js (arr xs) vs (length ps) (atoms_items xs) (pack_value (arr xs) ps)
    Packs-arr = record {
      bytes = (0xd0 + min (count_items xs) 0xf) ∷ (p.bytes ++ c.tail);
      objects = p.objects;
      after = p.after;
      is_ok = unfold pack_value in rw (p.is_ok, c.is_enclose);
      opens = ground arith;
      unpacks = steps;
      in_step = p.in_step;
      bound = p.bound;
    }
      where
        c : Closing 0xd0 (count_items xs) p.bytes
        c = Closing-enclose 0xd0 (count_items xs) p.bytes

        steps :
            Unpacks js (arr xs) ((0xd0 + min (count_items xs) 0xf) ∷ (p.bytes ++ c.tail)) vs p.after
        steps zero o rest l = absurd (omega arith)
        steps (suc fuel) o rest l =
            ap
              (λ b.
                unpack_value js (suc (suc fuel)) (at o ((0xd0 + min (count_items xs) 0xf) ∷ b)) vs)
              (append_assoc p.bytes c.tail rest)
            ∙ unpack_value-items js (min (count_items xs) 0xf) (suc fuel) o
                (p.bytes ++ (c.tail ++ rest)) vs (omega arith)
            ∙ ap
                (λ k.
                  unpack_items js (suc fuel) k nil (at (o + 1) (p.bytes ++ (c.tail ++ rest))) vs)
                c.count
            ∙ p.unpacks c.endless fuel (o + 1) nil (c.tail ++ rest)
                (omega (arith, length-append p.bytes c.tail)) (λ q. c.ends q rest)
            ∙ ap₂ (λ ys r. ok (arr ys, r, p.after)) (push_all_nil xs)
                (c.closes (o + 1 + length p.bytes) rest
                  ∙ ap (λ q. at q rest) (omega (arith, length-append p.bytes c.tail)))

  module _ (fs : Fields) (ps : List (List ℕ)) (vs : List Value)
      (p : PacksFields js fs vs (length ps) (pack_fields fs ps)) (built : put_all end fs ≡ fs) where
    Packs-dict : Packs js (dict fs) vs (length ps) (atoms_fields fs) (pack_value (dict fs) ps)
    Packs-dict = record {
      bytes = (0xe0 + min (count_fields fs) 0xf) ∷ (p.bytes ++ c.tail);
      objects = p.objects;
      after = p.after;
      is_ok = unfold pack_value in rw (p.is_ok, c.is_enclose);
      opens = ground arith;
      unpacks = steps;
      in_step = p.in_step;
      bound = p.bound;
    }
      where
        c : Closing 0xe0 (count_fields fs) p.bytes
        c = Closing-enclose 0xe0 (count_fields fs) p.bytes

        steps :
            Unpacks js
              (dict fs)
              ((0xe0 + min (count_fields fs) 0xf) ∷ (p.bytes ++ c.tail))
              vs
              p.after
        steps zero o rest l = absurd (omega arith)
        steps (suc fuel) o rest l =
            ap
              (λ b.
                unpack_value js (suc (suc fuel)) (at o ((0xe0 + min (count_fields fs) 0xf) ∷ b)) vs)
              (append_assoc p.bytes c.tail rest)
            ∙ unpack_value-fields js (min (count_fields fs) 0xf) (suc fuel) o
                (p.bytes ++ (c.tail ++ rest)) vs (omega arith)
            ∙ ap
                (λ k.
                  unpack_fields js (suc fuel) k end (at (o + 1) (p.bytes ++ (c.tail ++ rest))) vs)
                c.count
            ∙ p.unpacks c.endless fuel (o + 1) end (c.tail ++ rest)
                (omega (arith, length-append p.bytes c.tail)) (λ q. c.ends q rest)
            ∙ ap₂ (λ ys r. ok (dict ys, r, p.after)) built
                (c.closes (o + 1 + length p.bytes) rest
                  ∙ ap (λ q. at q rest) (omega (arith, length-append p.bytes c.tail)))

  mutual
    unfolding pack_value atoms

    pack_value-Packs :
        (v : Value) (ps : List (List ℕ)) (vs : List Value)
        → IsPlain js v
        → InStep js ps vs
        → length ps + atoms v ≤ 0x10000
        → Packs js v vs (length ps) (atoms v) (pack_value v ps)
    pack_value-Packs null ps vs h steps room = Packs-null js ps vs steps
    pack_value-Packs (boolean b) ps vs h steps room = Packs-boolean js ps vs steps b
    pack_value-Packs (number n) ps vs h steps room = Packs-number js ps vs steps n h
    pack_value-Packs (str s) ps vs h steps room = Packs-pack_key js s ps vs h steps (omega arith)
    pack_value-Packs (buffer bytes) ps vs (low, high) steps room =
        Packs-pack_buffer js bytes ps vs low high steps (omega arith)
    pack_value-Packs (arr xs) ps vs h steps room =
        Packs-arr xs ps vs (pack_items-Packs xs ps vs h steps room)
    pack_value-Packs (dict fs) ps vs (built, h) steps room =
        Packs-dict fs ps vs (pack_fields-Packs fs ps vs h steps room) built
    pack_value-Packs (negative n) ps vs h steps room = absurd h
    pack_value-Packs (bigint n) ps vs h steps room = absurd h
    pack_value-Packs (negative_bigint n) ps vs h steps room = absurd h
    pack_value-Packs (double bits) ps vs h steps room = absurd h

    pack_items-Packs :
        (xs : Items) (ps : List (List ℕ)) (vs : List Value)
        → IsPlainItems js xs
        → InStep js ps vs
        → length ps + atoms_items xs ≤ 0x10000
        → PacksItems js xs vs (length ps) (pack_items xs ps)
    pack_items-Packs nil ps vs h steps room = PacksItems-nil js ps vs steps
    pack_items-Packs (cons x xs) ps vs (h, hs) steps room =
        let p = pack_value-Packs x ps vs h steps (omega arith) in
        PacksItems-cons js x xs ps vs p
          (pack_items-Packs xs p.objects p.after hs p.in_step (omega (arith, p.bound)))

    pack_fields-Packs :
        (fs : Fields) (ps : List (List ℕ)) (vs : List Value)
        → IsPlainFields js fs
        → InStep js ps vs
        → length ps + atoms_fields fs ≤ 0x10000
        → PacksFields js fs vs (length ps) (pack_fields fs ps)
    pack_fields-Packs end ps vs h steps room = PacksFields-end js ps vs steps
    pack_fields-Packs (field k v fs) ps vs (hk, h, hs) steps room =
        let p = Packs-pack_key js k ps vs hk steps (omega arith) in
        let q = pack_value-Packs v p.objects p.after h p.in_step (omega (arith, p.bound)) in
        PacksFields-field js k v fs ps vs p q
          (pack_fields-Packs fs q.objects q.after hs q.in_step (omega (arith, p.bound, q.bound)))

  encode_ok :
      (v : Value) (bytes : List ℕ) (ps : List (List ℕ))
      → pack_value v [] ≡ ok (bytes, ps)
      → encode v ≡ ok bytes
  unfolding encode
  encode_ok v bytes ps e = rw e

  decode_dict :
      (fs : Fields) (bytes : List ℕ) (r : BufferReader) (vs : List Value)
      → unpack_value js (suc (2 * length bytes)) (reader bytes) [] ≡ ok (dict fs, r, vs)
      → decode js bytes ≡ ok (dict fs)
  unfolding decode
  decode_dict fs bytes r vs e = rw e

  -- Without the pool: an object is packed without an error and decoded to itself.
  pub decode-Pack_encode :
      (fs : Fields) (rest : List ℕ)
      → IsPlain js (dict fs)
      → atoms (dict fs) ≤ 0x10000
      → (bytes : List ℕ) × (encode (dict fs) ≡ ok bytes)
        × (decode js (bytes ++ rest) ≡ ok (dict fs))
  unfolding reader
  decode-Pack_encode fs rest h room =
      let p = pack_value-Packs (dict fs) [] [] h tt (omega arith) in
      (
        p.bytes,
        encode_ok (dict fs) p.bytes p.objects p.is_ok,
        decode_dict fs (p.bytes ++ rest) (at (0 + length p.bytes) rest) p.after (
            p.unpacks (2 * length (p.bytes ++ rest)) 0 rest
              (omega (arith, length-append p.bytes rest))),
      )

  bytes_of : Result (List ℕ) → List ℕ
  bytes_of (ok packed) = packed
  bytes_of (err e) = []

  module _ (allocate : ℕ → List ℕ) (allocate_length : (n : ℕ) → length (allocate n) ≡ n) where
    -- With an allocator that returns buffers of the length asked for, and a pool in which each buffer has
    -- the size of its bucket, as in one that is empty, an object is
    -- encoded without an error and decoded to itself, whatever follows it, with all its repeated strings
    -- and buffers that became references, and leaves such a pool; if its integers are below 40, its
    -- strings, keys and buffers are not empty and at most 65536 occur, every array element, key and value
    -- in it takes at most 256 bytes, a text or buffer being counted with five bytes more than its own, an
    -- integer with five, null and Booleans with nine, an array or object with two more than its elements;
    -- its strings are UTF-8, no key is `__proto__`, and the entries of every object in it stand
    -- in the order that JavaScript gives them.
    pub decode-encode_dict :
        (fs : Fields) (rest : List ℕ) (pool : BufferPool)
        → IsPlain js (dict fs)
        → IsSmall (dict fs)
        → atoms (dict fs) ≤ 0x10000
        → IsSound pool
        → (packed : List ℕ) × (pool' : BufferPool) × (Pooled.encode allocate (dict fs) pool
            ≡ ok (packed, pool'))
          × (decode js (packed ++ rest) ≡ ok (dict fs))
          × IsSound pool'
    unfolding bytes_of
    decode-encode_dict fs rest pool h small room sound =
        let (bytes, e, back) = decode-Pack_encode fs rest h room in
        let (packed, pool', plain, pooled, sound', short) =
          encode-Pack_encode allocate allocate_length (dict fs) pool small sound in
        let same : bytes ≡ packed = ap bytes_of (sym e ∙ plain) in
        (packed, pool', pooled, ap (λ b. decode js (b ++ rest)) (sym same) ∙ back, sound')
