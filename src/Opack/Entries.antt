-- ===== src/Opack/Entries.antt =====
-- The entries of objects, core/encoding/opack.ts: `packDict` and the loops of `unpackValue`.
use bunatv.Prelude.{
  ℕ, zero, suc, ◌+◌, ◌*◌, ◌≤◌, ◌≡◌, refl, ap, ◌∙◌, List, [], ◌++◌, Bool, false, arith, Result, ok,
  length, length-append, append_assoc,
}
use bunatv.Opack.Value.{Value, str, dict, Fields, end, field, count_fields, put_field, Runtime}
use bunatv.Opack.Pack.{Packed, pack_value, pack_fields, pack_key}
use bunatv.Opack.Unpack.{unpack_value, unpack_fields, more, close, key_of}
use bunatv.Opack.Atoms.{at}
use bunatv.Opack.Objects.{Opens, Opens-long, InStep, Packs}
use bunatv.Opack.Groups.{left, more-left, less-left}
use bunatv.Opack.Plain.{atoms, atoms_fields, put_all}

module _ (js : Runtime) where
  -- What packing the entries of an object gives.
  pub record PacksFields (fs : Fields) (before : List Value) (length_before : ℕ)
      (packed : Result Packed) : Type 0 where
    pub bytes : List ℕ
    pub objects : List (List ℕ)
    pub after : List Value
    pub is_ok : packed ≡ ok (bytes, objects)
    pub unpacks :
        (endless : Bool) (fuel o : ℕ) (result : Fields) (tail : List ℕ)
        → 2 * length bytes ≤ fuel
        → ((p : ℕ) → more (left endless 0) (at p tail) ≡ false)
        → unpack_fields js
            (suc fuel)
            (left endless (count_fields fs))
            result
            (at o (bytes ++ tail))
            before
          ≡ ok
              (dict (put_all result fs), close (left endless 0) (at (o + length bytes) tail), after)
    pub in_step : InStep js objects after
    pub bound : length objects ≤ length_before + atoms_fields fs

  pub PacksFields-end :
      (ps : List (List ℕ)) (vs : List Value)
      → InStep js ps vs
      → PacksFields end vs (length ps) (pack_fields end ps)
  PacksFields-end ps vs steps = record {
    bytes = [];
    objects = ps;
    after = vs;
    is_ok = unfold pack_fields in refl;
    unpacks = λ endless fuel o result tail l ends.
        unfold unpack_fields put_all count_fields in
        (rw (ends o, unpack_fields)
          (ap (λ p. ok (dict result, close (left endless 0) (at p tail), vs)) (omega arith)));
    in_step = steps;
    bound = omega arith;
  }

  pack_fields-field :
      (k : List ℕ) (v : Value) (fs : Fields) (ps ps₁ ps₂ ps₃ : List (List ℕ)) (ks bs cs : List ℕ)
      → pack_key k ps ≡ ok (ks, ps₁)
      → pack_value v ps₁ ≡ ok (bs, ps₂)
      → pack_fields fs ps₂ ≡ ok (cs, ps₃)
      → pack_fields (field k v fs) ps ≡ ok (ks ++ (bs ++ cs), ps₃)
  unfolding pack_fields
  pack_fields-field k v fs ps ps₁ ps₂ ps₃ ks bs cs e f g = rw (e, f, g)

  unpack_fields-field :
      (fs : Fields) (k : List ℕ) (v : Value) (fuel o o₁ o₂ : ℕ) (endless : Bool) (result : Fields)
      (ks mid rest : List ℕ) (vs vs₁ vs₂ : List Value)
      → Opens ks
      → unpack_value js fuel (at o (ks ++ mid)) vs ≡ ok (str k, at o₁ mid, vs₁)
      → unpack_value js fuel (at o₁ mid) vs₁ ≡ ok (v, at o₂ rest, vs₂)
      → unpack_fields js
          (suc fuel)
          (left endless (count_fields (field k v fs)))
          result
          (at o (ks ++ mid))
          vs
        ≡ unpack_fields js fuel
            (left endless (count_fields fs))
            (put_field k v result)
            (at o₂ rest)
            vs₂
  unfolding unpack_fields count_fields key_of
  unpack_fields-field fs k v fuel o o₁ o₂ endless result ks mid rest vs vs₁ vs₂ opens e f =
      rw (more-left endless (count_fields fs) o ks mid opens, e, f, unpack_fields)
        (ap (λ c. unpack_fields js fuel c (put_field k v result) (at o₂ rest) vs₂)
          (less-left endless (count_fields fs)))

  pub PacksFields-field :
      (k : List ℕ) (v : Value) (fs : Fields) (ps : List (List ℕ)) (vs : List Value)
      → (p : Packs js (str k) vs (length ps) 1 (pack_key k ps))
      → (q : Packs js v p.after (length p.objects) (atoms v) (pack_value v p.objects))
      → PacksFields fs q.after (length q.objects) (pack_fields fs q.objects)
      → PacksFields (field k v fs) vs (length ps) (pack_fields (field k v fs) ps)
  unfolding put_all
  PacksFields-field k v fs ps vs p q t = record {
    bytes = p.bytes ++ (q.bytes ++ t.bytes);
    objects = t.objects;
    after = t.after;
    is_ok =
        pack_fields-field k v fs ps p.objects q.objects t.objects p.bytes q.bytes t.bytes p.is_ok
          q.is_ok t.is_ok;
    unpacks = steps;
    in_step = t.in_step;
    bound = unfold atoms in omega (arith, p.bound, q.bound, t.bound);
  }
    where
      size :
          length (p.bytes ++ (q.bytes ++ t.bytes))
          ≡ length p.bytes + (length q.bytes + length t.bytes)
      size =
          omega (arith, length-append p.bytes (q.bytes ++ t.bytes), length-append q.bytes t.bytes)

      steps :
          (endless : Bool) (fuel o : ℕ) (result : Fields) (tail : List ℕ)
          → 2 * length (p.bytes ++ (q.bytes ++ t.bytes)) ≤ fuel
          → ((o' : ℕ) → more (left endless 0) (at o' tail) ≡ false)
          → unpack_fields js
              (suc fuel)
              (left endless (count_fields (field k v fs)))
              result
              (at o ((p.bytes ++ (q.bytes ++ t.bytes)) ++ tail))
              vs
            ≡ ok (
              dict (put_all result (field k v fs)),
              close (left endless 0) (at (o + length (p.bytes ++ (q.bytes ++ t.bytes))) tail),
              t.after,
            )
      steps endless zero o result tail l ends =
          absurd (omega (arith, size, Opens-long p.bytes p.opens))
      steps endless (suc fuel) o result tail l ends =
          ap
            (λ b.
              unpack_fields js (suc (suc fuel)) (left endless (count_fields (field k v fs))) result
                (at o b) vs)
            (append_assoc p.bytes (q.bytes ++ t.bytes) tail
              ∙ ap (λ b. p.bytes ++ b) (append_assoc q.bytes t.bytes tail))
          ∙ unpack_fields-field fs k v (suc fuel) o (o + length p.bytes)
              (o + length p.bytes + length q.bytes) endless result p.bytes
              (q.bytes ++ (t.bytes ++ tail)) (t.bytes ++ tail) vs p.after q.after p.opens
              (p.unpacks fuel o (q.bytes ++ (t.bytes ++ tail)) (omega (arith, size)))
              (q.unpacks fuel (o + length p.bytes) (t.bytes ++ tail) (omega (arith, size)))
          ∙ t.unpacks endless fuel (o + length p.bytes + length q.bytes) (put_field k v result) tail
              (omega (arith, size, Opens-long p.bytes p.opens)) ends
          ∙ ap
              (λ o'. ok (
                dict (put_all (put_field k v result) fs),
                close (left endless 0) (at o' tail),
                t.after,
              ))
              (omega (arith, size))
