-- ===== src/Opack/Elements.antt =====
-- The elements of arrays, core/encoding/opack.ts: `packArray` and the loops of `unpackValue`.
use bunatv.Prelude.{
  ℕ, zero, suc, ◌+◌, ◌*◌, ◌≤◌, ◌≡◌, refl, ap, ◌∙◌, List, [], ◌++◌, Bool, false, arith, Result, ok,
  length, length-append, append_assoc,
}
use bunatv.Opack.Value.{Value, arr, Items, nil, cons, count_items, snoc, Runtime}
use bunatv.Opack.Pack.{Packed, pack_value, pack_items}
use bunatv.Opack.Unpack.{unpack_value, unpack_items, more, close}
use bunatv.Opack.Atoms.{at}
use bunatv.Opack.Objects.{Opens, Opens-long, InStep, Packs}
use bunatv.Opack.Groups.{left, more-left, less-left}
use bunatv.Opack.Plain.{atoms, atoms_items}

unfoldable pub push_all : Items → Items → Items
push_all result nil = result
push_all result (cons x xs) = push_all (snoc result x) xs

append_items : Items → Items → Items
append_items nil ys = ys
append_items (cons x xs) ys = cons x (append_items xs ys)

append_items-snoc :
    (xs ys : Items) (y : Value) → append_items (snoc xs y) ys ≡ append_items xs (cons y ys)
unfolding append_items snoc
append_items-snoc nil ys y = refl
append_items-snoc (cons x xs) ys y = ap (cons x) (append_items-snoc xs ys y)

push_all-append : (xs ys : Items) → push_all xs ys ≡ append_items xs ys
unfolding push_all append_items
push_all-append xs nil = append_items-nil xs
  where
    append_items-nil : (xs : Items) → xs ≡ append_items xs nil
    append_items-nil nil = refl
    append_items-nil (cons x xs) = ap (cons x) (append_items-nil xs)
push_all-append xs (cons y ys) = push_all-append (snoc xs y) ys ∙ append_items-snoc xs ys y

pub push_all_nil : (xs : Items) → push_all nil xs ≡ xs
unfolding append_items
push_all_nil xs = push_all-append nil xs

module _ (js : Runtime) where
  -- What packing the elements of an array gives; behind them stands what ends the array.
  pub record PacksItems (xs : Items) (before : List Value) (length_before : ℕ)
      (packed : Result Packed) : Type 0 where
    pub bytes : List ℕ
    pub objects : List (List ℕ)
    pub after : List Value
    pub is_ok : packed ≡ ok (bytes, objects)
    pub unpacks :
        (endless : Bool) (fuel o : ℕ) (result : Items) (tail : List ℕ)
        → 2 * length bytes ≤ fuel
        → ((p : ℕ) → more (left endless 0) (at p tail) ≡ false)
        → unpack_items js
            (suc fuel)
            (left endless (count_items xs))
            result
            (at o (bytes ++ tail))
            before
          ≡ ok
              (arr (push_all result xs), close (left endless 0) (at (o + length bytes) tail), after)
    pub in_step : InStep js objects after
    pub bound : length objects ≤ length_before + atoms_items xs

  pub PacksItems-nil :
      (ps : List (List ℕ)) (vs : List Value)
      → InStep js ps vs
      → PacksItems nil vs (length ps) (pack_items nil ps)
  PacksItems-nil ps vs steps = record {
    bytes = [];
    objects = ps;
    after = vs;
    is_ok = unfold pack_items in refl;
    unpacks = λ endless fuel o result tail l ends.
        unfold unpack_items push_all count_items in
        (rw (ends o, unpack_items)
          (ap (λ p. ok (arr result, close (left endless 0) (at p tail), vs)) (omega arith)));
    in_step = steps;
    bound = omega arith;
  }

  pack_items-cons :
      (x : Value) (xs : Items) (ps ps₁ ps₂ : List (List ℕ)) (bs cs : List ℕ)
      → pack_value x ps ≡ ok (bs, ps₁)
      → pack_items xs ps₁ ≡ ok (cs, ps₂)
      → pack_items (cons x xs) ps ≡ ok (bs ++ cs, ps₂)
  unfolding pack_items
  pack_items-cons x xs ps ps₁ ps₂ bs cs e f = rw (e, f)

  unpack_items-cons :
      (xs : Items) (x : Value) (fuel o o₁ : ℕ) (endless : Bool) (result : Items) (bs rest : List ℕ)
      (vs vs₁ : List Value)
      → Opens bs
      → unpack_value js fuel (at o (bs ++ rest)) vs ≡ ok (x, at o₁ rest, vs₁)
      → unpack_items js
          (suc fuel)
          (left endless (count_items (cons x xs)))
          result
          (at o (bs ++ rest))
          vs
        ≡ unpack_items js fuel (left endless (count_items xs)) (snoc result x) (at o₁ rest) vs₁
  unfolding unpack_items count_items
  unpack_items-cons xs x fuel o o₁ endless result bs rest vs vs₁ opens e =
      rw (more-left endless (count_items xs) o bs rest opens, e, unpack_items)
        (ap (λ c. unpack_items js fuel c (snoc result x) (at o₁ rest) vs₁)
          (less-left endless (count_items xs)))

  pub PacksItems-cons :
      (x : Value) (xs : Items) (ps : List (List ℕ)) (vs : List Value)
      → (p : Packs js x vs (length ps) (atoms x) (pack_value x ps))
      → PacksItems xs p.after (length p.objects) (pack_items xs p.objects)
      → PacksItems (cons x xs) vs (length ps) (pack_items (cons x xs) ps)
  unfolding push_all
  PacksItems-cons x xs ps vs p q = record {
    bytes = p.bytes ++ q.bytes;
    objects = q.objects;
    after = q.after;
    is_ok = pack_items-cons x xs ps p.objects q.objects p.bytes q.bytes p.is_ok q.is_ok;
    unpacks = steps;
    in_step = q.in_step;
    bound = unfold atoms in omega (arith, p.bound, q.bound);
  }
    where
      size : length (p.bytes ++ q.bytes) ≡ length p.bytes + length q.bytes
      size = length-append p.bytes q.bytes

      steps :
          (endless : Bool) (fuel o : ℕ) (result : Items) (tail : List ℕ)
          → 2 * length (p.bytes ++ q.bytes) ≤ fuel
          → ((o' : ℕ) → more (left endless 0) (at o' tail) ≡ false)
          → unpack_items js
              (suc fuel)
              (left endless (count_items (cons x xs)))
              result
              (at o ((p.bytes ++ q.bytes) ++ tail))
              vs
            ≡ ok (
              arr (push_all result (cons x xs)),
              close (left endless 0) (at (o + length (p.bytes ++ q.bytes)) tail),
              q.after,
            )
      steps endless zero o result tail l ends =
          absurd (omega (arith, size, Opens-long p.bytes p.opens))
      steps endless (suc fuel) o result tail l ends =
          ap
            (λ b.
              unpack_items js (suc (suc fuel)) (left endless (count_items (cons x xs))) result
                (at o b) vs)
            (append_assoc p.bytes q.bytes tail)
          ∙ unpack_items-cons xs x (suc fuel) o (o + length p.bytes) endless result p.bytes
              (q.bytes ++ tail) vs p.after p.opens
              (p.unpacks fuel o (q.bytes ++ tail) (omega (arith, size)))
          ∙ q.unpacks endless fuel (o + length p.bytes) (snoc result x) tail
              (omega (arith, size, Opens-long p.bytes p.opens)) ends
          ∙ ap
              (λ o'.
                ok
                  (arr (push_all (snoc result x) xs), close (left endless 0) (at o' tail), q.after))
              (omega (arith, size))
