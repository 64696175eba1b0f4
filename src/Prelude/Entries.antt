-- ===== src/Prelude/Entries.antt =====
-- Facts about all entries of a `Map`, by what `get` finds.
use bunatv.Prelude.{◌≡◌, refl, subst, sym, ap, ◌∙◌, List, none, some, false, Bool-cases, inl, inr}
use bunatv.Prelude.Map.{Key, get, put, delete, get-put, get-delete}

pub some_injective {ℓ} : {A : Type ℓ} (a b : A) → some a ≡ some b → a ≡ b
some_injective a b e = ap (λ o. elim o [ none ↦ a | some x ↦ x ]) e

module _ {ℓ κ} {K : Type ℓ} {V : Type κ} ⦃k : Key K⦄ where
  abbrev pub Every {μ} : (K → V → Type μ) → List (K × V) → Type (ℓ ⊔ κ ⊔ μ)
  Every P m = (a : K) (v : V) → get a m ≡ some v → P a v

  abbrev pub Has : K → List (K × V) → Type κ
  Has a m = (v : V) × (get a m ≡ some v)

  pub Every-put {μ} :
      (P : K → V → Type μ) (a : K) (v : V) (m : List (K × V))
      → Every P m
      → P a v
      → Every P (put a v m)
  Every-put P a v m all here c w e = elim (Bool-cases (k.same a c)) [
    | inl same ↦
        let found : some v ≡ some w = sym (rw (get-put a c v m, same)) ∙ e in
        subst (λ x. P x w) ((k.same_iff a c).0 same) (subst (P a) (some_injective v w found) here)
    | inr other ↦ all c w (sym (rw (get-put a c v m, other)) ∙ e)
  ]

  pub get-delete_other :
      (a c : K) (m : List (K × V)) → k.same a c ≡ false → get c (delete a m) ≡ get c m
  get-delete_other a c m other = rw (get-delete a c m, other)

  pub Every-delete {μ} :
      (P : K → V → Type μ) (a : K) (m : List (K × V)) → Every P m → Every P (delete a m)
  Every-delete P a m all c w e = elim (Bool-cases (k.same a c)) [
    | inl same ↦
        let gone : get c (delete a m) ≡ none = rw (get-delete a c m, same) in absurd (cc (e, gone))
    | inr other ↦ all c w (sym (get-delete_other a c m other) ∙ e)
  ]

  pub get-put_same : (a : K) (v : V) (m : List (K × V)) → get a (put a v m) ≡ some v
  get-put_same a v m = rw (get-put a a v m, (k.same_iff a a).1 refl)

  pub Has-put : (a c : K) (v : V) (m : List (K × V)) → Has c m → Has c (put a v m)
  Has-put a c v m (w, e) = elim (Bool-cases (k.same a c)) [
    | inl same ↦ (v, rw (get-put a c v m, same))
    | inr other ↦ (w, rw (get-put a c v m, other) e)
  ]

  pub get-put_other :
      (a c : K) (v : V) (m : List (K × V)) → k.same a c ≡ false → get c (put a v m) ≡ get c m
  get-put_other a c v m other = rw (get-put a c v m, other)
