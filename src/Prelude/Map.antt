-- ===== src/Prelude/Map.antt =====
-- The JavaScript `Map`: entries in the order in which their keys were first set.
use bunatv.Prelude.{
  ℕ, ◌≡◌, ◌↔◌, refl, List, [], ◌∷◌, arith, Option, none, some, Bool, true, ◌==◌ as nat_same, ==_iff,
  if◌then◌else◌, same_bytes, same_bytes_iff,
}

pub record Key {ℓ} (K : Type ℓ) : Type ℓ where
  pub same : K → K → Bool
  pub same_iff : (a b : K) → (same a b ≡ true) ↔ (a ≡ b)

instance abbrev pub number_key : Key ℕ
number_key = record { same = nat_same; same_iff = ==_iff }

instance abbrev pub string_key : Key (List ℕ)
string_key = record { same = same_bytes; same_iff = same_bytes_iff }

module _ {ℓ κ} {K : Type ℓ} {V : Type κ} ⦃k : Key K⦄ where
  unfoldable pub get : K → List (K × V) → Option V
  get a [] = none
  get a ((b, v) ∷ m) = if k.same b a then some v else get a m

  unfoldable pub put : K → V → List (K × V) → List (K × V)
  put a v [] = (a, v) ∷ []
  put a v ((b, w) ∷ m) = if k.same b a then (b, v) ∷ m else (b, w) ∷ put a v m

  unfoldable pub delete : K → List (K × V) → List (K × V)
  delete a [] = []
  delete a ((b, w) ∷ m) = let rest = delete a m in if k.same b a then rest else (b, w) ∷ rest

  pub get-put :
      (a c : K) (v : V) (m : List (K × V))
      → get c (put a v m) ≡ (if k.same a c then some v else get c m)
  unfolding get put
  get-put a c v [] = refl
  get-put a c v ((b, w) ∷ m) =
      ground (arith, k.same_iff a c, k.same_iff b a, k.same_iff b c, get-put a c v m)

  pub get-delete :
      (a c : K) (m : List (K × V)) → get c (delete a m) ≡ (if k.same a c then none else get c m)
  unfolding get delete
  get-delete a c [] = ground arith
  get-delete a c ((b, w) ∷ m) =
      ground (arith, k.same_iff a c, k.same_iff b a, k.same_iff b c, get-delete a c m)
