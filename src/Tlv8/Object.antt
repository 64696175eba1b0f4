-- ===== src/Tlv8/Object.antt =====
-- The record that the decoders of core/encoding/tlv8.ts fill: an entry behind all others.
use bunatv.Prelude.{
  ℕ, ◌≤◌, ◌<◌, ◌≡◌, refl, List, [], ◌∷◌, ◌++◌, arith, none, some, ◌==◌, if◌then◌else◌,
}
use bunatv.Tlv8.{TlvData, lookup, assign, merge_item}

-- Every key is below `hi`.
abbrev pub Below : ℕ → TlvData → Type 0
Below hi [] = Unit
Below hi ((k, v) ∷ m) = (k < hi) × Below hi m

module _ (t : ℕ) where
  lookup-Below : (m : TlvData) → Below t m → lookup t m ≡ none
  unfolding lookup
  lookup-Below [] h = refl
  lookup-Below ((k, v) ∷ m) (hk, h) = ground (arith, lookup-Below m h)

  assign-Below : (v : List ℕ) (m : TlvData) → Below t m → assign t v m ≡ m ++ (t, v) ∷ []
  unfolding assign
  assign-Below v [] h = refl
  assign-Below v ((k, w) ∷ m) (hk, h) = ground (arith, assign-Below v m h)

  lookup_last : (v : List ℕ) (m : TlvData) → Below t m → lookup t (m ++ (t, v) ∷ []) ≡ some v
  unfolding lookup
  lookup_last v [] h = ground arith
  lookup_last v ((k, w) ∷ m) (hk, h) = ground (arith, lookup_last v m h)

  assign_last :
      (v w : List ℕ) (m : TlvData) → Below t m → assign t w (m ++ (t, v) ∷ []) ≡ m ++ (t, w) ∷ []
  unfolding assign
  assign_last v w [] h = ground arith
  assign_last v w ((k, u) ∷ m) (hk, h) = ground (arith, assign_last v w m h)

  pub merge_item_new :
      (value : List ℕ) (m : TlvData)
      → Below t m
      → merge_item (record { type = t; value = value }) m ≡ m ++ (t, value) ∷ []
  unfolding merge_item
  merge_item_new value m h = rw (lookup-Below m h, merge_item) (assign-Below value m h)

  pub merge_item_more :
      (v value : List ℕ) (m : TlvData)
      → Below t m
      → merge_item (record { type = t; value = value }) (m ++ (t, v) ∷ [])
        ≡ m ++ (t, v ++ value) ∷ []
  unfolding merge_item
  merge_item_more v value m h = rw (lookup_last v m h, merge_item) (assign_last v (v ++ value) m h)

pub Below-append :
    (t hi : ℕ) (v : List ℕ) (m : TlvData) → Below t m → t < hi → Below hi (m ++ (t, v) ∷ [])
Below-append t hi v [] h lt = (lt, tt)
Below-append t hi v ((k, w) ∷ m) (hk, h) lt = (omega arith, Below-append t hi v m h lt)

pub Below-weaken : (lo hi : ℕ) (m : TlvData) → lo ≤ hi → Below lo m → Below hi m
Below-weaken lo hi [] le h = tt
Below-weaken lo hi ((k, w) ∷ m) le (hk, h) = (omega arith, Below-weaken lo hi m le h)

-- What `assign` does to every later `lookup`.
pub lookup-assign :
    (t u : ℕ) (v : List ℕ) (m : TlvData)
    → lookup u (assign t v m) ≡ (if t == u then some v else lookup u m)
unfolding lookup assign
lookup-assign t u v [] = ground arith
lookup-assign t u v ((k, w) ∷ m) = ground (arith, lookup-assign t u v m)
