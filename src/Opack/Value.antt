-- ===== src/Opack/Value.antt =====
-- The JavaScript values that core/encoding/opack.ts packs and unpacks. A string is its UTF-8 bytes.
use bunatv.Prelude.{
  ℕ, suc, ◌+◌, ◌-◌, ◌*◌, ◌^◌, List, [], ◌∷◌, Option, none, some, Bool, true, false, ◌&&◌, ltb, leb,
  ◌==◌, if◌then◌else◌, same_bytes,
}

mutual
  pub data Value : Type 0 where
    -- `null` and `undefined`
    null : Value
    boolean : Bool → Value
    -- an integer that is no BigInt, and -(n + 1)
    number : ℕ → Value
    negative : ℕ → Value
    bigint : ℕ → Value
    negative_bigint : ℕ → Value
    -- a number that is no integer, by the bits of its double
    double : ℕ → Value
    str : List ℕ → Value
    buffer : List ℕ → Value
    arr : Items → Value
    dict : Fields → Value

  pub data Items : Type 0 where
    nil : Items
    cons : Value → Items → Items

  -- the entries of an object in the order of `Object.entries`
  pub data Fields : Type 0 where
    end : Fields
    field : List ℕ → Value → Fields → Fields

unfoldable pub count_items : Items → ℕ
count_items nil = 0
count_items (cons x xs) = suc (count_items xs)

unfoldable pub count_fields : Fields → ℕ
count_fields end = 0
count_fields (field k v fs) = suc (count_fields fs)

unfoldable pub snoc : Items → Value → Items
snoc nil v = cons v nil
snoc (cons x xs) v = cons x (snoc xs v)

-- The digits of a decimal numeral.
digits : ℕ → List ℕ → Option ℕ
digits n [] = some n
digits n (c ∷ cs) =
    let rest = digits (n * 10 + (c - b'0')) cs in if leb b'0' c && leb c b'9' then rest else none

below_limit : Option ℕ → Option ℕ
below_limit none = none
below_limit (some n) = if ltb n (2 ^ 32 - 1) then some n else none

-- An array index as a property key: JavaScript enumerates these first, in ascending order.
pub index_of : List ℕ → Option ℕ
unfolding digits below_limit
index_of [] = none
index_of (c ∷ []) = below_limit (digits 0 (c ∷ []))
index_of (c ∷ d ∷ cs) = if c == b'0' then none else below_limit (digits 0 (c ∷ d ∷ cs))

abbrev proto : List ℕ
proto = b'_' ∷ b'_' ∷ b'p' ∷ b'r' ∷ b'o' ∷ b't' ∷ b'o' ∷ b'_' ∷ b'_' ∷ []

-- A key that is added now comes before a key that is there.
unfoldable pub comes_before : List ℕ → List ℕ → Bool
unfolding index_of
comes_before k j = elim (index_of k) [
  | none ↦ false
  | some a ↦ elim (index_of j) [ none ↦ true | some b ↦ ltb a b ]
]

-- The own property of a key that is not `__proto__`.
unfoldable pub put_property : List ℕ → Value → Fields → Fields
unfolding comes_before
put_property k v end = field k v end
put_property k v (field j w fs) =
    if same_bytes j k
    then field j v fs
    else if comes_before k j
    then field k v (field j w fs)
    else field j w (put_property k v fs)

-- `result[key] = value`; under the key `__proto__` it sets no own property.
unfoldable pub put_field : List ℕ → Value → Fields → Fields
unfolding put_property
put_field k v fs = if same_bytes k proto then fs else put_property k v fs

-- What JavaScript computes for `unpackValue` and this model does not: the text of ill-formed UTF-8,
-- a value as a property key, and the numbers that bits stand for.
pub record Runtime : Type 0 where
  pub to_utf8_string : List ℕ → List ℕ
  pub property_key : Value → List ℕ
  pub float32_value : ℕ → Value
  pub float64_value : ℕ → Value
  -- `Number` of a 64-bit integer
  pub nearest_number : ℕ → Value
