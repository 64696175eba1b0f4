-- ===== src/Daap/Termination.antt =====
-- The recursion of decodeToObject of core/encoding/daap.ts ends on every buffer.
use bunatv.Prelude.{
  ℕ, zero, suc, ◌+◌, ◌≤◌, ◌<◌, ◌≡◌, ◌≢◌, ap, List, [], ◌∷◌, arith, Option, none, some, Result, ok,
  err, out_of_fuel, ◌>>=◌, All, Bool-cases, inl, inr, ltb, ltb→ge, length, take, drop, length-take,
  length-drop, map, ◌%◌, ◌⊎◌,
}
use bunatv.Prelude.Bytes.{of_be, uint_be_at}
use bunatv.Daap.{DecodedTag, decode_tag, decode_rounds, decode}
use bunatv.Daap.Objects.{
  Kind, byte, short, int, long, string, container, object, Entries, empty, put, tag_type,
  read_value, put_tags, decode_depth, decode_to_object,
}

abbrev IsFuelled {ℓ} : {A : Type ℓ} → Result A → Type ℓ
IsFuelled r = r ≢ err out_of_fuel

bind-IsFuelled {ℓ κ} :
    {A : Type ℓ} {B : Type κ} (r : Result A) (next : A → Result B)
    → IsFuelled r
    → ((a : A) → IsFuelled (next a))
    → IsFuelled (r >>= next)
bind-IsFuelled (err e) next h g =
    λ q. h (ap (λ r. elim r [ err x ↦ err x | ok b ↦ err out_of_fuel ]) q)
bind-IsFuelled (ok a) next h g = g a

ok-IsFuelled {ℓ} : {A : Type ℓ} (a : A) → IsFuelled (ok a)
ok-IsFuelled a = λ e. ground (arith, e)

uint_be_at-IsFuelled : (n : ℕ) (value : List ℕ) → IsFuelled (uint_be_at n 0 value)
unfolding uint_be_at
uint_be_at-IsFuelled n value = ground arith

-- A tag's value, and what follows it, are at least eight bytes shorter than all.
record Cut (bytes : List ℕ) : Type 0 where
  tag : DecodedTag
  rest : List ℕ
  decodes : decode_tag bytes ≡ some (tag, rest)
  value_shorter : length tag.value + 8 ≤ length bytes
  rest_shorter : length rest + 8 ≤ length bytes

decode_tag-cases : (bytes : List ℕ) → (decode_tag bytes ≡ none) ⊎ Cut bytes
unfolding decode_tag
decode_tag-cases bytes =
    let size = of_be (take 4 (drop 4 bytes)) in
    elim (Bool-cases (ltb (length bytes) 8)) [
      | inl small ↦ inl (rw small)
      | inr header ↦ elim (Bool-cases (ltb (length bytes) (8 + size))) [
        | inl cut ↦ inl (rw (header, cut))
        | inr whole ↦ inr (record {
          tag = record {
            tag = map (λ c. c % 128) (take 4 bytes);
            length_field = size;
            value = take size (drop 8 bytes);
          };
          rest = drop (8 + size) bytes;
          decodes = rw (header, whole);
          value_shorter =
              omega
                (arith, ltb→ge (length bytes) (8 + size) whole, length-take size (drop 8 bytes));
          rest_shorter =
              omega (arith, ltb→ge (length bytes) (8 + size) whole, length-drop (8 + size) bytes);
        })
      ]
    ]

abbrev IsWithin : ℕ → DecodedTag → Type 0
IsWithin n t = length t.value + 8 ≤ n

IsWithin-more :
    (n m : ℕ) (tags : List DecodedTag) → n ≤ m → All (IsWithin n) tags → All (IsWithin m) tags
IsWithin-more n m [] le h = tt
IsWithin-more n m (t ∷ tags) le (h, hs) = (omega arith, IsWithin-more n m tags le hs)

decode_rounds-All :
    (fuel : ℕ) (bytes : List ℕ)
    → length bytes < fuel
    → (tags : List DecodedTag) × (decode_rounds fuel bytes ≡ ok tags)
      × All (IsWithin (length bytes)) tags
unfolding decode_rounds
decode_rounds-All zero bytes less = absurd (omega arith)
decode_rounds-All (suc fuel) bytes less = elim (Bool-cases (ltb 0 (length bytes))) [
  | inr end ↦ ([], rw (end, decode_rounds), tt)
  | inl more ↦ elim (decode_tag-cases bytes) [
    | inl broken ↦ ([], rw (more, broken, decode_rounds), tt)
    | inr cut ↦
        let (tags, e, h) = decode_rounds-All fuel cut.rest (omega (arith, cut.rest_shorter)) in
        (
          cut.tag ∷ tags,
          rw (more, cut.decodes, e, decode_rounds),
          (
            cut.value_shorter,
            IsWithin-more (length cut.rest) (length bytes) tags (omega (arith, cut.rest_shorter)) h,
          ),
        )
  ]
]

module _ (to_utf8_string : List ℕ → List ℕ) where
  read_value-IsFuelled :
      (nested : List ℕ → Result Entries) (value : List ℕ) (kind : Option Kind)
      → IsFuelled (nested value)
      → IsFuelled (read_value to_utf8_string nested value kind)
  unfolding read_value
  read_value-IsFuelled nested value none h = ok-IsFuelled _
  read_value-IsFuelled nested value (some container) h =
      bind-IsFuelled (nested value) _ h (λ o. ok-IsFuelled (object o))
  read_value-IsFuelled nested value (some string) h = ok-IsFuelled _
  read_value-IsFuelled nested value (some byte) h =
      bind-IsFuelled (uint_be_at 1 0 value) _ (uint_be_at-IsFuelled 1 value) (λ n. ok-IsFuelled _)
  read_value-IsFuelled nested value (some short) h =
      bind-IsFuelled (uint_be_at 2 0 value) _ (uint_be_at-IsFuelled 2 value) (λ n. ok-IsFuelled _)
  read_value-IsFuelled nested value (some int) h =
      bind-IsFuelled (uint_be_at 4 0 value) _ (uint_be_at-IsFuelled 4 value) (λ n. ok-IsFuelled _)
  read_value-IsFuelled nested value (some long) h =
      bind-IsFuelled (uint_be_at 8 0 value) _ (uint_be_at-IsFuelled 8 value) (λ n. ok-IsFuelled _)

  put_tags-IsFuelled :
      (nested : List ℕ → Result Entries) (n : ℕ) (tags : List DecodedTag) (o : Entries)
      → ((value : List ℕ) → length value + 8 ≤ n → IsFuelled (nested value))
      → All (IsWithin n) tags
      → IsFuelled (put_tags to_utf8_string nested tags o)
  unfolding put_tags
  put_tags-IsFuelled nested n [] o g h = ok-IsFuelled o
  put_tags-IsFuelled nested n (t ∷ tags) o g (h, hs) =
      bind-IsFuelled (read_value to_utf8_string nested t.value (tag_type t.tag)) _
        (read_value-IsFuelled nested t.value (tag_type t.tag) (g t.value h))
        (λ v. put_tags-IsFuelled nested n tags (put t.tag v o) g hs)

  -- A depth above the number of bytes is enough for any buffer.
  pub decode_depth-IsFuelled :
      (depth : ℕ) (bytes : List ℕ)
      → length bytes < depth
      → decode_depth to_utf8_string depth bytes ≢ err out_of_fuel
  unfolding decode_depth decode
  decode_depth-IsFuelled zero bytes less = absurd (omega arith)
  decode_depth-IsFuelled (suc depth) bytes less =
      let (tags, e, h) = decode_rounds-All (suc (length bytes)) bytes (omega arith) in
      rw e (
        put_tags-IsFuelled (decode_depth to_utf8_string depth) (length bytes) tags empty
          (λ value shorter. decode_depth-IsFuelled depth value (omega arith)) h)

  -- On every buffer decodeToObject ends, with an object or with an error of its own: the bounds of the model on
  -- its rounds and its depth are never reached.
  pub decode_to_object_ends :
      (bytes : List ℕ) → decode_to_object to_utf8_string bytes ≢ err out_of_fuel
  unfolding decode_to_object
  decode_to_object_ends bytes = decode_depth-IsFuelled (suc (length bytes)) bytes (omega arith)
