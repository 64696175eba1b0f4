-- ===== src/Daap/Fields.antt =====
-- One field of the metadata in core/encoding/daap.ts: how it is written, and how it is read.
use bunatv.Prelude.{
  ℕ, ◌%◌, ◌^◌, ◌≤◌, ◌<◌, ◌≡◌, refl, sym, ap, ap₂, ◌∙◌, List, [], ◌∷◌, map, arith, Option, none,
  some, Bool, true, ◌&&◌, Result, ok, ltb, length, append-nil, inl, inr, ◌⊎◌,
}
use mathlib.Core.Option
use bunatv.Prelude.Bytes.{to_be, length-to_be, uint_be_fits, uint_be_at, uint_be_at-to_be}
use bunatv.Daap.{text, tag_bytes, encode_tag, encode_tag_with_size, assert_tag, value_bytes}
use bunatv.Daap.Objects
use bunatv.Daap.Objects.{short, int, string, DaapValue, Entries, tag_type, read_value}
use bunatv.Daap.Track.{optional, as_text, as_number}
use bunatv.Daap.Slots.{IsTag, concat-item_bytes, Slot, slot_bytes, later}
use bunatv.Daap.RoundTrip.{IsReadable}

abbrev pub WhenDefined {ℓ} : {A : Type ℓ} → (A → Type 0) → Option A → Type 0
WhenDefined P none = Unit
WhenDefined P (some a) = P a

unfoldable pub is_ascii : List ℕ → Bool
is_ascii [] = true
is_ascii (c ∷ cs) = ltb c 128 && is_ascii cs

is_ascii_lem :
    (f : ℕ → ℕ) (cs : List ℕ) → ((c : ℕ) → c < 128 → f c ≡ c) → is_ascii cs ≡ true → map f cs ≡ cs
unfolding is_ascii
is_ascii_lem f [] same e = refl
is_ascii_lem f (c ∷ cs) same e =
    let small : c < 128 = ground (arith, e) in
    let others : is_ascii cs ≡ true = ground (arith, e) in
    ap₂ (λ a l. a ∷ l) (same c small) (is_ascii_lem f cs same others)

pub ascii-IsTag : (tag : List ℕ) → length tag ≡ 4 → is_ascii tag ≡ true → IsTag tag
unfolding tag_bytes
ascii-IsTag tag four e = record {
  four = four;
  written = is_ascii_lem (λ c. c % 256) tag (λ c small. omega arith) e;
  read = is_ascii_lem (λ c. c % 128) tag (λ c small. omega arith) e;
}

uint_be_at_alone : (n v : ℕ) → v < 256 ^ n → uint_be_at n 0 (to_be n v) ≡ ok v
uint_be_at_alone n v h =
    ap (uint_be_at n 0) (sym (append-nil (to_be n v))) ∙ uint_be_at-to_be n v 0 [] [] refl h

abbrev pub text_content : Option (List ℕ) → Option (List ℕ × DaapValue)
text_content o = Option.map (λ s. (s, Objects.text s)) o

abbrev pub number_content : ℕ → Option ℕ → Option (List ℕ × DaapValue)
number_content size o = Option.map (λ n. (to_be size n, Objects.number n)) o

abbrev pub text_slot : List ℕ → Option (List ℕ) → Slot
text_slot tag o = record { tag = tag; content = text_content o }

abbrev pub number_slot : List ℕ → ℕ → Option ℕ → Slot
number_slot tag size o = record { tag = tag; content = number_content size o }

pub as_text-later : (o : Option (List ℕ)) → as_text (later (text_content o) none) ≡ o
unfolding as_text later
as_text-later none = refl
as_text-later (some s) = refl

pub as_number-later : (size : ℕ) (o : Option ℕ) → as_number (later (number_content size o) none) ≡ o
unfolding as_number later
as_number-later size none = refl
as_number-later size (some n) = refl

assert_tag-IsTag : (tag : List ℕ) → IsTag tag → assert_tag tag ≡ ok true
unfolding assert_tag
assert_tag-IsTag tag h = rw h.four

pub optional-text :
    (tag : List ℕ) (o : Option (List ℕ))
    → IsTag tag
    → WhenDefined (λ s. length s < 2 ^ 32) o
    → optional (λ s. encode_tag tag (text s)) o ≡ ok (slot_bytes tag (text_content o))
unfolding optional encode_tag value_bytes slot_bytes
optional-text tag none h p = refl
optional-text tag (some s) h p = rw (assert_tag-IsTag tag h, concat-item_bytes tag s h p)

pub optional-number {ℓ} :
    {A : Type ℓ} (f : A → ℕ) (tag : List ℕ) (size : ℕ) (o : Option A)
    → IsTag tag
    → size ≤ 8
    → WhenDefined (λ a. f a < 256 ^ size) o
    → optional (λ a. encode_tag_with_size tag (f a) size) o
      ≡ ok (slot_bytes tag (number_content size (Option.map f o)))
unfolding optional encode_tag_with_size slot_bytes
optional-number f tag size none h small p = refl
optional-number f tag size (some a) h small p = rw (
  assert_tag-IsTag tag h,
  uint_be_fits size (f a) p,
  concat-item_bytes tag (to_be size (f a)) h (omega (arith, length-to_be size (f a))),
)

pub optional-plain :
    (tag : List ℕ) (size : ℕ) (o : Option ℕ)
    → IsTag tag
    → size ≤ 8
    → WhenDefined (λ n. n < 256 ^ size) o
    → optional (λ n. encode_tag_with_size tag n size) o
      ≡ ok (slot_bytes tag (number_content size o))
optional-plain tag size none h small p = optional-number (λ n. n) tag size none h small p
optional-plain tag size (some n) h small p = optional-number (λ k. k) tag size (some n) h small p

pub weaken {ℓ} :
    {A : Type ℓ} {P Q : A → Type 0} (o : Option A)
    → ((a : A) → P a → Q a)
    → WhenDefined P o
    → WhenDefined Q o
weaken none f h = tt
weaken (some a) f h = f a h

pub mapped {ℓ} :
    {A : Type ℓ} {P : A → Type 0} (bound : ℕ) (f : A → ℕ) (o : Option A)
    → ((a : A) → P a → f a < bound)
    → WhenDefined P o
    → WhenDefined (λ n. n < bound) (Option.map f o)
mapped bound f none g h = tt
mapped bound f (some a) g h = g a h

module _ (to_utf8_string : List ℕ → List ℕ) (nested : List ℕ → Result Entries) where
  pub text_slot-IsReadable :
      (tag : List ℕ) (o : Option (List ℕ))
      → IsTag tag
      → tag_type tag ≡ some string
      → WhenDefined (λ s. (length s < 2 ^ 32) × (to_utf8_string s ≡ s)) o
      → IsReadable to_utf8_string nested (text_slot tag o)
  unfolding read_value
  text_slot-IsReadable tag none h kind p = record { is_tag = h; content_read = tt }
  text_slot-IsReadable tag (some s) h kind (small, same) = record {
    is_tag = h;
    content_read = (small, rw (kind, same));
  }

  read_short :
      (n : ℕ)
      → n < 256 ^ 2
      → read_value to_utf8_string nested (to_be 2 n) (some short) ≡ ok (Objects.number n)
  unfolding read_value
  read_short n h = rw (uint_be_at_alone 2 n h)

  read_int :
      (n : ℕ)
      → n < 256 ^ 4
      → read_value to_utf8_string nested (to_be 4 n) (some int) ≡ ok (Objects.number n)
  unfolding read_value
  read_int n h = rw (uint_be_at_alone 4 n h)

  pub number_slot-IsReadable :
      (tag : List ℕ) (size : ℕ) (o : Option ℕ)
      → IsTag tag
      → ((tag_type tag ≡ some short) × (size ≡ 2)) ⊎ ((tag_type tag ≡ some int) × (size ≡ 4))
      → WhenDefined (λ n. n < 256 ^ size) o
      → IsReadable to_utf8_string nested (number_slot tag size o)
  number_slot-IsReadable tag size none h kind p = record { is_tag = h; content_read = tt }
  number_slot-IsReadable tag size (some n) h (inl (kind, two)) p = record {
    is_tag = h;
    content_read = (
      omega (arith, length-to_be size n),
      ap₂ (λ k w. read_value to_utf8_string nested (to_be k n) w) two kind
          ∙ read_short n (ground arith),
    );
  }
  number_slot-IsReadable tag size (some n) h (inr (kind, four)) p = record {
    is_tag = h;
    content_read = (
      omega (arith, length-to_be size n),
      ap₂ (λ k w. read_value to_utf8_string nested (to_be k n) w) four kind
          ∙ read_int n (ground arith),
    );
  }
