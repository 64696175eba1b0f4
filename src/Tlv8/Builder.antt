-- ===== src/Tlv8/Builder.antt =====
-- `TlvBuilder` of core/encoding/tlv8.ts: any chain of calls of `add` on a new builder.
use bunatv.Prelude.{
  ℕ, suc, ◌%◌, ◌≤◌, ◌<◌, ◌≡◌, refl, ap, sym, ◌∙◌, List, [], ◌∷◌, arith, ok, Option, none, some,
  ◌==◌, if◌then◌else◌, All, append-nil,
}
use bunatv.Tlv8.{
  TlvData, TlvValue, byte, bytes, TlvBuilder, new_builder, add, build, assign, lookup,
  decode_object,
}
use bunatv.Tlv8.Encode.{Ascending}
use bunatv.Tlv8.Object.{lookup-assign}
use bunatv.Tlv8.RoundTrip.{decode_object-encode_object}

abbrev pub Calls : Type 0
Calls = List (ℕ × TlvValue)

pub add_all : Calls → TlvBuilder → TlvBuilder
add_all [] t = t
add_all ((type, value) ∷ calls) t = add_all calls (add type value t)

-- The bytes that a call stores.
abbrev pub stored : TlvValue → List ℕ
stored (byte b) = b % 256 ∷ []
stored (bytes bs) = bs

-- What the calls leave at a type: the last value that was given for it.
pub last_value : ℕ → Calls → Option (List ℕ) → Option (List ℕ)
last_value u [] old = old
last_value u ((type, value) ∷ calls) old =
    last_value u calls (if type == u then some (stored value) else old)

abbrev pub HasByteType : ℕ × TlvValue → Type 0
HasByteType call = call.0 < 256

assign-Ascending :
    (lo t : ℕ) (v : List ℕ) (m : TlvData)
    → lo ≤ t
    → t < 256
    → Ascending lo m
    → Ascending lo (assign t v m)
unfolding assign
assign-Ascending lo t v [] le lt h = omega arith
assign-Ascending lo t v ((k, w) ∷ m) le lt h = ground (arith, assign-Ascending (suc k) t v m)

add-contents :
    (type : ℕ) (value : TlvValue) (t : TlvBuilder)
    → (add type value t).contents ≡ assign type (stored value) t.contents
unfolding add
add-contents type (byte b) t = refl
add-contents type (bytes bs) t = refl

add_all-Ascending :
    (calls : Calls) (t : TlvBuilder)
    → All HasByteType calls
    → Ascending 0 t.contents
    → Ascending 0 (add_all calls t).contents
unfolding add_all
add_all-Ascending [] t all h = h
add_all-Ascending ((type, value) ∷ calls) t (is_byte, all) h =
    add_all-Ascending calls (add type value t) all (
      rw (add-contents type value t)
        (assign-Ascending 0 type (stored value) t.contents (omega arith) is_byte h))

lookup-add_all :
    (u : ℕ) (calls : Calls) (t : TlvBuilder)
    → lookup u (add_all calls t).contents ≡ last_value u calls (lookup u t.contents)
unfolding add_all last_value
lookup-add_all u [] t = refl
lookup-add_all u ((type, value) ∷ calls) t =
    lookup-add_all u calls (add type value t)
    ∙ ap (last_value u calls)
        (rw (add-contents type value t) (lookup-assign type u (stored value) t.contents))

-- Whatever byte types a chain of `add` calls names, `build` succeeds, and a decoder finds at each
-- type the last value that was added for it.
pub decode_object-build :
    (calls : Calls)
    → All HasByteType calls
    → (encoded : List ℕ) × (m : TlvData) × (build (add_all calls new_builder) ≡ ok encoded)
      × (decode_object encoded ≡ ok m)
      × ((u : ℕ) → lookup u m ≡ last_value u calls none)
unfolding build new_builder lookup
decode_object-build calls all =
    let m = (add_all calls new_builder).contents in
    let (encoded, built, decoded) =
      decode_object-encode_object m [] (add_all-Ascending calls new_builder all tt) tt in
    (
      encoded,
      m,
      built,
      ap decode_object (sym (append-nil encoded)) ∙ decoded,
      λ u. lookup-add_all u calls new_builder,
    )
