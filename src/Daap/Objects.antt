-- ===== src/Daap/Objects.antt =====
-- decodeToObject of core/encoding/daap.ts, with the kinds of TagType. The objects are read by key only,
-- so that the order of their keys is left out.
use bunatv.Prelude.{
  ℕ, zero, suc, ◌≡◌, List, [], ◌∷◌, arith, Option, none, some, Result, ok, err, out_of_fuel, ◌>>=◌,
  if◌then◌else◌, same_bytes, same_bytes_iff, refl, length,
}
use bunatv.Prelude.Bytes.{uint_be_at}
use bunatv.Prelude.Map
use bunatv.Prelude.Map.{string_key}
use bunatv.Daap.{DecodedTag, decode}
use bunatv.Daap.Tags.{
  mlit, mlcl, mcon, msrv, miid, minm, mikd, mper, asal, asar, asaa, ascp, asgn, astm, astn, asdc,
  asdn, astc, asyr, asbr, assr, assz, caps, cash, carp, cavs, aepp,
}

-- What TagType says of a tag; bytes and shorts are read as unsigned.
pub data Kind : Type 0 where
  byte short int long string container : Kind

mutual
  pub data DaapValue : Type 0 where
    raw : List ℕ → DaapValue
    text : List ℕ → DaapValue
    number : ℕ → DaapValue
    bigint : ℕ → DaapValue
    object : Entries → DaapValue

  pub data Entries : Type 0 where
    empty : Entries
    entry : List ℕ → DaapValue → Entries → Entries

unfoldable pub get : List ℕ → Entries → Option DaapValue
get k empty = none
get k (entry j v o) = if same_bytes j k then some v else get k o

-- `result[tag] = value`
unfoldable pub put : List ℕ → DaapValue → Entries → Entries
put k v empty = entry k v empty
put k v (entry j w o) = if same_bytes j k then entry j v o else entry j w (put k v o)

pub get-put :
    (k c : List ℕ) (v : DaapValue) (o : Entries)
    → get c (put k v o) ≡ (if same_bytes k c then some v else get c o)
unfolding get put
get-put k c v empty = refl
get-put k c v (entry j w o) =
    ground (arith, same_bytes_iff k c, same_bytes_iff j k, same_bytes_iff j c, get-put k c v o)

abbrev pub tag_types : List (List ℕ × Kind)
tag_types =
    (mlit, container)
    ∷ (mlcl, container)
    ∷ (mcon, container)
    ∷ (msrv, container)
    ∷ (miid, int)
    ∷ (minm, string)
    ∷ (mikd, byte)
    ∷ (mper, long)
    ∷ (asal, string)
    ∷ (asar, string)
    ∷ (asaa, string)
    ∷ (ascp, string)
    ∷ (asgn, string)
    ∷ (astm, int)
    ∷ (astn, short)
    ∷ (asdc, short)
    ∷ (asdn, short)
    ∷ (astc, short)
    ∷ (asyr, short)
    ∷ (asbr, short)
    ∷ (assr, int)
    ∷ (assz, int)
    ∷ (caps, byte)
    ∷ (cash, byte)
    ∷ (carp, byte)
    ∷ (cavs, byte)
    ∷ (aepp, string)
    ∷ []

-- `TagType[tag]`
unfoldable pub tag_type : List ℕ → Option Kind
tag_type tag = Map.get tag tag_types

-- How the bytes of a value are read. `nested` is decodeToObject.
unfoldable pub read_value :
    (List ℕ → List ℕ) → (List ℕ → Result Entries) → List ℕ → Option Kind → Result DaapValue
read_value to_utf8_string nested value none = ok (raw value)
read_value to_utf8_string nested value (some container) = do o ← nested value; ok (object o)
read_value to_utf8_string nested value (some string) = ok (text (to_utf8_string value))
read_value to_utf8_string nested value (some byte) = do n ← uint_be_at 1 0 value; ok (number n)
read_value to_utf8_string nested value (some short) = do n ← uint_be_at 2 0 value; ok (number n)
read_value to_utf8_string nested value (some int) = do n ← uint_be_at 4 0 value; ok (number n)
read_value to_utf8_string nested value (some long) = do n ← uint_be_at 8 0 value; ok (bigint n)

-- The loop over the tags.
unfoldable pub put_tags :
    (List ℕ → List ℕ) → (List ℕ → Result Entries) → List DecodedTag → Entries → Result Entries
put_tags to_utf8_string nested [] o = ok o
put_tags to_utf8_string nested (t ∷ tags) o = do
  v ← read_value to_utf8_string nested t.value (tag_type t.tag)
  put_tags to_utf8_string nested tags (put t.tag v o)

-- A container's value is shorter than the container, so its bytes bound the depth. `to_utf8_string` is
-- `toString("utf8")`.
unfoldable pub decode_depth : (List ℕ → List ℕ) → ℕ → List ℕ → Result Entries
decode_depth to_utf8_string zero bytes = err out_of_fuel
decode_depth to_utf8_string (suc depth) bytes = do
  tags ← decode bytes
  put_tags to_utf8_string (decode_depth to_utf8_string depth) tags empty

unfoldable pub decode_to_object : (List ℕ → List ℕ) → List ℕ → Result Entries
decode_to_object to_utf8_string bytes = decode_depth to_utf8_string (suc (length bytes)) bytes
