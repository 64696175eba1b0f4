-- ===== src/Tlv8/Items.antt =====
-- The bytes of a list of items, and the decoding loops of core/encoding/tlv8.ts on them.
use bunatv.Prelude.{
  ℕ, zero, suc, ◌+◌, ◌≤◌, ◌<◌, ◌≡◌, refl, inl, inr, List, [], ◌∷◌, ◌++◌, arith, none, some, ok, ltb,
  ltb→lt, take, drop, length-drop, length-take_le, take-append-drop, length, length-append,
  append-nil, append_assoc, Bool-cases,
}
use native.Mathlib.Nat.{zero-add}
use bunatv.Buffers.Reader.{
  BufferReader, read_buffer, read_buffer-append, has_more, remaining, read_uint_be_one,
}
use bunatv.Tlv8.{
  Issue, incomplete_header, incomplete_value, TlvItem, TlvData, read_item, decode_loop, try_item,
  try_loop, merge_item, merge_items,
}

unfoldable pub write_items : List TlvItem → List ℕ
write_items [] = []
write_items (item ∷ items) = item.type ∷ length item.value ∷ (item.value ++ write_items items)

abbrev pub after : ℕ → TlvItem → ℕ
after offset item = offset + 1 + 1 + length item.value

module _ (offset : ℕ) (item : TlvItem) (tail : List ℕ) where
  abbrev at_item : BufferReader
  at_item = record { offset = offset; rest = item.type ∷ length item.value ∷ (item.value ++ tail) }

  abbrev behind : BufferReader
  behind = record { offset = after offset item; rest = tail }

  read_item_step : read_item at_item ≡ ok (some (item, behind))
  unfolding read_item remaining
  read_item_step =
      rw (read_uint_be_one, read_uint_be_one, read_buffer-append)
        (ground (arith, length-append item.value tail))

  try_item_step : try_item at_item ≡ ok (inl (item, behind))
  unfolding try_item remaining
  try_item_step =
      rw (read_uint_be_one, read_uint_be_one, read_buffer-append)
        (ground (arith, length-append item.value tail))

-- What is left where decoding stops: no header, or a header with too few bytes behind it.
abbrev pub IsCut : List ℕ → Type 0
IsCut [] = Unit
IsCut (type ∷ []) = Unit
IsCut (type ∷ size ∷ rest) = length rest < size

abbrev pub issues : ℕ → List ℕ → List Issue
issues offset [] = []
issues offset (type ∷ []) = incomplete_header offset ∷ []
issues offset (type ∷ size ∷ rest) = incomplete_value (offset + 2) size ∷ []

-- Every buffer is a list of items followed by such a rest.
item_bytes :
    (type size : ℕ) (rest w tail : List ℕ)
    → size ≤ length rest
    → drop size rest ≡ w ++ tail
    → (type ∷ size ∷ rest) ≡ type ∷ length (take size rest) ∷ ((take size rest ++ w) ++ tail)
item_bytes type size rest w tail h e =
    rw (length-take_le size rest h, append_assoc, ← e, take-append-drop)

pub split_items :
    (fuel : ℕ) (bs : List ℕ)
    → length bs ≤ fuel
    → (items : List TlvItem) × (tail : List ℕ) × (bs ≡ write_items items ++ tail) × IsCut tail
unfolding write_items
split_items fuel [] h = ([], [], refl, tt)
split_items fuel (type ∷ []) h = ([], type ∷ [], refl, tt)
split_items zero (type ∷ size ∷ rest) h = absurd (omega arith)
split_items (suc fuel) (type ∷ size ∷ rest) h = elim (Bool-cases (ltb (length rest) size)) [
  | inl short ↦ ([], type ∷ size ∷ rest, refl, ltb→lt _ _ short)
  | inr long ↦
      let (items, tail, e, cut) =
        split_items fuel (drop size rest) (omega (arith, length-drop size rest)) in
      (
        record { type = type; value = take size rest } ∷ items,
        tail,
        item_bytes type size rest _ tail (ground arith) e,
        cut,
      )
]

abbrev pub offset_after : ℕ → List TlvItem → ℕ
offset_after offset [] = offset
offset_after offset (item ∷ items) = offset_after (after offset item) items

module _ (offset : ℕ) where
  abbrev cut_at : List ℕ → BufferReader
  cut_at tail = record { offset = offset; rest = tail }

  read_item_cut :
      (x : ℕ) (tail : List ℕ) → IsCut (x ∷ tail) → read_item (cut_at (x ∷ tail)) ≡ ok none
  unfolding read_item remaining
  read_item_cut type [] cut = refl
  read_item_cut type (size ∷ rest) cut =
      rw (read_uint_be_one, read_uint_be_one) (unfold read_buffer in ground arith)

  abbrev issue_at : ℕ → List ℕ → Issue
  issue_at x [] = incomplete_header offset
  issue_at x (size ∷ rest) = incomplete_value (offset + 2) size

  try_item_cut :
      (x : ℕ) (tail : List ℕ)
      → IsCut (x ∷ tail)
      → try_item (cut_at (x ∷ tail)) ≡ ok (inr (issue_at x tail))
  unfolding try_item remaining
  try_item_cut type [] cut = refl
  try_item_cut type (size ∷ rest) cut =
      rw (read_uint_be_one, read_uint_be_one) (unfold read_buffer in ground arith)

  decode_loop_cut :
      (fuel : ℕ) (tail : List ℕ) (items : List TlvItem)
      → IsCut tail
      → decode_loop (suc fuel) (cut_at tail) items ≡ ok (items, cut_at tail)
  unfolding decode_loop has_more
  decode_loop_cut fuel [] items cut = refl
  decode_loop_cut fuel (x ∷ tail) items cut = ground (arith, read_item_cut x tail cut)

  try_loop_cut :
      (fuel : ℕ) (tail : List ℕ) (m : TlvData)
      → IsCut tail
      → try_loop (suc fuel) (cut_at tail) m ≡ ok (m, cut_at tail, issues offset tail)
  unfolding try_loop has_more
  try_loop_cut fuel [] m cut = refl
  try_loop_cut fuel (x ∷ []) m cut = ground (arith, try_item_cut x [] cut)
  try_loop_cut fuel (x ∷ size ∷ tail) m cut = ground (arith, try_item_cut x (size ∷ tail) cut)

module _ (fuel offset : ℕ) (item : TlvItem) (tail : List ℕ) where
  decode_loop_step :
      (acc : List TlvItem)
      → decode_loop (suc fuel) (at_item offset item tail) acc
        ≡ decode_loop fuel (behind offset item tail) (acc ++ item ∷ [])
  unfolding decode_loop has_more
  decode_loop_step acc = ground (arith, read_item_step offset item tail)

  try_loop_step :
      (m : TlvData)
      → try_loop (suc fuel) (at_item offset item tail) m
        ≡ try_loop fuel (behind offset item tail) (merge_item item m)
  unfolding try_loop has_more
  try_loop_step m = ground (arith, try_item_step offset item tail)

pub decode_loop-write_items :
    (items : List TlvItem) (fuel k offset : ℕ) (tail : List ℕ) (acc : List TlvItem)
    → fuel ≡ length items + suc k
    → IsCut tail
    → decode_loop fuel (record { offset = offset; rest = write_items items ++ tail }) acc
      ≡ ok (acc ++ items, record { offset = offset_after offset items; rest = tail })
unfolding write_items
decode_loop-write_items [] fuel k offset tail acc e cut =
    rw (e, zero-add, append-nil) (decode_loop_cut offset k tail acc cut)
decode_loop-write_items (item ∷ items) zero k offset tail acc e cut = absurd (omega arith)
decode_loop-write_items (item ∷ items) (suc fuel) k offset tail acc e cut =
    rw (append_assoc item.value (write_items items) tail) (
      ground (
        arith,
        decode_loop_step fuel offset item (write_items items ++ tail) acc,
        decode_loop-write_items items fuel k (after offset item) tail (acc ++ item ∷ [])
            (omega arith) cut,
        append_assoc acc (item ∷ []) items,
      ))

pub try_loop-write_items :
    (items : List TlvItem) (fuel k offset : ℕ) (tail : List ℕ) (m : TlvData)
    → fuel ≡ length items + suc k
    → IsCut tail
    → try_loop fuel (record { offset = offset; rest = write_items items ++ tail }) m
      ≡ ok (
        merge_items items m,
        record { offset = offset_after offset items; rest = tail },
        issues (offset_after offset items) tail,
      )
unfolding write_items merge_items
try_loop-write_items [] fuel k offset tail m e cut =
    rw (e, zero-add) (try_loop_cut offset k tail m cut)
try_loop-write_items (item ∷ items) zero k offset tail m e cut = absurd (omega arith)
try_loop-write_items (item ∷ items) (suc fuel) k offset tail m e cut =
    rw (append_assoc item.value (write_items items) tail) (
      ground (
        arith,
        try_loop_step fuel offset item (write_items items ++ tail) m,
        try_loop-write_items items fuel k (after offset item) tail (merge_item item m) (omega arith)
            cut,
      ))
