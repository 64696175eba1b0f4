-- ===== src/Buffers/Stream/Reading.antt =====
-- `consume` and `peek` of a stream buffer, `StreamBuffer` of core/encoding/buffer-utils.ts.
use bunatv.Prelude.{
  ℕ, ◌+◌, ◌-◌, ◌*◌, ◌≤◌, ◌<◌, ◌≡◌, refl, sym, ap, ◌∙◌, arith, none, some, ltb, le→ltb, drop-take,
  take-take, length, take, drop, drop-drop, Bool-cases, inl, inr,
}
use bunatv.Buffers.Stream.{
  StreamBuffer, View, view_bytes, skipped, settle, IsValid, available, consume, peek, contents,
}
use bunatv.Buffers.Stream.Laws.{compact_lem, length-contents}

-- `consume` refuses what is not there; else it moves past the bytes, and its view showed them
-- before the buffer was compacted.
pub consume_short :
    (size : ℕ) (s : StreamBuffer) → IsValid s → length (contents s) < size → consume size s ≡ none
unfolding consume
consume_short size s v short = ground (arith, length-contents s v)

pub skipped_lem :
    (size : ℕ) (s : StreamBuffer)
    → IsValid s
    → size ≤ length (contents s)
    → IsValid (skipped size s) × (contents (skipped size s) ≡ drop size (contents s))
unfolding skipped contents
skipped_lem size s v le =
    let l = length-contents s v in
    (
      record {
        ordered = omega arith;
        within = v.within;
        nonempty = v.nonempty;
        bounded = v.bounded;
      },
      ap (take (s.write_pos - (s.read_pos + size)))
            (sym (drop-drop size s.read_pos (s.read_pos + size) s.buffer refl))
          ∙ sym (
              drop-take size (s.write_pos - s.read_pos) (s.write_pos - (s.read_pos + size))
                (drop s.read_pos s.buffer) (omega arith)),
    )

pub settle_lem :
    (s : StreamBuffer) → IsValid s → (contents (settle s) ≡ contents s) × IsValid (settle s)
unfolding settle
settle_lem s v =
    let (c, v', r, w, l, m) = compact_lem s v in
    elim (Bool-cases (ltb (length s.buffer) (s.read_pos * 2))) [
      | inl t ↦ rw t (c, v')
      | inr f ↦ rw f (refl, v)
    ]

-- On a valid stream buffer consume of at most the unread bytes returns a view that showed the first of
-- them before the call, leaves the others unread in order, and keeps the buffer valid.
pub consume_lem :
    (size : ℕ) (s : StreamBuffer)
    → IsValid s
    → size ≤ length (contents s)
    → (view : View) × (s' : StreamBuffer) × (consume size s ≡ some (view, s'))
      × (view_bytes view s ≡ take size (contents s))
      × (contents s' ≡ drop size (contents s))
      × IsValid s'
unfolding consume
consume_lem size s v le =
    let l = length-contents s v in
    let (v₁, c₁) = skipped_lem size s v le in
    let (c, v') = settle_lem (skipped size s) v₁ in
    (
      record { start = s.read_pos; size = size },
      settle (skipped size s),
      rw (le→ltb (s.write_pos - s.read_pos) size (omega arith)),
      unfold view_bytes contents in
          sym (take-take size (s.write_pos - s.read_pos) (drop s.read_pos s.buffer) (omega arith)),
      c ∙ c₁,
      v',
    )

pub available-contents : (s : StreamBuffer) → IsValid s → available s ≡ length (contents s)
unfolding available
available-contents s v = sym (length-contents s v)

pub peek-contents :
    (size : ℕ) (s : StreamBuffer)
    → IsValid s
    → size ≤ length (contents s)
    → peek size 0 s ≡ some (take size (contents s))
unfolding peek contents
peek-contents size s v le =
    let front : 0 + size ≡ size = omega arith in
    let start : s.read_pos + 0 ≡ s.read_pos = omega arith in
    rw (
      front,
      start,
      le→ltb (s.write_pos - s.read_pos) size (omega (arith, length-contents s v)),
      take-take size (s.write_pos - s.read_pos) (drop s.read_pos s.buffer)
          (omega (arith, length-contents s v)),
    )

-- In the lower half of the buffer `consume` only moves on.
pub consume_low :
    (size : ℕ) (s : StreamBuffer)
    → IsValid s
    → size ≤ length (contents s)
    → (s.read_pos + size) * 2 ≤ length s.buffer
    → consume size s ≡ some (record { start = s.read_pos; size = size }, skipped size s)
unfolding consume
consume_low size s v le low = rw (
  le→ltb (s.write_pos - s.read_pos) size (omega (arith, length-contents s v)),
  le→ltb (length s.buffer) ((s.read_pos + size) * 2) low,
)

pub consume_enough :
    (size : ℕ) (s : StreamBuffer)
    → IsValid s
    → size ≤ length (contents s)
    → consume size s ≡ some (record { start = s.read_pos; size = size }, settle (skipped size s))
unfolding consume
consume_enough size s v le =
    rw (le→ltb (s.write_pos - s.read_pos) size (omega (arith, length-contents s v)))
