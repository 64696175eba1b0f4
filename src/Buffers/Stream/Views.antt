-- ===== src/Buffers/Stream/Views.antt =====
-- What a view returned by `StreamBuffer.consume` shows once `consume` has returned: the compaction
-- at its end moves the unread bytes to the front of the memory that the view looks at.
use bunatv.Prelude.{
  ℕ, ◌+◌, ◌-◌, ◌*◌, ◌≤◌, ◌<◌, ◌≡◌, ◌⊎◌, inl, inr, sym, ap, ◌∙◌, List, arith, some, Bool-cases, ltb,
  le→ltb, lt→ltb, length-drop, ◌==◌, length, take, drop, take-take, take-append_le, drop-append_ge,
  drop-drop,
}
use bunatv.Buffers.Writer.{copy_at}
use bunatv.Buffers.Stream.{
  StreamBuffer, View, IsValid, view_bytes, compact, settle, skipped, consume, contents,
}
use bunatv.Buffers.Stream.Laws.{length-contents}
use bunatv.Buffers.Stream.Reading.{skipped_lem, settle_lem, consume_enough}

abbrev pub view_at : ℕ → StreamBuffer → View
view_at size s = record { start = s.read_pos; size = size }

drop-copy_at :
    (at : ℕ) (target source : List ℕ)
    → length source ≤ at
    → drop at (copy_at target 0 source) ≡ drop at target
unfolding copy_at
drop-copy_at at target source le =
    drop-append_ge at (at - length source) source (drop (0 + length source) target) (omega arith)
    ∙ drop-drop (at - length source) (0 + length source) at target (omega arith)

-- Memory behind the place where the moved bytes end is as before.
drop-compact :
    (at : ℕ) (s : StreamBuffer)
    → IsValid s
    → length (contents s) ≤ at
    → drop at (compact s).buffer ≡ drop at s.buffer
unfolding compact contents
drop-compact at s v le = elim (Bool-cases (s.read_pos == 0)) [
  | inl at_zero ↦ rw at_zero
  | inr moved ↦ rw moved (drop-copy_at at s.buffer (contents s) le)
]

take-compact :
    (n : ℕ) (s : StreamBuffer)
    → IsValid s
    → 0 < s.read_pos
    → n ≤ length (contents s)
    → take n (compact s).buffer ≡ take n (contents s)
unfolding compact contents copy_at
take-compact n s v pos le = elim (Bool-cases (s.read_pos == 0)) [
  | inl at_zero ↦ absurd (ground arith)
  | inr moved ↦ rw moved (take-append_le n (contents s) _ le)
]

view-settle :
    (at size : ℕ) (s : StreamBuffer)
    → IsValid s
    → (s.read_pos * 2 ≤ length s.buffer) ⊎ (length (contents s) ≤ at)
    → take size (drop at (settle s).buffer) ≡ take size (drop at s.buffer)
unfolding settle
view-settle at size s v h = elim (Bool-cases (ltb (length s.buffer) (s.read_pos * 2))) [
  | inr stays ↦ rw stays
  | inl moves ↦ rw moves (ap (take size) (drop-compact at s v (ground arith)))
]

module _ (size : ℕ) (s : StreamBuffer) (v : IsValid s) where
  pub first_bytes :
      size ≤ length (contents s) → take size (contents s) ≡ take size (drop s.read_pos s.buffer)
  unfolding contents
  first_bytes le =
      take-take size (s.write_pos - s.read_pos) (drop s.read_pos s.buffer)
        (omega (arith, length-contents s v))

  view_kept :
      size ≤ length (contents s)
      → ((s.read_pos + size) * 2 ≤ length s.buffer) ⊎ (length (contents s) ≤ s.read_pos + size)
      → view_bytes (view_at size s) (settle (skipped size s)) ≡ take size (contents s)
  unfolding view_bytes skipped
  view_kept le h =
      let (v₁, c₁) = skipped_lem size s v le in
      view-settle s.read_pos size (skipped size s) v₁
        (ground (arith, ap (λ (c : List ℕ). length c) c₁, length-drop size (contents s)))
      ∙ sym (first_bytes le)

settle_moves :
    (size : ℕ) (s : StreamBuffer)
    → length s.buffer < (s.read_pos + size) * 2
    → settle (skipped size s) ≡ compact (skipped size s)
unfolding settle skipped
settle_moves size s h = rw (lt→ltb (length s.buffer) ((s.read_pos + size) * 2) h)

pub view_lost :
    (size n : ℕ) (s : StreamBuffer)
    → IsValid s
    → s.read_pos ≡ 0
    → length s.buffer < size * 2
    → n ≤ size
    → size + n ≤ length (contents s)
    → take n (view_bytes (view_at size s) (settle (skipped size s)))
      ≡ take n (drop size (contents s))
unfolding view_bytes
view_lost size n s v at_front half le fits =
    let (v₁, c₁) = skipped_lem size s v (omega arith) in
    let s' = skipped size s in
    let moves = settle_moves size s (omega arith) in
    ap (λ at. take n (take size (drop at (settle s').buffer))) at_front
    ∙ ap (λ (t : StreamBuffer). take n (take size t.buffer)) moves
    ∙ take-take n size (compact s').buffer le
    ∙ take-compact n s' v₁ (unfold skipped in omega arith)
        (ground (arith, ap (λ (c : List ℕ). length c) c₁, length-drop size (contents s)))
    ∙ ap (take n) c₁

-- The view keeps the bytes it was taken for if nothing was moved, or if the bytes moved end
-- before it.
pub view-consume_kept :
    (size : ℕ) (s : StreamBuffer)
    → IsValid s
    → size ≤ length (contents s)
    → ((s.read_pos + size) * 2 ≤ length s.buffer) ⊎ (length (contents s) ≤ s.read_pos + size)
    → (view : View) × (s' : StreamBuffer) × (consume size s ≡ some (view, s'))
      × (view_bytes view s' ≡ take size (contents s))
unfolding consume
view-consume_kept size s v le h =
    let l = length-contents s v in
    let (v₁, c₁) = skipped_lem size s v le in
    (
      view_at size s,
      settle (skipped size s),
      rw (le→ltb (s.write_pos - s.read_pos) size (omega arith)),
      view_kept size s v le h,
    )

settle-max_size : (s : StreamBuffer) → (settle s).max_size ≡ s.max_size
unfolding settle compact
settle-max_size s = elim (Bool-cases (ltb (length s.buffer) (s.read_pos * 2))) [
  | inr stays ↦ rw stays
  | inl moves ↦ elim (Bool-cases (s.read_pos == 0)) [
    | inl at_zero ↦ rw (moves, at_zero, settle)
    | inr moved ↦ rw (moves, moved, settle)
  ]
]

-- The same with what the buffer holds afterwards.
pub consume_kept :
    (size : ℕ) (s : StreamBuffer)
    → IsValid s
    → size ≤ length (contents s)
    → ((s.read_pos + size) * 2 ≤ length s.buffer) ⊎ (length (contents s) ≤ s.read_pos + size)
    → (view : View) × (s' : StreamBuffer) × (consume size s ≡ some (view, s'))
      × (view_bytes view s' ≡ take size (contents s))
      × (contents s' ≡ drop size (contents s))
      × IsValid s'
      × (s'.max_size ≡ s.max_size)
unfolding skipped
consume_kept size s v le h =
    let (v₁, c₁) = skipped_lem size s v le in
    let (c, v') = settle_lem (skipped size s) v₁ in
    (
      view_at size s,
      settle (skipped size s),
      consume_enough size s v le,
      view_kept size s v le h,
      c ∙ c₁,
      v',
      settle-max_size (skipped size s),
    )

-- Otherwise it shows, in its place, what followed: with nothing consumed before, a view of more
-- than half of the buffer begins with the bytes behind it.
pub view-consume_lost :
    (size n : ℕ) (s : StreamBuffer)
    → IsValid s
    → s.read_pos ≡ 0
    → length s.buffer < size * 2
    → n ≤ size
    → size + n ≤ length (contents s)
    → (view : View) × (s' : StreamBuffer) × (consume size s ≡ some (view, s'))
      × (take n (view_bytes view s') ≡ take n (drop size (contents s)))
unfolding consume
view-consume_lost size n s v at_front half le fits =
    let l = length-contents s v in
    let (v₁, c₁) = skipped_lem size s v (omega arith) in
    (
      view_at size s,
      settle (skipped size s),
      rw (le→ltb (s.write_pos - s.read_pos) size (omega arith)),
      view_lost size n s v at_front half le fits,
    )
