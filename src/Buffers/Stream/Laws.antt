-- ===== src/Buffers/Stream/Laws.antt =====
-- `StreamBuffer` as a queue of bytes: what its operations do to `contents`.
use bunatv.Prelude.{
  ℕ, zero, suc, ◌+◌, ◌-◌, ◌*◌, ◌≤◌, ◌<◌, ◌≡◌, refl, sym, ap, ◌∙◌, min, List, ◌++◌, arith, true,
  ◌&&◌, ok, ltb, le→ltb, ltb→lt, drop-append_le, drop-take, length, length-take, length-take_le,
  length-drop, take, drop, Bool-cases, inl, inr,
}
use bunatv.Buffers.Writer.{copy_at, length-copy_at, take-copy_at}
use bunatv.Buffers.Stream.{
  StreamBuffer, copy_in, IsValid, compact, double_until, compact_for, enlarge, grow, make_room,
  append, contents,
}

module _ (s : StreamBuffer) (v : IsValid s) where
  pub length-contents : length (contents s) ≡ s.write_pos - s.read_pos
  unfolding contents
  length-contents = length-take_le _ _ (omega (arith, length-drop s.read_pos s.buffer, v.within))

  pub compact_lem :
      (contents (compact s) ≡ contents s)
      × IsValid (compact s)
      × ((compact s).read_pos ≡ 0)
      × ((compact s).write_pos ≡ s.write_pos - s.read_pos)
      × (length (compact s).buffer ≡ length s.buffer)
      × ((compact s).max_size ≡ s.max_size)
  unfolding compact contents
  compact_lem =
      let moved = take (s.write_pos - s.read_pos) (drop s.read_pos s.buffer) in
      let same = length-copy_at s.buffer 0 moved in
      let front = take-copy_at (s.write_pos - s.read_pos) s.buffer 0 moved in
      (
        ground (arith, length-contents, front),
        ground (arith, length-contents, same, v.ordered, v.within, v.nonempty, v.bounded),
        ground arith,
        ground arith,
        ground (arith, length-contents, same),
        ground arith,
      )

pub compact_for_lem :
    (size : ℕ) (s : StreamBuffer)
    → IsValid s
    → (contents (compact_for size s) ≡ contents s)
      × IsValid (compact_for size s)
      × ((compact_for size s).write_pos - (compact_for size s).read_pos ≡ s.write_pos - s.read_pos)
      × (length (compact_for size s).buffer < (compact_for size s).write_pos + size
          → (compact_for size s).read_pos ≡ 0)
      × ((compact_for size s).max_size ≡ s.max_size)
unfolding compact_for
compact_for_lem size s v =
    let (c, v', r, w, l, m) = compact_lem s v in
    elim (Bool-cases (ltb (length s.buffer) (s.write_pos + size) && ltb 0 s.read_pos)) [
      | inl t ↦ rw t (c, v', omega arith, λ h. r, m)
      | inr f ↦ rw f (refl, v, refl, λ h. ground arith, refl)
    ]

pub copy_in_lem :
    (bytes : List ℕ) (s : StreamBuffer)
    → IsValid s
    → s.write_pos + length bytes ≤ length s.buffer
    → (contents (copy_in bytes s) ≡ contents s ++ bytes) × IsValid (copy_in bytes s)
unfolding contents copy_in
copy_in_lem bytes s v fits = (
  sym (
        drop-take s.read_pos (s.write_pos + length bytes) _ (copy_at s.buffer s.write_pos bytes)
          (omega arith))
      ∙ ap (drop s.read_pos)
          (take-copy_at (s.write_pos + length bytes) s.buffer s.write_pos bytes v.within refl)
      ∙ drop-append_le s.read_pos (take s.write_pos s.buffer) bytes
          (omega (arith, length-take s.write_pos s.buffer))
      ∙ ap (λ front. front ++ bytes)
          (drop-take s.read_pos s.write_pos (s.write_pos - s.read_pos) s.buffer (omega arith)),
  ground (arith, length-copy_at s.buffer s.write_pos bytes, v.ordered, v.nonempty, v.bounded),
)

-- The doubling stops at a size that is large enough or past the limit, and never fails.
double_until_lem :
    (fuel min_size max_size size : ℕ)
    → 0 < size
    → min_size ≤ fuel + size
    → (r : ℕ) × (double_until fuel min_size max_size size ≡ ok r)
      × (size ≤ r)
      × (min min_size max_size ≤ r)
unfolding double_until
double_until_lem zero min_size max_size size pos h = (size, ground arith, omega arith, omega arith)
double_until_lem (suc fuel) min_size max_size size pos h =
    elim (Bool-cases (ltb size min_size && ltb size max_size)) [
      | inl more ↦
          let (r, e, le, ge) =
            double_until_lem fuel min_size max_size (size * 2) (omega arith) (omega arith) in
          (r, rw (more, double_until) e, omega arith, ge)
      | inr done ↦ (size, rw (done, double_until), omega arith, ground arith)
    ]

module _ (allocate : ℕ → List ℕ) (allocate_length : (n : ℕ) → length (allocate n) ≡ n) where
  grow_lem :
      (min_size : ℕ) (s : StreamBuffer)
      → IsValid s
      → s.write_pos - s.read_pos ≤ min_size
      → min_size ≤ s.max_size
      → (s' : StreamBuffer) × (grow allocate min_size s ≡ ok s')
        × IsValid s'
        × (contents s' ≡ contents s)
        × (s'.max_size ≡ s.max_size)
        × (min_size ≤ length s'.buffer)
        × (s'.write_pos ≡ s.write_pos - s.read_pos)
        × (s'.read_pos ≡ 0)
  unfolding grow contents
  grow_lem min_size s v fits room =
      let (d, e, le, ge) =
        double_until_lem min_size min_size s.max_size (length s.buffer) v.nonempty (omega arith) in
      let c = take (s.write_pos - s.read_pos) (drop s.read_pos s.buffer) in
      let fresh = allocate (min d s.max_size) in
      let n = allocate_length (min d s.max_size) in
      let same = length-copy_at fresh 0 c in
      let front = take-copy_at (s.write_pos - s.read_pos) fresh 0 c in
      let lc = length-contents s v in
      (
        record s { buffer = copy_at fresh 0 c; write_pos = s.write_pos - s.read_pos; read_pos = 0 },
        rw (e, le→ltb (min d s.max_size) min_size (omega arith)),
        ground arith,
        ground arith,
        refl,
        ground arith,
        refl,
        refl,
      )

  make_room_fits :
      (size : ℕ) (s : StreamBuffer)
      → IsValid s
      → (compact_for size s).write_pos + size ≤ length (compact_for size s).buffer
      → make_room allocate size s ≡ ok (compact_for size s)
  unfolding make_room enlarge
  make_room_fits size s v fits =
      let (c, v', w, d, m) = compact_for_lem size s v in
      rw (
        le→ltb (length (compact_for size s).buffer) ((compact_for size s).write_pos + size) fits,
        le→ltb s.max_size ((compact_for size s).write_pos + size) (omega (arith, v'.bounded)),
        le→ltb (length (compact_for size s).buffer) ((compact_for size s).write_pos + size) fits,
      )

  make_room_grows :
      (size : ℕ) (s s₂ : StreamBuffer)
      → ltb (length (compact_for size s).buffer) ((compact_for size s).write_pos + size) ≡ true
      → grow allocate ((compact_for size s).write_pos + size) (compact_for size s) ≡ ok s₂
      → (compact_for size s).write_pos + size ≤ s.max_size
      → (compact_for size s).write_pos + size ≤ length s₂.buffer
      → make_room allocate size s ≡ ok s₂
  unfolding make_room enlarge
  make_room_grows size s s₂ short e bounded fits = rw (
    short,
    e,
    le→ltb s.max_size ((compact_for size s).write_pos + size) bounded,
    le→ltb (length s₂.buffer) ((compact_for size s).write_pos + size) fits,
  )

  make_room_lem :
      (size : ℕ) (s : StreamBuffer)
      → IsValid s
      → (s.write_pos - s.read_pos) + size ≤ s.max_size
      → (s' : StreamBuffer) × (make_room allocate size s ≡ ok s')
        × IsValid s'
        × (contents s' ≡ contents s)
        × (s'.max_size ≡ s.max_size)
        × (s'.write_pos + size ≤ length s'.buffer)
  make_room_lem size s v room =
      let s₁ = compact_for size s in
      let required = s₁.write_pos + size in
      let (c, v₁, w, r, m) = compact_for_lem size s v in
      elim (Bool-cases (ltb (length s₁.buffer) required)) [
        | inr fits ↦
            let le : s₁.write_pos + size ≤ length s₁.buffer = ground arith in
            (s₁, make_room_fits size s v le, v₁, c, m, le)
        | inl short ↦
            let r0 = r (ltb→lt (length s₁.buffer) required short) in
            let (s₂, e, v₂, c₂, m₂, le, w₂, r₂) =
              grow_lem required s₁ v₁ (omega arith) (omega arith) in
            (
              s₂,
              make_room_grows size s s₂ short e (omega arith) le,
              v₂,
              c₂ ∙ c,
              m₂ ∙ m,
              omega arith,
            )
      ]

  -- A successful `append` adds its bytes behind what is still to be read, whether the buffer is
  -- compacted, grown or neither; it succeeds whenever all of that fits `maxSize`.
  pub append_lem :
      (bytes : List ℕ) (s : StreamBuffer)
      → IsValid s
      → length (contents s) + length bytes ≤ s.max_size
      → (s' : StreamBuffer) × (append allocate bytes s ≡ ok s')
        × IsValid s'
        × (contents s' ≡ contents s ++ bytes)
        × (s'.max_size ≡ s.max_size)
  unfolding append
  append_lem bytes s v room =
      let (s', e, v', c, m, le) =
        make_room_lem (length bytes) s v (omega (arith, length-contents s v)) in
      (
        copy_in bytes s',
        rw e,
        (copy_in_lem bytes s' v' le).1,
        (copy_in_lem bytes s' v' le).0 ∙ ap (λ front. front ++ bytes) c,
        unfold copy_in in m,
      )
