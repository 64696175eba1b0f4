-- ===== src/DataStream/RoundTrip.antt =====
-- Sequences of protobufs, encoded and then decoded: DataStreamChannel.ts under protocols/airplay/layers.
use bunatv.Prelude.{
  ℕ, zero, suc, ◌+◌, ◌-◌, ◌^◌, ◌<◌, ◌≡◌, ◌≢◌, refl, sym, ap, ap₂, ◌∙◌, List, [], ◌∷◌, ◌++◌, arith,
  min, none, some, false, ◌==◌, get_elem?, length, length-append, drop, take-append_left,
  drop-append_left, append_assoc, append-nil, le→ltb, lt→ltb,
}
use bunatv.Prelude.Int.{pos, ◌+ℤ◌, ltb_ℤ, pos-add, int32}
use bunatv.DataStream.Varint.{
  write_varint, write_rounds, read_rounds, read_varint, read_varint-write_varint,
}
use bunatv.DataStream.Protobufs.{
  byte_at, is_type_tag, index_of, subarray, read_varint_at, push_front, decode_loop,
  decode_protobufs, encode_protobufs,
}

-- The first byte of a length is the tag of field 1 only for the length 8.
tag-write_varint :
    (n : ℕ) (rest : List ℕ) → is_type_tag (get_elem? (write_varint n ++ rest) 0) ≡ (n == 8)
unfolding is_type_tag write_varint write_rounds
tag-write_varint zero rest = refl
tag-write_varint (suc n) rest = ground arith

long-write_varint : (n : ℕ) → 0 < length (write_varint n)
unfolding write_varint write_rounds
long-write_varint zero = omega arith
long-write_varint (suc n) = ground arith

get_elem?-append :
    (front rest : List ℕ) → get_elem? (front ++ rest) (length front) ≡ get_elem? rest 0
get_elem?-append [] rest = refl
get_elem?-append (b ∷ front) rest = get_elem?-append front rest

subarray_lem :
    (xs m ys : List ℕ) (start end : ℕ)
    → start ≡ length xs
    → end ≡ length xs + length m
    → subarray (xs ++ (m ++ ys)) (pos start) (pos end) ≡ m
unfolding subarray index_of
subarray_lem xs m ys start end e f =
    let whole : length (xs ++ (m ++ ys)) ≡ length xs + (length m + length ys) =
      omega (arith, length-append xs (m ++ ys), length-append m ys) in
    let a : min start (length (xs ++ (m ++ ys))) ≡ length xs = omega (arith, whole) in
    let b : min end (length (xs ++ (m ++ ys))) - length xs ≡ length m = omega (arith, whole) in
    rw (a, b, drop-append_left (length xs) xs (m ++ ys) refl)
      (take-append_left (length m) m ys refl)

-- A buffer `front ++ rest`, read from the end of `front`.
module _ (front : List ℕ) where
  -- One message whose length is not 8.
  decode_loop-message :
      (rounds : ℕ) (m rest : List ℕ)
      → length m < 2 ^ 31
      → length m ≢ 8
      → decode_loop
          (suc rounds)
          (front ++ (write_varint (length m) ++ (m ++ rest)))
          (pos (length front))
        ≡ push_front m (
            decode_loop rounds
              (front ++ (write_varint (length m) ++ (m ++ rest)))
              (pos (length front + length (write_varint (length m)) + length m)))
  unfolding decode_loop byte_at read_varint_at ltb_ℤ
  decode_loop-message rounds m rest small other =
      let n = length m in
      let v = write_varint n in
      let bytes = front ++ (v ++ (m ++ rest)) in
      let size : length bytes ≡ length front + (length v + (n + length rest)) = omega (
        arith,
        length-append front (v ++ (m ++ rest)),
        length-append v (m ++ rest),
        length-append m rest,
      ) in
      let tag : is_type_tag (get_elem? bytes (length front)) ≡ false =
        ap is_type_tag (get_elem?-append front (v ++ (m ++ rest)))
        ∙ tag-write_varint n (m ++ rest)
        ∙ ground arith in
      let read : read_varint (drop (length front) bytes) ≡ some (pos n, length v) =
        ap read_varint (drop-append_left (length front) front (v ++ (m ++ rest)) refl)
        ∙ read_varint-write_varint n (m ++ rest) small in
      let part : subarray bytes (pos (length front + length v)) (pos (length front + length v + n))
          ≡ m =
        ap (λ b. subarray b (pos (length front + length v)) (pos (length front + length v + n)))
          (sym (append_assoc front v (m ++ rest)))
        ∙ subarray_lem (front ++ v) m rest (length front + length v) (length front + length v + n)
            (omega (arith, length-append front v)) (omega (arith, length-append front v)) in
      rw (
        lt→ltb (length front + 0) (length bytes + 0) (omega (arith, size, long-write_varint n)),
        tag,
        read,
        pos-add (length front) (length v),
        pos-add (length front + length v) n,
        le→ltb (length bytes + 0) (length front + length v + n + 0) (omega (arith, size)),
        pos-add (length front) (length v),
        pos-add (length front + length v) n,
        part,
        decode_loop,
      )

  -- What is left begins with the tag of field 1.
  decode_loop-tag :
      (rounds : ℕ) (rest : List ℕ)
      → decode_loop (suc rounds) (front ++ 0x08 ∷ rest) (pos (length front))
        ≡ some ((0x08 ∷ rest) ∷ [])
  unfolding decode_loop byte_at is_type_tag ltb_ℤ
  decode_loop-tag rounds rest =
      rw
        (
          lt→ltb (length front + 0) (length (front ++ 0x08 ∷ rest) + 0)
              (omega (arith, length-append front (0x08 ∷ rest))),
          get_elem?-append front (0x08 ∷ rest),
          decode_loop,
        )
        (ap (λ m. some (m ∷ []))
          (ap (λ b. subarray b (pos (length front)) (pos (length (front ++ 0x08 ∷ rest))))
              (ap (λ b. front ++ b) (sym (append-nil (0x08 ∷ rest))))
            ∙ subarray_lem front (0x08 ∷ rest) [] (length front) (length (front ++ 0x08 ∷ rest))
                refl (length-append front (0x08 ∷ rest))))

  decode_loop-end : (rounds : ℕ) → decode_loop (suc rounds) front (pos (length front)) ≡ some []
  unfolding decode_loop ltb_ℤ
  decode_loop-end rounds =
      rw (le→ltb (length front + 0) (length front + 0) (omega arith), decode_loop)

-- Messages that have a length below 2 ^ 31, and not 8.
abbrev pub AllSendable : List (List ℕ) → Type 0
AllSendable [] = Unit
AllSendable (m ∷ ms) = ((length m < 2 ^ 31) × (length m ≢ 8)) × AllSendable ms

-- The messages are taken off one by one, and the loop goes on with what follows them.
decode_loop-messages :
    (ms : List (List ℕ)) (front rest : List ℕ) (rounds : ℕ) (tail : List (List ℕ))
    → AllSendable ms
    → ((front' : List ℕ)
        → decode_loop (suc rounds) (front' ++ rest) (pos (length front')) ≡ some tail)
    → decode_loop
        (length ms + suc rounds)
        (front ++ (encode_protobufs ms ++ rest))
        (pos (length front))
      ≡ some (ms ++ tail)
unfolding encode_protobufs push_front
decode_loop-messages [] front rest rounds tail h after =
    ap (λ n. decode_loop n (front ++ rest) (pos (length front))) (omega arith) ∙ after front
decode_loop-messages (m ∷ ms) front rest rounds tail ((small, other), hs) after =
    let v = write_varint (length m) in
    let left = encode_protobufs ms ++ rest in
    let front' = front ++ (v ++ m) in
    ap₂ (λ n b. decode_loop n (front ++ b) (pos (length front))) {y = suc (length ms + suc rounds)}
      (omega arith)
      (append_assoc v (m ++ encode_protobufs ms) rest
        ∙ ap (λ b. v ++ b) (append_assoc m (encode_protobufs ms) rest))
    ∙ decode_loop-message front (length ms + suc rounds) m left small other
    ∙ ap (push_front m) (
        ap₂ (λ b n. decode_loop (length ms + suc rounds) b (pos n))
          (ap (λ b. front ++ b) (sym (append_assoc v m left))
            ∙ sym (append_assoc front (v ++ m) left))
          (omega (arith, length-append front (v ++ m), length-append v m))
        ∙ decode_loop-messages ms front' rest rounds tail hs after)

rounds_enough : (n rounds : ℕ) → n < rounds → rounds ≡ n + suc (rounds - n - 1)
rounds_enough n rounds h = omega arith

-- Messages of which none has 8 bytes are decoded as they were encoded, in one round each and one more.
pub decode_protobufs-encode_protobufs :
    (ms : List (List ℕ)) (rounds : ℕ)
    → AllSendable ms
    → length ms < rounds
    → decode_protobufs rounds (encode_protobufs ms) ≡ some ms
unfolding decode_protobufs
decode_protobufs-encode_protobufs ms rounds h enough =
    let k = rounds - length ms - 1 in
    ap₂ (λ n b. decode_loop n b (pos 0)) (rounds_enough (length ms) rounds enough)
      (sym (append-nil (encode_protobufs ms)))
    ∙ decode_loop-messages ms [] [] k [] h (λ front.
      ap (λ b. decode_loop (suc k) b (pos (length front))) (append-nil front)
      ∙ decode_loop-end front k)
    ∙ ap some (append-nil ms)

encode_eight :
    (m : List ℕ) (ns : List (List ℕ))
    → length m ≡ 8
    → encode_protobufs (m ∷ ns) ≡ 0x08 ∷ (m ++ encode_protobufs ns)
unfolding encode_protobufs write_varint write_rounds
encode_eight m ns eight = ap (λ n. write_varint n ++ (m ++ encode_protobufs ns)) eight

-- When a message of 8 bytes follows them, its length and everything behind it come out as one last
-- message.
pub decode_protobufs_eight :
    (ms ns : List (List ℕ)) (m : List ℕ) (rounds : ℕ)
    → AllSendable ms
    → length m ≡ 8
    → length ms < rounds
    → decode_protobufs rounds (encode_protobufs ms ++ encode_protobufs (m ∷ ns))
      ≡ some (ms ++ (0x08 ∷ (m ++ encode_protobufs ns)) ∷ [])
unfolding decode_protobufs
decode_protobufs_eight ms ns m rounds h eight enough =
    let k = rounds - length ms - 1 in
    let tail = 0x08 ∷ (m ++ encode_protobufs ns) in
    ap₂ (λ n b. decode_loop n (encode_protobufs ms ++ b) (pos 0))
      (rounds_enough (length ms) rounds enough) (encode_eight m ns eight)
    ∙ decode_loop-messages ms [] tail k (tail ∷ []) h
        (λ front. decode_loop-tag front k (m ++ encode_protobufs ns))

-- On a buffer that begins with the varint of -5 the loop comes back to the beginning after each round,
-- so that no number of rounds is enough.
pub decode_protobufs_endless :
    (rounds : ℕ) (rest : List ℕ)
    → decode_protobufs rounds (0xfb ∷ 0xff ∷ 0xff ∷ 0xff ∷ 0x0f ∷ rest) ≡ none
unfolding decode_protobufs decode_loop byte_at is_type_tag ltb_ℤ read_varint_at read_varint
    read_rounds int32 ◌+ℤ◌ push_front
decode_protobufs_endless zero rest = refl
decode_protobufs_endless (suc rounds) rest =
    let n = length (0xfb ∷ 0xff ∷ 0xff ∷ 0xff ∷ 0x0f ∷ rest) in
    rw (
      lt→ltb 0 (n + 0) (omega arith),
      le→ltb (n + 0) 0 (omega arith),
      decode_protobufs_endless rounds rest,
      decode_loop,
    )
