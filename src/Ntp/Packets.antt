-- ===== src/Ntp/Packets.antt =====
-- The timing packet, core/encoding/ntp.ts.
use bunatv.Prelude.{
  ℕ, ◌^◌, ◌<◌, ◌≤◌, ◌≡◌, refl, List, [], ◌∷◌, ◌++◌, arith, ok, length, length-append, subst,
  append-nil, le→ltb, le→leb,
}
use bunatv.Prelude.Bytes.{to_be, uint_be_fits, uint_be_at}
use bunatv.Prelude.Layout.{Layout, size, bytes_of, length-bytes_of, uint_be_at-bytes_of}
use bunatv.Ntp.{NtpPacketFields, encode, decode, sendtime}

-- Every field in the range of its bytes.
pub record IsPacket (f : NtpPacketFields) : Type 0 where
  pub proto_fits : f.proto < 2 ^ 8
  pub type_fits : f.type < 2 ^ 8
  pub seqno_fits : f.seqno < 2 ^ 16
  pub padding_fits : f.padding < 2 ^ 32
  pub reftime_sec_fits : f.reftime_sec < 2 ^ 32
  pub reftime_frac_fits : f.reftime_frac < 2 ^ 32
  pub recvtime_sec_fits : f.recvtime_sec < 2 ^ 32
  pub recvtime_frac_fits : f.recvtime_frac < 2 ^ 32
  pub sendtime_sec_fits : f.sendtime_sec < 2 ^ 32
  pub sendtime_frac_fits : f.sendtime_frac < 2 ^ 32

module _ (f : NtpPacketFields) (h : IsPacket f) where
  -- The fields in the order of the packet.
  layout : Layout
  layout =
      (1, f.proto)
      ∷ (1, f.type)
      ∷ (2, f.seqno)
      ∷ (4, f.padding)
      ∷ (4, f.reftime_sec)
      ∷ (4, f.reftime_frac)
      ∷ (4, f.recvtime_sec)
      ∷ (4, f.recvtime_frac)
      ∷ (4, f.sendtime_sec)
      ∷ (4, f.sendtime_frac)
      ∷ []

  encode-layout : encode f ≡ ok (bytes_of layout)
  unfolding encode layout bytes_of
  encode-layout = rw (
    uint_be_fits 1 f.proto h.proto_fits,
    uint_be_fits 1 f.type h.type_fits,
    uint_be_fits 2 f.seqno h.seqno_fits,
    uint_be_fits 4 f.padding h.padding_fits,
    uint_be_fits 4 f.reftime_sec h.reftime_sec_fits,
    uint_be_fits 4 f.reftime_frac h.reftime_frac_fits,
    uint_be_fits 4 f.recvtime_sec h.recvtime_sec_fits,
    uint_be_fits 4 f.recvtime_frac h.recvtime_frac_fits,
    uint_be_fits 4 f.sendtime_sec h.sendtime_sec_fits,
    uint_be_fits 4 f.sendtime_frac h.sendtime_frac_fits,
    append-nil (to_be 4 f.sendtime_frac),
  )

  -- A buffer that begins with the packet.
  module _ (rest : List ℕ) where
    buffer : List ℕ
    buffer = bytes_of layout ++ rest

    long : 32 ≤ length buffer
    unfolding buffer layout size
    long = omega (arith, length-append (bytes_of layout) rest, length-bytes_of layout)

    -- What the code reads of a layout, one field after the other.
    read :
        (front : Layout) (n v : ℕ) (back : Layout)
        → front ++ (n, v) ∷ back ≡ layout
        → v < 256 ^ n
        → uint_be_at n (size front) buffer ≡ ok v
    unfolding buffer
    read front n v back e fits =
        subst (λ l. uint_be_at n (size front) (bytes_of l ++ rest) ≡ ok v) e
          (uint_be_at-bytes_of front n v back rest fits)

    decode-layout : decode buffer ≡ ok f
    unfolding decode sendtime layout size
    decode-layout = rw (
      le→ltb (length buffer) 24 (omega (arith, long)),
      read ([]) 1 f.proto
          ((1, f.type)
            ∷ (2, f.seqno)
            ∷ (4, f.padding)
            ∷ (4, f.reftime_sec)
            ∷ (4, f.reftime_frac)
            ∷ (4, f.recvtime_sec)
            ∷ (4, f.recvtime_frac)
            ∷ (4, f.sendtime_sec)
            ∷ (4, f.sendtime_frac)
            ∷ [])
          refl h.proto_fits,
      read ((1, f.proto) ∷ []) 1 f.type
          ((2, f.seqno)
            ∷ (4, f.padding)
            ∷ (4, f.reftime_sec)
            ∷ (4, f.reftime_frac)
            ∷ (4, f.recvtime_sec)
            ∷ (4, f.recvtime_frac)
            ∷ (4, f.sendtime_sec)
            ∷ (4, f.sendtime_frac)
            ∷ [])
          refl h.type_fits,
      read ((1, f.proto) ∷ (1, f.type) ∷ []) 2 f.seqno
          ((4, f.padding)
            ∷ (4, f.reftime_sec)
            ∷ (4, f.reftime_frac)
            ∷ (4, f.recvtime_sec)
            ∷ (4, f.recvtime_frac)
            ∷ (4, f.sendtime_sec)
            ∷ (4, f.sendtime_frac)
            ∷ [])
          refl h.seqno_fits,
      read ((1, f.proto) ∷ (1, f.type) ∷ (2, f.seqno) ∷ []) 4 f.padding
          ((4, f.reftime_sec)
            ∷ (4, f.reftime_frac)
            ∷ (4, f.recvtime_sec)
            ∷ (4, f.recvtime_frac)
            ∷ (4, f.sendtime_sec)
            ∷ (4, f.sendtime_frac)
            ∷ [])
          refl h.padding_fits,
      read ((1, f.proto) ∷ (1, f.type) ∷ (2, f.seqno) ∷ (4, f.padding) ∷ []) 4 f.reftime_sec
          ((4, f.reftime_frac)
            ∷ (4, f.recvtime_sec)
            ∷ (4, f.recvtime_frac)
            ∷ (4, f.sendtime_sec)
            ∷ (4, f.sendtime_frac)
            ∷ [])
          refl h.reftime_sec_fits,
      read ((1, f.proto) ∷ (1, f.type) ∷ (2, f.seqno) ∷ (4, f.padding) ∷ (4, f.reftime_sec) ∷ []) 4
          f.reftime_frac
          ((4, f.recvtime_sec)
            ∷ (4, f.recvtime_frac)
            ∷ (4, f.sendtime_sec)
            ∷ (4, f.sendtime_frac)
            ∷ [])
          refl h.reftime_frac_fits,
      read
          ((1, f.proto)
            ∷ (1, f.type)
            ∷ (2, f.seqno)
            ∷ (4, f.padding)
            ∷ (4, f.reftime_sec)
            ∷ (4, f.reftime_frac)
            ∷ [])
          4 f.recvtime_sec ((4, f.recvtime_frac) ∷ (4, f.sendtime_sec) ∷ (4, f.sendtime_frac) ∷ [])
          refl h.recvtime_sec_fits,
      read
          ((1, f.proto)
            ∷ (1, f.type)
            ∷ (2, f.seqno)
            ∷ (4, f.padding)
            ∷ (4, f.reftime_sec)
            ∷ (4, f.reftime_frac)
            ∷ (4, f.recvtime_sec)
            ∷ [])
          4 f.recvtime_frac ((4, f.sendtime_sec) ∷ (4, f.sendtime_frac) ∷ []) refl
          h.recvtime_frac_fits,
      le→leb 28 (length buffer) (omega (arith, long)),
      read
          ((1, f.proto)
            ∷ (1, f.type)
            ∷ (2, f.seqno)
            ∷ (4, f.padding)
            ∷ (4, f.reftime_sec)
            ∷ (4, f.reftime_frac)
            ∷ (4, f.recvtime_sec)
            ∷ (4, f.recvtime_frac)
            ∷ [])
          4 f.sendtime_sec ((4, f.sendtime_frac) ∷ []) refl h.sendtime_sec_fits,
      le→leb 32 (length buffer) long,
      read
          ((1, f.proto)
            ∷ (1, f.type)
            ∷ (2, f.seqno)
            ∷ (4, f.padding)
            ∷ (4, f.reftime_sec)
            ∷ (4, f.reftime_frac)
            ∷ (4, f.recvtime_sec)
            ∷ (4, f.recvtime_frac)
            ∷ (4, f.sendtime_sec)
            ∷ [])
          4 f.sendtime_frac ([]) refl h.sendtime_frac_fits,
    )

-- A packet whose fields fit their widths is encoded without an error, to 32 bytes, and decoded to
-- itself, whatever bytes follow it.
pub decode-encode_packet :
    (f : NtpPacketFields) (rest : List ℕ)
    → IsPacket f
    → (bytes : List ℕ) × (encode f ≡ ok bytes)
      × (length bytes ≡ 32)
      × (decode (bytes ++ rest) ≡ ok f)
unfolding buffer layout size
decode-encode_packet f rest h =
    (bytes_of (layout f h), encode-layout f h, length-bytes_of (layout f h), decode-layout f h rest)
