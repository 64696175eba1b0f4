-- ===== src/Raop/Packets.antt =====
-- Layouts of the packets, protocols/raop/packets.
use bunatv.Prelude.{ℕ, ◌^◌, ◌<◌, ◌≡◌, List, [], ◌∷◌, ◌++◌, ok, length, append-nil}
use bunatv.Prelude.Bytes.{to_be, uint_be_fits, uint_be_at}
use bunatv.Prelude.Layout.{Layout, size, bytes_of, length-bytes_of, uint_be_at-bytes_of}
use bunatv.Raop.{encode_rtp, encode_sync, decode_retransmit_request}

module _ (header payload_type seqno timestamp ssrc : ℕ) where
  abbrev pub rtp_layout : Layout
  rtp_layout = (1, header) ∷ (1, payload_type) ∷ (2, seqno) ∷ (4, timestamp) ∷ (4, ssrc) ∷ []

  -- Fields that fit their widths are encoded without an error to the 12 bytes of the header, and
  -- each of the five is read back at its documented offset, whatever bytes follow.
  pub encode_rtp_lem :
      header < 2 ^ 8
      → payload_type < 2 ^ 8
      → seqno < 2 ^ 16
      → timestamp < 2 ^ 32
      → ssrc < 2 ^ 32
      → (rest : List ℕ)
      → (bytes : List ℕ) × (encode_rtp header payload_type seqno timestamp ssrc ≡ ok bytes)
        × (length bytes ≡ 12)
        × (uint_be_at 1 0 (bytes ++ rest) ≡ ok header)
        × (uint_be_at 1 1 (bytes ++ rest) ≡ ok payload_type)
        × (uint_be_at 2 2 (bytes ++ rest) ≡ ok seqno)
        × (uint_be_at 4 4 (bytes ++ rest) ≡ ok timestamp)
        × (uint_be_at 4 8 (bytes ++ rest) ≡ ok ssrc)
  unfolding encode_rtp bytes_of size
  encode_rtp_lem a b c d e rest = (
    bytes_of rtp_layout,
    rw (
      uint_be_fits 1 header a,
      uint_be_fits 1 payload_type b,
      uint_be_fits 2 seqno c,
      uint_be_fits 4 timestamp d,
      uint_be_fits 4 ssrc e,
      append-nil (to_be 4 ssrc),
    ),
    length-bytes_of rtp_layout,
    uint_be_at-bytes_of [] 1 header
        ((1, payload_type) ∷ (2, seqno) ∷ (4, timestamp) ∷ (4, ssrc) ∷ []) rest a,
    uint_be_at-bytes_of ((1, header) ∷ []) 1 payload_type
        ((2, seqno) ∷ (4, timestamp) ∷ (4, ssrc) ∷ []) rest b,
    uint_be_at-bytes_of ((1, header) ∷ (1, payload_type) ∷ []) 2 seqno
        ((4, timestamp) ∷ (4, ssrc) ∷ []) rest c,
    uint_be_at-bytes_of ((1, header) ∷ (1, payload_type) ∷ (2, seqno) ∷ []) 4 timestamp
        ((4, ssrc) ∷ []) rest d,
    uint_be_at-bytes_of ((1, header) ∷ (1, payload_type) ∷ (2, seqno) ∷ (4, timestamp) ∷ []) 4 ssrc
        [] rest e,
  )

module _ (header payload_type seqno rtp_timestamp ntp_sec ntp_frac rtp_timestamp_now : ℕ) where
  abbrev pub sync_layout : Layout
  sync_layout =
      (1, header)
      ∷ (1, payload_type)
      ∷ (2, seqno)
      ∷ (4, rtp_timestamp)
      ∷ (4, ntp_sec)
      ∷ (4, ntp_frac)
      ∷ (4, rtp_timestamp_now)
      ∷ []

  -- Fields that fit their widths are encoded without an error to the 20 bytes of the packet, and
  -- each of the seven is read back at its documented offset, whatever bytes follow.
  pub encode_sync_lem :
      header < 2 ^ 8
      → payload_type < 2 ^ 8
      → seqno < 2 ^ 16
      → rtp_timestamp < 2 ^ 32
      → ntp_sec < 2 ^ 32
      → ntp_frac < 2 ^ 32
      → rtp_timestamp_now < 2 ^ 32
      → (rest : List ℕ)
      → (bytes : List ℕ) × (encode_sync header payload_type seqno rtp_timestamp ntp_sec ntp_frac
            rtp_timestamp_now
          ≡ ok bytes)
        × (length bytes ≡ 20)
        × (uint_be_at 1 0 (bytes ++ rest) ≡ ok header)
        × (uint_be_at 1 1 (bytes ++ rest) ≡ ok payload_type)
        × (uint_be_at 2 2 (bytes ++ rest) ≡ ok seqno)
        × (uint_be_at 4 4 (bytes ++ rest) ≡ ok rtp_timestamp)
        × (uint_be_at 4 8 (bytes ++ rest) ≡ ok ntp_sec)
        × (uint_be_at 4 12 (bytes ++ rest) ≡ ok ntp_frac)
        × (uint_be_at 4 16 (bytes ++ rest) ≡ ok rtp_timestamp_now)
  unfolding encode_sync bytes_of size
  encode_sync_lem a b c d e f g rest = (
    bytes_of sync_layout,
    rw (
      uint_be_fits 1 header a,
      uint_be_fits 1 payload_type b,
      uint_be_fits 2 seqno c,
      uint_be_fits 4 rtp_timestamp d,
      uint_be_fits 4 ntp_sec e,
      uint_be_fits 4 ntp_frac f,
      uint_be_fits 4 rtp_timestamp_now g,
      append-nil (to_be 4 rtp_timestamp_now),
    ),
    length-bytes_of sync_layout,
    uint_be_at-bytes_of ([]) 1 header
        ((1, payload_type)
          ∷ (2, seqno)
          ∷ (4, rtp_timestamp)
          ∷ (4, ntp_sec)
          ∷ (4, ntp_frac)
          ∷ (4, rtp_timestamp_now)
          ∷ [])
        rest a,
    uint_be_at-bytes_of ((1, header) ∷ []) 1 payload_type
        ((2, seqno)
          ∷ (4, rtp_timestamp)
          ∷ (4, ntp_sec)
          ∷ (4, ntp_frac)
          ∷ (4, rtp_timestamp_now)
          ∷ [])
        rest b,
    uint_be_at-bytes_of ((1, header) ∷ (1, payload_type) ∷ []) 2 seqno
        ((4, rtp_timestamp) ∷ (4, ntp_sec) ∷ (4, ntp_frac) ∷ (4, rtp_timestamp_now) ∷ []) rest c,
    uint_be_at-bytes_of ((1, header) ∷ (1, payload_type) ∷ (2, seqno) ∷ []) 4 rtp_timestamp
        ((4, ntp_sec) ∷ (4, ntp_frac) ∷ (4, rtp_timestamp_now) ∷ []) rest d,
    uint_be_at-bytes_of ((1, header) ∷ (1, payload_type) ∷ (2, seqno) ∷ (4, rtp_timestamp) ∷ []) 4
        ntp_sec ((4, ntp_frac) ∷ (4, rtp_timestamp_now) ∷ []) rest e,
    uint_be_at-bytes_of
        ((1, header) ∷ (1, payload_type) ∷ (2, seqno) ∷ (4, rtp_timestamp) ∷ (4, ntp_sec) ∷ []) 4
        ntp_frac ((4, rtp_timestamp_now) ∷ []) rest f,
    uint_be_at-bytes_of
        ((1, header)
          ∷ (1, payload_type)
          ∷ (2, seqno)
          ∷ (4, rtp_timestamp)
          ∷ (4, ntp_sec)
          ∷ (4, ntp_frac)
          ∷ [])
        4 rtp_timestamp_now ([]) rest g,
  )

-- A request is decoded from the two 16-bit numbers behind its first four bytes, whatever those are
-- and whatever follows.
pub decode_retransmit_request_lem :
    (start lost_seqno lost_packets : ℕ) (rest : List ℕ)
    → lost_seqno < 2 ^ 16
    → lost_packets < 2 ^ 16
    → decode_retransmit_request
        (bytes_of ((4, start) ∷ (2, lost_seqno) ∷ (2, lost_packets) ∷ []) ++ rest)
      ≡ ok (record { lost_seqno = lost_seqno; lost_packets = lost_packets })
unfolding decode_retransmit_request size
decode_retransmit_request_lem start lost_seqno lost_packets rest a b = rw (
  uint_be_at-bytes_of ((4, start) ∷ []) 2 lost_seqno ((2, lost_packets) ∷ []) rest a,
  uint_be_at-bytes_of ((4, start) ∷ (2, lost_seqno) ∷ []) 2 lost_packets [] rest b,
)
