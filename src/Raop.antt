-- ===== src/Raop.antt =====
-- The packets of protocols/raop/packets: the header of audio packets, the synchronisation packet and
-- the request to send packets again.
use bunatv.Prelude.{ℕ, List, ◌++◌, Result, ok, err, ◌>>=◌}
use bunatv.Prelude.Bytes.{uint_be, uint_be_at}
pub mod Fifo
pub mod Packets

-- RtpPacket.ts; the writes fill the 12 bytes in order.
unfoldable pub encode_rtp : ℕ → ℕ → ℕ → ℕ → ℕ → Result (List ℕ)
encode_rtp header payload_type seqno timestamp ssrc = do
  b₀ ← uint_be 1 header
  b₁ ← uint_be 1 payload_type
  b₂ ← uint_be 2 seqno
  b₄ ← uint_be 4 timestamp
  b₈ ← uint_be 4 ssrc
  ok (b₀ ++ (b₁ ++ (b₂ ++ (b₄ ++ b₈))))

-- SyncPacket.ts; the writes fill the 20 bytes in order.
unfoldable pub encode_sync : ℕ → ℕ → ℕ → ℕ → ℕ → ℕ → ℕ → Result (List ℕ)
encode_sync header payload_type seqno rtp_timestamp ntp_sec ntp_frac rtp_timestamp_now = do
  b₀ ← uint_be 1 header
  b₁ ← uint_be 1 payload_type
  b₂ ← uint_be 2 seqno
  b₄ ← uint_be 4 rtp_timestamp
  b₈ ← uint_be 4 ntp_sec
  b₁₂ ← uint_be 4 ntp_frac
  b₁₆ ← uint_be 4 rtp_timestamp_now
  ok (b₀ ++ (b₁ ++ (b₂ ++ (b₄ ++ (b₈ ++ (b₁₂ ++ b₁₆))))))

pub record RetransmitRequest : Type 0 where
  pub lost_seqno : ℕ
  pub lost_packets : ℕ

unfoldable pub decode_retransmit_request : List ℕ → Result RetransmitRequest
decode_retransmit_request bytes = do
  lost_seqno ← uint_be_at 2 4 bytes
  lost_packets ← uint_be_at 2 6 bytes
  ok (record { lost_seqno = lost_seqno; lost_packets = lost_packets })
