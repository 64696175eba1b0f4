-- ===== src/Ntp.antt =====
-- core/encoding/ntp.ts: 64-bit timestamps and the timing packet. A shift by 32 is written as the product
-- or quotient by 2 ^ 32, `& 0xffffffff` and `>>> 0` as the remainder; both sides of each `|` have
-- no bit in common, so it is a sum. Unix times are not negative here.
use bunatv.Prelude.{
  ℕ, suc, ◌+◌, ◌-◌, ◌*◌, ◌/◌, ◌%◌, ◌^◌, List, ◌++◌, Result, ok, err, packet_too_small, ◌>>=◌, ltb,
  leb, length, if◌then◌else◌,
}
use bunatv.Prelude.Int.{ℤ, minus}
use bunatv.Prelude.Bytes.{uint_be, uint_be_at}
pub mod Time
pub mod Packets

abbrev pub ntp_unix_epoch_offset : ℕ
ntp_unix_epoch_offset = 0x83aa7e80

abbrev pub fraction_scale : ℕ
fraction_scale = 0x100000000

unfoldable pub from_unix_millis : ℕ → ℕ
from_unix_millis ms =
    let seconds = ms / 1000 in
    let remainder_ms = ms - seconds * 1000 in
    (seconds + ntp_unix_epoch_offset) * 2 ^ 32 + (remainder_ms * fraction_scale) / 1000

-- The nearest millisecond of a fraction of a second.
unfoldable pub remainder_millis : ℕ → ℕ
remainder_millis fraction = (fraction * 1000 + fraction_scale / 2) / fraction_scale

-- `(ntp >> 32n) - NTP_UNIX_EPOCH_OFFSET` seconds and the rounded fraction, in milliseconds, through
-- JavaScript's `Number`, the nearest double.
unfoldable pub to_unix_millis : (ℤ → ℤ) → ℕ → ℤ
unfolding minus remainder_millis
to_unix_millis number ntp =
    number (
      minus ((ntp / 2 ^ 32) * 1000 + remainder_millis (ntp % 2 ^ 32))
        (ntp_unix_epoch_offset * 1000))

unfoldable pub parts : ℕ → ℕ × ℕ
parts ntp = (ntp / 2 ^ 32, ntp % 2 ^ 32)

unfoldable pub combine : ℕ → ℕ → ℕ
combine seconds fraction = (seconds % 2 ^ 32) * 2 ^ 32 + fraction % 2 ^ 32

pub record NtpPacketFields : Type 0 where
  pub proto : ℕ
  pub type : ℕ
  pub seqno : ℕ
  pub padding : ℕ
  pub reftime_sec : ℕ
  pub reftime_frac : ℕ
  pub recvtime_sec : ℕ
  pub recvtime_frac : ℕ
  pub sendtime_sec : ℕ
  pub sendtime_frac : ℕ

-- The writes fill the 32 bytes in order.
unfoldable pub encode : NtpPacketFields → Result (List ℕ)
encode fields = do
  b₀ ← uint_be 1 fields.proto
  b₁ ← uint_be 1 fields.type
  b₂ ← uint_be 2 fields.seqno
  b₄ ← uint_be 4 fields.padding
  b₈ ← uint_be 4 fields.reftime_sec
  b₁₂ ← uint_be 4 fields.reftime_frac
  b₁₆ ← uint_be 4 fields.recvtime_sec
  b₂₀ ← uint_be 4 fields.recvtime_frac
  b₂₄ ← uint_be 4 fields.sendtime_sec
  b₂₈ ← uint_be 4 fields.sendtime_frac
  ok (b₀ ++ (b₁ ++ (b₂ ++ (b₄ ++ (b₈ ++ (b₁₂ ++ (b₁₆ ++ (b₂₀ ++ (b₂₄ ++ b₂₈)))))))))

-- A field of the send time: zero in a buffer that ends before it.
unfoldable pub sendtime : ℕ → List ℕ → Result ℕ
sendtime offset buffer =
    if leb (offset + 4) (length buffer) then uint_be_at 4 offset buffer else ok 0

unfoldable pub decode : List ℕ → Result NtpPacketFields
decode buffer = if ltb (length buffer) 24 then err packet_too_small else (do
  proto ← uint_be_at 1 0 buffer
  type ← uint_be_at 1 1 buffer
  seqno ← uint_be_at 2 2 buffer
  padding ← uint_be_at 4 4 buffer
  reftime_sec ← uint_be_at 4 8 buffer
  reftime_frac ← uint_be_at 4 12 buffer
  recvtime_sec ← uint_be_at 4 16 buffer
  recvtime_frac ← uint_be_at 4 20 buffer
  sendtime_sec ← sendtime 24 buffer
  sendtime_frac ← sendtime 28 buffer
  ok (record {
    proto = proto;
    type = type;
    seqno = seqno;
    padding = padding;
    reftime_sec = reftime_sec;
    reftime_frac = reftime_frac;
    recvtime_sec = recvtime_sec;
    recvtime_frac = recvtime_frac;
    sendtime_sec = sendtime_sec;
    sendtime_frac = sendtime_frac;
  }))
