-- ===== src/Tests/Media.antt =====
-- Runs of core/encoding/ntp.ts and protocols/raop/packets.
use bunatv.Prelude.{
  ◌<◌, ◌↔◌, ℕ, ◌+◌, ◌*◌, ◌%◌, ◌^◌, ◌≡◌, refl, List, [], ◌∷◌, ◌++◌, arith, ok, length,
}
use bunatv.Prelude.Bytes.{uint_be_at}
use bunatv.Prelude.Layout.{bytes_of}
use bunatv.Prelude.Map.{get}
use bunatv.Prelude.Int.{pos}
use bunatv.Ntp.{NtpPacketFields, encode, decode, from_unix_millis, to_unix_millis, parts, combine}
use bunatv.Ntp.Time.{to_unix_millis-from_unix_millis, combine-parts, parts-combine}
use bunatv.Ntp.Packets.{IsPacket, decode-encode_packet}
use bunatv.Raop.{encode_rtp, encode_sync, decode_retransmit_request}
use bunatv.Raop.Packets.{encode_rtp_lem, encode_sync_lem, decode_retransmit_request_lem}
use bunatv.Raop.Fifo.{PacketFifo, new_fifo, set}
use bunatv.Raop.Fifo.Backlog.{
  Packets, IsValid, set_all, holds, last_packets, set_all_lem, set-IsValid,
}

to_unix_millis-from_unix_millis_example :
    (to_unix_millis (λ n. n) (from_unix_millis 1700000000123) ≡ pos 1700000000123)
    × ((from_unix_millis 1700000000123 < 2 ^ 64) ↔ (1700000000123 < 2085978496000))
to_unix_millis-from_unix_millis_example =
    to_unix_millis-from_unix_millis (λ n. n) 1700000000123 (λ n l. refl) (omega arith)

combine-parts_example :
    combine ((parts (5 * 2 ^ 32 + 7)).0) ((parts (5 * 2 ^ 32 + 7)).1) ≡ 5 * 2 ^ 32 + 7
combine-parts_example = combine-parts (5 * 2 ^ 32 + 7) (omega arith)

parts-combine_example : parts (combine (2 ^ 32 + 5) 7) ≡ ((2 ^ 32 + 5) % 2 ^ 32, 7 % 2 ^ 32)
parts-combine_example = parts-combine (2 ^ 32 + 5) 7

abbrev timing_packet : NtpPacketFields
timing_packet = record {
  proto = 0x80;
  type = 0xd4;
  seqno = 7;
  padding = 0;
  reftime_sec = 0x83aa7e81;
  reftime_frac = 1000;
  recvtime_sec = 0;
  recvtime_frac = 0;
  sendtime_sec = 0x83aa7e82;
  sendtime_frac = 0xffffffff;
}

timing_packet-IsPacket : IsPacket timing_packet
timing_packet-IsPacket = record {
  proto_fits = omega arith;
  type_fits = omega arith;
  seqno_fits = omega arith;
  padding_fits = omega arith;
  reftime_sec_fits = omega arith;
  reftime_frac_fits = omega arith;
  recvtime_sec_fits = omega arith;
  recvtime_frac_fits = omega arith;
  sendtime_sec_fits = omega arith;
  sendtime_frac_fits = omega arith;
}

decode-encode_packet_example :
    (bytes : List ℕ) × (encode timing_packet ≡ ok bytes)
    × (length bytes ≡ 32)
    × (decode (bytes ++ 1 ∷ []) ≡ ok timing_packet)
decode-encode_packet_example = decode-encode_packet timing_packet (1 ∷ []) timing_packet-IsPacket

encode_rtp_lem_example :
    (bytes : List ℕ) × (encode_rtp 0x80 0xe0 5 100 9 ≡ ok bytes)
    × (length bytes ≡ 12)
    × (uint_be_at 1 0 (bytes ++ []) ≡ ok 0x80)
    × (uint_be_at 1 1 (bytes ++ []) ≡ ok 0xe0)
    × (uint_be_at 2 2 (bytes ++ []) ≡ ok 5)
    × (uint_be_at 4 4 (bytes ++ []) ≡ ok 100)
    × (uint_be_at 4 8 (bytes ++ []) ≡ ok 9)
encode_rtp_lem_example =
    encode_rtp_lem 0x80 0xe0 5 100 9 (omega arith) (omega arith) (omega arith) (omega arith)
      (omega arith) []

encode_sync_lem_example :
    (bytes : List ℕ) × (encode_sync 0x90 0xd4 7 100 5 6 200 ≡ ok bytes)
    × (length bytes ≡ 20)
    × (uint_be_at 1 0 (bytes ++ []) ≡ ok 0x90)
    × (uint_be_at 1 1 (bytes ++ []) ≡ ok 0xd4)
    × (uint_be_at 2 2 (bytes ++ []) ≡ ok 7)
    × (uint_be_at 4 4 (bytes ++ []) ≡ ok 100)
    × (uint_be_at 4 8 (bytes ++ []) ≡ ok 5)
    × (uint_be_at 4 12 (bytes ++ []) ≡ ok 6)
    × (uint_be_at 4 16 (bytes ++ []) ≡ ok 200)
encode_sync_lem_example =
    encode_sync_lem 0x90 0xd4 7 100 5 6 200 (omega arith) (omega arith) (omega arith) (omega arith)
      (omega arith) (omega arith) (omega arith) []

decode_retransmit_request_lem_example :
    decode_retransmit_request (bytes_of ((4, 0x80d50001) ∷ (2, 513) ∷ (2, 3) ∷ []) ++ [])
    ≡ ok (record { lost_seqno = 513; lost_packets = 3 })
decode_retransmit_request_lem_example =
    decode_retransmit_request_lem 0x80d50001 513 3 [] (omega arith) (omega arith)

abbrev sent_packets : Packets
sent_packets = (1, 10 ∷ []) ∷ (2, 20 ∷ []) ∷ (3, 30 ∷ []) ∷ []

set_all_lem_example : set_all sent_packets (new_fifo 2) ≡ holds 2 (last_packets 2 sent_packets)
unfolding get
set_all_lem_example = set_all_lem 2 sent_packets (refl, (refl, (refl, tt)))

abbrev full_fifo : PacketFifo
full_fifo = holds 2 ((1, 10 ∷ []) ∷ (2, 20 ∷ []) ∷ [])

full_fifo-IsValid : IsValid full_fifo
unfolding get
full_fifo-IsValid = record { in_order = refl; distinct = (refl, (refl, tt)); bounded = omega arith }

set-IsValid_example : IsValid (set 3 (30 ∷ []) full_fifo)
set-IsValid_example = set-IsValid 3 (30 ∷ []) full_fifo full_fifo-IsValid
