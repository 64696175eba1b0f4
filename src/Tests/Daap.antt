-- ===== src/Tests/Daap.antt =====
-- Runs of daap.ts.
use bunatv.Prelude.{
  ℕ, ◌*◌, ◌/◌, ◌≡◌, ◌≢◌, refl, List, [], ◌∷◌, arith, none, some, ok, err, out_of_fuel,
}
use bunatv.Prelude.Bytes.{to_be}
use bunatv.Daap.Objects.{decode_to_object}
use bunatv.Daap.Termination.{decode_to_object_ends}
use bunatv.Daap.Track.{Arithmetic, TrackMetadata, encode_track_metadata, decode_track_metadata}
use bunatv.Daap.Slots.{slot_bytes, slots_bytes, item_bytes}
use bunatv.Daap.Metadata.{IsEncodable, slots, rounded, decode-encode_track_metadata}

-- Durations in microseconds.
abbrev microseconds : Arithmetic
microseconds = record {
  Duration = ℕ;
  to_milliseconds = λ d. d / 1000;
  to_seconds = λ n. n * 1000;
  to_utf8_string = λ s. s;
}

abbrev song : TrackMetadata microseconds
song = record {
  title = some (b'S' ∷ b'o' ∷ b'n' ∷ b'g' ∷ []);
  artist = none;
  album_artist = none;
  album = some [];
  composer = none;
  genre = none;
  duration = some 210000999;
  track_number = some 65535;
  track_count = none;
  disc_number = some 0;
  disc_count = none;
  year = some 2024;
  bitrate = none;
  sample_rate = some 44100;
  size = none;
}

song-IsEncodable : IsEncodable microseconds song
song-IsEncodable = record {
  title = (omega arith, refl);
  artist = tt;
  album_artist = tt;
  album = (omega arith, refl);
  composer = tt;
  genre = tt;
  duration = omega arith;
  track_number = omega arith;
  track_count = tt;
  disc_number = omega arith;
  disc_count = tt;
  year = omega arith;
  bitrate = tt;
  sample_rate = omega arith;
  size = tt;
  together = unfold slots slots_bytes slot_bytes item_bytes to_be in omega arith;
}

decode-encode_track_metadata_example :
    (bytes : List ℕ) × (encode_track_metadata microseconds song ≡ ok bytes)
    × (decode_track_metadata microseconds bytes ≡ ok (rounded microseconds song))
decode-encode_track_metadata_example =
    decode-encode_track_metadata microseconds song song-IsEncodable

-- A container whose inner tag is cut off.
decode_to_object_ends_example :
    decode_to_object (λ s. s) (b'm' ∷ b'l' ∷ b'i' ∷ b't' ∷ 0 ∷ 0 ∷ 0 ∷ 2 ∷ 1 ∷ 2 ∷ [])
    ≢ err out_of_fuel
decode_to_object_ends_example =
    decode_to_object_ends (λ s. s) (b'm' ∷ b'l' ∷ b'i' ∷ b't' ∷ 0 ∷ 0 ∷ 0 ∷ 2 ∷ 1 ∷ 2 ∷ [])
