-- ===== src/Daap/Track.antt =====
-- The metadata of a track in core/encoding/daap.ts, and the playback status. A number is an integer that is
-- not negative; a duration is a number of its own, of which JavaScript computes the milliseconds.
use bunatv.Prelude.{ℕ, List, [], ◌++◌, Option, none, some, Bool, Result, ok, ◌>>=◌, if◌then◌else◌}
use mathlib.Core.Option
use bunatv.Daap.{text, encode_tag, encode_tag_with_size, encode_container}
use bunatv.Daap.Objects
use bunatv.Daap.Objects.{DaapValue, Entries, get, decode_to_object}
use bunatv.Daap.Tags.{
  mlit, caps, cash, carp, minm, asar, asaa, asal, ascp, asgn, astm, astn, astc, asdn, asdc, asyr,
  asbr, assr, assz,
}

-- `Math.floor(duration * 1000)` and `milliseconds / 1000`, and `toString("utf8")`.
pub record Arithmetic : Type 1 where
  pub Duration : Type 0
  pub to_milliseconds : Duration → ℕ
  pub to_seconds : ℕ → Duration
  pub to_utf8_string : List ℕ → List ℕ

-- The bytes that a field adds, if it is defined.
unfoldable pub optional {ℓ} : {A : Type ℓ} → (A → Result (List ℕ)) → Option A → Result (List ℕ)
optional encode none = ok []
optional encode (some a) = encode a

pub data Repeat : Type 0 where
  off one all : Repeat

pub record PlaybackStatus : Type 0 where
  pub playing : Option Bool
  pub shuffle : Option Bool
  pub repeat : Option Repeat

unfoldable pub repeat_value : Repeat → ℕ
repeat_value off = 0
repeat_value one = 1
repeat_value all = 2

unfoldable pub encode_playback_status : PlaybackStatus → Result (List ℕ)
unfolding optional repeat_value
encode_playback_status status = do
  playing ←
      optional (λ (on : Bool). encode_tag_with_size caps (if on then 4 else 3) 1) status.playing
  shuffle ←
      optional (λ (on : Bool). encode_tag_with_size cash (if on then 1 else 0) 1) status.shuffle
  repeated ← optional (λ r. encode_tag_with_size carp (repeat_value r) 1) status.repeat
  ok (playing ++ (shuffle ++ repeated))

-- The value of a string tag, and of a number tag; TagType makes it one.
unfoldable pub as_text : Option DaapValue → Option (List ℕ)
as_text (some (Objects.text s)) = some s
as_text (some (Objects.raw bytes)) = none
as_text (some (Objects.number n)) = none
as_text (some (Objects.bigint n)) = none
as_text (some (Objects.object o)) = none
as_text none = none

unfoldable pub as_number : Option DaapValue → Option ℕ
as_number (some (Objects.number n)) = some n
as_number (some (Objects.text s)) = none
as_number (some (Objects.raw bytes)) = none
as_number (some (Objects.bigint n)) = none
as_number (some (Objects.object o)) = none
as_number none = none

-- `obj.mlit ?? obj`
unfoldable pub listing : Entries → Option DaapValue → Entries
listing o (some (Objects.object inner)) = inner
listing o (some (Objects.number n)) = o
listing o (some (Objects.text s)) = o
listing o (some (Objects.raw bytes)) = o
listing o (some (Objects.bigint n)) = o
listing o none = o

module _ (js : Arithmetic) where
  pub record TrackMetadata : Type 0 where
    pub title : Option (List ℕ)
    pub artist : Option (List ℕ)
    pub album_artist : Option (List ℕ)
    pub album : Option (List ℕ)
    pub composer : Option (List ℕ)
    pub genre : Option (List ℕ)
    pub duration : Option js.Duration
    pub track_number : Option ℕ
    pub track_count : Option ℕ
    pub disc_number : Option ℕ
    pub disc_count : Option ℕ
    pub year : Option ℕ
    pub bitrate : Option ℕ
    pub sample_rate : Option ℕ
    pub size : Option ℕ

  -- The tags of the fields, in the order in which they are pushed.
  unfoldable pub metadata_tags : TrackMetadata → Result (List ℕ)
  metadata_tags m = do
    title ← optional (λ s. encode_tag minm (text s)) m.title
    artist ← optional (λ s. encode_tag asar (text s)) m.artist
    album_artist ← optional (λ s. encode_tag asaa (text s)) m.album_artist
    album ← optional (λ s. encode_tag asal (text s)) m.album
    composer ← optional (λ s. encode_tag ascp (text s)) m.composer
    genre ← optional (λ s. encode_tag asgn (text s)) m.genre
    duration ← optional (λ d. encode_tag_with_size astm (js.to_milliseconds d) 4) m.duration
    track_number ← optional (λ n. encode_tag_with_size astn n 2) m.track_number
    track_count ← optional (λ n. encode_tag_with_size astc n 2) m.track_count
    disc_number ← optional (λ n. encode_tag_with_size asdn n 2) m.disc_number
    disc_count ← optional (λ n. encode_tag_with_size asdc n 2) m.disc_count
    year ← optional (λ n. encode_tag_with_size asyr n 2) m.year
    bitrate ← optional (λ n. encode_tag_with_size asbr n 2) m.bitrate
    sample_rate ← optional (λ n. encode_tag_with_size assr n 4) m.sample_rate
    size ← optional (λ n. encode_tag_with_size assz n 4) m.size
    ok (
        title
        ++ (artist
            ++ (album_artist
                ++ (album
                    ++ (composer
                        ++ (genre
                            ++ (duration
                                ++ (track_number
                                    ++ (track_count
                                        ++ (disc_number
                                            ++ (disc_count
                                                ++ (year
                                                    ++ (bitrate
                                                        ++ (sample_rate ++ (size)))))))))))))))

  unfoldable pub encode_track_metadata : TrackMetadata → Result (List ℕ)
  encode_track_metadata m = do tags ← metadata_tags m; encode_container mlit tags

  -- The fields of an object.
  unfoldable pub metadata_of : Entries → TrackMetadata
  unfolding as_text as_number
  metadata_of o = record {
    title = as_text (get minm o);
    artist = as_text (get asar o);
    album_artist = as_text (get asaa o);
    album = as_text (get asal o);
    composer = as_text (get ascp o);
    genre = as_text (get asgn o);
    duration = Option.map js.to_seconds (as_number (get astm o));
    track_number = as_number (get astn o);
    track_count = as_number (get astc o);
    disc_number = as_number (get asdn o);
    disc_count = as_number (get asdc o);
    year = as_number (get asyr o);
    bitrate = as_number (get asbr o);
    sample_rate = as_number (get assr o);
    size = as_number (get assz o);
  }

  unfoldable pub decode_track_metadata : List ℕ → Result TrackMetadata
  unfolding listing metadata_of
  decode_track_metadata bytes = do
    o ← decode_to_object js.to_utf8_string bytes
    ok (metadata_of (listing o (get mlit o)))
