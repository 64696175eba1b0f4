-- ===== src/Daap/Metadata.antt =====
-- The metadata of a track through core/encoding/daap.ts.
use bunatv.Prelude.{
  ℕ, suc, ◌+◌, ◌^◌, ◌<◌, ◌≡◌, refl, sym, ap, ◌∙◌, List, [], ◌∷◌, ◌++◌, arith, Option, none, some,
  Result, ok, All, length, append-nil, inl, inr, same_bytes,
}
use mathlib.Core.Option
use bunatv.Prelude.Map
use bunatv.Daap.{encode_container, assert_tag}
use bunatv.Daap.Objects.{
  object, Entries, empty, get, put, tag_type, read_value, decode_depth, decode_to_object,
}
use bunatv.Daap.Tags.{
  mlit, minm, asar, asaa, asal, ascp, asgn, astm, astn, astc, asdn, asdc, asyr, asbr, assr, assz,
}
use bunatv.Daap.Track.{
  Arithmetic, listing, TrackMetadata, metadata_tags, encode_track_metadata, metadata_of,
  decode_track_metadata,
}
use bunatv.Daap.Slots.{
  item_bytes, length-item_bytes, concat-item_bytes, Slot, slot_bytes, slots_bytes, put_slots,
  get-put_slots, find, put_slot,
}
use bunatv.Daap.RoundTrip.{IsReadable, decode_depth-slots}
use bunatv.Daap.Fields.{
  WhenDefined, is_ascii, ascii-IsTag, text_slot, number_slot, as_text-later, as_number-later,
  optional-text, optional-number, optional-plain, weaken, mapped, text_slot-IsReadable,
  number_slot-IsReadable,
}

module _ (js : Arithmetic) where
  -- A text is shorter than 2 ^ 32 bytes and is its own UTF-8 text.
  abbrev IsText : List ℕ → Type 0
  IsText s = (length s < 2 ^ 32) × (js.to_utf8_string s ≡ s)

  -- A duration whose whole milliseconds fit their tag.
  abbrev IsDuration : js.Duration → Type 0
  IsDuration d = js.to_milliseconds d < 2 ^ 32

  -- The metadata with its duration rounded down to whole milliseconds, as seconds again.
  abbrev pub rounded : TrackMetadata js → TrackMetadata js
  rounded m = record m {
    duration = Option.map js.to_seconds (Option.map js.to_milliseconds m.duration);
  }

  unfoldable pub slots : TrackMetadata js → List Slot
  slots m =
      text_slot minm m.title
      ∷ text_slot asar m.artist
      ∷ text_slot asaa m.album_artist
      ∷ text_slot asal m.album
      ∷ text_slot ascp m.composer
      ∷ text_slot asgn m.genre
      ∷ number_slot astm 4 (Option.map js.to_milliseconds m.duration)
      ∷ number_slot astn 2 m.track_number
      ∷ number_slot astc 2 m.track_count
      ∷ number_slot asdn 2 m.disc_number
      ∷ number_slot asdc 2 m.disc_count
      ∷ number_slot asyr 2 m.year
      ∷ number_slot asbr 2 m.bitrate
      ∷ number_slot assr 4 m.sample_rate
      ∷ number_slot assz 4 m.size
      ∷ []

  -- Every field that is defined fits its tag, and all the tags fit a container.
  pub record IsEncodable (m : TrackMetadata js) : Type 0 where
    pub title : WhenDefined IsText m.title
    pub artist : WhenDefined IsText m.artist
    pub album_artist : WhenDefined IsText m.album_artist
    pub album : WhenDefined IsText m.album
    pub composer : WhenDefined IsText m.composer
    pub genre : WhenDefined IsText m.genre
    pub duration : WhenDefined IsDuration m.duration
    pub track_number : WhenDefined (λ n. n < 2 ^ 16) m.track_number
    pub track_count : WhenDefined (λ n. n < 2 ^ 16) m.track_count
    pub disc_number : WhenDefined (λ n. n < 2 ^ 16) m.disc_number
    pub disc_count : WhenDefined (λ n. n < 2 ^ 16) m.disc_count
    pub year : WhenDefined (λ n. n < 2 ^ 16) m.year
    pub bitrate : WhenDefined (λ n. n < 2 ^ 16) m.bitrate
    pub sample_rate : WhenDefined (λ n. n < 2 ^ 32) m.sample_rate
    pub size : WhenDefined (λ n. n < 2 ^ 32) m.size
    pub together : length (slots_bytes (slots m)) < 2 ^ 32

  module _ (m : TrackMetadata js) (h : IsEncodable m) where
    short_text :
        (o : Option (List ℕ)) → WhenDefined IsText o → WhenDefined (λ s. length s < 2 ^ 32) o
    short_text o = weaken o (λ s p. p.0)

    metadata_tags-slots : metadata_tags js m ≡ ok (slots_bytes (slots m))
    unfolding metadata_tags slots_bytes slots is_ascii
    metadata_tags-slots = rw (
      optional-text minm m.title (ascii-IsTag minm refl refl) (short_text m.title h.title),
      optional-text asar m.artist (ascii-IsTag asar refl refl) (short_text m.artist h.artist),
      optional-text asaa m.album_artist (ascii-IsTag asaa refl refl)
          (short_text m.album_artist h.album_artist),
      optional-text asal m.album (ascii-IsTag asal refl refl) (short_text m.album h.album),
      optional-text ascp m.composer (ascii-IsTag ascp refl refl) (short_text m.composer h.composer),
      optional-text asgn m.genre (ascii-IsTag asgn refl refl) (short_text m.genre h.genre),
      optional-number js.to_milliseconds astm 4 m.duration (ascii-IsTag astm refl refl)
          (omega arith) h.duration,
      optional-plain astn 2 m.track_number (ascii-IsTag astn refl refl) (omega arith)
          h.track_number,
      optional-plain astc 2 m.track_count (ascii-IsTag astc refl refl) (omega arith) h.track_count,
      optional-plain asdn 2 m.disc_number (ascii-IsTag asdn refl refl) (omega arith) h.disc_number,
      optional-plain asdc 2 m.disc_count (ascii-IsTag asdc refl refl) (omega arith) h.disc_count,
      optional-plain asyr 2 m.year (ascii-IsTag asyr refl refl) (omega arith) h.year,
      optional-plain asbr 2 m.bitrate (ascii-IsTag asbr refl refl) (omega arith) h.bitrate,
      optional-plain assr 4 m.sample_rate (ascii-IsTag assr refl refl) (omega arith) h.sample_rate,
      optional-plain assz 4 m.size (ascii-IsTag assz refl refl) (omega arith) h.size,
      append-nil,
    )

    slots-IsReadable :
        (nested : List ℕ → Result Entries) → All (IsReadable js.to_utf8_string nested) (slots m)
    unfolding slots is_ascii tag_type Map.get same_bytes
    slots-IsReadable nested = (
      text_slot-IsReadable js.to_utf8_string nested minm m.title (ascii-IsTag minm refl refl) refl
          h.title,
      (
        text_slot-IsReadable js.to_utf8_string nested asar m.artist (ascii-IsTag asar refl refl)
            refl h.artist,
        (
          text_slot-IsReadable js.to_utf8_string nested asaa m.album_artist
              (ascii-IsTag asaa refl refl) refl h.album_artist,
          (
            text_slot-IsReadable js.to_utf8_string nested asal m.album (ascii-IsTag asal refl refl)
                refl h.album,
            (
              text_slot-IsReadable js.to_utf8_string nested ascp m.composer
                  (ascii-IsTag ascp refl refl) refl h.composer,
              (
                text_slot-IsReadable js.to_utf8_string nested asgn m.genre
                    (ascii-IsTag asgn refl refl) refl h.genre,
                (
                  number_slot-IsReadable js.to_utf8_string nested astm 4
                      (Option.map js.to_milliseconds m.duration) (ascii-IsTag astm refl refl)
                      (inr (refl, refl))
                      (mapped (2 ^ 32) js.to_milliseconds m.duration (λ d p. p) h.duration),
                  (
                    number_slot-IsReadable js.to_utf8_string nested astn 2 m.track_number
                        (ascii-IsTag astn refl refl) (inl (refl, refl)) h.track_number,
                    (
                      number_slot-IsReadable js.to_utf8_string nested astc 2 m.track_count
                          (ascii-IsTag astc refl refl) (inl (refl, refl)) h.track_count,
                      (
                        number_slot-IsReadable js.to_utf8_string nested asdn 2 m.disc_number
                            (ascii-IsTag asdn refl refl) (inl (refl, refl)) h.disc_number,
                        (
                          number_slot-IsReadable js.to_utf8_string nested asdc 2 m.disc_count
                              (ascii-IsTag asdc refl refl) (inl (refl, refl)) h.disc_count,
                          (
                            number_slot-IsReadable js.to_utf8_string nested asyr 2 m.year
                                (ascii-IsTag asyr refl refl) (inl (refl, refl)) h.year,
                            (
                              number_slot-IsReadable js.to_utf8_string nested asbr 2 m.bitrate
                                  (ascii-IsTag asbr refl refl) (inl (refl, refl)) h.bitrate,
                              (
                                number_slot-IsReadable js.to_utf8_string nested assr 4 m.sample_rate
                                    (ascii-IsTag assr refl refl) (inr (refl, refl)) h.sample_rate,
                                (
                                  number_slot-IsReadable js.to_utf8_string nested assz 4 m.size
                                      (ascii-IsTag assz refl refl) (inr (refl, refl)) h.size,
                                  tt,
                                ),
                              ),
                            ),
                          ),
                        ),
                      ),
                    ),
                  ),
                ),
              ),
            ),
          ),
        ),
      ),
    )

    inner : Entries
    unfolding slots
    inner = put_slots (slots m) empty

    inner_object :
        (depth : ℕ) → decode_depth js.to_utf8_string (suc depth) (slots_bytes (slots m)) ≡ ok inner
    unfolding inner
    inner_object depth =
        decode_depth-slots js.to_utf8_string depth (slots m)
          (slots-IsReadable (decode_depth js.to_utf8_string depth))

    outer_slot : Slot
    outer_slot = record { tag = mlit; content = some (slots_bytes (slots m), object inner) }

    outer-IsReadable :
        (depth : ℕ)
        → IsReadable js.to_utf8_string (decode_depth js.to_utf8_string (suc depth)) outer_slot
    unfolding is_ascii tag_type Map.get same_bytes read_value outer_slot
    outer-IsReadable depth = record {
      is_tag = ascii-IsTag mlit refl refl;
      content_read = (h.together, rw (inner_object depth));
    }

    outer_object :
        decode_to_object js.to_utf8_string (item_bytes mlit (slots_bytes (slots m)))
        ≡ ok (put_slots (outer_slot ∷ []) empty)
    unfolding decode_to_object outer_slot is_ascii slots_bytes slot_bytes
    outer_object =
        let tags = slots_bytes (slots m) in
        ap (decode_to_object js.to_utf8_string) (sym (append-nil (item_bytes mlit tags)))
        ∙ ap (λ d. decode_depth js.to_utf8_string (suc d) (item_bytes mlit tags ++ []))
            {y = suc (7 + length tags)}
            (omega (arith, length-item_bytes mlit tags [] (ascii-IsTag mlit refl refl)))
        ∙ decode_depth-slots js.to_utf8_string (suc (7 + length tags)) (outer_slot ∷ [])
            (outer-IsReadable (7 + length tags), tt)

    listing-outer :
        listing (put_slots (outer_slot ∷ []) empty) (get mlit (put_slots (outer_slot ∷ []) empty))
        ≡ inner
    unfolding listing put_slots put_slot put get same_bytes outer_slot
    listing-outer = refl

    field_read : (tag : List ℕ) → get tag inner ≡ find tag (slots m) none
    unfolding inner get
    field_read tag = get-put_slots tag (slots m) empty

    metadata_of-inner : metadata_of js inner ≡ rounded m
    unfolding metadata_of slots find same_bytes
    metadata_of-inner = rw (
      field_read minm,
      field_read asar,
      field_read asaa,
      field_read asal,
      field_read ascp,
      field_read asgn,
      field_read astm,
      field_read astn,
      field_read astc,
      field_read asdn,
      field_read asdc,
      field_read asyr,
      field_read asbr,
      field_read assr,
      field_read assz,
      as_text-later m.title,
      as_text-later m.artist,
      as_text-later m.album_artist,
      as_text-later m.album,
      as_text-later m.composer,
      as_text-later m.genre,
      as_number-later 4 (Option.map js.to_milliseconds m.duration),
      as_number-later 2 m.track_number,
      as_number-later 2 m.track_count,
      as_number-later 2 m.disc_number,
      as_number-later 2 m.disc_count,
      as_number-later 2 m.year,
      as_number-later 2 m.bitrate,
      as_number-later 4 m.sample_rate,
      as_number-later 4 m.size,
    )

    encode-item_bytes : encode_track_metadata js m ≡ ok (item_bytes mlit (slots_bytes (slots m)))
    unfolding encode_track_metadata encode_container assert_tag is_ascii
    encode-item_bytes = rw (
      metadata_tags-slots,
      concat-item_bytes mlit (slots_bytes (slots m)) (ascii-IsTag mlit refl refl) h.together,
    )

    decode-item_bytes :
        decode_track_metadata js (item_bytes mlit (slots_bytes (slots m))) ≡ ok (rounded m)
    unfolding decode_track_metadata
    decode-item_bytes = rw (outer_object, listing-outer, metadata_of-inner)

  -- Metadata whose defined fields fit their tags, with texts that are UTF-8, and whose tags fit a
  -- container, is encoded without an error, and decoded to itself, but for the duration, which is rounded
  -- down to whole milliseconds: no field is lost, made up, or mixed up with another.
  pub decode-encode_track_metadata :
      (m : TrackMetadata js)
      → IsEncodable m
      → (bytes : List ℕ) × (encode_track_metadata js m ≡ ok bytes)
        × (decode_track_metadata js bytes ≡ ok (rounded m))
  decode-encode_track_metadata m h =
      (item_bytes mlit (slots_bytes (slots m)), encode-item_bytes m h, decode-item_bytes m h)
