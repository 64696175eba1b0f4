-- ===== src/Mrp.antt =====
-- One player of protocols/mrp/MRPPlayerState.ts: PlayerState, without the getters that only
-- read several fields. Strings are their UTF-8 bytes; `null` and `undefined` are `none`.
use bunatv.Prelude.{
  ℕ, zero, suc, ◌+◌, List, [], ◌∷◌, ◌++◌, map, Option, none, some, Bool, true, false, not, ◌||◌,
  if◌then◌else◌, same_bytes,
}
use bunatv.Prelude.Int.{ℤ, pos, negsuc}
use bunatv.Prelude.Map.{get, put, string_key}
pub mod Player
pub mod Updates
pub mod Clients
pub mod Consistent
pub mod Steps
pub mod Reachable

-- The types of the protobuf messages that the state only stores, the order of time stamps, which are
-- doubles, and `Plist.decode`, `none` where it throws and where its result is falsy.
pub record Platform : Type 1 where
  pub Time : Type 0
  pub at_least : Time → Time → Bool
  pub Payload : Type 0
  pub plist_decode : Payload → Option Payload

-- The string is missing or empty, as `!` tests it.
unfoldable pub is_falsy : Option (List ℕ) → Bool
is_falsy none = true
is_falsy (some []) = true
is_falsy (some (c ∷ cs)) = false

-- `===` of strings that may be `undefined`.
unfoldable pub same_id : Option (List ℕ) → Option (List ℕ) → Bool
same_id none none = true
same_id none (some j) = false
same_id (some i) none = false
same_id (some i) (some j) = same_bytes i j

-- `new ?? old`
unfoldable pub or_else {ℓ} : {A : Type ℓ} → Option A → Option A → Option A
or_else (some a) old = some a
or_else none old = old

abbrev pub fields_to_decode : List (List ℕ)
fields_to_decode =
    (b'n' ∷ b'o' ∷ b'w' ∷ b'P' ∷ b'l' ∷ b'a' ∷ b'y' ∷ b'i' ∷ b'n' ∷ b'g' ∷ b'I' ∷ b'n' ∷ b'f' ∷ b'o'
      ∷ b'D' ∷ b'a' ∷ b't' ∷ b'a' ∷ [])
    ∷ (b'c' ∷ b'o' ∷ b'l' ∷ b'l' ∷ b'e' ∷ b'c' ∷ b't' ∷ b'i' ∷ b'o' ∷ b'n' ∷ b'I' ∷ b'n' ∷ b'f'
        ∷ b'o' ∷ b'D' ∷ b'a' ∷ b't' ∷ b'a' ∷ [])
    ∷ (b't' ∷ b'r' ∷ b'a' ∷ b'n' ∷ b's' ∷ b'i' ∷ b't' ∷ b'i' ∷ b'o' ∷ b'n' ∷ b'I' ∷ b'n' ∷ b'f'
        ∷ b'o' ∷ b'D' ∷ b'a' ∷ b't' ∷ b'a' ∷ [])
    ∷ (b'p' ∷ b'u' ∷ b'r' ∷ b'c' ∷ b'h' ∷ b'a' ∷ b's' ∷ b'e' ∷ b'I' ∷ b'n' ∷ b'f' ∷ b'o' ∷ b'D'
        ∷ b'a' ∷ b't' ∷ b'a' ∷ [])
    ∷ (b'a' ∷ b'p' ∷ b'p' ∷ b'M' ∷ b'e' ∷ b't' ∷ b'r' ∷ b'i' ∷ b'c' ∷ b's' ∷ b'D' ∷ b'a' ∷ b't'
        ∷ b'a' ∷ [])
    ∷ (b'a' ∷ b'r' ∷ b't' ∷ b'w' ∷ b'o' ∷ b'r' ∷ b'k' ∷ b'U' ∷ b'R' ∷ b'L' ∷ b'T' ∷ b'e' ∷ b'm'
        ∷ b'p' ∷ b'l' ∷ b'a' ∷ b't' ∷ b'e' ∷ b's' ∷ b'D' ∷ b'a' ∷ b't' ∷ b'a' ∷ [])
    ∷ (b'c' ∷ b'u' ∷ b'r' ∷ b'r' ∷ b'e' ∷ b'n' ∷ b't' ∷ b'P' ∷ b'l' ∷ b'a' ∷ b'y' ∷ b'b' ∷ b'a'
        ∷ b'c' ∷ b'k' ∷ b'D' ∷ b'a' ∷ b't' ∷ b'e' ∷ b'D' ∷ b'a' ∷ b't' ∷ b'a' ∷ [])
    ∷ (b'd' ∷ b'e' ∷ b'v' ∷ b'i' ∷ b'c' ∷ b'e' ∷ b'S' ∷ b'p' ∷ b'e' ∷ b'c' ∷ b'i' ∷ b'f' ∷ b'i'
        ∷ b'c' ∷ b'U' ∷ b's' ∷ b'e' ∷ b'r' ∷ b'I' ∷ b'n' ∷ b'f' ∷ b'o' ∷ b'D' ∷ b'a' ∷ b't' ∷ b'a'
        ∷ [])
    ∷ (b'u' ∷ b's' ∷ b'e' ∷ b'r' ∷ b'I' ∷ b'n' ∷ b'f' ∷ b'o' ∷ b'D' ∷ b'a' ∷ b't' ∷ b'a' ∷ [])
    ∷ []

module _ (platform : Platform) where
  -- The fields of a metadata object, in their order.
  abbrev pub Metadata : Type 0
  Metadata = List (List ℕ × Option platform.Payload)

  pub record ContentItem : Type 0 where
    pub identifier : Option (List ℕ)
    pub metadata : Option Metadata
    pub artwork_data : Option platform.Payload
    pub lyrics : Option platform.Payload
    pub info : Option platform.Payload

  unfoldable pub is_field : List ℕ → List (List ℕ) → Bool
  is_field key [] = false
  is_field key (f ∷ fs) = same_bytes f key || is_field key fs

  -- `...rest`
  unfoldable pub other_fields : Metadata → Metadata
  unfolding is_field
  other_fields [] = []
  other_fields ((key, value) ∷ m) =
      let rest = other_fields m in
      if is_field key fields_to_decode then rest else (key, value) ∷ rest

  unfoldable pub decoded_field : Option (Option platform.Payload) → Option platform.Payload
  decoded_field (some (some bytes)) = platform.plist_decode bytes
  decoded_field (some none) = none
  decoded_field none = none

  unfoldable pub decode_fields : List (List ℕ) → Metadata → Metadata → Metadata
  unfolding decoded_field
  decode_fields [] m processed = processed
  decode_fields (key ∷ keys) m processed = elim (decoded_field (get key m)) [
    | none ↦ decode_fields keys m processed
    | some value ↦ decode_fields keys m (put key (some value) processed)
  ]

  unfoldable pub process_metadata : Metadata → Metadata
  unfolding other_fields decode_fields
  process_metadata m = decode_fields fields_to_decode m (other_fields m)

  unfoldable pub process_content_item : ContentItem → ContentItem
  process_content_item item = elim item.metadata [
    | none ↦ item
    | some m ↦ record item { metadata = some (process_metadata m) }
  ]

  pub record NowPlayingPlayer : Type 0 where
    pub identifier : Option (List ℕ)
    pub display_name : Option (List ℕ)
    pub audio_session_type : Option platform.Payload

  pub record PlaybackQueue : Type 0 where
    pub content_items : List ContentItem
    pub location : Option ℤ

  pub record SetStateMessage : Type 0 where
    pub playback_state : Option platform.Payload
    pub playback_state_timestamp : Option platform.Time
    pub now_playing_info : Option platform.Payload
    pub supported_commands : Option (List platform.Payload)
    pub playback_queue : Option PlaybackQueue
    pub playback_queue_capabilities : Option platform.Payload

  pub record PlayerState : Type 0 where
    pub identifier : Option (List ℕ)
    pub display_name : Option (List ℕ)
    pub audio_session_type : Option platform.Payload
    pub playback_state : Option platform.Payload
    pub playback_state_timestamp : Option platform.Time
    pub now_playing_info : Option platform.Payload
    pub items : List ContentItem
    pub location : ℤ
    pub supported_commands : List platform.Payload
    pub queue_capabilities : Option platform.Payload
    pub last_item : Option ContentItem

  -- `activeItemChange`: the previous item, and the current one with `location`.
  pub record ItemChange : Type 0 where
    pub previous : Option ContentItem
    pub current : Option (ContentItem × Option ℕ)

  unfoldable pub new_player : NowPlayingPlayer → PlayerState
  new_player player = record {
    identifier = player.identifier;
    display_name = player.display_name;
    audio_session_type = player.audio_session_type;
    playback_state = none;
    playback_state_timestamp = none;
    now_playing_info = none;
    items = [];
    location = pos 0;
    supported_commands = [];
    queue_capabilities = none;
    last_item = none;
  }

  unfoldable pub item_at : List ContentItem → ℕ → Option ContentItem
  item_at [] n = none
  item_at (item ∷ items) zero = some item
  item_at (item ∷ items) (suc n) = item_at items n

  -- `items[location]`; there is nothing at a location that is negative.
  unfoldable pub item_at_location : List ContentItem → ℤ → Option ContentItem
  unfolding item_at
  item_at_location items (pos n) = item_at items n
  item_at_location items (negsuc n) = none

  unfoldable pub current_item : PlayerState → Option ContentItem
  unfolding item_at_location
  current_item p = item_at_location p.items p.location

  unfoldable pub identifier_of : Option ContentItem → Option (List ℕ)
  identifier_of none = none
  identifier_of (some item) = item.identifier

  -- `findIndex`; `none` is -1.
  unfoldable pub find_index : Option (List ℕ) → List ContentItem → Option ℕ
  find_index id [] = none
  find_index id (item ∷ items) =
      if same_id item.identifier id
      then some 0
      else elim (find_index id items) [ none ↦ none | some n ↦ some (suc n) ]

  unfoldable pub located : Option ContentItem → Option ℕ → Option (ContentItem × Option ℕ)
  located none index = none
  located (some item) index = some (item, index)

  -- The copy in `_lastItem` shares its metadata with the item, which an update writes to; of the copy
  -- only the identifier is compared, and this copy keeps the metadata as they were.
  unfoldable pub emit_if_item_changed : PlayerState → PlayerState × List ItemChange
  unfolding current_item located
  emit_if_item_changed p =
      let id = identifier_of (current_item p) in
      if same_id id (identifier_of p.last_item) then (p, []) else (
        record p { last_item = current_item p },
        record {
          previous = p.last_item;
          current = located (current_item p) (find_index id p.items);
        }
            ∷ [],
      )

  unfoldable pub should_apply : Option platform.Time → PlayerState → Bool
  should_apply none p = true
  should_apply (some incoming) p = elim p.playback_state_timestamp [
    | none ↦ true
    | some stored ↦ platform.at_least incoming stored
  ]

  unfoldable pub queue_items : Option PlaybackQueue → List ContentItem → List ContentItem
  queue_items none items = items
  queue_items (some queue) items = map process_content_item queue.content_items

  unfoldable pub queue_location : Option PlaybackQueue → ℤ → ℤ
  queue_location none location = location
  queue_location (some queue) location = elim queue.location [ none ↦ pos 0 | some n ↦ n ]

  unfoldable pub given {ℓ} : {A : Type ℓ} → Option A → A → A
  given (some a) old = a
  given none old = old

  -- The assignments of `handleSetState`.
  unfoldable pub set_state : SetStateMessage → PlayerState → PlayerState
  unfolding queue_items queue_location
  set_state msg p = record p {
    playback_state = or_else msg.playback_state p.playback_state;
    playback_state_timestamp = or_else msg.playback_state_timestamp p.playback_state_timestamp;
    now_playing_info = or_else msg.now_playing_info p.now_playing_info;
    supported_commands = given msg.supported_commands p.supported_commands;
    items = queue_items msg.playback_queue p.items;
    location = queue_location msg.playback_queue p.location;
    queue_capabilities = or_else msg.playback_queue_capabilities p.queue_capabilities;
  }

  unfoldable pub handle_set_state : SetStateMessage → PlayerState → PlayerState × List ItemChange
  unfolding should_apply
  handle_set_state msg p =
      if not (should_apply msg.playback_state_timestamp p)
      then (p, [])
      else emit_if_item_changed (set_state msg p)

  unfoldable pub update_from_player : NowPlayingPlayer → PlayerState → PlayerState
  update_from_player player p = record p {
    display_name = or_else player.display_name p.display_name;
    audio_session_type = or_else player.audio_session_type p.audio_session_type;
  }

  -- `existing.metadata[key] = value` for the fields that are not `null`.
  unfoldable pub merge_metadata : Metadata → Metadata → Metadata
  merge_metadata [] existing = existing
  merge_metadata ((key, none) ∷ m) existing = merge_metadata m existing
  merge_metadata ((key, some value) ∷ m) existing = merge_metadata m (put key (some value) existing)

  unfoldable pub merged : Option Metadata → Option Metadata → Option Metadata
  unfolding merge_metadata
  merged none existing = existing
  merged (some m) none = some m
  merged (some m) (some existing) = some (merge_metadata m existing)

  unfoldable pub merge_item : ContentItem → ContentItem → ContentItem
  unfolding merged
  merge_item updated existing = record existing {
    metadata = merged updated.metadata existing.metadata;
    artwork_data = or_else updated.artwork_data existing.artwork_data;
    lyrics = or_else updated.lyrics existing.lyrics;
    info = or_else updated.info existing.info;
  }

  -- The first item with the identifier is changed in place; `none` if there is none.
  unfoldable pub update_items : List ℕ → ContentItem → List ContentItem → Option (List ContentItem)
  unfolding merge_item
  update_items id updated [] = none
  update_items id updated (item ∷ items) =
      if same_id item.identifier (some id)
      then some (merge_item updated item ∷ items)
      else elim (update_items id updated items) [ none ↦ none | some rest ↦ some (item ∷ rest) ]

  -- One round of the loop of `handleContentItemUpdate`.
  unfoldable pub update_item : ContentItem → PlayerState → PlayerState × List ItemChange
  unfolding update_items
  update_item item p =
      let updated = process_content_item item in
      elim updated.identifier [
        | none ↦ (p, [])
        | some id ↦ elim (update_items id updated p.items) [
          | none ↦ (p, [])
          | some items ↦ emit_if_item_changed (record p { items = items })
        ]
      ]

  unfoldable pub handle_content_item_update :
      List ContentItem → PlayerState → PlayerState × List ItemChange
  handle_content_item_update [] p = (p, [])
  handle_content_item_update (item ∷ items) p =
      let (p₁, changes) = update_item item p in
      let (p₂, more) = handle_content_item_update items p₁ in (p₂, changes ++ more)
