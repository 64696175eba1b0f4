-- ===== src/Tests/Mrp.antt =====
-- Runs of MRPPlayerState.ts.
use bunatv.Prelude.{ℕ, ◌≡◌, refl, List, [], ◌∷◌, Option, none, some, true, leb}
use bunatv.Mrp.{
  Platform, ContentItem, NowPlayingPlayer, SetStateMessage, PlayerState, new_player,
  handle_set_state, handle_content_item_update,
}
use bunatv.Mrp.Player.{
  Announces, IsInSync, current_id, handle_set_state-Announces, handle_set_state-timestamp,
}
use bunatv.Mrp.Updates.{IsSilent, IsInSync-new_player, IsSilent-handle_content_item_update}
use bunatv.Mrp.Clients.{
  NowPlayingClient, PlayerPath, MrpPlayerState, StateMessage, set_state, set_now_playing_client,
  set_now_playing_player, remove_player, handle, initial,
}
use bunatv.Mrp.Consistent.{IsConsistent}
use bunatv.Mrp.Reachable.{Reachable, start, received, Reachable-IsConsistent}

-- Time stamps and payloads are numbers.
abbrev platform : Platform
platform = record { Time = ℕ; at_least = λ a b. leb b a; Payload = ℕ; plist_decode = λ n. some n }

abbrev app : NowPlayingClient
app = record { bundle_identifier = some (b'a' ∷ b'p' ∷ b'p' ∷ []); display_name = none }

abbrev player : NowPlayingPlayer platform
player = record { identifier = some (b'p' ∷ []); display_name = none; audio_session_type = none }

abbrev path : Option (PlayerPath platform)
path = some (record { client = some app; player = some player })

abbrev song : ContentItem platform
song = record {
  identifier = some (b's' ∷ []);
  metadata = some ((b't' ∷ [], some 7) ∷ []);
  artwork_data = none;
  lyrics = none;
  info = none;
}

abbrev playing : SetStateMessage platform
playing = record {
  playback_state = some 1;
  playback_state_timestamp = some 10;
  now_playing_info = none;
  supported_commands = none;
  playback_queue = some (record { content_items = song ∷ []; location = none });
  playback_queue_capabilities = none;
}

abbrev fresh : PlayerState platform
fresh = new_player platform player

handle_set_state-Announces_example :
    Announces platform
      (current_id platform fresh)
      (handle_set_state platform playing fresh).0
      (handle_set_state platform playing fresh).1
    × IsInSync platform (handle_set_state platform playing fresh).0
handle_set_state-Announces_example =
    handle_set_state-Announces platform playing fresh (IsInSync-new_player platform player)

abbrev stamped : PlayerState platform
stamped = record fresh { playback_state_timestamp = some 20 }

handle_set_state-timestamp_example :
    (t : ℕ) × ((handle_set_state platform playing stamped).0.playback_state_timestamp ≡ some t)
    × (leb 20 t ≡ true)
handle_set_state-timestamp_example =
    handle_set_state-timestamp platform playing stamped 20 refl refl

IsSilent-handle_content_item_update_example :
    IsSilent platform fresh (handle_content_item_update platform (song ∷ []) fresh)
IsSilent-handle_content_item_update_example =
    IsSilent-handle_content_item_update platform (song ∷ []) fresh
      (IsInSync-new_player platform player)

-- The active player of the active client is removed.
abbrev messages : List (StateMessage platform)
messages =
    set_now_playing_client (some app)
    ∷ set_now_playing_player path
    ∷ set_state path playing
    ∷ remove_player path
    ∷ []

abbrev after : List (StateMessage platform) → MrpPlayerState platform → MrpPlayerState platform
after [] s = s
after (m ∷ ms) s = after ms (handle platform m s).0

after-Reachable :
    (ms : List (StateMessage platform)) (s : MrpPlayerState platform)
    → Reachable platform s
    → Reachable platform (after ms s)
after-Reachable [] s r = r
after-Reachable (m ∷ ms) s r = after-Reachable ms (handle platform m s).0 (received m r)

Reachable-IsConsistent_example : IsConsistent platform (after messages (initial platform))
Reachable-IsConsistent_example =
    Reachable-IsConsistent platform (after messages (initial platform))
      (after-Reachable messages (initial platform) start)
