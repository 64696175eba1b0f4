-- ===== src/Mrp/Clients.antt =====
-- ClientState and MRPPlayerState of protocols/mrp/MRPPlayerState.ts. A handler that gets an object out of a
-- map changes the object in the map. The listeners that ask for artwork, and the exported state, which
-- nothing reads, are left out.
use bunatv.Prelude.{ℕ, List, [], ◌∷◌, Option, none, some, Bool, false, if◌then◌else◌}
use bunatv.Prelude.Map.{get, put, delete, string_key}
use bunatv.Mrp.{
  Platform, is_falsy, same_id, or_else, given, ContentItem, NowPlayingPlayer, SetStateMessage,
  PlayerState, ItemChange, new_player, update_from_player, handle_set_state,
  handle_content_item_update,
}

pub record NowPlayingClient : Type 0 where
  pub bundle_identifier : Option (List ℕ)
  pub display_name : Option (List ℕ)

-- `?? ""`
unfoldable pub or_empty : Option (List ℕ) → List ℕ
or_empty none = []
or_empty (some id) = id

abbrev pub default_player_id : List ℕ
default_player_id =
    b'M' ∷ b'e' ∷ b'd' ∷ b'i' ∷ b'a' ∷ b'R' ∷ b'e' ∷ b'm' ∷ b'o' ∷ b't' ∷ b'e' ∷ b'-' ∷ b'D' ∷ b'e'
    ∷ b'f' ∷ b'a' ∷ b'u' ∷ b'l' ∷ b't' ∷ b'P' ∷ b'l' ∷ b'a' ∷ b'y' ∷ b'e' ∷ b'r' ∷ []

module _ (platform : Platform) where
  pub record PlayerPath : Type 0 where
    pub client : Option NowPlayingClient
    pub player : Option (NowPlayingPlayer platform)

  pub record ClientState : Type 0 where
    pub bundle_identifier : List ℕ
    pub display_name : Option (List ℕ)
    pub supported_commands : List platform.Payload
    pub players : List (List ℕ × PlayerState platform)
    pub active_player_id : Option (List ℕ)

  unfoldable pub new_client : NowPlayingClient → ClientState
  unfolding or_empty
  new_client client = record {
    bundle_identifier = or_empty client.bundle_identifier;
    display_name = client.display_name;
    supported_commands = [];
    players = [];
    active_player_id = none;
  }

  unfoldable pub active_player : ClientState → Option (PlayerState platform)
  active_player c = elim c.active_player_id [
    | none ↦ get default_player_id c.players
    | some id ↦ get id c.players
  ]

  -- The player that `getOrCreatePlayer` returns.
  unfoldable pub found_player :
      NowPlayingPlayer platform → Option (PlayerState platform) → PlayerState platform
  found_player player none = new_player platform player
  found_player player (some existing) = update_from_player platform player existing

  unfoldable pub get_or_create_player :
      NowPlayingPlayer platform → ClientState → PlayerState platform × ClientState
  unfolding found_player
  get_or_create_player player c =
      let id = or_empty player.identifier in
      let p = found_player player (get id c.players) in
      (p, record c { players = put id p c.players })

  -- The client after a handler has changed the player that it was given.
  unfoldable pub with_player :
      NowPlayingPlayer platform → PlayerState platform → ClientState → ClientState
  with_player player p c = record c { players = put (or_empty player.identifier) p c.players }

  pub record MrpPlayerState : Type 0 where
    pub clients : List (List ℕ × ClientState)
    pub active_client_bundle_id : Option (List ℕ)

  unfoldable pub found_client : NowPlayingClient → Option ClientState → ClientState
  found_client client none = new_client client
  found_client client (some existing) = record existing {
    display_name = or_else client.display_name existing.display_name;
  }

  unfoldable pub get_or_create_client :
      NowPlayingClient → MrpPlayerState → ClientState × MrpPlayerState
  unfolding found_client
  get_or_create_client client s =
      let id = or_empty client.bundle_identifier in
      let c = found_client client (get id s.clients) in
      (c, record s { clients = put id c s.clients })

  unfoldable pub named_client : Option NowPlayingClient → Option NowPlayingClient
  named_client none = none
  named_client (some client) = if is_falsy client.bundle_identifier then none else some client

  unfoldable pub path_client : Option PlayerPath → Option NowPlayingClient
  unfolding named_client
  path_client none = none
  path_client (some path) = named_client path.client

  unfoldable pub path_player : Option PlayerPath → Option (NowPlayingPlayer platform)
  path_player none = none
  path_player (some path) = path.player

  -- `playerPath?.player ?? { mxSessionIDs: [] }`
  unfoldable pub player_or_unnamed : Option (NowPlayingPlayer platform) → NowPlayingPlayer platform
  player_or_unnamed none = record {
    identifier = none;
    display_name = none;
    audio_session_type = none;
  }
  player_or_unnamed (some player) = player

  -- The handlers' messages; those of the other types do not reach the state.
  pub data StateMessage : Type 0 where
    set_state : Option PlayerPath → SetStateMessage platform → StateMessage
    update_player : Option PlayerPath → StateMessage
    update_content_item : Option PlayerPath → List (ContentItem platform) → StateMessage
    set_now_playing_client : Option NowPlayingClient → StateMessage
    set_now_playing_player : Option PlayerPath → StateMessage
    update_client : Option NowPlayingClient → StateMessage
    remove_client : Option NowPlayingClient → StateMessage
    remove_player : Option PlayerPath → StateMessage
    set_default_supported_commands :
        Option PlayerPath → Option (List platform.Payload) → StateMessage
    player_client_properties : Option PlayerPath → StateMessage

  -- The client of a path goes through a change in its map, and its player through one in the client's.
  unfoldable pub change_client :
      NowPlayingClient
      → (ClientState → ClientState × List (ItemChange platform))
      → MrpPlayerState
      → MrpPlayerState × List (ItemChange platform)
  unfolding get_or_create_client
  change_client client change s =
      let (c, s₁) = get_or_create_client client s in
      let (c', events) = change c in
      (record s₁ { clients = put (or_empty client.bundle_identifier) c' s₁.clients }, events)

  unfoldable pub change_path_client :
      Option PlayerPath
      → (ClientState → ClientState × List (ItemChange platform))
      → MrpPlayerState
      → MrpPlayerState × List (ItemChange platform)
  unfolding path_client change_client
  change_path_client path change s = elim (path_client path) [
    | none ↦ (s, [])
    | some client ↦ change_client client change s
  ]

  unfoldable pub change_player :
      NowPlayingPlayer platform
      → (PlayerState platform → PlayerState platform × List (ItemChange platform))
      → ClientState
      → ClientState × List (ItemChange platform)
  unfolding get_or_create_player with_player
  change_player player change c =
      let (p, c₁) = get_or_create_player player c in
      let (p', events) = change p in (with_player player p' c₁, events)

  unfoldable pub update_named_player :
      Option (NowPlayingPlayer platform) → ClientState → ClientState × List (ItemChange platform)
  unfolding get_or_create_player
  update_named_player none c = (c, [])
  update_named_player (some player) c = ((get_or_create_player player c).1, [])

  -- `client.activePlayer = player`
  unfoldable pub activate_player :
      Option (NowPlayingPlayer platform) → ClientState → ClientState × List (ItemChange platform)
  unfolding get_or_create_player
  activate_player none c = (c, [])
  activate_player (some player) c =
      let (p, c₁) = get_or_create_player player c in
      (record c₁ { active_player_id = p.identifier }, [])

  unfoldable pub is_active : List ℕ → Option (PlayerState platform) → Bool
  is_active id none = false
  is_active id (some p) = same_id p.identifier (some id)

  unfoldable pub drop_player : List ℕ → ClientState → ClientState
  unfolding active_player is_active
  drop_player id c = record c {
    players = delete id c.players;
    active_player_id = if is_active id (active_player c) then none else c.active_player_id;
  }

  unfoldable pub identified : Option (NowPlayingPlayer platform) → Option (List ℕ)
  identified none = none
  identified (some player) = if is_falsy player.identifier then none else player.identifier

  unfoldable pub remove_named_player :
      Option (NowPlayingPlayer platform) → ClientState → ClientState × List (ItemChange platform)
  unfolding identified drop_player
  remove_named_player player c = elim (identified player) [
    | none ↦ (c, [])
    | some id ↦ (drop_player id c, [])
  ]

  unfoldable pub set_commands :
      Option (List platform.Payload) → ClientState → ClientState × List (ItemChange platform)
  set_commands commands c =
      (record c { supported_commands = given platform commands c.supported_commands }, [])

  unfoldable pub activate_client : Option NowPlayingClient → MrpPlayerState → MrpPlayerState
  unfolding get_or_create_client
  activate_client none s = s
  activate_client (some client) s =
      let (c, s₁) = get_or_create_client client s in
      record s₁ { active_client_bundle_id = some c.bundle_identifier }

  unfoldable pub drop_client : Option NowPlayingClient → MrpPlayerState → MrpPlayerState
  drop_client none s = s
  drop_client (some client) s =
      let id = or_empty client.bundle_identifier in
      record {
        clients = delete id s.clients;
        active_client_bundle_id =
            if same_id s.active_client_bundle_id (some id) then none else s.active_client_bundle_id;
      }

  unfoldable pub touch_client : Option NowPlayingClient → MrpPlayerState → MrpPlayerState
  unfolding get_or_create_client
  touch_client none s = s
  touch_client (some client) s = (get_or_create_client client s).1

  unfoldable pub handle :
      StateMessage → MrpPlayerState → MrpPlayerState × List (ItemChange platform)
  unfolding change_path_client change_player update_named_player activate_player remove_named_player
      set_commands activate_client drop_client touch_client named_client
  handle (set_state path msg) s =
      change_path_client path
        (change_player (player_or_unnamed (path_player path)) (handle_set_state platform msg)) s
  handle (update_player path) s = change_path_client path (update_named_player (path_player path)) s
  handle (update_content_item path items) s =
      change_path_client path
        (change_player (player_or_unnamed (path_player path))
          (handle_content_item_update platform items))
        s
  handle (set_now_playing_client client) s = (activate_client (named_client client) s, [])
  handle (set_now_playing_player path) s =
      change_path_client path (activate_player (path_player path)) s
  handle (update_client client) s = (touch_client (named_client client) s, [])
  handle (remove_client client) s = (drop_client (named_client client) s, [])
  handle (remove_player path) s = change_path_client path (remove_named_player (path_player path)) s
  handle (set_default_supported_commands path commands) s =
      change_path_client path (set_commands commands) s
  handle (player_client_properties path) s = (touch_client (path_client path) s, [])

  unfoldable pub active_client : MrpPlayerState → Option ClientState
  active_client s = elim s.active_client_bundle_id [ none ↦ none | some id ↦ get id s.clients ]

  abbrev pub initial : MrpPlayerState
  initial = record { clients = []; active_client_bundle_id = none }

  unfoldable pub cleanup : MrpPlayerState → MrpPlayerState
  cleanup s = initial
