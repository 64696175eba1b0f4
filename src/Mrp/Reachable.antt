-- ===== src/Mrp/Reachable.antt =====
-- The states that MRPPlayerState of protocols/mrp/MRPPlayerState.ts can be in.
use bunatv.Prelude.{arith}
use bunatv.Prelude.Map.{get, string_key}
use bunatv.Mrp.{Platform, handle_set_state, handle_content_item_update}
use bunatv.Mrp.Clients.{
  MrpPlayerState, named_client, path_client, path_player, player_or_unnamed, StateMessage,
  set_state, update_player, update_content_item, set_now_playing_client, set_now_playing_player,
  update_client, remove_client, remove_player, set_default_supported_commands,
  player_client_properties, change_player, update_named_player, activate_player,
  remove_named_player, set_commands, handle, initial,
}
use bunatv.Mrp.Consistent.{
  IsConsistent, set_state-IsSteady, update-IsSteady, IsClient-change_player,
  IsClient-update_named_player, IsClient-activate_player,
}
use bunatv.Mrp.Clients.{cleanup}
use bunatv.Mrp.Steps.{
  IsConsistent-change_path_client, remove_named_player-IsSafe, set_commands-IsSafe,
  IsConsistent-activate_client, IsConsistent-drop_client, IsConsistent-touch_client,
}

module _ (platform : Platform) where
  -- The states after any number of messages and of calls of `cleanup`.
  pub data Reachable : MrpPlayerState platform → Type 0 where
    start : Reachable (initial platform)
    received :
        {s : MrpPlayerState platform} (m : StateMessage platform)
        → Reachable s
        → Reachable (handle platform m s).0
    cleaned : {s : MrpPlayerState platform} → Reachable s → Reachable (cleanup platform s)

  IsConsistent-initial : IsConsistent platform (initial platform)
  unfolding get
  IsConsistent-initial = record {
    clients = λ k c e. absurd (ground (arith, e));
    active = λ id e. absurd (ground (arith, e));
  }

  -- Each message keeps a consistent state consistent.
  pub IsConsistent-handle :
      (m : StateMessage platform) (s : MrpPlayerState platform)
      → IsConsistent platform s
      → IsConsistent platform (handle platform m s).0
  unfolding handle
  IsConsistent-handle (set_state path msg) s h =
      let player = player_or_unnamed platform (path_player platform path) in
      IsConsistent-change_path_client platform path
        (change_player platform player (handle_set_state platform msg)) s
        (λ key c hc.
          IsClient-change_player platform key player (handle_set_state platform msg) c
            (set_state-IsSteady platform msg) hc)
        h
  IsConsistent-handle (update_player path) s h =
      IsConsistent-change_path_client platform path
        (update_named_player platform (path_player platform path)) s
        (λ key c hc. IsClient-update_named_player platform key (path_player platform path) c hc) h
  IsConsistent-handle (update_content_item path items) s h =
      let player = player_or_unnamed platform (path_player platform path) in
      IsConsistent-change_path_client platform path
        (change_player platform player (handle_content_item_update platform items)) s
        (λ key c hc.
          IsClient-change_player platform key player (handle_content_item_update platform items) c
            (update-IsSteady platform items) hc)
        h
  IsConsistent-handle (set_now_playing_client client) s h =
      IsConsistent-activate_client platform (named_client platform client) s h
  IsConsistent-handle (set_now_playing_player path) s h =
      IsConsistent-change_path_client platform path
        (activate_player platform (path_player platform path)) s
        (λ key c hc. IsClient-activate_player platform key (path_player platform path) c hc) h
  IsConsistent-handle (update_client client) s h =
      IsConsistent-touch_client platform (named_client platform client) s h
  IsConsistent-handle (remove_client client) s h =
      IsConsistent-drop_client platform (named_client platform client) s h
  IsConsistent-handle (remove_player path) s h =
      IsConsistent-change_path_client platform path
        (remove_named_player platform (path_player platform path)) s
        (remove_named_player-IsSafe platform (path_player platform path)) h
  IsConsistent-handle (set_default_supported_commands path commands) s h =
      IsConsistent-change_path_client platform path (set_commands platform commands) s
        (set_commands-IsSafe platform commands) h
  IsConsistent-handle (player_client_properties path) s h =
      IsConsistent-touch_client platform (path_client platform path) s h

  -- In every state that messages and cleanup lead to, clients and players stand under their own
  -- identifiers, an active client or player that was set is one that is there, and of every player the
  -- item announced last is the current one.
  pub Reachable-IsConsistent : (s : MrpPlayerState platform) → Reachable s → IsConsistent platform s
  unfolding cleanup
  Reachable-IsConsistent _ start = IsConsistent-initial
  Reachable-IsConsistent _ (received {s} m r) = IsConsistent-handle m s (Reachable-IsConsistent s r)
  Reachable-IsConsistent _ (cleaned {s} r) = IsConsistent-initial
