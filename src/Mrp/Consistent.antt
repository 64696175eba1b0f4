-- ===== src/Mrp/Consistent.antt =====
-- The operations of ClientState of protocols/mrp/MRPPlayerState.ts keep a client consistent.
use bunatv.Prelude.{
  ℕ, ◌≡◌, inl, inr, refl, sym, ap, ◌∙◌, List, arith, Option, none, some, false, Bool-cases,
  same_bytes_iff, same_bytes,
}
use bunatv.Prelude.Map.{get, put, delete, string_key}
use bunatv.Prelude.Entries.{
  Every, Has, Every-put, Every-delete, get-put_same, get-put_other, get-delete_other,
  some_injective,
}
use bunatv.Mrp.{
  Platform, same_id, ContentItem, NowPlayingPlayer, SetStateMessage, PlayerState, ItemChange,
  new_player, update_from_player, handle_set_state, handle_content_item_update, current_item,
}
use bunatv.Mrp.Player.{IsInSync, handle_set_state-Announces}
use bunatv.Mrp.Updates.{
  IsInSync-new_player, IsSilent-handle_content_item_update, handle_set_state-identifier,
  handle_content_item_update-identifier,
}
use bunatv.Mrp.Clients.{
  or_empty, ClientState, active_player, found_player, get_or_create_player, with_player,
  MrpPlayerState, change_player, update_named_player, activate_player, is_active, drop_player,
}

pub other_key : (a b : List ℕ) → same_bytes a b ≡ false → same_bytes b a ≡ false
other_key a b e = ground (arith, e, same_bytes_iff a b, same_bytes_iff b a)

module _ (platform : Platform) where
  -- A player stands under its identifier, and its last announced item is the current one.
  pub record IsPlayer (key : List ℕ) (p : PlayerState platform) : Type 0 where
    pub keyed : or_empty p.identifier ≡ key
    pub in_sync : IsInSync platform p

  -- The active player, where one was set, is one of the players.
  pub record IsClient (key : List ℕ) (c : ClientState platform) : Type 0 where
    pub named : c.bundle_identifier ≡ key
    pub players : Every IsPlayer c.players
    pub active :
        (id : List ℕ)
        → c.active_player_id ≡ some id
        → (p : PlayerState platform) × (get id c.players ≡ some p) × (p.identifier ≡ some id)

  pub record IsConsistent (s : MrpPlayerState platform) : Type 0 where
    pub clients : Every IsClient s.clients
    pub active : (id : List ℕ) → s.active_client_bundle_id ≡ some id → Has id s.clients

  -- A player in the place of the one with its key, if there is one.
  IsClient-put :
      (key id : List ℕ) (p : PlayerState platform) (c : ClientState platform)
      → IsClient key c
      → IsPlayer id p
      → ((old : PlayerState platform) → get id c.players ≡ some old → p.identifier ≡ old.identifier)
      → IsClient key (record c { players = put id p c.players })
  IsClient-put key id p c h hp same = record {
    named = h.named;
    players = Every-put IsPlayer id p c.players h.players hp;
    active = λ active e. elim (Bool-cases (same_bytes id active)) [
      | inl here ↦
          let (old, found, named) = h.active active e in
          let at : id ≡ active = (same_bytes_iff id active).0 here in
          let stored : get id c.players ≡ some old = ap (λ k. get k c.players) at ∙ found in
          (
            p,
            ap (λ k. get k (put id p c.players)) (sym at) ∙ get-put_same id p c.players,
            same old stored ∙ named,
          )
      | inr there ↦
          let (old, found, named) = h.active active e in
          (old, get-put_other id active p c.players there ∙ found, named)
    ];
  }

  -- What the handlers do to a player: it keeps its identifier and stays in sync.
  pub record IsSteady
      (change : PlayerState platform → PlayerState platform × List (ItemChange platform))
      : Type 0 where
    pub keeps : (p : PlayerState platform) → (change p).0.identifier ≡ p.identifier
    pub syncs : (p : PlayerState platform) → IsInSync platform p → IsInSync platform (change p).0

  pub set_state-IsSteady :
      (msg : SetStateMessage platform) → IsSteady (handle_set_state platform msg)
  set_state-IsSteady msg = record {
    keeps = handle_set_state-identifier platform msg;
    syncs = λ p sync. (handle_set_state-Announces platform msg p sync).1;
  }

  pub update-IsSteady :
      (items : List (ContentItem platform)) → IsSteady (handle_content_item_update platform items)
  update-IsSteady items = record {
    keeps = handle_content_item_update-identifier platform items;
    syncs = λ p sync. (IsSilent-handle_content_item_update platform items p sync).in_sync;
  }

  IsPlayer-found_player :
      (player : NowPlayingPlayer platform) (found : Option (PlayerState platform))
      → ((p : PlayerState platform) → found ≡ some p → IsPlayer (or_empty player.identifier) p)
      → IsPlayer (or_empty player.identifier) (found_player platform player found)
  unfolding found_player update_from_player
  IsPlayer-found_player player none h = record {
    keyed = unfold new_player in refl;
    in_sync = IsInSync-new_player platform player;
  }
  IsPlayer-found_player player (some p) h =
      let q = h p refl in record { keyed = q.keyed; in_sync = unfold current_item in q.in_sync }

  pub found_player-identifier :
      (player : NowPlayingPlayer platform) (found : Option (PlayerState platform))
      (old : PlayerState platform)
      → found ≡ some old
      → (found_player platform player found).identifier ≡ old.identifier
  unfolding found_player update_from_player
  found_player-identifier player none old e = absurd (ground (arith, e))
  found_player-identifier player (some p) old e = ap (λ q. q.identifier) (some_injective p old e)

  IsClient-get_or_create_player :
      (key : List ℕ) (player : NowPlayingPlayer platform) (c : ClientState platform)
      → IsClient key c
      → IsClient key (get_or_create_player platform player c).1
        × IsPlayer (or_empty player.identifier) (get_or_create_player platform player c).0
  unfolding get_or_create_player
  IsClient-get_or_create_player key player c h =
      let id = or_empty player.identifier in
      let p = IsPlayer-found_player player (get id c.players) (λ q e. h.players id q e) in
      (
        IsClient-put key id _ c h p
            (λ old e. found_player-identifier player (get id c.players) old e),
        p,
      )

  pub IsClient-change_player :
      (key : List ℕ) (player : NowPlayingPlayer platform)
      (change : PlayerState platform → PlayerState platform × List (ItemChange platform))
      (c : ClientState platform)
      → IsSteady change
      → IsClient key c
      → IsClient key (change_player platform player change c).0
  unfolding change_player with_player get_or_create_player
  IsClient-change_player key player change c steady h =
      let id = or_empty player.identifier in
      let p = found_player platform player (get id c.players) in
      let (h₁, hp) = IsClient-get_or_create_player key player c h in
      IsClient-put key id (change p).0 (get_or_create_player platform player c).1 h₁
        (record {
          keyed = ap or_empty (steady.keeps p) ∙ hp.keyed;
          in_sync = steady.syncs p hp.in_sync;
        })
        (λ old e.
          steady.keeps p
          ∙ ap (λ q. q.identifier) (some_injective p old (sym (get-put_same id p c.players) ∙ e)))

  pub IsClient-update_named_player :
      (key : List ℕ) (player : Option (NowPlayingPlayer platform)) (c : ClientState platform)
      → IsClient key c
      → IsClient key (update_named_player platform player c).0
  unfolding update_named_player
  IsClient-update_named_player key none c h = h
  IsClient-update_named_player key (some player) c h =
      (IsClient-get_or_create_player key player c h).0

  pub IsClient-activate_player :
      (key : List ℕ) (player : Option (NowPlayingPlayer platform)) (c : ClientState platform)
      → IsClient key c
      → IsClient key (activate_player platform player c).0
  unfolding activate_player get_or_create_player or_empty
  IsClient-activate_player key none c h = h
  IsClient-activate_player key (some player) c h =
      let k = or_empty player.identifier in
      let p = found_player platform player (get k c.players) in
      let (h₁, hp) = IsClient-get_or_create_player key player c h in
      record {
        named = h₁.named;
        players = h₁.players;
        active = λ id e.
            let at : k ≡ id = sym hp.keyed ∙ ap or_empty e in
            (p, ap (λ a. get a (put k p c.players)) (sym at) ∙ get-put_same k p c.players, e);
      }

  -- A player that is not the active one is not the one that is removed.
  drop_player-active :
      (key id active : List ℕ) (c : ClientState platform)
      → IsClient key c
      → c.active_player_id ≡ some active
      → is_active platform id (active_player platform c) ≡ false
      → (p : PlayerState platform) × (get active (delete id c.players) ≡ some p)
        × (p.identifier ≡ some active)
  unfolding active_player is_active same_id
  drop_player-active key id active c h e passive =
      let (p, found, named) = h.active active e in
      let differs : same_bytes active id ≡ false =
        sym (rw (e, found, named, is_active) refl) ∙ passive in
      (p, get-delete_other id active c.players (other_key active id differs) ∙ found, named)

  pub IsClient-drop_player :
      (key id : List ℕ) (c : ClientState platform)
      → IsClient key c
      → IsClient key (drop_player platform id c)
  unfolding drop_player
  IsClient-drop_player key id c h = record {
    named = h.named;
    players = Every-delete IsPlayer id c.players h.players;
    active = λ active e. elim (Bool-cases (is_active platform id (active_player platform c))) [
      | inl gone ↦ absurd (cc (e, gone))
      | inr stays ↦
          let kept : (drop_player platform id c).active_player_id ≡ c.active_player_id = rw stays in
          drop_player-active key id active c h (sym kept ∙ e) stays
    ];
  }
