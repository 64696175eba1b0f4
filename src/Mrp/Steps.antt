-- ===== src/Mrp/Steps.antt =====
-- The operations of MRPPlayerState of protocols/mrp/MRPPlayerState.ts keep a state consistent.
use bunatv.Prelude.{
  ℕ, ◌≡◌, inl, inr, refl, sym, ap, ◌∙◌, List, arith, Option, none, some, false, Bool-cases,
  Option-cases, same_bytes,
}
use bunatv.Prelude.Map.{get, put, string_key}
use bunatv.Prelude.Entries.{
  Every-put, Every-delete, Has-put, get-put_same, get-delete_other, some_injective,
}
use bunatv.Mrp.{Platform, same_id, NowPlayingPlayer, ItemChange}
use bunatv.Mrp.Clients.{
  NowPlayingClient, or_empty, PlayerPath, ClientState, new_client, MrpPlayerState, found_client,
  get_or_create_client, path_client, change_client, change_path_client, identified,
  remove_named_player, set_commands, activate_client, drop_client, touch_client,
}
use bunatv.Mrp.Consistent.{other_key, IsClient, IsConsistent, IsClient-drop_player}

module _ (platform : Platform) where
  IsClient-found_client :
      (client : NowPlayingClient) (found : Option (ClientState platform))
      → ((c : ClientState platform)
          → found ≡ some c
          → IsClient platform (or_empty client.bundle_identifier) c)
      → IsClient platform (or_empty client.bundle_identifier) (found_client platform client found)
  unfolding found_client
  IsClient-found_client client none h =
      unfold new_client get in
      record {
        named = refl;
        players = λ k p e. absurd (ground (arith, e));
        active = λ id e. absurd (ground (arith, e));
      }
  IsClient-found_client client (some c) h =
      let old = h c refl in record { named = old.named; players = old.players; active = old.active }

  IsConsistent-put :
      (key : List ℕ) (c : ClientState platform) (s : MrpPlayerState platform)
      → IsConsistent platform s
      → IsClient platform key c
      → IsConsistent platform (record s { clients = put key c s.clients })
  IsConsistent-put key c s h hc = record {
    clients = Every-put (IsClient platform) key c s.clients h.clients hc;
    active = λ id e. Has-put key id c s.clients (h.active id e);
  }

  IsConsistent-get_or_create_client :
      (client : NowPlayingClient) (s : MrpPlayerState platform)
      → IsConsistent platform s
      → IsConsistent platform (get_or_create_client platform client s).1
        × IsClient platform
            (or_empty client.bundle_identifier)
            (get_or_create_client platform client s).0
  unfolding get_or_create_client
  IsConsistent-get_or_create_client client s h =
      let key = or_empty client.bundle_identifier in
      let hc = IsClient-found_client client (get key s.clients) (λ c e. h.clients key c e) in
      (IsConsistent-put key (found_client platform client (get key s.clients)) s h hc, hc)

  -- What the handlers do to a client.
  abbrev pub IsSafe :
      (ClientState platform → ClientState platform × List (ItemChange platform)) → Type 0
  IsSafe change =
      (key : List ℕ) (c : ClientState platform)
      → IsClient platform key c
      → IsClient platform key (change c).0

  IsConsistent-change_client :
      (client : NowPlayingClient)
      (change : ClientState platform → ClientState platform × List (ItemChange platform))
      (s : MrpPlayerState platform)
      → IsSafe change
      → IsConsistent platform s
      → IsConsistent platform (change_client platform client change s).0
  unfolding change_client
  IsConsistent-change_client client change s safe h =
      let key = or_empty client.bundle_identifier in
      let r = get_or_create_client platform client s in
      let (h₁, hc) = IsConsistent-get_or_create_client client s h in
      IsConsistent-put key (change r.0).0 r.1 h₁ (safe key r.0 hc)

  pub IsConsistent-change_path_client :
      (path : Option (PlayerPath platform))
      (change : ClientState platform → ClientState platform × List (ItemChange platform))
      (s : MrpPlayerState platform)
      → IsSafe change
      → IsConsistent platform s
      → IsConsistent platform (change_path_client platform path change s).0
  unfolding change_path_client
  IsConsistent-change_path_client path change s safe h =
      elim (Option-cases (path_client platform path)) [
        | inl missing ↦ rw (missing, change_path_client) h
        | inr (client, named) ↦
            rw (named, change_path_client) (IsConsistent-change_client client change s safe h)
      ]

  pub remove_named_player-IsSafe :
      (player : Option (NowPlayingPlayer platform)) → IsSafe (remove_named_player platform player)
  unfolding remove_named_player
  remove_named_player-IsSafe player key c h = elim (Option-cases (identified platform player)) [
    | inl missing ↦ rw (missing, remove_named_player) h
    | inr (id, named) ↦ rw (named, remove_named_player) (IsClient-drop_player platform key id c h)
  ]

  pub set_commands-IsSafe :
      (commands : Option (List platform.Payload)) → IsSafe (set_commands platform commands)
  unfolding set_commands
  set_commands-IsSafe commands key c h = record {
    named = h.named;
    players = h.players;
    active = h.active;
  }

  pub IsConsistent-activate_client :
      (client : Option NowPlayingClient) (s : MrpPlayerState platform)
      → IsConsistent platform s
      → IsConsistent platform (activate_client platform client s)
  unfolding activate_client get_or_create_client
  IsConsistent-activate_client none s h = h
  IsConsistent-activate_client (some client) s h =
      let key = or_empty client.bundle_identifier in
      let c = found_client platform client (get key s.clients) in
      let (h₁, hc) = IsConsistent-get_or_create_client client s h in
      record {
        clients = h₁.clients;
        active = λ id e.
            let at : key ≡ id = sym hc.named ∙ some_injective c.bundle_identifier id e in
            (c, ap (λ a. get a (put key c s.clients)) (sym at) ∙ get-put_same key c s.clients);
      }

  pub IsConsistent-drop_client :
      (client : Option NowPlayingClient) (s : MrpPlayerState platform)
      → IsConsistent platform s
      → IsConsistent platform (drop_client platform client s)
  unfolding drop_client same_id
  IsConsistent-drop_client none s h = h
  IsConsistent-drop_client (some client) s h =
      let key = or_empty client.bundle_identifier in
      record {
        clients = Every-delete (IsClient platform) key s.clients h.clients;
        active = λ id e. elim (Bool-cases (same_id s.active_client_bundle_id (some key))) [
          | inl gone ↦ absurd (cc (e, gone))
          | inr stays ↦
              let kept : (drop_client platform (some client) s).active_client_bundle_id
                  ≡ s.active_client_bundle_id =
                rw stays in
              let was = sym kept ∙ e in
              let (c, found) = h.active id was in
              let differs : same_bytes id key ≡ false =
                sym (ap (λ a. same_id a (some key)) was) ∙ stays in
              (c, get-delete_other key id s.clients (other_key id key differs) ∙ found)
        ];
      }

  pub IsConsistent-touch_client :
      (client : Option NowPlayingClient) (s : MrpPlayerState platform)
      → IsConsistent platform s
      → IsConsistent platform (touch_client platform client s)
  unfolding touch_client
  IsConsistent-touch_client none s h = h
  IsConsistent-touch_client (some client) s h = (IsConsistent-get_or_create_client client s h).0
