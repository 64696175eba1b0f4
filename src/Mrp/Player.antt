-- ===== src/Mrp/Player.antt =====
-- PlayerState of protocols/mrp/MRPPlayerState.ts: when the change of the active item is announced.
use bunatv.Prelude.{
  ℕ, ◌≡◌, ◌≢◌, ◌↔◌, subst, inl, inr, refl, sym, ap, ◌∙◌, List, [], ◌∷◌, arith, Option, none, some,
  true, false, Bool-cases, Option-cases, same_bytes_iff,
}
use mathlib.Core.Option
use bunatv.Mrp.{
  Platform, same_id, or_else, ContentItem, SetStateMessage, PlayerState, ItemChange, current_item,
  identifier_of, located, emit_if_item_changed, should_apply, set_state, handle_set_state,
}

pub same_id_iff : (i j : Option (List ℕ)) → (same_id i j ≡ true) ↔ (i ≡ j)
unfolding same_id
same_id_iff none none = (λ e. refl, λ e. refl)
same_id_iff none (some j) = ground arith
same_id_iff (some i) none = ground arith
same_id_iff (some i) (some j) = ground (arith, same_bytes_iff i j)

module _ (platform : Platform) where
  abbrev pub current_id : PlayerState platform → Option (List ℕ)
  current_id p = identifier_of platform (current_item platform p)

  -- The item that was announced last is the current one.
  abbrev pub IsInSync : PlayerState platform → Type 0
  IsInSync p = identifier_of platform p.last_item ≡ current_id p

  -- A change is announced if the identifier is not the old one: from the old one to the current item.
  pub data Announces (old : Option (List ℕ)) (p : PlayerState platform)
      : List (ItemChange platform) → Type 0 where
    silent : current_id p ≡ old → Announces old p []
    announced :
        {change : ItemChange platform}
        → current_id p ≢ old
        → identifier_of platform change.previous ≡ old
        → Option.map (λ c. c.0) change.current ≡ current_item platform p
        → Announces old p (change ∷ [])

  map-located :
      (item : Option (ContentItem platform)) (index : Option ℕ)
      → Option.map (λ c. c.0) (located platform item index) ≡ item
  unfolding located
  map-located none index = refl
  map-located (some item) index = refl

  emit-Announces :
      (p : PlayerState platform)
      → Announces
          (identifier_of platform p.last_item)
          (emit_if_item_changed platform p).0
          (emit_if_item_changed platform p).1
        × IsInSync (emit_if_item_changed platform p).0
  unfolding emit_if_item_changed current_item
  emit-Announces p =
      let id = current_id p in
      let old = identifier_of platform p.last_item in
      elim (Bool-cases (same_id id old)) [
        | inl same ↦ let e = (same_id_iff id old).0 same in rw same (silent e, sym e)
        | inr other ↦
            rw other
              (announced (λ e. cc (other, (same_id_iff id old).1 e)) refl (map-located _ _), refl)
      ]

  -- handleSetState announces a change exactly when the current item has another identifier than before,
  -- and the item that was announced last is the current one again.
  pub handle_set_state-Announces :
      (msg : SetStateMessage platform) (p : PlayerState platform)
      → IsInSync p
      → Announces
          (current_id p)
          (handle_set_state platform msg p).0
          (handle_set_state platform msg p).1
        × IsInSync (handle_set_state platform msg p).0
  unfolding handle_set_state set_state
  handle_set_state-Announces msg p sync =
      elim (Bool-cases (should_apply platform msg.playback_state_timestamp p)) [
        | inl fresh ↦ rw fresh (
            subst
              (λ old.
                Announces old (emit_if_item_changed platform (set_state platform msg p)).0
                  (emit_if_item_changed platform (set_state platform msg p)).1
                × IsInSync (emit_if_item_changed platform (set_state platform msg p)).0)
              sync (emit-Announces (set_state platform msg p)))
        | inr stale ↦ rw stale (silent refl, sync)
      ]

  emit-timestamp :
      (p : PlayerState platform)
      → (emit_if_item_changed platform p).0.playback_state_timestamp ≡ p.playback_state_timestamp
  unfolding emit_if_item_changed
  emit-timestamp p =
      elim (Bool-cases (same_id (current_id p) (identifier_of platform p.last_item))) [
        | inl same ↦ rw same
        | inr other ↦ rw other
      ]

  handle_set_state-fresh :
      (msg : SetStateMessage platform) (p : PlayerState platform)
      → should_apply platform msg.playback_state_timestamp p ≡ true
      → (handle_set_state platform msg p).0.playback_state_timestamp
        ≡ or_else msg.playback_state_timestamp p.playback_state_timestamp
  unfolding handle_set_state
  handle_set_state-fresh msg p fresh =
      rw fresh (emit-timestamp (set_state platform msg p) ∙ unfold set_state in refl)

  handle_set_state-stale :
      (msg : SetStateMessage platform) (p : PlayerState platform)
      → should_apply platform msg.playback_state_timestamp p ≡ false
      → handle_set_state platform msg p ≡ (p, [])
  unfolding handle_set_state
  handle_set_state-stale msg p stale = rw stale

  -- Once a player has a time stamp it keeps one, and handleSetState never replaces it by an earlier one.
  pub handle_set_state-timestamp :
      (msg : SetStateMessage platform) (p : PlayerState platform) (stored : platform.Time)
      → p.playback_state_timestamp ≡ some stored
      → platform.at_least stored stored ≡ true
      → (t : platform.Time) × ((handle_set_state platform msg p).0.playback_state_timestamp
          ≡ some t)
        × (platform.at_least t stored ≡ true)
  unfolding should_apply or_else
  handle_set_state-timestamp msg p stored e reflexive =
      elim (Option-cases msg.playback_state_timestamp) [
        | inl missing ↦
            (stored, handle_set_state-fresh msg p (rw missing) ∙ rw (missing, e), reflexive)
        | inr (t, sent) ↦ elim (Bool-cases (platform.at_least t stored)) [
          | inl later ↦ (
            t,
            handle_set_state-fresh msg p (rw (sent, e, later, should_apply)) ∙ rw (sent, or_else),
            later,
          )
          | inr earlier ↦ (
            stored,
            ap (λ r. r.0.playback_state_timestamp)
                  (handle_set_state-stale msg p (rw (sent, e, earlier, should_apply)))
                ∙ e,
            reflexive,
          )
        ]
      ]
