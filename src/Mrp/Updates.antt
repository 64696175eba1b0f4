-- ===== src/Mrp/Updates.antt =====
-- PlayerState of protocols/mrp/MRPPlayerState.ts: what content item updates do, and what no message changes.
use bunatv.Prelude.{
  ℕ, zero, suc, ◌≡◌, subst, inl, inr, refl, sym, ◌∙◌, List, [], ◌∷◌, Option, none, some, true,
  Bool-cases, Option-cases,
}
use bunatv.Prelude.Int.{ℤ, pos, negsuc}
use bunatv.Mrp.{
  Platform, same_id, ContentItem, process_content_item, SetStateMessage, PlayerState, ItemChange,
  item_at, item_at_location, current_item, identifier_of, emit_if_item_changed, should_apply,
  set_state, handle_set_state, NowPlayingPlayer, new_player, merge_item, update_items, update_item,
  handle_content_item_update,
}
use bunatv.Mrp.Player.{IsInSync, current_id, same_id_iff}

module _ (platform : Platform) where
  -- The identifiers are those that stood there before.
  abbrev Keeps : List (ContentItem platform) → Option (List (ContentItem platform)) → Type 0
  Keeps items none = Unit
  Keeps items (some others) =
      (n : ℕ)
      → identifier_of platform (item_at platform others n)
        ≡ identifier_of platform (item_at platform items n)

  abbrev behind :
      ContentItem platform
      → Option (List (ContentItem platform))
      → Option (List (ContentItem platform))
  behind item none = none
  behind item (some rest) = some (item ∷ rest)

  Keeps-cons :
      (item : ContentItem platform) (items rest : List (ContentItem platform))
      → Keeps items (some rest)
      → Keeps (item ∷ items) (some (item ∷ rest))
  unfolding item_at
  Keeps-cons item items rest k zero = refl
  Keeps-cons item items rest k (suc n) = k n

  Keeps-behind :
      (item : ContentItem platform) (items : List (ContentItem platform))
      (r : Option (List (ContentItem platform)))
      → Keeps items r
      → Keeps (item ∷ items) (behind item r)
  Keeps-behind item items none k = tt
  Keeps-behind item items (some rest) k = Keeps-cons item items rest k

  Keeps-merge_item :
      (updated item : ContentItem platform) (items : List (ContentItem platform))
      → Keeps (item ∷ items) (some (merge_item platform updated item ∷ items))
  unfolding item_at merge_item identifier_of
  Keeps-merge_item updated item items zero = refl
  Keeps-merge_item updated item items (suc n) = refl

  Keeps-update_items :
      (id : List ℕ) (updated : ContentItem platform) (items : List (ContentItem platform))
      → Keeps items (update_items platform id updated items)
  unfolding update_items
  Keeps-update_items id updated [] = tt
  Keeps-update_items id updated (item ∷ items) =
      elim (Bool-cases (same_id item.identifier (some id))) [
        | inl found ↦ rw found (Keeps-merge_item updated item items)
        | inr other ↦ rw other (
            Keeps-behind item items (update_items platform id updated items)
              (Keeps-update_items id updated items))
      ]

  -- Nothing is announced, and the current item keeps its identifier.
  pub record IsSilent (p : PlayerState platform)
      (r : PlayerState platform × List (ItemChange platform)) : Type 0 where
    pub no_change : r.1 ≡ []
    pub in_sync : IsInSync platform r.0
    pub same_current : current_id platform r.0 ≡ current_id platform p

  Keeps-location :
      (items others : List (ContentItem platform)) (location : ℤ)
      → Keeps items (some others)
      → identifier_of platform (item_at_location platform others location)
        ≡ identifier_of platform (item_at_location platform items location)
  unfolding item_at_location
  Keeps-location items others (pos n) keeps = keeps n
  Keeps-location items others (negsuc n) keeps = refl

  emit-IsSilent :
      (p : PlayerState platform) (items : List (ContentItem platform))
      → IsInSync platform p
      → Keeps p.items (some items)
      → IsSilent p (emit_if_item_changed platform (record p { items = items }))
  unfolding emit_if_item_changed current_item
  emit-IsSilent p items sync keeps =
      let kept = Keeps-location p.items items p.location keeps in
      let same : same_id (identifier_of platform (item_at_location platform items p.location))
            (identifier_of platform p.last_item)
          ≡ true =
        (same_id_iff _ _).1 (kept ∙ sym sync) in
      rw same (record { no_change = refl; in_sync = sync ∙ sym (kept); same_current = kept })

  IsSilent-update_item :
      (item : ContentItem platform) (p : PlayerState platform)
      → IsInSync platform p
      → IsSilent p (update_item platform item p)
  unfolding update_item
  IsSilent-update_item item p sync =
      elim (Option-cases (process_content_item platform item).identifier) [
        | inl unnamed ↦
            rw (unnamed, update_item)
              (record { no_change = refl; in_sync = sync; same_current = refl })
        | inr (id, named) ↦
            let updated = process_content_item platform item in
            elim (Option-cases (update_items platform id updated p.items)) [
              | inl missing ↦
                  rw (named, missing, update_item)
                    (record { no_change = refl; in_sync = sync; same_current = refl })
              | inr (items, found) ↦
                  rw (named, found, update_item)
                    (emit-IsSilent p items sync
                      (subst (Keeps p.items) found (Keeps-update_items id updated p.items)))
            ]
      ]

  -- handleContentItemUpdate never announces a change, whatever the items are: it changes no identifier.
  pub IsSilent-handle_content_item_update :
      (items : List (ContentItem platform)) (p : PlayerState platform)
      → IsInSync platform p
      → IsSilent p (handle_content_item_update platform items p)
  unfolding handle_content_item_update
  IsSilent-handle_content_item_update [] p sync = record {
    no_change = refl;
    in_sync = sync;
    same_current = refl;
  }
  IsSilent-handle_content_item_update (item ∷ items) p sync =
      let first = IsSilent-update_item item p sync in
      let rest =
        IsSilent-handle_content_item_update items (update_item platform item p).0 first.in_sync in
      record {
        no_change = rw (first.no_change) (rest.no_change);
        in_sync = rest.in_sync;
        same_current = rest.same_current ∙ first.same_current;
      }

  pub IsInSync-new_player :
      (player : NowPlayingPlayer platform) → IsInSync platform (new_player platform player)
  unfolding new_player current_item item_at item_at_location identifier_of
  IsInSync-new_player player = refl

  emit-identifier :
      (p : PlayerState platform) → (emit_if_item_changed platform p).0.identifier ≡ p.identifier
  unfolding emit_if_item_changed
  emit-identifier p =
      elim (Bool-cases (same_id (current_id platform p) (identifier_of platform p.last_item))) [
        | inl same ↦ rw same
        | inr other ↦ rw other
      ]

  pub handle_set_state-identifier :
      (msg : SetStateMessage platform) (p : PlayerState platform)
      → (handle_set_state platform msg p).0.identifier ≡ p.identifier
  unfolding handle_set_state set_state
  handle_set_state-identifier msg p =
      elim (Bool-cases (should_apply platform msg.playback_state_timestamp p)) [
        | inl fresh ↦ rw fresh (emit-identifier (set_state platform msg p))
        | inr stale ↦ rw stale
      ]

  update_item-identifier :
      (item : ContentItem platform) (p : PlayerState platform)
      → (update_item platform item p).0.identifier ≡ p.identifier
  unfolding update_item
  update_item-identifier item p =
      elim (Option-cases (process_content_item platform item).identifier) [
        | inl unnamed ↦ rw (unnamed, update_item)
        | inr (id, named) ↦
            elim (Option-cases
              (update_items platform id (process_content_item platform item) p.items)) [
                | inl missing ↦ rw (named, missing, update_item)
                | inr (items, found) ↦
                    rw (named, found, update_item) (emit-identifier (record p { items = items }))
              ]
      ]

  pub handle_content_item_update-identifier :
      (items : List (ContentItem platform)) (p : PlayerState platform)
      → (handle_content_item_update platform items p).0.identifier ≡ p.identifier
  unfolding handle_content_item_update
  handle_content_item_update-identifier [] p = refl
  handle_content_item_update-identifier (item ∷ items) p =
      handle_content_item_update-identifier items (update_item platform item p).0
      ∙ update_item-identifier item p
