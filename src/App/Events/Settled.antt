-- ===== src/App/Events/Settled.antt =====
-- Readings and hearts that arrive again after other events, as they do when peers pass on the
-- operations of a log.
use zodia.Prelude.{
  ℕ, ◌≡◌, refl, ap, ◌∙◌, Bool, true, false, List, [], ◌∷◌, Bool-cases, inl, inr, nat_eq, eq_refl,
  arith,
}
use zodia.Pipeline.{StateEvent}
use zodia.Doc.Document.{Crdt}
use zodia.Sql.{insert_or_ignore}
use zodia.Sql.Insert.{insert_or_ignore-held}
use zodia.Store.{Primitives, derive_log_id}
use zodia.Store.Interps.{
  insert_interp, insert_from_op, affirm, same_log_id, op_row, same_affirmation, affirmation_row,
}
use zodia.App.FeedItem.{is_muted_social_event}
use zodia.App.Events.{Hex, AppModel, handle, authored, affirmed, sync_state_event}
use zodia.App.Events.Stored.{authored-Stored, affirmed-Stored, show_item-Stored}
use zodia.App.Events.Writes.{sync_state_event-Refines}
use zodia.App.Events.Refinement.{all_writes, sync_state_events, sync_state_events_refine}
use zodia.App.Events.Kept.{is_stored, is_stored-tables, run-is_stored, all_writes-asked}

-- A reading or a heart.
abbrev is_reading_or_heart : StateEvent → Bool
is_reading_or_heart (StateEvent.interp_authored op_id author key body) = true
is_reading_or_heart (StateEvent.affirm_added target voter) = true
is_reading_or_heart event = false

module _ (c : Primitives) (hex : Hex) {D : Type 0} (loro : Crdt D) {F : Type 0} where
  muted_kept :
      (app : AppModel F) (events : List (StateEvent × ℕ))
      → (sync_state_events c hex loro app events).muted_peers ≡ app.muted_peers
  unfolding sync_state_events
  muted_kept app [] = refl
  muted_kept app ((event, now) ∷ events) =
      muted_kept (sync_state_event c hex loro app event now) events
      ∙ (sync_state_event-Refines c hex loro app event now).muted_same

  events-is_stored :
      (app : AppModel F) (events : List (StateEvent × ℕ)) (event : StateEvent)
      → is_stored c app.store event ≡ true
      → is_stored c (sync_state_events c hex loro app events).store event ≡ true
  events-is_stored app events event h =
      is_stored-tables c _ _ event (sync_state_events_refine c hex loro app events)
      ∙ run-is_stored c event app.store (all_writes app.muted_peers events)
          (all_writes-asked c app.muted_peers events) h

  -- A first delivery that is not muted stores the row.
  first_stores :
      (app : AppModel F) (event : StateEvent) (now : ℕ)
      → is_reading_or_heart event ≡ true
      → is_muted_social_event event app.muted_peers ≡ false
      → is_stored c (sync_state_event c hex loro app event now).store event ≡ true
  unfolding sync_state_event handle insert_from_op insert_interp affirm
  first_stores app (StateEvent.interp_authored op_id author key body) now h m =
      let e = StateEvent.interp_authored op_id author key body in
      let r = insert_from_op c app.store key body author now in
      let s =
        show_item-Stored app r.0 (authored c app e key now r) (authored-Stored c e key now app r) in
      rw (sync_state_event, m)
        (rw s.store_is (
          insert_or_ignore-held same_log_id (op_row c key body author now) app.store.interpretations
            (eq_refl (derive_log_id c key body))))
  first_stores app (StateEvent.affirm_added target voter) now h m =
      let e = StateEvent.affirm_added target voter in
      let r = affirm c app.store target voter now in
      let s =
        show_item-Stored app r.0 (affirmed c app e target voter now r)
          (affirmed-Stored c e target voter now app r) in
      let row = affirmation_row c target voter now in
      rw (sync_state_event, m)
        (rw s.store_is (
          insert_or_ignore-held (same_affirmation c) row app.store.affirmations
            (ground (arith, eq_refl row.log_id))))
  first_stores app event now h m = cc

  muted_again :
      (app : AppModel F) (event : StateEvent) (now : ℕ)
      → is_muted_social_event event app.muted_peers ≡ true
      → sync_state_event c hex loro app event now ≡ app
  unfolding sync_state_event
  muted_again app event now m = rw (sync_state_event, m) refl

  -- A delivery of what is stored leaves the model.
  stored_again :
      (app : AppModel F) (event : StateEvent) (now : ℕ)
      → is_reading_or_heart event ≡ true
      → is_stored c app.store event ≡ true
      → sync_state_event c hex loro app event now ≡ app
  unfolding sync_state_event handle insert_from_op insert_interp affirm insert_or_ignore authored
      affirmed
  stored_again app (StateEvent.interp_authored op_id author key body) now h s =
      elim (Bool-cases (
        is_muted_social_event (StateEvent.interp_authored op_id author key body) app.muted_peers)) [
          | inl e ↦ muted_again app (StateEvent.interp_authored op_id author key body) now e
          | inr e ↦ rw (sync_state_event, e, s) refl
        ]
  stored_again app (StateEvent.affirm_added target voter) now h s =
      elim (Bool-cases
        (is_muted_social_event (StateEvent.affirm_added target voter) app.muted_peers)) [
          | inl e ↦ muted_again app (StateEvent.affirm_added target voter) now e
          | inr e ↦ rw (sync_state_event, e, s) refl
        ]
  stored_again app event now h s = cc

  -- A reading or a heart that was handled, and that arrives again after whatever other events and at
  -- whatever time, changes nothing at all: neither the store nor what is shown, counted or sent.
  pub sync_state_events-settled :
      (app : AppModel F) (event : StateEvent) (now : ℕ) (between : List (StateEvent × ℕ))
      (later : ℕ)
      → is_reading_or_heart event ≡ true
      → sync_state_event c hex loro
          (sync_state_events c hex loro (sync_state_event c hex loro app event now) between)
          event
          later
        ≡ sync_state_events c hex loro (sync_state_event c hex loro app event now) between
  unfolding sync_state_event
  sync_state_events-settled app event now between later h =
      let first = sync_state_event c hex loro app event now in
      let last = sync_state_events c hex loro first between in
      elim (Bool-cases (is_muted_social_event event app.muted_peers)) [
        | inl e ↦ muted_again last event later (
            ap (is_muted_social_event event) (
              muted_kept first between
              ∙ (sync_state_event-Refines c hex loro app event now).muted_same)
            ∙ e)
        | inr e ↦
            stored_again last event later h
              (events-is_stored first between event (first_stores app event now h e))
      ]
