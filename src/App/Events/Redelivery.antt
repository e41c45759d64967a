-- ===== src/App/Events/Redelivery.antt =====
-- State events that are handled twice in a row.
use mathlib.Core.Path.{subst}
use zodia.Prelude.{
  ℕ, ◌≡◌, refl, sym, ap, ◌∙◌, Bool, true, false, none, List, Bool-cases, if◌then◌else◌, inl, inr,
}
use zodia.Pipeline.{StateEvent}
use zodia.Doc.Document.{Crdt}
use zodia.Store.{Primitives, Db}
use zodia.Store.Again.{
  insert_from_op_again, insert_response_from_op_again, revoke_interp_again,
  set_peer_display_name_if_newer_again,
}
use zodia.Store.Interps.{insert_from_op, affirm, insert_response_from_op, revoke_interp}
use zodia.Store.Interps.Revocation.{affirm_lem}
use zodia.Store.Peers.{set_peer_display_name_if_newer}
use zodia.App.FeedItem.{is_muted_social_event}
use zodia.App.Events.Stored.{
  Stored, show_item-Stored, authored-Stored, affirmed-Stored, responded-Stored, revoked-Stored,
  named-Stored,
}
use zodia.App.Events.{
  Hex, AppModel, Answer, show_item, authored, affirmed, responded, revoked, named, handle,
  sync_state_event,
}

-- The events whose whole effect is a row of the store and what follows from its being new.
abbrev is_row_event : StateEvent → Bool
is_row_event (StateEvent.interp_authored op_id author key body) = true
is_row_event (StateEvent.affirm_added target voter) = true
is_row_event (StateEvent.response_added op_id author parent body) = true
is_row_event (StateEvent.interp_revoked op_id by target) = true
is_row_event (StateEvent.display_name_set op_id by name timestamp) = true
is_row_event event = false

module _ {F : Type 0} (muted : List ℕ → Bool) where
  -- The handler for an event whose branch starts with one write.
  abbrev row_step : (AppModel F → Db × Bool → Answer F) → (Db → Db × Bool) → AppModel F → AppModel F
  row_step branch write app =
      if muted app.muted_peers then app else show_item (branch app (write app.store))

  module _ (branch branch' : AppModel F → Db × Bool → Answer F)
      (kept : (a : AppModel F) (r : Db × Bool) → Stored a r.0 (branch a r).0)
      (quiet : (a : AppModel F) (db : Db) → branch' a (db, false) ≡ (record a { store = db }, none))
      (write write' : Db → Db × Bool)
      (again : (db : Db) → write' (write db).0 ≡ ((write db).0, false)) where
    unmuted_again :
        (app after : AppModel F)
        → Stored app (write app.store).0 after
        → muted app.muted_peers ≡ false
        → row_step branch' write' after ≡ after
    unmuted_again app after s e =
        rw (ap muted s.muted_is ∙ e)
          (ap (λ r. show_item (branch' after r)) old ∙ ap show_item (quiet after after.store))
      where
        old : write' after.store ≡ (after.store, false)
        old = subst (λ db. write' db ≡ (db, false)) (sym s.store_is) (again app.store)

    row_step_again :
        (app : AppModel F)
        → row_step branch' write' (row_step branch write app) ≡ row_step branch write app
    row_step_again app = elim (Bool-cases (muted app.muted_peers)) [
      | inl e ↦ rw (e, e) refl
      | inr e ↦ rw e (
          unmuted_again app (show_item (branch app (write app.store)))
            (show_item-Stored app (write app.store).0 (branch app (write app.store))
              (kept app (write app.store)))
            e)
    ]

module _ (c : Primitives) (hex : Hex) {D : Type 0} (loro : Crdt D) {F : Type 0} where
  -- A reading, a heart, a response, a revocation or a display name that is handled twice in a row, at
  -- whatever times, changes nothing at all the second time.
  sync_state_event-again :
      (app : AppModel F) (event : StateEvent) (now later : ℕ)
      → is_row_event event ≡ true
      → sync_state_event c hex loro (sync_state_event c hex loro app event now) event later
        ≡ sync_state_event c hex loro app event now
  unfolding sync_state_event is_muted_social_event handle authored affirmed responded revoked
  sync_state_event-again app (StateEvent.interp_authored op_id author key body) now later h =
      let e = StateEvent.interp_authored op_id author key body in
      row_step_again (is_muted_social_event e) (λ a r. authored c a e key now r)
        (λ a r. authored c a e key later r) (authored-Stored c e key now) (λ a db. refl)
        (λ db. insert_from_op c db key body author now)
        (λ db. insert_from_op c db key body author later)
        (λ db. insert_from_op_again c db key body author now later) app
  sync_state_event-again app (StateEvent.affirm_added target voter) now later h =
      let e = StateEvent.affirm_added target voter in
      row_step_again (is_muted_social_event e) (λ a r. affirmed c a e target voter now r)
        (λ a r. affirmed c a e target voter later r) (affirmed-Stored c e target voter now)
        (λ a db. refl) (λ db. affirm c db target voter now) (λ db. affirm c db target voter later)
        (λ db. (affirm_lem c db target voter now later 0).1) app
  sync_state_event-again app (StateEvent.response_added op_id author parent body) now later h =
      let e = StateEvent.response_added op_id author parent body in
      row_step_again (is_muted_social_event e) (λ a r. responded c a e parent author now r)
        (λ a r. responded c a e parent author later r) (responded-Stored c e parent author now)
        (λ a db. refl) (λ db. insert_response_from_op c db parent body author now)
        (λ db. insert_response_from_op c db parent body author later)
        (λ db. insert_response_from_op_again c db parent body author now later) app
  sync_state_event-again app (StateEvent.interp_revoked op_id by target) now later h =
      row_step_again (λ m. false) (λ a r. (revoked c a r, none)) (λ a r. (revoked c a r, none))
        (revoked-Stored c) (λ a db. refl) (λ db. revoke_interp db target by)
        (λ db. revoke_interp db target by) (λ db. revoke_interp_again db target by) app
  sync_state_event-again app (StateEvent.display_name_set op_id by name ts) now later h =
      row_step_again (λ m. false) (λ a r. (named hex a by name r, none))
        (λ a r. (named hex a by name r, none)) (named-Stored c hex by name) (λ a db. refl)
        (λ db. set_peer_display_name_if_newer db by name ts)
        (λ db. set_peer_display_name_if_newer db by name ts)
        (λ db. set_peer_display_name_if_newer_again db by name ts) app
  sync_state_event-again app event now later h = cc
