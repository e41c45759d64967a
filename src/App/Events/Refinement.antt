-- ===== src/App/Events/Refinement.antt =====
-- Sequences of state events against sequences of the store's writes.
use mathlib.Core.Path.{subst}
use zodia.Prelude.{
  ℕ, ◌≡◌, refl, ap, true, List, [], ◌∷◌, ◌++◌, Bytes, Bool-cases, inl, inr, find, ◌==◌, nat_eq,
}
use zodia.Pipeline.{StateEvent}
use zodia.Doc.Document.{Crdt}
use zodia.Sql.{insert_or_ignore, update, delete}
use zodia.Store.{Primitives, Interp, Db, derive_log_id}
use zodia.Store.Interps.{
  insert_interp, insert_interpretation, insert_signed, insert_from_op, insert_received, affirm,
  insert_response_from_op, revoke_interp, scrub_baseline, same_log_id, own_row, signed_row, op_row,
  received_row, response_row, same_affirmation, affirmation_row, revocable,
}
use zodia.Store.Interps.WellFormed.{
  Write, interpretation, signed, from_op, received, response, affirmation, revocation, scrub, write,
  run,
}
use zodia.App.Events.{Hex, AppModel, sync_state_event}
use zodia.App.Events.Tables.{SameTables, unchanged, SameTables-trans}
use zodia.App.Events.Writes.{unmuted_writes, sync_state_event-Refines}

insert_interp-SameTables :
    (a b : Db) (row : Interp)
    → SameTables a b
    → SameTables (insert_interp a row).0 (insert_interp b row).0
unfolding insert_interp
insert_interp-SameTables a b row s = record {
  interpretations_same = ap (λ t. (insert_or_ignore same_log_id row t).0) s.interpretations_same;
  affirmations_same = s.affirmations_same;
}

module _ (c : Primitives) where
  insert_received-SameTables :
      (a b : Db) (key body : Bytes) (pk sig now : ℕ)
      → SameTables a b
      → SameTables
          (insert_received c a key body pk sig now).0
          (insert_received c b key body pk sig now).0
  unfolding insert_received insert_interp
  insert_received-SameTables a b key body pk sig now s = elim (Bool-cases (c.is_key pk)) [
    | inr e ↦ rw (insert_received, e) s
    | inl e ↦ elim (Bool-cases (c.verify_strict pk (derive_log_id c key body) sig)) [
      | inr f ↦ rw (insert_received, e, f) s
      | inl f ↦
          rw (insert_received, e, f)
            (insert_interp-SameTables a b (received_row c key body pk sig now) s)
    ]
  ]

  -- A write of the store sees no more than the two tables.
  write-SameTables :
      (a b : Db) (call : Write) → SameTables a b → SameTables (write c a call) (write c b call)
  unfolding write insert_interp insert_interpretation insert_signed insert_from_op insert_received
      affirm insert_response_from_op revoke_interp scrub_baseline
  write-SameTables a b (interpretation key body pk baseline now) s =
      insert_interp-SameTables a b (own_row c key body pk baseline now) s
  write-SameTables a b (signed key body pk sig now) s =
      insert_interp-SameTables a b (signed_row c key body pk sig now) s
  write-SameTables a b (from_op key body pk now) s =
      insert_interp-SameTables a b (op_row c key body pk now) s
  write-SameTables a b (received key body pk sig now) s =
      insert_received-SameTables a b key body pk sig now s
  write-SameTables a b (response parent body pk now) s = record {
    interpretations_same =
        ap
          (λ t.
            (insert_or_ignore same_log_id
              (response_row c (find (λ r. r.log_id == parent) t) parent body pk now) t).0)
          s.interpretations_same;
    affirmations_same = s.affirmations_same;
  }
  write-SameTables a b (affirmation target pk now) s = record {
    interpretations_same = s.interpretations_same;
    affirmations_same =
        ap (λ t. (insert_or_ignore (same_affirmation c) (affirmation_row c target pk now) t).0)
          s.affirmations_same;
  }
  write-SameTables a b (revocation log_id pk) s = record {
    interpretations_same =
        ap (λ t. (update (revocable log_id pk) (λ r. record r { revoked = true }) t).0)
          s.interpretations_same;
    affirmations_same = s.affirmations_same;
  }
  write-SameTables a b scrub s = record {
    interpretations_same = ap (λ t. (delete (λ r. r.is_baseline) t).0) s.interpretations_same;
    affirmations_same = s.affirmations_same;
  }

  run-SameTables :
      (a b : Db) (calls : List Write) → SameTables a b → SameTables (run c a calls) (run c b calls)
  unfolding run
  run-SameTables a b [] s = s
  run-SameTables a b (call ∷ calls) s =
      run-SameTables (write c a call) (write c b call) calls (write-SameTables a b call s)

  pub run-append :
      (db : Db) (calls more : List Write) → run c db (calls ++ more) ≡ run c (run c db calls) more
  unfolding run
  run-append db [] more = refl
  run-append db (call ∷ calls) more = run-append (write c db call) calls more

-- The writes of a sequence of events with the times at which they are handled.
unfoldable pub all_writes : List ℕ → List (StateEvent × ℕ) → List Write
unfolding unmuted_writes
all_writes muted [] = []
all_writes muted ((event, now) ∷ events) = unmuted_writes muted event now ++ all_writes muted events

module _ (c : Primitives) (hex : Hex) {D : Type 0} (loro : Crdt D) {F : Type 0} where
  unfoldable pub sync_state_events : AppModel F → List (StateEvent × ℕ) → AppModel F
  unfolding sync_state_event
  sync_state_events app [] = app
  sync_state_events app ((event, now) ∷ events) =
      sync_state_events (sync_state_event c hex loro app event now) events

  -- Whatever events the handler takes, the tables of interpretations and affirmations are those
  -- that the store's own writes leave, in the order of the events: one write for each revocation and
  -- for each reading, heart and response whose author or voter is not muted, and none for any other
  -- event. Readings, hearts and responses of muted peers are not stored; edits, vetoes and votes on
  -- documents, presence, names and circles never touch these tables.
  pub sync_state_events_refine :
      (app : AppModel F) (events : List (StateEvent × ℕ))
      → SameTables
          (run c app.store (all_writes app.muted_peers events))
          (sync_state_events app events).store
  unfolding sync_state_events all_writes run
  sync_state_events_refine app [] = unchanged app.store
  sync_state_events_refine app ((event, now) ∷ events) =
      let r = sync_state_event-Refines c hex loro app event now in
      let next = sync_state_event c hex loro app event now in
      let calls = unmuted_writes app.muted_peers event now in
      let later = all_writes app.muted_peers events in
      rw (run-append c app.store calls later) (
        SameTables-trans (run-SameTables c (run c app.store calls) next.store later r.same) (
          subst
            (λ m.
              SameTables (run c next.store (all_writes m events))
                (sync_state_events next events).store)
            r.muted_same (sync_state_events_refine next events)))
