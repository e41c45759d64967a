-- ===== src/App/Events/Writes.antt =====
-- What state events write to the tables of interpretations and affirmations.
use mathlib.Core.Path.{subst}
use zodia.Prelude.{
  ℕ, ◌≡◌, refl, arith, Bool, false, ◌||◌, none, some, List, [], ◌∷◌, if◌then◌else◌, Bool-cases, inl,
  inr, ◌==◌, nat_eq, not, bytes_instance, any, bytes_of, ◌&&◌,
}
use zodia.Pipeline.{StateEvent}
use zodia.Doc.Document.{Crdt}
use zodia.Store.{Primitives, Db}
use zodia.Store.Docs.{doc_affirm_rev, doc_has_contributor}
use zodia.Store.Interps.WellFormed.{Write, from_op, response, affirmation, revocation, write, run}
use zodia.App.FeedItem.{is_muted_social_event}
use zodia.App.Events.Stored.{
  Stored, authored-Stored, affirmed-Stored, responded-Stored, revoked-Stored, named-Stored,
  ring_notice-Stored, vetoed-Stored, hearted-Stored, if-Stored, present-Stored,
}
use zodia.App.Events.{
  Hex, AppModel, Answer, show_item, handle, sync_state_event, doc_edit, you_were_in_ring,
}
use zodia.App.Events.Tables.{
  SameTables, unchanged, set_peer_display_name_if_newer-SameTables, doc_affirm_rev-SameTables,
  doc_retract_affirm-SameTables, apply_doc_edit-SameTables, apply_doc_veto-SameTables,
}
use zodia.App.Docs.{apply_doc_edit}

-- The store's write that an event asks for, where it asks for one.
unfoldable pub writes : StateEvent → ℕ → List Write
writes (StateEvent.interp_authored op_id author key body) now = from_op key body author now ∷ []
writes (StateEvent.affirm_added target voter) now = affirmation target voter now ∷ []
writes (StateEvent.response_added op_id author parent body) now =
    response parent body author now ∷ []
writes (StateEvent.interp_revoked op_id by target) now = revocation target by ∷ []
writes event now = []

-- The peer is one of those.
abbrev pub is_among : ℕ → List ℕ → Bool
is_among peer [] = false
is_among peer (m ∷ ms) = m == peer || is_among peer ms

-- The write of an event by the peer that acts: no reading of a muted author, no heart of a muted
-- voter and no response of a muted author, but any revocation.
unfoldable pub unmuted_writes : List ℕ → StateEvent → ℕ → List Write
unmuted_writes muted (StateEvent.interp_authored op_id author key body) now =
    if is_among author muted then [] else from_op key body author now ∷ []
unmuted_writes muted (StateEvent.affirm_added target voter) now =
    if is_among voter muted then [] else affirmation target voter now ∷ []
unmuted_writes muted (StateEvent.response_added op_id author parent body) now =
    if is_among author muted then [] else response parent body author now ∷ []
unmuted_writes muted (StateEvent.interp_revoked op_id by target) now = revocation target by ∷ []
unmuted_writes muted event now = []

is_among-any : (peer : ℕ) (ms : List ℕ) → any (λ m. m == peer) ms ≡ is_among peer ms
is_among-any peer [] = refl
is_among-any peer (m ∷ ms) = ground (arith, is_among-any peer ms)

-- What passes the handler's check.
passed_writes : List ℕ → StateEvent → ℕ → List Write
unfolding writes is_muted_social_event
passed_writes muted event now = if is_muted_social_event event muted then [] else writes event now

passed_writes-unmuted :
    (muted : List ℕ) (event : StateEvent) (now : ℕ)
    → passed_writes muted event now ≡ unmuted_writes muted event now
unfolding passed_writes unmuted_writes
passed_writes-unmuted muted (StateEvent.interp_authored op_id author key body) now =
    rw (is_among-any author muted) refl
passed_writes-unmuted muted (StateEvent.affirm_added target voter) now =
    rw (is_among-any voter muted) refl
passed_writes-unmuted muted (StateEvent.response_added op_id author parent body) now =
    rw (is_among-any author muted) refl
passed_writes-unmuted muted (StateEvent.interp_revoked op_id by target) now = refl
passed_writes-unmuted muted (StateEvent.skipped reason) now = refl
passed_writes-unmuted muted (StateEvent.doc_edited op_id by key base update blocks ts ai) now = refl
passed_writes-unmuted muted (StateEvent.doc_veto_proposed op_id by key target ts) now = refl
passed_writes-unmuted muted (StateEvent.doc_affirmed op_id by key rev) now = refl
passed_writes-unmuted muted (StateEvent.doc_affirm_retracted op_id by key rev) now = refl
passed_writes-unmuted muted (StateEvent.editor_presence_changed op_id by key joined ts) now = refl
passed_writes-unmuted muted (StateEvent.display_name_set op_id by name ts) now = refl
passed_writes-unmuted muted (StateEvent.circle_invite_received op_id inviter circle recipient) now =
    refl
passed_writes-unmuted muted (StateEvent.circle_member_joined op_id circle member) now = refl

module _ (c : Primitives) (hex : Hex) {D : Type 0} (loro : Crdt D) {F : Type 0} where
  -- What the handler leaves in the two tables, and the mutes, which it keeps.
  pub record Refines (app after : AppModel F) (calls : List Write) : Type 0 where
    pub same : SameTables (run c app.store calls) after.store
    pub muted_same : after.muted_peers ≡ app.muted_peers

  from_Stored :
      (app after : AppModel F) (db : Db) (calls : List Write)
      → Stored app db after
      → SameTables (run c app.store calls) db
      → Refines app after calls
  from_Stored app after db calls s t = record { same = rw s.store_is t; muted_same = s.muted_is }

  shown :
      (app : AppModel F) (answer : Answer F) (calls : List Write)
      → Refines app answer.0 calls
      → Refines app (show_item answer) calls
  shown app (after, none) calls s = s
  shown app (after, some item) calls s = record {
    same = record {
      interpretations_same = s.same.interpretations_same;
      affirmations_same = s.same.affirmations_same;
    };
    muted_same = s.muted_same;
  }

  handle-Refines :
      (app : AppModel F) (event : StateEvent) (now : ℕ)
      → Refines app (handle c hex loro app event now).0 (writes event now)
  unfolding handle writes run write
  handle-Refines app (StateEvent.interp_authored op_id author key body) now =
      from_Stored app _ _ _
        (authored-Stored c (StateEvent.interp_authored op_id author key body) key now app _)
        (unchanged _)
  handle-Refines app (StateEvent.affirm_added target voter) now =
      from_Stored app _ _ _
        (affirmed-Stored c (StateEvent.affirm_added target voter) target voter now app _)
        (unchanged _)
  handle-Refines app (StateEvent.response_added op_id author parent body) now =
      from_Stored app _ _ _
        (responded-Stored c (StateEvent.response_added op_id author parent body) parent author now
          app _)
        (unchanged _)
  handle-Refines app (StateEvent.interp_revoked op_id by target) now =
      from_Stored app _ _ _ (revoked-Stored c app _) (unchanged _)
  handle-Refines app (StateEvent.display_name_set op_id by name ts) now =
      from_Stored app _ _ _ (named-Stored c hex by name app _)
        (set_peer_display_name_if_newer-SameTables app.store by name ts)
  handle-Refines app (StateEvent.doc_edited op_id by key base update blocks ts ai) now =
      let edit = doc_edit key update by op_id ts blocks ai in
      let db = apply_doc_edit loro app.store edit app.me now in
      let s =
        ring_notice-Stored c (record app { store = db }) key by op_id now
          (you_were_in_ring app.store key by blocks app.me) in
      record {
        same = rw s.store_is (apply_doc_edit-SameTables loro app.store edit app.me now);
        muted_same = s.muted_is;
      }
  handle-Refines app (StateEvent.doc_veto_proposed op_id by key target ts) now =
      from_Stored app _ _ _ (vetoed-Stored c app by now _)
        (apply_doc_veto-SameTables loro app.store target by key now)
  handle-Refines app (StateEvent.doc_affirmed op_id by key rev) now =
      let voted = record app { store = (doc_affirm_rev app.store key rev by now).0 } in
      let s =
        hearted-Stored voted by key
          (not (by == app.me) && doc_has_contributor voted.store key app.me) in
      record {
        same = rw s.store_is (doc_affirm_rev-SameTables app.store key rev by now);
        muted_same = s.muted_is;
      }
  handle-Refines app (StateEvent.doc_affirm_retracted op_id by key rev) now = record {
    same = doc_retract_affirm-SameTables app.store key rev by;
    muted_same = refl;
  }
  handle-Refines app (StateEvent.editor_presence_changed op_id by key joined ts) now =
      from_Stored app _ app.store _ (present-Stored app key by joined ts now) (unchanged _)
  handle-Refines app (StateEvent.circle_invite_received op_id inviter circle recipient) now =
      from_Stored app _ app.store _
        (if-Stored app (recipient == app.me) _ app (record { store_is = refl; muted_is = refl })
          (record { store_is = refl; muted_is = refl }))
        (unchanged _)
  handle-Refines app (StateEvent.circle_member_joined op_id circle member) now =
      from_Stored app _ app.store _
        (if-Stored app (any (λ k. k == hex.encode (bytes_of 32 circle)) app.circles) _ app
          (record { store_is = refl; muted_is = refl })
          (record { store_is = refl; muted_is = refl }))
        (unchanged _)
  handle-Refines app (StateEvent.skipped reason) now = record {
    same = unchanged _;
    muted_same = refl;
  }

  passed-Refines :
      (app : AppModel F) (event : StateEvent) (now : ℕ)
      → Refines app
          (sync_state_event c hex loro app event now)
          (passed_writes app.muted_peers event now)
  unfolding sync_state_event passed_writes run
  passed-Refines app event now = elim (Bool-cases (is_muted_social_event event app.muted_peers)) [
    | inl e ↦
        rw (sync_state_event, passed_writes, e)
          (record { same = unchanged app.store; muted_same = refl })
    | inr e ↦
        rw (sync_state_event, passed_writes, e)
          (shown app (handle c hex loro app event now) (writes event now)
            (handle-Refines app event now))
  ]

  pub sync_state_event-Refines :
      (app : AppModel F) (event : StateEvent) (now : ℕ)
      → Refines app
          (sync_state_event c hex loro app event now)
          (unmuted_writes app.muted_peers event now)
  unfolding sync_state_event run
  sync_state_event-Refines app event now =
      subst (λ calls. Refines app (sync_state_event c hex loro app event now) calls)
        (passed_writes-unmuted app.muted_peers event now) (passed-Refines app event now)
