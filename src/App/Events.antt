-- ===== src/App/Events.antt =====
-- app/src/app.rs: the handler of `AppMsg::SyncStateEvent`. The clock is an argument, in
-- seconds; timestamps of events are in microseconds, and the code compares the two as they are. What
-- only redraws the screen is left out.
pub mod Stored
pub mod Redelivery
pub mod Tables
pub mod Writes
pub mod Refinement
pub mod Attendance
pub mod Kept
pub mod Settled
use zodia.Prelude.{
  ℕ, suc, ◌%◌, ◌^◌, ◌+◌, Bool, true, false, not, ◌&&◌, Option, none, some, List, [], ◌∷◌, ◌++◌,
  Bytes, ◌==◌, nat_eq, bytes_instance, if◌then◌else◌, is_value, any, map, bytes_of, take,
}
use zodia.Pipeline.{StateEvent}
use zodia.Doc.Document.{Crdt}
use zodia.Store.{Primitives, Db}
use zodia.Store.Interps.{insert_from_op, affirm, insert_response_from_op, revoke_interp}
use zodia.Store.Interps.Queries.{RecentInterp, recent_community_interps, interp_key_and_author}
use zodia.Store.Docs.{block_ring_get, doc_affirm_rev, doc_retract_affirm, doc_has_contributor}
use zodia.Store.Feed.{recent_feed_rows}
use zodia.Store.Peers.{set_peer_display_name_if_newer}
use zodia.App.Docs.{DocEdit, apply_doc_edit, apply_doc_veto}
use zodia.App.FeedItem.Payload.{FeedItem}
use zodia.App.FeedItem.{
  is_muted_social_event, block_you_authored_was_edited, doc_rolled_back, state_event_to_feed_item,
  feed_row_to_feed_item,
}
use zodia.App.Presence.{EditorPresence, heartbeat, others_present}

-- What the application takes from the library hex.
pub record Hex : Type 0 where
  pub encode : Bytes → Bytes
  pub encode_upper : Bytes → Bytes

pub data FeedViewMsg (F : Type 0) : Type 0 where
  push : (item : FeedItem F) → FeedViewMsg F
  reset : (items : List (FeedItem F)) → FeedViewMsg F

-- The fields of `AppModel` that the handler reads or writes. `feed_view` says whether the sender of
-- the feed is set, and `sent` what was sent to it; `bell_refreshes` counts the messages
-- `RefreshBellBadge`. Of `circles` the keys are kept.
pub record AppModel (F : Type 0) : Type 0 where
  pub store : Db
  pub me : ℕ
  pub muted_peers : List ℕ
  pub editor_presence : EditorPresence
  pub feed_targeting_unread : ℕ
  pub network_changed_token : ℕ
  pub recent_interps : List RecentInterp
  pub stargazer_display_names : Bytes → Option Bytes
  pub circles : List Bytes
  pub pending_circle_invite_toasts : List (ℕ × ℕ)
  pub pending_circle_join_toasts : List (ℕ × ℕ)
  pub pending_affirm_toasts : List (ℕ × Bytes)
  pub feed_view : Bool
  pub sent : List (FeedViewMsg F)
  pub bell_refreshes : ℕ

-- The key of the row with the log id, and whether it is the local identity's and another one acted.
abbrev pub lookup_in : Option (Bytes × Option ℕ) → ℕ → ℕ → Bytes × Bool
lookup_in none actor me = ([], false)
lookup_in (some (key, author)) actor me = (key, is_value author me && not (actor == me))

unfoldable pub affirm_lookup : Db → ℕ → ℕ → ℕ → Bytes × Bool
unfolding interp_key_and_author
affirm_lookup db target_log_id voter me =
    lookup_in (interp_key_and_author db target_log_id) voter me

unfoldable pub response_parent_lookup : Db → ℕ → ℕ → ℕ → Bytes × Bool
unfolding interp_key_and_author
response_parent_lookup db parent_log_id response_author me =
    lookup_in (interp_key_and_author db parent_log_id) response_author me

module _ {F : Type 0} where
  -- `u64`
  abbrev pub network_changed : AppModel F → AppModel F
  network_changed app = record app {
    network_changed_token = (app.network_changed_token + 1) % 2 ^ 64;
  }

  abbrev pub send : AppModel F → FeedViewMsg F → AppModel F
  send app msg = record app { sent = if app.feed_view then app.sent ++ msg ∷ [] else app.sent }

  abbrev pub hearted : AppModel F → ℕ → Bytes → Bool → AppModel F
  hearted app voter key false = app
  hearted app voter key true = record app {
    pending_affirm_toasts = app.pending_affirm_toasts ++ (voter, key) ∷ [];
  }

  -- Presence is pruned at the clock right after the heartbeat is recorded.
  abbrev pub present : AppModel F → Bytes → ℕ → Bool → ℕ → ℕ → AppModel F
  unfolding heartbeat others_present
  present app key peer joined timestamp now =
      if peer == app.me
      then app
      else network_changed (record app {
        editor_presence =
            (others_present (heartbeat app.editor_presence key peer joined timestamp) key now).0;
      })

  -- The end of the handler.
  abbrev pub show_item : AppModel F × Option (FeedItem F) → AppModel F
  show_item (app, none) = app
  show_item (app, some item) = record (send app (FeedViewMsg.push item)) {
    bell_refreshes = suc app.bell_refreshes;
  }

-- An entry of the local identity in the ring of one of the blocks, before an edit by another.
unfoldable pub you_were_in_ring : Db → Bytes → ℕ → List ℕ → ℕ → Bool
unfolding block_ring_get
you_were_in_ring db key editor blocks me =
    not (editor == me) && any (λ b. any (λ e. e.author == me) (block_ring_get db key b)) blocks

-- The model after a branch, and the item that the branch gives the feed.
abbrev pub Answer : Type 0 → Type 0
Answer F = AppModel F × Option (FeedItem F)

module _ (c : Primitives) {F : Type 0} where
  abbrev pub to_item : StateEvent → ℕ → Bytes × Bool → Option (FeedItem F)
  unfolding state_event_to_feed_item
  to_item event now (key, targets_me) = state_event_to_feed_item c event now key targets_me

  abbrev pub authored : AppModel F → StateEvent → Bytes → ℕ → Db × Bool → Answer F
  unfolding state_event_to_feed_item recent_community_interps
  authored app event key now (db, false) = (record app { store = db }, none)
  authored app event key now (db, true) =
      let stored = record app { store = db; recent_interps = recent_community_interps db 12 } in
      (network_changed stored, to_item event now (key, false))

  abbrev pub affirmed : AppModel F → StateEvent → ℕ → ℕ → ℕ → Db × Bool → Answer F
  unfolding affirm_lookup
  affirmed app event target voter now (db, false) = (record app { store = db }, none)
  affirmed app event target voter now (db, true) = (
    network_changed (record app { store = db }),
    to_item event now (affirm_lookup db target voter app.me),
  )

  abbrev pub responded : AppModel F → StateEvent → ℕ → ℕ → ℕ → Db × Bool → Answer F
  unfolding response_parent_lookup
  responded app event parent author now (db, false) = (record app { store = db }, none)
  responded app event parent author now (db, true) = (
    network_changed (record app { store = db }),
    to_item event now (response_parent_lookup db parent author app.me),
  )

  -- The follow-up card and the badge of an edit of one's own block.
  abbrev pub ring_notice : AppModel F → Bytes → ℕ → ℕ → ℕ → Bool → AppModel F
  unfolding block_you_authored_was_edited
  ring_notice app key editor op_id now false = app
  ring_notice app key editor op_id now true =
      let item = block_you_authored_was_edited c key editor op_id now in
      network_changed (record (send app (FeedViewMsg.push item)) {
        feed_targeting_unread = (app.feed_targeting_unread + 1) % 2 ^ 64;
      })

  abbrev pub vetoed : AppModel F → ℕ → ℕ → Db × Option (Bytes × (ℕ × ℕ)) → AppModel F
  unfolding doc_rolled_back
  vetoed app revoker now (db, none) = record app { store = db }
  vetoed app revoker now (db, some (key, (author, edit_op))) =
      send (network_changed (record app { store = db }))
        (FeedViewMsg.push (doc_rolled_back c key author revoker edit_op now))

  abbrev pub revoked : AppModel F → Db × Bool → AppModel F
  unfolding recent_feed_rows feed_row_to_feed_item
  revoked app (db, false) = record app { store = db }
  revoked app (db, true) =
      let items = map (λ r. feed_row_to_feed_item c r false) (recent_feed_rows db app.me 200) in
      send (network_changed (record app { store = db })) (FeedViewMsg.reset items)

module _ (hex : Hex) {F : Type 0} where
  abbrev pub named : AppModel F → ℕ → Bytes → Db × Bool → AppModel F
  named app peer name (db, false) = record app { store = db }
  named app peer name (db, true) =
      let tag = hex.encode_upper (take 4 (bytes_of 32 peer)) in
      network_changed (record app {
        store = db;
        stargazer_display_names =
            λ k. if k == tag then some name else app.stargazer_display_names k;
      })

-- The edit that the handler passes on.
abbrev pub doc_edit : Bytes → Bytes → ℕ → ℕ → ℕ → List ℕ → Bool → DocEdit
doc_edit key update by op_id ts blocks ai = record {
  interp_key = key;
  update = update;
  editor_pk = by;
  edit_op_id = op_id;
  edit_ts = ts;
  affected_blocks = blocks;
  ai_generated = ai;
}

module _ (c : Primitives) (hex : Hex) {D : Type 0} (loro : Crdt D) {F : Type 0} where
  -- The branches of the handler, after the check of muted peers.
  unfoldable pub handle : AppModel F → StateEvent → ℕ → Answer F
  unfolding state_event_to_feed_item recent_community_interps affirm_lookup response_parent_lookup
      you_were_in_ring block_you_authored_was_edited doc_rolled_back heartbeat others_present
      recent_feed_rows feed_row_to_feed_item insert_from_op affirm insert_response_from_op
      revoke_interp apply_doc_edit apply_doc_veto doc_affirm_rev doc_retract_affirm
      doc_has_contributor set_peer_display_name_if_newer
  handle app (StateEvent.interp_authored op_id author key body) now =
      authored c app (StateEvent.interp_authored op_id author key body) key now
        (insert_from_op c app.store key body author now)
  handle app (StateEvent.affirm_added target voter) now =
      affirmed c app (StateEvent.affirm_added target voter) target voter now
        (affirm c app.store target voter now)
  handle app (StateEvent.response_added op_id author parent body) now =
      responded c app (StateEvent.response_added op_id author parent body) parent author now
        (insert_response_from_op c app.store parent body author now)
  handle app (StateEvent.skipped reason) now = (app, none)
  handle app (StateEvent.doc_edited op_id by key base update blocks ts ai) now =
      let in_ring = you_were_in_ring app.store key by blocks app.me in
      let edited = record app {
        store =
            apply_doc_edit loro app.store (doc_edit key update by op_id ts blocks ai) app.me now;
      } in
      (
        ring_notice c edited key by op_id now in_ring,
        to_item c (StateEvent.doc_edited op_id by key base update blocks ts ai) now (key, false),
      )
  handle app (StateEvent.doc_veto_proposed op_id by key target ts) now =
      (vetoed c app by now (apply_doc_veto loro app.store target by (some key) now), none)
  handle app (StateEvent.doc_affirmed op_id by key rev) now =
      let voted = record app { store = (doc_affirm_rev app.store key rev by now).0 } in
      let targets_me = not (by == app.me) && doc_has_contributor voted.store key app.me in
      (
        hearted voted by key targets_me,
        to_item c (StateEvent.doc_affirmed op_id by key rev) now (key, targets_me),
      )
  handle app (StateEvent.doc_affirm_retracted op_id by key rev) now =
      (network_changed (record app { store = (doc_retract_affirm app.store key rev by).0 }), none)
  handle app (StateEvent.editor_presence_changed op_id by key joined ts) now = (
    present app key by joined ts now,
    to_item c (StateEvent.editor_presence_changed op_id by key joined ts) now (key, false),
  )
  handle app (StateEvent.interp_revoked op_id by target) now =
      (revoked c app (revoke_interp app.store target by), none)
  handle app (StateEvent.display_name_set op_id by name ts) now =
      (named hex app by name (set_peer_display_name_if_newer app.store by name ts), none)
  handle app (StateEvent.circle_invite_received op_id inviter circle recipient) now = (
    (if recipient == app.me
        then record app {
          pending_circle_invite_toasts = app.pending_circle_invite_toasts ++ (inviter, circle) ∷ [];
        }
        else app),
    none,
  )
  handle app (StateEvent.circle_member_joined op_id circle member) now = (
    (if any (λ k. k == hex.encode (bytes_of 32 circle)) app.circles
        then record app {
          pending_circle_join_toasts = app.pending_circle_join_toasts ++ (member, circle) ∷ [];
        }
        else app),
    none,
  )

  unfoldable pub sync_state_event : AppModel F → StateEvent → ℕ → AppModel F
  unfolding is_muted_social_event handle
  sync_state_event app event now =
      if is_muted_social_event event app.muted_peers then app else show_item (handle app event now)
