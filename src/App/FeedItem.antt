-- ===== src/App/FeedItem.antt =====
-- app/src/feed_item.rs: the items of the activity feed and what they are made from. `F` stands for
-- the floating-point numbers of transit windows, which are only passed on.
pub mod Payload
use zodia.Prelude.{
  ℕ, Bool, true, false, Option, none, some, List, ◌++◌, Bytes, bytes_of, codes, ◌==◌, nat_eq, any,
  if◌then◌else◌,
}
use zodia.Pipeline.{StateEvent}
use zodia.App.FeedItem.Payload.{FeedPayload, FeedItem}
use zodia.Store.{Primitives}
use zodia.Store.Feed.{FeedRow, FeedRowKind}

abbrev pub zero_key : ℕ
zero_key = 0

unfoldable pub is_muted_social_event : StateEvent → List ℕ → Bool
is_muted_social_event (StateEvent.interp_authored op_id author key body) muted =
    any (λ m. m == author) muted
is_muted_social_event (StateEvent.affirm_added target voter) muted = any (λ m. m == voter) muted
is_muted_social_event (StateEvent.response_added op_id author parent body) muted =
    any (λ m. m == author) muted
is_muted_social_event event muted = false

module _ {F : Type 0} where
  unfoldable pub interp_key : FeedItem F → Option Bytes
  interp_key item = elim item.payload [
    | FeedPayload.interp_authored author key body ↦ some key
    | FeedPayload.affirm_added target key voter ↦ some key
    | FeedPayload.response_added author parent key body ↦ some key
    | FeedPayload.transit_active key start end orb baseline ↦ some key
    | FeedPayload.sky_aspect_active key start end orb baseline ↦ some key
    | FeedPayload.house_transit_active key start end baseline ↦ some key
    | FeedPayload.doc_edited editor key ↦ some key
    | FeedPayload.block_you_authored_was_edited editor key edit ↦ some key
    | FeedPayload.doc_rolled_back revoker key ↦ some key
    | FeedPayload.doc_affirmed voter key ↦ some key
    | FeedPayload.editor_presence_changed peer key joined ↦ some key
  ]

  abbrev pub feed_item : ℕ → ℕ → Bool → FeedPayload F → FeedItem F
  feed_item event_id timestamp targets_me payload = record {
    event_id = event_id;
    timestamp = timestamp;
    targets_me = targets_me;
    payload = payload;
  }

abbrev pub or_zeros : Option ℕ → ℕ
or_zeros none = 0
or_zeros (some log_id) = log_id

module _ (c : Primitives) where
  -- The key, or the zero key where the bytes are not one.
  abbrev pub key_or_zero : ℕ → ℕ
  key_or_zero bytes = if c.is_key bytes then bytes else zero_key

  abbrev pub key_of : Option ℕ → ℕ
  key_of none = zero_key
  key_of (some bytes) = key_or_zero bytes

module _ (c : Primitives) {F : Type 0} where
  unfoldable pub block_you_authored_was_edited : Bytes → ℕ → ℕ → ℕ → FeedItem F
  block_you_authored_was_edited key editor edit_op_id timestamp =
      feed_item (c.blake3 (codes "block_you_authored_was_edited" ++ bytes_of 32 edit_op_id))
        timestamp true
        (FeedPayload.block_you_authored_was_edited (key_or_zero c editor) key edit_op_id)

  unfoldable pub doc_rolled_back : Bytes → ℕ → ℕ → ℕ → ℕ → FeedItem F
  doc_rolled_back key edit_author revoker edit_op_id timestamp =
      feed_item
        (c.blake3 (codes "doc_rolled_back" ++ (bytes_of 32 edit_op_id ++ bytes_of 32 revoker)))
        timestamp false (FeedPayload.doc_rolled_back (key_or_zero c revoker) key)

  unfoldable pub doc_edited : Bytes → ℕ → ℕ → ℕ → FeedItem F
  doc_edited key editor edit_op_id timestamp =
      feed_item edit_op_id timestamp false (FeedPayload.doc_edited (key_or_zero c editor) key)

  -- `none` for the events that are not shown.
  unfoldable pub state_event_to_feed_item : StateEvent → ℕ → Bytes → Bool → Option (FeedItem F)
  state_event_to_feed_item (StateEvent.interp_authored op_id author key body) ts given targets_me =
      some (feed_item op_id ts targets_me (FeedPayload.interp_authored author key body))
  state_event_to_feed_item (StateEvent.affirm_added target voter) ts given targets_me = some (
      feed_item (c.blake3 (bytes_of 32 target ++ bytes_of 32 voter)) ts targets_me
        (FeedPayload.affirm_added target given voter))
  state_event_to_feed_item (StateEvent.response_added op_id author parent body) ts given
        targets_me =
      some (feed_item op_id ts targets_me (FeedPayload.response_added author parent given body))
  state_event_to_feed_item (StateEvent.doc_edited op_id by key base update blocks t ai) ts given
        targets_me =
      some (feed_item op_id ts targets_me (FeedPayload.doc_edited by key))
  state_event_to_feed_item (StateEvent.doc_affirmed op_id by key rev) ts given targets_me =
      some (feed_item op_id ts targets_me (FeedPayload.doc_affirmed by key))
  state_event_to_feed_item (StateEvent.editor_presence_changed op_id by key joined t) ts given
        targets_me =
      some (feed_item op_id ts targets_me (FeedPayload.editor_presence_changed by key joined))
  state_event_to_feed_item event ts given targets_me = none

  abbrev pub row_payload : FeedRowKind → FeedRow → FeedPayload F
  row_payload FeedRowKind.authored row =
      FeedPayload.interp_authored (key_of c row.author_pk) row.interp_key row.body
  row_payload FeedRowKind.affirm row =
      FeedPayload.affirm_added (or_zeros row.target_log_id) row.interp_key (key_of c row.author_pk)
  row_payload FeedRowKind.response row =
      FeedPayload.response_added (key_of c row.author_pk) (or_zeros row.parent_log_id)
        row.interp_key row.body

  unfoldable pub feed_row_to_feed_item : FeedRow → Bool → FeedItem F
  feed_row_to_feed_item row targets_me =
      feed_item row.event_id row.ts targets_me (row_payload row.kind row)
