-- ===== src/App/FeedItem/Payload.antt =====
-- app/src/feed_item.rs: the types of feed items.
use zodia.Prelude.{ℕ, Bool, Option, Bytes}

pub data FeedPayload (F : Type 0) : Type 0 where
  interp_authored : (author : ℕ) (interp_key body : Bytes) → FeedPayload F
  affirm_added : (target_log_id : ℕ) (target_key : Bytes) (voter : ℕ) → FeedPayload F
  response_added : (author parent_log_id : ℕ) (interp_key body : Bytes) → FeedPayload F
  transit_active :
      (transit_key : Bytes) (start_jdn end_jdn orb_deg : F) (baseline : Option Bytes)
      → FeedPayload F
  sky_aspect_active :
      (aspect_key : Bytes) (start_jdn end_jdn orb_deg : F) (baseline : Option Bytes) → FeedPayload F
  house_transit_active :
      (transit_key : Bytes) (start_jdn end_jdn : F) (baseline : Option Bytes) → FeedPayload F
  doc_edited : (editor : ℕ) (interp_key : Bytes) → FeedPayload F
  block_you_authored_was_edited : (editor : ℕ) (interp_key : Bytes) (edit_op_id : ℕ) → FeedPayload F
  doc_rolled_back : (revoker : ℕ) (interp_key : Bytes) → FeedPayload F
  doc_affirmed : (voter : ℕ) (interp_key : Bytes) → FeedPayload F
  editor_presence_changed : (peer : ℕ) (interp_key : Bytes) (joined : Bool) → FeedPayload F

pub record FeedItem (F : Type 0) : Type 0 where
  pub event_id : ℕ
  pub timestamp : ℕ
  pub targets_me : Bool
  pub payload : FeedPayload F
