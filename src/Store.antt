-- ===== src/Store.antt =====
-- store/src/lib.rs: the rows of the tables, the database, and the helpers below the schema.
-- A `[u8; 32]` or `[u8; 64]` is the number whose little-endian bytes it holds; a `str` or a byte
-- vector is the list of its bytes; a nullable column is an `Option`.
pub mod Interps
pub mod Docs
pub mod Peers
pub mod Seed
pub mod Feed
pub mod Again
use zodia.Prelude.{
  ℕ, zero, suc, ◌/◌, ◌%◌, Bool, Option, none, some, List, [], ◌∷◌, ◌++◌, Bytes, codes,
}
use zodia.Core.Interp.{
  InterpKey, natal, synastry, sky_aspect, transit, house_transit, placement, placement_angle,
  split_once,
}

-- What the store takes from blake3 and ed25519-dalek.
pub record Primitives : Type 0 where
  -- the digest of a byte string
  pub blake3 : Bytes → ℕ
  -- `VerifyingKey::from_bytes` accepts the bytes
  pub is_key : ℕ → Bool
  -- `verify_strict` of a key, a message and a signature
  pub verify_strict : ℕ → ℕ → ℕ → Bool

-- A row of `interpretations`.
pub record Interp : Type 0 where
  pub log_id : ℕ
  pub interp_key : Bytes
  pub interp_kind : Bytes
  pub body : Bytes
  pub author_pk : Option ℕ
  pub author_sig : Option ℕ
  pub received_at : ℕ
  pub is_baseline : Bool
  pub parent_log_id : Option ℕ
  pub revoked : Bool

pub record Affirmation : Type 0 where
  pub log_id : ℕ
  pub interp_log_id : ℕ
  pub author_pk : ℕ
  pub created_at : ℕ

pub record Message : Type 0 where
  pub id : ℕ
  pub peer_id : ℕ
  pub from_us : Bool
  pub body : Bytes
  pub ts : ℕ

pub record DisplayName : Type 0 where
  pub peer_pk : ℕ
  pub name : Bytes
  pub updated_at : ℕ

pub record LastSeen : Type 0 where
  pub peer_pk : ℕ
  pub seen_at : ℕ

pub record MutedPeer : Type 0 where
  pub peer_pk : ℕ
  pub muted_at : ℕ

pub record FeedRead : Type 0 where
  pub event_id : ℕ
  pub read_at : ℕ

pub record FeedMeta : Type 0 where
  pub key : Bytes
  pub value : Bytes

pub record InterpDoc : Type 0 where
  pub interp_key : Bytes
  pub loro_snapshot : Bytes
  pub snapshot_rev : ℕ
  pub updated_at : ℕ
  pub prior_snapshot : Option Bytes
  pub last_edit_op_id : Option ℕ
  pub last_edit_ts : Option ℕ
  pub last_edit_author : Option ℕ
  pub last_edit_blocks : Option Bytes

pub record BlockAuthor : Type 0 where
  pub interp_key : Bytes
  pub block_id : ℕ
  pub position : ℕ
  pub author_pk : ℕ
  pub edit_op_id : ℕ
  pub edited_at : ℕ
  pub ai_generated : Bool

pub record DocAffirm : Type 0 where
  pub interp_key : Bytes
  pub target_rev : ℕ
  pub voter_pk : ℕ
  pub affirmed_at : ℕ

-- `ZodiaStore`: the tables, and SQLite's counter behind `AUTOINCREMENT`.
pub record Db : Type 0 where
  pub interpretations : List Interp
  pub affirmations : List Affirmation
  pub messages : List Message
  pub last_message_id : ℕ
  pub peer_display_names : List DisplayName
  pub peer_last_seen : List LastSeen
  pub muted_peers : List MutedPeer
  pub feed_read : List FeedRead
  pub feed_meta : List FeedMeta
  pub interp_docs : List InterpDoc
  pub doc_block_authors : List BlockAuthor
  pub doc_affirms : List DocAffirm

-- A new database: the schema's tables, empty.
abbrev pub new_db : Db
new_db = record {
  interpretations = [];
  affirmations = [];
  messages = [];
  last_message_id = 0;
  peer_display_names = [];
  peer_last_seen = [];
  muted_peers = [];
  feed_read = [];
  feed_meta = [];
  interp_docs = [];
  doc_block_authors = [];
  doc_affirms = [];
}

module _ (c : Primitives) where
  abbrev pub derive_log_id : Bytes → Bytes → ℕ
  derive_log_id a b = c.blake3 (a ++ b)

abbrev pub kind_str : InterpKey → Bytes
kind_str (natal _) = codes "natal"
kind_str (synastry _) = codes "synastry"
kind_str (sky_aspect _) = codes "sky"
kind_str (transit _ _ _) = codes "transit"
kind_str (house_transit _ _) = codes "house_transit"
kind_str (placement _ _ _) = codes "placement"
kind_str (placement_angle _ _) = codes "placement_angle"

-- `key.split(':').next()`, which is never `None`.
unfoldable pub kind_from_key_str : Bytes → Bytes
unfolding split_once
kind_from_key_str key = elim (split_once b':' key) [ none ↦ key | some (a, b) ↦ a ]
