-- ===== src/Tests.antt =====
-- Concrete stores, keys and primitives, on which the tests run the code.
pub mod Interps
pub mod Docs
pub mod Peers
pub mod Keys
pub mod Crypto
pub mod Pipeline
pub mod Events
pub mod Sync
pub mod Delivery
pub mod InterpSync
pub mod Patterns
pub mod Seed
pub mod Migration
use zodia.Prelude.{
  ℕ, ◌+◌, ◌*◌, ◌%◌, Bool, true, Option, none, some, List, [], ◌∷◌, ◌++◌, Bytes, codes, length, ◌==◌,
  nat_eq,
}
use zodia.Core.Interp.{InterpKey, natal}
use zodia.Store.{Primitives, Db, new_db, derive_log_id}
use zodia.Store.Docs.{BlockEntry}
use zodia.Store.Interps.WellFormed.{
  Write, interpretation, signed, from_op, received, response, affirmation, revocation, scrub,
}
use zodia.Doc.Document.{Crdt}
use zodia.App.Docs.{DocEdit}

-- A checksum for blake3, and a signature that is the sum of key and message.
abbrev checksum : Bytes → ℕ
checksum [] = 7
checksum (x ∷ xs) = (x + 31 * checksum xs) % 1000003

abbrev pub toy : Primitives
toy = record {
  blake3 = checksum;
  is_key = λ pk. true;
  verify_strict = λ pk msg sig. sig == pk + msg;
}

abbrev pub key : InterpKey
key = natal (codes "sun_trine_moon")

abbrev pub sig : Bytes
sig = codes "natal:sun_trine_moon"

abbrev pub hello : Bytes
hello = codes "hello"

abbrev pub hello_id : ℕ
hello_id = derive_log_id toy sig hello

abbrev pub calls : List Write
calls =
    signed key hello 1 (1 + hello_id) 100
    ∷ interpretation key (codes "base") none true 90
    ∷ received sig (codes "world") 2 5 101
    ∷ affirmation hello_id 2 102
    ∷ response hello_id (codes "indeed") 2 103
    ∷ []

-- A CRDT whose documents are texts and whose updates append.
abbrev pub appending : Crdt Bytes
appending = record {
  is_key = λ pk. true;
  new_doc = [];
  set_peer_id = λ doc peer. doc;
  import_bytes = λ doc update. some (doc ++ update);
  export_snapshot = λ doc. some doc;
  state_frontiers = λ doc. (1, length doc) ∷ [];
  blake3 = checksum;
}

abbrev pub by_peer : DocEdit
by_peer = record {
  interp_key = sig;
  update = codes "!";
  editor_pk = 5;
  edit_op_id = 50;
  edit_ts = 1000;
  affected_blocks = 3 ∷ [];
  ai_generated = true;
}

abbrev pub old_entry : BlockEntry
old_entry = record { author = 4; edit_op_id = 40; edited_at = 900; ai_generated = true }
