-- ===== src/OperationStore.antt =====
-- p2panda's store of operations, as circles/src/lib.rs and sync/src/lib.rs use it. The store itself,
-- the hash of a signed header and the failures of its transactions are parameters; a transaction that
-- fails leaves the store as it was, which is what the code's rollbacks do.
use zodia.Prelude.{
  ℕ, Bool, ◌+◌, ◌%◌, ◌^◌, ◌<◌, ◌≡◌, false, ◌&&◌, Option, none, some, Bytes, ◌==◌, nat_eq,
}
use zodia.Ops.{ZodiaExtensions}

-- `Header<ZodiaExtensions>` without what follows from the body and the key: size and hash of the
-- payload and the signature.
pub record Header (S : Type 0) : Type 0 where
  pub verifying_key : ℕ
  pub seq_num : ℕ
  pub backlink : Option ℕ
  pub extensions : ZodiaExtensions S
  pub body : Option Bytes

pub record Entry (S : Type 0) : Type 0 where
  pub hash : ℕ
  pub header : Header S

pub record SqliteStore (T S : Type 0) : Type 0 where
  -- the latest entry of the log of an author, where it can be read
  pub get_latest_entry : T → ℕ → ℕ → Option (Entry S)
  pub can_read : T → ℕ → ℕ → Bool
  -- the operation under its hash, into a log of its author
  pub insert_operation : T → ℕ → Entry S → ℕ → Option T
  -- a topic with the log of an author
  pub associate : T → ℕ → ℕ → ℕ → Option T
  -- `Header::hash` of the signed header
  pub header_hash : Header S → ℕ

abbrev pub seq_after : {S : Type 0} → Option (Entry S) → ℕ
seq_after none = 0
seq_after (some prev) = (prev.header.seq_num + 1) % 2 ^ 32

-- What p2panda documents of these calls: the latest entry is the one with the greatest sequence
-- number, and no call changes the entries of another log.
pub record IsLogStore {T S : Type 0} (o : SqliteStore T S) : Type 0 where
  pub latest_first :
      (t t' : T) (h log : ℕ) (e : Entry S)
      → o.insert_operation t h e log ≡ some t'
      → o.get_latest_entry t e.header.verifying_key log ≡ none
      → o.get_latest_entry t' e.header.verifying_key log ≡ some e
  pub latest_next :
      (t t' : T) (h log : ℕ) (e prev : Entry S)
      → o.insert_operation t h e log ≡ some t'
      → o.get_latest_entry t e.header.verifying_key log ≡ some prev
      → prev.header.seq_num < e.header.seq_num
      → o.get_latest_entry t' e.header.verifying_key log ≡ some e
  pub latest_elsewhere :
      (t t' : T) (h log : ℕ) (e : Entry S) (a l : ℕ)
      → o.insert_operation t h e log ≡ some t'
      → (e.header.verifying_key == a && log == l) ≡ false
      → o.get_latest_entry t' a l ≡ o.get_latest_entry t a l
  pub latest_associated :
      (t t' : T) (topic author log a l : ℕ)
      → o.associate t topic author log ≡ some t'
      → o.get_latest_entry t' a l ≡ o.get_latest_entry t a l

module _ {T S : Type 0} (o : SqliteStore T S) where
  abbrev pub hash_of_latest : Option (Entry S) → Option ℕ
  hash_of_latest none = none
  hash_of_latest (some prev) = some (o.header_hash prev.header)

  -- The operation that follows the latest one of the author's log.
  unfoldable pub next_entry : T → ℕ → ℕ → ZodiaExtensions S → Option Bytes → Entry S
  next_entry t author log extensions body =
      let latest = o.get_latest_entry t author log in
      let header : Header S = record {
        verifying_key = author;
        seq_num = seq_after latest;
        backlink = hash_of_latest latest;
        extensions = extensions;
        body = body;
      } in
      record { hash = o.header_hash header; header = header }

  abbrev pub associated : Option T → ℕ → ℕ → ℕ → Option T
  associated none topic author log = none
  associated (some t) topic author log = o.associate t topic author log

  -- Insert and associate in one transaction.
  unfoldable pub insert_and_associate : T → ℕ → ℕ → ℕ → Entry S → Option T
  insert_and_associate t topic author log e =
      associated (o.insert_operation t e.hash e log) topic author log
