-- ===== src/Store/Interps.antt =====
-- store/src/lib.rs: interpretations, affirmations and responses. `now` is `unix_secs()`.
pub mod Queries
pub mod WellFormed
pub mod Gate
pub mod Ranking
pub mod Revocation
use zodia.Prelude.{
  bytes_of, ℕ, Bool, true, false, not, ◌&&◌, ◌||◌, Option, none, some, List, [], ◌∷◌, ◌++◌, Bytes,
  codes, ◌==◌, nat_eq, bytes_instance, ltb, leb, if◌then◌else◌, is_value, any, find, select, map,
  take, length,
}
use zodia.Core.Interp.{InterpKey, to_sig}
use zodia.Sql.{insert_or_ignore, update, delete, count, order_by}
use zodia.Store.{Primitives, Interp, Affirmation, Db, derive_log_id, kind_str, kind_from_key_str}

-- `StoreError` without the engine's own failures.
pub data StoreError : Type 0 where
  seed : StoreError
  invalid_signature : StoreError

pub data Result {ℓ} (A : Type ℓ) : Type ℓ where
  ok : A → Result A
  err : StoreError → Result A

-- PRIMARY KEY (log_id)
abbrev pub same_log_id : Interp → Interp → Bool
same_log_id a b = a.log_id == b.log_id

-- The statement that all inserts share: the new table, and whether a row was inserted.
unfoldable pub insert_interp : Db → Interp → Db × Bool
unfolding insert_or_ignore
insert_interp db row =
    let (t, affected) = insert_or_ignore same_log_id row db.interpretations in
    (record db { interpretations = t }, ltb 0 affected)

-- The row of a plain insert, its columns that are not bound at their defaults.
abbrev pub interp_row : ℕ → Bytes → Bytes → Bytes → Option ℕ → ℕ → Interp
interp_row log_id key kind body author_pk now = record {
  log_id = log_id;
  interp_key = key;
  interp_kind = kind;
  body = body;
  author_pk = author_pk;
  author_sig = none;
  received_at = now;
  is_baseline = false;
  parent_log_id = none;
  revoked = false;
}

-- (SELECT COUNT(*) FROM affirmations WHERE interp_log_id = ...)
unfoldable pub affirmation_count : Db → ℕ → ℕ
unfolding count
affirmation_count db log_id = count (λ a. a.interp_log_id == log_id) db.affirmations

module _ (c : Primitives) where
  unfoldable pub signing_payload : InterpKey → Bytes → ℕ
  signing_payload key body = derive_log_id c (to_sig key) body

  -- The rows that the inserts bind, each addressed by the digest of its key and body.
  abbrev pub own_row : InterpKey → Bytes → Option ℕ → Bool → ℕ → Interp
  own_row key body author_pk is_baseline now =
      let sig = to_sig key in
      record (interp_row (derive_log_id c sig body) sig (kind_str key) body author_pk now) {
        is_baseline = is_baseline;
      }

  abbrev pub signed_row : InterpKey → Bytes → ℕ → ℕ → ℕ → Interp
  signed_row key body author_pk author_sig now =
      record (own_row key body (some author_pk) false now) { author_sig = some author_sig }

  abbrev pub op_row : Bytes → Bytes → ℕ → ℕ → Interp
  op_row interp_key body author_pk now =
      let log_id = derive_log_id c interp_key body in
      interp_row log_id interp_key (kind_from_key_str interp_key) body (some author_pk) now

  abbrev pub received_row : Bytes → Bytes → ℕ → ℕ → ℕ → Interp
  received_row interp_key body author_pk author_sig now =
      record (op_row interp_key body author_pk now) { author_sig = some author_sig }

  unfoldable pub insert_interpretation : Db → InterpKey → Bytes → Option ℕ → Bool → ℕ → Db × ℕ
  unfolding insert_interp
  insert_interpretation db key body author_pk is_baseline now =
      let log_id = derive_log_id c (to_sig key) body in
      ((insert_interp db (own_row key body author_pk is_baseline now)).0, log_id)

  unfoldable pub insert_signed : Db → InterpKey → Bytes → ℕ → ℕ → ℕ → Db × ℕ
  unfolding insert_interp
  insert_signed db key body author_pk author_sig now =
      let log_id = derive_log_id c (to_sig key) body in
      ((insert_interp db (signed_row key body author_pk author_sig now)).0, log_id)

  unfoldable pub insert_from_op : Db → Bytes → Bytes → ℕ → ℕ → Db × Bool
  unfolding insert_interp
  insert_from_op db interp_key body author_pk now =
      insert_interp db (op_row interp_key body author_pk now)

  -- The key and the signature are checked before anything is written.
  unfoldable pub insert_received : Db → Bytes → Bytes → ℕ → ℕ → ℕ → Db × Result Bool
  unfolding insert_interp
  insert_received db interp_key body author_pk author_sig now =
      if not (c.is_key author_pk)
      then (db, err invalid_signature)
      else if not (c.verify_strict author_pk (derive_log_id c interp_key body) author_sig)
      then (db, err invalid_signature)
      else let (db', inserted) =
          insert_interp db (received_row interp_key body author_pk author_sig now) in
        (db', ok inserted)

  -- UNIQUE and PRIMARY KEY of `affirmations`.
  abbrev pub same_affirmation : Affirmation → Affirmation → Bool
  same_affirmation a b =
      a.log_id == b.log_id || (a.interp_log_id == b.interp_log_id && a.author_pk == b.author_pk)

  abbrev pub affirmation_row : ℕ → ℕ → ℕ → Affirmation
  affirmation_row interp_log_id author_pk now = record {
    log_id = c.blake3 (bytes_of 32 interp_log_id ++ bytes_of 32 author_pk);
    interp_log_id = interp_log_id;
    author_pk = author_pk;
    created_at = now;
  }

  unfoldable pub affirm : Db → ℕ → ℕ → ℕ → Db × Bool
  unfolding insert_or_ignore
  affirm db interp_log_id author_pk now =
      let (t, affected) =
        insert_or_ignore same_affirmation (affirmation_row interp_log_id author_pk now)
          db.affirmations in
      (record db { affirmations = t }, ltb 0 affected)

  -- A response takes the key of its parent, and the empty key where the parent is not known.
  abbrev pub response_row : Option Interp → ℕ → Bytes → ℕ → ℕ → Interp
  response_row none parent_log_id body author_pk now =
      let kind = codes "response_orphan" in
      record (interp_row (derive_log_id c [] body) [] kind body (some author_pk) now) {
        parent_log_id = some parent_log_id;
      }
  response_row (some parent) parent_log_id body author_pk now =
      let key = parent.interp_key in
      let kind = codes "response" in
      record (interp_row (derive_log_id c key body) key kind body (some author_pk) now) {
        parent_log_id = some parent_log_id;
      }

  unfoldable pub insert_response_from_op : Db → ℕ → Bytes → ℕ → ℕ → Db × Bool
  unfolding insert_interp
  insert_response_from_op db parent_log_id body author_pk now =
      let parent = find (λ r. r.log_id == parent_log_id) db.interpretations in
      insert_interp db (response_row parent parent_log_id body author_pk now)

abbrev pub revocable : ℕ → ℕ → Interp → Bool
revocable log_id expected_author r =
    r.log_id == log_id && (is_value r.author_pk expected_author && not r.revoked)

unfoldable pub revoke_interp : Db → ℕ → ℕ → Db × Bool
unfolding update
revoke_interp db log_id expected_author =
    let (t, affected) =
      update (revocable log_id expected_author) (λ r. record r { revoked = true })
        db.interpretations in
    (record db { interpretations = t }, ltb 0 affected)

unfoldable pub scrub_baseline : Db → Db × ℕ
unfolding delete
scrub_baseline db =
    let (t, affected) = delete (λ r. r.is_baseline) db.interpretations in
    (record db { interpretations = t }, affected)
