-- ===== src/Store/Interps/WellFormed.antt =====
-- What every write keeps: unique content addresses, and one affirmation for each voter and target.
use zodia.Prelude.{
  ℕ, ◌≡◌, refl, Bool, true, Option, none, some, List, [], ◌∷◌, Bytes, All, find, Bool-cases, ◌==◌,
  nat_eq, inl, inr,
}
use zodia.Core.Interp.{InterpKey}
use zodia.Sql.Rows.{All-update, All-delete}
use zodia.Sql.Insert.{
  Unique, insert_or_ignore-Unique, delete-Unique, update-Unique, All-insert_or_ignore,
}
use zodia.Store.{Primitives, Interp, Db, new_db, derive_log_id}
use zodia.Store.Interps.{
  same_log_id, insert_interp, insert_interpretation, insert_signed, insert_from_op, insert_received,
  received_row, same_affirmation, affirmation_row, affirm, insert_response_from_op, response_row,
  own_row, signed_row, op_row, revoke_interp, scrub_baseline,
}

-- The calls of this part of the store that write.
pub data Write : Type 0 where
  interpretation : InterpKey → Bytes → Option ℕ → Bool → ℕ → Write
  signed : InterpKey → Bytes → ℕ → ℕ → ℕ → Write
  from_op : Bytes → Bytes → ℕ → ℕ → Write
  received : Bytes → Bytes → ℕ → ℕ → ℕ → Write
  response : ℕ → Bytes → ℕ → ℕ → Write
  affirmation : ℕ → ℕ → ℕ → Write
  revocation : ℕ → ℕ → Write
  scrub : Write

module _ (c : Primitives) where
  -- The row's id is the digest of its key and body.
  abbrev pub IsAddressed : Interp → Type 0
  IsAddressed r = r.log_id ≡ derive_log_id c r.interp_key r.body

  pub record IsWellFormed (db : Db) : Type 0 where
    pub unique : Unique same_log_id db.interpretations
    pub addressed : All IsAddressed db.interpretations
    pub one_each : Unique (same_affirmation c) db.affirmations

  pub new_db-IsWellFormed : IsWellFormed new_db
  new_db-IsWellFormed = record { unique = tt; addressed = tt; one_each = tt }

  insert_interp-IsWellFormed :
      (db : Db) (row : Interp)
      → IsAddressed row
      → IsWellFormed db
      → IsWellFormed (insert_interp db row).0
  unfolding insert_interp
  insert_interp-IsWellFormed db row a w = record {
    unique = insert_or_ignore-Unique same_log_id row db.interpretations w.unique;
    addressed = All-insert_or_ignore same_log_id IsAddressed row db.interpretations a w.addressed;
    one_each = w.one_each;
  }

  affirm-IsWellFormed :
      (db : Db) (target pk now : ℕ) → IsWellFormed db → IsWellFormed (affirm c db target pk now).0
  unfolding affirm
  affirm-IsWellFormed db target pk now w = record {
    unique = w.unique;
    addressed = w.addressed;
    one_each =
        insert_or_ignore-Unique (same_affirmation c) (affirmation_row c target pk now)
          db.affirmations w.one_each;
  }

  revoke_interp-IsWellFormed :
      (db : Db) (log_id author : ℕ)
      → IsWellFormed db
      → IsWellFormed (revoke_interp db log_id author).0
  unfolding revoke_interp
  revoke_interp-IsWellFormed db log_id author w = record {
    unique = update-Unique same_log_id _ _ (λ r s. (refl, refl)) db.interpretations w.unique;
    addressed = All-update IsAddressed _ _ (λ r a. a) db.interpretations w.addressed;
    one_each = w.one_each;
  }

  scrub_baseline-IsWellFormed : (db : Db) → IsWellFormed db → IsWellFormed (scrub_baseline db).0
  unfolding scrub_baseline
  scrub_baseline-IsWellFormed db w = record {
    unique = delete-Unique same_log_id (λ r. r.is_baseline) db.interpretations w.unique;
    addressed = All-delete IsAddressed (λ r. r.is_baseline) db.interpretations w.addressed;
    one_each = w.one_each;
  }

  -- What holds of the store, and of the store with the row inserted, holds after a received row.
  pub insert_received-cases {ℓ} :
      (P : Db → Type ℓ) (db : Db) (key body : Bytes) (pk sig now : ℕ)
      → P db
      → (c.is_key pk ≡ true
          → c.verify_strict pk (derive_log_id c key body) sig ≡ true
          → P (insert_interp db (received_row c key body pk sig now)).0)
      → P (insert_received c db key body pk sig now).0
  unfolding insert_received
  insert_received-cases P db key body pk sig now h k = elim (Bool-cases (c.is_key pk)) [
    | inr e ↦ rw e h
    | inl e ↦ elim (Bool-cases (c.verify_strict pk (derive_log_id c key body) sig)) [
      | inr f ↦ rw (e, f) h
      | inl f ↦ rw (e, f) (k e f)
    ]
  ]

  response_row-IsAddressed :
      (found : Option Interp) (parent : ℕ) (body : Bytes) (pk now : ℕ)
      → IsAddressed (response_row c found parent body pk now)
  response_row-IsAddressed none parent body pk now = refl
  response_row-IsAddressed (some p) parent body pk now = refl

  insert_response_from_op-IsWellFormed :
      (db : Db) (parent : ℕ) (body : Bytes) (pk now : ℕ)
      → IsWellFormed db
      → IsWellFormed (insert_response_from_op c db parent body pk now).0
  unfolding insert_response_from_op
  insert_response_from_op-IsWellFormed db parent body pk now w =
      let parent_row = find (λ r. r.log_id == parent) db.interpretations in
      insert_interp-IsWellFormed db (response_row c parent_row parent body pk now)
        (response_row-IsAddressed parent_row parent body pk now) w

  unfoldable pub write : Db → Write → Db
  write db (interpretation key body pk baseline now) =
      (insert_interpretation c db key body pk baseline now).0
  write db (signed key body pk sig now) = (insert_signed c db key body pk sig now).0
  write db (from_op key body pk now) = (insert_from_op c db key body pk now).0
  write db (received key body pk sig now) = (insert_received c db key body pk sig now).0
  write db (response parent body pk now) = (insert_response_from_op c db parent body pk now).0
  write db (affirmation target pk now) = (affirm c db target pk now).0
  write db (revocation log_id pk) = (revoke_interp db log_id pk).0
  write db scrub = (scrub_baseline db).0

  pub write-IsWellFormed : (db : Db) (call : Write) → IsWellFormed db → IsWellFormed (write db call)
  unfolding write insert_interpretation insert_signed insert_from_op
  write-IsWellFormed db (interpretation key body pk baseline now) w =
      insert_interp-IsWellFormed db (own_row c key body pk baseline now) refl w
  write-IsWellFormed db (signed key body pk sig now) w =
      insert_interp-IsWellFormed db (signed_row c key body pk sig now) refl w
  write-IsWellFormed db (from_op key body pk now) w =
      insert_interp-IsWellFormed db (op_row c key body pk now) refl w
  write-IsWellFormed db (received key body pk sig now) w =
      insert_received-cases IsWellFormed db key body pk sig now w
        (λ e f. insert_interp-IsWellFormed db (received_row c key body pk sig now) refl w)
  write-IsWellFormed db (response parent body pk now) w =
      insert_response_from_op-IsWellFormed db parent body pk now w
  write-IsWellFormed db (affirmation target pk now) w = affirm-IsWellFormed db target pk now w
  write-IsWellFormed db (revocation log_id pk) w = revoke_interp-IsWellFormed db log_id pk w
  write-IsWellFormed db scrub w = scrub_baseline-IsWellFormed db w

  unfoldable pub run : Db → List Write → Db
  unfolding write
  run db [] = db
  run db (call ∷ calls) = run (write db call) calls

  run_keeps : (db : Db) (calls : List Write) → IsWellFormed db → IsWellFormed (run db calls)
  unfolding run
  run_keeps db [] w = w
  run_keeps db (call ∷ calls) w = run_keeps (write db call) calls (write-IsWellFormed db call w)

  -- Any sequence of the store's writes from a new database, whatever keys, bodies, signatures and
  -- times they carry, leaves no two interpretations with one log id, every interpretation's log
  -- id the digest of its key and body, and no two affirmations by one voter of one target.
  pub run-IsWellFormed : (calls : List Write) → IsWellFormed (run new_db calls)
  run-IsWellFormed calls = run_keeps new_db calls new_db-IsWellFormed
