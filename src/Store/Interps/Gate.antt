-- ===== src/Store/Interps/Gate.antt =====
-- The signature gate: what `insert_received` lets in, and what `community_for_keys` hands out.
use zodia.Prelude.{
  ℕ, ◌≡◌, refl, ap, ◌⊎◌, inl, inr, Bool, true, false, not, ◌&&◌, Option, none, some, List, [], ◌∷◌,
  Bytes, All, any, find, map, arith, ◌==◌, nat_eq, eq_refl, Bool-cases,
}
use zodia.Sql.Rows.{All-update, All-delete, All-select, select-passes}
use zodia.Sql.Insert.{All-insert_or_ignore, insert_or_ignore-affected, insert_or_ignore-held}
use zodia.Sql.Order.{All-order_by, All-take}
use zodia.Store.{Primitives, Interp, Db, new_db, derive_log_id}
use zodia.Store.Interps.{
  same_log_id, own_row, signed_row, op_row, received_row, response_row, insert_interp,
  insert_interpretation, insert_signed, insert_from_op, insert_received, insert_response_from_op,
  affirm, revoke_interp, scrub_baseline, signing_payload, ok, err, invalid_signature,
}
use zodia.Store.Interps.Queries.{
  CommunityEntry, shared_for, is_signed, to_entry, community_rows, community_for_keys,
}
use zodia.Store.Interps.WellFormed.{
  insert_received-cases, IsAddressed, IsWellFormed, Write, interpretation, signed, from_op,
  received, response, affirmation, revocation, scrub, write, run, run-IsWellFormed,
}

module _ (c : Primitives) where
  -- What `insert_received` checks.
  abbrev pub accepts : Bytes → Bytes → ℕ → ℕ → Bool
  accepts key body pk sig = c.is_key pk && c.verify_strict pk (derive_log_id c key body) sig

  -- A call with a bad key or signature changes nothing and reports it. Any other call answers
  -- whether the row is new, and the store then holds a row with its log id.
  pub insert_received_lem :
      (db : Db) (key body : Bytes) (pk sig now : ℕ)
      → ((accepts key body pk sig ≡ false)
          × (insert_received c db key body pk sig now ≡ (db, err invalid_signature)))
        ⊎ ((accepts key body pk sig ≡ true)
            × (((insert_received c db key body pk sig now).1
                  ≡ ok (not (any (λ r. r.log_id == derive_log_id c key body) db.interpretations)))
                × (any
                      (λ r. r.log_id == derive_log_id c key body)
                      (insert_received c db key body pk sig now).0.interpretations
                    ≡ true)))
  unfolding insert_received insert_interp
  insert_received_lem db key body pk sig now = elim (Bool-cases (c.is_key pk)) [
    | inr e ↦ inl (ground (arith, e), rw e refl)
    | inl e ↦ elim (Bool-cases (c.verify_strict pk (derive_log_id c key body) sig)) [
      | inr f ↦ inl (ground (arith, e, f), rw (e, f) refl)
      | inl f ↦ inr (
        ground (arith, e, f),
        (
          rw (e, f) (ap ok (insert_or_ignore-affected same_log_id row db.interpretations)),
          rw (e, f)
              (insert_or_ignore-held same_log_id row db.interpretations
                (eq_refl (derive_log_id c key body))),
        ),
      )
    ]
  ]
    where
      row : Interp
      row = received_row c key body pk sig now

  abbrev IsSignedBy : Option ℕ → ℕ → Option ℕ → Type 0
  IsSignedBy author log_id none = Unit
  IsSignedBy author log_id (some sig) =
      (pk : ℕ) × ((author ≡ some pk)
        × ((c.is_key pk ≡ true) × (c.verify_strict pk log_id sig ≡ true)))

  -- A signed row has an author whose key verifies the signature of its log id.
  abbrev pub IsVerified : Interp → Type 0
  IsVerified r = IsSignedBy r.author_pk r.log_id r.author_sig

  -- The application signs what it inserts as its own.
  abbrev pub IsHonest : Write → Type 0
  IsHonest (signed key body pk sig now) =
      (c.is_key pk ≡ true) × (c.verify_strict pk (signing_payload c key body) sig ≡ true)
  IsHonest (interpretation key body pk baseline now) = Unit
  IsHonest (from_op key body pk now) = Unit
  IsHonest (received key body pk sig now) = Unit
  IsHonest (response parent body pk now) = Unit
  IsHonest (affirmation target pk now) = Unit
  IsHonest (revocation log_id pk) = Unit
  IsHonest scrub = Unit

  kept :
      (db : Db) (row : Interp)
      → IsVerified row
      → All IsVerified db.interpretations
      → All IsVerified (insert_interp db row).0.interpretations
  unfolding insert_interp
  kept db row h a = All-insert_or_ignore same_log_id IsVerified row db.interpretations h a

  response_row-verified :
      (found : Option Interp) (parent : ℕ) (body : Bytes) (pk now : ℕ)
      → IsVerified (response_row c found parent body pk now)
  response_row-verified none parent body pk now = tt
  response_row-verified (some p) parent body pk now = tt

  write-verified :
      (db : Db) (call : Write)
      → IsHonest call
      → All IsVerified db.interpretations
      → All IsVerified (write c db call).interpretations
  unfolding write insert_interpretation insert_signed insert_from_op insert_response_from_op affirm
      revoke_interp scrub_baseline signing_payload
  write-verified db (interpretation key body pk baseline now) h a =
      kept db (own_row c key body pk baseline now) tt a
  write-verified db (signed key body pk sig now) h a =
      kept db (signed_row c key body pk sig now) (pk, (refl, h)) a
  write-verified db (from_op key body pk now) h a = kept db (op_row c key body pk now) tt a
  write-verified db (received key body pk sig now) h a =
      insert_received-cases c (λ d. All IsVerified d.interpretations) db key body pk sig now a
        (λ e f. kept db (received_row c key body pk sig now) (pk, (refl, (e, f))) a)
  write-verified db (response parent body pk now) h a =
      let parent_row = find (λ r. r.log_id == parent) db.interpretations in
      kept db (response_row c parent_row parent body pk now)
        (response_row-verified parent_row parent body pk now) a
  write-verified db (affirmation target pk now) h a = a
  write-verified db (revocation log_id pk) h a =
      All-update IsVerified _ _ (λ r v. v) db.interpretations a
  write-verified db scrub h a = All-delete IsVerified (λ r. r.is_baseline) db.interpretations a

  run-verified :
      (db : Db) (calls : List Write)
      → All IsHonest calls
      → All IsVerified db.interpretations
      → All IsVerified (run c db calls).interpretations
  unfolding run
  run-verified db [] h a = a
  run-verified db (call ∷ calls) h a =
      run-verified (write c db call) calls h.1 (write-verified db call h.0 a)

  -- What a peer's `insert_received` makes of an entry.
  abbrev pub IsAccepted : CommunityEntry → Type 0
  IsAccepted e = accepts e.interp_key e.body e.author_pk e.author_sig ≡ true

  to_entry-IsAccepted :
      (r : Interp) → IsAddressed c r → IsVerified r → is_signed r ≡ true → IsAccepted (to_entry r)
  to_entry-IsAccepted r a v s = go r.author_sig v s
    where
      go :
          (sig : Option ℕ)
          → IsSignedBy r.author_pk r.log_id sig
          → elim sig [ none ↦ false | some x ↦ true ] ≡ true
          → accepts r.interp_key r.body
              (elim r.author_pk [ none ↦ 0 | some pk ↦ pk ])
              (elim sig [ none ↦ 0 | some x ↦ x ])
            ≡ true
      go none v s = ground arith
      go (some sig) (pk, (author, (key_ok, sig_ok))) s =
          rw (author, ← a) (ground (arith, key_ok, sig_ok))

  module _ (db : Db) (w : IsWellFormed c db) (a : All IsVerified db.interpretations)
      (keys : List Bytes) (limit : ℕ) where
    entries :
        (rs : List Interp)
        → All (IsAddressed c) rs
        → All IsVerified rs
        → All (λ r. shared_for keys r ≡ true) rs
        → All IsAccepted (map to_entry rs)
    entries [] w a s = tt
    entries (r ∷ rs) w a s =
        (to_entry-IsAccepted r w.0 a.0 (ground (arith, s.0)), entries rs w.1 a.1 s.1)

    queried :
        (P : Interp → Type 0) → All P db.interpretations → All P (community_rows db keys limit)
    unfolding community_rows
    queried P h =
        All-take P limit _
          (All-order_by _ P _ (All-select P (shared_for keys) db.interpretations h))

    shared-IsAccepted : All IsAccepted (map to_entry (community_rows db keys limit))
    unfolding community_rows
    shared-IsAccepted =
        entries (community_rows db keys limit) (queried (IsAddressed c) w.addressed)
          (queried IsVerified a)
          (All-take _ limit _
            (All-order_by _ _ _ (select-passes (shared_for keys) db.interpretations)))

  -- From a new store, where each of the application's own signed inserts carries an accepted key
  -- and a signature that verifies, whatever else was inserted, received, answered, affirmed,
  -- revoked or scrubbed: every entry that the store shares passes the checks of `insert_received`.
  pub community_for_keys-IsAccepted :
      (calls : List Write)
      → All IsHonest calls
      → (keys : List Bytes) (limit : ℕ)
      → All IsAccepted (community_for_keys (run c new_db calls) keys limit)
  unfolding community_for_keys
  community_for_keys-IsAccepted calls h [] limit = tt
  community_for_keys-IsAccepted calls h (k ∷ ks) limit =
      shared-IsAccepted (run c new_db calls) (run-IsWellFormed c calls)
        (run-verified new_db calls h tt) (k ∷ ks) limit
