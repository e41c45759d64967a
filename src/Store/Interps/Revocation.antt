-- ===== src/Store/Interps/Revocation.antt =====
-- Revocations and affirmations: who may revoke, and that a revoked row does not come back.
use zodia.Prelude.{
  ℕ, ◌+◌, ◌≡◌, refl, ap, ◌∙◌, Bool, true, false, not, ◌&&◌, List, [], ◌∷◌, any, find, arith, ◌==◌,
  nat_eq, eq_iff, eq_refl, is_value, ltb, select, if◌then◌else◌,
}
use zodia.Sql.{insert_or_ignore, update, delete, set_where}
use zodia.Sql.Insert.{Unique, any-insert_or_ignore, insert_or_ignore_again, count-insert_or_ignore}
use zodia.Store.{Primitives, Interp, Affirmation, Db}
use zodia.Store.Interps.{
  same_log_id, own_row, signed_row, op_row, received_row, response_row, insert_interp,
  insert_interpretation, insert_signed, insert_from_op, insert_response_from_op, affirm,
  affirmation_row, same_affirmation, affirmation_count, revoke_interp, revocable, scrub_baseline,
}
use zodia.Store.Interps.WellFormed.{
  insert_received-cases, IsWellFormed, Write, interpretation, signed, from_op, received, response,
  affirmation, revocation, scrub, write, run,
}

-- A row with the log id that `scrub_baseline` leaves alone.
abbrev is_community : ℕ → Interp → Bool
is_community id r = r.log_id == id && not r.is_baseline

-- A row with the log id that no revocation has reached.
abbrev pub is_live : ℕ → Interp → Bool
is_live id r = r.log_id == id && not r.revoked

-- The log id belongs to a community row, and to no row that is not revoked.
record IsGone (id : ℕ) (t : List Interp) : Type 0 where
  pub present : any (is_community id) t ≡ true
  pub dead : any (is_live id) t ≡ false

clashes :
    (id : ℕ) (row : Interp) (t : List Interp)
    → row.log_id ≡ id
    → any (is_community id) t ≡ true
    → any (λ old. same_log_id old row) t ≡ true
clashes id row [] h p = cc
clashes id row (r ∷ t) h p =
    ground (arith, clashes id row t h, eq_iff r.log_id id, eq_iff r.log_id row.log_id)

insert-IsGone :
    (id : ℕ) (row : Interp) (t : List Interp)
    → IsGone id t
    → IsGone id (insert_or_ignore same_log_id row t).0
insert-IsGone id row t g = record {
  present = ground (arith, any-insert_or_ignore same_log_id (is_community id) row t, g.present);
  dead = ground (
    arith,
    any-insert_or_ignore same_log_id (is_live id) row t,
    g.dead,
    g.present,
    clashes id row t,
    eq_iff row.log_id id,
  );
}

revoke_present :
    (id log_id author : ℕ) (t : List Interp)
    → any
        (is_community id)
        (update (revocable log_id author) (λ r. record r { revoked = true }) t).0
      ≡ any (is_community id) t
unfolding update set_where
revoke_present id log_id author [] = refl
revoke_present id log_id author (r ∷ t) = ground (arith, revoke_present id log_id author t)

revoke_dead :
    (id log_id author : ℕ) (t : List Interp)
    → any (is_live id) t ≡ false
    → any (is_live id) (update (revocable log_id author) (λ r. record r { revoked = true }) t).0
      ≡ false
unfolding update set_where
revoke_dead id log_id author [] h = refl
revoke_dead id log_id author (r ∷ t) h = ground (arith, revoke_dead id log_id author t)

scrub_present :
    (id : ℕ) (t : List Interp)
    → any (is_community id) (delete (λ r. r.is_baseline) t).0 ≡ any (is_community id) t
unfolding delete select
scrub_present id [] = refl
scrub_present id (r ∷ t) = ground (arith, scrub_present id t)

scrub_dead :
    (id : ℕ) (t : List Interp)
    → any (is_live id) t ≡ false
    → any (is_live id) (delete (λ r. r.is_baseline) t).0 ≡ false
unfolding delete select
scrub_dead id [] h = refl
scrub_dead id (r ∷ t) h = ground (arith, scrub_dead id t)

module _ (c : Primitives) (id : ℕ) where
  write-IsGone :
      (db : Db) (call : Write)
      → IsGone id db.interpretations
      → IsGone id (write c db call).interpretations
  unfolding write insert_interpretation insert_signed insert_from_op insert_response_from_op
      insert_interp affirm revoke_interp scrub_baseline
  write-IsGone db (interpretation key body pk baseline now) g =
      insert-IsGone id (own_row c key body pk baseline now) db.interpretations g
  write-IsGone db (signed key body pk sig now) g =
      insert-IsGone id (signed_row c key body pk sig now) db.interpretations g
  write-IsGone db (from_op key body pk now) g =
      insert-IsGone id (op_row c key body pk now) db.interpretations g
  write-IsGone db (received key body pk sig now) g =
      insert_received-cases c (λ d. IsGone id d.interpretations) db key body pk sig now g
        (λ e f. insert-IsGone id (received_row c key body pk sig now) db.interpretations g)
  write-IsGone db (response parent body pk now) g =
      let parent_row = find (λ r. r.log_id == parent) db.interpretations in
      insert-IsGone id (response_row c parent_row parent body pk now) db.interpretations g
  write-IsGone db (affirmation target pk now) g = g
  write-IsGone db (revocation log_id pk) g = record {
    present = revoke_present id log_id pk db.interpretations ∙ g.present;
    dead = revoke_dead id log_id pk db.interpretations g.dead;
  }
  write-IsGone db scrub g = record {
    present = scrub_present id db.interpretations ∙ g.present;
    dead = scrub_dead id db.interpretations g.dead;
  }

  run-IsGone :
      (db : Db) (calls : List Write)
      → IsGone id db.interpretations
      → IsGone id (run c db calls).interpretations
  unfolding run
  run-IsGone db [] g = g
  run-IsGone db (call ∷ calls) g = run-IsGone (write c db call) calls (write-IsGone db call g)

-- A community row with the log id and the author.
abbrev pub is_authored : ℕ → ℕ → Interp → Bool
is_authored id author r = r.log_id == id && (is_value r.author_pk author && not r.is_baseline)

authored-present :
    (id author : ℕ) (t : List Interp)
    → any (is_authored id author) t ≡ true
    → any (is_community id) t ≡ true
authored-present id author [] h = cc
authored-present id author (r ∷ t) h = ground (arith, authored-present id author t)

absent_dead :
    (id author log_id : ℕ) (t : List Interp)
    → log_id ≡ id
    → any (λ r. log_id == r.log_id) t ≡ false
    → any (is_live id) (update (revocable id author) (λ r. record r { revoked = true }) t).0 ≡ false
unfolding update set_where
absent_dead id author log_id [] e h = refl
absent_dead id author log_id (r ∷ t) e h =
    ground (arith, absent_dead id author log_id t e, eq_iff log_id r.log_id, eq_iff r.log_id id)

absent_unauthored :
    (id author log_id : ℕ) (t : List Interp)
    → log_id ≡ id
    → any (λ r. log_id == r.log_id) t ≡ false
    → any (is_authored id author) t ≡ false
absent_unauthored id author log_id [] e h = refl
absent_unauthored id author log_id (r ∷ t) e h =
    ground
      (arith, absent_unauthored id author log_id t e, eq_iff log_id r.log_id, eq_iff r.log_id id)

revoked-dead :
    (id author : ℕ) (t : List Interp)
    → Unique same_log_id t
    → any (is_authored id author) t ≡ true
    → any (is_live id) (update (revocable id author) (λ r. record r { revoked = true }) t).0 ≡ false
unfolding update set_where
revoked-dead id author [] u h = refl
revoked-dead id author (r ∷ t) u h = ground (
  arith,
  revoked-dead id author t u.1,
  absent_dead id author r.log_id t,
  absent_unauthored id author r.log_id t,
  u.0,
  eq_iff r.log_id id,
)

-- In a well-formed store, once the author of a community row has revoked it, no sequence of writes
-- brings a row with its log id back that is not revoked: not a second insert of the same text,
-- under whatever signature, not a response, not a scrub of the baseline.
pub run-revoke_interp :
    (c : Primitives) (db : Db) (id author : ℕ) (calls : List Write)
    → IsWellFormed c db
    → any (is_authored id author) db.interpretations ≡ true
    → any (is_live id) (run c (revoke_interp db id author).0 calls).interpretations ≡ false
unfolding revoke_interp
run-revoke_interp c db id author calls w h =
    (run-IsGone c id (revoke_interp db id author).0 calls (record {
      present =
          revoke_present id id author db.interpretations
          ∙ authored-present id author db.interpretations h;
      dead = revoked-dead id author db.interpretations w.unique h;
    })).dead

pub untouched :
    (p : Interp → Bool) (f : Interp → Interp) (t : List Interp)
    → any p t ≡ false
    → update p f t ≡ (t, 0)
unfolding update set_where select
untouched p f [] h = refl
untouched p f (r ∷ t) h = ground (arith, untouched p f t)

not_revocable :
    (id author : ℕ) (t : List Interp)
    → any (λ r. r.log_id == id && is_value r.author_pk author) t ≡ false
    → any (revocable id author) t ≡ false
not_revocable id author [] h = refl
not_revocable id author (r ∷ t) h = ground (arith, not_revocable id author t)

-- A revocation by anyone but an author of the row changes nothing and says so.
pub revoke_interp-refused :
    (db : Db) (id author : ℕ)
    → any (λ r. r.log_id == id && is_value r.author_pk author) db.interpretations ≡ false
    → revoke_interp db id author ≡ (db, false)
unfolding revoke_interp
revoke_interp-refused db id author h =
    ap (λ (p : List Interp × ℕ). (record db { interpretations = p.0 }, ltb 0 p.1))
      (untouched (revocable id author) _ db.interpretations
        (not_revocable id author db.interpretations h))

-- An affirmation that the call reports as new adds one to the count of its target and nothing to
-- any other count, one that it reports as old adds nothing, and a second affirmation by the same
-- voter of the same target, at whatever time, changes nothing and is reported as old.
pub affirm_lem :
    (c : Primitives) (db : Db) (target voter now later log_id : ℕ)
    → (affirmation_count (affirm c db target voter now).0 log_id
        ≡ affirmation_count db log_id
          + (if (affirm c db target voter now).1 && target == log_id then 1 else 0))
      × (affirm c (affirm c db target voter now).0 target voter later
          ≡ ((affirm c db target voter now).0, false))
unfolding affirm affirmation_count
affirm_lem c db target voter now later log_id = (
  count-insert_or_ignore (same_affirmation c) (λ a. a.interp_log_id == log_id)
      (affirmation_row c target voter now) db.affirmations,
  ap (λ (p : List Affirmation × ℕ). (record db { affirmations = p.0 }, ltb 0 p.1))
      (insert_or_ignore_again (same_affirmation c) (affirmation_row c target voter now)
        (affirmation_row c target voter later) db.affirmations
        (ground (arith, eq_refl (affirmation_row c target voter now).log_id)) (λ old h. h)),
)
