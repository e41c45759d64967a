-- ===== src/Store/Docs/Votes.antt =====
-- Affirmations of document revisions: one vote for each voter and revision, and retraction.
use zodia.Prelude.{
  ℕ, ◌+◌, ◌≡◌, refl, inl, inr, Bool, true, false, not, ◌&&◌, List, [], ◌∷◌, Bytes, ltb,
  if◌then◌else◌, ◌==◌, nat_eq, bytes_instance, eq_iff, eq_refl, Bool-cases, arith, any, select,
  length,
}
use zodia.Sql.{delete}
use zodia.Sql.Insert.{insert_or_ignore-affected, any-insert_or_ignore, count-insert_or_ignore}
use zodia.Store.{DocAffirm, Db}
use zodia.Store.Docs.{
  is_vote, same_vote, vote_row, doc_affirm_rev, doc_retract_affirm, doc_has_affirmed,
  doc_affirm_count,
}

-- Affirming answers whether the vote is new, adds one to the count of its revision exactly then
-- and nothing to any other count, and leaves the voter as having affirmed it.
doc_affirm_rev_lem :
    (db : Db) (k : Bytes) (rev voter now : ℕ) (j : Bytes) (other : ℕ)
    → ((doc_affirm_rev db k rev voter now).1 ≡ not (doc_has_affirmed db k rev voter))
      × ((doc_has_affirmed (doc_affirm_rev db k rev voter now).0 k rev voter ≡ true)
          × (doc_affirm_count (doc_affirm_rev db k rev voter now).0 j other
              ≡ doc_affirm_count db j other
                + (if not (doc_has_affirmed db k rev voter) && (k == j && rev == other)
                    then 1
                    else 0)))
unfolding doc_affirm_rev doc_has_affirmed doc_affirm_count
doc_affirm_rev_lem db k rev voter now j other =
    let row = vote_row k rev voter now in
    let new = insert_or_ignore-affected same_vote row db.doc_affirms in
    (
      new,
      (
        ground (
          arith,
          any-insert_or_ignore same_vote (is_vote k rev voter) row db.doc_affirms,
          eq_refl k,
          eq_refl rev,
          eq_refl voter,
        ),
        ground (
          arith,
          new,
          count-insert_or_ignore same_vote (λ r. r.interp_key == j && r.target_rev == other) row
              db.doc_affirms,
        ),
      ),
    )

hit_length : {A : Type 0} (p : A → Bool) (t : List A) → ltb 0 (length (select p t)) ≡ any p t
unfolding select
hit_length p [] = refl
hit_length p (r ∷ t) = ground (arith, hit_length p t)

gone : {A : Type 0} (p : A → Bool) (t : List A) → any p (select (λ r. not (p r)) t) ≡ false
unfolding select
gone p [] = refl
gone p (r ∷ t) = ground (arith, gone p t)

stays :
    (k : Bytes) (rev voter : ℕ) (j : Bytes) (other someone : ℕ) (t : List DocAffirm)
    → (k == j && (rev == other && voter == someone)) ≡ false
    → any (is_vote j other someone) (select (λ r. not (is_vote k rev voter r)) t)
      ≡ any (is_vote j other someone) t
unfolding select
stays k rev voter j other someone [] h = refl
stays k rev voter j other someone (r ∷ t) h = ground (
  arith,
  stays k rev voter j other someone t h,
  h,
  eq_iff r.interp_key k,
  eq_iff r.interp_key j,
  eq_iff k j,
  eq_iff r.target_rev rev,
  eq_iff r.target_rev other,
  eq_iff rev other,
  eq_iff r.voter_pk voter,
  eq_iff r.voter_pk someone,
  eq_iff voter someone,
)

-- Retracting answers whether there was a vote to retract, leaves the voter as not having affirmed
-- the revision, and leaves every other vote in place.
doc_retract_affirm_lem :
    (db : Db) (k : Bytes) (rev voter : ℕ) (j : Bytes) (other someone : ℕ)
    → ((doc_retract_affirm db k rev voter).1 ≡ doc_has_affirmed db k rev voter)
      × (doc_has_affirmed (doc_retract_affirm db k rev voter).0 j other someone ≡ (
          if k == j && (rev == other && voter == someone)
          then false
          else doc_has_affirmed db j other someone))
unfolding doc_retract_affirm doc_has_affirmed delete
doc_retract_affirm_lem db k rev voter j other someone = (
  hit_length (is_vote k rev voter) db.doc_affirms,
  elim (Bool-cases (k == j && (rev == other && voter == someone))) [
    | inr h ↦ rw h (stays k rev voter j other someone db.doc_affirms h)
    | inl h ↦
        let at_key = (eq_iff k j).0 (ground (arith, h)) in
        let at_rev = (eq_iff rev other).0 (ground (arith, h)) in
        let by = (eq_iff voter someone).0 (ground (arith, h)) in
        rw h (rw (← at_key, ← at_rev, ← by) (gone (is_vote k rev voter) db.doc_affirms))
  ],
)
