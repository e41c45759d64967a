-- ===== src/App/Events/Kept.antt =====
-- The rows that state events ask for stay stored under the writes of any later events.
use zodia.Prelude.{
  ℕ, ◌≡◌, refl, ◌∙◌, Bool, true, false, List, [], ◌∷◌, any, find, ◌==◌, nat_eq, arith, All,
  All-append, if◌then◌else◌,
}
use zodia.Pipeline.{StateEvent}
use zodia.Sql.{set_where, update}
use zodia.Sql.Insert.{any-insert_or_ignore}
use zodia.Store.{Primitives, Interp, Affirmation, Db, derive_log_id}
use zodia.Store.Interps.{
  insert_interp, insert_from_op, affirm, insert_response_from_op, revoke_interp, same_log_id,
  op_row, response_row, same_affirmation, affirmation_row, revocable,
}
use zodia.Store.Interps.WellFormed.{
  Write, interpretation, signed, from_op, received, response, affirmation, revocation, scrub, write,
  run,
}
use zodia.App.Events.Tables.{SameTables}
use zodia.App.Events.Writes.{unmuted_writes}
use zodia.App.Events.Refinement.{all_writes}

any-set_where :
    {A : Type 0} (q p : A → Bool) (f : A → A) (same : (r : A) → q (f r) ≡ q r) (t : List A)
    → any q (set_where p f t) ≡ any q t
unfolding set_where
any-set_where q p f same [] = refl
any-set_where q p f same (r ∷ t) = ground (arith, same r, any-set_where q p f same t)

module _ (c : Primitives) where
  -- The row that an event asks for is there, under whatever time and sign of revocation.
  abbrev pub is_stored : Db → StateEvent → Bool
  is_stored db (StateEvent.interp_authored op_id author key body) =
      any (λ r. r.log_id == derive_log_id c key body) db.interpretations
  is_stored db (StateEvent.affirm_added target voter) =
      any (λ a. same_affirmation c a (affirmation_row c target voter 0)) db.affirmations
  is_stored db event = false

  pub is_stored-tables :
      (a b : Db) (event : StateEvent) → SameTables a b → is_stored b event ≡ is_stored a event
  is_stored-tables a b event s = λ i.
      is_stored
        (record a {
          interpretations = s.interpretations_same i;
          affirmations = s.affirmations_same i;
        })
        event

  -- The writes that state events ask for.
  abbrev is_asked : Write → Bool
  is_asked (interpretation key body pk baseline now) = false
  is_asked (signed key body pk sig now) = false
  is_asked (from_op key body pk now) = true
  is_asked (received key body pk sig now) = false
  is_asked (response parent body pk now) = true
  is_asked (affirmation target pk now) = true
  is_asked (revocation log_id pk) = true
  is_asked scrub = false

  texts_kept :
      (q : Interp → Bool) (same : (r : Interp) → q (record r { revoked = true }) ≡ q r) (db : Db)
      (call : Write)
      → is_asked call ≡ true
      → any q db.interpretations ≡ true
      → any q (write c db call).interpretations ≡ true
  unfolding write insert_from_op insert_interp insert_response_from_op affirm revoke_interp update
  texts_kept q same db (from_op key body pk now) a h =
      ground
        (arith, h, any-insert_or_ignore same_log_id q (op_row c key body pk now) db.interpretations)
  texts_kept q same db (response parent body pk now) a h =
      let row =
        response_row c (find (λ r. r.log_id == parent) db.interpretations) parent body pk now in
      ground (arith, h, any-insert_or_ignore same_log_id q row db.interpretations)
  texts_kept q same db (affirmation target pk now) a h = h
  texts_kept q same db (revocation log_id pk) a h =
      any-set_where q (revocable log_id pk) (λ r. record r { revoked = true }) same
        db.interpretations
      ∙ h
  texts_kept q same db (interpretation key body pk baseline now) a h = cc
  texts_kept q same db (signed key body pk sig now) a h = cc
  texts_kept q same db (received key body pk sig now) a h = cc
  texts_kept q same db scrub a h = cc

  hearts_kept :
      (p : Affirmation → Bool) (db : Db) (call : Write)
      → is_asked call ≡ true
      → any p db.affirmations ≡ true
      → any p (write c db call).affirmations ≡ true
  unfolding write insert_from_op insert_interp insert_response_from_op affirm revoke_interp update
  hearts_kept p db (from_op key body pk now) a h = h
  hearts_kept p db (response parent body pk now) a h = h
  hearts_kept p db (affirmation target pk now) a h = ground (
    arith,
    h,
    any-insert_or_ignore (same_affirmation c) p (affirmation_row c target pk now) db.affirmations,
  )
  hearts_kept p db (revocation log_id pk) a h = h
  hearts_kept p db (interpretation key body pk baseline now) a h = cc
  hearts_kept p db (signed key body pk sig now) a h = cc
  hearts_kept p db (received key body pk sig now) a h = cc
  hearts_kept p db scrub a h = cc

  write-is_stored :
      (event : StateEvent) (db : Db) (call : Write)
      → is_asked call ≡ true
      → is_stored db event ≡ true
      → is_stored (write c db call) event ≡ true
  write-is_stored (StateEvent.interp_authored op_id author key body) db call a h =
      texts_kept (λ r. r.log_id == derive_log_id c key body) (λ r. refl) db call a h
  write-is_stored (StateEvent.affirm_added target voter) db call a h =
      hearts_kept (λ r. same_affirmation c r (affirmation_row c target voter 0)) db call a h
  write-is_stored event db call a h = cc

  pub run-is_stored :
      (event : StateEvent) (db : Db) (calls : List Write)
      → All (λ w. is_asked w ≡ true) calls
      → is_stored db event ≡ true
      → is_stored (run c db calls) event ≡ true
  unfolding run
  run-is_stored event db [] a h = h
  run-is_stored event db (w ∷ ws) a h =
      run-is_stored event (write c db w) ws a.1 (write-is_stored event db w a.0 h)

  one_asked :
      (b : Bool) (w : Write)
      → is_asked w ≡ true
      → All (λ w. is_asked w ≡ true) (if b then [] else w ∷ [])
  one_asked true w h = tt
  one_asked false w h = (h, tt)

  unmuted_writes-asked :
      (muted : List ℕ) (event : StateEvent) (now : ℕ)
      → All (λ w. is_asked w ≡ true) (unmuted_writes muted event now)
  unfolding unmuted_writes
  unmuted_writes-asked muted (StateEvent.interp_authored op_id author key body) now =
      one_asked _ _ refl
  unmuted_writes-asked muted (StateEvent.affirm_added target voter) now = one_asked _ _ refl
  unmuted_writes-asked muted (StateEvent.response_added op_id author parent body) now =
      one_asked _ _ refl
  unmuted_writes-asked muted (StateEvent.interp_revoked op_id by target) now = (refl, tt)
  unmuted_writes-asked muted event now = tt

  pub all_writes-asked :
      (muted : List ℕ) (events : List (StateEvent × ℕ))
      → All (λ w. is_asked w ≡ true) (all_writes muted events)
  unfolding all_writes
  all_writes-asked muted [] = tt
  all_writes-asked muted ((event, now) ∷ events) =
      All-append _ (unmuted_writes muted event now) _ (unmuted_writes-asked muted event now)
        (all_writes-asked muted events)
