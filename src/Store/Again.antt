-- ===== src/Store/Again.antt =====
-- Writes that arrive a second time, at whatever time, change nothing and are reported as old.
use zodia.Prelude.{
  ℕ, ◌≡◌, ◌⊎◌, inl, inr, refl, ap, Bool, true, false, Option, none, some, List, [], ◌∷◌, ◌++◌,
  Bytes, any, find, ltb, ◌==◌, nat_eq, eq_refl, eq_iff, arith, Bool-cases,
}
use zodia.Sql.{insert_or_ignore, update, set_where, upsert}
use zodia.Sql.Insert.{insert_or_ignore_again, same_key}
use zodia.Store.{Primitives, Interp, Db, DisplayName}
use zodia.Store.Interps.{
  same_log_id, insert_interp, op_row, insert_from_op, response_row, insert_response_from_op,
  revocable, revoke_interp,
}
use zodia.Store.Interps.Revocation.{untouched}
use zodia.Store.Peers.{name_key, newer_name, set_peer_display_name_if_newer}

insert_interp_again :
    (db : Db) (row row' : Interp)
    → row.log_id ≡ row'.log_id
    → insert_interp (insert_interp db row).0 row' ≡ ((insert_interp db row).0, false)
unfolding insert_interp
insert_interp_again db row row' e =
    ap (λ (p : List Interp × ℕ). (record db { interpretations = p.0 }, ltb 0 p.1))
      (insert_or_ignore_again same_log_id row row' db.interpretations
        (ground (arith, eq_iff row.log_id row'.log_id, e))
        (λ old h.
          ground (arith, eq_iff old.log_id row.log_id, eq_iff old.log_id row'.log_id, e, h)))

pub insert_from_op_again :
    (c : Primitives) (db : Db) (key body : Bytes) (pk now later : ℕ)
    → insert_from_op c (insert_from_op c db key body pk now).0 key body pk later
      ≡ ((insert_from_op c db key body pk now).0, false)
unfolding insert_from_op
insert_from_op_again c db key body pk now later =
    insert_interp_again db (op_row c key body pk now) (op_row c key body pk later) refl

module _ {A : Type 0} (clash : A → A → Bool) (q : A → Bool) (row : A) where
  find-append :
      (t : List A)
      → (find q (t ++ row ∷ []) ≡ find q t)
        ⊎ ((find q t ≡ none) × (find q (t ++ row ∷ []) ≡ some row))
  find-append [] = elim (Bool-cases (q row)) [
    | inl e ↦ inr (refl, rw e refl)
    | inr e ↦ inl (rw e refl)
  ]
  find-append (x ∷ xs) = elim (Bool-cases (q x)) [
    | inl e ↦ inl (rw e refl)
    | inr e ↦ elim (find-append xs) [ inl f ↦ inl (rw e f) | inr (f, g) ↦ inr (rw e f, rw e g) ]
  ]

  find-insert_or_ignore :
      (t : List A)
      → (find q (insert_or_ignore clash row t).0 ≡ find q t)
        ⊎ ((find q t ≡ none) × (find q (insert_or_ignore clash row t).0 ≡ some row))
  unfolding insert_or_ignore
  find-insert_or_ignore t = elim (Bool-cases (any (λ old. clash old row) t)) [
    | inl e ↦ inl (rw e refl)
    | inr e ↦ rw e (find-append t)
  ]

pub insert_response_from_op_again :
    (c : Primitives) (db : Db) (parent : ℕ) (body : Bytes) (pk now later : ℕ)
    → insert_response_from_op c
        (insert_response_from_op c db parent body pk now).0
        parent
        body
        pk
        later
      ≡ ((insert_response_from_op c db parent body pk now).0, false)
unfolding insert_response_from_op insert_interp
insert_response_from_op_again c db parent body pk now later =
    let q : Interp → Bool = λ r. r.log_id == parent in
    let row = response_row c (find q db.interpretations) parent body pk now in
    let db' = (insert_interp db row).0 in
    insert_interp_again db row (response_row c (find q db'.interpretations) parent body pk later) (
      same_id (find q db.interpretations) (find q db'.interpretations)
        (find-insert_or_ignore same_log_id q row db.interpretations))
  where
    same_id :
        (o o' : Option Interp)
        → ((o' ≡ o) ⊎ ((o ≡ none) × (o' ≡ some (response_row c o parent body pk now))))
        → (response_row c o parent body pk now).log_id
          ≡ (response_row c o' parent body pk later).log_id
    same_id none o' (inl e) = rw e refl
    same_id none o' (inr (e, f)) = rw f refl
    same_id (some p) o' (inl e) = rw e refl
    same_id (some p) o' (inr (e, f)) = cc

spent :
    (id author : ℕ) (t : List Interp)
    → any
        (revocable id author)
        (update (revocable id author) (λ r. record r { revoked = true }) t).0
      ≡ false
unfolding update set_where
spent id author [] = refl
spent id author (r ∷ t) = ground (arith, spent id author t)

pub revoke_interp_again :
    (db : Db) (id author : ℕ)
    → revoke_interp (revoke_interp db id author).0 id author
      ≡ ((revoke_interp db id author).0, false)
unfolding revoke_interp
revoke_interp_again db id author =
    ap (λ (p : List Interp × ℕ). (record db { interpretations = p.0 }, ltb 0 p.1))
      (untouched (revocable id author) (λ r. record r { revoked = true })
        (update (revocable id author) (λ r. record r { revoked = true }) db.interpretations).0
        (spent id author db.interpretations))

upsert_again :
    (row : DisplayName) (t : List DisplayName)
    → upsert
        (same_key name_key)
        (newer_name row.name row.updated_at)
        row
        (upsert (same_key name_key) (newer_name row.name row.updated_at) row t).0
      ≡ ((upsert (same_key name_key) (newer_name row.name row.updated_at) row t).0, 0)
unfolding upsert
upsert_again row [] = ground (arith, eq_refl row.peer_pk)
upsert_again row (old ∷ t) = ground (arith, upsert_again row t)

pub set_peer_display_name_if_newer_again :
    (db : Db) (pk : ℕ) (name : Bytes) (ts : ℕ)
    → set_peer_display_name_if_newer (set_peer_display_name_if_newer db pk name ts).0 pk name ts
      ≡ ((set_peer_display_name_if_newer db pk name ts).0, false)
unfolding set_peer_display_name_if_newer
set_peer_display_name_if_newer_again db pk name ts =
    ap (λ (p : List DisplayName × ℕ). (record db { peer_display_names = p.0 }, ltb 0 p.1))
      (upsert_again (record { peer_pk = pk; name = name; updated_at = ts }) db.peer_display_names)
