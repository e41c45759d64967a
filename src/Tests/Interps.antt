-- ===== src/Tests/Interps.antt =====
-- Tests of interpretations, affirmations and revocations.
use zodia.Prelude.{
  ◌+◌, ◌≤◌, ◌≡◌, ◌⊎◌, refl, true, false, not, ◌&&◌, if◌then◌else◌, [], ◌∷◌, length, All, any, leb,
  ◌==◌, nat_eq,
}
use zodia.Sql.Order.{Ordered}
use zodia.Store.{Db, new_db, derive_log_id}
use zodia.Store.Interps.{
  insert_received, ok, err, invalid_signature, affirm, affirmation_count, revoke_interp,
}
use zodia.Store.Interps.Queries.{top_row, community_rows, community_for_keys}
use zodia.Store.Interps.WellFormed.{IsWellFormed, run, run-IsWellFormed, signed, scrub}
use zodia.Store.Interps.Gate.{
  accepts, insert_received_lem, IsAccepted, community_for_keys-IsAccepted,
}
use mathlib.Core.List.{Memᴰ}
use zodia.Store.Interps.Ranking.{IsShared, IsWithheld, IsBest, top_row-IsBest, community_rows_lem}
use zodia.Store.Interps.Revocation.{is_live, run-revoke_interp, revoke_interp-refused, affirm_lem}
use zodia.Tests.{toy, key, sig, hello, hello_id, calls}

abbrev db : Db
db = run toy new_db calls

run-IsWellFormed_example : IsWellFormed toy (run toy new_db calls)
run-IsWellFormed_example = run-IsWellFormed toy calls

community_for_keys-IsAccepted_example :
    All (IsAccepted toy) (community_for_keys (run toy new_db calls) (sig ∷ []) 10)
unfolding zodia.Store.Interps.signing_payload zodia.Core.Interp.to_sig
community_for_keys-IsAccepted_example =
    community_for_keys-IsAccepted toy calls ((refl, refl), (tt, (tt, (tt, (tt, tt))))) (sig ∷ []) 10

run-revoke_interp_example :
    any
      (is_live hello_id)
      (run toy
        (revoke_interp db hello_id 1).0
        (signed key hello 1 (1 + hello_id) 200 ∷ scrub ∷ [])).interpretations
    ≡ false
unfolding run zodia.Store.Interps.insert_response_from_op affirm insert_received
    zodia.Store.Interps.insert_interpretation zodia.Store.Interps.insert_signed
    zodia.Core.Interp.to_sig
run-revoke_interp_example =
    run-revoke_interp toy db hello_id 1 (signed key hello 1 (1 + hello_id) 200 ∷ scrub ∷ [])
      (run-IsWellFormed toy calls) refl

revoke_interp-refused_example : revoke_interp db hello_id 2 ≡ (db, false)
unfolding run zodia.Store.Interps.insert_response_from_op affirm insert_received
    zodia.Store.Interps.insert_interpretation zodia.Store.Interps.insert_signed
    zodia.Core.Interp.to_sig
revoke_interp-refused_example = revoke_interp-refused db hello_id 2 refl

top_row-IsBest_example : IsBest db sig (top_row db key)
unfolding zodia.Core.Interp.to_sig
top_row-IsBest_example = top_row-IsBest db key

community_rows_lem_example :
    (length (community_rows db (sig ∷ []) 10) ≤ 10)
    × (All (IsShared (sig ∷ [])) (community_rows db (sig ∷ []) 10)
        × (Ordered
              (λ a b. leb (affirmation_count db b.log_id) (affirmation_count db a.log_id))
              (community_rows db (sig ∷ []) 10)
            × ((length (community_rows db (sig ∷ []) 10) ≡ 10)
                ⊎ All
                    (λ r. IsWithheld (sig ∷ []) r ⊎ Memᴰ r (community_rows db (sig ∷ []) 10))
                    db.interpretations)))
community_rows_lem_example = community_rows_lem db (sig ∷ []) 10

insert_received_lem_example :
    ((accepts toy sig hello 3 (3 + hello_id) ≡ false)
      × (insert_received toy db sig hello 3 (3 + hello_id) 120 ≡ (db, err invalid_signature)))
    ⊎ ((accepts toy sig hello 3 (3 + hello_id) ≡ true)
        × (((insert_received toy db sig hello 3 (3 + hello_id) 120).1
              ≡ ok (not (any (λ r. r.log_id == derive_log_id toy sig hello) db.interpretations)))
            × (any
                  (λ r. r.log_id == derive_log_id toy sig hello)
                  (insert_received toy db sig hello 3 (3 + hello_id) 120).0.interpretations
                ≡ true)))
insert_received_lem_example = insert_received_lem toy db sig hello 3 (3 + hello_id) 120

affirm_lem_example :
    (affirmation_count (affirm toy db hello_id 9 130).0 hello_id
      ≡ affirmation_count db hello_id
        + (if (affirm toy db hello_id 9 130).1 && hello_id == hello_id then 1 else 0))
    × (affirm toy (affirm toy db hello_id 9 130).0 hello_id 9 140
        ≡ ((affirm toy db hello_id 9 130).0, false))
affirm_lem_example = affirm_lem toy db hello_id 9 130 140 hello_id
