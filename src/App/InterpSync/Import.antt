-- ===== src/App/InterpSync/Import.antt =====
-- What an import leaves: each accepted text held once, and nothing for a second import to do.
use zodia.Prelude.{
  ℕ, suc, ◌+◌, ◌≡◌, refl, ◌∙◌, inl, inr, Bool, true, not, ◌&&◌, ◌||◌, List, [], ◌∷◌, ◌++◌, length,
  length-append, number_of, All, any, arith, ◌==◌, nat_eq, eq_refl, Bool-cases, if◌then◌else◌,
}
use zodia.Sql.Rows.{any-append}
use zodia.Sql.{insert_or_ignore}
use zodia.Store.{Primitives, Interp, Db, derive_log_id}
use zodia.Store.Interps.{insert_interp, insert_received, received_row}
use zodia.Store.Interps.Gate.{accepts}
use zodia.Channel.{InterpEntry}
use zodia.App.InterpSync.{import_entry, import_interps}

module _ (c : Primitives) where
  -- The store has the text of the entry, under whatever author.
  abbrev pub holds : Db → InterpEntry → Bool
  holds db e = any (λ r. r.log_id == derive_log_id c e.interp_key e.body) db.interpretations

  -- The entry's signature has 64 bytes, its key is accepted and the signature verifies.
  abbrev pub is_valid : InterpEntry → Bool
  is_valid e =
      length e.author_sig == 64
      && accepts c e.interp_key e.body e.author_pk (number_of e.author_sig)

  row_of : InterpEntry → ℕ → Interp
  row_of e now = received_row c e.interp_key e.body e.author_pk (number_of e.author_sig) now

  -- A valid entry whose text the store has not is added as one row; nothing else changes anything.
  import_entry_lem :
      (db : Db) (e : InterpEntry) (now : ℕ)
      → import_entry c db e now ≡ (
          if is_valid e && not (holds db e)
          then (record db { interpretations = db.interpretations ++ row_of e now ∷ [] }, 1)
          else (db, 0))
  unfolding import_entry insert_received insert_interp insert_or_ignore row_of
  import_entry_lem db e now = elim (Bool-cases (length e.author_sig == 64)) [
    | inr f ↦ rw f refl
    | inl f ↦ elim (Bool-cases (c.is_key e.author_pk)) [
      | inr g ↦ rw (f, g) refl
      | inl g ↦
          elim (Bool-cases (
            c.verify_strict e.author_pk (derive_log_id c e.interp_key e.body)
              (number_of e.author_sig))) [
                | inr h ↦ rw (f, g, h) refl
                | inl h ↦ elim (Bool-cases (holds db e)) [
                  | inl i ↦ rw (f, g, h, i) refl
                  | inr i ↦ rw (f, g, h, i) refl
                ]
              ]
    ]
  ]

  module _ (db : Db) (e : InterpEntry) (now : ℕ) where
    import_entry-any :
        (q : Interp → Bool)
        → any q db.interpretations ≡ true
        → any q (import_entry c db e now).0.interpretations ≡ true
    import_entry-any q h =
        rw (import_entry_lem db e now)
          (ground (arith, h, any-append q db.interpretations (row_of e now ∷ [])))

    import_entry-length :
        length (import_entry c db e now).0.interpretations
        ≡ length db.interpretations + (import_entry c db e now).1
    import_entry-length =
        rw (import_entry_lem db e now)
          (ground (arith, length-append db.interpretations (row_of e now ∷ [])))

    import_entry-holds : is_valid e ≡ true → holds (import_entry c db e now).0 e ≡ true
    unfolding row_of
    import_entry-holds h = rw (import_entry_lem db e now) (
        ground (
          arith,
          h,
          any-append (λ r. r.log_id == derive_log_id c e.interp_key e.body) db.interpretations
              (row_of e now ∷ []),
          eq_refl (derive_log_id c e.interp_key e.body),
        ))

  -- There is nothing to import of the entry.
  abbrev is_settled : Db → InterpEntry → Bool
  is_settled db e = not (is_valid e) || holds db e

  import_entry-settled :
      (db : Db) (e : InterpEntry) (now : ℕ)
      → is_settled db e ≡ true
      → import_entry c db e now ≡ (db, 0)
  import_entry-settled db e now h =
      import_entry_lem db e now ∙ elim (Bool-cases (is_valid e && not (holds db e))) [
        | inl f ↦ absurd (ground (arith, f, h))
        | inr f ↦ rw f refl
      ]

  -- What the store has, an import leaves.
  import_interps-any :
      (db : Db) (es : List InterpEntry) (clock : ℕ → ℕ) (q : Interp → Bool)
      → any q db.interpretations ≡ true
      → any q (import_interps c db es clock).0.interpretations ≡ true
  unfolding import_interps
  import_interps-any db [] clock q h = h
  import_interps-any db (e ∷ es) clock q h =
      import_interps-any (import_entry c db e (clock 0)).0 es (λ i. clock (suc i)) q
        (import_entry-any db e (clock 0) q h)

  -- The count is the number of rows that an import adds.
  pub import_interps-length :
      (db : Db) (es : List InterpEntry) (clock : ℕ → ℕ)
      → length (import_interps c db es clock).0.interpretations
        ≡ length db.interpretations + (import_interps c db es clock).1
  unfolding import_interps
  import_interps-length db [] clock = omega arith
  import_interps-length db (e ∷ es) clock = omega (
    arith,
    import_entry-length db e (clock 0),
    import_interps-length (import_entry c db e (clock 0)).0 es (λ i. clock (suc i)),
  )

  -- Every valid entry is held afterwards.
  pub import_interps-holds :
      (db : Db) (es : List InterpEntry) (clock : ℕ → ℕ)
      → All (λ e. is_valid e ≡ true → holds (import_interps c db es clock).0 e ≡ true) es
  unfolding import_interps
  import_interps-holds db [] clock = tt
  import_interps-holds db (e ∷ es) clock = (
    (λ h.
        import_interps-any (import_entry c db e (clock 0)).0 es (λ i. clock (suc i)) _
          (import_entry-holds db e (clock 0) h)),
    import_interps-holds (import_entry c db e (clock 0)).0 es (λ i. clock (suc i)),
  )

  settled :
      (db : Db) (es : List InterpEntry)
      → All (λ e. is_valid e ≡ true → holds db e ≡ true) es
      → All (λ e. is_settled db e ≡ true) es
  settled db [] h = tt
  settled db (e ∷ es) h = (
    elim (Bool-cases (is_valid e)) [ inl f ↦ ground (arith, h.0 f) | inr f ↦ ground (arith, f) ],
    settled db es h.1,
  )

  import_interps-settled :
      (db : Db) (es : List InterpEntry) (clock : ℕ → ℕ)
      → All (λ e. is_settled db e ≡ true) es
      → import_interps c db es clock ≡ (db, 0)
  unfolding import_interps
  import_interps-settled db [] clock h = refl
  import_interps-settled db (e ∷ es) clock h =
      rw
        (
          import_interps,
          import_entry-settled db e (clock 0) h.0,
          import_interps-settled db es (λ i. clock (suc i)) h.1,
        )
        refl

  -- The same entries a second time, whenever they come, change nothing and count nothing.
  pub import_interps_again :
      (db : Db) (es : List InterpEntry) (clock later : ℕ → ℕ)
      → import_interps c (import_interps c db es clock).0 es later
        ≡ ((import_interps c db es clock).0, 0)
  import_interps_again db es clock later =
      import_interps-settled (import_interps c db es clock).0 es later
        (settled (import_interps c db es clock).0 es (import_interps-holds db es clock))
