-- ===== src/Sync/Prune.antt =====
-- sync/src/lib.rs: pruning of old operations, on the table `operations_v1`.
use zodia.Prelude.{
  ℕ, ◌≡◌, refl, sym, ap, ◌∙◌, Bool, true, false, not, ◌&&◌, ◌||◌, Option, none, some, List, [], ◌∷◌,
  Bytes, ◌==◌, nat_eq, eq_iff, eq_refl, any, ltb, select, length, if◌then◌else◌, arith, All,
  Bool-cases, Option-cases, inl, inr,
}
use zodia.Sql.{delete}
use zodia.Sql.Rows.{select-agree}
use zodia.Sql.Insert.{Unique}
use zodia.Ops.{ZodiaExtensions, extract}

pub record OperationRow : Type 0 where
  pub hash : ℕ
  pub verifying_key : ℕ
  pub header : Bytes

module _ {S : Type 0} (decode_cbor : Bytes → Option (ZodiaExtensions S)) where
  -- The hashes of the old operations; `none` where a header is not decoded.
  unfoldable pub stale_hashes : List OperationRow → ℕ → Option (List ℕ)
  unfolding extract
  stale_hashes [] cutoff = some []
  stale_hashes (r ∷ rs) cutoff =
      let rest = stale_hashes rs cutoff in
      elim (decode_cbor r.header) [
        | none ↦ none
        | some extensions ↦ elim (extract extensions) [
          | none ↦ rest
          | some timestamp ↦ elim rest [
            | none ↦ none
            | some hashes ↦ some (if ltb timestamp cutoff then r.hash ∷ hashes else hashes)
          ]
        ]
      ]

  unfoldable pub pruned : List OperationRow → Option (List ℕ) → List OperationRow × Option ℕ
  unfolding delete
  pruned rows none = (rows, none)
  pruned rows (some []) = (rows, some 0)
  pruned rows (some (h ∷ hashes)) =
      let (left, affected) = delete (λ r. any (λ x. x == r.hash) (h ∷ hashes)) rows in
      (left, some affected)

  -- The rows that stay, and how many were deleted; `none` is an error.
  unfoldable pub prune_older_than : List OperationRow → ℕ → ℕ → List OperationRow × Option ℕ
  unfolding stale_hashes select
  prune_older_than rows keep cutoff =
      pruned rows (stale_hashes (select (λ r. not (r.verifying_key == keep)) rows) cutoff)

  -- By another author, and stamped before the cutoff.
  abbrev is_old : ℕ → Option (ZodiaExtensions S) → Bool
  unfolding extract
  is_old cutoff none = false
  is_old cutoff (some extensions) = elim (extract extensions) [
    | none ↦ false
    | some timestamp ↦ ltb timestamp cutoff
  ]

  unfoldable pub is_prunable : ℕ → ℕ → OperationRow → Bool
  unfolding is_old
  is_prunable keep cutoff r = not (r.verifying_key == keep) && is_old cutoff (decode_cbor r.header)

  abbrev pub same_hash : OperationRow → OperationRow → Bool
  same_hash a b = a.hash == b.hash

  abbrev pub Decodes : OperationRow → Type 0
  Decodes r = (extensions : ZodiaExtensions S) × (decode_cbor r.header ≡ some extensions)

  -- The hashes found are those of the rows that are old.
  stale_found :
      (rows : List OperationRow) (keep cutoff : ℕ)
      → All Decodes rows
      → (hashes : List ℕ) × (stale_hashes (select (λ r. not (r.verifying_key == keep)) rows) cutoff
          ≡ some hashes)
        × ((h : ℕ)
            → any (λ x. x == h) hashes ≡ any (λ r. is_prunable keep cutoff r && r.hash == h) rows)
  unfolding stale_hashes select is_prunable is_old
  stale_found [] keep cutoff d = ([], refl, λ h. refl)
  stale_found (r ∷ rs) keep cutoff ((ext, e), d) =
      let (hashes, f, g) = stale_found rs keep cutoff d in
      elim (Bool-cases (r.verifying_key == keep)) [
        | inl own ↦ (hashes, rw (stale_hashes, select, own) f, λ h. rw (is_prunable, own) (g h))
        | inr other ↦ elim (Option-cases (extract ext)) [
          | inl circle ↦ (
            hashes,
            rw (select, other, stale_hashes, e, circle) f,
            λ h. rw (is_prunable, other, is_old, e, circle) (g h),
          )
          | inr (time, stamped) ↦ elim (Bool-cases (ltb time cutoff)) [
            | inl old ↦ (
              r.hash ∷ hashes,
              rw (select, other, stale_hashes, e, stamped, f, old) refl,
              λ h.
                  rw (is_prunable, other, is_old, e, stamped, old)
                    (ap (λ b. (r.hash == h) || b) (g h)),
            )
            | inr young ↦ (
              hashes,
              rw (select, other, stale_hashes, e, stamped, f, young) refl,
              λ h. rw (is_prunable, other, is_old, e, stamped, young) (g h),
            )
          ]
        ]
      ]

  -- With one row for each hash, deleting by hash deletes the rows that are prunable.
  hit_iff :
      (rows : List OperationRow) (keep cutoff : ℕ) (r : OperationRow)
      → any (λ x. same_hash r x) rows ≡ false
      → any (λ x. is_prunable keep cutoff x && x.hash == r.hash) rows ≡ false
  hit_iff [] keep cutoff r h = refl
  hit_iff (x ∷ rows) keep cutoff r h =
      ground (arith, hit_iff rows keep cutoff r, h, eq_iff r.hash x.hash, eq_iff x.hash r.hash)

  by_hash-cons :
      (r : OperationRow) (rows xs : List OperationRow) (keep cutoff : ℕ)
      → any (λ x. same_hash r x) xs ≡ false
      → All
          (λ x.
            any (λ y. is_prunable keep cutoff y && y.hash == x.hash) rows
            ≡ is_prunable keep cutoff x)
          xs
      → All
          (λ x.
            any (λ y. is_prunable keep cutoff y && y.hash == x.hash) (r ∷ rows)
            ≡ is_prunable keep cutoff x)
          xs
  by_hash-cons r rows [] keep cutoff h a = tt
  by_hash-cons r rows (x ∷ xs) keep cutoff h (e, a) =
      (ground (arith, h, e), by_hash-cons r rows xs keep cutoff (ground (arith, h)) a)

  by_hash :
      (rows : List OperationRow) (keep cutoff : ℕ)
      → Unique same_hash rows
      → All
          (λ r.
            any (λ x. is_prunable keep cutoff x && x.hash == r.hash) rows
            ≡ is_prunable keep cutoff r)
          rows
  by_hash [] keep cutoff u = tt
  by_hash (r ∷ rows) keep cutoff (apart, u) = (
    ground (arith, hit_iff rows keep cutoff r apart, eq_refl r.hash),
    by_hash-cons r rows rows keep cutoff apart (by_hash rows keep cutoff u),
  )

  untouched :
      (rows : List OperationRow)
      → (select (λ r. true) rows ≡ rows) × (select (λ r. false) rows ≡ [])
  unfolding select
  untouched [] = (refl, refl)
  untouched (r ∷ rows) = (ap (λ rs. r ∷ rs) (untouched rows).0, (untouched rows).1)

  pruned_lem :
      (rows : List OperationRow) (hashes : List ℕ)
      → pruned rows (some hashes) ≡ (
        select (λ r. not (any (λ x. x == r.hash) hashes)) rows,
        some (length (select (λ r. any (λ x. x == r.hash) hashes) rows)),
      )
  unfolding pruned delete
  pruned_lem rows [] =
      let (all, nothing) = untouched rows in
      ap (λ left. (left, some 0)) (sym all)
      ∙ ap (λ gone. (select (λ r. true) rows, some (length gone))) (sym nothing)
  pruned_lem rows (h ∷ hashes) = refl

  agrees :
      (rows : List OperationRow) (p q : OperationRow → Bool)
      → All (λ r. p r ≡ q r) rows
      → All (λ r. not (p r) ≡ not (q r)) rows
  agrees [] p q h = tt
  agrees (r ∷ rows) p q (e, h) = (ap not e, agrees rows p q h)

  found_by :
      (rows : List OperationRow) (p q s : OperationRow → Bool)
      → ((r : OperationRow) → p r ≡ q r)
      → All (λ r. q r ≡ s r) rows
      → All (λ r. p r ≡ s r) rows
  found_by [] p q s f h = tt
  found_by (r ∷ rows) p q s f (e, h) = (f r ∙ e, found_by rows p q s f h)

  -- Where every stored header is decoded and no two operations have one hash: exactly the operations
  -- by other authors that carry a timestamp before the cutoff go, and the answer is their number. The
  -- node's own operations and circle operations, which carry none, stay however old they are.
  pub prune_older_than_lem :
      (rows : List OperationRow) (keep cutoff : ℕ)
      → Unique same_hash rows
      → All Decodes rows
      → prune_older_than rows keep cutoff ≡ (
        select (λ r. not (is_prunable keep cutoff r)) rows,
        some (length (select (is_prunable keep cutoff) rows)),
      )
  unfolding prune_older_than
  prune_older_than_lem rows keep cutoff u d =
      let (hashes, f, g) = stale_found rows keep cutoff d in
      let same : All (λ r. any (λ x. x == r.hash) hashes ≡ is_prunable keep cutoff r) rows =
        found_by rows (λ r. any (λ x. x == r.hash) hashes)
          (λ r. any (λ x. is_prunable keep cutoff x && x.hash == r.hash) rows)
          (is_prunable keep cutoff) (λ r. g r.hash) (by_hash rows keep cutoff u) in
      rw f (
        pruned_lem rows hashes
        ∙ ap (λ left. (left, some (length (select (λ r. any (λ x. x == r.hash) hashes) rows))))
            (select-agree _ _ rows (agrees rows _ _ same))
        ∙ ap (λ gone. (select (λ r. not (is_prunable keep cutoff r)) rows, some (length gone)))
            (select-agree _ _ rows same))
