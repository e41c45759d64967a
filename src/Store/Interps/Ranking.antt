-- ===== src/Store/Interps/Ranking.antt =====
-- Which interpretation is shown for a key: `top_body`, `all_for_key` and `community_for_keys`.
use mathlib.Core.List.{Memᴰ}
use mathlib.Core.List.Memᴰ.{head, tail}
use zodia.Prelude.{
  ℕ, zero, suc, ◌≡◌, ap, ◌≢◌, ◌≤◌, ◌⊎◌, inl, inr, refl, Bool, true, false, List, [], ◌∷◌, Option,
  none, some, Bytes, All, any, arith, select, length, length-take-le, map, leb, take, ◌==◌,
  bytes_instance, bytes_eq_iff, Bool-cases, Option-cases,
}
use zodia.Core.Interp.{InterpKey, to_sig}
use zodia.Sql.{order_by}
use zodia.Sql.Rows.{All-otherwise, All-Mem, All-imp, All-both, All-select, select-passes}
use zodia.Sql.Order.{Ordered, Ordered-order_by, All-order_by, All-take, Ordered-take, All-unordered}
use zodia.Store.{Interp, Db}
use zodia.Store.Interps.{affirmation_count}
use zodia.Store.Interps.Queries.{
  ranks_before, first, shown_for, top_row, community_rows, shared_for, all_for_key, to_interp_row,
  InterpRow, is_signed,
}

module _ (db : Db) where
  total : (a b : Interp) → ranks_before db a b ≡ false → ranks_before db b a ≡ true
  total a b h = ground arith

  trans :
      (a b d : Interp)
      → ranks_before db a b ≡ true
      → ranks_before db b d ≡ true
      → ranks_before db a d ≡ true
  trans a b d h k = ground arith

-- Community goes ahead of baseline, and then at least as many affirmations.
abbrev pub Precedes : Db → Interp → Interp → Type 0
Precedes db r s =
    ((r.is_baseline ≡ false) × (s.is_baseline ≡ true))
    ⊎ ((r.is_baseline ≡ s.is_baseline)
        × (affirmation_count db s.log_id ≤ affirmation_count db r.log_id))

-- The row is of another key or revoked.
abbrev pub IsHidden : Bytes → Interp → Type 0
IsHidden key r = (r.interp_key ≢ key) ⊎ (r.revoked ≡ true)

-- What `top_row` may answer for a key.
abbrev pub IsBest : Db → Bytes → Option Interp → Type 0
IsBest db key none = All (IsHidden key) db.interpretations
IsBest db key (some r) =
    Memᴰ r db.interpretations
    × ((r.interp_key ≡ key)
        × ((r.revoked ≡ false) × All (λ s. IsHidden key s ⊎ Precedes db r s) db.interpretations))

ranks_before-Precedes : (db : Db) (r s : Interp) → ranks_before db r s ≡ true → Precedes db r s
ranks_before-Precedes db r s h = elim (Bool-cases r.is_baseline) [
  | inl e ↦ elim (Bool-cases s.is_baseline) [
    | inl f ↦ inr (rw (e, f) refl, ground (arith, e, f, h))
    | inr f ↦ absurd (ground (arith, e, f, h))
  ]
  | inr e ↦ elim (Bool-cases s.is_baseline) [
    | inl f ↦ inl (e, f)
    | inr f ↦ inr (rw (e, f) refl, ground (arith, e, f, h))
  ]
]

shown_for-IsHidden : (key : Bytes) (r : Interp) → shown_for key r ≡ false → IsHidden key r
shown_for-IsHidden key r h = elim (Bool-cases (r.interp_key == key)) [
  | inl e ↦ inr (ground (arith, e, h))
  | inr e ↦ inl (λ same. ground (arith, e, (bytes_eq_iff r.interp_key key).1 same))
]

module _ (db : Db) (key : InterpKey) where
  shown : List Interp
  shown = select (shown_for (to_sig key)) db.interpretations

  ranked : List Interp
  ranked = order_by (ranks_before db) shown

  ranked_sound : All (λ r. (shown_for (to_sig key) r ≡ true) × Memᴰ r db.interpretations) ranked
  unfolding ranked shown
  ranked_sound = All-order_by (ranks_before db) _ shown (
      All-both _ _ shown (select-passes (shown_for (to_sig key)) db.interpretations) (
        All-select (λ r. Memᴰ r db.interpretations) (shown_for (to_sig key)) db.interpretations
          (All-Mem db.interpretations)))

  everywhere :
      (P : Interp → Type 0)
      → All P ranked
      → All (λ r. IsHidden (to_sig key) r ⊎ P r) db.interpretations
  unfolding ranked shown
  everywhere P a =
      All-imp (λ r. (shown_for (to_sig key) r ≡ false) ⊎ P r) _
        (λ r h. elim h [ inl e ↦ inl (shown_for-IsHidden (to_sig key) r e) | inr p ↦ inr p ])
        db.interpretations
        (All-otherwise (shown_for (to_sig key)) P db.interpretations
          (All-unordered (ranks_before db) P shown a))

  first-IsBest :
      (rs : List Interp)
      → rs ≡ ranked
      → Ordered (ranks_before db) rs
      → IsBest db (to_sig key) (first rs)
  first-IsBest [] h o =
      All-imp (λ r. IsHidden (to_sig key) r ⊎ ⊥) (IsHidden (to_sig key))
        (λ r d. elim d [ inl e ↦ e | inr e ↦ absurd e ]) db.interpretations
        (everywhere (λ r. ⊥) (rw (← h) tt))
  first-IsBest (r ∷ rs) h o =
      let sound : All (λ r. (shown_for (to_sig key) r ≡ true) × Memᴰ r db.interpretations)
          (r ∷ rs) =
        rw (← h) at ranked_sound in
      (
        sound.0.1,
        (
          (bytes_eq_iff r.interp_key (to_sig key)).0 (ground (arith, sound.0.0)),
          (
            ground (arith, sound.0.0),
            everywhere (Precedes db r) (
                rw (← h) (
                  ranks_before-Precedes db r r (ground arith),
                  All-imp (λ s. ranks_before db r s ≡ true) (Precedes db r)
                      (λ s e. ranks_before-Precedes db r s e) rs o.0,
                )),
          ),
        ),
      )

  -- The row behind `top_body` is one of the store's for the key, not revoked, and every other row of
  -- the key that is not revoked is a baseline text where it is a community text, or is of its kind
  -- and has no more affirmations; where there is none, every row of the key is revoked.
  pub top_row-IsBest : IsBest db (to_sig key) (top_row db key)
  unfolding top_row ranked shown
  top_row-IsBest =
      first-IsBest ranked refl (Ordered-order_by (ranks_before db) (total db) (trans db) shown)

-- What the list for a key opens with, where a row is shown.
abbrev pub first_row : Db → Option Interp → Option InterpRow
first_row db none = none
first_row db (some r) = some (to_interp_row db r)

-- The list for a key opens with the row behind `top_body`.
pub first-all_for_key :
    (db : Db) (key : InterpKey) → first (all_for_key db key) ≡ first_row db (top_row db key)
unfolding top_row all_for_key
first-all_for_key db key =
    first-map (order_by (ranks_before db) (select (shown_for (to_sig key)) db.interpretations))
  where
    first-map : (rs : List Interp) → first (map (to_interp_row db) rs) ≡ first_row db (first rs)
    first-map [] = refl
    first-map (r ∷ rs) = refl

-- A signed and unrevoked community row of one of the keys, and a row that is none.
abbrev pub IsShared : List Bytes → Interp → Type 0
IsShared keys r =
    (r.is_baseline ≡ false)
    × ((r.revoked ≡ false) × (Memᴰ r.interp_key keys × ((sig : ℕ) × (r.author_sig ≡ some sig))))

abbrev pub IsWithheld : List Bytes → Interp → Type 0
IsWithheld keys r =
    (r.is_baseline ≡ true)
    ⊎ ((r.revoked ≡ true) ⊎ ((¬ Memᴰ r.interp_key keys) ⊎ (r.author_sig ≡ none)))

any-Mem : (x : Bytes) (keys : List Bytes) → any (λ k. x == k) keys ≡ true → Memᴰ x keys
any-Mem x [] h = cc
any-Mem x (k ∷ keys) h = elim (Bool-cases (x == k)) [
  | inl e ↦ head ((bytes_eq_iff x k).0 e)
  | inr e ↦ tail (any-Mem x keys (ground (arith, e, h)))
]

Mem-any : (x : Bytes) (keys : List Bytes) → Memᴰ x keys → any (λ k. x == k) keys ≡ true
Mem-any x [] m = elim m [ ]
Mem-any x (k ∷ keys) (head e) = ground (arith, (bytes_eq_iff x k).1 e)
Mem-any x (k ∷ keys) (tail m) = ground (arith, Mem-any x keys m)

signed_by : (r : Interp) → is_signed r ≡ true → (sig : ℕ) × (r.author_sig ≡ some sig)
signed_by r h = elim (Option-cases r.author_sig) [
  | inl e ↦ absurd (ground (arith, e, h))
  | inr found ↦ found
]

shared_for-IsShared : (keys : List Bytes) (r : Interp) → shared_for keys r ≡ true → IsShared keys r
shared_for-IsShared keys r h = (
  ground (arith, h),
  (
    ground (arith, h),
    (any-Mem r.interp_key keys (ground (arith, h)), signed_by r (ground (arith, h))),
  ),
)

shared_for-IsWithheld :
    (keys : List Bytes) (r : Interp) → shared_for keys r ≡ false → IsWithheld keys r
shared_for-IsWithheld keys r h = elim (Bool-cases r.is_baseline) [
  | inl a ↦ inl a
  | inr a ↦ elim (Bool-cases r.revoked) [
    | inl b ↦ inr (inl b)
    | inr b ↦ elim (Option-cases r.author_sig) [
      | inl d ↦ inr (inr (inr d))
      | inr (sig, d) ↦
          inr (inr (inl (λ m. ground (arith, a, b, d, h, Mem-any r.interp_key keys m))))
    ]
  ]
]

take-full : {A : Type 0} (n : ℕ) (xs : List A) → (length (take n xs) ≡ n) ⊎ (take n xs ≡ xs)
take-full zero xs = inl refl
take-full (suc n) [] = inr refl
take-full (suc n) (x ∷ xs) = elim (take-full n xs) [
  | inl e ↦ inl (omega (arith, e))
  | inr e ↦ inr (ap (λ ys. x ∷ ys) e)
]

module _ (db : Db) (keys : List Bytes) (limit : ℕ) where
  more_affirmed : Interp → Interp → Bool
  more_affirmed a b = leb (affirmation_count db b.log_id) (affirmation_count db a.log_id)

  all_rows : List Interp
  unfolding more_affirmed
  all_rows = order_by more_affirmed (select (shared_for keys) db.interpretations)

  all_rows_complete :
      (rows : List Interp)
      → rows ≡ all_rows
      → All (λ r. IsWithheld keys r ⊎ Memᴰ r rows) db.interpretations
  unfolding all_rows
  all_rows_complete rows e =
      All-imp (λ r. (shared_for keys r ≡ false) ⊎ Memᴰ r rows) _
        (λ r d. elim d [ inl h ↦ inl (shared_for-IsWithheld keys r h) | inr m ↦ inr m ])
        db.interpretations
        (All-otherwise (shared_for keys) (λ r. Memᴰ r rows) db.interpretations
          (All-unordered more_affirmed (λ r. Memᴰ r rows) _ (rw (← e) (All-Mem rows))))

  -- The rows shared for a list of keys are at most `limit`, each a signed and unrevoked community
  -- row of one of the keys, in descending order of their affirmations; where they are fewer than
  -- `limit`, every other row of the store is none of these.
  pub community_rows_lem :
      (length (community_rows db keys limit) ≤ limit)
      × (All (IsShared keys) (community_rows db keys limit)
          × (Ordered
                (λ a b. leb (affirmation_count db b.log_id) (affirmation_count db a.log_id))
                (community_rows db keys limit)
              × ((length (community_rows db keys limit) ≡ limit)
                  ⊎ All
                      (λ r. IsWithheld keys r ⊎ Memᴰ r (community_rows db keys limit))
                      db.interpretations)))
  unfolding community_rows more_affirmed all_rows
  community_rows_lem = (
    length-take-le limit _,
    (
      All-imp (λ r. shared_for keys r ≡ true) (IsShared keys) (shared_for-IsShared keys) _
          (All-take _ limit _
            (All-order_by more_affirmed _ _ (select-passes (shared_for keys) db.interpretations))),
      (
        Ordered-take more_affirmed limit _
            (Ordered-order_by more_affirmed (λ a b h. ground arith) (λ a b d h k. ground arith) _),
        elim (take-full limit all_rows) [
          | inl e ↦ inl e
          | inr e ↦ inr (all_rows_complete (community_rows db keys limit) e)
        ],
      ),
    ),
  )
