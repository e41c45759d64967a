-- ===== src/Store/Docs/Rings.antt =====
-- The author rings in `doc_block_authors`: pushes keep one ring for each block, and a rollback
-- pops the newest entry.
use zodia.Prelude.{
  ℕ, suc, ◌+◌, ◌≤◌, ◌<◌, ◌≡◌, refl, ap, ◌∙◌, inl, inr, true, false, not, ◌&&◌, some, List, [], ◌∷◌,
  ◌++◌, Bytes, leb, append_nil, if◌then◌else◌, ◌==◌, nat_eq, bytes_instance, eq_iff, eq_refl,
  Bool-cases, arith, select, map, All, length, length-append,
}
use zodia.Sql.{order_by, delete}
use zodia.Sql.Rows.{select-append, select-all}
use zodia.Sql.Order.{Ordered, order_by-Ordered}
use zodia.Doc.{evict}
use zodia.Doc.Ring.{evict-short, last_entries, evict-last}
use zodia.Store.{BlockAuthor, Db}
use zodia.Store.Docs.{
  BlockEntry, of_block, by_position, to_block_entry, ring_of, block_ring_get, numbered, push_ring,
  block_ring_push, max_position, pop_ring,
}

module _ (k : Bytes) (b : ℕ) where
  numbered-from :
      (m n : ℕ) (es : List BlockEntry)
      → m ≤ n
      → All (λ y. leb m y.position ≡ true) (numbered k b n es)
  unfolding numbered
  numbered-from m n [] h = tt
  numbered-from m n (e ∷ es) h = (ground arith, numbered-from m (suc n) es (omega arith))

  numbered-Ordered : (n : ℕ) (es : List BlockEntry) → Ordered by_position (numbered k b n es)
  unfolding numbered
  numbered-Ordered n [] = tt
  numbered-Ordered n (e ∷ es) =
      (numbered-from n (suc n) es (omega arith), numbered-Ordered (suc n) es)

  numbered-of_block :
      (n : ℕ) (es : List BlockEntry) → All (λ r. of_block k b r ≡ true) (numbered k b n es)
  unfolding numbered
  numbered-of_block n [] = tt
  numbered-of_block n (e ∷ es) =
      (ground (arith, eq_refl k, eq_refl b), numbered-of_block (suc n) es)

  numbered-entries : (n : ℕ) (es : List BlockEntry) → map to_block_entry (numbered k b n es) ≡ es
  unfolding numbered
  numbered-entries n [] = refl
  numbered-entries n (e ∷ es) = ap (λ ys. e ∷ ys) (numbered-entries (suc n) es)

  numbered-elsewhere :
      (k' : Bytes) (b' n : ℕ) (es : List BlockEntry)
      → (k == k' && b == b') ≡ false
      → select (of_block k' b') (numbered k b n es) ≡ []
  unfolding numbered select
  numbered-elsewhere k' b' n [] h = refl
  numbered-elsewhere k' b' n (e ∷ es) h = rw h (numbered-elsewhere k' b' (suc n) es h)

  rest_same : (t : List BlockAuthor) → select (of_block k b) (delete (of_block k b) t).0 ≡ []
  unfolding delete select
  rest_same [] = refl
  rest_same (r ∷ t) = ground (arith, rest_same t)

  rest_elsewhere :
      (k' : Bytes) (b' : ℕ) (t : List BlockAuthor)
      → (k == k' && b == b') ≡ false
      → select (of_block k' b') (delete (of_block k b) t).0 ≡ select (of_block k' b') t
  unfolding delete select
  rest_elsewhere k' b' [] h = refl
  rest_elsewhere k' b' (r ∷ t) h = ground (
    arith,
    rest_elsewhere k' b' t,
    h,
    eq_iff r.interp_key k,
    eq_iff r.interp_key k',
    eq_iff k k',
    eq_iff r.block_id b,
    eq_iff r.block_id b',
    eq_iff b b',
  )

  pub ring_of-numbered :
      (t : List BlockAuthor) (es : List BlockEntry)
      → select (of_block k b) t ≡ []
      → ring_of (t ++ numbered k b 0 es) k b ≡ es
  unfolding ring_of
  ring_of-numbered t es h =
      ap (λ rs. map to_block_entry (order_by by_position rs))
        (select-append (of_block k b) t (numbered k b 0 es)
          ∙ ap (λ rs. rs ++ select (of_block k b) (numbered k b 0 es)) h
          ∙ select-all (of_block k b) (numbered k b 0 es) (numbered-of_block 0 es))
      ∙ ap (map to_block_entry)
          (order_by-Ordered by_position (numbered k b 0 es) (numbered-Ordered 0 es))
      ∙ numbered-entries 0 es

  ring_of-elsewhere :
      (k' : Bytes) (b' : ℕ) (t : List BlockAuthor) (es : List BlockEntry)
      → (k == k' && b == b') ≡ false
      → ring_of ((delete (of_block k b) t).0 ++ numbered k b 0 es) k' b' ≡ ring_of t k' b'
  unfolding ring_of
  ring_of-elsewhere k' b' t es h =
      ap (λ rs. map to_block_entry (order_by by_position rs))
        (select-append (of_block k' b') (delete (of_block k b) t).0 (numbered k b 0 es)
          ∙ rw (rest_elsewhere k' b' t h, numbered-elsewhere k' b' 0 es h) (append_nil _))

-- The rings after a block's rows were replaced by numbered entries.
replaced :
    (t : List BlockAuthor) (k : Bytes) (b : ℕ) (es : List BlockEntry) (k' : Bytes) (b' : ℕ)
    → ring_of ((delete (of_block k b) t).0 ++ numbered k b 0 es) k' b'
      ≡ (if k == k' && b == b' then es else ring_of t k' b')
replaced t k b es k' b' = elim (Bool-cases (k == k' && b == b')) [
  | inr other ↦ rw other (ring_of-elsewhere k b k' b' t es other)
  | inl same ↦
      let same_key = (eq_iff k k').0 (ground (arith, same)) in
      let same_id = (eq_iff b b').0 (ground (arith, same)) in
      rw same (
        rw (← same_key, ← same_id)
          (ring_of-numbered k b (delete (of_block k b) t).0 es (rest_same k b t)))
]

pub block_ring_get-block_ring_push :
    (db : Db) (k : Bytes) (b : ℕ) (entry : BlockEntry) (k' : Bytes) (b' : ℕ)
    → block_ring_get (block_ring_push db k b entry) k' b' ≡ (
        if k == k' && b == b'
        then evict (block_ring_get db k b ++ entry ∷ [])
        else block_ring_get db k' b')
unfolding block_ring_get block_ring_push push_ring
block_ring_get-block_ring_push db k b entry k' b' =
    replaced db.doc_block_authors k b (evict (ring_of db.doc_block_authors k b ++ entry ∷ [])) k' b'

-- After a push the ring of the block is what was there and then the entry, of which the last five
-- are kept, the oldest going first; the rings of all other blocks are as they were.
pub block_ring_push_lem :
    (db : Db) (k : Bytes) (b : ℕ) (entry : BlockEntry) (k' : Bytes) (b' : ℕ)
    → block_ring_get (block_ring_push db k b entry) k' b' ≡ (
        if k == k' && b == b'
        then last_entries 5 (block_ring_get db k b ++ entry ∷ [])
        else block_ring_get db k' b')
block_ring_push_lem db k b entry k' b' =
    block_ring_get-block_ring_push db k b entry k' b'
    ∙ ap (λ es. if k == k' && b == b' then es else block_ring_get db k' b')
        (evict-last (block_ring_get db k b ++ entry ∷ []))

module _ (k : Bytes) (b : ℕ) where
  max-numbered :
      (n : ℕ) (es : List BlockEntry) (e : BlockEntry)
      → max_position (numbered k b n (es ++ e ∷ [])) ≡ some (n + length es)
  unfolding numbered max_position
  max-numbered n [] e = ap some (omega arith)
  max-numbered n (x ∷ es) e = ground (arith, max-numbered (suc n) es e)

  delete-last :
      (m n : ℕ) (es : List BlockEntry) (e : BlockEntry)
      → m ≡ n + length es
      → select (λ r. not (of_block k b r && r.position == m)) (numbered k b n (es ++ e ∷ []))
        ≡ numbered k b n es
  unfolding numbered select
  delete-last m n [] e h = ground (arith, eq_refl k, eq_refl b, eq_refl m, h, eq_iff n m)
  delete-last m n (x ∷ es) e h = ground (arith, delete-last m (suc n) es e, h, eq_iff n m)

  delete-others :
      (m : ℕ) (t : List BlockAuthor)
      → select (λ r. not (of_block k b r && r.position == m)) (delete (of_block k b) t).0
        ≡ (delete (of_block k b) t).0
  unfolding delete select
  delete-others m [] = refl
  delete-others m (r ∷ t) = ground (arith, delete-others m t)

  select-block :
      (t : List BlockAuthor) (es : List BlockEntry)
      → select (of_block k b) ((delete (of_block k b) t).0 ++ numbered k b 0 es) ≡ numbered k b 0 es
  select-block t es =
      select-append (of_block k b) (delete (of_block k b) t).0 (numbered k b 0 es)
      ∙ ap (λ rs. rs ++ select (of_block k b) (numbered k b 0 es)) (rest_same k b t)
      ∙ select-all (of_block k b) (numbered k b 0 es) (numbered-of_block k b 0 es)

  pop-at :
      (t : List BlockAuthor) (m : ℕ)
      → max_position (select (of_block k b) t) ≡ some m
      → pop_ring t k b ≡ select (λ r. not (of_block k b r && r.position == m)) t
  unfolding pop_ring delete
  pop-at t m h = rw (h, pop_ring) refl

  pop-numbered :
      (t : List BlockAuthor) (es : List BlockEntry) (e : BlockEntry)
      → pop_ring ((delete (of_block k b) t).0 ++ numbered k b 0 (es ++ e ∷ [])) k b
        ≡ (delete (of_block k b) t).0 ++ numbered k b 0 es
  pop-numbered t es e =
      pop-at ((delete (of_block k b) t).0 ++ numbered k b 0 (es ++ e ∷ [])) (length es)
        (ap max_position (select-block t (es ++ e ∷ [])) ∙ max-numbered 0 es e ∙ ap some zero_add)
      ∙ select-append _ (delete (of_block k b) t).0 (numbered k b 0 (es ++ e ∷ []))
      ∙ ap
          (λ u.
            u
            ++ select (λ r. not (of_block k b r && r.position == length es))
                (numbered k b 0 (es ++ e ∷ [])))
          (delete-others (length es) t)
      ∙ ap (λ u. (delete (of_block k b) t).0 ++ u) (delete-last (length es) 0 es e (omega arith))
    where
      zero_add : 0 + length es ≡ length es
      zero_add = omega arith

  pop-push :
      (t : List BlockAuthor) (entry : BlockEntry)
      → length (ring_of t k b) < 5
      → pop_ring (push_ring t k b entry) k b
        ≡ (delete (of_block k b) t).0 ++ numbered k b 0 (ring_of t k b)
  unfolding push_ring
  pop-push t entry room =
      ap (λ es. pop_ring ((delete (of_block k b) t).0 ++ numbered k b 0 es) k b)
        (evict-short (ring_of t k b ++ entry ∷ [])
          (omega (arith, room, length-append (ring_of t k b) (entry ∷ []))))
      ∙ pop-numbered t (ring_of t k b) entry

  -- Where the ring had room, popping the block after a push restores its ring, and no other
  -- block's ring is touched by the two.
  pub pop_ring-push_ring :
      (t : List BlockAuthor) (entry : BlockEntry) (k' : Bytes) (b' : ℕ)
      → length (ring_of t k b) < 5
      → ring_of (pop_ring (push_ring t k b entry) k b) k' b' ≡ ring_of t k' b'
  pop_ring-push_ring t entry k' b' room =
      ap (λ u. ring_of u k' b') (pop-push t entry room)
      ∙ replaced t k b (ring_of t k b) k' b'
      ∙ itself
    where
      itself : (if k == k' && b == b' then ring_of t k b else ring_of t k' b') ≡ ring_of t k' b'
      itself = ground (arith, eq_iff k k', eq_iff b b')
