-- ===== src/Sync/Sound.antt =====
-- The logs of the identity follow the store, one operation after the other.
use mathlib.Core.Path.{subst}
use zodia.Prelude.{
  ℕ, suc, ◌^◌, ◌≤◌, ◌<◌, ◌≡◌, refl, sym, ap, ◌∙◌, Option, none, some, List, [], ◌∷◌, Bytes, ◌==◌,
  nat_eq, eq_iff, length, if◌then◌else◌, arith, Bool-cases, Option-cases, inl, inr,
}
use zodia.Ops.{ZodiaExtensions}
use zodia.OperationStore.{SqliteStore, IsLogStore, Entry, seq_after, hash_of_latest, next_entry}
use zodia.Sync.{ZodiaSyncNode}
use zodia.Sync.Journal.{Keeps, Grows}

module _ {S : Type 0} where
  -- The newest operation of a log, and the number of its operations.
  abbrev pub latest_in : ℕ → List (ℕ × Entry S) → Option (Entry S)
  latest_in l [] = none
  latest_in l ((m, e) ∷ older) = if m == l then some e else latest_in l older

  abbrev pub count_in : ℕ → List (ℕ × Entry S) → ℕ
  count_in l [] = 0
  count_in l ((m, e) ∷ older) = let n = count_in l older in if m == l then suc n else n

  count-le : (l : ℕ) (all : List (ℕ × Entry S)) → count_in l all ≤ length all
  count-le l [] = omega arith
  count-le l ((m, e) ∷ older) = ground (arith, count-le l older)

module _ {T S : Type 0} (o : SqliteStore T S) where
  -- Every operation is by the identity, numbered from 0 in its log, and links back to the hash of
  -- the operation before it there.
  abbrev pub IsChain : ℕ → List (ℕ × Entry S) → Type 0
  IsChain key [] = Unit
  IsChain key ((l, e) ∷ older) =
      (e.header.verifying_key ≡ key)
      × (e.header.seq_num ≡ count_in l older)
      × (e.header.backlink ≡ hash_of_latest o (latest_in l older))
      × IsChain key older

  pub record IsJournaled (n : ZodiaSyncNode T S) : Type 0 where
    pub latest : (l : ℕ) → o.get_latest_entry n.sync_store n.key l ≡ latest_in l n.authored
    pub chained : IsChain n.key n.authored

  -- The sequence numbers fit their type, and the logs are as they should be.
  abbrev pub Sound : ZodiaSyncNode T S → Type 0
  Sound n = length n.authored < 2 ^ 32 → IsJournaled n

  seq_after-latest_in :
      (key l : ℕ) (all : List (ℕ × Entry S))
      → IsChain key all
      → length all < 2 ^ 32
      → seq_after (latest_in l all) ≡ count_in l all
  seq_after-latest_in key l [] c h = refl
  seq_after-latest_in key l ((m, e) ∷ older) (a, b, d, c) h = elim (Bool-cases (m == l)) [
    | inr f ↦ rw f (seq_after-latest_in key l older c (omega (arith, h)))
    | inl f ↦
        rw f (omega (arith, b, h, count-le m older, ap (λ x. count_in x older) ((eq_iff m l).0 f)))
  ]

  latest-seq_num :
      (key l : ℕ) (all : List (ℕ × Entry S)) (prev : Entry S)
      → IsChain key all
      → latest_in l all ≡ some prev
      → suc prev.header.seq_num ≡ count_in l all
  latest-seq_num key l [] prev c h = cc
  latest-seq_num key l ((m, e) ∷ older) prev (a, b, d, c) h = elim (Bool-cases (m == l)) [
    | inr f ↦ rw f (latest-seq_num key l older prev c (sym (rw f refl) ∙ h))
    | inl f ↦ rw f (
        omega (
          arith,
          b,
          ap (λ x. count_in x older) ((eq_iff m l).0 f),
          ap (λ x. x.header.seq_num) (same (sym (rw f refl) ∙ h)),
        ))
  ]
    where
      same : ◌≡◌ {A = Option (Entry S)} (some e) (some prev) → e ≡ prev
      same g = cc

  pub Keeps-Sound : {n n' : ZodiaSyncNode T S} → Keeps o n n' → Sound n → Sound n'
  Keeps-Sound {n = n} {n' = n'} k s h =
      let j = s (subst (λ a. length a < 2 ^ 32) k.authored_same h) in
      record {
        latest = λ l.
            ap (λ x. o.get_latest_entry n'.sync_store x l) k.key_same
            ∙ k.latest_same l
            ∙ j.latest l
            ∙ ap (latest_in l) (sym k.authored_same);
        chained =
            subst (λ a. IsChain n'.key a) (sym k.authored_same)
              (subst (λ x. IsChain x n.authored) (sym k.key_same) j.chained);
      }

  module _ (laws : IsLogStore o) where
    inserted-latest :
        (n : ZodiaSyncNode T S) (log : ℕ) (ext : ZodiaExtensions S) (body : Option Bytes) (t : T)
        → IsJournaled n
        → suc (length n.authored) < 2 ^ 32
        → o.insert_operation n.sync_store
            (next_entry o n.sync_store n.key log ext body).hash
            (next_entry o n.sync_store n.key log ext body)
            log
          ≡ some t
        → o.get_latest_entry t n.key log ≡ some (next_entry o n.sync_store n.key log ext body)
    unfolding next_entry
    inserted-latest n log ext body t j h f =
        elim (Option-cases (o.get_latest_entry n.sync_store n.key log)) [
          | inl g ↦ laws.latest_first n.sync_store t _ log _ f g
          | inr (prev, g) ↦ laws.latest_next n.sync_store t _ log _ prev f g (
              omega (
                arith,
                latest-seq_num n.key log n.authored prev j.chained (sym (j.latest log) ∙ g),
                count-le log n.authored,
                h,
                ap seq_after g,
              ))
        ]

    grown-latest :
        (n : ZodiaSyncNode T S) (log : ℕ) (ext : ZodiaExtensions S) (body : Option Bytes) (t : T)
        (l : ℕ)
        → IsJournaled n
        → suc (length n.authored) < 2 ^ 32
        → o.insert_operation n.sync_store
            (next_entry o n.sync_store n.key log ext body).hash
            (next_entry o n.sync_store n.key log ext body)
            log
          ≡ some t
        → o.get_latest_entry t n.key l
          ≡ latest_in l ((log, next_entry o n.sync_store n.key log ext body) ∷ n.authored)
    grown-latest n log ext body t l j h f = elim (Bool-cases (log == l)) [
      | inl e ↦ rw e (
          ap (λ x. o.get_latest_entry t n.key x) (sym ((eq_iff log l).0 e))
          ∙ inserted-latest n log ext body t j h f)
      | inr e ↦
          rw e (
            laws.latest_elsewhere n.sync_store t _ log _ n.key l f (ground (arith, e)) ∙ j.latest l)
    ]

    pub Grows-Sound : {n n' : ZodiaSyncNode T S} → Grows o n n' → Sound n → Sound n'
    unfolding next_entry
    Grows-Sound {n = n} {n' = n'} g s h =
        let bound : suc (length n.authored) < 2 ^ 32 =
          subst (λ a. length a < 2 ^ 32) g.authored_is h in
        let j = s (omega (arith, bound)) in
        record {
          latest = λ l.
              ap (λ x. o.get_latest_entry n'.sync_store x l) g.key_same
              ∙ g.latest_same l
              ∙ grown-latest n g.log g.extensions g.body g.between l j bound g.inserted
              ∙ ap (latest_in l) (sym g.authored_is);
          chained =
              subst (λ a. IsChain n'.key a) (sym g.authored_is)
                (subst
                  (λ x. IsChain x (
                    (g.log, next_entry o n.sync_store n.key g.log g.extensions g.body)
                    ∷ n.authored))
                  (sym g.key_same)
                  (
                    refl,
                    ap seq_after (j.latest g.log)
                        ∙ seq_after-latest_in n.key g.log n.authored j.chained
                            (omega (arith, bound)),
                    ap (hash_of_latest o) (j.latest g.log),
                    j.chained,
                  ));
        }
