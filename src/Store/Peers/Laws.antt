-- ===== src/Store/Peers/Laws.antt =====
-- Laws of the peers' names and mutes and of the message history.
use zodia.Prelude.{
  ℕ, ◌≡◌, ◌≢◌, ◌⊎◌, refl, sym, ◌+◌, append_nil, ap, ◌∙◌, inl, inr, Bool, true, false, not, ◌&&◌,
  ◌||◌, Option, none, some, List, [], ◌∷◌, ◌++◌, Bytes, ltb, leb, if◌then◌else◌, ◌==◌, nat_eq,
  eq_iff, Bool-cases, Option-cases, arith, any, select, map, All,
}
use zodia.Sql.{order_by}
use zodia.Sql.Rows.{select-append, All-select, any-delete}
use zodia.Sql.Insert.{at_key, same_key, at_key-upsert, merged, any-insert_or_ignore}
use zodia.Sql.Order.{order_by-snoc}
use zodia.Store.{Db, Message, DisplayName, MutedPeer}
use zodia.Store.Peers.{
  insert_message, messages_for_peer, older, line, name_key, newer_name,
  set_peer_display_name_if_newer, muted_key, mute_peer, unmute_peer, muted_peers,
}

-- What is known of a peer's name after an announcement.
abbrev pub announced : Option DisplayName → ℕ → Bytes → ℕ → Option DisplayName
announced none pk name ts = some (record { peer_pk = pk; name = name; updated_at = ts })
announced (some old) pk name ts =
    if ltb old.updated_at ts then some (record old { name = name; updated_at = ts }) else some old

abbrev pub name_at : Db → ℕ → Option DisplayName
name_at db pk = at_key name_key pk db.peer_display_names

merge-kept :
    (name : Bytes) (ts : ℕ) (old new : DisplayName)
    → newer_name name ts old ≡ some new
    → name_key new ≡ name_key old
merge-kept name ts old new h = ground (arith, h)

-- An announcement overwrites what is known of its peer where that is older or missing, and touches
-- no other peer.
set_peer_display_name_if_newer_lem :
    (db : Db) (pk : ℕ) (name : Bytes) (ts j : ℕ)
    → name_at (set_peer_display_name_if_newer db pk name ts).0 j
      ≡ (if pk == j then announced (name_at db j) pk name ts else name_at db j)
unfolding set_peer_display_name_if_newer
set_peer_display_name_if_newer_lem db pk name ts j =
    at_key-upsert name_key (newer_name name ts) (merge-kept name ts)
      (record { peer_pk = pk; name = name; updated_at = ts }) j db.peer_display_names
    ∙ ap (λ o. if pk == j then o else name_at db j) same
  where
    same :
        merged name_key
          (newer_name name ts)
          (record { peer_pk = pk; name = name; updated_at = ts })
          (name_at db j)
        ≡ announced (name_at db j) pk name ts
    same = elim (Option-cases (name_at db j)) [
      | inl e ↦ rw e refl
      | inr (old, e) ↦ rw e (ground arith)
    ]

announced-swap :
    (o : Option DisplayName) (pk : ℕ) (a b : Bytes) (s t : ℕ)
    → s ≢ t
    → announced (announced o pk a s) pk b t ≡ announced (announced o pk b t) pk a s
announced-swap none pk a b s t h = ground (arith, h)
announced-swap (some old) pk a b s t h = ground (arith, h)

-- Two announcements that carry different times leave the same names, in whichever order they
-- arrive.
pub set_peer_display_name_if_newer-swap :
    (db : Db) (p q : ℕ) (a b : Bytes) (s t j : ℕ)
    → s ≢ t
    → name_at (set_peer_display_name_if_newer (set_peer_display_name_if_newer db p a s).0 q b t).0 j
      ≡ name_at
          (set_peer_display_name_if_newer (set_peer_display_name_if_newer db q b t).0 p a s).0
          j
set_peer_display_name_if_newer-swap db p q a b s t j h =
    rw
      (
        set_peer_display_name_if_newer_lem (set_peer_display_name_if_newer db p a s).0 q b t j,
        set_peer_display_name_if_newer_lem db p a s j,
        set_peer_display_name_if_newer_lem (set_peer_display_name_if_newer db q b t).0 p a s j,
        set_peer_display_name_if_newer_lem db q b t j,
      )
      (go (Bool-cases (p == j)) (Bool-cases (q == j)))
  where
    go :
        ((p == j) ≡ true) ⊎ ((p == j) ≡ false)
        → ((q == j) ≡ true) ⊎ ((q == j) ≡ false)
        → (if q == j
            then announced (if p == j then announced (name_at db j) p a s else name_at db j) q b t
            else (if p == j then announced (name_at db j) p a s else name_at db j))
          ≡ (if p == j
              then announced (if q == j then announced (name_at db j) q b t else name_at db j) p a s
              else (if q == j then announced (name_at db j) q b t else name_at db j))
    go (inl e) (inl f) =
        rw (e, f, (eq_iff p j).0 e, (eq_iff q j).0 f) (announced-swap (name_at db j) j a b s t h)
    go (inl e) (inr f) = rw (e, f) refl
    go (inr e) (inl f) = rw (e, f) refl
    go (inr e) (inr f) = rw (e, f) refl

abbrev pub is_muted : Db → ℕ → Bool
is_muted db j = any (λ p. p == j) (muted_peers db)

any-map :
    {A : Type 0} (f : A → ℕ) (q : ℕ → Bool) (xs : List A) → any q (map f xs) ≡ any (λ x. q (f x)) xs
any-map f q [] = refl
any-map f q (x ∷ xs) = ap (λ b. q (f x) || b) (any-map f q xs)

unmuted :
    (p j : ℕ) (t : List MutedPeer)
    → any (λ r. not (r.peer_pk == p) && r.peer_pk == j) t
      ≡ (not (p == j) && any (λ r. r.peer_pk == j) t)
unmuted p j [] = ground arith
unmuted p j (r ∷ t) =
    ground (arith, unmuted p j t, eq_iff r.peer_pk p, eq_iff r.peer_pk j, eq_iff p j)

muted_before :
    (p j : ℕ) (t : List MutedPeer)
    → (p == j) ≡ true
    → any (λ r. r.peer_pk == p) t ≡ any (λ r. r.peer_pk == j) t
muted_before p j t h = rw ((eq_iff p j).0 h) refl

-- Muting a peer adds that peer to the muted ones, unmuting takes that peer off, neither touches
-- any other peer, and both may be repeated.
mute_peer_lem :
    (db : Db) (p now j : ℕ)
    → (is_muted (mute_peer db p now) j ≡ (is_muted db j || p == j))
      × (is_muted (unmute_peer db p) j ≡ (not (p == j) && is_muted db j))
unfolding mute_peer unmute_peer muted_peers
mute_peer_lem db p now j = (
  any-map muted_key (λ q. q == j) _
      ∙ ground (
        arith,
        any-map muted_key (λ q. q == j) db.muted_peers,
        any-insert_or_ignore (same_key muted_key) (λ r. r.peer_pk == j)
            (record { peer_pk = p; muted_at = now }) db.muted_peers,
        muted_before p j db.muted_peers,
      ),
  any-map muted_key (λ q. q == j) _
      ∙ any-delete (λ r. r.peer_pk == j) (λ r. r.peer_pk == p) db.muted_peers
      ∙ unmuted p j db.muted_peers
      ∙ ap (λ b. not (p == j) && b) (sym (any-map muted_key (λ q. q == j) db.muted_peers)),
)

map-append : {A B : Type 0} (f : A → B) (xs ys : List A) → map f (xs ++ ys) ≡ map f xs ++ map f ys
map-append f [] ys = refl
map-append f (x ∷ xs) ys = ap (λ zs. f x ∷ zs) (map-append f xs ys)

-- Where no stored message is later than the new one or has a greater id than the last, the new
-- message comes last in the history with its peer, and the histories with all other peers are as
-- they were.
insert_message_lem :
    (db : Db) (p : ℕ) (from_us : Bool) (body : Bytes) (ts q : ℕ)
    → All (λ m. (leb m.ts ts && leb m.id db.last_message_id) ≡ true) db.messages
    → messages_for_peer (insert_message db p from_us body ts) q
      ≡ messages_for_peer db q ++ (if p == q then (from_us, body) ∷ [] else [])
unfolding insert_message messages_for_peer select
insert_message_lem db p from_us body ts q h = elim (Bool-cases (p == q)) [
  | inl e ↦
      ap (λ ms. map line (order_by older ms))
        (select-append (λ m. m.peer_id == q) db.messages (m ∷ [])
          ∙ ap (λ ms. mine ++ ms) (rw e refl))
      ∙ ap (map line)
          (order_by-snoc older m mine (All-select _ _ db.messages (come_before db.messages h)))
      ∙ map-append line (order_by older mine) (m ∷ [])
      ∙ rw e refl
  | inr e ↦
      ap (λ ms. map line (order_by older ms))
        (select-append (λ m. m.peer_id == q) db.messages (m ∷ [])
          ∙ ap (λ ms. mine ++ ms) (rw e refl)
          ∙ append_nil mine)
      ∙ rw e (sym (append_nil (map line (order_by older mine))))
]
  where
    m : Message
    m = record { id = db.last_message_id + 1; peer_id = p; from_us = from_us; body = body; ts = ts }

    mine : List Message
    mine = select (λ x. x.peer_id == q) db.messages

    come_before :
        (ms : List Message)
        → All (λ x. (leb x.ts ts && leb x.id db.last_message_id) ≡ true) ms
        → All (λ x. older x m ≡ true) ms
    come_before [] h = tt
    come_before (x ∷ ms) h = (ground (arith, h.0), come_before ms h.1)
