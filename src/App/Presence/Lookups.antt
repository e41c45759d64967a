-- ===== src/App/Presence/Lookups.antt =====
-- What is found of a peer after each change of the presence map.
use zodia.Prelude.{
  ℕ, ◌-◌, ◌≡◌, ◌↔◌, refl, sym, ap, ◌∙◌, Bool, true, false, ◌&&◌, Option, none, some, [], ◌∷◌, Bytes,
  ◌==◌, nat_eq, bytes_instance, eq_iff, eq_refl, leb, if◌then◌else◌, select, arith, Bool-cases, inl,
  inr,
}
use zodia.App.Presence.{
  Peers, EditorPresence, presence_ttl_secs, insert_peer, remove_peer, or_default, heartbeat,
  unless_empty, prune_stale_presence, is_present, others_present,
}

abbrev pub lookup : Peers → ℕ → Option ℕ
lookup [] p = none
lookup ((q, t) ∷ rest) p = if q == p then some t else lookup rest p

-- One entry for each peer.
abbrev pub IsMap : Peers → Type 0
IsMap [] = Unit
IsMap ((q, t) ∷ rest) = (lookup rest q ≡ none) × IsMap rest

-- The heartbeat is at most the time to live ago.
abbrev pub fresh : ℕ → Option ℕ → Option ℕ
fresh now none = none
fresh now (some t) = if leb (now - presence_ttl_secs) t then some t else none

lookup-insert_peer :
    (peers : Peers) (peer timestamp p : ℕ)
    → lookup (insert_peer peers peer timestamp) p
      ≡ (if peer == p then some timestamp else lookup peers p)
unfolding insert_peer
lookup-insert_peer [] peer timestamp p = refl
lookup-insert_peer ((q, t) ∷ rest) peer timestamp p =
    ground (arith, lookup-insert_peer rest peer timestamp p, eq_iff q peer)

lookup-remove_peer :
    (peers : Peers) (peer p : ℕ)
    → lookup (remove_peer peers peer) p ≡ (if peer == p then none else lookup peers p)
unfolding remove_peer select
lookup-remove_peer [] peer p = ground arith
lookup-remove_peer ((q, t) ∷ rest) peer p =
    ground (arith, lookup-remove_peer rest peer p, eq_iff q peer, eq_iff q p, eq_iff peer p)

abbrev is_fresh : ℕ → ℕ × ℕ → Bool
is_fresh now q = leb (now - presence_ttl_secs) q.1

lookup-select :
    (now : ℕ) (peers : Peers) (p : ℕ)
    → IsMap peers
    → lookup (select (is_fresh now) peers) p ≡ fresh now (lookup peers p)
unfolding select
lookup-select now [] p m = refl
lookup-select now ((q, t) ∷ rest) p (apart, m) =
    ground (arith, lookup-select now rest p m, eq_iff q p, apart)

apart_still :
    (q peer timestamp : ℕ) (rest : Peers)
    → lookup rest q ≡ none
    → (q == peer) ≡ false
    → lookup (insert_peer rest peer timestamp) q ≡ none
apart_still q peer timestamp rest apart e =
    ground (arith, lookup-insert_peer rest peer timestamp q, eq_iff q peer, eq_iff peer q, e, apart)

insert_peer-IsMap :
    (peers : Peers) (peer timestamp : ℕ) → IsMap peers → IsMap (insert_peer peers peer timestamp)
unfolding insert_peer
insert_peer-IsMap [] peer timestamp m = (refl, tt)
insert_peer-IsMap ((q, t) ∷ rest) peer timestamp (apart, m) = elim (Bool-cases (q == peer)) [
  | inl e ↦ rw (insert_peer, e) (apart, m)
  | inr e ↦
      rw (insert_peer, e)
        (apart_still q peer timestamp rest apart e, insert_peer-IsMap rest peer timestamp m)
]

gone_still :
    (q peer : ℕ) (rest : Peers)
    → lookup rest q ≡ none
    → (q == peer) ≡ false
    → lookup (remove_peer rest peer) q ≡ none
gone_still q peer rest apart e =
    ground (arith, lookup-remove_peer rest peer q, eq_iff q peer, eq_iff peer q, e, apart)

remove_peer-IsMap : (peers : Peers) (peer : ℕ) → IsMap peers → IsMap (remove_peer peers peer)
unfolding remove_peer select
remove_peer-IsMap [] peer m = tt
remove_peer-IsMap ((q, t) ∷ rest) peer (apart, m) = elim (Bool-cases (q == peer)) [
  | inl e ↦ rw (remove_peer, select, e) (remove_peer-IsMap rest peer m)
  | inr e ↦
      rw (remove_peer, select, e) (gone_still q peer rest apart e, remove_peer-IsMap rest peer m)
]

select-IsMap : (now : ℕ) (peers : Peers) → IsMap peers → IsMap (select (is_fresh now) peers)
unfolding select
select-IsMap now [] m = tt
select-IsMap now ((q, t) ∷ rest) (apart, m) = elim (Bool-cases (leb (now - presence_ttl_secs) t)) [
  | inl e ↦
      rw (select, e) (lookup-select now rest q m ∙ ap (fresh now) apart, select-IsMap now rest m)
  | inr e ↦ rw (select, e) (select-IsMap now rest m)
]

default-unless_empty : (peers : Peers) → or_default (unless_empty peers) ≡ peers
default-unless_empty [] = refl
default-unless_empty (p ∷ peers) = refl

abbrev pub IsTable : EditorPresence → Type 0
IsTable map = (key : Bytes) → IsMap (or_default (map key))

abbrev pub seen : EditorPresence → Bytes → ℕ → Option ℕ
seen map key p = lookup (or_default (map key)) p

pub seen-prune_stale_presence :
    (map : EditorPresence) (now : ℕ) (key : Bytes) (p : ℕ)
    → IsTable map
    → seen (prune_stale_presence map now) key p ≡ fresh now (seen map key p)
unfolding prune_stale_presence
seen-prune_stale_presence map now key p m =
    ap (λ o. lookup o p) (default-unless_empty (select (is_fresh now) (or_default (map key))))
    ∙ lookup-select now (or_default (map key)) p (m key)

pub prune_stale_presence-IsTable :
    (map : EditorPresence) (now : ℕ) → IsTable map → IsTable (prune_stale_presence map now)
unfolding prune_stale_presence
prune_stale_presence-IsTable map now m key =
    rw (default-unless_empty (select (is_fresh now) (or_default (map key))))
      (select-IsMap now (or_default (map key)) (m key))

pub seen-heartbeat :
    (map : EditorPresence) (key : Bytes) (peer : ℕ) (joined : Bool) (timestamp : ℕ) (k : Bytes)
    (p : ℕ)
    → seen (heartbeat map key peer joined timestamp) k p
      ≡ (if k == key && peer == p then (if joined then some timestamp else none) else seen map k p)
unfolding heartbeat
seen-heartbeat map key peer joined timestamp k p = elim (Bool-cases (k == key)) [
  | inr e ↦ rw (heartbeat, e) refl
  | inl e ↦
      rw (heartbeat, e)
        (after_change joined
          ∙ ap (λ j. if peer == p then (if joined then some timestamp else none) else seen map j p)
              (sym ((eq_iff k key).0 e)))
]
  where
    after_change :
        (b : Bool)
        → lookup
            (if b
              then insert_peer (or_default (map key)) peer timestamp
              else remove_peer (or_default (map key)) peer)
            p
          ≡ (if peer == p then (if b then some timestamp else none) else seen map key p)
    after_change true = lookup-insert_peer (or_default (map key)) peer timestamp p
    after_change false = lookup-remove_peer (or_default (map key)) peer p

pub heartbeat-IsTable :
    (map : EditorPresence) (key : Bytes) (peer : ℕ) (joined : Bool) (timestamp : ℕ)
    → IsTable map
    → IsTable (heartbeat map key peer joined timestamp)
unfolding heartbeat
heartbeat-IsTable map key peer joined timestamp m k = elim (Bool-cases (k == key)) [
  | inl e ↦ rw (heartbeat, e) (changed joined)
  | inr e ↦ rw (heartbeat, e) (m k)
]
  where
    changed :
        (b : Bool)
        → IsMap (
            if b
            then insert_peer (or_default (map key)) peer timestamp
            else remove_peer (or_default (map key)) peer)
    changed true = insert_peer-IsMap (or_default (map key)) peer timestamp (m key)
    changed false = remove_peer-IsMap (or_default (map key)) peer (m key)

present_iff :
    (peers : Peers)
    → (is_present (unless_empty peers) ≡ true) ↔ ((p : ℕ) × (t : ℕ) × (lookup peers p ≡ some t))
present_iff [] = (λ h. cc, λ (p, t, h). cc)
present_iff ((q, t) ∷ rest) = (λ h. (q, t, rw (eq_refl q) refl), λ h. refl)

-- Others are present where some peer's heartbeat in the map is at most five minutes old.
pub others_present_iff :
    (map : EditorPresence) (key : Bytes) (now : ℕ)
    → IsTable map
    → ((others_present map key now).1 ≡ true)
      ↔ ((p : ℕ) × (t : ℕ) × (fresh now (seen map key p) ≡ some t))
unfolding others_present prune_stale_presence
others_present_iff map key now m = (
  λ h.
      let (p, t, e) = (present_iff (select (is_fresh now) (or_default (map key)))).0 h in
      (p, t, sym (lookup-select now (or_default (map key)) p (m key)) ∙ e),
  λ (p, t, e).
      (present_iff (select (is_fresh now) (or_default (map key)))).1
        (p, t, lookup-select now (or_default (map key)) p (m key) ∙ e),
)
