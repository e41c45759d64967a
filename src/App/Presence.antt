-- ===== src/App/Presence.antt =====
-- app/src/app.rs: who is present in the editor of a key. A `HashMap` by key is a function; that of a
-- key's peers is a list of them with the timestamps of their heartbeats.
pub mod Lookups
use zodia.Prelude.{
  ℕ, ◌-◌, ◌*◌, Bool, true, false, not, Option, none, some, List, [], ◌∷◌, Bytes, ◌==◌, nat_eq,
  bytes_instance, leb, if◌then◌else◌, select,
}

abbrev pub Peers : Type 0
Peers = List (ℕ × ℕ)

abbrev pub EditorPresence : Type 0
EditorPresence = Bytes → Option Peers

abbrev pub presence_ttl_secs : ℕ
presence_ttl_secs = 5 * 60

abbrev pub no_presence : EditorPresence
no_presence key = none

unfoldable pub insert_peer : Peers → ℕ → ℕ → Peers
insert_peer [] peer timestamp = (peer, timestamp) ∷ []
insert_peer ((p, t) ∷ rest) peer timestamp =
    let rest' = insert_peer rest peer timestamp in
    if p == peer then (p, timestamp) ∷ rest else (p, t) ∷ rest'

unfoldable pub remove_peer : Peers → ℕ → Peers
unfolding select
remove_peer peers peer = select (λ q. not (q.0 == peer)) peers

abbrev pub or_default : Option Peers → Peers
or_default none = []
or_default (some peers) = peers

-- The heartbeat of another peer: `joined = false` means that it left.
unfoldable pub heartbeat : EditorPresence → Bytes → ℕ → Bool → ℕ → EditorPresence
unfolding insert_peer remove_peer
heartbeat map key peer joined timestamp k =
    if k == key
    then some (
        if joined
        then insert_peer (or_default (map key)) peer timestamp
        else remove_peer (or_default (map key)) peer)
    else map k

abbrev pub unless_empty : Peers → Option Peers
unless_empty [] = none
unless_empty (p ∷ peers) = some (p ∷ peers)

-- The subtraction stops at 0, as `saturating_sub` does.
unfoldable pub prune_stale_presence : EditorPresence → ℕ → EditorPresence
unfolding select
prune_stale_presence map now key =
    unless_empty (select (λ q. leb (now - presence_ttl_secs) q.1) (or_default (map key)))

abbrev pub is_present : Option Peers → Bool
is_present none = false
is_present (some []) = false
is_present (some (p ∷ peers)) = true

unfoldable pub others_present : EditorPresence → Bytes → ℕ → EditorPresence × Bool
unfolding prune_stale_presence
others_present map key now =
    let pruned = prune_stale_presence map now in (pruned, is_present (pruned key))
