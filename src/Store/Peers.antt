-- ===== src/Store/Peers.antt =====
-- store/src/lib.rs: chat messages, and what is known of the peers: display names, when they were
-- last seen, and who is muted.
pub mod Laws
use zodia.Prelude.{
  ℕ, ◌+◌, Bool, true, false, Option, none, some, List, [], ◌∷◌, ◌++◌, Bytes, ◌==◌, nat_eq, ltb, leb,
  if◌then◌else◌, any, select, map,
}
use zodia.Sql.{insert_or_ignore, upsert, delete, order_by}
use zodia.Sql.Insert.{at_key, same_key}
use zodia.Store.{Db, Message, DisplayName, LastSeen, MutedPeer}

-- The id is SQLite's next one, the time `unix_ms()`.
unfoldable pub insert_message : Db → ℕ → Bool → Bytes → ℕ → Db
insert_message db peer_id from_us body ts =
    let id = db.last_message_id + 1 in
    record db {
      messages =
          db.messages
          ++ record { id = id; peer_id = peer_id; from_us = from_us; body = body; ts = ts } ∷ [];
      last_message_id = id;
    }

-- ORDER BY ts ASC, id ASC
abbrev pub older : Message → Message → Bool
older a b = if ltb a.ts b.ts then true else (if ltb b.ts a.ts then false else leb a.id b.id)

abbrev pub line : Message → Bool × Bytes
line m = (m.from_us, m.body)

unfoldable pub messages_for_peer : Db → ℕ → List (Bool × Bytes)
messages_for_peer db peer_id =
    map line (order_by older (select (λ m. m.peer_id == peer_id) db.messages))

abbrev pub name_key : DisplayName → ℕ
name_key r = r.peer_pk

-- DO UPDATE ... WHERE excluded.updated_at > peer_display_names.updated_at
abbrev pub newer_name : Bytes → ℕ → DisplayName → Option DisplayName
newer_name name updated_at old =
    if ltb old.updated_at updated_at
    then some (record old { name = name; updated_at = updated_at })
    else none

unfoldable pub set_peer_display_name_if_newer : Db → ℕ → Bytes → ℕ → Db × Bool
unfolding upsert
set_peer_display_name_if_newer db peer_pk name updated_at =
    let (t, affected) =
      upsert (same_key name_key) (newer_name name updated_at)
        (record { peer_pk = peer_pk; name = name; updated_at = updated_at })
        db.peer_display_names in
    (record db { peer_display_names = t }, ltb 0 affected)

unfoldable pub peer_display_name : Db → ℕ → Option Bytes
peer_display_name db peer_pk = elim (at_key name_key peer_pk db.peer_display_names) [
  | none ↦ none
  | some r ↦ some r.name
]

unfoldable pub all_peer_display_names : Db → List (ℕ × Bytes)
all_peer_display_names db = map (λ r. (r.peer_pk, r.name)) db.peer_display_names

abbrev pub seen_key : LastSeen → ℕ
seen_key r = r.peer_pk

unfoldable pub record_last_seen : Db → ℕ → ℕ → Db
unfolding upsert
record_last_seen db peer_pk seen_at = record db {
  peer_last_seen =
      (upsert (same_key seen_key) (λ old. some (record old { seen_at = seen_at }))
        (record { peer_pk = peer_pk; seen_at = seen_at }) db.peer_last_seen).0;
}

unfoldable pub all_last_seen : Db → List (ℕ × ℕ)
all_last_seen db = map (λ r. (r.peer_pk, r.seen_at)) db.peer_last_seen

abbrev pub muted_key : MutedPeer → ℕ
muted_key r = r.peer_pk

-- ON CONFLICT DO NOTHING
unfoldable pub mute_peer : Db → ℕ → ℕ → Db
unfolding insert_or_ignore
mute_peer db peer_pk now = record db {
  muted_peers =
      (insert_or_ignore (same_key muted_key) (record { peer_pk = peer_pk; muted_at = now })
        db.muted_peers).0;
}

unfoldable pub unmute_peer : Db → ℕ → Db
unfolding delete
unmute_peer db peer_pk = record db {
  muted_peers = (delete (λ r. r.peer_pk == peer_pk) db.muted_peers).0;
}

unfoldable pub muted_peers : Db → List ℕ
muted_peers db = map muted_key db.muted_peers
