-- ===== src/App/InterpSync.antt =====
-- app/src/app.rs: the exchange of interpretations between two connected peers.
use zodia.Prelude.{
  ℕ, suc, ◌+◌, Bool, true, false, Option, none, some, List, [], ◌∷◌, ◌++◌, map, length, Bytes,
  bytes_of, number_of, ◌==◌, nat_eq, if◌then◌else◌,
}
use zodia.Core.Planet.{Planet}
use zodia.Core.Aspects.{Aspect, aspect_sig}
use zodia.Core.Interp.{InterpKey, to_sig}
use zodia.Store.{Primitives, Db}
use zodia.Store.Interps.{Result, ok, err, insert_received}
use zodia.Store.Interps.Queries.{CommunityEntry, community_for_keys}
use zodia.Channel.{InterpEntry, Cbor, Link, exchange_interps}
pub mod Import
pub mod Sharing

-- The charts, which are computed over floating point.
pub record Charts : Type 1 where
  pub Orb : Type 0
  pub BirthData : Type 0
  pub Chart : Type 0
  pub compute : BirthData → Option Chart
  pub natal_aspects : Chart → List (Aspect Orb)
  -- `SynastryAspect` has the fields of `Aspect`
  pub compute_synastry : Chart → Chart → List (Aspect Orb)

-- `InterpKey::from_natal`
abbrev pub from_natal : {F : Type 0} → Aspect F → InterpKey
from_natal a = InterpKey.natal (aspect_sig a.body_a a.body_b a.kind)

-- `InterpKey::from_synastry`
abbrev pub from_synastry : {F : Type 0} → Aspect F → InterpKey
from_synastry a = InterpKey.synastry (aspect_sig a.body_a a.body_b a.kind)

module _ (charts : Charts) where
  abbrev natal_sigs : Option charts.Chart → List Bytes
  natal_sigs none = []
  natal_sigs (some chart) = map (λ a. to_sig (from_natal a)) (charts.natal_aspects chart)

  abbrev synastry_sigs : Option charts.Chart → Option charts.Chart → List Bytes
  synastry_sigs none ours = []
  synastry_sigs (some theirs) none = []
  synastry_sigs (some theirs) (some ours) =
      map (λ a. to_sig (from_synastry a)) (charts.compute_synastry ours theirs)

  -- The keys that the peer's chart, and both charts together, have aspects for.
  abbrev pub key_sigs : charts.BirthData → Option charts.Chart → List Bytes
  key_sigs birth our_chart =
      natal_sigs (charts.compute birth) ++ synastry_sigs (charts.compute birth) our_chart

abbrev pub to_wire : CommunityEntry → InterpEntry
to_wire e = record {
  interp_key = e.interp_key;
  body = e.body;
  author_pk = e.author_pk;
  author_sig = bytes_of 64 e.author_sig;
}

-- `collect_entries_for_stargazer`, from the keys on.
unfoldable pub collect_entries : Db → List Bytes → List InterpEntry
unfolding community_for_keys
collect_entries db keys = map to_wire (community_for_keys db keys 100)

module _ (c : Primitives) where
  abbrev pub counted : Db × Result Bool → Db × ℕ
  counted (db, ok true) = (db, 1)
  counted (db, ok false) = (db, 0)
  counted (db, err e) = (db, 0)

  -- The loop's body: a signature of another length is skipped.
  unfoldable pub import_entry : Db → InterpEntry → ℕ → Db × ℕ
  unfolding insert_received
  import_entry db e now =
      if length e.author_sig == 64
      then counted
          (insert_received c db e.interp_key e.body e.author_pk (number_of e.author_sig) now)
      else (db, 0)

  -- The clock is read once for each entry.
  unfoldable pub import_interps : Db → List InterpEntry → (ℕ → ℕ) → Db × ℕ
  unfolding import_entry
  import_interps db [] clock = (db, 0)
  import_interps db (e ∷ es) clock =
      let (db', n) = import_entry db e (clock 0) in
      let (last, m) = import_interps db' es (λ i. clock (suc i)) in (last, n + m)

  -- `do_interp_sync`, after the own entries were collected and handed to the link.
  unfoldable pub do_interp_sync : {B : Type 0} → Cbor B → Db → Link → (ℕ → ℕ) → Db × ℕ
  unfolding exchange_interps import_interps
  do_interp_sync cbor db link clock = elim (exchange_interps cbor link) [
    | none ↦ (db, 0)
    | some received ↦ import_interps db received clock
  ]
