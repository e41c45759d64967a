-- ===== src/Store/Seed.antt =====
-- store/src/seed.rs: the baseline texts, which are read from TOML, and their lookup by key.
use zodia.Prelude.{
  Bool, Option, none, some, List, [], ◌∷◌, ◌++◌, Bytes, codes, ◌==◌, bytes_instance, if◌then◌else◌,
}
use zodia.Core.Interp.{InterpKey, to_sig}
pub mod Lookup

-- A section is the entries of its map, in the order in which the map yields them.
abbrev pub Section : Type 0
Section = List (Bytes × Bytes)

pub record BaselineData : Type 0 where
  pub natal : Section
  pub synastry : Section
  pub transit : Section
  pub house_transit : Section
  pub placement : Section
  pub placement_angle : Section

-- `HashMap<String, String>`
pub record BaselineStore : Type 0 where
  pub map : Bytes → Option Bytes

abbrev pub empty_baseline : BaselineStore
empty_baseline = record { map = λ q. none }

abbrev pub insert : BaselineStore → Bytes → Bytes → BaselineStore
insert s k v = record { map = λ q. if k == q then some v else s.map q }

-- One loop of `from_data`.
unfoldable pub insert_all : Bytes → Section → BaselineStore → BaselineStore
insert_all prefix [] s = s
insert_all prefix ((k, v) ∷ entries) s = insert_all prefix entries (insert s (prefix ++ k) v)

unfoldable pub from_data : BaselineData → BaselineStore
unfolding insert_all
from_data d =
    let s1 = insert_all (codes "natal:") d.natal empty_baseline in
    let s2 = insert_all (codes "synastry:") d.synastry s1 in
    let s3 = insert_all (codes "transit:") d.transit s2 in
    let s4 = insert_all (codes "house_transit:") d.house_transit s3 in
    let s5 = insert_all (codes "placement:") d.placement s4 in
    insert_all (codes "placement_angle:") d.placement_angle s5

unfoldable pub lookup : BaselineStore → InterpKey → Option Bytes
unfolding to_sig
lookup s key = s.map (to_sig key)
