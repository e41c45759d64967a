-- ===== src/Tests/Seed.antt =====
-- Tests of the baseline texts.
use zodia.Prelude.{◌≡◌, refl, some, [], ◌∷◌, codes, bytes_eq}
use zodia.Core.Planet.{saturn}
use zodia.Core.Interp.{InterpKey, to_sig}
use zodia.Store.Seed.{BaselineData, from_data, lookup}
use zodia.Store.Seed.Lookup.{section_of, text_of, lookup-from_data}

abbrev texts : BaselineData
texts = record {
  natal = (codes "saturn:7", codes "Not this one") ∷ [];
  synastry = [];
  transit = [];
  house_transit =
      (codes "jupiter:9", codes "Far horizons") ∷ (codes "saturn:7", codes "Held to account") ∷ [];
  placement = [];
  placement_angle = [];
}

abbrev key : InterpKey
key = InterpKey.house_transit saturn 7

lookup-from_data_example :
    lookup (from_data texts) key ≡ text_of (section_of texts key) (codes "saturn:7")
unfolding to_sig
lookup-from_data_example = lookup-from_data texts key (codes "saturn:7") refl

held_to_account : lookup (from_data texts) key ≡ some (codes "Held to account")
unfolding lookup from_data bytes_eq
held_to_account = refl
