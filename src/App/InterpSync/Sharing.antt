-- ===== src/App/InterpSync/Sharing.antt =====
-- From one peer's store to the other one's: what is collected, sent, received and imported.
use zodia.Prelude.{
  ℕ, ◌+◌, ◌^◌, ◌<◌, ◌≡◌, refl, ◌∙◌, true, some, List, [], ◌∷◌, map, length, length-bytes_of,
  number_of-bytes_of, Bytes, All, nat_eq,
}
use zodia.Store.{Primitives, Db, new_db}
use zodia.Store.Interps.Queries.{CommunityEntry, community_for_keys}
use zodia.Store.Interps.WellFormed.{Write, run}
use zodia.Store.Interps.Gate.{IsHonest, IsAccepted, community_for_keys-IsAccepted}
use zodia.Channel.{InterpEntry, ChannelMsg, Cbor, IsCbor, Link, share, exchange_interps}
use zodia.App.InterpSync.{to_wire, collect_entries, import_interps, do_interp_sync}
use zodia.App.InterpSync.Import.{
  holds, is_valid, import_interps-length, import_interps-holds, import_interps_again,
}

-- The link on which the frame of these entries came in, and the own one went out.
abbrev pub link_with : {B : Type 0} → Cbor B → List InterpEntry → Link
link_with cbor theirs = record { went = true; came = some (share cbor theirs) }

-- A signature is an array of 64 bytes.
abbrev pub IsArray : CommunityEntry → Type 0
IsArray e = e.author_sig < 256 ^ 64

module _ (c : Primitives) where
  to_wire-valid : (e : CommunityEntry) → IsAccepted c e → IsArray e → is_valid c (to_wire e) ≡ true
  to_wire-valid e a w = rw (length-bytes_of 64 e.author_sig, number_of-bytes_of 64 e.author_sig w) a

  all_held :
      (db : Db) (es : List CommunityEntry)
      → All (IsAccepted c) es
      → All IsArray es
      → All (λ e. is_valid c e ≡ true → holds c db e ≡ true) (map to_wire es)
      → All (λ e. holds c db (to_wire e) ≡ true) es
  all_held db [] a w h = tt
  all_held db (e ∷ es) a w h = (h.0 (to_wire-valid e a.0 w.0), all_held db es a.1 w.1 h.1)

  do_interp_sync-received :
      {B : Type 0} (cbor : Cbor B)
      → IsCbor cbor
      → (db : Db) (theirs : List InterpEntry) (clock : ℕ → ℕ)
      → do_interp_sync c cbor db (link_with cbor theirs) clock ≡ import_interps c db theirs clock
  unfolding do_interp_sync exchange_interps
  do_interp_sync-received cbor law db theirs clock =
      rw (do_interp_sync, exchange_interps, law (ChannelMsg.interp_share theirs)) refl

  -- One peer's store is the outcome of any writes, its own signed ones verifying, and the entries
  -- that it shares have signatures of 64 bytes; messages are read as they were encoded. A peer that
  -- receives these entries, whatever store it has, then holds the text of every one of them, counts
  -- the rows that were added, and gains nothing from receiving the same entries again.
  pub do_interp_sync-collect_entries :
      {B : Type 0} (cbor : Cbor B)
      → IsCbor cbor
      → (calls : List Write) → All (IsHonest c) calls
      → (keys : List Bytes) → All IsArray (community_for_keys (run c new_db calls) keys 100)
      → (db : Db) (clock later : ℕ → ℕ)
      → let link = link_with cbor (collect_entries (run c new_db calls) keys) in
        let (db', n) = do_interp_sync c cbor db link clock in
        All (λ e. holds c db' (to_wire e) ≡ true) (community_for_keys (run c new_db calls) keys 100)
        × ((length db'.interpretations ≡ length db.interpretations + n)
            × (do_interp_sync c cbor db' link later ≡ (db', 0)))
  unfolding collect_entries
  do_interp_sync-collect_entries cbor law calls honest keys arrays db clock later =
      let theirs = collect_entries (run c new_db calls) keys in
      rw (do_interp_sync-received cbor law db theirs clock) (
        all_held (import_interps c db theirs clock).0 _
            (community_for_keys-IsAccepted c calls honest keys 100) arrays
            (import_interps-holds c db theirs clock),
        (
          import_interps-length c db theirs clock,
          do_interp_sync-received cbor law _ theirs later
              ∙ import_interps_again c db theirs clock later,
        ),
      )
