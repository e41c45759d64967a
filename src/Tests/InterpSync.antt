-- ===== src/Tests/InterpSync.antt =====
-- Tests of the exchange of interpretations, on messages that are a tag and the fields.
use zodia.Prelude.{
  ℕ, zero, suc, ◌+◌, ◌≡◌, refl, ap, ◌∙◌, Bool, true, Option, none, some, List, [], ◌∷◌, Bytes,
  codes, length, All, arith,
}
use zodia.Store.{Db, new_db}
use zodia.Store.Interps.Queries.{community_for_keys}
use zodia.Store.Interps.WellFormed.{run}
use zodia.Channel.{InterpEntry, PeerStatus, active, away, ChannelMsg, Cbor, IsCbor}
use zodia.App.InterpSync.{to_wire, collect_entries, do_interp_sync}
use zodia.App.InterpSync.Import.{holds}
use zodia.App.InterpSync.Sharing.{link_with, IsArray, do_interp_sync-collect_entries}
use zodia.Tests.{toy, sig, calls}
use zodia.Tests.Delivery.{write_list, read_list, list_read_back, from_bool, to_bool, bool_read_back}

abbrev write_entry : InterpEntry → Bytes → Bytes
write_entry e rest =
    write_list e.interp_key (write_list e.body (write_list e.author_sig (e.author_pk ∷ rest)))

abbrev with_signature : Bytes → Bytes → List ℕ × Bytes → InterpEntry × Bytes
with_signature key body (signature, []) =
    (record { interp_key = key; body = body; author_pk = 0; author_sig = signature }, [])
with_signature key body (signature, pk ∷ rest) =
    (record { interp_key = key; body = body; author_pk = pk; author_sig = signature }, rest)

abbrev with_body : Bytes → List ℕ × Bytes → InterpEntry × Bytes
with_body key (body, rest) = with_signature key body (read_list rest)

abbrev with_key : List ℕ × Bytes → InterpEntry × Bytes
with_key (key, rest) = with_body key (read_list rest)

entry_read_back :
    (e : InterpEntry) (rest : Bytes) → with_key (read_list (write_entry e rest)) ≡ (e, rest)
entry_read_back e rest =
    ap with_key (list_read_back e.interp_key _)
    ∙ ap (with_body e.interp_key) (list_read_back e.body _)
    ∙ ap (with_signature e.interp_key e.body) (list_read_back e.author_sig (e.author_pk ∷ rest))

abbrev write_entries : List InterpEntry → Bytes
write_entries [] = []
write_entries (e ∷ es) = write_entry e (write_entries es)

abbrev read_entries : ℕ → Bytes → List InterpEntry
read_entries zero bytes = []
read_entries (suc n) bytes = let (e, rest) = with_key (read_list bytes) in e ∷ read_entries n rest

entries_read_back : (es : List InterpEntry) → read_entries (length es) (write_entries es) ≡ es
entries_read_back [] = refl
entries_read_back (e ∷ es) =
    ap (λ p. p.0 ∷ read_entries (length es) p.1) (entry_read_back e (write_entries es))
    ∙ ap (λ xs. e ∷ xs) (entries_read_back es)

abbrev from_status : PeerStatus → ℕ
from_status active = 0
from_status away = 1

abbrev to_status : ℕ → PeerStatus
to_status zero = active
to_status (suc n) = away

abbrev write_msg : ChannelMsg Unit → Bytes
write_msg (ChannelMsg.interp_share entries) = 0 ∷ length entries ∷ write_entries entries
write_msg (ChannelMsg.consent_handshake blob) = 1 ∷ 0 ∷ []
write_msg (ChannelMsg.status_update status) = 2 ∷ from_status status ∷ []
write_msg (ChannelMsg.call_offer session) = 3 ∷ session ∷ []
write_msg (ChannelMsg.call_accept session) = 4 ∷ session ∷ []
write_msg (ChannelMsg.call_reject session) = 5 ∷ session ∷ []
write_msg (ChannelMsg.call_hangup session) = 6 ∷ session ∷ []
write_msg (ChannelMsg.chat_msg text) = 7 ∷ 0 ∷ text
write_msg (ChannelMsg.typing_indicator on) = 8 ∷ from_bool on ∷ []
write_msg ChannelMsg.chat_read = 9 ∷ 0 ∷ []
write_msg (ChannelMsg.relay_msg dest payload) = 10 ∷ dest ∷ payload

abbrev by_late_tag : ℕ → ℕ → Bytes → ChannelMsg Unit
by_late_tag zero x rest = ChannelMsg.call_reject x
by_late_tag (suc zero) x rest = ChannelMsg.call_hangup x
by_late_tag (suc (suc zero)) x rest = ChannelMsg.chat_msg rest
by_late_tag (suc (suc (suc zero))) x rest = ChannelMsg.typing_indicator (to_bool x)
by_late_tag (suc (suc (suc (suc zero)))) x rest = ChannelMsg.chat_read
by_late_tag (suc (suc (suc (suc (suc n))))) x rest = ChannelMsg.relay_msg x rest

abbrev by_tag : ℕ → ℕ → Bytes → ChannelMsg Unit
by_tag zero x rest = ChannelMsg.interp_share (read_entries x rest)
by_tag (suc zero) x rest = ChannelMsg.consent_handshake tt
by_tag (suc (suc zero)) x rest = ChannelMsg.status_update (to_status x)
by_tag (suc (suc (suc zero))) x rest = ChannelMsg.call_offer x
by_tag (suc (suc (suc (suc zero)))) x rest = ChannelMsg.call_accept x
by_tag (suc (suc (suc (suc (suc n))))) x rest = by_late_tag n x rest

abbrev read_msg : Bytes → Option (ChannelMsg Unit)
read_msg [] = none
read_msg (tag ∷ []) = none
read_msg (tag ∷ x ∷ rest) = some (by_tag tag x rest)

abbrev cbor : Cbor Unit
cbor = record { cbor_encode = write_msg; from_reader = read_msg }

status_read_back : (s : PeerStatus) → to_status (from_status s) ≡ s
status_read_back active = refl
status_read_back away = refl

cbor-IsCbor : IsCbor cbor
cbor-IsCbor (ChannelMsg.interp_share entries) =
    ap (λ es. some (ChannelMsg.interp_share es)) (entries_read_back entries)
cbor-IsCbor (ChannelMsg.consent_handshake blob) = refl
cbor-IsCbor (ChannelMsg.status_update status) =
    ap (λ s. some (ChannelMsg.status_update s)) (status_read_back status)
cbor-IsCbor (ChannelMsg.call_offer session) = refl
cbor-IsCbor (ChannelMsg.call_accept session) = refl
cbor-IsCbor (ChannelMsg.call_reject session) = refl
cbor-IsCbor (ChannelMsg.call_hangup session) = refl
cbor-IsCbor (ChannelMsg.chat_msg text) = refl
cbor-IsCbor (ChannelMsg.typing_indicator on) =
    ap (λ b. some (ChannelMsg.typing_indicator b)) (bool_read_back on)
cbor-IsCbor ChannelMsg.chat_read = refl
cbor-IsCbor (ChannelMsg.relay_msg dest payload) = refl

arrays : All IsArray (community_for_keys (run toy new_db calls) (sig ∷ []) 100)
unfolding community_for_keys zodia.Sql.order_by zodia.Prelude.select run
    zodia.Store.Interps.insert_response_from_op zodia.Store.Interps.affirm
    zodia.Store.Interps.insert_interpretation zodia.Store.Interps.insert_signed
    zodia.Core.Interp.to_sig zodia.Prelude.bytes_eq zodia.Store.Interps.insert_received
arrays = (omega arith, tt)

do_interp_sync-collect_entries_example :
    let link = link_with cbor (collect_entries (run toy new_db calls) (sig ∷ [])) in
    let (db, n) = do_interp_sync toy cbor new_db link (λ i. 200 + i) in
    All
      (λ e. holds toy db (to_wire e) ≡ true)
      (community_for_keys (run toy new_db calls) (sig ∷ []) 100)
    × ((length db.interpretations ≡ length new_db.interpretations + n)
        × (do_interp_sync toy cbor db link (λ i. 300 + i) ≡ (db, 0)))
unfolding zodia.Store.Interps.signing_payload zodia.Core.Interp.to_sig
do_interp_sync-collect_entries_example =
    do_interp_sync-collect_entries toy cbor cbor-IsCbor calls
      ((refl, refl), (tt, (tt, (tt, (tt, tt))))) (sig ∷ []) arrays new_db (λ i. 200 + i)
      (λ i. 300 + i)

-- The text whose signature verifies arrives.
one_arrives :
    (do_interp_sync toy cbor new_db
      (link_with cbor (collect_entries (run toy new_db calls) (sig ∷ [])))
      (λ i. 200 + i)).1
    ≡ 1
unfolding do_interp_sync zodia.Channel.exchange_interps collect_entries zodia.Sql.order_by
    zodia.Prelude.select run zodia.Store.Interps.insert_response_from_op zodia.Store.Interps.affirm
    zodia.Store.Interps.insert_interpretation zodia.Store.Interps.insert_signed
    zodia.Core.Interp.to_sig zodia.Prelude.bytes_eq zodia.Prelude.bytes_of zodia.Prelude.number_of
one_arrives = refl
