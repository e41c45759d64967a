-- ===== src/Tests/Docs.antt =====
-- Tests of the documents' snapshots, rings, votes and vetoes.
use zodia.Prelude.{
  ℕ, ◌+◌, ◌*◌, ◌^◌, ◌≤◌, ◌<◌, ◌≡◌, ◌↔◌, refl, Bool, true, false, not, ◌&&◌, if◌then◌else◌, Option,
  none, some, List, [], ◌∷◌, ◌++◌, Bytes, codes, length, All, ◌==◌, nat_eq, bytes_instance, arith,
}
use zodia.Doc.{RingEntry, ring_size, evict, from_entries, contains, newest, veto_authorised}
use mathlib.Core.List.{Memᴰ}
use zodia.Doc.Ring.{last_entries, push_all, push_all-from_entries, veto_authorised_iff}
use zodia.Store.{Db, new_db}
use zodia.Store.Docs.{
  doc_load, doc_save, LastEdit, doc_load_meta, doc_rollback, block_ring_get, block_ring_push,
}
use zodia.Store.Docs.Rings.{block_ring_push_lem}
use zodia.Store.Docs.Snapshots.{no_history, undone, doc_rollback-edited}
use zodia.App.Blocks.{encode_blocks, decode_blocks, decode_blocks-encode_blocks}
use zodia.Doc.Document.{InterpDoc}
use zodia.App.Docs.{apply_doc_edit, apply_doc_veto, edit_entry}
use zodia.App.Docs.Vetoes.{Lands, apply_doc_veto-apply_doc_edit}
use zodia.App.Docs.Refusals.{apply_doc_veto-refused, apply_doc_veto-own_edit}
use zodia.Tests.{appending, by_peer, old_entry, sig, hello}

abbrev db : Db
db = block_ring_push (doc_save new_db sig hello 5 800) sig 3 old_entry

abbrev edit : LastEdit
edit = record { op_id = 50; ts = 1000; author = 5; blocks = encode_blocks (3 ∷ []) }

abbrev restored_hello : InterpDoc Bytes
restored_hello = record { inner = hello; local_peer = 4 }

lands : Lands appending db by_peer 1 1001 3 hello (hello ++ codes "!") 884031
unfolding doc_load block_ring_push doc_save zodia.Prelude.bytes_eq zodia.App.Docs.edit_document
    zodia.Doc.Document.from_snapshot zodia.Doc.Document.apply_remote zodia.Doc.Document.snapshot
    zodia.Doc.Document.current_rev zodia.Prelude.bytes_of
lands = record {
  editor_ok = refl;
  me_ok = refl;
  remote = refl;
  present = refl;
  merges = refl;
  one_block = refl;
}

apply_doc_veto-apply_doc_edit_example :
    ((apply_doc_veto appending (apply_doc_edit appending db by_peer 1 1001) 50 4 (some sig) 2000).1
      ≡ some (sig, (5, 50)))
    × ((doc_load
            (apply_doc_veto appending
              (apply_doc_edit appending db by_peer 1 1001)
              50
              4
              (some sig)
              2000).0
            sig
          ≡ some hello)
        × (block_ring_get
              (apply_doc_veto appending
                (apply_doc_edit appending db by_peer 1 1001)
                50
                4
                (some sig)
                2000).0
              sig
              3
            ≡ block_ring_get db sig 3))
unfolding block_ring_get zodia.Sql.order_by zodia.Prelude.select block_ring_push doc_save
    zodia.Prelude.bytes_eq zodia.Doc.Document.from_snapshot
apply_doc_veto-apply_doc_edit_example =
    apply_doc_veto-apply_doc_edit appending db by_peer 1 1001 3 hello (hello ++ codes "!") 884031 4
      2000 restored_hello sig 3 (omega arith) refl (omega arith) (omega arith) lands refl refl

apply_doc_veto-own_edit_example :
    apply_doc_veto appending (apply_doc_edit appending db by_peer 5 1001) 50 4 (some sig) 2000
    ≡ (apply_doc_edit appending db by_peer 5 1001, none)
unfolding block_ring_push zodia.Prelude.select doc_save zodia.Sql.order_by
apply_doc_veto-own_edit_example =
    apply_doc_veto-own_edit appending db by_peer 1001 4 2000 (some sig) (refl, tt)

apply_doc_veto-refused_example : (apply_doc_veto appending db 50 4 (some sig) 2000).0 ≡ db
unfolding apply_doc_veto doc_load_meta block_ring_push doc_save zodia.Prelude.bytes_eq
apply_doc_veto-refused_example = apply_doc_veto-refused appending db 50 4 (some sig) 2000 refl

doc_rollback-edited_example :
    ((undone db sig (codes "new") 6 hello edit 1001 3 old_entry 7 1002).1 ≡ true)
    × ((doc_load (undone db sig (codes "new") 6 hello edit 1001 3 old_entry 7 1002).0 sig
          ≡ some hello)
        × ((doc_load_meta (undone db sig (codes "new") 6 hello edit 1001 3 old_entry 7 1002).0 sig
              ≡ some no_history)
            × ((block_ring_get
                    (undone db sig (codes "new") 6 hello edit 1001 3 old_entry 7 1002).0
                    sig
                    3
                  ≡ block_ring_get db sig 3)
                × (doc_rollback
                      (undone db sig (codes "new") 6 hello edit 1001 3 old_entry 7 1002).0
                      sig
                      7
                      (3 ∷ [])
                      1002
                    ≡ (
                      (undone db sig (codes "new") 6 hello edit 1001 3 old_entry 7 1002).0,
                      false,
                    )))))
unfolding block_ring_get zodia.Sql.order_by zodia.Prelude.select block_ring_push doc_save
    zodia.Prelude.bytes_eq
doc_rollback-edited_example =
    doc_rollback-edited db sig (codes "new") 6 hello edit 1001 3 old_entry 7 1002 sig 3
      (omega arith)

block_ring_push_lem_example : block_ring_get (block_ring_push db sig 3 old_entry) sig 3 ≡ (
    if sig == sig && true
    then last_entries 5 (block_ring_get db sig 3 ++ old_entry ∷ [])
    else block_ring_get db sig 3)
block_ring_push_lem_example = block_ring_push_lem db sig 3 old_entry sig 3

abbrev entries : List RingEntry
entries =
    record { author = 1; edit_op_id = 11; edited_at = 1 }
    ∷ record { author = 2; edit_op_id = 12; edited_at = 2 }
    ∷ []

abbrev last_entry : RingEntry
last_entry = record { author = 3; edit_op_id = 13; edited_at = 3 }

push_all-from_entries_example :
    (push_all [] (entries ++ last_entry ∷ []) ≡ from_entries (entries ++ last_entry ∷ []))
    × ((length (push_all [] (entries ++ last_entry ∷ [])) ≤ ring_size)
        × (newest (push_all [] (entries ++ last_entry ∷ [])) ≡ some last_entry))
push_all-from_entries_example = push_all-from_entries entries last_entry

veto_authorised_iff_example : (veto_authorised entries 1 12 2 500 ≡ true) ↔ (
    ((x : RingEntry) × (Memᴰ x entries × (x.author ≡ 1)))
    × ((500 ≤ 2 + 604800)
        × ((older : List RingEntry) × (e : RingEntry) × ((entries ≡ older ++ e ∷ [])
              × (e.edit_op_id ≡ 12)))))
veto_authorised_iff_example = veto_authorised_iff entries 1 12 2 500

decode_blocks-encode_blocks_example :
    decode_blocks (encode_blocks (3 ∷ 70000 ∷ [])) ≡ 3 ∷ 70000 ∷ []
decode_blocks-encode_blocks_example =
    decode_blocks-encode_blocks (3 ∷ 70000 ∷ []) (omega arith, (omega arith, tt))
