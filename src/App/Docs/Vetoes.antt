-- ===== src/App/Docs/Vetoes.antt =====
-- What a veto does to the store after the edit that it names.
use zodia.Prelude.{
  ℕ, ◌+◌, ◌*◌, ◌^◌, ◌≤◌, ◌<◌, ◌≡◌, refl, ap, ◌∙◌, Bool, true, false, ◌||◌, some, List, [], ◌∷◌,
  ◌++◌, Bytes, arith, length, length-append, any, map, ◌==◌, nat_eq, eq_refl, bytes_instance,
}
use zodia.Doc.{evict, from_entries, contains, newest, veto_authorised}
use zodia.Doc.Ring.{veto_authorised-newest, evict-short, last-snoc}
use zodia.Store.{Db}
use zodia.Store.Docs.{
  doc_load, doc_load_meta, doc_save_with_history, BlockEntry, block_ring_get, block_ring_push,
}
use zodia.Store.Docs.Rings.{block_ring_get-block_ring_push}
use zodia.Store.Docs.Snapshots.{
  edited, undone, doc_rollback-edited, doc_save_with_history_lem, history,
}
use zodia.App.Blocks.{encode_blocks, decode_blocks, decode_blocks-encode_blocks}
use zodia.Doc.Document.{Crdt, InterpDoc, from_snapshot, current_rev}
use zodia.App.Docs.{
  DocEdit, ring_entry, push_rings, edit_document, last_edit, edit_entry, apply_doc_edit,
  record_edit, veto_meta, honoured, authorised_on, roll_back, veto_blocks, veto_edit,
  apply_doc_veto,
}

map-snoc :
    {A B : Type 0} (f : A → B) (xs : List A) (y : A) → map f (xs ++ y ∷ []) ≡ map f xs ++ f y ∷ []
map-snoc f [] y = refl
map-snoc f (x ∷ xs) y = ap (λ zs. f x ∷ zs) (map-snoc f xs y)

length-map : {A B : Type 0} (f : A → B) (xs : List A) → length (map f xs) ≡ length xs
length-map f [] = refl
length-map f (x ∷ xs) = omega (arith, length-map f xs)

any-snoc :
    {A : Type 0} (p : A → Bool) (xs : List A) (y : A)
    → any p xs ≡ true
    → any p (xs ++ y ∷ []) ≡ true
any-snoc p [] y h = cc
any-snoc p (x ∷ xs) y h = ground (arith, any-snoc p xs y)

-- Whether somebody has an entry in the ring of a block.
abbrev pub in_ring : Db → Bytes → ℕ → ℕ → Bool
in_ring db key b who = any (λ r. r.author == who) (block_ring_get db key b)

any-mapped :
    (who : ℕ) (rs : List BlockEntry)
    → any (λ r. r.author == who) (map ring_entry rs) ≡ any (λ r. r.author == who) rs
any-mapped who [] = refl
any-mapped who (r ∷ rs) = ap (λ t. (r.author == who) || t) (any-mapped who rs)

module _ {D : Type 0} (loro : Crdt D) (db : Db) (e : DocEdit) (me now b : ℕ)
    (prior snapshot : Bytes) (rev : ℕ) where
  -- A remote edit of one block that lands on a document that is there.
  pub record Lands : Type 0 where
    pub editor_ok : loro.is_key e.editor_pk ≡ true
    pub me_ok : loro.is_key me ≡ true
    pub remote : (e.editor_pk == me) ≡ false
    pub present : doc_load db e.interp_key ≡ some prior
    pub merges : edit_document loro (some prior) me e.update ≡ some (snapshot, rev)
    pub one_block : e.affected_blocks ≡ b ∷ []

  after : Db
  after =
      edited db e.interp_key snapshot rev (some prior) (last_edit loro e) now b
        (edit_entry loro e now)

  landed : Lands → record_edit loro db e me now (some prior) (some (snapshot, rev)) ≡ after
  unfolding after push_rings record_edit
  landed h = rw (h.remote, h.one_block) refl

  applied : Lands → apply_doc_edit loro db e me now ≡ after
  unfolding apply_doc_edit
  applied h = rw (h.editor_ok, h.me_ok, h.present, h.merges, apply_doc_edit) (landed h)

  saved : Db
  saved = doc_save_with_history db e.interp_key snapshot rev (some prior) (last_edit loro e) now

  -- The metadata after the edit.
  meta_after : doc_load_meta after e.interp_key ≡ some (history (some prior) (last_edit loro e))
  unfolding after saved block_ring_push doc_load_meta
  meta_after =
      (doc_save_with_history_lem db e.interp_key snapshot rev (some prior) (last_edit loro e) now
        e.interp_key).1
      ∙ rw (eq_refl e.interp_key) refl

  same_rings : block_ring_get saved e.interp_key b ≡ block_ring_get db e.interp_key b
  unfolding saved block_ring_get doc_save_with_history
  same_rings = refl

  ring_after :
      block_ring_get after e.interp_key b
      ≡ evict (block_ring_get db e.interp_key b ++ edit_entry loro e now ∷ [])
  unfolding after saved
  ring_after =
      block_ring_get-block_ring_push saved e.interp_key b (edit_entry loro e now) e.interp_key b
      ∙ rw (eq_refl e.interp_key, eq_refl b)
          (ap (λ r. evict (r ++ edit_entry loro e now ∷ [])) same_rings)

  module _ (room : length (block_ring_get db e.interp_key b) < 5) where
    ring_grows :
        block_ring_get after e.interp_key b
        ≡ block_ring_get db e.interp_key b ++ edit_entry loro e now ∷ []
    ring_grows =
        ring_after
        ∙ evict-short (block_ring_get db e.interp_key b ++ edit_entry loro e now ∷ []) (
            omega (
              arith,
              room,
              length-append (block_ring_get db e.interp_key b) (edit_entry loro e now ∷ []),
            ))

    as_ring :
        from_entries (map ring_entry (block_ring_get after e.interp_key b))
        ≡ map ring_entry (block_ring_get db e.interp_key b)
          ++ ring_entry (edit_entry loro e now) ∷ []
    unfolding from_entries
    as_ring =
        ap (λ r. evict (map ring_entry r)) ring_grows
        ∙ ap evict (map-snoc ring_entry (block_ring_get db e.interp_key b) (edit_entry loro e now))
        ∙ evict-short _ (
            omega (
              arith,
              room,
              length-append (map ring_entry (block_ring_get db e.interp_key b))
                  (ring_entry (edit_entry loro e now) ∷ []),
              length-map ring_entry (block_ring_get db e.interp_key b),
            ))

    module _ (by later : ℕ) (member : in_ring db e.interp_key b by ≡ true)
        (in_time : later ≤ e.edit_ts + 7 * 86400) where
      authorised :
          veto_authorised
            (from_entries (map ring_entry (block_ring_get after e.interp_key b)))
            by
            e.edit_op_id
            e.edit_ts
            later
          ≡ true
      unfolding contains newest
      authorised = (veto_authorised-newest _ by e.edit_op_id e.edit_ts later).1 (
          rw as_ring (
            any-snoc (λ r. r.author == by) (map ring_entry (block_ring_get db e.interp_key b)) _
                (any-mapped by (block_ring_get db e.interp_key b) ∙ member),
            (
              in_time,
              (
                ring_entry (edit_entry loro e now),
                (last-snoc (map ring_entry (block_ring_get db e.interp_key b)) _, refl),
              ),
            ),
          ))

      authorised_here :
          authorised_on loro after e.interp_key (b ∷ []) by e.edit_op_id e.edit_ts later ≡ true
      unfolding authorised_on
      authorised_here = rw authorised refl

      module _ (restored : InterpDoc D) (small : b < 256 ^ 16) (lands : Lands)
          (revoker_ok : loro.is_key by ≡ true)
          (readable : from_snapshot loro by prior ≡ some restored) where
        back : Db × Bool
        back =
            undone db e.interp_key snapshot rev prior (last_edit loro e) now b
              (edit_entry loro e now) (current_rev loro restored) later

        back_facts :
            (j : Bytes) (a : ℕ)
            → (back.1 ≡ true)
              × ((doc_load back.0 e.interp_key ≡ some prior)
                  × (block_ring_get back.0 j a ≡ block_ring_get db j a))
        unfolding back
        back_facts j a =
            let facts =
              doc_rollback-edited db e.interp_key snapshot rev prior (last_edit loro e) now b
                (edit_entry loro e now) (current_rev loro restored) later j a room in
            (facts.0, (facts.1.0, facts.1.1.1.0))

        honoured-ran :
            (r : Db × Bool)
            → r.1 ≡ true
            → honoured loro e.interp_key e.editor_pk e.edit_op_id r
              ≡ (r.0, some (e.interp_key, (e.editor_pk, e.edit_op_id)))
        honoured-ran (d, true) h = refl
        honoured-ran (d, false) h = cc

        rolled :
            roll_back loro after e.interp_key e.edit_op_id
              (b ∷ [])
              (some prior)
              by
              e.editor_pk
              later
            ≡ (back.0, some (e.interp_key, (e.editor_pk, e.edit_op_id)))
        unfolding roll_back back after
        rolled = rw (revoker_ok, readable, roll_back) (honoured-ran back (back_facts [] 0).0)

        blocks : veto_blocks loro (history (some prior) (last_edit loro e)) ≡ b ∷ []
        unfolding veto_blocks
        blocks =
            ap (λ bs. decode_blocks (encode_blocks bs)) lands.one_block
            ∙ decode_blocks-encode_blocks (b ∷ []) (small, tt)

        vetoed :
            veto_meta loro after e.interp_key
              (some (history (some prior) (last_edit loro e)))
              e.edit_op_id
              by
              later
            ≡ (back.0, some (e.interp_key, (e.editor_pk, e.edit_op_id)))
        unfolding veto_meta veto_edit
        vetoed =
            rw (eq_refl e.edit_op_id, blocks, authorised_here)
              (ap
                  (λ bs.
                    roll_back loro after e.interp_key e.edit_op_id bs (some prior) by e.editor_pk
                      later)
                  blocks
                ∙ rolled)

        honoured-is :
            apply_doc_veto loro
              (apply_doc_edit loro db e me now)
              e.edit_op_id
              by
              (some e.interp_key)
              later
            ≡ (back.0, some (e.interp_key, (e.editor_pk, e.edit_op_id)))
        unfolding apply_doc_veto
        honoured-is = rw (applied lands, apply_doc_veto, meta_after) vetoed

-- A remote edit of one block lands on a document that the store holds: the editor's key and the
-- local one are accepted, the CRDT merges the update, the block's id fits 16 bytes and the block's
-- ring has room. A veto of it by somebody in that ring whose key is accepted, at most seven days
-- after the edit, where the CRDT restores the snapshot from before the edit, is honoured: it names
-- the document, the editor and the edit, the document holds that snapshot again, and a block of
-- any document has the ring that it had before the edit.
pub apply_doc_veto-apply_doc_edit :
    {D : Type 0} (loro : Crdt D) (db : Db) (e : DocEdit) (me now b : ℕ) (prior snapshot : Bytes)
    (rev by later : ℕ) (restored : InterpDoc D) (j : Bytes) (a : ℕ)
    → length (block_ring_get db e.interp_key b) < 5
    → in_ring db e.interp_key b by ≡ true
    → later ≤ e.edit_ts + 7 * 86400
    → b < 256 ^ 16
    → Lands loro db e me now b prior snapshot rev
    → loro.is_key by ≡ true
    → from_snapshot loro by prior ≡ some restored
    → ((apply_doc_veto loro
          (apply_doc_edit loro db e me now)
          e.edit_op_id
          by
          (some e.interp_key)
          later).1
        ≡ some (e.interp_key, (e.editor_pk, e.edit_op_id)))
      × ((doc_load
              (apply_doc_veto loro
                (apply_doc_edit loro db e me now)
                e.edit_op_id
                by
                (some e.interp_key)
                later).0
              e.interp_key
            ≡ some prior)
          × (block_ring_get
                (apply_doc_veto loro
                  (apply_doc_edit loro db e me now)
                  e.edit_op_id
                  by
                  (some e.interp_key)
                  later).0
                j
                a
              ≡ block_ring_get db j a))
apply_doc_veto-apply_doc_edit loro db e me now b prior snapshot rev by later restored j a room
      member in_time small lands revoker_ok readable =
    rw
      (honoured-is loro db e me now b prior snapshot rev room by later member in_time restored small
        lands revoker_ok readable)
      (
        refl,
        (back_facts loro db e me now b prior snapshot rev room by later member in_time restored
            small lands revoker_ok readable j a).1,
      )
