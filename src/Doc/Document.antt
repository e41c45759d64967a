-- ===== src/Doc/Document.antt =====
-- doc/src/lib.rs: `InterpDoc`, over the CRDT library loro; its local edits are in LocalEdits.
use zodia.Prelude.{ℕ, ◌%◌, ◌^◌, Bool, Option, none, some, List, [], ◌∷◌, ◌++◌, Bytes, bytes_of}

-- What the document layer takes from loro, blake3 and ed25519-dalek, over the type of loro
-- documents.
pub record Crdt (D : Type 0) : Type 0 where
  -- `VerifyingKey::from_bytes` accepts the bytes
  pub is_key : ℕ → Bool
  -- `LoroDoc::new`
  pub new_doc : D
  -- `set_peer_id`, whose result is ignored
  pub set_peer_id : D → ℕ → D
  pub import_bytes : D → Bytes → Option D
  -- `export(ExportMode::Snapshot)`
  pub export_snapshot : D → Option Bytes
  -- `state_frontiers`: peers with the bits of their counters
  pub state_frontiers : D → List (ℕ × ℕ)
  pub blake3 : Bytes → ℕ

pub record InterpDoc (D : Type 0) : Type 0 where
  pub inner : D
  pub local_peer : ℕ

-- The first 8 bytes of the key.
abbrev pub peer_id_from : ℕ → ℕ
peer_id_from vk = vk % 2 ^ 64

abbrev pub body_block_id : ℕ
body_block_id = 0

unfoldable pub frontier_bytes : List (ℕ × ℕ) → Bytes
frontier_bytes [] = []
frontier_bytes ((peer, counter) ∷ ids) =
    bytes_of 8 peer ++ (bytes_of 4 counter ++ frontier_bytes ids)

module _ {D : Type 0} (loro : Crdt D) where
  unfoldable pub empty : ℕ → InterpDoc D
  empty local =
      let local_peer = peer_id_from local in
      record { inner = loro.set_peer_id loro.new_doc local_peer; local_peer = local_peer }

  abbrev pub with_peer : ℕ → Option D → Option (InterpDoc D)
  with_peer local_peer none = none
  with_peer local_peer (some inner) = some (record { inner = inner; local_peer = local_peer })

  unfoldable pub from_snapshot : ℕ → Bytes → Option (InterpDoc D)
  from_snapshot local bytes =
      let local_peer = peer_id_from local in
      with_peer local_peer (loro.import_bytes (loro.set_peer_id loro.new_doc local_peer) bytes)

  -- The document after the import, and the blocks whose rings the editor joins.
  unfoldable pub apply_remote : InterpDoc D → Bytes → Option (InterpDoc D × List ℕ)
  apply_remote doc update = elim (loro.import_bytes doc.inner update) [
    | none ↦ none
    | some inner ↦ some (record doc { inner = inner }, body_block_id ∷ [])
  ]

  unfoldable pub snapshot : InterpDoc D → Option Bytes
  snapshot doc = loro.export_snapshot doc.inner

  unfoldable pub current_rev : InterpDoc D → ℕ
  unfolding frontier_bytes
  current_rev doc = loro.blake3 (frontier_bytes (loro.state_frontiers doc.inner))
