-- ===== src/Ops.antt =====
-- ops/src/lib.rs: the operations that replicate, what a header carries for them, and their coding,
-- over the CBOR library ciborium. A hash or a key is the number whose little-endian bytes it holds.
use zodia.Prelude.{ℕ, ◌%◌, ◌^◌, ◌≡◌, Bool, Option, none, some, List, Bytes, ◌++◌, codes}

-- `ZodiaExtensions`. The arguments of a circle's operation belong to p2panda-spaces.
pub data ZodiaExtensions (S : Type 0) : Type 0 where
  interp : (timestamp : ℕ) → ZodiaExtensions S
  circle : (args : S) → ZodiaExtensions S

pub data InterpOp : Type 0 where
  author : (interp_key body : Bytes) → InterpOp
  affirm : (target_log_id : ℕ) → InterpOp
  respond_to : (parent_log_id : ℕ) (body : Bytes) → InterpOp
  revoke : (target_log_id : ℕ) → InterpOp
  set_display_name : (name : Bytes) → InterpOp
  circle_invite_notify : (circle_id recipient : ℕ) → InterpOp
  circle_join_notify : (circle_id : ℕ) → InterpOp

pub data DocOp : Type 0 where
  edit :
      (interp_key : Bytes) (base_rev : ℕ) (crdt_update : Bytes) (affected_blocks : List ℕ)
      (ai_generated : Bool)
      → DocOp
  veto : (interp_key : Bytes) (target_edit_op_id : ℕ) → DocOp
  affirm_rev : (interp_key : Bytes) (target_rev : ℕ) → DocOp
  editor_presence : (interp_key : Bytes) (joined : Bool) → DocOp
  retract_affirm : (interp_key : Bytes) (target_rev : ℕ) → DocOp

-- `OpCodecError`
pub data OpCodecError : Type 0 where
  decode : (message : Bytes) → OpCodecError

pub data Decoded (A : Type 0) : Type 0 where
  ok : A → Decoded A
  err : OpCodecError → Decoded A

-- What the operations take from ciborium and blake3.
pub record Codec : Type 0 where
  pub write_interp : InterpOp → Bytes
  pub write_doc : DocOp → Bytes
  -- the value, or the error's text
  pub read_interp : Bytes → Decoded InterpOp
  pub read_doc : Bytes → Decoded DocOp
  pub blake3 : Bytes → ℕ

-- What serde documents of enums written with the names of their variants: a value is read back, and
-- the variants of one enum are not those of the other.
pub record IsCodec (k : Codec) : Type 0 where
  pub interp_read_back : (op : InterpOp) → k.read_interp (k.write_interp op) ≡ ok op
  pub doc_read_back : (op : DocOp) → k.read_doc (k.write_doc op) ≡ ok op
  pub doc_not_interp : (op : DocOp) → (e : OpCodecError) × (k.read_interp (k.write_doc op) ≡ err e)

-- `<ZodiaExtensions as Extension<Timestamp>>::extract`
unfoldable pub extract : {S : Type 0} → ZodiaExtensions S → Option ℕ
extract (ZodiaExtensions.interp timestamp) = some timestamp
extract (ZodiaExtensions.circle args) = none

unfoldable pub interp_key : DocOp → Bytes
interp_key (DocOp.edit key base update blocks ai) = key
interp_key (DocOp.veto key target) = key
interp_key (DocOp.affirm_rev key rev) = key
interp_key (DocOp.editor_presence key joined) = key
interp_key (DocOp.retract_affirm key rev) = key

-- The log that the operations on a key are published to: the first 8 bytes of the digest.
unfoldable pub log_id_for_key : Codec → Bytes → ℕ
log_id_for_key k key = k.blake3 (codes "interp-log:v1:" ++ key) % 2 ^ 64
