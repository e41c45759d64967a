-- ===== src/Pipeline.antt =====
-- pipeline/src/lib.rs: the stages between replicated operations and the events of the application.
-- A `Vec` that is pushed and popped at its end is a list with the last element first; a future that
-- waits for more input answers `none`.
pub mod Runs
pub mod Completion
use zodia.Prelude.{ℕ, Bool, Option, none, some, List, [], ◌∷◌, Bytes}
use zodia.Ops.{ZodiaExtensions, extract, InterpOp, DocOp, OpCodecError, Decoded, ok, err, Codec}

pub data SkipReason : Type 0 where
  no_body : SkipReason
  malformed_op : (message : Bytes) → SkipReason

pub data StateEvent : Type 0 where
  interp_authored : (op_id author : ℕ) (interp_key body : Bytes) → StateEvent
  affirm_added : (target_log_id voter : ℕ) → StateEvent
  response_added : (op_id author parent_log_id : ℕ) (body : Bytes) → StateEvent
  interp_revoked : (op_id by target_log_id : ℕ) → StateEvent
  display_name_set : (op_id by : ℕ) (name : Bytes) (timestamp : ℕ) → StateEvent
  circle_invite_received : (op_id inviter circle_id recipient : ℕ) → StateEvent
  circle_member_joined : (op_id circle_id member : ℕ) → StateEvent
  doc_edited :
      (op_id by : ℕ) (interp_key : Bytes) (base_rev : ℕ) (crdt_update : Bytes)
      (affected_blocks : List ℕ) (timestamp : ℕ) (ai_generated : Bool)
      → StateEvent
  doc_veto_proposed :
      (op_id by : ℕ) (interp_key : Bytes) (target_edit_op_id timestamp : ℕ) → StateEvent
  doc_affirmed : (op_id by : ℕ) (interp_key : Bytes) (target_rev : ℕ) → StateEvent
  doc_affirm_retracted : (op_id by : ℕ) (interp_key : Bytes) (target_rev : ℕ) → StateEvent
  editor_presence_changed :
      (op_id by : ℕ) (interp_key : Bytes) (joined : Bool) (timestamp : ℕ) → StateEvent
  skipped : (reason : SkipReason) → StateEvent

-- What the stages read of a p2panda `Operation<ZodiaExtensions>`; `hash` is `header.hash()`.
pub record Operation (S : Type 0) : Type 0 where
  pub hash : ℕ
  pub verifying_key : ℕ
  pub extensions : ZodiaExtensions S
  pub body : Option Bytes

pub data DecodeOutput (S : Type 0) : Type 0 where
  decoded : (op : Operation S) (interp : InterpOp) → DecodeOutput S
  decoded_doc : (op : Operation S) (doc : DocOp) → DecodeOutput S
  skipped : (reason : SkipReason) → DecodeOutput S

pub record DecodeProcessor (S : Type 0) : Type 0 where
  pub inbox : List (Operation S)
  pub outbox : List (DecodeOutput S)

pub record MaterializationProcessor : Type 0 where
  pub outbox : List StateEvent

-- The result of a call that may panic.
pub data Outcome (A : Type 0) : Type 0 where
  done : A → Outcome A
  panicked : Outcome A

unfoldable pub materialize_interp : ℕ → ℕ → ℕ → InterpOp → StateEvent
materialize_interp op_id author timestamp (InterpOp.author key body) =
    interp_authored op_id author key body
materialize_interp op_id author timestamp (InterpOp.affirm target) = affirm_added target author
materialize_interp op_id author timestamp (InterpOp.respond_to parent body) =
    response_added op_id author parent body
materialize_interp op_id author timestamp (InterpOp.revoke target) =
    interp_revoked op_id author target
materialize_interp op_id author timestamp (InterpOp.set_display_name name) =
    display_name_set op_id author name timestamp
materialize_interp op_id author timestamp (InterpOp.circle_invite_notify circle recipient) =
    circle_invite_received op_id author circle recipient
materialize_interp op_id author timestamp (InterpOp.circle_join_notify circle) =
    circle_member_joined op_id circle author

unfoldable pub materialize_doc : ℕ → ℕ → ℕ → DocOp → StateEvent
materialize_doc op_id by ts (DocOp.edit key base update blocks ai) =
    doc_edited op_id by key base update blocks ts ai
materialize_doc op_id by ts (DocOp.veto key target) = doc_veto_proposed op_id by key target ts
materialize_doc op_id by ts (DocOp.affirm_rev key rev) = doc_affirmed op_id by key rev
materialize_doc op_id by ts (DocOp.retract_affirm key rev) = doc_affirm_retracted op_id by key rev
materialize_doc op_id by ts (DocOp.editor_presence key joined) =
    editor_presence_changed op_id by key joined ts

abbrev pub message : OpCodecError → Bytes
message (OpCodecError.decode m) = m

module _ (k : Codec) where
  unfoldable pub materialize_circle_content : ℕ → ℕ → ℕ → Bytes → StateEvent
  unfolding materialize_interp materialize_doc
  materialize_circle_content op_id author received_at plaintext = elim (k.read_interp plaintext) [
    | ok interp ↦ materialize_interp op_id author received_at interp
    | err _ ↦ elim (k.read_doc plaintext) [
      | ok doc ↦ materialize_doc op_id author received_at doc
      | err e ↦ StateEvent.skipped (malformed_op (message e))
    ]
  ]

  module _ {S : Type 0} where
    -- The loop's body: what one operation of the inbox decodes to.
    unfoldable pub decode_op : Operation S → Option Bytes → DecodeOutput S
    decode_op op none = skipped no_body
    decode_op op (some bytes) = elim (k.read_interp bytes) [
      | ok interp ↦ decoded op interp
      | err _ ↦ elim (k.read_doc bytes) [
        | ok doc ↦ decoded_doc op doc
        | err e ↦ skipped (malformed_op (message e))
      ]
    ]

    -- `while let Some(op) = pending.pop()`
    unfoldable pub drain : List (Operation S) → List (DecodeOutput S) → List (DecodeOutput S)
    unfolding decode_op
    drain [] outbox = outbox
    drain (op ∷ pending) outbox = drain pending (decode_op op op.body ∷ outbox)

    unfoldable pub decode_process : DecodeProcessor S → Operation S → DecodeProcessor S
    unfolding drain
    decode_process p input = record { inbox = []; outbox = drain (input ∷ p.inbox) p.outbox }

-- The `expect` on the timestamp, then the event.
abbrev pub timed : Option ℕ → (ℕ → StateEvent) → Outcome StateEvent
timed none event = panicked
timed (some timestamp) event = done (event timestamp)

abbrev pub pushed : MaterializationProcessor → Outcome StateEvent → Outcome MaterializationProcessor
pushed p panicked = panicked
pushed p (done event) = done (record { outbox = event ∷ p.outbox })

module _ {S : Type 0} where
  unfoldable pub decode_next : DecodeProcessor S → Option (DecodeOutput S × DecodeProcessor S)
  decode_next p = elim p.outbox [ [] ↦ none | out ∷ rest ↦ some (out, record p { outbox = rest }) ]

  unfoldable pub event_for : DecodeOutput S → Outcome StateEvent
  unfolding extract materialize_interp materialize_doc
  event_for (skipped reason) = done (StateEvent.skipped reason)
  event_for (decoded op interp) =
      timed (extract op.extensions) (λ t. materialize_interp op.hash op.verifying_key t interp)
  event_for (decoded_doc op doc) =
      timed (extract op.extensions) (λ t. materialize_doc op.hash op.verifying_key t doc)

  unfoldable pub materialization_process :
      MaterializationProcessor → DecodeOutput S → Outcome MaterializationProcessor
  unfolding event_for
  materialization_process p input = pushed p (event_for input)

unfoldable pub materialization_next :
    MaterializationProcessor → Option (StateEvent × MaterializationProcessor)
materialization_next p = elim p.outbox [
  | [] ↦ none
  | event ∷ rest ↦ some (event, record { outbox = rest })
]
