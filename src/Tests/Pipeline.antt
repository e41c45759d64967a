-- ===== src/Tests/Pipeline.antt =====
-- Tests of the pipeline, on a codec of two operations.
use zodia.Prelude.{ℕ, zero, suc, ◌≡◌, refl, Option, none, some, List, [], ◌∷◌, Bytes, codes}
use zodia.Ops.{extract, ZodiaExtensions, InterpOp, DocOp, OpCodecError, Decoded, ok, err, Codec}
use zodia.Pipeline.{
  StateEvent, Operation, DecodeOutput, decode_op, drain, materialize_interp, materialize_doc,
  materialize_circle_content, no_body, malformed_op, decode_process, decode_next,
  materialization_process, materialization_next,
}
use zodia.Pipeline.Runs.{
  Run, new_run, Reaches, start, then_step, feed, move, take, event_of, IsAccounted,
  Reaches-IsAccounted,
}
use zodia.Pipeline.Completion.{IsFinished, IsStamped, Reaches-completes}

-- A byte 0 before the new name is a display name, another byte before the target and the key a veto.
abbrev pub read_name : Bytes → Decoded InterpOp
read_name [] = err (OpCodecError.decode (codes "empty"))
read_name (zero ∷ name) = ok (InterpOp.set_display_name name)
read_name (suc n ∷ rest) = err (OpCodecError.decode (codes "unknown"))

abbrev pub read_veto : Bytes → Decoded DocOp
read_veto [] = err (OpCodecError.decode (codes "empty"))
read_veto (tag ∷ []) = err (OpCodecError.decode (codes "short"))
read_veto (tag ∷ target ∷ key) = ok (DocOp.veto key target)

abbrev pub two_ops : Codec
two_ops = record {
  write_interp = λ op. [];
  write_doc = λ op. [];
  read_interp = read_name;
  read_doc = read_veto;
  blake3 = λ bytes. 0;
}

abbrev op : ℕ → ℕ → Option Bytes → Operation Unit
op hash time body = record {
  hash = hash;
  verifying_key = 5;
  extensions = ZodiaExtensions.interp time;
  body = body;
}

-- A name and a veto are fed before anything is polled, then an operation without a body.
abbrev ops : List (Operation Unit)
ops = op 3 30 none ∷ op 2 20 (some (1 ∷ 9 ∷ codes "key")) ∷ op 1 10 (some (0 ∷ codes "Bob")) ∷ []

abbrev fed_all : Run Unit
fed_all = record {
  decode = record {
    inbox = [];
    outbox =
        DecodeOutput.skipped no_body
        ∷ DecodeOutput.decoded_doc (op 2 20 (some (1 ∷ 9 ∷ codes "key")))
            (DocOp.veto (codes "key") 9)
        ∷ DecodeOutput.decoded (op 1 10 (some (0 ∷ codes "Bob")))
            (InterpOp.set_display_name (codes "Bob"))
        ∷ [];
  };
  materialize = record { outbox = [] };
  fed = ops;
  taken = [];
}

reached : Reaches two_ops new_run fed_all
unfolding decode_process drain decode_op
reached =
    then_step
      (then_step (then_step start (feed (op 1 10 (some (0 ∷ codes "Bob")))))
        (feed (op 2 20 (some (1 ∷ 9 ∷ codes "key")))))
      (feed (op 3 30 none))

-- The event of the veto, without the stages.
veto_event :
    event_of two_ops (op 2 20 (some (1 ∷ 9 ∷ codes "key")))
    ≡ StateEvent.doc_veto_proposed 2 5 (codes "key") 9 20
unfolding event_of materialize_circle_content materialize_doc zodia.Pipeline.Runs.stamp extract
veto_event = refl

Reaches-completes_example : (s : Run Unit) × Reaches two_ops fed_all s × IsFinished two_ops s ops
unfolding IsStamped extract
Reaches-completes_example =
    Reaches-completes two_ops fed_all reached ((30, refl), ((20, refl), ((10, refl), tt)))
