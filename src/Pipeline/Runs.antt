-- ===== src/Pipeline/Runs.antt =====
-- Runs of the pipeline: whatever the order in which its stages are fed, moved and polled.
use mathlib.Core.List.{Perm, perm_middle}
use mathlib.Core.List.Perm
use mathlib.Core.Path.{subst}
use zodia.Prelude.{
  ℕ, ◌≡◌, refl, sym, ap, ◌∙◌, ◌⊎◌, Option, none, some, inl, inr, List, [], ◌∷◌, ◌++◌, map, Bytes,
}
use zodia.Ops.{extract, OpCodecError, Decoded, Codec, ok, err}
use zodia.Pipeline.{
  StateEvent, no_body, Operation, DecodeOutput, DecodeProcessor, MaterializationProcessor, Outcome,
  done, panicked, materialize_interp, materialize_doc, materialize_circle_content, decode_op, drain,
  decode_process, decode_next, timed, pushed, event_for, materialization_process,
  materialization_next,
}

abbrev pub or_zero : Option ℕ → ℕ
or_zero none = 0
or_zero (some t) = t

-- The pipeline, the operations it was fed and the events that were taken from it, newest first.
pub record Run (S : Type 0) : Type 0 where
  pub decode : DecodeProcessor S
  pub materialize : MaterializationProcessor
  pub fed : List (Operation S)
  pub taken : List StateEvent

-- `ZodiaPipeline::new`
abbrev pub new_run : {S : Type 0} → Run S
new_run = record {
  decode = record { inbox = []; outbox = [] };
  materialize = record { outbox = [] };
  fed = [];
  taken = [];
}

pub Decoded-cases :
    {A : Type 0} (d : Decoded A) → ((a : A) × (d ≡ ok a)) ⊎ ((e : OpCodecError) × (d ≡ err e))
Decoded-cases (ok a) = inl (a, refl)
Decoded-cases (err e) = inr (e, refl)

pushed-done :
    (p : MaterializationProcessor) (o : Outcome StateEvent) (m : MaterializationProcessor)
    → pushed p o ≡ done m
    → (event : StateEvent) × (o ≡ done event) × (m.outbox ≡ event ∷ p.outbox)
pushed-done p panicked m h = cc
pushed-done p (done event) m h = (event, refl, sym (ap (λ q. q.outbox) same))
  where
    same : ◌≡◌ {A = MaterializationProcessor} (record { outbox = event ∷ p.outbox }) m
    same = cc

materialization_next-some :
    (outbox : List StateEvent) (event : StateEvent) (m : MaterializationProcessor)
    → materialization_next (record { outbox = outbox }) ≡ some (event, m)
    → outbox ≡ event ∷ m.outbox
unfolding materialization_next
materialization_next-some [] event m h = cc
materialization_next-some (x ∷ xs) event m h = sym (ap (λ p. p.0 ∷ p.1.outbox) same)
  where
    same : ◌≡◌ {A = StateEvent × MaterializationProcessor} (event, m) (x, record { outbox = xs })
    same = cc

timed-done :
    (o : Option ℕ) (f : ℕ → StateEvent) (event : StateEvent)
    → timed o f ≡ done event
    → f (or_zero o) ≡ event
timed-done none f event h = cc
timed-done (some t) f event h = cc

module _ {A : Type 0} (taken mat : List A) (x : A) (dec : List A) {fed : List A} where
  moved_Perm : Perm (taken ++ (mat ++ x ∷ dec)) fed → Perm (taken ++ (x ∷ mat ++ dec)) fed
  moved_Perm h = Perm.trans (Perm.append_left taken (Perm.symm (perm_middle mat dec))) h

  taken_Perm : Perm (taken ++ (x ∷ mat ++ dec)) fed → Perm (x ∷ taken ++ (mat ++ dec)) fed
  taken_Perm h = Perm.trans (Perm.symm (perm_middle taken (mat ++ dec))) h

  fed_Perm : Perm (taken ++ (mat ++ dec)) fed → Perm (taken ++ (mat ++ x ∷ dec)) (x ∷ fed)
  fed_Perm h =
      Perm.trans (Perm.append_left taken (perm_middle mat dec))
        (Perm.trans (perm_middle taken (mat ++ dec)) (Perm.cons x h))

module _ (k : Codec) {S : Type 0} where
  -- One call of a stage. A decoded operation moves on where materialising it does not panic.
  pub data Step : Run S → Run S → Type 0 where
    feed :
        {r : Run S} (op : Operation S)
        → Step r (record r { decode = decode_process k r.decode op; fed = op ∷ r.fed })
    move :
        {r : Run S} (out : DecodeOutput S) (d : DecodeProcessor S) (m : MaterializationProcessor)
        → decode_next r.decode ≡ some (out, d)
        → materialization_process r.materialize out ≡ done m
        → Step r (record r { decode = d; materialize = m })
    take :
        {r : Run S} (event : StateEvent) (m : MaterializationProcessor)
        → materialization_next r.materialize ≡ some (event, m)
        → Step r (record r { materialize = m; taken = event ∷ r.taken })

  pub data Reaches (s : Run S) : Run S → Type 0 where
    start : Reaches s s
    then_step : {t u : Run S} → Reaches s t → Step t u → Reaches s u

  unfoldable pub stamp : Operation S → ℕ
  unfolding extract
  stamp op = or_zero (extract op.extensions)

  abbrev pub event_of_body : Operation S → Option Bytes → StateEvent
  event_of_body op none = StateEvent.skipped no_body
  event_of_body op (some bytes) =
      materialize_circle_content k op.hash op.verifying_key (stamp op) bytes

  -- The event of an operation: what its body materialises to, without the stages.
  unfoldable pub event_of : Operation S → StateEvent
  unfolding materialize_circle_content
  event_of op = event_of_body op op.body

  -- The event that a decoded operation stands for.
  unfoldable pub meaning : DecodeOutput S → StateEvent
  unfolding materialize_interp materialize_doc
  meaning (DecodeOutput.skipped reason) = StateEvent.skipped reason
  meaning (DecodeOutput.decoded op interp) =
      materialize_interp op.hash op.verifying_key (stamp op) interp
  meaning (DecodeOutput.decoded_doc op doc) =
      materialize_doc op.hash op.verifying_key (stamp op) doc

  meaning-decode_op :
      (op : Operation S) (body : Option Bytes)
      → meaning (decode_op k op body) ≡ event_of_body op body
  unfolding meaning decode_op materialize_circle_content
  meaning-decode_op op none = refl
  meaning-decode_op op (some b) = elim (Decoded-cases (k.read_interp b)) [
    | inl (interp, e) ↦ rw (decode_op, materialize_circle_content, e) refl
    | inr (_, e) ↦ elim (Decoded-cases (k.read_doc b)) [
      | inl (doc, f) ↦ rw (decode_op, materialize_circle_content, e, f) refl
      | inr (_, f) ↦ rw (decode_op, materialize_circle_content, e, f) refl
    ]
  ]

  -- Nothing waits in the inbox, and every operation is an event taken or under way.
  pub record IsAccounted (r : Run S) : Type 0 where
    pub inbox_empty : r.decode.inbox ≡ []
    pub accounted :
        Perm (r.taken ++ (r.materialize.outbox ++ map meaning r.decode.outbox)) (map event_of r.fed)

  pub decode_next-some :
      (inbox : List (Operation S)) (outbox : List (DecodeOutput S)) (out : DecodeOutput S)
      (d : DecodeProcessor S)
      → decode_next (record { inbox = inbox; outbox = outbox }) ≡ some (out, d)
      → (d.inbox ≡ inbox) × (outbox ≡ out ∷ d.outbox)
  unfolding decode_next
  decode_next-some inbox [] out d h = cc
  decode_next-some inbox (x ∷ xs) out d h =
      (ap (λ p. p.1.inbox) q, sym (ap (λ p. p.0 ∷ p.1.outbox) q))
    where
      q :
          ◌≡◌ {A = DecodeOutput S × DecodeProcessor S}
            (out, d)
            (x, record { inbox = inbox; outbox = xs })
      q = cc

  done-meaning :
      (out : DecodeOutput S) (event : StateEvent) → event_for out ≡ done event → meaning out ≡ event
  unfolding event_for meaning stamp
  done-meaning (DecodeOutput.skipped reason) event h = cc
  done-meaning (DecodeOutput.decoded op interp) event h =
      timed-done (extract op.extensions) _ event h
  done-meaning (DecodeOutput.decoded_doc op doc) event h =
      timed-done (extract op.extensions) _ event h

  process-done :
      (p : MaterializationProcessor) (out : DecodeOutput S) (m : MaterializationProcessor)
      → materialization_process p out ≡ done m
      → m.outbox ≡ meaning out ∷ p.outbox
  unfolding materialization_process
  process-done p out m h =
      let (event, e, f) = pushed-done p (event_for out) m h in
      f ∙ ap (λ x. x ∷ p.outbox) (sym (done-meaning out event e))

  move-IsAccounted :
      (r : Run S) (out : DecodeOutput S) (d : DecodeProcessor S) (m : MaterializationProcessor)
      → decode_next r.decode ≡ some (out, d)
      → materialization_process r.materialize out ≡ done m
      → IsAccounted r
      → IsAccounted (record r { decode = d; materialize = m })
  move-IsAccounted r out d m h g w =
      let (e, f) = decode_next-some r.decode.inbox r.decode.outbox out d h in
      record {
        inbox_empty = e ∙ w.inbox_empty;
        accounted =
            subst (λ o. Perm (r.taken ++ (o ++ map meaning d.outbox)) (map event_of r.fed))
              (sym (process-done r.materialize out m g))
              (moved_Perm r.taken r.materialize.outbox (meaning out) (map meaning d.outbox) (
                subst
                  (λ o.
                    Perm (r.taken ++ (r.materialize.outbox ++ map meaning o)) (map event_of r.fed))
                  f w.accounted));
      }

  take-IsAccounted :
      (r : Run S) (event : StateEvent) (m : MaterializationProcessor)
      → materialization_next r.materialize ≡ some (event, m)
      → IsAccounted r
      → IsAccounted (record r { materialize = m; taken = event ∷ r.taken })
  take-IsAccounted r event m h w = record {
    inbox_empty = w.inbox_empty;
    accounted = taken_Perm r.taken m.outbox event (map meaning r.decode.outbox) (
        subst (λ o. Perm (r.taken ++ (o ++ map meaning r.decode.outbox)) (map event_of r.fed))
          (materialization_next-some r.materialize.outbox event m h) w.accounted);
  }

  feed-IsAccounted :
      (r : Run S) (op : Operation S)
      → IsAccounted r
      → IsAccounted (record r { decode = decode_process k r.decode op; fed = op ∷ r.fed })
  unfolding decode_process drain event_of
  feed-IsAccounted r op w = rw w.inbox_empty (record {
    inbox_empty = refl;
    accounted = rw (meaning-decode_op op op.body) (
        fed_Perm r.taken r.materialize.outbox (event_of op) (map meaning r.decode.outbox)
          w.accounted);
  })

  Step-IsAccounted : {r s : Run S} → Step r s → IsAccounted r → IsAccounted s
  Step-IsAccounted (feed {r = r} op) w = feed-IsAccounted r op w
  Step-IsAccounted (move {r = r} out d m h g) w = move-IsAccounted r out d m h g w
  Step-IsAccounted (take {r = r} event m h) w = take-IsAccounted r event m h w

  pub Reaches-keeps : {r s : Run S} → Reaches r s → IsAccounted r → IsAccounted s
  Reaches-keeps start w = w
  Reaches-keeps (then_step before step) w = Step-IsAccounted step (Reaches-keeps before w)

  -- Whatever the order of the calls: the events taken and those still under way are, up to order,
  -- the events of the operations fed, each once, and no operation waits in the inbox.
  pub Reaches-IsAccounted : (r : Run S) → Reaches new_run r → IsAccounted r
  Reaches-IsAccounted r reached =
      Reaches-keeps reached (record { inbox_empty = refl; accounted = Perm.rfl })
