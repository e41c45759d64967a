-- ===== src/Pipeline/Completion.antt =====
-- The pipeline finishes: operations with a timestamp never make it panic or get stuck.
use mathlib.Core.List.{Perm}
use mathlib.Core.Path.{subst}
use zodia.Prelude.{
  ℕ, ◌≡◌, refl, ◌∙◌, Option, none, some, inl, inr, List, [], ◌∷◌, ◌++◌, map, All, Bytes, append_nil,
}
use zodia.Ops.{extract, Codec}
use zodia.Pipeline.{
  StateEvent, Operation, DecodeOutput, done, decode_op, drain, decode_process, decode_next,
  event_for, materialization_process, materialization_next,
}
use zodia.Pipeline.Runs.{
  Run, new_run, Decoded-cases, Step, feed, move, take, Reaches, start, then_step, event_of, meaning,
  IsAccounted, stamp, Reaches-keeps, Reaches-IsAccounted, decode_next-some,
}

-- The operation's header carries a timestamp.
unfoldable pub IsStamped : {S : Type 0} → Operation S → Type 0
unfolding extract
IsStamped op = (t : ℕ) × (extract op.extensions ≡ some t)

module _ (k : Codec) {S : Type 0} where
  -- Materialising the operation does not panic.
  abbrev IsReady : DecodeOutput S → Type 0
  unfolding event_for meaning
  IsReady out = event_for out ≡ done (meaning k out)

  decode_op-IsReady :
      (op : Operation S) (body : Option Bytes) → IsStamped op → IsReady (decode_op k op body)
  unfolding decode_op event_for meaning IsStamped stamp
  decode_op-IsReady op none (t, h) = refl
  decode_op-IsReady op (some b) (t, h) = elim (Decoded-cases (k.read_interp b)) [
    | inl (interp, e) ↦ rw (decode_op, e, event_for, meaning, h) refl
    | inr (_, e) ↦ elim (Decoded-cases (k.read_doc b)) [
      | inl (doc, f) ↦ rw (decode_op, e, f, event_for, meaning, h) refl
      | inr (_, f) ↦ rw (decode_op, e, f) refl
    ]
  ]

  Step-IsReady :
      {r s : Run S}
      → Step k r s
      → r.decode.inbox ≡ []
      → (All IsStamped r.fed → All IsReady r.decode.outbox)
      → All IsStamped s.fed
      → All IsReady s.decode.outbox
  unfolding decode_process drain
  Step-IsReady (feed {r = r} op) e ih (stamped, all) =
      rw e (decode_op-IsReady op op.body stamped, ih all)
  Step-IsReady (move {r = r} out d m h g) e ih all =
      (subst (λ o. All IsReady o) ((decode_next-some k r.decode.inbox r.decode.outbox out d h).1)
        (ih all)).1
  Step-IsReady (take event m h) e ih all = ih all

  Reaches-IsReady :
      {r : Run S} → Reaches k new_run r → All IsStamped r.fed → All IsReady r.decode.outbox
  Reaches-IsReady start all = tt
  Reaches-IsReady (then_step before step) all =
      Step-IsReady step (Reaches-IsAccounted k _ before).inbox_empty (Reaches-IsReady before) all

  Reaches-trans : {r s t : Run S} → Reaches k r s → Reaches k s t → Reaches k r t
  Reaches-trans a start = a
  Reaches-trans a (then_step b step) = then_step (Reaches-trans a b) step

  abbrev moved : Run S → DecodeOutput S → List (DecodeOutput S) → Run S
  unfolding meaning
  moved r out outs = record r {
    decode = record { inbox = r.decode.inbox; outbox = outs };
    materialize = record { outbox = meaning k out ∷ r.materialize.outbox };
  }

  move_ready :
      (r : Run S) (out : DecodeOutput S) (outs : List (DecodeOutput S))
      → r.decode.outbox ≡ out ∷ outs
      → event_for out ≡ done (meaning k out)
      → Step k r (moved r out outs)
  unfolding decode_next materialization_process moved
  move_ready r out outs e ready =
      move out _ _ (rw (decode_next, e) refl) (rw (materialization_process, ready) refl)

  -- Everything decoded is moved on, one after the other.
  drain_decoded :
      (outs : List (DecodeOutput S)) (r : Run S)
      → r.decode.outbox ≡ outs
      → All IsReady outs
      → (s : Run S) × Reaches k r s × (s.fed ≡ r.fed) × (s.decode.outbox ≡ [])
  unfolding moved IsReady
  drain_decoded [] r e ready = (r, start, refl, e)
  drain_decoded (out ∷ outs) r e (now, later) =
      let (t, reached, f, g) = drain_decoded outs (moved r out outs) refl later in
      (t, Reaches-trans (then_step start (move_ready r out outs e now)) reached, f, g)

  abbrev polled : Run S → StateEvent → List StateEvent → Run S
  polled r event rest = record r { materialize = record { outbox = rest }; taken = event ∷ r.taken }

  take_event :
      (r : Run S) (event : StateEvent) (rest : List StateEvent)
      → r.materialize.outbox ≡ event ∷ rest
      → Step k r (polled r event rest)
  unfolding materialization_next
  take_event r event rest e = take event _ (rw (materialization_next, e) refl)

  -- Every event is taken, one after the other.
  drain_events :
      (events : List StateEvent) (r : Run S)
      → r.materialize.outbox ≡ events
      → r.decode.outbox ≡ []
      → (s : Run S) × Reaches k r s
        × (s.fed ≡ r.fed)
        × (s.decode.outbox ≡ [])
        × (s.materialize.outbox ≡ [])
  drain_events [] r e d = (r, start, refl, d, e)
  drain_events (event ∷ rest) r e d =
      let (t, reached, f, g, h) = drain_events rest (polled r event rest) refl d in
      (t, Reaches-trans (then_step start (take_event r event rest e)) reached, f, g, h)

  -- All events are out: what was taken is, up to order, the events of the operations fed.
  pub record IsFinished (r : Run S) (fed : List (Operation S)) : Type 0 where
    pub same_fed : r.fed ≡ fed
    pub nothing_decoded : r.decode.outbox ≡ []
    pub nothing_left : r.materialize.outbox ≡ []
    pub all_taken : Perm r.taken (map (event_of k) fed)

  accounted-finished :
      (s : Run S)
      → IsAccounted k s
      → s.decode.outbox ≡ []
      → s.materialize.outbox ≡ []
      → Perm s.taken (map (event_of k) s.fed)
  accounted-finished s w d m =
      subst (λ o. Perm o (map (event_of k) s.fed)) (append_nil s.taken)
        (subst (λ o. Perm (s.taken ++ o) (map (event_of k) s.fed)) (rw (d, m) refl) w.accounted)

  -- A pipeline that was fed operations with a timestamp, in whatever order its stages were called,
  -- can be called on, without being fed, until every event was taken: then these are, up to order,
  -- the events of the operations fed, each once.
  pub Reaches-completes :
      (r : Run S)
      → Reaches k new_run r
      → All IsStamped r.fed
      → (s : Run S) × Reaches k r s × IsFinished s r.fed
  Reaches-completes r reached stamped =
      let (s, moves, f, d) =
        drain_decoded r.decode.outbox r refl (Reaches-IsReady reached stamped) in
      let (t, takes, g, d', m) = drain_events s.materialize.outbox s refl d in
      let all = Reaches-trans moves takes in
      let w = Reaches-keeps k all (Reaches-IsAccounted k r reached) in
      (
        t,
        all,
        record {
          same_fed = g ∙ f;
          nothing_decoded = d';
          nothing_left = m;
          all_taken =
              subst (λ o. Perm t.taken (map (event_of k) o)) (g ∙ f) (accounted-finished t w d' m);
        },
      )
