-- ===== src/Delivery.antt =====
-- From sync/src/lib.rs through pipeline/src/lib.rs to app/src/app.rs: an operation that one peer
-- publishes, as another one decodes and handles it.
use zodia.Prelude.{
  ℕ, ◌≡◌, refl, sym, ap, ◌∙◌, ◌⊎◌, Bool, true, false, not, Option, none, some, ◌∷◌, Bytes, nat_eq,
  inl, inr, if◌then◌else◌,
}
use zodia.Ops.{
  ZodiaExtensions, InterpOp, DocOp, Codec, IsCodec, extract, interp_key, log_id_for_key,
}
use zodia.Pipeline.{Operation, materialize_interp, materialize_doc, materialize_circle_content}
use zodia.Pipeline.Runs.{event_of, stamp}
use zodia.OperationStore.{SqliteStore, Entry, next_entry}
use zodia.Sync.{
  sync, panda_store, Answer, done, failed, panicked, Network, ZodiaSyncNode, is_open, author_to,
  open_topic, hand_over, stored, publish_bytes, publish, after_open, publish_doc, interp_log_id,
  topic_key_for_interp,
}

-- An operation as the receiving pipeline reads it.
abbrev pub operation_of : {S : Type 0} → Entry S → Operation S
operation_of e = record {
  hash = e.hash;
  verifying_key = e.header.verifying_key;
  extensions = e.header.extensions;
  body = e.header.body;
}

answered :
    {N : Type 0} (opened able : Bool) (n taken n' : N)
    → ◌≡◌ {A = N × Answer Unit}
        (if not opened then (n, panicked) else if able then (taken, done tt) else (n, failed sync))
        (n', done tt)
    → n' ≡ taken
answered false able n taken n' h = cc
answered true true n taken n' h = sym (ap (λ p. p.0) h)
answered true false n taken n' h = cc

module _ (k : Codec) {T S : Type 0} (net : Network S) (o : SqliteStore T S) where
  hand_over-done :
      (n n' : ZodiaSyncNode T S) (topic : ℕ) (e : Entry S)
      → hand_over net n topic e ≡ (n', done tt)
      → n'.sent ≡ (topic, e) ∷ n.sent
  unfolding hand_over
  hand_over-done n n' topic e h =
      ap (λ m. m.sent) (answered (is_open n topic) (net.accepts topic e) n _ n' h)

  stored-done :
      (n n' : ZodiaSyncNode T S) (log topic : ℕ) (e : Entry S) (m : Option T)
      → stored k net o n log topic e m ≡ (n', done tt)
      → n'.sent ≡ (topic, e) ∷ n.sent
  unfolding stored
  stored-done n n' log topic e none h = cc
  stored-done n n' log topic e (some t) h = hand_over-done (author_to n t log e) n' topic e h

  read_done :
      (n n' : ZodiaSyncNode T S) (r : ZodiaSyncNode T S × Answer Unit) (b : Bool)
      → (if b then r else (n, failed panda_store)) ≡ (n', done tt)
      → r ≡ (n', done tt)
  read_done n n' r true h = h
  read_done n n' r false h = cc

  -- What a node hands to the stream of a topic, as an operation of its author at the time.
  pub record Sent (n n' : ZodiaSyncNode T S) (topic now : ℕ) (payload : Bytes) : Type 0 where
    pub entry : Entry S
    pub one_more : n'.sent ≡ (topic, entry) ∷ n.sent
    pub by_author : entry.header.verifying_key ≡ n.key
    pub at_time : entry.header.extensions ≡ ZodiaExtensions.interp now
    pub with_body : entry.header.body ≡ some payload

  publish_bytes-Sent :
      (n n' : ZodiaSyncNode T S) (payload : Bytes) (log topic now : ℕ)
      → publish_bytes k net o n payload log topic now ≡ (n', done tt)
      → Sent n n' topic now payload
  unfolding publish_bytes next_entry
  publish_bytes-Sent n n' payload log topic now h = record {
    entry = next_entry o n.sync_store n.key log (ZodiaExtensions.interp now) (some payload);
    one_more =
        stored-done n n' log topic _ _ (read_done n n' _ (o.can_read n.sync_store n.key log) h);
    by_author = refl;
    at_time = refl;
    with_body = refl;
  }

  continued :
      (opened able : Bool) (n wider n' : ZodiaSyncNode T S)
      (rest : ZodiaSyncNode T S → ZodiaSyncNode T S × Answer Unit)
      → after_open k net o
          (if opened then (n, done tt) else if able then (wider, done tt) else (n, failed sync))
          rest
        ≡ (n', done tt)
      → (rest n ≡ (n', done tt)) ⊎ (rest wider ≡ (n', done tt))
  continued true able n wider n' rest h = inl h
  continued false true n wider n' rest h = inr h
  continued false false n wider n' rest h = cc

  after_open-done :
      (n n' : ZodiaSyncNode T S) (topic : ℕ)
      (rest : ZodiaSyncNode T S → ZodiaSyncNode T S × Answer Unit)
      → after_open k net o (open_topic net n topic) rest ≡ (n', done tt)
      → (m : ZodiaSyncNode T S) × (rest m ≡ (n', done tt)) × (m.sent ≡ n.sent) × (m.key ≡ n.key)
  unfolding open_topic
  after_open-done n n' topic rest h =
      elim (continued (is_open n topic) (net.opens topic) n _ n' rest h) [
        | inl same ↦ (n, same, refl, refl)
        | inr wider ↦ (_, wider, refl, refl)
      ]

  module _ (codec : IsCodec k) where
    event_of-Sent :
        (n n' : ZodiaSyncNode T S) (topic now : ℕ) (payload : Bytes)
        (s : Sent n n' topic now payload)
        → event_of k (operation_of s.entry)
          ≡ materialize_circle_content k s.entry.hash n.key now payload
    unfolding event_of stamp extract
    event_of-Sent n n' topic now payload s = λ i. event_of k (record {
      hash = s.entry.hash;
      verifying_key = s.by_author i;
      extensions = s.at_time i;
      body = s.with_body i;
    })

    materialized :
        (hash author now : ℕ) (op : InterpOp)
        → materialize_circle_content k hash author now (k.write_interp op)
          ≡ materialize_interp hash author now op
    unfolding materialize_circle_content
    materialized hash author now op =
        rw (materialize_circle_content, codec.interp_read_back op) refl

    materialized_doc :
        (hash author now : ℕ) (op : DocOp)
        → materialize_circle_content k hash author now (k.write_doc op)
          ≡ materialize_doc hash author now op
    unfolding materialize_circle_content
    materialized_doc hash author now op =
        let (e, h) = codec.doc_not_interp op in
        rw (materialize_circle_content, h, codec.doc_read_back op) refl

    -- A codec that reads back what it writes: where publishing an operation on interpretations is
    -- done, the stream of the global topic took exactly one operation more, and the pipeline of any
    -- peer makes of it the event of that operation, by the publisher at the time of publishing.
    pub publish-event_of :
        (n n' : ZodiaSyncNode T S) (op : InterpOp) (now : ℕ)
        → publish k net o n op now ≡ (n', done tt)
        → (e : Entry S) × (n'.sent ≡ (n.global_topic, e) ∷ n.sent)
          × (event_of k (operation_of e) ≡ materialize_interp e.hash n.key now op)
    unfolding publish
    publish-event_of n n' op now h =
        let s = publish_bytes-Sent n n' (k.write_interp op) interp_log_id n.global_topic now h in
        (
          s.entry,
          s.one_more,
          event_of-Sent n n' n.global_topic now _ s ∙ materialized s.entry.hash n.key now op,
        )

    -- The same for an operation on a document, which goes to the topic of its key.
    pub publish_doc-event_of :
        (n n' : ZodiaSyncNode T S) (op : DocOp) (now : ℕ)
        → publish_doc k net o n op now ≡ (n', done tt)
        → (e : Entry S) × (n'.sent ≡ (topic_key_for_interp k (interp_key op), e) ∷ n.sent)
          × (event_of k (operation_of e) ≡ materialize_doc e.hash n.key now op)
    unfolding publish_doc
    publish_doc-event_of n n' op now h =
        let topic = topic_key_for_interp k (interp_key op) in
        let log = log_id_for_key k (interp_key op) in
        let (m, f, sent_same, key_same) =
          after_open-done n n' topic (λ m. publish_bytes k net o m (k.write_doc op) log topic now)
            h in
        let s = publish_bytes-Sent m n' (k.write_doc op) log topic now f in
        (
          s.entry,
          s.one_more ∙ ap (λ xs. (topic, s.entry) ∷ xs) sent_same,
          event_of-Sent m n' topic now _ s
              ∙ materialized_doc s.entry.hash m.key now op
              ∙ ap (λ x. materialize_doc s.entry.hash x now op) key_same,
        )
