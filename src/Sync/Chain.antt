-- ===== src/Sync/Chain.antt =====
-- The logs of the node's identity are hash chains.
use mathlib.Core.Path.{subst}
use zodia.Prelude.{
  ℕ, ◌+◌, ◌%◌, ◌^◌, ◌<◌, ◌≡◌, refl, sym, ap, ◌∙◌, false, Option, none, some, List, [], Bytes, ◌==◌,
  nat_eq, length, inl, inr,
}
use zodia.Ops.{ZodiaExtensions, InterpOp, DocOp, Codec, log_id_for_key, interp_key}
use zodia.OperationStore.{SqliteStore, IsLogStore, Entry, seq_after, hash_of_latest, next_entry}
use zodia.Circles.{circle_log_id, forge, forged}
use zodia.Sync.{
  Answer, done, failed, panicked, CircleEvent, Network, ZodiaSyncNode, open_topic, subscribe,
  unsubscribe, publish_bytes, publish, after_open, publish_doc, broadcast_circle_op, forge_into,
  receive, topic_key_for_interp, forged_into, author_to, interp_log_id,
}
use zodia.Sync.Journal.{
  open_topic-Keeps, publish_bytes-changes, broadcast_circle_op-Keeps, receive-Keeps,
  forge_into-Grows, forged_read,
}
use zodia.Sync.Sound.{latest_in, IsChain, Sound, Keeps-Sound, Grows-Sound}

module _ {T S : Type 0} (o : SqliteStore T S) (laws : IsLogStore o) where
  -- A call of the node, or of the circles' manager on the node's log. An operation that is received
  -- is by another identity.
  pub data Step (k : Codec) (net : Network S) : ZodiaSyncNode T S → ZodiaSyncNode T S → Type 0 where
    publishes :
        {n : ZodiaSyncNode T S} (op : InterpOp) (now : ℕ)
        → Step k net n (publish k net o n op now).0
    publishes_doc :
        {n : ZodiaSyncNode T S} (op : DocOp) (now : ℕ)
        → Step k net n (publish_doc k net o n op now).0
    subscribes : {n : ZodiaSyncNode T S} (key : Bytes) → Step k net n (subscribe k net n key).0
    unsubscribes : {n : ZodiaSyncNode T S} (key : Bytes) → Step k net n (unsubscribe k net n key)
    broadcasts :
        {n : ZodiaSyncNode T S} (topic : ℕ) (op : Entry S)
        → Step k net n (broadcast_circle_op k net o n topic op).0
    forges :
        {n n' : ZodiaSyncNode T S} (args : S) (op : Entry S)
        → forge_into k net o n args ≡ some (n', op)
        → Step k net n n'
    receives :
        {n : ZodiaSyncNode T S} (topic log : ℕ) (e : Entry S) (events : Option (List CircleEvent))
        → (e.header.verifying_key == n.key) ≡ false
        → Step k net n (receive k net o n topic log e events)

  pub data Reaches (k : Codec) (net : Network S) (s : ZodiaSyncNode T S)
      : ZodiaSyncNode T S → Type 0 where
    start : Reaches k net s s
    then_step : {t u : ZodiaSyncNode T S} → Reaches k net s t → Step k net t u → Reaches k net s u

  publish_bytes-Sound :
      (k : Codec) (net : Network S) (n : ZodiaSyncNode T S) (payload : Bytes) (log topic now : ℕ)
      → Sound o n
      → Sound o (publish_bytes k net o n payload log topic now).0
  publish_bytes-Sound k net n payload log topic now s =
      elim (publish_bytes-changes o laws k net n payload log topic now) [
        | inl kept ↦ Keeps-Sound o kept s
        | inr grown ↦ Grows-Sound o laws grown s
      ]

  after_open-Sound :
      (k : Codec) (net : Network S) (r : ZodiaSyncNode T S × Answer Unit)
      (rest : ZodiaSyncNode T S → ZodiaSyncNode T S × Answer Unit)
      → Sound o r.0
      → ((n : ZodiaSyncNode T S) → Sound o n → Sound o (rest n).0)
      → Sound o (after_open k net o r rest).0
  after_open-Sound k net (n, done _) rest s f = f n s
  after_open-Sound k net (n, failed e) rest s f = s
  after_open-Sound k net (n, panicked) rest s f = s

  Step-Sound :
      (k : Codec) (net : Network S) {n n' : ZodiaSyncNode T S}
      → Step k net n n'
      → Sound o n
      → Sound o n'
  unfolding publish publish_doc subscribe unsubscribe
  Step-Sound k net (publishes {n = n} op now) s =
      publish_bytes-Sound k net n (k.write_interp op) interp_log_id n.global_topic now s
  Step-Sound k net (publishes_doc {n = n} op now) s =
      let topic = topic_key_for_interp k (interp_key op) in
      let log = log_id_for_key k (interp_key op) in
      after_open-Sound k net (open_topic net n topic)
        (λ m. publish_bytes k net o m (k.write_doc op) log topic now)
        (Keeps-Sound o (open_topic-Keeps o net n topic) s)
        (λ m t. publish_bytes-Sound k net m (k.write_doc op) log topic now t)
  Step-Sound k net (subscribes {n = n} key) s =
      Keeps-Sound o (open_topic-Keeps o net n (topic_key_for_interp k key)) s
  Step-Sound k net (unsubscribes {n = n} key) s =
      Keeps-Sound o (record { key_same = refl; authored_same = refl; latest_same = λ l. refl }) s
  Step-Sound k net (broadcasts {n = n} topic op) s =
      Keeps-Sound o (broadcast_circle_op-Keeps o laws k net n topic op) s
  Step-Sound k net (forges {n = n} {n' = n'} args op h) s =
      Grows-Sound o laws (forge_into-Grows o laws k net n args n' op h) s
  Step-Sound k net (receives {n = n} topic log e events apart) s =
      Keeps-Sound o (receive-Keeps o laws k net n topic log e events apart) s

  Reaches-Sound :
      (k : Codec) (net : Network S) {n n' : ZodiaSyncNode T S}
      → Reaches k net n n'
      → Sound o n
      → Sound o n'
  Reaches-Sound k net start s = s
  Reaches-Sound k net (then_step before step) s =
      Step-Sound k net step (Reaches-Sound k net before s)

  -- The identity has no operation in the store yet.
  abbrev pub IsNew : ZodiaSyncNode T S → Type 0
  IsNew n = (n.authored ≡ []) × ((l : ℕ) → o.get_latest_entry n.sync_store n.key l ≡ none)

  new_node-Sound : (n : ZodiaSyncNode T S) → IsNew n → Sound o n
  new_node-Sound n (e, f) h = record {
    latest = λ l. f l ∙ ap (latest_in l) (sym e);
    chained = subst (λ a. IsChain o n.key a) (sym e) tt;
  }

  -- Over a store that keeps p2panda's documented laws, from an identity without operations:
  -- whatever is published, subscribed to, forged for circles, broadcast or received from others,
  -- with whatever failures of the store and of the network, every log of the identity is a chain.
  -- Its operations are by the identity, numbered from 0 without a gap, and each links back to the
  -- hash of the one before. There are fewer than 2^32 operations.
  pub Reaches-IsChain :
      (k : Codec) (net : Network S) (s n : ZodiaSyncNode T S)
      → IsNew s
      → Reaches k net s n
      → length n.authored < 2 ^ 32
      → IsChain o n.key n.authored
  Reaches-IsChain k net s n new reached h =
      (Reaches-Sound k net reached (new_node-Sound s new) h).chained

  forged-entry :
      (k : Codec) (net : Network S) (n n' : ZodiaSyncNode T S) (op e : Entry S) (m : Option T)
      → forged_into k net o n (forged o e m) ≡ some (n', op)
      → op ≡ e
  forged-entry k net n n' op e none h = cc
  forged-entry k net n n' op e (some t) h = ap (λ p. p.1) (sym same)
    where
      same : ◌≡◌ {A = ZodiaSyncNode T S × Entry S} (author_to n t circle_log_id e, e) (n', op)
      same = cc

  -- In a node that calls led to from an identity without operations: an operation forged for a
  -- circle comes right after the newest operation of the log of interpretations. Its back link is
  -- the hash of that one and its number the next, so that the two kinds share one log.
  pub forge_into-interp_log :
      (k : Codec) (net : Network S) (s n n' : ZodiaSyncNode T S) (args : S) (op newest : Entry S)
      → IsNew s
      → Reaches k net s n
      → length n.authored < 2 ^ 32
      → latest_in interp_log_id n.authored ≡ some newest
      → forge_into k net o n args ≡ some (n', op)
      → (op.header.backlink ≡ some (o.header_hash newest.header))
        × (op.header.seq_num ≡ (newest.header.seq_num + 1) % 2 ^ 32)
  unfolding forge_into forge next_entry
  forge_into-interp_log k net s n n' args op newest new reached h g f =
      let j = Reaches-Sound k net reached (new_node-Sound s new) h in
      let there = j.latest interp_log_id ∙ g in
      let e = next_entry o n.sync_store n.key circle_log_id (ZodiaExtensions.circle args) none in
      let m = o.insert_operation n.sync_store e.hash e circle_log_id in
      let made =
        forged_read o k net n n' op (forged o e m) (o.can_read n.sync_store n.key circle_log_id)
          f in
      let next = forged-entry k net n n' op e m made in
      (
        ap (λ x. x.header.backlink) next ∙ ap (hash_of_latest o) there,
        ap (λ x. x.header.seq_num) next ∙ ap seq_after there,
      )
