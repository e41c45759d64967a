-- ===== src/Sync.antt =====
-- sync/src/lib.rs: the node that publishes, receives and prunes operations. The network is a
-- parameter: which topics open and which operations their streams take.
pub mod Journal
pub mod Sound
pub mod Chain
pub mod Prune
use zodia.Prelude.{
  ℕ, Bool, true, false, not, ◌&&◌, Option, none, some, List, [], ◌∷◌, ◌++◌, Bytes, codes, ◌==◌,
  nat_eq, any, ltb, select, length, if◌then◌else◌,
}
use zodia.Ops.{ZodiaExtensions, InterpOp, DocOp, Codec, log_id_for_key, interp_key, extract}
use zodia.OperationStore.{SqliteStore, Header, Entry, next_entry, insert_and_associate}
use zodia.Circles.{circle_log_id, persist_received_and_associate, forge}
use zodia.Sql.{delete}

abbrev pub interp_log_id : ℕ
interp_log_id = 0

-- `SyncError`, without the texts.
pub data SyncError : Type 0 where
  panda_store sync circle : SyncError

-- The answer of a call; `panicked` where an `expect` fails.
pub data Answer (A : Type 0) : Type 0 where
  done : A → Answer A
  failed : SyncError → Answer A
  panicked : Answer A

pub data SyncEvent (S : Type 0) : Type 0 where
  operation_received : (operation : Entry S) → SyncEvent S
  sync_started : (remote : ℕ) → SyncEvent S
  sync_finished : (remote received_ops received_bytes : ℕ) → SyncEvent S
  failed : (remote : ℕ) → SyncEvent S
  circle_content_received : (space_id op_id author : ℕ) (plaintext : Bytes) → SyncEvent S

-- What processing a circle operation tells: content, or anything else.
pub data CircleEvent : Type 0 where
  application : (space_id : ℕ) (plaintext : Bytes) → CircleEvent
  other : CircleEvent

pub record Network (S : Type 0) : Type 0 where
  -- `stream` and `subscribe` succeed on the topic
  pub opens : ℕ → Bool
  -- the handle of the topic takes the operation
  pub accepts : ℕ → Entry S → Bool

-- The key is that of the identity. `sent` is what the handles took, `inbound` what the receiver has
-- yet to read, and `authored` keeps, for the statements only, the operations that the node put into
-- its own logs, newest first.
pub record ZodiaSyncNode (T S : Type 0) : Type 0 where
  pub key : ℕ
  pub sync_store : T
  pub global_topic : ℕ
  pub handles : List ℕ
  pub inbound : List (SyncEvent S)
  pub sent : List (ℕ × Entry S)
  pub authored : List (ℕ × Entry S)

abbrev pub topic_key_for_interp : Codec → Bytes → ℕ
topic_key_for_interp k key = k.blake3 (codes "zodia:v1:interp:" ++ key)

module _ {T S : Type 0} where
  abbrev pub is_open : ZodiaSyncNode T S → ℕ → Bool
  is_open node topic = any (λ t. t == topic) node.handles

  abbrev pub author_to : ZodiaSyncNode T S → T → ℕ → Entry S → ZodiaSyncNode T S
  author_to node t log e = record node { sync_store = t; authored = (log, e) ∷ node.authored }

module _ {T S : Type 0} (net : Network S) where
  unfoldable pub open_topic : ZodiaSyncNode T S → ℕ → ZodiaSyncNode T S × Answer Unit
  open_topic node topic =
      if is_open node topic
      then (node, done tt)
      else if net.opens topic
      then (record node { handles = topic ∷ node.handles }, done tt)
      else (node, failed sync)

  -- `handles.get(&topic).expect(..).publish(operation)`
  unfoldable pub hand_over : ZodiaSyncNode T S → ℕ → Entry S → ZodiaSyncNode T S × Answer Unit
  hand_over node topic e =
      if not (is_open node topic)
      then (node, panicked)
      else if net.accepts topic e
      then (record node { sent = (topic, e) ∷ node.sent }, done tt)
      else (node, failed sync)

module _ (k : Codec) {T S : Type 0} (net : Network S) where
  unfoldable pub subscribe : ZodiaSyncNode T S → Bytes → ZodiaSyncNode T S × Answer Unit
  unfolding open_topic
  subscribe node key = open_topic net node (topic_key_for_interp k key)

  unfoldable pub unsubscribe : ZodiaSyncNode T S → Bytes → ZodiaSyncNode T S
  unfolding select
  unsubscribe node key = record node {
    handles = select (λ t. not (t == topic_key_for_interp k key)) node.handles;
  }

  module _ (o : SqliteStore T S) where
    unfoldable pub stored :
        ZodiaSyncNode T S → ℕ → ℕ → Entry S → Option T → ZodiaSyncNode T S × Answer Unit
    unfolding hand_over
    stored node log topic e none = (node, failed panda_store)
    stored node log topic e (some t) = hand_over net (author_to node t log e) topic e

    unfoldable pub publish_bytes :
        ZodiaSyncNode T S → Bytes → ℕ → ℕ → ℕ → ZodiaSyncNode T S × Answer Unit
    unfolding next_entry insert_and_associate stored
    publish_bytes node payload log topic now =
        if o.can_read node.sync_store node.key log
        then (let e =
              next_entry o node.sync_store node.key log (ZodiaExtensions.interp now)
                (some payload) in
            stored node log topic e (insert_and_associate o node.sync_store topic node.key log e))
        else (node, failed panda_store)

    unfoldable pub publish : ZodiaSyncNode T S → InterpOp → ℕ → ZodiaSyncNode T S × Answer Unit
    unfolding publish_bytes
    publish node op now = publish_bytes node (k.write_interp op) interp_log_id node.global_topic now

    abbrev pub after_open :
        ZodiaSyncNode T S × Answer Unit
        → (ZodiaSyncNode T S → ZodiaSyncNode T S × Answer Unit)
        → ZodiaSyncNode T S × Answer Unit
    after_open (node, done _) rest = rest node
    after_open (node, failed e) rest = (node, failed e)
    after_open (node, panicked) rest = (node, panicked)

    unfoldable pub publish_doc : ZodiaSyncNode T S → DocOp → ℕ → ZodiaSyncNode T S × Answer Unit
    unfolding publish_bytes open_topic interp_key log_id_for_key
    publish_doc node op now =
        let topic = topic_key_for_interp k (interp_key op) in
        after_open (open_topic net node topic)
          (λ n. publish_bytes n (k.write_doc op) (log_id_for_key k (interp_key op)) topic now)

    -- Associate the topic with the author's circle log, then publish.
    unfoldable pub broadcast_circle_op :
        ZodiaSyncNode T S → ℕ → Entry S → ZodiaSyncNode T S × Answer Unit
    unfolding hand_over
    broadcast_circle_op node topic op =
        elim (o.associate node.sync_store topic node.key circle_log_id) [
          | none ↦ (node, failed panda_store)
          | some t ↦ hand_over net (record node { sync_store = t }) topic op
        ]

    abbrev pub forged_into :
        ZodiaSyncNode T S → Option (T × Entry S) → Option (ZodiaSyncNode T S × Entry S)
    forged_into node none = none
    forged_into node (some (t, op)) = some (author_to node t circle_log_id op, op)

    -- What the circles' manager does to the node's log when it makes an operation.
    unfoldable pub forge_into : ZodiaSyncNode T S → S → Option (ZodiaSyncNode T S × Entry S)
    unfolding forge
    forge_into node args = forged_into node (forge o node.sync_store node.key args)

    abbrev pub kept : ZodiaSyncNode T S → Option T → ZodiaSyncNode T S
    kept node none = node
    kept node (some t) = record node { sync_store = t }

    abbrev pub content : Entry S → CircleEvent → List (SyncEvent S)
    content op (application space_id text) =
        circle_content_received space_id op.hash op.header.verifying_key text ∷ []
    content op other = []

    abbrev pub contents : Entry S → List CircleEvent → List (SyncEvent S)
    contents op [] = []
    contents op (e ∷ es) = content op e ++ contents op es

    abbrev pub notify : ZodiaSyncNode T S → List (SyncEvent S) → ZodiaSyncNode T S
    notify node events = record node { inbound = node.inbound ++ events }

    abbrev pub processed :
        ZodiaSyncNode T S → Entry S → Option (List CircleEvent) → ZodiaSyncNode T S
    processed node op none = node
    processed node op (some events) = notify node (contents op events)

    abbrev pub circle_received :
        ZodiaSyncNode T S → Entry S → Option (List CircleEvent) → Option T → ZodiaSyncNode T S
    circle_received node op events none = node
    circle_received node op events (some t) = processed (record node { sync_store = t }) op events

    -- The pump of a topic, for an operation that arrives on it: an operation on interpretations is
    -- passed on even where it could not be stored, a circle operation only where it was. `events` is
    -- what the circles' manager answers.
    unfoldable pub receive :
        ZodiaSyncNode T S → ℕ → ℕ → Entry S → Option (List CircleEvent) → ZodiaSyncNode T S
    unfolding insert_and_associate persist_received_and_associate
    receive node topic log e events = elim e.header.extensions [
      | ZodiaExtensions.interp time ↦
          notify
            (kept node (insert_and_associate o node.sync_store topic e.header.verifying_key log e))
            (operation_received e ∷ [])
      | ZodiaExtensions.circle args ↦
          circle_received node e events
            (persist_received_and_associate o node.sync_store topic e.header.verifying_key e)
    ]
