-- ===== src/Sync/Journal.antt =====
-- What the calls of the node do to the logs of its identity.
use mathlib.Core.Path.{subst}
use zodia.Prelude.{
  ℕ, ◌≡◌, ◌⊎◌, refl, sym, ap, ◌∙◌, Bool, true, false, if◌then◌else◌, Option, none, some, List, ◌∷◌,
  Bytes, ◌==◌, nat_eq, Bool-cases, Option-cases, inl, inr,
}
use zodia.Ops.{ZodiaExtensions, Codec}
use zodia.OperationStore.{
  SqliteStore, IsLogStore, Entry, next_entry, associated, insert_and_associate,
}
use zodia.Circles.{circle_log_id, persist_received_and_associate, forge, forged}
use zodia.Sync.{
  CircleEvent, Network, ZodiaSyncNode, is_open, author_to, open_topic, hand_over, stored,
  publish_bytes, broadcast_circle_op, forge_into, forged_into, kept, circle_received, receive,
}

extensions-cases :
    {S : Type 0} (x : ZodiaExtensions S)
    → ((time : ℕ) × (x ≡ ZodiaExtensions.interp time))
      ⊎ ((args : S) × (x ≡ ZodiaExtensions.circle args))
extensions-cases (ZodiaExtensions.interp time) = inl (time, refl)
extensions-cases (ZodiaExtensions.circle args) = inr (args, refl)

module _ {T S : Type 0} (o : SqliteStore T S) where
  -- The call adds nothing to the identity's logs.
  pub record Keeps (n n' : ZodiaSyncNode T S) : Type 0 where
    pub key_same : n'.key ≡ n.key
    pub authored_same : n'.authored ≡ n.authored
    pub latest_same :
        (l : ℕ) → o.get_latest_entry n'.sync_store n.key l ≡ o.get_latest_entry n.sync_store n.key l

  -- The call adds to one of the identity's logs the operation that is next there.
  pub record Grows (n n' : ZodiaSyncNode T S) : Type 0 where
    pub log : ℕ
    pub extensions : ZodiaExtensions S
    pub body : Option Bytes
    pub between : T
    pub inserted :
        o.insert_operation n.sync_store
          (next_entry o n.sync_store n.key log extensions body).hash
          (next_entry o n.sync_store n.key log extensions body)
          log
        ≡ some between
    pub key_same : n'.key ≡ n.key
    pub authored_is :
        n'.authored ≡ (log, next_entry o n.sync_store n.key log extensions body) ∷ n.authored
    pub latest_same :
        (l : ℕ) → o.get_latest_entry n'.sync_store n.key l ≡ o.get_latest_entry between n.key l

  -- An operation was forged only where the latest entry could be read.
  pub forged_read :
      (k : Codec) (net : Network S) (n n' : ZodiaSyncNode T S) (op : Entry S)
      (x : Option (T × Entry S)) (b : Bool)
      → forged_into k net o n (if b then x else none) ≡ some (n', op)
      → forged_into k net o n x ≡ some (n', op)
  forged_read k net n n' op x true h = h
  forged_read k net n n' op x false h = cc

  pub same_node : (n : ZodiaSyncNode T S) → Keeps n n
  same_node n = record { key_same = refl; authored_same = refl; latest_same = λ l. refl }

  Grows-Keeps : {a b c : ZodiaSyncNode T S} → Grows a b → Keeps b c → Grows a c
  Grows-Keeps {a = a} {b = b} {c = c} g k = record {
    log = g.log;
    extensions = g.extensions;
    body = g.body;
    between = g.between;
    inserted = g.inserted;
    key_same = k.key_same ∙ g.key_same;
    authored_is = k.authored_same ∙ g.authored_is;
    latest_same = λ l. at_key l ∙ g.latest_same l;
  }
    where
      at_key :
          (l : ℕ)
          → o.get_latest_entry c.sync_store a.key l ≡ o.get_latest_entry b.sync_store a.key l
      at_key l =
          ap (λ x. o.get_latest_entry c.sync_store x l) (sym g.key_same)
          ∙ k.latest_same l
          ∙ ap (λ x. o.get_latest_entry b.sync_store x l) g.key_same

  Keeps-trans : {a b c : ZodiaSyncNode T S} → Keeps a b → Keeps b c → Keeps a c
  Keeps-trans {a = a} {b = b} {c = c} j k = record {
    key_same = k.key_same ∙ j.key_same;
    authored_same = k.authored_same ∙ j.authored_same;
    latest_same = λ l. at_key l ∙ j.latest_same l;
  }
    where
      at_key :
          (l : ℕ)
          → o.get_latest_entry c.sync_store a.key l ≡ o.get_latest_entry b.sync_store a.key l
      at_key l =
          ap (λ x. o.get_latest_entry c.sync_store x l) (sym j.key_same)
          ∙ k.latest_same l
          ∙ ap (λ x. o.get_latest_entry b.sync_store x l) j.key_same

  pub hand_over-Keeps :
      (net : Network S) (n : ZodiaSyncNode T S) (topic : ℕ) (e : Entry S)
      → Keeps n (hand_over net n topic e).0
  unfolding hand_over
  hand_over-Keeps net n topic e = elim (Bool-cases (is_open n topic)) [
    | inr closed ↦ rw (hand_over, closed) (same_node n)
    | inl opened ↦ elim (Bool-cases (net.accepts topic e)) [
      | inl able ↦
          rw (hand_over, opened, able)
            (record { key_same = refl; authored_same = refl; latest_same = λ l. refl })
      | inr unable ↦ rw (hand_over, opened, unable) (same_node n)
    ]
  ]

  pub open_topic-Keeps :
      (net : Network S) (n : ZodiaSyncNode T S) (topic : ℕ) → Keeps n (open_topic net n topic).0
  unfolding open_topic
  open_topic-Keeps net n topic = elim (Bool-cases (is_open n topic)) [
    | inl opened ↦ rw (open_topic, opened) (same_node n)
    | inr closed ↦ elim (Bool-cases (net.opens topic)) [
      | inl able ↦
          rw (open_topic, closed, able)
            (record { key_same = refl; authored_same = refl; latest_same = λ l. refl })
      | inr unable ↦ rw (open_topic, closed, unable) (same_node n)
    ]
  ]

  module _ (laws : IsLogStore o) where
    pub publish_bytes-changes :
        (k : Codec) (net : Network S) (n : ZodiaSyncNode T S) (payload : Bytes) (log topic now : ℕ)
        → Keeps n (publish_bytes k net o n payload log topic now).0
          ⊎ Grows n (publish_bytes k net o n payload log topic now).0
    unfolding publish_bytes insert_and_associate stored
    publish_bytes-changes k net n payload log topic now =
        let e = next_entry o n.sync_store n.key log (ZodiaExtensions.interp now) (some payload) in
        elim (Bool-cases (o.can_read n.sync_store n.key log)) [
          | inr r ↦ rw (publish_bytes, r) (inl (same_node n))
          | inl r ↦ elim (Option-cases (o.insert_operation n.sync_store e.hash e log)) [
            | inl f ↦ rw (publish_bytes, r, insert_and_associate, f) (inl (same_node n))
            | inr (t, f) ↦ elim (Option-cases (o.associate t topic n.key log)) [
              | inl g ↦ rw (publish_bytes, r, insert_and_associate, f, g) (inl (same_node n))
              | inr (t', g) ↦
                  rw (publish_bytes, r, insert_and_associate, f, g)
                    (inr (
                      Grows-Keeps
                        (record {
                          log = log;
                          extensions = ZodiaExtensions.interp now;
                          body = some payload;
                          between = t;
                          inserted = f;
                          key_same = refl;
                          authored_is = refl;
                          latest_same = λ l. laws.latest_associated t t' topic n.key log n.key l g;
                        })
                        (hand_over-Keeps net (author_to n t' log e) topic e)))
            ]
          ]
        ]

    pub broadcast_circle_op-Keeps :
        (k : Codec) (net : Network S) (n : ZodiaSyncNode T S) (topic : ℕ) (op : Entry S)
        → Keeps n (broadcast_circle_op k net o n topic op).0
    unfolding broadcast_circle_op
    broadcast_circle_op-Keeps k net n topic op =
        elim (Option-cases (o.associate n.sync_store topic n.key circle_log_id)) [
          | inl f ↦ rw (broadcast_circle_op, f) (same_node n)
          | inr (t, f) ↦
              rw (broadcast_circle_op, f)
                (Keeps-trans
                  (record {
                    key_same = refl;
                    authored_same = refl;
                    latest_same = λ l.
                        laws.latest_associated n.sync_store t topic n.key circle_log_id n.key l f;
                  })
                  (hand_over-Keeps net (record n { sync_store = t }) topic op))
        ]

    associated-elsewhere :
        (t t' : T) (topic log : ℕ) (e : Entry S) (key l : ℕ) (m : Option T)
        → (e.header.verifying_key == key) ≡ false
        → o.insert_operation t e.hash e log ≡ m
        → associated o m topic e.header.verifying_key log ≡ some t'
        → o.get_latest_entry t' key l ≡ o.get_latest_entry t key l
    associated-elsewhere t t' topic log e key l none apart f h = cc
    associated-elsewhere t t' topic log e key l (some u) apart f h =
        laws.latest_associated u t' topic e.header.verifying_key log key l h
        ∙ laws.latest_elsewhere t u e.hash log e key l f (rw apart refl)

    kept-Keeps :
        (k : Codec) (net : Network S) (n : ZodiaSyncNode T S) (topic log : ℕ) (e : Entry S)
        (m : Option T)
        → (e.header.verifying_key == n.key) ≡ false
        → insert_and_associate o n.sync_store topic e.header.verifying_key log e ≡ m
        → Keeps n (kept k net o n m)
    unfolding insert_and_associate
    kept-Keeps k net n topic log e none apart f = same_node n
    kept-Keeps k net n topic log e (some t) apart f = record {
      key_same = refl;
      authored_same = refl;
      latest_same = λ l. associated-elsewhere n.sync_store t topic log e n.key l _ apart refl f;
    }

    circle_received-Keeps :
        (k : Codec) (net : Network S) (n : ZodiaSyncNode T S) (topic : ℕ) (e : Entry S)
        (events : Option (List CircleEvent)) (m : Option T)
        → (e.header.verifying_key == n.key) ≡ false
        → insert_and_associate o n.sync_store topic e.header.verifying_key circle_log_id e ≡ m
        → Keeps n (circle_received k net o n e events m)
    circle_received-Keeps k net n topic e events none apart f = same_node n
    circle_received-Keeps k net n topic e none (some t) apart f =
        kept-Keeps k net n topic circle_log_id e (some t) apart f
    circle_received-Keeps k net n topic e (some events) (some t) apart f =
        Keeps-trans (kept-Keeps k net n topic circle_log_id e (some t) apart f)
          (record { key_same = refl; authored_same = refl; latest_same = λ l. refl })

    pub receive-Keeps :
        (k : Codec) (net : Network S) (n : ZodiaSyncNode T S) (topic log : ℕ) (e : Entry S)
        (events : Option (List CircleEvent))
        → (e.header.verifying_key == n.key) ≡ false
        → Keeps n (receive k net o n topic log e events)
    unfolding receive persist_received_and_associate
    receive-Keeps k net n topic log e events apart = elim (extensions-cases e.header.extensions) [
      | inl (time, f) ↦
          rw (receive, f)
            (Keeps-trans (kept-Keeps k net n topic log e _ apart refl)
              (record { key_same = refl; authored_same = refl; latest_same = λ l. refl }))
      | inr (args, f) ↦ rw (receive, f) (circle_received-Keeps k net n topic e events _ apart refl)
    ]

    forged-Grows :
        (k : Codec) (net : Network S) (n : ZodiaSyncNode T S) (args : S) (n' : ZodiaSyncNode T S)
        (op' : Entry S) (m : Option T)
        → o.insert_operation n.sync_store
            (next_entry o n.sync_store n.key circle_log_id (ZodiaExtensions.circle args) none).hash
            (next_entry o n.sync_store n.key circle_log_id (ZodiaExtensions.circle args) none)
            circle_log_id
          ≡ m
        → forged_into k net o n (
            forged o
              (next_entry o n.sync_store n.key circle_log_id (ZodiaExtensions.circle args) none)
              m)
          ≡ some (n', op')
        → Grows n n'
    forged-Grows k net n args n' op' none f h = cc
    forged-Grows k net n args n' op' (some t) f h =
        subst (λ x. Grows n x) (ap (λ p. p.0) same)
          (record {
            log = circle_log_id;
            extensions = ZodiaExtensions.circle args;
            body = none;
            between = t;
            inserted = f;
            key_same = refl;
            authored_is = refl;
            latest_same = λ l. refl;
          })
      where
        op : Entry S
        op = next_entry o n.sync_store n.key circle_log_id (ZodiaExtensions.circle args) none

        same : ◌≡◌ {A = ZodiaSyncNode T S × Entry S} (author_to n t circle_log_id op, op) (n', op')
        same = cc

    pub forge_into-Grows :
        (k : Codec) (net : Network S) (n : ZodiaSyncNode T S) (args : S) (n' : ZodiaSyncNode T S)
        (op : Entry S)
        → forge_into k net o n args ≡ some (n', op)
        → Grows n n'
    unfolding forge_into forge
    forge_into-Grows k net n args n' op h =
        forged-Grows k net n args n' op _ refl
          (forged_read k net n n' op _ (o.can_read n.sync_store n.key circle_log_id) h)
