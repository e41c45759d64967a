-- ===== src/Tests/Sync.antt =====
-- Tests of the node and of pruning, on a store that is the list of its operations.
use mathlib.Core.Path.{subst}
use zodia.Prelude.{
  ℕ, ◌+◌, ◌%◌, ◌^◌, ◌≡◌, refl, ap, Bool, true, false, not, ◌&&◌, Option, none, some, List, [], ◌∷◌,
  Bytes, codes, ◌==◌, nat_eq, eq_refl, if◌then◌else◌, arith, select, length,
}
use zodia.Ops.{ZodiaExtensions, InterpOp}
use zodia.OperationStore.{SqliteStore, IsLogStore, Header, Entry, next_entry}
use zodia.Sync.{Network, ZodiaSyncNode, publish, forge_into, interp_log_id}
use zodia.Sync.Sound.{IsChain}
use zodia.Sync.Chain.{Reaches, start, then_step, publishes, Reaches-IsChain, forge_into-interp_log}
use zodia.Sync.Prune.{OperationRow, prune_older_than, prune_older_than_lem, is_prunable}
use zodia.Tests.Pipeline.{two_ops}

abbrev Table : Type 0
Table = List (ℕ × Entry Unit)

abbrev is_at : ℕ → ℕ → ℕ × Entry Unit → Bool
is_at a l (log, e) = e.header.verifying_key == a && log == l

abbrev newest : Table → ℕ → ℕ → Option (Entry Unit)
newest [] a l = none
newest (x ∷ t) a l = if is_at a l x then some x.1 else newest t a l

abbrev table : SqliteStore Table Unit
table = record {
  get_latest_entry = newest;
  can_read = λ t author log. true;
  insert_operation = λ t h e log. some ((log, e) ∷ t);
  associate = λ t topic author log. some t;
  header_hash = λ h. h.seq_num + 100;
}

head :
    (t t' : Table) (log : ℕ) (e : Entry Unit)
    → some ((log, e) ∷ t) ≡ some t'
    → newest t' e.header.verifying_key log ≡ some e
head t t' log e h =
    subst (λ x. newest x e.header.verifying_key log ≡ some e) (same h)
      (ground (arith, eq_refl e.header.verifying_key, eq_refl log))
  where
    same : ◌≡◌ {A = Option Table} (some ((log, e) ∷ t)) (some t') → (log, e) ∷ t ≡ t'
    same g = cc

elsewhere :
    (t t' : Table) (log : ℕ) (e : Entry Unit) (a l : ℕ)
    → some ((log, e) ∷ t) ≡ some t'
    → is_at a l (log, e) ≡ false
    → newest t' a l ≡ newest t a l
elsewhere t t' log e a l h apart = subst (λ x. newest x a l ≡ newest t a l) (same h) (rw apart refl)
  where
    same : ◌≡◌ {A = Option Table} (some ((log, e) ∷ t)) (some t') → (log, e) ∷ t ≡ t'
    same g = cc

unmoved : (t t' : Table) (a l : ℕ) → some t ≡ some t' → newest t' a l ≡ newest t a l
unmoved t t' a l h = ap (λ x. newest x a l) (same h)
  where
    same : ◌≡◌ {A = Option Table} (some t) (some t') → t' ≡ t
    same g = cc

laws : IsLogStore table
laws = record {
  latest_first = λ t t' h log e f g. head t t' log e f;
  latest_next = λ t t' h log e prev f g b. head t t' log e f;
  latest_elsewhere = λ t t' h log e a l f g. elsewhere t t' log e a l f g;
  latest_associated = λ t t' topic author log a l f. unmoved t t' a l f;
}

abbrev wide : Network Unit
wide = record { opens = λ topic. true; accepts = λ topic e. true }

abbrev new_node : ZodiaSyncNode Table Unit
new_node = record {
  key = 5;
  sync_store = [];
  global_topic = 9;
  handles = 9 ∷ [];
  inbound = [];
  sent = [];
  authored = [];
}

abbrev naming : InterpOp
naming = InterpOp.set_display_name (codes "Bob")

abbrev named : ZodiaSyncNode Table Unit
unfolding publish
named = (publish two_ops wide table new_node naming 10).0

abbrev twice : ZodiaSyncNode Table Unit
unfolding publish named
twice = (publish two_ops wide table named naming 20).0

reached : Reaches table laws two_ops wide new_node twice
unfolding named twice
reached = then_step (then_step start (publishes naming 10)) (publishes naming 20)

Reaches-IsChain_example : IsChain table 5 twice.authored
unfolding twice named publish zodia.Sync.hand_over zodia.OperationStore.next_entry
    zodia.OperationStore.insert_and_associate
Reaches-IsChain_example =
    Reaches-IsChain table laws two_ops wide new_node twice (refl, λ l. refl) reached (omega arith)

-- The second of the two operations, and a circle operation after it.
abbrev second : Entry Unit
second = record {
  hash = 101;
  header = record {
    verifying_key = 5;
    seq_num = 1;
    backlink = some 100;
    extensions = ZodiaExtensions.interp 20;
    body = some [];
  };
}

abbrev circle_op : Entry Unit
circle_op = record {
  hash = 102;
  header = record {
    verifying_key = 5;
    seq_num = 2;
    backlink = some 101;
    extensions = ZodiaExtensions.circle tt;
    body = none;
  };
}

abbrev circled : ZodiaSyncNode Table Unit
unfolding twice
circled = record twice {
  sync_store = (interp_log_id, circle_op) ∷ twice.sync_store;
  authored = (interp_log_id, circle_op) ∷ twice.authored;
}

forge_into-interp_log_example :
    (circle_op.header.backlink ≡ some (table.header_hash second.header))
    × (circle_op.header.seq_num ≡ (second.header.seq_num + 1) % 2 ^ 32)
unfolding circled twice named publish zodia.Sync.hand_over zodia.OperationStore.next_entry
    zodia.OperationStore.insert_and_associate forge_into zodia.Circles.forge
forge_into-interp_log_example =
    forge_into-interp_log table laws two_ops wide new_node twice circled tt circle_op second
      (refl, λ l. refl) reached (omega arith) refl refl

-- A header is its timestamp, and an empty one that of a circle operation.
abbrev read_header : Bytes → Option (ZodiaExtensions Unit)
read_header [] = some (ZodiaExtensions.circle tt)
read_header (time ∷ rest) = some (ZodiaExtensions.interp time)

abbrev rows : List OperationRow
rows =
    record { hash = 1; verifying_key = 5; header = 10 ∷ [] }
    ∷ record { hash = 2; verifying_key = 6; header = 20 ∷ [] }
    ∷ record { hash = 3; verifying_key = 6; header = 40 ∷ [] }
    ∷ record { hash = 4; verifying_key = 7; header = [] }
    ∷ []

prune_older_than_lem_example : prune_older_than read_header rows 5 30 ≡ (
  select (λ r. not (is_prunable read_header 5 30 r)) rows,
  some (length (select (is_prunable read_header 5 30) rows)),
)
prune_older_than_lem_example =
    prune_older_than_lem read_header rows 5 30 (refl, (refl, (refl, (refl, tt))))
      (
        (ZodiaExtensions.interp 10, refl),
        (
          (ZodiaExtensions.interp 20, refl),
          ((ZodiaExtensions.interp 40, refl), ((ZodiaExtensions.circle tt, refl), tt)),
        ),
      )

-- One row goes.
one_pruned : (prune_older_than read_header rows 5 30).1 ≡ some 1
unfolding prune_older_than select zodia.Ops.extract zodia.Sync.Prune.pruned zodia.Sql.delete
one_pruned = refl
