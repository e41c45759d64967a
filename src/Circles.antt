-- ===== src/Circles.antt =====
-- circles/src/lib.rs: the log and the topics of circle operations. The spaces of p2panda, which say
-- what a circle operation carries, are a parameter, and with them inviting, revoking and sharing.
use zodia.Prelude.{ℕ, if◌then◌else◌, Option, none, some, ◌++◌, Bytes, bytes_of, codes}
use zodia.Ops.{ZodiaExtensions}
use zodia.OperationStore.{SqliteStore, Entry, next_entry, insert_and_associate}

abbrev pub circle_log_id : ℕ
circle_log_id = 0

module _ (blake3 : Bytes → ℕ) where
  unfoldable pub topic_for_circle : ℕ → ℕ
  topic_for_circle circle_id = blake3 (codes "zodia:v1:circle:" ++ bytes_of 32 circle_id)

  unfoldable pub circle_directory_topic : ℕ
  circle_directory_topic = blake3 (codes "zodia:v1:circle-directory")

module _ {T S : Type 0} (o : SqliteStore T S) where
  unfoldable pub persist_received : T → Entry S → Option T
  persist_received t op = o.insert_operation t op.hash op circle_log_id

  unfoldable pub persist_received_and_associate : T → ℕ → ℕ → Entry S → Option T
  unfolding insert_and_associate
  persist_received_and_associate t topic author op =
      insert_and_associate o t topic author circle_log_id op

  abbrev pub forged : Entry S → Option T → Option (T × Entry S)
  forged op none = none
  forged op (some t) = some (t, op)

  -- `ZodiaForge::forge`: the next operation of the author's circle log, inserted.
  unfoldable pub forge : T → ℕ → S → Option (T × Entry S)
  unfolding next_entry
  forge t author args =
      if o.can_read t author circle_log_id
      then (let op = next_entry o t author circle_log_id (ZodiaExtensions.circle args) none in
          forged op (o.insert_operation t op.hash op circle_log_id))
      else none
