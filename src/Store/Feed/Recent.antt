-- ===== src/Store/Feed/Recent.antt =====
-- The feed's first page: `recent_feed_rows`.
use zodia.Prelude.{ℕ, ◌≤◌, nat_eq, arith, length, length-take-le}
use zodia.Sql.Order.{Ordered, Ordered-order_by, Ordered-take}
use zodia.Store.{Db}
use zodia.Store.Feed.{later, recent_feed_rows}

-- The first page holds at most `limit` events, the newest first.
recent_feed_rows_lem :
    (db : Db) (me limit : ℕ)
    → (length (recent_feed_rows db me limit) ≤ limit) × Ordered later (recent_feed_rows db me limit)
unfolding recent_feed_rows
recent_feed_rows_lem db me limit = (
  length-take-le limit _,
  Ordered-take later limit _
      (Ordered-order_by later (λ a b h. ground arith) (λ a b d h k. ground arith) _),
)
