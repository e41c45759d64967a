-- ===== src/Tests/Peers.antt =====
-- Tests of the peers' names and mutes, the messages and the feed.
use zodia.Prelude.{◌≡◌, true, codes, nat_eq, arith}
use zodia.Store.{Db, new_db}
use zodia.Store.Interps.WellFormed.{run}
use zodia.Store.Peers.{insert_message, set_peer_display_name_if_newer}
use zodia.Store.Peers.Laws.{name_at, set_peer_display_name_if_newer-swap}
use zodia.Store.Feed.{bulk_mark_read, feed_targeting_unread_count, feed_targeting_unread_ids}
use zodia.Store.Feed.Unread.{feed_targeting_unread_count-bulk_mark_read}
use zodia.Tests.{toy, calls, hello}

abbrev db : Db
db = run toy new_db calls

set_peer_display_name_if_newer-swap_example :
    name_at
      (set_peer_display_name_if_newer
        (set_peer_display_name_if_newer db 4 (codes "Ada") 10).0
        4
        (codes "Eve")
        11).0
      4
    ≡ name_at
        (set_peer_display_name_if_newer
          (set_peer_display_name_if_newer db 4 (codes "Eve") 11).0
          4
          (codes "Ada")
          10).0
        4
set_peer_display_name_if_newer-swap_example =
    set_peer_display_name_if_newer-swap db 4 4 (codes "Ada") (codes "Eve") 10 11 4 (omega arith)

abbrev with_message : Db
with_message = insert_message new_db 4 true hello 20

feed_targeting_unread_count-bulk_mark_read_example :
    feed_targeting_unread_count (bulk_mark_read db (feed_targeting_unread_ids db 1) 10).0 1 ≡ 0
feed_targeting_unread_count-bulk_mark_read_example =
    feed_targeting_unread_count-bulk_mark_read db 1 10
