-- ===== src/Tests/Events.antt =====
-- Tests of the handler of state events.
use zodia.Prelude.{ℕ, ◌≡◌, ◌↔◌, refl, true, false, none, List, [], ◌∷◌, codes, arith, nat_eq}
use zodia.Pipeline.{StateEvent, no_body}
use zodia.Store.{new_db}
use zodia.Store.Interps.WellFormed.{run}
use zodia.App.Presence.{no_presence, others_present}
use zodia.App.Events.{Hex, AppModel, sync_state_event}
use zodia.App.Events.Settled.{sync_state_events-settled}
use zodia.App.Events.Tables.{SameTables}
use zodia.App.Events.Refinement.{all_writes, sync_state_events, sync_state_events_refine}
use zodia.App.Events.Attendance.{Beat, attend, Joined, others_present-Joined}
use zodia.Tests.{toy, appending, sig, hello, hello_id}

abbrev plain : Hex
plain = record { encode = λ bytes. bytes; encode_upper = λ bytes. bytes }

-- The local identity is 1; 8 is muted.
abbrev fresh_app : AppModel Unit
fresh_app = record {
  store = new_db;
  me = 1;
  muted_peers = 8 ∷ [];
  editor_presence = no_presence;
  feed_targeting_unread = 0;
  network_changed_token = 0;
  recent_interps = [];
  stargazer_display_names = λ tag. none;
  circles = [];
  pending_circle_invite_toasts = [];
  pending_circle_join_toasts = [];
  pending_affirm_toasts = [];
  feed_view = true;
  sent = [];
  bell_refreshes = 0;
}

abbrev reading : StateEvent
reading = StateEvent.interp_authored 70 1 sig hello

abbrev heart : StateEvent
heart = StateEvent.affirm_added hello_id 2

abbrev events : List (StateEvent × ℕ)
events =
    (reading, 100)
    ∷ (heart, 101)
    ∷ (StateEvent.interp_authored 71 8 sig (codes "noise"), 102)
    ∷ (StateEvent.skipped no_body, 103)
    ∷ []

-- The heart of another peer on one's own reading rings the bell.
one_heart : (sync_state_events toy plain appending fresh_app events).bell_refreshes ≡ 2
unfolding sync_state_events sync_state_event zodia.App.Events.handle
    zodia.App.FeedItem.is_muted_social_event zodia.App.FeedItem.state_event_to_feed_item
    zodia.Store.Interps.insert_from_op zodia.Store.Interps.affirm zodia.App.Events.affirm_lookup
one_heart = refl

sync_state_events-settled_example :
    sync_state_event toy plain appending
      (sync_state_events toy plain appending
        (sync_state_event toy plain appending fresh_app reading 100)
        events)
      reading
      200
    ≡ sync_state_events toy plain appending
        (sync_state_event toy plain appending fresh_app reading 100)
        events
sync_state_events-settled_example =
    sync_state_events-settled toy plain appending fresh_app reading 100 events 200 refl

sync_state_events_refine_example :
    SameTables
      (run toy new_db (all_writes (8 ∷ []) events))
      (sync_state_events toy plain appending fresh_app events).store
sync_state_events_refine_example = sync_state_events_refine toy plain appending fresh_app events

-- Peer 5 joined, then 6 joined and left.
abbrev beats : List Beat
beats =
    record {
      op_id = 3;
      peer = 6;
      key = sig;
      joined = false;
      timestamp = 1020000007;
      sent = 1020;
      now = 1021;
    }
    ∷ record {
      op_id = 2;
      peer = 6;
      key = sig;
      joined = true;
      timestamp = 1010000005;
      sent = 1010;
      now = 1011;
    }
    ∷ record {
      op_id = 1;
      peer = 5;
      key = sig;
      joined = true;
      timestamp = 1000000003;
      sent = 1000;
      now = 1001;
    }
    ∷ []

-- A day after its heartbeat, peer 5 is still there.
others_present-Joined_example :
    ((others_present (attend toy plain appending fresh_app beats).editor_presence sig 87400).1
      ≡ true)
    ↔ Joined 1 beats sig
others_present-Joined_example =
    others_present-Joined toy plain appending fresh_app beats 87400 sig refl
      (omega arith, (omega arith, (omega arith, tt)))
      ((omega arith, omega arith), ((omega arith, omega arith), ((omega arith, omega arith), tt)))
