-- ===== src/App/Events/Attendance.antt =====
-- Who is present in an editor, against the heartbeats that the handler took.
use mathlib.Core.Path.{subst}
use zodia.Prelude.{
  ℕ, ◌*◌, All, ◌+◌, ◌≤◌, ◌≡◌, ◌↔◌, refl, sym, ap, ◌∙◌, Bool, true, false, not, ◌&&◌, Option, none,
  some, List, [], ◌∷◌, Bytes, ◌==◌, nat_eq, bytes_instance, if◌then◌else◌, arith, Bool-cases, inl,
  inr,
}
use zodia.Pipeline.{StateEvent}
use zodia.Doc.Document.{Crdt}
use zodia.Store.{Primitives}
use zodia.App.Presence.{
  EditorPresence, no_presence, heartbeat, prune_stale_presence, others_present,
}
use zodia.App.Presence.Lookups.{
  fresh, IsTable, seen, seen-prune_stale_presence, prune_stale_presence-IsTable, seen-heartbeat,
  heartbeat-IsTable, others_present_iff,
}
use zodia.App.Events.{Hex, AppModel, present, handle, sync_state_event}

-- A heartbeat with the clock at which it is handled.
pub record Beat : Type 0 where
  pub op_id : ℕ
  pub peer : ℕ
  pub key : Bytes
  pub joined : Bool
  -- in microseconds
  pub timestamp : ℕ
  -- the seconds of the sender's clock
  pub sent : ℕ
  pub now : ℕ

-- The last heartbeat of a peer other than the local identity on a key, of a history with the newest
-- first: its timestamp, or nothing where the peer left or never came.
abbrev pub latest : ℕ → List Beat → Bytes → ℕ → Option ℕ
latest me [] k p = none
latest me (b ∷ older) k p =
    if not (b.peer == me) && (k == b.key && b.peer == p)
    then (if b.joined then some b.timestamp else none)
    else latest me older k p

-- The clock does not run backwards, up to the time given.
abbrev pub IsTimely : ℕ → List Beat → Type 0
IsTimely now [] = Unit
IsTimely now (b ∷ older) = (b.now ≤ now) × IsTimely b.now older

fresh-fresh : (a b : ℕ) (o : Option ℕ) → a ≤ b → fresh b (fresh a o) ≡ fresh b o
fresh-fresh a b none h = refl
fresh-fresh a b (some t) h = ground (arith, h)

fresh-if :
    (now : ℕ) (b : Bool) (x y z : Option ℕ)
    → fresh now y ≡ fresh now z
    → fresh now (if b then x else y) ≡ fresh now (if b then x else z)
fresh-if now true x y z h = refl
fresh-if now false x y z h = h

-- What the heartbeats leave of the map.
map_step : ℕ → EditorPresence → Beat → EditorPresence
unfolding heartbeat prune_stale_presence
map_step me map b =
    if b.peer == me
    then map
    else prune_stale_presence (heartbeat map b.key b.peer b.joined b.timestamp) b.now

map_step-IsTable :
    (me : ℕ) (map : EditorPresence) (b : Beat) → IsTable map → IsTable (map_step me map b)
unfolding map_step
map_step-IsTable me map b m = elim (Bool-cases (b.peer == me)) [
  | inl f ↦ rw (map_step, f) m
  | inr f ↦
      rw (map_step, f)
        (prune_stale_presence-IsTable (heartbeat map b.key b.peer b.joined b.timestamp) b.now
          (heartbeat-IsTable map b.key b.peer b.joined b.timestamp m))
]

seen-map_step :
    (me : ℕ) (map : EditorPresence) (b : Beat) (now : ℕ) (k : Bytes) (p : ℕ)
    → IsTable map
    → b.now ≤ now
    → fresh now (seen (map_step me map b) k p)
      ≡ fresh now (
          if not (b.peer == me) && (k == b.key && b.peer == p)
          then (if b.joined then some b.timestamp else none)
          else seen map k p)
unfolding map_step
seen-map_step me map b now k p m h = elim (Bool-cases (b.peer == me)) [
  | inl f ↦ rw (map_step, f) refl
  | inr f ↦
      rw (map_step, f)
        (ap (fresh now) (
            seen-prune_stale_presence (heartbeat map b.key b.peer b.joined b.timestamp) b.now k p
              (heartbeat-IsTable map b.key b.peer b.joined b.timestamp m))
          ∙ fresh-fresh b.now now (seen (heartbeat map b.key b.peer b.joined b.timestamp) k p) h
          ∙ ap (fresh now) (seen-heartbeat map b.key b.peer b.joined b.timestamp k p))
]

map_of : ℕ → List Beat → EditorPresence
unfolding map_step
map_of me [] = no_presence
map_of me (b ∷ older) = map_step me (map_of me older) b

map_of-IsTable : (me : ℕ) (history : List Beat) → IsTable (map_of me history)
unfolding map_of
map_of-IsTable me [] = λ k. tt
map_of-IsTable me (b ∷ older) = map_step-IsTable me (map_of me older) b (map_of-IsTable me older)

relax-IsTimely : (a b : ℕ) (history : List Beat) → a ≤ b → IsTimely a history → IsTimely b history
relax-IsTimely a b [] h t = tt
relax-IsTimely a b (x ∷ older) h (g, t) = (omega (arith, g, h), t)

seen-map_of :
    (me : ℕ) (history : List Beat) (now : ℕ) (k : Bytes) (p : ℕ)
    → IsTimely now history
    → fresh now (seen (map_of me history) k p) ≡ fresh now (latest me history k p)
unfolding map_of
seen-map_of me [] now k p t = refl
seen-map_of me (b ∷ older) now k p (h, t) =
    seen-map_step me (map_of me older) b now k p (map_of-IsTable me older) h
    ∙ fresh-if now (not (b.peer == me) && (k == b.key && b.peer == p))
        (if b.joined then some b.timestamp else none) (seen (map_of me older) k p)
        (latest me older k p) (seen-map_of me older now k p (relax-IsTimely b.now now older h t))

fresh-some : (now t : ℕ) (o : Option ℕ) → (fresh now o ≡ some t) ↔ ((o ≡ some t) × (now ≤ t + 300))
fresh-some now t none = ground arith
fresh-some now t (some u) = ground arith

-- Some other peer's last heartbeat on the key is a join, stamped at most 300 below the clock.
abbrev Counts : ℕ → List Beat → Bytes → ℕ → Type 0
Counts me history key now = (p : ℕ) × (t : ℕ) × (latest me history key p ≡ some t) × (now ≤ t + 300)

-- The heartbeat was sent at a second, stamped with its microseconds, of which there are more than
-- the clock has seconds.
abbrev pub IsStamped : ℕ → Beat → Type 0
IsStamped now b = (b.sent * 1000000 ≤ b.timestamp) × (now ≤ b.sent * 1000000)

-- Some other peer's last heartbeat on the key is a join.
abbrev pub Joined : ℕ → List Beat → Bytes → Type 0
Joined me history key = (p : ℕ) × (t : ℕ) × (latest me history key p ≡ some t)

recent_join :
    (joined : Bool) (stamp now t : ℕ)
    → now ≤ stamp
    → ◌≡◌ {A = Option ℕ} (if joined then some stamp else none) (some t)
    → now ≤ t + 300
recent_join true stamp now t h e = ground (arith, h, e)
recent_join false stamp now t h e = cc

latest-recent :
    (me : ℕ) (history : List Beat) (now : ℕ) (k : Bytes) (p t : ℕ)
    → All (IsStamped now) history
    → latest me history k p ≡ some t
    → now ≤ t + 300
latest-recent me [] now k p t a h = cc
latest-recent me (b ∷ older) now k p t a h =
    elim (Bool-cases (not (b.peer == me) && (k == b.key && b.peer == p))) [
      | inl e ↦
          recent_join b.joined b.timestamp now t (omega (arith, a.0.0, a.0.1)) (sym (rw e refl) ∙ h)
      | inr e ↦ latest-recent me older now k p t a.1 (sym (rw e refl) ∙ h)
    ]

others_present-Counts :
    (me : ℕ) (history : List Beat) (key : Bytes) (now : ℕ)
    → IsTimely now history
    → ((others_present (map_of me history) key now).1 ≡ true) ↔ Counts me history key now
others_present-Counts me history key now t =
    let here = others_present_iff (map_of me history) key now (map_of-IsTable me history) in
    (
      λ h.
          let (p, at, f) = here.0 h in
          let (g, r) =
            (fresh-some now at (latest me history key p)).0
              (sym (seen-map_of me history now key p t) ∙ f) in
          (p, at, g, r),
      λ (p, at, g, r). here.1 (
        p,
        at,
        seen-map_of me history now key p t ∙ (fresh-some now at (latest me history key p)).1 (g, r),
      ),
    )

module _ (c : Primitives) (hex : Hex) {D : Type 0} (loro : Crdt D) {F : Type 0} where
  -- The model after the handler took the heartbeats.
  unfoldable pub attend : AppModel F → List Beat → AppModel F
  unfolding sync_state_event
  attend app [] = app
  attend app (b ∷ older) =
      sync_state_event c hex loro (attend app older)
        (StateEvent.editor_presence_changed b.op_id b.peer b.key b.joined b.timestamp) b.now

  after_beat :
      (a : AppModel F) (b : Beat)
      → ((present a b.key b.peer b.joined b.timestamp b.now).me ≡ a.me)
        × ((present a b.key b.peer b.joined b.timestamp b.now).editor_presence
            ≡ map_step a.me a.editor_presence b)
  unfolding present map_step others_present
  after_beat a b = elim (Bool-cases (b.peer == a.me)) [
    | inl f ↦ rw (present, map_step, f) (refl, refl)
    | inr f ↦ rw (present, map_step, f) (refl, refl)
  ]

  attend_map :
      (app : AppModel F) (history : List Beat)
      → app.editor_presence ≡ no_presence
      → ((attend app history).me ≡ app.me)
        × ((attend app history).editor_presence ≡ map_of app.me history)
  unfolding attend sync_state_event handle map_of
  attend_map app [] e = (refl, e)
  attend_map app (b ∷ older) e =
      let (f, g) = attend_map app older e in
      let (f', g') = after_beat (attend app older) b in
      (
        f' ∙ f,
        g'
            ∙ ap (λ m. map_step m (attend app older).editor_presence b) f
            ∙ ap (λ m. map_step app.me m b) g,
      )

  -- From an empty presence map: another one is present exactly where the number of some peer's last
  -- join on the key is at most 300 below the clock's, both taken as they come.
  others_present-attend :
      (app : AppModel F) (history : List Beat) (now : ℕ) (key : Bytes)
      → app.editor_presence ≡ no_presence
      → IsTimely now history
      → ((others_present (attend app history).editor_presence key now).1 ≡ true)
        ↔ Counts app.me history key now
  unfolding attend
  others_present-attend app history now key e t =
      subst (λ m. ((others_present m key now).1 ≡ true) ↔ Counts app.me history key now)
        (sym (attend_map app history e).1) (others_present-Counts app.me history key now t)

  -- The program's units: heartbeats are stamped in microseconds, as `Timestamp::now` of p2panda does,
  -- and the handler's clock, like the five minutes of `PRESENCE_TTL_SECS`, is in seconds. From an
  -- empty presence map, while the clock does not run backwards and its seconds have not reached the
  -- microseconds of any heartbeat: another one is present in the editor of a key exactly where the
  -- last heartbeat of some peer other than the local identity on that key is a join, however long ago
  -- it was sent. Without a leave no presence ever expires.
  pub others_present-Joined :
      (app : AppModel F) (history : List Beat) (now : ℕ) (key : Bytes)
      → app.editor_presence ≡ no_presence
      → IsTimely now history
      → All (IsStamped now) history
      → ((others_present (attend app history).editor_presence key now).1 ≡ true)
        ↔ Joined app.me history key
  others_present-Joined app history now key e t stamps =
      let counts = others_present-attend app history now key e t in
      (
        λ h. let (p, at, last, recent) = counts.0 h in (p, at, last),
        λ (p, at, last).
            counts.1 (p, at, last, latest-recent app.me history now key p at stamps last),
      )
