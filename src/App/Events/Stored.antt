-- ===== src/App/Events/Stored.antt =====
-- The store that the branches of the handler leave.
use zodia.Prelude.{
  ℕ, ◌≡◌, refl, Bool, true, false, Option, none, some, Bytes, ◌==◌, nat_eq, if◌then◌else◌,
}
use zodia.Pipeline.{StateEvent}
use zodia.Store.{Primitives, Db}
use zodia.App.Events.{
  Hex, AppModel, Answer, show_item, authored, affirmed, responded, revoked, named, ring_notice,
  vetoed, hearted, present,
}

-- The store that an answer leaves, and the mutes and the identity that it keeps.
pub record Stored {F : Type 0} (app : AppModel F) (db : Db) (after : AppModel F) : Type 0 where
  pub store_is : after.store ≡ db
  pub muted_is : after.muted_peers ≡ app.muted_peers

pub show_item-Stored :
    {F : Type 0} (app : AppModel F) (db : Db) (answer : Answer F)
    → Stored app db answer.0
    → Stored app db (show_item answer)
show_item-Stored app db (after, none) s = s
show_item-Stored app db (after, some item) s = record {
  store_is = s.store_is;
  muted_is = s.muted_is;
}

module _ (c : Primitives) {F : Type 0} where
  pub authored-Stored :
      (event : StateEvent) (key : Bytes) (now : ℕ) (app : AppModel F) (r : Db × Bool)
      → Stored app r.0 (authored c app event key now r).0
  unfolding authored
  authored-Stored event key now app (db, false) = record { store_is = refl; muted_is = refl }
  authored-Stored event key now app (db, true) = record { store_is = refl; muted_is = refl }

  pub affirmed-Stored :
      (event : StateEvent) (target voter now : ℕ) (app : AppModel F) (r : Db × Bool)
      → Stored app r.0 (affirmed c app event target voter now r).0
  unfolding affirmed
  affirmed-Stored event target voter now app (db, false) = record {
    store_is = refl;
    muted_is = refl;
  }
  affirmed-Stored event target voter now app (db, true) = record {
    store_is = refl;
    muted_is = refl;
  }

  pub responded-Stored :
      (event : StateEvent) (parent author now : ℕ) (app : AppModel F) (r : Db × Bool)
      → Stored app r.0 (responded c app event parent author now r).0
  unfolding responded
  responded-Stored event parent author now app (db, false) = record {
    store_is = refl;
    muted_is = refl;
  }
  responded-Stored event parent author now app (db, true) = record {
    store_is = refl;
    muted_is = refl;
  }

  pub revoked-Stored : (app : AppModel F) (r : Db × Bool) → Stored app r.0 (revoked c app r)
  unfolding revoked
  revoked-Stored app (db, false) = record { store_is = refl; muted_is = refl }
  revoked-Stored app (db, true) = record { store_is = refl; muted_is = refl }

  pub named-Stored :
      (hex : Hex) (by : ℕ) (name : Bytes) (app : AppModel F) (r : Db × Bool)
      → Stored app r.0 (named hex app by name r)
  named-Stored hex by name app (db, false) = record { store_is = refl; muted_is = refl }
  named-Stored hex by name app (db, true) = record { store_is = refl; muted_is = refl }

  pub ring_notice-Stored :
      (app : AppModel F) (key : Bytes) (editor op_id now : ℕ) (b : Bool)
      → Stored app app.store (ring_notice c app key editor op_id now b)
  unfolding ring_notice
  ring_notice-Stored app key editor op_id now false = record { store_is = refl; muted_is = refl }
  ring_notice-Stored app key editor op_id now true = record { store_is = refl; muted_is = refl }

  pub vetoed-Stored :
      (app : AppModel F) (revoker now : ℕ) (r : Db × Option (Bytes × (ℕ × ℕ)))
      → Stored app r.0 (vetoed c app revoker now r)
  unfolding vetoed
  vetoed-Stored app revoker now (db, none) = record { store_is = refl; muted_is = refl }
  vetoed-Stored app revoker now (db, some (key, (author, edit_op))) = record {
    store_is = refl;
    muted_is = refl;
  }

module _ {F : Type 0} where
  pub hearted-Stored :
      (app : AppModel F) (voter : ℕ) (key : Bytes) (b : Bool)
      → Stored app app.store (hearted app voter key b)
  hearted-Stored app voter key false = record { store_is = refl; muted_is = refl }
  hearted-Stored app voter key true = record { store_is = refl; muted_is = refl }

  pub if-Stored :
      (app : AppModel F) (b : Bool) (there here : AppModel F)
      → Stored app app.store there
      → Stored app app.store here
      → Stored app app.store (if b then there else here)
  if-Stored app true there here s t = s
  if-Stored app false there here s t = t

  pub present-Stored :
      (app : AppModel F) (key : Bytes) (peer : ℕ) (joined : Bool) (ts now : ℕ)
      → Stored app app.store (present app key peer joined ts now)
  unfolding present
  present-Stored app key peer joined ts now =
      if-Stored app (peer == app.me) app _ (record { store_is = refl; muted_is = refl })
        (record { store_is = refl; muted_is = refl })
