-- ===== src/Tests/Delivery.antt =====
-- Tests of what is published and decoded, on a codec that writes a tag and the fields, and a store
-- that is empty.
use zodia.Prelude.{
  ℕ, zero, suc, ◌≡◌, refl, ap, Bool, true, false, none, some, List, [], ◌∷◌, Bytes, codes, ◌-◌, ◌+◌,
  ◌∙◌,
}
use zodia.Ops.{InterpOp, DocOp, OpCodecError, Decoded, ok, err, Codec, IsCodec, interp_key}
use zodia.OperationStore.{SqliteStore, Entry}
use zodia.Sync.{Network, ZodiaSyncNode, publish, publish_doc, topic_key_for_interp}
use zodia.Pipeline.{materialize_interp, materialize_doc}
use zodia.Pipeline.Runs.{event_of}
use zodia.Delivery.{operation_of, publish-event_of, publish_doc-event_of}

-- Every number one more, and a zero after the last.
abbrev pub write_list : List ℕ → Bytes → Bytes
write_list [] rest = 0 ∷ rest
write_list (x ∷ xs) rest = suc x ∷ write_list xs rest

abbrev cons : ℕ → List ℕ × Bytes → List ℕ × Bytes
cons x (xs, rest) = (x ∷ xs, rest)

abbrev pub read_list : Bytes → List ℕ × Bytes
read_list [] = ([], [])
read_list (zero ∷ rest) = ([], rest)
read_list (suc x ∷ rest) = cons x (read_list rest)

pub list_read_back : (xs : List ℕ) (rest : Bytes) → read_list (write_list xs rest) ≡ (xs, rest)
list_read_back [] rest = refl
list_read_back (x ∷ xs) rest = ap (cons x) (list_read_back xs rest)

abbrev pub from_bool : Bool → ℕ
from_bool false = 0
from_bool true = 1

abbrev pub to_bool : ℕ → Bool
to_bool zero = false
to_bool (suc n) = true

pub bool_read_back : (b : Bool) → to_bool (from_bool b) ≡ b
bool_read_back false = refl
bool_read_back true = refl

abbrev write_interp : InterpOp → Bytes
write_interp (InterpOp.author key body) = 0 ∷ write_list key body
write_interp (InterpOp.affirm target) = 1 ∷ target ∷ []
write_interp (InterpOp.respond_to parent body) = 2 ∷ parent ∷ body
write_interp (InterpOp.revoke target) = 3 ∷ target ∷ []
write_interp (InterpOp.set_display_name name) = 4 ∷ name
write_interp (InterpOp.circle_invite_notify circle recipient) =
    5 ∷ circle ∷ write_list (recipient ∷ []) []
write_interp (InterpOp.circle_join_notify circle) = 6 ∷ circle ∷ []

abbrev unread : {A : Type 0} → Decoded A
unread = err (OpCodecError.decode (codes "unread"))

abbrev headed : {A : Type 0} → (ℕ → Bytes → A) → Bytes → Decoded A
headed make [] = unread
headed make (x ∷ rest) = ok (make x rest)

abbrev authored : List ℕ × Bytes → InterpOp
authored (key, body) = InterpOp.author key body

abbrev first_of : List ℕ × Bytes → ℕ
first_of ([], rest) = 0
first_of (x ∷ xs, rest) = x

abbrev interp_by : ℕ → Bytes → Decoded InterpOp
interp_by zero rest = ok (authored (read_list rest))
interp_by (suc zero) rest = headed (λ x r. InterpOp.affirm x) rest
interp_by (suc (suc zero)) rest = headed InterpOp.respond_to rest
interp_by (suc (suc (suc zero))) rest = headed (λ x r. InterpOp.revoke x) rest
interp_by (suc (suc (suc (suc zero)))) rest = ok (InterpOp.set_display_name rest)
interp_by (suc (suc (suc (suc (suc zero))))) rest =
    headed (λ x r. InterpOp.circle_invite_notify x (first_of (read_list r))) rest
interp_by (suc (suc (suc (suc (suc (suc zero)))))) rest =
    headed (λ x r. InterpOp.circle_join_notify x) rest
interp_by (suc (suc (suc (suc (suc (suc (suc n))))))) rest = unread

-- An edit's numbers stand before its lists: the flag, the revision, the key, the blocks, the update.
abbrev write_doc : DocOp → Bytes
write_doc (DocOp.edit key base update blocks ai) =
    7 ∷ from_bool ai ∷ base ∷ write_list key (write_list blocks update)
write_doc (DocOp.veto key target) = 8 ∷ target ∷ key
write_doc (DocOp.affirm_rev key rev) = 9 ∷ rev ∷ key
write_doc (DocOp.editor_presence key joined) = 10 ∷ from_bool joined ∷ key
write_doc (DocOp.retract_affirm key rev) = 11 ∷ rev ∷ key

abbrev edit_of : ℕ → ℕ → List ℕ → List ℕ × Bytes → DocOp
edit_of ai base key (blocks, update) = DocOp.edit key base update blocks (to_bool ai)

abbrev keyed : ℕ → ℕ → List ℕ × Bytes → DocOp
keyed ai base (key, rest) = edit_of ai base key (read_list rest)

abbrev doc_by : ℕ → Bytes → Decoded DocOp
doc_by zero rest = elim rest [
  | [] ↦ unread
  | ai ∷ more ↦ headed (λ base r. keyed ai base (read_list r)) more
]
doc_by (suc zero) rest = headed (λ x key. DocOp.veto key x) rest
doc_by (suc (suc zero)) rest = headed (λ x key. DocOp.affirm_rev key x) rest
doc_by (suc (suc (suc zero))) rest = headed (λ x key. DocOp.editor_presence key (to_bool x)) rest
doc_by (suc (suc (suc (suc n)))) rest = headed (λ x key. DocOp.retract_affirm key x) rest

abbrev read_interp : Bytes → Decoded InterpOp
read_interp [] = unread
read_interp (t ∷ rest) = interp_by t rest

abbrev read_doc : Bytes → Decoded DocOp
read_doc [] = unread
read_doc (t ∷ rest) = doc_by (t - 7) rest

abbrev tagged : Codec
tagged = record {
  write_interp = write_interp;
  write_doc = write_doc;
  read_interp = read_interp;
  read_doc = read_doc;
  blake3 = λ bytes. 0;
}

interp_read_back : (op : InterpOp) → read_interp (write_interp op) ≡ ok op
interp_read_back (InterpOp.author key body) = ap (λ p. ok (authored p)) (list_read_back key body)
interp_read_back (InterpOp.affirm target) = refl
interp_read_back (InterpOp.respond_to parent body) = refl
interp_read_back (InterpOp.revoke target) = refl
interp_read_back (InterpOp.set_display_name name) = refl
interp_read_back (InterpOp.circle_invite_notify circle recipient) = refl
interp_read_back (InterpOp.circle_join_notify circle) = refl

doc_read_back : (op : DocOp) → read_doc (write_doc op) ≡ ok op
doc_read_back (DocOp.edit key base update blocks ai) =
    ap (λ p. ok (keyed (from_bool ai) base p)) (list_read_back key (write_list blocks update))
    ∙ ap (λ p. ok (edit_of (from_bool ai) base key p)) (list_read_back blocks update)
    ∙ ap (λ b. ok (DocOp.edit key base update blocks b)) (bool_read_back ai)
doc_read_back (DocOp.veto key target) = refl
doc_read_back (DocOp.affirm_rev key rev) = refl
doc_read_back (DocOp.editor_presence key joined) =
    ap (λ b. ok (DocOp.editor_presence key b)) (bool_read_back joined)
doc_read_back (DocOp.retract_affirm key rev) = refl

doc_not_interp : (op : DocOp) → (e : OpCodecError) × (read_interp (write_doc op) ≡ err e)
doc_not_interp (DocOp.edit key base update blocks ai) = (_, refl)
doc_not_interp (DocOp.veto key target) = (_, refl)
doc_not_interp (DocOp.affirm_rev key rev) = (_, refl)
doc_not_interp (DocOp.editor_presence key joined) = (_, refl)
doc_not_interp (DocOp.retract_affirm key rev) = (_, refl)

tagged-IsCodec : IsCodec tagged
tagged-IsCodec = record {
  interp_read_back = interp_read_back;
  doc_read_back = doc_read_back;
  doc_not_interp = doc_not_interp;
}

abbrev empty_store : SqliteStore Unit Unit
empty_store = record {
  get_latest_entry = λ t author log. none;
  can_read = λ t author log. true;
  insert_operation = λ t h e log. some tt;
  associate = λ t topic author log. some tt;
  header_hash = λ h. h.seq_num + 100;
}

abbrev wide : Network Unit
wide = record { opens = λ topic. true; accepts = λ topic e. true }

abbrev new_node : ZodiaSyncNode Unit Unit
new_node = record {
  key = 5;
  sync_store = tt;
  global_topic = 9;
  handles = 9 ∷ [];
  inbound = [];
  sent = [];
  authored = [];
}

abbrev answer : InterpOp
answer = InterpOp.respond_to 77 (codes "yes")

publish-event_of_example :
    (e : Entry Unit) × ((publish tagged wide empty_store new_node answer 10).0.sent ≡ (9, e) ∷ [])
    × (event_of tagged (operation_of e) ≡ materialize_interp e.hash 5 10 answer)
unfolding publish
publish-event_of_example =
    publish-event_of tagged wide empty_store tagged-IsCodec new_node _ answer 10 refl

abbrev edit : DocOp
edit = DocOp.edit (codes "natal:x") 0 (codes "!") (3 ∷ []) true

publish_doc-event_of_example :
    (e : Entry Unit) × ((publish_doc tagged wide empty_store new_node edit 20).0.sent
      ≡ (topic_key_for_interp tagged (interp_key edit), e) ∷ [])
    × (event_of tagged (operation_of e) ≡ materialize_doc e.hash 5 20 edit)
unfolding publish_doc
publish_doc-event_of_example =
    publish_doc-event_of tagged wide empty_store tagged-IsCodec new_node _ edit 20 refl
