-- ===== src/Doc.antt =====
-- doc/src/lib.rs: the ring of recent block authors and the authority to veto;
-- `InterpDoc` over the text CRDT loro in Document and LocalEdits.
pub mod Ring
pub mod Document
pub mod LocalEdits
use zodia.Prelude.{
  ℕ, ◌-◌, ◌*◌, Bool, false, not, Option, none, some, List, [], ◌∷◌, ◌++◌, ltb, ◌==◌, nat_eq,
  if◌then◌else◌, length, any, last?,
}

abbrev pub ring_size : ℕ
ring_size = 5

abbrev pub veto_window_days : ℕ
veto_window_days = 7

pub record RingEntry : Type 0 where
  pub author : ℕ
  pub edit_op_id : ℕ
  pub edited_at : ℕ

-- `while entries.len() > RING_SIZE { entries.pop_front(); }`
unfoldable pub evict {ℓ} : {A : Type ℓ} → List A → List A
evict [] = []
evict (x ∷ xs) = let rest = evict xs in if ltb ring_size (length (x ∷ xs)) then rest else x ∷ xs

-- A `Ring` is the list of its entries, the newest at the back.
unfoldable pub from_entries : List RingEntry → List RingEntry
unfolding evict
from_entries entries = evict entries

unfoldable pub push : List RingEntry → RingEntry → List RingEntry
unfolding evict
push ring entry = evict (ring ++ entry ∷ [])

unfoldable pub contains : List RingEntry → ℕ → Bool
contains ring author = any (λ e. e.author == author) ring

unfoldable pub newest : List RingEntry → Option RingEntry
newest ring = last? ring

unfoldable pub veto_authorised : List RingEntry → ℕ → ℕ → ℕ → ℕ → Bool
unfolding contains newest
veto_authorised ring revoker target_edit_op_id edit_unix_ts now_unix_ts =
    if not (contains ring revoker)
    then false
    else if ltb (veto_window_days * 86400) (now_unix_ts - edit_unix_ts)
    then false
    else elim (newest ring) [ none ↦ false | some entry ↦ entry.edit_op_id == target_edit_op_id ]
