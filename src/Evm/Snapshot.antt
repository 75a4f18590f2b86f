-- ===== src/Evm/Snapshot.antt =====
-- Snapshots and reverts: the `revert` methods of the journal entries and of the journal
-- (evm/types/journal.go), `Snapshot` and `RevertToSnapshot` (evm/types/statedb.go).
-- `none` is a panic; `sort.Search` is the first position at which its test holds.
pub mod Revert
pub mod Undo
pub mod Objects
pub mod Accounts
pub mod Creation
pub mod Operations
pub mod Storage
pub mod Lifecycle
pub mod Slices
pub mod Restore
pub mod Panics
use faxchain.Base.{
  ℕ, suc, ◌+◌, ◌-◌, ◌%◌, Bool, true, false, Option, none, some, List, [], ◌∷◌, ◌++◌, length,
  get_elem?, take, leb, ◌==◌, if◌then◌else◌, ◌>>=◌,
}
use faxchain.Evm.Table.{remove}
use faxchain.Evm.AccessList.{delete_address, delete_slot}
use faxchain.Evm.Dirties.{drop_dirty}
use faxchain.Evm.StateObject.{
  Env, StateObject, set_object_state, set_object_code, set_object_balance, set_object_nonce,
}
use faxchain.Evm.Journal.{
  JournalEntry, create_object_change, reset_object_change, suicide_change, balance_change,
  nonce_change, storage_change, code_change, refund_change, add_log_change, add_preimage_change,
  touch_change, access_list_add_account_change, access_list_add_slot_change, dirtied, Log, Revision,
  StateDb,
}
use faxchain.Evm.StateDb.{set_state_object, get_state_object, word}

-- `logs[:len(logs)-1]`
unfoldable pub drop_last : List Log → List Log
drop_last [] = []
drop_last (l ∷ []) = []
drop_last (l ∷ m ∷ ls) = l ∷ drop_last (m ∷ ls)

-- A method called on the object of an address, where nil is a panic.
abbrev pub on_object : (StateObject → StateObject) → Option StateObject × StateDb → Option StateDb
on_object f (none, db) = none
on_object f (some so, db) = some (set_state_object db (f so))

-- The same where nil is skipped.
abbrev pub on_object_or_skip :
    (StateObject → StateObject) → Option StateObject × StateDb → Option StateDb
on_object_or_skip f (none, db) = some db
on_object_or_skip f (some so, db) = some (set_state_object db (f so))

unfoldable pub restore_suicided : Bool → ℕ → StateObject → StateObject
restore_suicided prev balance so = set_object_balance (record so { suicided = prev }) balance

unfoldable pub snapshot : StateDb → ℕ × StateDb
snapshot db = (
  db.next_revision_id,
  record db {
    next_revision_id = db.next_revision_id + 1;
    valid_revisions =
        db.valid_revisions
        ++ record { id = db.next_revision_id; journal_index = length db.entries } ∷ [];
  },
)

-- The first revision whose id is not below.
unfoldable pub search_revision : List Revision → ℕ → ℕ
search_revision [] id = 0
search_revision (r ∷ rs) id = if leb id r.id then 0 else suc (search_revision rs id)

module _ (env : Env) where
  -- What the `revert` method of an entry does.
  unfoldable pub undo_entry : StateDb → JournalEntry → Option StateDb
  undo_entry db (create_object_change a) = some (record db {
    state_objects_dirty = λ j. if j == a then false else db.state_objects_dirty j;
    state_objects = remove db.state_objects a;
  })
  undo_entry db (reset_object_change prev) = some (set_state_object db prev)
  undo_entry db (suicide_change a prev balance) =
      get_state_object env db a >>= on_object_or_skip (restore_suicided prev balance)
  undo_entry db (balance_change a prev) =
      get_state_object env db a >>= on_object (λ so. set_object_balance so prev)
  undo_entry db (nonce_change a prev) =
      get_state_object env db a >>= on_object (λ so. set_object_nonce so prev)
  undo_entry db (storage_change a key prev) =
      get_state_object env db a >>= on_object (λ so. set_object_state so key prev)
  undo_entry db (code_change a prev_code prev_hash) =
      get_state_object env db a >>= on_object (λ so. set_object_code so prev_hash prev_code)
  undo_entry db (refund_change prev) = some (record db { refund = prev })
  undo_entry db (add_log_change _) =
      some (record db { logs = drop_last db.logs; log_size = (db.log_size + word - 1) % word })
  undo_entry db (add_preimage_change hash) =
      some (record db { preimages = remove db.preimages hash })
  undo_entry db (touch_change _) = some db
  undo_entry db (access_list_add_account_change a) =
      some (record db { access_list = delete_address db.access_list a })
  undo_entry db (access_list_add_slot_change a slot) =
      delete_slot db.access_list a slot >>= λ al. some (record db { access_list = al })

  -- The dirty tracking of an entry that is undone.
  abbrev pub untrack : Option ℕ → StateDb → Option StateDb
  untrack none db = some db
  untrack (some a) db = drop_dirty db.dirties a >>= λ d. some (record db { dirties = d })

  -- `journal.revert`: undoes the entries beyond the first `n`, the newest first. An entry is cut
  -- off when it is undone, not at the end, since no `revert` method looks at the entries.
  unfoldable pub revert_journal : List JournalEntry → ℕ → StateDb → Option StateDb
  revert_journal [] n db = some db
  revert_journal (e ∷ es) n db = elim (leb (suc (length es)) n) [
    | true ↦ some db
    | false ↦ undo_entry db e >>= λ db'.
        untrack (dirtied e) (record db' { entries = es }) >>= revert_journal es n
  ]

  abbrev pub revert_at : StateDb → ℕ → ℕ → Option Revision → Option StateDb
  revert_at db id i none = none
  revert_at db id i (some r) =
      if r.id == id
      then (revert_journal db.entries r.journal_index db >>= λ db'.
          some (record db' { valid_revisions = take i db'.valid_revisions }))
      else none

  unfoldable pub revert_to_snapshot : StateDb → ℕ → Option StateDb
  unfolding revert_journal search_revision
  revert_to_snapshot db id =
      let i = search_revision db.valid_revisions id in
      revert_at db id i (get_elem? db.valid_revisions i)
