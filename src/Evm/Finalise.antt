-- ===== src/Evm/Finalise.antt =====
-- The end of a transaction and of a block (evm/types/statedb.go): `Finalise`, `Reset` and what they
-- call. An error is the address whose account could not be written, beside the database
-- as it stands then; `none` is a panic.
pub mod Writes
pub mod Loop
use faxchain.Base.{
  ℕ, Bool, true, false, ◌&&◌, ◌||◌, Option, none, some, List, [], ◌∷◌, ◌==◌, if◌then◌else◌, ◌>>=◌,
  put_key, delete_key,
}
use faxchain.Evm.Table.{empty_table, get}
use faxchain.Evm.AccessList.{new_access_list}
use faxchain.Evm.Dirties.{new_dirties}
use faxchain.Evm.StateObject.{Env, eth_account, StateObject, is_empty_object}
use faxchain.Evm.Journal.{StateDb}
use faxchain.Evm.StateDb.{set_state_object}
use faxchain.Evm.Commit.{commit_state}
use faxchain.Evm.Getters.{delete_logs}

unfoldable pub clear_state_objects : StateDb → StateDb
unfolding empty_table
clear_state_objects db = record db { state_objects = empty_table; state_objects_dirty = λ _. false }

unfoldable pub clear_journal_and_refund : StateDb → StateDb
unfolding new_dirties
clear_journal_and_refund db = record db {
  entries = [];
  dirties = new_dirties;
  valid_revisions = [];
  refund = 0;
}

unfoldable pub reset : StateDb → StateDb
unfolding clear_state_objects clear_journal_and_refund empty_table new_access_list
reset db = clear_journal_and_refund (record (clear_state_objects db) {
  thash = 0;
  bhash = 0;
  tx_index = 0;
  log_size = 0;
  preimages = empty_table;
  access_list = new_access_list;
})

-- The account is removed from the account mapper, and the live object marked.
unfoldable pub delete_state_object : StateDb → StateObject → StateDb
unfolding set_state_object
delete_state_object db so = record (set_state_object db (record so { deleted = true })) {
  stores = record stores { accounts = delete_key so.address stores.accounts };
}
  where
    open db use {stores}

abbrev pub mark_dirty : StateDb → ℕ → StateDb
mark_dirty db addr = record db {
  state_objects_dirty = λ j. if j == addr then true else db.state_objects_dirty j;
}

abbrev pub unmark_dirty : StateDb → ℕ → StateDb
unmark_dirty db addr = record db {
  state_objects_dirty = λ j. if j == addr then false else db.state_objects_dirty j;
}

module _ (env : Env) where
  -- A balance that is not negative is valid, and the balance of the account is the one written.
  -- A blacklisted address is an error.
  unfoldable pub update_state_object : StateDb → StateObject → Option ℕ × StateDb
  update_state_object db so = if env.blacklisted so.address then (some so.address, db) else (
    none,
    record db {
      stores = record stores {
        accounts = put_key so.address (eth_account so.account) stores.accounts;
      };
    },
  )
    where
      open db use {stores}

  -- Whether an object is removed.
  abbrev pub is_doomed : Bool → StateObject → Bool
  is_doomed delete_empty so = so.suicided || (delete_empty && is_empty_object env so)

  -- The storage of an object, committed to the store and taken out of the object.
  abbrev pub flush : StateDb → StateObject → Option StateDb
  flush db so = commit_state so (db.stores.storage so.address) >>= λ (so', store).
      some (record (set_state_object db so') {
        stores = record stores {
          storage = λ j. if j == so.address then store else stores.storage j;
        };
      })
    where
      open db use {stores}

  abbrev pub finalise_object : Bool → StateDb → StateObject → Option (Option ℕ × StateDb)
  finalise_object delete_empty db so =
      if is_doomed delete_empty so
      then some (none, delete_state_object db so)
      else (flush db so >>= λ db'. some (update_state_object db' so))

  abbrev pub after_update : ℕ → Option ℕ × StateDb → Option ℕ × StateDb
  after_update addr (some e, db) = (some e, db)
  after_update addr (none, db) = (none, mark_dirty db addr)

  -- An address without an object is skipped.
  abbrev pub finalise_at : Bool → StateDb → ℕ → Option StateObject → Option (Option ℕ × StateDb)
  finalise_at delete_empty db addr none = some (none, db)
  finalise_at delete_empty db addr (some so) =
      finalise_object delete_empty db so >>= λ r. some (after_update addr r)

  abbrev pub unless_error {ℓ} :
      {A : Type ℓ} → (Option ℕ × StateDb → A) → (StateDb → A) → Option ℕ × StateDb → A
  unless_error stop go (some e, db) = stop (some e, db)
  unless_error stop go (none, db) = go db

  -- The loop over the dirty accounts, which stops at an error.
  unfoldable pub finalise_all : Bool → List (ℕ × ℕ) → StateDb → Option (Option ℕ × StateDb)
  unfolding delete_state_object update_state_object
  finalise_all delete_empty [] db = some (none, db)
  finalise_all delete_empty ((addr, _) ∷ ds) db =
      finalise_at delete_empty db addr (get db.state_objects addr)
      >>= unless_error some (finalise_all delete_empty ds)

  abbrev pub end_transaction : StateDb → StateDb
  end_transaction db = delete_logs (clear_journal_and_refund db) db.thash

  -- The journal and the logs stay where an account was refused.
  unfoldable pub finalise : Bool → StateDb → Option (Option ℕ × StateDb)
  unfolding finalise_all clear_journal_and_refund
  finalise delete_empty db =
      finalise_all delete_empty db.dirties.dirties db
      >>= unless_error some (λ db'. some (none, end_transaction db'))
