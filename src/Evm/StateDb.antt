-- ===== src/Evm/StateDb.antt =====
-- The operations of `CommitStateDB` (evm/types/statedb.go) and of a live object that the database
-- journals (evm/types/state_object.go). `none` is a panic. An operation that works on a pointer to
-- an object fetches it, changes it and writes it back under its address.
-- Amounts are those that the EVM passes, which are not negative.
pub mod View
pub mod WellFormed
use faxchain.Base.{
  ℕ, ◌+◌, ◌-◌, ◌%◌, ◌^◌, Bool, true, false, Option, none, some, List, [], ◌∷◌, ◌++◌, empty_map,
  put_key, ltb, ◌==◌, if◌then◌else◌, ◌>>=◌,
}
use faxchain.Evm.Table.{empty_table, get, put}
use faxchain.Evm.AccessList.{new_access_list, add_address, add_slot}
use faxchain.Evm.Dirties.{new_dirties, add_dirty}
use faxchain.Evm.StateObject.{
  Env, Account, StateObject, Stores, StoredAccount, proto_account, eth_object, new_state_object,
  code_hash, get_object_code, is_empty_object, get_object_state, set_object_state, set_object_code,
  set_object_balance, set_object_nonce, mark_suicided,
}
use faxchain.Evm.Journal.{
  JournalEntry, create_object_change, reset_object_change, suicide_change, balance_change,
  nonce_change, storage_change, code_change, refund_change, add_log_change, add_preimage_change,
  touch_change, access_list_add_account_change, access_list_add_slot_change, dirtied, Log, StateDb,
}

-- The precompile at address 3.
abbrev pub ripemd : ℕ
ripemd = 3

abbrev pub track : Option ℕ → StateDb → Option StateDb
track none db = some db
track (some a) db = add_dirty db.dirties a >>= λ d. some (record db { dirties = d })

-- `journal.append`
unfoldable pub append_entry : StateDb → JournalEntry → Option StateDb
append_entry db e = track (dirtied e) (record db { entries = e ∷ db.entries })

-- `setStateObject`; also a write through the pointer to a live object.
unfoldable pub set_state_object : StateDb → StateObject → StateDb
set_state_object db so = record db { state_objects = put db.state_objects so.address so }

-- `setError` keeps the first error; here the address that was not found.
abbrev pub first_error : Option ℕ → ℕ → Option ℕ
first_error none addr = some addr
first_error (some e) addr = some e

module _ (env : Env) where
  abbrev load_object : StateDb → ℕ → Option StoredAccount → Option (Option StateObject × StateDb)
  load_object db addr none = some (none, record db { db_err = first_error db.db_err addr })
  load_object db addr (some acc) =
      new_state_object env addr acc >>= λ so. some (some so, set_state_object db so)

  abbrev find_object : StateDb → ℕ → Option StateObject → Option (Option StateObject × StateDb)
  find_object db addr (some so) = some (if so.deleted then (none, db) else (some so, db))
  find_object db addr none = load_object db addr (db.stores.accounts addr)

  -- The live object of an address, `none` for nil, and the database, which caches it; it panics at
  -- a stored account that is not an `EthAccount`.
  unfoldable pub get_state_object : StateDb → ℕ → Option (Option StateObject × StateDb)
  get_state_object db addr = find_object db addr (get db.state_objects addr)

  abbrev creation_entry : ℕ → Option StateObject → JournalEntry
  creation_entry addr none = create_object_change addr
  creation_entry addr (some prev) = reset_object_change prev

  -- The end of `createObject`, once the previous object is known.
  unfoldable pub create_over :
      StateDb → ℕ → Option StateObject → Option (StateObject × Option StateObject × StateDb)
  create_over db addr prev =
      let newobj = set_object_nonce (eth_object env addr (proto_account env)) 0 in
      append_entry db (creation_entry addr prev) >>= λ db'.
      some (newobj, prev, set_state_object db' newobj)

  unfoldable pub create_object : StateDb → ℕ → Option (StateObject × Option StateObject × StateDb)
  unfolding get_state_object create_over
  create_object db addr = get_state_object db addr >>= λ (prev, db'). create_over db' addr prev

  abbrev or_create : ℕ → Option StateObject × StateDb → Option (StateObject × StateDb)
  or_create addr (some so, db) = some (so, db)
  or_create addr (none, db) = create_object db addr >>= λ (so, _, db'). some (so, db')

  -- `getStateObject` never returns a deleted object, which the code tests for too.
  unfoldable pub get_or_new_state_object : StateDb → ℕ → Option (StateObject × StateDb)
  unfolding get_state_object create_object
  get_or_new_state_object db addr = get_state_object db addr >>= or_create addr

  -- A change of a live object that its journal entry `e` records.
  unfoldable pub journal_object : StateDb → JournalEntry → StateObject → Option StateDb
  journal_object db e so = append_entry db e >>= λ db'. some (set_state_object db' so)

  -- `stateObject.SetBalance`
  unfoldable pub put_balance : StateDb → StateObject → ℕ → Option StateDb
  unfolding journal_object
  put_balance db so amount =
      journal_object db (balance_change so.address so.account.balance)
        (set_object_balance so amount)

  abbrev touch_extra : ℕ → StateDb → Option StateDb
  touch_extra addr db =
      if addr == ripemd
      then (add_dirty db.dirties addr >>= λ d. some (record db { dirties = d }))
      else some db

  unfoldable pub touch : StateDb → StateObject → Option StateDb
  touch db so = append_entry db (touch_change so.address) >>= touch_extra so.address

  unfoldable pub set_balance : StateDb → ℕ → ℕ → Option StateDb
  unfolding get_or_new_state_object put_balance
  set_balance db addr amount =
      get_or_new_state_object db addr >>= λ (so, db'). put_balance db' so amount

  -- `stateObject.AddBalance`. A sum that is too large is a panic of the decimals.
  abbrev pub add_object_balance : StateDb → StateObject → ℕ → Option StateDb
  add_object_balance db so amount =
      if amount == 0
      then (if is_empty_object env so then touch db so else some db)
      else if ltb env.max_dec (so.account.balance + amount)
      then none
      else put_balance db so (so.account.balance + amount)

  unfoldable pub add_balance : StateDb → ℕ → ℕ → Option StateDb
  unfolding get_or_new_state_object put_balance touch
  add_balance db addr amount =
      get_or_new_state_object db addr >>= λ (so, db'). add_object_balance db' so amount

  -- `stateObject.SubBalance`. A negative balance is a panic of the coins.
  abbrev pub sub_object_balance : StateDb → StateObject → ℕ → Option StateDb
  sub_object_balance db so amount =
      if amount == 0
      then some db
      else if ltb so.account.balance amount
      then none
      else put_balance db so (so.account.balance - amount)

  unfoldable pub sub_balance : StateDb → ℕ → ℕ → Option StateDb
  unfolding get_or_new_state_object put_balance
  sub_balance db addr amount =
      get_or_new_state_object db addr >>= λ (so, db'). sub_object_balance db' so amount

  -- `stateObject.SetNonce`
  abbrev pub put_nonce : StateDb → StateObject → ℕ → Option StateDb
  put_nonce db so nonce =
      journal_object db (nonce_change so.address so.account.sequence) (set_object_nonce so nonce)

  unfoldable pub set_nonce : StateDb → ℕ → ℕ → Option StateDb
  unfolding get_or_new_state_object journal_object
  set_nonce db addr nonce = get_or_new_state_object db addr >>= λ (so, db'). put_nonce db' so nonce

  -- The read of the previous value may cache it in the object, also where nothing is set.
  unfoldable pub put_state : StateDb → StateObject → ℕ → ℕ → Option StateDb
  unfolding journal_object
  put_state db so key value =
      let (prev, so') = get_object_state db.stores so (env.storage_key so.address key) in
      if prev == value
      then some (set_state_object db so')
      else journal_object db (storage_change so.address (env.storage_key so.address key) prev)
          (set_object_state so' (env.storage_key so.address key) value)

  unfoldable pub set_state : StateDb → ℕ → ℕ → ℕ → Option StateDb
  unfolding get_or_new_state_object put_state
  set_state db addr key value =
      get_or_new_state_object db addr >>= λ (so, db'). put_state db' so key value

  -- `stateObject.SetCode`
  abbrev pub put_code : StateDb → StateObject → ℕ → List ℕ → Option StateDb
  put_code db so h code =
      journal_object db
        (code_change so.address (get_object_code env db.stores so) (code_hash env so))
        (set_object_code so h code)

  unfoldable pub set_code : StateDb → ℕ → List ℕ → Option StateDb
  unfolding get_or_new_state_object journal_object
  set_code db addr code = get_or_new_state_object db addr >>= λ (so, db').
      put_code db' so (env.keccak code) code >>= λ db''.
      some (record db'' { code_cache = put_key addr code db''.code_cache })

  -- `Suicide` of the object found: mark it, then clear its balance.
  unfoldable pub suicide_object : StateDb → StateObject → Option StateDb
  unfolding journal_object put_balance
  suicide_object db so =
      journal_object db (suicide_change so.address so.suicided so.account.balance)
        (mark_suicided so)
      >>= λ db'. put_balance db' (mark_suicided so) 0

  abbrev suicide_found : Option StateObject × StateDb → Option (Bool × StateDb)
  suicide_found (none, db) = some (false, db)
  suicide_found (some so, db) = suicide_object db so >>= λ db'. some (true, db')

  unfoldable pub suicide : StateDb → ℕ → Option (Bool × StateDb)
  unfolding get_state_object suicide_object
  suicide db addr = get_state_object db addr >>= suicide_found

  -- The balance of a previous object is carried over, outside the journal.
  abbrev carry_balance : StateObject × Option StateObject × StateDb → StateDb
  carry_balance (newobj, none, db) = db
  carry_balance (newobj, some prev, db) =
      set_state_object db (set_object_balance newobj prev.account.balance)

  unfoldable pub create_account : StateDb → ℕ → Option StateDb
  unfolding create_object
  create_account db addr = create_object db addr >>= λ r. some (carry_balance r)

unfoldable pub prepare : StateDb → ℕ → ℕ → ℕ → StateDb
prepare db thash bhash txi = record db { thash = thash; bhash = bhash; tx_index = txi }

-- `uint` and `uint64` wrap.
abbrev pub word : ℕ
word = 2 ^ 64

unfoldable pub add_log : StateDb → List ℕ → Option StateDb
add_log db body = append_entry db (add_log_change db.thash) >>= λ db'. some (record db' {
  log_size = (db'.log_size + 1) % word;
  logs =
      db'.logs
      ++ record {
        body = body;
        tx_hash = db'.thash;
        block_hash = db'.bhash;
        log_tx_index = db'.tx_index;
        log_index = db'.log_size;
      }
        ∷ [];
})

abbrev record_preimage : StateDb → ℕ → List ℕ → Option ℕ → Option StateDb
record_preimage db hash preimage (some _) = some db
record_preimage db hash preimage none = append_entry db (add_preimage_change hash) >>= λ db'.
    some (record db' { preimages = put db'.preimages hash preimage })

unfoldable pub add_preimage : StateDb → ℕ → List ℕ → Option StateDb
add_preimage db hash preimage = record_preimage db hash preimage (db.preimages.index hash)

unfoldable pub add_refund : StateDb → ℕ → Option StateDb
add_refund db gas = append_entry db (refund_change db.refund) >>= λ db'.
    some (record db' { refund = (db'.refund + gas) % word })

-- Panics if the counter would go below zero.
unfoldable pub sub_refund : StateDb → ℕ → Option StateDb
sub_refund db gas = append_entry db (refund_change db.refund) >>= λ db'.
    if ltb db'.refund gas then none else some (record db' { refund = db'.refund - gas })

abbrev pub append_if : Bool → JournalEntry → StateDb → Option StateDb
append_if true e db = append_entry db e
append_if false e db = some db

unfoldable pub add_address_to_access_list : StateDb → ℕ → Option StateDb
add_address_to_access_list db addr =
    let (al, added) = add_address db.access_list addr in
    append_if added (access_list_add_account_change addr) (record db { access_list = al })

unfoldable pub add_slot_to_access_list : StateDb → ℕ → ℕ → Option StateDb
add_slot_to_access_list db addr slot =
    let (al, addr_mod, slot_mod) = add_slot db.access_list addr slot in
    append_if addr_mod (access_list_add_account_change addr) (record db { access_list = al })
    >>= append_if slot_mod (access_list_add_slot_change addr slot)

-- `newCommitStateDB` and `CreateEmptyCommitStateDB`: the caches are empty, the stores those of the
-- context.
unfoldable pub create_empty_state_db : Stores → StateDb
unfolding empty_table new_access_list new_dirties
create_empty_state_db stores = record {
  stores = stores;
  state_objects = empty_table;
  state_objects_dirty = λ _. false;
  refund = 0;
  thash = 0;
  bhash = 0;
  tx_index = 0;
  log_size = 0;
  logs = [];
  preimages = empty_table;
  db_err = none;
  entries = [];
  dirties = new_dirties;
  valid_revisions = [];
  next_revision_id = 0;
  access_list = new_access_list;
  code_cache = empty_map;
}
