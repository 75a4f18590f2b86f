-- ===== src/Evm/Tests.antt =====
-- Runs of the state database on a small chain, and the theorems applied to them.
use faxchain.Base.{
  ℕ, ◌+◌, ◌-◌, ◌*◌, ◌^◌, Option, ◌≡◌, ◌≢◌, refl, false, true, none, some, List, [], ◌∷◌, arith,
  length, ◌==◌, if◌then◌else◌, ◌>>=◌, empty_map,
}
use mathlib.Core.Option
use faxchain.Evm.Table.{Table, empty_table, get, put, remove}
use faxchain.Evm.Table.Laws.{IsIndexed, empty_table-IsIndexed, put-IsIndexed, get-put}
use faxchain.Evm.Table.Removal.{
  IsExact, empty_table-IsExact, put-IsExact, get-remove, remove-IsIndexed,
}
use faxchain.Evm.AccessList.{AccessList, new_access_list, add_address, add_slot, contains, has_slot}
use faxchain.Evm.AccessList.Lifo.{
  IsValid, undo_slot, undo_address, undo_slot-add_slot, undo_address-add_address,
  new_access_list-IsValid, add_slot-IsValid,
}
use faxchain.Evm.AccessList.View.{contains-add_address, contains-add_slot}
use faxchain.Evm.Dirties.{Dirties, new_dirties, get_dirty, add_dirty, drop_dirty}
use faxchain.Evm.Dirties.Lifo
use faxchain.Evm.Dirties.Stale.{stale, reverted_touch_panics}
use faxchain.Evm.StateObject.{Env, Stores}
use faxchain.Evm.Journal.{StateDb, dirtied}
use faxchain.Evm.StateDb.{create_empty_state_db}
use faxchain.Evm.StateDb.WellFormed.{IsWell, create_empty_state_db-IsWell}
use faxchain.Evm.Snapshot.{snapshot, revert_to_snapshot}
use faxchain.Evm.Snapshot.Undo.{Same}
use faxchain.Evm.StateDb.View.{account_view, object_view}
use faxchain.Evm.Getters.{
  get_balance, get_nonce, get_code, get_code_hash, get_state, has_suicided, exist,
}
use faxchain.Evm.Getters.Reads.{
  Answers, shown_or, getters-Answer, get_state-Answers, get_code-Answers,
}
use faxchain.Evm.StateObject.{
  Account, eth_account, other_account, StateObject, or_zero, eth_object, get_object_state,
  set_object_state, set_object_balance, set_object_nonce, code_hash, get_object_code, mark_suicided,
  proto_account, set_object_code,
}
use faxchain.Evm.StateDb.{
  set_state_object, add_balance, sub_balance, append_entry, set_state, set_code, add_log,
  add_slot_to_access_list, add_preimage, create_account, create_object, create_over,
  get_or_new_state_object, get_state_object, journal_object, put_balance, put_state, suicide,
  suicide_object,
}
use faxchain.Evm.StateDb.View.{state_view}
use faxchain.Base.{GoMap, put_key}
use faxchain.Evm.Commit.{commit_state}
use faxchain.Evm.Commit.Flush.{IsReady, commit_state-stores}
use faxchain.Evm.Commit.Ready.{read_write-IsReady, eth_object-IsReady}
use faxchain.Base.{◌||◌, ◌&&◌, not}
use faxchain.Evm.StateDb.View.{preimage_view}
use faxchain.Evm.Registers.{
  set_contract_blocked_list, delete_contract_blocked_list, is_contract_in_blocked_list,
  get_preimages,
}
use faxchain.Evm.Registers.Laws.{is_member, blocked_list-is_member, get_preimages-shows}
use faxchain.Evm.Snapshot.Panics.{Ends, balances-End}
use faxchain.Evm.Snapshot.Restore.{
  Call, adds_balance, sets_state, sets_code, creates, suicides, adds_log, adds_slot, adds_preimage,
  AllTracked, call, run, revert_to_snapshot-restores,
}

-- Two accounts written to a table, and a third.
abbrev two_entries : Table ℕ
two_entries = put (put empty_table 5 50) 6 60

two_entries-IsIndexed : IsIndexed two_entries
two_entries-IsIndexed =
    put-IsIndexed (put empty_table 5 50) 6 60 (put-IsIndexed empty_table 5 50 empty_table-IsIndexed)

two_entries-IsExact : IsExact two_entries
two_entries-IsExact =
    put-IsExact (put empty_table 5 50) 6 60 (put-IsIndexed empty_table 5 50 empty_table-IsIndexed)
      (put-IsExact empty_table 5 50 empty_table-IsIndexed empty_table-IsExact)

get-put_example : get (put two_entries 5 51) 5 ≡ some 51
get-put_example = get-put two_entries 5 5 51 two_entries-IsIndexed

get-remove_example : get (remove two_entries 5) 6 ≡ get two_entries 6
get-remove_example = get-remove two_entries 5 6 two_entries-IsIndexed two_entries-IsExact

remove-IsIndexed_example : IsIndexed (remove two_entries 5)
remove-IsIndexed_example = remove-IsIndexed two_entries 5 two_entries-IsIndexed two_entries-IsExact

-- A list with the slots 7 and 8 of address 5.
abbrev two_slots : AccessList
two_slots = (add_slot (add_slot new_access_list 5 7).0 5 8).0

two_slots-IsValid : IsValid two_slots
two_slots-IsValid =
    add_slot-IsValid (add_slot new_access_list 5 7).0 5 8
      (add_slot-IsValid new_access_list 5 7 new_access_list-IsValid)

undo_slot-add_slot_example : undo_slot 6 9 (add_slot two_slots 6 9) ≡ some two_slots
undo_slot-add_slot_example = undo_slot-add_slot two_slots 6 9 two_slots-IsValid

undo_address-add_address_example : undo_address 6 (add_address two_slots 6) ≡ two_slots
undo_address-add_address_example = undo_address-add_address two_slots 6

contains-add_slot_example : contains (add_slot two_slots 6 9).0 5 7 ≡ contains two_slots 5 7
contains-add_slot_example = contains-add_slot two_slots 6 9 5 7 two_slots-IsValid

contains-add_address_example :
    contains (add_address two_slots 6).0 6 9 ≡ (true, (contains two_slots 6 9).1)
contains-add_address_example = contains-add_address two_slots 6 6 9

add_slot-IsValid_example : IsValid (add_slot two_slots 6 9).0
add_slot-IsValid_example = add_slot-IsValid two_slots 6 9 two_slots-IsValid

-- Three changes, two of them of one account.
add_all-Tracks_example :
    (d' : Dirties) × (Lifo.add_all (5 ∷ 6 ∷ 5 ∷ []) new_dirties ≡ some d')
    × Lifo.IsTracked d'
    × (Lifo.drop_all (5 ∷ 6 ∷ 5 ∷ []) d' ≡ some new_dirties)
    × ((b : ℕ)
        → get_dirty d' b
          ≡ Option.map (λ n. n + Lifo.occurrences b (5 ∷ 6 ∷ 5 ∷ [])) (get_dirty new_dirties b))
add_all-Tracks_example = Lifo.add_all-Tracks (5 ∷ 6 ∷ 5 ∷ []) new_dirties Lifo.new_dirties-IsTracked

fresh : (a : ℕ) → new_dirties.index a ≡ none
unfolding new_dirties
fresh a = refl

five_ne_three : (◌≢◌ {A = ℕ}) 5 3
five_ne_three = omega arith

reverted_touch_panics_example :
    ((add_dirty new_dirties 5 >>= λ d₁.
    add_dirty d₁ 3 >>= λ d₂. add_dirty d₂ 3 >>= λ d₃. drop_dirty d₃ 3 >>= λ d₄. drop_dirty d₄ 5)
      ≡ some (stale new_dirties 5 3))
    × (get_dirty (stale new_dirties 5 3) 3 ≡ none)
    × (add_dirty (stale new_dirties 5 3) 3 ≡ none)
reverted_touch_panics_example =
    reverted_touch_panics new_dirties 5 3 five_ne_three (fresh 5) (fresh 3)

abbrev test_env : Env
test_env = record {
  keccak = λ bs. 100 + length bs;
  storage_key = λ a k. 1000 * a + k;
  blacklisted = λ a. a == 13;
  max_dec = 2 ^ 315 - 1;
}

-- Account 5 owns 40, account 13 is blacklisted, and account 21 is that of a module.
abbrev test_stores : Stores
test_stores = record {
  accounts = λ a.
      if a == 5
      then some (eth_account (record { balance = 40; sequence = 2; account_code_hash = none }))
      else if a == 13
      then some (eth_account (record { balance = 1; sequence = 0; account_code_hash = none }))
      else if a == 21
      then some other_account
      else none;
  codes = empty_map;
  storage = λ a. empty_map;
  height_hashes = empty_map;
  whitelist = λ a. false;
  blocked = λ a. a == 9;
  enable_blocked_list = true;
}

abbrev start : StateDb
start = create_empty_state_db test_stores

start-IsWell : IsWell start
start-IsWell = create_empty_state_db-IsWell test_stores

-- Calls on known and unknown accounts that fill every part of the journal.
abbrev calls : List Call
calls =
    adds_balance 5 7
    ∷ sets_state 6 1 11
    ∷ sets_state 6 1 12
    ∷ sets_code 6 (1 ∷ 2 ∷ [])
    ∷ adds_log (9 ∷ [])
    ∷ adds_slot 6 1
    ∷ adds_preimage 4 (4 ∷ [])
    ∷ creates 5
    ∷ suicides 6
    ∷ []

calls-AllTracked : AllTracked calls
calls-AllTracked = ((λ e. absurd (omega arith)), (tt, (tt, (tt, (tt, (tt, (tt, (tt, (tt, tt)))))))))

abbrev or_start : Option StateDb → StateDb
or_start none = start
or_start (some s) = s

abbrev after_calls : StateDb
after_calls = or_start (run test_env calls (snapshot start).1)

-- Account 5 owns 40: 50 can be added, but not taken off.
balances-End_example :
    Ends test_env start false (add_balance test_env start 5 50)
    × Ends test_env start true (sub_balance test_env start 5 50)
unfolding create_empty_state_db get account_view object_view eth_object
balances-End_example = balances-End test_env start 5 50 (λ e. absurd (omega arith)) start-IsWell

calls-run : run test_env calls (snapshot start).1 ≡ some after_calls
unfolding create_empty_state_db run snapshot add_balance get eth_object append_entry dirtied
    add_dirty set_state_object set_state put set_object_balance get_object_state set_object_nonce
    set_object_state set_code add_log add_slot_to_access_list add_slot add_address has_slot
    new_access_list new_dirties call add_preimage create_account create_object create_over
    get_or_new_state_object get_state_object journal_object put_balance put_state suicide
    suicide_object code_hash get_object_code mark_suicided proto_account set_object_code empty_table
calls-run = refl

revert_to_snapshot-restores_example :
    (t : StateDb) × (revert_to_snapshot test_env after_calls (snapshot start).0 ≡ some t)
    × Same test_env start t
    × (t.valid_revisions ≡ start.valid_revisions)
unfolding create_empty_state_db
revert_to_snapshot-restores_example =
    revert_to_snapshot-restores test_env calls start after_calls start-IsWell tt calls-AllTracked
      calls-run

getters-Answer_example :
    Answers test_env start false
      (shown_or 0 (λ v. v.balance) (account_view test_env start 5))
      (get_balance test_env start 5)
    × Answers test_env start false
        (shown_or 0 (λ v. v.nonce) (account_view test_env start 5))
        (get_nonce test_env start 5)
    × Answers test_env start false
        (shown_or 0 (λ v. v.hash) (account_view test_env start 5))
        (get_code_hash test_env start 5)
    × Answers test_env start false
        (shown_or false (λ v. v.suicided) (account_view test_env start 5))
        (has_suicided test_env start 5)
    × Answers test_env start false
        (shown_or false (λ v. true) (account_view test_env start 5))
        (exist test_env start 5)
unfolding create_empty_state_db get
getters-Answer_example = getters-Answer test_env start 5 start-IsWell

get_state-Answers_example :
    Answers test_env start false
      (shown_or 0 (λ v. v.state 5001) (account_view test_env start 5))
      (get_state test_env start 5 1)
unfolding create_empty_state_db get
get_state-Answers_example = get_state-Answers test_env start 5 1 start-IsWell

get_code-Answers_example :
    Answers test_env start true
      (shown_or [] (λ v. v.code) (account_view test_env start 9))
      (get_code test_env start 9)
unfolding create_empty_state_db get
get_code-Answers_example = get_code-Answers test_env start 9 start-IsWell

-- The account of a module is a panic.
module_account_panics : get_code test_env start 21 ≡ none
unfolding create_empty_state_db get
module_account_panics = get_code-Answers test_env start 21 start-IsWell

-- Account 5, loaded, with 11 written at the storage key 1.
abbrev owner : Account
owner = record { balance = 40; sequence = 2; account_code_hash = none }

abbrev loaded_object : StateObject
loaded_object = eth_object test_env 5 owner

abbrev written_object : StateObject
written_object = set_object_state (get_object_state test_stores loaded_object 1).1 1 11

read_write-IsReady_example : IsReady written_object empty_map
unfolding eth_object
read_write-IsReady_example =
    read_write-IsReady test_stores loaded_object 1 11
      (eth_object-IsReady test_env 5 owner empty_map)

written_object-IsReady : IsReady written_object empty_map
unfolding eth_object
written_object-IsReady =
    read_write-IsReady test_stores loaded_object 1 11
      (eth_object-IsReady test_env 5 owner empty_map)

commit_state-stores_example :
    (so' : StateObject) × (store : GoMap ℕ) × (commit_state written_object empty_map
      ≡ some (so', store))
    × ((k : ℕ) → or_zero (store k) ≡ state_view test_stores written_object k)
    × IsReady so' store
    × (so'.dirty_storage.entries ≡ [])
    × (so'.address ≡ written_object.address)
commit_state-stores_example = commit_state-stores test_stores written_object written_object-IsReady

-- The database with that object, which is dirty.
abbrev dirty_db : StateDb
dirty_db = record (set_state_object start written_object) {
  dirties = record { dirties = (5, 1) ∷ []; index = put_key 5 0 empty_map };
}

blocked_list-is_member_example :
    (is_contract_in_blocked_list (set_contract_blocked_list start (7 ∷ 8 ∷ [])) 8
      ≡ (is_member 8 (7 ∷ 8 ∷ []) || is_contract_in_blocked_list start 8))
    × (is_contract_in_blocked_list (delete_contract_blocked_list start (7 ∷ 8 ∷ [])) 8
        ≡ (not (is_member 8 (7 ∷ 8 ∷ [])) && is_contract_in_blocked_list start 8))
blocked_list-is_member_example = blocked_list-is_member start (7 ∷ 8 ∷ []) 8

-- The database with the preimages of two hashes.
abbrev preimages_db : StateDb
preimages_db = record start { preimages = put (put empty_table 5 (50 ∷ [])) 6 (60 ∷ []) }

get_preimages-shows_example : get_preimages preimages_db 6 ≡ preimage_view preimages_db 6
get_preimages-shows_example =
    get_preimages-shows preimages_db 6
      (put-IsIndexed (put empty_table 5 (50 ∷ [])) 6 (60 ∷ [])
        (put-IsIndexed empty_table 5 (50 ∷ []) empty_table-IsIndexed))
      (put-IsExact (put empty_table 5 (50 ∷ [])) 6 (60 ∷ [])
        (put-IsIndexed empty_table 5 (50 ∷ []) empty_table-IsIndexed)
        (put-IsExact empty_table 5 (50 ∷ []) empty_table-IsIndexed empty_table-IsExact))
