-- ===== src/Evm/Getters.antt =====
-- The reads of the state database (evm/types/statedb.go). Each one fetches the object of the
-- address, which caches it, so it returns the database too. `none` is a panic.
pub mod Reads
use faxchain.Base.{ℕ, Bool, true, false, ◌&&◌, Option, none, some, List, [], GoMap, length}
use faxchain.Evm.AccessList.{contains, contains_address}
use faxchain.Evm.StateObject.{
  Env, StateObject, or_nil, code_hash, get_object_code, is_empty_object, get_object_state,
  get_committed_state,
}
use faxchain.Evm.Journal.{Log, StateDb}
use faxchain.Evm.StateDb.{set_state_object, get_state_object}

-- A result from the object that was found, the default for nil.
abbrev pub from_object {ℓ} :
    {A : Type ℓ}
    → A
    → (StateObject → A)
    → Option (Option StateObject × StateDb)
    → Option (A × StateDb)
from_object default f none = none
from_object default f (some (none, db)) = some (default, db)
from_object default f (some (some so, db)) = some (f so, db)

-- The same where the read changes the caches of the object.
abbrev pub through_object {ℓ} :
    {A : Type ℓ}
    → A
    → (StateObject → A × StateObject)
    → Option (Option StateObject × StateDb)
    → Option (A × StateDb)
through_object default f none = none
through_object default f (some (none, db)) = some (default, db)
through_object default f (some (some so, db)) =
    let (v, so') = f so in some (v, set_state_object db so')

module _ (env : Env) where
  unfoldable pub get_balance : StateDb → ℕ → Option (ℕ × StateDb)
  unfolding get_state_object
  get_balance db addr = from_object 0 (λ so. so.account.balance) (get_state_object env db addr)

  unfoldable pub get_nonce : StateDb → ℕ → Option (ℕ × StateDb)
  unfolding get_state_object
  get_nonce db addr = from_object 0 (λ so. so.account.sequence) (get_state_object env db addr)

  -- A blocked contract is a panic.
  abbrev pub unless_blocked : StateDb → ℕ → Bool → Option (List ℕ × StateDb)
  unless_blocked db addr true = none
  unless_blocked db addr false =
      from_object [] (get_object_code env db.stores) (get_state_object env db addr)

  unfoldable pub get_code : StateDb → ℕ → Option (List ℕ × StateDb)
  unfolding get_state_object get_object_code
  get_code db addr =
      unless_blocked db addr (db.stores.enable_blocked_list && db.stores.blocked addr)

  -- The zero hash for nil.
  unfoldable pub get_code_hash : StateDb → ℕ → Option (ℕ × StateDb)
  unfolding get_state_object code_hash
  get_code_hash db addr = from_object 0 (code_hash env) (get_state_object env db addr)

  unfoldable pub get_state : StateDb → ℕ → ℕ → Option (ℕ × StateDb)
  unfolding get_state_object get_object_state
  get_state db addr hash =
      through_object 0 (λ so. get_object_state db.stores so (env.storage_key so.address hash))
        (get_state_object env db addr)

  unfoldable pub get_committed : StateDb → ℕ → ℕ → Option (ℕ × StateDb)
  unfolding get_state_object get_committed_state
  get_committed db addr hash =
      through_object 0 (λ so. get_committed_state db.stores so (env.storage_key so.address hash))
        (get_state_object env db addr)

  unfoldable pub has_suicided : StateDb → ℕ → Option (Bool × StateDb)
  unfolding get_state_object
  has_suicided db addr = from_object false (λ so. so.suicided) (get_state_object env db addr)

  unfoldable pub empty : StateDb → ℕ → Option (Bool × StateDb)
  unfolding get_state_object is_empty_object
  empty db addr = from_object true (is_empty_object env) (get_state_object env db addr)

  unfoldable pub exist : StateDb → ℕ → Option (Bool × StateDb)
  unfolding get_state_object
  exist db addr = from_object false (λ so. true) (get_state_object env db addr)

abbrev pub get_refund : StateDb → ℕ
get_refund db = db.refund

-- `GetLogs` returns the logs of the database, whatever the hash.
abbrev pub get_logs : StateDb → ℕ → List Log
get_logs db hash = db.logs

unfoldable pub set_logs : StateDb → ℕ → List Log → StateDb
set_logs db hash logs = record db { logs = logs }

unfoldable pub delete_logs : StateDb → ℕ → StateDb
delete_logs db hash = record db { logs = [] }

unfoldable pub address_in_access_list : StateDb → ℕ → Bool
unfolding contains_address
address_in_access_list db addr = contains_address db.access_list addr

unfoldable pub slot_in_access_list : StateDb → ℕ → ℕ → Bool × Bool
unfolding contains
slot_in_access_list db addr slot = contains db.access_list addr slot
