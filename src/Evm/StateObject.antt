-- ===== src/Evm/StateObject.antt =====
-- A live account (evm/types/state_object.go): the account with its code and its storage caches.
-- Addresses and 32-byte hashes are numbers, compared and never computed with; the zero hash is 0.
-- Balances are the raw integers of `sdk.Dec`. Only the bond denomination of an account is kept.
-- `stateObject.dbErr`, which `Code` sets and nothing reads, is left out.
use faxchain.Base.{
  ℕ, Bool, true, false, ◌&&◌, Option, none, some, List, [], ◌∷◌, GoMap, ◌==◌, if◌then◌else◌,
}
use faxchain.Evm.Table.{Table, empty_table, get, put}

-- What the module takes from elsewhere: Keccak256 of a byte string and of an address with a key,
-- the bank's blacklist, and the largest decimal that `sdk.Dec` adds up to without a panic.
pub record Env : Type 0 where
  pub keccak : List ℕ → ℕ
  pub storage_key : ℕ → ℕ → ℕ
  pub blacklisted : ℕ → Bool
  pub max_dec : ℕ

-- `EthAccount`; a nil code hash is `none`.
pub record Account : Type 0 where
  pub balance : ℕ
  pub sequence : ℕ
  pub account_code_hash : Option ℕ

-- What the account mapper holds: an `EthAccount`, or an account of another type.
pub data StoredAccount : Type 0 where
  eth_account : Account → StoredAccount
  other_account : StoredAccount

pub record StateObject : Type 0 where
  pub code : List ℕ
  pub origin_storage : Table ℕ
  pub dirty_storage : Table ℕ
  pub account : Account
  pub address : ℕ
  pub dirty_code : Bool
  pub suicided : Bool
  pub deleted : Bool

-- The committed stores: the account mapper, the contract codes by hash, and the storage of each
-- address, the hashes of the blocks by height, the deployers that are allowed and the blocked
-- contracts, with whether these are enforced.
pub record Stores : Type 0 where
  pub accounts : GoMap StoredAccount
  pub codes : GoMap (List ℕ)
  pub storage : ℕ → GoMap ℕ
  pub height_hashes : GoMap ℕ
  pub whitelist : ℕ → Bool
  pub blocked : ℕ → Bool
  pub enable_blocked_list : Bool

abbrev pub or_nil : Option (List ℕ) → List ℕ
or_nil none = []
or_nil (some c) = c

-- A stored value, the zero hash if there is none.
abbrev pub or_zero : Option ℕ → ℕ
or_zero none = 0
or_zero (some v) = v

module _ (env : Env) where
  abbrev pub empty_code_hash : ℕ
  empty_code_hash = env.keccak []

  abbrev pub hash_or_empty : Option ℕ → ℕ
  hash_or_empty none = empty_code_hash
  hash_or_empty (some h) = h

  -- The prototype of a new account.
  unfoldable pub proto_account : Account
  proto_account = record { balance = 0; sequence = 0; account_code_hash = some empty_code_hash }

  -- The object of an `EthAccount`. The account mapper keeps each account under its own address,
  -- `addr`.
  unfoldable pub eth_object : ℕ → Account → StateObject
  eth_object addr acc = record {
    code = [];
    origin_storage = empty_table;
    dirty_storage = empty_table;
    account = record acc { account_code_hash = some (hash_or_empty acc.account_code_hash) };
    address = addr;
    dirty_code = false;
    suicided = false;
    deleted = false;
  }

  -- An account of another type is a panic.
  abbrev pub new_state_object : ℕ → StoredAccount → Option StateObject
  new_state_object addr (eth_account acc) = some (eth_object addr acc)
  new_state_object addr other_account = none

  unfoldable pub code_hash : StateObject → ℕ
  code_hash so = hash_or_empty so.account.account_code_hash

  -- `Code` of an object with these cached bytes and this hash.
  abbrev pub code_of : Stores → ℕ → List ℕ → List ℕ
  code_of st h (b ∷ bs) = b ∷ bs
  code_of st h [] = if h == empty_code_hash then [] else or_nil (st.codes h)

  unfoldable pub get_object_code : Stores → StateObject → List ℕ
  unfolding code_hash
  get_object_code st so = code_of st (code_hash so) so.code

  -- `empty`: no nonce, no balance, no code.
  unfoldable pub is_empty_object : StateObject → Bool
  is_empty_object so = elim so.account.account_code_hash [
    | none ↦ false
    | some h ↦ so.account.sequence == 0 && so.account.balance == 0 && h == empty_code_hash
  ]

-- The value of a prefixed key in the store.
unfoldable pub stored_state : Stores → StateObject → ℕ → ℕ
stored_state st so key = or_zero (st.storage so.address key)

abbrev load_origin : Stores → StateObject → ℕ → Option ℕ → ℕ × StateObject
load_origin st so key (some v) = (v, so)
load_origin st so key none = (
  or_zero (st.storage so.address key),
  record so { origin_storage = put so.origin_storage key (or_zero (st.storage so.address key)) },
)

-- `GetCommittedState` at a prefixed key: the value and the object, which caches it.
unfoldable pub get_committed_state : Stores → StateObject → ℕ → ℕ × StateObject
get_committed_state st so key = load_origin st so key (get so.origin_storage key)

abbrev load_dirty : Stores → StateObject → ℕ → Option ℕ → ℕ × StateObject
load_dirty st so key (some v) = (v, so)
load_dirty st so key none = load_origin st so key (get so.origin_storage key)

-- `GetState` at a prefixed key: a dirty value first.
unfoldable pub get_object_state : Stores → StateObject → ℕ → ℕ × StateObject
get_object_state st so key = load_dirty st so key (get so.dirty_storage key)

unfoldable pub set_object_state : StateObject → ℕ → ℕ → StateObject
set_object_state so key value = record so { dirty_storage = put so.dirty_storage key value }

unfoldable pub set_object_code : StateObject → ℕ → List ℕ → StateObject
set_object_code so h c = record so {
  code = c;
  account = record account { account_code_hash = some h };
  dirty_code = true;
}
  where
    open so use {account}

-- `setBalance`, for an amount that is not negative.
unfoldable pub set_object_balance : StateObject → ℕ → StateObject
set_object_balance so amount = record so { account = record account { balance = amount } }
  where
    open so use {account}

unfoldable pub set_object_nonce : StateObject → ℕ → StateObject
set_object_nonce so nonce = record so { account = record account { sequence = nonce } }
  where
    open so use {account}

unfoldable pub mark_suicided : StateObject → StateObject
mark_suicided so = record so { suicided = true }
