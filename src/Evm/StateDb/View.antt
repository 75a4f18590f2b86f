-- ===== src/Evm/StateDb/View.antt =====
-- The database as the EVM sees it: what each account answers, without the caches and their order.
use faxchain.Base.{
  ℕ, ◌≡◌, fun_ext, Bool, true, false, Option, none, some, List, arith, ◌==◌, if◌then◌else◌,
}
use faxchain.Evm.Table.{get}
use faxchain.Evm.AccessList.{AccessList}
use faxchain.Evm.StateObject.{
  Env, StoredAccount, eth_account, other_account, StateObject, Stores, eth_object, code_of,
  hash_or_empty, or_zero,
}
use faxchain.Evm.Journal.{Log, StateDb}

-- What an account answers; its storage by prefixed key.
pub record AccountView : Type 0 where
  pub balance : ℕ
  pub nonce : ℕ
  pub hash : ℕ
  pub code : List ℕ
  pub state : ℕ → ℕ
  pub suicided : Bool

abbrev pub origin_or_stored : ℕ → Option ℕ → ℕ
origin_or_stored stored none = stored
origin_or_stored stored (some v) = v

-- A dirty value, else a cached one, else the stored one.
abbrev pub state_view : Stores → StateObject → ℕ → ℕ
state_view st so key =
    origin_or_stored
      (origin_or_stored (or_zero (st.storage so.address key)) (get so.origin_storage key))
      (get so.dirty_storage key)

-- The database without its accounts.
pub record Rest : Type 0 where
  pub refund : ℕ
  pub thash : ℕ
  pub bhash : ℕ
  pub tx_index : ℕ
  pub log_size : ℕ
  pub logs : List Log
  pub access_list : AccessList

abbrev pub rest_view : StateDb → Rest
rest_view db = record {
  refund = db.refund;
  thash = db.thash;
  bhash = db.bhash;
  tx_index = db.tx_index;
  log_size = db.log_size;
  logs = db.logs;
  access_list = db.access_list;
}

-- The accounts with one of them set, or cleared.
abbrev pub update : (ℕ → Option AccountView) → ℕ → Option AccountView → ℕ → Option AccountView
update v a o j = if j == a then o else v j

pub update-update :
    (v : ℕ → Option AccountView) (a : ℕ) (o o' : Option AccountView)
    → update (update v a o) a o' ≡ update v a o'
update-update v a o o' = fun_ext (λ j. ground arith)

pub update_self :
    (v : ℕ → Option AccountView) (a : ℕ) (o : Option AccountView) → v a ≡ o → update v a o ≡ v
update_self v a o h = fun_ext (λ j. ground arith)

unfoldable pub preimage_view : StateDb → ℕ → Option (List ℕ)
preimage_view db hash = get db.preimages hash

-- Whether `getStateObject` panics: the account that it would load is not an `EthAccount`.
abbrev panics_at : Option StateObject → Option StoredAccount → Bool
panics_at (some so) o = false
panics_at none none = false
panics_at none (some (eth_account acc)) = false
panics_at none (some other_account) = true

abbrev pub panics : StateDb → ℕ → Bool
panics db addr = panics_at (get db.state_objects addr) (db.stores.accounts addr)

module _ (env : Env) where
  unfoldable pub object_view : Stores → StateObject → AccountView
  object_view st so = record {
    balance = so.account.balance;
    nonce = so.account.sequence;
    hash = hash_or_empty env so.account.account_code_hash;
    code = code_of env st (hash_or_empty env so.account.account_code_hash) so.code;
    state = state_view st so;
    suicided = so.suicided;
  }

  abbrev pub stored_view : Stores → ℕ → Option StoredAccount → Option AccountView
  stored_view st addr none = none
  stored_view st addr (some (eth_account acc)) = some (object_view st (eth_object env addr acc))
  stored_view st addr (some other_account) = none

  abbrev pub live_view : Stores → ℕ → Option StateObject → Option AccountView
  live_view st addr none = stored_view st addr (st.accounts addr)
  live_view st addr (some so) = if so.deleted then none else some (object_view st so)

  -- The account of an address, `none` where `getStateObject` is nil or panics.
  unfoldable pub account_view : StateDb → ℕ → Option AccountView
  unfolding object_view
  account_view db addr = live_view db.stores addr (get db.state_objects addr)
