-- ===== src/Evm/Journal.antt =====
-- The entries of the journal and the state they are undone on (evm/types/journal.go and the
-- struct of evm/types/statedb.go).
use faxchain.Base.{ℕ, Bool, Option, none, some, List, GoMap}
use faxchain.Evm.Table.{Table}
use faxchain.Evm.AccessList.{AccessList}
use faxchain.Evm.Dirties.{Dirties}
use faxchain.Evm.StateObject.{StateObject, Stores}

pub data JournalEntry : Type 0 where
  create_object_change : ℕ → JournalEntry
  reset_object_change : StateObject → JournalEntry
  suicide_change : ℕ → Bool → ℕ → JournalEntry
  balance_change : ℕ → ℕ → JournalEntry
  nonce_change : ℕ → ℕ → JournalEntry
  storage_change : ℕ → ℕ → ℕ → JournalEntry
  code_change : ℕ → List ℕ → ℕ → JournalEntry
  refund_change : ℕ → JournalEntry
  add_log_change : ℕ → JournalEntry
  add_preimage_change : ℕ → JournalEntry
  touch_change : ℕ → JournalEntry
  access_list_add_account_change : ℕ → JournalEntry
  access_list_add_slot_change : ℕ → ℕ → JournalEntry

-- The account that an entry dirties.
unfoldable pub dirtied : JournalEntry → Option ℕ
dirtied (create_object_change a) = some a
dirtied (reset_object_change _) = none
dirtied (suicide_change a _ _) = some a
dirtied (balance_change a _) = some a
dirtied (nonce_change a _) = some a
dirtied (storage_change a _ _) = some a
dirtied (code_change a _ _) = some a
dirtied (refund_change _) = none
dirtied (add_log_change _) = none
dirtied (add_preimage_change _) = none
dirtied (touch_change a) = some a
dirtied (access_list_add_account_change _) = none
dirtied (access_list_add_slot_change _ _) = none

-- A log of a contract: `body` is what the EVM fills in (address, topics, data), the rest what
-- `AddLog` adds.
pub record Log : Type 0 where
  pub body : List ℕ
  pub tx_hash : ℕ
  pub block_hash : ℕ
  pub log_tx_index : ℕ
  pub log_index : ℕ

pub record Revision : Type 0 where
  pub id : ℕ
  pub journal_index : ℕ

-- `CommitStateDB`. The entries of the journal stand newest first, the other slices in their order.
pub record StateDb : Type 0 where
  pub stores : Stores
  pub state_objects : Table StateObject
  pub state_objects_dirty : ℕ → Bool
  pub refund : ℕ
  pub thash : ℕ
  pub bhash : ℕ
  pub tx_index : ℕ
  pub log_size : ℕ
  pub logs : List Log
  pub preimages : Table (List ℕ)
  pub db_err : Option ℕ
  pub entries : List JournalEntry
  pub dirties : Dirties
  pub valid_revisions : List Revision
  pub next_revision_id : ℕ
  pub access_list : AccessList
  pub code_cache : GoMap (List ℕ)
