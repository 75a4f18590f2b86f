-- ===== src/Evm/Registers.antt =====
-- The small registers of the state database (evm/types/statedb.go): the hashes of the blocks, the
-- whitelist of deployers, the blocked contracts, the code cache, the list of preimages, and the walk
-- over the storage of an account. Where the code walks a store, the entries that its iterator
-- yields are an argument.
pub mod Laws
use faxchain.Base.{
  ℕ, ◌>>=◌, Bool, true, false, Option, none, some, List, [], ◌∷◌, GoMap, empty_map, put_key, ◌==◌,
  if◌then◌else◌,
}
use faxchain.Evm.Table.{Table, get}
use faxchain.Evm.StateObject.{Env, StateObject, or_zero}
use faxchain.Evm.Journal.{StateDb}
use faxchain.Evm.StateDb.{get_state_object}
use faxchain.Evm.Finalise.{finalise}

unfoldable pub set_height_hash : StateDb → ℕ → ℕ → StateDb
set_height_hash db height hash = record db {
  stores = record stores { height_hashes = put_key height hash stores.height_hashes };
}
  where
    open db use {stores}

-- The zero hash where there is none.
unfoldable pub get_height_hash : StateDb → ℕ → ℕ
get_height_hash db height = or_zero (db.stores.height_hashes height)

unfoldable pub get_cache_code : StateDb → ℕ → Option (List ℕ)
get_cache_code db addr = db.code_cache addr

abbrev pub get_tx_index : StateDb → ℕ
get_tx_index db = db.tx_index

abbrev pub get_block_hash : StateDb → ℕ
get_block_hash db = db.bhash

unfoldable pub set_block_hash : StateDb → ℕ → StateDb
set_block_hash db hash = record db { bhash = hash }

unfoldable pub set_log_size : StateDb → ℕ → StateDb
set_log_size db n = record db { log_size = n }

abbrev pub get_log_size : StateDb → ℕ
get_log_size db = db.log_size

-- `Error`
abbrev pub get_error : StateDb → Option ℕ
get_error db = db.db_err

-- A set of addresses with a list of them added, or taken out.
unfoldable pub add_members : List ℕ → (ℕ → Bool) → ℕ → Bool
add_members [] f = f
add_members (a ∷ addrs) f = add_members addrs (λ j. if j == a then true else f j)

unfoldable pub delete_members : List ℕ → (ℕ → Bool) → ℕ → Bool
delete_members [] f = f
delete_members (a ∷ addrs) f = delete_members addrs (λ j. if j == a then false else f j)

unfoldable pub set_contract_deployment_whitelist : StateDb → List ℕ → StateDb
unfolding add_members
set_contract_deployment_whitelist db addr_list = record db {
  stores = record stores { whitelist = add_members addr_list stores.whitelist };
}
  where
    open db use {stores}

unfoldable pub delete_contract_deployment_whitelist : StateDb → List ℕ → StateDb
unfolding delete_members
delete_contract_deployment_whitelist db addr_list = record db {
  stores = record stores { whitelist = delete_members addr_list stores.whitelist };
}
  where
    open db use {stores}

unfoldable pub is_deployer_in_whitelist : StateDb → ℕ → Bool
is_deployer_in_whitelist db addr = db.stores.whitelist addr

unfoldable pub set_contract_blocked_list : StateDb → List ℕ → StateDb
unfolding add_members
set_contract_blocked_list db addr_list = record db {
  stores = record stores { blocked = add_members addr_list stores.blocked };
}
  where
    open db use {stores}

unfoldable pub delete_contract_blocked_list : StateDb → List ℕ → StateDb
unfolding delete_members
delete_contract_blocked_list db addr_list = record db {
  stores = record stores { blocked = delete_members addr_list stores.blocked };
}
  where
    open db use {stores}

unfoldable pub is_contract_in_blocked_list : StateDb → ℕ → Bool
is_contract_in_blocked_list db addr = db.stores.blocked addr

-- The loop of `Preimages` on the map that it has built.
unfoldable pub preimages_from : List (ℕ × List ℕ) → GoMap (List ℕ) → GoMap (List ℕ)
preimages_from [] m = m
preimages_from ((hash, preimage) ∷ es) m = preimages_from es (put_key hash preimage m)

unfoldable pub get_preimages : StateDb → GoMap (List ℕ)
unfolding preimages_from
get_preimages db = preimages_from db.preimages.entries empty_map

abbrev pub dirty_or : Option ℕ → ℕ → ℕ
dirty_or none value = value
dirty_or (some dirty) value = dirty

-- The pairs that the callback sees, the one that stops the walk included.
unfoldable pub visit : (ℕ → ℕ → Bool) → StateObject → List (ℕ × ℕ) → List (ℕ × ℕ)
visit cb so [] = []
visit cb so ((key, stored) ∷ es) =
    let value = dirty_or (get so.dirty_storage key) stored in
    let rest = visit cb so es in (key, value) ∷ (if cb key value then [] else rest)

abbrev visit_found :
    (ℕ → ℕ → Bool) → List (ℕ × ℕ) → Option StateObject × StateDb → Option (List (ℕ × ℕ) × StateDb)
visit_found cb entries (none, db) = some ([], db)
visit_found cb entries (some so, db) = some (visit cb so entries, db)

module _ (env : Env) where
  unfoldable pub for_each_storage :
      StateDb → ℕ → (ℕ → ℕ → Bool) → List (ℕ × ℕ) → Option (List (ℕ × ℕ) × StateDb)
  unfolding get_state_object visit
  for_each_storage db addr cb entries = get_state_object env db addr >>= visit_found cb entries

  unfoldable pub intermediate_root : Bool → StateDb → Option (Option ℕ × StateDb)
  unfolding finalise
  intermediate_root delete_empty db = finalise env delete_empty db
