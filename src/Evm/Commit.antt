-- ===== src/Evm/Commit.antt =====
-- The writes of the storage of a live object: `commitState` (evm/types/state_object.go).
-- `none` is the panic of a slice index out of range.
pub mod Storage
pub mod Flush
pub mod Ready
use faxchain.Base.{
  ℕ, Bool, true, false, ◌≡◌, Option, none, some, List, [], ◌∷◌, GoMap, put_key, delete_key,
  get_elem?, set, ◌==◌, if◌then◌else◌, ◌>>=◌,
}
use faxchain.Evm.Table.{Table}
use faxchain.Evm.StateObject.{Env, StateObject, Stores, code_hash}

-- The store of an address with the values that were read from it.
pub record Flushed : Type 0 where
  pub store : GoMap ℕ
  pub origin : Table ℕ

-- A value that is not zero, against the one that was read: it is stored where it differs.
abbrev pub store_change : Flushed → ℕ → ℕ → ℕ → Option (ℕ × ℕ) → Option Flushed
store_change f key value i none = none
store_change f key value i (some (k, old)) =
    if value == old
    then some f
    else some (record {
      store = put_key key value f.store;
      origin = record { entries = set f.origin.entries i (k, value); index = f.origin.index };
    })

abbrev pub forget_origin : Flushed → ℕ → Flushed
forget_origin f key = record f {
  origin = record { entries = f.origin.entries; index = delete_key key f.origin.index };
}

abbrev pub commit_at : Flushed → ℕ → ℕ → Option ℕ → Option Flushed
commit_at f key value none = some f
commit_at f key value (some i) =
    if value == 0
    then some (forget_origin f key)
    else store_change f key value i (get_elem? f.origin.entries i)

-- A zero is deleted from the store.
abbrev pub clear_zero : Flushed → ℕ → ℕ → Flushed
clear_zero f key value = if value == 0 then record f { store = delete_key key f.store } else f

-- One entry of the dirty storage.
unfoldable pub commit_entry : Flushed → ℕ → ℕ → Option Flushed
commit_entry f key value = commit_at (clear_zero f key value) key value (f.origin.index key)

-- The loop over the dirty storage.
unfoldable pub commit_entries : List (ℕ × ℕ) → Flushed → Option Flushed
unfolding commit_entry
commit_entries [] f = some f
commit_entries ((key, value) ∷ es) f = commit_entry f key value >>= commit_entries es

abbrev pub delete_keys : List (ℕ × ℕ) → GoMap ℕ → GoMap ℕ
delete_keys [] m = m
delete_keys ((key, _) ∷ es) m = delete_keys es (delete_key key m)

-- `commitState` on the store of the address: the object without dirty storage, and the store.
unfoldable pub commit_state : StateObject → GoMap ℕ → Option (StateObject × GoMap ℕ)
unfolding commit_entries
commit_state so store =
    commit_entries so.dirty_storage.entries (record { store = store; origin = so.origin_storage })
    >>= λ f. some (
      record so {
        origin_storage = f.origin;
        dirty_storage = record {
          entries = [];
          index = delete_keys so.dirty_storage.entries so.dirty_storage.index;
        };
      },
      f.store,
    )
