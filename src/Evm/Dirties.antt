-- ===== src/Evm/Dirties.antt =====
-- The dirty accounts of the journal (evm/types/journal.go): how many changes of the journal
-- concern each account, in a slice `dirties` with the index `addressToJournalIndex`.
-- `none` is the panic of a slice index out of range.
pub mod Lifo
pub mod Stale
use faxchain.Base.{
  ℕ, suc, ◌+◌, ◌-◌, Bool, Option, none, some, List, [], ◌∷◌, ◌++◌, GoMap, empty_map, put_key,
  delete_key, length, get_elem?, set, erase_idx, ◌==◌, if◌then◌else◌, ◌>>=◌,
}

-- An entry of `dirties` is an address and its number of changes.
pub record Dirties : Type 0 where
  pub dirties : List (ℕ × ℕ)
  pub index : GoMap ℕ

unfoldable pub new_dirties : Dirties
new_dirties = record { dirties = []; index = empty_map }

abbrev changes_at : Option (ℕ × ℕ) → Option ℕ
changes_at none = none
changes_at (some (_, n)) = some n

abbrev get_dirty_at : Dirties → Option ℕ → Option ℕ
get_dirty_at d none = some 0
get_dirty_at d (some i) = changes_at (get_elem? d.dirties i)

-- The count of an address, 0 if it is not indexed.
unfoldable pub get_dirty : Dirties → ℕ → Option ℕ
get_dirty d addr = get_dirty_at d (d.index addr)

-- `dirties[i].changes = f(dirties[i].changes)`
abbrev update_changes : (ℕ → ℕ) → Dirties → ℕ → Option (ℕ × ℕ) → Option Dirties
update_changes f d i none = none
update_changes f d i (some (a, n)) = some (record d { dirties = set d.dirties i (a, f n) })

abbrev add_dirty_at : Dirties → ℕ → Option ℕ → Option Dirties
add_dirty_at d addr (some i) = update_changes (λ n. n + 1) d i (get_elem? d.dirties i)
add_dirty_at d addr none = some (record d {
  dirties = d.dirties ++ (addr, 1) ∷ [];
  index = put_key addr (length d.dirties) d.index;
})

-- Adds 1 to the count of an address, creating its entry if there is none.
unfoldable pub add_dirty : Dirties → ℕ → Option Dirties
add_dirty d addr = add_dirty_at d addr (d.index addr)

abbrev substract_dirty_at : Dirties → Option ℕ → Option Dirties
substract_dirty_at d none = some d
substract_dirty_at d (some i) = update_changes (λ n. n - 1) d i (get_elem? d.dirties i)

-- Subtracts 1 from the count of an address, unless it is 0 or the address is not indexed.
unfoldable pub substract_dirty : Dirties → ℕ → Option Dirties
substract_dirty d addr = substract_dirty_at d (d.index addr)

-- `append(dirties[:i], dirties[i+1:]...)`, which panics where `i` is out of range
abbrev cut_dirty : Dirties → ℕ → ℕ → Option (ℕ × ℕ) → Option Dirties
cut_dirty d addr i none = none
cut_dirty d addr i (some _) =
    some (record { dirties = erase_idx d.dirties i; index = delete_key addr d.index })

abbrev delete_dirty_at : Dirties → ℕ → Option ℕ → Option Dirties
delete_dirty_at d addr none = some d
delete_dirty_at d addr (some i) = cut_dirty d addr i (get_elem? d.dirties i)

-- Cuts the entry of an address out of the slice. The indices of the entries behind it stay.
unfoldable pub delete_dirty : Dirties → ℕ → Option Dirties
delete_dirty d addr = delete_dirty_at d addr (d.index addr)

-- The dirty tracking of one entry in `revert`.
unfoldable pub drop_dirty : Dirties → ℕ → Option Dirties
unfolding substract_dirty get_dirty delete_dirty
drop_dirty d addr = substract_dirty d addr >>= λ d'.
    get_dirty d' addr >>= λ n. if n == 0 then delete_dirty d' addr else some d'
