-- ===== src/Evm/Table.antt =====
-- The slice with an index that the state database keeps in place of a map, so that it is iterated
-- in a fixed order: `stateObjects` with `addressToObjectIndex`, `preimages` with
-- `hashToPreimageIndex`, `originStorage` and `dirtyStorage` with their key indices
-- (evm/types/statedb.go, state_object.go, journal.go).
-- An index out of range, where Go panics, reads as a missing entry; `IsIndexed` excludes it.
pub mod Laws
pub mod Removal
use faxchain.Base.{
  ℕ, zero, suc, ◌+◌, Option, none, some, List, [], ◌∷◌, ◌++◌, GoMap, empty_map, put_key, delete_key,
  length, get_elem?, set, drop, erase_idx,
}

pub record Table (V : Type 0) : Type 0 where
  pub entries : List (ℕ × V)
  pub index : GoMap ℕ

module _ {V : Type 0} where
  unfoldable pub empty_table : Table V
  empty_table = record { entries = []; index = empty_map }

  abbrev value_of : Option (ℕ × V) → Option V
  value_of none = none
  value_of (some (_, v)) = some v

  abbrev get_at : List (ℕ × V) → Option ℕ → Option V
  get_at es none = none
  get_at es (some i) = value_of (get_elem? es i)

  -- `if idx, ok := index[k]; ok { return entries[idx] }`
  unfoldable pub get : Table V → ℕ → Option V
  get t k = get_at t.entries (t.index k)

  abbrev put_at : Table V → ℕ → V → Option ℕ → Table V
  put_at t k v (some i) = record t { entries = set t.entries i (k, v) }
  put_at t k v none = record t {
    entries = t.entries ++ (k, v) ∷ [];
    index = put_key k (length t.entries) t.index;
  }

  -- Overwrites the entry of the key, or appends one and indexes it.
  unfoldable pub put : Table V → ℕ → V → Table V
  put t k v = put_at t k v (t.index k)

  -- The loop `for i := idx + 1; ...; { index[entries[i].key] = i - 1 }` over the entries behind
  -- the removed one, where `p` is the new position of the first.
  pub shift_index : ℕ → List (ℕ × V) → GoMap ℕ → GoMap ℕ
  shift_index p [] m = m
  shift_index p ((k, _) ∷ es) m = shift_index (suc p) es (put_key k p m)

  abbrev remove_at : Table V → ℕ → Option ℕ → Table V
  remove_at t k none = t
  remove_at t k (some i) = record t {
    entries = erase_idx t.entries i;
    index = shift_index i (drop (suc i) t.entries) (delete_key k t.index);
  }

  -- Removes the entry and moves those behind it one position to the left.
  unfoldable pub remove : Table V → ℕ → Table V
  unfolding shift_index
  remove t k = remove_at t k (t.index k)
