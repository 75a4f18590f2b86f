-- ===== src/Evm/AccessList.antt =====
-- The per-transaction access list (evm/types/access_list.go): the addresses, each with the
-- position of its set of storage slots. The Go index -1 is `no_slots`; no other negative index is
-- ever stored. A function that can panic returns `none` where it does.
pub mod Lifo
pub mod View
use faxchain.Base.{
  ℕ, Bool, true, false, not, Option, none, some, List, [], ◌∷◌, ◌++◌, GoMap, empty_map, put_key,
  delete_key, length, get_elem?, set, take, ltb, ◌==◌, if◌then◌else◌,
}

pub data SlotIndex : Type 0 where
  no_slots : SlotIndex
  at : ℕ → SlotIndex

pub record AccessList : Type 0 where
  pub addresses : GoMap SlotIndex
  pub slots : List (List ℕ)

unfoldable pub new_access_list : AccessList
new_access_list = record { addresses = empty_map; slots = [] }

-- A slot map is its keys, each once; the newest first.
unfoldable pub has_slot : List ℕ → ℕ → Bool
has_slot [] slot = false
has_slot (s ∷ ss) slot = if s == slot then true else has_slot ss slot

unfoldable pub delete_slot_key : List ℕ → ℕ → List ℕ
delete_slot_key [] slot = []
delete_slot_key (s ∷ ss) slot = if s == slot then ss else s ∷ delete_slot_key ss slot

abbrev is_present : Option SlotIndex → Bool
is_present none = false
is_present (some _) = true

unfoldable pub contains_address : AccessList → ℕ → Bool
contains_address al address = is_present (al.addresses address)

abbrev contains_in : Option (List ℕ) → ℕ → Bool × Bool
contains_in none slot = (true, false)
contains_in (some slotmap) slot = (true, has_slot slotmap slot)

abbrev contains_at : AccessList → ℕ → Option SlotIndex → Bool × Bool
contains_at al slot none = (false, false)
contains_at al slot (some no_slots) = (true, false)
contains_at al slot (some (at idx)) = contains_in (get_elem? al.slots idx) slot

-- Whether the address, and the slot of the address, are in the list.
unfoldable pub contains : AccessList → ℕ → ℕ → Bool × Bool
unfolding has_slot
contains al address slot = contains_at al slot (al.addresses address)

abbrev add_address_at : AccessList → ℕ → Option SlotIndex → AccessList × Bool
add_address_at al address (some _) = (al, false)
add_address_at al address none =
    (record al { addresses = put_key address no_slots al.addresses }, true)

unfoldable pub add_address : AccessList → ℕ → AccessList × Bool
add_address al address = add_address_at al address (al.addresses address)

-- The branch of `AddSlot` that opens a new slot map.
abbrev pub open_slots : AccessList → ℕ → ℕ → AccessList
open_slots al address slot = record al {
  addresses = put_key address (at (length al.slots)) al.addresses;
  slots = al.slots ++ (slot ∷ []) ∷ [];
}

abbrev add_slot_in : AccessList → ℕ → ℕ → Option (List ℕ) → AccessList × Bool × Bool
add_slot_in al idx slot none = (al, false, false)
add_slot_in al idx slot (some slotmap) =
    if has_slot slotmap slot
    then (al, false, false)
    else (record al { slots = set al.slots idx (slot ∷ slotmap) }, false, true)

abbrev add_slot_at : AccessList → ℕ → ℕ → Option SlotIndex → AccessList × Bool × Bool
add_slot_at al address slot none = (open_slots al address slot, true, true)
add_slot_at al address slot (some no_slots) = (open_slots al address slot, false, true)
add_slot_at al address slot (some (at idx)) = add_slot_in al idx slot (get_elem? al.slots idx)

-- The list, whether the address was added, and whether the slot was.
unfoldable pub add_slot : AccessList → ℕ → ℕ → AccessList × Bool × Bool
unfolding has_slot
add_slot al address slot = add_slot_at al address slot (al.addresses address)

abbrev is_empty : List ℕ → Bool
is_empty [] = true
is_empty (_ ∷ _) = false

-- What `DeleteSlot` leaves when the slot map at `idx` has become `slotmap`.
abbrev delete_slot_in : AccessList → ℕ → ℕ → List ℕ → AccessList
delete_slot_in al address idx slotmap =
    if is_empty slotmap
    then record al { slots = take idx al.slots; addresses = put_key address no_slots al.addresses }
    else record al { slots = set al.slots idx slotmap }

abbrev delete_slot_with : AccessList → ℕ → ℕ → ℕ → Option (List ℕ) → Option AccessList
delete_slot_with al address slot idx none = none
delete_slot_with al address slot idx (some slotmap) =
    some (delete_slot_in al address idx (delete_slot_key slotmap slot))

abbrev delete_slot_at : AccessList → ℕ → ℕ → Option SlotIndex → Option AccessList
delete_slot_at al address slot none = none
delete_slot_at al address slot (some no_slots) = none
delete_slot_at al address slot (some (at idx)) =
    delete_slot_with al address slot idx (get_elem? al.slots idx)

unfoldable pub delete_slot : AccessList → ℕ → ℕ → Option AccessList
unfolding delete_slot_key
delete_slot al address slot = delete_slot_at al address slot (al.addresses address)

unfoldable pub delete_address : AccessList → ℕ → AccessList
delete_address al address = record al { addresses = delete_key address al.addresses }
