-- ===== src/Evm/AccessList/Lifo.antt =====
-- Additions to the access list are undone exactly when they are undone in reverse order.
use faxchain.Base.{
  ℕ, ◌<◌, ◌≡◌, refl, inl, inr, ap, ◌∙◌, Bool, true, false, Option, none, some, List, [], ◌∷◌, arith,
  Option-cases, Bool-cases, length, get_elem?, put_key, delete_key, get_elem?-lt,
  get_elem?-append_left, get_elem?-append_end, take-append_length, set-set, set-get_elem?,
  get_elem?-set_self, delete_key-put_key, put_key-put_key, put_key_self, ◌==◌, get_elem?-set_ne,
}
use faxchain.Evm.AccessList.{
  AccessList, SlotIndex, no_slots, at, new_access_list, add_address, add_slot, delete_slot,
  delete_address, has_slot, open_slots, add_slot_in,
}

-- Every position lies in the slice, no slot map is empty, and no two addresses share one.
pub record IsValid (al : AccessList) : Type 0 where
  pub filled :
      (a i : ℕ)
      → al.addresses a ≡ some (at i)
      → (s : ℕ) × (ss : List ℕ) × (get_elem? al.slots i ≡ some (s ∷ ss))
  pub separate : (a b i : ℕ) → al.addresses a ≡ some (at i) → al.addresses b ≡ some (at i) → a ≡ b

pub below_length :
    (al : AccessList) → IsValid al → (a i : ℕ) → al.addresses a ≡ some (at i) → i < length al.slots
below_length al v a i h = let (s, ss, g) = v.filled a i h in get_elem?-lt al.slots i g

-- What the journal does to undo an addition that reported these changes: the entries of the
-- address and of the slot, the newest first.
abbrev pub undo_slot : ℕ → ℕ → AccessList × Bool × Bool → Option AccessList
undo_slot address slot (al, true, true) = elim (delete_slot al address slot) [
  | none ↦ none
  | some al' ↦ some (delete_address al' address)
]
undo_slot address slot (al, true, false) = some (delete_address al address)
undo_slot address slot (al, false, true) = delete_slot al address slot
undo_slot address slot (al, false, false) = some al

abbrev pub undo_address : ℕ → AccessList × Bool → AccessList
undo_address address (al, true) = delete_address al address
undo_address address (al, false) = al

-- What AddAddress adds, DeleteAddress takes back exactly where it was added.
pub undo_address-add_address :
    (al : AccessList) (address : ℕ) → undo_address address (add_address al address) ≡ al
unfolding add_address delete_address
undo_address-add_address al address = elim (Option-cases (al.addresses address)) [
  | inl fresh ↦ ground (arith, fresh, delete_key-put_key address no_slots al.addresses fresh)
  | inr (i, known) ↦ ground arith
]

pub undo-open_slots :
    (al : AccessList) (address slot : ℕ)
    → delete_slot (open_slots al address slot) address slot
      ≡ some (record al { addresses = put_key address no_slots al.addresses })
unfolding delete_slot
undo-open_slots al address slot = ground (
  arith,
  get_elem?-append_end al.slots (slot ∷ []),
  take-append_length al.slots ((slot ∷ []) ∷ []),
  put_key-put_key address (at (length al.slots)) no_slots al.addresses,
)

undo-add_slot_in :
    (al : AccessList) (address slot i s : ℕ) (ss : List ℕ)
    → al.addresses address ≡ some (at i)
    → get_elem? al.slots i ≡ some (s ∷ ss)
    → undo_slot address slot (add_slot_in al i slot (some (s ∷ ss))) ≡ some al
unfolding delete_slot
undo-add_slot_in al address slot i s ss e g = elim (Bool-cases (has_slot (s ∷ ss) slot)) [
  | inl old ↦ rw old
  | inr new ↦ rw new (
      ground (
        arith,
        get_elem?-lt al.slots i g,
        get_elem?-set_self al.slots i (slot ∷ s ∷ ss),
        set-set al.slots i (slot ∷ s ∷ ss) (s ∷ ss),
        set-get_elem? al.slots i g,
      ))
]

undo-add_slot_at :
    (al : AccessList) (address slot : ℕ) (o : Option SlotIndex)
    → al.addresses address ≡ o
    → IsValid al
    → undo_slot address slot (add_slot al address slot) ≡ some al
unfolding add_slot delete_address
undo-add_slot_at al address slot none e v =
    ground
      (arith, undo-open_slots al address slot, delete_key-put_key address no_slots al.addresses e)
undo-add_slot_at al address slot (some no_slots) e v =
    ground (arith, undo-open_slots al address slot, put_key_self address no_slots al.addresses e)
undo-add_slot_at al address slot (some (at i)) e v =
    let (s, ss, g) = v.filled address i e in rw (e, g) (undo-add_slot_in al address slot i s ss e g)

-- In a valid access list, what AddSlot adds is taken back exactly by the deletions that its
-- results ask for, and these do not panic.
pub undo_slot-add_slot :
    (al : AccessList) (address slot : ℕ)
    → IsValid al
    → undo_slot address slot (add_slot al address slot) ≡ some al
undo_slot-add_slot al address slot v =
    undo-add_slot_at al address slot (al.addresses address) refl v

pub open_slots-IsValid :
    (al : AccessList) (address slot : ℕ) → IsValid al → IsValid (open_slots al address slot)
open_slots-IsValid al address slot v = record {
  filled = λ a i h. elim (Bool-cases (a == address)) [
    | inl here ↦ (slot, [], ground (arith, get_elem?-append_end al.slots (slot ∷ [])))
    | inr other ↦
        let h' : al.addresses a ≡ some (at i) = ground arith in
        let (s, ss, g) = v.filled a i h' in
        (s, ss, get_elem?-append_left al.slots _ i (get_elem?-lt al.slots i g) ∙ g)
  ];
  separate =
      λ a b i ha hb. ground (arith, v.separate a b i, below_length al v a i, below_length al v b i);
}

add_slot_in-IsValid :
    (al : AccessList) (address slot i s : ℕ) (ss : List ℕ)
    → get_elem? al.slots i ≡ some (s ∷ ss)
    → IsValid al
    → IsValid (add_slot_in al i slot (some (s ∷ ss))).0
add_slot_in-IsValid al address slot i s ss g v = elim (Bool-cases (has_slot (s ∷ ss) slot)) [
  | inl old ↦ rw old v
  | inr new ↦ rw new (record {
    filled = λ a j h. elim (Bool-cases (i == j)) [
      | inl here ↦ (
        slot,
        s ∷ ss,
        ground (arith, get_elem?-lt al.slots i g, get_elem?-set_self al.slots i (slot ∷ s ∷ ss)),
      )
      | inr other ↦
          let (u, us, q) = v.filled a j h in
          (u, us, ground (arith, get_elem?-set_ne al.slots i j (slot ∷ s ∷ ss)))
    ];
    separate = v.separate;
  })
]

add_slot_at-IsValid :
    (al : AccessList) (address slot : ℕ) (o : Option SlotIndex)
    → al.addresses address ≡ o
    → IsValid al
    → IsValid (add_slot al address slot).0
unfolding add_slot
add_slot_at-IsValid al address slot none e v = rw e (open_slots-IsValid al address slot v)
add_slot_at-IsValid al address slot (some no_slots) e v =
    rw e (open_slots-IsValid al address slot v)
add_slot_at-IsValid al address slot (some (at i)) e v =
    let (s, ss, g) = v.filled address i e in
    rw (e, g) (add_slot_in-IsValid al address slot i s ss g v)

-- AddSlot keeps an access list valid: each index points to a slot map that is not empty, and no
-- two addresses share one.
pub add_slot-IsValid :
    (al : AccessList) (address slot : ℕ) → IsValid al → IsValid (add_slot al address slot).0
add_slot-IsValid al address slot v =
    add_slot_at-IsValid al address slot (al.addresses address) refl v

-- The list with an address that has no slots yet.
pub opened-IsValid :
    (al : AccessList) (address : ℕ)
    → IsValid al
    → al.addresses address ≡ none
    → IsValid (record al { addresses = put_key address no_slots al.addresses })
opened-IsValid al address v fresh = record {
  filled = λ a i h. v.filled a i (ground arith);
  separate = λ a b i ha hb. ground (arith, v.separate a b i);
}

pub delete_key-opened :
    (al : AccessList) (address : ℕ)
    → al.addresses address ≡ none
    → record al { addresses = delete_key address (put_key address no_slots al.addresses) } ≡ al
delete_key-opened al address fresh =
    ap (λ m. record al { addresses = m }) (delete_key-put_key address no_slots al.addresses fresh)

-- `AddAddress` keeps the list valid.
pub add_address-IsValid :
    (al : AccessList) (address : ℕ) → IsValid al → IsValid (add_address al address).0
unfolding add_address
add_address-IsValid al address v = elim (Option-cases (al.addresses address)) [
  | inl fresh ↦ rw fresh (opened-IsValid al address v fresh)
  | inr (i, known) ↦ rw known v
]

pub new_access_list-IsValid : IsValid new_access_list
unfolding new_access_list
new_access_list-IsValid = record {
  filled = λ a i h. absurd (cc);
  separate = λ a b i h. absurd (cc);
}

-- A known address is not added again.
pub known_flag :
    (al : AccessList) (address slot : ℕ) (i : SlotIndex)
    → al.addresses address ≡ some i
    → (add_slot al address slot).1 ≡ false
unfolding add_slot
known_flag al address slot no_slots e = rw e
known_flag al address slot (at i) e = ground arith
