-- ===== src/Evm/AccessList/View.antt =====
-- The access list as what it answers: a set of addresses, and a set of slots of addresses.
use faxchain.Base.{
  ℕ, ◌≡◌, refl, true, false, Option, none, some, List, [], ◌∷◌, arith, get_elem?, get_elem?-lt,
  get_elem?-append_left, get_elem?-append_end, get_elem?-set_self, get_elem?-set_ne, ◌==◌,
  if◌then◌else◌, ◌||◌,
}
use faxchain.Evm.AccessList.{
  AccessList, SlotIndex, no_slots, at, add_address, add_slot, contains, open_slots, add_slot_in,
}
use faxchain.Evm.AccessList.Lifo.{IsValid, below_length}

contains-add_address_at :
    (al : AccessList) (address b t : ℕ) (o o' : Option SlotIndex)
    → al.addresses address ≡ o
    → al.addresses b ≡ o'
    → contains (add_address al address).0 b t
      ≡ (if b == address then (true, (contains al b t).1) else contains al b t)
unfolding contains add_address
contains-add_address_at al address b t none o' e e' = ground arith
contains-add_address_at al address b t (some i) none e e' = ground arith
contains-add_address_at al address b t (some i) (some no_slots) e e' = ground arith
contains-add_address_at al address b t (some i) (some (at j)) e e' = ground arith

-- After AddAddress the address is in the list, and every other answer of Contains is as before.
pub contains-add_address :
    (al : AccessList) (address b t : ℕ)
    → contains (add_address al address).0 b t
      ≡ (if b == address then (true, (contains al b t).1) else contains al b t)
contains-add_address al address b t =
    contains-add_address_at al address b t (al.addresses address) (al.addresses b) refl refl

-- `some i` stands for a position that other addresses have.
contains-open_slots :
    (al : AccessList) (address slot b t : ℕ) (o : Option SlotIndex)
    → al.addresses b ≡ o
    → (contains al address t).1 ≡ false
    → IsValid al
    → contains (open_slots al address slot) b t
      ≡ (if b == address then (true, (slot == t) || (contains al address t).1) else contains al b t)
unfolding contains
contains-open_slots al address slot b t none e missing v =
    ground (arith, get_elem?-append_end al.slots (slot ∷ []))
contains-open_slots al address slot b t (some no_slots) e missing v =
    ground (arith, get_elem?-append_end al.slots (slot ∷ []))
contains-open_slots al address slot b t (some (at i)) e missing v = ground (
  arith,
  get_elem?-append_end al.slots (slot ∷ []),
  below_length al v b i e,
  get_elem?-append_left al.slots ((slot ∷ []) ∷ []) i,
)

contains-add_slot_in :
    (al : AccessList) (address slot b t i : ℕ) (slotmap : List ℕ) (o : Option SlotIndex)
    → al.addresses address ≡ some (at i)
    → get_elem? al.slots i ≡ some slotmap
    → al.addresses b ≡ o
    → IsValid al
    → contains (add_slot_in al i slot (some slotmap)).0 b t
      ≡ (if b == address then (true, (slot == t) || (contains al address t).1) else contains al b t)
unfolding contains
contains-add_slot_in al address slot b t i slotmap none e g e' v = ground arith
contains-add_slot_in al address slot b t i slotmap (some no_slots) e g e' v = ground arith
contains-add_slot_in al address slot b t i slotmap (some (at j)) e g e' v = ground (
  arith,
  get_elem?-lt al.slots i g,
  get_elem?-set_self al.slots i (slot ∷ slotmap),
  get_elem?-set_ne al.slots i j (slot ∷ slotmap),
  v.separate address b i,
)

contains-add_slot_at :
    (al : AccessList) (address slot b t : ℕ) (o : Option SlotIndex)
    → al.addresses address ≡ o
    → IsValid al
    → contains (add_slot al address slot).0 b t
      ≡ (if b == address then (true, (slot == t) || (contains al address t).1) else contains al b t)
unfolding add_slot
contains-add_slot_at al address slot b t none e v = rw e (
    contains-open_slots al address slot b t (al.addresses b) refl (unfold contains in ground arith)
      v)
contains-add_slot_at al address slot b t (some no_slots) e v = rw e (
    contains-open_slots al address slot b t (al.addresses b) refl (unfold contains in ground arith)
      v)
contains-add_slot_at al address slot b t (some (at i)) e v =
    let (s, ss, g) = v.filled address i e in
    rw (e, g) (contains-add_slot_in al address slot b t i (s ∷ ss) (al.addresses b) e g refl v)

-- In a valid access list, after AddSlot the address and the slot are in the list, and every other
-- answer of Contains is as before.
pub contains-add_slot :
    (al : AccessList) (address slot b t : ℕ)
    → IsValid al
    → contains (add_slot al address slot).0 b t
      ≡ (if b == address then (true, (slot == t) || (contains al address t).1) else contains al b t)
contains-add_slot al address slot b t v =
    contains-add_slot_at al address slot b t (al.addresses address) refl v
