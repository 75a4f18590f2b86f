-- ===== src/Evm/Registers/Laws.antt =====
-- What the registers answer after they are written.
use faxchain.Base.{
  ℕ, zero, suc, ◌≡◌, ◌≢◌, refl, Bool, true, false, not, ◌&&◌, ◌||◌, some, List, [], ◌∷◌, GoMap,
  empty_map, put_key, get_elem?, arith, ◌==◌, if◌then◌else◌, Option-cases, inl, inr,
}
use faxchain.Evm.Table.{get}
use faxchain.Evm.Table.Laws.{IsIndexed}
use faxchain.Evm.Table.Removal.{IsExact}
use faxchain.Evm.Journal.{StateDb}
use faxchain.Evm.StateDb.View.{preimage_view}
use faxchain.Evm.Registers.{
  add_members, delete_members, set_contract_blocked_list, delete_contract_blocked_list,
  is_contract_in_blocked_list, preimages_from, get_preimages,
}

pub is_member : ℕ → List ℕ → Bool
is_member j [] = false
is_member j (a ∷ addrs) = (j == a) || is_member j addrs

add_members-is_member :
    (addrs : List ℕ) (f : ℕ → Bool) (j : ℕ) → add_members addrs f j ≡ (is_member j addrs || f j)
unfolding add_members is_member
add_members-is_member [] f j = refl
add_members-is_member (a ∷ addrs) f j =
    ground (arith, add_members-is_member addrs (λ i. if i == a then true else f i) j)

delete_members-is_member :
    (addrs : List ℕ) (f : ℕ → Bool) (j : ℕ)
    → delete_members addrs f j ≡ (not (is_member j addrs) && f j)
unfolding delete_members is_member
delete_members-is_member [] f j = refl
delete_members-is_member (a ∷ addrs) f j =
    ground (arith, delete_members-is_member addrs (λ i. if i == a then false else f i) j)

-- A contract is blocked after a list of addresses is added to the blocked ones where it is in the
-- list or was blocked before, and after a list is deleted where it is not in the list and was
-- blocked before.
pub blocked_list-is_member :
    (db : StateDb) (addrs : List ℕ) (j : ℕ)
    → (is_contract_in_blocked_list (set_contract_blocked_list db addrs) j
        ≡ (is_member j addrs || is_contract_in_blocked_list db j))
      × (is_contract_in_blocked_list (delete_contract_blocked_list db addrs) j
          ≡ (not (is_member j addrs) && is_contract_in_blocked_list db j))
unfolding is_contract_in_blocked_list set_contract_blocked_list delete_contract_blocked_list
blocked_list-is_member db addrs j = (
  add_members-is_member addrs db.stores.blocked j,
  delete_members-is_member addrs db.stores.blocked j,
)

abbrev IsUnique : List (ℕ × List ℕ) → Type 0
IsUnique es =
    (i j k : ℕ) (u v : List ℕ) → get_elem? es i ≡ some (k, u) → get_elem? es j ≡ some (k, v) → i ≡ j

preimages_from-absent :
    (es : List (ℕ × List ℕ)) (m : GoMap (List ℕ)) (k : ℕ)
    → ((i : ℕ) (v : List ℕ) → get_elem? es i ≢ some (k, v))
    → preimages_from es m k ≡ m k
unfolding preimages_from
preimages_from-absent [] m k h = refl
preimages_from-absent ((key, value) ∷ es) m k h =
    ground (arith, h 0 value, preimages_from-absent es (put_key key value m) k (λ i v. h (suc i) v))

preimages_from-present :
    (es : List (ℕ × List ℕ)) (m : GoMap (List ℕ)) (k i : ℕ) (v : List ℕ)
    → IsUnique es
    → get_elem? es i ≡ some (k, v)
    → preimages_from es m k ≡ some v
unfolding preimages_from
preimages_from-present [] m k i v h p = absurd (cc)
preimages_from-present ((key, value) ∷ es) m k zero v h p = ground (
  arith,
  preimages_from-absent es (put_key key value m) k
      (λ i u q. absurd (omega (arith, h 0 (suc i) k v u p q))),
)
preimages_from-present ((key, value) ∷ es) m k (suc i) v h p =
    preimages_from-present es (put_key key value m) k i v
      (λ a b k' u w x y. omega (arith, h (suc a) (suc b) k' u w x y)) p

-- While the preimages are indexed and exact, the map of Preimages has for each hash what a
-- look-up finds.
pub get_preimages-shows :
    (db : StateDb) (hash : ℕ)
    → IsIndexed db.preimages
    → IsExact db.preimages
    → get_preimages db hash ≡ preimage_view db hash
unfolding get_preimages preimage_view get
get_preimages-shows db hash w x = elim (Option-cases (db.preimages.index hash)) [
  | inl absent ↦ rw absent (
      preimages_from-absent db.preimages.entries empty_map hash
        (λ i v p. absurd (ground (arith, x i hash v p))))
  | inr (i, there) ↦
      let (v, p) = w hash i there in
      rw (there, p)
        (preimages_from-present db.preimages.entries empty_map hash i v
          (λ i j k u v p q. ground (arith, x i k u p, x j k v q)) p)
]
