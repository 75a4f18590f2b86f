-- ===== src/Staking/Dispatch/Invariant.antt =====
-- The check of the shares that the chain can run (`DelegatorAddSharesInvariant` of
-- staking/keeper/invariants.go), over the addresses of the validators and of the delegators that
-- its iterators yield.
use faxchain.Base.{
  ℕ, ◌≡◌, refl, sym, ◌∙◌, Bool, false, not, ◌||◌, Option, none, some, List, [], ◌∷◌, GoMap, arith,
}
use faxchain.Base.Int.{ℤ, ◌+ℤ◌, eqb_ℤ, int_laws}
use faxchain.Staking.Store.{Validator, Store}
use faxchain.Staking.Votes.Sums.{amount, total}
use faxchain.Staking.Votes.Sound.{IsSound, own}
use faxchain.Staking.Delegation.{Bank, Ledger}
use faxchain.Staking.Dispatch.{Reach}
use faxchain.Staking.Dispatch.Sound.{Reach-IsSound}

-- The loop over the shares of a validator.
unfoldable pub add_all : ℤ → List ℕ → GoMap ℤ → ℤ
add_all x [] g = x
add_all x (a ∷ rest) g = add_all (x +ℤ amount (g a)) rest g

abbrev is_broken_at : ℤ → List ℕ → GoMap ℤ → Option Validator → Bool
is_broken_at one addrs g none = false
is_broken_at one addrs g (some v) = not (eqb_ℤ v.delegator_shares (add_all (own one v) addrs g))

-- Whether the invariant is broken.
unfoldable pub delegator_add_shares_invariant : ℤ → Store → List ℕ → List ℕ → Bool
unfolding add_all own
delegator_add_shares_invariant one s [] addrs = false
delegator_add_shares_invariant one s (j ∷ vals) addrs =
    is_broken_at one addrs (s.shares j) (s.validators j)
    || delegator_add_shares_invariant one s vals addrs

add_all-total : (addrs : List ℕ) (x : ℤ) (g : GoMap ℤ) → add_all x addrs g ≡ x +ℤ total addrs g
unfolding add_all total
add_all-total [] x g = omega int_laws
add_all-total (a ∷ rest) x g = add_all-total rest (x +ℤ amount (g a)) g ∙ omega int_laws

IsSound-at :
    (one : ℤ) (addrs : List ℕ) (s : Store) (j : ℕ) (o : Option Validator)
    → IsSound one addrs s
    → s.validators j ≡ o
    → is_broken_at one addrs (s.shares j) o ≡ false
IsSound-at one addrs s j none sound e = refl
IsSound-at one addrs s j (some v) sound e =
    let k = sound.adds_up j v e ∙ sym (add_all-total addrs (own one v) (s.shares j)) in
    ground (arith, k)

pub IsSound-invariant :
    (one : ℤ) (addrs vals : List ℕ) (s : Store)
    → IsSound one addrs s
    → delegator_add_shares_invariant one s vals addrs ≡ false
unfolding delegator_add_shares_invariant
IsSound-invariant one addrs [] s sound = refl
IsSound-invariant one addrs (j ∷ vals) s sound = ground (
  arith,
  IsSound-at one addrs s j (s.validators j) sound refl,
  IsSound-invariant one addrs vals s sound,
)

-- After any messages of the staking module and any completed undelegations, from a sound ledger
-- and with the same decimal one throughout, the invariant that the chain runs on the shares finds
-- every validator's shares equal to those of its minimal self delegation and of its delegators.
-- Whoever deposits is among the addresses, and a validator is only created at an address without
-- votes.
pub Reach-invariant :
    {B : Type 0} (k : Bank B) (one : ℤ) (addrs vals : List ℕ) (l₀ l : Ledger B)
    → IsSound one addrs l₀.store
    → Reach k one addrs l₀ l
    → delegator_add_shares_invariant one l.store vals addrs ≡ false
Reach-invariant k one addrs vals l₀ l sound r =
    IsSound-invariant one addrs vals l.store (Reach-IsSound k one addrs l₀ l sound r)
