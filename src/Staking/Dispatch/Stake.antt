-- ===== src/Staking/Dispatch/Stake.antt =====
-- The stake of a delegator, which is what is bonded and what waits to be paid, over a message.
use faxchain.Base.{
  ℕ, ◌≡◌, refl, ap, ap₂, ◌∙◌, subst, Bool, true, false, Option, none, some, List, ◌==◌,
  if◌then◌else◌, arith,
}
use faxchain.Base.Int.{ℤ, pos, ◌+ℤ◌, ◌-ℤ◌, int_laws}
use faxchain.Staking.Result.{ok}
use faxchain.Staking.Store.{Chain, Store}
use faxchain.Staking.Delegation.{
  Coin, Bank, Ledger, UndelegationInfo, undelegate, merge_undelegation, get_undelegating,
  set_undelegating, set_addr_by_time_key, delete_addr_by_time_key, handle_msg_deposit,
  handle_msg_withdraw, completion_time_of,
}
use faxchain.Staking.Delegation.Tokens.{tokens_of, deposit_store-tokens, withdraw_store-tokens}
use faxchain.Staking.Votes.Sound.{IsSound}
use faxchain.Staking.Votes.Sums.{count}
use faxchain.Staking.Dispatch.Inversion.{deposit-eq-ok, withdraw-eq-ok}
use faxchain.Staking.Dispatch.Sound.{undelegate-store}
use faxchain.Staking.Dispatch.Timed.{IsTimed}

abbrev pub pending : Option UndelegationInfo → ℤ
pending none = pos 0
pending (some u) = u.quantity

zero_add : (x : ℤ) → x ≡ pos 0 +ℤ x
zero_add x = omega int_laws

more : (b : Bool) (t w x : ℤ) → (if b then t +ℤ x else t) +ℤ w ≡ (if b then t +ℤ w +ℤ x else t +ℤ w)
more true t w x = omega int_laws
more false t w x = refl

moved : (b : Bool) (t w x : ℤ) → (if b then t -ℤ x else t) +ℤ (if b then w +ℤ x else w) ≡ t +ℤ w
moved true t w x = omega int_laws
moved false t w x = refl

module _ {B : Type 0} where
  unfoldable pub stake : Ledger B → ℕ → ℤ
  stake l b = tokens_of (l.store.delegators b) +ℤ pending (l.undelegations b)

  merge_undelegation-pending :
      (l : Ledger B) (a : ℕ) (x : ℤ) (t b : ℕ) (o : Option UndelegationInfo)
      → IsTimed l
      → l.undelegations a ≡ o
      → pending ((merge_undelegation l a x t o).undelegations b)
        ≡ (if b == a then pending (l.undelegations b) +ℤ x else pending (l.undelegations b))
  unfolding set_undelegating set_addr_by_time_key delete_addr_by_time_key
  merge_undelegation-pending l a x t b none timed e = ground (arith, e, zero_add x)
  merge_undelegation-pending l a x t b (some u) timed e = ground (arith, e, timed.home a u e)

module _ {B : Type 0} (c : Chain) (k : Bank B) (addrs : List ℕ) where
  -- A deposit that succeeds in a sound store, of a delegator who is among the addresses, adds its
  -- amount to the stake of this delegator and to no other.
  pub deposit-stake :
      (l l' : Ledger B) (a : ℕ) (token : Coin) (b : ℕ)
      → count a addrs ≡ 1
      → IsSound c.one_dec addrs l.store
      → handle_msg_deposit c k l a token ≡ ok l'
      → stake l' b ≡ (if b == a then stake l b +ℤ token.amount else stake l b)
  unfolding stake
  deposit-stake l l' a token b once sound e =
      let (s, b', _, e₁, e₂) = deposit-eq-ok c k l l' a token e in
      let new = deposit_store-tokens c addrs l.store s a token.amount b once sound e₁ in
      subst (λ z. stake z b ≡ (if b == a then stake l b +ℤ token.amount else stake l b)) e₂
        (rw new (
          more (b == a) (tokens_of (l.store.delegators b)) (pending (l.undelegations b))
            token.amount))

  -- A withdrawal that succeeds, in a sound store with keyed undelegations, leaves the stake of
  -- every delegator, its tokens with what waits to be paid to it, as it was.
  pub withdraw-stake :
      (l l' : Ledger B) (a : ℕ) (token : Coin) (b : ℕ)
      → IsSound c.one_dec addrs l.store
      → IsTimed l
      → handle_msg_withdraw c k l a token ≡ ok l'
      → stake l' b ≡ stake l b
  unfolding stake undelegate get_undelegating
  withdraw-stake l l' a token b sound timed e =
      let (d, s, b', there, _, _, _, e₁, e₂) = withdraw-eq-ok c k l l' a token e in
      let l₁ = record l { store = s; bank = b' } in
      let l₂ = undelegate l₁ a token.amount (completion_time_of c) in
      let timed₁ : IsTimed l₁ = record { home = timed.home; keyed = timed.keyed } in
      let new = withdraw_store-tokens c addrs l.store s a d token.amount b sound there e₁ in
      let same = undelegate-store l₁ a token.amount (completion_time_of c) in
      let waits =
        merge_undelegation-pending l₁ a token.amount (completion_time_of c) b (l.undelegations a)
          timed₁ refl in
      subst (λ z. stake z b ≡ stake l b) e₂
        (ap₂ (λ (z : Store) y. tokens_of (z.delegators b) +ℤ y) same waits
          ∙ ap
              (λ y.
                y
                +ℤ (if b == a
                    then pending (l.undelegations b) +ℤ token.amount
                    else pending (l.undelegations b)))
              new
          ∙ moved (b == a) (tokens_of (l.store.delegators b)) (pending (l.undelegations b))
              token.amount)
