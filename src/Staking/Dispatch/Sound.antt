-- ===== src/Staking/Dispatch/Sound.antt =====
-- Whatever messages are handled, the shares of the validators and of the delegators fit.
use faxchain.Base.{ℕ, ◌≡◌, refl, sym, ap, ◌∙◌, subst, Bool, Option, none, some, List, [], ◌∷◌}
use faxchain.Base.Int.{ℤ}
use faxchain.Staking.Result.{
  Result, ok, err, >>=-eq-ok, need-eq-ok, ok_inj, bank_failed, not_in_delegating,
}
use faxchain.Staking.Store.{Chain, Store, set_validator}
use faxchain.Staking.Handlers.{handle_msg_unbind_proxy}
use faxchain.Staking.Handlers.Sound.{unbind_proxy_of-IsSound}
use faxchain.Staking.Handlers.Messages.{handle_msg_bind_proxy-IsSound, handle_reg_proxy-IsSound}
use faxchain.Staking.Handlers.Revote.{handle_msg_add_shares-IsSound}
use faxchain.Staking.Delegation.{
  Coin, Bank, Ledger, undelegate, merge_undelegation, get_undelegating, set_undelegating,
  delete_undelegating, set_addr_by_time_key, delete_addr_by_time_key, UndelegationInfo,
  handle_msg_deposit, handle_msg_withdraw, complete_all, complete_undelegation, or_same,
  completion_time_of,
}
use faxchain.Staking.Delegation.Sound.{deposit_store-IsSound, withdraw_store-IsSound}
use faxchain.Staking.Validators.{
  MsgCreateValidator, handle_msg_create_validator, handle_msg_edit_validator,
  handle_msg_destroy_validator, merge_msd,
}
use faxchain.Staking.Validators.Sound.{destroy_store-IsSound, create_store-IsSound, written-IsSound}
use faxchain.Staking.Votes.Sound.{IsSound}
use faxchain.Staking.Votes.Sums.{count}
use faxchain.Staking.Dispatch.Inversion.{
  deposit-eq-ok, withdraw-eq-ok, destroy-eq-ok, create-eq-ok, edit-eq-ok,
}
use faxchain.Staking.Dispatch.{
  Message, create_validator, edit_validator, deposit_msg, withdraw_msg, add_shares_msg,
  bind_proxy_msg, unbind_proxy_msg, reg_proxy_msg, destroy_validator, on_store, handle,
  IsAdmissible, Reach, start, message, complete,
}

module _ {B : Type 0} where
  merge_undelegation-store :
      (l : Ledger B) (a : ℕ) (x : ℤ) (t : ℕ) (o : Option UndelegationInfo)
      → (merge_undelegation l a x t o).store ≡ l.store
  unfolding set_undelegating set_addr_by_time_key delete_addr_by_time_key
  merge_undelegation-store l a x t none = refl
  merge_undelegation-store l a x t (some u) = refl

  pub undelegate-store :
      (l : Ledger B) (a : ℕ) (x : ℤ) (t : ℕ) → (undelegate l a x t).store ≡ l.store
  unfolding undelegate
  undelegate-store l a x t = merge_undelegation-store l a x t (get_undelegating l a)

  merge_msd-store :
      (l : Ledger B) (a : ℕ) (x : ℤ) (t : ℕ) (o : Option UndelegationInfo)
      → (merge_msd l a x t o).store ≡ l.store
  unfolding set_undelegating set_addr_by_time_key delete_addr_by_time_key
  merge_msd-store l a x t none = refl
  merge_msd-store l a x t (some u) = refl

  or_same-store :
      (l : Ledger B) (r : Result (Ledger B))
      → ((l' : Ledger B) → r ≡ ok l' → l'.store ≡ l.store)
      → (or_same l r).store ≡ l.store
  or_same-store l (ok l') h = h l' refl
  or_same-store l (err f) h = refl

  complete_undelegation-store :
      (k : Bank B) (c : Chain) (l l' : Ledger B) (a : ℕ)
      → complete_undelegation c k l a ≡ ok l'
      → l'.store ≡ l.store
  unfolding complete_undelegation get_undelegating delete_undelegating
  complete_undelegation-store k c l l' a e =
      let (u, _, e₁) = need-eq-ok (l.undelegations a) not_in_delegating _ e in
      let (b, _, e₂) =
        need-eq-ok (k.undelegate_coins l.bank u.delegator_address _) bank_failed _ e₁ in
      ap (λ (z : Ledger B). z.store) (sym (ok_inj e₂))

  pub complete_all-store :
      (k : Bank B) (c : Chain) (keys : List (ℕ × ℕ)) (l : Ledger B)
      → (complete_all c k l keys).store ≡ l.store
  unfolding complete_all delete_addr_by_time_key
  complete_all-store k c [] l = refl
  complete_all-store k c ((t, a) ∷ rest) l =
      let l₁ = delete_addr_by_time_key l t a in
      complete_all-store k c rest (or_same l₁ (complete_undelegation c k l₁ a))
      ∙ or_same-store l₁ (complete_undelegation c k l₁ a)
          (λ l' e. complete_undelegation-store k c l₁ l' a e)

module _ {B : Type 0} (c : Chain) (k : Bank B) (addrs : List ℕ) where
  on_store-IsSound :
      (l l' : Ledger B) (r : Result Store)
      → ((s : Store) → r ≡ ok s → IsSound c.one_dec addrs s)
      → on_store l r ≡ ok l'
      → IsSound c.one_dec addrs l'.store
  on_store-IsSound l l' r h e =
      let (s, e₁, e₂) = >>=-eq-ok r _ e in
      subst (λ (z : Ledger B). IsSound c.one_dec addrs z.store) (ok_inj e₂) (h s e₁)

  deposit-IsSound :
      (l l' : Ledger B) (a : ℕ) (token : Coin)
      → count a addrs ≡ 1
      → IsSound c.one_dec addrs l.store
      → handle_msg_deposit c k l a token ≡ ok l'
      → IsSound c.one_dec addrs l'.store
  deposit-IsSound l l' a token once sound e =
      let (s, b, _, e₁, e₂) = deposit-eq-ok c k l l' a token e in
      subst (λ (z : Ledger B). IsSound c.one_dec addrs z.store) e₂
        (deposit_store-IsSound c addrs l.store s a token.amount once sound e₁)

  withdraw-IsSound :
      (l l' : Ledger B) (a : ℕ) (token : Coin)
      → IsSound c.one_dec addrs l.store
      → handle_msg_withdraw c k l a token ≡ ok l'
      → IsSound c.one_dec addrs l'.store
  withdraw-IsSound l l' a token sound e =
      let (d, s, b, there, _, _, _, e₁, e₂) = withdraw-eq-ok c k l l' a token e in
      subst (IsSound c.one_dec addrs)
        (sym (
            undelegate-store (record l { store = s; bank = b }) a token.amount
              (completion_time_of c))
          ∙ ap (λ (z : Ledger B). z.store) e₂)
        (withdraw_store-IsSound c addrs l.store s a d token.amount sound there e₁)

  destroy-IsSound :
      (l l' : Ledger B) (a : ℕ)
      → IsSound c.one_dec addrs l.store
      → handle_msg_destroy_validator c k l a ≡ ok l'
      → IsSound c.one_dec addrs l'.store
  destroy-IsSound l l' a sound e =
      let (v, s, b, there, some_msd, e₁, e₂) = destroy-eq-ok c k l l' a e in
      subst (IsSound c.one_dec addrs)
        (sym (
            merge_msd-store (record l { store = s; bank = b }) a v.min_self_delegation
              (completion_time_of c) (get_undelegating l a))
          ∙ ap (λ (z : Ledger B). z.store) e₂)
        (destroy_store-IsSound c addrs l.store s v a sound there some_msd e₁)

  create-IsSound :
      (l l' : Ledger B) (msg : MsgCreateValidator)
      → IsAdmissible addrs l (create_validator msg)
      → IsSound c.one_dec addrs l.store
      → handle_msg_create_validator c k l msg ≡ ok l'
      → IsSound c.one_dec addrs l'.store
  create-IsSound l l' msg fresh sound e =
      let (b, _, _, e₁) = create-eq-ok c k l l' msg e in
      subst (λ (z : Ledger B). IsSound c.one_dec addrs z.store) e₁
        (create_store-IsSound c addrs l.store msg.validator_address msg.cons_address
          msg.min_self_delegation.amount sound fresh)

  edit-IsSound :
      (l l' : Ledger B) (a : ℕ) (is_described : Bool)
      → IsSound c.one_dec addrs l.store
      → handle_msg_edit_validator c k l a is_described ≡ ok l'
      → IsSound c.one_dec addrs l'.store
  unfolding set_validator
  edit-IsSound l l' a is_described sound e =
      let (v, there, e₁) = edit-eq-ok c k l l' a is_described e in
      let there' = ap l.store.validators (sound.home a v there) ∙ there in
      subst (λ (z : Ledger B). IsSound c.one_dec addrs z.store) e₁
        (written-IsSound c addrs l.store _ v.operator_address v sound refl refl (λ i. refl) refl
          (λ b. sound.voted v.operator_address v b there')
          (sound.adds_up v.operator_address v there'))

  -- A message that succeeds keeps a store sound: records stand under their addresses, no
  -- delegator is its own proxy, each delegator has at each validator that is there exactly the
  -- shares of its record where it voted for it, and the shares of a validator add up. Whoever
  -- deposits is among the addresses, and a validator is only created at an address without votes.
  pub handle-IsSound :
      (l l' : Ledger B) (m : Message)
      → IsSound c.one_dec addrs l.store
      → IsAdmissible addrs l m
      → handle c k l m ≡ ok l'
      → IsSound c.one_dec addrs l'.store
  unfolding handle handle_msg_unbind_proxy
  handle-IsSound l l' (create_validator msg) sound h e = create-IsSound l l' msg h sound e
  handle-IsSound l l' (edit_validator a b) sound h e = edit-IsSound l l' a b sound e
  handle-IsSound l l' (deposit_msg a token) sound h e = deposit-IsSound l l' a token h sound e
  handle-IsSound l l' (withdraw_msg a token) sound h e = withdraw-IsSound l l' a token sound e
  handle-IsSound l l' (add_shares_msg a names) sound h e =
      on_store-IsSound l l' _
        (λ s r. handle_msg_add_shares-IsSound c addrs l.store s a names sound r) e
  handle-IsSound l l' (bind_proxy_msg a p) sound h e =
      on_store-IsSound l l' _ (λ s r. handle_msg_bind_proxy-IsSound c addrs l.store s a p sound r) e
  handle-IsSound l l' (unbind_proxy_msg a) sound h e =
      on_store-IsSound l l' _ (λ s r. unbind_proxy_of-IsSound c addrs l.store s a sound r) e
  handle-IsSound l l' (reg_proxy_msg a reg bound) sound h e =
      on_store-IsSound l l' _
        (λ s r. handle_reg_proxy-IsSound c addrs l.store s a reg bound sound r) e
  handle-IsSound l l' (destroy_validator a) sound h e = destroy-IsSound l l' a sound e

pub Reach-IsSound :
    {B : Type 0} (k : Bank B) (one : ℤ) (addrs : List ℕ) (l₀ l : Ledger B)
    → IsSound one addrs l₀.store
    → Reach k one addrs l₀ l
    → IsSound one addrs l.store
Reach-IsSound k one addrs l₀ _ sound start = sound
Reach-IsSound k one addrs l₀ _ sound (message c l₁ l m r h same e) =
    subst (λ o. IsSound o addrs l.store) same
      (handle-IsSound c k addrs l₁ l m
        (subst (λ o. IsSound o addrs l₁.store) (sym same) (Reach-IsSound k one addrs l₀ l₁ sound r))
        h e)
Reach-IsSound k one addrs l₀ _ sound (complete c l₁ keys r) =
    subst (IsSound one addrs) (sym (complete_all-store k c keys l₁))
      (Reach-IsSound k one addrs l₀ l₁ sound r)
