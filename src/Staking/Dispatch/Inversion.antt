-- ===== src/Staking/Dispatch/Inversion.antt =====
-- What a message of the staking module that succeeds has done.
use faxchain.Base.{ℕ, ◌≡◌, Bool, false, not, ◌&&◌, some, ◌==◌}
use faxchain.Base.Int.{ℤ, pos, ◌-ℤ◌, ltb_ℤ, is_zero}
use faxchain.Staking.Delegator.{Delegator}
use faxchain.Staking.Result.{
  ok, >>=-eq-ok, fail_if-eq-ok, need-eq-ok, ok_inj, bad_denom, insufficient_quantity, bank_failed,
  no_delegation, insufficient_delegation, invalid_proxy_withdraw_total, panicked,
  no_validator_found, no_min_self_delegation, more_min_self_delegation, bad_description,
  owner_exists, pub_key_exists, key_type_not_supported,
}
use faxchain.Staking.Store.{
  Chain, Validator, Store, get_delegator, get_validator, get_validator_by_cons_addr, set_validator,
}
use faxchain.Staking.Delegation.{
  Coin, Bank, Ledger, delegate, withdraw, deposit_store, withdraw_store, undelegate,
  get_undelegating, handle_msg_deposit, handle_msg_withdraw, completion_time_of,
}
use faxchain.Staking.Validators.{
  MsgCreateValidator, handle_msg_create_validator, handle_msg_edit_validator,
  handle_msg_destroy_validator, withdraw_min_self_delegation, destroy_store, merge_msd,
  new_validator, create_store, is_found,
}

module _ {B : Type 0} (c : Chain) (k : Bank B) where
  pub deposit-eq-ok :
      (l l' : Ledger B) (a : ℕ) (token : Coin)
      → handle_msg_deposit c k l a token ≡ ok l'
      → (s : Store) × (b : B) × (k.delegate_coins l.bank a token ≡ some b)
        × (deposit_store c l.store a token.amount ≡ ok s)
        × (record l { store = s; bank = b } ≡ l')
  unfolding handle_msg_deposit delegate
  deposit-eq-ok l l' a token e =
      let (_, e₁) = fail_if-eq-ok (not (token.denom == c.bond_denom)) bad_denom _ e in
      let (_, e₂) =
        fail_if-eq-ok (ltb_ℤ token.amount c.min_delegation) insufficient_quantity _ e₁ in
      let (b, paid, e₃) = need-eq-ok (k.delegate_coins l.bank a token) bank_failed _ e₂ in
      let (s, e₄, e₅) = >>=-eq-ok (deposit_store c l.store a token.amount) _ e₃ in
      (s, b, paid, e₄, ok_inj e₅)

  pub withdraw-eq-ok :
      (l l' : Ledger B) (a : ℕ) (token : Coin)
      → handle_msg_withdraw c k l a token ≡ ok l'
      → (d : Delegator ℤ) × (s : Store) × (b : B) × (l.store.delegators a ≡ some d)
        × (ltb_ℤ d.tokens token.amount ≡ false)
        × ((d.is_proxy && is_zero (d.tokens -ℤ token.amount)) ≡ false)
        × (k.bonded_to_not_bonded l.bank token ≡ some b)
        × (withdraw_store c l.store a d token.amount ≡ ok s)
        × (undelegate (record l { store = s; bank = b }) a token.amount (completion_time_of c) ≡ l')
  unfolding handle_msg_withdraw withdraw get_delegator
  withdraw-eq-ok l l' a token e =
      let (_, e₁) = fail_if-eq-ok (not (token.denom == c.bond_denom)) bad_denom _ e in
      let (d, there, e₂) = need-eq-ok (l.store.delegators a) no_delegation _ e₁ in
      let (_, e₃) =
        fail_if-eq-ok (ltb_ℤ token.amount c.min_delegation) insufficient_quantity _ e₂ in
      let (enough, e₄) = fail_if-eq-ok (ltb_ℤ d.tokens token.amount) insufficient_delegation _ e₃ in
      let (some_left, e₅) =
        fail_if-eq-ok (d.is_proxy && is_zero (d.tokens -ℤ token.amount))
          invalid_proxy_withdraw_total _ e₄ in
      let (b, paid, e₆) = need-eq-ok (k.bonded_to_not_bonded l.bank token) panicked _ e₅ in
      let (s, e₇, e₈) = >>=-eq-ok (withdraw_store c l.store a d token.amount) _ e₆ in
      (d, s, b, there, enough, some_left, paid, e₇, ok_inj e₈)

  pub destroy-eq-ok :
      (l l' : Ledger B) (a : ℕ)
      → handle_msg_destroy_validator c k l a ≡ ok l'
      → (v : Validator) × (s : Store) × (b : B) × (l.store.validators a ≡ some v)
        × (is_zero v.min_self_delegation ≡ false)
        × (destroy_store c l.store v ≡ ok s)
        × (merge_msd
              (record l { store = s; bank = b })
              a
              v.min_self_delegation
              (completion_time_of c)
              (get_undelegating l a)
            ≡ l')
  unfolding handle_msg_destroy_validator withdraw_min_self_delegation get_validator
  destroy-eq-ok l l' a e =
      let (v, there, e₁) = need-eq-ok (l.store.validators a) no_validator_found _ e in
      let (some_msd, e₂) =
        fail_if-eq-ok (is_zero v.min_self_delegation) no_min_self_delegation _ e₁ in
      let (_, e₃) =
        fail_if-eq-ok (ltb_ℤ (v.delegator_shares -ℤ c.one_dec) (pos 0)) more_min_self_delegation _
          e₂ in
      let (b, _, e₄) = need-eq-ok (k.bonded_to_not_bonded l.bank _) panicked _ e₃ in
      let (s, e₅, e₆) = >>=-eq-ok (destroy_store c l.store v) _ e₄ in
      (v, s, b, there, some_msd, e₅, ok_inj e₆)

  pub create-eq-ok :
      (l l' : Ledger B) (msg : MsgCreateValidator)
      → handle_msg_create_validator c k l msg ≡ ok l'
      → (b : B) × (is_found (get_validator l.store msg.validator_address) ≡ false)
        × (is_found (get_validator_by_cons_addr l.store msg.cons_address) ≡ false)
        × (record l {
          store =
              create_store c l.store (
                new_validator msg.validator_address msg.cons_address
                  msg.min_self_delegation.amount);
          bank = b;
        }
            ≡ l')
  unfolding handle_msg_create_validator
  create-eq-ok l l' msg e =
      let (owner, e₁) =
        fail_if-eq-ok (is_found (get_validator l.store msg.validator_address)) owner_exists _ e in
      let (key, e₂) =
        fail_if-eq-ok (is_found (get_validator_by_cons_addr l.store msg.cons_address))
          pub_key_exists _ e₁ in
      let (_, e₃) =
        fail_if-eq-ok (not (msg.min_self_delegation.denom == c.bond_denom)) bad_denom _ e₂ in
      let (_, e₄) = fail_if-eq-ok (not msg.is_described) bad_description _ e₃ in
      let (_, e₅) = fail_if-eq-ok (not msg.is_supported) key_type_not_supported _ e₄ in
      let (b, _, e₆) =
        need-eq-ok (k.delegate_coins l.bank msg.delegator_address _) bank_failed _ e₅ in
      (b, owner, key, ok_inj e₆)

  pub edit-eq-ok :
      (l l' : Ledger B) (a : ℕ) (is_described : Bool)
      → handle_msg_edit_validator c k l a is_described ≡ ok l'
      → (v : Validator) × (l.store.validators a ≡ some v)
        × (record l { store = set_validator l.store v } ≡ l')
  unfolding handle_msg_edit_validator get_validator
  edit-eq-ok l l' a is_described e =
      let (v, there, e₁) = need-eq-ok (l.store.validators a) no_validator_found _ e in
      let (_, e₂) = fail_if-eq-ok (not is_described) bad_description _ e₁ in (v, there, ok_inj e₂)
