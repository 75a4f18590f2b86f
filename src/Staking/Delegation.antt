-- ===== src/Staking/Delegation.antt =====
-- The tokens of the delegators (staking/keeper/delegation.go, min_self_delegation.go, and the
-- handlers of handler.go and handler_shares.go that move them). The module of the SDK that holds
-- the coins is a parameter, with what it does to its own state.
pub mod Sound
pub mod Tokens
use faxchain.Base.{
  ℕ, Bool, true, false, not, ◌&&◌, Option, none, some, List, [], ◌∷◌, ◌++◌, GoMap, put_key,
  delete_key, ◌==◌, leb, ◌+◌, if◌then◌else◌,
}
use faxchain.Base.Int.{ℤ, pos, ◌+ℤ◌, ◌-ℤ◌, negate, ltb_ℤ, is_zero}
use faxchain.Staking.Delegator.{Delegator, new_delegator, has_proxy}
use faxchain.Staking.Result.{
  Result, ok, err, ◌>>=◌, fail_if, need, no_delegation, insufficient_quantity,
  insufficient_delegation, invalid_proxy_withdraw_total, bad_denom, no_min_self_delegation,
  more_min_self_delegation, not_in_delegating, bank_failed, panicked, owner_exists, pub_key_exists,
  no_validator_found,
}
use faxchain.Staking.Store.{
  Chain, Status, unbonded, unbonding, bonded, Validator, Store, is_unbonded, is_bonded,
  get_delegator, set_delegator, delete_delegator, get_validator, set_validator,
  get_validator_by_cons_addr, set_validator_by_cons_addr, set_proxy_binding, call_hook,
  after_validator_created, after_validator_destroyed, delete_validator_by_power_index,
  set_new_validator_by_power_index, set_validator_by_power_index,
}
use faxchain.Staking.Votes.{
  get_last_vals, withdraw_last_shares, update_shares, update_proxy, remove_validator,
}

pub record Coin : Type 0 where
  pub denom : ℕ
  pub amount : ℤ

-- The module accounts: coins to the bonded pool, from there to the other pool, and from it to an
-- account.
pub record Bank (B : Type 0) : Type 0 where
  pub delegate_coins : B → ℕ → Coin → Option B
  pub bonded_to_not_bonded : B → Coin → Option B
  pub undelegate_coins : B → ℕ → Coin → Option B
  pub default_bond_denom : ℕ

pub record UndelegationInfo : Type 0 where
  pub delegator_address : ℕ
  pub quantity : ℤ
  pub completion_time : ℕ

pub record Ledger (B : Type 0) : Type 0 where
  pub store : Store
  pub bank : B
  pub undelegations : GoMap UndelegationInfo
  pub time_keys : ℕ → ℕ → Bool

module _ {B : Type 0} where
  unfoldable pub get_undelegating : Ledger B → ℕ → Option UndelegationInfo
  get_undelegating l del_addr = l.undelegations del_addr

  unfoldable pub set_undelegating : Ledger B → UndelegationInfo → Ledger B
  set_undelegating l u = record l { undelegations = put_key u.delegator_address u l.undelegations }

  unfoldable pub delete_undelegating : Ledger B → ℕ → Ledger B
  delete_undelegating l del_addr = record l { undelegations = delete_key del_addr l.undelegations }

  unfoldable pub set_addr_by_time_key : Ledger B → ℕ → ℕ → Ledger B
  set_addr_by_time_key l t del_addr = record l {
    time_keys = λ u a. if (u == t) && (a == del_addr) then true else l.time_keys u a;
  }

  unfoldable pub delete_addr_by_time_key : Ledger B → ℕ → ℕ → Ledger B
  delete_addr_by_time_key l t del_addr = record l {
    time_keys = λ u a. if (u == t) && (a == del_addr) then false else l.time_keys u a;
  }

  -- The tokens are added to those that wait already, and all of them wait for the later time.
  abbrev pub merge_undelegation : Ledger B → ℕ → ℤ → ℕ → Option UndelegationInfo → Ledger B
  merge_undelegation l del_addr x t none =
      set_addr_by_time_key
        (set_undelegating l
          (record { delegator_address = del_addr; quantity = x; completion_time = t }))
        t del_addr
  merge_undelegation l del_addr x t (some u) =
      set_addr_by_time_key
        (set_undelegating (delete_addr_by_time_key l u.completion_time del_addr)
          (record u { quantity = u.quantity +ℤ x; completion_time = t }))
        t del_addr

  abbrev pub or_same : Ledger B → Result (Ledger B) → Ledger B
  or_same l (ok l') = l'
  or_same l (err _) = l

  unfoldable pub undelegate : Ledger B → ℕ → ℤ → ℕ → Ledger B
  unfolding get_undelegating set_undelegating set_addr_by_time_key delete_addr_by_time_key
  undelegate l del_addr x t = merge_undelegation l del_addr x t (get_undelegating l del_addr)

abbrev pub or_new_delegator : ℕ → Option (Delegator ℤ) → Delegator ℤ
or_new_delegator del_addr none = new_delegator (pos 0) del_addr
or_new_delegator del_addr (some d) = d

-- What a delegator and those who bound to it have.
abbrev pub final_tokens : Delegator ℤ → ℤ
final_tokens d = if d.is_proxy then d.tokens +ℤ d.total_delegated_tokens else d.tokens

abbrev pub unbind_if : Store → Option ℕ → ℕ → Store
unbind_if s none del_addr = s
unbind_if s (some proxy_addr) del_addr = set_proxy_binding s proxy_addr del_addr true

module _ (c : Chain) where
  abbrev pub completion_time_of : ℕ
  completion_time_of =
      if leb c.level_up_height c.height
      then c.now + c.level_up_unbonding_time
      else c.now + c.unbonding_time

  -- The store after tokens came in.
  unfoldable pub deposit_store : Store → ℕ → ℤ → Result Store
  unfolding get_delegator set_delegator new_delegator has_proxy update_proxy update_shares
  deposit_store s del_addr x =
      let old = or_new_delegator del_addr (get_delegator s del_addr) in
      let d = record old { tokens = old.tokens +ℤ x } in
      let s₁ = set_delegator s d in
      if has_proxy d
      then update_proxy c s₁ d x
      else update_shares c s₁ d.delegator_address (final_tokens d)

  abbrev pub proxy_first : Store → Delegator ℤ → ℤ → Result Store
  proxy_first s d x = if has_proxy d then update_proxy c s d (negate x) else ok s

  abbrev pub leave : Store → ℕ → Delegator ℤ → Result Store
  leave s del_addr d =
      let (last_vals, last_shares) = get_last_vals s del_addr in
      withdraw_last_shares c del_addr s last_vals last_shares >>= λ s₁.
      ok (delete_delegator (unbind_if s₁ d.proxy_address del_addr) del_addr)

  abbrev pub stay : Store → Delegator ℤ → Result Store
  stay s d =
      let s₁ = set_delegator s d in
      if has_proxy d then ok s₁ else update_shares c s₁ d.delegator_address (final_tokens d)

  -- The store after tokens were taken from a delegator; who has none left is deleted.
  unfoldable pub withdraw_store : Store → ℕ → Delegator ℤ → ℤ → Result Store
  unfolding has_proxy update_proxy get_last_vals withdraw_last_shares set_proxy_binding
      delete_delegator set_delegator update_shares
  withdraw_store s del_addr d x = proxy_first s d x >>= λ s₁.
      if is_zero (d.tokens -ℤ x)
      then leave s₁ del_addr d
      else stay s₁ (record d { tokens = d.tokens -ℤ x })

module _ {B : Type 0} (c : Chain) (k : Bank B) where
  -- `Delegate`
  unfoldable pub delegate : Ledger B → ℕ → Coin → Result (Ledger B)
  unfolding deposit_store
  delegate l del_addr token = fail_if (ltb_ℤ token.amount c.min_delegation) insufficient_quantity (
      need (k.delegate_coins l.bank del_addr token) bank_failed λ b.
        deposit_store c l.store del_addr token.amount >>= λ s.
        ok (record l { store = s; bank = b }))

  -- `Withdraw`
  unfoldable pub withdraw : Ledger B → ℕ → Coin → Result (Ledger B)
  unfolding get_delegator withdraw_store undelegate
  withdraw l del_addr token = need (get_delegator l.store del_addr) no_delegation λ d.
      fail_if (ltb_ℤ token.amount c.min_delegation) insufficient_quantity (
        fail_if (ltb_ℤ d.tokens token.amount) insufficient_delegation (
          fail_if (d.is_proxy && is_zero (d.tokens -ℤ token.amount)) invalid_proxy_withdraw_total (
            need (k.bonded_to_not_bonded l.bank token) panicked λ b.
              withdraw_store c l.store del_addr d token.amount >>= λ s. ok (
                undelegate (record l { store = s; bank = b }) del_addr token.amount
                  (completion_time_of c)))))

  -- `CompleteUndelegation`
  unfoldable pub complete_undelegation : Ledger B → ℕ → Result (Ledger B)
  unfolding get_undelegating delete_undelegating
  complete_undelegation l del_addr = need (get_undelegating l del_addr) not_in_delegating λ u.
      need
        (k.undelegate_coins l.bank u.delegator_address
          (record { denom = k.default_bond_denom; amount = u.quantity }))
        bank_failed λ b. ok (delete_undelegating (record l { bank = b }) del_addr)

  -- The undelegations that `EndBlocker` completes, for the keys up to the time of the block.
  unfoldable pub complete_all : Ledger B → List (ℕ × ℕ) → Ledger B
  unfolding delete_addr_by_time_key complete_undelegation
  complete_all l [] = l
  complete_all l ((t, del_addr) ∷ rest) =
      let l₁ = delete_addr_by_time_key l t del_addr in
      complete_all (or_same l₁ (complete_undelegation l₁ del_addr)) rest

  unfoldable pub handle_msg_deposit : Ledger B → ℕ → Coin → Result (Ledger B)
  unfolding delegate
  handle_msg_deposit l del_addr token =
      fail_if (not (token.denom == c.bond_denom)) bad_denom (delegate l del_addr token)

  unfoldable pub handle_msg_withdraw : Ledger B → ℕ → Coin → Result (Ledger B)
  unfolding withdraw
  handle_msg_withdraw l del_addr token =
      fail_if (not (token.denom == c.bond_denom)) bad_denom (withdraw l del_addr token)
