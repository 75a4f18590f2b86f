-- ===== src/Staking/Validators.antt =====
-- Validators that are created and destroyed (staking/handler.go, staking/handler_shares.go,
-- staking/keeper/min_self_delegation.go). The tests of a description and of the type of a key are
-- given with the message.
pub mod Sound
use mathlib.Core.Option
use faxchain.Base.{
  ℕ, Bool, true, false, not, ◌&&◌, Option, none, some, List, [], ◌∷◌, ◌++◌, ◌==◌, if◌then◌else◌,
}
use faxchain.Base.Int.{ℤ, pos, ◌+ℤ◌, ◌-ℤ◌, ltb_ℤ, is_zero}
use faxchain.Staking.Result.{
  Result, ok, err, ◌>>=◌, fail_if, need, bad_denom, no_min_self_delegation,
  more_min_self_delegation, bank_failed, panicked, owner_exists, pub_key_exists, no_validator_found,
  bad_description, key_type_not_supported,
}
use faxchain.Staking.Store.{
  Chain, Status, unbonded, unbonding, bonded, Validator, Store, get_validator, set_validator,
  get_validator_by_cons_addr, set_validator_by_cons_addr, call_hook, after_validator_created,
  after_validator_destroyed, delete_validator_by_power_index, set_new_validator_by_power_index,
  set_validator_by_power_index,
}
use faxchain.Staking.Votes.{remove_validator, reweigh}
use faxchain.Staking.Delegation.{
  Coin, Bank, Ledger, UndelegationInfo, get_undelegating, set_undelegating, set_addr_by_time_key,
  delete_addr_by_time_key, completion_time_of,
}

pub record MsgCreateValidator : Type 0 where
  pub validator_address : ℕ
  pub cons_address : ℕ
  pub delegator_address : ℕ
  pub min_self_delegation : Coin
  pub is_described : Bool
  pub is_supported : Bool

unfoldable pub new_validator : ℕ → ℕ → ℤ → Validator
new_validator operator_address cons_address min_self_delegation = record {
  operator_address = operator_address;
  cons_address = cons_address;
  jailed = false;
  status = unbonded;
  tokens = pos 0;
  delegator_shares = pos 0;
  unbonding_height = 0;
  unbonding_completion_time = 0;
  min_self_delegation = min_self_delegation;
}

abbrev pub is_found : Option Validator → Bool
is_found none = false
is_found (some _) = true

-- As for a withdrawal, with the address of the record for the key of the time.
abbrev pub merge_msd : {B : Type 0} → Ledger B → ℕ → ℤ → ℕ → Option UndelegationInfo → Ledger B
merge_msd l del_addr x t none =
    set_addr_by_time_key
      (set_undelegating l
        (record { delegator_address = del_addr; quantity = x; completion_time = t }))
      t del_addr
merge_msd l del_addr x t (some u) =
    set_addr_by_time_key
      (set_undelegating (delete_addr_by_time_key l u.completion_time del_addr)
        (record u { quantity = u.quantity +ℤ x; completion_time = t }))
      t u.delegator_address

-- `AppendAbandonedValidatorAddrs`
unfoldable pub append_abandoned : Store → ℕ → Result Store
unfolding get_validator_by_cons_addr
append_abandoned s cons_addr =
    need (get_validator_by_cons_addr s cons_addr) panicked
      λ v. ok (record s { abandoned = s.abandoned ++ (v.operator_address ∷ []) })

module _ (c : Chain) where
  -- The jailed validator leaves the index, and its shares are those of the delegators.
  abbrev pub kick : Store → Validator → ℤ → Store
  kick s v remain =
      set_validator (delete_validator_by_power_index c s v) (record v { delegator_shares = remain })

  abbrev pub destroyed : Status → Store → Validator → ℤ → Result Store
  destroyed bonded s v remain = append_abandoned s v.cons_address >>= λ s₁. ok (kick s₁ v remain)
  destroyed unbonding s v remain = ok (kick s v remain)
  destroyed unbonded s v remain =
      if is_zero remain && is_zero v.min_self_delegation
      then remove_validator c s v.operator_address
      else ok (kick s v remain)

  -- The store after the validator gave its minimal self delegation back.
  unfoldable pub destroy_store : Store → Validator → Result Store
  unfolding append_abandoned set_validator delete_validator_by_power_index remove_validator
  destroy_store s v =
      let v' = record v { min_self_delegation = pos 0; jailed = true } in
      destroyed v.status (call_hook s (after_validator_destroyed v.cons_address v.operator_address))
        v' (v.delegator_shares -ℤ c.one_dec)

  -- The store after a validator was written with its minimal self delegation as one share.
  unfoldable pub create_store : Store → Validator → Store
  unfolding set_validator set_validator_by_cons_addr set_new_validator_by_power_index
      delete_validator_by_power_index set_validator_by_power_index
  create_store s v =
      let s₁ = set_validator_by_cons_addr (set_validator s v) v in
      call_hook
        (reweigh c (set_new_validator_by_power_index c s₁ v) v (v.delegator_shares +ℤ c.one_dec))
        (after_validator_created v.operator_address)

module _ {B : Type 0} (c : Chain) (k : Bank B) where
  unfoldable pub withdraw_min_self_delegation : Ledger B → ℕ → Validator → Result (Ledger B)
  unfolding get_undelegating set_undelegating set_addr_by_time_key delete_addr_by_time_key
      destroy_store
  withdraw_min_self_delegation l del_addr v =
      fail_if (is_zero v.min_self_delegation) no_min_self_delegation (
        fail_if (ltb_ℤ (v.delegator_shares -ℤ c.one_dec) (pos 0)) more_min_self_delegation (
          need
            (k.bonded_to_not_bonded l.bank
              (record { denom = k.default_bond_denom; amount = v.min_self_delegation }))
            panicked
            λ b. destroy_store c l.store v >>= λ s. ok (
              merge_msd (record l { store = s; bank = b }) del_addr v.min_self_delegation
                (completion_time_of c) (get_undelegating l del_addr))))

  unfoldable pub handle_msg_destroy_validator : Ledger B → ℕ → Result (Ledger B)
  unfolding get_validator withdraw_min_self_delegation
  handle_msg_destroy_validator l del_addr =
      need (get_validator l.store del_addr) no_validator_found
        λ v. withdraw_min_self_delegation l del_addr v

  unfoldable pub handle_msg_create_validator : Ledger B → MsgCreateValidator → Result (Ledger B)
  unfolding get_validator get_validator_by_cons_addr new_validator create_store
  handle_msg_create_validator l msg =
      fail_if (is_found (get_validator l.store msg.validator_address)) owner_exists (
        fail_if (is_found (get_validator_by_cons_addr l.store msg.cons_address)) pub_key_exists (
          fail_if (not (msg.min_self_delegation.denom == c.bond_denom)) bad_denom (
            fail_if (not msg.is_described) bad_description (
              fail_if (not msg.is_supported) key_type_not_supported (
                let v =
                  new_validator msg.validator_address msg.cons_address
                    msg.min_self_delegation.amount in
                need
                  (k.delegate_coins l.bank msg.delegator_address
                    (record { denom = c.bond_denom; amount = v.min_self_delegation }))
                  bank_failed λ b. ok (record l { store = create_store c l.store v; bank = b }))))))

  -- The description is not part of the record here.
  unfoldable pub handle_msg_edit_validator : Ledger B → ℕ → Bool → Result (Ledger B)
  unfolding get_validator set_validator
  handle_msg_edit_validator l val_addr is_described =
      need (get_validator l.store val_addr) no_validator_found λ v.
        fail_if (not is_described) bad_description
          (ok (record l { store = set_validator l.store v }))
