-- ===== src/Staking/Status.antt =====
-- The status of a validator and the queue of those that unbond (staking/keeper/val_state_change.go,
-- validator.go). The times and the addresses that an iterator yields are arguments.
pub mod Queue
pub mod Mature
pub mod Indexed
use faxchain.Base.{
  ℕ, Bool, true, false, not, ◌&&◌, Option, none, some, List, [], ◌∷◌, ◌++◌, GoMap, put_key,
  delete_key, ◌==◌, ltb, ◌+◌, if◌then◌else◌,
}
use faxchain.Base.Int.{ℤ, pos, ◌+ℤ◌, ◌-ℤ◌, ltb_ℤ, eqb_ℤ, is_zero}
use faxchain.Staking.Result.{Result, ok, err, ◌>>=◌, fail_if, need, panicked}
use faxchain.Staking.Store.{
  Chain, Status, unbonded, unbonding, bonded, Validator, Store, is_unbonded, is_bonded,
  is_unbonding, get_validator, set_validator, potential_power, power_by_shares,
  set_validator_by_power_index, delete_validator_by_power_index, call_hook, after_validator_bonded,
  after_validator_begin_unbonding,
}
use faxchain.Staking.Votes.{remove_validator}

abbrev pub set_slice : Store → ℕ → List ℕ → Store
set_slice s t addrs = record s {
  validator_queue = λ u. if u == t then addrs else s.validator_queue u;
}

-- `InsertValidatorQueue`
unfoldable pub insert_validator_queue : Store → Validator → Store
insert_validator_queue s v =
    set_slice s v.unbonding_completion_time
      (s.validator_queue v.unbonding_completion_time ++ (v.operator_address ∷ []))

abbrev pub without : ℕ → List ℕ → List ℕ
without a [] = []
without a (b ∷ rest) = if b == a then without a rest else b ∷ without a rest

-- `DeleteValidatorQueue`; an empty slice and a missing one are the same.
unfoldable pub delete_validator_queue : Store → Validator → Store
delete_validator_queue s v =
    set_slice s v.unbonding_completion_time
      (without v.operator_address (s.validator_queue v.unbonding_completion_time))

unfoldable pub jail_validator : Chain → Store → Validator → Result Store
unfolding set_validator delete_validator_by_power_index
jail_validator c s v = fail_if v.jailed panicked (
    let v' = record v { jailed = true } in
    ok (delete_validator_by_power_index c (set_validator s v') v'))

unfoldable pub unjail_validator : Chain → Store → Validator → Result Store
unfolding set_validator set_validator_by_power_index
unjail_validator c s v = fail_if (not v.jailed) panicked (
    let v' = record v { jailed = false } in
    ok (set_validator_by_power_index c (set_validator s v') v'))

unfoldable pub complete_unbonding_validator : Store → Validator → Store × Validator
unfolding set_validator
complete_unbonding_validator s v =
    let v' = record v { status = unbonded } in (set_validator s v', v')

unfoldable pub unbonding_to_unbonded : Store → Validator → Result (Store × Validator)
unfolding complete_unbonding_validator
unbonding_to_unbonded s v =
    fail_if (not (is_unbonding v.status)) panicked (ok (complete_unbonding_validator s v))

module _ (c : Chain) where
  unfoldable pub bond_validator : Store → Validator → Store × Validator
  unfolding delete_validator_by_power_index set_validator set_validator_by_power_index
      delete_validator_queue
  bond_validator s v =
      let v' = record v { status = bonded } in
      let s₁ = set_validator (delete_validator_by_power_index c s v) v' in
      let s₂ = delete_validator_queue (set_validator_by_power_index c s₁ v') v' in
      (call_hook s₂ (after_validator_bonded v'.cons_address v'.operator_address), v')

  -- A validator that unbonds from the block on.
  abbrev pub begun : Validator → Validator
  begun v = record v {
    status = unbonding;
    unbonding_completion_time = c.now + c.unbonding_time;
    unbonding_height = c.height;
  }

  abbrev pub begin_store : Store → Validator → Validator → Store
  begin_store s v v' =
      let s₁ = set_validator (delete_validator_by_power_index c s v) v' in
      call_hook (insert_validator_queue (set_validator_by_power_index c s₁ v') v')
        (after_validator_begin_unbonding v'.cons_address v'.operator_address)

  unfoldable pub begin_unbonding_validator : Store → Validator → Result (Store × Validator)
  unfolding delete_validator_by_power_index set_validator set_validator_by_power_index
      insert_validator_queue
  begin_unbonding_validator s v =
      fail_if (not (is_bonded v.status)) panicked (ok (begin_store s v (begun v), begun v))

  unfoldable pub bonded_to_unbonding : Store → Validator → Result (Store × Validator)
  unfolding begin_unbonding_validator
  bonded_to_unbonding s v =
      fail_if (not (is_bonded v.status)) panicked (begin_unbonding_validator s v)

  unfoldable pub unbonding_to_bonded : Store → Validator → Result (Store × Validator)
  unfolding bond_validator
  unbonding_to_bonded s v = fail_if (not (is_unbonding v.status)) panicked (ok (bond_validator s v))

  unfoldable pub unbonded_to_bonded : Store → Validator → Result (Store × Validator)
  unfolding bond_validator
  unbonded_to_bonded s v = fail_if (not (is_unbonded v.status)) panicked (ok (bond_validator s v))

  -- An unbonded validator without shares and self delegation is removed.
  abbrev pub settle : Store × Validator → Result Store
  settle (s, v) =
      if is_zero v.delegator_shares && is_zero v.min_self_delegation
      then remove_validator c s v.operator_address
      else ok s

  abbrev pub mature_one : Store → ℕ → Result Store
  mature_one s a = need (get_validator s a) panicked λ v.
      fail_if (not (is_unbonding v.status)) panicked (unbonding_to_unbonded s v >>= λ r. settle r)

  -- The validators of a slice.
  unfoldable pub mature_slice : Store → List ℕ → Result Store
  unfolding get_validator unbonding_to_unbonded remove_validator
  mature_slice s [] = ok s
  mature_slice s (a ∷ rest) = mature_one s a >>= λ s₁. mature_slice s₁ rest

  -- `UnbondAllMatureValidatorQueue` over the times up to that of the block.
  unfoldable pub unbond_all_mature : Store → List ℕ → Result Store
  unfolding mature_slice
  unbond_all_mature s [] = ok s
  unbond_all_mature s (t ∷ times) =
      mature_slice s (s.validator_queue t) >>= λ s₁. unbond_all_mature (set_slice s₁ t []) times
