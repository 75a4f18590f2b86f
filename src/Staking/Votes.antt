-- ===== src/Staking/Votes.antt =====
-- The shares that a delegator adds to validators (staking/keeper/proxy.go, validator.go,
-- delegation.go). A loop over validators works on the records that were read before it.
pub mod Effects
pub mod Sums
pub mod Sound
pub mod Preserve
pub mod Recast
pub mod Kept
use faxchain.Base.{
  ℕ, Bool, true, false, not, ◌&&◌, Option, none, some, List, [], ◌∷◌, delete_key, ◌==◌,
  if◌then◌else◌,
}
use faxchain.Base.Int.{ℤ, pos, ◌+ℤ◌, ◌-ℤ◌, ltb_ℤ, eqb_ℤ, is_zero}
use faxchain.Staking.Delegator.{Delegator, has_proxy}
use faxchain.Staking.Result.{
  Result, ok, err, ◌>>=◌, fail_if, need, weight_failed, no_delegator, add_shares_to_dismission,
  no_validator_found, invalid_proxy_updating, invalid_address, panicked,
}
use faxchain.Staking.Store.{
  Chain, Validator, Store, is_unbonded, calculate_weight, after_validator_removed, get_delegator,
  set_delegator, set_shares, delete_shares, get_validator, set_validator, call_hook, mark_power,
  set_validator_by_power_index, delete_validator_by_power_index,
}

abbrev pub keep_found : Option Validator → List Validator → List Validator
keep_found none vs = vs
keep_found (some v) vs = v ∷ vs

-- The validators of a list of addresses that are still there.
unfoldable pub existing : Store → List ℕ → List Validator
unfolding get_validator
existing s [] = []
existing s (a ∷ addrs) = keep_found (get_validator s a) (existing s addrs)

abbrev pub last_vals_of : Store → Option (Delegator ℤ) → List Validator × ℤ
last_vals_of s none = ([], pos 0)
last_vals_of s (some d) = (existing s d.validator_addresses, d.shares)

-- `GetLastValsAddedSharesExisted`
unfoldable pub get_last_vals : Store → ℕ → List Validator × ℤ
unfolding existing get_delegator get_validator
get_last_vals s del_addr = last_vals_of s (get_delegator s del_addr)

-- All of the validators, or an error.
unfoldable pub get_validators_to_add_shares : Store → List ℕ → Result (List Validator)
unfolding get_validator
get_validators_to_add_shares s [] = ok []
get_validators_to_add_shares s (a ∷ addrs) =
    need (get_validator s a) no_validator_found
      (λ v. get_validators_to_add_shares s addrs >>= λ vs. ok (v ∷ vs))

-- Whether a withdrawal leaves an unbonded validator without shares and self delegation.
abbrev pub leaves_nothing : Validator → ℤ → Bool
leaves_nothing v x =
    is_unbonded v.status && is_zero v.min_self_delegation && is_zero (v.delegator_shares -ℤ x)

module _ (c : Chain) where
  -- The records of a validator that is removed.
  abbrev pub erase_validator : Store → ℕ → Validator → Store
  erase_validator s addr v =
      let s' = delete_validator_by_power_index c s v in
      call_hook
        (record s' {
          validators = delete_key addr s.validators;
          by_cons_addr = delete_key v.cons_address s.by_cons_addr;
        })
        (after_validator_removed v.cons_address v.operator_address)

  abbrev remove_found : Store → ℕ → Option Validator → Result Store
  remove_found s addr none = ok s
  remove_found s addr (some v) =
      fail_if (not (is_unbonded v.status)) panicked
        (fail_if (ltb_ℤ (pos 0) v.tokens) panicked (ok (erase_validator s addr v)))

  unfoldable pub remove_validator : Store → ℕ → Result Store
  unfolding get_validator delete_validator_by_power_index
  remove_validator s addr = remove_found s addr (get_validator s addr)

  -- A validator is written with other shares, and its place in the index follows.
  abbrev pub reweigh : Store → Validator → ℤ → Store
  reweigh s v x =
      let v' = record v { delegator_shares = x } in
      set_validator_by_power_index c (set_validator (delete_validator_by_power_index c s v) v') v'

  unfoldable pub add_shares : ℕ → Store → Validator → ℤ → Store
  unfolding set_shares delete_validator_by_power_index set_validator set_validator_by_power_index
  add_shares del_addr s v x =
      reweigh (set_shares s del_addr v.operator_address x) v (v.delegator_shares +ℤ x)

  abbrev pub withdraw_left : Store → Validator → ℤ → Bool → Result Store
  withdraw_left s v x true =
      remove_validator (delete_validator_by_power_index c s v) v.operator_address
  withdraw_left s v x false = ok (reweigh s v (v.delegator_shares -ℤ x))

  -- A validator that is left without shares and self delegation is removed.
  unfoldable pub withdraw_shares : ℕ → Store → Validator → ℤ → Result Store
  unfolding delete_shares delete_validator_by_power_index set_validator set_validator_by_power_index
      remove_validator
  withdraw_shares del_addr s v x =
      withdraw_left (delete_shares s v.operator_address del_addr) v x (leaves_nothing v x)

  unfoldable pub withdraw_last_shares : ℕ → Store → List Validator → ℤ → Result Store
  unfolding withdraw_shares
  withdraw_last_shares del_addr s [] x = ok s
  withdraw_last_shares del_addr s (v ∷ vs) x =
      withdraw_shares del_addr s v x >>= λ s'. withdraw_last_shares del_addr s' vs x

  unfoldable pub add_shares_each : ℕ → Store → List Validator → ℤ → Store
  unfolding add_shares
  add_shares_each del_addr s [] x = s
  add_shares_each del_addr s (v ∷ vs) x = add_shares_each del_addr (add_shares del_addr s v x) vs x

  unfoldable pub add_shares_to_validators : ℕ → Store → List Validator → ℤ → Result (ℤ × Store)
  unfolding add_shares_each calculate_weight
  add_shares_to_validators del_addr s vals tokens =
      need (calculate_weight c tokens) weight_failed
        (λ shares. ok (shares, add_shares_each del_addr s vals shares))

  -- The loop of `UpdateShares`.
  unfoldable pub update_each : ℕ → Store → List Validator → ℤ → ℤ → Result Store
  unfolding set_shares delete_validator_by_power_index set_validator set_validator_by_power_index
  update_each del_addr s [] last_shares shares = ok s
  update_each del_addr s (v ∷ vs) last_shares shares =
      fail_if (is_zero v.min_self_delegation) add_shares_to_dismission (
        update_each del_addr
          (reweigh (set_shares s del_addr v.operator_address shares) v
            (v.delegator_shares -ℤ last_shares +ℤ shares))
          vs last_shares shares)

  abbrev pub update_vals : ℕ → Store → ℤ → List Validator → ℤ → Result Store
  update_vals del_addr s tokens [] last_shares = ok s
  update_vals del_addr s tokens (v ∷ vs) last_shares =
      need (calculate_weight c tokens) weight_failed λ shares.
        need (get_delegator s del_addr) no_delegator λ d.
          update_each del_addr s (v ∷ vs) last_shares shares >>= λ s'.
          ok (set_delegator s' (record d { shares = shares }))

  -- A delegator without validators is passed over.
  unfoldable pub update_shares : Store → ℕ → ℤ → Result Store
  unfolding get_last_vals update_each calculate_weight get_delegator set_delegator
  update_shares s del_addr tokens =
      let (vals, last_shares) = get_last_vals s del_addr in
      update_vals del_addr s tokens vals last_shares

  abbrev pub update_found : Store → Option ℕ → ℤ → Result Store
  update_found s none tokens = ok s
  update_found s (some proxy_addr) tokens =
      need (get_delegator s proxy_addr) invalid_address λ proxy.
        let total = proxy.total_delegated_tokens +ℤ tokens in
        fail_if (ltb_ℤ total (pos 0)) invalid_proxy_updating (
          update_shares (set_delegator s (record proxy { total_delegated_tokens = total }))
            proxy.delegator_address (total +ℤ proxy.tokens))

  -- `UpdateProxy`: the amount may be negative.
  unfoldable pub update_proxy : Store → Delegator ℤ → ℤ → Result Store
  unfolding update_shares get_delegator set_delegator
  update_proxy s d tokens = update_found s d.proxy_address tokens
