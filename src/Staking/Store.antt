-- ===== src/Staking/Store.antt =====
-- The store of the staking keeper (staking/keeper/delegator.go, shares.go, validator.go, proxy.go,
-- val_state.go): delegators, validators, shares, bindings to proxies, and the indices of the
-- validators. Decimals are their raw integers. The description and the commission of a validator
-- are left out. The calls of the hooks of other modules are kept in their order, the newest first.
use mathlib.Core.Option
use faxchain.Base.{
  ℕ, Bool, true, false, ◌&&◌, Option, none, some, List, ◌∷◌, GoMap, put_key, delete_key, ◌==◌, leb,
  ◌-◌, ◌/◌, if◌then◌else◌,
}
use faxchain.Base.Int.{ℤ, pos, minus, eqb_ℤ}
use faxchain.Staking.Delegator.{Delegator}

-- What the module takes from elsewhere at a block: the decimal of a number of weeks over the weeks
-- of a year, which is printed from a float and parsed, the product of decimals, the power of an
-- amount of shares (`QuoInt` and `Int64`), the decimal one, and the parameters.
pub record Chain : Type 0 where
  pub format_weeks : ℤ → Option ℤ
  pub mul : ℤ → ℤ → ℤ
  pub consensus_power : ℤ → ℤ
  pub one_dec : ℤ
  pub min_delegation : ℤ
  pub max_vals_to_add_shares : ℕ
  pub bond_denom : ℕ
  pub height : ℕ
  pub now : ℕ
  pub unbonding_time : ℕ
  pub level_up_height : ℕ
  pub level_up_unbonding_time : ℕ

pub data Status : Type 0 where
  unbonded unbonding bonded : Status

pub record Validator : Type 0 where
  pub operator_address : ℕ
  pub cons_address : ℕ
  pub jailed : Bool
  pub status : Status
  pub tokens : ℤ
  pub delegator_shares : ℤ
  pub unbonding_height : ℕ
  pub unbonding_completion_time : ℕ
  pub min_self_delegation : ℤ

pub data Hook : Type 0 where
  after_validator_created : ℕ → Hook
  after_validator_removed after_validator_bonded after_validator_begin_unbonding : ℕ → ℕ → Hook
  after_validator_destroyed : ℕ → ℕ → Hook

pub record Store : Type 0 where
  pub delegators : GoMap (Delegator ℤ)
  pub validators : GoMap Validator
  pub by_cons_addr : GoMap ℕ
  pub shares : ℕ → GoMap ℤ
  pub bindings : ℕ → ℕ → Bool
  pub power_index : ℤ → ℕ → Bool
  pub last_powers : GoMap ℤ
  pub last_total_power : ℤ
  pub validator_queue : ℕ → List ℕ
  pub abandoned : List ℕ
  pub hooks : List Hook

abbrev pub is_bonded : Status → Bool
is_bonded bonded = true
is_bonded _ = false

abbrev pub is_unbonded : Status → Bool
is_unbonded unbonded = true
is_unbonded _ = false

abbrev pub is_unbonding : Status → Bool
is_unbonding unbonding = true
is_unbonding _ = false

unfoldable pub get_delegator : Store → ℕ → Option (Delegator ℤ)
get_delegator s addr = s.delegators addr

unfoldable pub set_delegator : Store → Delegator ℤ → Store
set_delegator s d = record s { delegators = put_key d.delegator_address d s.delegators }

unfoldable pub delete_delegator : Store → ℕ → Store
delete_delegator s addr = record s { delegators = delete_key addr s.delegators }

unfoldable pub get_shares : Store → ℕ → ℕ → Option ℤ
get_shares s del_addr val_addr = s.shares val_addr del_addr

unfoldable pub set_shares : Store → ℕ → ℕ → ℤ → Store
set_shares s del_addr val_addr x = record s {
  shares = λ v. if v == val_addr then put_key del_addr x (s.shares v) else s.shares v;
}

unfoldable pub delete_shares : Store → ℕ → ℕ → Store
delete_shares s val_addr del_addr = record s {
  shares = λ v. if v == val_addr then delete_key del_addr (s.shares v) else s.shares v;
}

unfoldable pub get_validator : Store → ℕ → Option Validator
get_validator s addr = s.validators addr

unfoldable pub set_validator : Store → Validator → Store
set_validator s v = record s { validators = put_key v.operator_address v s.validators }

abbrev by_address : Store → Option ℕ → Option Validator
by_address s none = none
by_address s (some addr) = s.validators addr

unfoldable pub get_validator_by_cons_addr : Store → ℕ → Option Validator
get_validator_by_cons_addr s cons_addr = by_address s (s.by_cons_addr cons_addr)

unfoldable pub set_validator_by_cons_addr : Store → Validator → Store
set_validator_by_cons_addr s v = record s {
  by_cons_addr = put_key v.cons_address v.operator_address s.by_cons_addr;
}

unfoldable pub set_proxy_binding : Store → ℕ → ℕ → Bool → Store
set_proxy_binding s proxy del_addr is_remove = record s {
  bindings = λ p d.
      if (p == proxy) && (d == del_addr)
      then (if is_remove then false else true)
      else s.bindings p d;
}

abbrev pub call_hook : Store → Hook → Store
call_hook s h = record s { hooks = h ∷ s.hooks }

abbrev pub block_timestamp_epoch : ℕ
block_timestamp_epoch = 1625439902

abbrev pub seconds_per_week : ℕ
seconds_per_week = 604800

-- The whole weeks since the epoch, rounded to zero.
abbrev pub now_week : ℕ → ℤ
now_week t =
    if leb block_timestamp_epoch t
    then pos ((t - block_timestamp_epoch) / seconds_per_week)
    else minus 0 ((block_timestamp_epoch - t) / seconds_per_week)

module _ (c : Chain) where
  unfoldable pub calculate_weight : ℤ → Option ℤ
  calculate_weight tokens = Option.map (λ w. c.mul tokens w) (c.format_weeks (now_week c.now))

  -- `PotentialConsensusPowerByShares`
  abbrev pub potential_power : Validator → ℤ
  potential_power v = c.consensus_power v.delegator_shares

  -- `ConsensusPowerByShares`
  abbrev pub power_by_shares : Validator → ℤ
  power_by_shares v = if is_bonded v.status then potential_power v else pos 0

  -- The key of a validator in the index is its power with its address.
  abbrev pub mark_power : Store → Validator → Bool → Store
  mark_power s v b = record s {
    power_index = λ p a.
        if eqb_ℤ p (potential_power v) && (a == v.operator_address) then b else s.power_index p a;
  }

  -- A jailed validator is not put into the index.
  unfoldable pub set_validator_by_power_index : Store → Validator → Store
  set_validator_by_power_index s v = if v.jailed then s else mark_power s v true

  unfoldable pub delete_validator_by_power_index : Store → Validator → Store
  delete_validator_by_power_index s v = mark_power s v false

  unfoldable pub set_new_validator_by_power_index : Store → Validator → Store
  set_new_validator_by_power_index s v = mark_power s v true
