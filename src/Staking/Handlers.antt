-- ===== src/Staking/Handlers.antt =====
-- The messages about shares and proxies (staking/handler_shares.go, staking/keeper/proxy.go). The
-- keys that an iterator yields are an argument.
pub mod Sound
pub mod Messages
pub mod Revote
pub mod Outcomes
pub mod Refines
use faxchain.Base.{
  ℕ, Bool, true, false, not, ◌&&◌, Option, none, some, List, [], ◌∷◌, map, length, ◌==◌, ltb,
  if◌then◌else◌,
}
use faxchain.Base.Int.{ℤ, pos, ◌+ℤ◌, negate, eqb_ℤ, is_zero}
use faxchain.Staking.Delegator.{Delegator, has_proxy, unbind_proxy, bind_proxy, reg_proxy}
use faxchain.Staking.Result.{
  Result, ok, err, ◌>>=◌, fail_if, need, report_as, no_delegation, already_added_shares,
  proxy_not_found, double_proxy, proxy_already_exists, already_bound, invalid_delegation,
  add_shares_during_proxy, add_shares_to_dismission, empty_validators, exceed_validators,
}
use faxchain.Staking.Store.{
  Chain, Validator, Store, get_delegator, set_delegator, set_proxy_binding,
}
use faxchain.Staking.Votes.{
  get_last_vals, get_validators_to_add_shares, withdraw_last_shares, add_shares_to_validators,
  update_shares, update_proxy,
}

-- No delegator stands under an empty address.
abbrev pub get_proxy : Store → Option ℕ → Option (Delegator ℤ)
get_proxy s none = none
get_proxy s (some proxy_addr) = s.delegators proxy_addr

abbrev pub is_same_proxy : Option ℕ → ℕ → Bool
is_same_proxy none a = false
is_same_proxy (some p) a = p == a

abbrev pub clear_found : Store → Option (Delegator ℤ) → Store
clear_found s none = s
clear_found s (some d) = set_delegator s (unbind_proxy d)

abbrev pub clear_one : Store → ℕ → ℕ → Store
clear_one s proxy_addr del_addr =
    set_proxy_binding (clear_found s (get_delegator s del_addr)) proxy_addr del_addr true

-- `ClearProxy` over the delegators whose keys are iterated.
unfoldable pub clear_proxy : Store → ℕ → List ℕ → Store
unfolding get_delegator set_delegator set_proxy_binding unbind_proxy
clear_proxy s proxy_addr [] = s
clear_proxy s proxy_addr (del_addr ∷ rest) =
    clear_proxy (clear_one s proxy_addr del_addr) proxy_addr rest

unfoldable pub is_dismissed : List Validator → Bool
is_dismissed [] = false
is_dismissed (v ∷ vs) = if is_zero v.min_self_delegation then true else is_dismissed vs

-- Whether the shares can be added, or why they cannot.
unfoldable pub validate_shares_adding {ℓ} : {A : Type ℓ} → List Validator → Result A → Result A
unfolding is_dismissed
validate_shares_adding [] next = err empty_validators
validate_shares_adding (v ∷ vs) next = fail_if (is_dismissed (v ∷ vs)) add_shares_to_dismission next

abbrev pub get_vals_addrs : List Validator → List ℕ
get_vals_addrs vs = map (λ v. v.operator_address) vs

module _ (c : Chain) where
  -- `unbindProxy`
  unfoldable pub unbind_proxy_of : Store → ℕ → Result Store
  unfolding get_delegator update_proxy set_delegator set_proxy_binding unbind_proxy
  unbind_proxy_of s del_addr = need (get_delegator s del_addr) no_delegation λ delegator.
      need (get_proxy s delegator.proxy_address) proxy_not_found λ proxy.
        report_as invalid_delegation (update_proxy c s delegator (negate delegator.tokens))
        >>= λ s₁. ok (
            set_proxy_binding (set_delegator s₁ (unbind_proxy delegator)) proxy.delegator_address
              delegator.delegator_address true)

  abbrev pub unbind_first : Store → Delegator ℤ → Result Store
  unbind_first s d = if has_proxy d then unbind_proxy_of s d.delegator_address else ok s

  -- The last part of binding: the relation is written, and the shares of the proxy follow.
  abbrev pub bind_to : Store → Delegator ℤ → ℕ → Delegator ℤ → Result Store
  bind_to s delegator proxy_addr proxy =
      let total = proxy.total_delegated_tokens +ℤ delegator.tokens in
      let s₁ = set_delegator s (bind_proxy delegator proxy_addr) in
      let s₂ = set_delegator s₁ (record proxy { total_delegated_tokens = total }) in
      let s₃ = set_proxy_binding s₂ proxy.delegator_address delegator.delegator_address false in
      report_as invalid_delegation
        (update_shares c s₃ proxy.delegator_address (total +ℤ proxy.tokens))

  unfoldable pub handle_msg_bind_proxy : Store → ℕ → ℕ → Result Store
  unfolding get_delegator has_proxy update_shares set_delegator set_proxy_binding unbind_proxy_of
      bind_proxy
  handle_msg_bind_proxy s del_addr proxy_addr =
      need (get_delegator s del_addr) no_delegation λ delegator.
        fail_if (is_zero delegator.tokens) no_delegation (
          fail_if (not (eqb_ℤ delegator.shares (pos 0))) already_added_shares (
            need (get_delegator s proxy_addr) proxy_not_found λ proxy.
              fail_if (is_zero proxy.tokens) proxy_not_found (
                fail_if (not proxy.is_proxy) proxy_not_found (
                  fail_if delegator.is_proxy double_proxy (
                    if is_same_proxy delegator.proxy_address proxy.delegator_address
                    then report_as invalid_delegation (
                        update_shares c s proxy.delegator_address
                          (proxy.total_delegated_tokens +ℤ proxy.tokens))
                    else (unbind_first s delegator >>= λ s₁.
                        bind_to s₁ delegator proxy_addr proxy))))))

  unfoldable pub handle_msg_unbind_proxy : Store → ℕ → Result Store
  unfolding unbind_proxy_of
  handle_msg_unbind_proxy s del_addr = unbind_proxy_of s del_addr

  -- `regProxy`
  unfoldable pub reg_proxy_of : Store → ℕ → Result Store
  unfolding get_delegator set_delegator reg_proxy update_shares has_proxy
  reg_proxy_of s proxy_addr = need (get_delegator s proxy_addr) no_delegation λ proxy.
      fail_if proxy.is_proxy proxy_already_exists (
        fail_if (has_proxy proxy) already_bound (
          report_as invalid_delegation (
            update_shares c (set_delegator s (reg_proxy proxy true)) proxy.delegator_address
              proxy.tokens)))

  -- `unregProxy`
  unfoldable pub unreg_proxy_of : Store → ℕ → List ℕ → Result Store
  unfolding get_delegator set_delegator reg_proxy update_shares clear_proxy
  unreg_proxy_of s proxy_addr bound = need (get_delegator s proxy_addr) proxy_not_found λ proxy.
      fail_if (not proxy.is_proxy) proxy_not_found (
        report_as invalid_delegation (
          update_shares c
            (set_delegator (clear_proxy s proxy.delegator_address bound)
              (record (reg_proxy proxy false) { total_delegated_tokens = pos 0 }))
            proxy.delegator_address proxy.tokens))

  unfoldable pub handle_reg_proxy : Store → ℕ → Bool → List ℕ → Result Store
  unfolding reg_proxy_of unreg_proxy_of
  handle_reg_proxy s proxy_addr reg bound =
      if reg then reg_proxy_of s proxy_addr else unreg_proxy_of s proxy_addr bound

  -- The votes of a delegator are withdrawn and given anew.
  abbrev pub revote : Store → ℕ → Delegator ℤ → List ℕ → Result Store
  revote s del_addr delegator val_addrs =
      let (last_vals, last_shares) = get_last_vals s del_addr in
      withdraw_last_shares c del_addr s last_vals last_shares >>= λ s₁.
      get_validators_to_add_shares s₁ val_addrs >>= λ vals. validate_shares_adding vals (
        add_shares_to_validators c del_addr s₁ vals
          (delegator.tokens +ℤ delegator.total_delegated_tokens)
        >>= λ r. ok (
            set_delegator r.1
              (record delegator { validator_addresses = get_vals_addrs vals; shares = r.0 })))

  unfoldable pub handle_msg_add_shares : Store → ℕ → List ℕ → Result Store
  unfolding get_delegator has_proxy get_last_vals withdraw_last_shares get_validators_to_add_shares
      validate_shares_adding add_shares_to_validators set_delegator
  handle_msg_add_shares s del_addr val_addrs = fail_if (length val_addrs == 0) empty_validators (
      fail_if (ltb c.max_vals_to_add_shares (length val_addrs)) exceed_validators (
        need (get_delegator s del_addr) no_delegation λ delegator.
          fail_if (is_zero delegator.tokens) no_delegation (
            fail_if (has_proxy delegator) add_shares_during_proxy
              (revote s del_addr delegator val_addrs))))
