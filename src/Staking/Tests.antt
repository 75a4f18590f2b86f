-- ===== src/Staking/Tests.antt =====
-- The theorems on delegators at a concrete one, with numbers for the decimals.
use faxchain.Base.{ℕ, ◌≡◌, true, false, ◌&&◌, List, [], ◌∷◌}
use faxchain.Staking.Delegator.{new_delegator, has_proxy}
use faxchain.Staking.Delegator.Proxy.{Change, registers, binds, apply_all, apply_all-new_delegator}

abbrev changes : List Change
changes = registers true ∷ binds 4 ∷ registers true ∷ registers false ∷ binds 5 ∷ []

apply_all-new_delegator_example :
    ((apply_all {D = ℕ} changes (new_delegator 0 3)).is_proxy
      && has_proxy (apply_all {D = ℕ} changes (new_delegator 0 3)))
    ≡ false
apply_all-new_delegator_example = apply_all-new_delegator {D = ℕ} 0 3 changes
