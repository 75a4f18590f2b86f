-- ===== src/Staking/Delegator.antt =====
-- A delegator of the staking module (staking/types/delegator.go). The decimals are a parameter, of
-- which only the zero is used. A nil proxy address is `none`.
pub mod Proxy
use faxchain.Base.{ℕ, Bool, true, false, Option, none, some, List, []}

pub record Delegator (D : Type 0) : Type 0 where
  pub delegator_address : ℕ
  pub validator_addresses : List ℕ
  pub shares : D
  pub tokens : D
  pub is_proxy : Bool
  pub total_delegated_tokens : D
  pub proxy_address : Option ℕ

unfoldable pub new_delegator : {D : Type 0} → D → ℕ → Delegator D
new_delegator zero_dec del_addr = record {
  delegator_address = del_addr;
  validator_addresses = [];
  shares = zero_dec;
  tokens = zero_dec;
  is_proxy = false;
  total_delegated_tokens = zero_dec;
  proxy_address = none;
}

abbrev is_bound : Option ℕ → Bool
is_bound none = false
is_bound (some _) = true

module _ {D : Type 0} where
  unfoldable pub unbind_proxy : Delegator D → Delegator D
  unbind_proxy d = record d { proxy_address = none }

  -- Registers or deregisters the identity of a proxy; who becomes one is unbound.
  unfoldable pub reg_proxy : Delegator D → Bool → Delegator D
  unfolding unbind_proxy
  reg_proxy d true = unbind_proxy (record d { is_proxy = true })
  reg_proxy d false = record d { is_proxy = false }

  unfoldable pub bind_proxy : Delegator D → ℕ → Delegator D
  bind_proxy d proxy_addr = record d { proxy_address = some proxy_addr; is_proxy = false }

  unfoldable pub has_proxy : Delegator D → Bool
  has_proxy d = is_bound d.proxy_address

abbrev pub get_share_added_validator_addresses : {D : Type 0} → Delegator D → List ℕ
get_share_added_validator_addresses d = d.validator_addresses

abbrev pub get_last_added_shares : {D : Type 0} → Delegator D → D
get_last_added_shares d = d.shares
