-- ===== src/Staking/Delegator/Proxy.antt =====
-- A delegator is never a proxy and bound to one at once.
use faxchain.Base.{ℕ, ◌≡◌, refl, Bool, true, false, ◌&&◌, List, [], ◌∷◌, arith}
use faxchain.Staking.Delegator.{
  Delegator, new_delegator, reg_proxy, bind_proxy, unbind_proxy, has_proxy,
}

-- What the handlers do to the proxy fields of a delegator.
pub data Change : Type 0 where
  registers : Bool → Change
  binds : ℕ → Change
  unbinds : Change

module _ {D : Type 0} where
  pub apply : Change → Delegator D → Delegator D
  apply (registers reg) d = reg_proxy d reg
  apply (binds proxy_addr) d = bind_proxy d proxy_addr
  apply unbinds d = unbind_proxy d

  pub apply_all : List Change → Delegator D → Delegator D
  apply_all [] d = d
  apply_all (c ∷ cs) d = apply_all cs (apply c d)

  abbrev IsSingle : Delegator D → Type 0
  IsSingle d = (d.is_proxy && has_proxy d) ≡ false

  apply-IsSingle : (c : Change) (d : Delegator D) → IsSingle d → IsSingle (apply c d)
  unfolding apply reg_proxy bind_proxy unbind_proxy has_proxy
  apply-IsSingle (registers true) d s = refl
  apply-IsSingle (registers false) d s = refl
  apply-IsSingle (binds a) d s = refl
  apply-IsSingle unbinds d s = ground arith

  apply_all-IsSingle : (cs : List Change) (d : Delegator D) → IsSingle d → IsSingle (apply_all cs d)
  unfolding apply_all
  apply_all-IsSingle [] d s = s
  apply_all-IsSingle (c ∷ cs) d s = apply_all-IsSingle cs (apply c d) (apply-IsSingle c d s)

  -- After any registrations, bindings and unbindings of a new delegator, it is not both a proxy
  -- and bound to one.
  pub apply_all-new_delegator :
      (zero_dec : D) (addr : ℕ) (cs : List Change)
      → ((apply_all cs (new_delegator zero_dec addr)).is_proxy
          && has_proxy (apply_all cs (new_delegator zero_dec addr)))
        ≡ false
  unfolding new_delegator
  apply_all-new_delegator zero_dec addr cs =
      apply_all-IsSingle cs (new_delegator zero_dec addr) refl
