-- ===== src/Staking/Handlers/Sound.antt =====
-- Each message about shares and proxies keeps the shares of the validators and of the delegators
-- fitting.
use faxchain.Base.{
  ℕ, ◌≡◌, refl, sym, ap, ◌∙◌, subst, Bool, true, false, Option, none, some, List, ◌==◌,
  if◌then◌else◌, arith,
}
use faxchain.Base.Int.{ℤ, pos, ◌+ℤ◌, negate, ltb_ℤ}
use faxchain.Staking.Delegator.{Delegator, unbind_proxy}
use faxchain.Staking.Result.{
  ok, Error, >>=-eq-ok, fail_if-eq-ok, need-eq-ok, report_as, report_as-eq-ok, ok_inj,
  invalid_proxy_updating, invalid_delegation, proxy_not_found,
}
use faxchain.Staking.Store.{Chain, Store, get_delegator, set_delegator, set_proxy_binding}
use faxchain.Staking.Votes.{update_shares, update_proxy, update_found}
use faxchain.Staking.Votes.Sound.{IsSound}
use faxchain.Staking.Votes.Kept.{update_shares-Kept}
use faxchain.Staking.Votes.Sums.{count}
use faxchain.Staking.Votes.Preserve.{update_shares-IsSound, set_delegator-IsSound}
use faxchain.Staking.Handlers.{get_proxy, unbind_proxy_of}

module _ (c : Chain) (addrs : List ℕ) where
  pub keeps_apart :
      (s : Store) (a : ℕ) (d : Delegator ℤ)
      → IsSound c.one_dec addrs s
      → s.delegators a ≡ some d
      → (p : ℕ) → d.proxy_address ≡ some p
      → (d.delegator_address == p) ≡ false
  keeps_apart s a d sound there p q =
      ap (λ z. z == p) (sound.del_home a d there) ∙ sound.apart a d p there q

  -- A delegator that is read from the store and written with the same votes.
  pub rewrite-IsSound :
      (s : Store) (a : ℕ) (d d' : Delegator ℤ)
      → IsSound c.one_dec addrs s
      → s.delegators a ≡ some d
      → d'.delegator_address ≡ d.delegator_address
      → d'.validator_addresses ≡ d.validator_addresses
      → d'.shares ≡ d.shares
      → ((p : ℕ) → d'.proxy_address ≡ some p → (d.delegator_address == p) ≡ false)
      → IsSound c.one_dec addrs (set_delegator s d')
  rewrite-IsSound s a d d' sound there addr votes shares free =
      let at = sound.del_home a d there in
      let there' : s.delegators d'.delegator_address ≡ some d =
        ap s.delegators (addr ∙ at) ∙ there in
      set_delegator-IsSound c addrs s d' sound
        (ap (λ z. count z addrs) (addr ∙ at) ∙ sound.roll a d there)
        (λ p q. ap (λ z. z == p) addr ∙ free p q) (λ j. ground (arith, there', votes, shares))

  pub set_proxy_binding-IsSound :
      (s : Store) (p a : ℕ) (b : Bool)
      → IsSound c.one_dec addrs s
      → IsSound c.one_dec addrs (set_proxy_binding s p a b)
  unfolding set_proxy_binding
  set_proxy_binding-IsSound s p a b sound = record {
    home = sound.home;
    del_home = sound.del_home;
    roll = sound.roll;
    apart = sound.apart;
    voted = sound.voted;
    adds_up = sound.adds_up;
  }

  pub update_found-IsSound :
      (s s' : Store) (p : Option ℕ) (x : ℤ)
      → IsSound c.one_dec addrs s
      → update_found c s p x ≡ ok s'
      → IsSound c.one_dec addrs s'
  unfolding get_delegator
  update_found-IsSound s s' none x sound e = subst (IsSound c.one_dec addrs) (ok_inj e) sound
  update_found-IsSound s s' (some p) x sound e =
      let (d, there, e₁) = need-eq-ok (s.delegators p) _ _ e in
      let t = d.total_delegated_tokens +ℤ x in
      let s₁ = set_delegator s (record d { total_delegated_tokens = t }) in
      let (_, e₂) = fail_if-eq-ok (ltb_ℤ t (pos 0)) invalid_proxy_updating _ e₁ in
      update_shares-IsSound c addrs s₁ s' d.delegator_address (t +ℤ d.tokens)
        (rewrite-IsSound s p d _ sound there refl refl refl (keeps_apart s p d sound there)) e₂

  pub update_proxy-IsSound :
      (s s' : Store) (d : Delegator ℤ) (x : ℤ)
      → IsSound c.one_dec addrs s
      → update_proxy c s d x ≡ ok s'
      → IsSound c.one_dec addrs s'
  unfolding update_proxy
  update_proxy-IsSound s s' d x sound e = update_found-IsSound s s' d.proxy_address x sound e

  pub report_update-IsSound :
      (s s' : Store) (a : ℕ) (x : ℤ) (f : Error)
      → IsSound c.one_dec addrs s
      → report_as f (update_shares c s a x) ≡ ok s'
      → IsSound c.one_dec addrs s'
  report_update-IsSound s s' a x f sound e =
      update_shares-IsSound c addrs s s' a x sound (report_as-eq-ok f (update_shares c s a x) e)

  -- What changes a proxy leaves the one who is bound to it as it was.
  pub update_found-others :
      (s s' : Store) (p : Option ℕ) (x : ℤ) (a : ℕ)
      → IsSound c.one_dec addrs s
      → ((q : ℕ) → p ≡ some q → (a == q) ≡ false)
      → update_found c s p x ≡ ok s'
      → s'.delegators a ≡ s.delegators a
  unfolding get_delegator set_delegator
  update_found-others s s' none x a sound free e =
      ap (λ (z : Store). z.delegators a) (sym (ok_inj e))
  update_found-others s s' (some p) x a sound free e =
      let (d, there, e₁) = need-eq-ok (s.delegators p) _ _ e in
      let t = d.total_delegated_tokens +ℤ x in
      let s₁ = set_delegator s (record d { total_delegated_tokens = t }) in
      let (_, e₂) = fail_if-eq-ok (ltb_ℤ t (pos 0)) invalid_proxy_updating _ e₁ in
      let at = sound.del_home p d there in
      let away : (a == d.delegator_address) ≡ false = ap (λ z. a == z) at ∙ free p refl in
      let k =
        update_shares-Kept c addrs s₁ s' d.delegator_address (t +ℤ d.tokens)
          (rewrite-IsSound s p d _ sound there refl refl refl (keeps_apart s p d sound there)) e₂ in
      k.others a away ∙ ground (arith, away)

  pub unbind_proxy_of-IsSound :
      (s s' : Store) (a : ℕ)
      → IsSound c.one_dec addrs s
      → unbind_proxy_of c s a ≡ ok s'
      → IsSound c.one_dec addrs s'
  unfolding unbind_proxy_of update_proxy get_delegator unbind_proxy
  unbind_proxy_of-IsSound s s' a sound e =
      let (d, there, e₁) = need-eq-ok (s.delegators a) _ _ e in
      let (p, _, e₂) = need-eq-ok (get_proxy s d.proxy_address) proxy_not_found _ e₁ in
      let (s₁, e₃, e₄) =
        >>=-eq-ok
          (report_as invalid_delegation (update_found c s d.proxy_address (negate d.tokens))) _
          e₂ in
      let e₅ =
        report_as-eq-ok invalid_delegation (update_found c s d.proxy_address (negate d.tokens))
          e₃ in
      let sound₁ = update_found-IsSound s s₁ d.proxy_address (negate d.tokens) sound e₅ in
      let there₁ =
        update_found-others s s₁ d.proxy_address (negate d.tokens) a sound
          (λ q r. sound.apart a d q there r) e₅
        ∙ there in
      subst (IsSound c.one_dec addrs) (ok_inj e₄) (
        set_proxy_binding-IsSound _ p.delegator_address d.delegator_address true
          (rewrite-IsSound s₁ a d _ sound₁ there₁ refl refl refl (λ q r. absurd (cc))))

  -- The one who is unbound, and those who are neither this one nor the proxy.
  pub unbind_proxy_of-others :
      (s s' : Store) (a : ℕ) (d : Delegator ℤ)
      → IsSound c.one_dec addrs s
      → s.delegators a ≡ some d
      → unbind_proxy_of c s a ≡ ok s'
      → (s'.delegators a ≡ some (unbind_proxy d))
        × ((b : ℕ)
            → (b == a) ≡ false
            → ((q : ℕ) → d.proxy_address ≡ some q → (b == q) ≡ false)
            → s'.delegators b ≡ s.delegators b)
  unfolding unbind_proxy_of update_proxy get_delegator set_delegator set_proxy_binding unbind_proxy
  unbind_proxy_of-others s s' a d sound there e =
      let (d₁, there₁, e₁) = need-eq-ok (s.delegators a) _ _ e in
      let (p, _, e₂) = need-eq-ok (get_proxy s d₁.proxy_address) proxy_not_found _ e₁ in
      let (s₁, e₃, e₄) =
        >>=-eq-ok
          (report_as invalid_delegation (update_found c s d₁.proxy_address (negate d₁.tokens))) _
          e₂ in
      let e₅ =
        report_as-eq-ok invalid_delegation (update_found c s d₁.proxy_address (negate d₁.tokens))
          e₃ in
      let same : d₁ ≡ d = cc in
      let at = sound.del_home a d₁ there₁ in
      let last : (b : ℕ)
          → s'.delegators b
            ≡ (if b == d₁.delegator_address then some (unbind_proxy d₁) else s₁.delegators b) =
        λ b. ap (λ (z : Store). z.delegators b) (sym (ok_inj e₄)) in
      (
        ground (arith, last a, at, ap unbind_proxy same),
        λ b away free.
            ground (arith, last b, at, away)
            ∙ update_found-others s s₁ d₁.proxy_address (negate d₁.tokens) b sound
                (λ q r. free q (ap (λ (z : Delegator ℤ). z.proxy_address) (sym same) ∙ r)) e₅,
      )
