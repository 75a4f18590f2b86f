-- ===== src/Staking/Handlers/Messages.antt =====
-- The messages that bind to a proxy, register one and add shares keep the shares of the validators
-- and of the delegators fitting.
use faxchain.Base.{
  ℕ, ◌≡◌, refl, sym, ap, ◌∙◌, Bool, true, false, not, Option, none, some, List, [], ◌∷◌, ◌==◌,
  arith, Bool-cases, Option-cases, inl, inr,
}
use faxchain.Base.Int.{ℤ, pos, ◌+ℤ◌, eqb_ℤ, is_zero}
use faxchain.Staking.Delegator.{Delegator, has_proxy, unbind_proxy, bind_proxy, reg_proxy}
use faxchain.Staking.Result.{
  ok, ◌>>=◌, >>=-eq-ok, fail_if-eq-ok, need-eq-ok, if-eq-ok, double_proxy, already_added_shares,
  proxy_already_exists, already_bound, ok_inj, invalid_delegation, proxy_not_found, no_delegation,
}
use faxchain.Staking.Store.{Chain, Store, get_delegator, set_delegator, set_proxy_binding}
use faxchain.Staking.Votes.Sound.{IsSound}
use faxchain.Staking.Handlers.Sound.{
  rewrite-IsSound, set_proxy_binding-IsSound, report_update-IsSound, keeps_apart,
  unbind_proxy_of-IsSound, unbind_proxy_of-others,
}
use faxchain.Staking.Votes.Sums.{==_eq}
use faxchain.Staking.Handlers.{
  unbind_proxy_of, unbind_first, bind_to, handle_msg_bind_proxy, reg_proxy_of, unreg_proxy_of,
  handle_reg_proxy, clear_proxy, clear_found, clear_one, is_same_proxy,
}

module _ (c : Chain) (addrs : List ℕ) where
  bind_to-IsSound :
      (s s' : Store) (a p : ℕ) (d d₁ proxy : Delegator ℤ)
      → IsSound c.one_dec addrs s
      → s.delegators a ≡ some d₁
      → s.delegators p ≡ some proxy
      → (a == p) ≡ false
      → d.delegator_address ≡ d₁.delegator_address
      → d.validator_addresses ≡ d₁.validator_addresses
      → d.shares ≡ d₁.shares
      → bind_to c s d p proxy ≡ ok s'
      → IsSound c.one_dec addrs s'
  unfolding bind_proxy set_delegator
  bind_to-IsSound s s' a p d d₁ proxy sound there there_p away same_addr same_votes same_shares e =
      let at = sound.del_home a d₁ there in
      let at_p = sound.del_home p proxy there_p in
      let sound₁ =
        rewrite-IsSound c addrs s a d₁ (bind_proxy d p) sound there same_addr same_votes same_shares
          (λ q r. ground (arith, at, away, r)) in
      let there₁ : (set_delegator s (bind_proxy d p)).delegators p ≡ some proxy =
        ground (arith, at, away, same_addr, there_p) in
      let sound₂ =
        rewrite-IsSound c addrs _ p proxy
          (record proxy { total_delegated_tokens = proxy.total_delegated_tokens +ℤ d.tokens })
          sound₁ there₁ refl refl refl (keeps_apart c addrs _ p proxy sound₁ there₁) in
      report_update-IsSound c addrs _ s' proxy.delegator_address _ invalid_delegation
        (set_proxy_binding-IsSound c addrs _ proxy.delegator_address d.delegator_address false
          sound₂)
        e

  rebind-IsSound :
      (s s' : Store) (a p : ℕ) (d proxy : Delegator ℤ)
      → IsSound c.one_dec addrs s
      → s.delegators a ≡ some d
      → s.delegators p ≡ some proxy
      → (a == p) ≡ false
      → is_same_proxy d.proxy_address proxy.delegator_address ≡ false
      → (unbind_first c s d >>= λ s₁. bind_to c s₁ d p proxy) ≡ ok s'
      → IsSound c.one_dec addrs s'
  unfolding unbind_proxy
  rebind-IsSound s s' a p d proxy sound there there_p away new e =
      let (s₁, e₁, e₂) = >>=-eq-ok (unbind_first c s d) _ e in
      let at = sound.del_home a d there in
      let at_p = sound.del_home p proxy there_p in
      elim (if-eq-ok (has_proxy d) (unbind_proxy_of c s d.delegator_address) (ok s) e₁) [
        | inl (_, e₃) ↦
            let (now, rest) =
              unbind_proxy_of-others c addrs s s₁ a d sound there
                (ap (unbind_proxy_of c s) (sym at) ∙ e₃) in
            let there_p' =
              rest p (ground (arith, away)) (λ q r. ground (arith, new, at_p, r)) ∙ there_p in
            bind_to-IsSound s₁ s' a p d (unbind_proxy d) proxy
              (unbind_proxy_of-IsSound c addrs s s₁ d.delegator_address sound e₃) now there_p' away
              refl refl refl e₂
        | inr (_, e₃) ↦
            bind_to-IsSound s s' a p d d proxy sound there there_p away refl refl refl
              (ap (λ z. bind_to c z d p proxy) (ok_inj e₃) ∙ e₂)
      ]

  -- Who is no proxy is not the proxy.
  apart_of :
      (s : Store) (a p : ℕ) (d proxy : Delegator ℤ)
      → s.delegators a ≡ some d
      → s.delegators p ≡ some proxy
      → not proxy.is_proxy ≡ false
      → d.is_proxy ≡ false
      → (a == p) ≡ false
  apart_of s a p d proxy there there_p is isnt = elim (Bool-cases (a == p)) [
    | inl same ↦
        let k : some d ≡ some proxy = sym there ∙ ap s.delegators (==_eq a p same) ∙ there_p in
        absurd (ground (arith, k, is, isnt))
    | inr away ↦ away
  ]

  pub handle_msg_bind_proxy-IsSound :
      (s s' : Store) (a p : ℕ)
      → IsSound c.one_dec addrs s
      → handle_msg_bind_proxy c s a p ≡ ok s'
      → IsSound c.one_dec addrs s'
  unfolding handle_msg_bind_proxy get_delegator
  handle_msg_bind_proxy-IsSound s s' a p sound e =
      let (d, there, e₁) = need-eq-ok (s.delegators a) no_delegation _ e in
      let (_, e₂) = fail_if-eq-ok (is_zero d.tokens) no_delegation _ e₁ in
      let (_, e₃) = fail_if-eq-ok (not (eqb_ℤ d.shares (pos 0))) already_added_shares _ e₂ in
      let (proxy, there_p, e₄) = need-eq-ok (s.delegators p) proxy_not_found _ e₃ in
      let (_, e₅) = fail_if-eq-ok (is_zero proxy.tokens) proxy_not_found _ e₄ in
      let (is, e₆) = fail_if-eq-ok (not proxy.is_proxy) proxy_not_found _ e₅ in
      let (isnt, e₇) = fail_if-eq-ok d.is_proxy double_proxy _ e₆ in
      elim (if-eq-ok (is_same_proxy d.proxy_address proxy.delegator_address) _ _ e₇) [
        | inl (_, e₈) ↦
            report_update-IsSound c addrs s s' proxy.delegator_address _ invalid_delegation sound e₈
        | inr (new, e₈) ↦
            rebind-IsSound s s' a p d proxy sound there there_p
              (apart_of s a p d proxy there there_p is isnt) new e₈
      ]

  clear_found-IsSound :
      (s : Store) (a : ℕ) (o : Option (Delegator ℤ))
      → IsSound c.one_dec addrs s
      → get_delegator s a ≡ o
      → IsSound c.one_dec addrs (clear_found s o)
  unfolding get_delegator unbind_proxy
  clear_found-IsSound s a none sound e = sound
  clear_found-IsSound s a (some d) sound e =
      rewrite-IsSound c addrs s a d (unbind_proxy d) sound e refl refl refl (λ q r. absurd (cc))

  clear_one-IsSound :
      (s : Store) (p a : ℕ) → IsSound c.one_dec addrs s → IsSound c.one_dec addrs (clear_one s p a)
  clear_one-IsSound s p a sound =
      set_proxy_binding-IsSound c addrs _ p a true
        (clear_found-IsSound s a (get_delegator s a) sound refl)

  clear_proxy-IsSound :
      (s : Store) (p : ℕ) (bound : List ℕ)
      → IsSound c.one_dec addrs s
      → IsSound c.one_dec addrs (clear_proxy s p bound)
  unfolding clear_proxy
  clear_proxy-IsSound s p [] sound = sound
  clear_proxy-IsSound s p (a ∷ rest) sound =
      clear_proxy-IsSound (clear_one s p a) p rest (clear_one-IsSound s p a sound)

  -- The same votes.
  abbrev AgreesOn : Store → ℕ → Delegator ℤ → Type 0
  AgreesOn s a d =
      (d₁ : Delegator ℤ) × (s.delegators a ≡ some d₁)
      × (d.delegator_address ≡ d₁.delegator_address)
      × (d.validator_addresses ≡ d₁.validator_addresses)
      × (d.shares ≡ d₁.shares)

  clear_one-AgreesOn :
      (s : Store) (p b a : ℕ) (d : Delegator ℤ)
      → IsSound c.one_dec addrs s
      → AgreesOn s a d
      → AgreesOn (clear_one s p b) a d
  unfolding get_delegator set_delegator set_proxy_binding unbind_proxy
  clear_one-AgreesOn s p b a d sound (d₁, there, addr, votes, shares) =
      elim (Option-cases (s.delegators b)) [
        | inl gone ↦
            (d₁, ap (λ o. (clear_found s o).delegators a) gone ∙ there, addr, votes, shares)
        | inr (e, there_b) ↦ elim (Bool-cases (a == b)) [
          | inl same ↦
              let same' : some d₁ ≡ some e =
                sym there ∙ ap s.delegators (==_eq a b same) ∙ there_b in
              (
                unbind_proxy d₁,
                ap (λ o. (clear_found s o).delegators a) there_b
                    ∙ ground (arith, sound.del_home b e there_b, same, same'),
                addr,
                votes,
                shares,
              )
          | inr away ↦ (
            d₁,
            ap (λ o. (clear_found s o).delegators a) there_b
                ∙ ground (arith, sound.del_home b e there_b, away, there),
            addr,
            votes,
            shares,
          )
        ]
      ]

  clear_proxy-AgreesOn :
      (s : Store) (p : ℕ) (bound : List ℕ) (a : ℕ) (d : Delegator ℤ)
      → IsSound c.one_dec addrs s
      → AgreesOn s a d
      → AgreesOn (clear_proxy s p bound) a d
  unfolding clear_proxy
  clear_proxy-AgreesOn s p [] a d sound k = k
  clear_proxy-AgreesOn s p (b ∷ rest) a d sound k =
      clear_proxy-AgreesOn (clear_one s p b) p rest a d (clear_one-IsSound s p b sound)
        (clear_one-AgreesOn s p b a d sound k)

  pub handle_reg_proxy-IsSound :
      (s s' : Store) (a : ℕ) (reg : Bool) (bound : List ℕ)
      → IsSound c.one_dec addrs s
      → handle_reg_proxy c s a reg bound ≡ ok s'
      → IsSound c.one_dec addrs s'
  unfolding handle_reg_proxy reg_proxy_of unreg_proxy_of get_delegator reg_proxy unbind_proxy
  handle_reg_proxy-IsSound s s' a true bound sound e =
      let (d, there, e₁) = need-eq-ok (s.delegators a) no_delegation _ e in
      let (_, e₂) = fail_if-eq-ok d.is_proxy proxy_already_exists _ e₁ in
      let (_, e₃) = fail_if-eq-ok (has_proxy d) already_bound _ e₂ in
      report_update-IsSound c addrs _ s' d.delegator_address d.tokens invalid_delegation
        (rewrite-IsSound c addrs s a d _ sound there refl refl refl (λ q r. absurd (cc))) e₃
  handle_reg_proxy-IsSound s s' a false bound sound e =
      let (d, there, e₁) = need-eq-ok (s.delegators a) proxy_not_found _ e in
      let (_, e₂) = fail_if-eq-ok (not d.is_proxy) proxy_not_found _ e₁ in
      let s₁ = clear_proxy s d.delegator_address bound in
      let (d₁, there₁, addr, votes, shares) =
        clear_proxy-AgreesOn s d.delegator_address bound a d sound (d, there, refl, refl, refl) in
      report_update-IsSound c addrs _ s' d.delegator_address d.tokens invalid_delegation
        (rewrite-IsSound c addrs s₁ a d₁ _ (clear_proxy-IsSound s d.delegator_address bound sound)
          there₁ addr votes shares
          (λ q r. ap (λ z. z == q) (sym addr) ∙ keeps_apart c addrs s a d sound there q r))
        e₂
