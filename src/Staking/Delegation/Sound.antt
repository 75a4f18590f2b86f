-- ===== src/Staking/Delegation/Sound.antt =====
-- Deposits and withdrawals keep the shares of the validators and of the delegators fitting.
use faxchain.Base.{
  ℕ, ◌≡◌, refl, sym, ap, ◌∙◌, subst, true, Option, none, some, List, [], arith, inl, inr,
}
use faxchain.Base.Int.{ℤ, ◌+ℤ◌, negate, is_zero}
use faxchain.Staking.Delegator.{Delegator, has_proxy}
use faxchain.Staking.Result.{ok, >>=-eq-ok, if-eq-ok, ok_inj}
use faxchain.Staking.Store.{Chain, Store, get_delegator, set_delegator, set_proxy_binding}
use faxchain.Staking.Votes.{get_last_vals, withdraw_last_shares, update_proxy}
use faxchain.Staking.Votes.Sound.{IsSound}
use faxchain.Staking.Handlers.Sound.{rewrite-IsSound, set_proxy_binding-IsSound, keeps_apart}
use faxchain.Staking.Votes.Sums.{count}
use faxchain.Staking.Votes.Preserve.{
  update_shares-IsSound, set_delegator-IsSound, withdraw_last_shares-IsSound,
}
use faxchain.Staking.Delegator.{new_delegator}
use faxchain.Staking.Store.{delete_delegator}
use faxchain.Base.Int.{◌+ℤ◌, ◌-ℤ◌}
use faxchain.Staking.Handlers.Sound.{update_proxy-IsSound, update_found-others}
use faxchain.Staking.Handlers.Revote.{get_last_vals-found}
use faxchain.Staking.Delegation.{
  or_new_delegator, final_tokens, unbind_if, deposit_store, proxy_first, leave, stay,
  withdraw_store,
}

module _ (c : Chain) (addrs : List ℕ) where
  pub deposited-IsSound :
      (s : Store) (a : ℕ) (o : Option (Delegator ℤ)) (t : ℤ)
      → count a addrs ≡ 1
      → IsSound c.one_dec addrs s
      → s.delegators a ≡ o
      → IsSound c.one_dec addrs (set_delegator s (record (or_new_delegator a o) { tokens = t }))
  unfolding new_delegator
  deposited-IsSound s a none t once sound e =
      set_delegator-IsSound c addrs s _ sound once (λ q r. absurd (cc)) (λ j. ground (arith, e))
  deposited-IsSound s a (some d) t once sound e =
      rewrite-IsSound c addrs s a d _ sound e refl refl refl (keeps_apart c addrs s a d sound e)

  pub deposit_store-IsSound :
      (s s' : Store) (a : ℕ) (x : ℤ)
      → count a addrs ≡ 1
      → IsSound c.one_dec addrs s
      → deposit_store c s a x ≡ ok s'
      → IsSound c.one_dec addrs s'
  unfolding deposit_store get_delegator
  deposit_store-IsSound s s' a x once sound e =
      let old = or_new_delegator a (get_delegator s a) in
      let d = record old { tokens = old.tokens +ℤ x } in
      let sound₁ = deposited-IsSound s a (get_delegator s a) (old.tokens +ℤ x) once sound refl in
      elim (if-eq-ok (has_proxy d) (update_proxy c (set_delegator s d) d x) _ e) [
        | inl (_, e₁) ↦ update_proxy-IsSound c addrs (set_delegator s d) s' d x sound₁ e₁
        | inr (_, e₁) ↦
            update_shares-IsSound c addrs (set_delegator s d) s' d.delegator_address
              (final_tokens d) sound₁ e₁
      ]

  -- The proxy of a delegator takes nothing from the delegator.
  pub proxy_first-kept :
      (s s' : Store) (a : ℕ) (d : Delegator ℤ) (x : ℤ)
      → IsSound c.one_dec addrs s
      → s.delegators a ≡ some d
      → proxy_first c s d x ≡ ok s'
      → IsSound c.one_dec addrs s' × (s'.delegators a ≡ some d)
  unfolding update_proxy
  proxy_first-kept s s' a d x sound there e =
      elim (if-eq-ok (has_proxy d) (update_proxy c s d (negate x)) (ok s) e) [
        | inl (_, e₁) ↦ (
          update_proxy-IsSound c addrs s s' d (negate x) sound e₁,
          update_found-others c addrs s s' d.proxy_address (negate x) a sound
                (λ q r. sound.apart a d q there r) e₁
              ∙ there,
        )
        | inr (_, e₁) ↦ (
          subst (IsSound c.one_dec addrs) (ok_inj e₁) sound,
          ap (λ (z : Store). z.delegators a) (sym (ok_inj e₁)) ∙ there,
        )
      ]

  left-IsSound :
      (s : Store) (a : ℕ) (o : Option ℕ)
      → IsSound c.one_dec addrs (delete_delegator s a)
      → IsSound c.one_dec addrs (delete_delegator (unbind_if s o a) a)
  unfolding delete_delegator set_proxy_binding
  left-IsSound s a none sound = sound
  left-IsSound s a (some p) sound =
      set_proxy_binding-IsSound c addrs (delete_delegator s a) p a true sound

  pub leave-IsSound :
      (s s' : Store) (a : ℕ) (d : Delegator ℤ)
      → IsSound c.one_dec addrs s
      → s.delegators a ≡ some d
      → leave c s a d ≡ ok s'
      → IsSound c.one_dec addrs s'
  leave-IsSound s s' a d sound there e =
      let at = sound.del_home a d there in
      let (s₁, e₁, e₂) =
        >>=-eq-ok (withdraw_last_shares c a s (get_last_vals s a).0 (get_last_vals s a).1) _ e in
      let e₃ =
        ap (λ r. withdraw_last_shares c a s r.0 r.1) (sym (get_last_vals-found s a d there)) ∙ e₁ in
      let (_, sound₁) =
        withdraw_last_shares-IsSound c addrs a d (record d { validator_addresses = [] }) s s₁
          (sound.roll a d there) sound there at refl refl e₃ in
      subst (IsSound c.one_dec addrs) (ok_inj e₂) (left-IsSound s₁ a d.proxy_address sound₁)

  pub withdraw_store-IsSound :
      (s s' : Store) (a : ℕ) (d : Delegator ℤ) (x : ℤ)
      → IsSound c.one_dec addrs s
      → s.delegators a ≡ some d
      → withdraw_store c s a d x ≡ ok s'
      → IsSound c.one_dec addrs s'
  unfolding withdraw_store
  withdraw_store-IsSound s s' a d x sound there e =
      let (s₁, e₁, e₂) = >>=-eq-ok (proxy_first c s d x) _ e in
      let (sound₁, there₁) = proxy_first-kept s s₁ a d x sound there e₁ in
      let d' = record d { tokens = d.tokens -ℤ x } in
      let sound₂ =
        rewrite-IsSound c addrs s₁ a d d' sound₁ there₁ refl refl refl
          (keeps_apart c addrs s a d sound there) in
      elim (if-eq-ok (is_zero (d.tokens -ℤ x)) (leave c s₁ a d) (stay c s₁ d') e₂) [
        | inl (_, e₃) ↦ leave-IsSound s₁ s' a d sound₁ there₁ e₃
        | inr (_, e₃) ↦ elim (if-eq-ok (has_proxy d') (ok (set_delegator s₁ d')) _ e₃) [
          | inl (_, e₄) ↦ subst (IsSound c.one_dec addrs) (ok_inj e₄) sound₂
          | inr (_, e₄) ↦
              update_shares-IsSound c addrs _ s' d'.delegator_address (final_tokens d') sound₂ e₄
        ]
      ]
