-- ===== src/Staking/Delegation/Tokens.antt =====
-- What deposits and withdrawals do to the tokens of each delegator.
use faxchain.Base.{
  ℕ, ◌≡◌, refl, sym, ap, ◌∙◌, Option, none, some, List, ◌==◌, if◌then◌else◌, arith, inl, inr,
}
use faxchain.Base.Int.{ℤ, pos, ◌+ℤ◌, negate, ltb_ℤ, is_zero}
use faxchain.Staking.Delegator.{Delegator, has_proxy}
use faxchain.Staking.Result.{
  ok, >>=-eq-ok, fail_if-eq-ok, need-eq-ok, if-eq-ok, ok_inj, invalid_address,
  invalid_proxy_updating,
}
use faxchain.Staking.Store.{Chain, Store, get_delegator, set_delegator, set_proxy_binding}
use faxchain.Staking.Votes.{get_last_vals, withdraw_last_shares, update_proxy, update_found}
use faxchain.Staking.Votes.Sound.{IsSound}
use faxchain.Staking.Handlers.Sound.{rewrite-IsSound, keeps_apart}
use faxchain.Staking.Votes.Kept.{update_shares-Kept}
use faxchain.Staking.Votes.Sums.{count}
use faxchain.Staking.Delegator.{new_delegator}
use faxchain.Staking.Votes.{existing}
use faxchain.Staking.Store.{delete_delegator}
use faxchain.Base.Int.{◌+ℤ◌, ◌-ℤ◌}
use faxchain.Staking.Handlers.Revote.{get_last_vals-found}
use faxchain.Staking.Delegation.{
  or_new_delegator, final_tokens, unbind_if, deposit_store, proxy_first, leave, stay,
  withdraw_store,
}
use faxchain.Staking.Delegation.Sound.{proxy_first-kept, deposited-IsSound}
use faxchain.Staking.Votes.{existing}
use faxchain.Staking.Votes.Kept.{Kept}
use faxchain.Staking.Votes.Effects.{existing-IsSnapshot, withdraw_last_shares-Effect}

abbrev pub tokens_of : Option (Delegator ℤ) → ℤ
tokens_of none = pos 0
tokens_of (some d) = d.tokens

Kept-tokens :
    (del : ℕ) (s s' : Store) (b : ℕ)
    → Kept del s s'
    → tokens_of (s'.delegators b) ≡ tokens_of (s.delegators b)
Kept-tokens del s s' b k = ground (arith, k.parts b)

unbind_if-delegators :
    (s : Store) (o : Option ℕ) (a : ℕ) → (unbind_if s o a).delegators ≡ s.delegators
unfolding set_proxy_binding
unbind_if-delegators s none a = refl
unbind_if-delegators s (some p) a = refl

deposited-tokens :
    (s : Store) (a : ℕ) (x : ℤ) (b : ℕ) (o : Option (Delegator ℤ))
    → s.delegators a ≡ o
    → ((d : Delegator ℤ) → o ≡ some d → d.delegator_address ≡ a)
    → tokens_of (
        (set_delegator s (record (or_new_delegator a o) {
          tokens = (or_new_delegator a o).tokens +ℤ x;
        })).delegators
          b)
      ≡ (if b == a then tokens_of (s.delegators b) +ℤ x else tokens_of (s.delegators b))
unfolding set_delegator new_delegator
deposited-tokens s a x b none e at = ground (arith, e)
deposited-tokens s a x b (some d) e at = ground (arith, e, at d refl)

module _ (c : Chain) (addrs : List ℕ) where
  update_found-tokens :
      (s s' : Store) (p : Option ℕ) (x : ℤ) (b : ℕ)
      → IsSound c.one_dec addrs s
      → update_found c s p x ≡ ok s'
      → tokens_of (s'.delegators b) ≡ tokens_of (s.delegators b)
  unfolding get_delegator set_delegator
  update_found-tokens s s' none x b sound e =
      ap (λ (z : Store). tokens_of (z.delegators b)) (sym (ok_inj e))
  update_found-tokens s s' (some p) x b sound e =
      let (d, there, e₁) = need-eq-ok (s.delegators p) invalid_address _ e in
      let t = d.total_delegated_tokens +ℤ x in
      let s₁ = set_delegator s (record d { total_delegated_tokens = t }) in
      let (_, e₂) = fail_if-eq-ok (ltb_ℤ t (pos 0)) invalid_proxy_updating _ e₁ in
      let k =
        update_shares-Kept c addrs s₁ s' d.delegator_address (t +ℤ d.tokens)
          (rewrite-IsSound c addrs s p d _ sound there refl refl refl
            (keeps_apart c addrs s p d sound there))
          e₂ in
      Kept-tokens d.delegator_address s₁ s' b k ∙ ground (arith, there, sound.del_home p d there)

  pub deposit_store-tokens :
      (s s' : Store) (a : ℕ) (x : ℤ) (b : ℕ)
      → count a addrs ≡ 1
      → IsSound c.one_dec addrs s
      → deposit_store c s a x ≡ ok s'
      → tokens_of (s'.delegators b)
        ≡ (if b == a then tokens_of (s.delegators b) +ℤ x else tokens_of (s.delegators b))
  unfolding deposit_store get_delegator set_delegator update_proxy new_delegator
  deposit_store-tokens s s' a x b once sound e =
      let old = or_new_delegator a (s.delegators a) in
      let d = record old { tokens = old.tokens +ℤ x } in
      let s₁ = set_delegator s d in
      let sound₁ =
        deposited-IsSound c addrs s a (s.delegators a) (old.tokens +ℤ x) once sound refl in
      let new : tokens_of (s₁.delegators b)
          ≡ (if b == a then tokens_of (s.delegators b) +ℤ x else tokens_of (s.delegators b)) =
        deposited-tokens s a x b (s.delegators a) refl (λ d p. sound.del_home a d p) in
      elim (if-eq-ok (has_proxy d) (update_proxy c s₁ d x) _ e) [
        | inl (_, e₁) ↦ update_found-tokens s₁ s' d.proxy_address x b sound₁ e₁ ∙ new
        | inr (_, e₁) ↦
            Kept-tokens d.delegator_address s₁ s' b
              (update_shares-Kept c addrs s₁ s' d.delegator_address (final_tokens d) sound₁ e₁)
            ∙ new
      ]

  proxy_first-tokens :
      (s s' : Store) (d : Delegator ℤ) (x : ℤ) (b : ℕ)
      → IsSound c.one_dec addrs s
      → proxy_first c s d x ≡ ok s'
      → tokens_of (s'.delegators b) ≡ tokens_of (s.delegators b)
  unfolding update_proxy
  proxy_first-tokens s s' d x b sound e =
      elim (if-eq-ok (has_proxy d) (update_proxy c s d (negate x)) (ok s) e) [
        | inl (_, e₁) ↦ update_found-tokens s s' d.proxy_address (negate x) b sound e₁
        | inr (_, e₁) ↦ ap (λ (z : Store). tokens_of (z.delegators b)) (sym (ok_inj e₁))
      ]

  leave-delegators :
      (s s' : Store) (a : ℕ) (d : Delegator ℤ) (b : ℕ)
      → IsSound c.one_dec addrs s
      → s.delegators a ≡ some d
      → leave c s a d ≡ ok s'
      → s'.delegators b ≡ (if b == a then none else s.delegators b)
  unfolding delete_delegator set_proxy_binding
  leave-delegators s s' a d b sound there e =
      let (s₁, e₁, e₂) =
        >>=-eq-ok (withdraw_last_shares c a s (get_last_vals s a).0 (get_last_vals s a).1) _ e in
      let e₃ =
        ap (λ r. withdraw_last_shares c a s r.0 r.1) (sym (get_last_vals-found s a d there)) ∙ e₁ in
      let k =
        withdraw_last_shares-Effect c a s.validators s s₁ (existing s d.validator_addresses)
          d.shares (existing-IsSnapshot s d.validator_addresses sound.home) e₃ in
      ap (λ (z : Store). z.delegators b) (sym (ok_inj e₂))
      ∙ ap (λ (g : ℕ → Option (Delegator ℤ)). if b == a then none else g b)
          (unbind_if-delegators s₁ d.proxy_address a ∙ k.delegators)

  pub withdraw_store-tokens :
      (s s' : Store) (a : ℕ) (d : Delegator ℤ) (x : ℤ) (b : ℕ)
      → IsSound c.one_dec addrs s
      → s.delegators a ≡ some d
      → withdraw_store c s a d x ≡ ok s'
      → tokens_of (s'.delegators b)
        ≡ (if b == a then tokens_of (s.delegators b) -ℤ x else tokens_of (s.delegators b))
  unfolding withdraw_store set_delegator
  withdraw_store-tokens s s' a d x b sound there e =
      let (s₁, e₁, e₂) = >>=-eq-ok (proxy_first c s d x) _ e in
      let (sound₁, there₁) = proxy_first-kept c addrs s s₁ a d x sound there e₁ in
      let first = proxy_first-tokens s s₁ d x b sound e₁ in
      let d' = record d { tokens = d.tokens -ℤ x } in
      let sound₂ =
        rewrite-IsSound c addrs s₁ a d d' sound₁ there₁ refl refl refl
          (keeps_apart c addrs s a d sound there) in
      let at = sound.del_home a d there in
      let written : tokens_of ((set_delegator s₁ d').delegators b)
          ≡ (if b == a then tokens_of (s.delegators b) -ℤ x else tokens_of (s.delegators b)) =
        ground (arith, first, at, there) in
      elim (if-eq-ok (is_zero (d.tokens -ℤ x)) (leave c s₁ a d) (stay c s₁ d') e₂) [
        | inl (empty, e₃) ↦
            ground (arith, leave-delegators s₁ s' a d b sound₁ there₁ e₃, empty, first, there)
        | inr (_, e₃) ↦ elim (if-eq-ok (has_proxy d') (ok (set_delegator s₁ d')) _ e₃) [
          | inl (_, e₄) ↦ ap (λ (z : Store). tokens_of (z.delegators b)) (sym (ok_inj e₄)) ∙ written
          | inr (_, e₄) ↦
              Kept-tokens d'.delegator_address _ s' b
                (update_shares-Kept c addrs _ s' d'.delegator_address (final_tokens d') sound₂ e₄)
              ∙ written
        ]
      ]
