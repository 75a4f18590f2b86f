-- ===== src/Staking/Dispatch/Proxies.antt =====
-- A withdrawal of a delegator that is a proxy.
use mathlib.Core.Option
use faxchain.Base.{
  ℕ, ◌≡◌, refl, ap, sym, ◌∙◌, true, false, some, List, arith, inl, inr, Option-cases,
}
use faxchain.Base.Int.{ℤ, ◌-ℤ◌, is_zero}
use faxchain.Staking.Delegator.{Delegator, has_proxy}
use faxchain.Staking.Result.{ok, >>=-eq-ok, if-eq-ok, ok_inj}
use faxchain.Staking.Store.{Chain, Store, set_delegator}
use faxchain.Staking.Votes.Sound.{IsSound}
use faxchain.Staking.Votes.Kept.{without_shares, update_shares-Kept}
use faxchain.Staking.Handlers.Sound.{rewrite-IsSound, keeps_apart}
use faxchain.Staking.Delegation.{
  Coin, Bank, Ledger, handle_msg_withdraw, withdraw_store, proxy_first, leave, stay, final_tokens,
  undelegate, get_undelegating, completion_time_of,
}
use faxchain.Staking.Delegation.Sound.{proxy_first-kept}
use faxchain.Staking.Dispatch.Inversion.{withdraw-eq-ok}

-- The record of a delegator but its shares.
abbrev pub Stays : Store → ℕ → Delegator ℤ → Type 0
Stays s a d = Option.map without_shares (s.delegators a) ≡ some (without_shares d)

undelegate-store :
    {B : Type 0} (l : Ledger B) (a : ℕ) (x : ℤ) (t : ℕ) → (undelegate l a x t).store ≡ l.store
unfolding undelegate get_undelegating
undelegate-store l a x t = elim (Option-cases (l.undelegations a)) [
  | inl gone ↦ rw gone refl
  | inr (u, there) ↦ rw there refl
]

module _ (c : Chain) (addrs : List ℕ) where
  stay-Stays :
      (s s' : Store) (a : ℕ) (d : Delegator ℤ) (x : ℤ)
      → IsSound c.one_dec addrs s
      → s.delegators a ≡ some d
      → is_zero (d.tokens -ℤ x) ≡ false
      → withdraw_store c s a d x ≡ ok s'
      → Stays s' a (record d { tokens = d.tokens -ℤ x })
  unfolding withdraw_store set_delegator
  stay-Stays s s' a d x sound there left e =
      let (s₁, e₁, e₂) = >>=-eq-ok (proxy_first c s d x) _ e in
      let (sound₁, there₁) = proxy_first-kept c addrs s s₁ a d x sound there e₁ in
      let d' = record d { tokens = d.tokens -ℤ x } in
      let sound₂ =
        rewrite-IsSound c addrs s₁ a d d' sound₁ there₁ refl refl refl
          (keeps_apart c addrs s a d sound there) in
      let at = sound.del_home a d there in
      let written : Stays (set_delegator s₁ d') a d' = ground (arith, at) in
      elim (if-eq-ok (is_zero (d.tokens -ℤ x)) (leave c s₁ a d) (stay c s₁ d') e₂) [
        | inl (empty, _) ↦ absurd (cc)
        | inr (_, e₃) ↦ elim (if-eq-ok (has_proxy d') (ok (set_delegator s₁ d')) _ e₃) [
          | inl (_, e₄) ↦
              ap (λ (z : Store). Option.map without_shares (z.delegators a)) (sym (ok_inj e₄))
              ∙ written
          | inr (_, e₄) ↦
              let k =
                update_shares-Kept c addrs _ s' d'.delegator_address (final_tokens d') sound₂ e₄ in
              k.parts a ∙ written
        ]
      ]

  -- When a withdrawal of a proxy succeeds in a sound store, tokens are left: its record is still
  -- there, with the withdrawn amount less of tokens, which is not zero then, and, but for its
  -- shares, otherwise as it was.
  pub handle_msg_withdraw-Stays :
      {B : Type 0} (k : Bank B) (l l' : Ledger B) (a : ℕ) (token : Coin) (d : Delegator ℤ)
      → IsSound c.one_dec addrs l.store
      → l.store.delegators a ≡ some d
      → d.is_proxy ≡ true
      → handle_msg_withdraw c k l a token ≡ ok l'
      → (is_zero (d.tokens -ℤ token.amount) ≡ false)
        × Stays l'.store a (record d { tokens = d.tokens -ℤ token.amount })
  handle_msg_withdraw-Stays k l l' a token d sound there proxy e =
      let (d₁, s, b, there₁, _, guard, _, run, e₁) = withdraw-eq-ok c k l l' a token e in
      let same : d₁ ≡ d = cc in
      let left : is_zero (d.tokens -ℤ token.amount) ≡ false = ground (arith, guard, same, proxy) in
      let run₁ : withdraw_store c l.store a d token.amount ≡ ok s =
        ap (λ z. withdraw_store c l.store a z token.amount) (sym same) ∙ run in
      let store : l'.store ≡ s =
        ap (λ (z : Ledger _). z.store) (sym e₁)
        ∙ undelegate-store (record l { store = s; bank = b }) a token.amount
            (completion_time_of c) in
      (
        left,
        ap (λ (z : Store). Option.map without_shares (z.delegators a)) store
            ∙ stay-Stays l.store s a d token.amount sound there left run₁,
      )
