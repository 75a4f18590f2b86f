-- ===== src/Staking/Votes/Kept.antt =====
-- What an update of the shares of a delegator leaves of the delegators and of the bindings.
use mathlib.Core.Option
use faxchain.Base.{
  ℕ, ◌≡◌, refl, ap, ◌∙◌, subst, false, some, List, [], ◌∷◌, GoMap, ◌==◌, arith, Option-cases, inl,
  inr,
}
use faxchain.Base.Int.{ℤ, pos}
use faxchain.Staking.Delegator.{Delegator}
use faxchain.Staking.Result.{ok, need-eq-ok, ok_inj, >>=-eq-ok}
use faxchain.Staking.Store.{Chain, Validator, Store, get_delegator, set_delegator, calculate_weight}
use faxchain.Staking.Votes.{
  existing, get_last_vals, update_each, update_shares, update_vals, last_vals_of,
}
use faxchain.Staking.Votes.Effects.{IsSnapshot, existing-IsSnapshot, update_each-Effect}
use faxchain.Staking.Votes.Sound.{IsSound}

-- A delegator without the shares of its votes.
abbrev pub without_shares : Delegator ℤ → Delegator ℤ
without_shares d = record d { shares = pos 0 }

pub record Kept (del : ℕ) (s s' : Store) : Type 0 where
  pub others : (a : ℕ) → (a == del) ≡ false → s'.delegators a ≡ s.delegators a
  pub parts :
      (a : ℕ)
      → Option.map without_shares (s'.delegators a) ≡ Option.map without_shares (s.delegators a)
  pub bindings : s'.bindings ≡ s.bindings

Kept-refl : (del : ℕ) (s : Store) → Kept del s s
Kept-refl del s = record { others = λ a h. refl; parts = λ a. refl; bindings = refl }

module _ (c : Chain) where
  update_vals-Kept :
      (del : ℕ) (d : Delegator ℤ) (tokens last : ℤ) (vs : List Validator) (s s' : Store)
      → IsSnapshot s.validators vs
      → s.delegators del ≡ some d
      → d.delegator_address ≡ del
      → update_vals c del s tokens vs last ≡ ok s'
      → Kept del s s'
  unfolding get_delegator set_delegator
  update_vals-Kept del d tokens last [] s s' snap there at e =
      subst (Kept del s) (ok_inj e) (Kept-refl del s)
  update_vals-Kept del d tokens last (v ∷ vs) s s' snap there at e =
      let (x, _, e₁) = need-eq-ok (calculate_weight c tokens) _ _ e in
      let (d₁, there₁, e₂) = need-eq-ok (s.delegators del) _ _ e₁ in
      let (s₁, e₃, e₄) = >>=-eq-ok (update_each c del s (v ∷ vs) last x) _ e₂ in
      let same : d ≡ d₁ = cc in
      let k = update_each-Effect c del s.validators s s₁ (v ∷ vs) last x snap e₃ in
      let dels : (a : ℕ) → s₁.delegators a ≡ s.delegators a =
        λ a. ap (λ (g : GoMap (Delegator ℤ)). g a) k.delegators in
      subst (Kept del s) (ap (λ z. set_delegator s₁ (record z { shares = x })) same ∙ ok_inj e₄)
        (record {
          others = λ a h. ground (arith, dels a, h, at);
          parts = λ a. ground (arith, dels a, there, at);
          bindings = k.bindings;
        })

  -- An update of the shares of a delegator in a sound store leaves all other delegators, all of
  -- its own record but the shares, and all bindings.
  pub update_shares-Kept :
      (addrs : List ℕ) (s s' : Store) (del : ℕ) (tokens : ℤ)
      → IsSound c.one_dec addrs s
      → update_shares c s del tokens ≡ ok s'
      → Kept del s s'
  unfolding update_shares get_last_vals get_delegator
  update_shares-Kept addrs s s' del tokens sound e = elim (Option-cases (s.delegators del)) [
    | inl gone ↦
        subst (Kept del s)
          (ok_inj (
            subst
              (λ o. update_vals c del s tokens (last_vals_of s o).0 (last_vals_of s o).1 ≡ ok s')
              gone e))
          (Kept-refl del s)
    | inr (d, there) ↦
        update_vals-Kept del d tokens d.shares (existing s d.validator_addresses) s s'
          (existing-IsSnapshot s d.validator_addresses sound.home) there
          (sound.del_home del d there)
          (subst (λ o. update_vals c del s tokens (last_vals_of s o).0 (last_vals_of s o).1 ≡ ok s')
            there e)
  ]
