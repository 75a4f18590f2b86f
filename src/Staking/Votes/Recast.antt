-- ===== src/Staking/Votes/Recast.antt =====
-- Shares that a delegator without votes adds keep the shares of the validators and of the
-- delegators fitting.
use faxchain.Base.{
  ℕ, ◌≡◌, refl, ap, ap₂, ◌∙◌, subst, true, ◌||◌, none, some, List, [], ◌∷◌, map, GoMap, is_in, ◌==◌,
  arith, Bool-cases, inl, inr,
}
use faxchain.Base.Int.{ℤ, pos, ◌+ℤ◌, ◌-ℤ◌, int_laws}
use faxchain.Staking.Delegator.{Delegator}
use faxchain.Staking.Result.{ok, need-eq-ok, ok_inj, >>=-eq-ok}
use faxchain.Staking.Store.{Chain, Validator, Store, set_delegator, get_validator}
use faxchain.Staking.Votes.{get_validators_to_add_shares, add_shares_each}
use faxchain.Staking.Votes.Effects.{
  is_listed, IsSnapshot, IsAtHome, weighed, add_shares_each-Effect,
}
use faxchain.Staking.Votes.Sound.{own, IsSound, Effect-adds_up, Effect-IsAtHome, Effect-existing}
use faxchain.Staking.Votes.Sums.{count, ==_eq}

add_more : (x y : ℤ) → x -ℤ pos 0 +ℤ y ≡ x +ℤ y
add_more x y = omega int_laws

module _ (c : Chain) where
  pub get_validators_to_add_shares-IsSnapshot :
      (s : Store) (names : List ℕ) (vs : List Validator)
      → IsAtHome s
      → get_validators_to_add_shares s names ≡ ok vs
      → IsSnapshot s.validators vs × (map (λ v. v.operator_address) vs ≡ names)
  unfolding get_validators_to_add_shares get_validator
  get_validators_to_add_shares-IsSnapshot s [] vs home e =
      subst (λ ws. IsSnapshot s.validators ws × (map (λ v. v.operator_address) ws ≡ [])) (ok_inj e)
        (tt, refl)
  get_validators_to_add_shares-IsSnapshot s (a ∷ names) vs home e =
      let (v, there, e₁) = need-eq-ok (s.validators a) _ _ e in
      let (ws, e₂, e₃) = >>=-eq-ok (get_validators_to_add_shares s names) _ e₁ in
      let (snap, same) = get_validators_to_add_shares-IsSnapshot s names ws home e₂ in
      let there' : s.validators v.operator_address ≡ some v =
        ap s.validators (home a v there) ∙ there in
      subst (λ us. IsSnapshot s.validators us × (map (λ u. u.operator_address) us ≡ a ∷ names))
        (ok_inj e₃) ((there', snap), ap₂ (◌∷◌) (home a v there) same)

  is_listed-is_in :
      (j : ℕ) (vs : List Validator) → is_listed j vs ≡ is_in j (map (λ v. v.operator_address) vs)
  unfolding is_listed
  is_listed-is_in j [] = refl
  is_listed-is_in j (v ∷ vs) = ap (λ b. (j == v.operator_address) || b) (is_listed-is_in j vs)

  listed-there :
      (m : GoMap Validator) (j : ℕ) (vs : List Validator)
      → IsSnapshot m vs
      → is_listed j vs ≡ true
      → (v : Validator) × (m j ≡ some v)
  unfolding is_listed
  listed-there m j [] snap h = absurd (cc)
  listed-there m j (v ∷ vs) snap h = elim (Bool-cases (j == v.operator_address)) [
    | inl here ↦ (v, ap m (==_eq j v.operator_address here) ∙ snap.0)
    | inr away ↦ listed-there m j vs snap.1 (ground (arith, h, away))
  ]

  -- A delegator without votes gets new ones.
  pub add_shares_each-IsSound :
      (addrs : List ℕ) (del : ℕ) (d₀ d : Delegator ℤ) (s₁ : Store) (vs : List Validator) (x : ℤ)
      → count del addrs ≡ 1
      → d₀.delegator_address ≡ del
      → d₀.validator_addresses ≡ []
      → d.delegator_address ≡ del
      → d.proxy_address ≡ d₀.proxy_address
      → IsSound c.one_dec addrs (set_delegator s₁ d₀)
      → IsSnapshot s₁.validators vs
      → IsSound c.one_dec addrs (
          set_delegator
            (add_shares_each c del s₁ vs x)
            (record d { validator_addresses = map (λ v. v.operator_address) vs; shares = x }))
  unfolding set_delegator own
  add_shares_each-IsSound addrs del d₀ d s₁ vs x once at₀ empty at kept sound snap =
      let s₂ = add_shares_each c del s₁ vs x in
      let k = add_shares_each-Effect c del s₁.validators s₁ vs x snap in
      let dels : (a : ℕ) → s₂.delegators a ≡ s₁.delegators a =
        λ a. ap (λ (g : GoMap (Delegator ℤ)). g a) k.delegators in
      let was : (j : ℕ) (v : Validator)
          → s₂.validators j ≡ some v
          → (v₀ : Validator) × (s₁.validators j ≡ some v₀) =
        λ j v p. Effect-existing c.one_dec s₁ s₂ vs k j v p in
      record {
        home = Effect-IsAtHome c.one_dec s₁ s₂ vs sound.home (λ v v' p. ground arith) k;
        del_home = λ a d' p. ground (arith, p, dels a, sound.del_home a d', at₀, at);
        roll = λ a d' p. ground (arith, p, dels a, sound.roll a d', at₀, at, once);
        apart = λ a d' p q r. ground (
          arith,
          q,
          r,
          dels a,
          sound.apart a d' p,
          at₀,
          at,
          sound.apart del d₀ p (ground (arith, at₀)),
          kept,
        );
        voted = λ j v a p.
            let (v₀, there₀) = was j v p in
            ground (
              arith,
              k.shares j a,
              is_listed-is_in j vs,
              there₀,
              sound.voted j v₀ a there₀,
              sound.voted j v₀ del there₀,
              dels a,
              at₀,
              at,
              empty,
            );
        adds_up =
            Effect-adds_up c.one_dec addrs del (weighed c del (λ y. y +ℤ x)) none (some x) s₁ s₂ vs
              once sound.adds_up (λ v v' p. ground (arith, p, add_more v.delegator_shares x))
              (λ j listed.
                let (v, there) = listed-there s₁.validators j vs snap listed in
                ground (arith, sound.voted j v del there, at₀, empty))
              k;
      }
