-- ===== src/Staking/Votes/Preserve.antt =====
-- Each change of the votes of a delegator keeps the shares of the validators and of the delegators
-- fitting.
use faxchain.Base.{
  ℕ, ◌≡◌, refl, sym, ap, ◌∙◌, subst, false, none, some, List, [], ◌∷◌, GoMap, ◌==◌, if◌then◌else◌,
  arith, Bool-cases, Option-cases, inl, inr,
}
use faxchain.Base.Int.{ℤ, pos, ◌+ℤ◌, ◌-ℤ◌, int_laws}
use faxchain.Staking.Delegator.{Delegator}
use faxchain.Staking.Result.{ok, need-eq-ok, ok_inj, >>=-eq-ok}
use faxchain.Staking.Store.{
  Chain, Validator, Store, get_delegator, set_delegator, delete_delegator, calculate_weight,
}
use faxchain.Staking.Votes.{
  existing, get_last_vals, leaves_nothing, withdraw_last_shares, update_each, update_shares,
  update_vals, last_vals_of,
}
use faxchain.Staking.Votes.Effects.{
  weighed, withdrawn, existing-IsSnapshot, existing-is_listed, update_each-Effect,
  withdraw_last_shares-Effect,
}
use faxchain.Staking.Votes.Sound.{
  vote, own, IsSound, IsAddedUp, Effect-adds_up, Effect-IsAtHome, Effect-existing, listed-voted,
}
use faxchain.Staking.Votes.Sums.{count}

add_zero : (x : ℤ) → x ≡ x +ℤ pos 0
add_zero x = omega int_laws

module _ (c : Chain) where
  withdrawn_balance :
      (del : ℕ) (x : ℤ) (v v' : Validator)
      → withdrawn c del x v ≡ some v'
      → (own c.one_dec v' ≡ own c.one_dec v)
        × (v'.delegator_shares ≡ v.delegator_shares -ℤ x +ℤ pos 0)
  unfolding own
  withdrawn_balance del x v v' p = elim (Bool-cases (leaves_nothing v x)) [
    | inl empty ↦ absurd (ground (arith, p, empty))
    | inr full ↦
        let k : v'.delegator_shares ≡ v.delegator_shares -ℤ x = ground (arith, p, full) in
        (ground (arith, p, full), k ∙ add_zero (v.delegator_shares -ℤ x))
  ]

  update_each-IsSound :
      (addrs : List ℕ) (del : ℕ) (d : Delegator ℤ) (x : ℤ) (s s₁ : Store)
      → count del addrs ≡ 1
      → IsSound c.one_dec addrs s
      → s.delegators del ≡ some d
      → update_each c del s (existing s d.validator_addresses) d.shares x ≡ ok s₁
      → IsSound c.one_dec addrs (set_delegator s₁ (record d { shares = x }))
  unfolding set_delegator own
  update_each-IsSound addrs del d x s s₁ once sound there e =
      let vs = existing s d.validator_addresses in
      let k =
        update_each-Effect c del s.validators s s₁ vs d.shares x
          (existing-IsSnapshot s d.validator_addresses sound.home) e in
      let dels : (a : ℕ) → s₁.delegators a ≡ s.delegators a =
        λ a. ap (λ (g : GoMap (Delegator ℤ)). g a) k.delegators in
      let was : (j : ℕ) (v : Validator)
          → s₁.validators j ≡ some v
          → (v₀ : Validator) × (s.validators j ≡ some v₀) =
        λ j v p. Effect-existing c.one_dec s s₁ vs k j v p in
      record {
        home = Effect-IsAtHome c.one_dec s s₁ vs sound.home (λ v v' p. ground arith) k;
        del_home =
            λ a d' p. ground (arith, p, dels a, sound.del_home a d', sound.del_home del d there);
        roll =
            λ a d' p. ground (arith, p, dels a, sound.roll a d', sound.del_home del d there, once);
        apart = λ a d' p q r. ground (
          arith,
          q,
          r,
          dels a,
          sound.apart a d' p,
          sound.del_home del d there,
          sound.apart del d p there,
        );
        voted = λ j v a p.
            let (v₀, there₀) = was j v p in
            let listed = existing-is_listed s d.validator_addresses j sound.home in
            ground (
              arith,
              k.shares j a,
              listed,
              there₀,
              sound.voted j v₀ a there₀,
              sound.voted j v₀ del there₀,
              dels a,
              there,
              sound.del_home del d there,
            );
        adds_up =
            Effect-adds_up c.one_dec addrs del (weighed c del (λ y. y -ℤ d.shares +ℤ x))
              (some d.shares) (some x) s s₁ vs once sound.adds_up (λ v v' p. ground (arith, p))
              (λ j listed. listed-voted c.one_dec addrs del d s j sound there listed) k;
      }

  pub withdraw_last_shares-IsSound :
      (addrs : List ℕ) (del : ℕ) (d d' : Delegator ℤ) (s s₁ : Store)
      → count del addrs ≡ 1
      → IsSound c.one_dec addrs s
      → s.delegators del ≡ some d
      → d'.delegator_address ≡ del
      → d'.validator_addresses ≡ []
      → d'.proxy_address ≡ d.proxy_address
      → withdraw_last_shares c del s (existing s d.validator_addresses) d.shares ≡ ok s₁
      → IsSound c.one_dec addrs (set_delegator s₁ d')
        × IsSound c.one_dec addrs (delete_delegator s₁ del)
  unfolding set_delegator delete_delegator own
  withdraw_last_shares-IsSound addrs del d d' s s₁ once sound there at empty kept e =
      let vs = existing s d.validator_addresses in
      let k =
        withdraw_last_shares-Effect c del s.validators s s₁ vs d.shares
          (existing-IsSnapshot s d.validator_addresses sound.home) e in
      let dels : (a : ℕ) → s₁.delegators a ≡ s.delegators a =
        λ a. ap (λ (g : GoMap (Delegator ℤ)). g a) k.delegators in
      let was : (j : ℕ) (v : Validator)
          → s₁.validators j ≡ some v
          → (v₀ : Validator) × (s.validators j ≡ some v₀) =
        λ j v p. Effect-existing c.one_dec s s₁ vs k j v p in
      let home = Effect-IsAtHome c.one_dec s s₁ vs sound.home (λ v v' p. ground (arith, p)) k in
      let held : (j : ℕ) (v : Validator) (a : ℕ)
          → s₁.validators j ≡ some v
          → s₁.shares j a ≡ (if a == del then none else vote (s.delegators a) j) =
        λ j v a p.
          let (v₀, there₀) = was j v p in
          let listed = existing-is_listed s d.validator_addresses j sound.home in
          ground (
            arith,
            k.shares j a,
            listed,
            there₀,
            sound.voted j v₀ a there₀,
            sound.voted j v₀ del there₀,
            there,
          ) in
      let adds : IsAddedUp c.one_dec addrs s₁ =
        Effect-adds_up c.one_dec addrs del (withdrawn c del d.shares) (some d.shares) none s s₁ vs
          once sound.adds_up (withdrawn_balance del d.shares)
          (λ j listed. listed-voted c.one_dec addrs del d s j sound there listed) k in
      (
        record {
          home = home;
          del_home = λ a d'' p. ground (arith, p, dels a, sound.del_home a d'', at);
          roll = λ a d'' p. ground (arith, p, dels a, sound.roll a d'', at, once);
          apart = λ a d'' p q r.
              ground
                (arith, q, r, dels a, sound.apart a d'' p, at, sound.apart del d p there, kept);
          voted = λ j v a p. ground (arith, held j v a p, dels a, at, empty);
          adds_up = adds;
        },
        record {
          home = home;
          del_home = λ a d'' p. ground (arith, p, dels a, sound.del_home a d'');
          roll = λ a d'' p. ground (arith, p, dels a, sound.roll a d'', once);
          apart = λ a d'' p q r. ground (arith, q, r, dels a, sound.apart a d'' p);
          voted = λ j v a p. ground (arith, held j v a p, dels a);
          adds_up = adds;
        },
      )

  update_vals-IsSound :
      (addrs : List ℕ) (del : ℕ) (d : Delegator ℤ) (tokens : ℤ) (vs : List Validator) (s s' : Store)
      → count del addrs ≡ 1
      → IsSound c.one_dec addrs s
      → s.delegators del ≡ some d
      → vs ≡ existing s d.validator_addresses
      → update_vals c del s tokens vs d.shares ≡ ok s'
      → IsSound c.one_dec addrs s'
  unfolding get_delegator
  update_vals-IsSound addrs del d tokens [] s s' once sound there same e =
      subst (IsSound c.one_dec addrs) (ok_inj e) sound
  update_vals-IsSound addrs del d tokens (v ∷ vs) s s' once sound there same e =
      let (x, _, e₁) = need-eq-ok (calculate_weight c tokens) _ _ e in
      let (d₁, there₁, e₂) = need-eq-ok (s.delegators del) _ _ e₁ in
      let (s₁, e₃, e₄) = >>=-eq-ok (update_each c del s (v ∷ vs) d.shares x) _ e₂ in
      let same_del : d ≡ d₁ = cc in
      subst (IsSound c.one_dec addrs)
        (ap (λ z. set_delegator s₁ (record z { shares = x })) same_del ∙ ok_inj e₄)
        (update_each-IsSound addrs del d x s s₁ once sound there
          (ap (λ ws. update_each c del s ws d.shares x) (sym same) ∙ e₃))

  pub update_shares-IsSound :
      (addrs : List ℕ) (s s' : Store) (del : ℕ) (tokens : ℤ)
      → IsSound c.one_dec addrs s
      → update_shares c s del tokens ≡ ok s'
      → IsSound c.one_dec addrs s'
  unfolding update_shares get_last_vals get_delegator
  update_shares-IsSound addrs s s' del tokens sound e = elim (Option-cases (s.delegators del)) [
    | inl gone ↦
        subst (IsSound c.one_dec addrs)
          (ok_inj (
            subst
              (λ o. update_vals c del s tokens (last_vals_of s o).0 (last_vals_of s o).1 ≡ ok s')
              gone e))
          sound
    | inr (d, there) ↦
        update_vals-IsSound addrs del d tokens (existing s d.validator_addresses) s s'
          (sound.roll del d there) sound there refl
          (subst (λ o. update_vals c del s tokens (last_vals_of s o).0 (last_vals_of s o).1 ≡ ok s')
            there e)
  ]

  -- A record of a delegator that changes no votes.
  pub set_delegator-IsSound :
      (addrs : List ℕ) (s : Store) (d : Delegator ℤ)
      → IsSound c.one_dec addrs s
      → count d.delegator_address addrs ≡ 1
      → ((p : ℕ) → d.proxy_address ≡ some p → (d.delegator_address == p) ≡ false)
      → ((j : ℕ) → vote (some d) j ≡ vote (s.delegators d.delegator_address) j)
      → IsSound c.one_dec addrs (set_delegator s d)
  unfolding set_delegator
  set_delegator-IsSound addrs s d sound once free same = record {
    home = sound.home;
    del_home = λ a d' p. ground (arith, p, sound.del_home a d');
    roll = λ a d' p. ground (arith, p, sound.roll a d', once);
    apart = λ a d' p q r. ground (arith, q, r, sound.apart a d' p, free p);
    voted = λ j v a p. ground (arith, sound.voted j v a p, same j);
    adds_up = sound.adds_up;
  }
