-- ===== src/Staking/Votes/Effects.antt =====
-- What the loops over validators do to the validators and to the shares, address by address.
use faxchain.Base.{
  ℕ, ◌≡◌, refl, ap, ◌∙◌, subst, Bool, true, false, ◌&&◌, ◌||◌, Option, none, some, List, [], ◌∷◌,
  GoMap, is_in, ◌==◌, if◌then◌else◌, arith, Option-cases, inl, inr,
}
use faxchain.Base.Int.{ℤ, ◌+ℤ◌, ◌-ℤ◌, is_zero}
use faxchain.Staking.Result.{ok, fail_if-eq-ok, ok_inj, >>=-eq-ok}
use faxchain.Staking.Store.{
  Chain, Validator, Store, set_shares, delete_shares, set_validator, get_validator,
  set_validator_by_power_index, delete_validator_by_power_index,
}
use faxchain.Staking.Votes.{
  keep_found, existing, remove_validator, leaves_nothing, withdraw_left, reweigh, add_shares,
  withdraw_shares, withdraw_last_shares, add_shares_each, update_each,
}

unfoldable pub is_listed : ℕ → List Validator → Bool
is_listed j [] = false
is_listed j (v ∷ vs) = (j == v.operator_address) || is_listed j vs

-- The validators as they were read.
abbrev pub IsSnapshot : GoMap Validator → List Validator → Type 0
IsSnapshot m [] = Unit
IsSnapshot m (v ∷ vs) = (m v.operator_address ≡ some v) × IsSnapshot m vs

abbrev pub left {ℓ κ} : {A : Type ℓ} {B : Type κ} → (A → Option B) → Option A → Option B
left h none = none
left h (some v) = h v

-- Each validator that is listed becomes what `h` makes of it as it was read, and the shares of the
-- delegator at it become `o`. All other validators and shares, and the delegators, stay.
pub record Effect (del : ℕ) (h : Validator → Option Validator) (o : Option ℤ) (m : GoMap Validator)
    (s : Store) (vals : List Validator) (s' : Store) : Type 0 where
  pub validators :
      (j : ℕ) → s'.validators j ≡ (if is_listed j vals then left h (m j) else s.validators j)
  pub shares :
      (j d : ℕ) → s'.shares j d ≡ (if is_listed j vals && (d == del) then o else s.shares j d)
  pub delegators : s'.delegators ≡ s.delegators
  pub bindings : s'.bindings ≡ s.bindings

-- The same for one validator.
pub record StepEffect (del : ℕ) (h : Validator → Option Validator) (o : Option ℤ) (s : Store)
    (v : Validator) (s' : Store) : Type 0 where
  pub validators :
      (j : ℕ) → s'.validators j ≡ (if j == v.operator_address then h v else s.validators j)
  pub shares :
      (j d : ℕ)
      → s'.shares j d ≡ (if (j == v.operator_address) && (d == del) then o else s.shares j d)
  pub delegators : s'.delegators ≡ s.delegators
  pub bindings : s'.bindings ≡ s.bindings

module _ {del : ℕ} {h : Validator → Option Validator} {o : Option ℤ} {m : GoMap Validator} where
  Effect-none : (s : Store) → Effect del h o m s [] s
  unfolding is_listed
  Effect-none s = record {
    validators = λ j. refl;
    shares = λ j d. refl;
    delegators = refl;
    bindings = refl;
  }

  Effect-cons :
      (s s₁ s' : Store) (v : Validator) (vs : List Validator)
      → m v.operator_address ≡ some v
      → StepEffect del h o s v s₁
      → Effect del h o m s₁ vs s'
      → Effect del h o m s (v ∷ vs) s'
  unfolding is_listed
  Effect-cons s s₁ s' v vs e p q = record {
    validators = λ j. ground (arith, q.validators j, p.validators j, e);
    shares = λ j d. ground (arith, q.shares j d, p.shares j d);
    delegators = q.delegators ∙ p.delegators;
    bindings = q.bindings ∙ p.bindings;
  }

module _ (c : Chain) (del : ℕ) where
  -- A validator with other shares.
  abbrev pub weighed : (ℤ → ℤ) → Validator → Option Validator
  weighed f v = some (record v { delegator_shares = f v.delegator_shares })

  reweigh-StepEffect :
      (f : ℤ → ℤ) (x : ℤ) (s : Store) (v : Validator)
      → StepEffect del
          (weighed f)
          (some x)
          s
          v
          (reweigh c (set_shares s del v.operator_address x) v (f v.delegator_shares))
  unfolding set_shares delete_validator_by_power_index set_validator set_validator_by_power_index
  reweigh-StepEffect f x s v = record {
    validators = λ j. ground arith;
    shares = λ j d. ground arith;
    delegators = ground arith;
    bindings = ground arith;
  }

  pub add_shares_each-Effect :
      (m : GoMap Validator) (s : Store) (vs : List Validator) (x : ℤ)
      → IsSnapshot m vs
      → Effect del (weighed (λ y. y +ℤ x)) (some x) m s vs (add_shares_each c del s vs x)
  unfolding add_shares_each add_shares
  add_shares_each-Effect m s [] x k = Effect-none s
  add_shares_each-Effect m s (v ∷ vs) x k =
      Effect-cons s (add_shares c del s v x) _ v vs k.0 (reweigh-StepEffect (λ y. y +ℤ x) x s v)
        (add_shares_each-Effect m (add_shares c del s v x) vs x k.1)

  pub update_each-Effect :
      (m : GoMap Validator) (s s' : Store) (vs : List Validator) (last x : ℤ)
      → IsSnapshot m vs
      → update_each c del s vs last x ≡ ok s'
      → Effect del (weighed (λ y. y -ℤ last +ℤ x)) (some x) m s vs s'
  unfolding update_each
  update_each-Effect m s s' [] last x k e =
      subst (Effect del _ (some x) m s []) (ok_inj e) (Effect-none s)
  update_each-Effect m s s' (v ∷ vs) last x k e =
      let s₁ =
        reweigh c (set_shares s del v.operator_address x) v (v.delegator_shares -ℤ last +ℤ x) in
      let (_, e') =
        fail_if-eq-ok (is_zero v.min_self_delegation) _ (update_each c del s₁ vs last x) e in
      Effect-cons s s₁ s' v vs k.0 (reweigh-StepEffect (λ y. y -ℤ last +ℤ x) x s v)
        (update_each-Effect m s₁ s' vs last x k.1 e')

  -- What a withdrawal leaves of a validator.
  abbrev pub withdrawn : ℤ → Validator → Option Validator
  withdrawn x v =
      if leaves_nothing v x
      then none
      else some (record v { delegator_shares = v.delegator_shares -ℤ x })

  pub remove_validator-validators :
      (s s' : Store) (a : ℕ)
      → remove_validator c s a ≡ ok s'
      → ((j : ℕ) → s'.validators j ≡ (if j == a then none else s.validators j))
        × (s'.shares ≡ s.shares)
        × (s'.delegators ≡ s.delegators)
        × (s'.bindings ≡ s.bindings)
  unfolding remove_validator delete_validator_by_power_index
  remove_validator-validators s s' a e = elim (Option-cases (s.validators a)) [
    | inl gone ↦ (λ j. ground arith, ground arith, ground arith, ground arith)
    | inr (v, there) ↦ (λ j. ground arith, ground arith, ground arith, ground arith)
  ]

  withdraw_left-StepEffect :
      (s s' : Store) (v : Validator) (x : ℤ) (b : Bool)
      → leaves_nothing v x ≡ b
      → withdraw_left c (delete_shares s v.operator_address del) v x b ≡ ok s'
      → StepEffect del (withdrawn x) none s v s'
  unfolding delete_shares delete_validator_by_power_index set_validator set_validator_by_power_index
  withdraw_left-StepEffect s s' v x true empty e =
      let s₁ = delete_validator_by_power_index c (delete_shares s v.operator_address del) v in
      let (vals, shares, dels, binds) = remove_validator-validators s₁ s' v.operator_address e in
      record {
        validators = λ j. rw empty (vals j);
        shares = λ j d. ap (λ (f : ℕ → ℕ → Option ℤ). f j d) shares ∙ ground arith;
        delegators = dels;
        bindings = binds;
      }
  withdraw_left-StepEffect s s' v x false full e = record {
    validators = λ j. rw full (rw⁻¹ (ok_inj e) (ground arith));
    shares = λ j d. rw⁻¹ (ok_inj e) (ground arith);
    delegators = rw⁻¹ (ok_inj e) (ground arith);
    bindings = rw⁻¹ (ok_inj e) (ground arith);
  }

  pub withdraw_last_shares-Effect :
      (m : GoMap Validator) (s s' : Store) (vs : List Validator) (x : ℤ)
      → IsSnapshot m vs
      → withdraw_last_shares c del s vs x ≡ ok s'
      → Effect del (withdrawn x) none m s vs s'
  unfolding withdraw_last_shares withdraw_shares
  withdraw_last_shares-Effect m s s' [] x k e =
      subst (Effect del _ none m s []) (ok_inj e) (Effect-none s)
  withdraw_last_shares-Effect m s s' (v ∷ vs) x k e =
      let (s₁, e₁, e₂) =
        >>=-eq-ok (withdraw_shares c del s v x) (λ t. withdraw_last_shares c del t vs x) e in
      Effect-cons s s₁ s' v vs k.0 (withdraw_left-StepEffect s s₁ v x (leaves_nothing v x) refl e₁)
        (withdraw_last_shares-Effect m s₁ s' vs x k.1 e₂)

-- The validators stand under their addresses.
abbrev pub IsAtHome : Store → Type 0
IsAtHome s = (a : ℕ) (v : Validator) → s.validators a ≡ some v → v.operator_address ≡ a

abbrev pub is_some {ℓ} : {A : Type ℓ} → Option A → Bool
is_some none = false
is_some (some _) = true

keep_found-IsSnapshot :
    (m : GoMap Validator) (vs : List Validator) (o : Option Validator)
    → ((v : Validator) → o ≡ some v → m v.operator_address ≡ some v)
    → IsSnapshot m vs
    → IsSnapshot m (keep_found o vs)
keep_found-IsSnapshot m vs none h k = k
keep_found-IsSnapshot m vs (some v) h k = (h v refl, k)

-- The validators that a delegator voted for and that are still there.
pub existing-IsSnapshot :
    (s : Store) (addrs : List ℕ) → IsAtHome s → IsSnapshot s.validators (existing s addrs)
unfolding existing get_validator
existing-IsSnapshot s [] home = tt
existing-IsSnapshot s (a ∷ addrs) home =
    keep_found-IsSnapshot s.validators (existing s addrs) (s.validators a)
      (λ v e. ap s.validators (home a v e) ∙ e) (existing-IsSnapshot s addrs home)

keep_found-is_listed :
    (j a : ℕ) (vs : List Validator) (o : Option Validator)
    → ((v : Validator) → o ≡ some v → v.operator_address ≡ a)
    → is_listed j (keep_found o vs) ≡ (((j == a) && is_some o) || is_listed j vs)
unfolding is_listed
keep_found-is_listed j a vs none h = ground arith
keep_found-is_listed j a vs (some v) h = ground (arith, h v)

pub existing-is_listed :
    (s : Store) (addrs : List ℕ) (j : ℕ)
    → IsAtHome s
    → is_listed j (existing s addrs) ≡ (is_in j addrs && is_some (s.validators j))
unfolding existing get_validator is_listed
existing-is_listed s [] j home = refl
existing-is_listed s (a ∷ addrs) j home =
    keep_found-is_listed j a (existing s addrs) (s.validators a) (home a)
    ∙ ground (arith, existing-is_listed s addrs j home)
