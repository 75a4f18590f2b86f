-- ===== src/Staking/Status/Indexed.antt =====
-- The power index: which validators it holds, over what changes a validator.
use faxchain.Base.{
  ℕ, ◌≡◌, refl, sym, ap, ◌∙◌, subst, Bool, true, false, not, ◌&&◌, Option, none, some, GoMap, ◌==◌,
  if◌then◌else◌, arith, Bool-cases, inl, inr,
}
use faxchain.Base.Int.{ℤ, eqb_ℤ, ◌+ℤ◌}
use faxchain.Staking.Result.{ok, fail_if-eq-ok, ok_inj, panicked}
use faxchain.Staking.Store.{
  Chain, bonded, Validator, Store, is_bonded, potential_power, set_validator, set_shares,
  set_validator_by_power_index, delete_validator_by_power_index,
}
use faxchain.Staking.Votes.{add_shares}
use faxchain.Staking.Status.{
  jail_validator, unjail_validator, bond_validator, begun, begin_store, begin_unbonding_validator,
  complete_unbonding_validator, delete_validator_queue, insert_validator_queue,
}

module _ (c : Chain) where
  abbrev pub indexed : Option Validator → ℤ → Bool
  indexed none x = false
  indexed (some v) x = not v.jailed && eqb_ℤ x (potential_power c v)

  -- The index holds exactly the validators that are not jailed, each at its power.
  abbrev pub IsIndexed : Store → Type 0
  IsIndexed s = (x : ℤ) (a : ℕ) → s.power_index x a ≡ indexed (s.validators a) x

  index_after :
      (s : Store) (v : Validator) (x : ℤ) (a : ℕ)
      → (set_validator_by_power_index c s v).power_index x a ≡ (
          if not v.jailed && (eqb_ℤ x (potential_power c v) && (a == v.operator_address))
          then true
          else s.power_index x a)
  unfolding set_validator_by_power_index
  index_after s v x a = elim (Bool-cases v.jailed) [
    | inl jailed ↦ rw jailed refl
    | inr free ↦ rw free refl
  ]

  -- A validator that was read is taken out of the index, and written with its place in it.
  rewritten-IsIndexed :
      (s s' : Store) (v v' : Validator)
      → s.validators v.operator_address ≡ some v
      → v'.operator_address ≡ v.operator_address
      → IsIndexed s
      → s'.validators ≡ (set_validator s v').validators
      → s'.power_index
        ≡ (set_validator_by_power_index c (delete_validator_by_power_index c s v) v').power_index
      → IsIndexed s'
  unfolding set_validator delete_validator_by_power_index
  rewritten-IsIndexed s s' v v' there same ix vals index x a =
      ap (λ (g : ℤ → ℕ → Bool). g x a) index
      ∙ index_after (delete_validator_by_power_index c s v) v' x a
      ∙ ground (arith, ix x a, there, same)
      ∙ ap (λ (g : GoMap Validator). indexed (g a) x) (sym vals)

  -- What changes a validator as it was read from the store.
  pub data Change : Store → Store → Type 0 where
    gets_shares :
        (s : Store) (v : Validator) (del : ℕ) (x : ℤ)
        → s.validators v.operator_address ≡ some v
        → Change s (add_shares c del s v x)
    bonds :
        (s : Store) (v : Validator)
        → s.validators v.operator_address ≡ some v
        → Change s (bond_validator c s v).0
    begins_unbonding :
        (s : Store) (v : Validator) (r : Store × Validator)
        → s.validators v.operator_address ≡ some v
        → begin_unbonding_validator c s v ≡ ok r
        → Change s r.0
    completes_unbonding :
        (s : Store) (v : Validator)
        → s.validators v.operator_address ≡ some v
        → Change s (complete_unbonding_validator s v).0
    is_jailed :
        (s s' : Store) (v : Validator)
        → s.validators v.operator_address ≡ some v
        → jail_validator c s v ≡ ok s'
        → Change s s'
    is_unjailed :
        (s s' : Store) (v : Validator)
        → s.validators v.operator_address ≡ some v
        → unjail_validator c s v ≡ ok s'
        → Change s s'

  keeps_validators :
      (s : Store) (v : Validator) → (set_validator_by_power_index c s v).validators ≡ s.validators
  unfolding set_validator_by_power_index
  keeps_validators s v = elim (Bool-cases v.jailed) [
    | inl jailed ↦ rw jailed refl
    | inr free ↦ rw free refl
  ]

  -- The index does not read the other parts of the store.
  index_of :
      (s t : Store) (v : Validator)
      → s.power_index ≡ t.power_index
      → (set_validator_by_power_index c s v).power_index
        ≡ (set_validator_by_power_index c t v).power_index
  unfolding set_validator_by_power_index
  index_of s t v e = elim (Bool-cases v.jailed) [
    | inl jailed ↦ rw jailed e
    | inr free ↦ rw free (
        ap
          (λ (g : ℤ → ℕ → Bool). λ x a.
            if eqb_ℤ x (potential_power c v) && (a == v.operator_address) then true else g x a)
          e)
  ]

  jailed-IsIndexed :
      (s : Store) (v : Validator)
      → s.validators v.operator_address ≡ some v
      → v.jailed ≡ false
      → IsIndexed s
      → IsIndexed (
          delete_validator_by_power_index c
            (set_validator s (record v { jailed = true }))
            (record v { jailed = true }))
  unfolding set_validator delete_validator_by_power_index
  jailed-IsIndexed s v there free ix x a = ground (arith, ix x a, there)

  unjailed-IsIndexed :
      (s : Store) (v : Validator)
      → s.validators v.operator_address ≡ some v
      → v.jailed ≡ true
      → IsIndexed s
      → IsIndexed (
          set_validator_by_power_index c
            (set_validator s (record v { jailed = false }))
            (record v { jailed = false }))
  unfolding set_validator set_validator_by_power_index
  unjailed-IsIndexed s v there jailed ix x a = ground (arith, ix x a, there, jailed)

  -- A change of a validator as it was read from the store, that it gets shares, is bonded, begins
  -- or completes to unbond, is jailed or unjailed, keeps the index of the powers: it holds
  -- exactly the validators that are not jailed, each at its power.
  pub Change-IsIndexed : (s s' : Store) → IsIndexed s → Change s s' → IsIndexed s'
  unfolding add_shares bond_validator complete_unbonding_validator begin_unbonding_validator
      jail_validator unjail_validator set_shares set_validator delete_validator_by_power_index
      delete_validator_queue insert_validator_queue
  Change-IsIndexed s _ ix (gets_shares _ v del x there) =
      let v' = record v { delegator_shares = v.delegator_shares +ℤ x } in
      rewritten-IsIndexed s (add_shares c del s v x) v v' there refl ix (keeps_validators _ v')
        (index_of _ _ v' refl)
  Change-IsIndexed s _ ix (bonds _ v there) =
      let v' = record v { status = bonded } in
      rewritten-IsIndexed s (bond_validator c s v).0 v v' there refl ix (keeps_validators _ v')
        (index_of _ _ v' refl)
  Change-IsIndexed s _ ix (begins_unbonding _ v r there e) =
      let (_, e₁) = fail_if-eq-ok (not (is_bonded v.status)) panicked _ e in
      subst (λ (z : Store × Validator). IsIndexed z.0) (ok_inj e₁)
        (rewritten-IsIndexed s (begin_store c s v (begun c v)) v (begun c v) there refl ix
          (keeps_validators _ (begun c v)) (index_of _ _ (begun c v) refl))
  Change-IsIndexed s _ ix (completes_unbonding _ v there) = λ x a. ground (arith, ix x a, there)
  Change-IsIndexed s _ ix (is_jailed _ s' v there e) =
      let (free, e₁) = fail_if-eq-ok v.jailed panicked _ e in
      subst (IsIndexed) (ok_inj e₁) (jailed-IsIndexed s v there free ix)
  Change-IsIndexed s _ ix (is_unjailed _ s' v there e) =
      let (was, e₁) = fail_if-eq-ok (not v.jailed) panicked _ e in
      subst (IsIndexed) (ok_inj e₁) (unjailed-IsIndexed s v there (ground (arith, was)) ix)
