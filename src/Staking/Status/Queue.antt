-- ===== src/Staking/Status/Queue.antt =====
-- The queue of the validators that unbond: who is in it, and that its validators can be unbonded.
use faxchain.Base.{
  ℕ, ◌≡◌, refl, sym, ap, ◌∙◌, subst, true, false, not, ◌&&◌, Option, none, some, List, [], ◌∷◌,
  ◌++◌, GoMap, ◌==◌, if◌then◌else◌, arith, ◌+◌, Bool-cases, inl, inr,
}
use faxchain.Staking.Result.{ok, fail_if-eq-ok, ok_inj, panicked}
use faxchain.Staking.Store.{
  Chain, Status, unbonded, unbonding, bonded, Validator, Store, is_bonded, is_unbonding,
  set_validator, set_validator_by_power_index, delete_validator_by_power_index,
}
use faxchain.Staking.Votes.Sums.{count, ==_eq}
use faxchain.Staking.Status.{
  insert_validator_queue, delete_validator_queue, without, bond_validator, begun, begin_store,
  begin_unbonding_validator,
}

-- How often a validator has to be in the slice of a time.
abbrev pub waits : Option Validator → ℕ → ℕ
waits none t = 0
waits (some v) t = if is_unbonding v.status && (t == v.unbonding_completion_time) then 1 else 0

-- The slices hold the validators that unbond, each once and at its time.
abbrev pub IsQueued : Store → Type 0
IsQueued s = (t a : ℕ) → count a (s.validator_queue t) ≡ waits (s.validators a) t

count-append :
    (a b : ℕ) (xs : List ℕ) → count a (xs ++ (b ∷ [])) ≡ count a xs + (if a == b then 1 else 0)
count-append a b [] = ground arith
count-append a b (x ∷ xs) = ground (arith, count-append a b xs)

count-without :
    (a b : ℕ) (xs : List ℕ) → count a (without b xs) ≡ (if a == b then 0 else count a xs)
count-without a b [] = ground arith
count-without a b (x ∷ xs) = ground (arith, count-without a b xs)

-- A validator leaves the slice of its time, and does not unbond any more.
leaves-IsQueued :
    (s s' : Store) (v v' : Validator)
    → s.validators v.operator_address ≡ some v
    → is_unbonding v'.status ≡ false
    → IsQueued s
    → ((t : ℕ)
        → s'.validator_queue t ≡ (
            if t == v.unbonding_completion_time
            then without v.operator_address (s.validator_queue v.unbonding_completion_time)
            else s.validator_queue t))
    → ((a : ℕ) → s'.validators a ≡ (if a == v.operator_address then some v' else s.validators a))
    → IsQueued s'
leaves-IsQueued s s' v v' there rests q queue vals t a =
    elim (Bool-cases (t == v.unbonding_completion_time)) [
      | inl same ↦
          let k : s'.validator_queue t
              ≡ without v.operator_address (s.validator_queue v.unbonding_completion_time) =
            ground (arith, queue t, same) in
          ap (count a) k
          ∙ count-without a v.operator_address (s.validator_queue v.unbonding_completion_time)
          ∙ ground (
            arith,
            vals a,
            q v.unbonding_completion_time a,
            rests,
            same,
            ==_eq t v.unbonding_completion_time same,
          )
      | inr other ↦
          let k : s'.validator_queue t ≡ s.validator_queue t = ground (arith, queue t, other) in
          ap (count a) k ∙ ground (arith, vals a, q t a, rests, other, there)
    ]

-- A validator that begins to unbond joins the slice of its time.
joins-IsQueued :
    (s s' : Store) (v v' : Validator)
    → s.validators v.operator_address ≡ some v
    → is_unbonding v.status ≡ false
    → is_unbonding v'.status ≡ true
    → IsQueued s
    → ((t : ℕ)
        → s'.validator_queue t ≡ (
            if t == v'.unbonding_completion_time
            then s.validator_queue v'.unbonding_completion_time ++ (v.operator_address ∷ [])
            else s.validator_queue t))
    → ((a : ℕ) → s'.validators a ≡ (if a == v.operator_address then some v' else s.validators a))
    → IsQueued s'
joins-IsQueued s s' v v' there rested waiting q queue vals t a =
    elim (Bool-cases (t == v'.unbonding_completion_time)) [
      | inl same ↦
          let k : s'.validator_queue t
              ≡ s.validator_queue v'.unbonding_completion_time ++ (v.operator_address ∷ []) =
            ground (arith, queue t, same) in
          ap (count a) k
          ∙ count-append a v.operator_address (s.validator_queue v'.unbonding_completion_time)
          ∙ ground (
            arith,
            vals a,
            q v'.unbonding_completion_time a,
            rested,
            waiting,
            there,
            same,
            ==_eq t v'.unbonding_completion_time same,
          )
      | inr other ↦
          let k : s'.validator_queue t ≡ s.validator_queue t = ground (arith, queue t, other) in
          ap (count a) k ∙ ground (arith, vals a, q t a, rested, waiting, other, there)
    ]

rests : (t : Status) → not (is_bonded t) ≡ false → is_unbonding t ≡ false
rests unbonded h = refl
rests unbonding h = absurd (cc)
rests bonded h = refl

module _ (c : Chain) where
  index_keeps :
      (s : Store) (v : Validator)
      → ((set_validator_by_power_index c s v).validators ≡ s.validators)
        × ((set_validator_by_power_index c s v).validator_queue ≡ s.validator_queue)
  unfolding set_validator_by_power_index
  index_keeps s v = elim (Bool-cases v.jailed) [
    | inl jailed ↦ (rw jailed refl, rw jailed refl)
    | inr free ↦ (rw free refl, rw free refl)
  ]

  -- When a validator, as it was read from a store where the queue holds the validators that
  -- unbond, is bonded, its record changes to bonded and nothing else, and it is in no slice of
  -- the queue; all other validators stay as they are and where they are in the queue, which again
  -- holds the validators that unbond.
  pub bond_validator-IsQueued :
      (s : Store) (v : Validator)
      → s.validators v.operator_address ≡ some v
      → IsQueued s
      → IsQueued (bond_validator c s v).0
        × ((bond_validator c s v).0.validators v.operator_address
            ≡ some (record v { status = bonded }))
        × ((t : ℕ) → count v.operator_address ((bond_validator c s v).0.validator_queue t) ≡ 0)
        × ((a : ℕ)
            → (a == v.operator_address) ≡ false
            → ((bond_validator c s v).0.validators a ≡ s.validators a)
              × ((t : ℕ)
                  → count a ((bond_validator c s v).0.validator_queue t)
                    ≡ count a (s.validator_queue t)))
  unfolding bond_validator set_validator delete_validator_by_power_index delete_validator_queue
  bond_validator-IsQueued s v there q =
      let v' = record v { status = bonded } in
      let (vals, queue) =
        index_keeps (set_validator (delete_validator_by_power_index c s v) v') v' in
      let vals_at : (a : ℕ)
          → (bond_validator c s v).0.validators a
            ≡ (if a == v.operator_address then some v' else s.validators a) =
        λ a. ap (λ (g : GoMap Validator). g a) vals in
      let q' =
        leaves-IsQueued s (bond_validator c s v).0 v v' there refl q
          (λ t.
            ap
              (λ (g : ℕ → List ℕ).
                if t == v.unbonding_completion_time
                then without v.operator_address (g v.unbonding_completion_time)
                else g t)
              queue)
          vals_at in
      (
        q',
        ground (arith, vals_at v.operator_address),
        λ t. ground (arith, vals_at v.operator_address, q' t v.operator_address),
        λ a other. (
          ground (arith, vals_at a, other),
          λ t. ground (arith, q' t a, q t a, vals_at a, other),
        ),
      )

  -- When a validator, as it was read from a store where the queue holds the validators that
  -- unbond, begins to unbond without a panic, its record says that it unbonds from the height of
  -- the block until the time of the block and the unbonding time, and it is once in the slice of
  -- this time and in no other one; all other validators stay as they are and where they are in
  -- the queue, which again holds the validators that unbond.
  pub begin_unbonding_validator-IsQueued :
      (s : Store) (v : Validator) (r : Store × Validator)
      → s.validators v.operator_address ≡ some v
      → IsQueued s
      → begin_unbonding_validator c s v ≡ ok r
      → IsQueued r.0
        × (r.0.validators v.operator_address
            ≡ some (record v {
              status = unbonding;
              unbonding_completion_time = c.now + c.unbonding_time;
              unbonding_height = c.height;
            }))
        × ((t : ℕ)
            → count v.operator_address (r.0.validator_queue t)
              ≡ (if t == c.now + c.unbonding_time then 1 else 0))
        × ((a : ℕ)
            → (a == v.operator_address) ≡ false
            → (r.0.validators a ≡ s.validators a)
              × ((t : ℕ) → count a (r.0.validator_queue t) ≡ count a (s.validator_queue t)))
  unfolding begin_unbonding_validator set_validator delete_validator_by_power_index
      insert_validator_queue
  begin_unbonding_validator-IsQueued s v r there q e =
      let (was, e₁) = fail_if-eq-ok (not (is_bonded v.status)) panicked _ e in
      let v' = begun c v in
      let (vals, queue) =
        index_keeps (set_validator (delete_validator_by_power_index c s v) v') v' in
      let store : begin_store c s v v' ≡ r.0 = ap (λ (z : Store × Validator). z.0) (ok_inj e₁) in
      let vals_at : (a : ℕ)
          → r.0.validators a ≡ (if a == v.operator_address then some v' else s.validators a) =
        λ a.
          ap (λ (z : Store). z.validators a) (sym store) ∙ ap (λ (g : GoMap Validator). g a) vals in
      let q' = subst IsQueued store (
        joins-IsQueued s (begin_store c s v v') v v' there (rests v.status was) refl q
          (λ t.
            ap
              (λ (g : ℕ → List ℕ).
                if t == v'.unbonding_completion_time
                then g v'.unbonding_completion_time ++ (v.operator_address ∷ [])
                else g t)
              queue)
          (λ a. ap (λ (g : GoMap Validator). g a) vals)) in
      (
        q',
        ground (arith, vals_at v.operator_address),
        λ t. ground (arith, vals_at v.operator_address, q' t v.operator_address),
        λ a other. (
          ground (arith, vals_at a, other),
          λ t. ground (arith, q' t a, q t a, vals_at a, other),
        ),
      )
