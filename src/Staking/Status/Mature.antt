-- ===== src/Staking/Status/Mature.antt =====
-- The queue at the end of a block: the validators whose time has come are unbonded, and no panic is
-- met.
use faxchain.Base.{
  ℕ, ◌≡◌, refl, ap, ◌∙◌, true, false, ◌&&◌, Option, none, some, List, [], ◌∷◌, is_in, ◌==◌,
  if◌then◌else◌, arith, Bool-cases, inl, inr,
}
use faxchain.Base.Int.{pos, ltb_ℤ, is_zero}
use faxchain.Staking.Result.{Result, ok, ◌>>=◌}
use faxchain.Staking.Store.{
  Chain, unbonded, Validator, Store, is_unbonded, is_unbonding, get_validator, set_validator,
  delete_validator_by_power_index,
}
use faxchain.Staking.Votes.{remove_validator, erase_validator}
use faxchain.Staking.Votes.Effects.{IsAtHome, left}
use faxchain.Staking.Votes.Sums.{count, ==_eq}
use faxchain.Staking.Status.Queue.{waits, IsQueued}
use faxchain.Staking.Status.{
  set_slice, unbonding_to_unbonded, complete_unbonding_validator, mature_one, mature_slice,
  unbond_all_mature,
}

-- No validator holds tokens of its own, as all of them are with the delegators.
pub record IsReady (s : Store) : Type 0 where
  pub home : IsAtHome s
  pub no_tokens : (a : ℕ) (v : Validator) → s.validators a ≡ some v → ltb_ℤ (pos 0) v.tokens ≡ false

-- What a validator is after its time: unbonded, or gone when nobody holds shares of it.
abbrev pub matured : Validator → Option Validator
matured v =
    if is_zero v.delegator_shares && is_zero v.min_self_delegation
    then none
    else some (record v { status = unbonded })

mature_head :
    (a : ℕ) (rest : List ℕ) (o : Option Validator) (t : ℕ)
    → count a (a ∷ rest) ≡ waits o t
    → (v : Validator) × (o ≡ some v)
      × (is_unbonding v.status ≡ true)
      × ((t == v.unbonding_completion_time) ≡ true)
      × (count a rest ≡ 0)
mature_head a rest none t h = absurd (ground (arith, h))
mature_head a rest (some v) t h = (v, refl, ground (arith, h), ground (arith, h), ground (arith, h))

-- After a slice, who waited for its time does not wait, and the others wait as before.
waits_after :
    (o : Option Validator) (t u : ℕ)
    → waits (if waits o t == 1 then left matured o else o) u ≡ (if u == t then 0 else waits o u)
waits_after none t u = ground arith
waits_after (some v) t u = ground arith

waits_of :
    (o' o : Option Validator) (t u : ℕ)
    → o' ≡ (if waits o t == 1 then left matured o else o)
    → waits o' u ≡ (if u == t then 0 else waits o u)
waits_of o' o t u e = ap (λ z. waits z u) e ∙ waits_after o t u

slice_now : (s : Store) (t u : ℕ) → (u == t) ≡ true → (set_slice s t []).validator_queue u ≡ []
slice_now s t u same = ground (arith, same)

slice_kept :
    (s : Store) (t u : ℕ)
    → (u == t) ≡ false
    → (set_slice s t []).validator_queue u ≡ s.validator_queue u
slice_kept s t u other = ground (arith, other)

module _ (s s₁ : Store) (a : ℕ) (v : Validator) where
  matured-IsReady :
      IsReady s
      → s.validators a ≡ some v
      → ((b : ℕ) → s₁.validators b ≡ (if b == a then matured v else s.validators b))
      → IsReady s₁
  matured-IsReady ready there vals = record {
    home = λ b w p. ground (arith, vals b, p, ready.home b w, ready.home a v there);
    no_tokens = λ b w p. ground (arith, vals b, p, ready.no_tokens b w, ready.no_tokens a v there);
  }

  matured-waits :
      (t : ℕ) (rest : List ℕ) (b : ℕ)
      → count b (a ∷ rest) ≡ waits (s.validators b) t
      → count a rest ≡ 0
      → s₁.validators b ≡ (if b == a then matured v else s.validators b)
      → count b rest ≡ waits (s₁.validators b) t
  matured-waits t rest b all none_left vals = elim (Bool-cases (b == a)) [
    | inl same ↦ ap (λ z. count z rest) (==_eq b a same) ∙ none_left ∙ ground (arith, vals, same)
    | inr other ↦ ground (arith, all, vals, other)
  ]

  matured-then :
      (t : ℕ) (b : ℕ) (o : Option Validator)
      → s.validators a ≡ some v
      → is_unbonding v.status ≡ true
      → (t == v.unbonding_completion_time) ≡ true
      → s₁.validators b ≡ (if b == a then matured v else s.validators b)
      → o ≡ (
          if waits (s₁.validators b) t == 1
          then left matured (s₁.validators b)
          else s₁.validators b)
      → o
        ≡ (if waits (s.validators b) t == 1 then left matured (s.validators b) else s.validators b)
  matured-then t b o there waiting due vals rest = elim (Bool-cases (b == a)) [
    | inl same ↦
        let here : s.validators b ≡ some v = ap s.validators (==_eq b a same) ∙ there in
        let now : s₁.validators b ≡ matured v = ground (arith, vals, same) in
        let done : (if waits (s₁.validators b) t == 1
              then left matured (s₁.validators b)
              else s₁.validators b)
            ≡ matured v =
          ground (arith, now) in
        rest ∙ done ∙ ground (arith, here, waiting, due)
    | inr other ↦
        let same : s₁.validators b ≡ s.validators b = ground (arith, vals, other) in
        rest ∙ ap (λ z. if waits z t == 1 then left matured z else z) same
  ]

module _ (c : Chain) where
  remove_validator-ok :
      (s : Store) (a : ℕ) (v : Validator)
      → s.validators a ≡ some v
      → is_unbonded v.status ≡ true
      → ltb_ℤ (pos 0) v.tokens ≡ false
      → (s' : Store) × (remove_validator c s a ≡ ok s')
        × (s'.validator_queue ≡ s.validator_queue)
        × ((b : ℕ) → s'.validators b ≡ (if b == a then none else s.validators b))
  unfolding remove_validator get_validator delete_validator_by_power_index
  remove_validator-ok s a v there rests none_left =
      (erase_validator c s a v, rw there (rw rests (rw none_left refl)), refl, λ b. refl)

  mature_one-ok :
      (s : Store) (a : ℕ) (v : Validator)
      → IsReady s
      → s.validators a ≡ some v
      → is_unbonding v.status ≡ true
      → (s' : Store) × (mature_one c s a ≡ ok s')
        × (s'.validator_queue ≡ s.validator_queue)
        × ((b : ℕ) → s'.validators b ≡ (if b == a then matured v else s.validators b))
  unfolding get_validator unbonding_to_unbonded complete_unbonding_validator set_validator
  mature_one-ok s a v ready there waiting =
      let v' = record v { status = unbonded } in
      let s₁ = set_validator s v' in
      let home = ready.home a v there in
      elim (Bool-cases (is_zero v.delegator_shares && is_zero v.min_self_delegation)) [
        | inl empty ↦
            let (s', e, queue, vals) =
              remove_validator-ok s₁ v.operator_address v' (ground arith) refl
                (ready.no_tokens a v there) in
            (
              s',
              rw there (rw waiting (rw empty e)),
              queue,
              λ b. ground (arith, vals b, home, empty),
            )
        | inr full ↦
            (s₁, rw there (rw waiting (rw full refl)), refl, λ b. ground (arith, home, full))
      ]

  -- The rest of a slice is who still waits for its time.
  mature_slice-ok :
      (t : ℕ) (rest : List ℕ) (s : Store)
      → IsReady s
      → ((a : ℕ) → count a rest ≡ waits (s.validators a) t)
      → (s' : Store) × (mature_slice c s rest ≡ ok s')
        × IsReady s'
        × (s'.validator_queue ≡ s.validator_queue)
        × ((a : ℕ)
            → s'.validators a ≡ (
                if waits (s.validators a) t == 1
                then left matured (s.validators a)
                else s.validators a))
  unfolding mature_slice
  mature_slice-ok t [] s ready all = (s, refl, ready, refl, λ a. ground (arith, all a))
  mature_slice-ok t (a ∷ rest) s ready all =
      let (v, there, waiting, due, none_left) = mature_head a rest (s.validators a) t (all a) in
      let (s₁, e₁, queue₁, vals₁) = mature_one-ok s a v ready there waiting in
      let (s', e', ready', queue', vals') =
        mature_slice-ok t rest s₁ (matured-IsReady s s₁ a v ready there vals₁)
          (λ b. matured-waits s s₁ a v t rest b (all b) none_left (vals₁ b)) in
      (
        s',
        ap (λ (r : Result Store). r >>= λ z. mature_slice c z rest) e₁ ∙ e',
        ready',
        queue' ∙ queue₁,
        λ b. matured-then s s₁ a v t b (s'.validators b) there waiting due (vals₁ b) (vals' b),
      )

  slice-IsQueued :
      (s s₁ : Store) (t : ℕ)
      → IsQueued s
      → s₁.validator_queue ≡ s.validator_queue
      → ((a : ℕ)
          → s₁.validators a ≡ (
              if waits (s.validators a) t == 1
              then left matured (s.validators a)
              else s.validators a))
      → IsQueued (set_slice s₁ t [])
  slice-IsQueued s s₁ t q queue vals u a = elim (Bool-cases (u == t)) [
    | inl same ↦
        ap (count a) (slice_now s₁ t u same)
        ∙ ground (arith, waits_of (s₁.validators a) (s.validators a) t u (vals a), same)
    | inr other ↦
        ap (count a) (slice_kept s₁ t u other ∙ ap (λ (g : ℕ → List ℕ). g u) queue)
        ∙ q u a
        ∙ ground (arith, waits_of (s₁.validators a) (s.validators a) t u (vals a), other)
  ]

  -- In a store where the queue holds the validators that unbond and no validator holds tokens,
  -- the unbonding of the mature ones returns a store without meeting a panic; the queue is right
  -- again, no validator waits for one of the iterated times, and the others wait as before.
  pub unbond_all_mature-ok :
      (times : List ℕ) (s : Store)
      → IsReady s
      → IsQueued s
      → (s' : Store) × (unbond_all_mature c s times ≡ ok s')
        × IsReady s'
        × IsQueued s'
        × ((t a : ℕ)
            → waits (s'.validators a) t ≡ (if is_in t times then 0 else waits (s.validators a) t))
  unfolding unbond_all_mature
  unbond_all_mature-ok [] s ready q = (s, refl, ready, q, λ t a. refl)
  unbond_all_mature-ok (t ∷ times) s ready q =
      let (s₁, e₁, ready₁, queue₁, vals₁) =
        mature_slice-ok t (s.validator_queue t) s ready (λ a. q t a) in
      let (s', e', ready', q', done) =
        unbond_all_mature-ok times (set_slice s₁ t [])
          (record { home = ready₁.home; no_tokens = ready₁.no_tokens })
          (slice-IsQueued s s₁ t q queue₁ vals₁) in
      (
        s',
        ap (λ (r : Result Store). r >>= λ z. unbond_all_mature c (set_slice z t []) times) e₁ ∙ e',
        ready',
        q',
        λ u a.
            done u a
            ∙ ap (λ w. if is_in u times then 0 else w)
                (waits_of (s₁.validators a) (s.validators a) t u (vals₁ a))
            ∙ ground arith,
      )
