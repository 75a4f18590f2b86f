-- ===== src/Staking/Handlers/Outcomes.antt =====
-- What the message that adds shares does, and an update that a destroyed validator stops.
use faxchain.Base.{
  ℕ, ◌≡◌, refl, sym, ap, ap₂, ◌∙◌, true, some, List, [], ◌∷◌, length, ltb, ◌==◌, arith, Bool-cases,
  inl, inr,
}
use faxchain.Base.Int.{ℤ, ◌+ℤ◌, is_zero}
use faxchain.Staking.Delegator.{Delegator, has_proxy}
use faxchain.Staking.Result.{
  ok, err, >>=-eq-ok, fail_if-eq-ok, need-eq-ok, empty_validators, exceed_validators,
  add_shares_during_proxy, ok_inj, no_delegation,
}
use faxchain.Staking.Store.{Chain, Validator, Store, get_delegator, set_delegator}
use faxchain.Staking.Votes.{
  get_last_vals, get_validators_to_add_shares, withdraw_last_shares, add_shares_to_validators,
  update_shares,
}
use faxchain.Staking.Votes.Sound.{IsSound}
use faxchain.Staking.Votes.Preserve.{withdraw_last_shares-IsSound}
use faxchain.Staking.Votes.Recast.{get_validators_to_add_shares-IsSnapshot}
use faxchain.Staking.Handlers.{handle_msg_add_shares, revote}
use faxchain.Staking.Votes.{existing}
use faxchain.Staking.Store.{calculate_weight}
use faxchain.Staking.Handlers.{get_vals_addrs, is_dismissed}
use faxchain.Base.{◌≤◌}
use faxchain.Base.Int.{◌+ℤ◌}
use faxchain.Staking.Handlers.Revote.{get_last_vals-found, validate_shares_adding-eq-ok}
use faxchain.Staking.Votes.{update_each, update_vals}
use faxchain.Staking.Result.{add_shares_to_dismission}

module _ (c : Chain) (addrs : List ℕ) where
  revote-outcome :
      (s s' : Store) (a : ℕ) (d : Delegator ℤ) (names : List ℕ)
      → IsSound c.one_dec addrs s
      → s.delegators a ≡ some d
      → revote c s a d names ≡ ok s'
      → (x : ℤ) × (calculate_weight c (d.tokens +ℤ d.total_delegated_tokens) ≡ some x)
        × (s'.delegators a ≡ some (record d { validator_addresses = names; shares = x }))
  unfolding add_shares_to_validators set_delegator
  revote-outcome s s' a d names sound there e =
      let at = sound.del_home a d there in
      let once = sound.roll a d there in
      let read = get_last_vals-found s a d there in
      let (s₁, e₁, e₂) =
        >>=-eq-ok (withdraw_last_shares c a s (get_last_vals s a).0 (get_last_vals s a).1) _ e in
      let e₃ = ap (λ r. withdraw_last_shares c a s r.0 r.1) (sym read) ∙ e₁ in
      let (sound₁, _) =
        withdraw_last_shares-IsSound c addrs a d (record d { validator_addresses = [] }) s s₁ once
          sound there at refl refl e₃ in
      let (vals, e₄, e₅) = >>=-eq-ok (get_validators_to_add_shares s₁ names) _ e₂ in
      let (_, same) = get_validators_to_add_shares-IsSnapshot c s₁ names vals sound₁.home e₄ in
      let e₆ = validate_shares_adding-eq-ok vals _ e₅ in
      let (r, e₇, e₈) =
        >>=-eq-ok (add_shares_to_validators c a s₁ vals (d.tokens +ℤ d.total_delegated_tokens)) _
          e₆ in
      let (x, weight, e₉) =
        need-eq-ok (calculate_weight c (d.tokens +ℤ d.total_delegated_tokens)) _ _ e₇ in
      let share : r.0 ≡ x = ap (λ (z : ℤ × Store). z.0) (sym (ok_inj e₉)) in
      let written : s'.delegators a
          ≡ some (record d { validator_addresses = get_vals_addrs vals; shares = r.0 }) =
        ap (λ (z : Store). z.delegators a) (sym (ok_inj e₈)) ∙ ground (arith, at) in
      (
        x,
        weight,
        written ∙ ap₂ (λ n y. some (record d { validator_addresses = n; shares = y })) same share,
      )

  -- When shares are added in a sound store, the number of validators lies between 1 and the
  -- maximum, and the delegator has afterwards exactly these validators and as shares the weight
  -- of its tokens with those delegated to it.
  pub handle_msg_add_shares-bounds :
      (s s' : Store) (a : ℕ) (names : List ℕ)
      → IsSound c.one_dec addrs s
      → handle_msg_add_shares c s a names ≡ ok s'
      → (1 ≤ length names)
        × (length names ≤ c.max_vals_to_add_shares)
        × ((d : Delegator ℤ) × (x : ℤ) × (s.delegators a ≡ some d)
            × (calculate_weight c (d.tokens +ℤ d.total_delegated_tokens) ≡ some x)
            × (s'.delegators a ≡ some (record d { validator_addresses = names; shares = x })))
  unfolding handle_msg_add_shares get_delegator
  handle_msg_add_shares-bounds s s' a names sound e =
      let (low, e₁) = fail_if-eq-ok (length names == 0) empty_validators _ e in
      let (high, e₂) =
        fail_if-eq-ok (ltb c.max_vals_to_add_shares (length names)) exceed_validators _ e₁ in
      let (d, there, e₃) = need-eq-ok (s.delegators a) no_delegation _ e₂ in
      let (_, e₄) = fail_if-eq-ok (is_zero d.tokens) no_delegation _ e₃ in
      let (_, e₅) = fail_if-eq-ok (has_proxy d) add_shares_during_proxy _ e₄ in
      let (x, weight, now) = revote-outcome s s' a d names sound there e₅ in
      (ground (arith, low), ground (arith, high), (d, x, there, weight, now))

module _ (c : Chain) where
  update_each-dismissed :
      (del : ℕ) (vs : List Validator) (s : Store) (last x : ℤ)
      → is_dismissed vs ≡ true
      → update_each c del s vs last x ≡ err add_shares_to_dismission
  unfolding update_each is_dismissed
  update_each-dismissed del [] s last x h = absurd (cc)
  update_each-dismissed del (v ∷ vs) s last x h =
      elim (Bool-cases (is_zero v.min_self_delegation)) [
        | inl zero_msd ↦ rw zero_msd refl
        | inr other ↦ rw other (update_each-dismissed del vs _ last x (ground (arith, h, other)))
      ]

  update_vals-dismissed :
      (del : ℕ) (d : Delegator ℤ) (s : Store) (tokens x last : ℤ) (vs : List Validator)
      → s.delegators del ≡ some d
      → calculate_weight c tokens ≡ some x
      → is_dismissed vs ≡ true
      → update_vals c del s tokens vs last ≡ err add_shares_to_dismission
  unfolding get_delegator is_dismissed
  update_vals-dismissed del d s tokens x last [] there weight h = absurd (cc)
  update_vals-dismissed del d s tokens x last (v ∷ vs) there weight h =
      rw weight (rw there (rw (update_each-dismissed del (v ∷ vs) s last x h) refl))

  -- While one of the validators that a delegator voted for is there without minimal self
  -- delegation, an update of its shares whose weight is known fails with the error of adding
  -- shares to it.
  pub update_shares-dismissed :
      (s : Store) (del : ℕ) (d : Delegator ℤ) (tokens x : ℤ)
      → s.delegators del ≡ some d
      → calculate_weight c tokens ≡ some x
      → is_dismissed (existing s d.validator_addresses) ≡ true
      → update_shares c s del tokens ≡ err add_shares_to_dismission
  unfolding update_shares
  update_shares-dismissed s del d tokens x there weight h =
      ap (λ (r : List Validator × ℤ). update_vals c del s tokens r.0 r.1)
        (get_last_vals-found s del d there)
      ∙ update_vals-dismissed del d s tokens x d.shares (existing s d.validator_addresses) there
          weight h
