-- ===== src/Staking/Handlers/Revote.antt =====
-- The message that adds shares keeps the shares of the validators and of the delegators fitting.
use faxchain.Base.{ℕ, ◌≡◌, refl, sym, ap, ◌∙◌, subst, some, List, [], ◌∷◌, length, ltb, ◌==◌}
use faxchain.Base.Int.{ℤ, ◌+ℤ◌, is_zero}
use faxchain.Staking.Delegator.{Delegator, has_proxy}
use faxchain.Staking.Result.{
  Result, ok, >>=-eq-ok, fail_if-eq-ok, need-eq-ok, empty_validators, exceed_validators,
  add_shares_during_proxy, ok_inj, no_delegation,
}
use faxchain.Staking.Store.{Chain, Validator, Store, get_delegator, set_delegator}
use faxchain.Staking.Votes.{
  get_last_vals, get_validators_to_add_shares, withdraw_last_shares, add_shares_to_validators,
}
use faxchain.Staking.Votes.Sound.{IsSound}
use faxchain.Staking.Votes.Preserve.{withdraw_last_shares-IsSound}
use faxchain.Staking.Votes.Recast.{get_validators_to_add_shares-IsSnapshot, add_shares_each-IsSound}
use faxchain.Staking.Handlers.{handle_msg_add_shares, revote, validate_shares_adding}
use faxchain.Staking.Votes.{existing, last_vals_of}
use faxchain.Staking.Store.{calculate_weight}
use faxchain.Staking.Handlers.{get_vals_addrs, is_dismissed}

pub get_last_vals-found :
    (s : Store) (a : ℕ) (d : Delegator ℤ)
    → s.delegators a ≡ some d
    → get_last_vals s a ≡ (existing s d.validator_addresses, d.shares)
unfolding get_last_vals get_delegator
get_last_vals-found s a d there = ap (last_vals_of s) there

pub validate_shares_adding-eq-ok {ℓ} :
    {A : Type ℓ} (vs : List Validator) (r : Result A) {x : A}
    → validate_shares_adding vs r ≡ ok x
    → r ≡ ok x
unfolding validate_shares_adding
validate_shares_adding-eq-ok [] r e = absurd (cc)
validate_shares_adding-eq-ok (v ∷ vs) r e = (fail_if-eq-ok (is_dismissed (v ∷ vs)) _ r e).1

module _ (c : Chain) (addrs : List ℕ) where
  revote-IsSound :
      (s s' : Store) (a : ℕ) (d : Delegator ℤ) (names : List ℕ)
      → IsSound c.one_dec addrs s
      → s.delegators a ≡ some d
      → revote c s a d names ≡ ok s'
      → IsSound c.one_dec addrs s'
  unfolding add_shares_to_validators set_delegator
  revote-IsSound s s' a d names sound there e =
      let at = sound.del_home a d there in
      let once = sound.roll a d there in
      let read = get_last_vals-found s a d there in
      let (s₁, e₁, e₂) =
        >>=-eq-ok (withdraw_last_shares c a s (get_last_vals s a).0 (get_last_vals s a).1) _ e in
      let e₃ = ap (λ r. withdraw_last_shares c a s r.0 r.1) (sym read) ∙ e₁ in
      let (sound₁, _) =
        withdraw_last_shares-IsSound c addrs a d (record d { validator_addresses = [] }) s s₁ once
          sound there at refl refl e₃ in
      let (vals, e₄, e₅) = >>=-eq-ok (get_validators_to_add_shares s₁ names) _ e₂ in
      let (snap, _) = get_validators_to_add_shares-IsSnapshot c s₁ names vals sound₁.home e₄ in
      let e₆ = validate_shares_adding-eq-ok vals _ e₅ in
      let (r, e₇, e₈) =
        >>=-eq-ok (add_shares_to_validators c a s₁ vals (d.tokens +ℤ d.total_delegated_tokens)) _
          e₆ in
      let (x, _, e₉) =
        need-eq-ok (calculate_weight c (d.tokens +ℤ d.total_delegated_tokens)) _ _ e₇ in
      subst (IsSound c.one_dec addrs)
        (ap
            (λ (z : ℤ × Store).
              set_delegator z.1
                (record d { validator_addresses = get_vals_addrs vals; shares = z.0 }))
            (ok_inj e₉)
          ∙ ok_inj e₈)
        (add_shares_each-IsSound c addrs a (record d { validator_addresses = [] }) d s₁ vals x once
          at refl at refl sound₁ snap)

  pub handle_msg_add_shares-IsSound :
      (s s' : Store) (a : ℕ) (names : List ℕ)
      → IsSound c.one_dec addrs s
      → handle_msg_add_shares c s a names ≡ ok s'
      → IsSound c.one_dec addrs s'
  unfolding handle_msg_add_shares get_delegator
  handle_msg_add_shares-IsSound s s' a names sound e =
      let (_, e₁) = fail_if-eq-ok (length names == 0) empty_validators _ e in
      let (_, e₂) =
        fail_if-eq-ok (ltb c.max_vals_to_add_shares (length names)) exceed_validators _ e₁ in
      let (d, there, e₃) = need-eq-ok (s.delegators a) no_delegation _ e₂ in
      let (_, e₄) = fail_if-eq-ok (is_zero d.tokens) no_delegation _ e₃ in
      let (_, e₅) = fail_if-eq-ok (has_proxy d) add_shares_during_proxy _ e₄ in
      revote-IsSound s s' a d names sound there e₅
