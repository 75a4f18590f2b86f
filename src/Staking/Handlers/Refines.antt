-- ===== src/Staking/Handlers/Refines.antt =====
-- The votes as ballots: what a delegator voted for, and with how many shares. The message that adds
-- shares casts one ballot.
use faxchain.Base.{
  ℕ, ◌≡◌, refl, sym, ap, fun_ext, ◌∙◌, Option, none, some, is_in, if◌then◌else◌, List, [], length,
  ltb, ◌==◌, arith, Bool-cases, inl, inr,
}
use faxchain.Base.Int.{ℤ, ◌+ℤ◌, is_zero}
use faxchain.Staking.Delegator.{Delegator, has_proxy}
use faxchain.Staking.Result.{
  ok, >>=-eq-ok, fail_if-eq-ok, need-eq-ok, empty_validators, exceed_validators,
  add_shares_during_proxy, ok_inj, no_delegation,
}
use faxchain.Staking.Store.{Chain, Validator, Store, get_delegator, set_delegator}
use faxchain.Staking.Votes.{
  get_last_vals, get_validators_to_add_shares, withdraw_last_shares, add_shares_to_validators,
}
use faxchain.Staking.Votes.Sound.{IsSound, own, vote}
use faxchain.Staking.Votes.Preserve.{withdraw_last_shares-IsSound}
use faxchain.Staking.Votes.Recast.{get_validators_to_add_shares-IsSnapshot}
use faxchain.Staking.Handlers.{handle_msg_add_shares, revote}
use faxchain.Staking.Votes.{existing}
use faxchain.Staking.Store.{calculate_weight}
use faxchain.Staking.Handlers.{get_vals_addrs}
use faxchain.Staking.Handlers.Revote.{
  get_last_vals-found, validate_shares_adding-eq-ok, handle_msg_add_shares-IsSound,
}
use faxchain.Staking.Votes.{add_shares_each}
use faxchain.Staking.Votes.Effects.{
  withdraw_last_shares-Effect, add_shares_each-Effect, existing-IsSnapshot, IsAtHome,
}
use faxchain.Staking.Votes.Sums.{total}

abbrev pub Ballot : Type 0
Ballot = List ℕ × ℤ

abbrev pub ballot_of : Option (Delegator ℤ) → Option Ballot
ballot_of none = none
ballot_of (some d) = some (d.validator_addresses, d.shares)

-- The ballots of a store.
abbrev pub ballots : Store → ℕ → Option Ballot
ballots s a = ballot_of (s.delegators a)

abbrev pub cast_ballot : ℕ → Ballot → (ℕ → Option Ballot) → ℕ → Option Ballot
cast_ballot a b f i = if i == a then some b else f i

-- What a ballot gives to a validator.
abbrev pub gives : Option Ballot → ℕ → Option ℤ
gives none j = none
gives (some (names, x)) j = if is_in j names then some x else none

gives-vote : (o : Option (Delegator ℤ)) (j : ℕ) → vote o j ≡ gives (ballot_of o) j
gives-vote none j = refl
gives-vote (some d) j = refl

cast_written :
    (s : Store) (a : ℕ) (t : Store) (d : Delegator ℤ) (names : List ℕ) (x : ℤ) (i : ℕ)
    → d.delegator_address ≡ a
    → t.delegators ≡ s.delegators
    → ballots (set_delegator t (record d { validator_addresses = names; shares = x })) i
      ≡ cast_ballot a (names, x) (ballots s) i
unfolding set_delegator
cast_written s a t d names x i at same =
    let kept = ap (λ (g : ℕ → Option (Delegator ℤ)). g i) same in
    elim (Bool-cases (i == a)) [
      | inl here ↦ ground (arith, at, here)
      | inr away ↦ ground (arith, at, away, kept)
    ]

module _ (c : Chain) (addrs : List ℕ) where
  -- The shares of each validator are counted from the ballots.
  IsSound-counted :
      (s : Store)
      → IsSound c.one_dec addrs s
      → (j : ℕ) (v : Validator) → s.validators j ≡ some v
      → v.delegator_shares ≡ own c.one_dec v +ℤ total addrs (λ a. gives (ballots s a) j)
  IsSound-counted s sound j v there =
      sound.adds_up j v there
      ∙ ap (λ g. own c.one_dec v +ℤ total addrs g)
          (fun_ext (λ a. sound.voted j v a there ∙ gives-vote (s.delegators a) j))

  sound_home :
      (s : Store) (d : Delegator ℤ) (a : ℕ)
      → IsSound c.one_dec addrs (set_delegator s (record d { validator_addresses = [] }))
      → IsAtHome s
  unfolding set_delegator
  sound_home s d a sound = sound.home

  revote-ballots :
      (s s' : Store) (a : ℕ) (d : Delegator ℤ) (names : List ℕ)
      → IsSound c.one_dec addrs s
      → s.delegators a ≡ some d
      → revote c s a d names ≡ ok s'
      → (x : ℤ) × ((i : ℕ) → ballots s' i ≡ cast_ballot a (names, x) (ballots s) i)
  unfolding add_shares_to_validators
  revote-ballots s s' a d names sound there e =
      let at = sound.del_home a d there in
      let once = sound.roll a d there in
      let read = get_last_vals-found s a d there in
      let (s₁, e₁, e₂) =
        >>=-eq-ok (withdraw_last_shares c a s (get_last_vals s a).0 (get_last_vals s a).1) _ e in
      let e₃ = ap (λ r. withdraw_last_shares c a s r.0 r.1) (sym read) ∙ e₁ in
      let (sound₁, _) =
        withdraw_last_shares-IsSound c addrs a d (record d { validator_addresses = [] }) s s₁ once
          sound there at refl refl e₃ in
      let first =
        withdraw_last_shares-Effect c a s.validators s s₁ (existing s d.validator_addresses)
          d.shares (existing-IsSnapshot s d.validator_addresses sound.home) e₃ in
      let (vals, e₄, e₅) = >>=-eq-ok (get_validators_to_add_shares s₁ names) _ e₂ in
      let (snap, same) =
        get_validators_to_add_shares-IsSnapshot c s₁ names vals (sound_home s₁ d a sound₁) e₄ in
      let e₆ = validate_shares_adding-eq-ok vals _ e₅ in
      let (r, e₇, e₈) =
        >>=-eq-ok (add_shares_to_validators c a s₁ vals (d.tokens +ℤ d.total_delegated_tokens)) _
          e₆ in
      let (x, weight, e₉) =
        need-eq-ok (calculate_weight c (d.tokens +ℤ d.total_delegated_tokens)) _ _ e₇ in
      let second = add_shares_each-Effect c a s₁.validators s₁ vals x snap in
      let result : set_delegator (add_shares_each c a s₁ vals x)
            (record d { validator_addresses = get_vals_addrs vals; shares = x })
          ≡ s' =
        ap
          (λ (z : ℤ × Store).
            set_delegator z.1
              (record d { validator_addresses = get_vals_addrs vals; shares = z.0 }))
          (ok_inj e₉)
        ∙ ok_inj e₈ in
      (
        x,
        λ i.
            ap (λ (z : Store). ballots z i) (sym result)
            ∙ cast_written s a (add_shares_each c a s₁ vals x) d (get_vals_addrs vals) x i at
                (second.delegators ∙ first.delegators)
            ∙ ap (λ n. cast_ballot a (n, x) (ballots s) i) same,
      )

  -- Seen as ballots, of which each delegator has one with a list of validators and its shares,
  -- the message that adds shares in a sound store casts one ballot with the given list, and the
  -- shares of every validator that is there are counted from the ballots.
  pub handle_msg_add_shares-refines :
      (s s' : Store) (a : ℕ) (names : List ℕ)
      → IsSound c.one_dec addrs s
      → handle_msg_add_shares c s a names ≡ ok s'
      → (x : ℤ) × ((i : ℕ) → ballots s' i ≡ cast_ballot a (names, x) (ballots s) i)
        × ((j : ℕ) (v : Validator)
            → s'.validators j ≡ some v
            → v.delegator_shares
              ≡ own c.one_dec v
                +ℤ total addrs (λ i. gives (cast_ballot a (names, x) (ballots s) i) j))
  unfolding handle_msg_add_shares get_delegator
  handle_msg_add_shares-refines s s' a names sound e =
      let (_, e₁) = fail_if-eq-ok (length names == 0) empty_validators _ e in
      let (_, e₂) =
        fail_if-eq-ok (ltb c.max_vals_to_add_shares (length names)) exceed_validators _ e₁ in
      let (d, there, e₃) = need-eq-ok (s.delegators a) no_delegation _ e₂ in
      let (_, e₄) = fail_if-eq-ok (is_zero d.tokens) no_delegation _ e₃ in
      let (_, e₅) = fail_if-eq-ok (has_proxy d) add_shares_during_proxy _ e₄ in
      let (x, cast) = revote-ballots s s' a d names sound there e₅ in
      let sound' = handle_msg_add_shares-IsSound c addrs s s' a names sound e in
      (
        x,
        cast,
        λ j v p.
            IsSound-counted s' sound' j v p
            ∙ ap (λ (f : ℕ → Option Ballot). own c.one_dec v +ℤ total addrs (λ i. gives (f i) j))
                (fun_ext cast),
      )
