-- ===== src/Staking/Votes/Sound.antt =====
-- The shares of the validators and of the delegators fit: what `DelegatorAddSharesInvariant`
-- (staking/keeper/invariants.go) checks, with the votes that make it hold.
use faxchain.Base.{
  ℕ, ◌≡◌, refl, sym, ap, ap₂, fun_ext, ◌∙◌, true, false, ◌&&◌, Option, none, some, List, is_in,
  ◌==◌, if◌then◌else◌, arith, Bool-cases, Option-cases, inl, inr,
}
use faxchain.Base.Int.{ℤ, pos, ◌+ℤ◌, ◌-ℤ◌, is_zero, int_laws}
use faxchain.Staking.Delegator.{Delegator}
use faxchain.Staking.Store.{Validator, Store}
use faxchain.Staking.Votes.{existing}
use faxchain.Staking.Votes.Effects.{is_listed, IsAtHome, Effect, left, existing-is_listed}
use faxchain.Staking.Votes.Sums.{amount, total, total_change, count}

-- What a delegator has at a validator.
abbrev pub vote : Option (Delegator ℤ) → ℕ → Option ℤ
vote none j = none
vote (some d) j = if is_in j d.validator_addresses then some d.shares else none

left-eq-some {ℓ κ} :
    {A : Type ℓ} {B : Type κ} (h : A → Option B) (o : Option A) (b : B)
    → left h o ≡ some b
    → (a : A) × (o ≡ some a) × (h a ≡ some b)
left-eq-some h none b e = absurd (cc)
left-eq-some h (some a) b e = (a, refl, e)

balance :
    (x x' w w' t t' old new : ℤ)
    → x ≡ w +ℤ t
    → w' ≡ w
    → x' ≡ x -ℤ old +ℤ new
    → t' ≡ t -ℤ old +ℤ new
    → x' ≡ w' +ℤ t'
balance x x' w w' t t' old new h k m n = rw m (rw n (rw k (rw h (omega int_laws))))

module _ (one : ℤ) where
  -- The shares of the minimal self delegation.
  unfoldable pub own : Validator → ℤ
  own v = if is_zero v.min_self_delegation && v.jailed then pos 0 else one

  abbrev pub IsAddedUp : List ℕ → Store → Type 0
  IsAddedUp addrs s =
      (j : ℕ) (v : Validator)
      → s.validators j ≡ some v
      → v.delegator_shares ≡ own v +ℤ total addrs (s.shares j)

  -- Each delegator is once among the addresses, and none is its own proxy.
  pub record IsSound (addrs : List ℕ) (s : Store) : Type 0 where
    pub home : IsAtHome s
    pub del_home : (a : ℕ) (d : Delegator ℤ) → s.delegators a ≡ some d → d.delegator_address ≡ a
    pub roll : (a : ℕ) (d : Delegator ℤ) → s.delegators a ≡ some d → count a addrs ≡ 1
    pub apart :
        (a : ℕ) (d : Delegator ℤ) (p : ℕ)
        → s.delegators a ≡ some d
        → d.proxy_address ≡ some p
        → (a == p) ≡ false
    pub voted :
        (j : ℕ) (v : Validator) (a : ℕ)
        → s.validators j ≡ some v
        → s.shares j a ≡ vote (s.delegators a) j
    pub adds_up : IsAddedUp addrs s

  -- An effect that changes the total of a validator as it changes the share of the delegator.
  pub Effect-adds_up :
      (addrs : List ℕ) (del : ℕ) (h : Validator → Option Validator) (old o : Option ℤ)
      (s s' : Store) (vs : List Validator)
      → count del addrs ≡ 1
      → IsAddedUp addrs s
      → ((v v' : Validator)
          → h v ≡ some v'
          → (own v' ≡ own v) × (v'.delegator_shares ≡ v.delegator_shares -ℤ amount old +ℤ amount o))
      → ((j : ℕ) → is_listed j vs ≡ true → s.shares j del ≡ old)
      → Effect del h o s.validators s vs s'
      → IsAddedUp addrs s'
  Effect-adds_up addrs del h old o s s' vs once add_up change held e j v' there =
      elim (Bool-cases (is_listed j vs)) [
        | inl listed ↦
            let (v, was, now) =
              left-eq-some h (s.validators j) v'
                (rw⁻¹ there (ground (arith, listed, e.validators j))) in
            let (own_same, shares) = change v v' now in
            let sum =
              total_change addrs (s.shares j) (s'.shares j) del once
                (λ a away. ground (arith, e.shares j a, away)) in
            let was_held = held j listed in
            let now_held : s'.shares j del ≡ o = ground (arith, e.shares j del, listed) in
            balance v.delegator_shares v'.delegator_shares (own v) (own v')
              (total addrs (s.shares j)) (total addrs (s'.shares j)) (amount old) (amount o)
              (add_up j v was) own_same shares
              (sum
                ∙ ap₂ (λ x y. total addrs (s.shares j) -ℤ amount x +ℤ amount y) was_held now_held)
        | inr other ↦
            let same : some v' ≡ s.validators j =
              sym there ∙ ground (arith, e.validators j, other) in
            add_up j v' (sym same)
            ∙ ap (λ g. own v' +ℤ total addrs g) (fun_ext (λ a. ground (arith, e.shares j a, other)))
      ]

  pub Effect-IsAtHome :
      {del : ℕ} {h : Validator → Option Validator} {o : Option ℤ} (s s' : Store)
      (vs : List Validator)
      → IsAtHome s
      → ((v v' : Validator) → h v ≡ some v' → v'.operator_address ≡ v.operator_address)
      → Effect del h o s.validators s vs s'
      → IsAtHome s'
  Effect-IsAtHome {h = h} s s' vs home keeps e j v' there = elim (Bool-cases (is_listed j vs)) [
    | inl listed ↦
        let (v, was, now) =
          left-eq-some h (s.validators j) v'
            (rw⁻¹ there (ground (arith, listed, e.validators j))) in
        keeps v v' now ∙ home j v was
    | inr other ↦ home j v' (rw⁻¹ there (ground (arith, other, e.validators j)))
  ]

  -- A validator that is there was there before.
  pub Effect-existing :
      {del : ℕ} {h : Validator → Option Validator} {o : Option ℤ} (s s' : Store)
      (vs : List Validator)
      → Effect del h o s.validators s vs s'
      → (j : ℕ) (v' : Validator) → s'.validators j ≡ some v'
      → (v : Validator) × (s.validators j ≡ some v)
  Effect-existing {h = h} s s' vs e j v' there = elim (Bool-cases (is_listed j vs)) [
    | inl listed ↦
        let (v, was, _) =
          left-eq-some h (s.validators j) v'
            (rw⁻¹ there (ground (arith, listed, e.validators j))) in
        (v, was)
    | inr other ↦ (v', rw⁻¹ there (ground (arith, other, e.validators j)))
  ]

  -- The validators that are listed are those that the delegator voted for.
  pub listed-voted :
      (addrs : List ℕ) (del : ℕ) (d : Delegator ℤ) (s : Store) (j : ℕ)
      → IsSound addrs s
      → s.delegators del ≡ some d
      → is_listed j (existing s d.validator_addresses) ≡ true
      → s.shares j del ≡ some d.shares
  listed-voted addrs del d s j sound there listed =
      let k = sym (existing-is_listed s d.validator_addresses j sound.home) ∙ listed in
      elim (Option-cases (s.validators j)) [
        | inl gone ↦ absurd (ground (arith, k, gone))
        | inr (v, is) ↦ sound.voted j v del is ∙ ground (arith, k, there)
      ]
