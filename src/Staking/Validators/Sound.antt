-- ===== src/Staking/Validators/Sound.antt =====
-- Validators that are created and destroyed keep the shares of the validators and of the
-- delegators fitting.
use faxchain.Base.{
  ℕ, ◌≡◌, refl, sym, ap, ap₂, ◌∙◌, subst, true, false, ◌&&◌, Option, none, some, List, GoMap, ◌==◌,
  if◌then◌else◌, arith, Bool-cases, inl, inr,
}
use faxchain.Base.Int.{ℤ, pos, ◌+ℤ◌, ◌-ℤ◌, is_zero, int_laws}
use faxchain.Staking.Delegator.{Delegator}
use faxchain.Staking.Result.{ok, need-eq-ok, if-eq-ok, ok_inj, >>=-eq-ok, panicked}
use faxchain.Staking.Store.{
  Chain, Status, unbonded, unbonding, bonded, Validator, Store, get_validator_by_cons_addr,
  set_validator, set_validator_by_cons_addr, set_new_validator_by_power_index,
  set_validator_by_power_index, delete_validator_by_power_index,
}
use faxchain.Staking.Votes.{remove_validator}
use faxchain.Staking.Votes.Effects.{remove_validator-validators}
use faxchain.Staking.Votes.Sound.{IsSound, own, vote}
use faxchain.Staking.Votes.Sums.{total, total-none, ==_eq}
use faxchain.Staking.Validators.{
  kick, destroyed, destroy_store, append_abandoned, create_store, new_validator,
}

some_inj {ℓ} : {A : Type ℓ} {a b : A} → some a ≡ some b → a ≡ b
some_inj h = cc

spare : (x w t o : ℤ) → x ≡ w +ℤ t → w ≡ o → x -ℤ o ≡ pos 0 +ℤ t
spare x w t o h k = rw h (rw k (omega int_laws))

new_share : (o w : ℤ) → w ≡ o → pos 0 +ℤ o ≡ w +ℤ pos 0
new_share o w h = rw h (omega int_laws)

module _ (c : Chain) (addrs : List ℕ) where
  -- A store with one validator changed.
  changed-IsSound :
      (s s' : Store) (j : ℕ) (o : Option Validator)
      → IsSound c.one_dec addrs s
      → s'.delegators ≡ s.delegators
      → s'.shares ≡ s.shares
      → ((i : ℕ) → s'.validators i ≡ (if i == j then o else s.validators i))
      → ((v : Validator)
          → o ≡ some v
          → (v.operator_address ≡ j)
            × ((a : ℕ) → s.shares j a ≡ vote (s.delegators a) j)
            × (v.delegator_shares ≡ own c.one_dec v +ℤ total addrs (s.shares j)))
      → IsSound c.one_dec addrs s'
  changed-IsSound s s' j o sound dels shares vals new =
      let del : (a : ℕ) → s'.delegators a ≡ s.delegators a =
        λ a. ap (λ (g : GoMap (Delegator ℤ)). g a) dels in
      let share : (i : ℕ) → s'.shares i ≡ s.shares i = λ i. ap (λ (g : ℕ → GoMap ℤ). g i) shares in
      record {
        home = λ i v p. elim (Bool-cases (i == j)) [
          | inl here ↦ (new v (ground (arith, vals i, here, p))).0 ∙ sym (==_eq i j here)
          | inr away ↦ sound.home i v (ground (arith, vals i, away, p))
        ];
        del_home = λ a d p. sound.del_home a d (sym (del a) ∙ p);
        roll = λ a d p. sound.roll a d (sym (del a) ∙ p);
        apart = λ a d q p r. sound.apart a d q (sym (del a) ∙ p) r;
        voted = λ i v a p. ap (λ g. g a) (share i) ∙ elim (Bool-cases (i == j)) [
          | inl here ↦
              ap (λ z. s.shares z a) (==_eq i j here)
              ∙ (new v (ground (arith, vals i, here, p))).1 a
              ∙ ap₂ vote (sym (del a)) (sym (==_eq i j here))
          | inr away ↦
              sound.voted i v a (ground (arith, vals i, away, p)) ∙ ap (λ z. vote z i) (sym (del a))
        ];
        adds_up = λ i v p. elim (Bool-cases (i == j)) [
          | inl here ↦
              (new v (ground (arith, vals i, here, p))).2
              ∙ ap (λ z. own c.one_dec v +ℤ total addrs z)
                  (ap s.shares (sym (==_eq i j here)) ∙ sym (share i))
          | inr away ↦
              sound.adds_up i v (ground (arith, vals i, away, p))
              ∙ ap (λ z. own c.one_dec v +ℤ total addrs z) (sym (share i))
        ];
      }

  pub written-IsSound :
      (s s' : Store) (j : ℕ) (u : Validator)
      → IsSound c.one_dec addrs s
      → s'.delegators ≡ s.delegators
      → s'.shares ≡ s.shares
      → ((i : ℕ) → s'.validators i ≡ (if i == j then some u else s.validators i))
      → u.operator_address ≡ j
      → ((a : ℕ) → s.shares j a ≡ vote (s.delegators a) j)
      → u.delegator_shares ≡ own c.one_dec u +ℤ total addrs (s.shares j)
      → IsSound c.one_dec addrs s'
  written-IsSound s s' j u sound dels shares vals at held adds =
      changed-IsSound s s' j (some u) sound dels shares vals (λ w e.
        subst
          (λ (z : Validator).
            (z.operator_address ≡ j)
            × ((a : ℕ) → s.shares j a ≡ vote (s.delegators a) j)
            × (z.delegator_shares ≡ own c.one_dec z +ℤ total addrs (s.shares j)))
          (some_inj e) (at, held, adds))

  -- A validator without its minimal self delegation.
  abbrev kicked : Validator → Validator
  kicked v = record v {
    min_self_delegation = pos 0;
    jailed = true;
    delegator_shares = v.delegator_shares -ℤ c.one_dec;
  }

  kick-IsSound :
      (s s₀ : Store) (v : Validator)
      → IsSound c.one_dec addrs s
      → s.validators v.operator_address ≡ some v
      → is_zero v.min_self_delegation ≡ false
      → s₀.validators ≡ s.validators
      → s₀.shares ≡ s.shares
      → s₀.delegators ≡ s.delegators
      → IsSound c.one_dec addrs (
          kick c s₀
            (record v { min_self_delegation = pos 0; jailed = true })
            (v.delegator_shares -ℤ c.one_dec))
  unfolding set_validator delete_validator_by_power_index own
  kick-IsSound s s₀ v sound there some_msd vals shares dels =
      written-IsSound s _ v.operator_address (kicked v) sound dels shares
        (λ i.
          ap (λ (g : GoMap Validator). if i == v.operator_address then some (kicked v) else g i)
            vals)
        refl (λ a. sound.voted v.operator_address v a there)
        (spare v.delegator_shares (own c.one_dec v) (total addrs (s.shares v.operator_address))
          c.one_dec (sound.adds_up v.operator_address v there) (ground (arith, some_msd)))

  removed-IsSound :
      (s s₀ s' : Store) (j : ℕ)
      → IsSound c.one_dec addrs s
      → s₀.validators ≡ s.validators
      → s₀.shares ≡ s.shares
      → s₀.delegators ≡ s.delegators
      → remove_validator c s₀ j ≡ ok s'
      → IsSound c.one_dec addrs s'
  removed-IsSound s s₀ s' j sound vals shares dels e =
      let (now, shares', dels', _) = remove_validator-validators c 0 s₀ s' j e in
      changed-IsSound s s' j none sound (dels' ∙ dels) (shares' ∙ shares)
        (λ i. now i ∙ ap (λ (g : GoMap Validator). if i == j then none else g i) vals)
        (λ w e. absurd (cc))

  destroyed-IsSound :
      (s s₀ s' : Store) (v : Validator) (t : Status)
      → IsSound c.one_dec addrs s
      → s.validators v.operator_address ≡ some v
      → is_zero v.min_self_delegation ≡ false
      → s₀.validators ≡ s.validators
      → s₀.shares ≡ s.shares
      → s₀.delegators ≡ s.delegators
      → destroyed c t s₀
          (record v { min_self_delegation = pos 0; jailed = true })
          (v.delegator_shares -ℤ c.one_dec)
        ≡ ok s'
      → IsSound c.one_dec addrs s'
  unfolding append_abandoned
  destroyed-IsSound s s₀ s' v unbonded sound there some_msd vals shares dels e =
      elim (if-eq-ok (is_zero (v.delegator_shares -ℤ c.one_dec) && true)
        (remove_validator c s₀ v.operator_address) _ e) [
          | inl (_, e₁) ↦ removed-IsSound s s₀ s' v.operator_address sound vals shares dels e₁
          | inr (_, e₁) ↦
              subst (IsSound c.one_dec addrs) (ok_inj e₁)
                (kick-IsSound s s₀ v sound there some_msd vals shares dels)
        ]
  destroyed-IsSound s s₀ s' v unbonding sound there some_msd vals shares dels e =
      subst (IsSound c.one_dec addrs) (ok_inj e)
        (kick-IsSound s s₀ v sound there some_msd vals shares dels)
  destroyed-IsSound s s₀ s' v bonded sound there some_msd vals shares dels e =
      let (s₁, e₁, e₂) = >>=-eq-ok (append_abandoned s₀ v.cons_address) _ e in
      let (w, _, e₃) = need-eq-ok (get_validator_by_cons_addr s₀ v.cons_address) panicked _ e₁ in
      subst (IsSound c.one_dec addrs)
        (ap
            (λ z.
              kick c z (record v { min_self_delegation = pos 0; jailed = true })
                (v.delegator_shares -ℤ c.one_dec))
            (ok_inj e₃)
          ∙ ok_inj e₂)
        (kick-IsSound s _ v sound there some_msd vals shares dels)

  pub destroy_store-IsSound :
      (s s' : Store) (v : Validator) (a : ℕ)
      → IsSound c.one_dec addrs s
      → s.validators a ≡ some v
      → is_zero v.min_self_delegation ≡ false
      → destroy_store c s v ≡ ok s'
      → IsSound c.one_dec addrs s'
  unfolding destroy_store
  destroy_store-IsSound s s' v a sound there some_msd e =
      destroyed-IsSound s _ s' v v.status sound (ap s.validators (sound.home a v there) ∙ there)
        some_msd refl refl refl e

  pub create_store-IsSound :
      (s : Store) (j cons_addr : ℕ) (msd : ℤ)
      → IsSound c.one_dec addrs s
      → ((a : ℕ) → (s.shares j a ≡ none) × (vote (s.delegators a) j ≡ none))
      → IsSound c.one_dec addrs (create_store c s (new_validator j cons_addr msd))
  unfolding create_store new_validator set_validator set_validator_by_cons_addr
      set_new_validator_by_power_index delete_validator_by_power_index set_validator_by_power_index
      own
  create_store-IsSound s j cons_addr msd sound fresh =
      let v = new_validator j cons_addr msd in
      let u = record v { delegator_shares = pos 0 +ℤ c.one_dec } in
      written-IsSound s _ j u sound refl refl (λ i. ground arith) refl
        (λ a. (fresh a).0 ∙ sym (fresh a).1)
        (rw (total-none addrs (s.shares j) (λ a. (fresh a).0))
          (new_share c.one_dec (own c.one_dec u) (ground arith)))
