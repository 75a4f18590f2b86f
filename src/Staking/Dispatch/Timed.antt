-- ===== src/Staking/Dispatch/Timed.antt =====
-- The undelegations and the keys of the times at which they are due.
use mathlib.Core.Option
use faxchain.Base.{
  ℕ, ◌≡◌, refl, sym, ap, ◌∙◌, subst, Bool, true, false, not, ◌&&◌, ◌||◌, Option, none, some, List,
  [], ◌∷◌, ◌==◌, leb, ◌<◌, if◌then◌else◌, arith, Option-cases, Bool-cases, inl, inr,
}
use faxchain.Base.Int.{ℤ, ◌+ℤ◌}
use faxchain.Staking.Result.{Result, ok, >>=-eq-ok, ok_inj}
use faxchain.Staking.Store.{Chain, Store, set_validator}
use faxchain.Staking.Delegation.{
  Coin, Bank, Ledger, undelegate, merge_undelegation, get_undelegating, set_undelegating,
  delete_undelegating, set_addr_by_time_key, delete_addr_by_time_key, UndelegationInfo,
  handle_msg_deposit, complete_all, complete_undelegation, or_same, completion_time_of,
}
use faxchain.Staking.Validators.{merge_msd}
use faxchain.Staking.Votes.Sums.{==_eq}
use faxchain.Staking.Dispatch.Inversion.{
  deposit-eq-ok, withdraw-eq-ok, destroy-eq-ok, create-eq-ok, edit-eq-ok,
}
use faxchain.Staking.Dispatch.{
  Message, create_validator, edit_validator, deposit_msg, withdraw_msg, add_shares_msg,
  bind_proxy_msg, unbind_proxy_msg, reg_proxy_msg, destroy_validator, on_store, handle,
}

abbrev pub is_due : Option UndelegationInfo → ℕ → Bool
is_due none t = false
is_due (some u) t = t == u.completion_time

-- Whether a time and an address are among the keys.
unfoldable pub is_key : ℕ → ℕ → List (ℕ × ℕ) → Bool
is_key t a [] = false
is_key t a ((u, b) ∷ rest) = ((t == u) && (a == b)) || is_key t a rest

module _ {B : Type 0} where
  -- Each undelegation stands under its delegator, and has the key of its time and no other key.
  pub record IsTimed (l : Ledger B) : Type 0 where
    pub home : (a : ℕ) (u : UndelegationInfo) → l.undelegations a ≡ some u → u.delegator_address ≡ a
    pub keyed : (t a : ℕ) → l.time_keys t a ≡ is_due (l.undelegations a) t

  merge_undelegation-IsTimed :
      (l : Ledger B) (a : ℕ) (x : ℤ) (t : ℕ) (o : Option UndelegationInfo)
      → IsTimed l
      → l.undelegations a ≡ o
      → IsTimed (merge_undelegation l a x t o)
  unfolding set_undelegating set_addr_by_time_key delete_addr_by_time_key
  merge_undelegation-IsTimed l a x t none timed e = record {
    home = λ b u p. ground (arith, p, timed.home b u);
    keyed = λ t' b. ground (arith, timed.keyed t' b, e);
  }
  merge_undelegation-IsTimed l a x t (some u) timed e = record {
    home = λ b w p. ground (arith, p, timed.home b w, timed.home a u e);
    keyed = λ t' b. ground (arith, timed.keyed t' b, e, timed.home a u e);
  }

  merge_msd-same :
      (l : Ledger B) (a : ℕ) (x : ℤ) (t : ℕ) (o : Option UndelegationInfo)
      → ((u : UndelegationInfo) → o ≡ some u → u.delegator_address ≡ a)
      → merge_msd l a x t o ≡ merge_undelegation l a x t o
  merge_msd-same l a x t none h = refl
  merge_msd-same l a x t (some u) h =
      ap
        (λ b.
          set_addr_by_time_key
            (set_undelegating (delete_addr_by_time_key l u.completion_time a)
              (record u { quantity = u.quantity +ℤ x; completion_time = t }))
            t b)
        (h u refl)

  -- A ledger with another store and bank.
  moved-IsTimed :
      (l : Ledger B) (s : Store) (b : B) → IsTimed l → IsTimed (record l { store = s; bank = b })
  moved-IsTimed l s b timed = record { home = timed.home; keyed = timed.keyed }

  undelegate-IsTimed :
      (l : Ledger B) (a : ℕ) (x : ℤ) (t : ℕ) → IsTimed l → IsTimed (undelegate l a x t)
  unfolding undelegate get_undelegating
  undelegate-IsTimed l a x t timed =
      merge_undelegation-IsTimed l a x t (l.undelegations a) timed refl

module _ {B : Type 0} (c : Chain) (k : Bank B) where
  stored-IsTimed :
      (l l' : Ledger B) (r : Result Store) → IsTimed l → on_store l r ≡ ok l' → IsTimed l'
  stored-IsTimed l l' r timed e =
      let (s, _, e₁) = >>=-eq-ok r _ e in
      subst (IsTimed) (ok_inj e₁) (moved-IsTimed l s l.bank timed)

  deposit-IsTimed :
      (l l' : Ledger B) (a : ℕ) (token : Coin)
      → IsTimed l
      → handle_msg_deposit c k l a token ≡ ok l'
      → IsTimed l'
  deposit-IsTimed l l' a token timed e =
      let (s, b, _, _, e₁) = deposit-eq-ok c k l l' a token e in
      subst (IsTimed) e₁ (moved-IsTimed l s b timed)

  -- A message that succeeds keeps each undelegation under its delegator with the key of its
  -- completion time and no other key.
  pub handle-IsTimed :
      (l l' : Ledger B) (m : Message) → IsTimed l → handle c k l m ≡ ok l' → IsTimed l'
  unfolding handle get_undelegating
  handle-IsTimed l l' (create_validator msg) timed e =
      let (b, _, _, e₁) = create-eq-ok c k l l' msg e in
      subst (IsTimed) e₁ (moved-IsTimed l _ b timed)
  handle-IsTimed l l' (edit_validator a b) timed e =
      let (v, _, e₁) = edit-eq-ok c k l l' a b e in
      subst (IsTimed) e₁ (moved-IsTimed l (set_validator l.store v) l.bank timed)
  handle-IsTimed l l' (deposit_msg a token) timed e = deposit-IsTimed l l' a token timed e
  handle-IsTimed l l' (withdraw_msg a token) timed e =
      let (d, s, b, _, _, _, _, _, e₁) = withdraw-eq-ok c k l l' a token e in
      subst (IsTimed) e₁ (
        undelegate-IsTimed (record l { store = s; bank = b }) a token.amount (completion_time_of c)
          (moved-IsTimed l s b timed))
  handle-IsTimed l l' (add_shares_msg a names) timed e = stored-IsTimed l l' _ timed e
  handle-IsTimed l l' (bind_proxy_msg a p) timed e = stored-IsTimed l l' _ timed e
  handle-IsTimed l l' (unbind_proxy_msg a) timed e = stored-IsTimed l l' _ timed e
  handle-IsTimed l l' (reg_proxy_msg a reg bound) timed e = stored-IsTimed l l' _ timed e
  handle-IsTimed l l' (destroy_validator a) timed e =
      let (v, s, b, _, _, _, e₁) = destroy-eq-ok c k l l' a e in
      let l₁ = record l { store = s; bank = b } in
      let timed₁ = moved-IsTimed l s b timed in
      subst (IsTimed)
        (sym (
            merge_msd-same l₁ a v.min_self_delegation (completion_time_of c) (l.undelegations a)
              (λ u p. timed.home a u p))
          ∙ e₁)
        (merge_undelegation-IsTimed l₁ a v.min_self_delegation (completion_time_of c)
          (l.undelegations a) timed₁ refl)

  -- Whether the bank pays what an undelegation of an address holds; `none` when none is there.
  abbrev pub payment : Ledger B → ℕ → Option (Option B)
  payment l a =
      Option.map
        (λ (u : UndelegationInfo).
          k.undelegate_coins l.bank u.delegator_address
            (record { denom = k.default_bond_denom; amount = u.quantity }))
        (l.undelegations a)

  abbrev pub is_refusal : Option (Option B) → Bool
  is_refusal none = false
  is_refusal (some none) = true
  is_refusal (some (some _)) = false

  abbrev pub is_payment : Option (Option B) → Bool
  is_payment none = false
  is_payment (some none) = false
  is_payment (some (some _)) = true

  -- The ledger behind one key.
  abbrev pub complete_one : Ledger B → ℕ → ℕ → Ledger B
  complete_one l t a =
      or_same (delete_addr_by_time_key l t a)
        (complete_undelegation c k (delete_addr_by_time_key l t a) a)

  -- Whether the bank refuses to pay an address when one of its keys is reached.
  unfoldable pub is_refused : Ledger B → List (ℕ × ℕ) → ℕ → Bool
  is_refused l [] a = false
  is_refused l ((t, b) ∷ rest) a =
      ((b == a) && is_refusal (payment l b)) || is_refused (complete_one l t b) rest a

  -- Whether the bank pays an address when one of its keys is reached.
  unfoldable pub is_paid : Ledger B → List (ℕ × ℕ) → ℕ → Bool
  is_paid l [] a = false
  is_paid l ((t, b) ∷ rest) a =
      ((b == a) && is_payment (payment l b)) || is_paid (complete_one l t b) rest a

  -- One key: it is gone, and so is the undelegation when it is paid.
  record Completed (l : Ledger B) (t a : ℕ) (l' : Ledger B) : Type 0 where
    store : l'.store ≡ l.store
    keys : (u b : ℕ) → l'.time_keys u b ≡ (l.time_keys u b && not ((u == t) && (b == a)))
    undelegations :
        (b : ℕ)
        → l'.undelegations b
          ≡ (if (a == b) && is_payment (payment l a) then none else l.undelegations b)

  complete_one-Completed : (l : Ledger B) (t a : ℕ) → Completed l t a (complete_one l t a)
  unfolding complete_undelegation get_undelegating delete_addr_by_time_key delete_undelegating
  complete_one-Completed l t a = elim (Option-cases (l.undelegations a)) [
    | inl gone ↦ rw gone (record {
      store = refl;
      keys = λ u b. ground arith;
      undelegations = λ b. ground (arith, gone);
    })
    | inr (u, there) ↦
        elim (Option-cases (
          k.undelegate_coins l.bank u.delegator_address
            (record { denom = k.default_bond_denom; amount = u.quantity }))) [
              | inl refused ↦ rw there (
                  rw refused (record {
                    store = refl;
                    keys = λ u b. ground arith;
                    undelegations = λ b. ground (arith, there);
                  }))
              | inr (b', paid) ↦ rw there (
                  rw paid (record {
                    store = refl;
                    keys = λ u b. ground arith;
                    undelegations = λ b. ground (arith, there);
                  }))
            ]
  ]

  complete_all-Completed :
      (keys : List (ℕ × ℕ)) (l : Ledger B)
      → ((complete_all c k l keys).store ≡ l.store)
        × ((t a : ℕ)
            → (complete_all c k l keys).time_keys t a ≡ (l.time_keys t a && not (is_key t a keys)))
        × ((a : ℕ)
            → (complete_all c k l keys).undelegations a
              ≡ (if is_paid l keys a then none else l.undelegations a))
  unfolding complete_all is_key is_paid
  complete_all-Completed [] l = (refl, λ t a. ground arith, λ a. refl)
  complete_all-Completed ((t, b) ∷ rest) l =
      let one = complete_one-Completed l t b in
      let (store, keys, undelegations) = complete_all-Completed rest (complete_one l t b) in
      (
        store ∙ one.store,
        λ u a. keys u a ∙ ground (arith, one.keys u a),
        λ a. undelegations a ∙ ground (arith, one.undelegations a),
      )

  -- Who is neither paid nor refused has no key, if anything waits to be paid to it.
  not_reached :
      (keys : List (ℕ × ℕ)) (l : Ledger B) (t a : ℕ) (u : UndelegationInfo)
      → l.undelegations a ≡ some u
      → is_refused l keys a ≡ false
      → is_paid l keys a ≡ false
      → is_key t a keys ≡ false
  unfolding is_refused is_paid is_key
  not_reached [] l t a u there r p = refl
  not_reached ((t₁, b) ∷ rest) l t a u there r p = elim (Bool-cases (b == a)) [
    | inl same ↦ elim (Option-cases (payment l b)) [
      | inl gone ↦ absurd (ground (arith, gone, there, same, ==_eq b a same))
      | inr (none, refuses) ↦ absurd (ground (arith, refuses, r, same))
      | inr (some b', pays) ↦ absurd (ground (arith, pays, p, same))
    ]
    | inr other ↦
        let rests : is_refused (complete_one l t₁ b) rest a ≡ false = ground (arith, r, other) in
        let rests' : is_paid (complete_one l t₁ b) rest a ≡ false = ground (arith, p, other) in
        let left : (complete_one l t₁ b).undelegations a ≡ some u =
          ground (arith, (complete_one-Completed l t₁ b).undelegations a, other, there) in
        ground (arith, not_reached rest (complete_one l t₁ b) t a u left rests rests', other)
  ]

  paid_key :
      (keys : List (ℕ × ℕ)) (l : Ledger B) (a : ℕ)
      → is_paid l keys a ≡ true
      → (t : ℕ) × (is_key t a keys ≡ true)
  unfolding is_paid is_key
  paid_key [] l a p = absurd (cc)
  paid_key ((t, b) ∷ rest) l a p = elim (Bool-cases (b == a)) [
    | inl same ↦ (t, ground (arith, same))
    | inr other ↦
        let later : is_paid (complete_one l t b) rest a ≡ true = ground (arith, p, other) in
        let (u, key) = paid_key rest (complete_one l t b) a later in (u, ground (arith, key))
  ]

  unrefused-keyed :
      (keys : List (ℕ × ℕ)) (l : Ledger B) (t a : ℕ)
      → IsTimed l
      → ((t a : ℕ) → is_key t a keys ≡ true → l.time_keys t a ≡ true)
      → is_refused l keys a ≡ false
      → (complete_all c k l keys).time_keys t a
        ≡ is_due ((complete_all c k l keys).undelegations a) t
  unrefused-keyed keys l t a timed due r =
      let (_, left, undelegations) = complete_all-Completed keys l in
      elim (Bool-cases (is_paid l keys a)) [
        | inl p ↦
            let (t₁, key) = paid_key keys l a p in
            ground (
              arith,
              left t a,
              undelegations a,
              p,
              key,
              due t₁ a key,
              timed.keyed t a,
              timed.keyed t₁ a,
            )
        | inr p ↦ elim (Option-cases (l.undelegations a)) [
          | inl gone ↦ ground (arith, left t a, undelegations a, p, gone, timed.keyed t a)
          | inr (u, there) ↦
              let unreached = not_reached keys l t a u there r p in
              ground (arith, left t a, undelegations a, p, there, timed.keyed t a, unreached)
        ]
      ]

  -- When each undelegation has the key of its time and no other key, and the iterated keys are
  -- among them, completing undelegations keeps the store, removes exactly the iterated keys,
  -- whether the bank pays or not, and exactly the undelegations that the bank pays; of a
  -- delegator that the bank does not refuse, what is left has its key and no other.
  pub complete_all-IsTimed :
      (keys : List (ℕ × ℕ)) (l : Ledger B)
      → IsTimed l
      → ((t a : ℕ) → is_key t a keys ≡ true → l.time_keys t a ≡ true)
      → ((complete_all c k l keys).store ≡ l.store)
        × ((t a : ℕ)
            → (complete_all c k l keys).time_keys t a ≡ (l.time_keys t a && not (is_key t a keys)))
        × ((a : ℕ)
            → (complete_all c k l keys).undelegations a
              ≡ (if is_paid l keys a then none else l.undelegations a))
        × ((t a : ℕ)
            → is_refused l keys a ≡ false
            → (complete_all c k l keys).time_keys t a
              ≡ is_due ((complete_all c k l keys).undelegations a) t)
  complete_all-IsTimed keys l timed due =
      let (store, left, undelegations) = complete_all-Completed keys l in
      (store, left, undelegations, λ t a r. unrefused-keyed keys l t a timed due r)

  -- When each undelegation has the key of its time and no other key, and the keys that a block
  -- iterates are those due at its time, an undelegation that is left after the block and that the
  -- bank did not refuse to pay is not due yet.
  pub complete_all-matured :
      (keys : List (ℕ × ℕ)) (l : Ledger B)
      → IsTimed l
      → ((t a : ℕ) → is_key t a keys ≡ (l.time_keys t a && leb t c.now))
      → (a : ℕ) (u : UndelegationInfo) → (complete_all c k l keys).undelegations a ≡ some u
      → is_refused l keys a ≡ false
      → c.now < u.completion_time
  complete_all-matured keys l timed all a u there r =
      let (_, _, undelegations) = complete_all-Completed keys l in
      elim (Bool-cases (is_paid l keys a)) [
        | inl p ↦ absurd (ground (arith, undelegations a, p, there))
        | inr p ↦
            let waits : l.undelegations a ≡ some u = ground (arith, undelegations a, p, there) in
            let unreached = not_reached keys l u.completion_time a u waits r p in
            ground
              (arith, timed.keyed u.completion_time a, waits, all u.completion_time a, unreached)
      ]
