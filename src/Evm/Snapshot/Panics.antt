-- ===== src/Evm/Snapshot/Panics.antt =====
-- The setters that panic at an account that is not an `EthAccount`, and nowhere else.
use faxchain.Base.{
  ℕ, ◌+◌, ◌-◌, ◌≡◌, ◌≢◌, refl, not, ◌&&◌, ◌||◌, ltb, ◌==◌, arith, Bool-cases, inl, inr, Bool, true,
  false, Option, none, ◌>>=◌,
}
use faxchain.Evm.StateObject.{Env, StateObject, is_empty_object}
use faxchain.Evm.Journal.{StateDb}
use faxchain.Evm.StateDb.{
  get_or_new_state_object, add_balance, sub_balance, add_object_balance, sub_object_balance, ripemd,
}
use faxchain.Evm.StateDb.View.{account_view, panics}
use faxchain.Evm.StateDb.WellFormed.{IsWell}
use faxchain.Evm.Snapshot.Accounts.{Live, Reversible, Reversible-trans}
use faxchain.Evm.Snapshot.Creation.{get_or_new-Reversible, get_or_new-panics, balance_of}
use faxchain.Evm.Snapshot.Operations.{
  Succeeds, same-Reversible, touch-Succeeds, put_balance-Succeeds,
}

-- A call that panics, or one that does not, leaves a good state and can be reverted.
abbrev pub Ends : Env → StateDb → Bool → Option StateDb → Type 0
Ends env s true o = o ≡ none
Ends env s false o = Succeeds env s o

module _ (env : Env) where
  Ends-after :
      (s s₁ : StateDb) (b : Bool) (o : Option StateDb)
      → Reversible env s s₁
      → Ends env s₁ b o
      → Ends env s b o
  Ends-after s s₁ true o r h = h
  Ends-after s s₁ false o r (s₂, runs, r') = (s₂, runs, Reversible-trans env s s₁ s₂ r r')

  -- The same where the operation panics at some balances.
  on_balance-Ends :
      (f : StateObject → StateDb → Option StateDb) (g : ℕ → Bool) (s : StateDb) (a : ℕ) (b : Bool)
      → panics s a ≡ b
      → ((so : StateObject) (s' : StateDb)
          → IsWell s'
          → Live env s' a so
          → Ends env s' (g so.account.balance) (f so s'))
      → IsWell s
      → Ends env s
          (b || g (balance_of (account_view env s a)))
          (get_or_new_state_object env s a >>= λ (so, s'). f so s')
  on_balance-Ends f g s a true bad h w = rw (get_or_new-panics env s a bad) refl
  on_balance-Ends f g s a false calm h w =
      let (so, s₁, runs, r, l, same) = get_or_new-Reversible env s a w calm in
      rw (runs, ← same) (Ends-after s s₁ (g so.account.balance) (f so s₁) r (h so s₁ r.well l))

  add_to-Ends :
      (s : StateDb) (a v : ℕ) (so : StateObject)
      → (v ≡ 0 → a ≢ ripemd)
      → IsWell s
      → Live env s a so
      → Ends env s
          (not (v == 0) && ltb env.max_dec (so.account.balance + v))
          (add_object_balance env s so v)
  add_to-Ends s a v so ne w l = elim (Bool-cases (v == 0)) [
    | inl zero_amount ↦ elim (Bool-cases (is_empty_object env so)) [
      | inl empty ↦
          rw (zero_amount, empty) (touch-Succeeds env s a so (ne (ground (arith, zero_amount))) w l)
      | inr full ↦ rw (zero_amount, full) (s, refl, same-Reversible env s w)
    ]
    | inr some_amount ↦ elim (Bool-cases (ltb env.max_dec (so.account.balance + v))) [
      | inl over ↦ rw (some_amount, over) refl
      | inr fits ↦
          rw (some_amount, fits) (put_balance-Succeeds env s a so (so.account.balance + v) w l)
    ]
  ]

  sub_from-Ends :
      (s : StateDb) (a v : ℕ) (so : StateObject)
      → IsWell s
      → Live env s a so
      → Ends env s (not (v == 0) && ltb so.account.balance v) (sub_object_balance env s so v)
  sub_from-Ends s a v so w l = elim (Bool-cases (v == 0)) [
    | inl zero_amount ↦ rw zero_amount (s, refl, same-Reversible env s w)
    | inr some_amount ↦ elim (Bool-cases (ltb so.account.balance v)) [
      | inl short ↦ rw (some_amount, short) refl
      | inr enough ↦
          rw (some_amount, enough) (put_balance-Succeeds env s a so (so.account.balance - v) w l)
    ]
  ]

  -- From a well-formed database, with no amount of 0 for RIPEMD, AddBalance panics exactly where
  -- the account that it would load is not an EthAccount or where the sum of the balance that the
  -- view shows and an amount other than 0 exceeds the largest decimal, and SubBalance where the
  -- account is not an EthAccount or the balance does not cover the amount; otherwise both leave a
  -- well-formed database that can be turned back.
  pub balances-End :
      (s : StateDb) (a v : ℕ)
      → (v ≡ 0 → a ≢ ripemd)
      → IsWell s
      → let balance = balance_of (account_view env s a) in
        Ends env s
          (panics s a || (not (v == 0) && ltb env.max_dec (balance + v)))
          (add_balance env s a v)
        × Ends env s (panics s a || (not (v == 0) && ltb balance v)) (sub_balance env s a v)
  unfolding add_balance sub_balance
  balances-End s a v ne w = (
    on_balance-Ends (λ so s'. add_object_balance env s' so v)
        (λ b. not (v == 0) && ltb env.max_dec (b + v)) s a (panics s a) refl
        (λ so s' w' l. add_to-Ends s' a v so ne w' l) w,
    on_balance-Ends (λ so s'. sub_object_balance env s' so v) (λ b. not (v == 0) && ltb b v) s a
        (panics s a) refl (λ so s' w' l. sub_from-Ends s' a v so w' l) w,
  )
