-- ===== src/Evm/Snapshot/Lifecycle.antt =====
-- Suicide, creation of an account and withdrawal of a balance can be reverted.
use faxchain.Base.{
  ℕ, ◌-◌, ◌≡◌, refl, sym, ap, ◌∙◌, subst, Bool, true, false, none, some, some_inj, arith, ◌==◌, ltb,
  Option-cases, Bool-cases, inl, inr, if◌then◌else◌,
}
use faxchain.Evm.StateObject.{Env, StateObject, set_object_balance, set_object_nonce}
use faxchain.Evm.Journal.{StateDb}
use faxchain.Evm.StateDb.{set_state_object, put_balance, sub_balance, suicide, create_account}
use faxchain.Evm.StateDb.View.{account_view, object_view, preimage_view, update, panics}
use faxchain.Evm.StateDb.WellFormed.{
  IsWell, IsSound, get_state_object-some, get_state_object-none, get_state_object-panics,
}
use faxchain.Evm.Snapshot.Undo.{append_entry-Appended, append_entry-Restores}
use faxchain.Evm.Snapshot.Objects.{set_object_balance-Keeps}
use faxchain.Evm.Snapshot.Accounts.{
  Reversible, Live, Reversible-trans, Fetched-Reversible, Fetched-Live,
}
use faxchain.Evm.Snapshot.Creation.{get_or_new-Reversible, get_or_new-panics, errored-Reversible}
use faxchain.Evm.Snapshot.Operations.{
  Succeeds, Undoable, Succeeds-Undoable, put_balance-Succeeds, same-Reversible,
  suicide_object-Succeeds,
}
use faxchain.Evm.StateObject.{eth_object}
use faxchain.Evm.StateDb.{create_object, create_over}
use faxchain.Evm.Journal.{reset_object_change}
use faxchain.Evm.StateDb.WellFormed.{
  account_view-set, set_state_object-HasObjects, set_state_object-HasRest,
}
use faxchain.Evm.Snapshot.Accounts.{written, written_accounts, written-IsWell}
use faxchain.Evm.Snapshot.Creation.{
  fresh_object, fresh_object-live, fresh_object-IsSound, reset-UndoesTo, create_missing-Reversible,
}

module _ (env : Env) where
  pub suicide-panics : (s : StateDb) (a : ℕ) → panics s a ≡ true → suicide env s a ≡ none
  unfolding suicide
  suicide-panics s a bad = rw (get_state_object-panics env s a bad) refl

  pub suicide-Reversible :
      (s : StateDb) (a : ℕ)
      → IsWell s
      → panics s a ≡ false
      → (found : Bool) × (s' : StateDb) × (suicide env s a ≡ some (found, s')) × Reversible env s s'
  unfolding suicide
  suicide-Reversible s a w calm = elim (Option-cases (account_view env s a)) [
    | inl missing ↦
        let (e, found, _) = get_state_object-none env s a missing calm w.objects in
        (false, record s { db_err = e }, rw found, errored-Reversible env s e w)
    | inr (av, there) ↦
        let (so, s₁, f) = get_state_object-some env s a av there w.objects in
        let r = Fetched-Reversible env s a so s₁ w f in
        let (s₂, runs, r') =
          suicide_object-Succeeds env s₁ a so r.well (Fetched-Live env s a so s₁ f) in
        (true, s₂, rw (f.found, runs), Reversible-trans env s s₁ s₂ r r')
  ]

  -- `Suicide` can be reverted where it does not panic.
  pub suicide-Undoable :
      (s s' : StateDb) (a : ℕ) (found : Bool)
      → IsWell s
      → suicide env s a ≡ some (found, s')
      → Reversible env s s'
  suicide-Undoable s s' a found w h = elim (Bool-cases (panics s a)) [
    | inl bad ↦ absurd (ground (arith, suicide-panics s a bad, h))
    | inr calm ↦
        let (b, t, runs, r) = suicide-Reversible s a w calm in
        subst (Reversible env s) (ap (λ (z : Bool × StateDb). z.1) (some_inj (sym runs ∙ h))) r
  ]

  -- A withdrawal that does not panic.
  withdraw-Reversible :
      (s s' : StateDb) (a v : ℕ) (so : StateObject)
      → IsWell s
      → Live env s a so
      → (if v == 0
          then some s
          else if ltb so.account.balance v
          then none
          else put_balance env s so (so.account.balance - v))
        ≡ some s'
      → Reversible env s s'
  withdraw-Reversible s s' a v so w l h =
      let (s₁, runs, r) = put_balance-Succeeds env s a so (so.account.balance - v) w l in
      let nothing = same-Reversible env s w in
      elim (Bool-cases (v == 0)) [
        | inl zero_amount ↦ subst (Reversible env s) (ground arith) nothing
        | inr some_amount ↦ elim (Bool-cases (ltb so.account.balance v)) [
          | inl short ↦ absurd (ground arith)
          | inr enough ↦ subst (Reversible env s) (ground arith) r
        ]
      ]

  pub sub_balance-Reversible :
      (s s' : StateDb) (a v : ℕ) → IsWell s → sub_balance env s a v ≡ some s' → Reversible env s s'
  unfolding sub_balance
  sub_balance-Reversible s s' a v w h = elim (Bool-cases (panics s a)) [
    | inl bad ↦ absurd (ground (arith, get_or_new-panics env s a bad, h))
    | inr calm ↦
        let (so, s₁, runs, r, l, _) = get_or_new-Reversible env s a w calm in
        Reversible-trans env s s₁ s' r (withdraw-Reversible s₁ s' a v so r.well l (rw runs at h))
  ]

  -- `CreateAccount` over a live object carries its balance over.
  module _ (s : StateDb) (prev : StateObject) (w : IsWell s)
      (l : Live env s prev.address prev) where
    abbrev carried : StateObject
    carried = set_object_balance (fresh_object env prev.address) prev.account.balance

    carried-IsSound : IsSound carried
    carried-IsSound =
        (set_object_balance-Keeps prev.account.balance).sound _
          (fresh_object-IsSound env prev.address)

    abbrev replaced : StateDb
    replaced =
        written env s (reset_object_change prev) (fresh_object env prev.address) w (l.sound, l.live)
          (fresh_object-IsSound env prev.address) (fresh_object-live env prev.address)

    replaced_runs :
        create_over env s prev.address (some prev)
        ≡ some (fresh_object env prev.address, some prev, replaced)
    unfolding create_over
    replaced_runs =
        let step = append_entry-Appended s (reset_object_change prev) w.tracked in
        rw (step.runs ∙ ap some step.shape)

    replaced-IsWell : IsWell replaced
    replaced-IsWell =
        written-IsWell env s (reset_object_change prev) (fresh_object env prev.address) w
          (l.sound, l.live) (fresh_object-IsSound env prev.address)
          (fresh_object-live env prev.address)

    carried_accounts :
        (j : ℕ)
        → account_view env (set_state_object replaced carried) j
          ≡ update (account_view env s) prev.address (some (object_view env s.stores carried)) j
    unfolding set_object_balance set_object_nonce eth_object set_state_object
    carried_accounts j = ground (
      arith,
      account_view-set env replaced carried j replaced-IsWell.objects refl,
      written_accounts env s (reset_object_change prev) (fresh_object env prev.address) w
          (l.sound, l.live) (fresh_object-IsSound env prev.address)
          (fresh_object-live env prev.address) j,
    )

    carried-Reversible : Reversible env s (set_state_object replaced carried)
    unfolding set_state_object preimage_view
    carried-Reversible = record {
      restores =
          append_entry-Restores env s (set_state_object replaced carried) (reset_object_change prev)
            (append_entry-Appended s (reset_object_change prev) w.tracked) w refl refl
            (reset-UndoesTo env s (set_state_object replaced carried) prev
              (some (object_view env s.stores carried)) l refl carried_accounts (λ h. refl) refl);
      well = record {
        objects =
            set_state_object-HasObjects replaced carried replaced-IsWell.objects carried-IsSound
              (carried-live);
        rest = set_state_object-HasRest replaced carried replaced-IsWell.rest;
        tracked = replaced-IsWell.tracked;
        kept = replaced-IsWell.kept;
      };
      stores = refl;
      revisions = refl;
    }
      where
        carried-live : carried.deleted ≡ false
        carried-live =
            (set_object_balance-Keeps prev.account.balance).deleted _
            ∙ fresh_object-live env prev.address

  pub create_account-panics :
      (s : StateDb) (a : ℕ) → panics s a ≡ true → create_account env s a ≡ none
  unfolding create_account create_object
  create_account-panics s a bad = rw (get_state_object-panics env s a bad) refl

  pub create_account-Succeeds :
      (s : StateDb) (a : ℕ)
      → IsWell s
      → panics s a ≡ false
      → Succeeds env s (create_account env s a)
  unfolding create_account create_object
  create_account-Succeeds s a w calm = elim (Option-cases (account_view env s a)) [
    | inl missing ↦
        let (s', runs, r, _) = create_missing-Reversible env s a w calm missing in (s', rw runs, r)
    | inr (av, there) ↦
        let (prev, s₁, f) = get_state_object-some env s a av there w.objects in
        let r = Fetched-Reversible env s a prev s₁ w f in
        let l = subst (λ b. Live env s₁ b prev) (sym f.home) (Fetched-Live env s a prev s₁ f) in
        (
          set_state_object (replaced s₁ prev r.well l) (carried s₁ prev r.well l),
          rw (f.found, ← f.home, replaced_runs s₁ prev r.well l),
          Reversible-trans env s s₁ _ r (carried-Reversible s₁ prev r.well l),
        )
  ]

  -- `CreateAccount` can be reverted where it does not panic.
  pub create_account-Undoable :
      (s : StateDb) (a : ℕ) → IsWell s → Undoable env s (create_account env s a)
  create_account-Undoable s a w = elim (Bool-cases (panics s a)) [
    | inl bad ↦ λ t h. absurd (ground (arith, create_account-panics s a bad, h))
    | inr calm ↦ Succeeds-Undoable env s _ (create_account-Succeeds s a w calm)
  ]
