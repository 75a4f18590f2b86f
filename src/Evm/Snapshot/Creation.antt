-- ===== src/Evm/Snapshot/Creation.antt =====
-- Creating an account, and replacing one, are restored by a revert of their journal entries.
use faxchain.Base.{
  ℕ, ◌≡◌, refl, sym, ap, ◌∙◌, subst, Bool, true, false, Option, none, some, arith, ◌==◌,
  Option-cases, inl, inr, if◌then◌else◌,
}
use faxchain.Evm.Table.{remove}
use faxchain.Evm.Table.Removal.{get-remove, remove-IsIndexed, remove-IsExact}
use faxchain.Evm.StateObject.{Env, StateObject, Stores, eth_object, proto_account, set_object_nonce}
use faxchain.Evm.Journal.{create_object_change, reset_object_change, StateDb}
use faxchain.Evm.StateDb.{set_state_object, create_over, create_object, get_or_new_state_object}
use faxchain.Evm.StateDb.View.{
  AccountView, account_view, object_view, panics, preimage_view, rest_view, update,
}
use faxchain.Evm.StateDb.WellFormed.{
  IsWell, HasObjects, IsSound, get_state_object-some, get_state_object-none,
  get_state_object-panics, account_view-set, set_state_object-HasObjects, set_state_object-HasRest,
  eth_object-IsSound,
}
use faxchain.Evm.Snapshot.{undo_entry}
use faxchain.Evm.Snapshot.Undo.{UndoesTo, append_entry-Appended, silent-Restores}
use faxchain.Evm.Snapshot.Accounts.{
  Reversible, Live, Reversible-trans, written, written_accounts, written-Reversible, written-Live,
  Fetched-Reversible, Fetched-Live,
}

-- The balance that a view shows, 0 where there is no account.
abbrev pub balance_of : Option AccountView → ℕ
balance_of none = 0
balance_of (some v) = v.balance

module _ (env : Env) where
  -- The object that `createObject` makes.
  abbrev pub fresh_object : ℕ → StateObject
  fresh_object addr = set_object_nonce (eth_object env addr (proto_account env)) 0

  pub fresh_object-IsSound : (addr : ℕ) → IsSound (fresh_object addr)
  unfolding set_object_nonce
  fresh_object-IsSound addr =
      let w = eth_object-IsSound env addr (proto_account env) in
      record { origin = w.origin; dirty = w.dirty }

  pub fresh_object-live : (addr : ℕ) → (fresh_object addr).deleted ≡ false
  unfolding set_object_nonce eth_object
  fresh_object-live addr = refl

  fresh_balance : (addr : ℕ) → (fresh_object addr).account.balance ≡ 0
  unfolding set_object_nonce eth_object proto_account
  fresh_balance addr = refl

  removed-HasObjects :
      (t : StateDb) (a : ℕ) (f : ℕ → Bool)
      → HasObjects t
      → HasObjects (record t { state_objects_dirty = f; state_objects = remove t.state_objects a })
  removed-HasObjects t a f h = record {
    indexed = remove-IsIndexed t.state_objects a h.indexed h.exact;
    exact = remove-IsExact t.state_objects a h.indexed h.exact;
    at_home =
        λ j so e. h.at_home j so (ground (arith, get-remove t.state_objects a j h.indexed h.exact));
  }

  removed_accounts :
      (t : StateDb) (a : ℕ) (f : ℕ → Bool) (j : ℕ)
      → HasObjects t
      → t.stores.accounts a ≡ none
      → account_view env
          (record t { state_objects_dirty = f; state_objects = remove t.state_objects a })
          j
        ≡ update (account_view env t) a none j
  unfolding account_view
  removed_accounts t a f j h unstored =
      ground (arith, get-remove t.state_objects a j h.indexed h.exact)

  -- The undoing of a creation: the account is not there, as before.
  create-UndoesTo :
      (s s' : StateDb) (a : ℕ) (o : Option AccountView)
      → account_view env s a ≡ none
      → s.stores.accounts a ≡ none
      → s'.stores ≡ s.stores
      → ((j : ℕ) → account_view env s' j ≡ update (account_view env s) a o j)
      → ((h : ℕ) → preimage_view s h ≡ preimage_view s' h)
      → rest_view s ≡ rest_view s'
      → UndoesTo env (create_object_change a) s' s
  unfolding undo_entry preimage_view
  create-UndoesTo s s' a o missing unstored stores accounts pre rest t ho hr ag = (
    record t {
      state_objects_dirty = λ j. if j == a then false else t.state_objects_dirty j;
      state_objects = remove t.state_objects a;
    },
    refl,
    record {
      accounts = λ j. ground (
        arith,
        missing,
        accounts j,
        ag.accounts j,
        removed_accounts t a (λ i. if i == a then false else t.state_objects_dirty i) j ho
            (ap (λ (st : Stores). st.accounts a) (sym ag.stores ∙ stores) ∙ unstored),
      );
      preimages = λ h. pre h ∙ ag.preimages h;
      rest = rest ∙ ag.rest;
      stores = sym stores ∙ ag.stores;
    },
    removed-HasObjects t a _ ho,
    record {
      preimages_indexed = hr.preimages_indexed;
      preimages_exact = hr.preimages_exact;
      access_valid = hr.access_valid;
      log_word = hr.log_word;
    },
    refl,
  )

  -- The undoing of a replacement: the previous object is back.
  pub reset-UndoesTo :
      (s s' : StateDb) (prev : StateObject) (o : Option AccountView)
      → Live env s prev.address prev
      → s'.stores ≡ s.stores
      → ((j : ℕ) → account_view env s' j ≡ update (account_view env s) prev.address o j)
      → ((h : ℕ) → preimage_view s h ≡ preimage_view s' h)
      → rest_view s ≡ rest_view s'
      → UndoesTo env (reset_object_change prev) s' s
  unfolding undo_entry preimage_view set_state_object
  reset-UndoesTo s s' prev o l stores accounts pre rest t ho hr ag = (
    set_state_object t prev,
    refl,
    record {
      accounts = λ j. ground (
        arith,
        l.shown,
        accounts j,
        ag.accounts j,
        account_view-set env t prev j ho l.live,
        ap (λ st. object_view env st prev) (sym ag.stores ∙ stores),
      );
      preimages = λ h. pre h ∙ ag.preimages h;
      rest = rest ∙ ag.rest;
      stores = sym stores ∙ ag.stores;
    },
    set_state_object-HasObjects t prev ho l.sound l.live,
    set_state_object-HasRest t prev hr,
    refl,
  )

  -- `createObject` where no account is there.
  pub create_new-Reversible :
      (s : StateDb) (a : ℕ)
      → IsWell s
      → account_view env s a ≡ none
      → s.stores.accounts a ≡ none
      → (s' : StateDb) × (create_over env s a none ≡ some (fresh_object a, none, s'))
        × Reversible env s s'
        × Live env s' a (fresh_object a)
  unfolding create_over set_object_nonce eth_object preimage_view set_state_object
  create_new-Reversible s a w missing unstored =
      let e = create_object_change a in
      let sound = fresh_object-IsSound a in
      let step = append_entry-Appended s e w.tracked in
      let s' = written env s e (fresh_object a) w tt sound refl in
      (
        s',
        rw (step.runs ∙ ap some step.shape),
        written-Reversible env s e (fresh_object a) w tt sound refl (
            create-UndoesTo s s' a (some (object_view env s.stores (fresh_object a))) missing
              unstored refl (written_accounts env s e (fresh_object a) w tt sound refl) (λ h. refl)
              refl),
        written-Live env s e (fresh_object a) w tt sound refl,
      )

  -- `createObject` over a live object.
  pub create_over-Reversible :
      (s : StateDb) (prev : StateObject)
      → IsWell s
      → Live env s prev.address prev
      → (s' : StateDb) × (create_over env s prev.address (some prev)
          ≡ some (fresh_object prev.address, some prev, s'))
        × Reversible env s s'
        × Live env s' prev.address (fresh_object prev.address)
  unfolding create_over set_object_nonce eth_object preimage_view set_state_object
  create_over-Reversible s prev w l =
      let a = prev.address in
      let e = reset_object_change prev in
      let sound = fresh_object-IsSound a in
      let step = append_entry-Appended s e w.tracked in
      let s' = written env s e (fresh_object a) w (l.sound, l.live) sound refl in
      (
        s',
        rw (step.runs ∙ ap some step.shape),
        written-Reversible env s e (fresh_object a) w (l.sound, l.live) sound refl
            (reset-UndoesTo s s' prev (some (object_view env s.stores (fresh_object a))) l refl
              (written_accounts env s e (fresh_object a) w (l.sound, l.live) sound refl) (λ h. refl)
              refl),
        written-Live env s e (fresh_object a) w (l.sound, l.live) sound refl,
      )

  pub errored-Reversible :
      (s : StateDb) (e : Option ℕ) → IsWell s → Reversible env s (record s { db_err = e })
  unfolding account_view preimage_view
  errored-Reversible s e w = record {
    restores =
        silent-Restores env s (record s { db_err = e }) refl refl
          (record { accounts = λ j. refl; preimages = λ h. refl; rest = refl; stores = refl });
    well = record {
      objects = record {
        indexed = w.objects.indexed;
        exact = w.objects.exact;
        at_home = w.objects.at_home;
      };
      rest = record {
        preimages_indexed = w.rest.preimages_indexed;
        preimages_exact = w.rest.preimages_exact;
        access_valid = w.rest.access_valid;
        log_word = w.rest.log_word;
      };
      tracked = w.tracked;
      kept = w.kept;
    };
    stores = refl;
    revisions = refl;
  }

  -- `createObject` of an address that has no account.
  pub create_missing-Reversible :
      (s : StateDb) (a : ℕ)
      → IsWell s
      → panics s a ≡ false
      → account_view env s a ≡ none
      → (s' : StateDb) × (create_object env s a ≡ some (fresh_object a, none, s'))
        × Reversible env s s'
        × Live env s' a (fresh_object a)
  unfolding create_object account_view
  create_missing-Reversible s a w calm missing =
      let (e, found, unstored) = get_state_object-none env s a missing calm w.objects in
      let r = errored-Reversible s e w in
      let (s', runs, q, l) =
        create_new-Reversible (record s { db_err = e }) a r.well missing unstored in
      (s', rw found runs, Reversible-trans env s (record s { db_err = e }) s' r q, l)

  -- `createObject` of an address that has one.
  create_existing-Reversible :
      (s : StateDb) (a : ℕ) (av : AccountView)
      → IsWell s
      → account_view env s a ≡ some av
      → (prev : StateObject) × (s' : StateDb) × (create_object env s a
          ≡ some (fresh_object a, some prev, s'))
        × Reversible env s s'
        × Live env s' a (fresh_object a)
        × (account_view env s a ≡ some (object_view env s.stores prev))
  unfolding create_object
  create_existing-Reversible s a av w there =
      let (prev, s₁, f) = get_state_object-some env s a av there w.objects in
      let r = Fetched-Reversible env s a prev s₁ w f in
      let l = subst (λ b. Live env s₁ b prev) (sym f.home) (Fetched-Live env s a prev s₁ f) in
      let (s', runs, q, l') = create_over-Reversible s₁ prev r.well l in
      (
        prev,
        s',
        rw f.found (
            subst (λ b. create_over env s₁ b (some prev) ≡ some (fresh_object b, some prev, s'))
              f.home runs),
        Reversible-trans env s s₁ s' r q,
        subst (λ b. Live env s' b (fresh_object b)) f.home l',
        f.shown,
      )

  pub get_or_new-panics :
      (s : StateDb) (a : ℕ) → panics s a ≡ true → get_or_new_state_object env s a ≡ none
  unfolding get_or_new_state_object
  get_or_new-panics s a bad = rw (get_state_object-panics env s a bad) refl

  -- Where it does not panic, `GetOrNewStateObject` returns a live object, and what it does can be
  -- reverted.
  pub get_or_new-Reversible :
      (s : StateDb) (a : ℕ)
      → IsWell s
      → panics s a ≡ false
      → (so : StateObject) × (s' : StateDb) × (get_or_new_state_object env s a ≡ some (so, s'))
        × Reversible env s s'
        × Live env s' a so
        × (so.account.balance ≡ balance_of (account_view env s a))
  unfolding get_or_new_state_object object_view
  get_or_new-Reversible s a w calm = elim (Option-cases (account_view env s a)) [
    | inl missing ↦
        let (e, found, _) = get_state_object-none env s a missing calm w.objects in
        let r = errored-Reversible s e w in
        let (s', runs, q, l) =
          create_missing-Reversible (record s { db_err = e }) a r.well calm
            (unfold account_view in missing) in
        (
          fresh_object a,
          s',
          rw (found, runs),
          Reversible-trans env s (record s { db_err = e }) s' r q,
          l,
          fresh_balance a ∙ sym (ap balance_of missing),
        )
    | inr (av, there) ↦
        let (so, s', f) = get_state_object-some env s a av there w.objects in
        (
          so,
          s',
          rw f.found,
          Fetched-Reversible env s a so s' w f,
          Fetched-Live env s a so s' f,
          sym (ap balance_of f.shown),
        )
  ]
