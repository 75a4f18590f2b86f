-- ===== src/Evm/Getters/Reads.antt =====
-- The reads answer with the view of the account and change nothing but the caches.
use faxchain.Base.{
  ℕ, ◌≡◌, refl, sym, ap, subst, ◌∙◌, Bool, true, false, Option, none, some, [], ◌&&◌, ◌||◌,
  Option-cases, inl, inr,
}
use faxchain.Evm.StateObject.{Env, StateObject, get_object_state, code_hash, get_object_code}
use faxchain.Evm.Journal.{StateDb}
use faxchain.Evm.StateDb.{set_state_object, get_state_object}
use faxchain.Evm.StateDb.View.{AccountView, account_view, object_view, state_view, panics}
use faxchain.Evm.StateDb.WellFormed.{
  IsWell, Fetched, get_state_object-some, get_state_object-none, get_state_object-panics,
}
use faxchain.Evm.Snapshot.Accounts.{
  Reversible, Live, Reversible-trans, Fetched-Reversible, Fetched-Live,
}
use faxchain.Evm.Snapshot.Creation.{errored-Reversible}
use faxchain.Evm.Snapshot.Storage.{get_object_state-Reads, rewritten-Reversible}
use faxchain.Evm.Getters.{
  from_object, get_balance, get_nonce, unless_blocked, get_code, get_code_hash, get_state,
  has_suicided, exist,
}

-- A field of the view of an account, a default where there is none.
abbrev pub shown_or {ℓ} : {A : Type ℓ} → A → (AccountView → A) → Option AccountView → A
shown_or default f none = default
shown_or default f (some v) = f v

-- A read that panics, or one that answers with `v` and leaves a database that can be turned back.
abbrev pub Answers {ℓ} : {A : Type ℓ} → Env → StateDb → Bool → A → Option (A × StateDb) → Type ℓ
Answers env s true v o = o ≡ none
Answers {A = A} env s false v o =
    (r : A × StateDb) × (o ≡ some r) × (r.0 ≡ v) × Reversible env s r.1

-- An answer in the plain form.
abbrev Reads {ℓ} : {A : Type ℓ} → Env → StateDb → A → A × StateDb → Type ℓ
Reads env s v r = (r.0 ≡ v) × Reversible env s r.1

module _ (env : Env) where
  from_object-Answers {ℓ} :
      {A : Type ℓ} (s : StateDb) (a : ℕ) (d : A) (f : StateObject → A) (g : AccountView → A)
      (b : Bool)
      → panics s a ≡ b
      → ((so : StateObject) → f so ≡ g (object_view env s.stores so))
      → IsWell s
      → Answers env s b
          (shown_or d g (account_view env s a))
          (from_object d f (get_state_object env s a))
  from_object-Answers s a d f g true bad h w =
      ap (from_object d f) (get_state_object-panics env s a bad)
  from_object-Answers s a d f g false calm h w = elim (Option-cases (account_view env s a)) [
    | inl missing ↦
        let (e, found, _) = get_state_object-none env s a missing calm w.objects in
        (
          (d, record s { db_err = e }),
          ap (from_object d f) found,
          sym (ap (shown_or d g) missing),
          errored-Reversible env s e w,
        )
    | inr (av, there) ↦
        let (so, s', f') = get_state_object-some env s a av there w.objects in
        (
          (f so, s'),
          ap (from_object d f) f'.found,
          h so ∙ sym (ap (shown_or d g) f'.shown),
          Fetched-Reversible env s a so s' w f',
        )
  ]

  -- From a well-formed database, GetBalance, GetNonce, GetCodeHash, HasSuicided and Exist panic
  -- where the account that they would load is not an EthAccount, and otherwise answer with what
  -- the view shows of the account, or 0 or false where it shows none, and the database that they
  -- leave can be turned back.
  pub getters-Answer :
      (s : StateDb) (a : ℕ)
      → IsWell s
      → Answers env s
          (panics s a)
          (shown_or 0 (λ v. v.balance) (account_view env s a))
          (get_balance env s a)
        × Answers env s
            (panics s a)
            (shown_or 0 (λ v. v.nonce) (account_view env s a))
            (get_nonce env s a)
        × Answers env s
            (panics s a)
            (shown_or 0 (λ v. v.hash) (account_view env s a))
            (get_code_hash env s a)
        × Answers env s
            (panics s a)
            (shown_or false (λ v. v.suicided) (account_view env s a))
            (has_suicided env s a)
        × Answers env s
            (panics s a)
            (shown_or false (λ v. true) (account_view env s a))
            (exist env s a)
  unfolding get_balance get_nonce get_code_hash has_suicided exist object_view code_hash
  getters-Answer s a w =
      let p = panics s a in
      (
        from_object-Answers s a 0 (λ so. so.account.balance) (λ v. v.balance) p refl (λ so. refl) w,
        from_object-Answers s a 0 (λ so. so.account.sequence) (λ v. v.nonce) p refl (λ so. refl) w,
        from_object-Answers s a 0 (code_hash env) (λ v. v.hash) p refl (λ so. refl) w,
        from_object-Answers s a false (λ so. so.suicided) (λ v. v.suicided) p refl (λ so. refl) w,
        from_object-Answers s a false (λ so. true) (λ v. true) p refl (λ so. refl) w,
      )

  get_code_at :
      (s : StateDb) (a : ℕ) (b : Bool)
      → (s.stores.enable_blocked_list && s.stores.blocked a) ≡ b
      → IsWell s
      → Answers env s
          (b || panics s a)
          (shown_or [] (λ v. v.code) (account_view env s a))
          (get_code env s a)
  unfolding get_code object_view get_object_code code_hash
  get_code_at s a true blocked w = ap (unless_blocked env s a) blocked
  get_code_at s a false open_to_all w =
      subst (Answers env s (panics s a) (shown_or [] (λ v. v.code) (account_view env s a)))
        (sym (ap (unless_blocked env s a) open_to_all))
        (from_object-Answers s a [] (get_object_code env s.stores) (λ v. v.code) (panics s a) refl
          (λ so. refl) w)

  -- From a well-formed database, GetCode panics on a blocked contract while the list is enforced
  -- and where the account that it would load is not an EthAccount, and otherwise answers with the
  -- code that the view shows, or with none where it shows no account, and the database that it
  -- leaves can be turned back.
  pub get_code-Answers :
      (s : StateDb) (a : ℕ)
      → IsWell s
      → Answers env s
          ((s.stores.enable_blocked_list && s.stores.blocked a) || panics s a)
          (shown_or [] (λ v. v.code) (account_view env s a))
          (get_code env s a)
  get_code-Answers s a w =
      get_code_at s a (s.stores.enable_blocked_list && s.stores.blocked a) refl w

  -- The object written back after a read of its storage.
  cached_read-Answers :
      (s : StateDb) (a : ℕ) (so : StateObject) (hash : ℕ)
      → IsWell s
      → Live env s a so
      → let r = get_object_state s.stores so (env.storage_key so.address hash) in
        Reads env s (state_view s.stores so (env.storage_key a hash)) (r.0, set_state_object s r.1)
  cached_read-Answers s a so hash w l =
      let k = env.storage_key so.address hash in
      let r = get_object_state-Reads env s.stores so k l.sound in
      let so' = (get_object_state s.stores so k).1 in
      (
        r.value ∙ ap (λ b. state_view s.stores so (env.storage_key b hash)) l.home,
        rewritten-Reversible env s so' w (record {
          shown = ap (account_view env s) (r.address ∙ l.home) ∙ l.shown ∙ ap some (sym r.view);
          home = refl;
          sound = r.sound;
          live = r.deleted ∙ l.live;
        }),
      )

  found_state-Answers :
      (s s₁ : StateDb) (a hash : ℕ) (so : StateObject)
      → IsWell s
      → Fetched env s a so s₁
      → let r = get_object_state s.stores so (env.storage_key so.address hash) in
        Reads env s (state_view s.stores so (env.storage_key a hash)) (r.0, set_state_object s₁ r.1)
  found_state-Answers s s₁ a hash so w f =
      let q = Fetched-Reversible env s a so s₁ w f in
      let stores = ap (λ (d : StateDb). d.stores) f.caches_only in
      let p = cached_read-Answers s₁ a so hash q.well (Fetched-Live env s a so s₁ f) in
      subst
        (λ st.
          let r = get_object_state st so (env.storage_key so.address hash) in
          Reads env s (state_view st so (env.storage_key a hash)) (r.0, set_state_object s₁ r.1))
        stores (p.0, Reversible-trans env s s₁ _ q p.1)

  get_state_at :
      (s : StateDb) (a hash : ℕ) (b : Bool)
      → panics s a ≡ b
      → IsWell s
      → Answers env s b
          (shown_or 0 (λ v. v.state (env.storage_key a hash)) (account_view env s a))
          (get_state env s a hash)
  unfolding get_state object_view
  get_state_at s a hash true bad w = rw (get_state_object-panics env s a bad) refl
  get_state_at s a hash false calm w = elim (Option-cases (account_view env s a)) [
    | inl missing ↦
        let (e, found, _) = get_state_object-none env s a missing calm w.objects in
        rw (missing, found) ((0, record s { db_err = e }), refl, refl, errored-Reversible env s e w)
    | inr (av, there) ↦
        let (so, s₁, f) = get_state_object-some env s a av there w.objects in
        let (value, back) = found_state-Answers s s₁ a hash so w f in
        rw (f.found, f.shown) (_, refl, value, back)
  ]

  -- From a well-formed database, GetState panics where the account that it would load is not an
  -- EthAccount, and otherwise answers with what the view shows at the prefixed key, or 0 where it
  -- shows no account, and the database that it leaves can be turned back.
  pub get_state-Answers :
      (s : StateDb) (a hash : ℕ)
      → IsWell s
      → Answers env s
          (panics s a)
          (shown_or 0 (λ v. v.state (env.storage_key a hash)) (account_view env s a))
          (get_state env s a hash)
  get_state-Answers s a hash w = get_state_at s a hash (panics s a) refl w
