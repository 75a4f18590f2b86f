-- ===== src/Evm/Snapshot/Operations.antt =====
-- Every operation on accounts can be reverted.
use faxchain.Base.{
  ℕ, ◌+◌, ◌≡◌, ◌≢◌, refl, sym, ap, ◌∙◌, subst, Option, some, some_inj, ltb, List, ◌∷◌, arith, ◌==◌,
  ◌>>=◌, GoMap, put_key, Bool-cases, inl, inr,
}
use faxchain.Evm.StateObject.{
  Env, StateObject, set_object_balance, set_object_nonce, set_object_code, mark_suicided,
  get_object_code, code_hash, is_empty_object,
}
use faxchain.Evm.Journal.{
  balance_change, nonce_change, code_change, suicide_change, touch_change, StateDb,
}
use faxchain.Evm.StateDb.{
  get_or_new_state_object, journal_object, ripemd, put_balance, put_code, add_object_balance, touch,
  set_balance, add_balance, set_nonce, set_code, suicide_object,
}
use faxchain.Evm.StateDb.View.{account_view, preimage_view, panics}
use faxchain.Evm.StateDb.WellFormed.{IsWell}
use faxchain.Evm.Snapshot.{undo_entry, restore_suicided}
use faxchain.Evm.Snapshot.Undo.{
  append_entry-Appended, append_entry-Restores, silent-Restores, Agrees-refl,
}
use faxchain.Evm.Snapshot.Objects.{
  set_object_balance-Keeps, set_object_nonce-Keeps, set_object_code-Keeps, mark_suicided-Keeps,
  restore_suicided-Keeps, balance-TurnsBack, nonce-TurnsBack, suicided-TurnsBack, code-TurnsBack,
}
use faxchain.Evm.Snapshot.Accounts.{Reversible, Live, Reversible-trans, change-Reversible}
use faxchain.Evm.Snapshot.Creation.{get_or_new-Reversible, get_or_new-panics}

-- An operation on a live object that does not panic, and can be reverted.
abbrev pub Succeeds : Env → StateDb → Option StateDb → Type 0
Succeeds env s o = (s' : StateDb) × (o ≡ some s') × Reversible env s s'

-- An operation that can be reverted where it does not panic.
abbrev pub Undoable : Env → StateDb → Option StateDb → Type 0
Undoable env s o = (s' : StateDb) → o ≡ some s' → Reversible env s s'

module _ (env : Env) where
  pub Succeeds-Undoable : (s : StateDb) (o : Option StateDb) → Succeeds env s o → Undoable env s o
  Succeeds-Undoable s o (t, runs, r) = λ s' h. subst (Reversible env s) (some_inj (sym runs ∙ h)) r

  put_balance-Live :
      (s : StateDb) (so : StateObject) (v : ℕ)
      → IsWell s
      → Live env s so.address so
      → (s' : StateDb) × (put_balance env s so v ≡ some s')
        × Reversible env s s'
        × Live env s' so.address (set_object_balance so v)
  unfolding put_balance undo_entry
  put_balance-Live s so v w l =
      change-Reversible env s (balance_change so.address so.account.balance)
        (λ x. set_object_balance x so.account.balance) so (set_object_balance so v) w tt l
        ((set_object_balance-Keeps v).sound so l.sound)
        ((set_object_balance-Keeps v).deleted so ∙ l.live) ((set_object_balance-Keeps v).address so)
        (λ t x t' e. rw e) (set_object_balance-Keeps so.account.balance)
        (balance-TurnsBack env s.stores so v)

  pub put_balance-Succeeds :
      (s : StateDb) (a : ℕ) (so : StateObject) (v : ℕ)
      → IsWell s
      → Live env s a so
      → Succeeds env s (put_balance env s so v)
  put_balance-Succeeds s a so v w l =
      let (s', runs, r, _) =
        put_balance-Live s so v w (subst (λ b. Live env s b so) (sym l.home) l) in
      (s', runs, r)

  -- An operation on the object that `GetOrNewStateObject` returns.
  pub on_new-Undoable :
      (f : StateObject → StateDb → Option StateDb) (s : StateDb) (a : ℕ)
      → ((so : StateObject) (s' : StateDb)
          → IsWell s'
          → Live env s' a so
          → Undoable env s' (f so s'))
      → IsWell s
      → Undoable env s (get_or_new_state_object env s a >>= λ (so, s'). f so s')
  on_new-Undoable f s a h w = λ t e. elim (Bool-cases (panics s a)) [
    | inl bad ↦ absurd (ground (arith, get_or_new-panics env s a bad, e))
    | inr calm ↦
        let (so, s₁, runs, r, l, _) = get_or_new-Reversible env s a w calm in
        Reversible-trans env s s₁ t r (h so s₁ r.well l t (rw runs at e))
  ]

  pub set_balance-Undoable :
      (s : StateDb) (a v : ℕ) → IsWell s → Undoable env s (set_balance env s a v)
  unfolding set_balance
  set_balance-Undoable s a v w =
      on_new-Undoable (λ so s'. put_balance env s' so v) s a
        (λ so s' w' l. Succeeds-Undoable s' _ (put_balance-Succeeds s' a so v w' l)) w

  pub touch-Succeeds :
      (s : StateDb) (a : ℕ) (so : StateObject)
      → a ≢ ripemd
      → IsWell s
      → Live env s a so
      → Succeeds env s (touch env s so)
  unfolding touch undo_entry account_view preimage_view
  touch-Succeeds s a so ne w l =
      let e = touch_change so.address in
      let step = append_entry-Appended s e w.tracked in
      let s' : StateDb = record s { entries = e ∷ s.entries; dirties = step.after.dirties } in
      (
        s',
        rw (step.runs ∙ ap some step.shape) (ground (arith, l.home)),
        record {
          restores = append_entry-Restores env s s' e step w refl refl (λ t ho hr ag. (
            t,
            refl,
            record {
              accounts = ag.accounts;
              preimages = ag.preimages;
              rest = ag.rest;
              stores = ag.stores;
            },
            ho,
            hr,
            refl,
          ));
          well = record {
            objects = record {
              indexed = w.objects.indexed;
              exact = w.objects.exact;
              at_home = w.objects.at_home;
            };
            rest = record {
              preimages_indexed = w.rest.preimages_indexed;
              preimages_exact = w.rest.preimages_exact;
              access_valid = w.rest.access_valid;
              log_word = w.rest.log_word;
            };
            tracked = step.tracked;
            kept = (tt, w.kept);
          };
          stores = refl;
          revisions = refl;
        },
      )

  pub same-Reversible : (s : StateDb) → IsWell s → Reversible env s s
  same-Reversible s w = record {
    restores = silent-Restores env s s refl refl (Agrees-refl env s);
    well = w;
    stores = refl;
    revisions = refl;
  }

  add_balance_to :
      (s : StateDb) (a v : ℕ) (so : StateObject)
      → (v ≡ 0 → a ≢ ripemd)
      → IsWell s
      → Live env s a so
      → Undoable env s (add_object_balance env s so v)
  add_balance_to s a v so ne w l = elim (Bool-cases (v == 0)) [
    | inl zero_amount ↦ elim (Bool-cases (is_empty_object env so)) [
      | inl empty ↦
          rw (zero_amount, empty)
            (Succeeds-Undoable s _ (touch-Succeeds s a so (ne (ground arith)) w l))
      | inr full ↦ rw (zero_amount, full) (Succeeds-Undoable s _ (s, refl, same-Reversible s w))
    ]
    | inr some_amount ↦ elim (Bool-cases (ltb env.max_dec (so.account.balance + v))) [
      | inl over ↦ λ t e. absurd (ground (arith, some_amount, over, e))
      | inr fits ↦
          rw (some_amount, fits)
            (Succeeds-Undoable s _ (put_balance-Succeeds s a so (so.account.balance + v) w l))
    ]
  ]

  pub add_balance-Undoable :
      (s : StateDb) (a v : ℕ)
      → (v ≡ 0 → a ≢ ripemd)
      → IsWell s
      → Undoable env s (add_balance env s a v)
  unfolding add_balance
  add_balance-Undoable s a v ne w =
      on_new-Undoable (λ so s'. add_object_balance env s' so v) s a
        (λ so s' w' l. add_balance_to s' a v so ne w' l) w

  pub put_nonce-Succeeds :
      (s : StateDb) (a : ℕ) (so : StateObject) (n : ℕ)
      → IsWell s
      → Live env s a so
      → Succeeds env s (
          journal_object env s
            (nonce_change so.address so.account.sequence)
            (set_object_nonce so n))
  unfolding undo_entry
  put_nonce-Succeeds s a so n w l =
      let (s', runs, r, _) =
        change-Reversible env s (nonce_change so.address so.account.sequence)
          (λ x. set_object_nonce x so.account.sequence) so (set_object_nonce so n) w tt
          (subst (λ b. Live env s b so) (sym l.home) l)
          ((set_object_nonce-Keeps n).sound so l.sound)
          ((set_object_nonce-Keeps n).deleted so ∙ l.live) ((set_object_nonce-Keeps n).address so)
          (λ t x t' e. rw e) (set_object_nonce-Keeps so.account.sequence)
          (nonce-TurnsBack env s.stores so n) in
      (s', runs, r)

  pub set_nonce-Undoable : (s : StateDb) (a n : ℕ) → IsWell s → Undoable env s (set_nonce env s a n)
  unfolding set_nonce
  set_nonce-Undoable s a n w =
      on_new-Undoable
        (λ so s'.
          journal_object env s' (nonce_change so.address so.account.sequence)
            (set_object_nonce so n))
        s a (λ so s' w' l. Succeeds-Undoable s' _ (put_nonce-Succeeds s' a so n w' l)) w

  put_code-Live :
      (s : StateDb) (a : ℕ) (so : StateObject) (h : ℕ) (c : List ℕ)
      → IsWell s
      → Live env s a so
      → Succeeds env s (
          journal_object env s
            (code_change so.address (get_object_code env s.stores so) (code_hash env so))
            (set_object_code so h c))
  unfolding undo_entry
  put_code-Live s a so h c w l =
      let (s', runs, r, _) =
        change-Reversible env s
          (code_change so.address (get_object_code env s.stores so) (code_hash env so))
          (λ x. set_object_code x (code_hash env so) (get_object_code env s.stores so)) so
          (set_object_code so h c) w tt (subst (λ b. Live env s b so) (sym l.home) l)
          ((set_object_code-Keeps h c).sound so l.sound)
          ((set_object_code-Keeps h c).deleted so ∙ l.live) ((set_object_code-Keeps h c).address so)
          (λ t x t' e. rw e)
          (set_object_code-Keeps (code_hash env so) (get_object_code env s.stores so))
          (code-TurnsBack env s.stores so h c) in
      (s', runs, r)

  cached_code-Reversible :
      (s s' : StateDb) (m : GoMap (List ℕ))
      → Reversible env s s'
      → Reversible env s (record s' { code_cache = m })
  unfolding account_view preimage_view
  cached_code-Reversible s s' m r =
      let w = r.well in
      let s'' : StateDb = record s' { code_cache = m } in
      let well : IsWell s'' = record {
        objects = record {
          indexed = w.objects.indexed;
          exact = w.objects.exact;
          at_home = w.objects.at_home;
        };
        rest = record {
          preimages_indexed = w.rest.preimages_indexed;
          preimages_exact = w.rest.preimages_exact;
          access_valid = w.rest.access_valid;
          log_word = w.rest.log_word;
        };
        tracked = w.tracked;
        kept = w.kept;
      } in
      Reversible-trans env s s' s'' r (record {
        restores =
            silent-Restores env s' s'' refl refl
              (record { accounts = λ j. refl; preimages = λ h. refl; rest = refl; stores = refl });
        well = well;
        stores = refl;
        revisions = refl;
      })

  -- `SetCode` of the object found, with the code that the database caches.
  pub put_code-Succeeds :
      (s : StateDb) (a : ℕ) (so : StateObject) (c : List ℕ)
      → IsWell s
      → Live env s a so
      → Succeeds env s (
          put_code env s so (env.keccak c) c >>= λ s'.
          some (record s' { code_cache = put_key a c s'.code_cache }))
  put_code-Succeeds s a so c w l =
      let (s', runs, r) = put_code-Live s a so (env.keccak c) c w l in
      (
        record s' { code_cache = put_key a c s'.code_cache },
        rw runs refl,
        cached_code-Reversible s s' _ r,
      )

  pub set_code-Undoable :
      (s : StateDb) (a : ℕ) (c : List ℕ) → IsWell s → Undoable env s (set_code env s a c)
  unfolding set_code
  set_code-Undoable s a c w =
      on_new-Undoable
        (λ so s'. put_code env s' so (env.keccak c) c >>= λ s''.
          some (record s'' { code_cache = put_key a c s''.code_cache }))
        s a (λ so s' w' l. Succeeds-Undoable s' _ (put_code-Succeeds s' a so c w' l)) w

  pub suicide_object-Succeeds :
      (s : StateDb) (a : ℕ) (so : StateObject)
      → IsWell s
      → Live env s a so
      → Succeeds env s (suicide_object env s so)
  unfolding suicide_object undo_entry
  suicide_object-Succeeds s a so w l =
      let l' = subst (λ b. Live env s b so) (sym l.home) l in
      let (s₁, runs, r, l₁) =
        change-Reversible env s (suicide_change so.address so.suicided so.account.balance)
          (restore_suicided so.suicided so.account.balance) so (mark_suicided so) w tt l'
          (mark_suicided-Keeps.sound so l.sound) (mark_suicided-Keeps.deleted so ∙ l.live)
          (mark_suicided-Keeps.address so) (λ t x t' e. rw e)
          (restore_suicided-Keeps so.suicided so.account.balance)
          (suicided-TurnsBack env s.stores so) in
      let (s₂, runs', r') = put_balance-Succeeds s₁ so.address (mark_suicided so) 0 r.well l₁ in
      (s₂, rw runs runs', Reversible-trans env s s₁ s₂ r r')
