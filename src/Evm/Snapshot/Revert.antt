-- ===== src/Evm/Snapshot/Revert.antt =====
-- Reverting in one go is reverting in two; one entry undone.
use faxchain.Base.{
  ℕ, suc, ◌≤◌, ◌≡◌, refl, sym, ◌∙◌, true, false, Option, none, some, List, [], ◌∷◌, arith, length,
  leb, ◌>>=◌, >>=-eq-some, Bool-cases, inl, inr,
}
use faxchain.Evm.StateObject.{Env}
use faxchain.Evm.Journal.{
  JournalEntry, create_object_change, reset_object_change, suicide_change, balance_change,
  nonce_change, storage_change, code_change, refund_change, add_log_change, add_preimage_change,
  touch_change, access_list_add_account_change, access_list_add_slot_change, dirtied, StateDb,
}
use faxchain.Evm.StateDb.{get_state_object, set_state_object}
use faxchain.Evm.Snapshot.{undo_entry, untrack, revert_journal}

module _ (env : Env) where
  -- Nothing beyond the first `n` entries: nothing is undone.
  pub revert_journal_done :
      (es : List JournalEntry) (n : ℕ) (db : StateDb)
      → length es ≤ n
      → revert_journal env es n db ≡ some db
  unfolding revert_journal
  revert_journal_done [] n db h = refl
  revert_journal_done (e ∷ es) n db h =
      let t : leb (suc (length es)) n ≡ true = ground arith in rw (t, revert_journal)

  revert_journal_more :
      (e : JournalEntry) (es : List JournalEntry) (n : ℕ) (db : StateDb)
      → n ≤ length es
      → revert_journal env (e ∷ es) n db ≡ (
          undo_entry env db e >>= λ db'.
          untrack env (dirtied e) (record db' { entries = es }) >>= revert_journal env es n)
  unfolding revert_journal
  revert_journal_more e es n db h =
      let t : leb (suc (length es)) n ≡ false = ground arith in rw (t, revert_journal)

  -- One entry that is undone, and dropped from the dirty tracking.
  pub revert_journal_one :
      (e : JournalEntry) (es : List JournalEntry) (db db₁ db₂ : StateDb)
      → undo_entry env db e ≡ some db₁
      → untrack env (dirtied e) (record db₁ { entries = es }) ≡ some db₂
      → revert_journal env (e ∷ es) (length es) db ≡ some db₂
  revert_journal_one e es db db₁ db₂ u v =
      revert_journal_more e es (length es) db (omega arith)
      ∙ rw (u, v) (revert_journal_done es (length es) db₂ (omega arith))

  untrack-entries :
      (o : Option ℕ) (db db' : StateDb) → untrack env o db ≡ some db' → db'.entries ≡ db.entries
  untrack-entries none db db' h = ground arith
  untrack-entries (some a) db db' h = ground arith

  -- A revert to `m` entries, then to `n`, is the revert to `n`.
  pub revert_journal-split :
      (es : List JournalEntry) (m n : ℕ) (db db' : StateDb)
      → n ≤ m
      → db.entries ≡ es
      → revert_journal env es m db ≡ some db'
      → revert_journal env es n db ≡ revert_journal env db'.entries n db'
  unfolding revert_journal
  revert_journal-split [] m n db db' h e r = ground arith
  revert_journal-split (x ∷ es) m n db db' h e r = elim (Bool-cases (leb (suc (length es)) m)) [
    | inl done ↦
        let same : db ≡ db' = ground (arith, revert_journal_done (x ∷ es) m db) in
        rw (← same, e) refl
    | inr more ↦
        let (db₁, u, r₁) =
          >>=-eq-some (undo_entry env db x) _
            (sym (revert_journal_more x es m db (ground arith)) ∙ r) in
        let (db₂, v, r₂) =
          >>=-eq-some (untrack env (dirtied x) (record db₁ { entries = es })) _ r₁ in
        revert_journal_more x es n db (ground arith)
        ∙ rw (u, v)
            (revert_journal-split es m n db₂ db' h
              (untrack-entries (dirtied x) (record db₁ { entries = es }) db₂ v) r₂)
  ]

  -- No `revert` method touches the revisions.
  undo_entry-revisions :
      (e : JournalEntry) (db db' : StateDb)
      → undo_entry env db e ≡ some db'
      → db'.valid_revisions ≡ db.valid_revisions
  unfolding undo_entry get_state_object set_state_object
  undo_entry-revisions (create_object_change a) db db' h = ground arith
  undo_entry-revisions (reset_object_change prev) db db' h = ground arith
  undo_entry-revisions (suicide_change a prev balance) db db' h = ground arith
  undo_entry-revisions (balance_change a prev) db db' h = ground arith
  undo_entry-revisions (nonce_change a prev) db db' h = ground arith
  undo_entry-revisions (storage_change a key prev) db db' h = ground arith
  undo_entry-revisions (code_change a c prev) db db' h = ground arith
  undo_entry-revisions (refund_change prev) db db' h = ground arith
  undo_entry-revisions (add_log_change x) db db' h = ground arith
  undo_entry-revisions (add_preimage_change x) db db' h = ground arith
  undo_entry-revisions (touch_change a) db db' h = ground arith
  undo_entry-revisions (access_list_add_account_change a) db db' h = ground arith
  undo_entry-revisions (access_list_add_slot_change a slot) db db' h = ground arith

  untrack-revisions :
      (o : Option ℕ) (db db' : StateDb)
      → untrack env o db ≡ some db'
      → db'.valid_revisions ≡ db.valid_revisions
  untrack-revisions none db db' h = ground arith
  untrack-revisions (some a) db db' h = ground arith

  pub revert_journal-revisions :
      (es : List JournalEntry) (n : ℕ) (db db' : StateDb)
      → revert_journal env es n db ≡ some db'
      → db'.valid_revisions ≡ db.valid_revisions
  unfolding revert_journal
  revert_journal-revisions [] n db db' h = ground arith
  revert_journal-revisions (x ∷ es) n db db' h = elim (Bool-cases (leb (suc (length es)) n)) [
    | inl done ↦ ground (arith, revert_journal_done (x ∷ es) n db)
    | inr more ↦
        let (db₁, u, r₁) =
          >>=-eq-some (undo_entry env db x) _
            (sym (revert_journal_more x es n db (ground arith)) ∙ h) in
        let (db₂, v, r₂) =
          >>=-eq-some (untrack env (dirtied x) (record db₁ { entries = es })) _ r₁ in
        revert_journal-revisions es n db₂ db' r₂
        ∙ untrack-revisions (dirtied x) (record db₁ { entries = es }) db₂ v
        ∙ undo_entry-revisions x db db₁ u
  ]
