-- ===== src/Evm/Snapshot/Restore.antt =====
-- Any run of operations after a snapshot is undone by a revert to it.
use faxchain.Base.{
  ℕ, ◌<◌, ◌≡◌, ◌≢◌, ap, ◌∙◌, subst, Bool, Option, none, some, List, [], ◌∷◌, ◌++◌, arith, length,
  ◌==◌, get_elem?, take, get_elem?-append_end, take-append_length, ◌>>=◌, >>=-eq-some, some_inj,
  Option-cases, inl, inr, if◌then◌else◌,
}
use faxchain.Evm.StateObject.{Env}
use faxchain.Evm.Journal.{StateDb, Revision}
use faxchain.Evm.StateDb.{
  ripemd, set_balance, add_balance, sub_balance, set_nonce, set_state, set_code, suicide,
  create_account, add_log, add_preimage, add_refund, sub_refund, add_address_to_access_list,
  add_slot_to_access_list,
}
use faxchain.Evm.StateDb.View.{account_view, preimage_view}
use faxchain.Evm.StateDb.WellFormed.{IsWell}
use faxchain.Evm.Snapshot.{snapshot, search_revision, revert_journal, revert_at, revert_to_snapshot}
use faxchain.Evm.Snapshot.Revert.{revert_journal-revisions}
use faxchain.Evm.Snapshot.Undo.{Same, Same-refl}
use faxchain.Evm.Snapshot.Accounts.{Reversible, Reversible-trans}
use faxchain.Evm.Snapshot.Operations.{
  Succeeds-Undoable, same-Reversible, set_balance-Undoable, add_balance-Undoable,
  set_nonce-Undoable, set_code-Undoable,
}
use faxchain.Evm.Snapshot.Storage.{set_state-Undoable}
use faxchain.Evm.Snapshot.Lifecycle.{
  suicide-Undoable, sub_balance-Reversible, create_account-Undoable,
}
use faxchain.Evm.Snapshot.Slices.{
  add_refund-Succeeds, sub_refund-Reversible, add_log-Succeeds, add_preimage-Succeeds,
  add_address_to_access_list-Succeeds, add_slot_to_access_list-Succeeds,
}

-- What the EVM calls to change the state.
pub data Call : Type 0 where
  sets_balance adds_balance subs_balance sets_nonce : ℕ → ℕ → Call
  sets_state : ℕ → ℕ → ℕ → Call
  sets_code adds_preimage : ℕ → List ℕ → Call
  suicides creates adds_refund subs_refund adds_address : ℕ → Call
  adds_log : List ℕ → Call
  adds_slot : ℕ → ℕ → Call

abbrev pub second : Option (Bool × StateDb) → Option StateDb
second none = none
second (some (_, db)) = some db

-- The touch of RIPEMD, which the journal does not track as it should, is left out.
abbrev pub IsTracked : Call → Type 0
IsTracked (adds_balance a v) = v ≡ 0 → a ≢ ripemd
IsTracked _ = Unit

abbrev pub AllTracked : List Call → Type 0
AllTracked [] = Unit
AllTracked (c ∷ cs) = IsTracked c × AllTracked cs

module _ (env : Env) where
  unfoldable pub call : Call → StateDb → Option StateDb
  call (sets_balance a v) s = set_balance env s a v
  call (adds_balance a v) s = add_balance env s a v
  call (subs_balance a v) s = sub_balance env s a v
  call (sets_nonce a n) s = set_nonce env s a n
  call (sets_state a k v) s = set_state env s a k v
  call (sets_code a c) s = set_code env s a c
  call (adds_preimage h p) s = add_preimage s h p
  call (suicides a) s = second (suicide env s a)
  call (creates a) s = create_account env s a
  call (adds_refund g) s = add_refund s g
  call (subs_refund g) s = sub_refund s g
  call (adds_address a) s = add_address_to_access_list s a
  call (adds_log b) s = add_log s b
  call (adds_slot a k) s = add_slot_to_access_list s a k

  unfoldable pub run : List Call → StateDb → Option StateDb
  unfolding call
  run [] s = some s
  run (c ∷ cs) s = call c s >>= run cs

  call-Reversible :
      (c : Call) (s s' : StateDb)
      → IsTracked c
      → IsWell s
      → call c s ≡ some s'
      → Reversible env s s'
  unfolding call
  call-Reversible (sets_balance a v) s s' k w h = set_balance-Undoable env s a v w s' h
  call-Reversible (adds_balance a v) s s' k w h = add_balance-Undoable env s a v k w s' h
  call-Reversible (subs_balance a v) s s' k w h = sub_balance-Reversible env s s' a v w h
  call-Reversible (sets_nonce a n) s s' k w h = set_nonce-Undoable env s a n w s' h
  call-Reversible (sets_state a i v) s s' k w h = set_state-Undoable env s a i v w s' h
  call-Reversible (sets_code a c) s s' k w h = set_code-Undoable env s a c w s' h
  call-Reversible (adds_preimage i p) s s' k w h =
      Succeeds-Undoable env s _ (add_preimage-Succeeds env s i p w) s' h
  call-Reversible (suicides a) s s' k w h = elim (Option-cases (suicide env s a)) [
    | inl fails ↦ absurd (ground (arith, fails, h))
    | inr ((b, t), runs) ↦
        subst (Reversible env s) (ground (arith, runs, h)) (suicide-Undoable env s t a b w runs)
  ]
  call-Reversible (creates a) s s' k w h = create_account-Undoable env s a w s' h
  call-Reversible (adds_refund g) s s' k w h =
      Succeeds-Undoable env s _ (add_refund-Succeeds env s g w) s' h
  call-Reversible (subs_refund g) s s' k w h = sub_refund-Reversible env s s' g w h
  call-Reversible (adds_address a) s s' k w h =
      Succeeds-Undoable env s _ (add_address_to_access_list-Succeeds env s a w) s' h
  call-Reversible (adds_log b) s s' k w h =
      Succeeds-Undoable env s _ (add_log-Succeeds env s b w) s' h
  call-Reversible (adds_slot a i) s s' k w h =
      Succeeds-Undoable env s _ (add_slot_to_access_list-Succeeds env s a i w) s' h

  run-Reversible :
      (cs : List Call) (s s' : StateDb)
      → AllTracked cs
      → IsWell s
      → run cs s ≡ some s'
      → Reversible env s s'
  unfolding run
  run-Reversible [] s s' k w h = subst (Reversible env s) (some_inj h) (same-Reversible env s w)
  run-Reversible (c ∷ cs) s s' k w h =
      let (s₁, h₁, h₂) = >>=-eq-some (call c s) (run cs) h in
      let r = call-Reversible c s s₁ k.0 w h₁ in
      Reversible-trans env s s₁ s' r (run-Reversible cs s₁ s' k.1 r.well h₂)

-- Every revision was taken before the next one.
abbrev pub AllBelow : ℕ → List Revision → Type 0
AllBelow n [] = Unit
AllBelow n (r ∷ rs) = (r.id < n) × AllBelow n rs

search_revision-last :
    (rs : List Revision) (r : Revision)
    → AllBelow r.id rs
    → search_revision (rs ++ r ∷ []) r.id ≡ length rs
unfolding search_revision
search_revision-last [] r h = ground arith
search_revision-last (x ∷ rs) r h = ground (arith, search_revision-last rs r h.1)

pub snapshot-IsWell : (s : StateDb) → IsWell s → IsWell (snapshot s).1
unfolding snapshot
snapshot-IsWell s w = record {
  objects = record {
    indexed = w.objects.indexed;
    exact = w.objects.exact;
    at_home = w.objects.at_home;
  };
  rest = record {
    preimages_indexed = w.rest.preimages_indexed;
    preimages_exact = w.rest.preimages_exact;
    access_valid = w.rest.access_valid;
    log_word = w.rest.log_word;
  };
  tracked = w.tracked;
  kept = w.kept;
}

module _ (env : Env) where
  -- A revert to a revision that the search has found.
  revert_found :
      (s t : StateDb) (i : ℕ) (r : Revision)
      → revert_journal env s.entries r.journal_index s ≡ some t
      → (if r.id == r.id
          then (revert_journal env s.entries r.journal_index s >>= λ db'.
              some (record db' { valid_revisions = take i db'.valid_revisions }))
          else none)
        ≡ some (record t { valid_revisions = take i t.valid_revisions })
  revert_found s t i r back = ground (arith, back)

  -- The revert finds the last revision, and what its loop leaves is the result.
  revert_to_last :
      (s s' t : StateDb)
      → AllBelow s.next_revision_id s.valid_revisions
      → s'.valid_revisions ≡ (snapshot s).1.valid_revisions
      → revert_journal env s'.entries (length s.entries) s' ≡ some t
      → revert_to_snapshot env s' (snapshot s).0
        ≡ some (record t { valid_revisions = take (length s.valid_revisions) t.valid_revisions })
  unfolding revert_to_snapshot snapshot
  revert_to_last s s' t below revisions back =
      let r : Revision = record { id = s.next_revision_id; journal_index = length s.entries } in
      let at = λ (i : ℕ) (o : Option Revision). revert_at env s' s.next_revision_id i o in
      ap (λ vs. at (search_revision vs r.id) (get_elem? vs (search_revision vs r.id))) revisions
      ∙ ap (λ i. at i (get_elem? (s.valid_revisions ++ r ∷ []) i))
          (search_revision-last s.valid_revisions r below)
      ∙ ap (at (length s.valid_revisions)) (get_elem?-append_end s.valid_revisions r)
      ∙ revert_found s' t (length s.valid_revisions) r back

  with_revisions-Same :
      (s t : StateDb) (rs : List Revision)
      → Same env s t
      → Same env s (record t { valid_revisions = rs })
  unfolding account_view preimage_view
  with_revisions-Same s t rs h = record {
    agrees = record {
      accounts = h.agrees.accounts;
      preimages = h.agrees.preimages;
      rest = h.agrees.rest;
      stores = h.agrees.stores;
    };
    entries = h.entries;
    dirties = h.dirties;
  }

  snapshot-Same : (s t : StateDb) → Same env (snapshot s).1 t → Same env s t
  unfolding snapshot account_view preimage_view
  snapshot-Same s t h = record {
    agrees = record {
      accounts = h.agrees.accounts;
      preimages = h.agrees.preimages;
      rest = h.agrees.rest;
      stores = h.agrees.stores;
    };
    entries = h.entries;
    dirties = h.dirties;
  }

  -- A snapshot of a well-formed database whose revisions have smaller numbers than the next one,
  -- then any calls of the EVM that do not panic and do not touch RIPEMD with an amount of 0, then
  -- a revert to the snapshot: the revert does not panic, and every account, the preimages, the
  -- refund, the logs, the access list, the stores, the journal with its dirty counts and the
  -- revisions are as they were.
  pub revert_to_snapshot-restores :
      (cs : List Call) (s s' : StateDb)
      → IsWell s
      → AllBelow s.next_revision_id s.valid_revisions
      → AllTracked cs
      → run env cs (snapshot s).1 ≡ some s'
      → (t : StateDb) × (revert_to_snapshot env s' (snapshot s).0 ≡ some t)
        × Same env s t
        × (t.valid_revisions ≡ s.valid_revisions)
  unfolding snapshot
  revert_to_snapshot-restores cs s s' w below k h =
      let r = run-Reversible env cs (snapshot s).1 s' k (snapshot-IsWell s w) h in
      let (t, back, wt, same) = r.restores.back s' r.well (Same-refl env s') in
      (
        record t { valid_revisions = take (length s.valid_revisions) t.valid_revisions },
        revert_to_last s s' t below r.revisions back,
        with_revisions-Same s t _ (snapshot-Same s t same),
        ap (take (length s.valid_revisions))
              (revert_journal-revisions env s'.entries (length s.entries) s' t back ∙ r.revisions)
            ∙ take-append_length s.valid_revisions _,
      )
