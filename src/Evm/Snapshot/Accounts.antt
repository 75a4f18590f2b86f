-- ===== src/Evm/Snapshot/Accounts.antt =====
-- The operations on accounts are restored by a revert of their journal entries.
use faxchain.Base.{ℕ, ◌≡◌, refl, sym, ap, ◌∙◌, subst, false, some, ◌∷◌, arith}
use faxchain.Evm.Dirties.Lifo.{IsTracked}
use faxchain.Evm.StateObject.{Env, StateObject}
use faxchain.Evm.Journal.{JournalEntry, StateDb}
use faxchain.Evm.StateDb.{set_state_object, get_state_object, journal_object}
use faxchain.Evm.StateDb.View.{account_view, object_view, preimage_view, rest_view, update}
use faxchain.Evm.StateDb.WellFormed.{
  IsWell, IsSound, IsKept, AllKept, Fetched, account_view-set, set_state_object-HasObjects,
  Fetched-HasRest,
}
use faxchain.Evm.Snapshot.{undo_entry}
use faxchain.Evm.Snapshot.Undo.{
  UndoesTo, Restores, append_entry-Appended, append_entry-Restores, silent-Restores, Restores-trans,
}
use faxchain.Evm.Snapshot.Objects.{Keeps, TurnsBack, on_object-UndoesTo}

-- What an operation from a good state does: it does not panic, and can be reverted.
pub record Reversible (env : Env) (s s' : StateDb) : Type 0 where
  pub restores : Restores env s s'
  pub well : IsWell s'
  pub stores : s'.stores ≡ s.stores
  pub revisions : s'.valid_revisions ≡ s.valid_revisions

-- A good live object in a database that answers with it.
pub record Live (env : Env) (s : StateDb) (addr : ℕ) (so : StateObject) : Type 0 where
  pub shown : account_view env s addr ≡ some (object_view env s.stores so)
  pub home : so.address ≡ addr
  pub sound : IsSound so
  pub live : so.deleted ≡ false

-- The database with an entry on the journal and an object written.
abbrev pub journaled : StateDb → JournalEntry → StateObject → (e : StateDb) → StateDb
journaled s e so after =
    set_state_object (record s { entries = e ∷ s.entries; dirties = after.dirties }) so

module _ (env : Env) where
  pub Reversible-trans :
      (s t u : StateDb) → Reversible env s t → Reversible env t u → Reversible env s u
  Reversible-trans s t u p q = record {
    restores = Restores-trans env s t u p.restores q.restores;
    well = q.well;
    stores = q.stores ∙ p.stores;
    revisions = q.revisions ∙ p.revisions;
  }

  -- An entry and a write of an object, for any way to undo them.
  module _ (s : StateDb) (e : JournalEntry) (so : StateObject) (w : IsWell s) (k : IsKept e)
      (sound : IsSound so) (live : so.deleted ≡ false) where
    abbrev pub written : StateDb
    written = journaled s e so (append_entry-Appended s e w.tracked).after

    pub journal_object_runs : journal_object env s e so ≡ some written
    unfolding journal_object
    journal_object_runs =
        let step = append_entry-Appended s e w.tracked in rw (step.runs ∙ ap some step.shape)

    pub written_accounts :
        (j : ℕ)
        → account_view env written j
          ≡ update (account_view env s) so.address (some (object_view env s.stores so)) j
    unfolding account_view
    written_accounts j =
        let step = append_entry-Appended s e w.tracked in
        account_view-set env (record s { entries = e ∷ s.entries; dirties = step.after.dirties }) so
          j
          (record {
            indexed = w.objects.indexed;
            exact = w.objects.exact;
            at_home = w.objects.at_home;
          })
          live

    pub written-IsWell : IsWell written
    unfolding set_state_object
    written-IsWell =
        let step = append_entry-Appended s e w.tracked in
        let o = set_state_object-HasObjects s so w.objects sound live in
        record {
          objects = record { indexed = o.indexed; exact = o.exact; at_home = o.at_home };
          rest = record {
            preimages_indexed = w.rest.preimages_indexed;
            preimages_exact = w.rest.preimages_exact;
            access_valid = w.rest.access_valid;
            log_word = w.rest.log_word;
          };
          tracked = step.tracked;
          kept = (k, w.kept);
        }

    pub written-Reversible : UndoesTo env e written s → Reversible env s written
    unfolding set_state_object
    written-Reversible undo = record {
      restores =
          append_entry-Restores env s written e (append_entry-Appended s e w.tracked) w refl refl
            undo;
      well = written-IsWell;
      stores = refl;
      revisions = refl;
    }

    pub written-Live : Live env written so.address so
    unfolding set_state_object
    written-Live = record {
      shown = written_accounts so.address ∙ ground arith;
      home = refl;
      sound = sound;
      live = live;
    }

  -- A change of a live object by a method that its entry's method turns back.
  pub change-Reversible :
      (s : StateDb) (e : JournalEntry) (g : StateObject → StateObject) (so so' : StateObject)
      (w : IsWell s) (k : IsKept e)
      → Live env s so.address so
      → IsSound so'
      → so'.deleted ≡ false
      → so'.address ≡ so.address
      → ((t : StateDb) (x : StateObject) (t' : StateDb)
          → get_state_object env t so.address ≡ some (some x, t')
          → undo_entry env t e ≡ some (set_state_object t' (g x)))
      → Keeps g
      → TurnsBack env s.stores g so' so
      → (s' : StateDb) × (journal_object env s e so' ≡ some s')
        × Reversible env s s'
        × Live env s' so.address so'
  unfolding set_state_object preimage_view
  change-Reversible s e g so so' w k l sound live home undone keeps back =
      let s' = written s e so' w k sound live in
      (
        s',
        journal_object_runs s e so' w k sound live,
        written-Reversible s e so' w k sound live (
            on_object-UndoesTo env e g s s' so so' undone keeps l.shown refl
              (λ j.
                written_accounts s e so' w k sound live j
                ∙ ap (λ a. update (account_view env s) a (some (object_view env s.stores so')) j)
                    home)
              (λ h. refl) refl back),
        subst (λ a. Live env s' a so') home (written-Live s e so' w k sound live),
      )

  -- A look-up only fills the cache.
  pub Fetched-Reversible :
      (s : StateDb) (addr : ℕ) (so : StateObject) (s' : StateDb)
      → IsWell s
      → Fetched env s addr so s'
      → Reversible env s s'
  unfolding preimage_view
  Fetched-Reversible s addr so s' w f = record {
    restores =
        silent-Restores env s s' (ap (λ (d : StateDb). d.entries) f.caches_only)
          (ap (λ (d : StateDb). d.dirties) f.caches_only)
          (record {
            accounts = λ j. sym (f.same j);
            preimages = λ h. sym (ap (λ (d : StateDb). preimage_view d h) f.caches_only);
            rest = sym (ap rest_view f.caches_only);
            stores = sym (ap (λ (d : StateDb). d.stores) f.caches_only);
          });
    well = record {
      objects = f.objects;
      rest = Fetched-HasRest env s addr so s' f w.rest;
      tracked = subst IsTracked (sym (ap (λ (d : StateDb). d.dirties) f.caches_only)) w.tracked;
      kept = subst AllKept (sym (ap (λ (d : StateDb). d.entries) f.caches_only)) w.kept;
    };
    stores = ap (λ (d : StateDb). d.stores) f.caches_only;
    revisions = ap (λ (d : StateDb). d.valid_revisions) f.caches_only;
  }

  pub Fetched-Live :
      (s : StateDb) (addr : ℕ) (so : StateObject) (s' : StateDb)
      → Fetched env s addr so s'
      → Live env s' addr so
  Fetched-Live s addr so s' f = record {
    shown =
        f.same addr
        ∙ f.shown
        ∙ ap (λ st. some (object_view env st so))
            (sym (ap (λ (d : StateDb). d.stores) f.caches_only));
    home = f.home;
    sound = f.sound;
    live = f.live;
  }
