-- ===== src/Evm/Snapshot/Undo.antt =====
-- Undoing the last entry of the journal, and what it means to restore a state.
use faxchain.Base.{
  ℕ, ◌≤◌, ◌≡◌, refl, sym, ap, ◌∙◌, some, List, ◌∷◌, arith, length, Option-cases, inl, inr,
}
use faxchain.Evm.Dirties.{Dirties}
use faxchain.Evm.Dirties.Lifo.{IsTracked, add_dirty-Added}
use faxchain.Evm.StateObject.{Env}
use faxchain.Evm.Journal.{JournalEntry, dirtied, StateDb}
use faxchain.Evm.StateDb.{append_entry}
use faxchain.Evm.StateDb.View.{account_view, preimage_view, rest_view}
use faxchain.Evm.StateDb.WellFormed.{IsWell, HasObjects, HasRest}
use faxchain.Evm.Snapshot.{undo_entry, untrack, revert_journal}
use faxchain.Evm.Snapshot.Revert.{revert_journal_done, revert_journal_one, revert_journal-split}

-- Two databases that answer alike over the same stores.
pub record Agrees (env : Env) (s t : StateDb) : Type 0 where
  pub accounts : (j : ℕ) → account_view env s j ≡ account_view env t j
  pub preimages : (h : ℕ) → preimage_view s h ≡ preimage_view t h
  pub rest : rest_view s ≡ rest_view t
  pub stores : s.stores ≡ t.stores

-- And have the same journal.
pub record Same (env : Env) (s t : StateDb) : Type 0 where
  pub agrees : Agrees env s t
  pub entries : s.entries ≡ t.entries
  pub dirties : s.dirties ≡ t.dirties

-- Wherever the database answers as `s'` does, undoing `e` makes it answer as `s` does.
abbrev pub UndoesTo : Env → JournalEntry → StateDb → StateDb → Type 0
UndoesTo env e s' s =
    (t : StateDb)
    → HasObjects t
    → HasRest t
    → Agrees env s' t
    → (t' : StateDb) × (undo_entry env t e ≡ some t')
      × Agrees env s t'
      × HasObjects t'
      × HasRest t'
      × (t'.dirties ≡ t.dirties)

-- From any database that is as `s'`, reverting to the length of the journal of `s` succeeds and
-- leaves one that is as `s`.
pub record Restores (env : Env) (s s' : StateDb) : Type 0 where
  pub grows : length s.entries ≤ length s'.entries
  pub back :
      (t : StateDb)
      → IsWell t
      → Same env s' t
      → (t' : StateDb) × (revert_journal env t.entries (length s.entries) t ≡ some t')
        × IsWell t'
        × Same env s t'

-- A journal with one more entry.
pub record Appended (s : StateDb) (e : JournalEntry) : Type 0 where
  pub after : StateDb
  pub runs : append_entry s e ≡ some after
  pub shape : after ≡ record s { entries = e ∷ s.entries; dirties = after.dirties }
  pub tracked : IsTracked after.dirties
  pub dropped :
      (env : Env) (t : StateDb)
      → t.dirties ≡ after.dirties
      → untrack env (dirtied e) t ≡ some (record t { dirties = s.dirties })

pub append_entry-Appended : (s : StateDb) (e : JournalEntry) → IsTracked s.dirties → Appended s e
unfolding append_entry
append_entry-Appended s e w = elim (Option-cases (dirtied e)) [
  | inl clean ↦ record {
    after = record s { entries = e ∷ s.entries };
    runs = rw clean;
    shape = refl;
    tracked = w;
    dropped = λ env t h. rw clean (ground arith);
  }
  | inr (a, marks) ↦
      let step = add_dirty-Added s.dirties a w in
      record {
        after = record s { entries = e ∷ s.entries; dirties = step.after };
        runs = rw (marks, step.runs);
        shape = refl;
        tracked = step.tracked;
        dropped = λ env t h. rw (marks, h, step.dropped);
      }
]

module _ (env : Env) where
  pub Agrees-refl : (s : StateDb) → Agrees env s s
  Agrees-refl s = record { accounts = λ j. refl; preimages = λ h. refl; rest = refl; stores = refl }

  pub Same-refl : (s : StateDb) → Same env s s
  Same-refl s = record { agrees = Agrees-refl s; entries = refl; dirties = refl }

  pub Agrees-trans : {s t u : StateDb} → Agrees env s t → Agrees env t u → Agrees env s u
  Agrees-trans p q = record {
    accounts = λ j. p.accounts j ∙ q.accounts j;
    preimages = λ h. p.preimages h ∙ q.preimages h;
    rest = p.rest ∙ q.rest;
    stores = p.stores ∙ q.stores;
  }

  pub Agrees-symm : {s t : StateDb} → Agrees env s t → Agrees env t s
  Agrees-symm p = record {
    accounts = λ j. sym (p.accounts j);
    preimages = λ h. sym (p.preimages h);
    rest = sym p.rest;
    stores = sym p.stores;
  }

  -- The journal is no part of the answers and of the invariant of the slices.
  with_journal-Agrees :
      (s t : StateDb) (es : List JournalEntry) (d : Dirties)
      → Agrees env s t
      → Agrees env s (record t { entries = es; dirties = d })
  unfolding account_view preimage_view
  with_journal-Agrees s t es d p = record {
    accounts = p.accounts;
    preimages = p.preimages;
    rest = p.rest;
    stores = p.stores;
  }

  -- A change that its entry undoes.
  pub append_entry-Restores :
      (s s' : StateDb) (e : JournalEntry) (step : Appended s e)
      → IsWell s
      → s'.entries ≡ e ∷ s.entries
      → s'.dirties ≡ step.after.dirties
      → UndoesTo env e s' s
      → Restores env s s'
  append_entry-Restores s s' e step w he hd undo = record {
    grows = rw he (omega arith);
    back = λ t wt same.
        let (t', runs, agrees, o, r, d) = undo t wt.objects wt.rest same.agrees in
        let cut : untrack env (dirtied e) (record t' { entries = s.entries })
            ≡ some (record t' { entries = s.entries; dirties = s.dirties }) =
          step.dropped env (record t' { entries = s.entries }) (d ∙ sym same.dirties ∙ hd) in
        (
          record t' { entries = s.entries; dirties = s.dirties },
          ap (λ es. revert_journal env es (length s.entries) t) (sym same.entries ∙ he)
              ∙ revert_journal_one env e s.entries t t' _ runs cut,
          record {
            objects = record { indexed = o.indexed; exact = o.exact; at_home = o.at_home };
            rest = record {
              preimages_indexed = r.preimages_indexed;
              preimages_exact = r.preimages_exact;
              access_valid = r.access_valid;
              log_word = r.log_word;
            };
            tracked = w.tracked;
            kept = w.kept;
          },
          record {
            agrees = with_journal-Agrees s t' s.entries s.dirties agrees;
            entries = refl;
            dirties = refl;
          },
        );
  }

  -- Changes that only caches see.
  pub silent-Restores :
      (s s' : StateDb)
      → s'.entries ≡ s.entries
      → s'.dirties ≡ s.dirties
      → Agrees env s s'
      → Restores env s s'
  silent-Restores s s' he hd a = record {
    grows = rw he (omega arith);
    back = λ t wt same. (
      t,
      ap (λ es. revert_journal env es (length s.entries) t) (sym same.entries ∙ he)
          ∙ (revert_journal_done env s.entries (length s.entries) t (omega arith)),
      wt,
      record {
        agrees = Agrees-trans a same.agrees;
        entries = sym he ∙ same.entries;
        dirties = sym hd ∙ same.dirties;
      },
    );
  }

  pub Restores-trans : (s t u : StateDb) → Restores env s t → Restores env t u → Restores env s u
  Restores-trans s t u p q = record {
    grows = omega (arith, p.grows, q.grows);
    back = λ x wx same.
        let (y, r, wy, same') = q.back x wx same in
        let (z, r', wz, same'') = p.back y wy same' in
        (
          z,
          revert_journal-split env x.entries (length t.entries) (length s.entries) x y p.grows refl
                r
              ∙ r',
          wz,
          same'',
        );
  }
