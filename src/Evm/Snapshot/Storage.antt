-- ===== src/Evm/Snapshot/Storage.antt =====
-- Reading and writing a storage slot, which may cache the committed value.
use faxchain.Base.{
  ℕ, ◌≡◌, refl, sym, ap, ◌∙◌, fun_ext, none, some, arith, ◌==◌, Option-cases, Bool-cases, inl, inr,
}
use faxchain.Evm.Table.{get, put}
use faxchain.Evm.Table.Laws.{put-IsIndexed, get-put}
use faxchain.Evm.StateObject.{Env, StateObject, Stores, get_object_state, set_object_state, or_zero}
use faxchain.Evm.Journal.{storage_change, StateDb}
use faxchain.Evm.StateDb.{set_state_object, journal_object, put_state, set_state}
use faxchain.Evm.StateDb.View.{AccountView, account_view, object_view, state_view, preimage_view}
use faxchain.Evm.StateDb.WellFormed.{
  IsWell, IsSound, account_view-set, set_state_object-HasObjects, set_state_object-HasRest,
}
use faxchain.Evm.Snapshot.{undo_entry}
use faxchain.Evm.Snapshot.Undo.{silent-Restores}
use faxchain.Evm.Snapshot.Objects.{set_object_state-Keeps, state-TurnsBack}
use faxchain.Evm.Snapshot.Accounts.{Reversible, Live, change-Reversible}
use faxchain.Evm.Snapshot.Operations.{Succeeds, Undoable, Succeeds-Undoable, on_new-Undoable}

-- What a read of a slot does to the object: it caches, and changes no answer.
pub record Reads (env : Env) (st : Stores) (so : StateObject) (key : ℕ) (r : ℕ × StateObject)
    : Type 0 where
  pub value : r.0 ≡ state_view st so key
  pub address : r.1.address ≡ so.address
  pub deleted : r.1.deleted ≡ so.deleted
  pub sound : IsSound r.1
  pub view : object_view env st r.1 ≡ object_view env st so

module _ (env : Env) where
  cached-Reads :
      (st : Stores) (so : StateObject) (key : ℕ)
      → IsSound so
      → get so.dirty_storage key ≡ none
      → get so.origin_storage key ≡ none
      → Reads env st so key (
        or_zero (st.storage so.address key),
        record so {
          origin_storage = put so.origin_storage key (or_zero (st.storage so.address key));
        },
      )
  unfolding object_view
  cached-Reads st so key w clean fresh = record {
    value = ground arith;
    address = refl;
    deleted = refl;
    sound = record { origin = put-IsIndexed so.origin_storage key _ w.origin; dirty = w.dirty };
    view =
        ap (λ (f : ℕ → ℕ). record (object_view env st so) { state = f })
          (fun_ext (λ j. ground (
            arith,
            get-put so.origin_storage key j (or_zero (st.storage so.address key)) w.origin,
          )));
  }

  pub get_object_state-Reads :
      (st : Stores) (so : StateObject) (key : ℕ)
      → IsSound so
      → Reads env st so key (get_object_state st so key)
  unfolding get_object_state
  get_object_state-Reads st so key w = elim (Option-cases (get so.dirty_storage key)) [
    | inl clean ↦ elim (Option-cases (get so.origin_storage key)) [
      | inl fresh ↦ rw (clean, fresh) (cached-Reads st so key w clean fresh)
      | inr (v, cached) ↦ record {
        value = ground arith;
        address = ground arith;
        deleted = ground arith;
        sound = rw (clean, cached) w;
        view = rw (clean, cached);
      }
    ]
    | inr (v, dirty) ↦ record {
      value = ground arith;
      address = ground arith;
      deleted = ground arith;
      sound = rw dirty w;
      view = rw dirty;
    }
  ]

  -- Writing back an object that only cached something.
  pub rewritten-Reversible :
      (s : StateDb) (so : StateObject)
      → IsWell s
      → Live env s so.address so
      → Reversible env s (set_state_object s so)
  unfolding set_state_object preimage_view
  rewritten-Reversible s so w l = record {
    restores = silent-Restores env s (set_state_object s so) refl refl (record {
      accounts = λ j. ground (arith, l.shown, account_view-set env s so j w.objects l.live);
      preimages = λ h. refl;
      rest = refl;
      stores = refl;
    });
    well = record {
      objects = set_state_object-HasObjects s so w.objects l.sound l.live;
      rest = set_state_object-HasRest s so w.rest;
      tracked = w.tracked;
      kept = w.kept;
    };
    stores = refl;
    revisions = refl;
  }

  write-Succeeds :
      (s : StateDb) (b : ℕ) (so : StateObject) (key value prev : ℕ)
      → IsWell s
      → Live env s so.address so
      → b ≡ so.address
      → prev ≡ state_view s.stores so key
      → Succeeds env s
          (journal_object env s (storage_change b key prev) (set_object_state so key value))
  unfolding undo_entry
  write-Succeeds s b so key value prev w l eb p =
      let (s', runs, r, _) =
        change-Reversible env s (storage_change b key prev) (λ x. set_object_state x key prev) so
          (set_object_state so key value) w tt l
          ((set_object_state-Keeps key value).sound so l.sound)
          ((set_object_state-Keeps key value).deleted so ∙ l.live)
          ((set_object_state-Keeps key value).address so) (λ t x t' e. rw eb (rw e))
          (set_object_state-Keeps key prev)
          (state-TurnsBack env s.stores so key value prev l.sound (sym p)) in
      (s', runs, r)

  pub put_state-Succeeds :
      (s : StateDb) (a : ℕ) (so : StateObject) (key value : ℕ)
      → IsWell s
      → Live env s a so
      → Succeeds env s (put_state env s so key value)
  unfolding put_state object_view
  put_state-Succeeds s a so key value w l =
      let k = env.storage_key so.address key in
      let r = get_object_state-Reads s.stores so k l.sound in
      let so' = (get_object_state s.stores so k).1 in
      let l' : Live env s so'.address so' = record {
        shown = ap (account_view env s) (r.address ∙ l.home) ∙ l.shown ∙ ap some (sym r.view);
        home = refl;
        sound = r.sound;
        live = r.deleted ∙ l.live;
      } in
      elim (Bool-cases ((get_object_state s.stores so k).0 == value)) [
        | inl same ↦ rw same (set_state_object s so', refl, rewritten-Reversible s so' w l')
        | inr differs ↦ rw differs (
            write-Succeeds s so.address so' k value _ w l' (sym r.address)
              (r.value ∙ ap (λ (u : AccountView). u.state k) (sym r.view)))
      ]

  pub set_state-Undoable :
      (s : StateDb) (a key value : ℕ) → IsWell s → Undoable env s (set_state env s a key value)
  unfolding set_state
  set_state-Undoable s a key value w =
      on_new-Undoable env (λ so s'. put_state env s' so key value) s a
        (λ so s' w' l. Succeeds-Undoable env s' _ (put_state-Succeeds s' a so key value w' l)) w
