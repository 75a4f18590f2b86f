-- ===== src/Evm/Snapshot/Objects.antt =====
-- Changes of a live object: each is undone by the method that its journal entry calls.
use faxchain.Base.{
  ℕ, ◌≡◌, refl, sym, ap, ◌∙◌, fun_ext, Bool, some, List, [], ◌∷◌, arith, ◌==◌, some_inj, Bool-cases,
  inl, inr, if◌then◌else◌,
}
use faxchain.Evm.Table.Laws.{get-put, put-IsIndexed}
use faxchain.Evm.StateObject.{
  Env, StateObject, Stores, code_of, code_hash, get_object_code, set_object_balance,
  set_object_nonce, set_object_state, set_object_code, mark_suicided,
}
use faxchain.Evm.Journal.{JournalEntry, StateDb}
use faxchain.Evm.StateDb.{set_state_object, get_state_object}
use faxchain.Evm.StateDb.View.{
  AccountView, account_view, object_view, state_view, preimage_view, rest_view, update,
}
use faxchain.Evm.StateDb.WellFormed.{
  IsSound, Fetched, get_state_object-some, account_view-set, set_state_object-HasObjects,
  set_state_object-HasRest, Fetched-HasRest,
}
use faxchain.Evm.Snapshot.{undo_entry, restore_suicided}
use faxchain.Evm.Snapshot.Undo.{Agrees, UndoesTo}

-- A method that leaves the address of an object, and keeps it live and its caches indexed.
pub record Keeps (f : StateObject → StateObject) : Type 0 where
  pub address : (so : StateObject) → (f so).address ≡ so.address
  pub deleted : (so : StateObject) → (f so).deleted ≡ so.deleted
  pub sound : (so : StateObject) → IsSound so → IsSound (f so)

pub set_object_balance-Keeps : (v : ℕ) → Keeps (λ so. set_object_balance so v)
unfolding set_object_balance
set_object_balance-Keeps v = record {
  address = λ so. refl;
  deleted = λ so. refl;
  sound = λ so s. record { origin = s.origin; dirty = s.dirty };
}

pub set_object_nonce-Keeps : (v : ℕ) → Keeps (λ so. set_object_nonce so v)
unfolding set_object_nonce
set_object_nonce-Keeps v = record {
  address = λ so. refl;
  deleted = λ so. refl;
  sound = λ so s. record { origin = s.origin; dirty = s.dirty };
}

pub set_object_code-Keeps : (h : ℕ) (c : List ℕ) → Keeps (λ so. set_object_code so h c)
unfolding set_object_code
set_object_code-Keeps h c = record {
  address = λ so. refl;
  deleted = λ so. refl;
  sound = λ so s. record { origin = s.origin; dirty = s.dirty };
}

pub mark_suicided-Keeps : Keeps mark_suicided
unfolding mark_suicided
mark_suicided-Keeps = record {
  address = λ so. refl;
  deleted = λ so. refl;
  sound = λ so s. record { origin = s.origin; dirty = s.dirty };
}

pub restore_suicided-Keeps : (b : Bool) (v : ℕ) → Keeps (restore_suicided b v)
unfolding restore_suicided set_object_balance
restore_suicided-Keeps b v = record {
  address = λ so. refl;
  deleted = λ so. refl;
  sound = λ so s. record { origin = s.origin; dirty = s.dirty };
}

pub set_object_state-Keeps : (k v : ℕ) → Keeps (λ so. set_object_state so k v)
unfolding set_object_state
set_object_state-Keeps k v = record {
  address = λ so. refl;
  deleted = λ so. refl;
  sound = λ so s. record { origin = s.origin; dirty = put-IsIndexed so.dirty_storage k v s.dirty };
}

-- `g` takes an object that answers as `so'` does to one that answers as `so` does.
abbrev pub TurnsBack :
    Env → Stores → (StateObject → StateObject) → StateObject → StateObject → Type 0
TurnsBack env st g so' so =
    (x : StateObject)
    → x.address ≡ so.address
    → IsSound x
    → object_view env st x ≡ object_view env st so'
    → object_view env st (g x) ≡ object_view env st so

module _ (env : Env) (st : Stores) (so : StateObject) where
  pub balance-TurnsBack :
      (v : ℕ)
      → TurnsBack env st (λ x. set_object_balance x so.account.balance) (set_object_balance so v) so
  unfolding object_view set_object_balance
  balance-TurnsBack v x a s h =
      ap (λ (w : AccountView). record w { balance = so.account.balance }) h

  pub nonce-TurnsBack :
      (v : ℕ)
      → TurnsBack env st (λ x. set_object_nonce x so.account.sequence) (set_object_nonce so v) so
  unfolding object_view set_object_nonce
  nonce-TurnsBack v x a s h = ap (λ (w : AccountView). record w { nonce = so.account.sequence }) h

  pub suicided-TurnsBack :
      TurnsBack env st (restore_suicided so.suicided so.account.balance) (mark_suicided so) so
  unfolding object_view restore_suicided mark_suicided set_object_balance
  suicided-TurnsBack x a s h =
      ap (λ (w : AccountView). record w { suicided = so.suicided; balance = so.account.balance }) h

  code_of_again : (h : ℕ) (c : List ℕ) → code_of env st h (code_of env st h c) ≡ code_of env st h c
  code_of_again h [] = ground arith
  code_of_again h (b ∷ bs) = refl

  pub code-TurnsBack :
      (h : ℕ) (c : List ℕ)
      → TurnsBack env st
          (λ x. set_object_code x (code_hash env so) (get_object_code env st so))
          (set_object_code so h c)
          so
  unfolding object_view set_object_code code_hash get_object_code
  code-TurnsBack h c x a s e =
      ap
        (λ (w : AccountView). record w {
          hash = code_hash env so;
          code = code_of env st (code_hash env so) (get_object_code env st so);
        })
        e
      ∙ ap (λ (d : List ℕ). record (object_view env st so) { code = d })
          (code_of_again (code_hash env so) so.code)

  state_view-set :
      (x : StateObject) (k v j : ℕ)
      → IsSound x
      → state_view st (set_object_state x k v) j ≡ (if j == k then v else state_view st x j)
  unfolding set_object_state
  state_view-set x k v j s = ground (arith, get-put x.dirty_storage k j v s.dirty)

  state_view-back :
      (k v prev : ℕ) (x : StateObject)
      → IsSound so
      → IsSound x
      → state_view st so k ≡ prev
      → ((j : ℕ) → state_view st x j ≡ state_view st (set_object_state so k v) j)
      → (j : ℕ) → state_view st (set_object_state x k prev) j ≡ state_view st so j
  state_view-back k v prev x w s p e j = elim (Bool-cases (j == k)) [
    | inl here ↦ let q : j ≡ k = ground arith in state_view-set x k prev j s ∙ rw (here, q) (sym p)
    | inr other ↦
        state_view-set x k prev j s ∙ rw other (e j) ∙ state_view-set so k v j w ∙ rw other
  ]

  pub state-TurnsBack :
      (k v prev : ℕ)
      → IsSound so
      → state_view st so k ≡ prev
      → TurnsBack env st (λ x. set_object_state x k prev) (set_object_state so k v) so
  unfolding object_view set_object_state
  state-TurnsBack k v prev w p x a s e =
      ap (λ (u : AccountView). record u { state = state_view st (set_object_state x k prev) }) e
      ∙ ap (λ (f : ℕ → ℕ). record (object_view env st so) { state = f })
          (fun_ext (state_view-back k v prev x w s p (λ j. ap (λ (u : AccountView). u.state j) e)))

module _ (env : Env) where
  changed :
      (s s' t : StateDb) (so so' : StateObject)
      → ((j : ℕ)
          → account_view env s' j
            ≡ update (account_view env s) so.address (some (object_view env s.stores so')) j)
      → Agrees env s' t
      → account_view env t so.address ≡ some (object_view env s.stores so')
  changed s s' t so so' accounts ag = ground (arith, ag.accounts so.address, accounts so.address)

  -- A change of the object that `t` holds, where `t` answers as the changed `s'`.
  module _ (g : StateObject → StateObject) (s s' t t' : StateDb) (so so' x : StateObject)
      (keeps : Keeps g) (shown : account_view env s so.address ≡ some (object_view env s.stores so))
      (stores : s'.stores ≡ s.stores)
      (accounts : (j : ℕ)
        → account_view env s' j
          ≡ update (account_view env s) so.address (some (object_view env s.stores so')) j)
      (preimages : (h : ℕ) → preimage_view s h ≡ preimage_view s' h)
      (rest : rest_view s ≡ rest_view s') (back : TurnsBack env s.stores g so' so)
      (ag : Agrees env s' t) (f : Fetched env t so.address x t') where
    same_stores : t'.stores ≡ s.stores
    same_stores = ap (λ (d : StateDb). d.stores) f.caches_only ∙ sym ag.stores ∙ stores

    changed_view : account_view env t so.address ≡ some (object_view env s.stores so')
    changed_view = changed s s' t so so' accounts ag

    same_view : object_view env s.stores x ≡ object_view env s.stores so'
    same_view =
        ap (λ w. object_view env w x) (sym (sym ag.stores ∙ stores))
        ∙ some_inj (sym f.shown ∙ changed_view)

    turned_view : object_view env t'.stores (g x) ≡ object_view env s.stores so
    turned_view = ap (λ w. object_view env w (g x)) same_stores ∙ back x f.home f.sound same_view

    turned_account : (j : ℕ) → account_view env s j ≡ account_view env (set_state_object t' (g x)) j
    turned_account j = ground (
      arith,
      shown,
      turned_view,
      f.home,
      keeps.address x,
      f.same j,
      ag.accounts j,
      accounts j,
      account_view-set env t' (g x) j f.objects (keeps.deleted x ∙ f.live),
    )

    turned_back : Agrees env s (set_state_object t' (g x))
    unfolding preimage_view set_state_object
    turned_back = record {
      accounts = turned_account;
      preimages = λ h.
          preimages h
          ∙ ag.preimages h
          ∙ sym (ap (λ (d : StateDb). preimage_view d h) f.caches_only);
      rest = rest ∙ ag.rest ∙ sym (ap rest_view f.caches_only);
      stores = sym same_stores;
    }

    turned_dirties : (set_state_object t' (g x)).dirties ≡ t.dirties
    unfolding set_state_object
    turned_dirties = ap (λ (d : StateDb). d.dirties) f.caches_only

  -- The lemma for the entries whose undoing is a method of the object.
  pub on_object-UndoesTo :
      (e : JournalEntry) (g : StateObject → StateObject) (s s' : StateDb) (so so' : StateObject)
      → ((t : StateDb) (x : StateObject) (t' : StateDb)
          → get_state_object env t so.address ≡ some (some x, t')
          → undo_entry env t e ≡ some (set_state_object t' (g x)))
      → Keeps g
      → account_view env s so.address ≡ some (object_view env s.stores so)
      → s'.stores ≡ s.stores
      → ((j : ℕ)
          → account_view env s' j
            ≡ update (account_view env s) so.address (some (object_view env s.stores so')) j)
      → ((h : ℕ) → preimage_view s h ≡ preimage_view s' h)
      → rest_view s ≡ rest_view s'
      → TurnsBack env s.stores g so' so
      → UndoesTo env e s' s
  on_object-UndoesTo e g s s' so so' undone keeps shown stores accounts pre rest back t ho hr ag =
      let (x, t', f) =
        get_state_object-some env t so.address (object_view env s.stores so')
          (changed s s' t so so' accounts ag) ho in
      (
        set_state_object t' (g x),
        undone t x t' f.found,
        turned_back g s s' t t' so so' x keeps shown stores accounts pre rest back ag f,
        set_state_object-HasObjects t' (g x) f.objects (keeps.sound x f.sound)
            (keeps.deleted x ∙ f.live),
        set_state_object-HasRest t' (g x) (Fetched-HasRest env t so.address x t' f hr),
        turned_dirties g s s' t t' so so' x keeps shown stores accounts pre rest back ag f,
      )
