-- ===== src/Evm/Finalise/Writes.antt =====
-- What `Finalise` writes to the stores.
use faxchain.Base.{
  ℕ, put_key, ◌≡◌, ◌≢◌, refl, sym, ap, ◌∙◌, subst, Bool, true, false, Option, none, some, arith,
  ◌==◌, if◌then◌else◌, Bool-cases, Option-cases, inl, inr,
}
use faxchain.Evm.Table.{get, put}
use faxchain.Evm.Table.Laws.{IsIndexed, get-put, put-IsIndexed}
use faxchain.Evm.StateObject.{eth_account, Env, StateObject, or_zero}
use faxchain.Evm.Journal.{StateDb}
use faxchain.Evm.StateDb.{set_state_object}
use faxchain.Evm.StateDb.View.{state_view}
use faxchain.Evm.Commit.{commit_state}
use faxchain.Evm.Commit.Flush.{IsReady, commit_state-stores}
use faxchain.Evm.Finalise.{
  finalise_at, is_doomed, update_state_object, delete_state_object, mark_dirty,
}

-- A live object that can be written: it stands under its address, which is not blacklisted.
pub record IsWritable (env : Env) (db : StateDb) (addr : ℕ) (so : StateObject) : Type 0 where
  pub home : so.address ≡ addr
  pub allowed : env.blacklisted addr ≡ false
  pub ready : IsReady so (db.stores.storage addr)

pub record AllWritable (env : Env) (db : StateDb) : Type 0 where
  pub indexed : IsIndexed db.state_objects
  pub writable :
      (addr : ℕ) (so : StateObject)
      → get db.state_objects addr ≡ some so
      → IsWritable env db addr so

-- An address that is left as it was.
pub record Untouched (db : StateDb) (j : ℕ) (db' : StateDb) : Type 0 where
  pub account : db'.stores.accounts j ≡ db.stores.accounts j
  pub storage : db'.stores.storage j ≡ db.stores.storage j
  pub object : get db'.state_objects j ≡ get db.state_objects j

-- The stores have what the object shows, or no account of an object that is removed.
abbrev pub Written : StateDb → ℕ → StateDb → StateObject → Bool → Type 0
Written db j db' so true = (db'.stores.accounts j ≡ none)
Written db j db' so false =
    (db'.stores.accounts j ≡ some (eth_account so.account))
    × ((k : ℕ) → or_zero (db'.stores.storage j k) ≡ state_view db.stores so k)

module _ (env : Env) (delete_empty : Bool) where
  -- A dirty address is skipped where it has no object.
  abbrev pub Settled : StateDb → ℕ → StateDb → Option StateObject → Type 0
  Settled db j db' none = Untouched db j db'
  Settled db j db' (some so) = Written db j db' so (is_doomed env delete_empty so)

  -- One address of the loop.
  pub record Step (db : StateDb) (a : ℕ) : Type 0 where
    pub after : StateDb
    pub runs : finalise_at env delete_empty db a (get db.state_objects a) ≡ some (none, after)
    pub settled : Settled db a after (get db.state_objects a)
    pub others : (j : ℕ) → j ≢ a → Untouched db j after
    pub good : AllWritable env after

deleted-IsReady :
    (so : StateObject) (store : ℕ → Option ℕ)
    → IsReady so store
    → IsReady (record so { deleted = true }) store
deleted-IsReady so store r = record {
  sound = record { origin = r.sound.origin; dirty = r.sound.dirty };
  exact = r.exact;
  read = r.read;
  synced = r.synced;
}

module _ (env : Env) where
  -- An object that is written back under its address, with the storage that it then has.
  pub put-AllWritable :
      (db db' : StateDb) (so : StateObject)
      → AllWritable env db
      → IsWritable env db' so.address so
      → db'.state_objects ≡ put db.state_objects so.address so
      → ((j : ℕ) → j ≢ so.address → db'.stores.storage j ≡ db.stores.storage j)
      → AllWritable env db'
  put-AllWritable db db' so w o e s = record {
    indexed = subst IsIndexed (sym e) (put-IsIndexed db.state_objects so.address so w.indexed);
    writable = λ j so' h.
        let h' = sym (ap (λ t. get t j) e) ∙ h in
        elim (Bool-cases (j == so.address)) [
          | inl here ↦
              let same : so ≡ so' =
                ground (arith, get-put db.state_objects so.address j so w.indexed) in
              subst (IsWritable env db' j) same
                (subst (λ a. IsWritable env db' a so) (ground arith) o)
          | inr other ↦
              let o' =
                w.writable j so'
                  (ground (arith, get-put db.state_objects so.address j so w.indexed)) in
              record {
                home = o'.home;
                allowed = o'.allowed;
                ready = subst (IsReady so') (sym (s j (ground arith))) o'.ready;
              }
        ];
  }

  doomed-Step :
      (delete_empty : Bool) (db : StateDb) (so : StateObject)
      → get db.state_objects so.address ≡ some so
      → is_doomed env delete_empty so ≡ true
      → AllWritable env db
      → Step env delete_empty db so.address
  unfolding delete_state_object set_state_object
  doomed-Step delete_empty db so found doomed w =
      let o = w.writable so.address so found in
      record {
        after = mark_dirty (delete_state_object db so) so.address;
        runs = rw (found, doomed);
        settled = rw (found, doomed) (ground arith);
        others = λ j ne. record {
          account = ground arith;
          storage = refl;
          object = ground (
            arith,
            get-put db.state_objects so.address j (record so { deleted = true }) w.indexed,
          );
        };
        good =
            put-AllWritable db _ (record so { deleted = true }) w
              (record { home = refl; allowed = o.allowed; ready = deleted-IsReady so _ o.ready })
              refl (λ j ne. refl);
      }

  -- The database after an object that is kept, whose commit left `so'` and `store`.
  abbrev kept_after : StateDb → StateObject → StateObject → (ℕ → Option ℕ) → StateDb
  kept_after db so so' store =
      let st = record db.stores {
        storage = λ j. if j == so.address then store else db.stores.storage j;
        accounts = put_key so.address (eth_account so.account) db.stores.accounts;
      } in
      mark_dirty (record (set_state_object db so') { stores = st }) so.address

  kept_after-AllWritable :
      (db : StateDb) (so so' : StateObject) (store : ℕ → Option ℕ)
      → env.blacklisted so.address ≡ false
      → so'.address ≡ so.address
      → IsReady so' store
      → AllWritable env db
      → AllWritable env (kept_after db so so' store)
  unfolding set_state_object
  kept_after-AllWritable db so so' store allowed e ready w =
      put-AllWritable db _ so' w
        (record {
          home = refl;
          allowed = ap env.blacklisted e ∙ allowed;
          ready = subst (IsReady so') (ground (arith, e)) ready;
        })
        refl (λ j ne. ground (arith, e))

  kept-runs :
      (delete_empty : Bool) (db : StateDb) (so so' : StateObject) (store : ℕ → Option ℕ)
      → get db.state_objects so.address ≡ some so
      → is_doomed env delete_empty so ≡ false
      → env.blacklisted so.address ≡ false
      → commit_state so (db.stores.storage so.address) ≡ some (so', store)
      → finalise_at env delete_empty db so.address (get db.state_objects so.address)
        ≡ some (none, kept_after db so so' store)
  unfolding update_state_object set_state_object
  kept-runs delete_empty db so so' store found kept allowed runs = rw (found, kept, runs, allowed)

  kept_after-store :
      (db : StateDb) (so so' : StateObject) (store : ℕ → Option ℕ)
      → (kept_after db so so' store).stores.storage so.address ≡ store
  kept_after-store db so so' store = ground arith

  kept-Step :
      (delete_empty : Bool) (db : StateDb) (so : StateObject)
      → get db.state_objects so.address ≡ some so
      → is_doomed env delete_empty so ≡ false
      → AllWritable env db
      → Step env delete_empty db so.address
  unfolding set_state_object
  kept-Step delete_empty db so found kept w =
      let o = w.writable so.address so found in
      let (so', store, runs, stored, ready, _, e) = commit_state-stores db.stores so o.ready in
      record {
        after = kept_after db so so' store;
        runs = kept-runs delete_empty db so so' store found kept o.allowed runs;
        settled =
            rw (found, kept)
              (
                ground arith,
                λ k.
                    ap (λ (m : ℕ → Option ℕ). or_zero (m k)) (kept_after-store db so so' store)
                    ∙ stored k,
              );
        others = λ j ne. record {
          account = ground arith;
          storage = ground arith;
          object = ground (arith, e, get-put db.state_objects so'.address j so' w.indexed);
        };
        good = kept_after-AllWritable db so so' store o.allowed e ready w;
      }

  skip-Step :
      (delete_empty : Bool) (db : StateDb) (a : ℕ)
      → get db.state_objects a ≡ none
      → AllWritable env db
      → Step env delete_empty db a
  skip-Step delete_empty db a missing w = record {
    after = db;
    runs = rw missing;
    settled = rw missing (record { account = refl; storage = refl; object = refl });
    others = λ j ne. record { account = refl; storage = refl; object = refl };
    good = w;
  }

  pub finalise_at-Step :
      (delete_empty : Bool) (db : StateDb) (a : ℕ) → AllWritable env db → Step env delete_empty db a
  finalise_at-Step delete_empty db a w = elim (Option-cases (get db.state_objects a)) [
    | inl missing ↦ skip-Step delete_empty db a missing w
    | inr (so, found) ↦
        let home = (w.writable a so found).home in
        let found' = ap (get db.state_objects) home ∙ found in
        subst (Step env delete_empty db) home (elim (Bool-cases (is_doomed env delete_empty so)) [
          | inl doomed ↦ doomed-Step delete_empty db so found' doomed w
          | inr kept ↦ kept-Step delete_empty db so found' kept w
        ])
  ]
