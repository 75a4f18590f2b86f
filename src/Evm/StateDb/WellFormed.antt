-- ===== src/Evm/StateDb/WellFormed.antt =====
-- The invariant of the database.
use faxchain.Base.{
  ℕ, ◌<◌, ◌≡◌, refl, sym, subst, ◌∙◌, true, false, Option, none, some, List, [], ◌∷◌, arith, ◌==◌,
  if◌then◌else◌, Bool-cases, Option-cases, inl, inr,
}
use faxchain.Evm.Table.{get}
use faxchain.Evm.Table.Laws.{
  IsIndexed, put-IsIndexed, get-put, get-empty_table, empty_table-IsIndexed,
}
use faxchain.Evm.Table.Removal.{IsExact, put-IsExact, empty_table-IsExact}
use faxchain.Evm.AccessList.Lifo
use faxchain.Evm.Dirties.Lifo.{IsTracked, new_dirties-IsTracked}
use faxchain.Evm.StateObject.{
  Env, Account, eth_account, other_account, StateObject, Stores, eth_object,
}
use faxchain.Evm.Journal.{JournalEntry, reset_object_change, StateDb}
use faxchain.Evm.StateDb.{
  set_state_object, get_state_object, first_error, word, create_empty_state_db,
}
use faxchain.Evm.StateDb.View.{AccountView, account_view, object_view, panics}

-- The storage caches of an object are indexed.
pub record IsSound (so : StateObject) : Type 0 where
  pub origin : IsIndexed so.origin_storage
  pub dirty : IsIndexed so.dirty_storage

-- An object in the database stands under its address, and a deleted one has no stored account.
pub record IsHome (st : Stores) (addr : ℕ) (so : StateObject) : Type 0 where
  pub home : so.address ≡ addr
  pub sound : IsSound so
  pub gone : so.deleted ≡ true → st.accounts addr ≡ none

-- An object that the journal keeps for a revert.
abbrev pub IsKept : JournalEntry → Type 0
IsKept (reset_object_change so) = IsSound so × (so.deleted ≡ false)
IsKept _ = Unit

abbrev pub AllKept : List JournalEntry → Type 0
AllKept [] = Unit
AllKept (e ∷ es) = IsKept e × AllKept es

-- The part of the invariant that live objects carry.
pub record HasObjects (db : StateDb) : Type 0 where
  pub indexed : IsIndexed db.state_objects
  pub exact : IsExact db.state_objects
  pub at_home :
      (addr : ℕ) (so : StateObject) → get db.state_objects addr ≡ some so → IsHome db.stores addr so

-- The part of the other slices and counters.
pub record HasRest (db : StateDb) : Type 0 where
  pub preimages_indexed : IsIndexed db.preimages
  pub preimages_exact : IsExact db.preimages
  pub access_valid : Lifo.IsValid db.access_list
  pub log_word : db.log_size < word

pub record IsWell (db : StateDb) : Type 0 where
  pub objects : HasObjects db
  pub rest : HasRest db
  pub tracked : IsTracked db.dirties
  pub kept : AllKept db.entries

pub set_state_object-HasObjects :
    (db : StateDb) (so : StateObject)
    → HasObjects db
    → IsSound so
    → so.deleted ≡ false
    → HasObjects (set_state_object db so)
unfolding set_state_object
set_state_object-HasObjects db so h s live = record {
  indexed = put-IsIndexed db.state_objects so.address so h.indexed;
  exact = put-IsExact db.state_objects so.address so h.indexed h.exact;
  at_home = λ addr so' e. elim (Bool-cases (addr == so.address)) [
    | inl here ↦
        let same : so ≡ so' =
          ground (arith, get-put db.state_objects so.address addr so h.indexed) in
        subst (IsHome db.stores addr) same
          (record { home = ground arith; sound = s; gone = λ g. absurd (cc) })
    | inr other ↦
        h.at_home addr so' (ground (arith, get-put db.state_objects so.address addr so h.indexed))
  ];
}

module _ (env : Env) where
  pub eth_object-IsSound : (addr : ℕ) (acc : Account) → IsSound (eth_object env addr acc)
  unfolding eth_object
  eth_object-IsSound addr acc = record {
    origin = empty_table-IsIndexed;
    dirty = empty_table-IsIndexed;
  }

  eth_object-live : (addr : ℕ) (acc : Account) → (eth_object env addr acc).deleted ≡ false
  unfolding eth_object
  eth_object-live addr acc = refl

  -- What `getStateObject` finds, and that the database it leaves answers as before.
  pub record Fetched (db : StateDb) (addr : ℕ) (so : StateObject) (db' : StateDb) : Type 0 where
    pub found : get_state_object env db addr ≡ some (some so, db')
    pub home : so.address ≡ addr
    pub sound : IsSound so
    pub live : so.deleted ≡ false
    pub objects : HasObjects db'
    pub shown : account_view env db addr ≡ some (object_view env db.stores so)
    pub same : (j : ℕ) → account_view env db' j ≡ account_view env db j
    pub caches_only : db' ≡ record db { state_objects = db'.state_objects }
    pub in_table : get db'.state_objects addr ≡ some so

  pub account_view-set :
      (db : StateDb) (so : StateObject) (j : ℕ)
      → HasObjects db
      → so.deleted ≡ false
      → account_view env (set_state_object db so) j
        ≡ (if j == so.address then some (object_view env db.stores so) else account_view env db j)
  unfolding account_view set_state_object
  account_view-set db so j h live =
      ground (arith, get-put db.state_objects so.address j so h.indexed)

  pub get_state_object-panics :
      (db : StateDb) (addr : ℕ) → panics db addr ≡ true → get_state_object env db addr ≡ none
  unfolding get_state_object
  get_state_object-panics db addr bad = elim (Option-cases (get db.state_objects addr)) [
    | inl missing ↦ elim (Option-cases (db.stores.accounts addr)) [
      | inl unknown ↦ absurd (ground (arith, bad, missing, unknown))
      | inr (eth_account acc, known) ↦ absurd (ground (arith, bad, missing, known))
      | inr (other_account, known) ↦ rw (missing, known) refl
    ]
    | inr (so, cached) ↦ absurd (ground (arith, bad, cached))
  ]

  pub get_state_object-none :
      (db : StateDb) (addr : ℕ)
      → account_view env db addr ≡ none
      → panics db addr ≡ false
      → HasObjects db
      → (e : Option ℕ) × (get_state_object env db addr ≡ some (none, record db { db_err = e }))
        × (db.stores.accounts addr ≡ none)
  unfolding account_view get_state_object
  get_state_object-none db addr v calm h = elim (Option-cases (get db.state_objects addr)) [
    | inl missing ↦ elim (Option-cases (db.stores.accounts addr)) [
      | inl unknown ↦ (first_error db.db_err addr, rw (missing, unknown), unknown)
      | inr (eth_account acc, known) ↦ absurd (ground arith)
      | inr (other_account, known) ↦ absurd (ground (arith, calm, missing, known))
    ]
    | inr (so, cached) ↦ (db.db_err, ground arith, ground (arith, (h.at_home addr so cached).gone))
  ]

  -- Found in the table, or loaded from the account store into it.
  cached_case :
      (db : StateDb) (addr : ℕ) (so : StateObject)
      → get db.state_objects addr ≡ some so
      → so.deleted ≡ false
      → HasObjects db
      → Fetched db addr so db
  unfolding get_state_object account_view
  cached_case db addr so cached live h = record {
    found = ground arith;
    home = (h.at_home addr so cached).home;
    sound = (h.at_home addr so cached).sound;
    live = live;
    objects = h;
    shown = ground arith;
    same = λ j. refl;
    caches_only = refl;
    in_table = cached;
  }

  loaded_case :
      (db : StateDb) (addr : ℕ) (acc : Account)
      → get db.state_objects addr ≡ none
      → db.stores.accounts addr ≡ some (eth_account acc)
      → HasObjects db
      → let so = eth_object env addr acc in Fetched db addr so (set_state_object db so)
  unfolding get_state_object account_view set_state_object eth_object
  loaded_case db addr acc missing known h = record {
    found = rw (missing, known);
    home = refl;
    sound = eth_object-IsSound addr acc;
    live = refl;
    objects = set_state_object-HasObjects db _ h (eth_object-IsSound addr acc) refl;
    shown = rw (missing, known);
    same = λ j.
        account_view-set db (eth_object env addr acc) j h refl
        ∙ elim (Bool-cases (j == addr)) [ inl here ↦ ground arith | inr other ↦ ground arith ];
    caches_only = refl;
    in_table =
        ground (arith, get-put db.state_objects addr addr (eth_object env addr acc) h.indexed);
  }

  pub get_state_object-some :
      (db : StateDb) (addr : ℕ) (av : AccountView)
      → account_view env db addr ≡ some av
      → HasObjects db
      → (so : StateObject) × (db' : StateDb) × Fetched db addr so db'
  unfolding account_view
  get_state_object-some db addr av v h = elim (Option-cases (get db.state_objects addr)) [
    | inl missing ↦ elim (Option-cases (db.stores.accounts addr)) [
      | inl unknown ↦ absurd (ground arith)
      | inr (other_account, known) ↦ absurd (ground arith)
      | inr (eth_account acc, known) ↦ (
        eth_object env addr acc,
        set_state_object db (eth_object env addr acc),
        loaded_case db addr acc missing known h,
      )
    ]
    | inr (so, cached) ↦ (so, db, cached_case db addr so cached (ground arith) h)
  ]

  -- The other slices are left alone.
  pub Fetched-HasRest :
      (db : StateDb) (addr : ℕ) (so : StateObject) (db' : StateDb)
      → Fetched db addr so db'
      → HasRest db
      → HasRest db'
  Fetched-HasRest db addr so db' f h = subst HasRest (sym f.caches_only) (record {
    preimages_indexed = h.preimages_indexed;
    preimages_exact = h.preimages_exact;
    access_valid = h.access_valid;
    log_word = h.log_word;
  })

pub set_state_object-HasRest :
    (db : StateDb) (so : StateObject) → HasRest db → HasRest (set_state_object db so)
unfolding set_state_object
set_state_object-HasRest db so h = record {
  preimages_indexed = h.preimages_indexed;
  preimages_exact = h.preimages_exact;
  access_valid = h.access_valid;
  log_word = h.log_word;
}

-- The invariant holds at the start.
pub create_empty_state_db-IsWell : (stores : Stores) → IsWell (create_empty_state_db stores)
unfolding create_empty_state_db
create_empty_state_db-IsWell stores = record {
  objects = record {
    indexed = empty_table-IsIndexed;
    exact = empty_table-IsExact;
    at_home = λ addr so e. absurd (ground (arith, get-empty_table {V = StateObject} addr));
  };
  rest = record {
    preimages_indexed = empty_table-IsIndexed;
    preimages_exact = empty_table-IsExact;
    access_valid = Lifo.new_access_list-IsValid;
    log_word = omega arith;
  };
  tracked = new_dirties-IsTracked;
  kept = tt;
}
