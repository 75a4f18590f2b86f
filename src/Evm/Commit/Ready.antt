-- ===== src/Evm/Commit/Ready.antt =====
-- A key of the storage is read before it is written, so an object is always ready for `commitState`.
use faxchain.Base.{
  ℕ, ◌≡◌, ◌≢◌, some, GoMap, arith, Bool-cases, Option-cases, inl, inr, ◌==◌, length,
}
use faxchain.Evm.Table.{Table, get, put, empty_table}
use faxchain.Evm.Table.Laws.{put-IsIndexed, get-put}
use faxchain.Evm.Table.Removal.{put-IsExact, empty_table-IsExact}
use faxchain.Evm.StateObject.{
  Env, Account, StateObject, Stores, or_zero, eth_object, get_object_state, set_object_state,
}
use faxchain.Evm.StateDb.WellFormed.{eth_object-IsSound}
use faxchain.Evm.Commit.Flush.{IsReady}

put-known :
    (t : Table ℕ) (key v k n : ℕ) → t.index k ≡ some n → (m : ℕ) × ((put t key v).index k ≡ some m)
unfolding put
put-known t key v k n h = elim (Option-cases (t.index key)) [
  | inl absent ↦ (n, ground arith)
  | inr (i, there) ↦ (n, ground arith)
]

put-own : (t : Table ℕ) (key v : ℕ) → (m : ℕ) × ((put t key v).index key ≡ some m)
unfolding put
put-own t key v = elim (Option-cases (t.index key)) [
  | inl absent ↦ (length t.entries, ground arith)
  | inr (i, there) ↦ (i, ground arith)
]

put-other : (t : Table ℕ) (key v k : ℕ) → k ≢ key → (put t key v).index k ≡ t.index k
unfolding put
put-other t key v k ne = elim (Option-cases (t.index key)) [
  | inl absent ↦ ground arith
  | inr (i, there) ↦ ground arith
]

-- A key that is found is in the index.
get-known : (t : Table ℕ) (k v : ℕ) → get t k ≡ some v → (n : ℕ) × (t.index k ≡ some n)
unfolding get
get-known t k v h = elim (Option-cases (t.index k)) [
  | inl absent ↦ absurd (ground arith)
  | inr (n, there) ↦ (n, there)
]

-- A write of the dirty storage at a key that was read.
write-IsReady :
    (so : StateObject) (store : GoMap ℕ) (key value n : ℕ)
    → so.origin_storage.index key ≡ some n
    → IsReady so store
    → IsReady (set_object_state so key value) store
unfolding set_object_state
write-IsReady so store key value n h r = record {
  sound = record {
    origin = r.sound.origin;
    dirty = put-IsIndexed so.dirty_storage key value r.sound.dirty;
  };
  exact = put-IsExact so.dirty_storage key value r.sound.dirty r.exact;
  read = λ k i e. elim (Bool-cases (k == key)) [
    | inl same ↦ (n, ground arith)
    | inr other ↦ r.read k i (ground (arith, put-other so.dirty_storage key value k))
  ];
  synced = r.synced;
}

-- What a first read caches.
cached-IsReady :
    (st : Stores) (so : StateObject) (key : ℕ)
    → IsReady so (st.storage so.address)
    → IsReady
        (record so {
          origin_storage = put so.origin_storage key (or_zero (st.storage so.address key));
        })
        (st.storage so.address)
cached-IsReady st so key r = record {
  sound = record {
    origin = put-IsIndexed so.origin_storage key _ r.sound.origin;
    dirty = r.sound.dirty;
  };
  exact = r.exact;
  read = λ k i e. let (n, h) = r.read k i e in put-known so.origin_storage key _ k n h;
  synced = λ k v e. elim (Bool-cases (k == key)) [
    | inl same ↦ ground (
      arith,
      get-put so.origin_storage key k (or_zero (st.storage so.address key)) r.sound.origin,
    )
    | inr other ↦ ground (
      arith,
      r.synced k v,
      get-put so.origin_storage key k (or_zero (st.storage so.address key)) r.sound.origin,
    )
  ];
}

-- An object that is ready for commitState is so after GetState of a key and a write at it, which
-- is what SetState does.
pub read_write-IsReady :
    (st : Stores) (so : StateObject) (key value : ℕ)
    → IsReady so (st.storage so.address)
    → IsReady (set_object_state (get_object_state st so key).1 key value) (st.storage so.address)
unfolding get_object_state
read_write-IsReady st so key value r = elim (Option-cases (get so.dirty_storage key)) [
  | inr (v, dirty) ↦
      let (i, h) = get-known so.dirty_storage key v dirty in
      let (n, e) = r.read key i h in
      rw dirty (write-IsReady so (st.storage so.address) key value n e r)
  | inl clean ↦ elim (Option-cases (get so.origin_storage key)) [
    | inr (v, cached) ↦
        let (n, e) = get-known so.origin_storage key v cached in
        rw (clean, cached) (write-IsReady so (st.storage so.address) key value n e r)
    | inl unread ↦
        let (n, e) = put-own so.origin_storage key (or_zero (st.storage so.address key)) in
        rw (clean, unread)
          (write-IsReady _ (st.storage so.address) key value n e (cached-IsReady st so key r))
  ]
]

-- An object that was just loaded or created is ready.
pub eth_object-IsReady :
    (env : Env) (addr : ℕ) (acc : Account) (store : GoMap ℕ)
    → IsReady (eth_object env addr acc) store
unfolding eth_object
eth_object-IsReady env addr acc store = record {
  sound = eth_object-IsSound env addr acc;
  exact = empty_table-IsExact;
  read = λ k i e. absurd (unfold empty_table in cc);
  synced = λ k v e. absurd (unfold get empty_table in cc);
}
