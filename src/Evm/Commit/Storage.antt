-- ===== src/Evm/Commit/Storage.antt =====
-- What `commitState` leaves in the store.
use faxchain.Base.{
  ℕ, ◌≡◌, ◌≢◌, subst, some, put_key, delete_key, get_elem?, set, ◌==◌, if◌then◌else◌, arith,
  Bool-cases, Option-cases, inl, inr, get_elem?-lt, get_elem?-set_self, get_elem?-set_ne,
}
use faxchain.Evm.Table.{Table, get}
use faxchain.Evm.Table.Laws.{IsIndexed}
use faxchain.Evm.StateObject.{or_zero}
use faxchain.Evm.Commit.{Flushed, commit_entry}

-- The values that were read are those of the store.
abbrev pub IsSynced : Flushed → Type 0
IsSynced f = (k v : ℕ) → get f.origin k ≡ some v → or_zero (f.store k) ≡ v

-- What one entry does to the store, for a key that was read.
pub record Committed (f : Flushed) (key value : ℕ) : Type 0 where
  pub after : Flushed
  pub runs : commit_entry f key value ≡ some after
  pub stored : (j : ℕ) → or_zero (after.store j) ≡ (if j == key then value else or_zero (f.store j))
  pub known : (j i : ℕ) → j ≢ key → f.origin.index j ≡ some i → after.origin.index j ≡ some i
  pub indexed : IsIndexed after.origin
  pub synced : IsSynced after

zero-Committed :
    (f : Flushed) (key i : ℕ)
    → f.origin.index key ≡ some i
    → IsIndexed f.origin
    → IsSynced f
    → Committed f key 0
unfolding commit_entry get
zero-Committed f key i e w s = record {
  after = record {
    store = delete_key key f.store;
    origin = record { entries = f.origin.entries; index = delete_key key f.origin.index };
  };
  runs = rw e;
  stored = λ j. ground arith;
  known = λ j n ne h. ground arith;
  indexed = λ j n h. let h' : f.origin.index j ≡ some n = ground arith in w j n h';
  synced = λ j v h. elim (Bool-cases (j == key)) [
    | inl here ↦ absurd (ground arith)
    | inr other ↦ ground (arith, s j v)
  ];
}

same-Committed :
    (f : Flushed) (key value i : ℕ)
    → f.origin.index key ≡ some i
    → get_elem? f.origin.entries i ≡ some (key, value)
    → value ≢ 0
    → IsIndexed f.origin
    → IsSynced f
    → Committed f key value
unfolding commit_entry get
same-Committed f key value i e g ne w s = record {
  after = f;
  runs = ground arith;
  stored = λ j. ground (arith, s key value (rw (e, g)));
  known = λ j n ne' h. h;
  indexed = w;
  synced = s;
}

-- Another key is cached in another place.
place_ne :
    (t : Table ℕ) (key j i n : ℕ)
    → IsIndexed t
    → t.index key ≡ some i
    → t.index j ≡ some n
    → j ≢ key
    → i ≢ n
place_ne t key j i n w e h ne same = ground (arith, w key i e, w j n h)

get-set_other :
    (t : Table ℕ) (key value j i : ℕ)
    → IsIndexed t
    → t.index key ≡ some i
    → j ≢ key
    → get (record { entries = set t.entries i (key, value); index = t.index }) j ≡ get t j
unfolding get
get-set_other t key value j i w e ne = elim (Option-cases (t.index j)) [
  | inl absent ↦ ground arith
  | inr (n, there) ↦
      ground (arith, get_elem?-set_ne t.entries i n (key, value), place_ne t key j i n w e there ne)
]

get-set_self :
    (t : Table ℕ) (key value i old : ℕ)
    → t.index key ≡ some i
    → get_elem? t.entries i ≡ some (key, old)
    → get (record { entries = set t.entries i (key, value); index = t.index }) key ≡ some value
unfolding get
get-set_self t key value i old e g =
    let there = get_elem?-set_self t.entries i (key, value) (get_elem?-lt t.entries i g) in
    rw (e, there)

new-Committed :
    (f : Flushed) (key value i old : ℕ)
    → f.origin.index key ≡ some i
    → get_elem? f.origin.entries i ≡ some (key, old)
    → value ≢ 0
    → value ≢ old
    → IsIndexed f.origin
    → IsSynced f
    → Committed f key value
unfolding commit_entry
new-Committed f key value i old e g ne change w s =
    let o : Table ℕ = record {
      entries = set f.origin.entries i (key, value);
      index = f.origin.index;
    } in
    let here : get_elem? o.entries i ≡ some (key, value) =
      get_elem?-set_self f.origin.entries i (key, value) (get_elem?-lt f.origin.entries i g) in
    record {
      after = record { store = put_key key value f.store; origin = o };
      runs = ground arith;
      stored = λ j. ground arith;
      known = λ j n ne' h. h;
      indexed = λ j n h. elim (Bool-cases (j == key)) [
        | inl same ↦ (value, ground arith)
        | inr other ↦ (
          (w j n h).0,
          ground (
            arith,
            get_elem?-set_ne f.origin.entries i n (key, value),
            place_ne f.origin key j i n w e h,
            w j n h,
          ),
        )
      ];
      synced = λ j v h. elim (Bool-cases (j == key)) [
        | inl same ↦ ground (arith, get-set_self f.origin key value i old e g)
        | inr other ↦ ground (arith, s j v, get-set_other f.origin key value j i w e)
      ];
    }

pub commit_entry-Committed :
    (f : Flushed) (key value i : ℕ)
    → f.origin.index key ≡ some i
    → IsIndexed f.origin
    → IsSynced f
    → Committed f key value
commit_entry-Committed f key value i e w s =
    let (old, g) = w key i e in
    elim (Bool-cases (value == 0)) [
      | inl zero_value ↦ subst (Committed f key) (ground arith) (zero-Committed f key i e w s)
      | inr some_value ↦ elim (Bool-cases (value == old)) [
        | inl same ↦ same-Committed f key value i e (ground arith) (ground arith) w s
        | inr change ↦ new-Committed f key value i old e g (ground arith) (ground arith) w s
      ]
    ]
