-- ===== src/Evm/Table/Laws.antt =====
-- Lookup after each update of a slice with an index, while the index is right.
use faxchain.Base.{
  ℕ, ◌≡◌, refl, ◌≢◌, inl, inr, Option, none, some, [], ◌∷◌, arith, ◌==◌, if◌then◌else◌, get_elem?,
  get_elem?-lt, get_elem?-append_left, get_elem?-append_end, get_elem?-set_self, get_elem?-set_ne,
  Bool-cases,
}
use faxchain.Evm.Table.{Table, empty_table, get, put, put_at}

module _ {V : Type 0} where
  -- The index sends a key to an entry of that key.
  abbrev pub IsIndexed : Table V → Type 0
  IsIndexed t = (k i : ℕ) → t.index k ≡ some i → (v : V) × (get_elem? t.entries i ≡ some (k, v))

  pub empty_table-IsIndexed : IsIndexed (empty_table {V = V})
  unfolding empty_table
  empty_table-IsIndexed k i h = absurd (cc)

  pub get-empty_table : (k : ℕ) → get (empty_table {V = V}) k ≡ none
  unfolding get empty_table
  get-empty_table k = refl

  -- A write that replaces: the slot of another key is another slot.
  slot_ne :
      (t : Table V) (k j i i' : ℕ)
      → IsIndexed t
      → t.index k ≡ some i
      → t.index j ≡ some i'
      → j ≢ k
      → i ≢ i'
  slot_ne t k j i i' w hk hj ne e = let (v, p) = w k i hk in let (u, q) = w j i' hj in ground arith

  put_at-IsIndexed :
      (t : Table V) (k : ℕ) (v : V) (o : Option ℕ)
      → t.index k ≡ o
      → IsIndexed t
      → IsIndexed (put_at t k v o)
  put_at-IsIndexed t k v (some i) e w j i' h = elim (Bool-cases (j == k)) [
    | inl same ↦ (
      v,
      ground (
        arith,
        w k i e,
        get_elem?-lt t.entries i {a = (k, (w k i e).0)},
        get_elem?-set_self t.entries i (k, v),
      ),
    )
    | inr other ↦ (
      (w j i' h).0,
      ground (arith, get_elem?-set_ne t.entries i i' (k, v), slot_ne t k j i i' w e h, w j i' h),
    )
  ]
  put_at-IsIndexed t k v none e w j i' h = elim (Bool-cases (j == k)) [
    | inl same ↦ (v, ground (arith, get_elem?-append_end t.entries (k, v)))
    | inr other ↦
        let h' : t.index j ≡ some i' = ground arith in
        (
          (w j i' h').0,
          ground (
            arith,
            w j i' h',
            get_elem?-lt t.entries i' {a = (j, (w j i' h').0)},
            get_elem?-append_left t.entries ((k, v) ∷ []) i',
          ),
        )
  ]

  pub put-IsIndexed : (t : Table V) (k : ℕ) (v : V) → IsIndexed t → IsIndexed (put t k v)
  unfolding put
  put-IsIndexed t k v w = put_at-IsIndexed t k v (t.index k) refl w

  get-put_at :
      (t : Table V) (k j : ℕ) (v : V) (o o' : Option ℕ)
      → t.index k ≡ o
      → t.index j ≡ o'
      → IsIndexed t
      → get (put_at t k v o) j ≡ (if j == k then some v else get t j)
  unfolding get
  get-put_at t k j v (some i) none e e' w = ground arith
  get-put_at t k j v (some i) (some i') e e' w = elim (Bool-cases (j == k)) [
    | inl same ↦ ground (
      arith,
      w k i e,
      get_elem?-lt t.entries i {a = (k, (w k i e).0)},
      get_elem?-set_self t.entries i (k, v),
    )
    | inr other ↦ ground (arith, get_elem?-set_ne t.entries i i' (k, v), slot_ne t k j i i' w e e')
  ]
  get-put_at t k j v none none e e' w = ground (arith, get_elem?-append_end t.entries (k, v))
  get-put_at t k j v none (some i') e e' w = ground (
    arith,
    w j i' e',
    get_elem?-lt t.entries i' {a = (j, (w j i' e').0)},
    get_elem?-append_left t.entries ((k, v) ∷ []) i',
  )

  -- After a write to a slice whose index is right, the key has the new value and every other key
  -- is found as before.
  pub get-put :
      (t : Table V) (k j : ℕ) (v : V)
      → IsIndexed t
      → get (put t k v) j ≡ (if j == k then some v else get t j)
  unfolding put
  get-put t k j v w = get-put_at t k j v (t.index k) (t.index j) refl refl w
