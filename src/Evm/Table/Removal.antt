-- ===== src/Evm/Table/Removal.antt =====
-- Removal from a slice with an index: the entries behind the removed one move to the left, and
-- the index follows them.
use faxchain.Base.{
  ℕ, zero, suc, ◌+◌, ◌-◌, ◌≡◌, refl, sym, ap, ◌∙◌, ◌≢◌, inl, inr, Option, none, some, List, [], ◌∷◌,
  ◌++◌, arith, ◌==◌, ltb, if◌then◌else◌, length, get_elem?, drop, get_elem?-drop,
  get_elem?-erase_idx_below, get_elem?-erase_idx_above, get_elem?-lt, get_elem?-append_left,
  get_elem?-append_end, get_elem?-set_self, get_elem?-set_ne, length-append, Bool-cases,
  Option-cases, GoMap, put_key, delete_key,
}
use faxchain.Evm.Table.{Table, empty_table, get, put, put_at, remove, remove_at, shift_index}
use faxchain.Evm.Table.Laws.{IsIndexed}

-- Where the position of a key goes when the entry at `i` is taken out.
abbrev shifted : ℕ → Option ℕ → Option ℕ
shifted i none = none
shifted i (some q) = if ltb q i then some q else if q == i then none else some (q - 1)

module _ {V : Type 0} where
  -- No entry is stale: each is the one that the index names for its key.
  abbrev pub IsExact : Table V → Type 0
  IsExact t = (i k : ℕ) (v : V) → get_elem? t.entries i ≡ some (k, v) → t.index k ≡ some i

  abbrev IsAbsent : ℕ → List (ℕ × V) → Type 0
  IsAbsent j es = (n : ℕ) (v : V) → get_elem? es n ≢ some (j, v)

  shift_index-absent :
      (p : ℕ) (es : List (ℕ × V)) (m : GoMap ℕ) (j : ℕ) → IsAbsent j es → shift_index p es m j ≡ m j
  unfolding shift_index
  shift_index-absent p [] m j h = refl
  shift_index-absent p ((k, v) ∷ es) m j h =
      ground (arith, h 0 v, shift_index-absent (suc p) es (put_key k p m) j (λ n u. h (suc n) u))

  shift_index-present :
      (p : ℕ) (es : List (ℕ × V)) (m : GoMap ℕ) (j n : ℕ) (v : V)
      → get_elem? es n ≡ some (j, v)
      → ((n' : ℕ) (v' : V) → get_elem? es n' ≡ some (j, v') → n' ≡ n)
      → shift_index p es m j ≡ some (p + n)
  unfolding shift_index
  shift_index-present p [] m j n v e h = absurd (cc)
  shift_index-present p ((k, u) ∷ es) m j zero v e h =
      shift_index-absent (suc p) es (put_key k p m) j (λ n w g. omega (arith, h (suc n) w g))
      ∙ ground arith
  shift_index-present p ((k, u) ∷ es) m j (suc n) v e h =
      shift_index-present (suc p) es (put_key k p m) j n v e
        (λ n' w g. omega (arith, h (suc n') w g))
      ∙ ap some (omega arith)

  module _ (t : Table V) (w : IsIndexed t) (x : IsExact t) where
    behind :
        (i n j : ℕ) (v : V)
        → get_elem? (drop (suc i) t.entries) n ≡ some (j, v)
        → t.index j ≡ some (suc i + n)
    behind i n j v e = x (suc i + n) j v (sym (get_elem?-drop (suc i) t.entries n) ∙ e)

    shift_index-shifted :
        (k i j : ℕ) (o : Option ℕ)
        → t.index k ≡ some i
        → t.index j ≡ o
        → shift_index i (drop (suc i) t.entries) (delete_key k t.index) j ≡ shifted i o
    shift_index-shifted k i j none e e' =
        shift_index-absent i (drop (suc i) t.entries) (delete_key k t.index) j
          (λ n v g. ground (arith, behind i n j v g))
        ∙ ground arith
    shift_index-shifted k i j (some q) e e' = elim (Bool-cases (ltb i q)) [
      | inl later ↦
          let (v, g) = w j q e' in
          let at_q : suc i + (q - suc i) ≡ q = ground arith in
          shift_index-present i (drop (suc i) t.entries) (delete_key k t.index) j (q - suc i) v
            (get_elem?-drop (suc i) t.entries (q - suc i) ∙ rw at_q g)
            (λ n u g'. ground (arith, behind i n j u g'))
          ∙ ground arith
      | inr not_later ↦
          shift_index-absent i (drop (suc i) t.entries) (delete_key k t.index) j
            (λ n u g'. ground (arith, behind i n j u g'))
          ∙ ground (arith, w j q e', w k i e)
    ]

    get-remove_at :
        (k j : ℕ) (o o' : Option ℕ)
        → t.index k ≡ o
        → t.index j ≡ o'
        → get (remove_at t k o) j ≡ (if j == k then none else get t j)
    unfolding get
    get-remove_at k j none o' e e' = ground arith
    get-remove_at k j (some i) none e e' = ground (arith, shift_index-shifted k i j none e e')
    get-remove_at k j (some i) (some q) e e' = ground (
      arith,
      shift_index-shifted k i j (some q) e e',
      w j q e',
      w k i e,
      get_elem?-erase_idx_below t.entries i q,
      get_elem?-erase_idx_above t.entries i (q - 1),
    )

    remove_at-IsIndexed : (k : ℕ) (o : Option ℕ) → t.index k ≡ o → IsIndexed (remove_at t k o)
    remove_at-IsIndexed k none e j q h = w j q h
    remove_at-IsIndexed k (some i) e j q h = elim (Option-cases (t.index j)) [
      | inl missing ↦ ground (arith, shift_index-shifted k i j none e missing)
      | inr (p, found) ↦ (
        (w j p found).0,
        ground (
          arith,
          shift_index-shifted k i j (some p) e found,
          w j p found,
          get_elem?-erase_idx_below t.entries i p,
          get_elem?-erase_idx_above t.entries i (p - 1),
        ),
      )
    ]

    remove_at-IsExact : (k : ℕ) (o : Option ℕ) → t.index k ≡ o → IsExact (remove_at t k o)
    remove_at-IsExact k none e q j v h = x q j v h
    remove_at-IsExact k (some i) e q j v h = elim (Bool-cases (ltb q i)) [
      | inl below ↦ ground (
        arith,
        get_elem?-erase_idx_below t.entries i q,
        x q j v,
        shift_index-shifted k i j (some q) e,
      )
      | inr above ↦ ground (
        arith,
        get_elem?-erase_idx_above t.entries i q,
        x (suc q) j v,
        shift_index-shifted k i j (some (suc q)) e,
      )
    ]

  -- The removal of a key from a slice whose index is right and complete leaves every index
  -- pointing to an entry of its key.
  pub remove-IsIndexed : (t : Table V) (k : ℕ) → IsIndexed t → IsExact t → IsIndexed (remove t k)
  unfolding remove
  remove-IsIndexed t k w x = remove_at-IsIndexed t w x k (t.index k) refl

  pub remove-IsExact : (t : Table V) (k : ℕ) → IsIndexed t → IsExact t → IsExact (remove t k)
  unfolding remove
  remove-IsExact t k w x = remove_at-IsExact t w x k (t.index k) refl

  -- After the removal of a key from a slice whose index is right and complete, the key is not
  -- found and every other key is found as before.
  pub get-remove :
      (t : Table V) (k j : ℕ)
      → IsIndexed t
      → IsExact t
      → get (remove t k) j ≡ (if j == k then none else get t j)
  unfolding remove
  get-remove t k j w x = get-remove_at t w x k j (t.index k) (t.index j) refl refl

  put_at-IsExact :
      (t : Table V) (k : ℕ) (v : V) (o : Option ℕ)
      → t.index k ≡ o
      → IsIndexed t
      → IsExact t
      → IsExact (put_at t k v o)
  put_at-IsExact t k v none e w x i j u h = elim (Bool-cases (ltb i (length t.entries))) [
    | inl old ↦ ground (arith, get_elem?-append_left t.entries ((k, v) ∷ []) i, x i j u)
    | inr new ↦ ground (
      arith,
      get_elem?-append_end t.entries (k, v),
      get_elem?-lt (t.entries ++ (k, v) ∷ []) i h,
      length-append t.entries ((k, v) ∷ []),
    )
  ]
  put_at-IsExact t k v (some i') e w x i j u h = elim (Bool-cases (i == i')) [
    | inl here ↦ ground (
      arith,
      w k i' e,
      get_elem?-lt t.entries i' {a = (k, (w k i' e).0)},
      get_elem?-set_self t.entries i' (k, v),
    )
    | inr other ↦ ground (arith, get_elem?-set_ne t.entries i' i (k, v), x i j u)
  ]

  pub put-IsExact : (t : Table V) (k : ℕ) (v : V) → IsIndexed t → IsExact t → IsExact (put t k v)
  unfolding put
  put-IsExact t k v w x = put_at-IsExact t k v (t.index k) refl w x

  pub empty_table-IsExact : IsExact (empty_table {V = V})
  unfolding empty_table
  empty_table-IsExact i k v h = absurd (cc)
