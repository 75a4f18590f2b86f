-- ===== src/Evm/Dirties/Stale.antt =====
-- The explicit `dirty` that `stateObject.touch` does for RIPEMD is never dropped, so `revert` can
-- cut entries in front of it out of the slice, and `deleteDirty` does not move its index.
use faxchain.Base.{
  ℕ, suc, ◌≡◌, ◌≢◌, none, some, [], ◌∷◌, ◌++◌, arith, length, get_elem?, put_key, delete_key,
  length-append, get_elem?-append_left, get_elem?-append_end, set-append_left,
  erase_idx-append_left, get_elem?-beyond, set-append_length, erase_idx-append_length, ◌>>=◌,
}
use faxchain.Evm.Dirties.{Dirties, get_dirty, add_dirty, drop_dirty}
use faxchain.Evm.Dirties.Lifo.{added_new, added_old, drop-added_old}

-- What is left of a tracker: the entry of `r` stands one position before its index.
abbrev pub stale : Dirties → ℕ → ℕ → Dirties
stale d a r = record {
  dirties = d.dirties ++ (r, 1) ∷ [];
  index = delete_key a (put_key r (suc (length d.dirties)) (put_key a (length d.dirties) d.index));
}

module _ (d : Dirties) (a r : ℕ) (other : a ≢ r) (fresh_a : d.index a ≡ none)
    (fresh_r : d.index r ≡ none) where
  both_length : length (added_new d a).dirties ≡ suc (length d.dirties)
  both_length = omega (arith, length-append d.dirties ((a, 1) ∷ []))

  add_a : add_dirty d a ≡ some (added_new d a)
  unfolding add_dirty
  add_a = rw fresh_a

  add_r : add_dirty (added_new d a) r ≡ some (added_new (added_new d a) r)
  unfolding add_dirty
  add_r = ground arith

  both_r : get_elem? (added_new (added_new d a) r).dirties (suc (length d.dirties)) ≡ some (r, 1)
  both_r = rw (← both_length) (get_elem?-append_end (added_new d a).dirties (r, 1))

  index_r : (added_new (added_new d a) r).index r ≡ some (suc (length d.dirties))
  index_r = rw (← both_length) (ground arith)

  dirty_r :
      add_dirty (added_new (added_new d a) r) r
      ≡ some (added_old (added_new (added_new d a) r) r (suc (length d.dirties)) 0)
  unfolding add_dirty
  dirty_r = rw (index_r, both_r)

  both_a : get_elem? (added_new (added_new d a) r).dirties (length d.dirties) ≡ some (a, 1)
  both_a = ground (
    arith,
    both_length,
    get_elem?-append_end d.dirties (a, 1),
    get_elem?-append_left (added_new d a).dirties ((r, 1) ∷ []) (length d.dirties),
  )

  index_a : (added_new (added_new d a) r).index a ≡ some (length d.dirties)
  index_a = ground arith

  cut_a : drop_dirty (added_new (added_new d a) r) a ≡ some (stale d a r)
  unfolding drop_dirty
  cut_a = ground (
    arith,
    index_a,
    both_a,
    both_length,
    set-append_left (added_new d a).dirties ((r, 1) ∷ []) (length d.dirties) (a, 0),
    set-append_length d.dirties (a, 1) (a, 0),
    get_elem?-append_end d.dirties (a, 0),
    length-append d.dirties ((a, 0) ∷ []),
    get_elem?-append_left (d.dirties ++ (a, 0) ∷ []) ((r, 1) ∷ []) (length d.dirties),
    erase_idx-append_left (d.dirties ++ (a, 0) ∷ []) ((r, 1) ∷ []) (length d.dirties),
    erase_idx-append_length d.dirties (a, 0),
  )

  drop_r :
      drop_dirty (added_old (added_new (added_new d a) r) r (suc (length d.dirties)) 0) r
      ≡ some (added_new (added_new d a) r)
  drop_r = drop-added_old (added_new (added_new d a) r) r (suc (length d.dirties)) 0 index_r both_r

  index_stale : (stale d a r).index r ≡ some (suc (length d.dirties))
  index_stale = ground arith

  beyond : get_elem? (stale d a r).dirties (suc (length d.dirties)) ≡ none
  beyond =
      get_elem?-beyond (stale d a r).dirties (suc (length d.dirties))
        (omega (arith, length-append d.dirties ((r, 1) ∷ [])))

  -- An account is changed, then RIPEMD is touched, neither being dirty before, and both changes
  -- are reverted: nothing panics, but then the next read of the count of RIPEMD and the next
  -- change of it do.
  pub reverted_touch_panics :
      ((add_dirty d a >>= λ d₁.
      add_dirty d₁ r >>= λ d₂. add_dirty d₂ r >>= λ d₃. drop_dirty d₃ r >>= λ d₄. drop_dirty d₄ a)
        ≡ some (stale d a r))
      × (get_dirty (stale d a r) r ≡ none)
      × (add_dirty (stale d a r) r ≡ none)
  unfolding get_dirty add_dirty
  reverted_touch_panics =
      (rw (add_a, add_r, dirty_r, drop_r) cut_a, rw (index_stale, beyond), rw (index_stale, beyond))
