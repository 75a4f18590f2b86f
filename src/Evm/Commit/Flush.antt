-- ===== src/Evm/Commit/Flush.antt =====
-- The loop of `commitState` as a whole.
use faxchain.Base.{
  ℕ, zero, suc, ◌≡◌, ◌≢◌, refl, sym, ap, ◌∙◌, some, List, [], ◌∷◌, GoMap, delete_key, get_elem?,
  ◌==◌, if◌then◌else◌, arith, Option-cases, inl, inr,
}
use faxchain.Evm.Table.{Table, get}
use faxchain.Evm.Table.Laws.{IsIndexed}
use faxchain.Evm.Table.Removal.{IsExact}
use faxchain.Evm.StateObject.{StateObject, Stores, or_zero}
use faxchain.Evm.StateDb.View.{origin_or_stored, state_view}
use faxchain.Evm.StateDb.WellFormed.{IsSound}
use faxchain.Evm.Commit.{Flushed, commit_entries, delete_keys, commit_state}
use faxchain.Evm.Commit.Storage.{IsSynced, commit_entry-Committed}

-- A value with the entries written over it in their order.
pub overlay : List (ℕ × ℕ) → ℕ → ℕ → ℕ
overlay [] k d = d
overlay ((key, value) ∷ es) k d = overlay es k (if k == key then value else d)

-- Each key has one entry.
abbrev pub IsDistinct : List (ℕ × ℕ) → Type 0
IsDistinct es =
    (i j k u v : ℕ) → get_elem? es i ≡ some (k, u) → get_elem? es j ≡ some (k, v) → i ≡ j

-- Each key has a value that was read.
abbrev pub AllKnown : List (ℕ × ℕ) → Table ℕ → Type 0
AllKnown es t = (i k v : ℕ) → get_elem? es i ≡ some (k, v) → (n : ℕ) × (t.index k ≡ some n)

tail-IsDistinct : (e : ℕ × ℕ) (es : List (ℕ × ℕ)) → IsDistinct (e ∷ es) → IsDistinct es
tail-IsDistinct e es h i j k u v p q = omega (arith, h (suc i) (suc j) k u v p q)

overlay-absent :
    (es : List (ℕ × ℕ)) (k d : ℕ) → ((i v : ℕ) → get_elem? es i ≢ some (k, v)) → overlay es k d ≡ d
unfolding overlay
overlay-absent [] k d h = refl
overlay-absent ((key, value) ∷ es) k d h =
    ground (arith, h 0 value, overlay-absent es k d (λ i v. h (suc i) v))

overlay-present :
    (es : List (ℕ × ℕ)) (k d i v : ℕ)
    → IsDistinct es
    → get_elem? es i ≡ some (k, v)
    → overlay es k d ≡ v
unfolding overlay
overlay-present [] k d i v h p = absurd (cc)
overlay-present ((key, value) ∷ es) k d zero v h p =
    ground
      (arith, overlay-absent es k value (λ i u q. absurd (omega (arith, h 0 (suc i) k v u p q))))
overlay-present ((key, value) ∷ es) k d (suc i) v h p =
    overlay-present es k (if k == key then value else d) i v (tail-IsDistinct (key, value) es h) p

commit_entries-Flushes :
    (es : List (ℕ × ℕ)) (f : Flushed)
    → IsDistinct es
    → AllKnown es f.origin
    → IsIndexed f.origin
    → IsSynced f
    → (f' : Flushed) × (commit_entries es f ≡ some f')
      × ((j : ℕ) → or_zero (f'.store j) ≡ overlay es j (or_zero (f.store j)))
      × IsIndexed f'.origin
      × IsSynced f'
unfolding commit_entries overlay
commit_entries-Flushes [] f d k w s = (f, refl, λ j. refl, w, s)
commit_entries-Flushes ((key, value) ∷ es) f d k w s =
    let (n, e) = k 0 key value refl in
    let c = commit_entry-Committed f key value n e w s in
    let known : AllKnown es c.after.origin = λ i k' v p.
      let (m, q) = k (suc i) k' v p in
      (
        m,
        c.known k' m (λ same. absurd (omega (arith, d 0 (suc i) key value v refl (rw⁻¹ same p)))) q,
      ) in
    let (f', runs, stored, w', s') =
      commit_entries-Flushes es c.after (tail-IsDistinct (key, value) es d) known c.indexed
        c.synced in
    (f', rw (c.runs) runs, λ j. stored j ∙ ap (overlay es j) (c.stored j), w', s')

-- An object whose dirty storage can be committed.
pub record IsReady (so : StateObject) (store : GoMap ℕ) : Type 0 where
  pub sound : IsSound so
  pub exact : IsExact so.dirty_storage
  pub read :
      (k i : ℕ) → so.dirty_storage.index k ≡ some i → (n : ℕ) × (so.origin_storage.index k ≡ some n)
  pub synced : IsSynced (record { store = store; origin = so.origin_storage })

dirty-overlay :
    (t : Table ℕ) (k d : ℕ)
    → IsIndexed t
    → IsExact t
    → overlay t.entries k d ≡ origin_or_stored d (get t k)
unfolding get
dirty-overlay t k d w x = elim (Option-cases (t.index k)) [
  | inl absent ↦
      rw absent (overlay-absent t.entries k d (λ i v p. absurd (ground (arith, x i k v p))))
  | inr (i, there) ↦
      let (v, p) = w k i there in
      rw (there, p)
        (overlay-present t.entries k d i v (λ i j k u v p q. ground (arith, x i k u p, x j k v q))
          p)
]

-- Nothing is left in the index of the dirty storage.
delete_keys-free :
    (es : List (ℕ × ℕ)) (m : GoMap ℕ) (k i : ℕ)
    → delete_keys es m k ≡ some i
    → (m k ≡ some i) × ((n v : ℕ) → get_elem? es n ≢ some (k, v))
delete_keys-free [] m k i h = (h, λ n v p. absurd (cc))
delete_keys-free ((key, value) ∷ es) m k i h =
    let (there, free) = delete_keys-free es (delete_key key m) k i h in
    (ground arith, by_position there free)
  where
    by_position :
        delete_key key m k ≡ some i
        → ((n v : ℕ) → get_elem? es n ≢ some (k, v))
        → (n v : ℕ) → get_elem? ((key, value) ∷ es) n ≢ some (k, v)
    by_position there free zero v = ground arith
    by_position there free (suc n) v = free n v

clean-IsIndexed : (t : Table ℕ) → IsIndexed t → (k i : ℕ) → delete_keys t.entries t.index k ≢ some i
clean-IsIndexed t w k i h =
    let (there, free) = delete_keys-free t.entries t.index k i h in
    let (v, p) = w k i there in free i v p

unread-synced :
    (f : Flushed) (k : ℕ)
    → IsSynced f
    → origin_or_stored (or_zero (f.store k)) (get f.origin k) ≡ or_zero (f.store k)
unread-synced f k s = elim (Option-cases (get f.origin k)) [
  | inl unread ↦ rw unread
  | inr (v, there) ↦ rw there (sym (s k v there))
]

clean-IsReady :
    (so : StateObject) (f : Flushed)
    → IsIndexed so.dirty_storage
    → IsIndexed f.origin
    → IsSynced f
    → let t = so.dirty_storage in
      IsReady
        (record so {
          origin_storage = f.origin;
          dirty_storage = record { entries = []; index = delete_keys t.entries t.index };
        })
        f.store
clean-IsReady so f d w s = record {
  sound = record { origin = w; dirty = λ k i h. absurd (clean-IsIndexed so.dirty_storage d k i h) };
  exact = λ i k v p. absurd (cc);
  read = λ k i h. absurd (clean-IsIndexed so.dirty_storage d k i h);
  synced = s;
}

-- For an object with indexed storage caches and an exact dirty storage, that has read each key
-- before it wrote it and whose cached values are those of the store, commitState does not panic,
-- the store has for each key what GetState answered, the object stays ready for another commit,
-- no dirty storage is left and the address stays.
pub commit_state-stores :
    (st : Stores) (so : StateObject)
    → IsReady so (st.storage so.address)
    → (so' : StateObject) × (store : GoMap ℕ) × (commit_state so (st.storage so.address)
        ≡ some (so', store))
      × ((k : ℕ) → or_zero (store k) ≡ state_view st so k)
      × IsReady so' store
      × (so'.dirty_storage.entries ≡ [])
      × (so'.address ≡ so.address)
unfolding commit_state
commit_state-stores st so r =
    let f : Flushed = record { store = st.storage so.address; origin = so.origin_storage } in
    let t = so.dirty_storage in
    let (f', runs, stored, w, s) =
      commit_entries-Flushes t.entries f
        (λ i j k u v p q. ground (arith, r.exact i k u p, r.exact j k v q))
        (λ i k v p. r.read k i (r.exact i k v p)) r.sound.origin r.synced in
    (
      record so {
        origin_storage = f'.origin;
        dirty_storage = record { entries = []; index = delete_keys t.entries t.index };
      },
      f'.store,
      rw runs,
      (λ k.
          stored k
          ∙ dirty-overlay t k _ r.sound.dirty r.exact
          ∙ ap (λ d. origin_or_stored d (get t k)) (sym (unread-synced f k r.synced))),
      clean-IsReady so f' r.sound.dirty w s,
      refl,
      refl,
    )
