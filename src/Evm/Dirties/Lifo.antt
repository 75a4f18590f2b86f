-- ===== src/Evm/Dirties/Lifo.antt =====
-- Dirty tracking that is undone in reverse order is undone exactly, and counts the changes.
use faxchain.Base.{
  ℕ, suc, ◌+◌, ◌≡◌, refl, ap, inl, inr, Bool, true, false, Option, none, some, List, [], ◌∷◌, ◌++◌,
  arith, Bool-cases, length, get_elem?, set, put_key, get_elem?-lt, get_elem?-append_left,
  get_elem?-append_end, set-set, set-get_elem?, get_elem?-set_self, get_elem?-set_ne,
  set-append_length, erase_idx-append_length, delete_key-put_key, if◌then◌else◌, ◌==◌, ◌>>=◌,
}
use mathlib.Core.Option
use faxchain.Evm.Dirties.{Dirties, new_dirties, get_dirty, add_dirty, drop_dirty}

-- The index sends an address to its own entry, whose count is positive.
abbrev pub IsTracked : Dirties → Type 0
IsTracked d = (a i : ℕ) → d.index a ≡ some i → (n : ℕ) × (get_elem? d.dirties i ≡ some (a, suc n))

pub new_dirties-IsTracked : IsTracked new_dirties
unfolding new_dirties
new_dirties-IsTracked a i h = absurd (cc)

-- The two shapes of the tracker after a change of `a`.
abbrev pub added_new : Dirties → ℕ → Dirties
added_new d a = record d {
  dirties = d.dirties ++ (a, 1) ∷ [];
  index = put_key a (length d.dirties) d.index;
}

abbrev pub added_old : Dirties → ℕ → ℕ → ℕ → Dirties
added_old d a i n = record d { dirties = set d.dirties i (a, suc n + 1) }

drop-added_new : (d : Dirties) (a : ℕ) → d.index a ≡ none → drop_dirty (added_new d a) a ≡ some d
unfolding drop_dirty
drop-added_new d a e = ground (
  arith,
  get_elem?-append_end d.dirties (a, 1),
  get_elem?-append_end d.dirties (a, 0),
  set-append_length d.dirties (a, 1) (a, 0),
  erase_idx-append_length d.dirties (a, 0),
  delete_key-put_key a (length d.dirties) d.index e,
)

pub drop-added_old :
    (d : Dirties) (a i n : ℕ)
    → d.index a ≡ some i
    → get_elem? d.dirties i ≡ some (a, suc n)
    → drop_dirty (added_old d a i n) a ≡ some d
unfolding drop_dirty
drop-added_old d a i n e g = ground (
  arith,
  get_elem?-lt d.dirties i g,
  get_elem?-set_self d.dirties i (a, suc n + 1),
  get_elem?-set_self d.dirties i (a, suc n),
  set-set d.dirties i (a, suc n + 1) (a, suc n),
  set-get_elem? d.dirties i g,
)

added_new-IsTracked : (d : Dirties) (a : ℕ) → IsTracked d → IsTracked (added_new d a)
added_new-IsTracked d a w b j h = elim (Bool-cases (b == a)) [
  | inl here ↦ (0, ground (arith, get_elem?-append_end d.dirties (a, 1)))
  | inr other ↦
      let (n, g) = w b j (ground arith) in
      (
        n,
        ground (arith, get_elem?-lt d.dirties j g, get_elem?-append_left d.dirties ((a, 1) ∷ []) j),
      )
]

added_old-IsTracked :
    (d : Dirties) (a i n : ℕ)
    → d.index a ≡ some i
    → get_elem? d.dirties i ≡ some (a, suc n)
    → IsTracked d
    → IsTracked (added_old d a i n)
added_old-IsTracked d a i n e g w b j h = elim (Bool-cases (j == i)) [
  | inl here ↦
      let (m, q) = w b j h in
      (
        n + 1,
        ground (arith, get_elem?-lt d.dirties i g, get_elem?-set_self d.dirties i (a, suc n + 1)),
      )
  | inr other ↦
      let (m, q) = w b j h in (m, ground (arith, get_elem?-set_ne d.dirties i j (a, suc n + 1)))
]

get-added_new :
    (d : Dirties) (a b : ℕ) (o : Option ℕ)
    → d.index b ≡ o
    → d.index a ≡ none
    → IsTracked d
    → get_dirty (added_new d a) b ≡ Option.map (λ n. if b == a then n + 1 else n) (get_dirty d b)
unfolding get_dirty
get-added_new d a b none e e' w = ground (arith, get_elem?-append_end d.dirties (a, 1))
get-added_new d a b (some j) e e' w =
    let (n, g) = w b j e in
    ground (arith, get_elem?-lt d.dirties j g, get_elem?-append_left d.dirties ((a, 1) ∷ []) j)

get-added_old :
    (d : Dirties) (a b i n : ℕ) (o : Option ℕ)
    → d.index b ≡ o
    → d.index a ≡ some i
    → get_elem? d.dirties i ≡ some (a, suc n)
    → IsTracked d
    → get_dirty (added_old d a i n) b
      ≡ Option.map (λ n. if b == a then n + 1 else n) (get_dirty d b)
unfolding get_dirty
get-added_old d a b i n none e e' g w = ground arith
get-added_old d a b i n (some j) e e' g w =
    let (m, q) = w b j e in
    ground (
      arith,
      get_elem?-lt d.dirties i g,
      get_elem?-set_self d.dirties i (a, suc n + 1),
      get_elem?-set_ne d.dirties i j (a, suc n + 1),
    )

-- What one tracked change does: it does not panic, adds one to its own count and to no other, and
-- dropping it gives back the tracker.
pub record Added (d : Dirties) (a : ℕ) : Type 0 where
  pub after : Dirties
  pub runs : add_dirty d a ≡ some after
  pub tracked : IsTracked after
  pub dropped : drop_dirty after a ≡ some d
  pub counted :
      (b : ℕ) → get_dirty after b ≡ Option.map (λ n. if b == a then n + 1 else n) (get_dirty d b)

add_dirty_at-Added : (d : Dirties) (a : ℕ) (o : Option ℕ) → d.index a ≡ o → IsTracked d → Added d a
unfolding add_dirty
add_dirty_at-Added d a none e w = record {
  after = added_new d a;
  runs = rw e;
  tracked = added_new-IsTracked d a w;
  dropped = drop-added_new d a e;
  counted = λ b. get-added_new d a b (d.index b) refl e w;
}
add_dirty_at-Added d a (some i) e w =
    let (n, g) = w a i e in
    record {
      after = added_old d a i n;
      runs = rw (e, g);
      tracked = added_old-IsTracked d a i n e g w;
      dropped = drop-added_old d a i n e g;
      counted = λ b. get-added_old d a b i n (d.index b) refl e g w;
    }

pub add_dirty-Added : (d : Dirties) (a : ℕ) → IsTracked d → Added d a
add_dirty-Added d a w = add_dirty_at-Added d a (d.index a) refl w

-- The accounts that a run of entries dirties, the oldest first.
pub add_all : List ℕ → Dirties → Option Dirties
add_all [] d = some d
add_all (a ∷ addrs) d = add_dirty d a >>= add_all addrs

-- Dropping them, the newest first.
pub drop_all : List ℕ → Dirties → Option Dirties
drop_all [] d = some d
drop_all (a ∷ addrs) d = drop_all addrs d >>= λ d'. drop_dirty d' a

pub occurrences : ℕ → List ℕ → ℕ
occurrences b [] = 0
occurrences b (a ∷ addrs) = if b == a then occurrences b addrs + 1 else occurrences b addrs

map-add_zero : (o : Option ℕ) → o ≡ Option.map (λ n. n + 0) o
map-add_zero none = refl
map-add_zero (some n) = ap some (omega arith)

map-add_step :
    (c : Bool) (k : ℕ) (o : Option ℕ)
    → Option.map (λ n. n + k) (Option.map (λ n. if c then n + 1 else n) o)
      ≡ Option.map (λ n. n + (if c then k + 1 else k)) o
map-add_step c k none = refl
map-add_step true k (some n) = ap some (omega arith)
map-add_step false k (some n) = refl

-- While each index of the dirty slice leads to its own account with a positive count, counting
-- any run of dirtied accounts does not panic and stays tracked; the count of each account grows
-- by its occurrences; and dropping the run in reverse order gives back exactly the tracker of the
-- start.
pub add_all-Tracks :
    (addrs : List ℕ) (d : Dirties)
    → IsTracked d
    → (d' : Dirties) × (add_all addrs d ≡ some d')
      × IsTracked d'
      × (drop_all addrs d' ≡ some d)
      × ((b : ℕ) → get_dirty d' b ≡ Option.map (λ n. n + occurrences b addrs) (get_dirty d b))
unfolding add_all drop_all occurrences
add_all-Tracks [] d w = (d, refl, w, refl, λ b. map-add_zero (get_dirty d b))
add_all-Tracks (a ∷ addrs) d w =
    let step = add_dirty-Added d a w in
    let (d', r, t, u, c) = add_all-Tracks addrs step.after step.tracked in
    (
      d',
      rw (step.runs) r,
      t,
      rw u step.dropped,
      λ b. rw (c b, step.counted b) (map-add_step (b == a) (occurrences b addrs) (get_dirty d b)),
    )
