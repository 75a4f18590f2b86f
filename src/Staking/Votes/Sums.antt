-- ===== src/Staking/Votes/Sums.antt =====
-- The sum of what the delegators of a list of addresses hold, as the iterators over the shares of
-- a validator add it up.
use faxchain.Base.{
  ℕ, ◌≡◌, refl, Option, none, some, List, [], ◌∷◌, GoMap, ◌==◌, if◌then◌else◌, arith, ◌+◌, true,
  false, Bool-cases, inl, inr, ap,
}
use faxchain.Base.Int.{ℤ, pos, ◌+ℤ◌, ◌-ℤ◌, int_laws}

abbrev pub amount : Option ℤ → ℤ
amount none = pos 0
amount (some x) = x

unfoldable pub total : List ℕ → GoMap ℤ → ℤ
total [] g = pos 0
total (a ∷ rest) g = amount (g a) +ℤ total rest g

abbrev pub count : ℕ → List ℕ → ℕ
count j [] = 0
count j (a ∷ rest) = if j == a then 1 + count j rest else count j rest

pub ==_eq : (a b : ℕ) → (a == b) ≡ true → a ≡ b
==_eq a b h = ground arith

pub total_same :
    (addrs : List ℕ) (g g' : GoMap ℤ) (del : ℕ)
    → count del addrs ≡ 0
    → ((a : ℕ) → (a == del) ≡ false → g' a ≡ g a)
    → total addrs g' ≡ total addrs g
unfolding total
total_same [] g g' del n h = refl
total_same (a ∷ rest) g g' del n h =
    let k = total_same rest g g' del (ground arith) h in
    let e = h a (ground arith) in rw k (rw e refl)

-- One delegator holds something else.
pub total_change :
    (addrs : List ℕ) (g g' : GoMap ℤ) (del : ℕ)
    → count del addrs ≡ 1
    → ((a : ℕ) → (a == del) ≡ false → g' a ≡ g a)
    → total addrs g' ≡ total addrs g -ℤ amount (g del) +ℤ amount (g' del)
unfolding total
total_change [] g g' del n h = absurd (omega arith)
total_change (a ∷ rest) g g' del n h = elim (Bool-cases (del == a)) [
  | inl here ↦
      let k = total_same rest g g' del (ground (arith, n, here)) h in
      rw k (rw (ap g (==_eq del a here)) (rw (ap g' (==_eq del a here)) (omega int_laws)))
  | inr away ↦
      let k = total_change rest g g' del (ground (arith, n, away)) h in
      let e = h a (ground (arith, away)) in rw k (rw e (omega int_laws))
]

pub total-none : (addrs : List ℕ) (g : GoMap ℤ) → ((a : ℕ) → g a ≡ none) → total addrs g ≡ pos 0
unfolding total ◌+ℤ◌
total-none [] g h = refl
total-none (a ∷ rest) g h = rw (h a) (rw (total-none rest g h) refl)
