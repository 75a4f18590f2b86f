-- ===== src/Base/Int.antt =====
-- The raw numbers of the decimals, which can be negative, over the native numbers. An integer has
-- two parts, of which one is 0; sums and orders are read off them.
use Prim.Native.Nat.{ℕ, suc, ◌+◌, ◌-◌, ◌≤◌}
use mathlib.Core.Path.{◌≡◌}
use mathlib.Core.Logic.{◌↔◌}
use mathlib.Core.Bool.{Bool, true, ◌&&◌}
use mathlib.Core.List.{List, [], ◌∷◌}
use native.Mathlib.Omega.{arith}
use faxchain.Base.Tests.{leb, ltb, ◌==◌, if◌then◌else◌}

-- `negsuc n` is -(n + 1).
pub data ℤ : Type 0 where
  pos negsuc : ℕ → ℤ

abbrev pub pos_part : ℤ → ℕ
pos_part (pos n) = n
pos_part (negsuc n) = 0

abbrev pub neg_part : ℤ → ℕ
neg_part (pos n) = 0
neg_part (negsuc n) = suc n

-- The integer m - n.
abbrev pub minus : ℕ → ℕ → ℤ
minus m n = if leb n m then pos (m - n) else negsuc (n - m - 1)

infixl 65 ◌+ℤ◌ ◌-ℤ◌
infix 50 ◌≤ℤ◌
unfoldable pub ◌+ℤ◌ : ℤ → ℤ → ℤ
x +ℤ y = minus (pos_part x + pos_part y) (neg_part x + neg_part y)

unfoldable pub ◌-ℤ◌ : ℤ → ℤ → ℤ
x -ℤ y = minus (pos_part x + neg_part y) (neg_part x + pos_part y)

-- `Mul(NewDec(-1))`, `Neg`
abbrev pub negate : ℤ → ℤ
negate x = pos 0 -ℤ x

abbrev pub ◌≤ℤ◌ : ℤ → ℤ → Type 0
x ≤ℤ y = pos_part x + neg_part y ≤ pos_part y + neg_part x

-- `LT`
abbrev pub ltb_ℤ : ℤ → ℤ → Bool
ltb_ℤ x y = ltb (pos_part x + neg_part y) (pos_part y + neg_part x)

-- `Equal`
abbrev pub eqb_ℤ : ℤ → ℤ → Bool
eqb_ℤ x y = (pos_part x == pos_part y) && (neg_part x == neg_part y)

abbrev pub is_zero : ℤ → Bool
is_zero x = eqb_ℤ x (pos 0)

pub eqb_ℤ_iff : (x y : ℤ) → (eqb_ℤ x y ≡ true) ↔ (x ≡ y)
eqb_ℤ_iff x y = ground arith

pub +ℤ_parts :
    (x y : ℤ)
    → pos_part (x +ℤ y) + neg_part x + neg_part y ≡ neg_part (x +ℤ y) + pos_part x + pos_part y
unfolding ◌+ℤ◌
+ℤ_parts x y = ground arith

pub -ℤ_parts :
    (x y : ℤ)
    → pos_part (x -ℤ y) + neg_part x + pos_part y ≡ neg_part (x -ℤ y) + pos_part x + neg_part y
unfolding ◌-ℤ◌
-ℤ_parts x y = ground arith

pub eq_of_parts : (x y : ℤ) → pos_part x + neg_part y ≡ pos_part y + neg_part x → x ≡ y
eq_of_parts x y h = ground arith

-- For `omega`, with the sums and differences shut.
pub ruleset int_laws = (arith, +ℤ_parts, -ℤ_parts, eq_of_parts)

abbrev pub sum_ℤ : List ℤ → ℤ
sum_ℤ [] = pos 0
sum_ℤ (x ∷ xs) = x +ℤ sum_ℤ xs
