-- ===== src/Base/Maps.antt =====
-- A Go map keyed by addresses or hashes, which the program compares and never computes with.
-- It is the function from a key to the entry, so that two maps with the same entries are equal.
use Prim.Native.Nat.{ℕ}
use mathlib.Core.Path.{◌≡◌, fun_ext}
use mathlib.Core.Option.{Option, none, some}
use native.Mathlib.Omega.{arith}
use faxchain.Base.Tests.{◌==◌, if◌then◌else◌}

abbrev pub GoMap {ℓ} : Type ℓ → Type ℓ
GoMap V = ℕ → Option V

module _ {ℓ} {V : Type ℓ} where
  -- `make(map[K]V)`
  abbrev pub empty_map : GoMap V
  empty_map k = none

  -- `m[k] = v`
  abbrev pub put_key : ℕ → V → GoMap V → GoMap V
  put_key k v m j = if j == k then some v else m j

  -- `delete(m, k)`
  abbrev pub delete_key : ℕ → GoMap V → GoMap V
  delete_key k m j = if j == k then none else m j

  pub delete_key-put_key :
      (k : ℕ) (v : V) (m : GoMap V) → m k ≡ none → delete_key k (put_key k v m) ≡ m
  delete_key-put_key k v m h = fun_ext (λ j. ground arith)

  pub put_key-put_key :
      (k : ℕ) (v w : V) (m : GoMap V) → put_key k w (put_key k v m) ≡ put_key k w m
  put_key-put_key k v w m = fun_ext (λ j. ground arith)

  pub put_key_self : (k : ℕ) (v : V) (m : GoMap V) → m k ≡ some v → put_key k v m ≡ m
  put_key_self k v m h = fun_ext (λ j. ground arith)
