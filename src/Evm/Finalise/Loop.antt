-- ===== src/Evm/Finalise/Loop.antt =====
-- The loop of `Finalise` over the dirty accounts.
use faxchain.Base.{ℕ, ◌≡◌, Bool, true, false, ◌||◌, List, [], ◌∷◌, ◌==◌}
use faxchain.Evm.Table.{get}
use faxchain.Evm.StateObject.{Env, StateObject}
use faxchain.Evm.Journal.{StateDb}
use faxchain.Evm.Finalise.Writes.{Untouched, Settled}

unfoldable pub is_listed : ℕ → List (ℕ × ℕ) → Bool
is_listed j [] = false
is_listed j ((a, _) ∷ ds) = (j == a) || is_listed j ds

-- Each address is listed once.
abbrev pub IsListedOnce : List (ℕ × ℕ) → Type 0
IsListedOnce [] = Unit
IsListedOnce ((a, _) ∷ ds) = (is_listed a ds ≡ false) × IsListedOnce ds

module _ (env : Env) (delete_empty : Bool) where
  -- What the loop leaves at an address that is listed or not.
  abbrev pub Outcome : StateDb → ℕ → StateDb → Bool → Type 0
  Outcome db j db' true = Settled env delete_empty db j db' (get db.state_objects j)
  Outcome db j db' false = Untouched db j db'
