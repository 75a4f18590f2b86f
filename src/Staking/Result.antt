-- ===== src/Staking/Result.antt =====
-- What a handler of the staking module returns: a value, or the error that ends the transaction. A
-- panic ends it too. What was written before an error is taken back with the transaction, so an
-- error carries no state.
use faxchain.Base.{◌≡◌, refl, ◌⊎◌, inl, inr, if◌then◌else◌, Bool, true, false, Option, none, some}

pub data Error : Type 0 where
  no_delegation no_delegator already_added_shares proxy_not_found double_proxy proxy_already_exists
        already_bound :
      Error
  invalid_delegation invalid_proxy_updating invalid_address add_shares_during_proxy : Error
  add_shares_to_dismission no_validator_found empty_validators exceed_validators : Error
  insufficient_quantity insufficient_delegation invalid_proxy_withdraw_total bad_denom : Error
  no_min_self_delegation more_min_self_delegation not_in_delegating weight_failed bank_failed :
      Error
  owner_exists pub_key_exists bad_description key_type_not_supported panicked : Error

pub data Result {ℓ} (S : Type ℓ) : Type ℓ where
  err : Error → Result S
  ok : S → Result S

-- The next step of a handler, unless the last one failed.
infixl 5 ◌>>=◌
abbrev pub ◌>>=◌ {ℓ κ} : {S : Type ℓ} {T : Type κ} (step : Result S) → (S → Result T) → Result T
err why >>= next = err why
ok s >>= next = next s

-- An early return on a test.
abbrev pub fail_if {ℓ} : {A : Type ℓ} → Bool → Error → Result A → Result A
fail_if true e r = err e
fail_if false e r = r

-- A value that has to be there.
abbrev pub need {ℓ κ} : {A : Type ℓ} {B : Type κ} → Option A → Error → (A → Result B) → Result B
need none e f = err e
need (some a) e f = f a

-- Every error of a step reported as another one.
abbrev pub report_as {ℓ} : {A : Type ℓ} → Error → Result A → Result A
report_as e (ok a) = ok a
report_as e (err _) = err e

pub >>=-eq-ok {ℓ κ} :
    {S : Type ℓ} {T : Type κ} (step : Result S) (next : S → Result T) {done : T}
    → (step >>= next) ≡ ok done
    → (s : S) × (step ≡ ok s) × (next s ≡ ok done)
>>=-eq-ok (err why) next e = absurd (cc)
>>=-eq-ok (ok s) next e = (s, refl, e)

pub report_as-eq-ok {ℓ} :
    {A : Type ℓ} (e : Error) (m : Result A) {a : A} → report_as e m ≡ ok a → m ≡ ok a
report_as-eq-ok e (ok a) h = h
report_as-eq-ok e (err _) h = absurd (cc)

pub need-eq-ok {ℓ κ} :
    {A : Type ℓ} {B : Type κ} (o : Option A) (e : Error) (f : A → Result B) {b : B}
    → need o e f ≡ ok b
    → (a : A) × (o ≡ some a) × (f a ≡ ok b)
need-eq-ok none e f h = absurd (cc)
need-eq-ok (some a) e f h = (a, refl, h)

pub fail_if-eq-ok {ℓ} :
    {A : Type ℓ} (b : Bool) (e : Error) (r : Result A) {a : A}
    → fail_if b e r ≡ ok a
    → (b ≡ false) × (r ≡ ok a)
fail_if-eq-ok true e r h = absurd (cc)
fail_if-eq-ok false e r h = (refl, h)

pub ok_inj {ℓ} : {A : Type ℓ} {a b : A} → ok a ≡ ok b → a ≡ b
ok_inj h = cc

pub if-eq-ok {ℓ} :
    {A : Type ℓ} (b : Bool) (x y : Result A) {a : A}
    → (if b then x else y) ≡ ok a
    → ((b ≡ true) × (x ≡ ok a)) ⊎ ((b ≡ false) × (y ≡ ok a))
if-eq-ok true x y h = inl (refl, h)
if-eq-ok false x y h = inr (refl, h)
