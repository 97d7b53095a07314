-- ===== src/Base/Errors.antt =====
-- Exceptions and failed assertions as values.
use mathlib.Core.Path.{◌≡◌, refl}
use mathlib.Core.Bool.{Bool, true, false}
use mathlib.Core.Logic.{◌⊎◌, inl, inr}

-- `assertion_failed` is an `assert` that does not hold (the debug build stops there), and
-- `out_of_bounds` an access past the end of a buffer or a shift by the full width, which C++ leaves
-- undefined.
pub data Error : Type 0 where
  invalid_argument runtime_error logic_error assertion_failed out_of_bounds : Error

pub data Result {ℓ} (X : Type ℓ) : Type ℓ where
  ok : X → Result X
  err : Error → Result X

-- `if (!test) throw e;` and `assert(test);`
abbrev pub guard : Bool → Error → Result (Unit {0})
guard false error = err error
guard true error = ok tt

infixl 5 ◌>>=◌ ◌>>◌
abbrev pub ◌>>=◌ {ℓ κ} : {X : Type ℓ} {Y : Type κ} → Result X → (X → Result Y) → Result Y
err error >>= next = err error
ok x >>= next = next x

abbrev pub ◌>>◌ {κ} : {Y : Type κ} → Result (Unit {0}) → Result Y → Result Y
first >> next = first >>= λ _. next

-- Inversion of a successful bind.
pub >>=-eq-ok {ℓ κ} :
    {X : Type ℓ} {Y : Type κ} (first : Result X) (next : X → Result Y) {y : Y}
    → (first >>= next) ≡ ok y
    → (x : X) × (first ≡ ok x) × (next x ≡ ok y)
>>=-eq-ok (err error) next e = cc
>>=-eq-ok (ok x) next e = (x, refl, e)

pub guard-eq-ok :
    (test : Bool) (error : Error) (u : Unit {0}) → guard test error ≡ ok u → test ≡ true
guard-eq-ok false error u e = cc
guard-eq-ok true error u e = refl

pub Result-cases {ℓ} :
    {X : Type ℓ} (r : Result X) → ((x : X) × (r ≡ ok x)) ⊎ ((error : Error) × (r ≡ err error))
Result-cases (ok x) = inl (x, refl)
Result-cases (err error) = inr (error, refl)

-- What holds of the value that a result returns, or of its error.
abbrev pub Outcome {ℓ κ} : {X : Type ℓ} → (X → Type κ) → (Error → Type κ) → Result X → Type κ
Outcome Q E (ok x) = Q x
Outcome Q E (err error) = E error

pub >>=-Outcome {ℓ κ μ} :
    {X : Type ℓ} {Y : Type κ} (Q₁ : X → Type μ) (Q : Y → Type μ) (E₁ E : Error → Type μ)
    (first : Result X) (next : X → Result Y)
    → Outcome Q₁ E₁ first
    → ((x : X) → Q₁ x → Outcome Q E (next x))
    → ((error : Error) → E₁ error → E error)
    → Outcome Q E (first >>= next)
>>=-Outcome Q₁ Q E₁ E (ok x) next h step fail = step x h
>>=-Outcome Q₁ Q E₁ E (err error) next h step fail = fail error h

pub Outcome-map {ℓ κ} :
    {X : Type ℓ} (Q Q' : X → Type κ) (E : Error → Type κ) (r : Result X)
    → Outcome Q E r
    → ((x : X) → Q x → Q' x)
    → Outcome Q' E r
Outcome-map Q Q' E (ok x) h step = step x h
Outcome-map Q Q' E (err error) h step = h
