-- ===== src/Base/Outcome.antt =====
-- Fallible code that may also panic: `Result<A, E>` with the panics of the body.
use mathlib.Core.Path.{◌≡◌, refl}
use mathlib.Core.Bool.{Bool, true, false}
use mathlib.Core.Logic.{◌≢◌}
use mathlib.Core.Option.{Option, none, some}

pub data Outcome {ℓ κ} (E : Type ℓ) (A : Type κ) : Type (ℓ ⊔ κ) where
  ok : A → Outcome E A
  err : E → Outcome E A
  panic : Outcome E A

infixl 5 ◌>>=◌ ◌>>◌
abbrev pub ◌>>=◌ {ℓ κ μ} :
    {E : Type ℓ} {A : Type κ} {B : Type μ} → Outcome E A → (A → Outcome E B) → Outcome E B
ok a >>= f = f a
err e >>= f = err e
panic >>= f = panic

abbrev pub ◌>>◌ {ℓ κ} : {E : Type ℓ} {B : Type κ} → Outcome E (Unit {0}) → Outcome E B → Outcome E B
m >> k = m >>= λ _. k

-- `assert!`, and an index or a slice that panics out of range.
abbrev pub assert {ℓ} : {E : Type ℓ} → Bool → Outcome E (Unit {0})
assert true = ok tt
assert false = panic

abbrev pub in_range {ℓ κ} : {E : Type ℓ} {A : Type κ} → Option A → Outcome E A
in_range none = panic
in_range (some a) = ok a

-- `ok_or_else` and `ensure`-like tests.
abbrev pub ok_or {ℓ κ} : {E : Type ℓ} {A : Type κ} → E → Option A → Outcome E A
ok_or e none = err e
ok_or e (some a) = ok a

abbrev pub guard {ℓ} : {E : Type ℓ} → Bool → E → Outcome E (Unit {0})
guard true e = ok tt
guard false e = err e

-- `unwrap`
abbrev pub unwrap {ℓ κ} : {E : Type ℓ} {A : Type κ} → Outcome E A → Outcome E A
unwrap (ok a) = ok a
unwrap (err _) = panic
unwrap panic = panic

-- A sequence that succeeds: the first step's result, and the second step on it.
pub >>=-eq-ok {ℓ κ μ} :
    {E : Type ℓ} {A : Type κ} {B : Type μ} (first : Outcome E A) (next : A → Outcome E B)
    {result : B}
    → (first >>= next) ≡ ok result
    → (value : A) × (first ≡ ok value) × (next value ≡ ok result)
>>=-eq-ok panic next done = cc
>>=-eq-ok (err e) next done = cc
>>=-eq-ok (ok value) next done = (value, refl, done)

pub in_range-eq-ok {ℓ κ} :
    {E : Type ℓ} {A : Type κ} (o : Option A) {a : A} → in_range {E = E} o ≡ ok a → o ≡ some a
in_range-eq-ok none h = cc
in_range-eq-ok (some x) h = cc

-- Code that does not panic.
abbrev pub NoPanic {ℓ κ} : {E : Type ℓ} {A : Type κ} → Outcome E A → Type (ℓ ⊔ κ)
NoPanic m = m ≢ panic

pub ok-NoPanic {ℓ κ} : {E : Type ℓ} {A : Type κ} (a : A) → NoPanic {E = E} (ok a)
ok-NoPanic a e = cc (e)

pub >>=-NoPanic {ℓ κ μ} :
    {E : Type ℓ} {A : Type κ} {B : Type μ} (first : Outcome E A) (next : A → Outcome E B)
    → NoPanic first
    → ((a : A) → first ≡ ok a → NoPanic (next a))
    → NoPanic (first >>= next)
>>=-NoPanic panic next h k = λ e. h refl
>>=-NoPanic (err x) next h k = λ e. cc (e)
>>=-NoPanic (ok a) next h k = k a refl

pub ok_or-NoPanic {ℓ κ} : {E : Type ℓ} {A : Type κ} (e : E) (o : Option A) → NoPanic (ok_or e o)
ok_or-NoPanic e none = λ h. cc (h)
ok_or-NoPanic e (some a) = λ h. cc (h)

pub guard-NoPanic {ℓ} : {E : Type ℓ} (b : Bool) (e : E) → NoPanic (guard b e)
guard-NoPanic true e = λ h. cc (h)
guard-NoPanic false e = λ h. cc (h)

pub ok_or-eq-ok {ℓ κ} :
    {E : Type ℓ} {A : Type κ} (e : E) (o : Option A) {a : A} → ok_or e o ≡ ok a → o ≡ some a
ok_or-eq-ok e none h = cc
ok_or-eq-ok e (some b) h = cc
