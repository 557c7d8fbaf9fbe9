-- ===== src/Prelude/Results.antt =====
-- A result that may be an error, and its `do` notation.
use mathlib.Core.Path.{◌≡◌, refl}
use mathlib.Core.Bool.{Bool, true, false}
use native.Mathlib.Omega.{arith}

pub data Result {ℓ κ} (E : Type κ) (A : Type ℓ) : Type (ℓ ⊔ κ) where
  ok : A → Result E A
  err : E → Result E A

infixl 5 ◌>>=◌ ◌>>◌
abbrev pub ◌>>=◌ {ℓ κ ι} :
    {E : Type ι} {A : Type ℓ} {B : Type κ} → Result E A → (A → Result E B) → Result E B
ok a >>= f = f a
err e >>= f = err e

abbrev pub ◌>>◌ {ℓ κ ι} :
    {E : Type ι} {A : Type ℓ} {B : Type κ} → Result E A → Result E B → Result E B
m >> k = m >>= λ _. k

-- `if bad: raise e`
abbrev pub refuse_if {ι} : {E : Type ι} → Bool → E → Result E (Unit {0})
refuse_if true e = err e
refuse_if false e = ok tt

-- What passes a refusal was not refused.
pub refuse_if-passed {ℓ ι} :
    {E : Type ι} {A : Type ℓ} (b : Bool) (e : E) (r : Result E A) (x : A)
    → (refuse_if b e >> r) ≡ ok x
    → (b ≡ false) × (r ≡ ok x)
refuse_if-passed false e r x h = (refl, h)
refuse_if-passed true e r x h = ground arith

-- A chain that succeeds is a step that succeeds and a rest that does.
pub >>=-ok {ℓ κ ι} :
    {E : Type ι} {A : Type ℓ} {B : Type κ} (m : Result E A) (f : A → Result E B) (b : B)
    → (m >>= f) ≡ ok b
    → (a : A) × (m ≡ ok a) × (f a ≡ ok b)
>>=-ok (ok a) f b h = (a, refl, h)
>>=-ok (err e) f b h = ground (arith, h)

-- What holds of every success.
abbrev pub IfOk {ℓ κ ι} : {E : Type ι} {A : Type ℓ} → (A → Type κ) → Result E A → Type κ
IfOk P (ok a) = P a
IfOk P (err e) = Unit

pub IfOk-map {ℓ κ μ ι} :
    {E : Type ι} {A : Type ℓ} {P : A → Type κ} {Q : A → Type μ} (r : Result E A)
    → ((a : A) → P a → Q a)
    → IfOk P r
    → IfOk Q r
IfOk-map (ok a) f h = f a h
IfOk-map (err e) f h = tt

pub IfOk-bind {ℓ κ μ ι} :
    {E : Type ι} {A B : Type ℓ} {P : A → Type κ} (Q : B → Type μ) (r : Result E A)
    (f : A → Result E B)
    → ((a : A) → P a → IfOk Q (f a))
    → IfOk P r
    → IfOk Q (r >>= f)
IfOk-bind Q (ok a) f k h = k a h
IfOk-bind Q (err e) f k h = tt
