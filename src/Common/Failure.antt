-- ===== src/Common/Failure.antt =====
-- Results of code that may raise an exception.
use mathlib.Core.Bool.{Bool, true, false}
use mathlib.Core.Path.{◌≡◌, subst}
use mathlib.Core.Option.{Option, none, some}

-- A value, or the exception E that was raised.
pub data Outcome {ℓ} (E : Type 0) (A : Type ℓ) : Type ℓ where
  err : E → Outcome E A
  ok : A → Outcome E A

infixl 5 ◌>>=◌ ◌>>◌
abbrev pub ◌>>=◌ {ℓ κ} :
    {E : Type 0} {A : Type ℓ} {B : Type κ} → Outcome E A → (A → Outcome E B) → Outcome E B
err e >>= next = err e
ok a >>= next = next a

abbrev pub ◌>>◌ {ℓ} : {E : Type 0} {B : Type ℓ} → Outcome E (Unit {0}) → Outcome E B → Outcome E B
first >> next = first >>= λ _. next

-- `if not test: raise e`
abbrev pub ensure : {E : Type 0} → Bool → E → Outcome E (Unit {0})
ensure false e = err e
ensure true e = ok tt

-- The value of an option, or the exception e.
unfoldable pub or_raise {ℓ} : {E : Type 0} {A : Type ℓ} → Option A → E → Outcome E A
or_raise none e = err e
or_raise (some a) e = ok a

-- The value satisfies P, where there is one.
abbrev pub Yields {ℓ κ} : {E : Type 0} {A : Type ℓ} → (A → Type κ) → Outcome E A → Type κ
Yields P (err e) = Unit
Yields P (ok a) = P a

pub bind-Yields {ℓ κ μ ν} :
    {E : Type 0} {A : Type ℓ} {B : Type κ} (P : A → Type μ) (Q : B → Type ν) (m : Outcome E A)
    (next : A → Outcome E B)
    → Yields P m
    → ((a : A) → P a → Yields Q (next a))
    → Yields Q (m >>= next)
bind-Yields P Q (err e) next h k = tt
bind-Yields P Q (ok a) next h k = k a h

pub ensure-Yields {ℓ κ} :
    {E : Type 0} {B : Type ℓ} (Q : B → Type κ) (test : Bool) (e : E) (m : Outcome E B)
    → Yields Q m
    → Yields Q (ensure test e >> m)
ensure-Yields Q true e m h = h
ensure-Yields Q false e m h = tt

pub Yields-ok {ℓ κ} :
    {E : Type 0} {A : Type ℓ} (P : A → Type κ) (m : Outcome E A) (a : A)
    → Yields P m
    → m ≡ ok a
    → P a
Yields-ok P (err e) a h same = absurd (cc)
Yields-ok P (ok b) a h same = subst P (cc) h
