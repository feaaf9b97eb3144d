-- ===== src/Common/Results.antt =====
-- A value, or what was thrown.
use mathlib.Core.Path.{◌≡◌, refl}
use mathlib.Core.Logic.{◌⊎◌, inl, inr}
use mathlib.Core.Bool.{Bool, true, false}

pub data Result {ℓ} (E A : Type ℓ) : Type ℓ where
  ok : A → Result E A
  err : E → Result E A

infixl 5 ◌>>=◌ ◌>>◌
abbrev pub ◌>>=◌ {ℓ} : {E A B : Type ℓ} → Result E A → (A → Result E B) → Result E B
ok a >>= f = f a
err e >>= f = err e

abbrev pub ◌>>◌ {ℓ} : {E A B : Type ℓ} → Result E A → Result E B → Result E B
m >> k = m >>= λ _. k

-- `if (!b) throw e; return a`
abbrev pub ensure {ℓ} : {E A : Type ℓ} → Bool → E → A → Result E A
ensure true e a = ok a
ensure false e a = err e

abbrev pub map_err {ℓ} : {E F A : Type ℓ} → (E → F) → Result E A → Result F A
map_err f (ok a) = ok a
map_err f (err e) = err (f e)

pub ok-injective {ℓ} : {E A : Type ℓ} {a c : A} → ◌≡◌ {A = Result E A} (ok a) (ok c) → c ≡ a
ok-injective h = cc

-- A result of a chain is the result of its rest at a result of its first step.
pub >>=-steps {ℓ κ} :
    {E A B : Type ℓ} {C : Type κ} (m : Result E A) (f : A → Result E B) {b : B}
    → (m >>= f) ≡ ok b
    → ((a : A) → m ≡ ok a → f a ≡ ok b → C)
    → C
>>=-steps (ok a) f h k = k a refl h
>>=-steps (err e) f h k = cc

pub >>=-eq-ok {ℓ} :
    {E A B : Type ℓ} (r : Result E A) (k : A → Result E B) {y : B}
    → (r >>= k) ≡ ok y
    → (x : A) × (r ≡ ok x) × (k x ≡ ok y)
>>=-eq-ok r k h = >>=-steps r k h λ x p q. (x, p, q)

pub ensure-eq-ok {ℓ} :
    {E A : Type ℓ} (b : Bool) (e : E) (a : A) {c : A} → ensure b e a ≡ ok c → (b ≡ true) × (c ≡ a)
ensure-eq-ok true e a h = (refl, ok-injective h)
ensure-eq-ok false e a h = cc

pub map_err-eq-ok {ℓ} :
    {E F A : Type ℓ} (f : E → F) (r : Result E A) {a : A} → map_err f r ≡ ok a → r ≡ ok a
map_err-eq-ok f (ok b) h = cc
map_err-eq-ok f (err e) h = cc

pub Result-cases {ℓ} :
    {E A : Type ℓ} (r : Result E A) → ((a : A) × (r ≡ ok a)) ⊎ ((e : E) × (r ≡ err e))
Result-cases (ok a) = inl (a, refl)
Result-cases (err e) = inr (e, refl)
