-- ===== src/Base/Fallible.antt =====
-- The outcome of code that may throw: `err` carries what the code throws.
use mathlib.Core.Path.{◌≡◌, refl}
use mathlib.Core.Logic.{◌⊎◌, inl, inr}

pub data Result {ℓ} (E A : Type ℓ) : Type ℓ where
  ok : A → Result E A
  err : E → Result E A

infixl 5 ◌>>=◌ ◌>>◌
abbrev pub ◌>>=◌ {ℓ} : {E A B : Type ℓ} → Result E A → (A → Result E B) → Result E B
err thrown >>= next = err thrown
ok a >>= next = next a

-- A step whose value is not used.
abbrev pub ◌>>◌ {ℓ} : {E B : Type ℓ} → Result E Unit → Result E B → Result E B
first >> next = first >>= λ _. next

-- The code returns, and what it returns satisfies `P`.
abbrev pub Returns : {E A : Type 0} → (A → Type 0) → Result E A → Type 0
Returns P (ok a) = P a
Returns P (err e) = ⊥

pub Returns-bind :
    {E A B : Type 0} (P : A → Type 0) (Q : B → Type 0) (m : Result E A) (f : A → Result E B)
    → Returns P m
    → ((a : A) → P a → Returns Q (f a))
    → Returns Q (m >>= f)
Returns-bind P Q (ok a) f h k = k a h
Returns-bind P Q (err e) f h k = absurd h

pub Result-cases {ℓ} :
    {E A : Type ℓ} (m : Result E A) → ((a : A) × (m ≡ ok a)) ⊎ ((e : E) × (m ≡ err e))
Result-cases (ok a) = inl (a, refl)
Result-cases (err e) = inr (e, refl)

-- The value that a step passed on, where both steps returned.
pub >>=-eq-ok {ℓ} :
    {E A B : Type ℓ} {result : B} (first : Result E A) (next : A → Result E B)
    → first >>= next ≡ ok result
    → (a : A) × (first ≡ ok a) × (next a ≡ ok result)
>>=-eq-ok (err thrown) next returned = cc
>>=-eq-ok (ok passed) next returned = (passed, refl, returned)

-- Both steps returned.
pub >>-ok :
    {E B : Type 0} (first : Result E Unit) (next : Result E B) {b : B}
    → first >> next ≡ ok b
    → next ≡ ok b
>>-ok (ok tt) next h = h
>>-ok (err e) next h = cc

pub >>-first :
    {E B : Type 0} (first : Result E Unit) (next : Result E B) {b : B}
    → first >> next ≡ ok b
    → first ≡ ok tt
>>-first (ok tt) next h = refl
>>-first (err e) next h = cc
