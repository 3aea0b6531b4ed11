-- ===== src/Positions/Between.antt =====
-- core/positions.js: what `midpoint` returns lies strictly between its bounds, is made of digits and
-- does not end in '0'.
use lazy_storage.Base.{
  ℕ, ◌-◌, ◌<◌, ◌≡◌, refl, inl, inr, true, false, List, [], ◌∷◌, arith, ltb, ◌==◌, Bool-cases, drop,
  All, All-drop, Returns, Returns-bind, ok,
}
use lazy_storage.Positions.Digits.{base, IsDigit, str_lt, str_lt-nil_right}
use lazy_storage.Positions.Midpoint.{
  ends_in_zero, is_empty, midpoint_open, midpoint_prefix, digit_or_zero, rounded_mean, midpoint,
  midpoint_apart,
}

-- The digits of a fraction: it is not cut short by the trailing zero that no key has.
pub record IsFraction (ds : List ℕ) : Type 0 where
  pub digits : All IsDigit ds
  pub whole : ends_in_zero ds ≡ false

-- A fraction that may stand above `a`.
pub record IsAbove (a r : List ℕ) : Type 0 where
  pub digits : All IsDigit r
  pub whole : ends_in_zero r ≡ false
  pub some_digit : is_empty r ≡ false
  pub above : str_lt a r ≡ true

IsAbove-nil : IsAbove [] (midpoint_open [])
unfolding midpoint_open str_lt ends_in_zero
IsAbove-nil = ground arith

ends_in_zero-cons :
    (d : ℕ) (ds : List ℕ) → is_empty ds ≡ false → ends_in_zero (d ∷ ds) ≡ ends_in_zero ds
unfolding ends_in_zero
ends_in_zero-cons d [] h = ground arith
ends_in_zero-cons d (e ∷ ds) h = refl

IsAbove-cons : (d : ℕ) (a r : List ℕ) → d < base → IsAbove a r → IsAbove (d ∷ a) (d ∷ r)
unfolding str_lt
IsAbove-cons d a r k h = ground (arith, ends_in_zero-cons d r h.some_digit)

IsAbove-digit : (a : List ℕ) (d : ℕ) → digit_or_zero a < d → d < base → IsAbove a (d ∷ [])
unfolding str_lt ends_in_zero
IsAbove-digit [] d h k = ground arith
IsAbove-digit (x ∷ xs) d h k = ground arith

pub midpoint_open-IsAbove : (a : List ℕ) → All IsDigit a → IsAbove a (midpoint_open a)
unfolding midpoint_open
midpoint_open-IsAbove [] h = IsAbove-nil
midpoint_open-IsAbove (d ∷ ds) h = elim (Bool-cases (ltb 1 (base - d))) [
  | inl t ↦ rw t (IsAbove-digit (d ∷ ds) (rounded_mean d base) (ground arith) (ground arith))
  | inr f ↦ rw f (IsAbove-cons d ds (midpoint_open ds) h.0 (midpoint_open-IsAbove ds h.1))
]

-- A fraction strictly between `a` and `b`.
pub record IsMidway (a b r : List ℕ) : Type 0 where
  pub lower : IsAbove a r
  pub upper : str_lt r b ≡ true

-- Below another string, a string whose first digit is not that one's has a lesser first digit.
first_digit-lt :
    (a : List ℕ) (d : ℕ) (ds : List ℕ)
    → str_lt a (d ∷ ds) ≡ true
    → (digit_or_zero a == d) ≡ false
    → digit_or_zero a < d
unfolding str_lt
first_digit-lt [] d ds h n = ground arith
first_digit-lt (x ∷ xs) d ds h n = ground arith

IsAbove-first :
    (a : List ℕ)
    → digit_or_zero a < base
    → All IsDigit a
    → IsAbove a (digit_or_zero a ∷ midpoint_open (drop 1 a))
unfolding str_lt
IsAbove-first [] k h =
    ground (arith, ends_in_zero-cons 0 (midpoint_open []) IsAbove-nil.some_digit, IsAbove-nil)
IsAbove-first (x ∷ xs) k h = IsAbove-cons x xs (midpoint_open xs) h.0 (midpoint_open-IsAbove xs h.1)

midpoint_apart-IsMidway :
    (a : List ℕ) (d : ℕ) (ds : List ℕ)
    → All IsDigit a
    → d < base
    → str_lt a (d ∷ ds) ≡ true
    → (digit_or_zero a == d) ≡ false
    → Returns (IsMidway a (d ∷ ds)) (midpoint_apart a (d ∷ ds))
unfolding midpoint_apart str_lt
midpoint_apart-IsMidway a d ds h k l n =
    let lt = first_digit-lt a d ds l n in
    ground (
      arith,
      IsAbove-digit a (rounded_mean (digit_or_zero a) d),
      IsAbove-digit a d,
      IsAbove-first a,
    )

-- The rest of a string below another, after a first digit that they share, is below that one's.
rest-lt :
    (a : List ℕ) (d : ℕ) (ds : List ℕ)
    → str_lt a (d ∷ ds) ≡ true
    → (digit_or_zero a == d) ≡ true
    → ends_in_zero (d ∷ ds) ≡ false
    → str_lt (drop 1 a) ds ≡ true
unfolding str_lt ends_in_zero
rest-lt [] d [] h e z = ground arith
rest-lt [] d (y ∷ ys) h e z = refl
rest-lt (x ∷ xs) d ds h e z = ground arith

ends_in_zero-rest : (d : ℕ) (ds : List ℕ) → ends_in_zero (d ∷ ds) ≡ false → ends_in_zero ds ≡ false
unfolding ends_in_zero
ends_in_zero-rest d [] h = refl
ends_in_zero-rest d (e ∷ ds) h = h

IsMidway-cons :
    (a : List ℕ) (d : ℕ) (ds m : List ℕ)
    → d < base
    → (digit_or_zero a == d) ≡ true
    → IsMidway (drop 1 a) ds m
    → IsMidway a (d ∷ ds) (d ∷ m)
unfolding str_lt
IsMidway-cons [] d ds m k e h = ground (arith, ends_in_zero-cons d m)
IsMidway-cons (x ∷ xs) d ds m k e h = ground (arith, ends_in_zero-cons d m)

midpoint_prefix-IsMidway :
    (a b : List ℕ)
    → All IsDigit a
    → All IsDigit b
    → ends_in_zero b ≡ false
    → str_lt a b ≡ true
    → Returns (IsMidway a b) (midpoint_prefix a b)
unfolding midpoint_prefix
midpoint_prefix-IsMidway a [] h k z l = absurd (str_lt-nil_right a l)
midpoint_prefix-IsMidway a (d ∷ ds) h k z l = elim (Bool-cases (digit_or_zero a == d)) [
  | inl e ↦ rw e (
      Returns-bind (IsMidway (drop 1 a) ds) (IsMidway a (d ∷ ds)) (midpoint_prefix (drop 1 a) ds)
        (λ m. ok (d ∷ m))
        (midpoint_prefix-IsMidway (drop 1 a) ds (All-drop IsDigit 1 a h) k.1
          (ends_in_zero-rest d ds z) (rest-lt a d ds l e z))
        (λ m w. IsMidway-cons a d ds m k.0 e w))
  | inr e ↦ rw e (midpoint_apart-IsMidway a d ds h k.0 l e)
]

-- Between two fractions, the lower below the upper, `midpoint` returns one strictly between them.
pub midpoint-IsMidway :
    (a b : List ℕ)
    → IsFraction a
    → IsFraction b
    → str_lt a b ≡ true
    → Returns (IsMidway a b) (midpoint a b)
unfolding midpoint
midpoint-IsMidway a b h k l =
    let m = midpoint_prefix-IsMidway a b h.digits k.digits k.whole l in
    rw l (elim (Bool-cases (is_empty b)) [ inl e ↦ rw e m | inr e ↦ rw e m ])

-- A string that is not empty is above the empty one.
pub str_lt-nonempty : (ys : List ℕ) → is_empty ys ≡ false → str_lt [] ys ≡ true
unfolding str_lt
str_lt-nonempty [] h = cc
str_lt-nonempty (y ∷ ys) h = refl

-- Without an upper bound `midpoint` does not throw.
pub midpoint-nil : (a : List ℕ) → midpoint a [] ≡ ok (midpoint_open a)
unfolding midpoint
midpoint-nil a = refl
