-- ===== src/Positions/Digits.antt =====
-- core/positions.js: the alphabet of position keys and the order of strings over it.
-- A character is its UTF-16 code unit. A key is worked with as the list of its digits, each the
-- index of its character in DIGITS.
use lazy_storage.Base.{
  ℕ, ◌+◌, ◌-◌, ◌<◌, ◌≡◌, refl, ◌≢◌, Bool, true, false, ◌&&◌, Option, none, some, List, [], ◌∷◌,
  ◌++◌, map, arith, ltb, leb, ◌==◌, if◌then◌else◌, ==_iff, length, All,
}
use mathlib.Core.Path.{ap₂}
use native.Mathlib.Decide.{ℕ_discrete}

abbrev pub base : ℕ
base = 62

-- DIGITS[d]: '0'-'9', then 'A'-'Z', then 'a'-'z'.
unfoldable pub digit_char : ℕ → ℕ
digit_char d = if ltb d 10 then d + 48 else if ltb d 36 then d + 55 else d + 61

-- DIGITS.indexOf(ch), `none` for -1.
unfoldable pub digit_index : ℕ → Option ℕ
digit_index c =
    if leb 48 c && leb c 57
    then some (c - 48)
    else if leb 65 c && leb c 90
    then some (c - 55)
    else if leb 97 c && leb c 122
    then some (c - 61)
    else none

-- a < b on strings: lexicographic by code unit, a proper prefix below.
unfoldable pub str_lt : List ℕ → List ℕ → Bool
str_lt [] [] = false
str_lt [] (y ∷ ys) = true
str_lt (x ∷ xs) [] = false
str_lt (x ∷ xs) (y ∷ ys) = if x == y then str_lt xs ys else ltb x y

abbrev pub IsDigit : ℕ → Type 0
IsDigit d = d < base

pub digit_index-digit_char : (d : ℕ) → d < base → digit_index (digit_char d) ≡ some d
unfolding digit_index digit_char
digit_index-digit_char d h = ground arith

pub digit_index-lt : (c d : ℕ) → digit_index c ≡ some d → (d < base) × (digit_char d ≡ c)
unfolding digit_index digit_char
digit_index-lt c d h = ground arith

-- The alphabet is sorted: comparing characters is comparing their indices.
pub digit_char-lt : (c d : ℕ) → c < base → d < base → ltb (digit_char c) (digit_char d) ≡ ltb c d
unfolding digit_char
digit_char-lt c d h k = ground arith

pub digit_char-eq : (c d : ℕ) → c < base → d < base → (digit_char c == digit_char d) ≡ (c == d)
unfolding digit_char
digit_char-eq c d h k = ground arith

pub str_lt-map :
    (xs ys : List ℕ)
    → All IsDigit xs
    → All IsDigit ys
    → str_lt (map digit_char xs) (map digit_char ys) ≡ str_lt xs ys
unfolding str_lt
str_lt-map [] [] h k = refl
str_lt-map [] (y ∷ ys) h k = refl
str_lt-map (x ∷ xs) [] h k = refl
str_lt-map (x ∷ xs) (y ∷ ys) h k =
    ground (arith, digit_char-lt x y h.0 k.0, digit_char-eq x y h.0 k.0, str_lt-map xs ys h.1 k.1)

pub str_lt_irrefl : (xs : List ℕ) → str_lt xs xs ≡ false
unfolding str_lt
str_lt_irrefl [] = refl
str_lt_irrefl (x ∷ xs) = ground (arith, str_lt_irrefl xs)

pub str_lt_trans :
    (xs ys zs : List ℕ) → str_lt xs ys ≡ true → str_lt ys zs ≡ true → str_lt xs zs ≡ true
unfolding str_lt
str_lt_trans [] [] zs h k = ground arith
str_lt_trans [] (y ∷ ys) [] h k = ground arith
str_lt_trans [] (y ∷ ys) (z ∷ zs) h k = refl
str_lt_trans (x ∷ xs) [] zs h k = ground arith
str_lt_trans (x ∷ xs) (y ∷ ys) [] h k = ground arith
str_lt_trans (x ∷ xs) (y ∷ ys) (z ∷ zs) h k = ground (arith, str_lt_trans xs ys zs)

-- Of two strings neither of which is below the other, one is the other.
pub str_lt-connex : (xs ys : List ℕ) → str_lt xs ys ≡ false → str_lt ys xs ≡ false → xs ≡ ys
unfolding str_lt
str_lt-connex [] [] h k = refl
str_lt-connex [] (y ∷ ys) h k = ground arith
str_lt-connex (x ∷ xs) [] h k = ground arith
str_lt-connex (x ∷ xs) (y ∷ ys) h k = ground (arith, str_lt-connex xs ys)

-- Below at a place that both have: what follows does not matter.
unfoldable pub lt_at : List ℕ → List ℕ → Bool
lt_at [] ys = false
lt_at (x ∷ xs) [] = false
lt_at (x ∷ xs) (y ∷ ys) = if x == y then lt_at xs ys else ltb x y

pub str_lt-append_of_lt_at :
    (xs ys us vs : List ℕ) → lt_at xs ys ≡ true → str_lt (xs ++ us) (ys ++ vs) ≡ true
unfolding str_lt lt_at
str_lt-append_of_lt_at [] ys us vs h = ground arith
str_lt-append_of_lt_at (x ∷ xs) [] us vs h = ground arith
str_lt-append_of_lt_at (x ∷ xs) (y ∷ ys) us vs h =
    ground (arith, str_lt-append_of_lt_at xs ys us vs)

pub str_lt-append_same : (xs us vs : List ℕ) → str_lt (xs ++ us) (xs ++ vs) ≡ str_lt us vs
unfolding str_lt
str_lt-append_same [] us vs = refl
str_lt-append_same (x ∷ xs) us vs = ground (arith, str_lt-append_same xs us vs)

-- Of two strings that begin with different parts of one length, the parts decide.
pub lt_at_of_ne :
    (xs ys us vs : List ℕ)
    → length xs ≡ length ys
    → xs ≢ ys
    → str_lt (xs ++ us) (ys ++ vs) ≡ true
    → lt_at xs ys ≡ true
unfolding str_lt lt_at
lt_at_of_ne [] [] us vs e n h = absurd (n refl)
lt_at_of_ne [] (y ∷ ys) us vs e n h = absurd (omega arith)
lt_at_of_ne (x ∷ xs) [] us vs e n h = absurd (omega arith)
lt_at_of_ne (x ∷ xs) (y ∷ ys) us vs e n h = elim (ℕ_discrete x y) [
  | yes p ↦
      rw (← p, (==_iff x x).1 refl)
        (lt_at_of_ne xs ys us vs (omega arith) (λ q. n (ap₂ ◌∷◌ p q)) (ground arith))
  | no p ↦ ground arith
]

-- A string that has a digit left is above one that has none.
pub str_lt-nil : (ys : List ℕ) → ys ≢ [] → str_lt [] ys ≡ true
unfolding str_lt
str_lt-nil [] n = absurd (n refl)
str_lt-nil (y ∷ ys) n = refl

pub str_lt-nil_right : (xs : List ℕ) → str_lt xs [] ≡ true → ⊥
unfolding str_lt
str_lt-nil_right [] h = cc
str_lt-nil_right (x ∷ xs) h = cc
