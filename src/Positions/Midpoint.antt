-- ===== src/Positions/Midpoint.antt =====
-- core/positions.js: `midpoint`, a fraction strictly between two others.
use lazy_storage.Base.{
  ℕ, ◌+◌, ◌-◌, ◌/◌, Bool, true, false, not, ◌&&◌, List, [], ◌∷◌, ltb, ◌==◌, if◌then◌else◌, length,
  drop, Result, ◌>>=◌, ok, err,
}
use lazy_storage.Positions.Digits.{base, str_lt}
use lazy_storage.Positions.Integer.{KeyError, range_error}

-- `fraction.endsWith('0')`
unfoldable pub ends_in_zero : List ℕ → Bool
ends_in_zero [] = false
ends_in_zero (d ∷ []) = d == 0
ends_in_zero (d ∷ e ∷ ds) = ends_in_zero (e ∷ ds)

abbrev pub is_empty : List ℕ → Bool
is_empty [] = true
is_empty (d ∷ ds) = false

-- `a[0] ?? '0'`, which is also `a ? DIGITS.indexOf(a[0]) : 0`
abbrev pub digit_or_zero : List ℕ → ℕ
digit_or_zero [] = 0
digit_or_zero (d ∷ ds) = d

-- `Math.round((digitA + digitB) / 2)`: a half is rounded up
abbrev pub rounded_mean : ℕ → ℕ → ℕ
rounded_mean a b = (a + b + 1) / 2

-- `midpoint(a, '')`: no upper bound
unfoldable pub midpoint_open : List ℕ → List ℕ
midpoint_open [] = rounded_mean 0 base ∷ []
midpoint_open (d ∷ ds) =
    let rest = midpoint_open ds in if ltb 1 (base - d) then rounded_mean d base ∷ [] else d ∷ rest

-- `midpoint` where the first digits differ already
unfoldable pub midpoint_apart : List ℕ → List ℕ → Result KeyError (List ℕ)
unfolding midpoint_open str_lt
midpoint_apart a [] = ok (midpoint_open a)
midpoint_apart a (digit_b ∷ bs) =
    if not (str_lt a (digit_b ∷ bs))
    then err range_error
    else if ltb 1 (digit_b - digit_or_zero a)
    then ok (rounded_mean (digit_or_zero a) digit_b ∷ [])
    else if ltb 1 (length (digit_b ∷ bs))
    then ok (digit_b ∷ [])
    else ok (digit_or_zero a ∷ midpoint_open (drop 1 a))

-- The loop over the common prefix, a string that has ended read as zeros, and the call on the rest.
unfoldable pub midpoint_prefix : List ℕ → List ℕ → Result KeyError (List ℕ)
unfolding midpoint_apart
midpoint_prefix a [] = midpoint_apart a []
midpoint_prefix a (digit_b ∷ bs) =
    let rest = midpoint_prefix (drop 1 a) bs in
    if digit_or_zero a == digit_b
    then (do m ← rest; ok (digit_b ∷ m))
    else midpoint_apart a (digit_b ∷ bs)

unfoldable pub midpoint : List ℕ → List ℕ → Result KeyError (List ℕ)
unfolding midpoint_prefix
midpoint a b = if not (is_empty b) && not (str_lt a b) then err range_error else midpoint_prefix a b
