-- ===== src/Positions/Keys.antt =====
-- core/positions.js: checking keys, and making keys between others. The first functions work on a
-- key's digits; `key_between`, `keys_between` and `is_position_key` are the exported ones, on strings.
use lazy_storage.Base.{
  ℕ, Bool, true, false, not, ◌&&◌, Option, none, some, List, [], ◌∷◌, ◌++◌, map, ◌==◌,
  if◌then◌else◌, length, drop, Result, ◌>>=◌, ◌>>◌, ok, err,
}
use lazy_storage.Positions.Digits.{digit_index, digit_char, str_lt}
use lazy_storage.Positions.Integer.{
  integer_part, KeyError, zero_key, type_error, range_error, increment_integer, decrement_integer,
  smallest_integer,
}
use lazy_storage.Positions.Midpoint.{ends_in_zero, midpoint, is_empty}

abbrev pub list_eq : List ℕ → List ℕ → Bool
list_eq [] [] = true
list_eq [] (y ∷ ys) = false
list_eq (x ∷ xs) [] = false
list_eq (x ∷ xs) (y ∷ ys) = x == y && list_eq xs ys

-- The loop of `assertKey` over the characters: the digits, if all are in DIGITS.
unfoldable pub read_digits : List ℕ → Result KeyError (List ℕ)
read_digits [] = ok []
read_digits (c ∷ cs) = elim (digit_index c) [
  | none ↦ err type_error
  | some d ↦ do ds ← read_digits cs; ok (d ∷ ds)
]

-- The rest of `assertKey`, on the digits.
unfoldable pub assert_digits : List ℕ → Result KeyError Unit
unfolding integer_part ends_in_zero
assert_digits key = do
  integer ← integer_part key
  let fraction = drop (length integer) key
  if ends_in_zero fraction
      then err type_error
      else if list_eq integer smallest_integer && is_empty fraction
      then err type_error
      else ok tt

unfoldable pub assert_key : List ℕ → Result KeyError (List ℕ)
unfolding assert_digits read_digits
assert_key [] = err type_error
assert_key (c ∷ cs) = do key ← read_digits (c ∷ cs); assert_digits key; ok key

-- True for a well-formed position key: `assertKey` does not throw.
unfoldable pub is_position_key : List ℕ → Bool
unfolding assert_key
is_position_key key = elim (assert_key key) [ ok ds ↦ true | err e ↦ false ]

unfoldable pub or_range_error : Option (List ℕ) → Result KeyError (List ℕ)
or_range_error none = err range_error
or_range_error (some key) = ok key

-- `keyBetween(null, b)`
unfoldable pub key_below : List ℕ → Result KeyError (List ℕ)
unfolding integer_part midpoint str_lt decrement_integer or_range_error
key_below b = do
  ib ← integer_part b
  let fb = drop (length ib) b
  if list_eq ib smallest_integer
      then (do m ← midpoint [] fb; ok (ib ++ m))
      else if str_lt ib b
      then ok ib
      else or_range_error (decrement_integer ib)

-- `above == null ? ia + midpoint(fa, '') : above`
unfoldable pub above_or_fraction : List ℕ → List ℕ → Option (List ℕ) → Result KeyError (List ℕ)
unfolding midpoint
above_or_fraction ia fa none = do m ← midpoint fa []; ok (ia ++ m)
above_or_fraction ia fa (some above) = ok above

-- `keyBetween(a, null)`
unfoldable pub key_above : List ℕ → Result KeyError (List ℕ)
unfolding integer_part above_or_fraction increment_integer
key_above a = do
  ia ← integer_part a
  let fa = drop (length ia) a
  above_or_fraction ia fa (increment_integer ia)

-- `keyBetween(a, b)` with both bounds
unfoldable pub key_inside : List ℕ → List ℕ → Result KeyError (List ℕ)
unfolding integer_part midpoint str_lt increment_integer or_range_error
key_inside a b = do
  ia ← integer_part a
  let fa = drop (length ia) a
  ib ← integer_part b
  let fb = drop (length ib) b
  if list_eq ia ib then (do m ← midpoint fa fb; ok (ia ++ m)) else do
    above ← or_range_error (increment_integer ia)
    if str_lt above b then ok above else do m ← midpoint fa []; ok (ia ++ m)

-- The branches of `keyBetween`, on digits.
unfoldable pub digits_between : Option (List ℕ) → Option (List ℕ) → Result KeyError (List ℕ)
unfolding key_below key_above key_inside
digits_between none none = ok zero_key
digits_between none (some b) = key_below b
digits_between (some a) none = key_above a
digits_between (some a) (some b) = if not (str_lt a b) then err range_error else key_inside a b

unfoldable pub assert_bound : Option (List ℕ) → Result KeyError (Option (List ℕ))
unfolding assert_key
assert_bound none = ok none
assert_bound (some key) = do ds ← assert_key key; ok (some ds)

-- A key strictly between `a` and `b`; `none` on either side is no bound.
unfoldable pub key_between : Option (List ℕ) → Option (List ℕ) → Result KeyError (List ℕ)
unfolding assert_bound digits_between
key_between a b = do
  a_digits ← assert_bound a
  b_digits ← assert_bound b
  key ← digits_between a_digits b_digits
  ok (map digit_char key)
