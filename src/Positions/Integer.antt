-- ===== src/Positions/Integer.antt =====
-- core/positions.js: a key's integer part, its length told by its head, and counting up and down.
use lazy_storage.Base.{
  ℕ, suc, ◌+◌, ◌-◌, ◌≡◌, Bool, true, false, ◌&&◌, Option, none, some, List, [], ◌∷◌, ◌++◌, ltb, leb,
  ◌==◌, if◌then◌else◌, length, take, drop, replicate, All, Result, ◌>>=◌, ok, err,
}
use lazy_storage.Positions.Digits.{base, IsDigit}

-- What the functions on keys throw.
pub data KeyError : Type 0 where
  type_error range_error : KeyError

-- 'a'-'z' are the digits 36-61 and 'A'-'Z' the digits 10-35.
unfoldable pub integer_length : ℕ → Result KeyError ℕ
integer_length head =
    if leb 36 head && leb head 61
    then ok (head - 36 + 2)
    else if leb 10 head && leb head 35
    then ok (35 - head + 2)
    else err type_error

-- `key[0]` of the empty string is no head.
unfoldable pub integer_part : List ℕ → Result KeyError (List ℕ)
integer_part [] = err type_error
integer_part (head ∷ rest) = do
  n ← integer_length head
  if ltb (length (head ∷ rest)) n then err type_error else ok (take n (head ∷ rest))

-- 'A' + '0'.repeat(26), and 'a0'.
abbrev pub smallest_integer : List ℕ
smallest_integer = 10 ∷ replicate 26 0

abbrev pub zero_key : List ℕ
zero_key = 36 ∷ 0 ∷ []

-- The loop of `incrementInteger`, from the last digit: the digits, and whether the carry is left.
unfoldable pub increment_digits : List ℕ → List ℕ × Bool
increment_digits [] = ([], true)
increment_digits (d ∷ ds) =
    let (ds', carry) = increment_digits ds in
    if carry
    then (if d + 1 == base then (0 ∷ ds', true) else ((d + 1) ∷ ds', false))
    else (d ∷ ds', false)

unfoldable pub increment_head : ℕ → List ℕ × Bool → Option (List ℕ)
increment_head head (digits, false) = some (head ∷ digits)
increment_head head (digits, true) =
    if head == 35
    then some zero_key
    else if head == 61
    then none
    else if ltb 36 (head + 1)
    then some ((head + 1) ∷ digits ++ 0 ∷ [])
    else some ((head + 1) ∷ drop 1 digits)

unfoldable pub increment_integer : List ℕ → Option (List ℕ)
unfolding increment_digits increment_head
increment_integer [] = none
increment_integer (head ∷ digits) = increment_head head (increment_digits digits)

-- The loop of `decrementInteger`, from the last digit: the digits, and whether the borrow is left.
unfoldable pub decrement_digits : List ℕ → List ℕ × Bool
decrement_digits [] = ([], true)
decrement_digits (d ∷ ds) =
    let (ds', borrow) = decrement_digits ds in
    if borrow
    then (if d == 0 then ((base - 1) ∷ ds', true) else ((d - 1) ∷ ds', false))
    else (d ∷ ds', false)

unfoldable pub decrement_head : ℕ → List ℕ × Bool → Option (List ℕ)
decrement_head head (digits, false) = some (head ∷ digits)
decrement_head head (digits, true) =
    if head == 36
    then some (35 ∷ 61 ∷ [])
    else if head == 10
    then none
    else if ltb (head - 1) 35
    then some ((head - 1) ∷ digits ++ 61 ∷ [])
    else some ((head - 1) ∷ drop 1 digits)

unfoldable pub decrement_integer : List ℕ → Option (List ℕ)
unfolding decrement_digits decrement_head
decrement_integer [] = none
decrement_integer (head ∷ digits) = decrement_head head (decrement_digits digits)

-- A well-formed integer part: a head, and as many digits as it says.
abbrev pub IsInteger : List ℕ → Type 0
IsInteger [] = ⊥
IsInteger (head ∷ digits) = (integer_length head ≡ ok (suc (length digits))) × All IsDigit digits
