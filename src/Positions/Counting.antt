-- ===== src/Positions/Counting.antt =====
-- core/positions.js: counting an integer part up gives a greater one of its own form, and down a
-- lesser; only the greatest has none above, only the smallest none below.
use lazy_storage.Base.{
  ℕ, suc, ◌+◌, ◌<◌, max, ◌≡◌, refl, sym, ap, ◌∙◌, Bool, true, false, none, some, List, [], ◌∷◌,
  ◌++◌, arith, length, drop, replicate, All, length-append, All-append, ok,
}
use mathlib.Core.Path.{ap₂}
use lazy_storage.Positions.Digits.{base, IsDigit, lt_at}
use lazy_storage.Positions.Integer.{
  integer_length, increment_digits, increment_head, IsInteger, decrement_digits, increment_integer,
  decrement_integer, decrement_head, smallest_integer,
}

length-increment_digits : (ds : List ℕ) → length (increment_digits ds).0 ≡ length ds
unfolding increment_digits
length-increment_digits [] = refl
length-increment_digits (d ∷ ds) = ground (arith, length-increment_digits ds)

increment_digits-IsDigit : (ds : List ℕ) → All IsDigit ds → All IsDigit (increment_digits ds).0
unfolding increment_digits
increment_digits-IsDigit [] h = tt
increment_digits-IsDigit (d ∷ ds) h = ground (arith, increment_digits-IsDigit ds h.1)

-- With the carry spent the digits grew at a place of their own.
increment_digits-lt :
    (ds : List ℕ) → (increment_digits ds).1 ≡ false → lt_at ds (increment_digits ds).0 ≡ true
unfolding increment_digits lt_at
increment_digits-lt [] h = ground arith
increment_digits-lt (d ∷ ds) h = ground (arith, increment_digits-lt ds)

-- With the carry left they were the greatest of their length.
increment_digits-greatest :
    (ds es : List ℕ)
    → (increment_digits ds).1 ≡ true
    → All IsDigit es
    → length ds ≡ length es
    → lt_at ds es ≡ false
unfolding increment_digits lt_at
increment_digits-greatest [] es h k e = refl
increment_digits-greatest (d ∷ ds) [] h k e = refl
increment_digits-greatest (d ∷ ds) (x ∷ es) h k e =
    ground (arith, increment_digits-greatest ds es, k.0, k.1)

drop_one-IsDigit : (ds : List ℕ) → All IsDigit ds → All IsDigit (drop 1 ds)
drop_one-IsDigit [] h = tt
drop_one-IsDigit (d ∷ ds) h = h.1

length-drop_one : (ds : List ℕ) → length (drop 1 ds) + 1 ≡ max 1 (length ds)
length-drop_one [] = refl
length-drop_one (d ∷ ds) = omega arith

snoc-IsDigit : (ds : List ℕ) (d : ℕ) → All IsDigit ds → d < base → All IsDigit (ds ++ d ∷ [])
snoc-IsDigit ds d h k = All-append IsDigit ds (d ∷ []) h (k, tt)

increment_head-IsInteger :
    (head : ℕ) (ds : List ℕ) (carry : Bool) (above : List ℕ)
    → integer_length head ≡ ok (suc (length ds))
    → All IsDigit ds
    → increment_head head (ds, carry) ≡ some above
    → IsInteger above
unfolding increment_head integer_length
increment_head-IsInteger head ds true above n h e = ground (
  arith,
  drop_one-IsDigit ds h,
  length-drop_one ds,
  snoc-IsDigit ds 0 h,
  length-append ds (0 ∷ []),
)
increment_head-IsInteger head ds false above n h e = ground arith

increment_head-lt :
    (head : ℕ) (ds es above : List ℕ) (carry : Bool)
    → integer_length head ≡ ok (suc (length ds))
    → (carry ≡ false → lt_at ds es ≡ true)
    → increment_head head (es, carry) ≡ some above
    → lt_at (head ∷ ds) above ≡ true
unfolding increment_head integer_length lt_at
increment_head-lt head ds es above true n h e = ground arith
increment_head-lt head ds es above false n h e = ground (arith, h refl)

increment_head-greatest :
    (head : ℕ) (ds es : List ℕ) (carry : Bool) (xs : List ℕ)
    → integer_length head ≡ ok (suc (length ds))
    → IsInteger xs
    → (carry ≡ true → (ys : List ℕ) → All IsDigit ys → length ds ≡ length ys → lt_at ds ys ≡ false)
    → increment_head head (es, carry) ≡ none
    → lt_at (head ∷ ds) xs ≡ false
unfolding increment_head integer_length lt_at
increment_head-greatest head ds es false xs n k h e = ground arith
increment_head-greatest head ds es true [] n k h e = refl
increment_head-greatest head ds es true (x ∷ xs) n k h e = ground (arith, h refl xs k.1)

-- Counting up gives an integer part that is greater at a place both have.
pub increment_integer-above :
    (xs above : List ℕ)
    → IsInteger xs
    → increment_integer xs ≡ some above
    → IsInteger above × (lt_at xs above ≡ true)
unfolding increment_integer
increment_integer-above [] above h e = absurd h
increment_integer-above (head ∷ ds) above h e =
    let same = length-increment_digits ds in
    (
      increment_head-IsInteger head (increment_digits ds).0 (increment_digits ds).1 above
          (h.0 ∙ ap (λ (n : ℕ). ok (suc n)) (sym same)) (increment_digits-IsDigit ds h.1) e,
      increment_head-lt head ds (increment_digits ds).0 above (increment_digits ds).1 h.0
          (increment_digits-lt ds) e,
    )

-- Counting up fails only at an integer part that none is above.
pub increment_integer-greatest :
    (xs ys : List ℕ)
    → IsInteger xs
    → IsInteger ys
    → increment_integer xs ≡ none
    → lt_at xs ys ≡ false
unfolding increment_integer
increment_integer-greatest [] ys h k e = absurd h
increment_integer-greatest (head ∷ ds) ys h k e =
    increment_head-greatest head ds (increment_digits ds).0 (increment_digits ds).1 ys h.0 k
      (λ c zs. increment_digits-greatest ds zs c) e

length-decrement_digits : (ds : List ℕ) → length (decrement_digits ds).0 ≡ length ds
unfolding decrement_digits
length-decrement_digits [] = refl
length-decrement_digits (d ∷ ds) = ground (arith, length-decrement_digits ds)

decrement_digits-IsDigit : (ds : List ℕ) → All IsDigit ds → All IsDigit (decrement_digits ds).0
unfolding decrement_digits
decrement_digits-IsDigit [] h = tt
decrement_digits-IsDigit (d ∷ ds) h = ground (arith, decrement_digits-IsDigit ds h.1)

decrement_digits-lt :
    (ds : List ℕ) → (decrement_digits ds).1 ≡ false → lt_at (decrement_digits ds).0 ds ≡ true
unfolding decrement_digits lt_at
decrement_digits-lt [] h = ground arith
decrement_digits-lt (d ∷ ds) h = ground (arith, decrement_digits-lt ds)

-- With the borrow left the digits were all zero.
decrement_digits-zero :
    (ds : List ℕ) → (decrement_digits ds).1 ≡ true → ds ≡ replicate (length ds) 0
unfolding decrement_digits
decrement_digits-zero [] h = refl
decrement_digits-zero (d ∷ ds) h = ground (arith, decrement_digits-zero ds)

decrement_head-IsInteger :
    (head : ℕ) (ds : List ℕ) (borrow : Bool) (below : List ℕ)
    → integer_length head ≡ ok (suc (length ds))
    → All IsDigit ds
    → decrement_head head (ds, borrow) ≡ some below
    → IsInteger below
unfolding decrement_head integer_length
decrement_head-IsInteger head ds true below n h e = ground (
  arith,
  drop_one-IsDigit ds h,
  length-drop_one ds,
  snoc-IsDigit ds 61 h,
  length-append ds (61 ∷ []),
)
decrement_head-IsInteger head ds false below n h e = ground arith

decrement_head-lt :
    (head : ℕ) (ds es below : List ℕ) (borrow : Bool)
    → integer_length head ≡ ok (suc (length ds))
    → (borrow ≡ false → lt_at es ds ≡ true)
    → decrement_head head (es, borrow) ≡ some below
    → lt_at below (head ∷ ds) ≡ true
unfolding decrement_head integer_length lt_at
decrement_head-lt head ds es below true n h e = ground arith
decrement_head-lt head ds es below false n h e = ground (arith, h refl)

-- Counting down gives an integer part that is less at a place both have.
pub decrement_integer-below :
    (xs below : List ℕ)
    → IsInteger xs
    → decrement_integer xs ≡ some below
    → IsInteger below × (lt_at below xs ≡ true)
unfolding decrement_integer
decrement_integer-below [] below h e = absurd h
decrement_integer-below (head ∷ ds) below h e = (
  decrement_head-IsInteger head (decrement_digits ds).0 (decrement_digits ds).1 below
      (h.0 ∙ ap (λ (n : ℕ). ok (suc n)) (sym (length-decrement_digits ds)))
      (decrement_digits-IsDigit ds h.1) e,
  decrement_head-lt head ds (decrement_digits ds).0 below (decrement_digits ds).1 h.0
      (decrement_digits-lt ds) e,
)

decrement_head-smallest :
    (head : ℕ) (ds es : List ℕ) (borrow : Bool)
    → integer_length head ≡ ok (suc (length ds))
    → (borrow ≡ true → ds ≡ replicate (length ds) 0)
    → decrement_head head (es, borrow) ≡ none
    → head ∷ ds ≡ smallest_integer
unfolding decrement_head integer_length
decrement_head-smallest head ds es false n h e = ground arith
decrement_head-smallest head ds es true n h e =
    let ten : head ≡ 10 = ground arith in
    let size : length ds ≡ 26 = ground arith in ap₂ ◌∷◌ ten (h refl ∙ ap (λ k. replicate k 0) size)

-- Counting down fails only at the smallest integer part.
pub decrement_integer-smallest :
    (xs : List ℕ) → IsInteger xs → decrement_integer xs ≡ none → xs ≡ smallest_integer
unfolding decrement_integer
decrement_integer-smallest [] h e = absurd h
decrement_integer-smallest (head ∷ ds) h e =
    decrement_head-smallest head ds (decrement_digits ds).0 (decrement_digits ds).1 h.0
      (decrement_digits-zero ds) e
