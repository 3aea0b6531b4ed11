-- ===== src/Positions/Valid.antt =====
-- core/positions.js: a key that `assertKey` passes is an integer part and a fraction, and back.
use lazy_storage.Base.{
  ℕ, zero, suc, ◌≤◌, ◌<◌, ◌≡◌, refl, sym, ap, ◌∙◌, ◌↔◌, true, false, ◌&&◌, List, [], ◌∷◌, ◌++◌,
  arith, ltb, if◌then◌else◌, length, take, drop, All, length-append, take-append-drop,
  length-take_of_le, take-append_left, drop-append_left, All-take, All-drop, >>=-eq-ok, ok, err,
}
use lazy_storage.Positions.Keys.{list_eq, assert_digits}
use lazy_storage.Positions.Digits.{IsDigit}
use lazy_storage.Positions.Integer.{
  integer_length, integer_part, IsInteger, type_error, smallest_integer,
}
use lazy_storage.Positions.Between.{IsFraction}
use lazy_storage.Positions.Midpoint.{is_empty}

pub list_eq_iff : (xs ys : List ℕ) → (list_eq xs ys ≡ true) ↔ (xs ≡ ys)
list_eq_iff [] [] = (λ _. refl, λ _. refl)
list_eq_iff [] (y ∷ ys) = (λ h. cc, λ h. cc)
list_eq_iff (x ∷ xs) [] = (λ h. cc, λ h. cc)
list_eq_iff (x ∷ xs) (y ∷ ys) =
    (λ h. ground (arith, list_eq_iff xs ys), λ h. ground (arith, list_eq_iff xs ys))

-- A key over digits: an integer part, and a fraction unless the integer part is the smallest.
pub record IsKey (key : List ℕ) : Type 0 where
  pub integer : List ℕ
  pub fraction : List ℕ
  pub joined : key ≡ integer ++ fraction
  pub integer_ok : IsInteger integer
  pub fraction_ok : IsFraction fraction
  pub in_range : (list_eq integer smallest_integer && is_empty fraction) ≡ false

pub integer_part-append :
    (integer fraction : List ℕ)
    → IsInteger integer
    → integer_part (integer ++ fraction) ≡ ok integer
unfolding integer_part
integer_part-append [] fraction h = absurd h
integer_part-append (head ∷ rest) fraction h =
    rw h.0 (rw (fits, take-append_left rest fraction) refl)
  where
    fits : ltb (suc (length (rest ++ fraction))) (suc (length rest)) ≡ false
    fits = ground (arith, length-append rest fraction)

pub IsInteger-digits : (xs : List ℕ) → IsInteger xs → All IsDigit xs
unfolding integer_length
IsInteger-digits [] h = absurd h
IsInteger-digits (head ∷ rest) h = (ground arith, h.1)

pub assert_digits_of_IsKey : (key : List ℕ) → IsKey key → assert_digits key ≡ ok tt
unfolding assert_digits
assert_digits_of_IsKey key k = rw k.joined (
    rw
      (
        integer_part-append k.integer k.fraction k.integer_ok,
        drop-append_left k.integer k.fraction,
        k.fraction_ok.whole,
        k.in_range,
      )
      refl)

take_head-IsInteger :
    (head n : ℕ) (rest : List ℕ)
    → integer_length head ≡ ok (suc n)
    → All IsDigit rest
    → n ≤ length rest
    → IsInteger (head ∷ take n rest)
take_head-IsInteger head n rest e h k =
    (e ∙ ap (λ (m : ℕ). ok (suc m)) (sym (length-take_of_le n rest k)), All-take IsDigit n rest h)

integer_length-pos : (head n : ℕ) → integer_length head ≡ ok n → 0 < n
unfolding integer_length
integer_length-pos head n e = ground arith

-- What `integerPart` cuts off.
IsInteger-part-cut :
    (head n : ℕ) (rest integer : List ℕ)
    → All IsDigit rest
    → integer_length head ≡ ok n
    → (if ltb (suc (length rest)) n then err type_error else ok (take n (head ∷ rest))) ≡ ok integer
    → IsInteger integer × (integer ++ drop (length integer) (head ∷ rest) ≡ head ∷ rest)
IsInteger-part-cut head zero rest integer h e f =
    absurd (omega (arith, integer_length-pos head 0 e))
IsInteger-part-cut head (suc n) rest integer h e f =
    let enough : n ≤ length rest = ground arith in
    let cut : head ∷ take n rest ≡ integer = ground arith in
    rw (← cut) (
      take_head-IsInteger head n rest e h enough,
      ap (◌∷◌ head) (rw (length-take_of_le n rest enough) (take-append-drop n rest)),
    )

pub integer_part-IsInteger :
    (key : List ℕ) {integer : List ℕ}
    → All IsDigit key
    → integer_part key ≡ ok integer
    → IsInteger integer × (integer ++ drop (length integer) key ≡ key)
unfolding integer_part
integer_part-IsInteger [] h e = absurd (cc)
integer_part-IsInteger (head ∷ rest) {integer} h e =
    let (n, length_ok, rest_ok) = >>=-eq-ok (integer_length head) _ e in
    IsInteger-part-cut head n rest integer h.1 length_ok rest_ok

pub IsKey-of_assert_digits :
    (key : List ℕ) → All IsDigit key → assert_digits key ≡ ok tt → IsKey key
unfolding assert_digits
IsKey-of_assert_digits key h e =
    let (integer, part, checked) = >>=-eq-ok (integer_part key) _ e in
    let (integer_ok, joined) = integer_part-IsInteger key h part in
    record {
      integer = integer;
      fraction = drop (length integer) key;
      joined = sym joined;
      integer_ok = integer_ok;
      fraction_ok = record {
        digits = All-drop IsDigit (length integer) key h;
        whole = ground arith;
      };
      in_range = ground arith;
    }
