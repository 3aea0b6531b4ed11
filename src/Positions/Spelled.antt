-- ===== src/Positions/Spelled.antt =====
-- core/positions.js: `assertKey` on strings: it passes those that spell a key, and throws a TypeError
-- otherwise.
use mathlib.Core.Path.{ap₂}
use lazy_storage.Base.{
  ℕ, ◌≡◌, refl, sym, inl, inr, true, false, List, [], ◌∷◌, map, arith, Option-cases, All,
  All-append, >>=-eq-ok, Result-cases, ok, err,
}
use lazy_storage.Positions.Keys.{read_digits, is_position_key, assert_key, assert_digits}
use lazy_storage.Positions.Valid.{
  IsKey, IsInteger-digits, IsKey-of_assert_digits, assert_digits_of_IsKey,
}
use lazy_storage.Positions.Digits.{
  IsDigit, digit_char, digit_index-digit_char, digit_index, digit_index-lt,
}
use lazy_storage.Positions.Integer.{integer_length, type_error, KeyError, integer_part}

read_digits-IsDigit :
    (cs : List ℕ) {ds : List ℕ} → read_digits cs ≡ ok ds → All IsDigit ds × (map digit_char ds ≡ cs)
unfolding read_digits
read_digits-IsDigit [] {ds} e = ground arith
read_digits-IsDigit (c ∷ cs) {ds} e = elim (Option-cases (digit_index c)) [
  | inl n ↦ absurd (ground arith)
  | inr (d, s) ↦
      let (rest, read, joined) =
        >>=-eq-ok (read_digits cs) (λ ds. ok (d ∷ ds)) (rw (s, read_digits) at e) in
      let (digits, text) = read_digits-IsDigit cs read in
      let (small, char) = digit_index-lt c d s in
      let all : d ∷ rest ≡ ds = ground arith in rw (← all) ((small, digits), ap₂ ◌∷◌ char text)
]

read_digits-map : (ds : List ℕ) → All IsDigit ds → read_digits (map digit_char ds) ≡ ok ds
unfolding read_digits
read_digits-map [] h = refl
read_digits-map (d ∷ ds) h = ground (arith, digit_index-digit_char d h.0, read_digits-map ds h.1)

pub IsKey-digits : (key : List ℕ) → IsKey key → All IsDigit key
IsKey-digits key k = rw k.joined (
    All-append IsDigit k.integer k.fraction (IsInteger-digits k.integer k.integer_ok)
      k.fraction_ok.digits)

-- What `assertKey` has read is a key, and the string spells it.
pub record Spells (text key : List ℕ) : Type 0 where
  pub valid : IsKey key
  pub spelled : text ≡ map digit_char key

assert_key_of_chars :
    (c : ℕ) (cs key : List ℕ)
    → read_digits (c ∷ cs) ≡ ok key
    → assert_digits key ≡ ok tt
    → Spells (c ∷ cs) key
assert_key_of_chars c cs key e f =
    let (digits, text) = read_digits-IsDigit (c ∷ cs) e in
    record { valid = IsKey-of_assert_digits key digits f; spelled = sym text }

pub assert_key-Spells :
    (text : List ℕ)
    → is_position_key text ≡ true
    → (key : List ℕ) × (assert_key text ≡ ok key) × Spells text key
unfolding is_position_key assert_key
assert_key-Spells [] h = cc
assert_key-Spells (c ∷ cs) h = elim (Result-cases (read_digits (c ∷ cs))) [
  | inr (x, e) ↦ absurd (ground arith)
  | inl (key, e) ↦ elim (Result-cases (assert_digits key)) [
    | inr (x, f) ↦ absurd (ground arith)
    | inl (u, f) ↦ (key, rw (e, f), assert_key_of_chars c cs key e f)
  ]
]

pub is_position_key_of_IsKey :
    (key : List ℕ) → IsKey key → is_position_key (map digit_char key) ≡ true
unfolding is_position_key assert_key assert_digits
is_position_key_of_IsKey [] k = absurd (ground (arith, assert_digits_of_IsKey [] k))
is_position_key_of_IsKey (d ∷ ds) k =
    ground
      (arith, read_digits-map (d ∷ ds) (IsKey-digits (d ∷ ds) k), assert_digits_of_IsKey (d ∷ ds) k)

read_digits-error : (cs : List ℕ) (e : KeyError) → read_digits cs ≡ err e → e ≡ type_error
unfolding read_digits
read_digits-error [] e h = absurd (cc)
read_digits-error (c ∷ cs) e h = ground (arith, read_digits-error cs e)

integer_part-error : (key : List ℕ) (e : KeyError) → integer_part key ≡ err e → e ≡ type_error
unfolding integer_part integer_length
integer_part-error [] e h = ground arith
integer_part-error (head ∷ rest) e h = ground arith

assert_digits-error : (key : List ℕ) (e : KeyError) → assert_digits key ≡ err e → e ≡ type_error
unfolding assert_digits
assert_digits-error key e h = ground (arith, integer_part-error key e)

-- `assertKey` throws a TypeError or nothing.
pub assert_key-error :
    (text : List ℕ) → is_position_key text ≡ false → assert_key text ≡ err type_error
unfolding is_position_key assert_key
assert_key-error [] h = refl
assert_key-error (c ∷ cs) h = elim (Result-cases (read_digits (c ∷ cs))) [
  | inr (x, e) ↦ ground (arith, read_digits-error (c ∷ cs) x)
  | inl (key, e) ↦ elim (Result-cases (assert_digits key)) [
    | inr (x, f) ↦ ground (arith, assert_digits-error key x)
    | inl (u, f) ↦ absurd (ground arith)
  ]
]
