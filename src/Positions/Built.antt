-- ===== src/Positions/Built.antt =====
-- core/positions.js: the keys that `keyBetween` puts together from parts are keys.
use lazy_storage.Base.{
  ℕ, ◌≡◌, refl, sym, ◌⊎◌, inl, inr, true, false, List, [], ◌++◌, arith, Bool-cases,
}
use mathlib.Core.List.{append-nil}
use lazy_storage.Positions.Keys.{list_eq}
use lazy_storage.Positions.Valid.{IsKey, list_eq_iff}
use lazy_storage.Positions.Between.{IsAbove}
use lazy_storage.Positions.Digits.{lt_at, str_lt, str_lt-append_of_lt_at}
use lazy_storage.Positions.Integer.{IsInteger, smallest_integer}
use lazy_storage.Positions.Midpoint.{ends_in_zero}

-- A key, or the smallest integer part alone, which `assertKey` refuses.
abbrev pub IsKeyOrFloor : List ℕ → Type 0
IsKeyOrFloor key = IsKey key ⊎ (key ≡ smallest_integer)

pub IsKey-append : (integer a m : List ℕ) → IsInteger integer → IsAbove a m → IsKey (integer ++ m)
IsKey-append integer a m h k = record {
  integer = integer;
  fraction = m;
  joined = refl;
  integer_ok = h;
  fraction_ok = record { digits = k.digits; whole = k.whole };
  in_range = ground (arith, k.some_digit);
}

pub IsKey-integer :
    (integer : List ℕ)
    → IsInteger integer
    → list_eq integer smallest_integer ≡ false
    → IsKey integer
unfolding ends_in_zero
IsKey-integer integer h k = record {
  integer = integer;
  fraction = [];
  joined = sym (append-nil integer);
  integer_ok = h;
  fraction_ok = record { digits = tt; whole = refl };
  in_range = rw k;
}

pub IsKeyOrFloor-integer : (integer : List ℕ) → IsInteger integer → IsKeyOrFloor integer
IsKeyOrFloor-integer integer h = elim (Bool-cases (list_eq integer smallest_integer)) [
  | inl e ↦ inr ((list_eq_iff integer smallest_integer).0 e)
  | inr e ↦ inl (IsKey-integer integer h e)
]

pub str_lt_of_lt_at : (xs ys us : List ℕ) → lt_at xs ys ≡ true → str_lt xs (ys ++ us) ≡ true
str_lt_of_lt_at xs ys us h = rw (append-nil xs) at (str_lt-append_of_lt_at xs ys [] us h)
