-- ===== src/Positions/Under.antt =====
-- core/positions.js: `keyBetween(null, b)` does not throw, and makes a key below `b`.
use mathlib.Core.Path.{subst}
use lazy_storage.Base.{
  ℕ, ◌≡◌, refl, sym, ◌∙◌, inl, inr, true, false, ◌&&◌, List, [], ◌++◌, arith, Bool-cases,
  Option-cases, drop-append_left, ◌>>=◌, Returns, Returns-bind, ok,
}
use lazy_storage.Positions.Keys.{list_eq, key_below, or_range_error}
use lazy_storage.Positions.Valid.{list_eq_iff, integer_part-append, IsKey}
use lazy_storage.Positions.Between.{IsFraction, IsMidway, midpoint-IsMidway, str_lt-nonempty}
use lazy_storage.Positions.Digits.{str_lt, str_lt-append_same}
use lazy_storage.Positions.Integer.{IsInteger, smallest_integer, decrement_integer}
use lazy_storage.Positions.Midpoint.{ends_in_zero, is_empty, midpoint}
use lazy_storage.Positions.Counting.{decrement_integer-smallest, decrement_integer-below}
use lazy_storage.Positions.Built.{
  IsKey-append, IsKey-integer, IsKeyOrFloor-integer, IsKeyOrFloor, str_lt_of_lt_at,
}

-- What `keyBetween(null, b)` returns.
abbrev pub IsUnder : List ℕ → List ℕ → Type 0
IsUnder b r = IsKeyOrFloor r × (str_lt r b ≡ true)

module _ (integer fraction : List ℕ) (h : IsInteger integer) (k : IsFraction fraction) where
  below_smallest :
      list_eq integer smallest_integer ≡ true
      → (list_eq integer smallest_integer && is_empty fraction) ≡ false
      → Returns (IsUnder (integer ++ fraction)) (midpoint [] fraction >>= λ m. ok (integer ++ m))
  below_smallest e r =
      Returns-bind (IsMidway [] fraction) (IsUnder (integer ++ fraction)) (midpoint [] fraction)
        (λ m. ok (integer ++ m))
        (midpoint-IsMidway [] fraction empty_fraction k (ground (arith, nonempty)))
        (λ m w. (
          inl (IsKey-append integer [] m h w.lower),
          str_lt-append_same integer m fraction ∙ w.upper,
        ))
    where
      empty_fraction : IsFraction []
      empty_fraction = unfold ends_in_zero in record { digits = tt; whole = refl }

      nonempty : str_lt [] fraction ≡ true
      nonempty = str_lt-nonempty fraction (ground arith)

  below_counted :
      list_eq integer smallest_integer ≡ false
      → Returns (IsUnder (integer ++ fraction)) (or_range_error (decrement_integer integer))
  unfolding or_range_error
  below_counted e = elim (Option-cases (decrement_integer integer)) [
    | inl n ↦ absurd (
        ground
          (arith, decrement_integer-smallest integer h n, list_eq_iff integer smallest_integer))
    | inr (below, s) ↦
        let (valid, lt) = decrement_integer-below integer below h s in
        rw s (IsKeyOrFloor-integer below valid, str_lt_of_lt_at below integer fraction lt)
  ]

  key_below-append :
      (list_eq integer smallest_integer && is_empty fraction) ≡ false
      → Returns (IsUnder (integer ++ fraction)) (key_below (integer ++ fraction))
  unfolding key_below
  key_below-append r =
      rw (integer_part-append integer fraction h, drop-append_left integer fraction)
        (elim (Bool-cases (list_eq integer smallest_integer)) [
          | inl e ↦ rw e (below_smallest e r)
          | inr e ↦ rw e (elim (Bool-cases (str_lt integer (integer ++ fraction))) [
            | inl l ↦ rw l (inl (IsKey-integer integer h e), l)
            | inr l ↦ rw l (below_counted e)
          ])
        ])

pub key_below-IsUnder : (b : List ℕ) → IsKey b → Returns (IsUnder b) (key_below b)
key_below-IsUnder b k =
    subst (λ x. Returns (IsUnder x) (key_below x)) (sym k.joined)
      (key_below-append k.integer k.fraction k.integer_ok k.fraction_ok k.in_range)
