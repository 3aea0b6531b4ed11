-- ===== src/Positions/Over.antt =====
-- core/positions.js: `keyBetween(a, null)` does not throw, and makes a key above `a`.
use mathlib.Core.Path.{subst}
use lazy_storage.Base.{
  ℕ, zero, suc, ◌≡◌, refl, sym, ◌∙◌, inl, inr, true, false, some, List, [], ◌∷◌, ◌++◌, arith,
  Bool-cases, Option-cases, replicate, drop-append_left, Returns,
}
use mathlib.Core.List.{append-nil}
use lazy_storage.Positions.Keys.{list_eq, key_above}
use lazy_storage.Positions.Valid.{IsKey, list_eq_iff, integer_part-append}
use lazy_storage.Positions.Between.{IsFraction, midpoint_open-IsAbove}
use lazy_storage.Positions.Digits.{lt_at, str_lt, str_lt-append_of_lt_at, str_lt-append_same}
use lazy_storage.Positions.Integer.{IsInteger, smallest_integer, integer_length, increment_integer}
use lazy_storage.Positions.Midpoint.{midpoint_open}
use lazy_storage.Positions.Counting.{increment_integer-above}
use lazy_storage.Positions.Built.{IsKey-append, IsKey-integer}

lt_at-zeros : (ds : List ℕ) (n : ℕ) → lt_at ds (replicate n 0) ≡ false
unfolding lt_at
lt_at-zeros [] zero = refl
lt_at-zeros [] (suc n) = refl
lt_at-zeros (d ∷ ds) zero = refl
lt_at-zeros (d ∷ ds) (suc n) = ground (arith, lt_at-zeros ds n)

-- No integer part is below the smallest.
lt_at-smallest : (xs : List ℕ) → IsInteger xs → lt_at xs smallest_integer ≡ false
unfolding lt_at integer_length
lt_at-smallest [] h = absurd h
lt_at-smallest (head ∷ ds) h = ground (arith, lt_at-zeros ds 26)

above-IsKey :
    (integer above : List ℕ)
    → IsInteger integer
    → IsInteger above
    → lt_at integer above ≡ true
    → IsKey above
above-IsKey integer above h k l = elim (Bool-cases (list_eq above smallest_integer)) [
  | inl e ↦
      let same = (list_eq_iff above smallest_integer).0 e in
      absurd (ground (arith, same, lt_at-smallest integer h, rw same at l))
  | inr e ↦ IsKey-integer above k e
]

-- What `keyBetween(a, null)` returns.
abbrev pub IsOver : List ℕ → List ℕ → Type 0
IsOver a r = IsKey r × (str_lt a r ≡ true)

module _ (integer fraction : List ℕ) (h : IsInteger integer) (k : IsFraction fraction) where
  -- The same integer part and a greater fraction.
  pub IsOver-open : IsOver (integer ++ fraction) (integer ++ midpoint_open fraction)
  IsOver-open =
      let w = midpoint_open-IsAbove fraction k.digits in
      (
        IsKey-append integer fraction (midpoint_open fraction) h w,
        str_lt-append_same integer fraction (midpoint_open fraction) ∙ w.above,
      )

  -- The next integer part.
  pub IsOver-counted :
      (above : List ℕ) → increment_integer integer ≡ some above → IsOver (integer ++ fraction) above
  IsOver-counted above e =
      let (valid, lt) = increment_integer-above integer above h e in
      (
        above-IsKey integer above h valid lt,
        rw (append-nil above) at (str_lt-append_of_lt_at integer above fraction [] lt),
      )

  pub key_above-append : Returns (IsOver (integer ++ fraction)) (key_above (integer ++ fraction))
  unfolding key_above
  key_above-append =
      rw (integer_part-append integer fraction h, drop-append_left integer fraction)
        (elim (Option-cases (increment_integer integer)) [
          | inl e ↦ rw e IsOver-open
          | inr (above, e) ↦ rw e (IsOver-counted above e)
        ])

pub key_above-IsOver : (a : List ℕ) → IsKey a → Returns (IsOver a) (key_above a)
key_above-IsOver a k =
    subst (λ x. Returns (IsOver x) (key_above x)) (sym k.joined)
      (key_above-append k.integer k.fraction k.integer_ok k.fraction_ok)
