-- ===== src/Positions/Inside.antt =====
-- core/positions.js: `keyBetween(a, b)` does not throw, and makes a key strictly between them.
use mathlib.Core.Path.{subst₂}
use mathlib.Core.Path.{ap₂}
use mathlib.Core.Bool.{false≢true}
use lazy_storage.Base.{
  ℕ, ◌≡◌, sym, ap, ◌∙◌, ◌≢◌, inl, inr, true, false, List, [], ◌∷◌, ◌++◌, arith, ◌==◌, if◌then◌else◌,
  ==_iff, Bool-cases, Option-cases, length, drop-append_left, ◌>>=◌, Returns, Returns-bind, ok,
}
use lazy_storage.Positions.Keys.{list_eq, or_range_error, key_inside}
use lazy_storage.Positions.Valid.{list_eq_iff, integer_part-append, IsKey}
use lazy_storage.Positions.Between.{IsFraction, IsMidway, midpoint-IsMidway, midpoint-nil}
use lazy_storage.Positions.Digits.{
  lt_at, str_lt, str_lt-append_of_lt_at, str_lt-append_same, lt_at_of_ne,
}
use lazy_storage.Positions.Integer.{IsInteger, integer_length, increment_integer}
use lazy_storage.Positions.Midpoint.{midpoint, midpoint_open}
use lazy_storage.Positions.Counting.{increment_integer-greatest}
use lazy_storage.Positions.Built.{IsKey-append}
use lazy_storage.Positions.Over.{IsOver, IsOver-counted, IsOver-open}

-- What `keyBetween(a, b)` returns.
abbrev pub IsInside : List ℕ → List ℕ → List ℕ → Type 0
IsInside a b r = IsOver a r × (str_lt r b ≡ true)

heads-lt :
    (ia fa ib fb : List ℕ)
    → IsInteger ia
    → IsInteger ib
    → ia ≢ ib
    → str_lt (ia ++ fa) (ib ++ fb) ≡ true
    → lt_at ia ib ≡ true
unfolding str_lt lt_at
heads-lt [] fa ib fb h k n l = absurd h
heads-lt (x ∷ xs) fa [] fb h k n l = absurd k
heads-lt (x ∷ xs) fa (y ∷ ys) fb h k n l = elim (Bool-cases (x == y)) [
  | inl e ↦
      let same : x ≡ y = (==_iff x y).0 e in
      let size : length xs ≡ length ys = ground (arith, ap integer_length same) in
      rw e (lt_at_of_ne xs ys fa fb size (λ q. n (ap₂ ◌∷◌ same q)) (rw e at l))
  | inr e ↦ rw e (rw e at l)
]

module _ (ia fa ib fb : List ℕ) (h : IsInteger ia) (k : IsFraction fa) (h' : IsInteger ib)
    (k' : IsFraction fb) where
  lower_rest : ia ≡ ib → str_lt (ia ++ fa) (ib ++ fb) ≡ true → str_lt fa fb ≡ true
  lower_rest e l =
      sym (str_lt-append_same ia fa fb) ∙ ap (λ (xs : List ℕ). str_lt (ia ++ fa) (xs ++ fb)) e ∙ l

  IsInside-same :
      ia ≡ ib
      → str_lt (ia ++ fa) (ib ++ fb) ≡ true
      → Returns (IsInside (ia ++ fa) (ib ++ fb)) (midpoint fa fb >>= λ m. ok (ia ++ m))
  IsInside-same e l =
      Returns-bind (IsMidway fa fb) (IsInside (ia ++ fa) (ib ++ fb)) (midpoint fa fb)
        (λ m. ok (ia ++ m)) (midpoint-IsMidway fa fb k k' (lower_rest e l))
        (λ m w. (
          (IsKey-append ia fa m h w.lower, str_lt-append_same ia fa m ∙ w.lower.above),
          ap (λ (xs : List ℕ). str_lt (ia ++ m) (xs ++ fb)) (sym e)
              ∙ str_lt-append_same ia m fb
              ∙ w.upper,
        ))

  -- Different integer parts differ at a place that both have.
  integers-lt : list_eq ia ib ≡ false → str_lt (ia ++ fa) (ib ++ fb) ≡ true → lt_at ia ib ≡ true
  integers-lt n l = heads-lt ia fa ib fb h h' (λ e. false≢true (sym n ∙ (list_eq_iff ia ib).1 e)) l

  IsInside-counted :
      lt_at ia ib ≡ true
      → Returns (IsInside (ia ++ fa) (ib ++ fb)) (
          or_range_error (increment_integer ia) >>= λ above.
          if str_lt above (ib ++ fb) then ok above else (midpoint fa [] >>= λ m. ok (ia ++ m)))
  unfolding or_range_error
  IsInside-counted l = elim (Option-cases (increment_integer ia)) [
    | inl e ↦ absurd (ground (arith, increment_integer-greatest ia ib h h' e))
    | inr (above, e) ↦ rw e (elim (Bool-cases (str_lt above (ib ++ fb))) [
      | inl t ↦ rw t (IsOver-counted ia fa h k above e, t)
      | inr t ↦
          rw (t, midpoint-nil fa)
            (IsOver-open ia fa h k, str_lt-append_of_lt_at ia ib (midpoint_open fa) fb l)
    ])
  ]

  pub key_inside-append :
      str_lt (ia ++ fa) (ib ++ fb) ≡ true
      → Returns (IsInside (ia ++ fa) (ib ++ fb)) (key_inside (ia ++ fa) (ib ++ fb))
  unfolding key_inside
  key_inside-append l =
      rw (integer_part-append ia fa h, integer_part-append ib fb h')
        (elim (Bool-cases (list_eq ia ib)) [
          | inl e ↦
              rw (e, drop-append_left ia fa, drop-append_left ib fb)
                (IsInside-same ((list_eq_iff ia ib).0 e) l)
          | inr e ↦ rw (e, drop-append_left ia fa) (IsInside-counted (integers-lt e l))
        ])

pub key_inside-IsInside :
    (a b : List ℕ) → IsKey a → IsKey b → str_lt a b ≡ true → Returns (IsInside a b) (key_inside a b)
key_inside-IsInside a b k k' l =
    subst₂ (λ x y. str_lt x y ≡ true → Returns (IsInside x y) (key_inside x y)) (sym k.joined)
      (sym k'.joined)
      (key_inside-append k.integer k.fraction k'.integer k'.fraction k.integer_ok k.fraction_ok
        k'.integer_ok k'.fraction_ok)
      l
