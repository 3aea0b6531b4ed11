-- ===== src/Positions/Promise.antt =====
-- core/positions.js: what `keyBetween` promises, on strings: between two position keys it makes a
-- third, and what it throws otherwise.
use lazy_storage.Base.{
  ℕ, ◌≡◌, refl, sym, ap, ◌∙◌, ◌⊎◌, inl, inr, true, false, ◌&&◌, Option, none, some, List, ◌∷◌, map,
  arith, if◌then◌else◌, Bool-cases, replicate, All, Returns, Returns-bind, ok, err,
}
use lazy_storage.Positions.Keys.{
  is_position_key, key_between, assert_bound, digits_between, key_below, key_above, key_inside,
}
use lazy_storage.Positions.Digits.{IsDigit, digit_char, digit_index, str_lt, str_lt-map}
use lazy_storage.Positions.Inside.{IsInside, key_inside-IsInside}
use lazy_storage.Positions.Over.{IsOver, key_above-IsOver}
use lazy_storage.Positions.Under.{IsUnder, key_below-IsUnder}
use lazy_storage.Positions.Integer.{integer_length, zero_key, range_error, type_error}
use lazy_storage.Positions.Spelled.{
  assert_key-Spells, Spells, IsKey-digits, is_position_key_of_IsKey, assert_key-error,
}

-- The string 'A' followed by 26 zeros.
abbrev pub floor_key : List ℕ
floor_key = 65 ∷ replicate 26 48

-- A bound that is a position key, or no bound.
abbrev pub IsBound : Option (List ℕ) → Type 0
IsBound none = Unit
IsBound (some key) = is_position_key key ≡ true

-- In string order, where both bounds are there.
abbrev pub InOrder : Option (List ℕ) → Option (List ℕ) → Type 0
InOrder (some a) (some b) = str_lt a b ≡ true
InOrder _ _ = Unit

-- A key made with a lower bound, or with no bound, is a position key. One made below an upper bound
-- alone is a position key or the string 'A000…', which is none.
abbrev pub IsMade : Option (List ℕ) → Option (List ℕ) → List ℕ → Type 0
IsMade none (some b) key = (is_position_key key ≡ true) ⊎ (key ≡ floor_key)
IsMade _ _ key = is_position_key key ≡ true

pub record IsAnswer (a b : Option (List ℕ)) (key : List ℕ) : Type 0 where
  pub lower : InOrder a (some key)
  pub upper : InOrder (some key) b
  pub made : IsMade a b key

spelled-lt : (s t x y : List ℕ) → Spells s x → Spells t y → str_lt s t ≡ str_lt x y
spelled-lt s t x y h k =
    rw (h.spelled, k.spelled) (str_lt-map x y (IsKey-digits x h.valid) (IsKey-digits y k.valid))

text-lt :
    (s x y : List ℕ)
    → Spells s x
    → All IsDigit y
    → str_lt x y ≡ true
    → str_lt s (map digit_char y) ≡ true
text-lt s x y h k l = rw h.spelled (str_lt-map x y (IsKey-digits x h.valid) k ∙ l)

lt-text :
    (s x y : List ℕ)
    → Spells s x
    → All IsDigit y
    → str_lt y x ≡ true
    → str_lt (map digit_char y) s ≡ true
lt-text s x y h k l = rw h.spelled (str_lt-map y x k (IsKey-digits x h.valid) ∙ l)

over-IsAnswer :
    (s x : List ℕ)
    → Spells s x
    → (r : List ℕ) → IsOver x r
    → IsAnswer (some s) none (map digit_char r)
over-IsAnswer s x h r w = record {
  lower = text-lt s x r h (IsKey-digits r w.0) w.1;
  upper = tt;
  made = is_position_key_of_IsKey r w.0;
}

inside-IsAnswer :
    (s t x y : List ℕ)
    → Spells s x
    → Spells t y
    → (r : List ℕ) → IsInside x y r
    → IsAnswer (some s) (some t) (map digit_char r)
inside-IsAnswer s t x y h k r w = record {
  lower = text-lt s x r h (IsKey-digits r w.0.0) w.0.1;
  upper = lt-text t y r k (IsKey-digits r w.0.0) w.1;
  made = is_position_key_of_IsKey r w.0.0;
}

under-IsAnswer :
    (t y : List ℕ)
    → Spells t y
    → (r : List ℕ) → IsUnder y r
    → IsAnswer none (some t) (map digit_char r)
under-IsAnswer t y k r (inl v, l) = record {
  lower = tt;
  upper = lt-text t y r k (IsKey-digits r v) l;
  made = inl (is_position_key_of_IsKey r v);
}
under-IsAnswer t y k r (inr e, l) = record {
  lower = tt;
  upper = lt-text t y r k (rw e (omega arith)) l;
  made = inr (unfold digit_char in ap (map digit_char) e);
}

zero_key-IsAnswer : IsAnswer none none (map digit_char zero_key)
unfolding is_position_key digit_index digit_char integer_length
zero_key-IsAnswer = record { lower = tt; upper = tt; made = refl }

-- For position keys `a` and `b`, or none on either side, with `a` below `b` where both are there:
-- `keyBetween(a, b)` returns (it throws nothing), the string that it returns is above `a` and below
-- `b`, and it is a position key itself, but that below an upper bound alone it may be 'A000…'.
pub key_between-IsAnswer :
    (a b : Option (List ℕ))
    → IsBound a
    → IsBound b
    → InOrder a b
    → Returns (IsAnswer a b) (key_between a b)
unfolding key_between assert_bound digits_between
key_between-IsAnswer none none h k l = zero_key-IsAnswer
key_between-IsAnswer none (some t) h k l =
    let (y, read, s) = assert_key-Spells t k in
    rw read (
      Returns-bind (IsUnder y) (IsAnswer none (some t)) (key_below y)
        (λ key. ok (map digit_char key)) (key_below-IsUnder y s.valid) (under-IsAnswer t y s))
key_between-IsAnswer (some s) none h k l =
    let (x, read, m) = assert_key-Spells s h in
    rw read (
      Returns-bind (IsOver x) (IsAnswer (some s) none) (key_above x)
        (λ key. ok (map digit_char key)) (key_above-IsOver x m.valid) (over-IsAnswer s x m))
key_between-IsAnswer (some s) (some t) h k l =
    let (x, read, m) = assert_key-Spells s h in
    let (y, read', m') = assert_key-Spells t k in
    let lt : str_lt x y ≡ true = sym (spelled-lt s t x y m m') ∙ l in
    rw (read, read', lt)
      (Returns-bind (IsInside x y) (IsAnswer (some s) (some t)) (key_inside x y)
        (λ key. ok (map digit_char key)) (key_inside-IsInside x y m.valid m'.valid lt)
        (inside-IsAnswer s t x y m m'))

-- With two bounds that are not two position keys in ascending order `keyBetween` throws: a RangeError
-- if both are position keys, a TypeError if one is not.
pub key_between-throws :
    (a b : List ℕ)
    → (is_position_key a && is_position_key b && str_lt a b) ≡ false
    → key_between (some a) (some b)
      ≡ err (if is_position_key a && is_position_key b then range_error else type_error)
unfolding key_between assert_bound digits_between
key_between-throws a b h = elim (Bool-cases (is_position_key a)) [
  | inr e ↦ rw (assert_key-error a e, e) refl
  | inl e ↦
      let (x, read, s) = assert_key-Spells a e in
      elim (Bool-cases (is_position_key b)) [
        | inr f ↦ rw (read, assert_key-error b f, e, f) refl
        | inl f ↦
            let (y, read', t) = assert_key-Spells b f in
            let lt : str_lt x y ≡ false = sym (spelled-lt a b x y s t) ∙ (rw (e, f) at h) in
            rw (read, read', lt, e, f) refl
      ]
]
