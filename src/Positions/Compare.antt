-- ===== src/Positions/Compare.antt =====
-- core/positions.js: `comparePositions`, the order of a list's records.
use lazy_storage.Base.{
  ℕ, ◌≡◌, refl, inl, inr, true, false, Option, none, some, List, arith, if◌then◌else◌, Bool-cases,
}
use lazy_storage.Positions.Digits.{str_lt-connex, str_lt_trans, str_lt, str_lt_irrefl}

-- -1, 0 and 1.
pub data Sign : Type 0 where
  minus nought plus : Sign

abbrev pub flip : Sign → Sign
flip minus = plus
flip nought = nought
flip plus = minus

-- `idA < idB ? -1 : idA > idB ? 1 : 0`
unfoldable pub compare_ids : List ℕ → List ℕ → Sign
compare_ids a b = if str_lt a b then minus else if str_lt b a then plus else nought

-- A position that is no string is `none`.
unfoldable pub compare_positions : Option (List ℕ) → List ℕ → Option (List ℕ) → List ℕ → Sign
unfolding compare_ids
compare_positions (some a) id_a (some b) id_b =
    if str_lt a b then minus else if str_lt b a then plus else compare_ids id_a id_b
compare_positions (some a) id_a none id_b = minus
compare_positions none id_a (some b) id_b = plus
compare_positions none id_a none id_b = compare_ids id_a id_b

str_lt-asymm : (a b : List ℕ) → str_lt a b ≡ true → str_lt b a ≡ false
str_lt-asymm a b h = elim (Bool-cases (str_lt b a)) [
  | inl k ↦ absurd (ground (arith, str_lt_trans a b a h k, str_lt_irrefl a))
  | inr k ↦ k
]

compare_ids-flip : (a b : List ℕ) → compare_ids b a ≡ flip (compare_ids a b)
unfolding compare_ids
compare_ids-flip a b = ground (arith, str_lt-asymm a b)

compare_ids_trans :
    (a b c : List ℕ) → compare_ids a b ≡ minus → compare_ids b c ≡ minus → compare_ids a c ≡ minus
unfolding compare_ids
compare_ids_trans a b c h k = ground (arith, str_lt_trans a b c)

compare_ids-same : (a b : List ℕ) → compare_ids a b ≡ nought → a ≡ b
unfolding compare_ids
compare_ids-same a b h = ground (arith, str_lt-connex a b)

-- Comparing the other way round gives the opposite sign.
compare_positions-flip :
    (a b : Option (List ℕ)) (i j : List ℕ)
    → compare_positions b j a i ≡ flip (compare_positions a i b j)
unfolding compare_positions
compare_positions-flip (some a) (some b) i j =
    ground (arith, str_lt-asymm a b, compare_ids-flip i j)
compare_positions-flip (some a) none i j = refl
compare_positions-flip none (some b) i j = refl
compare_positions-flip none none i j = compare_ids-flip i j

compare_positions_trans :
    (a b c : Option (List ℕ)) (i j k : List ℕ)
    → compare_positions a i b j ≡ minus
    → compare_positions b j c k ≡ minus
    → compare_positions a i c k ≡ minus
unfolding compare_positions compare_ids
compare_positions_trans (some a) (some b) (some c) i j k h l = ground (
  arith,
  str_lt_trans a b c,
  str_lt_trans b c a,
  str_lt_trans c a b,
  str_lt_trans i j k,
  str_lt-connex a b,
  str_lt-connex b c,
)
compare_positions_trans (some a) (some b) none i j k h l = refl
compare_positions_trans (some a) none (some c) i j k h l = absurd (cc)
compare_positions_trans (some a) none none i j k h l = refl
compare_positions_trans none (some b) c i j k h l = absurd (cc)
compare_positions_trans none none (some c) i j k h l = absurd (cc)
compare_positions_trans none none none i j k h l = compare_ids_trans i j k h l

compare_positions-same :
    (a b : Option (List ℕ)) (i j : List ℕ) → compare_positions a i b j ≡ nought → (a ≡ b) × (i ≡ j)
unfolding compare_positions compare_ids
compare_positions-same (some a) (some b) i j h =
    ground (arith, str_lt-connex a b, str_lt-connex i j)
compare_positions-same (some a) none i j h = absurd (cc)
compare_positions-same none (some b) i j h = absurd (cc)
compare_positions-same none none i j h = (refl, compare_ids-same i j h)

pub record IsTotalOrder {A : Type 0} (compare : A → A → Sign) : Type 0 where
  pub flipped : (x y : A) → compare y x ≡ flip (compare x y)
  pub trans : (x y z : A) → compare x y ≡ minus → compare y z ≡ minus → compare x z ≡ minus
  pub same : (x y : A) → compare x y ≡ nought → x ≡ y

-- `comparePositions` on records' positions and ids is a total order: the comparison the other way
-- round has the opposite sign, it is transitive, and only a record of the same position and the
-- same id compares as equal.
pub compare_positions-IsTotalOrder :
    IsTotalOrder {A = Option (List ℕ) × List ℕ} (λ x y. compare_positions x.0 x.1 y.0 y.1)
compare_positions-IsTotalOrder = record {
  flipped = λ x y. compare_positions-flip x.0 y.0 x.1 y.1;
  trans = λ x y z. compare_positions_trans x.0 y.0 z.0 x.1 y.1 z.1;
  same = λ x y h. let (p, q) = compare_positions-same x.0 y.0 x.1 y.1 h in λ i. (p i, q i);
}
