-- ===== src/Positions/Many.antt =====
-- core/positions.js: `keysBetween`, several keys in order. The count is a natural number: the check
-- that throws on another value of `n` is not modelled.
use lazy_storage.Base.{
  ℕ, zero, suc, ◌+◌, ◌-◌, ◌/◌, ◌≤◌, ◌≡◌, refl, ap, inl, inr, true, Option, none, some, List, [],
  ◌∷◌, ◌++◌, reverse, arith, ◌==◌, if◌then◌else◌, ==_iff, Bool-cases, length, length-append, Result,
  ◌>>=◌, Returns, Returns-bind, ok,
}
use lazy_storage.Positions.Keys.{key_between, is_position_key}
use lazy_storage.Positions.Integer.{KeyError}
use lazy_storage.Positions.Promise.{InOrder, IsAnswer, key_between-IsAnswer, IsBound}
use lazy_storage.Positions.Digits.{str_lt}

-- The loop that counts up from `key`, made `n` times.
keys_up : ℕ → List ℕ → Result KeyError (List (List ℕ))
keys_up zero key = ok []
keys_up (suc n) key = do next ← key_between (some key) none; rest ← keys_up n next; ok (next ∷ rest)

-- The loop that counts down from `key`, made `n` times.
keys_down : ℕ → List ℕ → Result KeyError (List (List ℕ))
keys_down zero key = ok []
keys_down (suc n) key = do
  next ← key_between none (some key)
  rest ← keys_down n next
  ok (next ∷ rest)

-- Both bounds: a key in the middle, and the halves on fuel. The count falls with each call, so `n`
-- is fuel enough.
keys_inside : ℕ → List ℕ → List ℕ → ℕ → Result KeyError (List (List ℕ))
keys_inside zero a b n = ok []
keys_inside (suc fuel) a b n =
    let halves = do
      middle ← key_between (some a) (some b)
      left ← keys_inside fuel a middle (n / 2)
      right ← keys_inside fuel middle b (n - n / 2 - 1)
      ok (left ++ (middle ∷ right))
    in if n == 0
      then ok []
      else if n == 1
      then (do key ← key_between (some a) (some b); ok (key ∷ []))
      else halves

pub keys_between : Option (List ℕ) → Option (List ℕ) → ℕ → Result KeyError (List (List ℕ))
unfolding keys_up keys_down keys_inside
keys_between a b zero = ok []
keys_between a b (suc zero) = do key ← key_between a b; ok (key ∷ [])
keys_between a none (suc (suc n)) = do
  key ← key_between a none
  rest ← keys_up (suc n) key
  ok (key ∷ rest)
keys_between none (some b) (suc (suc n)) = do
  key ← key_between none (some b)
  rest ← keys_down (suc n) key
  ok (reverse (key ∷ rest))
keys_between (some a) (some b) (suc (suc n)) = keys_inside (suc (suc n)) a b (suc (suc n))

-- Position keys in strictly ascending order, all between the bounds.
abbrev pub IsAscending : Option (List ℕ) → List (List ℕ) → Option (List ℕ) → Type 0
IsAscending a [] b = InOrder a b
IsAscending a (key ∷ keys) b =
    (is_position_key key ≡ true) × InOrder a (some key) × IsAscending (some key) keys b

pub record IsRun (a b : Option (List ℕ)) (n : ℕ) (keys : List (List ℕ)) : Type 0 where
  pub ascending : IsAscending a keys b
  pub counted : length keys ≡ n

IsAscending-append :
    (a b : Option (List ℕ)) (xs ys : List (List ℕ)) (m : List ℕ)
    → IsAscending a xs (some m)
    → is_position_key m ≡ true
    → IsAscending (some m) ys b
    → IsAscending a (xs ++ (m ∷ ys)) b
IsAscending-append a b [] ys m h v k = (v, h, k)
IsAscending-append a b (x ∷ xs) ys m h v k =
    (h.0, h.1, IsAscending-append (some x) b xs ys m h.2 v k)

keys_up-IsRun :
    (n : ℕ) (key : List ℕ)
    → is_position_key key ≡ true
    → Returns (IsRun (some key) none n) (keys_up n key)
unfolding keys_up
keys_up-IsRun zero key h = record { ascending = tt; counted = refl }
keys_up-IsRun (suc n) key h =
    Returns-bind (IsAnswer (some key) none) (IsRun (some key) none (suc n))
      (key_between (some key) none) _ (key_between-IsAnswer (some key) none h tt tt)
      (λ next w.
        Returns-bind (IsRun (some next) none n) (IsRun (some key) none (suc n)) (keys_up n next)
          (λ rest. ok (next ∷ rest)) (keys_up-IsRun n next w.made)
          (λ rest r. record {
            ascending = (w.made, w.lower, r.ascending);
            counted = ap suc r.counted;
          }))

single-IsRun :
    (a b : Option (List ℕ)) (key : List ℕ)
    → is_position_key key ≡ true
    → IsAnswer a b key
    → IsRun a b 1 (key ∷ [])
single-IsRun a none key v w = record { ascending = (v, w.lower, tt); counted = refl }
single-IsRun a (some b) key v w = record { ascending = (v, w.lower, w.upper); counted = refl }

joined-IsRun :
    (a b : Option (List ℕ)) (n p q : ℕ) (m : List ℕ) (xs ys : List (List ℕ))
    → is_position_key m ≡ true
    → IsRun a (some m) p xs
    → IsRun (some m) b q ys
    → p + suc q ≡ n
    → IsRun a b n (xs ++ (m ∷ ys))
joined-IsRun a b n p q m xs ys v h k e = record {
  ascending = IsAscending-append a b xs ys m h.ascending v k.ascending;
  counted = omega (arith, length-append xs (m ∷ ys), h.counted, k.counted);
}

keys_inside-IsRun :
    (fuel : ℕ) (a b : List ℕ) (n : ℕ)
    → n ≤ fuel
    → is_position_key a ≡ true
    → is_position_key b ≡ true
    → str_lt a b ≡ true
    → Returns (IsRun (some a) (some b) n) (keys_inside fuel a b n)
unfolding keys_inside
keys_inside-IsRun zero a b n e h k l = record { ascending = l; counted = omega arith }
keys_inside-IsRun (suc fuel) a b n e h k l =
    let made = key_between-IsAnswer (some a) (some b) h k l in
    elim (Bool-cases (n == 0)) [
      | inl t ↦ rw t (record { ascending = l; counted = ground arith })
      | inr t ↦ elim (Bool-cases (n == 1)) [
        | inl u ↦
            rw (t, u)
              (Returns-bind (IsAnswer (some a) (some b)) (IsRun (some a) (some b) n)
                (key_between (some a) (some b)) (λ key. ok (key ∷ [])) made
                (λ key w. rw ((==_iff n 1).0 u) (single-IsRun (some a) (some b) key w.made w)))
        | inr u ↦
            rw (t, u)
              (Returns-bind (IsAnswer (some a) (some b)) (IsRun (some a) (some b) n)
                (key_between (some a) (some b)) _ made
                (λ m w.
                  Returns-bind (IsRun (some a) (some m) (n / 2)) (IsRun (some a) (some b) n)
                    (keys_inside fuel a m (n / 2)) _
                    (keys_inside-IsRun fuel a m (n / 2) (ground arith) h w.made w.lower)
                    (λ xs r.
                      Returns-bind (IsRun (some m) (some b) (n - n / 2 - 1))
                        (IsRun (some a) (some b) n) (keys_inside fuel m b (n - n / 2 - 1))
                        (λ ys. ok (xs ++ (m ∷ ys)))
                        (keys_inside-IsRun fuel m b (n - n / 2 - 1) (ground arith) w.made k w.upper)
                        (λ ys q.
                          joined-IsRun (some a) (some b) n (n / 2) (n - n / 2 - 1) m xs ys w.made r
                            q (ground arith)))))
      ]
    ]

-- Above a lower bound that is a position key, and below an upper one, if there is one, that is a
-- greater position key: `keysBetween(a, b, n)` returns exactly `n` position keys, in strictly
-- ascending order, the first above `a` and the last below `b`.
pub keys_between-IsRun :
    (a : List ℕ) (b : Option (List ℕ)) (n : ℕ)
    → is_position_key a ≡ true
    → IsBound b
    → InOrder (some a) b
    → Returns (IsRun (some a) b n) (keys_between (some a) b n)
unfolding keys_between keys_up
keys_between-IsRun a none zero h k l = record { ascending = l; counted = refl }
keys_between-IsRun a none (suc zero) h k l = keys_up-IsRun 1 a h
keys_between-IsRun a none (suc (suc n)) h k l = keys_up-IsRun (suc (suc n)) a h
keys_between-IsRun a (some b) zero h k l = record { ascending = l; counted = refl }
keys_between-IsRun a (some b) (suc zero) h k l = keys_inside-IsRun 1 a b 1 (omega arith) h k l
keys_between-IsRun a (some b) (suc (suc n)) h k l =
    keys_inside-IsRun (suc (suc n)) a b (suc (suc n)) (omega arith) h k l
