-- ===== src/Client/Links.antt =====
-- client/list.js, `longestIncreasing`: each index is linked to one whose key is below its own.
use lazy_storage.Base.{
  ℕ, zero, suc, ◌+◌, ◌/◌, ◌<◌, ◌≡◌, refl, sym, ◌∙◌, inl, inr, true, Option, none, some, List, [],
  ◌∷◌, ◌++◌, arith, ltb, Bool-cases, length, All,
}
use lazy_storage.Positions.Digits.{str_lt, str_lt_trans}
use lazy_storage.Client.Longest.{
  key_at, before, put_at, nth, previous_of, is_below, key_of, search_tails,
}

module _ (keys : List (Option (List ℕ))) where
  -- Both have keys, and the first's is below.
  pub record IsBefore (p i : ℕ) : Type 0 where
    pub low : List ℕ
    pub high : List ℕ
    pub low_at : key_at p keys ≡ some low
    pub high_at : key_at i keys ≡ some high
    pub less : str_lt low high ≡ true

  abbrev pub IsLink : ℕ → Option ℕ → Type 0
  IsLink i none = Unit
  IsLink i (some p) = (p < i) × IsBefore p i

  abbrev pub AreLinks : ℕ → List (Option ℕ) → Type 0
  AreLinks i [] = Unit
  AreLinks i (o ∷ os) = IsLink i o × AreLinks (i + 1) os

  pub IsBefore-trans : (p i j : ℕ) → IsBefore p i → IsBefore i j → IsBefore p j
  IsBefore-trans p i j h k =
      let same : some h.high ≡ some k.low = sym h.high_at ∙ k.low_at in
      record {
        low = h.low;
        high = k.high;
        low_at = h.low_at;
        high_at = k.high_at;
        less = str_lt_trans h.low h.high k.high h.less (ground (arith, same, k.less));
      }

  pub AreLinks-append :
      (i : ℕ) (os : List (Option ℕ)) (o : Option ℕ)
      → AreLinks i os
      → IsLink (i + length os) o
      → AreLinks i (os ++ o ∷ [])
  AreLinks-append i [] o h k = let e : i + 0 ≡ i = omega arith in (rw e at k, tt)
  AreLinks-append i (p ∷ os) o h k =
      let e : i + suc (length os) ≡ i + 1 + length os = omega arith in
      (h.0, AreLinks-append (i + 1) os o h.1 (rw e at k))

  pub previous_of-IsLink :
      (i n : ℕ) (os : List (Option ℕ)) → AreLinks i os → IsLink (i + n) (previous_of n os)
  previous_of-IsLink i n [] h = tt
  previous_of-IsLink i zero (o ∷ os) h = let e : i + 0 ≡ i = omega arith in rw e h.0
  previous_of-IsLink i (suc n) (o ∷ os) h =
      let e : i + suc n ≡ i + 1 + n = omega arith in rw e (previous_of-IsLink (i + 1) n os h.1)

  -- What is below the place that the search has come to.
  abbrev pub IsOver : List ℕ → List ℕ → ℕ → Type 0
  IsOver tails key zero = Unit
  IsOver tails key (suc n) = is_below (key_of keys (nth n tails)) key ≡ true

  pub search_tails-IsOver :
      (fuel : ℕ) (tails key : List ℕ) (low high : ℕ)
      → IsOver tails key low
      → IsOver tails key (search_tails fuel keys tails key low high)
  unfolding search_tails
  search_tails-IsOver zero tails key low high h = h
  search_tails-IsOver (suc fuel) tails key low high h =
      let mid = (low + high) / 2 in
      elim (Bool-cases (ltb low high)) [
        | inr e ↦ rw e h
        | inl e ↦ elim (Bool-cases (is_below (key_of keys (nth mid tails)) key)) [
          | inl f ↦ rw (e, f) (search_tails-IsOver fuel tails key (suc mid) high f)
          | inr f ↦ rw (e, f) (search_tails-IsOver fuel tails key low mid h)
        ]
      ]

  nth-All : (P : ℕ → Type 0) (n t : ℕ) (xs : List ℕ) → All P xs → nth n xs ≡ some t → P t
  nth-All P n t [] h e = absurd (cc)
  nth-All P zero t (x ∷ xs) h e = let same : x ≡ t = cc in rw (sym same) h.0
  nth-All P (suc n) t (x ∷ xs) h e = nth-All P n t xs h.1 e

  pub put_at-All : (P : ℕ → Type 0) (n i : ℕ) (xs : List ℕ) → All P xs → P i → All P (put_at n i xs)
  unfolding put_at
  put_at-All P zero i [] h p = (p, tt)
  put_at-All P (suc n) i [] h p = (p, tt)
  put_at-All P zero i (x ∷ xs) h p = (p, h.1)
  put_at-All P (suc n) i (x ∷ xs) h p = (h.0, put_at-All P n i xs h.1 p)

  is_below-key :
      (o : Option (List ℕ)) (key : List ℕ)
      → is_below o key ≡ true
      → (low : List ℕ) × (o ≡ some low) × (str_lt low key ≡ true)
  is_below-key none key h = absurd (cc)
  is_below-key (some low) key h = (low, refl, h)

  found-IsLink :
      (i : ℕ) (tails key : List ℕ) (o : Option ℕ) (n : ℕ)
      → nth n tails ≡ o
      → All (λ t. t < i) tails
      → key_at i keys ≡ some key
      → is_below (key_of keys o) key ≡ true
      → IsLink i o
  found-IsLink i tails key none n e h at k = tt
  found-IsLink i tails key (some t) n e h at k =
      let (low, there, less) = is_below-key (key_at t keys) key k in
      (
        nth-All (λ t. t < i) n t tails h e,
        record { low = low; high = key; low_at = there; high_at = at; less = less },
      )

  pub before-IsLink :
      (i : ℕ) (tails key : List ℕ) (low : ℕ)
      → All (λ t. t < i) tails
      → key_at i keys ≡ some key
      → IsOver tails key low
      → IsLink i (before low tails)
  before-IsLink i tails key zero h at k = tt
  before-IsLink i tails key (suc n) h at k = found-IsLink i tails key (nth n tails) n refl h at k
