-- ===== src/Client/Rising.antt =====
-- client/list.js: the run that `longestIncreasing` finds rises, and what `reconcile` makes of it.
use lazy_storage.Base.{
  ℕ, zero, suc, ◌+◌, ◌<◌, ◌≡◌, refl, sym, ap, ◌∙◌, Option, none, some, List, [], ◌∷◌, ◌++◌, arith,
  length, All, length-append,
}
use lazy_storage.Client.Longest.{
  key_at, longest_increasing, before, scan, run_back, search_tails, previous_of, put_at,
}
use lazy_storage.Client.Links.{
  IsLink, AreLinks, AreLinks-append, IsBefore, IsBefore-trans, previous_of-IsLink,
  search_tails-IsOver, put_at-All, before-IsLink,
}

-- `rest` is what the keys have from an index on.
abbrev pub IsRest : List (Option (List ℕ)) → ℕ → List (Option (List ℕ)) → Type 0
IsRest keys i rest = (n : ℕ) → key_at n rest ≡ key_at (i + n) keys

pub whole-IsRest : (keys : List (Option (List ℕ))) → IsRest keys 0 keys
whole-IsRest keys n = let e : 0 + n ≡ n = omega arith in ap (λ m. key_at m keys) (sym e)

pub IsRest-head :
    (keys : List (Option (List ℕ))) (i : ℕ) (key : Option (List ℕ)) (rest : List (Option (List ℕ)))
    → IsRest keys i (key ∷ rest)
    → key_at i keys ≡ key
IsRest-head keys i key rest h =
    let e : i + 0 ≡ i = omega arith in sym (h 0 ∙ ap (λ n. key_at n keys) e)

pub IsRest-tail :
    (keys : List (Option (List ℕ))) (i : ℕ) (key : Option (List ℕ)) (rest : List (Option (List ℕ)))
    → IsRest keys i (key ∷ rest)
    → IsRest keys (i + 1) rest
IsRest-tail keys i key rest h n =
    let e : i + suc n ≡ i + 1 + n = omega arith in h (suc n) ∙ ap (λ m. key_at m keys) e

module _ (keys : List (Option (List ℕ))) where
  -- The state of the loop before an index.
  pub record IsScanned (i : ℕ) (st : List ℕ × List (Option ℕ)) : Type 0 where
    pub tails : All (λ t. t < i) st.0
    pub links : AreLinks keys 0 st.1
    pub counted : length st.1 ≡ i

  All-later : (i : ℕ) (xs : List ℕ) → All (λ t. t < i) xs → All (λ t. t < i + 1) xs
  All-later i [] h = tt
  All-later i (x ∷ xs) h = (omega (arith, h.0), All-later i xs h.1)

  next-IsScanned :
      (i : ℕ) (tails tails' : List ℕ) (previous : List (Option ℕ)) (o : Option ℕ)
      → IsScanned i (tails, previous)
      → All (λ t. t < i + 1) tails'
      → IsLink keys i o
      → IsScanned (i + 1) (tails', previous ++ o ∷ [])
  next-IsScanned i tails tails' previous o h k l =
      let e : 0 + i ≡ i = omega arith in
      record {
        tails = k;
        links = AreLinks-append keys 0 previous o h.links (rw (h.counted, e) l);
        counted = length-append previous (o ∷ []) ∙ ap (λ n. n + 1) h.counted;
      }

  scan-IsScanned :
      (i : ℕ) (rest : List (Option (List ℕ))) (st : List ℕ × List (Option ℕ))
      → IsRest keys i rest
      → IsScanned i st
      → IsScanned (i + length rest) (scan keys i rest st)
  unfolding scan
  scan-IsScanned i [] (tails, previous) r h = let e : i + 0 ≡ i = omega arith in rw e h
  scan-IsScanned i (none ∷ rest) (tails, previous) r h =
      let e : i + suc (length rest) ≡ i + 1 + length rest = omega arith in
      rw e (
        scan-IsScanned (i + 1) rest _ (IsRest-tail keys i none rest r)
          (next-IsScanned i tails tails previous none h (All-later i tails h.tails) tt))
  scan-IsScanned i (some key ∷ rest) (tails, previous) r h =
      let e : i + suc (length rest) ≡ i + 1 + length rest = omega arith in
      let low = search_tails (length tails) keys tails key 0 (length tails) in
      let over = search_tails-IsOver keys (length tails) tails key 0 (length tails) tt in
      rw e (
        scan-IsScanned (i + 1) rest _ (IsRest-tail keys i (some key) rest r) (
          next-IsScanned i tails (put_at low i tails) previous (before low tails) h
            (put_at-All keys (λ t. t < i + 1) low i tails (All-later i tails h.tails) (omega arith))
            (before-IsLink keys i tails key low h.tails (IsRest-head keys i (some key) rest r)
              over)))

  pub whole-IsScanned : IsScanned (length keys) (scan keys 0 keys ([], []))
  whole-IsScanned =
      let e : 0 + length keys ≡ length keys = omega arith in
      rw e at (
        scan-IsScanned 0 keys ([], []) (whole-IsRest keys)
          (record { tails = tt; links = tt; counted = refl }))

  -- Indices, the last first, each with a key below that of the one after it.
  abbrev pub Descends : List ℕ → Type 0
  Descends [] = Unit
  Descends (i ∷ is) = All (λ m. (m < i) × IsBefore keys m i) is × Descends is

  All-IsBefore :
      (p i : ℕ) (xs : List ℕ)
      → p < i
      → IsBefore keys p i
      → All (λ m. (m < p) × IsBefore keys m p) xs
      → All (λ m. (m < i) × IsBefore keys m i) xs
  All-IsBefore p i [] lt b h = tt
  All-IsBefore p i (x ∷ xs) lt b h =
      ((omega (arith, lt, h.0.0), IsBefore-trans keys x p i h.0.1 b), All-IsBefore p i xs lt b h.1)

  pub own-IsLink :
      (p : ℕ) (previous : List (Option ℕ))
      → AreLinks keys 0 previous
      → IsLink keys p (previous_of p previous)
  own-IsLink p previous h =
      let e : 0 + p ≡ p = omega arith in rw e at (previous_of-IsLink keys 0 p previous h)

  run_back-All :
      (fuel i : ℕ) (previous : List (Option ℕ)) (o : Option ℕ)
      → AreLinks keys 0 previous
      → IsLink keys i o
      → All (λ m. (m < i) × IsBefore keys m i) (run_back fuel previous o)
  unfolding run_back
  run_back-All fuel i previous none h l = tt
  run_back-All zero i previous (some p) h l = tt
  run_back-All (suc fuel) i previous (some p) h l = (
    l,
    All-IsBefore p i (run_back fuel previous (previous_of p previous)) l.0 l.1
        (run_back-All fuel p previous (previous_of p previous) h (own-IsLink p previous h)),
  )

  run_back-Descends :
      (fuel : ℕ) (previous : List (Option ℕ)) (o : Option ℕ)
      → AreLinks keys 0 previous
      → Descends (run_back fuel previous o)
  unfolding run_back
  run_back-Descends fuel previous none h = tt
  run_back-Descends zero previous (some p) h = tt
  run_back-Descends (suc fuel) previous (some p) h = (
    run_back-All fuel p previous (previous_of p previous) h (own-IsLink p previous h),
    run_back-Descends fuel previous (previous_of p previous) h,
  )

  pub longest_increasing-Descends : Descends (longest_increasing keys)
  unfolding longest_increasing
  longest_increasing-Descends = run_back-Descends (length keys) _ _ whole-IsScanned.links
