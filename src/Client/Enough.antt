-- ===== src/Client/Enough.antt =====
-- client/list.js, `longestIncreasing`: the fuel of its two loops is enough.
use lazy_storage.Base.{
  ℕ, zero, suc, ◌+◌, ◌-◌, ◌/◌, ◌≤◌, ◌<◌, ◌≡◌, refl, ap, ◌⊎◌, inl, inr, false, Option, none, some,
  List, [], ◌∷◌, arith, ltb, Bool-cases, length, All,
}
use lazy_storage.Client.Links.{IsOver, AreLinks, IsLink}
use lazy_storage.Client.Longest.{
  run_back, is_below, search_tails, key_of, nth, previous_of, longest_increasing, last, scan,
}
use lazy_storage.Client.Rising.{own-IsLink, whole-IsScanned}

-- Where a search in the tails ends: what is just before is below the key, what is there is not.
pub record IsPlace (keys : List (Option (List ℕ))) (tails key : List ℕ) (high n : ℕ) : Type 0 where
  pub within : n ≤ high
  pub over : IsOver keys tails key n
  pub stops : (n ≡ high) ⊎ (is_below (key_of keys (nth n tails)) key ≡ false)

lower-IsPlace :
    (keys : List (Option (List ℕ))) (tails key : List ℕ) (mid high n : ℕ)
    → mid ≤ high
    → is_below (key_of keys (nth mid tails)) key ≡ false
    → IsPlace keys tails key mid n
    → IsPlace keys tails key high n
lower-IsPlace keys tails key mid high n le f h = record {
  within = omega (arith, h.within, le);
  over = h.over;
  stops = elim h.stops [ inl e ↦ inr (rw e f) | inr g ↦ inr g ];
}

-- For any keys and tails: the search between two bounds, the lower not above the upper and with what
-- is before it below the key, ends where the tail before the place is below the key and the one there
-- is not, or at the upper bound. As many turns as the bounds are apart are enough.
pub search_tails-IsPlace :
    (keys : List (Option (List ℕ))) (fuel : ℕ) (tails key : List ℕ) (low high : ℕ)
    → high - low ≤ fuel
    → low ≤ high
    → IsOver keys tails key low
    → IsPlace keys tails key high (search_tails fuel keys tails key low high)
unfolding search_tails
search_tails-IsPlace keys zero tails key low high d le h = record {
  within = le;
  over = h;
  stops = inl (omega (arith, d, le));
}
search_tails-IsPlace keys (suc fuel) tails key low high d le h =
    let mid = (low + high) / 2 in
    elim (Bool-cases (ltb low high)) [
      | inr e ↦ rw e (record { within = le; over = h; stops = inl (ground (arith, e, le)) })
      | inl e ↦ elim (Bool-cases (is_below (key_of keys (nth mid tails)) key)) [
        | inl f ↦
            rw (e, f)
              (search_tails-IsPlace keys fuel tails key (suc mid) high (ground (arith, e, d))
                (ground (arith, e)) f)
        | inr f ↦
            rw (e, f)
              (lower-IsPlace keys tails key mid high (search_tails fuel keys tails key low mid)
                (ground (arith, e)) f
                (search_tails-IsPlace keys fuel tails key low mid (ground (arith, e, d))
                  (ground (arith, e)) h))
      ]
    ]

abbrev pub IsLess : ℕ → Option ℕ → Type 0
IsLess i none = Unit
IsLess i (some p) = p < i

IsLink-IsLess :
    (keys : List (Option (List ℕ))) (i : ℕ) (o : Option ℕ) → IsLink keys i o → IsLess i o
IsLink-IsLess keys i none h = tt
IsLink-IsLess keys i (some p) h = h.0

-- The walk back is the same with any fuel that is not below an index above its start.
run_back-enough :
    (keys : List (Option (List ℕ))) (fuel more i : ℕ) (previous : List (Option ℕ)) (o : Option ℕ)
    → AreLinks keys 0 previous
    → IsLess i o
    → i ≤ fuel
    → i ≤ more
    → run_back fuel previous o ≡ run_back more previous o
unfolding run_back
run_back-enough keys fuel more i previous none h l le le' = refl
run_back-enough keys zero more i previous (some p) h l le le' = absurd (omega (arith, l, le))
run_back-enough keys fuel zero i previous (some p) h l le le' = absurd (omega (arith, l, le'))
run_back-enough keys (suc fuel) (suc more) i previous (some p) h l le le' =
    ap (λ run. p ∷ run)
      (run_back-enough keys fuel more p previous (previous_of p previous) h
        (IsLink-IsLess keys p (previous_of p previous) (own-IsLink keys p previous h))
        (omega (arith, l, le)) (omega (arith, l, le')))

last-IsLess : (i : ℕ) (tails : List ℕ) → All (λ t. t < i) tails → IsLess i (last tails)
last-IsLess i [] h = tt
last-IsLess i (t ∷ []) h = h.0
last-IsLess i (t ∷ u ∷ ts) h = last-IsLess i (u ∷ ts) h.1

-- For any keys: following the links back from the end of the run gives the same indices with any fuel
-- that is not below the number of keys, so the walk of `longestIncreasing` ends by itself.
pub longest_increasing-enough :
    (keys : List (Option (List ℕ))) (fuel : ℕ)
    → length keys ≤ fuel
    → longest_increasing keys
      ≡ run_back fuel (scan keys 0 keys ([], [])).1 (last (scan keys 0 keys ([], [])).0)
unfolding longest_increasing
longest_increasing-enough keys fuel le =
    let s = whole-IsScanned keys in
    run_back-enough keys (length keys) fuel (length keys) _ _ s.links
      (last-IsLess (length keys) _ s.tails) (omega arith) le
