-- ===== src/Client/Longest.antt =====
-- client/list.js, `longestIncreasing`: which records keep their keys. A key is a string as a list of
-- character codes, `none` where there is none; the indices kept are a list, the last first.
use lazy_storage.Base.{
  ℕ, zero, suc, ◌+◌, ◌/◌, Bool, false, Option, none, some, List, [], ◌∷◌, ◌++◌, ltb, if◌then◌else◌,
  length,
}
use lazy_storage.Positions.Digits.{str_lt}

abbrev pub nth : {A : Type 0} → ℕ → List A → Option A
nth n [] = none
nth zero (x ∷ xs) = some x
nth (suc n) (x ∷ xs) = nth n xs

abbrev pub key_at : ℕ → List (Option (List ℕ)) → Option (List ℕ)
key_at n [] = none
key_at zero (key ∷ keys) = key
key_at (suc n) (key ∷ keys) = key_at n keys

abbrev pub key_of : List (Option (List ℕ)) → Option ℕ → Option (List ℕ)
key_of keys none = none
key_of keys (some i) = key_at i keys

abbrev pub is_below : Option (List ℕ) → List ℕ → Bool
is_below none key = false
is_below (some k) key = str_lt k key

-- The search in the tails, from `low` up to `high`; their distance falls with each turn.
unfoldable pub search_tails : ℕ → List (Option (List ℕ)) → List ℕ → List ℕ → ℕ → ℕ → ℕ
search_tails zero keys tails key low high = low
search_tails (suc fuel) keys tails key low high =
    let mid = (low + high) / 2 in
    let upper = search_tails fuel keys tails key (suc mid) high in
    let lower = search_tails fuel keys tails key low mid in
    if ltb low high
    then (if is_below (key_of keys (nth mid tails)) key then upper else lower)
    else low

-- `tails[n] = i`, at the end where `n` is the length.
unfoldable pub put_at : ℕ → ℕ → List ℕ → List ℕ
put_at n i [] = i ∷ []
put_at zero i (t ∷ ts) = i ∷ ts
put_at (suc n) i (t ∷ ts) = t ∷ put_at n i ts

-- `low > 0 ? tails[low - 1] : -1`
abbrev pub before : ℕ → List ℕ → Option ℕ
before zero tails = none
before (suc n) tails = nth n tails

-- The loop over the keys: the index of the smallest tail of a run of each length, and for each key the
-- one before it in its run.
unfoldable pub scan :
    List (Option (List ℕ))
    → ℕ
    → List (Option (List ℕ))
    → List ℕ × List (Option ℕ)
    → List ℕ × List (Option ℕ)
scan keys i [] (tails, previous) = (tails, previous)
scan keys i (none ∷ rest) (tails, previous) = scan keys (i + 1) rest (tails, previous ++ none ∷ [])
scan keys i (some key ∷ rest) (tails, previous) =
    let low = search_tails (length tails) keys tails key 0 (length tails) in
    scan keys (i + 1) rest (put_at low i tails, previous ++ before low tails ∷ [])

-- `previous[i]`, none for -1.
abbrev pub previous_of : ℕ → List (Option ℕ) → Option ℕ
previous_of n [] = none
previous_of zero (p ∷ ps) = p
previous_of (suc n) (p ∷ ps) = previous_of n ps

-- The run that ends at an index, back to its start; each is less than the one after it.
unfoldable pub run_back : ℕ → List (Option ℕ) → Option ℕ → List ℕ
run_back fuel previous none = []
run_back zero previous (some i) = []
run_back (suc fuel) previous (some i) = i ∷ run_back fuel previous (previous_of i previous)

abbrev pub last : List ℕ → Option ℕ
last [] = none
last (t ∷ []) = some t
last (t ∷ u ∷ ts) = last (u ∷ ts)

unfoldable pub longest_increasing : List (Option (List ℕ)) → List ℕ
longest_increasing keys =
    let (tails, previous) = scan keys 0 keys ([], []) in
    run_back (length keys) previous (last tails)
