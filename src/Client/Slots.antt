-- ===== src/Client/Slots.antt =====
-- client/list.js, `reconcile`: the keys that a list gets. The container is its records' keys by id,
-- in order; other fields are not read or written.
use lazy_storage.Base.{
  ℕ, suc, ◌+◌, ◌≡◌, refl, ◌≢◌, inl, inr, Bool, true, false, ◌||◌, Option, none, some, List, [], ◌∷◌,
  ◌==◌, if◌then◌else◌, Result, ◌>>=◌, Returns, Returns-bind, ok, err,
}
use lazy_storage.Positions.Many.{IsAscending}
use lazy_storage.Positions.Keys.{key_between, is_position_key}
use lazy_storage.Positions.Promise.{IsBound, IsAnswer, InOrder, floor_key, key_between-IsAnswer}
use lazy_storage.Positions.Integer.{KeyError}
use lazy_storage.Client.Longest.{longest_increasing}

abbrev pub has_index : ℕ → List ℕ → Bool
has_index i [] = false
has_index i (j ∷ js) = i == j || has_index i js

-- Each record's key where it keeps its own.
unfoldable pub kept_keys : List ℕ → ℕ → List (Option (List ℕ)) → List (Option (List ℕ))
kept_keys keep i [] = []
kept_keys keep i (key ∷ keys) =
    (if has_index i keep then key else none) ∷ kept_keys keep (i + 1) keys

-- `nextKept`
unfoldable pub next_kept : List (Option (List ℕ)) → Option (List ℕ)
next_kept [] = none
next_kept (none ∷ kept) = next_kept kept
next_kept (some key ∷ kept) = some key

-- The loop that writes: each record's key, its own or a new one.
unfoldable pub slots : Option (List ℕ) → List (Option (List ℕ)) → Result KeyError (List (List ℕ))
slots lower [] = ok []
slots lower (some key ∷ kept) = do rest ← slots (some key) kept; ok (key ∷ rest)
slots lower (none ∷ kept) = do
  key ← key_between lower (next_kept kept)
  rest ← slots (some key) kept
  ok (key ∷ rest)

unfoldable pub count_written : List (Option (List ℕ)) → ℕ
count_written [] = 0
count_written (none ∷ kept) = suc (count_written kept)
count_written (some key ∷ kept) = count_written kept

-- The keys of the records in the order that is wanted, and how many are new.
unfoldable pub reconcile_keys : List (Option (List ℕ)) → Result KeyError (List (List ℕ) × ℕ)
reconcile_keys keys = do
  let kept = kept_keys (longest_increasing keys) 0 keys
  made ← slots none kept
  ok (made, count_written kept)

-- Kept keys are position keys, ascending.
abbrev pub IsRising : Option (List ℕ) → List (Option (List ℕ)) → Type 0
IsRising lower [] = Unit
IsRising lower (none ∷ kept) = IsRising lower kept
IsRising lower (some key ∷ kept) =
    InOrder lower (some key) × (is_position_key key ≡ true) × IsRising (some key) kept

-- Who keeps its key has it.
abbrev pub IsKept : List (Option (List ℕ)) → List (List ℕ) → Type 0
IsKept [] [] = Unit
IsKept [] (key ∷ keys) = ⊥
IsKept (k ∷ kept) [] = ⊥
IsKept (none ∷ kept) (key ∷ keys) = IsKept kept keys
IsKept (some k ∷ kept) (key ∷ keys) = (key ≡ k) × IsKept kept keys

pub record IsSlotted (lower : Option (List ℕ)) (kept : List (Option (List ℕ)))
    (keys : List (List ℕ)) : Type 0 where
  pub ascending : IsAscending lower keys none
  pub own : IsKept kept keys

next_kept-IsRising :
    (lower : Option (List ℕ)) (kept : List (Option (List ℕ)))
    → IsRising lower kept
    → IsBound (next_kept kept) × InOrder lower (next_kept kept)
unfolding next_kept
next_kept-IsRising none [] h = (tt, tt)
next_kept-IsRising (some l) [] h = (tt, tt)
next_kept-IsRising lower (none ∷ kept) h = next_kept-IsRising lower kept h
next_kept-IsRising lower (some key ∷ kept) h = (h.1, h.0)

IsRising-above :
    (lower : Option (List ℕ)) (key : List ℕ) (kept : List (Option (List ℕ)))
    → IsRising lower kept
    → InOrder (some key) (next_kept kept)
    → IsRising (some key) kept
unfolding next_kept
IsRising-above lower key [] h k = tt
IsRising-above lower key (none ∷ kept) h k = IsRising-above lower key kept h k
IsRising-above lower key (some next ∷ kept) h k = (k, h.1, h.2)

slots_above-IsSlotted :
    (lower : List ℕ) (kept : List (Option (List ℕ)))
    → is_position_key lower ≡ true
    → IsRising (some lower) kept
    → Returns (IsSlotted (some lower) kept) (slots (some lower) kept)
unfolding slots
slots_above-IsSlotted lower [] b h = record { ascending = tt; own = tt }
slots_above-IsSlotted lower (some key ∷ kept) b h =
    Returns-bind (IsSlotted (some key) kept) (IsSlotted (some lower) (some key ∷ kept))
      (slots (some key) kept) _ (slots_above-IsSlotted key kept h.1 h.2)
      (λ rest r. record { ascending = (h.1, h.0, r.ascending); own = (refl, r.own) })
slots_above-IsSlotted lower (none ∷ kept) b h =
    let (bound, below) = next_kept-IsRising (some lower) kept h in
    Returns-bind (IsAnswer (some lower) (next_kept kept)) (IsSlotted (some lower) (none ∷ kept))
      (key_between (some lower) (next_kept kept)) _
      (key_between-IsAnswer (some lower) (next_kept kept) b bound below)
      (λ key w.
        Returns-bind (IsSlotted (some key) kept) (IsSlotted (some lower) (none ∷ kept))
          (slots (some key) kept) _
          (slots_above-IsSlotted key kept w.made (IsRising-above (some lower) key kept h w.upper))
          (λ rest r. record { ascending = (w.made, w.lower, r.ascending); own = r.own }))

-- The key made below a key is not the least string of all, which is no position key.
abbrev pub IsAboveFloor : Option (List ℕ) → Type 0
IsAboveFloor none = Unit
IsAboveFloor (some key) = Returns (λ made. made ≢ floor_key) (key_between none (some key))

Returns-both :
    {E A : Type 0} (P Q : A → Type 0) (m : Result E A)
    → Returns P m
    → Returns Q m
    → Returns (λ a. P a × Q a) m
Returns-both P Q (ok a) h k = (h, k)
Returns-both P Q (err e) h k = h

Returns-map :
    {E A : Type 0} (P Q : A → Type 0) (m : Result E A)
    → ((a : A) → P a → Q a)
    → Returns P m
    → Returns Q m
Returns-map P Q (ok a) f h = f a h
Returns-map P Q (err e) f h = h

first-made :
    (next : Option (List ℕ))
    → IsBound next
    → IsAboveFloor next
    → Returns (λ key. IsAnswer none next key × (is_position_key key ≡ true)) (key_between none next)
first-made none b f =
    Returns-map (IsAnswer none none) _ (key_between none none) (λ key w. (w, w.made))
      (key_between-IsAnswer none none tt tt tt)
first-made (some n) b f =
    Returns-map (λ key. IsAnswer none (some n) key × (key ≢ floor_key)) _
      (key_between none (some n))
      (λ key w. (w.0, elim w.0.made [ inl valid ↦ valid | inr floor ↦ absurd (w.1 floor) ]))
      (Returns-both (IsAnswer none (some n)) _ (key_between none (some n))
        (key_between-IsAnswer none (some n) tt b tt) f)

pub slots-IsSlotted :
    (kept : List (Option (List ℕ)))
    → IsRising none kept
    → IsAboveFloor (next_kept kept)
    → Returns (IsSlotted none kept) (slots none kept)
unfolding slots next_kept
slots-IsSlotted [] h f = record { ascending = tt; own = tt }
slots-IsSlotted (some key ∷ kept) h f =
    Returns-bind (IsSlotted (some key) kept) (IsSlotted none (some key ∷ kept))
      (slots (some key) kept) _ (slots_above-IsSlotted key kept h.1 h.2)
      (λ rest r. record { ascending = (h.1, h.0, r.ascending); own = (refl, r.own) })
slots-IsSlotted (none ∷ kept) h f =
    let (bound, below) = next_kept-IsRising none kept h in
    Returns-bind (λ key. IsAnswer none (next_kept kept) key × (is_position_key key ≡ true))
      (IsSlotted none (none ∷ kept)) (key_between none (next_kept kept)) _
      (first-made (next_kept kept) bound f)
      (λ key w.
        Returns-bind (IsSlotted (some key) kept) (IsSlotted none (none ∷ kept))
          (slots (some key) kept) _
          (slots_above-IsSlotted key kept w.1 (IsRising-above none key kept h w.0.upper))
          (λ rest r. record { ascending = (w.1, w.0.lower, r.ascending); own = r.own }))
