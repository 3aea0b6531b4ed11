-- ===== src/Client/Reconcile.antt =====
-- client/list.js, `reconcile`: the keys that it gives put the list in the order that is wanted.
use lazy_storage.Base.{
  ℕ, ◌+◌, ◌<◌, ◌≡◌, sym, ◌∙◌, inl, inr, true, false, Option, none, some, List, [], ◌∷◌, arith, ◌==◌,
  ==_iff, Bool-cases, if_intro, All, Returns, Returns-bind,
}
use lazy_storage.Client.Longest.{key_at, longest_increasing}
use lazy_storage.Client.Rising.{
  Descends, IsRest, IsRest-tail, IsRest-head, longest_increasing-Descends, whole-IsRest,
}
use lazy_storage.Client.Slots.{
  kept_keys, has_index, reconcile_keys, IsRising, IsAboveFloor, next_kept, IsSlotted, slots,
  slots-IsSlotted,
}
use lazy_storage.Positions.Promise.{IsBound, InOrder}
use lazy_storage.Client.Links.{IsBefore}

All-has_index : (P : ℕ → Type 0) (i : ℕ) (xs : List ℕ) → All P xs → has_index i xs ≡ true → P i
All-has_index P i [] h e = absurd (cc)
All-has_index P i (x ∷ xs) h e = elim (Bool-cases (i == x)) [
  | inl f ↦ rw ((==_iff i x).0 f) h.0
  | inr f ↦ All-has_index P i xs h.1 (rw f at e)
]

module _ (keys : List (Option (List ℕ))) where
  -- Of two indices of a run, the greater has the greater key.
  Descends-IsBefore :
      (i j : ℕ) (run : List ℕ)
      → Descends keys run
      → has_index i run ≡ true
      → has_index j run ≡ true
      → i < j
      → IsBefore keys i j
  Descends-IsBefore i j [] h a b lt = absurd (cc)
  Descends-IsBefore i j (x ∷ run) h a b lt = elim (Bool-cases (j == x)) [
    | inl f ↦
        let same = (==_iff j x).0 f in
        let other : (i == x) ≡ false = ground (arith, lt, same) in
        rw same (All-has_index _ i run h.0 (rw other at a)).1
    | inr f ↦ elim (Bool-cases (i == x)) [
      | inl g ↦
          let same = (==_iff i x).0 g in
          let less = (All-has_index (λ m. (m < x) × IsBefore keys m x) j run h.0 (rw f at b)).0 in
          absurd (omega (arith, less, lt, same))
      | inr g ↦ Descends-IsBefore i j run h.1 (rw g at a) (rw f at b) lt
    ]
  ]

  -- The last key that was kept before an index.
  abbrev pub IsLastKept : List ℕ → ℕ → Option (List ℕ) → Type 0
  IsLastKept keep i none = Unit
  IsLastKept keep i (some key) =
      (l : ℕ) × (l < i) × (has_index l keep ≡ true) × (key_at l keys ≡ some key)

  IsLastKept-later :
      (keep : List ℕ) (i : ℕ) (lower : Option (List ℕ))
      → IsLastKept keep i lower
      → IsLastKept keep (i + 1) lower
  IsLastKept-later keep i none h = tt
  IsLastKept-later keep i (some key) (l, lt, has, at) = (l, omega (arith, lt), has, at)

  IsLastKept-InOrder :
      (keep : List ℕ) (i : ℕ) (lower : Option (List ℕ)) (key : List ℕ)
      → Descends keys keep
      → IsLastKept keep i lower
      → has_index i keep ≡ true
      → key_at i keys ≡ some key
      → InOrder lower (some key)
  IsLastKept-InOrder keep i none key h k e at = tt
  IsLastKept-InOrder keep i (some low) key h (l, lt, has, low_at) e at =
      let b = Descends-IsBefore l i keep h has e lt in
      let one : some b.low ≡ some low = sym b.low_at ∙ low_at in
      let two : some b.high ≡ some key = sym b.high_at ∙ at in ground (arith, one, two, b.less)

  kept_keys-IsRising :
      (keep : List ℕ) (i : ℕ) (lower : Option (List ℕ)) (rest : List (Option (List ℕ)))
      → Descends keys keep
      → IsRest keys i rest
      → All IsBound rest
      → IsLastKept keep i lower
      → IsRising lower (kept_keys keep i rest)
  unfolding kept_keys
  kept_keys-IsRising keep i lower [] h r v k = tt
  kept_keys-IsRising keep i lower (none ∷ rest) h r v k =
      let next =
        kept_keys-IsRising keep (i + 1) lower rest h (IsRest-tail keys i none rest r) v.1
          (IsLastKept-later keep i lower k) in
      if_intro (λ o. IsRising lower (o ∷ kept_keys keep (i + 1) rest)) (has_index i keep) next next
  kept_keys-IsRising keep i lower (some key ∷ rest) h r v k =
      let at = IsRest-head keys i (some key) rest r in
      let tail = IsRest-tail keys i (some key) rest r in
      elim (Bool-cases (has_index i keep)) [
        | inl e ↦ rw e (
          IsLastKept-InOrder keep i lower key h k e at,
          v.0,
          kept_keys-IsRising keep (i + 1) (some key) rest h tail v.1 (i, omega arith, e, at),
        )
        | inr e ↦ rw e (
            kept_keys-IsRising keep (i + 1) lower rest h tail v.1 (IsLastKept-later keep i lower k))
      ]

  abbrev pub kept_of : List (Option (List ℕ))
  kept_of = kept_keys (longest_increasing keys) 0 keys

-- For records of which each has a position key or none, in the order that is wanted, and where the key
-- below the first that is kept is not the least string of all: `reconcile` throws nothing, the
-- records' keys after it are position keys in strictly ascending order, and each record that
-- `longestIncreasing` keeps has the key it had.
pub reconcile_keys-IsSlotted :
    (keys : List (Option (List ℕ)))
    → All IsBound keys
    → IsAboveFloor (next_kept (kept_of keys))
    → Returns (λ r. IsSlotted none (kept_of keys) r.0) (reconcile_keys keys)
unfolding reconcile_keys
reconcile_keys-IsSlotted keys valid floor =
    Returns-bind (IsSlotted none (kept_of keys)) (λ r. IsSlotted none (kept_of keys) r.0)
      (slots none (kept_of keys)) _
      (slots-IsSlotted (kept_of keys)
        (kept_keys-IsRising keys (longest_increasing keys) 0 none keys
          (longest_increasing-Descends keys) (whole-IsRest keys) valid tt)
        floor)
      (λ made r. r)
