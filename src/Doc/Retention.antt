-- ===== src/Doc/Retention.antt =====
-- core/doc.js: what `prune` forgets decides nothing for a change that is not older than the cutoff.
use lazy_storage.Base.{
  ℕ, ◌≤◌, ◌≡◌, refl, inl, inr, Bool, false, ◌||◌, Option, none, some, [], ◌∷◌, ◌++◌, arith, ltb,
  Bool-cases, Option-cases, KeyPath, path_beq, path_beq_iff, path_eq, Map, map_get, IsDistinct,
}
use lazy_storage.Doc.Clocks.{
  live_at, max_entry, newer, stale_from, latest_of, any_newer, max_of, newer_beneath, beneath,
}
use lazy_storage.Doc.Prune.{prune_clock, keep_from, at_from}
use lazy_storage.Doc.Clocks.{Clock}

latest_of-newer : (s t : Option ℕ) (ts : ℕ) → newer (latest_of s t) ts ≡ (newer s ts || newer t ts)
latest_of-newer none t ts = refl
latest_of-newer (some s) none ts = ground arith
latest_of-newer (some s) (some t) ts = ground arith

any_entry : ℕ → Map KeyPath ℕ → Bool
any_entry ts [] = false
any_entry ts ((key, t) ∷ m) = ltb ts t || any_entry ts m

max_entry-newer :
    (ts : ℕ) (m : Map KeyPath ℕ) (most : Option ℕ)
    → newer (max_entry m most) ts ≡ (newer most ts || any_entry ts m)
unfolding max_entry any_entry
max_entry-newer ts [] most = ground arith
max_entry-newer ts ((key, t) ∷ m) most =
    ground (arith, max_entry-newer ts m (latest_of most (some t)), latest_of-newer most (some t) ts)

keep_from-any_entry :
    (cutoff ts : ℕ) (m : Map KeyPath ℕ)
    → cutoff ≤ ts
    → any_entry ts (keep_from cutoff m) ≡ any_entry ts m
unfolding keep_from any_entry
keep_from-any_entry cutoff ts [] h = refl
keep_from-any_entry cutoff ts ((key, t) ∷ m) h = ground (arith, keep_from-any_entry cutoff ts m h)

keep_from-any_newer :
    (cutoff ts : ℕ) (test : KeyPath → Bool) (m : Map KeyPath ℕ)
    → cutoff ≤ ts
    → any_newer test ts (keep_from cutoff m) ≡ any_newer test ts m
unfolding keep_from any_newer
keep_from-any_newer cutoff ts test [] h = refl
keep_from-any_newer cutoff ts test ((key, t) ∷ m) h =
    ground (arith, keep_from-any_newer cutoff ts test m h)

keep_from-absent :
    (cutoff : ℕ) (key : KeyPath) (m : Map KeyPath ℕ)
    → map_get key m ≡ none
    → map_get key (keep_from cutoff m) ≡ none
unfolding keep_from map_get
keep_from-absent cutoff key [] h = refl
keep_from-absent cutoff key ((k, t) ∷ m) h = ground (arith, keep_from-absent cutoff key m)

-- What a lookup gives after the old entries went: the same, or an old entry is missing.
keep_from-get :
    (cutoff : ℕ) (key : KeyPath) (m : Map KeyPath ℕ)
    → IsDistinct m
    → map_get key (keep_from cutoff m) ≡ at_from cutoff (map_get key m)
unfolding keep_from map_get
keep_from-get cutoff key [] h = refl
keep_from-get cutoff key ((k, t) ∷ m) h = elim (Bool-cases (path_beq k key)) [
  | inl e ↦ ground (arith, keep_from-absent cutoff key m, path_beq_iff k key, h.0)
  | inr e ↦ ground (arith, keep_from-get cutoff key m h.1)
]

at_from-newer :
    (cutoff ts : ℕ) (t : Option ℕ) → cutoff ≤ ts → newer (at_from cutoff t) ts ≡ newer t ts
at_from-newer cutoff ts none h = refl
at_from-newer cutoff ts (some t) h = ground arith

-- What the merge asks of a clock for a change of time `ts`: each question has the same answer.
pub record SameVerdicts (ts : ℕ) (a b : Clock) : Type 0 where
  pub whole : newer (max_of (some a)) ts ≡ newer (max_of (some b)) ts
  pub born : (path : KeyPath) → newer (live_at a path) ts ≡ newer (live_at b path) ts
  pub deleted : (path : KeyPath) → newer (map_get path a.gone) ts ≡ newer (map_get path b.gone) ts
  pub under : (path : KeyPath) → newer_beneath a path ts ≡ newer_beneath b path ts
  pub containers : (above path : KeyPath) → stale_from a above path ts ≡ stale_from b above path ts

born_same :
    (cutoff ts : ℕ) (clock : Clock) (path : KeyPath)
    → cutoff ≤ ts
    → IsDistinct clock.live
    → newer (live_at (prune_clock cutoff clock) path) ts ≡ newer (live_at clock path) ts
unfolding live_at prune_clock
born_same cutoff ts clock path h k = elim (Option-cases clock.at) [
  | inl e ↦ elim (Option-cases (map_get path clock.live)) [
    | inl n ↦ ground (arith, keep_from-get cutoff path clock.live k)
    | inr (t, n) ↦ ground (arith, keep_from-get cutoff path clock.live k)
  ]
  | inr (b, e) ↦ elim (Option-cases (map_get path clock.live)) [
    | inl n ↦ ground (arith, keep_from-get cutoff path clock.live k)
    | inr (t, n) ↦ ground (arith, keep_from-get cutoff path clock.live k)
  ]
]

whole_same :
    (cutoff ts : ℕ) (clock : Clock)
    → cutoff ≤ ts
    → newer (max_of (some (prune_clock cutoff clock))) ts ≡ newer (max_of (some clock)) ts
unfolding max_of prune_clock
whole_same cutoff ts clock h =
    let live = keep_from cutoff clock.live in
    let at = at_from cutoff clock.at in
    elim (Option-cases at) [
      | inl e ↦ ground (
        arith,
        max_entry-newer ts clock.gone (max_entry clock.live clock.at),
        max_entry-newer ts clock.live clock.at,
        max_entry-newer ts (keep_from cutoff clock.gone) (max_entry live at),
        max_entry-newer ts live at,
        keep_from-any_entry cutoff ts clock.gone,
        keep_from-any_entry cutoff ts clock.live,
        at_from-newer cutoff ts clock.at,
      )
      | inr (t, e) ↦ ground (
        arith,
        max_entry-newer ts clock.gone (max_entry clock.live clock.at),
        max_entry-newer ts clock.live clock.at,
        max_entry-newer ts (keep_from cutoff clock.gone) (max_entry clock.live at),
        max_entry-newer ts clock.live at,
        keep_from-any_entry cutoff ts clock.gone,
        at_from-newer cutoff ts clock.at,
      )
    ]

under_same :
    (cutoff ts : ℕ) (clock : Clock) (path : KeyPath)
    → cutoff ≤ ts
    → newer_beneath (prune_clock cutoff clock) path ts ≡ newer_beneath clock path ts
unfolding newer_beneath prune_clock
under_same cutoff ts clock path h =
    let test = beneath path false in
    elim (Option-cases (at_from cutoff clock.at)) [
      | inl e ↦ ground (
        arith,
        keep_from-any_newer cutoff ts test clock.gone,
        keep_from-any_newer cutoff ts test clock.live,
        at_from-newer cutoff ts clock.at,
      )
      | inr (t, e) ↦
          ground
            (arith, keep_from-any_newer cutoff ts test clock.gone, at_from-newer cutoff ts clock.at)
    ]

stale_from-same :
    (ts : ℕ) (a b : Clock) (above path : KeyPath)
    → ((p : KeyPath) → newer (live_at a p) ts ≡ newer (live_at b p) ts)
    → stale_from a above path ts ≡ stale_from b above path ts
unfolding stale_from
stale_from-same ts a b above [] h = refl
stale_from-same ts a b above (seg ∷ path) h =
    rw (h above, stale_from-same ts a b (above ++ seg ∷ []) path h) refl

-- Of a clock whose maps have no key twice, for a change that is not older than the cutoff: a pruned
-- clock answers every question of the merge as it did before: whether something in the record is newer, a write or a birth at a path, a
-- deletion of it, anything beneath it, and a container above it.
pub prune_clock-SameVerdicts :
    (cutoff ts : ℕ) (clock : Clock)
    → cutoff ≤ ts
    → IsDistinct clock.live
    → IsDistinct clock.gone
    → SameVerdicts ts (prune_clock cutoff clock) clock
unfolding prune_clock
prune_clock-SameVerdicts cutoff ts clock h k k' =
    let born : (path : KeyPath)
        → newer (live_at (prune_clock cutoff clock) path) ts ≡ newer (live_at clock path) ts =
      λ path. born_same cutoff ts clock path h k in
    record {
      whole = whole_same cutoff ts clock h;
      born = born;
      deleted = λ path. rw (keep_from-get cutoff path clock.gone k') (at_from-newer cutoff ts _ h);
      under = λ path. under_same cutoff ts clock path h;
      containers =
          λ above path. stale_from-same ts (prune_clock cutoff clock) clock above path born;
    }
