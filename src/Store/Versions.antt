-- ===== src/Store/Versions.antt =====
-- server/store.js: the versions of the log, and what a client that has a version lacks.
use lazy_storage.Base.{
  ℕ, zero, suc, ◌+◌, ◌-◌, ◌≤◌, ◌<◌, ◌≡◌, refl, sym, ap, ◌⊎◌, inl, inr, Option, none, some, List, [],
  ◌∷◌, ◌++◌, arith, ltb, ◌==◌, Bool-cases, length, drop,
}
use lazy_storage.Store.State.{Entry}
use lazy_storage.Store.Log.{after_version, push_entry, delta_since, following}

-- The versions after one, each once, up to another.
abbrev pub Runs : ℕ → ℕ → List Entry → Type 0
Runs from to [] = from ≡ to
Runs from to (entry ∷ log) = (entry.v ≡ from + 1) × Runs (from + 1) to log

Runs-length : (from to : ℕ) (log : List Entry) → Runs from to log → from + length log ≡ to
Runs-length from to [] h = ground arith
Runs-length from to (entry ∷ log) h = ground (arith, Runs-length (from + 1) to log h.1)

pub Runs-append :
    (from to : ℕ) (log : List Entry) (entry : Entry)
    → Runs from to log
    → entry.v ≡ to + 1
    → Runs from (to + 1) (log ++ entry ∷ [])
Runs-append from to [] entry h e = (rw h e, ap (λ n. n + 1) h)
Runs-append from to (first ∷ log) entry h e = (h.0, Runs-append (from + 1) to log entry h.1 e)

Runs-drop :
    (n from to : ℕ) (log : List Entry)
    → n ≤ length log
    → Runs from to log
    → Runs (from + n) to (drop n log)
Runs-drop zero from to log le h = let e : from + 0 ≡ from = omega arith in rw e h
Runs-drop (suc n) from to [] le h = absurd (omega arith)
Runs-drop (suc n) from to (entry ∷ log) le h =
    let e : from + suc n ≡ from + 1 + n = omega arith in
    rw e (Runs-drop n (from + 1) to log (omega arith) h.1)

length-drop : (n : ℕ) (log : List Entry) → length (drop n log) ≡ length log - n
length-drop zero log = omega arith
length-drop (suc n) [] = omega arith
length-drop (suc n) (entry ∷ log) = ground (arith, length-drop n log)

-- A log that ends at the store's version, no longer than it may be.
pub record IsLog (most version : ℕ) (log : List Entry) : Type 0 where
  pub runs : Runs (version - length log) version log
  pub within : length log ≤ most

Runs-IsLog :
    (most from version : ℕ) (log : List Entry)
    → Runs from version log
    → length log ≤ most
    → IsLog most version log
Runs-IsLog most from version log h le =
    let e : version - length log ≡ from = omega (arith, Runs-length from version log h) in
    record { runs = rw e h; within = le }

pub push_entry-IsLog :
    (most version : ℕ) (entry : Entry) (log : List Entry)
    → entry.v ≡ version + 1
    → IsLog most version log
    → IsLog most (version + 1) (push_entry most entry log)
unfolding push_entry
push_entry-IsLog most version entry log e h =
    let longer = log ++ entry ∷ [] in
    let n = length longer - most in
    Runs-IsLog most (version - length log + n) (version + 1) (drop n longer)
      (Runs-drop n _ (version + 1) longer (omega arith) (Runs-append _ version log entry h.runs e))
      (ground (arith, length-drop n longer))

-- What `delta_since` may give.
abbrev pub IsDelta : ℕ → ℕ → List Entry → Option (List Entry) → Type 0
IsDelta since version log none = (version < since) ⊎ (since < version - length log)
IsDelta since version log (some entries) =
    Runs since version entries × (entries ≡ drop (length log - (version - since)) log)

drop_all : (log : List Entry) → drop (length log) log ≡ []
drop_all [] = refl
drop_all (entry ∷ log) = drop_all log

drop_nil : (n : ℕ) → drop {A = Entry} n [] ≡ []
drop_nil zero = refl
drop_nil (suc n) = refl

after_version-drop :
    (since from to : ℕ) (log : List Entry)
    → Runs from to log
    → from ≤ since
    → after_version since log ≡ drop (since - from) log
unfolding after_version
after_version-drop since from to [] h le = sym (drop_nil (since - from))
after_version-drop since from to (entry ∷ log) h le = elim (Bool-cases (ltb since entry.v)) [
  | inl e ↦
      let none_skipped : since - from ≡ 0 = ground (arith, h.0, e) in rw (e, none_skipped) refl
  | inr e ↦
      let one_skipped : since - from ≡ suc (since - (from + 1)) = ground (arith, h.0, e) in
      rw (e, one_skipped) (after_version-drop since (from + 1) to log h.1 (ground (arith, h.0, e)))
]

-- The log after a version that is not the last begins with the next, if the log reaches back that far.
following-Runs :
    (since to : ℕ) (log : List Entry)
    → Runs since to log
    → since < to
    → following since log ≡ some log
unfolding following
following-Runs since to [] h lt = absurd (omega (arith, h))
following-Runs since to (entry ∷ log) h lt = ground (arith, h.0)

following-none :
    (since from to : ℕ) (log : List Entry)
    → Runs from to log
    → since < from
    → following since log ≡ none
unfolding following
following-none since from to [] h lt = refl
following-none since from to (entry ∷ log) h lt = ground (arith, h.0)

after_version-whole :
    (since from to : ℕ) (log : List Entry)
    → Runs from to log
    → since < from
    → after_version since log ≡ log
unfolding after_version
after_version-whole since from to [] h lt = refl
after_version-whole since from to (entry ∷ log) h lt = ground (arith, h.0)

reaching-IsDelta :
    (since from version : ℕ) (log : List Entry)
    → Runs from version log
    → from ≤ since
    → since < version
    → IsDelta since version log (following since (after_version since log))
reaching-IsDelta since from version log h le lt =
    let long = Runs-length from version log h in
    let there : since - from ≡ length log - (version - since) = omega (arith, long) in
    let at : from + (since - from) ≡ since = omega arith in
    let rest = Runs-drop (since - from) from version log (omega (arith, long)) h in
    let left : Runs since version (drop (since - from) log) = rw at at rest in
    rw (after_version-drop since from version log h le, following-Runs since version _ left lt)
      (left, rw there refl)

-- On a log that ends at the store's version: what `delta_since` gives is the log's end, each version
-- after `since` once and in order, up to the store's; it gives nothing only for a version that the
-- store has not reached or that the log does not reach back to.
pub delta_since-IsDelta :
    (most since version : ℕ) (log : List Entry)
    → IsLog most version log
    → IsDelta since version log (delta_since (some since) version log)
unfolding delta_since
delta_since-IsDelta most since version log h = elim (Bool-cases (ltb version since)) [
  | inl e ↦ rw e (inl (ground (arith, e)))
  | inr e ↦ elim (Bool-cases (since == version)) [
    | inl f ↦
        let here : since ≡ version = ground (arith, f) in
        let none_lack : length log - (version - since) ≡ length log = omega (arith, here) in
        rw (e, f) (here, rw (none_lack, drop_all log) refl)
    | inr f ↦ elim (Bool-cases (ltb since (version - length log))) [
      | inl g ↦
          rw
            (
              e,
              f,
              after_version-whole since _ version log h.runs (ground (arith, g)),
              following-none since _ version log h.runs (ground (arith, g)),
            )
            (inr (ground (arith, g)))
      | inr g ↦
          rw (e, f)
            (reaching-IsDelta since _ version log h.runs (ground (arith, g)) (ground (arith, e, f)))
    ]
  ]
]
