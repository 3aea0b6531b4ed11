-- ===== src/Doc/Prune.antt =====
-- core/doc.js: the newest times, and forgetting the old ones.
use lazy_storage.Base.{
  String, str_eq, ℕ, Bool, false, not, ◌&&◌, ◌||◌, Option, none, some, List, [], ◌∷◌, ◌++◌, ltb,
  if◌then◌else◌, KeyPath, Map, is_there,
}
use lazy_storage.Shape.{Shape, is_singleton, record_key}
use lazy_storage.Doc.Clocks.{Clock, max_of, latest_of}
use lazy_storage.Doc.State.{Doc, Place, clock_of, put_clock}
use lazy_storage.Json.{Value}

-- The newest time in a record.
unfoldable pub newest : Shape → String → Option String → Doc → Option ℕ
unfolding max_of clock_of
newest sh c id d = max_of (clock_of d (record_key sh c id))

latest_from : Map KeyPath Clock → Option ℕ → Option ℕ
unfolding max_of
latest_from [] most = most
latest_from ((key, clock) ∷ m) most = latest_from m (latest_of most (max_of (some clock)))

-- The newest time in any record.
unfoldable pub latest : Doc → Option ℕ
unfolding latest_from
latest d = elim d.clocks [ none ↦ none | some m ↦ latest_from m none ]

-- The entries of a map that are not older than the cutoff.
unfoldable pub keep_from : ℕ → Map KeyPath ℕ → Map KeyPath ℕ
keep_from cutoff [] = []
keep_from cutoff ((key, ts) ∷ m) =
    let rest = keep_from cutoff m in if ltb ts cutoff then rest else (key, ts) ∷ rest

abbrev pub at_from : ℕ → Option ℕ → Option ℕ
at_from cutoff none = none
at_from cutoff (some t) = if ltb t cutoff then none else some t

-- One clock: its deletions, its birth, and its writes once the birth is gone too.
unfoldable pub prune_clock : ℕ → Clock → Clock
unfolding keep_from
prune_clock cutoff clock = record {
  at = at_from cutoff clock.at;
  live = if is_there (at_from cutoff clock.at) then clock.live else keep_from cutoff clock.live;
  gone = keep_from cutoff clock.gone;
}

abbrev pub any_older : ℕ → Map KeyPath ℕ → Bool
any_older cutoff [] = false
any_older cutoff ((key, ts) ∷ m) = ltb ts cutoff || any_older cutoff m

-- Whether a clock loses anything: its record is said to be touched.
unfoldable pub prunes : ℕ → Clock → Bool
prunes cutoff clock =
    any_older cutoff clock.gone
    || (is_there clock.at && not (is_there (at_from cutoff clock.at)))
    || (not (is_there (at_from cutoff clock.at)) && any_older cutoff clock.live)

-- The records that are there, as the loops visit them: those of a collection, or a singleton's one.
abbrev pub ids_in : Shape → String → Map KeyPath Value → List (Option String)
ids_in sh c [] = []
ids_in sh c ((seg ∷ id ∷ [], v) ∷ m) =
    if str_eq seg c then some id ∷ ids_in sh c m else ids_in sh c m
ids_in sh c (row ∷ m) = ids_in sh c m

prune_record : Shape → ℕ → String → Option String → Doc × List Place → Doc × List Place
unfolding prune_clock prunes clock_of put_clock
prune_record sh cutoff c id (d, touched) = elim (clock_of d (record_key sh c id)) [
  | none ↦ (d, touched)
  | some clock ↦ (
    put_clock (record_key sh c id) (prune_clock cutoff clock) d,
    if prunes cutoff clock then touched ++ record { c = c; id = id } ∷ [] else touched,
  )
]

prune_ids : Shape → ℕ → String → List (Option String) → Doc × List Place → Doc × List Place
unfolding prune_record
prune_ids sh cutoff c [] st = st
prune_ids sh cutoff c (id ∷ ids) st = prune_ids sh cutoff c ids (prune_record sh cutoff c id st)

prune_all : Shape → ℕ → List String → Doc × List Place → Doc × List Place
unfolding prune_ids
prune_all sh cutoff [] st = st
prune_all sh cutoff (c ∷ cs) (d, touched) = prune_all sh cutoff cs (
    prune_ids sh cutoff c (if is_singleton sh c then none ∷ [] else ids_in sh c d.state)
      (d, touched))

unfoldable pub prune : Shape → ℕ → Doc → Doc × List Place
unfolding prune_all
prune sh cutoff d = elim d.clocks [
  | none ↦ (d, [])
  | some m ↦ prune_all sh cutoff (sh.collections ++ sh.singletons) (d, [])
]
