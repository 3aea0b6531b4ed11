-- ===== src/Store/Compact.antt =====
-- server/store.js, `compact`: what is older than the retention window is forgotten.
use lazy_storage.Base.{
  String, str_eq, ℕ, ◌+◌, ◌-◌, Bool, true, not, ◌&&◌, Option, none, some, List, [], ◌∷◌, ltb, leb,
  if◌then◌else◌, is_there, path_eq, Map, map_get, map_set, map_delete, Result, ok, string_eq,
}
use lazy_storage.Store.State.{StoreState, Options, Replica, owner_eq, Code, Row}
use lazy_storage.Shape.{Shape, record_key}
use lazy_storage.Doc.State.{Place, Doc, get, clock_at}
use lazy_storage.Doc.Prune.{prune}
use lazy_storage.Store.Replicas.{owner_of, remove_id, ids_or_none, empty_commit}
use lazy_storage.Store.Queue.{commit}

-- The replicas not heard from within the window.
unfoldable pub unheard : ℕ → Map String Replica → List String
unheard cutoff [] = []
unheard cutoff ((id, r) ∷ m) =
    let rest = unheard cutoff m in
    if not (str_eq id "server") && ltb r.seen cutoff then id ∷ rest else rest

-- The rows of the records that were pruned.
unfoldable pub rows_pruned : Shape → Doc → List Place → List Row
rows_pruned sh d [] = []
rows_pruned sh d (place ∷ places) = elim (get sh d place.c place.id) [
  | none ↦ rows_pruned sh d places
  | some v ↦
      record { place = place; content = v; clock = clock_at d (record_key sh place.c place.id) }
      ∷ rows_pruned sh d places
]

-- Whether the last was long enough ago, or there was none.
abbrev pub is_due : ℕ → ℕ → Option ℕ → Bool
is_due every wall none = true
is_due every wall (some last) = leb (last + every) wall

module _ {D : Type 0} where
  -- Each taken from its owner's, then from the replicas.
  unfoldable pub forget_unheard : List String → StoreState D → StoreState D
  forget_unheard [] s = s
  forget_unheard (id ∷ ids) s =
      let owner = owner_of (map_get id s.replicas) in
      forget_unheard ids (record s {
        replicas = map_delete id s.replicas;
        replicas_of =
            map_set owner (remove_id id (ids_or_none (map_get owner s.replicas_of))) s.replicas_of;
      })

  unfoldable pub compacted :
      Options D → List Place → List String → StoreState D → StoreState D × Result Code Unit
  compacted o [] [] s = (s, ok tt)
  compacted o pruned forgotten s =
      commit o
        (record empty_commit {
          upserts = rows_pruned o.shape s.doc pruned;
          forget_replicas = forgotten;
        })
        s

  -- With a cutoff before the first millisecond nothing is older.
  unfoldable pub compact_before : Options D → ℕ → StoreState D → StoreState D × Result Code Unit
  compact_before o cutoff s =
      let (d, pruned) = prune o.shape cutoff s.doc in
      let forgotten = unheard cutoff s.replicas in
      compacted o pruned forgotten (forget_unheard forgotten (record s { doc = d }))

  unfoldable pub compact_within :
      Options D → Option ℕ → ℕ → StoreState D → StoreState D × Result Code Unit
  compact_within o none wall s = (s, ok tt)
  compact_within o (some window) wall s = compact_before o (wall - window) s

  unfoldable pub compact : Options D → ℕ → StoreState D → StoreState D × Result Code Unit
  compact o wall s = compact_within o o.retention wall (record s { last_compaction = some wall })

  unfoldable pub maybe_compact : Options D → ℕ → StoreState D → StoreState D × Result Code Unit
  maybe_compact o wall s =
      if is_there o.retention && is_due o.compact_every wall s.last_compaction
      then compact o wall s
      else (s, ok tt)
