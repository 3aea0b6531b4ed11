-- ===== src/Store/Land.antt =====
-- server/store.js: changes that landed, into the log, to storage and to every session.
use lazy_storage.Base.{
  String, ℕ, ◌+◌, Option, none, some, List, [], ◌∷◌, KeyPath, path_eq, Map, map_set, Result, ok,
  err,
}
use lazy_storage.Store.State.{Options, Told, StoreState, Replica, Commit, Row, Code, patch, op_seen}
use lazy_storage.Doc.Remove.{Change, Lost}
use lazy_storage.Shape.{Shape, record_key}
use lazy_storage.Doc.State.{Doc, Place, get, clock_at}
use lazy_storage.Store.Log.{push_entry, first_version}
use lazy_storage.Store.Queue.{later, commit}
use lazy_storage.Store.Replicas.{empty_commit}

-- `rowsOf`: the places of the changes, each once.
unfoldable pub touched : Shape → List Change → Map KeyPath Place → Map KeyPath Place
touched sh [] m = m
touched sh (change ∷ changes) m =
    touched sh changes
      (map_set (record_key sh change.c change.id) (record { c = change.c; id = change.id }) m)

-- What the commit writes of each: its row, or that it is gone.
unfoldable pub rows_at : Shape → Doc → Map KeyPath Place → List Row × List Place
rows_at sh d [] = ([], [])
rows_at sh d ((key, place) ∷ m) =
    let (upserts, deletes) = rows_at sh d m in
    elim (get sh d place.c place.id) [
      | none ↦ (upserts, place ∷ deletes)
      | some v ↦ (record { place = place; content = v; clock = clock_at d key } ∷ upserts, deletes)
    ]

unfoldable pub rows_of : Shape → Doc → List Change → List Row × List Place
rows_of sh d applied = rows_at sh d (touched sh applied [])

module _ {D : Type 0} where
  -- The next version, in the log.
  abbrev pub logged : Options D → ℕ → List Change → StoreState D → StoreState D
  logged o ts applied s = record s {
    version = s.version + 1;
    log = push_entry o.delta_log (record { v = s.version + 1; ts = ts; changes = applied }) s.log;
  }

  abbrev pub landing_commit :
      Options D → ℕ → List Change → Option (String × Replica) → StoreState D → Commit
  landing_commit o ts applied replica s =
      let (upserts, deletes) = rows_of o.shape s.doc applied in
      record empty_commit {
        upserts = upserts;
        deletes = deletes;
        replica = replica;
        log = some (record { v = s.version; ts = ts; changes = applied });
        log_floor = some (first_version s.version s.log);
      }

  abbrev pub and_tell : Told → StoreState D × Result Code Unit → StoreState D × Result Code Unit
  and_tell t (s, ok done) = (later t s, ok tt)
  and_tell t (s, err code) = (s, err code)

  unfoldable pub commit_landed :
      Options D
      → ℕ
      → List Change
      → Option (String × Replica)
      → StoreState D
      → StoreState D × Result Code Unit
  commit_landed o ts applied replica s =
      and_tell (patch (record { v = s.version; ts = ts; changes = applied }))
        (commit o (landing_commit o ts applied replica s) s)

  -- Nothing landed: the replica's progress alone.
  unfoldable pub commit_progress :
      Options D → Option (String × Replica) → StoreState D → StoreState D × Result Code Unit
  commit_progress o none s = (s, ok tt)
  commit_progress o (some replica) s = commit o (record empty_commit { replica = some replica }) s

  unfoldable pub landed_changes :
      Options D
      → List Change
      → ℕ
      → Option (String × Replica)
      → StoreState D
      → StoreState D × Result Code Unit
  landed_changes o [] ts replica s = commit_progress o replica s
  landed_changes o (change ∷ applied) ts replica s =
      commit_landed o ts (change ∷ applied) replica (logged o ts (change ∷ applied) s)

  abbrev pub tell_seen :
      String
      → Option ℕ
      → List Change
      → List Lost
      → StoreState D × Result Code Unit
      → StoreState D × Result Code Unit
  tell_seen id seq applied lost (s, ok done) =
      (later (op_seen id seq applied lost s.version) s, ok tt)
  tell_seen id seq applied lost (s, err code) = (s, err code)

  -- `landed`: with what observes the ops told, once it is stored.
  unfoldable pub landed :
      Options D
      → List Change
      → ℕ
      → String
      → Option Replica
      → Option ℕ
      → List Lost
      → StoreState D
      → StoreState D × Result Code Unit
  landed o applied ts id entry seq lost s =
      tell_seen id seq applied lost
        (landed_changes o applied ts (elim entry [ none ↦ none | some r ↦ some (id, r) ]) s)
