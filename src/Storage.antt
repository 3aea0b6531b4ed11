-- ===== src/Storage.antt =====
-- server/storage.js: `memoryStorage`, and what it keeps of a store.
use lazy_storage.Base.{
  String, ℕ, Bool, true, false, Option, none, some, List, [], ◌∷◌, ◌++◌, leb, if◌then◌else◌,
  KeyPath, path_eq, Map, map_set, map_delete, string_eq,
}
use lazy_storage.Store.State.{Commit, Row, Entry, Replica}
use lazy_storage.Doc.State.{Place}
pub mod Mirror

pub record Memory : Type 0 where
  pub records : Map KeyPath Row
  pub log : List Entry
  pub replicas : Map String Replica
  pub version : ℕ
  pub epoch : Option String
  pub schema : Option ℕ
  pub seen : Bool

-- `memoryStorage()`
abbrev pub memory_storage : Memory
memory_storage = record {
  records = [];
  log = [];
  replicas = [];
  version = 0;
  epoch = none;
  schema = none;
  seen = false;
}

-- `recordKey`: the JSON of a collection and an id, or null.
abbrev pub row_key : Place → KeyPath
row_key place = elim place.id [ none ↦ place.c ∷ [] | some id ↦ place.c ∷ id ∷ [] ]

unfoldable pub delete_rows : List Place → Map KeyPath Row → Map KeyPath Row
delete_rows [] m = m
delete_rows (place ∷ places) m = delete_rows places (map_delete (row_key place) m)

unfoldable pub set_rows : List Row → Map KeyPath Row → Map KeyPath Row
set_rows [] m = m
set_rows (row ∷ rows) m = set_rows rows (map_set (row_key row.place) row m)

abbrev pub set_replica : Option (String × Replica) → Map String Replica → Map String Replica
set_replica none m = m
set_replica (some (id, replica)) m = map_set id replica m

unfoldable pub forget_ids : List String → Map String Replica → Map String Replica
forget_ids [] m = m
forget_ids (id ∷ ids) m = forget_ids ids (map_delete id m)

-- `log.filter(e => e.v >= floor)`
unfoldable pub from_version : ℕ → List Entry → List Entry
from_version floor [] = []
from_version floor (entry ∷ log) =
    let rest = from_version floor log in if leb floor entry.v then entry ∷ rest else rest

abbrev pub push_log : Option Entry → List Entry → List Entry
push_log none log = log
push_log (some entry) log = log ++ entry ∷ []

abbrev pub cut_log : Option ℕ → List Entry → List Entry
cut_log none log = log
cut_log (some floor) log = from_version floor log

-- `commit`
unfoldable pub commit_memory : Commit → Memory → Memory
commit_memory change memory = record {
  records = set_rows change.upserts (delete_rows change.deletes memory.records);
  log = cut_log change.log_floor (push_log change.log memory.log);
  replicas = forget_ids change.forget_replicas (set_replica change.replica memory.replicas);
  version = change.version;
  epoch = some change.epoch;
  schema = some change.schema;
  seen = true;
}

-- What `load` gives: nothing before the first commit.
abbrev pub load_memory : Memory → Option Memory
load_memory memory = if memory.seen then some memory else none
