-- ===== src/Store/Writes.antt =====
-- server/store.js: the server's own writes, `patch`, `del` and `run`, decided as the authority, now.
-- A diff is an object; its keys are the store's collections and singletons.
use lazy_storage.Base.{
  String, ℕ, Bool, not, Option, none, some, List, [], ◌∷◌, ◌++◌, if◌then◌else◌, KeyPath, Result,
  ◌>>=◌, ◌>>◌, ok, err,
}
use lazy_storage.Store.State.{StoreState, Options, Code}
use lazy_storage.Shape.{Shape, is_singleton, has}
use lazy_storage.Doc.Remove.{Change, Op, del, Out, put, no_out, set}
use lazy_storage.Checks.{ModelError, assert_change}
use lazy_storage.Json.{Value, Fields, object, field, end, null, is_null}
use lazy_storage.Doc.State.{Doc}
use lazy_storage.Doc.Run.{DocError, apply_all}
use lazy_storage.Clock.{stamp}
use lazy_storage.Doc.Call.{authority}
use lazy_storage.Store.Land.{landed}

-- What a write of the server throws.
pub data WriteError : Type 0 where
  disposed_store unknown_key singleton_deleted not_records : WriteError
  not_checked : ModelError → WriteError
  failed_change : DocError → WriteError
  not_saved : Code → WriteError

-- `changeFor`: what writes a value whole.
abbrev pub op_for : Value → Op
op_for null = del
op_for (object fields) = put (object fields)
op_for value = set value

abbrev pub change_for : String → Option String → Value → Change
change_for c id value = record { c = c; id = id; path = []; op = op_for value }

abbrev pub record_changes : String → Fields → List Change
record_changes c end = []
record_changes c (field id value fields) = change_for c (some id) value ∷ record_changes c fields

-- One key of a diff.
unfoldable pub key_changes : Shape → String → Value → Result WriteError (List Change)
key_changes sh c value =
    if not (has sh c)
    then err unknown_key
    else if is_singleton sh c
    then (if is_null value then err singleton_deleted else ok (change_for c none value ∷ []))
    else collection_changes value
  where
    collection_changes : Value → Result WriteError (List Change)
    collection_changes (object fields) = ok (record_changes c fields)
    collection_changes other_value = err not_records

unfoldable pub diff_changes : Shape → Fields → Result WriteError (List Change)
diff_changes sh end = ok []
diff_changes sh (field c value diff) = do
  first ← key_changes sh c value
  rest ← diff_changes sh diff
  ok (first ++ rest)

unfoldable pub check_all : (String → Bool) → Shape → List Change → Result ModelError Unit
check_all is_forbidden sh [] = ok tt
check_all is_forbidden sh (change ∷ changes) = do
  assert_change is_forbidden sh change
  check_all is_forbidden sh changes

module _ {D : Type 0} where
  abbrev pub wrote :
      List Change → StoreState D × Result Code Unit → StoreState D × Result WriteError (List Change)
  wrote applied (s, ok done) = (s, ok applied)
  wrote applied (s, err code) = (s, err (not_saved code))

  -- What landed of a write, told and stored; where a change throws, what was written before it stays.
  unfoldable pub landed_write :
      Options D
      → ℕ
      → StoreState D
      → Doc × Result DocError Out
      → StoreState D × Result WriteError (List Change)
  landed_write o ts s (d, err e) = (record s { doc = d }, err (failed_change e))
  landed_write o ts s (d, ok out) =
      wrote out.applied (landed o out.applied ts "server" none none [] (record s { doc = d }))

  unfoldable pub write_all :
      Options D → ℕ → List Change → StoreState D → StoreState D × Result WriteError (List Change)
  write_all o wall changes s =
      let (ts, clock) = stamp wall s.clock in
      landed_write o ts (record s { clock = clock })
        (apply_all o.shape ts authority changes (s.doc, no_out))

  abbrev pub if_checked :
      Result ModelError Unit
      → StoreState D
      → StoreState D × Result WriteError (List Change)
      → StoreState D × Result WriteError (List Change)
  if_checked (ok done) s r = r
  if_checked (err e) s r = (s, err (not_checked e))

  -- `run`
  unfoldable pub run_server :
      Options D → ℕ → List Change → StoreState D → StoreState D × Result WriteError (List Change)
  run_server o wall changes s =
      if_checked (check_all o.is_forbidden o.shape changes) s (write_all o wall changes s)

  abbrev pub run_changes :
      Options D
      → ℕ
      → Result WriteError (List Change)
      → StoreState D
      → StoreState D × Result WriteError (List Change)
  run_changes o wall (err e) s = (s, err e)
  run_changes o wall (ok changes) s = run_server o wall changes s

  unfoldable pub patch_store :
      Options D → ℕ → Fields → StoreState D → StoreState D × Result WriteError (List Change)
  patch_store o wall diff s =
      if s.disposed
      then (s, err disposed_store)
      else run_changes o wall (diff_changes o.shape diff) s

  -- `del`: of a singleton, the path stands in the place of the id.
  unfoldable pub delete_at_server :
      Options D
      → ℕ
      → String
      → Option String
      → KeyPath
      → StoreState D
      → StoreState D × Result WriteError (List Change)
  delete_at_server o wall c id path s =
      let change : Change = record {
        c = c;
        id = if is_singleton o.shape c then none else id;
        path = path;
        op = del;
      } in
      if s.disposed then (s, err disposed_store) else run_server o wall (change ∷ []) s
