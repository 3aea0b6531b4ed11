-- ===== src/Doc/Run.antt =====
-- core/doc.js: `run`, which decides one change. Its blocks are functions of their own, in the order
-- of the source.
use lazy_storage.Base.{
  ℕ, Bool, false, not, List, [], ◌∷◌, ◌++◌, if◌then◌else◌, KeyPath, Result, ok, err,
}
use lazy_storage.Json.{Value, object, Fields, field, end, null}
use lazy_storage.Shape.{Shape, is_singleton, has}
use lazy_storage.Doc.State.{Doc, note}
use lazy_storage.Doc.Remove.{Change, Op, put, no_out, set, del, Out}
use lazy_storage.Doc.Call.{Step, St, Call, Mode, done, merge}
use lazy_storage.Doc.Whole.{delete_whole, write_record}
use lazy_storage.Doc.Inside.{write_path, delete_path}

-- A deletion, of the record or of a path inside it.
unfoldable pub run_delete : Call → KeyPath → St → St
run_delete k [] (d, out) = delete_whole k (note k.sh k.c k.id d, out)
run_delete k (seg ∷ path) (d, out) = delete_path k (seg ∷ path) (note k.sh k.c k.id d, out)

-- A put or a set, up to where it merges.
unfoldable pub run_step : Call → KeyPath → Value → St → Step
run_step k [] v (d, out) = write_record k v (note k.sh k.c k.id d, out)
run_step k (seg ∷ path) v (d, out) = write_path k (seg ∷ path) v (note k.sh k.c k.id d, out)

abbrev pub settled : Step → St
settled (done st) = st
settled (merge st) = st

-- What a merge goes on with.
unfoldable pub merge_with : (St → St) → Step → St
merge_with f (done st) = st
merge_with f (merge st) = f st

-- A value merged into a container: each field is a change of its own (`changeFor`), null a deletion.
-- Only an object is ever merged.
unfoldable mutual
  pub run_write : Call → KeyPath → Value → St → St
  run_write k path (object fs) st =
      merge_with (run_fields k path fs) (run_step k path (object fs) st)
  run_write k path v st = settled (run_step k path v st)

  pub run_fields : Call → KeyPath → Fields → St → St
  run_fields k path end st = st
  run_fields k path (field key null fs) st =
      run_fields k path fs (run_delete k (path ++ key ∷ []) st)
  run_fields k path (field key v fs) st = run_fields k path fs (run_write k (path ++ key ∷ []) v st)

unfoldable pub run : Call → KeyPath → Op → St → St
run k path (put v) st = run_write k path v st
run k path (set v) st = run_write k path v st
run k path del st = run_delete k path st

-- What the doc throws: on a collection that the state does not have, a TypeError of the engine; on the
-- deletion of a singleton; on a trial within a trial. That `structuredClone` throws on a function in
-- a value is not modelled: nothing tells functions from the other values that are no JSON.
pub data DocError : Type 0 where
  no_container singleton_deleted trial_running : DocError

unfoldable pub refuses_delete : Shape → Change → KeyPath → Op → Bool
refuses_delete sh change [] del = is_singleton sh change.c
refuses_delete sh change path op = false

-- `apply`: one change decided at time `ts`. Reading `state[c]` throws where `c` is no top level of the
-- shape, before anything is done.
unfoldable pub apply : Shape → Change → ℕ → Mode → Doc → Result DocError St
apply sh change ts mode d =
    if not (has sh change.c)
    then err no_container
    else if refuses_delete sh change change.path change.op
    then err singleton_deleted
    else ok (
        run (record { sh = sh; mode = mode; ts = ts; c = change.c; id = change.id }) change.path
          change.op (d, no_out))

-- The loop of an op's changes (server/store.js), as a trial runs it: what was done stays done where
-- a change throws.
unfoldable pub apply_all : Shape → ℕ → Mode → List Change → St → Doc × Result DocError Out
apply_all sh ts mode [] (d, out) = (d, ok out)
apply_all sh ts mode (change ∷ changes) (d, out) =
    let rest = apply_all sh ts mode changes (
      run (record { sh = sh; mode = mode; ts = ts; c = change.c; id = change.id }) change.path
        change.op (d, out)) in
    if not (has sh change.c)
    then (d, err no_container)
    else if refuses_delete sh change change.path change.op
    then (note sh change.c change.id d, err singleton_deleted)
    else rest
