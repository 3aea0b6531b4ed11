-- ===== src/Doc/Inside.antt =====
-- core/doc.js: the blocks `put`, `set` and `del` of `run`, inside a record.
use lazy_storage.Base.{
  String, Bool, true, false, not, ◌&&◌, ◌||◌, Option, none, some, [], ◌∷◌, if◌then◌else◌, is_there,
  KeyPath, path_eq, map_get, map_set,
}
use lazy_storage.Json.{Value, object, get_field, set_field, field, end}
use lazy_storage.Doc.Clocks.{live_at, newer_beneath, set_live, newer, drop_beneath, stamp}
use lazy_storage.Doc.State.{Doc, clock_at, relink, put_clock, put_value}
use lazy_storage.Doc.Remove.{land, newer_there, del, set, put, missing}
use lazy_storage.Doc.Enter.{value_in, enter, refused, entered, Entry}
use lazy_storage.Paths.{delete_at, update_at, last_segment, fields_of, parent_path}
use lazy_storage.Doc.Whole.{orphaned}
use lazy_storage.Doc.Call.{
  writes_put, Call, St, found, key_of, Step, object_there, judging, losing, done, change_at, checks,
  merge,
}

-- `parent[last] = value`, and `delete parent[last]`
abbrev pub set_property : String → Value → Value → Value
set_property key v (object fs) = object (set_field key v fs)
set_property key v node = node

abbrev pub in_record : Call → (Value → Value) → Option Value → Doc → Doc
in_record k f none d = d
in_record k f (some node) d = put_value (key_of k) (f node) d

unfoldable pub write_value : Call → KeyPath → Value → Doc → Doc
write_value k path v d =
    in_record k (λ node. update_at node (parent_path path) (set_property (last_segment path) v))
      (found k d) d

unfoldable pub erase_value : Call → KeyPath → Doc → Doc
erase_value k path d = in_record k (λ node. delete_at node path) (found k d) d

-- The last line: the index is brought up to date for a field of the record.
unfoldable pub reindex : Call → KeyPath → Doc → Doc
reindex k (seg ∷ []) d = relink k.sh k.c k.id d
reindex k path d = d

-- What is there at the path: its parent's own property.
unfoldable pub current : Call → Doc → KeyPath → Option Value
current k d path = get_field (last_segment path) (fields_of (value_in k d (parent_path path)))

-- A put where nothing is.
unfoldable pub put_new : Call → KeyPath → Value → St → St
put_new k path v (d, out) =
    let clock = clock_at d (key_of k) in
    (
      reindex k path (
          put_clock (key_of k)
            (stamp k.sh k.c k.id path v k.ts (drop_beneath clock path true false))
            (write_value k path v d)),
      land (change_at k path (put v)) out,
    )

-- Whether a write at a path loses to what is there, to a deletion, or to something beneath it.
unfoldable pub outdated : Call → Doc → KeyPath → Bool
outdated k d path =
    newer (live_at (clock_at d (key_of k)) path) k.ts
    || newer (map_get path (clock_at d (key_of k)).gone) k.ts
    || object_there (current k d path) && newer_beneath (clock_at d (key_of k)) path k.ts

unfoldable pub set_there : Call → KeyPath → Value → St → St
set_there k path v (d, out) =
    let clock = clock_at d (key_of k) in
    (
      reindex k path (
          put_clock (key_of k)
            (set_live (drop_beneath clock path true (object_there (current k d path))) path k.ts)
            (write_value k path v d)),
      land (change_at k path (set v)) out,
    )

-- The blocks `put` and `set`, once the parent is there.
unfoldable pub write_inside : Call → KeyPath → Value → St → Step
write_inside k path v (d, out) =
    if writes_put k path v && not (is_there (current k d path))
    then (if judging k.mode && newer (map_get path (clock_at d (key_of k)).gone) k.ts
        then done (losing k path newer_there (d, out))
        else done (put_new k path v (d, out)))
    else if writes_put k path v && object_there (current k d path)
    then merge (d, out)
    else if judging k.mode && outdated k d path
    then done (losing k path newer_there (d, out))
    else done (set_there k path v (d, out))

-- A field that names a parent record which is not there.
unfoldable pub orphans : Call → Doc → KeyPath → Value → Bool
orphans k d (seg ∷ []) v = orphaned k.sh d k.c (field seg v end)
orphans k d path v = false

unfoldable pub write_entered : Call → KeyPath → Value → St → Step
write_entered k path v (d, out) =
    if checks k.mode && orphans k d path v
    then done (losing k path missing (d, out))
    else write_inside k path v (d, out)

unfoldable pub after_write : Call → KeyPath → Value → Entry → Step
after_write k path v (refused why st) = done (losing k path why st)
after_write k path v (entered st) = write_entered k path v st

-- A put or a set at a path inside a record.
unfoldable pub write_path : Call → KeyPath → Value → St → Step
write_path k path v st = after_write k path v (enter k path st)

unfoldable pub erase_there : Call → KeyPath → St → St
erase_there k path (d, out) =
    let clock = drop_beneath (clock_at d (key_of k)) path true (object_there (current k d path)) in
    (
      reindex k path (
          put_clock (key_of k) (record clock { gone = map_set path k.ts clock.gone })
            (erase_value k path d)),
      land (change_at k path del) out,
    )

-- Whether a deletion loses: to the time of what is there, or to something beneath it.
unfoldable pub outlived : Call → Doc → KeyPath → Bool
outlived k d path =
    newer (live_at (clock_at d (key_of k)) path) k.ts
    || object_there (current k d path) && newer_beneath (clock_at d (key_of k)) path k.ts

-- The block `del`, once the parent is there.
unfoldable pub delete_inside : Call → KeyPath → St → St
delete_inside k path (d, out) =
    if not (is_there (current k d path))
    then (d, out)
    else if judging k.mode && outlived k d path
    then losing k path newer_there (d, out)
    else erase_there k path (d, out)

unfoldable pub after_delete : Call → KeyPath → Entry → St
after_delete k path (refused why st) = losing k path why st
after_delete k path (entered st) = delete_inside k path st

-- A deletion at a path inside a record.
unfoldable pub delete_path : Call → KeyPath → St → St
delete_path k path st = after_delete k path (enter k path st)
