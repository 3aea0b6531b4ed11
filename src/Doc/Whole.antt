-- ===== src/Doc/Whole.antt =====
-- core/doc.js: the block of `run` for a record's own path, and `orphaned`.
use lazy_storage.Base.{
  String, Bool, false, not, ◌&&◌, ◌||◌, some, List, [], ◌∷◌, if◌then◌else◌, is_there, length,
}
use lazy_storage.Json.{Value, get_field, Fields, string, is_object}
use lazy_storage.Shape.{Shape, parents_of, Link}
use lazy_storage.Doc.Clocks.{max_of, stamp_record, newer}
use lazy_storage.Doc.State.{Doc, put_value, get, relink, clock_of, put_clock}
use lazy_storage.Doc.Remove.{subtree_max, visit_remove, land, newer_there, missing}
use lazy_storage.Doc.Call.{
  writes_put, Call, St, key_of, Step, object_there, found, judging, merge, done, change_at, losing,
  op_of, cascades, checks, object_fields,
}

-- Whether the fields of a record of a child collection name a parent that is not there.
unfoldable pub names_missing : Shape → Doc → List Link → Fields → Bool
names_missing sh d [] fs = false
names_missing sh d (l ∷ ls) fs =
    elim (get_field l.name fs) [
      | some (string id) ↦ not (is_there (get sh d l.parent (some id)))
      | _ ↦ false
    ]
    || names_missing sh d ls fs

unfoldable pub orphaned : Shape → Doc → String → Fields → Bool
orphaned sh d c fs = names_missing sh d (parents_of sh.links c) fs

-- The record made, or written whole.
unfoldable pub write_whole : Call → Value → Bool → St → St
write_whole k v is_put (d, out) = (
  relink k.sh k.c k.id (put_clock (key_of k) (stamp_record k.ts) (put_value (key_of k) v d)),
  land (change_at k [] (op_of is_put v)) out,
)

-- Whether the record that a call would make names a parent that is not there.
unfoldable pub makes_orphan : Call → Doc → Value → Bool
makes_orphan k d v =
    not (is_there (found k d)) && is_object v && orphaned k.sh d k.c (object_fields v)

-- Whether something in the record is newer than the call.
unfoldable pub record_newer : Call → Doc → Bool
record_newer k d = is_there (found k d) && newer (max_of (clock_of d (key_of k))) k.ts

-- What is not merged is made, or written whole.
unfoldable pub write_unmerged : Call → Value → Bool → St → St
write_unmerged k v is_put (d, out) =
    if judging k.mode && record_newer k d
    then losing k [] newer_there (d, out)
    else if checks k.mode && makes_orphan k d v
    then losing k [] missing (d, out)
    else write_whole k v is_put (d, out)

-- The block for a record's own path, on a put or a set.
unfoldable pub write_record : Call → Value → St → Step
write_record k v (d, out) =
    if writes_put k [] v && object_there (found k d)
    then merge (d, out)
    else done (write_unmerged k v (writes_put k [] v) (d, out))

-- The block for a record's own path, on a deletion. That of a singleton throws, in `apply`.
unfoldable pub delete_whole : Call → St → St
delete_whole k (d, out) =
    if not (is_there (found k d))
    then (d, out)
    else if judging k.mode && newer (subtree_max k.sh d k.c k.id) k.ts
    then losing k [] newer_there (d, out)
    else visit_remove (length d.state) k.sh (cascades k.mode) (record { c = k.c; id = k.id } ∷ [])
        [] (d, out)
