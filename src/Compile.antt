-- ===== src/Compile.antt =====
-- core/compile.js: a batch of lazy-watch, a diff and its inverse, as the changes it makes to records.
-- `is_marked` stands for lazy-watch's `hasArrayMarker`, and `forbidden` for its `isForbiddenKey`.
-- `none` is undefined. Values are plain data, as `plain` makes them.
use lazy_storage.Base.{
  String, Bool, true, false, not, ◌&&◌, ◌||◌, Option, none, some, List, [], ◌∷◌, ◌++◌,
  if◌then◌else◌, KeyPath, Result, ◌>>=◌, ◌>>◌, ok, err,
}
use lazy_storage.Doc.Remove.{Op, Change, del, put, set}
use lazy_storage.Shape.{Shape, is_register, has, full, is_singleton}
use lazy_storage.Json.{Fields, Value, is_object, object, null, field, end, get_field, is_null}
use lazy_storage.Checks.{
  ModelError, collection_written, unknown_key, throw_if, reserved_name, record_without_object,
  singleton_removed,
}
use lazy_storage.Paths.{value_at}
pub mod Checked
pub mod Accepted
pub mod Batch

-- What a walk is over: a record, and the state that the batch was made on.
pub record Walk : Type 0 where
  pub sh : Shape
  pub forbidden : String → Bool
  pub is_marked : Fields → Bool
  pub state : Value
  pub c : String
  pub id : Option String

abbrev pub change_of : Walk → KeyPath → Op → Change
change_of w path op = record { c = w.c; id = w.id; path = path; op = op }

abbrev pub is_object_there : Option Value → Bool
is_object_there none = false
is_object_there (some v) = is_object v

abbrev pub inverse_fields : Option Value → Fields
inverse_fields (some (object fs)) = fs
inverse_fields _ = end

-- Written and gone again within the batch: a deletion where something was there before.
abbrev pub gone_changes : Walk → KeyPath → Option Value → List Change
gone_changes w path none = []
gone_changes w path (some null) = []
gone_changes w path (some v) = change_of w path del ∷ []

-- The whole value of a leaf, or of a container that was not there.
abbrev pub whole_changes : Walk → KeyPath → Bool → Option Value → Option Value → List Change
whole_changes w path leaf inverse none = gone_changes w path inverse
whole_changes w path leaf inverse (some v) =
    change_of w path (if is_object v && not leaf then put v else set v) ∷ []

unfoldable pub leaf_changes : Walk → KeyPath → Bool → Option Value → List Change
leaf_changes w path leaf inverse =
    whole_changes w path leaf inverse (value_at w.state (full w.sh w.c w.id path))

abbrev pub is_leaf : Walk → KeyPath → Fields → Bool
is_leaf w path fs = is_register w.sh w.c w.id path || w.is_marked fs

unfoldable mutual
  pub walk : Walk → KeyPath → Value → Option Value → Result ModelError (List Change)
  walk w path null inverse = ok (change_of w path del ∷ [])
  walk w path (object fs) inverse =
      let inner = walk_fields w path fs (inverse_fields inverse) in
      if is_leaf w path fs || not (is_object_there inverse)
      then ok (leaf_changes w path (is_leaf w path fs) inverse)
      else inner
  walk w path v inverse = ok (leaf_changes w path true inverse)

  pub walk_fields : Walk → KeyPath → Fields → Fields → Result ModelError (List Change)
  walk_fields w path end inverse = ok []
  walk_fields w path (field key v fs) inverse = do
    throw_if (w.forbidden key) reserved_name
    first ← walk w (path ++ key ∷ []) v (get_field key inverse)
    rest ← walk_fields w path fs inverse
    ok (first ++ rest)

-- A record is written with an object or null, but for a register.
abbrev pub is_no_record : Walk → Value → Bool
is_no_record w null = false
is_no_record w v = not (is_object v) && not (is_register w.sh w.c w.id [])

unfoldable pub walk_records : Walk → Fields → Fields → Result ModelError (List Change)
walk_records w end inverse = ok []
walk_records w (field id v fs) inverse = do
  throw_if (w.forbidden id) reserved_name
  throw_if (is_no_record (record w { id = some id }) v) record_without_object
  first ← walk (record w { id = some id }) [] v (get_field id inverse)
  rest ← walk_records w fs inverse
  ok (first ++ rest)

-- The records of a collection: only an object that is no fragment of an array has any.
abbrev pub walk_collection : Walk → Value → Option Value → Result ModelError (List Change)
walk_collection w (object fs) inverse =
    let inner = walk_records w fs (inverse_fields inverse) in
    if w.is_marked fs then err collection_written else inner
walk_collection w v inverse = err collection_written

-- One key of the diff.
unfoldable pub compile_key : Walk → Value → Option Value → Result ModelError (List Change)
compile_key w node inverse =
    let inside = walk w [] node inverse in
    let records = walk_collection w node inverse in
    if not (has w.sh w.c)
    then err unknown_key
    else if is_singleton w.sh w.c
    then (if is_null node then err singleton_removed else inside)
    else records

unfoldable pub compile_fields : Walk → Fields → Fields → Result ModelError (List Change)
compile_fields w end inverse = ok []
compile_fields w (field c node diff) inverse = do
  first ← compile_key (record w { c = c; id = none }) node (get_field c inverse)
  rest ← compile_fields w diff inverse
  ok (first ++ rest)

-- `compile`: a diff that is no object makes no change.
unfoldable pub compile :
    Shape
    → (String → Bool)
    → (Fields → Bool)
    → Value
    → Option Value
    → Value
    → Result ModelError (List Change)
compile sh forbidden is_marked (object diff) inverse state =
    compile_fields
      (record {
        sh = sh;
        forbidden = forbidden;
        is_marked = is_marked;
        state = state;
        c = "";
        id = none;
      })
      diff (inverse_fields inverse)
compile sh forbidden is_marked diff inverse state = ok []
