-- ===== src/Checks.antt =====
-- core/shape.js: `assertValue` and `assertChange`, the checks of a received change. A change that is
-- received as JSON has its fields' types here, one of put, set and del, so that the checks of those
-- are left out. `forbidden` stands for `isForbiddenKey`, which asks a library. An error says what was
-- refused, not where.
use lazy_storage.Base.{
  String, str_eq, Bool, true, false, not, ◌&&◌, ◌||◌, Option, none, some, [], ◌∷◌, is_there,
  KeyPath, Result, ◌>>=◌, ◌>>◌, ok, err,
}
use lazy_storage.Shape.{Shape, has, is_collection, is_singleton, is_register, under_register}
use lazy_storage.Doc.Remove.{Change, Op, put, set, del}
use lazy_storage.Paths.{any}
use lazy_storage.Json.{
  Value, Items, Fields, null, boolean, string, number, array, object, other, nil, cons, end, field,
  not_finite, is_object,
}
pub mod Passed

pub data ModelError : Type 0 where
  infinite_number not_json reserved_name : ModelError
  unknown_key needs_id singleton_with_id unsafe_path inside_register : ModelError
  singleton_removed put_without_object record_without_object collection_written : ModelError

abbrev pub throw_if : Bool → ModelError → Result ModelError Unit
throw_if true error = err error
throw_if false error = ok tt

unfoldable mutual
  pub assert_value : (String → Bool) → Value → Result ModelError Unit
  assert_value forbidden null = ok tt
  assert_value forbidden (boolean b) = ok tt
  assert_value forbidden (string s) = ok tt
  assert_value forbidden (number not_finite) = err infinite_number
  assert_value forbidden (number n) = ok tt
  assert_value forbidden (array items) = assert_items forbidden items
  assert_value forbidden (object fs) = assert_fields forbidden fs
  assert_value forbidden other = err not_json

  pub assert_items : (String → Bool) → Items → Result ModelError Unit
  assert_items forbidden nil = ok tt
  assert_items forbidden (cons v vs) = do assert_value forbidden v; assert_items forbidden vs

  pub assert_fields : (String → Bool) → Fields → Result ModelError Unit
  assert_fields forbidden end = ok tt
  assert_fields forbidden (field key v fs) = do
    throw_if (forbidden key) reserved_name
    assert_value forbidden v
    assert_fields forbidden fs

-- No id, an empty one, or a reserved name.
abbrev pub lacks_id : (String → Bool) → Option String → Bool
lacks_id forbidden none = true
lacks_id forbidden (some id) = str_eq id "" || forbidden id

abbrev pub is_whole : KeyPath → Bool
is_whole [] = true
is_whole (seg ∷ path) = false

unfoldable pub assert_record : Shape → Change → Value → Result ModelError Unit
assert_record sh change v =
    throw_if
      (is_whole change.path
        && is_collection sh change.c
        && not (is_object v)
        && not (is_register sh change.c change.id []))
      record_without_object

unfoldable pub assert_op : (String → Bool) → Shape → Change → Op → Result ModelError Unit
assert_op forbidden sh change del =
    throw_if (is_whole change.path && is_singleton sh change.c) singleton_removed
assert_op forbidden sh change (put v) = do
  assert_value forbidden v
  throw_if (not (is_object v)) put_without_object
  assert_record sh change v
assert_op forbidden sh change (set v) = do assert_value forbidden v; assert_record sh change v

unfoldable pub assert_change : (String → Bool) → Shape → Change → Result ModelError Unit
assert_change forbidden sh change = do
  throw_if (not (has sh change.c)) unknown_key
  throw_if (is_collection sh change.c && lacks_id forbidden change.id) needs_id
  throw_if (not (is_collection sh change.c) && is_there change.id) singleton_with_id
  throw_if (any forbidden change.path) unsafe_path
  throw_if (under_register sh change.c change.id change.path) inside_register
  assert_op forbidden sh change change.op
