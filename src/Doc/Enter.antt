-- ===== src/Doc/Enter.antt =====
-- core/doc.js: the block of `run` from a missing record to the parent of the path.
use lazy_storage.Base.{
  ℕ, Bool, true, false, not, ◌&&◌, Option, none, some, [], ◌∷◌, ◌++◌, if◌then◌else◌, is_there,
  KeyPath, path_beq,
}
use lazy_storage.Json.{Value, get_field, set_field, Fields, object, end}
use lazy_storage.Shape.{is_register}
use lazy_storage.Doc.Clocks.{Clock, stale_from, drop_beneath, set_live, stamp_record}
use lazy_storage.Doc.State.{Doc, make_clock, put_value, clock_at, put_clock}
use lazy_storage.Doc.Remove.{Why, stale, missing, land, put}
use lazy_storage.Paths.{value_at, fields_of, parent_path}
use lazy_storage.Doc.Call.{St, Call, found, object_there, key_of, judging, makes, change_at}

-- The record made where the mode makes what is missing.
unfoldable pub make_record : Call → St → St
make_record k (d, out) = if is_there (found k d) then (d, out) else (
  put_clock (key_of k) (record (clock_at d (key_of k)) { at = some k.ts })
      (put_value (key_of k) (object end) d),
  land (change_at k [] (put (object end))) out,
)

-- The containers on the way made, in a record's fields.
unfoldable pub ensure_in : Fields → KeyPath → Fields
ensure_in fs [] = fs
ensure_in fs (seg ∷ path) =
    set_field seg (object (ensure_in (fields_of (get_field seg fs)) path)) fs

-- And their entries in its clock: one for each that was not there.
unfoldable pub ensure_clock : Fields → KeyPath → KeyPath → ℕ → Clock → Clock
ensure_clock fs above [] ts clock = clock
ensure_clock fs above (seg ∷ path) ts clock =
    ensure_clock (fields_of (get_field seg fs)) (above ++ seg ∷ []) path ts (
      if object_there (get_field seg fs)
      then clock
      else set_live (drop_beneath clock (above ++ seg ∷ []) true false) (above ++ seg ∷ []) ts)

abbrev pub clock_for : Call → Doc → Clock
clock_for k d = if object_there (found k d) then clock_at d (key_of k) else stamp_record k.ts

unfoldable pub make_parents : Call → KeyPath → St → St
make_parents k path (d, out) =
    let fs = fields_of (found k d) in
    (
      put_clock (key_of k) (ensure_clock fs [] path k.ts (clock_for k d))
          (put_value (key_of k) (object (ensure_in fs path)) d),
      out,
    )

-- The value at a path in the record.
unfoldable pub value_in : Call → Doc → KeyPath → Option Value
value_in k d path = elim (found k d) [ none ↦ none | some v ↦ value_at v path ]

-- Whether the parent of a path is a container that may be written in.
unfoldable pub parent_there : Call → Doc → KeyPath → Bool
parent_there k d path =
    object_there (value_in k d (parent_path path))
    && not (not (path_beq (parent_path path) []) && is_register k.sh k.c k.id (parent_path path))

-- Past the checks of a path inside a record, or refused there.
pub data Entry : Type 0 where
  refused : Why → St → Entry
  entered : St → Entry

-- The births of the containers above, then the parent, which some modes make.
unfoldable pub enter_parent : Call → KeyPath → St → Entry
enter_parent k path (d, out) =
    if judging k.mode && stale_from (clock_at d (key_of k)) [] path k.ts
    then refused stale (d, out)
    else if parent_there k d path
    then entered (d, out)
    else if not (makes k.mode)
    then refused missing (d, out)
    else entered (make_parents k (parent_path path) (d, out))

abbrev pub clock_made : Call → St → St
clock_made k (d, out) = (make_clock (key_of k) d, out)

-- The record, which some modes make, and its clock; then its containers.
unfoldable pub enter : Call → KeyPath → St → Entry
enter k path (d, out) =
    if not (is_there (found k d)) && not (makes k.mode)
    then refused missing (d, out)
    else enter_parent k path (clock_made k (make_record k (d, out)))
