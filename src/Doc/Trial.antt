-- ===== src/Doc/Trial.antt =====
-- core/doc.js: putting records back, and trials.
use lazy_storage.Base.{
  String, Option, none, some, [], ◌∷◌, if◌then◌else◌, KeyPath, Map, Result, ok, err,
}
use lazy_storage.Json.{Value, null, get_field}
use lazy_storage.Shape.{Shape, record_key, is_singleton}
use lazy_storage.Doc.Clocks.{Clock}
use lazy_storage.Doc.State.{Doc, Saved, relink, put_value, put_clock, delete_value, delete_clock}

abbrev pub or_null : Option Value → Value
or_null none = null
or_null (some v) = v

-- A record's row put back as given. A singleton with no data is its initial value.
unfoldable pub set_value : Shape → String → Option String → Option Value → Doc → Doc
set_value sh c id none d =
    if is_singleton sh c
    then put_value (record_key sh c id) (or_null (get_field c sh.initial)) d
    else delete_value (record_key sh c id) d
set_value sh c id (some v) d = put_value (record_key sh c id) v d

unfoldable pub restore_clock : KeyPath → Option Value → Option Clock → Doc → Doc
restore_clock key none clock d = delete_clock key d
restore_clock key (some v) none d = delete_clock key d
restore_clock key (some v) (some clock) d = put_clock key clock d

unfoldable pub set_record : Shape → String → Option String → Option Value → Option Clock → Doc → Doc
set_record sh c id content clock d =
    relink sh c id (restore_clock (record_key sh c id) content clock (set_value sh c id content d))

-- What a trial touched put back.
unfoldable pub undo : Shape → Map KeyPath Saved → Doc → Doc
undo sh [] d = d
undo sh ((key, saved) ∷ before) d =
    undo sh before (set_record sh saved.place.c saved.place.id saved.content saved.clock d)

abbrev pub journal_of : Doc → Map KeyPath Saved
journal_of d = elim d.journal [ none ↦ [] | some m ↦ m ]

-- What a trial comes to: what `fn` returned and the records as they were, or what it threw, with
-- everything put back.
pub data Trial (E R : Type 0) : Type 0 where
  kept : R → Map KeyPath Saved → Doc → Trial E R
  threw : E → Doc → Trial E R

abbrev pub closed : Doc → Doc
closed d = record d { journal = none }

abbrev pub finish : {E R : Type 0} → Shape → Doc × Result E R → Trial E R
finish sh (d, ok r) = kept r (journal_of d) (closed d)
finish sh (d, err e) = threw e (undo sh (journal_of d) (closed d))

-- Run `fn`, which applies changes, on a doc with the given journal. While a trial runs another is
-- refused.
unfoldable pub trial_in :
    {E R : Type 0}
    → Shape
    → (Doc → Doc × Result E R)
    → Doc
    → Option (Map KeyPath Saved)
    → Option (Trial E R)
trial_in sh fn d none = some (finish sh (fn (record d { journal = some [] })))
trial_in sh fn d (some m) = none

unfoldable pub trial : {E R : Type 0} → Shape → (Doc → Doc × Result E R) → Doc → Option (Trial E R)
trial sh fn d = trial_in sh fn d d.journal
