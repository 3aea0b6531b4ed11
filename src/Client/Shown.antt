-- ===== src/Client/Shown.antt =====
-- client/index.js: the records of `state`, worked out from the base and the outbox.
use lazy_storage.Base.{
  String, ℕ, ◌≡◌, Bool, true, false, not, ◌&&◌, Option, none, some, List, [], ◌∷◌, if◌then◌else◌,
  is_there, KeyPath, path_beq, path_eq, Map, map_set, ok, err,
}
use lazy_storage.Json.{Value, Fields, get_field, is_object}
use lazy_storage.Doc.Remove.{Change}
use lazy_storage.Doc.State.{Doc, get, clock_of, relink}
use lazy_storage.Doc.Clocks.{Clock, new_clock}
use lazy_storage.Doc.Call.{replay}
use lazy_storage.Doc.Run.{apply}
use lazy_storage.Shape.{Shape, record_key, is_singleton, is_collection}
use lazy_storage.Client.Pending.{Pending, pending_for}
pub mod Alone
pub mod Written
pub mod Unmoved
pub mod Fresh

-- lazy-watch's proxy: the record under a key, `overwrite` of a record that is there, `patch` of a
-- record by a value or by null, and `===` against what is shown.
pub record Watch : Type 1 where
  pub State : Type 0
  pub shown : KeyPath → State → Option Value
  pub overwrite : KeyPath → Value → State → State
  pub patch : KeyPath → Option Value → State → State
  pub identical : Option Value → Value → Bool
  pub shown-overwrite :
      (k j : KeyPath) (v : Value) (s : State)
      → shown j (overwrite k v s) ≡ (if path_beq k j then some v else shown j s)
  pub shown-patch :
      (k j : KeyPath) (o : Option Value) (s : State)
      → shown j (patch k o s) ≡ (if path_beq k j then o else shown j s)
  pub identical-eq : (o : Option Value) (v : Value) → identical o v ≡ true → o ≡ some v

-- The singletons as they are declared.
unfoldable pub seeds : Fields → List String → Map KeyPath Value
seeds initial [] = []
seeds initial (c ∷ cs) = elim (get_field c initial) [
  | none ↦ seeds initial cs
  | some v ↦ map_set (c ∷ []) v (seeds initial cs)
]

abbrev pub or_new : Option Clock → Clock
or_new none = new_clock
or_new (some clock) = clock

-- `docFromRecords` of no record or of one, with its clock.
unfoldable pub doc_from : Shape → String → Option String → Option Value → Option Clock → Doc
doc_from sh c id value clock =
    let empty : Doc = record {
      state = seeds sh.initial sh.singletons;
      clocks = some [];
      children = [];
      parents_of_child = [];
      record_at = [];
      journal = none;
    } in
    elim value [
      | none ↦ empty
      | some v ↦
          let one : Doc = record empty {
            state = map_set (record_key sh c id) v empty.state;
            clocks = some ((record_key sh c id, or_new clock) ∷ []);
          } in
          if is_singleton sh c
          then one
          else if is_collection sh c && is_there id
          then relink sh c id one
          else empty
    ]

-- A pending change judged over the scratch doc, as the server will. One on which the doc throws, the
-- deletion of a singleton or a collection that is not there, `compile` never makes; here it leaves the
-- doc.
unfoldable pub replay_change : Shape → Change × ℕ → Doc → Doc
replay_change sh (change, ts) d = elim (apply sh change ts replay d) [ ok st ↦ st.0 | err e ↦ d ]

unfoldable pub replay_all : Shape → List (Change × ℕ) → Doc → Doc
replay_all sh [] d = d
replay_all sh (change ∷ changes) d = replay_all sh changes (replay_change sh change d)

unfoldable pub replayed_by :
    Shape → String → Option String → Option Value → Option Clock → List (Change × ℕ) → Option Value
replayed_by sh c id value clock [] = value
replayed_by sh c id value clock (change ∷ changes) =
    get sh (replay_all sh (change ∷ changes) (doc_from sh c id value clock)) c id

unfoldable pub replayed : Shape → Doc → List Pending → String → Option String → Option Value
replayed sh base outbox c id =
    let key = record_key sh c id in
    replayed_by sh c id (get sh base c id) (clock_of base key) (pending_for sh key outbox)

abbrev pub is_object_shown : Option Value → Bool
is_object_shown none = false
is_object_shown (some v) = is_object v

module _ (sh : Shape) where
  -- The records of some changes, each once.
  unfoldable pub seen :
      Map KeyPath (String × Option String) → List Change → Map KeyPath (String × Option String)
  seen rows [] = rows
  seen rows (change ∷ changes) =
      seen (map_set (record_key sh change.c change.id) (change.c, change.id) rows) changes

module _ (sh : Shape) (w : Watch) where
  unfoldable pub write_record : String → Option String → Option Value → w.State → w.State
  write_record c id none s =
      let key = record_key sh c id in
      if is_there (w.shown key s) && not (is_singleton sh c) then w.patch key none s else s
  write_record c id (some v) s =
      let key = record_key sh c id in
      if is_object_shown (w.shown key s) && is_object v
      then w.overwrite key v s
      else if w.identical (w.shown key s) v
      then s
      else w.patch key (some v) s

  unfoldable pub write_seen :
      Doc → List Pending → Map KeyPath (String × Option String) → w.State → w.State
  write_seen base outbox [] s = s
  write_seen base outbox ((key, (c, id)) ∷ rows) s =
      write_seen base outbox rows (write_record c id (replayed sh base outbox c id) s)

  unfoldable pub refresh : Doc → List Pending → List Change → w.State → w.State
  refresh base outbox changes s = write_seen base outbox (seen sh [] changes) s
