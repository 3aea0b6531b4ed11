-- ===== src/Doc/Remove.antt =====
-- core/doc.js: `subtreeMax` and `removeRecord`, the walks over a record and the records beneath it.
-- The source's recursion visits a record, then each child with all beneath it; here what is still to
-- visit is a list, the children put in front of it. A call that visits takes one of the fuel.
use lazy_storage.Base.{
  String, ℕ, zero, suc, Bool, false, not, ◌||◌, Option, none, List, [], ◌∷◌, ◌++◌, if◌then◌else◌,
  is_there, length, KeyPath, path_beq,
}
use lazy_storage.Json.{Value}
use lazy_storage.Shape.{Shape, record_key}
use lazy_storage.Doc.Clocks.{max_of, latest_of}
use lazy_storage.Doc.State.{
  Doc, note, get, clock_of, children_at, delete_value, Place, delete_clock, relink,
}

-- A change, and what it does. `path` is empty for the record itself.
pub data Op : Type 0 where
  put : Value → Op
  set : Value → Op
  del : Op

pub record Change : Type 0 where
  pub c : String
  pub id : Option String
  pub path : KeyPath
  pub op : Op

pub data Why : Type 0 where
  missing newer_there stale : Why

pub record Lost : Type 0 where
  pub c : String
  pub id : Option String
  pub path : KeyPath
  pub why : Why

pub record Out : Type 0 where
  pub applied : List Change
  pub lost : List Lost

abbrev pub no_out : Out
no_out = record { applied = []; lost = [] }

abbrev pub land : Change → Out → Out
land change out = record out { applied = out.applied ++ change ∷ [] }

abbrev pub lose : String → Option String → KeyPath → Why → Out → Out
lose c id path why out = record out {
  lost = out.lost ++ record { c = c; id = id; path = path; why = why } ∷ [];
}

unfoldable pub has_key : KeyPath → List KeyPath → Bool
has_key key [] = false
has_key key (k ∷ ks) = path_beq k key || has_key key ks

-- The newest time in the records to visit and all beneath them, `most` so far.
unfoldable pub visit_max : ℕ → Shape → Doc → List Place → List KeyPath → Option ℕ → Option ℕ
visit_max fuel sh d [] seen most = most
visit_max zero sh d (p ∷ todo) seen most =
    let skip = visit_max zero sh d todo seen most in
    if has_key (record_key sh p.c p.id) seen then skip else most
visit_max (suc fuel) sh d (p ∷ todo) seen most =
    let skip = visit_max (suc fuel) sh d todo seen most in
    let key = record_key sh p.c p.id in
    let visit =
      visit_max fuel sh d (children_at sh d p.c p.id ++ todo) (key ∷ seen)
        (latest_of most (max_of (clock_of d key))) in
    if has_key key seen then skip else visit

-- Each record below another is in `record_at`, and is visited once.
unfoldable pub subtree_max : Shape → Doc → String → Option String → Option ℕ
subtree_max sh d c id =
    visit_max (suc (length d.record_at)) sh d (record { c = c; id = id } ∷ []) [] none

-- One record deleted: noted, its row and clock gone, out of the index, said as a change.
unfoldable pub delete_record : Shape → String → Option String → Doc → Doc
delete_record sh c id d =
    relink sh c id
      (delete_clock (record_key sh c id) (delete_value (record_key sh c id) (note sh c id d)))

abbrev pub deletion : String → Option String → Change
deletion c id = record { c = c; id = id; path = []; op = del }

-- A visit deletes a record that is there, so the number of records is fuel enough.
unfoldable pub visit_remove : ℕ → Shape → Bool → List Place → List KeyPath → Doc × Out → Doc × Out
visit_remove fuel sh cascade [] seen st = st
visit_remove zero sh cascade (p ∷ todo) seen (d, out) = (d, out)
visit_remove (suc fuel) sh cascade (p ∷ todo) seen (d, out) =
    let key = record_key sh p.c p.id in
    let skip = visit_remove (suc fuel) sh cascade todo seen (d, out) in
    let kids = if cascade then children_at sh d p.c p.id else [] in
    let visit =
      visit_remove fuel sh cascade (kids ++ todo) (key ∷ seen)
        (delete_record sh p.c p.id d, land (deletion p.c p.id) out) in
    if has_key key seen || not (is_there (get sh d p.c p.id)) then skip else visit
