-- ===== src/Doc/Touch.antt =====
-- core/doc.js: what each block of `run` may change: the row and the clock of its own record.
use lazy_storage.Base.{
  String, ◌≡◌, refl, ◌∙◌, inl, inr, false, Option, some, List, [], ◌∷◌, arith, Option-cases,
  if_intro, is_there, KeyPath, path_beq, path_eq, map_get, map_get-map_set, map_get-map_delete,
}
use lazy_storage.Json.{Value, object}
use lazy_storage.Shape.{Shape, parents_of, Link, record_key}
use lazy_storage.Doc.Clocks.{Clock, new_clock}
use lazy_storage.Doc.State.{
  Doc, clock_of, delete_value, put_value, put_clock, relink, delete_clock, add_links, make_clock,
  forget_links, Place, relink_record, any_link, get, named_parents,
}

-- The same row and the same clock under a record key.
pub record SameAt (j : KeyPath) (d e : Doc) : Type 0 where
  pub row : map_get j d.state ≡ map_get j e.state
  pub times : clock_of d j ≡ clock_of e j

-- From `d` to `e` only the record under `key` may have changed, and the journal has not.
pub record Touches (key : KeyPath) (d e : Doc) : Type 0 where
  pub journal : e.journal ≡ d.journal
  pub tracking : is_there e.clocks ≡ is_there d.clocks
  pub others : (j : KeyPath) → path_beq key j ≡ false → SameAt j d e

pub SameAt-refl : (j : KeyPath) (d : Doc) → SameAt j d d
SameAt-refl j d = record { row = refl; times = refl }

pub SameAt-trans : (j : KeyPath) (d e f : Doc) → SameAt j d e → SameAt j e f → SameAt j d f
SameAt-trans j d e f h k = record { row = h.row ∙ k.row; times = h.times ∙ k.times }

pub Touches-refl : (key : KeyPath) (d : Doc) → Touches key d d
Touches-refl key d = record { journal = refl; tracking = refl; others = λ j n. SameAt-refl j d }

pub Touches-trans :
    (key : KeyPath) (d e f : Doc) → Touches key d e → Touches key e f → Touches key d f
Touches-trans key d e f h k = record {
  journal = k.journal ∙ h.journal;
  tracking = k.tracking ∙ h.tracking;
  others = λ j n. SameAt-trans j d e f (h.others j n) (k.others j n);
}

pub put_value-Touches : (key : KeyPath) (v : Value) (d : Doc) → Touches key d (put_value key v d)
unfolding put_value clock_of
put_value-Touches key v d = record {
  journal = refl;
  tracking = refl;
  others = λ j n. record { row = rw (map_get-map_set key j v d.state, n) refl; times = refl };
}

pub delete_value-Touches : (key : KeyPath) (d : Doc) → Touches key d (delete_value key d)
unfolding delete_value clock_of
delete_value-Touches key d = record {
  journal = refl;
  tracking = refl;
  others = λ j n. record { row = rw (map_get-map_delete key j d.state, n) refl; times = refl };
}

clock_of-put_clock_ne :
    (key j : KeyPath) (t : Clock) (d : Doc)
    → path_beq key j ≡ false
    → clock_of d j ≡ clock_of (put_clock key t d) j
unfolding put_clock clock_of
clock_of-put_clock_ne key j t d n = elim (Option-cases d.clocks) [
  | inl e ↦ ground arith
  | inr (m, e) ↦ ground (arith, map_get-map_set key j t m)
]

clock_of-delete_clock_ne :
    (key j : KeyPath) (d : Doc)
    → path_beq key j ≡ false
    → clock_of d j ≡ clock_of (delete_clock key d) j
unfolding delete_clock clock_of
clock_of-delete_clock_ne key j d n = elim (Option-cases d.clocks) [
  | inl e ↦ ground arith
  | inr (m, e) ↦ ground (arith, map_get-map_delete key j m)
]

pub put_clock-Touches : (key : KeyPath) (t : Clock) (d : Doc) → Touches key d (put_clock key t d)
unfolding put_clock
put_clock-Touches key t d = record {
  journal = ground arith;
  tracking = ground arith;
  others = λ j n. record { row = ground arith; times = clock_of-put_clock_ne key j t d n };
}

pub delete_clock-Touches : (key : KeyPath) (d : Doc) → Touches key d (delete_clock key d)
unfolding delete_clock
delete_clock-Touches key d = record {
  journal = ground arith;
  tracking = ground arith;
  others = λ j n. record { row = ground arith; times = clock_of-delete_clock_ne key j d n };
}

pub make_clock-Touches : (key : KeyPath) (d : Doc) → Touches key d (make_clock key d)
unfolding make_clock
make_clock-Touches key d =
    if_intro (Touches key d) (is_there (clock_of d key)) (Touches-refl key d)
      (put_clock-Touches key new_clock d)

-- The index stands beside the rows, the clocks and the journal.
forget_links-Touches : (key at : KeyPath) (d : Doc) → Touches key d (forget_links at d)
unfolding forget_links clock_of
forget_links-Touches key at d = record {
  journal = refl;
  tracking = refl;
  others = λ j n. record { row = refl; times = refl };
}

add_links-Touches :
    (key at : KeyPath) (place : Place) (ps : List KeyPath) (d : Doc)
    → Touches key d (add_links at place ps d)
unfolding add_links clock_of
add_links-Touches key at place [] d = Touches-refl key d
add_links-Touches key at place (p ∷ ps) d = record {
  journal = refl;
  tracking = refl;
  others = λ j n. record { row = refl; times = refl };
}

relink_record-Touches :
    (key : KeyPath) (sh : Shape) (place : Place) (links : List Link) (content : Option Value)
    (d : Doc)
    → Touches key d (relink_record sh place links content d)
unfolding relink_record
relink_record-Touches key sh place links (some (object fs)) d =
    let at = record_key sh place.c place.id in
    Touches-trans key d (forget_links at d) _ (forget_links-Touches key at d)
      (add_links-Touches key at place (named_parents sh links fs []) (forget_links at d))
relink_record-Touches key sh place links _ d =
    forget_links-Touches key (record_key sh place.c place.id) d

pub relink-Touches :
    (key : KeyPath) (sh : Shape) (c : String) (id : Option String) (d : Doc)
    → Touches key d (relink sh c id d)
unfolding relink
relink-Touches key sh c id d =
    if_intro (Touches key d) (any_link (parents_of sh.links c))
      (relink_record-Touches key sh (record { c = c; id = id }) (parents_of sh.links c)
        (get sh d c id) d)
      (Touches-refl key d)
