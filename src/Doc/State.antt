-- ===== src/Doc/State.antt =====
-- core/doc.js: the doc's own state. The tree is kept flat, a record under its record key: a
-- collection's key with the id, or a singleton's name. `clocks` is `none` where none are tracked.
use lazy_storage.Base.{
  String, Bool, true, false, Option, none, some, List, [], ◌∷◌, if◌then◌else◌, is_there, KeyPath,
  path_beq, path_eq, Map, map_get, map_set, map_delete,
}
use lazy_storage.Json.{Value, get_field, object, Fields, string}
use lazy_storage.Shape.{Shape, record_key, parents_of, Link}
use lazy_storage.Doc.Clocks.{Clock, new_clock}

pub record Place : Type 0 where
  pub c : String
  pub id : Option String

-- A record as it was before a trial first touched it.
pub record Saved : Type 0 where
  pub place : Place
  pub content : Option Value
  pub clock : Option Clock

pub record Doc : Type 0 where
  pub state : Map KeyPath Value
  pub clocks : Option (Map KeyPath Clock)
  pub children : Map KeyPath (List KeyPath)
  pub parents_of_child : Map KeyPath (List KeyPath)
  pub record_at : Map KeyPath Place
  pub journal : Option (Map KeyPath Saved)

-- `get`, of a top level of the shape: of any other key it throws, as `apply` says (Doc.Run), which is how
-- a change gets here.
unfoldable pub get : Shape → Doc → String → Option String → Option Value
get sh d c id = map_get (record_key sh c id) d.state

-- `clockOf(key)`
unfoldable pub clock_of : Doc → KeyPath → Option Clock
clock_of d key = elim d.clocks [ none ↦ none | some m ↦ map_get key m ]

-- A record's clock set, where clocks are tracked.
unfoldable pub put_clock : KeyPath → Clock → Doc → Doc
put_clock key clock d = elim d.clocks [
  | none ↦ d
  | some m ↦ record d { clocks = some (map_set key clock m) }
]

unfoldable pub delete_clock : KeyPath → Doc → Doc
delete_clock key d = elim d.clocks [
  | none ↦ d
  | some m ↦ record d { clocks = some (map_delete key m) }
]

-- `clockOf(key, true)`, and the clock that it returns: an empty one where clocks are not tracked.
unfoldable pub make_clock : KeyPath → Doc → Doc
make_clock key d = if is_there (clock_of d key) then d else put_clock key new_clock d

unfoldable pub clock_at : Doc → KeyPath → Clock
clock_at d key = elim (clock_of d key) [ some clock ↦ clock | none ↦ new_clock ]

unfoldable pub put_value : KeyPath → Value → Doc → Doc
put_value key v d = record d { state = map_set key v d.state }

unfoldable pub delete_value : KeyPath → Doc → Doc
delete_value key d = record d { state = map_delete key d.state }

unfoldable pub add_key : KeyPath → List KeyPath → List KeyPath
add_key key [] = key ∷ []
add_key key (k ∷ ks) = if path_beq k key then k ∷ ks else k ∷ add_key key ks

unfoldable pub remove_key : KeyPath → List KeyPath → List KeyPath
remove_key key [] = []
remove_key key (k ∷ ks) = let rest = remove_key key ks in if path_beq k key then rest else k ∷ rest

abbrev pub keys_or_none : Option (List KeyPath) → List KeyPath
keys_or_none none = []
keys_or_none (some ks) = ks

-- `children.get(parent)?.delete(key)` for each parent
unfoldable pub unlink :
    KeyPath → List KeyPath → Map KeyPath (List KeyPath) → Map KeyPath (List KeyPath)
unlink key [] m = m
unlink key (parent ∷ parents) m =
    unlink key parents
      (elim (map_get parent m) [ none ↦ m | some ks ↦ map_set parent (remove_key key ks) m ])

-- `children.get(parent).add(key)` for each parent, made where it is not there
unfoldable pub link :
    KeyPath → List KeyPath → Map KeyPath (List KeyPath) → Map KeyPath (List KeyPath)
link key [] m = m
link key (parent ∷ parents) m =
    link key parents (map_set parent (add_key key (keys_or_none (map_get parent m))) m)

-- The parents that a record names, as a set of record keys.
unfoldable pub named_parents : Shape → List Link → Fields → List KeyPath → List KeyPath
named_parents sh [] fs now = now
named_parents sh (l ∷ ls) fs now = named_parents sh ls fs (elim (get_field l.name fs) [
  | some (string id) ↦ add_key (record_key sh l.parent (some id)) now
  | _ ↦ now
])

-- The record taken out of the index, the first half of `relink`.
unfoldable pub forget_links : KeyPath → Doc → Doc
forget_links key d = record d {
  children = unlink key (keys_or_none (map_get key d.parents_of_child)) d.children;
  parents_of_child = map_delete key d.parents_of_child;
  record_at = map_delete key d.record_at;
}

-- The record put into the index under the parents `now`, the second half.
unfoldable pub add_links : KeyPath → Place → List KeyPath → Doc → Doc
add_links key place [] d = d
add_links key place (p ∷ ps) d = record d {
  children = link key (p ∷ ps) d.children;
  parents_of_child = map_set key (p ∷ ps) d.parents_of_child;
  record_at = map_set key place d.record_at;
}

-- One that names no parent, or that is no object, is left out of the index.
unfoldable pub relink_record : Shape → Place → List Link → Option Value → Doc → Doc
relink_record sh place links (some (object fs)) d =
    add_links (record_key sh place.c place.id) place (named_parents sh links fs [])
      (forget_links (record_key sh place.c place.id) d)
relink_record sh place links content d = forget_links (record_key sh place.c place.id) d

abbrev pub any_link : List Link → Bool
any_link [] = false
any_link (l ∷ ls) = true

-- The child index brought up to date for one record of a child collection.
unfoldable pub relink : Shape → String → Option String → Doc → Doc
relink sh c id d =
    if any_link (parents_of sh.links c)
    then relink_record sh (record { c = c; id = id }) (parents_of sh.links c) (get sh d c id) d
    else d

-- `keys.map(key => recordAt.get(key)).filter(Boolean)`
unfoldable pub places_of : Doc → List KeyPath → List Place
places_of d [] = []
places_of d (key ∷ keys) = elim (map_get key d.record_at) [
  | none ↦ places_of d keys
  | some place ↦ place ∷ places_of d keys
]

unfoldable pub children_at : Shape → Doc → String → Option String → List Place
children_at sh d c id = places_of d (keys_or_none (map_get (record_key sh c id) d.children))

-- A record as it is.
unfoldable pub saved_now : Shape → String → Option String → Doc → Saved
saved_now sh c id d = record {
  place = record { c = c; id = id };
  content = get sh d c id;
  clock = clock_of d (record_key sh c id);
}

unfoldable pub note_in : Option (Map KeyPath Saved) → Shape → String → Option String → Doc → Doc
note_in none sh c id d = d
note_in (some m) sh c id d =
    if is_there (map_get (record_key sh c id) m)
    then d
    else record d { journal = some (map_set (record_key sh c id) (saved_now sh c id d) m) }

-- A record as it is, kept for the trial that runs, once.
unfoldable pub note : Shape → String → Option String → Doc → Doc
note sh c id d = note_in d.journal sh c id d
