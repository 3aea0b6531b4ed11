-- ===== src/Shape.antt =====
-- core/shape.js: what a store holds, as the server and every client declare it. The id of a change
-- or a record is `none` for a singleton, where the source has undefined.
use lazy_storage.Base.{
  String, str_eq, ◌≡◌, refl, Bool, false, ◌||◌, Option, none, some, List, [], ◌∷◌, ◌++◌, arith,
  if◌then◌else◌, append_cons, append_nil, KeyPath,
}
use lazy_storage.Json.{Fields}
use lazy_storage.Paths.{matches, any}

-- One entry of `parents`: a record of `child` whose `name` holds the id of a record of `parent`.
pub record Link : Type 0 where
  pub child : String
  pub name : String
  pub parent : String

pub record Shape : Type 0 where
  pub initial : Fields
  pub collections : List String
  pub singletons : List String
  pub registers : List KeyPath
  pub links : List Link

unfoldable pub is_collection : Shape → String → Bool
unfolding any
is_collection sh c = any (str_eq c) sh.collections

unfoldable pub is_singleton : Shape → String → Bool
unfolding any
is_singleton sh c = any (str_eq c) sh.singletons

abbrev pub has : Shape → String → Bool
has sh c = is_collection sh c || is_singleton sh c

abbrev pub with_id : Option String → KeyPath → KeyPath
with_id none path = path
with_id (some id) path = id ∷ path

-- The path from the store's root.
unfoldable pub full : Shape → String → Option String → KeyPath → KeyPath
full sh c id path = if is_singleton sh c then c ∷ path else c ∷ with_id id path

-- Without patterns nothing matches, as the source tests first.
unfoldable pub is_register : Shape → String → Option String → KeyPath → Bool
unfolding full
is_register sh c id path = matches sh.registers (full sh c id path)

-- The loop over the paths above: `above` is what has been passed, `rest` what is left.
under_from : Shape → String → Option String → KeyPath → KeyPath → Bool
under_from sh c id above [] = false
under_from sh c id above (seg ∷ rest) =
    is_register sh c id above || under_from sh c id (above ++ seg ∷ []) rest

unfoldable pub under_register : Shape → String → Option String → KeyPath → Bool
unfolding under_from is_register
under_register sh c id path = under_from sh c id [] path

under_from-append :
    (sh : Shape) (c : String) (id : Option String) (above path : KeyPath) (key : String)
    → under_from sh c id above (path ++ key ∷ [])
      ≡ (under_from sh c id above path || is_register sh c id (above ++ path))
unfolding under_from
under_from-append sh c id above [] key = rw (append_nil above) (ground arith)
under_from-append sh c id above (seg ∷ path) key =
    rw (under_from-append sh c id (above ++ seg ∷ []) path key, append_cons above path seg)
      (ground arith)

pub under_register_root :
    (sh : Shape) (c : String) (id : Option String) → under_register sh c id [] ≡ false
unfolding under_register under_from
under_register_root sh c id = refl

-- A path one longer is in a register where the path was, or where its end is one.
pub under_register-append :
    (sh : Shape) (c : String) (id : Option String) (path : KeyPath) (key : String)
    → under_register sh c id (path ++ key ∷ [])
      ≡ (under_register sh c id path || is_register sh c id path)
unfolding under_register
under_register-append sh c id path key = under_from-append sh c id [] path key

unfoldable pub record_key : Shape → String → Option String → KeyPath
record_key sh c id = if is_singleton sh c then c ∷ [] else c ∷ with_id id []

-- The links of a child collection.
unfoldable pub parents_of : List Link → String → List Link
parents_of [] c = []
parents_of (l ∷ ls) c = let rest = parents_of ls c in if str_eq l.child c then l ∷ rest else rest

-- The links to a parent collection.
unfoldable pub children_of : List Link → String → List Link
children_of [] c = []
children_of (l ∷ ls) c = let rest = children_of ls c in if str_eq l.parent c then l ∷ rest else rest
