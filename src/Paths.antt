-- ===== src/Paths.antt =====
-- core/paths.js: values at paths, and register patterns.
pub mod Writes
use lazy_storage.Base.{
  String, str_eq, Bool, true, false, ◌&&◌, ◌||◌, Option, none, some, List, [], ◌∷◌, ◌==◌,
  if◌then◌else◌, KeyPath, Result, ok, err,
}
use lazy_storage.Json.{
  Value, get_field, delete_field, set_field, Fields, get_item, array_index, object, count_items,
  end, set_item, array, number, whole,
}
use Prim.Native.Char.{code}

-- `Object.hasOwn(node, seg)` and `node[seg]`, for an object or an array.
unfoldable pub own_property : Value → String → Option Value
unfolding get_field array_index get_item count_items
own_property (object fs) seg = get_field seg fs
own_property (array vs) seg =
    if str_eq seg "length"
    then some (number (whole (count_items vs)))
    else elim (array_index seg) [ none ↦ none | some i ↦ get_item i vs ]
own_property _ seg = none

-- `none` where the path does not resolve
unfoldable pub value_at : Value → KeyPath → Option Value
unfolding own_property
value_at node [] = some node
value_at node (seg ∷ path) = elim (own_property node seg) [
  | none ↦ none
  | some next ↦ value_at next path
]

-- `path.slice(0, -1)` and `path[path.length - 1]`
abbrev pub parent_path : KeyPath → KeyPath
parent_path [] = []
parent_path (seg ∷ []) = []
parent_path (seg ∷ next ∷ path) = seg ∷ parent_path (next ∷ path)

-- As a property name the last segment of no path is 'undefined'.
abbrev pub last_segment : KeyPath → String
last_segment [] = "undefined"
last_segment (seg ∷ []) = seg
last_segment (seg ∷ next ∷ path) = last_segment (next ∷ path)

unfoldable pub is_unsafe_segment : String → Bool
is_unsafe_segment seg = str_eq seg "__proto__" || str_eq seg "constructor" || str_eq seg "prototype"

unfoldable pub any : {A : Type 0} → (A → Bool) → List A → Bool
any p [] = false
any p (x ∷ xs) = p x || any p xs

abbrev pub fields_of : Option Value → Fields
fields_of (some (object fs)) = fs
fields_of _ = end

-- The loop of `setAt`: a level that is not a plain object is made anew.
unfoldable pub set_in : Fields → KeyPath → Value → Fields
unfolding set_field get_field
set_in fs [] value = set_field "undefined" value fs
set_in fs (seg ∷ []) value = set_field seg value fs
set_in fs (seg ∷ next ∷ path) value =
    set_field seg (object (set_in (fields_of (get_field seg fs)) (next ∷ path) value)) fs

-- What `setAt` throws.
pub data PathError : Type 0 where
  prototype_segment invalid_register : PathError

unfoldable pub set_at : Fields → KeyPath → Value → Result PathError Fields
unfolding set_in any is_unsafe_segment
set_at target path value =
    if any is_unsafe_segment path then err prototype_segment else ok (set_in target path value)

-- The node at a path changed in place, where the path resolves.
unfoldable pub update_at : Value → KeyPath → (Value → Value) → Value
unfolding get_field set_field get_item set_item array_index
update_at node [] f = f node
update_at (object fs) (seg ∷ path) f = elim (get_field seg fs) [
  | none ↦ object fs
  | some next ↦ object (set_field seg (update_at next path f) fs)
]
update_at (array vs) (seg ∷ path) f = elim (array_index seg) [
  | none ↦ array vs
  | some i ↦ elim (get_item i vs) [
    | none ↦ array vs
    | some next ↦ array (set_item i (update_at next path f) vs)
  ]
]
update_at node (seg ∷ path) f = node

abbrev pub delete_property : String → Value → Value
delete_property key (object fs) = object (delete_field key fs)
delete_property key node = node

unfoldable pub delete_at : Value → KeyPath → Value
unfolding update_at delete_field
delete_at target path = update_at target (parent_path path) (delete_property (last_segment path))

-- A register as the declarations spell it: its path as one text, or its segments.
pub data RegisterSpec : Type 0 where
  text : String → RegisterSpec
  segments : List String → RegisterSpec

put_first : String → List String → List String
put_first s [] = s ∷ []
put_first s (t ∷ ts) = s ∷ t ∷ ts

-- `text.split('/')`
split_path : String → List String
split_path String.[] = "" ∷ []
split_path (String.◌∷◌ c cs) = elim (split_path cs) [
  | [] ↦ []
  | s ∷ ss ↦ if code c == b'/' then "" ∷ s ∷ ss else String.◌∷◌ c s ∷ ss
]

spec_segments : RegisterSpec → List String
spec_segments (text t) = split_path t
spec_segments (segments s) = s

register_of : List String → Result PathError KeyPath
register_of [] = err invalid_register
register_of (s ∷ ss) = if any (λ t. str_eq t "") (s ∷ ss) then err invalid_register else ok (s ∷ ss)

unfoldable pub register_key : RegisterSpec → Result PathError KeyPath
unfolding spec_segments split_path register_of any
register_key spec = register_of (spec_segments spec)

-- One pattern: the path's length, and every segment equal or `*`.
unfoldable pub matches_pattern : KeyPath → KeyPath → Bool
matches_pattern [] [] = true
matches_pattern [] (seg ∷ path) = false
matches_pattern (p ∷ ps) [] = false
matches_pattern (p ∷ ps) (seg ∷ path) = (str_eq p "*" || str_eq p seg) && matches_pattern ps path

unfoldable pub matches : List KeyPath → KeyPath → Bool
unfolding matches_pattern any
matches patterns path = any (λ p. matches_pattern p path) patterns

-- core/compile.js, `within`: whether `a` is `b` or beneath it.
unfoldable pub within : KeyPath → KeyPath → Bool
within a [] = true
within [] (seg ∷ b) = false
within (s ∷ a) (seg ∷ b) = str_eq s seg && within a b
