-- ===== src/Paths/Writes.antt =====
-- core/paths.js: what a write and a deletion at a path leave to be read.
use lazy_storage.Base.{
  String, eq_iff, str_eq, ◌≡◌, refl, sym, ap, ◌∙◌, inl, inr, true, false, none, some, [], ◌∷◌, ◌++◌,
  arith, Bool-cases, Option-cases, KeyPath, ok,
}
use lazy_storage.Json.{
  Value, Fields, object, get_field-set_field, get_field, array, boolean, number, string, whole,
  Number, count_items, delete_field, array_index, get_item, get_item-set_item_self,
  get_field-delete_field,
}
use lazy_storage.Paths.{
  value_at, set_in, update_at, set_at, fields_of, delete_at, parent_path, last_segment,
  delete_property, own_property,
}

value_at-set_in :
    (fs : Fields) (seg : String) (path : KeyPath) (v : Value)
    → value_at (object (set_in fs (seg ∷ path) v)) (seg ∷ path) ≡ some v
unfolding value_at set_in
value_at-set_in fs seg [] v = ground (arith, get_field-set_field seg seg v fs, eq_iff seg seg)
value_at-set_in fs seg (next ∷ path) v =
    let inner = set_in (fields_of (get_field seg fs)) (next ∷ path) v in
    ground (
      arith,
      get_field-set_field seg seg (object inner) fs,
      eq_iff seg seg,
      value_at-set_in (fields_of (get_field seg fs)) next path v,
    )

-- Where `setAt` does not refuse the path, the value can be read back at it.
pub value_at-set_at :
    (fs fs' : Fields) (seg : String) (path : KeyPath) (v : Value)
    → set_at fs (seg ∷ path) v ≡ ok fs'
    → value_at (object fs') (seg ∷ path) ≡ some v
unfolding set_at
value_at-set_at fs fs' seg path v h = ground (arith, value_at-set_in fs seg path v)

value_at-number :
    (n : Number) (path : KeyPath) (fs : Fields) → value_at (number n) path ≡ some (object fs) → ⊥
unfolding value_at
value_at-number n [] fs h = cc
value_at-number n (seg ∷ path) fs h = cc

-- Where a path leads to an object, it leads to the changed one after an update there.
pub value_at-update_at :
    (node : Value) (path : KeyPath) (f : Value → Value) (fs : Fields)
    → value_at node path ≡ some (object fs)
    → value_at (update_at node path f) path ≡ some (f (object fs))
unfolding value_at update_at
value_at-update_at node [] f fs h = ground arith
value_at-update_at (object gs) (seg ∷ path) f fs h = elim (Option-cases (get_field seg gs)) [
  | inl e ↦ absurd (ground arith)
  | inr (next, e) ↦ ground (
    arith,
    get_field-set_field seg seg (update_at next path f) gs,
    eq_iff seg seg,
    value_at-update_at next path f fs,
  )
]
value_at-update_at (array vs) (seg ∷ path) f fs h = elim (Bool-cases (str_eq seg "length")) [
  | inl e ↦ absurd (value_at-number (whole (count_items vs)) path fs (ground arith))
  | inr e ↦ elim (Option-cases (array_index seg)) [
    | inl n ↦ absurd (ground arith)
    | inr (i, n) ↦ elim (Option-cases (get_item i vs)) [
      | inl g ↦ absurd (ground arith)
      | inr (next, g) ↦ ground (
        arith,
        get_item-set_item_self i (update_at next path f) next vs,
        value_at-update_at next path f fs,
      )
    ]
  ]
]
value_at-update_at Value.null (seg ∷ path) f fs h = absurd (cc)
value_at-update_at (boolean b) (seg ∷ path) f fs h = absurd (cc)
value_at-update_at (number n) (seg ∷ path) f fs h = absurd (cc)
value_at-update_at (string s) (seg ∷ path) f fs h = absurd (cc)
value_at-update_at Value.other (seg ∷ path) f fs h = absurd (cc)

parent_path-append : (path : KeyPath) (key : String) → parent_path (path ++ key ∷ []) ≡ path
parent_path-append [] key = refl
parent_path-append (seg ∷ []) key = refl
parent_path-append (seg ∷ next ∷ path) key = ap (◌∷◌ seg) (parent_path-append (next ∷ path) key)

last_segment-append : (path : KeyPath) (key : String) → last_segment (path ++ key ∷ []) ≡ key
last_segment-append [] key = refl
last_segment-append (seg ∷ []) key = refl
last_segment-append (seg ∷ next ∷ path) key = last_segment-append (next ∷ path) key

value_at_single : (key : String) (fs : Fields) → value_at (object fs) (key ∷ []) ≡ get_field key fs
unfolding value_at own_property
value_at_single key fs = elim (Option-cases (get_field key fs)) [
  | inl n ↦ ground (arith, n)
  | inr (v, n) ↦ ground (arith, n)
]

value_at-append :
    (node : Value) (path : KeyPath) (key : String) (fs : Fields)
    → value_at node path ≡ some (object fs)
    → value_at node (path ++ key ∷ []) ≡ get_field key fs
unfolding value_at own_property
value_at-append node [] key fs h =
    let it : node ≡ object fs = cc in ap (λ x. value_at x (key ∷ [])) it ∙ value_at_single key fs
value_at-append node (seg ∷ path) key fs h = elim (Option-cases (own_property node seg)) [
  | inl n ↦ let no : none ≡ some (object fs) = rw (n, value_at) at h in absurd (cc)
  | inr (next, n) ↦ rw (n, value_at) (value_at-append next path key fs (rw (n, value_at) at h))
]

-- Of an object at a path: after `deleteAt` of one of its properties, the path of that property resolves
-- no longer, and the path of every other of its properties resolves to what it did.
pub value_at-delete_at :
    (node : Value) (path : KeyPath) (key : String) (fs : Fields)
    → value_at node path ≡ some (object fs)
    → (value_at (delete_at node (path ++ key ∷ [])) (path ++ key ∷ []) ≡ none)
      × ((other_key : String)
          → str_eq key other_key ≡ false
          → value_at (delete_at node (path ++ key ∷ [])) (path ++ other_key ∷ [])
            ≡ value_at node (path ++ other_key ∷ []))
unfolding delete_at
value_at-delete_at node path key fs h =
    let parent = parent_path-append path key in
    let last = last_segment-append path key in
    let own : str_eq key key ≡ true = (eq_iff key key).1 refl in
    let left : value_at (delete_at node (path ++ key ∷ [])) path
        ≡ some (object (delete_field key fs)) =
      rw (parent, last) (value_at-update_at node path (delete_property key) fs h) in
    (
      value_at-append _ path key (delete_field key fs) left
          ∙ get_field-delete_field key key fs
          ∙ rw own refl,
      λ other_key n.
          value_at-append _ path other_key (delete_field key fs) left
          ∙ get_field-delete_field key other_key fs
          ∙ rw n (sym (value_at-append node path other_key fs h)),
    )
