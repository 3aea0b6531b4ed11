-- ===== src/Compile/Accepted.antt =====
-- core/compile.js and core/shape.js: each change of a walk passes `assertChange`.
use lazy_storage.Base.{
  String, ◌≡◌, refl, sym, ◌∙◌, inl, inr, Bool, true, false, not, ◌&&◌, ◌||◌, Option, none, some,
  List, [], ◌∷◌, ◌++◌, arith, Bool-cases, is_there, All, KeyPath, ok,
}
use lazy_storage.Compile.{
  Walk, walk, is_register, Change, Shape, has, is_singleton, Value, Op, change_of, value_at, del,
  is_object, whole_changes, gone_changes, walk_fields, leaf_changes, put, is_null, set,
}
use lazy_storage.Json.{
  boolean, number, string, array, other, null, object, end, field, get_field, Fields,
}
use lazy_storage.Shape.{full}
use lazy_storage.Compile.{is_leaf, inverse_fields, is_object_there}
use lazy_storage.Compile.Checked.{AllPass-throw_if, AllPass-join}
use lazy_storage.Checks.{reserved_name}
use lazy_storage.Checks.{assert_record, assert_op, assert_change, is_whole, lacks_id, assert_value}
use lazy_storage.Paths.{any}
use lazy_storage.Shape.{under_register-append, is_collection, under_register}
use lazy_storage.Compile.Checked.{value_at-assert_value, AllPass}

-- A state as a store has it: JSON, every singleton there, and records that are objects, but registers.
pub record IsTree (sh : Shape) (forbidden : String → Bool) (state : Value) : Type 0 where
  pub json : assert_value forbidden state ≡ ok tt
  pub singletons :
      (c : String) → is_singleton sh c ≡ true → (v : Value) × (value_at state (c ∷ []) ≡ some v)
  pub records :
      (c id : String) (v : Value)
      → is_collection sh c ≡ true
      → value_at state (c ∷ id ∷ []) ≡ some v
      → (is_object v || is_register sh c (some id) []) ≡ true
  pub disjoint : (c : String) → is_singleton sh c ≡ true → is_collection sh c ≡ false

-- A place that a change may name.
pub record IsAt (w : Walk) (path : KeyPath) : Type 0 where
  pub known : has w.sh w.c ≡ true
  pub named : (is_collection w.sh w.c && lacks_id w.forbidden w.id) ≡ false
  pub unnamed : (not (is_collection w.sh w.c) && is_there w.id) ≡ false
  pub safe : any w.forbidden path ≡ false
  pub outside : under_register w.sh w.c w.id path ≡ false

abbrev pub Passes : Walk → Change → Type 0
Passes w change = assert_change w.forbidden w.sh change ≡ ok tt

IsAt-Passes :
    (w : Walk) (path : KeyPath) (op : Op)
    → IsAt w path
    → assert_op w.forbidden w.sh (change_of w path op) op ≡ ok tt
    → Passes w (change_of w path op)
unfolding assert_change
IsAt-Passes w path op h e = rw (h.known, h.named, h.unnamed, h.safe, h.outside, e) refl

any-append :
    {A : Type 0} (p : A → Bool) (xs : List A) (y : A) → any p (xs ++ y ∷ []) ≡ (any p xs || p y)
unfolding any
any-append p [] y = ground arith
any-append p (x ∷ xs) y = ground (arith, any-append p xs y)

IsAt-below :
    (w : Walk) (path : KeyPath) (key : String)
    → IsAt w path
    → w.forbidden key ≡ false
    → is_register w.sh w.c w.id path ≡ false
    → IsAt w (path ++ key ∷ [])
IsAt-below w path key h plain open_path = record {
  known = h.known;
  named = h.named;
  unnamed = h.unnamed;
  safe = any-append w.forbidden path key ∙ rw (h.safe, plain) refl;
  outside = under_register-append w.sh w.c w.id path key ∙ rw (h.outside, open_path) refl;
}

module _ (sh : Shape) (forbidden : String → Bool) (state : Value)
    (tree : IsTree sh forbidden state) where
  record-fits :
      (c : String) (id : Option String) (v : Value)
      → is_collection sh c ≡ true
      → (is_collection sh c && lacks_id forbidden id) ≡ false
      → value_at state (full sh c id []) ≡ some v
      → (is_object v || is_register sh c id []) ≡ true
  unfolding full
  record-fits c none v n named e = absurd (ground (arith, n, named))
  record-fits c (some id) v n named e = elim (Bool-cases (is_singleton sh c)) [
    | inl s ↦ absurd (ground (arith, n, tree.disjoint c s))
    | inr s ↦ tree.records c id v n (rw s at e)
  ]

  gone-path :
      (c : String) (id : Option String) (path : KeyPath)
      → value_at state (full sh c id path) ≡ none
      → (is_whole path && is_singleton sh c) ≡ false
  unfolding full
  gone-path c id (seg ∷ path) e = refl
  gone-path c id [] e = elim (Bool-cases (is_singleton sh c)) [
    | inr s ↦ s
    | inl s ↦
        let (v, there) = tree.singletons c s in
        let no : none ≡ some v = sym (rw s at e) ∙ there in absurd (cc)
  ]

module _ (w : Walk) (tree : IsTree w.sh w.forbidden w.state) where
  -- A value of the state is written as a record only where it may be one.
  value-assert_record :
      (path : KeyPath) (op : Op) (v : Value)
      → IsAt w path
      → value_at w.state (full w.sh w.c w.id path) ≡ some v
      → assert_record w.sh (change_of w path op) v ≡ ok tt
  unfolding assert_record
  value-assert_record (seg ∷ path) op v h e = refl
  value-assert_record [] op v h e = elim (Bool-cases (is_collection w.sh w.c)) [
    | inr n ↦ rw n refl
    | inl n ↦
        let fits = record-fits w.sh w.forbidden w.state tree w.c w.id v n h.named e in
        ground (arith, fits)
  ]

  del-Passes :
      (path : KeyPath)
      → IsAt w path
      → (is_whole path && is_singleton w.sh w.c) ≡ false
      → Passes w (change_of w path del)
  del-Passes path h e = IsAt-Passes w path del h (unfold assert_op in rw e refl)

  gone-Passes :
      (path : KeyPath) (inverse : Option Value)
      → IsAt w path
      → (is_whole path && is_singleton w.sh w.c) ≡ false
      → All (Passes w) (gone_changes w path inverse)
  gone-Passes path none h e = tt
  gone-Passes path (some null) h e = tt
  gone-Passes path (some (boolean b)) h e = (del-Passes path h e, tt)
  gone-Passes path (some (number n)) h e = (del-Passes path h e, tt)
  gone-Passes path (some (string s)) h e = (del-Passes path h e, tt)
  gone-Passes path (some (array vs)) h e = (del-Passes path h e, tt)
  gone-Passes path (some (object fs)) h e = (del-Passes path h e, tt)
  gone-Passes path (some other) h e = (del-Passes path h e, tt)

  whole-Passes :
      (path : KeyPath) (leaf : Bool) (inverse o : Option Value)
      → IsAt w path
      → value_at w.state (full w.sh w.c w.id path) ≡ o
      → All (Passes w) (whole_changes w path leaf inverse o)
  unfolding assert_op
  whole-Passes path leaf inverse (some v) h e =
      let json = value_at-assert_value w.forbidden w.state v _ tree.json e in
      let as_put = IsAt-Passes w path (put v) h in
      let as_set =
        IsAt-Passes w path (set v) h (rw (json, value-assert_record path (set v) v h e) refl) in
      (
        elim (Bool-cases (is_object v && not leaf)) [
          | inl n ↦
              let thing : is_object v ≡ true = ground (arith, n) in
              rw n (as_put (rw (json, thing, value-assert_record path (put v) v h e) refl))
          | inr n ↦ rw n as_set
        ],
        tt,
      )
  whole-Passes path leaf inverse none h e =
      gone-Passes path inverse h (gone-path w.sh w.forbidden w.state tree w.c w.id path e)

  leaf-Passes :
      (path : KeyPath) (leaf : Bool) (inverse : Option Value)
      → IsAt w path
      → All (Passes w) (leaf_changes w path leaf inverse)
  unfolding leaf_changes
  leaf-Passes path leaf inverse h =
      whole-Passes path leaf inverse (value_at w.state (full w.sh w.c w.id path)) h refl

  mutual
    unfolding walk walk_fields

    pub walk-AllPass :
        (path : KeyPath) (node : Value) (inverse : Option Value)
        → IsAt w path
        → (is_whole path && is_singleton w.sh w.c && is_null node) ≡ false
        → AllPass (Passes w) (walk w path node inverse)
    walk-AllPass path null inverse h e = (del-Passes path h (ground (arith, e)), tt)
    walk-AllPass path (boolean b) inverse h e = leaf-Passes path true inverse h
    walk-AllPass path (number n) inverse h e = leaf-Passes path true inverse h
    walk-AllPass path (string s) inverse h e = leaf-Passes path true inverse h
    walk-AllPass path (array vs) inverse h e = leaf-Passes path true inverse h
    walk-AllPass path other inverse h e = leaf-Passes path true inverse h
    walk-AllPass path (object fs) inverse h e =
        let whole = leaf-Passes path (is_leaf w path fs) inverse h in
        elim (Bool-cases (is_leaf w path fs || not (is_object_there inverse))) [
          | inl n ↦ rw n whole
          | inr n ↦
              rw n (walk_fields-AllPass path fs (inverse_fields inverse) h (ground (arith, n)))
        ]

    walk_fields-AllPass :
        (path : KeyPath) (fs inverse : Fields)
        → IsAt w path
        → is_register w.sh w.c w.id path ≡ false
        → AllPass (Passes w) (walk_fields w path fs inverse)
    walk_fields-AllPass path end inverse h e = tt
    walk_fields-AllPass path (field key v fs) inverse h e =
        let below = walk-AllPass (path ++ key ∷ []) v (get_field key inverse) in
        let rest = walk_fields-AllPass path fs inverse h e in
        AllPass-throw_if (Passes w) (w.forbidden key) reserved_name _ (λ plain.
          AllPass-join (Passes w) (walk w (path ++ key ∷ []) v (get_field key inverse)) _
            (below (IsAt-below w path key h plain e) (longer path key)) rest)
      where
        longer :
            (path : KeyPath) (key : String)
            → (is_whole (path ++ key ∷ []) && is_singleton w.sh w.c && is_null v) ≡ false
        longer [] key = refl
        longer (seg ∷ path) key = refl
