-- ===== src/Compile/Batch.antt =====
-- core/compile.js and core/shape.js: what a client compiles, the server's `assertChange` lets through.
use lazy_storage.Base.{
  String, str_eq, ◌≡◌, refl, inl, inr, Bool, true, false, Option, none, some, [], arith, Bool-cases,
  ok,
}
use lazy_storage.Shape.{Shape, is_collection, is_singleton, has, under_register_root}
use lazy_storage.Json.{
  Value, Fields, object, field, end, null, boolean, number, string, array, other, is_null,
  get_field,
}
use lazy_storage.Compile.{
  Walk, compile, compile_fields, compile_key, walk_records, walk_collection, walk, is_no_record,
  inverse_fields, Change,
}
use lazy_storage.Compile.Checked.{AllPass, AllPass-join, AllPass-throw_if}
use lazy_storage.Compile.Accepted.{IsTree, IsAt, walk-AllPass}
use lazy_storage.Checks.{assert_change, reserved_name, record_without_object}
use lazy_storage.Paths.{any}

-- No record of a collection is written under the empty id.
abbrev pub HasIds : Fields → Type 0
HasIds end = Unit
HasIds (field id v fs) = (str_eq id "" ≡ false) × HasIds fs

abbrev pub NamesRecords : Shape → Fields → Type 0
NamesRecords sh end = Unit
NamesRecords sh (field c node diff) =
    (is_collection sh c ≡ true → HasIds (inverse_fields (some node))) × NamesRecords sh diff

module _ (sh : Shape) (forbidden : String → Bool) (is_marked : Fields → Bool) (state : Value)
    (tree : IsTree sh forbidden state) where
  walk_at : String → Option String → Walk
  walk_at c id = record {
    sh = sh;
    forbidden = forbidden;
    is_marked = is_marked;
    state = state;
    c = c;
    id = id;
  }

  record-IsAt :
      (c id : String)
      → is_collection sh c ≡ true
      → str_eq id "" ≡ false
      → forbidden id ≡ false
      → IsAt (walk_at c (some id)) []
  unfolding walk_at has any
  record-IsAt c id n named plain = record {
    known = rw n refl;
    named = rw (named, plain) (ground arith);
    unnamed = rw n refl;
    safe = refl;
    outside = under_register_root sh c (some id);
  }

  singleton-IsAt : (c : String) → is_singleton sh c ≡ true → IsAt (walk_at c none) []
  unfolding walk_at has any
  singleton-IsAt c s =
      let no = tree.disjoint c s in
      record {
        known = ground (arith, s);
        named = rw no refl;
        unnamed = ground arith;
        safe = refl;
        outside = under_register_root sh c none;
      }

  walk_records-AllPass :
      (c : String) (fs inverse : Fields)
      → is_collection sh c ≡ true
      → is_singleton sh c ≡ false
      → HasIds fs
      → AllPass
          (λ change. assert_change forbidden sh change ≡ ok tt)
          (walk_records (walk_at c none) fs inverse)
  unfolding walk_records walk_at
  walk_records-AllPass c end inverse n s h = tt
  walk_records-AllPass c (field id v fs) inverse n s (named, h) =
      let P = λ (change : Change). assert_change forbidden sh change ≡ ok tt in
      let at = walk_at c (some id) in
      let rest = walk_records-AllPass c fs inverse n s h in
      let it = walk-AllPass at tree [] v (get_field id inverse) in
      AllPass-throw_if P (forbidden id) reserved_name _ (λ plain.
        AllPass-throw_if P (is_no_record at v) record_without_object _ (λ fits.
          AllPass-join P (walk at [] v (get_field id inverse)) _
            (it (record-IsAt c id n named plain) (rw s refl)) rest))

  walk_collection-AllPass :
      (c : String) (node : Value) (inverse : Option Value)
      → is_collection sh c ≡ true
      → is_singleton sh c ≡ false
      → HasIds (inverse_fields (some node))
      → AllPass
          (λ change. assert_change forbidden sh change ≡ ok tt)
          (walk_collection (walk_at c none) node inverse)
  unfolding walk_at
  walk_collection-AllPass c (object fs) inverse n s h =
      let records = walk_records-AllPass c fs (inverse_fields inverse) n s h in
      elim (Bool-cases (is_marked fs)) [ inl m ↦ rw m tt | inr m ↦ rw m records ]
  walk_collection-AllPass c null inverse n s h = tt
  walk_collection-AllPass c (boolean b) inverse n s h = tt
  walk_collection-AllPass c (number k) inverse n s h = tt
  walk_collection-AllPass c (string t) inverse n s h = tt
  walk_collection-AllPass c (array vs) inverse n s h = tt
  walk_collection-AllPass c other inverse n s h = tt

  compile_key-AllPass :
      (c : String) (node : Value) (inverse : Option Value)
      → (is_collection sh c ≡ true → HasIds (inverse_fields (some node)))
      → AllPass
          (λ change. assert_change forbidden sh change ≡ ok tt)
          (compile_key (walk_at c none) node inverse)
  unfolding compile_key walk_at has
  compile_key-AllPass c node inverse h = elim (Bool-cases (is_singleton sh c)) [
    | inl s ↦
        let it = walk-AllPass (walk_at c none) tree [] node inverse (singleton-IsAt c s) in
        elim (Bool-cases (is_null node)) [
          | inl n ↦ rw (s, tree.disjoint c s, n) tt
          | inr n ↦ rw (s, tree.disjoint c s, n) (it (rw (s, n) refl))
        ]
    | inr s ↦ elim (Bool-cases (is_collection sh c)) [
      | inl n ↦ rw (s, n) (walk_collection-AllPass c node inverse n s (h n))
      | inr n ↦ rw (s, n) tt
    ]
  ]

  compile_fields-AllPass :
      (c0 : String) (diff inverse : Fields)
      → NamesRecords sh diff
      → AllPass
          (λ change. assert_change forbidden sh change ≡ ok tt)
          (compile_fields (walk_at c0 none) diff inverse)
  unfolding compile_fields walk_at
  compile_fields-AllPass c0 end inverse h = tt
  compile_fields-AllPass c0 (field c node diff) inverse (ids, h) =
      AllPass-join _ (compile_key (walk_at c none) node (get_field c inverse)) _
        (compile_key-AllPass c node (get_field c inverse) ids)
        (compile_fields-AllPass c0 diff inverse h)

-- Type: on a state as a store has it, where the diff writes no record under the empty id, every
-- change that `compile` returns passes the server's `assertChange`.
pub compile-AllPass :
    (sh : Shape) (forbidden : String → Bool) (is_marked : Fields → Bool) (diff : Fields)
    (inverse : Option Value) (state : Value)
    → IsTree sh forbidden state
    → NamesRecords sh diff
    → AllPass
        (λ change. assert_change forbidden sh change ≡ ok tt)
        (compile sh forbidden is_marked (object diff) inverse state)
unfolding compile
compile-AllPass sh forbidden is_marked diff inverse state tree h =
    unfold walk_at in
    compile_fields-AllPass sh forbidden is_marked state tree "" diff (inverse_fields inverse) h
