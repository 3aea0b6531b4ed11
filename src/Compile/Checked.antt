-- ===== src/Compile/Checked.antt =====
-- core/compile.js and core/shape.js: what a client compiles, the server's checks let through.
use lazy_storage.Base.{
  String, str_eq, ℕ, zero, suc, ◌≡◌, refl, sym, inl, inr, Bool, true, false, none, some, List, [],
  ◌∷◌, ◌++◌, Bool-cases, Option-cases, All, All-append, KeyPath, Result, ◌>>=◌, ◌>>◌, >>-ok,
  >>-first, ok, err,
}
use lazy_storage.Doc.Remove.{Change}
use lazy_storage.Paths.{own_property, value_at}
use lazy_storage.Checks.{
  assert_items, assert_fields, ModelError, throw_if, assert_value, reserved_name,
}
use lazy_storage.Json.{
  get_field, Value, get_item, Fields, Items, field, cons, object, array, end, boolean, number,
  string, null, other, whole, nil, count_items, array_index,
}

-- What is returned passes the check, each.
abbrev pub AllPass : (Change → Type 0) → Result ModelError (List Change) → Type 0
AllPass P (ok changes) = All P changes
AllPass P (err e) = Unit

pub AllPass-join :
    (P : Change → Type 0) (a b : Result ModelError (List Change))
    → AllPass P a
    → AllPass P b
    → AllPass P (a >>= λ first. b >>= λ rest. ok (first ++ rest))
AllPass-join P (err e) b h k = tt
AllPass-join P (ok first) (err e) h k = tt
AllPass-join P (ok first) (ok rest) h k = All-append P first rest h k

pub AllPass-throw_if :
    (P : Change → Type 0) (test : Bool) (e : ModelError) (r : Result ModelError (List Change))
    → (test ≡ false → AllPass P r)
    → AllPass P (throw_if test e >> r)
AllPass-throw_if P true e r h = tt
AllPass-throw_if P false e r h = h refl

-- Every value inside a value that is JSON is.
assert_items-get_item :
    (forbidden : String → Bool) (i : ℕ) (vs : Items) (v : Value)
    → assert_items forbidden vs ≡ ok tt
    → get_item i vs ≡ some v
    → assert_value forbidden v ≡ ok tt
unfolding assert_items get_item
assert_items-get_item forbidden i nil v h e = absurd (cc)
assert_items-get_item forbidden zero (cons u vs) v h e =
    let same : u ≡ v = cc in
    rw (sym same) (>>-first (assert_value forbidden u) (assert_items forbidden vs) h)
assert_items-get_item forbidden (suc i) (cons u vs) v h e =
    assert_items-get_item forbidden i vs v (>>-ok (assert_value forbidden u) _ h) e

assert_fields-get_field :
    (forbidden : String → Bool) (key : String) (fs : Fields) (v : Value)
    → assert_fields forbidden fs ≡ ok tt
    → get_field key fs ≡ some v
    → assert_value forbidden v ≡ ok tt
unfolding assert_fields get_field
assert_fields-get_field forbidden key end v h e = absurd (cc)
assert_fields-get_field forbidden key (field k u fs) v h e =
    let inner = assert_value forbidden u >> assert_fields forbidden fs in
    let both = >>-ok (throw_if (forbidden k) reserved_name) inner h in
    elim (Bool-cases (str_eq k key)) [
      | inl n ↦
          let same : some u ≡ some v = rw n at e in
          let it : u ≡ v = cc in
          rw (sym it) (>>-first (assert_value forbidden u) (assert_fields forbidden fs) both)
      | inr n ↦
          assert_fields-get_field forbidden key fs v
            (>>-ok (assert_value forbidden u) (assert_fields forbidden fs) both) (rw n at e)
    ]

own_property-assert_value :
    (forbidden : String → Bool) (node v : Value) (seg : String)
    → assert_value forbidden node ≡ ok tt
    → own_property node seg ≡ some v
    → assert_value forbidden v ≡ ok tt
unfolding own_property assert_value
own_property-assert_value forbidden (object fs) v seg h e =
    assert_fields-get_field forbidden seg fs v h e
own_property-assert_value forbidden (array vs) v seg h e = elim (Bool-cases (str_eq seg "length")) [
  | inl n ↦
      let it : some (number (whole (count_items vs))) ≡ some v = rw n at e in
      let same : number (whole (count_items vs)) ≡ v = cc in rw (sym same) refl
  | inr n ↦ elim (Option-cases (array_index seg)) [
    | inl m ↦ let no : none ≡ some v = rw (n, m) at e in absurd (cc)
    | inr (i, m) ↦ assert_items-get_item forbidden i vs v h (rw (n, m) at e)
  ]
]
own_property-assert_value forbidden null v seg h e = absurd (cc)
own_property-assert_value forbidden (boolean b) v seg h e = absurd (cc)
own_property-assert_value forbidden (number n) v seg h e = absurd (cc)
own_property-assert_value forbidden (string s) v seg h e = absurd (cc)
own_property-assert_value forbidden other v seg h e = absurd (cc)

pub value_at-assert_value :
    (forbidden : String → Bool) (node v : Value) (path : KeyPath)
    → assert_value forbidden node ≡ ok tt
    → value_at node path ≡ some v
    → assert_value forbidden v ≡ ok tt
unfolding value_at
value_at-assert_value forbidden node v [] h e = let same : node ≡ v = cc in rw (sym same) h
value_at-assert_value forbidden node v (seg ∷ path) h e =
    elim (Option-cases (own_property node seg)) [
      | inl n ↦ let no : none ≡ some v = rw (n, value_at) at e in absurd (cc)
      | inr (next, n) ↦
          value_at-assert_value forbidden next v path
            (own_property-assert_value forbidden node next seg h n) (rw (n, value_at) at e)
    ]
