-- ===== src/Tests/Core.antt =====
-- Concrete runs of what clients compile.
use lazy_storage.Json.{is_object, get_field}
use lazy_storage.Checks.{assert_value, assert_fields, assert_change}
use lazy_storage.Paths.{value_at, own_property, any}
use lazy_storage.Base.{
  String, str_eq, ◌≡◌, refl, sym, inl, inr, true, false, none, some, [], ◌∷◌, Bool-cases, ok,
}
use lazy_storage.Tests.{todos, is_forbidden}
use lazy_storage.Json.{Value, Fields, object, field, end, string, null}
use lazy_storage.Shape.{is_singleton}
use lazy_storage.Compile.Accepted.{IsTree}
use lazy_storage.Compile.Batch.{compile-AllPass}
use lazy_storage.Compile.{compile}
use lazy_storage.Compile.Checked.{AllPass}

abbrev titled : String → Value
titled t = object (field "title" (string t) end)

-- A record changed, one written, and one gone.
abbrev tree : Value
tree = object (field "todos" (object (field "a" (titled "y") (field "b" (titled "z") end))) end)

abbrev diff : Fields
diff =
    field "todos" (object (field "a" (titled "y") (field "b" (titled "z") (field "d" null end))))
      end

abbrev inverse : Value
inverse = object (field "todos" (object (field "a" (titled "x") end)) end)

tree-records :
    (c id : String) (v : Value) → value_at tree (c ∷ id ∷ []) ≡ some v → is_object v ≡ true
unfolding value_at own_property get_field
tree-records c id v e = elim (Bool-cases (str_eq "todos" c)) [
  | inr n ↦ let no : none ≡ some v = rw (n, value_at, own_property, get_field) at e in absurd (cc)
  | inl n ↦ elim (Bool-cases (str_eq "a" id)) [
    | inl m ↦
        let it : some (titled "y") ≡ some v = rw (n, m, value_at, own_property, get_field) at e in
        let same : titled "y" ≡ v = cc in rw (sym same) refl
    | inr m ↦ elim (Bool-cases (str_eq "b" id)) [
      | inl k ↦
          let it : some (titled "z") ≡ some v =
            rw (n, m, k, value_at, own_property, get_field) at e in
          let same : titled "z" ≡ v = cc in rw (sym same) refl
      | inr k ↦
          let no : none ≡ some v = rw (n, m, k, value_at, own_property, get_field) at e in
          absurd (cc)
    ]
  ]
]

tree-IsTree : IsTree todos is_forbidden tree
unfolding is_forbidden assert_value assert_fields is_singleton any
tree-IsTree = record {
  json = refl;
  singletons = λ c s. absurd (cc);
  records = λ c id v n e. rw (tree-records c id v e) refl;
  disjoint = λ c s. absurd (cc);
}

compile-AllPass_example :
    AllPass
      (λ change. assert_change is_forbidden todos change ≡ ok tt)
      (compile todos is_forbidden (λ fs. false) (object diff) (some inverse) tree)
compile-AllPass_example =
    compile-AllPass todos is_forbidden (λ fs. false) diff (some inverse) tree tree-IsTree
      ((λ n. (refl, (refl, (refl, tt)))), tt)
