-- ===== src/Checks/Passed.antt =====
-- core/shape.js and core/doc.js: what was checked on the way in is not thrown at by the merge.
use lazy_storage.Base.{
  String, ℕ, ◌≡◌, refl, inl, inr, Bool, true, false, not, ◌&&◌, List, [], ◌∷◌, arith, Bool-cases,
  is_there, All, KeyPath, ◌>>◌, >>-ok, ok,
}
use lazy_storage.Checks.{
  assert_change, assert_op, Shape, Change, Op, Value, ModelError, put, is_whole, throw_if, set,
  is_singleton, del, has, unknown_key, is_collection, lacks_id, needs_id, singleton_with_id, any,
  unsafe_path, under_register, inside_register,
}
use lazy_storage.Doc.Run.{apply_all, refuses_delete}
use lazy_storage.Doc.Call.{Mode, St}
use lazy_storage.Doc.Remove.{Out, del}

throw_if-ok : (test : Bool) (error : ModelError) → throw_if test error ≡ ok tt → test ≡ false
throw_if-ok true error h = absurd (cc)
throw_if-ok false error h = refl

deletion-refuses_delete :
    (sh : Shape) (change : Change) (path : KeyPath)
    → (is_whole path && is_singleton sh change.c) ≡ false
    → refuses_delete sh change path del ≡ false
unfolding refuses_delete
deletion-refuses_delete sh change [] h = h
deletion-refuses_delete sh change (seg ∷ path) h = refl

put-refuses_delete :
    (sh : Shape) (change : Change) (path : KeyPath) (v : Value)
    → refuses_delete sh change path (put v) ≡ false
unfolding refuses_delete
put-refuses_delete sh change [] v = refl
put-refuses_delete sh change (seg ∷ path) v = refl

set-refuses_delete :
    (sh : Shape) (change : Change) (path : KeyPath) (v : Value)
    → refuses_delete sh change path (set v) ≡ false
unfolding refuses_delete
set-refuses_delete sh change [] v = refl
set-refuses_delete sh change (seg ∷ path) v = refl

assert_op-refuses_delete :
    (forbidden : String → Bool) (sh : Shape) (change : Change) (op : Op)
    → assert_op forbidden sh change op ≡ ok tt
    → refuses_delete sh change change.path op ≡ false
unfolding assert_op
assert_op-refuses_delete forbidden sh change del h =
    deletion-refuses_delete sh change change.path (throw_if-ok _ _ h)
assert_op-refuses_delete forbidden sh change (put v) h = put-refuses_delete sh change change.path v
assert_op-refuses_delete forbidden sh change (set v) h = set-refuses_delete sh change change.path v

assert_change-refuses_delete :
    (forbidden : String → Bool) (sh : Shape) (change : Change)
    → assert_change forbidden sh change ≡ ok tt
    → refuses_delete sh change change.path change.op ≡ false
unfolding assert_change
assert_change-refuses_delete forbidden sh change h =
    let one = throw_if (not (has sh change.c)) unknown_key in
    let two = throw_if (is_collection sh change.c && lacks_id forbidden change.id) needs_id in
    let three =
      throw_if (not (is_collection sh change.c) && is_there change.id) singleton_with_id in
    let four = throw_if (any forbidden change.path) unsafe_path in
    let five = throw_if (under_register sh change.c change.id change.path) inside_register in
    let last = assert_op forbidden sh change change.op in
    let rest_five = five >> last in
    let rest_four = four >> rest_five in
    let rest_three = three >> rest_four in
    assert_op-refuses_delete forbidden sh change change.op (
      >>-ok five last (
        >>-ok four rest_five
          (>>-ok three rest_four (>>-ok two rest_three (>>-ok one (two >> rest_three) h)))))

assert_change-has :
    (forbidden : String → Bool) (sh : Shape) (change : Change)
    → assert_change forbidden sh change ≡ ok tt
    → not (has sh change.c) ≡ false
unfolding assert_change throw_if
assert_change-has forbidden sh change h = elim (Bool-cases (not (has sh change.c))) [
  | inl e ↦ absurd (ground (arith, e, h))
  | inr e ↦ e
]

-- Whatever names are reserved: where every change of an op passed `assertChange`, the loop that
-- applies them throws neither on a collection that the state does not have nor on the deletion of
-- a singleton, but returns what it made of all of them, in any mode, at any time, on any doc.
pub apply_all-returns :
    (forbidden : String → Bool) (sh : Shape) (ts : ℕ) (mode : Mode) (changes : List Change)
    (st : St)
    → All (λ change. assert_change forbidden sh change ≡ ok tt) changes
    → (out : Out) × ((apply_all sh ts mode changes st).1 ≡ ok out)
unfolding apply_all
apply_all-returns forbidden sh ts mode [] (d, out) h = (out, refl)
apply_all-returns forbidden sh ts mode (change ∷ changes) (d, out) h =
    rw
      (
        assert_change-has forbidden sh change h.0,
        assert_change-refuses_delete forbidden sh change h.0,
      )
      (apply_all-returns forbidden sh ts mode changes _ h.1)
