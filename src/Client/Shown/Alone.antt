-- ===== src/Client/Shown/Alone.antt =====
-- core/doc.js: a change that was decided already moves its own record only.
use lazy_storage.Base.{
  String, ℕ, zero, suc, ◌≡◌, refl, ap, ◌∙◌, false, not, ◌&&◌, Option, none, List, [], ◌∷◌, ◌++◌,
  if_intro, is_there, length, All, KeyPath, path_beq, Map, Result, ok, err,
}
use mathlib.Core.Path.{subst}
use lazy_storage.Doc.State.{note_in, Saved, get}
use lazy_storage.Doc.Touch.{SameAt, SameAt-refl, SameAt-trans}
use lazy_storage.Client.Session.{trust_change, trust_all}
use lazy_storage.Doc.Call.{trust}
use lazy_storage.Shape.{Shape, record_key, has}
use lazy_storage.Json.{
  Value, Fields, object, field, end, null, boolean, number, string, array, other,
}
use lazy_storage.Doc.State.{Doc, note, Place, note_in}
use lazy_storage.Doc.Remove.{
  Change, Op, put, set, del, Out, visit_remove, has_key, subtree_max, no_out,
}
use lazy_storage.Doc.Call.{Call, St, Step, done, merge, cascades, key_of, found, judging}
use lazy_storage.Doc.Touch.{Touches, Touches-refl, Touches-trans}
use lazy_storage.Doc.Blocks.{write_record-Touches, write_path-Touches, delete_path-Touches}
use lazy_storage.Doc.Tracked.{delete_record-Touches}
use lazy_storage.Doc.Whole.{delete_whole}
use lazy_storage.Doc.Run.{
  run, run_write, run_fields, run_delete, run_step, settled, merge_with, apply, refuses_delete,
  DocError,
}
use lazy_storage.Client.Session.{trust_change}
use lazy_storage.Doc.Clocks.{newer}

-- No trial runs before, and none after; only the record under `key` may have changed.
pub record Alone (key : KeyPath) (d e : Doc) : Type 0 where
  pub quiet : d.journal ≡ none → e.journal ≡ none
  pub moved : d.journal ≡ none → Touches key d e

Alone-refl : (key : KeyPath) (d : Doc) → Alone key d d
Alone-refl key d = record { quiet = λ h. h; moved = λ h. Touches-refl key d }

Alone-trans : (key : KeyPath) (d e f : Doc) → Alone key d e → Alone key e f → Alone key d f
Alone-trans key d e f h k = record {
  quiet = λ q. k.quiet (h.quiet q);
  moved = λ q. Touches-trans key d e f (h.moved q) (k.moved (h.quiet q));
}

Alone-noted :
    (sh : Shape) (c : String) (id : Option String) (key : KeyPath) (d e : Doc)
    → Touches key (note sh c id d) e
    → Alone key d e
unfolding note note_in
Alone-noted sh c id key d e t =
    let same : d.journal ≡ none → note sh c id d ≡ d =
      λ q. ap (λ (o : Option (Map KeyPath Saved)). note_in o sh c id d) q in
    record {
      quiet = λ q. t.journal ∙ ap (λ (x : Doc). x.journal) (same q) ∙ q;
      moved = λ q. subst (λ (x : Doc). Touches key x e) (same q) t;
    }

-- Without its children, the record itself is all that a visit deletes.
visit_remove-Alone :
    (fuel : ℕ) (sh : Shape) (p : Place) (d : Doc) (out : Out)
    → Alone (record_key sh p.c p.id) d (visit_remove fuel sh false (p ∷ []) [] (d, out)).0
unfolding visit_remove has_key
visit_remove-Alone zero sh p d out = Alone-refl (record_key sh p.c p.id) d
visit_remove-Alone (suc fuel) sh p d out =
    let key = record_key sh p.c p.id in
    let gone = Alone-noted sh p.c p.id key d _ (delete_record-Touches sh p.c p.id d) in
    if_intro (λ (r : Doc × Out). Alone key d r.0) (not (is_there (get sh d p.c p.id)))
      (Alone-refl key d) gone

module _ (k : Call) where
  delete_whole-Alone :
      (calm : cascades k.mode ≡ false) (d : Doc) (out : Out)
      → Alone (key_of k) d (run_delete k [] (d, out)).0
  unfolding run_delete delete_whole visit_remove
  delete_whole-Alone calm d out =
      let e = note k.sh k.c k.id d in
      let here = Alone-noted k.sh k.c k.id (key_of k) d e (Touches-refl (key_of k) e) in
      let P = λ (r : St). Alone (key_of k) d r.0 in
      let visit = visit_remove-Alone (length e.state) k.sh (record { c = k.c; id = k.id }) e out in
      if_intro P (not (is_there (found k e))) here (
        if_intro P (judging k.mode && newer (subtree_max k.sh e k.c k.id) k.ts) here
          (rw calm (Alone-trans (key_of k) d e _ here visit)))

  run_delete-Alone :
      (calm : cascades k.mode ≡ false) (path : KeyPath) (d : Doc) (out : Out)
      → Alone (key_of k) d (run_delete k path (d, out)).0
  unfolding run_delete
  run_delete-Alone calm [] d out = delete_whole-Alone calm d out
  run_delete-Alone calm (seg ∷ path) d out =
      Alone-noted k.sh k.c k.id (key_of k) d _
        (delete_path-Touches k (seg ∷ path) (note k.sh k.c k.id d) out)

  run_step-Alone :
      (path : KeyPath) (v : Value) (d : Doc) (out : Out)
      → Alone (key_of k) d (settled (run_step k path v (d, out))).0
  unfolding run_step
  run_step-Alone [] v d out =
      Alone-noted k.sh k.c k.id (key_of k) d _ (write_record-Touches k (note k.sh k.c k.id d) v out)
  run_step-Alone (seg ∷ path) v d out =
      Alone-noted k.sh k.c k.id (key_of k) d _
        (write_path-Touches k (seg ∷ path) v (note k.sh k.c k.id d) out)

merge_with-Alone :
    (key : KeyPath) (d : Doc) (f : St → St) (s : Step)
    → ((st : St) → Alone key st.0 (f st).0)
    → Alone key d (settled s).0
    → Alone key d (merge_with f s).0
unfolding merge_with
merge_with-Alone key d f (done st) h a = a
merge_with-Alone key d f (merge st) h a = Alone-trans key d st.0 (f st).0 a (h st)

mutual
  unfolding run_write run_fields

  run_write-Alone :
      (k : Call) (calm : cascades k.mode ≡ false) (path : KeyPath) (v : Value) (st : St)
      → Alone (key_of k) st.0 (run_write k path v st).0
  run_write-Alone k calm path (object fs) (d, out) =
      merge_with-Alone (key_of k) d (run_fields k path fs) (run_step k path (object fs) (d, out))
        (λ st. run_fields-Alone k calm path fs st) (run_step-Alone k path (object fs) d out)
  run_write-Alone k calm path null (d, out) = run_step-Alone k path null d out
  run_write-Alone k calm path (boolean b) (d, out) = run_step-Alone k path (boolean b) d out
  run_write-Alone k calm path (number n) (d, out) = run_step-Alone k path (number n) d out
  run_write-Alone k calm path (string s) (d, out) = run_step-Alone k path (string s) d out
  run_write-Alone k calm path (array vs) (d, out) = run_step-Alone k path (array vs) d out
  run_write-Alone k calm path other (d, out) = run_step-Alone k path other d out

  run_fields-Alone :
      (k : Call) (calm : cascades k.mode ≡ false) (path : KeyPath) (fs : Fields) (st : St)
      → Alone (key_of k) st.0 (run_fields k path fs st).0
  run_fields-Alone k calm path end st = Alone-refl (key_of k) st.0
  run_fields-Alone k calm path (field key null fs) (d, out) =
      let first = run_delete-Alone k calm (path ++ key ∷ []) d out in
      Alone-trans (key_of k) d _ _ first (run_fields-Alone k calm path fs _)
  run_fields-Alone k calm path (field key v fs) st =
      let first = run_write-Alone k calm (path ++ key ∷ []) v st in
      Alone-trans (key_of k) st.0 _ _ first (run_fields-Alone k calm path fs _)

run-Alone :
    (k : Call) (calm : cascades k.mode ≡ false) (path : KeyPath) (op : Op) (st : St)
    → Alone (key_of k) st.0 (run k path op st).0
unfolding run
run-Alone k calm path (put v) st = run_write-Alone k calm path v st
run-Alone k calm path (set v) st = run_write-Alone k calm path v st
run-Alone k calm path del (d, out) = run_delete-Alone k calm path d out

-- A change decided already, onto a doc on which no trial runs.
trust_change-Alone :
    (sh : Shape) (ts : ℕ) (change : Change) (d : Doc)
    → Alone (record_key sh change.c change.id) d (trust_change sh ts change d)
unfolding trust_change apply
trust_change-Alone sh ts change d =
    let call : Call = record { sh = sh; mode = trust; ts = ts; c = change.c; id = change.id } in
    let it = run-Alone call refl change.path change.op (d, no_out) in
    let still = Alone-refl (record_key sh change.c change.id) d in
    let kept : Result DocError St → Doc = λ r. elim r [ ok st ↦ st.0 | err e ↦ d ] in
    let IsKept : Result DocError St → Type 0 =
      λ r. Alone (record_key sh change.c change.id) d (kept r) in
    if_intro IsKept (not (has sh change.c)) still
      (if_intro IsKept (refuses_delete sh change change.path change.op) still it)

-- No change of the list is of the record under a key.
abbrev pub Avoids : Shape → KeyPath → List Change → Type 0
Avoids sh j changes =
    All (λ (change : Change). path_beq (record_key sh change.c change.id) j ≡ false) changes

pub trust_all-quiet :
    (sh : Shape) (ts : ℕ) (changes : List Change) (d : Doc)
    → d.journal ≡ none
    → (trust_all sh ts changes d).journal ≡ none
unfolding trust_all
trust_all-quiet sh ts [] d q = q
trust_all-quiet sh ts (change ∷ changes) d q =
    let first = trust_change-Alone sh ts change d in
    trust_all-quiet sh ts changes (trust_change sh ts change d) (first.quiet q)

pub trust_all-SameAt :
    (sh : Shape) (j : KeyPath) (ts : ℕ) (changes : List Change) (d : Doc)
    → d.journal ≡ none
    → Avoids sh j changes
    → SameAt j d (trust_all sh ts changes d)
unfolding trust_all
trust_all-SameAt sh j ts [] d q a = SameAt-refl j d
trust_all-SameAt sh j ts (change ∷ changes) d q (away, a) =
    let first = trust_change-Alone sh ts change d in
    let e = trust_change sh ts change d in
    let moved = first.moved q in
    SameAt-trans j d e _ (moved.others j away)
      (trust_all-SameAt sh j ts changes e (first.quiet q) a)
