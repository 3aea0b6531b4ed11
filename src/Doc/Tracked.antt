-- ===== src/Doc/Tracked.antt =====
-- core/doc.js: every call of `run` keeps what a trial's journal says.
use lazy_storage.Base.{
  String, ℕ, zero, suc, inl, inr, Bool, not, ◌&&◌, ◌||◌, Option, List, [], ◌∷◌, ◌++◌, if◌then◌else◌,
  Bool-cases, is_there, length, KeyPath,
}
use lazy_storage.Doc.Touch.{
  Touches, Touches-trans, delete_value-Touches, delete_clock-Touches, relink-Touches, Touches-refl,
}
use lazy_storage.Doc.Frame.{Framed, note-Framed, Frames-Touches, framed}
use lazy_storage.Doc.Remove.{
  delete_record, visit_remove, Out, land, deletion, has_key, Op, put, set, subtree_max, del,
}
use lazy_storage.Shape.{Shape, record_key}
use lazy_storage.Doc.State.{Doc, Place, children_at, note, delete_value, delete_clock, get}
use lazy_storage.Doc.Run.{run_write, run_step, run_delete, settled, merge_with, run, run_fields}
use lazy_storage.Doc.Call.{Call, cascades, St, key_of, found, judging, Step, done, merge}
use lazy_storage.Json.{
  Value, object, boolean, number, string, array, Fields, field, null, other, end,
}
use lazy_storage.Doc.Whole.{delete_whole}
use lazy_storage.Doc.Blocks.{delete_path-Touches, write_record-Touches, write_path-Touches}
use lazy_storage.Doc.Clocks.{newer}

-- A record noted, and then only it touched.
pub noted-Touches :
    (sh : Shape) (d e e' : Doc) (c : String) (id : Option String)
    → Framed sh d e
    → Touches (record_key sh c id) (note sh c id e) e'
    → Framed sh d e'
noted-Touches sh d e e' c id (framed m f) t =
    let (m', f', has) = note-Framed sh d e m f c id in
    framed m' (Frames-Touches sh d (note sh c id e) m' f' (record_key sh c id) e' t has)

pub delete_record-Touches :
    (sh : Shape) (c : String) (id : Option String) (e : Doc)
    → Touches (record_key sh c id) (note sh c id e) (delete_record sh c id e)
unfolding delete_record
delete_record-Touches sh c id e =
    let key = record_key sh c id in
    let e1 = note sh c id e in
    let e2 = delete_value key e1 in
    let e3 = delete_clock key e2 in
    Touches-trans key e1 e2 _ (delete_value-Touches key e1)
      (Touches-trans key e2 e3 _ (delete_clock-Touches key e2) (relink-Touches key sh c id e3))

delete_record-Framed :
    (sh : Shape) (d e : Doc) (c : String) (id : Option String)
    → Framed sh d e
    → Framed sh d (delete_record sh c id e)
delete_record-Framed sh d e c id f =
    noted-Touches sh d e (delete_record sh c id e) c id f (delete_record-Touches sh c id e)

visit_remove-Framed :
    (fuel : ℕ) (sh : Shape) (cascade : Bool) (todo : List Place) (seen : List KeyPath) (d e : Doc)
    (out : Out)
    → Framed sh d e
    → Framed sh d (visit_remove fuel sh cascade todo seen (e, out)).0
unfolding visit_remove
visit_remove-Framed fuel sh cascade [] seen d e out f = f
visit_remove-Framed zero sh cascade (p ∷ todo) seen d e out f = f
visit_remove-Framed (suc fuel) sh cascade (p ∷ todo) seen d e out f =
    let kids = if cascade then children_at sh e p.c p.id else [] in
    elim (Bool-cases
      (has_key (record_key sh p.c p.id) seen || not (is_there (get sh e p.c p.id)))) [
        | inl t ↦ rw t (visit_remove-Framed (suc fuel) sh cascade todo seen d e out f)
        | inr t ↦ rw t (
            visit_remove-Framed fuel sh cascade (kids ++ todo) (record_key sh p.c p.id ∷ seen) d
              (delete_record sh p.c p.id e) (land (deletion p.c p.id) out)
              (delete_record-Framed sh d e p.c p.id f))
      ]

module _ (k : Call) (d : Doc) where
  delete_whole-Framed :
      (e : Doc) (out : Out) → Framed k.sh d e → Framed k.sh d (delete_whole k (e, out)).0
  unfolding delete_whole
  delete_whole-Framed e out f = elim (Bool-cases (not (is_there (found k e)))) [
    | inl t ↦ rw t f
    | inr t ↦ elim (Bool-cases (judging k.mode && newer (subtree_max k.sh e k.c k.id) k.ts)) [
      | inl u ↦ rw (t, u) f
      | inr u ↦
          rw (t, u)
            (visit_remove-Framed (length e.state) k.sh (cascades k.mode)
              (record { c = k.c; id = k.id } ∷ []) [] d e out f)
    ]
  ]

  pub noted-Framed : (e : Doc) → Framed k.sh d e → Framed k.sh d (note k.sh k.c k.id e)
  noted-Framed e f =
      noted-Touches k.sh d e (note k.sh k.c k.id e) k.c k.id f
        (Touches-refl (key_of k) (note k.sh k.c k.id e))

  run_delete-Framed :
      (path : KeyPath) (e : Doc) (out : Out)
      → Framed k.sh d e
      → Framed k.sh d (run_delete k path (e, out)).0
  unfolding run_delete
  run_delete-Framed [] e out f = delete_whole-Framed (note k.sh k.c k.id e) out (noted-Framed e f)
  run_delete-Framed (seg ∷ path) e out f =
      noted-Touches k.sh d e _ k.c k.id f
        (delete_path-Touches k (seg ∷ path) (note k.sh k.c k.id e) out)

  run_step-Framed :
      (path : KeyPath) (v : Value) (e : Doc) (out : Out)
      → Framed k.sh d e
      → Framed k.sh d (settled (run_step k path v (e, out))).0
  unfolding run_step
  run_step-Framed [] v e out f =
      noted-Touches k.sh d e _ k.c k.id f (write_record-Touches k (note k.sh k.c k.id e) v out)
  run_step-Framed (seg ∷ path) v e out f =
      noted-Touches k.sh d e _ k.c k.id f
        (write_path-Touches k (seg ∷ path) v (note k.sh k.c k.id e) out)

merge_with-Framed :
    (sh : Shape) (d : Doc) (f : St → St) (s : Step)
    → ((st : St) → Framed sh d st.0 → Framed sh d (f st).0)
    → Framed sh d (settled s).0
    → Framed sh d (merge_with f s).0
unfolding merge_with
merge_with-Framed sh d f (done st) h k = k
merge_with-Framed sh d f (merge st) h k = h st k

mutual
  unfolding run_write

  run_write-Framed :
      (k : Call) (d : Doc) (path : KeyPath) (v : Value) (st : St)
      → Framed k.sh d st.0
      → Framed k.sh d (run_write k path v st).0
  run_write-Framed k d path (object fs) (e, out) f =
      merge_with-Framed k.sh d (run_fields k path fs) (run_step k path (object fs) (e, out))
        (λ st. run_fields-Framed k d path fs st) (run_step-Framed k d path (object fs) e out f)
  run_write-Framed k d path null (e, out) f = run_step-Framed k d path null e out f
  run_write-Framed k d path (boolean b) (e, out) f = run_step-Framed k d path (boolean b) e out f
  run_write-Framed k d path (number n) (e, out) f = run_step-Framed k d path (number n) e out f
  run_write-Framed k d path (string s) (e, out) f = run_step-Framed k d path (string s) e out f
  run_write-Framed k d path (array vs) (e, out) f = run_step-Framed k d path (array vs) e out f
  run_write-Framed k d path other (e, out) f = run_step-Framed k d path other e out f

  run_fields-Framed :
      (k : Call) (d : Doc) (path : KeyPath) (fs : Fields) (st : St)
      → Framed k.sh d st.0
      → Framed k.sh d (run_fields k path fs st).0
  run_fields-Framed k d path end st f = f
  run_fields-Framed k d path (field key null fs) (e, out) f =
      run_fields-Framed k d path fs _ (run_delete-Framed k d (path ++ key ∷ []) e out f)
  run_fields-Framed k d path (field key v fs) st f =
      run_fields-Framed k d path fs _ (run_write-Framed k d (path ++ key ∷ []) v st f)

-- A change decided while a trial runs keeps the trial's journal.
pub run-Framed :
    (k : Call) (d : Doc) (path : KeyPath) (op : Op) (st : St)
    → Framed k.sh d st.0
    → Framed k.sh d (run k path op st).0
unfolding run
run-Framed k d path (put v) st f = run_write-Framed k d path v st f
run-Framed k d path (set v) st f = run_write-Framed k d path v st f
run-Framed k d path del (e, out) f = run_delete-Framed k d path e out f
