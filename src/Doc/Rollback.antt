-- ===== src/Doc/Rollback.antt =====
-- core/doc.js: a trial of any changes can be undone, and one that throws has been.
use mathlib.Core.Path.{subst}
use lazy_storage.Base.{
  ℕ, ◌≡◌, refl, sym, ◌∙◌, inl, inr, not, Option, none, some, List, [], ◌∷◌, arith, Bool-cases,
  if_intro, is_there, All, KeyPath, path_beq, path_beq_iff, path_eq, Map, map_get, Result, ok, err,
}
use lazy_storage.Doc.Call.{Call, Mode}
use lazy_storage.Doc.Touch.{SameAt, SameAt-trans}
use lazy_storage.Doc.Frame.{Framed, framed, Recalls}
use lazy_storage.Shape.{Shape, has}
use lazy_storage.Doc.Trial.{
  undo, trial, Trial, kept, finish, set_record, threw, journal_of, closed, trial_in,
}
use lazy_storage.Doc.Run.{apply_all, settled, run, refuses_delete, DocError}
use lazy_storage.Doc.State.{Doc, Saved, clock_of}
use lazy_storage.Doc.Undo.{IsSettled, set_record-Touches, set_record-SameAt}
use lazy_storage.Doc.Remove.{Change, Out, no_out}
use lazy_storage.Doc.Tracked.{noted-Framed, run-Framed}

recalled-SameAt :
    (sh : Shape) (d e : Doc) (row : KeyPath × Saved)
    → IsSettled sh d
    → is_there e.clocks ≡ is_there d.clocks
    → Recalls sh d row
    → SameAt row.0 d (set_record sh row.1.place.c row.1.place.id row.1.content row.1.clock e)
recalled-SameAt sh d e row settled track r =
    let place = row.1.place in
    rw (r.content, r.times, r.keyed) (set_record-SameAt sh place.c place.id d e settled track)

-- What the journal does not have is as it was, and what it has is put back.
undo-SameAt :
    (sh : Shape) (d : Doc) (m : Map KeyPath Saved) (e : Doc)
    → IsSettled sh d
    → is_there e.clocks ≡ is_there d.clocks
    → All (Recalls sh d) m
    → ((j : KeyPath) → map_get j m ≡ none → SameAt j d e)
    → (j : KeyPath) → SameAt j d (undo sh m e)
unfolding undo
undo-SameAt sh d [] e settled track h others = λ j. others j (unfold map_get in refl)
undo-SameAt sh d ((key, saved) ∷ m) e settled track h others =
    let place = saved.place in
    let e' = set_record sh place.c place.id saved.content saved.clock e in
    let t = set_record-Touches sh place.c place.id saved.content saved.clock e in
    undo-SameAt sh d m e' settled (t.tracking ∙ track) h.1 (λ j n.
      elim (Bool-cases (path_beq key j)) [
        | inl q ↦
            subst (λ x. SameAt x d e') ((path_beq_iff key j).0 q)
              (recalled-SameAt sh d e (key, saved) settled track h.0)
        | inr q ↦
            SameAt-trans j d e e' (others j (unfold map_get in rw (q, n) refl))
              (t.others j (rw h.0.keyed at q))
      ])

-- From a trial's frame, undoing its journal is back at its start.
undone-SameAt :
    (sh : Shape) (d e : Doc)
    → IsSettled sh d
    → Framed sh d e
    → (j : KeyPath) → SameAt j d (undo sh (journal_of e) (closed e))
undone-SameAt sh d e settled (framed m f) j =
    let same : journal_of e ≡ m = ground (arith, f.running) in
    rw same (
      undo-SameAt sh d m (closed e) settled f.tracking f.kept
        (λ i n. record {
          row = (f.others i n).row;
          times = unfold clock_of in (f.others i n).times;
        })
        j)

-- What a trial leaves: as it was before, at once where it threw, or when it is undone.
abbrev pub IsUndone : {E R : Type 0} → Shape → Doc → Trial E R → Type 0
IsUndone sh d (kept r before e) = (j : KeyPath) → SameAt j d (undo sh before e)
IsUndone sh d (threw x e) = (j : KeyPath) → SameAt j d e

pub begin-Framed : (sh : Shape) (d : Doc) → Framed sh d (record d { journal = some [] })
begin-Framed sh d = framed [] (record {
  running = refl;
  tracking = refl;
  kept = tt;
  others = λ j n. record { row = refl; times = unfold clock_of in refl };
})

apply_all-Framed :
    (sh : Shape) (d : Doc) (ts : ℕ) (mode : Mode) (changes : List Change) (e : Doc) (out : Out)
    → Framed sh d e
    → Framed sh d (apply_all sh ts mode changes (e, out)).0
unfolding apply_all
apply_all-Framed sh d ts mode [] e out f = f
apply_all-Framed sh d ts mode (change ∷ changes) e out f =
    let k : Call = record { sh = sh; mode = mode; ts = ts; c = change.c; id = change.id } in
    let (e', out') = run k change.path change.op (e, out) in
    let rest =
      apply_all-Framed sh d ts mode changes e' out'
        (run-Framed k d change.path change.op (e, out) f) in
    if_intro (λ (r : Doc × Result DocError Out). Framed sh d r.0) (not (has sh change.c)) f
      (if_intro (λ (r : Doc × Result DocError Out). Framed sh d r.0)
        (refuses_delete sh change change.path change.op) (noted-Framed k d e f) rest)

finish-IsUndone :
    {E R : Type 0} (sh : Shape) (d e : Doc) (r : Result E R)
    → IsSettled sh d
    → Framed sh d e
    → IsUndone sh d (finish sh (e, r))
finish-IsUndone sh d e (ok r) settled f = undone-SameAt sh d e settled f
finish-IsUndone sh d e (err x) settled f = undone-SameAt sh d e settled f

abbrev pub Ran : {A : Type 0} → (A → Type 0) → Option A → Type 0
Ran P none = ⊥
Ran P (some a) = P a

-- What runs in a trial and keeps its journal can be undone.
pub trial_of-IsUndone :
    {E R : Type 0} (sh : Shape) (fn : Doc → Doc × Result E R) (d : Doc)
    → IsSettled sh d
    → d.journal ≡ none
    → Framed sh d (fn (record d { journal = some [] })).0
    → Ran (IsUndone sh d) (trial sh fn d)
unfolding trial trial_in
trial_of-IsUndone sh fn d settled idle done =
    let (e, r) = fn (record d { journal = some [] }) in
    subst (λ o. Ran (IsUndone sh d) (trial_in sh fn d o)) (sym idle)
      (finish-IsUndone sh d e r settled done)

-- From the start of a trial, the changes of an op keep its journal.
pub started-Framed :
    (sh : Shape) (ts : ℕ) (mode : Mode) (changes : List Change) (d : Doc)
    → Framed sh d (apply_all sh ts mode changes (record d { journal = some [] }, no_out)).0
started-Framed sh ts mode changes d =
    apply_all-Framed sh d ts mode changes (record d { journal = some [] }) no_out
      (begin-Framed sh d)

-- On a doc where singletons are there, only records that are there have clocks, and no trial runs:
-- a trial of any changes, in any mode, at any time, runs, and it leaves every record and every clock
-- as it was, at once where a change throws, and otherwise when the trial is undone.
pub trial-IsUndone :
    (sh : Shape) (ts : ℕ) (mode : Mode) (changes : List Change) (d : Doc)
    → IsSettled sh d
    → d.journal ≡ none
    → Ran (IsUndone sh d) (trial sh (λ e. apply_all sh ts mode changes (e, no_out)) d)
trial-IsUndone sh ts mode changes d settled idle =
    trial_of-IsUndone sh (λ e. apply_all sh ts mode changes (e, no_out)) d settled idle
      (started-Framed sh ts mode changes d)
