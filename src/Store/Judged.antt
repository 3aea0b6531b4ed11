-- ===== src/Store/Judged.antt =====
-- server/store.js and core/rules.js: an op that got through the gates is merged, or it is refused and
-- every record and every clock is as it was.
use lazy_storage.Rules
use lazy_storage.Base.{
  ℕ, ◌≡◌, sym, inl, inr, not, ◌&&◌, Option, none, some, List, [], ◌∷◌, Bool-cases, All, KeyPath,
  Map, Result, ok, err,
}
use lazy_storage.Store.State.{Options}
use lazy_storage.Doc.Remove.{Change, Out, no_out}
use lazy_storage.Store.Apply.{
  apply_valid, is_refused, ApplyError, not_valid, not_applied, doc_result,
}
use lazy_storage.Doc.State.{Doc, Saved}
use lazy_storage.Checks.{assert_change}
use lazy_storage.Checks.Passed.{apply_all-returns}
use lazy_storage.Doc.Run.{apply_all, settled, DocError}
use lazy_storage.Shape.{Shape}
use lazy_storage.Doc.Trial.{Trial, threw, finish, kept, undo, trial, trial_in}
use lazy_storage.Doc.Call.{judge}
use lazy_storage.Rules.{
  Judged, after_trial, unjudged, passed, Asked, refused, RuleError, failed, busy, verdicts,
  conclude, judge_asked, no_rules, judged, by_record,
}
use lazy_storage.Doc.Frame.{Framed}
use lazy_storage.Doc.Rollback.{begin-Framed, Ran, IsUndone, started-Framed, trial_of-IsUndone}
use lazy_storage.Doc.Touch.{SameAt-refl, SameAt}
use lazy_storage.Doc.Undo.{IsSettled}
use mathlib.Core.Path.{subst}

-- What `judge` may come to for an op that got through the gates: merged, or as it was. The doc throws
-- nothing.
abbrev pub IsOutcome : Doc → Judged ApplyError Out → Type 0
IsOutcome d (passed out e) = Unit
IsOutcome d (refused error e) = (j : KeyPath) → SameAt j d e
IsOutcome d (failed not_valid e) = (j : KeyPath) → SameAt j d e
IsOutcome d (failed (not_applied x) e) = ⊥
IsOutcome d busy = ⊥

abbrev IsThrowable : Result ApplyError Out → Type 0
IsThrowable (err (not_applied x)) = ⊥
IsThrowable _ = Unit

abbrev IsGood : Doc → Trial ApplyError Out → Type 0
IsGood d (threw (not_applied x) e) = ⊥
IsGood d _ = Unit

finish-IsGood :
    (sh : Shape) (d e : Doc) (r : Result ApplyError Out)
    → IsThrowable r
    → IsGood d (finish sh (e, r))
finish-IsGood sh d e (ok out) h = tt
finish-IsGood sh d e (err not_valid) h = tt
finish-IsGood sh d e (err (not_applied x)) h = h

conclude-IsOutcome :
    (sh : Shape) (d e : Doc) (out : Out) (before : Map KeyPath Saved) (error : Option RuleError)
    → ((j : KeyPath) → SameAt j d (undo sh before e))
    → IsOutcome d (conclude sh out before e error)
conclude-IsOutcome sh d e out before none h = tt
conclude-IsOutcome sh d e out before (some error) h = h

after_trial-IsOutcome :
    (sh : Shape) (d : Doc) (asked : List Asked) (t : Option (Trial ApplyError Out))
    → Ran (IsUndone sh d) t
    → Ran (IsGood d) t
    → IsOutcome d (after_trial sh asked t)
unfolding after_trial
after_trial-IsOutcome sh d asked none h k = h
after_trial-IsOutcome sh d asked (some (threw not_valid e)) h k = h
after_trial-IsOutcome sh d asked (some (threw (not_applied x) e)) h k = k
after_trial-IsOutcome sh d asked (some (kept out before e)) h k =
    conclude-IsOutcome sh d e out before (verdicts sh before e asked) h

doc_result-Framed :
    (sh : Shape) (d : Doc) (x : Doc × Result DocError Out)
    → Framed sh d x.0
    → Framed sh d (doc_result x).0
doc_result-Framed sh d (e, ok out) f = f
doc_result-Framed sh d (e, err x) f = f

module _ {D : Type 0} (o : Options D) (ts : ℕ) (changes : List Change) where
  abbrev pub IsChecked : Type 0
  IsChecked = All (λ change. assert_change o.is_forbidden o.shape change ≡ ok tt) changes

  apply_valid-IsThrowable : (d : Doc) → IsChecked → IsThrowable (apply_valid o ts changes d).1
  unfolding apply_valid
  apply_valid-IsThrowable d checked = elim (Bool-cases (is_refused o.validate changes)) [
    | inl e ↦ rw e tt
    | inr e ↦
        let (out, returns) =
          apply_all-returns o.is_forbidden o.shape ts judge changes (d, no_out) checked in
        rw (e, returns) tt
  ]

  apply_valid-Framed :
      (d : Doc) → Framed o.shape d (apply_valid o ts changes (record d { journal = some [] })).0
  unfolding apply_valid
  apply_valid-Framed d = elim (Bool-cases (is_refused o.validate changes)) [
    | inl e ↦ rw e (begin-Framed o.shape d)
    | inr e ↦ rw e (
        doc_result-Framed o.shape d
          (apply_all o.shape ts judge changes (record d { journal = some [] }, no_out))
          (started-Framed o.shape ts judge changes d))
  ]

  -- Without a rule function to ask, an op that is not refused outright is merged.
  unjudged-IsOutcome : (d : Doc) → IsChecked → IsOutcome d (unjudged (apply_valid o ts changes d))
  unfolding apply_valid
  unjudged-IsOutcome d checked = elim (Bool-cases (is_refused o.validate changes)) [
    | inl e ↦ rw e (λ j. SameAt-refl j d)
    | inr e ↦
        let (out, returns) =
          apply_all-returns o.is_forbidden o.shape ts judge changes (d, no_out) checked in
        rw (e, returns) tt
  ]

  trial-IsGood :
      (d : Doc)
      → IsChecked
      → d.journal ≡ none
      → Ran (IsGood d) (trial o.shape (apply_valid o ts changes) d)
  unfolding trial trial_in
  trial-IsGood d checked idle =
      let begun = record d { journal = some [] } in
      let (e, r) = apply_valid o ts changes begun in
      subst (λ j. Ran (IsGood d) (trial_in o.shape (apply_valid o ts changes) d j)) (sym idle)
        (finish-IsGood o.shape d e r (apply_valid-IsThrowable begun checked))

  judge_asked-IsOutcome :
      (d : Doc) (asked : Result RuleError (List Asked))
      → IsChecked
      → IsSettled o.shape d
      → d.journal ≡ none
      → IsOutcome d (judge_asked o.shape (apply_valid o ts changes) d asked)
  unfolding judge_asked
  judge_asked-IsOutcome d (err error) checked settled idle = λ j. SameAt-refl j d
  judge_asked-IsOutcome d (ok []) checked settled idle = unjudged-IsOutcome d checked
  judge_asked-IsOutcome d (ok (a ∷ asked)) checked settled idle =
      after_trial-IsOutcome o.shape d (a ∷ asked) (trial o.shape (apply_valid o ts changes) d)
        (trial_of-IsUndone o.shape (apply_valid o ts changes) d settled idle (apply_valid-Framed d))
        (trial-IsGood d checked idle)

  pub judge-IsOutcome :
      (d : Doc)
      → IsChecked
      → IsSettled o.shape d
      → d.journal ≡ none
      → IsOutcome d (Rules.judge o.rules o.shape (apply_valid o ts changes) changes d)
  unfolding Rules.judge
  judge-IsOutcome d checked settled idle =
      elim (Bool-cases (not o.rules.read_only && no_rules o.rules.by_key)) [
        | inl e ↦ rw e (unjudged-IsOutcome d checked)
        | inr e ↦ rw e (
            judge_asked-IsOutcome d (judged o.rules (by_record o.shape changes [])) checked settled
              idle)
      ]
