-- ===== src/Rules/Refusal.antt =====
-- core/rules.js: what a refused op leaves.
use lazy_storage.Base.{
  ℕ, ◌≡◌, inl, inr, not, ◌&&◌, Option, none, some, List, [], ◌∷◌, Bool-cases, KeyPath, Map, Result,
  ok, err,
}
use lazy_storage.Rules.{
  judge, judge_asked, after_trial, Asked, Judged, Rules, unjudged, RuleError, Trial, Change,
  refused, undo, threw, conclude, failed, no_rules, kept, busy, judged, trial, verdicts, by_record,
  passed,
}
use lazy_storage.Shape.{Shape}
use lazy_storage.Doc.State.{Doc, Saved}
use lazy_storage.Doc.Call.{Mode}
use lazy_storage.Doc.Rollback.{Ran, IsUndone, trial-IsUndone}
use lazy_storage.Doc.Touch.{SameAt, SameAt-refl}
use lazy_storage.Doc.Undo.{IsSettled}
use lazy_storage.Doc.Run.{apply_all}
use lazy_storage.Doc.Remove.{no_out}

-- What `judge` may leave: after a refusal every record and every clock as it was, and never a trial.
abbrev pub IsHarmless : {E R : Type 0} → Doc → Judged E R → Type 0
IsHarmless d (refused error e) = (j : KeyPath) → SameAt j d e
IsHarmless d busy = ⊥
IsHarmless d (passed r e) = Unit
IsHarmless d (failed x e) = Unit

unjudged-IsHarmless : {E R : Type 0} (d e : Doc) (r : Result E R) → IsHarmless d (unjudged (e, r))
unjudged-IsHarmless d e (ok r) = tt
unjudged-IsHarmless d e (err x) = tt

conclude-IsHarmless :
    {R : Type 0} (E : Type 0) (sh : Shape) (d e : Doc) (r : R) (before : Map KeyPath Saved)
    (error : Option RuleError)
    → ((j : KeyPath) → SameAt j d (undo sh before e))
    → IsHarmless d (conclude {E = E} sh r before e error)
conclude-IsHarmless E sh d e r before none h = tt
conclude-IsHarmless E sh d e r before (some error) h = h

after_trial-IsHarmless :
    {E R : Type 0} (sh : Shape) (d : Doc) (asked : List Asked) (outcome : Option (Trial E R))
    → Ran (IsUndone sh d) outcome
    → IsHarmless d (after_trial sh asked outcome)
unfolding after_trial
after_trial-IsHarmless sh d asked none h = h
after_trial-IsHarmless sh d asked (some (threw x e)) h = tt
after_trial-IsHarmless sh d asked (some (kept r before e)) h =
    conclude-IsHarmless _ sh d e r before (verdicts sh before e asked) h

judge_asked-IsHarmless :
    (sh : Shape) (ts : ℕ) (mode : Mode) (changes : List Change) (d : Doc)
    (asked : Result RuleError (List Asked))
    → IsSettled sh d
    → d.journal ≡ none
    → IsHarmless d (judge_asked sh (λ e. apply_all sh ts mode changes (e, no_out)) d asked)
unfolding judge_asked
judge_asked-IsHarmless sh ts mode changes d (err error) settled idle = λ j. SameAt-refl j d
judge_asked-IsHarmless sh ts mode changes d (ok []) settled idle =
    let (e, r) = apply_all sh ts mode changes (d, no_out) in unjudged-IsHarmless d e r
judge_asked-IsHarmless sh ts mode changes d (ok (a ∷ asked)) settled idle =
    after_trial-IsHarmless sh d (a ∷ asked)
      (trial sh (λ e. apply_all sh ts mode changes (e, no_out)) d)
      (trial-IsUndone sh ts mode changes d settled idle)

-- On a doc where singletons are there, only records that are there have clocks, and no trial runs,
-- with any rules: an op's changes are judged without a trial already running, and if a rule refuses
-- the op, outright or on what it made, every record and every clock is as it was before.
pub judge-IsHarmless :
    (rules : Rules) (sh : Shape) (ts : ℕ) (mode : Mode) (changes : List Change) (d : Doc)
    → IsSettled sh d
    → d.journal ≡ none
    → IsHarmless d (judge rules sh (λ e. apply_all sh ts mode changes (e, no_out)) changes d)
unfolding judge
judge-IsHarmless rules sh ts mode changes d settled idle =
    let (e, r) = apply_all sh ts mode changes (d, no_out) in
    elim (Bool-cases (not rules.read_only && no_rules rules.by_key)) [
      | inl open_to_all ↦ rw open_to_all (unjudged-IsHarmless d e r)
      | inr closed ↦ rw closed (
          judge_asked-IsHarmless sh ts mode changes d (judged rules (by_record sh changes []))
            settled idle)
    ]
