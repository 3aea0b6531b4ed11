-- ===== src/Rules.antt =====
-- core/rules.js: who may write what. A rule function is a parameter: it is given the record before
-- and after, the doc as the op leaves it, and the changes, and says yes or no, or throws. It is taken
-- to change nothing itself. The user, the replica and the store it may look at are its own.
use lazy_storage.Base.{
  String, ◌*◌, Bool, true, false, not, ◌&&◌, Option, none, some, List, [], ◌∷◌, ◌++◌, if◌then◌else◌,
  KeyPath, path_beq, path_eq, Map, map_get, Result, ◌>>=◌, ◌>>◌, ok, err, string_eq,
}
use lazy_storage.Doc.State.{Place, Doc, Saved, get}
use lazy_storage.Json.{Value}
use lazy_storage.Shape.{Shape, record_key}
use lazy_storage.Doc.Trial.{Trial, trial, undo, threw, kept}
use lazy_storage.Doc.Remove.{Change}
pub mod Refusal

pub data Verdict : Type 0 where
  allowed forbidden thrown : Verdict

pub record Group : Type 0 where
  pub key : KeyPath
  pub place : Place
  pub changes : List Change

-- A rule as it is used: null, false, or a function.
pub data Rule : Type 0 where
  anyone nobody : Rule
  ask : (Option Value → Option Value → Group → Doc → Verdict) → Rule

pub record Rules : Type 0 where
  pub by_key : Map String Rule
  pub read_only : Bool

-- A RuleError: a collection that is the server's to write, or a record that a function refused.
pub data RuleError : Type 0 where
  server_writes : String → RuleError
  refusal : Place → RuleError

abbrev pub rule_or : Rule → Option Rule → Rule
rule_or rule none = rule
rule_or rule (some named) = named

-- `ruleOn`
unfoldable pub rule_on : Rules → String → Rule
rule_on rules c =
    if rules.read_only
    then nobody
    else rule_or (rule_or anyone (map_get "*" rules.by_key)) (map_get c rules.by_key)

-- `byRecord`: a change put with the others of its record, in the order the records come.
unfoldable pub add_change : Shape → Change → List Group → List Group
add_change sh change [] =
    record {
      key = record_key sh change.c change.id;
      place = record { c = change.c; id = change.id };
      changes = change ∷ [];
    }
    ∷ []
add_change sh change (group ∷ groups) =
    let rest = add_change sh change groups in
    if path_beq group.key (record_key sh change.c change.id)
    then record group { changes = group.changes ++ change ∷ [] } ∷ groups
    else group ∷ rest

unfoldable pub by_record : Shape → List Change → List Group → List Group
by_record sh [] groups = groups
by_record sh (change ∷ changes) groups = by_record sh changes (add_change sh change groups)

abbrev pub Asked : Type 0
Asked = Group × (Option Value → Option Value → Group → Doc → Verdict)

unfoldable pub sort_rule :
    Rule → Group → Result RuleError (List Asked) → Result RuleError (List Asked)
sort_rule nobody group rest = err (server_writes group.place.c)
sort_rule anyone group rest = rest
sort_rule (ask rule) group rest = do asked ← rest; ok ((group, rule) ∷ asked)

-- The loop that refuses what is the server's, and keeps the records with a rule function.
unfoldable pub judged : Rules → List Group → Result RuleError (List Asked)
judged rules [] = ok []
judged rules (group ∷ groups) = sort_rule (rule_on rules group.place.c) group (judged rules groups)

-- A record as it was before the trial.
unfoldable pub was : Shape → Map KeyPath Saved → Doc → Group → Option Value
was sh before d group = elim (map_get group.key before) [
  | some saved ↦ saved.content
  | none ↦ get sh d group.place.c group.place.id
]

abbrev pub refuses : Verdict → Bool
refuses allowed = false
refuses _ = true

-- The loop over the records with a rule function: the first that it refuses.
unfoldable pub verdicts : Shape → Map KeyPath Saved → Doc → List Asked → Option RuleError
verdicts sh before d [] = none
verdicts sh before d ((group, rule) ∷ asked) =
    let rest = verdicts sh before d asked in
    if refuses (rule (was sh before d group) (get sh d group.place.c group.place.id) group d)
    then some (refusal group.place)
    else rest

-- What `judge` comes to: what `apply` returned, a refusal, what `apply` threw, or that a trial runs
-- already.
pub data Judged (E R : Type 0) : Type 0 where
  passed : R → Doc → Judged E R
  refused : RuleError → Doc → Judged E R
  failed : E → Doc → Judged E R
  busy : Judged E R

abbrev pub unjudged : {E R : Type 0} → Doc × Result E R → Judged E R
unjudged (d, ok r) = passed r d
unjudged (d, err e) = failed e d

abbrev pub conclude :
    {E R : Type 0} → Shape → R → Map KeyPath Saved → Doc → Option RuleError → Judged E R
conclude sh r before d none = passed r d
conclude sh r before d (some error) = refused error (undo sh before d)

unfoldable pub after_trial : {E R : Type 0} → Shape → List Asked → Option (Trial E R) → Judged E R
after_trial sh asked none = busy
after_trial sh asked (some (threw e d)) = failed e d
after_trial sh asked (some (kept r before d)) = conclude sh r before d (verdicts sh before d asked)

unfoldable pub judge_asked :
    {E R : Type 0}
    → Shape
    → (Doc → Doc × Result E R)
    → Doc
    → Result RuleError (List Asked)
    → Judged E R
judge_asked sh fn d (err error) = refused error d
judge_asked sh fn d (ok []) = unjudged (fn d)
judge_asked sh fn d (ok (a ∷ asked)) = after_trial sh (a ∷ asked) (trial sh fn d)

abbrev pub no_rules : Map String Rule → Bool
no_rules [] = true
no_rules (row ∷ m) = false

-- `judge`, with `fn` for `apply`.
unfoldable pub judge :
    {E R : Type 0} → Rules → Shape → (Doc → Doc × Result E R) → List Change → Doc → Judged E R
judge rules sh fn changes d =
    if not rules.read_only && no_rules rules.by_key
    then unjudged (fn d)
    else judge_asked sh fn d (judged rules (by_record sh changes []))
