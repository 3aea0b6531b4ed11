-- ===== src/Tests.antt =====
-- Runs of core/positions.js, core/paths.js, core/doc.js and core/clock.js on concrete inputs.
use lazy_storage.Base.{
  String, str_eq, ℕ, ◌≤◌, ◌<◌, ◌≡◌, refl, Bool, true, false, none, some, List, [], ◌∷◌, ◌++◌, arith,
  replicate, All, KeyPath, path_eq, map_get, Returns, ok, err,
}
use lazy_storage.Clock.{stamp, time, adopt, create_clock, number, clamp, ReplicaClock}
use lazy_storage.Clock.Order.{observed, stamped, replay, met, stamp-IsLatest, adopt-time}
use lazy_storage.Doc.Clocks.{Clock, live_at, newer_beneath, any_newer, beneath}
use lazy_storage.Doc.Remove.{set, del, Change, no_out, Out}
use lazy_storage.Json.{
  set_field, get_field, field, end, Fields, string, object, boolean, delete_field, Value,
}
use lazy_storage.Paths.{
  any, value_at, set_at, is_unsafe_segment, own_property, set_in, delete_at, matches,
}
use lazy_storage.Doc.Remove.{missing, newer_there, lose}
use lazy_storage.Rules
use lazy_storage.Checks.{assert_change, assert_op, assert_value, assert_record}
use lazy_storage.Checks.Passed.{apply_all-returns}
use lazy_storage.Rules.{Rules, ask, forbidden}
use lazy_storage.Doc.State.{get, clock_at}
use lazy_storage.Doc.Call.{judge, St, Call}
use lazy_storage.Positions.Digits.{digit_char, digit_index, str_lt, lt_at}
use lazy_storage.Positions.Integer.{
  increment_digits, increment_head, increment_integer, decrement_digits, decrement_head,
  decrement_integer, integer_length, integer_part, type_error, range_error, IsInteger,
}
use lazy_storage.Positions.Midpoint.{
  ends_in_zero, midpoint, midpoint_open, midpoint_apart, midpoint_prefix,
}
use lazy_storage.Positions.Keys.{
  list_eq, read_digits, assert_digits, assert_key, is_position_key, or_range_error, key_below,
  above_or_fraction, key_above, key_inside, digits_between, assert_bound, key_between,
}
use lazy_storage.Positions.Between.{IsMidway, midpoint-IsMidway}
use lazy_storage.Positions.Counting.{increment_integer-above, decrement_integer-below}
use lazy_storage.Positions.Promise.{IsAnswer, key_between-IsAnswer, key_between-throws}
use lazy_storage.Positions.Many.{keys_between, IsRun, keys_between-IsRun}
use lazy_storage.Doc.State.{Doc, clock_of}
use lazy_storage.Shape.{
  is_singleton, Shape, record_key, parents_of, is_collection, is_register, under_register, full,
}
use lazy_storage.Doc.Retention.{SameVerdicts, prune_clock-SameVerdicts}
use lazy_storage.Doc.Rollback.{Ran, IsUndone, trial-IsUndone}
use lazy_storage.Doc.Prune.{prune_clock}
use lazy_storage.Doc.Undo.{IsSettled}
use lazy_storage.Paths.Writes.{value_at-set_at, value_at-delete_at}
use lazy_storage.Doc.Trial.{trial}
use lazy_storage.Doc.Run.{apply_all, run}
use lazy_storage.Doc.Inside.{outdated, current}
use lazy_storage.Doc.Decide.{IsUnmoved}
use lazy_storage.Doc.Enter.{value_in}
use lazy_storage.Doc.Newest.{timed, run-newest_stays}
use lazy_storage.Doc.Field.{FieldAt}
use lazy_storage.Rules.Refusal.{IsHarmless, judge-IsHarmless}
mod Core
mod Client
mod Server
mod Lists

positions_program : Unit {0}
unfolding digit_char digit_index str_lt increment_digits increment_head increment_integer
    decrement_digits decrement_head decrement_integer integer_length integer_part ends_in_zero
    midpoint midpoint_open midpoint_apart midpoint_prefix list_eq read_digits assert_digits
    assert_key is_position_key or_range_error key_below above_or_fraction key_above key_inside
    digits_between assert_bound key_between
positions_program = tt

-- 'a0', 'a1' and 'A000…0'
abbrev a0 : List ℕ
a0 = 97 ∷ 48 ∷ []

abbrev a1 : List ℕ
a1 = 97 ∷ 49 ∷ []

abbrev near_floor : List ℕ
near_floor = (65 ∷ replicate 25 48) ++ 49 ∷ []

-- 'a0V', and the key below the least but one, which is refused as a bound.
runs :
    (key_between (some a0) (some a1) ≡ ok (97 ∷ 48 ∷ 86 ∷ []))
    × (key_between none (some near_floor) ≡ ok (65 ∷ replicate 26 48))
    × (is_position_key near_floor ≡ true)
    × (key_between none (some (65 ∷ replicate 26 48)) ≡ err type_error)
unfolding positions_program
runs = (refl, refl, refl, refl)

key_between-IsAnswer_example :
    Returns (IsAnswer (some a0) (some a1)) (key_between (some a0) (some a1))
unfolding positions_program
key_between-IsAnswer_example = key_between-IsAnswer (some a0) (some a1) refl refl refl

key_between-throws_example : key_between (some a1) (some a0) ≡ err range_error
unfolding positions_program
key_between-throws_example = key_between-throws a1 a0 refl

keys_between-IsRun_example :
    Returns (IsRun (some a0) (some a1) 5) (keys_between (some a0) (some a1) 5)
unfolding positions_program
keys_between-IsRun_example = keys_between-IsRun a0 (some a1) 5 refl refl refl

midpoint-IsMidway_example :
    Returns (IsMidway (1 ∷ []) (1 ∷ 5 ∷ [])) (midpoint (1 ∷ []) (1 ∷ 5 ∷ []))
unfolding positions_program
midpoint-IsMidway_example =
    midpoint-IsMidway (1 ∷ []) (1 ∷ 5 ∷ []) (record { digits = (omega arith, tt); whole = refl })
      (record { digits = (omega arith, (omega arith, tt)); whole = refl }) refl

increment_integer-above_example :
    IsInteger (37 ∷ 0 ∷ 0 ∷ []) × (lt_at (36 ∷ 61 ∷ []) (37 ∷ 0 ∷ 0 ∷ []) ≡ true)
unfolding positions_program
increment_integer-above_example =
    increment_integer-above (36 ∷ 61 ∷ []) (37 ∷ 0 ∷ 0 ∷ []) (refl, (omega arith, tt)) refl

decrement_integer-below_example :
    IsInteger (35 ∷ 61 ∷ []) × (lt_at (35 ∷ 61 ∷ []) (36 ∷ 0 ∷ []) ≡ true)
unfolding positions_program
decrement_integer-below_example =
    decrement_integer-below (36 ∷ 0 ∷ []) (35 ∷ 61 ∷ []) (refl, (omega arith, tt)) refl

-- `{ rows: { a: { title: 'x' } } }`, a path inside it, and a deletion.
abbrev row : Fields
row = field "title" (string "x") end

abbrev tree : Fields
tree = field "a" (object row) end

set_at_run :
    set_at tree ("a" ∷ "done" ∷ []) (boolean true)
    ≡ ok (field "a" (object (field "title" (string "x") (field "done" (boolean true) end))) end)
unfolding set_at any is_unsafe_segment set_in get_field set_field
set_at_run = refl

value_at-set_at_example :
    value_at
      (object
        (field "a" (object (field "title" (string "x") (field "done" (boolean true) end))) end))
      ("a" ∷ "done" ∷ [])
    ≡ some (boolean true)
value_at-set_at_example =
    value_at-set_at tree
      (field "a" (object (field "title" (string "x") (field "done" (boolean true) end))) end) "a"
      ("done" ∷ []) (boolean true) set_at_run

value_at-delete_at_example :
    let left : Value = delete_at (object tree) ("a" ∷ "title" ∷ []) in
    (value_at left ("a" ∷ "title" ∷ []) ≡ none)
    × ((other_key : String)
        → str_eq "title" other_key ≡ false
        → value_at left ("a" ∷ other_key ∷ []) ≡ value_at (object tree) ("a" ∷ other_key ∷ []))
unfolding value_at get_field own_property
value_at-delete_at_example = value_at-delete_at (object tree) ("a" ∷ []) "title" row refl

abbrev pub todos : Shape
todos = record {
  initial = field "todos" (object end) end;
  collections = "todos" ∷ [];
  singletons = [];
  registers = [];
  links = [];
}

abbrev key : KeyPath
key = "todos" ∷ "a" ∷ []

abbrev clock : Clock
clock = record { at = some 3; live = ("title" ∷ [], 7) ∷ []; gone = ("done" ∷ [], 5) ∷ [] }

abbrev pub doc : Doc
doc = record {
  state = (key, object row) ∷ [];
  clocks = some ((key, clock) ∷ []);
  children = [];
  parents_of_child = [];
  record_at = [];
  journal = none;
}

pub doc-IsSettled : IsSettled todos doc
unfolding is_singleton any map_get clock_of
doc-IsSettled = record { singleton_there = λ c id h. absurd (cc); clocked = λ k h. ground arith }

-- A title that is older than the one there, a field that is new, and a deletion of the record.
abbrev pub changes : List Change
changes =
    record { c = "todos"; id = some "a"; path = "title" ∷ []; op = set (string "y") }
    ∷ record { c = "todos"; id = some "a"; path = "due" ∷ []; op = set (boolean true) }
    ∷ record { c = "todos"; id = some "a"; path = []; op = del }
    ∷ []

trial-IsUndone_example :
    Ran (IsUndone todos doc) (trial todos (λ e. apply_all todos 6 judge changes (e, no_out)) doc)
trial-IsUndone_example = trial-IsUndone todos 6 judge changes doc doc-IsSettled refl

abbrev call : Call
call = record { sh = todos; mode = judge; ts = 8; c = "todos"; id = some "a" }

fits : FieldAt call "title" doc row clock
unfolding get clock_of live_at map_get get_field is_singleton any record_key parents_of
fits = record { row = refl; times = refl; leaf = refl; born = refl; alone = refl }

not_outdated : outdated call doc ("title" ∷ []) ≡ false
unfolding outdated live_at current value_in value_at newer_beneath any_newer beneath clock_at get
    clock_of map_get get_field is_singleton any record_key
not_outdated = refl

run-newest_stays_example :
    let path : KeyPath = "title" ∷ [] in
    let late : St → St = run (timed call 9) path (set (string "z")) in
    let early : St → St = run (timed call 8) path (set (string "y")) in
    (current call (late (early (doc, no_out))).0 path ≡ some (string "z"))
    × (current call (early (late (doc, no_out))).0 path ≡ some (string "z"))
    × ((early (late (doc, no_out))).1
        ≡ lose "todos" (some "a") path newer_there (late (doc, no_out)).1)
run-newest_stays_example =
    run-newest_stays call "title" (string "z") (string "y") doc row clock no_out 8 9 refl fits
      not_outdated (omega arith) refl refl

abbrev pub rules : Rules
rules = record {
  by_key = ("todos", ask (λ before after group e. forbidden)) ∷ [];
  read_only = false;
}

judge-IsHarmless_example :
    IsHarmless doc
      (Rules.judge rules todos (λ e. apply_all todos 6 judge changes (e, no_out)) changes doc)
judge-IsHarmless_example = judge-IsHarmless rules todos 6 judge changes doc doc-IsSettled refl

pub is_forbidden : String → Bool
is_forbidden key = str_eq key "__proto__"

changes-pass : All (λ change. assert_change is_forbidden todos change ≡ ok tt) changes
unfolding is_forbidden assert_change assert_op assert_value assert_record is_collection is_singleton
    is_register matches under_register any full
changes-pass = (refl, (refl, (refl, tt)))

apply_all-returns_example :
    (out : Out) × ((apply_all todos 6 judge changes (doc, no_out)).1 ≡ ok out)
apply_all-returns_example =
    apply_all-returns is_forbidden todos 6 judge changes (doc, no_out) changes-pass

prune_clock-SameVerdicts_example : SameVerdicts 6 (prune_clock 4 clock) clock
unfolding map_get
prune_clock-SameVerdicts_example =
    prune_clock-SameVerdicts 4 6 clock (omega arith) (refl, tt) (refl, tt)

abbrev seen_more : ReplicaClock
seen_more = record create_clock { highest = 90 }

stamp-IsLatest_example :
    All
      (λ ts.
        (ts < (stamp 50 (replay (observed (number 90) ∷ stamped 40 ∷ []) create_clock)).0)
        × (ts ≤ time 50 (replay (observed (number 90) ∷ stamped 40 ∷ []) create_clock)))
      (met (observed (number 90) ∷ stamped 40 ∷ []) create_clock)
stamp-IsLatest_example = stamp-IsLatest (observed (number 90) ∷ stamped 40 ∷ []) create_clock 50

adopt-time_example :
    (time 100 (adopt 100 (number 70) seen_more) ≡ 90)
    × ((stamp 100 (adopt 100 (number 70) seen_more)).0 ≡ 91)
adopt-time_example = adopt-time 100 70 seen_more (omega arith)
