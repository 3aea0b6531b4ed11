-- ===== src/Store/Apply.antt =====
-- server/store.js, `apply`: a replica's op through its gates, to the merge and to storage; and the
-- server's own writes. The fields of an op have their types here; a user is its key. The wall clock
-- stands still while an op is decided.
use lazy_storage.Rules
use lazy_storage.Clock.{clamp, time, Received, timestamp, observe_time}
use lazy_storage.Doc.Run.{apply_all, DocError, trial_running}
use lazy_storage.Rules.{refused, Verdict, Judged, refuses, failed, passed}
use lazy_storage.Doc.Call.{judge}
use lazy_storage.Base.{
  String, str_eq, ℕ, ◌+◌, Bool, true, false, not, Option, none, some, List, [], ◌∷◌, ltb, leb, ◌==◌,
  if◌then◌else◌, path_eq, Map, map_get, Result, ◌>>=◌, ◌>>◌, ok, err, string_eq,
}
use lazy_storage.Json.{Fields, field, Value, object, end}
use lazy_storage.Shape.{Shape}
use lazy_storage.Doc.Remove.{Op, Lost, Change, Out, put, set, no_out, del}
use lazy_storage.Store.State.{
  Code, Options, Replica, StoreState, invalid, forbidden_op, too_large, expired, Refusal,
  refusal_of, thrown_by,
}
use lazy_storage.Doc.State.{Doc}
use lazy_storage.Store.Replicas.{Speaker, claim_replica, owner_of, remember_replica}
use lazy_storage.Checks.{assert_change, ModelError}
use lazy_storage.Store.Compact.{maybe_compact}
use lazy_storage.Store.Land.{landed}
use Rules.{busy}

pub record WireOp : Type 0 where
  pub replica : String
  pub seq : ℕ
  pub ts : Received
  pub changes : List Change

-- What `apply` returns.
pub record Answer : Type 0 where
  pub lost : List Lost
  pub duplicate : Bool

abbrev pub refuse_if : Bool → Code → Result Code Unit
refuse_if true code = err code
refuse_if false code = ok tt

-- `assertOp`: the time, where the op is one.
unfoldable pub assert_op_shape : WireOp → Result Code ℕ
assert_op_shape op = do
  refuse_if (str_eq op.replica "") invalid
  refuse_if (op.seq == 0) invalid
  elim (timestamp op.ts) [ none ↦ err invalid | some ts ↦ ok ts ]

-- `sizeOf`: a change each, and each field of what a put or a set writes, however deep. The source
-- stops counting past the limit; whether a count is above the limit is the same.
unfoldable mutual
  pub fields_size : Fields → ℕ
  fields_size end = 0
  fields_size (field key v fs) = 1 + value_size v + fields_size fs

  pub value_size : Value → ℕ
  value_size (object fs) = fields_size fs
  value_size _ = 0

unfoldable pub op_size : Op → ℕ
unfolding value_size
op_size (put v) = value_size v
op_size (set v) = value_size v
op_size del = 0

unfoldable pub size_of : List Change → ℕ
size_of [] = 0
size_of (change ∷ changes) = 1 + op_size change.op + size_of changes

abbrev pub or_invalid : Result ModelError Unit → Result Code Unit
or_invalid (ok done) = ok tt
or_invalid (err e) = err invalid

-- The loop of `assertChange`.
unfoldable pub assert_changes : (String → Bool) → Shape → List Change → Result Code Unit
assert_changes forbidden sh [] = ok tt
assert_changes forbidden sh (change ∷ changes) = do
  or_invalid (assert_change forbidden sh change)
  assert_changes forbidden sh changes

-- `op.ts < wall - retention`
abbrev pub is_expired : Option ℕ → ℕ → ℕ → Bool
is_expired none wall ts = false
is_expired (some window) wall ts = ltb (ts + window) wall

-- What `applyAll` throws: the op's own check, or what the doc threw.
pub data ApplyError : Type 0 where
  not_valid : ApplyError
  not_applied : DocError → ApplyError

abbrev pub doc_result : Doc × Result DocError Out → Doc × Result ApplyError Out
doc_result (d, ok out) = (d, ok out)
doc_result (d, err e) = (d, err (not_applied e))

abbrev pub is_refused : Option (List Change → Verdict) → List Change → Bool
is_refused none changes = false
is_refused (some check) changes = refuses (check changes)

-- `applyAll`: validated before anything is applied.
unfoldable pub apply_valid :
    {D : Type 0} → Options D → ℕ → List Change → Doc → Doc × Result ApplyError Out
apply_valid o ts changes d =
    if is_refused o.validate changes
    then (d, err not_valid)
    else doc_result (apply_all o.shape ts judge changes (d, no_out))

abbrev pub code_or_refusal : {A : Type 0} → Result Code A → Result Refusal A
code_or_refusal (ok a) = ok a
code_or_refusal (err code) = err (refusal_of code)

abbrev pub unless_refused : Option Code → Result Code Unit
unless_refused none = ok tt
unless_refused (some code) = err code

-- The first gates: the op's shape, and whether the speaker may write for the replica. The op's time.
unfoldable pub admit : WireOp → Speaker → Map String Replica → Result Code ℕ
admit op speaker replicas = do
  ts ← assert_op_shape op
  refuse_if (not speaker.writes) forbidden_op
  unless_refused (claim_replica replicas speaker op.replica)
  ok ts

-- The speaker speaks for the replica from then on.
unfoldable pub speaker_after : WireOp → Map String Replica → Speaker → Speaker
speaker_after op replicas speaker = elim (admit op speaker replicas) [
  | ok ts ↦ record speaker { speaks_for = some op.replica }
  | err code ↦ speaker
]

-- The other gates before the merge: its size, its changes, its time.
unfoldable pub weigh : {D : Type 0} → Options D → ℕ → WireOp → ℕ → Result Code (Option ℕ)
weigh o wall op ts = do
  refuse_if (ltb o.max_changes (size_of op.changes)) too_large
  assert_changes o.is_forbidden o.shape op.changes
  refuse_if (is_expired o.retention wall ts) expired
  ok (some ts)

abbrev pub is_seen : WireOp → Option Replica → Bool
is_seen op none = false
is_seen op (some known) = leb op.seq known.seq

-- The gates: `none` for an op seen before, or the op's time.
unfoldable pub gates :
    {D : Type 0} → Options D → ℕ → WireOp → Speaker → StoreState D → Result Code (Option ℕ)
gates o wall op speaker s = do
  ts ← admit op speaker s.replicas
  if is_seen op (map_get op.replica s.replicas) then ok none else weigh o wall op ts

-- The replica's entry after an op: whose it was, or else the speaker's.
abbrev pub owner_or : Option String → Option String → Option String
owner_or none user = user
owner_or (some owner) user = some owner

module _ {D : Type 0} where
  abbrev pub compact_after :
      Options D → ℕ → StoreState D × Result Code Unit → StoreState D × Result Code Unit
  compact_after o wall (t, ok done) = maybe_compact o wall t
  compact_after o wall (t, err code) = (t, err code)

  -- The op stored and told, and what is old forgotten.
  unfoldable pub finish_op :
      Options D
      → ℕ
      → WireOp
      → Replica
      → ℕ
      → Out
      → StoreState D × Result Code Unit
      → StoreState D × Result Code Unit
  finish_op o wall op entry ts out (s, err code) = (s, err code)
  finish_op o wall op entry ts out (s, ok done) =
      maybe_compact_after (landed o out.applied ts op.replica (some entry) (some op.seq) out.lost s)
    where
      maybe_compact_after : StoreState D × Result Code Unit → StoreState D × Result Code Unit
      maybe_compact_after (t, ok done) = maybe_compact o wall t
      maybe_compact_after (t, err code) = (t, err code)

  abbrev pub answered :
      List Lost → StoreState D × Result Code Unit → StoreState D × Result Refusal Answer
  answered lost (s, ok done) = (s, ok (record { lost = lost; duplicate = false }))
  answered lost (s, err code) = (s, err (refusal_of code))

  unfoldable pub merged :
      Options D
      → ℕ
      → WireOp
      → Speaker
      → ℕ
      → StoreState D
      → Judged ApplyError Out
      → StoreState D × Result Refusal Answer
  merged o wall op speaker ts s (refused e d) =
      (record s { doc = d }, err (refusal_of forbidden_op))
  merged o wall op speaker ts s (failed not_valid d) =
      (record s { doc = d }, err (refusal_of forbidden_op))
  merged o wall op speaker ts s (failed (not_applied e) d) =
      (record s { doc = d }, err (thrown_by e))
  merged o wall op speaker ts s busy = (s, err (thrown_by trial_running))
  merged o wall op speaker ts s (passed out d) =
      let known = map_get op.replica s.replicas in
      let entry : Replica = record {
        seq = op.seq;
        seen = wall;
        owner = owner_or (owner_of known) speaker.user;
      } in
      let t = record s { doc = d; clock = observe_time (some ts) s.clock } in
      answered out.lost (finish_op o wall op entry ts out (remember_replica o op.replica entry t))

  unfoldable pub decide :
      Options D
      → ℕ
      → WireOp
      → Speaker
      → StoreState D
      → Result Code (Option ℕ)
      → StoreState D × Result Refusal Answer
  decide o wall op speaker s (err code) = (s, err (refusal_of code))
  decide o wall op speaker s (ok none) = (s, ok (record { lost = []; duplicate = true }))
  decide o wall op speaker s (ok (some at)) =
      let ts = clamp at (time wall s.clock) in
      merged o wall op speaker ts s
        (Rules.judge o.rules o.shape (apply_valid o ts op.changes) op.changes s.doc)

  unfoldable pub apply_op :
      Options D → ℕ → WireOp → Speaker → StoreState D → StoreState D × Result Refusal Answer
  apply_op o wall op speaker s = decide o wall op speaker s (gates o wall op speaker s)
