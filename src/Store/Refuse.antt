-- ===== src/Store/Refuse.antt =====
-- server/store.js, `apply`: what an op that is refused leaves.
use lazy_storage.Store.Apply.{not_valid, not_applied, or_invalid}
use lazy_storage.Base.{
  ℕ, ◌≡◌, refl, ◌⊎◌, inl, inr, true, Option, none, some, List, [], ◌∷◌, ltb, if_intro, KeyPath,
  path_eq, map_get, Result, ◌>>=◌, >>=-eq-ok, ok, err, string_eq,
}
use lazy_storage.Store.State.{
  StoreState, unavailable, Options, Code, too_large, expired, Refusal, refusal_of, thrown_by,
}
use lazy_storage.Doc.State.{Doc}
use lazy_storage.Doc.Touch.{SameAt, SameAt-refl}
use lazy_storage.Store.Apply.{
  Answer, assert_changes, weigh, apply_op, decide, merged, gates, WireOp, refuse_if, size_of,
  answered, admit, ApplyError, is_seen, is_expired, not_applied,
}
use lazy_storage.Doc.Remove.{Lost, Change, Out}
use lazy_storage.Store.Judged.{IsChecked, judge-IsOutcome, IsOutcome}
use lazy_storage.Store.Commits.{IsCommitted, finish_op-IsCommitted, remember_replica-IsCommitted}
use lazy_storage.Store.Replicas.{Speaker}
use lazy_storage.Doc.Undo.{IsSettled}
use lazy_storage.Rules.{Judged, refused, failed, passed, busy}
use lazy_storage.Checks.{assert_change, ModelError}
use lazy_storage.Clock.{clamp, time}

-- All that a store keeps, as it was.
pub record IsKept {D : Type 0} (s t : StoreState D) : Type 0 where
  pub docs : (j : KeyPath) → SameAt j s.doc t.doc
  pub replicas : t.replicas ≡ s.replicas
  pub version : t.version ≡ s.version
  pub log : t.log ≡ s.log
  pub clock : t.clock ≡ s.clock
  pub changes : t.changes ≡ s.changes
  pub effects : t.effects ≡ s.effects
  pub told : t.told ≡ s.told
  pub disk : t.disk ≡ s.disk

IsKept-doc :
    {D : Type 0} (s : StoreState D) (d : Doc)
    → ((j : KeyPath) → SameAt j s.doc d)
    → IsKept s (record s { doc = d })
IsKept-doc s d h = record {
  docs = h;
  replicas = refl;
  version = refl;
  log = refl;
  clock = refl;
  changes = refl;
  effects = refl;
  told = refl;
  disk = refl;
}

-- What a decision may come to: answered; refused, with all as it was; or the store unloaded. The doc
-- throws nothing.
abbrev pub IsDecided : {D : Type 0} → StoreState D → StoreState D × Result Refusal Answer → Type 0
IsDecided s (t, ok answer) = Unit
IsDecided s (t, err (refusal_of code)) = ((code ≡ unavailable) × (t.disposed ≡ true)) ⊎ IsKept s t
IsDecided s (t, err (thrown_by x)) = ⊥

IsKept-refl : {D : Type 0} (s : StoreState D) → IsKept s s
IsKept-refl s = IsKept-doc s s.doc (λ j. SameAt-refl j s.doc)

answered-IsDecided :
    {D : Type 0} (s : StoreState D) (lost : List Lost) (r : StoreState D × Result Code Unit)
    → IsCommitted r
    → IsDecided s (answered lost r)
answered-IsDecided s lost (t, ok done) h = tt
answered-IsDecided s lost (t, err code) h = inl h

merged-IsDecided :
    {D : Type 0} (o : Options D) (wall : ℕ) (op : WireOp) (speaker : Speaker) (ts : ℕ)
    (s : StoreState D) (r : Judged ApplyError Out)
    → IsOutcome s.doc r
    → IsDecided s (merged o wall op speaker ts s r)
unfolding merged
merged-IsDecided o wall op speaker ts s (refused e d) h = inr (IsKept-doc s d h)
merged-IsDecided o wall op speaker ts s (failed not_valid d) h = inr (IsKept-doc s d h)
merged-IsDecided o wall op speaker ts s (failed (not_applied e) d) h = h
merged-IsDecided o wall op speaker ts s busy h = h
merged-IsDecided o wall op speaker ts s (passed out d) h =
    answered-IsDecided s out.lost _
      (finish_op-IsCommitted o wall op _ ts out _ (remember_replica-IsCommitted o op.replica _ _))

-- What `gates` lets through has been checked.
abbrev HasPassed : {D : Type 0} → Options D → WireOp → Result Code (Option ℕ) → Type 0
HasPassed o op (ok (some ts)) = IsChecked o ts op.changes
HasPassed o op r = Unit

or_invalid-ok : (r : Result ModelError Unit) → or_invalid r ≡ ok tt → r ≡ ok tt
or_invalid-ok (ok tt) h = refl
or_invalid-ok (err e) h = absurd (cc)

assert_changes-IsChecked :
    {D : Type 0} (o : Options D) (ts : ℕ) (changes : List Change)
    → assert_changes o.is_forbidden o.shape changes ≡ ok tt
    → IsChecked o ts changes
unfolding assert_changes
assert_changes-IsChecked o ts [] h = tt
assert_changes-IsChecked o ts (change ∷ changes) h =
    let first = or_invalid (assert_change o.is_forbidden o.shape change) in
    let (done, checked, rest) =
      >>=-eq-ok first (λ _. assert_changes o.is_forbidden o.shape changes) h in
    (
      or_invalid-ok (assert_change o.is_forbidden o.shape change) checked,
      assert_changes-IsChecked o ts changes rest,
    )

bind_holds :
    {E A B : Type 0} (P : Result E B → Type 0) (m : Result E A) (f : A → Result E B)
    → ((e : E) → P (err e))
    → ((a : A) → m ≡ ok a → P (f a))
    → P (m >>= f)
bind_holds P (ok a) f h k = k a refl
bind_holds P (err e) f h k = h e

weigh-HasPassed :
    {D : Type 0} (o : Options D) (wall : ℕ) (op : WireOp) (ts : ℕ)
    → HasPassed o op (weigh o wall op ts)
unfolding weigh
weigh-HasPassed o wall op ts =
    bind_holds (HasPassed o op) (refuse_if (ltb o.max_changes (size_of op.changes)) too_large) _
      (λ e. tt)
      (λ a _.
        bind_holds (HasPassed o op) (assert_changes o.is_forbidden o.shape op.changes) _ (λ e. tt)
          (λ b checked.
            bind_holds (HasPassed o op) (refuse_if (is_expired o.retention wall ts) expired) _
              (λ e. tt) (λ c _. assert_changes-IsChecked o ts op.changes checked)))

gates-HasPassed :
    {D : Type 0} (o : Options D) (wall : ℕ) (op : WireOp) (speaker : Speaker) (s : StoreState D)
    → HasPassed o op (gates o wall op speaker s)
unfolding gates
gates-HasPassed o wall op speaker s =
    bind_holds (HasPassed o op) (admit op speaker s.replicas) _ (λ e. tt)
      (λ ts _.
        if_intro (HasPassed o op) (is_seen op (map_get op.replica s.replicas)) tt
          (weigh-HasPassed o wall op ts))

decide-IsDecided :
    {D : Type 0} (o : Options D) (wall : ℕ) (op : WireOp) (speaker : Speaker) (s : StoreState D)
    (r : Result Code (Option ℕ))
    → HasPassed o op r
    → IsSettled o.shape s.doc
    → s.doc.journal ≡ none
    → IsDecided s (decide o wall op speaker s r)
unfolding decide
decide-IsDecided o wall op speaker s (err code) h settled idle = inr (IsKept-refl s)
decide-IsDecided o wall op speaker s (ok none) h settled idle = tt
decide-IsDecided o wall op speaker s (ok (some at)) h settled idle =
    let ts = clamp at (time wall s.clock) in
    merged-IsDecided o wall op speaker ts s _ (judge-IsOutcome o ts op.changes s.doc h settled idle)

-- On a doc where singletons are there, only records that are there have clocks, and no trial runs,
-- with any options: an op is answered, or it is refused and the records, the clocks, the replicas, the
-- version, the log and what waits for storage or was told are as they were, or the storage could not
-- save and the store is unloaded. It never ends in an error of the doc.
pub apply_op-IsDecided :
    {D : Type 0} (o : Options D) (wall : ℕ) (op : WireOp) (speaker : Speaker) (s : StoreState D)
    → IsSettled o.shape s.doc
    → s.doc.journal ≡ none
    → IsDecided s (apply_op o wall op speaker s)
unfolding apply_op
apply_op-IsDecided o wall op speaker s settled idle =
    decide-IsDecided o wall op speaker s (gates o wall op speaker s)
      (gates-HasPassed o wall op speaker s) settled idle
