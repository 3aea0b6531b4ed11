-- ===== src/Store/Taken.antt =====
-- server/store.js, `apply`: what an op that was answered leaves in its replica's entry.
use lazy_storage.Base.{
  String, str_eq, ℕ, ◌≡◌, refl, inl, inr, true, false, Option, none, some, List, arith, ltb, leb,
  if◌then◌else◌, Bool-cases, path_eq, Map, map_get, IsDistinct, Result, >>=-eq-ok, ok, err,
  string_eq,
}
use lazy_storage.Store.State.{StoreState, Options, Replica, Code, too_large, expired, Refusal}
use lazy_storage.Store.Apply.{
  WireOp, merged, assert_op_shape, weigh, Answer, apply_op, decide, finish_op, is_seen, gates,
  refuse_if, ApplyError, admit, compact_after, owner_or, size_of, answered, assert_changes,
  not_applied, is_expired, not_valid,
}
use lazy_storage.Store.Replicas.{owned_by_other, Speaker, owner_of, remember_replica}
use lazy_storage.Doc.Remove.{Lost, Out}
use lazy_storage.Store.Forgetting.{Has}
use lazy_storage.Store.Admitted.{IsAdmitted, owned_by_other-owner_or, admit-IsAdmitted}
use lazy_storage.Rules.{Judged, refused, failed, passed, busy}
use lazy_storage.Store.Remembered.{maybe_compact-Has, landed-replicas, remember_replica-Has}
use lazy_storage.Store.Land.{landed}
use lazy_storage.Clock.{observe_time}

-- A replica's entry that has the op.
pub record IsTaken (op : WireOp) (user : Option String) (m : Map String Replica) : Type 0 where
  pub entry : Replica
  pub there : map_get op.replica m ≡ some entry
  pub has_op : leb op.seq entry.seq ≡ true
  pub owned : owned_by_other entry.owner user ≡ false

abbrev pub AfterAnswer :
    {D : Type 0} → (Map String Replica → Type 0) → StoreState D × Result Refusal Answer → Type 0
AfterAnswer P (t, ok answer) = P t.replicas
AfterAnswer P (t, err refusal) = Unit

module _ {D : Type 0} (o : Options D) (wall : ℕ) (op : WireOp) (speaker : Speaker) where
  answered-Has :
      (lost : List Lost) (id : String) (entry : Replica) (r : StoreState D × Result Code Unit)
      → Has id entry r.0.replicas
      → AfterAnswer (Has id entry) (answered lost r)
  answered-Has lost id entry (t, ok done) h = h
  answered-Has lost id entry (t, err code) h = tt

  compact_after-Has :
      (id : String) (entry : Replica) (r : StoreState D × Result Code Unit)
      → Has id entry r.0.replicas
      → Has id entry (compact_after o entry.seen r).0.replicas
  compact_after-Has id entry (t, ok done) h = maybe_compact-Has o id entry t h
  compact_after-Has id entry (t, err code) h = h

  finish_op-Has :
      (entry : Replica) (ts : ℕ) (out : Out) (r : StoreState D × Result Code Unit)
      → Has op.replica entry r.0.replicas
      → Has op.replica entry (finish_op o entry.seen op entry ts out r).0.replicas
  unfolding finish_op
  finish_op-Has entry ts out (t, err code) h = h
  finish_op-Has entry ts out (t, ok done) h =
      let r = landed o out.applied ts op.replica (some entry) (some op.seq) out.lost t in
      let kept =
        landed-replicas o out.applied ts op.replica (some entry) (some op.seq) out.lost t in
      compact_after-Has op.replica entry r (rw kept h)

  answer-IsTaken :
      (known : Option String) (r : StoreState D × Result Refusal Answer)
      → owned_by_other known speaker.user ≡ false
      → AfterAnswer
          (Has op.replica
            (record { seq = op.seq; seen = wall; owner = owner_or known speaker.user }))
          r
      → AfterAnswer (IsTaken op speaker.user) r
  answer-IsTaken known (t, ok answer) own h = record {
    entry = record { seq = op.seq; seen = wall; owner = owner_or known speaker.user };
    there = h.there;
    has_op = ground arith;
    owned = owned_by_other-owner_or known speaker.user own;
  }
  answer-IsTaken known (t, err refusal) own h = tt

  merged-IsTaken :
      (ts : ℕ) (s : StoreState D) (r : Judged ApplyError Out)
      → IsDistinct s.replicas
      → owned_by_other (owner_of (map_get op.replica s.replicas)) speaker.user ≡ false
      → AfterAnswer (IsTaken op speaker.user) (merged o wall op speaker ts s r)
  unfolding merged
  merged-IsTaken ts s (refused e d) distinct own = tt
  merged-IsTaken ts s (failed not_valid d) distinct own = tt
  merged-IsTaken ts s (failed (not_applied e) d) distinct own = tt
  merged-IsTaken ts s busy distinct own = tt
  merged-IsTaken ts s (passed out d) distinct own =
      let known = owner_of (map_get op.replica s.replicas) in
      let entry : Replica = record {
        seq = op.seq;
        seen = wall;
        owner = owner_or known speaker.user;
      } in
      let t = record s { doc = d; clock = observe_time (some ts) s.clock } in
      let r = finish_op o wall op entry ts out (remember_replica o op.replica entry t) in
      answer-IsTaken known (answered out.lost r) own (
        answered-Has out.lost op.replica entry r (
          finish_op-Has entry ts out (remember_replica o op.replica entry t)
            (remember_replica-Has o op.replica entry t distinct)))

  -- The op's time, where the gates found out that it was seen before.
  seen-IsTaken :
      (m : Map String Replica) (known : Option Replica)
      → map_get op.replica m ≡ known
      → is_seen op known ≡ true
      → owned_by_other (owner_of known) speaker.user ≡ false
      → IsTaken op speaker.user m
  seen-IsTaken m none h seen own = absurd (cc)
  seen-IsTaken m (some entry) h seen own = record {
    entry = entry;
    there = h;
    has_op = seen;
    owned = own;
  }

  weigh-some : (ts : ℕ) → (weigh o wall op ts ≡ ok none) → ⊥
  unfolding weigh
  weigh-some ts h =
      let (a, first, second) =
        >>=-eq-ok (refuse_if (ltb o.max_changes (size_of op.changes)) too_large) _ h in
      let (b, checked, third) =
        >>=-eq-ok (assert_changes o.is_forbidden o.shape op.changes) _ second in
      let (c, fresh, last) =
        >>=-eq-ok (refuse_if (is_expired o.retention wall ts) expired) _ third in
      absurd (cc)

  passed-IsTaken :
      (ts : ℕ) (s : StoreState D) (r : Option ℕ)
      → (if is_seen op (map_get op.replica s.replicas) then ok none else weigh o wall op ts) ≡ ok r
      → IsAdmitted op speaker (map_get op.replica s.replicas) ts
      → IsDistinct s.replicas
      → AfterAnswer (IsTaken op speaker.user) (decide o wall op speaker s (ok r))
  unfolding decide
  passed-IsTaken ts s none h a distinct =
      elim (Bool-cases (is_seen op (map_get op.replica s.replicas))) [
        | inl e ↦ seen-IsTaken s.replicas (map_get op.replica s.replicas) refl e a.owned
        | inr e ↦ absurd (weigh-some ts (rw e at h))
      ]
  passed-IsTaken ts s (some at) h a distinct = merged-IsTaken _ s _ distinct a.owned

  -- What an op that was answered leaves, and what it is.
  abbrev pub HasApplied : Map String Replica → Type 0
  HasApplied m =
      ((ts : ℕ) × (assert_op_shape op ≡ ok ts))
      × (str_eq op.replica "server" ≡ false)
      × IsTaken op speaker.user m

  AfterAnswer-HasApplied :
      (ts : ℕ) (known : Option Replica) (r : StoreState D × Result Refusal Answer)
      → IsAdmitted op speaker known ts
      → AfterAnswer (IsTaken op speaker.user) r
      → AfterAnswer HasApplied r
  AfterAnswer-HasApplied ts known (t, ok answer) a h = ((ts, a.shaped), a.client, h)
  AfterAnswer-HasApplied ts known (t, err refusal) a h = tt

  decide-HasApplied :
      (s : StoreState D) (r : Result Code (Option ℕ))
      → gates o wall op speaker s ≡ r
      → IsDistinct s.replicas
      → AfterAnswer HasApplied (decide o wall op speaker s r)
  unfolding decide gates
  decide-HasApplied s (err code) h distinct = tt
  decide-HasApplied s (ok r) h distinct =
      let (ts, admitted, rest) = >>=-eq-ok (admit op speaker s.replicas) _ h in
      let a = admit-IsAdmitted op speaker s.replicas ts admitted in
      AfterAnswer-HasApplied ts (map_get op.replica s.replicas) (decide o wall op speaker s (ok r))
        a (passed-IsTaken ts s r rest a distinct)

  pub apply_op-HasApplied :
      (s : StoreState D)
      → IsDistinct s.replicas
      → AfterAnswer HasApplied (apply_op o wall op speaker s)
  unfolding apply_op
  apply_op-HasApplied s distinct = decide-HasApplied s (gates o wall op speaker s) refl distinct
