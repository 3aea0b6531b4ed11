-- ===== src/Store/Reach.antt =====
-- server/store.js: what holds of a store over any ops, writes of the server and turns.
use lazy_storage.Base.{
  String, ℕ, Bool, Option, none, some, List, [], ◌∷◌, ltb, if_intro, is_there, KeyPath, path_eq,
  Map, map_get, Result, ok, err, string_eq,
}
use lazy_storage.Store.State.{StoreState, Options, Code, Commit, wait_ms, Refusal}
use lazy_storage.Store.Apply.{WireOp, apply_op, Answer}
use lazy_storage.Store.Keeps.{
  Keeps, apply_op_keeps, compact_keeps, landed_keeps, remember_replica_keeps, says_wait,
  says_catch_up, says_ack, says_refusal,
}
use lazy_storage.Store.Writes.{
  patch_store, run_server, landed_write, delete_at_server, WriteError, write_all, run_changes,
  if_checked, diff_changes, check_all, wrote,
}
use lazy_storage.Store.Queue.{commit_now}
use lazy_storage.Store.Replicas.{Speaker, take_replica, owner_of, and_commit}
use lazy_storage.Doc.State.{Doc}
use lazy_storage.Json.{Fields}
use lazy_storage.Store.Compact.{compact}
use lazy_storage.Doc.Run.{DocError}
use lazy_storage.Doc.Remove.{Change, Out}
use lazy_storage.Checks.{ModelError}
use lazy_storage.Clock.{stamp}
use lazy_storage.Store.Land.{landed}
use lazy_storage.Store.Session.{
  op_after, live_op, hello_ops, op_unless_held, held_now, op_reply, and_next, send_acks,
  send_catch_up, answer_hello, refusal_sent,
}
use lazy_storage.Store.Throttle.{Bucket}

module _ {D : Type 0} {o : Options D} {P : StoreState D → Type 0} (k : Keeps o P) where
  landed_write_keeps :
      (ts : ℕ) (s : StoreState D) (r : Doc × Result DocError Out)
      → P s
      → P (landed_write o ts s r).0
  unfolding landed_write
  landed_write_keeps ts s (d, err e) h = k.on_doc d s.clock s h
  landed_write_keeps ts s (d, ok out) h =
      wrote_keeps out.applied (landed o out.applied ts "server" none none [] (record s { doc = d }))
        (landed_keeps k.landing out.applied ts "server" none none [] (record s { doc = d })
          (k.on_doc d s.clock s h))
    where
      wrote_keeps :
          (applied : List Change) (r : StoreState D × Result Code Unit)
          → P r.0
          → P (wrote applied r).0
      wrote_keeps applied (t, ok done) h = h
      wrote_keeps applied (t, err code) h = h

  run_server_keeps :
      (wall : ℕ) (changes : List Change) (s : StoreState D)
      → P s
      → P (run_server o wall changes s).0
  unfolding run_server write_all
  run_server_keeps wall changes s h =
      if_checked_keeps (check_all o.is_forbidden o.shape changes) (write_all o wall changes s) (
        landed_write_keeps _ (record s { clock = (stamp wall s.clock).1 }) _
          (k.on_doc s.doc (stamp wall s.clock).1 s h))
    where
      if_checked_keeps :
          (r : Result ModelError Unit) (t : StoreState D × Result WriteError (List Change))
          → P t.0
          → P (if_checked r s t).0
      if_checked_keeps (ok done) t g = g
      if_checked_keeps (err e) t g = h

  patch_store_keeps :
      (wall : ℕ) (diff : Fields) (s : StoreState D) → P s → P (patch_store o wall diff s).0
  unfolding patch_store
  patch_store_keeps wall diff s h =
      if_intro (λ (r : StoreState D × Result WriteError (List Change)). P r.0) s.disposed h
        (changes_keeps (diff_changes o.shape diff))
    where
      changes_keeps : (r : Result WriteError (List Change)) → P (run_changes o wall r s).0
      changes_keeps (err e) = h
      changes_keeps (ok changes) = run_server_keeps wall changes s h

  delete_at_server_keeps :
      (wall : ℕ) (c : String) (id : Option String) (path : KeyPath) (s : StoreState D)
      → P s
      → P (delete_at_server o wall c id path s).0
  unfolding delete_at_server
  delete_at_server_keeps wall c id path s h =
      if_intro (λ (r : StoreState D × Result WriteError (List Change)). P r.0) s.disposed h
        (run_server_keeps wall _ s h)

module _ {D : Type 0} {o : Options D} {P : StoreState D → Type 0} (k : Keeps o P) where
  op_reply_keeps :
      (wall : ℕ) (op : WireOp) (r : StoreState D × Result Refusal Answer)
      → P r.0
      → P (op_reply wall op r)
  op_reply_keeps wall op (t, ok answer) h = k.on_send _ t (says_ack op.seq _ answer.lost) h
  op_reply_keeps wall op (t, err refusal) h = k.on_send _ t (says_refusal refusal) h

  op_after_keeps :
      (wall : ℕ) (op : WireOp) (speaker : Speaker) (s : StoreState D) (r : Map String Bucket × ℕ)
      → P s
      → P (op_after o wall op speaker s r).0
  unfolding op_after
  op_after_keeps wall op speaker s (buckets, wait) h =
      let t = record s { buckets = buckets } in
      let kept = k.on_buckets buckets s h in
      if_intro (λ (r : StoreState D × Speaker). P r.0) (ltb 0 wait)
        (k.on_send (wait_ms wait) t (says_wait wait) kept)
        (op_reply_keeps wall op (apply_op o wall op speaker t)
          (apply_op_keeps k wall op speaker t kept))

  live_op_keeps :
      (wall : ℕ) (op : WireOp) (speaker : Speaker) (s : StoreState D)
      → P s
      → P (live_op o wall op speaker s).0
  unfolding live_op op_unless_held
  live_op_keeps wall op speaker s h =
      unless_held_keeps (held_now wall speaker.is_peer speaker.held_until)
    where
      unless_held_keeps : (held : Option ℕ) → P (op_unless_held o wall op speaker s held).0
      unless_held_keeps none = op_after_keeps wall op _ s _ h
      unless_held_keeps (some until) = k.on_send _ s (says_wait _) h

  refusal_sent_keeps : (r : StoreState D × Result Refusal Answer) → P r.0 → P (refusal_sent r)
  refusal_sent_keeps (t, ok answer) h = h
  refusal_sent_keeps (t, err refusal) h = k.on_send _ t (says_refusal refusal) h

  and_next_keeps :
      (seq : ℕ) (r : StoreState D × Result Refusal Answer) (rest : StoreState D × List ℕ)
      → P r.0
      → P rest.0
      → P (and_next seq r rest).0
  and_next_keeps seq (t, ok answer) (u, seqs) h g = g
  and_next_keeps seq (t, err refusal) (u, seqs) h g =
      if_intro (λ (r : StoreState D × List ℕ). P r.0) t.disposed h g

  hello_ops_keeps :
      (wall : ℕ) (ops : List WireOp) (speaker : Speaker) (s : StoreState D)
      → P s
      → P (hello_ops o wall ops speaker s).0
  unfolding hello_ops
  hello_ops_keeps wall [] speaker s h = h
  hello_ops_keeps wall (op ∷ ops) speaker s h =
      let decided = apply_op_keeps k wall op speaker s h in
      let answered = refusal_sent_keeps (apply_op o wall op speaker s) decided in
      and_next_keeps op.seq (apply_op o wall op speaker s) _ decided
        (hello_ops_keeps wall ops _ _ answered)

  send_acks_keeps : (wall : ℕ) (seqs : List ℕ) (s : StoreState D) → P s → P (send_acks wall seqs s)
  unfolding send_acks
  send_acks_keeps wall [] s h = h
  send_acks_keeps wall (seq ∷ seqs) s h =
      send_acks_keeps wall seqs _ (k.on_send _ s (says_ack seq _ []) h)

  send_catch_up_keeps :
      (replica : String) (since : Option ℕ) (epoch : String) (s : StoreState D)
      → P s
      → P (send_catch_up replica since epoch s)
  unfolding send_catch_up
  send_catch_up_keeps replica since epoch s h = k.on_send _ s (says_catch_up replica since epoch) h

  answer_hello_keeps :
      (wall : ℕ) (no_grants : Bool) (replica : String) (since : Option ℕ) (epoch : String)
      (r : StoreState D × List ℕ)
      → P r.0
      → P (answer_hello wall no_grants replica since epoch r)
  unfolding answer_hello
  answer_hello_keeps wall no_grants replica since epoch (s, seqs) h =
      if_intro P no_grants (send_acks_keeps wall seqs s h)
        (send_catch_up_keeps replica since epoch s h)

-- What may happen to a store: an op from a replica, on trust or live, a hello, its ops first and then
-- the answer, an answer that was held for a follower's first client, a write of the server, a compaction,
-- the end of a turn, and a user made a replica's owner.
pub data Step {D : Type 0} (o : Options D) : StoreState D → StoreState D → Type 0 where
  decided :
      (wall : ℕ) (op : WireOp) (speaker : Speaker) (s : StoreState D)
      → Step o s (apply_op o wall op speaker s).0
  received :
      (wall : ℕ) (op : WireOp) (speaker : Speaker) (s : StoreState D)
      → Step o s (live_op o wall op speaker s).0
  greeted :
      (wall : ℕ) (no_grants : Bool) (ops : List WireOp) (speaker : Speaker) (replica : String)
      (since : Option ℕ) (epoch : String) (s : StoreState D)
      → Step o s (answer_hello wall no_grants replica since epoch (hello_ops o wall ops speaker s))
  granted :
      (replica : String) (since : Option ℕ) (epoch : String) (s : StoreState D)
      → Step o s (send_catch_up replica since epoch s)
  patched : (wall : ℕ) (diff : Fields) (s : StoreState D) → Step o s (patch_store o wall diff s).0
  deleted :
      (wall : ℕ) (c : String) (id : Option String) (path : KeyPath) (s : StoreState D)
      → Step o s (delete_at_server o wall c id path s).0
  compacted_at : (wall : ℕ) (s : StoreState D) → Step o s (compact o wall s).0
  turned : (s : StoreState D) → Step o s (commit_now o s).0
  taken :
      (wall : ℕ) (user : Option String) (id : String) (s : StoreState D)
      → Step o s (take_replica o wall user id s).0

-- From one state to another, in any order of steps.
pub data Leads {D : Type 0} (o : Options D) (s : StoreState D) : StoreState D → Type 0 where
  no_step : Leads o s s
  and_then : {t u : StoreState D} → Leads o s t → Step o t u → Leads o s u

module _ {D : Type 0} {o : Options D} {P : StoreState D → Type 0} (k : Keeps o P)
    (turn : (s : StoreState D) → P s → P (commit_now o s).0) where
  and_commit_keeps :
      (change : Commit) (r : StoreState D × Result Code Unit) → P r.0 → P (and_commit o change r).0
  and_commit_keeps change (t, ok done) h = k.landing.on_commit change t h
  and_commit_keeps change (t, err code) h = h

  take_replica_keeps :
      (wall : ℕ) (user : Option String) (id : String) (s : StoreState D)
      → P s
      → P (take_replica o wall user id s).0
  unfolding take_replica
  take_replica_keeps wall none id s h = h
  take_replica_keeps wall (some user) id s h =
      if_intro (λ (r : StoreState D × Result Code Unit). P r.0)
        (is_there (owner_of (map_get id s.replicas))) h
        (and_commit_keeps _ _ (remember_replica_keeps k id _ s h))

  step_keeps : {s t : StoreState D} → Step o s t → P s → P t
  step_keeps (decided wall op speaker s) h = apply_op_keeps k wall op speaker s h
  step_keeps (received wall op speaker s) h = live_op_keeps k wall op speaker s h
  step_keeps (greeted wall no_grants ops speaker replica since epoch s) h =
      answer_hello_keeps k wall no_grants replica since epoch (hello_ops o wall ops speaker s)
        (hello_ops_keeps k wall ops speaker s h)
  step_keeps (granted replica since epoch s) h = send_catch_up_keeps k replica since epoch s h
  step_keeps (patched wall diff s) h = patch_store_keeps k wall diff s h
  step_keeps (deleted wall c id path s) h = delete_at_server_keeps k wall c id path s h
  step_keeps (compacted_at wall s) h = compact_keeps k wall s h
  step_keeps (turned s) h = turn s h
  step_keeps (taken wall user id s) h = take_replica_keeps wall user id s h

  pub Leads_keeps : {s t : StoreState D} → Leads o s t → P s → P t
  Leads_keeps no_step h = h
  Leads_keeps (and_then before step) h = step_keeps step (Leads_keeps before h)
