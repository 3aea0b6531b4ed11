-- ===== src/Store/Session.antt =====
-- server/store.js, sessions: a live op and the ops of a hello, and what is answered. A message's JSON
-- and its tags for a follower's clients are not modelled, nor is presence.
use lazy_storage.Base.{
  String, str_eq, ℕ, ◌+◌, ◌-◌, max, Bool, ◌&&◌, Option, none, some, List, [], ◌∷◌, ltb, leb,
  if◌then◌else◌, path_eq, Map, map_get, Result, ok, err, string_eq,
}
use lazy_storage.Store.State.{
  StoreState, Options, Entry, CatchUp, Refusal, delta, wait_ms, refused_op, ack, catching_up,
  snapshot,
}
use lazy_storage.Store.Log.{delta_since}
use lazy_storage.Store.Apply.{WireOp, Answer, apply_op, speaker_after}
use lazy_storage.Store.Replicas.{Speaker, seq_of}
use lazy_storage.Store.Throttle.{Bucket, throttle}
use lazy_storage.Clock.{time}
use lazy_storage.Store.Queue.{send}

-- `bucketOf`
abbrev pub bucket_key : Option String → String → String
bucket_key none replica = String.◌∷◌ "r" (String.◌∷◌ ":" replica)
bucket_key (some user) replica = String.◌∷◌ "u" (String.◌∷◌ ":" user)

-- A follower's client waits out its time; a session waits for its next hello.
abbrev pub held_now : ℕ → Bool → Option ℕ → Option ℕ
held_now wall is_peer none = none
held_now wall is_peer (some until) = if is_peer && leb until wall then none else some until

module _ {D : Type 0} where
  -- An op's ack, or its refusal, sent.
  abbrev pub op_reply : ℕ → WireOp → StoreState D × Result Refusal Answer → StoreState D
  op_reply wall op (s, ok answer) = send (ack op.seq s.version (time wall s.clock) answer.lost) s
  op_reply wall op (s, err refusal) = send (refused_op refusal) s

  -- An op that may go on, or waits.
  unfoldable pub op_after :
      Options D
      → ℕ
      → WireOp
      → Speaker
      → StoreState D
      → Map String Bucket × ℕ
      → StoreState D × Speaker
  op_after o wall op speaker s (buckets, wait) =
      let t = record s { buckets = buckets } in
      let u = op_reply wall op (apply_op o wall op speaker t) in
      if ltb 0 wait
      then (send (wait_ms wait) t, record speaker { held_until = some (wall + wait) })
      else (u, speaker_after op t.replicas speaker)

  unfoldable pub op_unless_held :
      Options D → ℕ → WireOp → Speaker → StoreState D → Option ℕ → StoreState D × Speaker
  op_unless_held o wall op speaker s (some until) =
      (send (wait_ms (max 1 (until - wall))) s, speaker)
  op_unless_held o wall op speaker s none =
      op_after o wall op (record speaker { held_until = none }) s
        (throttle o.rate_limit wall (bucket_key speaker.user op.replica) s.buckets)

  -- `liveOp`
  unfoldable pub live_op : Options D → ℕ → WireOp → Speaker → StoreState D → StoreState D × Speaker
  live_op o wall op speaker s =
      op_unless_held o wall op speaker s (held_now wall speaker.is_peer speaker.held_until)

abbrev pub delta_or_snapshot : Option (List Entry) → ℕ → ℕ → CatchUp
delta_or_snapshot (some entries) seq version = delta entries seq version
delta_or_snapshot none seq version = snapshot seq version

-- `catchUp`: the sequence number is the last of the replica's ops that the store has. It is made now, and
-- `send` holds it back until all that it was made of is stored.
unfoldable pub catch_up : {D : Type 0} → StoreState D → String → Option ℕ → String → CatchUp
catch_up s replica since epoch =
    delta_or_snapshot (if str_eq epoch s.epoch then delta_since since s.version s.log else none)
      (seq_of (map_get replica s.replicas)) s.version

module _ {D : Type 0} where
  -- An op that a hello brought: only its refusal is sent at once.
  abbrev pub refusal_sent : StoreState D × Result Refusal Answer → StoreState D
  refusal_sent (t, ok answer) = t
  refusal_sent (t, err refusal) = send (refused_op refusal) t

  abbrev pub and_next :
      ℕ → StoreState D × Result Refusal Answer → StoreState D × List ℕ → StoreState D × List ℕ
  and_next seq (t, ok answer) (u, seqs) = (u, seq ∷ seqs)
  and_next seq (t, err refusal) (u, seqs) = if t.disposed then (t, []) else (u, seqs)

  -- The ops that a hello brings, each applied after the other, and the sequence numbers of those
  -- answered. Once the store is unloaded the rest is not looked at.
  unfoldable pub hello_ops :
      Options D → ℕ → List WireOp → Speaker → StoreState D → StoreState D × List ℕ
  hello_ops o wall [] speaker s = (s, [])
  hello_ops o wall (op ∷ ops) speaker s =
      let decided = apply_op o wall op speaker s in
      let rest =
        hello_ops o wall ops (speaker_after op s.replicas speaker) (refusal_sent decided) in
      and_next op.seq decided rest

  unfoldable pub send_acks : ℕ → List ℕ → StoreState D → StoreState D
  send_acks wall [] s = s
  send_acks wall (seq ∷ seqs) s =
      send_acks wall seqs (send (ack seq s.version (time wall s.clock) []) s)

  unfoldable pub send_catch_up : String → Option ℕ → String → StoreState D → StoreState D
  send_catch_up replica since epoch s = send (catching_up (catch_up s replica since epoch)) s

  -- What a hello is answered with: a follower that no client was let in on hears that its ops were
  -- applied, and gets the rest at the first grant; any other session what it lacks.
  unfoldable pub answer_hello :
      ℕ → Bool → String → Option ℕ → String → StoreState D × List ℕ → StoreState D
  answer_hello wall no_grants replica since epoch (s, seqs) =
      if no_grants then send_acks wall seqs s else send_catch_up replica since epoch s
