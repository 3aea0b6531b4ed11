-- ===== src/Store/Keeps.antt =====
-- server/store.js: what every step of `apply` keeps, `apply` and the server's own writes keep.
use lazy_storage.Base.{
  String, ℕ, ◌-◌, ◌&&◌, Option, none, some, List, [], ◌∷◌, if_intro, is_there, path_eq, Map,
  map_get, Result, ok, err, string_eq,
}
use lazy_storage.Store.State.{
  StoreState, Options, Code, Commit, Replica, owner_beq, op_seen, Message, ack, Refusal, refused_op,
  wait_ms, catching_up,
}
use lazy_storage.Doc.Remove.{Lost, Change, Out}
use lazy_storage.Store.Apply.{
  apply_op, merged, finish_op, decide, answered, WireOp, compact_after, ApplyError, not_applied,
  not_valid,
}
use lazy_storage.Store.Land.{
  landed_changes, commit_progress, landed, tell_seen, commit_landed, logged,
}
use lazy_storage.Store.Compact.{
  forget_unheard, compacted, compact_within, maybe_compact, compact, compact_before, is_due,
  unheard,
}
use lazy_storage.Store.Replicas.{
  disown, keep_allowance, remember_replica, own, forget_all, past_allowance, Speaker, empty_commit,
}
use lazy_storage.Doc.State.{Place, Doc}
use lazy_storage.Store.Queue.{commit, later, send}
use lazy_storage.Doc.Prune.{prune}
use lazy_storage.Clock.{ReplicaClock}
use lazy_storage.Rules.{Judged, refused, failed, passed, busy}
use lazy_storage.Store.Throttle.{Bucket}
use lazy_storage.Store.Session.{catch_up}

-- Kept by what puts changes into the log and tells of them.
pub record KeepsLanding {D : Type 0} (o : Options D) (P : StoreState D → Type 0) : Type 0 where
  pub on_commit : (change : Commit) (s : StoreState D) → P s → P (commit o change s).0
  pub on_landing :
      (ts : ℕ) (applied : List Change) (replica : Option (String × Replica)) (s : StoreState D)
      → P s
      → P (commit_landed o ts applied replica (logged o ts applied s)).0
  pub on_seen :
      (id : String) (seq : Option ℕ) (applied : List Change) (lost : List Lost) (s : StoreState D)
      → P s
      → P (later (op_seen id seq applied lost s.version) s)

-- What a store may say to a session: its own version, or what it has of the log.
pub data Says {D : Type 0} (s : StoreState D) : Message → Type 0 where
  says_ack : (seq now : ℕ) (lost : List Lost) → Says s (ack seq s.version now lost)
  says_refusal : (refusal : Refusal) → Says s (refused_op refusal)
  says_wait : (wait : ℕ) → Says s (wait_ms wait)
  says_catch_up :
      (replica : String) (since : Option ℕ) (epoch : String)
      → Says s (catching_up (catch_up s replica since epoch))

-- Kept by all that changes a store when an op is decided, and by what is sent.
pub record Keeps {D : Type 0} (o : Options D) (P : StoreState D → Type 0) : Type 0 where
  pub landing : KeepsLanding o P
  pub on_replicas :
      (m : Map String Replica) (r : Map (Option String) (List String)) (s : StoreState D)
      → P s
      → P (record s { replicas = m; replicas_of = r })
  pub on_doc :
      (d : Doc) (clock : ReplicaClock) (s : StoreState D)
      → P s
      → P (record s { doc = d; clock = clock })
  pub on_send : (message : Message) (s : StoreState D) → Says s message → P s → P (send message s)
  pub on_buckets : (m : Map String Bucket) (s : StoreState D) → P s → P (record s { buckets = m })
  pub on_compaction :
      (wall : ℕ) (s : StoreState D) → P s → P (record s { last_compaction = some wall })

module _ {D : Type 0} {o : Options D} {P : StoreState D → Type 0} (k : KeepsLanding o P) where
  commit_progress_keeps :
      (replica : Option (String × Replica)) (s : StoreState D)
      → P s
      → P (commit_progress o replica s).0
  unfolding commit_progress
  commit_progress_keeps none s h = h
  commit_progress_keeps (some replica) s h = k.on_commit _ s h

  landed_changes_keeps :
      (applied : List Change) (ts : ℕ) (replica : Option (String × Replica)) (s : StoreState D)
      → P s
      → P (landed_changes o applied ts replica s).0
  unfolding landed_changes
  landed_changes_keeps [] ts replica s h = commit_progress_keeps replica s h
  landed_changes_keeps (change ∷ applied) ts replica s h =
      k.on_landing ts (change ∷ applied) replica s h

  tell_seen_keeps :
      (id : String) (seq : Option ℕ) (applied : List Change) (lost : List Lost)
      (r : StoreState D × Result Code Unit)
      → P r.0
      → P (tell_seen id seq applied lost r).0
  tell_seen_keeps id seq applied lost (s, ok done) h = k.on_seen id seq applied lost s h
  tell_seen_keeps id seq applied lost (s, err code) h = h

  pub landed_keeps :
      (applied : List Change) (ts : ℕ) (id : String) (entry : Option Replica) (seq : Option ℕ)
      (lost : List Lost) (s : StoreState D)
      → P s
      → P (landed o applied ts id entry seq lost s).0
  unfolding landed
  landed_keeps applied ts id entry seq lost s h =
      tell_seen_keeps id seq applied lost _ (landed_changes_keeps applied ts _ s h)

module _ {D : Type 0} {o : Options D} {P : StoreState D → Type 0} (k : Keeps o P) where
  disown_keeps :
      (id : String) (before : Option Replica) (owner : Option String) (s : StoreState D)
      → P s
      → P (disown id before owner s)
  unfolding disown
  disown_keeps id none owner s h = h
  disown_keeps id (some before) owner s h =
      if_intro P (owner_beq before.owner owner) h (k.on_replicas s.replicas _ s h)

  keep_allowance_keeps :
      (owner : Option String) (ids : List String) (s : StoreState D)
      → P s
      → P (keep_allowance o owner ids s).0
  unfolding keep_allowance forget_all
  keep_allowance_keeps owner [] s h = h
  keep_allowance_keeps owner (id ∷ ids) s h =
      k.landing.on_commit (record empty_commit { forget_replicas = id ∷ ids }) _
        (k.on_replicas _ _ s h)

  pub remember_replica_keeps :
      (id : String) (entry : Replica) (s : StoreState D) → P s → P (remember_replica o id entry s).0
  unfolding remember_replica own
  remember_replica_keeps id entry s h =
      let t = disown id (map_get id s.replicas) entry.owner s in
      let owned = own id entry t in
      keep_allowance_keeps entry.owner (past_allowance o.max_replicas id entry owned) owned
        (k.on_replicas _ _ t (disown_keeps id (map_get id s.replicas) entry.owner s h))

  forget_unheard_keeps : (ids : List String) (s : StoreState D) → P s → P (forget_unheard ids s)
  unfolding forget_unheard
  forget_unheard_keeps [] s h = h
  forget_unheard_keeps (id ∷ ids) s h = forget_unheard_keeps ids _ (k.on_replicas _ _ s h)

  compacted_keeps :
      (pruned : List Place) (forgotten : List String) (s : StoreState D)
      → P s
      → P (compacted o pruned forgotten s).0
  unfolding compacted
  compacted_keeps [] [] s h = h
  compacted_keeps [] (id ∷ ids) s h = k.landing.on_commit _ s h
  compacted_keeps (place ∷ places) forgotten s h = k.landing.on_commit _ s h

  compact_within_keeps :
      (window : Option ℕ) (wall : ℕ) (s : StoreState D) → P s → P (compact_within o window wall s).0
  unfolding compact_within compact_before
  compact_within_keeps none wall s h = h
  compact_within_keeps (some window) wall s h =
      let (d, pruned) = prune o.shape (wall - window) s.doc in
      let forgotten = unheard (wall - window) s.replicas in
      compacted_keeps pruned forgotten _
        (forget_unheard_keeps forgotten (record s { doc = d }) (k.on_doc d s.clock s h))

  pub compact_keeps : (wall : ℕ) (s : StoreState D) → P s → P (compact o wall s).0
  unfolding compact
  compact_keeps wall s h = compact_within_keeps o.retention wall _ (k.on_compaction wall s h)

  maybe_compact_keeps : (wall : ℕ) (s : StoreState D) → P s → P (maybe_compact o wall s).0
  unfolding maybe_compact
  maybe_compact_keeps wall s h =
      if_intro (λ (r : StoreState D × Result Code Unit). P r.0)
        (is_there o.retention && is_due o.compact_every wall s.last_compaction)
        (compact_keeps wall s h) h

  compact_after_keeps :
      (wall : ℕ) (r : StoreState D × Result Code Unit) → P r.0 → P (compact_after o wall r).0
  compact_after_keeps wall (s, ok done) h = maybe_compact_keeps wall s h
  compact_after_keeps wall (s, err code) h = h

  finish_op_keeps :
      (wall : ℕ) (op : WireOp) (entry : Replica) (ts : ℕ) (out : Out)
      (r : StoreState D × Result Code Unit)
      → P r.0
      → P (finish_op o wall op entry ts out r).0
  unfolding finish_op
  finish_op_keeps wall op entry ts out (s, err code) h = h
  finish_op_keeps wall op entry ts out (s, ok done) h =
      compact_after_keeps wall _
        (landed_keeps k.landing out.applied ts op.replica (some entry) (some op.seq) out.lost s h)

  answered_keeps :
      (lost : List Lost) (r : StoreState D × Result Code Unit) → P r.0 → P (answered lost r).0
  answered_keeps lost (s, ok done) h = h
  answered_keeps lost (s, err code) h = h

  merged_keeps :
      (wall : ℕ) (op : WireOp) (speaker : Speaker) (ts : ℕ) (s : StoreState D)
      (r : Judged ApplyError Out)
      → P s
      → P (merged o wall op speaker ts s r).0
  unfolding merged
  merged_keeps wall op speaker ts s (refused e d) h = k.on_doc d s.clock s h
  merged_keeps wall op speaker ts s (failed not_valid d) h = k.on_doc d s.clock s h
  merged_keeps wall op speaker ts s (failed (not_applied e) d) h = k.on_doc d s.clock s h
  merged_keeps wall op speaker ts s busy h = h
  merged_keeps wall op speaker ts s (passed out d) h = answered_keeps out.lost _ (
      finish_op_keeps wall op _ ts out _ (remember_replica_keeps op.replica _ _ (k.on_doc d _ s h)))

  decide_keeps :
      (wall : ℕ) (op : WireOp) (speaker : Speaker) (s : StoreState D) (r : Result Code (Option ℕ))
      → P s
      → P (decide o wall op speaker s r).0
  unfolding decide
  decide_keeps wall op speaker s (err code) h = h
  decide_keeps wall op speaker s (ok none) h = h
  decide_keeps wall op speaker s (ok (some at)) h = merged_keeps wall op speaker _ s _ h

  pub apply_op_keeps :
      (wall : ℕ) (op : WireOp) (speaker : Speaker) (s : StoreState D)
      → P s
      → P (apply_op o wall op speaker s).0
  unfolding apply_op
  apply_op_keeps wall op speaker s h = decide_keeps wall op speaker s _ h
