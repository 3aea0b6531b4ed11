-- ===== src/Store/Commits.antt =====
-- server/store.js: what commits throws `unavailable`, from a store that is unloaded, and nothing else.
use lazy_storage.Base.{
  String, ℕ, ◌≡◌, refl, inl, inr, Bool, true, false, ◌&&◌, Option, none, some, List, [], ◌∷◌, ltb,
  Bool-cases, if_intro, is_there, length, path_eq, map_get, Result, ok, err, string_eq,
}
use lazy_storage.Store.State.{Options, StoreState, Code, Told, unavailable, Replica, Commit}
use lazy_storage.Store.Land.{
  commit_progress, landed_changes, and_tell, commit_landed, logged, landing_commit, landed,
  tell_seen,
}
use lazy_storage.Store.Queue.{saved, commit, commit_now, unavailable_if, with_commit, is_empty}
use lazy_storage.Store.Replicas.{
  remember_replica, keep_allowance, empty_commit, forget_all, own, disown, past_allowance,
}
use lazy_storage.Doc.Remove.{Change, Lost, Out}
use lazy_storage.Store.Apply.{compact_after, finish_op, WireOp}
use lazy_storage.Store.Compact.{
  compacted, maybe_compact, compact, compact_before, is_due, compact_within,
}
use lazy_storage.Doc.State.{Place}

abbrev pub IsCommitted : {D : Type 0} → StoreState D × Result Code Unit → Type 0
IsCommitted (s, ok done) = Unit
IsCommitted (s, err code) = (code ≡ unavailable) × (s.disposed ≡ true)

module _ {D : Type 0} (o : Options D) where
  saved-IsCommitted : (s : StoreState D) (r : D × Bool) → IsCommitted (unavailable_if (saved s r))
  unfolding saved
  saved-IsCommitted s (disk, true) = tt
  saved-IsCommitted s (disk, false) = (refl, refl)

  pub commit-IsCommitted : (change : Commit) (s : StoreState D) → IsCommitted (commit o change s)
  unfolding commit commit_now
  commit-IsCommitted change s =
      let next = with_commit change s in
      elim (Bool-cases (o.group_commit && ltb (length next.changes) 256)) [
        | inl e ↦ rw e tt
        | inr e ↦ elim (Bool-cases (is_empty next.changes)) [
          | inl f ↦ rw (e, f) tt
          | inr f ↦ rw (e, f) (saved-IsCommitted next (o.save next.changes next.disk))
        ]
      ]

  keep_allowance-IsCommitted :
      (owner : Option String) (ids : List String) (s : StoreState D)
      → IsCommitted (keep_allowance o owner ids s)
  unfolding keep_allowance
  keep_allowance-IsCommitted owner [] s = tt
  keep_allowance-IsCommitted owner (id ∷ ids) s =
      commit-IsCommitted (record empty_commit { forget_replicas = id ∷ ids })
        (forget_all (id ∷ ids) owner s)

  pub remember_replica-IsCommitted :
      (id : String) (entry : Replica) (s : StoreState D)
      → IsCommitted (remember_replica o id entry s)
  unfolding remember_replica
  remember_replica-IsCommitted id entry s =
      let owned = own id entry (disown id (map_get id s.replicas) entry.owner s) in
      keep_allowance-IsCommitted entry.owner (past_allowance o.max_replicas id entry owned) owned

  and_tell-IsCommitted :
      (t : Told) (r : StoreState D × Result Code Unit) → IsCommitted r → IsCommitted (and_tell t r)
  and_tell-IsCommitted t (s, ok done) h = tt
  and_tell-IsCommitted t (s, err code) h = h

  commit_progress-IsCommitted :
      (replica : Option (String × Replica)) (s : StoreState D)
      → IsCommitted (commit_progress o replica s)
  unfolding commit_progress
  commit_progress-IsCommitted none s = tt
  commit_progress-IsCommitted (some replica) s =
      commit-IsCommitted (record empty_commit { replica = some replica }) s

  landed_changes-IsCommitted :
      (applied : List Change) (ts : ℕ) (replica : Option (String × Replica)) (s : StoreState D)
      → IsCommitted (landed_changes o applied ts replica s)
  unfolding landed_changes commit_landed
  landed_changes-IsCommitted [] ts replica s = commit_progress-IsCommitted replica s
  landed_changes-IsCommitted (change ∷ applied) ts replica s =
      let t = logged o ts (change ∷ applied) s in
      and_tell-IsCommitted _ (commit o (landing_commit o ts (change ∷ applied) replica t) t)
        (commit-IsCommitted (landing_commit o ts (change ∷ applied) replica t) t)

  tell_seen-IsCommitted :
      (id : String) (seq : Option ℕ) (applied : List Change) (lost : List Lost)
      (r : StoreState D × Result Code Unit)
      → IsCommitted r
      → IsCommitted (tell_seen id seq applied lost r)
  tell_seen-IsCommitted id seq applied lost (s, ok done) h = tt
  tell_seen-IsCommitted id seq applied lost (s, err code) h = h

  pub landed-IsCommitted :
      (applied : List Change) (ts : ℕ) (id : String) (entry : Option Replica) (seq : Option ℕ)
      (lost : List Lost) (s : StoreState D)
      → IsCommitted (landed o applied ts id entry seq lost s)
  unfolding landed
  landed-IsCommitted applied ts id entry seq lost s =
      tell_seen-IsCommitted id seq applied lost _ (
        landed_changes-IsCommitted applied ts (elim entry [ none ↦ none | some r ↦ some (id, r) ])
          s)

  compacted-IsCommitted :
      (pruned : List Place) (forgotten : List String) (s : StoreState D)
      → IsCommitted (compacted o pruned forgotten s)
  unfolding compacted
  compacted-IsCommitted [] [] s = tt
  compacted-IsCommitted [] (id ∷ ids) s = commit-IsCommitted _ s
  compacted-IsCommitted (place ∷ places) forgotten s = commit-IsCommitted _ s

  compact_within-IsCommitted :
      (window : Option ℕ) (wall : ℕ) (s : StoreState D)
      → IsCommitted (compact_within o window wall s)
  unfolding compact_within compact_before
  compact_within-IsCommitted none wall s = tt
  compact_within-IsCommitted (some window) wall s = compacted-IsCommitted _ _ _

  maybe_compact-IsCommitted : (wall : ℕ) (s : StoreState D) → IsCommitted (maybe_compact o wall s)
  unfolding maybe_compact compact
  maybe_compact-IsCommitted wall s =
      if_intro (λ (r : StoreState D × Result Code Unit). IsCommitted r)
        (is_there o.retention && is_due o.compact_every wall s.last_compaction)
        (compact_within-IsCommitted o.retention wall (record s { last_compaction = some wall })) tt

  compact_after-IsCommitted :
      (wall : ℕ) (r : StoreState D × Result Code Unit)
      → IsCommitted r
      → IsCommitted (compact_after o wall r)
  compact_after-IsCommitted wall (s, ok done) h = maybe_compact-IsCommitted wall s
  compact_after-IsCommitted wall (s, err code) h = h

  pub finish_op-IsCommitted :
      (wall : ℕ) (op : WireOp) (entry : Replica) (ts : ℕ) (out : Out)
      (r : StoreState D × Result Code Unit)
      → IsCommitted r
      → IsCommitted (finish_op o wall op entry ts out r)
  unfolding finish_op
  finish_op-IsCommitted wall op entry ts out (s, err code) h = h
  finish_op-IsCommitted wall op entry ts out (s, ok done) h =
      compact_after-IsCommitted wall _
        (landed-IsCommitted out.applied ts op.replica (some entry) (some op.seq) out.lost s)
