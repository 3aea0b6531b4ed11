-- ===== src/Store/Remembered.antt =====
-- server/store.js: the entry of the replica that an op came from outlasts what the op makes forgotten.
use lazy_storage.Base.{
  String, ℕ, ◌-◌, ◌≡◌, refl, ◌∙◌, false, ◌&&◌, Option, none, some, List, [], ◌∷◌, arith, if_intro,
  is_there, path_eq, Map, beq_refl, map_get, map_set, map_get-map_set, map_get-map_delete,
  IsDistinct, map_set-IsDistinct, map_delete-IsDistinct, Result, string_eq,
}
use lazy_storage.Store.State.{StoreState, Options, Replica, owner_beq, Commit, Code, owner_eq}
use lazy_storage.Store.Replicas.{
  unspoken, has_id, remember_replica, own, disown, keep_allowance, past_allowance, forget_all,
  ids_or_none, empty_commit,
}
use lazy_storage.Doc.Remove.{Change, Lost}
use lazy_storage.Store.Compact.{
  unheard, compact_within, maybe_compact, forget_unheard, compacted, compact_before, compact,
  is_due,
}
use lazy_storage.Store.Keeps.{KeepsLanding, landed_keeps}
use lazy_storage.Store.Outbox.{free-KeepsLanding}
use lazy_storage.Store.Land.{landed}
use lazy_storage.Doc.State.{Place}
use lazy_storage.Store.Queue.{commit}
use lazy_storage.Doc.Prune.{prune}
use lazy_storage.Store.Forgetting.{
  has_id-take, Has, unheard-fresh, has_id-sort_by_seen, Has-delete_all, has_id-unspoken,
}

module _ {D : Type 0} (o : Options D) where
  replicas-KeepsLanding : (m : Map String Replica) → KeepsLanding o (λ s. s.replicas ≡ m)
  replicas-KeepsLanding m =
      free-KeepsLanding o (λ changes effects told disposed disk s h. h) (λ ts applied s h. h)

  commit-replicas :
      (change : Commit) (s : StoreState D) → (commit o change s).0.replicas ≡ s.replicas
  commit-replicas change s = (replicas-KeepsLanding s.replicas).on_commit change s refl

  keep_allowance-Has :
      (id : String) (entry : Replica) (owner : Option String) (ids : List String) (s : StoreState D)
      → has_id id ids ≡ false
      → Has id entry s.replicas
      → Has id entry (keep_allowance o owner ids s).0.replicas
  unfolding keep_allowance forget_all
  keep_allowance-Has id entry owner [] s n h = h
  keep_allowance-Has id entry owner (x ∷ xs) s n h =
      let t = forget_all (x ∷ xs) owner s in
      rw (commit-replicas (record empty_commit { forget_replicas = x ∷ xs }) t)
        (Has-delete_all id entry (x ∷ xs) s.replicas n h)

  past_allowance-other :
      (most : Option ℕ) (id : String) (entry : Replica) (s : StoreState D)
      → has_id id (past_allowance most id entry s) ≡ false
  unfolding past_allowance
  past_allowance-other none id entry s = refl
  past_allowance-other (some most) id entry s =
      let mine = ids_or_none (map_get entry.owner s.replicas_of) in
      has_id-take _ id _ (
        has_id-sort_by_seen s.replicas id (unspoken id s.live mine)
          (has_id-unspoken id s.live mine))

  disown-replicas :
      (id : String) (before : Option Replica) (owner : Option String) (s : StoreState D)
      → (disown id before owner s).replicas ≡ s.replicas
  unfolding disown
  disown-replicas id none owner s = refl
  disown-replicas id (some before) owner s =
      if_intro (λ (t : StoreState D). t.replicas ≡ s.replicas) (owner_beq before.owner owner) refl
        refl

  set-Has :
      (id : String) (entry : Replica) (m : Map String Replica)
      → IsDistinct m
      → Has id entry (map_set id entry m)
  set-Has id entry m h = record {
    there = map_get-map_set id id entry m ∙ rw (beq_refl id) refl;
    distinct = map_set-IsDistinct id entry m h;
  }

  pub remember_replica-Has :
      (id : String) (entry : Replica) (s : StoreState D)
      → IsDistinct s.replicas
      → Has id entry (remember_replica o id entry s).0.replicas
  unfolding remember_replica own
  remember_replica-Has id entry s h =
      let t = disown id (map_get id s.replicas) entry.owner s in
      let owned = own id entry t in
      let same = disown-replicas id (map_get id s.replicas) entry.owner s in
      keep_allowance-Has id entry entry.owner (past_allowance o.max_replicas id entry owned) owned
        (past_allowance-other o.max_replicas id entry owned)
        (set-Has id entry t.replicas (rw same h))

  pub landed-replicas :
      (applied : List Change) (ts : ℕ) (id : String) (entry : Option Replica) (seq : Option ℕ)
      (lost : List Lost) (s : StoreState D)
      → (landed o applied ts id entry seq lost s).0.replicas ≡ s.replicas
  landed-replicas applied ts id entry seq lost s =
      landed_keeps (replicas-KeepsLanding s.replicas) applied ts id entry seq lost s refl

  forget_unheard-Has :
      (id : String) (entry : Replica) (ids : List String) (s : StoreState D)
      → has_id id ids ≡ false
      → Has id entry s.replicas
      → Has id entry (forget_unheard ids s).replicas
  unfolding forget_unheard
  forget_unheard-Has id entry [] s n h = h
  forget_unheard-Has id entry (x ∷ xs) s n h =
      forget_unheard-Has id entry xs _ (ground (arith, n)) (record {
        there = map_get-map_delete x id s.replicas ∙ ground (arith, n, h.there);
        distinct = map_delete-IsDistinct x s.replicas h.distinct;
      })

  compacted-replicas :
      (pruned : List Place) (forgotten : List String) (s : StoreState D)
      → (compacted o pruned forgotten s).0.replicas ≡ s.replicas
  unfolding compacted
  compacted-replicas [] [] s = refl
  compacted-replicas [] (id ∷ ids) s = commit-replicas _ s
  compacted-replicas (place ∷ places) forgotten s = commit-replicas _ s

  compact_within-Has :
      (id : String) (entry : Replica) (window : Option ℕ) (s : StoreState D)
      → Has id entry s.replicas
      → Has id entry (compact_within o window entry.seen s).0.replicas
  unfolding compact_within compact_before
  compact_within-Has id entry none s h = h
  compact_within-Has id entry (some window) s h =
      let (d, pruned) = prune o.shape (entry.seen - window) s.doc in
      let forgotten = unheard (entry.seen - window) s.replicas in
      let t = forget_unheard forgotten (record s { doc = d }) in
      rw (compacted-replicas pruned forgotten t) (
        forget_unheard-Has id entry forgotten (record s { doc = d })
          (unheard-fresh id entry (entry.seen - window) s.replicas (omega arith) h) h)

  pub maybe_compact-Has :
      (id : String) (entry : Replica) (s : StoreState D)
      → Has id entry s.replicas
      → Has id entry (maybe_compact o entry.seen s).0.replicas
  unfolding maybe_compact compact
  maybe_compact-Has id entry s h =
      if_intro (λ (r : StoreState D × Result Code Unit). Has id entry r.0.replicas)
        (is_there o.retention && is_due o.compact_every entry.seen s.last_compaction)
        (compact_within-Has id entry o.retention _ h) h
