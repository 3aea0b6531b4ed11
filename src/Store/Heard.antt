-- ===== src/Store/Heard.antt =====
-- server/store.js, group commit: what is told and what of it is stored, over every op.
use lazy_storage.Base.{
  str_eq, ℕ, ◌+◌, ◌-◌, ◌≡◌, refl, sym, ap, inl, inr, Bool, true, false, ◌&&◌, Option, none, some,
  List, [], ◌∷◌, ◌++◌, ltb, ◌==◌, if◌then◌else◌, Bool-cases, if_intro, length, All, All-append,
  All-drop, path_eq, map_get, Result, ok, err, string_eq,
}
use lazy_storage.Store.State.{
  StoreState, Options, Entry, Code, Commit, patch, op_seen, Message, sent, catching_up,
}
use lazy_storage.Store.Stored.{
  IsStorage, IsStored, IsIn, commit-IsStored, later-IsStored, IsIn-last, is_empty-nil, Part,
  of_entry, IsCommitted, held-IsStored, of_version, AllOf, with_commit-IsCommitted, tolds-imply,
  entries-imply,
}
use lazy_storage.Store.Queue.{
  saved, commit_now, commit, with_commit, unavailable_if, is_empty, send, later,
}
use lazy_storage.Store.Land.{commit_landed, and_tell, logged, landing_commit}
use lazy_storage.Store.Keeps.{Keeps, Says, says_ack, says_refusal, says_wait, says_catch_up}
use lazy_storage.Store.Log.{after_version, delta_since, following, push_entry}
use lazy_storage.Store.Session.{catch_up, delta_or_snapshot}
use lazy_storage.Doc.Remove.{Change}
use lazy_storage.Store.Replicas.{seq_of}

module _ {D : Type 0} (o : Options D) (has : D → Part → Type 0) (storage : IsStorage o has) where
  -- What a commit that did not fail leaves of its own entry.
  abbrev pub HasOwn : Entry → StoreState D × Result Code Unit → Type 0
  HasOwn entry (s, ok done) = IsCommitted has s (of_entry entry)
  HasOwn entry (s, err code) = Unit

  saved-HasOwn :
      (entry : Entry) (s : StoreState D) (r : D × Bool)
      → o.save s.changes s.disk ≡ r
      → IsIn (of_entry entry) s.changes
      → HasOwn entry (unavailable_if (saved s r))
  unfolding saved
  saved-HasOwn entry s (disk, true) e h = inl (
      rw (sym (ap (λ (p : D × Bool). p.0) e))
        (storage.stores s.changes s.disk (of_entry entry) (ap (λ (p : D × Bool). p.1) e) h))
  saved-HasOwn entry s (disk, false) e h = tt

  commit_now-HasOwn :
      (entry : Entry) (s : StoreState D)
      → IsIn (of_entry entry) s.changes
      → HasOwn entry (unavailable_if (commit_now o s))
  unfolding commit_now
  commit_now-HasOwn entry s h = elim (Bool-cases (is_empty s.changes)) [
    | inl e ↦ absurd (rw (is_empty-nil s.changes e) at h)
    | inr e ↦ rw e (saved-HasOwn entry s (o.save s.changes s.disk) refl h)
  ]

  commit-HasOwn :
      (entry : Entry) (change : Commit) (s : StoreState D)
      → change.log ≡ some entry
      → HasOwn entry (commit o change s)
  unfolding commit
  commit-HasOwn entry change s h =
      let next = with_commit change s in
      let own = IsIn-last (of_entry entry) s.changes _ h in
      if_intro (λ (r : StoreState D × Result Code Unit). HasOwn entry r)
        (o.group_commit && ltb (length next.changes) 256) (inr own)
        (commit_now-HasOwn entry next own)

  and_tell-IsStored :
      (entry : Entry) (r : StoreState D × Result Code Unit)
      → HasOwn entry r
      → IsStored has r.0
      → IsStored has (and_tell (patch entry) r).0
  and_tell-IsStored entry (s, ok done) c h = later-IsStored o has storage (patch entry) s c h
  and_tell-IsStored entry (s, err code) c h = h

  -- What lands: the next version, and its entry in the log.
  landing-IsStored :
      (ts : ℕ) (applied : List Change) (change : Commit) (s : StoreState D)
      → let t = logged o ts applied s in
        change.log ≡ some (record { v = t.version; ts = ts; changes = applied })
        → IsStored has s
        → IsStored has (with_commit change t)
  unfolding push_entry
  landing-IsStored ts applied change s own h =
      let t = logged o ts applied s in
      let entry : Entry = record { v = t.version; ts = ts; changes = applied } in
      let next = with_commit change t in
      let more_then : (part : Part) → IsCommitted has s part → IsCommitted has next part =
        λ part g. with_commit-IsCommitted o has storage change t part g in
      record {
        told = h.told;
        waiting = tolds-imply more_then s.effects h.waiting;
        version = λ d. inr (IsIn-last (of_version t.version) s.changes _ refl);
        log = λ d. All-drop _ (length (s.log ++ entry ∷ []) - o.delta_log) (s.log ++ entry ∷ []) (
            All-append _ s.log (entry ∷ []) (entries-imply more_then s.log (h.log d))
              (inr (IsIn-last (of_entry entry) s.changes _ own), tt));
      }

  -- What a delta has is of the log.
  abbrev DeltaOf : (Entry → Type 0) → Option (List Entry) → Type 0
  DeltaOf Q none = Unit
  DeltaOf Q (some entries) = All Q entries

  after_version-All :
      (Q : Entry → Type 0) (since : ℕ) (log : List Entry)
      → All Q log
      → All Q (after_version since log)
  unfolding after_version
  after_version-All Q since [] h = tt
  after_version-All Q since (entry ∷ log) h =
      if_intro (All Q) (ltb since entry.v) h (after_version-All Q since log h.1)

  following-DeltaOf :
      (Q : Entry → Type 0) (since : ℕ) (log : List Entry)
      → All Q log
      → DeltaOf Q (following since log)
  unfolding following
  following-DeltaOf Q since [] h = tt
  following-DeltaOf Q since (entry ∷ log) h = if_intro (DeltaOf Q) (entry.v == since + 1) h tt

  delta_since-DeltaOf :
      (Q : Entry → Type 0) (since : Option ℕ) (version : ℕ) (log : List Entry)
      → All Q log
      → DeltaOf Q (delta_since since version log)
  unfolding delta_since
  delta_since-DeltaOf Q none version log h = tt
  delta_since-DeltaOf Q (some since) version log h =
      let found =
        following-DeltaOf Q since (after_version since log) (after_version-All Q since log h) in
      if_intro (DeltaOf Q) (ltb version since) tt (if_intro (DeltaOf Q) (since == version) tt found)

  delta_or_snapshot-AllOf :
      (Q : Part → Type 0) (r : Option (List Entry)) (seq v : ℕ)
      → Q (of_version v)
      → DeltaOf (λ entry. Q (of_entry entry)) r
      → AllOf Q (sent (catching_up (delta_or_snapshot r seq v)))
  delta_or_snapshot-AllOf Q none seq v h g = h
  delta_or_snapshot-AllOf Q (some entries) seq v h g = (h, g)

  -- What a store that is not unloaded may say is stored, or pending.
  Says-AllOf :
      (s : StoreState D) (message : Message)
      → Says s message
      → s.disposed ≡ false
      → IsStored has s
      → AllOf (IsCommitted has s) (sent message)
  unfolding catch_up
  Says-AllOf s message (says_ack seq now lost) d h = h.version d
  Says-AllOf s message (says_refusal refusal) d h = tt
  Says-AllOf s message (says_wait wait) d h = tt
  Says-AllOf s message (says_catch_up replica since epoch) d h =
      let Q : Part → Type 0 = IsCommitted has s in
      let OfEntry : Entry → Type 0 = λ entry. Q (of_entry entry) in
      delta_or_snapshot-AllOf Q _ (seq_of (map_get replica s.replicas)) s.version (h.version d) (
        if_intro (DeltaOf OfEntry) (str_eq epoch s.epoch)
          (delta_since-DeltaOf OfEntry since s.version s.log (h.log d)) tt)

  send-IsStored :
      (message : Message) (s : StoreState D)
      → Says s message
      → IsStored has s
      → IsStored has (send message s)
  unfolding send
  send-IsStored message s says h = unless_disposed s.disposed refl
    where
      unless_disposed :
          (b : Bool) → s.disposed ≡ b → IsStored has (if b then s else later (sent message) s)
      unless_disposed true e = h
      unless_disposed false e =
          later-IsStored o has storage (sent message) s (Says-AllOf s message says e h) h

  pub IsStored-Keeps : Keeps o (IsStored has)
  unfolding commit_landed
  IsStored-Keeps = record {
    landing = record {
      on_commit = commit-IsStored o has storage;
      on_landing = λ ts applied replica s h.
          let t = logged o ts applied s in
          let change = landing_commit o ts applied replica t in
          and_tell-IsStored _ (commit o change t) (commit-HasOwn _ change t refl)
            (held-IsStored o has storage change t (landing-IsStored ts applied change s refl h));
      on_seen = λ id seq applied lost s h.
          later-IsStored o has storage (op_seen id seq applied lost s.version) s tt h;
    };
    on_replicas =
        λ m r s h. record { told = h.told; waiting = h.waiting; version = h.version; log = h.log };
    on_doc = λ d clock s h. record {
      told = h.told;
      waiting = h.waiting;
      version = h.version;
      log = h.log;
    };
    on_send = send-IsStored;
    on_buckets =
        λ m s h. record { told = h.told; waiting = h.waiting; version = h.version; log = h.log };
    on_compaction =
        λ wall s h. record { told = h.told; waiting = h.waiting; version = h.version; log = h.log };
  }
