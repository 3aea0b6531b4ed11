-- ===== src/Store/Stored.antt =====
-- server/store.js, group commit: what is told and what of it is stored, over commits.
use lazy_storage.Base.{
  ℕ, ◌≡◌, refl, ap, ◌⊎◌, inl, inr, Bool, true, false, ◌&&◌, some, List, [], ◌∷◌, ◌++◌, arith, ltb,
  Bool-cases, if_intro, length, All, All-append, Result,
}
use lazy_storage.Store.State.{
  StoreState, Options, Entry, Told, patch, Commit, op_seen, Code, sent, ack, catching_up, delta,
  snapshot, refused_op, wait_ms,
}
use lazy_storage.Store.Queue.{
  saved, with_commit, commit_now, commit, later, unavailable_if, is_empty,
}

-- What may be known as stored: an entry of the log, or the store's state of a version.
pub data Part : Type 0 where
  of_entry : Entry → Part
  of_version : ℕ → Part

abbrev pub Holds : Commit → Part → Type 0
Holds change (of_entry entry) = change.log ≡ some entry
Holds change (of_version v) = change.version ≡ v

-- A commit of the batch has it.
abbrev pub IsIn : Part → List Commit → Type 0
IsIn part [] = ⊥
IsIn part (change ∷ batch) = Holds change part ⊎ IsIn part batch

pub IsIn-append_left :
    (part : Part) (batch more : List Commit) → IsIn part batch → IsIn part (batch ++ more)
IsIn-append_left part [] more h = absurd h
IsIn-append_left part (change ∷ batch) more (inl h) = inl h
IsIn-append_left part (change ∷ batch) more (inr h) = inr (IsIn-append_left part batch more h)

pub IsIn-last :
    (part : Part) (batch : List Commit) (change : Commit)
    → Holds change part
    → IsIn part (batch ++ change ∷ [])
IsIn-last part [] change h = inl h
IsIn-last part (first ∷ batch) change h = inr (IsIn-last part batch change h)

-- What the storage does: all of a batch that it says it saved is stored, and what was stored stays known
-- as stored. `has disk part` says that the part was stored once.
pub record IsStorage {D : Type 0} (o : Options D) (has : D → Part → Type 0) : Type 0 where
  pub stores :
      (batch : List Commit) (disk : D) (part : Part)
      → (o.save batch disk).1 ≡ true
      → IsIn part batch
      → has (o.save batch disk).0 part
  pub remembers :
      (batch : List Commit) (disk : D) (part : Part)
      → has disk part
      → has (o.save batch disk).0 part

-- Of all that something told tells of: a patch of its entry, an ack of its version, a delta of its
-- version and all its entries, a snapshot of its version.
abbrev pub AllOf : (Part → Type 0) → Told → Type 0
AllOf Q (patch entry) = Q (of_entry entry)
AllOf Q (sent (ack seq v now lost)) = Q (of_version v)
AllOf Q (sent (catching_up (delta entries seq v))) =
    Q (of_version v) × All (λ entry. Q (of_entry entry)) entries
AllOf Q (sent (catching_up (snapshot seq v))) = Q (of_version v)
AllOf Q (sent (refused_op refusal)) = Unit
AllOf Q (sent (wait_ms wait)) = Unit
AllOf Q (op_seen id seq applied lost v) = Unit

module _ {P Q : Part → Type 0} (f : (part : Part) → P part → Q part) where
  pub entries-imply :
      (entries : List Entry)
      → All (λ entry. P (of_entry entry)) entries
      → All (λ entry. Q (of_entry entry)) entries
  entries-imply [] h = tt
  entries-imply (entry ∷ entries) h = (f (of_entry entry) h.0, entries-imply entries h.1)

  AllOf-imply : (t : Told) → AllOf P t → AllOf Q t
  AllOf-imply (patch entry) h = f _ h
  AllOf-imply (sent (ack seq v now lost)) h = f _ h
  AllOf-imply (sent (catching_up (delta entries seq v))) h = (f _ h.0, entries-imply entries h.1)
  AllOf-imply (sent (catching_up (snapshot seq v))) h = f _ h
  AllOf-imply (sent (refused_op refusal)) h = tt
  AllOf-imply (sent (wait_ms wait)) h = tt
  AllOf-imply (op_seen id seq applied lost v) h = tt

  pub tolds-imply : (ts : List Told) → All (AllOf P) ts → All (AllOf Q) ts
  tolds-imply [] h = tt
  tolds-imply (t ∷ ts) h = (AllOf-imply t h.0, tolds-imply ts h.1)

module _ {D : Type 0} (has : D → Part → Type 0) where
  -- It is stored, or its commit is pending.
  abbrev pub IsCommitted : StoreState D → Part → Type 0
  IsCommitted s part = has s.disk part ⊎ IsIn part s.changes

  -- All that was told is stored; what waits to be told is stored, or waits for its own commit; and
  -- so are the version and the log of a store that is not unloaded.
  pub record IsStored (s : StoreState D) : Type 0 where
    pub told : All (AllOf (has s.disk)) s.told
    pub waiting : All (AllOf (IsCommitted s)) s.effects
    pub version : s.disposed ≡ false → IsCommitted s (of_version s.version)
    pub log : s.disposed ≡ false → All (λ entry. IsCommitted s (of_entry entry)) s.log

pub is_empty-nil : {A : Type 0} (xs : List A) → is_empty xs ≡ true → xs ≡ []
is_empty-nil [] h = refl
is_empty-nil (x ∷ xs) h = absurd (cc)

module _ {D : Type 0} (o : Options D) (has : D → Part → Type 0) (storage : IsStorage o has) where
  pub with_commit-IsCommitted :
      (change : Commit) (s : StoreState D) (part : Part)
      → IsCommitted has s part
      → IsCommitted has (with_commit change s) part
  with_commit-IsCommitted change s part (inl h) = inl h
  with_commit-IsCommitted change s part (inr h) = inr (IsIn-append_left part s.changes _ h)

  saved_part :
      (s : StoreState D) (part : Part)
      → (o.save s.changes s.disk).1 ≡ true
      → IsCommitted has s part
      → has (o.save s.changes s.disk).0 part
  saved_part s part e (inl h) = storage.remembers s.changes s.disk part h
  saved_part s part e (inr h) = storage.stores s.changes s.disk part e h

  none_pending :
      (s : StoreState D) (part : Part) → s.changes ≡ [] → IsCommitted has s part → has s.disk part
  none_pending s part e (inl h) = h
  none_pending s part e (inr h) = absurd (rw e at h)

  saved-IsStored :
      (s : StoreState D) (r : D × Bool)
      → o.save s.changes s.disk ≡ r
      → IsStored has s
      → IsStored has (saved s r).0
  unfolding saved
  saved-IsStored s (disk, true) e h =
      let next : (o.save s.changes s.disk).0 ≡ disk = ap (λ (p : D × Bool). p.0) e in
      let kept : (part : Part) → has s.disk part → has disk part =
        λ part g. rw next at (storage.remembers s.changes s.disk part g) in
      let now : (part : Part) → IsCommitted has s part → has disk part =
        λ part g. rw next at (saved_part s part (ap (λ (p : D × Bool). p.1) e) g) in
      record {
        told =
            All-append _ s.told s.effects (tolds-imply kept s.told h.told)
              (tolds-imply now s.effects h.waiting);
        waiting = tt;
        version = λ d. inl (now (of_version s.version) (h.version d));
        log = λ d.
            entries-imply {Q = IsCommitted has (saved s (disk, true)).0}
              (λ part g. inl (now part g)) s.log (h.log d);
      }
  saved-IsStored s (disk, false) e h =
      let kept : (part : Part) → has s.disk part → has disk part = λ part g.
        rw (ap (λ (p : D × Bool). p.0) e) at (storage.remembers s.changes s.disk part g) in
      record {
        told = tolds-imply kept s.told h.told;
        waiting = tt;
        version = λ d. absurd (cc);
        log = λ d. absurd (cc);
      }

  pub commit_now-IsStored : (s : StoreState D) → IsStored has s → IsStored has (commit_now o s).0
  unfolding commit_now
  commit_now-IsStored s h = elim (Bool-cases (is_empty s.changes)) [
    | inl e ↦ rw e (record {
      told = All-append _ s.told s.effects h.told (
          tolds-imply (λ part. none_pending s part (is_empty-nil s.changes e)) s.effects h.waiting);
      waiting = tt;
      version = h.version;
      log = h.log;
    })
    | inr e ↦ rw e (saved-IsStored s (o.save s.changes s.disk) refl h)
  ]

  with_commit-IsStored :
      (change : Commit) (s : StoreState D) → IsStored has s → IsStored has (with_commit change s)
  with_commit-IsStored change s h =
      let more = with_commit-IsCommitted change s in
      record {
        told = h.told;
        waiting = tolds-imply more s.effects h.waiting;
        version = λ d. more (of_version s.version) (h.version d);
        log = λ d. entries-imply more s.log (h.log d);
      }

  unavailable_if-IsStored :
      (r : StoreState D × Bool) → IsStored has r.0 → IsStored has (unavailable_if r).0
  unavailable_if-IsStored (s, true) h = h
  unavailable_if-IsStored (s, false) h = h

  pub held-IsStored :
      (change : Commit) (s : StoreState D)
      → IsStored has (with_commit change s)
      → IsStored has (commit o change s).0
  unfolding commit
  held-IsStored change s kept =
      let next = with_commit change s in
      if_intro (λ (r : StoreState D × Result Code Unit). IsStored has r.0)
        (o.group_commit && ltb (length next.changes) 256) kept
        (unavailable_if-IsStored (commit_now o next) (commit_now-IsStored next kept))

  pub commit-IsStored :
      (change : Commit) (s : StoreState D) → IsStored has s → IsStored has (commit o change s).0
  commit-IsStored change s h = held-IsStored change s (with_commit-IsStored change s h)

  pub later-IsStored :
      (t : Told) (s : StoreState D)
      → AllOf (IsCommitted has s) t
      → IsStored has s
      → IsStored has (later t s)
  unfolding later
  later-IsStored t s c h = elim (Bool-cases (is_empty s.changes && is_empty s.effects)) [
    | inl e ↦
        let none_waits = is_empty-nil s.changes (ground (arith, e)) in
        rw e (record {
          told =
              All-append _ s.told (t ∷ []) h.told
                (tolds-imply (λ part. none_pending s part none_waits) (t ∷ []) (c, tt));
          waiting = h.waiting;
          version = h.version;
          log = h.log;
        })
    | inr e ↦ rw e (record {
      told = h.told;
      waiting = All-append _ s.effects (t ∷ []) h.waiting (c, tt);
      version = h.version;
      log = h.log;
    })
  ]
