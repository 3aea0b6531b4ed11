-- ===== src/Store/Outbox.antt =====
-- server/store.js, group commit: what commits and messages leave alone.
use lazy_storage.Base.{
  ℕ, Bool, true, false, ◌&&◌, List, [], ◌∷◌, ◌++◌, ltb, if_intro, length, Result, ok, err,
}
use lazy_storage.Store.State.{StoreState, Options, Commit, Told, Code, op_seen, Message, sent}
use lazy_storage.Store.Queue.{
  later, saved, commit_now, commit, with_commit, unavailable_if, is_empty, send,
}
use lazy_storage.Store.Land.{commit_landed, logged, and_tell}
use lazy_storage.Doc.Remove.{Change}
use lazy_storage.Store.Keeps.{KeepsLanding}

-- It speaks of no field that a commit or a message changes.
abbrev pub IsFree : {D : Type 0} → (StoreState D → Type 0) → Type 0
IsFree {D} P =
    (changes : List Commit) (effects told : List Told) (disposed : Bool) (disk : D)
    (s : StoreState D)
    → P s
    → P (record s {
      changes = changes;
      effects = effects;
      told = told;
      disposed = disposed;
      disk = disk;
    })

module _ {D : Type 0} (o : Options D) {P : StoreState D → Type 0} (free : IsFree P) where
  saved_free : (s : StoreState D) (r : D × Bool) → P s → P (saved s r).0
  unfolding saved
  saved_free s (disk, true) h = free [] [] (s.told ++ s.effects) s.disposed disk s h
  saved_free s (disk, false) h = free [] [] s.told true disk s h

  pub commit_now_free : (s : StoreState D) → P s → P (commit_now o s).0
  unfolding commit_now
  commit_now_free s h =
      if_intro (λ (r : StoreState D × Bool). P r.0) (is_empty s.changes)
        (free s.changes [] (s.told ++ s.effects) s.disposed s.disk s h)
        (saved_free s (o.save s.changes s.disk) h)

  unavailable_if_free : (r : StoreState D × Bool) → P r.0 → P (unavailable_if r).0
  unavailable_if_free (s, true) h = h
  unavailable_if_free (s, false) h = h

  pub commit_free : (change : Commit) (s : StoreState D) → P s → P (commit o change s).0
  unfolding commit
  commit_free change s h =
      let next = with_commit change s in
      let kept = free next.changes s.effects s.told s.disposed s.disk s h in
      if_intro (λ (r : StoreState D × Result Code Unit). P r.0)
        (o.group_commit && ltb (length next.changes) 256) kept
        (unavailable_if_free (commit_now o next) (commit_now_free next kept))

  pub later_free : (t : Told) (s : StoreState D) → P s → P (later t s)
  unfolding later
  later_free t s h =
      if_intro P (is_empty s.changes && is_empty s.effects)
        (free s.changes s.effects (s.told ++ t ∷ []) s.disposed s.disk s h)
        (free s.changes (s.effects ++ t ∷ []) s.told s.disposed s.disk s h)

  pub send_free : (message : Message) (s : StoreState D) → P s → P (send message s)
  unfolding send
  send_free message s h = if_intro P s.disposed h (later_free (sent message) s h)

  and_tell_free : (t : Told) (r : StoreState D × Result Code Unit) → P r.0 → P (and_tell t r).0
  and_tell_free t (s, ok done) h = later_free t s h
  and_tell_free t (s, err code) h = h

  -- All that lands, where what is kept goes on with the next version of the log.
  pub free-KeepsLanding :
      ((ts : ℕ) (applied : List Change) (s : StoreState D) → P s → P (logged o ts applied s))
      → KeepsLanding o P
  unfolding commit_landed
  free-KeepsLanding next = record {
    on_commit = commit_free;
    on_landing = λ ts applied replica s h.
        and_tell_free _ _ (commit_free _ (logged o ts applied s) (next ts applied s h));
    on_seen = λ id seq applied lost s h. later_free (op_seen id seq applied lost s.version) s h;
  }
