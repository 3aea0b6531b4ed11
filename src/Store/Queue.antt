-- ===== src/Store/Queue.antt =====
-- server/store.js, group commit: what one turn merged is stored as one commit, and what the store
-- would say meanwhile waits for it. What is told runs nothing that writes, as the source's sends.
use lazy_storage.Base.{
  Bool, true, false, ◌&&◌, List, [], ◌∷◌, ◌++◌, ltb, if◌then◌else◌, length, Result, ok, err,
}
use lazy_storage.Store.State.{StoreState, Commit, Told, Code, Options, unavailable, Message, sent}

abbrev pub is_empty {ℓ} : {A : Type ℓ} → List A → Bool
is_empty [] = true
is_empty (x ∷ xs) = false

module _ {D : Type 0} where
  abbrev pub tell : List Told → StoreState D → StoreState D
  tell told s = record s { told = s.told ++ told; effects = [] }

  -- Told now, or once what is pending is stored.
  unfoldable pub later : Told → StoreState D → StoreState D
  later t s =
      if is_empty s.changes && is_empty s.effects
      then record s { told = s.told ++ t ∷ [] }
      else record s { effects = s.effects ++ t ∷ [] }

  -- A session's `send`: nothing once the store is unloaded, which closes every session.
  unfoldable pub send : Message → StoreState D → StoreState D
  send message s = if s.disposed then s else later (sent message) s

  -- A commit that fails: what it would have told is dropped, and the store unloads itself.
  unfoldable pub saved : StoreState D → D × Bool → StoreState D × Bool
  saved s (disk, true) = (tell s.effects (record s { changes = []; disk = disk }), true)
  saved s (disk, false) =
      (record s { changes = []; effects = []; disposed = true; disk = disk }, false)

  unfoldable pub commit_now : Options D → StoreState D → StoreState D × Bool
  commit_now o s =
      if is_empty s.changes then (tell s.effects s, true) else saved s (o.save s.changes s.disk)

  abbrev pub unavailable_if : StoreState D × Bool → StoreState D × Result Code Unit
  unavailable_if (s, true) = (s, ok tt)
  unavailable_if (s, false) = (s, err unavailable)

  -- A commit with the store's version, epoch and schema.
  abbrev pub stamped_commit : StoreState D → Commit → Commit
  stamped_commit s change = record change {
    version = s.version;
    epoch = s.epoch;
    schema = s.schema;
  }

  abbrev pub with_commit : Commit → StoreState D → StoreState D
  with_commit change s = record s { changes = s.changes ++ stamped_commit s change ∷ [] }

  -- `commit`: kept for the end of the turn, or stored at once where many are kept already.
  unfoldable pub commit : Options D → Commit → StoreState D → StoreState D × Result Code Unit
  commit o change s =
      let next = with_commit change s in
      if o.group_commit && ltb (length next.changes) 256
      then (next, ok tt)
      else unavailable_if (commit_now o next)
