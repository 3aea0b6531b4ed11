-- ===== src/Store/Always.antt =====
-- server/store.js: the log and what sessions hear, whatever happens to a store.
use lazy_storage.Base.{}
use lazy_storage.Store.State.{StoreState, Options}
use lazy_storage.Store.Reach.{Leads, Leads_keeps}
use lazy_storage.Store.Stored.{IsStorage, IsStored, commit_now-IsStored, Part}
use lazy_storage.Store.Logged.{IsLogged, IsLogged-Keeps, commit_now-IsLogged}
use lazy_storage.Store.Heard.{IsStored-Keeps}

-- With any options, from any store whose log has the last versions up to its own, each once and in
-- order, and no more entries than it may: so it is after any ops of replicas, answered or refused,
-- writes of the server, compactions and commits, in any order, also where the storage fails.
pub Leads-IsLogged :
    {D : Type 0} (o : Options D) (s t : StoreState D) → Leads o s t → IsLogged o s → IsLogged o t
Leads-IsLogged o s t steps h =
    Leads_keeps (IsLogged-Keeps o) (λ u g. commit_now-IsLogged o u g) steps h

-- With any storage that stores all of what it says it saved and never loses that it did: where all that
-- sessions were told is stored, what waits is stored or its commit pending, and so are the version and the log
-- unless the store is unloaded, so it is after any ops, hellos and their answers, writes of the server,
-- compactions and commits, in any order. So no session gets the patch of a change, a delta with
-- a change, or the ack or the snapshot of a version, that was not stored before, whether commits are
-- grouped or not, and also when they fail.
pub Leads-IsStored :
    {D : Type 0} (o : Options D) (has : D → Part → Type 0) (s t : StoreState D)
    → IsStorage o has
    → Leads o s t
    → IsStored has s
    → IsStored has t
Leads-IsStored o has s t storage steps h =
    Leads_keeps (IsStored-Keeps o has storage) (λ u g. commit_now-IsStored o has storage u g) steps
      h
