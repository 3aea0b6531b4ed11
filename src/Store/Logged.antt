-- ===== src/Store/Logged.antt =====
-- server/store.js: the log of a store, over every op that it decides.
use lazy_storage.Base.{refl}
use lazy_storage.Store.State.{StoreState, Options}
use lazy_storage.Store.Versions.{IsLog, push_entry-IsLog}
use lazy_storage.Store.Keeps.{Keeps}
use lazy_storage.Store.Outbox.{free-KeepsLanding, commit_now_free, send_free}
use lazy_storage.Store.Queue.{commit_now}

abbrev pub IsLogged : {D : Type 0} → Options D → StoreState D → Type 0
IsLogged o s = IsLog o.delta_log s.version s.log

module _ {D : Type 0} (o : Options D) where
  pub IsLogged-Keeps : Keeps o (IsLogged o)
  IsLogged-Keeps = record {
    landing =
        free-KeepsLanding o (λ changes effects told disposed disk s h. h)
          (λ ts applied s h. push_entry-IsLog o.delta_log s.version _ s.log refl h);
    on_replicas = λ m r s h. h;
    on_doc = λ d clock s h. h;
    on_send = λ message s says h.
        send_free o {P = IsLogged o} (λ changes effects told disposed disk t g. g) message s h;
    on_buckets = λ m s h. h;
    on_compaction = λ wall s h. h;
  }

  pub commit_now-IsLogged : (s : StoreState D) → IsLogged o s → IsLogged o (commit_now o s).0
  commit_now-IsLogged s h =
      commit_now_free o {P = IsLogged o} (λ changes effects told disposed disk t g. g) s h
