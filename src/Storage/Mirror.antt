-- ===== src/Storage/Mirror.antt =====
-- server/storage.js: the log that the storage keeps is the store's.
use lazy_storage.Base.{
  String, ℕ, zero, suc, ◌+◌, ◌-◌, ◌≤◌, ◌<◌, ◌≡◌, refl, ap, ◌∙◌, false, Option, List, [], ◌∷◌, ◌++◌,
  arith, leb, length, drop, length-append,
}
use lazy_storage.Store.State.{Entry, StoreState, Options}
use lazy_storage.Store.Versions.{Runs, Runs-append}
use lazy_storage.Storage.{Memory, commit_memory, from_version, Replica}
use lazy_storage.Store.Log.{first_version, push_entry}
use lazy_storage.Doc.Remove.{Change}
use lazy_storage.Store.Logged.{IsLogged}
use lazy_storage.Store.Queue.{stamped_commit}
use lazy_storage.Store.Land.{logged, landing_commit}

from_version-all :
    (floor from to : ℕ) (log : List Entry)
    → Runs from to log
    → floor ≤ from + 1
    → from_version floor log ≡ log
unfolding from_version
from_version-all floor from to [] h le = refl
from_version-all floor from to (entry ∷ log) h le =
    ground (arith, h.0, from_version-all floor (from + 1) to log h.1 (omega (arith, le)))

from_version-drop :
    (n from to : ℕ) (log : List Entry)
    → Runs from to log
    → n ≤ length log
    → from_version (from + n + 1) log ≡ drop n log
unfolding from_version
from_version-drop zero from to log h le =
    from_version-all (from + 0 + 1) from to log h (omega arith)
from_version-drop (suc n) from to [] h le = refl
from_version-drop (suc n) from to (entry ∷ log) h le =
    let old : leb (from + suc n + 1) entry.v ≡ false = ground (arith, h.0) in
    let same : from + suc n + 1 ≡ from + 1 + n + 1 = omega arith in
    rw old (
      ap (λ f. from_version f log) same
      ∙ from_version-drop n (from + 1) to log h.1 (omega (arith, le)))

first_version-drop :
    (n from to version : ℕ) (log : List Entry)
    → Runs from to log
    → n < length log
    → first_version version (drop n log) ≡ from + n + 1
first_version-drop n from to version [] h lt = absurd (omega (arith, lt))
first_version-drop zero from to version (entry ∷ log) h lt = omega (arith, h.0)
first_version-drop (suc n) from to version (entry ∷ log) h lt =
    first_version-drop n (from + 1) to version log h.1 (omega (arith, lt)) ∙ omega arith

push_entry-mirrored :
    (most version : ℕ) (entry : Entry) (log : List Entry)
    → 0 < most
    → entry.v ≡ version + 1
    → Runs (version - length log) version log
    → from_version (first_version (version + 1) (push_entry most entry log)) (log ++ entry ∷ [])
      ≡ push_entry most entry log
unfolding push_entry
push_entry-mirrored most version entry log pos e h =
    let longer = log ++ entry ∷ [] in
    let n = length longer - most in
    let run = Runs-append (version - length log) version log entry h e in
    let long = length-append log (entry ∷ []) in
    let short : n < length longer = omega (arith, long, pos) in
    rw (first_version-drop n (version - length log) (version + 1) (version + 1) longer run short)
      (from_version-drop n (version - length log) (version + 1) longer run (omega (arith, short)))

-- For a store that keeps a log at all, and whose log is in order: where the memory's log is the
-- store's, so it is after changes landed and the memory took the commit of them. Both then have the
-- same version.
pub commit_memory-mirrors :
    {D : Type 0} (o : Options D) (ts : ℕ) (applied : List Change)
    (replica : Option (String × Replica)) (s : StoreState D) (memory : Memory)
    → 0 < o.delta_log
    → IsLogged o s
    → memory.log ≡ s.log
    → ((commit_memory
          (stamped_commit
            (logged o ts applied s)
            (landing_commit o ts applied replica (logged o ts applied s)))
          memory).log
        ≡ (logged o ts applied s).log)
      × ((commit_memory
            (stamped_commit
              (logged o ts applied s)
              (landing_commit o ts applied replica (logged o ts applied s)))
            memory).version
          ≡ (logged o ts applied s).version)
unfolding commit_memory
commit_memory-mirrors o ts applied replica s memory pos h same =
    (rw same (push_entry-mirrored o.delta_log s.version _ s.log pos refl h.runs), refl)
