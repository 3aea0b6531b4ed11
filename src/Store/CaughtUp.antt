-- ===== src/Store/CaughtUp.antt =====
-- server/store.js, `catchUp`: what a client gets that comes back.
use lazy_storage.Base.{
  String, str_eq, ℕ, ◌-◌, ◌<◌, ◌≡◌, refl, ◌⊎◌, inl, inr, true, false, Option, none, some, List,
  Bool-cases, length, drop, path_eq, map_get, string_eq,
}
use lazy_storage.Store.State.{StoreState, Options, Entry, CatchUp, delta, snapshot}
use lazy_storage.Store.Session.{catch_up, delta_or_snapshot}
use lazy_storage.Store.Reach.{Leads}
use lazy_storage.Store.Logged.{IsLogged}
use lazy_storage.Store.Versions.{Runs, IsDelta, delta_since-IsDelta}
use lazy_storage.Store.Replicas.{seq_of}
use lazy_storage.Store.Always.{Leads-IsLogged}
use lazy_storage.Store.Log.{delta_since}

-- The client has the store's state after it: it has all up to `since`, and gets the rest; or it gets
-- the whole state, as its state is another store's or the log does not reach back to it.
abbrev pub IsCaughtUp : {D : Type 0} → StoreState D → ℕ → String → CatchUp → Type 0
IsCaughtUp s since epoch (delta entries seq version) =
    (str_eq epoch s.epoch ≡ true)
    × Runs since s.version entries
    × (entries ≡ drop (length s.log - (s.version - since)) s.log)
    × (version ≡ s.version)
IsCaughtUp s since epoch (snapshot seq version) =
    ((str_eq epoch s.epoch ≡ false) ⊎ (s.version < since) ⊎ (since < s.version - length s.log))
    × (version ≡ s.version)

found-IsCaughtUp :
    {D : Type 0} (s : StoreState D) (since seq : ℕ) (epoch : String) (o : Option (List Entry))
    → str_eq epoch s.epoch ≡ true
    → IsDelta since s.version s.log o
    → IsCaughtUp s since epoch (delta_or_snapshot o seq s.version)
found-IsCaughtUp s since seq epoch (some entries) e h = (e, h.0, h.1, refl)
found-IsCaughtUp s since seq epoch none e h = (inr h, refl)

catch_up-from :
    {D : Type 0} (o : Options D) (s : StoreState D) (replica : String) (since : ℕ) (epoch : String)
    → IsLogged o s
    → IsCaughtUp s since epoch (catch_up s replica (some since) epoch)
unfolding catch_up
catch_up-from o s replica since epoch h = elim (Bool-cases (str_eq epoch s.epoch)) [
  | inl e ↦ rw e (
      found-IsCaughtUp s since (seq_of (map_get replica s.replicas)) epoch
        (delta_since (some since) s.version s.log) e
        (delta_since-IsDelta o.delta_log since s.version s.log h))
  | inr e ↦ rw e (inl e, refl)
]

-- Whatever happened to a store whose log was in order, for a replica that comes back with any version
-- and epoch: a delta is the entries of the log after its version, as the log has them, one for each
-- version up to the store's, and for the store's own epoch only; it gets a snapshot only where the
-- epoch is another, the store has not reached the version, or its log does not reach back to it.
pub catch_up-IsCaughtUp :
    {D : Type 0} (o : Options D) (s t : StoreState D) (replica : String) (since : ℕ)
    (epoch : String)
    → Leads o s t
    → IsLogged o s
    → IsCaughtUp t since epoch (catch_up t replica (some since) epoch)
catch_up-IsCaughtUp o s t replica since epoch steps h =
    catch_up-from o t replica since epoch (Leads-IsLogged o s t steps h)
