-- ===== src/Registry.antt =====
-- server/registry.js, and `isStoreId` of core/ids.js: many stores per server. Of a store the registry
-- reads whether it is disposed and how many sessions it has; both change from outside. `factory` is
-- the server's own function. Without an idle time no sweep runs by itself; `idle` is `none` then.
use lazy_storage.Base.{
  String, ℕ, zero, suc, ◌+◌, Bool, true, false, ◌&&◌, ◌||◌, Option, none, some, List, [], ◌∷◌, ◌++◌,
  ltb, leb, ◌==◌, if◌then◌else◌, is_there, path_eq, Map, map_get, map_set, map_delete, string_eq,
}
use Prim.Native.Char.{Char, code}
pub mod Idle
pub mod Reach

abbrev pub between : ℕ → ℕ → ℕ → Bool
between low n high = leb low n && leb n high

-- `[A-Za-z0-9]` and `[A-Za-z0-9._~-]`
abbrev pub is_alphanumeric : ℕ → Bool
is_alphanumeric n = between 48 n 57 || between 65 n 90 || between 97 n 122

abbrev pub is_id_char : ℕ → Bool
is_id_char n = is_alphanumeric n || n == 46 || n == 95 || n == 126 || n == 45

-- At most so many more characters, all of an id.
unfoldable pub id_rest : ℕ → String → Bool
id_rest n String.[] = true
id_rest zero (String.◌∷◌ c cs) = false
id_rest (suc n) (String.◌∷◌ c cs) = is_id_char (code c) && id_rest n cs

unfoldable pub is_store_id : String → Bool
is_store_id String.[] = false
is_store_id (String.◌∷◌ c cs) = is_alphanumeric (code c) && id_rest 127 cs

pub record Store : Type 0 where
  pub sessions : ℕ
  pub disposed : Bool

-- `idle_since`: when a store was last seen without sessions.
pub record Stores : Type 0 where
  pub live : Map String Store
  pub idle_since : Map String ℕ

abbrev pub no_stores : Stores
no_stores = record { live = []; idle_since = [] }

abbrev pub touch : String → Stores → Stores
touch id stores = record stores { idle_since = map_delete id stores.idle_since }

-- A store made by the factory, unless it refuses the id.
unfoldable pub made : String → Option Store → Stores → Stores × Option Store
made id none stores = (stores, none)
made id (some store) stores = (record stores { live = map_set id store stores.live }, some store)

-- The live store, unless it unloaded itself.
unfoldable pub get_live :
    (String → Option Store) → String → Option Store → Stores → Stores × Option Store
get_live factory id none stores = made id (factory id) stores
get_live factory id (some store) stores =
    if store.disposed then made id (factory id) stores else (stores, some store)

unfoldable pub get : (String → Option Store) → String → Stores → Stores × Option Store
get factory id stores =
    if is_store_id id
    then get_live factory id (map_get id stores.live) (touch id stores)
    else (stores, none)

abbrev pub forget : String → Stores → Stores
forget id stores = record {
  live = map_delete id stores.live;
  idle_since = map_delete id stores.idle_since;
}

-- The store let go of; it is disposed, and no more the registry's.
unfoldable pub release : String → Stores → Stores × Bool
release id stores =
    if is_there (map_get id stores.live) then (forget id stores, true) else (stores, false)

-- What `restore` throws, and where the store's own `restore` goes on.
pub data Restored : Type 0 where
  not_a_document unknown_store : Restored
  handed_over : Store → Restored

unfoldable pub restore_in : String → Stores × Option Store → Stores × Restored
restore_in id (stores, none) = (stores, unknown_store)
restore_in id (stores, some store) = (forget id stores, handed_over store)

-- `is_document` is what `assertDocument` found.
unfoldable pub restore : (String → Option Store) → Bool → String → Stores → Stores × Restored
restore factory is_document id stores =
    if is_document then restore_in id (get factory id stores) else (stores, not_a_document)

-- `idleSince.get(id) ?? wall`
abbrev pub since_or : ℕ → Option ℕ → ℕ
since_or wall none = wall
since_or wall (some since) = since

-- `wall - since >= idle`, which holds for no store that was seen later than `wall`.
abbrev pub long_idle : Option ℕ → ℕ → ℕ → Bool
long_idle none wall since = false
long_idle (some n) wall since = leb (since + n) wall

abbrev pub seen_since : String → ℕ → Stores → Stores
seen_since id since stores = record stores { idle_since = map_set id since stores.idle_since }

-- A store without sessions, at the end of its time or not.
unfoldable pub end_or_keep : Bool → String → Stores × List String → Stores × List String
end_or_keep true id (stores, released) = ((release id stores).0, released ++ id ∷ [])
end_or_keep false id (stores, released) = (stores, released)

-- One store of a sweep.
unfoldable pub sweep_store :
    Option ℕ → ℕ → String → Store → Stores × List String → Stores × List String
sweep_store idle wall id store (stores, released) =
    let since = since_or wall (map_get id stores.idle_since) in
    if ltb 0 store.sessions
    then (touch id stores, released)
    else end_or_keep (long_idle idle wall since) id (seen_since id since stores, released)

-- The loop over the stores as they were when the sweep began.
unfoldable pub sweep_all :
    Option ℕ → ℕ → Map String Store → Stores × List String → Stores × List String
sweep_all idle wall [] st = st
sweep_all idle wall ((id, store) ∷ m) st = sweep_all idle wall m (sweep_store idle wall id store st)

unfoldable pub sweep : Option ℕ → ℕ → Stores → Stores × List String
sweep idle wall stores = sweep_all idle wall stores.live (stores, [])

unfoldable pub release_all : Map String Store → Stores → Stores
release_all [] stores = stores
release_all ((id, store) ∷ m) stores = release_all m (release id stores).0

unfoldable pub dispose : Stores → Stores
dispose stores = release_all stores.live stores

abbrev pub has : String → Stores → Bool
has id stores = is_there (map_get id stores.live)
