-- ===== src/Doc/Clocks.antt =====
-- core/doc.js: a record's clock, a timestamp per path inside it. A time that the source gives as -1
-- for none is `none`.
use lazy_storage.Base.{
  String, ℕ, Bool, true, false, not, ◌&&◌, ◌||◌, Option, none, some, [], ◌∷◌, ◌++◌, ltb, ◌==◌,
  if◌then◌else◌, KeyPath, path_beq, path_eq, Map, map_get, map_set, map_delete,
}
use lazy_storage.Json.{Value, object, Fields, field, end}
use lazy_storage.Paths.{within}
use lazy_storage.Shape.{Shape, is_register}

pub record Clock : Type 0 where
  pub at : Option ℕ
  pub live : Map KeyPath ℕ
  pub gone : Map KeyPath ℕ

abbrev pub new_clock : Clock
new_clock = record { at = none; live = []; gone = [] }

-- `time > ts`
abbrev pub newer : Option ℕ → ℕ → Bool
newer none ts = false
newer (some t) ts = ltb ts t

abbrev pub latest_of : Option ℕ → Option ℕ → Option ℕ
latest_of none t = t
latest_of (some s) none = some s
latest_of (some s) (some t) = some (if ltb s t then t else s)

-- The loop over a map's times.
unfoldable pub max_entry : Map KeyPath ℕ → Option ℕ → Option ℕ
max_entry [] most = most
max_entry ((key, ts) ∷ m) most = max_entry m (latest_of most (some ts))

unfoldable pub max_of : Option Clock → Option ℕ
unfolding max_entry
max_of none = none
max_of (some clock) = max_entry clock.gone (max_entry clock.live clock.at)

-- A path's own entry, else the record's `at`.
unfoldable pub live_at : Clock → KeyPath → Option ℕ
live_at clock key = elim (map_get key clock.live) [ some ts ↦ some ts | none ↦ clock.at ]

abbrev pub is_time : Option ℕ → ℕ → Bool
is_time none ts = false
is_time (some t) ts = t == ts

unfoldable pub set_live : Clock → KeyPath → ℕ → Clock
set_live clock key ts =
    if is_time clock.at ts
    then record clock { live = map_delete key clock.live }
    else record clock { live = map_set key ts clock.live }

-- Whether a clock's key is at or beneath a path, strictly beneath with `inclusive` false.
unfoldable pub beneath : KeyPath → Bool → KeyPath → Bool
unfolding within
beneath path inclusive key = within key path && (inclusive || not (path_beq key path))

unfoldable pub drop_where : (KeyPath → Bool) → Map KeyPath ℕ → Map KeyPath ℕ
drop_where test [] = []
drop_where test ((key, ts) ∷ m) =
    let rest = drop_where test m in if test key then rest else (key, ts) ∷ rest

unfoldable pub drop_beneath : Clock → KeyPath → Bool → Bool → Clock
unfolding drop_where beneath
drop_beneath clock path inclusive false =
    if inclusive
    then record clock { live = map_delete path clock.live; gone = map_delete path clock.gone }
    else clock
drop_beneath clock path inclusive true = record clock {
  live = drop_where (beneath path inclusive) clock.live;
  gone = drop_where (beneath path inclusive) clock.gone;
}

unfoldable pub any_newer : (KeyPath → Bool) → ℕ → Map KeyPath ℕ → Bool
any_newer test ts [] = false
any_newer test ts ((key, t) ∷ m) = ltb ts t && test key || any_newer test ts m

unfoldable pub newer_beneath : Clock → KeyPath → ℕ → Bool
unfolding any_newer beneath
newer_beneath clock path ts =
    newer clock.at ts
    || any_newer (beneath path false) ts clock.live
    || any_newer (beneath path false) ts clock.gone

-- The loop of the 'stale' check over the containers above a path, the record first.
unfoldable pub stale_from : Clock → KeyPath → KeyPath → ℕ → Bool
unfolding live_at
stale_from clock above [] ts = false
stale_from clock above (seg ∷ rest) ts =
    newer (live_at clock above) ts || stale_from clock (above ++ seg ∷ []) rest ts

-- `stamp` inside a record: an entry for the path, and for each path in a container that is no register.
unfoldable mutual
  unfolding set_live

  pub stamp : Shape → String → Option String → KeyPath → Value → ℕ → Clock → Clock
  stamp sh c id path (object fs) ts clock =
      if is_register sh c id path
      then set_live clock path ts
      else stamp_fields sh c id path fs ts (set_live clock path ts)
  stamp sh c id path _ ts clock = set_live clock path ts

  pub stamp_fields : Shape → String → Option String → KeyPath → Fields → ℕ → Clock → Clock
  stamp_fields sh c id path end ts clock = clock
  stamp_fields sh c id path (field key v fs) ts clock =
      stamp_fields sh c id path fs ts (stamp sh c id (path ++ key ∷ []) v ts clock)

-- `stamp` at the record itself.
abbrev pub stamp_record : ℕ → Clock
stamp_record ts = record { at = some ts; live = []; gone = [] }
