-- ===== src/Store/Log.antt =====
-- server/store.js: the log of what landed last, and the deltas that it gives.
use lazy_storage.Base.{
  ℕ, ◌+◌, ◌-◌, Option, none, some, List, [], ◌∷◌, ◌++◌, ltb, ◌==◌, if◌then◌else◌, length, drop,
}
use lazy_storage.Store.State.{Entry}

-- `log.push(entry)`, and the log cut to its last `most` entries.
unfoldable pub push_entry : ℕ → Entry → List Entry → List Entry
push_entry most entry log = let longer = log ++ entry ∷ [] in drop (length longer - most) longer

abbrev pub first_version : ℕ → List Entry → ℕ
first_version version [] = version
first_version version (entry ∷ log) = entry.v

-- `log.findIndex(entry => entry.v > since)`, and the log from there.
unfoldable pub after_version : ℕ → List Entry → List Entry
after_version since [] = []
after_version since (entry ∷ log) =
    let rest = after_version since log in if ltb since entry.v then entry ∷ log else rest

-- `none` for nothing found, or for a first entry that does not follow.
unfoldable pub following : ℕ → List Entry → Option (List Entry)
following since [] = none
following since (entry ∷ log) = if entry.v == since + 1 then some (entry ∷ log) else none

-- The log after a version, where it reaches back that far. `since` is `none` where what a client sent
-- is no whole number.
unfoldable pub delta_since : Option ℕ → ℕ → List Entry → Option (List Entry)
delta_since none version log = none
delta_since (some since) version log =
    if ltb version since
    then none
    else if since == version
    then some []
    else following since (after_version since log)
