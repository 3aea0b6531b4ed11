-- ===== src/Client/Wanted.antt =====
-- client/list.js, `reconcile`: the order that is wanted, and the list after it.
use lazy_storage.Base.{
  ℕ, Bool, false, not, ◌&&◌, ◌||◌, Option, none, some, List, [], ◌∷◌, ◌++◌, map, ◌==◌,
  if◌then◌else◌, is_there, length, Result, ◌>>=◌, ok,
}
use lazy_storage.Client.Order.{Row, row_at, set_row, sorted}
use lazy_storage.Client.Slots.{reconcile_keys}
use lazy_storage.Positions.Keys.{list_eq}
use lazy_storage.Positions.Integer.{KeyError}

abbrev pub has_key : List ℕ → List (List ℕ) → Bool
has_key id [] = false
has_key id (x ∷ xs) = list_eq x id || has_key id xs

-- The ids of records that are there, each once.
unfoldable pub listed : List Row → List (List ℕ) → List (List ℕ) → List (List ℕ)
listed rows seen [] = []
listed rows seen (id ∷ ids) =
    let rest = listed rows seen ids in
    let more = listed rows (id ∷ seen) ids in
    if not (has_key id seen) && is_there (row_at id rows) then id ∷ more else rest

unfoldable pub unlisted : List (List ℕ) → List Row → List (List ℕ)
unlisted seen [] = []
unlisted seen (row ∷ rows) =
    let rest = unlisted seen rows in if has_key row.id seen then rest else row.id ∷ rest

-- The ids given, then the others in their order.
unfoldable pub wanted_order : List (List ℕ) → List Row → List (List ℕ)
wanted_order ids rows =
    let given = listed rows [] ids in
    if length rows == length given then given else given ++ unlisted given (sorted none rows)

abbrev pub position_of : Option Row → Option (List ℕ)
position_of none = none
position_of (some row) = row.position

-- The keys written, each to its record.
unfoldable pub write_keys : List (List ℕ) → List (List ℕ) → List Row → List Row
write_keys [] keys rows = rows
write_keys (id ∷ ids) [] rows = rows
write_keys (id ∷ ids) (key ∷ keys) rows =
    write_keys ids keys (set_row (record { id = id; position = some key }) rows)

-- The list after it, and how many keys are new.
unfoldable pub reconcile : List (List ℕ) → List Row → Result KeyError (List Row × ℕ)
reconcile ids rows = do
  let order = wanted_order ids rows
  (made, written) ← reconcile_keys (map (λ id. position_of (row_at id rows)) order)
  ok (write_keys order made rows, written)
