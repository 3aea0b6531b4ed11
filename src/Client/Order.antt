-- ===== src/Client/Order.antt =====
-- client/list.js: the list in order, and where a record goes. Of a record the list reads and writes
-- the position; the others of its fields are not modelled. The container is there, its rows in the
-- order of its keys. Strings are lists of character codes.
use lazy_storage.Base.{
  ℕ, suc, Bool, true, false, ◌&&◌, Option, none, some, List, [], ◌∷◌, ltb, if◌then◌else◌, length,
  take, drop, Result, ◌>>=◌, ok, err,
}
use lazy_storage.Positions.Digits.{str_lt}
use lazy_storage.Positions.Keys.{key_between, list_eq}
use lazy_storage.Clock.{ℤ, pos, negsuc}
use lazy_storage.Positions.Compare.{compare_positions, minus, nought, plus}
use lazy_storage.Positions.Integer.{KeyError}
use lazy_storage.Positions.Compare.{compare_positions}

pub record Row : Type 0 where
  pub id : List ℕ
  pub position : Option (List ℕ)

-- Where a record is to go: `{ before }`, `{ after }`, `{ at }`, or the end.
pub data Where : Type 0 where
  before_id after_id : List ℕ → Where
  at_index : ℤ → Where
  at_end : Where

-- The array's `sort` by `comparePositions`, which keeps the order of equals.
unfoldable pub insert_row : Row → List Row → List Row
insert_row row [] = row ∷ []
insert_row row (r ∷ rows) =
    let rest = insert_row row rows in
    elim (compare_positions row.position row.id r.position r.id) [
      | minus ↦ row ∷ r ∷ rows
      | nought ↦ row ∷ r ∷ rows
      | plus ↦ r ∷ rest
    ]

unfoldable pub sort_rows : List Row → List Row
sort_rows [] = []
sort_rows (row ∷ rows) = insert_row row (sort_rows rows)

unfoldable pub without : Option (List ℕ) → List Row → List Row
without none rows = rows
without (some id) [] = []
without (some id) (row ∷ rows) =
    let rest = without (some id) rows in if list_eq row.id id then rest else row ∷ rest

-- `sorted(exclude)`
unfoldable pub sorted : Option (List ℕ) → List Row → List Row
sorted exclude rows = sort_rows (without exclude rows)

abbrev pub after_first : Option ℕ → Option ℕ
after_first none = none
after_first (some n) = some (suc n)

unfoldable pub find_index : List ℕ → List Row → Option ℕ
find_index id [] = none
find_index id (row ∷ rows) =
    let rest = find_index id rows in if list_eq row.id id then some 0 else after_first rest

-- `Math.max(0, Math.min(length, at))`
abbrev pub index_within : ℕ → ℤ → ℕ
index_within most (pos n) = if ltb most n then most else n
index_within most (negsuc n) = 0

-- The index a record goes to; `none` where it names a record that is not there.
unfoldable pub index_for : Where → List Row → Option ℕ
index_for (before_id id) entries = find_index id entries
index_for (after_id id) entries = after_first (find_index id entries)
index_for (at_index n) entries = some (index_within (length entries) n)
index_for at_end entries = some (length entries)

-- The last key of the entries, and the first that is above a lower one.
unfoldable pub last_key : List Row → Option (List ℕ)
last_key [] = none
last_key (row ∷ rows) = elim (last_key rows) [ none ↦ row.position | some key ↦ some key ]

abbrev pub is_above : Option (List ℕ) → List ℕ → Bool
is_above none key = true
is_above (some lower) key = str_lt lower key

abbrev pub above_or : Option (List ℕ) → Option (List ℕ) → Option (List ℕ) → Option (List ℕ)
above_or lower none rest = rest
above_or lower (some key) rest = if is_above lower key then some key else rest

unfoldable pub first_above : Option (List ℕ) → List Row → Option (List ℕ)
first_above lower [] = none
first_above lower (row ∷ rows) = above_or lower row.position (first_above lower rows)

-- The keys on either side of an index.
unfoldable pub bounds_at : ℕ → List Row → Option (List ℕ) × Option (List ℕ)
bounds_at index entries =
    let lower = last_key (take index entries) in (lower, first_above lower (drop index entries))

-- What a list throws: it has no record of the id, or the keys leave no place.
pub data ListError : Type 0 where
  no_record : ListError
  no_key : KeyError → ListError

unfoldable pub index_bounds :
    List Row → Option ℕ → Result ListError (Option (List ℕ) × Option (List ℕ))
index_bounds entries none = err no_record
index_bounds entries (some index) = ok (bounds_at index entries)

unfoldable pub bounds :
    Where → Option (List ℕ) → List Row → Result ListError (Option (List ℕ) × Option (List ℕ))
bounds place exclude rows =
    let entries = sorted exclude rows in index_bounds entries (index_for place entries)

abbrev pub or_no_key : {A : Type 0} → Result KeyError A → Result ListError A
or_no_key (ok a) = ok a
or_no_key (err e) = err (no_key e)

abbrev pub key_in : Result ListError (Option (List ℕ) × Option (List ℕ)) → Result ListError (List ℕ)
key_in (ok (lower, upper)) = or_no_key (key_between lower upper)
key_in (err e) = err e

-- `keyFor`, and what `add` and `move` write: the key of a record for a place, itself left out.
unfoldable pub key_for : Where → Option (List ℕ) → List Row → Result ListError (List ℕ)
key_for place exclude rows = key_in (bounds place exclude rows)

-- `map[id] = ...`
unfoldable pub set_row : Row → List Row → List Row
set_row row [] = row ∷ []
set_row row (r ∷ rows) = if list_eq r.id row.id then row ∷ rows else r ∷ set_row row rows

unfoldable pub add_row : List ℕ → Where → List Row → Result ListError (List Row)
add_row id place rows = do
  key ← key_for place (some id) rows
  ok (set_row (record { id = id; position = some key }) rows)

unfoldable pub row_at : List ℕ → List Row → Option Row
row_at id [] = none
row_at id (row ∷ rows) = let rest = row_at id rows in if list_eq row.id id then some row else rest

-- Whether a key is between two bounds already.
abbrev pub is_between : Option (List ℕ) → Option (List ℕ) → Option (List ℕ) → Bool
is_between none lower upper = false
is_between (some key) lower upper =
    is_above lower key && elim upper [ none ↦ true | some u ↦ str_lt key u ]

-- `move`: false when there is no such record.
unfoldable pub move_row : List ℕ → Where → List Row → Result ListError (List Row × Bool)
move_row id place rows = elim (row_at id rows) [
  | none ↦ ok (rows, false)
  | some row ↦ (do
    (lower, upper) ← bounds place (some id) rows
    let written = do
      key ← or_no_key (key_between lower upper)
      ok (set_row (record row { position = some key }) rows, true)
    if is_between row.position lower upper then ok (rows, true) else written)
]
