-- ===== src/Client/Splits.antt =====
-- client/list.js: where a place parts the entries of a list, and the keys next to there.
use lazy_storage.Base.{
  ℕ, suc, ◌<◌, ◌≡◌, refl, ap, ◌⊎◌, inl, inr, true, Option, none, some, List, [], ◌∷◌, ◌++◌, arith,
  ltb, Bool-cases, length, take, drop, All, length-take_of_le,
}
use lazy_storage.Clock.{pos, negsuc}
use lazy_storage.Client.Order.{
  Row, Where, find_index, index_for, last_key, first_above, above_or, after_first, before_id,
  after_id, is_above, at_index, at_end,
}
use lazy_storage.Positions.Valid.{list_eq_iff}
use lazy_storage.Positions.Digits.{str_lt}
use lazy_storage.Positions.Keys.{list_eq}

abbrev pub Lacks : List ℕ → List Row → Type 0
Lacks id rows = All (λ (row : Row). row.id ≡ id → ⊥) rows

-- What is in front of a place and what comes after it: the record that is named is the first of that id;
-- an index is cut to what there is.
abbrev pub IsSplit : Where → List Row → List Row → Type 0
IsSplit (before_id id) front back =
    (row : Row) × (rest : List Row) × (back ≡ row ∷ rest) × (row.id ≡ id) × Lacks id front
IsSplit (after_id id) front back =
    (init : List Row) × (row : Row) × (front ≡ init ++ row ∷ []) × (row.id ≡ id) × Lacks id init
IsSplit (at_index (pos n)) front back = (length front ≡ n) ⊎ ((length front < n) × (back ≡ []))
IsSplit (at_index (negsuc n)) front back = front ≡ []
IsSplit at_end front back = back ≡ []

-- A place next to a record that is not there.
abbrev pub IsNowhere : Where → List Row → Type 0
IsNowhere (before_id id) entries = Lacks id entries
IsNowhere (after_id id) entries = Lacks id entries
IsNowhere (at_index n) entries = ⊥
IsNowhere at_end entries = ⊥

-- The last of the rows' keys, `none` where they have none.
abbrev pub IsLastKey : List Row → Option (List ℕ) → Type 0
IsLastKey rows none = All (λ (row : Row). row.position ≡ none) rows
IsLastKey rows (some key) =
    (front : List Row) × (row : Row) × (back : List Row) × (rows ≡ front ++ row ∷ back)
    × (row.position ≡ some key)
    × All (λ (r : Row). r.position ≡ none) back

abbrev pub IsAbove : Option (List ℕ) → List ℕ → Type 0
IsAbove none key = Unit
IsAbove (some lower) key = str_lt lower key ≡ true

-- No key above the lower one.
abbrev pub IsSkipped : Option (List ℕ) → Row → Type 0
IsSkipped lower row = (key : List ℕ) → row.position ≡ some key → IsAbove lower key → ⊥

-- The first of the rows' keys above the lower one, `none` where there is none.
abbrev pub IsFirstAbove : Option (List ℕ) → List Row → Option (List ℕ) → Type 0
IsFirstAbove lower rows none = All (IsSkipped lower) rows
IsFirstAbove lower rows (some key) =
    (front : List Row) × (row : Row) × (back : List Row) × (rows ≡ front ++ row ∷ back)
    × (row.position ≡ some key)
    × IsAbove lower key
    × All (IsSkipped lower) front

IsLastKey-cons :
    (row : Row) (rows : List Row) (o : Option (List ℕ))
    → IsLastKey rows o
    → IsLastKey (row ∷ rows) (elim o [ none ↦ row.position | some key ↦ some key ])
IsLastKey-cons row rows (some key) (front, it, back, e, k, h) =
    (row ∷ front, it, back, ap (◌∷◌ row) e, k, h)
IsLastKey-cons row rows none h = own row.position refl
  where
    own : (o : Option (List ℕ)) → row.position ≡ o → IsLastKey (row ∷ rows) o
    own none e = (e, h)
    own (some key) e = ([], row, rows, refl, e, h)

pub last_key-IsLastKey : (rows : List Row) → IsLastKey rows (last_key rows)
unfolding last_key
last_key-IsLastKey [] = tt
last_key-IsLastKey (row ∷ rows) = IsLastKey-cons row rows (last_key rows) (last_key-IsLastKey rows)

is_above-IsAbove :
    (lower : Option (List ℕ)) (key : List ℕ) → is_above lower key ≡ true → IsAbove lower key
is_above-IsAbove none key h = tt
is_above-IsAbove (some l) key h = h

IsAbove-is_above :
    (lower : Option (List ℕ)) (key : List ℕ) → IsAbove lower key → is_above lower key ≡ true
IsAbove-is_above none key h = refl
IsAbove-is_above (some l) key h = h

skipping :
    (lower : Option (List ℕ)) (row : Row) (rows : List Row) (o : Option (List ℕ))
    → IsSkipped lower row
    → IsFirstAbove lower rows o
    → IsFirstAbove lower (row ∷ rows) o
skipping lower row rows none skipped h = (skipped, h)
skipping lower row rows (some key) skipped (front, it, back, e, k, a, h) =
    (row ∷ front, it, back, ap (◌∷◌ row) e, k, a, (skipped, h))

above_or-IsFirstAbove :
    (lower : Option (List ℕ)) (row : Row) (rows : List Row) (own rest : Option (List ℕ))
    → row.position ≡ own
    → IsFirstAbove lower rows rest
    → IsFirstAbove lower (row ∷ rows) (above_or lower own rest)
above_or-IsFirstAbove lower row rows none rest e h = skipping lower row rows rest (λ key k a. cc) h
above_or-IsFirstAbove lower row rows (some own) rest e h = elim (Bool-cases (is_above lower own)) [
  | inl t ↦ rw t ([], row, rows, refl, e, is_above-IsAbove lower own t, tt)
  | inr t ↦ rw t (
      skipping lower row rows rest
        (λ key k a.
          let same : own ≡ key = ground (arith, e, k) in
          let is : is_above lower own ≡ true = rw same (IsAbove-is_above lower key a) in cc)
        h)
]

pub first_above-IsFirstAbove :
    (lower : Option (List ℕ)) (rows : List Row) → IsFirstAbove lower rows (first_above lower rows)
unfolding first_above
first_above-IsFirstAbove lower [] = tt
first_above-IsFirstAbove lower (row ∷ rows) =
    above_or-IsFirstAbove lower row rows row.position (first_above lower rows) refl
      (first_above-IsFirstAbove lower rows)

-- The first row of an id, at an index.
abbrev IsFound : List ℕ → List Row → Option ℕ → Type 0
IsFound id entries none = Lacks id entries
IsFound id entries (some n) =
    (row : Row) × (rest : List Row) × (drop n entries ≡ row ∷ rest)
    × (take (suc n) entries ≡ take n entries ++ row ∷ [])
    × (row.id ≡ id)
    × Lacks id (take n entries)

after_first-IsFound :
    (id : List ℕ) (row : Row) (rows : List Row) (o : Option ℕ)
    → (row.id ≡ id → ⊥)
    → IsFound id rows o
    → IsFound id (row ∷ rows) (after_first o)
after_first-IsFound id row rows none other h = (other, h)
after_first-IsFound id row rows (some n) other (it, rest, d, t, e, h) =
    (it, rest, d, ap (◌∷◌ row) t, e, (other, h))

find_index-IsFound : (id : List ℕ) (entries : List Row) → IsFound id entries (find_index id entries)
unfolding find_index
find_index-IsFound id [] = tt
find_index-IsFound id (row ∷ rows) = elim (Bool-cases (list_eq row.id id)) [
  | inl e ↦ rw e (row, rows, refl, refl, (list_eq_iff row.id id).0 e, tt)
  | inr e ↦ rw e (
      after_first-IsFound id row rows (find_index id rows)
        (λ same. let is : list_eq row.id id ≡ true = (list_eq_iff row.id id).1 same in cc)
        (find_index-IsFound id rows))
]

drop_all : (rows : List Row) → drop (length rows) rows ≡ []
drop_all [] = refl
drop_all (row ∷ rows) = drop_all rows

-- An index that a place has, or none.
abbrev pub IsIndex : Where → List Row → Option ℕ → Type 0
IsIndex place entries none = IsNowhere place entries
IsIndex place entries (some n) = IsSplit place (take n entries) (drop n entries)

before-IsIndex :
    (id : List ℕ) (entries : List Row) (o : Option ℕ)
    → IsFound id entries o
    → IsIndex (before_id id) entries o
before-IsIndex id entries none h = h
before-IsIndex id entries (some n) (row, rest, d, t, e, h) = (row, rest, d, e, h)

after-IsIndex :
    (id : List ℕ) (entries : List Row) (o : Option ℕ)
    → IsFound id entries o
    → IsIndex (after_id id) entries (after_first o)
after-IsIndex id entries none h = h
after-IsIndex id entries (some n) (row, rest, d, t, e, h) = (take n entries, row, t, e, h)

pub index_for-IsIndex :
    (place : Where) (entries : List Row) → IsIndex place entries (index_for place entries)
unfolding index_for
index_for-IsIndex (before_id id) entries =
    before-IsIndex id entries (find_index id entries) (find_index-IsFound id entries)
index_for-IsIndex (after_id id) entries =
    after-IsIndex id entries (find_index id entries) (find_index-IsFound id entries)
index_for-IsIndex (at_index (pos n)) entries = elim (Bool-cases (ltb (length entries) n)) [
  | inl e ↦
      let all = length-take_of_le (length entries) entries (omega arith) in
      rw e (inr (rw all (ground (arith, e)), drop_all entries))
  | inr e ↦ rw e (inl (length-take_of_le n entries (ground (arith, e))))
]
index_for-IsIndex (at_index (negsuc n)) entries = refl
index_for-IsIndex at_end entries = drop_all entries
