-- ===== src/Client/Placed.antt =====
-- client/list.js: the key that a record gets for a place.
use lazy_storage.Base.{
  ℕ, ◌≡◌, refl, sym, ◌⊎◌, inl, inr, Option, none, some, List, [], ◌∷◌, ◌++◌, Bool-cases, if_intro,
  take, drop, All, take-append-drop, All-take, All-drop, Result, Returns, ok, err,
}
use lazy_storage.Client.Order.{
  Row, Where, bounds, key_for, insert_row, first_above, index_bounds, ListError, without, sorted,
  sort_rows, last_key, above_or, key_in, or_no_key, bounds_at, index_for, no_record,
}
use lazy_storage.Positions.Keys.{key_between, list_eq}
use lazy_storage.Positions.Digits.{str_lt}
use lazy_storage.Positions.Compare.{compare_positions, Sign, minus, nought, plus}
use lazy_storage.Positions.Promise.{IsBound, InOrder, IsAnswer, key_between-IsAnswer}
use lazy_storage.Positions.Integer.{KeyError}
use lazy_storage.Positions.Compare.{Sign}
use lazy_storage.Client.Splits.{
  index_for-IsIndex, IsNowhere, IsSplit, IsIndex, IsLastKey, last_key-IsLastKey, IsFirstAbove,
  first_above-IsFirstAbove,
}

-- Each record has a position key or none.
abbrev pub AreKeyed : List Row → Type 0
AreKeyed rows = All (λ row. IsBound row.position) rows

insert_row-AreKeyed :
    (row : Row) (rows : List Row)
    → IsBound row.position
    → AreKeyed rows
    → AreKeyed (insert_row row rows)
unfolding insert_row
insert_row-AreKeyed row [] b h = (b, tt)
insert_row-AreKeyed row (r ∷ rows) b h =
    sign_intro (compare_positions row.position row.id r.position r.id) (b, h)
      (h.0, insert_row-AreKeyed row rows b h.1)
  where
    sign_intro :
        (sign : Sign)
        → AreKeyed (row ∷ r ∷ rows)
        → AreKeyed (r ∷ insert_row row rows)
        → AreKeyed (elim sign [
          | minus ↦ row ∷ r ∷ rows
          | nought ↦ row ∷ r ∷ rows
          | plus ↦ r ∷ insert_row row rows
        ])
    sign_intro minus g k = g
    sign_intro nought g k = g
    sign_intro plus g k = k

sort_rows-AreKeyed : (rows : List Row) → AreKeyed rows → AreKeyed (sort_rows rows)
unfolding sort_rows
sort_rows-AreKeyed [] h = tt
sort_rows-AreKeyed (row ∷ rows) h =
    insert_row-AreKeyed row (sort_rows rows) h.0 (sort_rows-AreKeyed rows h.1)

without-AreKeyed :
    (exclude : Option (List ℕ)) (rows : List Row) → AreKeyed rows → AreKeyed (without exclude rows)
unfolding without
without-AreKeyed none rows h = h
without-AreKeyed (some id) [] h = tt
without-AreKeyed (some id) (row ∷ rows) h =
    let rest = without-AreKeyed (some id) rows h.1 in
    if_intro AreKeyed (list_eq row.id id) rest (h.0, rest)

last_key-IsBound : (rows : List Row) → AreKeyed rows → IsBound (last_key rows)
unfolding last_key
last_key-IsBound [] h = tt
last_key-IsBound (row ∷ rows) h = or_IsBound (last_key rows) (last_key-IsBound rows h.1)
  where
    or_IsBound :
        (o : Option (List ℕ))
        → IsBound o
        → IsBound (elim o [ none ↦ row.position | some key ↦ some key ])
    or_IsBound none b = h.0
    or_IsBound (some key) b = b

-- A bound that is above another.
abbrev pub IsUpper : Option (List ℕ) → Option (List ℕ) → Type 0
IsUpper lower upper = IsBound upper × InOrder lower upper

above_or-IsUpper :
    (lower : Option (List ℕ)) (own rest : Option (List ℕ))
    → IsBound own
    → IsUpper lower rest
    → IsUpper lower (above_or lower own rest)
above_or-IsUpper lower none rest b h = h
above_or-IsUpper none (some key) rest b h = (b, tt)
above_or-IsUpper (some l) (some key) rest b h = elim (Bool-cases (str_lt l key)) [
  | inl e ↦ rw e (b, e)
  | inr e ↦ rw e h
]

first_above-IsUpper :
    (lower : Option (List ℕ)) (rows : List Row)
    → AreKeyed rows
    → IsUpper lower (first_above lower rows)
unfolding first_above
first_above-IsUpper none [] h = (tt, tt)
first_above-IsUpper (some l) [] h = (tt, tt)
first_above-IsUpper lower (row ∷ rows) h =
    above_or-IsUpper lower row.position (first_above lower rows) h.0
      (first_above-IsUpper lower rows h.1)

or_no_key-Returns :
    {A : Type 0} (P : A → Type 0) (m : Result KeyError A) → Returns P m → Returns P (or_no_key m)
or_no_key-Returns P (ok a) h = h
or_no_key-Returns P (err e) h = absurd h

-- What comes of a key for a place among entries in order: a throw where there is no such place; otherwise
-- a key for the last key in front of the place and the first above that after it.
abbrev pub IsPlaced : Where → List Row → Result ListError (List ℕ) → Type 0
IsPlaced place entries r =
    (IsNowhere place entries × (r ≡ err no_record))
    ⊎ ((front : List Row) × (back : List Row) × (lower : Option (List ℕ)) × (upper : Option
          (List ℕ))
        × (entries ≡ front ++ back)
        × IsSplit place front back
        × IsLastKey front lower
        × IsFirstAbove lower back upper
        × Returns (IsAnswer lower upper) r)

index-IsPlaced :
    (place : Where) (entries : List Row) (o : Option ℕ)
    → IsIndex place entries o
    → AreKeyed entries
    → IsPlaced place entries (key_in (index_bounds entries o))
unfolding index_bounds bounds_at
index-IsPlaced place entries none nowhere h = inl (nowhere, refl)
index-IsPlaced place entries (some index) split h =
    let front = take index entries in
    let back = drop index entries in
    let lower = last_key front in
    let upper = first_above lower back in
    let bound = last_key-IsBound front (All-take _ index entries h) in
    let (upper_bound, order) = first_above-IsUpper lower back (All-drop _ index entries h) in
    inr (
      front,
      back,
      lower,
      upper,
      sym (take-append-drop index entries),
      split,
      last_key-IsLastKey front,
      first_above-IsFirstAbove lower back,
      or_no_key-Returns (IsAnswer lower upper) (key_between lower upper)
          (key_between-IsAnswer lower upper bound upper_bound order),
    )

-- For records that each have a position key or none, the moved one left out and in order: a place next to
-- a record that is not in the list throws that. Any other place is right before the record of the id,
-- right after it, at the index cut to the list's length, or at the end, and `keyBetween` throws
-- nothing there but returns a key strictly between the last key in front of the place and the first
-- above that key after it, where there are such, a position key but for the least string of all.
pub key_for-IsPlaced :
    (place : Where) (exclude : Option (List ℕ)) (rows : List Row)
    → AreKeyed rows
    → IsPlaced place (sorted exclude rows) (key_for place exclude rows)
unfolding bounds key_for sorted
key_for-IsPlaced place exclude rows h =
    let entries = sorted exclude rows in
    index-IsPlaced place entries (index_for place entries) (index_for-IsIndex place entries)
      (sort_rows-AreKeyed (without exclude rows) (without-AreKeyed exclude rows h))
