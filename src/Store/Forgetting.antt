-- ===== src/Store/Forgetting.antt =====
-- server/store.js: which replicas the allowance and the window leave.
use lazy_storage.Base.{
  String, eq_iff, str_eq, ℕ, zero, suc, ◌≤◌, ◌≡◌, refl, ap, ◌∙◌, inl, inr, false, none, some, List,
  [], ◌∷◌, arith, ltb, Bool-cases, take, path_eq, Map, map_get, map_delete, map_get-map_delete,
  IsDistinct, map_delete-IsDistinct, string_eq,
}
use lazy_storage.Store.State.{Replica}
use lazy_storage.Store.Compact.{unheard}
use lazy_storage.Store.Replicas.{
  sort_by_seen, has_id, unspoken, delete_all, insert_by_seen, seen_of,
}

has_id-insert_by_seen :
    (m : Map String Replica) (id x : String) (xs : List String)
    → str_eq x id ≡ false
    → has_id id xs ≡ false
    → has_id id (insert_by_seen m x xs) ≡ false
unfolding insert_by_seen
has_id-insert_by_seen m id x [] n h = ground (arith, n)
has_id-insert_by_seen m id x (y ∷ ys) n h = ground (arith, n, h, has_id-insert_by_seen m id x ys n)

pub has_id-sort_by_seen :
    (m : Map String Replica) (id : String) (xs : List String)
    → has_id id xs ≡ false
    → has_id id (sort_by_seen m xs) ≡ false
unfolding sort_by_seen
has_id-sort_by_seen m id [] h = refl
has_id-sort_by_seen m id (x ∷ xs) h =
    has_id-insert_by_seen m id x (sort_by_seen m xs) (ground (arith, h))
      (has_id-sort_by_seen m id xs (ground (arith, h)))

pub has_id-take :
    (n : ℕ) (id : String) (xs : List String) → has_id id xs ≡ false → has_id id (take n xs) ≡ false
has_id-take zero id xs h = refl
has_id-take (suc n) id [] h = refl
has_id-take (suc n) id (x ∷ xs) h = ground (arith, h, has_id-take n id xs)

pub has_id-unspoken :
    (id : String) (live xs : List String) → has_id id (unspoken id live xs) ≡ false
unfolding unspoken
has_id-unspoken id live [] = refl
has_id-unspoken id live (x ∷ xs) = ground (arith, has_id-unspoken id live xs)

map_get-delete_all :
    {V : Type 0} (id : String) (ids : List String) (m : Map String V)
    → has_id id ids ≡ false
    → map_get id (delete_all ids m) ≡ map_get id m
unfolding delete_all
map_get-delete_all id [] m h = refl
map_get-delete_all id (x ∷ xs) m h =
    map_get-delete_all id xs (map_delete x m) (ground (arith, h))
    ∙ map_get-map_delete x id m
    ∙ ground (arith, h)

delete_all-IsDistinct :
    {V : Type 0} (ids : List String) (m : Map String V)
    → IsDistinct m
    → IsDistinct (delete_all ids m)
unfolding delete_all
delete_all-IsDistinct [] m h = h
delete_all-IsDistinct (x ∷ xs) m h =
    delete_all-IsDistinct xs (map_delete x m) (map_delete-IsDistinct x m h)

-- A replica's entry, in rows that hold no id twice.
pub record Has (id : String) (entry : Replica) (m : Map String Replica) : Type 0 where
  pub there : map_get id m ≡ some entry
  pub distinct : IsDistinct m

pub Has-delete_all :
    (id : String) (entry : Replica) (ids : List String) (m : Map String Replica)
    → has_id id ids ≡ false
    → Has id entry m
    → Has id entry (delete_all ids m)
Has-delete_all id entry ids m n h = record {
  there = map_get-delete_all id ids m n ∙ h.there;
  distinct = delete_all-IsDistinct ids m h.distinct;
}

has_id-unheard :
    (id : String) (cutoff : ℕ) (m : Map String Replica)
    → map_get id m ≡ none
    → has_id id (unheard cutoff m) ≡ false
unfolding unheard map_get
has_id-unheard id cutoff [] h = refl
has_id-unheard id cutoff ((j, r) ∷ m) h = ground (arith, h, has_id-unheard id cutoff m)

pub unheard-fresh :
    (id : String) (entry : Replica) (cutoff : ℕ) (m : Map String Replica)
    → cutoff ≤ entry.seen
    → Has id entry m
    → has_id id (unheard cutoff m) ≡ false
unfolding unheard map_get
unheard-fresh id entry cutoff [] le h = refl
unheard-fresh id entry cutoff ((j, r) ∷ m) le h = elim (Bool-cases (str_eq j id)) [
  | inl e ↦
      let same = (eq_iff j id).0 e in
      let it : some r ≡ some entry = rw e at h.there in
      let seen : r.seen ≡ entry.seen = ap seen_of it in
      let gone = has_id-unheard id cutoff m (rw same at h.distinct.0) in
      let recent : ltb r.seen cutoff ≡ false = ground (arith, seen, le) in
      ground (arith, recent, gone)
  | inr e ↦
      let rest : map_get id m ≡ some entry = rw e at h.there in
      ground (
        arith,
        e,
        unheard-fresh id entry cutoff m le (record { there = rest; distinct = h.distinct.1 }),
      )
]
