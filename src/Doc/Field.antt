-- ===== src/Doc/Field.antt =====
-- core/doc.js: the steps of `run` for a plain value set at a field of a record.
use lazy_storage.Base.{
  String, ℕ, ◌≡◌, refl, inl, inr, true, false, ◌&&◌, Option, none, some, [], ◌∷◌, arith,
  if◌then◌else◌, Bool-cases, Option-cases, KeyPath, path_beq_iff, path_eq, map_get, map_delete,
  map_get-map_set, map_get-map_delete,
}
use lazy_storage.Doc.Enter.{enter, value_in, enter_parent, make_record, parent_there, entered}
use lazy_storage.Doc.Run.{run_write, settled, run_step}
use lazy_storage.Doc.Inside.{
  set_there, current, orphans, write_path, after_write, write_entered, write_inside, outdated,
  reindex, write_value,
}
use lazy_storage.Doc.Clocks.{Clock, set_live, drop_beneath, stale_from, newer, live_at, is_time}
use lazy_storage.Doc.Whole.{orphaned, names_missing}
use lazy_storage.Doc.Call.{Call, St, writes_put, found, done, judging, key_of, losing, object_there}
use lazy_storage.Doc.State.{Doc, make_clock, clock_at, clock_of, put_clock, relink, put_value, get}
use lazy_storage.Json.{
  Value, Fields, get_field, is_object, object, set_field, boolean, number, string, array, null,
  other,
}
use lazy_storage.Paths.{value_at, update_at}
use lazy_storage.Shape.{parents_of}
use lazy_storage.Doc.Remove.{Out, newer_there}

-- The record of a call holds fields with a clock; what is at the field is no container, and the
-- record is not younger than the call. Its collection is no child of another.
pub record FieldAt (k : Call) (seg : String) (d : Doc) (fs : Fields) (clock : Clock) : Type 0 where
  pub row : found k d ≡ some (object fs)
  pub times : clock_of d (key_of k) ≡ some clock
  pub leaf : object_there (get_field seg fs) ≡ false
  pub born : newer (live_at clock []) k.ts ≡ false
  pub alone : parents_of k.sh.links k.c ≡ []

enter-field :
    (k : Call) (seg : String) (d : Doc) (fs : Fields) (clock : Clock) (out : Out)
    → FieldAt k seg d fs clock
    → enter k (seg ∷ []) (d, out) ≡ entered (d, out)
unfolding enter enter_parent make_record make_clock parent_there value_in value_at clock_at
    stale_from
enter-field k seg d fs clock out f = ground (arith, f.row, f.times, f.born)

pub current-field :
    (k : Call) (seg : String) (d : Doc) (fs : Fields) (clock : Clock)
    → FieldAt k seg d fs clock
    → current k d (seg ∷ []) ≡ get_field seg fs
unfolding current value_in value_at
current-field k seg d fs clock f = ground (arith, f.row)

orphans-alone :
    (k : Call) (seg : String) (d : Doc) (v : Value)
    → parents_of k.sh.links k.c ≡ []
    → orphans k d (seg ∷ []) v ≡ false
unfolding orphans orphaned names_missing
orphans-alone k seg d v h = rw h refl

pub write_path-field :
    (k : Call) (seg : String) (v : Value) (d : Doc) (fs : Fields) (clock : Clock) (out : Out)
    → FieldAt k seg d fs clock
    → is_object v ≡ false
    → write_path k (seg ∷ []) v (d, out)
      ≡ done (
          if judging k.mode && outdated k d (seg ∷ [])
          then losing k (seg ∷ []) newer_there (d, out)
          else set_there k (seg ∷ []) v (d, out))
unfolding write_path after_write write_entered write_inside writes_put
write_path-field k seg v d fs clock out f plain =
    rw (enter-field k seg d fs clock out f, orphans-alone k seg d v f.alone, plain)
      (elim (Bool-cases (judging k.mode && outdated k d (seg ∷ []))) [
        | inl e ↦ ground arith
        | inr e ↦ ground arith
      ])

-- The clock of a record after a field was set.
abbrev pub clock_set : Clock → String → ℕ → Clock
clock_set clock seg ts = set_live (drop_beneath clock (seg ∷ []) true false) (seg ∷ []) ts

reindex-alone :
    (k : Call) (seg : String) (d : Doc)
    → parents_of k.sh.links k.c ≡ []
    → reindex k (seg ∷ []) d ≡ d
unfolding reindex relink
reindex-alone k seg d h = rw h refl

write_value-field :
    (k : Call) (seg : String) (v : Value) (d : Doc) (fs : Fields) (clock : Clock)
    → FieldAt k seg d fs clock
    → write_value k (seg ∷ []) v d ≡ put_value (key_of k) (object (set_field seg v fs)) d
unfolding write_value update_at
write_value-field k seg v d fs clock f = rw f.row refl

row-put_clock :
    (k : Call) (v : Value) (clock now : Clock) (d : Doc)
    → clock_of d (key_of k) ≡ some clock
    → (found k (put_clock (key_of k) now (put_value (key_of k) v d)) ≡ some v)
      × (clock_of (put_clock (key_of k) now (put_value (key_of k) v d)) (key_of k) ≡ some now)
unfolding put_clock put_value clock_of get
row-put_clock k v clock now d h = elim (Option-cases d.clocks) [
  | inl e ↦ absurd (ground arith)
  | inr (m, e) ↦ ground (
    arith,
    map_get-map_set (key_of k) (key_of k) v d.state,
    map_get-map_set (key_of k) (key_of k) now m,
    path_beq_iff (key_of k) (key_of k),
  )
]

pub clock_at-field :
    (k : Call) (seg : String) (d : Doc) (fs : Fields) (clock : Clock)
    → FieldAt k seg d fs clock
    → clock_at d (key_of k) ≡ clock
unfolding clock_at
clock_at-field k seg d fs clock f = ground (arith, f.times)

pub set_there-field :
    (k : Call) (seg : String) (v : Value) (d : Doc) (fs : Fields) (clock : Clock) (out : Out)
    → FieldAt k seg d fs clock
    → is_object v ≡ false
    → let e = (set_there k (seg ∷ []) v (d, out)).0 in
      (found k e ≡ some (object (set_field seg v fs)))
      × (clock_of e (key_of k) ≡ some (clock_set clock seg k.ts))
unfolding set_there
set_there-field k seg v d fs clock out f plain =
    rw
      (
        write_value-field k seg v d fs clock f,
        current-field k seg d fs clock f,
        f.leaf,
        clock_at-field k seg d fs clock f,
      )
      (rw
        (reindex-alone k seg
          (put_clock (key_of k) (clock_set clock seg k.ts)
            (put_value (key_of k) (object (set_field seg v fs)) d))
          f.alone)
        (row-put_clock k (object (set_field seg v fs)) clock (clock_set clock seg k.ts) d f.times))

pub run_write-plain :
    (k : Call) (path : KeyPath) (v : Value) (st : St)
    → is_object v ≡ false
    → run_write k path v st ≡ settled (run_step k path v st)
unfolding run_write
run_write-plain k path (object fs) st h = absurd (cc)
run_write-plain k path null st h = refl
run_write-plain k path (boolean b) st h = refl
run_write-plain k path (number n) st h = refl
run_write-plain k path (string s) st h = refl
run_write-plain k path (array vs) st h = refl
run_write-plain k path other st h = refl

is_time-eq : (time : Option ℕ) (ts : ℕ) → is_time time ts ≡ true → time ≡ some ts
is_time-eq none ts h = absurd (ground arith)
is_time-eq (some t) ts h = ground arith

pub live_at-clock_set :
    (clock : Clock) (seg : String) (ts : ℕ) → live_at (clock_set clock seg ts) (seg ∷ []) ≡ some ts
unfolding live_at set_live drop_beneath
live_at-clock_set clock seg ts =
    let path : KeyPath = seg ∷ [] in
    let live = map_delete path clock.live in
    elim (Bool-cases (is_time clock.at ts)) [
      | inl e ↦ ground (
        arith,
        is_time-eq clock.at ts e,
        map_get-map_delete path path live,
        path_beq_iff path path,
      )
      | inr e ↦ ground (arith, map_get-map_set path path ts live, path_beq_iff path path)
    ]

pub live_at-clock_set_root :
    (clock : Clock) (seg : String) (ts : ℕ) → live_at (clock_set clock seg ts) [] ≡ live_at clock []
unfolding live_at set_live drop_beneath
live_at-clock_set_root clock seg ts =
    let path : KeyPath = seg ∷ [] in
    let live = map_delete path clock.live in
    elim (Bool-cases (is_time clock.at ts)) [
      | inl e ↦
          ground (arith, map_get-map_delete path [] live, map_get-map_delete path [] clock.live)
      | inr e ↦
          ground (arith, map_get-map_set path [] ts live, map_get-map_delete path [] clock.live)
    ]

pub gone-clock_set :
    (clock : Clock) (seg : String) (ts : ℕ)
    → map_get (seg ∷ []) (clock_set clock seg ts).gone ≡ none
unfolding set_live drop_beneath
gone-clock_set clock seg ts =
    let path : KeyPath = seg ∷ [] in
    elim (Bool-cases (is_time clock.at ts)) [
      | inl e ↦ ground (arith, map_get-map_delete path path clock.gone, path_beq_iff path path)
      | inr e ↦ ground (arith, map_get-map_delete path path clock.gone, path_beq_iff path path)
    ]
