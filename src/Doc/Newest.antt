-- ===== src/Doc/Newest.antt =====
-- core/doc.js: two replicas set one field, and the newest value stays, whichever comes first.
use lazy_storage.Base.{
  String, eq_iff, ℕ, ◌<◌, ◌≡◌, refl, sym, ◌∙◌, Bool, true, false, ◌||◌, Option, none, some, [], ◌∷◌,
  arith, ltb, if◌then◌else◌, KeyPath, path_eq, map_get,
}
use lazy_storage.Doc.Enter.{value_in}
use lazy_storage.Doc.Run.{run_step, run}
use lazy_storage.Doc.Inside.{set_there, current, outdated}
use lazy_storage.Doc.Clocks.{Clock, newer, live_at}
use lazy_storage.Doc.Call.{Call, St, judging, losing}
use lazy_storage.Doc.State.{Doc, clock_of, get, note}
use lazy_storage.Json.{Value, Fields, is_object, set_field, get_field-set_field}
use lazy_storage.Doc.Remove.{Out, newer_there, set, lose}
use lazy_storage.Doc.Decide.{note-IsUnmoved}
use lazy_storage.Doc.Field.{
  clock_set, FieldAt, current-field, set_there-field, run_write-plain, clock_at-field,
  write_path-field, live_at-clock_set, live_at-clock_set_root, gone-clock_set,
}

-- The same call at another time.
abbrev pub timed : Call → ℕ → Call
timed k ts = record k { ts = ts }

FieldAt-noted :
    (k : Call) (seg : String) (d : Doc) (fs : Fields) (clock : Clock)
    → FieldAt k seg d fs clock
    → FieldAt k seg (note k.sh k.c k.id d) fs clock
unfolding get clock_of
FieldAt-noted k seg d fs clock f =
    let same = note-IsUnmoved k.sh k.c k.id d in
    record {
      row = rw (same.rows) f.row;
      times = rw (same.times) f.times;
      leaf = f.leaf;
      born = f.born;
      alone = f.alone;
    }

outdated-field :
    (k : Call) (seg : String) (d : Doc) (fs : Fields) (clock : Clock)
    → FieldAt k seg d fs clock
    → outdated k d (seg ∷ [])
      ≡ (newer (live_at clock (seg ∷ [])) k.ts || newer (map_get (seg ∷ []) clock.gone) k.ts)
unfolding outdated
outdated-field k seg d fs clock f =
    rw (clock_at-field k seg d fs clock f, current-field k seg d fs clock f, f.leaf) (ground arith)

abbrev outdated_in : Clock → String → ℕ → Bool
outdated_in clock seg ts =
    newer (live_at clock (seg ∷ [])) ts || newer (map_get (seg ∷ []) clock.gone) ts

run-field :
    (k : Call) (seg : String) (v : Value) (d : Doc) (fs : Fields) (clock : Clock) (out : Out)
    → judging k.mode ≡ true
    → FieldAt k seg d fs clock
    → is_object v ≡ false
    → run k (seg ∷ []) (set v) (d, out) ≡ (
        if outdated_in clock seg k.ts
        then losing k (seg ∷ []) newer_there (note k.sh k.c k.id d, out)
        else set_there k (seg ∷ []) v (note k.sh k.c k.id d, out))
unfolding run run_step
run-field k seg v d fs clock out j f plain =
    let e = note k.sh k.c k.id d in
    let f' = FieldAt-noted k seg d fs clock f in
    rw
      (
        run_write-plain k (seg ∷ []) v (d, out) plain,
        write_path-field k seg v e fs clock out f' plain,
        j,
        outdated-field k seg e fs clock f',
      )
      refl

-- What a set that lands leaves, for a call at any time that the record is not younger than.
FieldAt-run :
    (k : Call) (seg : String) (v : Value) (d : Doc) (fs : Fields) (clock : Clock) (out : Out)
    (s : ℕ)
    → judging k.mode ≡ true
    → FieldAt k seg d fs clock
    → is_object v ≡ false
    → outdated_in clock seg k.ts ≡ false
    → newer (live_at clock []) s ≡ false
    → FieldAt
        (timed k s)
        seg
        (run k (seg ∷ []) (set v) (d, out)).0
        (set_field seg v fs)
        (clock_set clock seg k.ts)
FieldAt-run k seg v d fs clock out s j f plain lands born =
    let e = note k.sh k.c k.id d in
    let f' = FieldAt-noted k seg d fs clock f in
    let (row, times) = set_there-field k seg v e fs clock out f' plain in
    rw (run-field k seg v d fs clock out j f plain, lands)
      (record {
        row = row;
        times = times;
        leaf = ground (arith, get_field-set_field seg seg v fs, eq_iff seg seg);
        born = rw (live_at-clock_set_root clock seg k.ts) born;
        alone = f.alone;
      })

current-run :
    (k : Call) (seg : String) (v : Value) (d : Doc) (fs : Fields) (clock : Clock)
    → FieldAt k seg d (set_field seg v fs) clock
    → current k d (seg ∷ []) ≡ some v
current-run k seg v d fs clock f =
    current-field k seg d (set_field seg v fs) clock f
    ∙ ground (arith, get_field-set_field seg seg v fs, eq_iff seg seg)

outdated-clock_set :
    (clock : Clock) (seg : String) (s t : ℕ) → outdated_in (clock_set clock seg t) seg s ≡ ltb s t
outdated-clock_set clock seg s t =
    rw (live_at-clock_set clock seg t, gone-clock_set clock seg t) (ground arith)

outdated-later :
    (clock : Clock) (seg : String) (s t : ℕ)
    → s < t
    → outdated_in clock seg s ≡ false
    → outdated_in clock seg t ≡ false
outdated-later clock seg s t l h = ground arith

newer-later : (time : Option ℕ) (s t : ℕ) → s < t → newer time s ≡ false → newer time t ≡ false
newer-later none s t l h = refl
newer-later (some x) s t l h = ground arith

current-timed :
    (k : Call) (ts : ℕ) (d : Doc) (path : KeyPath) → current (timed k ts) d path ≡ current k d path
unfolding current value_in
current-timed k ts d path = refl

-- An older set after the field was set at `t`: it is lost, and the value stays.
run-older :
    (k : Call) (seg : String) (v w : Value) (e : Doc) (fs : Fields) (clock : Clock) (out : Out)
    (s t : ℕ)
    → judging k.mode ≡ true
    → FieldAt (timed k s) seg e (set_field seg v fs) (clock_set clock seg t)
    → s < t
    → is_object w ≡ false
    → (current k (run (timed k s) (seg ∷ []) (set w) (e, out)).0 (seg ∷ []) ≡ some v)
      × ((run (timed k s) (seg ∷ []) (set w) (e, out)).1 ≡ lose k.c k.id (seg ∷ []) newer_there out)
run-older k seg v w e fs clock out s t j f l plain =
    let old : outdated_in (clock_set clock seg t) seg s ≡ true =
      outdated-clock_set clock seg s t ∙ ground arith in
    rw
      (
        run-field (timed k s) seg w e (set_field seg v fs) (clock_set clock seg t) out j f plain,
        old,
      )
      (
        sym (current-timed k s (note k.sh k.c k.id e) (seg ∷ []))
            ∙ current-run (timed k s) seg v (note k.sh k.c k.id e) fs (clock_set clock seg t)
                (FieldAt-noted (timed k s) seg e (set_field seg v fs) (clock_set clock seg t) f),
        refl,
      )

-- In a mode that judges, two replicas set one field of a record to plain values, one at time `s` and
-- one later, at `t`. The record is there and not born after `s`, its collection is no child of
-- another, and the field holds no container and was not written or deleted after `s`. Whichever of
-- the two is decided first, the field ends up with the later value; the earlier one, where it comes
-- second, adds to the report just that it lost to something newer.
pub run-newest_stays :
    (k : Call) (seg : String) (v w : Value) (d : Doc) (fs : Fields) (clock : Clock) (out : Out)
    (s t : ℕ)
    → judging k.mode ≡ true
    → FieldAt (timed k s) seg d fs clock
    → outdated (timed k s) d (seg ∷ []) ≡ false
    → s < t
    → is_object v ≡ false
    → is_object w ≡ false
    → let path : KeyPath = seg ∷ [] in
      let late : St → St = run (timed k t) path (set v) in
      let early : St → St = run (timed k s) path (set w) in
      (current k (late (early (d, out))).0 path ≡ some v)
      × (current k (early (late (d, out))).0 path ≡ some v)
      × ((early (late (d, out))).1 ≡ lose k.c k.id path newer_there (late (d, out)).1)
run-newest_stays k seg v w d fs clock out s t j f fresh l plain plain' =
    let now : outdated_in clock seg s ≡ false =
      sym (outdated-field (timed k s) seg d fs clock f) ∙ fresh in
    let later = newer-later (live_at clock []) s t l f.born in
    let f' : FieldAt (timed k t) seg d fs clock = record {
      row = f.row;
      times = f.times;
      leaf = f.leaf;
      born = later;
      alone = f.alone;
    } in
    let first = run (timed k s) (seg ∷ []) (set w) (d, out) in
    let second = run (timed k t) (seg ∷ []) (set v) (d, out) in
    let after_first = FieldAt-run (timed k s) seg w d fs clock out t j f plain' now later in
    let after_second =
      FieldAt-run (timed k t) seg v d fs clock out s j f' plain (outdated-later clock seg s t l now)
        f.born in
    let (kept, said) = run-older k seg v w second.0 fs clock second.1 s t j after_second l plain' in
    let over : outdated_in (clock_set clock seg s) seg t ≡ false =
      outdated-clock_set clock seg t s ∙ ground arith in
    let after_both =
      FieldAt-run (timed k t) seg v first.0 (set_field seg w fs) (clock_set clock seg s) first.1 t j
        after_first plain over after_first.born in
    (
      sym (current-timed k t (run (timed k t) (seg ∷ []) (set v) first).0 (seg ∷ []))
          ∙ current-run (timed k t) seg v (run (timed k t) (seg ∷ []) (set v) first).0
              (set_field seg w fs) (clock_set (clock_set clock seg s) seg t) after_both,
      kept,
      said,
    )
