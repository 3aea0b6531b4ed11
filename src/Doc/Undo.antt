-- ===== src/Doc/Undo.antt =====
-- core/doc.js: undoing a trial puts every record and clock back.
use lazy_storage.Base.{
  String, ◌≡◌, refl, sym, ap, ◌∙◌, ◌≢◌, inl, inr, true, false, Option, none, some, ◌∷◌, arith,
  Bool-cases, Option-cases, if_intro, is_there, length, KeyPath, path_beq, path_beq_iff, path_eq,
  beq_refl, map_get, map_get-map_set, map_get-map_delete,
}
use lazy_storage.Json.{Value}
use lazy_storage.Doc.Touch.{
  Touches, delete_clock-Touches, put_value-Touches, Touches-trans, put_clock-Touches,
  relink-Touches, delete_value-Touches, SameAt,
}
use lazy_storage.Shape.{Shape, record_key, is_singleton}
use lazy_storage.Doc.State.{clock_of, put_clock, delete_clock, Doc, put_value, delete_value, relink}
use lazy_storage.Doc.Trial.{set_value, set_record, restore_clock}
use lazy_storage.Doc.Clocks.{Clock}

-- A doc as the code keeps it: a singleton is always there, and only a record that is has a clock.
pub record IsSettled (sh : Shape) (d : Doc) : Type 0 where
  pub singleton_there :
      (c : String) (id : Option String)
      → is_singleton sh c ≡ true
      → map_get (record_key sh c id) d.state ≢ none
  pub clocked : (key : KeyPath) → map_get key d.state ≡ none → clock_of d key ≡ none

clock_of-put_clock_self :
    (key : KeyPath) (t : Clock) (d : Doc)
    → is_there d.clocks ≡ true
    → clock_of (put_clock key t d) key ≡ some t
unfolding put_clock clock_of
clock_of-put_clock_self key t d h = elim (Option-cases d.clocks) [
  | inl e ↦ absurd (ground arith)
  | inr (m, e) ↦ ground (arith, map_get-map_set key key t m, path_beq_iff key key)
]

clock_of-delete_clock_self : (key : KeyPath) (d : Doc) → clock_of (delete_clock key d) key ≡ none
unfolding delete_clock clock_of
clock_of-delete_clock_self key d = elim (Option-cases d.clocks) [
  | inl e ↦ ground arith
  | inr (m, e) ↦ ground (arith, map_get-map_delete key key m, path_beq_iff key key)
]

clock_there :
    (d : Doc) (key : KeyPath) (t : Clock) → clock_of d key ≡ some t → is_there d.clocks ≡ true
unfolding clock_of
clock_there d key t h = ground arith

restore_clock-rows :
    (key : KeyPath) (v : Option Value) (t : Option Clock) (d : Doc)
    → map_get key (restore_clock key v t d).state ≡ map_get key d.state
unfolding restore_clock put_clock delete_clock
restore_clock-rows key none t d = ground arith
restore_clock-rows key (some v) none d = ground arith
restore_clock-rows key (some v) (some t) d = ground arith

module _ (sh : Shape) (c : String) (id : Option String) where
  set_value-Touches :
      (v : Option Value) (d : Doc) → Touches (record_key sh c id) d (set_value sh c id v d)
  unfolding set_value
  set_value-Touches none d =
      if_intro (Touches (record_key sh c id) d) (is_singleton sh c)
        (put_value-Touches (record_key sh c id) _ d) (delete_value-Touches (record_key sh c id) d)
  set_value-Touches (some v) d = put_value-Touches (record_key sh c id) v d

  restore_clock-Touches :
      (key : KeyPath) (v : Option Value) (t : Option Clock) (d : Doc)
      → Touches key d (restore_clock key v t d)
  unfolding restore_clock
  restore_clock-Touches key none t d = delete_clock-Touches key d
  restore_clock-Touches key (some v) none d = delete_clock-Touches key d
  restore_clock-Touches key (some v) (some t) d = put_clock-Touches key t d

  pub set_record-Touches :
      (v : Option Value) (t : Option Clock) (d : Doc)
      → Touches (record_key sh c id) d (set_record sh c id v t d)
  unfolding set_record
  set_record-Touches v t d =
      let key = record_key sh c id in
      let e = set_value sh c id v d in
      let e' = restore_clock key v t e in
      Touches-trans key d e _ (set_value-Touches v d)
        (Touches-trans key e e' _ (restore_clock-Touches key v t e) (relink-Touches key sh c id e'))

  longer_ne : (key : KeyPath) → path_beq ("" ∷ key) key ≡ false
  longer_ne key = elim (Bool-cases (path_beq ("" ∷ key) key)) [
    | inl e ↦
        let same : length ("" ∷ key) ≡ length key =
          ap (λ (p : KeyPath). length p) ((path_beq_iff ("" ∷ key) key).0 e) in
        absurd (omega arith)
    | inr e ↦ e
  ]

  relink-SameAt : (j : KeyPath) (d : Doc) → SameAt j d (relink sh c id d)
  relink-SameAt j d = (relink-Touches ("" ∷ j) sh c id d).others j (longer_ne j)

  module _ (d e : Doc) (settled : IsSettled sh d)
      (tracking : is_there e.clocks ≡ is_there d.clocks) where
    set_value-row :
        map_get
          (record_key sh c id)
          (set_value sh c id (map_get (record_key sh c id) d.state) e).state
        ≡ map_get (record_key sh c id) d.state
    unfolding set_value put_value delete_value
    set_value-row = elim (Option-cases (map_get (record_key sh c id) d.state)) [
      | inl n ↦ elim (Bool-cases (is_singleton sh c)) [
        | inl s ↦ absurd (settled.singleton_there c id s n)
        | inr s ↦
            rw (n, s)
              (map_get-map_delete (record_key sh c id) (record_key sh c id) e.state
                ∙ rw (beq_refl (record_key sh c id)) refl)
      ]
      | inr (v, n) ↦ rw n (
          map_get-map_set (record_key sh c id) (record_key sh c id) v e.state
          ∙ rw (beq_refl (record_key sh c id)) refl)
    ]

    restore_clock-times :
        (key : KeyPath) (e' : Doc)
        → is_there e'.clocks ≡ is_there d.clocks
        → clock_of (restore_clock key (map_get key d.state) (clock_of d key) e') key
          ≡ clock_of d key
    unfolding restore_clock
    restore_clock-times key e' track = elim (Option-cases (map_get key d.state)) [
      | inl n ↦ rw (n, settled.clocked key n) (clock_of-delete_clock_self key e')
      | inr (v, n) ↦ elim (Option-cases (clock_of d key)) [
        | inl t ↦ rw (n, t) (clock_of-delete_clock_self key e')
        | inr (t, h) ↦ rw (n, h) (clock_of-put_clock_self key t e' (track ∙ clock_there d key t h))
      ]
    ]

    -- A record set to what it was in `d` is as it was.
    pub set_record-SameAt : SameAt (record_key sh c id) d (
        set_record sh c id
          (map_get (record_key sh c id) d.state)
          (clock_of d (record_key sh c id))
          e)
    unfolding set_record
    set_record-SameAt =
        let key = record_key sh c id in
        let v = map_get key d.state in
        let e1 = set_value sh c id v e in
        let e2 = restore_clock key v (clock_of d key) e1 in
        let kept = (restore_clock-rows key v (clock_of d key) e1) in
        let moved = relink-SameAt key e2 in
        let track : is_there e1.clocks ≡ is_there d.clocks =
          (set_value-Touches v e).tracking ∙ tracking in
        record {
          row = sym set_value-row ∙ sym kept ∙ moved.row;
          times = sym (restore_clock-times key e1 track) ∙ moved.times;
        }
