-- ===== src/Client/Shown/Written.antt =====
-- client/index.js: what `refresh` writes into `state`.
use lazy_storage.Base.{
  String, ℕ, ◌≡◌, refl, sym, ap, ◌∙◌, inl, inr, Bool, true, false, not, ◌&&◌, ◌||◌, Option, none,
  some, List, [], ◌∷◌, arith, if◌then◌else◌, Bool-cases, if_intro, is_there, All, KeyPath, path_beq,
  path_beq_iff, path_eq, Map, map_get, map_set, map_get-map_set,
}
use lazy_storage.Json.{Value, is_object}
use lazy_storage.Client.Shown.{replayed_by}
use lazy_storage.Doc.Clocks.{Clock}
use lazy_storage.Shape.{with_id, Shape, record_key, is_singleton}
use lazy_storage.Doc.State.{Doc, get}
use lazy_storage.Doc.Remove.{Change}
use lazy_storage.Paths.{any}
use lazy_storage.Client.Pending.{Pending}
use lazy_storage.Client.Shown.{
  Watch, write_record, write_seen, seen, replayed, doc_from, is_object_shown,
}

abbrev first_of : KeyPath → String
first_of [] = ""
first_of (c ∷ path) = c

record_key-first :
    (sh : Shape) (c : String) (id : Option String) → first_of (record_key sh c id) ≡ c
unfolding record_key
record_key-first sh c id =
    if_intro (λ (key : KeyPath). first_of key ≡ c) (is_singleton sh c) refl refl

with_id-eq :
    (c : String) (id id' : Option String) → c ∷ with_id id [] ≡ c ∷ with_id id' [] → id ≡ id'
with_id-eq c none none e = refl
with_id-eq c none (some id') e = absurd (cc)
with_id-eq c (some id) none e = absurd (cc)
with_id-eq c (some id) (some id') e = cc

record_key-id :
    (sh : Shape) (c : String) (id id' : Option String)
    → is_singleton sh c ≡ false
    → record_key sh c id ≡ record_key sh c id'
    → id ≡ id'
unfolding record_key
record_key-id sh c id id' s e = with_id-eq c id id' (rw s at e)

single_key :
    (sh : Shape) (c : String) (id id' : Option String)
    → is_singleton sh c ≡ true
    → record_key sh c id ≡ record_key sh c id'
unfolding record_key
single_key sh c id id' s = rw s refl

doc_from-single :
    (sh : Shape) (c : String) (id id' : Option String) (value : Option Value) (clock : Option Clock)
    → is_singleton sh c ≡ true
    → doc_from sh c id value clock ≡ doc_from sh c id' value clock
unfolding doc_from
doc_from-single sh c id id' none clock s = refl
doc_from-single sh c id id' (some v) clock s = rw (s, single_key sh c id id' s) refl

replayed_by-single :
    (sh : Shape) (c : String) (id id' : Option String) (value : Option Value) (clock : Option Clock)
    (pending : List (Change × ℕ))
    → is_singleton sh c ≡ true
    → replayed_by sh c id value clock pending ≡ replayed_by sh c id' value clock pending
unfolding replayed_by get
replayed_by-single sh c id id' value clock [] s = refl
replayed_by-single sh c id id' value clock (change ∷ changes) s =
    rw (single_key sh c id id' s, doc_from-single sh c id id' value clock s) refl

replayed-same_top :
    (sh : Shape) (base : Doc) (outbox : List Pending) (c : String) (id id' : Option String)
    → record_key sh c id ≡ record_key sh c id'
    → replayed sh base outbox c id ≡ replayed sh base outbox c id'
unfolding replayed get
replayed-same_top sh base outbox c id id' e = elim (Bool-cases (is_singleton sh c)) [
  | inl s ↦ rw e (replayed_by-single sh c id id' _ _ _ s)
  | inr s ↦ ap (replayed sh base outbox c) (record_key-id sh c id id' s e)
]

-- What a record is worked out to depends on its key only.
replayed-record_key :
    (sh : Shape) (base : Doc) (outbox : List Pending) (c c' : String) (id id' : Option String)
    → record_key sh c id ≡ record_key sh c' id'
    → replayed sh base outbox c id ≡ replayed sh base outbox c' id'
replayed-record_key sh base outbox c c' id id' e =
    let same : c ≡ c' =
      sym (record_key-first sh c id) ∙ ap first_of e ∙ record_key-first sh c' id' in
    ap (λ (x : String). replayed sh base outbox x id) same
    ∙ replayed-same_top sh base outbox c' id id'
        (ap (λ (x : String). record_key sh x id) (sym same) ∙ e)

abbrev pub Keyed : Shape → KeyPath × (String × Option String) → Type 0
Keyed sh (key, (c, id)) = key ≡ record_key sh c id

map_set-Keyed :
    (sh : Shape) (c : String) (id : Option String) (rows : Map KeyPath (String × Option String))
    → All (Keyed sh) rows
    → All (Keyed sh) (map_set (record_key sh c id) (c, id) rows)
unfolding map_set
map_set-Keyed sh c id [] h = (refl, tt)
map_set-Keyed sh c id ((key, place) ∷ rows) (k, h) =
    let rest = map_set-Keyed sh c id rows h in
    elim (Bool-cases (path_beq key (record_key sh c id))) [
      | inl e ↦ rw e ((path_beq_iff key (record_key sh c id)).0 e, h)
      | inr e ↦ rw e (k, rest)
    ]

pub seen-Keyed :
    (sh : Shape) (rows : Map KeyPath (String × Option String)) (changes : List Change)
    → All (Keyed sh) rows
    → All (Keyed sh) (seen sh rows changes)
unfolding seen
seen-Keyed sh rows [] h = h
seen-Keyed sh rows (change ∷ changes) h =
    seen-Keyed sh (map_set (record_key sh change.c change.id) (change.c, change.id) rows) changes
      (map_set-Keyed sh change.c change.id rows h)

-- Whether a change of the list is of the record under a key.
abbrev pub covers : Shape → KeyPath → List Change → Bool
covers sh j changes = any (λ change. path_beq (record_key sh change.c change.id) j) changes

pub seen-is_there :
    (sh : Shape) (j : KeyPath) (rows : Map KeyPath (String × Option String)) (changes : List Change)
    → is_there (map_get j (seen sh rows changes))
      ≡ (covers sh j changes || is_there (map_get j rows))
unfolding seen any
seen-is_there sh j rows [] = refl
seen-is_there sh j rows (change ∷ changes) =
    let key = record_key sh change.c change.id in
    let set = map_get-map_set key j (change.c, change.id) rows in
    seen-is_there sh j (map_set key (change.c, change.id) rows) changes ∙ rw set (ground arith)

not_there : (o : Option Value) → is_there o ≡ false → o ≡ none
not_there none h = refl
not_there (some v) h = cc

module _ (sh : Shape) (w : Watch) where
  unmoved :
      (key j : KeyPath) (o : Option Value) (s : w.State)
      → w.shown key s ≡ o
      → w.shown j s ≡ (if path_beq key j then o else w.shown j s)
  unmoved key j o s e = elim (Bool-cases (path_beq key j)) [
    | inl same ↦
        let it : key ≡ j = (path_beq_iff key j).0 same in
        rw same (ap (λ (k : KeyPath). w.shown k s) (sym it) ∙ e)
    | inr other_key ↦ rw other_key refl
  ]

  write_record-shown :
      (c : String) (id : Option String) (o : Option Value) (j : KeyPath) (s : w.State)
      → (is_singleton sh c && not (is_there o)) ≡ false
      → w.shown j (write_record sh w c id o s)
        ≡ (if path_beq (record_key sh c id) j then o else w.shown j s)
  unfolding write_record
  write_record-shown c id none j s h =
      let key = record_key sh c id in
      elim (Bool-cases (is_there (w.shown key s))) [
        | inl e ↦
            let single : is_singleton sh c ≡ false = ground (arith, h) in
            rw (e, single) (w.shown-patch key j none s)
        | inr e ↦ rw e (unmoved key j none s (not_there (w.shown key s) e))
      ]
  write_record-shown c id (some v) j s h =
      let key = record_key sh c id in
      elim (Bool-cases (is_object_shown (w.shown key s) && is_object v)) [
        | inl e ↦ rw e (w.shown-overwrite key j v s)
        | inr e ↦ elim (Bool-cases (w.identical (w.shown key s) v)) [
          | inl same ↦
              rw (e, same) (unmoved key j (some v) s (w.identical-eq (w.shown key s) v same))
          | inr same ↦ rw (e, same) (w.shown-patch key j (some v) s)
        ]
      ]

  module _ (base : Doc) (outbox : List Pending)
      (standing : (c : String) (id : Option String)
        → (is_singleton sh c && not (is_there (replayed sh base outbox c id))) ≡ false) where
    pub write_seen-here :
        (c : String) (id : Option String) (rows : Map KeyPath (String × Option String))
        (s : w.State)
        → All (Keyed sh) rows
        → (is_there (map_get (record_key sh c id) rows) ≡ false
            → w.shown (record_key sh c id) s ≡ replayed sh base outbox c id)
        → w.shown (record_key sh c id) (write_seen sh w base outbox rows s)
          ≡ replayed sh base outbox c id
    unfolding write_seen map_get
    write_seen-here c id [] s k h = h refl
    write_seen-here c id ((key, (c', id')) ∷ rows) s (e, k) h =
        let j = record_key sh c id in
        let o = replayed sh base outbox c' id' in
        let first = write_record-shown c' id' o j s (standing c' id') in
        write_seen-here c id rows (write_record sh w c' id' o s) k (λ none_left.
          elim (Bool-cases (path_beq key j)) [
            | inl same ↦
                let at : record_key sh c' id' ≡ j = sym e ∙ (path_beq_iff key j).0 same in
                let here : path_beq (record_key sh c' id') j ≡ true = rw e at same in
                first ∙ rw here (replayed-record_key sh base outbox c' c id' id at)
            | inr differ ↦
                let away : path_beq (record_key sh c' id') j ≡ false = rw e at differ in
                first ∙ rw away (h (rw (differ, map_get) none_left))
          ])
