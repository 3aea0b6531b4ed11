-- ===== src/Doc/Frame.antt =====
-- core/doc.js: while a trial runs, the journal has each record that was touched as it was before,
-- and what it does not have is as it was.
use mathlib.Core.Path.{subst}
use lazy_storage.Base.{
  String, ◌≡◌, refl, sym, ap, ◌∙◌, ◌≢◌, inl, inr, Option, none, some, [], ◌∷◌, arith, Bool-cases,
  Option-cases, is_there, All, KeyPath, path_beq, path_beq_iff, path_eq, Map, map_get, map_set,
  map_get-map_set,
}
use lazy_storage.Shape.{Shape, record_key}
use lazy_storage.Doc.Touch.{Touches, SameAt, SameAt-trans}
use lazy_storage.Doc.State.{Doc, Saved, note, get, clock_of, saved_now, note_in}

-- An entry of the journal says what its record was in `d`.
pub record Recalls (sh : Shape) (d : Doc) (row : KeyPath × Saved) : Type 0 where
  pub keyed : row.0 ≡ record_key sh row.1.place.c row.1.place.id
  pub content : row.1.content ≡ map_get row.0 d.state
  pub times : row.1.clock ≡ clock_of d row.0

-- A trial that began at `d` has come to `e`.
pub record Frames (sh : Shape) (d e : Doc) (m : Map KeyPath Saved) : Type 0 where
  pub running : e.journal ≡ some m
  pub tracking : is_there e.clocks ≡ is_there d.clocks
  pub kept : All (Recalls sh d) m
  pub others : (j : KeyPath) → map_get j m ≡ none → SameAt j d e

pub data Framed (sh : Shape) (d e : Doc) : Type 0 where
  framed : (m : Map KeyPath Saved) → Frames sh d e m → Framed sh d e

All-map_set :
    {V : Type 0} (P : KeyPath × V → Type 0) (key : KeyPath) (v : V) (m : Map KeyPath V)
    → All P m
    → map_get key m ≡ none
    → P (key, v)
    → All P (map_set key v m)
unfolding map_set map_get
All-map_set P key v [] h n p = (p, tt)
All-map_set P key v ((j, w) ∷ m) h n p = elim (Bool-cases (path_beq j key)) [
  | inl e ↦ absurd (ground arith)
  | inr e ↦ rw e (h.0, All-map_set P key v m h.1 (ground arith) p)
]

module _ (sh : Shape) (d e : Doc) (m : Map KeyPath Saved) (f : Frames sh d e m) where
  pub Frames-Touches :
      (key : KeyPath) (e' : Doc) → Touches key e e' → map_get key m ≢ none → Frames sh d e' m
  Frames-Touches key e' t n = record {
    running = t.journal ∙ f.running;
    tracking = t.tracking ∙ f.tracking;
    kept = f.kept;
    others = λ j o. elim (Bool-cases (path_beq key j)) [
      | inl q ↦ absurd (n (ap (λ (x : KeyPath). map_get x m) ((path_beq_iff key j).0 q) ∙ o))
      | inr q ↦ SameAt-trans j d e e' (f.others j o) (t.others j q)
    ];
  }

  -- The journal with one more record, which it did not have.
  noted : String → Option String → Map KeyPath Saved
  noted c id = map_set (record_key sh c id) (saved_now sh c id e) m

  saved_now-Recalls :
      (c : String) (id : Option String)
      → map_get (record_key sh c id) m ≡ none
      → Recalls sh d (record_key sh c id, saved_now sh c id e)
  unfolding saved_now get
  saved_now-Recalls c id n =
      let before = f.others (record_key sh c id) n in
      record { keyed = refl; content = sym before.row; times = sym before.times }

  note-new :
      (c : String) (id : Option String)
      → map_get (record_key sh c id) m ≡ none
      → Frames sh d (record e { journal = some (noted c id) }) (noted c id)
  unfolding noted clock_of
  note-new c id n = record {
    running = refl;
    tracking = f.tracking;
    kept =
        All-map_set (Recalls sh d) (record_key sh c id) (saved_now sh c id e) m f.kept n
          (saved_now-Recalls c id n);
    others = λ j o.
        let was : map_get j m ≡ none =
          ground (arith, map_get-map_set (record_key sh c id) j (saved_now sh c id e) m) in
        record { row = (f.others j was).row; times = (f.others j was).times };
  }

  noted-has : (c : String) (id : Option String) → map_get (record_key sh c id) (noted c id) ≢ none
  unfolding noted
  noted-has c id o = ground (
    arith,
    map_get-map_set (record_key sh c id) (record_key sh c id) (saved_now sh c id e) m,
    path_beq_iff (record_key sh c id) (record_key sh c id),
  )

  NotedAs : String → Option String → Doc → Type 0
  NotedAs c id e' =
      (m' : Map KeyPath Saved) × Frames sh d e' m' × (map_get (record_key sh c id) m' ≢ none)

  note_in-Framed : (c : String) (id : Option String) → NotedAs c id (note_in (some m) sh c id e)
  unfolding note_in noted NotedAs
  note_in-Framed c id = elim (Option-cases (map_get (record_key sh c id) m)) [
    | inl n ↦ (noted c id, rw n (note-new c id n), noted-has c id)
    | inr (saved, n) ↦ (m, rw n f, λ o. ground arith)
  ]

  -- After a note the trial has come as far, and the record is in the journal.
  pub note-Framed :
      (c : String) (id : Option String)
      → (m' : Map KeyPath Saved) × Frames sh d (note sh c id e) m'
        × (map_get (record_key sh c id) m' ≢ none)
  unfolding note NotedAs
  note-Framed c id =
      subst (λ o. NotedAs c id (note_in o sh c id e)) (sym f.running) (note_in-Framed c id)
