-- ===== src/Doc/Decide.antt =====
-- core/doc.js: what a note in the journal leaves alone.
use lazy_storage.Base.{String, ◌≡◌, inl, inr, Option, arith, Option-cases}
use lazy_storage.Doc.State.{note, note_in, Doc}
use lazy_storage.Shape.{Shape}

-- Records, clocks and the index of children as they were.
pub record IsUnmoved (d e : Doc) : Type 0 where
  pub rows : e.state ≡ d.state
  pub times : e.clocks ≡ d.clocks
  pub kids : e.children ≡ d.children

pub note-IsUnmoved :
    (sh : Shape) (c : String) (id : Option String) (d : Doc) → IsUnmoved d (note sh c id d)
unfolding note note_in
note-IsUnmoved sh c id d = elim (Option-cases d.journal) [
  | inl e ↦ ground arith
  | inr (m, e) ↦ ground arith
]
