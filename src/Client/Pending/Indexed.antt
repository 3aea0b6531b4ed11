-- ===== src/Client/Pending/Indexed.antt =====
-- client/index.js: the index of the pending changes by record.
use lazy_storage.Base.{
  ℕ, ◌≡◌, refl, sym, ap, ◌∙◌, inl, inr, Bool, List, [], ◌∷◌, ◌++◌, Bool-cases, append_nil, filter,
  filter-append, KeyPath, path_beq, path_beq_iff, path_eq, map_get, map_get-map_set,
}
use mathlib.Core.List.{append_assoc}
use lazy_storage.Doc.Remove.{Change}
use lazy_storage.Shape.{Shape, record_key}
use lazy_storage.Client.Pending.{
  Pending, Index, changes_or_none, index_change, index_changes, index_ops, pending_for,
}

-- The changes of an op with its time.
abbrev pub timed : ℕ → List Change → List (Change × ℕ)
timed ts [] = []
timed ts (change ∷ changes) = (change, ts) ∷ timed ts changes

-- Every pending change, in outbox order.
abbrev pub all_pending : List Pending → List (Change × ℕ)
all_pending [] = []
all_pending (op ∷ ops) = timed op.ts op.changes ++ all_pending ops

abbrev pub is_at : Shape → KeyPath → Change × ℕ → Bool
is_at sh key (change, ts) = path_beq (record_key sh change.c change.id) key

module _ (sh : Shape) (key : KeyPath) where
  index_change-lem :
      (ts : ℕ) (change : Change) (index : Index)
      → changes_or_none (map_get key (index_change sh ts change index))
        ≡ changes_or_none (map_get key index) ++ filter (is_at sh key) ((change, ts) ∷ [])
  unfolding index_change filter
  index_change-lem ts change index =
      let here = record_key sh change.c change.id in
      let it =
        map_get-map_set here key (changes_or_none (map_get here index) ++ (change, ts) ∷ [])
          index in
      elim (Bool-cases (path_beq here key)) [
        | inl e ↦ let same : here ≡ key = (path_beq_iff here key).0 e in rw (it, e, sym same) refl
        | inr e ↦ rw (it, e) (sym (append_nil _))
      ]

  index_changes-lem :
      (ts : ℕ) (changes : List Change) (index : Index)
      → changes_or_none (map_get key (index_changes sh ts changes index))
        ≡ changes_or_none (map_get key index) ++ filter (is_at sh key) (timed ts changes)
  unfolding index_changes filter
  index_changes-lem ts [] index = sym (append_nil _)
  index_changes-lem ts (change ∷ changes) index =
      index_changes-lem ts changes (index_change sh ts change index)
      ∙ rw (index_change-lem ts change index)
          (append_assoc _ (filter (is_at sh key) ((change, ts) ∷ [])) _)
      ∙ ap (λ xs. changes_or_none (map_get key index) ++ xs)
          (sym (filter-append (is_at sh key) ((change, ts) ∷ []) (timed ts changes)))

  index_ops-lem :
      (ops : List Pending) (index : Index)
      → changes_or_none (map_get key (index_ops sh ops index))
        ≡ changes_or_none (map_get key index) ++ filter (is_at sh key) (all_pending ops)
  unfolding index_ops filter
  index_ops-lem [] index = sym (append_nil _)
  index_ops-lem (op ∷ ops) index =
      index_ops-lem ops (index_changes sh op.ts op.changes index)
      ∙ rw (index_changes-lem op.ts op.changes index)
          (append_assoc _ (filter (is_at sh key) (timed op.ts op.changes)) _)
      ∙ ap (λ xs. changes_or_none (map_get key index) ++ xs)
          (sym (filter-append (is_at sh key) (timed op.ts op.changes) (all_pending ops)))

-- Equivalence: the pending changes that the index gives for a record are all pending changes of the
-- outbox that are changes of that record, in outbox order, each with its op's time.
pub pending_for-filter :
    (sh : Shape) (key : KeyPath) (outbox : List Pending)
    → pending_for sh key outbox ≡ filter (is_at sh key) (all_pending outbox)
unfolding pending_for map_get
pending_for-filter sh key outbox = index_ops-lem sh key outbox []
