-- ===== src/Client/Shown/Unmoved.antt =====
-- client/index.js: the pending changes of a record that no op which goes has touched.
use lazy_storage.Base.{
  ℕ, ◌≡◌, refl, sym, ◌∙◌, inl, inr, Bool, not, some, List, [], ◌∷◌, ◌++◌, ◌==◌, Bool-cases, filter,
  filter-append, KeyPath,
}
use mathlib.Core.Path.{subst}
use lazy_storage.Shape.{Shape}
use lazy_storage.Doc.Remove.{Change}
use lazy_storage.Client.Pending.{
  Pending, pending_for, acknowledge, is_later, changes_of, find_op, remove_op,
}
use lazy_storage.Client.Pending.Indexed.{pending_for-filter, is_at, all_pending, timed}
use lazy_storage.Client.Shown.Alone.{Avoids}

module _ (sh : Shape) (j : KeyPath) where
  pub Avoids-append :
      (xs ys : List Change) → Avoids sh j (xs ++ ys) → Avoids sh j xs × Avoids sh j ys
  Avoids-append [] ys h = (tt, h)
  Avoids-append (x ∷ xs) ys (a, h) = let (k, l) = Avoids-append xs ys h in ((a, k), l)

  timed-avoided :
      (ts : ℕ) (changes : List Change)
      → Avoids sh j changes
      → filter (is_at sh j) (timed ts changes) ≡ []
  unfolding filter
  timed-avoided ts [] a = refl
  timed-avoided ts (change ∷ changes) (away, a) = rw (away, timed-avoided ts changes a) refl

  -- An op that goes, and is not of this record.
  op-avoided :
      (op : Pending) (ops : List Pending)
      → Avoids sh j op.changes
      → filter (is_at sh j) (all_pending (op ∷ ops)) ≡ filter (is_at sh j) (all_pending ops)
  op-avoided op ops a =
      filter-append (is_at sh j) (timed op.ts op.changes) (all_pending ops)
      ∙ rw (timed-avoided op.ts op.changes a) refl

  op-kept :
      (op : Pending) (ops left : List Pending)
      → filter (is_at sh j) (all_pending ops) ≡ filter (is_at sh j) (all_pending left)
      → filter (is_at sh j) (all_pending (op ∷ ops)) ≡ filter (is_at sh j) (all_pending (op ∷ left))
  op-kept op ops left e =
      filter-append (is_at sh j) (timed op.ts op.changes) (all_pending ops)
      ∙ rw e (sym (filter-append (is_at sh j) (timed op.ts op.changes) (all_pending left)))

  acked :
      (up_to : ℕ) (ops : List Pending)
      → Avoids sh j (changes_of (filter (λ op. not (is_later up_to op)) ops))
      → filter (is_at sh j) (all_pending ops)
        ≡ filter (is_at sh j) (all_pending (filter (is_later up_to) ops))
  acked up_to [] a = unfold filter in refl
  acked up_to (op ∷ ops) a =
      let is_gone : Pending → Bool = λ p. not (is_later up_to p) in
      elim (Bool-cases (is_later up_to op)) [
        | inl e ↦
            let gone : filter is_gone (op ∷ ops) ≡ filter is_gone ops =
              unfold filter in rw e refl in
            let left : filter (is_later up_to) (op ∷ ops) ≡ op ∷ filter (is_later up_to) ops =
              unfold filter in rw e refl in
            rw left (
              op-kept op ops (filter (is_later up_to) ops) (
                acked up_to ops
                  (subst (λ (ps : List Pending). Avoids sh j (changes_of ps)) gone a)))
        | inr e ↦
            let gone : filter is_gone (op ∷ ops) ≡ op ∷ filter is_gone ops =
              unfold filter in rw e refl in
            let left : filter (is_later up_to) (op ∷ ops) ≡ filter (is_later up_to) ops =
              unfold filter in rw e refl in
            let apart =
              Avoids-append op.changes (changes_of (filter is_gone ops))
                (subst (λ (ps : List Pending). Avoids sh j (changes_of ps)) gone a) in
            rw left (op-avoided op ops apart.0 ∙ acked up_to ops apart.1)
      ]

  pub acknowledge-pending_for :
      (up_to : ℕ) (ops : List Pending)
      → Avoids sh j (acknowledge up_to ops).1
      → pending_for sh j ops ≡ pending_for sh j (acknowledge up_to ops).0
  unfolding acknowledge
  acknowledge-pending_for up_to ops a =
      pending_for-filter sh j ops
      ∙ acked up_to ops a
      ∙ sym (pending_for-filter sh j (filter (is_later up_to) ops))

  removed :
      (seq : ℕ) (op : Pending) (ops : List Pending)
      → find_op seq ops ≡ some op
      → Avoids sh j op.changes
      → filter (is_at sh j) (all_pending ops)
        ≡ filter (is_at sh j) (all_pending (remove_op seq ops))
  unfolding find_op remove_op
  removed seq op [] f a = absurd (cc)
  removed seq op (first ∷ ops) f a = elim (Bool-cases (first.seq == seq)) [
    | inl e ↦
        let same : some first ≡ some op = rw e at f in
        let it : first ≡ op = cc in rw e (op-avoided first ops (rw it a))
    | inr e ↦ rw e (op-kept first ops (remove_op seq ops) (removed seq op ops (rw e at f) a))
  ]

  pub remove_op-pending_for :
      (seq : ℕ) (op : Pending) (ops : List Pending)
      → find_op seq ops ≡ some op
      → Avoids sh j op.changes
      → pending_for sh j ops ≡ pending_for sh j (remove_op seq ops)
  remove_op-pending_for seq op ops f a =
      pending_for-filter sh j ops
      ∙ removed seq op ops f a
      ∙ sym (pending_for-filter sh j (remove_op seq ops))
