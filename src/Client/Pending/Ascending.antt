-- ===== src/Client/Pending/Ascending.antt =====
-- client/index.js: the seqs of the outbox ascend, and how the operations of the outbox keep that.
use lazy_storage.Base.{
  ℕ, ◌≤◌, ◌<◌, inl, inr, Bool, not, ◌||◌, List, [], ◌∷◌, ◌++◌, arith, ◌==◌, Bool-cases, if_intro,
  length, filter,
}
use lazy_storage.Doc.Remove.{Change}
use lazy_storage.Client.Pending.{
  Pending, strip, supersede, remove_op, is_empty, is_superseded, written,
}

-- The seqs ascend from past `low` to `high` at most.
abbrev pub SeqsIn : ℕ → ℕ → List Pending → Type 0
SeqsIn low high [] = low ≤ high
SeqsIn low high (op ∷ ops) = (low < op.seq) × SeqsIn op.seq high ops

pub SeqsIn-widen :
    (low low' high high' : ℕ) (ops : List Pending)
    → low' ≤ low
    → high ≤ high'
    → SeqsIn low high ops
    → SeqsIn low' high' ops
SeqsIn-widen low low' high high' [] h k s = omega arith
SeqsIn-widen low low' high high' (op ∷ ops) h k (s, r) =
    (omega arith, SeqsIn-widen op.seq op.seq high high' ops (omega arith) k r)

pub SeqsIn-bound : (low high : ℕ) (ops : List Pending) → SeqsIn low high ops → low ≤ high
SeqsIn-bound low high [] s = s
SeqsIn-bound low high (op ∷ ops) (s, r) = let rest = SeqsIn-bound op.seq high ops r in omega arith

pub SeqsIn-filter :
    (p : Pending → Bool) (low high : ℕ) (ops : List Pending)
    → SeqsIn low high ops
    → SeqsIn low high (filter p ops)
unfolding filter
SeqsIn-filter p low high [] s = s
SeqsIn-filter p low high (op ∷ ops) (s, r) =
    let rest = SeqsIn-filter p op.seq high ops r in
    elim (Bool-cases (p op)) [
      | inl e ↦ rw e (s, rest)
      | inr e ↦
          rw e (SeqsIn-widen op.seq low high high (filter p ops) (omega arith) (omega arith) rest)
    ]

pub SeqsIn-remove_op :
    (seq low high : ℕ) (ops : List Pending)
    → SeqsIn low high ops
    → SeqsIn low high (remove_op seq ops)
unfolding remove_op
SeqsIn-remove_op seq low high [] s = s
SeqsIn-remove_op seq low high (op ∷ ops) (s, r) = elim (Bool-cases (op.seq == seq)) [
  | inl e ↦ rw e (SeqsIn-widen op.seq low high high ops (omega arith) (omega arith) r)
  | inr e ↦ rw e (s, SeqsIn-remove_op seq op.seq high ops r)
]

SeqsIn-strip :
    (news : List Change) (low high : ℕ) (ops : List Pending)
    → SeqsIn low high ops
    → SeqsIn low high (strip news ops)
unfolding strip
SeqsIn-strip news low high [] s = s
SeqsIn-strip news low high (older ∷ ops) (s, r) =
    let rest = SeqsIn-strip news older.seq high ops r in
    let left = filter (λ ch. not (is_superseded news ch)) older.changes in
    elim (Bool-cases (length left == length older.changes || not (is_empty left))) [
      | inl e ↦ rw e (s, rest)
      | inr e ↦
          rw e
            (SeqsIn-widen older.seq low high high (strip news ops) (omega arith) (omega arith) rest)
    ]

pub SeqsIn-supersede :
    (changes : List Change) (low high : ℕ) (ops : List Pending)
    → SeqsIn low high ops
    → SeqsIn low high (supersede changes ops)
unfolding supersede
SeqsIn-supersede changes low high ops s =
    if_intro (SeqsIn low high) (is_empty (written changes)) s
      (SeqsIn-strip (written changes) low high ops s)

-- A new op goes to the end.
pub SeqsIn-append :
    (low high : ℕ) (ops : List Pending) (op : Pending)
    → SeqsIn low high ops
    → high < op.seq
    → SeqsIn low op.seq (ops ++ op ∷ [])
SeqsIn-append low high [] op s h = (omega arith, omega arith)
SeqsIn-append low high (older ∷ ops) op (s, r) h = (s, SeqsIn-append older.seq high ops op r h)
