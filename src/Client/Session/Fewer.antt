-- ===== src/Client/Session/Fewer.antt =====
-- client/index.js: what acks, refusals and new batches leave of the outbox has no other seqs.
use lazy_storage.Base.{
  ℕ, inl, inr, Bool, not, ◌||◌, List, [], ◌∷◌, ◌==◌, Bool-cases, if_intro, length, All, filter,
}
use lazy_storage.Client.Pending.{
  Pending, remove_op, strip, supersede, is_superseded, written, is_empty,
}
use lazy_storage.Client.Session.Sends.{seqs}
use lazy_storage.Doc.Remove.{Change}

-- What holds of every seq of the outbox, after fewer ops are left.
abbrev pub Fewer : List Pending → List Pending → Type 1
Fewer outbox left = (P : ℕ → Type 0) → All P (seqs outbox) → All P (seqs left)

pub filter-Fewer : (p : Pending → Bool) (ops : List Pending) → Fewer ops (filter p ops)
unfolding filter
filter-Fewer p [] P h = h
filter-Fewer p (op ∷ ops) P h = elim (Bool-cases (p op)) [
  | inl e ↦ rw e (h.0, filter-Fewer p ops P h.1)
  | inr e ↦ rw e (filter-Fewer p ops P h.1)
]

pub remove_op-Fewer : (seq : ℕ) (ops : List Pending) → Fewer ops (remove_op seq ops)
unfolding remove_op
remove_op-Fewer seq [] P h = h
remove_op-Fewer seq (op ∷ ops) P h = elim (Bool-cases (op.seq == seq)) [
  | inl e ↦ rw e h.1
  | inr e ↦ rw e (h.0, remove_op-Fewer seq ops P h.1)
]

strip-Fewer : (news : List Change) (ops : List Pending) → Fewer ops (strip news ops)
unfolding strip
strip-Fewer news [] P h = h
strip-Fewer news (older ∷ ops) P h =
    let left = filter (λ ch. not (is_superseded news ch)) older.changes in
    elim (Bool-cases (length left == length older.changes || not (is_empty left))) [
      | inl e ↦ rw e (h.0, strip-Fewer news ops P h.1)
      | inr e ↦ rw e (strip-Fewer news ops P h.1)
    ]

pub supersede-Fewer :
    (changes : List Change) (ops : List Pending) → Fewer ops (supersede changes ops)
unfolding supersede
supersede-Fewer changes ops P h =
    if_intro (λ (left : List Pending). All P (seqs left)) (is_empty (written changes)) h
      (strip-Fewer (written changes) ops P h)
