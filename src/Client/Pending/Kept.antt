-- ===== src/Client/Pending/Kept.antt =====
-- client/index.js: what the operations of the outbox leave of the changes that are pending.
use lazy_storage.Base.{
  ℕ, ◌≤◌, ◌<◌, ◌≡◌, refl, sym, ap, ◌∙◌, ◌⊎◌, inl, inr, Bool, true, false, not, ◌||◌, List, [], ◌∷◌,
  ◌++◌, arith, ltb, ◌==◌, ltb→lt, lt→ltb, ==_iff, Bool-cases, if_intro, length, filter,
}
use lazy_storage.Doc.Remove.{Change}
use lazy_storage.Client.Pending.{
  Pending, strip, supersede, remove_op, acknowledge, is_later, is_superseded, written, is_empty,
}

abbrev pub IsAmong : Change → List Change → Type 0
IsAmong ch [] = ⊥
IsAmong ch (x ∷ xs) = (x ≡ ch) ⊎ IsAmong ch xs

-- A change is among those of the op with a seq.
abbrev pub Holds : ℕ → Change → List Pending → Type 0
Holds n ch [] = ⊥
Holds n ch (op ∷ ops) = ((op.seq ≡ n) × IsAmong ch op.changes) ⊎ Holds n ch ops

pub Holds-append :
    (n : ℕ) (ch : Change) (ops more : List Pending) → Holds n ch ops → Holds n ch (ops ++ more)
Holds-append n ch [] more h = absurd h
Holds-append n ch (op ∷ ops) more (inl h) = inl h
Holds-append n ch (op ∷ ops) more (inr h) = inr (Holds-append n ch ops more h)

filter-IsAmong :
    (p : Change → Bool) (ch : Change) (xs : List Change)
    → IsAmong ch xs
    → p ch ≡ true
    → IsAmong ch (filter p xs)
unfolding filter
filter-IsAmong p ch [] h e = h
filter-IsAmong p ch (x ∷ xs) (inl h) e = rw (ap p h ∙ e) (inl h)
filter-IsAmong p ch (x ∷ xs) (inr h) e =
    let rest = filter-IsAmong p ch xs h e in
    elim (Bool-cases (p x)) [ inl k ↦ rw k (inr rest) | inr k ↦ rw k rest ]

filter-is_later-Holds :
    (up_to n : ℕ) (ch : Change) (ops : List Pending)
    → Holds n ch ops
    → up_to < n
    → Holds n ch (filter (is_later up_to) ops)
unfolding filter
filter-is_later-Holds up_to n ch [] h k = h
filter-is_later-Holds up_to n ch (op ∷ ops) (inl (e, h)) k =
    rw (lt→ltb up_to op.seq (omega arith)) (inl (e, h))
filter-is_later-Holds up_to n ch (op ∷ ops) (inr h) k =
    let rest = filter-is_later-Holds up_to n ch ops h k in
    elim (Bool-cases (is_later up_to op)) [ inl e ↦ rw e (inr rest) | inr e ↦ rw e rest ]

pub acknowledge-Holds :
    (up_to n : ℕ) (ch : Change) (ops : List Pending)
    → Holds n ch ops
    → Holds n ch (acknowledge up_to ops).0 ⊎ (n ≤ up_to)
unfolding acknowledge
acknowledge-Holds up_to n ch ops h = elim (Bool-cases (ltb up_to n)) [
  | inl k ↦ inl (filter-is_later-Holds up_to n ch ops h (ltb→lt up_to n k))
  | inr k ↦ inr (ground (arith, k))
]

pub remove_op-Holds :
    (seq n : ℕ) (ch : Change) (ops : List Pending)
    → Holds n ch ops
    → Holds n ch (remove_op seq ops) ⊎ (n ≡ seq)
unfolding remove_op
remove_op-Holds seq n ch [] h = inl h
remove_op-Holds seq n ch (op ∷ ops) (inl (e, h)) = elim (Bool-cases (op.seq == seq)) [
  | inl k ↦ inr (sym e ∙ (==_iff op.seq seq).0 k)
  | inr k ↦ rw k (inl (inl (e, h)))
]
remove_op-Holds seq n ch (op ∷ ops) (inr h) = elim (Bool-cases (op.seq == seq)) [
  | inl k ↦ rw k (inl h)
  | inr k ↦ rw k (elim (remove_op-Holds seq n ch ops h) [ inl r ↦ inl (inr r) | inr r ↦ inr r ])
]

-- A change that is left leaves its op in the outbox.
some_left : (ch : Change) (xs : List Change) → IsAmong ch xs → is_empty xs ≡ false
some_left ch [] h = absurd h
some_left ch (x ∷ xs) h = refl

strip-Holds :
    (news : List Change) (n : ℕ) (ch : Change) (ops : List Pending)
    → Holds n ch ops
    → is_superseded news ch ≡ false
    → Holds n ch (strip news ops)
unfolding strip
strip-Holds news n ch [] h s = h
strip-Holds news n ch (op ∷ ops) (inl (e, h)) s =
    let left = filter (λ c. not (is_superseded news c)) op.changes in
    let there = filter-IsAmong (λ c. not (is_superseded news c)) ch op.changes h (rw s refl) in
    let keeps : (length left == length op.changes || not (is_empty left)) ≡ true =
      rw (some_left ch left there) (ground arith) in
    rw keeps (inl (e, there))
strip-Holds news n ch (op ∷ ops) (inr h) s =
    let rest = strip-Holds news n ch ops h s in
    let left = filter (λ c. not (is_superseded news c)) op.changes in
    elim (Bool-cases (length left == length op.changes || not (is_empty left))) [
      | inl k ↦ rw k (inr rest)
      | inr k ↦ rw k rest
    ]

pub supersede-Holds :
    (changes : List Change) (n : ℕ) (ch : Change) (ops : List Pending)
    → Holds n ch ops
    → Holds n ch (supersede changes ops) ⊎ (is_superseded (written changes) ch ≡ true)
unfolding supersede
supersede-Holds changes n ch ops h = elim (Bool-cases (is_superseded (written changes) ch)) [
  | inl s ↦ inr s
  | inr s ↦ inl (
      if_intro (Holds n ch) (is_empty (written changes)) h
        (strip-Holds (written changes) n ch ops h s))
]
