-- ===== src/Client/Session/Sends.antt =====
-- client/index.js: which ops went out since the last hello.
use lazy_storage.Base.{
  ℕ, ◌≤◌, ◌<◌, ◌≡◌, refl, sym, inl, inr, Bool, true, false, ◌||◌, List, [], ◌∷◌, ◌++◌, arith, leb,
  ◌==◌, if◌then◌else◌, Bool-cases, All,
}
use mathlib.Core.Path.{subst}
use lazy_storage.Shape.{Shape}
use lazy_storage.Client.Pending.{Pending, is_later}
use lazy_storage.Client.Pending.Ascending.{SeqsIn, SeqsIn-bound}
use lazy_storage.Client.Session.{
  Client, Effect, Event, said_hello, sent, refreshed, replayed_all, last_seq, resent, step,
  heard_message, snapshot, delta,
}

abbrev pub seqs : List Pending → List ℕ
seqs [] = []
seqs (op ∷ ops) = op.seq ∷ seqs ops

abbrev pub has_seq : ℕ → List ℕ → Bool
has_seq n [] = false
has_seq n (m ∷ ms) = m == n || has_seq n ms

-- What the link carried since the last hello, and whether that hello is without an answer yet.
pub record Traffic : Type 0 where
  pub carried : List ℕ
  pub asked : Bool

abbrev pub after_effect : Effect → Traffic → Traffic
after_effect (said_hello ops since) l = record { carried = seqs ops; asked = true }
after_effect (sent op) l = record l { carried = op.seq ∷ l.carried }
after_effect (refreshed changes) l = l
after_effect replayed_all l = l

abbrev pub after_effects : List Effect → Traffic → Traffic
after_effects [] l = l
after_effects (e ∷ es) l = after_effects es (after_effect e l)

-- A snapshot or a delta answers the hello.
abbrev pub answers : Event → Bool
answers (heard_message now (snapshot landing base)) = true
answers (heard_message now (delta landing entries)) = true
answers event = false

abbrev pub answered_link : Event → Traffic → Traffic
answered_link event l = if answers event then record l { asked = false } else l

abbrev pub World : Type 0
World = Client × Traffic

unfoldable pub world_step : Shape → Event → World → World
world_step sh event (s, l) =
    let next = step sh event s in (next.0, after_effects next.1 (answered_link event l))

pub All-weaken : {P Q : ℕ → Type 0} (ns : List ℕ) → ((n : ℕ) → P n → Q n) → All P ns → All Q ns
All-weaken [] f h = tt
All-weaken (n ∷ ns) f h = (f n h.0, All-weaken ns f h.1)

pub All-both :
    {P Q R : ℕ → Type 0} (ns : List ℕ)
    → ((n : ℕ) → P n → Q n → R n)
    → All P ns
    → All Q ns
    → All R ns
All-both [] f h k = tt
All-both (n ∷ ns) f h k = (f n h.0 k.0, All-both ns f h.1 k.1)

seqs-above :
    (low low' high : ℕ) (ops : List Pending)
    → SeqsIn low high ops
    → low' ≤ low
    → All (λ n. low' < n) (seqs ops)
seqs-above low low' high [] s k = tt
seqs-above low low' high (op ∷ ops) (s, r) k =
    (omega arith, seqs-above op.seq low' high ops r (omega arith))

-- Up to its last op, a hello has every op of the outbox.
pub hello-carried :
    (low high : ℕ) (front back : List Pending)
    → SeqsIn low high (front ++ back)
    → All
        (λ n. leb n (last_seq front) ≡ true → has_seq n (seqs front) ≡ true)
        (seqs (front ++ back))
hello-carried low high [] back s =
    All-weaken (seqs back) (λ n (above : 0 < n) h. absurd (ground (arith, above, h)))
      (seqs-above low 0 high back s (omega arith))
hello-carried low high (op ∷ []) back (s, r) = (
  λ h. ground arith,
  All-weaken (seqs back) (λ n (above : op.seq < n) h. absurd (ground (arith, above, h)))
      (seqs-above op.seq op.seq high back r (omega arith)),
)
hello-carried low high (op ∷ next ∷ front) back (s, r) = (
  λ h. ground arith,
  All-weaken (seqs (next ∷ front ++ back))
      (λ n (k : leb n (last_seq (next ∷ front)) ≡ true → has_seq n (seqs (next ∷ front)) ≡ true) h.
        ground (arith, k h))
      (hello-carried op.seq high (next ∷ front) back r),
)

pub last_seq-bound :
    (low high : ℕ) (front back : List Pending)
    → SeqsIn low high (front ++ back)
    → last_seq front ≤ high
last_seq-bound low high [] back s = omega arith
last_seq-bound low high (op ∷ []) back (s, r) = SeqsIn-bound op.seq high back r
last_seq-bound low high (op ∷ next ∷ front) back (s, r) =
    last_seq-bound op.seq high (next ∷ front) back r

-- What was carried stays so as more is sent.
pub resent-keeps :
    (answered n : ℕ) (ops : List Pending) (l : Traffic)
    → has_seq n l.carried ≡ true
    → has_seq n (after_effects (resent answered ops) l).carried ≡ true
unfolding resent
resent-keeps answered n [] l h = h
resent-keeps answered n (op ∷ ops) l h = elim (Bool-cases (is_later answered op)) [
  | inl e ↦ rw e (resent-keeps answered n ops (after_effect (sent op) l) (ground (arith, h)))
  | inr e ↦ rw e (resent-keeps answered n ops l h)
]

pub resent-asked :
    (answered : ℕ) (ops : List Pending) (l : Traffic)
    → (after_effects (resent answered ops) l).asked ≡ l.asked
unfolding resent
resent-asked answered [] l = refl
resent-asked answered (op ∷ ops) l = elim (Bool-cases (is_later answered op)) [
  | inl e ↦ rw e (resent-asked answered ops (after_effect (sent op) l))
  | inr e ↦ rw e (resent-asked answered ops l)
]

pub resent-carried :
    (answered : ℕ) (ops : List Pending) (l : Traffic)
    → All
        (λ n.
          leb n answered ≡ false → has_seq n (after_effects (resent answered ops) l).carried ≡ true)
        (seqs ops)
unfolding resent
resent-carried answered [] l = tt
resent-carried answered (op ∷ ops) l = elim (Bool-cases (is_later answered op)) [
  | inl e ↦
      let more = after_effect (sent op) l in
      let same : after_effects (resent answered (op ∷ ops)) l
          ≡ after_effects (resent answered ops) more =
        rw e refl in
      subst
        (λ (m : Traffic).
          All (λ n. leb n answered ≡ false → has_seq n m.carried ≡ true) (op.seq ∷ seqs ops))
        (sym same)
        (
          λ h. resent-keeps answered op.seq ops more (ground arith),
          resent-carried answered ops more,
        )
  | inr e ↦
      let same : after_effects (resent answered (op ∷ ops)) l
          ≡ after_effects (resent answered ops) l =
        rw e refl in
      subst
        (λ (m : Traffic).
          All (λ n. leb n answered ≡ false → has_seq n m.carried ≡ true) (op.seq ∷ seqs ops))
        (sym same) (λ h. absurd (ground (arith, e, h)), resent-carried answered ops l)
]
