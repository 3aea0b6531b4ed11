-- ===== src/Client/Session/Reach.antt =====
-- client/index.js: the runs of a client, and that each op of its outbox goes out.
use lazy_storage.Base.{
  ℕ, ◌≡◌, refl, sym, true, false, not, Option, none, some, List, [], ◌∷◌, arith, leb, if◌then◌else◌,
  if_intro, is_there, All, filter,
}
use mathlib.Core.Path.{subst}
use lazy_storage.Shape.{Shape}
use lazy_storage.Doc.Remove.{Change}
use lazy_storage.Client.Pending.{
  Pending, is_later, remove_op, supersede, acknowledge, is_empty, find_op,
}
use lazy_storage.Client.Pending.Ascending.{
  SeqsIn, SeqsIn-supersede, SeqsIn-filter, SeqsIn-remove_op,
}
use lazy_storage.Client.Session.{
  Client, Effect, Patch, Landing, Event, resent, live, step, heard, opened, closed, retried,
  wrote_batch, heard_message, snapshot, delta, patch, ack, rate_limited, refused, unavailable,
  ended, heard_patch, heard_ack, heard_refusal, caught_up, or_else, wrote, into_base, all_into_base,
  without_op, adopt, is_gap, number,
}
use lazy_storage.Client.Session.Sends.{
  seqs, has_seq, Traffic, after_effects, World, world_step, after_effect,
}
use lazy_storage.Client.Session.Fewer.{filter-Fewer, remove_op-Fewer, supersede-Fewer}
use lazy_storage.Client.Session.Books.{
  Books, IsAccounted, hello-IsAccounted, Fewer-Books, unsynced-Books, throttled-Books,
  answered-Books, added-Books, is_live,
}

-- A message comes over a link that is there.
abbrev pub Comes : Event → Client → Type 0
Comes (heard_message now message) s = s.linked ≡ true
Comes event s = Unit

-- From a client and what its link carried, through events, to another.
pub data Runs (sh : Shape) (final : World) : World → Type 0 where
  stays : Runs sh final final
  goes :
      (w : World) (event : Event)
      → Comes event w.0
      → Runs sh final (world_step sh event w)
      → Runs sh final w

-- A change of the clock and the base only.
abbrev pub Rebased : Client → Client → Type 0
Rebased s t = t ≡ record s { clock = t.clock; base = t.base }

all_into_base-Rebased :
    (sh : Shape) (ps : List Patch) (s : Client) → Rebased s (all_into_base sh ps s)
unfolding all_into_base into_base
all_into_base-Rebased sh [] s = refl
all_into_base-Rebased sh (p ∷ ps) s = all_into_base-Rebased sh ps (into_base sh p s)

acknowledge-Books :
    (up_to : ℕ) (s : Client) (l : Traffic)
    → IsAccounted s l
    → Books (acknowledge up_to s.outbox).0 s.seq s.answered s.linked s.synced s.throttled l
unfolding acknowledge
acknowledge-Books up_to s l b =
    Fewer-Books s.outbox s.seq s.answered s.linked s.synced s.throttled l b
      (filter (is_later up_to) s.outbox) (filter-Fewer (is_later up_to) s.outbox)
      (SeqsIn-filter (is_later up_to) 0 s.seq s.outbox b.ascending)

caught_up-IsAccounted :
    (now : ℕ) (landing : Landing) (apply_to_base : Client → Client) (shown : List Change → Effect)
    (s : Client) (l : Traffic)
    → ((c : Client) → Rebased c (apply_to_base c))
    → ((touched : List Change) (m : Traffic) → after_effect (shown touched) m ≡ m)
    → s.linked ≡ true
    → IsAccounted s l
    → IsAccounted
        (caught_up now landing apply_to_base shown s).0
        (after_effects (caught_up now landing apply_to_base shown s).1 (record l { asked = false }))
unfolding caught_up
caught_up-IsAccounted now landing apply_to_base shown s l rebased quiet on b =
    let up_to = or_else 0 landing.seq in
    let acked = acknowledge up_to s.outbox in
    let before : Client = record s {
      clock = adopt now (number landing.now) s.clock;
      outbox = acked.0;
    } in
    let based = apply_to_base before in
    subst
      (λ (x : Client). Books x.outbox x.seq x.answered x.linked true x.throttled (
        after_effects (if is_live x.linked true x.throttled then resent x.answered x.outbox else [])
          (after_effect (shown acked.1) (record l { asked = false }))))
      (sym (rebased before))
      (subst
        (λ (m : Traffic). Books acked.0 s.seq s.answered s.linked true s.throttled (
          after_effects
            (if is_live s.linked true s.throttled then resent s.answered acked.0 else []) m))
        (sym (quiet acked.1 (record l { asked = false })))
        (answered-Books acked.0 s.seq s.answered s.linked s.synced s.throttled l
          (acknowledge-Books up_to s l b) on))

wrote-IsAccounted :
    (now : ℕ) (changes : List Change) (s : Client) (l : Traffic)
    → IsAccounted s l
    → IsAccounted (wrote now changes s).0 (after_effects (wrote now changes s).1 l)
unfolding wrote
wrote-IsAccounted now changes s l b =
    if_intro (λ (r : Client × List Effect). IsAccounted r.0 (after_effects r.1 l))
      (is_empty changes) b
      (added-Books (supersede changes s.outbox) s.seq s.answered s.linked s.synced s.throttled l _
        (Fewer-Books s.outbox s.seq s.answered s.linked s.synced s.throttled l b
          (supersede changes s.outbox) (supersede-Fewer changes s.outbox)
          (SeqsIn-supersede changes 0 s.seq s.outbox b.ascending))
        (omega arith))

heard_patch-IsAccounted :
    (sh : Shape) (p : Patch) (s : Client) (l : Traffic)
    → IsAccounted s l
    → IsAccounted (heard_patch sh p s).0 (after_effects (heard_patch sh p s).1 l)
unfolding heard_patch into_base
heard_patch-IsAccounted sh p s l b =
    let P = λ (r : Client × List Effect). IsAccounted r.0 (after_effects r.1 l) in
    if_intro P (not s.synced) b (
      if_intro P (is_gap s.known p.v)
        (hello-IsAccounted (record s { synced = false }) l b.ascending (λ h. cc)) b)

without_op-IsAccounted :
    (seq : ℕ) (o : Option Pending) (s : Client) (l : Traffic)
    → IsAccounted s l
    → IsAccounted (without_op seq o s).0 (after_effects (without_op seq o s).1 l)
without_op-IsAccounted seq none s l b = b
without_op-IsAccounted seq (some op) s l b =
    Fewer-Books s.outbox s.seq s.answered s.linked s.synced s.throttled l b (remove_op seq s.outbox)
      (remove_op-Fewer seq s.outbox) (SeqsIn-remove_op seq 0 s.seq s.outbox b.ascending)

step-IsAccounted :
    (sh : Shape) (event : Event) (s : Client) (l : Traffic)
    → Comes event s
    → IsAccounted s l
    → IsAccounted (world_step sh event (s, l)).0 (world_step sh event (s, l)).1
unfolding world_step step heard heard_ack heard_refusal
step-IsAccounted sh opened s l c b = hello-IsAccounted _ _ b.ascending (λ h. refl)
step-IsAccounted sh closed s l c b =
    unsynced-Books s.outbox s.seq s.answered s.linked s.synced s.throttled l b false
step-IsAccounted sh retried s l c b =
    if_intro (λ (r : Client × List Effect). IsAccounted r.0 (after_effects r.1 l)) s.linked
      (hello-IsAccounted s l b.ascending b.online) b
step-IsAccounted sh (wrote_batch now changes) s l c b = wrote-IsAccounted now changes s l b
step-IsAccounted sh (heard_message now (snapshot landing base)) s l c b =
    caught_up-IsAccounted now landing _ _ s l (λ x. refl) (λ t m. refl) c b
step-IsAccounted sh (heard_message now (delta landing entries)) s l c b =
    caught_up-IsAccounted now landing _ _ s l (all_into_base-Rebased sh entries) (λ t m. refl) c b
step-IsAccounted sh (heard_message now (patch p)) s l c b = heard_patch-IsAccounted sh p s l b
step-IsAccounted sh (heard_message now (ack seq v server_now)) s l c b = acknowledge-Books seq s l b
step-IsAccounted sh (heard_message now (rate_limited seq)) s l c b =
    throttled-Books s.outbox s.seq s.answered s.linked s.synced s.throttled l b (is_there seq)
step-IsAccounted sh (heard_message now (refused seq)) s l c b =
    without_op-IsAccounted seq (find_op seq s.outbox) s l b
step-IsAccounted sh (heard_message now unavailable) s l c b =
    unsynced-Books s.outbox s.seq s.answered s.linked s.synced s.throttled l b s.linked
step-IsAccounted sh (heard_message now ended) s l c b =
    unsynced-Books s.outbox s.seq s.answered s.linked s.synced s.throttled l b false

-- A run keeps the account.
pub Runs-IsAccounted :
    (sh : Shape) (final first : World)
    → Runs sh final first
    → IsAccounted first.0 first.1
    → IsAccounted final.0 final.1
Runs-IsAccounted sh final first stays b = b
Runs-IsAccounted sh final first (goes w event c r) b =
    Runs-IsAccounted sh final (world_step sh event w) r (step-IsAccounted sh event w.0 w.1 c b)

-- A client as it is built: no link, and the outbox that it loaded.
pub record IsBuilt (s : Client) : Type 0 where
  pub ascending : SeqsIn 0 s.seq s.outbox
  pub unanswered : s.answered ≡ 0
  pub unlinked : s.linked ≡ false
  pub unsynced : s.synced ≡ false

abbrev pub no_link : Traffic
no_link = record { carried = []; asked = false }

seqs-fresh :
    (low high : ℕ) (ops : List Pending)
    → SeqsIn low high ops
    → All (λ n. leb n 0 ≡ true → has_seq n [] ≡ true) (seqs ops)
seqs-fresh low high [] s = tt
seqs-fresh low high (op ∷ ops) (s, r) =
    (λ h. absurd (ground (arith, s, h)), seqs-fresh op.seq high ops r)

built-IsAccounted : (s : Client) → IsBuilt s → IsAccounted s no_link
built-IsAccounted s b = record {
  ascending = b.ascending;
  bounded = rw b.unanswered (omega arith);
  in_hello = rw b.unanswered (seqs-fresh 0 s.seq s.outbox b.ascending);
  online = λ h. absurd (ground (arith, h, b.unsynced));
  all_sent = λ h k. absurd (ground (arith, h, b.unlinked));
}

-- Invariant: through any run of a client, from one that is built on an outbox of ascending seqs,
-- whenever it is linked, synced and not throttled, and its last hello has its answer, each op of the
-- outbox went to the server in that hello or by itself since.
pub Runs-all_sent :
    (sh : Shape) (s : Client) (final : World)
    → IsBuilt s
    → Runs sh final (s, no_link)
    → live final.0 ≡ true
    → final.1.asked ≡ false
    → All (λ n. has_seq n final.1.carried ≡ true) (seqs final.0.outbox)
Runs-all_sent sh s final b r =
    let books = Runs-IsAccounted sh final (s, no_link) r (built-IsAccounted s b) in books.all_sent
