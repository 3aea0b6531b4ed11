-- ===== src/Client/Session/Mirror.antt =====
-- client/index.js: the base against what the server made of the changes that landed.
use lazy_storage.Base.{
  ℕ, zero, suc, ◌+◌, ◌<◌, ◌≡◌, refl, ap, ◌∙◌, inl, inr, Bool, true, false, ◌||◌, Option, none, some,
  List, [], ◌∷◌, arith, ltb, Bool-cases, if_intro, is_there,
}
use lazy_storage.Shape.{Shape}
use lazy_storage.Doc.Remove.{Change}
use lazy_storage.Doc.State.{Doc}
use lazy_storage.Client.Session.{
  Client, Effect, Patch, Event, hello, hello_with, step, heard, opened, closed, retried,
  wrote_batch, heard_message, snapshot, delta, patch, ack, rate_limited, refused, unavailable,
  ended, heard_patch, heard_ack, heard_refusal, caught_up, wrote, into_base, all_into_base,
  without_op, trust_all, ours, is_gap, Pending, is_empty, find_op, Known, acknowledge, or_else,
  adopt, number,
}

-- A server: the doc that it began with, and what landed as each version from 1.
pub record Landed : Type 0 where
  pub seed : Doc
  pub at : ℕ → ℕ × List Change

-- The doc of a version, and the patch that tells of it.
abbrev pub doc_at : Shape → Landed → ℕ → Doc
doc_at sh server zero = server.seed
doc_at sh server (suc v) =
    trust_all sh (server.at (suc v)).0 (ours sh (server.at (suc v)).1) (doc_at sh server v)

abbrev pub patch_at : Landed → ℕ → Patch
patch_at server v = record { v = some v; ts = (server.at v).0; changes = (server.at v).1 }

-- The patches of `n` versions after `v`.
abbrev pub patches_after : Landed → ℕ → ℕ → List Patch
patches_after server v zero = []
patches_after server v (suc n) = patch_at server (suc v) ∷ patches_after server (suc v) n

-- What the server may tell a client: the doc of a version, all that landed after the client's version,
-- or what landed as a later one, though patches may be missing between; and an ack at any version.
abbrev pub Tells : Shape → Landed → Event → Client → Type 0
Tells sh server (heard_message now (snapshot landing base)) s =
    (v : ℕ) × (landing.v ≡ some v) × (base ≡ doc_at sh server v) × (is_there landing.epoch ≡ true)
Tells sh server (heard_message now (delta landing entries)) s =
    (n : ℕ) × (landing.v ≡ some (s.known.v + n))
    × (entries ≡ patches_after server s.known.v n)
    × (is_there landing.epoch ≡ true)
Tells sh server (heard_message now (patch p)) s =
    (v : ℕ) × (p ≡ patch_at server v) × (s.synced ≡ true → s.known.v < v)
Tells sh server event s = Unit

-- Whether an ack hid a patch that did not come, by a version past the client's; a snapshot makes up
-- for it.
abbrev pub hides : Event → Client → Bool → Bool
hides (heard_message now (snapshot landing base)) s hidden = false
hides (heard_message now (ack seq (some v) server_now)) s hidden = ltb s.known.v v || hidden
hides event s hidden = hidden

-- Unless a patch is hidden, the base is the server's doc of the version that the client knows; with
-- an epoch once it is synced.
pub record Mirrors (sh : Shape) (server : Landed) (hidden : Bool) (held : Doc) (known : Known)
    (synced : Bool) : Type 0 where
  pub base : hidden ≡ false → held ≡ doc_at sh server known.v
  pub dated : synced ≡ true → is_there known.epoch ≡ true

abbrev pub IsMirror : Shape → Landed → Bool → Client → Type 0
IsMirror sh server hidden s = Mirrors sh server hidden s.base s.known s.synced

-- From a client through events to another, and whether a patch was hidden before and is after.
pub data Follows (sh : Shape) (server : Landed) (final : Client) (after : Bool)
    : Client → Bool → Type 0 where
  there : Follows sh server final after final after
  on :
      (s : Client) (hidden : Bool) (event : Event)
      → Tells sh server event s
      → Follows sh server final after (step sh event s).0 (hides event s hidden)
      → Follows sh server final after s hidden

all_into_base-doc_at :
    (sh : Shape) (server : Landed) (v n : ℕ) (s : Client)
    → s.base ≡ doc_at sh server v
    → (all_into_base sh (patches_after server v n) s).base ≡ doc_at sh server (v + n)
unfolding all_into_base into_base
all_into_base-doc_at sh server v zero s e = e ∙ ap (doc_at sh server) (omega arith)
all_into_base-doc_at sh server v (suc n) s e =
    let p = patch_at server (suc v) in
    let next : (into_base sh p s).base ≡ doc_at sh server (suc v) = rw e refl in
    all_into_base-doc_at sh server (suc v) n (into_base sh p s) next
    ∙ ap (doc_at sh server) (omega arith)

module _ (sh : Shape) (server : Landed) (hidden : Bool) (s : Client)
    (m : IsMirror sh server hidden s) where
  hello-IsMirror : IsMirror sh server hidden (hello s).0
  unfolding hello hello_with
  hello-IsMirror = record { base = m.base; dated = m.dated }

  heard_patch-IsMirror :
      (v : ℕ)
      → (s.synced ≡ true → s.known.v < v)
      → IsMirror sh server hidden (heard_patch sh (patch_at server v) s).0
  unfolding heard_patch into_base hello hello_with
  heard_patch-IsMirror v later = elim (Bool-cases s.synced) [
    | inr off ↦ rw off (record { base = m.base; dated = λ h. absurd (cc) })
    | inl up ↦ elim (Bool-cases (is_gap s.known (some v))) [
      | inl gap ↦ rw (up, gap) (record { base = m.base; dated = λ h. absurd (cc) })
      | inr step_on ↦
          let next : v ≡ suc s.known.v = ground (arith, m.dated up, later up, step_on) in
          rw (up, step_on, next)
            (record { base = λ f. rw (m.base f) refl; dated = λ h. m.dated up })
    ]
  ]

  wrote-IsMirror :
      (now : ℕ) (changes : List Change) → IsMirror sh server hidden (wrote now changes s).0
  unfolding wrote
  wrote-IsMirror now changes =
      if_intro (λ (r : Client × List Effect). IsMirror sh server hidden r.0) (is_empty changes) m
        (record { base = m.base; dated = m.dated })

  without_op-IsMirror :
      (seq : ℕ) (o : Option Pending) → IsMirror sh server hidden (without_op seq o s).0
  without_op-IsMirror seq none = m
  without_op-IsMirror seq (some op) = record { base = m.base; dated = m.dated }

pub step-IsMirror :
    (sh : Shape) (server : Landed) (event : Event) (hidden : Bool) (s : Client)
    → Tells sh server event s
    → IsMirror sh server hidden s
    → IsMirror sh server (hides event s hidden) (step sh event s).0
unfolding step heard caught_up heard_ack heard_refusal
step-IsMirror sh server opened hidden s t m =
    hello-IsMirror sh server hidden (record s { linked = true; synced = false })
      (record { base = m.base; dated = λ h. absurd (cc) })
step-IsMirror sh server closed hidden s t m = record { base = m.base; dated = λ h. absurd (cc) }
step-IsMirror sh server retried hidden s t m =
    if_intro (λ (r : Client × List Effect). IsMirror sh server hidden r.0) s.linked
      (hello-IsMirror sh server hidden s m) m
step-IsMirror sh server (wrote_batch now changes) hidden s t m =
    wrote-IsMirror sh server hidden s m now changes
step-IsMirror sh server (heard_message now (snapshot landing base)) hidden s (v, e, b, d) m =
    record { base = λ f. b ∙ rw e refl; dated = λ h. d }
step-IsMirror sh server (heard_message now (delta landing entries)) hidden s (n, e, b, d) m =
    let acked = acknowledge (or_else 0 landing.seq) s.outbox in
    let before : Client = record s {
      clock = adopt now (number landing.now) s.clock;
      outbox = acked.0;
    } in
    record {
      base = λ f. rw (b, e) (all_into_base-doc_at sh server s.known.v n before (m.base f));
      dated = λ h. d;
    }
step-IsMirror sh server (heard_message now (patch p)) hidden s (v, e, later) m =
    rw e (heard_patch-IsMirror sh server hidden s m v later)
step-IsMirror sh server (heard_message now (ack seq none server_now)) hidden s t m = record {
  base = m.base;
  dated = m.dated;
}
step-IsMirror sh server (heard_message now (ack seq (some v) server_now)) hidden s t m = record {
  base = elim (Bool-cases (ltb s.known.v v)) [
    | inl e ↦ rw e (λ f. absurd (cc))
    | inr e ↦ rw e m.base
  ];
  dated = m.dated;
}
step-IsMirror sh server (heard_message now (rate_limited seq)) hidden s t m = record {
  base = m.base;
  dated = m.dated;
}
step-IsMirror sh server (heard_message now (refused seq)) hidden s t m =
    without_op-IsMirror sh server hidden s m seq (find_op seq s.outbox)
step-IsMirror sh server (heard_message now unavailable) hidden s t m = record {
  base = m.base;
  dated = λ h. absurd (cc);
}
step-IsMirror sh server (heard_message now ended) hidden s t m = record {
  base = m.base;
  dated = λ h. absurd (cc);
}

-- Refinement: let a client's base be the server's doc of the version that it knows, unless a patch is
-- hidden. Then it is so after any run of links, batches and messages, where the server tells docs by their
-- version, deltas of all that landed after the client's version, patches of later versions in any
-- number, with any missing, and acks at any version; an ack at a version past the client's hides
-- a patch until the next snapshot. So where no ack did since the last snapshot, the client never
-- puts a patch on a base that lacks the one before.
pub Follows-IsMirror :
    (sh : Shape) (server : Landed) (final : Client) (after : Bool) (first : Client) (hidden : Bool)
    → Follows sh server final after first hidden
    → IsMirror sh server hidden first
    → IsMirror sh server after final
Follows-IsMirror sh server final after first hidden there m = m
Follows-IsMirror sh server final after first _ (on s hidden event t f) m =
    Follows-IsMirror sh server final after (step sh event s).0 (hides event s hidden) f
      (step-IsMirror sh server event hidden s t m)
