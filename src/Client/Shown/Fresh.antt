-- ===== src/Client/Shown/Fresh.antt =====
-- client/index.js: `state` after what the server says, against all of it worked out anew.
use lazy_storage.Base.{
  String, ℕ, ◌≡◌, refl, sym, ap, ◌∙◌, inl, inr, Bool, true, false, not, ◌&&◌, Option, none, some,
  List, [], ◌∷◌, ◌++◌, arith, if◌then◌else◌, Bool-cases, if_intro, is_there, KeyPath, path_eq,
  map_get,
}
use lazy_storage.Shape.{Shape, record_key, is_singleton}
use lazy_storage.Paths.{any}
use lazy_storage.Doc.State.{Doc, get}
use lazy_storage.Doc.Touch.{SameAt, SameAt-refl, SameAt-trans}
use lazy_storage.Doc.Remove.{Change}
use lazy_storage.Client.Pending.{Pending, pending_for, acknowledge, find_op}
use lazy_storage.Client.Session.{
  Client, Effect, Patch, refreshed, said_hello, sent, replayed_all, ours, all_ours, into_base,
  all_into_base, heard_patch, heard_ack, heard_refusal, without_op, hello, hello_with,
}
use lazy_storage.Client.Shown.{Watch, refresh, replayed, seen}
use lazy_storage.Client.Session.{
  Event, wrote_batch, heard_message, snapshot, delta, patch, ack, refused, rate_limited,
  unavailable, ended, opened, closed, retried, step, heard, is_gap, caught_up,
}
use lazy_storage.Client.Session.{or_else, Landing, resent, live}
use lazy_storage.Client.Pending.{is_later}
use lazy_storage.Clock.{adopt, number}
use lazy_storage.Client.Session.Gone.{all_into_base-outbox}
use lazy_storage.Client.Shown.Alone.{Avoids, trust_all-SameAt, trust_all-quiet}
use lazy_storage.Client.Shown.Unmoved.{
  Avoids-append, acknowledge-pending_for, remove_op-pending_for,
}
use lazy_storage.Client.Shown.Written.{covers, seen-Keyed, seen-is_there, write_seen-here}

-- Each record is shown as the base and the outbox give it.
abbrev pub Shows : Shape → (w : Watch) → Doc → List Pending → w.State → Type 0
Shows sh w base outbox s =
    (c : String) (id : Option String)
    → w.shown (record_key sh c id) s ≡ replayed sh base outbox c id

-- Every singleton has a value.
abbrev pub Stands : Shape → Doc → List Pending → Type 0
Stands sh base outbox =
    (c : String) (id : Option String)
    → (is_singleton sh c && not (is_there (replayed sh base outbox c id))) ≡ false

covers-Avoids :
    (sh : Shape) (j : KeyPath) (changes : List Change)
    → covers sh j changes ≡ false
    → Avoids sh j changes
unfolding any
covers-Avoids sh j [] h = tt
covers-Avoids sh j (change ∷ changes) h =
    (ground (arith, h), covers-Avoids sh j changes (ground (arith, h)))

-- Only the records of some changes have another base value or other pending changes.
pub record Moves (sh : Shape) (changes : List Change) (base base' : Doc)
    (outbox outbox' : List Pending) : Type 0 where
  pub rows : (j : KeyPath) → Avoids sh j changes → SameAt j base base'
  pub ops : (j : KeyPath) → Avoids sh j changes → pending_for sh j outbox ≡ pending_for sh j outbox'

all_into_base-SameAt :
    (sh : Shape) (j : KeyPath) (ps : List Patch) (s : Client)
    → s.base.journal ≡ none
    → Avoids sh j (all_ours sh ps)
    → SameAt j s.base (all_into_base sh ps s).base
unfolding all_into_base into_base
all_into_base-SameAt sh j [] s q a = SameAt-refl j s.base
all_into_base-SameAt sh j (p ∷ ps) s q a =
    let apart = Avoids-append sh j (ours sh p.changes) (all_ours sh ps) a in
    let next = into_base sh p s in
    let quiet = trust_all-quiet sh p.ts (ours sh p.changes) s.base q in
    SameAt-trans j s.base next.base _
      (trust_all-SameAt sh j p.ts (ours sh p.changes) s.base q apart.0)
      (all_into_base-SameAt sh j ps next quiet apart.1)

-- The messages that have records worked out again, and what leaves the base and the outbox.
abbrev pub Refreshes : Event → Type 0
Refreshes (wrote_batch now changes) = ⊥
Refreshes (heard_message now (snapshot landing base)) = ⊥
Refreshes event = Unit

module _ (sh : Shape) (w : Watch) where
  abbrev pub show : Client → Effect → w.State → w.State
  show s (refreshed changes) v = refresh sh w s.base s.outbox changes v
  show s (said_hello ops since) v = v
  show s (sent op) v = v
  show s replayed_all v = v

  -- `state` after what a step did.
  abbrev pub show_all : Client → List Effect → w.State → w.State
  show_all s [] v = v
  show_all s (e ∷ es) v = show_all s es (show s e v)

  refresh-Shows :
      (changes : List Change) (base base' : Doc) (outbox outbox' : List Pending) (s : w.State)
      → Moves sh changes base base' outbox outbox'
      → Stands sh base' outbox'
      → Shows sh w base outbox s
      → Shows sh w base' outbox' (refresh sh w base' outbox' changes s)
  unfolding refresh replayed get map_get
  refresh-Shows changes base base' outbox outbox' s m stands shows c id =
      let j = record_key sh c id in
      write_seen-here sh w base' outbox' stands c id (seen sh [] changes) s
        (seen-Keyed sh [] changes tt)
        (λ absent.
          let avoids =
            covers-Avoids sh j changes (ground (arith, seen-is_there sh j [] changes, absent)) in
          let same = m.rows j avoids in shows c id ∙ rw (same.row, same.times, m.ops j avoids) refl)

  resent-shows :
      (t : Client) (answered : ℕ) (ops : List Pending) (v : w.State)
      → show_all t (resent answered ops) v ≡ v
  unfolding resent
  resent-shows t answered [] v = refl
  resent-shows t answered (op ∷ ops) v = elim (Bool-cases (is_later answered op)) [
    | inl e ↦ rw e (resent-shows t answered ops v)
    | inr e ↦ rw e (resent-shows t answered ops v)
  ]

  only_sends :
      (test : Bool) (t : Client) (answered : ℕ) (ops : List Pending) (v : w.State)
      → show_all t (if test then resent answered ops else []) v ≡ v
  only_sends true t answered ops v = resent-shows t answered ops v
  only_sends false t answered ops v = refl

  -- A step leaves `state` right where it was.
  Keeps : w.State → Client × List Effect → Type 0
  Keeps v r = Stands sh r.0.base r.0.outbox → Shows sh w r.0.base r.0.outbox (show_all r.0 r.1 v)

  module _ (s : Client) (v : w.State) (quiet : s.base.journal ≡ none)
      (shows : Shows sh w s.base s.outbox v) where
    heard_patch-Shows : (p : Patch) → Keeps v (heard_patch sh p s)
    unfolding Keeps heard_patch hello hello_with into_base
    heard_patch-Shows p =
        if_intro (Keeps v) (not s.synced) (λ stands. shows)
          (if_intro (Keeps v) (is_gap s.known p.v) (λ stands. shows)
            (λ stands.
              refresh-Shows (ours sh p.changes) s.base _ s.outbox s.outbox v
                (record {
                  rows = λ j a. trust_all-SameAt sh j p.ts (ours sh p.changes) s.base quiet a;
                  ops = λ j a. refl;
                })
                stands shows))

    heard_ack-Shows :
        (now seq : ℕ) (o : Option ℕ) (server_now : ℕ) → Keeps v (heard_ack now seq o server_now s)
    unfolding Keeps heard_ack
    heard_ack-Shows now seq o server_now stands =
        refresh-Shows (acknowledge seq s.outbox).1 s.base s.base s.outbox _ v
          (record {
            rows = λ j a. SameAt-refl j s.base;
            ops = λ j a. acknowledge-pending_for sh j seq s.outbox a;
          })
          stands shows

    without_op-Shows :
        (seq : ℕ) (o : Option Pending) → find_op seq s.outbox ≡ o → Keeps v (without_op seq o s)
    unfolding Keeps
    without_op-Shows seq none e stands = shows
    without_op-Shows seq (some op) e stands =
        refresh-Shows op.changes s.base s.base s.outbox _ v
          (record {
            rows = λ j a. SameAt-refl j s.base;
            ops = λ j a. remove_op-pending_for sh j seq op s.outbox e a;
          })
          stands shows

    heard_delta-Shows :
        (now : ℕ) (landing : Landing) (entries : List Patch)
        → Keeps v (heard sh now (delta landing entries) s)
    unfolding Keeps heard caught_up
    heard_delta-Shows now landing entries stands =
        let up_to = or_else 0 landing.seq in
        let acked = acknowledge up_to s.outbox in
        let before : Client = record s {
          clock = adopt now (number landing.now) s.clock;
          outbox = acked.0;
        } in
        let after = all_into_base sh entries before in
        let changes = all_ours sh entries ++ acked.1 in
        let after_all : Client = record after {
          known = record { v = or_else s.known.v landing.v; epoch = landing.epoch };
          synced = true;
        } in
        let moves : Moves sh changes s.base after.base s.outbox after.outbox = record {
          rows = λ j a.
              all_into_base-SameAt sh j entries before quiet
                (Avoids-append sh j (all_ours sh entries) acked.1 a).0;
          ops = λ j a.
              acknowledge-pending_for sh j up_to s.outbox
                (Avoids-append sh j (all_ours sh entries) acked.1 a).1
              ∙ ap (pending_for sh j) (sym (all_into_base-outbox sh entries before));
        } in
        let shown =
          refresh-Shows changes s.base after.base s.outbox after.outbox v moves stands shows in
        λ c id.
          ap (w.shown (record_key sh c id))
            (only_sends (live after_all) after_all after.answered after.outbox _)
          ∙ shown c id

  -- Equivalence: let every record be shown as the base with the pending changes replayed gives it, and no
  -- trial run on the base. Then it is so after the link opens or closes, the hello is tried again, or a
  -- message other than a snapshot comes, though only the records are worked out again that the message
  -- or the ops it settles are of; where, after it, every singleton has a value.
  pub step-Shows :
      (event : Event) (s : Client) (v : w.State)
      → Refreshes event
      → s.base.journal ≡ none
      → Stands sh (step sh event s).0.base (step sh event s).0.outbox
      → Shows sh w s.base s.outbox v
      → Shows sh w
          (step sh event s).0.base
          (step sh event s).0.outbox
          (show_all (step sh event s).0 (step sh event s).1 v)
  unfolding step heard heard_refusal Keeps hello hello_with
  step-Shows opened s v r quiet stands shows = shows
  step-Shows closed s v r quiet stands shows = shows
  step-Shows retried s v r quiet stands shows =
      if_intro (Keeps v) s.linked (λ h. shows) (λ h. shows) stands
  step-Shows (wrote_batch now changes) s v r quiet stands shows = absurd r
  step-Shows (heard_message now (snapshot landing base)) s v r quiet stands shows = absurd r
  step-Shows (heard_message now (delta landing entries)) s v r quiet stands shows =
      heard_delta-Shows s v quiet shows now landing entries stands
  step-Shows (heard_message now (patch p)) s v r quiet stands shows =
      heard_patch-Shows s v quiet shows p stands
  step-Shows (heard_message now (ack seq o server_now)) s v r quiet stands shows =
      heard_ack-Shows s v quiet shows now seq o server_now stands
  step-Shows (heard_message now (rate_limited seq)) s v r quiet stands shows = shows
  step-Shows (heard_message now (refused seq)) s v r quiet stands shows =
      without_op-Shows s v quiet shows seq (find_op seq s.outbox) refl stands
  step-Shows (heard_message now unavailable) s v r quiet stands shows = shows
  step-Shows (heard_message now ended) s v r quiet stands shows = shows
