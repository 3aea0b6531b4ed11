-- ===== src/Client/Session.antt =====
-- client/index.js: the client's side of the protocol. What the app is told, what the storage adapter
-- is given and what a fetched snapshot holds back (Client.Fetch) are left out; a message is in the
-- protocol's form, a snapshot as the doc that `baseFromState` makes of it, and `linked` is a link that
-- is there and online.
use lazy_storage.Base.{
  String, ℕ, suc, ◌+◌, Bool, true, false, not, ◌&&◌, ◌||◌, Option, none, some, List, [], ◌∷◌, ◌++◌,
  ltb, if◌then◌else◌, is_there, take, filter, ok, err,
}
use lazy_storage.Clock.{ReplicaClock, stamp, observe, adopt, number}
use lazy_storage.Doc.Remove.{Change}
use lazy_storage.Doc.State.{Doc}
use lazy_storage.Doc.Call.{trust}
use lazy_storage.Doc.Run.{apply}
use lazy_storage.Shape.{Shape, has}
use lazy_storage.Client.Pending.{
  Pending, acknowledge, find_op, remove_op, supersede, is_empty, is_later,
}
pub mod Sends
pub mod Fewer
pub mod Books
pub mod Reach
pub mod Gone
pub mod Mirror

pub record Known : Type 0 where
  pub v : ℕ
  pub epoch : Option String

pub record Client : Type 0 where
  pub outbox : List Pending
  pub seq : ℕ
  pub clock : ReplicaClock
  pub base : Doc
  pub known : Known
  pub linked : Bool
  pub synced : Bool
  pub throttled : Bool
  pub answered : ℕ

-- What goes to the server, and the records whose value in `state` is worked out again.
pub data Effect : Type 0 where
  said_hello : List Pending → Option (ℕ × String) → Effect
  sent : Pending → Effect
  refreshed : List Change → Effect
  replayed_all : Effect

pub record Patch : Type 0 where
  pub v : Option ℕ
  pub ts : ℕ
  pub changes : List Change

-- What snapshots and deltas have in common.
pub record Landing : Type 0 where
  pub seq : Option ℕ
  pub v : Option ℕ
  pub epoch : Option String
  pub now : ℕ

pub data ServerMessage : Type 0 where
  snapshot : Landing → Doc → ServerMessage
  delta : Landing → List Patch → ServerMessage
  patch : Patch → ServerMessage
  ack : (seq : ℕ) → Option ℕ → (now : ℕ) → ServerMessage
  rate_limited : Option ℕ → ServerMessage
  refused : ℕ → ServerMessage
  unavailable ended : ServerMessage

abbrev pub live : Client → Bool
live s = s.linked && s.synced && not s.throttled

abbrev pub hello_limit : ℕ
hello_limit = 1000

abbrev pub last_seq : List Pending → ℕ
last_seq [] = 0
last_seq (op ∷ []) = op.seq
last_seq (op ∷ next ∷ ops) = last_seq (next ∷ ops)

-- `since`, where an epoch is known.
abbrev pub since : Known → Option (ℕ × String)
since known = elim known.epoch [ none ↦ none | some epoch ↦ some (known.v, epoch) ]

unfoldable pub hello_with : ℕ → Client → Client × List Effect
hello_with limit s =
    let ops = take limit s.outbox in
    (record s { answered = last_seq ops; throttled = false }, said_hello ops (since s.known) ∷ [])

unfoldable pub hello : Client → Client × List Effect
unfolding hello_with
hello s = hello_with hello_limit s

-- A change that was decided already, onto the base; one that the doc throws on, which no server lands,
-- leaves it.
unfoldable pub trust_change : Shape → ℕ → Change → Doc → Doc
trust_change sh ts change base = elim (apply sh change ts trust base) [
  | ok st ↦ st.0
  | err e ↦ base
]

unfoldable pub trust_all : Shape → ℕ → List Change → Doc → Doc
trust_all sh ts [] base = base
trust_all sh ts (change ∷ changes) base = trust_all sh ts changes (trust_change sh ts change base)

-- `intoBase`: changes of a top level that this shape does not have are passed over.
abbrev pub ours : Shape → List Change → List Change
ours sh changes = filter (λ change. has sh change.c) changes

unfoldable pub into_base : Shape → Patch → Client → Client
into_base sh p s = record s {
  clock = observe (number p.ts) s.clock;
  base = trust_all sh p.ts (ours sh p.changes) s.base;
}

unfoldable pub all_into_base : Shape → List Patch → Client → Client
all_into_base sh [] s = s
all_into_base sh (p ∷ ps) s = all_into_base sh ps (into_base sh p s)

abbrev pub all_ours : Shape → List Patch → List Change
all_ours sh [] = []
all_ours sh (p ∷ ps) = ours sh p.changes ++ all_ours sh ps

abbrev pub or_else : ℕ → Option ℕ → ℕ
or_else n none = n
or_else n (some m) = m

-- The ops past the hello, each sent.
unfoldable pub resent : ℕ → List Pending → List Effect
resent answered [] = []
resent answered (op ∷ ops) =
    let rest = resent answered ops in if is_later answered op then sent op ∷ rest else rest

-- `caughtUp`, with what it does to the base and what is shown anew.
unfoldable pub caught_up :
    ℕ → Landing → (Client → Client) → (List Change → Effect) → Client → Client × List Effect
caught_up now landing apply_to_base shown s =
    let acked = acknowledge (or_else 0 landing.seq) s.outbox in
    let before = record s { clock = adopt now (number landing.now) s.clock; outbox = acked.0 } in
    let after = record (apply_to_base before) {
      known = record { v = or_else s.known.v landing.v; epoch = landing.epoch };
      synced = true;
    } in
    (after, shown acked.1 ∷ (if live after then resent after.answered after.outbox else []))

-- A version past the next: a patch never arrived.
abbrev pub is_gap : Known → Option ℕ → Bool
is_gap known none = false
is_gap known (some v) = is_there known.epoch && ltb (known.v + 1) v

unfoldable pub heard_patch : Shape → Patch → Client → Client × List Effect
heard_patch sh p s =
    let again = hello (record s { synced = false }) in
    let known : Known = record s.known { v = or_else s.known.v p.v } in
    let landed : Client × List Effect =
      (into_base sh p (record s { known = known }), refreshed (ours sh p.changes) ∷ []) in
    if not s.synced then (s, []) else if is_gap s.known p.v then again else landed

-- `msg.v > known.v`
abbrev pub later_version : ℕ → Option ℕ → ℕ
later_version v none = v
later_version v (some w) = if ltb v w then w else v

unfoldable pub heard_ack : ℕ → ℕ → Option ℕ → ℕ → Client → Client × List Effect
heard_ack now seq v server_now s =
    let acked = acknowledge seq s.outbox in
    (
      record s {
        clock = adopt now (number server_now) s.clock;
        known = record s.known { v = later_version s.known.v v };
        outbox = acked.0;
      },
      refreshed acked.1 ∷ [],
    )

abbrev pub without_op : ℕ → Option Pending → Client → Client × List Effect
without_op seq none s = (s, [])
without_op seq (some op) s =
    (record s { outbox = remove_op seq s.outbox }, refreshed op.changes ∷ [])

unfoldable pub heard_refusal : ℕ → Client → Client × List Effect
heard_refusal seq s = without_op seq (find_op seq s.outbox) s

-- `handle`, at `now` of this machine.
unfoldable pub heard : Shape → ℕ → ServerMessage → Client → Client × List Effect
heard sh now (snapshot landing base) s =
    caught_up now landing (λ c. record c { base = base }) (λ touched. replayed_all) s
heard sh now (delta landing entries) s =
    caught_up now landing (all_into_base sh entries)
      (λ touched. refreshed (all_ours sh entries ++ touched)) s
heard sh now (patch p) s = heard_patch sh p s
heard sh now (ack seq v server_now) s = heard_ack now seq v server_now s
heard sh now (rate_limited seq) s = (record s { throttled = s.throttled || is_there seq }, [])
heard sh now (refused seq) s = heard_refusal seq s
heard sh now unavailable s = (record s { synced = false }, [])
heard sh now ended s = (record s { linked = false; synced = false }, [])

-- The listener of a local batch, with what `compile` made of it.
unfoldable pub wrote : ℕ → List Change → Client → Client × List Effect
wrote now changes s =
    let (ts, clock) = stamp now s.clock in
    let op : Pending = record { seq = suc s.seq; ts = ts; changes = changes } in
    let after : Client = record s {
      seq = suc s.seq;
      clock = clock;
      outbox = supersede changes s.outbox ++ op ∷ [];
    } in
    if is_empty changes then (s, []) else (after, if live s then sent op ∷ [] else [])

pub data Event : Type 0 where
  opened closed retried : Event
  wrote_batch : (now : ℕ) → List Change → Event
  heard_message : (now : ℕ) → ServerMessage → Event

-- The handler of the connection and the timer of `retryHello`; `closed` is also `disconnect`.
unfoldable pub step : Shape → Event → Client → Client × List Effect
step sh opened s = hello (record s { linked = true; synced = false })
step sh closed s = (record s { linked = false; synced = false }, [])
step sh retried s = let again = hello s in if s.linked then again else (s, [])
step sh (wrote_batch now changes) s = wrote now changes s
step sh (heard_message now message) s = heard sh now message s
