-- ===== src/Client/Fetched.antt =====
-- client/snapshot-fetch.js: what a fetch that was let go of does, and what one that was not gives.
use lazy_storage.Base.{
  ℕ, ◌+◌, ◌≤◌, ◌<◌, ◌≡◌, refl, sym, ap, ◌∙◌, ◌⊎◌, inl, inr, true, false, ◌&&◌, Option, none, some,
  List, [], ◌∷◌, ◌++◌, arith, leb, ◌==◌, leb→le, Bool-cases, if_intro, append_cons, append_nil,
}
use lazy_storage.Client.Fetch.{
  Message, Fetcher, Arrival, arrive, hold, cancel, reset, begin_fetch, arrive_in, nothing, closed,
  snapshot_of, Outcome, no_snapshot, landed_with, patch_to, fresh, other_message,
}

-- What may happen to a fetcher.
pub data Turn : Fetcher → Fetcher → Type 0 where
  held_back : (message : Message) (f : Fetcher) → Turn f (hold message f).0
  cancelled : (f : Fetcher) → Turn f (cancel f)
  renewed : (f : Fetcher) → Turn f (reset f)
  begun : (f : Fetcher) → Turn f (begin_fetch f)
  arrived : (mine : ℕ) (arrival : Arrival) (f : Fetcher) → Turn f (arrive mine arrival f).0

pub data Turns (f : Fetcher) : Fetcher → Type 0 where
  no_turn : Turns f f
  turn_after : {g h : Fetcher} → Turns f g → Turn g h → Turns f h

arrive_in-attempt :
    (mine : ℕ) (arrival : Arrival) (f : Fetcher) (held : Option (ℕ × List Message))
    → (arrive_in mine arrival f held).0.attempt ≡ f.attempt
arrive_in-attempt mine arrival f none = refl
arrive_in-attempt mine (snapshot_of version) f (some (tag, queue)) =
    if_intro (λ (r : Fetcher × Outcome). r.0.attempt ≡ f.attempt) (f.attempt == mine && tag == mine)
      refl refl
arrive_in-attempt mine no_snapshot f (some (tag, queue)) =
    if_intro (λ (r : Fetcher × Outcome). r.0.attempt ≡ f.attempt) (f.attempt == mine && tag == mine)
      refl refl

Turn-attempt : {f g : Fetcher} → Turn f g → f.attempt ≤ g.attempt
unfolding hold cancel reset begin_fetch arrive
Turn-attempt (held_back message f) = omega arith
Turn-attempt (cancelled f) = omega arith
Turn-attempt (renewed f) = omega arith
Turn-attempt (begun f) = omega arith
Turn-attempt (arrived mine arrival f) = omega (arith, arrive_in-attempt mine arrival f f.held)

Turns-attempt : {f g : Fetcher} → Turns f g → f.attempt ≤ g.attempt
Turns-attempt no_turn = omega arith
Turns-attempt (turn_after before turn) = omega (arith, Turns-attempt before, Turn-attempt turn)

arrive_in-late :
    (mine : ℕ) (arrival : Arrival) (f : Fetcher) (held : Option (ℕ × List Message))
    → mine < f.attempt
    → arrive_in mine arrival f held ≡ (f, nothing)
arrive_in-late mine arrival f none lt = refl
arrive_in-late mine arrival f (some (tag, queue)) lt =
    let late : (f.attempt == mine) ≡ false = ground (arith, lt) in rw late refl

-- Once a fetch was let go of, by a cancel, a reset or another fetch, and whatever happens after that:
-- its answer, a snapshot or a failure, changes nothing and tells the caller nothing.
pub arrive-late :
    (f let_go g : Fetcher) (arrival : Arrival)
    → ((let_go ≡ cancel (begin_fetch f)) ⊎ (let_go ≡ reset (begin_fetch f)))
      ⊎ (let_go ≡ begin_fetch (begin_fetch f))
    → Turns let_go g
    → arrive (begin_fetch f).attempt arrival g ≡ (g, nothing)
unfolding arrive cancel reset begin_fetch
arrive-late f let_go g arrival how steps =
    let more : f.attempt + 1 < let_go.attempt = elim how [
      | inl (inl e) ↦ rw e (omega arith)
      | inl (inr e) ↦ rw e (omega arith)
      | inr e ↦ rw e (omega arith)
    ] in
    arrive_in-late (f.attempt + 1) arrival g g.held (omega (arith, more, Turns-attempt steps))

unfoldable pub hold_all : List Message → Fetcher → Fetcher
hold_all [] f = f
hold_all (message ∷ messages) f = hold_all messages (hold message f).0

-- The messages that wait: all but the store's end.
unfoldable pub awaiting : List Message → List Message
awaiting [] = []
awaiting (closed ∷ messages) = awaiting messages
awaiting (message ∷ messages) = message ∷ awaiting messages

abbrev pub holding : Fetcher → ℕ → List Message → Fetcher
holding f tag queue = record f { held = some (tag, queue) }

hold_all-holding :
    (messages : List Message) (f : Fetcher) (tag : ℕ) (queue : List Message)
    → hold_all messages (holding f tag queue) ≡ holding f tag (queue ++ awaiting messages)
unfolding hold_all hold awaiting
hold_all-holding [] f tag queue = ap (holding f tag) (sym (append_nil queue))
hold_all-holding (closed ∷ messages) f tag queue = hold_all-holding messages f tag queue
hold_all-holding (patch_to v ∷ messages) f tag queue =
    hold_all-holding messages f tag (queue ++ patch_to v ∷ [])
    ∙ ap (holding f tag) (append_cons queue (awaiting messages) (patch_to v))
hold_all-holding (other_message n ∷ messages) f tag queue =
    hold_all-holding messages f tag (queue ++ other_message n ∷ [])
    ∙ ap (holding f tag) (append_cons queue (awaiting messages) (other_message n))

-- Of the messages that came while a snapshot of a version was fetched, in order, those that follow it:
-- all but the store's end, and patches that the snapshot has.
pub data Follows (version : ℕ) : List Message → List Message → Type 0 where
  none_came : Follows version [] []
  skips_end :
      {ms rest : List Message} → Follows version ms rest → Follows version (closed ∷ ms) rest
  skips_patch :
      (v : ℕ) {ms rest : List Message}
      → v ≤ version
      → Follows version ms rest
      → Follows version (patch_to (some v) ∷ ms) rest
  keeps_patch :
      (v : ℕ) {ms rest : List Message}
      → version < v
      → Follows version ms rest
      → Follows version (patch_to (some v) ∷ ms) (patch_to (some v) ∷ rest)
  keeps_unnumbered :
      {ms rest : List Message}
      → Follows version ms rest
      → Follows version (patch_to none ∷ ms) (patch_to none ∷ rest)
  keeps_other :
      (n : ℕ) {ms rest : List Message}
      → Follows version ms rest
      → Follows version (other_message n ∷ ms) (other_message n ∷ rest)

fresh-Follows :
    (version : ℕ) (messages : List Message)
    → Follows version messages (fresh version (awaiting messages))
unfolding fresh awaiting
fresh-Follows version [] = none_came
fresh-Follows version (closed ∷ ms) = skips_end (fresh-Follows version ms)
fresh-Follows version (other_message n ∷ ms) = keeps_other n (fresh-Follows version ms)
fresh-Follows version (patch_to none ∷ ms) = keeps_unnumbered (fresh-Follows version ms)
fresh-Follows version (patch_to (some v) ∷ ms) =
    let rest = fresh-Follows version ms in
    elim (Bool-cases (leb v version)) [
      | inl e ↦ rw e (skips_patch v (leb→le v version e) rest)
      | inr e ↦ rw e (keeps_patch v (ground (arith, e)) rest)
    ]

-- A fetch that nothing but messages came between: when its snapshot arrives, the caller gets every one
-- of them but the store's end and the patches of versions up to the snapshot's, in the order they came,
-- and nothing waits any more.
pub arrive-whole :
    (f : Fetcher) (messages : List Message) (version : ℕ)
    → (rest : List Message) × Follows version messages rest
      × (arrive (begin_fetch f).attempt (snapshot_of version) (hold_all messages (begin_fetch f))
          ≡ (record f { attempt = f.attempt + 1; held = none }, landed_with version rest))
unfolding arrive begin_fetch
arrive-whole f messages version =
    let held =
      hold_all-holding messages (record f { attempt = f.attempt + 1 }) (f.attempt + 1) [] in
    let own : (f.attempt + 1 == f.attempt + 1) ≡ true = ground arith in
    (fresh version (awaiting messages), fresh-Follows version messages, rw (held, own) refl)
