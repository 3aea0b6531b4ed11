-- ===== src/Client/Fetch.antt =====
-- client/snapshot-fetch.js: a snapshot fetched over HTTP while messages from the link wait. A queue is
-- told apart by the attempt that made it. The answer of the route comes when it comes, as a step.
use lazy_storage.Base.{
  ℕ, ◌+◌, Bool, true, false, not, ◌&&◌, Option, none, some, List, [], ◌∷◌, ◌++◌, leb, ◌==◌,
  if◌then◌else◌,
}

-- A message of the link, as the fetcher tells them apart: the store's end, a patch and its version, or
-- another (named by a number).
pub data Message : Type 0 where
  closed : Message
  patch_to : Option ℕ → Message
  other_message : ℕ → Message

pub record Fetcher : Type 0 where
  pub attempt : ℕ
  pub held : Option (ℕ × List Message)
  pub failed : Bool

abbrev pub create_fetcher : Fetcher
create_fetcher = record { attempt = 0; held = none; failed = false }

-- `offers`: `can_fetch` says whether the connection has a fetch function.
abbrev pub offers : Bool → Fetcher → Bool
offers can_fetch f = can_fetch && not f.failed

abbrev pub add_held : Message → Option (ℕ × List Message) → Option (ℕ × List Message) × Bool
add_held closed held = (held, false)
add_held message none = (none, false)
add_held message (some (tag, queue)) = (some (tag, queue ++ message ∷ []), true)

-- `hold`: true where the message waits.
unfoldable pub hold : Message → Fetcher → Fetcher × Bool
hold message f = let (held, waits) = add_held message f.held in (record f { held = held }, waits)

unfoldable pub cancel : Fetcher → Fetcher
cancel f = record f { attempt = f.attempt + 1; held = none }

unfoldable pub reset : Fetcher → Fetcher
reset f = record { attempt = f.attempt + 1; held = none; failed = false }

-- `fetch`, up to the request.
unfoldable pub begin_fetch : Fetcher → Fetcher
begin_fetch f = record f { attempt = f.attempt + 1; held = some (f.attempt + 1, []) }

-- A patch that the snapshot has already.
abbrev pub is_stale : ℕ → Message → Bool
is_stale version (patch_to (some v)) = leb v version
is_stale version _ = false

unfoldable pub fresh : ℕ → List Message → List Message
fresh version [] = []
fresh version (message ∷ queue) =
    let rest = fresh version queue in if is_stale version message then rest else message ∷ rest

-- What comes of the request: a snapshot of a version, or no snapshot.
pub data Arrival : Type 0 where
  snapshot_of : ℕ → Arrival
  no_snapshot : Arrival

-- What the caller is told.
pub data Outcome : Type 0 where
  nothing : Outcome
  landed_with : ℕ → List Message → Outcome
  failed_with : List Message → Outcome

abbrev pub finish_fetch : Arrival → List Message → Fetcher → Fetcher × Outcome
finish_fetch (snapshot_of version) queue f =
    (record f { held = none }, landed_with version (fresh version queue))
finish_fetch no_snapshot queue f = (record f { held = none; failed = true }, failed_with queue)

abbrev pub arrive_in : ℕ → Arrival → Fetcher → Option (ℕ × List Message) → Fetcher × Outcome
arrive_in mine arrival f none = (f, nothing)
arrive_in mine arrival f (some (tag, queue)) =
    if f.attempt == mine && tag == mine then finish_fetch arrival queue f else (f, nothing)

-- The answer of an attempt, which counts where the attempt is the current one.
unfoldable pub arrive : ℕ → Arrival → Fetcher → Fetcher × Outcome
arrive mine arrival f = arrive_in mine arrival f f.held
