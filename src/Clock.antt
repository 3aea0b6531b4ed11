-- ===== src/Clock.antt =====
-- core/clock.js: a replica's clock. The wall clock's reading is an argument of each operation, a
-- whole number of milliseconds. Times are exact up to 2^53, as the source's numbers are.
use lazy_storage.Base.{ℕ, ◌+◌, ◌-◌, Option, none, some, ltb, leb, if◌then◌else◌}
pub mod Order

-- What may be received as a timestamp: a whole number that is not negative, or something else.
pub data Received : Type 0 where
  number : ℕ → Received
  other : Received

-- The integers, for a clock's offset.
pub data ℤ : Type 0 where
  pos : ℕ → ℤ
  negsuc : ℕ → ℤ

pub record ReplicaClock : Type 0 where
  pub offset : ℤ
  pub highest : ℕ

-- `createClock`
abbrev pub create_clock : ReplicaClock
create_clock = record { offset = pos 0; highest = 0 }

-- `Number.isSafeInteger(ts) && ts >= 0`, where it holds the number.
unfoldable pub timestamp : Received → Option ℕ
timestamp (number n) = if ltb n 9007199254740992 then some n else none
timestamp other = none

-- `m - n`
unfoldable pub difference : ℕ → ℕ → ℤ
difference m n = if leb n m then pos (m - n) else negsuc (n - m - 1)

-- `now() + offset`, at least 0: the source takes the maximum with a number that is not negative.
unfoldable pub shifted : ℕ → ℤ → ℕ
shifted now (pos n) = now + n
shifted now (negsuc n) = now - (n + 1)

abbrev pub max : ℕ → ℕ → ℕ
max m n = if leb n m then m else n

-- `stamp`: the timestamp, and the clock after it.
unfoldable pub stamp : ℕ → ReplicaClock → ℕ × ReplicaClock
stamp now clock =
    let t = max (shifted now clock.offset) (clock.highest + 1) in (t, record clock { highest = t })

unfoldable pub observe_time : Option ℕ → ReplicaClock → ReplicaClock
observe_time none clock = clock
observe_time (some ts) clock = if ltb clock.highest ts then record clock { highest = ts } else clock

unfoldable pub observe : Received → ReplicaClock → ReplicaClock
observe ts clock = observe_time (timestamp ts) clock

unfoldable pub adopt_time : ℕ → Option ℕ → ReplicaClock → ReplicaClock
adopt_time now none clock = clock
adopt_time now (some server_now) clock = record {
  offset = difference server_now now;
  highest = if ltb clock.highest server_now then server_now - 1 else clock.highest;
}

unfoldable pub adopt : ℕ → Received → ReplicaClock → ReplicaClock
adopt now server_now clock = adopt_time now (timestamp server_now) clock

unfoldable pub time : ℕ → ReplicaClock → ℕ
time now clock = max (shifted now clock.offset) clock.highest

unfoldable pub clamp : ℕ → ℕ → ℕ
clamp ts limit = if ltb limit ts then limit else ts
