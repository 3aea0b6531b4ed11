-- ===== src/Clock/Order.antt =====
-- core/clock.js: what a clock has made or seen stays behind what it says from then on.
use lazy_storage.Base.{
  ℕ, ◌+◌, ◌≤◌, ◌<◌, max, ◌≡◌, inl, inr, Option, none, some, List, [], ◌∷◌, arith, Option-cases, All,
}
use lazy_storage.Clock.{
  Received, ReplicaClock, time, stamp, observe, timestamp, adopt, adopt_time, observe_time,
  difference, shifted, number,
}

-- What happens to a clock, each with the wall clock's reading where the code reads it.
pub data Event : Type 0 where
  stamped : ℕ → Event
  observed : Received → Event
  adopted : ℕ → Received → Event

unfoldable pub react : Event → ReplicaClock → ReplicaClock
react (stamped now) clock = (stamp now clock).1
react (observed ts) clock = observe ts clock
react (adopted now server_now) clock = adopt now server_now clock

unfoldable pub replay : List Event → ReplicaClock → ReplicaClock
replay [] clock = clock
replay (event ∷ events) clock = replay events (react event clock)

-- The timestamps that a clock makes or receives on the way.
abbrev pub told : Event → ReplicaClock → Option ℕ
told (stamped now) clock = some (stamp now clock).0
told (observed ts) clock = timestamp ts
told (adopted now server_now) clock = none

abbrev pub with_told : Option ℕ → List ℕ → List ℕ
with_told none rest = rest
with_told (some ts) rest = ts ∷ rest

unfoldable pub met : List Event → ReplicaClock → List ℕ
met [] clock = []
met (event ∷ events) clock = with_told (told event clock) (met events (react event clock))

react-highest : (event : Event) (clock : ReplicaClock) → clock.highest ≤ (react event clock).highest
unfolding react stamp observe observe_time adopt adopt_time
react-highest (stamped now) clock = ground arith
react-highest (observed ts) clock = elim (Option-cases (timestamp ts)) [
  | inl e ↦ ground arith
  | inr (t, e) ↦ ground arith
]
react-highest (adopted now ts) clock = elim (Option-cases (timestamp ts)) [
  | inl e ↦ ground arith
  | inr (t, e) ↦ ground arith
]

pub replay-highest :
    (events : List Event) (clock : ReplicaClock) → clock.highest ≤ (replay events clock).highest
unfolding replay
replay-highest [] clock = ground arith
replay-highest (event ∷ events) clock =
    ground (arith, react-highest event clock, replay-highest events (react event clock))

told-highest :
    (event : Event) (clock : ReplicaClock) (ts : ℕ)
    → told event clock ≡ some ts
    → ts ≤ (react event clock).highest
unfolding react stamp observe observe_time
told-highest (stamped now) clock ts e = ground arith
told-highest (observed r) clock ts e = rw e (ground arith)
told-highest (adopted now r) clock ts e = absurd (cc)

-- Whatever a clock makes and receives: a timestamp that it makes after that is above everything it
-- had made or received, and the time that it says is not below any of it.
pub stamp-IsLatest :
    (events : List Event) (clock : ReplicaClock) (now : ℕ)
    → All
        (λ ts. (ts < (stamp now (replay events clock)).0) × (ts ≤ time now (replay events clock)))
        (met events clock)
unfolding met replay
stamp-IsLatest [] clock now = tt
stamp-IsLatest (event ∷ events) clock now = elim (Option-cases (told event clock)) [
  | inl e ↦ rw (e, met, replay, All) (stamp-IsLatest events (react event clock) now)
  | inr (ts, e) ↦
      rw (e, met, replay, All)
        ((
          unfold stamp time in
              ground
                (arith, told-highest event clock ts e, replay-highest events (react event clock)),
          stamp-IsLatest events (react event clock) now,
        ))
]

-- Taking over the server's time does not lose what was seen: at the same reading of the wall clock,
-- `time` is the server's time, or what the clock had reached if that is later; and the next timestamp is
-- the server's time, or one past what the clock had reached if that is later.
pub adopt-time :
    (now server_now : ℕ) (clock : ReplicaClock)
    → server_now < 9007199254740992
    → (time now (adopt now (number server_now) clock) ≡ max server_now clock.highest)
      × ((stamp now (adopt now (number server_now) clock)).0 ≡ max server_now (clock.highest + 1))
unfolding time adopt adopt_time timestamp difference shifted stamp
adopt-time now server_now clock h = (ground arith, ground arith)
