-- ===== src/Store/Throttle.antt =====
-- server/store.js, `throttle`: a bucket of tokens for each user, a token an op. The numbers are doubles,
-- known by their bits, and what JavaScript computes on them is a parameter.
use lazy_storage.Base.{
  String, ℕ, ◌+◌, Bool, Option, none, some, [], ◌∷◌, ltb, leb, if◌then◌else◌, length, path_eq, Map,
  map_get, map_set, string_eq,
}
use lazy_storage.Clock.{ℤ, pos, difference}

-- The arithmetic of doubles, each by its bits: +, -, *, /, `Math.min`, >=, and `Math.ceil` of a double
-- above 0, as a whole number.
pub record Doubles : Type 0 where
  pub double : ℤ → ℕ
  pub plus : ℕ → ℕ → ℕ
  pub minus : ℕ → ℕ → ℕ
  pub times : ℕ → ℕ → ℕ
  pub over : ℕ → ℕ → ℕ
  pub least : ℕ → ℕ → ℕ
  pub at_least : ℕ → ℕ → Bool
  pub ceiling : ℕ → ℕ

-- `rateLimit`, with the arithmetic of its numbers.
pub record RateLimit : Type 0 where
  pub doubles : Doubles
  pub burst : ℕ
  pub per_second : ℕ

pub record Bucket : Type 0 where
  pub tokens : ℕ
  pub at : ℕ

abbrev pub full_bucket : RateLimit → ℕ → Bucket
full_bucket limit wall = record { tokens = limit.burst; at = wall }

-- `Math.min(burst, tokens + ((wall - at) / 1000) * perSecond)`
unfoldable pub refill : RateLimit → ℕ → Bucket → Bucket
refill limit wall bucket =
    let m = limit.doubles in
    let seconds = m.over (m.double (difference wall bucket.at)) (m.double (pos 1000)) in
    record {
      tokens = m.least limit.burst (m.plus bucket.tokens (m.times seconds limit.per_second));
      at = wall;
    }

-- `Math.ceil(((1 - tokens) / perSecond) * 1000)`
abbrev pub wait_for : RateLimit → ℕ → ℕ
wait_for limit tokens =
    let m = limit.doubles in
    m.ceiling
      (m.times (m.over (m.minus (m.double (pos 1)) tokens) limit.per_second) (m.double (pos 1000)))

-- A token taken, or how long to wait for one.
unfoldable pub spend : RateLimit → Bucket → Bucket × ℕ
spend limit bucket =
    let m = limit.doubles in
    let one = m.double (pos 1) in
    if m.at_least bucket.tokens one
    then (record bucket { tokens = m.minus bucket.tokens one }, 0)
    else (bucket, wait_for limit bucket.tokens)

-- Buckets that nobody took from for a minute.
unfoldable pub drop_old : ℕ → Map String Bucket → Map String Bucket
drop_old wall [] = []
drop_old wall ((key, bucket) ∷ m) =
    let rest = drop_old wall m in
    if ltb (bucket.at + 60000) wall then rest else (key, bucket) ∷ rest

-- The bucket of a key, made full where there is none; the old ones are dropped first where there are
-- many.
unfoldable pub bucket_in :
    RateLimit → ℕ → Map String Bucket → Option Bucket → Map String Bucket × Bucket
bucket_in limit wall m (some bucket) = (m, bucket)
bucket_in limit wall m none =
    (if leb 10000 (length m) then drop_old wall m else m, full_bucket limit wall)

unfoldable pub bucket_of : RateLimit → ℕ → String → Map String Bucket → Map String Bucket × Bucket
bucket_of limit wall key m = bucket_in limit wall m (map_get key m)

unfoldable pub take_token :
    RateLimit → ℕ → String → Map String Bucket × Bucket → Map String Bucket × ℕ
take_token limit wall key (m, bucket) =
    let (left, wait) = spend limit (refill limit wall bucket) in (map_set key left m, wait)

-- 0 where the op may go on, or how long it has to wait.
unfoldable pub throttle : Option RateLimit → ℕ → String → Map String Bucket → Map String Bucket × ℕ
throttle none wall key m = (m, 0)
throttle (some limit) wall key m = take_token limit wall key (bucket_of limit wall key m)
