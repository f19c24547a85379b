-- ===== src/RateLimit.antt =====
-- server/app/rate_limit.py: the sliding-window limiter of attempts per origin.
-- Time is a natural number in a fixed unit (the source has float seconds of a monotonic clock),
-- and an origin, which is only compared, is the number that names it. The lock of the source makes
-- each call one step.
pub mod Bounds
pub mod History
pub mod Recovery
mod Tests
use android_streamdeck.Base.{
  ℕ, ◌-◌, Bool, true, false, ◌&&◌, Option, none, some, List, [], ◌∷◌, ◌++◌, length, keep, ltb, leb,
  is_none, if◌then◌else◌,
}
use android_streamdeck.Base.Dict.{Dict, lookup, insert, erase}

-- `max_attempts`, `window_seconds` and `max_origins`
pub record Limits : Type 0 where
  pub max_attempts : ℕ
  pub window : ℕ
  pub max_origins : ℕ

-- The tests of the constructor, with its messages.
pub data ConfigError : Type 0 where
  bad_max_attempts bad_window bad_max_origins : ConfigError

pub data Built : Type 0 where
  built : Limits → Built
  refused : ConfigError → Built

-- `AttemptRateLimiter.__init__`
unfoldable pub build : ℕ → ℕ → ℕ → Built
build max_attempts window max_origins =
    if ltb max_attempts 1
    then refused bad_max_attempts
    else if leb window 0
    then refused bad_window
    else if ltb max_origins 1
    then refused bad_max_origins
    else built (record { max_attempts = max_attempts; window = window; max_origins = max_origins })

-- `self._attempts`: the attempts of each origin, oldest first
abbrev pub Attempts : Type 0
Attempts = Dict (List ℕ)

-- `timestamps[-1]`, for a list that is not empty
abbrev pub last_or : ℕ → List ℕ → ℕ
last_or d [] = d
last_or d (t ∷ ts) = last_or t ts

-- `not timestamps or now - timestamps[-1] >= self.window_seconds`
abbrev pub is_stale : ℕ → ℕ → List ℕ → Bool
is_stale window now [] = true
is_stale window now (t ∷ ts) = leb window (now - last_or t ts)

-- `now - timestamp < self.window_seconds`
abbrev pub is_recent : ℕ → ℕ → ℕ → Bool
is_recent window now t = ltb (now - t) window

-- `expired_keys` and the loop that pops them
unfoldable pub purge : ℕ → ℕ → Attempts → Attempts
purge window now [] = []
purge window now ((k, ts) ∷ d) =
    if is_stale window now ts then purge window now d else (k, ts) ∷ purge window now d

-- `self._attempts.get(key, [])`
abbrev pub attempts_of : ℕ → Attempts → List ℕ
attempts_of key d = elim (lookup key d) [ none ↦ [] | some ts ↦ ts ]

-- The end of `allow`, once the origin has its place.
unfoldable pub record_attempt : Limits → ℕ → ℕ → List ℕ → Attempts → Bool × Attempts
record_attempt c now key recent d =
    if leb c.max_attempts (length recent)
    then (false, insert key recent d)
    else (true, insert key (recent ++ now ∷ []) d)

-- `AttemptRateLimiter.allow`, at the time `now`
unfoldable pub allow : Limits → ℕ → ℕ → Attempts → Bool × Attempts
unfolding purge record_attempt
allow c now key d =
    let live = purge c.window now d in
    if is_none (lookup key live) && leb c.max_origins (length live)
    then (false, live)
    else record_attempt c now key (keep (is_recent c.window now) (attempts_of key live)) live

-- `AttemptRateLimiter.reset`
unfoldable pub reset : ℕ → Attempts → Attempts
reset key d = erase key d
