-- ===== src/RateLimit/Recovery.antt =====
-- The limiter of server/app/rate_limit.py after a pause.
use android_streamdeck.Base.{ℕ, ◌+◌, ◌≤◌, ◌≡◌, refl, true, [], ◌∷◌, List, arith}
use android_streamdeck.Base.Dict.{lookup}
use android_streamdeck.RateLimit.{Limits, Attempts, last_or, is_stale, purge, record_attempt, allow}
use android_streamdeck.RateLimit.Bounds.{Ascends, AllKept}
use android_streamdeck.RateLimit.History.{Call, InOrder, observe_all, observe_all-IsBounded, unused}

last_or-early : (now d : ℕ) (ts : List ℕ) → d ≤ now → Ascends now ts → last_or d ts ≤ now
last_or-early now d [] h a = h
last_or-early now d (t ∷ []) h a = a.0
last_or-early now d (t ∷ u ∷ ts) h a = last_or-early now t (u ∷ ts) (omega (arith, a.0)) a.2

all_stale :
    (window now later : ℕ) (ts : List ℕ)
    → now + window ≤ later
    → Ascends now ts
    → is_stale window later ts ≡ true
all_stale window now later [] h a = refl
all_stale window now later (t ∷ ts) h a = ground (arith, h, last_or-early now t ts (a.0) a.2)

purge_empties :
    (c : Limits) (now later : ℕ) (d : Attempts)
    → now + c.window ≤ later
    → AllKept c now d
    → purge c.window later d ≡ []
unfolding purge
purge_empties c now later [] h a = refl
purge_empties c now later ((k, ts) ∷ d) h a =
    ground (arith, all_stale c.window now later ts h a.0.1, purge_empties c now later d h a.1)

-- After any calls in clock order, and then `window` without a call, an attempt of any origin is
-- accepted, where the limits admit an attempt and an origin at all: no lockout lasts.
pub lockout_ends :
    (c : Limits) (k now later : ℕ) (calls : List Call)
    → InOrder 0 calls now
    → now + c.window ≤ later
    → 1 ≤ c.max_attempts
    → 1 ≤ c.max_origins
    → (allow c later k (observe_all c k calls unused).0).0 ≡ true
unfolding allow record_attempt lookup
lockout_ends c k now later calls h pause some_attempts some_origins =
    let d = (observe_all c k calls unused).0 in
    let empty = purge_empties c now later d pause (observe_all-IsBounded c k now calls h).kept in
    ground (arith, empty)
