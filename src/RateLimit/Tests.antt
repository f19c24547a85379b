-- ===== src/RateLimit/Tests.antt =====
-- The limiter on concrete calls.
use android_streamdeck.Base.{
  ◌≤◌, ◌≡◌, refl, true, not, ◌&&◌, ◌||◌, ℕ, List, [], ◌∷◌, arith, length, keep, ltb, is_none,
}
use android_streamdeck.Base.Dict.{HasKeys, lookup, insert, erase}
use android_streamdeck.RateLimit.{
  Limits, build, refused, bad_window, is_recent, purge, allow, reset,
}
use android_streamdeck.RateLimit.Recovery.{lockout_ends}
use android_streamdeck.RateLimit.History.{
  Call, attempt, forget, observe, observe_all, unused, accepted_in_window, has_recent,
  allow_decides,
}

-- Two attempts in ten time units, three origins.
abbrev small : Limits
small = record { max_attempts = 2; window = 10; max_origins = 3 }

abbrev busy : List Call
busy = attempt 7 1 ∷ attempt 7 2 ∷ attempt 7 3 ∷ attempt 8 4 ∷ attempt 7 12 ∷ []

no_window : build 5 0 1 ≡ refused bad_window
unfolding build
no_window = refl

third_is_refused : (observe_all small 7 busy unused).1 ≡ 1 ∷ 2 ∷ 12 ∷ []
unfolding observe_all observe allow purge lookup insert
third_is_refused = refl

reset_allows :
    (observe_all small 7 (attempt 7 1 ∷ attempt 7 2 ∷ forget 7 ∷ attempt 7 3 ∷ []) unused).1
    ≡ 3 ∷ []
unfolding observe_all observe allow purge lookup insert reset erase
reset_allows = refl

accepted_in_window_example : length (keep (is_recent 10 12) (observe_all small 7 busy unused).1) ≤ 2
accepted_in_window_example = accepted_in_window small 7 12 busy (omega arith)

allow_decides_example :
    (let o = observe_all small 7 busy unused in
      let live = purge 10 13 o.0 in
      ((allow small 13 7 o.0).0
        ≡ (has_recent small 13 busy 7 || ltb (length live) 3)
          && ltb (length (keep (is_recent 10 13) o.1)) 2)
      × ((j : ℕ) → not (is_none (lookup j live)) ≡ has_recent small 13 busy j)
      × HasKeys live)
allow_decides_example = allow_decides small 7 13 busy (omega arith)

lockout_ends_example : (allow small 22 7 (observe_all small 7 busy unused).0).0 ≡ true
lockout_ends_example =
    lockout_ends small 7 12 22 busy (omega arith) (omega arith) (omega arith) (omega arith)
