-- ===== src/Http/Invariant/Requests.antt =====
-- The invariants across any request to the routes of server/app/api.py.
use android_streamdeck.Base.{ℕ, ◌≡◌, arith, Bool-cases, inl, inr}
use android_streamdeck.Http.{Config, Request, Moment, State, Handler, require_http_auth}
use android_streamdeck.Http.Devices.{ClaimRequest, has_one_claim_mode}
use android_streamdeck.Http.Routes.{
  Body, Route, profile_route, list_devices, create_local_pairing_session, malformed, revoke_device,
  pairing_bootstrap, claim_pairing, answer, serve_claim, serve,
}
use android_streamdeck.Http.Invariant.{KeepsSound, sound_then}
use android_streamdeck.Http.Invariant.Profiles.{serve_profile-Keeps}
use android_streamdeck.Http.Invariant.Devices.{
  list_devices_route-Keeps, revoke_device_route-Keeps, pairing_bootstrap_route-Keeps,
  create_local_pairing_session_route-Keeps, claim_pairing_route-Keeps,
}

require_http_auth-same : (c : Config) (r : Request) (s : State) → (require_http_auth c r s).1 ≡ s
unfolding require_http_auth
require_http_auth-same c r s = ground arith

module _ (n : ℕ) (c : Config) (m : Moment) (r : Request) where
  answer-Keeps :
      {A : Type 0} (f : A → Body) (h : Handler A) → KeepsSound n h → KeepsSound n (answer f h)
  answer-Keeps f h k = sound_then n h _ k λ a s v. v

  serve_claim-Keeps : (p : ClaimRequest) → KeepsSound n (serve_claim c m r p)
  unfolding serve_claim
  serve_claim-Keeps p s v = elim (Bool-cases (has_one_claim_mode p)) [
    | inl e ↦ rw e (answer-Keeps _ _ (claim_pairing_route-Keeps n c r m p) s v)
    | inr e ↦ rw e v
  ]

  pub serve-Keeps : (route : Route) → KeepsSound n (serve c m r route)
  unfolding serve
  serve-Keeps (profile_route p) =
      sound_then n _ _ (λ s v. rw (require_http_auth-same c r s) v) λ u. serve_profile-Keeps n c m p
  serve-Keeps list_devices = answer-Keeps _ _ (list_devices_route-Keeps n c r m)
  serve-Keeps create_local_pairing_session =
      answer-Keeps _ _ (create_local_pairing_session_route-Keeps n c r m)
  serve-Keeps malformed = λ s v. v
  serve-Keeps (revoke_device i reason) =
      answer-Keeps _ _ (revoke_device_route-Keeps n c r m i reason)
  serve-Keeps (pairing_bootstrap id) = answer-Keeps _ _ (pairing_bootstrap_route-Keeps n c r m id)
  serve-Keeps (claim_pairing p) = serve_claim-Keeps p
