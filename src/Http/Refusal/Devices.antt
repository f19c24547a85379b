-- ===== src/Http/Refusal/Devices.antt =====
-- Errors of the device and pairing routes of server/app/api.py, and of any request.
use android_streamdeck.Base.{
  ℕ, ◌≡◌, refl, Bool, true, false, Option, none, some, ◌≢◌, arith, Bool-cases, inl, inr,
}
use android_streamdeck.Base.Text.{Text, text_eq}
use android_streamdeck.Base.Dict.{lookup}
use android_streamdeck.RateLimit.{Attempts, allow}
use android_streamdeck.Credentials.{
  Reason, Actor, Client, Tables, pairing_session, is_revocation_reason, issue_token, claim_token,
  revoke_client, revoke_row, revoke_body,
}
use android_streamdeck.Credentials as Credentials
use android_streamdeck.Credentials.Inventory.{Device}
use android_streamdeck.Http.{
  ApiError, internal, Config, Request, Moment, State, Outcome, returned, raised, Handler,
  require_http_auth, require_admin, require_device_admin, check_admin,
}
use android_streamdeck.Http.Frame.{
  IsSame, IsSame-refl, Reads, CleanEnd, IsClean, IsSafe, Reads-IsClean, bind-Reads, require-Reads,
  Reads-then, IsClean-then, bind-IsSafe,
}
use android_streamdeck.Http.Devices.{
  ClaimRequest, has_one_claim_mode, next_device, list_devices_route, call_revoke, revoke_listed,
  revoke_device_route, allow_bootstrap, reset_bootstrap, call_bootstrap, pairing_bootstrap_route,
  private_server_ip, resolve_server_ip, call_create_session, create_local_pairing_session_route,
  allow_pairing, reset_pairing, call_claim, service_failure, service_outcome, call_issue_token,
  call_claim_token, claim_with, claim_pairing_route,
}
use android_streamdeck.Http.Routes.{
  Body, Route, profile_route, list_devices, create_local_pairing_session, malformed, revoke_device,
  pairing_bootstrap, claim_pairing, answer, serve_claim, serve,
}
use android_streamdeck.Http.Refusal.Profiles.{serve_profile-IsClean}
use android_streamdeck.Http.Refusal.{invalidate_sessions-IsSafe}

abbrev FailsClean : {A : Type 0} → Tables → Credentials.Result A × Tables → Type 0
FailsClean t (Credentials.ok a, t') = Unit
FailsClean t (Credentials.err e, t') = t' ≡ t

issue_token-FailsClean :
    (hash : Text → ℕ) (id : ℕ) (version : Text) (actor : Actor) (token : Text) (now : ℕ)
    (t : Tables)
    → FailsClean t (issue_token hash id version actor token now t)
unfolding issue_token
issue_token-FailsClean hash id version actor token now t = ground arith

claim_token-FailsClean :
    (hash : Text → ℕ) (configured : Option Text) (id : ℕ) (version code token : Text) (now : ℕ)
    (t : Tables)
    → FailsClean t (claim_token hash configured id version code token now t)
unfolding claim_token
claim_token-FailsClean hash none id version code token now t = refl
claim_token-FailsClean hash (some configured) id version code token now t =
    elim (Bool-cases (text_eq code configured)) [
      | inl e ↦ rw e (issue_token-FailsClean hash id version Credentials.pairing_code token now t)
      | inr e ↦ rw e refl
    ]

revoke_row-FailsClean :
    (id : ℕ) (reason : Reason) (now : ℕ) (row : Option Client) (t : Tables)
    → FailsClean t (revoke_row id reason now row t)
unfolding revoke_row revoke_body
revoke_row-FailsClean id reason now none t = tt
revoke_row-FailsClean id reason now (some c) t = ground arith

revoke_client-FailsClean :
    (id : ℕ) (reason : Reason) (now : ℕ) (t : Tables) → FailsClean t (revoke_client id reason now t)
unfolding revoke_client
revoke_client-FailsClean id reason now t = elim (Bool-cases (is_revocation_reason reason)) [
  | inl e ↦ rw e (revoke_row-FailsClean id reason now (lookup id t.clients) t)
  | inr e ↦ rw e refl
]

-- A call of the pairing service that fails has changed nothing.
service_clean :
    {A : Type 0} (f : Credentials.Failure → ApiError) (s : State)
    (r : Credentials.Result A × Tables)
    → FailsClean s.tables r
    → CleanEnd s (service_outcome f r.0, record s { tables = r.1 })
service_clean f s (Credentials.ok a, t) h = tt
service_clean f s (Credentials.err e, t) h = inr (record { db = refl; tables = h; world = refl })

module _ (c : Config) (r : Request) (m : Moment) where
  check_admin-Reads :
      (admin_code : Text) (a : Bool × Attempts) → Reads (check_admin c r admin_code a)
  check_admin-Reads admin_code (false, attempts) s = record {
    db = refl;
    tables = refl;
    world = refl;
  }
  check_admin-Reads admin_code (true, attempts) s = record {
    db = refl;
    tables = refl;
    world = refl;
  }

  require_admin-Reads : (o : Option Text) → Reads (require_admin c r m o)
  require_admin-Reads none s = IsSame-refl s
  require_admin-Reads (some admin_code) s =
      check_admin-Reads admin_code (allow c.limits m.tick r.origin s.admin_attempts) s

  pub require_device_admin-Reads : Reads (require_device_admin c r m)
  unfolding require_device_admin
  require_device_admin-Reads = require_admin-Reads c.admin_code

  pub limiter-Reads :
      Reads (allow_bootstrap c r m)
      × Reads (reset_bootstrap c r m)
      × Reads (allow_pairing c r m)
      × Reads (reset_pairing c r m)
  unfolding allow_bootstrap reset_bootstrap allow_pairing reset_pairing
  limiter-Reads = (
    λ s. record { db = refl; tables = refl; world = refl },
    λ s. record { db = refl; tables = refl; world = refl },
    λ s. record { db = refl; tables = refl; world = refl },
    λ s. record { db = refl; tables = refl; world = refl },
  )

  reset_pairing-IsSafe : IsSafe (reset_pairing c r m)
  unfolding reset_pairing
  reset_pairing-IsSafe s = tt

  call_bootstrap-Reads : (id : Text) → Reads (call_bootstrap c r m id)
  unfolding call_bootstrap
  call_bootstrap-Reads id s = record { db = refl; tables = refl; world = refl }

  call_create_session-Reads : (ip : Text) → Reads (call_create_session c r m ip)
  unfolding call_create_session
  call_create_session-Reads ip s = record { db = refl; tables = refl; world = refl }

  pub call_claim-Reads :
      (id : ℕ) (version session_id proof : Text)
      → Reads (call_claim c r m id version session_id proof)
  unfolding call_claim
  call_claim-Reads id version session_id proof s = record { db = refl; tables = refl; world = refl }

  call_revoke-IsClean : (id : ℕ) (reason : Reason) → IsClean (call_revoke c r m id reason)
  unfolding call_revoke
  call_revoke-IsClean id reason s =
      service_clean (λ e. internal) s (revoke_client id reason m.timestamp s.tables)
        (revoke_client-FailsClean id reason m.timestamp s.tables)

  call_issue_token-IsClean : (id : ℕ) (version : Text) → IsClean (call_issue_token c r m id version)
  unfolding call_issue_token
  call_issue_token-IsClean id version s =
      service_clean service_failure s _
        (issue_token-FailsClean c.hash id version pairing_session m.token m.timestamp s.tables)

  call_claim_token-IsClean :
      (id : ℕ) (version code : Text) → IsClean (call_claim_token c r m id version code)
  unfolding call_claim_token
  call_claim_token-IsClean id version code s =
      service_clean service_failure s _
        (claim_token-FailsClean c.hash c.pairing_code id version code m.token m.timestamp s.tables)

  next_device-IsSafe : (o : Option Device) → IsSafe (next_device o)
  next_device-IsSafe none s = refl
  next_device-IsSafe (some d) s = tt

  private_server_ip-Reads : (o : Option Text) → Reads (private_server_ip o)
  private_server_ip-Reads none s = IsSame-refl s
  private_server_ip-Reads (some d) s = IsSame-refl s

  list_devices_route-IsClean : IsClean (list_devices_route c r m)
  unfolding list_devices_route
  list_devices_route-IsClean =
      Reads-then _ _ require_device_admin-Reads λ u. Reads-then _ _ (require-Reads _ _) λ u s. tt

  revoke_device_route-IsClean :
      (id : ℕ) (reason : Reason) → IsClean (revoke_device_route c r m id reason)
  unfolding revoke_device_route revoke_listed
  revoke_device_route-IsClean id reason = Reads-then _ _ require_device_admin-Reads λ u.
      Reads-then _ _ (require-Reads _ _) λ u.
        Reads-then _ _ (λ s. IsSame-refl s)
          λ ds. Reads-then _ _ (require-Reads _ _) λ u.
            IsClean-then _ _ (call_revoke-IsClean id reason) λ done.
              bind-IsSafe _ _ (invalidate_sessions-IsSafe c m id)
                λ u. bind-IsSafe _ _ (λ s. tt) λ d. next_device-IsSafe d

  pairing_bootstrap_route-IsClean : (id : Text) → IsClean (pairing_bootstrap_route c r m id)
  unfolding pairing_bootstrap_route
  pairing_bootstrap_route-IsClean id = Reads-then _ _ (require-Reads _ _) λ u.
      Reads-then _ _ (limiter-Reads.0) λ allowed. Reads-then _ _ (require-Reads _ _) λ u.
        Reads-then _ _ (call_bootstrap-Reads id) λ b. Reads-then _ _ (limiter-Reads.1) λ u s. tt

  create_local_pairing_session_route-IsClean : IsClean (create_local_pairing_session_route c r m)
  unfolding create_local_pairing_session_route resolve_server_ip
  create_local_pairing_session_route-IsClean = Reads-then _ _ (require-Reads _ _) λ u.
      Reads-then _ _ require_device_admin-Reads λ u. Reads-then _ _ (require-Reads _ _) λ u.
        Reads-then _ _ (bind-Reads _ _ (require-Reads _ _) λ u. private_server_ip-Reads c.server_ip)
          λ ip. Reads-IsClean _ (call_create_session-Reads ip)

  claim_with-IsClean :
      (p : ClaimRequest) (session_id proof : Option Text)
      → IsClean (claim_with c r m p session_id proof)
  claim_with-IsClean p (some session_id) (some proof) = Reads-then _ _ (require-Reads _ _) λ u.
      Reads-then _ _ (call_claim-Reads p.client_id p.client_version session_id proof)
        λ granted. call_issue_token-IsClean p.client_id p.client_version
  claim_with-IsClean p (some session_id) none =
      call_claim_token-IsClean p.client_id p.client_version _
  claim_with-IsClean p none proof = call_claim_token-IsClean p.client_id p.client_version _

  claim_pairing_route-IsClean : (p : ClaimRequest) → IsClean (claim_pairing_route c r m p)
  unfolding claim_pairing_route
  claim_pairing_route-IsClean p = Reads-then _ _ (require-Reads _ _) λ u.
      Reads-then _ _ (limiter-Reads.2) λ allowed. Reads-then _ _ (require-Reads _ _) λ u.
        IsClean-then _ _ (claim_with-IsClean p p.session_id p.client_proof) λ token.
          bind-IsSafe _ _ reset_pairing-IsSafe
            λ u. bind-IsSafe _ _ (invalidate_sessions-IsSafe c m p.client_id) λ u s. tt

  answer-IsClean : {A : Type 0} (f : A → Body) (h : Handler A) → IsClean h → IsClean (answer f h)
  answer-IsClean f h k = IsClean-then h _ k λ a s. tt

  serve_claim-IsClean : (p : ClaimRequest) → IsClean (serve_claim c m r p)
  unfolding serve_claim
  serve_claim-IsClean p s = elim (Bool-cases (has_one_claim_mode p)) [
    | inl e ↦ rw e (answer-IsClean _ _ (claim_pairing_route-IsClean p) s)
    | inr e ↦ rw e (inr (IsSame-refl s))
  ]

  require_http_auth-Reads : Reads (require_http_auth c r)
  unfolding require_http_auth
  require_http_auth-Reads s =
      let same : (require_http_auth c r s).1 ≡ s = ground arith in rw same (IsSame-refl s)

  serve-IsClean : (route : Route) → IsClean (serve c m r route)
  unfolding serve
  serve-IsClean (profile_route p) =
      Reads-then _ _ require_http_auth-Reads λ u. serve_profile-IsClean c m p
  serve-IsClean list_devices = answer-IsClean _ _ list_devices_route-IsClean
  serve-IsClean create_local_pairing_session =
      answer-IsClean _ _ create_local_pairing_session_route-IsClean
  serve-IsClean malformed = λ s. inr (IsSame-refl s)
  serve-IsClean (revoke_device i reason) = answer-IsClean _ _ (revoke_device_route-IsClean i reason)
  serve-IsClean (pairing_bootstrap id) = answer-IsClean _ _ (pairing_bootstrap_route-IsClean id)
  serve-IsClean (claim_pairing p) = serve_claim-IsClean p

refused-IsSame :
    (s s' : State) (e : ApiError) (a : Outcome Body × State)
    → a ≡ (raised e, s')
    → e.status_code ≢ 500
    → CleanEnd s a
    → IsSame s s'
refused-IsSame s s' e (returned b, s1) h ne clean = absurd (ground arith)
refused-IsSame s s' e (raised x, s1) h ne (inl broken) = absurd (ground arith)
refused-IsSame s s' e (raised x, s1) h ne (inr same) =
    let state : s1 ≡ s' = ground arith in rw (← state) same

-- A request that is answered with an error other than an internal one has changed neither the profiles
-- and their revisions, nor the paired clients and their audit, nor the websockets and what is sent.
pub refused_changes_nothing :
    (c : Config) (m : Moment) (r : Request) (route : Route) (s s' : State) (e : ApiError)
    → serve c m r route s ≡ (raised e, s')
    → e.status_code ≢ 500
    → IsSame s s'
refused_changes_nothing c m r route s s' e h ne =
    refused-IsSame s s' e (serve c m r route s) h ne (serve-IsClean c r m route s)
