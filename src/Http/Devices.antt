-- ===== src/Http/Devices.antt =====
-- The device and pairing routes of server/app/api.py.
use android_streamdeck.Base.{
  ℕ, Bool, true, false, not, ◌&&◌, ◌||◌, Option, none, some, List, [], any, find_first, ◌==◌,
  is_none, if◌then◌else◌,
}
use android_streamdeck.Base.Text.{Text}
use android_streamdeck.RateLimit.{allow, reset}
use android_streamdeck.Credentials.{
  Tables, Reason, pairing_session, unavailable, code_invalid, issue_token, claim_token,
  revoke_client,
}
use android_streamdeck.Credentials as Credentials
use android_streamdeck.Credentials.Inventory.{Device, list_clients}
use android_streamdeck.Pairing.Proof.{Bundle}
use android_streamdeck.Pairing.Manager.{
  Presentation, Claim, Failure, session_expired, session_used, proof_invalid, bad_value, bootstrap,
  claim, create_session,
}
use android_streamdeck.Pairing.Manager as Manager
use android_streamdeck.Http.{
  device_admin_unavailable, device_not_found, pairing_unavailable,
  pairing_server_address_unavailable, pairing_rate_limited, pairing_used, pairing_expired,
  pairing_invalid, pairing_code_invalid, local_only, ApiError, api_error, Config, Request, Moment,
  Outcome, returned, raised, Handler, ◌>>=◌, ◌>>◌, pure, fail, require, gets, internal, is_missing,
  require_device_admin, invalidate_sessions,
}

-- What a claim presents: `session_id`, `client_proof` and `pairing_code`.
pub record ClaimRequest : Type 0 where
  pub client_id : ℕ
  pub client_version : Text
  pub session_id : Option Text
  pub client_proof : Option Text
  pub pairing_code : Option Text

-- `PairingClaimRequest.require_one_claim_mode`
unfoldable pub has_one_claim_mode : ClaimRequest → Bool
has_one_claim_mode p =
    if not (is_none p.session_id) || not (is_none p.client_proof)
    then not (is_none p.session_id) && not (is_none p.client_proof) && is_none p.pairing_code
    else not (is_none p.pairing_code)

abbrev pub pairing_unavailable_error : ApiError
pairing_unavailable_error = api_error 503 pairing_unavailable true

abbrev pub pairing_rate_error : ApiError
pairing_rate_error = api_error 429 pairing_rate_limited true

-- The `except` clauses of `claim_pairing`, on the errors of the manager.
abbrev pub claim_failure : Failure → ApiError
claim_failure proof_invalid = api_error 401 pairing_invalid false
claim_failure session_used = api_error 409 pairing_used false
claim_failure session_expired = api_error 410 pairing_expired false
claim_failure bad_value = internal

-- The same, on the errors of the pairing service.
abbrev pub service_failure : Credentials.Failure → ApiError
service_failure code_invalid = api_error 401 pairing_code_invalid false
service_failure unavailable = pairing_unavailable_error
service_failure e = internal

-- The errors of `pairing_bootstrap`; other exceptions reach `handle_unexpected_error`.
abbrev pub bootstrap_failure : Failure → ApiError
bootstrap_failure session_used = api_error 409 pairing_used false
bootstrap_failure session_expired = api_error 410 pairing_expired false
bootstrap_failure e = internal

abbrev pub manager_outcome : {A : Type 0} → (Failure → ApiError) → Manager.Result A → Outcome A
manager_outcome f (Manager.ok a) = returned a
manager_outcome f (Manager.err e) = raised (f e)

abbrev pub service_outcome :
    {A : Type 0} → (Credentials.Failure → ApiError) → Credentials.Result A → Outcome A
service_outcome f (Credentials.ok a) = returned a
service_outcome f (Credentials.err e) = raised (f e)

-- `next(device for …)`; with no device the `StopIteration` is an internal error
abbrev pub next_device : Option Device → Handler Device
next_device none = fail internal
next_device (some d) = pure d

abbrev pub private_server_ip : Option Text → Handler Text
private_server_ip none = fail (api_error 503 pairing_server_address_unavailable true)
private_server_ip (some ip) = pure ip

module _ (c : Config) (r : Request) (m : Moment) where
  -- `list_devices`
  unfoldable pub list_devices_route : Handler (List Device)
  list_devices_route = do
    require_device_admin c r m
    require c.has_pairing_service (api_error 503 device_admin_unavailable true)
    gets (λ s. list_clients c.before s.tables)

  -- `_safe_call(pairing_service.revoke_client, …)`
  unfoldable pub call_revoke : ℕ → Reason → Handler Bool
  call_revoke client_id reason s =
      let (done, tables) = revoke_client client_id reason m.timestamp s.tables in
      (service_outcome (λ e. internal) done, record s { tables = tables })

  -- The end of `revoke_device`, for a device that is there.
  unfoldable pub revoke_listed : ℕ → Reason → Handler Device
  revoke_listed client_id reason = do
    done ← call_revoke client_id reason
    invalidate_sessions c m client_id
    device ← gets (λ s. find_first (λ d. d.client_id == client_id) (list_clients c.before s.tables))
    next_device device

  -- `revoke_device`
  unfoldable pub revoke_device_route : ℕ → Reason → Handler Device
  revoke_device_route client_id reason = do
    require_device_admin c r m
    require c.has_pairing_service (api_error 503 device_admin_unavailable true)
    devices ← gets (λ s. list_clients c.before s.tables)
    require (any (λ d. d.client_id == client_id) devices) (api_error 404 device_not_found false)
    revoke_listed client_id reason

  -- `pairing_bootstrap_limiter.allow` and `pairing_bootstrap_limiter.reset`
  unfoldable pub allow_bootstrap : Handler Bool
  allow_bootstrap s =
      let (allowed, attempts) = allow c.limits m.tick r.origin s.bootstrap_attempts in
      (returned allowed, record s { bootstrap_attempts = attempts })

  unfoldable pub reset_bootstrap : Handler (Unit {0})
  reset_bootstrap s =
      (returned tt, record s { bootstrap_attempts = reset r.origin s.bootstrap_attempts })

  unfoldable pub call_bootstrap : Text → Handler Bundle
  call_bootstrap session_id s =
      let (bundle, manager) = bootstrap c.library session_id m.mono s.manager in
      (manager_outcome bootstrap_failure bundle, record s { manager = manager })

  -- `pairing_bootstrap`
  unfoldable pub pairing_bootstrap_route : Text → Handler Bundle
  pairing_bootstrap_route session_id = do
    require c.has_session_manager pairing_unavailable_error
    allowed ← allow_bootstrap
    require allowed pairing_rate_error
    bundle ← call_bootstrap session_id
    reset_bootstrap
    pure bundle

  -- `_resolve_pairing_server_ip`
  unfoldable pub resolve_server_ip : Handler Text
  resolve_server_ip = do
    require c.local_pairing_supported pairing_unavailable_error
    private_server_ip c.server_ip

  unfoldable pub call_create_session : Text → Handler Presentation
  call_create_session server_ip s =
      let (presentation, manager) =
        create_session c.library server_ip c.port c.ca_certificate_pem m.wall m.mono m.code_bytes
          m.salt s.manager in
      (manager_outcome (λ e. internal) presentation, record s { manager = manager })

  -- `create_local_pairing_session`
  unfoldable pub create_local_pairing_session_route : Handler Presentation
  create_local_pairing_session_route = do
    require (c.is_loopback r.origin) (api_error 403 local_only false)
    require_device_admin c r m
    require (c.has_session_manager && not (is_missing c.ca_certificate_pem))
        pairing_unavailable_error
    server_ip ← resolve_server_ip
    call_create_session server_ip

  unfoldable pub allow_pairing : Handler Bool
  allow_pairing s =
      let (allowed, attempts) = allow c.limits m.tick r.origin s.pairing_attempts in
      (returned allowed, record s { pairing_attempts = attempts })

  unfoldable pub reset_pairing : Handler (Unit {0})
  reset_pairing s = (returned tt, record s { pairing_attempts = reset r.origin s.pairing_attempts })

  -- `pairing_session_manager.claim`
  unfoldable pub call_claim : ℕ → Text → Text → Text → Handler Claim
  call_claim client_id client_version session_id client_proof s =
      let (granted, manager) =
        claim c.library session_id (c.spelling client_id) client_version client_proof m.mono
          s.manager in
      (manager_outcome claim_failure granted, record s { manager = manager })

  -- `pairing_service.issue_token` with the actor of a session
  unfoldable pub call_issue_token : ℕ → Text → Handler Text
  call_issue_token client_id client_version s =
      let (token, tables) =
        issue_token c.hash client_id client_version pairing_session m.token m.timestamp s.tables in
      (service_outcome service_failure token, record s { tables = tables })

  -- `pairing_service.claim_token`
  unfoldable pub call_claim_token : ℕ → Text → Text → Handler Text
  call_claim_token client_id client_version code s =
      let (token, tables) =
        claim_token c.hash c.pairing_code client_id client_version code m.token m.timestamp
          s.tables in
      (service_outcome service_failure token, record s { tables = tables })

  abbrev pub code_or_empty : Option Text → Text
  code_or_empty none = []
  code_or_empty (some code) = code

  -- the `try` block of `claim_pairing`
  abbrev pub claim_with : ClaimRequest → Option Text → Option Text → Handler Text
  claim_with p (some session_id) (some client_proof) = do
    require c.has_session_manager pairing_unavailable_error
    granted ← call_claim p.client_id p.client_version session_id client_proof
    call_issue_token p.client_id p.client_version
  claim_with p _ _ = call_claim_token p.client_id p.client_version (code_or_empty p.pairing_code)

  -- `claim_pairing`: the client id and its token
  unfoldable pub claim_pairing_route : ClaimRequest → Handler (ℕ × Text)
  claim_pairing_route p = do
    require c.has_pairing_service pairing_unavailable_error
    allowed ← allow_pairing
    require allowed pairing_rate_error
    token ← claim_with p p.session_id p.client_proof
    reset_pairing
    invalidate_sessions c m p.client_id
    pure (p.client_id, token)
