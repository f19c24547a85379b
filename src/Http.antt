-- ===== src/Http.antt =====
-- server/app/api.py: the state that the HTTP routes share, the errors that they raise, and the checks
-- and helpers that they call.
-- A route is a handler: it changes the state as it runs, and ends in a value or an `APIError`; what
-- it has changed before an error stays. A request runs as one step. The random texts, the clocks and
-- the answers of the websockets that it meets are arguments (`Moment`).
pub mod Sample
pub mod Profiles
pub mod Devices
pub mod Routes
pub mod Frame
pub mod Invariant
pub mod Refusal
pub mod Access
pub mod Revoking
pub mod Claiming
mod Tests
use android_streamdeck.Base.{
  ℕ, Bool, true, false, not, ◌&&◌, ◌||◌, Option, none, some, List, [], ◌∷◌, ◌++◌, any, all, leb,
  ltb, ◌==◌, is_none, if◌then◌else◌,
}
use android_streamdeck.Base.Text.{Text, codes, text_eq}
use android_streamdeck.RateLimit.{Limits, Attempts, allow, reset}
use android_streamdeck.Credentials.{Tables, authenticate}
use android_streamdeck.Credentials as Credentials
use android_streamdeck.Pairing.Library.{Library}
use android_streamdeck.Pairing.Manager.{Manager}
use android_streamdeck.Profile.{Profile}
use android_streamdeck.Repository.Store.{
  Error, conflict, bad_order, protected, not_found, revision_not_found, persistence, invalid, Db,
}
use android_streamdeck.Repository.Store as Store
use android_streamdeck.WebSocket.{
  World, ChangeReason, broadcast_profile_changed, invalidate_client_sessions,
}

-- the codes of the error bodies
pub data Code : Type 0 where
  internal_error profile_revision_not_found profile_not_found profile_revision_conflict
        page_delete_protected profile_delete_protected validation_error auth_unavailable
        auth_required device_admin_unavailable device_admin_rate_limited device_admin_required
        pairing_unavailable pairing_server_address_unavailable payload_too_large device_not_found
        pairing_rate_limited pairing_used pairing_expired pairing_invalid pairing_code_invalid
        local_only :
      Code

-- `APIError`, whose message follows from its code
pub record ApiError : Type 0 where
  pub status_code : ℕ
  pub code : Code
  pub retryable : Bool

abbrev pub api_error : ℕ → Code → Bool → ApiError
api_error status_code code retryable = record {
  status_code = status_code;
  code = code;
  retryable = retryable;
}

-- The arguments of `create_router`, the settings that the routes read, and the token hash.
pub record Config : Type 0 where
  pub require_auth : Bool
  pub has_websockets : Bool
  pub has_pairing_service : Bool
  pub has_session_manager : Bool
  pub pairing_code : Option Text
  pub admin_code : Option Text
  pub ca_certificate_pem : Text
  pub local_pairing_supported : Bool
  -- what `resolve_pairing_server_ip` returns
  pub server_ip : Option Text
  pub port : ℕ
  pub limits : Limits
  pub hash : Text → ℕ
  pub valid_url : Text → Bool
  -- the text that names a client, and SQLite's order of ids
  pub spelling : ℕ → Text
  pub before : ℕ → ℕ → Bool
  -- the profiles that the v1 JSON schema accepts
  pub conforms : Profile → Bool
  -- `str.lower`
  pub lower : Text → Text
  -- `ipaddress.ip_address(origin).is_loopback`, false where it raises
  pub is_loopback : ℕ → Bool
  pub library : Library

-- the headers and the peer of a request; `none` is a missing or empty client id
pub record Request : Type 0 where
  pub authorization : Text
  pub client_id : Option ℕ
  pub admin_code : Text
  pub origin : ℕ

-- The clocks, what `secrets` returns, and which websockets take what is sent.
pub record Moment : Type 0 where
  pub timestamp : ℕ
  pub wall : ℕ
  pub mono : ℕ
  pub tick : ℕ
  pub token : Text
  pub code_bytes : Text
  pub salt : Text
  pub up : ℕ → Bool

-- What the routes act on: the database, the pairing manager, the websockets and the three limiters.
pub record State : Type 0 where
  pub db : Db
  pub tables : Tables
  pub manager : Manager
  pub world : World
  pub pairing_attempts : Attempts
  pub bootstrap_attempts : Attempts
  pub admin_attempts : Attempts

pub data Outcome (A : Type 0) : Type 0 where
  returned : A → Outcome A
  raised : ApiError → Outcome A

abbrev pub Handler : Type 0 → Type 0
Handler A = State → Outcome A × State

abbrev pub continue : {A B : Type 0} → (A → Handler B) → Outcome A × State → Outcome B × State
continue f (raised e, s) = (raised e, s)
continue f (returned a, s) = f a s

infixl 5 ◌>>=◌ ◌>>◌
unfoldable pub ◌>>=◌ : {A B : Type 0} → Handler A → (A → Handler B) → Handler B
◌>>=◌ m f s = continue f (m s)

abbrev pub ◌>>◌ : {B : Type 0} → Handler (Unit {0}) → Handler B → Handler B
m >> k = m >>= λ _. k

abbrev pub pure : {A : Type 0} → A → Handler A
pure a s = (returned a, s)

abbrev pub fail : {A : Type 0} → ApiError → Handler A
fail e s = (raised e, s)

abbrev pub require : Bool → ApiError → Handler (Unit {0})
require true e s = (returned tt, s)
require false e s = (raised e, s)

abbrev pub gets : {A : Type 0} → (State → A) → Handler A
gets f s = (returned (f s), s)

-- `_internal_error`, `_conflict`, `_validation`
abbrev pub internal : ApiError
internal = api_error 500 internal_error false

abbrev pub conflict_error : ApiError
conflict_error = api_error 409 profile_revision_conflict true

abbrev pub validation : ApiError
validation = api_error 422 validation_error false

-- `_not_found`
abbrev pub profile_missing : ApiError
profile_missing = api_error 404 profile_not_found false

-- `_safe_call` on the repository's errors; `about_page` is that the message of a
-- `ProfileProtectedError` has "page" in it, which those of `delete_page` alone have
unfoldable pub safe_error : Bool → Error → ApiError
safe_error about_page protected =
    api_error 409 (if about_page then page_delete_protected else profile_delete_protected) false
safe_error about_page not_found = profile_missing
safe_error about_page revision_not_found = api_error 404 profile_revision_not_found false
safe_error about_page conflict = conflict_error
safe_error about_page bad_order = validation
safe_error about_page invalid = validation
safe_error about_page persistence = internal

abbrev pub safe_result : {A : Type 0} → Bool → Store.Result A → Outcome A
safe_result about_page (Store.ok a) = returned a
safe_result about_page (Store.err e) = raised (safe_error about_page e)

-- `_safe_call` of a method that only reads
unfoldable pub read : {A : Type 0} → (Db → Store.Result A) → Handler A
read f s = (safe_result false (f s.db), s)

-- `_safe_call` of a method that writes
unfoldable pub write : {A : Type 0} → Bool → (Db → Store.Result A × Db) → Handler A
write about_page f s = (safe_result about_page (f s.db).0, record s { db = (f s.db).1 })

-- `authorization.partition(" ")`: the scheme, whether there is a blank, and the token
abbrev pub partition : Text → Text × Bool × Text
partition [] = ([], false, [])
partition (x ∷ xs) =
    if x == b' '
    then ([], true, xs)
    else (let (scheme, separator, token) = partition xs in (x ∷ scheme, separator, token))

abbrev pub is_missing : Text → Bool
is_missing [] = true
is_missing (x ∷ xs) = false

-- `hmac.compare_digest` of two texts; `none` is the `TypeError` for a character that is not ASCII
abbrev pub compare_digest : Text → Text → Option Bool
compare_digest a b =
    if all (λ x. ltb x 128) a && all (λ x. ltb x 128) b then some (text_eq a b) else none

-- The `TypeError` reaches `handle_unexpected_error`.
abbrev pub check_compared : Option Bool → Outcome (Unit {0})
check_compared none = raised internal
check_compared (some false) = raised (api_error 401 device_admin_required false)
check_compared (some true) = returned tt

module _ (c : Config) where
  -- The tests of the headers in `_require_http_auth`. A token with white space at an end, which
  -- `strip` takes off, has white space in it.
  unfoldable pub well_formed_credentials : Request → Bool
  well_formed_credentials r =
      let (scheme, separator, token) = partition r.authorization in
      text_eq (c.lower scheme) (codes "bearer")
      && separator
      && not (is_missing token)
      && not (any c.library.is_space token)
      && not (is_none r.client_id)

  abbrev pub presented_token : Request → Text
  presented_token r = (let (scheme, separator, token) = partition r.authorization in token)

  abbrev pub authenticated : Option ℕ → Text → Tables → Bool
  authenticated none token t = false
  authenticated (some client_id) token t = authenticate c.hash client_id (some token) t

  -- `_require_http_auth`
  unfoldable pub require_http_auth : Request → Handler (Unit {0})
  require_http_auth r s =
      if not c.require_auth
      then (returned tt, s)
      else if not c.has_pairing_service
      then (raised (api_error 503 auth_unavailable true), s)
      else if not (well_formed_credentials r)
      then (raised (api_error 401 auth_required false), s)
      else if not (authenticated r.client_id (presented_token r) s.tables)
      then (raised (api_error 401 auth_required false), s)
      else (returned tt, s)

  -- The test of the supplied code in `_require_device_admin`.
  abbrev pub check_supplied : Text → Text → Outcome (Unit {0})
  check_supplied supplied admin_code =
      if is_missing supplied || any c.library.is_space supplied
      then raised (api_error 401 device_admin_required false)
      else check_compared (compare_digest supplied admin_code)

  abbrev pub reset_if_passed : ℕ → Outcome (Unit {0}) → Attempts → Attempts
  reset_if_passed origin (raised e) attempts = attempts
  reset_if_passed origin (returned u) attempts = reset origin attempts

  -- The end of `_require_device_admin`, with the answer of the limiter.
  abbrev pub check_admin : Request → Text → Bool × Attempts → State → Outcome (Unit {0}) × State
  check_admin r admin_code (false, attempts) s = (
    raised (api_error 429 device_admin_rate_limited true),
    record s { admin_attempts = attempts },
  )
  check_admin r admin_code (true, attempts) s =
      let checked = check_supplied r.admin_code admin_code in
      (checked, record s { admin_attempts = reset_if_passed r.origin checked attempts })

  -- `_require_device_admin`
  abbrev pub require_admin : Request → Moment → Option Text → Handler (Unit {0})
  require_admin r m none s = (raised (api_error 503 device_admin_unavailable true), s)
  require_admin r m (some admin_code) s =
      check_admin r admin_code (allow c.limits m.tick r.origin s.admin_attempts) s

  unfoldable pub require_device_admin : Request → Moment → Handler (Unit {0})
  require_device_admin r m = require_admin r m c.admin_code

  -- `_invalidate_client_sessions`
  unfoldable pub invalidate_sessions : Moment → ℕ → Handler (Unit {0})
  invalidate_sessions m client_id s =
      if c.has_websockets
      then (returned tt, record s { world = (invalidate_client_sessions m.up client_id s.world).1 })
      else (returned tt, s)

  -- `broadcast_event` of `create_router`
  unfoldable pub broadcast_event : Moment → ℕ → ℕ → ChangeReason → Handler (Unit {0})
  broadcast_event m profile_id revision reason s =
      if c.has_websockets
      then (
        returned tt,
        record s { world = broadcast_profile_changed m.up profile_id revision reason s.world },
      )
      else (returned tt, s)

  -- `broadcast` of `create_router`
  abbrev pub broadcast : Moment → Profile → ChangeReason → Handler (Unit {0})
  broadcast m profile reason = broadcast_event m profile.id profile.revision reason
