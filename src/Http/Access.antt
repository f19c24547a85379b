-- ===== src/Http/Access.antt =====
-- Who the routes of server/app/api.py serve.
use android_streamdeck.Base.{
  ◌≡◌, refl, Bool, true, false, not, ◌&&◌, ◌||◌, ◌⊎◌, inl, inr, Option, none, some, arith, any,
  Bool-cases, Option-cases,
}
use android_streamdeck.Base.Text.{Text, text_eq}
use android_streamdeck.RateLimit.{Attempts, allow}
use android_streamdeck.Credentials.{Tables}
use android_streamdeck.Http.{
  auth_unavailable, auth_required, local_only, device_admin_unavailable, device_admin_rate_limited,
  device_admin_required, internal, ApiError, api_error, Config, Request, Moment, State, Outcome,
  returned, raised, Handler, continue, ◌>>=◌, compare_digest, is_missing, well_formed_credentials,
  presented_token, authenticated, require_http_auth, check_supplied, check_admin, require_admin,
  require_device_admin,
}
use android_streamdeck.Http.Devices.{
  list_devices_route, revoke_device_route, create_local_pairing_session_route,
}
use android_streamdeck.Http.Routes.{
  Body, ProfileRoute, Route, profile_route, list_devices, revoke_device, malformed,
  pairing_bootstrap, claim_pairing, create_local_pairing_session, serve_profile, serve,
}

-- The request carries an active token of the client that it names, or none is asked for.
abbrev pub may_use_profiles : Config → Request → Tables → Bool
may_use_profiles c r t =
    not c.require_auth
    || (c.has_pairing_service
        && well_formed_credentials c r
        && authenticated c r.client_id (presented_token c r) t)

-- A refusal for want of credentials, and the state as it was.
pub record IsUnauthorized (s : State) (a : Outcome Body × State) : Type 0 where
  pub status :
      (a.0 ≡ raised (api_error 401 auth_required false))
      ⊎ (a.0 ≡ raised (api_error 503 auth_unavailable true))
  pub kept : a.1 ≡ s

module _ (c : Config) (r : Request) where
  auth_passes :
      (s : State)
      → may_use_profiles c r s.tables ≡ true
      → require_http_auth c r s ≡ (returned tt, s)
  unfolding require_http_auth
  auth_passes s h = ground arith

  auth_refuses :
      (s : State)
      → may_use_profiles c r s.tables ≡ false
      → (e : ApiError) × (require_http_auth c r s ≡ (raised e, s))
        × ((e ≡ api_error 401 auth_required false) ⊎ (e ≡ api_error 503 auth_unavailable true))
  unfolding require_http_auth
  auth_refuses s h = elim (Bool-cases c.has_pairing_service) [
    | inl e ↦ (api_error 401 auth_required false, ground arith, inl refl)
    | inr e ↦ (api_error 503 auth_unavailable true, ground arith, inr refl)
  ]

-- A profile route runs exactly for a request that carries an active token of the client that it names,
-- where authentication is required; any other is refused with 401, or with 503 where there is no
-- pairing service, and changes nothing.
pub profile_routes_guarded :
    (c : Config) (m : Moment) (r : Request) (p : ProfileRoute) (s : State)
    → ((may_use_profiles c r s.tables ≡ true)
        × (serve c m r (profile_route p) s ≡ serve_profile c m p s))
      ⊎ ((may_use_profiles c r s.tables ≡ false)
          × IsUnauthorized s (serve c m r (profile_route p) s))
unfolding serve ◌>>=◌
profile_routes_guarded c m r p s = elim (Bool-cases (may_use_profiles c r s.tables)) [
  | inl e ↦ inl (e, rw (auth_passes c r s e) refl)
  | inr e ↦
      let (x, run, which) = auth_refuses c r s e in
      inr (
        e,
        rw run (record {
          status = elim which [ inl k ↦ inl (rw k refl) | inr k ↦ inr (rw k refl) ];
          kept = refl;
        }),
      )
]

-- The code that the request supplies is the owner's, which is set, and the limiter lets it through.
abbrev pub code_passes : Config → Text → Option Text → Bool
code_passes c supplied none = false
code_passes c supplied (some code) = not (is_missing supplied) && text_eq supplied code

abbrev pub IsRefusal : {A : Type 0} → Outcome A → Type 0
IsRefusal {A} o = (e : ApiError) × (o ≡ raised e)

pub record IsUntouched (s s' : State) : Type 0 where
  pub db : s'.db ≡ s.db
  pub tables : s'.tables ≡ s.tables
  pub manager : s'.manager ≡ s.manager
  pub world : s'.world ≡ s.world

-- An error, and a state that differs in the limiters only.
pub record IsStopped {A : Type 0} (s : State) (a : Outcome A × State) : Type 0 where
  pub refused : IsRefusal a.0
  pub kept : IsUntouched s a.1

IsStopped-then :
    {A B : Type 0} (s : State) (m : Handler A) (f : A → Handler B)
    → IsStopped s (m s)
    → IsStopped s ((m >>= f) s)
unfolding ◌>>=◌
IsStopped-then {A} {B} s m f h = go (m s) h
  where
    go : (a : Outcome A × State) → IsStopped s a → IsStopped s (continue f a)
    go (returned a, s') k = absurd (let (e, x) = k.refused in cc)
    go (raised e, s') k = record { refused = (e, refl); kept = k.kept }

module _ (c : Config) (r : Request) (m : Moment) where
  check_supplied-refuses :
      (supplied code : Text)
      → (not (is_missing supplied) && text_eq supplied code) ≡ false
      → IsRefusal (check_supplied c supplied code)
  check_supplied-refuses supplied code h =
      elim (Bool-cases (is_missing supplied || any c.library.is_space supplied)) [
        | inl e ↦ (api_error 401 device_admin_required false, ground arith)
        | inr e ↦ elim (Option-cases (compare_digest supplied code)) [
          | inl k ↦ (internal, ground arith)
          | inr (b, k) ↦ (api_error 401 device_admin_required false, ground arith)
        ]
      ]

  -- What a refused owner's request leaves: all but the limiter.
  IsStopped-admin :
      (code : Text) (a : Bool × Attempts) (s : State)
      → code_passes c r.admin_code (some code) ≡ false
      → IsRefusal (check_admin c r code a s).0 × IsUntouched s (check_admin c r code a s).1
  IsStopped-admin code (false, attempts) s h = (
    (api_error 429 device_admin_rate_limited true, refl),
    record { db = refl; tables = refl; manager = refl; world = refl },
  )
  IsStopped-admin code (true, attempts) s h = (
    check_supplied-refuses r.admin_code code h,
    record { db = refl; tables = refl; manager = refl; world = refl },
  )

  require_admin-stops :
      (o : Option Text) (s : State)
      → code_passes c r.admin_code o ≡ false
      → IsStopped s (require_admin c r m o s)
  require_admin-stops none s h = record {
    refused = (api_error 503 device_admin_unavailable true, refl);
    kept = record { db = refl; tables = refl; manager = refl; world = refl };
  }
  require_admin-stops (some code) s h =
      let (refused, kept) =
        IsStopped-admin code (allow c.limits m.tick r.origin s.admin_attempts) s h in
      record { refused = refused; kept = kept }

  admin-stops :
      (s : State)
      → code_passes c r.admin_code c.admin_code ≡ false
      → IsStopped s (require_device_admin c r m s)
  unfolding require_device_admin
  admin-stops s h = require_admin-stops c.admin_code s h

  local_stops :
      (s : State)
      → code_passes c r.admin_code c.admin_code ≡ false
      → IsStopped s (create_local_pairing_session_route c r m s)
  unfolding create_local_pairing_session_route ◌>>=◌
  local_stops s h = elim (Bool-cases (c.is_loopback r.origin)) [
    | inl e ↦ rw e (IsStopped-then s (require_device_admin c r m) _ (admin-stops s h))
    | inr e ↦ rw e (record {
      refused = (api_error 403 local_only false, refl);
      kept = record { db = refl; tables = refl; manager = refl; world = refl };
    })
  ]

-- The routes of the owner.
abbrev pub is_owner_route : Route → Bool
is_owner_route list_devices = true
is_owner_route (revoke_device i reason) = true
is_owner_route create_local_pairing_session = true
is_owner_route route = false

-- A request to list or revoke the devices, or to open a pairing session, that does not supply the
-- owner's code, or where none is set, ends in an error, and changes nothing but the limiters.
pub owner_routes_guarded :
    (c : Config) (m : Moment) (r : Request) (route : Route) (s : State)
    → is_owner_route route ≡ true
    → code_passes c r.admin_code c.admin_code ≡ false
    → IsStopped s (serve c m r route s)
unfolding serve list_devices_route revoke_device_route
owner_routes_guarded c m r list_devices s owner h =
    IsStopped-then s _ _ (IsStopped-then s (require_device_admin c r m) _ (admin-stops c r m s h))
owner_routes_guarded c m r (revoke_device i reason) s owner h =
    IsStopped-then s _ _ (IsStopped-then s (require_device_admin c r m) _ (admin-stops c r m s h))
owner_routes_guarded c m r create_local_pairing_session s owner h =
    IsStopped-then s _ _ (local_stops c r m s h)
owner_routes_guarded c m r (profile_route p) s owner h = cc
owner_routes_guarded c m r malformed s owner h = cc
owner_routes_guarded c m r (pairing_bootstrap i) s owner h = cc
owner_routes_guarded c m r (claim_pairing p) s owner h = cc
