-- ===== src/Http/Routes.antt =====
-- `create_router` of server/app/api.py: the routes, each with what FastAPI has read from the path, the
-- query and the body, and the checks that come first.
use android_streamdeck.Base.{ℕ, Option, List, [], ◌∷◌, if◌then◌else◌}
use android_streamdeck.Base.Text.{Text}
use android_streamdeck.Credentials.{Reason}
use android_streamdeck.Credentials.Inventory.{Device}
use android_streamdeck.Pairing.Proof.{Bundle}
use android_streamdeck.Pairing.Manager.{Presentation}
use android_streamdeck.Profile.{Page, Profile}
use android_streamdeck.Repository.Reads.{Entry}
use android_streamdeck.Http.{
  Config, Request, Moment, Handler, ◌>>=◌, ◌>>◌, pure, fail, validation, require_http_auth,
}
use android_streamdeck.Http.Profiles.{
  Summary, list_profiles_route, create_profile_route, get_profile_route, get_profile_snapshot_route,
  export_profile_route, rename_profile_route, duplicate_profile_route, activate_profile_route,
  delete_profile_route, create_page_route, rename_page_route, reorder_page_route, delete_page_route,
  get_active_profile_route, import_profile_route, put_profile_route, get_profile_audit_route,
}
use android_streamdeck.Http.Devices.{
  ClaimRequest, has_one_claim_mode, list_devices_route, revoke_device_route,
  pairing_bootstrap_route, create_local_pairing_session_route, claim_pairing_route,
}

-- The routes that `_require_http_auth` guards.
pub data ProfileRoute : Type 0 where
  list_profiles get_active_profile get_action_catalog : ProfileRoute
  create_profile : Profile → ProfileRoute
  get_profile export_profile : ℕ → ProfileRoute
  get_profile_snapshot : ℕ → Option ℕ → ProfileRoute
  rename_profile : ℕ → Text → ℕ → ProfileRoute
  duplicate_profile : ℕ → ℕ → Option Text → ℕ → ProfileRoute
  activate_profile : ℕ → ℕ → ProfileRoute
  delete_profile : ℕ → ℕ → Option ℕ → ProfileRoute
  create_page : ℕ → Page → ℕ → ProfileRoute
  rename_page : ℕ → ℕ → Text → ℕ → ProfileRoute
  reorder_page : ℕ → ℕ → ℕ → ℕ → ProfileRoute
  delete_page : ℕ → ℕ → Option ℕ → ℕ → ProfileRoute
  import_profile : ℕ → Option Profile → Option ℕ → ProfileRoute
  put_profile : ℕ → Profile → ℕ → ProfileRoute
  get_profile_audit : ℕ → ℕ → ProfileRoute

-- The other routes, and a request that FastAPI's validation refuses.
pub data Route : Type 0 where
  profile_route : ProfileRoute → Route
  list_devices create_local_pairing_session malformed : Route
  revoke_device : ℕ → Reason → Route
  pairing_bootstrap : Text → Route
  claim_pairing : ClaimRequest → Route

-- `ACTION_TYPES`
pub data ActionType : Type 0 where
  hotkey key media text url application system_info : ActionType

abbrev pub action_types : List ActionType
action_types = hotkey ∷ key ∷ media ∷ text ∷ url ∷ application ∷ system_info ∷ []

-- the bodies of the responses
pub data Body : Type 0 where
  profiles : List Summary → Body
  profile : Profile → Body
  deleted_profile : ℕ × ℕ → Body
  deleted_page : Profile → Body
  catalog : List ActionType → Body
  audit : ℕ × List Entry → Body
  devices : List Device → Body
  device : Device → Body
  bundle : Bundle → Body
  session : Presentation → Body
  claimed : ℕ × Text → Body

abbrev pub answer : {A : Type 0} → (A → Body) → Handler A → Handler Body
answer f m = m >>= λ a. pure (f a)

module _ (c : Config) (m : Moment) where
  -- The route after its first line.
  unfoldable pub serve_profile : ProfileRoute → Handler Body
  serve_profile list_profiles = answer profiles (list_profiles_route c m)
  serve_profile get_active_profile = answer profile (get_active_profile_route c m)
  serve_profile get_action_catalog = pure (catalog action_types)
  serve_profile (create_profile p) = answer profile (create_profile_route c m p)
  serve_profile (get_profile i) = answer profile (get_profile_route c m i)
  serve_profile (get_profile_snapshot i revision) =
      answer profile (get_profile_snapshot_route c m i revision)
  serve_profile (export_profile i) = answer profile (export_profile_route c m i)
  serve_profile (rename_profile i name expected) =
      answer profile (rename_profile_route c m i name expected)
  serve_profile (duplicate_profile i j name expected) =
      answer profile (duplicate_profile_route c m i j name expected)
  serve_profile (activate_profile i expected) =
      answer profile (activate_profile_route c m i expected)
  serve_profile (delete_profile i expected other) =
      answer deleted_profile (delete_profile_route c m i expected other)
  serve_profile (create_page i page expected) =
      answer profile (create_page_route c m i page expected)
  serve_profile (rename_page i j title expected) =
      answer profile (rename_page_route c m i j title expected)
  serve_profile (reorder_page i j order expected) =
      answer profile (reorder_page_route c m i j order expected)
  serve_profile (delete_page i j other expected) =
      answer deleted_page (delete_page_route c m i j other expected)
  serve_profile (import_profile size payload expected) =
      answer profile (import_profile_route c m size payload expected)
  serve_profile (put_profile i p expected) = answer profile (put_profile_route c m i p expected)
  serve_profile (get_profile_audit i limit) = answer audit (get_profile_audit_route c m i limit)

  unfoldable pub serve_claim : Request → ClaimRequest → Handler Body
  serve_claim r p =
      if has_one_claim_mode p then answer claimed (claim_pairing_route c r m p) else fail validation

  unfoldable pub serve : Request → Route → Handler Body
  serve r (profile_route p) = require_http_auth c r >> serve_profile p
  serve r list_devices = answer devices (list_devices_route c r m)
  serve r create_local_pairing_session = answer session (create_local_pairing_session_route c r m)
  serve r malformed = fail validation
  serve r (revoke_device i reason) = answer device (revoke_device_route c r m i reason)
  serve r (pairing_bootstrap session_id) = answer bundle (pairing_bootstrap_route c r m session_id)
  serve r (claim_pairing p) = serve_claim r p
