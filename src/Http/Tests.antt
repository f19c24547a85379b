-- ===== src/Http/Tests.antt =====
-- The routes on a concrete state.
use android_streamdeck.Base.{◌≡◌, refl, ◌⊎◌, true, false, none, some, [], ◌∷◌, arith}
use android_streamdeck.Base.Dict.{lookup, insert, erase}
use android_streamdeck.Base.Sort.{sort_by, insert_by}
use android_streamdeck.RateLimit.{allow, reset, purge, record_attempt}
use android_streamdeck.Credentials.{
  lost_device, android, revoke_client, revoke_row, claim_token, issue_token, authenticate,
  active_credential_generation,
}
use android_streamdeck.Credentials.Inventory.{Device, list_clients}
use android_streamdeck.Profile.{
  valid_key_name, valid_color, distinct_places, valid_action, valid_button, valid_button_layout,
  valid_page, valid_page_relationships, valid_profile,
}
use android_streamdeck.Profile.Sample.{deck}
use android_streamdeck.Repository.Store.{
  transaction, revision_at, has_active, other_active, insert_revision, insert_profile,
}
use android_streamdeck.Repository.Methods.{create_body}
use android_streamdeck.Repository.Methods as Methods
use android_streamdeck.Repository.Methods.Runs.{perform}
use android_streamdeck.Http.{
  profile_revision_conflict, api_error, State, returned, raised, safe_error, write,
  well_formed_credentials, require_http_auth, require_device_admin, invalidate_sessions, ◌>>=◌,
}
use android_streamdeck.Http.Frame.{IsSame}
use android_streamdeck.Http.Profiles.{write_and_broadcast, create_profile_route}
use android_streamdeck.Http.Devices.{
  ClaimRequest, allow_pairing, reset_pairing, call_claim_token, claim_pairing_route, call_revoke,
  revoke_listed, revoke_device_route,
}
use android_streamdeck.Http.Routes.{
  create_profile, profile_route, list_devices, get_action_catalog, serve_profile, serve,
}
use android_streamdeck.Http.Sample.{
  config, moment, by_client, by_owner, by_nobody, client_row, connected-IsSound, state,
}
use android_streamdeck.Http.Access.{
  may_use_profiles, profile_routes_guarded, owner_routes_guarded, IsUnauthorized, IsStopped,
}
use android_streamdeck.Http.Refusal.Devices.{refused_changes_nothing}
use android_streamdeck.Http.Revoking.{IsRevoked, revoke_device_route-IsRevoked}
use android_streamdeck.Http.Claiming.{IsClaimed, claim_pairing_route-IsClaimed}

-- The profile is there already.
create_refused :
    serve config moment by_client (profile_route (create_profile deck)) state
    ≡ (raised (api_error 409 profile_revision_conflict true), state)
unfolding serve serve_profile create_profile_route write_and_broadcast write safe_error
    require_http_auth well_formed_credentials ◌>>=◌ authenticate active_credential_generation lookup
    insert perform Methods.create_profile create_body transaction revision_at has_active
    other_active insert_revision insert_profile valid_profile valid_page valid_button
    valid_button_layout valid_page_relationships valid_action valid_key_name valid_color
    distinct_places
create_refused = refl

refused_changes_nothing_example : IsSame state state
refused_changes_nothing_example =
    refused_changes_nothing config moment by_client (profile_route (create_profile deck)) state
      state (api_error 409 profile_revision_conflict true) create_refused (omega arith)

profile_routes_guarded_example :
    ((may_use_profiles config by_nobody state.tables ≡ true)
      × (serve config moment by_nobody (profile_route get_action_catalog) state
          ≡ serve_profile config moment get_action_catalog state))
    ⊎ ((may_use_profiles config by_nobody state.tables ≡ false)
        × IsUnauthorized state
            (serve config moment by_nobody (profile_route get_action_catalog) state))
profile_routes_guarded_example =
    profile_routes_guarded config moment by_nobody get_action_catalog state

owner_routes_guarded_example : IsStopped state (serve config moment by_nobody list_devices state)
owner_routes_guarded_example =
    owner_routes_guarded config moment by_nobody list_devices state refl refl

abbrev out : State
out = (revoke_device_route config by_owner moment 5 lost_device state).1

abbrev device : Device
device = record {
  client_id = 5;
  client_version = client_row.client_version;
  platform = android;
  credential_generation = 1;
  paired_at = 100;
  last_seen_at = none;
  revoked_at = some 200;
  revoked_reason = some lost_device;
}

revocation_runs :
    revoke_device_route config by_owner moment 5 lost_device state ≡ (returned device, out)
unfolding revoke_device_route revoke_listed call_revoke require_device_admin invalidate_sessions
    ◌>>=◌ allow reset purge record_attempt lookup insert erase revoke_client revoke_row list_clients
    sort_by insert_by
revocation_runs = refl

revoke_device_route-IsRevoked_example : IsRevoked config 5 state out
revoke_device_route-IsRevoked_example =
    revoke_device_route-IsRevoked 8 config by_owner moment 5 lost_device state out device refl
      connected-IsSound revocation_runs

abbrev claim_request : ClaimRequest
claim_request = record {
  client_id = 5;
  client_version = 49 ∷ [];
  session_id = none;
  client_proof = none;
  pairing_code = config.pairing_code;
}

abbrev claimed : State
claimed = (claim_pairing_route config by_nobody moment claim_request state).1

claim_runs :
    claim_pairing_route config by_nobody moment claim_request state
    ≡ (returned (5, 4 ∷ []), claimed)
unfolding claim_pairing_route allow_pairing reset_pairing call_claim_token invalidate_sessions ◌>>=◌
    allow reset purge record_attempt lookup insert erase claim_token issue_token
claim_runs = refl

claim_pairing_route-IsClaimed_example : IsClaimed config (4 ∷ []) 5 state claimed (5, 4 ∷ [])
claim_pairing_route-IsClaimed_example =
    claim_pairing_route-IsClaimed 8 config by_nobody moment claim_request state claimed (5, 4 ∷ [])
      refl (λ e. cc) connected-IsSound claim_runs
