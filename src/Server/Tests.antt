-- ===== src/Server/Tests.antt =====
-- The server on concrete happenings.
use android_streamdeck.Base.{ℕ, ◌≡◌, refl, none, some, List, [], ◌∷◌}
use android_streamdeck.Base.Dict.{lookup, insert, erase}
use android_streamdeck.Base.Sort.{sort_by, insert_by}
use android_streamdeck.RateLimit.{allow, reset, purge, record_attempt}
use android_streamdeck.Credentials.{
  lost_device, android, claim_token, issue_token, revoke_client, revoke_row,
}
use android_streamdeck.Credentials.Inventory.{Device, list_clients}
use android_streamdeck.Profile.{Profile}
use android_streamdeck.Profile.Sample.{deck}
use android_streamdeck.Http.{State, returned, require_device_admin, invalidate_sessions, ◌>>=◌}
use android_streamdeck.Http.Devices.{
  ClaimRequest, has_one_claim_mode, allow_pairing, reset_pairing, call_claim_token,
  claim_pairing_route, call_revoke, revoke_listed, revoke_device_route,
}
use android_streamdeck.Http.Invariant.{IsSound}
use android_streamdeck.Http.Revoking.{IsRevoked}
use android_streamdeck.Http.Routes.{claim_pairing, serve, serve_claim}
use android_streamdeck.Http.Sample.{config, moment, by_owner, by_nobody}
use android_streamdeck.Server.{Happening, request, timer, happen, happen_all, started}
use android_streamdeck.Server.Whole.{new_installation, server-IsSound, revocation_cuts_off}

abbrev fixture : ℕ → Profile
fixture v = deck

abbrev claim_request : ClaimRequest
claim_request = record {
  client_id = 5;
  client_version = 49 ∷ [];
  session_id = none;
  client_proof = none;
  pairing_code = config.pairing_code;
}

-- Client 5 pairs, and a timer of a session fires.
abbrev happenings : List Happening
happenings = request moment by_nobody (claim_pairing claim_request) ∷ timer [] 7 ∷ []

abbrev reached : State
reached = happen_all 8 config happenings (started config 7 fixture 100 new_installation)

server-IsSound_example : IsSound 8 reached
server-IsSound_example = server-IsSound 8 config 7 fixture 100 happenings

abbrev out : State
out = (revoke_device_route config by_owner moment 5 lost_device reached).1

abbrev device : Device
device = record {
  client_id = 5;
  client_version = 49 ∷ [];
  platform = android;
  credential_generation = 1;
  paired_at = 200;
  last_seen_at = none;
  revoked_at = some 200;
  revoked_reason = some lost_device;
}

revocation_runs :
    revoke_device_route config by_owner moment 5 lost_device reached ≡ (returned device, out)
unfolding happen_all happen serve serve_claim has_one_claim_mode revoke_device_route revoke_listed
    call_revoke require_device_admin invalidate_sessions ◌>>=◌ allow reset purge record_attempt
    lookup insert erase revoke_client revoke_row list_clients sort_by insert_by claim_pairing_route
    allow_pairing reset_pairing call_claim_token claim_token issue_token
revocation_runs = refl

revocation_cuts_off_example : IsRevoked config 5 reached out
revocation_cuts_off_example =
    revocation_cuts_off 8 config 7 fixture 100 happenings by_owner moment 5 lost_device reached out
      device refl refl revocation_runs
