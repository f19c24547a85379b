-- ===== src/Http/Invariant/Devices.antt =====
-- The invariants across the device and pairing routes of server/app/api.py.
use android_streamdeck.Base.{ℕ, Bool, true, false, Option, none, some}
use android_streamdeck.Base.Text.{Text}
use android_streamdeck.RateLimit.{Attempts, allow}
use android_streamdeck.Credentials.{Reason, Tables, pairing_session}
use android_streamdeck.Credentials.Inventory.{Device}
use android_streamdeck.Credentials.Audit.{
  IsConsistent, issue_token-IsConsistent, claim_token-IsConsistent, revoke_client-IsConsistent,
}
use android_streamdeck.Pairing.Manager.{Manager}
use android_streamdeck.Pairing.Manager.Invariant as Sound
use android_streamdeck.Http.{
  ApiError, Config, Request, Moment, State, require, require_admin, require_device_admin,
  check_admin,
}
use android_streamdeck.Http.Frame.{Keeps, require-Keeps}
use android_streamdeck.Http.Devices.{
  ClaimRequest, next_device, list_devices_route, call_revoke, revoke_listed, revoke_device_route,
  allow_bootstrap, reset_bootstrap, call_bootstrap, pairing_bootstrap_route, private_server_ip,
  resolve_server_ip, call_create_session, create_local_pairing_session_route, allow_pairing,
  reset_pairing, call_claim, call_issue_token, call_claim_token, claim_with, claim_pairing_route,
}
use android_streamdeck.Http.Invariant.{IsSound, KeepsSound, sound_then, invalidate_sessions-Keeps}

module _ (n : ℕ) (c : Config) (r : Request) (m : Moment) where
  check_admin-Keeps :
      (admin_code : Text) (a : Bool × Attempts) → Keeps (IsSound n) (check_admin c r admin_code a)
  check_admin-Keeps admin_code (false, attempts) s v = record {
    database = v.database;
    credentials = v.credentials;
    pairing = v.pairing;
    sockets = v.sockets;
  }
  check_admin-Keeps admin_code (true, attempts) s v = record {
    database = v.database;
    credentials = v.credentials;
    pairing = v.pairing;
    sockets = v.sockets;
  }

  require_admin-Keeps : (o : Option Text) → KeepsSound n (require_admin c r m o)
  require_admin-Keeps none s v = v
  require_admin-Keeps (some admin_code) s v =
      check_admin-Keeps admin_code (allow c.limits m.tick r.origin s.admin_attempts) s v

  require_device_admin-Keeps : KeepsSound n (require_device_admin c r m)
  unfolding require_device_admin
  require_device_admin-Keeps = require_admin-Keeps c.admin_code

  -- The steps that change one part.
  with_manager :
      (s : State) (q : Manager)
      → IsSound n s
      → Sound.IsSound q
      → IsSound n (record s { manager = q })
  with_manager s q v k = record {
    database = v.database;
    credentials = v.credentials;
    pairing = k;
    sockets = v.sockets;
  }

  with_tables :
      (s : State) (t : Tables) → IsSound n s → IsConsistent t → IsSound n (record s { tables = t })
  with_tables s t v k = record {
    database = v.database;
    credentials = k;
    pairing = v.pairing;
    sockets = v.sockets;
  }

  call_revoke-Keeps : (id : ℕ) (reason : Reason) → KeepsSound n (call_revoke c r m id reason)
  unfolding call_revoke
  call_revoke-Keeps id reason s v =
      with_tables s _ v (revoke_client-IsConsistent id reason m.timestamp s.tables v.credentials)

  call_bootstrap-Keeps : (id : Text) → KeepsSound n (call_bootstrap c r m id)
  unfolding call_bootstrap
  call_bootstrap-Keeps id s v =
      with_manager s _ v (Sound.bootstrap-IsSound c.library id m.mono s.manager v.pairing)

  call_create_session-Keeps : (ip : Text) → KeepsSound n (call_create_session c r m ip)
  unfolding call_create_session
  call_create_session-Keeps ip s v = with_manager s _ v (
      Sound.create_session-IsSound c.library ip c.port c.ca_certificate_pem m.wall m.mono
        m.code_bytes m.salt s.manager v.pairing)

  call_claim-Keeps :
      (id : ℕ) (version session_id proof : Text)
      → KeepsSound n (call_claim c r m id version session_id proof)
  unfolding call_claim
  call_claim-Keeps id version session_id proof s v = with_manager s _ v (
      Sound.claim-IsSound c.library session_id (c.spelling id) version proof m.mono s.manager
        v.pairing)

  call_issue_token-Keeps :
      (id : ℕ) (version : Text) → KeepsSound n (call_issue_token c r m id version)
  unfolding call_issue_token
  call_issue_token-Keeps id version s v = with_tables s _ v (
      issue_token-IsConsistent c.hash id version pairing_session m.token m.timestamp s.tables
        v.credentials)

  call_claim_token-Keeps :
      (id : ℕ) (version code : Text) → KeepsSound n (call_claim_token c r m id version code)
  unfolding call_claim_token
  call_claim_token-Keeps id version code s v = with_tables s _ v (
      claim_token-IsConsistent c.hash c.pairing_code id version code m.token m.timestamp s.tables
        v.credentials)

  limiter-Keeps :
      (KeepsSound n (allow_bootstrap c r m))
      × (KeepsSound n (reset_bootstrap c r m))
      × (KeepsSound n (allow_pairing c r m))
      × (KeepsSound n (reset_pairing c r m))
  unfolding allow_bootstrap reset_bootstrap allow_pairing reset_pairing
  limiter-Keeps = (
    λ s v. record {
      database = v.database;
      credentials = v.credentials;
      pairing = v.pairing;
      sockets = v.sockets;
    },
    λ s v. record {
      database = v.database;
      credentials = v.credentials;
      pairing = v.pairing;
      sockets = v.sockets;
    },
    λ s v. record {
      database = v.database;
      credentials = v.credentials;
      pairing = v.pairing;
      sockets = v.sockets;
    },
    λ s v. record {
      database = v.database;
      credentials = v.credentials;
      pairing = v.pairing;
      sockets = v.sockets;
    },
  )

  next_device-Keeps : (o : Option Device) → KeepsSound n (next_device o)
  next_device-Keeps none s v = v
  next_device-Keeps (some d) s v = v

  private_server_ip-Keeps : (o : Option Text) → KeepsSound n (private_server_ip o)
  private_server_ip-Keeps none s v = v
  private_server_ip-Keeps (some d) s v = v

  needs : (b : Bool) (e : ApiError) → KeepsSound n (require b e)
  needs b e = require-Keeps (IsSound n) b e

  pub list_devices_route-Keeps : KeepsSound n (list_devices_route c r m)
  unfolding list_devices_route
  list_devices_route-Keeps =
      sound_then n _ _ require_device_admin-Keeps λ u. sound_then n _ _ (needs _ _) λ u s v. v

  pub revoke_device_route-Keeps :
      (id : ℕ) (reason : Reason) → KeepsSound n (revoke_device_route c r m id reason)
  unfolding revoke_device_route revoke_listed
  revoke_device_route-Keeps id reason = sound_then n _ _ require_device_admin-Keeps λ u.
      sound_then n _ _ (needs _ _) λ u.
        sound_then n _ _ (λ s v. v)
          λ ds. sound_then n _ _ (needs _ _) λ u.
            sound_then n _ _ (call_revoke-Keeps id reason) λ done.
              sound_then n _ _ (invalidate_sessions-Keeps n c m id)
                λ u. sound_then n _ _ (λ s v. v) λ d. next_device-Keeps d

  pub pairing_bootstrap_route-Keeps : (id : Text) → KeepsSound n (pairing_bootstrap_route c r m id)
  unfolding pairing_bootstrap_route
  pairing_bootstrap_route-Keeps id = sound_then n _ _ (needs _ _) λ u.
      sound_then n _ _ (limiter-Keeps.0) λ allowed. sound_then n _ _ (needs _ _) λ u.
        sound_then n _ _ (call_bootstrap-Keeps id)
          λ b. sound_then n _ _ (limiter-Keeps.1) λ u s v. v

  pub create_local_pairing_session_route-Keeps :
      KeepsSound n (create_local_pairing_session_route c r m)
  unfolding create_local_pairing_session_route resolve_server_ip
  create_local_pairing_session_route-Keeps = sound_then n _ _ (needs _ _) λ u.
      sound_then n _ _ require_device_admin-Keeps λ u. sound_then n _ _ (needs _ _) λ u.
        sound_then n _ _ (sound_then n _ _ (needs _ _) λ u. private_server_ip-Keeps c.server_ip)
          λ ip. call_create_session-Keeps ip

  claim_with-Keeps :
      (p : ClaimRequest) (session_id proof : Option Text)
      → KeepsSound n (claim_with c r m p session_id proof)
  claim_with-Keeps p (some session_id) (some proof) = sound_then n _ _ (needs _ _) λ u.
      sound_then n _ _ (call_claim-Keeps p.client_id p.client_version session_id proof)
        λ granted. call_issue_token-Keeps p.client_id p.client_version
  claim_with-Keeps p (some session_id) none = call_claim_token-Keeps p.client_id p.client_version _
  claim_with-Keeps p none proof = call_claim_token-Keeps p.client_id p.client_version _

  pub claim_pairing_route-Keeps : (p : ClaimRequest) → KeepsSound n (claim_pairing_route c r m p)
  unfolding claim_pairing_route
  claim_pairing_route-Keeps p = sound_then n _ _ (needs _ _) λ u.
      sound_then n _ _ (limiter-Keeps.2) λ allowed. sound_then n _ _ (needs _ _) λ u.
        sound_then n _ _ (claim_with-Keeps p p.session_id p.client_proof) λ token.
          sound_then n _ _ (limiter-Keeps.3)
            λ u. sound_then n _ _ (invalidate_sessions-Keeps n c m p.client_id) λ u s v. v
