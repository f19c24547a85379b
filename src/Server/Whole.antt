-- ===== src/Server/Whole.antt =====
-- Any run of the server, from its start on a new database.
use android_streamdeck.Base.{ℕ, ◌≡◌, refl, true, none, List, [], ◌∷◌}
use android_streamdeck.Credentials.{Reason}
use android_streamdeck.Credentials.Audit.{empty_tables-IsConsistent}
use android_streamdeck.Credentials.Inventory.{Device}
use android_streamdeck.Profile.{Profile}
use android_streamdeck.Repository.Methods.Runs.{new_db, new_db-IsValid}
use android_streamdeck.Builtin.{Installation}
use android_streamdeck.Builtin.Invariant.{install_builtin_profiles-IsValid}
use android_streamdeck.Pairing.Manager.Invariant.{
  new_manager-IsSound, expire_from_timer_session-IsSound,
}
use android_streamdeck.WebSocket.Bounds.Steps.{step-IsSound, new_world-IsSound}
use android_streamdeck.Http.{Config, Request, Moment, State, returned}
use android_streamdeck.Http.Devices.{revoke_device_route}
use android_streamdeck.Http.Invariant.{IsSound}
use android_streamdeck.Http.Invariant.Requests.{serve-Keeps}
use android_streamdeck.Http.Revoking.{IsRevoked, revoke_device_route-IsRevoked}
use android_streamdeck.Server.{
  Happening, request, socket, timer, socket_config, services_of, happen, happen_all, started,
}

module _ (n : ℕ) (c : Config) where
  happen-IsSound : (h : Happening) (s : State) → IsSound n s → IsSound n (happen n c h s)
  unfolding happen
  happen-IsSound (request m r route) s v = serve-Keeps n c m r route s v
  happen-IsSound (socket execute e) s v = record {
    database = v.database;
    credentials = v.credentials;
    pairing = v.pairing;
    sockets = step-IsSound (socket_config n c) (services_of execute s) e s.world v.sockets;
  }
  happen-IsSound (timer id mono) s v = record {
    database = v.database;
    credentials = v.credentials;
    pairing = expire_from_timer_session-IsSound id mono s.manager.session s.manager refl v.pairing;
    sockets = v.sockets;
  }

  happen_all-IsSound :
      (hs : List Happening) (s : State) → IsSound n s → IsSound n (happen_all n c hs s)
  unfolding happen_all
  happen_all-IsSound [] s v = v
  happen_all-IsSound (h ∷ hs) s v = happen_all-IsSound hs (happen n c h s) (happen-IsSound h s v)

abbrev pub new_installation : Installation
new_installation = record { marker = none; db = new_db }

-- After any requests, websocket steps and timers in any order from the start of the server on a new
-- database: exactly one profile is active if there is any and the revisions 1 up to the current one of
-- each are on record, the credential tables agree with their audit, the pairing manager holds at most
-- one session, not consumed, and remembers at most 32 ended ones, and at most `n` websockets are
-- connected, each with a session that is not invalidated.
pub server-IsSound :
    (n : ℕ) (c : Config) (builtin_id : ℕ) (fixture : ℕ → Profile) (now : ℕ) (hs : List Happening)
    → IsSound n (happen_all n c hs (started c builtin_id fixture now new_installation))
server-IsSound n c builtin_id fixture now hs =
    happen_all-IsSound n c hs (started c builtin_id fixture now new_installation) (record {
      database =
          install_builtin_profiles-IsValid c.valid_url builtin_id fixture now new_installation
            new_db-IsValid;
      credentials = empty_tables-IsConsistent;
      pairing = new_manager-IsSound;
      sockets = new_world-IsSound n;
    })

-- An owner's revocation that is answered, after any requests, websocket steps and timers since the
-- start on a new database: no token authenticates the client any more, no generation of it is active,
-- each of its connected websockets is invalidated and no longer connected, and the profiles stay.
pub revocation_cuts_off :
    (n : ℕ) (c : Config) (builtin_id : ℕ) (fixture : ℕ → Profile) (now : ℕ) (hs : List Happening)
    (r : Request) (m : Moment) (client_id : ℕ) (reason : Reason) (s s' : State) (device : Device)
    → c.has_websockets ≡ true
    → s ≡ happen_all n c hs (started c builtin_id fixture now new_installation)
    → revoke_device_route c r m client_id reason s ≡ (returned device, s')
    → IsRevoked c client_id s s'
revocation_cuts_off n c builtin_id fixture now hs r m client_id reason s s' device on reached h =
    revoke_device_route-IsRevoked n c r m client_id reason s s' device on
      (rw reached (server-IsSound n c builtin_id fixture now hs).sockets) h
