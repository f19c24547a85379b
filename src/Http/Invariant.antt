-- ===== src/Http/Invariant.antt =====
-- The invariants of the components behind server/app/api.py, and the helpers of the routes.
pub mod Profiles
pub mod Devices
pub mod Requests
use android_streamdeck.Base.{
  ℕ, ◌≡◌, refl, Bool, true, false, Option, none, some, List, [], ◌∷◌, arith, ◌&&◌, not,
  if◌then◌else◌, Bool-cases, inl, inr,
}
use android_streamdeck.Base.Text.{Text}
use android_streamdeck.RateLimit.{Attempts, allow}
use android_streamdeck.Credentials.{Reason, Tables, pairing_session}
use android_streamdeck.Credentials.Audit.{
  IsConsistent, empty_tables, empty_tables-IsConsistent, issue_token-IsConsistent,
  claim_token-IsConsistent, revoke_client-IsConsistent,
}
use android_streamdeck.Pairing.Manager.{Manager, new_manager}
use android_streamdeck.Pairing.Manager.Invariant as Sound
use android_streamdeck.Profile.{Profile}
use android_streamdeck.Repository.Store.{Db, updated}
use android_streamdeck.Repository.Store as Store
use android_streamdeck.Repository.Methods as Methods
use android_streamdeck.Repository.Methods.Invariant.Writes.{IsValid}
use android_streamdeck.Repository.Methods.Runs.{
  Write, create, duplicate, rename, activate, delete, add_page, retitle_page, move_page,
  remove_page, save, perform, perform-IsValid, new_db, new_db-IsValid,
}
use android_streamdeck.WebSocket.{
  new_world, ChangeReason, sessions_of_client, invalidate_client_sessions,
}
use android_streamdeck.WebSocket.Bounds as WebSocket
use android_streamdeck.WebSocket.Bounds.Steps.{
  close_each-IsSound, broadcast-IsSound, new_world-IsSound,
}
use android_streamdeck.Http.{
  ApiError, Config, Request, Moment, State, Outcome, returned, raised, Handler, ◌>>=◌, ◌>>◌, pure,
  fail, require, internal, profile_missing, validation, read, write, require_http_auth,
  require_admin, require_device_admin, check_admin, invalidate_sessions, broadcast_event,
}
use android_streamdeck.Http.Frame.{Keeps, bind-Keeps, require-Keeps}
use android_streamdeck.Http.Profiles.{
  found, target_revision, write_and_broadcast, list_profiles_route, create_profile_route,
  imported_profile, validate_profile_data, get_profile_route, get_profile_snapshot_route,
  export_profile_route, rename_profile_route, duplicate_profile_route, activate_profile_route,
  delete_profile_route, create_page_route, rename_page_route, reorder_page_route, delete_page_route,
  get_active_profile_route, import_profile_route, put_profile_route, get_profile_audit_route,
}
use android_streamdeck.Http.Devices.{
  ClaimRequest, has_one_claim_mode, next_device, list_devices_route, call_revoke,
  revoke_device_route, allow_bootstrap, reset_bootstrap, call_bootstrap, pairing_bootstrap_route,
  private_server_ip, resolve_server_ip, call_create_session, create_local_pairing_session_route,
  allow_pairing, reset_pairing, call_claim, call_issue_token, call_claim_token, claim_with,
  claim_pairing_route,
}
use android_streamdeck.Http.Routes.{
  Body, ProfileRoute, list_profiles, get_active_profile, get_action_catalog, create_profile,
  get_profile, get_profile_snapshot, export_profile, rename_profile, duplicate_profile,
  activate_profile, delete_profile, create_page, rename_page, reorder_page, delete_page,
  import_profile, put_profile, get_profile_audit, Route, profile_route, list_devices,
  create_local_pairing_session, malformed, revoke_device, pairing_bootstrap, claim_pairing, answer,
  serve_profile, serve_claim, serve,
}

-- With at most `n` websockets: the invariants of the repository, of the pairing service, of the pairing
-- manager and of the websocket manager.
pub record IsSound (n : ℕ) (s : State) : Type 0 where
  pub database : IsValid s.db
  pub credentials : IsConsistent s.tables
  pub pairing : Sound.IsSound s.manager
  pub sockets : WebSocket.IsSound n s.world

module _ (n : ℕ) where
  abbrev pub KeepsSound : {A : Type 0} → Handler A → Type 0
  KeepsSound m = Keeps (IsSound n) m

  pub sound_then :
      {A B : Type 0} (m : Handler A) (f : A → Handler B)
      → KeepsSound m
      → ((a : A) → KeepsSound (f a))
      → KeepsSound (m >>= f)
  sound_then m f = bind-Keeps (IsSound n) m f

  pub found-Keeps : (e : ApiError) (o : Option Profile) → KeepsSound (found e o)
  found-Keeps e none s v = v
  found-Keeps e (some p) s v = v

  pub target_revision-Keeps : (o : Option Profile) (e : Option ℕ) → KeepsSound (target_revision o e)
  target_revision-Keeps none e s v = v
  target_revision-Keeps (some p) none s v = v
  target_revision-Keeps (some p) (some r) s v = v

  pub read-Keeps : {A : Type 0} (f : Db → Store.Result A) → KeepsSound (read f)
  unfolding read
  read-Keeps f s v = v

  pub write-Keeps :
      {A : Type 0} (about_page : Bool) (f : Db → Store.Result A × Db)
      → ((db : Db) → IsValid db → IsValid (f db).1)
      → KeepsSound (write about_page f)
  unfolding write
  write-Keeps about_page f keeps s v = record {
    database = keeps s.db v.database;
    credentials = v.credentials;
    pairing = v.pairing;
    sockets = v.sockets;
  }

  module _ (c : Config) (m : Moment) where
    pub broadcast_event-Keeps :
        (id revision : ℕ) (reason : ChangeReason)
        → KeepsSound (broadcast_event c m id revision reason)
    unfolding broadcast_event
    broadcast_event-Keeps id revision reason s v = elim (Bool-cases c.has_websockets) [
      | inl e ↦ rw e (record {
        database = v.database;
        credentials = v.credentials;
        pairing = v.pairing;
        sockets = broadcast-IsSound n m.up id revision reason s.world v.sockets;
      })
      | inr e ↦ rw e v
    ]

    pub invalidate_sessions-Keeps : (id : ℕ) → KeepsSound (invalidate_sessions c m id)
    unfolding invalidate_sessions invalidate_client_sessions
    invalidate_sessions-Keeps id s v = elim (Bool-cases c.has_websockets) [
      | inl e ↦ rw e (record {
        database = v.database;
        credentials = v.credentials;
        pairing = v.pairing;
        sockets = close_each-IsSound n m.up (sessions_of_client id s.world) s.world v.sockets;
      })
      | inr e ↦ rw e v
    ]

    pub write_and_broadcast-Keeps :
        (about_page : Bool) (f : Db → Store.Result Profile × Db) (reason : ChangeReason)
        → ((db : Db) → IsValid db → IsValid (f db).1)
        → KeepsSound (write_and_broadcast c m about_page f reason)
    unfolding write_and_broadcast
    write_and_broadcast-Keeps about_page f reason keeps =
        sound_then _ _ (write-Keeps about_page f keeps)
          λ (p : Profile). sound_then _ _ (broadcast_event-Keeps p.id p.revision reason) λ u s v. v
