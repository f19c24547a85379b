-- ===== src/Http/Refusal.antt =====
-- Errors of the routes of server/app/api.py: the pieces that the routes share.
pub mod Profiles
pub mod Devices
use android_streamdeck.Base.{
  ℕ, ◌≡◌, refl, Bool, true, false, Option, none, some, List, [], ◌∷◌, ◌≢◌, arith, ◌&&◌, not, ◌||◌,
  if◌then◌else◌, Option-cases, Bool-cases, inl, inr,
}
use android_streamdeck.Base.Text.{Text}
use android_streamdeck.RateLimit.{Attempts, allow}
use android_streamdeck.Credentials.{Reason, Tables, pairing_session}
use android_streamdeck.Credentials.Audit.{
  IsConsistent, empty_tables, empty_tables-IsConsistent, issue_token-IsConsistent,
  claim_token-IsConsistent, revoke_client-IsConsistent,
}
use android_streamdeck.Pairing.Manager.{Manager, new_manager}
use android_streamdeck.Pairing.Manager.Invariant as Sound
use android_streamdeck.Profile.{Profile}
use android_streamdeck.Repository.Store.{
  Db, Tx, revision_at, Error, not_found, persistence, updated, transaction, current_profile_row,
  Current,
}
use android_streamdeck.Base.Dict.{lookup}
use android_streamdeck.Repository.Store as Store
use android_streamdeck.Repository.Methods as Methods
use android_streamdeck.Repository.Methods.Invariant.Writes.{IsValid}
use android_streamdeck.Repository.Methods.Runs.{
  Write, create, duplicate, rename, activate, delete, add_page, retitle_page, move_page,
  remove_page, save, perform, perform-IsValid, new_db, new_db-IsValid,
}
use android_streamdeck.WebSocket.{
  new_world, ChangeReason, sessions_of_client, invalidate_client_sessions,
}
use android_streamdeck.WebSocket as WebSocket
use android_streamdeck.WebSocket.Bounds.Steps.{
  close_each-IsSound, broadcast-IsSound, new_world-IsSound,
}
use android_streamdeck.Http.{
  safe_error, safe_result, gets, ApiError, Config, Request, Moment, State, Outcome, returned,
  raised, Handler, ◌>>=◌, ◌>>◌, pure, fail, require, internal, profile_missing, validation, read,
  write, require_http_auth, require_admin, require_device_admin, check_admin, invalidate_sessions,
  broadcast_event,
}
use android_streamdeck.Http.Frame.{
  IsSame, IsSame-refl, IsSame-trans, Reads, CleanEnd, IsClean, SafeEnd, IsSafe, Reads-IsClean,
  bind-Reads, require-Reads, Reads-then, IsClean-then, bind-IsSafe,
}
use android_streamdeck.Http.Profiles.{
  found, target_revision, write_and_broadcast, list_profiles_route, create_profile_route,
  imported_profile, validate_profile_data, get_profile_route, get_profile_snapshot_route,
  export_profile_route, rename_profile_route, duplicate_profile_route, activate_profile_route,
  delete_profile_route, create_page_route, rename_page_route, reorder_page_route, delete_page_route,
  get_active_profile_route, import_profile_route, put_profile_route, get_profile_audit_route,
}
use android_streamdeck.Http.Devices.{
  ClaimRequest, has_one_claim_mode, next_device, list_devices_route, call_revoke,
  revoke_device_route, allow_bootstrap, reset_bootstrap, call_bootstrap, pairing_bootstrap_route,
  private_server_ip, resolve_server_ip, call_create_session, create_local_pairing_session_route,
  allow_pairing, reset_pairing, call_claim, call_issue_token, call_claim_token, claim_with,
  claim_pairing_route,
}
use android_streamdeck.Http.Routes.{
  Body, ProfileRoute, list_profiles, get_active_profile, get_action_catalog, create_profile,
  get_profile, get_profile_snapshot, export_profile, rename_profile, duplicate_profile,
  activate_profile, delete_profile, create_page, rename_page, reorder_page, delete_page,
  import_profile, put_profile, get_profile_audit, Route, profile_route, list_devices,
  create_local_pairing_session, malformed, revoke_device, pairing_bootstrap, claim_pairing, answer,
  serve_profile, serve_claim, serve,
}

abbrev pub RolledBack : {A : Type 0} → Db → Store.Result A × Db → Type 0
RolledBack db (Store.ok a, db') = Unit
RolledBack db (Store.err e, db') = db' ≡ db

-- An error of the method has left the tables.
abbrev pub RollsBack : {A : Type 0} → (Db → Store.Result A × Db) → Type 0
RollsBack f = (db : Db) → RolledBack db (f db)

pub transaction-RollsBack : {A : Type 0} (m : Tx A) → RollsBack (transaction m)
unfolding transaction
transaction-RollsBack {A} m db = go (m db)
  where
    go : (r : Store.Result (A × Db)) → RolledBack db (Store.committed db r)
    go (Store.ok (a, db')) = tt
    go (Store.err e) = refl

pub write-IsClean :
    {A : Type 0} (about_page : Bool) (f : Db → Store.Result A × Db)
    → RollsBack f
    → IsClean (write about_page f)
unfolding write
write-IsClean {A} about_page f k s = go (f s.db) (k s.db)
  where
    go :
        (r : Store.Result A × Db)
        → RolledBack s.db r
        → CleanEnd s (safe_result about_page r.0, record s { db = r.1 })
    go (Store.ok a, db') h = tt
    go (Store.err e, db') h = inr (record { db = h; tables = refl; world = refl })

pub read-Reads : {A : Type 0} (f : Db → Store.Result A) → Reads (read f)
unfolding read
read-Reads f s = IsSame-refl s

pub found-Reads : (e : ApiError) (o : Option Profile) → Reads (found e o)
found-Reads e none s = IsSame-refl s
found-Reads e (some p) s = IsSame-refl s

pub found-IsSafe : (o : Option Profile) → IsSafe (found internal o)
found-IsSafe none s = refl
found-IsSafe (some p) s = tt

pub broadcast_event-IsSafe :
    (c : Config) (m : Moment) (id revision : ℕ) (reason : ChangeReason)
    → IsSafe (broadcast_event c m id revision reason)
unfolding broadcast_event
broadcast_event-IsSafe c m id revision reason s = elim (Bool-cases c.has_websockets) [
  | inl e ↦ rw e tt
  | inr e ↦ rw e tt
]

pub invalidate_sessions-IsSafe :
    (c : Config) (m : Moment) (id : ℕ) → IsSafe (invalidate_sessions c m id)
unfolding invalidate_sessions
invalidate_sessions-IsSafe c m id s = elim (Bool-cases c.has_websockets) [
  | inl e ↦ rw e tt
  | inr e ↦ rw e tt
]

pub get_active_profile-error :
    (valid_url : Text → Bool) (db : Db) (e : Error)
    → Methods.get_active_profile valid_url db ≡ Store.err e
    → e ≡ persistence
unfolding Methods.get_active_profile current_profile_row
get_active_profile-error valid_url db e h = elim (Option-cases (Methods.active_id db.profiles)) [
  | inl none_active ↦ absurd (ground arith)
  | inr (id, active) ↦ elim (Option-cases (lookup id db.profiles)) [
    | inl absent ↦ absurd (ground arith)
    | inr (row, there) ↦ elim (Option-cases (revision_at id row.revision db.revisions)) [
      | inl missing ↦ absurd (ground arith)
      | inr (snapshot, stored) ↦ ground arith
    ]
  ]
]

pub write_and_broadcast-IsClean :
    (c : Config) (m : Moment) (about_page : Bool) (f : Db → Store.Result Profile × Db)
    (reason : ChangeReason)
    → RollsBack f
    → IsClean (write_and_broadcast c m about_page f reason)
unfolding write_and_broadcast
write_and_broadcast-IsClean c m about_page f reason k =
    IsClean-then _ _ (write-IsClean about_page f k)
      λ (p : Profile). bind-IsSafe _ _ (broadcast_event-IsSafe c m p.id p.revision reason) λ u s. tt

get_active_profile-IsSafe :
    (c : Config) (s : State) (r : Store.Result (Option Profile))
    → Methods.get_active_profile c.valid_url s.db ≡ r
    → SafeEnd (safe_result false r, s)
unfolding safe_error
get_active_profile-IsSafe c s (Store.ok o) h = tt
get_active_profile-IsSafe c s (Store.err e) h =
    rw (get_active_profile-error c.valid_url s.db e h) refl

pub read_active-IsSafe : (c : Config) → IsSafe (read (Methods.get_active_profile c.valid_url))
unfolding read
read_active-IsSafe c s =
    get_active_profile-IsSafe c s (Methods.get_active_profile c.valid_url s.db) refl
