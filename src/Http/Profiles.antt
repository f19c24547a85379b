-- ===== src/Http/Profiles.antt =====
-- The profile routes of server/app/api.py.
use android_streamdeck.Base.{
  ℕ, ◌+◌, Bool, true, false, ◌&&◌, Option, none, some, List, map, leb, ◌==◌, if◌then◌else◌,
}
use android_streamdeck.Base.Text.{Text}
use android_streamdeck.Profile.{Page, Profile, valid_profile}
use android_streamdeck.Repository.Store.{Db, updated, not_found, validated_wire}
use android_streamdeck.Repository.Store as Store
use android_streamdeck.Repository.Reads.{Entry, list_profiles, list_audit}
use android_streamdeck.Repository.Methods as Methods
use android_streamdeck.WebSocket as WebSocket
use android_streamdeck.Http.{
  payload_too_large, ApiError, api_error, Config, Moment, Handler, ◌>>=◌, ◌>>◌, pure, fail, require,
  internal, conflict_error, validation, profile_missing, read, write, broadcast_event, broadcast,
}

-- `ProfileSummary`
pub record Summary : Type 0 where
  pub id : ℕ
  pub name : Text
  pub revision : ℕ
  pub active_page_id : ℕ
  pub is_active : Bool

abbrev pub summary_of : Option Profile → Profile → Summary
summary_of none p = record {
  id = p.id;
  name = p.name;
  revision = p.revision;
  active_page_id = p.active_page_id;
  is_active = false;
}
summary_of (some active) p = record {
  id = p.id;
  name = p.name;
  revision = p.revision;
  active_page_id = p.active_page_id;
  is_active = p.id == active.id;
}

-- An answer that must be there.
abbrev pub found : ApiError → Option Profile → Handler Profile
found e none = fail e
found e (some p) = pure p

-- `MAX_PROFILE_IMPORT_BYTES`
abbrev pub max_profile_import_bytes : ℕ
max_profile_import_bytes = 524288

-- `target_revision` of `import_profile_route`
abbrev pub target_revision : Option Profile → Option ℕ → Handler ℕ
target_revision none expected = pure 1
target_revision (some current) none = fail conflict_error
target_revision (some current) (some expected) = pure (current.revision + 1)

module _ (c : Config) (m : Moment) where
  -- A write that returns a profile, and the broadcast of it.
  unfoldable pub write_and_broadcast :
      Bool → (Db → Store.Result Profile × Db) → WebSocket.ChangeReason → Handler Profile
  write_and_broadcast about_page f reason = do
    profile ← write about_page f
    broadcast c m profile reason
    pure profile

  -- `list_profiles`
  unfoldable pub list_profiles_route : Handler (List Summary)
  list_profiles_route = do
    profiles ← read (list_profiles c.valid_url c.before)
    active ← read (Methods.get_active_profile c.valid_url)
    pure (map (summary_of active) profiles)

  -- `create_profile`
  unfoldable pub create_profile_route : Profile → Handler Profile
  create_profile_route profile =
      write_and_broadcast false (Methods.create_profile c.valid_url profile m.timestamp)
        WebSocket.created

  -- `get_profile`
  unfoldable pub get_profile_route : ℕ → Handler Profile
  get_profile_route profile_id = read (Methods.get_profile c.valid_url profile_id none)

  -- `get_profile_snapshot`
  unfoldable pub get_profile_snapshot_route : ℕ → Option ℕ → Handler Profile
  get_profile_snapshot_route profile_id revision =
      read (Methods.get_profile c.valid_url profile_id revision)

  -- `_validate_profile_data` of server/app/profile_transfer.py: the validators of `Profile`, then the
  -- v1 schema
  abbrev pub validate_profile_data : Profile → Bool
  validate_profile_data profile = valid_profile c.valid_url profile && c.conforms profile

  -- `export_profile_route`
  unfoldable pub export_profile_route : ℕ → Handler Profile
  export_profile_route profile_id = do
    profile ← read (Methods.get_profile c.valid_url profile_id none)
    require (validate_profile_data profile) validation
    pure profile

  -- `rename_profile`
  unfoldable pub rename_profile_route : ℕ → Text → ℕ → Handler Profile
  rename_profile_route profile_id name expected =
      write_and_broadcast false
        (Methods.rename_profile c.valid_url profile_id name expected m.timestamp) WebSocket.updated

  -- `duplicate_profile`
  unfoldable pub duplicate_profile_route : ℕ → ℕ → Option Text → ℕ → Handler Profile
  duplicate_profile_route profile_id new_id name expected =
      write_and_broadcast false
        (Methods.duplicate_profile c.valid_url profile_id new_id (some expected) name m.timestamp)
        WebSocket.created

  -- `activate_profile`
  unfoldable pub activate_profile_route : ℕ → ℕ → Handler Profile
  activate_profile_route profile_id expected =
      write_and_broadcast false
        (Methods.activate_profile c.valid_url profile_id expected m.timestamp) WebSocket.updated

  -- `delete_profile`: the deleted id, and the id of the profile that is active then
  unfoldable pub delete_profile_route : ℕ → ℕ → Option ℕ → Handler (ℕ × ℕ)
  delete_profile_route profile_id expected replacement = do
    deleted_profile ← read (Methods.get_profile c.valid_url profile_id none)
    deleted_id ←
        write false (Methods.delete_profile c.valid_url profile_id expected replacement m.timestamp)
    broadcast_event c m deleted_profile.id deleted_profile.revision WebSocket.deleted
    found_active ← read (Methods.get_active_profile c.valid_url)
    active ← found internal found_active
    broadcast c m active WebSocket.updated
    pure (deleted_id, active.id)

  -- `create_page`
  unfoldable pub create_page_route : ℕ → Page → ℕ → Handler Profile
  create_page_route profile_id page expected =
      write_and_broadcast true
        (Methods.create_page c.valid_url profile_id page expected m.timestamp) WebSocket.updated

  -- `rename_page`
  unfoldable pub rename_page_route : ℕ → ℕ → Text → ℕ → Handler Profile
  rename_page_route profile_id page_id title expected =
      write_and_broadcast true
        (Methods.rename_page c.valid_url profile_id page_id title expected m.timestamp)
        WebSocket.updated

  -- `reorder_page`
  unfoldable pub reorder_page_route : ℕ → ℕ → ℕ → ℕ → Handler Profile
  reorder_page_route profile_id page_id order expected =
      write_and_broadcast true
        (Methods.reorder_page c.valid_url profile_id page_id order expected m.timestamp)
        WebSocket.updated

  -- `delete_page`: the profile whose id, active page and revision the response has
  unfoldable pub delete_page_route : ℕ → ℕ → Option ℕ → ℕ → Handler Profile
  delete_page_route profile_id page_id replacement expected =
      write_and_broadcast true
        (Methods.delete_page c.valid_url profile_id page_id expected replacement m.timestamp)
        WebSocket.updated

  -- `get_active_profile`
  unfoldable pub get_active_profile_route : Handler Profile
  get_active_profile_route = do
    active ← read (Methods.get_active_profile c.valid_url)
    found profile_missing active

  -- `current_profile_or_none` of `create_router`; a revision that is not found cannot be raised here
  abbrev pub none_if_missing : Store.Result Profile → Store.Result (Option Profile)
  none_if_missing (Store.err not_found) = Store.ok none
  none_if_missing (Store.err e) = Store.err e
  none_if_missing (Store.ok p) = Store.ok (some p)

  -- `import_profile`, on what `_decode_payload` and the shape of `Profile` leave of the body; `none` is
  -- that they raise
  abbrev pub imported_profile : Option Profile → Handler Profile
  imported_profile none = fail validation
  imported_profile (some p) = if validate_profile_data p then pure p else fail validation

  -- `import_profile_route`, with the length of the body
  unfoldable pub import_profile_route : ℕ → Option Profile → Option ℕ → Handler Profile
  import_profile_route size payload expected = do
    require (leb size max_profile_import_bytes) (api_error 413 payload_too_large false)
    imported ← imported_profile payload
    current ← read (λ db. none_if_missing (Methods.get_profile c.valid_url imported.id none db))
    revision ← target_revision current expected
    normalized ← read (λ db. validated_wire c.valid_url (record imported { revision = revision }))
    write_and_broadcast false
        (Methods.save_profile c.valid_url normalized expected updated m.timestamp) WebSocket.updated

  -- `put_profile`
  unfoldable pub put_profile_route : ℕ → Profile → ℕ → Handler Profile
  put_profile_route profile_id profile expected = do
    require (profile.id == profile_id) validation
    write_and_broadcast false
        (Methods.save_profile c.valid_url profile (some expected) updated m.timestamp)
        WebSocket.updated

  -- `get_profile_audit`
  unfoldable pub get_profile_audit_route : ℕ → ℕ → Handler (ℕ × List Entry)
  get_profile_audit_route profile_id limit = do
    entries ← read (list_audit profile_id limit)
    pure (profile_id, entries)
