-- ===== src/Builtin.antt =====
-- server/app/builtin_profiles.py: the built-in profile, installed once and upgraded while untouched.
-- `fixture v` is the profile that the JSON file of version `v` holds, and `builtin_id` the number that
-- names "essential-controls". The marker is the version in the row of `builtin_profile_installations`,
-- if there is one.
pub mod Guards
pub mod Invariant
mod Tests
use android_streamdeck.Base.{
  ℕ, ◌+◌, Bool, true, false, not, ◌||◌, Option, none, some, leb, ◌==◌, if◌then◌else◌,
}
use android_streamdeck.Base.Text.{Text}
use android_streamdeck.Base.Dict.{lookup}
use android_streamdeck.Profile.{Profile, valid_profile}
use android_streamdeck.Profile.Equality.{same_profile}
use android_streamdeck.Repository.Store.{
  Row, builtin, builtin_upgrade, invalid, Db, Tx, Result, ok, err, ◌>>=◌, ◌>>◌, pure, gets, lift,
  revision_at, has_active, validated_wire, profile_from_snapshot, insert_profile, replace_profile,
}

-- `BUILTIN_PROFILE_VERSION`
abbrev pub builtin_profile_version : ℕ
builtin_profile_version = 3

-- The database: the profile tables and the marker.
pub record Installation : Type 0 where
  pub marker : Option ℕ
  pub db : Db

-- `_same_profile_content`: the wires are equal without their revisions
unfoldable pub same_profile_content : Profile → Profile → Bool
same_profile_content left right =
    same_profile (record left { revision = 0 }) (record right { revision = 0 })

abbrev pub is_active_row : Option Row → Bool
is_active_row none = false
is_active_row (some row) = row.is_active

-- `_profile_is_active`
abbrev pub profile_is_active : ℕ → Db → Bool
profile_is_active id db = is_active_row (lookup id db.profiles)

-- What the transaction leaves: an error rolls the tables and the marker back.
abbrev pub committed :
    Installation → Result ((Option Profile × ℕ) × Db) → Result (Option Profile) × Installation
committed s (err e) = (err e, s)
committed s (ok ((p, version), db)) = (ok p, record { marker = some version; db = db })

abbrev pub some_profile : Result Profile → Result (Option Profile)
some_profile (ok p) = ok (some p)
some_profile (err e) = err e

module _ (valid_url : Text → Bool) where
  abbrev pub joined_snapshot : Option Profile → Tx (Option Profile)
  joined_snapshot none = pure none
  joined_snapshot (some snapshot) = lift (some_profile (profile_from_snapshot valid_url snapshot))

  abbrev pub joined_profile : ℕ → Option Row → Tx (Option Profile)
  joined_profile id none = pure none
  joined_profile id (some row) = do
    snapshot ← gets (λ db. revision_at id row.revision db.revisions)
    joined_snapshot snapshot

  -- `_current_profile_or_none`
  unfoldable pub current_profile_or_none : ℕ → Tx (Option Profile)
  current_profile_or_none id = do row ← gets (λ db. lookup id db.profiles); joined_profile id row

module _ (valid_url : Text → Bool) (builtin_id : ℕ) (fixture : ℕ → Profile) where
  -- `load_essential_controls_profile` on the file of a version; `invalid` is a `ValueError`, of which
  -- pydantic's `ValidationError` is one
  unfoldable pub load_profile : ℕ → Result Profile
  load_profile version =
      let p = fixture version in
      if not (valid_profile valid_url p)
      then err invalid
      else if not (p.id == builtin_id)
      then err invalid
      else if not (p.revision == 1)
      then err invalid
      else ok p

  -- `_builtin_profile_for_version`
  unfoldable pub builtin_profile_for_version : ℕ → Result (Option Profile)
  builtin_profile_for_version version =
      if version == 1 || version == 2 || version == builtin_profile_version
      then some_profile (load_profile version)
      else ok none

  -- The end of `_upgrade_builtin_profile`, with the profile and the fixture that it may still be.
  unfoldable pub upgrade_from : Profile → ℕ → Profile → Option Profile → Tx (Option Profile)
  upgrade_from wire now current none = pure (some current)
  upgrade_from wire now current (some prior) =
      if not (same_profile_content current prior) then pure (some current) else do
        active ← gets (profile_is_active builtin_id)
        replace_profile (record wire { revision = current.revision + 1 }) builtin_upgrade active now
        upgraded ← lift (validated_wire valid_url (record wire { revision = current.revision + 1 }))
        pure (some upgraded)

  -- `_upgrade_builtin_profile`; every branch marks the current version
  unfoldable pub upgrade_builtin_profile : Profile → ℕ → ℕ → Option Profile → Tx (Option Profile)
  upgrade_builtin_profile wire installed now none = pure none
  upgrade_builtin_profile wire installed now (some current) = do
    prior ← lift (builtin_profile_for_version installed)
    upgrade_from wire now current prior

  -- The branches of `install_builtin_profiles` without a marker.
  unfoldable pub install_new : Profile → ℕ → Option Profile → Tx (Option Profile)
  install_new wire now none = do
    active ← gets (λ db. not (has_active db.profiles))
    insert_profile wire builtin active now
    pure (some wire)
  install_new wire now (some current) =
      pure (if same_profile current wire then some current else none)

  -- The branches with a marker.
  unfoldable pub install_again : Profile → ℕ → ℕ → Option Profile → Tx (Option Profile × ℕ)
  install_again wire installed now current =
      if leb builtin_profile_version installed
      then pure (current, installed)
      else (upgrade_builtin_profile wire installed now current >>= λ upgraded.
          pure (upgraded, builtin_profile_version))

  -- The body of the transaction: what it returns, and the marker after it.
  unfoldable pub install_body : Profile → ℕ → Option ℕ → Tx (Option Profile × ℕ)
  install_body wire now none = do
    current ← current_profile_or_none valid_url builtin_id
    installed ← install_new wire now current
    pure (installed, builtin_profile_version)
  install_body wire now (some installed) = do
    current ← current_profile_or_none valid_url builtin_id
    install_again wire installed now current

  abbrev pub install_loaded :
      Result Profile → ℕ → Installation → Result (Option Profile) × Installation
  install_loaded (err e) now s = (err e, s)
  install_loaded (ok wire) now s = committed s (install_body wire now s.marker s.db)

  -- `install_builtin_profiles`
  unfoldable pub install_builtin_profiles :
      ℕ → Installation → Result (Option Profile) × Installation
  install_builtin_profiles now s = install_loaded (load_profile builtin_profile_version) now s
