-- ===== src/Repository/Methods.antt =====
-- The methods of `ProfileRepository` that write, each one transaction, and its lookups.
pub mod Locking
pub mod Updates
pub mod Invariant
pub mod Deletion
pub mod Runs
pub mod Archive
mod Tests
use android_streamdeck.Base.{
  ℕ, ◌+◌, Bool, true, false, not, ◌&&◌, Option, none, some, List, [], ◌∷◌, length, leb, ◌==◌,
  is_none, is_value, if◌then◌else◌,
}
use android_streamdeck.Base.Text.{Text}
use android_streamdeck.Base.Dict.{Dict, lookup, insert}
use android_streamdeck.Profile.{Page, Profile, valid_page, valid_profile}
use android_streamdeck.Repository.Store.{
  Row, Reason, created, updated, activated, Db, Result, ok, err, conflict, protected, not_found,
  revision_not_found, persistence, invalid, Tx, ◌>>=◌, ◌>>◌, pure, raise, gets, modify, guard, lift,
  transaction, revision_at, has_active, deactivate_all, Current, validated_wire,
  profile_from_snapshot, current_profile_row, check_expected_revision, insert_profile,
  replace_profile, delete_row,
}
use android_streamdeck.Repository.Pages.{insert_page, rename_in, reorder_in, delete_in}

-- The id of the active row.
unfoldable pub active_id : Dict Row → Option ℕ
active_id [] = none
active_id ((i, r) ∷ d) = if r.is_active then some i else active_id d

-- `if name is not None: wire["name"] = name`
abbrev pub named : Option Text → Profile → Profile
named none p = p
named (some name) p = record p { name = name }

-- The branches of `save_profile` on the row that is there.
unfoldable pub save_row : Profile → Option ℕ → Reason → ℕ → Option Row → Tx (Unit {0})
save_row wire expected reason now none = do
  guard (is_none expected) conflict
  guard (wire.revision == 1) conflict
  active ← gets (λ db. not (has_active db.profiles))
  insert_profile wire reason active now
save_row wire expected reason now (some row) = do
  check_expected_revision row.revision expected
  guard (wire.revision == row.revision + 1) conflict
  replace_profile wire reason row.is_active now

module _ (valid_url : Text → Bool) where
  -- The body of `create_profile`'s transaction.
  unfoldable pub create_body : Profile → ℕ → Tx Profile
  create_body wire now = do
    free ← gets (λ db. is_none (lookup wire.id db.profiles))
    guard free conflict
    active ← gets (λ db. not (has_active db.profiles))
    insert_profile wire created active now
    pure wire

  -- `create_profile`
  unfoldable pub create_profile : Profile → ℕ → Db → Result Profile × Db
  create_profile profile now = transaction do
    wire ← lift (validated_wire valid_url profile)
    guard (wire.revision == 1) conflict
    create_body wire now

  -- `duplicate_profile`
  unfoldable pub duplicate_profile : ℕ → ℕ → Option ℕ → Option Text → ℕ → Db → Result Profile × Db
  duplicate_profile source_id new_id expected name now = transaction do
    source ← current_profile_row valid_url source_id
    check_expected_revision source.revision expected
    free ← gets (λ db. is_none (lookup new_id db.profiles))
    guard free conflict
    wire ← lift (
        validated_wire valid_url
          (named name (record (source.profile) { id = new_id; revision = 1 })))
    active ← gets (λ db. not (has_active db.profiles))
    insert_profile wire created active now
    pure wire

  -- `_mutate_profile`
  unfoldable pub mutate_profile :
      ℕ → ℕ → Reason → (Profile → Result Profile) → ℕ → Db → Result Profile × Db
  mutate_profile profile_id expected reason mutate now = transaction do
    current ← current_profile_row valid_url profile_id
    check_expected_revision current.revision (some expected)
    mutated ← lift (mutate current.profile)
    validated ← lift (validated_wire valid_url (record mutated { revision = current.revision + 1 }))
    replace_profile validated reason current.is_active now
    pure validated

  -- `rename_profile`
  unfoldable pub rename_profile : ℕ → Text → ℕ → ℕ → Db → Result Profile × Db
  rename_profile profile_id name expected =
      mutate_profile profile_id expected updated (λ wire. ok (record wire { name = name }))

  -- `create_page`, which validates the page first
  unfoldable pub create_page : ℕ → Page → ℕ → ℕ → Db → Result Profile × Db
  create_page profile_id page expected now db =
      if valid_page valid_url page
      then mutate_profile profile_id expected updated (insert_page valid_url page) now db
      else (err invalid, db)

  -- `rename_page`
  unfoldable pub rename_page : ℕ → ℕ → Text → ℕ → ℕ → Db → Result Profile × Db
  rename_page profile_id page_id title expected =
      mutate_profile profile_id expected updated (rename_in page_id title)

  -- `reorder_page`
  unfoldable pub reorder_page : ℕ → ℕ → ℕ → ℕ → ℕ → Db → Result Profile × Db
  reorder_page profile_id page_id order expected =
      mutate_profile profile_id expected updated (reorder_in page_id order)

  -- `delete_page`
  unfoldable pub delete_page : ℕ → ℕ → ℕ → Option ℕ → ℕ → Db → Result Profile × Db
  delete_page profile_id page_id expected replacement =
      mutate_profile profile_id expected updated (delete_in page_id replacement)

  -- The end of `activate_profile`'s transaction, for a profile that is not active.
  unfoldable pub activate_body : Current → ℕ → Tx Profile
  activate_body current now = do
    profile ←
        lift
          (validated_wire valid_url (record (current.profile) { revision = current.revision + 1 }))
    modify (λ db. record db { profiles = deactivate_all db.profiles })
    replace_profile profile activated true now
    pure profile

  -- `activate_profile`
  unfoldable pub activate_profile : ℕ → ℕ → ℕ → Db → Result Profile × Db
  activate_profile profile_id expected now = transaction do
    current ← current_profile_row valid_url profile_id
    check_expected_revision current.revision (some expected)
    if current.is_active then pure current.profile else activate_body current now

  -- The replacement's row in `delete_profile`, if one is named.
  unfoldable pub replacement_row : Option ℕ → Tx (Option Current)
  replacement_row none = pure none
  replacement_row (some id) = do row ← current_profile_row valid_url id; pure (some row)

  -- The replacement takes over from an active profile.
  unfoldable pub promote : Option Current → ℕ → Tx (Unit {0})
  promote none now = raise protected
  promote (some replacement) now = do
    modify (λ db. record db { profiles = deactivate_all db.profiles })
    profile ← lift (
        validated_wire valid_url
          (record (replacement.profile) { revision = replacement.revision + 1 }))
    replace_profile profile updated true now

  -- The body of `delete_profile`'s transaction.
  unfoldable pub delete_body : ℕ → ℕ → Option ℕ → ℕ → Tx ℕ
  delete_body profile_id expected replacement now = do
    current ← current_profile_row valid_url profile_id
    check_expected_revision current.revision (some expected)
    several ← gets (λ db. not (leb (length db.profiles) 1))
    guard several protected
    guard (not (is_value replacement profile_id)) protected
    row ← replacement_row replacement
    if current.is_active then promote row now else pure tt
    modify (delete_row profile_id)
    pure profile_id

  -- `delete_profile`
  unfoldable pub delete_profile : ℕ → ℕ → Option ℕ → ℕ → Db → Result ℕ × Db
  delete_profile profile_id expected replacement now =
      transaction (delete_body profile_id expected replacement now)

  -- `save_profile`, with a reason that `_validated_reason` has passed
  unfoldable pub save_profile : Profile → Option ℕ → Reason → ℕ → Db → Result Profile × Db
  save_profile profile expected reason now = transaction do
    wire ← lift (validated_wire valid_url profile)
    row ← gets (λ db. lookup wire.id db.profiles)
    save_row wire expected reason now row
    pure wire

  -- `get_active_profile`; `none` is that no profile is active
  unfoldable pub get_active_profile : Db → Result (Option Profile)
  get_active_profile db = elim (active_id db.profiles) [
    | none ↦ ok none
    | some id ↦ elim (current_profile_row valid_url id db) [
      | err not_found ↦ ok none
      | err e ↦ err e
      | ok (current, db') ↦ ok (some current.profile)
    ]
  ]

  -- `get_profile`
  unfoldable pub get_profile : ℕ → Option ℕ → Db → Result Profile
  get_profile profile_id none db = elim (current_profile_row valid_url profile_id db) [
    | err e ↦ err e
    | ok (current, db') ↦ ok (current.profile)
  ]
  get_profile profile_id (some rev) db = elim (revision_at profile_id rev db.revisions) [
    | none ↦ err revision_not_found
    | some snapshot ↦ profile_from_snapshot valid_url snapshot
  ]

-- The two updates of `set_active_profile`, on the row that is there.
unfoldable pub set_active_row : ℕ → Option Row → Tx (Unit {0})
set_active_row profile_id none = raise not_found
set_active_row profile_id (some row) = modify λ db. record db {
  profiles = insert profile_id (record row { is_active = true }) (deactivate_all db.profiles);
}

-- `set_active_profile`
unfoldable pub set_active_profile : ℕ → Db → Result (Unit {0}) × Db
set_active_profile profile_id =
    transaction do row ← gets (λ db. lookup profile_id db.profiles); set_active_row profile_id row
