-- ===== src/Repository/Store.antt =====
-- The tables that server/app/repositories/profiles.py writes (server/app/migrations.py, schema 1),
-- and its helper functions over them, as actions that end in a value or an error.
-- A snapshot is the profile that its JSON text encodes: `json.dumps` and `json.loads` are taken to be
-- inverse. The rows of `pages`, `buttons` and `actions` of a profile are the pages of its row; their
-- constraints follow from the checks of `Profile`. Timestamps are numbers, passed as `now`.
pub mod Rows
pub mod Steps
pub mod Filed
pub mod Inversion
use android_streamdeck.Base.{
  ℕ, Bool, true, false, not, ◌&&◌, ◌||◌, Option, none, some, List, [], ◌∷◌, ◌++◌, keep, is_none,
  ◌==◌, if◌then◌else◌, is_value,
}
use android_streamdeck.Base.Text.{Text}
use android_streamdeck.Base.Dict.{Dict, lookup, insert, erase}
use android_streamdeck.Profile.{Page, Profile, valid_profile}

-- a row of `profiles`, with its rows of `pages`
pub record Row : Type 0 where
  pub protocol_version : ℕ
  pub name : Text
  pub revision : ℕ
  pub active_page_id : ℕ
  pub is_active : Bool
  pub created_at : ℕ
  pub updated_at : ℕ
  pub pages : List Page

-- the reasons that the server writes, and any other text
pub data Reason : Type 0 where
  created updated activated builtin builtin_upgrade : Reason
  other_reason : ℕ → Reason

-- a row of `profile_revisions`
pub record Revision : Type 0 where
  pub profile_id : ℕ
  pub revision : ℕ
  pub snapshot : Profile
  pub reason : Reason
  pub created_at : ℕ

pub record Db : Type 0 where
  pub profiles : Dict Row
  pub revisions : List Revision

-- `ProfileConflictError`, `ProfileValidationError`, `ProfileProtectedError`, `ProfileNotFoundError`,
-- `ProfileRevisionNotFoundError`, `ProfileRepositoryError`, pydantic's `ValidationError`
pub data Error : Type 0 where
  conflict bad_order protected not_found revision_not_found persistence invalid : Error

pub data Result {ℓ} (A : Type ℓ) : Type ℓ where
  ok : A → Result A
  err : Error → Result A

-- What runs inside a transaction: the tables after it, or an error.
abbrev pub Tx : Type 0 → Type 0
Tx A = Db → Result (A × Db)

infixl 5 ◌>>=◌ ◌>>◌
abbrev pub ◌>>=◌ : {A B : Type 0} → Tx A → (A → Tx B) → Tx B
◌>>=◌ m f db = elim (m db) [ err e ↦ err e | ok (a, db') ↦ f a db' ]

abbrev pub ◌>>◌ : {B : Type 0} → Tx (Unit {0}) → Tx B → Tx B
m >> k = m >>= λ _. k

abbrev pub pure : {A : Type 0} → A → Tx A
pure a db = ok (a, db)

abbrev pub raise : {A : Type 0} → Error → Tx A
raise e db = err e

abbrev pub gets : {A : Type 0} → (Db → A) → Tx A
gets f db = ok (f db, db)

abbrev pub modify : (Db → Db) → Tx (Unit {0})
modify f db = ok (tt, f db)

abbrev pub guard : Bool → Error → Tx (Unit {0})
guard true e db = ok (tt, db)
guard false e db = err e

-- The value of a computation that touches no table.
abbrev pub lift : {A : Type 0} → Result A → Tx A
lift (ok a) db = ok (a, db)
lift (err e) db = err e

-- `with self.database.transaction()`: an error rolls the tables back.
abbrev pub committed : {A : Type 0} → Db → Result (A × Db) → Result A × Db
committed db (ok (a, db')) = (ok a, db')
committed db (err e) = (err e, db)

unfoldable pub transaction : {A : Type 0} → Tx A → Db → Result A × Db
transaction m db = committed db (m db)

-- `SELECT … FROM profile_revisions WHERE profile_id = ? AND revision = ?`
unfoldable pub revision_at : ℕ → ℕ → List Revision → Option Profile
revision_at id rev [] = none
revision_at id rev (r ∷ rs) =
    if r.profile_id == id && r.revision == rev then some r.snapshot else revision_at id rev rs

-- `SELECT 1 FROM profiles WHERE is_active = 1 LIMIT 1`
unfoldable pub has_active : Dict Row → Bool
has_active [] = false
has_active ((i, r) ∷ d) = r.is_active || has_active d

-- Another profile than `id` is active.
unfoldable pub other_active : ℕ → Dict Row → Bool
other_active id [] = false
other_active id ((i, r) ∷ d) = (not (i == id) && r.is_active) || other_active id d

-- `UPDATE profiles SET is_active = 0`
unfoldable pub deactivate_all : Dict Row → Dict Row
deactivate_all [] = []
deactivate_all ((i, r) ∷ d) = (i, record r { is_active = false }) ∷ deactivate_all d

-- What `_current_profile_row` returns.
pub record Current : Type 0 where
  pub revision : ℕ
  pub is_active : Bool
  pub profile : Profile

module _ (valid_url : Text → Bool) where
  -- `_profile_from_snapshot`
  abbrev pub profile_from_snapshot : Profile → Result Profile
  profile_from_snapshot p = if valid_profile valid_url p then ok p else err persistence

  -- `_validated_wire`, and `Profile.model_validate`
  abbrev pub validated_wire : Profile → Result Profile
  validated_wire p = if valid_profile valid_url p then ok p else err invalid

  abbrev current_of : Row → Option Profile → Tx Current
  current_of row none = raise not_found
  current_of row (some snapshot) = do
    profile ← lift (profile_from_snapshot snapshot)
    pure (record { revision = row.revision; is_active = row.is_active; profile = profile })

  abbrev joined_row : ℕ → Option Row → Tx Current
  joined_row id none = raise not_found
  joined_row id (some row) = do
    snapshot ← gets (λ db. revision_at id row.revision db.revisions)
    current_of row snapshot

  -- `_current_profile_row`
  unfoldable pub current_profile_row : ℕ → Tx Current
  current_profile_row id = do row ← gets (λ db. lookup id db.profiles); joined_row id row

-- `_check_expected_revision`
unfoldable pub check_expected_revision : ℕ → Option ℕ → Tx (Unit {0})
check_expected_revision revision expected =
    guard (is_none expected || is_value expected revision) conflict

-- `_insert_revision`; the primary key refuses a revision that is there
unfoldable pub insert_revision : Profile → Reason → ℕ → Tx (Unit {0})
insert_revision wire reason now = do
  old ← gets (λ db. revision_at wire.id wire.revision db.revisions)
  guard (is_none old) persistence
  modify λ db. record db {
    revisions =
        db.revisions
        ++ record {
          profile_id = wire.id;
          revision = wire.revision;
          snapshot = wire;
          reason = reason;
          created_at = now;
        }
          ∷ [];
  }

-- The row that holds a profile.
abbrev pub row_of : Profile → Bool → ℕ → ℕ → Row
row_of wire is_active created_at updated_at = record {
  protocol_version = wire.protocol_version;
  name = wire.name;
  revision = wire.revision;
  active_page_id = wire.active_page_id;
  is_active = is_active;
  created_at = created_at;
  updated_at = updated_at;
  pages = wire.pages;
}

-- `_insert_profile`; the index on `is_active` refuses a second active profile, the primary key an id
-- that is there
unfoldable pub insert_profile : Profile → Reason → Bool → ℕ → Tx (Unit {0})
insert_profile wire reason is_active now = do
  taken ← gets (λ db. not (is_none (lookup wire.id db.profiles)))
  second ← gets (λ db. is_active && other_active wire.id db.profiles)
  guard (not taken && not second) persistence
  modify λ db. record db { profiles = insert wire.id (row_of wire is_active now now) db.profiles }
  insert_revision wire reason now

-- The `UPDATE` of `_replace_profile` on the row that is there, with its pages deleted and inserted;
-- with no row, the foreign key refuses the pages.
abbrev pub replace_row : Profile → Bool → ℕ → Option Row → Tx (Unit {0})
replace_row wire is_active now none = raise persistence
replace_row wire is_active now (some row) = modify λ db. record db {
  profiles = insert wire.id (row_of wire is_active row.created_at now) db.profiles;
}

-- `_replace_profile`
unfoldable pub replace_profile : Profile → Reason → Bool → ℕ → Tx (Unit {0})
replace_profile wire reason is_active now = do
  second ← gets (λ db. is_active && other_active wire.id db.profiles)
  guard (not second) persistence
  row ← gets (λ db. lookup wire.id db.profiles)
  replace_row wire is_active now row
  insert_revision wire reason now

-- `DELETE FROM profiles WHERE id = ?`, which cascades to the revisions
unfoldable pub delete_row : ℕ → Db → Db
delete_row id db = record {
  profiles = erase id db.profiles;
  revisions = keep (λ r. not (r.profile_id == id)) db.revisions;
}
