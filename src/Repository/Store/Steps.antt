-- ===== src/Repository/Store/Steps.antt =====
-- What the helper functions have done when they succeed.
use android_streamdeck.Base.{ℕ, ◌≡◌, Bool, none, some, [], ◌∷◌, ◌++◌, arith, Option-cases, inl, inr}
use android_streamdeck.Base.Text.{Text}
use android_streamdeck.Base.Dict.{lookup, insert}
use android_streamdeck.Profile.{Profile}
use android_streamdeck.Repository.Store.{
  Row, Revision, Reason, Db, ok, Current, row_of, revision_at, current_profile_row, insert_revision,
  insert_profile, replace_profile,
}

abbrev pub revision_of : Profile → Reason → ℕ → Revision
revision_of wire reason now = record {
  profile_id = wire.id;
  revision = wire.revision;
  snapshot = wire;
  reason = reason;
  created_at = now;
}

-- The tables after a profile's row and its newest revision are written.
abbrev pub written : Profile → Reason → Bool → ℕ → ℕ → Db → Db
written wire reason is_active created_at now db = record {
  profiles = insert wire.id (row_of wire is_active created_at now) db.profiles;
  revisions = db.revisions ++ revision_of wire reason now ∷ [];
}

pub record Inserted (wire : Profile) (reason : Reason) (active : Bool) (now : ℕ) (db db' : Db)
    : Type 0 where
  pub absent : lookup wire.id db.profiles ≡ none
  pub new_revision : revision_at wire.id wire.revision db.revisions ≡ none
  pub tables : db' ≡ written wire reason active now now db

pub insert_profile-ok :
    (wire : Profile) (reason : Reason) (active : Bool) (now : ℕ) (db db' : Db) (u : Unit {0})
    → insert_profile wire reason active now db ≡ ok (u, db')
    → Inserted wire reason active now db db'
unfolding insert_profile insert_revision
insert_profile-ok wire reason active now db db' u h = ground arith

pub record Replaced (wire : Profile) (reason : Reason) (active : Bool) (now : ℕ) (row : Row)
    (db db' : Db) : Type 0 where
  pub new_revision : revision_at wire.id wire.revision db.revisions ≡ none
  pub tables : db' ≡ written wire reason active row.created_at now db

pub replace_profile-ok :
    (wire : Profile) (reason : Reason) (active : Bool) (now : ℕ) (db db' : Db) (u : Unit {0})
    (row : Row)
    → lookup wire.id db.profiles ≡ some row
    → replace_profile wire reason active now db ≡ ok (u, db')
    → Replaced wire reason active now row db db'
unfolding replace_profile insert_revision
replace_profile-ok wire reason active now db db' u row e h = ground arith

-- A row that `_current_profile_row` has read.
pub record IsRead (id : ℕ) (c : Current) (row : Row) (db : Db) : Type 0 where
  pub there : lookup id db.profiles ≡ some row
  pub revision : c.revision ≡ row.revision
  pub active : c.is_active ≡ row.is_active
  pub snapshot : revision_at id row.revision db.revisions ≡ some c.profile

pub current_profile_row-ok :
    (valid_url : Text → Bool) (id : ℕ) (db db' : Db) (c : Current)
    → current_profile_row valid_url id db ≡ ok (c, db')
    → (row : Row) × IsRead id c row db × (db' ≡ db)
unfolding current_profile_row
current_profile_row-ok valid_url id db db' c h = elim (Option-cases (lookup id db.profiles)) [
  | inl e ↦ absurd (ground arith)
  | inr (row, e) ↦ (row, ground arith, ground arith)
]
