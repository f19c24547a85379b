-- ===== src/Repository/Reads.antt =====
-- The lists that `ProfileRepository` reads: `list_profiles` and `list_audit`.
-- `before` is SQLite's order of the texts that profile ids are.
use android_streamdeck.Base.{
  ℕ, ◌≤◌, ◌≡◌, Bool, true, false, not, ◌&&◌, Option, none, some, List, [], ◌∷◌, map, keep, length,
  All, leb, ◌==◌, is_none, if◌then◌else◌, arith,
}
use android_streamdeck.Base.Text.{Text}
use android_streamdeck.Base.Dict.{Dict, lookup}
use android_streamdeck.Base.Sort.{
  sort_by, take, IsAscending, sort_by-IsAscending, take-IsAscending, length-take, All-take,
  All-sort_by,
}
use android_streamdeck.Profile.{Profile}
use android_streamdeck.Repository.Store.{
  Row, Revision, Reason, Db, Result, ok, err, persistence, not_found, revision_at,
  profile_from_snapshot,
}

-- a row of the join of `list_profiles`
pub record Listed : Type 0 where
  pub id : ℕ
  pub is_active : Bool
  pub snapshot : Profile

-- `ORDER BY p.is_active DESC, p.id ASC`
abbrev pub listed_before : (ℕ → ℕ → Bool) → Listed → Listed → Bool
listed_before before a b =
    if a.is_active
    then (if b.is_active then before a.id b.id else true)
    else if b.is_active
    then false
    else before a.id b.id

abbrev pub join_row : ℕ → Row → Option Profile → List Listed → List Listed
join_row id row none rest = rest
join_row id row (some snapshot) rest =
    record { id = id; is_active = row.is_active; snapshot = snapshot } ∷ rest

-- the join of `list_profiles`
unfoldable pub join_rows : Dict Row → List Revision → List Listed
join_rows [] rs = []
join_rows ((id, row) ∷ d) rs = join_row id row (revision_at id row.revision rs) (join_rows d rs)

abbrev pub add_profile : Result Profile → Result (List Profile) → Result (List Profile)
add_profile (err e) rest = err e
add_profile (ok p) (err e) = err e
add_profile (ok p) (ok ps) = ok (p ∷ ps)

module _ (valid_url : Text → Bool) where
  abbrev pub snapshots_of : List Listed → Result (List Profile)
  snapshots_of [] = ok []
  snapshots_of (x ∷ xs) = add_profile (profile_from_snapshot valid_url x.snapshot) (snapshots_of xs)

  -- `list_profiles`
  unfoldable pub list_profiles : (ℕ → ℕ → Bool) → Db → Result (List Profile)
  list_profiles before db =
      snapshots_of (sort_by (listed_before before) (join_rows db.profiles db.revisions))

-- an entry of `list_audit`
pub record Entry : Type 0 where
  pub revision : ℕ
  pub reason : Reason
  pub created_at : ℕ

abbrev pub entry_of : Revision → Entry
entry_of r = record { revision = r.revision; reason = r.reason; created_at = r.created_at }

-- `ORDER BY revision ASC`
abbrev pub earlier : Revision → Revision → Bool
earlier a b = leb a.revision b.revision

abbrev pub audit_rows : ℕ → ℕ → Db → List Revision
audit_rows profile_id limit db =
    take limit (sort_by earlier (keep (λ r. r.profile_id == profile_id) db.revisions))

-- `list_audit`
unfoldable pub list_audit : ℕ → ℕ → Db → Result (List Entry)
list_audit profile_id limit db =
    if not (leb 1 limit && leb limit 100)
    then err persistence
    else if is_none (lookup profile_id db.profiles)
    then err not_found
    else ok (map entry_of (audit_rows profile_id limit db))

abbrev OfProfile : ℕ → Revision → Type 0
OfProfile id r = r.profile_id ≡ id

kept-OfProfile :
    (id : ℕ) (rs : List Revision) → All (OfProfile id) (keep (λ r. r.profile_id == id) rs)
kept-OfProfile id [] = tt
kept-OfProfile id (r ∷ rs) = let rest = kept-OfProfile id rs in ground (arith, rest)

-- The rows that `list_audit` reports: at most as many as the limit, by ascending revision, and all of
-- them of that profile.
pub audit_rows-sorted :
    (profile_id limit : ℕ) (db : Db)
    → (length (audit_rows profile_id limit db) ≤ limit)
      × IsAscending earlier (audit_rows profile_id limit db)
      × All (OfProfile profile_id) (audit_rows profile_id limit db)
audit_rows-sorted profile_id limit db =
    let rows = keep (λ (r : Revision). r.profile_id == profile_id) db.revisions in
    (
      length-take limit (sort_by earlier rows),
      take-IsAscending earlier limit (sort_by earlier rows)
          (sort_by-IsAscending earlier rows (λ a b h. ground arith)),
      All-take (OfProfile profile_id) limit (sort_by earlier rows) (
          All-sort_by (OfProfile profile_id) earlier rows (kept-OfProfile profile_id db.revisions)),
    )
