-- ===== src/Repository/Seed.antt =====
-- `seed_profile` of server/app/repositories/profiles.py: a profile inserted once.
use android_streamdeck.Base.{
  ℕ, ◌≡◌, refl, ◌∙◌, Bool, true, not, Option, none, some, arith, ◌==◌, ==_iff,
}
use android_streamdeck.Base.Text.{Text}
use android_streamdeck.Base.Dict.{lookup, lookup-insert}
use android_streamdeck.Profile.{Profile, valid_profile}
use android_streamdeck.Profile.Equality.{same_profile, same_profile_iff}
use android_streamdeck.Repository.Store.{
  Row, created, conflict, persistence, Db, Tx, Result, ok, ◌>>=◌, ◌>>◌, pure, raise, gets, lift,
  guard, transaction, revision_at, has_active, validated_wire, profile_from_snapshot,
  insert_profile, row_of,
}
use android_streamdeck.Repository.Store.Rows.{revision_at-append}
use android_streamdeck.Repository.Store.Steps.{insert_profile-ok, revision_of}
use android_streamdeck.Repository.Store.Inversion.{
  bind-ok, lift-ok, guard-ok, then_pure-ok, validated_wire-ok,
}
use android_streamdeck.Repository.Methods.Invariant.{transaction-IsValid}
use android_streamdeck.Repository.Methods.Invariant.Writes.{IsValid, insert_profile-IsValid}
use android_streamdeck.Repository.Methods.Locking.{transaction-ok}

module _ (valid_url : Text → Bool) where
  -- `_snapshot_for_revision`, on the snapshot that is read
  abbrev pub stored_snapshot : Option Profile → Tx Profile
  stored_snapshot none = raise persistence
  stored_snapshot (some snapshot) = lift (profile_from_snapshot valid_url snapshot)

  unfoldable pub snapshot_for_revision : ℕ → ℕ → Tx Profile
  snapshot_for_revision id revision = do
    snapshot ← gets (λ db. revision_at id revision db.revisions)
    stored_snapshot snapshot

  -- The branches of `seed_profile` on the row that is there.
  unfoldable pub seed_row : Profile → ℕ → Option Row → Tx Profile
  seed_row wire now none = do
    active ← gets (λ db. not (has_active db.profiles))
    insert_profile wire created active now
    pure wire
  seed_row wire now (some row) = do
    snapshot ← snapshot_for_revision wire.id row.revision
    guard (same_profile snapshot wire) conflict
    pure snapshot

  -- `seed_profile`
  unfoldable pub seed_profile : Profile → ℕ → Db → Result Profile × Db
  seed_profile profile now = transaction do
    wire ← lift (validated_wire valid_url profile)
    guard (wire.revision == 1) conflict
    row ← gets (λ db. lookup wire.id db.profiles)
    seed_row wire now row

  seed_row-IsValid :
      (wire p : Profile) (now : ℕ) (row : Option Row) (db db' : Db)
      → wire.revision ≡ 1
      → IsValid db
      → seed_row wire now row db ≡ ok (p, db')
      → IsValid db'
  unfolding seed_row snapshot_for_revision
  seed_row-IsValid wire p now none db db' first v h =
      insert_profile-IsValid wire created now db db' tt v first (
        then_pure-ok (insert_profile wire created (not (has_active db.profiles)) now) wire p db db'
          h)
  seed_row-IsValid wire p now (some row) db db' first v h =
      let same : db ≡ db' = ground arith in rw (← same) v

  pub seed_profile-IsValid :
      (profile : Profile) (now : ℕ) (db : Db) → IsValid db → IsValid (seed_profile profile now db).1
  unfolding seed_profile
  seed_profile-IsValid profile now db v = transaction-IsValid _ db v λ p db' h.
      let (w, db1, e1, h1) = bind-ok (lift (validated_wire valid_url profile)) _ db db' p h in
      let (_, at1) = lift-ok (validated_wire valid_url profile) db db1 w e1 in
      let (_, db2, e2, h2) = bind-ok (guard (w.revision == 1) conflict) _ db1 db' p h1 in
      let (first, at2) = guard-ok (w.revision == 1) conflict db1 db2 tt e2 in
      seed_row-IsValid w p now (lookup w.id db.profiles) db db' ((==_iff w.revision 1).0 first) v
        (rw (at2 ∙ at1) at h2)

  same_profile_refl : (p : Profile) → same_profile p p ≡ true
  same_profile_refl p = (same_profile_iff p p).1 refl

  -- A profile that is stored with this content is returned, and nothing is written.
  seed_stored :
      (w : Profile) (now : ℕ) (row : Row) (db : Db)
      → lookup w.id db.profiles ≡ some row
      → revision_at w.id row.revision db.revisions ≡ some w
      → valid_profile valid_url w ≡ true
      → w.revision ≡ 1
      → seed_profile w now db ≡ (ok w, db)
  unfolding seed_profile transaction seed_row snapshot_for_revision
  seed_stored w now row db there snap passed first =
      ground (arith, there, snap, passed, first, same_profile_refl w)

  -- What a seed that returns has left: the profile is stored with the content that was given.
  record IsSeeded (w p : Profile) (db' : Db) : Type 0 where
    returned : p ≡ w
    row : Row
    there : lookup w.id db'.profiles ≡ some row
    snapshot : revision_at w.id row.revision db'.revisions ≡ some w

  seed_row-IsSeeded :
      (w p : Profile) (now : ℕ) (row : Option Row) (db db' : Db)
      → lookup w.id db.profiles ≡ row
      → w.revision ≡ 1
      → seed_row w now row db ≡ ok (p, db')
      → IsSeeded w p db'
  unfolding seed_row snapshot_for_revision
  seed_row-IsSeeded w p now none db db' e first h =
      let active = not (has_active db.profiles) in
      let i =
        insert_profile-ok w created active now db db' tt
          (then_pure-ok (insert_profile w created active now) w p db db' h) in
      let row = row_of w active now now in
      record {
        returned = ground arith;
        row = row;
        there = rw (i.tables) (ground (arith, lookup-insert w.id w.id row db.profiles));
        snapshot = rw (i.tables) (
            ground (
              arith,
              i.new_revision,
              revision_at-append w.id w.revision db.revisions (revision_of w created now),
            ));
      }
  seed_row-IsSeeded w p now (some row) db db' e first h =
      let (q, db1, e1, h1) = bind-ok (snapshot_for_revision w.id row.revision) _ db db' p h in
      let (_, db2, e2, h2) = bind-ok (guard (same_profile q w) conflict) _ db1 db' p h1 in
      let (equal, at2) = guard-ok (same_profile q w) conflict db1 db2 tt e2 in
      let is_wire = (same_profile_iff q w).0 equal in
      let kept : db ≡ db' = ground arith in
      record {
        returned = ground (arith, is_wire, h2);
        row = row;
        there = rw (← kept) e;
        snapshot = rw (← kept) (ground (arith, is_wire, e1));
      }

  accepted : (p q : Profile) → validated_wire valid_url p ≡ ok q → valid_profile valid_url q ≡ true
  accepted p q h = ground arith

  same_seed :
      {profile w p : Profile} {db : Db} (later : ℕ)
      → w ≡ profile
      → p ≡ w
      → seed_profile w later db ≡ (ok w, db)
      → seed_profile profile later db ≡ (ok p, db)
  same_seed later e f h = cc

  -- A seed that has returned a profile, made again on the tables that it left, returns the same profile
  -- and changes nothing.
  pub seed_again :
      (profile p : Profile) (now later : ℕ) (db db' : Db)
      → seed_profile profile now db ≡ (ok p, db')
      → seed_profile profile later db' ≡ (ok p, db')
  unfolding seed_profile
  seed_again profile p now later db db' run =
      let h = transaction-ok _ db db' p run in
      let (w, db1, e1, h1) = bind-ok (lift (validated_wire valid_url profile)) _ db db' p h in
      let (checked, at1) = lift-ok (validated_wire valid_url profile) db db1 w e1 in
      let (_, db2, e2, h2) = bind-ok (guard (w.revision == 1) conflict) _ db1 db' p h1 in
      let (first, at2) = guard-ok (w.revision == 1) conflict db1 db2 tt e2 in
      let s =
        seed_row-IsSeeded w p now (lookup w.id db.profiles) db db' refl
          ((==_iff w.revision 1).0 first) (rw (at2 ∙ at1) at h2) in
      same_seed later (validated_wire-ok valid_url profile w checked) s.returned (
        seed_stored w later s.row db' s.there s.snapshot (accepted profile w checked)
          ((==_iff w.revision 1).0 first))
