-- ===== src/Builtin/Guards.antt =====
-- When an installation (server/app/builtin_profiles.py) writes the profile tables, and when it does not.
use android_streamdeck.Base.{
  ℕ, ◌≤◌, ◌≡◌, ◌⊎◌, ◌∙◌, refl, Bool, true, false, not, ◌&&◌, Option, none, some, arith, leb,
  is_none, Bool-cases, Option-cases, inl, inr,
}
use android_streamdeck.Base.Text.{Text}
use android_streamdeck.Base.Dict.{lookup}
use android_streamdeck.Profile.{Profile}
use android_streamdeck.Repository.Store.{Row, Db, Result, ok, err, pure, lift, revision_at}
use android_streamdeck.Repository.Store.Inversion.{bind-ok, lift-ok}
use android_streamdeck.Builtin.{
  builtin_profile_version, Installation, same_profile_content, load_profile,
  builtin_profile_for_version, current_profile_or_none, upgrade_from, upgrade_builtin_profile,
  install_new, install_again, install_body, install_loaded, install_builtin_profiles, committed,
}

-- Whether the profile that is there is, but for its revision, the one that a version installed.
abbrev pub is_untouched : (ℕ → Profile) → ℕ → Option Profile → Bool
is_untouched fixture version none = false
is_untouched fixture version (some p) = same_profile_content p (fixture version)

abbrev pub stored_profile : ℕ → Option Row → Db → Option Profile
stored_profile id none db = none
stored_profile id (some row) db = revision_at id row.revision db.revisions

-- Whether the tables are the server's to write: nothing was ever installed and the id is free, or an
-- older version is installed and still as it was.
abbrev pub may_write : ℕ → (ℕ → Profile) → Option ℕ → Option Profile → Bool
may_write id fixture none current = is_none current
may_write id fixture (some version) current =
    not (leb builtin_profile_version version) && is_untouched fixture version current

module _ (valid_url : Text → Bool) where
  pub current_or_none-ok :
      (id : ℕ) (db db' : Db) (o : Option Profile)
      → current_profile_or_none valid_url id db ≡ ok (o, db')
      → (o ≡ stored_profile id (lookup id db.profiles) db) × (db' ≡ db)
  unfolding current_profile_or_none
  current_or_none-ok id db db' o h = elim (Option-cases (lookup id db.profiles)) [
    | inl e ↦ (ground arith, ground arith)
    | inr (row, e) ↦ elim (Option-cases (revision_at id row.revision db.revisions)) [
      | inl k ↦ (ground arith, ground arith)
      | inr (p, k) ↦ (ground arith, ground arith)
    ]
  ]

module _ (valid_url : Text → Bool) (builtin_id : ℕ) (fixture : ℕ → Profile) where
  prior-ok :
      (version : ℕ) (o : Option Profile)
      → builtin_profile_for_version valid_url builtin_id fixture version ≡ ok o
      → (o ≡ none) ⊎ (o ≡ some (fixture version))
  unfolding builtin_profile_for_version load_profile
  prior-ok version none h = inl refl
  prior-ok version (some p) h = inr (ground arith)

  upgrade_from-ok :
      (wire current : Profile) (now : ℕ) (prior result : Option Profile) (db db' : Db)
      → upgrade_from valid_url builtin_id fixture wire now current prior db ≡ ok (result, db')
      → (db' ≡ db) ⊎ ((p : Profile) × (prior ≡ some p) × (same_profile_content current p ≡ true))
  unfolding upgrade_from
  upgrade_from-ok wire current now none result db db' h = inl (ground arith)
  upgrade_from-ok wire current now (some p) result db db' h =
      elim (Bool-cases (same_profile_content current p)) [
        | inl e ↦ inr (p, refl, e)
        | inr e ↦ inl (ground arith)
      ]

  upgrade-quiet :
      (wire : Profile) (version now : ℕ) (current result : Option Profile) (db db' : Db)
      → is_untouched fixture version current ≡ false
      → upgrade_builtin_profile valid_url builtin_id fixture wire version now current db
        ≡ ok (result, db')
      → db' ≡ db
  unfolding upgrade_builtin_profile
  upgrade-quiet wire version now none result db db' edited h = ground arith
  upgrade-quiet wire version now (some current) result db db' edited h =
      let (prior, db1, e1, h1) =
        bind-ok (lift (builtin_profile_for_version valid_url builtin_id fixture version)) _ db db'
          result h in
      let (loaded, at1) =
        lift-ok (builtin_profile_for_version valid_url builtin_id fixture version) db db1 prior
          e1 in
      elim (upgrade_from-ok wire current now prior result db1 db' h1) [
        | inl same ↦ same ∙ at1
        | inr (p, is_some, equal) ↦ ground (arith, prior-ok version prior loaded)
      ]

  install_again-quiet :
      (wire : Profile) (version now : ℕ) (current : Option Profile) (r : Option Profile × ℕ)
      (db db' : Db)
      → may_write builtin_id fixture (some version) current ≡ false
      → install_again valid_url builtin_id fixture wire version now current db ≡ ok (r, db')
      → db' ≡ db
  unfolding install_again
  install_again-quiet wire version now current r db db' kept h =
      elim (Bool-cases (leb builtin_profile_version version)) [
        | inl e ↦ ground arith
        | inr e ↦
            let (p, db1, e1, h1) =
              bind-ok
                (upgrade_builtin_profile valid_url builtin_id fixture wire version now current)
                (λ upgraded. pure (upgraded, builtin_profile_version)) db db' r (rw e at h) in
            let quiet = upgrade-quiet wire version now current p db db1 (ground arith) e1 in
            ground (arith, quiet)
      ]

  install_body-quiet :
      (wire : Profile) (now : ℕ) (marker : Option ℕ) (r : Option Profile × ℕ) (db db' : Db)
      → may_write builtin_id fixture marker
          (stored_profile builtin_id (lookup builtin_id db.profiles) db)
        ≡ false
      → install_body valid_url builtin_id fixture wire now marker db ≡ ok (r, db')
      → db' ≡ db
  unfolding install_body install_new
  install_body-quiet wire now none r db db' kept h =
      let (current, db1, e1, h1) =
        bind-ok (current_profile_or_none valid_url builtin_id) _ db db' r h in
      let (is_current, at1) = current_or_none-ok valid_url builtin_id db db1 current e1 in
      ground arith
  install_body-quiet wire now (some version) r db db' kept h =
      let (current, db1, e1, h1) =
        bind-ok (current_profile_or_none valid_url builtin_id) _ db db' r h in
      let (is_current, at1) = current_or_none-ok valid_url builtin_id db db1 current e1 in
      let quiet = install_again-quiet wire version now current r db1 db' (rw is_current kept) h1 in
      quiet ∙ at1

  -- An installation leaves the profile tables as they are, whatever it returns, when an older start has
  -- left its marker and the profile was deleted since, or its content is not what that start installed,
  -- or the marker is of the current version or a later one; and when there is no marker but a profile
  -- with the id.
  pub users_profile_stays :
      (now : ℕ) (s : Installation)
      → may_write builtin_id fixture s.marker
          (stored_profile builtin_id (lookup builtin_id s.db.profiles) s.db)
        ≡ false
      → (install_builtin_profiles valid_url builtin_id fixture now s).1.db ≡ s.db
  unfolding install_builtin_profiles
  users_profile_stays now s kept =
      loaded (load_profile valid_url builtin_id fixture builtin_profile_version)
    where
      finished :
          (wire : Profile) (r : Result ((Option Profile × ℕ) × Db))
          → install_body valid_url builtin_id fixture wire now s.marker s.db ≡ r
          → (committed s r).1.db ≡ s.db
      finished wire (err e) h = refl
      finished wire (ok ((p, version), db')) h =
          install_body-quiet wire now s.marker (p, version) s.db db' kept h

      loaded :
          (l : Result Profile) → (install_loaded valid_url builtin_id fixture l now s).1.db ≡ s.db
      loaded (err e) = refl
      loaded (ok wire) =
          finished wire (install_body valid_url builtin_id fixture wire now s.marker s.db) refl

  install_body-marked :
      (wire : Profile) (now : ℕ) (marker : Option ℕ) (r : Option Profile × ℕ) (db db' : Db)
      → install_body valid_url builtin_id fixture wire now marker db ≡ ok (r, db')
      → builtin_profile_version ≤ r.1
  unfolding install_body install_again
  install_body-marked wire now none r db db' h =
      let (current, db1, e1, h1) =
        bind-ok (current_profile_or_none valid_url builtin_id) _ db db' r h in
      let (p, db2, e2, h2) =
        bind-ok (install_new valid_url builtin_id fixture wire now current)
          (λ p. pure (p, builtin_profile_version)) db1 db' r h1 in
      ground arith
  install_body-marked wire now (some version) r db db' h =
      let (current, db1, e1, h1) =
        bind-ok (current_profile_or_none valid_url builtin_id) _ db db' r h in
      elim (Bool-cases (leb builtin_profile_version version)) [
        | inl e ↦ ground arith
        | inr e ↦
            let (p, db2, e2, h2) =
              bind-ok
                (upgrade_builtin_profile valid_url builtin_id fixture wire version now current)
                (λ upgraded. pure (upgraded, builtin_profile_version)) db1 db' r (rw e at h1) in
            ground arith
      ]

  current_marker :
      (wire : Profile) (now version : ℕ) (r : Option Profile × ℕ) (db db' : Db)
      → builtin_profile_version ≤ version
      → install_body valid_url builtin_id fixture wire now (some version) db ≡ ok (r, db')
      → (r.1 ≡ version) × (db' ≡ db)
  unfolding install_body install_again
  current_marker wire now version r db db' newer h =
      let (current, db1, e1, h1) =
        bind-ok (current_profile_or_none valid_url builtin_id) _ db db' r h in
      let (is_current, at1) = current_or_none-ok valid_url builtin_id db db1 current e1 in
      (ground arith, ground arith)

  marked-quiet :
      (later version : ℕ) (s : Installation)
      → builtin_profile_version ≤ version
      → s.marker ≡ some version
      → (install_builtin_profiles valid_url builtin_id fixture later s).1 ≡ s
  unfolding install_builtin_profiles
  marked-quiet later version s newer marked =
      loaded (load_profile valid_url builtin_id fixture builtin_profile_version)
    where
      finished :
          (wire : Profile) (r : Result ((Option Profile × ℕ) × Db))
          → install_body valid_url builtin_id fixture wire later s.marker s.db ≡ r
          → (committed s r).1 ≡ s
      finished wire (err e) h = refl
      finished wire (ok ((p, v), db')) h =
          let (same, kept) =
            current_marker wire later version (p, v) s.db db' newer (rw marked at h) in
          cc (same, kept, marked)

      loaded : (l : Result Profile) → (install_loaded valid_url builtin_id fixture l later s).1 ≡ s
      loaded (err e) = refl
      loaded (ok wire) =
          finished wire (install_body valid_url builtin_id fixture wire later s.marker s.db) refl

  -- Every installation after one that has returned leaves the tables and the marker as they are.
  pub installed_once :
      (now later : ℕ) (s s' : Installation) (p : Option Profile)
      → install_builtin_profiles valid_url builtin_id fixture now s ≡ (ok p, s')
      → (install_builtin_profiles valid_url builtin_id fixture later s').1 ≡ s'
  unfolding install_builtin_profiles
  installed_once now later s s' p h =
      loaded (load_profile valid_url builtin_id fixture builtin_profile_version) h
    where
      finished :
          (wire : Profile) (r : Result ((Option Profile × ℕ) × Db))
          → install_body valid_url builtin_id fixture wire now s.marker s.db ≡ r
          → committed s r ≡ (ok p, s')
          → (install_builtin_profiles valid_url builtin_id fixture later s').1 ≡ s'
      finished wire (err e) h k = cc
      finished wire (ok ((q, v), db')) h k =
          marked-quiet later v s' (install_body-marked wire now s.marker (q, v) s.db db' h)
            (ground arith)

      loaded :
          (l : Result Profile)
          → install_loaded valid_url builtin_id fixture l now s ≡ (ok p, s')
          → (install_builtin_profiles valid_url builtin_id fixture later s').1 ≡ s'
      loaded (err e) k = cc
      loaded (ok wire) k =
          finished wire (install_body valid_url builtin_id fixture wire now s.marker s.db) refl k
