-- ===== src/Builtin/Invariant.antt =====
-- The tables' invariant across an installation (server/app/builtin_profiles.py).
use android_streamdeck.Base.{
  ℕ, ◌+◌, ◌≡◌, refl, ap, Bool, not, Option, none, some, arith, leb, Bool-cases, Option-cases, inl,
  inr,
}
use android_streamdeck.Base.Text.{Text}
use android_streamdeck.Base.Dict.{lookup}
use android_streamdeck.Profile.{Profile}
use android_streamdeck.Repository.Store.{
  Row, builtin, builtin_upgrade, Db, Result, ok, err, ◌>>=◌, pure, lift, has_active, revision_at,
  insert_profile, replace_profile, validated_wire,
}
use android_streamdeck.Repository.Store.Inversion.{bind-ok, lift-ok, then_pure-ok}
use android_streamdeck.Repository.Methods.Invariant.Writes.{
  IsValid, insert_profile-IsValid, replace_profile-IsValid,
}
use android_streamdeck.Builtin.{
  builtin_profile_version, Installation, profile_is_active, is_active_row, load_profile,
  builtin_profile_for_version, current_profile_or_none, upgrade_from, upgrade_builtin_profile,
  install_new, install_again, install_body, install_loaded, install_builtin_profiles, committed,
  same_profile_content,
}
use android_streamdeck.Builtin.Guards.{stored_profile, current_or_none-ok}

module _ (valid_url : Text → Bool) (builtin_id : ℕ) (fixture : ℕ → Profile) where
  -- What was loaded is a first revision with the id.
  load_profile-ok :
      (version : ℕ) (p : Profile)
      → load_profile valid_url builtin_id fixture version ≡ ok p
      → (p.id ≡ builtin_id) × (p.revision ≡ 1)
  unfolding load_profile
  load_profile-ok version p h = (ground arith, ground arith)

  stored_profile-cases :
      (id : ℕ) (db : Db) (p : Profile)
      → some p ≡ stored_profile id (lookup id db.profiles) db
      → (row : Row) × (lookup id db.profiles ≡ some row)
        × (revision_at id row.revision db.revisions ≡ some p)
  stored_profile-cases id db p h = elim (Option-cases (lookup id db.profiles)) [
    | inl e ↦ absurd (ground arith)
    | inr (row, e) ↦ (row, e, ground arith)
  ]

  install_new-IsValid :
      (wire : Profile) (now : ℕ) (current result : Option Profile) (db db' : Db)
      → wire.revision ≡ 1
      → IsValid db
      → install_new valid_url builtin_id fixture wire now current db ≡ ok (result, db')
      → IsValid db'
  unfolding install_new
  install_new-IsValid wire now none result db db' first v h =
      insert_profile-IsValid wire builtin now db db' tt v first (
        then_pure-ok (insert_profile wire builtin (not (has_active db.profiles)) now) (some wire)
          result db db' h)
  install_new-IsValid wire now (some p) result db db' first v h =
      let same : db ≡ db' = ground arith in rw (← same) v

  -- The profile that is there is replaced by its next revision.
  replaced-IsValid :
      (wire current : Profile) (now : ℕ) (result : Option Profile) (db db' : Db)
      → wire.id ≡ builtin_id
      → some current ≡ stored_profile builtin_id (lookup builtin_id db.profiles) db
      → IsValid db
      → ((replace_profile
              (record wire { revision = current.revision + 1 })
              builtin_upgrade
              (profile_is_active builtin_id db)
              now)
            >>= λ u.
                lift (validated_wire valid_url (record wire { revision = current.revision + 1 }))
                >>= λ q. pure (some q))
          db
        ≡ ok (result, db')
      → IsValid db'
  replaced-IsValid wire current now result db db' same_id read v h =
      let next = record wire { revision = current.revision + 1 } in
      let (row, there, snapshot) = stored_profile-cases builtin_id db current read in
      let own = v.filed.owned builtin_id row.revision current snapshot in
      let (u, db1, e1, h1) =
        bind-ok (replace_profile next builtin_upgrade (profile_is_active builtin_id db) now) _ db
          db' result h in
      let (q, db2, e2, h2) =
        bind-ok (lift (validated_wire valid_url next)) (λ q. pure (some q)) db1 db' result h1 in
      let (checked, at2) = lift-ok (validated_wire valid_url next) db1 db2 q e2 in
      let same : db1 ≡ db' = ground arith in
      let active : profile_is_active builtin_id db ≡ row.is_active = ap is_active_row there in
      rw (← same) (
        replace_profile-IsValid next builtin_upgrade now row db db1 u v (rw same_id there)
          (ground (arith, own)) (rw (← active) e1))

  upgrade_from-IsValid :
      (wire current : Profile) (now : ℕ) (prior result : Option Profile) (db db' : Db)
      → wire.id ≡ builtin_id
      → some current ≡ stored_profile builtin_id (lookup builtin_id db.profiles) db
      → IsValid db
      → upgrade_from valid_url builtin_id fixture wire now current prior db ≡ ok (result, db')
      → IsValid db'
  unfolding upgrade_from
  upgrade_from-IsValid wire current now none result db db' same_id read v h =
      let same : db ≡ db' = ground arith in rw (← same) v
  upgrade_from-IsValid wire current now (some p) result db db' same_id read v h =
      elim (Bool-cases (same_profile_content current p)) [
        | inl e ↦ replaced-IsValid wire current now result db db' same_id read v (rw e at h)
        | inr e ↦ let same : db ≡ db' = ground arith in rw (← same) v
      ]

  upgrade-IsValid :
      (wire : Profile) (version now : ℕ) (current result : Option Profile) (db db' : Db)
      → wire.id ≡ builtin_id
      → current ≡ stored_profile builtin_id (lookup builtin_id db.profiles) db
      → IsValid db
      → upgrade_builtin_profile valid_url builtin_id fixture wire version now current db
        ≡ ok (result, db')
      → IsValid db'
  unfolding upgrade_builtin_profile
  upgrade-IsValid wire version now none result db db' same_id read v h =
      let same : db ≡ db' = ground arith in rw (← same) v
  upgrade-IsValid wire version now (some current) result db db' same_id read v h =
      let (prior, db1, e1, h1) =
        bind-ok (lift (builtin_profile_for_version valid_url builtin_id fixture version)) _ db db'
          result h in
      let (loaded, at1) =
        lift-ok (builtin_profile_for_version valid_url builtin_id fixture version) db db1 prior
          e1 in
      upgrade_from-IsValid wire current now prior result db db' same_id read v (rw at1 at h1)

  install_again-IsValid :
      (wire : Profile) (version now : ℕ) (current : Option Profile) (r : Option Profile × ℕ)
      (db db' : Db)
      → wire.id ≡ builtin_id
      → current ≡ stored_profile builtin_id (lookup builtin_id db.profiles) db
      → IsValid db
      → install_again valid_url builtin_id fixture wire version now current db ≡ ok (r, db')
      → IsValid db'
  unfolding install_again
  install_again-IsValid wire version now current r db db' same_id read v h =
      elim (Bool-cases (leb builtin_profile_version version)) [
        | inl e ↦ let same : db ≡ db' = ground arith in rw (← same) v
        | inr e ↦
            let (p, db1, e1, h1) =
              bind-ok
                (upgrade_builtin_profile valid_url builtin_id fixture wire version now current)
                (λ upgraded. pure (upgraded, builtin_profile_version)) db db' r (rw e at h) in
            let same : db1 ≡ db' = ground arith in
            rw (← same) (upgrade-IsValid wire version now current p db db1 same_id read v e1)
      ]

  install_body-IsValid :
      (wire : Profile) (now : ℕ) (marker : Option ℕ) (r : Option Profile × ℕ) (db db' : Db)
      → wire.id ≡ builtin_id
      → wire.revision ≡ 1
      → IsValid db
      → install_body valid_url builtin_id fixture wire now marker db ≡ ok (r, db')
      → IsValid db'
  unfolding install_body
  install_body-IsValid wire now none r db db' same_id first v h =
      let (current, db1, e1, h1) =
        bind-ok (current_profile_or_none valid_url builtin_id) _ db db' r h in
      let (is_current, at1) = current_or_none-ok valid_url builtin_id db db1 current e1 in
      let (p, db2, e2, h2) =
        bind-ok (install_new valid_url builtin_id fixture wire now current)
          (λ p. pure (p, builtin_profile_version)) db db' r (rw at1 at h1) in
      let same : db2 ≡ db' = ground arith in
      rw (← same) (install_new-IsValid wire now current p db db2 first v e2)
  install_body-IsValid wire now (some version) r db db' same_id first v h =
      let (current, db1, e1, h1) =
        bind-ok (current_profile_or_none valid_url builtin_id) _ db db' r h in
      let (is_current, at1) = current_or_none-ok valid_url builtin_id db db1 current e1 in
      install_again-IsValid wire version now current r db db' same_id is_current v (rw at1 at h1)

  -- An installation keeps the tables' invariant, whether it returns or raises: one active profile if
  -- there is any, and the revisions 1 up to the current one on record for each profile.
  pub install_builtin_profiles-IsValid :
      (now : ℕ) (s : Installation)
      → IsValid s.db
      → IsValid (install_builtin_profiles valid_url builtin_id fixture now s).1.db
  unfolding install_builtin_profiles
  install_builtin_profiles-IsValid now s v =
      loaded (load_profile valid_url builtin_id fixture builtin_profile_version) refl
    where
      finished :
          (wire : Profile) (r : Result ((Option Profile × ℕ) × Db))
          → wire.id ≡ builtin_id
          → wire.revision ≡ 1
          → install_body valid_url builtin_id fixture wire now s.marker s.db ≡ r
          → IsValid (committed s r).1.db
      finished wire (err e) same_id first h = v
      finished wire (ok ((p, version), db')) same_id first h =
          install_body-IsValid wire now s.marker (p, version) s.db db' same_id first v h

      loaded :
          (l : Result Profile)
          → load_profile valid_url builtin_id fixture builtin_profile_version ≡ l
          → IsValid (install_loaded valid_url builtin_id fixture l now s).1.db
      loaded (err e) h = v
      loaded (ok wire) h =
          let (same_id, first) = load_profile-ok builtin_profile_version wire h in
          finished wire (install_body valid_url builtin_id fixture wire now s.marker s.db) same_id
            first refl
