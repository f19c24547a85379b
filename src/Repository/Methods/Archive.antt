-- ===== src/Repository/Methods/Archive.antt =====
-- The revisions on record across the methods of server/app/repositories/profiles.py: what is stored
-- stays as it is, until its profile is deleted.
use android_streamdeck.Base.{
  ℕ, ◌+◌, ◌≡◌, ◌≢◌, refl, Bool, true, false, not, Option, none, some, List, [], ◌∷◌, arith, All,
  is_none, is_value, length, leb, ◌==◌, if◌then◌else◌, Bool-cases, Option-cases, inl, inr,
}
use android_streamdeck.Base.Text.{Text}
use android_streamdeck.Base.Dict.{lookup}
use android_streamdeck.Profile.{Page, Profile, valid_page}
use android_streamdeck.Repository.Store.{
  Row, Reason, Error, created, updated, activated, conflict, protected, validated_wire, Db, Tx,
  Result, ok, err, ◌>>=◌, ◌>>◌, pure, gets, modify, lift, guard, transaction, revision_at,
  has_active, deactivate_all, Current, check_expected_revision, current_profile_row, insert_profile,
  replace_profile, delete_row,
}
use android_streamdeck.Repository.Store.Rows.{revision_at-append, revision_at-keep}
use android_streamdeck.Repository.Store.Steps.{
  revision_of, insert_profile-ok, replace_profile-ok, current_profile_row-ok,
}
use android_streamdeck.Repository.Store.Inversion.{
  bind-ok, lift-ok, guard-ok, check_expected_revision-ok,
}
use android_streamdeck.Repository.Methods.{
  named, save_row, create_body, create_profile, duplicate_profile, mutate_profile, rename_profile,
  create_page, rename_page, reorder_page, delete_page, activate_body, activate_profile,
  replacement_row, promote, delete_body, delete_profile, save_profile, set_active_row,
  set_active_profile,
}
use android_streamdeck.Repository.Pages.{insert_page, rename_in, reorder_in, delete_in}
use android_streamdeck.Repository.Methods.Runs.{
  Write, create, duplicate, rename, activate, delete, add_page, retitle_page, move_page,
  remove_page, save, select, perform, perform_all,
}

module _ (id : ℕ) where
  -- Every snapshot on record of the profile is on record afterwards.
  abbrev pub Grows : Db → Db → Type 0
  Grows db db' =
      (rev : ℕ) (p : Profile)
      → revision_at id rev db.revisions ≡ some p
      → revision_at id rev db'.revisions ≡ some p

  abbrev Archives : {A : Type 0} → Tx A → Type 0
  Archives {A} m = (db db' : Db) (a : A) → m db ≡ ok (a, db') → Grows db db'

  same-Grows : (db db' : Db) → db' ≡ db → Grows db db'
  same-Grows db db' e rev p h = rw e h

  bind-Archives :
      {A B : Type 0} (m : Tx A) (f : A → Tx B)
      → Archives m
      → ((a : A) → Archives (f a))
      → Archives (m >>= f)
  bind-Archives m f km kf db db' b h rev p r =
      let (a, db1, e, k) = bind-ok m f db db' b h in kf a db1 db' b k rev p (km db db1 a e rev p r)

  lift-Archives : {A : Type 0} (r : Result A) → Archives (lift r)
  lift-Archives r db db' a h = same-Grows db db' (lift-ok r db db' a h).1

  guard-Archives : (b : Bool) (e : Error) → Archives (guard b e)
  guard-Archives b e db db' a h = same-Grows db db' (guard-ok b e db db' a h).1

  check-Archives : (rev : ℕ) (expected : Option ℕ) → Archives (check_expected_revision rev expected)
  check-Archives rev expected db db' u h =
      same-Grows db db' (check_expected_revision-ok rev expected db db' u h).1

  gets-Archives : {A : Type 0} (f : Db → A) → Archives (gets f)
  gets-Archives f db db' a h = same-Grows db db' (ground arith)

  pure-Archives : {A : Type 0} (a : A) → Archives (pure a)
  pure-Archives a db db' b h = same-Grows db db' (ground arith)

  current-Archives : (valid_url : Text → Bool) (i : ℕ) → Archives (current_profile_row valid_url i)
  current-Archives valid_url i db db' c h =
      let (row, read, at) = current_profile_row-ok valid_url i db db' c h in same-Grows db db' at

  either :
      {A : Type 0} (b : Bool) (m k : Tx A) → Archives m → Archives k → Archives (if b then m else k)
  either true m k hm hk = hm
  either false m k hm hk = hk

  insert_profile-Archives :
      (wire : Profile) (reason : Reason) (active : Bool) (now : ℕ)
      → Archives (insert_profile wire reason active now)
  insert_profile-Archives wire reason active now db db' u h rev p r =
      let i = insert_profile-ok wire reason active now db db' u h in
      rw (i.tables)
        (ground (arith, r, revision_at-append id rev db.revisions (revision_of wire reason now)))

  replace_there-Archives :
      (wire : Profile) (reason : Reason) (active : Bool) (now : ℕ) (row : Row) (db db' : Db)
      (u : Unit {0})
      → lookup wire.id db.profiles ≡ some row
      → replace_profile wire reason active now db ≡ ok (u, db')
      → Grows db db'
  replace_there-Archives wire reason active now row db db' u there h rev p r =
      let i = replace_profile-ok wire reason active now db db' u row there h in
      rw (i.tables)
        (ground (arith, r, revision_at-append id rev db.revisions (revision_of wire reason now)))

  replace_absent :
      (wire : Profile) (reason : Reason) (active : Bool) (now : ℕ) (db db' : Db) (u : Unit {0})
      → lookup wire.id db.profiles ≡ none
      → replace_profile wire reason active now db ≢ ok (u, db')
  unfolding replace_profile
  replace_absent wire reason active now db db' u absent h = ground arith

  replace_profile-Archives :
      (wire : Profile) (reason : Reason) (active : Bool) (now : ℕ)
      → Archives (replace_profile wire reason active now)
  replace_profile-Archives wire reason active now db db' u h =
      elim (Option-cases (lookup wire.id db.profiles)) [
        | inl absent ↦ absurd (replace_absent wire reason active now db db' u absent h)
        | inr (row, there) ↦ replace_there-Archives wire reason active now row db db' u there h
      ]

  -- The transaction's error leaves the tables.
  transaction-Grows : {A : Type 0} (m : Tx A) (db : Db) → Archives m → Grows db (transaction m db).1
  unfolding transaction
  transaction-Grows {A} m db k = go (m db) refl
    where
      go : (r : Result (A × Db)) → m db ≡ r → Grows db (transaction m db).1
      go (ok (a, db')) e = rw e (k db db' a e)
      go (err x) e = rw e (λ rev p h. h)

  module _ (valid_url : Text → Bool) where
    insert_then :
        {A : Type 0} (wire : Profile) (reason : Reason) (active : Bool) (now : ℕ) (a : A)
        → Archives (insert_profile wire reason active now >> pure a)
    insert_then wire reason active now a =
        bind-Archives _ _ (insert_profile-Archives wire reason active now) λ u. pure-Archives a

    replace_then :
        {A : Type 0} (wire : Profile) (reason : Reason) (active : Bool) (now : ℕ) (a : A)
        → Archives (replace_profile wire reason active now >> pure a)
    replace_then wire reason active now a =
        bind-Archives _ _ (replace_profile-Archives wire reason active now) λ u. pure-Archives a

    deactivate-Archives :
        Archives (modify (λ db. record db { profiles = deactivate_all db.profiles }))
    deactivate-Archives db db' u h rev p r = ground arith

    create_profile-Grows :
        (wire : Profile) (now : ℕ) (db : Db) → Grows db (create_profile valid_url wire now db).1
    unfolding create_profile create_body
    create_profile-Grows wire now db = transaction-Grows _ db (
        bind-Archives (lift (validated_wire valid_url wire)) _ (lift-Archives _) λ (w : Profile).
          bind-Archives (guard (w.revision == 1) conflict) _ (guard-Archives _ _) λ u.
            bind-Archives (gets (λ d. is_none (lookup w.id d.profiles))) _ (gets-Archives _) λ free.
              bind-Archives (guard free conflict) _ (guard-Archives _ _) λ u.
                bind-Archives (gets (λ d. not (has_active d.profiles))) _ (gets-Archives _)
                  λ active. insert_then w created active now w)

    duplicate_profile-Grows :
        (source new : ℕ) (expected : Option ℕ) (name : Option Text) (now : ℕ) (db : Db)
        → Grows db (duplicate_profile valid_url source new expected name now db).1
    unfolding duplicate_profile
    duplicate_profile-Grows source new expected name now db = transaction-Grows _ db (
        bind-Archives (current_profile_row valid_url source) _ (current-Archives valid_url source)
          λ (c : Current).
            bind-Archives (check_expected_revision c.revision expected) _
              (check-Archives c.revision expected)
              λ u.
                bind-Archives (gets (λ d. is_none (lookup new d.profiles))) _ (gets-Archives _)
                  λ free. bind-Archives (guard free conflict) _ (guard-Archives _ _) λ u.
                    bind-Archives
                      (lift (
                        validated_wire valid_url
                          (named name (record (c.profile) { id = new; revision = 1 }))))
                      _ (lift-Archives _)
                      λ (w : Profile).
                        bind-Archives (gets (λ d. not (has_active d.profiles))) _ (gets-Archives _)
                          λ active. insert_then w created active now w)

    mutate_profile-Grows :
        (i expected : ℕ) (reason : Reason) (mutate : Profile → Result Profile) (now : ℕ) (db : Db)
        → Grows db (mutate_profile valid_url i expected reason mutate now db).1
    unfolding mutate_profile
    mutate_profile-Grows i expected reason mutate now db = transaction-Grows _ db (
        bind-Archives (current_profile_row valid_url i) _ (current-Archives valid_url i)
          λ (c : Current).
            bind-Archives (check_expected_revision c.revision (some expected)) _
              (check-Archives c.revision (some expected))
              λ u.
                bind-Archives (lift (mutate c.profile)) _ (lift-Archives (mutate c.profile))
                  λ (w : Profile).
                    bind-Archives
                      (lift (validated_wire valid_url (record w { revision = c.revision + 1 }))) _
                      (lift-Archives _) λ (q : Profile). replace_then q reason c.is_active now q)

    activate_body-Archives : (c : Current) (now : ℕ) → Archives (activate_body valid_url c now)
    unfolding activate_body
    activate_body-Archives c now =
        bind-Archives
          (lift (validated_wire valid_url (record (c.profile) { revision = c.revision + 1 }))) _
          (lift-Archives _)
          λ (q : Profile).
            bind-Archives (modify (λ d. record d { profiles = deactivate_all d.profiles })) _
              deactivate-Archives λ u. replace_then q activated true now q

    activate_profile-Grows :
        (i expected now : ℕ) (db : Db) → Grows db (activate_profile valid_url i expected now db).1
    unfolding activate_profile
    activate_profile-Grows i expected now db = transaction-Grows _ db (
        bind-Archives (current_profile_row valid_url i) _ (current-Archives valid_url i)
          λ (c : Current).
            bind-Archives (check_expected_revision c.revision (some expected)) _
              (check-Archives c.revision (some expected))
              λ u.
                either c.is_active (pure c.profile) (activate_body valid_url c now)
                  (pure-Archives c.profile) (activate_body-Archives c now))

    create_page-Grows :
        (i : ℕ) (page : Page) (expected now : ℕ) (db : Db)
        → Grows db (create_page valid_url i page expected now db).1
    unfolding create_page
    create_page-Grows i page expected now db = elim (Bool-cases (valid_page valid_url page)) [
      | inl e ↦ rw e (mutate_profile-Grows i expected updated (insert_page valid_url page) now db)
      | inr e ↦ rw e (λ rev p h. h)
    ]

    save_row-Archives :
        (wire : Profile) (expected : Option ℕ) (reason : Reason) (now : ℕ) (row : Option Row)
        → Archives (save_row wire expected reason now row)
    unfolding save_row
    save_row-Archives wire expected reason now none =
        bind-Archives (guard (is_none expected) conflict) _ (guard-Archives _ _) λ u.
          bind-Archives (guard (wire.revision == 1) conflict) _ (guard-Archives _ _) λ u.
            bind-Archives (gets (λ d. not (has_active d.profiles))) _ (gets-Archives _)
              λ active. insert_profile-Archives wire reason active now
    save_row-Archives wire expected reason now (some row) =
        bind-Archives (check_expected_revision row.revision expected) _
          (check-Archives row.revision expected)
          λ u.
            bind-Archives (guard (wire.revision == row.revision + 1) conflict) _
              (guard-Archives _ _) λ u. replace_profile-Archives wire reason row.is_active now

    save_profile-Grows :
        (profile : Profile) (expected : Option ℕ) (reason : Reason) (now : ℕ) (db : Db)
        → Grows db (save_profile valid_url profile expected reason now db).1
    unfolding save_profile
    save_profile-Grows profile expected reason now db = transaction-Grows _ db (
        bind-Archives (lift (validated_wire valid_url profile)) _ (lift-Archives _) λ (w : Profile).
          bind-Archives (gets (λ d. lookup w.id d.profiles)) _ (gets-Archives _)
            λ (row : Option Row).
              bind-Archives (save_row w expected reason now row) _
                (save_row-Archives w expected reason now row) λ u. pure-Archives w)

    set_active_row-Archives : (i : ℕ) (row : Option Row) → Archives (set_active_row i row)
    unfolding set_active_row
    set_active_row-Archives i none db db' u h rev p r = absurd (ground arith)
    set_active_row-Archives i (some row) db db' u h rev p r = ground arith

    set_active_profile-Grows : (i : ℕ) (db : Db) → Grows db (set_active_profile i db).1
    unfolding set_active_profile
    set_active_profile-Grows i db = transaction-Grows _ db (
        bind-Archives (gets (λ d. lookup i d.profiles)) _ (gets-Archives _)
          λ (row : Option Row). set_active_row-Archives i row)

    replacement_row-Archives : (o : Option ℕ) → Archives (replacement_row valid_url o)
    unfolding replacement_row
    replacement_row-Archives none = pure-Archives none
    replacement_row-Archives (some i) =
        bind-Archives (current_profile_row valid_url i) _ (current-Archives valid_url i)
          λ (c : Current). pure-Archives (some c)

    promote-Archives : (o : Option Current) (now : ℕ) → Archives (promote valid_url o now)
    unfolding promote
    promote-Archives none now db db' u h rev p r = absurd (ground arith)
    promote-Archives (some c) now db db' u h rev p r =
        bind-Archives (modify (λ d. record d { profiles = deactivate_all d.profiles })) _
          deactivate-Archives
          (λ u.
            bind-Archives
              (lift (validated_wire valid_url (record (c.profile) { revision = c.revision + 1 }))) _
              (lift-Archives _) λ (q : Profile). replace_profile-Archives q updated true now)
          db db' u h rev p r

    delete_row-Archives : (i : ℕ) → (i == id) ≡ false → Archives (modify (delete_row i))
    unfolding delete_row
    delete_row-Archives i other db db' u h rev p r =
        ground (arith, r, revision_at-keep id rev i db.revisions)

    delete_body-Archives :
        (i expected : ℕ) (o : Option ℕ) (now : ℕ)
        → (i == id) ≡ false
        → Archives (delete_body valid_url i expected o now)
    unfolding delete_body
    delete_body-Archives i expected o now other =
        bind-Archives (current_profile_row valid_url i) _ (current-Archives valid_url i)
          λ (c : Current).
            bind-Archives (check_expected_revision c.revision (some expected)) _
              (check-Archives c.revision (some expected))
              λ u.
                bind-Archives (gets (λ d. not (leb (length d.profiles) 1))) _ (gets-Archives _)
                  λ several. bind-Archives (guard several protected) _ (guard-Archives _ _) λ u.
                    bind-Archives (guard (not (is_value o i)) protected) _ (guard-Archives _ _) λ u.
                      bind-Archives (replacement_row valid_url o) _ (replacement_row-Archives o)
                        λ (row : Option Current).
                          bind-Archives (if c.is_active then promote valid_url row now else pure tt)
                            _
                            (either c.is_active (promote valid_url row now) (pure tt)
                              (promote-Archives row now) (pure-Archives tt))
                            λ u.
                              bind-Archives (modify (delete_row i)) _ (delete_row-Archives i other)
                                λ u. pure-Archives i

-- The write deletes this profile.
abbrev pub deletes : ℕ → Write → Bool
deletes id (delete i expected other now) = i == id
deletes id w = false

perform-Grows :
    (id : ℕ) (valid_url : Text → Bool) (w : Write) (db : Db)
    → deletes id w ≡ false
    → Grows id db (perform valid_url w db)
unfolding perform rename_profile rename_page reorder_page delete_page delete_profile
perform-Grows id valid_url (create p now) db h = create_profile-Grows id valid_url p now db
perform-Grows id valid_url (duplicate i j expected name now) db h =
    duplicate_profile-Grows id valid_url i j expected name now db
perform-Grows id valid_url (rename i name expected now) db h =
    mutate_profile-Grows id valid_url i expected updated (λ wire. ok (record wire { name = name }))
      now db
perform-Grows id valid_url (activate i expected now) db h =
    activate_profile-Grows id valid_url i expected now db
perform-Grows id valid_url (delete i expected other now) db h =
    transaction-Grows id _ db (delete_body-Archives id valid_url i expected other now h)
perform-Grows id valid_url (add_page i page expected now) db h =
    create_page-Grows id valid_url i page expected now db
perform-Grows id valid_url (retitle_page i j title expected now) db h =
    mutate_profile-Grows id valid_url i expected updated (rename_in j title) now db
perform-Grows id valid_url (move_page i j order expected now) db h =
    mutate_profile-Grows id valid_url i expected updated (reorder_in j order) now db
perform-Grows id valid_url (remove_page i j expected other now) db h =
    mutate_profile-Grows id valid_url i expected updated (delete_in j other) now db
perform-Grows id valid_url (save p expected reason now) db h =
    save_profile-Grows id valid_url p expected reason now db
perform-Grows id valid_url (select i) db h = set_active_profile-Grows id valid_url i db

-- A snapshot that is on record stays on record under its id and revision, as it was, after any writes,
-- failing ones included, none of which deletes that profile.
pub archive_stays :
    (valid_url : Text → Bool) (id rev : ℕ) (p : Profile) (ws : List Write) (db : Db)
    → All (λ w. deletes id w ≡ false) ws
    → revision_at id rev db.revisions ≡ some p
    → revision_at id rev (perform_all valid_url ws db).revisions ≡ some p
unfolding perform_all
archive_stays valid_url id rev p [] db spared h = h
archive_stays valid_url id rev p (w ∷ ws) db spared h =
    archive_stays valid_url id rev p ws (perform valid_url w db) spared.1
      (perform-Grows id valid_url w db spared.0 rev p h)
