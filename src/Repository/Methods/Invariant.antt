-- ===== src/Repository/Methods/Invariant.antt =====
-- The invariant across the methods of server/app/repositories/profiles.py that create, change and
-- activate a profile.
pub mod Writes
use Writes.{
  IsValid, insert_profile-IsValid, replace_profile-IsValid, promote_profile-IsValid,
  delete_row-IsValid,
}
use android_streamdeck.Base.{
  ℕ, ◌+◌, ◌≤◌, ◌≡◌, ◌≢◌, refl, ap, Bool, true, false, not, ◌&&◌, ◌||◌, Option, none, some, List, [],
  ◌∷◌, arith, is_none, is_value, leb, length, ◌==◌, if◌then◌else◌, Bool-cases, Option-cases, inl,
  inr, ◌⊎◌, ==_iff, ◌∙◌, sym,
}
use android_streamdeck.Base.Text.{Text}
use android_streamdeck.Base.Dict.{Dict, lookup, insert, HasKeys}
use android_streamdeck.Profile.{Page, Profile, valid_profile, valid_page}
use android_streamdeck.Repository.Store.{
  Row, Reason, Error, conflict, created, updated, activated, Db, Tx, Result, ok, err, ◌>>=◌, ◌>>◌,
  pure, lift, guard, gets, modify, has_active, deactivate_all, delete_row, insert_profile,
  replace_profile, transaction, Current, current_profile_row, check_expected_revision,
  validated_wire,
}
use android_streamdeck.Repository.Store.Steps.{IsRead, current_profile_row-ok}
use android_streamdeck.Repository.Store.Inversion.{
  bind-ok, lift-ok, guard-ok, check_expected_revision-ok, then_pure-ok, validated_wire-ok,
}
use android_streamdeck.Repository.Pages.{
  insert_page, rename_in, reorder_in, delete_in, replace_active, move_selected, without_page,
  sort_pages, page_with,
}
use android_streamdeck.Repository.Methods.{
  duplicate_profile, named, rename_profile, create_page, rename_page, reorder_page, delete_page,
  delete_profile, replacement_row, promote, save_row, save_profile, set_active_row,
  set_active_profile, create_body, create_profile, mutate_profile, activate_body, activate_profile,
}

pub transaction-IsValid :
    {A : Type 0} (m : Tx A) (db : Db)
    → IsValid db
    → ((a : A) (db' : Db) → m db ≡ ok (a, db') → IsValid db')
    → IsValid (transaction m db).1
unfolding transaction
transaction-IsValid {A} m db v keep = go (m db) refl
  where
    go : (r : Result (A × Db)) → m db ≡ r → IsValid (transaction m db).1
    go (ok (a, db1)) e = rw e (keep a db1 e)
    go (err x) e = rw e v

create_body-ok :
    (valid_url : Text → Bool) (wire p : Profile) (now : ℕ) (db db' : Db)
    → create_body valid_url wire now db ≡ ok (p, db')
    → insert_profile wire created (not (has_active db.profiles)) now db ≡ ok (tt, db')
unfolding create_body
create_body-ok valid_url wire p now db db' h = ground arith

module _ (valid_url : Text → Bool) where
  pub create_profile-IsValid :
      (wire : Profile) (now : ℕ) (db : Db)
      → IsValid db
      → IsValid (create_profile valid_url wire now db).1
  unfolding create_profile
  create_profile-IsValid wire now db v = transaction-IsValid _ db v λ p db' h.
      let (w, db1, e1, h1) = bind-ok (lift (validated_wire valid_url wire)) _ db db' p h in
      let (_, db2, e2, h2) = bind-ok (guard (w.revision == 1) conflict) _ db1 db' p h1 in
      let (same, at1) = lift-ok (validated_wire valid_url wire) db db1 w e1 in
      let (first, at2) = guard-ok (w.revision == 1) conflict db1 db2 tt e2 in
      insert_profile-IsValid w created now db db' tt v ((==_iff w.revision 1).0 first)
        (create_body-ok valid_url w p now db db' (rw (at2 ∙ at1) at h2))

named-first : (name : Option Text) (p : Profile) → p.revision ≡ 1 → (named name p).revision ≡ 1
named-first none p e = e
named-first (some n) p e = e

-- A mutation leaves the profile's id.
abbrev pub KeepsId : (Profile → Result Profile) → Type 0
KeepsId f = (w w' : Profile) → f w ≡ ok w' → w'.id ≡ w.id

module _ (valid_url : Text → Bool) where
  pub mutate_profile-IsValid :
      (id expected : ℕ) (reason : Reason) (mutate : Profile → Result Profile) (now : ℕ) (db : Db)
      → KeepsId mutate
      → IsValid db
      → IsValid (mutate_profile valid_url id expected reason mutate now db).1
  unfolding mutate_profile
  mutate_profile-IsValid id expected reason mutate now db keeps v =
      transaction-IsValid _ db v λ p db' h.
        let (c, db1, e1, h1) = bind-ok (current_profile_row valid_url id) _ db db' p h in
        let (row, read, at1) = current_profile_row-ok valid_url id db db1 c e1 in
        let (_, db2, e2, h2) =
          bind-ok (check_expected_revision c.revision (some expected)) _ db1 db' p h1 in
        let (_, at2) = check_expected_revision-ok c.revision (some expected) db1 db2 tt e2 in
        let (w, db3, e3, h3) = bind-ok (lift (mutate c.profile)) _ db2 db' p h2 in
        let (mutated, at3) = lift-ok (mutate c.profile) db2 db3 w e3 in
        let next = record w { revision = c.revision + 1 } in
        let (q, db4, e4, h4) = bind-ok (lift (validated_wire valid_url next)) _ db3 db' p h3 in
        let (checked, at4) = lift-ok (validated_wire valid_url next) db3 db4 q e4 in
        let is_next = validated_wire-ok valid_url next q checked in
        let same_id = keeps c.profile w mutated in
        let own = v.filed.owned id row.revision c.profile read.snapshot in
        let q_id : q.id ≡ id = cc (is_next, same_id, own.0) in
        let q_rev : q.revision ≡ row.revision + 1 = rw is_next (omega (arith, read.revision)) in
        let h5 = then_pure-ok (replace_profile q reason c.is_active now) q p db4 db' h4 in
        replace_profile-IsValid q reason now row db db' tt v (rw q_id read.there) q_rev
          (rw (← read.active) (rw (at4 ∙ at3 ∙ at2 ∙ at1) at h5))

  pub duplicate_profile-IsValid :
      (source new : ℕ) (expected : Option ℕ) (name : Option Text) (now : ℕ) (db : Db)
      → IsValid db
      → IsValid (duplicate_profile valid_url source new expected name now db).1
  unfolding duplicate_profile
  duplicate_profile-IsValid source new expected name now db v =
      transaction-IsValid _ db v λ p db' h.
        let (c, db1, e1, h1) = bind-ok (current_profile_row valid_url source) _ db db' p h in
        let (row, read, at1) = current_profile_row-ok valid_url source db db1 c e1 in
        let (_, db2, e2, h2) =
          bind-ok (check_expected_revision c.revision expected) _ db1 db' p h1 in
        let (_, at2) = check_expected_revision-ok c.revision expected db1 db2 tt e2 in
        let (_, db3, e3, h3) =
          bind-ok (guard (is_none (lookup new db2.profiles)) conflict) _ db2 db' p h2 in
        let (_, at3) = guard-ok (is_none (lookup new db2.profiles)) conflict db2 db3 tt e3 in
        let copy = named name (record (c.profile) { id = new; revision = 1 }) in
        let (q, db4, e4, h4) = bind-ok (lift (validated_wire valid_url copy)) _ db3 db' p h3 in
        let (checked, at4) = lift-ok (validated_wire valid_url copy) db3 db4 q e4 in
        let is_copy = validated_wire-ok valid_url copy q checked in
        let first : q.revision ≡ 1 =
          rw is_copy (named-first name (record (c.profile) { id = new; revision = 1 }) refl) in
        let h5 =
          then_pure-ok (insert_profile q created (not (has_active db4.profiles)) now) q p db4 db'
            h4 in
        insert_profile-IsValid q created now db db' tt v first (rw (at4 ∙ at3 ∙ at2 ∙ at1) at h5)

  activate_body-IsValid :
      (c : Current) (now id : ℕ) (row : Row) (p : Profile) (db db' : Db)
      → IsValid db
      → IsRead id c row db
      → activate_body valid_url c now db ≡ ok (p, db')
      → IsValid db'
  unfolding activate_body
  activate_body-IsValid c now id row p db db' v read h =
      let next = record (c.profile) { revision = c.revision + 1 } in
      let (q, db1, e1, h1) = bind-ok (lift (validated_wire valid_url next)) _ db db' p h in
      let (checked, at1) = lift-ok (validated_wire valid_url next) db db1 q e1 in
      let is_next = validated_wire-ok valid_url next q checked in
      let own = v.filed.owned id row.revision c.profile read.snapshot in
      let q_id : q.id ≡ id = cc (is_next, own.0) in
      let q_rev : q.revision ≡ row.revision + 1 = rw is_next (omega (arith, read.revision)) in
      let h2 =
        then_pure-ok (replace_profile q activated true now) q p
          (record db1 { profiles = deactivate_all db1.profiles }) db' h1 in
      promote_profile-IsValid q activated now row db db' tt v (rw q_id read.there) q_rev
        (rw at1 at h2)

  pub activate_profile-IsValid :
      (id expected now : ℕ) (db : Db)
      → IsValid db
      → IsValid (activate_profile valid_url id expected now db).1
  unfolding activate_profile
  activate_profile-IsValid id expected now db v = transaction-IsValid _ db v λ p db' h.
      let (c, db1, e1, h1) = bind-ok (current_profile_row valid_url id) _ db db' p h in
      let (row, read, at1) = current_profile_row-ok valid_url id db db1 c e1 in
      let (_, db2, e2, h2) =
        bind-ok (check_expected_revision c.revision (some expected)) _ db1 db' p h1 in
      let (_, at2) = check_expected_revision-ok c.revision (some expected) db1 db2 tt e2 in
      let h3 = rw (at2 ∙ at1) at h2 in
      elim (Bool-cases c.is_active) [
        | inl e ↦ let same : db ≡ db' = ground (arith, e, h3) in rw (← same) v
        | inr e ↦ activate_body-IsValid c now id row p db db' v read (rw e at h3)
      ]
