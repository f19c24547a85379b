-- ===== src/Repository/Methods/Deletion.antt =====
-- The invariant across `delete_profile`, `save_profile` and `set_active_profile`.
use android_streamdeck.Base.{
  ℕ, suc, ◌+◌, ◌≤◌, ◌≡◌, ◌≢◌, refl, ap, Bool, true, false, not, Option, none, some, [], ◌∷◌, arith,
  is_none, is_value, leb, length, ◌==◌, if◌then◌else◌, Bool-cases, inl, inr, ==_iff, ◌∙◌,
}
use android_streamdeck.Base.Text.{Text}
use android_streamdeck.Base.Dict.{
  Dict, lookup, insert, insert-HasKeys, lookup-insert, length-insert_old,
}
use android_streamdeck.Profile.{Profile}
use android_streamdeck.Repository.Store.{
  Row, Reason, conflict, protected, updated, Db, ok, pure, lift, guard, deactivate_all, delete_row,
  Current, current_profile_row, check_expected_revision, validated_wire, row_of,
}
use android_streamdeck.Repository.Store.Rows.{
  active_count-insert, active_count-deactivate_all, deactivated, lookup-deactivate_all,
}
use android_streamdeck.Repository.Store.Steps.{IsRead, current_profile_row-ok, replace_profile-ok}
use android_streamdeck.Repository.Store.Filed.{deactivate_all-IsFiled}
use android_streamdeck.Repository.Store.Inversion.{
  bind-ok, lift-ok, guard-ok, check_expected_revision-ok, then_pure-ok, validated_wire-ok,
}
use android_streamdeck.Repository.Methods.{
  delete_body, delete_profile, replacement_row, promote, save_row, save_profile, set_active_row,
  set_active_profile,
}
use android_streamdeck.Repository.Methods.Invariant.{transaction-IsValid}
use android_streamdeck.Repository.Methods.Invariant.Writes.{
  IsValid, insert_profile-IsValid, replace_profile-IsValid, promote_profile-IsValid,
  delete_row-IsValid, is_empty-insert,
}

length-deactivate_all : (d : Dict Row) → length (deactivate_all d) ≡ length d
unfolding deactivate_all
length-deactivate_all [] = refl
length-deactivate_all ((i, r) ∷ d) = ap suc (length-deactivate_all d)

save_row-IsValid :
    (wire : Profile) (expected : Option ℕ) (reason : Reason) (now : ℕ) (row : Option Row)
    (u : Unit {0}) (db db' : Db)
    → lookup wire.id db.profiles ≡ row
    → IsValid db
    → save_row wire expected reason now row db ≡ ok (u, db')
    → IsValid db'
unfolding save_row
save_row-IsValid wire expected reason now none u db db' e v h =
    let (_, db1, e1, h1) = bind-ok (guard (is_none expected) conflict) _ db db' u h in
    let (_, at1) = guard-ok (is_none expected) conflict db db1 tt e1 in
    let (_, db2, e2, h2) = bind-ok (guard (wire.revision == 1) conflict) _ db1 db' u h1 in
    let (first, at2) = guard-ok (wire.revision == 1) conflict db1 db2 tt e2 in
    insert_profile-IsValid wire reason now db db' u v ((==_iff wire.revision 1).0 first)
      (rw (at2 ∙ at1) at h2)
save_row-IsValid wire expected reason now (some row) u db db' e v h =
    let (_, db1, e1, h1) = bind-ok (check_expected_revision row.revision expected) _ db db' u h in
    let (_, at1) = check_expected_revision-ok row.revision expected db db1 tt e1 in
    let (_, db2, e2, h2) =
      bind-ok (guard (wire.revision == row.revision + 1) conflict) _ db1 db' u h1 in
    let (next, at2) = guard-ok (wire.revision == row.revision + 1) conflict db1 db2 tt e2 in
    replace_profile-IsValid wire reason now row db db' u v e
      ((==_iff wire.revision (row.revision + 1)).0 next) (rw (at2 ∙ at1) at h2)

-- What `delete_profile` has read of the replacement that was named, if any.
abbrev IsReplacement : Option ℕ → Option Current → Db → Type 0
IsReplacement none none db = Unit
IsReplacement none (some c) db = ⊥
IsReplacement (some id) none db = ⊥
IsReplacement (some id) (some c) db = (row : Row) × IsRead id c row db

module _ (valid_url : Text → Bool) where
  pub save_profile-IsValid :
      (wire : Profile) (expected : Option ℕ) (reason : Reason) (now : ℕ) (db : Db)
      → IsValid db
      → IsValid (save_profile valid_url wire expected reason now db).1
  unfolding save_profile
  save_profile-IsValid wire expected reason now db v = transaction-IsValid _ db v λ p db' h.
      let (w, db1, e1, h1) = bind-ok (lift (validated_wire valid_url wire)) _ db db' p h in
      let (_, at1) = lift-ok (validated_wire valid_url wire) db db1 w e1 in
      let h2 =
        then_pure-ok (save_row w expected reason now (lookup w.id db1.profiles)) w p db1 db' h1 in
      save_row-IsValid w expected reason now (lookup w.id db.profiles) tt db db' refl v
        (rw at1 at h2)

  -- The replacement is the active profile afterwards, and the others keep their rows but the flag.
  promote-IsValid :
      (o : Option Current) (now : ℕ) (id : ℕ) (row : Row) (u : Unit {0}) (db db' : Db)
      → IsValid db
      → ((c : Current) → o ≡ some c → IsRead id c row db)
      → promote valid_url o now db ≡ ok (u, db')
      → IsValid db'
        × ((k : ℕ) → k ≢ id → lookup k db'.profiles ≡ deactivated (lookup k db.profiles))
        × (length db'.profiles ≡ length db.profiles)
  unfolding promote
  promote-IsValid none now id row u db db' v read h = absurd (cc)
  promote-IsValid (some c) now id row u db db' v read h =
      let r = read c refl in
      let next = record (c.profile) { revision = c.revision + 1 } in
      let db1 = record db { profiles = deactivate_all db.profiles } in
      let (q, db2, e2, h2) = bind-ok (lift (validated_wire valid_url next)) _ db1 db' u h in
      let (checked, at2) = lift-ok (validated_wire valid_url next) db1 db2 q e2 in
      let is_next = validated_wire-ok valid_url next q checked in
      let own = v.filed.owned id row.revision c.profile r.snapshot in
      let q_id : q.id ≡ id = cc (is_next, own.0) in
      let q_rev : q.revision ≡ row.revision + 1 = rw is_next (omega (arith, r.revision)) in
      let h3 = rw at2 at h2 in
      let there : lookup q.id db1.profiles ≡ some (record row { is_active = false }) =
        rw (lookup-deactivate_all q.id db.profiles, q_id, r.there) in
      let written =
        replace_profile-ok q updated true now db1 db' u (record row { is_active = false }) there
          h3 in
      let new = row_of q true row.created_at now in
      (
        promote_profile-IsValid q updated now row db db' u v (rw q_id r.there) q_rev h3,
        λ k ne. rw written.tables (
            ground (
              arith,
              q_id,
              lookup-insert q.id k new db1.profiles,
              lookup-deactivate_all k db.profiles,
            )),
        rw written.tables (
            length-insert_old q.id new (record row { is_active = false }) db1.profiles there
            ∙ length-deactivate_all db.profiles),
      )

  replacement_row-ok :
      (replacement : Option ℕ) (db db' : Db) (o : Option Current)
      → replacement_row valid_url replacement db ≡ ok (o, db')
      → (db' ≡ db) × IsReplacement replacement o db
  unfolding replacement_row
  replacement_row-ok none db db' o h = (ground arith, ground arith)
  replacement_row-ok (some id) db db' o h =
      let (c, db1, e1, h1) = bind-ok (current_profile_row valid_url id) _ db db' o h in
      let (row, read, at1) = current_profile_row-ok valid_url id db db1 c e1 in
      let same : some c ≡ o = ground arith in (ground (arith, at1, h1), rw (← same) (row, read))

  -- The profile goes, once it is not active and another is left.
  promoted_then_deleted :
      (id : ℕ) (c : Current) (row : Row) (replacement : Option ℕ) (o : Option Current) (now : ℕ)
      (db db' : Db) (u : Unit {0})
      → IsValid db
      → IsRead id c row db
      → IsReplacement replacement o db
      → is_value replacement id ≡ false
      → 2 ≤ length db.profiles
      → c.is_active ≡ true
      → promote valid_url o now db ≡ ok (u, db')
      → IsValid (delete_row id db')
  promoted_then_deleted id c row none none now db db' u v read r differs several active h =
      absurd (unfold promote in ground arith)
  promoted_then_deleted id c row none (some d) now db db' u v read r differs several active h =
      absurd r
  promoted_then_deleted id c row (some j) none now db db' u v read r differs several active h =
      absurd r
  promoted_then_deleted id c row (some j) (some d) now db db' u v read r differs several active h =
      let (valid, others, len) =
        promote-IsValid (some d) now j r.0 u db db' v (λ e p. let q : d ≡ e = cc in rw (← q) r.1)
          h in
      delete_row-IsValid id (record row { is_active = false }) db' valid
        (others id (ground arith) ∙ ap deactivated read.there) refl (omega (arith, len))

  delete_step :
      (id : ℕ) (c : Current) (row : Row) (replacement : Option ℕ) (o : Option Current) (now : ℕ)
      (db db' : Db) (u : Unit {0})
      → IsValid db
      → IsRead id c row db
      → IsReplacement replacement o db
      → is_value replacement id ≡ false
      → 2 ≤ length db.profiles
      → (if c.is_active then promote valid_url o now else pure tt) db ≡ ok (u, db')
      → IsValid (delete_row id db')
  delete_step id c row replacement o now db db' u v read found differs two h =
      elim (Bool-cases c.is_active) [
        | inl e ↦
            promoted_then_deleted id c row replacement o now db db' u v read found differs two e
              (rw e at h)
        | inr e ↦
            let same : db ≡ db' = ground (arith, e, h) in
            rw (← same) (delete_row-IsValid id row db v read.there (rw (← read.active) e) two)
      ]

  pub delete_profile-IsValid :
      (id expected : ℕ) (replacement : Option ℕ) (now : ℕ) (db : Db)
      → IsValid db
      → IsValid (delete_profile valid_url id expected replacement now db).1
  unfolding delete_profile delete_body
  delete_profile-IsValid id expected replacement now db v =
      transaction-IsValid (delete_body valid_url id expected replacement now) db v λ p db' h.
        let (c, db1, e1, h1) = bind-ok (current_profile_row valid_url id) _ db db' p h in
        let (row, read, at1) = current_profile_row-ok valid_url id db db1 c e1 in
        let (_, db2, e2, h2) =
          bind-ok (check_expected_revision c.revision (some expected)) _ db1 db' p h1 in
        let (_, at2) = check_expected_revision-ok c.revision (some expected) db1 db2 tt e2 in
        let (_, db3, e3, h3) =
          bind-ok (guard (not (leb (length db2.profiles) 1)) protected) _ db2 db' p h2 in
        let (several, at3) = guard-ok (not (leb (length db2.profiles) 1)) protected db2 db3 tt e3 in
        let (_, db4, e4, h4) =
          bind-ok (guard (not (is_value replacement id)) protected) _ db3 db' p h3 in
        let (differs, at4) = guard-ok (not (is_value replacement id)) protected db3 db4 tt e4 in
        let (o, db5, e5, h5) = bind-ok (replacement_row valid_url replacement) _ db4 db' p h4 in
        let at = at4 ∙ at3 ∙ at2 ∙ at1 in
        let (at5, found) = replacement_row-ok replacement db4 db5 o e5 in
        let (_, db6, e6, h6) =
          bind-ok (if c.is_active then promote valid_url o now else pure tt) _ db5 db' p h5 in
        let gone : delete_row id db6 ≡ db' = ground arith in
        let two : 2 ≤ length db.profiles = rw (← at2 ∙ at1) (ground arith) in
        rw (← gone) (
          delete_step id c row replacement o now db db6 tt v read (rw at at found) (ground arith)
            two (rw (at5 ∙ at) at e6))

set_active_row-IsValid :
    (id : ℕ) (row : Option Row) (u : Unit {0}) (db db' : Db)
    → lookup id db.profiles ≡ row
    → IsValid db
    → set_active_row id row db ≡ ok (u, db')
    → IsValid db'
unfolding set_active_row
set_active_row-IsValid id none u db db' e v h = absurd (ground arith)
set_active_row-IsValid id (some row) u db db' e v h =
    let new = record row { is_active = true } in
    let d = deactivate_all db.profiles in
    let db1 = record db { profiles = d } in
    let filed = deactivate_all-IsFiled db v.filed in
    let same : record db { profiles = insert id new d } ≡ db' = ground arith in
    let old : lookup id d ≡ some (record row { is_active = false }) =
      rw (lookup-deactivate_all id db.profiles, e) in
    rw (← same) (record {
      filed = record {
        keys = insert-HasKeys id new d filed.keys;
        recorded = λ k rev. ground (arith, old, filed.recorded k rev, lookup-insert id k new d);
        owned = v.filed.owned;
      };
      one_active = ground (
        arith,
        old,
        active_count-insert id new d,
        active_count-deactivate_all db.profiles,
        is_empty-insert id new d,
      );
    })

pub set_active_profile-IsValid :
    (id : ℕ) (db : Db) → IsValid db → IsValid (set_active_profile id db).1
unfolding set_active_profile
set_active_profile-IsValid id db v =
    transaction-IsValid _ db v
      λ u db' h. set_active_row-IsValid id (lookup id db.profiles) u db db' refl v h
