-- ===== src/Repository/Methods/Invariant/Writes.antt =====
-- The invariant across the writes that the methods share.
use android_streamdeck.Base.{
  ℕ, ◌+◌, ◌≤◌, ◌≡◌, refl, ap, true, false, not, some, [], ◌∷◌, arith, length, if◌then◌else◌,
}
use android_streamdeck.Base.Dict.{Dict, lookup, insert, erase, length-erase_old}
use android_streamdeck.Profile.{Profile, is_empty}
use android_streamdeck.Repository.Store.{
  Row, Reason, Db, ok, row_of, has_active, deactivate_all, delete_row, insert_profile,
  replace_profile,
}
use android_streamdeck.Repository.Store.Rows.{
  flag, active_count, active_count-insert, active_count-erase, active_count-deactivate_all,
  has_active-count, count-has_active, deactivated, lookup-deactivate_all,
}
use android_streamdeck.Repository.Store.Steps.{insert_profile-ok, replace_profile-ok}
use android_streamdeck.Repository.Store.Filed.{
  IsFiled, deactivate_all-IsFiled, delete_row-IsFiled, written_new-IsFiled, written_next-IsFiled,
}

pub record IsValid (db : Db) : Type 0 where
  pub filed : IsFiled db
  -- Exactly one profile is active, if there is any.
  pub one_active : active_count db.profiles ≡ (if is_empty db.profiles then 0 else 1)

pub is_empty-insert : (k : ℕ) (r : Row) (d : Dict Row) → is_empty (insert k r d) ≡ false
unfolding insert
is_empty-insert k r [] = refl
is_empty-insert k r ((i, s) ∷ d) = ground arith

empty_count : (d : Dict Row) → is_empty d ≡ true → active_count d ≡ 0
unfolding active_count
empty_count [] h = refl
empty_count (e ∷ d) h = cc

has_active-nonempty :
    (d : Dict Row)
    → active_count d ≡ (if is_empty d then 0 else 1)
    → active_count d + flag (not (has_active d)) ≡ 1
has_active-nonempty d one = ground (arith, has_active-count d, count-has_active d, empty_count d)

lookup-nonempty : (k : ℕ) (r : Row) (d : Dict Row) → lookup k d ≡ some r → is_empty d ≡ false
unfolding lookup
lookup-nonempty k r [] e = ground arith
lookup-nonempty k r (x ∷ d) e = refl

nonempty_of_length : (d : Dict Row) → 1 ≤ length d → is_empty d ≡ false
nonempty_of_length [] h = absurd (omega arith)
nonempty_of_length (x ∷ d) h = refl

erase_one_active :
    (k : ℕ) (row : Row) (d : Dict Row)
    → lookup k d ≡ some row
    → row.is_active ≡ false
    → 2 ≤ length d
    → active_count d ≡ (if is_empty d then 0 else 1)
    → active_count (erase k d) ≡ (if is_empty (erase k d) then 0 else 1)
erase_one_active k row d there inactive several one = ground (
  arith,
  there,
  inactive,
  active_count-erase k d,
  lookup-nonempty k row d there,
  nonempty_of_length (erase k d) (omega (arith, length-erase_old k row d there)),
)

pub insert_profile-IsValid :
    (wire : Profile) (reason : Reason) (now : ℕ) (db db' : Db) (u : Unit {0})
    → IsValid db
    → wire.revision ≡ 1
    → insert_profile wire reason (not (has_active db.profiles)) now db ≡ ok (u, db')
    → IsValid db'
insert_profile-IsValid wire reason now db db' u v first h =
    let active = not (has_active db.profiles) in
    let i = insert_profile-ok wire reason active now db db' u h in
    let row = row_of wire active now now in
    rw (i.tables) (record {
      filed = written_new-IsFiled wire reason active now now db v.filed i.absent first;
      one_active = ground (
        arith,
        i.absent,
        active_count-insert wire.id row db.profiles,
        is_empty-insert wire.id row db.profiles,
        has_active-nonempty db.profiles v.one_active,
      );
    })

pub replace_profile-IsValid :
    (wire : Profile) (reason : Reason) (now : ℕ) (row : Row) (db db' : Db) (u : Unit {0})
    → IsValid db
    → lookup wire.id db.profiles ≡ some row
    → wire.revision ≡ row.revision + 1
    → replace_profile wire reason row.is_active now db ≡ ok (u, db')
    → IsValid db'
replace_profile-IsValid wire reason now row db db' u v there next h =
    let r = replace_profile-ok wire reason row.is_active now db db' u row there h in
    let new = row_of wire row.is_active row.created_at now in
    rw (r.tables) (record {
      filed =
          written_next-IsFiled wire reason row.is_active row.created_at now db v.filed row there
            next;
      one_active = ground (
        arith,
        there,
        active_count-insert wire.id new db.profiles,
        is_empty-insert wire.id new db.profiles,
        v.one_active,
        lookup-nonempty wire.id row db.profiles there,
      );
    })

-- A profile takes over: all are deactivated, then its next revision is written as the active one.
pub promote_profile-IsValid :
    (wire : Profile) (reason : Reason) (now : ℕ) (row : Row) (db db' : Db) (u : Unit {0})
    → IsValid db
    → lookup wire.id db.profiles ≡ some row
    → wire.revision ≡ row.revision + 1
    → replace_profile wire reason true now (record db { profiles = deactivate_all db.profiles })
      ≡ ok (u, db')
    → IsValid db'
promote_profile-IsValid wire reason now row db db' u v there next h =
    let db1 = record db { profiles = deactivate_all db.profiles } in
    let row1 = record row { is_active = false } in
    let there1 : lookup wire.id db1.profiles ≡ some row1 =
      rw (lookup-deactivate_all wire.id db.profiles) (ap deactivated there) in
    let r = replace_profile-ok wire reason true now db1 db' u row1 there1 h in
    let new = row_of wire true row.created_at now in
    rw (r.tables) (record {
      filed =
          written_next-IsFiled wire reason true row.created_at now db1
            (deactivate_all-IsFiled db v.filed) row1 there1 next;
      one_active = ground (
        arith,
        there1,
        active_count-insert wire.id new db1.profiles,
        is_empty-insert wire.id new db1.profiles,
        active_count-deactivate_all db.profiles,
      );
    })

-- A row that is not active goes, and another is left.
pub delete_row-IsValid :
    (k : ℕ) (row : Row) (db : Db)
    → IsValid db
    → lookup k db.profiles ≡ some row
    → row.is_active ≡ false
    → 2 ≤ length db.profiles
    → IsValid (delete_row k db)
delete_row-IsValid k row db v there inactive several = record {
  filed = delete_row-IsFiled k db v.filed;
  one_active =
      unfold delete_row in erase_one_active k row db.profiles there inactive several v.one_active;
}
