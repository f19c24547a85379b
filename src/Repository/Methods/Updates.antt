-- ===== src/Repository/Methods/Updates.antt =====
-- Two callers of `_mutate_profile` (server/app/repositories/profiles.py) that read the same revision.
use android_streamdeck.Base.{
  ℕ, ◌+◌, ◌<◌, ◌≡◌, refl, ap, Bool, false, some, List, All, arith, is_none, Option-cases, inl, inr,
}
use android_streamdeck.Base.Text.{Text}
use android_streamdeck.Base.Dict.{lookup}
use android_streamdeck.Profile.{Profile}
use android_streamdeck.Repository.Store.{
  Row, Reason, Error, Db, Tx, Result, ok, err, transaction, revision_at,
}
use android_streamdeck.Repository.Methods.{mutate_profile, get_profile}
use android_streamdeck.Repository.Methods.Invariant.{KeepsId, mutate_profile-IsValid}
use android_streamdeck.Repository.Methods.Invariant.Writes.{IsValid}
use android_streamdeck.Repository.Methods.Runs.{Write, perform_all, perform_all-IsValid}
use android_streamdeck.Repository.Methods.Archive.{deletes, archive_stays}
use android_streamdeck.Repository.Methods.Locking.{mutation-IsNext}

-- A transaction that cannot return ends in an error, with the tables as they were.
transaction-refused :
    {A : Type 0} (m : Tx A) (db : Db)
    → ((a : A) (db' : Db) → transaction m db ≡ (ok a, db') → ⊥)
    → (e : Error) × (transaction m db ≡ (err e, db))
unfolding transaction
transaction-refused {A} m db never = go (m db) refl
  where
    go : (r : Result (A × Db)) → m db ≡ r → (e : Error) × (transaction m db ≡ (err e, db))
    go (ok (a, db1)) e = absurd (never a db1 (rw e refl))
    go (err x) e = (x, rw e refl)

get_profile-recorded :
    (valid_url : Text → Bool) (id rev : ℕ) (db : Db) (p : Profile)
    → get_profile valid_url id (some rev) db ≡ ok p
    → is_none (revision_at id rev db.revisions) ≡ false
unfolding get_profile
get_profile-recorded valid_url id rev db p h = ground arith

mutate_profile-refused :
    (valid_url : Text → Bool) (id expected : ℕ) (reason : Reason)
    (mutate : Profile → Result Profile) (now : ℕ) (db : Db)
    → ((q : Profile) (db' : Db)
        → mutate_profile valid_url id expected reason mutate now db ≡ (ok q, db')
        → ⊥)
    → (e : Error) × (mutate_profile valid_url id expected reason mutate now db ≡ (err e, db))
unfolding mutate_profile
mutate_profile-refused valid_url id expected reason mutate now db never =
    transaction-refused _ db never

-- With valid tables a revision on record is not above the row's.
recorded-le :
    (id rev : ℕ) (db : Db) (row : Row)
    → IsValid db
    → is_none (revision_at id rev db.revisions) ≡ false
    → lookup id db.profiles ≡ some row
    → row.revision < rev
    → ⊥
recorded-le id rev db row v there found above = ground (arith, v.filed.recorded id rev, found)

recorded-stays :
    (valid_url : Text → Bool) (id rev : ℕ) (ws : List Write) (db : Db)
    → All (λ w. deletes id w ≡ false) ws
    → is_none (revision_at id rev db.revisions) ≡ false
    → is_none (revision_at id rev (perform_all valid_url ws db).revisions) ≡ false
recorded-stays valid_url id rev ws db spared h =
    elim (Option-cases (revision_at id rev db.revisions)) [
      | inl e ↦ absurd (ground (arith, e))
      | inr (q, e) ↦ rw (archive_stays valid_url id rev q ws db spared e) refl
    ]

-- No update is lost: when `_mutate_profile` has returned for a caller that expected a revision, then
-- after any writes that do not delete the profile, failing ones included, `_mutate_profile` ends in an
-- error and changes no table for every caller that expects the same revision, whatever its mutation.
-- The tables satisfy the invariant at first, and the mutations keep the profile's id.
pub stale_mutation_refused :
    (valid_url : Text → Bool) (id expected : ℕ) (reason reason' : Reason)
    (mutate mutate' : Profile → Result Profile) (now now' : ℕ) (db db1 : Db) (p : Profile)
    (ws : List Write)
    → KeepsId mutate
    → KeepsId mutate'
    → IsValid db
    → mutate_profile valid_url id expected reason mutate now db ≡ (ok p, db1)
    → All (λ w. deletes id w ≡ false) ws
    → (let db2 = perform_all valid_url ws db1 in
        (e : Error) × (mutate_profile valid_url id expected reason' mutate' now' db2
          ≡ (err e, db2)))
stale_mutation_refused valid_url id expected reason reason' mutate mutate' now now' db db1 p ws
      keeps keeps' v run spared =
    let db2 = perform_all valid_url ws db1 in
    let first = (mutation-IsNext valid_url id expected reason mutate now db db1 p keeps v run).1 in
    let v1 : IsValid db1 =
      rw (← (ap (λ (r : Result Profile × Db). r.1) run))
        (mutate_profile-IsValid valid_url id expected reason mutate now db keeps v) in
    let v2 = perform_all-IsValid valid_url ws db1 v1 in
    let kept =
      recorded-stays valid_url id (expected + 1) ws db1 spared
        (get_profile-recorded valid_url id (expected + 1) db1 p first.reads_revision) in
    mutate_profile-refused valid_url id expected reason' mutate' now' db2 (λ q db3 h.
      let (row, there, current) =
        (mutation-IsNext valid_url id expected reason' mutate' now' db2 db3 q keeps' v2
          h).1.was_current in
      recorded-le id (expected + 1) db2 row v2 kept there (omega (arith, current)))
