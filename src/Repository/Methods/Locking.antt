-- ===== src/Repository/Methods/Locking.antt =====
-- The revision that a caller of `_mutate_profile` expects.
use android_streamdeck.Base.{ℕ, ◌+◌, ◌≡◌, ◌≢◌, refl, ap, sym, ◌∙◌, Bool, true, none, some, arith}
use android_streamdeck.Base.Text.{Text}
use android_streamdeck.Base.Dict.{lookup, lookup-insert}
use android_streamdeck.Profile.{Profile, valid_profile}
use android_streamdeck.Repository.Store.{
  Row, Reason, Db, Tx, Result, ok, err, pure, lift, transaction, Current, current_profile_row,
  check_expected_revision, validated_wire, replace_profile, revision_at, row_of,
}
use android_streamdeck.Repository.Store.Rows.{revision_at-append}
use android_streamdeck.Repository.Store.Steps.{
  IsRead, current_profile_row-ok, Replaced, replace_profile-ok, revision_of, written,
}
use android_streamdeck.Repository.Store.Inversion.{
  bind-ok, lift-ok, check_expected_revision-ok, then_pure-ok, validated_wire-ok,
}
use android_streamdeck.Repository.Methods.{mutate_profile, get_profile}
use android_streamdeck.Repository.Methods.Invariant.{KeepsId}
use android_streamdeck.Repository.Methods.Invariant.Writes.{IsValid}

-- A transaction that ends in a value has run its body.
pub transaction-ok :
    {A : Type 0} (m : Tx A) (db db' : Db) (a : A)
    → transaction m db ≡ (ok a, db')
    → m db ≡ ok (a, db')
unfolding transaction
transaction-ok {A} m db db' a h = go (m db) refl
  where
    go : (r : Result (A × Db)) → m db ≡ r → m db ≡ ok (a, db')
    go (ok (b, db1)) e = ground (arith, e, h)
    go (err x) e = absurd (ground (arith, e, h))

-- What a successful mutation of `id` from the revision `expected` has done.
pub record IsNext (valid_url : Text → Bool) (id expected : ℕ) (mutate : Profile → Result Profile)
    (db : Db) (p : Profile) (db' : Db) : Type 0 where
  -- The caller had the current revision, and the mutation was made to its snapshot.
  pub was_current : (row : Row) × (lookup id db.profiles ≡ some row) × (row.revision ≡ expected)
  pub mutated :
      (old w : Profile) × (revision_at id expected db.revisions ≡ some old)
      × (mutate old ≡ ok w)
      × (p ≡ record w { revision = expected + 1 })
  -- What is read back afterwards is what was returned.
  pub reads_back : get_profile valid_url id none db' ≡ ok p
  pub reads_revision : get_profile valid_url id (some (expected + 1)) db' ≡ ok p
  -- Older revisions and other profiles stay as they were.
  pub history :
      (k rev : ℕ)
      → revision_at k rev db.revisions ≢ none
      → revision_at k rev db'.revisions ≡ revision_at k rev db.revisions
  pub others : (k : ℕ) → k ≢ id → lookup k db'.profiles ≡ lookup k db.profiles

-- What a written profile's successor state reads.
written-reads :
    (valid_url : Text → Bool) (q : Profile) (reason : Reason) (active : Bool) (created now : ℕ)
    (db : Db)
    → valid_profile valid_url q ≡ true
    → revision_at q.id q.revision db.revisions ≡ none
    → (get_profile valid_url q.id none (written q reason active created now db) ≡ ok q)
      × (get_profile valid_url q.id (some q.revision) (written q reason active created now db)
          ≡ ok q)
unfolding get_profile current_profile_row
written-reads valid_url q reason active created now db passed new =
    let row = row_of q active created now in
    let there = lookup-insert q.id q.id row db.profiles in
    let filed = revision_at-append q.id q.revision db.revisions (revision_of q reason now) in
    (ground (arith, passed, new, there, filed), ground (arith, passed, new, filed))

written-history :
    (q : Profile) (reason : Reason) (active : Bool) (created now : ℕ) (db : Db) (k rev : ℕ)
    → revision_at k rev db.revisions ≢ none
    → revision_at k rev ((written q reason active created now db).revisions)
      ≡ revision_at k rev db.revisions
written-history q reason active created now db k rev old =
    ground (arith, old, revision_at-append k rev db.revisions (revision_of q reason now))

-- The parts of `IsNext`, from what the method has read and written.
stored-IsNext :
    (valid_url : Text → Bool) (expected : ℕ) (reason : Reason) (mutate : Profile → Result Profile)
    (now : ℕ) (db db' : Db) (q w : Profile) (c : Current) (row : Row)
    → IsRead q.id c row db
    → expected ≡ row.revision
    → q.revision ≡ expected + 1
    → mutate c.profile ≡ ok w
    → q ≡ record w { revision = c.revision + 1 }
    → valid_profile valid_url q ≡ true
    → Replaced q reason c.is_active now row db db'
    → IsNext valid_url q.id expected mutate db q db'
stored-IsNext valid_url expected reason mutate now db db' q w c row read current rev mutated is_next
      passed stored =
    let reads =
      written-reads valid_url q reason c.is_active row.created_at now db passed
        stored.new_revision in
    record {
      was_current = (row, read.there, sym current);
      mutated = (
        c.profile,
        w,
        rw current read.snapshot,
        mutated,
        is_next ∙ ap (λ (n : ℕ). record w { revision = n }) (omega (arith, current, read.revision)),
      );
      reads_back = rw stored.tables reads.0;
      reads_revision = rw (stored.tables, ← rev) reads.1;
      history = λ k r old.
          rw stored.tables (written-history q reason c.is_active row.created_at now db k r old);
      others = λ k ne. rw stored.tables (
          ground
            (arith, lookup-insert q.id k (row_of q c.is_active row.created_at now) db.profiles));
    }

assembled :
    (valid_url : Text → Bool) (id expected : ℕ) (mutate : Profile → Result Profile) (db db' : Db)
    (p q : Profile)
    → q.id ≡ id
    → q ≡ p
    → valid_profile valid_url q ≡ true
    → IsNext valid_url q.id expected mutate db q db'
    → (valid_profile valid_url p ≡ true) × IsNext valid_url id expected mutate db p db'
assembled valid_url id expected mutate db db' p q same returned passed n =
    (rw (← returned) passed, rw (← same, ← returned) n)

-- When `_mutate_profile` returns on tables that satisfy the invariant, with a mutation that keeps the
-- profile's id: the caller expected the current revision, the result is the mutation of that
-- revision's snapshot under the next revision, it passed the checks, reading the profile or its new
-- revision gives it back, and every older snapshot and every other profile's row is unchanged.
pub mutation-IsNext :
    (valid_url : Text → Bool) (id expected : ℕ) (reason : Reason)
    (mutate : Profile → Result Profile) (now : ℕ) (db db' : Db) (p : Profile)
    → KeepsId mutate
    → IsValid db
    → mutate_profile valid_url id expected reason mutate now db ≡ (ok p, db')
    → (valid_profile valid_url p ≡ true) × IsNext valid_url id expected mutate db p db'
unfolding mutate_profile
mutation-IsNext valid_url id expected reason mutate now db db' p keeps v run =
    let h = transaction-ok _ db db' p run in
    let (c, db1, e1, h1) = bind-ok (current_profile_row valid_url id) _ db db' p h in
    let (row, read, at1) = current_profile_row-ok valid_url id db db1 c e1 in
    let (_, db2, e2, h2) =
      bind-ok (check_expected_revision c.revision (some expected)) _ db1 db' p h1 in
    let (same, at2) = check_expected_revision-ok c.revision (some expected) db1 db2 tt e2 in
    let (w, db3, e3, h3) = bind-ok (lift (mutate c.profile)) _ db2 db' p h2 in
    let (mutated, at3) = lift-ok (mutate c.profile) db2 db3 w e3 in
    let next = record w { revision = c.revision + 1 } in
    let (q, db4, e4, h4) = bind-ok (lift (validated_wire valid_url next)) _ db3 db' p h3 in
    let (checked, at4) = lift-ok (validated_wire valid_url next) db3 db4 q e4 in
    let is_next = validated_wire-ok valid_url next q checked in
    let at = at4 ∙ at3 ∙ at2 ∙ at1 in
    let own = v.filed.owned id row.revision c.profile read.snapshot in
    let q_id : q.id ≡ id = cc (is_next, keeps c.profile w mutated, own.0) in
    let current : expected ≡ row.revision = ground (arith, read.revision, same) in
    let q_rev : q.revision ≡ expected + 1 = rw is_next (omega (arith, read.revision, current)) in
    let h5 = then_pure-ok (replace_profile q reason c.is_active now) q p db4 db' h4 in
    let stored =
      replace_profile-ok q reason c.is_active now db db' tt row (rw q_id read.there)
        (rw at at h5) in
    let (_, db5, e5, h6) =
      bind-ok (replace_profile q reason c.is_active now) (λ _. pure q) db4 db' p h4 in
    let returned : q ≡ p = ground arith in
    let passed : valid_profile valid_url q ≡ true = ground arith in
    let next_state =
      stored-IsNext valid_url expected reason mutate now db db' q w c row (rw q_id read) current
        q_rev mutated is_next passed stored in
    assembled valid_url id expected mutate db db' p q q_id returned passed next_state
