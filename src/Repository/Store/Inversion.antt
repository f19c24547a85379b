-- ===== src/Repository/Store/Inversion.antt =====
-- Successful actions taken apart: the values and the tables between their steps.
use android_streamdeck.Base.{
  ℕ, ◌≡◌, refl, Bool, true, false, ◌||◌, Option, arith, is_none, is_value,
}
use android_streamdeck.Base.Text.{Text}
use android_streamdeck.Profile.{Profile}
use android_streamdeck.Repository.Store.{
  Db, Tx, Result, ok, err, Error, conflict, ◌>>=◌, ◌>>◌, pure, lift, guard, check_expected_revision,
  validated_wire,
}

-- A successful sequence of two steps, taken apart.
pub bind-ok :
    {A B : Type 0} (m : Tx A) (f : A → Tx B) (db db' : Db) (b : B)
    → (m >>= f) db ≡ ok (b, db')
    → (a : A) × (db1 : Db) × (m db ≡ ok (a, db1)) × (f a db1 ≡ ok (b, db'))
bind-ok {A} {B} m f db db' b h = go (m db) refl
  where
    go :
        (r : Result (A × Db))
        → m db ≡ r
        → (a : A) × (db1 : Db) × (m db ≡ ok (a, db1)) × (f a db1 ≡ ok (b, db'))
    go (ok (a, db1)) e = (a, db1, e, rw (e, ◌>>=◌) at h)
    go (err x) e = absurd (ground (arith, e))

pub lift-ok :
    {A : Type 0} (r : Result A) (db db' : Db) (a : A)
    → lift r db ≡ ok (a, db')
    → (r ≡ ok a) × (db' ≡ db)
lift-ok (ok x) db db' a h = (ground arith, ground arith)
lift-ok (err e) db db' a h = cc

pub guard-ok :
    (b : Bool) (e : Error) (db db' : Db) (u : Unit {0})
    → guard b e db ≡ ok (u, db')
    → (b ≡ true) × (db' ≡ db)
guard-ok true e db db' u h = (refl, ground arith)
guard-ok false e db db' u h = cc

pub check_expected_revision-ok :
    (rev : ℕ) (expected : Option ℕ) (db db' : Db) (u : Unit {0})
    → check_expected_revision rev expected db ≡ ok (u, db')
    → ((is_none expected || is_value expected rev) ≡ true) × (db' ≡ db)
unfolding check_expected_revision
check_expected_revision-ok rev expected db db' u h =
    guard-ok (is_none expected || is_value expected rev) conflict db db' u h

-- The two last steps of a method that returns what it wrote.
pub then_pure-ok :
    {A : Type 0} (m : Tx (Unit {0})) (a b : A) (db db' : Db)
    → (m >> pure a) db ≡ ok (b, db')
    → m db ≡ ok (tt, db')
then_pure-ok m a b db db' h =
    let (_, db1, e, k) = bind-ok m _ db db' b h in
    let same : db1 ≡ db' = ground arith in rw (← same) e

pub validated_wire-ok :
    (valid_url : Text → Bool) (p q : Profile) → validated_wire valid_url p ≡ ok q → q ≡ p
validated_wire-ok valid_url p q h = ground arith
