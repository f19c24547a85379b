-- ===== src/Repository/Store/Rows.antt =====
-- How the writes change the number of active profiles and the revisions on record.
use android_streamdeck.Base.{
  ℕ, ◌+◌, ◌≤◌, ◌≡◌, refl, Bool, true, false, not, ◌&&◌, Option, none, some, List, [], ◌∷◌, ◌++◌,
  arith, keep, is_none, ◌==◌, if◌then◌else◌,
}
use android_streamdeck.Base.Dict.{Dict, lookup, insert, erase}
use android_streamdeck.Repository.Store.{Row, Revision, revision_at, has_active, deactivate_all}

-- `int(is_active)`
abbrev pub flag : Bool → ℕ
flag true = 1
flag false = 0

abbrev pub row_flag : Option Row → ℕ
row_flag none = 0
row_flag (some r) = flag r.is_active

unfoldable pub active_count : Dict Row → ℕ
active_count [] = 0
active_count ((i, r) ∷ d) = flag r.is_active + active_count d

pub active_count-insert :
    (k : ℕ) (r : Row) (d : Dict Row)
    → active_count (insert k r d) + row_flag (lookup k d) ≡ active_count d + flag r.is_active
unfolding active_count insert lookup
active_count-insert k r [] = omega arith
active_count-insert k r ((i, s) ∷ d) = ground (arith, active_count-insert k r d)

pub active_count-erase :
    (k : ℕ) (d : Dict Row) → active_count (erase k d) + row_flag (lookup k d) ≡ active_count d
unfolding active_count erase lookup
active_count-erase k [] = refl
active_count-erase k ((i, s) ∷ d) = ground (arith, active_count-erase k d)

pub active_count-deactivate_all : (d : Dict Row) → active_count (deactivate_all d) ≡ 0
unfolding active_count deactivate_all
active_count-deactivate_all [] = refl
active_count-deactivate_all ((i, s) ∷ d) = omega (arith, active_count-deactivate_all d)

pub has_active-count : (d : Dict Row) → flag (has_active d) ≤ active_count d
unfolding active_count has_active
has_active-count [] = omega arith
has_active-count ((i, s) ∷ d) = ground (arith, has_active-count d)

pub count-has_active : (d : Dict Row) → has_active d ≡ false → active_count d ≡ 0
unfolding active_count has_active
count-has_active [] h = refl
count-has_active ((i, s) ∷ d) h = ground (arith, count-has_active d)

pub row_flag-le : (k : ℕ) (d : Dict Row) → row_flag (lookup k d) ≤ active_count d
unfolding active_count lookup
row_flag-le k [] = omega arith
row_flag-le k ((i, s) ∷ d) = ground (arith, row_flag-le k d)

abbrev pub deactivated : Option Row → Option Row
deactivated none = none
deactivated (some r) = some (record r { is_active = false })

pub lookup-deactivate_all :
    (k : ℕ) (d : Dict Row) → lookup k (deactivate_all d) ≡ deactivated (lookup k d)
unfolding lookup deactivate_all
lookup-deactivate_all k [] = refl
lookup-deactivate_all k ((i, s) ∷ d) = ground (arith, lookup-deactivate_all k d)

pub revision_at-append :
    (id rev : ℕ) (rs : List Revision) (r : Revision)
    → revision_at id rev (rs ++ r ∷ []) ≡ (
        if is_none (revision_at id rev rs)
        then (if r.profile_id == id && r.revision == rev then some r.snapshot else none)
        else revision_at id rev rs)
unfolding revision_at
revision_at-append id rev [] r = ground arith
revision_at-append id rev (q ∷ qs) r = ground (arith, revision_at-append id rev qs r)

pub revision_at-keep :
    (id rev k : ℕ) (rs : List Revision)
    → revision_at id rev (keep (λ r. not (r.profile_id == k)) rs)
      ≡ (if id == k then none else revision_at id rev rs)
unfolding revision_at
revision_at-keep id rev k [] = ground arith
revision_at-keep id rev k (q ∷ qs) = ground (arith, revision_at-keep id rev k qs)
