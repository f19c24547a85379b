-- ===== src/Base/Sort.antt =====
-- Python's `sorted` and SQL's `ORDER BY` and `LIMIT`, by insertion, which is stable.
use Prim.Native.Nat.{ℕ, zero, suc, ◌≤◌}
use mathlib.Core.Path.{◌≡◌, refl}
use mathlib.Core.Bool.{Bool, true, false, ◌||◌}
use mathlib.Core.List.{List, [], ◌∷◌}
use native.Mathlib.Omega.{arith}
use android_streamdeck.Base.Tests.{if◌then◌else◌}
use android_streamdeck.Base.Lists.{length, any, All}

module _ {ℓ} {A : Type ℓ} where
  unfoldable pub insert_by : (A → A → Bool) → A → List A → List A
  insert_by before x [] = x ∷ []
  insert_by before x (y ∷ ys) = if before x y then x ∷ y ∷ ys else y ∷ insert_by before x ys

  -- `before x y`: x may stand in front of y
  unfoldable pub sort_by : (A → A → Bool) → List A → List A
  sort_by before [] = []
  sort_by before (x ∷ xs) = insert_by before x (sort_by before xs)

  -- `LIMIT n`
  abbrev pub take : ℕ → List A → List A
  take zero xs = []
  take (suc n) [] = []
  take (suc n) (x ∷ xs) = x ∷ take n xs

  -- Every two neighbours are in order.
  abbrev pub is_before_first : (A → A → Bool) → A → List A → Bool
  is_before_first before x [] = true
  is_before_first before x (y ∷ ys) = before x y

  abbrev pub IsAscending : (A → A → Bool) → List A → Type 0
  IsAscending before [] = Unit
  IsAscending before (x ∷ xs) = (is_before_first before x xs ≡ true) × IsAscending before xs

  insert_by-first :
      (before : A → A → Bool) (x y : A) (ys : List A)
      → before y x ≡ true
      → is_before_first before y ys ≡ true
      → is_before_first before y (insert_by before x ys) ≡ true
  unfolding insert_by
  insert_by-first before x y [] h k = h
  insert_by-first before x y (z ∷ zs) h k = ground arith

  insert_by-IsAscending :
      (before : A → A → Bool) (x : A) (ys : List A)
      → ((a b : A) → before a b ≡ false → before b a ≡ true)
      → IsAscending before ys
      → IsAscending before (insert_by before x ys)
  unfolding insert_by
  insert_by-IsAscending before x [] total h = (refl, tt)
  insert_by-IsAscending before x (y ∷ ys) total h = ground (
    arith,
    total x y,
    h,
    insert_by-first before x y ys,
    insert_by-IsAscending before x ys total h.1,
  )

  pub sort_by-IsAscending :
      (before : A → A → Bool) (xs : List A)
      → ((a b : A) → before a b ≡ false → before b a ≡ true)
      → IsAscending before (sort_by before xs)
  unfolding sort_by
  sort_by-IsAscending before [] total = tt
  sort_by-IsAscending before (x ∷ xs) total =
      insert_by-IsAscending before x (sort_by before xs) total (sort_by-IsAscending before xs total)

  take-first :
      (before : A → A → Bool) (n : ℕ) (x : A) (xs : List A)
      → is_before_first before x xs ≡ true
      → is_before_first before x (take n xs) ≡ true
  take-first before zero x xs h = refl
  take-first before (suc n) x [] h = refl
  take-first before (suc n) x (y ∷ ys) h = h

  pub take-IsAscending :
      (before : A → A → Bool) (n : ℕ) (xs : List A)
      → IsAscending before xs
      → IsAscending before (take n xs)
  take-IsAscending before zero xs h = tt
  take-IsAscending before (suc n) [] h = tt
  take-IsAscending before (suc n) (x ∷ xs) h =
      (take-first before n x xs h.0, take-IsAscending before n xs h.1)

  pub length-take : (n : ℕ) (xs : List A) → length (take n xs) ≤ n
  length-take zero xs = omega arith
  length-take (suc n) [] = omega arith
  length-take (suc n) (x ∷ xs) = omega (arith, length-take n xs)

  pub All-take {κ} : (P : A → Type κ) (n : ℕ) (xs : List A) → All P xs → All P (take n xs)
  All-take P zero xs h = tt
  All-take P (suc n) [] h = tt
  All-take P (suc n) (x ∷ xs) h = (h.0, All-take P n xs h.1)

  any-insert_by :
      (p : A → Bool) (before : A → A → Bool) (x : A) (ys : List A)
      → any p (insert_by before x ys) ≡ (p x || any p ys)
  unfolding insert_by
  any-insert_by p before x [] = refl
  any-insert_by p before x (y ∷ ys) = ground (arith, any-insert_by p before x ys)

  -- Sorting keeps what is there.
  pub any-sort_by :
      (p : A → Bool) (before : A → A → Bool) (xs : List A) → any p (sort_by before xs) ≡ any p xs
  unfolding sort_by
  any-sort_by p before [] = refl
  any-sort_by p before (x ∷ xs) =
      ground (arith, any-insert_by p before x (sort_by before xs), any-sort_by p before xs)

  All-insert_by {κ} :
      (P : A → Type κ) (before : A → A → Bool) (x : A) (ys : List A)
      → P x
      → All P ys
      → All P (insert_by before x ys)
  unfolding insert_by
  All-insert_by P before x [] hx h = (hx, tt)
  All-insert_by P before x (y ∷ ys) hx h =
      let rest = All-insert_by P before x ys hx h.1 in ground (arith, hx, h, rest)

  pub All-sort_by {κ} :
      (P : A → Type κ) (before : A → A → Bool) (xs : List A) → All P xs → All P (sort_by before xs)
  unfolding sort_by
  All-sort_by P before [] h = tt
  All-sort_by P before (x ∷ xs) h =
      All-insert_by P before x (sort_by before xs) h.0 (All-sort_by P before xs h.1)
