-- ===== src/Base/Dict.antt =====
-- A Python dict with keys that are named by numbers, in insertion order: `d[k] = v` leaves a
-- key that is there in its place and puts a new one last.
use Prim.Native.Nat.{ℕ, ◌+◌, ◌≤◌}
use mathlib.Core.Path.{◌≡◌, refl}
use mathlib.Core.Logic.{◌≢◌}
use mathlib.Core.Bool.{true}
use mathlib.Core.Option.{Option, none, some}
use mathlib.Core.List.{List, [], ◌∷◌}
use native.Mathlib.Omega.{arith}
use android_streamdeck.Base.Tests.{◌==◌, if◌then◌else◌, is_none}
use android_streamdeck.Base.Lists.{length}

abbrev pub Dict {ℓ} : Type ℓ → Type ℓ
Dict V = List (ℕ × V)

module _ {ℓ} {V : Type ℓ} where
  -- `d.get(k)`
  unfoldable pub lookup : ℕ → Dict V → Option V
  lookup k [] = none
  lookup k ((j, v) ∷ d) = if k == j then some v else lookup k d

  -- `d[k] = v`
  unfoldable pub insert : ℕ → V → Dict V → Dict V
  insert k v [] = (k, v) ∷ []
  insert k v ((j, w) ∷ d) = if k == j then (j, v) ∷ d else (j, w) ∷ insert k v d

  -- `d.pop(k, None)`
  unfoldable pub erase : ℕ → Dict V → Dict V
  erase k [] = []
  erase k ((j, w) ∷ d) = if k == j then d else (j, w) ∷ erase k d

  -- no key is listed twice
  abbrev pub HasKeys : Dict V → Type 0
  HasKeys [] = Unit
  HasKeys ((j, w) ∷ d) = (is_none (lookup j d) ≡ true) × HasKeys d

  pub lookup-insert :
      (k j : ℕ) (v : V) (d : Dict V)
      → lookup j (insert k v d) ≡ (if j == k then some v else lookup j d)
  unfolding lookup insert
  lookup-insert k j v [] = refl
  lookup-insert k j v ((i, w) ∷ d) = ground (arith, lookup-insert k j v d)

  pub lookup-erase :
      (k j : ℕ) (d : Dict V)
      → HasKeys d
      → lookup j (erase k d) ≡ (if j == k then none else lookup j d)
  unfolding lookup erase
  lookup-erase k j [] h = ground arith
  lookup-erase k j ((i, w) ∷ d) h = ground (arith, lookup-erase k j d h.1)

  pub lookup-erase_ne : (k j : ℕ) (d : Dict V) → j ≢ k → lookup j (erase k d) ≡ lookup j d
  unfolding lookup erase
  lookup-erase_ne k j [] h = refl
  lookup-erase_ne k j ((i, w) ∷ d) h = ground (arith, lookup-erase_ne k j d h)

  pub insert-HasKeys : (k : ℕ) (v : V) (d : Dict V) → HasKeys d → HasKeys (insert k v d)
  unfolding lookup insert
  insert-HasKeys k v [] h = (refl, tt)
  insert-HasKeys k v ((i, w) ∷ d) h =
      ground (arith, insert-HasKeys k v d h.1, lookup-insert k i v d)

  pub erase-HasKeys : (k : ℕ) (d : Dict V) → HasKeys d → HasKeys (erase k d)
  unfolding erase
  erase-HasKeys k [] h = tt
  erase-HasKeys k ((i, w) ∷ d) h = ground (arith, erase-HasKeys k d h.1, lookup-erase_ne k i d)

  pub length-insert_new :
      (k : ℕ) (v : V) (d : Dict V) → lookup k d ≡ none → length (insert k v d) ≡ length d + 1
  unfolding lookup insert
  length-insert_new k v [] h = refl
  length-insert_new k v ((i, w) ∷ d) h = ground (arith, length-insert_new k v d)

  pub length-insert_old :
      (k : ℕ) (v w : V) (d : Dict V) → lookup k d ≡ some w → length (insert k v d) ≡ length d
  unfolding lookup insert
  length-insert_old k v w [] h = ground arith
  length-insert_old k v w ((i, u) ∷ d) h = ground (arith, length-insert_old k v w d)

  pub length-insert-le : (k : ℕ) (v : V) (d : Dict V) → length (insert k v d) ≤ length d + 1
  unfolding insert
  length-insert-le k v [] = omega arith
  length-insert-le k v ((i, u) ∷ d) = ground (arith, length-insert-le k v d)

  pub length-erase-le : (k : ℕ) (d : Dict V) → length (erase k d) ≤ length d
  unfolding erase
  length-erase-le k [] = omega arith
  length-erase-le k ((i, u) ∷ d) = ground (arith, length-erase-le k d)

  pub length-erase_old :
      (k : ℕ) (w : V) (d : Dict V) → lookup k d ≡ some w → length (erase k d) + 1 ≡ length d
  unfolding lookup erase
  length-erase_old k w [] h = ground arith
  length-erase_old k w ((i, u) ∷ d) h = ground (arith, length-erase_old k w d)

pub lookup-nil {ℓ} : {V : Type ℓ} (k : ℕ) → lookup {V = V} k [] ≡ none
unfolding lookup
lookup-nil k = refl
