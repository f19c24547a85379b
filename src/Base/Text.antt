-- ===== src/Base/Text.antt =====
-- Python texts as lists of code points: equality, search, and the character classes of the
-- regular expressions.
use Prim.Native.Nat.{ℕ, zero, suc, ◌+◌, ◌-◌}
use Prim.Native.Char.{code}
use Prim.Native.String.{String}
use mathlib.Core.Path.{◌≡◌, refl, ap}
use mathlib.Core.Logic.{◌↔◌, ◌≢◌}
use mathlib.Core.Bool.{Bool, true, false, not, ◌&&◌, ◌||◌}
use mathlib.Core.Option.{Option, none, some}
use mathlib.Core.List.{List, [], ◌∷◌, ◌++◌, reverse}
use native.Mathlib.Omega.{arith}
use android_streamdeck.Base.Tests.{◌==◌, leb, if◌then◌else◌}
use android_streamdeck.Base.Lists.{length, all, keep}

abbrev pub Text : Type 0
Text = List ℕ

-- the code points of a literal
abbrev pub codes : String → Text
codes String.[] = []
codes (String.◌∷◌ c s) = code c ∷ codes s

abbrev pub text_eq : Text → Text → Bool
text_eq [] [] = true
text_eq [] (y ∷ ys) = false
text_eq (x ∷ xs) [] = false
text_eq (x ∷ xs) (y ∷ ys) = x == y && text_eq xs ys

pub text_eq→≡ : (xs ys : Text) → text_eq xs ys ≡ true → xs ≡ ys
text_eq→≡ [] [] h = refl
text_eq→≡ [] (y ∷ ys) h = cc
text_eq→≡ (x ∷ xs) [] h = cc
text_eq→≡ (x ∷ xs) (y ∷ ys) h = ground (arith, text_eq→≡ xs ys)

pub text_eq_refl : (xs : Text) → text_eq xs xs ≡ true
text_eq_refl [] = refl
text_eq_refl (x ∷ xs) = ground (arith, text_eq_refl xs)

pub text_eq_iff : (xs ys : Text) → (text_eq xs ys ≡ true) ↔ (xs ≡ ys)
text_eq_iff xs ys = (text_eq→≡ xs ys, λ e. rw e (text_eq_refl ys))

-- `[A-Za-z0-9]`
abbrev pub is_alphanumeric : ℕ → Bool
is_alphanumeric c =
    (leb b'A' c && leb c b'Z') || (leb b'a' c && leb c b'z') || (leb b'0' c && leb c b'9')

-- `text.startswith(p)`
abbrev pub starts_with : Text → Text → Bool
starts_with [] text = true
starts_with (p ∷ ps) [] = false
starts_with (p ∷ ps) (x ∷ xs) = p == x && starts_with ps xs

-- `text.index(p)`, if it is there
unfoldable pub index_of : Text → Text → Option ℕ
index_of p [] = if starts_with p [] then some 0 else none
index_of p (x ∷ xs) =
    if starts_with p (x ∷ xs)
    then some 0
    else elim (index_of p xs) [ none ↦ none | some i ↦ some (suc i) ]

-- `text.count(p)` for a text `p` that is not empty: occurrences that do not overlap. `skip` characters
-- belong to the last one found.
unfoldable pub count_from : Text → ℕ → Text → ℕ
count_from p skip [] = 0
count_from p zero (x ∷ xs) =
    let found = starts_with p (x ∷ xs) in
    (if found then 1 else 0) + count_from p (if found then length p - 1 else 0) xs
count_from p (suc skip) (x ∷ xs) = count_from p skip xs

-- `text[a:b]`
abbrev pub drop : ℕ → Text → Text
drop zero xs = xs
drop (suc n) [] = []
drop (suc n) (x ∷ xs) = drop n xs

abbrev pub take : ℕ → Text → Text
take zero xs = []
take (suc n) [] = []
take (suc n) (x ∷ xs) = x ∷ take n xs

abbrev pub slice : ℕ → ℕ → Text → Text
slice a b xs = take (b - a) (drop a xs)

-- What `strip` takes off at the left, for a given test for white space.
abbrev pub lstrip : (ℕ → Bool) → Text → Text
lstrip is_space [] = []
lstrip is_space (x ∷ xs) = if is_space x then lstrip is_space xs else x ∷ xs

-- `text.strip()`
abbrev pub strip : (ℕ → Bool) → Text → Text
strip is_space xs = reverse (lstrip is_space (reverse (lstrip is_space xs)))

-- `"".join(text.split())`
abbrev pub without_space : (ℕ → Bool) → Text → Text
without_space is_space xs = keep (λ c. not (is_space c)) xs

-- A text with no `c` in it.
abbrev pub Lacks : ℕ → Text → Type 0
Lacks c [] = Unit
Lacks c (x ∷ xs) = (x ≢ c) × Lacks c xs

pub all-Lacks : (p : ℕ → Bool) (c : ℕ) (xs : Text) → p c ≡ false → all p xs ≡ true → Lacks c xs
all-Lacks p c [] h a = tt
all-Lacks p c (x ∷ xs) h a = ((λ e. ground (arith, ap p e)), all-Lacks p c xs h (ground arith))

-- A text is cut at a separator in one way.
pub append_separator_injective :
    (c : ℕ) (xs ys r s : Text)
    → Lacks c xs
    → Lacks c ys
    → xs ++ c ∷ r ≡ ys ++ c ∷ s
    → (xs ≡ ys) × (r ≡ s)
append_separator_injective c [] [] r s lx ly e = (refl, cc)
append_separator_injective c [] (y ∷ ys) r s lx ly e = ground arith
append_separator_injective c (x ∷ xs) [] r s lx ly e = ground arith
append_separator_injective c (x ∷ xs) (y ∷ ys) r s lx ly e =
    let ih = append_separator_injective c xs ys r s lx.1 ly.1 (cc) in (cc ih.0, ih.1)

pub append_cancel : (p xs ys : Text) → p ++ xs ≡ p ++ ys → xs ≡ ys
append_cancel [] xs ys e = e
append_cancel (x ∷ p) xs ys e = append_cancel p xs ys (cc)
