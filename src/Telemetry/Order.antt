-- ===== src/Telemetry/Order.antt =====
-- The order of tuples of integers by which server/app/gpu_telemetry.py compares cards.
use android_streamdeck.Base.{◌≡◌, refl, true, false, List, [], ◌∷◌, arith}
use android_streamdeck.Telemetry.{ℤ, pos, negsuc, above, tuple_above}

above_asym : (a b : ℤ) → above a b ≡ true → above b a ≡ false
above_asym (pos a) (pos b) h = ground arith
above_asym (pos a) (negsuc b) h = refl
above_asym (negsuc a) (pos b) h = absurd (cc)
above_asym (negsuc a) (negsuc b) h = ground arith

-- What is above `b` is above all that `b` is not below.
above_weak : (a b c : ℤ) → above a b ≡ true → above c b ≡ false → above a c ≡ true
above_weak (pos a) (pos b) (pos c) h k = ground arith
above_weak (pos a) (negsuc b) (pos c) h k = absurd (cc)
above_weak (pos a) b (negsuc c) h k = refl
above_weak (negsuc a) (pos b) c h k = absurd (cc)
above_weak (negsuc a) (negsuc b) (pos c) h k = absurd (cc)
above_weak (negsuc a) (negsuc b) (negsuc c) h k = ground arith

pub tuple_asym : (xs ys : List ℤ) → tuple_above xs ys ≡ true → tuple_above ys xs ≡ false
tuple_asym [] ys h = absurd (cc)
tuple_asym (x ∷ xs) [] h = refl
tuple_asym (x ∷ xs) (y ∷ ys) h = ground (arith, above_asym x y, above_asym y x, tuple_asym xs ys)

pub tuple_weak :
    (xs ys zs : List ℤ)
    → tuple_above xs ys ≡ true
    → tuple_above zs ys ≡ false
    → tuple_above xs zs ≡ true
tuple_weak [] ys zs h k = absurd (cc)
tuple_weak (x ∷ xs) ys [] h k = refl
tuple_weak (x ∷ xs) [] (z ∷ zs) h k = absurd (cc)
tuple_weak (x ∷ xs) (y ∷ ys) (z ∷ zs) h k = ground (
  arith,
  above_weak x y z,
  above_weak y z x,
  above_weak z x y,
  above_weak x z y,
  above_weak z y x,
  above_weak y x z,
  above_asym x z,
  tuple_weak xs ys zs,
)
