-- ===== src/RateLimit/Bounds.antt =====
-- The size and the order of what server/app/rate_limit.py stores.
use android_streamdeck.Base.{
  ℕ, suc, ◌≤◌, ◌≡◌, refl, Bool, true, List, [], ◌∷◌, ◌++◌, arith, length, inl, inr, keep, All,
  length-keep, length-append, All-append, All-keep, is_none, Option-cases,
}
use android_streamdeck.Base.Dict.{
  lookup, insert, erase, HasKeys, insert-HasKeys, erase-HasKeys, length-insert_new,
  length-insert_old, length-erase-le,
}
use android_streamdeck.RateLimit.{
  Limits, Attempts, is_recent, purge, attempts_of, record_attempt, allow, reset,
}

-- Times that do not decrease, none of them after `now`.
abbrev pub Ascends : ℕ → List ℕ → Type 0
Ascends now [] = Unit
Ascends now (t ∷ ts) = (t ≤ now) × All (λ u. t ≤ u) ts × Ascends now ts

-- What the stored attempts of one origin satisfy at the time `now`.
abbrev pub IsKept : Limits → ℕ → List ℕ → Type 0
IsKept c now ts = (length ts ≤ c.max_attempts) × Ascends now ts

abbrev pub AllKept : Limits → ℕ → Attempts → Type 0
AllKept c now [] = Unit
AllKept c now ((k, ts) ∷ d) = IsKept c now ts × AllKept c now d

pub record IsBounded (c : Limits) (now : ℕ) (d : Attempts) : Type 0 where
  pub keys : HasKeys d
  pub origins : length d ≤ c.max_origins
  pub kept : AllKept c now d

pub Ascends-later : {s t : ℕ} (ts : List ℕ) → s ≤ t → Ascends s ts → Ascends t ts
Ascends-later [] h a = tt
Ascends-later (x ∷ xs) h a = (omega arith, a.1, Ascends-later xs h a.2)

pub Ascends-keep : (now : ℕ) (p : ℕ → Bool) (ts : List ℕ) → Ascends now ts → Ascends now (keep p ts)
Ascends-keep now p [] a = tt
Ascends-keep now p (x ∷ xs) a =
    ground (arith, Ascends-keep now p xs a.2, All-keep (λ u. x ≤ u) p xs a.1)

below_now : (x now : ℕ) → x ≤ now → All (λ u. x ≤ u) (now ∷ [])
below_now x now h = (h, tt)

pub Ascends-append : (now : ℕ) (ts : List ℕ) → Ascends now ts → Ascends now (ts ++ now ∷ [])
Ascends-append now [] a = (omega arith, tt, tt)
Ascends-append now (x ∷ xs) a = (
  a.0,
  All-append (λ u. x ≤ u) xs (now ∷ []) a.1 (below_now x now a.0),
  Ascends-append now xs a.2,
)

AllKept-later : (c : Limits) {s t : ℕ} (d : Attempts) → s ≤ t → AllKept c s d → AllKept c t d
AllKept-later c [] h a = tt
AllKept-later c ((k, ts) ∷ d) h a = ((a.0.0, Ascends-later ts h a.0.1), AllKept-later c d h a.1)

pub IsBounded-later :
    {c : Limits} {s t : ℕ} (d : Attempts) → s ≤ t → IsBounded c s d → IsBounded c t d
IsBounded-later {c} d h b = record {
  keys = b.keys;
  origins = b.origins;
  kept = AllKept-later c d h b.kept;
}

AllKept-insert :
    (c : Limits) (now k : ℕ) (ts : List ℕ) (d : Attempts)
    → IsKept c now ts
    → AllKept c now d
    → AllKept c now (insert k ts d)
unfolding insert
AllKept-insert c now k ts [] h a = (h, tt)
AllKept-insert c now k ts ((j, us) ∷ d) h a = ground (arith, AllKept-insert c now k ts d h a.1)

AllKept-erase :
    (c : Limits) (now k : ℕ) (d : Attempts) → AllKept c now d → AllKept c now (erase k d)
unfolding erase
AllKept-erase c now k [] a = tt
AllKept-erase c now k ((j, us) ∷ d) a = ground (arith, AllKept-erase c now k d a.1)

pub AllKept-lookup :
    (c : Limits) (now k : ℕ) (d : Attempts) → AllKept c now d → IsKept c now (attempts_of k d)
unfolding lookup
AllKept-lookup c now k [] a = (omega arith, tt)
AllKept-lookup c now k ((j, us) ∷ d) a = ground (arith, AllKept-lookup c now k d a.1)

module _ (w now : ℕ) where
  pub lookup-purge_none :
      (k : ℕ) (d : Attempts)
      → is_none (lookup k d) ≡ true
      → is_none (lookup k (purge w now d)) ≡ true
  unfolding lookup purge
  lookup-purge_none k [] h = refl
  lookup-purge_none k ((j, ts) ∷ d) h = ground (arith, lookup-purge_none k d)

  purge-HasKeys : (d : Attempts) → HasKeys d → HasKeys (purge w now d)
  unfolding purge
  purge-HasKeys [] h = tt
  purge-HasKeys ((j, ts) ∷ d) h = ground (arith, purge-HasKeys d h.1, lookup-purge_none j d h.0)

  length-purge : (d : Attempts) → length (purge w now d) ≤ length d
  unfolding purge
  length-purge [] = omega arith
  length-purge ((j, ts) ∷ d) = ground (arith, length-purge d)

  AllKept-purge : (c : Limits) (d : Attempts) → AllKept c now d → AllKept c now (purge w now d)
  unfolding purge
  AllKept-purge c [] h = tt
  AllKept-purge c ((j, ts) ∷ d) h = ground (arith, AllKept-purge c d h.1)

pub purge-IsBounded :
    (c : Limits) (now : ℕ) (d : Attempts)
    → IsBounded c now d
    → IsBounded c now (purge c.window now d)
purge-IsBounded c now d b = record {
  keys = purge-HasKeys c.window now d b.keys;
  origins = omega (arith, length-purge c.window now d, b.origins);
  kept = AllKept-purge c.window now c d b.kept;
}

-- There is room to write the key: it is known, or there are fewer origins than the limit.
insert-origins :
    (n k : ℕ) (ts : List ℕ) (d : Attempts)
    → length d ≤ n
    → (is_none (lookup k d) ≡ true → suc (length d) ≤ n)
    → length (insert k ts d) ≤ n
insert-origins n k ts d h room = elim (Option-cases (lookup k d)) [
  | inl e ↦ omega (arith, length-insert_new k ts d e, room (rw e refl))
  | inr (us, e) ↦ omega (arith, length-insert_old k ts us d e)
]

module _ (c : Limits) (now key : ℕ) (d : Attempts) (b : IsBounded c now d) where
  insert-IsBounded :
      (ts : List ℕ)
      → IsKept c now ts
      → (is_none (lookup key d) ≡ true → suc (length d) ≤ c.max_origins)
      → IsBounded c now (insert key ts d)
  insert-IsBounded ts h room = record {
    keys = insert-HasKeys key ts d b.keys;
    origins = insert-origins c.max_origins key ts d b.origins room;
    kept = AllKept-insert c now key ts d h b.kept;
  }

  record_attempt-IsBounded :
      (recent : List ℕ)
      → IsKept c now recent
      → (is_none (lookup key d) ≡ true → suc (length d) ≤ c.max_origins)
      → IsBounded c now (record_attempt c now key recent d).1
  unfolding record_attempt
  record_attempt-IsBounded recent h room = ground (
    arith,
    insert-IsBounded recent h room,
    insert-IsBounded (recent ++ now ∷ []),
    Ascends-append now recent h.1,
    length-append recent (now ∷ []),
  )

-- A call at `now`, accepted or not, keeps the bounds: at most `max_origins` origins are stored, and
-- at most `max_attempts` times for each.
pub allow-IsBounded :
    (c : Limits) (now key : ℕ) (d : Attempts)
    → IsBounded c now d
    → IsBounded c now (allow c now key d).1
unfolding allow
allow-IsBounded c now key d b =
    let live = purge c.window now d in
    let v = purge-IsBounded c now d b in
    let ts = attempts_of key live in
    let kept = AllKept-lookup c now key live v.kept in
    let recent = is_recent c.window now in
    ground (
      arith,
      record_attempt-IsBounded c now key live v (keep recent ts),
      Ascends-keep now recent ts kept.1,
      length-keep recent ts,
    )

pub reset-IsBounded :
    (c : Limits) (now key : ℕ) (d : Attempts) → IsBounded c now d → IsBounded c now (reset key d)
unfolding reset
reset-IsBounded c now key d b = record {
  keys = erase-HasKeys key d b.keys;
  origins = omega (arith, length-erase-le key d, b.origins);
  kept = AllKept-erase c now key d b.kept;
}
