-- ===== src/Http/Frame.antt =====
-- Two kinds of statement about a handler of server/app/api.py, and how they compose: that it keeps a
-- predicate on the state, and that an error of it other than an internal one has changed nothing.
use android_streamdeck.Base.{◌≡◌, refl, ◌∙◌, Bool, true, false, ◌⊎◌, inl, inr}
use android_streamdeck.Http.{
  ApiError, State, Outcome, returned, raised, Handler, continue, ◌>>=◌, require,
}

abbrev pub Keeps : {A : Type 0} → (State → Type 0) → Handler A → Type 0
Keeps P m = (s : State) → P s → P (m s).1

pub bind-Keeps :
    {A B : Type 0} (P : State → Type 0) (m : Handler A) (f : A → Handler B)
    → Keeps P m
    → ((a : A) → Keeps P (f a))
    → Keeps P (m >>= f)
unfolding ◌>>=◌
bind-Keeps {A} {B} P m f km kf s v = go (m s) (km s v)
  where
    go : (r : Outcome A × State) → P r.1 → P (continue f r).1
    go (returned a, s') v' = kf a s' v'
    go (raised e, s') v' = v'

pub require-Keeps : (P : State → Type 0) (b : Bool) (e : ApiError) → Keeps P (require b e)
require-Keeps P true e s v = v
require-Keeps P false e s v = v

-- What the clients and the database see is the same; the limiters and the pairing manager may differ.
pub record IsSame (s s' : State) : Type 0 where
  pub db : s'.db ≡ s.db
  pub tables : s'.tables ≡ s.tables
  pub world : s'.world ≡ s.world

pub IsSame-refl : (s : State) → IsSame s s
IsSame-refl s = record { db = refl; tables = refl; world = refl }

pub IsSame-trans : (s1 s2 s3 : State) → IsSame s1 s2 → IsSame s2 s3 → IsSame s1 s3
IsSame-trans s1 s2 s3 p q = record {
  db = q.db ∙ p.db;
  tables = q.tables ∙ p.tables;
  world = q.world ∙ p.world;
}

-- The handler changes neither the database nor the websockets.
abbrev pub Reads : {A : Type 0} → Handler A → Type 0
Reads m = (s : State) → IsSame s (m s).1

abbrev pub CleanEnd : {A : Type 0} → State → Outcome A × State → Type 0
CleanEnd s (returned a, s') = Unit
CleanEnd s (raised e, s') = (e.status_code ≡ 500) ⊎ IsSame s s'

-- An error of the handler is an internal one, or has changed neither the database nor the websockets.
abbrev pub IsClean : {A : Type 0} → Handler A → Type 0
IsClean m = (s : State) → CleanEnd s (m s)

-- The handler raises internal errors only.
abbrev pub SafeEnd : {A : Type 0} → Outcome A × State → Type 0
SafeEnd (returned a, s') = Unit
SafeEnd (raised e, s') = e.status_code ≡ 500

abbrev pub IsSafe : {A : Type 0} → Handler A → Type 0
IsSafe m = (s : State) → SafeEnd (m s)

pub Reads-IsClean : {A : Type 0} (m : Handler A) → Reads m → IsClean m
Reads-IsClean {A} m k s = go (m s) (k s)
  where
    go : (r : Outcome A × State) → IsSame s r.1 → CleanEnd s r
    go (returned a, s') h = tt
    go (raised e, s') h = inr h

pub bind-Reads :
    {A B : Type 0} (m : Handler A) (f : A → Handler B)
    → Reads m
    → ((a : A) → Reads (f a))
    → Reads (m >>= f)
unfolding ◌>>=◌
bind-Reads {A} {B} m f km kf s = go (m s) (km s)
  where
    go : (r : Outcome A × State) → IsSame s r.1 → IsSame s (continue f r).1
    go (returned a, s') h = IsSame-trans s s' (f a s').1 h (kf a s')
    go (raised e, s') h = h

pub require-Reads : (b : Bool) (e : ApiError) → Reads (require b e)
require-Reads true e s = IsSame-refl s
require-Reads false e s = IsSame-refl s

-- Reading first leaves what follows clean.
pub Reads-then :
    {A B : Type 0} (m : Handler A) (f : A → Handler B)
    → Reads m
    → ((a : A) → IsClean (f a))
    → IsClean (m >>= f)
unfolding ◌>>=◌
Reads-then {A} {B} m f km kf s = go (m s) (km s)
  where
    later : (s1 s2 : State) (r : Outcome B × State) → IsSame s1 s2 → CleanEnd s2 r → CleanEnd s1 r
    later s1 s2 (returned b, s3) h k = tt
    later s1 s2 (raised e, s3) h (inl k) = inl k
    later s1 s2 (raised e, s3) h (inr k) = inr (IsSame-trans s1 s2 s3 h k)

    go : (r : Outcome A × State) → IsSame s r.1 → CleanEnd s (continue f r)
    go (returned a, s') h = later s s' (f a s') h (kf a s')
    go (raised e, s') h = inr h

-- After a clean handler, what raises internal errors only may change anything.
pub IsClean-then :
    {A B : Type 0} (m : Handler A) (f : A → Handler B)
    → IsClean m
    → ((a : A) → IsSafe (f a))
    → IsClean (m >>= f)
unfolding ◌>>=◌
IsClean-then {A} {B} m f km kf s = go (m s) (km s)
  where
    weaker : (r : Outcome B × State) → SafeEnd r → CleanEnd s r
    weaker (returned b, s2) h = tt
    weaker (raised e, s2) h = inl h

    go : (r : Outcome A × State) → CleanEnd s r → CleanEnd s (continue f r)
    go (returned a, s') h = weaker (f a s') (kf a s')
    go (raised e, s') h = h

pub bind-IsSafe :
    {A B : Type 0} (m : Handler A) (f : A → Handler B)
    → IsSafe m
    → ((a : A) → IsSafe (f a))
    → IsSafe (m >>= f)
unfolding ◌>>=◌
bind-IsSafe {A} {B} m f km kf s = go (m s) (km s)
  where
    go : (r : Outcome A × State) → SafeEnd r → SafeEnd (continue f r)
    go (returned a, s') h = kf a s'
    go (raised e, s') h = h
