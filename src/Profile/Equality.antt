-- ===== src/Profile/Equality.antt =====
-- Equality of profiles: the comparisons of wire dictionaries, `snapshot == wire`.
use native.Mathlib.Decide.{ℕ_discrete}
use android_streamdeck.Base.{◌≡◌, ◌↔◌, refl, Bool, true, false}
use android_streamdeck.Profile.{Action, Button, Page, Profile}

pub Action-discrete : Discrete Action
Action-discrete = hlevel ℕ_discrete

pub Button-discrete : Discrete Button
Button-discrete = hlevel (ℕ_discrete, Action-discrete)

pub Page-discrete : Discrete Page
Page-discrete = hlevel (ℕ_discrete, Button-discrete)

pub Profile-discrete : Discrete Profile
Profile-discrete = hlevel (ℕ_discrete, Page-discrete)

abbrev pub decided : {P : Type 0} → Dec P → Bool
decided (yes p) = true
decided (no n) = false

-- `left.to_wire() == right.to_wire()`
unfoldable pub same_profile : Profile → Profile → Bool
same_profile p q = decided (Profile-discrete p q)

pub same_profile_iff : (p q : Profile) → (same_profile p q ≡ true) ↔ (p ≡ q)
unfolding same_profile
same_profile_iff p q = go (Profile-discrete p q)
  where
    go : (d : Dec (p ≡ q)) → (decided d ≡ true) ↔ (p ≡ q)
    go (yes e) = (λ h. e, λ h. refl)
    go (no n) = (λ h. absurd (cc (h)), λ h. absurd (n h))
