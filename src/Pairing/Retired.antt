-- ===== src/Pairing/Retired.antt =====
-- `PairingSessionManager._retired`: how the last sessions ended, oldest first.
use android_streamdeck.Base.{
  ◌+◌, ◌≤◌, ◌≡◌, refl, Option, none, some, List, [], ◌∷◌, arith, length, ltb, if◌then◌else◌,
}
use android_streamdeck.Base.Text.{Text, text_eq, text_eq_iff}

pub data Ending : Type 0 where
  rotated used expired : Ending

abbrev pub Retired : Type 0
Retired = List (Text × Ending)

-- `self._retired.get(session_id)`
unfoldable pub ending_of : Text → Retired → Option Ending
ending_of id [] = none
ending_of id ((j, e) ∷ r) = if text_eq id j then some e else ending_of id r

-- `self._retired[session_id] = ending`
unfoldable pub retire : Text → Ending → Retired → Retired
retire id e [] = (id, e) ∷ []
retire id e ((j, f) ∷ r) = if text_eq id j then (j, e) ∷ r else (j, f) ∷ retire id e r

-- `_prune_retired_locked`: each round of its loop takes the oldest off.
unfoldable pub prune_retired : Retired → Retired
prune_retired [] = []
prune_retired (e ∷ r) =
    let rest = prune_retired r in if ltb 32 (length (e ∷ r)) then rest else e ∷ r

pub length-prune_retired : (r : Retired) → length (prune_retired r) ≤ 32
unfolding prune_retired
length-prune_retired [] = omega arith
length-prune_retired (e ∷ r) = ground (arith, length-prune_retired r)

pub length-retire : (id : Text) (e : Ending) (r : Retired) → length (retire id e r) ≤ length r + 1
unfolding retire
length-retire id e [] = omega arith
length-retire id e ((j, f) ∷ r) = ground (arith, length-retire id e r)

pub ending_of-retire :
    (id j : Text) (e : Ending) (r : Retired)
    → ending_of j (retire id e r) ≡ (if text_eq j id then some e else ending_of j r)
unfolding ending_of retire
ending_of-retire id j e [] = refl
ending_of-retire id j e ((i, f) ∷ r) =
    ground (arith, ending_of-retire id j e r, text_eq_iff id i, text_eq_iff j i, text_eq_iff j id)

-- An id that was not there is written last, and the pruning leaves the last one.
pub ending_of-prune_retired :
    (id : Text) (e : Ending) (r : Retired)
    → ending_of id r ≡ none
    → ending_of id (prune_retired (retire id e r)) ≡ some e
unfolding prune_retired retire ending_of
ending_of-prune_retired id e [] h = ground (arith, text_eq_iff id id)
ending_of-prune_retired id e ((j, f) ∷ r) h = ground (
  arith,
  ending_of-prune_retired id e r,
  ending_of-retire id id e r,
  text_eq_iff id id,
  text_eq_iff id j,
)
