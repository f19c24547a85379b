-- ===== src/Pairing/Manager/Invariant.antt =====
-- A well-formedness predicate on `PairingSessionManager` (server/app/pairing_session.py), and its
-- operations: the retired ids, the timer, the session and the keys of sessions that ended.
use android_streamdeck.Base.{
  ℕ, ◌≤◌, ◌≡◌, refl, true, false, Option, none, some, List, [], ◌∷◌, ◌++◌, arith, length, All,
  All-append, Bool-cases, leb, inl, inr,
}
use android_streamdeck.Base.Text.{Text}
use android_streamdeck.Pairing.Library.{Library}
use android_streamdeck.Pairing.Checks.{matches_session_id}
use android_streamdeck.Pairing.Retired.{
  Ending, rotated, used, expired, retire, length-prune_retired,
}
use android_streamdeck.Pairing.Manager.{
  PairingSession, Manager, new_manager, Result, ok, err, clear_material, end_session,
  expire_session, active_session_count, require_active, expire_from_timer_session, install_session,
  bootstrap, claim_session, claim, install_prepared, prepare_session, create_session,
}
use android_streamdeck.Pairing.Manager.Calls.{
  Call, create, fetch, present, count, timer_fires, Ledger, new_ledger, perform, perform_all,
}

-- The timer that belongs to a session.
abbrev pub timer_for : Option PairingSession → Option Text
timer_for none = none
timer_for (some s) = some s.session_id

abbrev pub IsOpen : Option PairingSession → Type 0
IsOpen none = Unit
IsOpen (some s) = s.consumed ≡ false

-- The key and the salt are gone.
abbrev pub IsWiped : PairingSession → Type 0
IsWiped s = (s.pairing_key ≡ []) × (s.salt ≡ [])

pub record IsSound (m : Manager) : Type 0 where
  pub few_retired : length m.retired ≤ 32
  pub timer_matches : m.timer ≡ timer_for m.session
  pub not_consumed : IsOpen m.session
  pub wiped : All IsWiped m.dropped

IsWiped-more :
    (ds : List PairingSession) (s : PairingSession)
    → All IsWiped ds
    → All IsWiped (ds ++ clear_material s ∷ [])
IsWiped-more ds s h = All-append IsWiped ds (clear_material s ∷ []) h ((refl, refl), tt)

end_session-IsSound :
    (how : Ending) (s : PairingSession) (m : Manager) → IsSound m → IsSound (end_session how s m)
end_session-IsSound how s m v = record {
  few_retired = length-prune_retired (retire s.session_id how m.retired);
  timer_matches = refl;
  not_consumed = tt;
  wiped = IsWiped-more m.dropped s v.wiped;
}

expire_session-IsSound :
    (mono : ℕ) (o : Option PairingSession) (m : Manager)
    → IsSound m
    → IsSound (expire_session mono o m)
unfolding expire_session
expire_session-IsSound mono none m v = v
expire_session-IsSound mono (some s) m v = elim (Bool-cases (leb s.deadline mono)) [
  | inl e ↦ rw e (end_session-IsSound expired s m v)
  | inr e ↦ rw e v
]

require_active-IsSound :
    (id : Text) (mono : ℕ) (m : Manager) → IsSound m → IsSound (require_active id mono m).1
unfolding require_active
require_active-IsSound id mono m v = elim (Bool-cases (matches_session_id id)) [
  | inl e ↦ rw e (expire_session-IsSound mono m.session m v)
  | inr e ↦ rw e v
]

pub expire_from_timer_session-IsSound :
    (id : Text) (mono : ℕ) (o : Option PairingSession) (m : Manager)
    → m.session ≡ o
    → IsSound m
    → IsSound (expire_from_timer_session id mono o m)
unfolding expire_from_timer_session
expire_from_timer_session-IsSound id mono none m e v = v
expire_from_timer_session-IsSound id mono (some s) m e v =
    let ended = end_session-IsSound expired s m v in ground (arith, ended, v)

install_session-IsSound :
    (new : PairingSession) (o : Option PairingSession) (m : Manager)
    → new.consumed ≡ false
    → IsSound m
    → IsSound (install_session new o m)
unfolding install_session
install_session-IsSound new none m fresh v = record {
  few_retired = length-prune_retired m.retired;
  timer_matches = refl;
  not_consumed = fresh;
  wiped = v.wiped;
}
install_session-IsSound new (some old) m fresh v = record {
  few_retired = length-prune_retired (retire old.session_id rotated m.retired);
  timer_matches = refl;
  not_consumed = fresh;
  wiped = IsWiped-more m.dropped old v.wiped;
}

pub new_manager-IsSound : IsSound new_manager
new_manager-IsSound = record {
  few_retired = omega arith;
  timer_matches = refl;
  not_consumed = tt;
  wiped = tt;
}

module _ (lib : Library) where
  prepare_session-open :
      (ip : Text) (port : ℕ) (pem : Text) (now mono : ℕ) (bytes salt : Text) {s : PairingSession}
      {c : Text}
      → prepare_session lib ip port pem now mono bytes salt ≡ some (s, c)
      → s.consumed ≡ false
  unfolding prepare_session
  prepare_session-open ip port pem now mono bytes salt h = ground arith

  pub bootstrap-IsSound :
      (id : Text) (mono : ℕ) (m : Manager) → IsSound m → IsSound (bootstrap lib id mono m).1
  unfolding bootstrap
  bootstrap-IsSound id mono m v = elim (Bool-cases (matches_session_id id)) [
    | inl e ↦ rw e (require_active-IsSound id mono m v)
    | inr e ↦ rw e v
  ]

  claim_session-IsSound :
      (client version proof : Text) (r : Result PairingSession) (m : Manager)
      → IsSound m
      → IsSound (claim_session lib client version proof (r, m)).1
  unfolding claim_session
  claim_session-IsSound client version proof (err e) m v = v
  claim_session-IsSound client version proof (ok s) m v =
      ground (arith, end_session-IsSound used (record s { consumed = true }) m v)

  pub claim-IsSound :
      (id client version proof : Text) (mono : ℕ) (m : Manager)
      → IsSound m
      → IsSound (claim lib id client version proof mono m).1
  unfolding claim
  claim-IsSound id client version proof mono m v =
      let (r, m') = require_active id mono m in
      ground (
        arith,
        v,
        claim_session-IsSound client version proof r m' (require_active-IsSound id mono m v),
      )

  install_prepared-IsSound :
      (o : Option (PairingSession × Text)) (m : Manager)
      → ((s : PairingSession) (c : Text) → o ≡ some (s, c) → s.consumed ≡ false)
      → IsSound m
      → IsSound (install_prepared lib o m).1
  unfolding install_prepared
  install_prepared-IsSound none m fresh v = v
  install_prepared-IsSound (some (s, c)) m fresh v =
      install_session-IsSound s m.session m (fresh s c refl) v

  pub create_session-IsSound :
      (ip : Text) (port : ℕ) (pem : Text) (now mono : ℕ) (bytes salt : Text) (m : Manager)
      → IsSound m
      → IsSound (create_session lib ip port pem now mono bytes salt m).1
  unfolding create_session
  create_session-IsSound ip port pem now mono bytes salt m v =
      install_prepared-IsSound (prepare_session lib ip port pem now mono bytes salt) m
        (λ s c e. prepare_session-open ip port pem now mono bytes salt e) v

  perform-IsSound :
      (id : Text) (c : Call) (l : Ledger) → IsSound l.manager → IsSound (perform lib id c l).manager
  unfolding perform active_session_count
  perform-IsSound id (create ip port pem now mono bytes salt) l v =
      create_session-IsSound ip port pem now mono bytes salt l.manager v
  perform-IsSound id (fetch j mono) l v = bootstrap-IsSound j mono l.manager v
  perform-IsSound id (present j client version proof mono) l v =
      claim-IsSound j client version proof mono l.manager v
  perform-IsSound id (count mono) l v = expire_session-IsSound mono l.manager.session l.manager v
  perform-IsSound id (timer_fires j mono) l v =
      expire_from_timer_session-IsSound j mono l.manager.session l.manager refl v

  perform_all-IsSound :
      (id : Text) (cs : List Call) (l : Ledger)
      → IsSound l.manager
      → IsSound (perform_all lib id cs l).manager
  unfolding perform_all
  perform_all-IsSound id [] l v = v
  perform_all-IsSound id (c ∷ cs) l v =
      perform_all-IsSound id cs (perform lib id c l) (perform-IsSound id c l v)

  -- After any calls on a new manager, timers firing at any time included: at most 32 ended sessions
  -- are remembered, a timer is armed exactly while a session is held and then for its id, the
  -- session that is held is not consumed, and every session object that was let go of has an empty
  -- key and an empty salt.
  pub manager-IsSound :
      (id : Text) (cs : List Call) → IsSound (perform_all lib id cs new_ledger).manager
  manager-IsSound id cs = perform_all-IsSound id cs new_ledger new_manager-IsSound
