-- ===== src/Pairing/Manager/OneTime.antt =====
-- Creations and claims of one session id in a run (server/app/pairing_session.py), counted.
use android_streamdeck.Base.{
  ℕ, ◌+◌, ◌≤◌, ◌≡◌, refl, Bool, true, false, Option, none, some, List, [], ◌∷◌, arith,
  if◌then◌else◌, Bool-cases, inl, inr,
}
use android_streamdeck.Base.Text.{Text, text_eq}
use android_streamdeck.Pairing.Library.{Library}
use android_streamdeck.Pairing.Checks.{matches_session_id}
use android_streamdeck.Pairing.Retired.{Retired}
use android_streamdeck.Pairing.Manager.{
  PairingSession, Manager, Result, ok, err, expire_session, expire_if_needed, active_session_count,
  select_session, require_active, expire_from_timer_session, install_session, bootstrap,
  claim_session, claim, install_prepared, prepare_session, create_session,
}
use android_streamdeck.Pairing.Manager.Calls.{
  Call, create, fetch, present, count, timer_fires, created_here, granted_here, Ledger, new_ledger,
  perform, perform_all,
}

abbrev is_created : {A : Type 0} → Result A → Bool
is_created (ok a) = true
is_created (err e) = false

-- Whether the session that is held has this id, as a number.
abbrev pub held : Text → Option PairingSession → ℕ
held id none = 0
held id (some s) = if text_eq s.session_id id then 1 else 0

-- The session that `select_session` returns is the one that is held, with the id asked for.
select_session-ok :
    (id : Text) (o : Option PairingSession) (r : Retired) (s : PairingSession)
    → select_session id o r ≡ ok s
    → o ≡ some s
unfolding select_session
select_session-ok id none r s h = ground arith
select_session-ok id (some p) r s h = ground arith

expire_session-held :
    (id : Text) (mono : ℕ) (o : Option PairingSession) (m : Manager)
    → m.session ≡ o
    → held id (expire_session mono o m).session ≤ held id m.session
unfolding expire_session
expire_session-held id mono none m e = omega arith
expire_session-held id mono (some s) m e = ground arith

require_active-held :
    (id j : Text) (mono : ℕ) (m : Manager)
    → held id (require_active j mono m).1.session ≤ held id m.session
unfolding require_active
require_active-held id j mono m = ground (arith, expire_session-held id mono m.session m refl)

require_active-ok :
    (j : Text) (mono : ℕ) (m : Manager) (s : PairingSession)
    → (require_active j mono m).0 ≡ ok s
    → (require_active j mono m).1.session ≡ some s
unfolding require_active
require_active-ok j mono m s h = elim (Bool-cases (matches_session_id j)) [
  | inl e ↦
      let m' = expire_if_needed mono m in
      rw e (select_session-ok j m'.session m'.retired s (rw e at h))
  | inr e ↦ absurd (ground arith)
]

expire_from_timer_session-held :
    (id j : Text) (mono : ℕ) (o : Option PairingSession) (m : Manager)
    → m.session ≡ o
    → held id (expire_from_timer_session j mono o m).session ≤ held id m.session
unfolding expire_from_timer_session
expire_from_timer_session-held id j mono none m e = omega arith
expire_from_timer_session-held id j mono (some s) m e = ground arith

install_session-held :
    (id : Text) (new : PairingSession) (o : Option PairingSession) (m : Manager)
    → held id (install_session new o m).session ≡ held id (some new)
unfolding install_session
install_session-held id new none m = refl
install_session-held id new (some s) m = refl

module _ (lib : Library) (id : Text) where
  bootstrap-held :
      (j : Text) (mono : ℕ) (m : Manager)
      → held id (bootstrap lib j mono m).1.session ≤ held id m.session
  unfolding bootstrap
  bootstrap-held j mono m = ground (arith, require_active-held id j mono m)

  claim_session-held :
      (client version proof : Text) (r : Result PairingSession) (m : Manager)
      → ((s : PairingSession) → r ≡ ok s → m.session ≡ some s)
      → (let c = claim_session lib client version proof (r, m) in
          granted_here id c.0 + held id c.1.session ≤ held id m.session)
  unfolding claim_session
  claim_session-held client version proof (err e) m h = omega arith
  claim_session-held client version proof (ok s) m h = ground (arith, h s refl)

  claim-held :
      (j client version proof : Text) (mono : ℕ) (m : Manager)
      → (let c = claim lib j client version proof mono m in
          granted_here id c.0 + held id c.1.session ≤ held id m.session)
  unfolding claim
  claim-held j client version proof mono m =
      let (r, m') = require_active j mono m in
      ground (
        arith,
        claim_session-held client version proof r m' (require_active-ok j mono m),
        require_active-held id j mono m,
      )

  install_prepared-held :
      (o : Option (PairingSession × Text)) (m : Manager)
      → (let r = install_prepared lib o m in
          held id r.1.session
          ≤ created_here id r.0 + (if is_created r.0 then 0 else held id m.session))
  unfolding install_prepared
  install_prepared-held none m = omega arith
  install_prepared-held (some (s, c)) m = omega (arith, install_session-held id s m.session m)

  abbrev IsCounted : Ledger → Type 0
  IsCounted l = l.granted + held id l.manager.session ≤ l.created

  perform-IsCounted : (c : Call) (l : Ledger) → IsCounted l → IsCounted (perform lib id c l)
  unfolding perform active_session_count create_session
  perform-IsCounted (create ip port pem now mono bytes salt) l h =
      ground (
        arith,
        install_prepared-held (prepare_session lib ip port pem now mono bytes salt) l.manager,
      )
  perform-IsCounted (fetch j mono) l h = omega (arith, bootstrap-held j mono l.manager)
  perform-IsCounted (present j client version proof mono) l h =
      omega (arith, claim-held j client version proof mono l.manager)
  perform-IsCounted (count mono) l h =
      omega (arith, expire_session-held id mono l.manager.session l.manager refl)
  perform-IsCounted (timer_fires j mono) l h =
      omega (arith, expire_from_timer_session-held id j mono l.manager.session l.manager refl)

  perform_all-IsCounted :
      (cs : List Call) (l : Ledger) → IsCounted l → IsCounted (perform_all lib id cs l)
  unfolding perform_all
  perform_all-IsCounted [] l h = h
  perform_all-IsCounted (c ∷ cs) l h =
      perform_all-IsCounted cs (perform lib id c l) (perform-IsCounted c l h)

  -- However the calls are ordered and timed, the claims that were granted for an id are at most the
  -- sessions that were created with it: no session is claimed twice.
  pub granted-le-created :
      (cs : List Call) → (let l = perform_all lib id cs new_ledger in l.granted ≤ l.created)
  granted-le-created cs = omega (arith, perform_all-IsCounted cs new_ledger (omega arith))
