-- ===== src/Pairing/Manager/Access.antt =====
-- What single calls of the manager return, and what they leave behind.
use android_streamdeck.Base.{
  ℕ, ◌<◌, ◌≡◌, refl, Bool, true, false, not, ◌&&◌, Option, none, some, arith, ltb,
}
use android_streamdeck.Base.Text.{Text, text_eq, text_eq_refl, text_eq_iff}
use android_streamdeck.Pairing.Library.{Library}
use android_streamdeck.Pairing.Checks.{matches_session_id}
use android_streamdeck.Pairing.Proof.{
  Bundle, compute_client_proof, compute_server_proof, verify_server_proof,
}
use android_streamdeck.Pairing.Manager.{
  PairingSession, Manager, Result, ok, err, proof_invalid, expire_session, select_session,
  require_active, bootstrap, bootstrap_locked, claim_session, claim_arguments_valid, claim,
}

abbrev pub is_ok : {A : Type 0} → Result A → Bool
is_ok (ok a) = true
is_ok (err e) = false

module _ (lib : Library) where
  -- A session with the id, before its deadline, not consumed, and the proof of its key.
  abbrev pub claimable : Text → Text → Text → Text → ℕ → Option PairingSession → Bool
  claimable id client version proof mono none = false
  claimable id client version proof mono (some s) =
      text_eq s.session_id id
      && ltb mono s.deadline
      && not s.consumed
      && text_eq proof (compute_client_proof lib s.pairing_key s.session_id client version)

  claim_some :
      (id client version proof : Text) (mono : ℕ) (m : Manager) (o : Option PairingSession)
      → m.session ≡ o
      → is_ok (claim lib id client version proof mono m).0
        ≡ claim_arguments_valid lib client version proof
          && matches_session_id id
          && claimable id client version proof mono o
  unfolding claim claim_session require_active expire_session select_session
  claim_some id client version proof mono m none e = ground arith
  claim_some id client version proof mono m (some s) e = ground arith

  -- A claim is granted exactly when its arguments and its session id are well formed, a session with
  -- that id is held, it is before that session's deadline and not consumed, and the proof is the one
  -- that the session's key gives for this id, client and version.
  pub claim_granted :
      (id client version proof : Text) (mono : ℕ) (m : Manager)
      → is_ok (claim lib id client version proof mono m).0
        ≡ claim_arguments_valid lib client version proof
          && matches_session_id id
          && claimable id client version proof mono m.session
  claim_granted id client version proof mono m =
      claim_some id client version proof mono m m.session refl

  -- A claim that is refused for its proof before the deadline has changed nothing: the session can
  -- still be claimed.
  pub wrong_proof_keeps_session :
      (id client version proof : Text) (mono : ℕ) (m : Manager) (s : PairingSession)
      → m.session ≡ some s
      → mono < s.deadline
      → (claim lib id client version proof mono m).0 ≡ err proof_invalid
      → (claim lib id client version proof mono m).1 ≡ m
  unfolding claim claim_session require_active expire_session select_session
  wrong_proof_keeps_session id client version proof mono m s held early refused = ground arith

  pub bootstrap_locked_verifies :
      (s : PairingSession) → verify_server_proof lib (bootstrap_locked lib s) s.pairing_key ≡ true
  unfolding bootstrap_locked verify_server_proof compute_server_proof
  bootstrap_locked_verifies s =
      text_eq_refl (compute_server_proof lib s.pairing_key (bootstrap_locked lib s))

  pub bootstrap_bundle :
      (id : Text) (mono : ℕ) (m : Manager) (s : PairingSession) (b : Bundle)
      → m.session ≡ some s
      → (bootstrap lib id mono m).0 ≡ ok b
      → (s.session_id ≡ id) × (mono < s.deadline) × (b ≡ bootstrap_locked lib s)
  unfolding bootstrap require_active expire_session select_session
  bootstrap_bundle id mono m s b held got = ground (arith, text_eq_iff s.session_id id)
