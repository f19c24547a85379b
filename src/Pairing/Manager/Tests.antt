-- ===== src/Pairing/Manager/Tests.antt =====
-- The manager on concrete calls, with a library of simple functions.
use android_streamdeck.Base.{
  ◌≤◌, ◌≡◌, refl, ap, true, false, ◌&&◌, none, some, List, [], ◌∷◌, arith,
}
use android_streamdeck.Base.Text.{Text, codes, count_from, index_of}
use android_streamdeck.Pairing.Checks.{
  matches_session_id, matches_base32, matches_proof, matches_stable_id, require_private_ipv4,
  in_rfc1918, valid_ca_certificate_pem, check_certificate_body, normalize_pairing_code,
  clean_pairing_code,
}
use android_streamdeck.Pairing.Proof.{
  canonical_claim, derive_session_id, derive_pairing_key, compute_client_proof,
  canonical_claim_injective,
}
use android_streamdeck.Pairing.Retired.{ending_of}
use android_streamdeck.Pairing.Sample.{copies, toy}
use android_streamdeck.Pairing.Manager.Scan.{IsBundleOf, bootstrap-IsBundleOf}
use android_streamdeck.Pairing.Manager.{
  create_session, install_prepared, presentation_of, install_session, new_manager, Result,
  Presentation, PairingSession, Manager, ok, err, proof_invalid, claim, claim_session,
  claim_arguments_valid, bootstrap, bootstrap_locked, prepare_session, require_active,
  expire_session, select_session,
}
use android_streamdeck.Pairing.Manager.Calls.{
  Call, create, fetch, present, timer_fires, count, new_ledger, perform_all,
}
use android_streamdeck.Pairing.Manager.Invariant.{IsSound, manager-IsSound}
use android_streamdeck.Pairing.Manager.OneTime.{granted-le-created}
use android_streamdeck.Pairing.Manager.Access.{
  is_ok, claimable, claim_granted, wrong_proof_keeps_session,
}

abbrev pem : Text
pem = codes "-----BEGIN CERTIFICATE-----abc-----END CERTIFICATE-----"

abbrev address : Text
address = 167772161 ∷ []

abbrev salt : Text
salt = copies 16 3

abbrev session : PairingSession
session = record {
  session_id = copies 22 113;
  pairing_key = copies 32 69;
  salt = salt;
  expires_at = 600;
  deadline = 600000005;
  server_ip = address;
  port = 8443;
  ca_certificate_pem = pem;
  consumed = false;
}

abbrev holding : Manager
holding = record {
  session = some session;
  retired = [];
  timer = some session.session_id;
  dropped = [];
}

abbrev device : Text
device = codes "dev1"

abbrev version : Text
version = codes "1.0"

abbrev good_proof : Text
good_proof = copies 43 101

abbrev bad_proof : Text
bad_proof = copies 43 102

prepares : prepare_session toy address 8443 pem 0 5 (1 ∷ []) salt ≡ some (session, copies 26 66)
unfolding prepare_session require_private_ipv4 in_rfc1918 valid_ca_certificate_pem
    check_certificate_body count_from index_of normalize_pairing_code clean_pairing_code
    matches_base32 derive_session_id derive_pairing_key
prepares = refl

public_address_refused : require_private_ipv4 toy (3221225985 ∷ []) ≡ none
unfolding require_private_ipv4 in_rfc1918
public_address_refused = refl

grants : is_ok (claim toy session.session_id device version good_proof 10 holding).0 ≡ true
unfolding claim claim_session claim_arguments_valid matches_proof matches_stable_id
    matches_session_id require_active expire_session select_session compute_client_proof
    canonical_claim
grants = refl

refuses : (claim toy session.session_id device version bad_proof 10 holding).0 ≡ err proof_invalid
unfolding claim claim_session claim_arguments_valid matches_proof matches_stable_id
    matches_session_id require_active expire_session select_session compute_client_proof
    canonical_claim
refuses = refl

arguments_valid : claim_arguments_valid toy device version good_proof ≡ true
unfolding claim_arguments_valid matches_proof matches_stable_id
arguments_valid = refl

id_valid : matches_session_id session.session_id ≡ true
unfolding matches_session_id
id_valid = refl

nothing_ended : ending_of session.session_id holding.retired ≡ none
unfolding ending_of
nothing_ended = refl

serves_bundle : (bootstrap toy session.session_id 10 holding).0 ≡ ok (bootstrap_locked toy session)
unfolding bootstrap bootstrap_locked matches_session_id require_active expire_session select_session
serves_bundle = refl

-- Two sessions are created, the first is rotated out, and the second is claimed once.
abbrev script : List Call
script =
    create address 8443 pem 0 5 (1 ∷ []) salt
    ∷ create address 8443 pem 0 7 (1 ∷ []) salt
    ∷ fetch session.session_id 8
    ∷ present session.session_id device version good_proof 9
    ∷ present session.session_id device version good_proof 10
    ∷ timer_fires session.session_id 600000005
    ∷ count 11
    ∷ []

granted-le-created_example :
    (let l = perform_all toy session.session_id script new_ledger in l.granted ≤ l.created)
granted-le-created_example = granted-le-created toy session.session_id script

manager-IsSound_example : IsSound (perform_all toy session.session_id script new_ledger).manager
manager-IsSound_example = manager-IsSound toy session.session_id script

claim_granted_example :
    is_ok (claim toy session.session_id device version good_proof 10 holding).0
    ≡ claim_arguments_valid toy device version good_proof
      && matches_session_id session.session_id
      && claimable toy session.session_id device version good_proof 10 holding.session
claim_granted_example = claim_granted toy session.session_id device version good_proof 10 holding

wrong_proof_keeps_session_example :
    (claim toy session.session_id device version bad_proof 10 holding).1 ≡ holding
wrong_proof_keeps_session_example =
    wrong_proof_keeps_session toy session.session_id device version bad_proof 10 holding session
      refl (omega arith) refuses

creates :
    create_session toy address 8443 pem 0 5 (1 ∷ []) salt new_manager
    ≡ (ok (presentation_of toy session (copies 26 66)), install_session session none new_manager)
unfolding create_session install_prepared prepare_session require_private_ipv4 in_rfc1918
    valid_ca_certificate_pem check_certificate_body count_from index_of normalize_pairing_code
    clean_pairing_code matches_base32 derive_session_id derive_pairing_key
creates = refl

fetches :
    (bootstrap toy session.session_id 10
      (create_session toy address 8443 pem 0 5 (1 ∷ []) salt new_manager).1).0
    ≡ ok (bootstrap_locked toy session)
unfolding create_session install_prepared prepare_session require_private_ipv4 in_rfc1918
    valid_ca_certificate_pem check_certificate_body count_from index_of normalize_pairing_code
    clean_pairing_code matches_base32 derive_session_id derive_pairing_key install_session bootstrap
    bootstrap_locked matches_session_id require_active expire_session select_session
fetches = refl

bootstrap-IsBundleOf_example :
    IsBundleOf toy 5 10 pem salt
      (presentation_of toy session (copies 26 66))
      (bootstrap_locked toy session)
bootstrap-IsBundleOf_example =
    bootstrap-IsBundleOf toy address 8443 pem 0 5 (1 ∷ []) salt new_manager
      (presentation_of toy session (copies 26 66)) session.session_id 10
      (bootstrap_locked toy session) (ap (λ (r : Result Presentation × Manager). r.0) creates)
      fetches

device_valid : matches_stable_id device ≡ true
unfolding matches_stable_id
device_valid = refl

canonical_claim_injective_example :
    (session.session_id ≡ session.session_id) × (device ≡ device) × (version ≡ version)
canonical_claim_injective_example =
    canonical_claim_injective session.session_id device version session.session_id device version
      id_valid id_valid device_valid device_valid refl
