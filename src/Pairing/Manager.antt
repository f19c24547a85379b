-- ===== src/Pairing/Manager.antt =====
-- `PairingSessionManager` of server/app/pairing_session.py.
-- Both clocks count microseconds; `now` is the wall clock and `mono` the monotonic one. The random
-- bytes that `secrets.token_bytes` returns are arguments. Each method holds the lock, so it is one
-- step; a timer that fires is a call of `expire_from_timer`, which may come at any time, since a
-- timer that has begun to run is not stopped by `cancel`.
pub mod Invariant
pub mod OneTime
pub mod Access
pub mod Scan
pub mod Calls
mod Tests
use android_streamdeck.Base.{
  ℕ, ◌+◌, ◌-◌, ◌/◌, Bool, true, false, not, ◌&&◌, ◌||◌, Option, none, some, List, [], ◌∷◌, ◌++◌,
  length, any, ltb, leb, if◌then◌else◌, ◌>>=◌, guarded,
}
use android_streamdeck.Base.Text.{Text, codes, text_eq}
use android_streamdeck.Pairing.Library.{Library}
use android_streamdeck.Pairing.Checks.{
  matches_session_id, matches_proof, matches_stable_id, require_private_ipv4,
  valid_ca_certificate_pem, normalize_pairing_code,
}
use android_streamdeck.Pairing.Proof.{
  Bundle, derive_session_id, derive_pairing_key, compute_client_proof, compute_server_proof,
}
use android_streamdeck.Pairing.Retired.{
  Retired, Ending, rotated, used, expired, ending_of, retire, prune_retired,
}

-- `PAIRING_TTL`, ten minutes, in seconds and in microseconds
abbrev pub ttl_seconds : ℕ
ttl_seconds = 600

abbrev pub ttl : ℕ
ttl = 600000000

-- `_PairingSession`
pub record PairingSession : Type 0 where
  pub session_id : Text
  pub pairing_key : Text
  pub salt : Text
  pub expires_at : ℕ
  pub deadline : ℕ
  pub server_ip : Text
  pub port : ℕ
  pub ca_certificate_pem : Text
  pub consumed : Bool

-- `PairingSessionPresentation`
pub record Presentation : Type 0 where
  pub session_id : Text
  pub pairing_code : Text
  pub expires_at : Text
  pub server_ip : Text
  pub port : ℕ
  pub qr_uri : Text

-- `PairingClaim`
pub record Claim : Type 0 where
  pub session_id : Text
  pub client_id : Text
  pub client_version : Text
  pub server_ip : Text
  pub port : ℕ
  pub ca_certificate_pem : Text

-- The manager's fields; a timer is the argument that it was started with. `dropped` lists the
-- session objects that the manager has let go of, as it left them.
pub record Manager : Type 0 where
  pub session : Option PairingSession
  pub retired : Retired
  pub timer : Option Text
  pub dropped : List PairingSession

abbrev pub new_manager : Manager
new_manager = record { session = none; retired = []; timer = none; dropped = [] }

-- `PairingSessionExpiredError`, `PairingSessionUsedError`, `PairingProofInvalidError`, `ValueError`
pub data Failure : Type 0 where
  session_expired session_used proof_invalid bad_value : Failure

pub data Result (A : Type 0) : Type 0 where
  ok : A → Result A
  err : Failure → Result A

-- `_clear_session_material`: each `bytearray` is overwritten with zeros and emptied
abbrev pub clear_material : PairingSession → PairingSession
clear_material s = record s { pairing_key = []; salt = [] }

-- What ends a session the manager holds: its id is retired, the object let go with its material
-- cleared, the timer forgotten, and the retired ids pruned.
abbrev pub end_session : Ending → PairingSession → Manager → Manager
end_session how s m = record {
  session = none;
  retired = prune_retired (retire s.session_id how m.retired);
  timer = none;
  dropped = m.dropped ++ clear_material s ∷ [];
}

-- `_expire_if_needed_locked`, on the session that it has read
unfoldable pub expire_session : ℕ → Option PairingSession → Manager → Manager
expire_session mono none m = m
expire_session mono (some s) m = if leb s.deadline mono then end_session expired s m else m

abbrev pub expire_if_needed : ℕ → Manager → Manager
expire_if_needed mono m = expire_session mono m.session m

-- `active_session_count`
unfoldable pub active_session_count : ℕ → Manager → ℕ × Manager
active_session_count mono m =
    let m' = expire_if_needed mono m in (elim m'.session [ none ↦ 0 | some _ ↦ 1 ], m')

-- The end of `_require_active_locked`, on the session that is left.
unfoldable pub select_session : Text → Option PairingSession → Retired → Result PairingSession
select_session id none r = elim (ending_of id r) [
  | some used ↦ err session_used
  | _ ↦ err session_expired
]
select_session id (some s) r =
    if not (text_eq s.session_id id)
    then elim (ending_of id r) [ some used ↦ err session_used | _ ↦ err session_expired ]
    else if s.consumed
    then err session_used
    else ok s

-- `_require_active_locked`
unfoldable pub require_active : Text → ℕ → Manager → Result PairingSession × Manager
require_active id mono m =
    if matches_session_id id
    then (let m' = expire_if_needed mono m in (select_session id m'.session m'.retired, m'))
    else (err session_expired, m)

-- `_expire_from_timer`, on the session that it has read
unfoldable pub expire_from_timer_session : Text → ℕ → Option PairingSession → Manager → Manager
expire_from_timer_session id mono none m = m
expire_from_timer_session id mono (some s) m =
    if not (text_eq s.session_id id)
    then m
    else if ltb mono s.deadline
    then record m { timer = some s.session_id }
    else end_session expired s m

abbrev pub expire_from_timer : Text → ℕ → Manager → Manager
expire_from_timer id mono m = expire_from_timer_session id mono m.session m

-- The locked part of `create_session`: a session that is still there is rotated out.
unfoldable pub install_session : PairingSession → Option PairingSession → Manager → Manager
install_session new none m = record m {
  session = some new;
  timer = some new.session_id;
  retired = prune_retired m.retired;
}
install_session new (some old) m = record {
  session = some new;
  timer = some new.session_id;
  retired = prune_retired (retire old.session_id rotated m.retired);
  dropped = m.dropped ++ clear_material old ∷ [];
}

module _ (lib : Library) where
  -- `_bootstrap_locked`
  unfoldable pub bootstrap_locked : PairingSession → Bundle
  bootstrap_locked s =
      let unsigned : Bundle = record {
        version = 1;
        session_id = s.session_id;
        salt = lib.b64u s.salt;
        expires_at = lib.format_timestamp s.expires_at;
        server_ip = s.server_ip;
        port = s.port;
        ca_certificate_pem = s.ca_certificate_pem;
        server_proof = [];
      } in
      record unsigned { server_proof = compute_server_proof lib s.pairing_key unsigned }

  abbrev bundle_result : Result PairingSession → Result Bundle
  bundle_result (ok s) = ok (bootstrap_locked s)
  bundle_result (err e) = err e

  -- `bootstrap`
  unfoldable pub bootstrap : Text → ℕ → Manager → Result Bundle × Manager
  bootstrap id mono m =
      if matches_session_id id
      then (let (found, m') = require_active id mono m in (bundle_result found, m'))
      else (err session_expired, m)

  abbrev pub claim_of : PairingSession → Text → Text → Claim
  claim_of s client_id client_version = record {
    session_id = s.session_id;
    client_id = client_id;
    client_version = client_version;
    server_ip = s.server_ip;
    port = s.port;
    ca_certificate_pem = s.ca_certificate_pem;
  }

  -- The end of `claim`, with the session that is active.
  unfoldable pub claim_session :
      Text → Text → Text → Result PairingSession × Manager → Result Claim × Manager
  claim_session client_id client_version client_proof (err e, m) = (err e, m)
  claim_session client_id client_version client_proof (ok s, m) =
      if text_eq client_proof
        (compute_client_proof lib s.pairing_key s.session_id client_id client_version)
      then (
        ok (claim_of s client_id client_version),
        end_session used (record s { consumed = true }) m,
      )
      else (err proof_invalid, m)

  -- The tests of `claim` on its arguments.
  unfoldable pub claim_arguments_valid : Text → Text → Text → Bool
  claim_arguments_valid client_id client_version client_proof =
      matches_stable_id client_id
      && (leb 1 (length client_version)
          && leb (length client_version) 64
          && not (any lib.is_space client_version))
      && matches_proof client_proof

  -- `claim`
  unfoldable pub claim : Text → Text → Text → Text → ℕ → Manager → Result Claim × Manager
  claim id client_id client_version client_proof mono m =
      if claim_arguments_valid client_id client_version client_proof
      then claim_session client_id client_version client_proof (require_active id mono m)
      else (err proof_invalid, m)

  -- The values that `create_session` makes before it takes the lock; `none` is a `ValueError`.
  unfoldable pub prepare_session :
      Text → ℕ → Text → ℕ → ℕ → Text → Text → Option (PairingSession × Text)
  prepare_session server_ip port ca_certificate_pem now mono code_bytes salt = do
    normalized_ip ← require_private_ipv4 lib server_ip
    checked_port ← guarded (leb 1 port && leb port 65535) port
    pem ← guarded (valid_ca_certificate_pem lib ca_certificate_pem) ca_certificate_pem
    pairing_code ← normalize_pairing_code lib (lib.b32encode code_bytes)
    session_id ← derive_session_id lib pairing_code
    pairing_key ← derive_pairing_key lib pairing_code salt
    some (
      record {
        session_id = session_id;
        pairing_key = pairing_key;
        salt = salt;
        expires_at = now / 1000000 + ttl_seconds;
        deadline = mono + ttl;
        server_ip = normalized_ip;
        port = checked_port;
        ca_certificate_pem = pem;
        consumed = false;
      },
      pairing_code,
    )

  abbrev pub presentation_of : PairingSession → Text → Presentation
  presentation_of s pairing_code = record {
    session_id = s.session_id;
    pairing_code = pairing_code;
    expires_at = lib.format_timestamp s.expires_at;
    server_ip = s.server_ip;
    port = s.port;
    qr_uri =
        codes "streamdeck://pair/v1?ip="
        ++ (s.server_ip
            ++ (codes "&port="
                ++ (lib.decimal s.port
                    ++ (codes "&session="
                        ++ (s.session_id ++ (codes "&secret=" ++ pairing_code))))));
  }

  -- The rest of `create_session`.
  unfoldable pub install_prepared :
      Option (PairingSession × Text) → Manager → Result Presentation × Manager
  install_prepared none m = (err bad_value, m)
  install_prepared (some (s, pairing_code)) m =
      (ok (presentation_of s pairing_code), install_session s m.session m)

  -- `create_session`
  unfoldable pub create_session :
      Text → ℕ → Text → ℕ → ℕ → Text → Text → Manager → Result Presentation × Manager
  create_session server_ip port ca_certificate_pem now mono code_bytes salt m =
      install_prepared (prepare_session server_ip port ca_certificate_pem now mono code_bytes salt)
        m
