-- ===== src/Credentials.antt =====
-- server/app/pairing.py: the paired clients, their tokens and the audit, over the two tables of
-- server/app/migrations.py (schemas 3 to 5).
-- A client id is the number that names it, a timestamp is a number, and a version, a code and a token
-- are their code points. `hash` is `_hash_token` (SHA-256, of hashlib), the token that
-- `secrets.token_urlsafe` returns is an argument, and so is the time. `hmac.compare_digest` is an
-- equality test. A transaction that raises is rolled back; of SQLite's own failures only the constraints
-- of the two tables are modelled.
pub mod Lifecycle
pub mod Audit
pub mod Inventory
mod Tests
use android_streamdeck.Base.{
  ℕ, ◌+◌, Bool, true, false, not, ◌&&◌, ◌||◌, Option, none, some, List, [], ◌∷◌, ◌++◌, length, any,
  is_none, ltb, leb, ◌==◌, if◌then◌else◌,
}
use android_streamdeck.Base.Text.{Text, text_eq}
use android_streamdeck.Base.Dict.{Dict, lookup, insert}

-- `reason_code`: the members of `_REVOCATION_REASONS`, and any other text
pub data Reason : Type 0 where
  user_request lost_device security replaced : Reason
  other_reason : ℕ → Reason

-- `reason_code in _REVOCATION_REASONS`
abbrev pub is_revocation_reason : Reason → Bool
is_revocation_reason (other_reason n) = false
is_revocation_reason _ = true

pub data Actor : Type 0 where
  pairing_code pairing_session local_owner : Actor
  other_actor : ℕ → Actor

-- `actor_kind in {"pairing_code", "pairing_session"}`
abbrev pub is_pairing_actor : Actor → Bool
is_pairing_actor pairing_code = true
is_pairing_actor pairing_session = true
is_pairing_actor local_owner = false
is_pairing_actor (other_actor n) = false

pub data EventType : Type 0 where
  paired repaired revoked : EventType

pub data Platform : Type 0 where
  android : Platform

-- a row of `paired_clients`; its key is `client_id`
pub record Client : Type 0 where
  pub client_version : Text
  pub platform : Platform
  pub device_label : Option Text
  pub token_hash : ℕ
  pub generation : ℕ
  pub paired_at : ℕ
  pub last_seen_at : Option ℕ
  pub revoked_at : Option ℕ
  pub revoked_reason : Option Reason

-- a row of `paired_client_audit`; `event_id` is its place
pub record AuditEvent : Type 0 where
  pub client_id : ℕ
  pub event_type : EventType
  pub generation : ℕ
  pub actor_kind : Actor
  pub reason_code : Option Reason
  pub occurred_at : ℕ

pub record Tables : Type 0 where
  pub clients : Dict Client
  pub audit : List AuditEvent

-- `PairingUnavailableError`, `PairingCodeInvalidError`, `PairingError` and the two `ValueError`s
pub data Failure : Type 0 where
  unavailable code_invalid persistence unsupported_actor unsupported_reason : Failure

pub data Result (A : Type 0) : Type 0 where
  ok : A → Result A
  err : Failure → Result A

-- `CHECK (length(client_version) BETWEEN 1 AND 64)`
abbrev pub version_fits : Text → Bool
version_fits v = leb 1 (length v) && leb (length v) 64

-- `token_hash TEXT NOT NULL UNIQUE`: another client's row holds this hash
abbrev pub hash_taken : ℕ → ℕ → Dict Client → Bool
hash_taken client_id h [] = false
hash_taken client_id h ((j, c) ∷ d) =
    (not (j == client_id) && c.token_hash == h) || hash_taken client_id h d

-- What a statement, or the body of a transaction, ends in: a value or an exception, with what has been
-- written until then.
pub data Outcome (A : Type 0) : Type 0 where
  returned : A → Tables → Outcome A
  raised : Tables → Outcome A

infixl 5 ◌>>=◌
abbrev pub ◌>>=◌ : {A B : Type 0} → Outcome A → (A → Tables → Outcome B) → Outcome B
raised t >>= f = raised t
returned a t >>= f = f a t

-- `with self.database.transaction()` inside `try`: an exception rolls back what was written and becomes a
-- `PairingError`.
abbrev pub committed : {A : Type 0} → Tables → Outcome A → Result A × Tables
committed t (returned a t') = (ok a, t')
committed t (raised t') = (err persistence, t)

-- `INSERT INTO paired_clients` and `UPDATE paired_clients`, with the constraints of the table
abbrev pub write_client : ℕ → Client → Tables → Outcome (Unit {0})
write_client client_id c t =
    if not (version_fits c.client_version) || hash_taken client_id c.token_hash t.clients
    then raised t
    else returned tt (record t { clients = insert client_id c t.clients })

-- `CHECK (actor_kind IN …)`, of the actors that there are
abbrev pub is_audit_actor : Actor → Bool
is_audit_actor (other_actor n) = false
is_audit_actor _ = true

-- `CHECK (reason_code IS NULL OR reason_code IN …)`, of the members of `_REVOCATION_REASONS`
abbrev pub is_audit_reason : Option Reason → Bool
is_audit_reason none = true
is_audit_reason (some reason) = is_revocation_reason reason

-- `INSERT INTO paired_client_audit`, with the constraints of the table. Generations are at least 1, as in
-- the row, and the client's row is there.
abbrev pub insert_event : AuditEvent → Tables → Outcome (Unit {0})
insert_event e t =
    if is_audit_actor e.actor_kind && is_audit_reason e.reason_code
    then returned tt (record t { audit = t.audit ++ e ∷ [] })
    else raised t

-- The row of a client that was not there.
abbrev pub new_client : Text → ℕ → ℕ → Client
new_client client_version token_hash timestamp = record {
  client_version = client_version;
  platform = android;
  device_label = none;
  token_hash = token_hash;
  generation = 1;
  paired_at = timestamp;
  last_seen_at = none;
  revoked_at = none;
  revoked_reason = none;
}

-- The row of a client that pairs again.
abbrev pub renewed_client : Client → Text → ℕ → ℕ → Client
renewed_client existing client_version token_hash timestamp = record existing {
  client_version = client_version;
  token_hash = token_hash;
  generation = existing.generation + 1;
  paired_at = timestamp;
  last_seen_at = none;
  revoked_at = none;
  revoked_reason = none;
}

-- The two branches of `issue_token` on the row that it has read.
abbrev pub issued_row : Option Client → Text → ℕ → ℕ → Client
issued_row none version h now = new_client version h now
issued_row (some c) version h now = renewed_client c version h now

abbrev pub issued_event : Option Client → ℕ → Actor → ℕ → AuditEvent
issued_event none client_id actor now = record {
  client_id = client_id;
  event_type = paired;
  generation = 1;
  actor_kind = actor;
  reason_code = none;
  occurred_at = now;
}
issued_event (some c) client_id actor now = record {
  client_id = client_id;
  event_type = repaired;
  generation = c.generation + 1;
  actor_kind = actor;
  reason_code = some replaced;
  occurred_at = now;
}

abbrev pub revoked_event : ℕ → ℕ → Reason → ℕ → AuditEvent
revoked_event client_id generation reason now = record {
  client_id = client_id;
  event_type = revoked;
  generation = generation;
  actor_kind = local_owner;
  reason_code = some reason;
  occurred_at = now;
}

-- The body of `revoke_client`'s transaction, on the row that it has read: whether the client was revoked.
-- The update leaves the columns with constraints as they are.
unfoldable pub revoke_body : ℕ → Reason → ℕ → Option Client → Tables → Outcome Bool
revoke_body client_id reason now none t = returned false t
revoke_body client_id reason now (some c) t =
    if is_none c.revoked_at
    then (insert_event (revoked_event client_id c.generation reason now) (record t {
      clients =
          insert client_id (record c { revoked_at = some now; revoked_reason = some reason })
            t.clients;
    })
        >>= (λ u t'. returned true t'))
    else returned false t

unfoldable pub revoke_row : ℕ → Reason → ℕ → Option Client → Tables → Result Bool × Tables
unfolding revoke_body
revoke_row client_id reason now row t = committed t (revoke_body client_id reason now row t)

-- `PairingService.revoke_client`
unfoldable pub revoke_client : ℕ → Reason → ℕ → Tables → Result Bool × Tables
unfolding revoke_row
revoke_client client_id reason now t =
    if is_revocation_reason reason
    then revoke_row client_id reason now (lookup client_id t.clients) t
    else (err unsupported_reason, t)

-- `PairingService.is_credential_generation_active`
abbrev pub is_active_row : ℕ → Option Client → Bool
is_active_row generation none = false
is_active_row generation (some c) = c.generation == generation && is_none c.revoked_at

unfoldable pub is_credential_generation_active : ℕ → ℕ → Tables → Bool
is_credential_generation_active client_id generation t =
    if ltb generation 1 then false else is_active_row generation (lookup client_id t.clients)

module _ (hash : Text → ℕ) where
  -- The body of `issue_token`'s transaction, on the row that it has read.
  unfoldable pub issue_body :
      Option Client → ℕ → Text → Actor → Text → ℕ → Tables → Outcome (Unit {0})
  issue_body existing client_id version actor token now t =
      write_client client_id (issued_row existing version (hash token) now) t >>= λ u t'.
      insert_event (issued_event existing client_id actor now) t'

  abbrev pub with_token : Text → Result (Unit {0}) × Tables → Result Text × Tables
  with_token token (ok u, t) = (ok token, t)
  with_token token (err e, t) = (err e, t)

  -- `PairingService.issue_token`, with the token that was drawn
  unfoldable pub issue_token : ℕ → Text → Actor → Text → ℕ → Tables → Result Text × Tables
  unfolding issue_body
  issue_token client_id version actor token now t =
      if is_pairing_actor actor
      then with_token token (
          committed t (issue_body (lookup client_id t.clients) client_id version actor token now t))
      else (err unsupported_actor, t)

  -- `PairingService.claim_token`, for the configured code
  unfoldable pub claim_token :
      Option Text → ℕ → Text → Text → Text → ℕ → Tables → Result Text × Tables
  unfolding issue_token
  claim_token none client_id version code token now t = (err unavailable, t)
  claim_token (some configured) client_id version code token now t =
      if text_eq code configured
      then issue_token client_id version pairing_code token now t
      else (err code_invalid, t)

  -- `PairingService.active_credential_generation`, on the row that it has read
  abbrev pub generation_of_row : Text → Option Client → Option ℕ
  generation_of_row token none = none
  generation_of_row token (some c) =
      if not (is_none c.revoked_at)
      then none
      else if c.token_hash == hash token
      then some c.generation
      else none

  unfoldable pub active_credential_generation : ℕ → Option Text → Tables → Option ℕ
  active_credential_generation client_id none t = none
  active_credential_generation client_id (some []) t = none
  active_credential_generation client_id (some (x ∷ xs)) t =
      generation_of_row (x ∷ xs) (lookup client_id t.clients)

  -- `PairingService.authenticate`
  unfoldable pub authenticate : ℕ → Option Text → Tables → Bool
  unfolding active_credential_generation
  authenticate client_id token t = not (is_none (active_credential_generation client_id token t))
