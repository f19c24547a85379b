-- ===== src/WebSocket/Serve.antt =====
-- `_serve_websocket` of server/app/websocket.py: the handshake, and one turn of the loop.
-- The messages that arrive are parsed values; `_parse_message` is pydantic's.
use android_streamdeck.Base.{
  ℕ, ◌-◌, Bool, true, false, not, ◌||◌, Option, none, some, List, [], ◌∷◌, leb, is_none,
  if◌then◌else◌,
}
use android_streamdeck.Base.Text.{Text}
use android_streamdeck.Base.Dict.{lookup}
use android_streamdeck.Profile.{Profile, Action}
use android_streamdeck.Repository.Store.{Db, Result, ok, err, Error, not_found}
use android_streamdeck.Repository.Methods.{get_profile, get_active_profile}
use android_streamdeck.Credentials.{
  Tables, active_credential_generation, is_credential_generation_active,
}
use android_streamdeck.RateLimit.{Limits, allow}
use android_streamdeck.WebSocket.{
  ErrorCode, auth_required, auth_invalid, auth_revoked, invalid_message, unexpected_message,
  idle_timeout, handshake_timeout, rate_limited, connection_limit, Wire, welcome, profile_snapshot,
  pong, error, ClientSession, World, send_text, close, put_session, send_session_text, register,
  unregister, ChangeReason, invalidate_client_sessions, broadcast_profile_changed,
}
use android_streamdeck.WebSocket.Press.{Press, Outcome, handle_press, load_error}

-- the payload of `HelloMessage`
pub record Hello : Type 0 where
  pub client_id : ℕ
  pub access_token : Option Text
  pub requested_profile_id : Option ℕ

-- A message that was received, after `_parse_message`.
pub data Incoming : Type 0 where
  hello : Hello → Incoming
  ping : Text → Incoming
  press : Press → Incoming
  other_message unparsable : Incoming

-- What a wait for the next message ends in.
pub data Received : Type 0 where
  timed_out disconnected : Received
  message : Incoming → Received

-- The settings of the manager and of its rate limiter, the token hash and the rule for URLs.
pub record Config : Type 0 where
  pub max_connections : ℕ
  pub require_auth : Bool
  pub limits : Limits
  pub hash : Text → ℕ
  pub valid_url : Text → Bool

-- What a handler finds when it asks: the tables of the pairing service, if there is one, the
-- repository's, and what the executor answers.
pub record Services : Type 0 where
  pub pairing : Option Tables
  pub db : Db
  pub execute : Action → Outcome

-- `_send_error` before there is a session, and `close`, which a send that raises skips.
abbrev pub refuse : Bool → ℕ → ErrorCode → ℕ → World → World
refuse up ws code status w =
    if (send_text up ws (error code none) w).0
    then close ws status (send_text up ws (error code none) w).1
    else w

-- `_load_requested_profile`
abbrev pub load_active : Result (Option Profile) → Result Profile
load_active (err e) = err e
load_active (ok none) = err not_found
load_active (ok (some p)) = ok p

unfoldable pub load_requested_profile : (Text → Bool) → Db → Option ℕ → Result Profile
load_requested_profile valid_url db (some id) = get_profile valid_url id none db
load_requested_profile valid_url db none = load_active (get_active_profile valid_url db)

-- `send_text` for each message in turn, until one raises; the socket takes `room` of them.
abbrev pub send_all : ℕ → ℕ → List Wire → World → Bool × World
send_all room ws [] w = (true, w)
send_all room ws (m ∷ ms) w =
    if (send_text (leb 1 room) ws m w).0
    then send_all (room - 1) ws ms (send_text (leb 1 room) ws m w).1
    else (false, w)

-- The `finally` of `_serve_websocket`, when the handler ends.
abbrev pub settle : ℕ → Bool × World → World
settle ws r = if r.0 then r.1 else unregister ws r.1

-- The session is registered and greeted: the welcome, the snapshot, then what was pending.
abbrev pub greet : ℕ → ℕ → ClientSession → Profile → World → World
greet room ws s profile w =
    let first =
      send_all room ws (welcome profile.id profile.revision ∷ profile_snapshot profile ∷ []) w in
    if not first.0
    then unregister ws first.1
    else settle ws (
        send_all (room - 2) ws s.pending_messages
          (put_session ws (record s { ready = true; pending_messages = [] }) first.1))

-- A new `ClientSession`.
abbrev pub new_session : ℕ → ℕ → Option ℕ → ClientSession
new_session client_id profile_id generation = record {
  client_id = client_id;
  profile_id = profile_id;
  credential_generation = generation;
  responses = [];
  ready = false;
  invalidated = false;
  pending_messages = [];
}

-- The code that the websocket is closed with when no profile is loaded.
abbrev pub load_status : Error → ℕ
load_status not_found = 1008
load_status e = 1011

module _ (c : Config) where
  -- The handshake once the profile is loaded.
  abbrev pub join : ℕ → ℕ → Hello → Option ℕ → Result Profile → World → World
  join room ws h generation (err e) w = refuse (leb 1 room) ws (load_error e) (load_status e) w
  join room ws h generation (ok profile) w =
      let s = new_session h.client_id profile.id generation in
      let registered = register c.max_connections ws s w in
      if registered.0
      then greet room ws s profile registered.1
      else unregister ws (refuse (leb 1 room) ws connection_limit 1013 registered.1)

  -- The profile is loaded, unless the time for the handshake has passed.
  abbrev pub load_and_join : Services → Bool → ℕ → ℕ → Hello → Option ℕ → World → World
  load_and_join v late room ws h generation w =
      if late
      then refuse (leb 1 room) ws handshake_timeout 1008 w
      else join room ws h generation
          (load_requested_profile c.valid_url v.db h.requested_profile_id) w

  abbrev pub with_generation : Services → Bool → ℕ → ℕ → Hello → Option ℕ → World → World
  with_generation v late room ws h none w = refuse (leb 1 room) ws auth_invalid 1008 w
  with_generation v late room ws h (some g) w = load_and_join v late room ws h (some g) w

  abbrev pub authenticated : Services → Bool → ℕ → ℕ → Hello → Option Tables → World → World
  authenticated v late room ws h none w = refuse (leb 1 room) ws auth_required 1008 w
  authenticated v late room ws h (some t) w =
      if is_none h.access_token
      then refuse (leb 1 room) ws auth_required 1008 w
      else with_generation v late room ws h
          (active_credential_generation c.hash h.client_id h.access_token t) w

  abbrev pub greeted : Services → Bool → ℕ → ℕ → Received → World → World
  greeted v late room ws timed_out w = refuse (leb 1 room) ws handshake_timeout 1008 w
  greeted v late room ws disconnected w = w
  greeted v late room ws (message (hello h)) w =
      if c.require_auth
      then authenticated v late room ws h v.pairing w
      else load_and_join v late room ws h none w
  greeted v late room ws (message m) w = refuse (leb 1 room) ws invalid_message 1002 w

  -- The handshake of `_serve_websocket`, from the origin's attempt on; the socket takes `room`
  -- messages, and `late` is whether the time runs out after the hello.
  unfoldable pub handshake : Services → ℕ → ℕ → Bool → ℕ → ℕ → Received → World → World
  handshake v now origin late room ws r w =
      let attempt = allow c.limits now origin w.handshake_attempts in
      let w1 = record w { handshake_attempts = attempt.1 } in
      if attempt.0 then greeted v late room ws r w1 else refuse (leb 1 room) ws rate_limited 1013 w1

  -- `_session_credential_is_active`
  abbrev pub generation_is_active : ℕ → Option Tables → Option ℕ → Bool
  generation_is_active client_id none g = false
  generation_is_active client_id (some t) none = false
  generation_is_active client_id (some t) (some g) = is_credential_generation_active client_id g t

  unfoldable pub session_credential_is_active : Services → ClientSession → Bool
  session_credential_is_active v s =
      if s.invalidated || not c.require_auth
      then not s.invalidated
      else generation_is_active s.client_id v.pairing s.credential_generation

  -- An error to the session, after which its websocket is closed.
  abbrev pub dismiss : Bool → ℕ → ClientSession → Wire → ℕ → World → Bool × World
  dismiss up ws s m status w =
      if (send_session_text up ws s m w).0
      then (false, close ws status (send_session_text up ws s m w).1)
      else (false, (send_session_text up ws s m w).1)

  -- One turn of the loop: whether it goes on, and the world after it.
  abbrev pub answer : Services → Bool → ℕ → ClientSession → Received → World → Bool × World
  answer v up ws s timed_out w = dismiss up ws s (error idle_timeout none) 1000 w
  answer v up ws s disconnected w = (false, w)
  answer v up ws s (message unparsable) w = send_session_text up ws s (error invalid_message none) w
  answer v up ws s (message (ping nonce)) w = send_session_text up ws s (pong nonce) w
  answer v up ws s (message (press m)) w =
      if session_credential_is_active v s
      then handle_press c.valid_url v.db v.execute up ws s m w
      else dismiss up ws s (error auth_revoked (some m.request_id)) 1008 w
  answer v up ws s (message m) w = send_session_text up ws s (error unexpected_message none) w

  abbrev pub turn_held : Services → Bool → ℕ → Option ClientSession → Received → World → World
  turn_held v up ws none r w = w
  turn_held v up ws (some s) r w = settle ws (answer v up ws s r w)

  unfoldable pub turn : Services → Bool → ℕ → Received → World → World
  turn v up ws r w = turn_held v up ws (lookup ws w.sessions) r w

-- What happens next: a new websocket's handshake, a turn of a handler, a revocation, a change.
pub data Event : Type 0 where
  arrives : ℕ → ℕ → Bool → ℕ → ℕ → Received → Event
  receives : Bool → ℕ → Received → Event
  revokes : (ℕ → Bool) → ℕ → Event
  changes : (ℕ → Bool) → ℕ → ℕ → ChangeReason → Event

-- One step; a websocket has one handshake.
unfoldable pub step : Config → Services → Event → World → World
step c v (arrives now origin late room ws r) w =
    if is_none (lookup ws w.sessions) then handshake c v now origin late room ws r w else w
step c v (receives up ws r) w = turn c v up ws r w
step c v (revokes up client_id) w = (invalidate_client_sessions up client_id w).1
step c v (changes up profile_id revision reason) w =
    broadcast_profile_changed up profile_id revision reason w

unfoldable pub run : Config → List (Services × Event) → World → World
run c [] w = w
run c ((v, e) ∷ es) w = run c es (step c v e w)
