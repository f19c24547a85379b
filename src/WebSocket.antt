-- ===== src/WebSocket.antt =====
-- The sessions of server/app/websocket.py and `WebSocketManager`: who is connected, what was sent on
-- which websocket, and what has been broadcast.
-- A websocket and a client id are named by numbers. The session object that a handler holds outlives
-- its place among the connected ones, so sessions are stored apart from the list of the connected.
-- One step is what runs while the session's `send_lock` is held; `up` says whether the socket takes
-- what is sent in that step (false: `send_text` raises a disconnect or times out).
pub mod Press
pub mod Serve
pub mod Sends
pub mod Silence
pub mod Bounds
pub mod Permission
pub mod Replay
pub mod Revocation
mod Tests
use android_streamdeck.Base.{
  ℕ, Bool, true, false, not, ◌&&◌, ◌||◌, Option, none, some, List, [], ◌∷◌, ◌++◌, length, keep,
  contains, ltb, leb, ◌==◌, is_none, if◌then◌else◌,
}
use android_streamdeck.Base.Text.{Text}
use android_streamdeck.Base.Dict.{Dict, lookup, insert, erase}
use android_streamdeck.RateLimit.{Attempts}
use android_streamdeck.Profile.{Profile, Action}

-- the codes of `_send_error`
pub data ErrorCode : Type 0 where
  auth_required auth_invalid auth_revoked invalid_message unexpected_message profile_not_selected
        profile_not_found profile_revision_conflict page_not_found button_not_found internal_error
        idle_timeout handshake_timeout rate_limited connection_limit :
      ErrorCode

pub data Status : Type 0 where
  accepted completed rejected : Status

pub data ChangeReason : Type 0 where
  created updated deleted : ChangeReason

-- What the server sends: `error` has the code and the request id, `ack` the request id, the status
-- and the message.
pub data Wire : Type 0 where
  welcome : ℕ → ℕ → Wire
  profile_snapshot : Profile → Wire
  profile_changed : ℕ → ℕ → ChangeReason → Wire
  pong : Text → Wire
  ack : ℕ → Status → Text → Wire
  error : ErrorCode → Option ℕ → Wire

pub record ClientSession : Type 0 where
  pub client_id : ℕ
  pub profile_id : ℕ
  pub credential_generation : Option ℕ
  pub responses : Dict Wire
  pub ready : Bool
  pub invalidated : Bool
  pub pending_messages : List Wire

-- `WebSocketManager`, with every session that a handler holds, and what happened, newest first: the
-- messages sent, the websockets closed with their codes, and the actions executed.
pub record World : Type 0 where
  pub sessions : Dict ClientSession
  pub connected : List ℕ
  pub last_broadcast_revision : Dict ℕ
  pub handshake_attempts : Attempts
  pub sent : List (ℕ × Wire)
  pub closed : List (ℕ × ℕ)
  pub executed : List (ℕ × Action)

abbrev pub new_world : World
new_world = record {
  sessions = [];
  connected = [];
  last_broadcast_revision = [];
  handshake_attempts = [];
  sent = [];
  closed = [];
  executed = [];
}

-- `websocket.send_text`: whether it returned, and the world after it
unfoldable pub send_text : Bool → ℕ → Wire → World → Bool × World
send_text true ws m w = (true, record w { sent = (ws, m) ∷ w.sent })
send_text false ws m w = (false, w)

-- `websocket.close`
abbrev pub close : ℕ → ℕ → World → World
close ws code w = record w { closed = (ws, code) ∷ w.closed }

abbrev pub put_session : ℕ → ClientSession → World → World
put_session ws s w = record w { sessions = insert ws s w.sessions }

-- `_send_session_text`
unfoldable pub send_session_text : Bool → ℕ → ClientSession → Wire → World → Bool × World
send_session_text up ws s m w = if s.invalidated then (true, w) else send_text up ws m w

-- `WebSocketManager.register`; false is the `RuntimeError`
unfoldable pub register : ℕ → ℕ → ClientSession → World → Bool × World
register max_connections ws s w = if leb max_connections (length w.connected) then (false, w) else (
  true,
  record w {
    sessions = insert ws s w.sessions;
    connected = if contains ws w.connected then w.connected else w.connected ++ ws ∷ [];
  },
)

-- `WebSocketManager.unregister`
unfoldable pub unregister : ℕ → World → World
unregister ws w = record w { connected = keep (λ k. not (k == ws)) w.connected }

-- `session.client_id == client_id and not session.invalidated`
abbrev pub is_client : ℕ → Option ClientSession → Bool
is_client client_id none = false
is_client client_id (some s) = s.client_id == client_id && not s.invalidated

-- `close_session` of `invalidate_client_sessions`, on the session that is there
abbrev pub close_held : Bool → ℕ → Option ClientSession → World → World
close_held up ws none w = w
close_held up ws (some s) w = unregister ws (
    close ws 1008
      (send_text up ws (error auth_revoked none)
        (put_session ws (record s { invalidated = true }) w)).1)

unfoldable pub close_session : Bool → ℕ → World → World
close_session up ws w = close_held up ws (lookup ws w.sessions) w

abbrev pub close_each : (ℕ → Bool) → List ℕ → World → World
close_each up [] w = w
close_each up (ws ∷ rest) w = close_each up rest (close_session (up ws) ws w)

-- `targets` of `invalidate_client_sessions`
abbrev pub sessions_of_client : ℕ → World → List ℕ
sessions_of_client client_id w = keep (λ ws. is_client client_id (lookup ws w.sessions)) w.connected

-- `WebSocketManager.invalidate_client_sessions`
unfoldable pub invalidate_client_sessions : (ℕ → Bool) → ℕ → World → ℕ × World
invalidate_client_sessions up client_id w =
    (length (sessions_of_client client_id w), close_each up (sessions_of_client client_id w) w)

-- `_send_broadcast` to a session that is not invalidated
unfoldable pub send_live : Bool → ℕ → Wire → ClientSession → World → Bool × World
send_live up ws m s w =
    if not s.ready
    then (false, put_session ws (record s { pending_messages = s.pending_messages ++ m ∷ [] }) w)
    else (not (send_text up ws m w).0, (send_text up ws m w).1)

-- `_send_broadcast` on the session that is there: whether the sending failed
abbrev pub send_held : Bool → ℕ → Wire → Option ClientSession → World → Bool × World
send_held up ws m none w = (false, w)
send_held up ws m (some s) w = if s.invalidated then (false, w) else send_live up ws m s w

unfoldable pub send_broadcast : Bool → ℕ → Wire → World → Bool × World
send_broadcast up ws m w = send_held up ws m (lookup ws w.sessions) w

-- The sends of a broadcast; the ones that failed leave afterwards.
unfoldable pub broadcast_each : (ℕ → Bool) → Wire → List ℕ → World → World
broadcast_each up m [] w = w
broadcast_each up m (ws ∷ rest) w =
    if (send_broadcast (up ws) ws m w).0
    then unregister ws (broadcast_each up m rest (send_broadcast (up ws) ws m w).1)
    else broadcast_each up m rest (send_broadcast (up ws) ws m w).1

-- `session.profile_id == profile_id and not session.invalidated`
abbrev pub is_watching : ℕ → Option ClientSession → Bool
is_watching profile_id none = false
is_watching profile_id (some s) = s.profile_id == profile_id && not s.invalidated

-- `targets` of `broadcast_profile_changed`
abbrev pub watchers : ℕ → World → List ℕ
watchers profile_id w = keep (λ ws. is_watching profile_id (lookup ws w.sessions)) w.connected

-- `self._last_broadcast_revision.get(profile_id, 0)`
abbrev pub revision_or_0 : Option ℕ → ℕ
revision_or_0 none = 0
revision_or_0 (some r) = r

abbrev pub last_revision : ℕ → World → ℕ
last_revision profile_id w = revision_or_0 (lookup profile_id w.last_broadcast_revision)

abbrev pub is_deleted : ChangeReason → Bool
is_deleted deleted = true
is_deleted created = false
is_deleted updated = false

-- `WebSocketManager.broadcast_profile_changed`
unfoldable pub broadcast_profile_changed : (ℕ → Bool) → ℕ → ℕ → ChangeReason → World → World
broadcast_profile_changed up profile_id revision reason w =
    if not (is_deleted reason) && leb revision (last_revision profile_id w)
    then w
    else broadcast_each up (profile_changed profile_id revision reason) (watchers profile_id w)
        (record w {
          last_broadcast_revision =
              if is_deleted reason
              then erase profile_id w.last_broadcast_revision
              else insert profile_id revision w.last_broadcast_revision;
        })
