-- ===== src/WebSocket/Press.antt =====
-- `_handle_press` and `_cache_response` of server/app/websocket.py.
use android_streamdeck.Base.{
  ℕ, Bool, true, false, not, Option, none, some, [], ◌∷◌, length, find_first, leb, ◌==◌,
  if◌then◌else◌,
}
use android_streamdeck.Base.Text.{Text, codes}
use android_streamdeck.Base.Dict.{Dict, lookup, insert}
use android_streamdeck.Profile.{Profile, Page, Button, Action}
use android_streamdeck.Repository.Store.{Db, Result, ok, err, Error, not_found}
use android_streamdeck.Repository.Methods.{get_profile}
use android_streamdeck.WebSocket.{
  ErrorCode, profile_not_selected, profile_not_found, profile_revision_conflict, page_not_found,
  button_not_found, internal_error, Status, rejected, Wire, ack, error, ClientSession, World,
  put_session, send_session_text,
}

-- the payload of `PressMessage`
pub record Press : Type 0 where
  pub request_id : ℕ
  pub profile_id : ℕ
  pub page_id : ℕ
  pub button_id : ℕ
  pub revision : ℕ

-- How `action_executor.execute` ends: a result, `ActionExecutionRejected`, or another exception.
pub data Outcome : Type 0 where
  result : Status → Text → Outcome
  refused : Text → Outcome
  failed : Outcome

abbrev max_cached_responses : ℕ
max_cached_responses = 256

-- `session.responses.pop(next(iter(session.responses)))`
abbrev pub without_oldest : Dict Wire → Dict Wire
without_oldest [] = []
without_oldest (r ∷ rs) = rs

-- `_cache_response`
unfoldable pub cache_response : ClientSession → ℕ → Wire → ClientSession
cache_response s request_id wire =
    if leb max_cached_responses (length s.responses)
    then record s { responses = insert request_id wire (without_oldest s.responses) }
    else record s { responses = insert request_id wire s.responses }

-- The acknowledgement of an action's outcome.
abbrev pub ack_of : ℕ → Outcome → Wire
ack_of request_id (result status message) = ack request_id status message
ack_of request_id (refused message) = ack request_id rejected message
ack_of request_id failed = ack request_id rejected (codes "Action could not be completed")

-- An error that is cached once it is sent; a send that raises caches nothing.
abbrev pub answer_error : Bool → ℕ → ClientSession → ℕ → ErrorCode → World → Bool × World
answer_error up ws s request_id code w =
    if (send_session_text up ws s (error code (some request_id)) w).0
    then (
      true,
      put_session ws (cache_response s request_id (error code (some request_id)))
          (send_session_text up ws s (error code (some request_id)) w).1,
    )
    else (false, (send_session_text up ws s (error code (some request_id)) w).1)

-- The action is executed, and its acknowledgement cached, then sent.
abbrev pub run_action :
    (Action → Outcome) → Bool → ℕ → ClientSession → ℕ → Action → World → Bool × World
run_action execute up ws s request_id action w =
    let reply = ack_of request_id (execute action) in
    send_session_text up ws s reply (
      put_session ws (cache_response s request_id reply)
        (record w { executed = (ws, action) ∷ w.executed }))

-- The button of the press, on its page.
abbrev pub press_button :
    (Action → Outcome) → Bool → ℕ → ClientSession → Press → Option Button → World → Bool × World
press_button execute up ws s m none w = answer_error up ws s m.request_id button_not_found w
press_button execute up ws s m (some button) w =
    run_action execute up ws s m.request_id button.action w

abbrev pub press_page :
    (Action → Outcome) → Bool → ℕ → ClientSession → Press → Option Page → World → Bool × World
press_page execute up ws s m none w = answer_error up ws s m.request_id page_not_found w
press_page execute up ws s m (some page) w =
    press_button execute up ws s m (find_first (λ b. b.id == m.button_id) page.buttons) w

-- `except ProfileNotFoundError`, `except Exception`
abbrev pub load_error : Error → ErrorCode
load_error not_found = profile_not_found
load_error e = internal_error

-- What follows `repository.get_profile`.
abbrev pub press_profile :
    (Action → Outcome) → Bool → ℕ → ClientSession → Press → Result Profile → World → Bool × World
press_profile execute up ws s m (err e) w = answer_error up ws s m.request_id (load_error e) w
press_profile execute up ws s m (ok profile) w =
    if not (profile.revision == m.revision)
    then send_session_text up ws s (error profile_revision_conflict (some m.request_id)) w
    else press_page execute up ws s m (find_first (λ p. p.id == m.page_id) profile.pages) w

abbrev pub press_fresh :
    (Action → Outcome)
    → Result Profile
    → Bool
    → ℕ
    → ClientSession
    → Press
    → Option Wire
    → World
    → Bool × World
press_fresh execute profile up ws s m (some previous) w = send_session_text up ws s previous w
press_fresh execute profile up ws s m none w =
    if not (m.profile_id == s.profile_id)
    then answer_error up ws s m.request_id profile_not_selected w
    else press_profile execute up ws s m profile w

-- `_handle_press`: whether it returned, rather than raised from a send
unfoldable pub handle_press :
    (Text → Bool)
    → Db
    → (Action → Outcome)
    → Bool
    → ℕ
    → ClientSession
    → Press
    → World
    → Bool × World
handle_press valid_url db execute up ws s m w =
    press_fresh execute (get_profile valid_url m.profile_id none db) up ws s m
      (lookup m.request_id s.responses) w
