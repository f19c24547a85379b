-- ===== src/WebSocket/Tests.antt =====
-- A session on a deck of one page, its press and its revocation.
use android_streamdeck.Base.{
  ◌≡◌, ◌≢◌, refl, contains, true, false, none, some, arith, List, [], ◌∷◌, length,
}
use android_streamdeck.Base.Text.{codes}
use android_streamdeck.Base.Dict.{lookup, insert}
use android_streamdeck.RateLimit.{allow, purge, record_attempt}
use android_streamdeck.Profile.{
  key, Button, Page, Profile, valid_key_name, distinct_places, valid_action, valid_button,
  valid_button_layout, valid_page, valid_page_relationships, valid_profile,
}
use android_streamdeck.Repository.Store.{Db, created, revision_at, current_profile_row}
use android_streamdeck.Repository.Methods.{get_profile}
use android_streamdeck.WebSocket.{
  completed, updated, ClientSession, World, new_world, send_text, register, unregister,
  close_session, invalidate_client_sessions,
}
use android_streamdeck.WebSocket.Press.{Press, result}
use android_streamdeck.WebSocket.Serve.{
  hello, ping, press, message, timed_out, Config, Services, new_session, load_requested_profile,
  handshake, Event, arrives, receives, revokes, changes, answer, step, run,
}
use android_streamdeck.WebSocket.Sends.{messages_to, invalidated_at}
use android_streamdeck.WebSocket.Silence.{revoked_session_is_silent}
use android_streamdeck.WebSocket.Permission.{Executes, press-Executes}
use android_streamdeck.WebSocket.Replay.{Turn, turns, press_runs_once}
use android_streamdeck.WebSocket.Press.{handle_press, cache_response}
use android_streamdeck.WebSocket.Serve.{session_credential_is_active, turn}
use android_streamdeck.WebSocket.{send_session_text}
use android_streamdeck.WebSocket.Bounds.{IsSound}
use android_streamdeck.WebSocket.Bounds.Steps.{sessions_bounded}

abbrev button : Button
button = record {
  id = 30;
  row = 0;
  column = 0;
  title = codes "b";
  icon = none;
  color = none;
  action = key (codes "a");
}

abbrev page : Page
page = record {
  id = 20;
  title = codes "p";
  order = 0;
  rows = 1;
  columns = 1;
  buttons = button ∷ [];
}

abbrev deck : Profile
deck = record {
  protocol_version = 1;
  id = 7;
  name = codes "deck";
  revision = 1;
  active_page_id = 20;
  pages = page ∷ [];
}

abbrev tables : Db
tables = record {
  profiles =
      (
        7,
        record {
          protocol_version = 1;
          name = codes "deck";
          revision = 1;
          active_page_id = 20;
          is_active = true;
          created_at = 1;
          updated_at = 1;
          pages = page ∷ [];
        },
      )
      ∷ [];
  revisions =
      record { profile_id = 7; revision = 1; snapshot = deck; reason = created; created_at = 1 }
      ∷ [];
}

abbrev config : Config
config = record {
  max_connections = 1;
  require_auth = false;
  limits = record { max_attempts = 5; window = 60; max_origins = 10 };
  hash = length;
  valid_url = λ t. true;
}

abbrev services : Services
services = record { pairing = none; db = tables; execute = λ a. result completed (codes "done") }

abbrev pressing : Press
pressing = record { request_id = 1; profile_id = 7; page_id = 20; button_id = 30; revision = 1 }

abbrev arriving : Event
arriving =
    arrives 100 5 false 9 4 (
      message
        (hello (record { client_id = 3; access_token = none; requested_profile_id = some 7 })))

abbrev later : List (Services × Event)
later =
    (services, receives true 4 (message (press pressing)))
    ∷ (services, changes (λ k. true) 7 2 updated)
    ∷ []

abbrev revoked : World
revoked = run config ((services, arriving) ∷ (services, revokes (λ k. true) 3) ∷ []) new_world

revoked_at_4 : invalidated_at 4 revoked ≡ true
unfolding run step handshake allow purge record_attempt load_requested_profile get_profile
    current_profile_row revision_at register unregister send_text lookup insert
    invalidate_client_sessions close_session valid_profile valid_page valid_button
    valid_button_layout valid_page_relationships valid_action valid_key_name distinct_places
revoked_at_4 = refl

revoked_session_is_silent_example :
    (messages_to 4 (run config later revoked).sent ≡ messages_to 4 revoked.sent)
    × (invalidated_at 4 (run config later revoked) ≡ true)
revoked_session_is_silent_example = revoked_session_is_silent config 4 later revoked revoked_at_4

abbrev session : ClientSession
session = record (new_session 3 7 none) { ready = true }

press-Executes_example :
    Executes config services 4 session pressing new_world
      (answer config services true 4 session (message (press pressing)) new_world).1
press-Executes_example = press-Executes config services true 4 session pressing new_world

sessions_bounded_example : IsSound 1 (run config ((services, arriving) ∷ later) new_world)
sessions_bounded_example = sessions_bounded config ((services, arriving) ∷ later)

abbrev joined : World
joined = run config ((services, arriving) ∷ []) new_world

joined_there : lookup 4 joined.sessions ≡ some session
unfolding run step handshake allow purge record_attempt load_requested_profile get_profile
    current_profile_row revision_at register unregister send_text lookup insert valid_profile
    valid_page valid_button valid_button_layout valid_page_relationships valid_action valid_key_name
    distinct_places
joined_there = refl

joined_connected : contains 4 joined.connected ≡ true
unfolding run step handshake allow purge record_attempt load_requested_profile get_profile
    current_profile_row revision_at register unregister send_text lookup insert valid_profile
    valid_page valid_button valid_button_layout valid_page_relationships valid_action valid_key_name
    distinct_places
joined_connected = refl

-- The press executed the button's action.
abbrev pressed : World
pressed = turn config services true 4 (message (press pressing)) joined

pressed_executed : pressed.executed ≢ joined.executed
unfolding turn handle_press session_credential_is_active cache_response send_session_text run step
    handshake allow purge record_attempt load_requested_profile get_profile current_profile_row
    revision_at register unregister send_text lookup insert valid_profile valid_page valid_button
    valid_button_layout valid_page_relationships valid_action valid_key_name distinct_places
pressed_executed same = cc (same)

abbrev chatter : List Turn
chatter = (services, true, message (ping (codes "1"))) ∷ (services, false, timed_out) ∷ []

press_runs_once_example :
    (let later = turns config 4 chatter pressed in
      (turn config services false 4 (message (press pressing)) later).executed ≡ later.executed)
press_runs_once_example =
    press_runs_once config services services true false 4 session pressing joined chatter
      joined_there pressed_executed (omega arith)
