-- ===== src/Server.antt =====
-- The running server: what `create_app` of server/app/main.py puts together. The HTTP routes, the
-- websocket handlers and the timers of the pairing sessions act on one state; each happening is one
-- step, and they come in any order.
pub mod Whole
mod Tests
use android_streamdeck.Base.{ℕ, Option, none, some, List, [], ◌∷◌}
use android_streamdeck.Base.Text.{Text}
use android_streamdeck.Profile.{Profile, Action}
use android_streamdeck.Repository.Store.{Db}
use android_streamdeck.Credentials.Audit.{empty_tables}
use android_streamdeck.Builtin.{Installation, install_builtin_profiles}
use android_streamdeck.Pairing.Manager.{new_manager, expire_from_timer}
use android_streamdeck.WebSocket.{new_world}
use android_streamdeck.WebSocket.Press.{Outcome}
use android_streamdeck.WebSocket.Serve.{Event, Services, step}
use android_streamdeck.WebSocket.Serve as Serve
use android_streamdeck.Http.{Config, Request, Moment, State}
use android_streamdeck.Http.Routes.{Route, serve}

-- What happens next: a request, a step of a websocket's handler with what the executor answers, or a
-- timer that fires.
pub data Happening : Type 0 where
  request : Moment → Request → Route → Happening
  socket : (Action → Outcome) → Event → Happening
  timer : Text → ℕ → Happening

-- The websocket manager's settings, with `max_connections` and its rate limiter from its constructor.
abbrev pub socket_config : ℕ → Config → Serve.Config
socket_config max_connections c = record {
  max_connections = max_connections;
  require_auth = c.require_auth;
  limits = c.limits;
  hash = c.hash;
  valid_url = c.valid_url;
}

-- The websocket manager has the repository and the pairing service that the routes have.
abbrev pub services_of : (Action → Outcome) → State → Services
services_of execute s = record { pairing = some s.tables; db = s.db; execute = execute }

unfoldable pub happen : ℕ → Config → Happening → State → State
happen max_connections c (request m r route) s = (serve c m r route s).1
happen max_connections c (socket execute e) s = record s {
  world = step (socket_config max_connections c) (services_of execute s) e s.world;
}
happen max_connections c (timer id mono) s = record s {
  manager = expire_from_timer id mono s.manager;
}

unfoldable pub happen_all : ℕ → Config → List Happening → State → State
happen_all max_connections c [] s = s
happen_all max_connections c (h ∷ hs) s =
    happen_all max_connections c hs (happen max_connections c h s)

-- `create_app` on a database: the built-in profile is installed, and nothing else is there.
abbrev pub started : Config → ℕ → (ℕ → Profile) → ℕ → Installation → State
started c builtin_id fixture now stored = record {
  db = (install_builtin_profiles c.valid_url builtin_id fixture now stored).1.db;
  tables = empty_tables;
  manager = new_manager;
  world = new_world;
  pairing_attempts = [];
  bootstrap_attempts = [];
  admin_attempts = [];
}
