-- ===== src/Http/Sample.antt =====
-- Settings, a request and a state for the tests of the HTTP interface and of the server.
use android_streamdeck.Base.{ℕ, ◌+◌, ◌*◌, refl, arith, true, false, none, some, [], ◌∷◌, leb, ◌==◌}
use android_streamdeck.Base.Text.{Text, codes}
use android_streamdeck.Credentials.{android, Client, Tables}
use android_streamdeck.Pairing.Manager.{new_manager}
use android_streamdeck.Pairing.Sample.{toy}
use android_streamdeck.Profile.Sample.{any_url, deck}
use android_streamdeck.Repository.Methods.Runs.{create, perform, new_db}
use android_streamdeck.WebSocket.{ClientSession, World, new_world, register}
use android_streamdeck.WebSocket.Bounds.{IsSound, register-IsSound}
use android_streamdeck.WebSocket.Bounds.Steps.{new_world-IsSound}
use android_streamdeck.Http.{Config, Request, Moment, State}

-- A hash that tells texts of bytes apart.
abbrev pub digest : Text → ℕ
digest [] = 0
digest (x ∷ xs) = x + 1 + 257 * digest xs

abbrev pub config : Config
config = record {
  require_auth = true;
  has_websockets = true;
  has_pairing_service = true;
  has_session_manager = true;
  pairing_code = some (codes "pair-1");
  admin_code = some (codes "owner-1");
  ca_certificate_pem = codes "pem";
  local_pairing_supported = true;
  server_ip = some (codes "10.0.0.1");
  port = 8765;
  limits = record { max_attempts = 5; window = 60; max_origins = 4096 };
  hash = digest;
  valid_url = any_url;
  spelling = λ i. i ∷ [];
  before = leb;
  conforms = λ p. true;
  lower = λ t. t;
  is_loopback = λ origin. origin == 0;
  library = toy;
}

abbrev pub moment : Moment
moment = record {
  timestamp = 200;
  wall = 0;
  mono = 0;
  tick = 10;
  token = 4 ∷ [];
  code_bytes = 1 ∷ [];
  salt = 3 ∷ [];
  up = λ ws. true;
}

-- Client 5 with its token, and the owner with the code.
abbrev pub by_client : Request
by_client = record {
  authorization = codes "bearer abc";
  client_id = some 5;
  admin_code = [];
  origin = 9;
}

abbrev pub by_owner : Request
by_owner = record { authorization = []; client_id = none; admin_code = codes "owner-1"; origin = 0 }

abbrev pub by_nobody : Request
by_nobody = record { authorization = []; client_id = none; admin_code = []; origin = 9 }

abbrev pub client_row : Client
client_row = record {
  client_version = codes "1";
  platform = android;
  device_label = none;
  token_hash = digest (codes "abc");
  generation = 1;
  paired_at = 100;
  last_seen_at = none;
  revoked_at = none;
  revoked_reason = none;
}

abbrev pub paired : Tables
paired = record { clients = (5, client_row) ∷ []; audit = [] }

abbrev pub session : ClientSession
session = record {
  client_id = 5;
  profile_id = 7;
  credential_generation = some 1;
  responses = [];
  ready = true;
  invalidated = false;
  pending_messages = [];
}

-- Client 5 is connected on websocket 4.
abbrev pub connected : World
connected = (register 8 4 session new_world).1

pub connected-IsSound : IsSound 8 connected
connected-IsSound = register-IsSound 8 4 session new_world refl (omega arith) (new_world-IsSound 8)

abbrev pub state : State
state = record {
  db = perform any_url (create deck 100) new_db;
  tables = paired;
  manager = new_manager;
  world = connected;
  pairing_attempts = [];
  bootstrap_attempts = [];
  admin_attempts = [];
}
