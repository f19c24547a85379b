-- ===== src/Lib.antt =====
-- The Windows server of android-streamdeck: a verification library beside server/app.
--
-- The server keeps button profiles in SQLite, pairs Android clients by a one-time password, gives them
-- tokens, and serves them by WebSocket: a client says hello with its token, gets its profile, and
-- presses buttons whose actions the server executes. Attempts are limited by origin.
--
-- Files and the code that they model:
-- * Base, Base/…: Boolean tests, lists, dictionaries in insertion order, texts as lists of code points.
-- * RateLimit (server/app/rate_limit.py): `AttemptRateLimiter`. RateLimit/Bounds and RateLimit/History
--   follow the stored attempts and one origin's admissions, RateLimit/Recovery a pause.
-- * Credentials (server/app/pairing.py, tables of server/app/migrations.py): `PairingService`.
--   Credentials/Lifecycle and Credentials/Audit are about sequences of its operations.
-- * Pairing/Checks, Pairing/Proof, Pairing/Retired, Pairing/Manager (server/app/pairing_session.py):
--   the checks, the derived keys and proofs, and `PairingSessionManager`; Pairing/Library lists the
--   third-party functions that they take as parameters (SHA-256, HMAC, HKDF, base64, base32, IPv4
--   parsing, the time format). Pairing/Manager/Scan follows a code from its creation to the bundle.
-- * Profile (server/app/schemas.py): profiles, pages, buttons, actions and their validators. The rule
--   for URLs is a parameter.
-- * Repository/Store, Repository/Pages, Repository/Methods (server/app/repositories/profiles.py,
--   `transaction` of server/app/db.py): the two tables, the page mutations and `ProfileRepository`.
--   Repository/Methods/Archive follows the recorded revisions over runs, Repository/Methods/Updates two
--   callers with the same revision.
-- * Repository/Seed, Repository/Reads: `seed_profile`, `list_profiles` and `list_audit`;
--   Credentials/Inventory: `list_clients`.
-- * Builtin (server/app/builtin_profiles.py): the installation and the upgrade of the built-in profile
--   over the repository's helpers, with its marker; the fixture files are a parameter.
-- * Http, Http/Profiles, Http/Devices, Http/Routes (server/app/api.py, the checks of
--   server/app/profile_transfer.py): the routes over the operations above, with `APIError`s as values.
--   Http/Frame has the two kinds of statement that compose along a route; Http/Invariant and
--   Http/Refusal follow the routes, Http/Access, Http/Claiming and Http/Revoking what they grant.
-- * Server (`create_app` of server/app/main.py): one state under requests, websocket steps and timers in
--   any order.
-- * WebSocket, WebSocket/Press, WebSocket/Serve (server/app/websocket.py): `WebSocketManager`,
--   `_handle_press`, and `_serve_websocket` as a handshake and turns of its loop. It uses the modules
--   above: `RateLimit.allow` for the handshake, `Credentials` for the token and the generation,
--   `Repository.Methods.get_profile` for the profile of a press.
--   WebSocket/Replay/Cache follows the cached answers.
-- * Actions (server/app/actions.py): the hotkey, key and media adapters and `ActionRegistry.execute`,
--   which gives the outcome that a press in WebSocket/Press is answered with. Actions/TextInput has the
--   text adapter.
-- * Catalog (server/app/catalog.py, `WindowsApplicationAdapter`): the applications that may be launched.
-- * Settings, Settings/Environment, Settings/Safe (server/app/config.py, `normalize_tls_identities` of
--   server/app/tls.py): the checks of `Settings`, `from_env`, its properties, and the address that is
--   put into a pairing code.
-- * Discovery, Discovery/Clients (server/app/discovery.py): `DiscoveryPublisher` and its clients.
-- * Telemetry, Telemetry/Order, Telemetry/Primary (server/app/gpu_telemetry.py): the readings of graphics
--   cards and the choice of the one that is shown.
-- * Http/Sample, Settings/Sample, Profile/Sample, Pairing/Sample, and the modules called Tests: data and
--   runs.
--
-- Conventions. State is passed explicitly and an operation returns its result with the next state; an
-- exception is a value of a result type. Ids are numbers where only their equality matters and texts
-- where a check reads them. Times are numbers and arguments, random bytes too. A method that holds a
-- lock or a transaction is one step, so an interleaving of calls is a list of steps. There is no fuel:
-- every function recurses on a list.
--
-- In the WebSocket model one step is what a handler does between two messages, a revocation or a
-- broadcast; a press is one step although the server executes its action on another thread. A step
-- says whether a socket takes the message, and a send that fails ends the handler as a disconnect does.
-- The greeting follows the registration in the same step, since nothing there gives way to another
-- task before the session's lock is taken. Turns may come in any order, also after a handler's end.
--
-- In the HTTP model a request is one step, and what FastAPI refuses before a route runs is one case. The
-- three limiters are those of `create_router`.
--
-- Not modelled: the paths of the configuration, TLS certificates, the adapters for URLs and
-- measurements, the decoding of JSON, the body limit, the schema migrations, and the Android client.
-- SQLite is taken to keep its constraints and to roll a failed transaction back; JSON texts of
-- snapshots are taken as the profiles that they encode.
pub mod Base
pub mod RateLimit
pub mod Builtin
pub mod Catalog
pub mod Credentials
pub mod Discovery
pub mod Http
pub mod Pairing
pub mod Profile
pub mod Repository
pub mod Server
pub mod Settings
pub mod Telemetry
pub mod WebSocket
pub mod Actions
