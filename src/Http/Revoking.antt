-- ===== src/Http/Revoking.antt =====
-- What a revocation and a claim of server/app/api.py have done when they are answered.
use android_streamdeck.Base.{
  ℕ, ◌≡◌, refl, ◌∙◌, Bool, true, false, Option, none, some, arith, any, contains, find_first, ◌==◌,
  is_none, Option-cases, inl, inr,
}
use android_streamdeck.Base.Text.{Text}
use android_streamdeck.Base.Dict.{lookup, lookup-insert}
use android_streamdeck.Credentials.{
  Reason, Client, Tables, pairing_session, pairing_code, is_revocation_reason, revoke_row,
  revoke_client, authenticate, active_credential_generation, is_credential_generation_active,
}
use android_streamdeck.Credentials as Credentials
use android_streamdeck.Credentials.Inventory.{Device, list_clients, listed_iff_there}
use android_streamdeck.WebSocket.{ClientSession, World, invalidate_client_sessions}
use android_streamdeck.WebSocket.Sends.{invalidated_at}
use android_streamdeck.WebSocket.Bounds as WebSocket
use android_streamdeck.WebSocket.Revocation.{invalidation_is_complete}
use android_streamdeck.Http.{
  internal_error, device_admin_unavailable, device_not_found, ApiError, api_error, Config, Request,
  Moment, State, Outcome, returned, raised, Handler, continue, ◌>>=◌, require, gets,
  require_device_admin, invalidate_sessions,
}
use android_streamdeck.Http.Frame.{IsSame, Reads}
use android_streamdeck.Http.Devices.{
  service_outcome, next_device, call_revoke, revoke_listed, revoke_device_route,
}
use android_streamdeck.Http.Refusal.Devices.{require_device_admin-Reads}

-- A step that returned, taken apart.
pub bind-returned :
    {A B : Type 0} (m : Handler A) (f : A → Handler B) (s s' : State) (b : B)
    → (m >>= f) s ≡ (returned b, s')
    → (a : A) × (s1 : State) × (m s ≡ (returned a, s1)) × (f a s1 ≡ (returned b, s'))
unfolding ◌>>=◌
bind-returned {A} {B} m f s s' b h = go (m s) refl h
  where
    go :
        (r : Outcome A × State)
        → m s ≡ r
        → continue f r ≡ (returned b, s')
        → (a : A) × (s1 : State) × (m s ≡ (returned a, s1)) × (f a s1 ≡ (returned b, s'))
    go (returned a, s1) e k = (a, s1, e, k)
    go (raised x, s1) e k = absurd (cc)

pub require-returned :
    (b : Bool) (e : ApiError) (s s' : State) (u : Unit {0})
    → require b e s ≡ (returned u, s')
    → (b ≡ true) × (s' ≡ s)
require-returned true e s s' u h = (refl, ground arith)
require-returned false e s s' u h = cc

-- The client's websockets are closed to it: each that was connected is invalidated and gone.
pub AreClosed : ℕ → World → World → Type 0
AreClosed client_id w w' =
    (ws : ℕ) (session : ClientSession)
    → lookup ws w.sessions ≡ some session
    → session.client_id ≡ client_id
    → contains ws w.connected ≡ true
    → (invalidated_at ws w' ≡ true) × (contains ws w'.connected ≡ false)

pub AreClosed-from :
    (client_id : ℕ) (w w1 w2 : World)
    → w1 ≡ w
    → AreClosed client_id w1 w2
    → AreClosed client_id w w2
AreClosed-from client_id w w1 w2 e h = rw (← e) h

pub invalidate_sessions-AreClosed :
    (n : ℕ) (c : Config) (m : Moment) (client_id : ℕ) (s s' : State) (u : Unit {0})
    → c.has_websockets ≡ true
    → WebSocket.IsSound n s.world
    → invalidate_sessions c m client_id s ≡ (returned u, s')
    → AreClosed client_id s.world s'.world × (s'.tables ≡ s.tables) × (s'.db ≡ s.db)
unfolding invalidate_sessions AreClosed
invalidate_sessions-AreClosed n c m client_id s s' u on sound h =
    let w' = (invalidate_client_sessions m.up client_id s.world).1 in
    let world : s'.world ≡ w' = ground arith in
    (
      λ ws session there own joined.
          rw (world, ← own) (invalidation_is_complete n m.up ws session s.world sound there joined),
      ground arith,
      ground arith,
    )

-- No token authenticates the client, and no generation of it is active.
pub record IsShutOut (hash : Text → ℕ) (client_id : ℕ) (t : Tables) : Type 0 where
  pub tokens : (token : Option Text) → authenticate hash client_id token t ≡ false
  pub generations : (g : ℕ) → is_credential_generation_active client_id g t ≡ false

-- A revocation that returned shuts the client out, also where it was revoked before.
revoke_client-IsShutOut :
    (hash : Text → ℕ) (client_id : ℕ) (reason : Reason) (now : ℕ) (t t' : Tables) (done : Bool)
    → is_none (lookup client_id t.clients) ≡ false
    → revoke_client client_id reason now t ≡ (Credentials.ok done, t')
    → IsShutOut hash client_id t'
unfolding revoke_client revoke_row authenticate active_credential_generation
    is_credential_generation_active
revoke_client-IsShutOut hash client_id reason now t t' done there h =
    elim (Option-cases (lookup client_id t.clients)) [
      | inl e ↦ absurd (ground arith)
      | inr (c, e) ↦
          let row = record c { revoked_at = some now; revoked_reason = some reason } in
          let self = lookup-insert client_id client_id row t.clients in
          record { tokens = λ token. ground (arith, self); generations = λ g. ground (arith, self) }
    ]

call_revoke-returned :
    (c : Config) (r : Request) (m : Moment) (client_id : ℕ) (reason : Reason) (s s' : State)
    (done : Bool)
    → call_revoke c r m client_id reason s ≡ (returned done, s')
    → (revoke_client client_id reason m.timestamp s.tables ≡ (Credentials.ok done, s'.tables))
      × (s'.world ≡ s.world)
      × (s'.db ≡ s.db)
unfolding call_revoke
call_revoke-returned c r m client_id reason s s' done h =
    go (revoke_client client_id reason m.timestamp s.tables) refl h
  where
    go :
        (a : Credentials.Result Bool × Tables)
        → revoke_client client_id reason m.timestamp s.tables ≡ a
        → ◌≡◌ {A = Outcome Bool × State}
            (
              service_outcome (λ e. api_error 500 internal_error false) a.0,
              record s { tables = a.1 },
            )
            (returned done, s')
        → (revoke_client client_id reason m.timestamp s.tables ≡ (Credentials.ok done, s'.tables))
          × (s'.world ≡ s.world)
          × (s'.db ≡ s.db)
    go (Credentials.ok b, t) e k = (ground arith, ground arith, ground arith)
    go (Credentials.err x, t) e k = absurd (ground arith)

next_device-same :
    (o : Option Device) (s s' : State) (d : Device) → next_device o s ≡ (returned d, s') → s' ≡ s
next_device-same none s s' d h = absurd (ground arith)
next_device-same (some x) s s' d h = ground arith

-- What an answered revocation leaves.
pub record IsRevoked (c : Config) (client_id : ℕ) (s s' : State) : Type 0 where
  pub shut_out : IsShutOut c.hash client_id s'.tables
  pub closed : AreClosed client_id s.world s'.world
  pub kept : s'.db ≡ s.db

pub state_of :
    {A : Type 0} (m : Handler A) (s s' : State) (a : A)
    → m s ≡ (returned a, s')
    → Reads m
    → IsSame s s'
state_of m s s' a h k = let same : (m s).1 ≡ s' = ground arith in rw (← same) (k s)

-- The checks of the route passed, and nothing but a limiter changed by then.
revoke_checked :
    (c : Config) (r : Request) (m : Moment) (client_id : ℕ) (reason : Reason) (s s' : State)
    (device : Device)
    → revoke_device_route c r m client_id reason s ≡ (returned device, s')
    → (s4 : State) × IsSame s s4
      × (is_none (lookup client_id s4.tables.clients) ≡ false)
      × (revoke_listed c r m client_id reason s4 ≡ (returned device, s'))
unfolding revoke_device_route
revoke_checked c r m client_id reason s s' device h =
    let (u1, s1, e1, h1) = bind-returned (require_device_admin c r m) _ s s' device h in
    let same =
      state_of (require_device_admin c r m) s s1 u1 e1 (require_device_admin-Reads c r m) in
    let unavailable = api_error 503 device_admin_unavailable true in
    let (u2, s2, e2, h2) =
      bind-returned (require c.has_pairing_service unavailable) _ s1 s' device h1 in
    let (served, at2) = require-returned c.has_pairing_service unavailable s1 s2 u2 e2 in
    let (devices, s3, e3, h3) =
      bind-returned (gets (λ q. list_clients c.before q.tables)) _ s2 s' device h2 in
    let is_there = any (λ (d : Device). d.client_id == client_id) devices in
    let missing = api_error 404 device_not_found false in
    let (u4, s4, e4, h4) = bind-returned (require is_there missing) _ s3 s' device h3 in
    let (listed, at4) = require-returned is_there missing s3 s4 u4 e4 in
    let at : s4 ≡ s1 = ground arith in
    (s4, rw at same, ground (arith, listed_iff_there c.before client_id s4.tables), h4)

-- A revocation of a device that is answered, in a state where the invariant of the websocket manager
-- holds: no token authenticates the client any more, no generation of it is active, each of its
-- connected websockets is invalidated and no longer connected, and the profiles are as they were.
pub revoke_device_route-IsRevoked :
    (n : ℕ) (c : Config) (r : Request) (m : Moment) (client_id : ℕ) (reason : Reason) (s s' : State)
    (device : Device)
    → c.has_websockets ≡ true
    → WebSocket.IsSound n s.world
    → revoke_device_route c r m client_id reason s ≡ (returned device, s')
    → IsRevoked c client_id s s'
unfolding revoke_listed
revoke_device_route-IsRevoked n c r m client_id reason s s' device on sound h =
    let (s4, same, there, h4) = revoke_checked c r m client_id reason s s' device h in
    let (done, s5, e5, h5) = bind-returned (call_revoke c r m client_id reason) _ s4 s' device h4 in
    let (revoked, world5, db5) = call_revoke-returned c r m client_id reason s4 s5 done e5 in
    let (u6, s6, e6, h6) = bind-returned (invalidate_sessions c m client_id) _ s5 s' device h5 in
    let world : s5.world ≡ s.world = world5 ∙ same.world in
    let (closed, tables6, db6) =
      invalidate_sessions-AreClosed n c m client_id s5 s6 u6 on (rw world sound) e6 in
    let (device7, s7, e7, h7) =
      bind-returned
        (gets (λ q. find_first (λ d. d.client_id == client_id) (list_clients c.before q.tables)))
        next_device s6 s' device h6 in
    let at7 : s7 ≡ s6 = ground arith in
    let at8 = next_device-same device7 s7 s' device h7 in
    let final : s' ≡ s6 = at8 ∙ at7 in
    rw final (record {
      shut_out = rw tables6 (
          revoke_client-IsShutOut c.hash client_id reason m.timestamp s4.tables s5.tables done there
            revoked);
      closed = AreClosed-from client_id s.world s5.world s6.world world closed;
      kept = db6 ∙ db5 ∙ same.db;
    })
