-- ===== src/WebSocket/Replay.antt =====
-- The same press received twice by `_handle_press` of server/app/websocket.py.
pub mod Cache
use android_streamdeck.Base.{
  ℕ, ◌≡◌, ◌≢◌, refl, ◌∙◌, ap, arith, Bool, true, false, Option, none, some, is_none, inl, inr, suc,
  ◌+◌, ◌≤◌, List, [], ◌∷◌, length,
}
use android_streamdeck.Base.Dict.{Dict, lookup, lookup-insert}
use android_streamdeck.WebSocket.{Wire, ClientSession, World, unregister}
use android_streamdeck.WebSocket.Press.{Press, cache_response, ack_of, without_oldest}
use android_streamdeck.WebSocket.Serve.{
  Config, Services, Received, message, press, answer, settle, turn_held, turn,
}
use android_streamdeck.WebSocket.Replay.Cache.{Keeps, answer-Keeps, IsHeld-lookup, IsHeld-fresh}
use android_streamdeck.WebSocket.Permission.{Executes, press-Executes}

-- The end of a handler leaves what was executed, and the sessions.
settle-executed : (ws : ℕ) (r : Bool × World) → (settle ws r).executed ≡ r.1.executed
unfolding unregister
settle-executed ws (true, w) = refl
settle-executed ws (false, w) = refl

settle-sessions : (ws : ℕ) (r : Bool × World) → (settle ws r).sessions ≡ r.1.sessions
unfolding unregister
settle-sessions ws (true, w) = refl
settle-sessions ws (false, w) = refl

-- A turn with a press, on the session that is stored.
turn-Executes :
    (c : Config) (v : Services) (up : Bool) (ws : ℕ) (s : ClientSession) (m : Press) (w : World)
    → lookup ws w.sessions ≡ some s
    → Executes c v ws s m w (turn c v up ws (message (press m)) w)
unfolding turn
turn-Executes c v up ws s m w there =
    let r = answer c v up ws s (message (press m)) w in
    let e = settle-executed ws r in
    let f = settle-sessions ws r in
    let held : turn_held c v up ws (lookup ws w.sessions) (message (press m)) w ≡ settle ws r =
      ap (λ (o : Option ClientSession). turn_held c v up ws o (message (press m)) w) there in
    elim (press-Executes c v up ws s m w) [
      | inl same ↦ inl (ap (λ (x : World). x.executed) held ∙ e ∙ same)
      | inr (action, done, permitted, stored) ↦ inr (
        action,
        ap (λ (x : World). x.executed) held ∙ e ∙ done,
        permitted,
        ap (λ (x : World). lookup ws x.sessions) held
            ∙ ap (λ (d : Dict ClientSession). lookup ws d) f
            ∙ stored,
      )
    ]

-- A press whose request the session has an answer for executes nothing.
cached-executed :
    (c : Config) (v : Services) (up : Bool) (ws : ℕ) (s : ClientSession) (m : Press) (w : World)
    → lookup ws w.sessions ≡ some s
    → is_none (lookup m.request_id s.responses) ≡ false
    → (turn c v up ws (message (press m)) w).executed ≡ w.executed
cached-executed c v up ws s m w there cached = elim (turn-Executes c v up ws s m w there) [
  | inl same ↦ same
  | inr (action, done, permitted, stored) ↦ absurd (cc (permitted.fresh, cached))
]

-- A turn of one websocket's handler: what the services answer, whether the websocket takes a message, and
-- what is received.
abbrev pub Turn : Type 0
Turn = Services × Bool × Received

abbrev pub turns : Config → ℕ → List Turn → World → World
turns c ws [] w = w
turns c ws ((v, up, r) ∷ rest) w = turns c ws rest (turn c v up ws r w)

turn_held-Keeps :
    (id n : ℕ) (c : Config) (v : Services) (up : Bool) (ws : ℕ) (o : Option ClientSession)
    (r : Received) (w : World)
    → suc n ≤ 255
    → lookup ws w.sessions ≡ o
    → Keeps id n o
    → Keeps id (suc n) (lookup ws (turn_held c v up ws o r w).sessions)
turn_held-Keeps id n c v up ws none r w few there h = absurd h
turn_held-Keeps id n c v up ws (some s) r w few there h =
    rw (settle-sessions ws (answer c v up ws s r w)) (answer-Keeps id n few up ws s w there h c v r)

turns-Keeps :
    (id n : ℕ) (c : Config) (ws : ℕ) (rs : List Turn) (w : World)
    → n + length rs ≤ 255
    → Keeps id n (lookup ws w.sessions)
    → Keeps id (n + length rs) (lookup ws (turns c ws rs w).sessions)
turns-Keeps id n c ws [] w few h = let same : n + 0 ≡ n = omega arith in rw same h
turns-Keeps id n c ws ((v, up, r) ∷ rest) w few h =
    let same : n + suc (length rest) ≡ suc n + length rest = omega arith in
    rw same (
      turns-Keeps id (suc n) c ws rest (turn c v up ws r w) (omega (arith, few)) (
        unfold turn in
        turn_held-Keeps id n c v up ws (lookup ws w.sessions) r w (omega (arith, few)) refl h))

-- What the session keeps is answered without an execution.
Keeps-executed :
    (c : Config) (v : Services) (up : Bool) (ws n : ℕ) (o : Option ClientSession) (m : Press)
    (w : World)
    → lookup ws w.sessions ≡ o
    → Keeps m.request_id n o
    → (turn c v up ws (message (press m)) w).executed ≡ w.executed
Keeps-executed c v up ws n none m w there h = absurd h
Keeps-executed c v up ws n (some s) m w there h =
    cached-executed c v up ws s m w there (IsHeld-lookup m.request_id n s.responses h)

-- If a turn with a press executed an action for the session that is stored, then after at most 255
-- further turns of its handler, with any messages and any answers of the services, a turn with the same
-- press executes nothing.
pub press_runs_once :
    (c : Config) (v v' : Services) (up up' : Bool) (ws : ℕ) (s : ClientSession) (m : Press)
    (w : World) (between : List Turn)
    → lookup ws w.sessions ≡ some s
    → (turn c v up ws (message (press m)) w).executed ≢ w.executed
    → length between ≤ 255
    → (let later = turns c ws between (turn c v up ws (message (press m)) w) in
        (turn c v' up' ws (message (press m)) later).executed ≡ later.executed)
press_runs_once c v v' up up' ws s m w between there ran few =
    elim (turn-Executes c v up ws s m w there) [
      | inl same ↦ absurd (ran same)
      | inr (action, done, permitted, stored) ↦
          let reply = ack_of m.request_id (v.execute action) in
          let w1 = turn c v up ws (message (press m)) w in
          let kept : Keeps m.request_id 0 (lookup ws w1.sessions) =
            rw stored (IsHeld-fresh m.request_id reply s permitted.fresh) in
          let later = turns c ws between w1 in
          Keeps-executed c v' up' ws (0 + length between) (lookup ws later.sessions) m later refl
            (turns-Keeps m.request_id 0 c ws between w1 (omega (arith, few)) kept)
    ]
