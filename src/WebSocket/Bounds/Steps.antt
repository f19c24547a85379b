-- ===== src/WebSocket/Bounds/Steps.antt =====
-- The limits across a revocation, a broadcast and a run.
use android_streamdeck.Base.{
  ℕ, ◌≡◌, refl, arith, Bool, true, false, not, ◌&&◌, Option, none, some, List, [], ◌∷◌, ◌++◌, leb,
  is_none, Bool-cases, inl, inr,
}
use android_streamdeck.Base.Dict.{lookup}
use android_streamdeck.WebSocket.{
  error, auth_revoked, ChangeReason, is_deleted, last_revision, send_held, send_live, close_held,
  Wire, profile_changed, ClientSession, World, new_world, send_text, close, put_session,
  close_session, close_each, invalidate_client_sessions, sessions_of_client, send_broadcast,
  broadcast_each, broadcast_profile_changed, watchers,
}
use android_streamdeck.WebSocket.Serve.{
  Config, Services, turn, Event, arrives, receives, revokes, changes, step, run,
}
use android_streamdeck.WebSocket.Bounds.{
  IsSound, send_text-IsSame, same-IsSound, put_session-IsSound, unregister-IsSound, drop-IsSound,
}
use android_streamdeck.WebSocket.Bounds.Handler.{small_at, turn_held-IsSound}
use android_streamdeck.WebSocket.Bounds.Handshake.{handshake-IsSound}

module _ (n : ℕ) where
  close_held-IsSound :
      (up : Bool) (k : ℕ) (o : Option ClientSession) (w : World)
      → lookup k w.sessions ≡ o
      → IsSound n w
      → IsSound n (close_held up k o w)
  close_held-IsSound up k none w there v = v
  close_held-IsSound up k (some s) w there v =
      let w1 = put_session k (record s { invalidated = true }) w in
      let e = send_text-IsSame up k (error auth_revoked none) w1 in
      drop-IsSound n k s w (close k 1008 (send_text up k (error auth_revoked none) w1).1)
        (record { sessions = e.sessions; connected = e.connected }) there v

  pub close_each-IsSound :
      (up : ℕ → Bool) (ks : List ℕ) (w : World) → IsSound n w → IsSound n (close_each up ks w)
  unfolding close_session
  close_each-IsSound up [] w v = v
  close_each-IsSound up (k ∷ ks) w v =
      close_each-IsSound up ks (close_session (up k) k w)
        (close_held-IsSound (up k) k (lookup k w.sessions) w refl v)

  send_live-IsSound :
      (up : Bool) (k : ℕ) (m : Wire) (s : ClientSession) (w : World)
      → lookup k w.sessions ≡ some s
      → IsSound n w
      → IsSound n (send_live up k m s w).1
  unfolding send_live
  send_live-IsSound up k m s w there v = elim (Bool-cases s.ready) [
    | inl r ↦ simp r (same-IsSound n w (send_text up k m w).1 (send_text-IsSame up k m w) v)
    | inr r ↦ simp r (
        put_session-IsSound n k s
          (record s { ready = false; pending_messages = s.pending_messages ++ m ∷ [] }) w there refl
          (small_at n k s w there v) v)
  ]

  send_held-IsSound :
      (up : Bool) (k : ℕ) (m : Wire) (o : Option ClientSession) (w : World)
      → lookup k w.sessions ≡ o
      → IsSound n w
      → IsSound n (send_held up k m o w).1
  send_held-IsSound up k m none w there v = v
  send_held-IsSound up k m (some s) w there v = elim (Bool-cases s.invalidated) [
    | inl f ↦ simp f v
    | inr f ↦ simp f (send_live-IsSound up k m s w there v)
  ]

  broadcast_each-IsSound :
      (up : ℕ → Bool) (m : Wire) (ks : List ℕ) (w : World)
      → IsSound n w
      → IsSound n (broadcast_each up m ks w)
  unfolding broadcast_each send_broadcast
  broadcast_each-IsSound up m [] w v = v
  broadcast_each-IsSound up m (k ∷ ks) w v =
      let sent = send_broadcast (up k) k m w in
      let r =
        broadcast_each-IsSound up m ks sent.1
          (send_held-IsSound (up k) k m (lookup k w.sessions) w refl v) in
      elim (Bool-cases sent.0) [
        | inl e ↦ simp e (unregister-IsSound n k (broadcast_each up m ks sent.1) r)
        | inr e ↦ simp e r
      ]

  pub broadcast-IsSound :
      (up : ℕ → Bool) (id rev : ℕ) (reason : ChangeReason) (w : World)
      → IsSound n w
      → IsSound n (broadcast_profile_changed up id rev reason w)
  unfolding broadcast_profile_changed
  broadcast-IsSound up id rev reason w v =
      elim (Bool-cases (not (is_deleted reason) && leb rev (last_revision id w))) [
        | inl e ↦ rw e v
        | inr e ↦ rw e (
            broadcast_each-IsSound up (profile_changed id rev reason) (watchers id w) _
              (record { few = v.few; live = v.live; small = v.small }))
      ]

pub step-IsSound :
    (c : Config) (sv : Services) (e : Event) (w : World)
    → IsSound c.max_connections w
    → IsSound c.max_connections (step c sv e w)
unfolding step turn invalidate_client_sessions
step-IsSound c sv (receives up k r) w v =
    turn_held-IsSound c.max_connections c sv up k (lookup k w.sessions) r w refl v
step-IsSound c sv (revokes up client_id) w v =
    close_each-IsSound c.max_connections up (sessions_of_client client_id w) w v
step-IsSound c sv (changes up id rev reason) w v =
    broadcast-IsSound c.max_connections up id rev reason w v
step-IsSound c sv (arrives now origin late room k r) w v =
    elim (Bool-cases (is_none (lookup k w.sessions))) [
      | inl e ↦ rw e (handshake-IsSound c k sv now origin late room r w v)
      | inr e ↦ rw e v
    ]

run-IsSound :
    (c : Config) (es : List (Services × Event)) (w : World)
    → IsSound c.max_connections w
    → IsSound c.max_connections (run c es w)
unfolding run
run-IsSound c [] w v = v
run-IsSound c ((sv, e) ∷ es) w v = run-IsSound c es (step c sv e w) (step-IsSound c sv e w v)

pub new_world-IsSound : (n : ℕ) → IsSound n new_world
unfolding lookup
new_world-IsSound n = record {
  few = omega arith;
  live = λ k h. ground arith;
  small = λ k. omega arith;
}

-- After any run from the start: at most `max_connections` websockets are connected, every one of them
-- has a session that is not invalidated, and no session has more than 256 cached responses.
pub sessions_bounded :
    (c : Config) (es : List (Services × Event)) → IsSound c.max_connections (run c es new_world)
sessions_bounded c es = run-IsSound c es new_world (new_world-IsSound c.max_connections)
