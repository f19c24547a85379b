-- ===== src/WebSocket/Silence.antt =====
-- What is sent on the websocket of an invalidated session (server/app/websocket.py), in every step.
pub mod Handler
pub mod Handshake
use Handler.{turn_held-IsQuiet}
use Handshake.{handshake-IsQuiet}
use android_streamdeck.Base.{
  ℕ, ◌-◌, ◌≡◌, ◌≢◌, refl, ◌∙◌, arith, Bool, true, false, not, ◌&&◌, ◌||◌, Option, none, some, List,
  [], ◌∷◌, ◌++◌, find_first, leb, keep, All, ◌==◌, is_none, if◌then◌else◌, Bool-cases, Option-cases,
  inl, inr,
}
use android_streamdeck.Base.Text.{Text}
use android_streamdeck.Base.Dict.{Dict, lookup, insert, erase, lookup-insert}
use android_streamdeck.Profile.{Action, Profile, Page, Button}
use android_streamdeck.Repository.Store.{Result, ok, err}
use android_streamdeck.WebSocket.{
  ErrorCode, error, auth_revoked, ChangeReason, is_deleted, last_revision, send_held, send_live,
  close_held, connection_limit, rate_limited, welcome, profile_snapshot, profile_revision_conflict,
  Wire, profile_changed, ClientSession, World, send_text, close, put_session, send_session_text,
  register, unregister, close_session, close_each, invalidate_client_sessions, is_client,
  sessions_of_client, send_broadcast, broadcast_each, broadcast_profile_changed, is_watching,
  watchers,
}
use android_streamdeck.WebSocket.Press.{
  Press, Outcome, cache_response, ack_of, answer_error, run_action, press_button, press_page,
  press_profile, press_fresh, handle_press,
}
use android_streamdeck.RateLimit.{allow}
use android_streamdeck.Credentials.{Tables, active_credential_generation}
use android_streamdeck.WebSocket.Serve.{
  Hello, Incoming, hello, ping, press, other_message, unparsable, Received, timed_out, disconnected,
  message, Config, Services, settle, refuse, send_all, greet, new_session, join, load_and_join,
  load_requested_profile, with_generation, authenticated, greeted, handshake,
  session_credential_is_active, dismiss, answer, turn_held, turn, Event, arrives, receives, revokes,
  changes, step, run,
}
use android_streamdeck.WebSocket.Sends.{
  messages_to, invalidated_at, IsQuiet, spares, IsQuiet-trans, send_text-IsQuiet,
  send_session_text-IsQuiet, put_session-IsQuiet, unregister-IsQuiet, close-IsQuiet,
  register-IsQuiet, cache_response-invalidated,
}

module _ (ws : ℕ) where
  close_session-IsQuiet :
      (up : Bool) (k : ℕ) (o : Option ClientSession) (w : World)
      → (k == ws) ≡ false
      → invalidated_at ws w ≡ true
      → IsQuiet ws w (close_held up k o w)
  close_session-IsQuiet up k none w ne over = record { silent = refl; still = over }
  close_session-IsQuiet up k (some s) w ne over =
      let s' = record s { invalidated = true } in
      let w1 = put_session k s' w in
      let p1 = put_session-IsQuiet ws k s' w (ground (arith, ne)) over in
      let w2 = (send_text up k (error auth_revoked none) w1).1 in
      let p2 = send_text-IsQuiet ws up k (error auth_revoked none) w1 ne p1.still in
      let p3 = close-IsQuiet ws k 1008 w2 p2.still in
      let p4 = unregister-IsQuiet ws k (close k 1008 w2) p3.still in
      record { silent = p4.silent ∙ p3.silent ∙ p2.silent ∙ p1.silent; still = p4.still }

  close_each-IsQuiet :
      (up : ℕ → Bool) (ks : List ℕ) (w : World)
      → All (λ k. (k == ws) ≡ false) ks
      → invalidated_at ws w ≡ true
      → IsQuiet ws w (close_each up ks w)
  unfolding close_session
  close_each-IsQuiet up [] w ne over = record { silent = refl; still = over }
  close_each-IsQuiet up (k ∷ ks) w ne over =
      let q = close_session-IsQuiet (up k) k (lookup k w.sessions) w ne.0 over in
      IsQuiet-trans ws w (close_session (up k) k w) _ q
        (close_each-IsQuiet up ks (close_session (up k) k w) ne.1 q.still)

  -- An invalidated session is no target of another revocation.
  targets-differ :
      (client_id : ℕ) (w : World) (ks : List ℕ)
      → invalidated_at ws w ≡ true
      → All (λ k. (k == ws) ≡ false) (keep (λ k. is_client client_id (lookup k w.sessions)) ks)
  targets-differ client_id w [] over = tt
  targets-differ client_id w (k ∷ ks) over =
      ground (arith, over, targets-differ client_id w ks over)

  send_live-IsQuiet :
      (up : Bool) (k : ℕ) (m : Wire) (s : ClientSession) (w : World)
      → (k == ws) ≡ false
      → invalidated_at ws w ≡ true
      → IsQuiet ws w (send_live up k m s w).1
  unfolding send_live
  send_live-IsQuiet up k m s w ne over = elim (Bool-cases s.ready) [
    | inl r ↦ simp r (send_text-IsQuiet ws up k m w ne over)
    | inr r ↦ simp r (
        put_session-IsQuiet ws k
          (record s { ready = false; pending_messages = s.pending_messages ++ m ∷ [] }) w
          (ground (arith, ne)) over)
  ]

  send_held-IsQuiet :
      (up : Bool) (k : ℕ) (m : Wire) (o : Option ClientSession) (w : World)
      → lookup k w.sessions ≡ o
      → invalidated_at ws w ≡ true
      → IsQuiet ws w (send_held up k m o w).1
  send_held-IsQuiet up k m none w e over = record { silent = refl; still = over }
  send_held-IsQuiet up k m (some s) w e over = elim (Bool-cases s.invalidated) [
    | inl f ↦ simp f (record { silent = refl; still = over })
    | inr f ↦ simp f (send_live-IsQuiet up k m s w (ground (arith, e, over)) over)
  ]

  broadcast_each-IsQuiet :
      (up : ℕ → Bool) (m : Wire) (ks : List ℕ) (w : World)
      → invalidated_at ws w ≡ true
      → IsQuiet ws w (broadcast_each up m ks w)
  unfolding broadcast_each send_broadcast
  broadcast_each-IsQuiet up m [] w over = record { silent = refl; still = over }
  broadcast_each-IsQuiet up m (k ∷ ks) w over =
      let sent = send_broadcast (up k) k m w in
      let q = send_held-IsQuiet (up k) k m (lookup k w.sessions) w refl over in
      let r = broadcast_each-IsQuiet up m ks sent.1 q.still in
      let both = IsQuiet-trans ws w sent.1 (broadcast_each up m ks sent.1) q r in
      elim (Bool-cases sent.0) [
        | inl e ↦ rw e (
            IsQuiet-trans ws w (broadcast_each up m ks sent.1) _ both
              (unregister-IsQuiet ws k (broadcast_each up m ks sent.1) both.still))
        | inr e ↦ rw e both
      ]

  broadcast-IsQuiet :
      (up : ℕ → Bool) (id rev : ℕ) (reason : ChangeReason) (w : World)
      → invalidated_at ws w ≡ true
      → IsQuiet ws w (broadcast_profile_changed up id rev reason w)
  unfolding broadcast_profile_changed
  broadcast-IsQuiet up id rev reason w over =
      elim (Bool-cases (not (is_deleted reason) && leb rev (last_revision id w))) [
        | inl e ↦ rw e (record { silent = refl; still = over })
        | inr e ↦
            let w1 = record w {
              last_broadcast_revision =
                  if is_deleted reason
                  then erase id w.last_broadcast_revision
                  else insert id rev w.last_broadcast_revision;
            } in
            let q =
              broadcast_each-IsQuiet up (profile_changed id rev reason) (watchers id w) w1 over in
            rw e (record { silent = q.silent; still = q.still })
      ]

  step-IsQuiet :
      (c : Config) (v : Services) (e : Event) (w : World)
      → invalidated_at ws w ≡ true
      → IsQuiet ws w (step c v e w)
  unfolding step turn invalidate_client_sessions
  step-IsQuiet c v (receives up k r) w over =
      turn_held-IsQuiet ws c v up k (lookup k w.sessions) r w refl over
  step-IsQuiet c v (revokes up client_id) w over =
      close_each-IsQuiet up (sessions_of_client client_id w) w
        (targets-differ client_id w w.connected over) over
  step-IsQuiet c v (changes up id rev reason) w over = broadcast-IsQuiet up id rev reason w over
  step-IsQuiet c v (arrives now origin late room k r) w over =
      elim (Bool-cases (is_none (lookup k w.sessions))) [
        | inl e ↦
            rw e
              (handshake-IsQuiet ws k (ground (arith, e, over)) c v now origin late room r w over)
        | inr e ↦ rw e (record { silent = refl; still = over })
      ]

  run-IsQuiet :
      (c : Config) (es : List (Services × Event)) (w : World)
      → invalidated_at ws w ≡ true
      → IsQuiet ws w (run c es w)
  unfolding run
  run-IsQuiet c [] w over = record { silent = refl; still = over }
  run-IsQuiet c ((v, e) ∷ es) w over =
      let q = step-IsQuiet c v e w over in
      IsQuiet-trans ws w (step c v e w) _ q (run-IsQuiet c es (step c v e w) q.still)

-- Once a session is invalidated, nothing more is sent on its websocket and it stays invalidated,
-- whatever arrives, is pressed, revoked or broadcast afterwards.
pub revoked_session_is_silent :
    (c : Config) (ws : ℕ) (es : List (Services × Event)) (w : World)
    → invalidated_at ws w ≡ true
    → (messages_to ws (run c es w).sent ≡ messages_to ws w.sent)
      × (invalidated_at ws (run c es w) ≡ true)
revoked_session_is_silent c ws es w over = let q = run-IsQuiet ws c es w over in (q.silent, q.still)
