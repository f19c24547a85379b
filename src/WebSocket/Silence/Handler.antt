-- ===== src/WebSocket/Silence/Handler.antt =====
-- Turns of a handler, and a websocket whose session is invalidated.
use android_streamdeck.Base.{
  ℕ, ◌≡◌, refl, ◌∙◌, arith, Bool, true, false, Option, none, some, ◌∷◌, ◌==◌, Bool-cases, inl, inr,
}
use android_streamdeck.Base.Dict.{lookup}
use android_streamdeck.Profile.{Action, Profile, Page, Button}
use android_streamdeck.Repository.Store.{Result, ok, err}
use android_streamdeck.WebSocket.{
  ErrorCode, error, Wire, ClientSession, World, put_session, send_session_text,
}
use android_streamdeck.WebSocket.Press.{
  Press, Outcome, cache_response, ack_of, answer_error, run_action, press_button, press_page,
  press_profile, press_fresh, handle_press,
}
use android_streamdeck.WebSocket.Serve.{
  hello, ping, press, other_message, unparsable, Received, timed_out, disconnected, message, Config,
  Services, settle, session_credential_is_active, dismiss, answer, turn_held,
}
use android_streamdeck.WebSocket.Sends.{
  invalidated_at, IsQuiet, spares, IsQuiet-trans, send_session_text-IsQuiet, put_session-IsQuiet,
  unregister-IsQuiet, close-IsQuiet, cache_response-invalidated,
}

module _ (ws : ℕ) where
  cached-spares :
      (k : ℕ) (s : ClientSession) (request_id : ℕ) (m : Wire)
      → spares ws k s ≡ true
      → spares ws k (cache_response s request_id m) ≡ true
  cached-spares k s request_id m sp = ground (arith, sp, cache_response-invalidated s request_id m)

  answer_error-IsQuiet :
      (up : Bool) (k : ℕ) (s : ClientSession) (r : ℕ) (code : ErrorCode) (w : World)
      → spares ws k s ≡ true
      → invalidated_at ws w ≡ true
      → IsQuiet ws w (answer_error up k s r code w).1
  answer_error-IsQuiet up k s r code w sp over =
      let wire = error code (some r) in
      let sent = send_session_text up k s wire w in
      let q = send_session_text-IsQuiet ws up k s wire w sp over in
      elim (Bool-cases sent.0) [
        | inl e ↦ rw e (
            IsQuiet-trans ws w sent.1 _ q (
              put_session-IsQuiet ws k (cache_response s r wire) sent.1
                (cached-spares k s r wire sp) q.still))
        | inr e ↦ rw e q
      ]

  module _ (execute : Action → Outcome) (up : Bool) (k : ℕ) (s : ClientSession)
      (sp : spares ws k s ≡ true) where
    run_action-IsQuiet :
        (r : ℕ) (a : Action) (w : World)
        → invalidated_at ws w ≡ true
        → IsQuiet ws w (run_action execute up k s r a w).1
    run_action-IsQuiet r a w over =
        let reply = ack_of r (execute a) in
        let w1 = record w { executed = (k, a) ∷ w.executed } in
        let p =
          put_session-IsQuiet ws k (cache_response s r reply) w1 (cached-spares k s r reply sp)
            over in
        let q =
          send_session_text-IsQuiet ws up k s reply (put_session k (cache_response s r reply) w1) sp
            p.still in
        record { silent = q.silent ∙ p.silent; still = q.still }

    press_button-IsQuiet :
        (m : Press) (o : Option Button) (w : World)
        → invalidated_at ws w ≡ true
        → IsQuiet ws w (press_button execute up k s m o w).1
    press_button-IsQuiet m none w over = answer_error-IsQuiet up k s _ _ w sp over
    press_button-IsQuiet m (some b) w over = run_action-IsQuiet m.request_id b.action w over

    press_page-IsQuiet :
        (m : Press) (o : Option Page) (w : World)
        → invalidated_at ws w ≡ true
        → IsQuiet ws w (press_page execute up k s m o w).1
    press_page-IsQuiet m none w over = answer_error-IsQuiet up k s _ _ w sp over
    press_page-IsQuiet m (some p) w over = press_button-IsQuiet m _ w over

    press_profile-IsQuiet :
        (m : Press) (r : Result Profile) (w : World)
        → invalidated_at ws w ≡ true
        → IsQuiet ws w (press_profile execute up k s m r w).1
    press_profile-IsQuiet m (err e) w over = answer_error-IsQuiet up k s _ _ w sp over
    press_profile-IsQuiet m (ok p) w over = elim (Bool-cases (p.revision == m.revision)) [
      | inl e ↦ rw e (press_page-IsQuiet m _ w over)
      | inr e ↦ rw e (send_session_text-IsQuiet ws up k s _ w sp over)
    ]

    press_fresh-IsQuiet :
        (r : Result Profile) (m : Press) (o : Option Wire) (w : World)
        → invalidated_at ws w ≡ true
        → IsQuiet ws w (press_fresh execute r up k s m o w).1
    press_fresh-IsQuiet r m (some wire) w over = send_session_text-IsQuiet ws up k s wire w sp over
    press_fresh-IsQuiet r m none w over = elim (Bool-cases (m.profile_id == s.profile_id)) [
      | inl e ↦ rw e (press_profile-IsQuiet m r w over)
      | inr e ↦ rw e (answer_error-IsQuiet up k s _ _ w sp over)
    ]

  pub settle-IsQuiet :
      (k : ℕ) (r : Bool × World) (w : World) → IsQuiet ws w r.1 → IsQuiet ws w (settle k r)
  settle-IsQuiet k (true, w') w q = q
  settle-IsQuiet k (false, w') w q = IsQuiet-trans ws w w' _ q (unregister-IsQuiet ws k w' q.still)

  module _ (c : Config) (v : Services) (up : Bool) (k : ℕ) (s : ClientSession)
      (sp : spares ws k s ≡ true) where
    dismiss-IsQuiet :
        (m : Wire) (status : ℕ) (w : World)
        → invalidated_at ws w ≡ true
        → IsQuiet ws w (dismiss c up k s m status w).1
    dismiss-IsQuiet m status w over =
        let sent = send_session_text up k s m w in
        let q = send_session_text-IsQuiet ws up k s m w sp over in
        elim (Bool-cases sent.0) [
          | inl e ↦ rw e (IsQuiet-trans ws w sent.1 _ q (close-IsQuiet ws k status sent.1 q.still))
          | inr e ↦ rw e q
        ]

    handle_press-IsQuiet :
        (m : Press) (w : World)
        → invalidated_at ws w ≡ true
        → IsQuiet ws w (handle_press c.valid_url v.db v.execute up k s m w).1
    unfolding handle_press
    handle_press-IsQuiet m w over = press_fresh-IsQuiet v.execute up k s sp _ m _ w over

    answer-IsQuiet :
        (r : Received) (w : World)
        → invalidated_at ws w ≡ true
        → IsQuiet ws w (answer c v up k s r w).1
    answer-IsQuiet timed_out w over = dismiss-IsQuiet _ _ w over
    answer-IsQuiet disconnected w over = record { silent = refl; still = over }
    answer-IsQuiet (message (hello h)) w over = send_session_text-IsQuiet ws up k s _ w sp over
    answer-IsQuiet (message other_message) w over = send_session_text-IsQuiet ws up k s _ w sp over
    answer-IsQuiet (message unparsable) w over = send_session_text-IsQuiet ws up k s _ w sp over
    answer-IsQuiet (message (ping n)) w over = send_session_text-IsQuiet ws up k s _ w sp over
    answer-IsQuiet (message (press m)) w over =
        elim (Bool-cases (session_credential_is_active c v s)) [
          | inl e ↦ rw e (handle_press-IsQuiet m w over)
          | inr e ↦ rw e (dismiss-IsQuiet _ _ w over)
        ]

  pub turn_held-IsQuiet :
      (c : Config) (v : Services) (up : Bool) (k : ℕ) (o : Option ClientSession) (r : Received)
      (w : World)
      → lookup k w.sessions ≡ o
      → invalidated_at ws w ≡ true
      → IsQuiet ws w (turn_held c v up k o r w)
  turn_held-IsQuiet c v up k none r w e over = record { silent = refl; still = over }
  turn_held-IsQuiet c v up k (some s) r w e over =
      let sp : spares ws k s ≡ true = ground (arith, e, over) in
      let q = answer-IsQuiet c v up k s sp r w over in settle-IsQuiet k (answer c v up k s r w) w q
