-- ===== src/WebSocket/Bounds/Handler.antt =====
-- The limits across a turn of a handler.
use android_streamdeck.Base.{
  ℕ, ◌≤◌, ◌≡◌, arith, Bool, true, false, Option, none, some, ◌∷◌, length, ◌==◌, Bool-cases, inl,
  inr,
}
use android_streamdeck.Base.Dict.{lookup}
use android_streamdeck.Profile.{Action, Profile, Page, Button}
use android_streamdeck.Repository.Store.{Result, ok, err}
use android_streamdeck.WebSocket.{
  ErrorCode, error, Wire, ClientSession, World, put_session, send_session_text,
}
use android_streamdeck.WebSocket.Press.{
  Press, Outcome, cache_response, ack_of, answer_error, run_action, press_button, press_page,
  press_profile, press_fresh, handle_press,
}
use android_streamdeck.WebSocket.Serve.{
  hello, ping, press, other_message, unparsable, Received, timed_out, disconnected, message, Config,
  Services, settle, session_credential_is_active, dismiss, answer, turn_held,
}
use android_streamdeck.WebSocket.Sends.{cache_response-invalidated}
use android_streamdeck.WebSocket.Bounds.{
  IsSound, send_session_text-IsSame, same-IsSound, put_session-IsSound, unregister-IsSound,
  cache_response-small,
}

pub small_at :
    (n k : ℕ) (s : ClientSession) (w : World)
    → lookup k w.sessions ≡ some s
    → IsSound n w
    → length s.responses ≤ 256
small_at n k s w e v = ground (arith, e, v.small k)

module _ (n : ℕ) where
  pub settle-IsSound : (k : ℕ) (r : Bool × World) → IsSound n r.1 → IsSound n (settle k r)
  settle-IsSound k (true, w) v = v
  settle-IsSound k (false, w) v = unregister-IsSound n k w v

  -- A handler with the session that is stored.
  module _ (up : Bool) (k : ℕ) (s : ClientSession) (w : World)
      (there : lookup k w.sessions ≡ some s) (v : IsSound n w) where
    reply-IsSound : (m : Wire) → IsSound n (send_session_text up k s m w).1
    reply-IsSound m =
        same-IsSound n w (send_session_text up k s m w).1 (send_session_text-IsSame up k s m w) v

    answer_error-IsSound : (r : ℕ) (code : ErrorCode) → IsSound n (answer_error up k s r code w).1
    answer_error-IsSound r code =
        let wire = error code (some r) in
        let sent = send_session_text up k s wire w in
        let same = send_session_text-IsSame up k s wire w in
        elim (Bool-cases sent.0) [
          | inl e ↦ simp e (
              put_session-IsSound n k s (cache_response s r wire) sent.1 (rw same.sessions there)
                (cache_response-invalidated s r wire)
                (cache_response-small s r wire (small_at n k s w there v)) (reply-IsSound wire))
          | inr e ↦ simp e (reply-IsSound wire)
        ]

    module _ (execute : Action → Outcome) where
      run_action-IsSound : (r : ℕ) (a : Action) → IsSound n (run_action execute up k s r a w).1
      run_action-IsSound r a =
          let reply = ack_of r (execute a) in
          let s' = cache_response s r reply in
          let w1 = put_session k s' (record w { executed = (k, a) ∷ w.executed }) in
          let p =
            put_session-IsSound n k s s' w there (cache_response-invalidated s r reply)
              (cache_response-small s r reply (small_at n k s w there v)) v in
          let p1 : IsSound n w1 = record { few = p.few; live = p.live; small = p.small } in
          same-IsSound n w1 (send_session_text up k s reply w1).1
            (send_session_text-IsSame up k s reply w1) p1

      press_button-IsSound :
          (m : Press) (o : Option Button) → IsSound n (press_button execute up k s m o w).1
      press_button-IsSound m none = answer_error-IsSound _ _
      press_button-IsSound m (some b) = run_action-IsSound m.request_id b.action

      press_page-IsSound :
          (m : Press) (o : Option Page) → IsSound n (press_page execute up k s m o w).1
      press_page-IsSound m none = answer_error-IsSound _ _
      press_page-IsSound m (some p) = press_button-IsSound m _

      press_profile-IsSound :
          (m : Press) (r : Result Profile) → IsSound n (press_profile execute up k s m r w).1
      press_profile-IsSound m (err e) = answer_error-IsSound _ _
      press_profile-IsSound m (ok p) = elim (Bool-cases (p.revision == m.revision)) [
        | inl e ↦ simp e (press_page-IsSound m _)
        | inr e ↦ simp e (reply-IsSound _)
      ]

      press_fresh-IsSound :
          (r : Result Profile) (m : Press) (o : Option Wire)
          → IsSound n (press_fresh execute r up k s m o w).1
      press_fresh-IsSound r m (some wire) = reply-IsSound wire
      press_fresh-IsSound r m none = elim (Bool-cases (m.profile_id == s.profile_id)) [
        | inl e ↦ simp e (press_profile-IsSound m r)
        | inr e ↦ simp e (answer_error-IsSound _ _)
      ]

    module _ (c : Config) (sv : Services) where
      dismiss-IsSound : (m : Wire) (status : ℕ) → IsSound n (dismiss c up k s m status w).1
      dismiss-IsSound m status =
          let q = reply-IsSound m in
          elim (Bool-cases (send_session_text up k s m w).0) [
            | inl e ↦ simp e (record { few = q.few; live = q.live; small = q.small })
            | inr e ↦ simp e q
          ]

      handle_press-IsSound :
          (m : Press) → IsSound n (handle_press c.valid_url sv.db sv.execute up k s m w).1
      unfolding handle_press
      handle_press-IsSound m = press_fresh-IsSound sv.execute _ m _

      answer-IsSound : (r : Received) → IsSound n (answer c sv up k s r w).1
      answer-IsSound timed_out = dismiss-IsSound _ _
      answer-IsSound disconnected = v
      answer-IsSound (message (hello h)) = reply-IsSound _
      answer-IsSound (message other_message) = reply-IsSound _
      answer-IsSound (message unparsable) = reply-IsSound _
      answer-IsSound (message (ping x)) = reply-IsSound _
      answer-IsSound (message (press m)) = elim (Bool-cases (session_credential_is_active c sv s)) [
        | inl e ↦ simp e (handle_press-IsSound m)
        | inr e ↦ simp e (dismiss-IsSound _ _)
      ]

  pub turn_held-IsSound :
      (c : Config) (sv : Services) (up : Bool) (k : ℕ) (o : Option ClientSession) (r : Received)
      (w : World)
      → lookup k w.sessions ≡ o
      → IsSound n w
      → IsSound n (turn_held c sv up k o r w)
  turn_held-IsSound c sv up k none r w there v = v
  turn_held-IsSound c sv up k (some s) r w there v =
      settle-IsSound k (answer c sv up k s r w) (answer-IsSound up k s w there v c sv r)
