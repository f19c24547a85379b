-- ===== src/WebSocket/Silence/Handshake.antt =====
-- A handshake, and another websocket whose session is invalidated.
use android_streamdeck.Base.{
  ℕ, ◌-◌, ◌≡◌, refl, arith, Bool, true, false, Option, none, some, List, [], ◌∷◌, leb, ◌==◌,
  is_none, Bool-cases, inl, inr,
}
use android_streamdeck.Profile.{Profile}
use android_streamdeck.Repository.Store.{Result, ok, err}
use android_streamdeck.WebSocket.{
  ErrorCode, error, connection_limit, rate_limited, welcome, profile_snapshot, Wire, ClientSession,
  World, send_text, put_session, register,
}
use android_streamdeck.RateLimit.{allow}
use android_streamdeck.Credentials.{Tables}
use android_streamdeck.WebSocket.Serve.{
  Hello, hello, ping, press, other_message, unparsable, Received, timed_out, disconnected, message,
  Config, Services, refuse, send_all, greet, new_session, join, load_and_join, with_generation,
  authenticated, greeted, handshake,
}
use android_streamdeck.WebSocket.Sends.{
  invalidated_at, IsQuiet, IsQuiet-trans, send_text-IsQuiet, put_session-IsQuiet,
  unregister-IsQuiet, close-IsQuiet, register-IsQuiet,
}
use android_streamdeck.WebSocket.Silence.Handler.{settle-IsQuiet}

module _ (ws : ℕ) where
  -- A handshake on another websocket.
  module _ (k : ℕ) (ne : (k == ws) ≡ false) where
    refuse-IsQuiet :
        (up : Bool) (code : ErrorCode) (status : ℕ) (w : World)
        → invalidated_at ws w ≡ true
        → IsQuiet ws w (refuse up k code status w)
    refuse-IsQuiet up code status w over =
        let sent = send_text up k (error code none) w in
        let q = send_text-IsQuiet ws up k (error code none) w ne over in
        elim (Bool-cases sent.0) [
          | inl e ↦ rw e (IsQuiet-trans ws w sent.1 _ q (close-IsQuiet ws k status sent.1 q.still))
          | inr e ↦ rw e (record { silent = refl; still = over })
        ]

    send_all-IsQuiet :
        (room : ℕ) (ms : List Wire) (w : World)
        → invalidated_at ws w ≡ true
        → IsQuiet ws w (send_all room k ms w).1
    send_all-IsQuiet room [] w over = record { silent = refl; still = over }
    send_all-IsQuiet room (m ∷ ms) w over =
        let sent = send_text (leb 1 room) k m w in
        let q = send_text-IsQuiet ws (leb 1 room) k m w ne over in
        elim (Bool-cases sent.0) [
          | inl e ↦
              rw e (IsQuiet-trans ws w sent.1 _ q (send_all-IsQuiet (room - 1) ms sent.1 q.still))
          | inr e ↦ rw e (record { silent = refl; still = over })
        ]

    greet-IsQuiet :
        (room : ℕ) (s : ClientSession) (p : Profile) (w : World)
        → invalidated_at ws w ≡ true
        → IsQuiet ws w (greet room k s p w)
    greet-IsQuiet room s p w over =
        let first = send_all room k (welcome p.id p.revision ∷ profile_snapshot p ∷ []) w in
        let q = send_all-IsQuiet room (welcome p.id p.revision ∷ profile_snapshot p ∷ []) w over in
        let s' = record s { ready = true; pending_messages = [] } in
        let p1 = put_session-IsQuiet ws k s' first.1 (ground (arith, ne)) q.still in
        let q2 =
          send_all-IsQuiet (room - 2) s.pending_messages (put_session k s' first.1) p1.still in
        elim (Bool-cases first.0) [
          | inl e ↦ rw e (
              settle-IsQuiet ws k
                (send_all (room - 2) k s.pending_messages (put_session k s' first.1)) w
                (IsQuiet-trans ws w first.1 _ q
                  (IsQuiet-trans ws first.1 (put_session k s' first.1) _ p1 q2)))
          | inr e ↦ rw e (IsQuiet-trans ws w first.1 _ q (unregister-IsQuiet ws k first.1 q.still))
        ]

    module _ (c : Config) where
      join-IsQuiet :
          (room : ℕ) (h : Hello) (g : Option ℕ) (r : Result Profile) (w : World)
          → invalidated_at ws w ≡ true
          → IsQuiet ws w (join c room k h g r w)
      join-IsQuiet room h g (err e) w over = refuse-IsQuiet _ _ _ w over
      join-IsQuiet room h g (ok p) w over =
          let s = new_session h.client_id p.id g in
          let w1 = register c.max_connections k s w in
          let q = register-IsQuiet ws c.max_connections k s w ne over in
          elim (Bool-cases w1.0) [
            | inl e ↦ rw e (IsQuiet-trans ws w w1.1 _ q (greet-IsQuiet room s p w1.1 q.still))
            | inr e ↦
                let r = refuse-IsQuiet (leb 1 room) connection_limit 1013 w1.1 q.still in
                let w2 = refuse (leb 1 room) k connection_limit 1013 w1.1 in
                rw e (
                  IsQuiet-trans ws w w1.1 _ q
                    (IsQuiet-trans ws w1.1 w2 _ r (unregister-IsQuiet ws k w2 r.still)))
          ]

      load_and_join-IsQuiet :
          (v : Services) (late : Bool) (room : ℕ) (h : Hello) (g : Option ℕ) (w : World)
          → invalidated_at ws w ≡ true
          → IsQuiet ws w (load_and_join c v late room k h g w)
      load_and_join-IsQuiet v true room h g w over = refuse-IsQuiet _ _ _ w over
      load_and_join-IsQuiet v false room h g w over = join-IsQuiet room h g _ w over

      with_generation-IsQuiet :
          (v : Services) (late : Bool) (room : ℕ) (h : Hello) (o : Option ℕ) (w : World)
          → invalidated_at ws w ≡ true
          → IsQuiet ws w (with_generation c v late room k h o w)
      with_generation-IsQuiet v late room h none w over = refuse-IsQuiet _ _ _ w over
      with_generation-IsQuiet v late room h (some g) w over =
          load_and_join-IsQuiet v late room h (some g) w over

      authenticated-IsQuiet :
          (v : Services) (late : Bool) (room : ℕ) (h : Hello) (o : Option Tables) (w : World)
          → invalidated_at ws w ≡ true
          → IsQuiet ws w (authenticated c v late room k h o w)
      authenticated-IsQuiet v late room h none w over = refuse-IsQuiet _ _ _ w over
      authenticated-IsQuiet v late room h (some t) w over =
          elim (Bool-cases (is_none h.access_token)) [
            | inl e ↦ rw e (refuse-IsQuiet _ _ _ w over)
            | inr e ↦ rw e (with_generation-IsQuiet v late room h _ w over)
          ]

      greeted-IsQuiet :
          (v : Services) (late : Bool) (room : ℕ) (r : Received) (w : World)
          → invalidated_at ws w ≡ true
          → IsQuiet ws w (greeted c v late room k r w)
      greeted-IsQuiet v late room timed_out w over = refuse-IsQuiet _ _ _ w over
      greeted-IsQuiet v late room disconnected w over = record { silent = refl; still = over }
      greeted-IsQuiet v late room (message (hello h)) w over = elim (Bool-cases c.require_auth) [
        | inl e ↦ rw e (authenticated-IsQuiet v late room h v.pairing w over)
        | inr e ↦ rw e (load_and_join-IsQuiet v late room h none w over)
      ]
      greeted-IsQuiet v late room (message (ping n)) w over = refuse-IsQuiet _ _ _ w over
      greeted-IsQuiet v late room (message (press m)) w over = refuse-IsQuiet _ _ _ w over
      greeted-IsQuiet v late room (message other_message) w over = refuse-IsQuiet _ _ _ w over
      greeted-IsQuiet v late room (message unparsable) w over = refuse-IsQuiet _ _ _ w over

      pub handshake-IsQuiet :
          (v : Services) (now origin : ℕ) (late : Bool) (room : ℕ) (r : Received) (w : World)
          → invalidated_at ws w ≡ true
          → IsQuiet ws w (handshake c v now origin late room k r w)
      unfolding handshake
      handshake-IsQuiet v now origin late room r w over =
          let attempt = allow c.limits now origin w.handshake_attempts in
          let w1 = record w { handshake_attempts = attempt.1 } in
          elim (Bool-cases attempt.0) [
            | inl e ↦
                let q = greeted-IsQuiet v late room r w1 over in
                rw e (record { silent = q.silent; still = q.still })
            | inr e ↦
                let q = refuse-IsQuiet (leb 1 room) rate_limited 1013 w1 over in
                rw e (record { silent = q.silent; still = q.still })
          ]
