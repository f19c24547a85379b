-- ===== src/WebSocket/Bounds/Handshake.antt =====
-- The limits across a handshake.
use android_streamdeck.Base.{
  ℕ, ◌-◌, ◌≡◌, refl, arith, Bool, true, false, Option, none, some, List, [], ◌∷◌, leb, is_none,
  Bool-cases, inl, inr,
}
use android_streamdeck.Base.Dict.{lookup, lookup-insert}
use android_streamdeck.Profile.{Profile}
use android_streamdeck.Repository.Store.{Result, ok, err}
use android_streamdeck.WebSocket.{
  ErrorCode, error, connection_limit, rate_limited, welcome, profile_snapshot, Wire, ClientSession,
  World, send_text, put_session, register,
}
use android_streamdeck.RateLimit.{allow}
use android_streamdeck.Credentials.{Tables}
use android_streamdeck.WebSocket.Serve.{
  Hello, hello, ping, press, other_message, unparsable, Received, timed_out, disconnected, message,
  Config, Services, refuse, send_all, greet, new_session, join, load_and_join, with_generation,
  authenticated, greeted, handshake,
}
use android_streamdeck.WebSocket.Bounds.{
  IsSound, IsSame, send_text-IsSame, IsSame-trans, same-IsSound, put_session-IsSound,
  unregister-IsSound, register-IsSound,
}
use android_streamdeck.WebSocket.Bounds.Handler.{small_at, settle-IsSound}

refuse-IsSame :
    (up : Bool) (k : ℕ) (code : ErrorCode) (status : ℕ) (w : World)
    → IsSame w (refuse up k code status w)
refuse-IsSame up k code status w =
    let q = send_text-IsSame up k (error code none) w in
    record { sessions = ground (arith, q.sessions); connected = ground (arith, q.connected) }

send_all-IsSame : (room k : ℕ) (ms : List Wire) (w : World) → IsSame w (send_all room k ms w).1
send_all-IsSame room k [] w = record { sessions = refl; connected = refl }
send_all-IsSame room k (m ∷ ms) w =
    let sent = send_text (leb 1 room) k m w in
    elim (Bool-cases sent.0) [
      | inl e ↦ simp e (
          IsSame-trans w sent.1 _ (send_text-IsSame (leb 1 room) k m w)
            (send_all-IsSame (room - 1) k ms sent.1))
      | inr e ↦ simp e (record { sessions = refl; connected = refl })
    ]

registered-there :
    (n k : ℕ) (s : ClientSession) (w : World)
    → (register n k s w).0 ≡ true
    → lookup k (register n k s w).1.sessions ≡ some s
unfolding register
registered-there n k s w e = ground (arith, lookup-insert k k s w.sessions)

module _ (n k : ℕ) where
  greet-IsSound :
      (room : ℕ) (s : ClientSession) (p : Profile) (w : World)
      → lookup k w.sessions ≡ some s
      → IsSound n w
      → IsSound n (greet room k s p w)
  greet-IsSound room s p w there v =
      let opening = welcome p.id p.revision ∷ profile_snapshot p ∷ [] in
      let first = send_all room k opening w in
      let same = send_all-IsSame room k opening w in
      let v1 = same-IsSound n w first.1 same v in
      let s' = record s { ready = true; pending_messages = [] } in
      let v2 =
        put_session-IsSound n k s s' first.1 (rw same.sessions there) refl
          (small_at n k s w there v) v1 in
      let later = send_all (room - 2) k s.pending_messages (put_session k s' first.1) in
      let v3 =
        same-IsSound n (put_session k s' first.1) later.1
          (send_all-IsSame (room - 2) k s.pending_messages (put_session k s' first.1)) v2 in
      elim (Bool-cases first.0) [
        | inl e ↦ simp e (settle-IsSound n k later v3)
        | inr e ↦ simp e (unregister-IsSound n k first.1 v1)
      ]

module _ (c : Config) (k : ℕ) where
  abbrev Holds : World → Type 0
  Holds w = IsSound c.max_connections w

  refuse-IsSound :
      (up : Bool) (code : ErrorCode) (status : ℕ) (w : World)
      → Holds w
      → Holds (refuse up k code status w)
  refuse-IsSound up code status w v =
      same-IsSound c.max_connections w _ (refuse-IsSame up k code status w) v

  join-IsSound :
      (room : ℕ) (h : Hello) (g : Option ℕ) (r : Result Profile) (w : World)
      → Holds w
      → Holds (join c room k h g r w)
  join-IsSound room h g (err e) w v = refuse-IsSound _ _ _ w v
  join-IsSound room h g (ok p) w v =
      let s = new_session h.client_id p.id g in
      let w1 = register c.max_connections k s w in
      let v1 = register-IsSound c.max_connections k s w refl (omega arith) v in
      elim (Bool-cases w1.0) [
        | inl e ↦ simp e (
            greet-IsSound c.max_connections k room s p w1.1
              (registered-there c.max_connections k s w e) v1)
        | inr e ↦ simp e (
            unregister-IsSound c.max_connections k
              (refuse (leb 1 room) k connection_limit 1013 w1.1)
              (refuse-IsSound (leb 1 room) connection_limit 1013 w1.1 v1))
      ]

  load_and_join-IsSound :
      (sv : Services) (late : Bool) (room : ℕ) (h : Hello) (g : Option ℕ) (w : World)
      → Holds w
      → Holds (load_and_join c sv late room k h g w)
  load_and_join-IsSound sv true room h g w v = refuse-IsSound _ _ _ w v
  load_and_join-IsSound sv false room h g w v = join-IsSound room h g _ w v

  with_generation-IsSound :
      (sv : Services) (late : Bool) (room : ℕ) (h : Hello) (o : Option ℕ) (w : World)
      → Holds w
      → Holds (with_generation c sv late room k h o w)
  with_generation-IsSound sv late room h none w v = refuse-IsSound _ _ _ w v
  with_generation-IsSound sv late room h (some g) w v =
      load_and_join-IsSound sv late room h (some g) w v

  authenticated-IsSound :
      (sv : Services) (late : Bool) (room : ℕ) (h : Hello) (o : Option Tables) (w : World)
      → Holds w
      → Holds (authenticated c sv late room k h o w)
  authenticated-IsSound sv late room h none w v = refuse-IsSound _ _ _ w v
  authenticated-IsSound sv late room h (some t) w v = elim (Bool-cases (is_none h.access_token)) [
    | inl e ↦ simp e (refuse-IsSound _ _ _ w v)
    | inr e ↦ simp e (with_generation-IsSound sv late room h _ w v)
  ]

  greeted-IsSound :
      (sv : Services) (late : Bool) (room : ℕ) (r : Received) (w : World)
      → Holds w
      → Holds (greeted c sv late room k r w)
  greeted-IsSound sv late room timed_out w v = refuse-IsSound _ _ _ w v
  greeted-IsSound sv late room disconnected w v = v
  greeted-IsSound sv late room (message (hello h)) w v = elim (Bool-cases c.require_auth) [
    | inl e ↦ simp e (authenticated-IsSound sv late room h sv.pairing w v)
    | inr e ↦ simp e (load_and_join-IsSound sv late room h none w v)
  ]
  greeted-IsSound sv late room (message (ping x)) w v = refuse-IsSound _ _ _ w v
  greeted-IsSound sv late room (message (press m)) w v = refuse-IsSound _ _ _ w v
  greeted-IsSound sv late room (message other_message) w v = refuse-IsSound _ _ _ w v
  greeted-IsSound sv late room (message unparsable) w v = refuse-IsSound _ _ _ w v

  pub handshake-IsSound :
      (sv : Services) (now origin : ℕ) (late : Bool) (room : ℕ) (r : Received) (w : World)
      → Holds w
      → Holds (handshake c sv now origin late room k r w)
  unfolding handshake
  handshake-IsSound sv now origin late room r w v =
      let attempt = allow c.limits now origin w.handshake_attempts in
      let w1 = record w { handshake_attempts = attempt.1 } in
      let v1 : Holds w1 = record { few = v.few; live = v.live; small = v.small } in
      elim (Bool-cases attempt.0) [
        | inl e ↦ simp e (greeted-IsSound sv late room r w1 v1)
        | inr e ↦ simp e (refuse-IsSound (leb 1 room) rate_limited 1013 w1 v1)
      ]
