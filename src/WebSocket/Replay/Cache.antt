-- ===== src/WebSocket/Replay/Cache.antt =====
-- How long the cache of server/app/websocket.py keeps an answer.
use android_streamdeck.Base.{
  ℕ, suc, ◌≤◌, ◌≡◌, ◌⊎◌, refl, arith, Bool, true, false, Option, none, some, [], ◌∷◌, length,
  is_none, leb, ◌==◌, Bool-cases, inl, inr,
}
use android_streamdeck.Base.Dict.{Dict, lookup, insert, length-insert-le, lookup-insert}
use android_streamdeck.Profile.{Action, Profile, Page, Button}
use android_streamdeck.Repository.Store.{Result, ok, err}
use android_streamdeck.WebSocket.{
  ErrorCode, error, Wire, ClientSession, World, put_session, send_session_text,
}
use android_streamdeck.WebSocket.Press.{
  Press, Outcome, cache_response, without_oldest, ack_of, answer_error, run_action, press_button,
  press_page, press_profile, press_fresh, handle_press,
}
use android_streamdeck.WebSocket.Permission.{send_session_text-sessions}
use android_streamdeck.WebSocket.Serve.{
  hello, ping, press, other_message, unparsable, Received, timed_out, disconnected, message, Config,
  Services, session_credential_is_active, dismiss, answer,
}

-- The key is there, with at most `n` entries after it.
abbrev pub IsHeld : ℕ → ℕ → Dict Wire → Type 0
IsHeld id n [] = ⊥
IsHeld id n ((j, x) ∷ d) =
    (((id == j) ≡ true) × (length d ≤ n)) ⊎ (((id == j) ≡ false) × IsHeld id n d)

pub IsHeld-lookup : (id n : ℕ) (d : Dict Wire) → IsHeld id n d → is_none (lookup id d) ≡ false
unfolding lookup
IsHeld-lookup id n [] h = absurd h
IsHeld-lookup id n ((j, x) ∷ d) (inl h) = ground (arith, h.0)
IsHeld-lookup id n ((j, x) ∷ d) (inr h) = ground (arith, h.0, IsHeld-lookup id n d h.1)

IsHeld-more : (id n : ℕ) (d : Dict Wire) → IsHeld id n d → IsHeld id (suc n) d
IsHeld-more id n [] h = absurd h
IsHeld-more id n ((j, x) ∷ d) (inl h) = inl (h.0, omega (arith, h.1))
IsHeld-more id n ((j, x) ∷ d) (inr h) = inr (h.0, IsHeld-more id n d h.1)

IsHeld-insert :
    (id n r : ℕ) (y : Wire) (d : Dict Wire) → IsHeld id n d → IsHeld id (suc n) (insert r y d)
unfolding insert
IsHeld-insert id n r y [] h = absurd h
IsHeld-insert id n r y ((j, x) ∷ d) (inl h) = elim (Bool-cases (r == j)) [
  | inl e ↦ rw e (inl (h.0, omega (arith, h.1)))
  | inr e ↦ rw e (inl (h.0, omega (arith, h.1, length-insert-le r y d)))
]
IsHeld-insert id n r y ((j, x) ∷ d) (inr h) = elim (Bool-cases (r == j)) [
  | inl e ↦ rw e (inr (h.0, IsHeld-more id n d h.1))
  | inr e ↦ rw e (inr (h.0, IsHeld-insert id n r y d h.1))
]

-- A dict that drops its first entry keeps the key, if enough others come before it.
IsHeld-without_oldest :
    (id n : ℕ) (d : Dict Wire)
    → suc n ≤ 255
    → 256 ≤ length d
    → IsHeld id n d
    → IsHeld id n (without_oldest d)
IsHeld-without_oldest id n [] few full h = absurd h
IsHeld-without_oldest id n ((j, x) ∷ d) few full (inl h) = absurd (omega (arith, h.1))
IsHeld-without_oldest id n ((j, x) ∷ d) few full (inr h) = h.1

IsHeld-cache_response :
    (id n r : ℕ) (y : Wire) (s : ClientSession)
    → suc n ≤ 255
    → IsHeld id n s.responses
    → IsHeld id (suc n) (cache_response s r y).responses
unfolding cache_response
IsHeld-cache_response id n r y s few h = elim (Bool-cases (leb 256 (length s.responses))) [
  | inl e ↦ rw e (
      IsHeld-insert id n r y (without_oldest s.responses)
        (IsHeld-without_oldest id n s.responses few (ground (arith, e)) h))
  | inr e ↦ rw e (IsHeld-insert id n r y s.responses h)
]

-- A new answer is the last one.
IsHeld-new : (id : ℕ) (y : Wire) (d : Dict Wire) → lookup id d ≡ none → IsHeld id 0 (insert id y d)
unfolding insert lookup
IsHeld-new id y [] h = inl (ground arith, omega arith)
IsHeld-new id y ((j, x) ∷ d) h = elim (Bool-cases (id == j)) [
  | inl e ↦ absurd (ground (arith, e, h))
  | inr e ↦ rw e (inr (e, IsHeld-new id y d (ground (arith, e, h))))
]

lookup-without_oldest :
    (id : ℕ) (d : Dict Wire) → lookup id d ≡ none → lookup id (without_oldest d) ≡ none
unfolding lookup
lookup-without_oldest id [] h = refl
lookup-without_oldest id ((j, x) ∷ d) h = ground (arith, h)

pub IsHeld-fresh :
    (id : ℕ) (y : Wire) (s : ClientSession)
    → lookup id s.responses ≡ none
    → IsHeld id 0 (cache_response s id y).responses
unfolding cache_response
IsHeld-fresh id y s h = elim (Bool-cases (leb 256 (length s.responses))) [
  | inl e ↦
      rw e (IsHeld-new id y (without_oldest s.responses) (lookup-without_oldest id s.responses h))
  | inr e ↦ rw e (IsHeld-new id y s.responses h)
]

-- The session is there, and its answer to the request has at most `n` others after it.
abbrev pub Keeps : ℕ → ℕ → Option ClientSession → Type 0
Keeps id n none = ⊥
Keeps id n (some s) = IsHeld id n s.responses

module _ (id n : ℕ) (few : suc n ≤ 255) (up : Bool) (ws : ℕ) (s : ClientSession) (w : World)
    (there : lookup ws w.sessions ≡ some s) (held : IsHeld id n s.responses) where
  same-Keeps : (w' : World) → w'.sessions ≡ w.sessions → Keeps id (suc n) (lookup ws w'.sessions)
  same-Keeps w' e = rw e (rw there (IsHeld-more id n s.responses held))

  reply-Keeps : (m : Wire) → Keeps id (suc n) (lookup ws (send_session_text up ws s m w).1.sessions)
  reply-Keeps m =
      same-Keeps (send_session_text up ws s m w).1 (send_session_text-sessions up ws s m w)

  put-Keeps :
      (r : ℕ) (y : Wire) (w' : World)
      → Keeps id (suc n) (lookup ws (put_session ws (cache_response s r y) w').sessions)
  put-Keeps r y w' =
      let stored : lookup ws (put_session ws (cache_response s r y) w').sessions
          ≡ some (cache_response s r y) =
        ground (arith, lookup-insert ws ws (cache_response s r y) w'.sessions) in
      rw stored (IsHeld-cache_response id n r y s few held)

  answer_error-Keeps :
      (r : ℕ) (code : ErrorCode)
      → Keeps id (suc n) (lookup ws (answer_error up ws s r code w).1.sessions)
  answer_error-Keeps r code =
      elim (Bool-cases (send_session_text up ws s (error code (some r)) w).0) [
        | inl e ↦ simp e (
            put-Keeps r (error code (some r)) (send_session_text up ws s (error code (some r)) w).1)
        | inr e ↦ simp e (reply-Keeps (error code (some r)))
      ]

  module _ (execute : Action → Outcome) where
    run_action-Keeps :
        (r : ℕ) (a : Action)
        → Keeps id (suc n) (lookup ws (run_action execute up ws s r a w).1.sessions)
    run_action-Keeps r a =
        let reply = ack_of r (execute a) in
        let w0 = record w { executed = (ws, a) ∷ w.executed } in
        let w1 = put_session ws (cache_response s r reply) w0 in
        rw (send_session_text-sessions up ws s reply w1) (put-Keeps r reply w0)

    press_button-Keeps :
        (m : Press) (o : Option Button)
        → Keeps id (suc n) (lookup ws (press_button execute up ws s m o w).1.sessions)
    press_button-Keeps m none = answer_error-Keeps _ _
    press_button-Keeps m (some b) = run_action-Keeps m.request_id b.action

    press_page-Keeps :
        (m : Press) (o : Option Page)
        → Keeps id (suc n) (lookup ws (press_page execute up ws s m o w).1.sessions)
    press_page-Keeps m none = answer_error-Keeps _ _
    press_page-Keeps m (some p) = press_button-Keeps m _

    press_profile-Keeps :
        (m : Press) (r : Result Profile)
        → Keeps id (suc n) (lookup ws (press_profile execute up ws s m r w).1.sessions)
    press_profile-Keeps m (err e) = answer_error-Keeps _ _
    press_profile-Keeps m (ok p) = elim (Bool-cases (p.revision == m.revision)) [
      | inl e ↦ simp e (press_page-Keeps m _)
      | inr e ↦ simp e (reply-Keeps _)
    ]

    press_fresh-Keeps :
        (r : Result Profile) (m : Press) (o : Option Wire)
        → Keeps id (suc n) (lookup ws (press_fresh execute r up ws s m o w).1.sessions)
    press_fresh-Keeps r m (some wire) = reply-Keeps wire
    press_fresh-Keeps r m none = elim (Bool-cases (m.profile_id == s.profile_id)) [
      | inl e ↦ simp e (press_profile-Keeps m r)
      | inr e ↦ simp e (answer_error-Keeps _ _)
    ]

  module _ (c : Config) (v : Services) where
    dismiss-Keeps :
        (m : Wire) (status : ℕ)
        → Keeps id (suc n) (lookup ws (dismiss c up ws s m status w).1.sessions)
    dismiss-Keeps m status = elim (Bool-cases (send_session_text up ws s m w).0) [
      | inl e ↦ simp e (reply-Keeps m)
      | inr e ↦ simp e (reply-Keeps m)
    ]

    press-Keeps :
        (m : Press)
        → Keeps id
            (suc n)
            (lookup ws (handle_press c.valid_url v.db v.execute up ws s m w).1.sessions)
    unfolding handle_press
    press-Keeps m = press_fresh-Keeps v.execute _ m _

    pub answer-Keeps :
        (r : Received) → Keeps id (suc n) (lookup ws (answer c v up ws s r w).1.sessions)
    answer-Keeps timed_out = dismiss-Keeps _ _
    answer-Keeps disconnected = same-Keeps w refl
    answer-Keeps (message (hello h)) = reply-Keeps _
    answer-Keeps (message other_message) = reply-Keeps _
    answer-Keeps (message unparsable) = reply-Keeps _
    answer-Keeps (message (ping x)) = reply-Keeps _
    answer-Keeps (message (press m)) = elim (Bool-cases (session_credential_is_active c v s)) [
      | inl e ↦ simp e (press-Keeps m)
      | inr e ↦ simp e (dismiss-Keeps _ _)
    ]
