-- ===== src/WebSocket/Revocation.antt =====
-- What `invalidate_client_sessions` of server/app/websocket.py leaves connected.
use android_streamdeck.Base.{
  ℕ, ◌≡◌, refl, ◌∙◌, arith, Bool, true, false, ◌&&◌, Option, none, some, List, [], ◌∷◌, keep,
  contains, ◌==◌, is_none, Bool-cases, Option-cases, inl, inr,
}
use android_streamdeck.Base.Dict.{lookup, lookup-insert}
use android_streamdeck.WebSocket.{
  ClientSession, World, new_world, error, auth_revoked, put_session, unregister, is_client,
  close_held, close_session, close_each, sessions_of_client, invalidate_client_sessions,
}
use android_streamdeck.WebSocket.Serve.{Config, Services, Event, run}
use android_streamdeck.WebSocket.Sends.{invalidated_at}
use android_streamdeck.WebSocket.Bounds.{IsSound, contains-without, send_text-IsSame}
use android_streamdeck.WebSocket.Bounds.Steps.{sessions_bounded}

-- One `close_session`, seen from the websocket `j`.
record IsClosed (k j : ℕ) (w w' : World) : Type 0 where
  others : (j == k) ≡ false → lookup j w'.sessions ≡ lookup j w.sessions
  over : (j == k) ≡ true → is_none (lookup k w.sessions) ≡ false → invalidated_at j w' ≡ true
  kept : invalidated_at j w ≡ true → invalidated_at j w' ≡ true
  there : is_none (lookup j w.sessions) ≡ false → is_none (lookup j w'.sessions) ≡ false
  gone : (j == k) ≡ true → is_none (lookup k w.sessions) ≡ false → contains j w'.connected ≡ false
  fewer : contains j w'.connected ≡ true → contains j w.connected ≡ true

close_held-IsClosed :
    (up : Bool) (k j : ℕ) (o : Option ClientSession) (w : World)
    → lookup k w.sessions ≡ o
    → IsClosed k j w (close_held up k o w)
close_held-IsClosed up k j none w e = record {
  others = λ n. refl;
  over = λ n h. absurd (ground (arith, e));
  kept = λ h. h;
  there = λ h. h;
  gone = λ n h. absurd (ground (arith, e));
  fewer = λ h. h;
}
close_held-IsClosed up k j (some s) w e =
    let s' = record s { invalidated = true } in
    let w1 = put_session k s' w in
    let q = send_text-IsSame up k (error auth_revoked none) w1 in
    let at = lookup-insert k j s' w.sessions in
    record {
      others = unfold unregister in λ n. rw q.sessions (ground (arith, n, at));
      over = unfold unregister in λ n h. rw q.sessions (ground (arith, n, at));
      kept = unfold unregister in λ h. rw q.sessions (ground (arith, h, at));
      there = unfold unregister in λ h. rw q.sessions (ground (arith, h, at));
      gone =
          unfold unregister in
          λ n h. rw q.connected (ground (arith, n, contains-without j k w.connected));
      fewer =
          unfold unregister in
          rw q.connected (λ h. ground (arith, h, contains-without j k w.connected));
    }

-- Every websocket of the list has a session.
abbrev AllThere : List ℕ → World → Type 0
AllThere [] w = Unit
AllThere (k ∷ ks) w = (is_none (lookup k w.sessions) ≡ false) × AllThere ks w

AllThere-step :
    (w w' : World) (ks : List ℕ)
    → ((j : ℕ) → is_none (lookup j w.sessions) ≡ false → is_none (lookup j w'.sessions) ≡ false)
    → AllThere ks w
    → AllThere ks w'
AllThere-step w w' [] f a = tt
AllThere-step w w' (k ∷ ks) f a = (f k a.0, AllThere-step w w' ks f a.1)

-- All the closings of a revocation, seen from the websocket `j`.
record AreClosed (ks : List ℕ) (j : ℕ) (w w' : World) : Type 0 where
  others : contains j ks ≡ false → lookup j w'.sessions ≡ lookup j w.sessions
  over : contains j ks ≡ true → invalidated_at j w' ≡ true
  kept : invalidated_at j w ≡ true → invalidated_at j w' ≡ true
  gone : contains j ks ≡ true → contains j w'.connected ≡ false
  fewer : contains j w'.connected ≡ true → contains j w.connected ≡ true

close_each-AreClosed :
    (up : ℕ → Bool) (ks : List ℕ) (j : ℕ) (w : World)
    → AllThere ks w
    → AreClosed ks j w (close_each up ks w)
unfolding close_session
close_each-AreClosed up [] j w a = record {
  others = λ n. refl;
  over = λ h. absurd (cc);
  kept = λ h. h;
  gone = λ h. absurd (cc);
  fewer = λ h. h;
}
close_each-AreClosed up (k ∷ ks) j w a =
    let w1 = close_session (up k) k w in
    let first = λ (i : ℕ). close_held-IsClosed (up k) k i (lookup k w.sessions) w refl in
    let rest = close_each-AreClosed up ks j w1 (AllThere-step w w1 ks (λ i. (first i).there) a.1) in
    let one = first j in
    elim (Bool-cases (j == k)) [
      | inl e ↦ record {
        others = λ h. absurd (ground (arith, e));
        over = λ h. rest.kept (one.over e a.0);
        kept = λ h. rest.kept (one.kept h);
        gone = λ h. ground (arith, one.gone e a.0, rest.fewer);
        fewer = λ h. one.fewer (rest.fewer h);
      }
      | inr e ↦ record {
        others = λ h. rest.others (ground (arith, e, h)) ∙ one.others e;
        over = λ h. rest.over (ground (arith, e, h));
        kept = λ h. rest.kept (one.kept h);
        gone = λ h. rest.gone (ground (arith, e, h));
        fewer = λ h. one.fewer (rest.fewer h);
      }
    ]

targets-AllThere :
    (client_id : ℕ) (w : World) (ks : List ℕ)
    → AllThere (keep (λ k. is_client client_id (lookup k w.sessions)) ks) w
targets-AllThere client_id w [] = tt
targets-AllThere client_id w (k ∷ ks) = elim (Option-cases (lookup k w.sessions)) [
  | inl e ↦ simp e (targets-AllThere client_id w ks)
  | inr (s, e) ↦ elim (Bool-cases (is_client client_id (lookup k w.sessions))) [
    | inl f ↦ ground (arith, e, f, targets-AllThere client_id w ks)
    | inr f ↦ ground (arith, e, f, targets-AllThere client_id w ks)
  ]
]

contains-targets :
    (client_id j : ℕ) (w : World) (ks : List ℕ)
    → contains j (keep (λ k. is_client client_id (lookup k w.sessions)) ks)
      ≡ (contains j ks && is_client client_id (lookup j w.sessions))
contains-targets client_id j w [] = refl
contains-targets client_id j w (k ∷ ks) = elim (Bool-cases (j == k)) [
  | inl e ↦
      let same : j ≡ k = ground (arith, e) in
      rw same (ground (arith, contains-targets client_id k w ks))
  | inr e ↦ ground (arith, e, contains-targets client_id j w ks)
]

-- A revocation of a client's sessions, from a world where every connected websocket has a live one.
pub invalidation_is_complete :
    (n : ℕ) (up : ℕ → Bool) (ws : ℕ) (s : ClientSession) (w : World)
    → IsSound n w
    → lookup ws w.sessions ≡ some s
    → contains ws w.connected ≡ true
    → (invalidated_at ws (invalidate_client_sessions up s.client_id w).1 ≡ true)
      × (contains ws (invalidate_client_sessions up s.client_id w).1.connected ≡ false)
unfolding invalidate_client_sessions
invalidation_is_complete n up ws s w sound there joined =
    let live = sound.live ws joined in
    let closed =
      close_each-AreClosed up (sessions_of_client s.client_id w) ws w
        (targets-AllThere s.client_id w w.connected) in
    let target = contains-targets s.client_id ws w w.connected in
    let is_target : contains ws (sessions_of_client s.client_id w) ≡ true =
      ground (arith, there, joined, live, target) in
    (closed.over is_target, closed.gone is_target)

-- After any run and then a revocation of a client's sessions, every session of that client that was
-- connected is invalidated and no longer connected.
pub revocation_is_complete :
    (c : Config) (es : List (Services × Event)) (up : ℕ → Bool) (ws : ℕ) (s : ClientSession)
    → lookup ws (run c es new_world).sessions ≡ some s
    → contains ws (run c es new_world).connected ≡ true
    → (invalidated_at ws (invalidate_client_sessions up s.client_id (run c es new_world)).1 ≡ true)
      × (contains ws (invalidate_client_sessions up s.client_id (run c es new_world)).1.connected
          ≡ false)
revocation_is_complete c es up ws s there joined =
    invalidation_is_complete c.max_connections up ws s (run c es new_world) (sessions_bounded c es)
      there joined
