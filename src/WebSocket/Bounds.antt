-- ===== src/WebSocket/Bounds.antt =====
-- The limits of server/app/websocket.py on connections and cached responses.
pub mod Handler
pub mod Handshake
pub mod Steps
use android_streamdeck.Base.{
  ℕ, suc, ◌+◌, ◌≤◌, ◌≡◌, refl, ◌∙◌, arith, Bool, true, false, not, ◌&&◌, ◌||◌, Option, none, some,
  List, [], ◌∷◌, ◌++◌, length, length-append, length-keep, leb, keep, contains, ◌==◌, is_none,
  if◌then◌else◌,
}
use android_streamdeck.Base.Dict.{Dict, lookup, insert, lookup-insert, length-insert-le}
use android_streamdeck.WebSocket.{
  Wire, ClientSession, World, send_text, close, put_session, send_session_text, register,
  unregister,
}
use android_streamdeck.WebSocket.Press.{cache_response, without_oldest}

-- A session that is there and not invalidated.
abbrev pub is_live : Option ClientSession → Bool
is_live none = false
is_live (some s) = not s.invalidated

abbrev pub cached : Option ClientSession → ℕ
cached none = 0
cached (some s) = length s.responses

-- At most `n` websockets are connected, each with a session that is not invalidated, and every session
-- has at most 256 cached responses.
pub record IsSound (n : ℕ) (w : World) : Type 0 where
  pub few : length w.connected ≤ n
  pub live : (k : ℕ) → contains k w.connected ≡ true → is_live (lookup k w.sessions) ≡ true
  pub small : (k : ℕ) → cached (lookup k w.sessions) ≤ 256

-- Only the sessions and the connected websockets count.
pub record IsSame (w w' : World) : Type 0 where
  pub sessions : w'.sessions ≡ w.sessions
  pub connected : w'.connected ≡ w.connected

pub send_text-IsSame :
    (up : Bool) (ws : ℕ) (m : Wire) (w : World) → IsSame w (send_text up ws m w).1
unfolding send_text
send_text-IsSame true ws m w = record { sessions = refl; connected = refl }
send_text-IsSame false ws m w = record { sessions = refl; connected = refl }

pub send_session_text-IsSame :
    (up : Bool) (ws : ℕ) (s : ClientSession) (m : Wire) (w : World)
    → IsSame w (send_session_text up ws s m w).1
unfolding send_session_text send_text
send_session_text-IsSame true ws s m w = record {
  sessions = ground arith;
  connected = ground arith;
}
send_session_text-IsSame false ws s m w = record {
  sessions = ground arith;
  connected = ground arith;
}

pub IsSame-trans : (w1 w2 w3 : World) → IsSame w1 w2 → IsSame w2 w3 → IsSame w1 w3
IsSame-trans w1 w2 w3 a b = record {
  sessions = b.sessions ∙ a.sessions;
  connected = b.connected ∙ a.connected;
}

pub contains-without :
    (k j : ℕ) (l : List ℕ)
    → contains k (keep (λ x. not (x == j)) l) ≡ (not (k == j) && contains k l)
contains-without k j [] = ground arith
contains-without k j (x ∷ l) = ground (arith, contains-without k j l)

contains-append : (k j : ℕ) (l : List ℕ) → contains k (l ++ j ∷ []) ≡ (contains k l || k == j)
contains-append k j [] = ground arith
contains-append k j (x ∷ l) = ground (arith, contains-append k j l)

module _ (n : ℕ) where
  pub same-IsSound : (w w' : World) → IsSame w w' → IsSound n w → IsSound n w'
  same-IsSound w w' e v = record {
    few = rw e.connected v.few;
    live = λ k. rw (e.connected, e.sessions) (v.live k);
    small = λ k. rw e.sessions (v.small k);
  }

  pub put_session-IsSound :
      (k : ℕ) (s s' : ClientSession) (w : World)
      → lookup k w.sessions ≡ some s
      → s'.invalidated ≡ s.invalidated
      → length s'.responses ≤ 256
      → IsSound n w
      → IsSound n (put_session k s' w)
  put_session-IsSound k s s' w there same little v = record {
    few = v.few;
    live = λ j c. ground (arith, there, same, v.live j c, lookup-insert k j s' w.sessions);
    small = λ j. ground (arith, little, v.small j, lookup-insert k j s' w.sessions);
  }

  pub unregister-IsSound : (k : ℕ) (w : World) → IsSound n w → IsSound n (unregister k w)
  unfolding unregister
  unregister-IsSound k w v = record {
    few = omega (arith, v.few, length-keep (λ x. not (x == k)) w.connected);
    live = λ j c. ground (arith, c, v.live j, contains-without j k w.connected);
    small = v.small;
  }

  pub register-IsSound :
      (k : ℕ) (s : ClientSession) (w : World)
      → s.invalidated ≡ false
      → length s.responses ≤ 256
      → IsSound n w
      → IsSound n (register n k s w).1
  unfolding register
  register-IsSound k s w fresh little v = record {
    few = ground (arith, v.few, length-append w.connected (k ∷ []));
    live = λ j c. ground (
      arith,
      c,
      fresh,
      v.live j,
      contains-append j k w.connected,
      lookup-insert k j s w.sessions,
    );
    small = λ j. ground (arith, little, v.small j, lookup-insert k j s w.sessions);
  }

  -- The session of `k` is invalidated and its websocket unregistered.
  pub drop-IsSound :
      (k : ℕ) (s : ClientSession) (w w1 : World)
      → IsSame (put_session k (record s { invalidated = true }) w) w1
      → lookup k w.sessions ≡ some s
      → IsSound n w
      → IsSound n (unregister k w1)
  unfolding unregister
  drop-IsSound k s w w1 e there v =
      let s' = record s { invalidated = true } in
      record {
        few = rw e.connected (omega (arith, v.few, length-keep (λ x. not (x == k)) w.connected));
        live = λ j.
            rw (e.connected, e.sessions)
              (λ c. ground (
                arith,
                c,
                v.live j,
                contains-without j k w.connected,
                lookup-insert k j s' w.sessions,
              ));
        small = λ j.
            rw e.sessions
              (ground (arith, there, v.small j, v.small k, lookup-insert k j s' w.sessions));
      }

pub cache_response-small :
    (s : ClientSession) (r : ℕ) (m : Wire)
    → length s.responses ≤ 256
    → length ((cache_response s r m).responses) ≤ 256
unfolding cache_response
cache_response-small s r m h = go s.responses refl
  where
    go : (d : Dict Wire) → s.responses ≡ d → length ((cache_response s r m).responses) ≤ 256
    go [] e = ground (arith, e, length-insert-le r m [])
    go (x ∷ d) e = ground (arith, e, h, length-insert-le r m d, length-insert-le r m (x ∷ d))
