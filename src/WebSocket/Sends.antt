-- ===== src/WebSocket/Sends.antt =====
-- What the sends and the writes of a session leave alone on another websocket, or on one whose
-- session is invalidated.
use android_streamdeck.Base.{
  ℕ, ◌≡◌, refl, ◌∙◌, arith, Bool, true, false, not, ◌||◌, Option, none, some, List, [], ◌∷◌, ◌==◌,
  if◌then◌else◌,
}
use android_streamdeck.Base.Dict.{lookup, lookup-insert}
use android_streamdeck.WebSocket.{
  Wire, ClientSession, World, send_text, close, put_session, send_session_text, register,
  unregister,
}
use android_streamdeck.WebSocket.Press.{cache_response}

-- What was sent on a websocket, newest first.
unfoldable pub messages_to : ℕ → List (ℕ × Wire) → List Wire
messages_to ws [] = []
messages_to ws ((k, m) ∷ ms) = if k == ws then m ∷ messages_to ws ms else messages_to ws ms

abbrev pub is_over : Option ClientSession → Bool
is_over none = false
is_over (some s) = s.invalidated

-- The websocket has a session, and it is invalidated.
abbrev pub invalidated_at : ℕ → World → Bool
invalidated_at ws w = is_over (lookup ws w.sessions)

-- Nothing was sent on `ws`, and its session is still invalidated.
pub record IsQuiet (ws : ℕ) (w w' : World) : Type 0 where
  pub silent : messages_to ws w'.sent ≡ messages_to ws w.sent
  pub still : invalidated_at ws w' ≡ true

-- `k` is another websocket than `ws`, or its session `s` is invalidated.
abbrev pub spares : ℕ → ℕ → ClientSession → Bool
spares ws k s = not (k == ws) || s.invalidated

pub IsQuiet-trans :
    (ws : ℕ) (w1 w2 w3 : World) → IsQuiet ws w1 w2 → IsQuiet ws w2 w3 → IsQuiet ws w1 w3
IsQuiet-trans ws w1 w2 w3 a b = record { silent = b.silent ∙ a.silent; still = b.still }

module _ (ws : ℕ) where
  pub send_text-IsQuiet :
      (up : Bool) (k : ℕ) (m : Wire) (w : World)
      → (k == ws) ≡ false
      → invalidated_at ws w ≡ true
      → IsQuiet ws w (send_text up k m w).1
  unfolding send_text messages_to
  send_text-IsQuiet true k m w ne over = record { silent = ground (arith, ne); still = over }
  send_text-IsQuiet false k m w ne over = record { silent = refl; still = over }

  pub send_session_text-IsQuiet :
      (up : Bool) (k : ℕ) (s : ClientSession) (m : Wire) (w : World)
      → spares ws k s ≡ true
      → invalidated_at ws w ≡ true
      → IsQuiet ws w (send_session_text up k s m w).1
  unfolding send_session_text send_text messages_to
  send_session_text-IsQuiet true k s m w sp over = record {
    silent = ground (arith, sp);
    still = ground (arith, over);
  }
  send_session_text-IsQuiet false k s m w sp over = record {
    silent = ground (arith, sp);
    still = ground (arith, over);
  }

  pub put_session-IsQuiet :
      (k : ℕ) (s : ClientSession) (w : World)
      → spares ws k s ≡ true
      → invalidated_at ws w ≡ true
      → IsQuiet ws w (put_session k s w)
  put_session-IsQuiet k s w sp over = record {
    silent = refl;
    still = ground (arith, sp, over, lookup-insert k ws s w.sessions);
  }

  pub unregister-IsQuiet :
      (k : ℕ) (w : World) → invalidated_at ws w ≡ true → IsQuiet ws w (unregister k w)
  unfolding unregister
  unregister-IsQuiet k w over = record { silent = refl; still = over }

  pub close-IsQuiet :
      (k code : ℕ) (w : World) → invalidated_at ws w ≡ true → IsQuiet ws w (close k code w)
  close-IsQuiet k code w over = record { silent = refl; still = over }

  pub register-IsQuiet :
      (n k : ℕ) (s : ClientSession) (w : World)
      → (k == ws) ≡ false
      → invalidated_at ws w ≡ true
      → IsQuiet ws w (register n k s w).1
  unfolding register
  register-IsQuiet n k s w ne over = record {
    silent = ground arith;
    still = ground (arith, ne, over, lookup-insert k ws s w.sessions);
  }

pub cache_response-invalidated :
    (s : ClientSession) (request_id : ℕ) (m : Wire)
    → (cache_response s request_id m).invalidated ≡ s.invalidated
unfolding cache_response
cache_response-invalidated s request_id m = ground arith
