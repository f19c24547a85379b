-- ===== src/WebSocket/Permission.antt =====
-- The action that a press of server/app/websocket.py executes.
use android_streamdeck.Base.{
  ℕ, ◌≡◌, refl, ◌∙◌, sym, arith, ap, Bool, true, false, Option, none, some, ◌∷◌, find_first, ◌==◌,
  Bool-cases, inl, inr, ◌⊎◌,
}
use android_streamdeck.Base.Dict.{Dict, lookup, lookup-insert}
use android_streamdeck.Profile.{Action, Profile, Page, Button}
use android_streamdeck.Repository.Store.{Result, ok, err}
use android_streamdeck.Repository.Methods.{get_profile}
use android_streamdeck.WebSocket.{
  ErrorCode, error, auth_revoked, Wire, ClientSession, World, send_text, put_session,
  send_session_text,
}
use android_streamdeck.WebSocket.Press.{
  Press, cache_response, ack_of, answer_error, press_button, press_page, press_profile, press_fresh,
  handle_press,
}
use android_streamdeck.WebSocket.Serve.{
  Config, Services, message, press, session_credential_is_active, dismiss, answer,
  generation_is_active,
}

send_session_text-executed :
    (up : Bool) (ws : ℕ) (s : ClientSession) (m : Wire) (w : World)
    → (send_session_text up ws s m w).1.executed ≡ w.executed
unfolding send_session_text send_text
send_session_text-executed true ws s m w = ground arith
send_session_text-executed false ws s m w = ground arith

answer_error-executed :
    (up : Bool) (ws : ℕ) (s : ClientSession) (r : ℕ) (code : ErrorCode) (w : World)
    → (answer_error up ws s r code w).1.executed ≡ w.executed
answer_error-executed up ws s r code w =
    ground (arith, send_session_text-executed up ws s (error code (some r)) w)

-- Why an action was executed for a press.
pub record IsPermitted (c : Config) (v : Services) (s : ClientSession) (m : Press) (action : Action)
    : Type 0 where
  -- The session was live, and its credential still active where one is needed.
  pub live : s.invalidated ≡ false
  pub credential :
      (c.require_auth ≡ false)
      ⊎ (generation_is_active c s.client_id v.pairing s.credential_generation ≡ true)
  -- The request had no answer yet.
  pub fresh : lookup m.request_id s.responses ≡ none
  -- The button is on the page of the session's profile, whose current revision the client has.
  pub selected : m.profile_id ≡ s.profile_id
  pub found :
      (p : Profile) × (page : Page) × (b : Button) × (get_profile c.valid_url s.profile_id none v.db
        ≡ ok p)
      × (p.revision ≡ m.revision)
      × (find_first (λ q. q.id == m.page_id) p.pages ≡ some page)
      × (find_first (λ q. q.id == m.button_id) page.buttons ≡ some b)
      × (b.action ≡ action)

-- Nothing was executed, or one action for the press and with permission, which was cached.
abbrev pub Executes : Config → Services → ℕ → ClientSession → Press → World → World → Type 0
Executes c v ws s m w w' =
    (w'.executed ≡ w.executed)
    ⊎ ((action : Action) × (w'.executed ≡ (ws, action) ∷ w.executed)
        × IsPermitted c v s m action
        × (lookup ws w'.sessions
            ≡ some (cache_response s m.request_id (ack_of m.request_id (v.execute action)))))

pub send_session_text-sessions :
    (up : Bool) (ws : ℕ) (s : ClientSession) (m : Wire) (w : World)
    → (send_session_text up ws s m w).1.sessions ≡ w.sessions
unfolding send_session_text send_text
send_session_text-sessions true ws s m w = ground arith
send_session_text-sessions false ws s m w = ground arith

module _ (c : Config) (v : Services) (up : Bool) (ws : ℕ) (s : ClientSession) (m : Press)
    (w : World) (live : s.invalidated ≡ false)
    (credential : (c.require_auth ≡ false)
      ⊎ (generation_is_active c s.client_id v.pairing s.credential_generation ≡ true)) where
  press_page-Executes :
      (p : Profile) (o : Option Page)
      → lookup m.request_id s.responses ≡ none
      → m.profile_id ≡ s.profile_id
      → get_profile c.valid_url s.profile_id none v.db ≡ ok p
      → p.revision ≡ m.revision
      → find_first (λ q. q.id == m.page_id) p.pages ≡ o
      → Executes c v ws s m w (press_page v.execute up ws s m o w).1
  press_page-Executes p none fresh selected got rev e = inl (answer_error-executed up ws s _ _ w)
  press_page-Executes p (some page) fresh selected got rev e =
      go (find_first (λ b. b.id == m.button_id) page.buttons) refl
    where
      go :
          (o : Option Button)
          → find_first (λ b. b.id == m.button_id) page.buttons ≡ o
          → Executes c v ws s m w (press_button v.execute up ws s m o w).1
      go none f = inl (answer_error-executed up ws s _ _ w)
      go (some b) f =
          let reply = ack_of m.request_id (v.execute b.action) in
          let s' = cache_response s m.request_id reply in
          let w1 = put_session ws s' (record w { executed = (ws, b.action) ∷ w.executed }) in
          inr (
            b.action,
            send_session_text-executed up ws s reply w1,
            record {
              live = live;
              credential = credential;
              fresh = fresh;
              selected = selected;
              found = (p, page, b, got, rev, e, f, refl);
            },
            ap (λ (d : Dict ClientSession). lookup ws d)
                  (send_session_text-sessions up ws s reply w1)
                ∙ ground (arith, lookup-insert ws ws s' w.sessions),
          )

  press_profile-Executes :
      (r : Result Profile)
      → lookup m.request_id s.responses ≡ none
      → m.profile_id ≡ s.profile_id
      → get_profile c.valid_url s.profile_id none v.db ≡ r
      → Executes c v ws s m w (press_profile v.execute up ws s m r w).1
  press_profile-Executes (err e) fresh selected got = inl (answer_error-executed up ws s _ _ w)
  press_profile-Executes (ok p) fresh selected got = elim (Bool-cases (p.revision == m.revision)) [
    | inl e ↦ simp e (
        press_page-Executes p (find_first (λ q. q.id == m.page_id) p.pages) fresh selected got
          (ground (arith, e)) refl)
    | inr e ↦ simp e (inl (send_session_text-executed up ws s _ w))
  ]

  press_fresh-Executes :
      (o : Option Wire)
      → lookup m.request_id s.responses ≡ o
      → Executes c v ws s m w
          (press_fresh v.execute (get_profile c.valid_url m.profile_id none v.db) up ws s m o w).1
  press_fresh-Executes (some previous) cached = inl (send_session_text-executed up ws s previous w)
  press_fresh-Executes none fresh = elim (Bool-cases (m.profile_id == s.profile_id)) [
    | inl e ↦
        let same : m.profile_id ≡ s.profile_id = ground (arith, e) in
        simp e (
          press_profile-Executes (get_profile c.valid_url m.profile_id none v.db) fresh same
            (ap (λ (i : ℕ). get_profile c.valid_url i none v.db) (sym same)))
    | inr e ↦ simp e (inl (answer_error-executed up ws s _ _ w))
  ]

credential-active :
    (c : Config) (v : Services) (s : ClientSession)
    → session_credential_is_active c v s ≡ true
    → (s.invalidated ≡ false)
      × ((c.require_auth ≡ false)
          ⊎ (generation_is_active c s.client_id v.pairing s.credential_generation ≡ true))
unfolding session_credential_is_active
credential-active c v s h = elim (Bool-cases c.require_auth) [
  | inl e ↦ (ground arith, inr (ground (arith, e)))
  | inr e ↦ (ground (arith, e), inl e)
]

dismiss-executed :
    (c : Config) (up : Bool) (ws : ℕ) (s : ClientSession) (m : Wire) (status : ℕ) (w : World)
    → (dismiss c up ws s m status w).1.executed ≡ w.executed
dismiss-executed c up ws s m status w = ground (arith, send_session_text-executed up ws s m w)

-- A press executes nothing, or exactly one action: that of the pressed button, on the page pressed
-- of the current revision of the session's profile, whose revision the client named; and then the
-- session is not invalidated, its credential is still active unless none is required, the request had
-- no cached answer, and the session is stored with the acknowledgement cached.
pub press-Executes :
    (c : Config) (v : Services) (up : Bool) (ws : ℕ) (s : ClientSession) (m : Press) (w : World)
    → Executes c v ws s m w (answer c v up ws s (message (press m)) w).1
unfolding handle_press
press-Executes c v up ws s m w = elim (Bool-cases (session_credential_is_active c v s)) [
  | inl e ↦
      let (live, credential) = credential-active c v s e in
      simp e (
        press_fresh-Executes c v up ws s m w live credential (lookup m.request_id s.responses) refl)
  | inr e ↦
      simp e (inl (dismiss-executed c up ws s (error auth_revoked (some m.request_id)) 1008 w))
]
