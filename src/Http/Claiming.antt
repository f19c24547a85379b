-- ===== src/Http/Claiming.antt =====
-- What an answered claim of server/app/api.py has done.
use android_streamdeck.Base.{
  ℕ, ◌≡◌, ◌≢◌, refl, true, Option, none, some, [], ◌∷◌, arith, Bool-cases, inl, inr,
}
use android_streamdeck.Base.Text.{Text, text_eq}
use android_streamdeck.Credentials.{
  Actor, Tables, pairing_session, pairing_code, issue_token, claim_token, authenticate,
  active_credential_generation,
}
use android_streamdeck.Credentials as Credentials
use android_streamdeck.Credentials.Lifecycle.{issued_is_active}
use android_streamdeck.WebSocket.Bounds as WebSocket
use android_streamdeck.Http.{
  ApiError, Config, Request, Moment, State, Outcome, returned, require, invalidate_sessions,
}
use android_streamdeck.Http.Devices.{
  ClaimRequest, pairing_unavailable_error, pairing_rate_error, service_failure, service_outcome,
  allow_pairing, reset_pairing, call_claim, call_issue_token, call_claim_token, claim_with,
  claim_pairing_route,
}
use android_streamdeck.Http.Refusal.Devices.{limiter-Reads, call_claim-Reads}
use android_streamdeck.Http.Revoking.{
  AreClosed, AreClosed-from, bind-returned, require-returned, state_of,
  invalidate_sessions-AreClosed,
}

-- A token that is not empty authenticates the client once it is issued.
issued_authenticates :
    (hash : Text → ℕ) (id : ℕ) (version : Text) (actor : Actor) (token issued : Text) (now : ℕ)
    (t t' : Tables)
    → issue_token hash id version actor token now t ≡ (Credentials.ok issued, t')
    → token ≢ []
    → (issued ≡ token) × (authenticate hash id (some token) t' ≡ true)
unfolding issue_token authenticate
issued_authenticates hash id version actor [] issued now t t' h nonempty = absurd (nonempty refl)
issued_authenticates hash id version actor (x ∷ xs) issued now t t' h nonempty =
    let same : issued ≡ x ∷ xs = ground arith in
    let done : (issue_token hash id version actor (x ∷ xs) now t).0 ≡ Credentials.ok (x ∷ xs) =
      ground arith in
    let active = (issued_is_active hash id version actor x xs now t done).0 in
    (same, ground (arith, active))

claimed_authenticates :
    (hash : Text → ℕ) (configured : Option Text) (id : ℕ) (version code token issued : Text)
    (now : ℕ) (t t' : Tables)
    → claim_token hash configured id version code token now t ≡ (Credentials.ok issued, t')
    → token ≢ []
    → (issued ≡ token) × (authenticate hash id (some token) t' ≡ true)
unfolding claim_token
claimed_authenticates hash none id version code token issued now t t' h nonempty =
    absurd (ground arith)
claimed_authenticates hash (some configured) id version code token issued now t t' h nonempty =
    elim (Bool-cases (text_eq code configured)) [
      | inl e ↦
          issued_authenticates hash id version pairing_code token issued now t t' (rw e at h)
            nonempty
      | inr e ↦ absurd (ground arith)
    ]

service_returned :
    {A : Type 0} (f : Credentials.Failure → ApiError) (s s' : State)
    (q : Credentials.Result A × Tables) (a : A)
    → ◌≡◌ {A = Outcome A × State}
        (service_outcome f q.0, record s { tables = q.1 })
        (returned a, s')
    → (q ≡ (Credentials.ok a, s'.tables)) × (s'.world ≡ s.world) × (s'.db ≡ s.db)
service_returned f s s' (Credentials.ok x, t) a h = (ground arith, ground arith, ground arith)
service_returned f s s' (Credentials.err x, t) a h = absurd (ground arith)

-- What the `try` block has done when it ends in a token.
record IsGranted (c : Config) (client_id : ℕ) (drawn token : Text) (s s' : State) : Type 0 where
  issued : token ≡ drawn
  authenticates : authenticate c.hash client_id (some drawn) s'.tables ≡ true
  world : s'.world ≡ s.world
  db : s'.db ≡ s.db

module _ (c : Config) (r : Request) (m : Moment) where
  call_issue_token-IsGranted :
      (client_id : ℕ) (version token : Text) (s s' : State)
      → call_issue_token c r m client_id version s ≡ (returned token, s')
      → m.token ≢ []
      → IsGranted c client_id m.token token s s'
  unfolding call_issue_token
  call_issue_token-IsGranted client_id version token s s' h nonempty =
      let q = issue_token c.hash client_id version pairing_session m.token m.timestamp s.tables in
      let (run, world, db) = service_returned service_failure s s' q token h in
      let (same, active) =
        issued_authenticates c.hash client_id version pairing_session m.token token m.timestamp
          s.tables s'.tables run nonempty in
      record { issued = same; authenticates = active; world = world; db = db }

  call_claim_token-IsGranted :
      (client_id : ℕ) (version code token : Text) (s s' : State)
      → call_claim_token c r m client_id version code s ≡ (returned token, s')
      → m.token ≢ []
      → IsGranted c client_id m.token token s s'
  unfolding call_claim_token
  call_claim_token-IsGranted client_id version code token s s' h nonempty =
      let q =
        claim_token c.hash c.pairing_code client_id version code m.token m.timestamp s.tables in
      let (run, world, db) = service_returned service_failure s s' q token h in
      let (same, active) =
        claimed_authenticates c.hash c.pairing_code client_id version code m.token token m.timestamp
          s.tables s'.tables run nonempty in
      record { issued = same; authenticates = active; world = world; db = db }

  session_claim-IsGranted :
      (p : ClaimRequest) (session_id proof token : Text) (s s' : State)
      → claim_with c r m p (some session_id) (some proof) s ≡ (returned token, s')
      → m.token ≢ []
      → IsGranted c p.client_id m.token token s s'
  session_claim-IsGranted p session_id proof token s s' h nonempty =
      let (u1, s1, e1, h1) =
        bind-returned (require c.has_session_manager pairing_unavailable_error) _ s s' token h in
      let (on, at1) = require-returned c.has_session_manager pairing_unavailable_error s s1 u1 e1 in
      let step = call_claim c r m p.client_id p.client_version session_id proof in
      let (granted, s2, e2, h2) = bind-returned step _ s1 s' token h1 in
      let same =
        state_of step s1 s2 granted e2
          (call_claim-Reads c r m p.client_id p.client_version session_id proof) in
      let g = call_issue_token-IsGranted p.client_id p.client_version token s2 s' h2 nonempty in
      record {
        issued = g.issued;
        authenticates = g.authenticates;
        world = ground (arith, g.world, same.world);
        db = ground (arith, g.db, same.db);
      }

  claim_with-IsGranted :
      (p : ClaimRequest) (session_id proof : Option Text) (token : Text) (s s' : State)
      → claim_with c r m p session_id proof s ≡ (returned token, s')
      → m.token ≢ []
      → IsGranted c p.client_id m.token token s s'
  claim_with-IsGranted p (some session_id) (some proof) token s s' h nonempty =
      session_claim-IsGranted p session_id proof token s s' h nonempty
  claim_with-IsGranted p (some session_id) none token s s' h nonempty =
      call_claim_token-IsGranted p.client_id p.client_version _ token s s' h nonempty
  claim_with-IsGranted p none proof token s s' h nonempty =
      call_claim_token-IsGranted p.client_id p.client_version _ token s s' h nonempty

-- What an answered claim leaves.
pub record IsClaimed (c : Config) (drawn : Text) (client_id : ℕ) (s s' : State) (a : ℕ × Text)
    : Type 0 where
  pub answer : a ≡ (client_id, drawn)
  pub authenticates : authenticate c.hash client_id (some drawn) s'.tables ≡ true
  pub closed : AreClosed client_id s.world s'.world
  pub kept : s'.db ≡ s.db

IsClaimed-at :
    {c : Config} {drawn : Text} {client_id : ℕ} {s s6 s' : State} {a : ℕ × Text}
    → s' ≡ s6
    → IsClaimed c drawn client_id s s6 a
    → IsClaimed c drawn client_id s s' a
IsClaimed-at e h = rw e h

authenticates-at :
    (hash : Text → ℕ) (id : ℕ) (token : Text) (t t' : Tables)
    → t' ≡ t
    → authenticate hash id (some token) t ≡ true
    → authenticate hash id (some token) t' ≡ true
authenticates-at hash id token t t' e h = rw e h

-- A claim that is answered, by a session's proof or by the configured code, where the token that was
-- drawn is not empty and the invariant of the websocket manager holds: the answer is the client's id
-- with that token, the token authenticates the client, each websocket that was connected for the client
-- is invalidated and no longer connected, and the profiles are as they were.
pub claim_pairing_route-IsClaimed :
    (n : ℕ) (c : Config) (r : Request) (m : Moment) (p : ClaimRequest) (s s' : State) (a : ℕ × Text)
    → c.has_websockets ≡ true
    → m.token ≢ []
    → WebSocket.IsSound n s.world
    → claim_pairing_route c r m p s ≡ (returned a, s')
    → IsClaimed c m.token p.client_id s s' a
unfolding claim_pairing_route reset_pairing
claim_pairing_route-IsClaimed n c r m p s s' a on nonempty sound h =
    let (u1, s1, e1, h1) =
      bind-returned (require c.has_pairing_service pairing_unavailable_error) _ s s' a h in
    let (served, at1) =
      require-returned c.has_pairing_service pairing_unavailable_error s s1 u1 e1 in
    let (allowed, s2, e2, h2) = bind-returned (allow_pairing c r m) _ s1 s' a h1 in
    let same = state_of (allow_pairing c r m) s1 s2 allowed e2 (limiter-Reads c r m).2 in
    let (u3, s3, e3, h3) = bind-returned (require allowed pairing_rate_error) _ s2 s' a h2 in
    let (passed, at3) = require-returned allowed pairing_rate_error s2 s3 u3 e3 in
    let (token, s4, e4, h4) =
      bind-returned (claim_with c r m p p.session_id p.client_proof) _ s3 s' a h3 in
    let g = claim_with-IsGranted c r m p p.session_id p.client_proof token s3 s4 e4 nonempty in
    let (u5, s5, e5, h5) = bind-returned (reset_pairing c r m) _ s4 s' a h4 in
    let (u6, s6, e6, h6) = bind-returned (invalidate_sessions c m p.client_id) _ s5 s' a h5 in
    let world : s5.world ≡ s.world = ground (arith, g.world, same.world) in
    let (closed, tables6, db6) =
      invalidate_sessions-AreClosed n c m p.client_id s5 s6 u6 on (rw world sound) e6 in
    let final : s' ≡ s6 = ground arith in
    let tables : s6.tables ≡ s4.tables = ground (arith, tables6) in
    IsClaimed-at final (record {
      answer = ground (arith, g.issued);
      authenticates =
          authenticates-at c.hash p.client_id m.token s4.tables s6.tables tables g.authenticates;
      closed = AreClosed-from p.client_id s.world s5.world s6.world world closed;
      kept = ground (arith, db6, g.db, same.db);
    })
