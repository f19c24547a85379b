-- ===== src/Credentials/Audit.antt =====
-- The two tables of server/app/pairing.py side by side: credential generations and audit events.
use android_streamdeck.Base.{
  ℕ, ◌+◌, ◌≡◌, ◌≢◌, refl, Bool, true, false, not, Option, none, some, List, [], ◌∷◌, ◌++◌, arith,
  is_none, Bool-cases, ◌&&◌, inl, inr, ◌==◌, if◌then◌else◌,
}
use android_streamdeck.Base.Text.{Text, text_eq}
use android_streamdeck.Base.Dict.{Dict, lookup, lookup-insert}
use android_streamdeck.Credentials.{
  Reason, Actor, EventType, paired, repaired, revoked, Client, AuditEvent, Tables, Result, ok, err,
  issue_token, claim_token, revoke_row, revoke_client, issued_row, issued_event, revoked_event,
  hash_taken, pairing_code, version_fits, is_revocation_reason,
}
use android_streamdeck.Credentials.Lifecycle.{Op, issue, claim, revoke, apply, run}

-- An event that gave the client `id` a new credential generation.
abbrev pub is_issue : ℕ → EventType → ℕ → Bool
is_issue id revoked k = false
is_issue id paired k = k == id
is_issue id repaired k = k == id

pub issue_count : ℕ → List AuditEvent → ℕ
issue_count id [] = 0
issue_count id (e ∷ es) =
    (if is_issue id e.event_type e.client_id then 1 else 0) + issue_count id es

issue_count-append :
    (id : ℕ) (xs : List AuditEvent) (e : AuditEvent)
    → issue_count id (xs ++ e ∷ [])
      ≡ issue_count id xs + (if is_issue id e.event_type e.client_id then 1 else 0)
unfolding issue_count
issue_count-append id [] e = omega arith
issue_count-append id (x ∷ xs) e = omega (arith, issue_count-append id xs e)

abbrev pub generation_of : Option Client → ℕ
generation_of none = 0
generation_of (some c) = c.generation

pub record IsConsistent (t : Tables) : Type 0 where
  -- A client's generation is the number of its issue events, and one that never paired has none.
  pub counted : (id : ℕ) → issue_count id t.audit ≡ generation_of (lookup id t.clients)
  -- `CHECK` of the table: both `revoked_at` and `revoked_reason`, or neither
  pub marked :
      (id : ℕ) (c : Client)
      → lookup id t.clients ≡ some c
      → is_none c.revoked_at ≡ is_none c.revoked_reason
  -- No two clients share a token's hash.
  pub unique :
      (i j : ℕ) (c d : Client)
      → lookup i t.clients ≡ some c
      → lookup j t.clients ≡ some d
      → c.token_hash ≡ d.token_hash
      → i ≡ j

not-hash_taken :
    (id h j : ℕ) (c : Client) (d : Dict Client)
    → hash_taken id h d ≡ false
    → lookup j d ≡ some c
    → j ≢ id
    → c.token_hash ≢ h
unfolding lookup
not-hash_taken id h j c [] free e ne = ground arith
not-hash_taken id h j c ((i, b) ∷ d) free e ne = ground (arith, not-hash_taken id h j c d)

abbrev pub is_ok : {A : Type 0} → Result A → Bool
is_ok (ok a) = true
is_ok (err e) = false

abbrev pub matches_code : Text → Option Text → Bool
matches_code code none = false
matches_code code (some c) = text_eq code c

module _ (hash : Text → ℕ) where
  pub issue_token-IsConsistent :
      (id : ℕ) (version : Text) (actor : Actor) (token : Text) (now : ℕ) (t : Tables)
      → IsConsistent t
      → IsConsistent (issue_token hash id version actor token now t).1
  unfolding issue_token
  issue_token-IsConsistent id version actor token now t v =
      let row = lookup id t.clients in
      let new = issued_row row version (hash token) now in
      let event = issued_event row id actor now in
      record {
        counted = λ k. ground (
          arith,
          v.counted k,
          v.counted id,
          lookup-insert id k new t.clients,
          issue_count-append k t.audit event,
        );
        marked = λ k c e. ground (arith, v.marked k c, lookup-insert id k new t.clients);
        unique = λ i j c d ei ej same. ground (
          arith,
          v.unique i j c d,
          lookup-insert id i new t.clients,
          lookup-insert id j new t.clients,
          not-hash_taken id (hash token) i c t.clients,
          not-hash_taken id (hash token) j d t.clients,
        );
      }

  pub claim_token-IsConsistent :
      (configured : Option Text) (id : ℕ) (version code token : Text) (now : ℕ) (t : Tables)
      → IsConsistent t
      → IsConsistent (claim_token hash configured id version code token now t).1
  unfolding claim_token
  claim_token-IsConsistent none id version code token now t v = v
  claim_token-IsConsistent (some c) id version code token now t v =
      elim (Bool-cases (text_eq code c)) [
        | inl e ↦ rw e (issue_token-IsConsistent id version pairing_code token now t v)
        | inr e ↦ rw e v
      ]

revoke_row-IsConsistent :
    (id : ℕ) (reason : Reason) (now : ℕ) (row : Option Client) (t : Tables)
    → lookup id t.clients ≡ row
    → IsConsistent t
    → IsConsistent (revoke_row id reason now row t).1
unfolding revoke_row
revoke_row-IsConsistent id reason now none t found v = v
revoke_row-IsConsistent id reason now (some old) t found v =
    let new = record old { revoked_at = some now; revoked_reason = some reason } in
    let event = revoked_event id old.generation reason now in
    record {
      counted = λ k. ground (
        arith,
        v.counted k,
        v.counted id,
        lookup-insert id k new t.clients,
        issue_count-append k t.audit event,
      );
      marked = λ k c e. ground (arith, v.marked k c, lookup-insert id k new t.clients);
      unique = λ i j c d ei ej same. ground (
        arith,
        v.unique i j c d,
        v.unique id j old d,
        v.unique i id c old,
        lookup-insert id i new t.clients,
        lookup-insert id j new t.clients,
      );
    }

pub revoke_client-IsConsistent :
    (id : ℕ) (reason : Reason) (now : ℕ) (t : Tables)
    → IsConsistent t
    → IsConsistent (revoke_client id reason now t).1
unfolding revoke_client
revoke_client-IsConsistent id reason now t v = elim (Bool-cases (is_revocation_reason reason)) [
  | inl e ↦ rw e (revoke_row-IsConsistent id reason now (lookup id t.clients) t refl v)
  | inr e ↦ rw e v
]

abbrev pub empty_tables : Tables
empty_tables = record { clients = []; audit = [] }

pub empty_tables-IsConsistent : IsConsistent empty_tables
unfolding lookup issue_count
empty_tables-IsConsistent = record {
  counted = λ id. refl;
  marked = λ id c e. cc;
  unique = λ i j c d ei ej same. absurd (cc);
}

module _ (hash : Text → ℕ) where
  run-IsConsistent : (ops : List Op) (t : Tables) → IsConsistent t → IsConsistent (run hash ops t)
  unfolding run apply
  run-IsConsistent [] t v = v
  run-IsConsistent (issue id version actor token now ∷ ops) t v =
      run-IsConsistent ops (issue_token hash id version actor token now t).1
        (issue_token-IsConsistent hash id version actor token now t v)
  run-IsConsistent (claim configured id version code token now ∷ ops) t v =
      run-IsConsistent ops (claim_token hash configured id version code token now t).1
        (claim_token-IsConsistent hash configured id version code token now t v)
  run-IsConsistent (revoke id reason now ∷ ops) t v =
      run-IsConsistent ops (revoke_client id reason now t).1
        (revoke_client-IsConsistent id reason now t v)

  -- After any issues, claims and revocations from empty tables, whether they succeed or fail: a
  -- client's generation is the number of its paired and repaired events in the audit, a row has a
  -- time of revocation exactly when it has a reason, and no two clients share a token's hash.
  pub tables-IsConsistent : (ops : List Op) → IsConsistent (run hash ops empty_tables)
  tables-IsConsistent ops = run-IsConsistent ops empty_tables empty_tables-IsConsistent

  -- A claim returns the drawn token exactly when a code is configured, the given code equals it,
  -- the version has 1 to 64 characters and the token's hash is no other client's.
  pub claim_token_succeeds :
      (configured : Option Text) (id : ℕ) (version code token : Text) (now : ℕ) (t : Tables)
      → is_ok (claim_token hash configured id version code token now t).0
        ≡ matches_code code configured
          && version_fits version
          && not (hash_taken id (hash token) t.clients)
  unfolding claim_token issue_token
  claim_token_succeeds none id version code token now t = refl
  claim_token_succeeds (some c) id version code token now t = ground arith
