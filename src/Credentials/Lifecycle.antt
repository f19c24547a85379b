-- ===== src/Credentials/Lifecycle.antt =====
-- Sequences of the operations of server/app/pairing.py, seen from one credential generation.
use android_streamdeck.Base.{
  ℕ, ◌+◌, ◌<◌, ◌≡◌, ◌⊎◌, inl, inr, refl, true, false, Option, none, some, List, [], ◌∷◌, arith,
  is_none, ◌==◌, ◌≢◌, Option-cases,
}
use android_streamdeck.Base.Text.{Text}
use android_streamdeck.Base.Dict.{lookup, lookup-insert}
use android_streamdeck.Credentials.{
  Reason, Actor, Client, Tables, ok, issue_token, claim_token, revoke_row, revoke_client,
  issued_row, is_active_row, is_credential_generation_active, active_credential_generation,
  authenticate, pairing_code,
}

-- What the server does to the tables, with the code that it is configured with.
pub data Op : Type 0 where
  issue : ℕ → Text → Actor → Text → ℕ → Op
  claim : Option Text → ℕ → Text → Text → Text → ℕ → Op
  revoke : ℕ → Reason → ℕ → Op

-- `generation` is behind the client's row, or is the row's and was revoked.
abbrev pub IsSpent : ℕ → Option Client → Type 0
IsSpent generation none = ⊥
IsSpent generation (some c) =
    (generation < c.generation) ⊎ ((c.generation ≡ generation) × (is_none c.revoked_at ≡ false))

abbrev pub next_generation : Option Client → ℕ
next_generation none = 1
next_generation (some c) = c.generation + 1

IsSpent-inactive : (g : ℕ) (row : Option Client) → IsSpent g row → is_active_row g row ≡ false
IsSpent-inactive g none s = absurd s
IsSpent-inactive g (some c) s = ground arith

module _ (hash : Text → ℕ) where
  unfoldable pub apply : Op → Tables → Tables
  apply (issue id version actor token now) t = (issue_token hash id version actor token now t).1
  apply (claim configured id version code token now) t =
      (claim_token hash configured id version code token now t).1
  apply (revoke id reason now) t = (revoke_client id reason now t).1

  unfoldable pub run : List Op → Tables → Tables
  run [] t = t
  run (op ∷ ops) t = run ops (apply op t)

  issue_token-lookup :
      (id : ℕ) (version : Text) (actor : Actor) (token : Text) (now k : ℕ) (t : Tables)
      → (let t' = (issue_token hash id version actor token now t).1 in
          (lookup k t'.clients ≡ lookup k t.clients)
          ⊎ ((k ≡ id)
              × (lookup k t'.clients
                  ≡ some (issued_row (lookup k t.clients) version (hash token) now))))
  unfolding issue_token
  issue_token-lookup id version actor token now k t = ground (
    arith,
    lookup-insert id k (issued_row (lookup id t.clients) version (hash token) now) t.clients,
  )

  IsSpent-issued :
      (g : ℕ) (version : Text) (h now : ℕ) (row : Option Client)
      → IsSpent g row
      → IsSpent g (some (issued_row row version h now))
  IsSpent-issued g version h now none s = absurd s
  IsSpent-issued g version h now (some c) s = ground arith

  issue_token-IsSpent :
      (id : ℕ) (version : Text) (actor : Actor) (token : Text) (now k g : ℕ) (t : Tables)
      → IsSpent g (lookup k t.clients)
      → IsSpent g (lookup k (issue_token hash id version actor token now t).1.clients)
  issue_token-IsSpent id version actor token now k g t s =
      elim (issue_token-lookup id version actor token now k t) [
        | inl e ↦ rw e s
        | inr (_, e) ↦ rw e (IsSpent-issued g version (hash token) now (lookup k t.clients) s)
      ]

  claim_token-IsSpent :
      (configured : Option Text) (id : ℕ) (version code token : Text) (now k g : ℕ) (t : Tables)
      → IsSpent g (lookup k t.clients)
      → IsSpent g (lookup k (claim_token hash configured id version code token now t).1.clients)
  unfolding claim_token
  claim_token-IsSpent none id version code token now k g t s = s
  claim_token-IsSpent (some c) id version code token now k g t s =
      ground (arith, issue_token-IsSpent id version pairing_code token now k g t s)

revoke_row-IsSpent :
    (id : ℕ) (reason : Reason) (now k g : ℕ) (row : Option Client) (t : Tables)
    → lookup id t.clients ≡ row
    → IsSpent g (lookup k t.clients)
    → IsSpent g (lookup k (revoke_row id reason now row t).1.clients)
unfolding revoke_row
revoke_row-IsSpent id reason now k g none t e s = s
revoke_row-IsSpent id reason now k g (some c) t e s = ground (
  arith,
  lookup-insert id k (record c { revoked_at = some now; revoked_reason = some reason }) t.clients,
)

revoke_client-IsSpent :
    (id : ℕ) (reason : Reason) (now k g : ℕ) (t : Tables)
    → IsSpent g (lookup k t.clients)
    → IsSpent g (lookup k (revoke_client id reason now t).1.clients)
unfolding revoke_client
revoke_client-IsSpent id reason now k g t s =
    ground (arith, revoke_row-IsSpent id reason now k g (lookup id t.clients) t refl s)

module _ (hash : Text → ℕ) where
  run-IsSpent :
      (ops : List Op) (k g : ℕ) (t : Tables)
      → IsSpent g (lookup k t.clients)
      → IsSpent g (lookup k (run hash ops t).clients)
  unfolding run apply
  run-IsSpent [] k g t s = s
  run-IsSpent (issue id version actor token now ∷ ops) k g t s =
      run-IsSpent ops k g (issue_token hash id version actor token now t).1
        (issue_token-IsSpent hash id version actor token now k g t s)
  run-IsSpent (claim configured id version code token now ∷ ops) k g t s =
      run-IsSpent ops k g (claim_token hash configured id version code token now t).1
        (claim_token-IsSpent hash configured id version code token now k g t s)
  run-IsSpent (revoke id reason now ∷ ops) k g t s =
      run-IsSpent ops k g (revoke_client id reason now t).1
        (revoke_client-IsSpent id reason now k g t s)

  spent_inactive :
      (k g : ℕ) (t : Tables)
      → IsSpent g (lookup k t.clients)
      → is_credential_generation_active k g t ≡ false
  unfolding is_credential_generation_active
  spent_inactive k g t s = ground (arith, IsSpent-inactive g (lookup k t.clients) s)

  issue_token-spends :
      (id : ℕ) (version : Text) (actor : Actor) (token : Text) (now : ℕ) (t : Tables) (c : Client)
      → (issue_token hash id version actor token now t).0 ≡ ok token
      → lookup id t.clients ≡ some c
      → IsSpent c.generation (lookup id (issue_token hash id version actor token now t).1.clients)
  unfolding issue_token
  issue_token-spends id version actor token now t c done e = ground (
    arith,
    e,
    lookup-insert id id (issued_row (lookup id t.clients) version (hash token) now) t.clients,
  )

  -- When a client that is known pairs again, the generation that its row had is not active any
  -- more, whatever is issued, claimed or revoked after that.
  pub replaced_stays_inactive :
      (id : ℕ) (version : Text) (actor : Actor) (token : Text) (now : ℕ) (t : Tables) (c : Client)
      → (issue_token hash id version actor token now t).0 ≡ ok token
      → lookup id t.clients ≡ some c
      → (ops : List Op)
      → is_credential_generation_active id c.generation
          (run hash ops (issue_token hash id version actor token now t).1)
        ≡ false
  replaced_stays_inactive id version actor token now t c done e ops =
      let t' = (issue_token hash id version actor token now t).1 in
      spent_inactive id c.generation (run hash ops t') (
        run-IsSpent ops id c.generation t'
          (issue_token-spends id version actor token now t c done e))

  revoke_client-spends :
      (id : ℕ) (reason : Reason) (now : ℕ) (t : Tables) (c : Client)
      → (revoke_client id reason now t).0 ≡ ok true
      → lookup id t.clients ≡ some c
      → IsSpent c.generation (lookup id (revoke_client id reason now t).1.clients)
  unfolding revoke_client revoke_row
  revoke_client-spends id reason now t c done e = ground (
    arith,
    e,
    lookup-insert id id (record c { revoked_at = some now; revoked_reason = some reason })
        t.clients,
  )

  -- After a revocation that returned true, the revoked generation is not active any more, whatever
  -- is issued, claimed or revoked after that.
  pub revoked_stays_inactive :
      (id : ℕ) (reason : Reason) (now : ℕ) (t : Tables) (c : Client)
      → (revoke_client id reason now t).0 ≡ ok true
      → lookup id t.clients ≡ some c
      → (ops : List Op)
      → is_credential_generation_active id c.generation
          (run hash ops (revoke_client id reason now t).1)
        ≡ false
  revoked_stays_inactive id reason now t c done e ops =
      let t' = (revoke_client id reason now t).1 in
      spent_inactive id c.generation (run hash ops t')
        (run-IsSpent ops id c.generation t' (revoke_client-spends id reason now t c done e))

  -- Right after an issue that succeeded the token authenticates its client with the next generation, and
  -- no other generation of the client is active; no other client's row has changed.
  pub issued_is_active :
      (id : ℕ) (version : Text) (actor : Actor) (x : ℕ) (xs : Text) (now : ℕ) (t : Tables)
      → (issue_token hash id version actor (x ∷ xs) now t).0 ≡ ok (x ∷ xs)
      → (let t' = (issue_token hash id version actor (x ∷ xs) now t).1 in
          let g = next_generation (lookup id t.clients) in
          (active_credential_generation hash id (some (x ∷ xs)) t' ≡ some g)
          × ((n : ℕ) → is_credential_generation_active id n t' ≡ g == n)
          × ((k : ℕ) → k ≢ id → lookup k t'.clients ≡ lookup k t.clients))
  unfolding issue_token active_credential_generation is_credential_generation_active
  issued_is_active id version actor x xs now t done =
      let row = issued_row (lookup id t.clients) version (hash (x ∷ xs)) now in
      let self = lookup-insert id id row t.clients in
      (
        ground (arith, self),
        λ n. ground (arith, self),
        λ k ne. ground (arith, lookup-insert id k row t.clients),
      )

  -- After a revocation that returned true no token authenticates the client, and no generation of
  -- it is active; no other client's row has changed.
  pub revoked_is_inactive :
      (id : ℕ) (reason : Reason) (now : ℕ) (t : Tables)
      → (revoke_client id reason now t).0 ≡ ok true
      → (let t' = (revoke_client id reason now t).1 in
          ((token : Option Text) → authenticate hash id token t' ≡ false)
          × ((n : ℕ) → is_credential_generation_active id n t' ≡ false)
          × ((k : ℕ) → k ≢ id → lookup k t'.clients ≡ lookup k t.clients))
  unfolding revoke_client revoke_row authenticate is_credential_generation_active
      active_credential_generation
  revoked_is_inactive id reason now t done = elim (Option-cases (lookup id t.clients)) [
    | inl e ↦ absurd (ground (arith, e))
    | inr (c, e) ↦
        let row = record c { revoked_at = some now; revoked_reason = some reason } in
        let self = lookup-insert id id row t.clients in
        (
          λ token. ground (arith, e, self),
          λ n. ground (arith, e, self),
          λ k ne. ground (arith, e, lookup-insert id k row t.clients),
        )
  ]
