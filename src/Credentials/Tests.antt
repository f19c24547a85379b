-- ===== src/Credentials/Tests.antt =====
-- The paired clients on concrete calls.
use android_streamdeck.Base.{
  ℕ, ◌+◌, ◌*◌, ◌≡◌, ◌≢◌, refl, true, false, Option, none, some, List, [], ◌∷◌, ◌==◌,
}
use android_streamdeck.Base.Text.{Text}
use android_streamdeck.Base.Dict.{lookup, insert}
use android_streamdeck.Credentials.{
  pairing_session, lost_device, other_reason, android, Client, Tables, ok, err, code_invalid,
  unsupported_reason, issue_token, claim_token, revoke_client, revoke_row, authenticate,
  active_credential_generation, is_credential_generation_active,
}
use android_streamdeck.Credentials.Lifecycle.{
  Op, issue, claim, revoke, apply, run, next_generation, replaced_stays_inactive,
  revoked_stays_inactive, issued_is_active, revoked_is_inactive,
}
use android_streamdeck.Credentials.Audit.{IsConsistent, empty_tables, tables-IsConsistent}

-- A hash that tells texts of bytes apart.
abbrev digest : Text → ℕ
digest [] = 0
digest (x ∷ xs) = x + 1 + 257 * digest xs

abbrev version : Text
version = 49 ∷ []

abbrev old_token : Text
old_token = 1 ∷ 2 ∷ []

abbrev new_token : Text
new_token = 3 ∷ []

-- Client 5 has paired once, and client 6 too.
abbrev two_paired : Tables
two_paired =
    unfold run apply claim_token issue_token insert lookup in
    run digest
      (claim (some (9 ∷ [])) 5 version (9 ∷ []) old_token 100
        ∷ issue 6 version pairing_session (7 ∷ []) 101
        ∷ [])
      empty_tables

wrong_code :
    (claim_token digest (some (9 ∷ [])) 5 version (8 ∷ []) old_token 100 empty_tables).0
    ≡ err code_invalid
unfolding claim_token
wrong_code = refl

bad_reason : (revoke_client 5 (other_reason 3) 100 empty_tables).0 ≡ err unsupported_reason
unfolding revoke_client
bad_reason = refl

abbrev first_row : Client
first_row = record {
  client_version = version;
  platform = android;
  device_label = none;
  token_hash = digest old_token;
  generation = 1;
  paired_at = 100;
  last_seen_at = none;
  revoked_at = none;
  revoked_reason = none;
}

two_paired_first : lookup 5 two_paired.clients ≡ some first_row
unfolding run apply claim_token issue_token insert lookup
two_paired_first = refl

issues_again :
    (issue_token digest 5 version pairing_session new_token 200 two_paired).0 ≡ ok new_token
unfolding run apply claim_token issue_token insert lookup
issues_again = refl

revokes : (revoke_client 5 lost_device 200 two_paired).0 ≡ ok true
unfolding run apply claim_token issue_token revoke_client revoke_row insert lookup
revokes = refl

revokes_once :
    (revoke_client 5 lost_device 300 (revoke_client 5 lost_device 200 two_paired).1).0 ≡ ok false
unfolding run apply claim_token issue_token revoke_client revoke_row insert lookup
revokes_once = refl

abbrev later : List Op
later = revoke 5 lost_device 300 ∷ issue 5 version pairing_session (8 ∷ []) 400 ∷ []

replaced_stays_inactive_example :
    is_credential_generation_active 5 1
      (run digest later (issue_token digest 5 version pairing_session new_token 200 two_paired).1)
    ≡ false
replaced_stays_inactive_example =
    replaced_stays_inactive digest 5 version pairing_session new_token 200 two_paired first_row
      issues_again two_paired_first later

revoked_stays_inactive_example :
    is_credential_generation_active 5 1
      (run digest later (revoke_client 5 lost_device 200 two_paired).1)
    ≡ false
revoked_stays_inactive_example =
    revoked_stays_inactive digest 5 lost_device 200 two_paired first_row revokes two_paired_first
      later

issued_is_active_example :
    (let t' = (issue_token digest 5 version pairing_session new_token 200 two_paired).1 in
      let g = next_generation (lookup 5 two_paired.clients) in
      (active_credential_generation digest 5 (some new_token) t' ≡ some g)
      × ((n : ℕ) → is_credential_generation_active 5 n t' ≡ g == n)
      × ((k : ℕ) → k ≢ 5 → lookup k t'.clients ≡ lookup k two_paired.clients))
issued_is_active_example =
    issued_is_active digest 5 version pairing_session 3 [] 200 two_paired issues_again

revoked_is_inactive_example :
    (let t' = (revoke_client 5 lost_device 200 two_paired).1 in
      ((token : Option Text) → authenticate digest 5 token t' ≡ false)
      × ((n : ℕ) → is_credential_generation_active 5 n t' ≡ false)
      × ((k : ℕ) → k ≢ 5 → lookup k t'.clients ≡ lookup k two_paired.clients))
revoked_is_inactive_example = revoked_is_inactive digest 5 lost_device 200 two_paired revokes

tables-IsConsistent_example : IsConsistent (run digest later empty_tables)
tables-IsConsistent_example = tables-IsConsistent digest later
