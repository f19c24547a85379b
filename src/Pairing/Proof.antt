-- ===== src/Pairing/Proof.antt =====
-- Key derivation and the two proofs of server/app/pairing_session.py.
use android_streamdeck.Base.{
  ℕ, ◌≡◌, refl, Bool, true, Option, none, some, [], ◌∷◌, ◌++◌, length, ◌==◌, if◌then◌else◌, arith,
}
use android_streamdeck.Base.Text.{
  Text, codes, take, text_eq, Lacks, all-Lacks, append_separator_injective, append_cancel,
}
use android_streamdeck.Pairing.Library.{Library}
use android_streamdeck.Pairing.Checks.{
  normalize_pairing_code, matches_session_id, matches_stable_id, is_url_safe, is_id_character,
}

abbrev pub protocol_prefix : Text
protocol_prefix = codes "streamdeck-pairing-v1"

-- `PairingBootstrapBundle`
pub record Bundle : Type 0 where
  pub version : ℕ
  pub session_id : Text
  pub salt : Text
  pub expires_at : Text
  pub server_ip : Text
  pub port : ℕ
  pub ca_certificate_pem : Text
  pub server_proof : Text

-- The text that `compute_client_proof` signs.
unfoldable pub canonical_claim : Text → Text → Text → Text
canonical_claim session_id client_id client_version =
    protocol_prefix
    ++ (codes "|claim|session_id="
        ++ (session_id
            ++ (codes "|client_id="
                ++ (client_id ++ (codes "|client_version=" ++ client_version)))))

session_id-Lacks : (s : Text) → matches_session_id s ≡ true → Lacks b'|' s
unfolding matches_session_id
session_id-Lacks s h = all-Lacks is_url_safe b'|' s refl (ground arith)

stable_id-Lacks : (i : Text) → matches_stable_id i ≡ true → Lacks b'|' i
unfolding matches_stable_id
stable_id-Lacks [] h = tt
stable_id-Lacks (c ∷ i) h = (ground arith, all-Lacks is_id_character b'|' i refl (ground arith))

-- A client's proof is for one session id, one client id and one version: the signed texts of two
-- claims that pass the checks on the ids are equal only if all three parts are.
pub canonical_claim_injective :
    (s i v s' i' v' : Text)
    → matches_session_id s ≡ true
    → matches_session_id s' ≡ true
    → matches_stable_id i ≡ true
    → matches_stable_id i' ≡ true
    → canonical_claim s i v ≡ canonical_claim s' i' v'
    → (s ≡ s') × (i ≡ i') × (v ≡ v')
unfolding canonical_claim
canonical_claim_injective s i v s' i' v' ms ms' mi mi' e =
    let tail = λ (j w : Text). codes "client_id=" ++ (j ++ (codes "|client_version=" ++ w)) in
    let e1 =
      append_cancel (codes "|claim|session_id=") (s ++ b'|' ∷ tail i v) (s' ++ b'|' ∷ tail i' v')
        (append_cancel protocol_prefix _ _ e) in
    let at_client =
      append_separator_injective b'|' s s' (tail i v) (tail i' v') (session_id-Lacks s ms)
        (session_id-Lacks s' ms') e1 in
    let rest = λ (w : Text). codes "client_version=" ++ w in
    let at_version =
      append_separator_injective b'|' i i' (rest v) (rest v') (stable_id-Lacks i mi)
        (stable_id-Lacks i' mi') (append_cancel (codes "client_id=") _ _ at_client.1) in
    (at_client.0, at_version.0, append_cancel (codes "client_version=") v v' at_version.1)

-- The text that `compute_server_proof` signs, with the digest of the certificate.
unfoldable pub canonical_bootstrap : Text → Text → Text → Text → Text → Text → Text → Text
canonical_bootstrap version session_id salt expires_at server_ip port ca_digest =
    protocol_prefix
    ++ (codes "|bootstrap|version="
        ++ (version
            ++ (codes "|session_id="
                ++ (session_id
                    ++ (codes "|salt="
                        ++ (salt
                            ++ (codes "|expires_at="
                                ++ (expires_at
                                    ++ (codes "|server_ip="
                                        ++ (server_ip
                                            ++ (codes "|port="
                                                ++ (port
                                                    ++ (codes "|ca_sha256="
                                                        ++ ca_digest)))))))))))))

module _ (lib : Library) where
  -- `derive_session_id`; `none` is the `ValueError` of the normalisation
  unfoldable pub derive_session_id : Text → Option Text
  derive_session_id pairing_code = elim (normalize_pairing_code lib pairing_code) [
    | none ↦ none
    | some normalized ↦
        some
          (lib.b64u (take 16 (lib.sha256 (protocol_prefix ++ (codes "|session|" ++ normalized)))))
  ]

  -- `derive_pairing_key`
  unfoldable pub derive_pairing_key : Text → Text → Option Text
  derive_pairing_key pairing_code salt = elim (normalize_pairing_code lib pairing_code) [
    | none ↦ none
    | some normalized ↦ if length salt == 16 then some (lib.hkdf salt normalized) else none
  ]

  -- `compute_client_proof`
  unfoldable pub compute_client_proof : Text → Text → Text → Text → Text
  compute_client_proof pairing_key session_id client_id client_version =
      lib.b64u (
        lib.hmac_sha256 pairing_key
          (lib.utf8 (canonical_claim session_id client_id client_version)))

  -- `compute_server_proof`, of a bundle's other fields
  unfoldable pub compute_server_proof : Text → Bundle → Text
  compute_server_proof pairing_key b = lib.b64u (
      lib.hmac_sha256 pairing_key (
        lib.utf8 (
          canonical_bootstrap (lib.decimal b.version) b.session_id b.salt b.expires_at b.server_ip
            (lib.decimal b.port) (lib.b64u (lib.sha256 (lib.utf8 b.ca_certificate_pem))))))

  -- `verify_server_proof`
  unfoldable pub verify_server_proof : Bundle → Text → Bool
  verify_server_proof bundle pairing_key =
      text_eq bundle.server_proof (compute_server_proof pairing_key bundle)
