-- ===== src/Pairing/Checks.antt =====
-- The checks of server/app/pairing_session.py on what comes from outside: the regular expressions,
-- the private IPv4 address, the certificate's frame and the pairing code.
use android_streamdeck.Base.{
  ℕ, ◌+◌, ◌*◌, ◌/◌, ◌≡◌, Bool, true, false, not, ◌&&◌, ◌||◌, Option, none, some, [], ◌∷◌, ◌++◌,
  arith, length, all, keep, ltb, leb, ◌==◌, if◌then◌else◌,
}
use android_streamdeck.Base.Text.{
  Text, codes, is_alphanumeric, index_of, count_from, slice, strip, without_space,
}
use android_streamdeck.Pairing.Library.{Library}

-- `[A-Za-z0-9_-]`
abbrev pub is_url_safe : ℕ → Bool
is_url_safe c = is_alphanumeric c || c == b'_' || c == b'-'

-- `_SESSION_ID_PATTERN.fullmatch`
unfoldable pub matches_session_id : Text → Bool
matches_session_id s = length s == 22 && all is_url_safe s

-- `_PROOF_PATTERN.fullmatch`
unfoldable pub matches_proof : Text → Bool
matches_proof s = length s == 43 && all is_url_safe s

-- `[A-Za-z0-9._-]`
abbrev pub is_id_character : ℕ → Bool
is_id_character c = is_alphanumeric c || c == b'.' || c == b'_' || c == b'-'

-- `_STABLE_ID_PATTERN.fullmatch`
unfoldable pub matches_stable_id : Text → Bool
matches_stable_id [] = false
matches_stable_id (c ∷ s) = is_alphanumeric c && leb (length s) 63 && all is_id_character s

-- `[A-Z2-7]`
abbrev pub is_base32 : ℕ → Bool
is_base32 c = (leb b'A' c && leb c b'Z') || (leb b'2' c && leb c b'7')

-- `_BASE32_PATTERN.fullmatch`
unfoldable pub matches_base32 : Text → Bool
matches_base32 s = length s == 26 && all is_base32 s

-- `address in network` for the three networks of `_RFC1918_NETWORKS`: 10.0.0.0/8, 172.16.0.0/12 and
-- 192.168.0.0/16, by the leading 8, 12 and 16 of 32 bits
unfoldable pub in_rfc1918 : ℕ → Bool
in_rfc1918 a = a / 16777216 == 10 || a / 1048576 == 172 * 16 + 1 || a / 65536 == 192 * 256 + 168

-- An address is accepted exactly when it lies in 10.0.0.0 to 10.255.255.255, in 172.16.0.0 to
-- 172.31.255.255 or in 192.168.0.0 to 192.168.255.255.
pub in_rfc1918-ranges :
    (a : ℕ)
    → in_rfc1918 a
      ≡ (leb 167772160 a && leb a 184549375)
        || (leb 2886729728 a && leb a 2887778303)
        || (leb 3232235520 a && leb a 3232301055)
unfolding in_rfc1918
in_rfc1918-ranges a = ground arith

module _ (lib : Library) where
  -- `_require_private_ipv4`; `none` is its `ValueError`
  unfoldable pub require_private_ipv4 : Text → Option Text
  require_private_ipv4 value = elim (lib.parse_ipv4 (strip lib.is_space value)) [
    | none ↦ none
    | some address ↦ if in_rfc1918 address then some (lib.show_ipv4 address) else none
  ]

  abbrev certificate_begin : Text
  certificate_begin = codes "-----BEGIN CERTIFICATE-----"

  abbrev certificate_end : Text
  certificate_end = codes "-----END CERTIFICATE-----"

  -- The part of `_validate_ca_certificate_pem` from `begin` on, with the two positions.
  unfoldable pub check_certificate_body : Text → Option ℕ → Option ℕ → Bool
  check_certificate_body normalized none e = false
  check_certificate_body normalized (some b) none = false
  check_certificate_body normalized (some b) (some e) =
      let begin = b + length certificate_begin in
      if leb e begin
      then false
      else elim (lib.b64decode (without_space lib.is_space (slice begin e normalized))) [
        | none ↦ false
        | some [] ↦ false
        | some (x ∷ xs) ↦ true
      ]

  -- `_validate_ca_certificate_pem`: whether it does not raise
  unfoldable pub valid_ca_certificate_pem : Text → Bool
  unfolding check_certificate_body
  valid_ca_certificate_pem value =
      if ltb 65536 (length (lib.utf8 value))
      then false
      else let normalized = strip lib.is_space value in
        if not (count_from certificate_begin 0 normalized == 1)
          || not (count_from certificate_end 0 normalized == 1)
        then false
        else check_certificate_body normalized (index_of certificate_begin normalized)
            (index_of certificate_end normalized)

  abbrev pub upper_text : Text → Text
  upper_text [] = []
  upper_text (c ∷ s) = lib.upper c ++ upper_text s

  -- `"".join(value.split()).replace("-", "").upper()`
  unfoldable pub clean_pairing_code : Text → Text
  clean_pairing_code value =
      upper_text (keep (λ c. not (c == b'-')) (without_space lib.is_space value))

  -- The test of the decoded length, 16 bytes.
  abbrev pub decodes_to_key : Option Text → Bool
  decodes_to_key none = false
  decodes_to_key (some bytes) = length bytes == 16

  -- `normalize_pairing_code`
  unfoldable pub normalize_pairing_code : Text → Option Text
  unfolding clean_pairing_code
  normalize_pairing_code value =
      let normalized = clean_pairing_code value in
      if not (matches_base32 normalized)
      then none
      else if decodes_to_key (lib.b32decode normalized)
      then some normalized
      else none
