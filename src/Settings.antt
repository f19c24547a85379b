-- ===== src/Settings.antt =====
-- server/app/config.py: the settings' checks and the address that pairing offers, with the TLS
-- identities of server/app/tls.py. The paths, the log directory and the timeout of the websockets, which
-- no check reads, are left out. Settings/Environment has `from_env`.
pub mod Safe
pub mod Environment
pub mod Sample
mod Tests
use android_streamdeck.Base.{
  ℕ, Bool, true, false, not, ◌&&◌, ◌||◌, Option, none, some, List, [], ◌∷◌, ◌++◌, map, length, any,
  all, leb, ltb, ◌==◌, is_none, if◌then◌else◌,
}
use mathlib.Core.List.{reverse}
use android_streamdeck.Base.Text.{Text, codes, text_eq, strip, is_alphanumeric}
use android_streamdeck.Pairing.Checks.{in_rfc1918}

-- What the code takes from Python's library.
pub record Python : Type 0 where
  -- `str.isspace`, and the test of `str.strip`
  pub is_space : ℕ → Bool
  -- `str.lower`
  pub lower : Text → Text
  -- `IPv4Address(text)`; `none` is an exception
  pub ipv4 : Text → Option ℕ
  -- `str` of an IPv4 address
  pub show_ipv4 : ℕ → Text
  -- `str(ipaddress.ip_address(text))`; `none` is a `ValueError`
  pub ip_address : Text → Option Text
  -- `text.encode("idna").decode("ascii").lower()`; `none` is a `UnicodeError`
  pub idna : Text → Option Text
  -- `int(text)`; `none` is a `ValueError`. A negative number, which no check takes as a port, is 0.
  pub int : Text → Option ℕ
  -- `float(text)`, as whether `<= 0` fails on it; `none` is a `ValueError`
  pub float_is_positive : Text → Option Bool

pub data TlsMode : Type 0 where
  auto required disabled other_mode : TlsMode

pub record Settings : Type 0 where
  pub host : Text
  pub port : ℕ
  pub pairing_code : Option Text
  pub admin_code : Option Text
  pub require_auth : Bool
  pub discovery_enabled : Bool
  pub discovery_name : Text
  pub tls_mode : TlsMode
  pub tls_identities : List Text

-- the `ValueError`s of `__post_init__` and of `normalize_tls_identities`
pub data ConfigError : Type 0 where
  bad_port bad_pairing_code bad_admin_code bad_tls_mode bad_discovery_name remote_without_auth
        remote_without_tls discovery_not_private no_identities empty_identity bad_identity
        port_not_integer auth_not_boolean discovery_not_boolean timeout_not_number
        timeout_not_positive :
      ConfigError

pub data Checked (A : Type 0) : Type 0 where
  ok : A → Checked A
  err : ConfigError → Checked A

infixl 5 ◌>>=◌ ◌>>◌
abbrev pub ◌>>=◌ : {A B : Type 0} → Checked A → (A → Checked B) → Checked B
err e >>= f = err e
ok a >>= f = f a

abbrev pub ◌>>◌ : {B : Type 0} → Checked (Unit {0}) → Checked B → Checked B
m >> k = m >>= λ _. k

abbrev pub check : Bool → ConfigError → Checked (Unit {0})
check true e = ok tt
check false e = err e

abbrev pub contains_text : Text → List Text → Bool
contains_text t ts = any (text_eq t) ts

-- `dict.fromkeys(texts)` after the texts of `seen`, in reverse
abbrev pub distinct_after : List Text → List Text → List Text
distinct_after seen [] = []
distinct_after seen (t ∷ ts) =
    let rest = distinct_after (t ∷ seen) ts in if contains_text t seen then rest else t ∷ rest

-- `[A-Za-z0-9._-]`
abbrev pub is_code_character : ℕ → Bool
is_code_character c = is_alphanumeric c || c == b'.' || c == b'_' || c == b'-'

-- `_PAIRING_CODE_PATTERN.fullmatch`
unfoldable pub matches_code : Text → Bool
matches_code [] = false
matches_code (c ∷ s) =
    is_alphanumeric c && leb 5 (length s) && leb (length s) 63 && all is_code_character s

abbrev pub code_allowed : Option Text → Bool
code_allowed none = true
code_allowed (some code) = matches_code code

-- The characters after the first of a discovery name: the last one is a letter or a digit.
abbrev pub matches_name_end : Text → Bool
matches_name_end [] = true
matches_name_end (c ∷ []) = is_alphanumeric c
matches_name_end (c ∷ d ∷ s) = (is_code_character c || c == b' ') && matches_name_end (d ∷ s)

-- `_DISCOVERY_NAME_PATTERN.fullmatch`
unfoldable pub matches_discovery_name : Text → Bool
matches_discovery_name [] = false
matches_discovery_name (c ∷ s) = is_alphanumeric c && leb (length s) 62 && matches_name_end s

abbrev pub is_known_mode : TlsMode → Bool
is_known_mode other_mode = false
is_known_mode _ = true

abbrev pub is_disabled : TlsMode → Bool
is_disabled disabled = true
is_disabled _ = false

-- `[a-z0-9]`
abbrev pub is_label_character : ℕ → Bool
is_label_character c = (leb b'a' c && leb c b'z') || (leb b'0' c && leb c b'9')

-- The characters after the first of a DNS label.
abbrev pub matches_label_end : Text → Bool
matches_label_end [] = true
matches_label_end (c ∷ []) = is_label_character c
matches_label_end (c ∷ d ∷ s) = (is_label_character c || c == b'-') && matches_label_end (d ∷ s)

-- `_DNS_LABEL.fullmatch`
unfoldable pub matches_label : Text → Bool
matches_label [] = false
matches_label (c ∷ s) = is_label_character c && leb (length s) 62 && matches_label_end s

-- `text.split(separator)`, with the part that has begun, in reverse
abbrev pub split_on : ℕ → Text → Text → List Text
split_on separator part [] = reverse part ∷ []
split_on separator part (c ∷ s) =
    let rest = split_on separator [] s in
    let longer = split_on separator (c ∷ part) s in
    if c == separator then reverse part ∷ rest else longer

abbrev pub ends_with_dot : Text → Bool
ends_with_dot [] = false
ends_with_dot (c ∷ []) = c == b'.'
ends_with_dot (c ∷ d ∷ s) = ends_with_dot (d ∷ s)

abbrev pub is_missing : Text → Bool
is_missing [] = true
is_missing (x ∷ xs) = false

abbrev pub has_none : List Text → Bool
has_none [] = true
has_none (x ∷ xs) = false

-- The end of `Settings.tls_required`.
abbrev pub mode_requires : TlsMode → Bool → Bool
mode_requires required loopback = true
mode_requires auto loopback = not loopback
mode_requires _ loopback = false

abbrev pub nonempty_identities : List Text → Checked (List Text)
nonempty_identities [] = err no_identities
nonempty_identities (t ∷ ts) = ok (t ∷ ts)

module _ (py : Python) where
  abbrev pub is_private_address : Option ℕ → Bool
  is_private_address none = false
  is_private_address (some a) = in_rfc1918 a

  -- `_is_rfc1918_ipv4_host`
  unfoldable pub is_rfc1918_ipv4_host : Text → Bool
  is_rfc1918_ipv4_host host = is_private_address (py.ipv4 (strip py.is_space host))

  -- `self.host.strip().lower()`
  abbrev pub normalized_host : Settings → Text
  normalized_host s = py.lower (strip py.is_space s.host)

  -- `normalized_host in _LOOPBACK_HOSTS`
  unfoldable pub is_loopback_host : Settings → Bool
  is_loopback_host s =
      contains_text (normalized_host s) (codes "127.0.0.1" ∷ codes "localhost" ∷ codes "::1" ∷ [])

  -- `Settings.tls_required`
  unfoldable pub tls_required : Settings → Bool
  tls_required s = mode_requires s.tls_mode (is_loopback_host s)

  -- `Settings.server_bind_hosts`
  unfoldable pub server_bind_hosts : Settings → List Text
  server_bind_hosts s =
      let host = strip py.is_space s.host in
      if is_rfc1918_ipv4_host host then host ∷ codes "127.0.0.1" ∷ [] else host ∷ []

  -- `Settings.local_pairing_supported`
  unfoldable pub local_pairing_supported : Settings → Bool
  local_pairing_supported s =
      tls_required s
      && (is_rfc1918_ipv4_host s.host || text_eq (normalized_host s) (codes "0.0.0.0"))

  -- the first test of `_normalize_dns_identity`
  abbrev pub is_bad_character : ℕ → Bool
  is_bad_character c = c == b':' || c == b'/' || c == b'*' || (py.is_space c || ltb c 32)

  abbrev pub check_ascii_identity : Option Text → Checked Text
  check_ascii_identity none = err bad_identity
  check_ascii_identity (some t) =
      if not (leb (length t) 253) || ends_with_dot t
      then err bad_identity
      else if not (all matches_label (split_on b'.' [] t))
      then err bad_identity
      else ok t

  -- `_normalize_dns_identity`
  unfoldable pub normalize_dns_identity : Text → Checked Text
  normalize_dns_identity identity =
      if any is_bad_character identity
      then err bad_identity
      else check_ascii_identity (py.idna identity)

  abbrev pub normalize_parsed : Text → Option Text → Checked Text
  normalize_parsed identity none = normalize_dns_identity identity
  normalize_parsed identity (some t) = ok t

  -- one turn of the loop of `normalize_tls_identities`
  unfoldable pub normalize_identity : Text → Checked Text
  normalize_identity raw =
      let identity = strip py.is_space raw in
      if is_missing identity
      then err empty_identity
      else normalize_parsed identity (py.ip_address identity)

  abbrev pub add_identity : Text → List Text → List Text
  add_identity t done = if contains_text t done then done else done ++ t ∷ []

  -- The loop of `normalize_tls_identities`, with what it has collected.
  abbrev pub normalize_from : List Text → List Text → Checked (List Text)
  normalize_from done [] = ok done
  normalize_from done (raw ∷ rest) =
      normalize_identity raw >>= λ t. normalize_from (add_identity t done) rest

  -- `normalize_tls_identities`
  unfoldable pub normalize_tls_identities : List Text → Checked (List Text)
  normalize_tls_identities raws = normalize_from [] raws >>= nonempty_identities

  -- `raw_identities` of `__post_init__`
  unfoldable pub raw_identities : Settings → Checked (List Text)
  raw_identities s =
      let raw = distinct_after [] (map (strip py.is_space) s.tls_identities) in
      if not (tls_required s)
      then ok raw
      else if is_rfc1918_ipv4_host s.host
      then ok (distinct_after [] (raw ++ strip py.is_space s.host ∷ []))
      else if has_none raw
      then err no_identities
      else ok raw

  abbrev pub final_identities : List Text → Checked (List Text)
  final_identities [] = ok []
  final_identities (t ∷ ts) = normalize_tls_identities (t ∷ ts)

  -- `Settings.__post_init__`
  unfoldable pub post_init : Settings → Checked Settings
  post_init s = do
    check (leb 1 s.port && leb s.port 65535) bad_port
    check (code_allowed s.pairing_code) bad_pairing_code
    check (code_allowed s.admin_code) bad_admin_code
    check (is_known_mode s.tls_mode) bad_tls_mode
    check (matches_discovery_name s.discovery_name) bad_discovery_name
    check (is_loopback_host s || s.require_auth) remote_without_auth
    check (is_loopback_host s || not (is_disabled s.tls_mode)) remote_without_tls
    check (not s.discovery_enabled || is_rfc1918_ipv4_host s.host) discovery_not_private
    raw ← raw_identities s
    identities ← final_identities raw
    ok (record s { tls_identities = identities })

  -- The loop over the identities in `resolve_pairing_server_ip`, with what it has collected.
  abbrev pub add_private : Option ℕ → List Text → List Text
  add_private none ips = ips
  add_private (some a) ips =
      if is_rfc1918_ipv4_host (py.show_ipv4 a) && not (contains_text (py.show_ipv4 a) ips)
      then ips ++ py.show_ipv4 a ∷ []
      else ips

  abbrev pub identity_ips : List Text → List Text → List Text
  identity_ips ips [] = ips
  identity_ips ips (t ∷ ts) = identity_ips (add_private (py.ipv4 t) ips) ts

  abbrev pub parsed_candidate : Text → Option ℕ
  parsed_candidate candidate = py.ipv4 (strip py.is_space candidate)

  abbrev pub candidate_if : List Text → Option ℕ → Option Text
  candidate_if ips none = none
  candidate_if ips (some a) =
      if contains_text (py.show_ipv4 a) ips then some (py.show_ipv4 a) else none

  abbrev pub try_candidate : List Text → Option Text → Option Text
  try_candidate ips none = none
  try_candidate ips (some []) = none
  try_candidate ips (some (x ∷ xs)) = candidate_if ips (parsed_candidate (x ∷ xs))

  abbrev pub first_ip : List Text → Option Text
  first_ip [] = none
  first_ip (ip ∷ ips) = some ip

  abbrev pub or_else : Option Text → Option Text → Option Text
  or_else none b = b
  or_else (some a) b = some a

  -- The end of `resolve_pairing_server_ip`, with the address of the host.
  abbrev pub resolve_for : List Text → Option Text → Option Text → Option ℕ → Option Text
  resolve_for ips override environment none = none
  resolve_for ips override environment (some host) =
      if is_rfc1918_ipv4_host (py.show_ipv4 host)
      then (if contains_text (py.show_ipv4 host) ips then some (py.show_ipv4 host) else none)
      else if not (host == 0)
      then none
      else or_else (try_candidate ips override)
          (or_else (try_candidate ips environment) (first_ip ips))

  -- `resolve_pairing_server_ip`, with the value of `STREAMDECK_PAIRING_SERVER_IP`
  unfoldable pub resolve_pairing_server_ip : Settings → Option Text → Option Text → Option Text
  resolve_pairing_server_ip s override environment =
      resolve_for (identity_ips [] s.tls_identities) override environment
        (py.ipv4 (strip py.is_space s.host))
