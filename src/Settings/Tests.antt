-- ===== src/Settings/Tests.antt =====
-- Settings of a server on a private address.
use android_streamdeck.Base.{
  ◌≡◌, refl, true, false, not, ◌&&◌, ◌||◌, none, some, [], ◌∷◌, is_none, if◌then◌else◌,
}
use android_streamdeck.Base.Text.{text_eq, codes}
use android_streamdeck.Pairing.Checks.{in_rfc1918}
use android_streamdeck.Settings.{
  Settings, auto, matches_code, ok, matches_discovery_name, is_rfc1918_ipv4_host, is_loopback_host,
  tls_required, has_none, normalize_identity, normalize_tls_identities, raw_identities, post_init,
  resolve_pairing_server_ip,
}
use android_streamdeck.Settings.Sample.{py, address, given}
use android_streamdeck.Settings.Environment.{
  Environment, from_env, parsed_require_auth, raw_require_auth, environment_is_protected,
}
use android_streamdeck.Settings.Safe.{IsOffered, pairing_address_is_covered}

abbrev accepted : Settings
accepted = record given { tls_identities = address ∷ [] }

accepts : post_init py given ≡ ok accepted
unfolding post_init matches_discovery_name is_loopback_host is_rfc1918_ipv4_host tls_required
    in_rfc1918 raw_identities normalize_tls_identities normalize_identity
accepts = refl

offers : resolve_pairing_server_ip py accepted none none ≡ some address
unfolding resolve_pairing_server_ip is_rfc1918_ipv4_host in_rfc1918
offers = refl

pairing_address_is_covered_example : IsOffered py accepted.tls_identities address
pairing_address_is_covered_example = pairing_address_is_covered py accepted none none address offers

-- An environment with a pairing code and an address in the network.
abbrev environment : Environment
environment name =
    if text_eq name (codes "STREAMDECK_HOST")
    then some address
    else if text_eq name (codes "STREAMDECK_PAIRING_CODE")
    then some (codes "secret")
    else none

abbrev started : Settings
started = record {
  host = address;
  port = 4;
  pairing_code = some (codes "secret");
  admin_code = none;
  require_auth = true;
  discovery_enabled = false;
  discovery_name = codes "Android Stream Deck";
  tls_mode = auto;
  tls_identities = address ∷ [];
}

starts : from_env py environment ≡ ok started
unfolding from_env parsed_require_auth post_init matches_code matches_discovery_name
    is_loopback_host is_rfc1918_ipv4_host tls_required in_rfc1918 raw_identities
    normalize_tls_identities normalize_identity
starts = refl

environment_is_protected_example :
    ((is_loopback_host py started
        || (started.require_auth
            && (tls_required py started && not (has_none started.tls_identities))))
      ≡ true)
    × (parsed_require_auth (raw_require_auth py environment) (not (is_none started.pairing_code))
        ≡ ok started.require_auth)
environment_is_protected_example = environment_is_protected py environment started starts
