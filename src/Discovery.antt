-- ===== src/Discovery.antt =====
-- server/app/discovery.py: `DiscoveryPublisher`, which announces the server in the local network. The
-- address provider, the service info and the zeroconf client are the caller's and a third party's: a
-- call of `start` says what they do.
pub mod Clients
mod Tests
use android_streamdeck.Base.{
  ℕ, ◌+◌, Bool, true, false, not, ◌||◌, Option, none, some, List, [], ◌∷◌, ◌++◌, is_none,
  if◌then◌else◌,
}
use android_streamdeck.Base.Text.{Text, codes}
use android_streamdeck.Pairing.Checks.{in_rfc1918}
use android_streamdeck.Settings.{Python, Settings, contains_text}

-- The service info: its name, the packed addresses and the port
pub record Service : Type 0 where
  pub name : Text
  pub addresses : List ℕ
  pub port : ℕ

-- The calls of zeroconf clients, which are numbered in the order of their creation.
pub data Sent : Type 0 where
  created closed : ℕ → Sent
  registered unregistered : ℕ → Service → Sent

-- `DiscoveryPublisher`, the number of clients created so far, and their calls, the last first
pub record Publisher : Type 0 where
  pub zeroconf : Option ℕ
  pub service_info : Option Service
  pub clients : ℕ
  pub calls : List Sent

-- `DiscoveryPublisher.__init__`
abbrev pub new_publisher : Publisher
new_publisher = record { zeroconf = none; service_info = none; clients = 0; calls = [] }

-- What one call of `start` meets. `none` or `false` is an exception.
pub record Network : Type 0 where
  pub candidates : Option (List Text)
  pub builds : Bool
  pub creates : Bool
  pub registers : Bool

-- How `start` ends: normally, or in one of its two `DiscoveryError`s.
pub data Start : Type 0 where
  settled no_address could_not_start : Start

pub data Prepared : Type 0 where
  service : Service → Prepared
  failed : Start → Prepared

-- `DiscoveryPublisher.is_running`
abbrev pub is_running : Publisher → Bool
is_running p = not (is_none p.zeroconf)

abbrev pub cons_packed : Option ℕ → Option (List ℕ) → Option (List ℕ)
cons_packed (some a) (some packed) = some (a ∷ packed)
cons_packed _ _ = none

module _ (py : Python) where
  abbrev pub add_eligible : Option ℕ → List Text → List Text
  add_eligible none addresses = addresses
  add_eligible (some a) addresses =
      if not (in_rfc1918 a) || contains_text (py.show_ipv4 a) addresses
      then addresses
      else addresses ++ py.show_ipv4 a ∷ []

  -- `_eligible_ipv4_addresses`, with the addresses that it has collected
  abbrev pub eligible_from : List Text → List Text → List Text
  eligible_from addresses [] = addresses
  eligible_from addresses (t ∷ ts) = eligible_from (add_eligible (py.ipv4 t) addresses) ts

  -- `IPv4Address(address).packed` for each address; `none` is an exception
  abbrev pub pack : List Text → Option (List ℕ)
  pack [] = some []
  pack (t ∷ ts) = cons_packed (py.ipv4 t) (pack ts)

module _ (py : Python) (settings : Settings) where
  abbrev pub service_of : Bool → Option (List ℕ) → Prepared
  service_of builds none = failed could_not_start
  service_of builds (some []) = failed no_address
  service_of builds (some (a ∷ addresses)) =
      if builds
      then service (record {
        name = settings.discovery_name ++ b'.' ∷ codes "_android-streamdeck._tcp.local.";
        addresses = a ∷ addresses;
        port = settings.port;
      })
      else failed could_not_start

  -- The part of `start` before the client is created.
  abbrev pub prepare : Bool → Option (List Text) → Prepared
  prepare builds none = failed could_not_start
  prepare builds (some candidates) = service_of builds (pack py (eligible_from py [] candidates))

  -- The rest of `start`: a client whose registration raises is closed.
  abbrev pub connect : Network → Prepared → Publisher → Start × Publisher
  connect n (failed reason) p = (reason, p)
  connect n (service i) p =
      let c = p.clients in
      let sent = registered c i ∷ created c ∷ p.calls in
      if not n.creates
      then (could_not_start, p)
      else if n.registers
      then (
        settled,
        record { zeroconf = some c; service_info = some i; clients = c + 1; calls = sent },
      )
      else (could_not_start, record p { clients = c + 1; calls = closed c ∷ sent })

  -- `DiscoveryPublisher.start`
  unfoldable pub start : Network → Publisher → Start × Publisher
  start n p =
      if not settings.discovery_enabled || is_running p
      then (settled, p)
      else connect n (prepare n.builds n.candidates) p

abbrev pub unregister : ℕ → Option Service → List Sent → List Sent
unregister c none calls = calls
unregister c (some i) calls = unregistered c i ∷ calls

abbrev pub release : Option ℕ → Option Service → List Sent → List Sent
release none info calls = calls
release (some c) info calls = closed c ∷ unregister c info calls

-- `DiscoveryPublisher.stop`, which lets no exception out
unfoldable pub stop : Publisher → Publisher
stop p = record p {
  zeroconf = none;
  service_info = none;
  calls = release p.zeroconf p.service_info p.calls;
}
