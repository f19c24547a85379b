-- ===== src/Credentials/Inventory.antt =====
-- `PairingService.list_clients` of server/app/pairing.py. `before` is SQLite's order of client ids.
use android_streamdeck.Base.{
  ℕ, ◌≡◌, ◌∙◌, refl, Bool, true, false, not, ◌&&◌, Option, List, [], ◌∷◌, map, any, ltb, ◌==◌,
  is_none, if◌then◌else◌, arith,
}
use android_streamdeck.Base.Text.{Text}
use android_streamdeck.Base.Dict.{Dict, lookup}
use android_streamdeck.Base.Sort.{sort_by, any-sort_by}
use android_streamdeck.Credentials.{Platform, Reason, Client, Tables}

-- an entry of the inventory, which has no hash
pub record Device : Type 0 where
  pub client_id : ℕ
  pub client_version : Text
  pub platform : Platform
  pub credential_generation : ℕ
  pub paired_at : ℕ
  pub last_seen_at : Option ℕ
  pub revoked_at : Option ℕ
  pub revoked_reason : Option Reason

abbrev pub device_of : ℕ × Client → Device
device_of (id, c) = record {
  client_id = id;
  client_version = c.client_version;
  platform = c.platform;
  credential_generation = c.generation;
  paired_at = c.paired_at;
  last_seen_at = c.last_seen_at;
  revoked_at = c.revoked_at;
  revoked_reason = c.revoked_reason;
}

-- `paired_at DESC, client_id`
abbrev pub newer_before : (ℕ → ℕ → Bool) → Device → Device → Bool
newer_before before a b =
    if ltb b.paired_at a.paired_at
    then true
    else a.paired_at == b.paired_at && before a.client_id b.client_id

-- `ORDER BY revoked_at IS NOT NULL, paired_at DESC, client_id`
abbrev pub device_before : (ℕ → ℕ → Bool) → Device → Device → Bool
device_before before a b =
    if is_none a.revoked_at
    then (if is_none b.revoked_at then newer_before before a b else true)
    else if is_none b.revoked_at
    then false
    else newer_before before a b

-- `list_clients`
unfoldable pub list_clients : (ℕ → ℕ → Bool) → Tables → List Device
list_clients before t = sort_by (device_before before) (map device_of t.clients)

mapped_keys :
    (id : ℕ) (d : Dict Client)
    → any (λ x. x.client_id == id) (map device_of d) ≡ not (is_none (lookup id d))
unfolding lookup
mapped_keys id [] = refl
mapped_keys id ((j, c) ∷ d) = ground (arith, mapped_keys id d)

-- A client is in the inventory exactly when it has a row.
pub listed_iff_there :
    (before : ℕ → ℕ → Bool) (id : ℕ) (t : Tables)
    → any (λ x. x.client_id == id) (list_clients before t) ≡ not (is_none (lookup id t.clients))
unfolding list_clients
listed_iff_there before id t =
    any-sort_by (λ x. x.client_id == id) (device_before before) (map device_of t.clients)
    ∙ mapped_keys id t.clients
