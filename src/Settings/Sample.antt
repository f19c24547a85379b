-- ===== src/Settings/Sample.antt =====
-- Settings of a server on a private address, which is written as one character.
-- A number is written in strokes.
use android_streamdeck.Base.{ℕ, true, Option, none, some, [], ◌∷◌, length, ◌==◌}
use android_streamdeck.Base.Text.{Text, codes}
use android_streamdeck.Settings.{Python, Settings, auto}

abbrev pub head_or_none : Text → Option ℕ
head_or_none [] = none
head_or_none (x ∷ xs) = some x

abbrev pub py : Python
py = record {
  is_space = λ c. c == 32;
  lower = λ t. t;
  ipv4 = head_or_none;
  show_ipv4 = λ a. a ∷ [];
  ip_address = λ t. some t;
  idna = λ t. some t;
  int = λ t. some (length t);
  float_is_positive = λ t. some true;
}

abbrev pub address : Text
address = 167772161 ∷ []

abbrev pub given : Settings
given = record {
  host = address;
  port = 8765;
  pairing_code = none;
  admin_code = none;
  require_auth = true;
  discovery_enabled = true;
  discovery_name = codes "deck";
  tls_mode = auto;
  tls_identities = [];
}
