-- ===== src/Pairing/Library.antt =====
-- What server/app/pairing_session.py takes from Python's library and from `cryptography`, as a
-- parameter of the model. Texts and byte strings are lists of numbers.
use android_streamdeck.Base.{ℕ, Bool, Option}
use android_streamdeck.Base.Text.{Text}

pub record Library : Type 0 where
  -- `str.isspace` of a character, and the test of `str.split` and `str.strip`
  pub is_space : ℕ → Bool
  -- `str.upper` of a character
  pub upper : ℕ → Text
  -- `str(n)`
  pub decimal : ℕ → Text
  -- `text.encode("utf-8")`
  pub utf8 : Text → Text
  -- `base64.b32encode(b).decode("ascii").rstrip("=")`
  pub b32encode : Text → Text
  -- `base64.b32decode`, with the padding that the code adds; `none` is an exception
  pub b32decode : Text → Option Text
  -- `base64.b64decode(text, validate=True)`
  pub b64decode : Text → Option Text
  -- `_b64u`: `base64.urlsafe_b64encode(b).decode("ascii").rstrip("=")`
  pub b64u : Text → Text
  -- `hashlib.sha256(b).digest()`
  pub sha256 : Text → Text
  -- `hmac.new(key, message, hashlib.sha256).digest()`
  pub hmac_sha256 : Text → Text → Text
  -- `HKDF(SHA256, length=32, salt, info=PAIRING_KEY_INFO).derive(text)`: the salt, then the text
  pub hkdf : Text → Text → Text
  -- `ipaddress.ip_address`, for a text that it reads as an IPv4 address
  pub parse_ipv4 : Text → Option ℕ
  -- `str` of an IPv4 address
  pub show_ipv4 : ℕ → Text
  -- `_format_timestamp` of a time in seconds
  pub format_timestamp : ℕ → Text
