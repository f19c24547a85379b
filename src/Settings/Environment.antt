-- ===== src/Settings/Environment.antt =====
-- `Settings.from_env` of server/app/config.py. The paths and the value of the timeout are left out.
use android_streamdeck.Base.{
  ℕ, ◌≡◌, refl, sym, ◌∙◌, Bool, true, false, not, ◌&&◌, ◌||◌, Option, none, some, List, [], ◌∷◌,
  arith, is_none, Bool-cases, inl, inr, if◌then◌else◌,
}
use android_streamdeck.Base.Text.{Text, codes, text_eq, strip}
use android_streamdeck.Settings.{
  Python, TlsMode, auto, required, disabled, other_mode, Settings, port_not_integer,
  auth_not_boolean, discovery_not_boolean, timeout_not_number, timeout_not_positive, Checked, ok,
  err, ◌>>=◌, ◌>>◌, contains_text, split_on, is_missing, is_loopback_host, tls_required, has_none,
  post_init,
}
use android_streamdeck.Settings.Safe.{bind-ok, post_init-IsChecked, remote_is_protected}

-- `os.getenv`, as the environment
abbrev pub Environment : Type 0
Environment = Text → Option Text

-- `os.getenv(name, default)`
abbrev pub value_or : Text → Option Text → Text
value_or default none = default
value_or default (some value) = value

-- `text or default`
abbrev pub or_default : Text → Text → Text
or_default default [] = default
or_default default (x ∷ xs) = x ∷ xs

-- `text or None`
abbrev pub or_none : Text → Option Text
or_none [] = none
or_none (x ∷ xs) = some (x ∷ xs)

abbrev pub is_yes : Text → Bool
is_yes t = contains_text t (codes "1" ∷ codes "true" ∷ codes "yes" ∷ codes "on" ∷ [])

abbrev pub is_no : Text → Bool
is_no t = contains_text t (codes "0" ∷ codes "false" ∷ codes "no" ∷ codes "off" ∷ [])

-- The modes that `__post_init__` tells apart.
abbrev pub mode_of : Text → TlsMode
mode_of t =
    if text_eq t (codes "auto")
    then auto
    else if text_eq t (codes "required")
    then required
    else if text_eq t (codes "disabled")
    then disabled
    else other_mode

abbrev pub parsed_port : Option ℕ → Checked ℕ
parsed_port none = err port_not_integer
parsed_port (some port) = ok port

-- `require_auth`, with whether there is a pairing code
unfoldable pub parsed_require_auth : Text → Bool → Checked Bool
parsed_require_auth raw has_code =
    if is_missing raw || text_eq raw (codes "auto")
    then ok has_code
    else if is_yes raw
    then ok true
    else if is_no raw
    then ok false
    else err auth_not_boolean

-- `discovery_enabled`
abbrev pub parsed_discovery : Text → Checked Bool
parsed_discovery raw =
    if is_missing raw || is_no raw
    then ok false
    else if is_yes raw
    then ok true
    else err discovery_not_boolean

abbrev pub parsed_timeout : Option Bool → Checked (Unit {0})
parsed_timeout none = err timeout_not_number
parsed_timeout (some false) = err timeout_not_positive
parsed_timeout (some true) = ok tt

module _ (py : Python) where
  abbrev pub read_stripped : Environment → Text → Text → Text
  read_stripped env name default = strip py.is_space (value_or default (env name))

  -- `identity.strip() for identity in … if identity.strip()`
  abbrev pub listed_identities : List Text → List Text
  listed_identities [] = []
  listed_identities (t ∷ ts) =
      let rest = listed_identities ts in
      if is_missing (strip py.is_space t) then rest else strip py.is_space t ∷ rest

  abbrev pub check_timeout : Text → Checked (Unit {0})
  check_timeout [] = ok tt
  check_timeout (c ∷ s) = parsed_timeout (py.float_is_positive (c ∷ s))

  -- The settings that `from_env` gives to the constructor, once the numbers and booleans are parsed.
  abbrev pub env_settings : Environment → ℕ → Bool → Bool → Settings
  env_settings env port require_auth discovery_enabled = record {
    host =
        or_default (codes "127.0.0.1")
          (read_stripped env (codes "STREAMDECK_HOST") (codes "127.0.0.1"));
    port = port;
    pairing_code = or_none (read_stripped env (codes "STREAMDECK_PAIRING_CODE") []);
    admin_code = or_none (read_stripped env (codes "STREAMDECK_ADMIN_CODE") []);
    require_auth = require_auth;
    discovery_enabled = discovery_enabled;
    discovery_name =
        or_default (codes "Android Stream Deck")
          (read_stripped env (codes "STREAMDECK_DISCOVERY_NAME") (codes "Android Stream Deck"));
    tls_mode = mode_of (py.lower (read_stripped env (codes "STREAMDECK_TLS_MODE") (codes "auto")));
    tls_identities =
        listed_identities
          (split_on b',' [] (value_or [] (env (codes "STREAMDECK_TLS_IDENTITIES"))));
  }

  abbrev pub has_pairing_code : Environment → Bool
  has_pairing_code env =
      not (is_none (or_none (read_stripped env (codes "STREAMDECK_PAIRING_CODE") [])))

  abbrev pub raw_require_auth : Environment → Text
  raw_require_auth env = py.lower (read_stripped env (codes "STREAMDECK_REQUIRE_AUTH") [])

  -- `Settings.from_env`
  unfoldable pub from_env : Environment → Checked Settings
  from_env env = do
    port ← parsed_port (py.int (read_stripped env (codes "STREAMDECK_PORT") (codes "8765")))
    require_auth ← parsed_require_auth (raw_require_auth env) (has_pairing_code env)
    discovery_enabled ←
        parsed_discovery (py.lower (read_stripped env (codes "STREAMDECK_DISCOVERY_ENABLED") []))
    check_timeout (read_stripped env (codes "STREAMDECK_WEBSOCKET_IDLE_TIMEOUT") [])
    post_init py (env_settings env port require_auth discovery_enabled)

  -- the settings of a start are what the constructor makes of those that were read
  from_env-settings :
      (env : Environment) (s : Settings)
      → from_env env ≡ ok s
      → (port : ℕ) × (auth : Bool) × (discovery : Bool) × (parsed_require_auth
            (raw_require_auth env)
            (has_pairing_code env)
          ≡ ok auth)
        × (post_init py (env_settings env port auth discovery) ≡ ok s)
  unfolding from_env
  from_env-settings env s h =
      let (port, k1, h1) =
        bind-ok (parsed_port (py.int (read_stripped env (codes "STREAMDECK_PORT") (codes "8765"))))
          _ s h in
      let (auth, k2, h2) =
        bind-ok (parsed_require_auth (raw_require_auth env) (has_pairing_code env)) _ s h1 in
      let (discovery, k3, h3) =
        bind-ok
          (parsed_discovery
            (py.lower (read_stripped env (codes "STREAMDECK_DISCOVERY_ENABLED") [])))
          _ s h2 in
      let (u, k4, h4) =
        bind-ok (check_timeout (read_stripped env (codes "STREAMDECK_WEBSOCKET_IDLE_TIMEOUT") [])) _
          s h3 in
      (port, auth, discovery, k2, h4)

  loopback-post_init :
      (t s : Settings) → post_init py t ≡ ok s → is_loopback_host py s ≡ is_loopback_host py t
  unfolding is_loopback_host
  loopback-post_init t s h = let checked = post_init-IsChecked py t s h in rw (checked.result) refl

  protected-if :
      (t s : Settings)
      → post_init py t ≡ ok s
      → (is_loopback_host py s
          || (s.require_auth && (tls_required py s && not (has_none s.tls_identities))))
        ≡ true
  protected-if t s h = elim (Bool-cases (is_loopback_host py s)) [
    | inl e ↦ ground (arith, e)
    | inr e ↦
        let (auth, tls, named) =
          remote_is_protected py t s h (sym (loopback-post_init t s h) ∙ e) in
        ground (arith, auth, tls, named, e)
  ]

  -- Settings that are read from an environment and accepted bind to the loopback interface, or they
  -- require authentication and TLS and have an identity for the certificate. Authentication is required
  -- as the environment says, where its own pairing code decides if it says nothing.
  pub environment_is_protected :
      (env : Environment) (s : Settings)
      → from_env env ≡ ok s
      → ((is_loopback_host py s
            || (s.require_auth && (tls_required py s && not (has_none s.tls_identities))))
          ≡ true)
        × (parsed_require_auth (raw_require_auth env) (not (is_none s.pairing_code))
            ≡ ok s.require_auth)
  environment_is_protected env s h =
      let (port, auth, discovery, k, made) = from_env-settings env s h in
      let checked = post_init-IsChecked py (env_settings env port auth discovery) s made in
      (protected-if (env_settings env port auth discovery) s made, rw (checked.result) k)
