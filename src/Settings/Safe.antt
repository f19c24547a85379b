-- ===== src/Settings/Safe.antt =====
-- What the checks of server/app/config.py rule out.
use android_streamdeck.Base.{
  ℕ, ◌≡◌, refl, Bool, true, false, not, ◌&&◌, ◌||◌, Option, none, some, List, [], ◌∷◌, ◌++◌, arith,
  map, any, All, All-append, leb, ◌==◌, Bool-cases, inl, inr,
}
use android_streamdeck.Base.Text.{Text, text_eq, text_eq→≡, text_eq_refl, strip}
use android_streamdeck.Settings.{
  Python, Settings, ConfigError, bad_port, bad_pairing_code, bad_admin_code, bad_tls_mode,
  bad_discovery_name, remote_without_auth, remote_without_tls, discovery_not_private, Checked, ok,
  err, ◌>>=◌, ◌>>◌, check, contains_text, distinct_after, code_allowed, matches_discovery_name,
  is_known_mode, is_disabled, auto, required, disabled, other_mode, TlsMode, mode_requires,
  is_loopback_host, is_rfc1918_ipv4_host, tls_required, has_none, normalize_from,
  nonempty_identities, normalize_tls_identities, raw_identities, final_identities, post_init,
  add_private, identity_ips, parsed_candidate, candidate_if, try_candidate, first_ip, or_else,
  resolve_for, resolve_pairing_server_ip,
}

pub bind-ok :
    {A B : Type 0} (m : Checked A) (f : A → Checked B) (b : B)
    → (m >>= f) ≡ ok b
    → (a : A) × (m ≡ ok a) × (f a ≡ ok b)
bind-ok (ok a) f b h = (a, refl, h)
bind-ok (err e) f b h = cc

check-ok :
    {B : Type 0} (c : Bool) (e : ConfigError) (m : Checked B) (b : B)
    → (check c e >> m) ≡ ok b
    → (c ≡ true) × (m ≡ ok b)
check-ok true e m b h = (refl, h)
check-ok false e m b h = cc

distinct-nonempty :
    (ts : List Text) (t : Text) → has_none (distinct_after [] (ts ++ t ∷ [])) ≡ false
distinct-nonempty [] t = refl
distinct-nonempty (x ∷ ts) t = refl

module _ (py : Python) where
  raw_identities-nonempty :
      (s : Settings) (raw : List Text)
      → raw_identities py s ≡ ok raw
      → tls_required py s ≡ true
      → has_none raw ≡ false
  unfolding raw_identities
  raw_identities-nonempty s raw h tls =
      let listed = distinct_after [] (map (strip py.is_space) s.tls_identities) in
      ground (arith, distinct-nonempty listed (strip py.is_space s.host))

  nonempty-ok : (ts us : List Text) → nonempty_identities ts ≡ ok us → has_none us ≡ false
  nonempty-ok [] us h = cc
  nonempty-ok (t ∷ ts) us h = ground arith

  final-nonempty :
      (raw ts : List Text)
      → has_none raw ≡ false
      → final_identities py raw ≡ ok ts
      → has_none ts ≡ false
  unfolding normalize_tls_identities
  final-nonempty [] ts some_raw h = cc
  final-nonempty (t ∷ raw) ts some_raw h =
      let (us, e, k) = bind-ok (normalize_from py [] (t ∷ raw)) (nonempty_identities) ts h in
      nonempty-ok us ts k

  mode-required :
      (mode : TlsMode) (loopback : Bool)
      → is_known_mode mode ≡ true
      → (loopback || not (is_disabled mode)) ≡ true
      → loopback ≡ false
      → mode_requires mode loopback ≡ true
  mode-required auto loopback known on remote = ground arith
  mode-required required loopback known on remote = refl
  mode-required disabled loopback known on remote = cc
  mode-required other_mode loopback known on remote = cc

  pub record IsChecked (s s' : Settings) : Type 0 where
    known : is_known_mode s.tls_mode ≡ true
    auth : (is_loopback_host py s || s.require_auth) ≡ true
    tls : (is_loopback_host py s || not (is_disabled s.tls_mode)) ≡ true
    raw : List Text
    identities : List Text
    listed : raw_identities py s ≡ ok raw
    normalized : final_identities py raw ≡ ok identities
    pub result : s' ≡ record s { tls_identities = identities }

  pub post_init-IsChecked : (s s' : Settings) → post_init py s ≡ ok s' → IsChecked s s'
  unfolding post_init
  post_init-IsChecked s s' h =
      let (k1, h1) = check-ok (leb 1 s.port && leb s.port 65535) bad_port _ s' h in
      let (k2, h2) = check-ok (code_allowed s.pairing_code) bad_pairing_code _ s' h1 in
      let (k3, h3) = check-ok (code_allowed s.admin_code) bad_admin_code _ s' h2 in
      let (k4, h4) = check-ok (is_known_mode s.tls_mode) bad_tls_mode _ s' h3 in
      let (k5, h5) =
        check-ok (matches_discovery_name s.discovery_name) bad_discovery_name _ s' h4 in
      let (k6, h6) =
        check-ok (is_loopback_host py s || s.require_auth) remote_without_auth _ s' h5 in
      let (k7, h7) =
        check-ok (is_loopback_host py s || not (is_disabled s.tls_mode)) remote_without_tls _ s'
          h6 in
      let (k8, h8) =
        check-ok (not s.discovery_enabled || is_rfc1918_ipv4_host py s.host) discovery_not_private _
          s' h7 in
      let (raw, listed, h9) = bind-ok (raw_identities py s) _ s' h8 in
      let (identities, normalized, h10) =
        bind-ok (final_identities py raw) (λ ids. ok (record s { tls_identities = ids })) s' h9 in
      record {
        known = k4;
        auth = k6;
        tls = k7;
        raw = raw;
        identities = identities;
        listed = listed;
        normalized = normalized;
        result = ground arith;
      }

  -- Settings that were accepted and do not bind to the loopback interface require authentication and
  -- TLS, and have an identity for the certificate.
  pub remote_is_protected :
      (s s' : Settings)
      → post_init py s ≡ ok s'
      → is_loopback_host py s ≡ false
      → (s'.require_auth ≡ true)
        × (tls_required py s' ≡ true)
        × (has_none s'.tls_identities ≡ false)
  unfolding tls_required is_loopback_host
  remote_is_protected s s' h remote =
      let k = post_init-IsChecked s s' h in
      let tls : tls_required py s ≡ true =
        mode-required s.tls_mode (is_loopback_host py s) k.known k.tls remote in
      let there = raw_identities-nonempty s k.raw k.listed tls in
      rw (k.result)
        (ground (arith, k.auth, remote), tls, final-nonempty k.raw k.identities there k.normalized)

All-weaken : {P Q : Text → Type 0} (ts : List Text) → ((t : Text) → P t → Q t) → All P ts → All Q ts
All-weaken [] f h = tt
All-weaken (t ∷ ts) f h = (f t h.0, All-weaken ts f h.1)

All-contains :
    (P : Text → Type 0) (t : Text) (ts : List Text) → contains_text t ts ≡ true → All P ts → P t
All-contains P t [] h a = absurd (cc)
All-contains P t (u ∷ ts) h a = elim (Bool-cases (text_eq t u)) [
  | inl e ↦ rw (text_eq→≡ t u e) (a.0)
  | inr e ↦ All-contains P t ts (ground arith) (a.1)
]

module _ (py : Python) where
  -- The identity is this address.
  abbrev pub names_address : Text → Option ℕ → Bool
  names_address ip none = false
  names_address ip (some a) = text_eq (py.show_ipv4 a) ip

  abbrev pub is_covered : List Text → Text → Bool
  is_covered identities ip = any (λ t. names_address ip (py.ipv4 t)) identities

  -- A private address that is one of the certificate's identities.
  pub record IsOffered (identities : List Text) (ip : Text) : Type 0 where
    pub is_private : is_rfc1918_ipv4_host py ip ≡ true
    pub covered : is_covered identities ip ≡ true

  abbrev Listed : List Text → Text → Type 0
  Listed identities t = (a : ℕ) → py.ipv4 t ≡ some a → is_covered identities (py.show_ipv4 a) ≡ true

  All-Listed : (identities : List Text) → All (Listed identities) identities
  All-Listed [] = tt
  All-Listed (t ∷ ts) = (
    λ a e. ground (arith, e, text_eq_refl (py.show_ipv4 a)),
    All-weaken ts (λ u k a e. ground (arith, k a e)) (All-Listed ts),
  )

  add_private-IsOffered :
      (identities : List Text) (o : Option ℕ) (ips : List Text)
      → ((a : ℕ) → o ≡ some a → is_covered identities (py.show_ipv4 a) ≡ true)
      → All (IsOffered identities) ips
      → All (IsOffered identities) (add_private py o ips)
  add_private-IsOffered identities none ips covered h = h
  add_private-IsOffered identities (some a) ips covered h =
      elim (Bool-cases
        (is_rfc1918_ipv4_host py (py.show_ipv4 a) && not (contains_text (py.show_ipv4 a) ips))) [
          | inl e ↦ rw e (
              All-append (IsOffered identities) ips (py.show_ipv4 a ∷ []) h
                (record { is_private = ground arith; covered = covered a refl }, tt))
          | inr e ↦ rw e h
        ]

  identity_ips-IsOffered :
      (identities ts ips : List Text)
      → All (Listed identities) ts
      → All (IsOffered identities) ips
      → All (IsOffered identities) (identity_ips py ips ts)
  identity_ips-IsOffered identities [] ips listed h = h
  identity_ips-IsOffered identities (t ∷ ts) ips listed h =
      identity_ips-IsOffered identities ts (add_private py (py.ipv4 t) ips) listed.1
        (add_private-IsOffered identities (py.ipv4 t) ips listed.0 h)

  module _ (P : Text → Type 0) (ips : List Text) (all : All P ips) where
    candidate-in : (o : Option ℕ) (ip : Text) → candidate_if py ips o ≡ some ip → P ip
    candidate-in none ip h = absurd (cc)
    candidate-in (some a) ip h = elim (Bool-cases (contains_text (py.show_ipv4 a) ips)) [
      | inl e ↦
          let same : py.show_ipv4 a ≡ ip = ground arith in
          rw (← same) (All-contains P (py.show_ipv4 a) ips e all)
      | inr e ↦ absurd (ground arith)
    ]

    try-in : (o : Option Text) (ip : Text) → try_candidate py ips o ≡ some ip → P ip
    try-in none ip h = absurd (cc)
    try-in (some []) ip h = absurd (cc)
    try-in (some (x ∷ xs)) ip h = candidate-in (parsed_candidate py (x ∷ xs)) ip h

    first-in : (js : List Text) (ip : Text) → All P js → first_ip py js ≡ some ip → P ip
    first-in [] ip a h = absurd (cc)
    first-in (j ∷ js) ip a h = let same : j ≡ ip = ground arith in rw (← same) (a.0)

    or-in :
        (a b : Option Text) (ip : Text)
        → ((j : Text) → a ≡ some j → P j)
        → ((j : Text) → b ≡ some j → P j)
        → or_else py a b ≡ some ip
        → P ip
    or-in none b ip ha hb h = hb ip h
    or-in (some j) b ip ha hb h = ha ip h

    resolve-in :
        (override environment : Option Text) (host : Option ℕ) (ip : Text)
        → resolve_for py ips override environment host ≡ some ip
        → P ip
    resolve-in override environment none ip h = absurd (cc)
    resolve-in override environment (some a) ip h =
        elim (Bool-cases (is_rfc1918_ipv4_host py (py.show_ipv4 a))) [
          | inl e ↦ candidate-in (some a) ip (ground arith)
          | inr e ↦ elim (Bool-cases (a == 0)) [
            | inl z ↦
                or-in (try_candidate py ips override)
                  (or_else py (try_candidate py ips environment) (first_ip py ips)) ip
                  (try-in override)
                  (λ j k.
                    or-in (try_candidate py ips environment) (first_ip py ips) j
                      (try-in environment) (λ i q. first-in ips i all q) k)
                  (ground arith)
            | inr z ↦ absurd (ground arith)
          ]
        ]

  -- The address that is offered for pairing, if one is, is a private IPv4 address and one of the
  -- identities of the certificate, whatever the override and the environment name.
  pub pairing_address_is_covered :
      (s : Settings) (override environment : Option Text) (ip : Text)
      → resolve_pairing_server_ip py s override environment ≡ some ip
      → IsOffered s.tls_identities ip
  unfolding resolve_pairing_server_ip
  pairing_address_is_covered s override environment ip h =
      let ips = identity_ips py [] s.tls_identities in
      resolve-in (IsOffered s.tls_identities) ips
        (identity_ips-IsOffered s.tls_identities s.tls_identities [] (All-Listed s.tls_identities)
          tt)
        override environment (py.ipv4 (strip py.is_space s.host)) ip h
