-- ===== src/Pairing/Manager/Scan.antt =====
-- What a device gets that scans the code of `create_session` and fetches the bundle of `bootstrap`
-- (server/app/pairing_session.py).
use android_streamdeck.Base.{
  ℕ, ◌+◌, ◌<◌, ◌≡◌, refl, ap, ◌&&◌, Option, true, none, some, arith, leb, ◌>>=◌, guarded,
}
use android_streamdeck.Base.Text.{Text}
use android_streamdeck.Pairing.Library.{Library}
use android_streamdeck.Pairing.Checks.{
  require_private_ipv4, valid_ca_certificate_pem, normalize_pairing_code,
}
use android_streamdeck.Pairing.Proof.{
  Bundle, derive_session_id, derive_pairing_key, verify_server_proof,
}
use android_streamdeck.Pairing.Manager.{
  ttl, PairingSession, Presentation, Manager, ok, prepare_session, presentation_of, install_session,
  install_prepared, create_session, bootstrap, bootstrap_locked,
}
use android_streamdeck.Pairing.Manager.Access.{bootstrap_bundle, bootstrap_locked_verifies}

some-bind :
    {A B : Type 0} (o : Option A) (f : A → Option B) (b : B)
    → (o >>= f) ≡ some b
    → (a : A) × (o ≡ some a) × (f a ≡ some b)
some-bind none f b e = absurd (cc)
some-bind (some a) f b e = (a, refl, e)

module _ (lib : Library) where
  -- The session and the code that were prepared belong together.
  record IsPrepared (mono : ℕ) (pem salt : Text) (s : PairingSession) (code : Text) : Type 0 where
    salted : s.salt ≡ salt
    certified : s.ca_certificate_pem ≡ pem
    ends : s.deadline ≡ mono + ttl
    named : derive_session_id lib code ≡ some s.session_id
    keyed : derive_pairing_key lib code salt ≡ some s.pairing_key

  prepare-IsPrepared :
      (server_ip : Text) (port : ℕ) (pem : Text) (now mono : ℕ) (bytes salt : Text)
      (s : PairingSession) (code : Text)
      → prepare_session lib server_ip port pem now mono bytes salt ≡ some (s, code)
      → IsPrepared mono pem salt s code
  unfolding prepare_session
  prepare-IsPrepared server_ip port pem now mono bytes salt s code h =
      let (ip, e1, h1) = some-bind (require_private_ipv4 lib server_ip) _ (s, code) h in
      let (checked, e2, h2) =
        some-bind (guarded (leb 1 port && leb port 65535) port) _ (s, code) h1 in
      let (certificate, e3, h3) =
        some-bind (guarded (valid_ca_certificate_pem lib pem) pem) _ (s, code) h2 in
      let (c, e4, h4) =
        some-bind (normalize_pairing_code lib (lib.b32encode bytes)) _ (s, code) h3 in
      let (id, e5, h5) = some-bind (derive_session_id lib c) _ (s, code) h4 in
      let (key, e6, h6) = some-bind (derive_pairing_key lib c salt) _ (s, code) h5 in
      record {
        salted = ground arith;
        certified = ground arith;
        ends = ground arith;
        named = ground arith;
        keyed = ground arith;
      }

  -- The bundle that belongs to a presentation: the same session, end, address and port, the salt and the
  -- certificate of the creation, and a proof under the key that the shown code derives with that salt.
  pub record IsBundleOf (mono later : ℕ) (pem salt : Text) (p : Presentation) (b : Bundle)
      : Type 0 where
    pub version : b.version ≡ 1
    pub session_id : b.session_id ≡ p.session_id
    pub named : derive_session_id lib p.pairing_code ≡ some b.session_id
    pub expires_at : b.expires_at ≡ p.expires_at
    pub server_ip : b.server_ip ≡ p.server_ip
    pub port : b.port ≡ p.port
    pub ca_certificate_pem : b.ca_certificate_pem ≡ pem
    pub salted : b.salt ≡ lib.b64u salt
    pub key : Text
    pub keyed : derive_pairing_key lib p.pairing_code salt ≡ some key
    pub verified : verify_server_proof lib b key ≡ true
    pub in_time : later < mono + ttl

  bundle-IsBundleOf :
      (mono later : ℕ) (pem salt code : Text) (s : PairingSession)
      → IsPrepared mono pem salt s code
      → later < s.deadline
      → IsBundleOf mono later pem salt (presentation_of lib s code) (bootstrap_locked lib s)
  unfolding bootstrap_locked
  bundle-IsBundleOf mono later pem salt code s h early = record {
    version = refl;
    session_id = refl;
    named = h.named;
    expires_at = refl;
    server_ip = refl;
    port = refl;
    ca_certificate_pem = h.certified;
    salted = ap lib.b64u h.salted;
    key = s.pairing_key;
    keyed = h.keyed;
    verified = bootstrap_locked_verifies lib s;
    in_time = omega (arith, h.ends, early);
  }

  install_session-holds :
      (s : PairingSession) (o : Option PairingSession) (m : Manager)
      → (install_session s o m).session ≡ some s
  unfolding install_session
  install_session-holds s none m = refl
  install_session-holds s (some old) m = refl

  installed-IsBundleOf :
      (mono later : ℕ) (pem salt id : Text) (o : Option (PairingSession × Text)) (m : Manager)
      (p : Presentation) (b : Bundle)
      → ((s : PairingSession) (code : Text) → o ≡ some (s, code) → IsPrepared mono pem salt s code)
      → (install_prepared lib o m).0 ≡ ok p
      → (bootstrap lib id later (install_prepared lib o m).1).0 ≡ ok b
      → IsBundleOf mono later pem salt p b
  unfolding install_prepared
  installed-IsBundleOf mono later pem salt id none m p b h made got = absurd (cc)
  installed-IsBundleOf mono later pem salt id (some (s, code)) m p b h made got =
      let (same, early, is) =
        bootstrap_bundle lib id later (install_session s m.session m) s b
          (install_session-holds s m.session m) got in
      let shown : presentation_of lib s code ≡ p = ground arith in
      rw (← shown) (rw is (bundle-IsBundleOf mono later pem salt code s (h s code refl) early))

  -- After `create_session` has answered, a bundle that `bootstrap` returns next belongs to what was
  -- shown: it is of version 1, has the session id that the shown code derives, the address, the port and
  -- the end that were shown, the certificate and the salt of the creation, and its proof verifies under
  -- the key that the shown code derives with that salt; and the time since the creation is less than the
  -- session's.
  pub bootstrap-IsBundleOf :
      (server_ip : Text) (port : ℕ) (pem : Text) (now mono : ℕ) (bytes salt : Text) (m : Manager)
      (p : Presentation) (id : Text) (later : ℕ) (b : Bundle)
      → (create_session lib server_ip port pem now mono bytes salt m).0 ≡ ok p
      → (bootstrap lib id later (create_session lib server_ip port pem now mono bytes salt m).1).0
        ≡ ok b
      → IsBundleOf mono later pem salt p b
  unfolding create_session
  bootstrap-IsBundleOf server_ip port pem now mono bytes salt m p id later b made got =
      installed-IsBundleOf mono later pem salt id
        (prepare_session lib server_ip port pem now mono bytes salt) m p b
        (prepare-IsPrepared server_ip port pem now mono bytes salt) made got
