-- ===== src/Discovery/Clients.antt =====
-- What `DiscoveryPublisher` of server/app/discovery.py does over any calls: its clients and what they
-- announce.
use android_streamdeck.Base.{
  ℕ, ◌+◌, ◌<◌, ◌≡◌, ◌≢◌, refl, sym, ap, ◌∙◌, Bool, true, false, not, ◌&&◌, ◌||◌, Option, none, some,
  List, [], ◌∷◌, arith, All, All-append, ltb, ◌==◌, is_none, if◌then◌else◌, Bool-cases, inl, inr,
}
use android_streamdeck.Base.Text.{Text}
use android_streamdeck.Pairing.Checks.{in_rfc1918}
use android_streamdeck.Settings.{Python, Settings, contains_text}
use android_streamdeck.Discovery.{
  Service, Sent, created, closed, registered, Publisher, new_publisher, Network, Prepared, service,
  failed, is_running, add_eligible, eligible_from, cons_packed, pack, service_of, prepare, connect,
  start, unregister, release, stop,
}

pub data Call : Type 0 where
  starting : Network → Call
  stopping : Call

-- The publisher after the calls, from the first on.
abbrev pub run : Python → Settings → List Call → Publisher → Publisher
run py settings [] p = p
run py settings (starting n ∷ rest) p = run py settings rest (start py settings n p).1
run py settings (stopping ∷ rest) p = run py settings rest (stop p)

-- How often a client was closed.
abbrev pub closes : ℕ → List Sent → ℕ
closes c [] = 0
closes c (closed k ∷ calls) = let n = closes c calls in if k == c then 1 + n else n
closes c (_ ∷ calls) = closes c calls

abbrev pub holds : ℕ → Option ℕ → Bool
holds c none = false
holds c (some k) = k == c

-- A service is announced for private addresses only, and for one at least.
abbrev pub IsPrivate : List ℕ → Type 0
IsPrivate addresses = All (λ a. in_rfc1918 a ≡ true) addresses × (addresses ≢ [])

abbrev pub Announces : Sent → Type 0
Announces (registered c i) = IsPrivate i.addresses
Announces _ = Unit {0}

-- A client that was created is closed once, except the one that is held, which is open; what was
-- registered is private.
pub record IsTidy (p : Publisher) : Type 0 where
  pub closed_once :
      (c : ℕ) → closes c p.calls ≡ (if ltb c p.clients && not (holds c p.zeroconf) then 1 else 0)
  pub held : (c : ℕ) → p.zeroconf ≡ some c → c < p.clients
  pub announced : All Announces p.calls

none_held : (p : Publisher) → is_none p.zeroconf ≡ true → (c : ℕ) → holds c p.zeroconf ≡ false
none_held p idle c = ground arith

-- The client of a registration that succeeds is held.
opened-IsTidy :
    (p : Publisher) (i : Service)
    → is_none p.zeroconf ≡ true
    → IsTidy p
    → IsPrivate i.addresses
    → IsTidy (record {
      zeroconf = some p.clients;
      service_info = some i;
      clients = p.clients + 1;
      calls = registered p.clients i ∷ created p.clients ∷ p.calls;
    })
opened-IsTidy p i idle h private = record {
  closed_once = λ c. ground (arith, h.closed_once c, none_held p idle c);
  held = λ c e. ground arith;
  announced = (private, (tt, h.announced));
}

-- The client of a registration that raises is closed.
dropped-IsTidy :
    (p : Publisher) (i : Service)
    → is_none p.zeroconf ≡ true
    → IsTidy p
    → IsPrivate i.addresses
    → IsTidy (record p {
      clients = p.clients + 1;
      calls = closed p.clients ∷ registered p.clients i ∷ created p.clients ∷ p.calls;
    })
dropped-IsTidy p i idle h private = record {
  closed_once = λ c. ground (arith, h.closed_once c, none_held p idle c);
  held = λ c e. absurd (ground arith);
  announced = (tt, (private, (tt, h.announced)));
}

packed_cons :
    (a : ℕ) (o : Option (List ℕ)) (packed : List ℕ)
    → in_rfc1918 a ≡ true
    → ((rest : List ℕ) → o ≡ some rest → All (λ a. in_rfc1918 a ≡ true) rest)
    → cons_packed (some a) o ≡ some packed
    → All (λ a. in_rfc1918 a ≡ true) packed
packed_cons a none packed private ih e = absurd (cc)
packed_cons a (some rest) packed private ih e =
    let same : (a ∷ rest) ≡ packed = ground arith in rw (← same) (private, ih rest refl)

module _ (py : Python) where
  abbrev IsShown : Text → Type 0
  IsShown t = (a : ℕ) × (t ≡ py.show_ipv4 a) × (in_rfc1918 a ≡ true)

  add_eligible-IsShown :
      (o : Option ℕ) (ts : List Text) → All IsShown ts → All IsShown (add_eligible py o ts)
  add_eligible-IsShown none ts h = h
  add_eligible-IsShown (some a) ts h = elim (Bool-cases (in_rfc1918 a)) [
    | inl e ↦ elim (Bool-cases (contains_text (py.show_ipv4 a) ts)) [
      | inl k ↦ rw e (rw k h)
      | inr k ↦ rw e (rw k (All-append IsShown ts (py.show_ipv4 a ∷ []) h ((a, refl, e), tt)))
    ]
    | inr e ↦ rw e h
  ]

  eligible-IsShown :
      (ts done : List Text) → All IsShown done → All IsShown (eligible_from py done ts)
  eligible-IsShown [] done h = h
  eligible-IsShown (t ∷ ts) done h =
      eligible-IsShown ts (add_eligible py (py.ipv4 t) done)
        (add_eligible-IsShown (py.ipv4 t) done h)

  module _ (reads : (a : ℕ) → in_rfc1918 a ≡ true → py.ipv4 (py.show_ipv4 a) ≡ some a) where
    pack-private :
        (ts : List Text) (packed : List ℕ)
        → All IsShown ts
        → pack py ts ≡ some packed
        → All (λ a. in_rfc1918 a ≡ true) packed
    pack-private [] packed h e = let empty : [] ≡ packed = ground arith in rw (← empty) tt
    pack-private (t ∷ ts) packed h e =
        let (a, shown, private) = h.0 in
        packed_cons a (pack py ts) packed private (λ rest k. pack-private ts rest h.1 k)
          (ap (λ o. cons_packed o (pack py ts)) (sym (reads a private) ∙ ap py.ipv4 (sym shown))
            ∙ e)

    -- a service that was prepared is private
    service-IsPrivate :
        (settings : Settings) (builds : Bool) (o : Option (List ℕ)) (i : Service)
        → ((packed : List ℕ) → o ≡ some packed → All (λ a. in_rfc1918 a ≡ true) packed)
        → service_of py settings builds o ≡ service i
        → IsPrivate i.addresses
    service-IsPrivate settings builds none i h e = absurd (cc)
    service-IsPrivate settings builds (some []) i h e = absurd (cc)
    service-IsPrivate settings false (some (a ∷ rest)) i h e = absurd (cc)
    service-IsPrivate settings true (some (a ∷ rest)) i h e =
        let same : (a ∷ rest) ≡ i.addresses = ground arith in
        rw (← same) (h (a ∷ rest) refl, λ k. absurd (cc))

    prepare-IsPrivate :
        (settings : Settings) (builds : Bool) (candidates : Option (List Text)) (i : Service)
        → prepare py settings builds candidates ≡ service i
        → IsPrivate i.addresses
    prepare-IsPrivate settings builds none i e = absurd (cc)
    prepare-IsPrivate settings builds (some ts) i e =
        service-IsPrivate settings builds (pack py (eligible_from py [] ts)) i
          (λ packed k. pack-private (eligible_from py [] ts) packed (eligible-IsShown ts [] tt) k) e

    connect-IsTidy :
        (settings : Settings) (n : Network) (o : Prepared) (p : Publisher)
        → prepare py settings n.builds n.candidates ≡ o
        → is_none p.zeroconf ≡ true
        → IsTidy p
        → IsTidy (connect py settings n o p).1
    connect-IsTidy settings n (failed reason) p e idle h = h
    connect-IsTidy settings n (service i) p e idle h =
        let private = prepare-IsPrivate settings n.builds n.candidates i e in
        elim (Bool-cases n.creates) [
          | inl made ↦ elim (Bool-cases n.registers) [
            | inl taken ↦ rw made (rw taken (opened-IsTidy p i idle h private))
            | inr refused ↦ rw made (rw refused (dropped-IsTidy p i idle h private))
          ]
          | inr unmade ↦ rw unmade h
        ]

    start-IsTidy :
        (settings : Settings) (n : Network) (p : Publisher)
        → IsTidy p
        → IsTidy (start py settings n p).1
    unfolding start
    start-IsTidy settings n p h =
        elim (Bool-cases (not settings.discovery_enabled || is_running p)) [
          | inl e ↦ rw e h
          | inr e ↦ rw e (
              connect-IsTidy settings n (prepare py settings n.builds n.candidates) p refl
                (ground arith) h)
        ]

unregister-closes :
    (c k : ℕ) (info : Option Service) (calls : List Sent)
    → closes c (unregister k info calls) ≡ closes c calls
unregister-closes c k none calls = refl
unregister-closes c k (some i) calls = refl

unregister-announced :
    (k : ℕ) (info : Option Service) (calls : List Sent)
    → All Announces calls
    → All Announces (unregister k info calls)
unregister-announced k none calls h = h
unregister-announced k (some i) calls h = (tt, h)

released-IsTidy :
    (o : Option ℕ) (info : Option Service) (n : ℕ) (calls : List Sent)
    → IsTidy (record { zeroconf = o; service_info = info; clients = n; calls = calls })
    → IsTidy
        (record { zeroconf = none; service_info = none; clients = n; calls = release o info calls })
released-IsTidy none info n calls h = record {
  closed_once = h.closed_once;
  held = λ c e. absurd (cc);
  announced = h.announced;
}
released-IsTidy (some k) info n calls h = record {
  closed_once =
      λ c. ground (arith, h.closed_once c, h.held k refl, unregister-closes c k info calls);
  held = λ c e. absurd (cc);
  announced = (tt, unregister-announced k info calls h.announced);
}

stop-IsTidy : (p : Publisher) → IsTidy p → IsTidy (stop p)
unfolding stop
stop-IsTidy p h = released-IsTidy p.zeroconf p.service_info p.clients p.calls h

run-IsTidy :
    (py : Python)
    → ((a : ℕ) → in_rfc1918 a ≡ true → py.ipv4 (py.show_ipv4 a) ≡ some a)
    → (settings : Settings) (calls : List Call) (p : Publisher) → IsTidy p
    → IsTidy (run py settings calls p)
run-IsTidy py reads settings [] p h = h
run-IsTidy py reads settings (starting n ∷ rest) p h =
    run-IsTidy py reads settings rest (start py settings n p).1
      (start-IsTidy py reads settings n p h)
run-IsTidy py reads settings (stopping ∷ rest) p h =
    run-IsTidy py reads settings rest (stop p) (stop-IsTidy p h)

new-IsTidy : IsTidy new_publisher
new-IsTidy = record { closed_once = λ c. ground arith; held = λ c e. absurd (cc); announced = tt }

-- After any calls of `start` and `stop`, whatever the network does, each client that was created has
-- been closed exactly once, except the one that the publisher holds, which has not been closed; and
-- every service that was registered is at private addresses only, at least one. Reading a printed
-- private address gives it back.
pub publisher-IsTidy :
    (py : Python)
    → ((a : ℕ) → in_rfc1918 a ≡ true → py.ipv4 (py.show_ipv4 a) ≡ some a)
    → (settings : Settings) (calls : List Call) → IsTidy (run py settings calls new_publisher)
publisher-IsTidy py reads settings calls =
    run-IsTidy py reads settings calls new_publisher new-IsTidy
