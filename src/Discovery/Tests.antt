-- ===== src/Discovery/Tests.antt =====
-- A publisher that starts, stops, meets a registration that raises, and starts again.
use android_streamdeck.Base.{◌≡◌, refl, true, false, some, List, [], ◌∷◌}
use android_streamdeck.Settings.Sample.{py, given}
use android_streamdeck.Pairing.Checks.{in_rfc1918}
use android_streamdeck.Discovery.{Network, new_publisher, start, stop}
use android_streamdeck.Discovery.Clients.{Call, starting, stopping, run, IsTidy, publisher-IsTidy}

-- A private address, twice, and one that is not private
abbrev found : Network
found = record {
  candidates = some ((167772161 ∷ []) ∷ (134744072 ∷ []) ∷ (167772161 ∷ []) ∷ []);
  builds = true;
  creates = true;
  registers = true;
}

abbrev calls : List Call
calls =
    starting found
    ∷ starting found
    ∷ stopping
    ∷ starting (record found { registers = false })
    ∷ starting found
    ∷ []

publisher-IsTidy_example : IsTidy (run py given calls new_publisher)
publisher-IsTidy_example = publisher-IsTidy py (λ a h. refl) given calls

third_is_held : (run py given calls new_publisher).zeroconf ≡ some 2
unfolding start stop in_rfc1918
third_is_held = refl
