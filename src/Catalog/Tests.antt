-- ===== src/Catalog/Tests.antt =====
-- The catalogue with one application.
use android_streamdeck.Base.{◌≡◌, refl, none, [], ◌∷◌, ◌==◌}
use android_streamdeck.Base.Text.{codes}
use android_streamdeck.Base.Dict.{insert}
use android_streamdeck.Catalog.{Entry, matches_executable, normalize_entry, collect, build}

abbrev chrome : Entry
chrome = record { display_name = codes "Google Chrome"; executable = codes "chrome.exe" }

path_is_refused :
    build (λ c. c == 32) ((5, record chrome { executable = codes "a..exe" }) ∷ []) ≡ none
unfolding normalize_entry matches_executable collect insert
path_is_refused = refl
