-- ===== src/Catalog.antt =====
-- server/app/catalog.py: the applications that may be launched, and `WindowsApplicationAdapter` of
-- server/app/actions.py, which launches them. `strip` takes the white space of `is_space` off.
mod Tests
use android_streamdeck.Base.{
  ℕ, ◌≡◌, Bool, true, false, not, ◌&&◌, ◌||◌, Option, none, some, List, [], ◌∷◌, map, all, leb,
  ◌==◌, if◌then◌else◌,
}
use android_streamdeck.Base.Text.{Text, codes, strip, is_alphanumeric}
use android_streamdeck.Base.Dict.{Dict, lookup, insert}
use android_streamdeck.Base.Sort.{sort_by}
use android_streamdeck.WebSocket.Press.{Outcome, refused}

-- `ApplicationEntry`, and a value of the mapping that the constructor is given
pub record Entry : Type 0 where
  pub display_name : Text
  pub executable : Text

-- `[A-Za-z0-9 ._+\-]`
abbrev pub is_name_character : ℕ → Bool
is_name_character c =
    is_alphanumeric c || c == b' ' || c == b'.' || c == b'_' || c == b'+' || c == b'-'

-- `_EXECUTABLE_PATTERN.fullmatch`, whose optional end has characters of the class before it
unfoldable pub matches_executable : Text → Bool
matches_executable [] = false
matches_executable (c ∷ s) = is_alphanumeric c && all is_name_character s

-- `".." in text`
abbrev pub has_two_dots : Text → Bool
has_two_dots [] = false
has_two_dots (c ∷ []) = false
has_two_dots (c ∷ d ∷ s) = (c == b'.' && d == b'.') || has_two_dots (d ∷ s)

-- the path separators
abbrev pub is_separator : ℕ → Bool
is_separator c = c == b'/' || c == b'\\'

abbrev pub has_separator : Text → Bool
has_separator [] = false
has_separator (c ∷ s) = is_separator c || has_separator s

abbrev pub is_missing : Text → Bool
is_missing [] = true
is_missing (c ∷ s) = false

module _ (is_space : ℕ → Bool) where
  -- One turn of the constructor's loop; `none` is a `ValueError`.
  unfoldable pub normalize_entry : Entry → Option Entry
  normalize_entry values =
      let display_name = strip is_space values.display_name in
      let executable = strip is_space values.executable in
      if is_missing display_name
      then none
      else if not (matches_executable executable)
      then none
      else if has_separator executable || has_two_dots executable
      then none
      else some (record { display_name = display_name; executable = executable })

  abbrev pub store_entry : ℕ → Option Entry → Dict Entry → Option (Dict Entry)
  store_entry id none d = none
  store_entry id (some entry) d = some (insert id entry d)

  abbrev pub after_entry :
      (Dict Entry → Option (Dict Entry)) → Option (Dict Entry) → Option (Dict Entry)
  after_entry f none = none
  after_entry f (some d) = f d

  -- The loop of `ApplicationCatalog.__init__`, with what it has collected.
  unfoldable pub collect : Dict Entry → List (ℕ × Entry) → Option (Dict Entry)
  collect d [] = some d
  collect d ((id, values) ∷ rest) =
      after_entry (λ d'. collect d' rest) (store_entry id (normalize_entry values) d)

  -- `ApplicationCatalog.__init__`
  abbrev pub build : List (ℕ × Entry) → Option (Dict Entry)
  build entries = collect [] entries

-- `ApplicationCatalog.listing`, with the order of ids: each id with its display name
unfoldable pub listing : (ℕ → ℕ → Bool) → Dict Entry → List (ℕ × Text)
listing before d =
    sort_by (λ x y. before x.0 y.0) (map (λ (e : ℕ × Entry). (e.0, e.1.display_name)) d)

-- What the adapter hands to the launcher, if anything.
abbrev pub launched : Option Entry → Option Text
launched none = none
launched (some entry) = some entry.executable

abbrev pub launch_entry : (Text → Outcome) → Option Text → Outcome
launch_entry launcher none = refused (codes "Application is not enabled")
launch_entry launcher (some executable) = launcher executable

-- `WindowsApplicationAdapter.execute`, with what the launcher's call ends in
unfoldable pub execute_application : (Text → Outcome) → Dict Entry → ℕ → Outcome
execute_application launcher d app_id = launch_entry launcher (launched (lookup app_id d))

-- A name without a path: no separator, and no two dots in a row.
pub record IsBare (name : Text) : Type 0 where
  pub no_separator : has_separator name ≡ false
  pub no_parent : has_two_dots name ≡ false
  pub named : matches_executable name ≡ true

abbrev pub AllBare : Dict Entry → Type 0
AllBare d = (id : ℕ) (entry : Entry) → lookup id d ≡ some entry → IsBare entry.executable

-- What launching the entry of an id comes to: nothing is launched without one, and with one the launcher is
-- given its executable, which is a bare name.
abbrev pub IsLaunch : (Text → Outcome) → Option Entry → Outcome → Type 0
IsLaunch launcher none o = o ≡ refused (codes "Application is not enabled")
IsLaunch launcher (some entry) o = IsBare entry.executable × (o ≡ launcher entry.executable)
