-- ===== src/Actions.antt =====
-- The keyboard adapters and the registry of server/app/actions.py.
-- `emit_key` is the operating system's: `accepts n` says whether the call number `n` returns rather than
-- raises. The log keeps every call, newest first. The adapters for text, URLs, applications and
-- measurements are one parameter.
pub mod Release
pub mod TextInput
mod Tests
use android_streamdeck.Base.{
  ℕ, ◌-◌, ◌+◌, Bool, true, false, not, ◌&&◌, Option, none, some, List, [], ◌∷◌, ◌++◌, map, length,
  leb, ◌==◌, if◌then◌else◌,
}
use android_streamdeck.Base.Text.{Text, codes, text_eq}
use android_streamdeck.Profile.{
  Modifier, ctrl, alt, shift, win, MediaCommand, play_pause, next, previous, stop, volume_up,
  volume_down, mute, Action, hotkey, key, media,
}
use android_streamdeck.WebSocket.{completed}
use android_streamdeck.WebSocket.Press.{Outcome, result, refused}

-- A call `emit_key(virtual_key, key_up)`, and whether it returned.
pub record KeyCall : Type 0 where
  pub virtual_key : ℕ
  pub key_up : Bool
  pub returned : Bool

abbrev pub Log : Type 0
Log = List KeyCall

-- `self._emit_key(virtual_key, key_up)`
unfoldable pub emit_key : (ℕ → Bool) → ℕ → Bool → Log → Bool × Log
emit_key accepts k up log = (
  accepts (length log),
  record { virtual_key = k; key_up = up; returned = accepts (length log) } ∷ log,
)

-- `_release_key_safely`
abbrev pub release_key_safely : (ℕ → Bool) → ℕ → Log → Log
release_key_safely accepts k log = (emit_key accepts k true log).1

-- `_MODIFIER_VIRTUAL_KEYS`
abbrev pub modifier_virtual_key : Modifier → ℕ
modifier_virtual_key ctrl = 17
modifier_virtual_key alt = 18
modifier_virtual_key shift = 16
modifier_virtual_key win = 91

-- `_MEDIA_VIRTUAL_KEYS`
abbrev pub media_virtual_key : MediaCommand → ℕ
media_virtual_key play_pause = 179
media_virtual_key next = 176
media_virtual_key previous = 177
media_virtual_key stop = 178
media_virtual_key volume_up = 175
media_virtual_key volume_down = 174
media_virtual_key mute = 173

-- `_NAMED_VIRTUAL_KEYS` and `_FUNCTION_VIRTUAL_KEYS`
abbrev pub named_virtual_keys : List (Text × ℕ)
named_virtual_keys =
    (codes "BACKSPACE", 8)
    ∷ (codes "TAB", 9)
    ∷ (codes "ENTER", 13)
    ∷ (codes "ESC", 27)
    ∷ (codes "SPACE", 32)
    ∷ (codes "PAGEUP", 33)
    ∷ (codes "PAGEDOWN", 34)
    ∷ (codes "END", 35)
    ∷ (codes "HOME", 36)
    ∷ (codes "LEFT", 37)
    ∷ (codes "UP", 38)
    ∷ (codes "RIGHT", 39)
    ∷ (codes "DOWN", 40)
    ∷ (codes "INSERT", 45)
    ∷ (codes "PRINTSCREEN", 44)
    ∷ (codes "DELETE", 46)
    ∷ (codes "F1", 112)
    ∷ (codes "F2", 113)
    ∷ (codes "F3", 114)
    ∷ (codes "F4", 115)
    ∷ (codes "F5", 116)
    ∷ (codes "F6", 117)
    ∷ (codes "F7", 118)
    ∷ (codes "F8", 119)
    ∷ (codes "F9", 120)
    ∷ (codes "F10", 121)
    ∷ (codes "F11", 122)
    ∷ (codes "F12", 123)
    ∷ (codes "F13", 124)
    ∷ (codes "F14", 125)
    ∷ (codes "F15", 126)
    ∷ (codes "F16", 127)
    ∷ (codes "F17", 128)
    ∷ (codes "F18", 129)
    ∷ (codes "F19", 130)
    ∷ (codes "F20", 131)
    ∷ (codes "F21", 132)
    ∷ (codes "F22", 133)
    ∷ (codes "F23", 134)
    ∷ (codes "F24", 135)
    ∷ []

-- `key.upper()`, for the ASCII names that the schema admits
abbrev pub upper_character : ℕ → ℕ
upper_character c = if leb b'a' c && leb c b'z' then c - 32 else c

abbrev pub named_key : Text → List (Text × ℕ) → Option ℕ
named_key t [] = none
named_key t ((u, k) ∷ d) = if text_eq t u then some k else named_key t d

-- `_VIRTUAL_KEYS.get(key.upper())`
abbrev pub virtual_key_of : Text → Option ℕ
virtual_key_of (c ∷ []) =
    let u = upper_character c in
    if leb b'A' u && leb u b'Z' then some u else if leb b'0' u && leb u b'9' then some u else none
virtual_key_of t = named_key (map upper_character t) named_virtual_keys

-- The loop that presses the modifiers: whether all were, those that were, last first, and the log.
unfoldable pub press_modifiers : (ℕ → Bool) → List ℕ → List ℕ → Log → Bool × List ℕ × Log
press_modifiers accepts [] pressed log = (true, pressed, log)
press_modifiers accepts (k ∷ ks) pressed log =
    if (emit_key accepts k false log).0
    then press_modifiers accepts ks (k ∷ pressed) (emit_key accepts k false log).1
    else (false, pressed, (emit_key accepts k false log).1)

-- `for modifier_key in reversed(pressed_modifiers)`
unfoldable pub release_modifiers : (ℕ → Bool) → List ℕ → Log → Log
release_modifiers accepts [] log = log
release_modifiers accepts (k ∷ ks) log =
    release_modifiers accepts ks (release_key_safely accepts k log)

-- `WindowsKeyAdapter.execute` and `WindowsMediaAdapter.execute`, with the virtual key
unfoldable pub tap_key : (ℕ → Bool) → ℕ → Log → Bool × Log
tap_key accepts k log =
    if (emit_key accepts k false log).0
    then (true, release_key_safely accepts k (emit_key accepts k false log).1)
    else (false, (emit_key accepts k false log).1)

-- `WindowsHotkeyAdapter.execute`, with the virtual keys
unfoldable pub press_hotkey : (ℕ → Bool) → List ℕ → ℕ → Log → Bool × Log
press_hotkey accepts modifiers k log =
    let (all_pressed, pressed, held_log) = press_modifiers accepts modifiers [] log in
    let tapped = tap_key accepts k held_log in
    if all_pressed
    then (tapped.0, release_modifiers accepts pressed tapped.1)
    else (false, release_modifiers accepts pressed held_log)

-- What the registry returns, or the rejection.
abbrev pub outcome_of : Bool → Outcome
outcome_of true = result completed (codes "Action completed")
outcome_of false = refused (codes "Action could not be completed")

abbrev pub hotkey_with : (ℕ → Bool) → List Modifier → Option ℕ → Log → Outcome × Log
hotkey_with accepts modifiers none log = (refused (codes "Hotkey is not supported"), log)
hotkey_with accepts modifiers (some k) log =
    let r = press_hotkey accepts (map modifier_virtual_key modifiers) k log in (outcome_of r.0, r.1)

abbrev pub key_with : (ℕ → Bool) → Option ℕ → Log → Outcome × Log
key_with accepts none log = (refused (codes "Key is not supported"), log)
key_with accepts (some k) log = let r = tap_key accepts k log in (outcome_of r.0, r.1)

-- `ActionRegistry.execute`
unfoldable pub execute : (ℕ → Bool) → (Action → Outcome) → Action → Log → Outcome × Log
execute accepts other (hotkey modifiers k) log =
    hotkey_with accepts modifiers (virtual_key_of k) log
execute accepts other (key k) log = key_with accepts (virtual_key_of k) log
execute accepts other (media command) log = key_with accepts (some (media_virtual_key command)) log
execute accepts other a log = (other a, log)
