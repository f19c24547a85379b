-- ===== src/Actions/Release.antt =====
-- The keys that are down after an action.
use android_streamdeck.Base.{
  ℕ, ◌≡◌, refl, ◌∙◌, arith, Bool, false, Option, none, some, List, [], ◌∷◌, ◌++◌, map, ◌==◌,
  if◌then◌else◌, Bool-cases, inl, inr,
}
use android_streamdeck.Profile.{
  Modifier, Action, hotkey, key, media, text, url, application, system_info,
}
use android_streamdeck.WebSocket.Press.{Outcome}
use android_streamdeck.Actions.{
  KeyCall, Log, emit_key, release_key_safely, press_modifiers, release_modifiers, tap_key,
  press_hotkey, hotkey_with, key_with, virtual_key_of, media_virtual_key, modifier_virtual_key,
  execute,
}

-- A release takes off the key that was pressed last, and no other.
abbrev pub pop : ℕ → List ℕ → List ℕ
pop k [] = []
pop k (j ∷ js) = if j == k then js else j ∷ js

-- The keys pressed and not released since, the last pressed first. A press that raised does not count,
-- a release counts when it was tried.
abbrev pub down_after : KeyCall → List ℕ → List ℕ
down_after c ks =
    if c.key_up then pop c.virtual_key ks else if c.returned then c.virtual_key ∷ ks else ks

unfoldable pub down : Log → List ℕ
down [] = []
down (c ∷ log) = down_after c (down log)

down-press :
    (accepts : ℕ → Bool) (k : ℕ) (log : Log)
    → down (emit_key accepts k false log).1
      ≡ (if (emit_key accepts k false log).0 then k ∷ down log else down log)
unfolding down emit_key
down-press accepts k log = ground arith

down-release :
    (accepts : ℕ → Bool) (k : ℕ) (ks : List ℕ) (log : Log)
    → down log ≡ k ∷ ks
    → down (release_key_safely accepts k log) ≡ ks
unfolding down emit_key
down-release accepts k ks log h = ground (arith, h)

down-release_modifiers :
    (accepts : ℕ → Bool) (ks js : List ℕ) (log : Log)
    → down log ≡ ks ++ js
    → down (release_modifiers accepts ks log) ≡ js
unfolding release_modifiers
down-release_modifiers accepts [] js log h = h
down-release_modifiers accepts (k ∷ ks) js log h =
    down-release_modifiers accepts ks js (release_key_safely accepts k log)
      (down-release accepts k (ks ++ js) log h)

down-press_modifiers :
    (accepts : ℕ → Bool) (ks pressed js : List ℕ) (log : Log)
    → down log ≡ pressed ++ js
    → down (press_modifiers accepts ks pressed log).2
      ≡ (press_modifiers accepts ks pressed log).1 ++ js
unfolding press_modifiers
down-press_modifiers accepts [] pressed js log h = h
down-press_modifiers accepts (k ∷ ks) pressed js log h =
    let p = down-press accepts k log in
    elim (Bool-cases (emit_key accepts k false log).0) [
      | inl e ↦ simp e (
          down-press_modifiers accepts ks (k ∷ pressed) js (emit_key accepts k false log).1
            (ground (arith, p, e, h)))
      | inr e ↦ simp e (ground (arith, p, e, h))
    ]

down-tap_key : (accepts : ℕ → Bool) (k : ℕ) (log : Log) → down (tap_key accepts k log).1 ≡ down log
unfolding tap_key
down-tap_key accepts k log =
    let p = down-press accepts k log in
    elim (Bool-cases (emit_key accepts k false log).0) [
      | inl e ↦ simp e (
          down-release accepts k (down log) (emit_key accepts k false log).1 (ground (arith, p, e)))
      | inr e ↦ simp e (ground (arith, p, e))
    ]

down-press_hotkey :
    (accepts : ℕ → Bool) (ks : List ℕ) (k : ℕ) (log : Log)
    → down (press_hotkey accepts ks k log).1 ≡ down log
unfolding press_hotkey
down-press_hotkey accepts ks k log =
    let r = press_modifiers accepts ks [] log in
    let held = down-press_modifiers accepts ks [] (down log) log refl in
    elim (Bool-cases r.0) [
      | inl e ↦ simp e (
          down-release_modifiers accepts r.1 (down log) (tap_key accepts k r.2).1
            (down-tap_key accepts k r.2 ∙ held))
      | inr e ↦ simp e (down-release_modifiers accepts r.1 (down log) r.2 held)
    ]

down-key_with :
    (accepts : ℕ → Bool) (o : Option ℕ) (log : Log) → down (key_with accepts o log).1 ≡ down log
down-key_with accepts none log = refl
down-key_with accepts (some k) log = down-tap_key accepts k log

down-hotkey_with :
    (accepts : ℕ → Bool) (ms : List Modifier) (o : Option ℕ) (log : Log)
    → down (hotkey_with accepts ms o log).1 ≡ down log
down-hotkey_with accepts ms none log = refl
down-hotkey_with accepts ms (some k) log =
    down-press_hotkey accepts (map modifier_virtual_key ms) k log

-- Whatever the action is and whichever calls of `emit_key` raise, the registry leaves down exactly the
-- keys that were down, counting a key as down from a press that returned until a release of it was
-- tried while it was the last one pressed.
pub no_key_stays_down :
    (accepts : ℕ → Bool) (other : Action → Outcome) (a : Action) (log : Log)
    → down (execute accepts other a log).1 ≡ down log
unfolding execute
no_key_stays_down accepts other (hotkey ms k) log =
    down-hotkey_with accepts ms (virtual_key_of k) log
no_key_stays_down accepts other (key k) log = down-key_with accepts (virtual_key_of k) log
no_key_stays_down accepts other (media c) log =
    down-key_with accepts (some (media_virtual_key c)) log
no_key_stays_down accepts other (text t) log = refl
no_key_stays_down accepts other (url u) log = refl
no_key_stays_down accepts other (application i) log = refl
no_key_stays_down accepts other (system_info t) log = refl
