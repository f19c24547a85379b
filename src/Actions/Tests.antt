-- ===== src/Actions/Tests.antt =====
-- A hotkey whose third call raises, one that completes, and a text with a surrogate pair.
use android_streamdeck.Base.{
  ◌≡◌, refl, true, not, [], ◌∷◌, ◌==◌, arith, some, ◌*◌, length, if◌then◌else◌,
}
use android_streamdeck.Base.Text.{Text, codes}
use android_streamdeck.Profile.{Action, hotkey, ctrl, shift}
use android_streamdeck.WebSocket.{completed}
use android_streamdeck.WebSocket.Press.{failed, result, refused}
use android_streamdeck.Actions.{
  execute, emit_key, tap_key, press_modifiers, release_modifiers, press_hotkey,
}
use android_streamdeck.Actions.TextInput.{
  read_utf16, typed_units, inputs_of, code_units, emit_text, typed_text_reads_back,
}
use android_streamdeck.Actions.Release.{down, no_key_stays_down}

abbrev save_as : Action
save_as = hotkey (ctrl ∷ shift ∷ []) (codes "s")

no_key_stays_down_example : down (execute (λ n. not (n == 2)) (λ a. failed) save_as []).1 ≡ down []
no_key_stays_down_example = no_key_stays_down (λ n. not (n == 2)) (λ a. failed) save_as []

save_as_completes :
    (execute (λ n. true) (λ a. failed) save_as []).0 ≡ result completed (codes "Action completed")
unfolding execute press_hotkey press_modifiers release_modifiers tap_key emit_key
save_as_completes = refl

abbrev typed : Text
typed = 97 ∷ 128512 ∷ []

typed_text_reads_back_example :
    (typed_units (inputs_of (code_units typed)) ≡ some (code_units typed))
    × (read_utf16 (code_units typed) ≡ typed)
    × (emit_text (λ is. 5) typed ≡ (
        if 5 == 2 * length (code_units typed)
        then result completed (codes "Action completed")
        else refused (codes "Text input was not accepted")))
typed_text_reads_back_example =
    typed_text_reads_back (λ is. 5) typed ((omega arith, refl), ((omega arith, refl), tt))
