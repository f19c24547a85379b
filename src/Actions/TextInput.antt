-- ===== src/Actions/TextInput.antt =====
-- `_emit_windows_text` of server/app/actions.py: a text as keyboard inputs, one pair for each UTF-16
-- code unit. `send_input` is what `SendInput` returns, the number of inputs that it has taken.
use android_streamdeck.Base.{
  ℕ, ◌+◌, ◌-◌, ◌*◌, ◌/◌, ◌%◌, ◌<◌, ◌≡◌, refl, ap, ◌∙◌, Bool, true, false, not, ◌&&◌, Option, none,
  some, List, [], ◌∷◌, ◌++◌, arith, All, length, ltb, leb, ◌==◌, if◌then◌else◌, Bool-cases, inl,
  inr,
}
use android_streamdeck.Base.Text.{Text, codes}
use android_streamdeck.WebSocket.{completed}
use android_streamdeck.WebSocket.Press.{Outcome, result, refused}

-- `text.encode("utf-16-le", errors="surrogatepass")`, for one code point
abbrev pub units_of : ℕ → List ℕ
units_of c =
    if ltb c 65536 then c ∷ [] else (55296 + (c - 65536) / 1024) ∷ (56320 + (c - 65536) % 1024) ∷ []

-- `code_units`
unfoldable pub code_units : Text → List ℕ
code_units [] = []
code_units (c ∷ cs) = units_of c ++ code_units cs

-- an `_Input` with `KEYEVENTF_UNICODE`
pub record Input : Type 0 where
  pub scan : ℕ
  pub key_up : Bool

-- `inputs`: the code units, each pressed and released
unfoldable pub inputs_of : List ℕ → List Input
inputs_of [] = []
inputs_of (u ∷ us) =
    record { scan = u; key_up = false } ∷ record { scan = u; key_up = true } ∷ inputs_of us

-- `WindowsTextAdapter.execute` with `_emit_windows_text`: what the registry answers with
unfoldable pub emit_text : (List Input → ℕ) → Text → Outcome
emit_text send_input text =
    let inputs = inputs_of (code_units text) in
    if send_input inputs == length inputs
    then result completed (codes "Action completed")
    else refused (codes "Text input was not accepted")

abbrev pub cons_typed : ℕ → Option (List ℕ) → Option (List ℕ)
cons_typed u none = none
cons_typed u (some us) = some (u ∷ us)

-- The units that are typed, where each press is followed at once by the release of the same unit; any
-- other inputs are no typing.
abbrev pub typed_units : List Input → Option (List ℕ)
typed_units [] = some []
typed_units (i ∷ []) = none
typed_units (i ∷ j ∷ is) =
    let rest = typed_units is in
    if not i.key_up && (j.key_up && i.scan == j.scan) then cons_typed i.scan rest else none

abbrev pub is_high : ℕ → Bool
is_high u = leb 55296 u && ltb u 56320

-- A high surrogate and the unit after it are one code point.
unfoldable pub read_utf16 : List ℕ → Text
read_utf16 [] = []
read_utf16 (u ∷ []) = u ∷ []
read_utf16 (u ∷ v ∷ us) =
    let pair = read_utf16 us in
    let single = read_utf16 (v ∷ us) in
    if is_high u then (65536 + (u - 55296) * 1024 + (v - 56320)) ∷ pair else u ∷ single

-- A Unicode scalar value: a code point that is not a surrogate.
abbrev pub IsScalar : ℕ → Type 0
IsScalar c = (c < 1114112) × ((leb 55296 c && ltb c 57344) ≡ false)

read-cons : (u : ℕ) (us : List ℕ) → is_high u ≡ false → read_utf16 (u ∷ us) ≡ u ∷ read_utf16 us
unfolding read_utf16
read-cons u [] h = refl
read-cons u (v ∷ us) h = ground arith

read-pair :
    (u v : ℕ) (us : List ℕ)
    → is_high u ≡ true
    → read_utf16 (u ∷ v ∷ us) ≡ (65536 + (u - 55296) * 1024 + (v - 56320)) ∷ read_utf16 us
unfolding read_utf16
read-pair u v us h = ground arith

high_unit : (k : ℕ) → k < 1048576 → is_high (55296 + k / 1024) ≡ true
high_unit k h = ground arith

pair_value :
    (c : ℕ)
    → ltb c 65536 ≡ false
    → 65536 + (55296 + (c - 65536) / 1024 - 55296) * 1024 + (56320 + (c - 65536) % 1024 - 56320) ≡ c
pair_value c h = ground arith

read-units : (c : ℕ) (us : List ℕ) → IsScalar c → read_utf16 (units_of c ++ us) ≡ c ∷ read_utf16 us
read-units c us s = elim (Bool-cases (ltb c 65536)) [
  | inl e ↦ rw e (read-cons c us (ground (arith, s.1)))
  | inr e ↦ rw e (
      read-pair (55296 + (c - 65536) / 1024) (56320 + (c - 65536) % 1024) us
        (high_unit (c - 65536) (omega (arith, s.0)))
      ∙ ap (λ x. x ∷ read_utf16 us) (pair_value c e))
]

read-code_units : (t : Text) → All IsScalar t → read_utf16 (code_units t) ≡ t
unfolding code_units
read-code_units [] s = unfold read_utf16 in refl
read-code_units (c ∷ cs) s =
    read-units c (code_units cs) s.0 ∙ ap (λ t. c ∷ t) (read-code_units cs s.1)

typed-inputs : (us : List ℕ) → typed_units (inputs_of us) ≡ some us
unfolding inputs_of
typed-inputs [] = refl
typed-inputs (u ∷ us) = ground (arith, typed-inputs us)

length-inputs_of : (us : List ℕ) → length (inputs_of us) ≡ 2 * length us
unfolding inputs_of
length-inputs_of [] = refl
length-inputs_of (u ∷ us) = omega (arith, length-inputs_of us)

-- A text of scalar values is typed exactly. The inputs press and release one code unit after the other,
-- and what is typed reads as the text in UTF-16. The action completes if all inputs are taken, two for
-- each unit, and is refused if fewer or more are.
pub typed_text_reads_back :
    (send_input : List Input → ℕ) (t : Text)
    → All IsScalar t
    → (typed_units (inputs_of (code_units t)) ≡ some (code_units t))
      × (read_utf16 (code_units t) ≡ t)
      × (emit_text send_input t ≡ (
          if send_input (inputs_of (code_units t)) == 2 * length (code_units t)
          then result completed (codes "Action completed")
          else refused (codes "Text input was not accepted")))
unfolding emit_text
typed_text_reads_back send_input t s =
    (typed-inputs (code_units t), read-code_units t s, rw (length-inputs_of (code_units t)) refl)
