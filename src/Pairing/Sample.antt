-- ===== src/Pairing/Sample.antt =====
-- A library for the tests of the pairing (server/app/pairing_session.py).
use android_streamdeck.Base.{
  ℕ, zero, suc, ◌+◌, ◌%◌, some, [], ◌∷◌, length, leb, ◌==◌, if◌then◌else◌,
}
use android_streamdeck.Base.Text.{Text}
use android_streamdeck.Pairing.Library.{Library}

abbrev pub copies : ℕ → ℕ → Text
copies zero c = []
copies (suc n) c = c ∷ copies n c

abbrev pub head_or : ℕ → Text → ℕ
head_or d [] = d
head_or d (x ∷ xs) = x

-- Short names for bytes: one letter, repeated to the length that the real encoding has.
abbrev pub toy : Library
toy = record {
  is_space = λ c. c == 32;
  upper = λ c. c ∷ [];
  decimal = λ n. n ∷ [];
  utf8 = λ t. t;
  b32encode = λ b. copies 26 (65 + head_or 0 b % 16);
  b32decode = λ t. some (copies 16 7);
  b64decode = λ t. some t;
  b64u = λ b. if leb (length b) 16 then copies 22 (head_or 97 b) else copies 43 (head_or 97 b);
  sha256 = λ b. copies 32 (97 + length b % 20);
  hmac_sha256 = λ k m. copies 32 (97 + (head_or 0 k + length m) % 20);
  hkdf = λ salt t. copies 32 (head_or 0 salt + head_or 0 t);
  parse_ipv4 = λ t. some (head_or 0 t);
  show_ipv4 = λ a. a ∷ [];
  format_timestamp = λ t. t ∷ [];
}
