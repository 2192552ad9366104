-- ===== src/Secrets/Form/Decoding.antt =====
-- Decoding undoes `percent_encode`.
use bot_marshal.Prelude.{
  ℕ, ◌/◌, ◌%◌, ◌<◌, none, some, true, false, List, [], ◌∷◌, ◌≡◌, refl, ap, ◌∙◌, arith, inl, inr,
  All, Bool-cases, ◌==◌,
}
use bot_marshal.Core.Encoding.{unreserved, hex_digit, percent_encode}
use bot_marshal.Secrets.Form.{hex_value, from_str_radix, escape, plain_byte, decode_bytes}

-- A list of bytes.
abbrev pub IsBytes : List ℕ → Type 0
IsBytes = All (λ c. c < 256)

hex_value-hex_digit : (n : ℕ) → n < 16 → hex_value (hex_digit n) ≡ some n
unfolding hex_value hex_digit
hex_value-hex_digit n h = ground arith

hex_digit-plus : (n : ℕ) → n < 16 → (hex_digit n == b'+') ≡ false
unfolding hex_digit
hex_digit-plus n h = ground arith

from_str_radix-hex_digit :
    (c : ℕ) → c < 256 → from_str_radix (hex_digit (c / 16)) (hex_digit (c % 16)) ≡ some c
unfolding from_str_radix
from_str_radix-hex_digit c h =
    let high : c / 16 < 16 = omega arith in
    let low : c % 16 < 16 = omega arith in
    rw
      (
        hex_digit-plus (c / 16) high,
        hex_value-hex_digit (c / 16) high,
        hex_value-hex_digit (c % 16) low,
      )
      (ap (λ (n : ℕ). some n) (omega arith))

unreserved-plain : (c : ℕ) → unreserved c ≡ true → ((c == b'%') ≡ false) × (plain_byte c ≡ c)
unfolding unreserved
unreserved-plain c h = ground arith

escape-none : (c d e : ℕ) → (c == b'%') ≡ false → escape c d e ≡ none
unfolding escape
escape-none c d e h = rw h refl

escape-some : (c : ℕ) → c < 256 → escape b'%' (hex_digit (c / 16)) (hex_digit (c % 16)) ≡ some c
unfolding escape
escape-some c h = from_str_radix-hex_digit c h

decode_bytes-none :
    (c d e : ℕ) (s : List ℕ)
    → escape c d e ≡ none
    → decode_bytes (c ∷ d ∷ e ∷ s) ≡ plain_byte c ∷ decode_bytes (d ∷ e ∷ s)
unfolding decode_bytes
decode_bytes-none c d e s h = rw (h, decode_bytes) refl

decode_bytes-some :
    (c d e b : ℕ) (s : List ℕ)
    → escape c d e ≡ some b
    → decode_bytes (c ∷ d ∷ e ∷ s) ≡ b ∷ decode_bytes s
unfolding decode_bytes
decode_bytes-some c d e b s h = rw (h, decode_bytes) refl

decode_bytes-plain :
    (c : ℕ) (s : List ℕ)
    → (c == b'%') ≡ false
    → plain_byte c ≡ c
    → decode_bytes (c ∷ s) ≡ c ∷ decode_bytes s
unfolding decode_bytes escape
decode_bytes-plain c [] h p = ap (λ (x : ℕ). x ∷ []) p
decode_bytes-plain c (d ∷ []) h p = ap (λ (x : ℕ). x ∷ decode_bytes (d ∷ [])) p
decode_bytes-plain c (d ∷ e ∷ s) h p =
    decode_bytes-none c d e s (escape-none c d e h) ∙ ap (λ (x : ℕ). x ∷ decode_bytes (d ∷ e ∷ s)) p

decode_bytes-nil : decode_bytes [] ≡ []
unfolding decode_bytes
decode_bytes-nil = refl

-- Decoding what `percent_encode` writes gives back the bytes, before they are read as a string.
pub decode_bytes-percent_encode : (s : List ℕ) → IsBytes s → decode_bytes (percent_encode s) ≡ s
unfolding percent_encode
decode_bytes-percent_encode [] h = decode_bytes-nil
decode_bytes-percent_encode (c ∷ s) h = elim (Bool-cases (unreserved c)) [
  | inl on ↦
      let (percent, plain) = unreserved-plain c on in
      rw on (
        decode_bytes-plain c (percent_encode s) percent plain
        ∙ ap (λ (l : List ℕ). c ∷ l) (decode_bytes-percent_encode s h.1))
  | inr off ↦ rw off (
      decode_bytes-some b'%' _ _ c (percent_encode s) (escape-some c h.0)
      ∙ ap (λ (l : List ℕ). c ∷ l) (decode_bytes-percent_encode s h.1))
]
