-- ===== src/Secrets/Canonical/Decodes.antt =====
-- The decoder of the canonical query reads back what `percent_encode` writes.
use bot_marshal.Prelude.{
  ℕ, ◌+◌, ◌*◌, ◌/◌, ◌%◌, ◌<◌, Text, some, none, true, false, List, [], ◌∷◌, ◌≡◌, refl, ap, ◌∙◌,
  arith, All, inl, inr, Bool-cases, ◌==◌,
}
use bot_marshal.Core.Encoding.{percent_encode, unreserved, hex_digit}
use bot_marshal.Secrets.Canonical.{hex_val, hex_pair, escaped, decoded, percent_decode}

hex_val-hex_digit : (n : ℕ) → n < 16 → hex_val (hex_digit n) ≡ some n
unfolding hex_val hex_digit
hex_val-hex_digit n h = ground arith

escaped-encoded :
    (c : ℕ) → c < 256 → escaped b'%' (hex_digit (c / 16)) (hex_digit (c % 16)) ≡ some c
unfolding escaped hex_pair
escaped-encoded c h =
    let high = hex_val-hex_digit (c / 16) (omega (arith, h)) in
    let low = hex_val-hex_digit (c % 16) (omega arith) in
    let e : 16 * (c / 16) + c % 16 ≡ c = omega arith in rw (high, low, e) refl

percent_decode-plain :
    (c : ℕ) (s : Text) → (c == b'%') ≡ false → percent_decode (c ∷ s) ≡ c ∷ percent_decode s
unfolding percent_decode escaped
percent_decode-plain c [] h = refl
percent_decode-plain c (d ∷ []) h = refl
percent_decode-plain c (d ∷ e ∷ s) h =
    let none_there : escaped c d e ≡ none = rw (escaped, h) refl in
    ap (λ o. decoded o c (percent_decode (d ∷ e ∷ s)) (percent_decode s)) none_there

unreserved-plain : (c : ℕ) → unreserved c ≡ true → (c == b'%') ≡ false
unfolding unreserved
unreserved-plain c h = ground arith

-- `percent_decode` of swap.rs reads back the bytes that `percent_encode` writes.
pub percent_decode-percent_encode :
    (bytes : List ℕ) → All (λ b. b < 256) bytes → percent_decode (percent_encode bytes) ≡ bytes
unfolding percent_encode percent_decode
percent_decode-percent_encode [] h = refl
percent_decode-percent_encode (c ∷ cs) (h, hs) =
    let again = ap (λ (l : List ℕ). c ∷ l) (percent_decode-percent_encode cs hs) in
    elim (Bool-cases (unreserved c)) [
      | inl plain ↦
          rw plain (percent_decode-plain c (percent_encode cs) (unreserved-plain c plain) ∙ again)
      | inr other ↦ rw other (
          ap
            (λ o.
              decoded o b'%'
                (percent_decode (hex_digit (c / 16) ∷ hex_digit (c % 16) ∷ percent_encode cs))
                (percent_decode (percent_encode cs)))
            (escaped-encoded c h)
          ∙ again)
    ]
