-- ===== src/Core/Encoding/Base64.antt =====
-- Decoding undoes `base64url_encode`.
use bot_marshal.Prelude.{
  ℕ, ◌+◌, ◌*◌, ◌/◌, ◌%◌, ◌^◌, ◌<◌, Text, false, List, [], ◌∷◌, ◌≡◌, refl, ap, ◌∙◌, arith, All,
  Result, ok, ◌>>=◌,
}
use bot_marshal.Core.Encoding.{
  alphabet, encode_with, value, decode_digit, decode_from, base64url_encode, base64url_decode,
}

abbrev digit : ℕ → ℕ
digit v = alphabet b'-' b'_' v

decode_digit-alphabet : (v : ℕ) → v < 64 → decode_digit (digit v) ≡ value v
unfolding decode_digit alphabet
decode_digit-alphabet v h = ground arith

-- The accumulator after one more digit.
abbrev push : ℕ → ℕ → ℕ
push acc v = acc * 64 % 2 ^ 32 + v

push-mod : (acc v : ℕ) → v < 64 → push acc v % 64 ≡ v
push-mod acc v h = omega arith

push-two : (acc v w : ℕ) → v < 64 → w < 64 → push (push acc v) w % 4096 ≡ v * 64 + w
push-two acc v w hv hw = omega (arith, push-mod acc v hv)

first_byte :
    (acc x r : ℕ) → x < 256 → r < 16 → push (push acc (x / 4)) (x % 4 * 16 + r) / 16 % 256 ≡ x
first_byte acc x r hx hr =
    omega (arith, push-two acc (x / 4) (x % 4 * 16 + r) (omega arith) (omega arith))

second_byte :
    (acc q y r : ℕ)
    → q < 4
    → y < 256
    → r < 4
    → push (push acc (q * 16 + y / 16)) (y % 16 * 4 + r) / 4 % 256 ≡ y
second_byte acc q y r hq hy hr =
    omega (arith, push-two acc (q * 16 + y / 16) (y % 16 * 4 + r) (omega arith) (omega arith))

third_byte :
    (acc q z : ℕ) → q < 16 → z < 256 → push (push acc (q * 4 + z / 64)) (z % 64) / 1 % 256 ≡ z
third_byte acc q z hq hz =
    omega (arith, push-two acc (q * 4 + z / 64) (z % 64) (omega arith) (omega arith))

-- The four places of a digit among those for three bytes.
module _ (acc v : ℕ) (s : Text) (h : v < 64) where
  decode_from-first : decode_from acc 0 (digit v ∷ s) ≡ decode_from (push acc v) 6 s
  unfolding decode_from
  decode_from-first = rw (decode_digit-alphabet v h, decode_from) refl

  decode_from-second :
      decode_from acc 6 (digit v ∷ s)
      ≡ (decode_from (push acc v) 4 s >>= λ out. ok (push acc v / 16 % 256 ∷ out))
  unfolding decode_from
  decode_from-second = rw (decode_digit-alphabet v h, decode_from) refl

  decode_from-third :
      decode_from acc 4 (digit v ∷ s)
      ≡ (decode_from (push acc v) 2 s >>= λ out. ok (push acc v / 4 % 256 ∷ out))
  unfolding decode_from
  decode_from-third = rw (decode_digit-alphabet v h, decode_from) refl

  decode_from-fourth :
      decode_from acc 2 (digit v ∷ s)
      ≡ (decode_from (push acc v) 0 s >>= λ out. ok (push acc v / 1 % 256 ∷ out))
  unfolding decode_from
  decode_from-fourth = rw (decode_digit-alphabet v h, decode_from) refl

abbrev IsBytes : List ℕ → Type 0
IsBytes = All (λ c. c < 256)

decode_from-encode_with :
    (input : List ℕ) (acc : ℕ)
    → IsBytes input
    → decode_from acc 0 (encode_with (alphabet b'-' b'_') false input) ≡ ok input
unfolding encode_with decode_from
decode_from-encode_with [] acc h = refl
decode_from-encode_with (x ∷ []) acc h =
    let hx : x < 256 = h.0 in
    let whole : x % 4 * 16 + 0 ≡ x % 4 * 16 = omega arith in
    let byte : push (push acc (x / 4)) (x % 4 * 16) / 16 % 256 ≡ x =
      rw whole at (first_byte acc x 0 hx (omega arith)) in
    decode_from-first acc (x / 4) (digit (x % 4 * 16) ∷ []) (omega arith)
    ∙ (decode_from-second (push acc (x / 4)) (x % 4 * 16) [] (omega arith)
        ∙ ap (λ (b : ℕ). ok (b ∷ [])) byte)
decode_from-encode_with (x ∷ y ∷ []) acc h =
    let hx : x < 256 = h.0 in
    let hy : y < 256 = h.1.0 in
    let whole : y % 16 * 4 + 0 ≡ y % 16 * 4 = omega arith in
    let v1 = x % 4 * 16 + y / 16 in
    let a2 = push (push acc (x / 4)) v1 in
    let byte : push a2 (y % 16 * 4) / 4 % 256 ≡ y =
      rw whole at (second_byte (push acc (x / 4)) (x % 4) y 0 (omega arith) hy (omega arith)) in
    decode_from-first acc (x / 4) (digit v1 ∷ digit (y % 16 * 4) ∷ []) (omega arith)
    ∙ (decode_from-second (push acc (x / 4)) v1 (digit (y % 16 * 4) ∷ []) (omega arith)
        ∙ (ap (λ (r : Result ℕ (List ℕ)). r >>= λ out. ok (a2 / 16 % 256 ∷ out))
              (decode_from-third a2 (y % 16 * 4) [] (omega arith)
                ∙ ap (λ (b : ℕ). ok (b ∷ [])) byte)
            ∙ ap (λ (b : ℕ). ok (b ∷ y ∷ [])) (first_byte acc x (y / 16) hx (omega arith))))
decode_from-encode_with (x ∷ y ∷ z ∷ more) acc h =
    let hx : x < 256 = h.0 in
    let hy : y < 256 = h.1.0 in
    let hz : z < 256 = h.1.1.0 in
    let v1 = x % 4 * 16 + y / 16 in
    let v2 = y % 16 * 4 + z / 64 in
    let a1 = push acc (x / 4) in
    let a2 = push a1 v1 in
    let a3 = push a2 v2 in
    let a4 = push a3 (z % 64) in
    let rest = encode_with (alphabet b'-' b'_') false more in
    let last =
      decode_from-fourth a3 (z % 64) rest (omega arith)
      ∙ ap (λ (r : Result ℕ (List ℕ)). r >>= λ out. ok (a4 / 1 % 256 ∷ out))
          (decode_from-encode_with more a4 h.1.1.1)
      ∙ ap (λ (b : ℕ). ok (b ∷ more)) (third_byte a2 (y % 16) z (omega arith) hz) in
    let middle =
      decode_from-third a2 v2 (digit (z % 64) ∷ rest) (omega arith)
      ∙ ap (λ (r : Result ℕ (List ℕ)). r >>= λ out. ok (a3 / 4 % 256 ∷ out)) last
      ∙ ap (λ (b : ℕ). ok (b ∷ z ∷ more))
          (second_byte a1 (x % 4) y (z / 64) (omega arith) hy (omega arith)) in
    decode_from-first acc (x / 4) (digit v1 ∷ digit v2 ∷ digit (z % 64) ∷ rest) (omega arith)
    ∙ (decode_from-second a1 v1 (digit v2 ∷ digit (z % 64) ∷ rest) (omega arith)
        ∙ (ap (λ (r : Result ℕ (List ℕ)). r >>= λ out. ok (a2 / 16 % 256 ∷ out)) middle
            ∙ ap (λ (b : ℕ). ok (b ∷ y ∷ z ∷ more)) (first_byte acc x (y / 16) hx (omega arith))))

-- Decoding what `base64url_encode` writes of a list of bytes gives back that list.
pub base64url_decode-encode :
    (input : List ℕ)
    → All (λ c. c < 256) input
    → base64url_decode (base64url_encode input) ≡ ok input
unfolding base64url_decode base64url_encode
base64url_decode-encode input h = decode_from-encode_with input 0 h
