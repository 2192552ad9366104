-- ===== src/Secrets/Form/Pairs.antt =====
-- Parsing a form gives back the pairs that were written.
use bot_marshal.Prelude.{
  ℕ, ◌/◌, ◌%◌, ◌<◌, Text, some, true, false, not, List, [], ◌∷◌, ◌++◌, ◌≡◌, refl, sym, ap, ◌∙◌,
  arith, inl, inr, All, Bool-cases, map, keep, is_empty, append_assoc, append-nil, ◌==◌,
}
use bot_marshal.Core.Encoding.{unreserved, hex_digit, percent_encode, form_from, form_urlencode}
use bot_marshal.Secrets.Form.{split, split_once, percent_decode, decode_pair, parse_pairs}
use bot_marshal.Secrets.Form.Decoding.{IsBytes, decode_bytes-percent_encode}

-- A text in which neither separator of a form occurs.
abbrev IsPlain : Text → Type 0
IsPlain = All (λ c. ((c == b'&') ≡ false) × ((c == b'=') ≡ false))

unreserved-IsPlain : (c : ℕ) → unreserved c ≡ true → ((c == b'&') ≡ false) × ((c == b'=') ≡ false)
unfolding unreserved
unreserved-IsPlain c h = ground arith

hex_digit-IsPlain :
    (n : ℕ) → n < 16 → ((hex_digit n == b'&') ≡ false) × ((hex_digit n == b'=') ≡ false)
unfolding hex_digit
hex_digit-IsPlain n h = ground arith

percent_encode-IsPlain : (s : List ℕ) → IsBytes s → IsPlain (percent_encode s)
unfolding percent_encode
percent_encode-IsPlain [] h = tt
percent_encode-IsPlain (c ∷ s) h = elim (Bool-cases (unreserved c)) [
  | inl on ↦ rw on (unreserved-IsPlain c on, percent_encode-IsPlain s h.1)
  | inr off ↦
      let byte : c < 256 = h.0 in
      rw off (
        (refl, refl),
        (
          hex_digit-IsPlain (c / 16) (omega arith),
          (hex_digit-IsPlain (c % 16) (omega arith), percent_encode-IsPlain s h.1),
        ),
      )
]

split-piece : (p : Text) → All (λ c. (c == b'&') ≡ false) p → split b'&' p ≡ p ∷ []
unfolding split
split-piece [] h = refl
split-piece (c ∷ p) h = rw (h.0, split-piece p h.1) refl

split-pieces :
    (p s : Text) → All (λ c. (c == b'&') ≡ false) p → split b'&' (p ++ b'&' ∷ s) ≡ p ∷ split b'&' s
unfolding split
split-pieces [] s h = refl
split-pieces (c ∷ p) s h = rw (h.0, split-pieces p s h.1) refl

split_once-pair :
    (k v : Text) → All (λ c. (c == b'=') ≡ false) k → split_once b'=' (k ++ b'=' ∷ v) ≡ some (k, v)
unfolding split_once
split_once-pair [] v h = refl
split_once-pair (c ∷ k) v h = rw (h.0, split_once-pair k v h.1) refl

-- A pair as it is written, and those behind it.
abbrev written : Text × Text → Text
written nv = percent_encode nv.0 ++ b'=' ∷ percent_encode nv.1

abbrev written_after : List (Text × Text) → Text
written_after [] = []
written_after (nv ∷ more) = b'&' ∷ (written nv ++ written_after more)

append-cons : (s : Text) (c : ℕ) (t : Text) → is_empty (s ++ c ∷ t) ≡ false
append-cons [] c t = refl
append-cons (d ∷ s) c t = refl

append-more : (s t : Text) → is_empty t ≡ false → is_empty (s ++ t) ≡ false
append-more [] t h = h
append-more (c ∷ s) t h = refl

form_from-written_after :
    (out : Text) (pairs : List (Text × Text))
    → is_empty out ≡ false
    → form_from out pairs ≡ out ++ written_after pairs
unfolding form_from
form_from-written_after out [] h = sym (append-nil out)
form_from-written_after out ((n, v) ∷ more) h = rw h (
    form_from-written_after ((out ++ b'&' ∷ []) ++ written (n, v)) more (
      append-more (out ++ b'&' ∷ []) (written (n, v))
        (append-cons (percent_encode n) b'=' (percent_encode v)))
    ∙ (append_assoc (out ++ b'&' ∷ []) (written (n, v)) (written_after more)
        ∙ append_assoc out (b'&' ∷ []) (written (n, v) ++ written_after more)))

All-weaken : {P Q : ℕ → Type 0} → ((c : ℕ) → P c → Q c) → (s : Text) → All P s → All Q s
All-weaken f [] h = tt
All-weaken f (c ∷ s) h = (f c h.0, All-weaken f s h.1)

All-append : (P : ℕ → Type 0) (s t : Text) → All P s → All P t → All P (s ++ t)
All-append P [] t h k = k
All-append P (c ∷ s) t h k = (h.0, All-append P s t h.1 k)

module _ (lossy : List ℕ → Text) where
  -- A string: bytes that reading them as UTF-8 leaves alone.
  abbrev pub IsString : Text → Type 0
  IsString t = IsBytes t × (lossy t ≡ t)

  abbrev pub IsStrings : List (Text × Text) → Type 0
  IsStrings = All (λ nv. IsString nv.0 × IsString nv.1)

  percent_decode-encode : (t : Text) → IsString t → percent_decode lossy (percent_encode t) ≡ t
  unfolding percent_decode
  percent_decode-encode t h = ap lossy (decode_bytes-percent_encode t h.0) ∙ h.1

  decode_pair-written :
      (nv : Text × Text) → IsString nv.0 → IsString nv.1 → decode_pair lossy (written nv) ≡ nv
  unfolding decode_pair
  decode_pair-written (n, v) hn hv =
      let names = All-weaken (λ c h. h.1) (percent_encode n) (percent_encode-IsPlain n hn.0) in
      rw (split_once-pair (percent_encode n) (percent_encode v) names, decode_pair)
        (rw (percent_decode-encode n hn, percent_decode-encode v hv) refl)

  written-IsPlain :
      (nv : Text × Text)
      → IsString nv.0 × IsString nv.1
      → All (λ c. (c == b'&') ≡ false) (written nv)
  written-IsPlain (n, v) h =
      All-append (λ c. (c == b'&') ≡ false) (percent_encode n) (b'=' ∷ percent_encode v)
        (All-weaken (λ c h. h.0) (percent_encode n) (percent_encode-IsPlain n h.0.0))
        (refl, All-weaken (λ c h. h.0) (percent_encode v) (percent_encode-IsPlain v h.1.0))

  split-written :
      (nv : Text × Text) (more : List (Text × Text))
      → IsStrings (nv ∷ more)
      → split b'&' (written nv ++ written_after more) ≡ map written (nv ∷ more)
  split-written nv [] h =
      ap (split b'&') (append-nil (written nv)) ∙ split-piece (written nv) (written-IsPlain nv h.0)
  split-written nv (next ∷ more) h =
      split-pieces (written nv) (written next ++ written_after more) (written-IsPlain nv h.0)
      ∙ ap (λ (l : List Text). written nv ∷ l) (split-written next more h.1)

  map-decode_pair :
      (pairs : List (Text × Text))
      → IsStrings pairs
      → map (decode_pair lossy) (keep (λ p. not (is_empty p)) (map written pairs)) ≡ pairs
  map-decode_pair [] h = refl
  map-decode_pair (nv ∷ more) h =
      rw (append-cons (percent_encode nv.0) b'=' (percent_encode nv.1)) (
        ap (λ (l : List (Text × Text)). decode_pair lossy (written nv) ∷ l)
          (map-decode_pair more h.1)
        ∙ ap (λ (x : Text × Text). x ∷ more) (decode_pair-written nv h.0.0 h.0.1))

  -- Parsing what `form_urlencode` writes gives back the pairs, for any list of pairs of strings, the
  -- empty ones and those that hold separators included.
  pub parse_pairs-form_urlencode :
      (pairs : List (Text × Text))
      → IsStrings pairs
      → parse_pairs lossy (form_urlencode pairs) ≡ pairs
  unfolding parse_pairs form_urlencode form_from split
  parse_pairs-form_urlencode [] h = refl
  parse_pairs-form_urlencode (nv ∷ more) h =
      let text : form_urlencode (nv ∷ more) ≡ written nv ++ written_after more =
        form_from-written_after (written nv) more
          (append-cons (percent_encode nv.0) b'=' (percent_encode nv.1)) in
      rw (text, split-written nv more h) (map-decode_pair (nv ∷ more) h)
