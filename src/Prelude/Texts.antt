-- ===== src/Prelude/Texts.antt =====
-- Text as the list of its bytes, and the functions of the Rust standard library on it.
use Prim.Native.Nat.{ℕ, zero, suc, ◌+◌, ◌-◌, ◌*◌, ◌/◌, ◌%◌}
use Prim.Native.Char.{code}
use Prim.Native.String.{String}
use mathlib.Core.Path.{◌≡◌, refl}
use mathlib.Core.Logic.{◌↔◌}
use mathlib.Core.Bool.{Bool, true, false, ◌&&◌, ◌||◌}
use mathlib.Core.List.{List, [], ◌∷◌, ◌++◌, map}
use mathlib.Core.Option.{Option, none, some}
use native.Mathlib.Omega.{arith}
use bot_marshal.Prelude.Tests.{◌==◌, ltb, within, if◌then◌else◌}

abbrev pub Text : Type 0
Text = List ℕ

-- A literal of the source, which is ASCII.
unfoldable pub lit : String → Text
lit String.[] = []
lit (String.◌∷◌ c s) = code c ∷ lit s

-- The UTF-8 bytes of a long dash.
abbrev pub dash : Text
dash = 0xE2 ∷ 0x80 ∷ 0x94 ∷ []

unfoldable pub text_eq : Text → Text → Bool
text_eq [] [] = true
text_eq [] (b ∷ t) = false
text_eq (a ∷ s) [] = false
text_eq (a ∷ s) (b ∷ t) = a == b && text_eq s t

pub text_eq_iff : (s t : Text) → (text_eq s t ≡ true) ↔ (s ≡ t)
unfolding text_eq
text_eq_iff [] [] = (λ h. refl, λ h. refl)
text_eq_iff [] (b ∷ t) = (λ h. cc, λ h. cc)
text_eq_iff (a ∷ s) [] = (λ h. cc, λ h. cc)
text_eq_iff (a ∷ s) (b ∷ t) = ground (arith, text_eq_iff s t)

pub text_eq_refl : (s : Text) → text_eq s s ≡ true
text_eq_refl s = (text_eq_iff s s).1 refl

-- The order of `str`, byte by byte.
unfoldable pub text_lt : Text → Text → Bool
text_lt s [] = false
text_lt [] (b ∷ t) = true
text_lt (a ∷ s) (b ∷ t) = ltb a b || (a == b && text_lt s t)

-- `to_ascii_lowercase`, `to_ascii_uppercase`, `eq_ignore_ascii_case`.
unfoldable pub lower : ℕ → ℕ
lower c = if within b'A' b'Z' c then c + 32 else c

unfoldable pub upper : ℕ → ℕ
upper c = if within b'a' b'z' c then c - 32 else c

unfoldable pub to_ascii_lowercase : Text → Text
unfolding lower
to_ascii_lowercase s = map lower s

unfoldable pub eq_ignore_ascii_case : Text → Text → Bool
unfolding to_ascii_lowercase text_eq
eq_ignore_ascii_case s t = text_eq (to_ascii_lowercase s) (to_ascii_lowercase t)

unfoldable pub starts_with : Text → Text → Bool
starts_with [] s = true
starts_with (a ∷ p) [] = false
starts_with (a ∷ p) (b ∷ s) = a == b && starts_with p s

-- `s.strip_prefix(p)`, the pattern first.
unfoldable pub strip_prefix : Text → Text → Option Text
strip_prefix [] s = some s
strip_prefix (a ∷ p) [] = none
strip_prefix (a ∷ p) (b ∷ s) = if a == b then strip_prefix p s else none

-- `s.contains(p)`, the pattern first.
unfoldable pub contains : Text → Text → Bool
unfolding starts_with
contains p [] = starts_with p []
contains p (c ∷ s) = starts_with p (c ∷ s) || contains p s

unfoldable pub contains_byte : ℕ → Text → Bool
contains_byte c [] = false
contains_byte c (d ∷ s) = d == c || contains_byte c s

-- The white space of ASCII.
unfoldable pub is_space : ℕ → Bool
is_space c = c == 32 || within 9 13 c

unfoldable pub trim_start_by : (ℕ → Bool) → Text → Text
trim_start_by p [] = []
trim_start_by p (c ∷ s) = let rest = trim_start_by p s in if p c then rest else c ∷ s

-- Keeps a byte if something that is kept stands behind it.
abbrev pub keep_byte : (ℕ → Bool) → ℕ → Text → Text
keep_byte p c [] = if p c then [] else c ∷ []
keep_byte p c (d ∷ s) = c ∷ d ∷ s

unfoldable pub trim_end_by : (ℕ → Bool) → Text → Text
trim_end_by p [] = []
trim_end_by p (c ∷ s) = keep_byte p c (trim_end_by p s)

-- `char::is_whitespace` beyond ASCII, by the bytes of UTF-8.
unfoldable pub is_wide_space : ℕ → Text → Bool
is_wide_space c [] = false
is_wide_space c (d ∷ s) = c == 0xC2 && (d == 0x85 || d == 0xA0)

unfoldable pub is_wider_space : ℕ → Text → Bool
is_wider_space c [] = false
is_wider_space c (d ∷ []) = false
is_wider_space c (d ∷ e ∷ s) =
    (c == 0xE1 && (d == 0x9A && e == 0x80))
    || ((c == 0xE2 && (d == 0x80 && (within 0x80 0x8A e || (within 0xA8 0xA9 e || e == 0xAF))))
        || ((c == 0xE2 && (d == 0x81 && e == 0x9F)) || (c == 0xE3 && (d == 0x80 && e == 0x80))))

-- How many bytes the white-space character in front takes, if there is one.
unfoldable pub space_length : Text → ℕ
unfolding is_space is_wide_space is_wider_space
space_length [] = 0
space_length (c ∷ s) =
    if is_space c then 1 else if is_wide_space c s then 2 else if is_wider_space c s then 3 else 0

-- `k` bytes of a character are still to be passed over.
unfoldable pub trim_front : ℕ → Text → Text
unfolding space_length
trim_front k [] = []
trim_front (suc k) (c ∷ s) = trim_front k s
trim_front zero (c ∷ s) = elim (space_length (c ∷ s)) [ zero ↦ c ∷ s | suc k ↦ trim_front k s ]

-- `str::trim_start`, `trim_end` and `trim`.
unfoldable pub trim_start : Text → Text
unfolding trim_front
trim_start s = trim_front 0 s

unfoldable pub trim_end : Text → Text
unfolding trim_front
trim_end [] = []
trim_end (c ∷ s) =
    let rest = trim_end s in elim (trim_front 0 (c ∷ s)) [ [] ↦ [] | d ∷ kept ↦ c ∷ rest ]

unfoldable pub trim : Text → Text
unfolding trim_start trim_end
trim s = trim_end (trim_start s)

-- `format!("{n}")` of a number, with fuel for its digits.
decimal_from : ℕ → ℕ → Text
decimal_from zero n = []
decimal_from (suc f) n =
    let shorter = decimal_from f (n / 10) in
    if ltb n 10 then (48 + n) ∷ [] else shorter ++ (48 + n % 10) ∷ []

-- A number has at most as many digits as its value and one.
unfoldable pub decimal : ℕ → Text
unfolding decimal_from
decimal n = decimal_from (suc n) n

-- `[..].join(sep)`.
unfoldable pub join : Text → List Text → Text
join sep [] = []
join sep (s ∷ []) = s
join sep (s ∷ t ∷ more) = s ++ sep ++ join sep (t ∷ more)

-- `format!`: the pieces of the message, one after the other.
unfoldable pub format : List Text → Text
format [] = []
format (s ∷ more) = s ++ format more

-- `s.split_once(p)` at a text that is not empty, `s.rsplit_once(sep)` at a byte, and the two parts of
-- a text in front of the first such byte and from it on.
unfoldable pub split_once_text : Text → Text → Option (Text × Text)
unfolding strip_prefix
split_once_text p [] = none
split_once_text p (c ∷ s) =
    let later = split_once_text p s in
    elim (strip_prefix p (c ∷ s)) [
      | some rest ↦ some ([], rest)
      | none ↦ elim later [ none ↦ none | some kv ↦ some (c ∷ kv.0, kv.1) ]
    ]

unfoldable pub rsplit_once : ℕ → Text → Option (Text × Text)
rsplit_once sep [] = none
rsplit_once sep (c ∷ s) = elim (rsplit_once sep s) [
  | some kv ↦ some (c ∷ kv.0, kv.1)
  | none ↦ if c == sep then some ([], s) else none
]

unfoldable pub break_at : ℕ → Text → Text × Text
break_at sep [] = ([], [])
break_at sep (c ∷ s) =
    let later = break_at sep s in if c == sep then ([], c ∷ s) else (c ∷ later.0, later.1)

-- `s.parse::<u16>()` of digits: there is one at least, and the number fits.
u16_from : ℕ → Text → Option ℕ
u16_from acc [] = some acc
u16_from acc (c ∷ s) =
    let acc' = acc * 10 + (c - 48) in
    let rest = u16_from acc' s in if ltb acc' 65536 then rest else none

unfoldable pub parse_u16 : Text → Option ℕ
unfolding u16_from
parse_u16 [] = none
parse_u16 (c ∷ s) = u16_from 0 (c ∷ s)
