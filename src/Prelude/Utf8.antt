-- ===== src/Prelude/Utf8.antt =====
-- UTF-8, as std::str::from_utf8 reads it.
use Prim.Native.Nat.{ℕ, zero, suc, ◌-◌, ◌≤◌}
use mathlib.Core.Bool.{Bool, ◌&&◌, ◌||◌}
use mathlib.Core.List.{List, [], ◌∷◌}
use native.Mathlib.Omega.{arith}
use bot_marshal.Prelude.Tests.{ltb, within, ◌==◌, if◌then◌else◌}
use bot_marshal.Prelude.Lists.{length}

abbrev continues : ℕ → Bool
continues c = within 0x80 0xBF c

-- How many bytes the first character has; 0 if no character stands there.
two : List ℕ → ℕ
two (c ∷ d ∷ s) = if within 0xC2 0xDF c && continues d then 2 else 0
two (c ∷ []) = 0
two [] = 0

three : List ℕ → ℕ
three (c ∷ d ∷ e ∷ s) =
    if continues e
      && ((c == 0xE0 && within 0xA0 0xBF d)
          || (((within 0xE1 0xEC c || within 0xEE 0xEF c) && continues d)
              || (c == 0xED && within 0x80 0x9F d)))
    then 3
    else 0
three (c ∷ d ∷ []) = 0
three (c ∷ []) = 0
three [] = 0

four : List ℕ → ℕ
four (c ∷ d ∷ e ∷ f ∷ s) =
    if continues e
      && (continues f
          && ((c == 0xF0 && within 0x90 0xBF d)
              || ((within 0xF1 0xF3 c && continues d) || (c == 0xF4 && within 0x80 0x8F d))))
    then 4
    else 0
four (c ∷ d ∷ e ∷ []) = 0
four (c ∷ d ∷ []) = 0
four (c ∷ []) = 0
four [] = 0

unfoldable pub char_width : List ℕ → ℕ
unfolding two three four
char_width [] = 0
char_width (c ∷ s) =
    if ltb c 0x80
    then 1
    else if ltb c 0xE0
    then two (c ∷ s)
    else if ltb c 0xF0
    then three (c ∷ s)
    else four (c ∷ s)

-- `skip` bytes of a character are still to be passed over.
unfoldable pub valid_from : ℕ → List ℕ → ℕ
unfolding char_width
valid_from skip [] = 0
valid_from (suc skip) (c ∷ s) = suc (valid_from skip s)
valid_from zero (c ∷ s) =
    let width = char_width (c ∷ s) in
    let more = suc (valid_from (width - 1) s) in if width == 0 then 0 else more

-- `Utf8Error::valid_up_to`, and the length of a text that is valid.
unfoldable pub valid_up_to : List ℕ → ℕ
unfolding valid_from
valid_up_to s = valid_from 0 s

unfoldable pub is_utf8 : List ℕ → Bool
unfolding valid_up_to
is_utf8 s = valid_up_to s == length s

valid_from-le : (skip : ℕ) (s : List ℕ) → valid_from skip s ≤ length s
unfolding valid_from
valid_from-le skip [] = omega arith
valid_from-le (suc skip) (c ∷ s) = omega (arith, valid_from-le skip s)
valid_from-le zero (c ∷ s) = ground (arith, valid_from-le (char_width (c ∷ s) - 1) s)

pub valid_up_to-le : (s : List ℕ) → valid_up_to s ≤ length s
unfolding valid_up_to
valid_up_to-le s = valid_from-le 0 s
