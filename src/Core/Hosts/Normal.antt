-- ===== src/Core/Hosts/Normal.antt =====
-- The normal form of a host name: letter case and trailing dots do not matter.
use bot_marshal.Prelude.{
  ℕ, zero, suc, Text, Bool, true, false, [], ◌∷◌, ◌++◌, ◌≡◌, refl, sym, ap, ◌∙◌, arith, All, map,
  ◌<◌, ◌≤◌, within, lower, is_space, is_wide_space, is_wider_space, space_length, trim_front,
  trim_start, trim_end, trim, keep_byte, trim_end_by, to_ascii_lowercase, eq_ignore_ascii_case,
  text_eq_iff, ◌==◌,
}
use bot_marshal.Core.Hosts.{NetLib, HostMatcher, normalise, match_host, matches}

abbrev pub dots : ℕ → Text
dots zero = []
dots (suc n) = b'.' ∷ dots n

-- A byte of ASCII that is no white space.
abbrev pub IsPlain : ℕ → Type 0
IsPlain c = (is_space c ≡ false) × (c < 128)

abbrev pub HasNoSpace : Text → Type 0
HasNoSpace = All IsPlain

abbrev is_dot : ℕ → Bool
is_dot c = c == b'.'

is_wide_space-plain : (c : ℕ) (s : Text) → c < 128 → is_wide_space c s ≡ false
unfolding is_wide_space
is_wide_space-plain c [] h = refl
is_wide_space-plain c (d ∷ s) h = ground (arith, h)

is_wider_space-plain : (c : ℕ) (s : Text) → c < 128 → is_wider_space c s ≡ false
unfolding is_wider_space
is_wider_space-plain c [] h = refl
is_wider_space-plain c (d ∷ []) h = refl
is_wider_space-plain c (d ∷ e ∷ s) h = ground (arith, h)

space_length-plain : (c : ℕ) (s : Text) → IsPlain c → space_length (c ∷ s) ≡ 0
unfolding space_length
space_length-plain c s h = rw (h.0, is_wide_space-plain c s h.1, is_wider_space-plain c s h.1) refl

trim_front-plain : (c : ℕ) (s : Text) → IsPlain c → trim_front 0 (c ∷ s) ≡ c ∷ s
unfolding trim_front
trim_front-plain c s h = rw (space_length-plain c s h, trim_front) refl

trim_end-HasNoSpace : (s : Text) → HasNoSpace s → trim_end s ≡ s
unfolding trim_end
trim_end-HasNoSpace [] h = refl
trim_end-HasNoSpace (c ∷ s) h =
    rw (trim_front-plain c s h.0, trim_end) (ap (λ (t : Text). c ∷ t) (trim_end-HasNoSpace s h.1))

trim-HasNoSpace : (s : Text) → HasNoSpace s → trim s ≡ s
unfolding trim trim_start
trim-HasNoSpace [] h = refl
trim-HasNoSpace (c ∷ s) h = rw (trim_front-plain c s h.0) (trim_end-HasNoSpace (c ∷ s) h)

HasNoSpace-dots : (s : Text) (n : ℕ) → HasNoSpace s → HasNoSpace (s ++ dots n)
unfolding is_space
HasNoSpace-dots [] zero h = tt
HasNoSpace-dots [] (suc n) h = ((refl, omega arith), HasNoSpace-dots [] n h)
HasNoSpace-dots (c ∷ s) n h = (h.0, HasNoSpace-dots s n h.1)

trim_end_by-dots : (s : Text) (n : ℕ) → trim_end_by is_dot (s ++ dots n) ≡ trim_end_by is_dot s
unfolding trim_end_by
trim_end_by-dots [] zero = refl
trim_end_by-dots [] (suc n) = rw (trim_end_by-dots [] n) refl
trim_end_by-dots (c ∷ s) n = rw (trim_end_by-dots s n) refl

is_dot-lower : (c : ℕ) → is_dot (lower c) ≡ is_dot c
unfolding lower
is_dot-lower c = ground arith

is_space-lower : (c : ℕ) → is_space (lower c) ≡ is_space c
unfolding lower is_space
is_space-lower c = ground arith

lower_idem : (c : ℕ) → lower (lower c) ≡ lower c
unfolding lower
lower_idem c = ground arith

is_wide_space-lower : (c : ℕ) (s : Text) → is_wide_space (lower c) (map lower s) ≡ is_wide_space c s
unfolding is_wide_space lower
is_wide_space-lower c [] = refl
is_wide_space-lower c (d ∷ s) = ground arith

high_lower : (c k : ℕ) → 128 ≤ k → (lower c == k) ≡ (c == k)
unfolding lower
high_lower c k h = ground arith

within-lower : (a b c : ℕ) → 128 ≤ a → within a b (lower c) ≡ within a b c
unfolding lower
within-lower a b c h = ground arith

is_wider_space-lower :
    (c : ℕ) (s : Text) → is_wider_space (lower c) (map lower s) ≡ is_wider_space c s
unfolding is_wider_space
is_wider_space-lower c [] = refl
is_wider_space-lower c (d ∷ []) = refl
is_wider_space-lower c (d ∷ e ∷ s) =
    rw
      (
        high_lower c 0xE1 (omega arith),
        high_lower c 0xE2 (omega arith),
        high_lower c 0xE3 (omega arith),
        high_lower d 0x9A (omega arith),
        high_lower d 0x80 (omega arith),
        high_lower d 0x81 (omega arith),
        high_lower e 0x80 (omega arith),
        high_lower e 0xAF (omega arith),
        high_lower e 0x9F (omega arith),
        within-lower 0x80 0x8A e (omega arith),
        within-lower 0xA8 0xA9 e (omega arith),
      )
      refl

space_length-lower : (s : Text) → space_length (map lower s) ≡ space_length s
unfolding space_length
space_length-lower [] = refl
space_length-lower (c ∷ s) =
    rw (is_space-lower c, is_wide_space-lower c s, is_wider_space-lower c s) refl

trim_front-lower_step :
    (c : ℕ) (s : Text) (n : ℕ)
    → space_length (c ∷ s) ≡ n
    → ((k : ℕ) → trim_front k (map lower s) ≡ map lower (trim_front k s))
    → trim_front 0 (map lower (c ∷ s)) ≡ map lower (trim_front 0 (c ∷ s))
unfolding trim_front
trim_front-lower_step c s zero e later = rw (space_length-lower (c ∷ s), e, trim_front) refl
trim_front-lower_step c s (suc k) e later = rw (space_length-lower (c ∷ s), e, trim_front) (later k)

trim_front-lower : (k : ℕ) (s : Text) → trim_front k (map lower s) ≡ map lower (trim_front k s)
unfolding trim_front
trim_front-lower k [] = refl
trim_front-lower (suc k) (c ∷ s) = trim_front-lower k s
trim_front-lower zero (c ∷ s) =
    trim_front-lower_step c s (space_length (c ∷ s)) refl (λ k. trim_front-lower k s)

trim_end-lower_step :
    (c : ℕ) (s t : Text)
    → trim_front 0 (c ∷ s) ≡ t
    → trim_end (map lower s) ≡ map lower (trim_end s)
    → trim_end (map lower (c ∷ s)) ≡ map lower (trim_end (c ∷ s))
unfolding trim_end
trim_end-lower_step c s [] e later = rw (trim_front-lower 0 (c ∷ s), e, trim_end) refl
trim_end-lower_step c s (d ∷ t) e later =
    rw (trim_front-lower 0 (c ∷ s), e, trim_end) (ap (λ (u : Text). lower c ∷ u) later)

trim_end-lower : (s : Text) → trim_end (map lower s) ≡ map lower (trim_end s)
unfolding trim_end
trim_end-lower [] = refl
trim_end-lower (c ∷ s) = trim_end-lower_step c s (trim_front 0 (c ∷ s)) refl (trim_end-lower s)

module _ (p : ℕ → Bool) (same : (c : ℕ) → p (lower c) ≡ p c) where
  keep_byte-lower :
      (c : ℕ) (s : Text) → keep_byte p (lower c) (map lower s) ≡ map lower (keep_byte p c s)
  keep_byte-lower c [] = ground (arith, same c)
  keep_byte-lower c (d ∷ s) = refl

  trim_end_by-lower : (s : Text) → trim_end_by p (map lower s) ≡ map lower (trim_end_by p s)
  unfolding trim_end_by
  trim_end_by-lower [] = refl
  trim_end_by-lower (c ∷ s) = rw (trim_end_by-lower s) (keep_byte-lower c (trim_end_by p s))

map-lower_idem : (s : Text) → map lower (map lower s) ≡ map lower s
map-lower_idem [] = refl
map-lower_idem (c ∷ s) = cc (lower_idem c, map-lower_idem s)

normalise-lowercase : (s : Text) → normalise (to_ascii_lowercase s) ≡ normalise s
unfolding normalise to_ascii_lowercase trim trim_start
normalise-lowercase s =
    rw
      (
        trim_front-lower 0 s,
        trim_end-lower (trim_front 0 s),
        trim_end_by-lower is_dot is_dot-lower (trim_end (trim_front 0 s)),
      )
      (map-lower_idem _)

normalise-dots : (s : Text) (n : ℕ) → HasNoSpace s → normalise (s ++ dots n) ≡ normalise s
unfolding normalise
normalise-dots s n h =
    rw
      (
        trim-HasNoSpace s h,
        trim-HasNoSpace (s ++ dots n) (HasNoSpace-dots s n h),
        trim_end_by-dots s n,
      )
      refl

normalise-eq_case : (s t : Text) → eq_ignore_ascii_case s t ≡ true → normalise s ≡ normalise t
unfolding eq_ignore_ascii_case
normalise-eq_case s t e =
    sym (normalise-lowercase s)
    ∙ ap normalise ((text_eq_iff (to_ascii_lowercase s) (to_ascii_lowercase t)).0 e)
    ∙ normalise-lowercase t

-- Two spellings of a host that differ in letter case, and in how many dots follow the first, get one
-- answer, if the first is of ASCII and holds no white space.
pub matches_spelling :
    (net : NetLib) (m : HostMatcher net.Net) (s t : Text) (n : ℕ)
    → HasNoSpace s
    → eq_ignore_ascii_case s t ≡ true
    → matches net m (s ++ dots n) ≡ matches net m t
unfolding matches
matches_spelling net m s t n h e =
    ap (match_host net m) (normalise-dots s n h ∙ normalise-eq_case s t e)
