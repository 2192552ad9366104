-- ===== src/Policy/Headers/Globs.antt =====
-- What a header pattern matches.
use bot_marshal.Prelude.{
  ℕ, Text, Bool, true, [], ◌∷◌, ◌++◌, ◌≡◌, ◌≢◌, refl, ap, arith, ◌↔◌, ◌⊎◌, inl, inr, lower,
  Bool-cases, or-eq-true, and-eq-true, ==_iff, ◌==◌,
}
use bot_marshal.Policy.Headers.{star, literal, header_glob_matches}

-- A star stands for any run of characters, and any other character for itself in either case.
pub Matches : Text → Text → Type 0
Matches [] s = s ≡ []
Matches (c ∷ p) s =
    ((c ≡ b'*') × ((run rest : Text) × (s ≡ run ++ rest) × Matches p rest))
    ⊎ ((c ≢ b'*')
        × ((d : ℕ) × (rest : Text) × (s ≡ d ∷ rest) × (lower c ≡ lower d) × Matches p rest))

star_to :
    (f : Text → Bool) (s : Text)
    → star f s ≡ true
    → (run rest : Text) × (s ≡ run ++ rest) × (f rest ≡ true)
unfolding star
star_to f [] h = ([], [], refl, h)
star_to f (d ∷ s) h = elim (or-eq-true (f (d ∷ s)) (star f s) h) [
  | inl here ↦ ([], d ∷ s, refl, here)
  | inr later ↦
      let (run, rest, e, g) = star_to f s later in (d ∷ run, rest, ap (λ (l : Text). d ∷ l) e, g)
]

star_at : (f : Text → Bool) (rest : Text) → f rest ≡ true → star f rest ≡ true
unfolding star
star_at f [] h = h
star_at f (d ∷ s) h = rw h refl

star_from : (f : Text → Bool) (run rest : Text) → f rest ≡ true → star f (run ++ rest) ≡ true
unfolding star
star_from f [] rest h = star_at f rest h
star_from f (d ∷ run) rest h = ground (arith, star_from f run rest h)

literal_to :
    (c : ℕ) (f : Text → Bool) (s : Text)
    → literal c f s ≡ true
    → (d : ℕ) × (rest : Text) × (s ≡ d ∷ rest) × (lower c ≡ lower d) × (f rest ≡ true)
unfolding literal
literal_to c f [] h = cc
literal_to c f (d ∷ s) h =
    let (same, rest) = and-eq-true (lower c == lower d) (f s) h in
    (d, s, refl, (==_iff (lower c) (lower d)).0 same, rest)

-- A pattern matches a header name exactly when the name is the pattern with each star replaced by a
-- run of characters and each other character by itself in either case.
pub header_glob_matches_iff :
    (pattern name : Text) → (header_glob_matches pattern name ≡ true) ↔ Matches pattern name
unfolding header_glob_matches Matches literal
header_glob_matches_iff [] [] = (λ h. refl, λ h. refl)
header_glob_matches_iff [] (d ∷ s) = (λ h. cc, λ h. cc)
header_glob_matches_iff (c ∷ p) s = elim (Bool-cases (c == b'*')) [
  | inl wild ↦ rw wild (
    λ h.
        let (run, rest, e, g) = star_to (header_glob_matches p) s h in
        inl ((==_iff c b'*').0 wild, (run, rest, e, (header_glob_matches_iff p rest).0 g)),
    λ m. elim m [
      | inl w ↦
          let (run, rest, e, g) = w.1 in
          rw e (star_from (header_glob_matches p) run rest ((header_glob_matches_iff p rest).1 g))
      | inr l ↦ absurd (l.0 ((==_iff c b'*').0 wild))
    ],
  )
  | inr plain ↦ rw plain (
    λ h.
        let (d, rest, e, same, g) = literal_to c (header_glob_matches p) s h in
        inr (ground (arith), (d, rest, e, same, (header_glob_matches_iff p rest).0 g)),
    λ m. elim m [
      | inl w ↦ absurd (ground (arith, w.0))
      | inr l ↦
          let (d, rest, e, same, g) = l.1 in
          rw e (ground (arith, same, (header_glob_matches_iff p rest).1 g))
    ],
  )
]
