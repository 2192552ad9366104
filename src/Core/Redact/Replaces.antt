-- ===== src/Core/Redact/Replaces.antt =====
-- One replacement: what it removes, and what it cannot bring back.
use bot_marshal.Prelude.{
  ℕ, zero, suc, ◌-◌, Text, true, false, [], ◌∷◌, ◌++◌, ◌≡◌, ◌≢◌, refl, append_assoc, arith, ◌⊎◌,
  inl, inr, All, Bool-cases, or-eq-true, length, lit, contains, starts_with, ◌==◌,
}
use bot_marshal.Core.Redact.{placeholder, replace_from, replace}

-- A text with no byte of the placeholder's quotation marks, which is not part of its word.
pub record IsSecret (v : Text) : Type 0 where
  pub nonempty : v ≢ []
  pub unmarked : All (λ c. ((c == 0xC2) ≡ false) × ((c == 0xAB) ≡ false) × ((c == 0xBB) ≡ false)) v
  pub unlike : contains v (lit "redacted") ≡ false

-- A text without the byte `m` that begins what follows begins it before the first `m`.
starts_with-before :
    (m : ℕ) (v p t : Text)
    → All (λ c. (c == m) ≡ false) v
    → starts_with v (p ++ m ∷ t) ≡ true
    → starts_with v p ≡ true
unfolding starts_with
starts_with-before m [] p t h e = refl
starts_with-before m (a ∷ v) [] t h e = ground (arith, h.0)
starts_with-before m (a ∷ v) (c ∷ p) t h e = ground (arith, starts_with-before m v p t h.1)

contains-cons : (v : Text) (c : ℕ) (s : Text) → contains v s ≡ true → contains v (c ∷ s) ≡ true
unfolding contains
contains-cons v c s h = ground arith

contains-here :
    (v : Text) (c : ℕ) (s : Text) → starts_with v (c ∷ s) ≡ true → contains v (c ∷ s) ≡ true
unfolding contains
contains-here v c s h = rw h refl

contains-split :
    (v : Text) (c : ℕ) (s : Text)
    → contains v (c ∷ s) ≡ true
    → (starts_with v (c ∷ s) ≡ true) ⊎ (contains v s ≡ true)
unfolding contains
contains-split v c s h = or-eq-true _ _ h

contains-around :
    (m : ℕ) (v p t : Text)
    → All (λ c. (c == m) ≡ false) v
    → v ≢ []
    → contains v (p ++ m ∷ t) ≡ true
    → (contains v p ≡ true) ⊎ (contains v t ≡ true)
unfolding contains starts_with
contains-around m [] p t h n e = absurd (n refl)
contains-around m (a ∷ v) [] t h n e = elim (contains-split (a ∷ v) m t e) [
  | inl here ↦ ground (arith, h.0)
  | inr later ↦ inr later
]
contains-around m (a ∷ v) (c ∷ p) t h n e = elim (contains-split (a ∷ v) c (p ++ m ∷ t) e) [
  | inl here ↦ inl (ground (arith, starts_with-before m (a ∷ v) (c ∷ p) t h here))
  | inr later ↦ elim (contains-around m (a ∷ v) p t h n later) [
    | inl before ↦ inl (contains-cons (a ∷ v) c p before)
    | inr behind ↦ inr behind
  ]
]

All-map : {P Q : ℕ → Type 0} → ((c : ℕ) → P c → Q c) → (s : Text) → All P s → All Q s
All-map f [] h = tt
All-map f (c ∷ s) h = (f c h.0, All-map f s h.1)

module _ (v : Text) (secret : IsSecret v) where
  around :
      (m : ℕ) (p t : Text)
      → ((c : ℕ)
          → ((c == 0xC2) ≡ false) × ((c == 0xAB) ≡ false) × ((c == 0xBB) ≡ false)
          → (c == m) ≡ false)
      → contains v (p ++ m ∷ t) ≡ true
      → (contains v p ≡ true) ⊎ (contains v t ≡ true)
  around m p t pick = contains-around m v p t (All-map pick v secret.unmarked) secret.nonempty

  not-contains-nil : contains v [] ≡ true → ⊥
  unfolding contains starts_with
  not-contains-nil = go v secret.nonempty
    where
      go : (w : Text) → w ≢ [] → contains w [] ≡ true → ⊥
      go [] n e = n refl
      go (a ∷ w) n e = cc

  -- A secret in what follows a placeholder stands behind it.
  contains-placeholder : (t : Text) → contains v (placeholder ++ t) ≡ true → contains v t ≡ true
  unfolding placeholder
  contains-placeholder t e =
      elim (around 0xC2 [] (0xAB ∷ (lit "redacted" ++ 0xC2 ∷ 0xBB ∷ []) ++ t) (λ c h. h.0) e) [
        | inl nowhere ↦ absurd (not-contains-nil nowhere)
        | inr rest ↦
            elim (around 0xAB [] ((lit "redacted" ++ 0xC2 ∷ 0xBB ∷ []) ++ t) (λ c h. h.1) rest) [
              | inl nowhere ↦ absurd (not-contains-nil nowhere)
              | inr more ↦ behind_word (rw append_assoc at more)
            ]
      ]
    where
      behind_mark : contains v (0xBB ∷ t) ≡ true → contains v t ≡ true
      behind_mark h = elim (around 0xBB [] t (λ c k. k.2) h) [
        | inl nowhere ↦ absurd (not-contains-nil nowhere)
        | inr last ↦ last
      ]

      behind_word : contains v (lit "redacted" ++ 0xC2 ∷ 0xBB ∷ t) ≡ true → contains v t ≡ true
      behind_word h = elim (around 0xC2 (lit "redacted") (0xBB ∷ t) (λ c k. k.0) h) [
        | inl inside ↦ cc (secret.unlike)
        | inr last ↦ behind_mark last
      ]

  -- What begins with a secret after a replacement began with it before.
  starts_with-replace_from :
      (w u : Text) (s : Text)
      → All (λ c. (c == 0xC2) ≡ false) w
      → starts_with w (replace_from 0 u placeholder s) ≡ true
      → starts_with w s ≡ true
  unfolding starts_with replace_from placeholder
  starts_with-replace_from [] u s h e = refl
  starts_with-replace_from (a ∷ w) u [] h e = e
  starts_with-replace_from (a ∷ w) u (c ∷ s) h e = elim (Bool-cases (starts_with u (c ∷ s))) [
    | inl found ↦ let f = rw found at e in absurd (ground (arith, h.0))
    | inr passed ↦ let f = rw passed at e in ground (arith, starts_with-replace_from w u s h.1)
  ]

  -- No replacement brings a secret back that was not there.
  contains-replace_from :
      (skip : ℕ) (u s : Text)
      → contains v (replace_from skip u placeholder s) ≡ true
      → contains v s ≡ true
  unfolding replace_from
  contains-replace_from skip u [] e = e
  contains-replace_from (suc skip) u (c ∷ s) e =
      contains-cons v c s (contains-replace_from skip u s e)
  contains-replace_from zero u (c ∷ s) e = elim (Bool-cases (starts_with u (c ∷ s))) [
    | inl found ↦
        contains-cons v c s
          (contains-replace_from (length u - 1) u s (contains-placeholder _ (rw found at e)))
    | inr passed ↦ elim (contains-split v c (replace_from 0 u placeholder s) (rw passed at e)) [
      | inl here ↦ contains-here v c s (
          starts_with-replace_from v u (c ∷ s) (All-map (λ b h. h.0) v secret.unmarked)
            (rw passed here))
      | inr later ↦ contains-cons v c s (contains-replace_from 0 u s later)
    ]
  ]

  -- A replacement removes the secret that it is for.
  not-contains-replace_from :
      (skip : ℕ) (s : Text) → ¬ (contains v (replace_from skip v placeholder s) ≡ true)
  unfolding replace_from
  not-contains-replace_from skip [] e = not-contains-nil e
  not-contains-replace_from (suc skip) (c ∷ s) e = not-contains-replace_from skip s e
  not-contains-replace_from zero (c ∷ s) e = elim (Bool-cases (starts_with v (c ∷ s))) [
    | inl found ↦
        not-contains-replace_from (length v - 1) s (contains-placeholder _ (rw found at e))
    | inr passed ↦ elim (contains-split v c (replace_from 0 v placeholder s) (rw passed at e)) [
      | inl here ↦
          let again =
            starts_with-replace_from v v (c ∷ s) (All-map (λ b h. h.0) v secret.unmarked)
              (rw passed here) in
          cc (passed, again)
      | inr later ↦ not-contains-replace_from 0 s later
    ]
  ]

  pub contains-replace :
      (u s : Text) → contains v (replace u placeholder s) ≡ true → contains v s ≡ true
  unfolding replace
  contains-replace u s e = contains-replace_from 0 u s e

  pub not-contains-replace : (s : Text) → ¬ (contains v (replace v placeholder s) ≡ true)
  unfolding replace
  not-contains-replace s e = not-contains-replace_from 0 s e
