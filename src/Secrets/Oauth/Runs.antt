-- ===== src/Secrets/Oauth/Runs.antt =====
-- How actions compose: what they leave alone, and what a failure leaves alone.
use bot_marshal.Prelude.{Text, Result, ok, err, ◌≡◌, ◌≢◌, refl, sym, ◌∙◌, ◌⊎◌, inl, inr, ap}
use bot_marshal.Core.Error.{Error}
use bot_marshal.Secrets.Oauth.World.{
  Os, FilePath, ReadError, World, Fault, Io, continue, ◌>>=◌, perform,
}

pub Run-cases :
    {S A : Type 0} (p : Result Fault A × World S)
    → ((a : A) × (w : World S) × (p ≡ (ok a, w))) ⊎ ((e : Fault) × (w : World S) × (p ≡ (err e, w)))
Run-cases (ok a, w) = inl (a, w, refl)
Run-cases (err e, w) = inr (e, w, refl)

-- The state outside, of which a file is a part.
module _ {S : Type 0} (os : Os S) (q : FilePath) where
  abbrev pub content : World S → Result ReadError Text
  content w = os.read_to_string q w.outside

  -- The action leaves the store and the file as they are.
  pub record Quiet {A : Type 0} (m : Io S A) : Type 0 where
    pub store_same : (w : World S) → (m w).1.store ≡ w.store
    pub file_same : (w : World S) → content (m w).1 ≡ content w

  -- So does the action when it fails.
  pub record Atomic {A : Type 0} (m : Io S A) : Type 0 where
    pub store_kept : (w w' : World S) (e : Fault) → m w ≡ (err e, w') → w'.store ≡ w.store
    pub file_kept : (w w' : World S) (e : Fault) → m w ≡ (err e, w') → content w' ≡ content w

  pub Quiet-Atomic : {A : Type 0} (m : Io S A) → Quiet m → Atomic m
  Quiet-Atomic m h = record {
    store_kept = λ w w' e run. ap (λ p. p.1.store) (sym run) ∙ h.store_same w;
    file_kept = λ w w' e run. ap (λ p. content p.1) (sym run) ∙ h.file_same w;
  }

  pub bind-Quiet :
      {A B : Type 0} (m : Io S A) (f : A → Io S B)
      → Quiet m
      → ((a : A) → Quiet (f a))
      → Quiet (m >>= f)
  bind-Quiet m f h k = record {
    store_same = λ w. elim (Run-cases (m w)) [
      | inl (a, w1, run) ↦
          ap (λ p. (continue p f).1.store) run
          ∙ ((k a).store_same w1 ∙ (ap (λ p. p.1.store) (sym run) ∙ h.store_same w))
      | inr (e, w1, run) ↦
          ap (λ p. (continue p f).1.store) run ∙ (ap (λ p. p.1.store) (sym run) ∙ h.store_same w)
    ];
    file_same = λ w. elim (Run-cases (m w)) [
      | inl (a, w1, run) ↦
          ap (λ p. content (continue p f).1) run
          ∙ ((k a).file_same w1 ∙ (ap (λ p. content p.1) (sym run) ∙ h.file_same w))
      | inr (e, w1, run) ↦
          ap (λ p. content (continue p f).1) run ∙ (ap (λ p. content p.1) (sym run) ∙ h.file_same w)
    ];
  }

  same_error :
      {A B : Type 0} (x e : Fault) (w w' : World S)
      → ◌≡◌ {A = Result Fault B × World S} (err x, w) (err e, w')
      → ◌≡◌ {A = Result Fault A × World S} (err x, w) (err e, w')
  same_error x e w w' h = cc

  first_part :
      {A B : Type 0} (m : Io S A) (f : A → Io S B) (w w' : World S) (e : Fault)
      → (m >>= f) w ≡ (err e, w')
      → (((a : A) × (w1 : World S) × (m w ≡ (ok a, w1)) × (f a w1 ≡ (err e, w')))
          ⊎ (m w ≡ (err e, w')))
  first_part m f w w' e run = elim (Run-cases (m w)) [
    | inl (a, w1, r) ↦ inl (a, w1, r, (rw r at run))
    | inr (x, w1, r) ↦ inr (r ∙ same_error x e w1 w' (rw r at run))
  ]

  pub bind-Atomic :
      {A B : Type 0} (m : Io S A) (f : A → Io S B)
      → Quiet m
      → ((a : A) → Atomic (f a))
      → Atomic (m >>= f)
  bind-Atomic m f h k = record {
    store_kept = λ w w' e run. elim (first_part m f w w' e run) [
      | inl (a, w1, r, rest) ↦
          (k a).store_kept w1 w' e rest ∙ (ap (λ p. p.1.store) (sym r) ∙ h.store_same w)
      | inr r ↦ (Quiet-Atomic m h).store_kept w w' e r
    ];
    file_kept = λ w w' e run. elim (first_part m f w w' e run) [
      | inl (a, w1, r, rest) ↦
          (k a).file_kept w1 w' e rest ∙ (ap (λ p. content p.1) (sym r) ∙ h.file_same w)
      | inr r ↦ (Quiet-Atomic m h).file_kept w w' e r
    ];
  }

  -- What comes after is a step that cannot fail.
  pub bind_sure-Atomic :
      {A B : Type 0} (m : Io S A) (f : A → Io S B)
      → Atomic m
      → ((a : A) (w w' : World S) (e : Fault) → f a w ≢ (err e, w'))
      → Atomic (m >>= f)
  bind_sure-Atomic m f h sure = record {
    store_kept = λ w w' e run. elim (first_part m f w w' e run) [
      | inl (a, w1, r, rest) ↦ absurd (sure a w1 w' e rest)
      | inr r ↦ h.store_kept w w' e r
    ];
    file_kept = λ w w' e run. elim (first_part m f w w' e run) [
      | inl (a, w1, r, rest) ↦ absurd (sure a w1 w' e rest)
      | inr r ↦ h.file_kept w w' e r
    ];
  }

-- The first part of a run that ended well.
pub bind-eq-ok :
    {S A B : Type 0} (m : Io S A) (f : A → Io S B) (w w' : World S) (b : B)
    → (m >>= f) w ≡ (ok b, w')
    → (a : A) × (w1 : World S) × (m w ≡ (ok a, w1)) × (f a w1 ≡ (ok b, w'))
bind-eq-ok {S} {B} m f w w' b run = elim (Run-cases (m w)) [
  | inl (a, w1, r) ↦ (a, w1, r, (rw r at run))
  | inr (e, w1, r) ↦ absurd (never e w1 (rw r at run))
]
  where
    never : (e : Fault) (w1 : World S) → ◌≢◌ {A = Result Fault B × World S} (err e, w1) (ok b, w')
    never e w1 h = cc

pub perform-eq-ok :
    {S A : Type 0} (f : Text → Error) (op : S → Result Text A × S) (w w' : World S) (a : A)
    → perform f op w ≡ (ok a, w')
    → op w.outside ≡ (ok a, w'.outside)
perform-eq-ok {S} {A} f op w w' a run = go (op w.outside) refl run
  where
    go :
        (r : Result Text A × S)
        → op w.outside ≡ r
        → perform f (λ _. r) w ≡ (ok a, w')
        → op w.outside ≡ (ok a, w'.outside)
    go (ok b, s) did r = did ∙ cc (ap (λ p. p.0) r, ap (λ p. p.1.outside) r)
    go (err e, s) did r = cc
