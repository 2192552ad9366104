-- ===== src/Core/Redact/Removes.antt =====
-- What a redacted text no longer holds.
use bot_marshal.Prelude.{Text, true, false, List, [], ◌∷◌, ◌≡◌, inl, inr, Any, Bool-cases, contains}
use bot_marshal.Core.Redact.{Redactor, redact_all, redact}
use bot_marshal.Core.Redact.Replaces.{IsSecret, contains-replace, not-contains-replace}

abbrev pub Holds : Text → List Text → Type 0
Holds v vs = Any (λ w. w ≡ v) vs

-- Redacting by any values brings no secret back.
contains-redact_all :
    (v : Text)
    → IsSecret v
    → (vs : List Text) (s : Text) → contains v (redact_all vs s) ≡ true
    → contains v s ≡ true
unfolding redact_all
contains-redact_all v secret [] s e = e
contains-redact_all v secret (u ∷ vs) s e =
    let before = contains-redact_all v secret vs _ e in
    elim (Bool-cases (contains u s)) [
      | inl on ↦ contains-replace v secret u s (rw on at before)
      | inr off ↦ rw off at before
    ]

-- Redacting by values among which a secret stands leaves it nowhere.
pub redact_all-removes :
    (v : Text)
    → IsSecret v
    → (vs : List Text) (s : Text) → Holds v vs
    → ¬ (contains v (redact_all vs s) ≡ true)
unfolding redact_all
redact_all-removes v secret [] s h e = absurd h
redact_all-removes v secret (u ∷ vs) s (inr later) e = redact_all-removes v secret vs _ later e
redact_all-removes v secret (u ∷ vs) s (inl same) e =
    let before = contains-redact_all v secret vs _ e in
    elim (Bool-cases (contains u s)) [
      | inl on ↦ not-contains-replace v secret s (rw (on, same) at before)
      | inr off ↦
          let left = rw (off) at before in let clean = rw same at off in absurd (cc (left, clean))
    ]

-- A redacted text holds no value of the redactor's set.
pub redact-removes :
    (r : Redactor) (v s : Text) → IsSecret v → Holds v r.sorted → contains v (redact r s) ≡ false
unfolding redact
redact-removes r v s secret known = elim (Bool-cases (contains v (redact_all r.sorted s))) [
  | inl left ↦ absurd (redact_all-removes v secret r.sorted s known left)
  | inr clean ↦ clean
]
