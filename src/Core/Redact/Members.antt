-- ===== src/Core/Redact/Members.antt =====
-- The values that the sets, the sorted list and the rings of a redactor hold.
use bot_marshal.Prelude.{
  Text, List, [], ◌∷◌, ◌++◌, ◌≡◌, ◌∙◌, ◌⊎◌, inl, inr, Bool-cases, length, text_eq, text_eq_iff,
  text_lt, leb,
}
use bot_marshal.Core.Evidence.{set_insert}
use bot_marshal.Core.Redact.{set_of, sort_longest, insert_longest}
use bot_marshal.Core.Redact.Removes.{Holds}

pub Holds-append_left : (v : Text) (vs ws : List Text) → Holds v vs → Holds v (vs ++ ws)
Holds-append_left v [] ws h = absurd h
Holds-append_left v (u ∷ vs) ws (inl e) = inl e
Holds-append_left v (u ∷ vs) ws (inr h) = inr (Holds-append_left v vs ws h)

pub Holds-append_right : (v : Text) (vs ws : List Text) → Holds v ws → Holds v (vs ++ ws)
Holds-append_right v [] ws h = h
Holds-append_right v (u ∷ vs) ws h = inr (Holds-append_right v vs ws h)

pub Holds-append : (v : Text) (vs ws : List Text) → Holds v (vs ++ ws) → Holds v vs ⊎ Holds v ws
Holds-append v [] ws h = inr h
Holds-append v (u ∷ vs) ws (inl e) = inl (inl e)
Holds-append v (u ∷ vs) ws (inr h) = elim (Holds-append v vs ws h) [
  | inl k ↦ inl (inr k)
  | inr k ↦ inr k
]

pub Holds-set_insert :
    (v u : Text) (vs : List Text) → (u ≡ v) ⊎ Holds v vs → Holds v (set_insert u vs)
unfolding set_insert
Holds-set_insert v u [] h = h
Holds-set_insert v u (w ∷ vs) h = elim (Bool-cases (text_eq w u)) [
  | inl same ↦ rw same (elim h [ inl e ↦ inl ((text_eq_iff w u).0 same ∙ e) | inr k ↦ k ])
  | inr other ↦ elim (Bool-cases (text_lt u w)) [
    | inl first ↦ rw (other, first) h
    | inr later ↦
        rw (other, later)
          (elim h [
            | inl e ↦ inr (Holds-set_insert v u vs (inl e))
            | inr (inl e) ↦ inl e
            | inr (inr k) ↦ inr (Holds-set_insert v u vs (inr k))
          ])
  ]
]

pub Holds-set_of : (v : Text) (vs : List Text) → Holds v vs → Holds v (set_of vs)
unfolding set_of
Holds-set_of v [] h = h
Holds-set_of v (u ∷ vs) (inl e) = Holds-set_insert v u (set_of vs) (inl e)
Holds-set_of v (u ∷ vs) (inr h) = Holds-set_insert v u (set_of vs) (inr (Holds-set_of v vs h))

pub Holds-insert_longest :
    (v u : Text) (vs : List Text) → (u ≡ v) ⊎ Holds v vs → Holds v (insert_longest u vs)
unfolding insert_longest
Holds-insert_longest v u [] h = h
Holds-insert_longest v u (w ∷ vs) h = elim (Bool-cases (leb (length w) (length u))) [
  | inl on ↦ rw on h
  | inr off ↦ rw off (elim h [
    | inl e ↦ inr (Holds-insert_longest v u vs (inl e))
    | inr (inl e) ↦ inl e
    | inr (inr k) ↦ inr (Holds-insert_longest v u vs (inr k))
  ])
]

pub Holds-sort_longest : (v : Text) (vs : List Text) → Holds v vs → Holds v (sort_longest vs)
unfolding sort_longest
Holds-sort_longest v [] h = h
Holds-sort_longest v (u ∷ vs) (inl e) = Holds-insert_longest v u (sort_longest vs) (inl e)
Holds-sort_longest v (u ∷ vs) (inr h) =
    Holds-insert_longest v u (sort_longest vs) (inr (Holds-sort_longest v vs h))
