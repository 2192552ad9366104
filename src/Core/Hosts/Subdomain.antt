-- ===== src/Core/Hosts/Subdomain.antt =====
-- The label test of a wildcard pattern.
use bot_marshal.Prelude.{
  ℕ, zero, suc, ◌+◌, ◌-◌, Text, Option, none, some, true, [], ◌∷◌, ◌++◌, ◌≡◌, refl, ap, ◌∙◌, ◌↔◌,
  arith, length, length-append, drop, take, get_elem?, text_eq_iff, and-eq-true,
}
use bot_marshal.Core.Hosts.{is_strict_subdomain, byte_is}

drop-dot : (l r : Text) (c : ℕ) → drop (suc (length l)) (l ++ c ∷ r) ≡ r
drop-dot [] r c = refl
drop-dot (d ∷ l) r c = drop-dot l r c

-- The byte at an index in range, and what is dropped there.
get_elem?-append : (l r : Text) (c : ℕ) → get_elem? (l ++ c ∷ r) (length l) ≡ some c
get_elem?-append [] r c = refl
get_elem?-append (d ∷ l) r c = get_elem?-append l r c

split_at : (s : Text) (n : ℕ) (c : ℕ) → get_elem? s n ≡ some c → s ≡ take n s ++ c ∷ drop (suc n) s
split_at [] n c h = cc
split_at (d ∷ s) zero c h = ground arith
split_at (d ∷ s) (suc n) c h = ap (λ (l : Text). d ∷ l) (split_at s n c h)

byte_is-eq : (b : ℕ) (o : Option ℕ) → byte_is b o ≡ true → o ≡ some b
byte_is-eq b none h = cc
byte_is-eq b (some c) h = ground arith

subdomain_to :
    (host base : Text)
    → is_strict_subdomain host base ≡ true
    → (labels : Text) × (host ≡ labels ++ b'.' ∷ base)
unfolding is_strict_subdomain
subdomain_to host base h =
    let n = length host - length base - 1 in
    let gap : length host - length base ≡ suc n = ground arith in
    let (longer, rest) = and-eq-true _ _ h in
    let (ends, dot) = and-eq-true _ _ rest in
    let (fits, tail) = and-eq-true _ _ ends in
    let same : drop (suc n) host ≡ base = rw (← gap) ((text_eq_iff _ _).0 tail) in
    (
      take n host,
      split_at host n b'.' (byte_is-eq _ _ dot) ∙ ap (λ (r : Text). take n host ++ b'.' ∷ r) same,
    )

subdomain_from : (labels base : Text) → is_strict_subdomain (labels ++ b'.' ∷ base) base ≡ true
unfolding is_strict_subdomain
subdomain_from labels base =
    let host : Text = labels ++ b'.' ∷ base in
    let size : length host ≡ length labels + suc (length base) =
      length-append labels (b'.' ∷ base) in
    let at : length host - length base - 1 ≡ length labels = omega arith in
    let cut : length host - length base ≡ suc (length labels) = omega arith in
    rw (at, cut)
      (rw (get_elem?-append labels base b'.', drop-dot labels base b'.')
        (ground (arith, text_eq_iff base base)))

-- A host is a subdomain of `base` exactly when it is some labels, a dot and `base`.
pub is_strict_subdomain_iff :
    (host base : Text)
    → (is_strict_subdomain host base ≡ true) ↔ ((labels : Text) × (host ≡ labels ++ b'.' ∷ base))
is_strict_subdomain_iff host base = (subdomain_to host base, λ t. rw t.1 (subdomain_from t.0 base))
