-- ===== src/Policy/Headers/Filters.antt =====
-- What the header filter leaves.
use bot_marshal.Prelude.{
  ℕ, Text, Bool, true, not, ◌&&◌, List, [], ◌∷◌, ◌≡◌, refl, sym, ◌∙◌, arith, keep, any, text_eq,
  text_eq_iff, text_eq_refl, Bool-cases, inl, inr,
}
use bot_marshal.Core.Request.{header_keys}
use bot_marshal.Core.HeaderMap.{remove}
use bot_marshal.Policy.Headers.{HeaderFilterMode, drops, remove_all, header_filter_apply}

abbrev among : List Text → Text → Bool
among names name = any (λ n. text_eq name n) names

keep-keep :
    {A : Type 0} (p q : A → Bool) (xs : List A) → keep q (keep p xs) ≡ keep (λ x. p x && q x) xs
keep-keep p q [] = refl
keep-keep p q (x ∷ xs) = ground (arith, keep-keep p q xs)

keep-cong :
    {A : Type 0} (p q : A → Bool) → ((x : A) → p x ≡ q x) → (xs : List A) → keep p xs ≡ keep q xs
keep-cong p q e [] = refl
keep-cong p q e (x ∷ xs) = rw (e x, keep-cong p q e xs) refl

keep-all : {A : Type 0} (p : A → Bool) → ((x : A) → p x ≡ true) → (xs : List A) → keep p xs ≡ xs
keep-all p e [] = refl
keep-all p e (x ∷ xs) = rw (e x, keep-all p e xs) refl

remove_all-among :
    (names : List Text) (headers : List (Text × List ℕ))
    → remove_all names headers ≡ keep (λ h. not (among names h.0)) headers
remove_all-among [] headers = sym (keep-all (λ h. true) (λ h. refl) headers)
remove_all-among (n ∷ names) headers =
    remove_all-among names (remove n headers)
    ∙ (keep-keep (λ h. not (text_eq h.0 n)) (λ h. not (among names h.0)) headers
        ∙ keep-cong _ _ (λ h. ground arith) headers)

among-keep :
    (p : Text → Bool) (names : List Text) (name : Text)
    → among (keep p names) name ≡ (among names name && p name)
among-keep p [] name = refl
among-keep p (n ∷ names) name = elim (Bool-cases (text_eq name n)) [
  | inl same ↦
      let e : name ≡ n = (text_eq_iff name n).0 same in
      rw e (ground (arith, among-keep p names n, text_eq_refl n))
  | inr other ↦ ground (arith, among-keep p names name)
]

text_eq_comm : (s t : Text) → text_eq s t ≡ text_eq t s
text_eq_comm s t = ground (arith, text_eq_iff s t, text_eq_iff t s)

-- The keys of a header map name each of its entries.
among-header_keys :
    (h : Text × List ℕ) (headers : List (Text × List ℕ)) (name : Text)
    → among (header_keys headers) name ≡ true
    → among (header_keys (h ∷ headers)) name ≡ true
unfolding header_keys
among-header_keys (n, v) headers name e =
    ground (arith, among-keep (λ o. not (text_eq o n)) (header_keys headers) name)

among-head :
    (n : Text) (v : List ℕ) (headers : List (Text × List ℕ))
    → among (header_keys ((n, v) ∷ headers)) n ≡ true
unfolding header_keys
among-head n v headers = rw (text_eq_refl n) refl

keep-names :
    (p q : Text → Bool) (names : List Text)
    → ((n : Text) → among names n ≡ true → p n ≡ q n)
    → (headers : List (Text × List ℕ))
    → ((n : Text) → among (header_keys headers) n ≡ true → among names n ≡ true)
    → keep (λ h. p h.0) headers ≡ keep (λ h. q h.0) headers
keep-names p q names e [] inside = refl
keep-names p q names e ((n, v) ∷ headers) inside =
    let first : p n ≡ q n = e n (inside n (among-head n v headers)) in
    let rest =
      keep-names p q names e headers
        (λ m found. inside m (among-header_keys (n, v) headers m found)) in
    rw (first, rest) refl

-- The filter keeps exactly the entries whose name it does not drop, with their values and order.
pub header_filter_apply_lem :
    (is_managed : Text → Bool) (mode : HeaderFilterMode) (headers : List (Text × List ℕ))
    → header_filter_apply is_managed mode headers
      ≡ keep (λ h. not (drops is_managed mode h.0)) headers
unfolding header_filter_apply
header_filter_apply_lem is_managed mode headers =
    let p = drops is_managed mode in
    let keys = header_keys headers in
    remove_all-among (keep p keys) headers
    ∙ keep-names (λ n. not (among (keep p keys) n)) (λ n. not (p n)) keys
        (λ n found. ground (arith, among-keep p keys n)) headers (λ n found. found)
