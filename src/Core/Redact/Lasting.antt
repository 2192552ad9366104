-- ===== src/Core/Redact/Lasting.antt =====
-- How long a learned value is redacted: while no more than three values were learned after it.
use bot_marshal.Prelude.{
  ℕ, suc, ◌+◌, ◌≤◌, ◌<◌, Text, true, false, List, [], ◌∷◌, ◌++◌, ◌≡◌, refl, sym, ap, subst, ◌∙◌,
  arith, inl, inr, append_assoc, Bool-cases, any, contains, length, text_eq, text_eq_iff,
  text_eq_refl, text_lt, ltb,
}
use bot_marshal.Core.Redact.{
  Redactor, Rings, redact, learn, min_length, learned_per_label, rebuild, ring_of, put_ring, evict,
}
use bot_marshal.Core.Redact.Replaces.{IsSecret}
use bot_marshal.Core.Redact.Removes.{Holds, redact-removes}
use bot_marshal.Core.Redact.Members.{Holds-append_right}
use bot_marshal.Core.Redact.Rings.{IsSound, learn-IsSound, Holds-ring_of}

-- Values that are learned one after the other, each under its label.
pub learn_all : List (Text × Text) → Redactor → Redactor
learn_all [] r = r
learn_all ((label, value) ∷ more) r = learn_all more (learn label value r)

-- The value stands in its label's ring with at most `k` values behind it.
pub record IsBehind (label value : Text) (k : ℕ) (r : Redactor) : Type 0 where
  pub before : List Text
  pub behind : List Text
  pub ring : ring_of label r.learned ≡ before ++ value ∷ behind
  pub few : length behind ≤ k

ring_of-put_ring :
    (label : Text) (ring : List Text) (rings : Rings)
    → ring_of label (put_ring label ring rings) ≡ ring
unfolding ring_of put_ring
ring_of-put_ring label ring [] = rw (text_eq_refl label) refl
ring_of-put_ring label ring ((l, old) ∷ rings) = elim (Bool-cases (text_eq l label)) [
  | inl same ↦ rw same (rw same refl)
  | inr other ↦ elim (Bool-cases (text_lt label l)) [
    | inl first ↦ rw (other, first) (rw (text_eq_refl label) refl)
    | inr later ↦ rw (other, later) (rw (other, ring_of) (ring_of-put_ring label ring rings))
  ]
]

both_labels :
    (l label q : Text) → text_eq l label ≡ true → text_eq label q ≡ false → text_eq l q ≡ false
both_labels l label q same apart = let e : l ≡ label = (text_eq_iff l label).0 same in rw e apart

ring_of-put_ring_other :
    (q label : Text) (ring : List Text) (rings : Rings)
    → text_eq label q ≡ false
    → ring_of q (put_ring label ring rings) ≡ ring_of q rings
unfolding ring_of put_ring
ring_of-put_ring_other q label ring [] apart = rw apart refl
ring_of-put_ring_other q label ring ((l, old) ∷ rings) apart = elim (Bool-cases (text_eq l label)) [
  | inl same ↦ rw (same, ring_of, both_labels l label q same apart) refl
  | inr other ↦ elim (Bool-cases (text_lt label l)) [
    | inl first ↦ rw (other, first) (rw (apart, ring_of) refl)
    | inr later ↦
        let ih = ring_of-put_ring_other q label ring rings apart in
        rw (other, later)
          (elim (Bool-cases (text_eq l q)) [
            | inl mine ↦ rw (mine, ring_of) refl
            | inr apart_too ↦ rw (apart_too, ring_of) ih
          ])
  ]
]

length-append : (vs ws : List Text) → length (vs ++ ws) ≡ length vs + length ws
length-append [] ws = omega arith
length-append (v ∷ vs) ws = omega (arith, length-append vs ws)

evict-short : (ring : List Text) → length ring ≤ learned_per_label → evict ring ≡ ring
unfolding evict
evict-short [] few = refl
evict-short (v ∷ ring) few = elim (Bool-cases (ltb learned_per_label (length (v ∷ ring)))) [
  | inl full ↦ absurd (ground (arith, few, full))
  | inr fits ↦ rw (fits, evict) refl
]

-- What is dropped is dropped in front.
evict-suffix :
    (before last : List Text)
    → length last ≤ learned_per_label
    → (kept : List Text) × (evict (before ++ last) ≡ kept ++ last)
unfolding evict
evict-suffix [] last few = ([], evict-short last few)
evict-suffix (v ∷ before) last few =
    let (kept, e) = evict-suffix before last few in
    elim (Bool-cases (ltb learned_per_label (length (v ∷ before ++ last)))) [
      | inl full ↦ (kept, rw (full, evict) e)
      | inr fits ↦ (v ∷ before, rw (fits, evict) refl)
    ]

-- A value that is new to its ring stands last in it.
pub learn-IsBehind :
    (label value : Text) (r : Redactor)
    → min_length ≤ length value
    → any (λ v. text_eq v value) (ring_of label r.learned) ≡ false
    → IsBehind label value 0 (learn label value r)
unfolding learn rebuild
learn-IsBehind label value r enough fresh = elim (Bool-cases (ltb (length value) min_length)) [
  | inl short ↦ absurd (ground (arith, enough, short))
  | inr long ↦
      let (kept, e) = evict-suffix (ring_of label r.learned) (value ∷ []) (omega arith) in
      rw (long, fresh)
        (record {
          before = kept;
          behind = [];
          ring = ring_of-put_ring label _ r.learned ∙ e;
          few = omega arith;
        })
]

-- A ring that is written as it was leaves every ring as it was.
put_ring-same :
    (label l : Text) (rings : Rings)
    → ring_of label (put_ring l (ring_of l rings) rings) ≡ ring_of label rings
put_ring-same label l rings = elim (Bool-cases (text_eq l label)) [
  | inl same ↦
      let e : l ≡ label = (text_eq_iff l label).0 same in
      subst (λ q. ring_of q (put_ring l (ring_of l rings) rings) ≡ ring_of q rings) e
        (ring_of-put_ring l (ring_of l rings) rings)
  | inr apart ↦ ring_of-put_ring_other label l (ring_of l rings) rings apart
]

module _ (label value u : Text) (k : ℕ) (r : Redactor) where
  -- The redactor with another value in the ring of `l`.
  abbrev taught : Text → Redactor
  taught l =
      rebuild (record r { learned = put_ring l (evict (ring_of l r.learned ++ u ∷ [])) r.learned })

  taught-same : k < 3 → IsBehind label value k r → IsBehind label value (suc k) (taught label)
  unfolding rebuild
  taught-same room b =
      let last = value ∷ (b.behind ++ u ∷ []) in
      let longer : length (b.behind ++ u ∷ []) ≤ suc k =
        omega (arith, length-append b.behind (u ∷ []), b.few) in
      let (kept, e) = evict-suffix b.before last (omega (arith, longer, room)) in
      record {
        before = kept;
        behind = b.behind ++ u ∷ [];
        ring =
            ring_of-put_ring label _ r.learned
            ∙ ap (λ (vs : List Text). evict (vs ++ u ∷ [])) b.ring
            ∙ ap evict (append_assoc b.before (value ∷ b.behind) (u ∷ []))
            ∙ e;
        few = longer;
      }

  taught-other :
      (l : Text)
      → text_eq l label ≡ false
      → IsBehind label value k r
      → IsBehind label value (suc k) (taught l)
  unfolding rebuild
  taught-other l apart b = record {
    before = b.before;
    behind = b.behind;
    ring = ring_of-put_ring_other label l _ r.learned apart ∙ b.ring;
    few = omega (arith, b.few);
  }

  -- Each learned value puts at most one more behind it.
  learn-keeps :
      (l : Text) → k < 3 → IsBehind label value k r → IsBehind label value (suc k) (learn l u r)
  unfolding learn
  learn-keeps l room b = elim (Bool-cases (ltb (length u) min_length)) [
    | inl short ↦
        rw (short, learn)
          (record {
            before = b.before;
            behind = b.behind;
            ring = b.ring;
            few = omega (arith, b.few);
          })
    | inr long ↦ elim (Bool-cases (any (λ v. text_eq v u) (ring_of l r.learned))) [
      | inl old ↦
          rw (long, old, learn)
            (record {
              before = b.before;
              behind = b.behind;
              ring = put_ring-same label l r.learned ∙ b.ring;
              few = omega (arith, b.few);
            })
      | inr fresh ↦ elim (Bool-cases (text_eq l label)) [
        | inl same ↦
            let e : l ≡ label = (text_eq_iff l label).0 same in
            rw (long, fresh, learn)
              (subst (λ q. IsBehind label value (suc k) (taught q)) (sym e) (taught-same room b))
        | inr apart ↦ rw (long, fresh, learn) (taught-other l apart b)
      ]
    ]
  ]

learn_all-keeps :
    (label value : Text) (more : List (Text × Text)) (k : ℕ) (r : Redactor)
    → k + length more ≤ 3
    → IsBehind label value k r
    → IsBehind label value (k + length more) (learn_all more r)
unfolding learn_all
learn_all-keeps label value [] k r room b = record {
  before = b.before;
  behind = b.behind;
  ring = b.ring;
  few = omega (arith, b.few);
}
learn_all-keeps label value ((l, u) ∷ more) k r room b =
    let next = learn-keeps label value u k r l (omega (arith, room)) b in
    let all = learn_all-keeps label value more (suc k) (learn l u r) (omega (arith, room)) next in
    record {
      before = all.before;
      behind = all.behind;
      ring = all.ring;
      few = omega (arith, all.few);
    }

learn_all-IsSound :
    (more : List (Text × Text)) (r : Redactor) → IsSound r → IsSound (learn_all more r)
unfolding learn_all
learn_all-IsSound [] r h = h
learn_all-IsSound ((label, value) ∷ more) r h =
    learn_all-IsSound more (learn label value r) (learn-IsSound label value r h)

-- A value of at least four bytes, with no byte of the placeholder's quotation marks, no part of its word, and
-- new to its label's ring when it was learned, is in no text that is redacted before a fourth value is
-- learned after it.
pub redact-learn_lasting :
    (label value s : Text) (more : List (Text × Text)) (r : Redactor)
    → IsSound r
    → IsSecret value
    → min_length ≤ length value
    → any (λ v. text_eq v value) (ring_of label r.learned) ≡ false
    → length more ≤ 3
    → contains value (redact (learn_all more (learn label value r)) s) ≡ false
redact-learn_lasting label value s more r sound secret enough fresh few =
    let first = learn label value r in
    let now = learn_all more first in
    let known = learn_all-IsSound more first (learn-IsSound label value r sound) in
    let b =
      learn_all-keeps label value more 0 first (omega (arith, few))
        (learn-IsBehind label value r enough fresh) in
    redact-removes now value s secret (
      known.learned_known value (
        Holds-ring_of value label now.learned (
          subst (Holds value) (sym b.ring)
            (Holds-append_right value b.before (value ∷ b.behind) (inl refl)))))
