-- ===== src/Core/Redact/Rings.antt =====
-- What the redactor keeps: every value that it holds is in the set it redacts by, and each label's ring is
-- bounded.
use bot_marshal.Prelude.{
  ◌≤◌, Text, false, List, [], ◌∷◌, ◌++◌, ◌≡◌, refl, arith, ◌⊎◌, inl, inr, All, any_iff, Bool-cases,
  length, contains, any, keep, text_eq, text_eq_iff, text_lt, ltb, leb,
}
use bot_marshal.Core.Redact.{
  Redactor, Rings, redact, learn, new, min_length, learned_per_label, rebuild, set_of, values_of,
  ring_of, put_ring, evict,
}
use bot_marshal.Core.Redact.Replaces.{IsSecret}
use bot_marshal.Core.Redact.Removes.{Holds, redact-removes}
use bot_marshal.Core.Redact.Members.{
  Holds-append_left, Holds-append_right, Holds-append, Holds-set_of, Holds-sort_longest,
}

abbrev IsLong : Text → Type 0
IsLong v = min_length ≤ length v

abbrev IsBounded : Text × List Text → Type 0
IsBounded entry = length entry.1 ≤ learned_per_label

pub record IsSound (r : Redactor) : Type 0 where
  pub pinned_known : (v : Text) → Holds v r.pinned → Holds v r.sorted
  pub learned_known : (v : Text) → Holds v (values_of r.learned) → Holds v r.sorted
  pub bounded : All IsBounded r.learned

-- After the set was rebuilt, every value is in it.
rebuild-IsSound : (r : Redactor) → All IsBounded r.learned → IsSound (rebuild r)
unfolding rebuild
rebuild-IsSound r b = record {
  pinned_known = λ v h.
      Holds-sort_longest v _
        (Holds-set_of v _ (Holds-append_left v r.pinned (values_of r.learned) h));
  learned_known = λ v h.
      Holds-sort_longest v _
        (Holds-set_of v _ (Holds-append_right v r.pinned (values_of r.learned) h));
  bounded = b;
}

length-evict : (ring : List Text) → length (evict ring) ≤ learned_per_label
unfolding evict
length-evict [] = omega arith
length-evict (v ∷ ring) = ground (arith, length-evict ring)

Holds-evict : (v : Text) (ring : List Text) → Holds v (evict (ring ++ v ∷ []))
unfolding evict
Holds-evict v [] = inl refl
Holds-evict v (u ∷ ring) = elim (Bool-cases (ltb learned_per_label (length (u ∷ ring ++ v ∷ [])))) [
  | inl full ↦ rw full (Holds-evict v ring)
  | inr fits ↦ rw fits (inr (Holds-append_right v ring (v ∷ []) (inl refl)))
]

put_ring-IsBounded :
    (label : Text) (ring : List Text) (rings : Rings)
    → length ring ≤ learned_per_label
    → All IsBounded rings
    → All IsBounded (put_ring label ring rings)
unfolding put_ring
put_ring-IsBounded label ring [] b h = (b, tt)
put_ring-IsBounded label ring ((l, old) ∷ rings) b h = elim (Bool-cases (text_eq l label)) [
  | inl same ↦ rw same (b, h.1)
  | inr other ↦ elim (Bool-cases (text_lt label l)) [
    | inl first ↦ rw (other, first) (b, h)
    | inr later ↦ rw (other, later) (h.0, put_ring-IsBounded label ring rings b h.1)
  ]
]

ring_of-IsBounded :
    (label : Text) (rings : Rings)
    → All IsBounded rings
    → length (ring_of label rings) ≤ learned_per_label
unfolding ring_of
ring_of-IsBounded label [] h = omega arith
ring_of-IsBounded label ((l, ring) ∷ rings) h = ground (arith, ring_of-IsBounded label rings h.1)

Holds-put_ring :
    (v label : Text) (ring : List Text) (rings : Rings)
    → Holds v ring
    → Holds v (values_of (put_ring label ring rings))
unfolding put_ring values_of
Holds-put_ring v label ring [] h = Holds-append_left v ring [] h
Holds-put_ring v label ring ((l, old) ∷ rings) h = elim (Bool-cases (text_eq l label)) [
  | inl same ↦ rw same (Holds-append_left v ring (values_of rings) h)
  | inr other ↦ elim (Bool-cases (text_lt label l)) [
    | inl first ↦ rw (other, first) (Holds-append_left v ring _ h)
    | inr later ↦
        rw (other, later) (Holds-append_right v old _ (Holds-put_ring v label ring rings h))
  ]
]

-- A ring that is written brings in its own values, and no others.
Holds-values_of :
    (v label : Text) (ring : List Text) (rings : Rings)
    → Holds v (values_of (put_ring label ring rings))
    → Holds v ring ⊎ Holds v (values_of rings)
unfolding put_ring values_of
Holds-values_of v label ring [] h = Holds-append v ring [] h
Holds-values_of v label ring ((l, old) ∷ rings) h = elim (Bool-cases (text_eq l label)) [
  | inl same ↦ elim (Holds-append v ring (values_of rings) (rw same at h)) [
    | inl k ↦ inl k
    | inr k ↦ inr (Holds-append_right v old _ k)
  ]
  | inr other ↦ elim (Bool-cases (text_lt label l)) [
    | inl first ↦ Holds-append v ring _ (rw (other, first) at h)
    | inr later ↦ elim (Holds-append v old _ (rw (other, later) at h)) [
      | inl k ↦ inr (Holds-append_left v old _ k)
      | inr k ↦ elim (Holds-values_of v label ring rings k) [
        | inl mine ↦ inl mine
        | inr others ↦ inr (Holds-append_right v old _ others)
      ]
    ]
  ]
]

pub Holds-ring_of :
    (v label : Text) (rings : Rings) → Holds v (ring_of label rings) → Holds v (values_of rings)
unfolding ring_of values_of
Holds-ring_of v label [] h = h
Holds-ring_of v label ((l, ring) ∷ rings) h = elim (Bool-cases (text_eq l label)) [
  | inl same ↦ Holds-append_left v ring _ (rw same at h)
  | inr other ↦ Holds-append_right v ring _ (Holds-ring_of v label rings (rw other at h))
]

-- A redactor as it is built has every value that it pinned in its set.
pub new-IsSound : (values : List Text) → IsSound (new values)
unfolding new
new-IsSound values =
    rebuild-IsSound
      (record {
        pinned = set_of (keep (λ v. leb min_length (length v)) values);
        learned = [];
        sorted = [];
      })
      tt

-- The redactor with a new value in its ring, before the set is rebuilt.
abbrev taught : Text → Text → Redactor → Redactor
taught label value r = record r {
  learned = put_ring label (evict (ring_of label r.learned ++ value ∷ [])) r.learned;
}

learned_before :
    (label : Text) (r : Redactor) (v : Text)
    → Holds v (values_of (put_ring label (ring_of label r.learned) r.learned))
    → Holds v (values_of r.learned)
learned_before label r v h = elim (Holds-values_of v label (ring_of label r.learned) r.learned h) [
  | inl mine ↦ Holds-ring_of v label r.learned mine
  | inr others ↦ others
]

-- Learning keeps the redactor sound: every value that it holds is in the set it redacts by, and no
-- label has more than four.
pub learn-IsSound : (label value : Text) (r : Redactor) → IsSound r → IsSound (learn label value r)
unfolding learn
learn-IsSound label value r sound = elim (Bool-cases (ltb (length value) min_length)) [
  | inl short ↦ rw short sound
  | inr long ↦ elim (Bool-cases (any (λ v. text_eq v value) (ring_of label r.learned))) [
    | inl old ↦
        rw (long, old)
          (record {
            pinned_known = sound.pinned_known;
            learned_known = λ v h. sound.learned_known v (learned_before label r v h);
            bounded =
                put_ring-IsBounded label _ r.learned
                  (ring_of-IsBounded label r.learned sound.bounded) sound.bounded;
          })
    | inr fresh ↦
        rw (long, fresh)
          (rebuild-IsSound (taught label value r) (
            put_ring-IsBounded label _ r.learned
              (length-evict (ring_of label r.learned ++ value ∷ [])) sound.bounded))
  ]
]

pub Holds-learn :
    (label value : Text) (r : Redactor)
    → IsSound r
    → min_length ≤ length value
    → Holds value (learn label value r).sorted
unfolding learn
Holds-learn label value r sound enough = elim (Bool-cases (ltb (length value) min_length)) [
  | inl short ↦ absurd (ground arith)
  | inr long ↦ elim (Bool-cases (any (λ v. text_eq v value) (ring_of label r.learned))) [
    | inl old ↦
        rw (long, old)
          (sound.learned_known value (
            Holds-ring_of value label r.learned (
              (any_iff (λ w. w ≡ value) (λ w. text_eq w value) (λ w. text_eq_iff w value)
                  (ring_of label r.learned)).0
                old)))
    | inr fresh ↦
        rw (long, fresh)
          ((rebuild-IsSound (taught label value r) (
              put_ring-IsBounded label _ r.learned
                (length-evict (ring_of label r.learned ++ value ∷ [])) sound.bounded)).learned_known
            value
            (Holds-put_ring value label _ r.learned (Holds-evict value (ring_of label r.learned))))
  ]
]

-- A value of at least four bytes, with no byte of the placeholder's quotation marks and no part of its
-- word, is in no text that is redacted right after it was learned.
pub redact-learn :
    (label value s : Text) (r : Redactor)
    → IsSound r
    → IsSecret value
    → min_length ≤ length value
    → contains value (redact (learn label value r) s) ≡ false
redact-learn label value s r sound secret enough =
    redact-removes (learn label value r) value s secret (Holds-learn label value r sound enough)
