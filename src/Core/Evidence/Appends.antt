-- ===== src/Core/Evidence/Appends.antt =====
-- Evidence only grows: what was recorded, flagged or put in the trail stays as it was.
use bot_marshal.Prelude.{
  Text, Option, none, some, true, false, ◌||◌, List, [], ◌∷◌, ◌++◌, ◌≡◌, refl, sym, ap, ◌∙◌, arith,
  inl, inr, text_eq, text_eq_iff, text_eq_refl, if◌then◌else◌, is_none, Bool-cases, Option-cases,
  ◌⊎◌, append_assoc, append-nil,
}
use bot_marshal.Core.Json.{Json}
use bot_marshal.Core.Evidence.{
  Evidence, LayerOutcome, lookup, insert, or_insert, member, set_insert, record_fact, add_flag,
  push_outcome, or_insert_all, set_insert_all, absorb, fact, has_flag,
}

pub record Extends (old new : Evidence) : Type 0 where
  pub facts :
      (key : Text) (v : Json) → lookup key old.facts ≡ some v → lookup key new.facts ≡ some v
  pub flags : (f : Text) → member f old.flags ≡ true → member f new.flags ≡ true
  pub added : List LayerOutcome
  pub trail : new.trail ≡ old.trail ++ added

-- `Option::or`.
abbrev pub or_else : Option Json → Option Json → Option Json
or_else (some v) o = some v
or_else none o = o

or_else-none : (o : Option Json) → o ≡ or_else o none
or_else-none none = refl
or_else-none (some v) = refl

or_else_assoc : (a b c : Option Json) → or_else (or_else a b) c ≡ or_else a (or_else b c)
or_else_assoc none b c = refl
or_else_assoc (some v) b c = refl

lookup-insert_other :
    (key j : Text) (v : Json) (m : List (Text × Json))
    → text_eq key j ≡ false
    → lookup j (insert key v m) ≡ lookup j m
unfolding lookup insert
lookup-insert_other key j v [] h = rw h refl
lookup-insert_other key j v ((k, w) ∷ m) h = ground (arith, lookup-insert_other key j v m h)

pub lookup-insert_vacant :
    (key : Text) (v : Json) (m : List (Text × Json))
    → lookup key m ≡ none
    → lookup key (insert key v m) ≡ some v
unfolding lookup insert
lookup-insert_vacant key v [] h = rw (text_eq_refl key) refl
lookup-insert_vacant key v ((k, w) ∷ m) h =
    ground (arith, text_eq_refl key, lookup-insert_vacant key v m)

-- What is there already is not touched, and so is another key.
lookup-or_insert :
    (key j : Text) (v : Json) (m : List (Text × Json))
    → lookup j (or_insert key v m) ≡ or_else (lookup j m) (if text_eq key j then some v else none)
unfolding or_insert
lookup-or_insert key j v m = elim (Option-cases (lookup key m)) [
  | inl vacant ↦ rw (vacant, or_insert) (vacant_case (Bool-cases (text_eq key j)) vacant)
  | inr (w, taken) ↦ rw (taken, or_insert) (taken_case (Bool-cases (text_eq key j)) taken)
]
  where
    vacant_case :
        (text_eq key j ≡ true) ⊎ (text_eq key j ≡ false)
        → lookup key m ≡ none
        → lookup j (insert key v m) ≡ or_else (lookup j m) (if text_eq key j then some v else none)
    vacant_case (inl e) h =
        let same : key ≡ j = (text_eq_iff key j).0 e in
        rw (← same) (rw (lookup-insert_vacant key v m h, h, text_eq_refl key) refl)
    vacant_case (inr e) h = rw (lookup-insert_other key j v m e, e) (or_else-none _)

    taken_case :
        {w : Json}
        → (text_eq key j ≡ true) ⊎ (text_eq key j ≡ false)
        → lookup key m ≡ some w
        → lookup j m ≡ or_else (lookup j m) (if text_eq key j then some v else none)
    taken_case (inl e) h = let same : key ≡ j = (text_eq_iff key j).0 e in rw (← same) (rw h refl)
    taken_case (inr e) h = rw e (or_else-none _)

member-set_insert :
    (f g : Text) (s : List Text) → member g (set_insert f s) ≡ (text_eq f g || member g s)
unfolding member set_insert
member-set_insert f g [] = refl
member-set_insert f g (k ∷ s) =
    ground (arith, member-set_insert f g s, text_eq_iff k f, text_eq_iff f g, text_eq_iff k g)

pub Extends-refl : (ev : Evidence) → Extends ev ev
Extends-refl ev = record {
  facts = λ key v h. h;
  flags = λ f h. h;
  added = [];
  trail = sym (append-nil ev.trail);
}

pub Extends-trans : {a b c : Evidence} → Extends a b → Extends b c → Extends a c
Extends-trans {a} p q = record {
  facts = λ key v h. q.facts key v (p.facts key v h);
  flags = λ f h. q.flags f (p.flags f h);
  added = p.added ++ q.added;
  trail =
      q.trail
      ∙ ap (λ (t : List LayerOutcome). t ++ q.added) p.trail
      ∙ append_assoc a.trail p.added q.added;
}

or_else-kept : {v : Json} (o p : Option Json) → o ≡ some v → or_else o p ≡ some v
or_else-kept none p h = cc
or_else-kept (some w) p h = h

-- Recording keeps the value of a key that is set, and says so.
pub record_fact-or_insert :
    (key : Text) (v : Json) (ev : Evidence)
    → record_fact key v ev
      ≡ (record ev { facts = or_insert key v ev.facts }, is_none (lookup key ev.facts))
unfolding record_fact or_insert
record_fact-or_insert key v ev = ground arith

pub or_insert-Extends :
    (key : Text) (v : Json) (ev : Evidence)
    → Extends ev (record ev { facts = or_insert key v ev.facts })
or_insert-Extends key v ev = record {
  facts = λ j w h. lookup-or_insert key j v ev.facts ∙ or_else-kept _ _ h;
  flags = λ f h. h;
  added = [];
  trail = sym (append-nil ev.trail);
}

pub record_fact-Extends :
    (key : Text) (v : Json) (ev : Evidence) → Extends ev (record_fact key v ev).0
record_fact-Extends key v ev = rw (record_fact-or_insert key v ev) (or_insert-Extends key v ev)

pub add_flag-Extends : (f : Text) (ev : Evidence) → Extends ev (add_flag f ev)
unfolding add_flag
add_flag-Extends f ev = record {
  facts = λ key v h. h;
  flags = λ g h. rw (member-set_insert f g ev.flags) (ground arith);
  added = [];
  trail = sym (append-nil ev.trail);
}

pub push_outcome-Extends : (o : LayerOutcome) (ev : Evidence) → Extends ev (push_outcome o ev)
unfolding push_outcome
push_outcome-Extends o ev = record {
  facts = λ key v h. h;
  flags = λ g h. h;
  added = o ∷ [];
  trail = refl;
}

lookup-or_insert_all :
    (j : Text) (new m : List (Text × Json))
    → lookup j (or_insert_all new m) ≡ or_else (lookup j m) (lookup j new)
unfolding lookup
lookup-or_insert_all j [] m = or_else-none _
lookup-or_insert_all j ((k, v) ∷ new) m = ground (
  arith,
  lookup-or_insert_all j new (or_insert k v m),
  lookup-or_insert k j v m,
  or_else_assoc (lookup j m) (if text_eq k j then some v else none) (lookup j new),
)

member-set_insert_all :
    (f : Text) (new s : List Text) → member f (set_insert_all new s) ≡ (member f s || member f new)
unfolding member
member-set_insert_all f [] s = ground arith
member-set_insert_all f (g ∷ new) s =
    ground (arith, member-set_insert_all f new (set_insert g s), member-set_insert g f s)

-- Folding in other evidence: a key that is set keeps its value and any other takes the other's, the
-- flags are joined, and the other's trail follows.
pub absorb_lem :
    (other ev : Evidence)
    → ((key : Text) → fact key (absorb other ev) ≡ or_else (fact key ev) (fact key other))
      × ((f : Text) → has_flag f (absorb other ev) ≡ (has_flag f ev || has_flag f other))
      × ((absorb other ev).trail ≡ ev.trail ++ other.trail)
unfolding absorb fact has_flag
absorb_lem other ev = (
  λ key. lookup-or_insert_all key other.facts ev.facts,
  λ f. member-set_insert_all f other.flags ev.flags,
  refl,
)
