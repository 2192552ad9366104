-- ===== src/Core/Evidence.antt =====
-- crates/marshal-core/src/evidence.rs. The B-tree map and set are lists kept in key order.
pub mod Appends
use bot_marshal.Prelude.{
  ℕ, Text, Option, none, some, Bool, true, false, ◌||◌, List, [], ◌∷◌, ◌++◌, text_eq, text_lt,
  if◌then◌else◌, is_some,
}
use bot_marshal.Core.Json.{Json}

pub record LayerOutcome : Type 0 where
  pub layer : Text
  pub verdict : Text
  pub duration_us : ℕ
  pub detail : Option Text
  pub cached : Bool

pub record Evidence : Type 0 where
  pub facts : List (Text × Json)
  pub flags : List Text
  pub trail : List LayerOutcome

abbrev pub empty : Evidence
empty = record { facts = []; flags = []; trail = [] }

-- `BTreeMap::get`.
unfoldable pub lookup : Text → List (Text × Json) → Option Json
lookup key [] = none
lookup key ((k, v) ∷ m) = if text_eq k key then some v else lookup key m

-- `BTreeMap::insert` at a vacant key, in key order.
unfoldable pub insert : Text → Json → List (Text × Json) → List (Text × Json)
insert key v [] = (key, v) ∷ []
insert key v ((k, w) ∷ m) = if text_lt key k then (key, v) ∷ (k, w) ∷ m else (k, w) ∷ insert key v m

-- `entry(key).or_insert(value)`.
unfoldable pub or_insert : Text → Json → List (Text × Json) → List (Text × Json)
unfolding insert lookup
or_insert key v m = if is_some (lookup key m) then m else insert key v m

unfoldable pub member : Text → List Text → Bool
member f [] = false
member f (g ∷ s) = text_eq g f || member f s

-- `BTreeSet::insert`.
unfoldable pub set_insert : Text → List Text → List Text
set_insert f [] = f ∷ []
set_insert f (g ∷ s) =
    if text_eq g f then g ∷ s else if text_lt f g then f ∷ g ∷ s else g ∷ set_insert f s

-- `record`: the new evidence, and whether the key was vacant.
unfoldable pub record_fact : Text → Json → Evidence → Evidence × Bool
unfolding lookup insert
record_fact key value ev =
    if is_some (lookup key ev.facts)
    then (ev, false)
    else (record ev { facts = insert key value ev.facts }, true)

-- `flag`.
unfoldable pub add_flag : Text → Evidence → Evidence
unfolding set_insert
add_flag f ev = record ev { flags = set_insert f ev.flags }

-- The loop `for flag in annotate { ev.flag(flag) }` of several layers.
unfoldable pub add_flags : List Text → Evidence → Evidence
add_flags [] ev = ev
add_flags (f ∷ fs) ev = add_flags fs (add_flag f ev)

unfoldable pub has_flag : Text → Evidence → Bool
unfolding member
has_flag f ev = member f ev.flags

unfoldable pub fact : Text → Evidence → Option Json
unfolding lookup
fact key ev = lookup key ev.facts

unfoldable pub push_outcome : LayerOutcome → Evidence → Evidence
push_outcome outcome ev = record ev { trail = ev.trail ++ outcome ∷ [] }

abbrev pub or_insert_all : List (Text × Json) → List (Text × Json) → List (Text × Json)
or_insert_all [] m = m
or_insert_all ((k, v) ∷ more) m = or_insert_all more (or_insert k v m)

abbrev pub set_insert_all : List Text → List Text → List Text
set_insert_all [] s = s
set_insert_all (f ∷ more) s = set_insert_all more (set_insert f s)

-- `self.absorb(other)`, the other evidence first.
unfoldable pub absorb : Evidence → Evidence → Evidence
unfolding or_insert set_insert
absorb other ev = record {
  facts = or_insert_all other.facts ev.facts;
  flags = set_insert_all other.flags ev.flags;
  trail = ev.trail ++ other.trail;
}
