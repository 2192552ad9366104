-- ===== src/Core/Redact.antt =====
-- crates/marshal-core/src/redact.rs. The lock is left out: each operation runs with it held. The sets
-- and maps are lists in key order.
pub mod Replaces
pub mod Removes
pub mod Members
pub mod Rings
pub mod Lasting
pub mod Documents
use bot_marshal.Prelude.{
  ℕ, zero, suc, ◌-◌, Text, Option, none, some, Bool, true, false, not, ◌||◌, List, [], ◌∷◌, ◌++◌,
  any, keep, length, is_empty, lit, contains, starts_with, text_eq, text_lt, ltb, leb,
  if◌then◌else◌,
}
use bot_marshal.Core.Evidence.{set_insert}
use bot_marshal.Core.Json.{
  Json, null, bool, number, string, array, object, Items, nil, item, Fields, end, field,
}

abbrev pub learned_per_label : ℕ
learned_per_label = 4

abbrev pub min_length : ℕ
min_length = 4

-- The rings of learned values, by label.
abbrev pub Rings : Type 0
Rings = List (Text × List Text)

pub record Redactor : Type 0 where
  pub pinned : List Text
  pub learned : Rings
  pub sorted : List Text

-- The UTF-8 bytes of «redacted».
unfoldable pub placeholder : Text
placeholder = 0xC2 ∷ 0xAB ∷ (lit "redacted" ++ 0xC2 ∷ 0xBB ∷ [])

pub set_of : List Text → List Text
set_of [] = []
set_of (v ∷ vs) = set_insert v (set_of vs)

pub values_of : Rings → List Text
values_of [] = []
values_of ((label, ring) ∷ rings) = ring ++ values_of rings

-- `sort_by_key` by the length, the longest first; it is stable.
pub insert_longest : Text → List Text → List Text
insert_longest v [] = v ∷ []
insert_longest v (w ∷ ws) =
    let later = insert_longest v ws in if leb (length w) (length v) then v ∷ w ∷ ws else w ∷ later

pub sort_longest : List Text → List Text
unfolding insert_longest
sort_longest [] = []
sort_longest (v ∷ vs) = insert_longest v (sort_longest vs)

unfoldable pub rebuild : Redactor → Redactor
unfolding set_of values_of sort_longest
rebuild r = record r { sorted = sort_longest (set_of (r.pinned ++ values_of r.learned)) }

unfoldable pub new : List Text → Redactor
unfolding rebuild
new values = rebuild (record {
  pinned = set_of (keep (λ v. leb min_length (length v)) values);
  learned = [];
  sorted = [];
})

-- `entry(label).or_default()`, and a write to it.
unfoldable pub ring_of : Text → Rings → List Text
ring_of label [] = []
ring_of label ((l, ring) ∷ rings) = if text_eq l label then ring else ring_of label rings

unfoldable pub put_ring : Text → List Text → Rings → Rings
put_ring label ring [] = (label, ring) ∷ []
put_ring label ring ((l, old) ∷ rings) =
    if text_eq l label
    then (l, ring) ∷ rings
    else if text_lt label l
    then (label, ring) ∷ (l, old) ∷ rings
    else (l, old) ∷ put_ring label ring rings

-- `while ring.len() > LEARNED_PER_LABEL { ring.pop_front(); }`
pub evict : List Text → List Text
evict [] = []
evict (v ∷ ring) =
    let fewer = evict ring in if ltb learned_per_label (length (v ∷ ring)) then fewer else v ∷ ring

-- The set is rebuilt only if the value is new to the ring.
unfoldable pub learn : Text → Text → Redactor → Redactor
unfolding ring_of put_ring evict rebuild
learn label value r =
    let ring = ring_of label r.learned in
    if ltb (length value) min_length
    then r
    else if any (λ v. text_eq v value) ring
    then record r { learned = put_ring label ring r.learned }
    else rebuild (record r { learned = put_ring label (evict (ring ++ value ∷ [])) r.learned })

unfoldable pub is_empty_redactor : Redactor → Bool
is_empty_redactor r = is_empty r.sorted

-- `str::replace`, for a pattern that is not empty: `skip` bytes of a match are still to be passed over.
unfoldable pub replace_from : ℕ → Text → Text → Text → Text
replace_from skip v by [] = []
replace_from (suc skip) v by (c ∷ s) = replace_from skip v by s
replace_from zero v by (c ∷ s) =
    let matched = by ++ replace_from (length v - 1) v by s in
    let passed = c ∷ replace_from zero v by s in if starts_with v (c ∷ s) then matched else passed

unfoldable pub replace : Text → Text → Text → Text
unfolding replace_from
replace v by s = replace_from 0 v by s

-- The loop over the values.
unfoldable pub redact_all : List Text → Text → Text
unfolding replace placeholder
redact_all [] out = out
redact_all (v ∷ vs) out = redact_all vs (if contains v out then replace v placeholder out else out)

unfoldable pub redact : Redactor → Text → Text
unfolding redact_all
redact r input = redact_all r.sorted input

abbrev mentions : List Text → Text → Bool
mentions values s = any (λ v. contains v s) values

-- `collect` into a map: a key that comes again takes the later value, and the keys are in order.
put_field : Text → Json → Fields → Fields
put_field key v end = field key v end
put_field key v (field k w fs) =
    if text_eq k key
    then field k v fs
    else if text_lt key k
    then field key v (field k w fs)
    else field k w (put_field key v fs)

-- The keys rewritten from the first on, `done` being those collected so far.
redact_keys : List Text → Fields → Fields → Fields
unfolding put_field
redact_keys values done end = done
redact_keys values done (field k v fs) =
    redact_keys values (put_field (redact_all values k) v done) fs

any_key : List Text → Fields → Bool
any_key values end = false
any_key values (field k v fs) = mentions values k || any_key values fs

abbrev rewrite_keys : List Text → Fields → Fields
rewrite_keys values fs = if any_key values fs then redact_keys values end fs else fs

unfoldable mutual
  unfolding any_key redact_keys redact_all

  -- `redact_json_with`. The values of an object are redacted before its keys are rewritten, which
  -- comes to the same: a rewrite keeps or drops values, and looks at none.
  pub redact_json_with : List Text → Json → Json
  redact_json_with values (string s) =
      if mentions values s then string (redact_all values s) else string s
  redact_json_with values (array xs) = array (redact_items values xs)
  redact_json_with values (object fs) = object (rewrite_keys values (redact_fields values fs))
  redact_json_with values null = null
  redact_json_with values (bool b) = bool b
  redact_json_with values (number n) = number n

  pub redact_items : List Text → Items → Items
  redact_items values nil = nil
  redact_items values (item x xs) = item (redact_json_with values x) (redact_items values xs)

  pub redact_fields : List Text → Fields → Fields
  redact_fields values end = end
  redact_fields values (field k v fs) =
      field k (redact_json_with values v) (redact_fields values fs)

unfoldable pub redact_json : Redactor → Json → Json
unfolding redact_json_with
redact_json r value = if is_empty r.sorted then value else redact_json_with r.sorted value
