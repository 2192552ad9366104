-- ===== src/Core/Redact/Documents.antt =====
-- What a redacted document no longer holds, in its strings and its keys.
use bot_marshal.Prelude.{
  Text, true, false, List, [], ◌∷◌, ◌≡◌, arith, inl, inr, Bool-cases, contains, is_empty, text_eq,
  text_lt,
}
use bot_marshal.Core.Json.{
  Json, null, bool, number, string, array, object, Items, nil, item, Fields, end, field,
}
use bot_marshal.Core.Redact.{
  Redactor, redact_all, mentions, put_field, redact_keys, any_key, rewrite_keys, redact_json_with,
  redact_items, redact_fields, redact_json,
}
use bot_marshal.Core.Redact.Replaces.{IsSecret}
use bot_marshal.Core.Redact.Removes.{Holds, redact_all-removes}

-- A document with a text in none of its strings, and in none of its keys.
mutual
  pub IsFree : Text → Json → Type 0
  IsFree v (string s) = contains v s ≡ false
  IsFree v (array xs) = AreFree v xs
  IsFree v (object fs) = HasFreeFields v fs
  IsFree v null = Unit
  IsFree v (bool b) = Unit
  IsFree v (number n) = Unit

  pub AreFree : Text → Items → Type 0
  AreFree v nil = Unit
  AreFree v (item x xs) = IsFree v x × AreFree v xs

  pub HasFreeFields : Text → Fields → Type 0
  HasFreeFields v end = Unit
  HasFreeFields v (field k x fs) = (contains v k ≡ false) × IsFree v x × HasFreeFields v fs

HasFreeValues : Text → Fields → Type 0
HasFreeValues v end = Unit
HasFreeValues v (field k x fs) = IsFree v x × HasFreeValues v fs

module _ (v : Text) (secret : IsSecret v) (values : List Text) (known : Holds v values) where
  contains-redact_all : (s : Text) → contains v (redact_all values s) ≡ false
  contains-redact_all s = elim (Bool-cases (contains v (redact_all values s))) [
    | inl left ↦ absurd (redact_all-removes v secret values s known left)
    | inr clean ↦ clean
  ]

  contains-mentions :
      (ws : List Text) (s : Text) → Holds v ws → mentions ws s ≡ false → contains v s ≡ false
  contains-mentions [] s h e = absurd h
  contains-mentions (w ∷ ws) s (inl same) e = let f = rw same at e in ground arith
  contains-mentions (w ∷ ws) s (inr h) e = contains-mentions ws s h (ground arith)

  put_field-HasFreeFields :
      (k : Text) (x : Json) (fs : Fields)
      → contains v k ≡ false
      → IsFree v x
      → HasFreeFields v fs
      → HasFreeFields v (put_field k x fs)
  unfolding put_field HasFreeFields
  put_field-HasFreeFields k x end hk hx h = (hk, hx, tt)
  put_field-HasFreeFields k x (field j w fs) hk hx h = elim (Bool-cases (text_eq j k)) [
    | inl same ↦ rw same (h.0, hx, h.2)
    | inr other ↦ elim (Bool-cases (text_lt k j)) [
      | inl first ↦ rw (other, first) (hk, hx, h)
      | inr later ↦ rw (other, later) (h.0, h.1, put_field-HasFreeFields k x fs hk hx h.2)
    ]
  ]

  redact_keys-HasFreeFields :
      (done fs : Fields)
      → HasFreeFields v done
      → HasFreeValues v fs
      → HasFreeFields v (redact_keys values done fs)
  unfolding redact_keys HasFreeValues
  redact_keys-HasFreeFields done end hd h = hd
  redact_keys-HasFreeFields done (field k x fs) hd h =
      redact_keys-HasFreeFields (put_field (redact_all values k) x done) fs
        (put_field-HasFreeFields (redact_all values k) x done (contains-redact_all k) h.0 hd) h.1

  unmentioned-HasFreeFields :
      (fs : Fields) → any_key values fs ≡ false → HasFreeValues v fs → HasFreeFields v fs
  unfolding any_key HasFreeFields HasFreeValues
  unmentioned-HasFreeFields end e h = tt
  unmentioned-HasFreeFields (field k x fs) e h = (
    contains-mentions values k known (ground arith),
    h.0,
    unmentioned-HasFreeFields fs (ground arith) h.1,
  )

  rewrite_keys-HasFreeFields :
      (fs : Fields) → HasFreeValues v fs → HasFreeFields v (rewrite_keys values fs)
  unfolding HasFreeFields
  rewrite_keys-HasFreeFields fs h = elim (Bool-cases (any_key values fs)) [
    | inl on ↦ rw on (redact_keys-HasFreeFields end fs tt h)
    | inr off ↦ rw off (unmentioned-HasFreeFields fs off h)
  ]

  mutual
    unfolding redact_json_with redact_items redact_fields IsFree AreFree HasFreeValues

    redact_json_with-IsFree : (x : Json) → IsFree v (redact_json_with values x)
    redact_json_with-IsFree (string s) = elim (Bool-cases (mentions values s)) [
      | inl on ↦ rw on (contains-redact_all s)
      | inr off ↦ rw off (contains-mentions values s known off)
    ]
    redact_json_with-IsFree (array xs) = redact_items-AreFree xs
    redact_json_with-IsFree (object fs) =
        rewrite_keys-HasFreeFields (redact_fields values fs) (redact_fields-HasFreeValues fs)
    redact_json_with-IsFree null = tt
    redact_json_with-IsFree (bool b) = tt
    redact_json_with-IsFree (number n) = tt

    redact_items-AreFree : (xs : Items) → AreFree v (redact_items values xs)
    redact_items-AreFree nil = tt
    redact_items-AreFree (item x xs) = (redact_json_with-IsFree x, redact_items-AreFree xs)

    redact_fields-HasFreeValues : (fs : Fields) → HasFreeValues v (redact_fields values fs)
    redact_fields-HasFreeValues end = tt
    redact_fields-HasFreeValues (field k x fs) =
        (redact_json_with-IsFree x, redact_fields-HasFreeValues fs)

-- A value of the redactor's set that has no byte of the placeholder's quotation marks, and is no part of its
-- word, is in no string of a redacted document, however deep, and in no key.
pub redact_json-IsFree :
    (r : Redactor) (v : Text) (x : Json)
    → IsSecret v
    → Holds v r.sorted
    → IsFree v (redact_json r x)
unfolding redact_json
redact_json-IsFree r v x secret known = elim (Bool-cases (is_empty r.sorted)) [
  | inl blank ↦ absurd (nothing r.sorted blank known)
  | inr some_known ↦ rw some_known (redact_json_with-IsFree v secret r.sorted known x)
]
  where
    nothing : (ws : List Text) → is_empty ws ≡ true → Holds v ws → ⊥
    nothing [] e h = h
    nothing (w ∷ ws) e h = cc
