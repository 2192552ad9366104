-- ===== src/Prelude/Maps.antt =====
-- A map with texts as keys, as the list of its entries: `HashMap` and `BTreeMap`, whose order the code
-- that uses these does not look at.
use mathlib.Core.Path.{◌≡◌, refl, sym}
use mathlib.Core.Logic.{inl, inr}
use mathlib.Core.Bool.{true, false}
use mathlib.Core.Option.{Option, none, some}
use mathlib.Core.List.{List, [], ◌∷◌}
use native.Mathlib.Omega.{arith}
use bot_marshal.Prelude.Tests.{if◌then◌else◌, Bool-cases}
use bot_marshal.Prelude.Texts.{Text, text_eq, text_eq_iff, text_eq_refl}

text_eq-other :
    (k key q : Text) → text_eq k key ≡ true → text_eq key q ≡ false → text_eq k q ≡ false
text_eq-other k key q same other = let e : k ≡ key = (text_eq_iff k key).0 same in rw e other

pub text_eq-different : (a b : Text) → text_eq a b ≡ false → text_eq b a ≡ false
text_eq-different a b h = elim (Bool-cases (text_eq b a)) [
  | inl e ↦ let same : b ≡ a = (text_eq_iff b a).0 e in cc (h, (text_eq_iff a b).1 (sym same))
  | inr e ↦ e
]

module _ {V : Type 0} where
  unfoldable pub find_entry : Text → List (Text × V) → Option V
  find_entry key [] = none
  find_entry key ((k, v) ∷ m) = if text_eq k key then some v else find_entry key m

  unfoldable pub drop_entry : Text → List (Text × V) → List (Text × V)
  drop_entry key [] = []
  drop_entry key ((k, v) ∷ m) =
      let rest = drop_entry key m in if text_eq k key then rest else (k, v) ∷ rest

  unfoldable pub put_entry : Text → V → List (Text × V) → List (Text × V)
  unfolding drop_entry
  put_entry key v m = (key, v) ∷ drop_entry key m

  -- What a map without a key holds.
  pub find_entry-drop_entry :
      (key q : Text) (m : List (Text × V))
      → find_entry q (drop_entry key m) ≡ (if text_eq key q then none else find_entry q m)
  unfolding find_entry drop_entry
  find_entry-drop_entry key q [] = ground arith
  find_entry-drop_entry key q ((k, v) ∷ m) =
      let ih = find_entry-drop_entry key q m in
      elim (Bool-cases (text_eq k key)) [
        | inl same ↦
            let e : k ≡ key = (text_eq_iff k key).0 same in
            elim (Bool-cases (text_eq key q)) [
              | inl hit ↦ rw (same, ih, hit) refl
              | inr miss ↦ rw (same, ih, miss, text_eq-other k key q same miss) refl
            ]
        | inr other ↦ elim (Bool-cases (text_eq k q)) [
          | inl hit ↦
              let e : k ≡ q = (text_eq_iff k q).0 hit in
              let not_key : text_eq key q ≡ false = rw (← e) (text_eq-different k key other) in
              rw (other, hit, not_key) refl
          | inr miss ↦ rw (other, miss) ih
        ]
      ]

  -- What a map with one more entry holds.
  pub find_entry-put_entry :
      (key q : Text) (v : V) (m : List (Text × V))
      → find_entry q (put_entry key v m) ≡ (if text_eq key q then some v else find_entry q m)
  unfolding find_entry put_entry
  find_entry-put_entry key q v m = elim (Bool-cases (text_eq key q)) [
    | inl hit ↦ rw hit refl
    | inr miss ↦ rw (miss, find_entry-drop_entry key q m, miss) refl
  ]

  pub find_entry_put :
      (key : Text) (v : V) (m : List (Text × V)) → find_entry key (put_entry key v m) ≡ some v
  find_entry_put key v m = rw (find_entry-put_entry key key v m, text_eq_refl key) refl
