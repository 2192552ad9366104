-- ===== src/Proxy/Identity/ConstantTime.antt =====
-- The comparison in constant time is a comparison.
use bot_marshal.Prelude.{
  ℕ, zero, suc, ◌*◌, ◌/◌, ◌%◌, ◌<◌, Text, true, false, [], ◌∷◌, ◌≡◌, ◌↔◌, refl, arith, All, inl,
  inr, Bool-cases, length, ◌==◌, ==_iff,
}
use bot_marshal.Proxy.Identity.{bits_with, or_bit, xor_bit, fold_bytes, constant_time_eq}

power : ℕ → ℕ
power zero = 1
power (suc k) = 2 * power k

or-eq-zero :
    (k x y : ℕ) → x < power k → y < power k → bits_with or_bit k x y ≡ 0 → (x ≡ 0) × (y ≡ 0)
unfolding bits_with power
or-eq-zero zero x y hx hy e = (omega (arith, hx), omega (arith, hy))
or-eq-zero (suc k) x y hx hy e =
    let rest =
      or-eq-zero k (x / 2) (y / 2) (omega (arith, hx)) (omega (arith, hy)) (omega (arith, e)) in
    ground (arith, rest)

xor-eq-zero : (k x y : ℕ) → x < power k → y < power k → bits_with xor_bit k x y ≡ 0 → x ≡ y
unfolding bits_with power
xor-eq-zero zero x y hx hy e = omega (arith, hx, hy)
xor-eq-zero (suc k) x y hx hy e =
    let rest =
      xor-eq-zero k (x / 2) (y / 2) (omega (arith, hx)) (omega (arith, hy)) (omega (arith, e)) in
    ground (arith, rest)

xor_refl : (k x : ℕ) → bits_with xor_bit k x x ≡ 0
unfolding bits_with
xor_refl zero x = refl
xor_refl (suc k) x = ground (arith, xor_refl k (x / 2))

bits_with-lt :
    (f : ℕ → ℕ → ℕ)
    → ((a b : ℕ) → a < 2 → b < 2 → f a b < 2)
    → (k x y : ℕ) → bits_with f k x y < power k
unfolding bits_with power
bits_with-lt f h zero x y = omega arith
bits_with-lt f h (suc k) x y =
    omega (arith, h (x % 2) (y % 2) (omega arith) (omega arith), bits_with-lt f h k (x / 2) (y / 2))

abbrev pub IsByte : ℕ → Type 0
IsByte b = b < 256

or_bit-lt : (a b : ℕ) → a < 2 → b < 2 → or_bit a b < 2
or_bit-lt a b ha hb = ground arith

xor_bit-lt : (a b : ℕ) → a < 2 → b < 2 → xor_bit a b < 2
xor_bit-lt a b ha hb = ground arith

or_byte-lt : (x y : ℕ) → bits_with or_bit 8 x y < 256
unfolding power
or_byte-lt x y = bits_with-lt or_bit or_bit-lt 8 x y

xor_byte-lt : (x y : ℕ) → bits_with xor_bit 8 x y < 256
unfolding power
xor_byte-lt x y = bits_with-lt xor_bit xor_bit-lt 8 x y

or_byte-eq-zero : (x y : ℕ) → x < 256 → y < 256 → bits_with or_bit 8 x y ≡ 0 → (x ≡ 0) × (y ≡ 0)
unfolding power
or_byte-eq-zero x y hx hy e = or-eq-zero 8 x y hx hy e

xor_byte-eq-zero : (x y : ℕ) → x < 256 → y < 256 → bits_with xor_bit 8 x y ≡ 0 → x ≡ y
unfolding power
xor_byte-eq-zero x y hx hy e = xor-eq-zero 8 x y hx hy e

fold_bytes-eq-zero :
    (acc : ℕ) (s t : Text)
    → acc < 256
    → All IsByte s
    → All IsByte t
    → length s ≡ length t
    → fold_bytes acc s t ≡ 0
    → (acc ≡ 0) × (s ≡ t)
unfolding fold_bytes
fold_bytes-eq-zero acc [] [] ha hs ht same e = (e, refl)
fold_bytes-eq-zero acc [] (y ∷ t) ha hs ht same e = absurd (omega (arith, same))
fold_bytes-eq-zero acc (x ∷ s) [] ha hs ht same e = absurd (omega (arith, same))
fold_bytes-eq-zero acc (x ∷ s) (y ∷ t) ha (hx, hs) (hy, ht) same e =
    let differ = bits_with xor_bit 8 x y in
    let (none_so_far, rest) =
      fold_bytes-eq-zero (bits_with or_bit 8 acc differ) s t (or_byte-lt acc differ) hs ht
        (omega (arith, same)) e in
    let (acc_zero, differ_zero) = or_byte-eq-zero acc differ ha (xor_byte-lt x y) none_so_far in
    let head : x ≡ y = xor_byte-eq-zero x y hx hy differ_zero in (acc_zero, (rw (head, rest) refl))

fold_bytes_refl : (s : Text) → fold_bytes 0 s s ≡ 0
unfolding fold_bytes
fold_bytes_refl [] = refl
fold_bytes_refl (x ∷ s) =
    let nothing : bits_with or_bit 8 0 0 ≡ 0 = or_zero in
    rw (xor_refl 8 x, nothing) (fold_bytes_refl s)
  where
    or_zero : bits_with or_bit 8 0 0 ≡ 0
    or_zero = refl

-- `constant_time_eq` holds of two texts exactly when they are equal.
pub constant_time_eq_iff :
    (a b : Text) → All IsByte a → All IsByte b → (constant_time_eq a b ≡ true) ↔ (a ≡ b)
unfolding constant_time_eq
constant_time_eq_iff a b ha hb = (
  (λ e. elim (Bool-cases (length a == length b)) [
    | inl same ↦
        (fold_bytes-eq-zero 0 a b (omega arith) ha hb ((==_iff _ _).0 same)
          ((==_iff _ _).0 (rw same at e))).1
    | inr other ↦ absurd (never (rw other at e))
  ]),
  (λ e. rw e (rw ((==_iff (length b) (length b)).1 refl, fold_bytes_refl b) refl)),
)
  where
    never : false ≡ true → ⊥
    never e = cc
