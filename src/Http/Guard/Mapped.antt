-- ===== src/Http/Guard/Mapped.antt =====
-- The address class of an IPv6 address that stands for an IPv4 one.
use bot_marshal.Prelude.{ℕ, ◌+◌, ◌*◌, ◌<◌, ◌/◌, ◌%◌, ◌≡◌, refl, arith}
use bot_marshal.Core.Request.{v4, v6}
use bot_marshal.Http.Guard.{is_private}

high : (a b : ℕ) → b < 256 → (a * 256 + b) / 256 ≡ a
high a b h = omega arith

low : (a b : ℕ) → b < 256 → (a * 256 + b) % 256 ≡ b
low a b h = omega arith

-- An address written `::ffff:a.b.c.d` is private exactly when a.b.c.d is, for b and d below 256.
pub is_private-mapped :
    (a b c d : ℕ)
    → b < 256
    → d < 256
    → is_private (v6 0 0 0 0 0 65535 (a * 256 + b) (c * 256 + d)) ≡ is_private (v4 a b c d)
unfolding is_private
is_private-mapped a b c d hb hd = rw (high a b hb, low a b hb, high c d hd, low c d hd) refl
