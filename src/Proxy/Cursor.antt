-- ===== src/Proxy/Cursor.antt =====
-- crates/marshal-proxy/src/sniff.rs: the bounds-checked cursor. An accessor is a `Parse`: it gives a
-- value and moves the cursor, or gives up. (The sum that `checked_add` refuses would be past the end
-- of every buffer.)
pub mod Reads
pub mod Moves
use bot_marshal.Prelude.{
  ℕ, ◌+◌, ◌-◌, ◌*◌, Option, none, some, List, [], ◌∷◌, take, drop, length, leb, if◌then◌else◌,
}

pub record Reader : Type 0 where
  pub buf : List ℕ
  pub pos : ℕ

abbrev pub Parse : Type 0 → Type 0
Parse A = Reader → Option (A × Reader)

abbrev pub continue : {A B : Type 0} → (A → Parse B) → Option (A × Reader) → Option (B × Reader)
continue f none = none
continue f (some (a, rest)) = f a rest

infixl 5 ◌>>=◌
abbrev pub ◌>>=◌ : {A B : Type 0} → Parse A → (A → Parse B) → Parse B
(p >>= f) r = continue f (p r)

infixl 5 ◌>>◌
abbrev pub ◌>>◌ : {A B : Type 0} → Parse A → Parse B → Parse B
p >> q = p >>= λ a. q

abbrev pub pure : {A : Type 0} → A → Parse A
pure a r = some (a, r)

abbrev pub give_up : {A : Type 0} → Parse A
give_up r = none

unfoldable pub reader_new : List ℕ → Reader
reader_new buf = record { buf = buf; pos = 0 }

unfoldable pub remaining : Reader → ℕ
remaining r = length r.buf - r.pos

unfoldable pub take_bytes : ℕ → Parse (List ℕ)
take_bytes n r =
    if leb (r.pos + n) (length r.buf)
    then some (take n (drop r.pos r.buf), record r { pos = r.pos + n })
    else none

unfoldable pub skip : ℕ → Parse (Unit {0})
unfolding take_bytes
skip n = do take_bytes n; pure tt

-- Big-endian numbers of one, two and three bytes.
pub be_number : ℕ → List ℕ → ℕ
be_number acc [] = acc
be_number acc (b ∷ bs) = be_number (256 * acc + b) bs

unfoldable pub read_be : ℕ → Parse ℕ
unfolding take_bytes be_number
read_be n = do b ← take_bytes n; pure (be_number 0 b)

unfoldable pub u8 : Parse ℕ
unfolding read_be
u8 = read_be 1

unfoldable pub u16 : Parse ℕ
unfolding read_be
u16 = read_be 2

unfoldable pub u24 : Parse ℕ
unfolding read_be
u24 = read_be 3

abbrev pub value : {A : Type 0} → Option (A × Reader) → Option A
value none = none
value (some (a, rest)) = some a

-- What an accessor reads at the start of a slice: `Reader::new(slice)`, and its value alone.
unfoldable pub inside : {A : Type 0} → Parse A → List ℕ → Option A
unfolding reader_new
inside p slice = value (p (reader_new slice))
