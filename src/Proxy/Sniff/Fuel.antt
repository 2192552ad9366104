-- ===== src/Proxy/Sniff/Fuel.antt =====
-- The loops over names and extensions need no more rounds than there are bytes.
use bot_marshal.Prelude.{
  ℕ, zero, suc, ◌≤◌, some, true, List, ◌≡◌, refl, arith, inl, inr, Bool-cases, Option-cases, length,
  ltb, ◌==◌,
}
use bot_marshal.Proxy.Cursor.{Reader, Parse, ◌>>=◌, pure, remaining, take_bytes, u8, u16}
use bot_marshal.Proxy.Cursor.Moves.{
  Moves, Moves-bind, Moves-pure, Moves-take_bytes, Moves-read_be, Moved-remaining, Moves-le,
}
use bot_marshal.Proxy.Sniff.{name_entry, extension, host_name, find_name}

body-Moves : (kind n : ℕ) → Moves {A = ℕ × List ℕ} (take_bytes n >>= λ b. pure (kind, b)) 0
body-Moves kind n =
    Moves-le 0 (omega arith) (Moves-bind _ (Moves-take_bytes n) (λ b. Moves-pure (kind, b)))

name_entry-Moves : Moves name_entry 1
unfolding name_entry u8 u16
name_entry-Moves =
    Moves-le 1 (omega arith)
      (Moves-bind _ (Moves-read_be 1) (λ kind. Moves-bind _ (Moves-read_be 2) (body-Moves kind)))

extension-Moves : Moves extension 1
unfolding extension u16
extension-Moves =
    Moves-le 1 (omega arith)
      (Moves-bind _ (Moves-read_be 2) (λ kind. Moves-bind _ (Moves-read_be 2) (body-Moves kind)))

-- An accessor that moves leaves fewer bytes, so a smaller fuel is enough after it.
enough_left :
    {A : Type 0} {p : Parse A} (fuel : ℕ) (r r' : Reader) (a : A)
    → Moves p 1
    → p r ≡ some (a, r')
    → r.pos ≤ length r.buf
    → remaining r ≤ suc fuel
    → (r'.pos ≤ length r'.buf) × (remaining r' ≤ fuel)
enough_left fuel r r' a h e inside le =
    let m = h.moved r r' a e in
    (m.in_buffer inside, omega (arith, Moved-remaining 1 r r' m inside, le))

-- The loop over a name list gives the same with every fuel that is as large as what is left.
pub host_name-fuel :
    (f g : ℕ) (r : Reader)
    → r.pos ≤ length r.buf
    → remaining r ≤ f
    → remaining r ≤ g
    → host_name f r ≡ host_name g r
unfolding host_name
host_name-fuel zero zero r inside hf hg = refl
host_name-fuel zero (suc g) r inside hf hg =
    let e : ltb (remaining r) 3 ≡ true = ground arith in rw e refl
host_name-fuel (suc f) zero r inside hf hg =
    let e : ltb (remaining r) 3 ≡ true = ground arith in rw e refl
host_name-fuel (suc f) (suc g) r inside hf hg = elim (Bool-cases (ltb (remaining r) 3)) [
  | inl few ↦ rw few refl
  | inr more ↦ elim (Option-cases (name_entry r)) [
    | inl stop ↦ rw (more, stop) refl
    | inr (((kind, name), r'), e) ↦ elim (Bool-cases (kind == 0)) [
      | inl host ↦ rw (more, e, host) refl
      | inr other ↦
          let (inside', hf') = enough_left f r r' (kind, name) name_entry-Moves e inside hf in
          let (again, hg') = enough_left g r r' (kind, name) name_entry-Moves e inside hg in
          rw (more, e, other) (host_name-fuel f g r' inside' hf' hg')
    ]
  ]
]

-- The loop over the extensions gives the same with every fuel that is as large as what is left.
pub find_name-fuel :
    (f g : ℕ) (r : Reader)
    → r.pos ≤ length r.buf
    → remaining r ≤ f
    → remaining r ≤ g
    → find_name f r ≡ find_name g r
unfolding find_name
find_name-fuel zero zero r inside hf hg = refl
find_name-fuel zero (suc g) r inside hf hg =
    let e : ltb (remaining r) 4 ≡ true = ground arith in rw e refl
find_name-fuel (suc f) zero r inside hf hg =
    let e : ltb (remaining r) 4 ≡ true = ground arith in rw e refl
find_name-fuel (suc f) (suc g) r inside hf hg = elim (Bool-cases (ltb (remaining r) 4)) [
  | inl few ↦ rw few refl
  | inr more ↦ elim (Option-cases (extension r)) [
    | inl stop ↦ rw (more, stop) refl
    | inr (((kind, body), r'), e) ↦ elim (Bool-cases (kind == 0)) [
      | inl name ↦ rw (more, e, name) refl
      | inr other ↦
          let (inside', hf') = enough_left f r r' (kind, body) extension-Moves e inside hf in
          let (again, hg') = enough_left g r r' (kind, body) extension-Moves e inside hg in
          rw (more, e, other) (find_name-fuel f g r' inside' hf' hg')
    ]
  ]
]
