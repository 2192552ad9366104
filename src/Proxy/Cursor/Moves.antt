-- ===== src/Proxy/Cursor/Moves.antt =====
-- How far an accessor moves the cursor when it does not give up.
use bot_marshal.Prelude.{
  ℕ, ◌+◌, ◌≤◌, Option, none, some, ◌≡◌, refl, ap, ◌∙◌, arith, inl, inr, Bool-cases, Option-cases,
  length, leb,
}
use bot_marshal.Proxy.Cursor.{Reader, Parse, ◌>>=◌, pure, remaining, take_bytes, read_be, be_number}

-- The buffer stays, and at least `k` bytes of it are passed.
pub record Moved (k : ℕ) (r r' : Reader) : Type 0 where
  pub buffer : r'.buf ≡ r.buf
  pub forward : r.pos + k ≤ r'.pos
  pub in_buffer : r.pos ≤ length r.buf → r'.pos ≤ length r'.buf

pub record Moves {A : Type 0} (p : Parse A) (k : ℕ) : Type 0 where
  pub moved : (r r' : Reader) (a : A) → p r ≡ some (a, r') → Moved k r r'

reached : {A : Type 0} → Reader → Option (A × Reader) → Reader
reached r none = r
reached r (some (a, r')) = r'

none-some : {A : Type 0} {a : A} → none ≡ some a → ⊥
none-some e = cc

pub Moves-pure : {A : Type 0} (a : A) → Moves (pure a) 0
unfolding reached
Moves-pure a = record {
  moved = λ r r' b e.
      let same : r ≡ r' = ap (reached r) e in
      rw (← same) (record { buffer = refl; forward = omega arith; in_buffer = λ h. h });
}

Moved-trans : (j k : ℕ) (r s t : Reader) → Moved j r s → Moved k s t → Moved (j + k) r t
Moved-trans j k r s t h g = record {
  buffer = g.buffer ∙ h.buffer;
  forward = omega (arith, h.forward, g.forward);
  in_buffer = λ inside. g.in_buffer (h.in_buffer inside);
}

pub Moves-bind :
    {A B : Type 0} {p : Parse A} (f : A → Parse B) {j k : ℕ}
    → Moves p j
    → ((a : A) → Moves (f a) k)
    → Moves (p >>= f) (j + k)
Moves-bind {p = p} f {j = j} {k = k} hp hf = record {
  moved = λ r t b e. elim (Option-cases (p r)) [
    | inl stop ↦ absurd (none-some (rw stop at e))
    | inr ((a, s), more) ↦
        Moved-trans j k r s t (hp.moved r s a more) ((hf a).moved s t b (rw more at e))
  ];
}

pub Moves-take_bytes : (n : ℕ) → Moves (take_bytes n) n
unfolding take_bytes reached
Moves-take_bytes n = record {
  moved = λ r r' b e. elim (Bool-cases (leb (r.pos + n) (length r.buf))) [
    | inl fits ↦
        let same : record r { pos = r.pos + n } ≡ r' = ap (reached r) (rw fits at e) in
        let inside : r.pos + n ≤ length r.buf = ground arith in
        rw (← same) (record { buffer = refl; forward = omega arith; in_buffer = λ h. inside })
    | inr past ↦ absurd (none-some (rw past at e))
  ];
}

pub Moves-read_be : (n : ℕ) → Moves (read_be n) (n + 0)
unfolding read_be
Moves-read_be n = Moves-bind _ (Moves-take_bytes n) (λ b. Moves-pure (be_number 0 b))

pub Moves-le : {A : Type 0} {p : Parse A} {k : ℕ} (j : ℕ) → j ≤ k → Moves p k → Moves p j
Moves-le j le h = record {
  moved = λ r r' a e.
      let m = h.moved r r' a e in
      record { buffer = m.buffer; forward = omega (arith, m.forward, le); in_buffer = m.in_buffer };
}

pub Moved-remaining :
    (k : ℕ) (r r' : Reader) → Moved k r r' → r.pos ≤ length r.buf → remaining r' + k ≤ remaining r
unfolding remaining
Moved-remaining k r r' h inside =
    let ends : r'.pos ≤ length r.buf = rw (h.buffer) at (h.in_buffer inside) in
    let same : length r'.buf ≡ length r.buf = ap (λ b. length b) h.buffer in
    omega (arith, ends, same, h.forward)
