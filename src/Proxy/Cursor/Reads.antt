-- ===== src/Proxy/Cursor/Reads.antt =====
-- What the accessors of the cursor read, by the unread bytes in front of it.
use bot_marshal.Prelude.{
  take-append, drop-append, drop-drop, ℕ, ◌+◌, ◌*◌, ◌/◌, ◌%◌, ◌≤◌, true, subst, append-nil, some,
  List, [], ◌∷◌, ◌++◌, ◌≡◌, refl, sym, ap, ◌∙◌, arith, append_assoc, take, drop, length,
  length-append, length-drop, leb,
}
use bot_marshal.Proxy.Cursor.{
  Reader, Parse, ◌>>=◌, pure, reader_new, remaining, take_bytes, skip, read_be, be_number, u8, u16,
  u24, inside, continue, value,
}

unfoldable pub rest : Reader → List ℕ
rest r = drop r.pos r.buf

-- The bytes stand in front of the cursor.
pub record IsAt (zs : List ℕ) (r : Reader) : Type 0 where
  pub inside_buffer : r.pos ≤ length r.buf
  pub unread : rest r ≡ zs

-- The accessor reads the bytes `xs` as the value `a`, whatever follows them.
pub record Reads {A : Type 0} (p : Parse A) (xs : List ℕ) (a : A) : Type 0 where
  pub read :
      (r : Reader) (ys : List ℕ)
      → IsAt (xs ++ ys) r
      → (r' : Reader) × ((p r ≡ some (a, r')) × IsAt ys r')

pub Reads-pure : {A : Type 0} (a : A) → Reads (pure a) [] a
Reads-pure a = record { read = λ r ys h. (r, (refl, h)) }

pub Reads-bind :
    {A B : Type 0} {p : Parse A} (f : A → Parse B) {xs ys : List ℕ} {a : A} {b : B}
    → Reads p xs a
    → Reads (f a) ys b
    → Reads (p >>= f) (xs ++ ys) b
Reads-bind {p = p} f {xs = xs} {ys = ys} hp hf = record {
  read = λ r zs h.
      let at : IsAt (xs ++ (ys ++ zs)) r = record {
        inside_buffer = h.inside_buffer;
        unread = h.unread ∙ append_assoc xs ys zs;
      } in
      let (r1, (e1, at1)) = hp.read r (ys ++ zs) at in
      let (r2, (e2, at2)) = hf.read r1 zs at1 in (r2, (ap (continue f) e1 ∙ e2, at2));
}

-- The last step of a `do` block, which reads nothing more.
pub Reads-map :
    {A B : Type 0} {p : Parse A} (f : A → B) {xs : List ℕ} {a : A}
    → Reads p xs a
    → Reads (p >>= λ x. pure (f x)) xs (f a)
Reads-map {p = p} f {xs = xs} {a = a} hp =
    subst (λ zs. Reads (p >>= λ x. pure (f x)) zs (f a)) (append-nil xs)
      (Reads-bind (λ x. pure (f x)) hp (Reads-pure (f a)))

pub remaining-rest : (r : Reader) → remaining r ≡ length (rest r)
unfolding remaining rest
remaining-rest r = sym (length-drop r.pos r.buf)

take_bytes-fits :
    (n : ℕ) (r : Reader)
    → r.pos + n ≤ length r.buf
    → take_bytes n r ≡ some (take n (rest r), record r { pos = r.pos + n })
unfolding take_bytes rest
take_bytes-fits n r h = let e : leb (r.pos + n) (length r.buf) ≡ true = ground arith in rw e refl

pub Reads-take_bytes : (xs : List ℕ) → Reads (take_bytes (length xs)) xs xs
unfolding rest
Reads-take_bytes xs = record {
  read = λ r ys h.
      let fits : r.pos + length xs ≤ length r.buf = omega (
        arith,
        h.inside_buffer,
        length-drop r.pos r.buf,
        ap (λ l. length l) h.unread,
        length-append xs ys,
      ) in
      let r1 : Reader = record r { pos = r.pos + length xs } in
      let taken : take (length xs) (rest r) ≡ xs =
        ap (take (length xs)) h.unread ∙ take-append xs ys in
      let left : rest r1 ≡ ys =
        sym (drop-drop (length xs) r.pos r.buf)
        ∙ (ap (drop (length xs)) h.unread ∙ drop-append xs ys) in
      (
        r1,
        (
          take_bytes-fits (length xs) r fits ∙ ap (λ t. some (t, r1)) taken,
          record { inside_buffer = fits; unread = left },
        ),
      );
}

pub Reads-take : (n : ℕ) (xs : List ℕ) → length xs ≡ n → Reads (take_bytes n) xs xs
Reads-take n xs e = subst (λ m. Reads (take_bytes m) xs xs) e (Reads-take_bytes xs)

pub Reads-skip : (n : ℕ) (xs : List ℕ) → length xs ≡ n → Reads (skip n) xs tt
unfolding skip
Reads-skip n xs e = Reads-map (λ b. tt) (Reads-take n xs e)

pub Reads-read_be : (n : ℕ) (xs : List ℕ) → length xs ≡ n → Reads (read_be n) xs (be_number 0 xs)
unfolding read_be
Reads-read_be n xs e = Reads-map (be_number 0) (Reads-take n xs e)

-- A number in one, two and three bytes, the high byte first.
abbrev pub one_byte : ℕ → List ℕ
one_byte n = n ∷ []

abbrev pub two_bytes : ℕ → List ℕ
two_bytes n = n / 256 ∷ n % 256 ∷ []

abbrev pub three_bytes : ℕ → List ℕ
three_bytes n = n / 65536 ∷ (n / 256) % 256 ∷ n % 256 ∷ []

pub Reads-u8 : (n : ℕ) → Reads u8 (one_byte n) n
unfolding u8 be_number
Reads-u8 n =
    let e : 256 * 0 + n ≡ n = omega arith in
    subst (λ m. Reads (read_be 1) (one_byte n) m) e (Reads-read_be 1 (one_byte n) refl)

pub Reads-u16 : (n : ℕ) → Reads u16 (two_bytes n) n
unfolding u16 be_number
Reads-u16 n =
    let e : 256 * (256 * 0 + n / 256) + n % 256 ≡ n = omega arith in
    subst (λ m. Reads (read_be 2) (two_bytes n) m) e (Reads-read_be 2 (two_bytes n) refl)

pub Reads-u24 : (n : ℕ) → Reads u24 (three_bytes n) n
unfolding u24 be_number
Reads-u24 n =
    let e : 256 * (256 * (256 * 0 + n / 65536) + (n / 256) % 256) + n % 256 ≡ n = omega arith in
    subst (λ m. Reads (read_be 3) (three_bytes n) m) e (Reads-read_be 3 (three_bytes n) refl)

pub reader_new-IsAt : (xs : List ℕ) → IsAt xs (reader_new xs)
unfolding reader_new rest
reader_new-IsAt xs = record { inside_buffer = omega arith; unread = refl }

pub inside-Reads :
    {A : Type 0} {p : Parse A} (xs : List ℕ) {a : A} (ys : List ℕ)
    → Reads p xs a
    → inside p (xs ++ ys) ≡ some a
unfolding inside
inside-Reads xs ys h =
    let (r, (e, at)) = h.read (reader_new (xs ++ ys)) ys (reader_new-IsAt (xs ++ ys)) in ap value e
