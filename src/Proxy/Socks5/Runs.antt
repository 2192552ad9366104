-- ===== src/Proxy/Socks5/Runs.antt =====
-- What a step reads of the client's bytes, and what it writes, when it succeeds and when it fails.
use bot_marshal.Prelude.{
  take-append, drop-append, ℕ, ◌+◌, ◌*◌, ◌/◌, ◌%◌, Text, Bool, true, List, [], ◌∷◌, ◌++◌, Result,
  ok, err, ◌≡◌, refl, ap, ◌∙◌, subst, arith, append_assoc, append-nil, length, length-append, leb,
  is_utf8,
}
use bot_marshal.Proxy.Socks5.{
  Socks5Error, Connection, Io, proceed, ◌>>=◌, pure, throw, read_exact, read_number, big_endian,
  read_u8, read_u16, from_utf8, counted, write_all,
}

abbrev pub between : List ℕ → List ℕ → Connection
between input written = record { input = input; written = written }

-- The step reads the bytes `xs`, whatever follows them, writes `ws`, and gives the result.
pub record Ends {A : Type 0} (p : Io A) (xs ws : List ℕ) (result : Result Socks5Error A)
    : Type 0 where
  pub ends_so :
      (more before : List ℕ)
      → p (between (xs ++ more) before) ≡ (result, between more (before ++ ws))

pub Ends-pure : {A : Type 0} (a : A) → Ends (pure a) [] [] (ok a)
Ends-pure a = record { ends_so = λ more before. rw (append-nil before) refl }

pub Ends-throw : {A : Type 0} (e : Socks5Error) → Ends {A = A} (throw e) [] [] (err e)
Ends-throw e = record { ends_so = λ more before. rw (append-nil before) refl }

pub Ends-bind :
    {A B : Type 0} {p : Io A} (f : A → Io B) {xs ys ws vs : List ℕ} {a : A}
    {result : Result Socks5Error B}
    → Ends p xs ws (ok a)
    → Ends (f a) ys vs result
    → Ends (p >>= f) (xs ++ ys) (ws ++ vs) result
Ends-bind {p = p} f {xs = xs} {ys = ys} {ws = ws} {vs = vs} {a = a} {result = result} hp hf =
    record {
      ends_so = λ more before.
          let first : p (between ((xs ++ ys) ++ more) before)
              ≡ (ok a, between (ys ++ more) (before ++ ws)) =
            ap (λ l. p (between l before)) (append_assoc xs ys more)
            ∙ hp.ends_so (ys ++ more) before in
          ap (proceed f) first
          ∙ (hf.ends_so more (before ++ ws)
              ∙ ap (λ l. (result, between more l)) (append_assoc before ws vs));
    }

-- The last step of a `do` block, which reads and writes nothing more.
pub Ends-map :
    {A B : Type 0} {p : Io A} (f : A → B) {xs ws : List ℕ} {a : A}
    → Ends p xs ws (ok a)
    → Ends (p >>= λ x. pure (f x)) xs ws (ok (f a))
Ends-map {p = p} f {a = a} hp = record {
  ends_so = λ more before. ap (proceed (λ x. pure (f x))) (hp.ends_so more before);
}

-- A first step that fails is the failure of the whole.
pub Ends-fail :
    {A B : Type 0} {p : Io A} (f : A → Io B) {xs ws : List ℕ} {e : Socks5Error}
    → Ends p xs ws (err e)
    → Ends (p >>= f) xs ws (err e)
Ends-fail f hp = record { ends_so = λ more before. ap (proceed f) (hp.ends_so more before) }

read_exact-length :
    (xs more before : List ℕ)
    → read_exact (length xs) (between (xs ++ more) before) ≡ (ok xs, between more before)
unfolding read_exact
read_exact-length xs more before =
    let enough : leb (length xs) (length (xs ++ more)) ≡ true =
      let e = length-append xs more in ground arith in
    rw (enough, take-append xs more, drop-append xs more) refl

pub Ends-read_exact : (n : ℕ) (xs : List ℕ) → length xs ≡ n → Ends (read_exact n) xs [] (ok xs)
Ends-read_exact n xs e = record {
  ends_so = λ more before. rw (append-nil before) (
      subst (λ m. read_exact m (between (xs ++ more) before) ≡ (ok xs, between more before)) e
        (read_exact-length xs more before));
}

abbrev pub one_byte : ℕ → List ℕ
one_byte n = n ∷ []

abbrev pub two_bytes : ℕ → List ℕ
two_bytes n = n / 256 ∷ n % 256 ∷ []

pub Ends-read_u8 : (n : ℕ) → Ends read_u8 (one_byte n) [] (ok n)
unfolding read_u8 read_number big_endian
Ends-read_u8 n =
    let e : 256 * 0 + n ≡ n = omega arith in
    subst (λ m. Ends (read_number 1) (one_byte n) [] (ok m)) e
      (Ends-map (big_endian 0) (Ends-read_exact 1 (one_byte n) refl))

pub Ends-read_u16 : (n : ℕ) → Ends read_u16 (two_bytes n) [] (ok n)
unfolding read_u16 read_number big_endian
Ends-read_u16 n =
    let e : 256 * (256 * 0 + n / 256) + n % 256 ≡ n = omega arith in
    subst (λ m. Ends (read_number 2) (two_bytes n) [] (ok m)) e
      (Ends-map (big_endian 0) (Ends-read_exact 2 (two_bytes n) refl))

pub Ends-counted : (xs : List ℕ) → Ends counted (one_byte (length xs) ++ xs) [] (ok xs)
unfolding counted
Ends-counted xs = Ends-bind _ (Ends-read_u8 (length xs)) (Ends-read_exact (length xs) xs refl)

pub Ends-from_utf8 : (xs : Text) → is_utf8 xs ≡ true → Ends (from_utf8 xs) [] [] (ok xs)
unfolding from_utf8
Ends-from_utf8 xs e = rw e (Ends-pure xs)

pub Ends-write_all :
    (can_write : List ℕ → Bool) (ip_to_string : List ℕ → Text)
    → ((written : List ℕ) → can_write written ≡ true)
    → (ws : List ℕ) → Ends (write_all can_write ip_to_string ws) [] ws (ok tt)
unfolding write_all
Ends-write_all can_write ip_to_string open_to ws = record {
  ends_so = λ more before. rw (open_to before) refl;
}
