-- ===== src/Proxy/Sniff/Entries.antt =====
-- The entries of a name list and the extensions of a hello, written out and read in the loops.
use bot_marshal.Prelude.{
  ℕ, zero, suc, ◌+◌, ◌<◌, ◌≤◌, false, List, [], ◌∷◌, ◌++◌, ◌≡◌, ◌≢◌, refl, ap, ◌∙◌, arith, All,
  append_assoc, append-nil, subst, if◌then◌else◌, ==_refl, length, length-append, ltb, ◌==◌,
}
use bot_marshal.Proxy.Cursor.{Reader, Parse, pure, give_up, remaining}
use bot_marshal.Proxy.Cursor.Reads.{
  IsAt, Reads, Reads-bind, Reads-map, Reads-pure, Reads-take, Reads-u8, Reads-u16, one_byte,
  two_bytes, remaining-rest,
}
use bot_marshal.Proxy.Sniff.{
  expect, name_entry, extension, named, host_name, server_name, find_name,
}

-- An entry of the name list and an extension: a type, a length, and the bytes.
unfoldable pub entry_bytes : ℕ × List ℕ → List ℕ
entry_bytes (kind, name) = one_byte kind ++ (two_bytes (length name) ++ name)

unfoldable pub extension_bytes : ℕ × List ℕ → List ℕ
extension_bytes (kind, body) = two_bytes kind ++ (two_bytes (length body) ++ body)

unfoldable pub concat_of : (ℕ × List ℕ → List ℕ) → List (ℕ × List ℕ) → List ℕ
concat_of bytes [] = []
concat_of bytes (x ∷ xs) = bytes x ++ concat_of bytes xs

abbrev pub IsOther : ℕ × List ℕ → Type 0
IsOther item = item.0 ≢ 0

pub expect-Reads :
    (kind : ℕ) {p : Parse ℕ} {xs : List ℕ} → Reads p xs kind → Reads (expect kind p) xs tt
expect-Reads kind {p = p} {xs = xs} h =
    let accept : Reads (if kind == kind then pure tt else give_up) [] tt =
      rw (==_refl kind) (Reads-pure tt) in
    subst (λ zs. Reads (expect kind p) zs tt) (append-nil xs) (Reads-bind _ h accept)

name_entry-Reads : (item : ℕ × List ℕ) → Reads name_entry (entry_bytes item) item
unfolding name_entry entry_bytes
name_entry-Reads (kind, name) = Reads-bind _ (Reads-u8 kind) (
    Reads-bind _ (Reads-u16 (length name))
      (Reads-map (λ b. (kind, b)) (Reads-take (length name) name refl)))

extension-Reads : (item : ℕ × List ℕ) → Reads extension (extension_bytes item) item
unfolding extension extension_bytes
extension-Reads (kind, body) = Reads-bind _ (Reads-u16 kind) (
    Reads-bind _ (Reads-u16 (length body))
      (Reads-map (λ b. (kind, b)) (Reads-take (length body) body refl)))

pub length-concat_of :
    (bytes : ℕ × List ℕ → List ℕ)
    → ((x : ℕ × List ℕ) → 1 ≤ length (bytes x))
    → (xs : List (ℕ × List ℕ)) (zs : List ℕ)
    → length xs + length zs ≤ length (concat_of bytes xs ++ zs)
unfolding concat_of
length-concat_of bytes h [] zs = omega arith
length-concat_of bytes h (x ∷ xs) zs = omega (
  arith,
  h x,
  length-concat_of bytes h xs zs,
  length-append (bytes x ++ concat_of bytes xs) zs,
  length-append (bytes x) (concat_of bytes xs),
  length-append (concat_of bytes xs) zs,
)

pub entry_bytes-le : (x : ℕ × List ℕ) (zs : List ℕ) → 3 ≤ length (entry_bytes x ++ zs)
unfolding entry_bytes
entry_bytes-le (kind, name) zs = omega arith

pub extension_bytes-le : (x : ℕ × List ℕ) (zs : List ℕ) → 4 ≤ length (extension_bytes x ++ zs)
unfolding extension_bytes
extension_bytes-le (kind, body) zs = omega arith

IsAt-assoc :
    (xs ys zs : List ℕ) (r : Reader) → IsAt ((xs ++ ys) ++ zs) r → IsAt (xs ++ (ys ++ zs)) r
IsAt-assoc xs ys zs r h = subst (λ l. IsAt l r) (append_assoc xs ys zs) h

enough_left :
    (n : ℕ) (zs : List ℕ) (r : Reader) → IsAt zs r → n ≤ length zs → ltb (remaining r) n ≡ false
enough_left n zs r h le =
    let e : remaining r ≡ length zs = remaining-rest r ∙ ap (λ l. length l) h.unread in ground arith

pub host_name-finds :
    (before : List (ℕ × List ℕ)) (host after : List ℕ) (fuel : ℕ) (r : Reader)
    → All IsOther before
    → length before < fuel
    → IsAt (concat_of entry_bytes before ++ (entry_bytes (0, host) ++ after)) r
    → host_name fuel r ≡ named host
unfolding host_name concat_of
host_name-finds before host after zero r others more h = absurd (omega (arith, more))
host_name-finds [] host after (suc fuel) r others more h =
    let left = enough_left 3 _ r h (entry_bytes-le (0, host) after) in
    let (r1, (e1, at1)) = (name_entry-Reads (0, host)).read r after h in rw (left, e1) refl
host_name-finds (x ∷ before) host after (suc fuel) r others more h =
    let tail = concat_of entry_bytes before ++ (entry_bytes (0, host) ++ after) in
    let at =
      IsAt-assoc (entry_bytes x) (concat_of entry_bytes before) (entry_bytes (0, host) ++ after) r
        h in
    let left = enough_left 3 _ r at (entry_bytes-le x tail) in
    let (r1, (e1, at1)) = (name_entry-Reads x).read r tail at in
    let other : (x.0 == 0) ≡ false = ground (arith, others.0) in
    rw (left, e1, other)
      (host_name-finds before host after fuel r1 others.1 (omega (arith, more)) at1)

pub find_name-finds :
    (before : List (ℕ × List ℕ)) (body after : List ℕ) (fuel : ℕ) (r : Reader)
    → All IsOther before
    → length before < fuel
    → IsAt (concat_of extension_bytes before ++ (extension_bytes (0, body) ++ after)) r
    → find_name fuel r ≡ server_name body
unfolding find_name concat_of
find_name-finds before body after zero r others more h = absurd (omega (arith, more))
find_name-finds [] body after (suc fuel) r others more h =
    let left = enough_left 4 _ r h (extension_bytes-le (0, body) after) in
    let (r1, (e1, at1)) = (extension-Reads (0, body)).read r after h in rw (left, e1) refl
find_name-finds (x ∷ before) body after (suc fuel) r others more h =
    let tail = concat_of extension_bytes before ++ (extension_bytes (0, body) ++ after) in
    let at =
      IsAt-assoc (extension_bytes x) (concat_of extension_bytes before)
        (extension_bytes (0, body) ++ after) r h in
    let left = enough_left 4 _ r at (extension_bytes-le x tail) in
    let (r1, (e1, at1)) = (extension-Reads x).read r tail at in
    let other : (x.0 == 0) ≡ false = ground (arith, others.0) in
    rw (left, e1, other)
      (find_name-finds before body after fuel r1 others.1 (omega (arith, more)) at1)

pub entry_bytes-pos : (x : ℕ × List ℕ) → 1 ≤ length (entry_bytes x)
unfolding entry_bytes
entry_bytes-pos (kind, name) = omega arith

pub extension_bytes-pos : (x : ℕ × List ℕ) → 1 ≤ length (extension_bytes x)
unfolding extension_bytes
extension_bytes-pos (kind, body) = omega arith
