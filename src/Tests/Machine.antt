-- ===== src/Tests/Machine.antt =====
-- A machine for the tests of the OAuth code: a clock that moves at each look, a list of files whose
-- newest entry counts, and a token endpoint that always grants one token.
use bot_marshal.Prelude.{
  ℕ, ◌+◌, Text, some, Bool, true, false, ◌&&◌, List, [], ◌∷◌, ◌++◌, Result, ok, err, lit, ◌≡◌, ◌≢◌,
  refl, sym, ap, ◌∙◌, inl, inr, Bool-cases, and-eq-true, text_eq, text_eq_iff, text_eq_refl,
  if◌then◌else◌,
}
use bot_marshal.Core.Json.{Json, string, number, pos_int, object, field, end}
use bot_marshal.Secrets.Oauth.World.{Os, FilePath, ReadError, not_found}
use bot_marshal.Secrets.Oauth.Disk.{IsDisk}

pub record Machine : Type 0 where
  pub clock : ℕ
  pub files : List (FilePath × Text)

abbrev path_eq : FilePath → FilePath → Bool
path_eq p q = text_eq p.dir q.dir && text_eq p.file q.file

abbrev pub read_from : FilePath → List (FilePath × Text) → Result ReadError Text
read_from q [] = err not_found
read_from q ((p, t) ∷ files) = let later = read_from q files in if path_eq p q then ok t else later

abbrev with_file : FilePath → Text → Machine → Machine
with_file p t m = record m { files = (p, t) ∷ m.files }

abbrev append_to :
    FilePath → List ℕ → Result ReadError Text → Machine → Result Text (Unit {0}) × Machine
append_to p bytes (ok old) m = (ok tt, with_file p (old ++ bytes) m)
append_to p bytes (err e) m = (err (lit "no such file"), m)

abbrev move_to : FilePath → Result ReadError Text → Machine → Result Text (Unit {0}) × Machine
move_to q (ok t) m = (ok tt, with_file q t m)
move_to q (err e) m = (err (lit "no such file"), m)

abbrev pub token_body : Json
token_body = object (
    field (lit "access_token") (string (lit "at-1"))
      (field (lit "expires_in") (number (pos_int 3600)) end))

abbrev pub machine_os : Os Machine
machine_os = record {
  instant = λ m. (m.clock, record m { clock = m.clock + 1 });
  epoch_secs = λ m. (ok 1000, m);
  fill = λ n m. (ok (1 ∷ 2 ∷ []), m);
  exists = λ d m. false;
  create_dir = λ d m. (ok tt, m);
  dir_mode = λ d m. err (lit "no such directory");
  open_private = λ p m. (ok tt, with_file p [] m);
  write_all = λ p bytes m. append_to p bytes (read_from p m.files) m;
  sync_all = λ p m. (ok tt, m);
  rename = λ p q m. move_to q (read_from p m.files) m;
  read_to_string = λ p m. read_from p m.files;
  remove_file = λ p m. (err not_found, m);
  post_form = λ limit request m. (some (ok (200, token_body)), m);
}

path_eq_refl : (p : FilePath) → path_eq p p ≡ true
path_eq_refl p = rw (text_eq_refl p.dir, text_eq_refl p.file) refl

path_eq-other : (p q : FilePath) → q ≢ p → path_eq p q ≡ false
path_eq-other p q other = elim (Bool-cases (path_eq p q)) [
  | inr e ↦ e
  | inl e ↦
      let (d, f) = and-eq-true (text_eq p.dir q.dir) (text_eq p.file q.file) e in
      absurd (other (sym (same ((text_eq_iff p.dir q.dir).0 d) ((text_eq_iff p.file q.file).0 f))))
]
  where
    same : p.dir ≡ q.dir → p.file ≡ q.file → p ≡ q
    same d f = λ i. record { dir = d i; file = f i }

reads-new : (p : FilePath) (t : Text) (m : Machine) → read_from p (with_file p t m).files ≡ ok t
reads-new p t m = rw (path_eq_refl p) refl

reads-other :
    (p q : FilePath) (t : Text) (m : Machine)
    → q ≢ p
    → read_from q (with_file p t m).files ≡ read_from q m.files
reads-other p q t m other = rw (path_eq-other p q other) refl

append_to-same :
    (p : FilePath) (bytes : List ℕ) (old : Text) (r : Result ReadError Text) (m m' : Machine)
    → r ≡ ok old
    → append_to p bytes r m ≡ (ok tt, m')
    → read_from p m'.files ≡ ok (old ++ bytes)
append_to-same p bytes old (ok t) m m' there wrote =
    let same : t ≡ old = cc there in
    ap (λ (x : Result Text (Unit {0}) × Machine). read_from p x.1.files) (sym wrote)
    ∙ (reads-new p (t ++ bytes) m ∙ ap (λ (x : Text). ok (x ++ bytes)) same)
append_to-same p bytes old (err e) m m' there wrote = cc

append_to-other :
    (p q : FilePath) (bytes : List ℕ) (r : Result ReadError Text) (m : Machine)
    → q ≢ p
    → read_from q (append_to p bytes r m).1.files ≡ read_from q m.files
append_to-other p q bytes (ok t) m other = reads-other p q (t ++ bytes) m other
append_to-other p q bytes (err e) m other = refl

move_to-moved :
    (q : FilePath) (r : Result ReadError Text) (m m' : Machine)
    → move_to q r m ≡ (ok tt, m')
    → read_from q m'.files ≡ r
move_to-moved q (ok t) m m' moved =
    ap (λ (x : Result Text (Unit {0}) × Machine). read_from q x.1.files) (sym moved)
    ∙ reads-new q t m
move_to-moved q (err e) m m' moved = cc

move_to-failed :
    (q s : FilePath) (r : Result ReadError Text) (m m' : Machine) (e : Text)
    → move_to q r m ≡ (err e, m')
    → read_from s m'.files ≡ read_from s m.files
move_to-failed q s (ok t) m m' e moved = cc
move_to-failed q s (err x) m m' e moved =
    ap (λ (x : Result Text (Unit {0}) × Machine). read_from s x.1.files) (sym moved)

pub machine_os-IsDisk : IsDisk machine_os
machine_os-IsDisk = record {
  open_empties = λ p s s' opened.
      ap (λ (x : Result Text (Unit {0}) × Machine). read_from p x.1.files) (sym opened)
      ∙ reads-new p [] s;
  write_adds = λ p bytes old s s' there text wrote.
      append_to-same p bytes old (read_from p s.files) s s' there wrote;
  rename_moves = λ p q s s' moved. move_to-moved q (read_from p s.files) s s' moved;
  rename_fails = λ p q r s s' e moved. move_to-failed q r (read_from p s.files) s s' e moved;
  create_keeps = λ d q s. refl;
  open_keeps = λ p q s other. reads-other p q [] s other;
  write_keeps = λ p q bytes s other. append_to-other p q bytes (read_from p s.files) s other;
  sync_keeps = λ p q s. refl;
}
