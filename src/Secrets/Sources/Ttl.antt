-- ===== src/Secrets/Sources/Ttl.antt =====
-- How old a secret out of a file can be.
use bot_marshal.Prelude.{
  ℕ, ◌-◌, ◌<◌, ◌≤◌, Text, Option, none, some, true, Result, ok, err, ◌≡◌, ◌⊎◌, inl, inr, refl, ap,
  subst, ◌∙◌, arith, Bool-cases, Result-cases, ltb,
}
use bot_marshal.Core.Json.{Json}
use bot_marshal.Secrets.Sources.{FileSource, read_secret, keep_fresh, resolve_file}

ltb→lt : (a b : ℕ) → ltb a b ≡ true → a < b
ltb→lt a b h = ground (arith, h)

module _ (from_str : Text → Result Text Json) where
  -- Against what was in the file at each instant: what the source keeps was in it at an instant that is not
  -- behind the noted one.
  abbrev pub IsRecent : (ℕ → Result Text Text) → FileSource → Type 0
  IsRecent file f =
      (f.kept ≡ none)
      ⊎ (at : ℕ) × (v : Text) × (read : ℕ) × (f.kept ≡ some (at, v))
        × (read ≤ at)
        × (read_secret from_str f (file read) ≡ ok v)

  -- A value that was in the file at an instant not behind one that was noted less than the time to live
  -- ago, or that this call read.
  pub record IsTimely (file : ℕ → Result Text Text) (f : FileSource) (now read : ℕ) (v : Text)
      : Type 0 where
    pub instant : ℕ
    pub was_read : read_secret from_str f (file instant) ≡ ok v
    pub timely :
        ((at : ℕ) × (f.kept ≡ some (at, v)) × (instant ≤ at) × (now - at < f.ttl))
        ⊎ (instant ≡ read)

  read_secret-kept :
      (f : FileSource) (k : Option (ℕ × Text)) (r : Result Text Text)
      → read_secret from_str (record f { kept = k }) r ≡ read_secret from_str f r
  unfolding read_secret
  read_secret-kept f k (ok t) = refl
  read_secret-kept f k (err e) = refl

  renewed :
      (file : ℕ → Result Text Text) (f f' : FileSource) (now read noted : ℕ) (v : Text)
      → read ≤ noted
      → keep_fresh from_str f noted (read_secret from_str f (file read)) ≡ (ok v, f')
      → IsTimely file f now read v × IsRecent file f'
  renewed file f f' now read noted v order run =
      elim (Result-cases (read_secret from_str f (file read))) [
        | inl (u, got) ↦
            let there = rw got at run in
            let same : u ≡ v = cc (ap (λ p. p.0) there) in
            let next : record f { kept = some (noted, u) } ≡ f' = ap (λ p. p.1) there in
            (
              record { instant = read; was_read = got ∙ ap ok same; timely = inr refl },
              subst (IsRecent file) next (
                  inr (
                    noted,
                    u,
                    read,
                    refl,
                    order,
                    read_secret-kept f (some (noted, u)) (file read) ∙ got,
                  )),
            )
        | inr (e, bad) ↦ absurd (cc (ap (λ p. p.0) (rw bad at run)))
      ]

  -- With a file that is read before the instant that is noted for it: what the source gives was read by
  -- this call, or was in the file no later than an instant that was noted less than the time to live ago;
  -- and what it keeps afterwards was in the file no later than the instant noted for it.
  pub resolve_file-IsTimely :
      (file : ℕ → Result Text Text) (f f' : FileSource) (now read noted : ℕ) (v : Text)
      → read ≤ noted
      → IsRecent file f
      → resolve_file from_str now noted (file read) f ≡ (ok v, f')
      → IsTimely file f now read v × IsRecent file f'
  unfolding resolve_file
  resolve_file-IsTimely file f f' now read noted v order (inl nothing) run =
      renewed file f f' now read noted v order (rw (nothing, resolve_file) at run)
  resolve_file-IsTimely file f f' now read noted v order (inr (at, w, was, kept, behind, got)) run =
      elim (Bool-cases (ltb (now - at) f.ttl)) [
        | inr old ↦ renewed file f f' now read noted v order (rw (kept, old, resolve_file) at run)
        | inl young ↦
            let there = rw (kept, young, resolve_file) at run in
            let same : w ≡ v = cc (ap (λ p. p.0) there) in
            let unchanged : f ≡ f' = ap (λ p. p.1) there in
            (
              record {
                instant = was;
                was_read = got ∙ ap ok same;
                timely = inl (
                  at,
                  kept ∙ ap (λ (u : Text). some (at, u)) same,
                  behind,
                  ltb→lt (now - at) f.ttl young,
                );
              },
              subst (IsRecent file) unchanged (inr (at, w, was, kept, behind, got)),
            )
      ]
