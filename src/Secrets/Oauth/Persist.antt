-- ===== src/Secrets/Oauth/Persist.antt =====
-- Saving a grant: a failure loses nothing, and a restart finds what was saved.
use bot_marshal.Prelude.{
  ℕ, Text, List, [], ◌∷◌, ◌++◌, Result, ok, err, ◌≡◌, ◌≢◌, refl, sym, ap, ◌∙◌, inl, inr, arith,
  Bool-cases, Option-cases, lit, rsplit_once,
}
use bot_marshal.Core.Encoding.{percent_encode}
use bot_marshal.Core.Error.{Error}
use bot_marshal.Secrets.Oauth.Token.{WireLib}
use bot_marshal.Secrets.Oauth.World.{
  Os, FilePath, StoredGrant, World, Fault, ◌>>◌, perform, of_result,
}
use bot_marshal.Secrets.Oauth.Store.{
  path_in, path_for, tmp_path, with_extension, create_private_dir, write_private, save_grant,
  put_grant, remember_grant, check_mode, stem_of, creating, on_path, to_json,
}
use bot_marshal.Secrets.Oauth.Runs.{
  content, Quiet, Atomic, bind-Quiet, bind-Atomic, bind_sure-Atomic,
}
use bot_marshal.Secrets.Oauth.Disk.{IsDisk}

last : Text → ℕ
last [] = 0
last (c ∷ []) = c
last (c ∷ d ∷ s) = last (d ∷ s)

last-append : (s : Text) (c : ℕ) (t : Text) → last (s ++ (c ∷ t)) ≡ last (c ∷ t)
unfolding last
last-append [] c t = refl
last-append (d ∷ []) c t = refl
last-append (d ∷ e ∷ s) c t = last-append (e ∷ s) c t

last-path_in : (dir swap : Text) → last (path_in dir swap).file ≡ b'n'
unfolding path_in lit last
last-path_in dir swap = last-append (percent_encode swap) _ _

last-tmp_path : (p : FilePath) → last (tmp_path p).file ≡ b'p'
unfolding tmp_path with_extension lit last
last-tmp_path p = last-append (stem_of p.file (rsplit_once b'.' p.file)) b'.' (lit "json.tmp")

-- No swap's grant is kept under a temporary name.
tmp_path-other : (dir swap : Text) (p : FilePath) → path_in dir swap ≢ tmp_path p
tmp_path-other dir swap p e =
    differ (sym (last-path_in dir swap) ∙ (ap (λ (r : FilePath). last r.file) e ∙ last-tmp_path p))
  where
    differ : ◌≡◌ {A = ℕ} 110 112 → ⊥
    differ h = omega (arith, h)

module _ {S : Type 0} (w : World S) where
  of_result_store : {A : Type 0} (r : Result Error A) → (of_result r w).1.store ≡ w.store
  of_result_store (ok a) = refl
  of_result_store (err e) = refl

  of_result_outside : {A : Type 0} (r : Result Error A) → (of_result r w).1.outside ≡ w.outside
  of_result_outside (ok a) = refl
  of_result_outside (err e) = refl

module _ {S : Type 0} (os : Os S) (disk : IsDisk os) where
  perform-Quiet :
      (q : FilePath) (f : Text → Error) (op : S → Result Text (Unit {0}) × S)
      → ((s : S) → os.read_to_string q (op s).1 ≡ os.read_to_string q s)
      → Quiet os q (perform f op)
  perform-Quiet q f op h = record {
    store_same = λ w. same (op w.outside) w;
    file_same = λ w. reads (op w.outside) w ∙ h w.outside;
  }
    where
      same :
          (r : Result Text (Unit {0}) × S) (w : World S) → (perform f (λ _. r) w).1.store ≡ w.store
      same (ok u, s) w = refl
      same (err e, s) w = refl

      reads :
          (r : Result Text (Unit {0}) × S) (w : World S)
          → os.read_to_string q (perform f (λ _. r) w).1.outside ≡ os.read_to_string q r.1
      reads (ok u, s) w = refl
      reads (err e, s) w = refl

  module _ (dir swap : Text) where
    grant_file : FilePath
    grant_file = path_in dir swap

    create-Quiet : (d : Text) → Quiet os grant_file (create_private_dir os d)
    unfolding create_private_dir
    create-Quiet d = record {
      store_same = λ w. elim (Bool-cases (os.exists d w.outside)) [
        | inl there ↦ rw there (of_result_store w (check_mode d (os.dir_mode d w.outside)))
        | inr new ↦ rw new (made.store_same w)
      ];
      file_same = λ w. elim (Bool-cases (os.exists d w.outside)) [
        | inl there ↦ rw there (
            ap (os.read_to_string grant_file)
              (of_result_outside w (check_mode d (os.dir_mode d w.outside))))
        | inr new ↦ rw new (made.file_same w)
      ];
    }
      where
        made : Quiet os grant_file (perform (creating d) (os.create_dir d))
        made =
            perform-Quiet grant_file (creating d) (os.create_dir d) (disk.create_keeps d grant_file)

    write-Quiet :
        (p : FilePath) (bytes : List ℕ) → Quiet os grant_file (write_private os (tmp_path p) bytes)
    unfolding write_private grant_file
    write-Quiet p bytes =
        let t = tmp_path p in
        let other = tmp_path-other dir swap p in
        let opens = perform (on_path t) (os.open_private t) in
        let writes = perform (on_path t) (os.write_all t bytes) in
        let syncs = perform (on_path t) (os.sync_all t) in
        bind-Quiet os grant_file (opens >> writes) (λ _. syncs)
          (bind-Quiet os grant_file opens (λ _. writes)
            (perform-Quiet grant_file (on_path t) (os.open_private t)
              (λ s. disk.open_keeps t grant_file s other))
            (λ _.
              perform-Quiet grant_file (on_path t) (os.write_all t bytes)
                (λ s. disk.write_keeps t grant_file bytes s other)))
          (λ _. perform-Quiet grant_file (on_path t) (os.sync_all t) (disk.sync_keeps t grant_file))

    rename-Atomic : (p q : FilePath) → Atomic os grant_file (perform (on_path q) (os.rename p q))
    rename-Atomic p q = record {
      store_kept = λ w w' e run. same (os.rename p q w.outside) w w' e run;
      file_kept = λ w w' e run. file (os.rename p q w.outside) w w' e refl run;
    }
      where
        same :
            (r : Result Text (Unit {0}) × S) (w w' : World S) (e : Fault)
            → perform (on_path q) (λ _. r) w ≡ (err e, w')
            → w'.store ≡ w.store
        same (ok u, s) w w' e run = cc
        same (err x, s) w w' e run = ap (λ p. p.1.store) (sym run)

        file :
            (r : Result Text (Unit {0}) × S) (w w' : World S) (e : Fault)
            → os.rename p q w.outside ≡ r
            → perform (on_path q) (λ _. r) w ≡ (err e, w')
            → content os grant_file w' ≡ content os grant_file w
        file (ok u, s) w w' e did run = cc
        file (err x, s) w w' e did run =
            ap (λ p. content os grant_file p.1) (sym run)
            ∙ disk.rename_fails p q grant_file w.outside s x did

    module _ (lib : WireLib) where
      save_grant-Atomic :
          (name : Text) (g : StoredGrant) (p : FilePath)
          → Atomic os grant_file (save_grant os lib name g p)
      unfolding save_grant remember_grant
      save_grant-Atomic name g p =
          let bytes = lib.to_vec_pretty (to_json g) in
          let creates = create_private_dir os p.dir in
          let writes = write_private os (tmp_path p) bytes in
          let renames = perform (on_path p) (os.rename (tmp_path p) p) in
          bind_sure-Atomic os grant_file (creates >> writes >> renames) (λ _. remember_grant name g)
            (bind-Atomic os grant_file (creates >> writes) (λ _. renames)
              (bind-Quiet os grant_file creates (λ _. writes) (create-Quiet p.dir)
                (λ _. write-Quiet p bytes))
              (λ _. rename-Atomic (tmp_path p) p))
            (λ a w w' e. remember_grant-sure g w w' e)
        where
          remember_grant-sure :
              (g : StoredGrant) (w w' : World S) (e : Fault) → remember_grant name g w ≢ (err e, w')
          remember_grant-sure g w w' e h = cc

-- When a grant cannot be saved, the store and the grant file of every swap are as they were.
pub put_grant-failed :
    {S : Type 0} (os : Os S) (disk : IsDisk os) (lib : WireLib) (dir swap name : Text)
    (g : StoredGrant) (w w' : World S) (e : Fault)
    → put_grant os lib name g w ≡ (err e, w')
    → (w'.store ≡ w.store)
      × (os.read_to_string (path_in dir swap) w'.outside
          ≡ os.read_to_string (path_in dir swap) w.outside)
unfolding put_grant grant_file
put_grant-failed os disk lib dir swap name g w w' e run =
    elim (Option-cases (path_for w.store name)) [
      | inl nowhere ↦
          let there = rw (nowhere, put_grant) at run in
          (
            ap (λ p. p.1.store) (sym there),
            ap (λ p. os.read_to_string (path_in dir swap) p.1.outside) (sym there),
          )
      | inr (path, somewhere) ↦
          let saved = save_grant-Atomic os disk dir swap lib name g path in
          let there = rw (somewhere, put_grant) at run in
          (saved.store_kept w w' e there, saved.file_kept w w' e there)
    ]
