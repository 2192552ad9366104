-- ===== src/Secrets/Oauth/Disk.antt =====
-- What the store relies on of the file system: documented behaviour of std::fs on Unix.
use bot_marshal.Prelude.{Text, List, [], ◌++◌, ℕ, ok, err, true, ◌≡◌, ◌≢◌, is_utf8}
use bot_marshal.Secrets.Oauth.World.{Os, FilePath}

module _ {S : Type 0} (os : Os S) where
  pub record IsDisk : Type 0 where
    -- A file that was opened to be written is empty, and is written to at its end.
    pub open_empties :
        (p : FilePath) (s s' : S)
        → os.open_private p s ≡ (ok tt, s')
        → os.read_to_string p s' ≡ ok []
    pub write_adds :
        (p : FilePath) (bytes : List ℕ) (old : Text) (s s' : S)
        → os.read_to_string p s ≡ ok old
        → is_utf8 (old ++ bytes) ≡ true
        → os.write_all p bytes s ≡ (ok tt, s')
        → os.read_to_string p s' ≡ ok (old ++ bytes)
    -- A rename gives the file its new name at once, or does nothing.
    pub rename_moves :
        (p q : FilePath) (s s' : S)
        → os.rename p q s ≡ (ok tt, s')
        → os.read_to_string q s' ≡ os.read_to_string p s
    pub rename_fails :
        (p q r : FilePath) (s s' : S) (e : Text)
        → os.rename p q s ≡ (err e, s')
        → os.read_to_string r s' ≡ os.read_to_string r s
    -- Other files stay as they are, whether the operation succeeds or not.
    pub create_keeps :
        (dir : Text) (q : FilePath) (s : S)
        → os.read_to_string q (os.create_dir dir s).1 ≡ os.read_to_string q s
    pub open_keeps :
        (p q : FilePath) (s : S)
        → q ≢ p
        → os.read_to_string q (os.open_private p s).1 ≡ os.read_to_string q s
    pub write_keeps :
        (p q : FilePath) (bytes : List ℕ) (s : S)
        → q ≢ p
        → os.read_to_string q (os.write_all p bytes s).1 ≡ os.read_to_string q s
    pub sync_keeps :
        (p q : FilePath) (s : S) → os.read_to_string q (os.sync_all p s).1 ≡ os.read_to_string q s
