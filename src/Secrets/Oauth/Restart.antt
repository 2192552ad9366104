-- ===== src/Secrets/Oauth/Restart.antt =====
-- A grant that was saved is found after a restart.
use bot_marshal.Prelude.{
  ℕ, ◌^◌, ◌<◌, Text, some, [], ◌∷◌, ok, ◌≡◌, ◌≢◌, refl, sym, ap, ◌∙◌, inl, inr, arith, true,
  Option-cases, lit, is_utf8, ltb, find_entry, text_eq,
}
use bot_marshal.Core.Json.{Number, pos_int, neg_int, float, number, get, get_field, as_str}
use bot_marshal.Secrets.Oauth.Token.{WireLib, value_as_i64, secret_field, str_field}
use bot_marshal.Secrets.Oauth.World.{
  Os, FilePath, StoredGrant, World, ◌>>=◌, ◌>>◌, perform, pure, of_result,
}
use bot_marshal.Secrets.Oauth.Store.{
  path_in, path_for, tmp_path, create_private_dir, write_private, save_grant, put_grant,
  stored_grant, remember_grant, on_path, parse_grant, read_grant, to_json, from_json,
}
use bot_marshal.Secrets.Oauth.Runs.{bind-eq-ok, perform-eq-ok}
use bot_marshal.Secrets.Oauth.Disk.{IsDisk}

-- A number that an i64 holds.
abbrev pub IsI64 : Number → Type 0
IsI64 (pos_int n) = n < 2 ^ 63
IsI64 (neg_int n) = n < 2 ^ 63
IsI64 (float n) = ⊥

value_as_i64-number : (n : Number) → IsI64 n → value_as_i64 (number n) ≡ some n
unfolding value_as_i64
value_as_i64-number (pos_int n) h =
    let fits : ltb n (2 ^ 63) ≡ true = ground (arith, h) in rw fits refl
value_as_i64-number (neg_int n) h = refl
value_as_i64-number (float n) h = absurd h

to_json-token :
    (g : StoredGrant) (c : ℕ) (t : Text)
    → g.refresh_token ≡ c ∷ t
    → secret_field (lit "refresh_token") (to_json g) ≡ some (c ∷ t)
unfolding to_json secret_field str_field get get_field as_str text_eq lit
to_json-token g c t e = rw e refl

to_json-obtained :
    (g : StoredGrant) → get (lit "obtained_at") (to_json g) ≡ some (number g.obtained_at)
unfolding to_json get get_field text_eq lit
to_json-obtained g = refl

to_json-scope : (g : StoredGrant) → str_field (lit "scope") (to_json g) ≡ g.scope
unfolding to_json str_field get get_field as_str text_eq lit
to_json-scope g = elim (Option-cases g.scope) [
  | inl absent ↦ rw absent refl
  | inr (s, there) ↦ rw there refl
]

-- The document of a grant is read as that grant.
pub from_json-to_json :
    (g : StoredGrant) (path : FilePath)
    → g.refresh_token ≢ []
    → IsI64 g.obtained_at
    → from_json (to_json g) path ≡ ok g
unfolding from_json
from_json-to_json g path some_token in_range = go g.refresh_token refl
  where
    go : (t : Text) → g.refresh_token ≡ t → from_json (to_json g) path ≡ ok g
    go [] e = absurd (some_token e)
    go (c ∷ t) e =
        rw
          (
            to_json-token g c t e,
            to_json-obtained g,
            to_json-scope g,
            value_as_i64-number g.obtained_at in_range,
            sym e,
            from_json,
          )
          refl

module _ {S : Type 0} (os : Os S) (disk : IsDisk os) where
  write_private-content :
      (p : FilePath) (bytes : Text) (w w' : World S)
      → is_utf8 bytes ≡ true
      → write_private os p bytes w ≡ (ok tt, w')
      → os.read_to_string p w'.outside ≡ ok bytes
  unfolding write_private
  write_private-content p bytes w w' text run =
      let opens = perform (on_path p) (os.open_private p) in
      let writes = perform (on_path p) (os.write_all p bytes) in
      let syncs = perform (on_path p) (os.sync_all p) in
      let (u, w2, both, synced) = bind-eq-ok (opens >> writes) (λ _. syncs) w w' tt run in
      let (v, w1, opened, written) = bind-eq-ok opens (λ _. writes) w w2 u both in
      let empty =
        disk.open_empties p w.outside w1.outside
          (perform-eq-ok (on_path p) (os.open_private p) w w1 v opened) in
      let full =
        disk.write_adds p bytes [] w1.outside w2.outside empty text
          (perform-eq-ok (on_path p) (os.write_all p bytes) w1 w2 u written) in
      let kept = disk.sync_keeps p p w2.outside in
      let last = perform-eq-ok (on_path p) (os.sync_all p) w2 w' tt synced in
      ap (λ r. os.read_to_string p r.1) (sym last) ∙ (kept ∙ full)

  module _ (lib : WireLib) where
    save_grant-content :
        (swap : Text) (g : StoredGrant) (path : FilePath) (w w' : World S)
        → is_utf8 (lib.to_vec_pretty (to_json g)) ≡ true
        → save_grant os lib swap g path w ≡ (ok tt, w')
        → os.read_to_string path w'.outside ≡ ok (lib.to_vec_pretty (to_json g))
    unfolding save_grant remember_grant
    save_grant-content swap g path w w' text run =
        let bytes = lib.to_vec_pretty (to_json g) in
        let creates = create_private_dir os path.dir in
        let writes = write_private os (tmp_path path) bytes in
        let renames = perform (on_path path) (os.rename (tmp_path path) path) in
        let (u, w3, before, last) =
          bind-eq-ok (creates >> writes >> renames) (λ _. remember_grant swap g) w w' tt run in
        let (v, w2, wrote, renamed) = bind-eq-ok (creates >> writes) (λ _. renames) w w3 u before in
        let (x, w1, made, written) = bind-eq-ok creates (λ _. writes) w w2 v wrote in
        let full = write_private-content (tmp_path path) bytes w1 w2 text written in
        let moved =
          disk.rename_moves (tmp_path path) path w2.outside w3.outside
            (perform-eq-ok (on_path path) (os.rename (tmp_path path) path) w2 w3 u renamed) in
        ap (λ r. os.read_to_string path r.1.outside) (sym last) ∙ (moved ∙ full)

    read_grant-printed :
        (swap : Text) (g : StoredGrant) (path : FilePath) (w : World S)
        → g.refresh_token ≢ []
        → IsI64 g.obtained_at
        → lib.from_slice (lib.to_vec_pretty (to_json g)) ≡ ok (to_json g)
        → (read_grant os lib swap path (ok (lib.to_vec_pretty (to_json g))) w).0 ≡ ok (some g)
    unfolding read_grant parse_grant remember_grant
    read_grant-printed swap g path w some_token in_range printed =
        ap (λ r. ((of_result r >>= λ h. remember_grant swap h >> pure (some h)) w).0) parsed
      where
        parsed : parse_grant os lib path (lib.to_vec_pretty (to_json g)) ≡ ok g
        parsed = rw (printed, parse_grant) (from_json-to_json g path some_token in_range)

    -- What a successful `put_grant` saved, the store of a restarted process reads.
    pub stored_grant-put_grant :
        (dir swap : Text) (g : StoredGrant) (w w' restarted : World S)
        → w.store.dir ≡ some dir
        → g.refresh_token ≢ []
        → IsI64 g.obtained_at
        → lib.from_slice (lib.to_vec_pretty (to_json g)) ≡ ok (to_json g)
        → is_utf8 (lib.to_vec_pretty (to_json g)) ≡ true
        → put_grant os lib swap g w ≡ (ok tt, w')
        → restarted.store ≡ record { dir = some dir; access = []; grants = [] }
        → restarted.outside ≡ w'.outside
        → (stored_grant os lib swap restarted).0 ≡ ok (some g)
    unfolding put_grant stored_grant path_for find_entry
    stored_grant-put_grant dir swap g w w' restarted in_dir some_token in_range printed text run
          fresh same =
        let path = path_in dir swap in
        let here : path_for w.store swap ≡ some path = rw in_dir refl in
        let file = save_grant-content swap g path w w' text (rw (here, put_grant) at run) in
        let reads : os.read_to_string path restarted.outside ≡ ok (lib.to_vec_pretty (to_json g)) =
          rw same file in
        rw (fresh, reads) (read_grant-printed swap g path _ some_token in_range printed)
