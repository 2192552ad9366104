-- ===== src/Proxy/Identity/Attributes.antt =====
-- Whom the registry attributes a connection to.
use bot_marshal.Prelude.{
  ℕ, Text, Option, none, some, Bool, true, false, List, [], ◌∷◌, ◌≡◌, ◌⊎◌, refl, sym, ap, ◌∙◌,
  arith, All, Any, inl, inr, Bool-cases, Option-cases, and-eq-true, text_eq, text_eq_iff, lit,
}
use bot_marshal.Proxy.Identity.{
  ConnInfo, Credential, PeerCred, Resolved, Entry, first_match, match_key, is_credential,
  constant_time_eq, IdentityLib, IdentityResolver, source_ip, peer_cred_resolver, listener_port,
  proxy_auth_resolver, resolve_cred, with_cred, resolve_with, IdentityRegistry, unidentified,
  resolve_first, resolve, or_else, attribute,
}
use bot_marshal.Proxy.Identity.ConstantTime.{IsByte, constant_time_eq_iff}

abbrev marked : Option Resolved → Bool
marked none = true
marked (some r) = r.attributed

-- An answer, if there is one, is marked as attributed.
record IsAttributed (o : Option Resolved) : Type 0 where
  mark : marked o ≡ true

first_match-hit :
    {K : Type 0} (resolver : Text) (p : K → Bool) (x : Entry K) (entries : List (Entry K))
    → p x.key ≡ true
    → first_match resolver p (x ∷ entries) ≡ some (attribute resolver x)
unfolding first_match
first_match-hit resolver p x entries on = rw (first_match, on) refl

first_match-miss :
    {K : Type 0} (resolver : Text) (p : K → Bool) (x : Entry K) (entries : List (Entry K))
    → p x.key ≡ false
    → first_match resolver p (x ∷ entries) ≡ first_match resolver p entries
unfolding first_match
first_match-miss resolver p x entries off = rw (first_match, off) refl

first_match-IsAttributed :
    {K : Type 0} (resolver : Text) (p : K → Bool) (entries : List (Entry K))
    → IsAttributed (first_match resolver p entries)
unfolding first_match
first_match-IsAttributed resolver p [] = record { mark = refl }
first_match-IsAttributed resolver p (x ∷ entries) = elim (Bool-cases (p x.key)) [
  | inl on ↦ rw (first_match-hit resolver p x entries on) (record { mark = refl })
  | inr off ↦
      rw (first_match-miss resolver p x entries off) (first_match-IsAttributed resolver p entries)
]

match_key-IsAttributed :
    {J K : Type 0} (resolver : Text) (p : J → K → Bool) (j : Option J) (entries : List (Entry K))
    → IsAttributed (match_key resolver p j entries)
unfolding match_key
match_key-IsAttributed resolver p none entries = record { mark = refl }
match_key-IsAttributed resolver p (some j) entries = first_match-IsAttributed resolver (p j) entries

or_else-IsAttributed :
    (o later : Option Resolved)
    → IsAttributed o
    → IsAttributed later
    → IsAttributed (or_else o later)
or_else-IsAttributed none later h g = g
or_else-IsAttributed (some r) later h g = h

module _ (lib : IdentityLib) where
  with_cred-IsAttributed :
      (uids gids : List (Entry ℕ)) (cgroups : List (Entry lib.GlobMatcher)) (cred : Option PeerCred)
      → IsAttributed (with_cred lib uids gids cgroups cred)
  unfolding with_cred resolve_cred
  with_cred-IsAttributed uids gids cgroups none = record { mark = refl }
  with_cred-IsAttributed uids gids cgroups (some cred) =
      or_else-IsAttributed _ _ (match_key-IsAttributed _ _ cred.uid uids) (
        or_else-IsAttributed _ _ (match_key-IsAttributed _ _ cred.gid gids)
          (match_key-IsAttributed _ _ cred.cgroup cgroups))

  resolve_with-IsAttributed :
      (r : IdentityResolver lib) (conn : ConnInfo) → IsAttributed (resolve_with lib r conn)
  unfolding resolve_with
  resolve_with-IsAttributed (source_ip entries) conn = first_match-IsAttributed _ _ entries
  resolve_with-IsAttributed (peer_cred_resolver uids gids cgroups) conn =
      with_cred-IsAttributed uids gids cgroups conn.peer_cred
  resolve_with-IsAttributed (listener_port entries) conn = first_match-IsAttributed _ _ entries
  resolve_with-IsAttributed (proxy_auth_resolver entries) conn =
      match_key-IsAttributed _ is_credential conn.proxy_auth entries

  -- The answer is the first one that a resolver gives.
  pub IsFirst : List (IdentityResolver lib) → ConnInfo → Resolved → Type 0
  IsFirst [] conn found = ⊥
  IsFirst (r ∷ resolvers) conn found =
      (resolve_with lib r conn ≡ some found)
      ⊎ ((resolve_with lib r conn ≡ none) × IsFirst resolvers conn found)

  pub IsSilent : ConnInfo → IdentityResolver lib → Type 0
  IsSilent conn r = resolve_with lib r conn ≡ none

  resolve_first_lem :
      (fallback : Option Text) (resolvers : List (IdentityResolver lib)) (conn : ConnInfo)
      → (IsFirst resolvers conn (resolve_first lib fallback resolvers conn)
          × ((resolve_first lib fallback resolvers conn).attributed ≡ true))
        ⊎ (All (IsSilent conn) resolvers
            × (resolve_first lib fallback resolvers conn ≡ unidentified lib fallback))
  unfolding resolve_first IsFirst IsSilent
  resolve_first_lem fallback [] conn = inr (tt, refl)
  resolve_first_lem fallback (r ∷ resolvers) conn = elim (Option-cases (resolve_with lib r conn)) [
    | inr (found, e) ↦
        let mark : found.attributed ≡ true =
          sym (ap marked e) ∙ (resolve_with-IsAttributed r conn).mark in
        let it : resolve_first lib fallback (r ∷ resolvers) conn ≡ found =
          rw (resolve_first, e) refl in
        inl (rw it (inl e), rw it mark)
    | inl silent ↦
        let it : resolve_first lib fallback (r ∷ resolvers) conn
            ≡ resolve_first lib fallback resolvers conn =
          rw (resolve_first, silent) refl in
        elim (resolve_first_lem fallback resolvers conn) [
          | inl (first, mark) ↦ inl (rw it (inr (silent, first)), rw it mark)
          | inr (all_silent, e) ↦ inr ((silent, all_silent), it ∙ e)
        ]
  ]

-- The registry gives the answer of the first resolver that has one, marked as attributed; if none has
-- one, the identity `unidentified` under the fallback profile, marked as not attributed.
pub resolve_lem :
    (lib : IdentityLib) (registry : IdentityRegistry lib) (conn : ConnInfo)
    → (IsFirst lib registry.resolvers conn (resolve lib registry conn)
        × ((resolve lib registry conn).attributed ≡ true))
      ⊎ (All (IsSilent lib conn) registry.resolvers
          × ((resolve lib registry conn ≡ unidentified lib registry.fallback_profile)
              × ((resolve lib registry conn).attributed ≡ false)))
unfolding resolve
resolve_lem lib registry conn =
    elim (resolve_first_lem lib registry.fallback_profile registry.resolvers conn) [
      | inl first ↦ inl first
      | inr (silent, e) ↦ inr (silent, (e, ap (λ r. r.attributed) e))
    ]

-- Every password among the entries is made of bytes.
abbrev pub HasBytePasswords : List (Entry (Text × Text)) → Type 0
HasBytePasswords entries = All (λ e. All IsByte e.key.1) entries

-- The entry's user and password are those of the credential.
abbrev pub IsHolder : Credential → Resolved → Entry (Text × Text) → Type 0
IsHolder cred r e =
    (e.key.0 ≡ cred.user) × ((e.key.1 ≡ cred.password) × (r ≡ attribute (lit "proxy_auth") e))

IsHolder-first_match :
    (cred : Credential) (entries : List (Entry (Text × Text))) (r : Resolved)
    → All IsByte cred.password
    → HasBytePasswords entries
    → first_match (lit "proxy_auth") (is_credential cred) entries ≡ some r
    → Any (IsHolder cred r) entries
unfolding first_match
IsHolder-first_match cred [] r given bytes e = absurd (nobody r e)
  where
    nobody :
        (r : Resolved)
        → first_match {K = Text × Text} (lit "proxy_auth") (is_credential cred) [] ≡ some r
        → ⊥
    nobody r e = cc
IsHolder-first_match cred (x ∷ entries) r given bytes e =
    elim (Bool-cases (is_credential cred x.key)) [
      | inl on ↦
          let (user, password) =
            and-eq-true (text_eq x.key.0 cred.user) (constant_time_eq x.key.1 cred.password) on in
          inl (
            (text_eq_iff x.key.0 cred.user).0 user,
            (
              (constant_time_eq_iff x.key.1 cred.password bytes.0 given).0 password,
              the_same (sym e ∙ first_match-hit _ (is_credential cred) x entries on),
            ),
          )
      | inr off ↦ inr (
          IsHolder-first_match cred entries r given bytes.1
            (sym (first_match-miss _ (is_credential cred) x entries off) ∙ e))
    ]
  where
    the_same : {s : Resolved} → some r ≡ some s → r ≡ s
    the_same e = ground arith

IsHolder-match_key :
    (cred : Option Credential) (entries : List (Entry (Text × Text))) (r : Resolved)
    → HasBytePasswords entries
    → ((c : Credential) → cred ≡ some c → All IsByte c.password)
    → match_key (lit "proxy_auth") is_credential cred entries ≡ some r
    → (c : Credential) × (cred ≡ some c) × Any (IsHolder c r) entries
unfolding match_key
IsHolder-match_key none entries r bytes given e = cc
IsHolder-match_key (some c) entries r bytes given e =
    (c, refl, IsHolder-first_match c entries r (given c refl) bytes e)

-- The resolver of credentials attributes a connection only if the client gave both the user and the
-- password of one of its entries, and then to the identity and profile of such an entry.
pub resolve_with-IsHolder :
    (lib : IdentityLib) (entries : List (Entry (Text × Text))) (conn : ConnInfo) (r : Resolved)
    → HasBytePasswords entries
    → ((c : Credential) → conn.proxy_auth ≡ some c → All IsByte c.password)
    → resolve_with lib (proxy_auth_resolver entries) conn ≡ some r
    → (c : Credential) × (conn.proxy_auth ≡ some c) × Any (IsHolder c r) entries
unfolding resolve_with
resolve_with-IsHolder lib entries conn r bytes given e =
    IsHolder-match_key conn.proxy_auth entries r bytes given e
