-- ===== src/Secrets/Swap/Bound.antt =====
-- Only the swaps for the request's host have a say.
use bot_marshal.Prelude.{
  Text, Option, none, some, Bool, true, false, List, [], ◌∷◌, Result, ok, err, ◌>>=◌, ◌≡◌, refl,
  sym, ap, ◌∙◌, arith, inl, inr, Bool-cases, Option-cases, Result-cases, >>=-eq-ok, keep,
  keep-accepted, keep-refused, is_some,
}
use bot_marshal.Core.Error.{Error}
use bot_marshal.Core.Request.{RequestContext, Uri}
use bot_marshal.Core.Hosts.{NetLib, matches}
use bot_marshal.Secrets.Sigv4.{SigLib, sign_sigv4}
use bot_marshal.Secrets.Swap.{
  Injection, basic, bearer, header, query, sigv4, SecretSwap, SecretInjector, excluded,
  try_set_header, set_query, resolve_token, inject, note_fact, note_injected, is_for, apply_swaps,
  apply_injector,
}

module _ (net : NetLib) (lib : SigLib) (rebuild_uri : Uri → Text → Option Uri) where
  try_set_header-authority :
      (cx : RequestContext) (name value : Text)
      → (try_set_header net lib rebuild_uri cx name value).0.authority ≡ cx.authority
  unfolding try_set_header
  try_set_header-authority cx name value = elim (Option-cases (lib.from_str value)) [
    | inl bad ↦ rw (try_set_header, bad) refl
    | inr (v, good) ↦ rw (try_set_header, good) refl
  ]

  set_query-authority :
      (cx : RequestContext) (uri : Option Uri)
      → (set_query net lib rebuild_uri cx uri).0.authority ≡ cx.authority
  unfolding set_query
  set_query-authority cx (some uri) = refl
  set_query-authority cx none = refl

  sign_sigv4-authority :
      (cx : RequestContext) (access_key secret : Text) (token : Option Text) (region service : Text)
      (signed : RequestContext)
      → sign_sigv4 lib cx access_key secret token region service ≡ ok signed
      → signed.authority ≡ cx.authority
  unfolding sign_sigv4
  sign_sigv4-authority cx access_key secret token region service signed e = ground arith

  step-authority :
      (cx : RequestContext) (m : Result Error Text) (f : Text → RequestContext × Bool)
      (r : RequestContext × Bool)
      → ((t : Text) → (f t).0.authority ≡ cx.authority)
      → (m >>= λ t. ok (f t)) ≡ ok r
      → r.0.authority ≡ cx.authority
  step-authority cx (err problem) f r h e = cc
  step-authority cx (ok t) f r h e = let same : f t ≡ r = ground arith in rw (← same) (h t)

  inject-authority :
      (injection : Injection) (cx : RequestContext) (r : RequestContext × Bool)
      → inject net lib rebuild_uri injection cx ≡ ok r
      → r.0.authority ≡ cx.authority
  unfolding inject
  inject-authority (basic username source) cx r e =
      step-authority cx source.resolve _ r (λ t. try_set_header-authority cx _ _) e
  inject-authority (bearer source) cx r e =
      step-authority cx source.resolve _ r (λ t. try_set_header-authority cx _ _) e
  inject-authority (header name source) cx r e =
      step-authority cx source.resolve _ r (λ t. try_set_header-authority cx _ _) e
  inject-authority (query name source) cx r e =
      step-authority cx source.resolve _ r (λ t. set_query-authority cx _) e
  inject-authority (sigv4 access_key secret_key token region service cap) cx r e =
      let (a, e1, f1) = >>=-eq-ok access_key.resolve _ r e in
      let (b, e2, f2) = >>=-eq-ok secret_key.resolve _ r f1 in
      let (c, e3, f3) = >>=-eq-ok (resolve_token token) _ r f2 in
      let (signed, e4, f4) = >>=-eq-ok (sign_sigv4 lib cx a b c region service) _ r f3 in
      let same : (signed, true) ≡ r = ground arith in
      rw (← same) (sign_sigv4-authority cx a b c region service signed e4)

  note_injected-authority :
      (swap : SecretSwap net.Net) (r : RequestContext × Bool)
      → (note_injected net lib rebuild_uri swap r).authority ≡ r.0.authority
  unfolding note_injected note_fact
  note_injected-authority swap (cx, true) = refl
  note_injected-authority swap (cx, false) = refl

  is_for-authority :
      (cx cx' : RequestContext)
      → cx'.authority ≡ cx.authority
      → is_for net lib rebuild_uri cx' ≡ is_for net lib rebuild_uri cx
  unfolding is_for
  is_for-authority cx cx' e = ap (λ a. λ swap. is_some (matches net swap.hosts a.host)) e

  apply_swaps-other :
      (swap : SecretSwap net.Net) (swaps : List (SecretSwap net.Net)) (cx : RequestContext)
      → is_for net lib rebuild_uri cx swap ≡ false
      → apply_swaps net lib rebuild_uri (swap ∷ swaps) cx ≡ apply_swaps net lib rebuild_uri swaps cx
  unfolding apply_swaps
  apply_swaps-other swap swaps cx off = rw (apply_swaps, off) refl

  apply_swaps-failed :
      (swap : SecretSwap net.Net) (swaps : List (SecretSwap net.Net)) (cx : RequestContext)
      (problem : Error)
      → is_for net lib rebuild_uri cx swap ≡ true
      → inject net lib rebuild_uri swap.injection cx ≡ err problem
      → apply_swaps net lib rebuild_uri (swap ∷ swaps) cx ≡ err problem
  unfolding apply_swaps
  apply_swaps-failed swap swaps cx problem on failed = rw (apply_swaps, on, failed) refl

  pub apply_swaps-done :
      (swap : SecretSwap net.Net) (swaps : List (SecretSwap net.Net)) (cx : RequestContext)
      (r : RequestContext × Bool)
      → is_for net lib rebuild_uri cx swap ≡ true
      → inject net lib rebuild_uri swap.injection cx ≡ ok r
      → apply_swaps net lib rebuild_uri (swap ∷ swaps) cx
        ≡ apply_swaps net lib rebuild_uri swaps (note_injected net lib rebuild_uri swap r)
  unfolding apply_swaps
  apply_swaps-done swap swaps cx r on done = rw (apply_swaps, on, done) refl

  -- A swap in front of two lists that do the same after it.
  apply_swaps-both :
      (swap : SecretSwap net.Net) (swaps others : List (SecretSwap net.Net)) (cx : RequestContext)
      → is_for net lib rebuild_uri cx swap ≡ true
      → ((r : RequestContext × Bool)
          → inject net lib rebuild_uri swap.injection cx ≡ ok r
          → apply_swaps net lib rebuild_uri swaps (note_injected net lib rebuild_uri swap r)
            ≡ apply_swaps net lib rebuild_uri others (note_injected net lib rebuild_uri swap r))
      → apply_swaps net lib rebuild_uri (swap ∷ swaps) cx
        ≡ apply_swaps net lib rebuild_uri (swap ∷ others) cx
  apply_swaps-both swap swaps others cx on later =
      elim (Result-cases (inject net lib rebuild_uri swap.injection cx)) [
        | inr (problem, failed) ↦
            apply_swaps-failed swap swaps cx problem on failed
            ∙ sym (apply_swaps-failed swap others cx problem on failed)
        | inl (r, done) ↦
            apply_swaps-done swap swaps cx r on done
            ∙ (later r done ∙ sym (apply_swaps-done swap others cx r on done))
      ]

  apply_swaps-keep :
      (swaps : List (SecretSwap net.Net)) (first cx : RequestContext)
      → cx.authority ≡ first.authority
      → apply_swaps net lib rebuild_uri swaps cx
        ≡ apply_swaps net lib rebuild_uri (keep (is_for net lib rebuild_uri first) swaps) cx
  unfolding apply_swaps
  apply_swaps-keep [] first cx e = refl
  apply_swaps-keep (swap ∷ swaps) first cx e =
      let p = is_for net lib rebuild_uri first in
      let same : is_for net lib rebuild_uri cx swap ≡ p swap =
        ap (λ f. f swap) (is_for-authority first cx e) in
      elim (Bool-cases (p swap)) [
        | inr off ↦
            rw (keep-refused p swap swaps off)
              (apply_swaps-other swap swaps cx (same ∙ off) ∙ apply_swaps-keep swaps first cx e)
        | inl on ↦ rw (keep-accepted p swap swaps on) (
            apply_swaps-both swap swaps (keep p swaps) cx (same ∙ on) (λ r done.
              apply_swaps-keep swaps first (note_injected net lib rebuild_uri swap r)
                (note_injected-authority swap r ∙ (inject-authority swap.injection cx r done ∙ e))))
      ]

-- What the injector does to a request, its error included, depends on no swap whose hosts do not
-- match the host of the request: taking those out of the injector changes nothing.
pub apply_injector-bound :
    (net : NetLib) (lib : SigLib) (rebuild_uri : Uri → Text → Option Uri)
    (injector : SecretInjector net.Net) (cx : RequestContext)
    → apply_injector net lib rebuild_uri injector cx
      ≡ apply_injector net lib rebuild_uri
          (record injector { swaps = keep (is_for net lib rebuild_uri cx) injector.swaps })
          cx
unfolding apply_injector excluded
apply_injector-bound net lib rebuild_uri injector cx = elim (Option-cases (excluded injector cx)) [
  | inl open_to ↦
      rw (apply_injector, open_to) (apply_swaps-keep net lib rebuild_uri injector.swaps cx cx refl)
  | inr (e, found) ↦ rw (apply_injector, found) refl
]
