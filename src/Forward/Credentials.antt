-- ===== src/Forward/Credentials.antt =====
-- Whose credentials go upstream.
use llm_cluster_router.Prelude.{
  ℕ, ◌≡◌, refl, sym, inl, inr, List, [], ◌∷◌, ◌++◌, Option, none, some, true, false, ◌==◌, length,
  All, Bool-cases, some_inj, arith, if◌then◌else◌,
}
use llm_cluster_router.Prelude.Bytes.{codes, lower}
use llm_cluster_router.Config.Route.{hop_by_hop, is_among}
use llm_cluster_router.Startup.{
  Headers, equal_fold, delete_header, set_header, authorization, bearer, header_name, write_key,
  Authenticator, bearer_injector, leased_injector, rotating_injector, passthrough, apply, mode_of,
}
use llm_cluster_router.Startup.Server.{BoundRoute}
use llm_cluster_router.Forward.{
  caller_credential_headers, folds_among, is_caller_credential, supplies_own, keeps_header,
  pass_headers, outbound_headers, user_agent, agent,
}

-- The eight names under which a caller could pass for a key holder with the vendors that are served.
abbrev pub credential_names : List (List ℕ)
credential_names =
    codes "authorization"
    ∷ codes "proxy-authorization"
    ∷ codes "x-api-key"
    ∷ codes "api-key"
    ∷ codes "x-goog-api-key"
    ∷ codes "cookie"
    ∷ codes "openai-organization"
    ∷ codes "openai-project"
    ∷ []

-- What may stand beside the credential `name` that the gateway writes: no header that is bound to its
-- connection, none of the names above, and none of that name.
abbrev Clean : List ℕ → List ℕ × List ℕ → Type 0
Clean name h =
    (is_among hop_by_hop (lower h.0) ≡ false)
    × (folds_among credential_names h.0 ≡ false)
    × (equal_fold h.0 name ≡ false)

-- The same before the credential is written.
abbrev Stripped : List ℕ × List ℕ → Type 0
Stripped h = (is_among hop_by_hop (lower h.0) ≡ false) × (folds_among credential_names h.0 ≡ false)

not_deny :
    (name key_header : List ℕ)
    → is_caller_credential name key_header ≡ false
    → folds_among caller_credential_headers name ≡ false
unfolding is_caller_credential
not_deny name key_header h = elim (Bool-cases (folds_among caller_credential_headers name)) [
  | inl e ↦ absurd (ground (arith, rw (e, is_caller_credential) at h))
  | inr e ↦ e
]

pass_headers-Stripped :
    (key_header : List ℕ) (hs : Headers) → All Stripped (pass_headers true key_header hs)
unfolding pass_headers keeps_header
pass_headers-Stripped key_header [] = tt
pass_headers-Stripped key_header ((n, v) ∷ hs) = elim (Bool-cases (is_among hop_by_hop (lower n))) [
  | inl e ↦ rw (e, keeps_header) (pass_headers-Stripped key_header hs)
  | inr e ↦ elim (Bool-cases (is_caller_credential n key_header)) [
    | inl e' ↦ rw (e, e', keeps_header) (pass_headers-Stripped key_header hs)
    | inr e' ↦
        rw (e, e', keeps_header)
          ((e, not_deny n key_header e'), pass_headers-Stripped key_header hs)
  ]
]

delete_header-Stripped :
    (name : List ℕ) (hs : Headers) → All Stripped hs → All Stripped (delete_header name hs)
unfolding delete_header
delete_header-Stripped name [] h = tt
delete_header-Stripped name ((n, v) ∷ hs) h = elim (Bool-cases (equal_fold n name)) [
  | inl e ↦ rw e (delete_header-Stripped name hs h.1)
  | inr e ↦ rw e (h.0, delete_header-Stripped name hs h.1)
]

-- What is left has another name.
delete_header-Clean :
    (name : List ℕ) (hs : Headers) → All Stripped hs → All (Clean name) (delete_header name hs)
unfolding delete_header
delete_header-Clean name [] h = tt
delete_header-Clean name ((n, v) ∷ hs) h = elim (Bool-cases (equal_fold n name)) [
  | inl e ↦ rw e (delete_header-Clean name hs h.1)
  | inr e ↦ rw e ((h.0.0, h.0.1, e), delete_header-Clean name hs h.1)
]

-- The name and the value that an authenticator writes.
unfoldable pub credential_of : Authenticator → Option (List ℕ × List ℕ)
credential_of (bearer_injector key) = some (authorization, bearer ++ key)
credential_of (leased_injector l) = some (header_name l.header, l.prefix ++ l.key)
credential_of (rotating_injector r) = none
credential_of passthrough = none

-- A request with a credential that the gateway wrote, and nothing beside it that could stand for one.
pub record HasCredential (auth : Authenticator) (out : Headers) : Type 0 where
  pub name : List ℕ
  pub value : List ℕ
  pub rest : Headers
  pub own : credential_of auth ≡ some (name, value)
  pub shape : out ≡ (name, value) ∷ rest
  pub clean : All (Clean name) rest

apply-HasCredential :
    (auth : Authenticator) (hs : Headers) (out : Headers)
    → supplies_own (mode_of auth) ≡ false
    → All Stripped hs
    → apply auth hs ≡ some out
    → HasCredential auth out
unfolding apply set_header write_key mode_of supplies_own credential_of
apply-HasCredential (bearer_injector key) hs out own ok h = elim (Bool-cases (length key == 0)) [
  | inl e ↦ absurd (ground (arith, rw e at h))
  | inr e ↦ record {
    name = authorization;
    value = bearer ++ key;
    rest = delete_header authorization hs;
    own = refl;
    shape = sym (some_inj (rw e at h));
    clean = delete_header-Clean authorization hs ok;
  }
]
apply-HasCredential (leased_injector l) hs out own ok h = elim (Bool-cases (length l.key == 0)) [
  | inl e ↦ absurd (ground (arith, rw e at h))
  | inr e ↦
      let name = header_name l.header in
      let kept = if equal_fold name authorization then hs else delete_header authorization hs in
      let still : All Stripped kept = elim (Bool-cases (equal_fold name authorization)) [
        | inl f ↦ rw f ok
        | inr f ↦ rw f (delete_header-Stripped authorization hs ok)
      ] in
      record {
        name = name;
        value = l.prefix ++ l.key;
        rest = delete_header name kept;
        own = refl;
        shape = sym (some_inj (rw e at h));
        clean = delete_header-Clean name kept still;
      }
]
apply-HasCredential (rotating_injector r) hs out own ok h = absurd (ground (arith, h))
apply-HasCredential passthrough hs out own ok h = absurd (ground (arith, own))

-- On a route whose credential the gateway holds, the upstream request carries the credential of its
-- authenticator; of what the caller sent it has no header of that name, none that is bound to its
-- connection, and none of these eight, in whatever case they are spelled: Authorization,
-- Proxy-Authorization, X-Api-Key, Api-Key, X-Goog-Api-Key, Cookie, OpenAI-Organization and
-- OpenAI-Project. Nothing is said of a credential under another name.
pub outbound_headers-HasCredential :
    (rt : BoundRoute) (hs out : Headers)
    → supplies_own (mode_of rt.auth) ≡ false
    → outbound_headers rt hs ≡ some out
    → HasCredential rt.auth out
unfolding outbound_headers set_header
outbound_headers-HasCredential rt hs out own h =
    let passed = pass_headers-Stripped rt.route.key_header hs in
    apply-HasCredential rt.auth
      (set_header user_agent agent (pass_headers true rt.route.key_header hs)) out own
      (
        (refl, refl),
        delete_header-Stripped user_agent (pass_headers true rt.route.key_header hs) passed,
      )
      (rw own at h)
