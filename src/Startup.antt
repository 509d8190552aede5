-- ===== src/Startup.antt =====
-- How the gateway starts: the authenticators of internal/channel/auth.go and NewServer of
-- internal/channel/server.go with match. The secret provider is any function that may keep a state of
-- its own. Of a rotation store only its size is kept here.
pub mod Server
pub mod Ready
pub mod Credentials
pub mod Matching
use llm_cluster_router.Prelude.{
  ℕ, List, [], ◌∷◌, ◌++◌, Option, none, some, Bool, true, false, not, ◌==◌, if◌then◌else◌, length,
}
use llm_cluster_router.Prelude.Bytes.{codes, bytes_eq, lower, trim_space}
use llm_cluster_router.Config.Route.{
  RouteConfig, AuthMode, auth_inject, auth_header_inject, auth_passthrough, auth_other,
  has_plural_keys,
}
use llm_cluster_router.Secrets.{Resolution}
use llm_cluster_router.Secrets.Resolver.{
  FirstResolution, none_named, all_failed, first_of, resolve_first,
}
use llm_cluster_router.Secrets.Pool.{
  PoolError, PoolResult, pool_refused, pool_of, secret_refs, declared_key_count, resolve_key_pool,
}

-- The headers of a request, one entry for each value. Names are compared in any case.
abbrev pub Headers : Type 0
Headers = List (List ℕ × List ℕ)

-- `strings.EqualFold`, for names in ASCII.
unfoldable pub equal_fold : List ℕ → List ℕ → Bool
unfolding bytes_eq lower
equal_fold a b = bytes_eq (lower a) (lower b)

-- `Header.Del` and `Header.Set`.
unfoldable pub delete_header : List ℕ → Headers → Headers
unfolding equal_fold
delete_header name [] = []
delete_header name ((n, v) ∷ hs) =
    if equal_fold n name then delete_header name hs else (n, v) ∷ delete_header name hs

unfoldable pub set_header : List ℕ → List ℕ → Headers → Headers
unfolding delete_header
set_header name value hs = (name, value) ∷ delete_header name hs

abbrev pub authorization : List ℕ
authorization = codes "Authorization"

abbrev pub bearer : List ℕ
bearer = codes "Bearer "

-- `leasedInjector`.
pub record LeasedInjector : Type 0 where
  pub key : List ℕ
  pub header : List ℕ
  pub prefix : List ℕ
  pub mode : AuthMode

-- `rotatingInjector`, with the size of its store.
pub record RotatingInjector : Type 0 where
  pub keys : List (List ℕ)
  pub store_size : ℕ
  pub route : List ℕ
  pub mode : AuthMode
  pub header : List ℕ
  pub prefix : List ℕ

-- The implementations of `Authenticator`.
pub data Authenticator : Type 0 where
  bearer_injector : List ℕ → Authenticator
  leased_injector : LeasedInjector → Authenticator
  rotating_injector : RotatingInjector → Authenticator
  passthrough : Authenticator

-- The header that a leased injector writes.
unfoldable pub header_name : List ℕ → List ℕ
header_name header = if length header == 0 then authorization else header

-- `leasedInjector.Apply` behind its test of the key.
unfoldable pub write_key : LeasedInjector → Headers → Headers
unfolding header_name equal_fold delete_header set_header
write_key l hs =
    let name = header_name l.header in
    let kept = if equal_fold name authorization then hs else delete_header authorization hs in
    set_header name (l.prefix ++ l.key) kept

-- `Apply`: the headers of the outbound request, or a refusal. A pool refuses, since it needs a lease.
unfoldable pub apply : Authenticator → Headers → Option Headers
unfolding set_header write_key
apply (bearer_injector key) hs =
    if length key == 0 then none else some (set_header authorization (bearer ++ key) hs)
apply (leased_injector l) hs = if length l.key == 0 then none else some (write_key l hs)
apply (rotating_injector r) hs = none
apply passthrough hs = some hs

-- `Mode`. The source's empty mode of a leased injector is never built.
unfoldable pub mode_of : Authenticator → AuthMode
mode_of (bearer_injector key) = auth_inject
mode_of (leased_injector l) = l.mode
mode_of (rotating_injector r) = r.mode
mode_of passthrough = auth_passthrough

-- Why the gateway does not start. A credential is named by what it is for.
pub data StartError : Type 0 where
  route_unresolved : List ℕ → FirstResolution → StartError
  route_blank route_unsupported : List ℕ → StartError
  route_pool_refused : List ℕ → PoolError → StartError
  connect_unresolved gateway_unresolved : FirstResolution → StartError
  connect_blank gateway_blank same_token : StartError

pub data Started (A : Type 0) : Type 0 where
  not_started : StartError → Started A
  started : A → Started A

-- The header and the prefix of a mode.
unfoldable pub header_of : RouteConfig → List ℕ × List ℕ
header_of r = elim r.auth [
  | auth_header_inject ↦ (r.key_header, r.key_prefix)
  | _ ↦ (authorization, bearer)
]

-- The authenticator of a single key.
unfoldable pub single_key : RouteConfig → List ℕ → Authenticator
unfolding header_of
single_key r key = elim r.auth [
  | auth_inject ↦ bearer_injector key
  | _ ↦ leased_injector (record {
    key = key;
    header = (header_of r).0;
    prefix = (header_of r).1;
    mode = auth_header_inject;
  })
]

-- What follows `resolveFirst`, with the last test for a blank.
unfoldable pub with_key : RouteConfig → FirstResolution → Started Authenticator
unfolding trim_space single_key
with_key r none_named = not_started (route_unresolved r.name none_named)
with_key r (all_failed errs) = not_started (route_unresolved r.name (all_failed errs))
with_key r (first_of key) =
    if length (trim_space key) == 0
    then not_started (route_blank r.name)
    else started (single_key r key)

-- What follows `resolveKeyPool`.
unfoldable pub with_pool : RouteConfig → ℕ → PoolResult → Started Authenticator
unfolding header_of
with_pool r size (pool_refused e) = not_started (route_pool_refused r.name e)
with_pool r size (pool_of keys) = started (
    rotating_injector (record {
      keys = keys;
      store_size = size;
      route = r.name;
      mode = r.auth;
      header = (header_of r).0;
      prefix = (header_of r).1;
    }))

module _ {S : Type 0} (sp : S → List ℕ → S × Resolution) where
  -- The two modes of `newAuthenticatorFor` in which the gateway holds the credential.
  unfoldable pub new_injector : S → RouteConfig → S × Started Authenticator
  unfolding has_plural_keys declared_key_count resolve_key_pool resolve_first secret_refs with_key
      with_pool
  new_injector s r =
      if has_plural_keys r
      then (let pool = resolve_key_pool sp s r in
          (pool.0, with_pool r (declared_key_count r) pool.1))
      else (let first = resolve_first sp s (secret_refs r.key_ref r.key_env r.key_file) in
          (first.0, with_key r first.1))

  -- `newAuthenticatorFor` for a mode, with a store of the declared size for a pool.
  unfoldable pub authenticator_in : AuthMode → S → RouteConfig → S × Started Authenticator
  unfolding new_injector
  authenticator_in auth_inject s r = new_injector s r
  authenticator_in auth_header_inject s r = new_injector s r
  authenticator_in auth_passthrough s r = (s, started passthrough)
  authenticator_in auth_other s r = (s, not_started (route_unsupported r.name))

  -- `newAuthenticatorFor`.
  unfoldable pub new_authenticator : S → RouteConfig → S × Started Authenticator
  unfolding authenticator_in
  new_authenticator s r = authenticator_in r.auth s r
