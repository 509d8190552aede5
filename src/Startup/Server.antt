-- ===== src/Startup/Server.antt =====
-- `NewServer` and `match` of internal/channel/server.go. The forwarder, the auditor and the clocks are not
-- part of the server here.
use llm_cluster_router.Prelude.{
  ℕ, List, [], ◌∷◌, Option, none, some, not, ltb, ◌==◌, ◌&&◌, if◌then◌else◌, length, map,
}
use llm_cluster_router.Prelude.Int.{positive_or}
use llm_cluster_router.Prelude.Bytes.{bytes_eq, lower, starts_with, trim_space}
use llm_cluster_router.Config.Route.{RouteConfig}
use llm_cluster_router.Config.Connect.{ConnectConfig, default_max_concurrent}
use llm_cluster_router.Config.Auth.{GatewayAuthConfig, has_token, mode_of}
use llm_cluster_router.Config.Whole.{Config}
use llm_cluster_router.Gateway.{ProxyAuthMode}
use llm_cluster_router.Secrets.{Resolution}
use llm_cluster_router.Secrets.Resolver.{
  FirstResolution, none_named, all_failed, first_of, resolve_first,
}
use llm_cluster_router.Secrets.Pool.{secret_refs}
use llm_cluster_router.Startup.{
  Authenticator, StartError, connect_unresolved, connect_blank, gateway_unresolved, gateway_blank,
  same_token, Started, not_started, started, new_authenticator,
}

-- `boundRoute`.
pub record BoundRoute : Type 0 where
  pub route : RouteConfig
  pub auth : Authenticator

-- `Server`, as NewServer leaves it. An empty token is none; `tunnels` is the size of the semaphore.
pub record Server : Type 0 where
  pub routes : List BoundRoute
  pub conn_token : List ℕ
  pub allowed : List (List ℕ)
  pub tunnels : Option ℕ
  pub proxy_auth : ProxyAuthMode
  pub proxy_token : List ℕ

-- `EnabledRoutes`.
unfoldable pub enabled_routes : List RouteConfig → List RouteConfig
enabled_routes [] = []
enabled_routes (r ∷ rs) = if r.enabled then r ∷ enabled_routes rs else enabled_routes rs

-- `connectMaxConcurrent`.
unfoldable pub connect_max_concurrent : ConnectConfig → ℕ
connect_max_concurrent c = positive_or default_max_concurrent c.max_concurrent

-- The routes by the length of their prefix, longest first. Those of one length keep their order.
unfoldable pub insert_route : BoundRoute → List BoundRoute → List BoundRoute
insert_route b [] = b ∷ []
insert_route b (c ∷ cs) =
    let rest = insert_route b cs in
    if ltb (length b.route.prefix) (length c.route.prefix) then c ∷ rest else b ∷ c ∷ cs

unfoldable pub longest_first : List BoundRoute → List BoundRoute
unfolding insert_route
longest_first [] = []
longest_first (b ∷ bs) = insert_route b (longest_first bs)

-- `match`.
unfoldable pub match_route : List ℕ → List BoundRoute → Option BoundRoute
unfolding starts_with
match_route path [] = none
match_route path (b ∷ bs) = if starts_with path b.route.prefix then some b else match_route path bs

unfoldable pub add_route :
    RouteConfig → Started Authenticator → Started (List BoundRoute) → Started (List BoundRoute)
add_route r (not_started e) rest = not_started e
add_route r (started auth) (not_started e) = not_started e
add_route r (started auth) (started bs) = started (record { route = r; auth = auth } ∷ bs)

-- A token that was resolved, with the last test for a blank.
unfoldable pub token_of :
    (FirstResolution → StartError) → StartError → FirstResolution → Started (List ℕ)
unfolding trim_space
token_of unresolved blank none_named = not_started (unresolved none_named)
token_of unresolved blank (all_failed errs) = not_started (unresolved (all_failed errs))
token_of unresolved blank (first_of tok) =
    if length (trim_space tok) == 0 then not_started blank else started (trim_space tok)

-- `s.allowed`, of the leg that is enabled.
unfoldable pub open_connect : ConnectConfig → List ℕ → Server → Server
unfolding lower connect_max_concurrent
open_connect c tok srv = record srv {
  conn_token = tok;
  allowed = map lower c.allowed_hosts;
  tunnels = some (connect_max_concurrent c);
}

-- The gateway's own token must differ from the one of the tunnels.
unfoldable pub with_proxy_token : List ℕ → Server → Started Server
unfolding bytes_eq
with_proxy_token tok srv =
    if not (length srv.conn_token == 0) && bytes_eq tok srv.conn_token
    then not_started same_token
    else started (record srv { proxy_token = tok })

abbrev pub and_then : {A B : Type 0} → Started A → (A → Started B) → Started B
and_then (not_started e) f = not_started e
and_then (started a) f = f a

-- The server behind the loop over the routes: no leg is open.
unfoldable pub fresh_server : Config → List BoundRoute → Server
unfolding longest_first mode_of
fresh_server cfg bs = record {
  routes = longest_first bs;
  conn_token = [];
  allowed = [];
  tunnels = none;
  proxy_auth = mode_of cfg.gateway_auth;
  proxy_token = [];
}

module _ {S : Type 0} (sp : S → List ℕ → S × Resolution) where
  -- The loop over the enabled routes.
  unfoldable pub bind_routes : S → List RouteConfig → S × Started (List BoundRoute)
  unfolding new_authenticator add_route
  bind_routes s [] = (s, started [])
  bind_routes s (r ∷ rs) =
      let auth = new_authenticator sp s r in
      elim auth.1 [
        | not_started e ↦ (auth.0, not_started e)
        | started a ↦ (let rest = bind_routes auth.0 rs in (rest.0, add_route r (started a) rest.1))
      ]

  -- The CONNECT leg.
  unfoldable pub start_connect : S → ConnectConfig → Server → S × Started Server
  unfolding resolve_first secret_refs token_of open_connect
  start_connect s c srv =
      if not c.enabled
      then (s, started srv)
      else (let first = resolve_first sp s (secret_refs c.token_ref c.token_env c.token_file) in
          (
            first.0,
            and_then (token_of connect_unresolved connect_blank first.1)
                (λ tok. started (open_connect c tok srv)),
          ))

  -- The token of the reverse-proxy leg.
  unfoldable pub start_gateway : S → GatewayAuthConfig → Server → S × Started Server
  unfolding resolve_first secret_refs token_of with_proxy_token has_token
  start_gateway s g srv =
      if not (has_token g)
      then (s, started srv)
      else (let first = resolve_first sp s (secret_refs g.token_ref g.token_env g.token_file) in
          (
            first.0,
            and_then (token_of gateway_unresolved gateway_blank first.1)
                (λ tok. with_proxy_token tok srv),
          ))

  -- What follows the binding of the routes.
  unfoldable pub start_legs : S → Config → Started (List BoundRoute) → S × Started Server
  unfolding fresh_server start_connect start_gateway
  start_legs s cfg (not_started e) = (s, not_started e)
  start_legs s cfg (started bs) =
      let connected = start_connect s cfg.connect (fresh_server cfg bs) in
      elim connected.1 [
        | not_started e ↦ (connected.0, not_started e)
        | started srv' ↦ start_gateway connected.0 cfg.gateway_auth srv'
      ]

  -- `NewServer`.
  unfoldable pub new_server : S → Config → S × Started Server
  unfolding enabled_routes bind_routes start_legs
  new_server s cfg =
      let bound = bind_routes s (enabled_routes cfg.routes) in start_legs bound.0 cfg bound.1
